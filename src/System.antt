-- ===== src/System.antt =====
-- The invariant of the platform's tables across its services: the execution queue
-- (api/app/services/execution_queue.py), the leases of nodes (api/app/services/execution_node.py)
-- and the starts of runs (api/app/services/testcase.py).
pub mod Sound
pub mod Leases
pub mod Starts
pub mod Steps
pub mod Ends
pub mod Histories

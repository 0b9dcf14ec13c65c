-- ===== src/Lib.antt =====
-- Pressure platform: a service that stores load tests, runs them with JMeter on a master and on
-- pressure nodes, and keeps reports. This development is about how runs start, wait and end.
--
-- The parts and the files that model them:
--   Prelude (Tests, Lists, Search, Text, Int): lists, texts as code points, and signed numbers.
--   Store: the tables as lists of rows (api/app/models), the codes and exceptions
--     (api/app/core/codes.py, api/app/core/exceptions.py), the stamps (api/app/core/audit.py), and
--     `Action`, a call that sees the tables, changes them, and returns or raises.
--   ExecutionNode: leases of nodes (api/app/services/execution_node.py, api/app/crud/node.py).
--   RunParams: checks of run parameters, and shares of nodes (api/app/services/testcase.py).
--   CsvSplit: slices of parameter files (`_split_csv_lines_for_slaves`).
--   ExecutionQueue: the queue's rows and operations (api/app/services/execution_queue.py,
--     api/app/crud/execution_queue.py, and `_claim_execution_queue_for_start`,
--     `_bind_execution_queue_report`, `_mark_execution_queue_stopped`).
--   TestcaseRun, RunStart: `_should_queue_run` and `_run_testcase_now`, stage by stage.
--   Dispatch: `run_testcase`, `run_testcase_legacy` and `dispatch_pending_once`.
--   RunEnd: stops, the timeout scan (api/app/services/timeout_scanner.py), the callback of a
--     finished process (`_update_testcase_and_report` of api/app/services/jmeter_runner.py) and
--     the recovery at startup (`_recover_stuck_tasks` of api/app/main.py).
--   ThreadGroups, Pacing: a JMeter script as a tree, the keys of its thread groups, the settings
--     of a run in it, and the pacing timers (api/app/core/jmeter_thread_groups.py,
--     api/app/core/jmeter_xml_support.py, api/app/core/jmeter_pacing.py). RunStart takes the
--     writing of the script as a parameter and does not use them.
--   Calendar, NextRun, Schedule: dates and times of day, the next run of a scheduled task, and the
--     tasks with their requests, runs and logs
--     (api/app/services/scheduled_task.py, api/app/crud/scheduled_task.py).
--   Metrics: the windows of a running report (api/app/services/report_metrics.py).
--   ProcessRun: the table of execution runs from the launch of a JMeter process to its end
--     (api/app/services/jmeter_runner.py, api/app/models/execution_run.py).
--   ShellSafety: the commands for pressure nodes, their quoting, and a reader of shell words
--     (api/app/core/shell_safety.py).
--   Heartbeat: probes of the nodes and their conditional writes
--     (api/app/services/node_heartbeat.py).
--   Accounts: log-ins, changes of passwords and the check of tokens (api/app/services/user.py,
--     api/app/deps/auth.py, api/app/core/security.py), and roles (api/app/services/role.py).
--   System: requests, scans, callbacks and restarts as steps on one database.
--   Tests: the development on concrete tables.
--
-- A call of a service is one step: what two calls do between each other's awaits is not modelled,
-- except that the lease query locks the nodes it asks for. The writes of a call are kept when it
-- raises, since the code commits before the steps that can still raise.
-- Times are seconds of one clock. Integers are unbounded, as Python's are, and keys are natural
-- numbers; the shares of threads are quotients of floats, rounded to 53 bits. Recursion is
-- structural throughout; `str` on a number n has n + 1 rounds of fuel, which is enough since each
-- round divides by ten, and `float_shift` has 1100, which is enough since a quotient that has not
-- got down to 53 bits by then is past the largest float.
--
-- What happens outside the tables is a parameter (`Env`, `StopEnv`): SSH, files, JMeter processes
-- and the clock. Not modelled: the HTTP layer, the script editor, the adding of users, report pages,
-- the figures of metrics that are rounded as floats, and the front end.
pub mod Prelude
pub mod Store
pub mod ExecutionNode
pub mod RunParams
pub mod CsvSplit
pub mod ExecutionQueue
pub mod TestcaseRun
pub mod RunStart
pub mod Dispatch
pub mod RunEnd
pub mod ThreadGroups
pub mod Pacing
pub mod Tests
pub mod Calendar
pub mod NextRun
pub mod Schedule
pub mod Metrics
pub mod ShellSafety
pub mod ProcessRun
pub mod Accounts
pub mod Heartbeat
pub mod System

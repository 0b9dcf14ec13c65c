-- ===== src/Tests/Nodes.antt =====
-- Leases on concrete tables (api/app/services/execution_node.py).
use pressure_platform.Prelude.{◌≡◌, refl, false, [], ◌∷◌, arith, take}
use pressure_platform.Store.{LeaseStatus, ok}
use pressure_platform.ExecutionNode.{
  list_available_slaves, lease_nodes, release_by_report, new_leases, active_node_ids,
}
use pressure_platform.ExecutionNode.Exclusive.{IsExclusive, lease_nodes-IsExclusive}
use pressure_platform.ExecutionNode.Release.{
  release_by_report-lease_nodes, held_by, release_by_report_lem,
}
use pressure_platform.ExecutionNode.Available.{lease_nodes-list_available_slaves}
use pressure_platform.Tests.Samples.{node, idle, running, running-IsExclusive, nodes-AreDistinct}

lease_nodes-IsExclusive_example :
    IsExclusive (lease_nodes 2 1 (node 1 ∷ node 2 ∷ []) [] 200 running).1
lease_nodes-IsExclusive_example =
    lease_nodes-IsExclusive 2 1 (node 1 ∷ node 2 ∷ []) [] 200 running running-IsExclusive
      nodes-AreDistinct

release_by_report_lem_example :
    let (result, after) = release_by_report 1 [] LeaseStatus.released 200 running in
    (result ≡ ok (held_by 1 running.leases))
    × (held_by 1 after.leases ≡ 0)
    × (held_by 2 after.leases ≡ held_by 2 running.leases)
release_by_report_lem_example =
    release_by_report_lem 1 2 [] LeaseStatus.released 200 running (λ e. cc) (λ e. omega (arith, e))

release_by_report-lease_nodes_example :
    let (result, after) =
      release_by_report 1 [] LeaseStatus.released 300
        (lease_nodes 1 1 (node 1 ∷ node 2 ∷ []) [] 200 idle).1 in
    (result ≡ ok 2) × (active_node_ids after ≡ active_node_ids idle)
unfolding lease_nodes
release_by_report-lease_nodes_example =
    release_by_report-lease_nodes 1 1 (node 1 ∷ node 2 ∷ []) [] 200 300 LeaseStatus.released [] idle
      (new_leases 1 1 1 (node 1 ∷ node 2 ∷ []) [] 200) (λ e. cc) refl refl

lease_nodes-list_available_slaves_example :
    let nodes = take 2 (list_available_slaves [] false idle) in
    ((lease_nodes 1 1 nodes [] 200 idle).0 ≡ ok (new_leases 1 1 1 nodes [] 200))
    × ((lease_nodes 1 1 nodes [] 200 idle).1.leases ≡ new_leases 1 1 1 nodes [] 200)
lease_nodes-list_available_slaves_example =
    lease_nodes-list_available_slaves [] false 2 1 1 200 idle
      ((λ e. omega (arith, e)), ((λ e. omega (arith, e)), tt))

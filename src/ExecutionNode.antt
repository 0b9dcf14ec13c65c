-- ===== src/ExecutionNode.antt =====
-- The leases of pressure nodes (api/app/services/execution_node.py) and the node queries that they
-- use (api/app/crud/node.py).
pub mod Exclusive
pub mod Release
pub mod Available
use pressure_platform.Prelude.{
  ℕ, ◌+◌, suc, Bool, true, false, not, ◌&&◌, ◌||◌, none, some, List, [], ◌∷◌, ◌++◌, map,
  if◌then◌else◌, ◌==◌, length, keep, update_where, any, elem, is_nil,
}
use pressure_platform.Prelude.Text.{Text, codes, strip, split, text_eq, is_empty, join}
use pressure_platform.Store.{
  Db, Node, NodeType, NodeStatus, ExecutionNode, LeaseStatus, Action, Error, ok, err,
}

-- `lease.status in ACTIVE_STATUSES`
abbrev pub is_active : ExecutionNode → Bool
is_active lease = elim lease.status [ LeaseStatus.leased ↦ true | _ ↦ false ]

-- `crud.node._region_matches`: the node's region is a comma-separated list of tokens.
abbrev has_token : Text → List Text → Bool
has_token target = any (λ r. not (is_empty (strip r)) && text_eq target (strip r))

unfoldable pub region_matches : Text → Text → Bool
region_matches node_region region =
    if is_empty (strip region) then true else has_token (strip region) (split 44 node_region)

abbrev pub is_enable_slave : Node → Bool
is_enable_slave node = elim node.type [
  | NodeType.slave ↦ elim node.status [ NodeStatus.enable ↦ true | _ ↦ false ]
  | NodeType.master ↦ false
]

-- `crud.node.list_enable_slaves`; the absent region is the empty text.
unfoldable pub list_enable_slaves : Text → Db → List Node
unfolding region_matches
list_enable_slaves region db =
    let nodes = keep is_enable_slave db.nodes in
    if is_empty region then nodes else keep (λ n. region_matches n.region region) nodes

unfoldable pub active_node_ids : Db → List ℕ
active_node_ids db =
    map (λ l. l.node_id) (keep (λ l. is_active l && not (l.node_id == 0)) db.leases)

-- Not leased, and healthy unless the caller ignores health.
abbrev pub available_test : Bool → Db → Node → Bool
available_test ignore_health db n =
    not (elem n.id (active_node_ids db)) && (ignore_health || n.health_status == 1)

unfoldable pub list_available_slaves : Text → Bool → Db → List Node
unfolding list_enable_slaves active_node_ids
list_available_slaves region ignore_health db =
    keep (available_test ignore_health db) (list_enable_slaves region db)

unfoldable pub count_available_slaves : Text → Bool → Db → ℕ
unfolding list_available_slaves
count_available_slaves region ignore_health db =
    length (list_available_slaves region ignore_health db)

-- `active_hosts_by_report_ids`, for one report: the hosts of its active leases in the order of
-- their keys, which is the order of the table; a lease with no host is passed over.
unfoldable pub active_hosts : ℕ → Db → List Text
active_hosts report_id db =
    map (λ l. l.node_host)
      (keep (λ l. l.report_id == report_id && is_active l && not (is_empty l.node_host)) db.leases)

-- The node ids among `node_ids` that an active lease holds.
abbrev pub leased_among : List ℕ → Db → List ℕ
leased_among node_ids db =
    map (λ l. l.node_id) (keep (λ l. elem l.node_id node_ids && is_active l) db.leases)

abbrev pub new_lease : ℕ → ℕ → ℕ → Node → Text → ℕ → ExecutionNode
new_lease key report_id test_case_id node region now = record {
  id = key;
  report_id = report_id;
  test_case_id = test_case_id;
  execution_run_id = 0;
  node_id = node.id;
  node_host = node.host;
  region = region;
  status = LeaseStatus.leased;
  leased_at = now;
  released_at = none;
  release_message = [];
}

-- The loop that adds a lease for each node.
abbrev pub new_leases : ℕ → ℕ → ℕ → List Node → Text → ℕ → List ExecutionNode
new_leases key report_id test_case_id [] region now = []
new_leases key report_id test_case_id (n ∷ nodes) region now =
    new_lease key report_id test_case_id n region now
    ∷ new_leases (suc key) report_id test_case_id nodes region now

abbrev pub add_leases : ℕ → ℕ → List Node → Text → ℕ → Db → Db
add_leases report_id test_case_id nodes region now db = record db {
  leases = db.leases ++ new_leases db.next_lease_id report_id test_case_id nodes region now;
  next_lease_id = db.next_lease_id + length nodes;
}

unfoldable pub occupied_message : List Node → Text
occupied_message conflicts = codes "压力机已被占用: " ++ join 44 (map (λ n. n.host) conflicts)

-- `select … with_for_update` serialises concurrent calls on the same nodes, so one call is one step.
unfoldable pub lease_nodes : ℕ → ℕ → List Node → Text → ℕ → Action (List ExecutionNode)
lease_nodes report_id test_case_id nodes region now db =
    let leased_ids = leased_among (map (λ n. n.id) nodes) db in
    let conflicts = keep (λ n. elem n.id leased_ids) nodes in
    if is_nil nodes
    then (ok [], db)
    else if is_nil conflicts
    then (
      ok (new_leases db.next_lease_id report_id test_case_id nodes region now),
      add_leases report_id test_case_id nodes region now db,
    )
    else (err (Error.runtime_error (occupied_message conflicts)), db)

-- What both release operations write into a lease.
abbrev pub close_lease : LeaseStatus → Text → ℕ → ExecutionNode → ExecutionNode
close_lease status message now lease = record lease {
  status = status;
  released_at = some now;
  release_message = message;
}

abbrev pub is_held_by : ℕ → ExecutionNode → Bool
is_held_by report_id lease = lease.report_id == report_id && is_active lease

-- Returns how many leases were released.
unfoldable pub release_by_report : ℕ → Text → LeaseStatus → ℕ → Action ℕ
release_by_report report_id message status now db =
    let rows = keep (is_held_by report_id) db.leases in
    if is_nil rows then (ok 0, db) else (
      ok (length rows),
      record db {
        leases = update_where (is_held_by report_id) (close_lease status message now) db.leases;
      },
    )

unfoldable pub mark_active_lost : Text → ℕ → Action ℕ
mark_active_lost message now db =
    let rows = keep is_active db.leases in
    if is_nil rows then (ok 0, db) else (
      ok (length rows),
      record db {
        leases = update_where is_active (close_lease LeaseStatus.lost message now) db.leases;
      },
    )

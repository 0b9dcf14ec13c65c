-- ===== src/Heartbeat.antt =====
-- The heartbeat of the pressure nodes (api/app/services/node_heartbeat.py): a reading of the table
-- of nodes, a probe of each enabled slave over SSH, and conditional writes to the table as it is by
-- then. What SSH brings back is an argument; figures of load are whole hundredths.
pub mod Rounds
use pressure_platform.Prelude.{
  ℕ, zero, suc, ◌+◌, Bool, true, false, not, ◌&&◌, ◌||◌, Option, none, some, List, [], ◌∷◌, ◌++◌,
  map, if◌then◌else◌, ◌==◌, keep, update_where, find,
}
use pressure_platform.Prelude.Text.{contains, Text, codes, text_eq, is_empty}
use pressure_platform.Store.{Node, NodeType, NodeStatus, Result, ok, err, and_then}
use pressure_platform.ShellSafety.{build_jmeter_server_start}

-- The figures of a node's load.
pub record Load : Type 0 where
  pub cpu_usage : ℕ
  pub mem_usage : ℕ
  pub load_avg : ℕ

-- A row of the table of nodes, with the columns that only the heartbeat uses.
pub record NodeRow : Type 0 where
  pub node : Node
  pub port : ℕ
  pub username : Text
  pub password : Text
  pub modify_time : ℕ
  pub last_heartbeat : Option ℕ
  pub load : Load

pub record NodeSnapshot : Type 0 where
  pub id : ℕ
  pub name : Text
  pub host : Text
  pub port : ℕ
  pub username : Text
  pub password : Text
  pub modify_time : ℕ
  pub last_heartbeat : Option ℕ

pub record HeartbeatResult : Type 0 where
  pub node : NodeSnapshot
  pub health_status : ℕ
  pub checked_at : ℕ
  pub load : Option Load

-- What the SSH session of one node brings back, or raises.
pub record Ssh : Type 0 where
  pub telnet : Result (Unit {0})
  pub figures : Result Load
  pub ps_output : Result Text
  pub start : Text → Result Text
  pub ps_after_start : Result Text

unfoldable pub jmeter_server_running : Text → Bool
jmeter_server_running output = not (is_empty output) && not (text_eq output (codes "null"))

unfoldable pub jmeter_server_started : Text → Text → Bool
unfolding contains
jmeter_server_started output host =
    not (is_empty output) && (contains host output || contains (codes "Using local port") output)

-- The two folders of the configuration, and what they need to be checked.
pub record Paths : Type 0 where
  pub is_alnum : ℕ → Bool
  pub is_ip : Text → Bool
  pub slave_bin : Text
  pub slave_log : Text

unfoldable pub start_line : Paths → NodeSnapshot → Result (Option Text)
start_line paths node =
    if not (is_empty paths.slave_bin) && not (is_empty paths.slave_log)
    then and_then
        (build_jmeter_server_start paths.is_alnum paths.is_ip paths.slave_bin paths.slave_log
          node.host)
        (λ line. ok (some line))
    else ok none

-- The node has no server: start one, if the folders are known, and look again.
unfoldable pub restart_server : Ssh → NodeSnapshot → Option Text → Result Bool
unfolding jmeter_server_running jmeter_server_started
restart_server ssh node none = ok false
restart_server ssh node (some line) = and_then (ssh.start line) (λ result.
    and_then ssh.ps_after_start
      (λ after. ok (jmeter_server_running after || jmeter_server_started result node.host)))

unfoldable pub ensure_jmeter_server_running : Paths → Ssh → NodeSnapshot → Result Bool
unfolding start_line restart_server
ensure_jmeter_server_running paths ssh node = and_then (start_line paths node) (λ line.
    and_then ssh.ps_output
      (λ output. if jmeter_server_running output then ok true else restart_server ssh node line))

abbrev outcome_of : NodeSnapshot → ℕ → Load → Result Bool → HeartbeatResult
outcome_of node now load (ok healthy) = record {
  node = node;
  health_status = if healthy then 1 else 0;
  checked_at = now;
  load = some load;
}
outcome_of node now load (err e) = record {
  node = node;
  health_status = 0;
  checked_at = now;
  load = none;
}

abbrev offline : NodeSnapshot → ℕ → HeartbeatResult
offline node now = record { node = node; health_status = 0; checked_at = now; load = none }

abbrev measured : Paths → Ssh → NodeSnapshot → ℕ → Result Load → HeartbeatResult
measured paths ssh node now (ok load) =
    outcome_of node now load (ensure_jmeter_server_running paths ssh node)
measured paths ssh node now (err e) = offline node now

-- `_check_single_node`: any exception makes the node unhealthy and leaves its figures.
unfoldable pub check_single_node : Paths → (ℕ → Ssh) → ℕ → NodeSnapshot → HeartbeatResult
unfolding ensure_jmeter_server_running
check_single_node paths ssh now node = elim ((ssh node.id).telnet) [
  | err e ↦ offline node now
  | ok _ ↦ measured paths (ssh node.id) node now (ssh node.id).figures
]

abbrev pub is_enabled_slave : Node → Bool
is_enabled_slave n = elim n.type [
  | NodeType.slave ↦ elim n.status [ NodeStatus.enable ↦ true | _ ↦ false ]
  | NodeType.master ↦ false
]

abbrev pub snapshot_of : NodeRow → NodeSnapshot
snapshot_of x = record {
  id = x.node.id;
  name = x.node.name;
  host = x.node.host;
  port = x.port;
  username = x.username;
  password = x.password;
  modify_time = x.modify_time;
  last_heartbeat = x.last_heartbeat;
}

-- The reading at the start of a round; the table is in the order of its keys.
unfoldable pub snapshots : List NodeRow → List NodeSnapshot
snapshots rows = map snapshot_of (keep (λ x. is_enabled_slave x.node) rows)

-- `cast(Node.last_heartbeat, String) == node.last_heartbeat`, which is `IS NULL` for `None`.
abbrev pub same_time : Option ℕ → Option ℕ → Bool
same_time none none = true
same_time (some a) (some b) = a == b
same_time _ _ = false

-- The condition of the update.
unfoldable pub still_matches : NodeSnapshot → NodeRow → Bool
still_matches n x =
    x.node.id == n.id
    && is_enabled_slave x.node
    && text_eq x.node.host n.host
    && x.port == n.port
    && text_eq x.username n.username
    && text_eq x.password n.password
    && x.modify_time == n.modify_time
    && same_time x.last_heartbeat n.last_heartbeat

abbrev pub beat : HeartbeatResult → NodeRow → NodeRow
beat r x = record x {
  node = record x.node { health_status = r.health_status };
  last_heartbeat = some r.checked_at;
  load = elim r.load [ none ↦ x.load | some figures ↦ figures ];
}

unfoldable pub write_results : List HeartbeatResult → List NodeRow → List NodeRow
unfolding still_matches
write_results [] rows = rows
write_results (r ∷ results) rows =
    write_results results (update_where (still_matches r.node) (beat r) rows)

-- `_heartbeat_round`: the table as it was read, and as it is when the results are written.
unfoldable pub heartbeat_round : Paths → (ℕ → Ssh) → ℕ → List NodeRow → List NodeRow → List NodeRow
unfolding snapshots check_single_node write_results
heartbeat_round paths ssh now read written =
    write_results (map (check_single_node paths ssh now) (snapshots read)) written

-- ===== src/Tests/Heartbeats.antt =====
-- A round of the heartbeat on two nodes, one of which a user changes while it is probed.
use pressure_platform.Prelude.{ℕ, ◌≡◌, refl, true, false, none, some, List, [], ◌∷◌, map, arith}
use pressure_platform.Prelude.Text.{codes}
use pressure_platform.Store.{Error, ok, err}
use pressure_platform.Heartbeat.{NodeRow, Ssh, Paths, check_single_node, heartbeat_round, snapshots}
use pressure_platform.Heartbeat.Rounds.{IsRefreshed, heartbeat_round-IsRefreshed}
use pressure_platform.Tests.Samples.{node}

abbrev row : ℕ → ℕ → NodeRow
row k modified = record {
  node = node k;
  port = 22;
  username = codes "root";
  password = codes "secret";
  modify_time = modified;
  last_heartbeat = none;
  load = record { cpu_usage = 0; mem_usage = 0; load_avg = 0 };
}

abbrev paths : Paths
paths = record { is_alnum = λ c. false; is_ip = λ s. true; slave_bin = []; slave_log = [] }

-- Nobody answers.
abbrev silent : ℕ → Ssh
silent k = record {
  telnet = err (Error.other (codes "timed out"));
  figures = err (Error.other (codes "timed out"));
  ps_output = ok [];
  start = λ line. ok [];
  ps_after_start = ok [];
}

abbrev table : List NodeRow
table = row 1 100 ∷ row 2 100 ∷ []

abbrev changed : List NodeRow
changed = row 1 100 ∷ row 2 150 ∷ []

-- The node that was changed keeps its health and its missing heartbeat.
stale_result_dropped :
    map (λ x. x.last_heartbeat) (heartbeat_round paths silent 200 table changed)
    ≡ some 200 ∷ none ∷ []
unfolding heartbeat_round
stale_result_dropped = refl

heartbeat_round-IsRefreshed_example :
    (change : NodeRow → NodeRow) × (heartbeat_round paths silent 200 table changed
      ≡ map change changed)
    × ((x : NodeRow)
        → IsRefreshed (check_single_node paths silent 200) (snapshots table) x (change x))
heartbeat_round-IsRefreshed_example =
    heartbeat_round-IsRefreshed paths silent 200 table changed (λ k. ground arith)

-- ===== src/Tests/Samples.antt =====
-- Tables for the tests: one test case, two nodes, and the run of the test case at three moments.
use pressure_platform.Prelude.{ℕ, true, none, [], ◌∷◌, arith}
use pressure_platform.Prelude.Text.{codes}
use pressure_platform.Prelude.Int.{pos}
use pressure_platform.Store.{
  Audit, UserContext, Db, TestCase, Jmx, Report, RunParam, ExecutionQueue, QueueStatus, Node,
  NodeType, NodeStatus, ExecutionNode, LeaseStatus, TestCaseStatus, Error, ok, err,
}
use pressure_platform.ExecutionNode.Exclusive.{IsExclusive, AreDistinct}
use pressure_platform.ExecutionQueue.Single.{IsValid}
use pressure_platform.TestcaseRun.{Env}
use pressure_platform.RunEnd.{StopEnv}
use pressure_platform.System.Sound.{IsSound}

abbrev pub user : UserContext
user = record { id = 7; username = codes "amy"; real_name = codes "Amy" }

abbrev pub audit : Audit
audit = record {
  creator_id = codes "7";
  creator = codes "Amy";
  modifier_id = codes "7";
  modifier = codes "Amy";
  create_time = 100;
  modify_time = 100;
}

abbrev pub case_with : TestCaseStatus → TestCase
case_with status = record {
  id = 1;
  name = codes "login";
  description = [];
  service = [];
  status = status;
  num_threads = codes "10";
  ramp_time = codes "0";
  duration = codes "60";
  timeout_seconds = 60;
  test_case_dir = [];
  audit = audit;
}

abbrev pub script : Jmx
script = record { id = 1; dst_name = codes "a.jmx"; jmx_dir = []; test_case_id = 1 }

abbrev pub param : RunParam
param = record {
  task_name = codes "nightly";
  num_threads = codes "10";
  ramp_time = codes "0";
  duration = codes "60";
  slave_count = pos 1;
  region = [];
  queue_policy = codes "queue_when_no_slave";
  thread_group_overrides = [];
}

abbrev pub node : ℕ → Node
node k = record {
  id = k;
  name = codes "n";
  host = codes "10.0.0.1";
  type = NodeType.slave;
  status = NodeStatus.enable;
  region = [];
  health_status = 1;
}

abbrev pub env : Env
env = record {
  now = 200;
  ts = codes "t";
  master_bin = ok tt;
  telnet = λ n. ok tt;
  sync_dependencies = λ nodes. ok tt;
  groups = [];
  write_script = λ n r d overrides. ok 10;
  prepare_files = λ nodes. ok tt;
  launch = λ r. ok tt;
}

abbrev pub no_process : Error
no_process = Error.other (codes "no process")

abbrev pub env_broken : Env
env_broken = record env { launch = λ r. err no_process }

abbrev pub env_offline : Env
env_offline = record env { telnet = λ n. err (Error.other (codes "offline")) }

abbrev pub stop_env : StopEnv
stop_env = record { now = 300; launch_stop = λ r. true; stop_remote = λ r. [] }

abbrev pub entry : ℕ → QueueStatus → ExecutionQueue
entry report_id status = record {
  id = 1;
  test_case_id = 1;
  report_id = report_id;
  status = status;
  run_param = param;
  region = [];
  requested_slave_count = pos 1;
  available_slave_count = 0;
  allocated_slave_count = 0;
  slave_hosts = [];
  message = [];
  enqueue_time = 100;
  start_time = none;
  finish_time = none;
  audit = audit;
}

abbrev pub report : Report
report = record {
  id = 1;
  name = codes "login";
  test_case_id = 1;
  exec_type = 2;
  status = TestCaseStatus.run_ing;
  response_data = [];
  region = [];
  total_threads = 10;
  slave_count = 1;
  audit = audit;
}

abbrev pub lease : ExecutionNode
lease = record {
  id = 1;
  report_id = 1;
  test_case_id = 1;
  execution_run_id = 0;
  node_id = 1;
  node_host = codes "10.0.0.1";
  region = [];
  status = LeaseStatus.leased;
  leased_at = 100;
  released_at = none;
  release_message = [];
}

-- Nothing runs and nothing waits.
abbrev pub idle : Db
idle = record {
  testcases = case_with TestCaseStatus.not_run ∷ [];
  jmxs = script ∷ [];
  reports = [];
  queues = [];
  nodes = node 1 ∷ node 2 ∷ [];
  leases = [];
  next_report_id = 1;
  next_queue_id = 1;
  next_lease_id = 1;
  init_artifact_testcase_ids = [];
}

-- One entry waits.
abbrev pub waiting : Db
waiting = record idle {
  testcases = case_with TestCaseStatus.run_waiting ∷ [];
  queues = entry 0 QueueStatus.pending ∷ [];
  next_queue_id = 2;
}

-- One entry waits whose test case is gone.
abbrev pub orphaned : Db
orphaned = record waiting { testcases = [] }

-- One entry waits, and no node is left.
abbrev pub nodeless : Db
nodeless = record waiting { nodes = [] }

-- One run is under way.
abbrev pub running : Db
running = record idle {
  testcases = case_with TestCaseStatus.run_ing ∷ [];
  reports = report ∷ [];
  queues = entry 1 QueueStatus.running ∷ [];
  leases = lease ∷ [];
  next_report_id = 2;
  next_queue_id = 2;
  next_lease_id = 2;
}

pub idle-IsSound : IsSound idle
idle-IsSound = record {
  queue = record { keys = λ k. omega arith; fresh = tt; single = λ t r. omega arith };
  leases = λ k. omega arith;
  nodes = λ k. ground arith;
}

pub running-IsExclusive : IsExclusive running
running-IsExclusive k = ground arith

pub nodes-AreDistinct : AreDistinct running.nodes
nodes-AreDistinct k = ground arith

pub waiting-IsValid : IsValid waiting
waiting-IsValid = record {
  keys = λ k. ground arith;
  fresh = (omega arith, tt);
  single = λ t r. ground arith;
}

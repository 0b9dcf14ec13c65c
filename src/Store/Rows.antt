-- ===== src/Store/Rows.antt =====
-- The rows of the tables that the execution services read and write (api/app/models/*.py), and
-- the database as the lists of them. Only columns that no modelled code reads or writes are left
-- out (free text such as a test case's `biz`, and the load figures of a node). Columns that hold
-- JSON text, `run_param` and `slave_hosts`, stand for the value that the text encodes.
use pressure_platform.Prelude.{ℕ, Bool, Option, List}
use pressure_platform.Prelude.Text.{Text}
use pressure_platform.Prelude.Int.{ℤ}
use pressure_platform.Store.Codes.{TestCaseStatus, NodeStatus, NodeType}
use pressure_platform.Store.Stamps.{Audit}

pub record TestCase : Type 0 where
  pub id : ℕ
  pub name : Text
  pub description : Text
  pub service : Text
  pub status : TestCaseStatus
  pub num_threads : Text
  pub ramp_time : Text
  pub duration : Text
  pub timeout_seconds : ℕ
  pub test_case_dir : Text
  pub audit : Audit

pub record Jmx : Type 0 where
  pub id : ℕ
  pub dst_name : Text
  pub jmx_dir : Text
  pub test_case_id : ℕ

pub record Report : Type 0 where
  pub id : ℕ
  pub name : Text
  pub test_case_id : ℕ
  pub exec_type : ℕ
  pub status : TestCaseStatus
  pub response_data : Text
  pub region : Text
  pub total_threads : ℕ
  pub slave_count : ℕ
  pub audit : Audit

-- The run parameters of a request (api/app/schemas/testcase.py).
pub record ThreadGroupRunOverride : Type 0 where
  pub key : Option Text
  pub name : Text
  pub enabled : Option Bool
  pub mode : Text
  pub num_threads : Option Text
  pub ramp_time : Option Text
  pub pacing_ms : Option ℤ

pub record RunParam : Type 0 where
  pub task_name : Text
  pub num_threads : Text
  pub ramp_time : Text
  pub duration : Text
  pub slave_count : ℤ
  pub region : Text
  pub queue_policy : Text
  pub thread_group_overrides : List ThreadGroupRunOverride

-- The `status` column of the execution queue.
pub data QueueStatus : Type 0 where
  pending running canceling success failed canceled : QueueStatus

pub record ExecutionQueue : Type 0 where
  pub id : ℕ
  pub test_case_id : ℕ
  pub report_id : ℕ
  pub status : QueueStatus
  pub run_param : RunParam
  pub region : Text
  pub requested_slave_count : ℤ
  pub available_slave_count : ℕ
  pub allocated_slave_count : ℕ
  pub slave_hosts : List Text
  pub message : Text
  pub enqueue_time : ℕ
  pub start_time : Option ℕ
  pub finish_time : Option ℕ
  pub audit : Audit

pub record Node : Type 0 where
  pub id : ℕ
  pub name : Text
  pub host : Text
  pub type : NodeType
  pub status : NodeStatus
  pub region : Text
  pub health_status : ℕ

-- The `status` column of a lease.
pub data LeaseStatus : Type 0 where
  leased released release_failed lost : LeaseStatus

pub record ExecutionNode : Type 0 where
  pub id : ℕ
  pub report_id : ℕ
  pub test_case_id : ℕ
  pub execution_run_id : ℕ
  pub node_id : ℕ
  pub node_host : Text
  pub region : Text
  pub status : LeaseStatus
  pub leased_at : ℕ
  pub released_at : Option ℕ
  pub release_message : Text

-- The tables, the next value of each automatic key, and the configured list of test cases that run
-- on the master.
pub record Db : Type 0 where
  pub testcases : List TestCase
  pub jmxs : List Jmx
  pub reports : List Report
  pub queues : List ExecutionQueue
  pub nodes : List Node
  pub leases : List ExecutionNode
  pub next_report_id : ℕ
  pub next_queue_id : ℕ
  pub next_lease_id : ℕ
  pub init_artifact_testcase_ids : Text

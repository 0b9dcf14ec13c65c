-- ===== src/ProcessRun.antt =====
-- The runner of JMeter processes (api/app/services/jmeter_runner.py) and its table of execution
-- runs (api/app/models/execution_run.py), with the marking of lost runs at startup
-- (`_recover_stuck_tasks` of api/app/main.py). What a process prints and leaves in files, and the
-- signals that stop it, are arguments. Errors of the database, which the runner logs and passes
-- over, do not occur here, and neither do the metrics and error samples that follow a run.
pub mod Ends
pub mod Verdicts
use pressure_platform.Prelude.{
  ℕ, zero, suc, ◌*◌, Bool, true, false, not, ◌&&◌, Option, none, some, List, [], ◌∷◌, ◌++◌,
  if◌then◌else◌, ◌==◌, leb, find, update_where,
}
use pressure_platform.Prelude.Text.{Text, codes, is_empty}
use pressure_platform.Prelude.Int.{ℤ, pos, negsuc}
use pressure_platform.Store.{Db, Report, TestCaseStatus, LeaseStatus, get_report, is_run_success}
use pressure_platform.ExecutionNode.{release_by_report}
use pressure_platform.RunEnd.{StopEnv, update_testcase_and_report}

-- The `status` column of a run.
pub data RunStatus : Type 0 where
  preparing running stopping success failed lost : RunStatus

pub record ExecutionRun : Type 0 where
  pub id : ℕ
  pub report_id : ℕ
  pub test_case_id : ℕ
  pub region : Text
  pub status : RunStatus
  pub worker_id : Text
  pub pid : ℕ
  pub pgid : ℕ
  pub cmd : Text
  pub jtl_path : Text
  pub log_path : Text
  pub heartbeat_at : Option ℕ
  pub started_at : Option ℕ
  pub finished_at : Option ℕ
  pub stop_requested_at : Option ℕ
  pub exit_code : ℤ
  pub message : Text

-- The table of runs beside the tables of the other services.
pub record RunnerDb : Type 0 where
  pub db : Db
  pub runs : List ExecutionRun
  pub next_run_id : ℕ

-- What `launch_jmeter` is called with; the command line is joined by blanks.
pub record Launch : Type 0 where
  pub cmd : Text
  pub testcase_id : ℕ
  pub report_id : ℕ
  pub is_debug : Bool
  pub jtl_path : Text
  pub log_file_path : Text
  pub worker_id : Text

-- `_ACTIVE_RUN_STATUSES`
abbrev pub is_active_run : RunStatus → Bool
is_active_run RunStatus.preparing = true
is_active_run RunStatus.running = true
is_active_run RunStatus.stopping = true
is_active_run _ = false

abbrev pub is_stopping : RunStatus → Bool
is_stopping RunStatus.stopping = true
is_stopping _ = false

abbrev pub is_of_report : ℕ → ExecutionRun → Bool
is_of_report report_id run = run.report_id == report_id

abbrev pub get_run : ℕ → RunnerDb → Option ExecutionRun
get_run report_id s = find (is_of_report report_id) s.runs

-- `_update_execution_run`: one report has one run at most.
abbrev pub update_run : ℕ → (ExecutionRun → ExecutionRun) → RunnerDb → RunnerDb
update_run report_id f s = record s { runs = update_where (is_of_report report_id) f s.runs }

-- The columns that `_create_execution_run` writes, into a new row or over an old one.
abbrev pub prepared : ℕ → ℕ → Launch → Text → ℕ → ExecutionRun
prepared key report_id launch region now = record {
  id = key;
  report_id = report_id;
  test_case_id = launch.testcase_id;
  region = region;
  status = RunStatus.preparing;
  worker_id = launch.worker_id;
  pid = 0;
  pgid = 0;
  cmd = launch.cmd;
  jtl_path = launch.jtl_path;
  log_path = launch.log_file_path;
  heartbeat_at = some now;
  started_at = none;
  finished_at = none;
  stop_requested_at = none;
  exit_code = pos 0;
  message = codes "JMeter 子进程准备启动";
}

abbrev region_of : Option Report → Text
region_of none = []
region_of (some r) = r.region

abbrev add_run : (ℕ → ExecutionRun) → RunnerDb → RunnerDb
add_run run s = record s {
  runs = s.runs ++ (run s.next_run_id ∷ []);
  next_run_id = suc s.next_run_id;
}

unfoldable pub create_execution_run : Launch → ℕ → RunnerDb → RunnerDb
create_execution_run launch now s =
    let region = region_of (get_report launch.report_id s.db) in
    elim (get_run launch.report_id s) [
      | none ↦ add_run (λ key. prepared key launch.report_id launch region now) s
      | some _ ↦
          update_run launch.report_id (λ run. prepared run.id run.report_id launch region now) s
    ]

abbrev pub started : ℕ → ℕ → ℕ → ExecutionRun → ExecutionRun
started pid pgid now run = record run {
  status = RunStatus.running;
  pid = pid;
  pgid = pgid;
  heartbeat_at = some now;
  started_at = some now;
  message = codes "JMeter 子进程已启动";
}

-- `_mark_execution_run_running`
unfoldable pub mark_execution_run_running : ℕ → ℕ → ℕ → ℕ → RunnerDb → RunnerDb
mark_execution_run_running report_id pid pgid now s = update_run report_id (started pid pgid now) s

abbrev pub finished : RunStatus → ℤ → Text → ℕ → ExecutionRun → ExecutionRun
finished status exit_code message now run = record run {
  status = status;
  exit_code = exit_code;
  heartbeat_at = some now;
  finished_at = some now;
  message = message;
}

-- `_mark_execution_run_finished`
unfoldable pub mark_execution_run_finished : ℕ → RunStatus → ℤ → Text → ℕ → RunnerDb → RunnerDb
mark_execution_run_finished report_id status exit_code message now s =
    update_run report_id (finished status exit_code message now) s

abbrev pub asked_to_stop : ℕ → ExecutionRun → ExecutionRun
asked_to_stop now run = record run {
  status = RunStatus.stopping;
  stop_requested_at = some now;
  heartbeat_at = some now;
  message = codes "收到停止请求";
}

-- `launch_stop`: the request is noted first, whatever the status of the run.
unfoldable pub launch_stop : StopEnv → ℕ → RunnerDb → Bool × RunnerDb
launch_stop env report_id s =
    (env.launch_stop report_id, update_run report_id (asked_to_stop env.now) s)

-- `_heartbeat_execution_run`, one beat.
unfoldable pub heartbeat_execution_run : ℕ → ℕ → RunnerDb → RunnerDb
heartbeat_execution_run report_id now s =
    update_run report_id (λ run. record run { heartbeat_at = some now }) s

abbrev pub lose_run : ℕ → ExecutionRun → ExecutionRun
lose_run now run = record run {
  status = RunStatus.lost;
  finished_at = some now;
  message = codes "Master 重启，执行进程状态丢失";
}

-- `_recover_stuck_tasks` on the runs.
unfoldable pub recover_stuck_runs : ℕ → RunnerDb → RunnerDb
recover_stuck_runs now s = record s {
  runs = update_where (λ run. is_active_run run.status) (lose_run now) s.runs;
}

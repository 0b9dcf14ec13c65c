-- ===== src/RunEnd.antt =====
-- The ends of a run: the stops that a user asks for (`stop_testcase`, `stop_execution` of
-- api/app/services/testcase.py), the timeout scan (api/app/services/timeout_scanner.py), the
-- callback of a finished JMeter process (`_update_testcase_and_report` of
-- api/app/services/jmeter_runner.py) and the recovery at startup (`_recover_stuck_tasks` of
-- api/app/main.py). Stopping processes, on the master and on the nodes, enters as `StopEnv`.
pub mod Recovery
pub mod Stops
pub mod Timeouts
use pressure_platform.Prelude.{
  ℕ, ◌+◌, Bool, true, false, not, ◌&&◌, Option, none, some, List, [], ◌∷◌, ◌++◌, if◌then◌else◌,
  ◌==◌, ltb, find, keep, update_where, is_some, is_nil,
}
use pressure_platform.Prelude.Text.{Text, codes, str}
use pressure_platform.Store.{
  Db, TestCase, Report, ExecutionQueue, QueueStatus, LeaseStatus, TestCaseStatus, Code, Error,
  Action, pure, raise, gets, or_raise, modify, raise_if, ◌>>=◌, ◌>>◌, get_testcase, get_report,
  set_testcase, set_report, is_run_ing,
}
use pressure_platform.ExecutionNode.{release_by_report, mark_active_lost}
use pressure_platform.ExecutionQueue.{
  is_started, with_status, sync_report_status, mark_execution_queue_stopped,
}

-- The clock and the outcome of the calls that stop processes.
pub record StopEnv : Type 0 where
  pub now : ℕ
  -- `jmeter_runner.launch_stop`: whether a process was found for the report
  pub launch_stop : ℕ → Bool
  -- `_stop_remote_engines`: what it says of the nodes
  pub stop_remote : Report → Text

unfoldable pub msg_stopped : Text
msg_stopped = codes "用户手动停止"

unfoldable pub msg_stopped_released : Text
msg_stopped_released = codes "用户手动停止，释放压力机租约"

unfoldable pub msg_no_process : Text
msg_no_process = codes "（未找到本地 JMeter 进程，已清理平台状态）"

abbrev pub end_report : Text → Report → Report
end_report response r = record r { status = TestCaseStatus.run_failed; response_data = response }

-- `_mark_report_stopped`; a report whose test case is gone changes no test case.
unfoldable pub mark_report_stopped : ℕ → Report → Bool → Text → Db → Db
mark_report_stopped testcase_id report stopped remote_message db =
    set_report report.id
      (end_report (msg_stopped ++ ((if stopped then [] else msg_no_process) ++ remote_message)))
      (set_testcase testcase_id (with_status TestCaseStatus.run_failed) db)

-- The body of the loop of `stop_testcase`, and the second half of `stop_execution`.
unfoldable pub stop_report : StopEnv → Report → Db → Db
stop_report env report db =
    let released =
      (release_by_report report.id msg_stopped_released LeaseStatus.released env.now db).1 in
    let marked =
      mark_report_stopped report.test_case_id report (env.launch_stop report.id)
        (env.stop_remote report) released in
    mark_execution_queue_stopped report.id (msg_stopped ++ env.stop_remote report) env.now marked

unfoldable pub stop_reports : StopEnv → List Report → Db → Db
unfolding stop_report
stop_reports env [] db = db
stop_reports env (report ∷ reports) db = stop_reports env reports (stop_report env report db)

abbrev pub not_running : Error
not_running = Error.mysterious Code.testcase_is_not_running none

unfoldable pub running_reports_of : ℕ → Db → List Report
running_reports_of testcase_id db =
    keep (λ r. r.test_case_id == testcase_id && is_run_ing r.status) db.reports

-- Without a running report the test case alone is put right.
abbrev pub stop_running : StopEnv → ℕ → List Report → Db → Db
stop_running env id [] db = set_testcase id (with_status TestCaseStatus.run_failed) db
stop_running env id (report ∷ reports) db = stop_reports env (report ∷ reports) db

unfoldable pub stop_testcase : StopEnv → ℕ → Action Bool
stop_testcase env id = do
  found ← gets (get_testcase id)
  testcase ← or_raise found not_running
  raise_if (not (is_run_ing testcase.status)) not_running
  running_reports ← gets (running_reports_of id)
  modify (stop_running env id running_reports)
  pure true

unfoldable pub stop_execution : StopEnv → ℕ → Action Bool
stop_execution env report_id = do
  found ← gets (get_report report_id)
  report ← or_raise found (Error.mysterious Code.report_not_exist none)
  raise_if (not (is_run_ing report.status)) not_running
  modify (stop_report env report)
  pure true

-- `tc.timeout_seconds or 7200`
abbrev pub timeout_of : TestCase → ℕ
timeout_of t = if t.timeout_seconds == 0 then 7200 else t.timeout_seconds

abbrev pub is_overdue : ℕ → Report → TestCase → Bool
is_overdue now report t = not (ltb now (report.audit.create_time + timeout_of t))

unfoldable pub msg_timeout_released : Text
msg_timeout_released = codes "执行超时，系统自动释放压力机租约"

unfoldable pub msg_timeout : ℕ → Text
msg_timeout seconds = codes "执行超时（超过 " ++ (str seconds ++ codes " 秒），已被系统自动终止")

-- What the scan does with one overdue report.
unfoldable pub time_out : ℕ → Report → TestCase → Db → Db
time_out now report t db =
    (release_by_report report.id msg_timeout_released LeaseStatus.released now (
      set_report report.id (end_report (msg_timeout (timeout_of t)))
        (set_testcase t.id (with_status TestCaseStatus.run_failed) db))).1

-- The loop over the running reports, each with its test case as the join found it.
unfoldable pub time_out_rows : ℕ → List (Report × TestCase) → Db → ℕ × Db
unfolding time_out
time_out_rows now [] db = (0, db)
time_out_rows now ((report, t) ∷ rows) db =
    let skipped = time_out_rows now rows db in
    let (n, after) = time_out_rows now rows (time_out now report t db) in
    if is_overdue now report t then (n + 1, after) else skipped

-- A row for the report, if it has a test case, and the other rows.
abbrev pub row_and : Report → Option TestCase → List (Report × TestCase) → List (Report × TestCase)
row_and r none rest = rest
row_and r (some t) rest = (r, t) ∷ rest

-- `join(TestCase, Report.test_case_id == TestCase.id)`: a report whose test case is gone drops out.
abbrev pub joined : List Report → Db → List (Report × TestCase)
joined [] db = []
joined (r ∷ reports) db =
    let rest = joined reports db in row_and r (get_testcase r.test_case_id db) rest

abbrev pub running_reports : Db → List Report
running_reports db = keep (λ r. is_run_ing r.status) db.reports

-- `_scan_and_timeout`: returns how many reports it ended. A time is read in one zone.
unfoldable pub scan_and_timeout : ℕ → Db → ℕ × Db
unfolding time_out_rows
scan_and_timeout now db = time_out_rows now (joined (running_reports db) db) db

-- `rpt.status = …; rpt.modify_time = …`, and the new text if there is one.
abbrev pub called_back : TestCaseStatus → Option Text → ℕ → Report → Report
called_back status response_data now r = record r {
  status = status;
  response_data = elim response_data [ none ↦ r.response_data | some text ↦ text ];
  audit = record r.audit { modify_time = now };
}

-- `_update_testcase_and_report`: a report that has ended already is left alone, and all else with it.
unfoldable pub update_testcase_and_report : ℕ → ℕ → TestCaseStatus → Option Text → ℕ → Db → Db
update_testcase_and_report testcase_id report_id status response_data now db =
    let reported = set_testcase testcase_id (with_status status) db in
    elim (get_report report_id db) [
      | none ↦ reported
      | some r ↦
          if is_run_ing r.status
          then sync_report_status report_id status now
              (set_report report_id (called_back status response_data now) reported)
          else db
    ]

unfoldable pub msg_restarted : Text
msg_restarted = codes "Master 重启，任务被终止"

unfoldable pub msg_queue_restarted : Text
msg_queue_restarted = codes "Master 重启，执行队列任务被终止"

unfoldable pub msg_lease_restarted : Text
msg_lease_restarted = codes "Master 重启，压力机租约状态丢失"

-- Neither `finish_time` nor `start_time` is written.
abbrev pub restart_queue : ExecutionQueue → ExecutionQueue
restart_queue q = record q { status = QueueStatus.failed; message = msg_queue_restarted }

abbrev pub end_all : Db → Db
end_all db = record db {
  reports = update_where (λ r. is_run_ing r.status) (end_report msg_restarted) db.reports;
  testcases =
      update_where (λ t. is_run_ing t.status) (with_status TestCaseStatus.run_failed) db.testcases;
  queues = update_where (λ q. is_started q.status) restart_queue db.queues;
}

-- The writes of `_recover_stuck_tasks`, once the processes that were left over have been stopped.
-- The rows of the execution runs, which it marks as lost, are not part of the tables here.
unfoldable pub recover_stuck_tasks : ℕ → Db → Db
recover_stuck_tasks now db = (mark_active_lost msg_lease_restarted now (end_all db)).1

-- ===== src/ProcessRun/Ends.antt =====
-- The end of a JMeter process: the verdict on it, and what `_run_and_callback` writes
-- (api/app/services/jmeter_runner.py).
use pressure_platform.Prelude.{
  ℕ, zero, ◌*◌, Bool, false, not, ◌&&◌, Option, none, some, if◌then◌else◌, leb,
}
use pressure_platform.Prelude.Text.{Text, codes, is_empty}
use pressure_platform.Prelude.Int.{ℤ, pos, negsuc}
use pressure_platform.Store.{Db, TestCaseStatus, LeaseStatus, is_run_success}
use pressure_platform.ExecutionNode.{release_by_report}
use pressure_platform.RunEnd.{update_testcase_and_report}
use pressure_platform.ProcessRun.{
  RunStatus, ExecutionRun, RunnerDb, Launch, is_stopping, get_run, create_execution_run,
  mark_execution_run_running, mark_execution_run_finished,
}

-- How a process ended: an exception, or an exit with what was printed and left in files.
pub record ProcessOutput : Type 0 where
  -- `_check_output_failed`
  pub output_failed : Bool
  -- `_file_size` of the log, in bytes
  pub log_size : ℕ
  -- `_log_has_error`
  pub log_has_error : Bool
  -- `_parse_debug_response_data`
  pub debug_response : Text

pub data ProcessEnd : Type 0 where
  raised : ℤ → ProcessEnd
  exited : ℤ → ProcessOutput → ProcessEnd

-- The status and the reply of a run whose process has exited.
abbrev exit_status : ℤ → Bool → TestCaseStatus
exit_status (pos zero) false = TestCaseStatus.run_success
exit_status _ _ = TestCaseStatus.run_failed

abbrev debug_reply : Launch → TestCaseStatus → ProcessOutput → Option Text
debug_reply launch status out =
    if leb (1024 * 1024) out.log_size
    then some (codes "调试日志过大, 请确认")
    else if is_run_success status && not (is_empty launch.jtl_path)
    then some out.debug_response
    else none

unfoldable pub verdict : Launch → ℤ → ProcessOutput → TestCaseStatus × Option Text
verdict launch (negsuc n) out = (TestCaseStatus.run_failed, none)
verdict launch (pos n) out =
    let status = exit_status (pos n) out.output_failed in
    if launch.is_debug
    then (
      if out.log_has_error then TestCaseStatus.run_failed else status,
      debug_reply launch status out,
    )
    else (status, none)

unfoldable pub msg_start_failed : Text
msg_start_failed = codes "JMeter 启动或执行异常"

abbrev pub msg_run : RunStatus → Text
msg_run RunStatus.success = codes "JMeter 执行完成"
msg_run _ = codes "JMeter 执行失败"

-- The status and the message of the run's row; a run that was asked to stop has failed.
unfoldable pub run_verdict : TestCaseStatus → Option ExecutionRun → RunStatus × Text
run_verdict status found =
    let verdict = if is_run_success status then RunStatus.success else RunStatus.failed in
    let plain : RunStatus × Text = (verdict, msg_run verdict) in
    elim found [
      | none ↦ plain
      | some run ↦
          if is_stopping run.status then (RunStatus.failed, codes "JMeter 已按停止请求退出") else plain
    ]

-- The tables after the callback on the report, with the run's row finished and the nodes given
-- back.
unfoldable pub settle : ℕ → RunStatus → ℤ → Text → ℕ → RunnerDb → RunnerDb
unfolding mark_execution_run_finished
settle report_id status exit_code message now s =
    let marked = mark_execution_run_finished report_id status exit_code message now s in
    record marked {
      db = (release_by_report report_id message LeaseStatus.released now marked.db).1;
    }

abbrev with_db : Db → RunnerDb → RunnerDb
with_db db s = record s { db = db }

-- `_run_and_callback` from the end of the process on. After an exception the row is finished before
-- the report is; both orders leave the same tables.
unfoldable pub end_of_process : Launch → ProcessEnd → ℕ → RunnerDb → RunnerDb
unfolding settle
end_of_process launch (raised exit_code) now s =
    settle launch.report_id RunStatus.failed exit_code msg_start_failed now (
      with_db
        (update_testcase_and_report launch.testcase_id launch.report_id TestCaseStatus.run_failed
          none now s.db)
        s)
end_of_process launch (exited exit_code out) now s =
    let (status, reply) = verdict launch exit_code out in
    let (run_status, message) = run_verdict status (get_run launch.report_id s) in
    settle launch.report_id run_status exit_code message now (
      with_db (update_testcase_and_report launch.testcase_id launch.report_id status reply now s.db)
        s)

-- `launch_jmeter` and the whole of `_run_and_callback`: a process that could not be started, or its
-- two keys, what other calls did while it ran, and its end.
pub data Course : Type 0 where
  not_started : Course
  ran : ℕ → ℕ → (RunnerDb → RunnerDb) → ProcessEnd → Course

unfoldable pub run_process : Launch → Course → ℕ → ℕ → RunnerDb → RunnerDb
unfolding create_execution_run mark_execution_run_running end_of_process
run_process launch not_started start_time end_time s =
    end_of_process launch (raised (negsuc 0)) end_time (create_execution_run launch start_time s)
run_process launch (ran pid pgid during outcome) start_time end_time s =
    let begun =
      mark_execution_run_running launch.report_id pid pgid start_time
        (create_execution_run launch start_time s) in
    end_of_process launch outcome end_time (during begun)

-- ===== src/Tests/Ends.antt =====
-- The ends of runs on concrete tables (api/app/services/testcase.py,
-- api/app/services/timeout_scanner.py, api/app/main.py).
use pressure_platform.Prelude.{ℕ, ◌≡◌, refl, true, none, some, List, [], ◌++◌, All, count_where}
use mathlib.Core.Option
use pressure_platform.Store.{TestCaseStatus, get_report, is_run_ing}
use pressure_platform.ExecutionNode
use pressure_platform.ExecutionNode.Release.{held_by}
use pressure_platform.ExecutionQueue.{get_by_report_id, stop_queue}
use pressure_platform.RunEnd.{
  stop_report, stop_execution, scan_and_timeout, joined, running_reports,
  update_testcase_and_report, recover_stuck_tasks, end_report, msg_stopped,
}
use pressure_platform.RunEnd.Recovery.{
  running_reports_count, running_testcases_count, started_queues_count, pending_queues_count,
  recover_stuck_tasks_lem,
}
use pressure_platform.RunEnd.Stops.{stop_report_lem, update_testcase_and_report-stop_execution}
use pressure_platform.RunEnd.Timeouts.{
  overdue_row, IsSpared, scan_and_timeout_lem, update_testcase_and_report-scan_and_timeout,
}
use pressure_platform.Tests.Samples.{stop_env, case_with, report, running}

recover_stuck_tasks_lem_example :
    let after = recover_stuck_tasks 300 running in
    (running_reports_count after ≡ 0)
    × (running_testcases_count after ≡ 0)
    × (started_queues_count after ≡ 0)
    × (count_where ExecutionNode.is_active after.leases ≡ 0)
    × (pending_queues_count after ≡ pending_queues_count running)
recover_stuck_tasks_lem_example = recover_stuck_tasks_lem 300 running

stop_report_lem_example :
    let after = stop_report stop_env report running in
    ((response : List ℕ) × (get_report 1 after ≡ some (end_report response report)))
    × (held_by 1 after.leases ≡ 0)
    × (get_by_report_id 1 after
        ≡ Option.map (stop_queue (msg_stopped ++ []) 300) (get_by_report_id 1 running))
stop_report_lem_example = stop_report_lem stop_env report running refl

update_testcase_and_report-stop_execution_example :
    update_testcase_and_report 1 1 TestCaseStatus.run_success none 400
      (stop_execution stop_env 1 running).1
    ≡ (stop_execution stop_env 1 running).1
unfolding stop_execution
update_testcase_and_report-stop_execution_example =
    update_testcase_and_report-stop_execution stop_env 1 1 TestCaseStatus.run_success none 400
      running refl

scan_and_timeout_lem_example :
    let rows = joined (running_reports running) running in
    let (n, after) = scan_and_timeout 500 running in
    (n ≡ count_where (overdue_row 500) rows)
    × All (λ r. is_run_ing r.status ≡ true → IsSpared 500 rows r.id) after.reports
    × (after.queues ≡ running.queues)
scan_and_timeout_lem_example = scan_and_timeout_lem 500 running

update_testcase_and_report-scan_and_timeout_example :
    (update_testcase_and_report 1 1 TestCaseStatus.run_failed none 501
      (scan_and_timeout 500 running).1).queues
    ≡ running.queues
update_testcase_and_report-scan_and_timeout_example =
    update_testcase_and_report-scan_and_timeout 500 running 1 report
      (case_with TestCaseStatus.run_ing) 1 TestCaseStatus.run_failed none 501 refl refl refl refl

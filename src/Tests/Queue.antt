-- ===== src/Tests/Queue.antt =====
-- The queue and its dispatcher on concrete tables (api/app/services/execution_queue.py).
use mathlib.Core.List.{List, Perm}
use pressure_platform.Prelude.{
  ◌++◌, false, ◌≡◌, refl, true, Option, none, some, [], All, count_where, length, min,
}
use pressure_platform.Prelude.Text.{Text, strip, parse_int, split}
use pressure_platform.Store.{
  ExecutionQueue, Code, Error, QueueStatus, TestCaseStatus, ok, err, get_queue, shown_message,
}
use pressure_platform.ExecutionNode.{list_available_slaves}
use pressure_platform.ExecutionQueue.{
  is_pending, list_pending, cancel_pending_execution, claim_execution_queue_for_start, msg_changed,
  enqueue_manual_execution, get_active_by_testcase_region,
}
use pressure_platform.ExecutionQueue.Single
use pressure_platform.ExecutionQueue.Single.{enqueue_manual_execution-IsValid}
use pressure_platform.ExecutionQueue.Order.{IsFifo, list_pending-IsFifo}
use pressure_platform.ExecutionQueue.Cancel.{
  claim_execution_queue_for_start-cancel_pending_execution,
}
use pressure_platform.RunParams.{
  validate_run_params, validate_overrides, parse_run_int, check_run_int,
}
use pressure_platform.TestcaseRun.{is_init_artifact_testcase, msg_too_few}
use pressure_platform.RunStart.{
  check_request, choose_slaves, pick_slaves, get_running_by_testcase_region,
}
use pressure_platform.Dispatch.{try_start, dispatch_pending_once}
use pressure_platform.Dispatch.Scan.{dispatch_pending_once-missing, IsRefused, try_start-unfinished}
use pressure_platform.Tests.Samples.{
  user, param, env, entry, case_with, waiting, waiting-IsValid, orphaned, nodeless,
}

list_pending-IsFifo_example :
    (later others : List ExecutionQueue) × Perm
      ((list_pending 10 waiting ++ later) ++ others)
      waiting.queues
    × All (λ q. is_pending q.status ≡ true) (list_pending 10 waiting ++ later)
    × All (λ q. is_pending q.status ≡ false) others
    × IsFifo (list_pending 10 waiting ++ later)
    × (length (list_pending 10 waiting)
        ≡ min 10 (count_where (λ q. is_pending q.status) waiting.queues))
list_pending-IsFifo_example = list_pending-IsFifo 10 waiting

enqueue_manual_execution-IsValid_example :
    Single.IsValid (enqueue_manual_execution 1 param user [] 0 200 waiting).1
enqueue_manual_execution-IsValid_example =
    enqueue_manual_execution-IsValid 1 param user [] 0 200 waiting waiting-IsValid

claim_execution_queue_for_start-cancel_pending_execution_example :
    claim_execution_queue_for_start 1 300 (cancel_pending_execution 1 user 200 waiting).1 ≡ (
      err (Error.mysterious Code.fail (some msg_changed)),
      (cancel_pending_execution 1 user 200 waiting).1,
    )
unfolding cancel_pending_execution
claim_execution_queue_for_start-cancel_pending_execution_example =
    claim_execution_queue_for_start-cancel_pending_execution 1 user 200 300 waiting refl

dispatch_pending_once-missing_example :
    dispatch_pending_once env 10 orphaned
    ≡ (err (Error.mysterious Code.testcase_not_exist none), orphaned)
unfolding list_pending
dispatch_pending_once-missing_example =
    dispatch_pending_once-missing env 10 (entry 0 QueueStatus.pending) [] orphaned refl refl

abbrev shortage : Option Text
shortage = some (msg_too_few param.slave_count 0 [])

try_start-unfinished_example :
    let (started, after) = try_start env (entry 0 QueueStatus.pending) nodeless in
    (started ≡ ok 0)
    × (after.reports ≡ nodeless.reports)
    × (after.leases ≡ nodeless.leases)
    × (left : ExecutionQueue) × (get_queue 1 after ≡ some left)
    × (left.status ≡ QueueStatus.running)
    × (left.report_id ≡ (entry 0 QueueStatus.pending).report_id)
    × (left.finish_time ≡ none)
    × (left.message ≡ shown_message Code.fail shortage)
unfolding check_request validate_run_params validate_overrides parse_run_int check_run_int strip
    choose_slaves pick_slaves list_available_slaves is_init_artifact_testcase
    get_running_by_testcase_region get_active_by_testcase_region parse_int split
try_start-unfinished_example =
    try_start-unfinished env (entry 0 QueueStatus.pending)
      (record { testcase = case_with TestCaseStatus.run_waiting; total_threads = 10 }) Code.fail
      shortage nodeless refl refl refl refl (IsRefused.unchosen refl)

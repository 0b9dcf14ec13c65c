-- ===== src/Dispatch/Scan.antt =====
-- Where one entry of the queue decides over others, or over itself for good
-- (api/app/services/execution_queue.py).
use pressure_platform.Prelude.{
  ℕ, find-update_found, ◌≡◌, refl, true, false, Option, none, some, List, ◌∷◌, arith, ◌==◌,
}
use pressure_platform.Prelude.Text.{Text}
use pressure_platform.Store.{
  Db, ExecutionQueue, QueueStatus, Node, Code, Error, Action, ◌>>=◌, ok, err, get_testcase,
  get_queue, set_queue, shown_message, is_wait_cancel,
}
use pressure_platform.ExecutionQueue.{
  is_pending, list_pending, claim_queue, claim_execution_queue_for_start, queue_user,
}
use pressure_platform.TestcaseRun.{Env, should_queue_run}
use pressure_platform.RunStart.{
  Request, check_request, choose_slaves, prepare_run, start_run, run_testcase_now,
}
use pressure_platform.RunStart.Reads.{check_request-reads, choose_slaves-reads, prepare_run-reads}
use pressure_platform.Dispatch.{
  with_message, record_start_error, after_start, try_start, dispatch_entry, dispatch_entries,
  dispatch_pending_once,
}

should_queue_run-missing :
    (id k : ℕ) (q : ExecutionQueue) (db : Db)
    → get_testcase id db ≡ none
    → should_queue_run id q.run_param (some k) db
      ≡ (err (Error.mysterious Code.testcase_not_exist none), db)
unfolding should_queue_run
should_queue_run-missing id k q db h = ground (arith, h)

-- When the test case of the first waiting entry is gone, the scan of the dispatcher raises at once
-- and changes nothing, so no entry behind it is looked at.
pub dispatch_pending_once-missing :
    (env : Env) (limit : ℕ) (q : ExecutionQueue) (rest : List ExecutionQueue) (db : Db)
    → list_pending limit db ≡ q ∷ rest
    → get_testcase q.test_case_id db ≡ none
    → dispatch_pending_once env limit db ≡ (err (Error.mysterious Code.testcase_not_exist none), db)
unfolding dispatch_pending_once dispatch_entries dispatch_entry
dispatch_pending_once-missing env limit q rest db h gone =
    ground (arith, h, should_queue_run-missing q.test_case_id q.id q db gone)

claim-returns :
    (env : Env) (q : ExecutionQueue) (db : Db)
    → get_queue q.id db ≡ some q
    → is_pending q.status ≡ true
    → claim_execution_queue_for_start q.id env.now db
      ≡ (ok tt, set_queue q.id (claim_queue env.now) db)
unfolding claim_execution_queue_for_start
claim-returns env q db found waits = ground (arith, found, waits)

-- A start that has its request is refused with a business exception before it writes a run: by the
-- choice of nodes, or by the writing of the run's files for the nodes chosen.
pub data IsRefused (env : Env) (q : ExecutionQueue) (request : Request) (c : Code) (m : Option Text)
    (db : Db) : Type 0 where
  unchosen :
      (choose_slaves env q.test_case_id q.run_param false request.testcase db).0
        ≡ err (Error.mysterious c m)
      → IsRefused env q request c m db
  unprepared :
      (slaves : List Node)
      → (choose_slaves env q.test_case_id q.run_param false request.testcase db).0 ≡ ok slaves
      → (prepare_run env q.run_param request slaves db).0 ≡ err (Error.mysterious c m)
      → IsRefused env q request c m db

-- The stages after the claim.
abbrev chosen_start : Env → ExecutionQueue → Request → Action ℕ
chosen_start env q request =
    choose_slaves env q.test_case_id q.run_param false request.testcase >>= λ slaves.
    start_run env q.run_param (queue_user q) (some q.id) false request slaves

chosen_start-refused :
    (env : Env) (q : ExecutionQueue) (request : Request) (c : Code) (m : Option Text) (db : Db)
    → IsRefused env q request c m db
    → chosen_start env q request db ≡ (err (Error.mysterious c m), db)
unfolding start_run
chosen_start-refused env q request c m db (unchosen refused) =
    ground
      (arith, choose_slaves-reads env q.test_case_id q.run_param false request.testcase db, refused)
chosen_start-refused env q request c m db (unprepared slaves chosen refused) = ground (
  arith,
  choose_slaves-reads env q.test_case_id q.run_param false request.testcase db,
  chosen,
  prepare_run-reads env q.run_param request slaves db,
  refused,
)

unfinished_start :
    (env : Env) (q : ExecutionQueue) (request : Request) (c : Code) (m : Option Text) (db : Db)
    → get_queue q.id db ≡ some q
    → is_pending q.status ≡ true
    → (check_request env q.test_case_id q.run_param (some q.id) db).0 ≡ ok request
    → is_wait_cancel request.testcase.status ≡ false
    → IsRefused env q request c m (set_queue q.id (claim_queue env.now) db)
    → run_testcase_now env q.test_case_id q.run_param (queue_user q) (some q.id) false db
      ≡ (err (Error.mysterious c m), set_queue q.id (claim_queue env.now) db)
unfolding run_testcase_now
unfinished_start env q request c m db found waits checked live refused = ground (
  arith,
  claim-returns env q db found waits,
  check_request-reads env q.test_case_id q.run_param (some q.id) db,
  checked,
  live,
  chosen_start-refused env q request c m (set_queue q.id (claim_queue env.now) db) refused,
)

-- A waiting entry passes the first checks of its start, with a test case that is not being
-- cancelled, and then the choice of nodes or the writing of the run's files raises a business
-- exception. Then the scan counts no start, the entry has been set to running with the key of a
-- report that it had while it waited and the exception's message, and no report and no lease has
-- been added or changed.
pub try_start-unfinished :
    (env : Env) (q : ExecutionQueue) (request : Request) (c : Code) (m : Option Text) (db : Db)
    → get_queue q.id db ≡ some q
    → is_pending q.status ≡ true
    → (check_request env q.test_case_id q.run_param (some q.id) db).0 ≡ ok request
    → is_wait_cancel request.testcase.status ≡ false
    → IsRefused env q request c m (set_queue q.id (claim_queue env.now) db)
    → let (started, after) = try_start env q db in
      (started ≡ ok 0)
      × (after.reports ≡ db.reports)
      × (after.leases ≡ db.leases)
      × (left : ExecutionQueue) × (get_queue q.id after ≡ some left)
      × (left.status ≡ QueueStatus.running)
      × (left.report_id ≡ q.report_id)
      × (left.finish_time ≡ q.finish_time)
      × (left.message ≡ shown_message c m)
unfolding try_start after_start record_start_error
try_start-unfinished env q request c m db found waits checked live refused =
    let claimed = set_queue q.id (claim_queue env.now) db in
    rw (unfinished_start env q request c m db found waits checked live refused) (
      refl,
      refl,
      refl,
      with_message (shown_message c m) (claim_queue env.now q),
      find-update_found (λ x. x.id == q.id) (with_message (shown_message c m)) claimed.queues
          (claim_queue env.now q) (λ x. refl)
          (find-update_found (λ x. x.id == q.id) (claim_queue env.now) db.queues q (λ x. refl)
            found),
      refl,
      refl,
      refl,
      refl,
    )

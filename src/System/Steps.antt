-- ===== src/System/Steps.antt =====
-- Requests of users and scans of the dispatcher under the invariant of the tables
-- (api/app/services/execution_queue.py, api/app/services/testcase.py).
use pressure_platform.Prelude.{
  any, not, ◌&&◌, ◌==◌, ℕ, ◌+◌, ◌≡◌, refl, inl, inr, true, false, none, some, List, [], ◌∷◌, arith,
  if◌then◌else◌, Bool-cases, Option-cases,
}
use pressure_platform.Prelude.Text.{Text, codes, text_eq}
use pressure_platform.Store.{
  Db, ExecutionQueue, RunParam, TestCaseStatus, UserContext, Error, Result, ok, err, pure, Keeps,
  bind-Keeps, set_queue, get_report, is_run_ing, ◌>>=◌, ◌>>◌,
}
use pressure_platform.ExecutionQueue.{
  enqueue_manual_execution, cancel_pending_execution, sync_report_status, list_pending, queue_user,
  finish_queue,
}
use pressure_platform.ExecutionQueue.Single.{
  Calms, set_queue-IsValid, enqueue_manual_execution-IsValid, cancel_pending_execution-IsValid,
  sync_report_status-IsValid, finish-Calms,
}
use pressure_platform.TestcaseRun.{Env, Verdict, should_queue_run}
use pressure_platform.RunStart.{run_testcase_now}
use pressure_platform.RunStart.Reads.{should_queue_run-reads}
use pressure_platform.Dispatch.{
  run_testcase, run_testcase_legacy, legacy_param, record_start_error, record_early_end,
  after_start, try_start, is_still_pending, dispatch_verdict, dispatch_entry, dispatch_entries,
  dispatch_pending_once, with_message, with_available, start_failed,
}
use pressure_platform.System.Sound.{IsSound, IsSound-of_queue}
use pressure_platform.System.Starts.{same-IsSound, set_testcase-IsSound, run_testcase_now-IsSound}

set_queue-IsSound :
    (id : ℕ) (f : ExecutionQueue → ExecutionQueue) (db : Db)
    → Calms f
    → IsSound db
    → IsSound (set_queue id f db)
set_queue-IsSound id f db calm s =
    IsSound-of_queue db (set_queue id f db) refl refl s (set_queue-IsValid id f db calm s.queue)

enqueue-tables :
    (t : ℕ) (param : RunParam) (user : UserContext) (message : Text) (available now : ℕ) (db : Db)
    → let after = (enqueue_manual_execution t param user message available now db).1 in
      (after.leases ≡ db.leases) × (after.nodes ≡ db.nodes)
unfolding enqueue_manual_execution
enqueue-tables t param user message available now db = ground arith

pub enqueue-IsSound :
    (t : ℕ) (param : RunParam) (user : UserContext) (message : Text) (available now : ℕ)
    → Keeps IsSound (enqueue_manual_execution t param user message available now)
enqueue-IsSound t param user message available now db s =
    let (l, m) = enqueue-tables t param user message available now db in
    IsSound-of_queue db (enqueue_manual_execution t param user message available now db).1 l m s
      (enqueue_manual_execution-IsValid t param user message available now db s.queue)

cancel-tables :
    (k : ℕ) (user : UserContext) (now : ℕ) (db : Db)
    → let after = (cancel_pending_execution k user now db).1 in
      (after.leases ≡ db.leases) × (after.nodes ≡ db.nodes)
unfolding cancel_pending_execution
cancel-tables k user now db = ground arith

pub cancel-IsSound :
    (k : ℕ) (user : UserContext) (now : ℕ) → Keeps IsSound (cancel_pending_execution k user now)
cancel-IsSound k user now db s =
    let (l, m) = cancel-tables k user now db in
    IsSound-of_queue db (cancel_pending_execution k user now db).1 l m s
      (cancel_pending_execution-IsValid k user now db s.queue)

sync-tables :
    (r : ℕ) (status : TestCaseStatus) (now : ℕ) (db : Db)
    → let after = sync_report_status r status now db in
      (after.leases ≡ db.leases) × (after.nodes ≡ db.nodes)
unfolding sync_report_status
sync-tables r status now db = ground arith

pub sync-IsSound :
    (r : ℕ) (status : TestCaseStatus) (now : ℕ) (db : Db)
    → IsSound db
    → IsSound (sync_report_status r status now db)
sync-IsSound r status now db s =
    let (l, m) = sync-tables r status now db in
    IsSound-of_queue db (sync_report_status r status now db) l m s
      (sync_report_status-IsValid r status now db s.queue)

message-Calms : (message : Text) → Calms (with_message message)
message-Calms message = record { keeps_id = λ q. refl; activates_none = λ t r q h. h }

available-Calms : (n : ℕ) → Calms (with_available n)
available-Calms n = record { keeps_id = λ q. refl; activates_none = λ t r q h. h }

failed-Calms : (reason : Text) (now : ℕ) → Calms (start_failed reason now)
failed-Calms reason now = record { keeps_id = λ q. refl; activates_none = λ t r q h. ground arith }

start_error-IsSound :
    (now : ℕ) (q : ExecutionQueue) (e : Error) (db : Db)
    → IsSound db
    → IsSound (record_start_error now q e db)
unfolding record_start_error
start_error-IsSound now q (Error.mysterious c m) db s =
    set_queue-IsSound q.id _ db (message-Calms _) s
start_error-IsSound now q (Error.runtime_error m) db s =
    set_testcase-IsSound q.test_case_id _ _ (set_queue-IsSound q.id _ db (failed-Calms m now) s)
start_error-IsSound now q (Error.other m) db s =
    set_testcase-IsSound q.test_case_id _ _ (set_queue-IsSound q.id _ db (failed-Calms m now) s)

early_end-IsSound :
    (now : ℕ) (q : ExecutionQueue) (r : ℕ) (db : Db)
    → IsSound db
    → IsSound (record_early_end now q r db)
unfolding record_early_end
early_end-IsSound now q r db s = elim (Option-cases (get_report r db)) [
  | inl e ↦ same-IsSound (ground arith) s
  | inr (report, e) ↦ elim (Bool-cases (is_run_ing report.status)) [
    | inl b ↦ same-IsSound (ground arith) s
    | inr b ↦ same-IsSound (ground arith) (
        set_queue-IsSound q.id (finish_queue report.status now) db (finish-Calms report.status now)
          s)
  ]
]

after_start-IsSound :
    (env : Env) (q : ExecutionQueue) (r : Result ℕ) → Keeps IsSound (after_start env q r)
unfolding after_start
after_start-IsSound env q (ok report_id) db s = early_end-IsSound env.now q report_id db s
after_start-IsSound env q (err e) db s = start_error-IsSound env.now q e db s

try_start-IsSound : (env : Env) (q : ExecutionQueue) → Keeps IsSound (try_start env q)
unfolding try_start
try_start-IsSound env q db s =
    let started =
      run_testcase_now env q.test_case_id q.run_param (queue_user q) (some q.id) false db in
    after_start-IsSound env q started.0 started.1 (
      run_testcase_now-IsSound env q.test_case_id q.run_param (queue_user q) (some q.id) false db s)

verdict-IsSound :
    (env : Env) (q : ExecutionQueue) (v : Verdict) → Keeps IsSound (dispatch_verdict env q v)
unfolding dispatch_verdict
verdict-IsSound env q (true, message, available) db s =
    set_queue-IsSound q.id _ (set_queue q.id (with_available available) db) (message-Calms message)
      (set_queue-IsSound q.id _ db (available-Calms available) s)
verdict-IsSound env q (false, message, available) db s =
    elim (Bool-cases (is_still_pending q.id db)) [
      | inl e ↦ rw e (try_start-IsSound env q db s)
      | inr e ↦ rw e s
    ]

dispatch_entry-IsSound : (env : Env) (q : ExecutionQueue) → Keeps IsSound (dispatch_entry env q)
unfolding dispatch_entry
dispatch_entry-IsSound env q =
    bind-Keeps IsSound (should_queue_run q.test_case_id q.run_param (some q.id))
      (dispatch_verdict env q)
      (λ db. same-IsSound (should_queue_run-reads q.test_case_id q.run_param (some q.id) db))
      (verdict-IsSound env q)

dispatch_entries-IsSound :
    (env : Env) (queues : List ExecutionQueue) (started : ℕ)
    → Keeps IsSound (dispatch_entries env queues started)
unfolding dispatch_entries
dispatch_entries-IsSound env [] started db s = s
dispatch_entries-IsSound env (q ∷ queues) started db s =
    bind-Keeps IsSound (dispatch_entry env q) (λ n. dispatch_entries env queues (started + n))
      (dispatch_entry-IsSound env q) (λ n. dispatch_entries-IsSound env queues (started + n)) db s

pub dispatch_pending_once-IsSound :
    (env : Env) (limit : ℕ) → Keeps IsSound (dispatch_pending_once env limit)
unfolding dispatch_pending_once
dispatch_pending_once-IsSound env limit db s =
    dispatch_entries-IsSound env (list_pending limit db) 0 db s

run_now-IsSound :
    (env : Env) (id : ℕ) (param : RunParam) (user : UserContext)
    → Keeps IsSound (run_testcase_now env id param user none false >>= λ _. pure true)
run_now-IsSound env id param user =
    bind-Keeps IsSound (run_testcase_now env id param user none false) _
      (run_testcase_now-IsSound env id param user none false) (λ _ db s. s)

verdict_arm :
    (env : Env) (id : ℕ) (param : RunParam) (user : UserContext) (v : Verdict)
    → Keeps IsSound (
        if v.0
        then (enqueue_manual_execution id param user v.1 v.2 env.now >> pure true)
        else (run_testcase_now env id param user none false >> pure true))
verdict_arm env id param user (true, message, available) =
    bind-Keeps IsSound (enqueue_manual_execution id param user message available env.now) _
      (enqueue-IsSound id param user message available env.now) (λ _ db s. s)
verdict_arm env id param user (false, message, available) = run_now-IsSound env id param user

pub run_testcase-IsSound :
    (env : Env) (id : ℕ) (param : RunParam) (user : UserContext)
    → Keeps IsSound (run_testcase env id param user)
unfolding run_testcase
run_testcase-IsSound env id param user db s =
    elim (Bool-cases (text_eq param.queue_policy (codes "queue_when_no_slave"))) [
      | inr e ↦ rw e (run_now-IsSound env id param user db s)
      | inl e ↦ rw e (
          bind-Keeps IsSound (should_queue_run id param none) _
            (λ db. same-IsSound (should_queue_run-reads id param none db))
            (verdict_arm env id param user) db s)
    ]

pub run_testcase_legacy-IsSound :
    (env : Env) (id : ℕ) (user : UserContext) → Keeps IsSound (run_testcase_legacy env id user)
unfolding run_testcase_legacy
run_testcase_legacy-IsSound env id user db s =
    elim (Bool-cases (any (λ t. is_run_ing t.status && not (t.id == id)) db.testcases)) [
      | inl e ↦ rw e s
      | inr e ↦ rw e (
          bind-Keeps IsSound (run_testcase_now env id legacy_param user none true) _
            (run_testcase_now-IsSound env id legacy_param user none true) (λ _ db s. s) db s)
    ]

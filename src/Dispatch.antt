-- ===== src/Dispatch.antt =====
-- The entry points that start runs: the requests `run_testcase` and `run_testcase_legacy`
-- (api/app/services/testcase.py), and one scan of the queue's dispatcher,
-- `dispatch_pending_once` (api/app/services/execution_queue.py). The dispatcher's polling loop
-- only repeats the scan.
pub mod Scan
use pressure_platform.Prelude.{
  ℕ, suc, Bool, true, false, not, ◌&&◌, ◌+◌, Option, none, some, List, [], ◌∷◌, ◌++◌, if◌then◌else◌,
  ◌==◌, any,
}
use pressure_platform.Prelude.Text.{Text, codes, text_eq}
use pressure_platform.Prelude.Int.{ℤ, pos}
use pressure_platform.Store.{
  Db, ExecutionQueue, QueueStatus, Report, RunParam, TestCaseStatus, Code, Error, UserContext,
  Result, ok, err, Action, pure, gets, raise_if, when, modify, ◌>>=◌, ◌>>◌, get_queue, get_report,
  set_queue, set_testcase, is_run_ing, shown_message, TestCase,
}
use pressure_platform.ExecutionQueue.{
  is_pending, list_pending, with_status, enqueue_manual_execution, finish_queue, queue_user,
}
use pressure_platform.TestcaseRun.{Env, Verdict, busy, should_queue_run}
use pressure_platform.RunStart.{run_testcase_now}

-- `run_testcase`
unfoldable pub run_testcase : Env → ℕ → RunParam → UserContext → Action Bool
run_testcase env id param user =
    if text_eq param.queue_policy (codes "queue_when_no_slave")
    then (should_queue_run id param none >>= λ verdict.
        if verdict.0
        then (enqueue_manual_execution id param user verdict.1 verdict.2 env.now >> pure true)
        else (run_testcase_now env id param user none false >> pure true))
    else (run_testcase_now env id param user none false >> pure true)

-- `RunParam(slave_count=0)`
abbrev pub legacy_param : RunParam
legacy_param = record {
  task_name = [];
  num_threads = codes "10";
  ramp_time = codes "0";
  duration = codes "60";
  slave_count = pos 0;
  region = [];
  queue_policy = codes "fail_fast";
  thread_group_overrides = [];
}

-- `run_testcase_legacy`: refused while any other test case runs.
unfoldable pub run_testcase_legacy : Env → ℕ → UserContext → Action Bool
run_testcase_legacy env id user = do
  others ← gets (λ db. any (λ t. is_run_ing t.status && not (t.id == id)) db.testcases)
  raise_if others busy
  run_testcase_now env id legacy_param user none true
  pure true

abbrev pub error_text : Error → Text
error_text (Error.mysterious c m) = shown_message c m
error_text (Error.runtime_error m) = m
error_text (Error.other m) = m

abbrev pub with_message : Text → ExecutionQueue → ExecutionQueue
with_message message q = record q { message = message }

abbrev pub with_available : ℕ → ExecutionQueue → ExecutionQueue
with_available n q = record q { available_slave_count = n }

-- `except Exception`: the entry fails, and its test case with it.
abbrev pub start_failed : Text → ℕ → ExecutionQueue → ExecutionQueue
start_failed reason now q = record q {
  status = QueueStatus.failed;
  message = codes "启动失败: " ++ reason;
  finish_time = some now;
}

-- What the scan writes when a start has raised.
unfoldable pub record_start_error : ℕ → ExecutionQueue → Error → Db → Db
record_start_error now q (Error.mysterious c m) db =
    set_queue q.id (with_message (shown_message c m)) db
record_start_error now q e db =
    set_testcase q.test_case_id (with_status TestCaseStatus.run_failed)
      (set_queue q.id (start_failed (error_text e) now) db)

-- A start has returned a report that has ended already.
unfoldable pub record_early_end : ℕ → ExecutionQueue → ℕ → Db → Db
record_early_end now q report_id db = elim (get_report report_id db) [
  | none ↦ db
  | some r ↦ if is_run_ing r.status then db else set_queue q.id (finish_queue r.status now) db
]

-- What the loop's body does once the start has returned or raised: the value counts the started
-- tasks.
unfoldable pub after_start : Env → ExecutionQueue → Result ℕ → Action ℕ
unfolding record_early_end record_start_error
after_start env q (ok report_id) db = (ok 1, record_early_end env.now q report_id db)
after_start env q (err e) db = (ok 0, record_start_error env.now q e db)

-- `try: _run_testcase_now … except …`
unfoldable pub try_start : Env → ExecutionQueue → Action ℕ
unfolding after_start
try_start env q db =
    let (r, after) =
      run_testcase_now env q.test_case_id q.run_param (queue_user q) (some q.id) false db in
    after_start env q r after

abbrev pub is_still_pending : ℕ → Db → Bool
is_still_pending id db = elim (get_queue id db) [ none ↦ false | some q ↦ is_pending q.status ]

-- The rest of the loop's body, once it is known whether the entry has to wait. For one that need
-- not wait, `db.refresh` reads the row again and drops the count of nodes that was set on it.
unfoldable pub dispatch_verdict : Env → ExecutionQueue → Verdict → Action ℕ
unfolding try_start
dispatch_verdict env q (should_queue, message, available) db =
    if should_queue
    then (
      ok 0,
      set_queue q.id (with_message message) (set_queue q.id (with_available available) db),
    )
    else if is_still_pending q.id db
    then try_start env q db
    else (ok 0, db)

-- One round of the loop. The first call stands outside the `try`: what it raises ends the scan.
unfoldable pub dispatch_entry : Env → ExecutionQueue → Action ℕ
unfolding dispatch_verdict
dispatch_entry env q =
    should_queue_run q.test_case_id q.run_param (some q.id) >>= dispatch_verdict env q

unfoldable pub dispatch_entries : Env → List ExecutionQueue → ℕ → Action ℕ
unfolding dispatch_entry
dispatch_entries env [] started = pure started
dispatch_entries env (q ∷ queues) started =
    dispatch_entry env q >>= λ n. dispatch_entries env queues (started + n)

-- The number of started tasks.
unfoldable pub dispatch_pending_once : Env → ℕ → Action ℕ
unfolding dispatch_entries
dispatch_pending_once env limit db = dispatch_entries env (list_pending limit db) 0 db

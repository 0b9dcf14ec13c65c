-- ===== src/ExecutionQueue.antt =====
-- The manual execution queue: its queries (api/app/crud/execution_queue.py), and the operations on
-- one entry (api/app/services/execution_queue.py, and the three helpers of
-- api/app/services/testcase.py that change an entry). The dispatcher stands in `Dispatch`.
pub mod Single
pub mod Order
pub mod Cancel
use pressure_platform.Prelude.{
  ℕ, suc, ◌+◌, Bool, true, false, not, ◌&&◌, ◌||◌, Option, none, some, List, [], ◌∷◌, ◌++◌,
  if◌then◌else◌, ◌==◌, ltb, leb, find, keep, take, sort_by, is_some,
}
use pressure_platform.Prelude.Text.{Text, codes, text_eq, or_else, str, parse_int}
use pressure_platform.Prelude.Int.{ℤ, pos, negsuc}
use pressure_platform.Store.{
  Db, ExecutionQueue, QueueStatus, RunParam, TestCaseStatus, TestCase, Code, Error, UserContext,
  stamp_create, stamp_modify, Result, ok, err, Action, pure, raise, gets, or_raise, modify,
  raise_if, when, ◌>>=◌, ◌>>◌, get_testcase, get_queue, set_testcase, set_queue, is_run_success,
}

abbrev pub is_pending : QueueStatus → Bool
is_pending QueueStatus.pending = true
is_pending _ = false

-- `STATUS_RUNNING, STATUS_CANCELING`
abbrev pub is_started : QueueStatus → Bool
is_started QueueStatus.running = true
is_started QueueStatus.canceling = true
is_started _ = false

-- `ACTIVE_STATUSES`
abbrev pub is_active : QueueStatus → Bool
is_active s = is_pending s || is_started s

-- `order_by(enqueue_time.asc(), id.asc())`
abbrev pub enqueued_before : ExecutionQueue → ExecutionQueue → Bool
enqueued_before a b =
    ltb a.enqueue_time b.enqueue_time || (a.enqueue_time == b.enqueue_time && leb a.id b.id)

unfoldable pub list_pending : ℕ → Db → List ExecutionQueue
list_pending limit db =
    take limit (sort_by enqueued_before (keep (λ q. is_pending q.status) db.queues))

-- `order_by(id.desc()).limit(1)`: the row with the largest key.
abbrev pub latest : List ExecutionQueue → Option ExecutionQueue
latest [] = none
latest (q ∷ qs) = elim (latest qs) [
  | none ↦ some q
  | some later ↦ if leb q.id later.id then some later else some q
]

-- A row that stands for a test case in a region and is not at its end.
abbrev pub is_active_for : ℕ → Text → ExecutionQueue → Bool
is_active_for test_case_id region q =
    q.test_case_id == test_case_id && (text_eq q.region region && is_active q.status)

unfoldable pub get_active_by_testcase_region : ℕ → Text → Db → Option ExecutionQueue
get_active_by_testcase_region test_case_id region db =
    latest (keep (is_active_for test_case_id region) db.queues)

unfoldable pub get_active_by_testcase : ℕ → Db → Option ExecutionQueue
get_active_by_testcase test_case_id db =
    latest (keep (λ q. q.test_case_id == test_case_id && is_active q.status) db.queues)

-- The statement has no order, so the database may return any row with the report's key; rows are
-- bound to reports one to one, and the model takes the first.
unfoldable pub get_by_report_id : ℕ → Db → Option ExecutionQueue
get_by_report_id report_id db = find (λ q. q.report_id == report_id) db.queues

abbrev pub new_queue : ℕ → ℕ → RunParam → UserContext → Text → ℕ → ℕ → ExecutionQueue
new_queue key testcase_id param user message available_slave_count now = record {
  id = key;
  test_case_id = testcase_id;
  report_id = 0;
  status = QueueStatus.pending;
  run_param = param;
  region = param.region;
  requested_slave_count = param.slave_count;
  available_slave_count = available_slave_count;
  allocated_slave_count = 0;
  slave_hosts = [];
  message = message;
  enqueue_time = now;
  start_time = none;
  finish_time = none;
  audit = stamp_create user now;
}

abbrev add_queue : ℕ → RunParam → UserContext → Text → ℕ → ℕ → Db → Db
add_queue testcase_id param user message available_slave_count now db = record db {
  queues =
      db.queues
      ++ new_queue db.next_queue_id testcase_id param user message available_slave_count now ∷ [];
  next_queue_id = suc db.next_queue_id;
}

abbrev pub with_status : TestCaseStatus → TestCase → TestCase
with_status status t = record t { status = status }

-- Returns the key of the new row.
unfoldable pub enqueue_manual_execution : ℕ → RunParam → UserContext → Text → ℕ → ℕ → Action ℕ
enqueue_manual_execution testcase_id param user message available_slave_count now = do
  existing ← gets (get_active_by_testcase_region testcase_id param.region)
  raise_if (is_some existing) (Error.mysterious Code.testcase_is_running none)
  found ← gets (get_testcase testcase_id)
  testcase ← or_raise found (Error.mysterious Code.testcase_not_exist none)
  key ← gets (λ db. db.next_queue_id)
  modify (set_testcase testcase_id (with_status TestCaseStatus.run_waiting))
  modify (add_queue testcase_id param user message available_slave_count now)
  pure key

unfoldable pub msg_missing : Text
msg_missing = codes "执行队列任务不存在"

unfoldable pub msg_not_pending : Text
msg_not_pending = codes "只有待执行任务可以取消"

unfoldable pub msg_canceled : Text
msg_canceled = codes "用户取消待执行任务"

abbrev pub cancel_queue : UserContext → ℕ → ExecutionQueue → ExecutionQueue
cancel_queue user now q = record q {
  status = QueueStatus.canceled;
  finish_time = some now;
  message = msg_canceled;
  audit = stamp_modify user now q.audit;
}

unfoldable pub cancel_pending_execution : ℕ → UserContext → ℕ → Action Bool
cancel_pending_execution queue_id user now = do
  found ← gets (get_queue queue_id)
  queue ← or_raise found (Error.mysterious Code.fail (some msg_missing))
  raise_if (not (is_pending queue.status)) (Error.mysterious Code.fail (some msg_not_pending))
  modify (set_queue queue_id (cancel_queue user now))
  modify (set_testcase queue.test_case_id (with_status TestCaseStatus.wait_cancel))
  pure true

-- `_queue_user`: the user on whose behalf the dispatcher starts an entry. A key that is no number
-- becomes 0; keys of users are positive, so the sign of a readable one does not matter.
unfoldable pub queue_user : ExecutionQueue → UserContext
queue_user q = record {
  id = elim (parse_int (or_else q.audit.creator_id (codes "0"))) [
    | none ↦ 0
    | some z ↦ elim z [ pos n ↦ n | negsuc n ↦ 0 ]
  ];
  username = or_else q.audit.creator (codes "system");
  real_name = or_else q.audit.creator (codes "system");
}

unfoldable pub msg_done : Text
msg_done = codes "执行完成"

unfoldable pub msg_run_failed : Text
msg_run_failed = codes "执行失败"

-- The end of an entry whose report has ended.
abbrev pub finish_queue : TestCaseStatus → ℕ → ExecutionQueue → ExecutionQueue
finish_queue status now q = record q {
  status = if is_run_success status then QueueStatus.success else QueueStatus.failed;
  finish_time = some now;
  message = if is_run_success status then msg_done else msg_run_failed;
}

unfoldable pub sync_report_status : ℕ → TestCaseStatus → ℕ → Db → Db
sync_report_status report_id status now db = elim (get_by_report_id report_id db) [
  | none ↦ db
  | some q ↦ if is_started q.status then set_queue q.id (finish_queue status now) db else db
]

unfoldable pub msg_changed : Text
msg_changed = codes "执行队列任务已取消或状态已变更"

unfoldable pub msg_preparing : Text
msg_preparing = codes "正在准备执行"

unfoldable pub msg_started : Text
msg_started = codes "已开始执行"

abbrev pub claim_queue : ℕ → ExecutionQueue → ExecutionQueue
claim_queue now q = record q {
  status = QueueStatus.running;
  start_time = some now;
  message = msg_preparing;
}

-- `_claim_execution_queue_for_start`
unfoldable pub claim_execution_queue_for_start : ℕ → ℕ → Action Unit
claim_execution_queue_for_start queue_id now = do
  found ← gets (get_queue queue_id)
  queue ← or_raise found (Error.mysterious Code.fail (some msg_changed))
  raise_if (not (is_pending queue.status)) (Error.mysterious Code.fail (some msg_changed))
  modify (set_queue queue_id (claim_queue now))

abbrev pub is_running : QueueStatus → Bool
is_running QueueStatus.running = true
is_running _ = false

abbrev pub bind_queue : ℕ → ℕ → List Text → ExecutionQueue → ExecutionQueue
bind_queue report_id slave_count slave_hosts q = record q {
  report_id = report_id;
  allocated_slave_count = slave_count;
  slave_hosts = slave_hosts;
  message = msg_started;
}

-- `_bind_execution_queue_report`
unfoldable pub bind_execution_queue_report : ℕ → ℕ → ℕ → List Text → Action Unit
bind_execution_queue_report queue_id report_id slave_count slave_hosts = do
  found ← gets (get_queue queue_id)
  queue ← or_raise found (Error.mysterious Code.fail (some msg_changed))
  raise_if (not (is_running queue.status)) (Error.mysterious Code.fail (some msg_changed))
  modify (set_queue queue_id (bind_queue report_id slave_count slave_hosts))

abbrev pub stop_queue : Text → ℕ → ExecutionQueue → ExecutionQueue
stop_queue message now q = record q {
  status = QueueStatus.failed;
  finish_time = some now;
  message = message;
}

-- `_mark_execution_queue_stopped`
unfoldable pub mark_execution_queue_stopped : ℕ → Text → ℕ → Db → Db
mark_execution_queue_stopped report_id message now db = elim (get_by_report_id report_id db) [
  | none ↦ db
  | some q ↦ set_queue q.id (stop_queue message now) db
]

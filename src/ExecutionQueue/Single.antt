-- ===== src/ExecutionQueue/Single.antt =====
-- The well-formed execution queue, with unique keys and one active entry at most for a test case in
-- a region, under the operations on entries (api/app/services/execution_queue.py, api/app/services/testcase.py).
use pressure_platform.Prelude.{
  ℕ, suc, ◌≤◌, ◌<◌, ◌≡◌, refl, ap, inl, inr, Bool, true, false, some, List, [], ◌∷◌, arith, ◌==◌,
  keep, update_where, count_where, length, is_some, count_where-append, count_where-update_le,
  count_where-update_eq, count_where-update_found, length-keep, Option-cases, Bool-cases, All,
  All-append,
}
use pressure_platform.Prelude.Text.{Text, eq_of_text_eq}
use pressure_platform.Store.{
  Db, ExecutionQueue, RunParam, TestCaseStatus, UserContext, get_queue, set_queue, set_testcase,
  get_testcase, TestCase,
}
use pressure_platform.ExecutionQueue.{
  is_running, is_pending, is_started, is_active, is_active_for, latest,
  get_active_by_testcase_region, get_by_report_id, new_queue, add_queue, with_status,
  enqueue_manual_execution, cancel_queue, cancel_pending_execution, finish_queue,
  sync_report_status, claim_queue, claim_execution_queue_for_start, bind_queue,
  bind_execution_queue_report, stop_queue, mark_execution_queue_stopped,
}

abbrev pub active_for : ℕ → Text → Db → ℕ
active_for test_case_id region db = count_where (is_active_for test_case_id region) db.queues

abbrev pub keyed : ℕ → Db → ℕ
keyed k db = count_where (λ q. q.id == k) db.queues

pub record IsValid (db : Db) : Type 0 where
  pub keys : (k : ℕ) → keyed k db ≤ 1
  pub fresh : All (λ q. q.id < db.next_queue_id) db.queues
  pub single : (test_case_id : ℕ) (region : Text) → active_for test_case_id region db ≤ 1

-- A change of a row that keeps its key and never makes it stand for a test case in a region anew.
pub record Calms (f : ExecutionQueue → ExecutionQueue) : Type 0 where
  pub keeps_id : (q : ExecutionQueue) → (f q).id ≡ q.id
  pub activates_none :
      (t : ℕ) (r : Text) (q : ExecutionQueue)
      → is_active_for t r (f q) ≡ true
      → is_active_for t r q ≡ true

pub fresh-update :
    (p : ExecutionQueue → Bool) (f : ExecutionQueue → ExecutionQueue) (n : ℕ)
    (qs : List ExecutionQueue)
    → ((q : ExecutionQueue) → (f q).id ≡ q.id)
    → All (λ q. q.id < n) qs
    → All (λ q. q.id < n) (update_where p f qs)
fresh-update p f n [] same h = tt
fresh-update p f n (q ∷ qs) same h = (ground (arith, same q), fresh-update p f n qs same h.1)

pub set_queue-IsValid :
    (id : ℕ) (f : ExecutionQueue → ExecutionQueue) (db : Db)
    → Calms f
    → IsValid db
    → IsValid (set_queue id f db)
set_queue-IsValid id f db calm v = record {
  keys = λ k. omega (
    arith,
    v.keys k,
    count_where-update_eq (λ q. q.id == id) (λ q. q.id == k) f db.queues
        (λ q. ap (λ i. i == k) (calm.keeps_id q)),
  );
  fresh = fresh-update (λ q. q.id == id) f db.next_queue_id db.queues calm.keeps_id v.fresh;
  single = λ t r. omega (
    arith,
    v.single t r,
    count_where-update_le (λ q. q.id == id) (is_active_for t r) f db.queues
        (calm.activates_none t r),
  );
}

-- The same for a change of one row that was active before.
pub set_active-IsValid :
    (id : ℕ) (f : ExecutionQueue → ExecutionQueue) (db : Db) (q : ExecutionQueue)
    → ((x : ExecutionQueue) → (f x).id ≡ x.id)
    → get_queue id db ≡ some q
    → ((t : ℕ) (r : Text) → is_active_for t r (f q) ≡ true → is_active_for t r q ≡ true)
    → IsValid db
    → IsValid (set_queue id f db)
set_active-IsValid id f db q same found keeps v = record {
  keys = λ k. omega (
    arith,
    v.keys k,
    count_where-update_eq (λ q. q.id == id) (λ q. q.id == k) f db.queues
        (λ q. ap (λ i. i == k) (same q)),
  );
  fresh = fresh-update (λ q. q.id == id) f db.next_queue_id db.queues same v.fresh;
  single = λ t r. omega (
    arith,
    v.single t r,
    count_where-update_found (λ q. q.id == id) (is_active_for t r) f db.queues q (v.keys id) found
        (keeps t r),
  );
}

ends :
    (t : ℕ) (r : Text) (q : ExecutionQueue)
    → is_active q.status ≡ false
    → is_active_for t r q ≡ false
ends t r q h = ground arith

cancel-Calms : (user : UserContext) (now : ℕ) → Calms (cancel_queue user now)
cancel-Calms user now = record { keeps_id = λ q. refl; activates_none = λ t r q h. ground arith }

pub finish-Calms : (status : TestCaseStatus) (now : ℕ) → Calms (finish_queue status now)
finish-Calms status now = record { keeps_id = λ q. refl; activates_none = λ t r q h. ground arith }

stop-Calms : (message : Text) (now : ℕ) → Calms (stop_queue message now)
stop-Calms message now = record { keeps_id = λ q. refl; activates_none = λ t r q h. ground arith }

bind-Calms : (report_id n : ℕ) (hosts : List Text) → Calms (bind_queue report_id n hosts)
bind-Calms report_id n hosts = record { keeps_id = λ q. refl; activates_none = λ t r q h. h }

latest-nil : (qs : List ExecutionQueue) → is_some (latest qs) ≡ false → length qs ≡ 0
latest-nil [] h = refl
latest-nil (q ∷ qs) h = ground arith

keyed_fresh :
    (n k : ℕ) (qs : List ExecutionQueue)
    → All (λ q. q.id < n) qs
    → n ≤ k
    → count_where (λ q. q.id == k) qs ≡ 0
keyed_fresh n k [] h le = refl
keyed_fresh n k (q ∷ qs) h le = ground (arith, keyed_fresh n k qs h.1 le)

fresh_later :
    (n : ℕ) (qs : List ExecutionQueue) → All (λ q. q.id < n) qs → All (λ q. q.id < suc n) qs
fresh_later n [] h = tt
fresh_later n (q ∷ qs) h = (omega (arith, h.0), fresh_later n qs h.1)

idle_for :
    (t : ℕ) (region : Text) (db : Db) (t' : ℕ) (r : Text)
    → active_for t region db ≡ 0
    → t ≡ t'
    → region ≡ r
    → active_for t' r db ≡ 0
idle_for t region db t' r idle e f = cc

pub set_testcase-IsValid :
    (id : ℕ) (f : TestCase → TestCase) (db : Db) → IsValid db → IsValid (set_testcase id f db)
set_testcase-IsValid id f db v = record { keys = v.keys; fresh = v.fresh; single = v.single }

-- A new row keeps the invariant when no active row stands for its test case in its region.
add_queue-IsValid :
    (t : ℕ) (param : RunParam) (user : UserContext) (message : Text) (available now : ℕ) (db : Db)
    → active_for t param.region db ≡ 0
    → IsValid db
    → IsValid (add_queue t param user message available now db)
add_queue-IsValid t param user message available now db idle v =
    let q = new_queue db.next_queue_id t param user message available now in
    record {
      keys = λ k. ground (
        arith,
        v.keys k,
        keyed_fresh db.next_queue_id k db.queues v.fresh,
        count_where-append (λ x. x.id == k) db.queues (q ∷ []),
      );
      fresh =
          All-append _ db.queues (q ∷ []) (fresh_later db.next_queue_id db.queues v.fresh)
            (omega arith, tt);
      single = λ t' r. ground (
        arith,
        v.single t' r,
        eq_of_text_eq param.region r,
        idle_for t param.region db t' r idle,
        count_where-append (is_active_for t' r) db.queues (q ∷ []),
      );
    }

no_active-nil :
    (t : ℕ) (r : Text) (db : Db)
    → is_some (get_active_by_testcase_region t r db) ≡ false
    → active_for t r db ≡ 0
unfolding get_active_by_testcase_region
no_active-nil t r db h = omega (
  arith,
  latest-nil (keep (is_active_for t r) db.queues) h,
  length-keep (is_active_for t r) db.queues,
)

-- The invariant at a state that is another one.
IsValid-of_eq : {x : Db} (y : Db) → IsValid y → x ≡ y → IsValid x
IsValid-of_eq y v e = rw e v

-- Enqueueing keeps the invariant, whether it succeeds or is refused.
pub enqueue_manual_execution-IsValid :
    (t : ℕ) (param : RunParam) (user : UserContext) (message : Text) (available now : ℕ) (db : Db)
    → IsValid db
    → IsValid (enqueue_manual_execution t param user message available now db).1
unfolding enqueue_manual_execution
enqueue_manual_execution-IsValid t param user message available now db v =
    elim (Bool-cases (is_some (get_active_by_testcase_region t param.region db))) [
      | inl taken ↦ IsValid-of_eq db v (ground arith)
      | inr free ↦ elim (Option-cases (get_testcase t db)) [
        | inl missing ↦ IsValid-of_eq db v (ground arith)
        | inr (testcase, found) ↦
            let waiting = set_testcase t (with_status TestCaseStatus.run_waiting) db in
            IsValid-of_eq (add_queue t param user message available now waiting)
              (add_queue-IsValid t param user message available now waiting
                (no_active-nil t param.region db free) (set_testcase-IsValid t _ db v))
              (ground arith)
      ]
    ]

-- So does a cancellation, accepted or not.
pub cancel_pending_execution-IsValid :
    (queue_id : ℕ) (user : UserContext) (now : ℕ) (db : Db)
    → IsValid db
    → IsValid (cancel_pending_execution queue_id user now db).1
unfolding cancel_pending_execution
cancel_pending_execution-IsValid queue_id user now db v =
    elim (Option-cases (get_queue queue_id db)) [
      | inl e ↦ IsValid-of_eq db v (ground arith)
      | inr (q, e) ↦ elim (Bool-cases (is_pending q.status)) [
        | inl b ↦
            let canceled = set_queue queue_id (cancel_queue user now) db in
            IsValid-of_eq
              (set_testcase q.test_case_id (with_status TestCaseStatus.wait_cancel) canceled)
              (set_testcase-IsValid q.test_case_id _ canceled
                (set_queue-IsValid queue_id _ db (cancel-Calms user now) v))
              (ground arith)
        | inr b ↦ IsValid-of_eq db v (ground arith)
      ]
    ]

-- So does the callback that ends the entry of a report.
pub sync_report_status-IsValid :
    (report_id : ℕ) (status : TestCaseStatus) (now : ℕ) (db : Db)
    → IsValid db
    → IsValid (sync_report_status report_id status now db)
unfolding sync_report_status
sync_report_status-IsValid report_id status now db v =
    elim (Option-cases (get_by_report_id report_id db)) [
      | inl e ↦ IsValid-of_eq db v (ground arith)
      | inr (q, e) ↦ elim (Bool-cases (is_started q.status)) [
        | inl b ↦
            IsValid-of_eq (set_queue q.id (finish_queue status now) db)
              (set_queue-IsValid q.id _ db (finish-Calms status now) v) (ground arith)
        | inr b ↦ IsValid-of_eq db v (ground arith)
      ]
    ]

pub mark_execution_queue_stopped-IsValid :
    (report_id : ℕ) (message : Text) (now : ℕ) (db : Db)
    → IsValid db
    → IsValid (mark_execution_queue_stopped report_id message now db)
unfolding mark_execution_queue_stopped
mark_execution_queue_stopped-IsValid report_id message now db v =
    elim (Option-cases (get_by_report_id report_id db)) [
      | inl e ↦ IsValid-of_eq db v (ground arith)
      | inr (q, e) ↦
          IsValid-of_eq (set_queue q.id (stop_queue message now) db)
            (set_queue-IsValid q.id _ db (stop-Calms message now) v) (ground arith)
    ]

-- So does the claim that the dispatcher makes on an entry before it starts a run.
pub claim_execution_queue_for_start-IsValid :
    (queue_id now : ℕ) (db : Db)
    → IsValid db
    → IsValid (claim_execution_queue_for_start queue_id now db).1
unfolding claim_execution_queue_for_start
claim_execution_queue_for_start-IsValid queue_id now db v =
    elim (Option-cases (get_queue queue_id db)) [
      | inl e ↦ IsValid-of_eq db v (ground arith)
      | inr (q, e) ↦ elim (Bool-cases (is_pending q.status)) [
        | inl b ↦
            IsValid-of_eq (set_queue queue_id (claim_queue now) db)
              (set_active-IsValid queue_id (claim_queue now) db q (λ x. refl) e
                (λ t r h. ground arith) v)
              (ground arith)
        | inr b ↦ IsValid-of_eq db v (ground arith)
      ]
    ]

pub bind_execution_queue_report-IsValid :
    (queue_id report_id n : ℕ) (hosts : List Text) (db : Db)
    → IsValid db
    → IsValid (bind_execution_queue_report queue_id report_id n hosts db).1
unfolding bind_execution_queue_report
bind_execution_queue_report-IsValid queue_id report_id n hosts db v =
    elim (Option-cases (get_queue queue_id db)) [
      | inl e ↦ IsValid-of_eq db v (ground arith)
      | inr (q, e) ↦ elim (Bool-cases (is_running q.status)) [
        | inl b ↦
            IsValid-of_eq (set_queue queue_id (bind_queue report_id n hosts) db)
              (set_queue-IsValid queue_id _ db (bind-Calms report_id n hosts) v) (ground arith)
        | inr b ↦ IsValid-of_eq db v (ground arith)
      ]
    ]

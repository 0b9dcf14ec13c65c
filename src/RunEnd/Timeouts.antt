-- ===== src/RunEnd/Timeouts.antt =====
-- What one round of the timeout scan leaves behind (api/app/services/timeout_scanner.py).
use pressure_platform.Prelude.{
  ℕ, ◌≡◌, ◌∙◌, refl, Bool, true, false, Option, none, some, List, [], ◌∷◌, arith, subst,
  if◌then◌else◌, ◌==◌, find, keep, update_where, count_where, All, inl, inr, Bool-cases, All-map,
}
use mathlib.Core.Option.{some-injective}
use pressure_platform.Prelude.Text.{Text}
use pressure_platform.Store.{
  Db, TestCase, Report, TestCaseStatus, get_report, get_testcase, is_run_ing,
}
use pressure_platform.ExecutionNode.{release_by_report}
use pressure_platform.RunEnd.{
  is_overdue, row_and, joined, running_reports, time_out, time_out_rows, scan_and_timeout,
  end_report, update_testcase_and_report, msg_timeout, timeout_of,
}
use pressure_platform.RunEnd.Stops.{id-of_found}

abbrev pub overdue_row : ℕ → Report × TestCase → Bool
overdue_row now row = is_overdue now row.0 row.1

-- Not the key of an overdue report of the list.
abbrev pub IsSpared : ℕ → List (Report × TestCase) → ℕ → Type 0
IsSpared now rows k = All (λ row. overdue_row now row ≡ true → (k == row.0.id) ≡ false) rows

time_out-tables :
    (now : ℕ) (report : Report) (t : TestCase) (db : Db)
    → (response : Text) × ((time_out now report t db).reports
        ≡ update_where (λ r. r.id == report.id) (end_report response) db.reports)
      × ((time_out now report t db).queues ≡ db.queues)
unfolding time_out release_by_report
time_out-tables now report t db = (msg_timeout (timeout_of t), ground arith, ground arith)

-- An end of a report keeps what holds of the running reports, and spares none with the report's key.
ended_reports :
    (Q : Report → Type 0) (k : ℕ) (response : Text) (rs : List Report)
    → All (λ r. is_run_ing r.status ≡ true → Q r) rs
    → All
        (λ r. is_run_ing r.status ≡ true → Q r × ((r.id == k) ≡ false))
        (update_where (λ r. r.id == k) (end_report response) rs)
ended_reports Q k response [] h = tt
ended_reports Q k response (r ∷ rs) h = elim (Bool-cases (r.id == k)) [
  | inl e ↦ rw e ((λ run. absurd (ground arith)), ended_reports Q k response rs h.1)
  | inr e ↦ rw e ((λ run. (h.0 run, e)), ended_reports Q k response rs h.1)
]

-- Only reports that no overdue row names run on, and each of them was running before.
time_out_rows-spares :
    (now : ℕ) (rows : List (Report × TestCase)) (db : Db) (Q : Report → Type 0)
    → All (λ r. is_run_ing r.status ≡ true → Q r) db.reports
    → All
        (λ r. is_run_ing r.status ≡ true → Q r × IsSpared now rows r.id)
        (time_out_rows now rows db).1.reports
unfolding time_out_rows
time_out_rows-spares now [] db Q h = All-map _ _ db.reports (λ r q run. (q run, tt)) h
time_out_rows-spares now ((report, t) ∷ rows) db Q h = elim (Bool-cases (is_overdue now report t)) [
  | inl e ↦
      let (response, ended, _) = time_out-tables now report t db in
      let other : Report → Type 0 = λ r. Q r × ((r.id == report.id) ≡ false) in
      rw e (
        All-map _ _ (time_out_rows now rows (time_out now report t db)).1.reports
          (λ r q run. let ((held, apart), spared) = q run in (held, ((λ _. apart), spared)))
          (time_out_rows-spares now rows (time_out now report t db) other
            (rw ended (ended_reports Q report.id response db.reports h))))
  | inr e ↦ rw e (
      All-map _ _ (time_out_rows now rows db).1.reports
        (λ r q run.
          let (held, spared) = q run in (held, ((λ due. absurd (ground (arith, due, e))), spared)))
        (time_out_rows-spares now rows db Q h))
]

time_out_rows-count :
    (now : ℕ) (rows : List (Report × TestCase)) (db : Db)
    → ((time_out_rows now rows db).0 ≡ count_where (overdue_row now) rows)
      × ((time_out_rows now rows db).1.queues ≡ db.queues)
unfolding time_out_rows
time_out_rows-count now [] db = (refl, refl)
time_out_rows-count now ((report, t) ∷ rows) db = ground (
  arith,
  time_out_rows-count now rows (time_out now report t db),
  time_out_rows-count now rows db,
  (time_out-tables now report t db).2,
)

All-true : (rs : List Report) → All (λ r. is_run_ing r.status ≡ true → Unit {0}) rs
All-true [] = tt
All-true (r ∷ rs) = ((λ _. tt), All-true rs)

-- One round of the timeout scan returns the number of running reports past their deadline, and
-- afterwards no report with the key of one of those is running. It leaves the queue as it was.
pub scan_and_timeout_lem :
    (now : ℕ) (db : Db)
    → let rows = joined (running_reports db) db in
      let (n, after) = scan_and_timeout now db in
      (n ≡ count_where (overdue_row now) rows)
      × All (λ r. is_run_ing r.status ≡ true → IsSpared now rows r.id) after.reports
      × (after.queues ≡ db.queues)
unfolding scan_and_timeout
scan_and_timeout_lem now db =
    let rows = joined (running_reports db) db in
    let (n, q) = time_out_rows-count now rows db in
    (
      n,
      All-map _ _ (time_out_rows now rows db).1.reports (λ r s run. (s run).1)
          (time_out_rows-spares now rows db (λ _. Unit {0}) (All-true db.reports)),
      q,
    )

All-found {ℓ κ} :
    {A : Type ℓ} (P : A → Type κ) (p : A → Bool) (xs : List A) (x : A)
    → All P xs
    → find p xs ≡ some x
    → P x
All-found P p [] x h e = absurd (ground arith)
All-found P p (y ∷ ys) x h e = elim (Bool-cases (p y)) [
  | inl b ↦ subst P (some-injective y x (ground (arith, b, e))) h.0
  | inr b ↦ All-found P p ys x h.1 (ground (arith, b, e))
]

All-kept {ℓ κ} :
    {A : Type ℓ} (P : A → Type κ) (q : A → Bool) (xs : List A)
    → All P (keep q xs)
    → All (λ x. q x ≡ true → P x) xs
All-kept P q [] h = tt
All-kept P q (x ∷ xs) h = elim (Bool-cases (q x)) [
  | inl e ↦
      let kept : All P (x ∷ keep q xs) =
        subst (λ b. All P (if b then x ∷ keep q xs else keep q xs)) e h in
      ((λ _. kept.0), All-kept P q xs kept.1)
  | inr e ↦ (
    (λ t. absurd (ground (arith, t, e))),
    All-kept P q xs (subst (λ b. All P (if b then x ∷ keep q xs else keep q xs)) e h),
  )
]

rest-row_and {κ} :
    (P : Report × TestCase → Type κ) (r : Report) (found : Option TestCase)
    (rest : List (Report × TestCase))
    → All P (row_and r found rest)
    → All P rest
rest-row_and P r none rest h = h
rest-row_and P r (some t) rest h = h.1

All-joined {κ} :
    (P : Report × TestCase → Type κ) (db : Db) (rs : List Report)
    → All P (joined rs db)
    → All (λ r. (t : TestCase) → get_testcase r.test_case_id db ≡ some t → P (r, t)) rs
All-joined P db [] h = tt
All-joined P db (r ∷ rs) h = (
  (λ t e. (subst (λ o. All P (row_and r o (joined rs db))) e h).0),
  All-joined P db rs (rest-row_and P r (get_testcase r.test_case_id db) (joined rs db) h),
)

-- No report runs after the scan whose key is that of a running report past its deadline.
timed_out-ended :
    (now : ℕ) (db : Db) (r : ℕ) (report late : Report) (t : TestCase)
    → get_report r db ≡ some report
    → is_run_ing report.status ≡ true
    → get_testcase report.test_case_id db ≡ some t
    → is_overdue now report t ≡ true
    → get_report r (scan_and_timeout now db).1 ≡ some late
    → is_run_ing late.status ≡ false
timed_out-ended now db r report late t found run has_case due after =
    elim (Bool-cases (is_run_ing late.status)) [
      | inr e ↦ e
      | inl e ↦
          let apart : Report × TestCase → Type 0 =
            λ row. overdue_row now row ≡ true → (late.id == row.0.id) ≡ false in
          let spared =
            All-found _ (λ x. x.id == r) (scan_and_timeout now db).1.reports late
              (scan_and_timeout_lem now db).1 after e in
          let kept =
            All-kept _ (λ x. is_run_ing x.status) db.reports
              (All-joined apart db (running_reports db) spared) in
          let named =
            All-found _ (λ x. x.id == r) db.reports report kept found run t has_case due in
          absurd (
            ground (
              arith,
              named,
              id-of_found r report db found,
              id-of_found r late (scan_and_timeout now db).1 after,
            ))
    ]

late_callback :
    (t r : ℕ) (status : TestCaseStatus) (reply : Option Text) (now : ℕ) (db : Db)
    (found : Option Report)
    → get_report r db ≡ found
    → ((late : Report) → found ≡ some late → is_run_ing late.status ≡ false)
    → (update_testcase_and_report t r status reply now db).queues ≡ db.queues
unfolding update_testcase_and_report
late_callback t r status reply now db none e h = ground (arith, e)
late_callback t r status reply now db (some late) e h = ground (arith, e, h late refl)

-- A running report with a test case that one round of the scan finds past its deadline: neither the
-- scan nor any later callback for the report's key changes an entry of the queue, so the entry that
-- started the run stays as it was.
pub update_testcase_and_report-scan_and_timeout :
    (now : ℕ) (db : Db) (r : ℕ) (report : Report) (t : TestCase) (callback_testcase : ℕ)
    (status : TestCaseStatus) (reply : Option Text) (later : ℕ)
    → get_report r db ≡ some report
    → is_run_ing report.status ≡ true
    → get_testcase report.test_case_id db ≡ some t
    → is_overdue now report t ≡ true
    → (update_testcase_and_report callback_testcase r status reply later
        (scan_and_timeout now db).1).queues
      ≡ db.queues
update_testcase_and_report-scan_and_timeout now db r report t c status reply later found run
      has_case due =
    late_callback c r status reply later (scan_and_timeout now db).1
      (get_report r (scan_and_timeout now db).1) refl
      (λ late after. timed_out-ended now db r report late t found run has_case due after)
    ∙ (scan_and_timeout_lem now db).2

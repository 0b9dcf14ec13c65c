-- ===== src/RunStart/Outcomes.antt =====
-- What a start of a run leaves behind when it succeeds, and when its last step fails
-- (api/app/services/testcase.py).
use pressure_platform.Prelude.{
  ℕ, suc, ap, sym, subst, ◌≡◌, ◌∙◌, refl, inl, inr, Bool, true, Option, none, some, List, [], ◌∷◌,
  ◌++◌, arith, ◌==◌, length, max, find, All, update_where,
}
use mathlib.Core.Option
use mathlib.Core.List.{append-nil}
use pressure_platform.Prelude.Text.{Text, strip}
use pressure_platform.Store.{
  Db, Node, Report, LeaseStatus, TestCase, TestCaseStatus, RunParam, UserContext, Error, ok, err,
  Result-cases, Action, ◌>>=◌, ◌>>◌, pure, set_testcase, set_report,
}
use pressure_platform.ExecutionNode.{new_leases, lease_nodes, release_by_report}
use pressure_platform.ExecutionNode.Release.{held_by, release_by_report_lem}
use pressure_platform.ExecutionQueue.{get_by_report_id, stop_queue, bind_execution_queue_report}
use pressure_platform.TestcaseRun.{Env}
use pressure_platform.RunStart.{
  Request, prepare_run, record_run, new_report, take_leases, after_leasing, launch_run, start_run,
  mark_run_start_failed, failed_report, stamped_status, msg_launch_failed, msg_launch_released,
}
use pressure_platform.RunStart.Reads.{prepare_run-reads}
use pressure_platform.RunEnd.Stops.{stopped-bound, stopped_queue-tables, release-tables}

-- A run that starts adds one report and one lease for each node: these are the columns it changes.
abbrev pub IsStarted : Env → RunParam → UserContext → Request → List Node → ℕ → ℕ → Db → Db → Type 0
IsStarted env param user request slaves total_threads report_id db after =
    (report_id ≡ db.next_report_id)
    × (after.reports
        ≡ db.reports
          ++ new_report report_id env request.testcase param user total_threads
              (max 1 (length slaves))
            ∷ [])
    × (after.leases
        ≡ db.leases
          ++ new_leases db.next_lease_id report_id request.testcase.id slaves (strip param.region)
              env.now)

record_run-returns :
    (env : Env) (param : RunParam) (user : UserContext) (queue_id : Option ℕ) (ignore : Bool)
    (t : TestCase) (slaves : List Node) (total r : ℕ) (db : Db)
    → (record_run env param user queue_id ignore t slaves total db).0 ≡ ok r
    → let after = (record_run env param user queue_id ignore t slaves total db).1 in
      (r ≡ db.next_report_id)
      × (after.reports
          ≡ db.reports ++ new_report r env t param user total (max 1 (length slaves)) ∷ [])
      × (after.leases ≡ db.leases)
      × (after.next_lease_id ≡ db.next_lease_id)
unfolding record_run bind_execution_queue_report
record_run-returns env param user none ignore t slaves total r db h = ground (arith, h)
record_run-returns env param user (some k) ignore t slaves total r db h = ground (arith, h)

take_leases-returns :
    (env : Env) (param : RunParam) (user : UserContext) (queue_id : Option ℕ) (t r : ℕ)
    (slaves : List Node) (db : Db) (u : Unit {0})
    → (take_leases env param user queue_id t r slaves db).0 ≡ ok u
    → let after = (take_leases env param user queue_id t r slaves db).1 in
      (after.reports ≡ db.reports)
      × (after.leases
          ≡ db.leases ++ new_leases db.next_lease_id r t slaves (strip param.region) env.now)
unfolding take_leases after_leasing lease_nodes
take_leases-returns env param user queue_id t r [] db u h = (refl, sym (append-nil db.leases))
take_leases-returns env param user queue_id t r (n ∷ slaves) db u h = ground (arith, h)

launch_run-returns :
    (env : Env) (user : UserContext) (queue_id : Option ℕ) (t r : ℕ) (db : Db) (u : Unit {0})
    → (launch_run env user queue_id t r db).0 ≡ ok u
    → (launch_run env user queue_id t r db).1 ≡ db
unfolding launch_run
launch_run-returns env user queue_id t r db u h = ground arith

-- A step whose sequel returned has returned itself.
bind-returns :
    {A B : Type 0} (m : Action A) (f : A → Action B) (db : Db) (b : B)
    → ((m >>= f) db).0 ≡ ok b
    → (a : A) × ((m db).0 ≡ ok a)
      × ((f a (m db).1).0 ≡ ok b)
      × (((m >>= f) db).1 ≡ (f a (m db).1).1)
bind-returns m f db b h = elim (Result-cases (m db).0) [
  | inl (a, e) ↦ (a, e, ground (arith, e, h), ground (arith, e))
  | inr (x, e) ↦ absurd (ground (arith, e, h))
]

module _ (env : Env) (param : RunParam) (user : UserContext) (queue_id : Option ℕ) (ignore : Bool)
    (request : Request) (slaves : List Node) where
  -- The stages once the files of the run are written.
  abbrev recorded : ℕ → Action ℕ
  recorded total =
      record_run env param user queue_id ignore request.testcase slaves total >>= λ report_id.
      (take_leases env param user queue_id request.testcase.id report_id slaves
        >> (launch_run env user queue_id request.testcase.id report_id >> pure report_id))

  recorded-returns :
      (total r : ℕ) (db : Db)
      → (recorded total db).0 ≡ ok r
      → IsStarted env param user request slaves total r db (recorded total db).1
  recorded-returns total r db h =
      let t = request.testcase in
      let (k, k_ok, h1, e1) =
        bind-returns (record_run env param user queue_id ignore t slaves total) _ db r h in
      let first = (record_run env param user queue_id ignore t slaves total db).1 in
      let (u, u_ok, h2, e2) =
        bind-returns (take_leases env param user queue_id t.id k slaves) _ first r h1 in
      let second = (take_leases env param user queue_id t.id k slaves first).1 in
      let (v, v_ok, h3, e3) = bind-returns (launch_run env user queue_id t.id k) _ second r h2 in
      let same : k ≡ r = ground (arith, h3) in
      let (key, reports, leases, next) =
        record_run-returns env param user queue_id ignore t slaves total k db k_ok in
      let (reports', leases') =
        take_leases-returns env param user queue_id t.id k slaves first u u_ok in
      let launched = launch_run-returns env user queue_id t.id k second v v_ok in
      rw (← same) (
        key,
        ap (λ d. d.reports) (e1 ∙ e2 ∙ e3 ∙ launched) ∙ reports' ∙ reports,
        ap (λ d. d.leases) (e1 ∙ e2 ∙ e3 ∙ launched) ∙ leases' ∙ rw (leases, next) refl,
      )

  -- A start that returns a report's key has added that report, running, and a lease for each node of
  -- the run, and changed no other report and no other lease.
  pub start_run-returns :
      (r : ℕ) (db : Db)
      → (start_run env param user queue_id ignore request slaves db).0 ≡ ok r
      → (total_threads : ℕ) × IsStarted env param user request slaves total_threads r db
          (start_run env param user queue_id ignore request slaves db).1
  unfolding start_run
  start_run-returns r db h =
      let (total, prepared, h1, e1) =
        bind-returns (prepare_run env param request slaves) _ db r h in
      let read = prepare_run-reads env param request slaves db in
      (
        total,
        subst (IsStarted env param user request slaves total r db)
            (sym (e1 ∙ ap (λ d. (recorded total d).1) read))
            (recorded-returns total r db (subst (λ d. (recorded total d).0 ≡ ok r) read h1)),
      )

failed_rows :
    (r : ℕ) (message : Text) (rs : List Report)
    → All
        (λ x. (x.id == r) ≡ true → x.status ≡ TestCaseStatus.run_failed)
        (update_where (λ x. x.id == r) (failed_report message) rs)
failed_rows r message [] = tt
failed_rows r message (x ∷ rs) = ((λ h. ground arith), failed_rows r message rs)

-- The tables as they stand once the start has been marked as failed, before the leases are released.
start_failed-tables :
    (env : Env) (t r k : ℕ) (message : Text) (user : UserContext) (db : Db)
    → let after = mark_run_start_failed env t r (some k) message user db in
      All (λ x. (x.id == r) ≡ true → x.status ≡ TestCaseStatus.run_failed) after.reports
      × (get_by_report_id r after ≡ Option.map (stop_queue message env.now) (get_by_report_id r db))
unfolding mark_run_start_failed get_by_report_id
start_failed-tables env t r k message user db =
    let reported =
      set_report r (failed_report message)
        (set_testcase t (stamped_status TestCaseStatus.run_failed user env.now) db) in
    (
      subst (All (λ x. (x.id == r) ≡ true → x.status ≡ TestCaseStatus.run_failed))
          (sym (stopped_queue-tables r message env.now reported).0)
          (failed_rows r message db.reports),
      stopped-bound r message env.now reported (get_by_report_id r db) refl,
    )

release-keeps :
    (r : ℕ) (message : Text) (status : LeaseStatus) (now : ℕ) (db : Db)
    → let after = (release_by_report r message status now db).1 in
      (after.reports ≡ db.reports) × (get_by_report_id r after ≡ get_by_report_id r db)
unfolding get_by_report_id
release-keeps r message status now db =
    let (reports, _, queues) = release-tables r message status now db in
    (reports, ap (find (λ q. q.report_id == r)) queues)

launch_failed :
    (env : Env) (user : UserContext) (queue_id : Option ℕ) (t r : ℕ) (e : Error) (db : Db)
    → env.launch r ≡ err e
    → launch_run env user queue_id t r db ≡ (
      err e,
      (release_by_report r msg_launch_released LeaseStatus.released env.now
          (mark_run_start_failed env t r queue_id msg_launch_failed user db)).1,
    )
unfolding launch_run
launch_failed env user queue_id t r e db h = ground (arith, h)

-- When the launch of the JMeter process of a queued run raises, the exception comes out of the
-- start, the report is failed, none of its leases stays active, and the entry that is bound to the
-- report, if there is one, ends failed.
pub launch_run-fails :
    (env : Env) (user : UserContext) (k t r : ℕ) (e : Error) (db : Db)
    → env.launch r ≡ err e
    → let (result, after) = launch_run env user (some k) t r db in
      (result ≡ err e)
      × All (λ x. (x.id == r) ≡ true → x.status ≡ TestCaseStatus.run_failed) after.reports
      × (held_by r after.leases ≡ 0)
      × (get_by_report_id r after
          ≡ Option.map (stop_queue msg_launch_failed env.now) (get_by_report_id r db))
launch_run-fails env user k t r e db h =
    let failed = mark_run_start_failed env t r (some k) msg_launch_failed user db in
    let (rows, bound) = start_failed-tables env t r k msg_launch_failed user db in
    let (reports, queue) =
      release-keeps r msg_launch_released LeaseStatus.released env.now failed in
    rw (launch_failed env user (some k) t r e db h) (
      refl,
      subst (All (λ x. (x.id == r) ≡ true → x.status ≡ TestCaseStatus.run_failed)) (sym reports)
          rows,
      (release_by_report_lem r (suc r) msg_launch_released LeaseStatus.released env.now failed
          (λ e. cc) (λ e. omega (arith, e))).1,
      queue ∙ bound,
    )

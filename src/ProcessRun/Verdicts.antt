-- ===== src/ProcessRun/Verdicts.antt =====
-- The end of a JMeter process on the tables (`_run_and_callback`,
-- api/app/services/jmeter_runner.py).
use pressure_platform.Prelude.{
  ℕ, zero, suc, ◌≡◌, refl, true, false, Option, none, some, List, arith, ◌==◌, inl, inr, ==_refl,
  ◌++◌, ◌∷◌, [], Bool-cases, Option-cases, find, find-update_found, Bool,
}
use pressure_platform.Prelude.Text.{Text}
use pressure_platform.Prelude.Int.{ℤ, pos, negsuc}
use pressure_platform.Store.{Db, Report, TestCaseStatus, LeaseStatus, get_report, is_run_ing}
use pressure_platform.ExecutionNode.Release.{held_by, release_by_report_lem}
use pressure_platform.ExecutionQueue.{sync_report_status}
use pressure_platform.RunEnd.{update_testcase_and_report, called_back}
use pressure_platform.RunEnd.Stops.{release-tables}
use pressure_platform.ProcessRun.{
  RunStatus, ExecutionRun, RunnerDb, Launch, is_active_run, is_stopping, is_of_report, get_run,
  prepared, create_execution_run, mark_execution_run_running, started, finished,
  mark_execution_run_finished,
}
use pressure_platform.ProcessRun.Ends.{
  ProcessOutput, ProcessEnd, raised, exited, Course, ran, run_process, not_started, verdict,
  run_verdict, settle, end_of_process,
}

sync-reports :
    (r : ℕ) (status : TestCaseStatus) (now : ℕ) (db : Db)
    → (sync_report_status r status now db).reports ≡ db.reports
unfolding sync_report_status
sync-reports r status now db = ground arith

-- A report that a callback leaves is not running, if the callback's status is not.
callback-ends :
    (t r : ℕ) (status : TestCaseStatus) (reply : Option Text) (now : ℕ) (db : Db) (rep : Report)
    → is_run_ing status ≡ false
    → get_report r (update_testcase_and_report t r status reply now db) ≡ some rep
    → is_run_ing rep.status ≡ false
unfolding update_testcase_and_report
callback-ends t r status reply now db rep ended h = elim (Option-cases (get_report r db)) [
  | inl e ↦ absurd (ground (arith, rw (update_testcase_and_report, e) at h, e))
  | inr (old, e) ↦ elim (Bool-cases (is_run_ing old.status)) [
    | inr b ↦
        let same : old ≡ rep = ground (arith, rw (update_testcase_and_report, e, b) at h, e) in
        rw (← same) b
    | inl b ↦
        let written =
          find-update_found (λ x. x.id == r) (called_back status reply now) db.reports old
            (λ x. refl) e in
        let same : called_back status reply now old ≡ rep = ground (
          arith,
          rw (update_testcase_and_report, e, b, sync-reports r status now _) at h,
          written,
        ) in
        rw (← same) ended
  ]
]

verdict-ends :
    (launch : Launch) (exit_code : ℤ) (out : ProcessOutput)
    → is_run_ing (verdict launch exit_code out).0 ≡ false
unfolding verdict
verdict-ends launch (negsuc n) out = refl
verdict-ends launch (pos zero) out = ground arith
verdict-ends launch (pos (suc n)) out = ground arith

-- The status of a row that has ended.
abbrev IsEnded : RunStatus → Type 0
IsEnded status = is_active_run status ≡ false

run_verdict-IsEnded :
    (status : TestCaseStatus) (found : Option ExecutionRun) → IsEnded (run_verdict status found).0
unfolding run_verdict
run_verdict-IsEnded status none = ground arith
run_verdict-IsEnded status (some run) = ground arith

run_verdict-stopping :
    (status : TestCaseStatus) (run : ExecutionRun)
    → is_stopping run.status ≡ true
    → (run_verdict status (some run)).0 ≡ RunStatus.failed
unfolding run_verdict
run_verdict-stopping status run h = rw h refl

-- What the end of a process leaves for a report with a run.
pub record IsSettled (r now : ℕ) (was : ExecutionRun) (after : RunnerDb) : Type 0 where
  pub run : ExecutionRun
  pub found : get_run r after ≡ some run
  pub ended : is_active_run run.status ≡ false
  pub finished : run.finished_at ≡ some now
  pub stopped : is_stopping was.status ≡ true → run.status ≡ RunStatus.failed
  pub leases : held_by r after.db.leases ≡ 0
  pub report : (rep : Report) → get_report r after.db ≡ some rep → is_run_ing rep.status ≡ false

settle-IsSettled :
    (r : ℕ) (status : RunStatus) (exit_code : ℤ) (message : Text) (now : ℕ) (s : RunnerDb)
    (was : ExecutionRun)
    → get_run r s ≡ some was
    → IsEnded status
    → (is_stopping was.status ≡ true → status ≡ RunStatus.failed)
    → ((rep : Report) → get_report r s.db ≡ some rep → is_run_ing rep.status ≡ false)
    → IsSettled r now was (settle r status exit_code message now s)
unfolding settle mark_execution_run_finished
settle-IsSettled r status exit_code message now s was found ended stopped reported =
    let (reports, _, _) = release-tables r message LeaseStatus.released now s.db in
    let (_, given_back, _) =
      release_by_report_lem r (suc r) message LeaseStatus.released now s.db (λ e. cc)
        (λ e. omega arith) in
    record {
      run = finished status exit_code message now was;
      found =
          find-update_found (is_of_report r) (finished status exit_code message now) s.runs was
            (λ x. refl) found;
      ended = ended;
      finished = refl;
      stopped = stopped;
      leases = given_back;
      report = λ rep h. reported rep (rw reports at h);
    }

-- When a process ends, by an exception or by an exit with any code and any output, the run of its
-- report, if there is one, has ended at that time, it has failed if it had been asked to stop, none
-- of the report's leases is active, and the report, if there is one, is not running.
pub end_of_process-IsSettled :
    (launch : Launch) (outcome : ProcessEnd) (now : ℕ) (s : RunnerDb) (was : ExecutionRun)
    → get_run launch.report_id s ≡ some was
    → IsSettled launch.report_id now was (end_of_process launch outcome now s)
unfolding end_of_process
end_of_process-IsSettled launch (raised exit_code) now s was found =
    settle-IsSettled launch.report_id RunStatus.failed exit_code _ now (record s { db = _ }) was
      found refl (λ h. refl)
      (λ rep.
        callback-ends launch.testcase_id launch.report_id TestCaseStatus.run_failed none now s.db
          rep refl)
end_of_process-IsSettled launch (exited exit_code out) now s was found =
    let (status, reply) = verdict launch exit_code out in
    let (run_status, message) = run_verdict status (get_run launch.report_id s) in
    settle-IsSettled launch.report_id run_status exit_code message now (record s { db = _ }) was
      found (run_verdict-IsEnded status (get_run launch.report_id s))
      (λ h. rw found (run_verdict-stopping status was h))
      (λ rep.
        callback-ends launch.testcase_id launch.report_id status reply now s.db rep
          (verdict-ends launch exit_code out))

find-append_none {ℓ} :
    {A : Type ℓ} (p : A → Bool) (xs : List A) (x : A)
    → find p xs ≡ none
    → p x ≡ true
    → find p (xs ++ (x ∷ [])) ≡ some x
find-append_none p [] x h e = rw e refl
find-append_none p (y ∷ ys) x h e = ground (arith, find-append_none p ys x)

-- A report has a run once one has been prepared for it.
abbrev pub HasRun : ℕ → RunnerDb → Type 0
HasRun r s = (run : ExecutionRun) × (get_run r s ≡ some run)

create_execution_run-HasRun :
    (launch : Launch) (now : ℕ) (s : RunnerDb)
    → HasRun launch.report_id (create_execution_run launch now s)
unfolding create_execution_run
create_execution_run-HasRun launch now s = elim (Option-cases (get_run launch.report_id s)) [
  | inl e ↦
      rw (create_execution_run, e)
        (
          _,
          find-append_none (is_of_report launch.report_id) s.runs
              (prepared s.next_run_id launch.report_id launch _ now) e (==_refl launch.report_id),
        )
  | inr (run, e) ↦
      rw (create_execution_run, e)
        (_, find-update_found (is_of_report launch.report_id) _ s.runs run (λ x. refl) e)
]

-- What other calls do while the process runs does not remove the run.
abbrev pub LeavesRun : ℕ → Course → Type 0
LeavesRun r not_started = Unit
LeavesRun r (ran pid pgid during outcome) = (s : RunnerDb) → HasRun r s → HasRun r (during s)

started-HasRun :
    (r pid pgid now : ℕ) (s : RunnerDb)
    → HasRun r s
    → HasRun r (mark_execution_run_running r pid pgid now s)
unfolding mark_execution_run_running
started-HasRun r pid pgid now s (run, e) = (
  started pid pgid now run,
  find-update_found (is_of_report r) (started pid pgid now) s.runs run (λ x. refl) e,
)

-- A process that is launched for a report comes to an end on the tables: once it has not been
-- started, has raised or has exited, the report's run has ended at that time, none of the report's
-- leases is active, and the report, if there is one, is not running, whatever other calls do while
-- the process runs, as long as they do not remove the run.
pub run_process-IsSettled :
    (launch : Launch) (course : Course) (start_time end_time : ℕ) (s : RunnerDb)
    → LeavesRun launch.report_id course
    → (was : ExecutionRun) × IsSettled launch.report_id end_time was
        (run_process launch course start_time end_time s)
unfolding run_process
run_process-IsSettled launch not_started start_time end_time s leaves =
    let (was, found) = create_execution_run-HasRun launch start_time s in
    (
      was,
      end_of_process-IsSettled launch (raised (negsuc 0)) end_time
          (create_execution_run launch start_time s) was found,
    )
run_process-IsSettled launch (ran pid pgid during outcome) start_time end_time s leaves =
    let begun =
      mark_execution_run_running launch.report_id pid pgid start_time
        (create_execution_run launch start_time s) in
    let (was, found) = leaves begun (
      started-HasRun launch.report_id pid pgid start_time (create_execution_run launch start_time s)
        (create_execution_run-HasRun launch start_time s)) in
    (was, end_of_process-IsSettled launch outcome end_time (during begun) was found)

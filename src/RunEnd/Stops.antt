-- ===== src/RunEnd/Stops.antt =====
-- What a stop leaves behind, and what a late callback can no longer change
-- (api/app/services/testcase.py, api/app/services/jmeter_runner.py).
use pressure_platform.Prelude.{
  ℕ, ap, ◌∙◌, find-update_where, find-holds, find-update_found, ◌≡◌, refl, inl, inr, true, false,
  Option, none, some, ◌++◌, arith, suc, ◌==◌, find, Option-cases,
}
use mathlib.Core.Option
use pressure_platform.Prelude.Text.{Text}
use pressure_platform.Store.{
  Db, Report, ExecutionQueue, LeaseStatus, TestCaseStatus, ok, get_report, is_run_ing,
}
use pressure_platform.ExecutionNode.{release_by_report}
use pressure_platform.ExecutionNode.Release.{held_by, release_by_report_lem}
use pressure_platform.ExecutionQueue.{get_by_report_id, stop_queue, mark_execution_queue_stopped}
use pressure_platform.RunEnd.{
  StopEnv, stop_report, stop_execution, mark_report_stopped, update_testcase_and_report, end_report,
  msg_stopped, msg_stopped_released,
}

pub release-tables :
    (r : ℕ) (message : Text) (status : LeaseStatus) (now : ℕ) (db : Db)
    → let after = (release_by_report r message status now db).1 in
      (after.reports ≡ db.reports) × (after.testcases ≡ db.testcases) × (after.queues ≡ db.queues)
unfolding release_by_report
release-tables r message status now db = ground arith

pub stopped_queue-tables :
    (r : ℕ) (message : Text) (now : ℕ) (db : Db)
    → let after = mark_execution_queue_stopped r message now db in
      (after.reports ≡ db.reports) × (after.leases ≡ db.leases)
unfolding mark_execution_queue_stopped
stopped_queue-tables r message now db = ground arith

pub stopped-bound :
    (r : ℕ) (message : Text) (now : ℕ) (db : Db) (bound : Option ExecutionQueue)
    → get_by_report_id r db ≡ bound
    → get_by_report_id r (mark_execution_queue_stopped r message now db)
      ≡ Option.map (stop_queue message now) bound
unfolding mark_execution_queue_stopped get_by_report_id
stopped-bound r message now db none e = ground (arith, e)
stopped-bound r message now db (some q) e = ground (
  arith,
  e,
  find-update_where (λ x. x.report_id == r) (λ x. x.id == q.id) (stop_queue message now) db.queues
      (λ x. refl),
)

module _ (env : StopEnv) (report : Report) (db : Db) where
  abbrev released : Db
  released = (release_by_report report.id msg_stopped_released LeaseStatus.released env.now db).1

  abbrev marked : Db
  marked =
      mark_report_stopped report.test_case_id report (env.launch_stop report.id)
        (env.stop_remote report) released

  marked-tables : (marked.queues ≡ released.queues) × (marked.leases ≡ released.leases)
  unfolding mark_report_stopped
  marked-tables = (refl, refl)

  marked-report :
      get_report report.id db ≡ some report
      → (response : Text) × (get_report report.id marked ≡ some (end_report response report))
  unfolding mark_report_stopped
  marked-report found = (
    _,
    find-update_found (λ r. r.id == report.id) (end_report _) released.reports report (λ x. refl)
        (rw (release-tables report.id msg_stopped_released LeaseStatus.released env.now db).0
          found),
  )

  -- Stopping a report that is in the table: the report is failed, none of its leases is active, and
  -- the entry of the queue that is bound to it, if there is one, ends failed with the stop's message.
  pub stop_report_lem :
      get_report report.id db ≡ some report
      → let after = stop_report env report db in
        ((response : Text) × (get_report report.id after ≡ some (end_report response report)))
        × (held_by report.id after.leases ≡ 0)
        × (get_by_report_id report.id after
            ≡ Option.map
                (stop_queue (msg_stopped ++ env.stop_remote report) env.now)
                (get_by_report_id report.id db))
  unfolding stop_report get_by_report_id
  stop_report_lem found =
      let message = msg_stopped ++ env.stop_remote report in
      let (reports, leases) = stopped_queue-tables report.id message env.now marked in
      let (_, _, queues) =
        release-tables report.id msg_stopped_released LeaseStatus.released env.now db in
      (
        ((marked-report found).0, rw reports (marked-report found).1),
        rw (leases, marked-tables.1)
            (release_by_report_lem report.id (suc report.id) msg_stopped_released
              LeaseStatus.released env.now db (λ e. cc) (λ e. omega (arith, e))).1,
        stopped-bound report.id message env.now marked (get_by_report_id report.id db)
            (ap (find (λ q. q.report_id == report.id)) (marked-tables.0 ∙ queues)),
      )

pub callback-ended :
    (t r : ℕ) (status : TestCaseStatus) (reply : Option Text) (now : ℕ) (report : Report) (db : Db)
    → get_report r db ≡ some report
    → is_run_ing report.status ≡ false
    → update_testcase_and_report t r status reply now db ≡ db
unfolding update_testcase_and_report
callback-ended t r status reply now report db found ended = ground (arith, found, ended)

stop_execution-found :
    (env : StopEnv) (r : ℕ) (db : Db)
    → (stop_execution env r db).0 ≡ ok true
    → (report : Report) × (get_report r db ≡ some report)
      × ((stop_execution env r db).1 ≡ stop_report env report db)
unfolding stop_execution
stop_execution-found env r db h = elim (Option-cases (get_report r db)) [
  | inl e ↦ absurd (ground (arith, e, h))
  | inr (report, e) ↦ (report, e, ground (arith, e, h))
]

pub id-of_found :
    (r : ℕ) (report : Report) (db : Db) → get_report r db ≡ some report → report.id ≡ r
id-of_found r report db found = ground (arith, find-holds (λ x. x.id == r) db.reports report found)

late_callback :
    (env : StopEnv) (t : ℕ) (status : TestCaseStatus) (reply : Option Text) (now : ℕ)
    (report : Report) (db : Db)
    → get_report report.id db ≡ some report
    → update_testcase_and_report t report.id status reply now (stop_report env report db)
      ≡ stop_report env report db
late_callback env t status reply now report db found =
    let (response, ended) = (stop_report_lem env report db found).0 in
    callback-ended t report.id status reply now (end_report response report)
      (stop_report env report db) ended refl

-- A callback that comes in for a report after a user has stopped it changes nothing: neither the
-- test case, nor the report, nor the entry of the queue.
pub update_testcase_and_report-stop_execution :
    (env : StopEnv) (t r : ℕ) (status : TestCaseStatus) (reply : Option Text) (now : ℕ) (db : Db)
    → (stop_execution env r db).0 ≡ ok true
    → update_testcase_and_report t r status reply now (stop_execution env r db).1
      ≡ (stop_execution env r db).1
update_testcase_and_report-stop_execution env t r status reply now db h =
    let (report, found, after) = stop_execution-found env r db h in
    let same = id-of_found r report db found in
    rw (after, ← same) (late_callback env t status reply now report db (rw same found))

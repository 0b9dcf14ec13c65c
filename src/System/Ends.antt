-- ===== src/System/Ends.antt =====
-- The ends of runs under the invariant of the tables (api/app/services/testcase.py,
-- api/app/services/timeout_scanner.py, api/app/services/jmeter_runner.py, api/app/main.py).
use pressure_platform.Prelude.{
  ℕ, ◌≡◌, refl, inl, inr, true, Option, List, [], ◌∷◌, arith, ◌==◌, Bool-cases, Option-cases,
  count_where-update_le, count_where-update_eq,
}
use pressure_platform.Prelude.Text.{Text}
use pressure_platform.Store.{
  Db, ExecutionQueue, Report, TestCase, TestCaseStatus, LeaseStatus, Keeps, get_testcase,
  get_report, is_run_ing, set_testcase, set_report,
}
use pressure_platform.ExecutionNode.{release_by_report}
use pressure_platform.ExecutionQueue.{is_started, is_active_for, with_status, sync_report_status}
use pressure_platform.ExecutionQueue.Single.{IsValid, fresh-update}
use pressure_platform.RunEnd.{
  StopEnv, stop_report, stop_reports, stop_running, stop_testcase, stop_execution,
  mark_report_stopped, is_overdue, joined, running_reports, running_reports_of, time_out,
  time_out_rows, scan_and_timeout, update_testcase_and_report, called_back, restart_queue, end_all,
  recover_stuck_tasks, msg_stopped_released, msg_timeout_released, msg_lease_restarted,
}
use pressure_platform.System.Sound.{IsSound, IsSound-of_tables, IsSound-of_queue}
use pressure_platform.System.Leases.{release_by_report-IsSound, mark_active_lost-IsSound}
use pressure_platform.System.Starts.{
  same-IsSound, stopped-IsSound, set_testcase-IsSound, set_report-IsSound,
}
use pressure_platform.System.Steps.{sync-IsSound}

stop_report-IsSound :
    (env : StopEnv) (report : Report) (db : Db) → IsSound db → IsSound (stop_report env report db)
unfolding stop_report mark_report_stopped
stop_report-IsSound env report db s =
    let released =
      (release_by_report report.id msg_stopped_released LeaseStatus.released env.now db).1 in
    let marked =
      mark_report_stopped report.test_case_id report (env.launch_stop report.id)
        (env.stop_remote report) released in
    stopped-IsSound report.id _ env.now marked (
      IsSound-of_tables released marked refl refl refl refl (
        release_by_report-IsSound report.id msg_stopped_released LeaseStatus.released env.now
          (λ e. cc) db s))

stop_reports-IsSound :
    (env : StopEnv) (reports : List Report) (db : Db)
    → IsSound db
    → IsSound (stop_reports env reports db)
unfolding stop_reports
stop_reports-IsSound env [] db s = s
stop_reports-IsSound env (r ∷ reports) db s =
    stop_reports-IsSound env reports (stop_report env r db) (stop_report-IsSound env r db s)

stop_running-IsSound :
    (env : StopEnv) (id : ℕ) (reports : List Report) (db : Db)
    → IsSound db
    → IsSound (stop_running env id reports db)
stop_running-IsSound env id [] db s = set_testcase-IsSound id _ db s
stop_running-IsSound env id (r ∷ reports) db s = stop_reports-IsSound env (r ∷ reports) db s

pub stop_testcase-IsSound : (env : StopEnv) (id : ℕ) → Keeps IsSound (stop_testcase env id)
unfolding stop_testcase
stop_testcase-IsSound env id db s = elim (Option-cases (get_testcase id db)) [
  | inl e ↦ same-IsSound (ground (arith, e)) s
  | inr (t, e) ↦ elim (Bool-cases (is_run_ing t.status)) [
    | inl b ↦
        same-IsSound (ground (arith, e, b))
          (stop_running-IsSound env id (running_reports_of id db) db s)
    | inr b ↦ same-IsSound (ground (arith, e, b)) s
  ]
]

pub stop_execution-IsSound : (env : StopEnv) (id : ℕ) → Keeps IsSound (stop_execution env id)
unfolding stop_execution
stop_execution-IsSound env id db s = elim (Option-cases (get_report id db)) [
  | inl e ↦ same-IsSound (ground (arith, e)) s
  | inr (r, e) ↦ elim (Bool-cases (is_run_ing r.status)) [
    | inl b ↦ same-IsSound (ground (arith, e, b)) (stop_report-IsSound env r db s)
    | inr b ↦ same-IsSound (ground (arith, e, b)) s
  ]
]

time_out-IsSound :
    (now : ℕ) (r : Report) (t : TestCase) (db : Db) → IsSound db → IsSound (time_out now r t db)
unfolding time_out
time_out-IsSound now r t db s =
    release_by_report-IsSound r.id msg_timeout_released LeaseStatus.released now (λ e. cc) _
      (set_report-IsSound r.id _ _ (set_testcase-IsSound t.id _ db s))

time_out_rows-IsSound :
    (now : ℕ) (rows : List (Report × TestCase)) (db : Db)
    → IsSound db
    → IsSound (time_out_rows now rows db).1
unfolding time_out_rows
time_out_rows-IsSound now [] db s = s
time_out_rows-IsSound now ((r, t) ∷ rows) db s = elim (Bool-cases (is_overdue now r t)) [
  | inl e ↦
      rw e (time_out_rows-IsSound now rows (time_out now r t db) (time_out-IsSound now r t db s))
  | inr e ↦ rw e (time_out_rows-IsSound now rows db s)
]

pub scan_and_timeout-IsSound :
    (now : ℕ) (db : Db) → IsSound db → IsSound (scan_and_timeout now db).1
unfolding scan_and_timeout
scan_and_timeout-IsSound now db = time_out_rows-IsSound now (joined (running_reports db) db) db

pub callback-IsSound :
    (t r : ℕ) (status : TestCaseStatus) (reply : Option Text) (now : ℕ) (db : Db)
    → IsSound db
    → IsSound (update_testcase_and_report t r status reply now db)
unfolding update_testcase_and_report
callback-IsSound t r status reply now db s =
    let reported = set_testcase t (with_status status) db in
    let sound = set_testcase-IsSound t (with_status status) db s in
    elim (Option-cases (get_report r db)) [
      | inl e ↦ same-IsSound (ground (arith, e)) sound
      | inr (report, e) ↦ elim (Bool-cases (is_run_ing report.status)) [
        | inr b ↦ same-IsSound (ground (arith, e, b)) s
        | inl b ↦
            let written = set_report r (called_back status reply now) reported in
            same-IsSound {db = sync_report_status r status now written} (ground (arith, e, b)) (
              sync-IsSound r status now written
                (set_report-IsSound r (called_back status reply now) reported sound))
      ]
    ]

restart_idle :
    (t : ℕ) (region : Text) (q : ExecutionQueue)
    → is_active_for t region (restart_queue q) ≡ true
    → is_active_for t region q ≡ true
restart_idle t region q h = ground arith

end_all-IsValid : (db : Db) → IsValid db → IsValid (end_all db)
end_all-IsValid db v = record {
  keys = λ k. omega (
    arith,
    v.keys k,
    count_where-update_eq (λ q. is_started q.status) (λ q. q.id == k) restart_queue db.queues
        (λ q. refl),
  );
  fresh =
      fresh-update (λ q. is_started q.status) restart_queue db.next_queue_id db.queues (λ q. refl)
        v.fresh;
  single = λ t r. omega (
    arith,
    v.single t r,
    count_where-update_le (λ q. is_started q.status) (is_active_for t r) restart_queue db.queues
        (restart_idle t r),
  );
}

pub recover_stuck_tasks-IsSound :
    (now : ℕ) (db : Db) → IsSound db → IsSound (recover_stuck_tasks now db)
unfolding recover_stuck_tasks
recover_stuck_tasks-IsSound now db s =
    mark_active_lost-IsSound msg_lease_restarted now (end_all db)
      (IsSound-of_queue db (end_all db) refl refl s (end_all-IsValid db s.queue))

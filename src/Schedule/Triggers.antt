-- ===== src/Schedule/Triggers.antt =====
-- What the runs of scheduled tasks keep (api/app/services/scheduled_task.py).
use pressure_platform.Prelude.{
  ℕ, true, Bool, Option, none, some, List, [], ◌∷◌, inl, inr, Bool-cases, Option-cases,
}
use pressure_platform.Prelude.Text.{Text}
use pressure_platform.Store.{
  Db, UserContext, Result, ok, err, Result-cases, get_testcase, TestCase, is_run_ing,
}
use pressure_platform.Calendar.{DateTime}
use pressure_platform.System.Sound.{IsSound}
use pressure_platform.System.Steps.{run_testcase-IsSound}
use pressure_platform.Schedule.{ScheduledTask, ScheduleDb, get_task}
use pressure_platform.Schedule.Runs.{
  RunClock, SlaveContext, Attempt, advanced_next_run, add_execution_log, finish_attempt,
  refuse_manual, after_manual_run, trigger_task, trigger_now, lacks_region, lacks_slaves,
  build_slave_context, attempt_run, scheduler_user, execute_scheduled, execute_all, resume_round,
}
use pressure_platform.Schedule.Requests.{IsScheduled, set_task-IsScheduled}

log-IsScheduled :
    (task : ScheduledTask) (kind : Text) (attempt : Attempt) (wall : DateTime)
    (next : Option DateTime) (s : ScheduleDb)
    → IsScheduled s
    → IsScheduled (add_execution_log task kind attempt wall next s)
unfolding add_execution_log
log-IsScheduled task kind attempt wall next s v = record { tasks = v.tasks; db = v.db }

finish-IsScheduled {ℓ} :
    {A : Type ℓ} (value : A) (wall : DateTime) (task : ScheduledTask) (kind : Text)
    (attempt : Attempt) (s : ScheduleDb)
    → IsScheduled s
    → IsScheduled (finish_attempt value wall task kind attempt s).1
unfolding finish_attempt
finish-IsScheduled value wall task kind attempt s v =
    elim (Result-cases (advanced_next_run wall task)) [
      | inr (x, e) ↦ rw (finish_attempt, e) v
      | inl (next, e) ↦
          rw (finish_attempt, e)
            (log-IsScheduled task kind attempt wall next _
              (set_task-IsScheduled task.id _ s (λ u h. h) v))
    ]

manual-IsScheduled :
    (wall : DateTime) (task : ScheduledTask) (c : SlaveContext) (r : Result Bool) (s : ScheduleDb)
    → IsScheduled s
    → IsScheduled (after_manual_run wall task c r s).1
unfolding after_manual_run refuse_manual
manual-IsScheduled wall task c (ok b) s v = finish-IsScheduled true wall task _ _ s v
manual-IsScheduled wall task c (err e) s v = log-IsScheduled task _ _ wall _ s v

trigger_task-IsScheduled :
    (clock : RunClock) (task : ScheduledTask) (user : UserContext) (s : ScheduleDb)
    → IsScheduled s
    → IsScheduled (trigger_task clock task user s).1
unfolding trigger_task refuse_manual
trigger_task-IsScheduled clock task user s v =
    let c = build_slave_context task s.db in
    elim (Bool-cases (lacks_region c)) [
      | inl e ↦ rw e (log-IsScheduled task _ _ clock.wall _ s v)
      | inr e ↦ rw e (elim (Bool-cases (lacks_slaves c)) [
        | inl f ↦ rw f (log-IsScheduled task _ _ clock.wall _ s v)
        | inr f ↦ rw f (
            manual-IsScheduled clock.wall task c _ _ (record {
              tasks = v.tasks;
              db = run_testcase-IsSound clock.env task.test_case_id task.run_param user s.db v.db;
            }))
      ])
    ]

pub trigger-IsScheduled :
    (clock : RunClock) (id : ℕ) (user : UserContext) (s : ScheduleDb)
    → IsScheduled s
    → IsScheduled (trigger_now clock id user s).1
unfolding trigger_now
trigger-IsScheduled clock id user s v = elim (Option-cases (get_task id s)) [
  | inl f ↦ rw (trigger_now, f) v
  | inr (t, f) ↦ rw (trigger_now, f) (trigger_task-IsScheduled clock t user s v)
]

attempt_run-IsSound :
    (clock : RunClock) (task : ScheduledTask) (tc : Option TestCase) (db : Db)
    → IsSound db
    → IsSound (attempt_run clock task tc db).1
unfolding attempt_run
attempt_run-IsSound clock task none db h = h
attempt_run-IsSound clock task (some tc) db h =
    let c = build_slave_context task db in
    elim (Bool-cases (is_run_ing tc.status)) [
      | inl e ↦ rw e h
      | inr e ↦ rw e (elim (Bool-cases (lacks_region c)) [
        | inl f ↦ rw f h
        | inr f ↦ rw f (elim (Bool-cases (lacks_slaves c)) [
          | inl g ↦ rw g h
          | inr g ↦ rw g (
              run_testcase-IsSound clock.env task.test_case_id task.run_param (scheduler_user task)
                db h)
        ])
      ])
    ]

execute-IsScheduled :
    (clock : RunClock) (task : ScheduledTask) (s : ScheduleDb)
    → IsScheduled s
    → IsScheduled (execute_scheduled clock task s).1
unfolding execute_scheduled
execute-IsScheduled clock task s v = finish-IsScheduled (tt {0}) clock.wall task _ _ _ (record {
  tasks = v.tasks;
  db = attempt_run-IsSound clock task (get_testcase task.test_case_id s.db) s.db v.db;
})

resume-IsScheduled :
    (p : Result (Unit {0}) × ScheduleDb) (rest : ScheduleDb → Result (Unit {0}) × ScheduleDb)
    → IsScheduled p.1
    → ((s : ScheduleDb) → IsScheduled s → IsScheduled (rest s).1)
    → IsScheduled (resume_round p rest).1
resume-IsScheduled (ok u, s) rest v h = h s v
resume-IsScheduled (err e, s) rest v h = v

pub execute_all-IsScheduled :
    (clock : RunClock) (tasks : List ScheduledTask) (s : ScheduleDb)
    → IsScheduled s
    → IsScheduled (execute_all clock tasks s).1
unfolding execute_all
execute_all-IsScheduled clock [] s v = v
execute_all-IsScheduled clock (task ∷ tasks) s v =
    resume-IsScheduled (execute_scheduled clock task s) (execute_all clock tasks)
      (execute-IsScheduled clock task s v) (execute_all-IsScheduled clock tasks)

-- ===== src/Schedule/Rounds.antt =====
-- Rounds of the scheduler's loop (`_scheduler_loop`, `_execute_scheduled`, `_trigger_next_run` of
-- api/app/services/scheduled_task.py).
use pressure_platform.Prelude.{
  ◌+◌, ◌≡◌, refl, ◌∙◌, true, false, Option, none, some, List, [], ◌∷◌, ◌++◌, arith, ◌==◌, inl, inr,
  Bool-cases, All, All-map, any, keep, update_where, length, any-sort_by, All-sort_by,
  length-sort_by, length-append, length-keep, count_where, All-keep,
}
use pressure_platform.Prelude.Text.{Text, codes, text_eq}
use pressure_platform.Store.{Result, ok, err}
use pressure_platform.Calendar.{DateTime, IsDate, before}
use pressure_platform.Schedule.{ScheduledTask, ScheduleDb, is_due, runs_before, get_due_tasks}
use pressure_platform.Schedule.Runs.{
  RunClock, Attempt, advanced_next_run, advanced_task, add_execution_log, finish_attempt,
  execute_scheduled, execute_all, resume_round, scheduler_round,
}
use pressure_platform.NextRun.Future.{compute_next_run-later}
use pressure_platform.NextRun.Computable.{Returns, Computes}

length-snoc {ℓ} : {A : Type ℓ} (xs : List A) (a : A) → length (xs ++ (a ∷ [])) ≡ length xs + 1
length-snoc xs a = length-append xs (a ∷ [])

-- The schedule of a task can be computed on any date.
abbrev pub IsComputable : ScheduledTask → Type 0
IsComputable t = Computes t.schedule_type t.schedule_data

advanced_next_run-Returns :
    (wall : DateTime) (t : ScheduledTask)
    → IsDate wall.date
    → IsComputable t
    → Returns (advanced_next_run wall t)
unfolding advanced_next_run
advanced_next_run-Returns wall t v c = elim (Bool-cases (text_eq t.schedule_type (codes "once"))) [
  | inl e ↦ rw e (none, refl)
  | inr e ↦ rw e (c wall v)
]

-- The next run of an advanced task, if it has one, is ahead, and then the task does not run once.
advanced_next_run-later :
    (wall at : DateTime) (t : ScheduledTask)
    → advanced_next_run wall t ≡ ok (some at)
    → before wall at ≡ true
unfolding advanced_next_run
advanced_next_run-later wall at t e = elim (Bool-cases (text_eq t.schedule_type (codes "once"))) [
  | inl f ↦ absurd (ground (arith, rw (advanced_next_run, f) at e))
  | inr f ↦
      compute_next_run-later t.schedule_type t.schedule_data wall at f
        (rw (advanced_next_run, f) at e)
]

-- Not due: without a next run, or with one ahead.
is_due-advanced :
    (wall : DateTime) (next : Option DateTime) (t u : ScheduledTask)
    → advanced_next_run wall t ≡ ok next
    → is_due wall (advanced_task wall next u) ≡ false
unfolding is_due
is_due-advanced wall none t u e = refl
is_due-advanced wall (some at) t u e = rw (advanced_next_run-later wall at t e) refl

-- Every task that is due is in a list.
abbrev Covers : DateTime → List ScheduledTask → ScheduledTask → Type 0
Covers wall waiting t = is_due wall t ≡ true → any (λ p. t.id == p.id) waiting ≡ true

Covers-advanced :
    (wall : DateTime) (next : Option DateTime) (task : ScheduledTask)
    (tasks xs : List ScheduledTask)
    → advanced_next_run wall task ≡ ok next
    → All (Covers wall (task ∷ tasks)) xs
    → All (Covers wall tasks) (update_where (λ t. t.id == task.id) (advanced_task wall next) xs)
Covers-advanced wall next task tasks [] e h = tt
Covers-advanced wall next task tasks (x ∷ xs) e h =
    let rest = Covers-advanced wall next task tasks xs e h.1 in
    let quiet = is_due-advanced wall next task x e in
    elim (Bool-cases (x.id == task.id)) [
      | inl f ↦ rw f (λ due. ground (arith, quiet), rest)
      | inr f ↦ rw f (λ due. ground (arith, h.0 due), rest)
    ]

finish_attempt-Covers :
    (wall : DateTime) (task : ScheduledTask) (kind : Text) (attempt : Attempt)
    (tasks : List ScheduledTask) (s : ScheduleDb)
    → Returns (advanced_next_run wall task)
    → All (Covers wall (task ∷ tasks)) s.tasks
    → let p = finish_attempt (tt {0}) wall task kind attempt s in
      (p.0 ≡ ok tt) × All (Covers wall tasks) p.1.tasks × (length p.1.logs ≡ length s.logs + 1)
unfolding finish_attempt add_execution_log
finish_attempt-Covers wall task kind attempt tasks s (next, e) h =
    rw (finish_attempt, e)
      (refl, Covers-advanced wall next task tasks s.tasks e h, length-snoc s.logs _)

-- What one execution leaves: the tasks that are still to come cover what is due.
execute_scheduled-Covers :
    (clock : RunClock) (task : ScheduledTask) (tasks : List ScheduledTask) (s : ScheduleDb)
    → IsDate clock.wall.date
    → IsComputable task
    → All (Covers clock.wall (task ∷ tasks)) s.tasks
    → let p = execute_scheduled clock task s in
      (p.0 ≡ ok tt)
      × All (Covers clock.wall tasks) p.1.tasks
      × (length p.1.logs ≡ length s.logs + 1)
unfolding execute_scheduled
execute_scheduled-Covers clock task tasks s v c h =
    finish_attempt-Covers clock.wall task (codes "auto") _ tasks (record s { db = _ })
      (advanced_next_run-Returns clock.wall task v c) h

resume_round-ok :
    (p : Result (Unit {0}) × ScheduleDb) (rest : ScheduleDb → Result (Unit {0}) × ScheduleDb)
    → p.0 ≡ ok tt
    → resume_round p rest ≡ rest p.1
resume_round-ok (ok _, s) rest h = refl
resume_round-ok (err e, s) rest h = ground arith

execute_all_lem :
    (clock : RunClock) (tasks : List ScheduledTask) (s : ScheduleDb)
    → IsDate clock.wall.date
    → All IsComputable tasks
    → All (Covers clock.wall tasks) s.tasks
    → ((execute_all clock tasks s).0 ≡ ok tt)
      × All (λ t. is_due clock.wall t ≡ false) (execute_all clock tasks s).1.tasks
      × (length (execute_all clock tasks s).1.logs ≡ length s.logs + length tasks)
unfolding execute_all
execute_all_lem clock [] s v c h = (
  refl,
  All-map _ _ s.tasks (λ t k. ground (arith, Bool-cases (is_due clock.wall t))) h,
  omega arith,
)
execute_all_lem clock (task ∷ tasks) s v c h =
    let (done, covers, logged) = execute_scheduled-Covers clock task tasks s v c.0 h in
    let (all, quiet, total) =
      execute_all_lem clock tasks (execute_scheduled clock task s).1 v c.1 covers in
    rw (resume_round-ok (execute_scheduled clock task s) (execute_all clock tasks) done)
      (all, quiet, omega arith)

-- The due tasks cover what is due, and so they do once they are sorted.
keep-Covers :
    (wall : DateTime) (xs : List ScheduledTask) → All (Covers wall (keep (is_due wall) xs)) xs
keep-Covers wall [] = tt
keep-Covers wall (x ∷ xs) = (
  λ due. rw due (ground arith),
  All-map _ _ xs
      (λ t k due. elim (Bool-cases (is_due wall x)) [
        | inl e ↦ ground (arith, k due)
        | inr e ↦ ground (arith, k due)
      ])
      (keep-Covers wall xs),
)

get_due_tasks-Covers :
    (wall : DateTime) (s : ScheduleDb) → All (Covers wall (get_due_tasks wall s)) s.tasks
unfolding get_due_tasks
get_due_tasks-Covers wall s =
    All-map _ _ s.tasks
      (λ t k due. any-sort_by runs_before (λ p. t.id == p.id) (keep (is_due wall) s.tasks) ∙ k due)
      (keep-Covers wall s.tasks)

-- After a round of the scheduler no task is due at its clock, the round has not raised, and it has
-- written one log for each task that was due, if the clock shows a date and the schedules can be
-- computed.
pub scheduler_round_lem :
    (clock : RunClock) (s : ScheduleDb)
    → IsDate clock.wall.date
    → All IsComputable s.tasks
    → let p = scheduler_round clock s in
      (p.0 ≡ ok tt)
      × All (λ t. is_due clock.wall t ≡ false) p.1.tasks
      × (length p.1.logs ≡ length s.logs + count_where (is_due clock.wall) s.tasks)
unfolding scheduler_round get_due_tasks
scheduler_round_lem clock s v c =
    let due = keep (is_due clock.wall) s.tasks in
    let (done, quiet, logged) =
      execute_all_lem clock (get_due_tasks clock.wall s) s v
        (All-sort_by runs_before IsComputable due
          (All-keep IsComputable (is_due clock.wall) s.tasks c))
        (get_due_tasks-Covers clock.wall s) in
    (
      done,
      quiet,
      omega
          (arith, logged, length-sort_by runs_before due, length-keep (is_due clock.wall) s.tasks),
    )

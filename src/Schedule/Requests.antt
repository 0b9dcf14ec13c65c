-- ===== src/Schedule/Requests.antt =====
-- What the requests on scheduled tasks keep (api/app/services/scheduled_task.py).
use pressure_platform.Prelude.{
  ℕ, ◌==◌, not, Bool, List, [], ◌∷◌, inl, inr, Bool-cases, Option-cases, All, All-append, All-keep,
  update_where,
}
use pressure_platform.Store.{UserContext, Result-cases}
use pressure_platform.Calendar.{IsDate}
use pressure_platform.System.Sound.{IsSound}
use pressure_platform.NextRun.{compute_next_run}
use pressure_platform.Schedule.{
  ScheduledTask, ScheduledTaskParam, ScheduleDb, Clock, get_task, set_task, add_scheduled_task,
  update_scheduled_task, delete_scheduled_task, toggle_enabled, toggled_next_run, changed_task,
}
use pressure_platform.NextRun.Computable.{compute_next_run-Computes}
use pressure_platform.Schedule.Rounds.{IsComputable}

-- The schedules of all tasks can be computed, and the tables of the runs are sound.
pub record IsScheduled (s : ScheduleDb) : Type 0 where
  pub tasks : All IsComputable s.tasks
  pub db : IsSound s.db

All-update_where {ℓ κ} :
    {A : Type ℓ} (P : A → Type κ) (p : A → Bool) (f : A → A) (xs : List A)
    → ((x : A) → P x → P (f x))
    → All P xs
    → All P (update_where p f xs)
All-update_where P p f [] hf h = tt
All-update_where P p f (x ∷ xs) hf h = elim (Bool-cases (p x)) [
  | inl e ↦ rw e (hf x h.0, All-update_where P p f xs hf h.1)
  | inr e ↦ rw e (h.0, All-update_where P p f xs hf h.1)
]

pub set_task-IsScheduled :
    (id : ℕ) (f : ScheduledTask → ScheduledTask) (s : ScheduleDb)
    → ((t : ScheduledTask) → IsComputable t → IsComputable (f t))
    → IsScheduled s
    → IsScheduled (set_task id f s)
set_task-IsScheduled id f s h v = record {
  tasks = All-update_where IsComputable (λ t. t.id == id) f s.tasks h v.tasks;
  db = v.db;
}

pub add-IsScheduled :
    (clock : Clock) (param : ScheduledTaskParam) (user : UserContext) (s : ScheduleDb)
    → IsDate clock.wall.date
    → IsScheduled s
    → IsScheduled (add_scheduled_task clock param user s).1
unfolding add_scheduled_task
add-IsScheduled clock param user s d v =
    elim (Result-cases (compute_next_run param.schedule_type param.schedule_data clock.wall)) [
      | inr (x, e) ↦ rw (add_scheduled_task, e) v
      | inl (next, e) ↦
          rw (add_scheduled_task, e)
            (record {
              tasks = All-append IsComputable s.tasks _ v.tasks (
                compute_next_run-Computes param.schedule_type param.schedule_data clock.wall next d
                    e,
                tt,
              );
              db = v.db;
            })
    ]

pub update-IsScheduled :
    (clock : Clock) (id : ℕ) (param : ScheduledTaskParam) (user : UserContext) (s : ScheduleDb)
    → IsDate clock.wall.date
    → IsScheduled s
    → IsScheduled (update_scheduled_task clock id param user s).1
unfolding update_scheduled_task
update-IsScheduled clock id param user s d v = elim (Option-cases (get_task id s)) [
  | inl f ↦ rw (update_scheduled_task, f) v
  | inr (t, f) ↦
      elim (Result-cases (compute_next_run param.schedule_type param.schedule_data clock.wall)) [
        | inr (x, e) ↦ rw (update_scheduled_task, f, e) v
        | inl (next, e) ↦
            rw (update_scheduled_task, f, e)
              (set_task-IsScheduled id (changed_task param next user clock.now) s
                (λ u _.
                  compute_next_run-Computes param.schedule_type param.schedule_data clock.wall next
                    d e)
                v)
      ]
]

pub delete-IsScheduled :
    (id : ℕ) (s : ScheduleDb) → IsScheduled s → IsScheduled (delete_scheduled_task id s).1
unfolding delete_scheduled_task
delete-IsScheduled id s v = elim (Option-cases (get_task id s)) [
  | inl f ↦ rw (delete_scheduled_task, f) v
  | inr (t, f) ↦
      rw (delete_scheduled_task, f)
        (record {
          tasks = All-keep IsComputable (λ u. not (u.id == id)) s.tasks v.tasks;
          db = v.db;
        })
]

pub toggle-IsScheduled :
    (clock : Clock) (id enabled : ℕ) (user : UserContext) (s : ScheduleDb)
    → IsScheduled s
    → IsScheduled (toggle_enabled clock id enabled user s).1
unfolding toggle_enabled
toggle-IsScheduled clock id enabled user s v = elim (Option-cases (get_task id s)) [
  | inl f ↦ rw (toggle_enabled, f) v
  | inr (t, f) ↦ elim (Result-cases (toggled_next_run clock.wall enabled t)) [
    | inr (x, e) ↦ rw (toggle_enabled, f, e) v
    | inl (next, e) ↦ rw (toggle_enabled, f, e) (set_task-IsScheduled id _ s (λ u h. h) v)
  ]
]

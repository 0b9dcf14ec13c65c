-- ===== src/Schedule/Histories.antt =====
-- Every history of the scheduler's requests and rounds, with the calls of the other services in
-- between (api/app/services/scheduled_task.py).
use pressure_platform.Prelude.{ℕ}
use pressure_platform.Store.{Db, UserContext}
use pressure_platform.Calendar.{IsDate}
use pressure_platform.System.Histories.{Step, Step-IsSound}
use pressure_platform.Schedule.{
  ScheduledTaskParam, ScheduleDb, Clock, add_scheduled_task, update_scheduled_task,
  delete_scheduled_task, toggle_enabled,
}
use pressure_platform.Schedule.Runs.{RunClock, trigger_now, scheduler_round}
use pressure_platform.Schedule.Requests.{
  IsScheduled, add-IsScheduled, update-IsScheduled, delete-IsScheduled, toggle-IsScheduled,
}
use pressure_platform.Schedule.Triggers.{trigger-IsScheduled, execute_all-IsScheduled}

-- One call: a request, a round of the scheduler, or a call of another service.
pub data ScheduleStep : ScheduleDb → ScheduleDb → Type 0 where
  add :
      (clock : Clock) (param : ScheduledTaskParam) (user : UserContext) (s : ScheduleDb)
      → IsDate clock.wall.date
      → ScheduleStep s (add_scheduled_task clock param user s).1
  update :
      (clock : Clock) (id : ℕ) (param : ScheduledTaskParam) (user : UserContext) (s : ScheduleDb)
      → IsDate clock.wall.date
      → ScheduleStep s (update_scheduled_task clock id param user s).1
  delete : (id : ℕ) (s : ScheduleDb) → ScheduleStep s (delete_scheduled_task id s).1
  toggle :
      (clock : Clock) (id enabled : ℕ) (user : UserContext) (s : ScheduleDb)
      → ScheduleStep s (toggle_enabled clock id enabled user s).1
  trigger :
      (clock : RunClock) (id : ℕ) (user : UserContext) (s : ScheduleDb)
      → ScheduleStep s (trigger_now clock id user s).1
  round : (clock : RunClock) (s : ScheduleDb) → ScheduleStep s (scheduler_round clock s).1
  other : (s : ScheduleDb) (after : Db) → Step s.db after → ScheduleStep s (record s { db = after })

pub data ScheduleReach : ScheduleDb → ScheduleDb → Type 0 where
  start : (s : ScheduleDb) → ScheduleReach s s
  next : (a b c : ScheduleDb) → ScheduleReach a b → ScheduleStep b c → ScheduleReach a c

ScheduleStep-IsScheduled : (a b : ScheduleDb) → ScheduleStep a b → IsScheduled a → IsScheduled b
unfolding scheduler_round
ScheduleStep-IsScheduled _ _ (add clock param user s d) v = add-IsScheduled clock param user s d v
ScheduleStep-IsScheduled _ _ (update clock id param user s d) v =
    update-IsScheduled clock id param user s d v
ScheduleStep-IsScheduled _ _ (delete id s) v = delete-IsScheduled id s v
ScheduleStep-IsScheduled _ _ (toggle clock id enabled user s) v =
    toggle-IsScheduled clock id enabled user s v
ScheduleStep-IsScheduled _ _ (trigger clock id user s) v = trigger-IsScheduled clock id user s v
ScheduleStep-IsScheduled _ _ (round clock s) v = execute_all-IsScheduled clock _ s v
ScheduleStep-IsScheduled _ _ (other s after step) v = record {
  tasks = v.tasks;
  db = Step-IsSound s.db after step v.db;
}

-- In every history of requests, rounds of the scheduler and calls of the other services, if the
-- schedules of the tasks at the start can be computed on any date and the tables of the runs are
-- sound, then both stay so, whatever the calls return or raise: what cannot be computed never comes
-- into the table.
pub ScheduleReach-IsScheduled :
    (a b : ScheduleDb) → ScheduleReach a b → IsScheduled a → IsScheduled b
ScheduleReach-IsScheduled _ _ (start s) v = v
ScheduleReach-IsScheduled _ _ (next a b c before step) v =
    ScheduleStep-IsScheduled b c step (ScheduleReach-IsScheduled a b before v)

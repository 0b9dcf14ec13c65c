-- ===== src/Schedule.antt =====
-- Scheduled tasks (api/app/services/scheduled_task.py, api/app/crud/scheduled_task.py,
-- api/app/crud/scheduled_task_log.py, api/app/models/scheduled_task.py,
-- api/app/models/scheduled_task_log.py, api/app/schemas/scheduled_task.py): the two tables, and the
-- requests that add, change, switch and delete a task. The computation of the next run stands in
-- NextRun, the runs of tasks in Schedule/Runs. Columns that hold JSON text stand for what it
-- encodes. The column `create_time` of a log is left out: only the page of logs shows it.
pub mod Runs
pub mod Rounds
pub mod Requests
pub mod Triggers
pub mod Histories
use pressure_platform.Prelude.{
  ℕ, zero, suc, ◌+◌, Bool, true, false, ◌&&◌, ◌||◌, not, Option, none, some, List, [], ◌∷◌, ◌++◌,
  map, if◌then◌else◌, ◌==◌, ltb, leb, min, max, any, find, keep, update_where, is_nil, insert_by,
  sort_by,
}
use mathlib.Core.Option
use pressure_platform.Prelude.Text.{Text, codes, text_eq, split, or_else, parse_int}
use pressure_platform.Prelude.Int.{ℤ, pos, negsuc}
use pressure_platform.Store.{
  Db, Audit, UserContext, RunParam, Code, Error, Result, ok, err, and_then, stamp_create,
  stamp_modify,
}
use pressure_platform.Calendar.{
  Date, DateTime, before, next_day, add_days, add_minute, isoweekday, strptime,
}
use pressure_platform.NextRun.{ScheduleData, compute_next_run}

pub record ScheduledTaskParam : Type 0 where
  pub test_case_id : ℕ
  pub schedule_type : Text
  pub schedule_data : ScheduleData
  pub run_param : RunParam

pub record ScheduledTask : Type 0 where
  pub id : ℕ
  pub test_case_id : ℕ
  pub schedule_type : Text
  pub schedule_data : ScheduleData
  pub run_param : RunParam
  pub enabled : ℕ
  pub next_run_at : Option DateTime
  pub last_run_at : Option DateTime
  pub audit : Audit

pub record ScheduledTaskLog : Type 0 where
  pub id : ℕ
  pub scheduled_task_id : ℕ
  pub test_case_id : ℕ
  pub trigger_type : Text
  pub status : Text
  pub reason : Text
  pub message : Text
  pub region : Text
  pub requested_slave_count : ℤ
  pub available_slave_count : ℕ
  pub allocated_slave_count : ℕ
  pub slave_hosts : List Text
  pub run_param : RunParam
  pub trigger_time : DateTime
  pub next_run_at : Option DateTime

-- The tables of the scheduler, and the tables that the runs use.
pub record ScheduleDb : Type 0 where
  pub db : Db
  pub tasks : List ScheduledTask
  pub logs : List ScheduledTaskLog
  pub next_task_id : ℕ
  pub next_log_id : ℕ

abbrev pub get_task : ℕ → ScheduleDb → Option ScheduledTask
get_task id s = find (λ t. t.id == id) s.tasks

abbrev pub set_task : ℕ → (ScheduledTask → ScheduledTask) → ScheduleDb → ScheduleDb
set_task id f s = record s { tasks = update_where (λ t. t.id == id) f s.tasks }

-- The clock of a call: the wall clock, and the seconds that the audit columns hold.
pub record Clock : Type 0 where
  pub wall : DateTime
  pub now : ℕ

abbrev pub new_task : ℕ → ScheduledTaskParam → Option DateTime → UserContext → ℕ → ScheduledTask
new_task key param next_run user now = record {
  id = key;
  test_case_id = param.test_case_id;
  schedule_type = param.schedule_type;
  schedule_data = param.schedule_data;
  run_param = param.run_param;
  enabled = 1;
  next_run_at = next_run;
  last_run_at = none;
  audit = stamp_create user now;
}

abbrev pub add_task : ScheduledTask → ScheduleDb → ScheduleDb
add_task t s = record s { tasks = s.tasks ++ (t ∷ []); next_task_id = suc s.next_task_id }

unfoldable pub add_scheduled_task :
    Clock → ScheduledTaskParam → UserContext → ScheduleDb → Result ℕ × ScheduleDb
add_scheduled_task clock param user s =
    elim (compute_next_run param.schedule_type param.schedule_data clock.wall) [
      | err e ↦ (err e, s)
      | ok next_run ↦
          (ok s.next_task_id, add_task (new_task s.next_task_id param next_run user clock.now) s)
    ]

abbrev pub task_missing : Error
task_missing = Error.mysterious Code.scheduled_task_not_exist none

abbrev pub changed_task :
    ScheduledTaskParam → Option DateTime → UserContext → ℕ → ScheduledTask → ScheduledTask
changed_task param next_run user now t = record t {
  test_case_id = param.test_case_id;
  schedule_type = param.schedule_type;
  schedule_data = param.schedule_data;
  run_param = param.run_param;
  next_run_at = next_run;
  audit = stamp_modify user now t.audit;
}

-- What the computation raises leaves the row as it was: the session ends without a commit.
unfoldable pub update_scheduled_task :
    Clock → ℕ → ScheduledTaskParam → UserContext → ScheduleDb → Result Bool × ScheduleDb
update_scheduled_task clock id param user s = elim (get_task id s) [
  | none ↦ (err task_missing, s)
  | some t ↦ elim (compute_next_run param.schedule_type param.schedule_data clock.wall) [
    | err e ↦ (err e, s)
    | ok next_run ↦ (ok true, set_task id (changed_task param next_run user clock.now) s)
  ]
]

unfoldable pub delete_scheduled_task : ℕ → ScheduleDb → Result Bool × ScheduleDb
delete_scheduled_task id s = elim (get_task id s) [
  | none ↦ (err task_missing, s)
  | some t ↦ (ok true, record s { tasks = keep (λ u. not (u.id == id)) s.tasks })
]

-- The next run of a task that is switched: computed again for a task that is switched on, unless it
-- runs once.
unfoldable pub toggled_next_run : DateTime → ℕ → ScheduledTask → Result (Option DateTime)
toggled_next_run wall enabled t =
    if enabled == 1 && not (text_eq t.schedule_type (codes "once"))
    then compute_next_run t.schedule_type t.schedule_data wall
    else ok t.next_run_at

abbrev pub toggled_task : ℕ → Option DateTime → UserContext → ℕ → ScheduledTask → ScheduledTask
toggled_task enabled next_run user now t = record t {
  enabled = enabled;
  next_run_at = next_run;
  audit = stamp_modify user now t.audit;
}

unfoldable pub toggle_enabled : Clock → ℕ → ℕ → UserContext → ScheduleDb → Result Bool × ScheduleDb
toggle_enabled clock id enabled user s = elim (get_task id s) [
  | none ↦ (err task_missing, s)
  | some t ↦ elim (toggled_next_run clock.wall enabled t) [
    | err e ↦ (err e, s)
    | ok next_run ↦ (ok true, set_task id (toggled_task enabled next_run user clock.now) s)
  ]
]

-- `next_run_at <= now`, which is no match for a task without a next run, and `enabled == 1`.
unfoldable pub is_due : DateTime → ScheduledTask → Bool
is_due now t = elim t.next_run_at [ none ↦ false | some at ↦ not (before now at) && t.enabled == 1 ]

-- `order_by(next_run_at.asc())`; every due task has a next run.
abbrev pub runs_before : ScheduledTask → ScheduledTask → Bool
runs_before t u = elim t.next_run_at [
  | none ↦ true
  | some a ↦ elim u.next_run_at [ none ↦ false | some b ↦ not (before b a) ]
]

unfoldable pub get_due_tasks : DateTime → ScheduleDb → List ScheduledTask
unfolding is_due
get_due_tasks now s = sort_by runs_before (keep (is_due now) s.tasks)

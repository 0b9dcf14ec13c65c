-- ===== src/Tests/Schedules.antt =====
-- The scheduler's theorems on a daily and a weekly task.
use pressure_platform.Prelude.{
  ◌≡◌, refl, true, false, none, some, [], ◌∷◌, arith, All, length, ◌+◌, count_where,
}
use pressure_platform.Prelude.Text.{codes, split, parse_int, strip}
use pressure_platform.Prelude.Int.{pos}
use pressure_platform.Store.{ok}
use pressure_platform.Calendar.{
  Date, DateTime, IsDate, before, isoweekday, days_in_month, days_before_month, next_day,
}
use pressure_platform.NextRun.{
  ScheduleData, compute_next_run, next_daily, next_weekly, weekly_from, replace_time, hour_minute,
  has_day,
}
use pressure_platform.Schedule.{ScheduledTask, ScheduleDb, is_due}
use pressure_platform.Schedule.Runs.{RunClock, scheduler_round}
use pressure_platform.NextRun.Future.{compute_next_run-later}
use pressure_platform.NextRun.Weekly.{compute_next_run-has_day}
use pressure_platform.NextRun.Computable.{Computes, compute_next_run-Computes}
use pressure_platform.Schedule.Rounds.{scheduler_round_lem}
use pressure_platform.Schedule.Histories.{ScheduleStep, ScheduleReach, ScheduleReach-IsScheduled}
use pressure_platform.Schedule.Requests.{IsScheduled}
use pressure_platform.Tests.Samples.{audit, param, env, idle, idle-IsSound}

-- A Wednesday.
abbrev today : Date
today = record { year = 2026; month = 7; day = 1 }

abbrev noon : DateTime
noon = record { date = today; hour = 12; minute = 0; second = 0 }

today-IsDate : IsDate today
unfolding days_in_month
today-IsDate = record {
  year = omega arith;
  month = (omega arith, omega arith);
  day = (omega arith, ground arith);
}

-- Every day at 08:30, and on Wednesdays and Fridays.
abbrev plan : ScheduleData
plan = record {
  time = codes "08:30";
  days_of_week = some (pos 3 ∷ pos 5 ∷ []);
  day_of_month = none;
}

abbrev tomorrow : DateTime
tomorrow = record { date = record today { day = 2 }; hour = 8; minute = 30; second = 0 }

abbrev friday : DateTime
friday = record { date = record today { day = 3 }; hour = 8; minute = 30; second = 0 }

daily_next : compute_next_run (codes "daily") plan noon ≡ ok (some tomorrow)
unfolding compute_next_run next_daily replace_time hour_minute split parse_int strip before next_day
    days_in_month
daily_next = refl

weekly_next : compute_next_run (codes "weekly") plan noon ≡ ok (some friday)
unfolding compute_next_run next_weekly weekly_from isoweekday days_before_month days_in_month
    replace_time hour_minute split parse_int strip before next_day
weekly_next = refl

abbrev daily : ScheduledTask
daily = record {
  id = 1;
  test_case_id = 1;
  schedule_type = codes "daily";
  schedule_data = plan;
  run_param = param;
  enabled = 1;
  next_run_at = some (record { date = today; hour = 8; minute = 30; second = 0 });
  last_run_at = none;
  audit = audit;
}

abbrev scheduled : ScheduleDb
scheduled = record { db = idle; tasks = daily ∷ []; logs = []; next_task_id = 2; next_log_id = 1 }

abbrev clock : RunClock
clock = record { wall = noon; env = env }

daily-Computes : Computes (codes "daily") plan
daily-Computes =
    compute_next_run-Computes (codes "daily") plan noon (some tomorrow) today-IsDate daily_next

scheduler_round_lem_example :
    let p = scheduler_round clock scheduled in
    (p.0 ≡ ok tt)
    × All (λ t. is_due noon t ≡ false) p.1.tasks
    × (length p.1.logs ≡ 0 + count_where (is_due noon) scheduled.tasks)
scheduler_round_lem_example = scheduler_round_lem clock scheduled today-IsDate (daily-Computes, tt)

scheduled-IsScheduled : IsScheduled scheduled
scheduled-IsScheduled = record { tasks = (daily-Computes, tt); db = idle-IsSound }

ScheduleReach-IsScheduled_example : IsScheduled (scheduler_round clock scheduled).1
ScheduleReach-IsScheduled_example =
    ScheduleReach-IsScheduled scheduled (scheduler_round clock scheduled).1
      (ScheduleReach.next scheduled scheduled (scheduler_round clock scheduled).1
        (ScheduleReach.start scheduled) (ScheduleStep.round clock scheduled))
      scheduled-IsScheduled

compute_next_run-later_example : before noon tomorrow ≡ true
compute_next_run-later_example =
    compute_next_run-later (codes "daily") plan noon tomorrow refl daily_next

compute_next_run-has_day_example : has_day (pos 3 ∷ pos 5 ∷ []) (isoweekday friday.date) ≡ true
compute_next_run-has_day_example =
    compute_next_run-has_day plan noon friday 3 today-IsDate (omega arith) (omega arith) refl
      weekly_next

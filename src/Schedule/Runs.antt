-- ===== src/Schedule/Runs.antt =====
-- The runs of scheduled tasks (api/app/services/scheduled_task.py: `trigger_now`,
-- `_execute_scheduled`, `_scheduler_loop` and their helpers). A call that raises before its commit
-- keeps nothing that the session has not committed; `run_testcase` commits its own writes.
use pressure_platform.Prelude.{
  ℕ, suc, Bool, true, false, ◌&&◌, not, Option, none, some, List, [], ◌∷◌, ◌++◌, map, length,
  if◌then◌else◌, ltb,
}
use pressure_platform.Prelude.Text.{
  Text, codes, text_eq, is_empty, or_else, strip, str, str_ℤ, parse_int,
}
use pressure_platform.Prelude.Int.{ℤ, pos, negsuc, ltb_ℤ}
use pressure_platform.Store.{
  Db, Node, TestCase, UserContext, Code, Error, Result, ok, err, get_testcase, is_run_ing,
}
use pressure_platform.ExecutionNode.{list_available_slaves}
use pressure_platform.TestcaseRun.{Env, is_init_artifact_testcase}
use pressure_platform.RunStart.{select_slaves}
use pressure_platform.Dispatch.{run_testcase, error_text}
use pressure_platform.Calendar.{DateTime}
use pressure_platform.NextRun.{compute_next_run}
use pressure_platform.Schedule.{
  ScheduledTask, ScheduledTaskLog, ScheduleDb, get_task, set_task, task_missing, get_due_tasks,
}

-- The wall clock of a call, and the world of the run that it starts.
pub record RunClock : Type 0 where
  pub wall : DateTime
  pub env : Env

pub record SlaveContext : Type 0 where
  pub region : Text
  pub requested_slave_count : ℤ
  pub available_slave_count : ℕ
  pub allocated_slave_count : ℕ
  pub slave_hosts : List Text
  pub is_init_artifact : Bool

abbrev pub slave_context : Text → ℤ → List Node → List Node → SlaveContext
slave_context region requested available allocated = record {
  region = region;
  requested_slave_count = requested;
  available_slave_count = length available;
  allocated_slave_count = length allocated;
  slave_hosts = map (λ n. n.host) allocated;
  is_init_artifact = false;
}

-- `_build_slave_context`
unfoldable pub build_slave_context : ScheduledTask → Db → SlaveContext
build_slave_context task db =
    let region = strip task.run_param.region in
    let requested = task.run_param.slave_count in
    let available = list_available_slaves region false db in
    if is_init_artifact_testcase task.test_case_id db
    then record (slave_context region requested [] []) { is_init_artifact = true }
    else slave_context region requested available (select_slaves requested available)

-- The context of a log that is written without one.
abbrev pub no_context : SlaveContext
no_context = slave_context [] (pos 0) [] []

-- What became of one attempt to run a task.
pub record Attempt : Type 0 where
  pub status : Text
  pub reason : Text
  pub context : SlaveContext

abbrev pub new_log :
    ℕ → ScheduledTask → Text → Attempt → DateTime → Option DateTime → ScheduledTaskLog
new_log key task trigger_type attempt trigger_time next_run_at = record {
  id = key;
  scheduled_task_id = task.id;
  test_case_id = task.test_case_id;
  trigger_type = trigger_type;
  status = attempt.status;
  reason = attempt.reason;
  message = attempt.reason;
  region = attempt.context.region;
  requested_slave_count = attempt.context.requested_slave_count;
  available_slave_count = attempt.context.available_slave_count;
  allocated_slave_count = attempt.context.allocated_slave_count;
  slave_hosts = attempt.context.slave_hosts;
  run_param = task.run_param;
  trigger_time = trigger_time;
  next_run_at = next_run_at;
}

-- `_add_execution_log`, with the next run that the log ends up with.
unfoldable pub add_execution_log :
    ScheduledTask → Text → Attempt → DateTime → Option DateTime → ScheduleDb → ScheduleDb
add_execution_log task trigger_type attempt trigger_time next_run_at s = record s {
  logs = s.logs ++ (new_log s.next_log_id task trigger_type attempt trigger_time next_run_at ∷ []);
  next_log_id = suc s.next_log_id;
}

abbrev pub skipped : Text → SlaveContext → Attempt
skipped reason context = record { status = codes "skipped"; reason = reason; context = context }

abbrev pub failed : Text → SlaveContext → Attempt
failed reason context = record { status = codes "failed"; reason = reason; context = context }

abbrev pub triggered : Text → SlaveContext → Attempt
triggered reason context = record { status = codes "triggered"; reason = reason; context = context }

-- `region and available < 1`
abbrev pub lacks_region : SlaveContext → Bool
lacks_region c = not (is_empty c.region) && ltb c.available_slave_count 1

-- `not is_init_artifact and requested > available`
abbrev pub lacks_slaves : SlaveContext → Bool
lacks_slaves c =
    not c.is_init_artifact && ltb_ℤ (pos c.available_slave_count) c.requested_slave_count

-- When a task runs next: never again, for one that runs once.
unfoldable pub advanced_next_run : DateTime → ScheduledTask → Result (Option DateTime)
advanced_next_run wall task =
    if text_eq task.schedule_type (codes "once")
    then ok none
    else compute_next_run task.schedule_type task.schedule_data wall

-- `_trigger_next_run`, once the next run is known.
abbrev pub advanced_task : DateTime → Option DateTime → ScheduledTask → ScheduledTask
advanced_task wall next_run t = record t {
  last_run_at = some wall;
  enabled = if text_eq t.schedule_type (codes "once") then 0 else t.enabled;
  next_run_at = next_run;
}

-- The row and the log after an attempt; nothing of the two is kept if the computation raises.
unfoldable pub finish_attempt {ℓ} :
    {A : Type ℓ}
    → A
    → DateTime
    → ScheduledTask
    → Text
    → Attempt
    → ScheduleDb
    → Result A × ScheduleDb
finish_attempt value wall task trigger_type attempt s = elim (advanced_next_run wall task) [
  | err e ↦ (err e, s)
  | ok next_run ↦ (
    ok value,
    add_execution_log task trigger_type attempt wall next_run
        (set_task task.id (advanced_task wall next_run) s),
  )
]

unfoldable pub msg_manual_region : Text → Text
msg_manual_region region = codes "区域「" ++ (region ++ codes "」暂无可用压力机，无法执行")

unfoldable pub msg_manual_few : SlaveContext → Text
msg_manual_few c =
    codes "压测机数量不足: 需要"
    ++ (str_ℤ c.requested_slave_count
        ++ (codes "台, 可用" ++ (str c.available_slave_count ++ codes "台")))

-- A manual run that is refused or fails: a log, and the exception.
unfoldable pub refuse_manual :
    DateTime → ScheduledTask → Attempt → Error → ScheduleDb → Result Bool × ScheduleDb
refuse_manual wall task attempt e s =
    (err e, add_execution_log task (codes "manual") attempt wall task.next_run_at s)

unfoldable pub after_manual_run :
    DateTime → ScheduledTask → SlaveContext → Result Bool → ScheduleDb → Result Bool × ScheduleDb
after_manual_run wall task c (err e) s = refuse_manual wall task (failed (error_text e) c) e s
after_manual_run wall task c (ok _) s =
    finish_attempt true wall task (codes "manual") (triggered (codes "手动触发执行") c) s

unfoldable pub trigger_task :
    RunClock → ScheduledTask → UserContext → ScheduleDb → Result Bool × ScheduleDb
trigger_task clock task user s =
    let c = build_slave_context task s.db in
    let (r, after) = run_testcase clock.env task.test_case_id task.run_param user s.db in
    if lacks_region c
    then refuse_manual clock.wall task (skipped (msg_manual_region c.region) c)
        (Error.mysterious Code.fail (some (msg_manual_region c.region))) s
    else if lacks_slaves c
    then refuse_manual clock.wall task (skipped (msg_manual_few c) c)
        (Error.mysterious Code.fail (some (msg_manual_few c))) s
    else after_manual_run clock.wall task c r (record s { db = after })

unfoldable pub trigger_now : RunClock → ℕ → UserContext → ScheduleDb → Result Bool × ScheduleDb
unfolding trigger_task
trigger_now clock id user s = elim (get_task id s) [
  | none ↦ (err task_missing, s)
  | some task ↦ trigger_task clock task user s
]

-- The user on whose behalf a task runs. Keys of users are positive, so a key with a sign does not
-- occur.
unfoldable pub scheduler_user : ScheduledTask → UserContext
scheduler_user task = record {
  id = elim (parse_int task.audit.creator_id) [
    | none ↦ 0
    | some z ↦ elim z [ pos n ↦ n | negsuc n ↦ 0 ]
  ];
  username = or_else task.audit.creator (codes "scheduler");
  real_name = or_else task.audit.creator (codes "定时调度");
}

unfoldable pub msg_auto_region : Text → Text
msg_auto_region region = codes "区域「" ++ (region ++ codes "」暂无可用压力机（未占用），跳过执行")

unfoldable pub msg_auto_few : SlaveContext → Text
msg_auto_few c =
    codes "可用压力机不足（未占用），跳过执行：需要"
    ++ (str_ℤ c.requested_slave_count
        ++ (codes "台，可用" ++ (str c.available_slave_count ++ codes "台")))

unfoldable pub after_auto_run : SlaveContext → Result Bool → Attempt
after_auto_run c (ok _) = triggered (codes "定时任务已触发执行") c
after_auto_run c (err e) = failed (error_text e) no_context

-- The `try` of `_execute_scheduled`: what became of the run, and the tables after it.
unfoldable pub attempt_run : RunClock → ScheduledTask → Option TestCase → Db → Attempt × Db
attempt_run clock task none db = (skipped (codes "用例不存在，跳过执行") (build_slave_context task db), db)
attempt_run clock task (some tc) db =
    let c = build_slave_context task db in
    let (r, after) =
      run_testcase clock.env task.test_case_id task.run_param (scheduler_user task) db in
    if is_run_ing tc.status
    then (skipped (codes "用例正在执行中，跳过执行(status=1)") c, db)
    else if lacks_region c
    then (skipped (msg_auto_region c.region) c, db)
    else if lacks_slaves c
    then (skipped (msg_auto_few c) c, db)
    else (after_auto_run c r, after)

-- `_execute_scheduled`: whatever became of the run, the task is advanced (`finally`).
unfoldable pub execute_scheduled :
    RunClock → ScheduledTask → ScheduleDb → Result (Unit {0}) × ScheduleDb
unfolding attempt_run
execute_scheduled clock task s =
    let (attempt, after) = attempt_run clock task (get_testcase task.test_case_id s.db) s.db in
    finish_attempt tt clock.wall task (codes "auto") attempt (record s { db = after })

abbrev pub resume_round :
    Result (Unit {0}) × ScheduleDb
    → (ScheduleDb → Result (Unit {0}) × ScheduleDb)
    → Result (Unit {0}) × ScheduleDb
resume_round (ok _, s) rest = rest s
resume_round (err e, s) rest = (err e, s)

-- The loop over the due tasks, each at the clock of its turn; an exception ends the round.
unfoldable pub execute_all :
    RunClock → List ScheduledTask → ScheduleDb → Result (Unit {0}) × ScheduleDb
unfolding execute_scheduled
execute_all clock [] s = (ok tt, s)
execute_all clock (task ∷ tasks) s =
    resume_round (execute_scheduled clock task s) (execute_all clock tasks)

-- One round of `_scheduler_loop`.
unfoldable pub scheduler_round : RunClock → ScheduleDb → Result (Unit {0}) × ScheduleDb
unfolding execute_all
scheduler_round clock s = execute_all clock (get_due_tasks clock.wall s) s

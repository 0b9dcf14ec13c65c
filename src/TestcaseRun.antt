-- ===== src/TestcaseRun.antt =====
-- Starting a run of a test case (api/app/services/testcase.py: `run_testcase`,
-- `run_testcase_legacy`, `_should_queue_run`, `_run_testcase_now` and their helpers). What happens
-- outside the database enters as `Env`: the configured JMeter folder, SSH, the files of the run,
-- and the JMeter process.
use pressure_platform.Prelude.{
  ℕ, Bool, true, false, not, ◌&&◌, Option, none, some, List, [], ◌++◌, if◌then◌else◌, ◌==◌, ltb,
  any, length,
}
use pressure_platform.Prelude.Text.{
  Text, codes, is_empty, or_else, strip, split, str, str_ℤ, parse_int,
}
use pressure_platform.Prelude.Int.{ℤ, pos, negsuc, ltb_ℤ}
use pressure_platform.Store.{
  Db, Node, ExecutionQueue, RunParam, ThreadGroupRunOverride, TestCase, Code, Error, Result, Action,
  pure, gets, or_raise, lift, raise_if, ◌>>=◌, ◌>>◌, get_testcase, get_jmx_of, is_run_ing,
}
use pressure_platform.RunParams.{validate_run_params, GroupName}
use pressure_platform.ExecutionNode.{list_available_slaves}
use pressure_platform.ExecutionQueue.{get_active_by_testcase_region}

-- The world around one call: the clock, the time stamp in names, the outcome of each step outside
-- the database, and what the script of the test case holds.
pub record Env : Type 0 where
  pub now : ℕ
  pub ts : Text
  -- `_ensure_master_bin`
  pub master_bin : Result (Unit {0})
  -- `SSHClient(…).telnet(200)` for a node
  pub telnet : Node → Result (Unit {0})
  -- `_sync_case_dependencies_to_slaves`
  pub sync_dependencies : List Node → Result (Unit {0})
  -- `list_thread_groups` on the script, by key and name
  pub groups : List GroupName
  -- Writing the script of the run from the number of threads, the ramp time, the duration and the
  -- overrides; the value is `sum_enabled_thread_group_threads` of what was written.
  pub write_script : Text → Text → Text → List ThreadGroupRunOverride → Result ℕ
  -- Folders, parameter files and the file `run_meta.json`, for the nodes of the run.
  pub prepare_files : List Node → Result (Unit {0})
  -- `jmeter_runner.launch_jmeter` for a report
  pub launch : ℕ → Result (Unit {0})

-- `_parse_id_set` and the test that a key is in it.
abbrev is_id : ℕ → Text → Bool
is_id id item = elim (parse_int (strip item)) [
  | none ↦ false
  | some z ↦ elim z [ pos n ↦ n == id | negsuc n ↦ false ]
]

-- A blank item is no number, so it needs no test of its own.
unfoldable pub is_init_artifact_testcase : ℕ → Db → Bool
is_init_artifact_testcase id db = any (is_id id) (split 44 db.init_artifact_testcase_ids)

-- `param.x if param.x not in (None, "") else (testcase.x or default)`
abbrev chosen : Text → Text → Text → Text
chosen given saved default = or_else given (or_else saved default)

abbrev pub run_num_threads : RunParam → TestCase → Text
run_num_threads param t = chosen param.num_threads t.num_threads (codes "10")

abbrev pub run_ramp_time : RunParam → TestCase → Text
run_ramp_time param t = chosen param.ramp_time t.ramp_time (codes "0")

abbrev pub run_duration : RunParam → TestCase → Text
run_duration param t = chosen param.duration t.duration (codes "60")

abbrev pub busy : Error
busy = Error.mysterious Code.testcase_is_running none

unfoldable pub msg_no_region_slave : Text → Text → Text
msg_no_region_slave region rest = codes "区域「" ++ (region ++ (codes "」暂无可用压力机（未占用），" ++ rest))

unfoldable pub msg_too_few : ℤ → ℕ → Text → Text
msg_too_few wanted available rest =
    codes "压测机数量不足: 需要"
    ++ (str_ℤ wanted ++ (codes "台, 可用压力机（未占用）" ++ (str available ++ (codes "台" ++ rest))))

-- Whether to queue, with which message, and how many nodes are available.
abbrev pub Verdict : Type 0
Verdict = Bool × Text × ℕ

unfoldable pub queue_verdict : RunParam → Text → ℕ → Verdict
queue_verdict param region total_available =
    if not (is_empty region) && ltb total_available 1
    then (true, msg_no_region_slave region (codes "已进入执行队列"), total_available)
    else if ltb_ℤ (pos total_available) param.slave_count
    then (true, msg_too_few param.slave_count total_available (codes "，已进入执行队列"), total_available)
    else (false, [], total_available)

abbrev active_key : Option ExecutionQueue → Option ℕ
active_key none = none
active_key (some q) = some q.id

-- The other queue entry that forbids a run: an active one that is not the one being started.
abbrev pub is_foreign : Option ℕ → Option ℕ → Bool
is_foreign none allowed = false
is_foreign (some id) none = true
is_foreign (some id) (some k) = not (id == k)

unfoldable pub slave_verdict : ℕ → RunParam → Option ℕ → Action Verdict
unfolding queue_verdict
slave_verdict id param allow_waiting_queue_id = do
  active ← gets (get_active_by_testcase_region id (strip param.region))
  raise_if (is_foreign (active_key active) allow_waiting_queue_id) busy
  total_available ← gets (λ db. length (list_available_slaves (strip param.region) false db))
  pure (queue_verdict param (strip param.region) total_available)

unfoldable pub should_queue_run : ℕ → RunParam → Option ℕ → Action Verdict
unfolding slave_verdict is_init_artifact_testcase
should_queue_run id param allow_waiting_queue_id = do
  found ← gets (get_testcase id)
  testcase ← or_raise found (Error.mysterious Code.testcase_not_exist none)
  script ← gets (get_jmx_of id)
  jmx ← or_raise script (Error.mysterious Code.jmx_not_exist none)
  lift (
      validate_run_params (run_num_threads param testcase) (run_ramp_time param testcase)
        (run_duration param testcase) param.thread_group_overrides)
  raise_if (is_run_ing testcase.status) busy
  is_init ← gets (is_init_artifact_testcase id)
  if is_init then pure (false, [], 0) else slave_verdict id param allow_waiting_queue_id

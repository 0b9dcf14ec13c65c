-- ===== src/RunStart.antt =====
-- `_run_testcase_now` (api/app/services/testcase.py), in the stages in which the source does it:
-- the checks of the request, the claim of the queue entry, the choice of the nodes, the files of
-- the run, the rows that record it, and the leases with the launch. The path of the master's
-- JMeter, the command line and the file names are built by the source and passed to the process;
-- they change no row and are left to `Env`.
pub mod Reads
pub mod Outcomes
use pressure_platform.Prelude.{
  ℕ, suc, ◌*◌, Bool, true, false, not, ◌&&◌, Option, none, some, List, [], ◌∷◌, ◌++◌, map,
  if◌then◌else◌, ◌==◌, ltb, max, keep, take, length, is_nil, is_some,
}
use pressure_platform.Prelude.Text.{Text, codes, text_eq, is_empty, strip, str}
use pressure_platform.Prelude.Int.{ℤ, pos, negsuc, pos_part, ltb_ℤ}
use pressure_platform.Store.{
  Db, Node, ExecutionNode, Report, LeaseStatus, RunParam, ThreadGroupRunOverride, TestCaseStatus,
  TestCase, Code, Error, UserContext, stamp_create, stamp_modify, code_message, Result, ok, err,
  and_then, Action, pure, raise, gets, or_raise, lift, modify, raise_if, when, ◌>>=◌, ◌>>◌,
  get_testcase, get_jmx_of, set_testcase, set_report, is_run_ing, is_run_waiting, is_wait_cancel,
}
use pressure_platform.RunParams.{
  validate_run_params, ceil_div, prepare_thread_group_overrides, validate_thread_group_overrides,
  validate_thread_group_pacing,
}
use pressure_platform.ExecutionNode.{list_available_slaves, lease_nodes, release_by_report}
use pressure_platform.ExecutionQueue.{
  get_active_by_testcase_region, with_status, claim_execution_queue_for_start,
  bind_execution_queue_report, mark_execution_queue_stopped,
}
use pressure_platform.TestcaseRun.{
  Env, run_num_threads, run_ramp_time, run_duration, busy, is_init_artifact_testcase,
  msg_no_region_slave, msg_too_few,
}

-- What the checks of a request yield: the test case and the parsed number of threads.
pub record Request : Type 0 where
  pub testcase : TestCase
  pub total_threads : ℕ

unfoldable pub check_request : Env → ℕ → RunParam → Option ℕ → Action Request
check_request env id param queue_id = do
  lift env.master_bin
  found ← gets (get_testcase id)
  testcase ← or_raise found (Error.mysterious Code.testcase_not_exist none)
  script ← gets (get_jmx_of id)
  jmx ← or_raise script (Error.mysterious Code.jmx_not_exist none)
  parsed ← lift (
      validate_run_params (run_num_threads param testcase) (run_ramp_time param testcase)
        (run_duration param testcase) param.thread_group_overrides)
  raise_if (is_run_ing testcase.status) busy
  active ← gets (get_active_by_testcase_region id (strip param.region))
  raise_if (is_run_waiting testcase.status && (not (is_some queue_id) && is_some active)) busy
  pure (record { testcase = testcase; total_threads = parsed.0 })

-- `if queue_id is not None: …`
abbrev pub when_queued : Option ℕ → (ℕ → Action Unit) → Action Unit
when_queued none f = pure tt
when_queued (some queue_id) f = f queue_id

unfoldable pub msg_region_running : Text → Text → Text
msg_region_running name region =
    codes "用例「" ++ (name ++ (codes "」在区域「" ++ (region ++ codes "」已有正在执行的任务")))

-- `report_crud.get_running_by_testcase_region`
unfoldable pub get_running_by_testcase_region : ℕ → Text → Db → List Report
get_running_by_testcase_region test_case_id region db =
    keep (λ r. r.test_case_id == test_case_id && (text_eq r.region region && is_run_ing r.status))
      db.reports

-- The first `slave_count` nodes if a positive number of nodes was asked for, and all otherwise.
abbrev pub select_slaves : ℤ → List Node → List Node
select_slaves wanted slaves = if ltb_ℤ (pos 0) wanted then take (pos_part wanted) slaves else slaves

-- The loop over the nodes: a business error of the connection test becomes its own code.
unfoldable pub check_connections : Env → List Node → Result (Unit {0})
check_connections env [] = ok tt
check_connections env (s ∷ slaves) =
    let rest = check_connections env slaves in
    elim (env.telnet s) [
      | ok _ ↦ rest
      | err e ↦ elim e [
        | Error.mysterious c m ↦ err (Error.mysterious Code.node_cannot_connect none)
        | e' ↦ err e'
      ]
    ]

unfoldable pub pick_slaves : Env → RunParam → List Node → Action (List Node)
pick_slaves env param available = do
  raise_if (not (is_empty (strip param.region)) && ltb (length available) 1)
      (Error.mysterious Code.fail (some (msg_no_region_slave (strip param.region) (codes "无法执行"))))
  raise_if (ltb_ℤ (pos (length available)) param.slave_count)
      (Error.mysterious Code.fail (some (msg_too_few param.slave_count (length available) [])))
  lift (check_connections env (select_slaves param.slave_count available))
  lift (env.sync_dependencies (select_slaves param.slave_count available))
  pure (select_slaves param.slave_count available)

unfoldable pub choose_slaves : Env → ℕ → RunParam → Bool → TestCase → Action (List Node)
choose_slaves env id param ignore_health testcase = do
  is_init ← gets (is_init_artifact_testcase id)
  running ← gets (get_running_by_testcase_region id (strip param.region))
  raise_if (not (is_empty (strip param.region)) && (not is_init && not (is_nil running))) (
      Error.mysterious Code.testcase_is_running
        (some (msg_region_running testcase.name (strip param.region))))
  available ← gets (list_available_slaves (strip param.region) ignore_health)
  if is_init then pure [] else pick_slaves env param available

-- The number of threads that one node runs, as text: the whole number of the request on one node.
abbrev pub share_text : Text → ℕ → ℕ → Result Text
share_text num_threads total_threads slave_count =
    if ltb 1 slave_count
    then and_then (ceil_div total_threads slave_count) (λ share. ok (str share))
    else ok num_threads

-- Writes the files of the run; the value is the total number of threads that will run.
unfoldable pub prepare_run : Env → RunParam → Request → List Node → Action ℕ
prepare_run env param request slaves = do
  threads ←
      lift
        (share_text (run_num_threads param request.testcase) request.total_threads (length slaves))
  overrides ← lift (prepare_thread_group_overrides param.thread_group_overrides (length slaves))
  lift (validate_thread_group_overrides env.groups overrides)
  lift (validate_thread_group_pacing overrides)
  per_slave ← lift (
      env.write_script threads (run_ramp_time param request.testcase)
        (run_duration param request.testcase) overrides)
  lift (env.prepare_files slaves)
  pure (if ltb 0 per_slave then per_slave * max 1 (length slaves) else request.total_threads)

-- `_resolve_run_report_name`; a report's name column holds 255 characters.
unfoldable pub resolve_run_report_name : Text → Text → Text → Text
resolve_run_report_name testcase_name task_name ts =
    take 255 (if is_empty (strip task_name) then testcase_name ++ (95 ∷ ts) else strip task_name)

abbrev pub new_report : ℕ → Env → TestCase → RunParam → UserContext → ℕ → ℕ → Report
new_report key env testcase param user total_threads slave_count = record {
  id = key;
  name = resolve_run_report_name testcase.name param.task_name env.ts;
  test_case_id = testcase.id;
  exec_type = 2;
  status = TestCaseStatus.run_ing;
  response_data = code_message Code.stress_result;
  region = strip param.region;
  total_threads = total_threads;
  slave_count = slave_count;
  audit = stamp_create user env.now;
}

abbrev pub add_report : Env → TestCase → RunParam → UserContext → ℕ → ℕ → Db → Db
add_report env testcase param user total_threads slave_count db = record db {
  reports =
      db.reports
      ++ new_report db.next_report_id env testcase param user total_threads slave_count ∷ [];
  next_report_id = suc db.next_report_id;
}

-- `testcase.status = …; stamp_modify(testcase, user)`
abbrev pub stamped_status : TestCaseStatus → UserContext → ℕ → TestCase → TestCase
stamped_status status user now t = record t {
  status = status;
  audit = stamp_modify user now t.audit;
}

abbrev pub remote_host : Bool → Node → Text
remote_host ignore_health s = if ignore_health then s.host else s.host ++ codes ":1099"

-- Sets the test case to running, adds the report and binds the queue entry to it; the value is the
-- report's key.
unfoldable pub record_run :
    Env → RunParam → UserContext → Option ℕ → Bool → TestCase → List Node → ℕ → Action ℕ
record_run env param user queue_id ignore_health testcase slaves total_threads = do
  modify (set_testcase testcase.id (stamped_status TestCaseStatus.run_ing user env.now))
  report_id ← gets (λ db. db.next_report_id)
  modify (add_report env testcase param user total_threads (max 1 (length slaves)))
  when_queued queue_id (λ key.
      bind_execution_queue_report key report_id (max 1 (length slaves))
        (map (remote_host ignore_health) slaves))
  pure report_id

abbrev pub failed_report : Text → Report → Report
failed_report message r = record r { status = TestCaseStatus.run_failed; response_data = message }

-- `_mark_run_start_failed`
unfoldable pub mark_run_start_failed : Env → ℕ → ℕ → Option ℕ → Text → UserContext → Db → Db
mark_run_start_failed env testcase_id report_id queue_id message user db =
    let stamped =
      set_testcase testcase_id (stamped_status TestCaseStatus.run_failed user env.now) db in
    let reported = set_report report_id (failed_report message) stamped in
    if is_some queue_id
    then mark_execution_queue_stopped report_id message env.now reported
    else reported

unfoldable pub msg_launch_failed : Text
msg_launch_failed = codes "JMeter 启动失败"

unfoldable pub msg_launch_released : Text
msg_launch_released = codes "JMeter 启动失败，释放压力机租约"

-- `except RuntimeError`: a node was taken meanwhile.
unfoldable pub after_leasing :
    Env → UserContext → Option ℕ → ℕ → ℕ → Result (List ExecutionNode) → Action Unit
after_leasing env user queue_id testcase_id report_id (ok leases) db = (ok tt, db)
after_leasing env user queue_id testcase_id report_id (err (Error.runtime_error m)) db = (
  err (Error.mysterious Code.fail (some m)),
  mark_run_start_failed env testcase_id report_id queue_id m user db,
)
after_leasing env user queue_id testcase_id report_id (err e) db = (err e, db)

-- `if healthy_slaves: try: lease_nodes …`; without nodes there is nothing to lease.
unfoldable pub take_leases :
    Env → RunParam → UserContext → Option ℕ → ℕ → ℕ → List Node → Action Unit
unfolding after_leasing
take_leases env param user queue_id testcase_id report_id slaves db =
    let (r, after) = lease_nodes report_id testcase_id slaves (strip param.region) env.now db in
    after_leasing env user queue_id testcase_id report_id r after

unfoldable pub launch_run : Env → UserContext → Option ℕ → ℕ → ℕ → Action Unit
launch_run env user queue_id testcase_id report_id db = elim (env.launch report_id) [
  | ok _ ↦ (ok tt, db)
  | err e ↦
      let failed =
        mark_run_start_failed env testcase_id report_id queue_id msg_launch_failed user db in
      (
        err e,
        (release_by_report report_id msg_launch_released LeaseStatus.released env.now failed).1,
      )
]

-- The stages from the nodes of the run on; the value is the report's key.
unfoldable pub start_run :
    Env → RunParam → UserContext → Option ℕ → Bool → Request → List Node → Action ℕ
start_run env param user queue_id ignore_health request slaves = do
  total_threads ← prepare_run env param request slaves
  report_id ← record_run env param user queue_id ignore_health request.testcase slaves total_threads
  take_leases env param user queue_id request.testcase.id report_id slaves
  launch_run env user queue_id request.testcase.id report_id
  pure report_id

-- The report's key; `queue_id` names the queue entry that is started, if there is one.
unfoldable pub run_testcase_now : Env → ℕ → RunParam → UserContext → Option ℕ → Bool → Action ℕ
run_testcase_now env id param user queue_id ignore_health = do
  request ← check_request env id param queue_id
  when_queued queue_id (λ key. claim_execution_queue_for_start key env.now)
  raise_if (is_wait_cancel request.testcase.status && is_some queue_id) busy
  slaves ← choose_slaves env id param ignore_health request.testcase
  start_run env param user queue_id ignore_health request slaves

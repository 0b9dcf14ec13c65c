-- ===== src/System/Starts.antt =====
-- Starting a run under the invariant of the tables, step by step
-- (`_run_testcase_now`, api/app/services/testcase.py).
use pressure_platform.Prelude.{
  ℕ, ◌≡◌, refl, inl, inr, Bool, Option, none, some, List, [], arith, length, max, map, Bool-cases,
  ◌⊎◌, ◌&&◌, is_some,
}
use pressure_platform.Prelude.Text.{Text, strip}
use pressure_platform.Prelude.Int.{ℤ, pos, pos_part, ltb_ℤ}
use pressure_platform.Store.{
  Db, Node, ExecutionNode, TestCaseStatus, TestCase, Report, RunParam, UserContext, LeaseStatus,
  Error, Result, ok, err, Result-cases, Keeps, bind-Keeps, bind_returns, set_testcase, set_report,
  is_wait_cancel, raise_if,
}
use pressure_platform.ExecutionNode.{list_available_slaves, lease_nodes}
use pressure_platform.ExecutionNode.Exclusive.{AreDistinct}
use pressure_platform.ExecutionQueue.{
  claim_execution_queue_for_start, bind_execution_queue_report, mark_execution_queue_stopped,
}
use pressure_platform.ExecutionQueue.Single.{
  claim_execution_queue_for_start-IsValid, bind_execution_queue_report-IsValid,
  mark_execution_queue_stopped-IsValid,
}
use pressure_platform.TestcaseRun.{Env, busy}
use pressure_platform.RunStart.{
  start_run, remote_host, stamped_status, after_leasing, Request, check_request, pick_slaves,
  choose_slaves, prepare_run, record_run, when_queued, add_report, mark_run_start_failed,
  take_leases, launch_run, run_testcase_now, select_slaves,
}
use pressure_platform.RunStart.Reads.{check_request-reads, choose_slaves-reads, prepare_run-reads}
use pressure_platform.System.Sound.{IsSound, IsSound-of_tables, IsSound-of_queue}
use pressure_platform.System.Leases.{
  AreDistinct-take, AreDistinct-available, lease_nodes-IsSound, release_by_report-IsSound,
}

pub same-IsSound : {db after : Db} → after ≡ db → IsSound db → IsSound after
same-IsSound e s = rw e s

claim-tables :
    (k now : ℕ) (db : Db)
    → let after = (claim_execution_queue_for_start k now db).1 in
      (after.leases ≡ db.leases) × (after.nodes ≡ db.nodes)
unfolding claim_execution_queue_for_start
claim-tables k now db = ground arith

pub claim-IsSound : (k now : ℕ) → Keeps IsSound (claim_execution_queue_for_start k now)
claim-IsSound k now db s =
    let (l, m) = claim-tables k now db in
    IsSound-of_queue db (claim_execution_queue_for_start k now db).1 l m s
      (claim_execution_queue_for_start-IsValid k now db s.queue)

bind-tables :
    (k report_id n : ℕ) (hosts : List Text) (db : Db)
    → let after = (bind_execution_queue_report k report_id n hosts db).1 in
      (after.leases ≡ db.leases) × (after.nodes ≡ db.nodes)
unfolding bind_execution_queue_report
bind-tables k report_id n hosts db = ground arith

bind-IsSound :
    (k report_id n : ℕ) (hosts : List Text)
    → Keeps IsSound (bind_execution_queue_report k report_id n hosts)
bind-IsSound k report_id n hosts db s =
    let (l, m) = bind-tables k report_id n hosts db in
    IsSound-of_queue db (bind_execution_queue_report k report_id n hosts db).1 l m s
      (bind_execution_queue_report-IsValid k report_id n hosts db s.queue)

stopped-tables :
    (report_id : ℕ) (message : Text) (now : ℕ) (db : Db)
    → let after = mark_execution_queue_stopped report_id message now db in
      (after.leases ≡ db.leases) × (after.nodes ≡ db.nodes)
unfolding mark_execution_queue_stopped
stopped-tables report_id message now db = ground arith

pub stopped-IsSound :
    (report_id : ℕ) (message : Text) (now : ℕ) (db : Db)
    → IsSound db
    → IsSound (mark_execution_queue_stopped report_id message now db)
stopped-IsSound report_id message now db s =
    let (l, m) = stopped-tables report_id message now db in
    IsSound-of_queue db (mark_execution_queue_stopped report_id message now db) l m s
      (mark_execution_queue_stopped-IsValid report_id message now db s.queue)

pub set_testcase-IsSound :
    (id : ℕ) (f : TestCase → TestCase) (db : Db) → IsSound db → IsSound (set_testcase id f db)
set_testcase-IsSound id f db s = IsSound-of_tables db _ refl refl refl refl s

pub set_report-IsSound :
    (id : ℕ) (f : Report → Report) (db : Db) → IsSound db → IsSound (set_report id f db)
set_report-IsSound id f db s = IsSound-of_tables db _ refl refl refl refl s

mark_run_start_failed-IsSound :
    (env : Env) (t r : ℕ) (queue_id : Option ℕ) (message : Text) (user : UserContext) (db : Db)
    → IsSound db
    → IsSound (mark_run_start_failed env t r queue_id message user db)
unfolding mark_run_start_failed
mark_run_start_failed-IsSound env t r none message user db s =
    set_report-IsSound r _ (set_testcase t _ db) (set_testcase-IsSound t _ db s)
mark_run_start_failed-IsSound env t r (some k) message user db s =
    stopped-IsSound r message env.now (set_report r _ (set_testcase t _ db))
      (set_report-IsSound r _ (set_testcase t _ db) (set_testcase-IsSound t _ db s))

record_run-IsSound :
    (env : Env) (param : RunParam) (user : UserContext) (queue_id : Option ℕ) (ignore : Bool)
    (t : TestCase) (slaves : List Node) (total : ℕ)
    → Keeps IsSound (record_run env param user queue_id ignore t slaves total)
unfolding record_run
record_run-IsSound env param user none ignore t slaves total db s =
    IsSound-of_tables db _ refl refl refl refl s
record_run-IsSound env param user (some k) ignore t slaves total db s =
    let recorded =
      add_report env t param user total (max 1 (length slaves))
        (set_testcase t.id (stamped_status TestCaseStatus.run_ing user env.now) db) in
    let hosts = map (remote_host ignore) slaves in
    bind_returns IsSound
      (bind_execution_queue_report k db.next_report_id (max 1 (length slaves)) hosts) _ recorded
      (bind-IsSound k db.next_report_id (max 1 (length slaves)) hosts recorded
        (IsSound-of_tables db recorded refl refl refl refl s))
      (λ a e after s'. s')

after_leasing-IsSound :
    (env : Env) (user : UserContext) (queue_id : Option ℕ) (t r : ℕ)
    (result : Result (List ExecutionNode))
    → Keeps IsSound (after_leasing env user queue_id t r result)
unfolding after_leasing
after_leasing-IsSound env user queue_id t r (ok leases) db s = s
after_leasing-IsSound env user queue_id t r (err (Error.runtime_error m)) db s =
    mark_run_start_failed-IsSound env t r queue_id m user db s
after_leasing-IsSound env user queue_id t r (err (Error.mysterious c m)) db s = s
after_leasing-IsSound env user queue_id t r (err (Error.other m)) db s = s

take_leases-IsSound :
    (env : Env) (param : RunParam) (user : UserContext) (queue_id : Option ℕ) (t r : ℕ)
    (slaves : List Node)
    → AreDistinct slaves
    → Keeps IsSound (take_leases env param user queue_id t r slaves)
unfolding take_leases
take_leases-IsSound env param user queue_id t r slaves distinct db s =
    let leased = lease_nodes r t slaves (strip param.region) env.now db in
    after_leasing-IsSound env user queue_id t r leased.0 leased.1
      (lease_nodes-IsSound r t slaves (strip param.region) env.now distinct db s)

launch_run-IsSound :
    (env : Env) (user : UserContext) (queue_id : Option ℕ) (t r : ℕ)
    → Keeps IsSound (launch_run env user queue_id t r)
unfolding launch_run
launch_run-IsSound env user queue_id t r db s = elim (Result-cases (env.launch r)) [
  | inl (u, e) ↦ rw (launch_run, e) s
  | inr (x, e) ↦
      rw (launch_run, e)
        (release_by_report-IsSound r _ LeaseStatus.released env.now (λ p. cc) _
          (mark_run_start_failed-IsSound env t r queue_id _ user db s))
]

-- The nodes of a run: none on the master, and otherwise the selected ones among the offer.
pub choose_slaves_lem :
    (env : Env) (id : ℕ) (param : RunParam) (ignore : Bool) (t : TestCase) (db : Db)
    (slaves : List Node)
    → (choose_slaves env id param ignore t db).0 ≡ ok slaves
    → (slaves ≡ [])
      ⊎ (slaves
          ≡ select_slaves param.slave_count (list_available_slaves (strip param.region) ignore db))
unfolding choose_slaves pick_slaves
choose_slaves_lem env id param ignore t db slaves h = ground arith

AreDistinct-select :
    (wanted : ℤ) (nodes : List Node) → AreDistinct nodes → AreDistinct (select_slaves wanted nodes)
AreDistinct-select wanted nodes h = elim (Bool-cases (ltb_ℤ (pos 0) wanted)) [
  | inl e ↦ rw e (AreDistinct-take (pos_part wanted) nodes h)
  | inr e ↦ rw e h
]

AreDistinct-chosen :
    (env : Env) (id : ℕ) (param : RunParam) (ignore : Bool) (t : TestCase) (db : Db)
    (slaves : List Node)
    → IsSound db
    → (choose_slaves env id param ignore t db).0 ≡ ok slaves
    → AreDistinct slaves
AreDistinct-chosen env id param ignore t db slaves s h =
    elim (choose_slaves_lem env id param ignore t db slaves h) [
      | inl e ↦ rw e (λ k. omega arith)
      | inr e ↦ rw e (
          AreDistinct-select param.slave_count _
            (AreDistinct-available (strip param.region) ignore db s.nodes))
    ]

claim_when_queued-IsSound :
    (queue_id : Option ℕ) (now : ℕ)
    → Keeps IsSound (when_queued queue_id (λ key. claim_execution_queue_for_start key now))
claim_when_queued-IsSound none now db s = s
claim_when_queued-IsSound (some k) now db s = claim-IsSound k now db s

start_run-IsSound :
    (env : Env) (param : RunParam) (user : UserContext) (queue_id : Option ℕ) (ignore : Bool)
    (request : Request) (slaves : List Node)
    → AreDistinct slaves
    → Keeps IsSound (start_run env param user queue_id ignore request slaves)
unfolding start_run
start_run-IsSound env param user queue_id ignore request slaves distinct =
    let t = request.testcase.id in
    bind-Keeps IsSound (prepare_run env param request slaves) _
      (λ db. same-IsSound (prepare_run-reads env param request slaves db))
      (λ total.
        bind-Keeps IsSound (record_run env param user queue_id ignore request.testcase slaves total)
          _ (record_run-IsSound env param user queue_id ignore request.testcase slaves total)
          (λ r.
            bind-Keeps IsSound (take_leases env param user queue_id t r slaves) _
              (take_leases-IsSound env param user queue_id t r slaves distinct)
              (λ _.
                bind-Keeps IsSound (launch_run env user queue_id t r) _
                  (launch_run-IsSound env user queue_id t r) (λ _ db s. s))))

-- A start that is refused or fails at any step leaves the invariant in force, and so does one that
-- succeeds: whatever the outside world answers, for every request and every state.
pub run_testcase_now-IsSound :
    (env : Env) (id : ℕ) (param : RunParam) (user : UserContext) (queue_id : Option ℕ)
    (ignore : Bool)
    → Keeps IsSound (run_testcase_now env id param user queue_id ignore)
unfolding run_testcase_now
run_testcase_now-IsSound env id param user queue_id ignore db s =
    bind_returns IsSound (check_request env id param queue_id) _ db
      (same-IsSound (check_request-reads env id param queue_id db) s)
      (λ request _.
        bind-Keeps IsSound
          (when_queued queue_id (λ key. claim_execution_queue_for_start key env.now)) _
          (claim_when_queued-IsSound queue_id env.now)
          (λ _.
            bind-Keeps IsSound
              (raise_if (is_wait_cancel request.testcase.status && is_some queue_id) busy) _
              (λ _ s'. s')
              (λ _ db1 s1.
                bind_returns IsSound (choose_slaves env id param ignore request.testcase) _ db1
                  (same-IsSound (choose_slaves-reads env id param ignore request.testcase db1) s1)
                  (λ slaves chosen.
                    start_run-IsSound env param user queue_id ignore request slaves (
                      AreDistinct-chosen env id param ignore request.testcase db1 slaves s1
                        chosen)))))

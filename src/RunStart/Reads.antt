-- ===== src/RunStart/Reads.antt =====
-- The tables after the stages of `_run_testcase_now` that come before its writes
-- (api/app/services/testcase.py).
use pressure_platform.Prelude.{ℕ, ◌≡◌, Option, Bool, List, arith}
use pressure_platform.Store.{Db, Node, TestCase, RunParam}
use pressure_platform.TestcaseRun.{Env, should_queue_run, slave_verdict}
use pressure_platform.RunStart.{Request, check_request, pick_slaves, choose_slaves, prepare_run}

pub check_request-reads :
    (env : Env) (id : ℕ) (param : RunParam) (queue_id : Option ℕ) (db : Db)
    → (check_request env id param queue_id db).1 ≡ db
unfolding check_request
check_request-reads env id param queue_id db = ground arith

pub choose_slaves-reads :
    (env : Env) (id : ℕ) (param : RunParam) (ignore_health : Bool) (t : TestCase) (db : Db)
    → (choose_slaves env id param ignore_health t db).1 ≡ db
unfolding choose_slaves pick_slaves
choose_slaves-reads env id param ignore_health t db = ground arith

pub prepare_run-reads :
    (env : Env) (param : RunParam) (request : Request) (slaves : List Node) (db : Db)
    → (prepare_run env param request slaves db).1 ≡ db
unfolding prepare_run
prepare_run-reads env param request slaves db = ground arith

pub should_queue_run-reads :
    (id : ℕ) (param : RunParam) (allowed : Option ℕ) (db : Db)
    → (should_queue_run id param allowed db).1 ≡ db
unfolding should_queue_run slave_verdict
should_queue_run-reads id param allowed db = ground arith

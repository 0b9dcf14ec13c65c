-- ===== src/System/Histories.antt =====
-- Every history of the services, from tables that keep the invariant: requests, scans of the two
-- background loops, callbacks and restarts, in any order.
use pressure_platform.Prelude.{ℕ, Option}
use pressure_platform.Prelude.Text.{Text}
use pressure_platform.Store.{Db, RunParam, TestCaseStatus, UserContext, LeaseStatus}
use pressure_platform.ExecutionNode.{release_by_report}
use pressure_platform.ExecutionNode.Release.{IsFinal}
use pressure_platform.ExecutionQueue.{cancel_pending_execution}
use pressure_platform.TestcaseRun.{Env}
use pressure_platform.Dispatch.{run_testcase, run_testcase_legacy, dispatch_pending_once}
use pressure_platform.RunEnd.{
  StopEnv, stop_testcase, stop_execution, scan_and_timeout, update_testcase_and_report,
  recover_stuck_tasks,
}
use pressure_platform.System.Sound.{IsSound}
use pressure_platform.System.Leases.{release_by_report-IsSound}
use pressure_platform.System.Steps.{
  cancel-IsSound, run_testcase-IsSound, run_testcase_legacy-IsSound, dispatch_pending_once-IsSound,
}
use pressure_platform.System.Ends.{
  stop_testcase-IsSound, stop_execution-IsSound, scan_and_timeout-IsSound, callback-IsSound,
  recover_stuck_tasks-IsSound,
}

-- One call of a service, whether it returns or raises.
pub data Step : Db → Db → Type 0 where
  run :
      (env : Env) (id : ℕ) (param : RunParam) (user : UserContext) (db : Db)
      → Step db (run_testcase env id param user db).1
  run_legacy :
      (env : Env) (id : ℕ) (user : UserContext) (db : Db)
      → Step db (run_testcase_legacy env id user db).1
  cancel :
      (queue_id : ℕ) (user : UserContext) (now : ℕ) (db : Db)
      → Step db (cancel_pending_execution queue_id user now db).1
  dispatch : (env : Env) (limit : ℕ) (db : Db) → Step db (dispatch_pending_once env limit db).1
  stop_case : (env : StopEnv) (id : ℕ) (db : Db) → Step db (stop_testcase env id db).1
  stop_run : (env : StopEnv) (report_id : ℕ) (db : Db) → Step db (stop_execution env report_id db).1
  time_out : (now : ℕ) (db : Db) → Step db (scan_and_timeout now db).1
  callback :
      (t r : ℕ) (status : TestCaseStatus) (reply : Option Text) (now : ℕ) (db : Db)
      → Step db (update_testcase_and_report t r status reply now db)
  -- the release of the nodes that `jmeter_runner` makes when a process has ended
  release :
      (r : ℕ) (message : Text) (status : LeaseStatus) (now : ℕ) (db : Db)
      → IsFinal status
      → Step db (release_by_report r message status now db).1
  restart : (now : ℕ) (db : Db) → Step db (recover_stuck_tasks now db)

-- Any number of steps.
pub data Reach : Db → Db → Type 0 where
  here : (db : Db) → Reach db db
  next : (a b c : Db) → Reach a b → Step b c → Reach a c

pub Step-IsSound : (a b : Db) → Step a b → IsSound a → IsSound b
Step-IsSound _ _ (run env id param user db) s = run_testcase-IsSound env id param user db s
Step-IsSound _ _ (run_legacy env id user db) s = run_testcase_legacy-IsSound env id user db s
Step-IsSound _ _ (cancel k user now db) s = cancel-IsSound k user now db s
Step-IsSound _ _ (dispatch env limit db) s = dispatch_pending_once-IsSound env limit db s
Step-IsSound _ _ (stop_case env id db) s = stop_testcase-IsSound env id db s
Step-IsSound _ _ (stop_run env r db) s = stop_execution-IsSound env r db s
Step-IsSound _ _ (time_out now db) s = scan_and_timeout-IsSound now db s
Step-IsSound _ _ (callback t r status reply now db) s = callback-IsSound t r status reply now db s
Step-IsSound _ _ (release r message status now db final) s =
    release_by_report-IsSound r message status now final db s
Step-IsSound _ _ (restart now db) s = recover_stuck_tasks-IsSound now db s

-- In every history that starts from tables with one active entry of the queue at most for a test
-- case in a region, one active lease at most for a node and distinct keys, the tables stay so,
-- whatever the calls return or raise, in whichever order they come.
pub Reach-IsSound : (a b : Db) → Reach a b → IsSound a → IsSound b
Reach-IsSound _ _ (here db) s = s
Reach-IsSound _ _ (next a b c before step) s = Step-IsSound b c step (Reach-IsSound a b before s)

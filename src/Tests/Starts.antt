-- ===== src/Tests/Starts.antt =====
-- Starting runs on concrete tables (api/app/services/testcase.py), and a history of the platform.
use pressure_platform.Prelude.{ℕ, ◌≡◌, refl, true, false, none, some, [], ◌∷◌, All, ◌==◌}
use mathlib.Core.Option
use pressure_platform.Store.{Db, TestCaseStatus, err}
use pressure_platform.ExecutionNode.{lease_nodes}
use pressure_platform.ExecutionNode.Release.{held_by}
use pressure_platform.ExecutionQueue.{get_by_report_id, stop_queue}
use pressure_platform.RunParams.{
  prepare_thread_group_overrides, validate_thread_group_overrides, validate_thread_group_pacing,
}
use pressure_platform.RunStart.{
  Request, prepare_run, record_run, take_leases, launch_run, start_run, msg_launch_failed,
}
use pressure_platform.RunStart.Outcomes.{IsStarted, start_run-returns, launch_run-fails}
use pressure_platform.Dispatch.{run_testcase, dispatch_pending_once}
use pressure_platform.System.Sound.{IsSound}
use pressure_platform.System.Histories.{Step, Reach, Reach-IsSound}
use pressure_platform.Tests.Samples.{
  user, param, env, env_broken, no_process, case_with, node, idle, idle-IsSound, running,
}

abbrev request : Request
request = record { testcase = case_with TestCaseStatus.not_run; total_threads = 10 }

start_run-returns_example :
    (total_threads : ℕ) × IsStarted env param user request
      (node 1 ∷ [])
      total_threads
      1
      idle
      (start_run env param user none false request (node 1 ∷ []) idle).1
unfolding start_run prepare_run record_run take_leases launch_run lease_nodes
    prepare_thread_group_overrides validate_thread_group_overrides validate_thread_group_pacing
start_run-returns_example =
    start_run-returns env param user none false request (node 1 ∷ []) 1 idle refl

launch_run-fails_example :
    let (result, after) = launch_run env_broken user (some 1) 1 1 running in
    (result ≡ err no_process)
    × All (λ x. (x.id == 1) ≡ true → x.status ≡ TestCaseStatus.run_failed) after.reports
    × (held_by 1 after.leases ≡ 0)
    × (get_by_report_id 1 after
        ≡ Option.map (stop_queue msg_launch_failed 200) (get_by_report_id 1 running))
launch_run-fails_example = launch_run-fails env_broken user 1 1 1 no_process running refl

-- A request on an idle platform, and a scan of the dispatcher after it.
abbrev requested : Db
requested = (run_testcase env 1 param user idle).1

Reach-IsSound_example : IsSound (dispatch_pending_once env 10 requested).1
Reach-IsSound_example =
    Reach-IsSound idle (dispatch_pending_once env 10 requested).1
      (Reach.next idle requested (dispatch_pending_once env 10 requested).1
        (Reach.next idle idle requested (Reach.here idle) (Step.run env 1 param user idle))
        (Step.dispatch env 10 requested))
      idle-IsSound

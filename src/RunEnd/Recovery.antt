-- ===== src/RunEnd/Recovery.antt =====
-- What the recovery at startup leaves of the runs before the restart (api/app/main.py).
use pressure_platform.Prelude.{
  ℕ, ◌≡◌, refl, Bool, true, false, List, [], ◌∷◌, arith, update_where, count_where,
}
use pressure_platform.Store.{Db, ExecutionQueue, is_run_ing}
use pressure_platform.ExecutionNode
use pressure_platform.ExecutionNode.{mark_active_lost}
use pressure_platform.ExecutionNode.Release.{mark_active_lost_lem}
use pressure_platform.ExecutionQueue.{is_started, is_pending}
use pressure_platform.RunEnd.{recover_stuck_tasks, end_all, msg_lease_restarted}

abbrev pub running_reports_count : Db → ℕ
running_reports_count db = count_where (λ r. is_run_ing r.status) db.reports

abbrev pub running_testcases_count : Db → ℕ
running_testcases_count db = count_where (λ t. is_run_ing t.status) db.testcases

abbrev pub started_queues_count : Db → ℕ
started_queues_count db = count_where (λ q. is_started q.status) db.queues

abbrev pub pending_queues_count : Db → ℕ
pending_queues_count db = count_where (λ q. is_pending q.status) db.queues

module _ {ℓ} {A : Type ℓ} (p : A → Bool) (f : A → A) where
  count_where-update_none :
      (xs : List A) → ((x : A) → p (f x) ≡ false) → count_where p (update_where p f xs) ≡ 0
  count_where-update_none [] h = refl
  count_where-update_none (x ∷ xs) h = ground (arith, h x, count_where-update_none xs h)

  count_where-update_apart :
      (a : A → Bool) (xs : List A)
      → ((x : A) → a (f x) ≡ false)
      → ((x : A) → p x ≡ true → a x ≡ false)
      → count_where a (update_where p f xs) ≡ count_where a xs
  count_where-update_apart a [] h g = refl
  count_where-update_apart a (x ∷ xs) h g =
      ground (arith, h x, g x, count_where-update_apart a xs h g)

lost-tables :
    (now : ℕ) (db : Db)
    → let after = (mark_active_lost msg_lease_restarted now db).1 in
      (after.reports ≡ db.reports) × (after.testcases ≡ db.testcases) × (after.queues ≡ db.queues)
unfolding mark_active_lost
lost-tables now db = ground arith

started-not_pending :
    (q : ExecutionQueue) → is_started q.status ≡ true → is_pending q.status ≡ false
started-not_pending q h = ground arith

-- After the recovery at startup no report, no test case and no lease is active and no entry of the
-- queue is in the middle of a run, while as many entries wait for their turn as before.
pub recover_stuck_tasks_lem :
    (now : ℕ) (db : Db)
    → let after = recover_stuck_tasks now db in
      (running_reports_count after ≡ 0)
      × (running_testcases_count after ≡ 0)
      × (started_queues_count after ≡ 0)
      × (count_where ExecutionNode.is_active after.leases ≡ 0)
      × (pending_queues_count after ≡ pending_queues_count db)
unfolding recover_stuck_tasks
recover_stuck_tasks_lem now db =
    let (r, t, q) = lost-tables now (end_all db) in
    (
      rw r (count_where-update_none (λ r. is_run_ing r.status) _ db.reports (λ x. refl)),
      rw t (count_where-update_none (λ t. is_run_ing t.status) _ db.testcases (λ x. refl)),
      rw q (count_where-update_none (λ q. is_started q.status) _ db.queues (λ x. refl)),
      (mark_active_lost_lem msg_lease_restarted now (end_all db)).1,
      rw q (
          count_where-update_apart (λ q. is_started q.status) _ (λ q. is_pending q.status) db.queues
            (λ x. refl) started-not_pending),
    )

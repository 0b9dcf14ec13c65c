-- ===== src/System/Leases.antt =====
-- Leasing and releasing under the invariant of the tables (api/app/services/execution_node.py).
use pressure_platform.Prelude.{
  ℕ, zero, suc, ◌≤◌, ◌≡◌, Bool, true, ◌&&◌, List, [], ◌∷◌, arith, ◌==◌, keep, take, count_where,
  count_where-update_le,
}
use pressure_platform.Prelude.Text.{Text}
use pressure_platform.Store.{Db, Node, ExecutionNode, LeaseStatus, Keeps}
use pressure_platform.ExecutionNode.{
  is_active, is_held_by, is_enable_slave, region_matches, available_test, list_enable_slaves,
  list_available_slaves, lease_nodes, release_by_report, mark_active_lost, close_lease,
}
use pressure_platform.ExecutionNode.Exclusive.{AreDistinct, lease_nodes-IsExclusive}
use pressure_platform.ExecutionNode.Release.{IsFinal}
use pressure_platform.System.Sound.{IsSound, IsSound-of_leases}

module _ {ℓ} {A : Type ℓ} (a p : A → Bool) where
  count-keep_le : (xs : List A) → count_where a (keep p xs) ≤ count_where a xs
  count-keep_le [] = omega arith
  count-keep_le (x ∷ xs) = ground (arith, count-keep_le xs)

module _ {ℓ} {A : Type ℓ} (a : A → Bool) where
  count-take_le : (n : ℕ) (xs : List A) → count_where a (take n xs) ≤ count_where a xs
  count-take_le zero xs = omega arith
  count-take_le (suc n) [] = omega arith
  count-take_le (suc n) (x ∷ xs) = omega (arith, count-take_le n xs)

pub AreDistinct-take : (n : ℕ) (nodes : List Node) → AreDistinct nodes → AreDistinct (take n nodes)
AreDistinct-take n nodes h k = omega (arith, h k, count-take_le (λ m. m.id == k) n nodes)

AreDistinct-keep :
    (p : Node → Bool) (nodes : List Node) → AreDistinct nodes → AreDistinct (keep p nodes)
AreDistinct-keep p nodes h k = omega (arith, h k, count-keep_le (λ m. m.id == k) p nodes)

AreDistinct-enabled :
    (region : Text) (db : Db) → AreDistinct db.nodes → AreDistinct (list_enable_slaves region db)
unfolding list_enable_slaves
AreDistinct-enabled [] db h = AreDistinct-keep is_enable_slave db.nodes h
AreDistinct-enabled (c ∷ region) db h =
    AreDistinct-keep (λ n. region_matches n.region (c ∷ region)) (keep is_enable_slave db.nodes)
      (AreDistinct-keep is_enable_slave db.nodes h)

-- No node is offered twice.
pub AreDistinct-available :
    (region : Text) (ignore_health : Bool) (db : Db)
    → AreDistinct db.nodes
    → AreDistinct (list_available_slaves region ignore_health db)
unfolding list_available_slaves
AreDistinct-available region ignore_health db h =
    AreDistinct-keep (available_test ignore_health db) (list_enable_slaves region db)
      (AreDistinct-enabled region db h)

lease_nodes-tables :
    (r t : ℕ) (nodes : List Node) (region : Text) (now : ℕ) (db : Db)
    → let after = (lease_nodes r t nodes region now db).1 in
      (after.queues ≡ db.queues)
      × (after.next_queue_id ≡ db.next_queue_id)
      × (after.nodes ≡ db.nodes)
unfolding lease_nodes
lease_nodes-tables r t nodes region now db = ground arith

pub lease_nodes-IsSound :
    (r t : ℕ) (nodes : List Node) (region : Text) (now : ℕ)
    → AreDistinct nodes
    → Keeps IsSound (lease_nodes r t nodes region now)
lease_nodes-IsSound r t nodes region now distinct db s =
    let (q, n, m) = lease_nodes-tables r t nodes region now db in
    IsSound-of_leases db (lease_nodes r t nodes region now db).1 q n m s
      (lease_nodes-IsExclusive r t nodes region now db s.leases distinct)

close_idle :
    (status : LeaseStatus) (message : Text) (now n : ℕ) (l : ExecutionNode)
    → IsFinal status
    → ((close_lease status message now l).node_id == n
        && is_active (close_lease status message now l))
      ≡ true
    → (l.node_id == n && is_active l) ≡ true
close_idle status message now n l final h = ground arith

release_by_report-tables :
    (r : ℕ) (message : Text) (status : LeaseStatus) (now : ℕ) (db : Db)
    → let after = (release_by_report r message status now db).1 in
      (after.queues ≡ db.queues)
      × (after.next_queue_id ≡ db.next_queue_id)
      × (after.nodes ≡ db.nodes)
unfolding release_by_report
release_by_report-tables r message status now db = ground arith

pub release_by_report-IsSound :
    (r : ℕ) (message : Text) (status : LeaseStatus) (now : ℕ)
    → IsFinal status
    → Keeps IsSound (release_by_report r message status now)
unfolding release_by_report
release_by_report-IsSound r message status now final db s =
    let (q, n, m) = release_by_report-tables r message status now db in
    IsSound-of_leases db (release_by_report r message status now db).1 q n m s (λ k. ground (
      arith,
      s.leases k,
      count_where-update_le (is_held_by r) (λ l. l.node_id == k && is_active l)
          (close_lease status message now) db.leases (λ l. close_idle status message now k l final),
    ))

mark_active_lost-tables :
    (message : Text) (now : ℕ) (db : Db)
    → let after = (mark_active_lost message now db).1 in
      (after.queues ≡ db.queues)
      × (after.next_queue_id ≡ db.next_queue_id)
      × (after.nodes ≡ db.nodes)
unfolding mark_active_lost
mark_active_lost-tables message now db = ground arith

pub mark_active_lost-IsSound :
    (message : Text) (now : ℕ) → Keeps IsSound (mark_active_lost message now)
unfolding mark_active_lost
mark_active_lost-IsSound message now db s =
    let (q, n, m) = mark_active_lost-tables message now db in
    IsSound-of_leases db (mark_active_lost message now db).1 q n m s (λ k. ground (
      arith,
      s.leases k,
      count_where-update_le is_active (λ l. l.node_id == k && is_active l)
          (close_lease LeaseStatus.lost message now) db.leases
          (λ l. close_idle LeaseStatus.lost message now k l (λ e. cc)),
    ))

-- ===== src/ExecutionNode/Available.antt =====
-- `list_available_slaves` against the lease table (api/app/services/execution_node.py).
use pressure_platform.Prelude.{
  ℕ, ◌≡◌, ◌≢◌, refl, Bool, true, false, not, ◌&&◌, ◌||◌, List, [], ◌∷◌, map, take, arith, ◌==◌,
  keep, is_nil, elem, All, All-keep, keep-All, All-map, All-take, ◌++◌, sym,
}
use mathlib.Core.List.{append-nil}
use pressure_platform.Prelude.Text.{Text}
use pressure_platform.Store.{Db, Node, ExecutionNode, ok}
use pressure_platform.ExecutionNode.{
  available_test, is_active, is_enable_slave, leased_among, active_node_ids, list_enable_slaves,
  region_matches, new_leases, list_available_slaves, lease_nodes,
}

-- What a node must be to be offered.
pub record IsOffered (ignore_health : Bool) (db : Db) (n : Node) : Type 0 where
  pub enabled : is_enable_slave n ≡ true
  pub unleased : elem n.id (active_node_ids db) ≡ false
  pub healthy : (ignore_health || n.health_status == 1) ≡ true

offers :
    (ignore_health : Bool) (db : Db) (n : Node)
    → is_enable_slave n ≡ true
    → (not (elem n.id (active_node_ids db)) && (ignore_health || n.health_status == 1)) ≡ true
    → IsOffered ignore_health db n
offers ignore_health db n e h = record {
  enabled = e;
  unleased = ground arith;
  healthy = ground arith;
}

list_enable_slaves-All :
    (region : Text) (db : Db) → All (λ n. is_enable_slave n ≡ true) (list_enable_slaves region db)
unfolding list_enable_slaves
list_enable_slaves-All [] db = keep-All is_enable_slave db.nodes
list_enable_slaves-All (c ∷ region) db =
    All-keep _ (λ n. region_matches n.region (c ∷ region)) (keep is_enable_slave db.nodes)
      (keep-All is_enable_slave db.nodes)

All-both {ℓ κ μ} :
    {A : Type ℓ} (P : A → Type κ) (Q : A → Type μ) (xs : List A)
    → All P xs
    → All Q xs
    → All (λ x. P x × Q x) xs
All-both P Q [] hp hq = tt
All-both P Q (x ∷ xs) hp hq = ((hp.0, hq.0), All-both P Q xs hp.1 hq.1)

-- Every node that is offered is an enabled slave, is leased by nobody, and is healthy unless the
-- caller ignores health.
pub list_available_slaves-IsOffered :
    (region : Text) (ignore_health : Bool) (db : Db)
    → All (IsOffered ignore_health db) (list_available_slaves region ignore_health db)
unfolding list_available_slaves
list_available_slaves-IsOffered region ignore_health db =
    All-map _ _ _ (λ n h. offers ignore_health db n h.0 h.1)
      (All-both _ _ _
        (All-keep _ (available_test ignore_health db) (list_enable_slaves region db)
          (list_enable_slaves-All region db))
        (keep-All (available_test ignore_health db) (list_enable_slaves region db)))

-- An active lease on a node with a key shows up in `active_node_ids`.
elem-leased_among :
    (k : ℕ) (ids : List ℕ) (leases : List ExecutionNode)
    → k ≢ 0
    → elem k (map (λ l. l.node_id) (keep (λ l. is_active l && not (l.node_id == 0)) leases)) ≡ false
    → elem k (map (λ l. l.node_id) (keep (λ l. elem l.node_id ids && is_active l) leases)) ≡ false
elem-leased_among k ids [] pos h = refl
elem-leased_among k ids (l ∷ leases) pos h = ground (arith, elem-leased_among k ids leases pos)

no_conflicts :
    (ids : List ℕ) (ignore_health : Bool) (db : Db) (nodes : List Node)
    → All (λ n. n.id ≢ 0) nodes
    → All (IsOffered ignore_health db) nodes
    → is_nil (keep (λ n. elem n.id (leased_among ids db)) nodes) ≡ true
unfolding active_node_ids
no_conflicts ids ignore_health db [] keys h = refl
no_conflicts ids ignore_health db (n ∷ nodes) keys h = ground (
  arith,
  elem-leased_among n.id ids db.leases keys.0 h.0.unleased,
  no_conflicts ids ignore_health db nodes keys.1 h.1,
)

lease_nodes-offered :
    (region : Text) (ignore_health : Bool) (r t now : ℕ) (db : Db) (nodes : List Node)
    → All (λ n. n.id ≢ 0) nodes
    → All (IsOffered ignore_health db) nodes
    → ((lease_nodes r t nodes region now db).0
        ≡ ok (new_leases db.next_lease_id r t nodes region now))
      × ((lease_nodes r t nodes region now db).1.leases
          ≡ db.leases ++ new_leases db.next_lease_id r t nodes region now)
unfolding lease_nodes
lease_nodes-offered region ignore_health r t now db [] keys h = (refl, sym (append-nil db.leases))
lease_nodes-offered region ignore_health r t now db (n ∷ nodes) keys h =
    let ids = map (λ m. m.id) (n ∷ nodes) in
    let free = no_conflicts ids ignore_health db (n ∷ nodes) keys h in rw free (refl, refl)

list_enable_slaves-keys :
    (region : Text) (db : Db)
    → All (λ n. n.id ≢ 0) db.nodes
    → All (λ n. n.id ≢ 0) (list_enable_slaves region db)
unfolding list_enable_slaves
list_enable_slaves-keys [] db keys = All-keep _ is_enable_slave db.nodes keys
list_enable_slaves-keys (c ∷ region) db keys =
    All-keep _ (λ n. region_matches n.region (c ∷ region)) (keep is_enable_slave db.nodes)
      (All-keep _ is_enable_slave db.nodes keys)

list_available_slaves-keys :
    (region : Text) (ignore_health : Bool) (db : Db)
    → All (λ n. n.id ≢ 0) db.nodes
    → All (λ n. n.id ≢ 0) (list_available_slaves region ignore_health db)
unfolding list_available_slaves
list_available_slaves-keys region ignore_health db keys =
    All-keep _ (available_test ignore_health db) (list_enable_slaves region db)
      (list_enable_slaves-keys region db keys)

-- The nodes that are offered can be leased: if every node of the table has a key other than 0, the
-- first `k` nodes of an offer are granted, whatever `k`, and the lease table grows by their leases.
pub lease_nodes-list_available_slaves :
    (region : Text) (ignore_health : Bool) (k r t now : ℕ) (db : Db)
    → All (λ n. n.id ≢ 0) db.nodes
    → let nodes = take k (list_available_slaves region ignore_health db) in
      ((lease_nodes r t nodes region now db).0
        ≡ ok (new_leases db.next_lease_id r t nodes region now))
      × ((lease_nodes r t nodes region now db).1.leases
          ≡ db.leases ++ new_leases db.next_lease_id r t nodes region now)
lease_nodes-list_available_slaves region ignore_health k r t now db keys =
    lease_nodes-offered region ignore_health r t now db
      (take k (list_available_slaves region ignore_health db))
      (All-take _ k _ (list_available_slaves-keys region ignore_health db keys))
      (All-take _ k _ (list_available_slaves-IsOffered region ignore_health db))

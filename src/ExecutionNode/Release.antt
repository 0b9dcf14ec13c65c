-- ===== src/ExecutionNode/Release.antt =====
-- What the release operations of api/app/services/execution_node.py leave behind.
use pressure_platform.Prelude.{
  ℕ, suc, ◌≡◌, ◌≢◌, refl, false, not, ◌&&◌, List, [], ◌∷◌, ◌++◌, map, arith, ◌==◌, length, keep,
  update_where, count_where, count_where-append, length-keep, is_nil-eq-length, update_where-append,
  ◌∙◌, length-update_where,
}
use mathlib.Core.List.{append-nil}
use pressure_platform.Prelude.Text.{Text}
use pressure_platform.Store.{Db, Node, ExecutionNode, LeaseStatus, ok}
use pressure_platform.ExecutionNode.{
  is_active, is_held_by, new_lease, close_lease, new_leases, add_leases, active_node_ids,
  lease_nodes, release_by_report, mark_active_lost,
}

-- How many active leases a report has.
abbrev pub held_by : ℕ → List ExecutionNode → ℕ
held_by report_id = count_where (is_held_by report_id)

-- A status that ends a lease.
abbrev pub IsFinal : LeaseStatus → Type 0
IsFinal status = status ≢ LeaseStatus.leased

is_active-close :
    (status : LeaseStatus) (message : Text) (now : ℕ) (l : ExecutionNode)
    → IsFinal status
    → is_active (close_lease status message now l) ≡ false
is_active-close status message now l final = ground arith

held_by-close_self :
    (r : ℕ) (status : LeaseStatus) (message : Text) (now : ℕ) (leases : List ExecutionNode)
    → IsFinal status
    → held_by r (update_where (is_held_by r) (close_lease status message now) leases) ≡ 0
held_by-close_self r status message now [] final = refl
held_by-close_self r status message now (l ∷ leases) final = ground (
  arith,
  is_active-close status message now l final,
  held_by-close_self r status message now leases final,
)

held_by-close_other :
    (r other : ℕ) (status : LeaseStatus) (message : Text) (now : ℕ) (leases : List ExecutionNode)
    → other ≢ r
    → held_by other (update_where (is_held_by r) (close_lease status message now) leases)
      ≡ held_by other leases
held_by-close_other r other status message now [] ne = refl
held_by-close_other r other status message now (l ∷ leases) ne =
    ground (arith, held_by-close_other r other status message now leases ne)

-- A release with a final status leaves the report without an active lease, returns how many it
-- had, and changes the number of no other report.
pub release_by_report_lem :
    (r other : ℕ) (message : Text) (status : LeaseStatus) (now : ℕ) (db : Db)
    → IsFinal status
    → other ≢ r
    → let (result, after) = release_by_report r message status now db in
      (result ≡ ok (held_by r db.leases))
      × (held_by r after.leases ≡ 0)
      × (held_by other after.leases ≡ held_by other db.leases)
unfolding release_by_report
release_by_report_lem r other message status now db final ne = ground (
  arith,
  is_nil-eq-length (keep (is_held_by r) db.leases),
  length-keep (is_held_by r) db.leases,
  held_by-close_self r status message now db.leases final,
  held_by-close_other r other status message now db.leases ne,
)

no_active-lost :
    (message : Text) (now : ℕ) (leases : List ExecutionNode)
    → count_where is_active
        (update_where is_active (close_lease LeaseStatus.lost message now) leases)
      ≡ 0
no_active-lost message now [] = refl
no_active-lost message now (l ∷ leases) = ground (arith, no_active-lost message now leases)

-- After the recovery at startup no lease is active, and no lease is gone from the table; the call
-- returns how many were active.
pub mark_active_lost_lem :
    (message : Text) (now : ℕ) (db : Db)
    → let (result, after) = mark_active_lost message now db in
      (result ≡ ok (count_where is_active db.leases))
      × (count_where is_active after.leases ≡ 0)
      × (length after.leases ≡ length db.leases)
unfolding mark_active_lost
mark_active_lost_lem message now db = ground (
  arith,
  is_nil-eq-length (keep is_active db.leases),
  length-keep is_active db.leases,
  no_active-lost message now db.leases,
  length-update_where is_active (close_lease LeaseStatus.lost message now) db.leases,
)

-- The ids that `active_node_ids` reads off a table of leases.
abbrev active_ids : List ExecutionNode → List ℕ
active_ids leases = map (λ l. l.node_id) (keep (λ l. is_active l && not (l.node_id == 0)) leases)

close-idle :
    (r : ℕ) (status : LeaseStatus) (message : Text) (now : ℕ) (leases : List ExecutionNode)
    → held_by r leases ≡ 0
    → update_where (is_held_by r) (close_lease status message now) leases ≡ leases
close-idle r status message now [] idle = refl
close-idle r status message now (l ∷ leases) idle =
    ground (arith, close-idle r status message now leases)

active_ids-append :
    (xs ys : List ExecutionNode) → active_ids (xs ++ ys) ≡ active_ids xs ++ active_ids ys
active_ids-append [] ys = refl
active_ids-append (x ∷ xs) ys = ground (arith, active_ids-append xs ys)

active_ids-close_new :
    (r key t : ℕ) (nodes : List Node) (region : Text) (leased_at now : ℕ) (status : LeaseStatus)
    (message : Text)
    → IsFinal status
    → active_ids (
        update_where
          (is_held_by r)
          (close_lease status message now)
          (new_leases key r t nodes region leased_at))
      ≡ []
active_ids-close_new r key t [] region at now status message final = refl
active_ids-close_new r key t (n ∷ nodes) region at now status message final = ground (
  arith,
  is_active-close status message now (new_lease key r t n region at) final,
  active_ids-close_new r (suc key) t nodes region at now status message final,
)

held_by-new_leases :
    (r key t : ℕ) (nodes : List Node) (region : Text) (now : ℕ)
    → held_by r (new_leases key r t nodes region now) ≡ length nodes
held_by-new_leases r key t [] region now = refl
held_by-new_leases r key t (n ∷ nodes) region now =
    ground (arith, held_by-new_leases r (suc key) t nodes region now)

module _ (r t : ℕ) (nodes : List Node) (region : Text) (leased_at now : ℕ) (status : LeaseStatus)
    (message : Text) (db : Db) (final : IsFinal status) (idle : held_by r db.leases ≡ 0) where
  abbrev added : Db
  added = add_leases r t nodes region leased_at db

  held_by-added : held_by r added.leases ≡ length nodes
  held_by-added = omega (
    arith,
    idle,
    count_where-append (is_held_by r) db.leases
        (new_leases db.next_lease_id r t nodes region leased_at),
    held_by-new_leases r db.next_lease_id t nodes region leased_at,
  )

  abbrev closed : List ExecutionNode
  closed = update_where (is_held_by r) (close_lease status message now) added.leases

  active_ids-closed : active_ids closed ≡ active_ids db.leases
  active_ids-closed = cc (
    update_where-append (is_held_by r) (close_lease status message now) db.leases
        (new_leases db.next_lease_id r t nodes region leased_at),
    close-idle r status message now db.leases idle,
    active_ids-append db.leases (
        update_where (is_held_by r) (close_lease status message now)
          (new_leases db.next_lease_id r t nodes region leased_at)),
    active_ids-close_new r db.next_lease_id t nodes region leased_at now status message final,
    append-nil (active_ids db.leases),
  )

  active_ids-added_none : length nodes ≡ 0 → active_ids added.leases ≡ active_ids db.leases
  active_ids-added_none none =
      cc (close-idle r status message now added.leases (held_by-added ∙ none), active_ids-closed)

  release-added :
      let (result, after) = release_by_report r message status now added in
      (result ≡ ok (length nodes)) × (active_node_ids after ≡ active_node_ids db)
  unfolding release_by_report active_node_ids
  release-added = ground (
    arith,
    is_nil-eq-length (keep (is_held_by r) added.leases),
    length-keep (is_held_by r) added.leases,
    held_by-added,
    active_ids-closed,
    active_ids-added_none,
  )

lease_nodes-granted :
    (r t : ℕ) (n : Node) (nodes : List Node) (region : Text) (leased_at : ℕ) (db : Db)
    (granted : List ExecutionNode)
    → (lease_nodes r t (n ∷ nodes) region leased_at db).0 ≡ ok granted
    → (lease_nodes r t (n ∷ nodes) region leased_at db).1
      ≡ add_leases r t (n ∷ nodes) region leased_at db
unfolding lease_nodes
lease_nodes-granted r t n nodes region leased_at db granted h = ground arith

-- Leases that a report without active leases is granted are all given back by one release: the
-- release returns their number, and the same nodes are taken as before the two calls.
pub release_by_report-lease_nodes :
    (r t : ℕ) (nodes : List Node) (region : Text) (leased_at now : ℕ) (status : LeaseStatus)
    (message : Text) (db : Db) (granted : List ExecutionNode)
    → IsFinal status
    → held_by r db.leases ≡ 0
    → (lease_nodes r t nodes region leased_at db).0 ≡ ok granted
    → let (result, after) =
        release_by_report r message status now (lease_nodes r t nodes region leased_at db).1 in
      (result ≡ ok (length nodes)) × (active_node_ids after ≡ active_node_ids db)
unfolding lease_nodes release_by_report
release_by_report-lease_nodes r t [] region at now status message db granted final idle h = ground (
  arith,
  idle,
  is_nil-eq-length (keep (is_held_by r) db.leases),
  length-keep (is_held_by r) db.leases,
)
release_by_report-lease_nodes r t (n ∷ nodes) region at now status message db granted final idle h =
    rw (lease_nodes-granted r t n nodes region at db granted h)
      (release-added r t (n ∷ nodes) region at now status message db final idle)

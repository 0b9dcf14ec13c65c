-- ===== src/ExecutionNode/Exclusive.antt =====
-- Mutual exclusion of the leases of `lease_nodes` (api/app/services/execution_node.py).
use pressure_platform.Prelude.{
  ℕ, suc, ◌≤◌, ◌≡◌, refl, true, false, ◌&&◌, List, [], ◌∷◌, map, arith, ◌==◌, keep, leb,
  count_where, is_nil, elem, count_where-append, Bool-cases, inl, inr,
}
use pressure_platform.Prelude.Text.{Text}
use pressure_platform.Store.{Db, Node, ExecutionNode}
use pressure_platform.ExecutionNode.{is_active, leased_among, new_leases, lease_nodes}

-- How many active leases hold a node.
abbrev pub holders : ℕ → List ExecutionNode → ℕ
holders n = count_where (λ l. l.node_id == n && is_active l)

-- How often a node id stands in a list of nodes.
abbrev pub occurrences : ℕ → List Node → ℕ
occurrences n = count_where (λ m. m.id == n)

abbrev pub IsExclusive : Db → Type 0
IsExclusive db = (n : ℕ) → holders n db.leases ≤ 1

abbrev pub AreDistinct : List Node → Type 0
AreDistinct nodes = (n : ℕ) → occurrences n nodes ≤ 1

pub holders-new_leases :
    (n key report_id test_case_id : ℕ) (nodes : List Node) (region : Text) (now : ℕ)
    → holders n (new_leases key report_id test_case_id nodes region now) ≡ occurrences n nodes
holders-new_leases n key r t [] region now = refl
holders-new_leases n key r t (m ∷ nodes) region now =
    ground (arith, holders-new_leases n (suc key) r t nodes region now)

elem-ids :
    (n : ℕ) (nodes : List Node) → 1 ≤ occurrences n nodes → elem n (map (λ m. m.id) nodes) ≡ true
elem-ids n [] h = absurd (omega arith)
elem-ids n (m ∷ nodes) h = ground (arith, elem-ids n nodes)

elem-held :
    (n : ℕ) (ids : List ℕ) (leases : List ExecutionNode)
    → elem n ids ≡ true
    → 1 ≤ holders n leases
    → elem n (map (λ l. l.node_id) (keep (λ l. elem l.node_id ids && is_active l) leases)) ≡ true
elem-held n ids [] known h = absurd (omega arith)
elem-held n ids (l ∷ leases) known h = ground (arith, elem-held n ids leases known)

has_conflict :
    (n : ℕ) (leased : List ℕ) (nodes : List Node)
    → elem n leased ≡ true
    → 1 ≤ occurrences n nodes
    → is_nil (keep (λ m. elem m.id leased) nodes) ≡ false
has_conflict n leased [] known h = absurd (omega arith)
has_conflict n leased (m ∷ nodes) known h = ground (arith, has_conflict n leased nodes known)

-- A list without conflicts names only nodes that no active lease holds.
pub no_conflict_free :
    (n : ℕ) (nodes : List Node) (db : Db)
    → is_nil (keep (λ m. elem m.id (leased_among (map (λ m. m.id) nodes) db)) nodes) ≡ true
    → 1 ≤ occurrences n nodes
    → holders n db.leases ≡ 0
no_conflict_free n nodes db free h = elim (Bool-cases (leb 1 (holders n db.leases))) [
  | inl held ↦ ground (
    arith,
    elem-ids n nodes h,
    elem-held n (map (λ m. m.id) nodes) db.leases,
    has_conflict n (leased_among (map (λ m. m.id) nodes) db) nodes,
  )
  | inr idle ↦ ground arith
]

-- Whatever the outcome, leasing distinct nodes keeps every node with one active lease at most.
pub lease_nodes-IsExclusive :
    (report_id test_case_id : ℕ) (nodes : List Node) (region : Text) (now : ℕ) (db : Db)
    → IsExclusive db
    → AreDistinct nodes
    → IsExclusive (lease_nodes report_id test_case_id nodes region now db).1
unfolding lease_nodes
lease_nodes-IsExclusive r t nodes region now db ex distinct n = ground (
  arith,
  ex n,
  distinct n,
  no_conflict_free n nodes db,
  holders-new_leases n db.next_lease_id r t nodes region now,
  count_where-append (λ l. l.node_id == n && is_active l) db.leases
      (new_leases db.next_lease_id r t nodes region now),
)

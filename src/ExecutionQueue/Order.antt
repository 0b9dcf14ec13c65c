-- ===== src/ExecutionQueue/Order.antt =====
-- The entries that the dispatcher is given, and their order (`list_pending`,
-- api/app/crud/execution_queue.py).
use pressure_platform.Prelude.{
  ℕ, zero, suc, ◌≡◌, inl, inr, true, false, List, [], ◌∷◌, arith, min, keep, take, drop, ◌++◌, not,
  All-map, All-insert_by, All-sort_by, length-sort_by, Perm-sort_by, Perm-keep, take-drop, length,
  count_where, All, keep-All, length-keep, insert_by, sort_by, Bool-cases,
}
use mathlib.Core.List.Perm
use mathlib.Core.List.{Perm}
use pressure_platform.Store.{Db, ExecutionQueue}
use pressure_platform.ExecutionQueue.{is_pending, enqueued_before, list_pending}

-- Each entry comes before the next by the time of its enqueuing, and by its key at one time.
abbrev pub IsFifo : List ExecutionQueue → Type 0
IsFifo [] = Unit
IsFifo (q ∷ qs) = All (λ later. enqueued_before q later ≡ true) qs × IsFifo qs

before_trans :
    (a b c : ExecutionQueue)
    → enqueued_before a b ≡ true
    → enqueued_before b c ≡ true
    → enqueued_before a c ≡ true
before_trans a b c h g = ground arith

before_total : (a b : ExecutionQueue) → enqueued_before a b ≡ false → enqueued_before b a ≡ true
before_total a b h = ground arith

All-before :
    (a b : ExecutionQueue) (qs : List ExecutionQueue)
    → enqueued_before a b ≡ true
    → All (λ later. enqueued_before b later ≡ true) qs
    → All (λ later. enqueued_before a later ≡ true) qs
All-before a b [] h g = tt
All-before a b (q ∷ qs) h g = (before_trans a b q h g.0, All-before a b qs h g.1)

IsFifo-insert_by :
    (q : ExecutionQueue) (qs : List ExecutionQueue)
    → IsFifo qs
    → IsFifo (insert_by enqueued_before q qs)
IsFifo-insert_by q [] h = (tt, tt)
IsFifo-insert_by q (x ∷ xs) h = elim (Bool-cases (enqueued_before q x)) [
  | inl e ↦ rw e ((e, All-before q x xs e h.0), h)
  | inr e ↦ rw e (
    All-insert_by enqueued_before (λ later. enqueued_before x later ≡ true) q xs
        (before_total q x e) h.0,
    IsFifo-insert_by q xs h.1,
  )
]

IsFifo-sort_by : (qs : List ExecutionQueue) → IsFifo (sort_by enqueued_before qs)
IsFifo-sort_by [] = tt
IsFifo-sort_by (q ∷ qs) = IsFifo-insert_by q (sort_by enqueued_before qs) (IsFifo-sort_by qs)

length-take : (n : ℕ) (qs : List ExecutionQueue) → length (take n qs) ≡ min n (length qs)
length-take zero qs = omega arith
length-take (suc n) [] = omega arith
length-take (suc n) (q ∷ qs) = omega (arith, length-take n qs)

-- The dispatcher is given as many waiting entries as there are up to its limit, the ones enqueued
-- first of all that wait: `later` are the waiting entries that it is not given yet, `others` the
-- entries that do not wait, and together the three are the rows of the table, each as often as
-- there.
pub list_pending-IsFifo :
    (limit : ℕ) (db : Db)
    → (later others : List ExecutionQueue) × Perm
        ((list_pending limit db ++ later) ++ others)
        db.queues
      × All (λ q. is_pending q.status ≡ true) (list_pending limit db ++ later)
      × All (λ q. is_pending q.status ≡ false) others
      × IsFifo (list_pending limit db ++ later)
      × (length (list_pending limit db)
          ≡ min limit (count_where (λ q. is_pending q.status) db.queues))
unfolding list_pending
list_pending-IsFifo limit db =
    let p = λ (q : ExecutionQueue). is_pending q.status in
    let waiting = keep p db.queues in
    let sorted = sort_by enqueued_before waiting in
    let others = keep (λ q. not (p q)) db.queues in
    let whole = take-drop limit sorted in
    (
      drop limit sorted,
      others,
      rw whole (
          Perm.trans (Perm.append_right others (Perm-sort_by enqueued_before waiting))
            (Perm-keep p db.queues)),
      rw whole (All-sort_by enqueued_before (λ q. p q ≡ true) waiting (keep-All p db.queues)),
      All-map _ _ others (λ q h. ground (arith, h)) (keep-All (λ q. not (p q)) db.queues),
      rw whole (IsFifo-sort_by waiting),
      omega (
        arith,
        length-take limit sorted,
        length-sort_by enqueued_before waiting,
        length-keep p db.queues,
      ),
    )

-- ===== src/ExecutionQueue/Cancel.antt =====
-- Starts of an entry that has been cancelled or started before (api/app/services/execution_queue.py,
-- api/app/services/testcase.py).
use pressure_platform.Prelude.{
  ℕ, ◌∙◌, ap, ◌≡◌, refl, inl, inr, true, false, some, arith, ◌==◌, find, update_where, Option-cases,
  Bool-cases, find-update_found,
}
use pressure_platform.Store.{
  Db, ExecutionQueue, Code, Error, UserContext, ok, err, get_queue, set_queue,
}
use pressure_platform.ExecutionQueue.{
  is_pending, claim_queue, cancel_queue, cancel_pending_execution, claim_execution_queue_for_start,
  msg_changed,
}

cancel-returns :
    (k : ℕ) (user : UserContext) (now : ℕ) (db : Db)
    → (cancel_pending_execution k user now db).0 ≡ ok true
    → (q : ExecutionQueue) × (get_queue k db ≡ some q)
      × (is_pending q.status ≡ true)
      × ((cancel_pending_execution k user now db).1.queues
          ≡ update_where (λ x. x.id == k) (cancel_queue user now) db.queues)
unfolding cancel_pending_execution
cancel-returns k user now db h = elim (Option-cases (get_queue k db)) [
  | inl e ↦ absurd (ground (arith, e, h))
  | inr (q, e) ↦ elim (Bool-cases (is_pending q.status)) [
    | inl b ↦ (q, e, b, ground (arith, e, b))
    | inr b ↦ absurd (ground (arith, e, b, h))
  ]
]

claim-ended :
    (k now : ℕ) (q : ExecutionQueue) (db : Db)
    → get_queue k db ≡ some q
    → is_pending q.status ≡ false
    → claim_execution_queue_for_start k now db
      ≡ (err (Error.mysterious Code.fail (some msg_changed)), db)
unfolding claim_execution_queue_for_start
claim-ended k now q db found ended = ground (arith, found, ended)

-- After a cancellation that returned true, claiming the entry for a start raises and changes
-- nothing.
pub claim_execution_queue_for_start-cancel_pending_execution :
    (k : ℕ) (user : UserContext) (now later : ℕ) (db : Db)
    → (cancel_pending_execution k user now db).0 ≡ ok true
    → claim_execution_queue_for_start k later (cancel_pending_execution k user now db).1 ≡ (
      err (Error.mysterious Code.fail (some msg_changed)),
      (cancel_pending_execution k user now db).1,
    )
claim_execution_queue_for_start-cancel_pending_execution k user now later db h =
    let (q, found, waits, after) = cancel-returns k user now db h in
    claim-ended k later (cancel_queue user now q) (cancel_pending_execution k user now db).1
      (ap (find (λ x. x.id == k)) after
        ∙ find-update_found (λ x. x.id == k) (cancel_queue user now) db.queues q (λ x. refl) found)
      refl

claim-queues :
    (k now : ℕ) (db : Db)
    → (claim_execution_queue_for_start k now db).0 ≡ ok tt
    → (q : ExecutionQueue) × (get_queue k db ≡ some q)
      × ((claim_execution_queue_for_start k now db).1 ≡ set_queue k (claim_queue now) db)
unfolding claim_execution_queue_for_start
claim-queues k now db h = elim (Option-cases (get_queue k db)) [
  | inl e ↦ absurd (ground (arith, e, h))
  | inr (q, e) ↦ elim (Bool-cases (is_pending q.status)) [
    | inl b ↦ (q, e, ground (arith, e, b))
    | inr b ↦ absurd (ground (arith, e, b, h))
  ]
]

-- After an entry has been claimed for a start, claiming it once more raises and changes nothing.
pub claim_execution_queue_for_start-twice :
    (k now later : ℕ) (db : Db)
    → (claim_execution_queue_for_start k now db).0 ≡ ok tt
    → claim_execution_queue_for_start k later (claim_execution_queue_for_start k now db).1 ≡ (
      err (Error.mysterious Code.fail (some msg_changed)),
      (claim_execution_queue_for_start k now db).1,
    )
claim_execution_queue_for_start-twice k now later db h =
    let (q, found, after) = claim-queues k now db h in
    claim-ended k later (claim_queue now q) (claim_execution_queue_for_start k now db).1
      (ap (get_queue k) after
        ∙ find-update_found (λ x. x.id == k) (claim_queue now) db.queues q (λ x. refl) found)
      refl

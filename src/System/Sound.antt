-- ===== src/System/Sound.antt =====
-- The invariant of the queue, the leases and the nodes together, and what it reads of the tables.
use pressure_platform.Prelude.{◌≡◌}
use pressure_platform.Store.{Db}
use pressure_platform.ExecutionNode.Exclusive.{IsExclusive, AreDistinct}
use pressure_platform.ExecutionQueue.Single.{IsValid}

-- One active entry at most for a test case in a region, one active lease at most for a node, and no
-- two nodes with one key.
pub record IsSound (db : Db) : Type 0 where
  pub queue : IsValid db
  pub leases : IsExclusive db
  pub nodes : AreDistinct db.nodes

-- The invariant rests on four columns of the tables.
pub IsSound-of_tables :
    (db after : Db)
    → after.queues ≡ db.queues
    → after.next_queue_id ≡ db.next_queue_id
    → after.leases ≡ db.leases
    → after.nodes ≡ db.nodes
    → IsSound db
    → IsSound after
IsSound-of_tables db after q n l m s = record {
  queue = record {
    keys = λ k. rw q (s.queue.keys k);
    fresh = rw (q, n) s.queue.fresh;
    single = λ t r. rw q (s.queue.single t r);
  };
  leases = λ k. rw l (s.leases k);
  nodes = λ k. rw m (s.nodes k);
}

-- A change of the queue alone.
pub IsSound-of_queue :
    (db after : Db)
    → after.leases ≡ db.leases
    → after.nodes ≡ db.nodes
    → IsSound db
    → IsValid after
    → IsSound after
IsSound-of_queue db after l m s v = record {
  queue = v;
  leases = λ k. rw l (s.leases k);
  nodes = λ k. rw m (s.nodes k);
}

-- A change of the leases alone.
pub IsSound-of_leases :
    (db after : Db)
    → after.queues ≡ db.queues
    → after.next_queue_id ≡ db.next_queue_id
    → after.nodes ≡ db.nodes
    → IsSound db
    → IsExclusive after
    → IsSound after
IsSound-of_leases db after q n m s ex = record {
  queue = record {
    keys = λ k. rw q (s.queue.keys k);
    fresh = rw (q, n) s.queue.fresh;
    single = λ t r. rw q (s.queue.single t r);
  };
  leases = ex;
  nodes = λ k. rw m (s.nodes k);
}

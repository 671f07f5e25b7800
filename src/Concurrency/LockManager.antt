-- ===== src/Concurrency/LockManager.antt =====
-- Row locks (src/concurrency/lock_manager.rs).
-- The mutex of a shard makes each stretch of `acquire_lock` between two waits, and each
-- `release_lock`, one step; `acquire_lock` runs up to its first wait and `resume_lock` is one
-- round of the loop after the condition variable woke the thread. Another transaction may do
-- any step in between. The logging is left out.
pub mod Queue
pub mod Counts
pub mod Grant
pub mod Exclusion
pub mod Tables
pub mod Holds
pub mod Notes
use dip_v.Base.{
  ℕ, ◌+◌, ◌-◌, ◌%◌, Bool, true, false, ◌&&◌, List, [], ◌∷◌, ◌++◌, Option, none, some, ◌==◌,
  if◌then◌else◌, Result, ok, panic,
}
use dip_v.Storage.Rid.{Rid, rid_eq}
use dip_v.Concurrency.Transaction.{Transaction, is_aborted, set_insert, set_remove}
use dip_v.Concurrency.LockManager.Queue.{
  LockMode, LockRequest, LockRequestQueue, default, can_grant_lock, grant_lock, remove_request,
  find_granted, make_exclusive, push, give_back,
}

abbrev num_shards : ℕ
num_shards = 64

abbrev pub Table : Type 0
Table = List (Rid × LockRequestQueue)

-- The vector of shards, by index; `get_shard_idx` stays below `num_shards`.
pub record LockManager : Type 0 where
  pub shards : ℕ → Table

-- `LockManager::new`
unfoldable pub new : LockManager
new = record { shards = λ i. [] }

-- `HashMap::get`, `insert` and `remove`
unfoldable pub lookup : Rid → Table → Option LockRequestQueue
lookup rid [] = none
lookup rid ((r, q) ∷ m) = if rid_eq r rid then some q else lookup rid m

unfoldable pub insert : Rid → LockRequestQueue → Table → Table
insert rid q [] = (rid, q) ∷ []
insert rid q ((r, p) ∷ m) = if rid_eq r rid then (rid, q) ∷ m else (r, p) ∷ insert rid q m

unfoldable pub remove : Rid → Table → Table
remove rid [] = []
remove rid ((r, q) ∷ m) = let rest = remove rid m in if rid_eq r rid then rest else (r, q) ∷ rest

-- `acquire_lock` returned a Boolean, or its thread waits on the condition variable.
pub data Answer : Type 0 where
  returned : Bool → Answer
  waiting : Answer

pub record Outcome : Type 0 where
  pub answer : Answer
  pub txn : Transaction
  pub manager : LockManager

-- The last statements of `acquire_lock`: the transaction notes the lock.
unfoldable pub note_lock : Transaction → Rid → LockMode → Transaction
note_lock txn rid LockMode.shared = record txn { shared_locks = set_insert rid txn.shared_locks }
note_lock txn rid LockMode.exclusive = record txn {
  exclusive_locks = set_insert rid txn.exclusive_locks;
}

abbrev pub or_default : Option LockRequestQueue → LockRequestQueue
or_default none = default
or_default (some q) = q

-- `hash` is the standard library's hasher.
module _ (hash : Rid → ℕ) where
  -- `LockManager::get_shard_idx`
  unfoldable pub get_shard_idx : Rid → ℕ
  get_shard_idx rid = hash rid % num_shards

  unfoldable pub queue_at : LockManager → Rid → Option LockRequestQueue
  unfolding get_shard_idx lookup
  queue_at lm rid = lookup rid (lm.shards (get_shard_idx rid))

  -- Writes through the mutable references into the table of a shard.
  unfoldable pub store : LockManager → Rid → LockRequestQueue → LockManager
  unfolding get_shard_idx insert
  store lm rid q =
      let i = get_shard_idx rid in
      record { shards = λ j. if j == i then insert rid q (lm.shards i) else lm.shards j }

  unfoldable pub erase : LockManager → Rid → LockManager
  unfolding get_shard_idx remove
  erase lm rid =
      let i = get_shard_idx rid in
      record { shards = λ j. if j == i then remove rid (lm.shards i) else lm.shards j }

  -- The head of the wait loop, on the queue of the resource.
  unfoldable pub try_grant : LockManager → Transaction → Rid → LockMode → LockRequestQueue → Outcome
  unfolding store note_lock
  try_grant lm txn rid mode q =
      if can_grant_lock q txn.txn_id mode
      then (record {
        answer = returned true;
        txn = note_lock txn rid mode;
        manager = store lm rid (grant_lock q txn.txn_id mode);
      })
      else (record { answer = waiting; txn = txn; manager = store lm rid q })

  -- The re-entrancy check: the transaction holds the lock in the first mode and wants the second.
  unfoldable pub reenter :
      LockManager → Transaction → Rid → LockRequestQueue → LockMode → LockMode → Outcome
  unfolding store
  reenter lm txn rid q LockMode.exclusive mode = record {
    answer = returned true;
    txn = txn;
    manager = lm;
  }
  reenter lm txn rid q LockMode.shared LockMode.shared = record {
    answer = returned true;
    txn = txn;
    manager = lm;
  }
  reenter lm txn rid q LockMode.shared LockMode.exclusive =
      if q.shared_count == 1
      then (record {
        answer = returned true;
        txn = record txn {
          shared_locks = set_remove rid txn.shared_locks;
          exclusive_locks = set_insert rid txn.exclusive_locks;
        };
        manager = store lm rid (record {
          request_queue = make_exclusive q.request_queue txn.txn_id;
          shared_count = q.shared_count - 1;
          exclusive_granted = true;
        });
      })
      else (record { answer = returned false; txn = txn; manager = lm })

  -- `entry(rid).or_insert_with(LockRequestQueue::default)`
  abbrev pub entry : LockManager → Rid → LockRequestQueue
  entry lm rid = or_default (queue_at lm rid)

  -- `LockManager::acquire_lock`, up to its return or its first wait
  unfoldable pub acquire_lock : LockManager → Transaction → Rid → LockMode → Outcome
  unfolding reenter try_grant push
  acquire_lock lm txn rid mode =
      let q = entry lm rid in
      elim (find_granted q.request_queue txn.txn_id) [
        | some existing_req ↦ reenter lm txn rid q existing_req.mode mode
        | none ↦ try_grant lm txn rid mode (push q txn.txn_id mode)
      ]

  -- One round of the wait loop after `condvar.wait` returned; a missing queue panics.
  unfoldable pub resume_lock : LockManager → Transaction → Rid → LockMode → Result Outcome
  unfolding try_grant store
  resume_lock lm txn rid mode = elim (queue_at lm rid) [
    | none ↦ panic
    | some q ↦
        if is_aborted txn
        then ok (record {
          answer = returned false;
          txn = txn;
          manager = store lm rid (remove_request q txn.txn_id);
        })
        else ok (try_grant lm txn rid mode q)
  ]

  -- `table.remove` if the queue is empty
  unfoldable pub store_or_erase : LockManager → Rid → LockRequestQueue → LockManager
  unfolding store erase
  store_or_erase lm rid q = elim q.request_queue [ [] ↦ erase lm rid | _ ∷ _ ↦ store lm rid q ]

  -- The queue side of `release_lock`
  unfoldable pub release_queue : LockManager → ℕ → Rid → LockManager
  unfolding give_back store_or_erase
  release_queue lm txn_id rid = elim (queue_at lm rid) [
    | none ↦ lm
    | some q ↦ elim (find_granted q.request_queue txn_id) [
      | none ↦ lm
      | some req ↦ store_or_erase lm rid (remove_request (give_back q req.mode) txn_id)
    ]
  ]

  -- `LockManager::release_lock`
  unfoldable pub release_lock : LockManager → Transaction → Rid → LockManager × Transaction
  unfolding release_queue
  release_lock lm txn rid = (
    release_queue lm txn.txn_id rid,
    record txn {
      shared_locks = set_remove rid txn.shared_locks;
      exclusive_locks = set_remove rid txn.exclusive_locks;
    },
  )

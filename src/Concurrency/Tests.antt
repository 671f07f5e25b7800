-- ===== src/Concurrency/Tests.antt =====
-- Two transactions that share a lock (src/concurrency).
use dip_v.Base.{◌↔◌, some, ℕ, ◌≡◌, refl, true, false, [], ◌∷◌, arith}
use dip_v.Base.Bytes.{index}
use dip_v.Storage.Rid.{Rid, rid_eq}
use dip_v.Concurrency.Transaction
use dip_v.Concurrency.Transaction.{Transaction, TransactionState, locked, contains, set_insert}
use dip_v.Concurrency.LockManager
use dip_v.Concurrency.LockManager.{
  queue_at, entry, lookup, get_shard_idx, acquire_lock, try_grant, note_lock, store, insert,
}
use dip_v.Concurrency.LockManager.Queue.{
  LockMode, LockRequest, LockRequestQueue, conflicts, first_in_line, can_grant_lock, mark_granted,
  has_request, grant_lock, find_granted, push,
}
use dip_v.Concurrency.LockManager.Counts.{count_txn, count_shared, count_exclusive, granted_first}
use dip_v.Concurrency.LockManager.Grant.{IsValid}
use dip_v.Concurrency.LockManager.Exclusion.{first_waiting, IsFree, can_grant_lock_lem}
use dip_v.Concurrency.LockManager.Holds.{holds}
use dip_v.Concurrency.TransactionManager.{TransactionManager, new, begin, commit, abort}
use dip_v.Concurrency.TransactionManager.Steps.{
  begins, acquires, Reach, start, next, after, IsSound, Reach-IsSound, mutual_exclusion,
  grants_in_order,
}
use dip_v.Concurrency.TransactionManager.Release.{HasEnded, commit_lem, abort_lem}

abbrev hash : Rid → ℕ
hash rid = rid.page_id

abbrev row : Rid
row = record { page_id = 3; slot_num = 1 }

abbrev granted : ℕ → LockRequest
granted id = record { txn_id = id; mode = LockMode.shared; granted = true }

abbrev one : TransactionManager
one = (begin new).0

abbrev two : TransactionManager
two = (begin one).0

abbrev three : TransactionManager
three = after hash two 0 (acquire_lock hash two.lock_manager (two.txns 0) row LockMode.shared)

abbrev four : TransactionManager
four = after hash three 1 (acquire_lock hash three.lock_manager (three.txns 1) row LockMode.shared)

reached : Reach hash four
unfolding begin new acquire_lock try_grant note_lock store insert queue_at lookup get_shard_idx
    rid_eq can_grant_lock conflicts first_in_line mark_granted has_request grant_lock find_granted
    push LockManager.new Transaction.new holds count_txn
reached =
    next
      (next (next (next start (begins (λ rid. refl))) (begins (λ rid. refl)))
        (acquires 0 row LockMode.shared (λ h. refl)))
      (acquires 1 row LockMode.shared (λ h. refl))

mutual_exclusion_example :
    ((granted 0).mode ≡ LockMode.shared) × ((granted 1).mode ≡ LockMode.shared)
unfolding begin new acquire_lock try_grant note_lock store insert queue_at lookup get_shard_idx
    rid_eq can_grant_lock conflicts first_in_line mark_granted has_request grant_lock find_granted
    push LockManager.new Transaction.new index
mutual_exclusion_example =
    mutual_exclusion hash {m = four} row 0 1 (granted 0) (granted 1) reached refl refl
      (λ e. absurd (omega arith)) refl refl

grants_in_order_example : (granted 0).granted ≡ true
unfolding begin new acquire_lock try_grant note_lock store insert queue_at lookup get_shard_idx
    rid_eq can_grant_lock conflicts first_in_line mark_granted has_request grant_lock find_granted
    push LockManager.new Transaction.new index
grants_in_order_example =
    grants_in_order hash {m = four} row 0 1 (granted 0) (granted 1) reached refl refl (omega arith)
      refl

sound : IsSound hash four
sound = Reach-IsSound hash reached

Reach-IsSound_example : IsSound hash four
Reach-IsSound_example = Reach-IsSound hash {m = four} reached

commit_lem_example : HasEnded hash four (commit hash four 0) 0 TransactionState.committed
unfolding begin new acquire_lock try_grant note_lock store insert queue_at lookup get_shard_idx
    rid_eq can_grant_lock conflicts first_in_line mark_granted has_request grant_lock find_granted
    push LockManager.new Transaction.new
commit_lem_example = commit_lem hash four 0 sound refl

abort_lem_example : HasEnded hash four (abort hash four 1) 1 TransactionState.aborted
unfolding begin new acquire_lock try_grant note_lock store insert queue_at lookup get_shard_idx
    rid_eq can_grant_lock conflicts first_in_line mark_granted has_request grant_lock find_granted
    push LockManager.new Transaction.new
abort_lem_example = abort_lem hash four 1 sound refl

abbrev writer : LockRequest
writer = record { txn_id = 2; mode = LockMode.exclusive; granted = false }

-- A queue with the writer alone.
abbrev idle : LockRequestQueue
idle = record { request_queue = writer ∷ []; shared_count = 0; exclusive_granted = false }

idle-IsValid : IsValid idle
unfolding count_shared count_exclusive count_txn granted_first
idle-IsValid = record {
  shared = refl;
  exclusive = refl;
  apart = λ e. refl;
  in_order = refl;
  distinct = λ t. ground arith;
}

can_grant_lock_lem_example :
    (can_grant_lock idle 2 LockMode.exclusive ≡ true)
    ↔ ((first_waiting idle.request_queue ≡ some writer) × IsFree idle LockMode.exclusive)
unfolding index
can_grant_lock_lem_example = can_grant_lock_lem idle 0 writer idle-IsValid refl refl

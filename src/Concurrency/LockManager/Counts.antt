-- ===== src/Concurrency/LockManager/Counts.antt =====
-- What the operations on a queue do to its counts (src/concurrency/lock_manager.rs).
use dip_v.Base.{
  ℕ, ◌+◌, ◌≡◌, Bool, true, false, ◌&&◌, List, [], ◌∷◌, ◌++◌, Option, none, some, ◌==◌, arith,
  if◌then◌else◌,
}
use dip_v.Concurrency.LockManager.Queue.{LockMode, LockRequest}

abbrev pub is_shared : LockMode → Bool
is_shared m = elim m [ LockMode.shared ↦ true | LockMode.exclusive ↦ false ]

abbrev pub as_ℕ : Bool → ℕ
as_ℕ b = if b then 1 else 0

-- How many requests hold the lock in a mode, and how many the transaction has.
unfoldable pub count_shared : List LockRequest → ℕ
count_shared [] = 0
count_shared (r ∷ rs) = as_ℕ (r.granted && is_shared r.mode) + count_shared rs

unfoldable pub count_exclusive : List LockRequest → ℕ
count_exclusive [] = 0
count_exclusive (r ∷ rs) = (if is_shared r.mode then 0 else as_ℕ r.granted) + count_exclusive rs

unfoldable pub count_txn : List LockRequest → ℕ → ℕ
count_txn [] t = 0
count_txn (r ∷ rs) t = as_ℕ (r.txn_id == t) + count_txn rs t

unfoldable pub none_granted : List LockRequest → Bool
none_granted [] = true
none_granted (r ∷ rs) = if r.granted then false else none_granted rs

-- No request is granted behind one that waits.
unfoldable pub granted_first : List LockRequest → Bool
unfolding none_granted
granted_first [] = true
granted_first (r ∷ rs) = if r.granted then granted_first rs else none_granted rs

abbrev pub held_shared : Option LockRequest → ℕ
held_shared none = 0
held_shared (some r) = as_ℕ (is_shared r.mode)

abbrev pub held_exclusive : Option LockRequest → ℕ
held_exclusive none = 0
held_exclusive (some r) = if is_shared r.mode then 0 else 1

module _ (t : ℕ) where
  -- A transaction's first request, granted or not.
  unfoldable pub first_request : List LockRequest → Option LockRequest
  first_request [] = none
  first_request (r ∷ rs) = if r.txn_id == t then some r else first_request rs

  pub counts-append :
      (l : List LockRequest) (r : LockRequest)
      → (count_shared (l ++ (r ∷ [])) ≡ count_shared l + as_ℕ (r.granted && is_shared r.mode))
        × (count_exclusive (l ++ (r ∷ []))
            ≡ count_exclusive l + (if is_shared r.mode then 0 else as_ℕ r.granted))
        × (count_txn (l ++ (r ∷ [])) t ≡ count_txn l t + as_ℕ (r.txn_id == t))
  unfolding count_shared count_exclusive count_txn
  counts-append [] r = omega arith
  counts-append (x ∷ l) r = omega (arith, counts-append l r)

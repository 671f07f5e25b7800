-- ===== src/Concurrency/LockManager/Exclusion.antt =====
-- What a well-formed queue guarantees: no two conflicting grants, first come first served, and
-- the test that grants a lock (src/concurrency/lock_manager.rs).
use dip_v.Base.{
  ℕ, zero, suc, ◌+◌, ◌≤◌, ◌<◌, ◌≡◌, ◌≢◌, ◌⊎◌, ◌↔◌, inl, inr, refl, ap, true, false, List, [], ◌∷◌,
  Option, none, some, arith, if◌then◌else◌, ok,
}
use dip_v.Base.Bytes.{index}
use dip_v.Concurrency.LockManager.Queue.{
  LockMode, LockRequest, LockRequestQueue, conflicts, first_in_line, can_grant_lock,
}
use dip_v.Concurrency.LockManager.Counts.{
  is_shared, as_ℕ, count_txn, count_shared, count_exclusive, none_granted, granted_first,
}
use dip_v.Concurrency.LockManager.Grant.{IsValid}

one_granted :
    (l : List LockRequest) (i : ℕ) (r : LockRequest)
    → index l i ≡ ok r
    → r.granted ≡ true
    → (as_ℕ (is_shared r.mode) ≤ count_shared l)
      × ((if is_shared r.mode then 0 else 1) ≤ count_exclusive l)
      × (1 ≤ count_shared l + count_exclusive l)
unfolding index count_shared count_exclusive
one_granted [] i r h g = cc
one_granted (x ∷ l) zero r h g = ground arith
one_granted (x ∷ l) (suc i) r h g = ground (arith, one_granted l i r)

two_granted :
    (l : List LockRequest) (i j : ℕ) (r s : LockRequest)
    → index l i ≡ ok r
    → index l j ≡ ok s
    → i ≢ j
    → r.granted ≡ true
    → s.granted ≡ true
    → 2 ≤ count_shared l + count_exclusive l
unfolding index count_shared count_exclusive
two_granted [] i j r s h k d g e = cc
two_granted (x ∷ l) zero zero r s h k d g e = absurd (d refl)
two_granted (x ∷ l) zero (suc j) r s h k d g e = ground (arith, one_granted l j s)
two_granted (x ∷ l) (suc i) zero r s h k d g e = ground (arith, one_granted l i r)
two_granted (x ∷ l) (suc i) (suc j) r s h k d g e =
    ground (arith, two_granted l i j r s h k (λ p. d (ap suc p)) g e)

-- In a well-formed queue, two requests that are granted at once are both shared.
pub grants_compatible :
    (q : LockRequestQueue) (i j : ℕ) (r s : LockRequest)
    → IsValid q
    → index q.request_queue i ≡ ok r
    → index q.request_queue j ≡ ok s
    → i ≢ j
    → r.granted ≡ true
    → s.granted ≡ true
    → (r.mode ≡ LockMode.shared) × (s.mode ≡ LockMode.shared)
grants_compatible q i j r s v at_i at_j apart g e = ground (
  arith,
  one_granted q.request_queue i r,
  one_granted q.request_queue j s,
  two_granted q.request_queue i j r s at_i at_j apart g e,
  v.shared,
  v.exclusive,
  v.apart,
)

behind_none :
    (l : List LockRequest) (j : ℕ) (s : LockRequest)
    → none_granted l ≡ true
    → index l j ≡ ok s
    → s.granted ≡ false
unfolding index none_granted
behind_none [] j s h k = cc
behind_none (x ∷ l) zero s h k = ground arith
behind_none (x ∷ l) (suc j) s h k = ground (arith, behind_none l j s)

granted_before_list :
    (l : List LockRequest) (i j : ℕ) (r s : LockRequest)
    → granted_first l ≡ true
    → index l i ≡ ok r
    → index l j ≡ ok s
    → i < j
    → s.granted ≡ true
    → r.granted ≡ true
unfolding index granted_first
granted_before_list [] i j r s o h k lt g = cc
granted_before_list (x ∷ l) i zero r s o h k lt g = absurd (omega arith)
granted_before_list (x ∷ l) zero (suc j) r s o h k lt g = ground (arith, behind_none l j s)
granted_before_list (x ∷ l) (suc i) (suc j) r s o h k lt g =
    ground (arith, granted_before_list l i j r s, behind_none l j s)

-- In a well-formed queue a granted request has only granted requests before it.
pub granted_before :
    (q : LockRequestQueue) (i j : ℕ) (r s : LockRequest)
    → IsValid q
    → index q.request_queue i ≡ ok r
    → index q.request_queue j ≡ ok s
    → i < j
    → s.granted ≡ true
    → r.granted ≡ true
granted_before q i j r s v = granted_before_list q.request_queue i j r s v.in_order

-- The first request of the queue that waits.
unfoldable pub first_waiting : List LockRequest → Option LockRequest
first_waiting [] = none
first_waiting (r ∷ rs) = if r.granted then first_waiting rs else some r

first_waiting_in_line :
    (l : List LockRequest) (r : LockRequest)
    → first_waiting l ≡ some r
    → first_in_line l r.txn_id ≡ true
unfolding first_waiting first_in_line
first_waiting_in_line [] r h = cc
first_waiting_in_line (x ∷ l) r h = ground (arith, first_waiting_in_line l r)

no_conflict :
    (q : LockRequestQueue) (m : LockMode)
    → IsValid q
    → count_exclusive q.request_queue ≡ 0
    → ((count_shared q.request_queue ≡ 0) ⊎ (m ≡ LockMode.shared))
    → conflicts q m ≡ false
unfolding conflicts
no_conflict q LockMode.shared v e free = ground (arith, v.exclusive)
no_conflict q LockMode.exclusive v e free = ground (arith, v.shared, v.exclusive)

-- No granted request stands in the way of one of this mode.
abbrev pub IsFree : LockRequestQueue → LockMode → Type 0
IsFree q mode =
    (count_exclusive q.request_queue ≡ 0)
    × ((count_shared q.request_queue ≡ 0) ⊎ (mode ≡ LockMode.shared))

no_conflict_only :
    (q : LockRequestQueue) (m : LockMode) → IsValid q → conflicts q m ≡ false → IsFree q m
unfolding conflicts
no_conflict_only q LockMode.shared v h = (ground (arith, v.exclusive), inr refl)
no_conflict_only q LockMode.exclusive v h =
    (ground (arith, v.exclusive), inl (ground (arith, v.shared)))

own_request :
    (l : List LockRequest) (i : ℕ) (r : LockRequest) → index l i ≡ ok r → 1 ≤ count_txn l r.txn_id
unfolding index count_txn
own_request [] i r h = cc
own_request (x ∷ l) zero r h = ground arith
own_request (x ∷ l) (suc i) r h = ground (arith, own_request l i r h)

-- A waiting request that is in line is the first that waits.
in_line_first_waiting :
    (l : List LockRequest) (i : ℕ) (r : LockRequest)
    → index l i ≡ ok r
    → r.granted ≡ false
    → count_txn l r.txn_id ≤ 1
    → first_in_line l r.txn_id ≡ true
    → first_waiting l ≡ some r
unfolding index count_txn first_in_line first_waiting
in_line_first_waiting [] i r h waits once line = cc
in_line_first_waiting (x ∷ l) zero r h waits once line = ground (arith, h, waits)
in_line_first_waiting (x ∷ l) (suc i) r h waits once line =
    ground (arith, own_request l i r h, in_line_first_waiting l i r h waits)

-- In a well-formed queue, `can_grant_lock` says yes of a waiting request just when it is the first
-- that waits, no exclusive request is granted, and no request at all is if it is exclusive itself.
pub can_grant_lock_lem :
    (q : LockRequestQueue) (i : ℕ) (r : LockRequest)
    → IsValid q
    → index q.request_queue i ≡ ok r
    → r.granted ≡ false
    → (can_grant_lock q r.txn_id r.mode ≡ true)
      ↔ ((first_waiting q.request_queue ≡ some r) × IsFree q r.mode)
unfolding can_grant_lock
can_grant_lock_lem q i r v at waits = (
  (λ h.
      let calm : conflicts q r.mode ≡ false = ground (arith, h) in
      let line : first_in_line q.request_queue r.txn_id ≡ true = ground (arith, h) in
      (
        in_line_first_waiting q.request_queue i r at waits (v.distinct r.txn_id) line,
        no_conflict_only q r.mode v calm,
      )),
  (λ (first, (exclusive, free)).
      rw (no_conflict q r.mode v exclusive free) (first_waiting_in_line q.request_queue r first)),
)

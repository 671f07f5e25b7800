-- ===== src/Concurrency/LockManager/Grant.antt =====
-- A queue stays well formed: its counters are right, the granted requests stand in front of the
-- waiting ones and do not conflict (src/concurrency/lock_manager.rs).
use dip_v.Base.{
  ℕ, ◌+◌, ◌-◌, ◌≤◌, ◌≡◌, refl, true, false, List, [], ◌∷◌, ◌++◌, none, some, arith, if◌then◌else◌,
}
use dip_v.Concurrency.LockManager.Queue.{
  LockMode, LockRequest, LockRequestQueue, default, first_in_line, can_grant_lock, mark_granted,
  has_request, grant_lock, without, remove_request, find_granted, make_exclusive, push, give_back,
}
use dip_v.Concurrency.LockManager.Counts.{
  is_shared, as_ℕ, count_shared, count_exclusive, count_txn, none_granted, granted_first,
  held_shared, held_exclusive, first_request, counts-append,
}

pub record IsValid (q : LockRequestQueue) : Type 0 where
  pub shared : q.shared_count ≡ count_shared q.request_queue
  pub exclusive : as_ℕ q.exclusive_granted ≡ count_exclusive q.request_queue
  pub apart : q.exclusive_granted ≡ true → q.shared_count ≡ 0
  pub in_order : granted_first q.request_queue ≡ true
  pub distinct : (t : ℕ) → count_txn q.request_queue t ≤ 1

pub default-IsValid : IsValid default
unfolding count_shared count_exclusive count_txn granted_first
default-IsValid = record {
  shared = refl;
  exclusive = refl;
  apart = λ e. refl;
  in_order = refl;
  distinct = λ t. omega arith;
}

-- Marking the waiting request of a transaction adds it to the count of its mode.
mark_granted_counts :
    (l : List LockRequest) (t : ℕ) (m : LockMode)
    → first_request t l ≡ some (record { txn_id = t; mode = m; granted = false })
    → (count_shared (mark_granted l t) ≡ count_shared l + as_ℕ (is_shared m))
      × (count_exclusive (mark_granted l t) ≡ count_exclusive l + (if is_shared m then 0 else 1))
      × (has_request l t ≡ true)
unfolding count_shared count_exclusive mark_granted first_request has_request
mark_granted_counts [] t m h = cc
mark_granted_counts (r ∷ l) t m h = ground (arith, mark_granted_counts l t m)

count_txn-mark_granted :
    (l : List LockRequest) (t u : ℕ) → count_txn (mark_granted l t) u ≡ count_txn l u
unfolding count_txn mark_granted
count_txn-mark_granted [] t u = refl
count_txn-mark_granted (r ∷ l) t u = ground (arith, count_txn-mark_granted l t u)

none_granted→granted_first : (l : List LockRequest) → none_granted l ≡ true → granted_first l ≡ true
unfolding none_granted granted_first
none_granted→granted_first [] h = refl
none_granted→granted_first (r ∷ l) h = ground arith

granted_first-mark_granted :
    (l : List LockRequest) (t : ℕ)
    → granted_first l ≡ true
    → first_in_line l t ≡ true
    → granted_first (mark_granted l t) ≡ true
unfolding granted_first first_in_line mark_granted
granted_first-mark_granted [] t h k = refl
granted_first-mark_granted (r ∷ l) t h k =
    ground (arith, granted_first-mark_granted l t, none_granted→granted_first l)

-- A grant that `can_grant_lock` allows keeps the queue well formed.
pub grant_lock-IsValid :
    (q : LockRequestQueue) (t : ℕ) (m : LockMode)
    → IsValid q
    → first_request t q.request_queue ≡ some (record { txn_id = t; mode = m; granted = false })
    → can_grant_lock q t m ≡ true
    → IsValid (grant_lock q t m)
unfolding grant_lock can_grant_lock
grant_lock-IsValid q t LockMode.shared v w free =
    let l = q.request_queue in
    let (more_shared, same_exclusive, found) = mark_granted_counts l t LockMode.shared w in
    rw found (record {
      shared = ground (arith, more_shared, v.shared);
      exclusive = ground (arith, same_exclusive, v.exclusive);
      apart = λ e. absurd (ground arith);
      in_order = ground (arith, granted_first-mark_granted l t v.in_order);
      distinct = λ u. ground (arith, count_txn-mark_granted l t u, v.distinct u);
    })
grant_lock-IsValid q t LockMode.exclusive v w free =
    let l = q.request_queue in
    let (same_shared, more_exclusive, found) = mark_granted_counts l t LockMode.exclusive w in
    rw found (record {
      shared = ground (arith, same_shared, v.shared);
      exclusive = ground (arith, more_exclusive, v.exclusive);
      apart = λ e. ground arith;
      in_order = ground (arith, granted_first-mark_granted l t v.in_order);
      distinct = λ u. ground (arith, count_txn-mark_granted l t u, v.distinct u);
    })

-- The request at the end of the queue is the first one of a transaction that has no other.
first_request-push :
    (l : List LockRequest) (t : ℕ) (m : LockMode)
    → count_txn l t ≡ 0
    → first_request t (l ++ (record { txn_id = t; mode = m; granted = false } ∷ []))
      ≡ some (record { txn_id = t; mode = m; granted = false })
unfolding count_txn first_request
first_request-push [] t m h = ground arith
first_request-push (r ∷ l) t m h = ground (arith, first_request-push l t m)

granted_first-push :
    (l : List LockRequest) (t : ℕ) (m : LockMode)
    → (granted_first l ≡ true
        → granted_first (l ++ (record { txn_id = t; mode = m; granted = false } ∷ [])) ≡ true)
      × (none_granted l ≡ true
          → none_granted (l ++ (record { txn_id = t; mode = m; granted = false } ∷ [])) ≡ true)
unfolding granted_first none_granted
granted_first-push [] t m = (λ h. refl, λ h. refl)
granted_first-push (r ∷ l) t m =
    let (one, two) = granted_first-push l t m in
    (λ h. ground (arith, one, two), λ h. ground (arith, two))

pub push-IsValid :
    (q : LockRequestQueue) (t : ℕ) (m : LockMode)
    → IsValid q
    → count_txn q.request_queue t ≡ 0
    → IsValid (push q t m)
      × (first_request t (push q t m).request_queue
          ≡ some (record { txn_id = t; mode = m; granted = false }))
unfolding push
push-IsValid q t m v fresh =
    let l = q.request_queue in
    let r : LockRequest = record { txn_id = t; mode = m; granted = false } in
    let (shared_same, exclusive_same, _) = counts-append t l r in
    (
      record {
        shared = ground (arith, shared_same, v.shared);
        exclusive = ground (arith, exclusive_same, v.exclusive);
        apart = v.apart;
        in_order = (granted_first-push l t m).0 v.in_order;
        distinct = λ u. ground (arith, counts-append u l r, v.distinct u);
      },
      first_request-push l t m fresh,
    )

pub find_granted-none : (l : List LockRequest) (t : ℕ) → count_txn l t ≡ 0 → find_granted l t ≡ none
unfolding find_granted count_txn
find_granted-none [] t h = refl
find_granted-none (r ∷ l) t h = ground (arith, find_granted-none l t)

without_none : (l : List LockRequest) (t : ℕ) → count_txn l t ≡ 0 → without l t ≡ l
unfolding without count_txn
without_none [] t h = refl
without_none (r ∷ l) t h = ground (arith, without_none l t)

-- Removing the only request of a transaction takes back what it held.
without_counts :
    (l : List LockRequest) (t : ℕ)
    → count_txn l t ≤ 1
    → (count_shared (without l t) + held_shared (find_granted l t) ≡ count_shared l)
      × (count_exclusive (without l t) + held_exclusive (find_granted l t) ≡ count_exclusive l)
unfolding count_shared count_exclusive count_txn without find_granted
without_counts [] t h = (refl, refl)
without_counts (r ∷ l) t h =
    ground (arith, without_counts l t, without_none l t, find_granted-none l t)

without_keeps :
    (l : List LockRequest) (t u : ℕ)
    → (count_txn (without l t) u ≤ count_txn l u)
      × (none_granted l ≡ true → none_granted (without l t) ≡ true)
      × (granted_first l ≡ true → granted_first (without l t) ≡ true)
unfolding count_txn none_granted granted_first without
without_keeps [] t u = (omega arith, λ h. h, λ h. h)
without_keeps (r ∷ l) t u =
    let (fewer, none_still, order_still) = without_keeps l t u in
    (
      ground (arith, fewer),
      λ h. ground (arith, none_still),
      λ h. ground (arith, none_still, order_still, none_granted→granted_first (without l t)),
    )

-- A release keeps the queue well formed.
pub release-IsValid :
    (q : LockRequestQueue) (t : ℕ) (r : LockRequest)
    → IsValid q
    → find_granted q.request_queue t ≡ some r
    → IsValid (remove_request (give_back q r.mode) t)
unfolding remove_request give_back
release-IsValid q t r v found =
    let l = q.request_queue in
    let (shared_less, exclusive_less) = without_counts l t (v.distinct t) in
    let (_, _, order) = without_keeps l t t in
    elim (r.mode) as (λ m. r.mode ≡ m → IsValid (remove_request (give_back q m) t)) [
      | LockMode.shared ↦ λ e. record {
        shared = ground (arith, shared_less, v.shared);
        exclusive = ground (arith, exclusive_less, v.exclusive);
        apart = λ x. ground (arith, v.apart);
        in_order = order v.in_order;
        distinct = λ u. ground (arith, without_keeps l t u, v.distinct u);
      }
      | LockMode.exclusive ↦ λ e. record {
        shared = ground (arith, shared_less, v.shared);
        exclusive = ground (arith, exclusive_less, v.exclusive);
        apart = λ x. cc;
        in_order = order v.in_order;
        distinct = λ u. ground (arith, without_keeps l t u, v.distinct u);
      }
    ]
      refl

-- A waiter that gives up leaves the queue well formed.
pub remove_request-IsValid :
    (q : LockRequestQueue) (t : ℕ)
    → IsValid q
    → find_granted q.request_queue t ≡ none
    → IsValid (remove_request q t)
unfolding remove_request
remove_request-IsValid q t v absent =
    let l = q.request_queue in
    let (shared_same, exclusive_same) = without_counts l t (v.distinct t) in
    let (_, _, order) = without_keeps l t t in
    record {
      shared = ground (arith, shared_same, v.shared);
      exclusive = ground (arith, exclusive_same, v.exclusive);
      apart = v.apart;
      in_order = order v.in_order;
      distinct = λ u. ground (arith, without_keeps l t u, v.distinct u);
    }

make_exclusive_counts :
    (l : List LockRequest) (t : ℕ) (r : LockRequest)
    → find_granted l t ≡ some r
    → r.mode ≡ LockMode.shared
    → (count_shared (make_exclusive l t) + 1 ≡ count_shared l)
      × (count_exclusive (make_exclusive l t) ≡ count_exclusive l + 1)
unfolding count_shared count_exclusive find_granted make_exclusive
make_exclusive_counts [] t r h e = cc
make_exclusive_counts (x ∷ l) t r h e = ground (arith, make_exclusive_counts l t r)

make_exclusive_keeps :
    (l : List LockRequest) (t u : ℕ)
    → (count_txn (make_exclusive l t) u ≡ count_txn l u)
      × (none_granted (make_exclusive l t) ≡ none_granted l)
      × (granted_first (make_exclusive l t) ≡ granted_first l)
unfolding count_txn none_granted granted_first make_exclusive
make_exclusive_keeps [] t u = (refl, refl, refl)
make_exclusive_keeps (r ∷ l) t u = ground (arith, make_exclusive_keeps l t u)

-- An upgrade by the only holder keeps the queue well formed.
pub upgrade-IsValid :
    (q : LockRequestQueue) (t : ℕ) (r : LockRequest)
    → IsValid q
    → find_granted q.request_queue t ≡ some r
    → r.mode ≡ LockMode.shared
    → q.shared_count ≡ 1
    → IsValid (record {
      request_queue = make_exclusive q.request_queue t;
      shared_count = q.shared_count - 1;
      exclusive_granted = true;
    })
upgrade-IsValid q t r v found mode alone =
    let l = q.request_queue in
    let (less, more) = make_exclusive_counts l t r found mode in
    let (_, _, order) = make_exclusive_keeps l t t in
    record {
      shared = ground (arith, less, v.shared);
      exclusive = ground (arith, more, v.exclusive, v.apart);
      apart = λ e. omega arith;
      in_order = ground (arith, order, v.in_order);
      distinct = λ u. ground (arith, make_exclusive_keeps l t u, v.distinct u);
    }

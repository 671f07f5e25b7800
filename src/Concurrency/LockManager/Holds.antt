-- ===== src/Concurrency/LockManager/Holds.antt =====
-- Who holds a lock, and what each step does to that (src/concurrency/lock_manager.rs).
use dip_v.Base.{
  ℕ, ◌≡◌, refl, Bool, true, false, Bool-cases, not, ◌&&◌, ◌||◌, ◌⊎◌, inl, inr, List, [], ◌∷◌, ◌++◌,
  none, some, Option-cases, ◌==◌, arith, if◌then◌else◌,
}
use dip_v.Storage.Rid.{Rid, rid_eq, rid_eq_iff}
use dip_v.Concurrency.Transaction.{Transaction, locked, contains-set_insert}
use dip_v.Concurrency.LockManager.Queue.{
  LockMode, LockRequest, LockRequestQueue, can_grant_lock, mark_granted, grant_lock, without,
  remove_request, find_granted, make_exclusive, give_back,
}
use dip_v.Concurrency.LockManager.{
  LockManager, queue_at, store, erase, entry, or_default, note_lock, try_grant, release_queue,
  store_or_erase,
}
use dip_v.Concurrency.LockManager.Tables.{queue_at-store, queue_at-erase}

-- The transaction has a granted request in the queue.
unfoldable pub holds : List LockRequest → ℕ → Bool
holds [] u = false
holds (r ∷ rs) u = ((r.txn_id == u) && r.granted) || holds rs u

pub holds-find_granted :
    (l : List LockRequest) (u : ℕ)
    → holds l u ≡ (elim (find_granted l u) [ none ↦ false | some _ ↦ true ])
unfolding holds find_granted
holds-find_granted [] u = refl
holds-find_granted (r ∷ l) u = ground (arith, holds-find_granted l u)

pub holds-append :
    (l : List LockRequest) (t u : ℕ) (m : LockMode)
    → holds (l ++ (record { txn_id = t; mode = m; granted = false } ∷ [])) u ≡ holds l u
unfolding holds
holds-append [] t u m = ground arith
holds-append (r ∷ l) t u m = ground (arith, holds-append l t u m)

holds-mark_granted :
    (l : List LockRequest) (t u : ℕ)
    → holds (mark_granted l t) u ≡ true
    → (holds l u ≡ true) ⊎ (t ≡ u)
unfolding holds mark_granted
holds-mark_granted [] t u h = inl h
holds-mark_granted (r ∷ l) t u h = ground (arith, holds-mark_granted l t u)

pub holds-without :
    (l : List LockRequest) (t u : ℕ) → holds (without l t) u ≡ (not (t == u) && holds l u)
unfolding holds without
holds-without [] t u = ground arith
holds-without (r ∷ l) t u = ground (arith, holds-without l t u)

pub holds-make_exclusive :
    (l : List LockRequest) (t u : ℕ) → holds (make_exclusive l t) u ≡ holds l u
unfolding holds make_exclusive
holds-make_exclusive [] t u = refl
holds-make_exclusive (r ∷ l) t u = ground (arith, holds-make_exclusive l t u)

module _ (hash : Rid → ℕ) where
  abbrev pub holder : LockManager → Rid → ℕ → Bool
  holder lm rid u = holds (entry hash lm rid).request_queue u

  pub holder-store :
      (lm : LockManager) (a b : Rid) (q : LockRequestQueue) (u : ℕ)
      → holder (store hash lm a q) b u
        ≡ (if rid_eq a b then holds q.request_queue u else holder lm b u)
  holder-store lm a b q u = elim (Bool-cases (rid_eq a b)) [
    | inl e ↦ rw (queue_at-store hash lm a b q, e, or_default)
    | inr e ↦ rw (queue_at-store hash lm a b q, e)
  ]

  holder-erase :
      (lm : LockManager) (a b : Rid) (u : ℕ)
      → holder (erase hash lm a) b u ≡ (if rid_eq a b then false else holder lm b u)
  unfolding holds
  holder-erase lm a b u = elim (Bool-cases (rid_eq a b)) [
    | inl e ↦ rw (queue_at-erase hash lm a b, e, or_default)
    | inr e ↦ rw (queue_at-erase hash lm a b, e)
  ]

  holder-store_or_erase :
      (lm : LockManager) (a b : Rid) (q : LockRequestQueue) (u : ℕ)
      → holder (store_or_erase hash lm a q) b u
        ≡ (if rid_eq a b then holds q.request_queue u else holder lm b u)
  unfolding store_or_erase holds
  holder-store_or_erase lm a b q u = ground (arith, holder-erase lm a b u, holder-store lm a b q u)

  pub same_holder :
      (lm : LockManager) (a b : Rid) (u : ℕ) → rid_eq a b ≡ true → holder lm b u ≡ holder lm a u
  same_holder lm a b u e = rw ((rid_eq_iff a b).0 e)

  holder-none :
      (lm : LockManager) (a : Rid) (u : ℕ) → queue_at hash lm a ≡ none → holder lm a u ≡ false
  unfolding holds
  holder-none lm a u e = rw (e, or_default)

  pub holder-some :
      (lm : LockManager) (a : Rid) (u : ℕ) (q : LockRequestQueue)
      → queue_at hash lm a ≡ some q
      → holder lm a u ≡ holds q.request_queue u
  holder-some lm a u q e = rw (e, or_default)

  released :
      (lm : LockManager) (t : ℕ) (a b : Rid) (u : ℕ) (q : LockRequestQueue) (r : LockRequest)
      → queue_at hash lm a ≡ some q
      → holder (store_or_erase hash lm a (remove_request (give_back q r.mode) t)) b u
        ≡ (holder lm b u && not (rid_eq a b && (t == u)))
  unfolding remove_request give_back
  released lm t a b u q r there = ground (
    arith,
    holder-store_or_erase lm a b (remove_request (give_back q r.mode) t) u,
    holds-without q.request_queue t u,
    same_holder lm a b u,
    holder-some lm a u q there,
  )

  -- A release takes exactly the lock of that transaction on that resource.
  pub holder-release_queue :
      (lm : LockManager) (t : ℕ) (a b : Rid) (u : ℕ)
      → holder (release_queue hash lm t a) b u ≡ (holder lm b u && not (rid_eq a b && (t == u)))
  unfolding release_queue
  holder-release_queue lm t a b u = elim (Option-cases (queue_at hash lm a)) [
    | inl none_there ↦
        rw (none_there, release_queue)
          (ground (arith, same_holder lm a b u, holder-none lm a u none_there))
    | inr (q, there) ↦ elim (Option-cases (find_granted q.request_queue t)) [
      | inl absent ↦
          rw (there, release_queue, absent)
            (ground (
              arith,
              same_holder lm a b u,
              holder-some lm a u q there,
              holds-find_granted q.request_queue t,
            ))
      | inr (r, found) ↦ rw (there, release_queue, found) (released lm t a b u q r there)
    ]
  ]

  holder-grant :
      (lm : LockManager) (t : ℕ) (rid : Rid) (m : LockMode) (q : LockRequestQueue) (b : Rid) (u : ℕ)
      → holder (store hash lm rid (grant_lock q t m)) b u ≡ true
      → (holder lm b u ≡ true)
        ⊎ ((rid_eq rid b ≡ true) × ((holds q.request_queue u ≡ true) ⊎ (t ≡ u)))
  unfolding grant_lock
  holder-grant lm t rid m q b u h =
      ground
        (arith, holder-store lm rid b (grant_lock q t m) u, holds-mark_granted q.request_queue t u)

  -- The transaction holds the lock now, and has noted it.
  abbrev pub Gained : Transaction → Transaction → Rid → Rid → ℕ → Type 0
  Gained before after rid b u =
      (rid_eq rid b ≡ true) × (before.txn_id ≡ u) × (locked after rid ≡ true)

  pub note_lock-locked :
      (txn : Transaction) (rid b : Rid) (m : LockMode)
      → locked (note_lock txn rid m) b ≡ (rid_eq rid b || locked txn b)
  unfolding locked note_lock
  note_lock-locked txn rid b LockMode.shared =
      ground (arith, contains-set_insert rid b txn.shared_locks)
  note_lock-locked txn rid b LockMode.exclusive =
      ground (arith, contains-set_insert rid b txn.exclusive_locks)

  rid_eq_refl : (a : Rid) → rid_eq a a ≡ true
  rid_eq_refl a = (rid_eq_iff a a).1 refl

  pub try_grant_gain :
      (lm : LockManager) (txn : Transaction) (rid : Rid) (m : LockMode) (q : LockRequestQueue)
      (b : Rid) (u : ℕ)
      → holds q.request_queue u ≡ holder lm rid u
      → holder (try_grant hash lm txn rid m q).manager b u ≡ true
      → (holder lm b u ≡ true) ⊎ Gained txn (try_grant hash lm txn rid m q).txn rid b u
  unfolding try_grant
  try_grant_gain lm txn rid m q b u same h = elim (Bool-cases (can_grant_lock q txn.txn_id m)) [
    | inl e ↦
        rw (e, try_grant)
          (ground (
            arith,
            holder-grant lm txn.txn_id rid m q b u,
            same_holder lm rid b u,
            note_lock-locked txn rid rid m,
            rid_eq_refl rid,
          ))
    | inr e ↦ ground (arith, holder-store lm rid b q u, same_holder lm rid b u)
  ]

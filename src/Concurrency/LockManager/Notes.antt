-- ===== src/Concurrency/LockManager/Notes.antt =====
-- A transaction notes every lock that it gains, and forgets none but the one that it releases
-- (src/concurrency/lock_manager.rs).
use dip_v.Base.{
  ℕ, ◌-◌, ◌≡◌, refl, true, Bool-cases, ◌⊎◌, inl, inr, Option-cases, arith, ok, ok-injective, sym,
}
use dip_v.Storage.Rid.{Rid}
use dip_v.Concurrency.Transaction.{
  Transaction, is_aborted, locked, contains-set_insert, contains-set_remove,
}
use dip_v.Concurrency.LockManager.Queue.{
  LockMode, LockRequestQueue, find_granted, remove_request, without, make_exclusive, push,
}
use dip_v.Concurrency.LockManager.{
  LockManager, Outcome, queue_at, entry, note_lock, acquire_lock, resume_lock, reenter, try_grant,
}
use dip_v.Concurrency.LockManager.Holds.{
  holds-append, holds-without, holds-make_exclusive, holder, holder-some, holder-store, same_holder,
  Gained, note_lock-locked, try_grant_gain,
}

module _ (hash : Rid → ℕ) where
  try_grant_keeps :
      (lm : LockManager) (txn : Transaction) (rid : Rid) (m : LockMode) (q : LockRequestQueue)
      (b : Rid)
      → locked txn b ≡ true
      → locked (try_grant hash lm txn rid m q).txn b ≡ true
  unfolding try_grant
  try_grant_keeps lm txn rid m q b h = ground (arith, note_lock-locked hash txn rid b m)

  reenter_keeps :
      (lm : LockManager) (txn : Transaction) (rid : Rid) (q : LockRequestQueue)
      (held wanted : LockMode) (b : Rid)
      → locked txn b ≡ true
      → locked (reenter hash lm txn rid q held wanted).txn b ≡ true
  unfolding reenter locked
  reenter_keeps lm txn rid q LockMode.exclusive wanted b h = h
  reenter_keeps lm txn rid q LockMode.shared LockMode.shared b h = h
  reenter_keeps lm txn rid q LockMode.shared LockMode.exclusive b h = ground (
    arith,
    contains-set_insert rid b txn.exclusive_locks,
    contains-set_remove rid b txn.shared_locks,
  )

  reenter_gain :
      (lm : LockManager) (txn : Transaction) (rid : Rid) (held wanted : LockMode) (b : Rid) (u : ℕ)
      → holder hash (reenter hash lm txn rid (entry hash lm rid) held wanted).manager b u ≡ true
      → holder hash lm b u ≡ true
  unfolding reenter
  reenter_gain lm txn rid LockMode.exclusive wanted b u h = h
  reenter_gain lm txn rid LockMode.shared LockMode.shared b u h = h
  reenter_gain lm txn rid LockMode.shared LockMode.exclusive b u h =
      let q = entry hash lm rid in
      ground (
        arith,
        same_holder hash lm rid b u,
        holds-make_exclusive q.request_queue txn.txn_id u,
        holder-store hash lm rid b
            (record {
              request_queue = make_exclusive q.request_queue txn.txn_id;
              shared_count = q.shared_count - 1;
              exclusive_granted = true;
            })
            u,
      )

  pub acquire_keeps :
      (lm : LockManager) (txn : Transaction) (rid : Rid) (m : LockMode) (b : Rid)
      → locked txn b ≡ true
      → locked (acquire_lock hash lm txn rid m).txn b ≡ true
  unfolding acquire_lock
  acquire_keeps lm txn rid m b h =
      let q = entry hash lm rid in
      elim (Option-cases (find_granted q.request_queue txn.txn_id)) [
        | inl e ↦ rw (e, acquire_lock) (try_grant_keeps lm txn rid m (push q txn.txn_id m) b h)
        | inr (r, e) ↦ rw (e, acquire_lock) (reenter_keeps lm txn rid q r.mode m b h)
      ]

  pub acquire_gain :
      (lm : LockManager) (txn : Transaction) (rid : Rid) (m : LockMode) (b : Rid) (u : ℕ)
      → holder hash (acquire_lock hash lm txn rid m).manager b u ≡ true
      → (holder hash lm b u ≡ true) ⊎ Gained hash txn (acquire_lock hash lm txn rid m).txn rid b u
  unfolding acquire_lock push
  acquire_gain lm txn rid m b u h =
      let q = entry hash lm rid in
      elim (Option-cases (find_granted q.request_queue txn.txn_id)) [
        | inl e ↦
            rw (e, acquire_lock)
              (try_grant_gain hash lm txn rid m (push q txn.txn_id m) b u
                (holds-append q.request_queue txn.txn_id u m) (rw (e, acquire_lock) at h))
        | inr (r, e) ↦ inl (reenter_gain lm txn rid r.mode m b u (rw (e, acquire_lock) at h))
      ]

  pub resume_keeps :
      (lm : LockManager) (txn : Transaction) (rid : Rid) (m : LockMode) (out : Outcome) (b : Rid)
      → resume_lock hash lm txn rid m ≡ ok out
      → locked txn b ≡ true
      → locked out.txn b ≡ true
  unfolding resume_lock
  resume_keeps lm txn rid m out b h k = elim (Option-cases (queue_at hash lm rid)) [
    | inl e ↦ absurd (ground arith)
    | inr (q, e) ↦ ground (arith, try_grant_keeps lm txn rid m q b)
  ]

  pub resume_gain :
      (lm : LockManager) (txn : Transaction) (rid : Rid) (m : LockMode) (out : Outcome) (b : Rid)
      (u : ℕ)
      → resume_lock hash lm txn rid m ≡ ok out
      → holder hash out.manager b u ≡ true
      → (holder hash lm b u ≡ true) ⊎ Gained hash txn out.txn rid b u
  unfolding resume_lock remove_request
  resume_gain lm txn rid m out b u h k = elim (Option-cases (queue_at hash lm rid)) [
    | inl e ↦ absurd (ground arith)
    | inr (q, e) ↦ elim (Bool-cases (is_aborted txn)) [
      | inl gone ↦ ground (
        arith,
        holder-store hash lm rid b (record q { request_queue = without q.request_queue txn.txn_id })
            u,
        holds-without q.request_queue txn.txn_id u,
        same_holder hash lm rid b u,
        holder-some hash lm rid u q e,
      )
      | inr alive ↦
          let same : try_grant hash lm txn rid m q ≡ out =
            ok-injective _ _ (rw (e, resume_lock, alive) at h) in
          rw (← same) (
            try_grant_gain hash lm txn rid m q b u (sym (holder-some hash lm rid u q e))
              (rw (← same) at k))
    ]
  ]

  note_lock_id :
      (txn : Transaction) (rid : Rid) (m : LockMode) → (note_lock txn rid m).txn_id ≡ txn.txn_id
  unfolding note_lock
  note_lock_id txn rid LockMode.shared = refl
  note_lock_id txn rid LockMode.exclusive = refl

  try_grant_id :
      (lm : LockManager) (txn : Transaction) (rid : Rid) (m : LockMode) (q : LockRequestQueue)
      → (try_grant hash lm txn rid m q).txn.txn_id ≡ txn.txn_id
  unfolding try_grant
  try_grant_id lm txn rid m q = ground (arith, note_lock_id txn rid m)

  reenter_id :
      (lm : LockManager) (txn : Transaction) (rid : Rid) (q : LockRequestQueue)
      (held wanted : LockMode)
      → (reenter hash lm txn rid q held wanted).txn.txn_id ≡ txn.txn_id
  unfolding reenter
  reenter_id lm txn rid q LockMode.exclusive wanted = refl
  reenter_id lm txn rid q LockMode.shared LockMode.shared = refl
  reenter_id lm txn rid q LockMode.shared LockMode.exclusive = ground arith

  pub acquire_id :
      (lm : LockManager) (txn : Transaction) (rid : Rid) (m : LockMode)
      → (acquire_lock hash lm txn rid m).txn.txn_id ≡ txn.txn_id
  unfolding acquire_lock
  acquire_id lm txn rid m =
      let q = entry hash lm rid in
      elim (Option-cases (find_granted q.request_queue txn.txn_id)) [
        | inl e ↦ rw (e, acquire_lock) (try_grant_id lm txn rid m (push q txn.txn_id m))
        | inr (r, e) ↦ rw (e, acquire_lock) (reenter_id lm txn rid q r.mode m)
      ]

  pub resume_id :
      (lm : LockManager) (txn : Transaction) (rid : Rid) (m : LockMode) (out : Outcome)
      → resume_lock hash lm txn rid m ≡ ok out
      → out.txn.txn_id ≡ txn.txn_id
  unfolding resume_lock
  resume_id lm txn rid m out h = elim (Option-cases (queue_at hash lm rid)) [
    | inl e ↦ absurd (ground arith)
    | inr (q, e) ↦ ground (arith, try_grant_id lm txn rid m q)
  ]

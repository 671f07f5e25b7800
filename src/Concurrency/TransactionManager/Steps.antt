-- ===== src/Concurrency/TransactionManager/Steps.antt =====
-- Every interleaving of the steps of the transactions keeps the lock tables well formed and the
-- books of the transactions complete (src/concurrency).
use dip_v.Base.{
  ℕ, ◌<◌, ◌≡◌, ◌≢◌, refl, subst, true, false, Bool-cases, not, ◌&&◌, ◌⊎◌, inl, inr, some, ◌==◌,
  arith, ok,
}
use dip_v.Base.Bytes.{index}
use dip_v.Storage.Rid.{Rid, rid_eq, rid_eq_iff}
use dip_v.Concurrency.Transaction
use dip_v.Concurrency.Transaction.{
  Transaction, TransactionState, locked, contains, contains-set_remove, set_remove,
}
use dip_v.Concurrency.LockManager
use dip_v.Concurrency.LockManager.{
  LockManager, Outcome, queue_at, entry, acquire_lock, resume_lock, release_lock, release_queue,
}
use dip_v.Concurrency.LockManager.Queue.{LockMode, LockRequest, LockRequestQueue}
use dip_v.Concurrency.LockManager.Counts.{first_request}
use dip_v.Concurrency.LockManager.Tables.{
  AllValid, NotWaiting, new-AllValid, acquire_lock-AllValid, resume_lock-AllValid,
  release_lock-AllValid,
}
use dip_v.Concurrency.LockManager.Holds.{Gained, holder, holds, holder-release_queue}
use dip_v.Concurrency.LockManager.Notes.{
  acquire_id, resume_id, acquire_keeps, acquire_gain, resume_keeps, resume_gain,
}
use dip_v.Concurrency.LockManager.Exclusion.{grants_compatible, granted_before}
use dip_v.Concurrency.TransactionManager.{
  TransactionManager, new, set_txn, begin, release_one, close,
}

module _ (hash : Rid → ℕ) where
  -- The state after a call of the lock manager that worked on the object of `id`.
  abbrev pub after : TransactionManager → ℕ → Outcome → TransactionManager
  after m id out = record m { txns = set_txn m.txns id out.txn; lock_manager = out.manager }

  -- One step of any transaction. A transaction asks for a lock only while it does not wait for
  -- the same resource, and one that is woken asks again with the mode of its request; an id is
  -- given out only if no request bears it.
  pub data Step (m : TransactionManager) : TransactionManager → Type 0 where
    begins :
        ((rid : Rid) → holder hash m.lock_manager rid m.next_txn_id ≡ false) → Step m (begin m).0
    acquires :
        (id : ℕ) (rid : Rid) (mode : LockMode)
        → NotWaiting hash m.lock_manager (m.txns id).txn_id rid
        → Step m (after m id (acquire_lock hash m.lock_manager (m.txns id) rid mode))
    resumes :
        (id : ℕ) (rid : Rid) (mode : LockMode) (q : LockRequestQueue) (out : Outcome)
        → queue_at hash m.lock_manager rid ≡ some q
        → first_request (m.txns id).txn_id q.request_queue
          ≡ some (record { txn_id = (m.txns id).txn_id; mode = mode; granted = false })
        → resume_lock hash m.lock_manager (m.txns id) rid mode ≡ ok out
        → Step m (after m id out)
    releases : (id : ℕ) (rid : Rid) → Step m (release_one hash m id rid)
    closes : (id : ℕ) (state : TransactionState) → Step m (close hash m id state)

  pub data Reach : TransactionManager → Type 0 where
    start : Reach new
    next : {m m' : TransactionManager} → Reach m → Step m m' → Reach m'

  pub record IsSound (m : TransactionManager) : Type 0 where
    pub queues : AllValid hash m.lock_manager
    pub ids : (u : ℕ) → (m.txns u).txn_id ≡ u
    pub noted :
        (rid : Rid) (u : ℕ) → holder hash m.lock_manager rid u ≡ true → locked (m.txns u) rid ≡ true

  new-IsSound : IsSound new
  unfolding new LockManager.new Transaction.new queue_at holds
  new-IsSound = record {
    queues = new-AllValid hash;
    ids = λ u. refl;
    noted = λ rid u h. absurd (ground arith);
  }

  after-IsSound :
      (m : TransactionManager) (id : ℕ) (rid : Rid) (out : Outcome)
      → IsSound m
      → AllValid hash out.manager
      → out.txn.txn_id ≡ (m.txns id).txn_id
      → ((b : Rid) → locked (m.txns id) b ≡ true → locked out.txn b ≡ true)
      → ((b : Rid) (u : ℕ)
          → holder hash out.manager b u ≡ true
          → (holder hash m.lock_manager b u ≡ true) ⊎ Gained hash (m.txns id) out.txn rid b u)
      → IsSound (after m id out)
  after-IsSound m id rid out s valid same keeps gain = record {
    queues = valid;
    ids = λ u. ground (arith, s.ids u, s.ids id);
    noted = λ b u h. elim (Bool-cases (u == id)) [
      | inl e ↦
          let here : u ≡ id = ground arith in
          rw e (elim (gain b u h) [
            | inl old ↦ keeps b (subst (λ x. locked (m.txns x) b ≡ true) here (s.noted b u old))
            | inr (at_b, _, noted) ↦
                subst (λ x. locked out.txn x ≡ true) ((rid_eq_iff rid b).0 at_b) noted
          ])
      | inr e ↦ rw e (elim (gain b u h) [
        | inl old ↦ s.noted b u old
        | inr (_, mine, _) ↦ absurd (ground (arith, s.ids id))
      ])
    ];
  }

  pub forget :
      (t : Transaction) (a b : Rid)
      → locked
          (record t {
            shared_locks = set_remove a t.shared_locks;
            exclusive_locks = set_remove a t.exclusive_locks;
          })
          b
        ≡ (not (rid_eq a b) && locked t b)
  unfolding locked
  forget t a b =
      ground
        (arith, contains-set_remove a b t.shared_locks, contains-set_remove a b t.exclusive_locks)

  releases-IsSound :
      (m : TransactionManager) (id : ℕ) (rid : Rid)
      → IsSound m
      → IsSound (release_one hash m id rid)
  unfolding release_one release_lock
  releases-IsSound m id rid s = record {
    queues = release_lock-AllValid hash m.lock_manager (m.txns id) rid s.queues;
    ids = λ u. ground (arith, s.ids u, s.ids id);
    noted = λ b u h. ground (
      arith,
      s.noted b u,
      forget (m.txns id) rid b,
      s.ids id,
      holder-release_queue hash m.lock_manager (m.txns id).txn_id rid b u,
    );
  }

  closes-IsSound :
      (m : TransactionManager) (id : ℕ) (state : TransactionState)
      → IsSound m
      → IsSound (close hash m id state)
  unfolding close locked
  closes-IsSound m id state s = record {
    queues = s.queues;
    ids = λ u. ground (arith, s.ids u, s.ids id);
    noted = λ b u h. ground (arith, s.noted b u);
  }

  begins-IsSound :
      (m : TransactionManager)
      → ((rid : Rid) → holder hash m.lock_manager rid m.next_txn_id ≡ false)
      → IsSound m
      → IsSound (begin m).0
  unfolding begin Transaction.new
  begins-IsSound m fresh s = record {
    queues = s.queues;
    ids = λ u. ground (arith, s.ids u);
    noted = λ b u h. ground (arith, s.noted b u, fresh b);
  }

  pub Step-IsSound : {m m' : TransactionManager} → Step m m' → IsSound m → IsSound m'
  Step-IsSound {m} (begins fresh) s = begins-IsSound m fresh s
  Step-IsSound {m} (acquires id rid mode idle) s =
      after-IsSound m id rid (acquire_lock hash m.lock_manager (m.txns id) rid mode) s
        (acquire_lock-AllValid hash m.lock_manager (m.txns id) rid mode s.queues idle)
        (acquire_id hash m.lock_manager (m.txns id) rid mode)
        (acquire_keeps hash m.lock_manager (m.txns id) rid mode)
        (acquire_gain hash m.lock_manager (m.txns id) rid mode)
  Step-IsSound {m} (resumes id rid mode q out there first h) s =
      let (out', same, valid) =
        resume_lock-AllValid hash m.lock_manager (m.txns id) rid mode q s.queues there first in
      let e : out' ≡ out = cc (same, h) in
      after-IsSound m id rid out s (subst (λ (x : Outcome). AllValid hash x.manager) e valid)
        (resume_id hash m.lock_manager (m.txns id) rid mode out h)
        (λ b. resume_keeps hash m.lock_manager (m.txns id) rid mode out b h)
        (λ b u. resume_gain hash m.lock_manager (m.txns id) rid mode out b u h)
  Step-IsSound {m} (releases id rid) s = releases-IsSound m id rid s
  Step-IsSound {m} (closes id state) s = closes-IsSound m id state s

  -- In every state that any interleaving of the steps reaches from the empty manager, all queues
  -- are well formed, each transaction object bears its id, and each transaction has noted every
  -- lock that it holds.
  pub Reach-IsSound : {m : TransactionManager} → Reach m → IsSound m
  Reach-IsSound start = new-IsSound
  Reach-IsSound (next r st) = Step-IsSound st (Reach-IsSound r)

  -- Mutual exclusion: in every reachable state, two requests for one resource that are granted at
  -- once are both shared.
  pub mutual_exclusion :
      {m : TransactionManager} (rid : Rid) (i j : ℕ) (r s : LockRequest)
      → Reach m
      → index (entry hash m.lock_manager rid).request_queue i ≡ ok r
      → index (entry hash m.lock_manager rid).request_queue j ≡ ok s
      → i ≢ j
      → r.granted ≡ true
      → s.granted ≡ true
      → (r.mode ≡ LockMode.shared) × (s.mode ≡ LockMode.shared)
  mutual_exclusion {m} rid i j r s reached =
      grants_compatible (entry hash m.lock_manager rid) i j r s
        ((Reach-IsSound reached).queues.at rid)

  -- First come, first served: in every reachable state, a granted request has only granted requests
  -- before it in its queue.
  pub grants_in_order :
      {m : TransactionManager} (rid : Rid) (i j : ℕ) (r s : LockRequest)
      → Reach m
      → index (entry hash m.lock_manager rid).request_queue i ≡ ok r
      → index (entry hash m.lock_manager rid).request_queue j ≡ ok s
      → i < j
      → s.granted ≡ true
      → r.granted ≡ true
  grants_in_order {m} rid i j r s reached =
      granted_before (entry hash m.lock_manager rid) i j r s ((Reach-IsSound reached).queues.at rid)

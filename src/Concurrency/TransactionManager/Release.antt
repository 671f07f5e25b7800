-- ===== src/Concurrency/TransactionManager/Release.antt =====
-- Strict two-phase locking: the end of a transaction gives back all of its locks, and only those
-- (src/concurrency/transaction_manager.rs).
use dip_v.Base.{ℕ, ◌≡◌, refl, Bool, false, not, ◌&&◌, ◌||◌, List, [], ◌∷◌, ◌++◌, ◌==◌, arith}
use dip_v.Storage.Rid.{Rid}
use dip_v.Concurrency.Transaction.{TransactionState, locked, contains}
use dip_v.Concurrency.LockManager.{release_lock}
use dip_v.Concurrency.LockManager.Holds.{holder, holder-release_queue}
use dip_v.Concurrency.TransactionManager.{
  TransactionManager, drop_active, release_one, release_all, close, commit, abort,
}
use dip_v.Concurrency.TransactionManager.Steps.{IsSound, forget}

contains-append :
    (b : Rid) (xs ys : List Rid) → contains b (xs ++ ys) ≡ (contains b xs || contains b ys)
unfolding contains
contains-append b [] ys = refl
contains-append b (x ∷ xs) ys = ground (arith, contains-append b xs ys)

-- The registry lists the transaction.
unfoldable pub is_active : ℕ → List ℕ → Bool
is_active id [] = false
is_active id (j ∷ js) = (j == id) || is_active id js

is_active-drop_active : (id : ℕ) (l : List ℕ) → is_active id (drop_active id l) ≡ false
unfolding is_active drop_active
is_active-drop_active id [] = refl
is_active-drop_active id (j ∷ l) = ground (arith, is_active-drop_active id l)

module _ (hash : Rid → ℕ) where
  -- What a call of `release_lock` changes.
  record Released (m m' : TransactionManager) (id : ℕ) (rids : List Rid) : Type 0 where
    held :
        (b : Rid) (u : ℕ)
        → holder hash m'.lock_manager b u
          ≡ (holder hash m.lock_manager b u && not (contains b rids && (id == u)))
    noted : (b : Rid) → locked (m'.txns id) b ≡ (locked (m.txns id) b && not (contains b rids))
    id_kept : (m'.txns id).txn_id ≡ id
    active_kept : m'.active_txns ≡ m.active_txns

  release_one_lem :
      (m : TransactionManager) (id : ℕ) (rid : Rid)
      → (m.txns id).txn_id ≡ id
      → Released m (release_one hash m id rid) id (rid ∷ [])
  unfolding release_one release_lock contains
  release_one_lem m id rid same = record {
    held =
        λ b u. ground (arith, holder-release_queue hash m.lock_manager (m.txns id).txn_id rid b u);
    noted = λ b. ground (arith, forget hash (m.txns id) rid b);
    id_kept = ground arith;
    active_kept = refl;
  }

  release_all_lem :
      (m : TransactionManager) (id : ℕ) (rids : List Rid)
      → (m.txns id).txn_id ≡ id
      → Released m (release_all hash m id rids) id rids
  unfolding release_all contains
  release_all_lem m id [] same = record {
    held = λ b u. ground arith;
    noted = λ b. ground arith;
    id_kept = same;
    active_kept = refl;
  }
  release_all_lem m id (rid ∷ rids) same =
      let one = release_one_lem m id rid same in
      let rest = release_all_lem (release_one hash m id rid) id rids one.id_kept in
      record {
        held = λ b u. ground (arith, one.held b u, rest.held b u);
        noted = λ b. ground (arith, one.noted b, rest.noted b);
        id_kept = rest.id_kept;
        active_kept = cc (one.active_kept, rest.active_kept);
      }

  -- The transaction has ended in `state`: it notes no lock, it is not active, and it holds no lock,
  -- while every other transaction holds what it held before.
  pub record HasEnded (m m' : TransactionManager) (id : ℕ) (state : TransactionState) : Type 0 where
    pub ended : (m'.txns id).state ≡ state
    pub notes_none : (b : Rid) → locked (m'.txns id) b ≡ false
    pub not_active : is_active id m'.active_txns ≡ false
    pub gave_back :
        (b : Rid) (u : ℕ)
        → holder hash m'.lock_manager b u ≡ (holder hash m.lock_manager b u && not (id == u))

  end_lem :
      (m : TransactionManager) (id : ℕ) (state : TransactionState)
      → IsSound hash m
      → HasEnded m
          (close hash
            (release_all hash m id ((m.txns id).shared_locks ++ (m.txns id).exclusive_locks))
            id
            state)
          id
          state
  unfolding close locked
  end_lem m id state s =
      let rids = (m.txns id).shared_locks ++ (m.txns id).exclusive_locks in
      let r = release_all_lem m id rids (s.ids id) in
      record {
        ended = ground arith;
        notes_none = λ b. ground (
          arith,
          r.noted b,
          contains-append b (m.txns id).shared_locks (m.txns id).exclusive_locks,
        );
        not_active =
            ground
              (arith, r.id_kept, is_active-drop_active id (release_all hash m id rids).active_txns);
        gave_back = λ b u. ground (
          arith,
          r.held b u,
          s.noted b u,
          contains-append b (m.txns id).shared_locks (m.txns id).exclusive_locks,
        );
      }

  -- In a sound state, a running transaction that commits gives back every lock that it holds and
  -- only those, notes no lock, is committed, and leaves the registry.
  pub commit_lem :
      (m : TransactionManager) (id : ℕ)
      → IsSound hash m
      → (m.txns id).state ≡ TransactionState.running
      → HasEnded m (commit hash m id) id TransactionState.committed
  unfolding commit
  commit_lem m id s running = rw running (end_lem m id TransactionState.committed s)

  -- In a sound state, a running transaction that aborts gives back every lock that it holds and
  -- only those, notes no lock, is aborted, and leaves the registry.
  pub abort_lem :
      (m : TransactionManager) (id : ℕ)
      → IsSound hash m
      → (m.txns id).state ≡ TransactionState.running
      → HasEnded m (abort hash m id) id TransactionState.aborted
  unfolding abort
  abort_lem m id s running = rw running (end_lem m id TransactionState.aborted s)

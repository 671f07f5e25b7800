-- ===== src/Concurrency/TransactionManager.antt =====
-- The life of transactions (src/concurrency/transaction_manager.rs).
-- `txns` is the store of the shared transaction objects, by id; a thread that runs a method of
-- the transaction or of the manager works on the object in the store.
pub mod Steps
pub mod Release
use dip_v.Base.{ℕ, ◌+◌, ◌%◌, ◌^◌, Bool, true, false, List, [], ◌∷◌, ◌++◌, ◌==◌, if◌then◌else◌}
use dip_v.Storage.Rid.{Rid}
use dip_v.Concurrency.Transaction
use dip_v.Concurrency.Transaction.{Transaction, TransactionState}
use dip_v.Concurrency.LockManager
use dip_v.Concurrency.LockManager.{LockManager, release_lock}

pub record TransactionManager : Type 0 where
  pub next_txn_id : ℕ
  pub txns : ℕ → Transaction
  pub active_txns : List ℕ
  pub lock_manager : LockManager

-- `TransactionManager::new`
unfoldable pub new : TransactionManager
new = record {
  next_txn_id = 0;
  txns = λ id. Transaction.new id;
  active_txns = [];
  lock_manager = LockManager.new;
}

-- A write to the shared object.
abbrev pub set_txn : (ℕ → Transaction) → ℕ → Transaction → ℕ → Transaction
set_txn txns id t = λ j. if j == id then t else txns j

-- `TransactionManager::begin`: the id of the new transaction; `fetch_add` wraps around.
unfoldable pub begin : TransactionManager → TransactionManager × ℕ
begin m =
    let txn_id = m.next_txn_id in
    (
      record {
        next_txn_id = (txn_id + 1) % 2 ^ 64;
        txns = set_txn m.txns txn_id (Transaction.new txn_id);
        active_txns = txn_id ∷ m.active_txns;
        lock_manager = m.lock_manager;
      },
      txn_id,
    )

-- `HashMap::remove` on the registry of active transactions
unfoldable pub drop_active : ℕ → List ℕ → List ℕ
drop_active id [] = []
drop_active id (j ∷ js) = let rest = drop_active id js in if j == id then rest else j ∷ rest

abbrev pub is_running : TransactionState → Bool
is_running s = elim s [ TransactionState.running ↦ true | _ ↦ false ]

module _ (hash : Rid → ℕ) where
  -- One call of `release_lock` on the shared transaction object.
  unfoldable pub release_one : TransactionManager → ℕ → Rid → TransactionManager
  release_one m id rid =
      let (lm, txn) = release_lock hash m.lock_manager (m.txns id) rid in
      record m { txns = set_txn m.txns id txn; lock_manager = lm }

  -- The loop over `locks_to_release`.
  unfoldable pub release_all : TransactionManager → ℕ → List Rid → TransactionManager
  unfolding release_one
  release_all m id [] = m
  release_all m id (rid ∷ rids) = release_all (release_one m id rid) id rids

  -- The last statements of `commit` and `abort`.
  unfoldable pub close : TransactionManager → ℕ → TransactionState → TransactionManager
  unfolding drop_active
  close m id state = record m {
    txns = set_txn m.txns id (record (m.txns id) { state = state });
    active_txns = drop_active (m.txns id).txn_id m.active_txns;
  }

  -- `TransactionManager::commit`
  unfoldable pub commit : TransactionManager → ℕ → TransactionManager
  unfolding release_all close
  commit m id =
      if is_running (m.txns id).state
      then (let locks_to_release = (m.txns id).shared_locks ++ (m.txns id).exclusive_locks in
          close (release_all m id locks_to_release) id TransactionState.committed)
      else m

  -- `TransactionManager::abort`
  unfoldable pub abort : TransactionManager → ℕ → TransactionManager
  unfolding release_all close
  abort m id =
      if is_running (m.txns id).state
      then (let locks_to_release = (m.txns id).shared_locks ++ (m.txns id).exclusive_locks in
          close (release_all m id locks_to_release) id TransactionState.aborted)
      else m

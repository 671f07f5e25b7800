-- ===== src/Concurrency/Transaction.antt =====
-- The context of a transaction (src/concurrency/transaction.rs).
-- A hash set of record ids is a list that holds none twice.
use dip_v.Base.{
  ℕ, ◌≡◌, Bool, true, false, Bool-cases, inl, inr, not, ◌&&◌, ◌||◌, List, [], ◌∷◌, arith,
  if◌then◌else◌,
}
use dip_v.Storage.Rid.{Rid, rid_eq, rid_eq_iff}
use dip_v.Storage.Tuple.{Tuple}

pub data TransactionState : Type 0 where
  running committed aborted : TransactionState

pub data WriteRecord : Type 0 where
  insert : List ℕ → Rid → WriteRecord
  delete : List ℕ → Rid → Tuple → WriteRecord
  update : List ℕ → Rid → Tuple → Rid → Tuple → WriteRecord

pub record Transaction : Type 0 where
  pub txn_id : ℕ
  pub state : TransactionState
  pub shared_locks : List Rid
  pub exclusive_locks : List Rid
  pub write_set : List WriteRecord

-- `Transaction::new`
unfoldable pub new : ℕ → Transaction
new txn_id = record {
  txn_id = txn_id;
  state = TransactionState.running;
  shared_locks = [];
  exclusive_locks = [];
  write_set = [];
}

-- `Transaction::is_aborted`
unfoldable pub is_aborted : Transaction → Bool
is_aborted t = elim t.state [ TransactionState.aborted ↦ true | _ ↦ false ]

-- `Transaction::is_committed`
unfoldable pub is_committed : Transaction → Bool
is_committed t = elim t.state [ TransactionState.committed ↦ true | _ ↦ false ]

-- `HashSet::contains`, `insert` and `remove`
unfoldable pub contains : Rid → List Rid → Bool
contains rid [] = false
contains rid (r ∷ rs) = rid_eq r rid || contains rid rs

unfoldable pub set_insert : Rid → List Rid → List Rid
unfolding contains
set_insert rid rs = if contains rid rs then rs else rid ∷ rs

unfoldable pub set_remove : Rid → List Rid → List Rid
set_remove rid [] = []
set_remove rid (r ∷ rs) = let rest = set_remove rid rs in if rid_eq r rid then rest else r ∷ rest

-- The transaction notes a lock on the resource, in either set.
unfoldable pub locked : Transaction → Rid → Bool
locked t rid = contains rid t.shared_locks || contains rid t.exclusive_locks

pub contains-set_insert :
    (a b : Rid) (l : List Rid) → contains b (set_insert a l) ≡ (rid_eq a b || contains b l)
unfolding set_insert
contains-set_insert a b l = elim (Bool-cases (contains a l)) [
  | inl e ↦ rw e (ground (arith, rid_eq_iff a b, same a b l))
  | inr e ↦ rw e
]
  where
    same : (a b : Rid) (l : List Rid) → rid_eq a b ≡ true → contains b l ≡ contains a l
    same a b l e = rw ((rid_eq_iff a b).0 e)

pub contains-set_remove :
    (a b : Rid) (l : List Rid) → contains b (set_remove a l) ≡ (not (rid_eq a b) && contains b l)
unfolding contains set_remove
contains-set_remove a b [] = ground arith
contains-set_remove a b (r ∷ l) =
    ground (arith, rid_eq_iff r a, rid_eq_iff r b, rid_eq_iff a b, contains-set_remove a b l)

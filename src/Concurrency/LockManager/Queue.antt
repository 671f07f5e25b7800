-- ===== src/Concurrency/LockManager/Queue.antt =====
-- The queue of one resource and the helpers on it (src/concurrency/lock_manager.rs).
use dip_v.Base.{
  ℕ, ◌+◌, ◌-◌, Bool, true, false, not, ◌&&◌, ◌||◌, List, [], ◌∷◌, ◌++◌, Option, none, some, ltb,
  ◌==◌, if◌then◌else◌,
}

pub data LockMode : Type 0 where
  shared exclusive : LockMode

pub record LockRequest : Type 0 where
  pub txn_id : ℕ
  pub mode : LockMode
  pub granted : Bool

pub record LockRequestQueue : Type 0 where
  pub request_queue : List LockRequest
  pub shared_count : ℕ
  pub exclusive_granted : Bool

-- `LockRequestQueue::default`
abbrev pub default : LockRequestQueue
default = record { request_queue = []; shared_count = 0; exclusive_granted = false }

-- Check 1 of `can_grant_lock`: a granted request stands in the way.
unfoldable pub conflicts : LockRequestQueue → LockMode → Bool
conflicts q LockMode.shared = q.exclusive_granted
conflicts q LockMode.exclusive = q.exclusive_granted || ltb 0 q.shared_count

-- Check 2: every request before the first one of the transaction is granted.
unfoldable pub first_in_line : List LockRequest → ℕ → Bool
first_in_line [] txn_id = false
first_in_line (req ∷ rest) txn_id =
    if req.txn_id == txn_id then true else req.granted && first_in_line rest txn_id

-- `LockManager::can_grant_lock`
unfoldable pub can_grant_lock : LockRequestQueue → ℕ → LockMode → Bool
unfolding conflicts
can_grant_lock q txn_id mode = not (conflicts q mode) && first_in_line q.request_queue txn_id

-- The loop of `grant_lock` marks the first request of the transaction.
unfoldable pub mark_granted : List LockRequest → ℕ → List LockRequest
mark_granted [] txn_id = []
mark_granted (req ∷ rest) txn_id =
    if req.txn_id == txn_id
    then record req { granted = true } ∷ rest
    else req ∷ mark_granted rest txn_id

unfoldable pub has_request : List LockRequest → ℕ → Bool
has_request [] txn_id = false
has_request (req ∷ rest) txn_id = (req.txn_id == txn_id) || has_request rest txn_id

-- `LockManager::grant_lock`: the counters change with the first request found.
unfoldable pub grant_lock : LockRequestQueue → ℕ → LockMode → LockRequestQueue
grant_lock q txn_id mode =
    if has_request q.request_queue txn_id
    then (elim mode [
      | LockMode.shared ↦ record q {
        request_queue = mark_granted q.request_queue txn_id;
        shared_count = q.shared_count + 1;
      }
      | LockMode.exclusive ↦ record q {
        request_queue = mark_granted q.request_queue txn_id;
        exclusive_granted = true;
      }
    ])
    else q

-- `retain(|r| r.txn_id != txn_id)`
unfoldable pub without : List LockRequest → ℕ → List LockRequest
without [] txn_id = []
without (req ∷ rest) txn_id =
    let kept = without rest txn_id in if req.txn_id == txn_id then kept else req ∷ kept

-- `LockManager::remove_request`
unfoldable pub remove_request : LockRequestQueue → ℕ → LockRequestQueue
unfolding without
remove_request q txn_id = record q { request_queue = without q.request_queue txn_id }

-- `iter().find(|r| r.txn_id == txn_id && r.granted)`
unfoldable pub find_granted : List LockRequest → ℕ → Option LockRequest
find_granted [] txn_id = none
find_granted (req ∷ rest) txn_id =
    if (req.txn_id == txn_id) && req.granted then some req else find_granted rest txn_id

-- `existing_req.mode = LockMode::Exclusive`, at the request that `find_granted` returned
unfoldable pub make_exclusive : List LockRequest → ℕ → List LockRequest
make_exclusive [] txn_id = []
make_exclusive (req ∷ rest) txn_id =
    if (req.txn_id == txn_id) && req.granted
    then record req { mode = LockMode.exclusive } ∷ rest
    else req ∷ make_exclusive rest txn_id

-- `request_queue.push_back(..)`
unfoldable pub push : LockRequestQueue → ℕ → LockMode → LockRequestQueue
push q txn_id mode = record q {
  request_queue =
      q.request_queue ++ (record { txn_id = txn_id; mode = mode; granted = false } ∷ []);
}

-- The counters after a release: the request that was found gives its mode back.
unfoldable pub give_back : LockRequestQueue → LockMode → LockRequestQueue
give_back q LockMode.shared = record q { shared_count = q.shared_count - 1 }
give_back q LockMode.exclusive = record q { exclusive_granted = false }

-- ===== src/Concurrency/LockManager/Tables.antt =====
-- The lock tables: every step leaves every queue well formed (src/concurrency/lock_manager.rs).
use dip_v.Base.{
  ℕ, ◌≤◌, ◌≡◌, refl, false, Bool-cases, inl, inr, List, [], ◌∷◌, none, some, Option-cases, ◌==◌,
  arith, if◌then◌else◌, ok,
}
use dip_v.Storage.Rid.{Rid, rid_eq, rid_eq_iff}
use dip_v.Concurrency.Transaction.{Transaction, is_aborted}
use dip_v.Concurrency.LockManager.Queue.{
  LockMode, LockRequest, LockRequestQueue, can_grant_lock, remove_request, find_granted, push,
  give_back,
}
use dip_v.Concurrency.LockManager.Counts.{count_txn, first_request}
use dip_v.Concurrency.LockManager.Grant.{
  IsValid, find_granted-none, default-IsValid, grant_lock-IsValid, push-IsValid, release-IsValid,
  remove_request-IsValid, upgrade-IsValid,
}
use dip_v.Concurrency.LockManager
use dip_v.Concurrency.LockManager.{
  LockManager, Outcome, Answer, Table, lookup, insert, remove, queue_at, store, erase,
  get_shard_idx, entry, acquire_lock, resume_lock, reenter, try_grant, release_queue, release_lock,
  store_or_erase,
}

lookup-insert :
    (a b : Rid) (q : LockRequestQueue) (m : Table)
    → lookup b (insert a q m) ≡ (if rid_eq a b then some q else lookup b m)
unfolding lookup insert
lookup-insert a b q [] = refl
lookup-insert a b q ((c, p) ∷ m) =
    ground (arith, rid_eq_iff a b, rid_eq_iff c a, rid_eq_iff c b, lookup-insert a b q m)

lookup-remove :
    (a b : Rid) (m : Table) → lookup b (remove a m) ≡ (if rid_eq a b then none else lookup b m)
unfolding lookup remove
lookup-remove a b [] = ground arith
lookup-remove a b ((c, p) ∷ m) =
    ground (arith, rid_eq_iff a b, rid_eq_iff c a, rid_eq_iff c b, lookup-remove a b m)

waiting_not_granted :
    (l : List LockRequest) (t : ℕ) (m : LockMode)
    → count_txn l t ≤ 1
    → first_request t l ≡ some (record { txn_id = t; mode = m; granted = false })
    → find_granted l t ≡ none
unfolding first_request find_granted count_txn
waiting_not_granted [] t m h k = refl
waiting_not_granted (r ∷ l) t m h k =
    ground (arith, waiting_not_granted l t m, find_granted-none l t)

module _ (hash : Rid → ℕ) where
  pub queue_at-store :
      (lm : LockManager) (a b : Rid) (q : LockRequestQueue)
      → queue_at hash (store hash lm a q) b ≡ (if rid_eq a b then some q else queue_at hash lm b)
  unfolding queue_at store lookup insert
  queue_at-store lm a b q =
      ground (arith, rid_eq_iff a b, lookup-insert a b q (lm.shards (get_shard_idx hash a)))

  pub queue_at-erase :
      (lm : LockManager) (a b : Rid)
      → queue_at hash (erase hash lm a) b ≡ (if rid_eq a b then none else queue_at hash lm b)
  unfolding queue_at erase
  queue_at-erase lm a b =
      ground (arith, rid_eq_iff a b, lookup-remove a b (lm.shards (get_shard_idx hash a)))

  -- Every queue is well formed; a resource without one has the empty queue.
  pub record AllValid (lm : LockManager) : Type 0 where
    pub at : (rid : Rid) → IsValid (entry hash lm rid)

  store-AllValid :
      (lm : LockManager) (rid : Rid) (q : LockRequestQueue)
      → AllValid lm
      → IsValid q
      → AllValid (store hash lm rid q)
  store-AllValid lm rid q v w = record {
    at = λ b. elim (Bool-cases (rid_eq rid b)) [
      | inl e ↦ rw (queue_at-store lm rid b q, e) w
      | inr e ↦ rw (queue_at-store lm rid b q, e) (v.at b)
    ];
  }

  erase-AllValid : (lm : LockManager) (rid : Rid) → AllValid lm → AllValid (erase hash lm rid)
  erase-AllValid lm rid v = record {
    at = λ b. elim (Bool-cases (rid_eq rid b)) [
      | inl e ↦ rw (queue_at-erase lm rid b, e) default-IsValid
      | inr e ↦ rw (queue_at-erase lm rid b, e) (v.at b)
    ];
  }

  pub new-AllValid : AllValid LockManager.new
  unfolding queue_at LockManager.new
  new-AllValid = record { at = λ b. default-IsValid }

  try_grant-AllValid :
      (lm : LockManager) (txn : Transaction) (rid : Rid) (m : LockMode) (q : LockRequestQueue)
      → AllValid lm
      → IsValid q
      → first_request txn.txn_id q.request_queue
        ≡ some (record { txn_id = txn.txn_id; mode = m; granted = false })
      → AllValid (try_grant hash lm txn rid m q).manager
  unfolding try_grant
  try_grant-AllValid lm txn rid m q v w first = elim (Bool-cases (can_grant_lock q txn.txn_id m)) [
    | inl e ↦ rw e (store-AllValid lm rid _ v (grant_lock-IsValid q txn.txn_id m w first e))
    | inr e ↦ rw e (store-AllValid lm rid q v w)
  ]

  reenter-AllValid :
      (lm : LockManager) (txn : Transaction) (rid : Rid) (q : LockRequestQueue) (r : LockRequest)
      (held wanted : LockMode)
      → AllValid lm
      → IsValid q
      → find_granted q.request_queue txn.txn_id ≡ some r
      → r.mode ≡ held
      → AllValid (reenter hash lm txn rid q held wanted).manager
  unfolding reenter
  reenter-AllValid lm txn rid q r LockMode.exclusive wanted v w found e = v
  reenter-AllValid lm txn rid q r LockMode.shared LockMode.shared v w found e = v
  reenter-AllValid lm txn rid q r LockMode.shared LockMode.exclusive v w found e =
      elim (Bool-cases (q.shared_count == 1)) [
        | inl alone ↦
            rw alone
              (store-AllValid lm rid _ v (upgrade-IsValid q txn.txn_id r w found e (ground arith)))
        | inr many ↦ rw many v
      ]

  -- The transaction has no request in the queue that still waits.
  abbrev pub NotWaiting : LockManager → ℕ → Rid → Type 0
  NotWaiting lm t rid =
      find_granted (entry hash lm rid).request_queue t ≡ none
      → count_txn (entry hash lm rid).request_queue t ≡ 0

  -- `acquire_lock` leaves every queue well formed, if the transaction is not at that moment
  -- waiting for the same resource.
  pub acquire_lock-AllValid :
      (lm : LockManager) (txn : Transaction) (rid : Rid) (m : LockMode)
      → AllValid lm
      → NotWaiting lm txn.txn_id rid
      → AllValid (acquire_lock hash lm txn rid m).manager
  unfolding acquire_lock
  acquire_lock-AllValid lm txn rid m v idle =
      let q = entry hash lm rid in
      elim (Option-cases (find_granted q.request_queue txn.txn_id)) [
        | inl absent ↦
            let (w, first) = push-IsValid q txn.txn_id m (v.at rid) (idle absent) in
            rw (absent, acquire_lock)
              (try_grant-AllValid lm txn rid m (push q txn.txn_id m) v w first)
        | inr (r, found) ↦
            rw (found, acquire_lock)
              (reenter-AllValid lm txn rid q r r.mode m v (v.at rid) found refl)
      ]

  -- A round of the wait loop leaves every queue well formed, if the transaction waits in the queue
  -- with the mode that its thread asks for; and the round does not panic.
  pub resume_lock-AllValid :
      (lm : LockManager) (txn : Transaction) (rid : Rid) (m : LockMode) (q : LockRequestQueue)
      → AllValid lm
      → queue_at hash lm rid ≡ some q
      → first_request txn.txn_id q.request_queue
        ≡ some (record { txn_id = txn.txn_id; mode = m; granted = false })
      → (out : Outcome) × (resume_lock hash lm txn rid m ≡ ok out) × AllValid out.manager
  unfolding resume_lock
  resume_lock-AllValid lm txn rid m q v there first =
      let w : IsValid q = rw there at (v.at rid) in
      elim (Bool-cases (is_aborted txn)) [
        | inl gone ↦ (
          record {
            answer = Answer.returned false;
            txn = txn;
            manager = store hash lm rid (remove_request q txn.txn_id);
          },
          rw (there, resume_lock, gone),
          store-AllValid lm rid _ v (
              remove_request-IsValid q txn.txn_id w
                (waiting_not_granted q.request_queue txn.txn_id m (w.distinct txn.txn_id) first)),
        )
        | inr alive ↦ (
          try_grant hash lm txn rid m q,
          rw (there, resume_lock, alive),
          try_grant-AllValid lm txn rid m q v w first,
        )
      ]

  store_or_erase-AllValid :
      (lm : LockManager) (rid : Rid) (q : LockRequestQueue)
      → AllValid lm
      → IsValid q
      → AllValid (store_or_erase hash lm rid q)
  unfolding store_or_erase
  store_or_erase-AllValid lm rid q v w =
      elim (q.request_queue)
        as (λ l. AllValid (elim l [ [] ↦ erase hash lm rid | _ ∷ _ ↦ store hash lm rid q ])) [
          | [] ↦ erase-AllValid lm rid v
          | _ ∷ _ ↦ store-AllValid lm rid q v w
        ]

  release_queue-AllValid :
      (lm : LockManager) (t : ℕ) (rid : Rid) → AllValid lm → AllValid (release_queue hash lm t rid)
  unfolding release_queue
  release_queue-AllValid lm t rid v = elim (Option-cases (queue_at hash lm rid)) [
    | inl e ↦ rw (e, release_queue) v
    | inr (q, there) ↦
        let w : IsValid q = rw there at (v.at rid) in
        elim (Option-cases (find_granted q.request_queue t)) [
          | inl e ↦ rw (there, release_queue, e) v
          | inr (r, found) ↦
              rw (there, release_queue, found)
                (store_or_erase-AllValid lm rid (remove_request (give_back q r.mode) t) v
                  (release-IsValid q t r w found))
        ]
  ]

  -- A release leaves every queue well formed.
  pub release_lock-AllValid :
      (lm : LockManager) (txn : Transaction) (rid : Rid)
      → AllValid lm
      → AllValid (release_lock hash lm txn rid).0
  unfolding release_lock
  release_lock-AllValid lm txn rid v = release_queue-AllValid lm txn.txn_id rid v

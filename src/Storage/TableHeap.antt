-- ===== src/Storage/TableHeap.antt =====
-- The pages of a table and their tuples (src/storage/table/table_heap.rs).
-- `bpm` is the manager that each operation takes and gives back. `None` of the source is `none`
-- beside the manager, since `?` may come after a change.
pub mod View
pub mod Chain
pub mod Undo
pub mod Tests
use dip_v.Base.{
  ℕ, zero, suc, ◌+◌, ◌-◌, ◌%◌, ◌^◌, Bool, true, false, List, length, ◌==◌, if◌then◌else◌, Option,
  none, some, Result, ok, fail, panic, ◌>>=◌, ◌>>◌, assert,
}
use dip_v.Storage.Page
use dip_v.Storage.Rid
use dip_v.Storage.Rid.{Rid}
use dip_v.Storage.Tuple.{Tuple, set_rid}
use dip_v.Storage.SlottedPage
use dip_v.Storage.PoolManager.{BufferPoolManager, fetch_page, new_page}
use dip_v.Storage.PageAccess.{copy_page, open_page, save_page, close_page}

pub record TableHeap : Type 0 where
  pub first_page_id : ℕ

-- `TableHeap::from_first_page_id`
abbrev pub from_first_page_id : ℕ → TableHeap
from_first_page_id page_id = record { first_page_id = page_id }

-- `TableHeap::get_first_page_id`
abbrev pub get_first_page_id : TableHeap → ℕ
get_first_page_id table = table.first_page_id

pub record TableIterator : Type 0 where
  pub current_page_id : ℕ
  pub current_slot_id : ℕ
  pub finished : Bool

-- `TableIterator::new`
abbrev pub new_iterator : ℕ → TableIterator
new_iterator start_page_id = record {
  current_page_id = start_page_id;
  current_slot_id = 0;
  finished = false;
}

-- `TableHeap::iter`
abbrev pub iter : TableHeap → TableIterator
iter table = new_iterator table.first_page_id

-- `set_rid` on the tuple that was found
unfoldable pub with_rid : Rid → Option Tuple → Option Tuple
unfolding set_rid
with_rid rid none = none
with_rid rid (some t) = some (set_rid t rid)

-- `SlottedPage::init(0)` on the bytes of a new page
unfoldable pub blank_page : Result (List ℕ)
unfolding SlottedPage.init Page.new
blank_page = SlottedPage.init Page.new.bytes 0

-- The inner loop of `TableIterator::next`: rounds left and the slot; the tuple found with its slot,
-- and the next slot.
unfoldable pub scan_slots : ℕ → List ℕ → ℕ → Result (Option (ℕ × Tuple) × ℕ)
unfolding SlottedPage.get_tuple
scan_slots zero page slot_id = ok (none, slot_id)
scan_slots (suc rounds) page slot_id = do
  found ← SlottedPage.get_tuple page (slot_id % 2 ^ 16)
  elim found [
    | some tuple ↦ ok (some (slot_id, tuple), slot_id + 1)
    | none ↦ scan_slots rounds page (slot_id + 1)
  ]

-- `hash` is the standard library's hasher.
module _ (hash : ℕ → ℕ) where
  -- `TableHeap::new`: `new_page` pins the page, and so does `fetch_page`; one pin is dropped.
  unfoldable pub new : BufferPoolManager → Result (TableHeap × BufferPoolManager)
  unfolding new_page fetch_page copy_page save_page SlottedPage.init
  new m = do
    (allocated, m1) ← new_page hash m
    elim allocated [
      | none ↦ panic
      | some first_page_id ↦ do
        (frame, m2) ← fetch_page hash m1 first_page_id
        elim frame [
          | none ↦ panic
          | some f ↦ do
            page ← copy_page hash m2 first_page_id
            page' ← SlottedPage.init page 0
            ok (record { first_page_id = first_page_id }, save_page hash m2 first_page_id page')
        ]
    ]

  -- The end of `insert_tuple`'s round on a full last page: a new page follows the current one.
  unfoldable pub append_page :
      BufferPoolManager → ℕ → List ℕ → Result (Option ℕ × BufferPoolManager)
  unfolding new_page save_page blank_page
  append_page m current_page_id page = do
    (allocated, m1) ← new_page hash m
    elim allocated [
      | none ↦ ok (none, m1)
      | some new_page_id ↦ do
        page' ← SlottedPage.set_next_page_id page new_page_id
        let m2 = save_page hash m1 current_page_id page'
        blank ← blank_page
        ok (some new_page_id, save_page hash m2 new_page_id blank)
    ]

  -- The loop of `insert_tuple`; `fail` says that the rounds are used up.
  unfoldable pub insert_from :
      ℕ → BufferPoolManager → ℕ → Tuple → Result (Option Rid × BufferPoolManager)
  unfolding open_page append_page save_page close_page SlottedPage.insert_tuple
  insert_from zero m current_page_id tuple = fail
  insert_from (suc rounds) m current_page_id tuple = do
    (opened, m1) ← open_page hash m current_page_id
    elim opened [
      | none ↦ ok (none, m1)
      | some page ↦ do
        (placed, page') ← SlottedPage.insert_tuple page tuple
        elim placed [
          | some slot_id ↦
              ok (some (Rid.new current_page_id slot_id), save_page hash m1 current_page_id page')
          | none ↦ do
            next_page_id ← SlottedPage.get_next_page_id page'
            elim (next_page_id == 0) [
              | false ↦ insert_from rounds (close_page hash m1 current_page_id) next_page_id tuple
              | true ↦ do
                (added, m2) ← append_page m1 current_page_id page'
                elim added [
                  | none ↦ ok (none, m2)
                  | some new_page_id ↦ insert_from rounds m2 new_page_id tuple
                ]
            ]
        ]
    ]

  -- `TableHeap::insert_tuple`
  unfoldable pub insert_tuple :
      ℕ → TableHeap → BufferPoolManager → Tuple → Result (Option Rid × BufferPoolManager)
  unfolding insert_from
  insert_tuple rounds table m tuple = insert_from rounds m table.first_page_id tuple

  -- `TableHeap::get_tuple`
  unfoldable pub get_tuple : BufferPoolManager → Rid → Result (Option Tuple × BufferPoolManager)
  unfolding open_page close_page SlottedPage.get_tuple with_rid
  get_tuple m rid = do
    (opened, m1) ← open_page hash m rid.page_id
    elim opened [
      | none ↦ ok (none, m1)
      | some page ↦ do
        found ← SlottedPage.get_tuple page (rid.slot_num % 2 ^ 16)
        ok (with_rid rid found, close_page hash m1 rid.page_id)
    ]

  -- The end of `mark_delete` and `rollback_delete`.
  unfoldable pub finish : BufferPoolManager → ℕ → Bool × List ℕ → Bool × BufferPoolManager
  unfolding save_page close_page
  finish m page_id (true, page) = (true, save_page hash m page_id page)
  finish m page_id (false, page) = (false, close_page hash m page_id)

  -- `TableHeap::mark_delete`
  unfoldable pub mark_delete : BufferPoolManager → Rid → Result (Bool × BufferPoolManager)
  unfolding open_page finish SlottedPage.mark_delete
  mark_delete m rid = do
    (opened, m1) ← open_page hash m rid.page_id
    elim opened [
      | none ↦ ok (false, m1)
      | some page ↦ do
        marked ← SlottedPage.mark_delete page (rid.slot_num % 2 ^ 16)
        ok (finish m1 rid.page_id marked)
    ]

  -- `TableHeap::rollback_delete`
  unfoldable pub rollback_delete : BufferPoolManager → Rid → ℕ → Result (Bool × BufferPoolManager)
  unfolding open_page finish SlottedPage.rollback_delete
  rollback_delete m rid original_len = do
    (opened, m1) ← open_page hash m rid.page_id
    elim opened [
      | none ↦ ok (false, m1)
      | some page ↦ do
        restored ← SlottedPage.rollback_delete page (rid.slot_num % 2 ^ 16) original_len
        ok (finish m1 rid.page_id restored)
    ]

  -- `TableIterator::skip_page`
  unfoldable pub skip_page :
      TableIterator → BufferPoolManager → Result (TableIterator × BufferPoolManager)
  unfolding open_page close_page
  skip_page it m = if it.finished then ok (it, m) else (do
    (opened, m1) ← open_page hash m it.current_page_id
    elim opened [
      | none ↦ ok (record it { finished = true }, m1)
      | some page ↦ do
        next_page_id ← SlottedPage.get_next_page_id page
        let m2 = close_page hash m1 it.current_page_id
        ok (
          if next_page_id == 0
              then record it { finished = true }
              else record it { current_page_id = next_page_id; current_slot_id = 0 },
          m2,
        )
    ])

  -- The outer loop of `TableIterator::next`; `fail` says that the rounds are used up.
  unfoldable pub next_from :
      ℕ
      → TableIterator
      → BufferPoolManager
      → Result (Option Tuple × TableIterator × BufferPoolManager)
  unfolding open_page close_page scan_slots set_rid
  next_from zero it m = fail
  next_from (suc rounds) it m = do
    (opened, m1) ← open_page hash m it.current_page_id
    elim opened [
      | none ↦ ok (none, it, m1)
      | some page ↦ do
        slot_count ← SlottedPage.get_slot_count page
        (found, slot_id) ← scan_slots (slot_count - it.current_slot_id) page it.current_slot_id
        let m2 = close_page hash m1 it.current_page_id
        let it' : TableIterator = record it { current_slot_id = slot_id }
        elim found [
          | some (at, tuple) ↦ ok (some (set_rid tuple (Rid.new it.current_page_id at)), it', m2)
          | none ↦ do
            next_page_id ← SlottedPage.get_next_page_id page
            elim (next_page_id == 0) [
              | true ↦ ok (none, record it' { finished = true }, m2)
              | false ↦
                  next_from rounds
                    (record it { current_page_id = next_page_id; current_slot_id = 0 }) m2
            ]
        ]
    ]

  -- `TableIterator::next`
  unfoldable pub next :
      ℕ
      → TableIterator
      → BufferPoolManager
      → Result (Option Tuple × TableIterator × BufferPoolManager)
  unfolding next_from
  next rounds it m = if it.finished then ok (none, it, m) else next_from rounds it m

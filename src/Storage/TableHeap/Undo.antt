-- ===== src/Storage/TableHeap/Undo.antt =====
-- A deletion undone (src/storage/table/table_heap.rs).
use dip_v.Base.{
  ℕ, ◌+◌, ◌*◌, ◌%◌, ◌^◌, ◌≤◌, ◌<◌, ◌≡◌, refl, true, false, Bool-cases, inl, inr, leb, ◌==◌, arith,
  List, length, Option, some, ok, sym, ◌∙◌, ◌>>=◌, >>=-eq-ok, ok-injective,
}
use dip_v.Base.Bytes.{slice}
use dip_v.Base.Splice.{length-slice}
use dip_v.Storage.Rid.{Rid}
use dip_v.Storage.Tuple
use dip_v.Storage.Tuple.{Tuple, set_rid}
use dip_v.Storage.SlottedPage
use dip_v.Storage.SlottedPage.{get_u16, deleted_bit}
use dip_v.Storage.SlottedPage.Insert.{IsPage, slot_answer, get_tuple_slot}
use dip_v.Storage.SlottedPage.Delete
use dip_v.Storage.PoolManager.{BufferPoolManager}
use dip_v.Storage.PoolManager.Invariant.{page_content}
use dip_v.Storage.PoolManager.Calls.{Saved, Ready}
use dip_v.Storage.PageAccess.{open_page, save_page}
use dip_v.Storage.PageAccess.Laws.{open_page_lem, save_page_lem}
use dip_v.Storage.TableHeap.{mark_delete, rollback_delete, finish}
use dip_v.Storage.TableHeap.View.{unused, view, Saved-view}

-- Pages whose slots in use read the same read the same in every slot.
same_slots :
    (page page' : List ℕ) (count fp : ℕ)
    → IsPage page count fp
    → IsPage page' count fp
    → ((j : ℕ) → j < count → SlottedPage.get_tuple page' j ≡ SlottedPage.get_tuple page j)
    → (j : ℕ) → SlottedPage.get_tuple page' j ≡ SlottedPage.get_tuple page j
same_slots page page' count fp v v' same j = elim (Bool-cases (leb count j)) [
  | inl e ↦
      unused page' count fp j v' (ground arith) ∙ sym (unused page count fp j v (ground arith))
  | inr e ↦ same j (ground arith)
]

-- The tuple of a slot has as many bytes as the slot says.
tuple-length :
    (page : List ℕ) (count fp k len : ℕ) (t : Tuple)
    → IsPage page count fp
    → k < count
    → get_u16 page (12 + k * 4 + 2) ≡ ok len
    → len < 32768
    → SlottedPage.get_tuple page k ≡ ok (some t)
    → length t.bytes ≡ len
unfolding slot_answer Tuple.new
tuple-length page count fp k len t v used word live found =
    let s = v.slots k used in
    let below : s.offset + len % 32768 ≤ 4096 =
      (let e : s.len ≡ len = ok-injective _ _ (sym s.len_word ∙ word) in rw e at s.inside) in
    let answer : slot_answer page s.offset len ≡ ok (some t) =
      sym (get_tuple_slot page count k s.offset len v.counts used s.offset_word word) ∙ found in
    let whole : len % 32768 ≡ len = omega arith in
    let bit : leb 32768 (len % 65536) ≡ false = ground arith in
    elim (Bool-cases (len == 0)) [
      | inl empty ↦ ground (arith, whole, bit, answer)
      | inr some_bytes ↦
          let rest : (slice page s.offset ((s.offset + len) % 2 ^ 16) >>= λ bytes.
          ok (some (Tuple.new bytes)))
              ≡ ok (some t) =
            rw (bit, whole, some_bytes) at answer in
          let (bytes, cut, last) =
            >>=-eq-ok (slice page s.offset ((s.offset + len) % 2 ^ 16)) _ rest in
          let sizes = length-slice page bytes s.offset ((s.offset + len) % 2 ^ 16) cut in
          let same : bytes ≡ t.bytes = cc in rw (← same) (omega (arith, sizes.2, below, whole))
    ]

module _ (hash : ℕ → ℕ) where
  mark_runs :
      (m m1 : BufferPoolManager) (rid : Rid) (page page' : List ℕ)
      → open_page hash m rid.page_id ≡ ok (some page, m1)
      → rid.slot_num % 2 ^ 16 ≡ rid.slot_num
      → SlottedPage.mark_delete page rid.slot_num ≡ ok (true, page')
      → mark_delete hash m rid ≡ ok (true, save_page hash m1 rid.page_id page')
  unfolding mark_delete finish
  mark_runs m m1 rid page page' opened slot marked = rw (opened, slot, marked) refl

  rollback_runs :
      (m m1 : BufferPoolManager) (rid : Rid) (len : ℕ) (page page' : List ℕ)
      → open_page hash m rid.page_id ≡ ok (some page, m1)
      → rid.slot_num % 2 ^ 16 ≡ rid.slot_num
      → SlottedPage.rollback_delete page rid.slot_num len ≡ ok (true, page')
      → rollback_delete hash m rid len ≡ ok (true, save_page hash m1 rid.page_id page')
  unfolding rollback_delete finish
  rollback_runs m m1 rid len page page' opened slot restored = rw (opened, slot, restored) refl

  -- If the pool is ready and a record id names a slot of fewer than 32768 bytes on a valid page that
  -- reads a tuple, then `mark_delete` and after it `rollback_delete` with the tuple's length both
  -- succeed, every record id shows again what it showed before, and the pool is ready.
  pub rollback_delete-mark_delete :
      (m : BufferPoolManager) (rid : Rid) (page : List ℕ) (count fp len : ℕ) (t : Tuple)
      → Ready hash m
      → page_content hash m rid.page_id ≡ ok page
      → IsPage page count fp
      → rid.slot_num < count
      → get_u16 page (12 + rid.slot_num * 4 + 2) ≡ ok len
      → len < 32768
      → SlottedPage.get_tuple page rid.slot_num ≡ ok (some t)
      → (m1 : BufferPoolManager) × (m2 : BufferPoolManager) × (mark_delete hash m rid
          ≡ ok (true, m1))
        × (rollback_delete hash m1 rid (length t.bytes) ≡ ok (true, m2))
        × Ready hash m2
        × ((other : Rid) (shown : Option Tuple)
            → view hash m other ≡ ok shown
            → view hash m2 other ≡ ok shown)
  rollback_delete-mark_delete m rid page count fp len t ready h v used word live found =
      let p : ℕ = rid.page_id in
      let slot : rid.slot_num % 2 ^ 16 ≡ rid.slot_num = omega (arith, v.below, v.top, used) in
      let (f, a, opened, same, held, size) = open_page_lem hash m p page ready h in
      let (page1, marked, deleted) = Delete.mark_delete_lem page count fp rid.slot_num v used in
      let (saved1, ready1) = save_page_lem hash a p f page1 held deleted.valid.size in
      let m1 = save_page hash a p page1 in
      let (g, b, opened2, same2, held2, size2) = open_page_lem hash m1 p page1 ready1 saved1.now in
      let (page2, restored, valid2, back) = deleted.restored len word live in
      let (saved2, ready2) = save_page_lem hash b p g page2 held2 valid2.size in
      let m2 = save_page hash b p page2 in
      let bytes : length t.bytes ≡ len =
        tuple-length page count fp rid.slot_num len t v used word live found in
      let kept : Saved hash m m2 p page2 = record {
        valid = saved2.valid;
        now = saved2.now;
        others = λ q old apart k.
            saved2.others q old apart
              (same2.same q old (saved1.others q old apart (same.same q old k)));
      } in
      (
        m1,
        m2,
        mark_runs m a rid page page1 opened slot marked,
        rollback_runs m1 b rid (length t.bytes) page1 page2 opened2 slot (rw bytes restored),
        ready2,
        λ other shown seen.
            Saved-view hash m m2 p page page2 other shown h kept
              (λ at. same_slots page page2 count fp v valid2 back (other.slot_num % 2 ^ 16)) seen,
      )

-- ===== src/Storage/SlottedPage/Insert.antt =====
-- A tuple inserted reads back and the others stay (src/storage/table/slotted_page.rs).
use dip_v.Base.{
  ℕ, ◌+◌, ◌-◌, ◌*◌, ◌%◌, ◌≤◌, ◌<◌, ◌≡◌, ◌^◌, inl, inr, refl, ◌∙◌, sym, subst, List, length, leb,
  ltb, ◌==◌, true, false, Bool-cases, arith, Option, none, some, Result, ok, ◌>>=◌, if◌then◌else◌,
}
use dip_v.Base.Bytes.{slice}
use dip_v.Storage.Tuple
use dip_v.Storage.Tuple.{Tuple}
use dip_v.Storage.SlottedPage.{
  get_u16, get_slot, deleted_bit, insert_tuple, get_tuple, get_free_space_remaining,
}
use dip_v.Storage.SlottedPage.Layout.{
  placed, place_lem, step5, placed_pointer, placed_count, placed_offset, placed-length, placed-slot,
  placed_bytes, placed_other,
}

-- A slot in use: where its tuple lies, above the free space.
pub record Slot (page : List ℕ) (fp k : ℕ) : Type 0 where
  pub offset : ℕ
  pub len : ℕ
  pub offset_word : get_u16 page (12 + k * 4) ≡ ok offset
  pub len_word : get_u16 page (12 + k * 4 + 2) ≡ ok len
  pub above : fp ≤ offset
  pub inside : offset + len % 32768 ≤ 4096

-- A page of 4096 bytes whose slots end below the free space pointer, and whose tuples lie above it.
pub record IsPage (page : List ℕ) (count fp : ℕ) : Type 0 where
  pub size : length page ≡ 4096
  pub counts : get_u16 page 6 ≡ ok count
  pub pointer : get_u16 page 4 ≡ ok fp
  pub below : 12 + count * 4 ≤ fp
  pub top : fp ≤ 4096
  pub slots : (k : ℕ) → k < count → Slot page fp k

-- What `get_tuple` does with a slot in use.
unfoldable pub slot_answer : List ℕ → ℕ → ℕ → Result (Option Tuple)
unfolding Tuple.new
slot_answer page offset len =
    if deleted_bit len
    then ok none
    else (if len % 32768 == 0 then ok none else (do
      bytes ← slice page offset ((offset + len % 32768) % 2 ^ 16)
      ok (some (Tuple.new bytes))))

pub get_tuple_slot :
    (page : List ℕ) (count k offset len : ℕ)
    → get_u16 page 6 ≡ ok count
    → k < count
    → get_u16 page (12 + k * 4) ≡ ok offset
    → get_u16 page (12 + k * 4 + 2) ≡ ok len
    → get_tuple page k ≡ slot_answer page offset len
unfolding get_tuple get_slot slot_answer
get_tuple_slot page count k offset len counts h o l =
    let used : leb count k ≡ false = ground arith in rw (counts, used, o, l)

remaining :
    (page : List ℕ) (count fp : ℕ)
    → IsPage page count fp
    → get_free_space_remaining page ≡ ok (fp - (12 + count * 4))
unfolding get_free_space_remaining
remaining page count fp v =
    let end : (12 + count * 4 % 2 ^ 16) % 2 ^ 16 ≡ 12 + count * 4 = omega (arith, v.below, v.top) in
    let fits : ltb fp (12 + count * 4) ≡ false = ground (arith, v.below) in
    rw (v.counts, v.pointer, end, fits)

insert_runs :
    (page : List ℕ) (count fp : ℕ) (tuple : Tuple)
    → IsPage page count fp
    → 16 + count * 4 + length tuple.bytes ≤ fp
    → insert_tuple page tuple ≡ ok (some count, placed page tuple.bytes count fp)
unfolding insert_tuple Tuple.size
insert_runs page count fp tuple v room =
    let small : length tuple.bytes % 2 ^ 16 ≡ length tuple.bytes = omega (arith, room, v.top) in
    let more : (length tuple.bytes + 4) % 2 ^ 16 ≡ length tuple.bytes + 4 =
      omega (arith, room, v.top) in
    let fits : ltb (fp - (12 + count * 4)) (length tuple.bytes + 4) ≡ false =
      ground (arith, room) in
    rw (remaining page count fp v, small, more, fits)
      (place_lem page tuple.bytes count fp v.size room v.top v.counts v.pointer)

module _ (page : List ℕ) (count fp : ℕ) (bytes : List ℕ) (v : IsPage page count fp)
    (room : 16 + count * 4 + length bytes ≤ fp) where
  kept-Slot : (k : ℕ) → k < count → Slot (placed page bytes count fp) (fp - length bytes) k
  kept-Slot k h =
      let s = v.slots k h in
      record {
        offset = s.offset;
        len = s.len;
        offset_word =
            placed-slot page bytes count fp v.size room v.top (12 + k * 4) (omega arith)
              (omega arith)
            ∙ s.offset_word;
        len_word =
            placed-slot page bytes count fp v.size room v.top (12 + k * 4 + 2) (omega arith)
              (omega arith)
            ∙ s.len_word;
        above = omega (arith, s.above);
        inside = s.inside;
      }

  new-Slot : Slot (placed page bytes count fp) (fp - length bytes) count
  new-Slot = record {
    offset = fp - length bytes;
    len = length bytes;
    offset_word = placed_offset page bytes count fp v.size room v.top;
    len_word = placed-length page bytes count fp v.size room v.top;
    above = omega arith;
    inside = omega (arith, room, v.top);
  }

  pub placed-IsPage : IsPage (placed page bytes count fp) (count + 1) (fp - length bytes)
  placed-IsPage = record {
    size = (step5 page bytes count fp v.size room v.top).1;
    counts = placed_count page bytes count fp v.size room v.top;
    pointer = placed_pointer page bytes count fp v.size room v.top;
    below = omega (arith, room);
    top = omega (arith, v.top);
    slots = λ k h. elim (Bool-cases (k == count)) [
      | inl e ↦ let at : count ≡ k = ground arith in subst (Slot _ _) at new-Slot
      | inr e ↦ kept-Slot k (ground arith)
    ];
  }

  pub reads_back :
      0 < length bytes → get_tuple (placed page bytes count fp) count ≡ ok (some (Tuple.new bytes))
  unfolding slot_answer
  reads_back some_bytes =
      let live : deleted_bit (length bytes) ≡ false = ground (arith, room, v.top) in
      let whole : length bytes % 32768 ≡ length bytes = omega (arith, room, v.top) in
      let full : (length bytes == 0) ≡ false = ground arith in
      let end : (fp - length bytes + length bytes) % 2 ^ 16 ≡ fp = omega (arith, room, v.top) in
      get_tuple_slot (placed page bytes count fp) (count + 1) count (fp - length bytes)
        (length bytes) placed-IsPage.counts (omega arith)
        (placed_offset page bytes count fp v.size room v.top)
        (placed-length page bytes count fp v.size room v.top)
      ∙ rw (live, whole, full, end, placed_bytes page bytes count fp v.size room v.top fp refl)

  others_stay : (k : ℕ) → k < count → get_tuple (placed page bytes count fp) k ≡ get_tuple page k
  unfolding slot_answer
  others_stay k h =
      let s = v.slots k h in
      let o =
        placed-slot page bytes count fp v.size room v.top (12 + k * 4) (omega arith)
          (omega arith) in
      let l =
        placed-slot page bytes count fp v.size room v.top (12 + k * 4 + 2) (omega arith)
          (omega arith) in
      let part =
        placed_other page bytes count fp v.size room v.top s.offset
          ((s.offset + s.len % 32768) % 2 ^ 16) s.above in
      let after : get_tuple (placed page bytes count fp) k
          ≡ slot_answer (placed page bytes count fp) s.offset s.len =
        get_tuple_slot (placed page bytes count fp) (count + 1) k s.offset s.len
          placed-IsPage.counts (omega arith) (o ∙ s.offset_word) (l ∙ s.len_word) in
      let before : get_tuple page k ≡ slot_answer page s.offset s.len =
        get_tuple_slot page count k s.offset s.len v.counts h s.offset_word s.len_word in
      let same : slot_answer (placed page bytes count fp) s.offset s.len
          ≡ slot_answer page s.offset s.len =
        rw part in
      after ∙ (same ∙ sym before)

-- A tuple put on a page.
pub record Inserted (page : List ℕ) (count fp : ℕ) (tuple : Tuple) (page' : List ℕ) : Type 0 where
  pub valid : IsPage page' (count + 1) (fp - length tuple.bytes)
  pub reads : get_tuple page' count ≡ ok (some (Tuple.new tuple.bytes))
  pub others : (k : ℕ) → k < count → get_tuple page' k ≡ get_tuple page k

-- On a valid page with room for the bytes of a tuple that is not empty and for its slot,
-- `insert_tuple` answers with the first unused slot; that slot then reads the tuple's bytes, every slot
-- in use reads as before, and the page stays valid.
pub insert_tuple_lem :
    (page : List ℕ) (count fp : ℕ) (tuple : Tuple)
    → IsPage page count fp
    → 0 < length tuple.bytes
    → 16 + count * 4 + length tuple.bytes ≤ fp
    → (page' : List ℕ) × (insert_tuple page tuple ≡ ok (some count, page'))
      × Inserted page count fp tuple page'
insert_tuple_lem page count fp tuple v some_bytes room = (
  placed page tuple.bytes count fp,
  insert_runs page count fp tuple v room,
  record {
    valid = placed-IsPage page count fp tuple.bytes v room;
    reads = reads_back page count fp tuple.bytes v room some_bytes;
    others = others_stay page count fp tuple.bytes v room;
  },
)

-- On a valid page, a tuple of less than 65532 bytes that does not fit with its slot is refused and
-- the page is left as it is.
pub insert_tuple_full :
    (page : List ℕ) (count fp : ℕ) (tuple : Tuple)
    → IsPage page count fp
    → length tuple.bytes < 65532
    → fp < 16 + count * 4 + length tuple.bytes
    → insert_tuple page tuple ≡ ok (none, page)
unfolding insert_tuple Tuple.size
insert_tuple_full page count fp tuple v small full =
    let whole : length tuple.bytes % 2 ^ 16 ≡ length tuple.bytes = omega (arith, small) in
    let more : (length tuple.bytes + 4) % 2 ^ 16 ≡ length tuple.bytes + 4 = omega (arith, small) in
    let low = v.below in
    let fits : ltb (fp - (12 + count * 4)) (length tuple.bytes + 4) ≡ true = ground arith in
    rw (remaining page count fp v, whole, more, fits)

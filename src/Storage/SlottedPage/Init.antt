-- ===== src/Storage/SlottedPage/Init.antt =====
-- An initialised page (src/storage/table/slotted_page.rs).
use dip_v.Base.{ℕ, ◌+◌, ◌-◌, ◌≤◌, ◌<◌, ◌≡◌, ◌^◌, inl, ◌∙◌, List, length, leb, ◌==◌, true, arith, ok}
use dip_v.Base.Bytes.{u32_to_le_bytes, u32_round_trip, length-u32_to_le_bytes}
use dip_v.Base.Splice.{splice, write, length-splice, slice-splice_self}
use dip_v.Storage.SlottedPage.{get_u16, set_u16, get_u32, set_u32, init}
use dip_v.Storage.SlottedPage.Words.{
  with_u16, set_u16_lem, get_u16-with_u16, get_u16-with_u16_other, get_u16-splice_other,
}
use dip_v.Storage.SlottedPage.Insert.{IsPage}

abbrev with_u32 : List ℕ → ℕ → ℕ → List ℕ
with_u32 page offset value = splice page offset (u32_to_le_bytes value)

set_u32_lem :
    (page : List ℕ) (offset value : ℕ)
    → offset + 4 ≤ length page
    → (set_u32 page offset value ≡ ok (with_u32 page offset value))
      × (length (with_u32 page offset value) ≡ length page)
unfolding set_u32 write
set_u32_lem page offset value h =
    let ordered : leb offset (offset + 4) ≡ true = ground arith in
    let inside : leb (offset + 4) (length page) ≡ true = ground arith in
    let size : (length (u32_to_le_bytes value) == offset + 4 - offset) ≡ true =
      ground (arith, length-u32_to_le_bytes value) in
    (
      rw (ordered, inside, size),
      length-splice page offset (u32_to_le_bytes value)
          (omega (arith, h, length-u32_to_le_bytes value)),
    )

-- The page that `init` leaves.
abbrev blank : List ℕ → ℕ → List ℕ
blank page next_page_id =
    with_u32 (with_u16 (with_u16 (with_u32 page 0 0) 4 4096) 6 0) 8 next_page_id

module _ (page : List ℕ) (next_page_id : ℕ) (size : length page ≡ 4096) where
  step1 : (set_u32 page 0 0 ≡ ok (with_u32 page 0 0)) × (length (with_u32 page 0 0) ≡ 4096)
  step1 = let (runs, same) = set_u32_lem page 0 0 (omega arith) in (runs, same ∙ size)

  step2 :
      (set_u16 (with_u32 page 0 0) 4 4096 ≡ ok (with_u16 (with_u32 page 0 0) 4 4096))
      × (length (with_u16 (with_u32 page 0 0) 4 4096) ≡ 4096)
  step2 =
      let (runs, same) = set_u16_lem (with_u32 page 0 0) 4 4096 (omega (arith, step1.1)) in
      (runs, same ∙ step1.1)

  step3 :
      (set_u16 (with_u16 (with_u32 page 0 0) 4 4096) 6 0
        ≡ ok (with_u16 (with_u16 (with_u32 page 0 0) 4 4096) 6 0))
      × (length (with_u16 (with_u16 (with_u32 page 0 0) 4 4096) 6 0) ≡ 4096)
  step3 =
      let (runs, same) =
        set_u16_lem (with_u16 (with_u32 page 0 0) 4 4096) 6 0 (omega (arith, step2.1)) in
      (runs, same ∙ step2.1)

  step4 :
      (set_u32 (with_u16 (with_u16 (with_u32 page 0 0) 4 4096) 6 0) 8 next_page_id
        ≡ ok (blank page next_page_id))
      × (length (blank page next_page_id) ≡ 4096)
  step4 =
      let (runs, same) =
        set_u32_lem (with_u16 (with_u16 (with_u32 page 0 0) 4 4096) 6 0) 8 next_page_id
          (omega (arith, step3.1)) in
      (runs, same ∙ step3.1)

  before_next :
      (at : ℕ)
      → at + 2 ≤ 8
      → get_u16 (blank page next_page_id) at
        ≡ get_u16 (with_u16 (with_u16 (with_u32 page 0 0) 4 4096) 6 0) at
  before_next at h =
      get_u16-splice_other (with_u16 (with_u16 (with_u32 page 0 0) 4 4096) 6 0) 8
        (u32_to_le_bytes next_page_id) at
        (omega (arith, step3.1, length-u32_to_le_bytes next_page_id)) (inl h)

  blank-IsPage : IsPage (blank page next_page_id) 0 4096
  blank-IsPage = record {
    size = step4.1;
    counts =
        before_next 6 (omega arith)
        ∙ get_u16-with_u16 (with_u16 (with_u32 page 0 0) 4 4096) 6 0 (omega (arith, step2.1))
            (omega arith);
    pointer =
        before_next 4 (omega arith)
        ∙ (get_u16-with_u16_other (with_u16 (with_u32 page 0 0) 4 4096) 6 0 4
              (omega (arith, step2.1)) (inl (omega arith))
            ∙ get_u16-with_u16 (with_u32 page 0 0) 4 4096 (omega (arith, step1.1)) (omega arith));
    below = omega arith;
    top = omega arith;
    slots = λ k h. absurd (omega arith);
  }

  next_reads : next_page_id < 2 ^ 32 → get_u32 (blank page next_page_id) 8 ≡ ok next_page_id
  unfolding get_u32
  next_reads small =
      let four = length-u32_to_le_bytes next_page_id in
      rw
        (slice-splice_self (with_u16 (with_u16 (with_u32 page 0 0) 4 4096) 6 0) 8
          (u32_to_le_bytes next_page_id) (omega (arith, step3.1, four)) 12 (omega (arith, four)))
        (u32_round_trip next_page_id small)

-- `init` of any page of 4096 bytes with a next page id below 2^32 succeeds with a valid page that
-- has no slot, all of whose space is free and whose next page is the one given.
pub init_lem :
    (page : List ℕ) (next_page_id : ℕ)
    → length page ≡ 4096
    → next_page_id < 2 ^ 32
    → (page' : List ℕ) × (init page next_page_id ≡ ok page')
      × IsPage page' 0 4096
      × (get_u32 page' 8 ≡ ok next_page_id)
unfolding init
init_lem page next_page_id size small = (
  blank page next_page_id,
  rw (
    (step1 page next_page_id size).0,
    (step2 page next_page_id size).0,
    (step3 page next_page_id size).0,
    (step4 page next_page_id size).0,
  ),
  blank-IsPage page next_page_id size,
  next_reads page next_page_id size small,
)

-- ===== src/Storage/SlottedPage/Layout.antt =====
-- The page after `insert_tuple`, part by part (src/storage/table/slotted_page.rs).
use dip_v.Base.{
  ℕ, ◌+◌, ◌-◌, ◌*◌, ◌%◌, ◌≤◌, ◌≡◌, ◌^◌, inl, inr, ◌∙◌, List, length, leb, ◌==◌, true, arith, some,
  ok,
}
use dip_v.Base.Bytes.{slice}
use dip_v.Base.Splice.{splice, write, length-splice, slice-splice_self, slice-splice_other}
use dip_v.Storage.SlottedPage.{get_u16, set_u16, set_slot, place}
use dip_v.Storage.SlottedPage.Words.{
  with_u16, set_u16_lem, get_u16-with_u16, get_u16-with_u16_other, get_u16-splice_other,
  slice-with_u16_other,
}

module _ (page bytes : List ℕ) (count fp : ℕ) where
  abbrev pub offset : ℕ
  offset = fp - length bytes

  abbrev pub slot : ℕ
  slot = 12 + count * 4

  abbrev pub data_in : List ℕ
  data_in = splice page offset bytes

  abbrev pub pointed : List ℕ
  pointed = with_u16 data_in 4 offset

  abbrev pub counted : List ℕ
  counted = with_u16 pointed 6 (count + 1)

  abbrev pub addressed : List ℕ
  addressed = with_u16 counted slot offset

  -- All the writes done.
  abbrev pub placed : List ℕ
  placed = with_u16 addressed (slot + 2) (length bytes)

  module _ (size : length page ≡ 4096) (room : 16 + count * 4 + length bytes ≤ fp)
      (top : fp ≤ 4096) where
    size1 : length data_in ≡ 4096
    size1 =
        omega
          (arith, size, room, top, length-splice page offset bytes (omega (arith, size, room, top)))

    step2 : (set_u16 data_in 4 offset ≡ ok pointed) × (length pointed ≡ 4096)
    step2 =
        let (runs, len) = set_u16_lem data_in 4 offset (omega (arith, size1)) in (runs, len ∙ size1)

    step3 : (set_u16 pointed 6 (count + 1) ≡ ok counted) × (length counted ≡ 4096)
    step3 =
        let (runs, len) = set_u16_lem pointed 6 (count + 1) (omega (arith, step2.1)) in
        (runs, len ∙ step2.1)

    step4 : (set_u16 counted slot offset ≡ ok addressed) × (length addressed ≡ 4096)
    step4 =
        let (runs, len) = set_u16_lem counted slot offset (omega (arith, step3.1, room, top)) in
        (runs, len ∙ step3.1)

    pub step5 : (set_u16 addressed (slot + 2) (length bytes) ≡ ok placed) × (length placed ≡ 4096)
    step5 =
        let (runs, len) =
          set_u16_lem addressed (slot + 2) (length bytes) (omega (arith, step4.1, room, top)) in
        (runs, len ∙ step4.1)

    pub placed_pointer : get_u16 placed 4 ≡ ok offset
    placed_pointer =
        get_u16-with_u16_other addressed (slot + 2) (length bytes) 4
          (omega (arith, step4.1, room, top)) (inl (omega arith))
        ∙ (get_u16-with_u16_other counted slot offset 4 (omega (arith, step3.1, room, top))
              (inl (omega arith))
            ∙ (get_u16-with_u16_other pointed 6 (count + 1) 4 (omega (arith, step2.1))
                  (inl (omega arith))
                ∙ get_u16-with_u16 data_in 4 offset (omega (arith, size1)) (omega (arith, top))))

    pub placed_count : get_u16 placed 6 ≡ ok (count + 1)
    placed_count =
        get_u16-with_u16_other addressed (slot + 2) (length bytes) 6
          (omega (arith, step4.1, room, top)) (inl (omega arith))
        ∙ (get_u16-with_u16_other counted slot offset 6 (omega (arith, step3.1, room, top))
              (inl (omega arith))
            ∙ get_u16-with_u16 pointed 6 (count + 1) (omega (arith, step2.1))
                (omega (arith, room, top)))

    pub placed_offset : get_u16 placed slot ≡ ok offset
    placed_offset =
        get_u16-with_u16_other addressed (slot + 2) (length bytes) slot
          (omega (arith, step4.1, room, top)) (inl (omega arith))
        ∙ get_u16-with_u16 counted slot offset (omega (arith, step3.1, room, top))
            (omega (arith, top))

    pub placed-length : get_u16 placed (slot + 2) ≡ ok (length bytes)
    placed-length =
        get_u16-with_u16 addressed (slot + 2) (length bytes) (omega (arith, step4.1, room, top))
          (omega (arith, room, top))

    -- The slots before.
    pub placed-slot : (at : ℕ) → 12 ≤ at → at + 2 ≤ slot → get_u16 placed at ≡ get_u16 page at
    placed-slot at low high =
        get_u16-with_u16_other addressed (slot + 2) (length bytes) at
          (omega (arith, step4.1, room, top)) (inl (omega arith))
        ∙ (get_u16-with_u16_other counted slot offset at (omega (arith, step3.1, room, top))
              (inl high)
            ∙ (get_u16-with_u16_other pointed 6 (count + 1) at (omega (arith, step2.1))
                  (inr (omega arith))
                ∙ (get_u16-with_u16_other data_in 4 offset at (omega (arith, size1))
                      (inr (omega arith))
                    ∙ get_u16-splice_other page offset bytes at (omega (arith, size, room, top))
                        (inl (omega (arith, room))))))

    -- A part above the slots reads as after the first write.
    placed_part : (a b : ℕ) → slot + 4 ≤ a → slice placed a b ≡ slice data_in a b
    placed_part a b low =
        slice-with_u16_other addressed (slot + 2) (length bytes) a b
          (omega (arith, step4.1, room, top)) (inr (omega arith))
        ∙ (slice-with_u16_other counted slot offset a b (omega (arith, step3.1, room, top))
              (inr (omega arith))
            ∙ (slice-with_u16_other pointed 6 (count + 1) a b (omega (arith, step2.1))
                  (inr (omega arith))
                ∙ slice-with_u16_other data_in 4 offset a b (omega (arith, size1))
                    (inr (omega arith))))

    pub placed_bytes : (b : ℕ) → b ≡ fp → slice placed offset b ≡ ok bytes
    placed_bytes b e =
        placed_part offset b (omega (arith, room))
        ∙ slice-splice_self page offset bytes (omega (arith, size, room, top)) b
            (omega (arith, room, e))

    pub placed_other : (a b : ℕ) → fp ≤ a → slice placed a b ≡ slice page a b
    placed_other a b low =
        placed_part a b (omega (arith, room))
        ∙ slice-splice_other page offset bytes (omega (arith, size, room, top)) a b
            (inr (omega (arith, room)))

    -- `place` makes these writes.
    pub place_lem :
        get_u16 page 6 ≡ ok count
        → get_u16 page 4 ≡ ok fp
        → place page bytes (length bytes) ≡ ok (some count, placed)
    unfolding place set_slot
    place_lem counts pointer =
        let new_offset : (fp + 2 ^ 16 - length bytes) % 2 ^ 16 ≡ offset =
          omega (arith, room, top) in
        let end : (offset + length bytes) % 2 ^ 16 ≡ fp = omega (arith, room, top) in
        let next : (count + 1) % 2 ^ 16 ≡ count + 1 = omega (arith, room, top) in
        let first : write page offset fp bytes ≡ ok data_in =
          (let ordered : leb offset fp ≡ true = ground arith in
            let inside : leb fp (length page) ≡ true = ground arith in
            let exact : (length bytes == fp - offset) ≡ true = ground arith in
            unfold write in rw (ordered, inside, exact)) in
        rw (counts, pointer, new_offset, end, next, first, step2.0, step3.0, step4.0, step5.0)

-- ===== src/Storage/SlottedPage/Reslot.antt =====
-- The page after a slot is written (src/storage/table/slotted_page.rs).
use dip_v.Base.{
  ℕ, ◌+◌, ◌*◌, ◌%◌, ◌≤◌, ◌<◌, ◌≡◌, ◌≢◌, ◌^◌, ◌⊎◌, inl, inr, ◌∙◌, sym, subst, List, length, ltb,
  ◌==◌, Bool-cases, arith, ok,
}
use dip_v.Base.Bytes.{slice}
use dip_v.Storage.SlottedPage.{get_u16, set_u16, set_slot, get_tuple}
use dip_v.Storage.SlottedPage.Words.{
  with_u16, set_u16_lem, get_u16-with_u16, get_u16-with_u16_other, slice-with_u16_other,
}
use dip_v.Storage.SlottedPage.Insert.{Slot, IsPage, slot_answer, get_tuple_slot}

-- The page with another slot.
abbrev pub reslot : List ℕ → ℕ → ℕ → ℕ → List ℕ
reslot page k offset len = with_u16 (with_u16 page (12 + k * 4) offset) (12 + k * 4 + 2) len

module _ (page : List ℕ) (count fp k offset len : ℕ) (v : IsPage page count fp)
    (used : k < count) where
  step1 :
      (set_u16 page (12 + k * 4) offset ≡ ok (with_u16 page (12 + k * 4) offset))
      × (length (with_u16 page (12 + k * 4) offset) ≡ 4096)
  step1 =
      let (runs, same) =
        set_u16_lem page (12 + k * 4) offset (omega (arith, v.size, v.below, v.top)) in
      (runs, same ∙ v.size)

  step2 :
      (set_u16 (with_u16 page (12 + k * 4) offset) (12 + k * 4 + 2) len
        ≡ ok (reslot page k offset len))
      × (length (reslot page k offset len) ≡ 4096)
  step2 =
      let (runs, same) =
        set_u16_lem (with_u16 page (12 + k * 4) offset) (12 + k * 4 + 2) len
          (omega (arith, step1.1, v.below, v.top)) in
      (runs, same ∙ step1.1)

  pub set_slot_lem : set_slot page k offset len ≡ ok (reslot page k offset len)
  unfolding set_slot
  set_slot_lem = rw (step1.0, step2.0)

  word_other :
      (at : ℕ)
      → (at + 2 ≤ 12 + k * 4) ⊎ (12 + k * 4 + 4 ≤ at)
      → get_u16 (reslot page k offset len) at ≡ get_u16 page at
  word_other at (inl h) =
      get_u16-with_u16_other (with_u16 page (12 + k * 4) offset) (12 + k * 4 + 2) len at
        (omega (arith, step1.1, v.below, v.top)) (inl (omega arith))
      ∙ get_u16-with_u16_other page (12 + k * 4) offset at (omega (arith, v.size, v.below, v.top))
          (inl h)
  word_other at (inr h) =
      get_u16-with_u16_other (with_u16 page (12 + k * 4) offset) (12 + k * 4 + 2) len at
        (omega (arith, step1.1, v.below, v.top)) (inr (omega arith))
      ∙ get_u16-with_u16_other page (12 + k * 4) offset at (omega (arith, v.size, v.below, v.top))
          (inr (omega arith))

  part_other : (a b : ℕ) → fp ≤ a → slice (reslot page k offset len) a b ≡ slice page a b
  part_other a b h =
      slice-with_u16_other (with_u16 page (12 + k * 4) offset) (12 + k * 4 + 2) len a b
        (omega (arith, step1.1, v.below, v.top)) (inr (omega (arith, v.below)))
      ∙ slice-with_u16_other page (12 + k * 4) offset a b (omega (arith, v.size, v.below, v.top))
          (inr (omega (arith, v.below)))

  pub reslot_len : len < 2 ^ 16 → get_u16 (reslot page k offset len) (12 + k * 4 + 2) ≡ ok len
  reslot_len small =
      get_u16-with_u16 (with_u16 page (12 + k * 4) offset) (12 + k * 4 + 2) len
        (omega (arith, step1.1, v.below, v.top)) small

  pub reslot_offset : offset < 2 ^ 16 → get_u16 (reslot page k offset len) (12 + k * 4) ≡ ok offset
  reslot_offset small =
      get_u16-with_u16_other (with_u16 page (12 + k * 4) offset) (12 + k * 4 + 2) len (12 + k * 4)
        (omega (arith, step1.1, v.below, v.top)) (inl (omega arith))
      ∙ get_u16-with_u16 page (12 + k * 4) offset (omega (arith, v.size, v.below, v.top)) small

  pub answer_same :
      (o l : ℕ) → fp ≤ o → slot_answer (reslot page k offset len) o l ≡ slot_answer page o l
  unfolding slot_answer
  answer_same o l h = let part = part_other o ((o + l % 32768) % 2 ^ 16) h in rw part

  offset_other :
      (j : ℕ) → j ≢ k → get_u16 (reslot page k offset len) (12 + j * 4) ≡ get_u16 page (12 + j * 4)
  offset_other j apart = elim (Bool-cases (ltb j k)) [
    | inl e ↦ word_other (12 + j * 4) (inl (ground arith))
    | inr e ↦ word_other (12 + j * 4) (inr (ground arith))
  ]

  len_other :
      (j : ℕ)
      → j ≢ k
      → get_u16 (reslot page k offset len) (12 + j * 4 + 2) ≡ get_u16 page (12 + j * 4 + 2)
  len_other j apart = elim (Bool-cases (ltb j k)) [
    | inl e ↦ word_other (12 + j * 4 + 2) (inl (ground arith))
    | inr e ↦ word_other (12 + j * 4 + 2) (inr (ground arith))
  ]

  module _ (above : fp ≤ offset) (inside : offset + len % 32768 ≤ 4096) (small : len < 2 ^ 16) where
    new-Slot : Slot (reslot page k offset len) fp k
    new-Slot = record {
      offset = offset;
      len = len;
      offset_word = reslot_offset (omega arith);
      len_word = reslot_len small;
      above = above;
      inside = inside;
    }

    other-Slot : (j : ℕ) → j < count → j ≢ k → Slot (reslot page k offset len) fp j
    other-Slot j h apart =
        let s = v.slots j h in
        record {
          offset = s.offset;
          len = s.len;
          offset_word = offset_other j apart ∙ s.offset_word;
          len_word = len_other j apart ∙ s.len_word;
          above = s.above;
          inside = s.inside;
        }

    pub reslot-IsPage : IsPage (reslot page k offset len) count fp
    reslot-IsPage = record {
      size = step2.1;
      counts = word_other 6 (inl (omega arith)) ∙ v.counts;
      pointer = word_other 4 (inl (omega arith)) ∙ v.pointer;
      below = v.below;
      top = v.top;
      slots = λ j h. elim (Bool-cases (j == k)) [
        | inl e ↦ let at : k ≡ j = ground arith in subst (Slot _ _) at new-Slot
        | inr e ↦ other-Slot j h (λ same. ground arith)
      ];
    }

    pub others_stay :
        (j : ℕ) → j < count → j ≢ k → get_tuple (reslot page k offset len) j ≡ get_tuple page j
    others_stay j h apart =
        let s = v.slots j h in
        let after : get_tuple (reslot page k offset len) j
            ≡ slot_answer (reslot page k offset len) s.offset s.len =
          get_tuple_slot (reslot page k offset len) count j s.offset s.len reslot-IsPage.counts h
            (offset_other j apart ∙ s.offset_word) (len_other j apart ∙ s.len_word) in
        let before : get_tuple page j ≡ slot_answer page s.offset s.len =
          get_tuple_slot page count j s.offset s.len v.counts h s.offset_word s.len_word in
        after ∙ (answer_same s.offset s.len s.above ∙ sym before)

    pub reslot_tuple : get_tuple (reslot page k offset len) k ≡ slot_answer page offset len
    reslot_tuple =
        get_tuple_slot (reslot page k offset len) count k offset len reslot-IsPage.counts used
          (reslot_offset (omega arith)) (reslot_len small)
        ∙ answer_same offset len above

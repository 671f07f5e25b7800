-- ===== src/Storage/Index/Words.antt =====
-- Words of an index page: one written reads back, those apart from it stay
-- (src/storage/index/b_plus_tree_page.rs).
use dip_v.Base.{
  ℕ, ◌+◌, ◌-◌, ◌≤◌, ◌<◌, ◌≡◌, ◌^◌, ◌⊎◌, inl, inr, List, length, leb, ◌==◌, true, arith, ok,
}
use dip_v.Base.Bytes.{u32_to_le_bytes, u32_round_trip, length-u32_to_le_bytes}
use dip_v.Base.Splice.{splice, write, length-splice, slice-splice_self, slice-splice_other}
use dip_v.Storage.Index.Header.{word_at, set_word_at}

abbrev pub with_word : List ℕ → ℕ → ℕ → List ℕ
with_word page offset value = splice page offset (u32_to_le_bytes value)

module _ (page : List ℕ) (offset value : ℕ) (inside : offset + 4 ≤ length page) where
  fits : offset + length (u32_to_le_bytes value) ≤ length page
  fits = omega (arith, inside, length-u32_to_le_bytes value)

  pub set_word_at_lem : set_word_at page offset value ≡ ok (with_word page offset value)
  unfolding set_word_at write
  set_word_at_lem =
      let size : (length (u32_to_le_bytes value) == offset + 4 - offset) ≡ true =
        ground (arith, length-u32_to_le_bytes value) in
      let ordered : leb offset (offset + 4) ≡ true = ground arith in
      let below : leb (offset + 4) (length page) ≡ true = ground arith in rw (ordered, below, size)

  pub length-with_word : length (with_word page offset value) ≡ length page
  length-with_word = length-splice page offset (u32_to_le_bytes value) fits

  pub word_at-with_word : value < 2 ^ 32 → word_at (with_word page offset value) offset ≡ ok value
  unfolding word_at
  word_at-with_word small =
      rw
        (slice-splice_self page offset (u32_to_le_bytes value) fits (offset + 4)
          (omega (arith, length-u32_to_le_bytes value)))
        (u32_round_trip value small)

  pub word_at-with_word_other :
      (at : ℕ)
      → ((at + 4 ≤ offset) ⊎ (offset + 4 ≤ at))
      → word_at (with_word page offset value) at ≡ word_at page at
  unfolding word_at
  word_at-with_word_other at apart =
      let four = length-u32_to_le_bytes value in
      rw (
        slice-splice_other page offset (u32_to_le_bytes value) fits at (at + 4)
          (elim apart [ inl h ↦ inl h | inr h ↦ inr (omega (arith, h, four)) ]))

-- ===== src/Storage/Index/Entry.antt =====
-- The entries of a leaf page, one written and the others kept
-- (src/storage/index/b_plus_tree_leaf_page.rs).
use dip_v.Base.{
  ℕ, zero, suc, ◌+◌, ◌*◌, ◌≤◌, ◌<◌, ◌≡◌, refl, ◌^◌, ◌⊎◌, inl, inr, Bool-cases, List, length, ◌==◌,
  arith, ok, subst, ◌∙◌,
}
use dip_v.Base.Int.{ℤ, IsI32, to_bits, of_bits-to_bits, to_bits-lt}
use dip_v.Storage.Rid.{Rid}
use dip_v.Storage.Index.Header.{word_at}
use dip_v.Storage.Index.Words.{
  with_word, set_word_at_lem, length-with_word, word_at-with_word, word_at-with_word_other,
}
use dip_v.Storage.Index.Leaf.{key_at, value_at, set_key_at, set_value_at, shift}

-- An entry that fits its words.
pub record IsEntry (e : ℤ × Rid) : Type 0 where
  pub key : IsI32 e.0
  pub page_id : e.1.page_id < 2 ^ 32
  pub slot_num : e.1.slot_num < 2 ^ 32

pub record EntryAt (page : List ℕ) (j : ℕ) (e : ℤ × Rid) : Type 0 where
  pub key : key_at page j ≡ ok e.0
  pub value : value_at page j ≡ ok e.1

-- Every word outside the bytes from `low` to `high` reads as before.
unfoldable pub Apart : List ℕ → ℕ → ℕ → List ℕ → Type 0
Apart page low high page' =
    (at : ℕ) → ((at + 4 ≤ low) ⊎ (high ≤ at)) → word_at page' at ≡ word_at page at

pub EntryAt-Apart :
    (page page' : List ℕ) (low high j : ℕ) (e : ℤ × Rid)
    → Apart page low high page'
    → ((36 + j * 12 ≤ low) ⊎ (high ≤ 24 + j * 12))
    → EntryAt page j e
    → EntryAt page' j e
unfolding Apart key_at value_at
EntryAt-Apart page page' low high j e same away entry =
    let word : (d : ℕ) → d ≤ 8 → word_at page' (24 + j * 12 + d) ≡ word_at page (24 + j * 12 + d) =
      λ d small.
        same (24 + j * 12 + d)
          (elim away [ inl h ↦ inl (omega (arith, h, small)) | inr h ↦ inr (omega (arith, h)) ]) in
    let first = word 0 (omega arith) in
    let start : 24 + j * 12 + 0 ≡ 24 + j * 12 = omega arith in
    let key' : word_at page' (24 + j * 12) ≡ word_at page (24 + j * 12) = rw start at first in
    let value' : word_at page' (24 + j * 12 + 4) ≡ word_at page (24 + j * 12 + 4) =
      word 4 (omega arith) in
    let eight : 24 + j * 12 + 8 ≡ 24 + j * 12 + 4 + 4 = omega arith in
    let last : word_at page' (24 + j * 12 + 4 + 4) ≡ word_at page (24 + j * 12 + 4 + 4) =
      rw eight at (word 8 (omega arith)) in
    record { key = rw key' entry.key; value = rw (value', last) entry.value }

module _ (page : List ℕ) (j : ℕ) (e : ℤ × Rid) (good : IsEntry e)
    (inside : 36 + j * 12 ≤ length page) where
  abbrev pub keyed : List ℕ
  keyed = with_word page (24 + j * 12) (to_bits e.0)

  abbrev paged : List ℕ
  paged = with_word keyed (24 + j * 12 + 4) e.1.page_id

  -- The page with the entry at index `j`.
  abbrev pub entered : List ℕ
  entered = with_word paged (24 + j * 12 + 4 + 4) e.1.slot_num

  inside1 : 24 + j * 12 + 4 + 4 ≤ length keyed
  inside1 =
      omega
        (arith, inside, length-with_word page (24 + j * 12) (to_bits e.0) (omega (arith, inside)))

  inside2 : 24 + j * 12 + 4 + 4 + 4 ≤ length paged
  inside2 = omega (
    arith,
    inside,
    length-with_word page (24 + j * 12) (to_bits e.0) (omega (arith, inside)),
    length-with_word keyed (24 + j * 12 + 4) e.1.page_id inside1,
  )

  pub set_key_at_lem : set_key_at page j e.0 ≡ ok keyed
  unfolding set_key_at
  set_key_at_lem = set_word_at_lem page (24 + j * 12) (to_bits e.0) (omega (arith, inside))

  pub set_value_at_lem : set_value_at keyed j e.1 ≡ ok entered
  unfolding set_value_at
  set_value_at_lem =
      rw
        (
          set_word_at_lem keyed (24 + j * 12 + 4) e.1.page_id inside1,
          set_word_at_lem paged (24 + j * 12 + 4 + 4) e.1.slot_num inside2,
        )
        refl

  pub length-entered : length entered ≡ length page
  length-entered =
      length-with_word paged (24 + j * 12 + 4 + 4) e.1.slot_num inside2
      ∙ (length-with_word keyed (24 + j * 12 + 4) e.1.page_id inside1
          ∙ length-with_word page (24 + j * 12) (to_bits e.0) (omega (arith, inside)))

  pub entered-Apart : Apart page (24 + j * 12) (36 + j * 12) entered
  unfolding Apart
  entered-Apart at away =
      word_at-with_word_other paged (24 + j * 12 + 4 + 4) e.1.slot_num inside2 at
        (elim away [ inl h ↦ inl (omega (arith, h)) | inr h ↦ inr (omega (arith, h)) ])
      ∙ (word_at-with_word_other keyed (24 + j * 12 + 4) e.1.page_id inside1 at
            (elim away [ inl h ↦ inl (omega (arith, h)) | inr h ↦ inr (omega (arith, h)) ])
          ∙ word_at-with_word_other page (24 + j * 12) (to_bits e.0) (omega (arith, inside)) at
              (elim away [ inl h ↦ inl h | inr h ↦ inr (omega (arith, h)) ]))

  key_word : word_at entered (24 + j * 12) ≡ ok (to_bits e.0)
  key_word =
      word_at-with_word_other paged (24 + j * 12 + 4 + 4) e.1.slot_num inside2 (24 + j * 12)
        (inl (omega arith))
      ∙ (word_at-with_word_other keyed (24 + j * 12 + 4) e.1.page_id inside1 (24 + j * 12)
            (inl (omega arith))
          ∙ word_at-with_word page (24 + j * 12) (to_bits e.0) (omega (arith, inside))
              (to_bits-lt e.0))

  page_id_word : word_at entered (24 + j * 12 + 4) ≡ ok e.1.page_id
  page_id_word =
      word_at-with_word_other paged (24 + j * 12 + 4 + 4) e.1.slot_num inside2 (24 + j * 12 + 4)
        (inl (omega arith))
      ∙ word_at-with_word keyed (24 + j * 12 + 4) e.1.page_id inside1 good.page_id

  pub entered-EntryAt : EntryAt entered j e
  unfolding key_at value_at
  entered-EntryAt = record {
    key = rw (key_word, of_bits-to_bits e.0 good.key) refl;
    value =
        rw
          (
            page_id_word,
            word_at-with_word paged (24 + j * 12 + 4 + 4) e.1.slot_num inside2 good.slot_num,
          )
          refl;
  }

-- `count` entries from `index` on moved up by one.
pub record Shifted (page : List ℕ) (index count : ℕ) (es : ℕ → ℤ × Rid) (page' : List ℕ)
    : Type 0 where
  pub size : length page' ≡ length page
  pub apart : Apart page (24 + (index + 1) * 12) (36 + (index + count) * 12) page'
  pub moved : (j : ℕ) → index ≤ j → j < index + count → EntryAt page' (j + 1) (es j)

shift_round :
    (page d1 d2 : List ℕ) (index count : ℕ) (e : ℤ × Rid)
    → EntryAt page (index + count) e
    → set_key_at page (index + count + 1) e.0 ≡ ok d1
    → set_value_at d1 (index + count + 1) e.1 ≡ ok d2
    → shift page index (suc count) ≡ shift d2 index count
unfolding shift
shift_round page d1 d2 index count e entry set_key set_value =
    rw (entry.key, entry.value, set_key, set_value) refl

pub shift_lem :
    (page : List ℕ) (index count : ℕ) (es : ℕ → ℤ × Rid)
    → 36 + (index + count) * 12 ≤ length page
    → ((j : ℕ) → index ≤ j → j < index + count → EntryAt page j (es j) × IsEntry (es j))
    → (page' : List ℕ) × (shift page index count ≡ ok page') × Shifted page index count es page'
unfolding shift Apart
shift_lem page index zero es fits entries = (
  page,
  refl,
  record { size = refl; apart = λ at away. refl; moved = λ j low high. absurd (omega arith) },
)
shift_lem page index (suc count) es fits entries =
    let i : ℕ = index + count in
    let (entry, good) = entries i (omega arith) (omega arith) in
    let inside : 36 + (i + 1) * 12 ≤ length page = omega (arith, fits) in
    let d2 = entered page (i + 1) (es i) good inside in
    let size2 : length d2 ≡ length page = length-entered page (i + 1) (es i) good inside in
    let (page', runs, rest) =
      shift_lem d2 index count es (omega (arith, fits, size2)) (λ j low high. (
        EntryAt-Apart page d2 (24 + (i + 1) * 12) (36 + (i + 1) * 12) j (es j)
            (entered-Apart page (i + 1) (es i) good inside) (inl (omega arith))
            (entries j low (omega arith)).0,
        (entries j low (omega arith)).1,
      )) in
    (
      page',
      shift_round page (keyed page (i + 1) (es i) good inside) d2 index count (es i) entry
            (set_key_at_lem page (i + 1) (es i) good inside)
            (set_value_at_lem page (i + 1) (es i) good inside)
          ∙ runs,
      record {
        size = rest.size ∙ size2;
        apart = λ at away.
            rest.apart at (elim away [ inl h ↦ inl h | inr h ↦ inr (omega (arith, h)) ])
            ∙ entered-Apart page (i + 1) (es i) good inside at
                (elim away [ inl h ↦ inl (omega (arith, h)) | inr h ↦ inr (omega (arith, h)) ]);
        moved = λ j low high. elim (Bool-cases (j == i)) [
          | inl e ↦
              let at : i ≡ j = ground arith in
              subst (λ (n : ℕ). EntryAt page' (n + 1) (es n)) at
                (EntryAt-Apart d2 page' (24 + (index + 1) * 12) (36 + (index + count) * 12) (i + 1)
                  (es i) rest.apart (inr (omega arith))
                  (entered-EntryAt page (i + 1) (es i) good inside))
          | inr e ↦ rest.moved j low (ground arith)
        ];
      },
    )

-- ===== src/Storage/BPlusTree/Update.antt =====
-- A value replaced in a leaf, and looked up again (src/storage/index/b_plus_tree.rs).
use dip_v.Base.{
  ℕ, zero, suc, ◌+◌, ◌*◌, ◌≤◌, ◌<◌, ◌≡◌, ◌≢◌, refl, ◌^◌, ◌⊎◌, inl, inr, true, false, Bool-cases,
  List, length, leb, ltb, arith, Option, some, ok, ◌>>=◌, >>=-eq-ok, subst, ◌∙◌,
}
use dip_v.Base.Int.{ℤ}
use dip_v.Storage.Rid.{Rid}
use dip_v.Storage.Index.Header.{word_at, get_size, is_leaf_page}
use dip_v.Storage.Index.Words.{
  with_word, set_word_at_lem, length-with_word, word_at-with_word, word_at-with_word_other,
}
use dip_v.Storage.Index.Leaf
use dip_v.Storage.BPlusTree.{key_eq, find_key}

-- A leaf of `size` entries, all on the page.
pub record IsLeaf (page : List ℕ) (size : ℕ) : Type 0 where
  pub whole : length page ≡ 4096
  pub leaf : is_leaf_page page ≡ ok true
  pub sized : get_size page ≡ ok size
  pub fits : 24 + size * 12 ≤ 4096

-- The search depends on the keys only.
pub find_key_same :
    (page page' : List ℕ) (key : ℤ)
    → ((j : ℕ) → Leaf.key_at page' j ≡ Leaf.key_at page j)
    → (rounds i : ℕ) → find_key page' key rounds i ≡ find_key page key rounds i
unfolding find_key
find_key_same page page' key same zero i = refl
find_key_same page page' key same (suc rounds) i = λ d. same i d >>= λ k. elim (key_eq k key) [
  | true ↦ ok (some i)
  | false ↦ find_key_same page page' key same rounds (i + 1) d
]

-- What the search finds is an entry with the key.
pub record Found (page : List ℕ) (key : ℤ) (bound i : ℕ) : Type 0 where
  pub inside : i < bound
  pub at : ℤ
  pub reads : Leaf.key_at page i ≡ ok at
  pub equal : key_eq at key ≡ true

found_next :
    (page : List ℕ) (key k : ℤ) (rounds i j : ℕ)
    → Leaf.key_at page i ≡ ok k
    → key_eq k key ≡ false
    → find_key page key (suc rounds) i ≡ ok (some j)
    → find_key page key rounds (i + 1) ≡ ok (some j)
unfolding find_key
found_next page key k rounds i j reads apart h = ground (arith, reads, apart)

found_now :
    (page : List ℕ) (key k : ℤ) (rounds i j : ℕ)
    → Leaf.key_at page i ≡ ok k
    → key_eq k key ≡ true
    → find_key page key (suc rounds) i ≡ ok (some j)
    → i ≡ j
unfolding find_key
found_now page key k rounds i j reads same h = ground (arith, reads, same)

first_key :
    (page : List ℕ) (key : ℤ) (rounds i : ℕ) (found : Option ℕ)
    → find_key page key (suc rounds) i ≡ ok found
    → (k : ℤ) × (Leaf.key_at page i ≡ ok k)
unfolding find_key
first_key page key rounds i found h =
    let (k, reads, rest) = >>=-eq-ok (Leaf.key_at page i) _ h in (k, reads)

find_key-Found :
    (page : List ℕ) (key : ℤ) (rounds i j : ℕ)
    → find_key page key rounds i ≡ ok (some j)
    → Found page key (i + rounds) j
unfolding find_key
find_key-Found page key zero i j h = cc
find_key-Found page key (suc rounds) i j h =
    let (k, reads) = first_key page key rounds i (some j) h in
    elim (Bool-cases (key_eq k key)) [
      | inl e ↦
          let at : i ≡ j = found_now page key k rounds i j reads e h in
          record {
            inside = omega (arith, at);
            at = k;
            reads = subst (λ (n : ℕ). Leaf.key_at page n ≡ ok k) at reads;
            equal = e;
          }
      | inr e ↦
          let rest =
            find_key-Found page key rounds (i + 1) j (found_next page key k rounds i j reads e h) in
          record {
            inside = let p = rest.inside in omega arith;
            at = rest.at;
            reads = rest.reads;
            equal = rest.equal;
          }
    ]

pub found_entry :
    (page : List ℕ) (key : ℤ) (size j : ℕ)
    → find_key page key size 0 ≡ ok (some j)
    → Found page key size j
found_entry page key size j h =
    let e : 0 + size ≡ size = omega arith in
    subst (λ (n : ℕ). Found page key n j) e (find_key-Found page key size 0 j h)

module _ (page : List ℕ) (i : ℕ) (value : Rid) (inside : 36 + i * 12 ≤ length page) where
  abbrev first : List ℕ
  first = with_word page (24 + i * 12 + 4) value.page_id

  abbrev pub replaced : List ℕ
  replaced = with_word first (24 + i * 12 + 4 + 4) value.slot_num

  second_inside : 24 + i * 12 + 4 + 4 + 4 ≤ length first
  second_inside =
      omega (
        arith,
        inside,
        length-with_word page (24 + i * 12 + 4) value.page_id (omega (arith, inside)),
      )

  pub set_value_at_lem : Leaf.set_value_at page i value ≡ ok replaced
  unfolding Leaf.set_value_at
  set_value_at_lem =
      rw
        (
          set_word_at_lem page (24 + i * 12 + 4) value.page_id (omega (arith, inside)),
          set_word_at_lem first (24 + i * 12 + 4 + 4) value.slot_num second_inside,
        )
        refl

  pub length-replaced : length replaced ≡ length page
  length-replaced =
      length-with_word first (24 + i * 12 + 4 + 4) value.slot_num second_inside
      ∙ length-with_word page (24 + i * 12 + 4) value.page_id (omega (arith, inside))

  pub word_other :
      (at : ℕ)
      → ((at + 4 ≤ 24 + i * 12 + 4) ⊎ (36 + i * 12 ≤ at))
      → word_at replaced at ≡ word_at page at
  word_other at apart =
      word_at-with_word_other first (24 + i * 12 + 4 + 4) value.slot_num second_inside at
        (elim apart [ inl h ↦ inl (omega (arith, h)) | inr h ↦ inr (omega (arith, h)) ])
      ∙ word_at-with_word_other page (24 + i * 12 + 4) value.page_id (omega (arith, inside)) at
          (elim apart [ inl h ↦ inl h | inr h ↦ inr (omega (arith, h)) ])

  pub key_same : (j : ℕ) → Leaf.key_at replaced j ≡ Leaf.key_at page j
  unfolding Leaf.key_at
  key_same j =
      rw
        (word_other (24 + j * 12)
          (elim (Bool-cases (leb j i)) [ inl e ↦ inl (ground arith) | inr e ↦ inr (ground arith) ]))
        refl

  pub value_now :
      value.page_id < 2 ^ 32 → value.slot_num < 2 ^ 32 → Leaf.value_at replaced i ≡ ok value
  unfolding Leaf.value_at
  value_now small1 small2 =
      let page_id : word_at replaced (24 + i * 12 + 4) ≡ ok value.page_id =
        word_at-with_word_other first (24 + i * 12 + 4 + 4) value.slot_num second_inside
          (24 + i * 12 + 4) (inl (omega arith))
        ∙ word_at-with_word page (24 + i * 12 + 4) value.page_id (omega (arith, inside)) small1 in
      let slot : word_at replaced (24 + i * 12 + 4 + 4) ≡ ok value.slot_num =
        word_at-with_word first (24 + i * 12 + 4 + 4) value.slot_num second_inside small2 in
      rw (page_id, slot) refl

  pub value_other : (j : ℕ) → j ≢ i → Leaf.value_at replaced j ≡ Leaf.value_at page j
  unfolding Leaf.value_at
  value_other j apart =
      let split : (24 + j * 12 + 12 ≤ 24 + i * 12 + 4) ⊎ (36 + i * 12 ≤ 24 + j * 12 + 4) =
        elim (Bool-cases (ltb j i)) [ inl e ↦ inl (ground arith) | inr e ↦ inr (ground arith) ] in
      let one =
        word_other (24 + j * 12 + 4)
          (elim split [ inl h ↦ inl (omega (arith, h)) | inr h ↦ inr h ]) in
      let two =
        word_other (24 + j * 12 + 4 + 4)
          (elim split [ inl h ↦ inl (omega (arith, h)) | inr h ↦ inr (omega (arith, h)) ]) in
      rw (one, two) refl

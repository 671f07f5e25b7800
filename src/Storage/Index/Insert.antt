-- ===== src/Storage/Index/Insert.antt =====
-- An entry put into its place in a leaf page (src/storage/index/b_plus_tree_leaf_page.rs).
use dip_v.Base.{
  ℕ, zero, suc, ◌+◌, ◌*◌, ◌-◌, ◌%◌, ◌≤◌, ◌<◌, ◌≡◌, ◌≢◌, refl, ◌^◌, inl, inr, true, false,
  Bool-cases, List, length, ltb, ◌==◌, if◌then◌else◌, arith, ok, subst, ◌∙◌,
}
use dip_v.Base.Int.{ℤ, ltb_ℤ, of_parts}
use dip_v.Storage.Rid.{Rid}
use dip_v.Storage.Index.Header.{word_at, get_size, set_size, get_page_type, is_leaf_page}
use dip_v.Storage.Index.Words.{
  with_word, set_word_at_lem, length-with_word, word_at-with_word, word_at-with_word_other,
}
use dip_v.Storage.Index.Leaf.{key_at, insert_position, shift, insert}
use dip_v.Storage.Index.Entry.{
  IsEntry, EntryAt, Apart, EntryAt-Apart, entered, set_key_at_lem, set_value_at_lem, length-entered,
  entered-Apart, entered-EntryAt, Shifted, shift_lem,
}

-- A leaf page of `size` entries.
pub record HasEntries (page : List ℕ) (size : ℕ) (es : ℕ → ℤ × Rid) : Type 0 where
  pub whole : length page ≡ 4096
  pub leaf : is_leaf_page page ≡ ok true
  pub sized : get_size page ≡ ok size
  pub entries : (j : ℕ) → j < size → EntryAt page j (es j) × IsEntry (es j)

-- The keys are in strict order.
unfoldable pub IsSorted : (ℕ → ℤ × Rid) → ℕ → Type 0
IsSorted es size = (j k : ℕ) → j < k → k < size → ltb_ℤ (es j).0 (es k).0 ≡ true

-- The sequence with an entry put in at index `i`.
unfoldable pub put_in : (ℕ → ℤ × Rid) → ℕ → ℤ × Rid → ℕ → ℤ × Rid
put_in es i e j = if ltb j i then es j else (if j == i then e else es (j - 1))

pub record IsPosition (es : ℕ → ℤ × Rid) (size : ℕ) (key : ℤ) (i : ℕ) : Type 0 where
  pub inside : i ≤ size
  pub before : (j : ℕ) → j < i → ltb_ℤ (es j).0 key ≡ true
  pub here : i < size → ltb_ℤ (es i).0 key ≡ false

position_next :
    (page : List ℕ) (key k : ℤ) (rounds i : ℕ)
    → key_at page i ≡ ok k
    → ltb_ℤ k key ≡ true
    → insert_position page key (suc rounds) i ≡ insert_position page key rounds (i + 1)
unfolding insert_position
position_next page key k rounds i reads less = ground (arith, reads, less)

position_here :
    (page : List ℕ) (key k : ℤ) (rounds i : ℕ)
    → key_at page i ≡ ok k
    → ltb_ℤ k key ≡ false
    → insert_position page key (suc rounds) i ≡ ok i
unfolding insert_position
position_here page key k rounds i reads less = ground (arith, reads, less)

position_lem :
    (page : List ℕ) (size : ℕ) (es : ℕ → ℤ × Rid) (key : ℤ) (rounds i : ℕ)
    → HasEntries page size es
    → i + rounds ≡ size
    → ((j : ℕ) → j < i → ltb_ℤ (es j).0 key ≡ true)
    → (p : ℕ) × (insert_position page key rounds i ≡ ok p) × IsPosition es size key p
unfolding insert_position
position_lem page size es key zero i h e below =
    (i, refl, record { inside = omega arith; before = below; here = λ k. absurd (omega arith) })
position_lem page size es key (suc rounds) i h e below =
    let reads = (h.entries i (omega arith)).0.key in
    elim (Bool-cases (ltb_ℤ (es i).0 key)) [
      | inr stop ↦ (
        i,
        position_here page key (es i).0 rounds i reads stop,
        record { inside = omega arith; before = below; here = λ k. stop },
      )
      | inl less ↦
          let (p, runs, good) = position_lem page size es key rounds (i + 1) h (omega arith) (λ j q.
            elim (Bool-cases (j == i)) [
              | inl at ↦
                  let same : i ≡ j = ground arith in
                  subst (λ (n : ℕ). ltb_ℤ (es n).0 key ≡ true) same less
              | inr at ↦ below j (ground arith)
            ]) in
          (p, position_next page key (es i).0 rounds i reads less ∙ runs, good)
    ]

less_trans : (a b c : ℤ) → ltb_ℤ a b ≡ true → ltb_ℤ b c ≡ true → ltb_ℤ a c ≡ true
unfolding ltb_ℤ
less_trans a b c h k = ground arith

-- A key that is neither less nor equal is greater.
greater : (a b : ℤ) → ltb_ℤ a b ≡ false → a ≢ b → ltb_ℤ b a ≡ true
unfolding ltb_ℤ
greater a b h apart = ground (arith, of_parts a b)

pub put_in-IsSorted :
    (es : ℕ → ℤ × Rid) (size i : ℕ) (e : ℤ × Rid)
    → IsSorted es size
    → IsPosition es size e.0 i
    → ((j : ℕ) → j < size → (es j).0 ≢ e.0)
    → IsSorted (put_in es i e) (size + 1)
unfolding IsSorted put_in
put_in-IsSorted es size i e sorted p fresh j k less inside =
    let after : (n : ℕ) → i ≤ n → n < size → ltb_ℤ e.0 (es n).0 ≡ true = λ n low high.
      let first : ltb_ℤ e.0 (es i).0 ≡ true =
        greater (es i).0 e.0 (p.here (omega arith)) (fresh i (omega arith)) in
      elim (Bool-cases (n == i)) [
        | inl at ↦
            let same : i ≡ n = ground arith in
            subst (λ (m : ℕ). ltb_ℤ e.0 (es m).0 ≡ true) same first
        | inr at ↦ less_trans e.0 (es i).0 (es n).0 first (sorted i n (ground arith) high)
      ] in
    elim (Bool-cases (ltb k i)) [
      | inl k_low ↦
          let j_low : ltb j i ≡ true = ground arith in
          rw (k_low, j_low) (sorted j k less (ground (arith, p.inside)))
      | inr k_high ↦ elim (Bool-cases (k == i)) [
        | inl at ↦
            let j_low : ltb j i ≡ true = ground arith in
            rw (k_high, at, j_low) (p.before j (ground arith))
        | inr past ↦ elim (Bool-cases (ltb j i)) [
          | inl j_low ↦ rw (k_high, past, j_low) (sorted j (k - 1) (ground arith) (ground arith))
          | inr j_high ↦ elim (Bool-cases (j == i)) [
            | inl at ↦ rw (k_high, past, j_high, at) (after (k - 1) (ground arith) (ground arith))
            | inr beyond ↦
                rw (k_high, past, j_high, beyond)
                  (sorted (j - 1) (k - 1) (ground arith) (ground arith))
          ]
        ]
      ]
    ]

-- The steps of an insertion at a position, and what they leave.
module _ (page : List ℕ) (size : ℕ) (es : ℕ → ℤ × Rid) (e : ℤ × Rid) (i : ℕ)
    (h : HasEntries page size es) (good : IsEntry e) (low : i ≤ size)
    (room : 36 + size * 12 ≤ 4096) where
  whole_count : i + (size - i) ≡ size
  whole_count = omega (arith, low)

  shifted :
      (page' : List ℕ) × (shift page i (size - i) ≡ ok page') × Shifted page i (size - i) es page'
  shifted =
      shift_lem page i (size - i) es (omega (arith, room, h.whole, low))
        (λ j p q. h.entries j (omega (arith, q, low)))

  abbrev moved : List ℕ
  moved = shifted.0

  inside : 36 + i * 12 ≤ length moved
  inside = omega (arith, room, h.whole, shifted.2.size, low)

  abbrev filled : List ℕ
  filled = entered moved i e good inside

  filled-length : length filled ≡ 4096
  filled-length = length-entered moved i e good inside ∙ (shifted.2.size ∙ h.whole)

  abbrev grown : List ℕ
  grown = with_word filled 4 (size + 1)

  grown-length : length grown ≡ 4096
  grown-length = length-with_word filled 4 (size + 1) (omega (arith, filled-length)) ∙ filled-length

  grown-Apart : Apart filled 4 8 grown
  unfolding Apart
  grown-Apart at away =
      word_at-with_word_other filled 4 (size + 1) (omega (arith, filled-length)) at away

  insert_runs : insert_position page e.0 size 0 ≡ ok i → insert page e.0 e.1 ≡ ok (i, grown)
  unfolding insert set_size
  insert_runs position =
      let next : (size + 1) % 2 ^ 32 ≡ size + 1 = omega (arith, room) in
      rw
        (
          h.sized,
          position,
          shifted.1,
          set_key_at_lem moved i e good inside,
          set_value_at_lem moved i e good inside,
          next,
          set_word_at_lem filled 4 (size + 1) (omega (arith, filled-length)),
        )
        refl

  -- A word of the header but for the size.
  header_word : (at : ℕ) → at + 4 ≤ 4 → word_at grown at ≡ word_at page at
  unfolding Apart
  header_word at small =
      grown-Apart at (inl small)
      ∙ (entered-Apart moved i e good inside at (inl (omega (arith, small)))
          ∙ shifted.2.apart at (inl (omega (arith, small))))

  -- An entry of the page with the new one is one of the page with the new size.
  grown-EntryAt : (j : ℕ) (x : ℤ × Rid) → EntryAt filled j x → EntryAt grown j x
  grown-EntryAt j x at = EntryAt-Apart filled grown 4 8 j x grown-Apart (inr (omega arith)) at

  entry_before : (j : ℕ) → j < i → EntryAt grown j (es j)
  entry_before j less = grown-EntryAt j (es j) (
      EntryAt-Apart moved filled (24 + i * 12) (36 + i * 12) j (es j)
        (entered-Apart moved i e good inside) (inl (omega arith))
        (EntryAt-Apart page moved (24 + (i + 1) * 12) (36 + (i + (size - i)) * 12) j (es j)
          shifted.2.apart (inl (omega arith)) (h.entries j (omega (arith, low))).0))

  entry_after : (j : ℕ) → i ≤ j → j < size → EntryAt grown (j + 1) (es j)
  entry_after j above below = grown-EntryAt (j + 1) (es j) (
      EntryAt-Apart moved filled (24 + i * 12) (36 + i * 12) (j + 1) (es j)
        (entered-Apart moved i e good inside) (inr (omega arith))
        (shifted.2.moved j above (omega (arith, whole_count))))

  grown-HasEntries : HasEntries grown (size + 1) (put_in es i e)
  unfolding put_in is_leaf_page get_page_type get_size
  grown-HasEntries = record {
    whole = grown-length;
    leaf = rw (header_word 0 (omega arith)) h.leaf;
    sized =
        word_at-with_word filled 4 (size + 1) (omega (arith, filled-length)) (omega (arith, room));
    entries = λ j less. elim (Bool-cases (ltb j i)) [
      | inl before ↦
          rw before (entry_before j (ground arith), (h.entries j (ground (arith, low))).1)
      | inr from ↦ elim (Bool-cases (j == i)) [
        | inl at ↦
            let same : i ≡ j = ground arith in
            rw (from, at)
              (
                subst (λ (n : ℕ). EntryAt grown n e) same
                    (grown-EntryAt i e (entered-EntryAt moved i e good inside)),
                good,
              )
        | inr past ↦
            let back : j - 1 + 1 ≡ j = ground arith in
            rw (from, past)
              (
                subst (λ (n : ℕ). EntryAt grown n (es (j - 1))) back
                    (entry_after (j - 1) (ground arith) (ground arith)),
                (h.entries (j - 1) (ground arith)).1,
              )
      ]
    ];
  }

-- On a leaf page with room for one more entry, whose keys are in strict order, `insert` of an entry
-- with a new key stays inside the page and succeeds: the index it returns is the place of the key,
-- the page then has the same entries with the new one at that index, and the keys are in strict order.
pub insert_lem :
    (page : List ℕ) (size : ℕ) (es : ℕ → ℤ × Rid) (e : ℤ × Rid)
    → HasEntries page size es
    → IsSorted es size
    → IsEntry e
    → ((j : ℕ) → j < size → (es j).0 ≢ e.0)
    → 36 + size * 12 ≤ 4096
    → (i : ℕ) × (page' : List ℕ) × (insert page e.0 e.1 ≡ ok (i, page'))
      × IsPosition es size e.0 i
      × HasEntries page' (size + 1) (put_in es i e)
      × IsSorted (put_in es i e) (size + 1)
insert_lem page size es e h sorted good fresh room =
    let (i, found, place) =
      position_lem page size es e.0 size 0 h (omega arith) (λ j q. absurd (omega arith)) in
    (
      i,
      grown page size es e i h good place.inside room,
      insert_runs page size es e i h good place.inside room found,
      place,
      grown-HasEntries page size es e i h good place.inside room,
      put_in-IsSorted es size i e sorted place fresh,
    )

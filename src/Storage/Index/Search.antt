-- ===== src/Storage/Index/Search.antt =====
-- The binary search of an internal page (src/storage/index/b_plus_tree_internal_page.rs).
use dip_v.Base.{
  ℕ, zero, suc, ◌+◌, ◌-◌, ◌/◌, ◌%◌, ◌^◌, ◌≤◌, ◌<◌, ◌≡◌, inl, inr, refl, ◌∙◌, true, false,
  Bool-cases, List, leb, arith, ok,
}
use dip_v.Base.Int.{ℤ, leb_ℤ, leb_trans}
use dip_v.Storage.Index.Header.{get_size}
use dip_v.Storage.Index.Internal.{key_at, value_at, search, lookup}

-- The keys of a page, in order from index 1 on.
pub record HasKeys (page : List ℕ) (size : ℕ) (keys : ℕ → ℤ) : Type 0 where
  pub reads : (i : ℕ) → 1 ≤ i → i < size → key_at page i ≡ ok (keys i)
  pub sorted : (i j : ℕ) → 1 ≤ i → i ≤ j → j < size → leb_ℤ (keys i) (keys j) ≡ true

-- The child to follow for a key: the last one whose key is not greater, the first if there is none.
pub record IsChild (size : ℕ) (keys : ℕ → ℤ) (key : ℤ) (r : ℕ) : Type 0 where
  pub inside : r < size
  pub left : (i : ℕ) → 1 ≤ i → i ≤ r → leb_ℤ (keys i) key ≡ true
  pub right : (i : ℕ) → r < i → i < size → leb_ℤ (keys i) key ≡ false

-- A key after one that is greater is greater.
beyond : (a b c : ℤ) → leb_ℤ a b ≡ true → leb_ℤ a c ≡ false → leb_ℤ b c ≡ false
unfolding leb_ℤ
beyond a b c h k = ground arith

search_done :
    (page : List ℕ) (key : ℤ) (fuel left right idx : ℕ)
    → leb left right ≡ false
    → search page key (suc fuel) left right idx ≡ ok idx
unfolding search
search_done page key fuel left right idx e = ground (arith, e)

-- One round of the search, where no word overflows.
search_round :
    (page : List ℕ) (key k : ℤ) (fuel left right idx mid : ℕ)
    → leb left right ≡ true
    → (left + right) % 2 ^ 32 / 2 ≡ mid
    → (mid + 1) % 2 ^ 32 ≡ mid + 1
    → (mid + 2 ^ 32 - 1) % 2 ^ 32 ≡ mid - 1
    → key_at page mid ≡ ok k
    → search page key (suc fuel) left right idx ≡ (elim (leb_ℤ k key) [
      | true ↦ search page key fuel (mid + 1) right mid
      | false ↦ search page key fuel left (mid - 1) idx
    ])
unfolding search
search_round page key k fuel left right idx mid e half next prev at =
    ground (arith, e, half, at, next, prev)

search_lem :
    (page : List ℕ) (size : ℕ) (keys : ℕ → ℤ) (key : ℤ) (fuel l r : ℕ)
    → HasKeys page size keys
    → size < 2 ^ 31
    → r < size
    → l ≤ r
    → r < l + fuel
    → ((i : ℕ) → 1 ≤ i → i ≤ l → leb_ℤ (keys i) key ≡ true)
    → ((i : ℕ) → r < i → i < size → leb_ℤ (keys i) key ≡ false)
    → (idx : ℕ) × (search page key fuel (l + 1) r l ≡ ok idx) × IsChild size keys key idx
search_lem page size keys key zero l r h small inside ordered enough below above =
    absurd (omega arith)
search_lem page size keys key (suc fuel) l r h small inside ordered enough below above =
    elim (Bool-cases (leb (l + 1) r)) [
      | inr e ↦ (
        l,
        search_done page key fuel (l + 1) r l e,
        record { inside = omega arith; left = below; right = λ i p q. above i (ground arith) q },
      )
      | inl e ↦
          let more : l + 1 ≤ r = ground arith in
          let mid : ℕ = (l + 1 + r) / 2 in
          let word : (l + 1 + r) % 2 ^ 32 / 2 ≡ mid = omega arith in
          let next : (mid + 1) % 2 ^ 32 ≡ mid + 1 = omega arith in
          let prev : (mid + 2 ^ 32 - 1) % 2 ^ 32 ≡ mid - 1 = omega arith in
          let at : key_at page mid ≡ ok (keys mid) = h.reads mid (omega arith) (omega arith) in
          elim (Bool-cases (leb_ℤ (keys mid) key)) [
            | inl le ↦
                let (idx, runs, good) =
                  search_lem page size keys key fuel mid r h small inside (omega arith)
                    (omega arith)
                    (λ i p q.
                      leb_trans (keys i) (keys mid) key (h.sorted i mid p q (omega arith)) le)
                    above in
                (
                  idx,
                  search_round page key (keys mid) fuel (l + 1) r l mid e word next prev at
                      ∙ (rw le runs),
                  good,
                )
            | inr gt ↦
                let (idx, runs, good) =
                  search_lem page size keys key fuel l (mid - 1) h small (omega arith) (omega arith)
                    (omega arith) below
                    (λ i p q.
                      beyond (keys mid) (keys i) key (h.sorted mid i (omega arith) (omega arith) q)
                        gt) in
                (
                  idx,
                  search_round page key (keys mid) fuel (l + 1) r l mid e word next prev at
                      ∙ (rw gt runs),
                  good,
                )
          ]
    ]

lookup_from :
    (page : List ℕ) (size idx : ℕ) (key : ℤ)
    → get_size page ≡ ok size
    → (size + 2 ^ 32 - 1) % 2 ^ 32 ≡ size - 1
    → search page key (size + 1) 1 (size - 1) 0 ≡ ok idx
    → lookup page key ≡ value_at page idx
unfolding lookup
lookup_from page size idx key sized last runs = rw (sized, last, runs)

-- On a page of at least one and fewer than 2^31 entries with sorted keys, `lookup` terminates and
-- returns the pointer of the child to follow: the last one whose key is not greater than the key,
-- the first if there is none.
pub lookup_lem :
    (page : List ℕ) (size : ℕ) (keys : ℕ → ℤ) (key : ℤ)
    → HasKeys page size keys
    → get_size page ≡ ok size
    → 0 < size
    → size < 2 ^ 31
    → (idx : ℕ) × (lookup page key ≡ value_at page idx) × IsChild size keys key idx
lookup_lem page size keys key h sized some_child small =
    let last : (size + 2 ^ 32 - 1) % 2 ^ 32 ≡ size - 1 = omega arith in
    let start : 0 + 1 ≡ 1 = refl in
    let (idx, runs, good) =
      search_lem page size keys key (size + 1) 0 (size - 1) h small (omega arith) (omega arith)
        (omega arith) (λ i p q. absurd (omega arith)) (λ i p q. absurd (omega arith)) in
    (idx, lookup_from page size idx key sized last runs, good)

-- ===== src/Storage/BPlusTree/Find.antt =====
-- `get_value` on an ordered tree (src/storage/index/b_plus_tree.rs).
use dip_v.Base.{
  ℕ, zero, suc, ◌^◌, ◌<◌, ◌≡◌, ◌≢◌, ◌⊎◌, refl, subst, inl, inr, true, false, Bool-cases, ltb, arith,
  List, Option, none, some, ok, ◌∙◌, ap,
}
use dip_v.Base.Int.{ℤ, leb_ℤ, of_parts}
use dip_v.Storage.Rid.{Rid}
use dip_v.Storage.Index.Header.{get_size, is_leaf_page}
use dip_v.Storage.Index.Internal
use dip_v.Storage.Index.Search.{HasKeys, IsChild, lookup_lem}
use dip_v.Storage.Index.Insert.{HasEntries, IsSorted}
use dip_v.Storage.PoolManager.{BufferPoolManager}
use dip_v.Storage.PoolManager.Invariant.{page_content}
use dip_v.Storage.PoolManager.Calls.{Same, Ready}
use dip_v.Storage.BPlusTree.{BPlusTree, key_eq, leaf_value, get_value}
use dip_v.Storage.BPlusTree.Descent.{Descent, arrived, down, get_value_lem}
use dip_v.Storage.BPlusTree.Replace.{leaf_missing}
use dip_v.Storage.BPlusTree.Grow.{find_absent, leaf_value_entry}

-- What the entries say of a key: the value beside it, or nothing.
unfoldable pub Answers : (ℕ → ℤ × Rid) → ℕ → ℤ → Option Rid → Type 0
Answers es size key value =
    ((p : ℕ) × (p < size) × ((es p).0 ≡ key) × (value ≡ some (es p).1))
    ⊎ (((j : ℕ) → j < size → (es j).0 ≢ key) × (value ≡ none))

-- Two children to follow for one key are one.
child_unique :
    (size a b : ℕ) (keys : ℕ → ℤ) (key : ℤ)
    → IsChild size keys key a
    → IsChild size keys key b
    → a ≡ b
child_unique size a b keys key x y = elim (Bool-cases (ltb a b)) [
  | inl less ↦
      let p = x.right b (ground arith) y.inside in
      let q = y.left b (ground arith) (omega arith) in cc
  | inr stop ↦ elim (Bool-cases (ltb b a)) [
    | inl less ↦
        let p = y.right a (ground arith) x.inside in
        let q = x.left a (ground arith) (omega arith) in cc
    | inr stop' ↦ ground arith
  ]
]

key_eq→≡ : (a b : ℤ) → key_eq a b ≡ true → a ≡ b
unfolding key_eq leb_ℤ
key_eq→≡ a b h = of_parts a b (ground arith)

key_apart : (a b : ℤ) → key_eq a b ≡ false → a ≢ b
unfolding key_eq leb_ℤ
key_apart a b h same = ground arith

-- The key is among the first entries, or it is not.
entry_cases :
    (es : ℕ → ℤ × Rid) (key : ℤ) (n : ℕ)
    → ((p : ℕ) × (p < n) × ((es p).0 ≡ key)) ⊎ ((j : ℕ) → j < n → (es j).0 ≢ key)
entry_cases es key zero = inr (λ j less. absurd (omega arith))
entry_cases es key (suc n) = elim (Bool-cases (key_eq (es n).0 key)) [
  | inl e ↦ inl (n, omega arith, key_eq→≡ (es n).0 key e)
  | inr e ↦ elim (entry_cases es key n) [
    | inl (p, less, same) ↦ inl (p, omega arith, same)
    | inr apart ↦ inr (λ j less. elim (Bool-cases (ltb j n)) [
      | inl before ↦ apart j (ground arith)
      | inr at ↦
          let same : n ≡ j = ground arith in
          subst (λ (k : ℕ). (es k).0 ≢ key) same (key_apart (es n).0 key e)
    ])
  ]
]

-- The search of a leaf gives what its entries say.
leaf_value_lem :
    (page : List ℕ) (size : ℕ) (es : ℕ → ℤ × Rid) (key : ℤ)
    → HasEntries page size es
    → IsSorted es size
    → (value : Option Rid) × (leaf_value page key ≡ ok value) × Answers es size key value
unfolding Answers
leaf_value_lem page size es key h sorted = elim (entry_cases es key size) [
  | inl (p, less, same) ↦ (
    some (es p).1,
    subst (λ (k : ℤ). leaf_value page k ≡ ok (some (es p).1)) same
        (leaf_value_entry page size es p h sorted less),
    inl (p, less, same, refl),
  )
  | inr apart ↦ (
    none,
    leaf_missing page key size h.sized (find_absent page size es key size 0 h (omega arith) apart),
    inr (apart, refl),
  )
]

module _ (hash : ℕ → ℕ) where
  -- An internal page with its keys in order, and the page of the child to follow: the last one whose
  -- key is not greater, the first if there is none.
  pub record Guide (m : BufferPoolManager) (key : ℤ) (p next : ℕ) : Type 0 where
    pub page : List ℕ
    pub there : page_content hash m p ≡ ok page
    pub inner : is_leaf_page page ≡ ok false
    pub size : ℕ
    pub sized : get_size page ≡ ok size
    pub some_child : 0 < size
    pub small : size < 2 ^ 31
    pub keys : ℕ → ℤ
    pub ordered : HasKeys page size keys
    pub child : ℕ
    pub follows : IsChild size keys key child
    pub leads : Internal.value_at page child ≡ ok next

  -- `n` such pages lead from a page to the last one.
  pub data Guided (m : BufferPoolManager) (key : ℤ) (last : ℕ) : ℕ → ℕ → Type 0 where
    at_leaf : Guided m key last 0 last
    through :
        (n p next : ℕ) → Guide m key p next → Guided m key last n next → Guided m key last (suc n) p

  looked_up :
      {m : BufferPoolManager} {key : ℤ} {p next : ℕ} (g : Guide m key p next)
      → Internal.lookup g.page key ≡ ok next
  looked_up {key = key} g =
      let (idx, runs, good) =
        lookup_lem g.page g.size g.keys key g.ordered g.sized g.some_child g.small in
      let same : idx ≡ g.child = child_unique g.size idx g.child g.keys key good g.follows in
      runs ∙ (ap (Internal.value_at g.page) same ∙ g.leads)

  Guided-Descent :
      {m : BufferPoolManager} {key : ℤ} {last n p : ℕ}
      → Guided m key last n p
      → Descent hash m key last n p
  Guided-Descent at_leaf = arrived
  Guided-Descent (through n p next g rest) =
      down n p next
        (record { page = g.page; there = g.there; inner = g.inner; leads = looked_up g })
        (Guided-Descent rest)

  -- If the pool is ready, `n` internal pages lead from the root to a leaf, each with its keys in order
  -- and by the child whose range has the key, and the leaf has its keys in strict order, then
  -- `get_value` with more than `n` rounds returns the value beside the key in the leaf, or none if no
  -- entry has the key; no page changes and the pool stays ready.
  pub get_value_ordered :
      (m : BufferPoolManager) (tree : BPlusTree) (key : ℤ) (n rounds last size : ℕ) (leaf : List ℕ)
      (es : ℕ → ℤ × Rid)
      → n < rounds
      → Ready hash m
      → Guided m key last n tree.root_page_id
      → page_content hash m last ≡ ok leaf
      → HasEntries leaf size es
      → IsSorted es size
      → (value : Option Rid) × (m' : BufferPoolManager) × (get_value hash rounds m tree key
          ≡ ok (value, m'))
        × Answers es size key value
        × Same hash m m'
        × Ready hash m'
  get_value_ordered m tree key n rounds last size leaf es more ready way there h sorted =
      let (value, reads, says) = leaf_value_lem leaf size es key h sorted in
      let (m', runs, same, ready') =
        get_value_lem hash m tree key n rounds last leaf value more ready (Guided-Descent way) there
          h.leaf reads in
      (value, m', runs, says, same, ready')

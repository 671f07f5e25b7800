-- ===== src/Storage/BPlusTree/Grow.antt =====
-- `insert` into a leaf with room and then `get_value`, on the whole tree
-- (src/storage/index/b_plus_tree.rs).
use dip_v.Base.{
  ℕ, zero, suc, ◌+◌, ◌*◌, ◌≤◌, ◌<◌, ◌≡◌, ◌≢◌, refl, inl, inr, true, false, Bool-cases, List, ltb,
  ◌==◌, arith, none, some, ok, subst, ap, ◌∙◌,
}
use dip_v.Base.Int.{ℤ, leb_ℤ, ltb_ℤ, of_parts}
use dip_v.Storage.Rid.{Rid}
use dip_v.Storage.Index.Header.{get_size, get_max_size}
use dip_v.Storage.Index.Leaf
use dip_v.Storage.Index.Entry.{IsEntry}
use dip_v.Storage.Index.Insert
use dip_v.Storage.Index.Insert.{HasEntries, IsSorted, IsPosition, put_in}
use dip_v.Storage.PoolManager.{BufferPoolManager}
use dip_v.Storage.PoolManager.Invariant.{page_content}
use dip_v.Storage.PoolManager.Calls.{Same, Same-trans, Saved, Ready}
use dip_v.Storage.PageAccess.{must_open, save_page, close_page}
use dip_v.Storage.PageAccess.Laws.{close_page_lem, save_page_lem}
use dip_v.Storage.BPlusTree.{BPlusTree, key_eq, find_key, leaf_value, find_leaf_page, get_value}
use dip_v.Storage.BPlusTree.Insert.{insert}
use dip_v.Storage.BPlusTree.Descent.{
  Descent, Descent-kept, must_open_lem, find_leaf_page_lem, get_value_lem,
}

key_eq-apart : (a b : ℤ) → a ≢ b → key_eq a b ≡ false
unfolding key_eq leb_ℤ
key_eq-apart a b h = ground (arith, of_parts a b)

key_eq-same : (a : ℤ) → key_eq a a ≡ true
unfolding key_eq leb_ℤ
key_eq-same a = ground arith

find_next :
    (page : List ℕ) (key k : ℤ) (rounds i : ℕ)
    → Leaf.key_at page i ≡ ok k
    → key_eq k key ≡ false
    → find_key page key (suc rounds) i ≡ find_key page key rounds (i + 1)
unfolding find_key
find_next page key k rounds i reads apart = ground (arith, reads, apart)

find_here :
    (page : List ℕ) (key k : ℤ) (rounds i : ℕ)
    → Leaf.key_at page i ≡ ok k
    → key_eq k key ≡ true
    → find_key page key (suc rounds) i ≡ ok (some i)
unfolding find_key
find_here page key k rounds i reads same = ground (arith, reads, same)

-- The search finds no key that is not there.
pub find_absent :
    (page : List ℕ) (size : ℕ) (es : ℕ → ℤ × Rid) (key : ℤ) (rounds i : ℕ)
    → HasEntries page size es
    → i + rounds ≡ size
    → ((j : ℕ) → j < size → (es j).0 ≢ key)
    → find_key page key rounds i ≡ ok none
unfolding find_key
find_absent page size es key zero i h e fresh = refl
find_absent page size es key (suc rounds) i h e fresh =
    find_next page key (es i).0 rounds i (h.entries i (omega arith)).0.key
      (key_eq-apart (es i).0 key (fresh i (omega arith)))
    ∙ find_absent page size es key rounds (i + 1) h (omega arith) fresh

-- The search finds the one entry with the key.
pub find_present :
    (page : List ℕ) (size : ℕ) (es : ℕ → ℤ × Rid) (p : ℕ) (rounds i : ℕ)
    → HasEntries page size es
    → i + rounds ≡ size
    → i ≤ p
    → p < size
    → ((j : ℕ) → j < p → (es j).0 ≢ (es p).0)
    → find_key page (es p).0 rounds i ≡ ok (some p)
find_present page size es p zero i h e from below apart = absurd (omega arith)
find_present page size es p (suc rounds) i h e from below apart =
    let reads = (h.entries i (omega arith)).0.key in
    elim (Bool-cases (i == p)) [
      | inl at ↦
          let same : i ≡ p = ground arith in
          find_here page (es p).0 (es i).0 rounds i reads
            (subst (λ (n : ℕ). key_eq (es i).0 (es n).0 ≡ true) same (key_eq-same (es i).0))
          ∙ ap (λ (n : ℕ). ok (some n)) same
      | inr at ↦
          find_next page (es p).0 (es i).0 rounds i reads
            (key_eq-apart (es i).0 (es p).0 (apart i (ground arith)))
          ∙ find_present page size es p rounds (i + 1) h (omega arith) (ground arith) below apart
    ]

-- Keys in strict order differ.
sorted_apart :
    (es : ℕ → ℤ × Rid) (size j k : ℕ) → IsSorted es size → j < k → k < size → (es j).0 ≢ (es k).0
unfolding IsSorted ltb_ℤ
sorted_apart es size j k sorted less inside same =
    let order = sorted j k less inside in ground (arith, same)

-- In a leaf with keys in strict order each entry is found by its key.
pub leaf_value_entry :
    (page : List ℕ) (size : ℕ) (es : ℕ → ℤ × Rid) (p : ℕ)
    → HasEntries page size es
    → IsSorted es size
    → p < size
    → leaf_value page (es p).0 ≡ ok (some (es p).1)
unfolding leaf_value
leaf_value_entry page size es p h sorted below =
    let found =
      find_present page size es p size 0 h (omega arith) (omega arith) below
        (λ j less. sorted_apart es size j p sorted less below) in
    rw (h.sized, found, (h.entries p below).0.value) refl

module _ (hash : ℕ → ℕ) where
  insert_runs :
      (rounds : ℕ) (m m1 m2 : BufferPoolManager) (tree : BPlusTree) (key : ℤ) (value : Rid)
      (p size max_size i : ℕ) (page page' : List ℕ)
      → find_leaf_page hash rounds m tree key ≡ ok (p, m1)
      → must_open hash m1 p ≡ ok (page, m2)
      → get_size page ≡ ok size
      → find_key page key size 0 ≡ ok none
      → get_max_size page ≡ ok max_size
      → ltb size max_size ≡ true
      → Leaf.insert page key value ≡ ok (i, page')
      → insert hash rounds m tree key value ≡ ok (true, tree, save_page hash m2 p page')
  unfolding insert
  insert_runs rounds m m1 m2 tree key value p size max_size i page page' way opened sized absent
        maximum less placed =
      ground (arith, way, opened, sized, absent, maximum, less, placed)

  duplicate_runs :
      (rounds : ℕ) (m m1 m2 : BufferPoolManager) (tree : BPlusTree) (key : ℤ) (value : Rid)
      (p size i : ℕ) (page : List ℕ)
      → find_leaf_page hash rounds m tree key ≡ ok (p, m1)
      → must_open hash m1 p ≡ ok (page, m2)
      → get_size page ≡ ok size
      → find_key page key size 0 ≡ ok (some i)
      → insert hash rounds m tree key value ≡ ok (false, tree, close_page hash m2 p)
  unfolding insert
  duplicate_runs rounds m m1 m2 tree key value p size i page way opened sized found =
      rw (way, opened, sized, found) refl

  -- The leaf has the new entry in its place, every other page its bytes.
  pub record Grown (m : BufferPoolManager) (last size : ℕ) (es : ℕ → ℤ × Rid) (e : ℤ × Rid)
      (m' : BufferPoolManager) : Type 0 where
    pub page : List ℕ
    pub place : ℕ
    pub position : IsPosition es size e.0 place
    pub entries : HasEntries page (size + 1) (put_in es place e)
    pub sorted : IsSorted (put_in es place e) (size + 1)
    pub saved : Saved hash m m' last page
    pub ready : Ready hash m'

  -- If the pool is ready and `n` internal pages lead from the root to a leaf that has its keys in
  -- strict order, not this key, and fewer entries than its maximum and than fit the page, then
  -- `insert` with more than `n` rounds succeeds: the leaf has the entry in its place, with its keys
  -- still in strict order, no other page changes, and `get_value` of the key returns the value.
  pub get_value-insert :
      (m : BufferPoolManager) (tree : BPlusTree) (e : ℤ × Rid) (n rounds last size max_size : ℕ)
      (leaf : List ℕ) (es : ℕ → ℤ × Rid)
      → n < rounds
      → Ready hash m
      → Descent hash m e.0 last n tree.root_page_id
      → page_content hash m last ≡ ok leaf
      → HasEntries leaf size es
      → IsSorted es size
      → IsEntry e
      → ((j : ℕ) → j < size → (es j).0 ≢ e.0)
      → get_max_size leaf ≡ ok max_size
      → size < max_size
      → 36 + size * 12 ≤ 4096
      → (m1 : BufferPoolManager) × (m2 : BufferPoolManager) × (insert hash rounds m tree e.0 e.1
          ≡ ok (true, tree, m1))
        × Grown m last size es e m1
        × (get_value hash rounds m1 tree e.0 ≡ ok (some e.1, m2))
  unfolding put_in
  get_value-insert m tree e n rounds last size max_size leaf es more ready way h v sorted good fresh
        maximum less room =
      let (a, found_leaf, same1, ready1) =
        find_leaf_page_lem hash m tree e.0 n rounds last leaf more ready way h v.leaf in
      let (f, b, opened, same2, held) =
        must_open_lem hash a last leaf ready1 (same1.same last leaf h) in
      let (i, page, placed, position, entries, order) =
        Insert.insert_lem leaf size es e v sorted good fresh room in
      let (saved, ready2) = save_page_lem hash b last f page held entries.whole in
      let m1 = save_page hash b last page in
      let kept : (q : ℕ) (old : List ℕ)
          → last ≢ q
          → page_content hash m q ≡ ok old
          → page_content hash m1 q ≡ ok old =
        λ q old apart k. saved.others q old apart (same2.same q old (same1.same q old k)) in
      let not_below : ltb i i ≡ false = ground arith in
      let same : (i == i) ≡ true = ground arith in
      let its : put_in es i e i ≡ e = rw (not_below, same) refl in
      let value : leaf_value page e.0 ≡ ok (some e.1) = rw its at (
        leaf_value_entry page (size + 1) (put_in es i e) i entries order
          (let p = position.inside in omega arith)) in
      let (m2, got, same3, ready3) =
        get_value_lem hash m1 tree e.0 n rounds last page (some e.1) more ready2
          (Descent-kept hash last leaf h v.leaf kept way) saved.now entries.leaf value in
      let below : ltb size max_size ≡ true = ground arith in
      (
        m1,
        m2,
        insert_runs rounds m a b tree e.0 e.1 last size max_size i leaf page found_leaf opened
            v.sized (find_absent leaf size es e.0 size 0 v (omega arith) fresh) maximum below
            placed,
        record {
          page = page;
          place = i;
          position = position;
          entries = entries;
          sorted = order;
          saved = record { valid = saved.valid; now = saved.now; others = kept };
          ready = ready2;
        },
        got,
      )

  -- If the pool is ready and `n` internal pages lead from the root to a leaf with its keys in strict
  -- order that has the key already, then `insert` with more than `n` rounds returns false and no page
  -- changes.
  pub insert_duplicate :
      (m : BufferPoolManager) (tree : BPlusTree) (value : Rid) (n rounds last size p : ℕ)
      (leaf : List ℕ) (es : ℕ → ℤ × Rid)
      → n < rounds
      → Ready hash m
      → Descent hash m (es p).0 last n tree.root_page_id
      → page_content hash m last ≡ ok leaf
      → HasEntries leaf size es
      → IsSorted es size
      → p < size
      → (m' : BufferPoolManager) × (insert hash rounds m tree (es p).0 value ≡ ok (false, tree, m'))
        × Same hash m m'
        × Ready hash m'
  insert_duplicate m tree value n rounds last size p leaf es more ready way h v sorted below =
      let (a, found_leaf, same1, ready1) =
        find_leaf_page_lem hash m tree (es p).0 n rounds last leaf more ready way h v.leaf in
      let (f, b, opened, same2, held) =
        must_open_lem hash a last leaf ready1 (same1.same last leaf h) in
      let (same3, ready2) = close_page_lem hash b last f held in
      let found =
        find_present leaf size es p size 0 v (omega arith) (omega arith) below
          (λ j less. sorted_apart es size j p sorted less below) in
      (
        close_page hash b last,
        duplicate_runs rounds m a b tree (es p).0 value last size p leaf found_leaf opened v.sized
            found,
        Same-trans hash m a (close_page hash b last) same1
            (Same-trans hash a b (close_page hash b last) same2 same3),
        ready2,
      )

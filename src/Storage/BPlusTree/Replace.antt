-- ===== src/Storage/BPlusTree/Replace.antt =====
-- `update_value` and then `get_value` on the whole tree (src/storage/index/b_plus_tree.rs).
use dip_v.Base.{
  ℕ, ◌+◌, ◌*◌, ◌≤◌, ◌<◌, ◌≡◌, ◌≢◌, refl, ◌^◌, inl, inr, true, false, List, length, arith, Option,
  none, some, Option-cases, ok, ◌>>=◌, >>=-eq-ok, ok-injective, sym, subst, ◌∙◌,
}
use dip_v.Base.Int.{ℤ, leb_ℤ}
use dip_v.Storage.Rid.{Rid}
use dip_v.Storage.Index.Header.{get_size, is_leaf_page, get_page_type}
use dip_v.Storage.Index.Leaf
use dip_v.Storage.PoolManager.{BufferPoolManager}
use dip_v.Storage.PoolManager.Invariant.{page_content}
use dip_v.Storage.PoolManager.Calls.{Saved, Ready}
use dip_v.Storage.PageAccess.{must_open, save_page}
use dip_v.Storage.PageAccess.Laws.{save_page_lem}
use dip_v.Storage.BPlusTree.{
  BPlusTree, key_eq, find_key, leaf_value, leaf_update, find_leaf_page, finish, update_value,
  get_value,
}
use dip_v.Storage.BPlusTree.Descent.{
  Descent, Descent-kept, must_open_lem, find_leaf_page_lem, get_value_lem,
}
use dip_v.Storage.BPlusTree.Update.{
  IsLeaf, Found, find_key_same, found_entry, replaced, set_value_at_lem, length-replaced,
  word_other, key_same, value_now, value_other,
}

leaf_found :
    (page : List ℕ) (key : ℤ) (size i : ℕ) (value : Rid)
    → get_size page ≡ ok size
    → find_key page key size 0 ≡ ok (some i)
    → Leaf.value_at page i ≡ ok value
    → leaf_value page key ≡ ok (some value)
unfolding leaf_value
leaf_found page key size i value sized found reads = rw (sized, found, reads) refl

pub leaf_missing :
    (page : List ℕ) (key : ℤ) (size : ℕ)
    → get_size page ≡ ok size
    → find_key page key size 0 ≡ ok none
    → leaf_value page key ≡ ok none
unfolding leaf_value
leaf_missing page key size sized found = rw (sized, found) refl

-- A search that gave an answer: it found nothing, or an entry that was read.
leaf_answer :
    (page : List ℕ) (key : ℤ) (size : ℕ) (t : Option Rid)
    → get_size page ≡ ok size
    → leaf_value page key ≡ ok t
    → (found : Option ℕ) × (find_key page key size 0 ≡ ok found)
      × ((elim found [ none ↦ ok none | some i ↦ Leaf.value_at page i >>= λ rid. ok (some rid) ])
          ≡ ok t)
unfolding leaf_value
leaf_answer page key size t sized h =
    let h' : (find_key page key size 0 >>= λ found. elim found [
      | none ↦ ok none
      | some i ↦ Leaf.value_at page i >>= λ rid. ok (some rid)
    ])
        ≡ ok t =
      rw sized at h in
    >>=-eq-ok (find_key page key size 0) _ h'

-- Two keys that equal the keys of one entry are equal.
one_entry :
    (a b key k : ℤ) → ok a ≡ ok b → key_eq a k ≡ true → key_eq b key ≡ true → key_eq k key ≡ true
unfolding key_eq leb_ℤ
one_entry a b key k h e1 e2 =
    let same : a ≡ b = ok-injective a b h in
    let e3 : key_eq b k ≡ true = subst (λ (x : ℤ). key_eq x k ≡ true) same e1 in
    ground (arith, e2, e3)

-- The leaf after its entry `i`, the one with the key, got a new value.
pub record Replaced (page : List ℕ) (size : ℕ) (key : ℤ) (value : Rid) (page' : List ℕ)
    : Type 0 where
  pub valid : IsLeaf page' size
  pub now : leaf_value page' key ≡ ok (some value)
  pub others :
      (k : ℤ) (t : Option Rid)
      → key_eq k key ≡ false
      → leaf_value page k ≡ ok t
      → leaf_value page' k ≡ ok t

module _ (page : List ℕ) (size i : ℕ) (key : ℤ) (value : Rid) (v : IsLeaf page size)
    (found : find_key page key size 0 ≡ ok (some i)) (small1 : value.page_id < 2 ^ 32)
    (small2 : value.slot_num < 2 ^ 32) where
  entry : Found page key size i
  entry = found_entry page key size i found

  pub inside : 36 + i * 12 ≤ length page
  inside = omega (arith, entry.inside, v.fits, v.whole)

  pub update_runs : leaf_update page key value ≡ ok (true, replaced page i value inside)
  unfolding leaf_update
  update_runs = rw (v.sized, found, set_value_at_lem page i value inside) refl

  size_same : get_size (replaced page i value inside) ≡ ok size
  unfolding get_size
  size_same = word_other page i value inside 4 (inl (omega arith)) ∙ v.sized

  search_same : (k : ℤ) → find_key (replaced page i value inside) k size 0 ≡ find_key page k size 0
  search_same k =
      find_key_same page (replaced page i value inside) k (key_same page i value inside) size 0

  replaced-IsLeaf : IsLeaf (replaced page i value inside) size
  unfolding is_leaf_page get_page_type
  replaced-IsLeaf = record {
    whole = length-replaced page i value inside ∙ v.whole;
    leaf = rw (word_other page i value inside 0 (inl (omega arith))) v.leaf;
    sized = size_same;
    fits = v.fits;
  }

  other_entry :
      (k : ℤ) (j : ℕ) → key_eq k key ≡ false → find_key page k size 0 ≡ ok (some j) → j ≢ i
  other_entry k j differ at same =
      let other = found_entry page k size j at in
      let reads : Leaf.key_at page i ≡ ok other.at =
        subst (λ (n : ℕ). Leaf.key_at page n ≡ ok other.at) same other.reads in
      let both =
        one_entry other.at entry.at key k (sym reads ∙ entry.reads) other.equal entry.equal in
      cc

  pub leaf_update_lem : Replaced page size key value (replaced page i value inside)
  leaf_update_lem = record {
    valid = replaced-IsLeaf;
    now =
        leaf_found (replaced page i value inside) key size i value size_same
          (search_same key ∙ found) (value_now page i value inside small1 small2);
    others = λ k t differ h.
        let (spot, at, rest) = leaf_answer page k size t v.sized h in
        elim (Option-cases spot) [
          | inl e ↦
              let at' : find_key page k size 0 ≡ ok none = rw (← e) at in
              let t_none : ok none ≡ ok t = (rw e at rest) in
              leaf_missing (replaced page i value inside) k size size_same (search_same k ∙ at')
              ∙ t_none
          | inr (j, e) ↦
              let at' : find_key page k size 0 ≡ ok (some j) = rw (← e) at in
              let rest' : (Leaf.value_at page j >>= λ rid. ok (some rid)) ≡ ok t = rw e at rest in
              let (rid, read, last) = >>=-eq-ok (Leaf.value_at page j) _ rest' in
              leaf_found (replaced page i value inside) k size j rid size_same (search_same k ∙ at')
                (value_other page i value inside j (other_entry k j differ at') ∙ read)
              ∙ last
        ];
  }

module _ (hash : ℕ → ℕ) where
  update_value_runs :
      (rounds : ℕ) (m m1 m2 : BufferPoolManager) (tree : BPlusTree) (key : ℤ) (value : Rid) (p : ℕ)
      (page page' : List ℕ)
      → find_leaf_page hash rounds m tree key ≡ ok (p, m1)
      → must_open hash m1 p ≡ ok (page, m2)
      → leaf_update page key value ≡ ok (true, page')
      → update_value hash rounds m tree key value ≡ ok (true, save_page hash m2 p page')
  unfolding update_value finish
  update_value_runs rounds m m1 m2 tree key value p page page' way opened updated =
      rw (way, opened, updated) refl

  -- The leaf has the new value, every other page its bytes.
  pub record Updated (m : BufferPoolManager) (last : ℕ) (leaf : List ℕ) (size : ℕ) (key : ℤ)
      (value : Rid) (m' : BufferPoolManager) : Type 0 where
    pub page : List ℕ
    pub replaces : Replaced leaf size key value page
    pub saved : Saved hash m m' last page
    pub ready : Ready hash m'

  -- If the pool is ready and `n` internal pages lead from the root to a leaf that has an entry with
  -- the key, then `update_value` with more than `n` rounds succeeds and changes that leaf only, where
  -- every other key keeps its value, and `get_value` of the key returns the new value.
  pub get_value-update_value :
      (m : BufferPoolManager) (tree : BPlusTree) (key : ℤ) (value : Rid) (n rounds last size i : ℕ)
      (leaf : List ℕ)
      → n < rounds
      → Ready hash m
      → Descent hash m key last n tree.root_page_id
      → page_content hash m last ≡ ok leaf
      → IsLeaf leaf size
      → find_key leaf key size 0 ≡ ok (some i)
      → value.page_id < 2 ^ 32
      → value.slot_num < 2 ^ 32
      → (m1 : BufferPoolManager) × (m2 : BufferPoolManager) × (update_value hash rounds m tree key
            value
          ≡ ok (true, m1))
        × Updated m last leaf size key value m1
        × (get_value hash rounds m1 tree key ≡ ok (some value, m2))
  get_value-update_value m tree key value n rounds last size i leaf more ready way h v found small1
        small2 =
      let (a, found_leaf, same1, ready1) =
        find_leaf_page_lem hash m tree key n rounds last leaf more ready way h v.leaf in
      let (f, b, opened, same2, held) =
        must_open_lem hash a last leaf ready1 (same1.same last leaf h) in
      let page = replaced leaf i value (inside leaf size i key value v found small1 small2) in
      let good = leaf_update_lem leaf size i key value v found small1 small2 in
      let (saved, ready2) = save_page_lem hash b last f page held good.valid.whole in
      let m1 = save_page hash b last page in
      let kept : (q : ℕ) (old : List ℕ)
          → last ≢ q
          → page_content hash m q ≡ ok old
          → page_content hash m1 q ≡ ok old =
        λ q old apart k. saved.others q old apart (same2.same q old (same1.same q old k)) in
      let (m2, got, same3, ready3) =
        get_value_lem hash m1 tree key n rounds last page (some value) more ready2
          (Descent-kept hash last leaf h v.leaf kept way) saved.now good.valid.leaf good.now in
      (
        m1,
        m2,
        update_value_runs rounds m a b tree key value last leaf page found_leaf opened
            (update_runs leaf size i key value v found small1 small2),
        record {
          page = page;
          replaces = good;
          saved = record { valid = saved.valid; now = saved.now; others = kept };
          ready = ready2;
        },
        got,
      )

-- ===== src/Storage/BPlusTree/Descent.antt =====
-- The way from the root to the leaf of a key (src/storage/index/b_plus_tree.rs).
use dip_v.Base.{
  ℕ, zero, suc, ◌<◌, ◌≡◌, ◌≢◌, refl, true, false, arith, List, Option, some, ok, sym, subst, ◌∙◌,
}
use dip_v.Base.Int.{ℤ}
use dip_v.Storage.Rid.{Rid}
use dip_v.Storage.Index.Header.{is_leaf_page}
use dip_v.Storage.Index.Internal
use dip_v.Storage.PoolManager.{BufferPoolManager}
use dip_v.Storage.PoolManager.Invariant.{page_content}
use dip_v.Storage.PoolManager.Calls.{Same, Same-trans, Ready, Held}
use dip_v.Storage.PageAccess.{open_page, must_open, close_page}
use dip_v.Storage.PageAccess.Laws.{open_page_lem, close_page_lem}
use dip_v.Storage.BPlusTree.{
  BPlusTree, leaf_value, get_value_from, get_value, find_leaf_from, find_leaf_page,
}

module _ (hash : ℕ → ℕ) where
  -- An internal page whose search for the key leads on.
  pub record Inner (m : BufferPoolManager) (key : ℤ) (p next : ℕ) : Type 0 where
    pub page : List ℕ
    pub there : page_content hash m p ≡ ok page
    pub inner : is_leaf_page page ≡ ok false
    pub leads : Internal.lookup page key ≡ ok next

  -- `n` internal pages lead from a page to the leaf of the key.
  pub data Descent (m : BufferPoolManager) (key : ℤ) (last : ℕ) : ℕ → ℕ → Type 0 where
    arrived : Descent m key last 0 last
    down :
        (n p next : ℕ)
        → Inner m key p next
        → Descent m key last n next
        → Descent m key last (suc n) p

  -- The way stays when all pages but the leaf keep their bytes.
  pub Descent-kept :
      {m m' : BufferPoolManager} {key : ℤ} (last : ℕ) {n p : ℕ} (leaf : List ℕ)
      → page_content hash m last ≡ ok leaf
      → is_leaf_page leaf ≡ ok true
      → ((q : ℕ) (bytes : List ℕ)
          → last ≢ q
          → page_content hash m q ≡ ok bytes
          → page_content hash m' q ≡ ok bytes)
      → Descent m key last n p
      → Descent m' key last n p
  Descent-kept last leaf there is_leaf keeps arrived = arrived
  Descent-kept {m} last leaf there is_leaf keeps (down n p next step rest) =
      let apart : last ≢ p = λ e.
        let same : page_content hash m p ≡ ok leaf =
          subst (λ (q : ℕ). page_content hash m q ≡ ok leaf) e there in
        let pages : ok step.page ≡ ok leaf = sym step.there ∙ same in
        let inner = step.inner in cc in
      down n p next
        (record {
          page = step.page;
          there = keeps p step.page apart step.there;
          inner = step.inner;
          leads = step.leads;
        })
        (Descent-kept last leaf there is_leaf keeps rest)

  pub Descent-Same :
      {m m' : BufferPoolManager} {key : ℤ} {last n p : ℕ}
      → Same hash m m'
      → Descent m key last n p
      → Descent m' key last n p
  Descent-Same same arrived = arrived
  Descent-Same same (down n p next step rest) =
      down n p next
        (record {
          page = step.page;
          there = same.same p step.page step.there;
          inner = step.inner;
          leads = step.leads;
        })
        (Descent-Same same rest)

  pub must_open_lem :
      (m : BufferPoolManager) (p : ℕ) (page : List ℕ)
      → Ready hash m
      → page_content hash m p ≡ ok page
      → (f : ℕ) × (m' : BufferPoolManager) × (must_open hash m p ≡ ok (page, m'))
        × Same hash m m'
        × Held hash m' p f
  unfolding must_open
  must_open_lem m p page ready h =
      let (f, m', runs, same, held, size) = open_page_lem hash m p page ready h in
      (f, m', rw runs refl, same, held)

  find_down :
      (rounds : ℕ) (m m1 : BufferPoolManager) (key : ℤ) (p next : ℕ) (page : List ℕ)
      → must_open hash m p ≡ ok (page, m1)
      → is_leaf_page page ≡ ok false
      → Internal.lookup page key ≡ ok next
      → find_leaf_from hash (suc rounds) m p key
        ≡ find_leaf_from hash rounds (close_page hash m1 p) next key
  unfolding find_leaf_from
  find_down rounds m m1 key p next page opened inner leads = rw (opened, inner, leads) refl

  find_arrived :
      (rounds : ℕ) (m m1 : BufferPoolManager) (key : ℤ) (p : ℕ) (page : List ℕ)
      → must_open hash m p ≡ ok (page, m1)
      → is_leaf_page page ≡ ok true
      → find_leaf_from hash (suc rounds) m p key ≡ ok (p, close_page hash m1 p)
  unfolding find_leaf_from
  find_arrived rounds m m1 key p page opened leaf = rw (opened, leaf) refl

  get_down :
      (rounds : ℕ) (m m1 : BufferPoolManager) (key : ℤ) (p next : ℕ) (page : List ℕ)
      → open_page hash m p ≡ ok (some page, m1)
      → is_leaf_page page ≡ ok false
      → Internal.lookup page key ≡ ok next
      → get_value_from hash (suc rounds) m p key
        ≡ get_value_from hash rounds (close_page hash m1 p) next key
  unfolding get_value_from
  get_down rounds m m1 key p next page opened inner leads = rw (opened, inner, leads) refl

  get_arrived :
      (rounds : ℕ) (m m1 : BufferPoolManager) (key : ℤ) (p : ℕ) (page : List ℕ) (value : Option Rid)
      → open_page hash m p ≡ ok (some page, m1)
      → is_leaf_page page ≡ ok true
      → leaf_value page key ≡ ok value
      → get_value_from hash (suc rounds) m p key ≡ ok (value, close_page hash m1 p)
  unfolding get_value_from
  get_arrived rounds m m1 key p page value opened leaf found = rw (opened, leaf, found) refl

  find_leaf_from_lem :
      (m : BufferPoolManager) (key : ℤ) (n rounds p last : ℕ) (leaf : List ℕ)
      → n < rounds
      → Ready hash m
      → Descent m key last n p
      → page_content hash m last ≡ ok leaf
      → is_leaf_page leaf ≡ ok true
      → (m' : BufferPoolManager) × (find_leaf_from hash rounds m p key ≡ ok (last, m'))
        × Same hash m m'
        × Ready hash m'
  find_leaf_from_lem m key n zero p last leaf more ready way h is_leaf = absurd (omega arith)
  find_leaf_from_lem m key n (suc r) p last leaf more ready arrived h is_leaf =
      let (f, m1, opened, same, held) = must_open_lem m last leaf ready h in
      let (kept, ready') = close_page_lem hash m1 last f held in
      (
        close_page hash m1 last,
        find_arrived r m m1 key last leaf opened is_leaf,
        Same-trans hash m m1 (close_page hash m1 last) same kept,
        ready',
      )
  find_leaf_from_lem m key n (suc r) p last leaf more ready (down n0 q next step rest) h is_leaf =
      let (f, m1, opened, same, held) = must_open_lem m p step.page ready step.there in
      let (kept, ready') = close_page_lem hash m1 p f held in
      let m2 = close_page hash m1 p in
      let same2 : Same hash m m2 = Same-trans hash m m1 m2 same kept in
      let (m', runs, same3, ready3) =
        find_leaf_from_lem m2 key n0 r next last leaf (omega arith) ready' (Descent-Same same2 rest)
          (same2.same last leaf h) is_leaf in
      (
        m',
        find_down r m m1 key p next step.page opened step.inner step.leads ∙ runs,
        Same-trans hash m m2 m' same2 same3,
        ready3,
      )

  get_value_from_lem :
      (m : BufferPoolManager) (key : ℤ) (n rounds p last : ℕ) (leaf : List ℕ) (value : Option Rid)
      → n < rounds
      → Ready hash m
      → Descent m key last n p
      → page_content hash m last ≡ ok leaf
      → is_leaf_page leaf ≡ ok true
      → leaf_value leaf key ≡ ok value
      → (m' : BufferPoolManager) × (get_value_from hash rounds m p key ≡ ok (value, m'))
        × Same hash m m'
        × Ready hash m'
  get_value_from_lem m key n zero p last leaf value more ready way h is_leaf found =
      absurd (omega arith)
  get_value_from_lem m key n (suc r) p last leaf value more ready arrived h is_leaf found =
      let (f, m1, opened, same, held, size) = open_page_lem hash m last leaf ready h in
      let (kept, ready') = close_page_lem hash m1 last f held in
      (
        close_page hash m1 last,
        get_arrived r m m1 key last leaf value opened is_leaf found,
        Same-trans hash m m1 (close_page hash m1 last) same kept,
        ready',
      )
  get_value_from_lem m key n (suc r) p last leaf value more ready (down n0 q next step rest) h
        is_leaf found =
      let (f, m1, opened, same, held, size) = open_page_lem hash m p step.page ready step.there in
      let (kept, ready') = close_page_lem hash m1 p f held in
      let m2 = close_page hash m1 p in
      let same2 : Same hash m m2 = Same-trans hash m m1 m2 same kept in
      let (m', runs, same3, ready3) =
        get_value_from_lem m2 key n0 r next last leaf value (omega arith) ready'
          (Descent-Same same2 rest) (same2.same last leaf h) is_leaf found in
      (
        m',
        get_down r m m1 key p next step.page opened step.inner step.leads ∙ runs,
        Same-trans hash m m2 m' same2 same3,
        ready3,
      )

  -- If the pool is ready and `n` internal pages lead from the root to a leaf for the key, then
  -- `find_leaf_page` with more than `n` rounds returns that leaf, without a panic, no page changes
  -- and the pool stays ready.
  pub find_leaf_page_lem :
      (m : BufferPoolManager) (tree : BPlusTree) (key : ℤ) (n rounds last : ℕ) (leaf : List ℕ)
      → n < rounds
      → Ready hash m
      → Descent m key last n tree.root_page_id
      → page_content hash m last ≡ ok leaf
      → is_leaf_page leaf ≡ ok true
      → (m' : BufferPoolManager) × (find_leaf_page hash rounds m tree key ≡ ok (last, m'))
        × Same hash m m'
        × Ready hash m'
  unfolding find_leaf_page
  find_leaf_page_lem m tree key n rounds last leaf more ready way h is_leaf =
      find_leaf_from_lem m key n rounds tree.root_page_id last leaf more ready way h is_leaf

  -- If the pool is ready and `n` internal pages lead from the root to a leaf for the key, then
  -- `get_value` with more than `n` rounds returns what the search of that leaf returns, no page
  -- changes and the pool stays ready.
  pub get_value_lem :
      (m : BufferPoolManager) (tree : BPlusTree) (key : ℤ) (n rounds last : ℕ) (leaf : List ℕ)
      (value : Option Rid)
      → n < rounds
      → Ready hash m
      → Descent m key last n tree.root_page_id
      → page_content hash m last ≡ ok leaf
      → is_leaf_page leaf ≡ ok true
      → leaf_value leaf key ≡ ok value
      → (m' : BufferPoolManager) × (get_value hash rounds m tree key ≡ ok (value, m'))
        × Same hash m m'
        × Ready hash m'
  unfolding get_value
  get_value_lem m tree key n rounds last leaf value more ready way h is_leaf found =
      get_value_from_lem m key n rounds tree.root_page_id last leaf value more ready way h is_leaf
        found

-- ===== src/Storage/BPlusTree/Insert.antt =====
-- The B+ tree: insertion and the splits of full pages (src/storage/index/b_plus_tree.rs).
use dip_v.Base.{
  ℕ, zero, suc, ◌+◌, ◌/◌, Bool, true, false, List, [], ◌∷◌, ◌++◌, length, take, drop, ltb, ◌==◌,
  if◌then◌else◌, none, some, Result, ok, fail, panic, ◌>>=◌,
}
use dip_v.Base.Int.{ℤ, pos, leb_ℤ}
use dip_v.Base.Bytes.{index}
use dip_v.Storage.Page
use dip_v.Storage.Rid.{Rid}
use dip_v.Storage.Index.Header.{
  get_size, set_size, get_max_size, get_parent_page_id, set_parent_page_id,
}
use dip_v.Storage.Index.Leaf
use dip_v.Storage.Index.Internal
use dip_v.Storage.PoolManager.{BufferPoolManager, fetch_page, new_page, write_to_page, unpin_page}
use dip_v.Storage.PageAccess.{open_page, must_open, save_page, close_page}
use dip_v.Storage.BPlusTree.{BPlusTree, internal_max_size, find_key, find_leaf_page}

-- The loop that reads the entries of a leaf: rounds left and the index.
unfoldable pub leaf_entries : List ℕ → ℕ → ℕ → Result (List (ℤ × Rid))
unfolding Leaf.key_at Leaf.value_at
leaf_entries page zero i = ok []
leaf_entries page (suc rounds) i = do
  key ← Leaf.key_at page i
  val ← Leaf.value_at page i
  rest ← leaf_entries page rounds (i + 1)
  ok ((key, val) ∷ rest)

-- `sort_by_key(|k| k.0)`, which keeps the order of equal keys
unfoldable pub put_in_order : ℤ × Rid → List (ℤ × Rid) → List (ℤ × Rid)
put_in_order e [] = e ∷ []
put_in_order e (f ∷ rest) = if leb_ℤ e.0 f.0 then e ∷ (f ∷ rest) else f ∷ put_in_order e rest

unfoldable pub sort_by_key : List (ℤ × Rid) → List (ℤ × Rid)
unfolding put_in_order
sort_by_key [] = []
sort_by_key (e ∷ rest) = put_in_order e (sort_by_key rest)

-- The loops that insert entries into a leaf one by one.
unfoldable pub insert_all : List ℕ → List (ℤ × Rid) → Result (List ℕ)
unfolding Leaf.insert
insert_all page [] = ok page
insert_all page ((key, val) ∷ rest) = do
  (_, page') ← Leaf.insert page key val
  insert_all page' rest

-- "Split Leaf" of `insert` on the bytes of the pages: the old leaf, the new one and the middle key.
unfoldable pub split_leaf : List ℕ → ℕ → ℕ → ℕ → ℤ → Rid → Result (List ℕ × List ℕ × ℤ)
unfolding leaf_entries sort_by_key insert_all Leaf.init Leaf.get_next_page_id Leaf.set_next_page_id
split_leaf page new_page_id size max_size key value = do
  parent_id ← get_parent_page_id page
  new_page' ← Leaf.init Page.new.bytes new_page_id parent_id max_size
  old ← leaf_entries page size 0
  let entries = sort_by_key (old ++ ((key, value) ∷ []))
  let split_idx = length entries / 2
  page1 ← set_size page 0
  page2 ← insert_all page1 (take split_idx entries)
  old_next ← Leaf.get_next_page_id page2
  page3 ← Leaf.set_next_page_id page2 new_page_id
  new1 ← Leaf.set_next_page_id new_page' old_next
  new2 ← insert_all new1 (drop split_idx entries)
  middle_key ← Leaf.key_at new2 0
  ok (page3, new2, middle_key)

-- The loop that reads the entries of an internal page: rounds left and the index.
unfoldable pub internal_entries : List ℕ → ℕ → ℕ → Result (List (ℤ × ℕ))
unfolding Internal.key_at Internal.value_at
internal_entries page zero i = ok []
internal_entries page (suc rounds) i = do
  key ← Internal.key_at page i
  val ← Internal.value_at page i
  rest ← internal_entries page rounds (i + 1)
  ok ((key, val) ∷ rest)

-- "Find insertion point": the index after the first entry of the child, or the end.
unfoldable pub position_after : ℕ → List (ℤ × ℕ) → ℕ
position_after left_child [] = 0
position_after left_child ((_, val) ∷ rest) =
    if val == left_child then 1 else suc (position_after left_child rest)

-- The loop of "Rewrite Old": the entries go into the page from an index on.
unfoldable pub write_entries : List ℕ → ℕ → List (ℤ × ℕ) → Result (List ℕ)
unfolding Internal.set_key_at Internal.set_value_at
write_entries page i [] = ok page
write_entries page i ((key, val) ∷ rest) = do
  d1 ← Internal.set_key_at page i key
  d2 ← Internal.set_value_at d1 i val
  write_entries d2 (i + 1) rest

-- "Rewrite Old" of `insert_into_parent`
unfoldable pub rewrite_old : List ℕ → List (ℤ × ℕ) → Result (List ℕ)
unfolding write_entries
rewrite_old page entries = do
  d1 ← set_size page 0
  d2 ← write_entries d1 0 entries
  set_size d2 (length entries)

-- `hash` is the standard library's hasher.
module _ (hash : ℕ → ℕ) where
  -- `new_page().unwrap()`
  unfoldable pub must_new : BufferPoolManager → Result (ℕ × BufferPoolManager)
  unfolding new_page
  must_new m = do
    (allocated, m1) ← new_page hash m
    elim allocated [ none ↦ panic | some page_id ↦ ok (page_id, m1) ]

  -- "Update children parents": one child of a new root.
  unfoldable pub set_parent : BufferPoolManager → ℕ → ℕ → Result BufferPoolManager
  unfolding must_open save_page set_parent_page_id
  set_parent m child parent_id = do
    (page, m1) ← must_open hash m child
    page' ← set_parent_page_id page parent_id
    ok (save_page hash m1 child page')

  -- "Update children parent pointers": a child that cannot be fetched is left as it is.
  unfoldable pub adopt : BufferPoolManager → ℕ → ℕ → Result BufferPoolManager
  unfolding open_page save_page set_parent_page_id
  adopt m child parent_id = do
    (opened, m1) ← open_page hash m child
    elim opened [
      | none ↦ ok m1
      | some page ↦ do page' ← set_parent_page_id page parent_id; ok (save_page hash m1 child page')
    ]

  -- "New Root": `new_page` and `fetch_page` both pin the root; one pin is dropped.
  unfoldable pub new_root : BufferPoolManager → ℕ → ℤ → ℕ → Result (BPlusTree × BufferPoolManager)
  unfolding must_new must_open set_parent Internal.init Internal.set_value_at Internal.set_key_at
  new_root m left_child key right_child = do
    (new_root_id, m1) ← must_new m
    (frame, m2) ← fetch_page hash m1 new_root_id
    elim frame [
      | none ↦ panic
      | some f ↦ do
        d0 ← Internal.init Page.new.bytes new_root_id 0 internal_max_size
        d1 ← Internal.set_value_at d0 0 left_child
        d2 ← Internal.set_key_at d1 1 key
        d3 ← Internal.set_value_at d2 1 right_child
        d4 ← set_size d3 2
        let m3 = write_to_page hash m2 new_root_id d4
        m4 ← set_parent m3 left_child new_root_id
        m5 ← set_parent m4 right_child new_root_id
        let (_, m6) = unpin_page hash m5 new_root_id true
        ok (record { root_page_id = new_root_id }, m6)
    ]

  -- The loop that moves the entries after the middle one to the new page, with their children.
  unfoldable pub move_entries :
      BufferPoolManager → List ℕ → ℕ → ℕ → List (ℤ × ℕ) → Result (List ℕ × ℕ × BufferPoolManager)
  unfolding adopt Internal.set_key_at Internal.set_value_at
  move_entries m new_page' new_page_id new_idx [] = ok (new_page', new_idx, m)
  move_entries m new_page' new_page_id new_idx ((key, child) ∷ rest) = do
    d1 ← Internal.set_key_at new_page' new_idx key
    d2 ← Internal.set_value_at d1 new_idx child
    m1 ← adopt m child new_page_id
    move_entries m1 d2 new_page_id (new_idx + 1) rest

  -- "Split Internal" but for the recursive call: the key that goes up, the new page and the parent's
  -- parent.
  unfoldable pub split_internal :
      BufferPoolManager → ℕ → List ℕ → ℕ → ℤ → ℕ → Result (ℤ × ℕ × ℕ × BufferPoolManager)
  unfolding must_new internal_entries rewrite_old move_entries Internal.init
  split_internal m parent_id page left_child key right_child = do
    size ← get_size page
    grandparent_id ← get_parent_page_id page
    old ← internal_entries page size 0
    let insert_idx = position_after left_child old
    let entries = take insert_idx old ++ ((key, right_child) ∷ drop insert_idx old)
    let split_idx = length entries / 2
    (up_key, up_child) ← index entries split_idx
    (new_page_id, m1) ← must_new m
    n0 ← Internal.init Page.new.bytes new_page_id grandparent_id internal_max_size
    page' ← rewrite_old page (take split_idx entries)
    n1 ← Internal.set_value_at n0 0 up_child
    n2 ← Internal.set_key_at n1 0 (pos 0)
    (n3, new_idx, m2) ← move_entries m1 n2 new_page_id 1 (drop (split_idx + 1) entries)
    n4 ← set_size n3 new_idx
    let m3 = write_to_page hash m2 parent_id page'
    let m4 = write_to_page hash m3 new_page_id n4
    let (_, m5) = unpin_page hash m4 parent_id true
    let (_, m6) = unpin_page hash m5 new_page_id true
    ok (up_key, new_page_id, grandparent_id, m6)

  -- `BPlusTree::insert_into_parent`, on rounds
  unfoldable pub insert_into_parent :
      ℕ → BufferPoolManager → BPlusTree → ℕ → ℤ → ℕ → ℕ → Result (BPlusTree × BufferPoolManager)
  unfolding new_root must_open save_page split_internal Internal.insert_node_after
  insert_into_parent zero m tree left_child key right_child parent_id = fail
  insert_into_parent (suc rounds) m tree left_child key right_child parent_id =
      elim (parent_id == 0) [
        | true ↦ new_root m left_child key right_child
        | false ↦ do
          (page, m1) ← must_open hash m parent_id
          size ← get_size page
          max_size ← get_max_size page
          elim (ltb size max_size) [
            | true ↦ do
              page' ← Internal.insert_node_after page left_child key right_child
              ok (tree, save_page hash m1 parent_id page')
            | false ↦ do
              (up_key, new_page_id, grandparent_id, m2) ←
                  split_internal m1 parent_id page left_child key right_child
              insert_into_parent rounds m2 tree parent_id up_key new_page_id grandparent_id
          ]
      ]

  -- The branch of `insert` for a full leaf.
  unfoldable pub insert_splitting :
      ℕ
      → BufferPoolManager
      → BPlusTree
      → ℕ
      → List ℕ
      → ℕ
      → ℕ
      → ℤ
      → Rid
      → Result (Bool × BPlusTree × BufferPoolManager)
  unfolding must_new split_leaf insert_into_parent
  insert_splitting rounds m tree leaf_page_id page size max_size key value = do
    (new_page_id, m1) ← must_new m
    parent_id ← get_parent_page_id page
    (page', new_leaf, middle_key) ← split_leaf page new_page_id size max_size key value
    let m2 = write_to_page hash m1 leaf_page_id page'
    let m3 = write_to_page hash m2 new_page_id new_leaf
    let (_, m4) = unpin_page hash m3 leaf_page_id true
    let (_, m5) = unpin_page hash m4 new_page_id true
    (tree', m6) ← insert_into_parent rounds m5 tree leaf_page_id middle_key new_page_id parent_id
    ok (true, tree', m6)

  -- `BPlusTree::insert`; the rounds bound the descent and the splits.
  unfoldable pub insert :
      ℕ → BufferPoolManager → BPlusTree → ℤ → Rid → Result (Bool × BPlusTree × BufferPoolManager)
  unfolding find_leaf_page must_open find_key save_page close_page Leaf.insert insert_splitting
  insert rounds m tree key value = do
    (leaf_page_id, m1) ← find_leaf_page hash rounds m tree key
    (page, m2) ← must_open hash m1 leaf_page_id
    size ← get_size page
    found ← find_key page key size 0
    elim found [
      | some i ↦ ok (false, tree, close_page hash m2 leaf_page_id)
      | none ↦ do
        max_size ← get_max_size page
        elim (ltb size max_size) [
          | true ↦ do
            (_, page') ← Leaf.insert page key value
            ok (true, tree, save_page hash m2 leaf_page_id page')
          | false ↦ insert_splitting rounds m2 tree leaf_page_id page size max_size key value
        ]
    ]

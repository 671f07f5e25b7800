-- ===== src/Storage/BPlusTree/Tests.antt =====
-- A tree of one leaf to try (src/storage/index/b_plus_tree.rs).
use dip_v.Base.{
  ◌==◌, ◌<◌, ◌≢◌, false, Bool-cases, inl, inr, subst, if◌then◌else◌, ℕ, ◌+◌, ◌≤◌, ◌≡◌, refl, true,
  List, [], ◌∷◌, ◌++◌, length, length-append, arith, Option, some, ok, sym, take, drop,
}
use dip_v.Base.Int.{ℤ, ltb_ℤ, pos, of_bits, leb_ℤ}
use dip_v.Base.Bytes.{slice, u32_from_le_bytes}
use dip_v.Base.Splice.{slice-append}
use dip_v.Storage.Disk.{DiskManager, zeros}
use dip_v.Storage.Disk.Laws.{length-zeros}
use dip_v.Storage.Rid
use dip_v.Storage.Rid.{Rid}
use dip_v.Storage.Index.Header.{get_max_size, word_at, get_size, get_page_type, is_leaf_page}
use dip_v.Storage.Index.Leaf
use dip_v.Storage.PoolManager.{BufferPoolManager, new}
use dip_v.Storage.PoolManager.Invariant.{page_content}
use dip_v.Storage.PoolManager.Calls.{Same, Ready}
use dip_v.Storage.PoolManager.Start.{new-Ready}
use dip_v.Storage.TableHeap.Tests.{hash, on_disk, at_start}
use dip_v.Storage.Index.Entry.{IsEntry, EntryAt}
use dip_v.Storage.Index.Insert.{HasEntries, IsSorted, IsPosition, put_in, insert_lem}
use dip_v.Storage.BPlusTree.Insert.{insert}
use dip_v.Storage.BPlusTree.Grow.{Grown, get_value-insert, insert_duplicate}
use dip_v.Storage.BPlusTree.{from_root_page_id, key_eq, find_key, update_value, get_value}
use dip_v.Storage.BPlusTree.Descent.{arrived}
use dip_v.Storage.BPlusTree.Find.{Guide, at_leaf, through, Answers, get_value_ordered}
use dip_v.Storage.Index.Internal
use dip_v.Storage.Index.Search.{HasKeys}
use dip_v.Storage.BPlusTree.Update.{IsLeaf}
use dip_v.Storage.BPlusTree.Replace.{Updated, get_value-update_value}

-- The header of a leaf of two entries, and these: 5 with (1, 0) and 9 with (1, 3).
abbrev words : List ℕ
words =
    0 ∷ 0 ∷ 0 ∷ 0 ∷ 2 ∷ 0 ∷ 0 ∷ 0 ∷ 82 ∷ 1 ∷ 0 ∷ 0 ∷ 0 ∷ 0 ∷ 0 ∷ 0 ∷ 0 ∷ 0 ∷ 0 ∷ 0 ∷ 0 ∷ 0 ∷ 0 ∷ 0
    ∷ 5 ∷ 0 ∷ 0 ∷ 0 ∷ 1 ∷ 0 ∷ 0 ∷ 0 ∷ 0 ∷ 0 ∷ 0 ∷ 0 ∷ 9 ∷ 0 ∷ 0 ∷ 0 ∷ 1 ∷ 0 ∷ 0 ∷ 0 ∷ 3 ∷ 0 ∷ 0 ∷ 0
    ∷ []

abbrev leaf : List ℕ
leaf = words ++ zeros 4048

leaf-length : length leaf ≡ 4096
leaf-length = omega (arith, length-append words (zeros 4048), length-zeros 4048)

-- A word of the front part.
front : (at : ℕ) → at + 4 ≤ 48 → word_at leaf at ≡ word_at words at
unfolding word_at
front at h = rw (slice-append words (zeros 4048) at (at + 4) h) refl

leaf-IsLeaf : IsLeaf leaf 2
unfolding is_leaf_page get_page_type get_size
leaf-IsLeaf = record {
  whole = leaf-length;
  leaf = rw (front 0 (omega arith)) (unfold word_at slice take drop u32_from_le_bytes in refl);
  sized = rw (front 4 (omega arith)) (unfold word_at slice take drop u32_from_le_bytes in refl);
  fits = omega arith;
}

key_0 : Leaf.key_at leaf 0 ≡ ok (pos 5)
unfolding Leaf.key_at
key_0 =
    rw (front 24 (omega arith)) (unfold word_at slice take drop u32_from_le_bytes of_bits in refl)

key_1 : Leaf.key_at leaf 1 ≡ ok (pos 9)
unfolding Leaf.key_at
key_1 =
    rw (front 36 (omega arith)) (unfold word_at slice take drop u32_from_le_bytes of_bits in refl)

value_1 : Leaf.value_at leaf 1 ≡ ok (Rid.new 1 3)
unfolding Leaf.value_at
value_1 =
    rw (front 40 (omega arith), front 44 (omega arith))
      (unfold word_at slice take drop u32_from_le_bytes in refl)

found_9 : find_key leaf (pos 9) 2 0 ≡ ok (some 1)
unfolding find_key key_eq leb_ℤ
found_9 = rw (key_0, key_1) refl

abbrev disk : DiskManager
disk = record { file = [] ++ (leaf ++ []); next_page_id = 1 }

abbrev pool : BufferPoolManager
pool = new 64 disk

there : page_content hash pool 0 ≡ ok leaf
there = at_start disk 0 leaf (on_disk [] leaf [] 0 1 refl leaf-length)

get_value-update_value_example :
    (m1 : BufferPoolManager) × (m2 : BufferPoolManager) × (update_value hash 1 pool
        (from_root_page_id 0)
        (pos 9)
        (Rid.new 2 7)
      ≡ ok (true, m1))
    × Updated hash pool 0 leaf 2 (pos 9) (Rid.new 2 7) m1
    × (get_value hash 1 m1 (from_root_page_id 0) (pos 9) ≡ ok (some (Rid.new 2 7), m2))
get_value-update_value_example =
    get_value-update_value hash pool (from_root_page_id 0) (pos 9) (Rid.new 2 7) 0 1 0 2 1 leaf
      (omega arith) (new-Ready hash 64 disk) arrived there leaf-IsLeaf found_9 (omega arith)
      (omega arith)

abbrev es : ℕ → ℤ × Rid
es j = if j == 0 then (pos 5, Rid.new 1 0) else (pos 9, Rid.new 1 3)

value_0 : Leaf.value_at leaf 0 ≡ ok (Rid.new 1 0)
unfolding Leaf.value_at
value_0 =
    rw (front 28 (omega arith), front 32 (omega arith))
      (unfold word_at slice take drop u32_from_le_bytes in refl)

leaf-HasEntries : HasEntries leaf 2 es
leaf-HasEntries = record {
  whole = leaf-length;
  leaf = leaf-IsLeaf.leaf;
  sized = leaf-IsLeaf.sized;
  entries = λ j less. elim (Bool-cases (j == 0)) [
    | inl e ↦
        let at : 0 ≡ j = ground arith in
        subst (λ (n : ℕ). EntryAt leaf n (es n) × IsEntry (es n)) at
          (
            record { key = key_0; value = value_0 },
            record {
              key = (omega arith, omega arith);
              page_id = omega arith;
              slot_num = omega arith;
            },
          )
    | inr e ↦
        let at : 1 ≡ j = ground arith in
        subst (λ (n : ℕ). EntryAt leaf n (es n) × IsEntry (es n)) at
          (
            record { key = key_1; value = value_1 },
            record {
              key = (omega arith, omega arith);
              page_id = omega arith;
              slot_num = omega arith;
            },
          )
  ];
}

es-IsSorted : IsSorted es 2
unfolding IsSorted ltb_ℤ
es-IsSorted j k less inside = ground arith

abbrev seven : ℤ × Rid
seven = (pos 7, Rid.new 4 2)

seven-IsEntry : IsEntry seven
seven-IsEntry = record {
  key = (omega arith, omega arith);
  page_id = omega arith;
  slot_num = omega arith;
}

seven-fresh : (j : ℕ) → j < 2 → (es j).0 ≢ pos 7
seven-fresh j less same = ground arith

insert_lem_example :
    (i : ℕ) × (page' : List ℕ) × (Leaf.insert leaf (pos 7) (Rid.new 4 2) ≡ ok (i, page'))
    × IsPosition es 2 (pos 7) i
    × HasEntries page' 3 (put_in es i seven)
    × IsSorted (put_in es i seven) 3
insert_lem_example =
    insert_lem leaf 2 es seven leaf-HasEntries es-IsSorted seven-IsEntry seven-fresh (omega arith)

max_338 : get_max_size leaf ≡ ok 338
unfolding get_max_size
max_338 = rw (front 8 (omega arith)) (unfold word_at slice take drop u32_from_le_bytes in refl)

get_value-insert_example :
    (m1 : BufferPoolManager) × (m2 : BufferPoolManager) × (insert hash 1 pool
        (from_root_page_id 0)
        (pos 7)
        (Rid.new 4 2)
      ≡ ok (true, from_root_page_id 0, m1))
    × Grown hash pool 0 2 es seven m1
    × (get_value hash 1 m1 (from_root_page_id 0) (pos 7) ≡ ok (some (Rid.new 4 2), m2))
get_value-insert_example =
    get_value-insert hash pool (from_root_page_id 0) seven 0 1 0 2 338 leaf es (omega arith)
      (new-Ready hash 64 disk) arrived there leaf-HasEntries es-IsSorted seven-IsEntry seven-fresh
      max_338 (omega arith) (omega arith)

insert_duplicate_example :
    (m' : BufferPoolManager) × (insert hash 1 pool (from_root_page_id 0) (pos 9) (Rid.new 4 2)
      ≡ ok (false, from_root_page_id 0, m'))
    × Same hash pool m'
    × Ready hash m'
insert_duplicate_example =
    insert_duplicate hash pool (from_root_page_id 0) (Rid.new 4 2) 0 1 0 2 1 leaf es (omega arith)
      (new-Ready hash 64 disk) arrived there leaf-HasEntries es-IsSorted (omega arith)

-- A root of two children over the leaf: the page 2 for keys below 7, the page 1 for the others.
abbrev root_words : List ℕ
root_words =
    1 ∷ 0 ∷ 0 ∷ 0 ∷ 2 ∷ 0 ∷ 0 ∷ 0 ∷ 82 ∷ 1 ∷ 0 ∷ 0 ∷ 0 ∷ 0 ∷ 0 ∷ 0 ∷ 0 ∷ 0 ∷ 0 ∷ 0 ∷ 0 ∷ 0 ∷ 0 ∷ 0
    ∷ 0 ∷ 0 ∷ 0 ∷ 0 ∷ 2 ∷ 0 ∷ 0 ∷ 0 ∷ 7 ∷ 0 ∷ 0 ∷ 0 ∷ 1 ∷ 0 ∷ 0 ∷ 0 ∷ []

abbrev root : List ℕ
root = root_words ++ zeros 4056

root-length : length root ≡ 4096
root-length = omega (arith, length-append root_words (zeros 4056), length-zeros 4056)

root_front : (at : ℕ) → at + 4 ≤ 40 → word_at root at ≡ word_at root_words at
unfolding word_at
root_front at h = rw (slice-append root_words (zeros 4056) at (at + 4) h) refl

abbrev high : DiskManager
high = record { file = root ++ (leaf ++ []); next_page_id = 2 }

abbrev high_pool : BufferPoolManager
high_pool = new 64 high

root_there : page_content hash high_pool 0 ≡ ok root
root_there = at_start high 0 root (on_disk [] root (leaf ++ []) 0 2 refl root-length)

leaf_there : page_content hash high_pool 1 ≡ ok leaf
leaf_there = at_start high 1 leaf (on_disk root leaf [] 1 2 (sym root-length) leaf-length)

root_key : Internal.key_at root 1 ≡ ok (pos 7)
unfolding Internal.key_at
root_key =
    rw (root_front 32 (omega arith))
      (unfold word_at slice take drop u32_from_le_bytes of_bits in refl)

root-HasKeys : HasKeys root 2 (λ i. pos 7)
unfolding leb_ℤ
root-HasKeys = record {
  reads = λ i low high'.
      let at : 1 ≡ i = omega arith in
      subst (λ (n : ℕ). Internal.key_at root n ≡ ok (pos 7)) at root_key;
  sorted = λ i j low up high'. refl;
}

root-Guide : Guide hash high_pool (pos 9) 0 1
unfolding is_leaf_page get_page_type get_size Internal.value_at leb_ℤ
root-Guide = record {
  page = root;
  there = root_there;
  inner =
      rw (root_front 0 (omega arith)) (unfold word_at slice take drop u32_from_le_bytes in refl);
  size = 2;
  sized =
      rw (root_front 4 (omega arith)) (unfold word_at slice take drop u32_from_le_bytes in refl);
  some_child = omega arith;
  small = omega arith;
  keys = λ i. pos 7;
  ordered = root-HasKeys;
  child = 1;
  follows = record {
    inside = omega arith;
    left = λ i low up. refl;
    right = λ i low up. absurd (omega arith);
  };
  leads =
      rw (root_front 36 (omega arith)) (unfold word_at slice take drop u32_from_le_bytes in refl);
}

get_value_ordered_example :
    (value : Option Rid) × (m' : BufferPoolManager) × (get_value hash 2 high_pool
        (from_root_page_id 0)
        (pos 9)
      ≡ ok (value, m'))
    × Answers es 2 (pos 9) value
    × Same hash high_pool m'
    × Ready hash m'
get_value_ordered_example =
    get_value_ordered hash high_pool (from_root_page_id 0) (pos 9) 1 2 1 2 leaf es (omega arith)
      (new-Ready hash 64 high) (through 0 0 1 root-Guide at_leaf) leaf_there leaf-HasEntries
      es-IsSorted

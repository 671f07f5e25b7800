-- ===== src/Catalog/Manager.antt =====
-- The tables by name, and the metadata file (src/catalog/catalog_manager.rs).
-- The maps are lists whose order stands for the order in which Rust walks over them. The file is its
-- bytes, or `none` if there is no file; errors of the file system are left out. `fail` is `Err`.
pub mod Position
pub mod Entries
pub mod RoundTrip
use dip_v.Base.{
  ℕ, zero, suc, ◌+◌, ◌%◌, ◌^◌, Bool, true, false, List, [], ◌∷◌, ◌++◌, length, leb, ◌==◌,
  if◌then◌else◌, Option, none, some, Result, ok, fail, ◌>>=◌, ◌>>◌, guard,
}
use dip_v.Base.Bytes.{index, slice, slice_from, u32_to_le_bytes, u32_from_le_bytes}
use dip_v.Types.{TypeId, is_utf8}
use dip_v.Catalog.Column.{Column}
use dip_v.Catalog.Schema
use dip_v.Catalog.Schema.{Schema, bytes_eq, get_primary_key_index}
use dip_v.Catalog.Stats
use dip_v.Catalog.Stats.{PageStats}
use dip_v.Storage.PoolManager.{BufferPoolManager}
use dip_v.Storage.TableHeap
use dip_v.Storage.TableHeap.{TableHeap, from_first_page_id}
use dip_v.Storage.BPlusTree
use dip_v.Storage.BPlusTree.{BPlusTree, from_root_page_id}

pub record TableMetadata : Type 0 where
  pub name : List ℕ
  pub schema : Schema
  pub table : TableHeap
  pub page_stats : List (ℕ × PageStats)
  pub indexes : List (ℕ × BPlusTree)

pub record CatalogManager : Type 0 where
  pub tables : List (List ℕ × TableMetadata)

-- `CatalogManager::new`
abbrev pub new : CatalogManager
new = record { tables = [] }

-- `HashMap::get` and `HashMap::insert`, for numbers
unfoldable pub find {ℓ} : {A : Type ℓ} → ℕ → List (ℕ × A) → Option A
find key [] = none
find key ((k, a) ∷ rest) = if k == key then some a else find key rest

unfoldable pub put_at {ℓ} : {A : Type ℓ} → ℕ → A → List (ℕ × A) → List (ℕ × A)
put_at key new_value [] = (key, new_value) ∷ []
put_at key new_value ((k, old) ∷ others) =
    if k == key then (key, new_value) ∷ others else (k, old) ∷ put_at key new_value others

-- `HashMap::get` and `HashMap::insert`, for names
unfoldable pub find_named : List ℕ → List (List ℕ × TableMetadata) → Option TableMetadata
unfolding bytes_eq
find_named name [] = none
find_named name ((n, metadata) ∷ rest) =
    if bytes_eq n name then some metadata else find_named name rest

unfoldable pub put_named :
    List ℕ → TableMetadata → List (List ℕ × TableMetadata) → List (List ℕ × TableMetadata)
unfolding bytes_eq
put_named name metadata [] = (name, metadata) ∷ []
put_named name metadata ((n, old) ∷ others) =
    if bytes_eq n name then (name, metadata) ∷ others else (n, old) ∷ put_named name metadata others

-- `CatalogManager::get_table`
unfoldable pub get_table : CatalogManager → List ℕ → Option TableMetadata
unfolding find_named
get_table catalog name = find_named name catalog.tables

-- `hash` is the standard library's hasher.
module _ (hash : ℕ → ℕ) where
  -- The index on an integer primary key in `create_table`.
  unfoldable pub primary_index :
      BufferPoolManager → Schema → Result (List (ℕ × BPlusTree) × BufferPoolManager)
  unfolding get_primary_key_index BPlusTree.new index
  primary_index m schema = elim (get_primary_key_index schema) [
    | none ↦ ok ([], m)
    | some pk_idx ↦ do
      col ← index schema.columns pk_idx
      elim col.type_id [
        | TypeId.integer ↦ do (tree, m1) ← BPlusTree.new hash m; ok ((pk_idx, tree) ∷ [], m1)
        | TypeId.boolean ↦ ok ([], m)
        | TypeId.varchar ↦ ok ([], m)
      ]
  ]

  -- `CatalogManager::create_table`
  unfoldable pub create_table :
      CatalogManager
      → BufferPoolManager
      → List ℕ
      → Schema
      → Result (TableMetadata × CatalogManager × BufferPoolManager)
  unfolding TableHeap.new primary_index put_named
  create_table catalog m name schema = do
    (table, m1) ← TableHeap.new hash m
    (indexes, m2) ← primary_index m1 schema
    let metadata : TableMetadata = record {
      name = name;
      schema = schema;
      table = table;
      page_stats = [];
      indexes = indexes;
    }
    ok (metadata, record { tables = put_named name metadata catalog.tables }, m2)

-- `(.. as u32).to_le_bytes()`
abbrev pub word_bytes : ℕ → List ℕ
word_bytes n = u32_to_le_bytes (n % 2 ^ 32)

-- The loops of `save_metadata` over the indexes and the zone maps of a table.
unfoldable pub indexes_to_bytes : List (ℕ × BPlusTree) → List ℕ
indexes_to_bytes [] = []
indexes_to_bytes ((col_idx, tree) ∷ rest) =
    word_bytes col_idx ++ (word_bytes tree.root_page_id ++ indexes_to_bytes rest)

unfoldable pub page_stats_to_bytes : List (ℕ × PageStats) → List ℕ
page_stats_to_bytes [] = []
page_stats_to_bytes ((pid, p_stats) ∷ rest) =
    word_bytes pid ++ (Stats.to_bytes p_stats ++ page_stats_to_bytes rest)

-- One table of `save_metadata`.
unfoldable pub table_to_bytes : List ℕ → TableMetadata → List ℕ
unfolding indexes_to_bytes page_stats_to_bytes
table_to_bytes name metadata =
    word_bytes (length name)
    ++ (name
        ++ (Schema.to_bytes metadata.schema
            ++ (word_bytes metadata.table.first_page_id
                ++ (word_bytes (length metadata.indexes)
                    ++ (indexes_to_bytes metadata.indexes
                        ++ (word_bytes (length metadata.page_stats)
                            ++ page_stats_to_bytes metadata.page_stats))))))

unfoldable pub tables_to_bytes : List (List ℕ × TableMetadata) → List ℕ
tables_to_bytes [] = []
tables_to_bytes ((name, metadata) ∷ rest) = table_to_bytes name metadata ++ tables_to_bytes rest

-- `b"DIPM"`
abbrev pub magic : List ℕ
magic = 68 ∷ 73 ∷ 80 ∷ 77 ∷ []

-- `CatalogManager::save_metadata`: the bytes of the file
unfoldable pub save_metadata : CatalogManager → List ℕ
unfolding tables_to_bytes
save_metadata catalog =
    magic ++ (word_bytes (length catalog.tables) ++ tables_to_bytes catalog.tables)

-- A number at an offset, behind the check that it lies inside the file; each reader returns the
-- offset after what it read.
unfoldable pub read_word : List ℕ → ℕ → Result (ℕ × ℕ)
read_word buffer offset = do
  guard (leb (offset + 4) (length buffer))
  four ← slice buffer offset (offset + 4)
  n ← u32_from_le_bytes four
  ok (n, offset + 4)

unfoldable pub read_name : List ℕ → ℕ → Result (List ℕ × ℕ)
read_name buffer offset = do
  (name_len, offset1) ← read_word buffer offset
  guard (leb (offset1 + name_len) (length buffer))
  name ← slice buffer offset1 (offset1 + name_len)
  guard (is_utf8 name)
  ok (name, offset1 + name_len)

unfoldable pub read_schema : List ℕ → ℕ → Result (Schema × ℕ)
read_schema buffer offset = do
  tail ← slice_from buffer offset
  (schema, len) ← Schema.from_bytes tail
  ok (schema, offset + len)

-- The loop over the indexes: rounds left, the offset and the map so far.
unfoldable pub read_indexes :
    ℕ → List ℕ → ℕ → List (ℕ × BPlusTree) → Result (List (ℕ × BPlusTree) × ℕ)
unfolding put_at
read_indexes zero buffer offset indexes = ok (indexes, offset)
read_indexes (suc rounds) buffer offset indexes = do
  guard (leb (offset + 8) (length buffer))
  four ← slice buffer offset (offset + 4)
  col_idx ← u32_from_le_bytes four
  next_four ← slice buffer (offset + 4) (offset + 4 + 4)
  index_root ← u32_from_le_bytes next_four
  read_indexes rounds buffer (offset + 4 + 4)
      (put_at col_idx (from_root_page_id index_root) indexes)

-- The loop over the zone maps: rounds left, the offset and the map so far.
unfoldable pub read_page_stats :
    ℕ → List ℕ → ℕ → List (ℕ × PageStats) → Result (List (ℕ × PageStats) × ℕ)
unfolding put_at
read_page_stats zero buffer offset stats = ok (stats, offset)
read_page_stats (suc rounds) buffer offset stats = do
  (pid, offset1) ← read_word buffer offset
  tail ← slice_from buffer offset1
  (p_stats, s_len) ← Stats.from_bytes tail
  read_page_stats rounds buffer (offset1 + s_len) (put_at pid p_stats stats)

-- One table of `load_metadata`.
unfoldable pub read_table : List ℕ → ℕ → Result (TableMetadata × ℕ)
unfolding read_name read_schema read_word read_indexes read_page_stats
read_table buffer offset = do
  (name, o1) ← read_name buffer offset
  (schema, o2) ← read_schema buffer o1
  (root_pid, o3) ← read_word buffer o2
  (num_indexes, o4) ← read_word buffer o3
  (indexes, o5) ← read_indexes num_indexes buffer o4 []
  (num_stats, o6) ← read_word buffer o5
  (page_stats, o7) ← read_page_stats num_stats buffer o6 []
  ok (
    record {
      name = name;
      schema = schema;
      table = from_first_page_id root_pid;
      page_stats = page_stats;
      indexes = indexes;
    },
    o7,
  )

-- The loop over the tables: rounds left, the offset and the map so far.
unfoldable pub read_tables :
    ℕ → List ℕ → ℕ → List (List ℕ × TableMetadata) → Result (List (List ℕ × TableMetadata))
unfolding read_table put_named
read_tables zero buffer offset tables = ok tables
read_tables (suc rounds) buffer offset tables = do
  (metadata, offset1) ← read_table buffer offset
  read_tables rounds buffer offset1 (put_named metadata.name metadata tables)

-- `CatalogManager::load_metadata`: the catalog after it; on `Err` the catalog stays as it was.
unfoldable pub load_metadata : CatalogManager → Option (List ℕ) → Result CatalogManager
unfolding read_word read_tables
load_metadata catalog none = ok catalog
load_metadata catalog (some buffer) = do
  guard (leb 4 (length buffer))
  first ← slice buffer 0 4
  guard (bytes_eq first magic)
  (num_tables, offset) ← read_word buffer 4
  tables ← read_tables num_tables buffer offset []
  ok (record { tables = tables })

-- ===== src/Catalog/Manager/RoundTrip.antt =====
-- The metadata file reads back (src/catalog/catalog_manager.rs).
use dip_v.Base.{
  ℕ, ◌+◌, ◌<◌, ◌≡◌, refl, ◌^◌, true, List, [], ◌∷◌, ◌++◌, length, length-append, leb, arith, some,
  ok, sym, ap, subst, ◌∙◌,
}
use dip_v.Base.Bytes.{slice}
use dip_v.Catalog.Schema
use dip_v.Catalog.Schema.{bytes_eq}
use dip_v.Catalog.Manager.{
  TableMetadata, CatalogManager, word_bytes, magic, indexes_to_bytes, page_stats_to_bytes,
  table_to_bytes, tables_to_bytes, save_metadata, put_named, read_table, read_tables, load_metadata,
}
use dip_v.Catalog.Manager.Position.{
  At, At-first, At-second, slice-At, inside-At, word_bytes_lem, read_word-At, read_name-At,
  read_schema-At,
}
use dip_v.Catalog.Manager.Entries.{
  IsTable, Tables, IsCatalog, read_indexes-At, read_page_stats-At, put_named-absent,
}
use mathlib.Core.List.{append_assoc, append-nil}

-- A name before its length is taken apart.
module _ (name : List ℕ) (t : TableMetadata) where
  abbrev from_stats : List ℕ
  from_stats = word_bytes (length t.page_stats) ++ page_stats_to_bytes t.page_stats

  abbrev from_indexes : List ℕ
  from_indexes = word_bytes (length t.indexes) ++ (indexes_to_bytes t.indexes ++ from_stats)

  abbrev from_root : List ℕ
  from_root = word_bytes t.table.first_page_id ++ from_indexes

  abbrev from_schema : List ℕ
  from_schema = Schema.to_bytes t.schema ++ from_root

  abbrev named : List ℕ
  named = word_bytes (length name) ++ name

table_split :
    (name : List ℕ) (t : TableMetadata) → table_to_bytes name t ≡ named name t ++ from_schema name t
unfolding table_to_bytes
table_split name t = sym (append_assoc (word_bytes (length name)) name (from_schema name t))

-- A number, and where it leaves what follows.
word-step :
    {buffer : List ℕ} {offset : ℕ} (n : ℕ) (rest : List ℕ)
    → n < 2 ^ 32
    → At buffer offset (word_bytes n ++ rest)
    → At buffer (offset + 4) rest
word-step n rest small a = rw ((word_bytes_lem n small).1) at (At-second (word_bytes n) rest a)

read_table-At :
    {buffer : List ℕ} (name : List ℕ) (t : TableMetadata) (offset : ℕ)
    → IsTable name t
    → At buffer offset (table_to_bytes name t)
    → read_table buffer offset ≡ ok (t, offset + length (table_to_bytes name t))
unfolding read_table
read_table-At {buffer} name t offset h whole =
    let head = named name t in
    let tail = from_schema name t in
    let a0 : At buffer offset (head ++ tail) =
      subst (λ (l : List ℕ). At buffer offset l) (table_split name t) whole in
    let four : length head ≡ 4 + length name = omega (
      arith,
      length-append (word_bytes (length name)) name,
      (word_bytes_lem (length name) h.short).1,
    ) in
    let o1 : ℕ = offset + 4 + length name in
    let here : offset + length head ≡ o1 = omega (arith, four) in
    let a1 : At buffer o1 tail =
      subst (λ (n : ℕ). At buffer n tail) here (At-second head tail a0) in
    let schema = Schema.to_bytes t.schema in
    let o2 : ℕ = o1 + length schema in
    let a2 : At buffer o2 (from_root name t) = At-second schema (from_root name t) a1 in
    let a3 : At buffer (o2 + 4) (from_indexes name t) =
      word-step t.table.first_page_id (from_indexes name t) h.root a2 in
    let ixs = indexes_to_bytes t.indexes in
    let a4 : At buffer (o2 + 4 + 4) (ixs ++ from_stats name t) =
      word-step (length t.indexes) (ixs ++ from_stats name t) h.few_indexes a3 in
    let o5 : ℕ = o2 + 4 + 4 + length ixs in
    let a5 : At buffer o5 (from_stats name t) = At-second ixs (from_stats name t) a4 in
    let stats = page_stats_to_bytes t.page_stats in
    let a6 : At buffer (o5 + 4) stats = word-step (length t.page_stats) stats h.few_stats a5 in
    let total : o5 + 4 + length stats ≡ offset + length (table_to_bytes name t) = omega (
      arith,
      ap length (table_split name t),
      length-append head tail,
      four,
      length-append schema (from_root name t),
      length-append (word_bytes t.table.first_page_id) (from_indexes name t),
      (word_bytes_lem t.table.first_page_id h.root).1,
      length-append (word_bytes (length t.indexes)) (ixs ++ from_stats name t),
      (word_bytes_lem (length t.indexes) h.few_indexes).1,
      length-append ixs (from_stats name t),
      length-append (word_bytes (length t.page_stats)) stats,
      (word_bytes_lem (length t.page_stats) h.few_stats).1,
    ) in
    rw
      (
        read_name-At name h.short h.text (At-first head tail a0),
        read_schema-At t.schema h.schema (At-first schema (from_root name t) a1),
        read_word-At t.table.first_page_id h.root
            (At-first (word_bytes t.table.first_page_id) (from_indexes name t) a2),
        read_word-At (length t.indexes) h.few_indexes
            (At-first (word_bytes (length t.indexes)) (ixs ++ from_stats name t) a3),
        read_indexes-At t.indexes (o2 + 4 + 4) [] h.indexes (At-first ixs (from_stats name t) a4),
        read_word-At (length t.page_stats) h.few_stats
            (At-first (word_bytes (length t.page_stats)) stats a5),
        read_page_stats-At t.page_stats (o5 + 4) [] h.page_stats a6,
        total,
        ← h.named,
      )
      refl

read_tables-At :
    {buffer : List ℕ} (m : List (List ℕ × TableMetadata)) (offset : ℕ)
    (seen : List (List ℕ × TableMetadata))
    → Tables seen m
    → At buffer offset (tables_to_bytes m)
    → read_tables (length m) buffer offset seen ≡ ok (seen ++ m)
unfolding read_tables tables_to_bytes
read_tables-At [] offset seen h a = rw append-nil refl
read_tables-At {buffer} ((name, t) ∷ m) offset seen h a =
    let body = table_to_bytes name t in
    let next : read_tables (length m) buffer (offset + length body) (seen ++ ((name, t) ∷ []))
        ≡ ok ((seen ++ ((name, t) ∷ [])) ++ m) =
      read_tables-At m (offset + length body) (seen ++ ((name, t) ∷ [])) h.2
        (At-second body (tables_to_bytes m) a) in
    let its = h.1 in
    let put : put_named t.name t seen ≡ seen ++ ((name, t) ∷ []) =
      ap (λ (k : List ℕ). put_named k t seen) its.named ∙ put_named-absent name t seen h.0 in
    rw
      (
        read_table-At name t offset its (At-first body (tables_to_bytes m) a),
        put,
        next,
        append_assoc,
      )
      refl

-- If the tables have distinct names and each stands under its own; their names and those of
-- their columns are UTF-8 text; no index or zone map of a table stands twice, and no column in a
-- zone map; each column of a zone map has a least and a greatest value of one type, each an i32,
-- a Boolean or UTF-8 text; and every count, length, column number and page id fits its 32-bit
-- word; then `load_metadata` of the bytes that `save_metadata` writes gives the catalog that was
-- saved, whatever the catalog before.
pub load-save_metadata :
    (before catalog : CatalogManager)
    → IsCatalog catalog
    → load_metadata before (some (save_metadata catalog)) ≡ ok catalog
unfolding load_metadata save_metadata bytes_eq
load-save_metadata before catalog h =
    let n : ℕ = length catalog.tables in
    let tables = tables_to_bytes catalog.tables in
    let buffer = magic ++ (word_bytes n ++ tables) in
    let a0 : At buffer 0 (magic ++ (word_bytes n ++ tables)) = record {
      pre = [];
      rest = [];
      split = sym (append-nil buffer);
      place = refl;
    } in
    let a1 : At buffer 4 (word_bytes n ++ tables) = At-second magic (word_bytes n ++ tables) a0 in
    let first = At-first magic (word_bytes n ++ tables) a0 in
    let below = inside-At magic first in
    let long : leb 4 (length buffer) ≡ true = ground (arith, below) in
    let cut : slice buffer 0 4 ≡ ok magic = slice-At magic first in
    rw
      (
        long,
        cut,
        read_word-At n h.few (At-first (word_bytes n) tables a1),
        read_tables-At catalog.tables 8 [] h.tables (word-step n tables h.few a1),
      )
      refl

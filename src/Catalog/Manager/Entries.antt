-- ===== src/Catalog/Manager/Entries.antt =====
-- The maps of the metadata file read back (src/catalog/catalog_manager.rs).
use dip_v.Base.{
  ℕ, ◌+◌, ◌<◌, ◌≡◌, refl, ◌^◌, true, List, [], ◌∷◌, ◌++◌, length, length-append, leb, arith, none,
  ok,
}
use dip_v.Base.Bytes.{slice, u32_to_le_bytes, u32_round_trip}
use dip_v.Types.{is_utf8}
use dip_v.Catalog.Schema.{IsSchema}
use dip_v.Catalog.Stats
use dip_v.Catalog.Stats.{PageStats}
use dip_v.Catalog.Stats.RoundTrip.{IsPageStats, stats_bytes_round_trip}
use dip_v.Storage.BPlusTree.{BPlusTree}
use dip_v.Catalog.Manager.{
  TableMetadata, CatalogManager, find, put_at, find_named, put_named, word_bytes, indexes_to_bytes,
  page_stats_to_bytes, read_indexes, read_page_stats,
}
use dip_v.Catalog.Manager.Position.{
  At, At-first, At-second, inside-At, slice_from-At, word_bytes_lem, word_slice, read_word-At,
}
use mathlib.Core.List.{append_assoc, append-nil}

-- A map whose keys are distinct and not in `seen`, and whose entries are good.
abbrev pub Fresh : {A : Type 0} → (ℕ → A → Type 0) → List (ℕ × A) → List (ℕ × A) → Type 0
Fresh IsGood seen [] = Unit
Fresh IsGood seen ((k, a) ∷ rest) =
    (find k seen ≡ none) × IsGood k a × Fresh IsGood (seen ++ ((k, a) ∷ [])) rest

put_at-absent :
    {A : Type 0} (k : ℕ) (a : A) (m : List (ℕ × A))
    → find k m ≡ none
    → put_at k a m ≡ m ++ ((k, a) ∷ [])
unfolding put_at find
put_at-absent k a [] h = refl
put_at-absent k a ((j, b) ∷ m) h = ground (arith, put_at-absent k a m)

pub put_named-absent :
    (name : List ℕ) (t : TableMetadata) (m : List (List ℕ × TableMetadata))
    → find_named name m ≡ none
    → put_named name t m ≡ m ++ ((name, t) ∷ [])
unfolding put_named find_named
put_named-absent name t [] h = refl
put_named-absent name t ((n, old) ∷ m) h = ground (arith, put_named-absent name t m)

-- Numbers that fit their words.
abbrev pub IsIndex : ℕ → BPlusTree → Type 0
IsIndex col_idx tree = (col_idx < 2 ^ 32) × (tree.root_page_id < 2 ^ 32)

abbrev pub IsZoneMap : ℕ → PageStats → Type 0
IsZoneMap pid p_stats = (pid < 2 ^ 32) × IsPageStats p_stats

pub record IsTable (name : List ℕ) (t : TableMetadata) : Type 0 where
  pub named : t.name ≡ name
  pub text : is_utf8 name ≡ true
  pub short : length name < 2 ^ 32
  pub schema : IsSchema t.schema
  pub root : t.table.first_page_id < 2 ^ 32
  pub few_indexes : length t.indexes < 2 ^ 32
  pub indexes : Fresh IsIndex [] t.indexes
  pub few_stats : length t.page_stats < 2 ^ 32
  pub page_stats : Fresh IsZoneMap [] t.page_stats

abbrev pub Tables : List (List ℕ × TableMetadata) → List (List ℕ × TableMetadata) → Type 0
Tables seen [] = Unit
Tables seen ((name, t) ∷ rest) =
    (find_named name seen ≡ none) × IsTable name t × Tables (seen ++ ((name, t) ∷ [])) rest

pub record IsCatalog (catalog : CatalogManager) : Type 0 where
  pub tables : Tables [] catalog.tables
  pub few : length catalog.tables < 2 ^ 32

pub read_indexes-At :
    {buffer : List ℕ} (m : List (ℕ × BPlusTree)) (offset : ℕ) (seen : List (ℕ × BPlusTree))
    → Fresh IsIndex seen m
    → At buffer offset (indexes_to_bytes m)
    → read_indexes (length m) buffer offset seen
      ≡ ok (seen ++ m, offset + length (indexes_to_bytes m))
unfolding read_indexes indexes_to_bytes
read_indexes-At [] offset seen h a =
    let e : offset + 0 ≡ offset = omega arith in rw (append-nil, e) refl
read_indexes-At {buffer} ((k, tree) ∷ m) offset seen h a =
    let small = h.1.0 in
    let small' = h.1.1 in
    let root : ℕ = tree.root_page_id in
    let after = word_bytes root ++ indexes_to_bytes m in
    let four = (word_bytes_lem k small).1 in
    let four' = (word_bytes_lem root small').1 in
    let second : At buffer (offset + 4) after = rw four at (At-second (word_bytes k) after a) in
    let third : At buffer (offset + 4 + 4) (indexes_to_bytes m) =
      rw four' at (At-second (word_bytes root) (indexes_to_bytes m) second) in
    let below =
      inside-At (word_bytes root) (At-first (word_bytes root) (indexes_to_bytes m) second) in
    let fits : leb (offset + 8) (length buffer) ≡ true = ground (arith, below, four') in
    let read : slice buffer offset (offset + 4) ≡ ok (u32_to_le_bytes k) =
      word_slice k small (At-first (word_bytes k) after a) in
    let read' : slice buffer (offset + 4) (offset + 4 + 4) ≡ ok (u32_to_le_bytes root) =
      word_slice root small' (At-first (word_bytes root) (indexes_to_bytes m) second) in
    let next : read_indexes (length m) buffer (offset + 4 + 4) (seen ++ ((k, tree) ∷ []))
        ≡ ok ((seen ++ ((k, tree) ∷ [])) ++ m, offset + 4 + 4 + length (indexes_to_bytes m)) =
      read_indexes-At m (offset + 4 + 4) (seen ++ ((k, tree) ∷ [])) h.2 third in
    let total : offset + 4 + 4 + length (indexes_to_bytes m)
        ≡ offset + length (word_bytes k ++ after) =
      omega (
        arith,
        length-append (word_bytes k) after,
        length-append (word_bytes root) (indexes_to_bytes m),
        four,
        four',
      ) in
    rw
      (
        fits,
        read,
        u32_round_trip k small,
        read',
        u32_round_trip root small',
        put_at-absent k tree seen h.0,
        next,
        append_assoc,
        total,
      )
      refl

pub read_page_stats-At :
    {buffer : List ℕ} (m : List (ℕ × PageStats)) (offset : ℕ) (seen : List (ℕ × PageStats))
    → Fresh IsZoneMap seen m
    → At buffer offset (page_stats_to_bytes m)
    → read_page_stats (length m) buffer offset seen
      ≡ ok (seen ++ m, offset + length (page_stats_to_bytes m))
unfolding read_page_stats page_stats_to_bytes
read_page_stats-At [] offset seen h a =
    let e : offset + 0 ≡ offset = omega arith in rw (append-nil, e) refl
read_page_stats-At {buffer} ((k, s) ∷ m) offset seen h a =
    let small = h.1.0 in
    let body = Stats.to_bytes s in
    let after = body ++ page_stats_to_bytes m in
    let four = (word_bytes_lem k small).1 in
    let first = At-first (word_bytes k) after a in
    let second : At buffer (offset + 4) after = rw four at (At-second (word_bytes k) after a) in
    let third = At-second body (page_stats_to_bytes m) second in
    let its = At-first body (page_stats_to_bytes m) second in
    let next : read_page_stats (length m) buffer (offset + 4 + length body) (seen ++ ((k, s) ∷ []))
        ≡ ok (
          (seen ++ ((k, s) ∷ [])) ++ m,
          offset + 4 + length body + length (page_stats_to_bytes m),
        ) =
      read_page_stats-At m (offset + 4 + length body) (seen ++ ((k, s) ∷ [])) h.2 third in
    let total : offset + 4 + length body + length (page_stats_to_bytes m)
        ≡ offset + length (word_bytes k ++ after) =
      omega (
        arith,
        length-append (word_bytes k) after,
        length-append body (page_stats_to_bytes m),
        four,
      ) in
    rw
      (
        read_word-At k small first,
        slice_from-At body its,
        stats_bytes_round_trip s its.rest h.1.1,
        put_at-absent k s seen h.0,
        next,
        append_assoc,
        total,
      )
      refl

-- ===== src/Catalog/Manager/Position.antt =====
-- Reading what stands at an offset of the metadata file (src/catalog/catalog_manager.rs).
use dip_v.Base.{
  ℕ, ◌+◌, ◌≤◌, ◌<◌, ◌≡◌, refl, ◌%◌, ◌^◌, true, List, ◌++◌, length, length-append, leb, arith, ok,
  sym, ap, ◌∙◌,
}
use dip_v.Base.Bytes.{
  slice, slice_mid, slice_from, slice_from_append, u32_to_le_bytes, u32_round_trip,
  length-u32_to_le_bytes,
}
use dip_v.Types.{is_utf8}
use dip_v.Catalog.Schema
use dip_v.Catalog.Schema.{Schema, IsSchema}
use dip_v.Catalog.Schema.RoundTrip.{schema_bytes_round_trip}
use dip_v.Catalog.Manager.{word_bytes, read_word, read_name, read_schema}
use mathlib.Core.List.{append_assoc}

-- `bytes` stand in the file at the offset.
pub record At (buffer : List ℕ) (offset : ℕ) (bytes : List ℕ) : Type 0 where
  pub pre : List ℕ
  pub rest : List ℕ
  pub split : buffer ≡ pre ++ (bytes ++ rest)
  pub place : offset ≡ length pre

pub At-first :
    {buffer : List ℕ} {offset : ℕ} (xs ys : List ℕ)
    → At buffer offset (xs ++ ys)
    → At buffer offset xs
At-first xs ys a = record {
  pre = a.pre;
  rest = ys ++ a.rest;
  split = a.split ∙ ap (λ (l : List ℕ). a.pre ++ l) (append_assoc xs ys a.rest);
  place = a.place;
}

pub At-second :
    {buffer : List ℕ} {offset : ℕ} (xs ys : List ℕ)
    → At buffer offset (xs ++ ys)
    → At buffer (offset + length xs) ys
At-second xs ys a = record {
  pre = a.pre ++ xs;
  rest = a.rest;
  split =
      a.split
      ∙ (ap (λ (l : List ℕ). a.pre ++ l) (append_assoc xs ys a.rest)
          ∙ sym (append_assoc a.pre xs (ys ++ a.rest)));
  place = omega (arith, a.place, length-append a.pre xs);
}

pub slice-At :
    {buffer : List ℕ} {offset : ℕ} (bytes : List ℕ)
    → At buffer offset bytes
    → slice buffer offset (offset + length bytes) ≡ ok bytes
slice-At {buffer} {offset} bytes a =
    rw a.split (slice_mid a.pre bytes a.rest offset (offset + length bytes) a.place (omega arith))

pub inside-At :
    {buffer : List ℕ} {offset : ℕ} (bytes : List ℕ)
    → At buffer offset bytes
    → offset + length bytes ≤ length buffer
inside-At bytes a =
    rw a.split
      (omega (arith, a.place, length-append a.pre (bytes ++ a.rest), length-append bytes a.rest))

-- What follows the offset begins with the bytes.
pub slice_from-At :
    {buffer : List ℕ} {offset : ℕ} (bytes : List ℕ) (a : At buffer offset bytes)
    → slice_from buffer offset ≡ ok (bytes ++ a.rest)
slice_from-At {buffer} {offset} bytes a =
    rw a.split (slice_from_append a.pre (bytes ++ a.rest) offset a.place)

pub word_bytes_lem :
    (n : ℕ) → n < 2 ^ 32 → (word_bytes n ≡ u32_to_le_bytes n) × (length (word_bytes n) ≡ 4)
word_bytes_lem n small =
    let whole : n % 2 ^ 32 ≡ n = omega arith in (rw whole refl, length-u32_to_le_bytes (n % 2 ^ 32))

pub word_slice :
    {buffer : List ℕ} {offset : ℕ} (n : ℕ)
    → n < 2 ^ 32
    → At buffer offset (word_bytes n)
    → slice buffer offset (offset + 4) ≡ ok (u32_to_le_bytes n)
word_slice {buffer} {offset} n small a =
    let (same, four) = word_bytes_lem n small in
    let cut = slice-At (word_bytes n) a in rw same at (rw four at cut)

pub read_word-At :
    {buffer : List ℕ} {offset : ℕ} (n : ℕ)
    → n < 2 ^ 32
    → At buffer offset (word_bytes n)
    → read_word buffer offset ≡ ok (n, offset + 4)
unfolding read_word
read_word-At {buffer} {offset} n small a =
    let (same, four) = word_bytes_lem n small in
    let below = inside-At (word_bytes n) a in
    let fits : leb (offset + 4) (length buffer) ≡ true = ground (arith, below, four) in
    rw (fits, word_slice n small a, u32_round_trip n small) refl

pub read_name-At :
    {buffer : List ℕ} {offset : ℕ} (name : List ℕ)
    → length name < 2 ^ 32
    → is_utf8 name ≡ true
    → At buffer offset (word_bytes (length name) ++ name)
    → read_name buffer offset ≡ ok (name, offset + 4 + length name)
unfolding read_name
read_name-At {buffer} {offset} name small text a =
    let (same, four) = word_bytes_lem (length name) small in
    let first = At-first (word_bytes (length name)) name a in
    let second : At buffer (offset + 4) name =
      rw four at (At-second (word_bytes (length name)) name a) in
    let below = inside-At name second in
    let fits : leb (offset + 4 + length name) (length buffer) ≡ true = ground (arith, below) in
    rw (read_word-At (length name) small first, fits, slice-At name second, text) refl

pub read_schema-At :
    {buffer : List ℕ} {offset : ℕ} (s : Schema)
    → IsSchema s
    → At buffer offset (Schema.to_bytes s)
    → read_schema buffer offset ≡ ok (s, offset + length (Schema.to_bytes s))
unfolding read_schema
read_schema-At s h a =
    rw (slice_from-At (Schema.to_bytes s) a, schema_bytes_round_trip s a.rest h) refl

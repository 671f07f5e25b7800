-- ===== src/Execution/Vectorized.antt =====
-- Batches of rows by column (src/execution/vectorized.rs).
use dip_v.Base.{
  ℕ, zero, suc, ◌+◌, ◌<◌, ◌≡◌, refl, List, [], ◌∷◌, ◌++◌, length, length-append, arith, All, Result,
  ok, panic, ◌>>=◌,
}
use dip_v.Base.Bytes.{index, index_append}
use dip_v.Types.{Value}
use dip_v.Catalog.Schema.{Schema, column_count}

pub record TupleBatch : Type 0 where
  pub columns : List (List Value)
  pub row_count : ℕ

unfoldable pub empty_columns : ℕ → List (List Value)
empty_columns zero = []
empty_columns (suc n) = [] ∷ empty_columns n

-- `TupleBatch::new`; the capacity is a hint to the allocator.
unfoldable pub new : Schema → ℕ → TupleBatch
unfolding empty_columns
new schema capacity = record { columns = empty_columns (column_count schema); row_count = 0 }

-- The loop of `push`: a value beyond the last column panics.
unfoldable pub push_values : List (List Value) → List Value → Result (List (List Value))
push_values cols [] = ok cols
push_values [] (v ∷ vs) = panic
push_values (col ∷ cols) (v ∷ vs) = do rest ← push_values cols vs; ok ((col ++ (v ∷ [])) ∷ rest)

-- `TupleBatch::push`
unfoldable pub push : TupleBatch → List Value → Result TupleBatch
unfolding push_values
push batch values = do
  columns ← push_values batch.columns values
  ok (record { columns = columns; row_count = batch.row_count + 1 })

-- The loop of `get_row`.
unfoldable pub row_of : List (List Value) → ℕ → Result (List Value)
row_of [] row_idx = ok []
row_of (col ∷ cols) row_idx = do v ← index col row_idx; row ← row_of cols row_idx; ok (v ∷ row)

-- `TupleBatch::get_row`
unfoldable pub get_row : TupleBatch → ℕ → Result (List Value)
unfolding row_of
get_row batch row_idx = row_of batch.columns row_idx

-- Every column has one value for each row.
unfoldable pub IsBatch : TupleBatch → Type 0
IsBatch batch = All (λ (col : List Value). length col ≡ batch.row_count) batch.columns

index_below :
    (xs : List Value) (y : Value) (i : ℕ) → i < length xs → index (xs ++ (y ∷ [])) i ≡ index xs i
unfolding index
index_below [] y i h = absurd (omega arith)
index_below (x ∷ xs) y zero h = refl
index_below (x ∷ xs) y (suc i) h = index_below xs y i (omega arith)

push_values_lem :
    (cols : List (List Value)) (vs : List Value) (n : ℕ)
    → All (λ (col : List Value). length col ≡ n) cols
    → length vs ≡ length cols
    → (cols' : List (List Value)) × (push_values cols vs ≡ ok cols')
      × (row_of cols' n ≡ ok vs)
      × ((i : ℕ) → i < n → row_of cols' i ≡ row_of cols i)
      × All (λ (col : List Value). length col ≡ n + 1) cols'
unfolding push_values row_of
push_values_lem [] [] n h e = ([], refl, refl, λ i p. refl, tt)
push_values_lem [] (v ∷ vs) n h e = absurd (omega arith)
push_values_lem (col ∷ cols) [] n h e = absurd (omega arith)
push_values_lem (col ∷ cols) (v ∷ vs) n (size, h) e =
    let (rest, runs, whole, before, sized) = push_values_lem cols vs n h (omega arith) in
    (
      (col ++ (v ∷ [])) ∷ rest,
      rw runs,
      rw (index_append col v [] n (omega arith), whole),
      λ i p.
          (let at = index_below col v i (omega arith) in let later = before i p in rw (at, later)),
      (omega (arith, size, length-append col (v ∷ [])), sized),
    )

-- A row with one value for each column of a well-formed batch is taken: it reads back at the next
-- index, every row before it reads as it did, and the batch stays well formed.
pub push_lem :
    (batch : TupleBatch) (values : List Value)
    → IsBatch batch
    → length values ≡ length batch.columns
    → (batch' : TupleBatch) × (push batch values ≡ ok batch')
      × (get_row batch' batch.row_count ≡ ok values)
      × ((i : ℕ) → i < batch.row_count → get_row batch' i ≡ get_row batch i)
      × IsBatch batch'
unfolding push get_row IsBatch
push_lem batch values h e =
    let (columns, runs, whole, before, sized) =
      push_values_lem batch.columns values batch.row_count h e in
    (record { columns = columns; row_count = batch.row_count + 1 }, rw runs, whole, before, sized)

-- ===== src/Base/Bytes.antt =====
-- Byte slices: Rust's bounds-checked indexing, and little-endian words.
use Prim.Native.Nat.{ℕ, zero, suc, ◌+◌, ◌-◌, ◌*◌, ◌/◌, ◌%◌, ◌^◌, ◌<◌}
use mathlib.Core.Path.{◌≡◌, refl, ap}
use mathlib.Core.Bool.{true, ◌&&◌}
use mathlib.Core.List.{List, [], ◌∷◌, ◌++◌}
use native.Mathlib.Omega.{arith}
use dip_v.Base.Tests.{leb}
use dip_v.Base.Lists.{length, take, drop, length-append, take-length_append, drop-length_append}
use dip_v.Base.Fallible.{Result, ok, panic, ◌>>◌, assert}

abbrev pub IsByte : ℕ → Type 0
IsByte b = b < 256

-- `data[i]`
unfoldable pub index {ℓ} : {A : Type ℓ} → List A → ℕ → Result A
index [] i = panic
index (x ∷ xs) zero = ok x
index (x ∷ xs) (suc i) = index xs i

-- `&data[a..]`
unfoldable pub slice_from : List ℕ → ℕ → Result (List ℕ)
slice_from xs a = do assert (leb a (length xs)); ok (drop a xs)

-- `&data[a..b]`
unfoldable pub slice : List ℕ → ℕ → ℕ → Result (List ℕ)
slice xs a b = do assert (leb a b && leb b (length xs)); ok (take (b - a) (drop a xs))

unfoldable pub u16_to_le_bytes : ℕ → List ℕ
u16_to_le_bytes n = n % 256 ∷ n / 256 % 256 ∷ []

unfoldable pub u32_to_le_bytes : ℕ → List ℕ
u32_to_le_bytes n = n % 256 ∷ n / 256 % 256 ∷ n / 65536 % 256 ∷ n / 16777216 % 256 ∷ []

-- `from_le_bytes(slice.try_into().unwrap())`: another length panics.
unfoldable pub u16_from_le_bytes : List ℕ → Result ℕ
u16_from_le_bytes (a ∷ b ∷ []) = ok (a + 256 * b)
u16_from_le_bytes _ = panic

unfoldable pub u32_from_le_bytes : List ℕ → Result ℕ
u32_from_le_bytes (a ∷ b ∷ c ∷ d ∷ []) = ok (a + 256 * b + 65536 * c + 16777216 * d)
u32_from_le_bytes _ = panic

pub u16_round_trip : (n : ℕ) → n < 2 ^ 16 → u16_from_le_bytes (u16_to_le_bytes n) ≡ ok n
unfolding u16_to_le_bytes u16_from_le_bytes
u16_round_trip n h = ap ok (omega arith)

pub u32_round_trip : (n : ℕ) → n < 2 ^ 32 → u32_from_le_bytes (u32_to_le_bytes n) ≡ ok n
unfolding u32_to_le_bytes u32_from_le_bytes
u32_round_trip n h = ap ok (omega arith)

pub length-u32_to_le_bytes : (n : ℕ) → length (u32_to_le_bytes n) ≡ 4
unfolding u32_to_le_bytes
length-u32_to_le_bytes n = refl

pub length-u16_to_le_bytes : (n : ℕ) → length (u16_to_le_bytes n) ≡ 2
unfolding u16_to_le_bytes
length-u16_to_le_bytes n = refl

-- A slice of a concatenation, its bounds given by lengths.
pub slice_mid :
    (xs ys zs : List ℕ) (a b : ℕ)
    → a ≡ length xs
    → b ≡ length xs + length ys
    → slice (xs ++ (ys ++ zs)) a b ≡ ok ys
unfolding slice
slice_mid xs ys zs a b p q =
    let small : leb a b ≡ true = ground arith in
    let fits : leb b (length (xs ++ (ys ++ zs))) ≡ true =
      ground (arith, length-append xs (ys ++ zs), length-append ys zs) in
    let size : b - a ≡ length ys = omega arith in
    rw (small, fits, size, p, drop-length_append, take-length_append)

pub slice_from_append : (xs ys : List ℕ) (a : ℕ) → a ≡ length xs → slice_from (xs ++ ys) a ≡ ok ys
unfolding slice_from
slice_from_append xs ys a p =
    let fits : leb a (length (xs ++ ys)) ≡ true = ground (arith, length-append xs ys) in
    rw (fits, p, drop-length_append)

pub index_append {ℓ} :
    {A : Type ℓ} (xs : List A) (y : A) (ys : List A) (a : ℕ)
    → a ≡ length xs
    → index (xs ++ (y ∷ ys)) a ≡ ok y
unfolding index
index_append [] y ys a p = rw p
index_append (x ∷ xs) y ys zero p = absurd (omega arith)
index_append (x ∷ xs) y ys (suc a) p = index_append xs y ys a (omega arith)

pub index_skip {ℓ} :
    {A : Type ℓ} (xs ys : List A) (a k : ℕ) → a ≡ length xs + k → index (xs ++ ys) a ≡ index ys k
unfolding index
index_skip [] ys a k p = let e : a ≡ k = omega arith in rw e
index_skip (x ∷ xs) ys zero k p = absurd (omega arith)
index_skip (x ∷ xs) ys (suc a) k p = index_skip xs ys a k (omega arith)

pub index_total {ℓ} :
    {A : Type ℓ} (xs : List A) (i : ℕ) → i < length xs → (x : A) × (index xs i ≡ ok x)
unfolding index
index_total [] i h = absurd (omega arith)
index_total (x ∷ xs) zero h = (x, refl)
index_total (x ∷ xs) (suc i) h = index_total xs i (omega arith)

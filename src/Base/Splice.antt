-- ===== src/Base/Splice.antt =====
-- Writes into a byte slice, and what a read of a part sees after a write.
use Prim.Native.Nat.{ℕ, zero, suc, ◌+◌, ◌-◌, ◌≤◌}
use mathlib.Core.Path.{◌≡◌, refl, sym, ap, ◌∙◌}
use mathlib.Core.Bool.{true, ◌&&◌}
use mathlib.Core.Logic.{◌⊎◌, inl, inr}
use mathlib.Core.List.{List, [], ◌∷◌, ◌++◌}
use native.Mathlib.Omega.{arith}
use dip_v.Base.Tests.{leb, ◌==◌, Bool-cases}
use dip_v.Base.Lists.{
  length, take, drop, length-append, length-take, length-drop, take-length_append, drop-drop,
}
use dip_v.Base.Fallible.{Result, ok, ok-injective, ◌>>◌, assert}
use dip_v.Base.Bytes.{slice}

-- The bytes from `off` on are replaced by `ys`.
unfoldable pub splice : List ℕ → ℕ → List ℕ → List ℕ
splice xs off ys = take off xs ++ (ys ++ drop (off + length ys) xs)

-- `data[a..b].copy_from_slice(ys)`: a range out of bounds or of another length panics.
unfoldable pub write : List ℕ → ℕ → ℕ → List ℕ → Result (List ℕ)
write xs a b ys = do
  assert (leb a b && leb b (length xs))
  assert (length ys == b - a)
  ok (splice xs a ys)

take-append_le : (n : ℕ) (xs ys : List ℕ) → n ≤ length xs → take n (xs ++ ys) ≡ take n xs
unfolding take
take-append_le zero xs ys h = refl
take-append_le (suc n) [] ys h = absurd (omega arith)
take-append_le (suc n) (x ∷ xs) ys h = ap (◌∷◌ x) (take-append_le n xs ys (omega arith))

drop-append_le : (n : ℕ) (xs ys : List ℕ) → n ≤ length xs → drop n (xs ++ ys) ≡ drop n xs ++ ys
unfolding drop
drop-append_le zero xs ys h = refl
drop-append_le (suc n) [] ys h = absurd (omega arith)
drop-append_le (suc n) (x ∷ xs) ys h = drop-append_le n xs ys (omega arith)

drop-append_ge : (n k : ℕ) (xs ys : List ℕ) → n ≡ length xs + k → drop n (xs ++ ys) ≡ drop k ys
unfolding drop
drop-append_ge n k [] ys h = let e : n ≡ k = omega arith in rw e
drop-append_ge zero k (x ∷ xs) ys h = absurd (omega arith)
drop-append_ge (suc n) k (x ∷ xs) ys h = drop-append_ge n k xs ys (omega arith)

take-drop-take :
    (n o m : ℕ) (xs : List ℕ) → o + n ≤ m → take n (drop o (take m xs)) ≡ take n (drop o xs)
unfolding take drop
take-drop-take zero o m xs h = refl
take-drop-take (suc n) zero zero xs h = absurd (omega arith)
take-drop-take (suc n) zero (suc m) [] h = refl
take-drop-take (suc n) zero (suc m) (x ∷ xs) h =
    ap (◌∷◌ x) (take-drop-take n zero m xs (omega arith))
take-drop-take (suc n) (suc o) zero xs h = absurd (omega arith)
take-drop-take (suc n) (suc o) (suc m) [] h = refl
take-drop-take (suc n) (suc o) (suc m) (x ∷ xs) h = take-drop-take (suc n) o m xs (omega arith)

-- A slice that exists has its bounds in range, and their distance for a length.
pub length-slice :
    (xs ys : List ℕ) (a b : ℕ)
    → slice xs a b ≡ ok ys
    → (a ≤ b) × (b ≤ length xs) × (length ys ≡ b - a)
unfolding slice
length-slice xs ys a b h = elim (Bool-cases (leb a b && leb b (length xs))) [
  | inl e ↦
      let same : take (b - a) (drop a xs) ≡ ys = ok-injective _ ys (rw e at h) in
      let size : length ys ≡ length (take (b - a) (drop a xs)) = ap length (sym same) in
      ground (arith, length-take (b - a) (drop a xs), length-drop a xs)
  | inr e ↦ absurd (ground arith)
]

-- A read within the first part of a concatenation.
pub slice-append : (xs ys : List ℕ) (a b : ℕ) → b ≤ length xs → slice (xs ++ ys) a b ≡ slice xs a b
unfolding slice
slice-append xs ys a b h = elim (Bool-cases (leb a b)) [
  | inl e ↦
      let all : leb b (length (xs ++ ys)) ≡ true = ground (arith, length-append xs ys) in
      let part : leb b (length xs) ≡ true = ground arith in
      rw (all, part, drop-append_le a xs ys (ground arith))
        (ap (λ (r : List ℕ). assert (leb a b && true) >> ok r)
          (take-append_le (b - a) (drop a xs) ys (ground (arith, length-drop a xs))))
  | inr e ↦ rw e
]

module _ (xs : List ℕ) (off : ℕ) (ys : List ℕ) (fits : off + length ys ≤ length xs) where
  pub length-splice : length (splice xs off ys) ≡ length xs
  unfolding splice
  length-splice = omega (
    arith,
    length-append (take off xs) (ys ++ drop (off + length ys) xs),
    length-append ys (drop (off + length ys) xs),
    length-take off xs,
    length-drop (off + length ys) xs,
  )

  taken : length (take off xs) ≡ off
  taken = omega (arith, length-take off xs)

  -- A read of what was written.
  pub slice-splice_self : (b : ℕ) → b ≡ off + length ys → slice (splice xs off ys) off b ≡ ok ys
  unfolding slice
  slice-splice_self b e =
      let whole = length-splice in
      let ordered : leb off b ≡ true = ground arith in
      let inside : leb b (length (splice xs off ys)) ≡ true = ground (arith, whole) in
      let size : b - off ≡ length ys = omega arith in
      rw (ordered, inside, size)
        (unfold splice in
          rw
            (drop-append_ge off 0 (take off xs) (ys ++ drop (off + length ys) xs)
              (omega (arith, taken)))
            (unfold drop in ap ok (take-length_append ys (drop (off + length ys) xs))))

  read_below : (o n : ℕ) → o + n ≤ off → take n (drop o (splice xs off ys)) ≡ take n (drop o xs)
  unfolding splice
  read_below o n h =
      rw (drop-append_le o (take off xs) (ys ++ drop (off + length ys) xs) (omega (arith, taken))) (
        take-append_le n (drop o (take off xs)) _
          (omega (arith, length-drop o (take off xs), taken))
        ∙ take-drop-take n o off xs h)

  read_above : (o : ℕ) → off + length ys ≤ o → drop o (splice xs off ys) ≡ drop o xs
  unfolding splice
  read_above o h =
      let k : ℕ = o - (off + length ys) in
      let e : off + length ys + k ≡ o = omega arith in
      drop-append_ge o (length ys + k) (take off xs) (ys ++ drop (off + length ys) xs)
        (omega (arith, taken))
      ∙ (drop-append_ge (length ys + k) k ys (drop (off + length ys) xs) refl
          ∙ (drop-drop (off + length ys) k xs ∙ ap (λ (x : ℕ). drop x xs) e))

  -- A read of another part.
  pub slice-splice_other :
      (a b : ℕ) → (b ≤ off) ⊎ (off + length ys ≤ a) → slice (splice xs off ys) a b ≡ slice xs a b
  unfolding slice
  slice-splice_other a b (inl h) = elim (Bool-cases (leb a b)) [
    | inl e ↦ rw (length-splice, read_below a (b - a) (ground arith))
    | inr e ↦ rw (length-splice, e)
  ]
  slice-splice_other a b (inr h) = rw (length-splice, read_above a h)

-- ===== src/Types/Order.antt =====
-- The derived order of `Value` is a total order (src/types/mod.rs).
use Prim.Native.Nat.{Ordering}
use dip_v.Base.{ℕ, ◌≡◌, ◌≢◌, inl, inr, Bool-cases, refl, ap, true, false, List, [], ◌∷◌, arith}
use dip_v.Base.Int.{of_parts}
use dip_v.Types.{Value, compare_bytes, compare_value, lt, le, eq}

bytes_eq : (a b : List ℕ) → compare_bytes a b ≡ Ordering.eq → a ≡ b
unfolding compare_bytes
bytes_eq [] [] h = refl
bytes_eq [] (b ∷ bs) h = cc
bytes_eq (a ∷ as') [] h = cc
bytes_eq (a ∷ as') (b ∷ bs) h = ground (arith, bytes_eq as' bs)

bytes_refl : (a : List ℕ) → compare_bytes a a ≡ Ordering.eq
unfolding compare_bytes
bytes_refl [] = refl
bytes_refl (a ∷ as') = ground (arith, bytes_refl as')

-- `a == b` holds of equal values only, and of every value with itself.
pub eq→≡ : (a b : Value) → eq a b ≡ true → a ≡ b
unfolding eq compare_value
eq→≡ (Value.integer a) (Value.integer b) h = ap Value.integer (of_parts a b (ground arith))
eq→≡ (Value.varchar a) (Value.varchar b) h = ground (arith, bytes_eq a b)
eq→≡ a b h = ground arith

pub le_refl : (a : Value) → le a a ≡ true
unfolding le compare_value
le_refl (Value.integer a) = ground arith
le_refl (Value.varchar a) = ground (arith, bytes_refl a)
le_refl (Value.boolean true) = refl
le_refl (Value.boolean false) = refl

bytes_trans :
    (a b c : List ℕ)
    → compare_bytes b a ≢ Ordering.lt
    → compare_bytes c b ≢ Ordering.lt
    → compare_bytes c a ≢ Ordering.lt
unfolding compare_bytes
bytes_trans [] b [] h k = ground arith
bytes_trans [] b (z ∷ c) h k = ground arith
bytes_trans (x ∷ a) [] c h k = ground arith
bytes_trans (x ∷ a) (y ∷ b) [] h k = ground arith
bytes_trans (x ∷ a) (y ∷ b) (z ∷ c) h k = ground (arith, bytes_trans a b c)

bytes_asym : (a b : List ℕ) → compare_bytes a b ≡ Ordering.lt → compare_bytes b a ≢ Ordering.lt
unfolding compare_bytes
bytes_asym [] [] h = ground arith
bytes_asym [] (y ∷ b) h = ground arith
bytes_asym (x ∷ a) [] h = ground arith
bytes_asym (x ∷ a) (y ∷ b) h = ground (arith, bytes_asym a b)

pub le_trans : (a b c : Value) → le a b ≡ true → le b c ≡ true → le a c ≡ true
unfolding le compare_value
le_trans (Value.integer a) (Value.integer b) (Value.integer c) h k = ground arith
le_trans (Value.varchar a) (Value.varchar b) (Value.varchar c) h k =
    ground (arith, bytes_trans a b c)
le_trans a b c h k = ground arith

pub le_of_lt : (a b : Value) → lt a b ≡ true → le a b ≡ true
unfolding lt le compare_value
le_of_lt (Value.integer a) (Value.integer b) h = ground arith
le_of_lt (Value.varchar a) (Value.varchar b) h = ground (arith, bytes_asym a b)
le_of_lt a b h = ground arith

pub le_of_not-lt : (a b : Value) → lt a b ≡ false → le b a ≡ true
unfolding lt le
le_of_not-lt a b h = ground arith

not-lt_of_le : (a b : Value) → le a b ≡ true → lt b a ≡ false
unfolding lt le
not-lt_of_le a b h = ground arith

pub lt_of_lt-le : (a b c : Value) → lt a b ≡ true → le b c ≡ true → lt a c ≡ true
lt_of_lt-le a b c h k = elim (Bool-cases (lt a c)) [
  | inl e ↦ e
  | inr e ↦ ground (arith, le_trans b c a k (le_of_not-lt a c e), not-lt_of_le b a)
]

pub lt_of_le-lt : (a b c : Value) → le a b ≡ true → lt b c ≡ true → lt a c ≡ true
lt_of_le-lt a b c h k = elim (Bool-cases (lt a c)) [
  | inl e ↦ e
  | inr e ↦ ground (arith, le_trans c a b (le_of_not-lt a c e) h, not-lt_of_le c b)
]

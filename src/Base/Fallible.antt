-- ===== src/Base/Fallible.antt =====
-- The outcome of a Rust function: a value, the `None` or `Err` that it returns (through `?` too),
-- or a panic.
use mathlib.Core.Path.{◌≡◌, refl}
use mathlib.Core.Bool.{Bool, true, false}

pub data Result {ℓ} (A : Type ℓ) : Type ℓ where
  ok : A → Result A
  fail panic : Result A

infixl 5 ◌>>◌ ◌>>=◌
-- Neither a failure nor a panic runs what follows.
abbrev pub ◌>>=◌ {ℓ κ} : {X : Type ℓ} → {Y : Type κ} → Result X → (X → Result Y) → Result Y
panic >>= next = panic
fail >>= next = fail
ok x >>= next = next x

-- `assert!`, and the bounds check of an index or a slice
abbrev pub assert : Bool → Result (Unit {0})
assert false = panic
assert true = ok tt

-- `if !test { return None; }`
abbrev pub guard : Bool → Result (Unit {0})
guard false = fail
guard true = ok tt

-- A statement without a result.
abbrev pub ◌>>◌ {κ} : {Y : Type κ} → Result (Unit {0}) → Result Y → Result Y
first >> rest = first >>= λ _. rest

pub ok-injective {ℓ} : {A : Type ℓ} (a b : A) → ok a ≡ ok b → a ≡ b
ok-injective a b h = cc

-- Both parts of a chain that gave a result gave one.
pub >>=-eq-ok {ℓ κ} :
    {X : Type ℓ} {Y : Type κ} {y : Y} (r : Result X) (next : X → Result Y)
    → (r >>= next) ≡ ok y
    → (x : X) × (r ≡ ok x) × (next x ≡ ok y)
>>=-eq-ok panic next e = cc
>>=-eq-ok fail next e = cc
>>=-eq-ok (ok x) next e = (x, refl, e)

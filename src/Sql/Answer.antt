-- ===== src/Sql/Answer.antt =====
-- The outcome of the engine's functions: a value, an error (src/errors.rs) without its text, or a
-- panic.
use dip_v.Base.{Bool, true, false}

pub data DipError : Type 0 where
  parse_error unsupported : DipError
  table_not_found table_already_exists column_not_found : DipError
  type_mismatch pk_violation unique_violation transaction_aborted internal : DipError
  io_error buffer_pool_full : DipError

pub data Answer {ℓ} (A : Type ℓ) : Type ℓ where
  done : A → Answer A
  error : DipError → Answer A
  crash : Answer A

infixl 5 ◌>>◌ ◌>>=◌
-- The operator `?`
abbrev pub ◌>>=◌ {ℓ κ} : {X : Type ℓ} → {Y : Type κ} → Answer X → (X → Answer Y) → Answer Y
done x >>= next = next x
error e >>= next = error e
crash >>= next = crash

abbrev pub ◌>>◌ {κ} : {Y : Type κ} → Answer (Unit {0}) → Answer Y → Answer Y
first >> rest = first >>= λ _. rest

-- `if !test { return Err(e); }`
abbrev pub require : Bool → DipError → Answer (Unit {0})
require true e = done tt
require false e = error e

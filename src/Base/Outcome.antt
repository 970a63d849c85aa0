-- ===== src/Base/Outcome.antt =====
-- How a run of Rust code ends: with a value, or by a panic. A loop that this development gives
-- fuel can also run out of it.
use mathlib.Core.Option.{Option, none, some}

pub data Run {ℓ} (A : Type ℓ) : Type ℓ where
  val : A → Run A
  panic : Run A
  out_of_fuel : Run A

infixl 5 ◌>>=◌
abbrev pub ◌>>=◌ {ℓ κ} : {A : Type ℓ} {B : Type κ} → Run A → (A → Run B) → Run B
val a >>= f = f a
panic >>= f = panic
out_of_fuel >>= f = out_of_fuel

-- An index out of bounds is a panic.
abbrev pub or_panic {ℓ} : {A : Type ℓ} → Option A → Run A
or_panic (some a) = val a
or_panic none = panic

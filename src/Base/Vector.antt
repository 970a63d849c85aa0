-- ===== src/Base/Vector.antt =====
-- `Vec<T>` with its capacity.
use Prim.Native.Nat.{ℕ, ◌*◌, max}
use mathlib.Core.List.{List, [], ◌∷◌, ◌++◌}
use binger_udp.Base.Lists.{length}
use binger_udp.Base.Tests.{ltb, if◌then◌else◌}

pub record Vec {ℓ} (A : Type ℓ) : Type ℓ where
  pub items : List A
  pub cap : ℕ

module _ {ℓ} {A : Type ℓ} where
  -- `Vec::with_capacity`, which allocates what is asked for.
  abbrev pub vec_with_capacity : ℕ → Vec A
  vec_with_capacity n = record { items = []; cap = n }

  -- `Vec::push`, which doubles a full vector.
  abbrev pub vec_push : Vec A → A → Vec A
  vec_push v x = record {
    items = v.items ++ x ∷ [];
    cap = if ltb (length v.items) v.cap then v.cap else max (2 * v.cap) 4;
  }

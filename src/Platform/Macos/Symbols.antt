-- ===== src/Platform/Macos/Symbols.antt =====
-- src/platform/macos.rs: a symbol is looked up once.
use binger_udp.Base.{
  ℕ, zero, suc, ◌≡◌, refl, Option, none, some, List, [], ◌∷◌, replicate, ◌==◌, if◌then◌else◌,
}
use binger_udp.Platform.Macos.{resolve_symbol}

module _ {W : Type 0} (dlsym : W → ℕ × W) where
  -- The answers of `n` calls in a row, and the world after them.
  abbrev pub resolve_times : ℕ → Option ℕ → W → List (Option ℕ) × W
  resolve_times zero lock w = ([], w)
  resolve_times (suc n) lock w =
      let (r, lock', w₁) = resolve_symbol dlsym lock w in
      let (rs, w₂) = resolve_times n lock' w₁ in (r ∷ rs, w₂)

  filled :
      (n addr : ℕ) (w : W)
      → resolve_times n (some addr) w ≡ (replicate n (if addr == 0 then none else some addr), w)
  unfolding resolve_symbol
  filled zero addr w = refl
  filled (suc n) addr w = rw (filled n addr w) refl

  -- However often a symbol is resolved from an empty lock on, `dlsym` is asked once, in the first
  -- call, and all calls give its answer, none for a null pointer.
  pub resolve_once :
      (n : ℕ) (w : W)
      → resolve_times (suc n) none w
        ≡ (replicate (suc n) (if (dlsym w).0 == 0 then none else some (dlsym w).0), (dlsym w).1)
  unfolding resolve_symbol
  resolve_once n w = rw (filled n (dlsym w).0 (dlsym w).1) refl

-- ===== src/Adaptive/Rate.antt =====
-- src/socket.rs: the floating-point tests of `maybe_adjust` decide the exact ratios.
use native.Mathlib.Nat.{div-add-mod, mod-lt}
use native.Mathlib.Decide.{dec_lt}
use binger_udp.Base.{
  ℕ, ◌+◌, ◌*◌, ◌/◌, ◌%◌, ◌^◌, ◌≤◌, ◌<◌, ◌≡◌, ◌↔◌, ◌⊎◌, inl, inr, true, ltb, ltb→lt, lt→ltb, arith,
  le→ltb, ap, if◌then◌else◌,
}
use binger_udp.Adaptive.{round_div, ulp, as_f64, wb_rate_above_30, wb_rate_below_10}

trichotomy : (a b : ℕ) → (a < b) ⊎ (a ≡ b) ⊎ (b < a)
trichotomy a b = omega arith

over : (q r t m : ℕ) → m < q → ¬ (2 * (t * q + r) < (2 * m + 1) * t)
over q r t m h k = grind arith

under : (q r t m : ℕ) → r < t → q < m → ¬ ((2 * m + 1) * t < 2 * (t * q + r))
under q r t m lt h k = grind arith

-- The quotient and the remainder of a division, rounded.
rounded : ℕ → ℕ → ℕ → ℕ
rounded t q r = if ltb (2 * r) t then q else if ltb t (2 * r) then q + 1 else q + q % 2

rounded_below : (q r t m : ℕ) → q < m → rounded t q r ≤ m
unfolding rounded
rounded_below q r t m h = ground arith

rounded-le : (q r t m : ℕ) → 2 * (t * q + r) < (2 * m + 1) * t → rounded t q r ≤ m
unfolding rounded
rounded-le q r t m h = elim (trichotomy q m) [
  | inl below ↦ rounded_below q r t m below
  | inr (inl same) ↦
      let small : 2 * r < t = omega (arith, ap (λ y. t * y) same) in
      rw (lt→ltb (2 * r) t small) (omega arith)
  | inr (inr above) ↦ absurd (over q r t m above h)
]

lt-rounded : (q r t m : ℕ) → r < t → (2 * m + 1) * t < 2 * (t * q + r) → m < rounded t q r
unfolding rounded
lt-rounded q r t m lt h = elim (trichotomy q m) [
  | inl below ↦ absurd (under q r t m lt below h)
  | inr (inl same) ↦
      let big : t < 2 * r = omega (arith, ap (λ y. t * y) same) in
      rw (le→ltb (2 * r) t (omega arith), lt→ltb t (2 * r) big) (omega arith)
  | inr (inr above) ↦ ground arith
]

round_div-le : (x t m : ℕ) → 2 * x < (2 * m + 1) * t → round_div x t ≤ m
unfolding round_div rounded
round_div-le x t m h = rounded-le (x / t) (x % t) t m (omega (arith, div-add-mod x t))

lt-round_div : (x t m : ℕ) → 0 < t → (2 * m + 1) * t < 2 * x → m < round_div x t
unfolding round_div rounded
lt-round_div x t m p h =
    lt-rounded (x / t) (x % t) t m (mod-lt x p) (omega (arith, div-add-mod x t))

as_f64-exact : (n : ℕ) → n < 2 ^ 53 → as_f64 n ≡ n
unfolding as_f64 ulp round_div
as_f64-exact n h = ground arith

not_below :
    (wb total : ℕ)
    → 0 < total
    → 5404319552844595 < round_div (wb * 2 ^ 54) total
    → 3 * total < 10 * wb
not_below wb total p h = elim (dec_lt (3 * total) (10 * wb)) [
  | yes above ↦ above
  | no below ↦
      absurd (omega (arith, round_div-le (wb * 2 ^ 54) total 5404319552844595 (omega arith)))
]

not_above :
    (wb total : ℕ) → 0 < total → round_div (wb * 2 ^ 56) total < 7205759403792794 → 10 * wb < total
not_above wb total p h = elim (dec_lt (10 * wb) total) [
  | yes below ↦ below
  | no above ↦
      absurd (omega (arith, lt-round_div (wb * 2 ^ 56) total 7205759403792793 p (omega arith)))
]

-- From 1 to 2 ^ 50 recorded events, the `f64` test of `maybe_adjust` against 0.3 decides exactly
-- whether more than three tenths of them would have blocked.
pub wb_rate_above_30_exact :
    (wb total : ℕ)
    → 0 < total
    → wb ≤ total
    → total ≤ 2 ^ 50
    → (wb_rate_above_30 wb total ≡ true) ↔ (3 * total < 10 * wb)
unfolding wb_rate_above_30
wb_rate_above_30_exact wb total p le small =
    rw (as_f64-exact wb (omega arith), as_f64-exact total (omega arith))
      (
        λ h. not_below wb total p (ltb→lt _ _ h),
        λ h. lt→ltb _ _ (lt-round_div (wb * 2 ^ 54) total 5404319552844595 p (omega arith)),
      )

-- From 1 to 2 ^ 50 recorded events, the `f64` test of `maybe_adjust` against 0.1 decides exactly
-- whether fewer than one tenth of them would have blocked.
pub wb_rate_below_10_exact :
    (wb total : ℕ)
    → 0 < total
    → wb ≤ total
    → total ≤ 2 ^ 50
    → (wb_rate_below_10 wb total ≡ true) ↔ (10 * wb < total)
unfolding wb_rate_below_10
wb_rate_below_10_exact wb total p le small =
    rw (as_f64-exact wb (omega arith), as_f64-exact total (omega arith))
      (
        λ h. not_above wb total p (ltb→lt _ _ h),
        λ h.
            lt→ltb _ _
              (omega (arith, round_div-le (wb * 2 ^ 56) total 7205759403792793 (omega arith))),
      )

-- ===== src/Platform/Linux/Recv/Chunks.antt =====
-- src/platform/linux.rs: cutting the bytes of a coalesced datagram into segments.
use binger_udp.Base.{
  ℕ, zero, suc, ◌+◌, ◌-◌, ◌≤◌, ◌<◌, ◌≡◌, refl, ◌∙◌, ap, sym, subst, List, [], ◌∷◌, ◌++◌, take, drop,
  min, length, arith, length-take, length-drop, take_all, take-append-drop, ◌⊎◌, inl, inr,
}
use binger_udp.Batch.Recv.{All}

-- The segments of at most `g` bytes, for at most `fuel` of them.
abbrev pub chunks : ℕ → ℕ → List ℕ → List (List ℕ)
chunks zero g xs = []
chunks (suc fuel) g [] = []
chunks (suc fuel) g (x ∷ xs) = take g (x ∷ xs) ∷ chunks fuel g (drop g (x ∷ xs))

pub drop_nil : (n : ℕ) → drop {A = ℕ} n [] ≡ []
drop_nil zero = refl
drop_nil (suc n) = refl

pub suc_sum : (o g : ℕ) → suc o + g ≡ suc (o + g)
suc_sum o g = omega arith

pub drop-drop : (o g : ℕ) (xs : List ℕ) → drop (o + g) xs ≡ drop g (drop o xs)
drop-drop zero g xs = ap (λ n. drop n xs) (omega arith)
drop-drop (suc o) g [] = drop_nil (suc o + g) ∙ sym (drop_nil g)
drop-drop (suc o) g (x ∷ xs) = ap (λ n. drop n (x ∷ xs)) (suc_sum o g) ∙ drop-drop o g xs

pub drop_past : (xs : List ℕ) (i : ℕ) → length xs ≤ i → drop i xs ≡ []
drop_past [] zero h = refl
drop_past [] (suc i) h = refl
drop_past (x ∷ xs) zero h = elim h [ ]
drop_past (x ∷ xs) (suc i) h = drop_past xs i (omega arith)

pub inside_or_past : (a b : ℕ) → (a ≤ b) ⊎ (b ≤ a)
inside_or_past a b = omega arith

-- The end of a segment cuts as a segment of full length would.
pub take_segment :
    (o g : ℕ) (xs : List ℕ) → take (min (o + g) (length xs) - o) (drop o xs) ≡ take g (drop o xs)
take_segment o g xs = elim (inside_or_past (o + g) (length xs)) [
  | inl inside ↦ ap (λ n. take n (drop o xs)) (omega arith)
  | inr past ↦
      take_all (drop o xs) (min (o + g) (length xs) - o) (omega (arith, length-drop o xs))
      ∙ sym (take_all (drop o xs) g (omega (arith, length-drop o xs)))
]

pub drop_segment : (o g : ℕ) (xs : List ℕ) → drop (min (o + g) (length xs)) xs ≡ drop g (drop o xs)
drop_segment o g xs = elim (inside_or_past (o + g) (length xs)) [
  | inl inside ↦ ap (λ n. drop n xs) (omega arith) ∙ drop-drop o g xs
  | inr past ↦
      drop_past xs (min (o + g) (length xs)) (omega arith)
      ∙ sym (drop_past (drop o xs) g (omega (arith, length-drop o xs)))
]

pub drop_cases :
    (o : ℕ) (xs : List ℕ)
    → ((drop o xs ≡ []) × (length xs ≤ o))
      ⊎ ((y : ℕ) × (ys : List ℕ) × (drop o xs ≡ y ∷ ys) × (o < length xs))
drop_cases o xs = go (drop o xs) refl
  where
    go :
        (zs : List ℕ)
        → drop o xs ≡ zs
        → ((drop o xs ≡ []) × (length xs ≤ o))
          ⊎ ((y : ℕ) × (ys : List ℕ) × (drop o xs ≡ y ∷ ys) × (o < length xs))
    go [] p = inl (p, omega (arith, length-drop o xs, ap length p))
    go (y ∷ ys) p = inr (y, ys, p, omega (arith, length-drop o xs, ap length p))

pub chunks-small :
    (fuel g : ℕ) (xs : List ℕ) → length xs < 65536 → All (λ x. length x < 65536) (chunks fuel g xs)
chunks-small zero g xs h = tt
chunks-small (suc fuel) g [] h = tt
chunks-small (suc fuel) g (x ∷ xs) h = (
  omega (arith, length-take g (x ∷ xs)),
  chunks-small fuel g (drop g (x ∷ xs)) (omega (arith, length-drop g (x ∷ xs))),
)

abbrev pub concat : List (List ℕ) → List ℕ
concat [] = []
concat (x ∷ xs) = x ++ concat xs

-- Nothing of the coalesced bytes is lost.
pub concat-chunks :
    (fuel g : ℕ) (xs : List ℕ) → 0 < g → length xs < fuel → concat (chunks fuel g xs) ≡ xs
concat-chunks zero g xs pos h = elim h [ ]
concat-chunks (suc fuel) g [] pos h = refl
concat-chunks (suc fuel) g (x ∷ xs) pos h = rw (
  concat-chunks fuel g (drop g (x ∷ xs)) pos (omega (arith, length-drop g (x ∷ xs))),
  take-append-drop g (x ∷ xs),
)

pub take-length-take :
    (g m : ℕ) (xs : List ℕ) → take (length (take g (take m xs))) xs ≡ take g (take m xs)
take-length-take zero m xs = refl
take-length-take (suc g) zero xs = refl
take-length-take (suc g) (suc m) [] = refl
take-length-take (suc g) (suc m) (x ∷ xs) = ap (λ l. x ∷ l) (take-length-take g m xs)

-- The first of the segments lies at the start of the buffer.
abbrev pub Starts : List ℕ → List (List ℕ) → Type 0
Starts buf [] = Unit {0}
Starts buf (x ∷ xs) = take (length x) buf ≡ x

pub chunks-Starts :
    (fuel g m : ℕ) (buf zs : List ℕ) → take m buf ≡ zs → Starts buf (chunks fuel g zs)
chunks-Starts zero g m buf zs p = tt
chunks-Starts (suc fuel) g m buf [] p = tt
chunks-Starts (suc fuel) g m buf (z ∷ zs) p =
    subst (λ l. take (length (take g l)) buf ≡ take g l) p (take-length-take g m buf)

-- ===== src/Platform/Loops/Sends.antt =====
-- The send loop: which datagrams reach the kernel, in which order, and where it stops.
use binger_udp.Base.{
  ℕ, zero, suc, ◌+◌, ◌≡◌, refl, ap, inl, inr, true, false, List, [], ◌∷◌, ◌++◌, drop, length,
  if◌then◌else◌, Bool-cases, arith, val, ◌∙◌,
}
use binger_udp.Error.{Result-cases, IoError, IoResult, ok, err, is_would_block}
use binger_udp.Batch.Send.{SendBatchRaw, Entry, entry, entries, IsValid}
use binger_udp.Batch.Send.Entry.{drop-entry, drop_end}
use binger_udp.Platform.Loops.{send_loop}

module _ {W : Type 0} (one : Entry → W → IoResult ℕ × W) where
  -- The kernel takes the entries one after the other.
  pub data Accepted : W → List Entry → W → Type 0 where
    nothing : {w : W} → Accepted w [] w
    each :
        {w v u : W} {x : Entry} {xs : List Entry} {m : ℕ}
        → one x w ≡ (ok m, v)
        → Accepted v xs u
        → Accepted w (x ∷ xs) u

  -- What the loop may return for the entries `xs`: their number if the kernel takes all; the
  -- number of those before the first that would block; or the error of the first that fails
  -- otherwise.
  pub data Sends (w : W) (xs : List Entry) : IoResult ℕ → W → Type 0 where
    all : {v : W} → Accepted w xs v → Sends w xs (ok (length xs)) v
    blocked :
        {v u : W} (ys : List Entry) (x : Entry) (zs : List Entry) (e : IoError)
        → xs ≡ ys ++ x ∷ zs
        → Accepted w ys v
        → one x v ≡ (err e, u)
        → is_would_block e ≡ true
        → Sends w xs (ok (length ys)) u
    failed :
        {v u : W} (ys : List Entry) (x : Entry) (zs : List Entry) (e : IoError)
        → xs ≡ ys ++ x ∷ zs
        → Accepted w ys v
        → one x v ≡ (err e, u)
        → is_would_block e ≡ false
        → Sends w xs (err e) u

  abbrev after : IoResult ℕ × W → ℕ → (W → IoResult ℕ × W) → IoResult ℕ × W
  after (ok _, w) sent next = next w
  after (err e, w) sent next = (if is_would_block e then ok sent else err e, w)

  -- The loop over a list, with the number of entries sent before.
  send_list : List Entry → ℕ → W → IoResult ℕ × W
  send_list [] sent w = (ok sent, w)
  send_list (x ∷ xs) sent w = after (one x w) sent (λ w'. send_list xs (sent + 1) w')

  -- One round, for an entry that is known.
  round :
      (b : SendBatchRaw) (n i sent : ℕ) (w : W) (x : Entry)
      → entry b i ≡ val x
      → drop i (entries b) ≡ x ∷ drop (i + 1) (entries b)
      → ((w' : W)
          → send_loop one b n (i + 1) (sent + 1) w'
            ≡ val (send_list (drop (i + 1) (entries b)) (sent + 1) w'))
      → send_loop one b (suc n) i sent w ≡ val (send_list (drop i (entries b)) sent w)
  unfolding send_loop send_list
  round b n i sent w x here split rest = elim (Result-cases (one x w)) [
    | inl (m, w', p) ↦ rw (here, split, p, rest w')
    | inr (e, w', p) ↦ rw (here, split, p)
  ]

  send_loop-send_list :
      (b : SendBatchRaw) (n i sent : ℕ) (w : W)
      → IsValid b
      → i + n ≡ b.len
      → send_loop one b n i sent w ≡ val (send_list (drop i (entries b)) sent w)
  unfolding send_loop send_list
  send_loop-send_list b zero i sent w v h = rw (drop_end b i v (omega arith))
  send_loop-send_list b (suc n) i sent w v h =
      let (x, here, split) = drop-entry b i v (omega arith) in
      round b n i sent w x here split
        (λ w'. send_loop-send_list b n (i + 1) (sent + 1) w' v (omega arith))

  -- The number sent before is added to the count of the list.
  add_sent : ℕ → IoResult ℕ → IoResult ℕ
  add_sent sent (ok n) = ok (sent + n)
  add_sent sent (err e) = err e

  data Outcome (w : W) (xs : List Entry) (sent : ℕ) (r : IoResult ℕ) (v : W) : Type 0 where
    outcome : {s : IoResult ℕ} → Sends w xs s v → r ≡ add_sent sent s → Outcome w xs sent r v

  Sends-each :
      {w v u : W} {x : Entry} {xs : List Entry} {r : IoResult ℕ} {m : ℕ} (sent : ℕ)
      → one x w ≡ (ok m, v)
      → Outcome v xs (sent + 1) r u
      → Outcome w (x ∷ xs) sent r u
  unfolding add_sent
  Sends-each sent p (outcome (all a) e) = outcome (all (each p a)) (e ∙ ap ok (omega arith))
  Sends-each {x} sent p (outcome (blocked ys y zs er q a rej t) e) =
      outcome (blocked (x ∷ ys) y zs er (ap (λ l. x ∷ l) q) (each p a) rej t)
        (e ∙ ap ok (omega arith))
  Sends-each {x} sent p (outcome (failed ys y zs er q a rej t) e) =
      outcome (failed (x ∷ ys) y zs er (ap (λ l. x ∷ l) q) (each p a) rej t) e

  send_list-Outcome :
      (xs : List Entry) (sent : ℕ) (w : W)
      → Outcome w xs sent (send_list xs sent w).0 (send_list xs sent w).1
  unfolding send_list add_sent
  send_list-Outcome [] sent w = outcome (all nothing) (ap ok (omega arith))
  send_list-Outcome (x ∷ xs) sent w = elim (Result-cases (one x w)) [
    | inl (m, v, p) ↦ rw (p, send_list) (Sends-each sent p (send_list-Outcome xs (sent + 1) v))
    | inr (e, v, p) ↦ elim (Bool-cases (is_would_block e)) [
      | inl t ↦
          rw (p, send_list, t) (outcome (blocked [] x xs e refl nothing p t) (ap ok (omega arith)))
      | inr t ↦ rw (p, send_list, t) (outcome (failed [] x xs e refl nothing p t) refl)
    ]
  ]

  add_sent_zero : (s : IoResult ℕ) → add_sent 0 s ≡ s
  unfolding add_sent
  add_sent_zero (ok n) = ap ok (omega arith)
  add_sent_zero (err e) = refl

  outcome_zero : {w v : W} {xs : List Entry} {r : IoResult ℕ} → Outcome w xs 0 r v → Sends w xs r v
  outcome_zero {w} {v} {xs} (outcome {s} sends e) = rw (e, add_sent_zero s) sends

  -- The loop over a valid batch does not panic, and ends in one of the three outcomes for the
  -- entries of the batch.
  pub send_loop-Sends :
      (b : SendBatchRaw) (w : W)
      → IsValid b
      → (r : IoResult ℕ) × (v : W) × (send_loop one b b.len 0 0 w ≡ val (r, v))
        × Sends w (entries b) r v
  send_loop-Sends b w v = (
    (send_list (entries b) 0 w).0,
    (send_list (entries b) 0 w).1,
    send_loop-send_list b b.len 0 0 w v (omega arith),
    outcome_zero (send_list-Outcome (entries b) 0 w),
  )

-- ===== src/Platform/Fallback/Sending.antt =====
-- src/platform/fallback.rs: what `try_send_batch` hands to the kernel and returns.
use binger_udp.Base.{
  ℕ, ◌≡◌, refl, ◌⊎◌, inl, inr, true, false, [], ◌∷◌, ap, arith, ◌==◌, Bool-cases, List, val, length,
  subst, ◌∙◌,
}
use binger_udp.Error.{IoError, IoResult, ok, err, is_would_block}
use binger_udp.Net.{Endian}
use binger_udp.Kernel.{Kernel, Fd}
use binger_udp.Raw.{is_connected}
use binger_udp.Batch.Send.{SendBatchRaw, Entry, entries, IsValid, len}
use binger_udp.Batch.Send.Refine.{length-entries}
use binger_udp.Platform.Loops.{send_entry}
use binger_udp.Platform.Loops.Sends.{Accepted, Sends, send_loop-Sends}
use binger_udp.Platform.Fallback.{try_send_batch}

-- The loop never returns an error that says that it would block.
pub Sends-not_would_block :
    {W : Type 0} (one : Entry → W → IoResult ℕ × W) {w v : W} {xs : List Entry} {r : IoResult ℕ}
    → Sends one w xs r v
    → (x : IoError) → r ≡ err x
    → is_would_block x ≡ false
Sends-not_would_block one (Sends.all a) x e = cc
Sends-not_would_block one (Sends.blocked ys y zs er q a rej t) x e = cc
Sends-not_would_block one (Sends.failed ys y zs er q a rej t) x e = cc

-- Where the first entry would block, the loop has sent nothing, and says so by a success.
pub Sends-blocked :
    {W : Type 0} (one : Entry → W → IoResult ℕ × W) {w u v : W} {y : Entry} {ys : List Entry}
    {r : IoResult ℕ} {x : IoError}
    → Sends one w (y ∷ ys) r v
    → one y w ≡ (err x, u)
    → is_would_block x ≡ true
    → ◌≡◌ {A = IoResult ℕ × W} (r, v) (ok 0, u)
Sends-blocked one (Sends.all (Accepted.each p a)) rejected t = cc
Sends-blocked one (Sends.blocked [] y zs er q Accepted.nothing rej b) rejected t = cc
Sends-blocked one (Sends.blocked (z ∷ zs) y us er q (Accepted.each p a) rej b) rejected t = cc
Sends-blocked one (Sends.failed [] y zs er q Accepted.nothing rej b) rejected t = cc
Sends-blocked one (Sends.failed (z ∷ zs) y us er q (Accepted.each p a) rej b) rejected t = cc

module _ (k : Kernel) (e : Endian) (fd : Fd) where
  open k use {World}

  -- On a valid batch `try_send_batch` does not panic. An empty batch makes no call. Otherwise the
  -- kernel is given the entries in their order, each with its own address unless the socket is
  -- connected, and the result is their number if all are taken, the number before the first that
  -- would block, or the error of the first that fails otherwise. It is never a would-block error.
  pub try_send_batch-Sends :
      (b : SendBatchRaw) (w : World)
      → IsValid b
      → let (connected, w₁) = is_connected k e fd w in
        (r : IoResult ℕ) × (v : World) × (try_send_batch k e fd b w ≡ val (r, v))
        × ((b.len ≡ 0) × (r ≡ ok 0) × (v ≡ w)
            ⊎ Sends (send_entry k e fd connected) w₁ (entries b) r v)
        × ((x : IoError) → r ≡ err x → is_would_block x ≡ false)
  unfolding try_send_batch len
  try_send_batch-Sends b w v = elim (Bool-cases (b.len == 0)) [
    | inl empty ↦ rw empty (ok 0, w, refl, inl (ground arith, refl, refl), λ x q. cc)
    | inr some_left ↦
        let (connected, w₁) = is_connected k e fd w in
        let (r, u, run, sends) = send_loop-Sends (send_entry k e fd connected) b w₁ v in
        rw some_left
          (r, u, run, inr sends, Sends-not_would_block (send_entry k e fd connected) sends)
  ]

  -- A valid batch whose first datagram would block is reported as a success with no datagram
  -- sent, on either kind of socket.
  pub try_send_batch-blocked :
      (b : SendBatchRaw) (w u : World) (y : Entry) (ys : List Entry) (x : IoError)
      → IsValid b
      → entries b ≡ y ∷ ys
      → (let (connected, w₁) = is_connected k e fd w in send_entry k e fd connected y w₁)
        ≡ (err x, u)
      → is_would_block x ≡ true
      → try_send_batch k e fd b w ≡ val (ok 0, u)
  try_send_batch-blocked b w u y ys x v first rejected blocks =
      let (connected, w₁) = is_connected k e fd w in
      let (r, t, run, outcome, rest) = try_send_batch-Sends b w v in
      elim outcome [
        | inl empty ↦ absurd (omega (arith, length-entries b v, ap length first, empty.0))
        | inr sends ↦
            run
            ∙ ap val (
                Sends-blocked (send_entry k e fd connected)
                  (subst (λ l. Sends (send_entry k e fd connected) w₁ l r t) first sends) rejected
                  blocks)
      ]

-- ===== src/Backend/Contract.antt =====
-- src/platform/fallback.rs: the packet-by-packet loops keep the contract of the socket, and with
-- them the fallback backend.
pub mod Linux
pub mod Macos
pub mod Windows
pub mod Choice
use binger_udp.Base.{
  ℕ, suc, ◌+◌, ◌≤◌, ◌<◌, ◌≡◌, refl, ◌∙◌, ap, subst, sym, inl, inr, none, some, List, [], ◌∷◌, ◌++◌,
  map, length, length-append, if◌then◌else◌, ◌==◌, Run, val, arith, Bool-cases, true, false, Option,
}
use binger_udp.Error.{IoError, IoResult, ok, err, is_would_block}
use binger_udp.Net.{Endian}
use binger_udp.Kernel.{Kernel, Fd}
use binger_udp.Raw.{raw_recvfrom, is_connected}
use binger_udp.Batch.Send.{SendBatchRaw, Entry, entries}
use binger_udp.Batch.Send
use binger_udp.Batch.Send.Refine.{length-entries}
use binger_udp.Batch.Recv.{RecvSlot, RecvBatchRaw, All, IsValid}
use binger_udp.Platform.Loops.{Got, send_entry}
use binger_udp.Platform.Loops.Sends.{Sends}
use binger_udp.Platform.Loops.Pass.{Pass, result, batch}
use binger_udp.Platform.Loops.Delivers.{RecvfromLaw, Small, Passed}
use binger_udp.Platform.Fallback.Sending.{try_send_batch-Sends}
use binger_udp.Platform.Fallback.Receiving.{try_recv_batch-Passed}
use binger_udp.Socket.Contract.{Contract, CountsAtMost, AreShort, Kept, Reported}
use binger_udp.Backend.{Reactor, fallback_env}

pub some_val : {A : Type 0} {m : Run A} {a : A} → m ≡ val a → (x : A) × (m ≡ val x)
some_val {a = a} p = (a, p)

-- The loop of single sends counts at most the entries.
pub Sends-CountsAtMost :
    {W : Type 0} (one : Entry → W → IoResult ℕ × W) {w v : W} {xs : List Entry} {r : IoResult ℕ}
    → Sends one w xs r v
    → CountsAtMost (length xs) r
Sends-CountsAtMost one (Sends.all a) = omega arith
Sends-CountsAtMost one (Sends.blocked ys y zs er q a rej t) =
    omega (arith, ap length q, length-append ys (y ∷ zs))
Sends-CountsAtMost one (Sends.failed ys y zs er q a rej t) = tt

module _ {W : Type 0} (one : List ℕ → W → Got W) where
  AreShort-Small :
      (ss : List RecvSlot)
      → All (λ n. n < 65536) (map (λ (s : RecvSlot). length s.buf) ss)
      → All (Small one) ss
  AreShort-Small [] h = tt
  AreShort-Small (s ∷ ss) h = (h.0, AreShort-Small ss h.1)

  pub short_slots : (b : RecvBatchRaw) → AreShort b → All (Small one) b.slots
  short_slots b h = AreShort-Small b.slots h

  result-Reported :
      (stop : Option IoError) (n l : ℕ) (slots : List RecvSlot)
      → Reported (batch slots (if n == 0 then l else n)) (result one stop n)
  result-Reported none n l slots = λ h. ground arith
  result-Reported (some x) n l slots = elim (Bool-cases (is_would_block x)) [
    | inl t ↦ rw t (λ h. ground arith)
    | inr t ↦ rw t tt
  ]

  -- What a pass over the slots leaves.
  pub Passed-Kept :
      (b : RecvBatchRaw) {w : W} {p : Pass one}
      → Passed one b.slots w p
      → IsValid (batch p.1 (if p.2 == 0 then b.len else p.2))
      → Kept b (batch p.1 (if p.2 == 0 then b.len else p.2))
        × Reported (batch p.1 (if p.2 == 0 then b.len else p.2)) (result one p.0 p.2)
  Passed-Kept b {w} {p} passed valid =
      (record { valid = valid; same_sizes = passed.same_sizes }, result-Reported p.0 p.2 b.len p.1)

-- Over a kernel whose `recvfrom` writes inside the buffers, the fallback backend keeps the contract.
pub fallback_env-Contract :
    (k : Kernel) (e : Endian) (reactor : Reactor k.World)
    → ((fd : Fd) → RecvfromLaw (raw_recvfrom k e fd))
    → Contract (fallback_env k e reactor)
fallback_env-Contract k e reactor law = record {
  sends = λ fd b w valid.
      let (connected, w₁) = is_connected k e fd w in
      let (r, v, run, how, rest) = try_send_batch-Sends k e fd b w valid in
      (
        r,
        v,
        run,
        elim how [
          | inl (empty, zero, same) ↦ subst (CountsAtMost b.len) (sym zero) (omega arith)
          | inr sends ↦
              subst (λ n. CountsAtMost n r) (length-entries b valid)
                (Sends-CountsAtMost (send_entry k e fd connected) sends)
        ],
      );
  receives = λ fd b w valid short.
      let one = raw_recvfrom k e fd in
      let (p, run, passed, valid', rest) =
        try_recv_batch-Passed k e fd b w (law fd) valid (short_slots one b short) in
      let (kept, reported) = Passed-Kept one b passed valid' in
      (result one p.0 p.2, batch p.1 (if p.2 == 0 then b.len else p.2), p.3, run, kept, reported);
}

-- ===== src/Platform/Linux/Send/Answered.antt =====
-- src/platform/linux.rs: what `try_send_batch` makes of the kernel's answer.
use binger_udp.Base.{
  ℕ, ◌%◌, ◌^◌, ℤ, pos, negsuc, ◌≤◌, ◌<◌, ◌≡◌, refl, ◌∙◌, ap, inl, inr, ◌⊎◌, Bool-cases, true, false,
  map, take, val, arith, pos_ne_zero, take_all, length-map,
}
use binger_udp.Error.{IoResult, ok, err, is_enosys}
use binger_udp.Net.{Endian}
use binger_udp.Kernel.{Kernel, Fd}
use binger_udp.Raw.{is_connected, last}
use binger_udp.Batch.Send.{SendBatchRaw, entries, len, IsValid}
use binger_udp.Batch.Send.Refine.{length-entries}
use binger_udp.Platform.Loops.{send_entry}
use binger_udp.Platform.Loops.Sends.{Sends, send_loop-Sends}
use binger_udp.Platform.Linux.Send.{
  max_stack, fallback_send, after_sendmmsg, on_sendmmsg_error, try_send_batch,
}
use binger_udp.Platform.Linux.Send.Stack.{message}
use binger_udp.Platform.Linux.Send.Heap.{AllTo, AllConnected, IsRouted, datagrams-messages}

module _ (k : Kernel) (e : Endian) (fd : Fd) where
  open k use {World}

  -- How the messages of a batch end: the kernel took some number of them; it refused with an
  -- error; or it has no `sendmmsg`, and the entries are sent one by one.
  pub data Answered (b : SendBatchRaw) (w : World) : IoResult ℕ → World → Type 0 where
    took :
        {v : World} {n : ℕ}
        → k.sendmmsg fd (map (message e) (entries b)) w ≡ (pos n, v)
        → Answered b w (ok n) v
    refused :
        {v : World} {n : ℕ}
        → k.sendmmsg fd (map (message e) (entries b)) w ≡ (negsuc n, v)
        → is_enosys (last k e v) ≡ false
        → Answered b w (err (last k e v)) v
    missing :
        {v u : World} {n : ℕ} {r : IoResult ℕ}
        → k.sendmmsg fd (map (message e) (entries b)) w ≡ (negsuc n, v)
        → is_enosys (last k e v) ≡ true
        → (let (connected, v₁) = is_connected k e fd v in
            Sends (send_entry k e fd connected) v₁ (entries b) r u)
        → Answered b w r u

  pub answer_cases :
      (a : ℤ × World)
      → ((n : ℕ) × (v : World) × (a ≡ (pos n, v))) ⊎ ((n : ℕ) × (v : World) × (a ≡ (negsuc n, v)))
  answer_cases (pos n, v) = inl (n, v, refl)
  answer_cases (negsuc n, v) = inr (n, v, refl)

  pub fallback_send-Sends :
      (b : SendBatchRaw) (v : World)
      → IsValid b
      → 0 < b.len
      → let (connected, v₁) = is_connected k e fd v in
        (r : IoResult ℕ) × (u : World) × (fallback_send k e fd b v ≡ val (r, u))
        × Sends (send_entry k e fd connected) v₁ (entries b) r u
  unfolding fallback_send len
  fallback_send-Sends b v valid h =
      let (connected, v₁) = is_connected k e fd v in
      let (r, u, run, sends) = send_loop-Sends (send_entry k e fd connected) b v₁ valid in
      (r, u, rw (pos_ne_zero b.len h) run, sends)

  -- What follows the call.
  after_sendmmsg-Answered :
      (b : SendBatchRaw) (w : World)
      → IsValid b
      → 0 < b.len
      → (r : IoResult ℕ) × (u : World) × (after_sendmmsg k e
            (k.sendmmsg fd (map (message e) (entries b)) w)
            fd
            b
          ≡ val (r, u))
        × Answered b w r u
  after_sendmmsg-Answered b w v h =
      elim (answer_cases (k.sendmmsg fd (map (message e) (entries b)) w)) [
        | inl (n, u, p) ↦ (ok n, u, ap (λ a. after_sendmmsg k e a fd b) p, Answered.took p)
        | inr (n, u, p) ↦ elim (Bool-cases (is_enosys (last k e u))) [
          | inl t ↦
              let (r, t', run, sends) = fallback_send-Sends b u v h in
              (
                r,
                t',
                ap (λ a. after_sendmmsg k e a fd b) p
                    ∙ ap (λ y. on_sendmmsg_error k e y (last k e u) fd b u) t
                    ∙ run,
                Answered.missing p t sends,
              )
          | inr t ↦ (
            err (last k e u),
            u,
            ap (λ a. after_sendmmsg k e a fd b) p
                ∙ ap (λ y. on_sendmmsg_error k e y (last k e u) fd b u) t,
            Answered.refused p t,
          )
        ]
      ]

  -- One `sendmmsg` of the entries, and what follows it.
  pub try_send_batch-after_sendmmsg :
      (b : SendBatchRaw) (w : World)
      → IsValid b
      → 0 < b.len
      → b.len < 2 ^ 32
      → IsRouted e b
      → try_send_batch k e fd b w
        ≡ after_sendmmsg k e (k.sendmmsg fd (map (message e) (entries b)) w) fd b
  unfolding try_send_batch len
  try_send_batch-after_sendmmsg b w v h small routed =
      let all : take (b.len % 2 ^ 32) (map (message e) (entries b)) ≡ map (message e) (entries b) =
        take_all _ _ (omega (arith, length-map (message e) (entries b), length-entries b v)) in
      rw (pos_ne_zero b.len h, datagrams-messages e b v routed, all)

  -- On a valid, non-empty batch of fewer than 2 ^ 32 entries, at most 64 or all addressed or all
  -- without an address, `try_send_batch` does not panic. It announces the entries to one `sendmmsg`,
  -- in their order, each with its own address, and returns the kernel's count or its error; where
  -- the kernel has no `sendmmsg` it sends the entries one by one as the fallback does.
  pub try_send_batch-Answered :
      (b : SendBatchRaw) (w : World)
      → IsValid b
      → 0 < b.len
      → b.len < 2 ^ 32
      → (b.len ≤ max_stack) ⊎ AllTo (entries b) ⊎ AllConnected (entries b)
      → (r : IoResult ℕ) × (u : World) × (try_send_batch k e fd b w ≡ val (r, u)) × Answered b w r u
  try_send_batch-Answered b w v h small routed =
      let (r, u, run, answered) = after_sendmmsg-Answered b w v h in
      (r, u, try_send_batch-after_sendmmsg b w v h small routed ∙ run, answered)

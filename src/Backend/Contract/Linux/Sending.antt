-- ===== src/Backend/Contract/Linux/Sending.antt =====
-- src/platform/linux.rs: sends of the Linux backend keep the contract of the socket.
use binger_udp.Base.{
  ℕ, ◌%◌, ◌^◌, ◌≤◌, ◌<◌, ◌≡◌, refl, ◌∙◌, ap, subst, inl, inr, List, map, take, length, length-take,
  Bool-cases, val, arith, ◌==◌, leb,
}
use binger_udp.Error.{IoResult, ok, err, is_enosys}
use binger_udp.Net.{Endian}
use binger_udp.Kernel.{Kernel, Fd, Datagram}
use binger_udp.Raw.{is_connected, last}
use binger_udp.Batch.Send.{SendBatchRaw, entries, len}
use binger_udp.Batch.Send
use binger_udp.Batch.Send.Refine.{length-entries}
use binger_udp.Platform.Loops.{send_entry}
use binger_udp.Platform.Linux.Send.{
  datagrams, heap_datagrams, after_sendmmsg, on_sendmmsg_error, max_stack, try_send_batch,
}
use binger_udp.Platform.Linux.Send.Stack.{message, stack_datagrams-messages}
use binger_udp.Platform.Linux.Send.Heap.{heap_datagrams-linked}
use binger_udp.Platform.Linux.Send.Answered.{answer_cases, fallback_send-Sends}
use binger_udp.Socket.Contract.{CountsAtMost}
use binger_udp.Backend.Contract.{Sends-CountsAtMost, some_val}
use binger_udp.Backend.Contract.Linux.{LinuxLaw}

module _ (k : Kernel) (e : Endian) where
  open k use {World}

  module _ (fuel : ℕ) (law : LinuxLaw k e fuel) (fd : Fd) where
    -- Either path announces some messages to the kernel.
    some_datagrams :
        (b : SendBatchRaw) → Send.IsValid b → (ds : List Datagram) × (datagrams e b ≡ val ds)
    unfolding datagrams
    some_datagrams b valid = elim (Bool-cases (leb b.len max_stack)) [
      | inl stack ↦ (
        map (message e) (entries b),
        rw stack (stack_datagrams-messages e b valid (ground arith)),
      )
      | inr heap ↦
          let on_heap : datagrams e b ≡ heap_datagrams e b = rw heap refl in
          some_val (on_heap ∙ heap_datagrams-linked e b valid)
    ]

    after_sendmmsg-CountsAtMost :
        (b : SendBatchRaw) (ds : List Datagram) (w : World)
        → Send.IsValid b
        → 0 < b.len
        → length ds ≤ b.len
        → (r : IoResult ℕ) × (v : World) × (after_sendmmsg k e (k.sendmmsg fd ds w) fd b
            ≡ val (r, v))
          × CountsAtMost b.len r
    after_sendmmsg-CountsAtMost b ds w valid some_entry le =
        elim (answer_cases k e fd (k.sendmmsg fd ds w)) [
          | inl (n, v, p) ↦ (
            ok n,
            v,
            ap (λ a. after_sendmmsg k e a fd b) p,
            omega (arith, law.sends fd ds w v n p, le),
          )
          | inr (n, v, p) ↦ elim (Bool-cases (is_enosys (last k e v))) [
            | inl missing ↦
                let (r, u, run, sends) = fallback_send-Sends k e fd b v valid some_entry in
                (
                  r,
                  u,
                  ap (λ a. after_sendmmsg k e a fd b) p
                      ∙ ap (λ y. on_sendmmsg_error k e y (last k e v) fd b v) missing
                      ∙ run,
                  subst (λ m. CountsAtMost m r) (length-entries b valid)
                      (Sends-CountsAtMost (send_entry k e fd (is_connected k e fd v).0) sends),
                )
            | inr refused ↦ (
              err (last k e v),
              v,
              ap (λ a. after_sendmmsg k e a fd b) p
                  ∙ ap (λ y. on_sendmmsg_error k e y (last k e v) fd b v) refused,
              tt,
            )
          ]
        ]

    pub sends :
        (b : SendBatchRaw) (w : World)
        → Send.IsValid b
        → (r : IoResult ℕ) × (v : World) × (try_send_batch k e fd b w ≡ val (r, v))
          × CountsAtMost b.len r
    unfolding try_send_batch len
    sends b w valid = elim (Bool-cases (b.len == 0)) [
      | inl empty ↦ (ok 0, w, rw empty refl, omega arith)
      | inr some_entry ↦
          let (ds, prepared) = some_datagrams b valid in
          let (r, v, run, counts) =
            after_sendmmsg-CountsAtMost b (take (b.len % 2 ^ 32) ds) w valid (ground arith)
              (omega (arith, length-take (b.len % 2 ^ 32) ds)) in
          (r, v, rw (some_entry, prepared) run, counts)
    ]

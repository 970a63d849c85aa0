-- ===== src/Backend/Liveness.antt =====
-- src/socket.rs and src/platform/linux.rs together: `send_batch` over the Linux backend gets through
-- as soon as the kernel takes messages.
use binger_udp.Base.{ℕ, zero, suc, ◌^◌, ◌<◌, ◌≡◌, refl, ◌∙◌, ap, pos, negsuc, map, val}
use binger_udp.Error.{eagain, os, ok, err, is_would_block, is_enosys, kind}
use binger_udp.Net.{Endian}
use binger_udp.Kernel.{Kernel, Fd}
use binger_udp.Batch.Send.{SendBatchRaw, entries, IsValid}
use binger_udp.Platform.Linux.Send.{after_sendmmsg, try_send_batch}
use binger_udp.Platform.Linux.Send.Stack.{message}
use binger_udp.Platform.Linux.Send.Heap.{IsRouted}
use binger_udp.Platform.Linux.Send.Answered.{try_send_batch-after_sendmmsg}
use binger_udp.Socket.{BingerUdp, after_platform_send, blocked_send, send_batch}
use binger_udp.Socket.Retry.{Ready, send_batch-Ready}
use binger_udp.Backend.{Reactor, linux_env}

module _ (k : Kernel) (e : Endian) (reactor : Reactor k.World) (recv_fuel : ℕ)
    (b : SendBatchRaw) where
  open k use {World}

  -- The kernel says EAGAIN `j` times, each time the wait for writability ends well, and then it
  -- takes `n` messages and is in state `v`.
  pub data Relents (fd : Fd) (n : ℕ) (v : World) : ℕ → World → Type 0 where
    takes :
        {w : World}
        → k.sendmmsg fd (map (message e) (entries b)) w ≡ (pos n, v)
        → Relents fd n v zero w
    blocks :
        {j m : ℕ} {w u u' : World}
        → k.sendmmsg fd (map (message e) (entries b)) w ≡ (negsuc m, u)
        → k.last_os_error u ≡ eagain
        → reactor.writable u ≡ (ok tt, u')
        → Relents fd n v j u'
        → Relents fd n v (suc j) w

  module _ (valid : IsValid b) (some_entry : 0 < b.len) (small : b.len < 2 ^ 32)
      (routed : IsRouted e b) where
    taken :
        {fd : Fd} {w v : World} {n : ℕ}
        → k.sendmmsg fd (map (message e) (entries b)) w ≡ (pos n, v)
        → try_send_batch k e fd b w ≡ val (ok n, v)
    taken {fd} {w} p =
        try_send_batch-after_sendmmsg k e fd b w valid some_entry small routed
        ∙ ap (λ a. after_sendmmsg k e a fd b) p

    refused :
        {fd : Fd} {w u : World} {m : ℕ}
        → k.sendmmsg fd (map (message e) (entries b)) w ≡ (negsuc m, u)
        → k.last_os_error u ≡ eagain
        → try_send_batch k e fd b w ≡ val (err (os eagain), u)
    unfolding is_enosys
    refused {fd} {w} {u} {m} p q =
        try_send_batch-after_sendmmsg k e fd b w valid some_entry small routed
        ∙ ap (λ a. after_sendmmsg k e a fd b) p
        ∙ rw q refl

    Relents-Ready :
        {n : ℕ} {v : World} (j : ℕ) {w : World} (s : BingerUdp)
        → Relents s.fd n v j w
        → (t : BingerUdp) × Ready (linux_env k e reactor recv_fuel) b (ok n) t v j s w
          × (t.fd ≡ s.fd)
    unfolding is_would_block kind after_platform_send
    Relents-Ready {n} zero s (takes p) =
        (after_platform_send s (ok n), Ready.settles tt (taken p) refl, refl)
    Relents-Ready (suc j) s (blocks {u = u} p q writable rest) =
        let (t, ready, same) =
          Relents-Ready j
            (blocked_send (linux_env k e reactor recv_fuel)
              (after_platform_send s (err (os eagain))) u)
            rest in
        (t, Ready.waits refl (refused p q) writable ready, same)

    -- Over the Linux backend, a valid and not empty batch of fewer than 2 ^ 32 entries, at most 64
    -- or uniform in having addresses, gets through: if the kernel says EAGAIN any number of times,
    -- the socket becomes writable after each, and then the kernel takes messages, `send_batch`
    -- with more fuel than blocked attempts returns how many the kernel took, over the same socket.
    pub send_batch-Relents :
        (fuel j n : ℕ) (s : BingerUdp) (w v : World)
        → Relents s.fd n v j w
        → j < fuel
        → (t : BingerUdp) × (send_batch (linux_env k e reactor recv_fuel) fuel s b w
            ≡ val (ok n, t, v))
          × (t.fd ≡ s.fd)
    send_batch-Relents fuel j n s w v relents enough =
        let (t, ready, same) = Relents-Ready j s relents in
        (t, send_batch-Ready (linux_env k e reactor recv_fuel) b fuel ready enough, same)

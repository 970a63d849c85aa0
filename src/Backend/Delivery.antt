-- ===== src/Backend/Delivery.antt =====
-- src/socket.rs and src/platform/linux.rs together: `recv_batch` over the Linux backend delivers what
-- the kernel has, once it has something.
use binger_udp.Base.{
  ℕ, zero, suc, ◌%◌, ◌^◌, ◌≤◌, ◌<◌, ◌≡◌, refl, negsuc, List, [], ◌∷◌, map, take, length, val, arith,
  pos_ne_zero,
}
use binger_udp.Error.{eagain, os, ok, err, is_would_block, is_enosys, is_interrupted, kind}
use binger_udp.Net.{Endian}
use binger_udp.Sockaddr.{decode_sockaddr}
use binger_udp.Kernel.{Kernel, Fd, Received}
use binger_udp.Batch.Recv.{RecvBatchRaw, IsValid, datagram, capacity}
use binger_udp.Platform.Loops.Pass.{batch}
use binger_udp.Platform.Linux.Recv.{Answer, retry_eintr, try_recv_batch}
use binger_udp.Platform.Linux.Recv.Plain.{
  AllPlain, Answers, deliver, try_recv_batch-plain, deliver-Fits, datagrams,
}
use binger_udp.Socket.{BingerUdp, after_platform_recv, blocked_recv, recv_batch}
use binger_udp.Socket.Arrival.{Arrives, IsFinal, recv_batch-Arrives}
use binger_udp.Backend.{Reactor, linux_env}

some-IsFinal : (rs : List Received) → 0 < length rs → IsFinal (ok (length rs))
some-IsFinal [] h = elim h [ ]
some-IsFinal (r ∷ rs) h = tt

module _ (k : Kernel) (e : Endian) (reactor : Reactor k.World) (recv_fuel : ℕ)
    (b : RecvBatchRaw) where
  open k use {World}

  -- `recvmmsg` into the buffers of the batch.
  abbrev pub call : Fd → World → Answer k e
  call fd = k.recvmmsg fd (take (length b.slots % 2 ^ 32) (map (λ s. s.buf) b.slots))

  -- The kernel says EAGAIN `j` times, each time the wait for readability ends well, and then, after
  -- fewer interruptions than the fuel, it fills the messages `rs` and is in state `v`.
  pub data Supplies (fd : Fd) (rs : List Received) (v : World) : ℕ → World → Type 0 where
    fills :
        {i : ℕ} {w : World}
        → Answers k e (call fd) rs v i w
        → i < recv_fuel
        → Supplies fd rs v zero w
    dry :
        {j m : ℕ} {out : List Received} {w u u' : World}
        → call fd w ≡ (negsuc m, out, u)
        → k.last_os_error u ≡ eagain
        → reactor.readable u ≡ (ok tt, u')
        → Supplies fd rs v j u'
        → Supplies fd rs v (suc j) w

  refused :
      (fuel m : ℕ) {fd : Fd} {out : List Received} {w u : World}
      → 0 < fuel
      → call fd w ≡ (negsuc m, out, u)
      → k.last_os_error u ≡ eagain
      → retry_eintr k e fuel (call fd) w ≡ val (err (os eagain), u)
  unfolding retry_eintr is_interrupted
  refused zero m h p q = elim h [ ]
  refused (suc fuel) m h p q = rw (p, q) refl

  module _ (some_slot : 0 < length b.slots) (some_fuel : 0 < recv_fuel) where
    nothing_yet :
        (m : ℕ) {fd : Fd} {out : List Received} {w u : World}
        → call fd w ≡ (negsuc m, out, u)
        → k.last_os_error u ≡ eagain
        → try_recv_batch k e recv_fuel fd b w ≡ val (err (os eagain), b, u)
    unfolding try_recv_batch capacity is_enosys
    nothing_yet m p q =
        rw (pos_ne_zero (length b.slots) some_slot, refused recv_fuel m some_fuel p q) refl

    module _ (valid : IsValid b) (rs : List Received) (fit : length rs ≤ length b.slots)
        (plain : AllPlain rs) (some_message : 0 < length rs) where
      abbrev full : RecvBatchRaw
      full = batch (deliver e b.slots rs) (length rs)

      Supplies-Arrives :
          {v : World} (j : ℕ) {w : World} (s : BingerUdp)
          → Supplies s.fd rs v j w
          → (t : BingerUdp) × Arrives
              (linux_env k e reactor recv_fuel)
              (ok (length rs))
              full
              t
              v
              j
              s
              b
              w
            × (t.fd ≡ s.fd)
      unfolding is_would_block kind after_platform_recv
      Supplies-Arrives {v} zero {w} s (fills {i = i} answers enough) = (
        after_platform_recv s (ok (length rs)),
        Arrives.arrives (some-IsFinal rs some_message)
            (try_recv_batch-plain k e recv_fuel i s.fd b rs w v valid some_slot answers enough fit
              plain).0
            refl,
        refl,
      )
      Supplies-Arrives (suc j) s (dry {m = m} {u = u} p q readable rest) =
          let (t, arrival, same) =
            Supplies-Arrives j
              (blocked_recv (linux_env k e reactor recv_fuel)
                (after_platform_recv s (err (os eagain))) u)
              rest in
          (t, Arrives.idles refl (nothing_yet m p q) readable arrival, same)

      -- Over the Linux backend, with a valid batch of at least one slot: if the kernel says EAGAIN any
      -- number of times, the socket becomes readable after each, and then the kernel fills some
      -- messages that were not coalesced, at most one for each slot, `recv_batch` with more fuel than
      -- blocked attempts returns their number over the same socket. The first slots of the valid batch
      -- hold their datagrams in order, with their sources.
      pub recv_batch-Supplies :
          (fuel j : ℕ) (s : BingerUdp) (w v : World)
          → Supplies s.fd rs v j w
          → j < fuel
          → (t : BingerUdp) × (recv_batch (linux_env k e reactor recv_fuel) fuel s b w
              ≡ val (ok (length rs), batch (deliver e b.slots rs) (length rs), t, v))
            × (t.fd ≡ s.fd)
            × (map datagram (take (length rs) (deliver e b.slots rs))
                ≡ map (λ r. (take r.msg_len r.buf, decode_sockaddr e r.src r.namelen)) rs)
            × IsValid (batch (deliver e b.slots rs) (length rs))
      recv_batch-Supplies fuel j s w v supplies enough =
          let (t, arrival, same) = Supplies-Arrives j s supplies in
          let (fits, count) = deliver-Fits k e b.slots rs valid.fit plain in
          (
            t,
            recv_batch-Arrives (linux_env k e reactor recv_fuel) fuel arrival enough,
            same,
            datagrams k e b.slots rs plain fit,
            record { within = omega (arith, count, fit); fit = fits },
          )

-- ===== src/Socket/Contract/Arriving.antt =====
-- src/socket.rs: the receive operations over a backend that keeps its contract, once datagrams arrive.
use binger_udp.Base.{
  ℕ, suc, ◌≤◌, ◌<◌, ◌≡◌, refl, subst, ◌∙◌, List, ◌++◌, map, take, drop, length, length-map,
  length-take, val, arith,
}
use binger_udp.Error.{ok}
use binger_udp.Net.{SocketAddr}
use binger_udp.Batch.Recv.{RecvBatchRaw, IsValid, iter, datagram, payload, addr, with_capacity}
use binger_udp.Batch.Recv.Slots.{with_capacity-IsValid}
use binger_udp.Batch.Recv.Client.{iter-datagrams}
use binger_udp.Socket.{BingerUdp, Env, recv_batch, recv_from}
use binger_udp.Socket.Arrival.{Arrives, recv_batch-Arrives}
use binger_udp.Socket.Contract.{Contract, Kept, AreShort, Returns}
use binger_udp.Socket.Contract.Receiving.{
  Ends, recv_batch-Ends, on_received-payload, with_capacity-sizes, one_slot-AreShort,
}

module _ (env : Env) (contract : Contract env) where
  open env use {World}

  arrived-Ends :
      {m : ℕ} {b' : RecvBatchRaw} {t : BingerUdp} {u : World} (fuel n : ℕ) (s : BingerUdp)
      (b : RecvBatchRaw) (w : World)
      → IsValid b
      → AreShort b
      → Arrives env (ok (suc m)) b' t u n s b w
      → n < fuel
      → (recv_batch env fuel s b w ≡ val (ok (suc m), b', t, u)) × Kept b b' × (b'.len ≡ suc m)
  arrived-Ends {m} {b'} {t} {u} fuel n s b w valid short arrival enough =
      let run = recv_batch-Arrives env fuel arrival enough in
      let (kept, held) =
        subst (Returns (Ends env contract b)) run
          (recv_batch-Ends env contract fuel b b s w valid short refl) in
      (run, kept, held.1)

  -- Over any backend that keeps the contract: on a valid batch of buffers below 64 KiB, once the
  -- platform has filled a datagram or more, after any number of idle rounds, `recv_batch` with more
  -- fuel than idle rounds returns their number, and iterating over the batch then yields exactly
  -- that number of datagrams, those of its first slots in order.
  pub recv_batch-iter :
      (m : ℕ) (b b' : RecvBatchRaw) (s t : BingerUdp) (w u : World) (fuel n : ℕ)
      → IsValid b
      → AreShort b
      → Arrives env (ok (suc m)) b' t u n s b w
      → n < fuel
      → (recv_batch env fuel s b w ≡ val (ok (suc m), b', t, u))
        × (iter b' ≡ val (map datagram (take (suc m) b'.slots)))
        × (length (map datagram (take (suc m) b'.slots)) ≡ suc m)
        × Kept b b'
  recv_batch-iter m b b' s t w u fuel n valid short arrival enough =
      let (run, kept, count) = arrived-Ends fuel n s b w valid short arrival enough in
      (
        run,
        subst (λ l. iter b' ≡ val (map datagram (take l b'.slots))) count
            (iter-datagrams b' kept.valid),
        omega (
          arith,
          length-map datagram (take (suc m) b'.slots),
          length-take (suc m) b'.slots,
          kept.valid.within,
          count,
        ),
        kept,
      )

  -- Over any backend that keeps the contract: once the platform has filled the one slot of
  -- `recv_from`, after any number of idle rounds, `recv_from` into a buffer below 64 KiB, with more
  -- fuel than idle rounds, returns the length and the source of the slot's datagram. All its bytes
  -- are then at the front of the buffer, and the rest of the buffer is as it was.
  pub recv_from-Arrives :
      (m : ℕ) (b' : RecvBatchRaw) (s t : BingerUdp) (w u : World) (buf : List ℕ) (fuel n : ℕ)
      → length buf < 65536
      → Arrives env (ok (suc m)) b' t u n s (with_capacity 1 (length buf)) w
      → n < fuel
      → (bytes : List ℕ) × (a : SocketAddr) × (payload b' 0 ≡ val bytes)
        × (addr b' 0 ≡ val a)
        × (length bytes ≤ length buf)
        × (recv_from env fuel s buf w
            ≡ val (ok (length bytes, a), bytes ++ drop (length bytes) buf, t, u))
  unfolding recv_from
  recv_from-Arrives m b' s t w u buf fuel n small arrival enough =
      let (run, kept, count) =
        arrived-Ends fuel n s (with_capacity 1 (length buf)) w
          (with_capacity-IsValid 1 (length buf)) (one_slot-AreShort env contract buf small) arrival
          enough in
      let (bytes, a, read, from, short, copied) =
        on_received-payload env contract (suc m) b' buf t u kept.valid
          (kept.same_sizes ∙ with_capacity-sizes env contract (length buf)) in
      (bytes, a, read, from, short, rw run copied)

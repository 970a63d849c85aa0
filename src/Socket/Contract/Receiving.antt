-- ===== src/Socket/Contract/Receiving.antt =====
-- src/socket.rs: the receive operations over a backend that keeps its contract.
use binger_udp.Base.{
  ℕ, zero, suc, ◌≤◌, ◌<◌, Bool, true, false, ◌≡◌, refl, sym, subst, ap, ◌∙◌, List, [], ◌∷◌,
  get_elem?, some, some_inj, length-take, take_all, length-replicate, take, drop, map, ◌++◌, length,
  min, Run, ◌>>=◌, val, panic, out_of_fuel, arith,
}
use binger_udp.Error.{IoError, IoResult, ok, err, is_would_block}
use binger_udp.Net.{SocketAddr}
use binger_udp.Batch.Recv.{RecvSlot, RecvBatchRaw, IsValid, All, Fits, payload, addr, with_capacity}
use binger_udp.Batch.Recv.Slots.{All-get, payload-some, addr-some, with_capacity-IsValid}
use binger_udp.Socket.{
  BingerUdp, Env, Received, recv_batch, try_recv_batch, recv_from, on_recv, on_recv_error,
  await_recv, wait_and_retry, blocked_recv, after_platform_recv, on_received, ReceivedFrom,
}
use binger_udp.Socket.Contract.{Contract, Kept, Reported, AreShort, sizes, Returns}

-- A reception that ended: the batch is kept, and if it succeeded it holds as many datagrams as it
-- counts, which is at least one.
abbrev pub Held : RecvBatchRaw → IoResult ℕ → Type 0
Held b (ok n) = (0 < n) × (b.len ≡ n)
Held b (err x) = Unit {0}

pub Kept-AreShort : (b b' : RecvBatchRaw) → Kept b b' → AreShort b → AreShort b'
Kept-AreShort b b' kept short = subst (All (λ n. n < 65536)) (sym kept.same_sizes) short

Reported-Held :
    (b : RecvBatchRaw) (r : IoResult ℕ) (n : ℕ) → r ≡ ok (suc n) → Reported b r → Held b r
Reported-Held b (ok zero) n q h = cc
Reported-Held b (ok (suc m)) n q h = (omega arith, h (omega arith))
Reported-Held b (err e) n q h = tt

single_slot :
    (ss : List RecvSlot) {n : ℕ}
    → map (λ (t : RecvSlot). length t.buf) ss ≡ n ∷ []
    → (x : RecvSlot) × (get_elem? ss 0 ≡ some x) × (length x.buf ≡ n)
single_slot [] h = cc
single_slot (x ∷ ss) h = (x, refl, some_inj (ap (λ l. get_elem? l 0) h))

module _ (env : Env) where
  open env use {World}

  abbrev Next : Type 0
  Next = RecvBatchRaw → BingerUdp → World → Run (Received env)

  module _ (Q : Received env → Type 0) (b : RecvBatchRaw) (next : Next)
      (failed : (e : IoError) (s : BingerUdp) (w : World) → Q (err e, b, s, w))
      (again : (s : BingerUdp) (w : World) → Returns Q (next b s w)) where
    retry-Returns : (s : BingerUdp) (w : World) → Returns Q (wait_and_retry env b s w next)
    retry-Returns s w = waited (env.wait_readable w)
      where
        waited :
            (p : IoResult (Unit {0}) × World)
            → Returns Q (await_recv env p b (blocked_recv env s w) (next b (blocked_recv env s w)))
        waited (ok u, v) = again (blocked_recv env s w) v
        waited (err e, v) = failed e (blocked_recv env s w) v

    on_recv-Returns :
        (r : IoResult ℕ) (s : BingerUdp) (w : World)
        → ((n : ℕ) → r ≡ ok (suc n) → Q (r, b, s, w))
        → Returns Q (on_recv env r b s w next)
    on_recv-Returns (ok zero) s w now = retry-Returns s w
    on_recv-Returns (ok (suc n)) s w now = now n refl
    on_recv-Returns (err e) s w now = on_error (is_would_block e)
      where
        on_error : (c : Bool) → Returns Q (on_recv_error env c e b s w next)
        on_error true = retry-Returns s w
        on_error false = failed e s w

  module _ (contract : Contract env) where
    abbrev pub Ends : RecvBatchRaw → Received env → Type 0
    Ends b z = Kept b z.1 × Held z.1 z.0

    pub recv_batch-Ends :
        (fuel : ℕ) (b₀ b : RecvBatchRaw) (s : BingerUdp) (w : World)
        → IsValid b
        → AreShort b
        → sizes b ≡ sizes b₀
        → Returns (Ends b₀) (recv_batch env fuel s b w)
    unfolding recv_batch try_recv_batch
    recv_batch-Ends zero b₀ b s w valid short same = tt
    recv_batch-Ends (suc fuel) b₀ b s w valid short same =
        let (r, b', v, got, kept, reported) = contract.receives s.fd b w valid short in
        let kept₀ : Kept b₀ b' = record {
          valid = kept.valid;
          same_sizes = kept.same_sizes ∙ same;
        } in
        rw got (
          on_recv-Returns (Ends b₀) b' _ (λ e t u. (kept₀, tt))
            (λ t u.
              recv_batch-Ends fuel b₀ b' t u kept.valid (Kept-AreShort b b' kept short)
                kept₀.same_sizes)
            r _ v (λ n q. (kept₀, Reported-Held b' r n q reported)))

    pub with_capacity-sizes : (n : ℕ) → sizes (with_capacity 1 n) ≡ n ∷ []
    unfolding with_capacity
    with_capacity-sizes n = ap (λ m. m ∷ []) (length-replicate n 0)

    pub one_slot-AreShort :
        (buf : List ℕ) → length buf < 65536 → AreShort (with_capacity 1 (length buf))
    one_slot-AreShort buf short =
        subst (All (λ n. n < 65536)) (sym (with_capacity-sizes (length buf))) (short, tt)

    -- What `recv_from` leaves in the buffer: as many bytes as it counts, and then what was there.
    abbrev pub Copied : List ℕ → IoResult (ℕ × SocketAddr) → List ℕ → Type 0
    Copied buf (ok (n, a)) buf' =
        (bytes : List ℕ) × (length bytes ≡ n) × (n ≤ length buf) × (buf' ≡ bytes ++ drop n buf)
    Copied buf (err x) buf' = buf' ≡ buf

    abbrev pub AfterRecvFrom : List ℕ → ReceivedFrom env → Type 0
    AfterRecvFrom buf z = Copied buf z.0 z.1

    -- A slot that holds a datagram: `recv_from` copies all of it, to the front of the buffer.
    pub on_received-payload :
        (n : ℕ) (b : RecvBatchRaw) (buf : List ℕ) (s : BingerUdp) (w : World)
        → IsValid b
        → sizes b ≡ length buf ∷ []
        → (bytes : List ℕ) × (a : SocketAddr) × (payload b 0 ≡ val bytes)
          × (addr b 0 ≡ val a)
          × (length bytes ≤ length buf)
          × (on_received env (ok n) b buf s w
              ≡ val (ok (length bytes, a), bytes ++ drop (length bytes) buf, s, w))
    on_received-payload n b buf s w valid same =
        let (x, here, size) = single_slot b.slots same in
        let fits = All-get Fits b.slots 0 valid.fit here in
        let bytes = take x.recv_len x.buf in
        let short : length bytes ≤ length buf = omega (arith, size, length-take x.recv_len x.buf) in
        let whole : min (length bytes) (length buf) ≡ length bytes = omega (arith, short) in
        (
          bytes,
          x.addr,
          payload-some b 0 x here fits,
          addr-some b 0 x here,
          short,
          rw (payload-some b 0 x here fits, addr-some b 0 x here, whole)
              (ap (λ l. val (ok (length bytes, x.addr), l ++ drop (length bytes) buf, s, w))
                (take_all bytes (length bytes) (omega arith))),
        )

    on_received-Copied :
        (r : IoResult ℕ) (b : RecvBatchRaw) (buf : List ℕ) (s : BingerUdp) (w : World)
        → IsValid b
        → sizes b ≡ length buf ∷ []
        → Returns (AfterRecvFrom buf) (on_received env r b buf s w)
    on_received-Copied (err x) b buf s w valid same = refl
    on_received-Copied (ok n) b buf s w valid same =
        let (bytes, a, read, from, short, run) = on_received-payload n b buf s w valid same in
        rw run (bytes, refl, short, refl)

    recv_from-Copied :
        (fuel : ℕ) (s : BingerUdp) (buf : List ℕ) (w : World)
        → length buf < 65536
        → Returns (AfterRecvFrom buf) (recv_from env fuel s buf w)
    unfolding recv_from
    recv_from-Copied fuel s buf w short =
        let b = with_capacity 1 (length buf) in
        after (recv_batch env fuel s b w) (
          recv_batch-Ends fuel b b s w (with_capacity-IsValid 1 (length buf))
            (one_slot-AreShort buf short) refl)
      where
        after :
            (m : Run (Received env))
            → Returns (Ends (with_capacity 1 (length buf))) m
            → Returns (AfterRecvFrom buf) (m >>= λ (r, b, t, v). on_received env r b buf t v)
        after (val (r, b, t, v)) (kept, held) =
            on_received-Copied r b buf t v kept.valid
              (kept.same_sizes ∙ with_capacity-sizes (length buf))
        after panic h = h
        after out_of_fuel h = tt

    -- Over any backend that keeps the contract, and on a valid batch of buffers below 64 KiB,
    -- `try_recv_batch` returns; `recv_batch` and `recv_from`, into a buffer below 64 KiB, never
    -- panic, in however many rounds. The batch stays valid, over the same buffers; a `recv_batch`
    -- that succeeds reports at least one datagram, and the batch holds as many as it reports. A
    -- `recv_from` that succeeds has written as many bytes as it reports to the front of the buffer,
    -- and one that fails has not touched it.
    pub recv_operations-Ends :
        (fuel : ℕ) (s : BingerUdp) (b : RecvBatchRaw) (buf : List ℕ) (w : World)
        → IsValid b
        → AreShort b
        → length buf < 65536
        → ((r : IoResult ℕ) × (b' : RecvBatchRaw) × (t : BingerUdp) × (v : World) × (try_recv_batch
                env s b w
              ≡ val (r, b', t, v))
            × Kept b b'
            × Reported b' r)
          × Returns (Ends b) (recv_batch env fuel s b w)
          × Returns (AfterRecvFrom buf) (recv_from env fuel s buf w)
    unfolding try_recv_batch
    recv_operations-Ends fuel s b buf w valid short small =
        let (r, b', v, got, kept, reported) = contract.receives s.fd b w valid short in
        (
          (r, b', after_platform_recv s r, v, rw got refl, kept, reported),
          recv_batch-Ends fuel b b s w valid short refl,
          recv_from-Copied fuel s buf w small,
        )

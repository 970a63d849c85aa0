-- ===== src/Examples/Select/Turns.antt =====
-- examples/select.rs: what one turn of the loop does.
use binger_udp.Base.{
  ℕ, zero, suc, ◌+◌, ◌%◌, ◌^◌, ◌<◌, ◌≡◌, refl, ap, sym, subst, true, false, ◌==◌, inl, inr, ◌⊎◌,
  List, [], ◌∷◌, map, length, replicate, length-replicate, length-map, val, arith,
}
use binger_udp.Error.{IoError, IoResult, ok, err}
use binger_udp.Net.{SocketAddr, Slice}
use binger_udp.Batch.Send.{clear_all, is_empty}
use binger_udp.Batch.Recv.{
  RecvBatchRaw, RecvSlot, All, with_capacity, clear, reset_slot, fresh_slot,
}
use binger_udp.Batch.Recv.Slots.{with_capacity-IsValid, clear-IsValid}
use binger_udp.Batch.Recv.Client.{iter-datagrams}
use binger_udp.Batch.Typed.{RecvBatch}
use binger_udp.Batch.Typed
use binger_udp.Socket.{BingerUdp, Env, send_batch, recv_batch}
use binger_udp.Socket.Contract.{Contract, Returns}
use binger_udp.Socket.Contract.Waking.{
  WakesUp, IsFillable, Kept-IsFillable, send_batch-Wakes, recv_batch-Wakes,
}
use binger_udp.Socket.Contract.Receiving.{Ends, recv_batch-Ends}
use binger_udp.Examples.Select.{Loop, on_readable, on_writable, select, after_wait, drain}
use binger_udp.Examples.Select.Filling.{HasFilled, clear_all-HasFilled}

short_replicate :
    (n size : ℕ) (s : RecvSlot)
    → length s.buf ≡ size
    → size < 65536
    → All (λ n. n < 65536) (map (λ (t : RecvSlot). length t.buf) (replicate n s))
short_replicate zero size s h small = tt
short_replicate (suc n) size s h small = (omega arith, short_replicate n size s h small)

pub new-IsFillable : (n size : ℕ) → 0 < n → size < 65536 → IsFillable (with_capacity n size)
unfolding with_capacity
new-IsFillable n size some_slot small = record {
  valid = with_capacity-IsValid n size;
  short = short_replicate n size (fresh_slot size) (length-replicate size 0) small;
  some_slot = omega (arith, some_slot, length-replicate n (fresh_slot size));
}

same_sizes :
    (ss : List RecvSlot)
    → map (λ (t : RecvSlot). length t.buf) (map reset_slot ss)
      ≡ map (λ (t : RecvSlot). length t.buf) ss
same_sizes [] = refl
same_sizes (s ∷ ss) = ap (λ l. length s.buf ∷ l) (same_sizes ss)

clear-IsFillable : (b : RecvBatchRaw) → IsFillable b → IsFillable (clear b)
unfolding clear
clear-IsFillable b h = record {
  valid = clear-IsValid b;
  short = subst (All (λ n. n < 65536)) (sym (same_sizes b.slots)) h.short;
  some_slot = omega (arith, h.some_slot, length-map reset_slot b.slots);
}

-- The loop before a turn: the send batch is full.
pub record IsPrepared {W : Type 0} (l : Loop W) : Type 0 where
  pub full : HasFilled 8 l.sending
  pub usable : IsFillable l.receiving.raw
  pub early : l.iteration < 3

module _ (env : Env) (sleep : env.World → env.World) (fuel : ℕ) (msg : ℕ → ℕ → Slice)
    (recv_addr : SocketAddr) (contract : Contract env) where
  open env use {World}

  module _ (k : ℕ) (wakes : WakesUp env k) (enough : k + 1 < fuel) where
    received_usable :
        (s : BingerUdp) (b : RecvBatchRaw) (w : World)
        → IsFillable b
        → (r : IoResult ℕ) × (b' : RecvBatchRaw) × (s' : BingerUdp) × (w' : World) × (recv_batch env
              fuel s b w
            ≡ val (r, b', s', w'))
          × IsFillable b'
    received_usable s b w fillable =
        let ((r, b', s', w'), run) =
          recv_batch-Wakes env contract k wakes fuel s b w fillable enough in
        let (kept, held) =
          subst (Returns (Ends env contract b)) run
            (recv_batch-Ends env contract fuel b b s w fillable.valid fillable.short refl) in
        (r, b', s', w', run, Kept-IsFillable b b' kept fillable)

    pub drain-Ends :
        (l : Loop World)
        → IsFillable l.receiving.raw
        → (r : IoResult (Unit {0})) × (drain env sleep fuel msg recv_addr l ≡ val r)
    unfolding drain
    drain-Ends l usable = waited (env.wait_readable (sleep l.world))
      where
        waited :
            (p : IoResult (Unit {0}) × World)
            → (r : IoResult (Unit {0})) × (after_wait env sleep fuel msg recv_addr p l ≡ val r)
        waited (ok u, w) =
            let (r, b, s, v, run, rest) = received_usable l.receiver l.receiving.raw w usable in
            (ok tt, rw run refl)
        waited (err e, w) = (ok tt, refl)

    -- A turn that sends, which leaves the send batch empty, unless it fails.
    pub sending_turn :
        (l : Loop World)
        → IsPrepared l
        → l.waiting_for_recv ≡ false
        → ((e : IoError) × (select env sleep fuel msg recv_addr l ≡ val (err e)))
          ⊎ ((l' : Loop World) × (select env sleep fuel msg recv_addr l ≡ val (ok l'))
              × HasFilled 0 l'.sending
              × IsFillable l'.receiving.raw
              × (l'.iteration ≡ l.iteration + 1)
              × (l'.waiting_for_recv ≡ true))
    unfolding select on_writable is_empty
    sending_turn l p q =
        let w = (env.wait_writable l.world).1 in
        let ((r, s, v), run) =
          send_batch-Wakes env contract k wakes fuel l.sender l.sending.raw w p.full.valid enough in
        let filled : (l.sending.raw.len == 0) ≡ false = ground (arith, p.full.count) in
        after r s v run filled
      where
        after :
            (r : IoResult ℕ) (s : BingerUdp) (v : World)
            → send_batch env fuel l.sender l.sending.raw (env.wait_writable l.world).1
              ≡ val (r, s, v)
            → (l.sending.raw.len == 0) ≡ false
            → ((e : IoError) × (select env sleep fuel msg recv_addr l ≡ val (err e)))
              ⊎ ((l' : Loop World) × (select env sleep fuel msg recv_addr l ≡ val (ok l'))
                  × HasFilled 0 l'.sending
                  × IsFillable l'.receiving.raw
                  × (l'.iteration ≡ l.iteration + 1)
                  × (l'.waiting_for_recv ≡ true))
        after (err e) s v run filled = inl (e, rw (q, filled, run) refl)
        after (ok n) s v run filled = inr (
          record l {
            sender = s;
            world = v;
            sending = clear_all 8 l.sending;
            iteration = (l.iteration + 1) % 2 ^ 32;
            waiting_for_recv = true;
          },
          rw (q, filled, run) refl,
          clear_all-HasFilled 8 l.sending p.full,
          p.usable,
          omega (arith, p.early),
          refl,
        )

    -- A turn that receives, which leaves the send batch full, unless it fails.
    pub receiving_turn :
        (l : Loop World)
        → IsPrepared l
        → l.waiting_for_recv ≡ true
        → ((e : IoError) × (select env sleep fuel msg recv_addr l ≡ val (err e)))
          ⊎ ((l' : Loop World) × (select env sleep fuel msg recv_addr l ≡ val (ok l'))
              × IsPrepared l'
              × (l'.iteration ≡ l.iteration)
              × (l'.waiting_for_recv ≡ false))
    unfolding select on_readable Typed.clear
    receiving_turn l p q =
        let (r, b, s, v, run, usable) =
          received_usable l.receiver l.receiving.raw (env.wait_readable l.world).1 p.usable in
        after r b s v run usable
      where
        after :
            (r : IoResult ℕ) (b : RecvBatchRaw) (s : BingerUdp) (v : World)
            → recv_batch env fuel l.receiver l.receiving.raw (env.wait_readable l.world).1
              ≡ val (r, b, s, v)
            → IsFillable b
            → ((e : IoError) × (select env sleep fuel msg recv_addr l ≡ val (err e)))
              ⊎ ((l' : Loop World) × (select env sleep fuel msg recv_addr l ≡ val (ok l'))
                  × IsPrepared l'
                  × (l'.iteration ≡ l.iteration)
                  × (l'.waiting_for_recv ≡ false))
        after (err e) b s v run usable = inl (e, rw (q, run) refl)
        after (ok n) b s v run usable = inr (
          record l {
            receiving = record { raw = clear b };
            receiver = s;
            world = v;
            waiting_for_recv = false;
          },
          rw (q, run, iter-datagrams b usable.valid) refl,
          record { full = p.full; usable = clear-IsFillable b usable; early = p.early },
          refl,
          refl,
        )

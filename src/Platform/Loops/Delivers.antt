-- ===== src/Platform/Loops/Delivers.antt =====
-- The receive loop: which datagrams the batch holds when it stops.
use mathlib.Core.Path.{ap₂}
use native.Mathlib.Nat.{zero-add}
use binger_udp.Base.{
  ℕ, suc, ◌%◌, ◌≤◌, ◌<◌, ◌≡◌, refl, ap, inl, inr, Option, none, some, List, [], ◌∷◌, map, take,
  length, if◌then◌else◌, ◌==◌, arith, val, sym, subst, ◌∙◌, drop,
}
use binger_udp.Error.{IoError, IoResult, ok, err}
use binger_udp.Net.{SocketAddr}
use binger_udp.Batch.Recv.{RecvSlot, RecvBatchRaw, datagram, Fits, All, IsValid}
use binger_udp.Platform.Loops.{Got, recv_loop}
use binger_udp.Platform.Loops.Pass.{
  batch, filled, got_cases, Pass, pass_on, pass, result, recv_loop-pass,
}

module _ {W : Type 0} (one : List ℕ → W → Got W) where
  -- The kernel delivers datagrams into the buffers, one after the other.
  pub data Delivered : W → List (List ℕ) → List (List ℕ × SocketAddr) → W → Type 0 where
    nothing : {w : W} → Delivered w [] [] w
    each :
        {w v u : W} {buf buf' : List ℕ} {bufs : List (List ℕ)} {ds : List (List ℕ × SocketAddr)}
        {m : ℕ} {a : SocketAddr}
        → one buf w ≡ (ok (m, a), buf', v)
        → Delivered v bufs ds u
        → Delivered w (buf ∷ bufs) ((take m buf', a) ∷ ds) u

  -- Why the loop stops, with those slots left: there are none, or the next call fails.
  pub data Stops : List RecvSlot → W → Option IoError → W → Type 0 where
    full : {u : W} → Stops [] u none u
    error :
        {u v : W} {s : RecvSlot} {ss : List RecvSlot} {x : IoError} {buf : List ℕ}
        → one s.buf u ≡ (err x, buf, v)
        → Stops (s ∷ ss) u (some x) v

  abbrev pub bufs_of : List RecvSlot → List (List ℕ)
  bufs_of = map (λ s. s.buf)

  -- What a pass has done to the slots `ss`.
  pub record Passed (ss : List RecvSlot) (w : W) (p : Pass one) : Type 0 where
    pub middle : W
    pub delivered : Delivered w (bufs_of (take p.2 ss)) (map datagram (take p.2 p.1)) middle
    pub stops : Stops (drop p.2 ss) middle p.0 p.3
    pub fits : All Fits p.1
    pub same_slots : length p.1 ≡ length ss
    pub same_sizes : map (λ s. length s.buf) p.1 ≡ map (λ s. length s.buf) ss
    pub within : p.2 ≤ length ss

  -- `recvfrom` as documented: it writes inside the buffer, and returns how much of it it wrote.
  pub record RecvfromLaw : Type 0 where
    pub keeps_size :
        (buf buf' : List ℕ) (r : IoResult (ℕ × SocketAddr)) (w v : W)
        → one buf w ≡ (r, buf', v)
        → length buf' ≡ length buf
    pub in_buffer :
        (buf buf' : List ℕ) (m : ℕ) (a : SocketAddr) (w v : W)
        → one buf w ≡ (ok (m, a), buf', v)
        → m ≤ length buf

  -- The buffer is short enough for `recv_len`.
  abbrev pub Small : RecvSlot → Type 0
  Small s = length s.buf < 65536

  module _ (law : RecvfromLaw) where
    Passed-ok :
        (s : RecvSlot) (ss : List RecvSlot) (w v : W) (m : ℕ) (a : SocketAddr) (buf : List ℕ)
        (p : Pass one)
        → one s.buf w ≡ (ok (m, a), buf, v)
        → Small s
        → Passed ss v p
        → Passed (s ∷ ss) w (pass_on one (filled s buf m a) p)
    Passed-ok s ss w v m a buf p got small rest =
        let size = law.keeps_size s.buf buf (ok (m, a)) w v got in
        let bound = law.in_buffer s.buf buf m a w v got in
        let whole : m % 65536 ≡ m = omega arith in
        record {
          middle = rest.middle;
          delivered =
              subst
                (λ n.
                  Delivered w (s.buf ∷ bufs_of (take p.2 ss))
                    ((take n buf, a) ∷ map datagram (take p.2 p.1)) rest.middle)
                (sym whole) (Delivered.each got rest.delivered);
          stops = rest.stops;
          fits = (omega arith, rest.fits);
          same_slots = ap suc rest.same_slots;
          same_sizes = ap₂ (λ n l. n ∷ l) size rest.same_sizes;
          within = omega (arith, rest.within);
        }

    Fits-err :
        (s : RecvSlot) (w v : W) (x : IoError) (buf : List ℕ)
        → one s.buf w ≡ (err x, buf, v)
        → Fits s
        → Fits (record s { buf = buf })
    Fits-err s w v x buf got fit = omega (arith, law.keeps_size s.buf buf (err x) w v got)

    pub pass-Passed :
        (ss : List RecvSlot) (w : W) → All Fits ss → All Small ss → Passed ss w (pass one ss w)
    unfolding pass
    pass-Passed [] w f sm = record {
      middle = w;
      delivered = Delivered.nothing;
      stops = Stops.full;
      fits = tt;
      same_slots = refl;
      same_sizes = refl;
      within = omega arith;
    }
    pass-Passed (s ∷ ss) w f sm = elim (got_cases one (one s.buf w)) [
      | inl (m, a, buf, v, p) ↦
          rw (p, pass)
            (Passed-ok s ss w v m a buf (pass one ss v) p sm.0 (pass-Passed ss v f.1 sm.1))
      | inr (x, buf, v, p) ↦
          rw (p, pass)
            (record {
              middle = w;
              delivered = Delivered.nothing;
              stops = Stops.error p;
              fits = (Fits-err s w v x buf p f.0, f.1);
              same_slots = refl;
              same_sizes =
                  ap (λ n. n ∷ map (λ t. length t.buf) ss) (law.keeps_size s.buf buf (err x) w v p);
              within = omega arith;
            })
    ]

    -- The loop over all slots of a valid batch does not panic. It leaves a valid batch of the same
    -- slots; the first ones, as many as the kernel delivered datagrams, hold these datagrams, and
    -- their number is the new length unless it is zero, when the length stays.
    pub recv_loop-Passed :
        (b : RecvBatchRaw) (w : W)
        → IsValid b
        → All Small b.slots
        → (p : Pass one) × (recv_loop one (length b.slots) 0 0 b w
            ≡ val (result one p.0 p.2, batch p.1 (if p.2 == 0 then b.len else p.2), p.3))
          × Passed b.slots w p
          × IsValid (batch p.1 (if p.2 == 0 then b.len else p.2))
    recv_loop-Passed b w v small =
        let p = pass one b.slots w in
        let passed : Passed b.slots w p = pass-Passed b.slots w v.fit small in
        (
          p,
          recv_loop-pass one b.slots [] 0 0 b.len w refl
              ∙ ap (λ n. val (result one p.0 n, batch p.1 (if p.2 == 0 then b.len else n), p.3))
                  (zero-add p.2),
          passed,
          record {
            within = ground (arith, passed.within, passed.same_slots, v.within);
            fit = passed.fits;
          },
        )

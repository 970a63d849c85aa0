-- ===== src/Platform/Loops/Pass.antt =====
-- The receive loop over the slots of a batch is a pass over the list of the slots.
use mathlib.Core.List.{append_assoc}
use binger_udp.Base.{
  ℕ, suc, ◌+◌, ◌%◌, ◌≡◌, refl, ap, inl, inr, ◌⊎◌, Option, none, some, List, [], ◌∷◌, ◌++◌, set,
  length, get_elem?, if◌then◌else◌, ◌==◌, arith, Run, val, length-append,
}
use binger_udp.Error.{IoError, IoResult, ok, err, is_would_block}
use binger_udp.Net.{SocketAddr}
use binger_udp.Batch.Recv.{
  RecvSlot, RecvBatchRaw, slot_mut, buffer_mut, write_buf, write_addr, set_recv_len, set_len,
}
use binger_udp.Platform.Loops.{Got, after_recv, recv_loop}

-- Reading and writing just behind a prefix.
pub get_elem?-middle :
    (pre : List RecvSlot) (s : RecvSlot) (post : List RecvSlot)
    → get_elem? (pre ++ s ∷ post) (length pre) ≡ some s
get_elem?-middle [] s post = refl
get_elem?-middle (x ∷ pre) s post = get_elem?-middle pre s post

pub set-middle :
    (pre : List RecvSlot) (s t : RecvSlot) (post : List RecvSlot)
    → set (pre ++ s ∷ post) (length pre) t ≡ pre ++ t ∷ post
set-middle [] s t post = refl
set-middle (x ∷ pre) s t post = ap (λ l. x ∷ l) (set-middle pre s t post)

abbrev pub batch : List RecvSlot → ℕ → RecvBatchRaw
batch slots l = record { slots = slots; len = l }

-- What a received datagram makes of its slot.
abbrev pub filled : RecvSlot → List ℕ → ℕ → SocketAddr → RecvSlot
filled s buf m a = record s { buf = buf; addr = a; recv_len = m % 65536 }

pub slot_mut-middle :
    (pre : List RecvSlot) (s : RecvSlot) (post : List RecvSlot) (l : ℕ) (f : RecvSlot → RecvSlot)
    → slot_mut (batch (pre ++ s ∷ post) l) (length pre) f ≡ val (batch (pre ++ f s ∷ post) l)
unfolding slot_mut
slot_mut-middle pre s post l f = rw (get_elem?-middle pre s post, set-middle pre s (f s) post)

module _ {W : Type 0} (one : List ℕ → W → Got W) where
  pub got_cases :
      (g : Got W)
      → ((m : ℕ) × (a : SocketAddr) × (buf : List ℕ) × (v : W) × (g ≡ (ok (m, a), buf, v)))
        ⊎ ((x : IoError) × (buf : List ℕ) × (v : W) × (g ≡ (err x, buf, v)))
  got_cases (ok (m, a), buf, v) = inl (m, a, buf, v, refl)
  got_cases (err x, buf, v) = inr (x, buf, v, refl)

  -- The loop over a list of slots: the error that stopped it, the slots afterwards, the number
  -- of datagrams and the world.
  abbrev pub Pass : Type 0
  Pass = Option IoError × List RecvSlot × ℕ × W

  abbrev pub pass_on : RecvSlot → Pass → Pass
  pass_on s p = (p.0, s ∷ p.1, suc p.2, p.3)

  abbrev pub after_got : Got W → RecvSlot → List RecvSlot → (W → Pass) → Pass
  after_got (ok (m, a), buf, v) s ss next = pass_on (filled s buf m a) (next v)
  after_got (err x, buf, v) s ss next = (some x, record s { buf = buf } ∷ ss, 0, v)

  unfoldable pub pass : List RecvSlot → W → Pass
  pass [] w = (none, [], 0, w)
  pass (s ∷ ss) w = after_got (one s.buf w) s ss (λ v. pass ss v)

  -- What the loop returns for an error that stopped it, or for none.
  abbrev pub result : Option IoError → ℕ → IoResult ℕ
  result none n = ok n
  result (some x) n = if is_would_block x then ok n else err x

  abbrev pub outcome : List RecvSlot → ℕ → ℕ → ℕ → Pass → IoResult ℕ × RecvBatchRaw × W
  outcome pre i received l p =
      (result p.0 (received + p.2), batch (pre ++ p.1) (if p.2 == 0 then l else i + p.2), p.3)

  triple :
      {n m : ℕ} {ss ts : List RecvSlot} {l j : ℕ} (stop : Option IoError) (v : W)
      → n ≡ m
      → ss ≡ ts
      → l ≡ j
      → ◌≡◌ {A = IoResult ℕ × RecvBatchRaw × W}
          (result stop n, batch ss l, v)
          (result stop m, batch ts j, v)
  triple stop v p q r = λ i. (result stop (p i), batch (q i) (r i), v)

  outcome_on :
      (pre : List RecvSlot) (s : RecvSlot) (i received l : ℕ) (p : Pass)
      → outcome (pre ++ s ∷ []) (i + 1) (received + 1) (i + 1) p
        ≡ outcome pre i received l (pass_on s p)
  outcome_on pre s i received l (stop, ss, n, v) =
      triple stop v (omega arith) (append_assoc pre (s ∷ []) ss) (ground arith)

  -- The slot at the end of a prefix, after a datagram and after an error.
  after_recv-ok :
      (pre : List RecvSlot) (s : RecvSlot) (ss : List RecvSlot) (received l m : ℕ) (a : SocketAddr)
      (buf : List ℕ) (v : W) (next : RecvBatchRaw → W → Run (IoResult ℕ × RecvBatchRaw × W))
      → after_recv (ok (m, a), buf, v) (length pre) received (batch (pre ++ s ∷ ss) l) next
        ≡ next (batch (pre ++ filled s buf m a ∷ ss) (length pre + 1)) v
  unfolding after_recv write_buf set_recv_len write_addr set_len
  after_recv-ok pre s ss received l m a buf v next = simp slot_mut-middle

  after_recv-err :
      (pre : List RecvSlot) (s : RecvSlot) (ss : List RecvSlot) (received l : ℕ) (x : IoError)
      (buf : List ℕ) (v : W) (next : RecvBatchRaw → W → Run (IoResult ℕ × RecvBatchRaw × W))
      → after_recv (err x, buf, v) (length pre) received (batch (pre ++ s ∷ ss) l) next
        ≡ val (result (some x) received, batch (pre ++ record s { buf = buf } ∷ ss) l, v)
  unfolding after_recv write_buf
  after_recv-err pre s ss received l x buf v next = simp slot_mut-middle

  buffer_mut-middle :
      (pre : List RecvSlot) (s : RecvSlot) (ss : List RecvSlot) (l : ℕ)
      → buffer_mut (batch (pre ++ s ∷ ss) l) (length pre) ≡ val (s.buf, s.addr)
  unfolding buffer_mut
  buffer_mut-middle pre s ss l = rw (get_elem?-middle pre s ss)

  pub recv_loop-pass :
      (ss pre : List RecvSlot) (i received l : ℕ) (w : W)
      → i ≡ length pre
      → recv_loop one (length ss) i received (batch (pre ++ ss) l) w
        ≡ val (outcome pre i received l (pass ss w))
  unfolding recv_loop pass
  recv_loop-pass [] pre i received l w h =
      ap (λ n. val (ok n, batch (pre ++ []) l, w)) (omega arith)
  recv_loop-pass (s ∷ ss) pre i received l w h = elim (got_cases (one s.buf w)) [
    | inl (m, a, buf, v, p) ↦ rw (
      h,
      buffer_mut-middle pre s ss l,
      p,
      after_recv-ok pre s ss received l m a buf v,
      ← append_assoc pre (filled s buf m a ∷ []) ss,
      recv_loop-pass ss (pre ++ filled s buf m a ∷ []) (length pre + 1) (received + 1)
          (length pre + 1) v (omega (arith, length-append pre (filled s buf m a ∷ []))),
      outcome_on pre (filled s buf m a) (length pre) received l (pass ss v),
    )
    | inr (x, buf, v, p) ↦
        rw (h, buffer_mut-middle pre s ss l, p, after_recv-err pre s ss received l x buf v)
          (ap (λ n. val (result (some x) n, batch (pre ++ record s { buf = buf } ∷ ss) l, v))
            (omega arith))
  ]

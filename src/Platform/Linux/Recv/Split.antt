-- ===== src/Platform/Linux/Recv/Split.antt =====
-- src/platform/linux.rs: the loop that splits a coalesced datagram, as a function on lists.
use mathlib.Core.Path.{ap₂}
use mathlib.Core.List.{append_assoc}
use binger_udp.Base.{
  ℕ, zero, suc, ◌+◌, ◌-◌, ◌%◌, ◌≤◌, ◌<◌, ◌≡◌, refl, ◌∙◌, ap, sym, some, List, [], ◌∷◌, ◌++◌, take,
  drop, min, length, get_elem?, le→leb, lt→leb, ◌>>=◌, val, arith, length-append, length-take, inl,
  inr,
}
use binger_udp.Net.{SocketAddr}
use binger_udp.Batch.Recv.{RecvSlot, RecvBatchRaw, set_recv_len}
use binger_udp.Platform.Loops.Pass.{batch, slot_mut-middle, get_elem?-middle}
use binger_udp.Platform.Linux.Recv.{put_segment, after_segment, split}
use binger_udp.Platform.Linux.Recv.Chunks.{chunks, take_segment, drop_segment, drop_cases}
use binger_udp.Platform.Linux.Recv.Segment.{
  segment_slot, put, get_elem?-before, put_segment-middle, Room,
}

pub split_round :
    (xs : List ℕ) (g : ℕ) (a : SocketAddr) (first fuel c o : ℕ) (b b' : RecvBatchRaw)
    → o < length xs
    → put_segment (take g (drop o xs)) a first c b ≡ val (some b')
    → split xs g a first (suc fuel) c o b
      ≡ split xs g a first fuel (c + 1) (min (o + g) (length xs)) b'
unfolding split
split_round xs g a first fuel c o b b' inside q = rw (lt→leb _ _ inside) (
    ap
      (λ z. z >>= λ step.
        after_segment step c b (split xs g a first fuel (c + 1) (min (o + g) (length xs))))
      (ap (λ x. put_segment x a first c b) (take_segment o g xs) ∙ q))

pub split-put :
    (fuel k o l g : ℕ) (xs : List ℕ) (a : SocketAddr) (first : ℕ) (pre : List RecvSlot)
    (s : RecvSlot) (ts : List RecvSlot)
    → 0 < g
    → first + suc k ≡ length pre
    → get_elem? pre first ≡ some s
    → Room g ts
    → length (chunks fuel g (drop o xs)) ≤ length ts
    → length xs - o < fuel
    → split xs g a first fuel (suc k) o (batch (pre ++ ts) l)
      ≡ val (
        suc k + length (chunks fuel g (drop o xs)),
        batch (pre ++ put s a (chunks fuel g (drop o xs)) ts) l,
      )
unfolding split
split-put zero k o l g xs a first pre s ts pos h here room le enough = elim enough [ ]
split-put (suc fuel) k o l g xs a first pre s [] pos h here room le enough =
    elim (drop_cases o xs) [
      | inl (p, past) ↦
          rw (p, le→leb _ _ past) (ap (λ n. val (n, batch (pre ++ []) l)) (omega arith))
      | inr (y, ys, p, inside) ↦ absurd (omega (arith, rw p at le))
    ]
split-put (suc fuel) k o l g xs a first pre s (t ∷ ts) pos h here room le enough =
    elim (drop_cases o xs) [
      | inl (p, past) ↦
          rw (p, le→leb _ _ past) (ap (λ n. val (n, batch (pre ++ t ∷ ts) l)) (omega arith))
      | inr (y, ys, p, inside) ↦
          let seg = take g (drop o xs) in
          let next = min (o + g) (length xs) in
          let pre' = pre ++ segment_slot s a seg t ∷ [] in
          let segs = chunks fuel g (drop next xs) in
          let fits : length seg ≤ length t.buf = omega (arith, length-take g (drop o xs), room.0) in
          let cut : chunks (suc fuel) g (drop o xs) ≡ seg ∷ segs =
            rw (drop_segment o g xs, p) refl in
          let one_more : suc k + 1 ≡ suc (suc k) = omega arith in
          let counted : suc (suc k) + length segs ≡ suc k + length (seg ∷ segs) = omega arith in
          let rest =
            split-put fuel (suc k) next l g xs a first pre' s ts pos
              (omega (arith, length-append pre (segment_slot s a seg t ∷ []), h))
              (get_elem?-before pre (segment_slot s a seg t ∷ []) first s here) room.1
              (omega (arith, ap length cut, le)) (omega arith) in
          split_round xs g a first fuel (suc k) o (batch (pre ++ t ∷ ts) l)
            (batch (pre ++ segment_slot s a seg t ∷ ts) l) inside
            (put_segment-middle seg a first k l pre s t ts h here fits)
          ∙ ap₂ (λ n ss. split xs g a first fuel n next (batch ss l)) one_more
              (sym (append_assoc pre (segment_slot s a seg t ∷ []) ts))
          ∙ rest
          ∙ ap₂ (λ n ss. val (n, batch ss l)) counted
              (append_assoc pre (segment_slot s a seg t ∷ []) (put s a segs ts))
          ∙ ap (λ zs. val (suc k + length zs, batch (pre ++ put s a zs (t ∷ ts)) l)) (sym cut)
    ]

-- The slots after a split, the first of which holds the coalesced bytes.
abbrev pub spread : RecvSlot → SocketAddr → List (List ℕ) → List RecvSlot → List RecvSlot
spread s a [] ts = s ∷ ts
spread s a (x ∷ xs) ts =
    let s' : RecvSlot = record s { recv_len = length x % 65536 } in s' ∷ put s' a xs ts

pub first_segment :
    (x : List ℕ) (a : SocketAddr) (l : ℕ) (pre : List RecvSlot) (s : RecvSlot) (ts : List RecvSlot)
    → put_segment x a (length pre) 0 (batch (pre ++ s ∷ ts) l)
      ≡ val (some (batch (pre ++ record s { recv_len = length x % 65536 } ∷ ts) l))
unfolding put_segment set_recv_len
first_segment x a l pre s ts =
    rw (slot_mut-middle pre s ts l (λ t. record t { recv_len = length x % 65536 })) refl

pub split-spread :
    (fuel l g : ℕ) (xs : List ℕ) (a : SocketAddr) (pre : List RecvSlot) (s : RecvSlot)
    (ts : List RecvSlot)
    → 0 < g
    → 0 < length xs
    → Room g ts
    → length (chunks (suc fuel) g xs) ≤ suc (length ts)
    → length xs ≤ fuel
    → split xs g a (length pre) (suc fuel) 0 0 (batch (pre ++ s ∷ ts) l)
      ≡ val
          (length (chunks (suc fuel) g xs), batch (pre ++ spread s a (chunks (suc fuel) g xs) ts) l)
split-spread fuel l g [] a pre s ts pos some_bytes room le enough = elim some_bytes [ ]
split-spread fuel l g (x ∷ xs) a pre s ts pos some_bytes room le enough =
    let ys = x ∷ xs in
    let seg = take g ys in
    let next = min (0 + g) (length ys) in
    let s' : RecvSlot = record s { recv_len = length seg % 65536 } in
    let segs = chunks fuel g (drop next ys) in
    let cut : segs ≡ chunks fuel g (drop g ys) = ap (chunks fuel g) (drop_segment 0 g ys) in
    let counted : 1 + length segs ≡ length (seg ∷ segs) = omega arith in
    split_round ys g a (length pre) fuel 0 0 (batch (pre ++ s ∷ ts) l) (batch (pre ++ s' ∷ ts) l)
      some_bytes (first_segment seg a l pre s ts)
    ∙ ap (λ ss. split ys g a (length pre) fuel 1 next (batch ss l))
        (sym (append_assoc pre (s' ∷ []) ts))
    ∙ split-put fuel 0 next l g ys a (length pre) (pre ++ s' ∷ []) s' ts pos
        (omega (arith, length-append pre (s' ∷ []))) (get_elem?-middle pre s' []) room
        (omega (arith, ap length cut, le)) (omega arith)
    ∙ ap₂ (λ n ss. val (n, batch ss l)) counted (append_assoc pre (s' ∷ []) (put s' a segs ts))
    ∙ ap (λ zs. val (length (seg ∷ zs), batch (pre ++ s' ∷ put s' a zs ts) l)) cut

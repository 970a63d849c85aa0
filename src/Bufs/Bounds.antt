-- ===== src/Bufs/Bounds.antt =====
-- src/bufs.rs: what the clients of a pool may rely on.
use binger_udp.Base.{
  ℕ, ◌≤◌, ◌<◌, ◌≡◌, refl, inl, inr, Option, none, some, List, [], ◌∷◌, leb, length, replicate,
  Bool-cases, arith, length-append, val,
}
use binger_udp.Bufs.{Buffers, Queues, BufferPool, Memory, new}
use binger_udp.Bufs.Refine.{
  Op, get_op, put_op, clone_op, Seen, spec_put, spec_run, run, pool_refines,
}

module _ (u : Buffers) where
  open u use {BytesMut}

  -- A buffer handed out has no bytes, or is new: `size` zeros.
  pub data Clean (size : ℕ) : Option BytesMut → Type 0 where
    no_buffer : Clean size none
    recycled : (b : BytesMut) → u.contents b ≡ [] → Clean size (some b)
    zeroed : (b : BytesMut) → u.contents b ≡ replicate size 0 → Clean size (some b)

  pub record IsBounded (n size : ℕ) (r : Seen u) : Type 0 where
    pub within : r.available ≤ r.capacity
    pub capacity_kept : r.capacity ≡ n
    pub clean : Clean size r.buffer

  pub data AllBounded (n size : ℕ) : List (Seen u) → Type 0 where
    nothing : AllBounded n size []
    each :
        {r : Seen u} {rs : List (Seen u)}
        → IsBounded n size r
        → AllBounded n size rs
        → AllBounded n size (r ∷ rs)

  length-spec_put :
      (n : ℕ) (xs : List BytesMut) (b : BytesMut) → length xs ≤ n → length (spec_put u n xs b) ≤ n
  length-spec_put n xs b h = elim (Bool-cases (leb n (length xs))) [
    | inl full ↦ rw full h
    | inr room ↦ rw room (ground (arith, length-append xs (b ∷ [])))
  ]

  spec_run-AllBounded :
      (n size : ℕ) (xs : List BytesMut) (ops : List (Op u))
      → length xs ≤ n
      → AllBounded n size (spec_run u n size xs ops)
  unfolding spec_run
  spec_run-AllBounded n size xs [] h = nothing
  spec_run-AllBounded n size [] (get_op ∷ ops) h =
      each
        (record {
          within = h;
          capacity_kept = refl;
          clean = zeroed (u.zeroed size) (u.contents-zeroed size);
        })
        (spec_run-AllBounded n size [] ops h)
  spec_run-AllBounded n size (x ∷ xs) (get_op ∷ ops) h =
      each
        (record {
          within = omega arith;
          capacity_kept = refl;
          clean = recycled (u.clear x) (u.contents-clear x);
        })
        (spec_run-AllBounded n size xs ops (omega arith))
  spec_run-AllBounded n size xs (put_op b ∷ ops) h =
      let fits = length-spec_put n xs b h in
      each (record { within = fits; capacity_kept = refl; clean = no_buffer })
        (spec_run-AllBounded n size (spec_put u n xs b) ops fits)
  spec_run-AllBounded n size xs (clone_op ∷ ops) h =
      each (record { within = h; capacity_kept = refl; clean = no_buffer })
        (spec_run-AllBounded n size xs ops h)

-- A new pool for `n > 0` buffers of `size` bytes: after every call of a sequence of gets, puts and
-- clones, none of which panics, `available` is at most `capacity`, `capacity` is `n`, and a buffer
-- that `get` hands out has no bytes or is new with `size` zeros.
pub run-AllBounded :
    (u : Buffers) (s : Queues u.BytesMut) (n size : ℕ) (m : Memory u s) (ops : List (Op u))
    → 0 < n
    → (p : BufferPool) × (m₁ m₂ : Memory u s) × (rs : List (Seen u)) × (new u s n size m
        ≡ val (p, m₁))
      × (run u s p m₁ ops ≡ val (rs, m₂))
      × AllBounded u n size rs
run-AllBounded u s n size m ops some_room =
    let (p, m₁, m₂, made, shown, others) = pool_refines u s n size m ops some_room in
    (
      p,
      m₁,
      m₂,
      spec_run u n size [] ops,
      made,
      shown,
      spec_run-AllBounded u n size [] ops (omega arith),
    )

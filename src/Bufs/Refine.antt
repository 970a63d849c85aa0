-- ===== src/Bufs/Refine.antt =====
-- src/bufs.rs: a pool and its clones are one bounded queue, oldest first.
use binger_udp.Base.{
  ℕ, ◌<◌, ◌≡◌, ◌≢◌, refl, sym, ◌∙◌, inl, inr, Option, none, some, List, [], ◌∷◌, ◌++◌, leb, length,
  get_elem?, set, if◌then◌else◌, Bool-cases, leb→le, arith, get_elem?-set_self, get_elem?-set_ne,
  lt_of_get_elem?, get_elem?-end, get_elem?-append, Run, val, ◌>>=◌,
}
use binger_udp.Bufs.{Buffers, Queues, BufferPool, Memory, new, get, put, available, capacity, clone}

-- What a client can do to a pool through one of its clones.
pub data Op (u : Buffers) : Type 0 where
  get_op : Op u
  put_op : u.BytesMut → Op u
  clone_op : Op u

-- What is seen after a call: the buffer handed out, if any, and `available` and `capacity`.
pub record Seen (u : Buffers) : Type 0 where
  pub buffer : Option (u.BytesMut)
  pub available : ℕ
  pub capacity : ℕ

module _ (u : Buffers) where
  open u use {BytesMut}

  -- The specification: a list of at most `cap` buffers.
  abbrev pub spec_put : ℕ → List BytesMut → BytesMut → List BytesMut
  spec_put cap xs b = if leb cap (length xs) then xs else xs ++ b ∷ []

  abbrev pub spec_get : ℕ → List BytesMut → BytesMut × List BytesMut
  spec_get size [] = (u.zeroed size, [])
  spec_get size (x ∷ xs) = (u.clear x, xs)

  abbrev pub spec_seen : ℕ → Option BytesMut → List BytesMut → Seen u
  spec_seen cap o xs = record { buffer = o; available = length xs; capacity = cap }

  unfoldable pub spec_run : ℕ → ℕ → List BytesMut → List (Op u) → List (Seen u)
  spec_run cap size xs [] = []
  spec_run cap size xs (get_op ∷ ops) =
      let (b, xs') = spec_get size xs in spec_seen cap (some b) xs' ∷ spec_run cap size xs' ops
  spec_run cap size xs (put_op b ∷ ops) =
      let xs' = spec_put cap xs b in spec_seen cap none xs' ∷ spec_run cap size xs' ops
  spec_run cap size xs (clone_op ∷ ops) = spec_seen cap none xs ∷ spec_run cap size xs ops

module _ (u : Buffers) (s : Queues u.BytesMut) where
  open u use {BytesMut}

  abbrev seen : BufferPool → Option BytesMut → Memory u s → Run (Seen u)
  seen p o m = do
    n ← available u s p m
    c ← capacity u s p m
    val (record { buffer = o; available = n; capacity = c })

  -- The calls one after the other, each with what is seen after it.
  unfoldable pub run : BufferPool → Memory u s → List (Op u) → Run (List (Seen u) × Memory u s)
  run p m [] = val ([], m)
  run p m (get_op ∷ ops) = do
    (b, m') ← get u s p m
    r ← seen p (some b) m'
    (rs, m'') ← run p m' ops
    val (r ∷ rs, m'')
  run p m (put_op b ∷ ops) = do
    m' ← put u s p b m
    r ← seen p none m'
    (rs, m'') ← run p m' ops
    val (r ∷ rs, m'')
  run p m (clone_op ∷ ops) = do
    r ← seen (clone p) none m
    (rs, m') ← run (clone p) m ops
    val (r ∷ rs, m')

  -- The pool's queue holds `xs` and has room for `cap`.
  pub record Holds (p : BufferPool) (m : Memory u s) (cap : ℕ) (xs : List BytesMut) : Type 0 where
    pub queue : s.ArrayQueue
    pub here : get_elem? m p.pool ≡ some queue
    pub elements : s.elements queue ≡ xs
    pub capacity : s.capacity queue ≡ cap

  -- What a pool's call does to the other pools of the memory.
  abbrev pub Untouched : BufferPool → Memory u s → Memory u s → Type 0
  Untouched p m m' = (i : ℕ) → i ≢ p.pool → get_elem? m' i ≡ get_elem? m i

  Holds-set :
      (p : BufferPool) (m : Memory u s) (cap : ℕ) (xs ys : List BytesMut) (q : s.ArrayQueue)
      → Holds p m cap xs
      → s.elements q ≡ ys
      → s.capacity q ≡ cap
      → Holds p (set m p.pool q) cap ys × Untouched p m (set m p.pool q)
  Holds-set p m cap xs ys q h holds size = (
    record {
      queue = q;
      here = get_elem?-set_self m p.pool q (lt_of_get_elem? m p.pool h.queue h.here);
      elements = holds;
      capacity = size;
    },
    λ i apart. get_elem?-set_ne m p.pool i q (λ e. apart (sym e)),
  )

  seen_lem :
      (p : BufferPool) (m : Memory u s) (cap : ℕ) (xs : List BytesMut) (o : Option BytesMut)
      → Holds p m cap xs
      → seen p o m ≡ val (spec_seen u cap o xs)
  unfolding available capacity
  seen_lem p m cap xs o h = rw (h.here, s.len-elements h.queue, h.elements, h.capacity) refl

  -- `get` hands out the oldest buffer, cleared, or a new one.
  get_refines :
      (p : BufferPool) (m : Memory u s) (cap : ℕ) (xs : List BytesMut)
      → Holds p m cap xs
      → let (b, ys) = spec_get u p.buf_size xs in
        (m' : Memory u s) × (get u s p m ≡ val (b, m')) × Holds p m' cap ys × Untouched p m m'
  unfolding get
  get_refines p m cap [] h =
      let none_left = s.pop-empty h.queue h.elements in
      let (held, apart) = Holds-set p m cap [] [] h.queue h h.elements h.capacity in
      (set m p.pool h.queue, rw (h.here, none_left) refl, held, apart)
  get_refines p m cap (x ∷ xs) h =
      let oldest = s.pop-oldest h.queue x xs h.elements in
      let (held, apart) =
        Holds-set p m cap (x ∷ xs) xs (s.pop h.queue).1 h oldest.1
          (s.capacity-pop h.queue ∙ h.capacity) in
      (set m p.pool (s.pop h.queue).1, rw (h.here, oldest.0) refl, held, apart)

  -- `put` keeps the buffer if there is room, and drops it otherwise.
  put_refines :
      (p : BufferPool) (m : Memory u s) (cap : ℕ) (xs : List BytesMut) (b : BytesMut)
      → Holds p m cap xs
      → (m' : Memory u s) × (put u s p b m ≡ val m')
        × Holds p m' cap (spec_put u cap xs b)
        × Untouched p m m'
  unfolding put
  put_refines p m cap xs b h =
      let (held, apart) =
        Holds-set p m cap xs (spec_put u cap xs b) (s.push h.queue b).1 h pushed
          (s.capacity-push h.queue b ∙ h.capacity) in
      (set m p.pool (s.push h.queue b).1, rw h.here refl, held, apart)
    where
      pushed : s.elements (s.push h.queue b).1 ≡ spec_put u cap xs b
      pushed = elim (Bool-cases (leb cap (length xs))) [
        | inl full ↦
            rw
              (
                full,
                s.push-full h.queue b (rw (h.capacity, h.elements) (leb→le cap (length xs) full)),
              )
              h.elements
        | inr room ↦
            rw (room, ← h.elements)
              (s.push-room h.queue b (rw (h.capacity, h.elements) (ground arith))).1
      ]

  -- A run on a pool that holds `xs` shows what the bounded list shows.
  run-spec_run :
      (ops : List (Op u)) (p : BufferPool) (m : Memory u s) (cap : ℕ) (xs : List BytesMut)
      → Holds p m cap xs
      → (m' : Memory u s) × (run p m ops ≡ val (spec_run u cap p.buf_size xs ops, m'))
        × Untouched p m m'
  unfolding run spec_run clone
  run-spec_run [] p m cap xs h = (m, refl, λ i apart. refl)
  run-spec_run (get_op ∷ ops) p m cap xs h =
      let (m₁, first, held, apart) = get_refines p m cap xs h in
      let (b, ys) = spec_get u p.buf_size xs in
      let (m₂, rest, others) = run-spec_run ops p m₁ cap ys held in
      (
        m₂,
        rw (first, seen_lem p m₁ cap ys (some b) held, rest) refl,
        λ i far. others i far ∙ apart i far,
      )
  run-spec_run (put_op b ∷ ops) p m cap xs h =
      let (m₁, first, held, apart) = put_refines p m cap xs b h in
      let ys = spec_put u cap xs b in
      let (m₂, rest, others) = run-spec_run ops p m₁ cap ys held in
      (
        m₂,
        rw (first, seen_lem p m₁ cap ys none held, rest) refl,
        λ i far. others i far ∙ apart i far,
      )
  run-spec_run (clone_op ∷ ops) p m cap xs h =
      let (m₁, rest, others) = run-spec_run ops p m cap xs h in
      (m₁, rw (seen_lem p m cap xs none h, rest) refl, others)

-- A new pool of at least one buffer shows its clients, under every sequence of gets, puts and
-- clones, exactly what a list of at most `n` buffers shows: `get` hands out the oldest one,
-- cleared, or a zeroed one of `size` bytes, `put` drops the buffer where the list is full, and a
-- clone works on the same list. The pools made before are left as they were.
pub pool_refines :
    (u : Buffers) (s : Queues u.BytesMut) (n size : ℕ) (m : Memory u s) (ops : List (Op u))
    → 0 < n
    → (p : BufferPool) × (m₁ m₂ : Memory u s) × (new u s n size m ≡ val (p, m₁))
      × (run u s p m₁ ops ≡ val (spec_run u n size [] ops, m₂))
      × ((i : ℕ) → i < length m → get_elem? m₂ i ≡ get_elem? m i)
unfolding new
pool_refines u s n size m ops some_room =
    let (q, made, fresh, room) = s.new-some n some_room in
    let p : BufferPool = record { pool = length m; buf_size = size } in
    let (m₂, shown, others) =
      run-spec_run u s ops p (m ++ q ∷ []) n []
        (record { queue = q; here = get_elem?-end m q; elements = fresh; capacity = room }) in
    (
      p,
      m ++ q ∷ [],
      m₂,
      rw made refl,
      shown,
      λ i old. others i (λ e. omega arith) ∙ get_elem?-append m (q ∷ []) i old,
    )

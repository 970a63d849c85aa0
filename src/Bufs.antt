-- ===== src/Bufs.antt =====
-- src/bufs.rs: `BufferPool`, a bounded queue of receive buffers that clones share.
pub mod Refine
pub mod Bounds
use binger_udp.Base.{
  ℕ, ◌+◌, ◌≤◌, ◌<◌, ◌≡◌, Bool, Option, none, some, List, [], ◌∷◌, ◌++◌, length, replicate,
  get_elem?, set, Run, val, panic, ◌>>=◌, or_panic,
}

-- `bytes::BytesMut`, by the bytes that a buffer holds.
pub record Buffers : Type 1 where
  pub BytesMut : Type 0
  pub contents : BytesMut → List ℕ
  pub zeroed : ℕ → BytesMut
  pub clear : BytesMut → BytesMut
  pub contents-zeroed : (n : ℕ) → contents (zeroed n) ≡ replicate n 0
  pub contents-clear : (b : BytesMut) → contents (clear b) ≡ []

-- `crossbeam_queue::ArrayQueue`: `new` panics for 0, `pop` takes the oldest element, `push` gives
-- its argument back where the queue is full. Each call is atomic, so threads that share a queue
-- make their calls in some order.
pub record Queues (A : Type 0) : Type 1 where
  pub ArrayQueue : Type 0
  pub elements : ArrayQueue → List A
  pub capacity : ArrayQueue → ℕ
  pub len : ArrayQueue → ℕ
  pub new : ℕ → Run ArrayQueue
  pub pop : ArrayQueue → Option A × ArrayQueue
  pub push : ArrayQueue → A → Option A × ArrayQueue
  pub new-zero : new 0 ≡ panic
  pub new-some :
      (n : ℕ) → 0 < n → (q : ArrayQueue) × (new n ≡ val q) × (elements q ≡ []) × (capacity q ≡ n)
  pub len-elements : (q : ArrayQueue) → len q ≡ length (elements q)
  pub pop-empty : (q : ArrayQueue) → elements q ≡ [] → pop q ≡ (none, q)
  pub pop-oldest :
      (q : ArrayQueue) (x : A) (xs : List A)
      → elements q ≡ x ∷ xs
      → ((pop q).0 ≡ some x) × (elements (pop q).1 ≡ xs)
  pub push-room :
      (q : ArrayQueue) (x : A)
      → length (elements q) < capacity q
      → ((push q x).0 ≡ none) × (elements (push q x).1 ≡ elements q ++ x ∷ [])
  pub push-full :
      (q : ArrayQueue) (x : A) → capacity q ≤ length (elements q) → push q x ≡ (some x, q)
  pub capacity-pop : (q : ArrayQueue) → capacity (pop q).1 ≡ capacity q
  pub capacity-push : (q : ArrayQueue) (x : A) → capacity (push q x).1 ≡ capacity q

-- `pool` is the `Arc`, an index of the memory that keeps the shared queues. A counted reference
-- keeps its queue alive, so a pool that `new` made is never out of range.
pub record BufferPool : Type 0 where
  pub pool : ℕ
  pub buf_size : ℕ

module _ (u : Buffers) (s : Queues u.BytesMut) where
  open u use {BytesMut, zeroed}
  open s use {ArrayQueue}

  abbrev pub Memory : Type 0
  Memory = List ArrayQueue

  unfoldable pub new : ℕ → ℕ → Memory → Run (BufferPool × Memory)
  new capacity buf_size m = do
    q ← s.new capacity
    val (record { pool = length m; buf_size = buf_size }, m ++ q ∷ [])

  abbrev pub handed_out : ℕ → Option BytesMut → BytesMut
  handed_out buf_size (some b) = u.clear b
  handed_out buf_size none = zeroed buf_size

  unfoldable pub get : BufferPool → Memory → Run (BytesMut × Memory)
  get p m = do
    q ← or_panic (get_elem? m p.pool)
    val (handed_out p.buf_size (s.pop q).0, set m p.pool (s.pop q).1)

  unfoldable pub put : BufferPool → BytesMut → Memory → Run Memory
  put p buf m = do q ← or_panic (get_elem? m p.pool); val (set m p.pool (s.push q buf).1)

  unfoldable pub available : BufferPool → Memory → Run ℕ
  available p m = do q ← or_panic (get_elem? m p.pool); val (s.len q)

  unfoldable pub capacity : BufferPool → Memory → Run ℕ
  capacity p m = do q ← or_panic (get_elem? m p.pool); val (s.capacity q)

unfoldable pub clone : BufferPool → BufferPool
clone p = record { pool = p.pool; buf_size = p.buf_size }

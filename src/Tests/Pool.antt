-- ===== src/Tests/Pool.antt =====
-- Pools over a queue that is a list.
use binger_udp.Base.{
  ℕ, zero, suc, ◌≤◌, ◌<◌, ◌≡◌, refl, Option, none, some, List, [], ◌∷◌, ◌++◌, replicate, length,
  leb, le→leb, lt→leb, get_elem?, if◌then◌else◌, Bool-cases, inl, inr, arith, Run, val, panic,
}
use binger_udp.Bufs
use binger_udp.Bufs.{Buffers, Queues, BufferPool, Memory, new}
use binger_udp.Bufs.Refine.{Op, get_op, put_op, clone_op, Seen, spec_run, run, pool_refines}
use binger_udp.Bufs.Bounds.{AllBounded, run-AllBounded}

-- A buffer is its bytes and its memory.
abbrev bytes_mut : Buffers
bytes_mut = record {
  BytesMut = List ℕ × ℕ;
  contents = λ b. b.0;
  zeroed = λ n. (replicate n 0, n);
  clear = λ b. ([], b.1);
  contents-zeroed = λ n. refl;
  contents-clear = λ b. refl;
}

abbrev Buffer : Type 0
Buffer = List ℕ × ℕ

abbrev ListQueue : Type 0
ListQueue = List Buffer × ℕ

abbrev new_queue : ℕ → Run ListQueue
new_queue zero = panic
new_queue (suc n) = val ([], suc n)

abbrev pop_list : List Buffer → ℕ → Option Buffer × ListQueue
pop_list [] n = (none, ([], n))
pop_list (x ∷ xs) n = (some x, (xs, n))

abbrev push_list : List Buffer → ℕ → Buffer → Option Buffer × ListQueue
push_list xs n x = if leb n (length xs) then (some x, (xs, n)) else (none, (xs ++ x ∷ [], n))

new_some : (n : ℕ) → 0 < n → (q : ListQueue) × (new_queue n ≡ val q) × (q.0 ≡ []) × (q.1 ≡ n)
new_some zero h = elim h [ ]
new_some (suc n) h = (([], suc n), refl, refl, refl)

pop_empty : (xs : List Buffer) (n : ℕ) → xs ≡ [] → pop_list xs n ≡ (none, (xs, n))
pop_empty [] n h = refl
pop_empty (x ∷ xs) n h = cc

pop_oldest :
    (ys : List Buffer) (n : ℕ) (x : Buffer) (xs : List Buffer)
    → ys ≡ x ∷ xs
    → ((pop_list ys n).0 ≡ some x) × ((pop_list ys n).1.0 ≡ xs)
pop_oldest ys n x xs h = rw h (refl, refl)

push_room :
    (xs : List Buffer) (n : ℕ) (x : Buffer)
    → length xs < n
    → ((push_list xs n x).0 ≡ none) × ((push_list xs n x).1.0 ≡ xs ++ x ∷ [])
push_room xs n x h = rw (lt→leb n (length xs) h) (refl, refl)

push_full :
    (xs : List Buffer) (n : ℕ) (x : Buffer) → n ≤ length xs → push_list xs n x ≡ (some x, (xs, n))
push_full xs n x h = rw (le→leb n (length xs) h) refl

capacity_pop : (xs : List Buffer) (n : ℕ) → (pop_list xs n).1.1 ≡ n
capacity_pop [] n = refl
capacity_pop (x ∷ xs) n = refl

capacity_push : (xs : List Buffer) (n : ℕ) (x : Buffer) → (push_list xs n x).1.1 ≡ n
capacity_push xs n x = elim (Bool-cases (leb n (length xs))) [
  | inl t ↦ rw t refl
  | inr t ↦ rw t refl
]

abbrev queue : Queues Buffer
queue = record {
  ArrayQueue = ListQueue;
  elements = λ q. q.0;
  capacity = λ q. q.1;
  len = λ q. length q.0;
  new = new_queue;
  pop = λ q. pop_list q.0 q.1;
  push = λ q x. push_list q.0 q.1 x;
  new-zero = refl;
  new-some = new_some;
  len-elements = λ q. refl;
  pop-empty = λ q h. pop_empty q.0 q.1 h;
  pop-oldest = λ q x xs h. pop_oldest q.0 q.1 x xs h;
  push-room = λ q x h. push_room q.0 q.1 x h;
  push-full = λ q x h. push_full q.0 q.1 x h;
  capacity-pop = λ q. capacity_pop q.0 q.1;
  capacity-push = λ q x. capacity_push q.0 q.1 x;
}

-- A pool of one: the second of two returned buffers is dropped, and the first comes back cleared.
abbrev ops : List (Op bytes_mut)
ops = get_op ∷ put_op (5 ∷ [], 8) ∷ clone_op ∷ put_op (6 ∷ [], 8) ∷ get_op ∷ []

-- The pool made before keeps its two buffers.
abbrev memory : List ListQueue
memory = ((1 ∷ [], 4) ∷ (2 ∷ [], 4) ∷ [], 2) ∷ []

run-ops :
    (run bytes_mut queue (record { pool = 1; buf_size = 2 }) (memory ++ ([], 1) ∷ []) ops)
    ≡ val (
      record { buffer = some (0 ∷ 0 ∷ [], 2); available = 0; capacity = 1 }
          ∷ record { buffer = none; available = 1; capacity = 1 }
          ∷ record { buffer = none; available = 1; capacity = 1 }
          ∷ record { buffer = none; available = 1; capacity = 1 }
          ∷ record { buffer = some ([], 8); available = 0; capacity = 1 }
          ∷ [],
      memory ++ ([], 1) ∷ [],
    )
unfolding run Bufs.get Bufs.put Bufs.available Bufs.capacity Bufs.clone
run-ops = refl

pool_refines_example :
    (p : BufferPool) × (m₁ m₂ : List ListQueue) × (new bytes_mut queue 1 2 memory ≡ val (p, m₁))
    × (run bytes_mut queue p m₁ ops ≡ val (spec_run bytes_mut 1 2 [] ops, m₂))
    × ((i : ℕ) → i < 1 → get_elem? m₂ i ≡ get_elem? memory i)
pool_refines_example = pool_refines bytes_mut queue 1 2 memory ops (omega arith)

run-AllBounded_example :
    (p : BufferPool) × (m₁ m₂ : List ListQueue) × (rs : List (Seen bytes_mut)) × (new bytes_mut
        queue 1 2 memory
      ≡ val (p, m₁))
    × (run bytes_mut queue p m₁ ops ≡ val (rs, m₂))
    × AllBounded bytes_mut 1 2 rs
run-AllBounded_example = run-AllBounded bytes_mut queue 1 2 memory ops (omega arith)

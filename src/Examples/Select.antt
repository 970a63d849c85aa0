-- ===== src/Examples/Select.antt =====
-- examples/select.rs: a sender and a receiver that take turns in one `select!`. What it prints is
-- left out; where the strings lie in memory is a parameter.
pub mod Filling
pub mod Turns
pub mod Ends
use binger_udp.Base.{
  ℕ, zero, suc, ◌+◌, ◌%◌, ◌^◌, Bool, true, false, ◌&&◌, some, List, [], ◌∷◌, map, leb, ltb,
  if◌then◌else◌, Run, ◌>>=◌, val, panic, out_of_fuel,
}
use binger_udp.Error.{BingerError, IoResult, Result, ok, err}
use binger_udp.Net.{SocketAddr, Slice}
use binger_udp.Batch.Send.{SendBatch, push_to, clear_all}
use binger_udp.Batch.Send
use binger_udp.Batch.Recv.{iter}
use binger_udp.Batch.Typed.{RecvBatch}
use binger_udp.Batch.Typed
use binger_udp.Socket.{BingerUdp, Env, Sent, send_batch, recv_batch}

abbrev pub max_iter : ℕ
max_iter = 3

-- `send_batch.push(…).unwrap()`
abbrev pub unwrap : {n : ℕ} → Result BingerError (Unit {0}) × SendBatch n → Run (SendBatch n)
unwrap (ok _, b) = val b
unwrap (err _, b) = panic

-- `for msg in &pending_msgs`
unfoldable pub fill_batch : List Slice → SocketAddr → SendBatch 8 → Run (SendBatch 8)
fill_batch [] recv_addr b = val b
fill_batch (msg ∷ msgs) recv_addr b = do
  b' ← unwrap (push_to 8 b msg recv_addr)
  fill_batch msgs recv_addr b'

-- The variables of `main` that its loop changes.
pub record Loop (W : Type 0) : Type 0 where
  pub sending : SendBatch 8
  pub receiving : RecvBatch 8
  pub iteration : ℕ
  pub waiting_for_recv : Bool
  pub sender : BingerUdp
  pub receiver : BingerUdp
  pub world : W

-- The strings of a round: `format!("data-{i}-round{iteration}")` for `i` in `0..8`.
abbrev pub pending_msgs : (ℕ → ℕ → Slice) → ℕ → List Slice
pending_msgs msg iteration = map (msg iteration) (0 ∷ 1 ∷ 2 ∷ 3 ∷ 4 ∷ 5 ∷ 6 ∷ 7 ∷ [])

module _ (env : Env) (sleep : env.World → env.World) (fuel : ℕ) (msg : ℕ → ℕ → Slice)
    (recv_addr : SocketAddr) where
  open env use {World}

  abbrev pub after_receiving : IoResult ℕ → Loop World → Run (IoResult (Loop World))
  after_receiving (err e) l = val (err e)
  after_receiving (ok n) l = do
    _ ← iter l.receiving.raw
    val (ok (record l { receiving = Typed.clear 8 l.receiving; waiting_for_recv = false }))

  -- `_ = receiver.readable(), if waiting_for_recv`
  unfoldable pub on_readable : Loop World → Run (IoResult (Loop World))
  on_readable l = do
    (r, b, s, w) ← recv_batch env fuel l.receiver l.receiving.raw (env.wait_readable l.world).1
    after_receiving r (record l { receiving = record { raw = b }; receiver = s; world = w })

  abbrev pub after_sending : IoResult ℕ → Loop World → Run (IoResult (Loop World))
  after_sending (err e) l = val (err e)
  after_sending (ok n) l = val (
      ok (record l {
        sending = clear_all 8 l.sending;
        iteration = (l.iteration + 1) % 2 ^ 32;
        waiting_for_recv = true;
      }))

  abbrev pub sent_by : Loop World → Sent env → Run (IoResult (Loop World))
  sent_by l (r, s, w) = after_sending r (record l { sender = s; world = w })

  -- `_ = sender.writable(), if !waiting_for_recv`
  unfoldable pub on_writable : Loop World → Run (IoResult (Loop World))
  on_writable l =
      let w = (env.wait_writable l.world).1 in
      if Send.is_empty l.sending.raw
      then val (ok (record l { world = w }))
      else (send_batch env fuel l.sender l.sending.raw w >>= sent_by l)

  -- Of the two branches one is enabled.
  unfoldable pub select : Loop World → Run (IoResult (Loop World))
  unfolding on_readable on_writable
  select l = elim l.waiting_for_recv [ true ↦ on_readable l | false ↦ on_writable l ]

  abbrev pub after_wait : IoResult (Unit {0}) × World → Loop World → Run (IoResult (Unit {0}))
  after_wait (ok _, w) l = do _ ← recv_batch env fuel l.receiver l.receiving.raw w; val (ok tt)
  after_wait (err _, w) l = val (ok tt)

  -- What follows the last iteration.
  unfoldable pub drain : Loop World → Run (IoResult (Unit {0}))
  drain l = after_wait (env.wait_readable (sleep l.world)) l

  unfoldable pub refill : Loop World → Run (Loop World)
  unfolding fill_batch
  refill l =
      if Send.is_empty l.sending.raw && ltb l.iteration max_iter
      then (fill_batch (pending_msgs msg l.iteration) recv_addr l.sending >>= λ b.
          val (record l { sending = b }))
      else val l

  abbrev pub after_select :
      IoResult (Loop World) → (Loop World → Run (IoResult (Unit {0}))) → Run (IoResult (Unit {0}))
  after_select (err e) next = val (err e)
  after_select (ok l) next = if leb max_iter l.iteration then drain l else (refill l >>= next)

  -- `loop`, for at most so many turns.
  unfoldable pub turns : ℕ → Loop World → Run (IoResult (Unit {0}))
  unfolding select drain refill
  turns zero l = out_of_fuel
  turns (suc n) l = do r ← select l; after_select r (turns n)

  -- From the first filling of the batch on.
  unfoldable pub main : ℕ → BingerUdp → BingerUdp → World → Run (IoResult (Unit {0}))
  unfolding fill_batch turns
  main n sender receiver w = do
    b ← fill_batch (pending_msgs msg 0) recv_addr (Send.new 8)
    turns n (record {
      sending = b;
      receiving = Typed.new 8 2048;
      iteration = 0;
      waiting_for_recv = false;
      sender = sender;
      receiver = receiver;
      world = w;
    })

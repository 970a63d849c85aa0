-- ===== src/Backend/Contract/Linux.antt =====
-- src/platform/linux.rs: what the Linux backend relies on of the kernel to keep the contract of the
-- socket.
pub mod Sending
pub mod Receiving
use binger_udp.Base.{
  ℕ, zero, suc, ◌%◌, ◌^◌, ℤ, pos, negsuc, ◌≤◌, ◌<◌, ◌≡◌, refl, ◌∙◌, ap, subst, sym, ◌⊎◌, inl, inr,
  List, [], ◌∷◌, map, take, length, length-take, length-map, Bool-cases, true, false, Run, ◌>>=◌,
  val, arith, ◌==◌, leb, if◌then◌else◌,
}
use mathlib.Core.Path.{ap₂}
use binger_udp.Error.{IoError, IoResult, ok, err, is_enosys, is_interrupted}
use binger_udp.Net.{Endian}
use binger_udp.Kernel.{Kernel, Fd, Datagram, Received}
use binger_udp.Raw.{raw_recvfrom, is_connected, last}
use binger_udp.Batch.Send.{SendBatchRaw, entries, len}
use binger_udp.Batch.Send
use binger_udp.Batch.Send.Refine.{length-entries}
use binger_udp.Batch.Recv.{RecvSlot, RecvBatchRaw, IsValid, capacity, All, Fits}
use binger_udp.Platform.Loops.{send_entry, recv_loop}
use binger_udp.Platform.Loops.Sends.{Sends, send_loop-Sends}
use binger_udp.Platform.Loops.Pass.{Pass, result, batch}
use binger_udp.Platform.Loops.Delivers.{RecvfromLaw, recv_loop-Passed}
use binger_udp.Platform.Linux.Send.{
  datagrams, fallback_send, after_sendmmsg, on_sendmmsg_error, max_stack, try_send_batch,
}
use binger_udp.Platform.Linux.Send.Stack.{message, stack_datagrams-messages}
use binger_udp.Platform.Linux.Send.Heap.{heap_datagrams-linked}
use binger_udp.Platform.Linux.Send.Answered.{answer_cases, fallback_send-Sends}
use binger_udp.Platform.Linux.Recv.{Answer, retry_eintr, try_recv_batch, fallback_recv}
use binger_udp.Platform.Linux.Recv.Plain.{
  AllPlain, Answers, segment_size, deliver, deliver-Fits, try_recv_batch-plain,
}
use binger_udp.Socket.Contract.{Contract, CountsAtMost, AreShort, Kept, Reported, sizes}
use binger_udp.Backend.{Reactor, linux_env}
use binger_udp.Backend.Contract.{Sends-CountsAtMost, short_slots, Passed-Kept}

-- The messages are filled into the first buffers, each of which keeps its size.
abbrev pub IntoBuffers : List (List ℕ) → List Received → Type 0
IntoBuffers bufs [] = Unit {0}
IntoBuffers [] (r ∷ rs) = ⊥
IntoBuffers (buf ∷ bufs) (r ∷ rs) = (length r.buf ≡ length buf) × IntoBuffers bufs rs

-- A message of at most its buffer, and of less than 64 KiB as every datagram.
abbrev pub InBuffer : Received → Type 0
InBuffer r = (r.msg_len ≤ length r.buf) × (r.msg_len < 65536)

module _ (k : Kernel) (e : Endian) where
  open k use {World}

  -- A call of `recvmmsg` is interrupted some times and then fails otherwise.
  pub data Fails (call : World → Answer k e) (v : World) : ℕ → World → Type 0 where
    fails :
        {m : ℕ} {out : List Received} {w : World}
        → call w ≡ (negsuc m, out, v)
        → is_interrupted (last k e v) ≡ false
        → Fails call v zero w
    again :
        {j m : ℕ} {out : List Received} {w u : World}
        → call w ≡ (negsuc m, out, u)
        → is_interrupted (last k e u) ≡ true
        → Fails call v j u
        → Fails call v (suc j) w

  -- The system calls as documented: `sendmmsg` reports at most the messages that it was given.
  -- `recvmmsg` is interrupted fewer times in a row than the fuel, and then fills messages, coalesced
  -- or not, into the first buffers, or fails.
  pub record LinuxLaw (fuel : ℕ) : Type 0 where
    pub one_by_one : (fd : Fd) → RecvfromLaw (raw_recvfrom k e fd)
    pub sends :
        (fd : Fd) (ds : List Datagram) (w v : World) (n : ℕ)
        → k.sendmmsg fd ds w ≡ (pos n, v)
        → n ≤ length ds
    pub receives :
        (fd : Fd) (bufs : List (List ℕ)) (w : World)
        → (j : ℕ) × (v : World) × (j < fuel)
          × (((rs : List Received) × Answers k e (k.recvmmsg fd bufs) rs v j w
                × All InBuffer rs
                × IntoBuffers bufs rs)
              ⊎ Fails (k.recvmmsg fd bufs) v j w)

  -- The option UDP_GRO, which is off unless it is set, is set on no socket: no message comes with a
  -- segment size.
  pub record WithoutGro : Type 0 where
    pub not_coalesced :
        (fd : Fd) (bufs : List (List ℕ)) (rs : List Received) (w v : World)
        → k.recvmmsg fd bufs w ≡ (pos (length rs), rs, v)
        → All (λ (r : Received). segment_size r.cmsgs 0 ≡ 0) rs

  AllPlain-All :
      (rs : List Received)
      → All (λ (r : Received). segment_size r.cmsgs 0 ≡ 0) rs
      → All InBuffer rs
      → AllPlain rs
  AllPlain-All [] h g = tt
  AllPlain-All (r ∷ rs) h g =
      (record { not_coalesced = h.0; in_buffer = g.0.0; short = g.0.1 }, AllPlain-All rs h.1 g.1)

  -- What is answered after some interruptions is not coalesced.
  pub Answers-AllPlain :
      (no_gro : WithoutGro) (fd : Fd) (bufs : List (List ℕ)) (rs : List Received) (v : World)
      {j : ℕ} {w : World}
      → Answers k e (k.recvmmsg fd bufs) rs v j w
      → All InBuffer rs
      → AllPlain rs
  Answers-AllPlain no_gro fd bufs rs v (Answers.answered {w} p) h =
      AllPlain-All rs (no_gro.not_coalesced fd bufs rs w v p) h
  Answers-AllPlain no_gro fd bufs rs v (Answers.interrupted p q rest) h =
      Answers-AllPlain no_gro fd bufs rs v rest h

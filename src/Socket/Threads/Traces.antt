-- ===== src/Socket/Threads/Traces.antt =====
-- src/socket.rs: the operations change the socket by rounds, whose effects other threads may
-- interleave with.
use binger_udp.Base.{ℕ, ◌≡◌, refl, sym, ap, ◌∙◌, List, [], ◌∷◌, ◌++◌}
use binger_udp.Batch.Send.{SendBatchRaw}
use binger_udp.Batch.Recv.{RecvBatchRaw}
use binger_udp.Socket.{BingerUdp, Env, send_batch, recv_batch}
use binger_udp.Socket.Keeps.{EnsuresSent, EnsuresReceived, send_loop_keeps, recv_loop_keeps}
use binger_udp.Socket.Threads.{
  Direction, Attempt, attempt, program, run_attempts, perform_all, perform_all-program,
}

-- The rounds of the operations of a direction.
abbrev pub IsRoundOf : Direction → Attempt → Type 0
IsRoundOf Direction.sending (Attempt.sent r) = Unit {0}
IsRoundOf Direction.sending (Attempt.send_blocked now later) = Unit {0}
IsRoundOf Direction.receiving (Attempt.received r) = Unit {0}
IsRoundOf Direction.receiving (Attempt.recv_blocked now later) = Unit {0}
IsRoundOf _ _ = ⊥

unfoldable pub AreRoundsOf : Direction → List Attempt → Type 0
AreRoundsOf d [] = Unit {0}
AreRoundsOf d (a ∷ attempts) = IsRoundOf d a × AreRoundsOf d attempts

-- The effects of some rounds of one direction lead from the one socket to the other.
abbrev pub Traced : Direction → BingerUdp → BingerUdp → Type 0
Traced d s t =
    (attempts : List Attempt) × AreRoundsOf d attempts × (perform_all (program attempts) s ≡ t)

AreRoundsOf-snoc :
    (d : Direction) (attempts : List Attempt) (a : Attempt)
    → AreRoundsOf d attempts
    → IsRoundOf d a
    → AreRoundsOf d (attempts ++ a ∷ [])
unfolding AreRoundsOf
AreRoundsOf-snoc d [] a h g = (g, tt)
AreRoundsOf-snoc d (x ∷ attempts) a (h, hs) g = (h, AreRoundsOf-snoc d attempts a hs g)

run_attempts-snoc :
    (attempts : List Attempt) (a : Attempt) (s : BingerUdp)
    → run_attempts (attempts ++ a ∷ []) s ≡ attempt a (run_attempts attempts s)
unfolding run_attempts
run_attempts-snoc [] a s = refl
run_attempts-snoc (x ∷ attempts) a s = run_attempts-snoc attempts a (attempt x s)

then_round :
    (d : Direction) (a : Attempt) (s t : BingerUdp)
    → IsRoundOf d a
    → Traced d s t
    → Traced d s (attempt a t)
then_round d a s t g (attempts, h, reached) = (
  attempts ++ a ∷ [],
  AreRoundsOf-snoc d attempts a h g,
  perform_all-program (attempts ++ a ∷ []) s
      ∙ run_attempts-snoc attempts a s
      ∙ ap (attempt a) (sym (perform_all-program attempts s) ∙ reached),
)

not_yet : (d : Direction) (s : BingerUdp) → Traced d s s
unfolding AreRoundsOf program perform_all
not_yet d s = ([], tt, refl)

module _ (env : Env) where
  open env use {World}

  -- Whatever the platform and the reactor answer, where `send_batch` or `recv_batch` returns it has
  -- changed the socket by the atomic effects of some rounds of its own direction, in their order,
  -- and by nothing else.
  pub batch_operations-Traced :
      (fuel : ℕ) (s : BingerUdp) (sb : SendBatchRaw) (rb : RecvBatchRaw) (w : World)
      → EnsuresSent (Traced Direction.sending s) (send_batch env fuel s sb w)
        × EnsuresReceived (Traced Direction.receiving s) (recv_batch env fuel s rb w)
  batch_operations-Traced fuel s sb rb w = (
    send_loop_keeps env (Traced Direction.sending s)
        (λ t r h. then_round Direction.sending (Attempt.sent r) s t tt h)
        (λ t v h.
          then_round Direction.sending (Attempt.send_blocked (env.now v) (env.later v)) s t tt h)
        fuel s sb w (not_yet Direction.sending s),
    recv_loop_keeps env (Traced Direction.receiving s)
        (λ t r h. then_round Direction.receiving (Attempt.received r) s t tt h)
        (λ t v h.
          then_round Direction.receiving (Attempt.recv_blocked (env.now v) (env.later v)) s t tt h)
        fuel s rb w (not_yet Direction.receiving s),
  )

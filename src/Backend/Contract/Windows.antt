-- ===== src/Backend/Contract/Windows.antt =====
-- src/platform/windows.rs: the Windows backend keeps the contract of the socket.
use binger_udp.Base.{
  ℕ, Bool, refl, ap, inl, inr, List, ◌∷◌, length, length-append, subst, sym, arith, ◌==◌,
  if◌then◌else◌,
}
use binger_udp.Error.{IoResult, ok}
use binger_udp.Net.{Endian}
use binger_udp.Kernel.{Kernel, Fd}
use binger_udp.Winsock.{is_connected}
use binger_udp.Batch.Send.{Entry, entries}
use binger_udp.Batch.Send.Refine.{length-entries}
use binger_udp.Platform.Loops.Pass.{result, batch}
use binger_udp.Platform.Loops.Delivers.{RecvfromLaw}
use binger_udp.Platform.Windows.{Extension, wsa_recv}
use binger_udp.Platform.Windows.Sending.{SendsSome, try_send_batch-SendsSome}
use binger_udp.Platform.Windows.Receiving.{wsa_recv-Passed}
use binger_udp.Socket.Contract.{Contract, CountsAtMost}
use binger_udp.Backend.{Reactor, windows_env}
use binger_udp.Backend.Contract.{short_slots, Passed-Kept}

module _ (k : Kernel) (e : Endian) (x : Extension k) where
  open k use {World}

  SendsSome-CountsAtMost :
      (fd : Fd) (connected : Bool) (w : World) (xs : List Entry) (r : IoResult ℕ) (u : World)
      → SendsSome k e x fd connected w xs 0 r u
      → CountsAtMost (length xs) r
  SendsSome-CountsAtMost fd connected w xs r u (SendsSome.all taken same) =
      subst (CountsAtMost (length xs)) (sym same) (omega arith)
  SendsSome-CountsAtMost fd connected w xs r u
        (SendsSome.stopped ys y zs split taken call refused why same) =
      subst (CountsAtMost (length xs)) (sym same)
        (omega (arith, ap length split, length-append ys (y ∷ zs)))
  SendsSome-CountsAtMost fd connected w xs r u
        (SendsSome.failed y zs split call refused first blocked same) =
      subst (CountsAtMost (length xs)) (sym same) tt

  -- Over calls that write inside the buffers, the Windows backend keeps the contract.
  pub windows_env-Contract :
      (reactor : Reactor k.World)
      → ((fd : Fd) → RecvfromLaw (wsa_recv k e x fd))
      → Contract (windows_env k e reactor x)
  windows_env-Contract reactor law = record {
    sends = λ fd b w valid.
        let (connected, v) = is_connected k e fd w in
        elim (try_send_batch-SendsSome k e x fd b valid w v connected refl) [
          | inl (empty, run) ↦ (ok 0, w, run, omega arith)
          | inr (r, u, some_entry, run, sends) ↦ (
            r,
            u,
            run,
            subst (λ n. CountsAtMost n r) (length-entries b valid)
                (SendsSome-CountsAtMost fd connected v (entries b) r u sends),
          )
        ];
    receives = λ fd b w valid short.
        let one = wsa_recv k e x fd in
        let (p, run, passed, valid') =
          wsa_recv-Passed k e x fd b w (law fd) valid (short_slots one b short) in
        let (kept, reported) = Passed-Kept one b passed valid' in
        (result one p.0 p.2, batch p.1 (if p.2 == 0 then b.len else p.2), p.3, run, kept, reported);
  }

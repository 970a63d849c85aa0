-- ===== src/Backend/Contract/Choice.antt =====
-- src/platform/mod.rs: whichever backend is chosen keeps the contract of the socket.
use binger_udp.Base.{ℕ, Bool}
use binger_udp.Net.{Endian}
use binger_udp.Kernel.{Kernel, Fd}
use binger_udp.Raw.{raw_recvfrom}
use binger_udp.Platform.Loops.Delivers.{RecvfromLaw}
use binger_udp.Platform.Macos.{Extended}
use binger_udp.Platform.Windows.{Extension, wsa_recv}
use binger_udp.Socket.Contract.{Contract}
use binger_udp.Backend.{Reactor, Target, Imp, imp, platform_env}
use binger_udp.Backend.Contract.{fallback_env-Contract}
use binger_udp.Backend.Contract.Linux.{LinuxLaw, WithoutGro}
use binger_udp.Backend.Contract.Linux.Sending
use binger_udp.Backend.Contract.Linux.Receiving
use binger_udp.Backend.Contract.Macos.{MacosLaw}
use binger_udp.Backend.Contract.Macos
use binger_udp.Backend.Contract.Windows.{windows_env-Contract}

module _ (k : Kernel) (e : Endian) (fuel : ℕ) (x : Extended k) (y : Extension k) where
  -- What a backend relies on of the system that it is for; on Linux also that no socket has the
  -- option UDP_GRO set, without which no message is coalesced.
  abbrev pub Law : Imp → Type 0
  Law Imp.linux_imp = LinuxLaw k e fuel × WithoutGro k e
  Law Imp.macos_imp = MacosLaw k e x fuel
  Law Imp.windows_imp = (fd : Fd) → RecvfromLaw (wsa_recv k e y fd)
  Law Imp.fallback_imp = (fd : Fd) → RecvfromLaw (raw_recvfrom k e fd)

  imp-Contract :
      (reactor : Reactor k.World) (i : Imp) → Law i → Contract (platform_env k e reactor i fuel x y)
  imp-Contract reactor Imp.linux_imp (law, no_gro) = record {
    sends = λ fd b w valid. Sending.sends k e fuel law fd b w valid;
    receives = λ fd b w valid short. Receiving.receives k e fuel law no_gro fd b w valid short;
  }
  imp-Contract reactor Imp.macos_imp law = record {
    sends = λ fd b w valid. Macos.sends k e x fuel law fd b w valid;
    receives = λ fd b w valid short. Macos.receives k e x fuel law fd b w valid short;
  }
  imp-Contract reactor Imp.windows_imp law = windows_env-Contract k e y reactor law
  imp-Contract reactor Imp.fallback_imp law = fallback_env-Contract k e reactor law

  -- On every target, with the feature `miri-safe` or without it, the backend that is compiled in
  -- keeps the contract that the socket relies on, over a system whose calls keep their documented
  -- law, and, with the Linux backend, where no socket has the option UDP_GRO set: it does not panic
  -- on a valid batch, counts at most its entries or slots, and leaves a valid batch over the same
  -- buffers that holds as many datagrams as are reported.
  pub platform_env-Contract :
      (reactor : Reactor k.World) (target : Target) (miri_safe : Bool)
      → Law (imp target miri_safe)
      → Contract (platform_env k e reactor (imp target miri_safe) fuel x y)
  platform_env-Contract reactor target miri_safe law =
      imp-Contract reactor (imp target miri_safe) law

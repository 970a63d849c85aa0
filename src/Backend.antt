-- ===== src/Backend.antt =====
-- src/platform/mod.rs: which backend `BingerUdp` calls, over a kernel and a reactor.
pub mod Single
pub mod Liveness
pub mod Delivery
pub mod Contract
pub mod Loopback
use binger_udp.Base.{ℕ, Bool, true, false}
use binger_udp.Error.{IoResult}
use binger_udp.Net.{Endian}
use binger_udp.Kernel.{Kernel}
use binger_udp.Platform.Fallback
use binger_udp.Platform.Linux.Send
use binger_udp.Platform.Linux.Recv
use binger_udp.Platform.Macos
use binger_udp.Platform.Macos.{Extended}
use binger_udp.Platform.Windows
use binger_udp.Platform.Windows.{Extension}
use binger_udp.Socket.{Env}

-- The readiness of the tokio socket, and the clock.
pub record Reactor (W : Type 0) : Type 0 where
  pub writable : W → IoResult (Unit {0}) × W
  pub readable : W → IoResult (Unit {0}) × W
  pub now : W → ℕ
  pub later : W → ℕ

-- `target_os`
pub data Target : Type 0 where
  linux macos windows other : Target

-- The module that `imp` names.
pub data Imp : Type 0 where
  linux_imp macos_imp windows_imp fallback_imp : Imp

-- By the target and the feature `miri-safe`.
unfoldable pub imp : Target → Bool → Imp
imp Target.linux false = Imp.linux_imp
imp Target.macos false = Imp.macos_imp
imp Target.windows false = Imp.windows_imp
imp Target.other false = Imp.fallback_imp
imp _ true = Imp.fallback_imp

module _ (k : Kernel) (e : Endian) (r : Reactor k.World) where
  abbrev pub fallback_env : Env
  fallback_env = record {
    World = k.World;
    platform_send = Fallback.try_send_batch k e;
    platform_recv = Fallback.try_recv_batch k e;
    wait_writable = r.writable;
    wait_readable = r.readable;
    now = r.now;
    later = r.later;
  }

  -- `fuel` bounds the interruptions of one `recvmmsg`.
  abbrev pub linux_env : ℕ → Env
  linux_env fuel = record {
    World = k.World;
    platform_send = Send.try_send_batch k e;
    platform_recv = Recv.try_recv_batch k e fuel;
    wait_writable = r.writable;
    wait_readable = r.readable;
    now = r.now;
    later = r.later;
  }

  -- `fuel` bounds the interruptions of one `sendmsg_x` or `recvmsg_x`.
  abbrev pub macos_env : Extended k → ℕ → Env
  macos_env x fuel = record {
    World = k.World;
    platform_send = Macos.try_send_batch k e x fuel;
    platform_recv = Macos.try_recv_batch k e x fuel;
    wait_writable = r.writable;
    wait_readable = r.readable;
    now = r.now;
    later = r.later;
  }

  abbrev pub windows_env : Extension k → Env
  windows_env x = record {
    World = k.World;
    platform_send = Windows.try_send_batch k e x;
    platform_recv = Windows.try_recv_batch k e x;
    wait_writable = r.writable;
    wait_readable = r.readable;
    now = r.now;
    later = r.later;
  }

  -- `pub(crate) use imp::*`
  abbrev pub platform_env : Imp → ℕ → Extended k → Extension k → Env
  platform_env Imp.linux_imp fuel x y = linux_env fuel
  platform_env Imp.macos_imp fuel x y = macos_env x fuel
  platform_env Imp.windows_imp fuel x y = windows_env y
  platform_env Imp.fallback_imp fuel x y = fallback_env

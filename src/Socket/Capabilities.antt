-- ===== src/Socket/Capabilities.antt =====
-- src/socket.rs: `PlatformCaps`, by the target and the features that a build is made for.
use Prim.Native.String.{String}
use binger_udp.Base.{ℕ, Bool, true, false, ◌&&◌, Option, none, some, if◌then◌else◌}

-- `target_os`
pub data Target : Type 0 where
  linux macos windows other : Target

abbrev pub is_linux : Target → Bool
is_linux Target.linux = true
is_linux _ = false

abbrev pub is_macos : Target → Bool
is_macos Target.macos = true
is_macos _ = false

abbrev pub is_windows : Target → Bool
is_windows Target.windows = true
is_windows _ = false

-- The features of the crate that the capabilities depend on.
pub record Features : Type 0 where
  pub gso : Bool
  pub gro : Bool
  pub busy_poll : Bool
  pub pacing : Bool
  pub timestamping : Bool
  pub pktinfo : Bool

-- A field that the build may leave out is an option.
pub record PlatformCaps : Type 0 where
  pub supports_sendmmsg : Bool
  pub supports_recvmmsg : Bool
  pub supports_sendmsg_x : Option Bool
  pub supports_recvmsg_x : Option Bool
  pub supports_wsa_send_msg : Option Bool
  pub supports_wsa_recv_msg : Option Bool
  pub supports_gso : Bool
  pub supports_gro : Bool
  pub supports_busy_poll : Bool
  pub supports_pacing : Bool
  pub supports_timestamping : Option Bool
  pub supports_pktinfo : Option Bool
  pub max_batch_size : ℕ
  pub backend_name : String

-- `#[cfg(…)]` on a field
abbrev field_if : Bool → Bool → Option Bool
field_if built value = if built then some value else none

unfoldable pub backends : Target → String
backends Target.linux = "sendmmsg/recvmmsg (Linux)"
backends Target.macos = "sendmsg_x/recvmsg_x (macOS)"
backends Target.windows = "WSASendMsg/WSARecvMsg (Windows)"
backends Target.other = "fallback (loop sendto/recvfrom)"

unfoldable pub platform_capabilities : Target → Features → PlatformCaps
unfolding backends
platform_capabilities target f = record {
  supports_sendmmsg = is_linux target;
  supports_recvmmsg = is_linux target;
  supports_sendmsg_x = field_if (is_macos target) true;
  supports_recvmsg_x = field_if (is_macos target) true;
  supports_wsa_send_msg = field_if (is_windows target) true;
  supports_wsa_recv_msg = field_if (is_windows target) true;
  supports_gso = is_linux target && f.gso;
  supports_gro = is_linux target && f.gro;
  supports_busy_poll = is_linux target && f.busy_poll;
  supports_pacing = is_linux target && f.pacing;
  supports_timestamping = field_if f.timestamping (is_linux target && f.timestamping);
  supports_pktinfo = field_if f.pktinfo (is_linux target && f.pktinfo);
  max_batch_size = if is_linux target then 1024 else 32;
  backend_name = backends target;
}

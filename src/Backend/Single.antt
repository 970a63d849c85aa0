-- ===== src/Backend/Single.antt =====
-- src/socket.rs: the operations on one datagram.
use binger_udp.Base.{ℕ, suc, true, ◌≡◌, refl, some, [], ◌∷◌, arith, val}
use binger_udp.Error.{IoError, IoResult, ok, err, is_would_block}
use binger_udp.Net.{SocketAddr, Slice, Endian}
use binger_udp.Kernel.{Kernel}
use binger_udp.Raw.{is_connected}
use binger_udp.Batch.Send.{SendBatchRaw, entries, IsValid, with_capacity, push}
use binger_udp.Platform.Loops.{send_entry}
use binger_udp.Platform.Fallback.Sending.{try_send_batch-blocked}
use binger_udp.Socket.{
  BingerUdp, Env, after_platform_send, try_send_batch, send_batch, single, all_sent, send_to,
  try_send_to,
}
use binger_udp.Backend.{Reactor, fallback_env}

abbrev pub one_slot : Slice → SocketAddr → SendBatchRaw
one_slot buf a = record {
  slots = record {
    items = record { data_ptr = buf.ptr; data_len = buf.len; addr = some a } ∷ [];
    cap = 1;
  };
  len = 1;
}

-- The batch of one datagram never overflows: `expect("capacity 1")` does not panic.
pub single_lem :
    (env : Env) (buf : Slice) (a : SocketAddr) → single env buf a ≡ val (one_slot buf a)
unfolding single with_capacity push
single_lem env buf a = refl

pub one_slot-IsValid : (buf : Slice) (a : SocketAddr) → IsValid (one_slot buf a)
one_slot-IsValid buf a = record { covered = omega arith; fits = omega arith }

-- On any backend `try_send_to` gives the platform a batch of exactly that datagram, does not
-- panic by itself, and turns each success, whatever its count, into the length of the datagram.
try_send_to_lem :
    (env : Env) (s : BingerUdp) (buf : Slice) (a : SocketAddr) (w v : env.World) (r : IoResult ℕ)
    → env.platform_send s.fd (one_slot buf a) w ≡ val (r, v)
    → (entries (one_slot buf a) ≡ (buf, some a) ∷ [])
      × (try_send_to env s buf a w ≡ val (all_sent env buf r, after_platform_send s r, v))
unfolding try_send_to try_send_batch
try_send_to_lem env s buf a w v r sent = (refl, rw (single_lem env buf a, sent))

module _ (k : Kernel) (e : Endian) (reactor : Reactor k.World) where
  open k use {World}

  -- Over the fallback backend, where the kernel would block on the datagram, `try_send_to` and
  -- `send_to` both report all its bytes as sent, with no retry: the kernel has taken nothing.
  pub send_to_lost :
      (fuel : ℕ) (s : BingerUdp) (buf : Slice) (a : SocketAddr) (w u : World) (x : IoError)
      → (let (connected, w₁) = is_connected k e s.fd w in
          send_entry k e s.fd connected (buf, some a) w₁)
        ≡ (err x, u)
      → is_would_block x ≡ true
      → let env = fallback_env k e reactor in
        (try_send_to env s buf a w ≡ val (ok buf.len, after_platform_send s (ok 0), u))
        × (send_to env (suc fuel) s buf a w ≡ val (ok buf.len, after_platform_send s (ok 0), u))
  unfolding try_send_to try_send_batch send_to send_batch
  send_to_lost fuel s buf a w u x rejected blocks =
      let sent =
        try_send_batch-blocked k e s.fd (one_slot buf a) w u (buf, some a) [] x
          (one_slot-IsValid buf a) refl rejected blocks in
      (
        rw (single_lem (fallback_env k e reactor) buf a, sent),
        rw (single_lem (fallback_env k e reactor) buf a, sent),
      )

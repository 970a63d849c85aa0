-- ===== src/Socket/Gso.antt =====
-- src/platform/linux.rs: `try_send_gso`; src/socket.rs: `try_send_gso` and `send_gso`.
pub mod Sending
use binger_udp.Base.{
  ℕ, zero, suc, ◌<◌, ◌≡◌, ◌∙◌, ap, Bool, true, false, Option, some, arith, Run, ◌>>=◌, val,
  out_of_fuel, if◌then◌else◌,
}
use binger_udp.Error.{IoError, other, IoResult, ok, err, is_would_block}
use binger_udp.Net.{Slice, Endian}
use binger_udp.Kernel.{Kernel, Fd}
use binger_udp.Raw.{last, result_of}
use binger_udp.Socket.{BingerUdp}

module _ (k : Kernel) (e : Endian) where
  open k use {World}

  -- One control message with the segment size, in a buffer of 64 bytes that is announced whole; the
  -- rest of it is zeros.
  unfoldable pub platform_send_gso : Fd → Slice → ℕ → World → IoResult ℕ × World
  platform_send_gso fd bytes segment_size w =
      if k.has_cmsghdr 64
      then (let (ret, w') = k.sendmsg fd bytes (some segment_size) w in
          (result_of ret (last k e w'), w'))
      else (err other, w)

  unfoldable pub try_send_gso : BingerUdp → Slice → ℕ → World → IoResult ℕ × World
  try_send_gso s bytes segment_size w = platform_send_gso s.fd bytes segment_size w

  module _ (wait_writable : World → IoResult (Unit {0}) × World) where
    abbrev pub Ended : Type 0
    Ended = IoResult ℕ × World

    abbrev pub await : IoResult (Unit {0}) × World → (World → Run Ended) → Run Ended
    await (ok _, w) next = next w
    await (err x, w) next = val (err x, w)

    abbrev pub on_error : Bool → IoError → World → (World → Run Ended) → Run Ended
    on_error true x w next = await (wait_writable w) next
    on_error false x w next = val (err x, w)

    abbrev pub on_attempt : IoResult ℕ × World → (World → Run Ended) → Run Ended
    on_attempt (ok n, w) next = val (ok n, w)
    on_attempt (err x, w) next = on_error (is_would_block x) x w next

    -- The loop of `send_gso`, for at most `fuel` rounds.
    unfoldable pub send_gso : ℕ → BingerUdp → Slice → ℕ → World → Run Ended
    unfolding try_send_gso
    send_gso zero s bytes segment_size w = out_of_fuel
    send_gso (suc fuel) s bytes segment_size w =
        on_attempt (try_send_gso s bytes segment_size w) (send_gso fuel s bytes segment_size)

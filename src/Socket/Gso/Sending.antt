-- ===== src/Socket/Gso/Sending.antt =====
-- src/socket.rs, src/platform/linux.rs: the calls of `sendmsg` that `send_gso` makes.
use binger_udp.Base.{ℕ, zero, suc, ◌<◌, ◌≡◌, refl, ℤ, pos, negsuc, true, false, some, arith, val}
use binger_udp.Error.{IoError, IoResult, ok, err, is_would_block}
use binger_udp.Net.{Slice, Endian}
use binger_udp.Kernel.{Kernel}
use binger_udp.Raw.{last}
use binger_udp.Socket.{BingerUdp}
use binger_udp.Socket.Gso.{platform_send_gso, try_send_gso, send_gso}

module _ (k : Kernel) (e : Endian) (wait_writable : k.World → IoResult (Unit {0}) × k.World)
    (s : BingerUdp) (bytes : Slice) (segment_size : ℕ) where
  open k use {World}

  abbrev pub call : World → ℤ × World
  call w = k.sendmsg s.fd bytes (some segment_size) w

  -- From a world `sendmsg` would block `n` times, each time followed by a wait; then it takes the
  -- bytes, or fails otherwise, or a wait fails.
  pub data Ends (u : World) : IoResult ℕ → ℕ → World → Type 0 where
    taken : {w : World} {m : ℕ} → call w ≡ (pos m, u) → Ends u (ok m) zero w
    failed :
        {w : World} {m : ℕ}
        → call w ≡ (negsuc m, u)
        → is_would_block (last k e u) ≡ false
        → Ends u (err (last k e u)) zero w
    stranded :
        {w v : World} {m : ℕ} {x : IoError}
        → call w ≡ (negsuc m, v)
        → is_would_block (last k e v) ≡ true
        → wait_writable v ≡ (err x, u)
        → Ends u (err x) zero w
    waits :
        {n m : ℕ} {w v v' : World} {r : IoResult ℕ}
        → call w ≡ (negsuc m, v)
        → is_would_block (last k e v) ≡ true
        → wait_writable v ≡ (ok tt, v')
        → Ends u r n v'
        → Ends u r (suc n) w

  attempt-taken :
      {w v : World} {m : ℕ}
      → k.has_cmsghdr 64 ≡ true
      → call w ≡ (pos m, v)
      → try_send_gso k e s bytes segment_size w ≡ (ok m, v)
  unfolding try_send_gso platform_send_gso
  attempt-taken room p = rw (room, p) refl

  attempt-failed :
      {w v : World} {m : ℕ}
      → k.has_cmsghdr 64 ≡ true
      → call w ≡ (negsuc m, v)
      → try_send_gso k e s bytes segment_size w ≡ (err (last k e v), v)
  unfolding try_send_gso platform_send_gso
  attempt-failed room p = rw (room, p) refl

  -- `send_gso`, where its control buffer holds a header: with fuel for one call more than those
  -- that would block, it hands the same bytes and segment size to `sendmsg` each time, and returns
  -- the count of the call that takes them, the first error that is no blocking, or the error of a
  -- wait.
  pub send_gso-Ends :
      (fuel : ℕ) {n : ℕ} {u : World} {r : IoResult ℕ} {w : World}
      → k.has_cmsghdr 64 ≡ true
      → Ends u r n w
      → n < fuel
      → send_gso k e wait_writable fuel s bytes segment_size w ≡ val (r, u)
  unfolding send_gso
  send_gso-Ends zero room ends h = elim h [ ]
  send_gso-Ends (suc fuel) room (taken p) h = rw (attempt-taken room p) refl
  send_gso-Ends (suc fuel) room (failed p b) h = rw (attempt-failed room p, b) refl
  send_gso-Ends (suc fuel) room (stranded p b q) h = rw (attempt-failed room p, b, q) refl
  send_gso-Ends (suc fuel) room (waits p b q rest) h =
      rw (attempt-failed room p, b, q) (send_gso-Ends fuel room rest (omega arith))

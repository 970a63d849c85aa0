-- ===== src/Tests/Platforms.antt =====
-- The macOS and Windows backends over scripted kernels.
use binger_udp.Base.{
  ℕ, zero, suc, ℤ, pos, negsuc, ◌<◌, ◌≤◌, ◌≡◌, refl, ◌∙◌, ap, sym, ◌⊎◌, inl, false, none, some,
  List, [], ◌∷◌, map, min, length, ◌==◌, if◌then◌else◌, arith, val, length-map, length-append,
  length-take, take-append-drop, ◌%◌, ◌^◌, subst, some_inj,
}
use binger_udp.Error.{Errno, IoResult, ok, err, is_interrupted}
use binger_udp.Net.{SocketAddr, Endian, slice}
use binger_udp.Kernel.{Kernel, Fd, Datagram, Received, Recvfrom, sol_socket, so_sndbuf}
use binger_udp.Raw
use binger_udp.Winsock
use binger_udp.Winsock.{announced, unannounced}
use binger_udp.Winsock.Agreement.{IsConventional, windows_agrees}
use binger_udp.Batch.Send.{SendBatchRaw, entries}
use binger_udp.Batch.Send
use binger_udp.Batch.Recv.{RecvBatchRaw, IsValid}
use binger_udp.Platform.Loops.Pass.{Pass, result, batch}
use binger_udp.Platform.Loops.Delivers.{Passed}
use binger_udp.Platform.Linux.Send.Stack.{message}
use binger_udp.Platform.Macos.{Extended}
use binger_udp.Platform.Macos
use binger_udp.Platform.Macos.Sending.{Settles, Route, try_send_batch-Route}
use binger_udp.Platform.Macos.Receiving.{Outcome, try_recv_batch-Outcome}
use binger_udp.Platform.Windows.{Extension, wsa_recv}
use binger_udp.Platform.Windows
use binger_udp.Platform.Windows.Receiving.{wsa_recv-Passed}
use binger_udp.Platform.Windows.Sending.{SendsSome, try_send_batch-SendsSome}
use binger_udp.Tests.Script.{script, loopback, local_addr, filled}
use binger_udp.Tests.Batches.{
  first, slot_of, two_waiting, two_waiting-IsValid, one_received, one_received-IsValid,
}

-- Two datagrams with an address each.
abbrev addressed : SendBatchRaw
addressed = record {
  slots = record { items = slot_of first ∷ slot_of first ∷ []; cap = 2 };
  len = 2;
}

addressed-IsValid : Send.IsValid addressed
addressed-IsValid = record { covered = omega arith; fits = omega arith }

abbrev hello : Received
hello = record {
  buf = 104 ∷ 105 ∷ 0 ∷ 0 ∷ [];
  msg_len = 2;
  src = loopback;
  namelen = 16;
  cmsgs = [];
}

-- `sendmsg_x` takes all messages.
abbrev extended : Extended script
extended = record { sendmsg_x = some (λ fd msgs w. (pos (length msgs), w)); recvmsg_x = none }

abbrev Sendmsg : Type 0
Sendmsg = Fd → List Datagram → ℕ → ℤ × ℕ

-- `sendmsg_x` settles on the two messages in its first call.
abbrev SettlesAtOnce : Sendmsg → Type 0
SettlesAtOnce call =
    (r : IoResult (ℕ × Unit {0})) × (v : ℕ) × (j : ℕ) × Settles script Endian.little
      (λ u.
        Macos.no_output script Endian.little
          (call 3 (map (message Endian.little) (entries addressed)) u))
      r v j 0
    × (j < 1)

settles : (call : Sendmsg) → extended.sendmsg_x ≡ some call → SettlesAtOnce call
settles call p =
    subst SettlesAtOnce (some_inj p) (ok (2, tt), 0, 0, Settles.returns refl, omega arith)

try_send_batch-Route_example :
    (r : IoResult ℕ) × (v : ℕ) × (Macos.try_send_batch script Endian.little extended 1 3 addressed 0
      ≡ val (r, v))
    × Route script Endian.little extended 3 addressed false 0 r v
unfolding Raw.is_connected
try_send_batch-Route_example =
    try_send_batch-Route script Endian.little extended 3 addressed addressed-IsValid (omega arith) 1
      0 0 false (omega arith) (inl (refl, (refl, tt))) refl settles

abbrev recvmsg : ℕ → ℤ × List Received × ℕ
recvmsg zero = (negsuc 3, [], 1)
recvmsg (suc n) = (pos 1, hello ∷ [], n)

-- The first `recvmsg_x` is interrupted.
abbrev interrupted : Kernel
interrupted = record script { last_os_error = λ w. Errno.eintr }

abbrev receiving : Extended interrupted
receiving = record { sendmsg_x = none; recvmsg_x = some (λ fd bufs w. recvmsg w) }

interrupted_once : Settles interrupted Endian.little recvmsg (ok (1, hello ∷ [])) 0 1 0
unfolding is_interrupted
interrupted_once = Settles.again refl refl (Settles.returns refl)

try_recv_batch-Outcome_example :
    (r : IoResult ℕ) × (b' : RecvBatchRaw) × (Macos.try_recv_batch interrupted Endian.little
        receiving 2 3 one_received 0
      ≡ val (r, b', 0))
    × Outcome interrupted Endian.little one_received (ok (1, hello ∷ [])) (r, b')
try_recv_batch-Outcome_example =
    try_recv_batch-Outcome interrupted Endian.little receiving 2 1 3 one_received 0 0
      (λ fd bufs w. recvmsg w) (ok (1, hello ∷ [])) one_received-IsValid (omega arith) refl
      interrupted_once (omega arith) (refl, omega arith, (omega arith, omega arith, tt))

script-IsConventional : IsConventional script
script-IsConventional = record {
  getsockname_zero = λ fd w. refl;
  connect_zero = λ fd s n w. refl;
  setsockopt_zero = λ fd l o n w. refl;
  getsockopt_zero = λ fd l o w. refl;
}

windows_agrees_example :
    (Winsock.raw_sendto script Endian.little 3 (slice 100 3) local_addr 1
      ≡ Raw.raw_sendto script Endian.little 3 (slice 100 3) local_addr 1)
    × (Winsock.raw_send script Endian.little 3 (slice 100 3) 1
        ≡ Raw.raw_send script Endian.little 3 (slice 100 3) 1)
    × (Winsock.raw_recvfrom script Endian.little 3 (0 ∷ 0 ∷ []) 1
        ≡ Raw.raw_recvfrom script Endian.little 3 (0 ∷ 0 ∷ []) 1)
    × (Winsock.raw_connect script Endian.little 3 local_addr 1
        ≡ Raw.raw_connect script Endian.little 3 local_addr 1)
    × (Winsock.raw_getsockname script Endian.little 3 1
        ≡ Raw.raw_getsockname script Endian.little 3 1)
    × (Winsock.raw_setsockopt script Endian.little 3 sol_socket so_sndbuf 1000 1
        ≡ Raw.raw_setsockopt script Endian.little 3 sol_socket so_sndbuf 1000 1)
    × (Winsock.raw_getsockopt script Endian.little 3 sol_socket so_sndbuf 1
        ≡ Raw.raw_getsockopt script Endian.little 3 sol_socket so_sndbuf 1)
windows_agrees_example =
    windows_agrees script Endian.little script-IsConventional 3 (slice 100 3) (0 ∷ 0 ∷ [])
      local_addr sol_socket so_sndbuf 1000 1 (omega arith) (omega arith)

-- As many datagrams as the world counts can be sent and received; then a call returns -1.
abbrev wsa_recvmsg : List ℕ → ℕ → Recvfrom × ℕ
wsa_recvmsg buf zero = (record { ret = negsuc 0; buf = buf; src = loopback; addr_len = 0 }, 0)
wsa_recvmsg buf (suc n) =
    (record { ret = pos (min (length buf) 2); buf = filled buf; src = loopback; addr_len = 16 }, n)

abbrev extension : Extension script
extension = record {
  wsa_send_msg = λ fd name bytes w. elim w [ zero ↦ (negsuc 0, 0) | suc n ↦ (pos 0, n) ];
  recvmsg = some (λ fd buf w. wsa_recvmsg buf w);
}

try_send_batch-SendsSome_example :
    ((two_waiting.len ≡ 0)
      × (Windows.try_send_batch script Endian.little extension 3 two_waiting 1 ≡ val (ok 0, 1)))
    ⊎ ((r : IoResult ℕ) × (u : ℕ) × (0 < 2)
        × (Windows.try_send_batch script Endian.little extension 3 two_waiting 1 ≡ val (r, u))
        × SendsSome script Endian.little extension 3 false 1 (entries two_waiting) 0 r u)
unfolding Winsock.is_connected
try_send_batch-SendsSome_example =
    try_send_batch-SendsSome script Endian.little extension 3 two_waiting two_waiting-IsValid 1 1
      false refl

keeps_size :
    (buf buf' : List ℕ) (r : IoResult (ℕ × SocketAddr)) (w v : ℕ)
    → wsa_recv script Endian.little extension 3 buf w ≡ (r, buf', v)
    → length buf' ≡ length buf
unfolding wsa_recv
keeps_size buf buf' r zero v h =
    ap length (sym (ap (λ p. p.1) h) ∙ take-append-drop (length buf % 2 ^ 32) buf)
keeps_size buf buf' r (suc n) v h =
    let parts = ap length (take-append-drop (length buf % 2 ^ 32) buf) in
    omega (
      arith,
      ap length (sym (ap (λ p. p.1) h)),
      length-append (filled (announced buf)) (unannounced buf),
      length-append (announced buf) (unannounced buf),
      length-map {B = ℕ} (λ _. 7) (announced buf),
      parts,
    )

abbrev count : IoResult (ℕ × SocketAddr) → ℕ
count (ok (m, a)) = m
count (err x) = 0

in_buffer :
    (buf buf' : List ℕ) (m : ℕ) (a : SocketAddr) (w v : ℕ)
    → wsa_recv script Endian.little extension 3 buf w ≡ (ok (m, a), buf', v)
    → m ≤ length buf
unfolding wsa_recv
in_buffer buf buf' m a zero v h = omega (arith, ap (λ p. count p.0) h)
in_buffer buf buf' m a (suc n) v h =
    omega (arith, ap (λ p. count p.0) h, length-take (length buf % 2 ^ 32) buf)

wsa_recv-Passed_example :
    (p : Pass (wsa_recv script Endian.little extension 3)) × (Windows.try_recv_batch script
        Endian.little extension 3 one_received 1
      ≡ val (
        result (wsa_recv script Endian.little extension 3) p.0 p.2,
        batch p.1 (if p.2 == 0 then 1 else p.2),
        p.3,
      ))
    × Passed (wsa_recv script Endian.little extension 3) one_received.slots 1 p
    × IsValid (batch p.1 (if p.2 == 0 then 1 else p.2))
wsa_recv-Passed_example =
    wsa_recv-Passed script Endian.little extension 3 one_received 1
      (record { keeps_size = keeps_size; in_buffer = in_buffer }) one_received-IsValid
      (omega arith, (omega arith, tt))

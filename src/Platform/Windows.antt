-- ===== src/Platform/Windows.antt =====
-- src/platform/windows.rs: the backend over `WSASendMsg` and `WSARecvMsg`, one call for each
-- datagram.
pub mod Sending
pub mod Receiving
pub mod Loading
use binger_udp.Base.{
  ℕ, zero, suc, ◌+◌, ◌-◌, ◌%◌, ◌^◌, ℤ, pos, negsuc, Bool, true, false, not, ◌&&◌, Option, none,
  some, is_some, List, ◌++◌, ltb, ◌==◌, if◌then◌else◌, Run, ◌>>=◌, val,
}
use binger_udp.Error.{IoError, IoResult, ok, err, is_would_block}
use binger_udp.Net.{SocketAddr, Slice, slice, unspecified, Endian, u16_be, u32_be, u32_from_ne}
use binger_udp.Sockaddr.{Storage, size_of_in, size_of_in6, ipv4_from_u32}
use binger_udp.Kernel.{Kernel, Fd, Recvfrom}
use binger_udp.Raw.{last}
use binger_udp.Winsock.{is_connected, announced, unannounced}
use binger_udp.Batch.Send.{SendBatchRaw, Entry, entry}
use binger_udp.Batch.Send
use binger_udp.Batch.Recv.{RecvBatchRaw, buffer_mut, capacity}
use binger_udp.Platform.Loops.{recv_loop}

-- `WSASendMsg` gets the name with its length, if it is not null, and the bytes. `recvmsg` is what
-- `get_wsa_recvmsg` finds: its `ret` is the count of bytes
-- received, or -1 for SOCKET_ERROR.
pub record Extension (k : Kernel) : Type 0 where
  pub wsa_send_msg : Fd → Option (Storage × ℕ) → Slice → k.World → ℤ × k.World
  pub recvmsg : Option (Fd → List ℕ → k.World → Recvfrom × k.World)

module _ (e : Endian) where
  -- The storage and `namelen` afterwards.
  unfoldable pub encode_addr_into : SocketAddr → Storage × ℕ
  encode_addr_into (SocketAddr.v4 ip port) =
      (Storage.sockaddr_in (u16_be e port) (u32_from_ne e ip.a ip.b ip.c ip.d), size_of_in)
  encode_addr_into (SocketAddr.v6 octets port flowinfo scope_id) =
      (Storage.sockaddr_in6 (u16_be e port) flowinfo octets scope_id, size_of_in6)

  abbrev pub by_family : Storage → SocketAddr
  by_family (Storage.sockaddr_in port s_addr) =
      SocketAddr.v4 (ipv4_from_u32 (u32_be e s_addr)) (u16_be e port)
  by_family (Storage.sockaddr_in6 port flowinfo octets scope_id) =
      SocketAddr.v6 octets (u16_be e port) flowinfo scope_id
  by_family (Storage.sockaddr_other family) = unspecified

  unfoldable pub decode_sockaddr : Storage → ℕ → SocketAddr
  decode_sockaddr storage namelen = if namelen == 0 then unspecified else by_family storage

  -- `if !connected { if let Some(target) = addr { … } }` and `use_addr`
  unfoldable pub message_name : Bool → Option SocketAddr → Option (Storage × ℕ)
  unfolding encode_addr_into
  message_name true addr = none
  message_name false none = none
  message_name false (some target) = some (encode_addr_into target)

module _ (k : Kernel) (e : Endian) (x : Extension k) where
  open k use {World}

  -- The end of a round: any error after a success is kept back.
  abbrev pub on_send_error : IoError → ℕ → World → IoResult ℕ × World
  on_send_error er sent w =
      if is_would_block er then (ok sent, w) else if ltb 0 sent then (ok sent, w) else (err er, w)

  abbrev pub after_wsa_send :
      ℤ × World → ℕ → (World → Run (IoResult ℕ × World)) → Run (IoResult ℕ × World)
  after_wsa_send (pos zero, w) sent next = next w
  after_wsa_send (pos (suc n), w) sent next = val (on_send_error (last k e w) sent w)
  after_wsa_send (negsuc n, w) sent next = val (on_send_error (last k e w) sent w)

  abbrev pub wsa_send : Fd → Bool → Entry → World → ℤ × World
  unfolding message_name
  wsa_send fd connected (bytes, addr) w =
      x.wsa_send_msg fd (message_name e connected addr) (slice bytes.ptr (bytes.len % 2 ^ 32)) w

  unfoldable pub send_each : Fd → Bool → SendBatchRaw → ℕ → ℕ → ℕ → World → Run (IoResult ℕ × World)
  unfolding wsa_send
  send_each fd connected b zero i sent w = val (ok sent, w)
  send_each fd connected b (suc n) i sent w = do
    y ← entry b i
    after_wsa_send (wsa_send fd connected y w) sent
        (λ w'. send_each fd connected b n (i + 1) (sent + 1) w')

  unfoldable pub try_send_batch : Fd → SendBatchRaw → World → Run (IoResult ℕ × World)
  unfolding send_each
  try_send_batch fd b w =
      if Send.len b == 0
      then val (ok 0, w)
      else let (connected, w') = is_connected k e fd w in
        send_each fd connected b (Send.len b) 0 0 w'

  -- `rc == SOCKET_ERROR`, which is -1, else the count with the decoded source.
  abbrev pub received : Recvfrom → IoError → IoResult (ℕ × SocketAddr)
  unfolding decode_sockaddr
  received r er = elim r.ret [
    | pos n ↦ ok (n, decode_sockaddr e r.src r.addr_len)
    | negsuc zero ↦ err er
    | negsuc (suc n) ↦ ok (2 ^ 64 - suc (suc n), decode_sockaddr e r.src r.addr_len)
  ]

  abbrev pub receive_one : Fd → List ℕ → World → Recvfrom × World
  receive_one fd buf w = elim x.recvmsg [ some call ↦ call fd buf w | none ↦ k.recvfrom fd buf w ]

  -- `WSARecvMsg` or `recvfrom` into one buffer; `buf_len as u32` and `buf_len as i32` have the same
  -- bits.
  unfoldable pub wsa_recv : Fd → List ℕ → World → IoResult (ℕ × SocketAddr) × List ℕ × World
  unfolding received
  wsa_recv fd buf w =
      let (r, w') = receive_one fd (announced buf) w in
      (received r (last k e w'), r.buf ++ unannounced buf, w')

  unfoldable pub try_recv_batch :
      Fd → RecvBatchRaw → World → Run (IoResult ℕ × RecvBatchRaw × World)
  unfolding wsa_recv
  try_recv_batch fd b w =
      if capacity b == 0 then val (ok 0, b, w) else recv_loop (wsa_recv fd) (capacity b) 0 0 b w

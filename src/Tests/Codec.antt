-- ===== src/Tests/Codec.antt =====
-- Addresses on hosts of either byte order.
use binger_udp.Base.{◌≡◌, refl, arith}
use binger_udp.Net.{Endian, u16_be, u32_from_ne}
use binger_udp.Sockaddr.{encode_sockaddr, decode_sockaddr}
use binger_udp.Sockaddr.RoundTrip.{decode-encode}
use binger_udp.Tests.Script.{loopback, local_addr}

-- Port 80 and 127.0.0.1 as a little-endian host keeps them.
encode-local_addr : encode_sockaddr Endian.little local_addr ≡ (loopback, 16)
unfolding encode_sockaddr u16_be u32_from_ne
encode-local_addr = refl

decode-encode_example :
    let (storage, len) = encode_sockaddr Endian.little local_addr in
    decode_sockaddr Endian.little storage len ≡ local_addr
decode-encode_example =
    decode-encode Endian.little local_addr
      (omega arith, omega arith, omega arith, omega arith, omega arith)

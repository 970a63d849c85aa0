-- ===== src/Net/Words.antt =====
-- Words of 16 and 32 bits in the byte order of the host.
use binger_udp.Base.{ℕ, ◌+◌, ◌*◌, ◌/◌, ◌%◌, ◌<◌, ◌≡◌, refl, arith}

pub data Endian : Type 0 where
  little big : Endian

abbrev pub swap16 : ℕ → ℕ
swap16 x = (x % 256) * 256 + x / 256 % 256

abbrev pub swap32 : ℕ → ℕ
swap32 x =
    (x % 256) * 16777216 + (x / 256 % 256) * 65536 + (x / 65536 % 256) * 256 + x / 16777216 % 256

-- `u16::to_be` and `u16::from_be`.
unfoldable pub u16_be : Endian → ℕ → ℕ
u16_be Endian.little x = swap16 x
u16_be Endian.big x = x

-- `u32::from_be`.
unfoldable pub u32_be : Endian → ℕ → ℕ
u32_be Endian.little x = swap32 x
u32_be Endian.big x = x

-- `u32::from_ne_bytes`.
unfoldable pub u32_from_ne : Endian → ℕ → ℕ → ℕ → ℕ → ℕ
u32_from_ne Endian.little a b c d = a + b * 256 + c * 65536 + d * 16777216
u32_from_ne Endian.big a b c d = a * 16777216 + b * 65536 + c * 256 + d

pub u16_be-u16_be : (e : Endian) (x : ℕ) → x < 65536 → u16_be e (u16_be e x) ≡ x
unfolding u16_be
u16_be-u16_be Endian.little x h = omega arith
u16_be-u16_be Endian.big x h = refl

-- The four octets, read in host order and then as a big-endian word, have the first on top.
pub u32_be-from_ne :
    (e : Endian) (a b c d : ℕ)
    → a < 256
    → b < 256
    → c < 256
    → d < 256
    → u32_be e (u32_from_ne e a b c d) ≡ a * 16777216 + b * 65536 + c * 256 + d
unfolding u32_be u32_from_ne
u32_be-from_ne Endian.little a b c d ha hb hc hd = omega arith
u32_be-from_ne Endian.big a b c d ha hb hc hd = refl

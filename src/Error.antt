-- ===== src/Error.antt =====
-- src/error.rs, and the part of `std::io::Error` that the library looks at.
use binger_udp.Base.{ℕ, Bool, true, false, ◌≡◌, refl, ◌⊎◌, inl, inr}

-- What `decode_error_kind` of std makes of an errno: EAGAIN, EINTR, ENOSYS and all others.
pub data Errno : Type 0 where
  eagain eintr enosys : Errno
  errno : ℕ → Errno

pub data ErrorKind : Type 0 where
  would_block interrupted unsupported uncategorized : ErrorKind

-- `io::Error`: from the operating system, or made by the library with kind `Other`.
pub data IoError : Type 0 where
  os : Errno → IoError
  other : IoError

unfoldable pub kind : IoError → ErrorKind
kind (os Errno.eagain) = ErrorKind.would_block
kind (os Errno.eintr) = ErrorKind.interrupted
kind (os Errno.enosys) = ErrorKind.unsupported
kind (os (Errno.errno n)) = ErrorKind.uncategorized
kind other = ErrorKind.uncategorized

-- `e.kind() == io::ErrorKind::WouldBlock`
abbrev pub is_would_block_kind : ErrorKind → Bool
is_would_block_kind ErrorKind.would_block = true
is_would_block_kind _ = false

unfoldable pub is_would_block : IoError → Bool
unfolding kind
is_would_block e = is_would_block_kind (kind e)

abbrev pub is_interrupted_kind : ErrorKind → Bool
is_interrupted_kind ErrorKind.interrupted = true
is_interrupted_kind _ = false

-- `e.kind() == io::ErrorKind::Interrupted`
unfoldable pub is_interrupted : IoError → Bool
unfolding kind
is_interrupted e = is_interrupted_kind (kind e)

-- `e.raw_os_error() == Some(libc::ENOSYS)`
unfoldable pub is_enosys : IoError → Bool
is_enosys (os Errno.enosys) = true
is_enosys _ = false

-- `Result<T, E>`
pub data Result {ℓ} (E : Type 0) (A : Type ℓ) : Type ℓ where
  ok : A → Result E A
  err : E → Result E A

-- `io::Result<T>`
abbrev pub IoResult {ℓ} : Type ℓ → Type ℓ
IoResult A = Result IoError A

-- `enum BingerError`
pub data BingerError : Type 0 where
  batch_full : (capacity : ℕ) → BingerError
  io : IoError → BingerError

-- How a call ended, with the equation that says so.
pub Result-cases {ℓ κ} :
    {E : Type 0} {A : Type ℓ} {S : Type κ} (p : Result E A × S)
    → ((a : A) × (s : S) × (p ≡ (ok a, s))) ⊎ ((e : E) × (s : S) × (p ≡ (err e, s)))
Result-cases (ok a, s) = inl (a, s, refl)
Result-cases (err e, s) = inr (e, s, refl)

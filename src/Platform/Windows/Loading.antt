-- ===== src/Platform/Windows/Loading.antt =====
-- src/platform/windows.rs: `get_wsa_recvmsg`, which asks for the extension function once.
use binger_udp.Base.{
  ℕ, zero, suc, ℤ, negsuc, ◌≡◌, refl, Option, none, some, List, [], ◌∷◌, replicate,
}

-- The calls on a temporary socket; `socket` gives none for INVALID_SOCKET, and `wsa_ioctl` what it
-- writes to `func_ptr`.
pub record Loader (W F : Type 0) : Type 0 where
  pub socket : W → Option ℕ × W
  pub wsa_ioctl : ℕ → W → ℤ × Option F × W
  pub closesocket : ℕ → W → W

module _ {W F : Type 0} (l : Loader W F) where
  -- `rc == SOCKET_ERROR`, which is -1
  abbrev pub func_ptr : ℤ → Option F → Option F
  func_ptr (negsuc zero) f = none
  func_ptr _ f = f

  abbrev pub on_socket : Option ℕ × W → Option F × W
  on_socket (none, w) = (none, w)
  on_socket (some s, w) = let (rc, f, w') = l.wsa_ioctl s w in (func_ptr rc f, l.closesocket s w')

  -- The answer, what the lock holds afterwards, and the world.
  unfoldable pub get_wsa_recvmsg : Option (Option F) → W → Option F × Option (Option F) × W
  get_wsa_recvmsg (some f) w = (f, some f, w)
  get_wsa_recvmsg none w = let (f, w') = on_socket (l.socket w) in (f, some f, w')

  -- The answers of `n` calls in a row, and the world after them.
  abbrev pub get_times : ℕ → Option (Option F) → W → List (Option F) × W
  get_times zero lock w = ([], w)
  get_times (suc n) lock w =
      let (f, lock', w₁) = get_wsa_recvmsg lock w in
      let (fs, w₂) = get_times n lock' w₁ in (f ∷ fs, w₂)

  loaded : (n : ℕ) (f : Option F) (w : W) → get_times n (some f) w ≡ (replicate n f, w)
  unfolding get_wsa_recvmsg
  loaded zero f w = refl
  loaded (suc n) f w = rw (loaded n f w) refl

  -- However often the function is asked for from an empty lock on, only the first call looks it up,
  -- and all give its answer.
  pub load_once :
      (n : ℕ) (w : W)
      → get_times (suc n) none w
        ≡ (replicate (suc n) (on_socket (l.socket w)).0, (on_socket (l.socket w)).1)
  unfolding get_wsa_recvmsg
  load_once n w = rw (loaded n (on_socket (l.socket w)).0 (on_socket (l.socket w)).1) refl

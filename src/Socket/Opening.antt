-- ===== src/Socket/Opening.antt =====
-- src/socket.rs: `from_std` makes its calls in order up to the first that fails, and a socket that
-- it opens is sound.
use binger_udp.Base.{
  ℕ, ◌%◌, ◌^◌, ◌≡◌, refl, Bool, true, false, Option, none, some, List, [], ◌∷◌, if◌then◌else◌, inl,
  inr, subst, sym, ◌∙◌, ap,
}
use binger_udp.Error.{IoResult, ok, Result-cases}
use binger_udp.Net.{Endian}
use binger_udp.Kernel.{Kernel, Fd, OptName, so_sndbuf, so_rcvbuf, sol_socket}
use binger_udp.Raw.{raw_setsockopt}
use binger_udp.Adaptive.{AdaptiveState}
use binger_udp.Adaptive
use binger_udp.Adaptive.Bounds.{new-InBounds}
use binger_udp.Metrics
use binger_udp.Socket.{BingerUdp, mutex}
use binger_udp.Socket.Config.{Config}
use binger_udp.Socket.Setup.{Runtime, then_io, set_buffer, opened, from_std}
use binger_udp.Socket.Sound.{IsSound, Agree, TargetInBounds}

-- A call that the set-up makes.
abbrev pub Call : Type 0 → Type 0
Call W = W → IoResult (Unit {0}) × W

-- Calls in order, the first error first.
abbrev pub in_order : {W A : Type 0} → List (Call W) → (W → A) → W → IoResult A × W
in_order [] end w = (ok (end w), w)
in_order (c ∷ cs) end w = then_io (c w) (in_order cs end)

metrics-Agree : (on : Bool) → Agree (if on then some Metrics.default else none)
unfolding Metrics.default
metrics-Agree true = (refl, refl)
metrics-Agree false = tt

target-InBounds :
    (on : Bool) (now size : ℕ)
    → TargetInBounds (if on then some (mutex (Adaptive.new now size)) else none)
target-InBounds true now size = new-InBounds now size
target-InBounds false now size = tt

module _ (k : Kernel) (e : Endian) (rt : Runtime k.World) (fd : Fd) (c : Config) where
  open k use {World}

  abbrev buffer_calls : OptName → Option ℕ → List (Call World) → List (Call World)
  buffer_calls opt none rest = rest
  buffer_calls opt (some size) rest =
      (λ w. raw_setsockopt k e fd sol_socket opt (size % 2 ^ 32) w) ∷ rest

  -- What is asked for: non-blocking mode, the buffer sizes that the configuration gives, and tokio.
  abbrev pub calls : List (Call World)
  calls =
      rt.set_nonblocking fd true
      ∷ buffer_calls so_sndbuf c.send_buf_size
          (buffer_calls so_rcvbuf c.recv_os_buf_size (rt.tokio_from_std fd ∷ []))

  pub opened-IsSound : (w : World) → IsSound (opened k e rt fd c w)
  opened-IsSound w = record {
    agree = metrics-Agree c.metrics_enabled;
    send_target = target-InBounds c.adaptive_batching (rt.now w) c.batch_size;
    recv_target = target-InBounds c.adaptive_batching (rt.later w) c.batch_size;
  }

  in_order-calls :
      (send recv : Option ℕ) (w : World)
      → then_io (rt.set_nonblocking fd true w) (λ w₁.
        then_io (set_buffer k e rt so_sndbuf send fd w₁) λ w₂.
          then_io
            (set_buffer k e rt so_rcvbuf recv fd w₂)
            λ w₃. then_io (rt.tokio_from_std fd w₃) λ w₄. (ok (opened k e rt fd c w₄), w₄))
        ≡ in_order
            (rt.set_nonblocking fd true
              ∷ buffer_calls so_sndbuf send
                  (buffer_calls so_rcvbuf recv (rt.tokio_from_std fd ∷ [])))
            (opened k e rt fd c)
            w
  in_order-calls none none w = refl
  in_order-calls none (some m) w = refl
  in_order-calls (some n) none w = refl
  in_order-calls (some n) (some m) w = refl

  in_order-ok :
      {A : Type 0} (cs : List (Call World)) (end : World → A) (w v : World) (a : A)
      → in_order cs end w ≡ (ok a, v)
      → a ≡ end v
  in_order-ok [] end w v a p = cc
  in_order-ok (call ∷ cs) end w v a p = elim (Result-cases (call w)) [
    | inl (u, w₁, q) ↦ in_order-ok cs end w₁ v a (ap (λ r. then_io r (in_order cs end)) (sym q) ∙ p)
    | inr (x, w₁, q) ↦ cc (ap (λ r. then_io r (in_order cs end)) (sym q) ∙ p)
  ]

  -- `from_std` makes its calls in their order up to the first that fails, whose error it returns:
  -- non-blocking mode, the buffer sizes that are configured, the conversion for tokio. A socket
  -- that it returns is over the given descriptor and sound.
  pub from_std-in_order :
      (w : World)
      → (from_std k e rt fd c w ≡ in_order calls (opened k e rt fd c) w)
        × ((s : BingerUdp) (v : World)
            → from_std k e rt fd c w ≡ (ok s, v)
            → (s.fd ≡ fd) × IsSound s)
  unfolding from_std
  from_std-in_order w =
      let same = in_order-calls c.send_buf_size c.recv_os_buf_size w in
      (
        same,
        λ s v p.
            let q = in_order-ok calls (opened k e rt fd c) w v s (sym same ∙ p) in
            (ap (λ (t : BingerUdp). t.fd) q, subst IsSound (sym q) (opened-IsSound v)),
      )

-- ===== src/Platform/Macos/Sending.antt =====
-- src/platform/macos.rs: what `try_send_batch` hands to the kernel and returns.
use binger_udp.Base.{
  ℕ, zero, suc, ◌%◌, ◌^◌, ℤ, pos, negsuc, ◌<◌, ◌≡◌, refl, ◌⊎◌, inl, inr, none, some, Bool, true,
  false, List, map, take, val, arith, pos_ne_zero, Option-cases, take_all, length-map,
}
use binger_udp.Error.{IoResult, ok, err, is_interrupted}
use binger_udp.Net.{Endian}
use binger_udp.Kernel.{Kernel, Fd, Datagram}
use binger_udp.Raw.{is_connected, last}
use binger_udp.Batch.Send.{SendBatchRaw, entries, len, IsValid}
use binger_udp.Batch.Send.Refine.{length-entries}
use binger_udp.Platform.Loops.{send_entry}
use binger_udp.Platform.Loops.Sends.{Sends, send_loop-Sends}
use binger_udp.Platform.Linux.Send.Stack.{message}
use binger_udp.Platform.Linux.Send.Heap.{AllTo, AllConnected, heap_datagrams-messages}
use binger_udp.Platform.Macos.{
  Extended, retry_eintr, sent_result, no_output, send_messages, try_send_batch,
}

module _ (k : Kernel) (e : Endian) where
  open k use {World}

  -- A call is interrupted `j` times, and then returns.
  pub data Settles {A : Type 0} (call : World → ℤ × A × World)
      : IoResult (ℕ × A) → World → ℕ → World → Type 0 where
    returns :
        {w v : World} {n : ℕ} {a : A} → call w ≡ (pos n, a, v) → Settles call (ok (n, a)) v zero w
    fails :
        {w v : World} {m : ℕ} {a : A}
        → call w ≡ (negsuc m, a, v)
        → is_interrupted (last k e v) ≡ false
        → Settles call (err (last k e v)) v zero w
    again :
        {r : IoResult (ℕ × A)} {v w u : World} {j m : ℕ} {a : A}
        → call w ≡ (negsuc m, a, u)
        → is_interrupted (last k e u) ≡ true
        → Settles call r v j u
        → Settles call r v (suc j) w

  pub retry_eintr-Settles :
      {A : Type 0} (fuel : ℕ) {call : World → ℤ × A × World} {r : IoResult (ℕ × A)} {v : World}
      {j : ℕ} {w : World}
      → Settles call r v j w
      → j < fuel
      → retry_eintr k e fuel call w ≡ val (r, v)
  unfolding retry_eintr
  retry_eintr-Settles zero settles h = elim h [ ]
  retry_eintr-Settles (suc fuel) (returns p) h = rw p refl
  retry_eintr-Settles (suc fuel) (fails p q) h = rw (p, q) refl
  retry_eintr-Settles (suc fuel) (again p q rest) h =
      rw (p, q) (retry_eintr-Settles fuel rest (omega arith))

  module _ (x : Extended k) (fd : Fd) (b : SendBatchRaw) where
    -- The path that a send takes from the world after `is_connected`: single sends on a connected
    -- socket, and where the system lacks `sendmsg_x`; else one `sendmsg_x` of all entries.
    pub data Route (connected : Bool) (w : World) : IoResult ℕ → World → Type 0 where
      single :
          {r : IoResult ℕ} {v : World}
          → (connected ≡ true) ⊎ (x.sendmsg_x ≡ none)
          → Sends (send_entry k e fd connected) w (entries b) r v
          → Route connected w r v
      together :
          {r : IoResult (ℕ × Unit {0})} {v : World} {j : ℕ}
          (call : Fd → List Datagram → World → ℤ × World)
          → connected ≡ false
          → x.sendmsg_x ≡ some call
          → Settles (λ u. no_output k e (call fd (map (message e) (entries b)) u)) r v j w
          → Route connected w (sent_result k e r) v

    -- `sendmsg_x`, if the system has it, settles on these entries within the fuel.
    abbrev pub SettlesWithin : ℕ → World → Type 0
    SettlesWithin fuel w =
        (call : Fd → List Datagram → World → ℤ × World)
        → x.sendmsg_x ≡ some call
        → (r : IoResult (ℕ × Unit {0})) × (v : World) × (j : ℕ) × Settles
            (λ u. no_output k e (call fd (map (message e) (entries b)) u)) r v j w
          × (j < fuel)

    module _ (valid : IsValid b) (small : b.len < 2 ^ 32) where
      send_messages-Route :
          (fuel : ℕ) (w : World)
          → SettlesWithin fuel w
          → (r : IoResult ℕ) × (v : World) × (send_messages k e x fuel fd b
                (map (message e) (entries b))
                w
              ≡ val (r, v))
            × Route false w r v
      unfolding send_messages len
      send_messages-Route fuel w within = elim (Option-cases x.sendmsg_x) [
        | inl p ↦
            let (r, v, run, sends) = send_loop-Sends (send_entry k e fd false) b w valid in
            (r, v, rw p run, Route.single (inr p) sends)
        | inr (call, p) ↦
            let (r, v, j, settles, enough) = within call p in
            let all : take (b.len % 2 ^ 32) (map (message e) (entries b))
                ≡ map (message e) (entries b) =
              take_all _ _
                (omega (arith, length-map (message e) (entries b), length-entries b valid)) in
            (
              sent_result k e r,
              v,
              rw (p, all, retry_eintr-Settles fuel settles enough) refl,
              Route.together call refl p settles,
            )
      ]

      -- On a valid batch of more than 0 and fewer than 2 ^ 32 entries, all of which have an address
      -- or none of which has, `try_send_batch` does not panic or run out of fuel where the fuel
      -- exceeds the interruptions. On a connected socket, or where `sendmsg_x` is missing, the
      -- entries are sent one by one, as many as the kernel takes before the first that would block;
      -- else all entries, in order and each with its own address, are handed to one `sendmsg_x`,
      -- whose count or error is the result.
      pub try_send_batch-Route :
          (fuel : ℕ) (w w₁ : World) (connected : Bool)
          → 0 < b.len
          → AllTo (entries b) ⊎ AllConnected (entries b)
          → is_connected k e fd w ≡ (connected, w₁)
          → SettlesWithin fuel w₁
          → (r : IoResult ℕ) × (v : World) × (try_send_batch k e x fuel fd b w ≡ val (r, v))
            × Route connected w₁ r v
      unfolding try_send_batch len
      try_send_batch-Route fuel w w₁ true some_entry uniform p within =
          let (r, v, run, sends) = send_loop-Sends (send_entry k e fd true) b w₁ valid in
          (r, v, rw (pos_ne_zero b.len some_entry, p) run, Route.single (inl refl) sends)
      try_send_batch-Route fuel w w₁ false some_entry uniform p within =
          let (r, v, run, route) = send_messages-Route fuel w₁ within in
          (
            r,
            v,
            rw (pos_ne_zero b.len some_entry, p, heap_datagrams-messages e b valid uniform) run,
            route,
          )

-- ===== src/Platform/Windows/Sending.antt =====
-- src/platform/windows.rs: what `try_send_batch` hands to the kernel and returns.
use binger_udp.Base.{
  ℕ, zero, suc, ◌+◌, ◌<◌, ◌≡◌, refl, ◌∙◌, ap, sym, ◌⊎◌, inl, inr, Bool, true, false, ltb, ltb→lt,
  List, [], ◌∷◌, ◌++◌, drop, length, ℤ, pos, negsuc, ◌==◌, Bool-cases, val, Run, arith, ◌≢◌,
}
use binger_udp.Error.{IoResult, ok, err, is_would_block}
use binger_udp.Net.{Endian}
use binger_udp.Kernel.{Kernel, Fd}
use binger_udp.Raw.{last}
use binger_udp.Winsock.{is_connected}
use binger_udp.Batch.Send.{SendBatchRaw, Entry, entries, len, IsValid}
use binger_udp.Batch.Send.Entry.{drop-entry, drop_end}
use binger_udp.Platform.Windows.{
  Extension, on_send_error, after_wsa_send, wsa_send, send_each, try_send_batch,
}

module _ (k : Kernel) (e : Endian) (x : Extension k) (fd : Fd) (connected : Bool) where
  open k use {World}

  -- `WSASendMsg` takes the entries one after the other.
  pub data Taken : World → List Entry → World → Type 0 where
    nothing : {w : World} → Taken w [] w
    each :
        {w v u : World} {y : Entry} {ys : List Entry}
        → wsa_send k e x fd connected y w ≡ (pos 0, v)
        → Taken v ys u
        → Taken w (y ∷ ys) u

  -- A call that returns anything but 0.
  abbrev pub Refused : ℤ → Type 0
  Refused (pos n) = n ≢ 0
  Refused (negsuc n) = Unit {0}

  -- The outcome for the entries `xs` after `sent` others: all are taken; or one is refused where it
  -- would block or some were taken, and the result is their number; or the very first is refused
  -- with an error that is the result.
  pub data SendsSome (w : World) (xs : List Entry) (sent : ℕ) (r : IoResult ℕ) (u : World)
      : Type 0 where
    all : Taken w xs u → r ≡ ok (sent + length xs) → SendsSome w xs sent r u
    stopped :
        {v : World} {ret : ℤ} (ys : List Entry) (y : Entry) (zs : List Entry)
        → xs ≡ ys ++ y ∷ zs
        → Taken w ys v
        → wsa_send k e x fd connected y v ≡ (ret, u)
        → Refused ret
        → (is_would_block (last k e u) ≡ true) ⊎ (0 < sent + length ys)
        → r ≡ ok (sent + length ys)
        → SendsSome w xs sent r u
    failed :
        {ret : ℤ} (y : Entry) (zs : List Entry)
        → xs ≡ y ∷ zs
        → wsa_send k e x fd connected y w ≡ (ret, u)
        → Refused ret
        → sent ≡ 0
        → is_would_block (last k e u) ≡ false
        → r ≡ err (last k e u)
        → SendsSome w xs sent r u

  abbrev after : ℤ × World → ℕ → (World → IoResult ℕ × World) → IoResult ℕ × World
  after (pos zero, w) sent next = next w
  after (pos (suc n), w) sent next = on_send_error k e x (last k e w) sent w
  after (negsuc n, w) sent next = on_send_error k e x (last k e w) sent w

  -- The loop over a list.
  send_list : List Entry → ℕ → World → IoResult ℕ × World
  send_list [] sent w = (ok sent, w)
  send_list (y ∷ ys) sent w = after (wsa_send k e x fd connected y w) sent (send_list ys (sent + 1))

  call_cases :
      (c : ℤ × World)
      → ((v : World) × (c ≡ (pos 0, v)))
        ⊎ ((ret : ℤ) × (v : World) × (c ≡ (ret, v))
            × Refused ret
            × ((sent : ℕ) (next : World → IoResult ℕ × World)
                → after c sent next ≡ on_send_error k e x (last k e v) sent v)
            × ((sent : ℕ) (next : World → Run (IoResult ℕ × World))
                → after_wsa_send k e x c sent next ≡ val (on_send_error k e x (last k e v) sent v)))
  call_cases (pos zero, v) = inl (v, refl)
  call_cases (pos (suc n), v) =
      inr (pos (suc n), v, refl, (λ p. omega arith), (λ s t. refl), (λ s t. refl))
  call_cases (negsuc n, v) = inr (negsuc n, v, refl, tt, (λ s t. refl), (λ s t. refl))

  send_each-send_list :
      (b : SendBatchRaw) (n i sent : ℕ) (w : World)
      → IsValid b
      → i + n ≡ b.len
      → send_each k e x fd connected b n i sent w ≡ val (send_list (drop i (entries b)) sent w)
  unfolding send_each send_list
  send_each-send_list b zero i sent w v h = rw (drop_end b i v (omega arith)) refl
  send_each-send_list b (suc n) i sent w v h =
      let (y, here, split) = drop-entry b i v (omega arith) in
      elim (call_cases (wsa_send k e x fd connected y w)) [
        | inl (u, p) ↦
            rw (here, split, p, send_each-send_list b n (i + 1) (sent + 1) u v (omega arith)) refl
        | inr (ret, u, p, refused, listed, looped) ↦
            rw (here, split) (looped sent _ ∙ ap val (sym (listed sent _)))
      ]

  SendsSome-each :
      {w v u : World} {y : Entry} {ys : List Entry} {r : IoResult ℕ} (sent : ℕ)
      → wsa_send k e x fd connected y w ≡ (pos 0, v)
      → SendsSome v ys (sent + 1) r u
      → SendsSome w (y ∷ ys) sent r u
  SendsSome-each sent p (all a q) = all (each p a) (q ∙ ap ok (omega arith))
  SendsSome-each {y} sent p (stopped ys z zs q a call refused why s) =
      stopped (y ∷ ys) z zs (ap (λ l. y ∷ l) q) (each p a) call refused (inr (omega arith))
        (s ∙ ap ok (omega arith))
  SendsSome-each sent p (failed z zs q call refused first blocked s) = absurd (omega arith)

  SendsSome-Refused :
      {w u : World} {ret : ℤ} (y : Entry) (ys : List Entry) (sent : ℕ)
      → wsa_send k e x fd connected y w ≡ (ret, u)
      → Refused ret
      → SendsSome w
          (y ∷ ys)
          sent
          (on_send_error k e x (last k e u) sent u).0
          (on_send_error k e x (last k e u) sent u).1
  SendsSome-Refused {u} y ys sent p refused = elim (Bool-cases (is_would_block (last k e u))) [
    | inl t ↦ rw t (stopped [] y ys refl nothing p refused (inl t) (ap ok (omega arith)))
    | inr t ↦ elim (Bool-cases (ltb 0 sent)) [
      | inl s ↦
          rw (t, s)
            (stopped [] y ys refl nothing p refused
              (inr (let more = ltb→lt 0 sent s in omega arith)) (ap ok (omega arith)))
      | inr s ↦ rw (t, s) (failed y ys refl p refused (ground arith) t refl)
    ]
  ]

  send_list-SendsSome :
      (xs : List Entry) (sent : ℕ) (w : World)
      → SendsSome w xs sent (send_list xs sent w).0 (send_list xs sent w).1
  unfolding send_list
  send_list-SendsSome [] sent w = all nothing (ap ok (omega arith))
  send_list-SendsSome (y ∷ ys) sent w = elim (call_cases (wsa_send k e x fd connected y w)) [
    | inl (v, p) ↦ rw p (SendsSome-each sent p (send_list-SendsSome ys (sent + 1) v))
    | inr (ret, u, p, refused, listed, looped) ↦
        rw (listed sent (send_list ys (sent + 1))) (SendsSome-Refused y ys sent p refused)
  ]

-- `try_send_batch` over a valid batch does not panic. For an empty batch it returns `Ok(0)` without
-- a call. Otherwise it asks once whether the socket is connected and then hands the entries to
-- `WSASendMsg` in order: all are taken and their number returned; or one is refused where it would
-- block or after others were taken, and the number of those is returned; or the first is refused
-- with an error that is returned.
pub try_send_batch-SendsSome :
    (k : Kernel) (e : Endian) (x : Extension k) (fd : Fd) (b : SendBatchRaw)
    → IsValid b
    → (w v : k.World) (connected : Bool) → is_connected k e fd w ≡ (connected, v)
    → (b.len ≡ 0 × try_send_batch k e x fd b w ≡ val (ok 0, w))
      ⊎ ((r : IoResult ℕ) × (u : k.World) × (0 < b.len)
          × (try_send_batch k e x fd b w ≡ val (r, u))
          × SendsSome k e x fd connected v (entries b) 0 r u)
unfolding try_send_batch len
try_send_batch-SendsSome k e x fd b valid w v connected asked = elim (Bool-cases (b.len == 0)) [
  | inl t ↦ inl (ground arith, rw t refl)
  | inr t ↦ inr (
    (send_list k e x fd connected (entries b) 0 v).0,
    (send_list k e x fd connected (entries b) 0 v).1,
    ground arith,
    rw (t, asked) (send_each-send_list k e x fd connected b b.len 0 0 v valid (omega arith)),
    send_list-SendsSome k e x fd connected (entries b) 0 v,
  )
]

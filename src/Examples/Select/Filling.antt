-- ===== src/Examples/Select/Filling.antt =====
-- examples/select.rs: filling the send batch does not panic.
use binger_udp.Base.{
  ℕ, suc, ◌+◌, ◌≤◌, ◌<◌, ◌≡◌, refl, ◌∙◌, ap, false, leb, Option, some, List, [], ◌∷◌, length, val,
  arith, inl, inr, Bool-cases,
}
use binger_udp.Error.{ok}
use binger_udp.Net.{SocketAddr, Slice}
use binger_udp.Batch.Send.{
  SendBatch, SendBatchRaw, IsValid, new, with_capacity, push, push_to, clear, clear_all,
}
use binger_udp.Batch.Send.Refine.{push_refines, clear_refines}
use binger_udp.Examples.Select.{fill_batch}

-- A valid batch of capacity 8 that holds `n` datagrams.
pub record HasFilled (n : ℕ) (b : SendBatch 8) : Type 0 where
  pub valid : IsValid b.raw
  pub cap : b.raw.slots.cap ≡ 8
  pub count : b.raw.len ≡ n

push-room :
    (b : SendBatchRaw) (msg : Slice) (addr : Option SocketAddr)
    → leb b.slots.cap b.len ≡ false
    → ((push b msg addr).0 ≡ ok tt) × ((push b msg addr).1.len ≡ b.len + 1)
unfolding push
push-room b msg addr free = rw free (refl, refl)

push_to-HasFilled :
    (n : ℕ) (b : SendBatch 8) (msg : Slice) (a : SocketAddr)
    → HasFilled n b
    → n < 8
    → (b' : SendBatch 8) × (push_to 8 b msg a ≡ (ok tt, b')) × HasFilled (suc n) b'
unfolding push_to
push_to-HasFilled n b msg a h room = elim (Bool-cases (leb b.raw.slots.cap b.raw.len)) [
  | inl full ↦ absurd (ground (arith, h.cap, h.count))
  | inr free ↦
      let (accepted, longer) = push-room b.raw msg (some a) free in
      let (answered, valid, cap) = push_refines b.raw msg (some a) h.valid in
      (
        record { raw = (push b.raw msg (some a)).1 },
        ap (λ r. (r, record { raw = (push b.raw msg (some a)).1 })) accepted,
        record { valid = valid; cap = cap ∙ h.cap; count = omega (arith, longer, h.count) },
      )
]

pub fill_batch-HasFilled :
    (msgs : List Slice) (n : ℕ) (b : SendBatch 8) (a : SocketAddr)
    → HasFilled n b
    → n + length msgs ≤ 8
    → (b' : SendBatch 8) × (fill_batch msgs a b ≡ val b') × HasFilled (n + length msgs) b'
unfolding fill_batch
fill_batch-HasFilled [] n b a h room =
    (b, refl, record { valid = h.valid; cap = h.cap; count = omega (arith, h.count) })
fill_batch-HasFilled (msg ∷ msgs) n b a h room =
    let (b₁, pushed, h₁) = push_to-HasFilled n b msg a h (omega arith) in
    let (b₂, rest, h₂) = fill_batch-HasFilled msgs (suc n) b₁ a h₁ (omega arith) in
    (b₂, rw pushed rest, record { valid = h₂.valid; cap = h₂.cap; count = omega (arith, h₂.count) })

pub clear_all-HasFilled : (n : ℕ) (b : SendBatch 8) → HasFilled n b → HasFilled 0 (clear_all 8 b)
unfolding clear_all clear
clear_all-HasFilled n b h = record {
  valid = (clear_refines b.raw h.valid).1;
  cap = h.cap;
  count = refl;
}

pub new-HasFilled : HasFilled 0 (new 8)
unfolding new with_capacity
new-HasFilled = record {
  valid = record { covered = omega arith; fits = omega arith };
  cap = refl;
  count = refl;
}

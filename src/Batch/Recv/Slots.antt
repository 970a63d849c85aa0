-- ===== src/Batch/Recv/Slots.antt =====
-- src/batch.rs: one slot of a receive batch, written and read.
use binger_udp.Base.{
  ℕ, zero, suc, subst, some_inj, ◌≤◌, ◌≡◌, some, List, [], ◌∷◌, map, take, set, replicate, length,
  get_elem?, le→leb, arith, panic, val, get_elem?-none,
}
use binger_udp.Batch.Recv.{
  RecvSlot, RecvBatchRaw, with_capacity, fresh_slot, slot_mut, payload, addr, clear, reset_slot,
  Fits, All, IsValid,
}

module _ (P : RecvSlot → Type 0) where
  pub All-get :
      (xs : List RecvSlot) (i : ℕ) {s : RecvSlot} → All P xs → get_elem? xs i ≡ some s → P s
  All-get [] i h e = cc
  All-get (x ∷ xs) zero h e = subst P (some_inj e) h.0
  All-get (x ∷ xs) (suc i) h e = All-get xs i h.1 e

  pub All-set : (xs : List RecvSlot) (i : ℕ) (s : RecvSlot) → All P xs → P s → All P (set xs i s)
  All-set [] i s h p = h
  All-set (x ∷ xs) zero s h p = (p, h.1)
  All-set (x ∷ xs) (suc i) s h p = (h.0, All-set xs i s h.1 p)

  pub All-replicate : (n : ℕ) (s : RecvSlot) → P s → All P (replicate n s)
  All-replicate zero s p = tt
  All-replicate (suc n) s p = (p, All-replicate n s p)

-- In bounds `slot_mut` rewrites that slot and no other; out of bounds it panics.
pub slot_mut-some :
    (b : RecvBatchRaw) (i : ℕ) (f : RecvSlot → RecvSlot) (s : RecvSlot)
    → get_elem? b.slots i ≡ some s
    → slot_mut b i f ≡ val (record b { slots = set b.slots i (f s) })
unfolding slot_mut
slot_mut-some b i f s e = rw e

pub slot_mut-none :
    (b : RecvBatchRaw) (i : ℕ) (f : RecvSlot → RecvSlot)
    → length b.slots ≤ i
    → slot_mut b i f ≡ panic
unfolding slot_mut
slot_mut-none b i f h = rw (get_elem?-none b.slots i h)

pub payload-some :
    (b : RecvBatchRaw) (i : ℕ) (s : RecvSlot)
    → get_elem? b.slots i ≡ some s
    → Fits s
    → payload b i ≡ val (take s.recv_len s.buf)
unfolding payload
payload-some b i s e h = rw (e, le→leb s.recv_len (length s.buf) h)

pub addr-some :
    (b : RecvBatchRaw) (i : ℕ) (s : RecvSlot) → get_elem? b.slots i ≡ some s → addr b i ≡ val s.addr
unfolding addr
addr-some b i s e = rw e

pub with_capacity-IsValid : (n size : ℕ) → IsValid (with_capacity n size)
unfolding with_capacity
with_capacity-IsValid n size = record {
  within = omega arith;
  fit = All-replicate Fits n (fresh_slot size) (omega arith);
}

reset-Fits : (xs : List RecvSlot) → All Fits (map reset_slot xs)
reset-Fits [] = tt
reset-Fits (x ∷ xs) = (omega arith, reset-Fits xs)

pub clear-IsValid : (b : RecvBatchRaw) → IsValid (clear b)
unfolding clear
clear-IsValid b = record { within = omega arith; fit = reset-Fits b.slots }

-- ===== src/Batch/Send/Refine.antt =====
-- src/batch.rs: a send batch is a list of bounded length.
use binger_udp.Base.{
  ℕ, suc, ◌≤◌, ◌<◌, ◌≡◌, refl, ap, inl, inr, Option, List, [], ◌∷◌, ◌++◌, take, length, leb,
  if◌then◌else◌, Bool-cases, arith, length-append, length-set, length-take, length-map, take-set,
  take_all, Vec,
}
use mathlib.Core.List.{map-append}
use native.Mathlib.Numerals.{add-one}
use binger_udp.Error.{BingerError, batch_full, Result, ok, err}
use binger_udp.Net.{SocketAddr, Slice}
use binger_udp.Batch.Send.{
  SendSlot, SendBatchRaw, Entry, with_capacity, place, push, clear, view, entries, IsValid,
}

-- The specification: a list of at most `cap` entries.
unfoldable pub spec_push : ℕ → List Entry → Entry → Result BingerError (Unit {0}) × List Entry
spec_push cap xs x =
    if leb cap (length xs) then (err (batch_full cap), xs) else (ok tt, xs ++ x ∷ [])

pub length-entries : (b : SendBatchRaw) → IsValid b → length (entries b) ≡ b.len
length-entries b v =
    omega (arith, length-map view (take b.len b.slots.items), length-take b.len b.slots.items)

take-snoc :
    (xs : List SendSlot) (n : ℕ) (s : SendSlot)
    → length xs ≡ n
    → take (suc n) (xs ++ s ∷ []) ≡ take n xs ++ s ∷ []
take-snoc xs n s e = rw (
  take_all (xs ++ s ∷ []) (suc n) (omega (arith, length-append xs (s ∷ []))),
  take_all xs n (omega arith),
)

-- What the write at the end of a valid batch leaves: one more entry, and no reallocation.
place_lem :
    (slots : Vec SendSlot) (n : ℕ) (s : SendSlot)
    → n ≤ length slots.items
    → length slots.items ≤ slots.cap
    → n < slots.cap
    → (take (suc n) (place slots n s).items ≡ take n slots.items ++ s ∷ [])
      × (suc n ≤ length (place slots n s).items)
      × (length (place slots n s).items ≤ (place slots n s).cap)
      × ((place slots n s).cap ≡ slots.cap)
unfolding place
place_lem slots n s covered fits room = elim (Bool-cases (leb (length slots.items) n)) [
  | inl at_end ↦ rw at_end (
    take-snoc slots.items n s (ground arith),
    ground (arith, length-append slots.items (s ∷ [])),
    ground (arith, length-append slots.items (s ∷ [])),
    ground arith,
  )
  | inr inside ↦ rw inside (
    take-set slots.items n s (ground arith),
    ground (arith, length-set slots.items n s),
    ground (arith, length-set slots.items n s),
    refl,
  )
]

abbrev slot_of : Entry → SendSlot
slot_of x = record { data_ptr = x.0.ptr; data_len = x.0.len; addr = x.1 }

-- On a valid batch `push` answers as the bounded list of the entries does, leaves the batch
-- holding the list that results, keeps the batch valid and does not reallocate its slots.
pub push_refines :
    (b : SendBatchRaw) (bytes : Slice) (addr : Option SocketAddr)
    → IsValid b
    → let (r, b') = push b bytes addr in
      ((r, entries b') ≡ spec_push b.slots.cap (entries b) (bytes, addr))
      × IsValid b'
      × (b'.slots.cap ≡ b.slots.cap)
unfolding push spec_push
push_refines b bytes addr v = elim (Bool-cases (leb b.slots.cap b.len)) [
  | inl full ↦ rw (length-entries b v, full) (refl, v, refl)
  | inr room ↦
      let placed =
        place_lem b.slots b.len (slot_of (bytes, addr)) v.covered v.fits (ground arith) in
      rw (length-entries b v, room, add-one)
        (
          ap (λ l. (ok tt, l)) (rw (placed.0, map-append)),
          record { covered = placed.1; fits = placed.2 },
          placed.3,
        )
]

-- `clear` empties the list, keeps the batch valid and gives no memory back.
pub clear_refines :
    (b : SendBatchRaw)
    → IsValid b
    → (entries (clear b) ≡ []) × IsValid (clear b) × ((clear b).slots ≡ b.slots)
unfolding clear
clear_refines b v = (refl, record { covered = omega arith; fits = v.fits }, refl)

with_capacity-IsValid :
    (n : ℕ)
    → (entries (with_capacity n) ≡ [])
      × IsValid (with_capacity n)
      × ((with_capacity n).slots.cap ≡ n)
unfolding with_capacity
with_capacity-IsValid n = (refl, record { covered = omega arith; fits = omega arith }, refl)

-- What a client can do to a batch, and what it is told.
pub data Op : Type 0 where
  push_op : Entry → Op
  clear_op : Op

abbrev pub Reply : Type 0
Reply = Result BingerError (Unit {0}) × List Entry

unfoldable pub run : SendBatchRaw → List Op → List Reply
run b [] = []
run b (push_op x ∷ ops) = let (r, b') = push b x.0 x.1 in (r, entries b') ∷ run b' ops
run b (clear_op ∷ ops) = let b' = clear b in (ok tt, entries b') ∷ run b' ops

unfoldable pub spec_run : ℕ → List Entry → List Op → List Reply
unfolding spec_push
spec_run cap xs [] = []
spec_run cap xs (push_op x ∷ ops) =
    let (r, xs') = spec_push cap xs x in (r, xs') ∷ spec_run cap xs' ops
spec_run cap xs (clear_op ∷ ops) = (ok tt, []) ∷ spec_run cap [] ops

run-spec_run :
    (ops : List Op) (b : SendBatchRaw)
    → IsValid b
    → run b ops ≡ spec_run b.slots.cap (entries b) ops
unfolding run spec_run clear
run-spec_run [] b v = refl
run-spec_run (push_op x ∷ ops) b v =
    let step = push_refines b x.0 x.1 v in
    rw (run-spec_run ops (push b x.0 x.1).1 step.1, step.2, ← step.0)
run-spec_run (clear_op ∷ ops) b v =
    let step = clear_refines b v in
    ap (λ l. (ok tt, entries (clear b)) ∷ l) (run-spec_run ops (clear b) step.1)

-- No sequence of pushes and clears, from `with_capacity` on, tells a batch from the empty list of
-- at most that many entries: answers and contents agree after each call.
pub run_refines : (n : ℕ) (ops : List Op) → run (with_capacity n) ops ≡ spec_run n [] ops
run_refines n ops =
    let fresh = with_capacity-IsValid n in
    rw (run-spec_run ops (with_capacity n) fresh.1, fresh.0, fresh.2)

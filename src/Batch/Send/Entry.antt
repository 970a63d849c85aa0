-- ===== src/Batch/Send/Entry.antt =====
-- src/batch.rs: what `entry` reads, and when it panics.
use binger_udp.Base.{
  ℕ, zero, suc, ◌<◌, ◌≤◌, ◌≡◌, refl, Option, some, none, List, [], ◌∷◌, map, take, length, ◌>>=◌,
  drop, ◌+◌, ap, ◌∙◌, arith, some_inj, get_elem?-some, get_elem?, Run, panic, val, or_panic,
  get_elem?-take, get_elem?-none,
}
use native.Mathlib.Numerals.{add-one}
use binger_udp.Batch.Send.Refine.{length-entries}
use binger_udp.Batch.Send.{SendBatchRaw, SendSlot, Entry, entry, clear, view, entries, IsValid}

abbrev read : Option SendSlot → Run Entry
read (some s) = val (view s)
read none = panic

view-or_panic : (o : Option SendSlot) → (or_panic o >>= λ s. val (view s)) ≡ read o
view-or_panic none = refl
view-or_panic (some s) = refl

get_elem?-map :
    (xs : List SendSlot) (i : ℕ) → or_panic (get_elem? (map view xs) i) ≡ read (get_elem? xs i)
get_elem?-map [] i = refl
get_elem?-map (x ∷ xs) zero = refl
get_elem?-map (x ∷ xs) (suc i) = get_elem?-map xs i

-- Below the length `entry` reads the entry of that number; at or past the number of slots ever
-- written it panics.
entry_lem :
    (b : SendBatchRaw) (i : ℕ)
    → IsValid b
    → (i < b.len → entry b i ≡ or_panic (get_elem? (entries b) i))
      × (length b.slots.items ≤ i → entry b i ≡ panic)
unfolding entry
entry_lem b i v = (
  λ h. rw (
    view-or_panic (get_elem? b.slots.items i),
    get_elem?-map (take b.len b.slots.items) i,
    get_elem?-take b.slots.items b.len i h,
  ),
  λ h. rw (get_elem?-none b.slots.items i h),
)

-- Clearing a batch does not make `entry` panic: below the length that the batch had, it still
-- reads the entries that were cleared.
entry-clear :
    (b : SendBatchRaw) (i : ℕ)
    → IsValid b
    → i < b.len
    → ((clear b).len ≡ 0) × (entry (clear b) i ≡ or_panic (get_elem? (entries b) i))
unfolding clear entry
entry-clear b i v h = (refl, (entry_lem b i v).0 h)

cons_of_get_elem? :
    (xs : List Entry) (i : ℕ) (x : Entry)
    → get_elem? xs i ≡ some x
    → drop i xs ≡ x ∷ drop (i + 1) xs
cons_of_get_elem? [] i x e = cc
cons_of_get_elem? (y ∷ xs) zero x e = ap (λ z. z ∷ xs) (some_inj e)
cons_of_get_elem? (y ∷ xs) (suc i) x e = rw add-one (rw add-one at (cons_of_get_elem? xs i x e))

-- A loop over the indices of a valid batch reads its entries one after the other.
pub drop-entry :
    (b : SendBatchRaw) (i : ℕ)
    → IsValid b
    → i < b.len
    → (x : Entry) × (entry b i ≡ val x) × (drop i (entries b) ≡ x ∷ drop (i + 1) (entries b))
drop-entry b i v h =
    let (x, e) = get_elem?-some (entries b) i (omega (arith, length-entries b v)) in
    (x, (entry_lem b i v).0 h ∙ ap or_panic e, cons_of_get_elem? (entries b) i x e)

drop_all : (xs : List Entry) (i : ℕ) → length xs ≤ i → drop i xs ≡ []
drop_all [] zero h = refl
drop_all [] (suc i) h = refl
drop_all (x ∷ xs) zero h = elim h [ ]
drop_all (x ∷ xs) (suc i) h = drop_all xs i (omega arith)

pub drop_end : (b : SendBatchRaw) (i : ℕ) → IsValid b → b.len ≤ i → drop i (entries b) ≡ []
drop_end b i v h = drop_all (entries b) i (omega (arith, length-entries b v))

-- ===== src/Platform/Linux/Send/Stack.antt =====
-- src/platform/linux.rs: what the arrays on the stack hand to `sendmmsg`.
use mathlib.Core.Option
use binger_udp.Base.{
  ℕ, zero, suc, ◌+◌, ◌≤◌, ◌<◌, ◌≡◌, refl, ◌∙◌, ap, Option, none, some, List, [], ◌∷◌, map, drop,
  set, get_elem?, length, replicate, val, arith, length-set, get_elem?-set_self, get_elem?-set_ne,
  length-replicate,
}
use binger_udp.Net.{Slice, Endian}
use binger_udp.Sockaddr.{Storage, zeroed, encode_sockaddr}
use binger_udp.Kernel.{Datagram}
use binger_udp.Batch.Send.{SendBatchRaw, Entry, entries, IsValid}
use binger_udp.Batch.Send.Entry.{drop-entry, drop_end}
use binger_udp.Batch.Send.Refine.{length-entries}
use binger_udp.Platform.Linux.Send.{
  Header, max_stack, wire, put_name, prepare_stack, stack_datagrams,
}

module _ (e : Endian) where
  -- The datagram that an entry means: its bytes, for its own address if it has one.
  abbrev pub message : Entry → Datagram
  message (bytes, addr) = record { name = Option.map (encode_sockaddr e) addr; iov = bytes }

  abbrev header : Slice → Option (ℕ × ℕ) → Header
  header bytes name = record { name = name; iov = bytes }

  -- The loop over a list of entries.
  abbrev prepared : List Entry → ℕ → List Storage → List Storage × List Header
  prepared [] j addrs = (addrs, [])
  prepared ((bytes, addr) ∷ xs) j addrs =
      let (name, j', addrs') = put_name e addr j addrs in
      let (out, msgs) = prepared xs j' addrs' in (out, header bytes name ∷ msgs)

  prepare_stack-prepared :
      (b : SendBatchRaw) (n i j : ℕ) (addrs : List Storage)
      → IsValid b
      → i + n ≡ b.len
      → prepare_stack e b n i j addrs ≡ val (prepared (drop i (entries b)) j addrs)
  unfolding prepare_stack
  prepare_stack-prepared b zero i j addrs v h = rw (drop_end b i v (omega arith))
  prepare_stack-prepared b (suc n) i j addrs v h =
      let (x, here, split) = drop-entry b i v (omega arith) in
      let (name, j', addrs') = put_name e x.1 j addrs in
      rw (here, split, prepare_stack-prepared b n (i + 1) j' addrs' v (omega arith))

  -- Later rounds leave the addresses written before alone.
  earlier_kept :
      (xs : List Entry) (j m : ℕ) (addrs : List Storage)
      → m < j
      → get_elem? (prepared xs j addrs).0 m ≡ get_elem? addrs m
  earlier_kept [] j m addrs h = refl
  earlier_kept ((bytes, none) ∷ xs) j m addrs h = earlier_kept xs j m addrs h
  earlier_kept ((bytes, some a) ∷ xs) j m addrs h =
      earlier_kept xs (j + 1) m (set addrs j (encode_sockaddr e a).0) (omega arith)
      ∙ get_elem?-set_ne addrs j m (encode_sockaddr e a).0 (λ p. omega arith)

  wire-prepared :
      (xs : List Entry) (j : ℕ) (addrs : List Storage)
      → j + length xs ≤ length addrs
      → map (wire (prepared xs j addrs).0) (prepared xs j addrs).1 ≡ map message xs
  wire-prepared [] j addrs h = refl
  wire-prepared ((bytes, none) ∷ xs) j addrs h =
      ap (λ l. message (bytes, none) ∷ l) (wire-prepared xs j addrs (omega arith))
  wire-prepared ((bytes, some a) ∷ xs) j addrs h =
      let storage = (encode_sockaddr e a).0 in
      let written = set addrs j storage in
      let here : get_elem? (prepared xs (j + 1) written).0 j ≡ some storage =
        earlier_kept xs (j + 1) j written (omega arith)
        ∙ get_elem?-set_self addrs j storage (omega arith) in
      rw (here, wire-prepared xs (j + 1) written (omega (arith, length-set addrs j storage)))

  -- On a valid batch of at most 64 entries the arrays on the stack announce each entry, in order,
  -- with its own address.
  pub stack_datagrams-messages :
      (b : SendBatchRaw)
      → IsValid b
      → b.len ≤ max_stack
      → stack_datagrams e b ≡ val (map message (entries b))
  unfolding stack_datagrams
  stack_datagrams-messages b v h = rw (
    prepare_stack-prepared b b.len 0 0 (replicate max_stack zeroed) v (omega arith),
    wire-prepared (entries b) 0 (replicate max_stack zeroed)
        (omega (arith, length-entries b v, length-replicate max_stack zeroed)),
  )

-- ===== src/Platform/Linux/Send/Heap.antt =====
-- src/platform/linux.rs: what the vectors of the heap path hand to `sendmmsg`.
use mathlib.Core.Path.{ap₂}
use mathlib.Core.List.{append_assoc}
use binger_udp.Base.{
  ℕ, zero, suc, subst, ◌+◌, ◌≤◌, ◌<◌, ◌≡◌, refl, ◌∙◌, ap, ◌⊎◌, inl, inr, none, some, is_some, true,
  List, [], ◌∷◌, ◌++◌, map, drop, get_elem?, length, leb, lt→leb, Bool-cases, val, arith,
  length-append,
}
use binger_udp.Net.{SocketAddr, Slice, Endian}
use binger_udp.Sockaddr.{Storage, zeroed, encode_sockaddr}
use binger_udp.Kernel.{Datagram}
use binger_udp.Batch.Send.{SendBatchRaw, Entry, entries, IsValid}
use binger_udp.Batch.Send.Entry.{drop-entry, drop_end}
use binger_udp.Platform.Linux.Send.{
  Header, max_stack, get_or, wire, heap_storage, prepare_heap, link_name, link_heap, heap_datagrams,
  datagrams,
}
use binger_udp.Platform.Linux.Send.Stack.{message, stack_datagrams-messages}

-- Every entry of the batch has an address, or none has.
abbrev pub AllTo : List Entry → Type 0
AllTo [] = Unit {0}
AllTo (x ∷ xs) = (is_some x.1 ≡ true) × AllTo xs

abbrev pub AllConnected : List Entry → Type 0
AllConnected [] = Unit {0}
AllConnected (x ∷ xs) = (x.1 ≡ none) × AllConnected xs

module _ (e : Endian) where
  abbrev storages : List Entry → List Storage
  storages = map (λ x. (heap_storage e x.1).0)

  abbrev drafts : List Entry → List (ℕ × Slice)
  drafts = map (λ x. ((heap_storage e x.1).1, x.0))

  -- The second loop over a list of entries.
  abbrev linked : List Entry → ℕ → List Header
  linked [] j = []
  linked ((bytes, addr) ∷ xs) j =
      let (name, j') = link_name e addr (heap_storage e addr).1 j in
      record { name = name; iov = bytes } ∷ linked xs j'

  prepare_heap-storages :
      (b : SendBatchRaw) (n i : ℕ)
      → IsValid b
      → i + n ≡ b.len
      → prepare_heap e b n i ≡ val (storages (drop i (entries b)), drafts (drop i (entries b)))
  unfolding prepare_heap
  prepare_heap-storages b zero i v h = rw (drop_end b i v (omega arith))
  prepare_heap-storages b (suc n) i v h =
      let (x, here, split) = drop-entry b i v (omega arith) in
      rw (here, split, prepare_heap-storages b n (i + 1) v (omega arith))

  link_heap-linked :
      (b : SendBatchRaw) (n i j : ℕ)
      → IsValid b
      → i + n ≡ b.len
      → link_heap e b (drafts (drop i (entries b))) i j ≡ val (linked (drop i (entries b)) j)
  unfolding link_heap
  link_heap-linked b zero i j v h = rw (drop_end b i v (omega arith))
  link_heap-linked b (suc n) i j v h =
      let (x, here, split) = drop-entry b i v (omega arith) in
      let (name, j') = link_name e x.1 (heap_storage e x.1).1 j in
      rw (split, here, link_heap-linked b n (i + 1) j' v (omega arith))

  -- The heap path as a function of the entries.
  pub heap_datagrams-linked :
      (b : SendBatchRaw)
      → IsValid b
      → heap_datagrams e b ≡ val (map (wire (storages (entries b))) (linked (entries b) 0))
  unfolding heap_datagrams
  heap_datagrams-linked b v = rw (
    prepare_heap-storages b b.len 0 v (omega arith),
    link_heap-linked b b.len 0 0 v (omega arith),
  )

  storage_at :
      (pre : List Storage) (s : Storage) (post : List Storage)
      → get_elem? (pre ++ s ∷ post) (length pre) ≡ some s
  storage_at [] s post = refl
  storage_at (x ∷ pre) s post = storage_at pre s post

  wire-AllTo :
      (xs : List Entry) (pre : List Storage) (j : ℕ)
      → j ≡ length pre
      → AllTo xs
      → map (wire (pre ++ storages xs)) (linked xs j) ≡ map (message e) xs
  wire-AllTo [] pre j h t = refl
  wire-AllTo ((bytes, none) ∷ xs) pre j h t = cc
  wire-AllTo ((bytes, some a) ∷ xs) pre j h t =
      let storage = (encode_sockaddr e a).0 in
      let rest : map (wire (pre ++ storage ∷ storages xs)) (linked xs (length pre + 1))
          ≡ map (message e) xs =
        subst (λ l. map (wire l) (linked xs (length pre + 1)) ≡ map (message e) xs)
          (append_assoc pre (storage ∷ []) (storages xs))
          (wire-AllTo xs (pre ++ storage ∷ []) (length pre + 1)
            (omega (arith, length-append pre (storage ∷ []))) t.1) in
      rw h (
        ap₂ (λ (d : Datagram) l. d ∷ l)
          (ap (λ o. record { name = some (get_or o zeroed, (encode_sockaddr e a).1); iov = bytes })
            (storage_at pre storage (storages xs)))
          rest)

  wire-AllConnected :
      (xs : List Entry) (addrs : List Storage) (j : ℕ)
      → AllConnected xs
      → map (wire addrs) (linked xs j) ≡ map (message e) xs
  wire-AllConnected [] addrs j t = refl
  wire-AllConnected ((bytes, none) ∷ xs) addrs j t =
      ap (λ l. message e (bytes, none) ∷ l) (wire-AllConnected xs addrs j t.1)
  wire-AllConnected ((bytes, some a) ∷ xs) addrs j t = cc

  -- A batch that either path sends as it means: short enough for the stack, or uniform.
  abbrev pub IsRouted : SendBatchRaw → Type 0
  IsRouted b = (b.len ≤ max_stack) ⊎ AllTo (entries b) ⊎ AllConnected (entries b)

  -- Where all entries have an address or none has, the vectors announce each entry as it is.
  pub heap_datagrams-messages :
      (b : SendBatchRaw)
      → IsValid b
      → AllTo (entries b) ⊎ AllConnected (entries b)
      → heap_datagrams e b ≡ val (map (message e) (entries b))
  heap_datagrams-messages b v (inl to) =
      heap_datagrams-linked b v ∙ ap val (wire-AllTo (entries b) [] 0 refl to)
  heap_datagrams-messages b v (inr connected) =
      heap_datagrams-linked b v
      ∙ ap val (wire-AllConnected (entries b) (storages (entries b)) 0 connected)

  -- On a valid batch of at most 64 entries, or of any length where all entries have an address or
  -- none has, the messages announced to the kernel are the entries in their order, each with its
  -- own address.
  pub datagrams-messages :
      (b : SendBatchRaw)
      → IsValid b
      → (b.len ≤ max_stack) ⊎ AllTo (entries b) ⊎ AllConnected (entries b)
      → datagrams e b ≡ val (map (message e) (entries b))
  unfolding datagrams
  datagrams-messages b v routed = elim (Bool-cases (leb b.len max_stack)) [
    | inl stack ↦ rw (stack, stack_datagrams-messages e b v (ground arith))
    | inr heap ↦ elim routed [
      | inl short ↦ absurd (ground arith)
      | inr uniform ↦ rw (heap, heap_datagrams-messages b v uniform)
    ]
  ]

  -- A valid batch of more than 64 entries whose first has no address and whose second has one: the
  -- second message is announced with a zeroed address, of the length of the one it should have.
  pub datagrams-misrouted :
      (b : SendBatchRaw) (bytes₀ bytes₁ : Slice) (a : SocketAddr) (xs : List Entry)
      → IsValid b
      → max_stack < b.len
      → entries b ≡ (bytes₀, none) ∷ (bytes₁, some a) ∷ xs
      → (ds : List Datagram) × (datagrams e b ≡ val ds)
        × (get_elem? ds 1
            ≡ some (record { name = some (zeroed, (encode_sockaddr e a).1); iov = bytes₁ }))
  unfolding datagrams
  datagrams-misrouted b bytes₀ bytes₁ a xs v long split =
      let ys = (bytes₀, none) ∷ (bytes₁, some a) ∷ xs in
      (
        map (wire (storages ys)) (linked ys 0),
        rw (lt→leb b.len max_stack long) (
            heap_datagrams-linked b v
            ∙ ap (λ ys. val (map (wire (storages ys)) (linked ys 0))) split),
        refl,
      )

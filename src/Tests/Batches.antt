-- ===== src/Tests/Batches.antt =====
-- Batches of one and two slots.
use binger_udp.Base.{
  ◌⊎◌, ◌*◌, ◌+◌, ◌^◌, ◌%◌, ◌<◌, ◌≤◌, ◌≡◌, refl, none, some, List, [], ◌∷◌, arith, val, panic,
}
use binger_udp.Error.{batch_full, ok, err}
use binger_udp.Net.{slice, unspecified}
use binger_udp.Batch.Typed.{Duration, as_duration, nanoseconds, as_duration-exact}
use binger_udp.Batch.Send.{SendSlot, SendBatchRaw, Entry, entries}
use binger_udp.Batch.Send
use binger_udp.Batch.Send.Refine.{Op, push_op, clear_op, spec_run, run, run_refines}
use binger_udp.Batch.Recv.{RecvSlot, RecvBatchRaw, Timestamp, datagram, set_recv_len, iter}
use binger_udp.Batch.Recv
use binger_udp.Tests.Script.{local_addr}

abbrev pub first : Entry
first = (slice 100 3, some local_addr)

abbrev pub second : Entry
second = (slice 200 5, none)

abbrev ops : List Op
ops = push_op first ∷ push_op second ∷ clear_op ∷ push_op second ∷ []

-- A batch of one slot refuses a second datagram, and takes one again after it was cleared.
run-ops :
    run (Send.with_capacity 1) ops
    ≡ (ok tt, first ∷ [])
      ∷ (err (batch_full 1), first ∷ [])
      ∷ (ok tt, [])
      ∷ (ok tt, second ∷ [])
      ∷ []
unfolding run Send.with_capacity Send.push Send.place Send.clear
run-ops = refl

run_refines_example : run (Send.with_capacity 1) ops ≡ spec_run 1 [] ops
run_refines_example = run_refines 1 ops

abbrev pub slot_of : Entry → SendSlot
slot_of x = record { data_ptr = x.0.ptr; data_len = x.0.len; addr = x.1 }

abbrev pub two_waiting : SendBatchRaw
two_waiting = record {
  slots = record { items = slot_of first ∷ slot_of second ∷ []; cap = 3 };
  len = 2;
}

pub two_waiting-IsValid : Send.IsValid two_waiting
two_waiting-IsValid = record { covered = omega arith; fits = omega arith }

abbrev hello : RecvSlot
hello = record {
  buf = 104 ∷ 105 ∷ 0 ∷ 0 ∷ [];
  addr = local_addr;
  recv_len = 2;
  timestamp = some (record { tv_sec = 5; tv_nsec = 6 });
  dst_addr = some unspecified;
}

abbrev idle : RecvSlot
idle = Recv.fresh_slot 4

abbrev pub one_received : RecvBatchRaw
one_received = record { slots = hello ∷ idle ∷ []; len = 1 }

pub one_received-IsValid : Recv.IsValid one_received
one_received-IsValid = record { within = omega arith; fit = (omega arith, (omega arith, tt)) }

iter-one_received : iter one_received ≡ val ((104 ∷ 105 ∷ [], local_addr) ∷ [])
unfolding iter Recv.iter_from Recv.payload Recv.addr
iter-one_received = refl

-- A timestamp whose nanoseconds hold more than a second.
abbrev late : Timestamp
late = record { tv_sec = 5; tv_nsec = 1500000000 }

as_duration-exact_example :
    ((d : Duration) × (as_duration late ≡ val d)
      × (nanoseconds d ≡ 5 * 1000000000 + 1500000000 % 2 ^ 32)
      × (d.secs < 2 ^ 64)
      × (d.nanos < 1000000000))
    ⊎ ((as_duration late ≡ panic) × (2 ^ 64 * 1000000000 ≤ 5 * 1000000000 + 1500000000 % 2 ^ 32))
as_duration-exact_example = as_duration-exact late (omega arith)

-- ===== src/Examples/Select/Ends.antt =====
-- examples/select.rs: the loop ends.
use binger_udp.Base.{ℕ, ◌-◌, ◌*◌, Bool, true, false}
use binger_udp.Batch.Send.{SendBatchRaw, clear_all}
use binger_udp.Batch.Send
use binger_udp.Batch.Typed.{RecvBatch}
use binger_udp.Batch.Typed
use binger_udp.Socket.Contract.{Contract}

-- The turns that are left: one for each send, and one reception between two.
abbrev left : Bool → ℕ → ℕ
left true i = 2 * (3 - i)
left false i = 2 * (3 - i) - 1

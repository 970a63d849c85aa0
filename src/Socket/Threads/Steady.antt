-- ===== src/Socket/Threads/Steady.antt =====
-- src/socket.rs and src/metrics.rs: what holds of a shared socket at every moment of an interleaving.
use binger_udp.Base.{◌+◌, ◌%◌, ◌^◌, ◌≡◌, sym, ap, ◌∙◌, Option, none, some, List, some_inj}
use mathlib.Core.Option.{none-ne-some}
use binger_udp.Adaptive.{AdaptiveState, Event, step}
use binger_udp.Adaptive.Bounds.{InBounds, step-InBounds}
use binger_udp.Metrics.{BingerMetrics}
use binger_udp.Metrics.History.{Counter, get}
use binger_udp.Socket.{BingerUdp}
use binger_udp.Socket.Sound.{TargetInBounds, update_locked-InBounds, record_event-InBounds}
use binger_udp.Socket.Threads.{
  Critical, Effect, Step, Steps, first, other, none_yet, then_steps, perform, locked,
}
use binger_udp.Socket.Threads.Serial.{left, Steps-left}
use binger_udp.Socket.Threads.Tally.{tally_all, left-value, left-none}

-- Each counter, with what the threads have left to add to it, is what it was to become, as a
-- wrapping number.
abbrev pub AreConserved :
    List (List Effect) → Option BingerMetrics → List (List Effect) → Option BingerMetrics → Type 0
AreConserved ts none us none = Unit {0}
AreConserved ts none us (some n) = ⊥
AreConserved ts (some m) us none = ⊥
AreConserved ts (some m) us (some n) =
    (c : Counter) → (get c n + tally_all c us) % 2 ^ 64 ≡ (get c m + tally_all c ts) % 2 ^ 64

left-AreConserved :
    (ts us : List (List Effect)) (m n : Option BingerMetrics)
    → left us n ≡ left ts m
    → AreConserved ts m us n
left-AreConserved ts us none none through = tt
left-AreConserved ts us none (some n) through =
    let (x, to_x, of_x) = left-value us n in
    absurd (none-ne-some x (sym (left-none ts) ∙ sym through ∙ to_x))
left-AreConserved ts us (some m) none through =
    let (x, to_x, of_x) = left-value ts m in
    absurd (none-ne-some x (sym (left-none us) ∙ through ∙ to_x))
left-AreConserved ts us (some m) (some n) through =
    let (x, to_x, of_x) = left-value us n in
    let (u, to_u, of_u) = left-value ts m in
    let same_end = some_inj (sym to_x ∙ through ∙ to_u) in
    λ c. sym (of_x c) ∙ ap (λ z. get c z % 2 ^ 64) same_end ∙ of_u c

locked-InBounds : (l : Critical) (a : AdaptiveState) → InBounds a → InBounds (locked l a)
unfolding step
locked-InBounds Critical.event a h = record_event-InBounds a h
locked-InBounds (Critical.would_block now later) a h =
    step-InBounds (step a Event.would_block) (Event.adjust now later)
      (step-InBounds a Event.would_block h)

-- The target sizes of both directions.
abbrev pub AreInBounds : BingerUdp → Type 0
AreInBounds s = TargetInBounds s.adaptive_send × TargetInBounds s.adaptive_recv

perform-AreInBounds : (e : Effect) (s : BingerUdp) → AreInBounds s → AreInBounds (perform e s)
unfolding perform
perform-AreInBounds (Effect.count c n) s h = h
perform-AreInBounds (Effect.on_send l) s (h, g) =
    (update_locked-InBounds (locked l) s.adaptive_send (locked-InBounds l) h, g)
perform-AreInBounds (Effect.on_recv l) s (h, g) =
    (h, update_locked-InBounds (locked l) s.adaptive_recv (locked-InBounds l) g)

Step-AreInBounds :
    {ts us : List (List Effect)} {s t : BingerUdp} → Step ts s us t → AreInBounds s → AreInBounds t
Step-AreInBounds (first {e} {es} {ts} {s}) h = perform-AreInBounds e s h
Step-AreInBounds (other step) h = Step-AreInBounds step h

Steps-AreInBounds :
    {ts us : List (List Effect)} {s t : BingerUdp} → Steps ts s us t → AreInBounds s → AreInBounds t
Steps-AreInBounds none_yet h = h
Steps-AreInBounds (then_steps step steps) h = Steps-AreInBounds steps (Step-AreInBounds step h)

-- However the atomic effects of threads that share a socket interleave: at every moment the target
-- sizes are from 1 to 1024, if they were at the start, and no increment is lost or counted twice.
-- Each counter by itself, with what the threads have left to add to it, comes modulo 2 ^ 64 to its
-- first value with all that they had to add.
pub Steps-AreConserved :
    (ts us : List (List Effect)) (s t : BingerUdp)
    → Steps ts s us t
    → AreInBounds s
    → AreInBounds t × AreConserved ts s.metrics us t.metrics
Steps-AreConserved ts us s t steps h =
    (Steps-AreInBounds steps h, left-AreConserved ts us s.metrics t.metrics (Steps-left steps))

-- ===== src/Signaling.antt =====
-- internal/signaling: latch.go and event.go.
--
-- A channel that `init.Do` has not made yet is `none`. The steps of the goroutines come in any order:
-- a call of `Latch.Signal` is the compare-and-swap, and for the one that wins it the close of the
-- channel, between which others may run.
pub mod Closing
pub mod Coalescing
mod Examples
use veracity.Base.{
  ℕ, zero, suc, ◌+◌, Bool, true, false, List, [], ◌∷◌, Option, none, some, if◌then◌else◌, Outcome,
  ok, err, panic,
}

-- `closing` counts the goroutines that have won the swap and have not closed the channel yet.
pub record Latch : Type 0 where
  pub sig : Option Bool
  pub latched : Bool
  pub closing : ℕ

abbrev pub new_latch : Latch
new_latch = record { sig = none; latched = false; closing = 0 }

-- The channel of `signal()`: whether it is closed. `init.Do` makes it once.
unfoldable pub made : Option Bool → Bool
made none = false
made (some closed) = closed

-- `Signaled`: a receive from the channel succeeds if it is closed.
unfoldable pub signaled : Latch → Bool × Latch
unfolding made
signaled l = (made l.sig, record l { sig = some (made l.sig) })

-- `latched.CompareAndSwap(false, true)`
unfoldable pub latch_swap : Latch → Latch
latch_swap l = if l.latched then l else record l { latched = true; closing = l.closing + 1 }

-- `close(l.signal())` by one of the goroutines that are to close it, if there is one: it panics on a
-- closed channel.
unfoldable pub close_signal : ℕ → Bool → Latch → Outcome Latch
close_signal zero closed l = ok l
close_signal (suc n) true l = panic
close_signal (suc n) false l = ok (record l { sig = some true; closing = n })

-- A step of a goroutine: one that has nothing to close does nothing.
pub data LatchStep : Type 0 where
  swap : LatchStep
  close : LatchStep
  look : LatchStep

unfoldable pub latch_step : LatchStep → Latch → Outcome Latch
unfolding latch_swap close_signal signaled made
latch_step LatchStep.swap l = ok (latch_swap l)
latch_step LatchStep.close l = close_signal l.closing (made l.sig) l
latch_step LatchStep.look l = ok (signaled l).1

unfoldable pub latch_next : (Latch → Outcome Latch) → Outcome Latch → Outcome Latch
latch_next f (Outcome.ok l) = f l
latch_next f (Outcome.err e) = err e
latch_next f Outcome.panic = panic

unfoldable pub latch_run : List LatchStep → Latch → Outcome Latch
unfolding latch_step latch_next
latch_run [] l = ok l
latch_run (s ∷ rest) l = latch_next (latch_run rest) (latch_step s l)

-- The channel of an event has room for one signal: whether it is there.
pub record Event : Type 0 where
  pub sig : Option Bool

abbrev pub new_event : Event
new_event = record { sig = none }

-- `Event.Signal`: a full channel takes the `default`.
unfoldable pub signal_event : Event → Event
unfolding made
signal_event e = if made e.sig then e else record { sig = some true }

-- A receive from `Event.Signaled()`: whether it succeeds now.
unfoldable pub receive_event : Event → Bool × Event
unfolding made
receive_event e = (made e.sig, record { sig = some false })

pub data EventStep : Type 0 where
  signal : EventStep
  receive : EventStep

-- The results of the receives.
unfoldable pub event_run : List EventStep → Event → List Bool
unfolding signal_event receive_event
event_run [] e = []
event_run (EventStep.signal ∷ rest) e = event_run rest (signal_event e)
event_run (EventStep.receive ∷ rest) e = let r = receive_event e in r.0 ∷ event_run rest r.1

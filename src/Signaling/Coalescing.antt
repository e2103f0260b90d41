-- ===== src/Signaling/Coalescing.antt =====
-- Signals of an event that nobody has received yet count as one (internal/signaling/event.go).
use veracity.Base.{
  ℕ, zero, suc, ◌≡◌, refl, ap, Bool, true, false, List, ◌∷◌, ◌++◌, Option, none, some,
  if◌then◌else◌, replicate,
}
use veracity.Signaling.{Event, EventStep, made, signal_event, receive_event, event_run}

signal-set : (e : Event) → signal_event e ≡ record { sig = some true }
unfolding signal_event made
signal-set e = go e.sig
  where
    go :
        (s : Option Bool)
        → ◌≡◌ {A = Event}
            (if made s then record { sig = s } else record { sig = some true })
            (record { sig = some true })
    go none = refl
    go (some true) = refl
    go (some false) = refl

-- However often an event was signaled, at least once and from any state, the next receive succeeds and the one after it
-- does not; what follows is as if the event were new.
pub signals-receive :
    (n : ℕ) (rest : List EventStep) (e : Event)
    → event_run
        (replicate (suc n) EventStep.signal ++ EventStep.receive ∷ EventStep.receive ∷ rest)
        e
      ≡ true ∷ false ∷ event_run rest (record { sig = some false })
unfolding event_run receive_event made
signals-receive zero rest e =
    ap (λ v. event_run (EventStep.receive ∷ EventStep.receive ∷ rest) v) (signal-set e)
signals-receive (suc n) rest e = signals-receive n rest (signal_event e)

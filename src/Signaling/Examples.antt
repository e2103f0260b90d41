-- ===== src/Signaling/Examples.antt =====
-- Two goroutines that signal a latch, and an event.
use veracity.Base.{◌≡◌, refl, true, false, List, [], ◌∷◌, ◌++◌, replicate, ok, some}
use veracity.Signaling.{LatchStep, latch_run, new_latch, EventStep, event_run, new_event}
use veracity.Signaling.Closing.{Holds, latch_run-Holds}
use veracity.Signaling.Coalescing.{signals-receive}

abbrev race : List LatchStep
race = LatchStep.look ∷ LatchStep.swap ∷ LatchStep.swap ∷ LatchStep.look ∷ LatchStep.close ∷ []

closed_once :
    latch_run race new_latch ≡ ok (record { sig = some true; latched = true; closing = 0 })
unfolding latch_run
closed_once = refl

latch_run-Holds_example : Holds true (latch_run race new_latch)
latch_run-Holds_example = latch_run-Holds race

signals-receive_example :
    event_run (replicate 3 EventStep.signal ++ EventStep.receive ∷ EventStep.receive ∷ []) new_event
    ≡ true ∷ false ∷ event_run [] (record { sig = some false })
signals-receive_example = signals-receive 2 [] new_event

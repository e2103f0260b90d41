-- ===== src/Messaging/Examples.antt =====
-- A command that is acknowledged after its client has given up, and one that is acknowledged in time.
use veracity.Base.{◌≡◌, refl, List, [], ◌∷◌, Option, none, some, Error, external}
use veracity.Messaging.{Client, Server, CallEvent, new_call, call_run}
use veracity.Messaging.Serving.{ServedIf, call_run-Served}

abbrev too_late_events : List (CallEvent (Option Error))
too_late_events =
    CallEvent.handed_over ∷ CallEvent.canceled (external 1) ∷ CallEvent.replied none ∷ []

abbrev in_time : List (CallEvent (Option Error))
in_time = CallEvent.handed_over ∷ CallEvent.replied none ∷ CallEvent.received ∷ []

acknowledged :
    call_run in_time new_call
    ≡ some (record { client = Client.got none; server = Server.answered none; response = none })
unfolding call_run
acknowledged = refl

call_run-Served_example : ServedIf (call_run too_late_events new_call)
call_run-Served_example = call_run-Served too_late_events

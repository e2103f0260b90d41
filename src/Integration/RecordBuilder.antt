-- ===== src/Integration/RecordBuilder.antt =====
-- internal/integration/internal/integrationjournal/record_primo.pb.go: the generated builder of
-- records, whose only field is the prototype, and the generated switch.
use veracity.Base.{none, some, Outcome, panic}
use veracity.Integration.{
  Record, CommandAccepted, CommandHandled, EventsAppendedToStream, command_accepted,
  command_handled, events_appended_to_stream,
}

module _ {E U : Type 0} where
  unfoldable pub new : Record E U
  new = record { operation = none }

  unfoldable pub with_command_accepted : CommandAccepted E → Record E U → Record E U
  with_command_accepted v b = record b { operation = some (command_accepted v) }

  unfoldable pub with_command_handled : CommandHandled E U → Record E U → Record E U
  with_command_handled v b = record b { operation = some (command_handled v) }

  unfoldable pub with_events_appended_to_stream : EventsAppendedToStream U → Record E U → Record E U
  with_events_appended_to_stream v b = record b { operation = some (events_appended_to_stream v) }

  unfoldable pub build : Record E U → Record E U
  build b = record { operation = b.operation }

  -- `MustSwitch_Record_Operation`, of callbacks that give a result.
  unfoldable pub must_switch :
      {A : Type 0}
      → Record E U
      → (CommandAccepted E → Outcome A)
      → (CommandHandled E U → Outcome A)
      → (EventsAppendedToStream U → Outcome A)
      → Outcome A
  must_switch x accepted handled appended = elim x.operation [
    | none ↦ panic
    | some op ↦ elim op [
      | command_accepted v ↦ accepted v
      | command_handled v ↦ handled v
      | events_appended_to_stream v ↦ appended v
    ]
  ]

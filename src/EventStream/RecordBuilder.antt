-- ===== src/EventStream/RecordBuilder.antt =====
-- internal/eventstream/internal/eventstreamjournal/record_primo.pb.go: the generated builder, whose
-- only field is the prototype. `Build` copies it.
use veracity.Base.{ℕ, none, some}
use veracity.EventStream.{Record, EventsAppended}

module _ {E : Type 0} where
  unfoldable pub new : Record E
  new = record { stream_offset_before = 0; stream_offset_after = 0; operation = none }

  unfoldable pub with_stream_offset_before : ℕ → Record E → Record E
  with_stream_offset_before v b = record b { stream_offset_before = v }

  unfoldable pub with_stream_offset_after : ℕ → Record E → Record E
  with_stream_offset_after v b = record b { stream_offset_after = v }

  unfoldable pub with_events_appended : EventsAppended E → Record E → Record E
  with_events_appended v b = record b { operation = some v }

  unfoldable pub build : Record E → Record E
  build b = record {
    stream_offset_before = b.stream_offset_before;
    stream_offset_after = b.stream_offset_after;
    operation = b.operation;
  }

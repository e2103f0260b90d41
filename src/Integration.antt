-- ===== src/Integration.antt =====
-- internal/integration: the records of an integration handler's journal, as integrationjournal's
-- record.proto declares them. A command and an event are enginekit envelopes, of the type `E`; a
-- UUID that may be nil is an option.
pub mod RecordBuilder
pub mod Services
pub mod Pending
pub mod Supervisor
mod Examples
mod Restarts
use veracity.Base.{ℕ, List, Option}

pub record CommandAccepted (E : Type 0) : Type 0 where
  pub command : E

pub record CommandHandled (E U : Type 0) : Type 0 where
  pub command_id : U
  pub events : List E
  pub event_stream_id : Option U
  pub offset_hint : ℕ

pub record EventsAppendedToStream (U : Type 0) : Type 0 where
  pub appended_id : U
  pub appended_stream : Option U
  pub event_offset : ℕ

-- The union `isRecord_Operation`.
pub data Operation (E U : Type 0) : Type 0 where
  command_accepted : CommandAccepted E → Operation E U
  command_handled : CommandHandled E U → Operation E U
  events_appended_to_stream : EventsAppendedToStream U → Operation E U

pub record Record (E U : Type 0) : Type 0 where
  pub operation : Option (Operation E U)

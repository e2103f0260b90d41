-- ===== src/EventStream.antt =====
-- internal/eventstream: the messages of an event stream and its journal records.
--
-- The journal's `Record` is that of eventstreamjournal/record.proto, with the one operation that it
-- can hold; offsets are `uint64`.
pub mod RecordBuilder
pub mod Stream
pub mod Prior
pub mod Worker
pub mod Supervisor
mod Examples
use veracity.Base.{
  ℕ, Bool, List, [], ◌∷◌, Option, none, some, ltb, leb, ◌≡◌, ◌↔◌, true, if◌then◌else◌, Ordering,
}

-- Envelopes and their message identifiers come from enginekit: `equal` is `(*UUID).Equal`.
pub record Messages (E U : Type 0) : Type 0 where
  pub message_id : E → U
  pub equal : U → U → Bool
  pub equal_iff : (a b : U) → (equal a b ≡ true) ↔ (a ≡ b)

pub record EventsAppended (E : Type 0) : Type 0 where
  pub events : List E

pub record Record (E : Type 0) : Type 0 where
  pub stream_offset_before : ℕ
  pub stream_offset_after : ℕ
  pub operation : Option (EventsAppended E)

pub record AppendRequest (E U : Type 0) : Type 0 where
  pub stream_id : U
  pub events : List E
  pub offset_hint : ℕ

pub record AppendResponse : Type 0 where
  pub begin_offset : ℕ
  pub end_offset : ℕ
  pub appended_by_prior_attempt : Bool

-- `SearchByOffset`: `+1`, `-1` and `0` of the comparison are `gt`, `lt` and `eq`.
unfoldable pub search_by_offset : {E : Type 0} → ℕ → Record E → Ordering
search_by_offset off rec =
    if ltb off rec.stream_offset_before
    then Ordering.gt
    else if leb rec.stream_offset_after off
    then Ordering.lt
    else Ordering.eq

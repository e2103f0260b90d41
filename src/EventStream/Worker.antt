-- ===== src/EventStream/Worker.antt =====
-- internal/eventstream/worker.go: the worker that owns a stream.
--
-- The world of the worker's state machine is `Worker`: the fields `pos` and `off`, the journal's
-- storage, what the `select` of the idle state receives (`inputs`: the cases in the order in which
-- they become ready, the idle timer among them), and what was sent on the response channels.
pub mod Contract
pub mod Append
pub mod Recovery
pub mod Retry
pub mod Serving
pub mod Answers
pub mod Stale
use veracity.Base.{
  ℕ, zero, suc, ◌+◌, Bool, true, false, List, [], ◌∷◌, ◌++◌, Option, none, some, ltb, u64,
  if◌then◌else◌, Ordering, length, head?, ◌==◌, Error, Outcome, ok, err, panic, not_found,
}
use veracity.Fsm
use veracity.Fsm.{Action, Run, Exit, done, blocked, panicked, stop, fail, enter_state}
use veracity.Journal.{Journal}
use veracity.EventStream.{
  Messages, Record, EventsAppended, AppendRequest, AppendResponse, search_by_offset,
}
use veracity.EventStream.RecordBuilder

-- `messaging.Exchange`: the request, and the channel of the response by number.
pub record Exchange (E U : Type 0) : Type 0 where
  pub request : AppendRequest E U
  pub response : ℕ

-- `messaging.Failable` as `Ok` and `Err` send it, with the channel that it is sent on.
pub data Reply : Type 0 where
  success : ℕ → AppendResponse → Reply
  failure : ℕ → Error → Reply

-- The cases of the `select` in `idleState`; a canceled context comes with its `Err()`.
pub data Input (E U : Type 0) : Type 0 where
  canceled : Error → Input E U
  shutdown_signaled : Input E U
  timed_out : Input E U
  received : Exchange E U → Input E U

pub record Worker (E U S : Type 0) : Type 0 where
  pub pos : ℕ
  pub off : ℕ
  pub store : S
  pub inputs : List (Input E U)
  pub replies : List Reply
  pub ctx_err : Option Error

pub data State (E U : Type 0) : Type 0 where
  idle_state : State E U
  handle_append_state : Exchange E U → State E U

module _ {E U : Type 0} (M : Messages E U) where
  -- The callback of `findAppendRecord`. `req.Events[0]` and `op.Events[0]` panic on an empty slice.
  same_first : Record E → Option E → Option E → Outcome (Option (Record E))
  same_first rec (some target) (some candidate) =
      ok (if M.equal (M.message_id candidate) (M.message_id target) then some rec else none)
  same_first rec _ _ = panic

  unfoldable pub is_append_of : List E → Record E → Outcome (Option (Record E))
  unfolding same_first
  is_append_of events rec = elim rec.operation [
    | none ↦ ok none
    | some op ↦ same_first rec (head? events) (head? op.events)
  ]

module _ {E : Type 0} where
  -- The record that `appendEvents` writes for events at the offset `before`.
  unfoldable pub append_record : ℕ → ℕ → List E → Record E
  unfolding RecordBuilder.new RecordBuilder.with_stream_offset_before
      RecordBuilder.with_stream_offset_after RecordBuilder.with_events_appended RecordBuilder.build
  append_record before after events = RecordBuilder.build (
      RecordBuilder.with_events_appended (record { events = events })
        (RecordBuilder.with_stream_offset_after after
          (RecordBuilder.with_stream_offset_before before RecordBuilder.new)))

module _ {E U S : Type 0} where
  unfoldable pub might_be_duplicates : AppendRequest E U → Worker E U S → Bool
  might_be_duplicates req w = ltb req.offset_hint w.off

  pub finish_append :
      ℕ → ℕ → Worker E U S → Outcome (Unit {0}) × S → Outcome AppendResponse × Worker E U S
  finish_append before after w (Outcome.ok _, s) = (
    ok (record { begin_offset = before; end_offset = after; appended_by_prior_attempt = false }),
    record w { store = s; pos = u64 (w.pos + 1); off = after },
  )
  finish_append before after w (Outcome.err e, s) = (err e, record w { store = s })
  finish_append before after w (Outcome.panic, s) = (panic, record w { store = s })

module _ {E U S : Type 0} where
  pub respond :
      Exchange E U → Outcome AppendResponse × Worker E U S → Run (Action (State E U) × Worker E U S)
  respond ex (Outcome.ok res, w) =
      done
        (enter_state idle_state, record w { replies = w.replies ++ success ex.response res ∷ [] })
  respond ex (Outcome.err e, w) =
      done (fail e, record w { replies = w.replies ++ failure ex.response e ∷ [] })
  respond ex (Outcome.panic, w) = panicked

  pub select_idle : List (Input E U) → Worker E U S → Run (Action (State E U) × Worker E U S)
  select_idle [] w = blocked
  select_idle (Input.canceled e ∷ rest) w =
      done (stop, record w { inputs = rest; ctx_err = some e })
  select_idle (Input.shutdown_signaled ∷ rest) w = done (stop, record w { inputs = rest })
  select_idle (Input.timed_out ∷ rest) w = done (stop, record w { inputs = rest })
  select_idle (Input.received ex ∷ rest) w =
      done (enter_state (handle_append_state ex), record w { inputs = rest })

  unfoldable pub idle : Worker E U S → Run (Action (State E U) × Worker E U S)
  unfolding select_idle
  idle w = select_idle w.inputs w

  -- The worker that `startWorkerForStreamID` makes: `pos` and `off` are zero.
  unfoldable pub new_worker : S → List (Input E U) → Worker E U S
  new_worker s inputs = record {
    pos = 0;
    off = 0;
    store = s;
    inputs = inputs;
    replies = [];
    ctx_err = none;
  }

  -- `journal.LastRecord` and what `Run` takes from it.
  pub restore : Worker E U S → Outcome (Option (ℕ × Record E)) × S → Outcome (Worker E U S)
  restore w (Outcome.ok none, s) = ok (record w { store = s })
  restore w (Outcome.ok (some (pos, rec)), s) =
      ok (record w { store = s; pos = u64 (pos + 1); off = rec.stream_offset_after })
  restore w (Outcome.err e, s) = err e
  restore w (Outcome.panic, s) = panic

module _ {E U S : Type 0} (J : Journal (Record E) S) where
  unfoldable pub load : Worker E U S → Outcome (Worker E U S)
  unfolding restore
  load w = restore w (J.last_record w.store)

module _ {E U S : Type 0} (M : Messages E U) (J : Journal (Record E) S) where
  unfoldable pub find_append_record : AppendRequest E U → Worker E U S → Outcome (Record E) × S
  find_append_record req w =
      J.scan_from_search_result 0 w.pos (search_by_offset req.offset_hint)
        (is_append_of M req.events) w.store

  -- The second half of `appendEvents`: the events are written at the end of the stream.
  unfoldable pub append_new :
      AppendRequest E U → Worker E U S → Outcome AppendResponse × Worker E U S
  unfolding append_record finish_append
  append_new req w =
      let after = u64 (w.off + length req.events) in
      finish_append w.off after w (J.append w.pos (append_record w.off after req.events) w.store)

  -- The first half: what the search for a prior attempt found.
  pub after_search :
      AppendRequest E U → Worker E U S → Outcome (Record E) → Outcome AppendResponse × Worker E U S
  after_search req w (Outcome.ok rec) = (
    ok (record {
      begin_offset = rec.stream_offset_before;
      end_offset = rec.stream_offset_after;
      appended_by_prior_attempt = true;
    }),
    w,
  )
  after_search req w (Outcome.err Error.not_found) = append_new req w
  after_search req w (Outcome.err e) = (err e, w)
  after_search req w Outcome.panic = (panic, w)

  pub search_then_append : AppendRequest E U → Worker E U S → Outcome AppendResponse × Worker E U S
  unfolding find_append_record after_search
  search_then_append req w =
      let (found, s) = find_append_record req w in after_search req (record w { store = s }) found

  unfoldable pub append_events :
      AppendRequest E U → Worker E U S → Outcome AppendResponse × Worker E U S
  unfolding might_be_duplicates search_then_append append_new
  append_events req w =
      if might_be_duplicates req w then search_then_append req w else append_new req w

  unfoldable pub handle_append :
      Exchange E U → Worker E U S → Run (Action (State E U) × Worker E U S)
  unfolding respond append_events
  handle_append ex w =
      if length ex.request.events == 0 then panicked else respond ex (append_events ex.request w)

  unfoldable pub states : State E U → Worker E U S → Run (Action (State E U) × Worker E U S)
  unfolding idle handle_append
  states idle_state w = idle w
  states (handle_append_state ex) w = handle_append ex w

  pub start_loaded : ℕ → Worker E U S → Outcome (Worker E U S) → Exit (Worker E U S)
  start_loaded fuel w (Outcome.ok w') = Fsm.start states (λ v. v.ctx_err) fuel idle_state none w'
  start_loaded fuel w (Outcome.err e) = Exit.returned (some e) w
  start_loaded fuel w Outcome.panic = Exit.panicked w

  -- `Run`, with fuel for the rounds of the state machine.
  unfoldable pub run : ℕ → Worker E U S → Exit (Worker E U S)
  unfolding load start_loaded states
  run fuel w = start_loaded fuel w (load J w)

-- ===== src/Integration/Supervisor.antt =====
-- internal/integration/supervisor.go and scope.go: the supervisor of an integration handler.
--
-- The world of its state machine is `Supervisor`: the fields that change, the storage of the journal
-- and of the set, the state of the application and its services, what the `select` of the idle state
-- receives (`inputs`), and what was sent on the acknowledgement channels. `Run` opens the journal
-- and the set; logging, tracing and the clock of the scope are left out.
pub mod Requests
pub mod Machine
pub mod Progress
pub mod Effects
pub mod Calls
pub mod Acting
pub mod Handling
pub mod Completing
pub mod Accept
pub mod Replay
pub mod Removal
pub mod Outstanding
pub mod Complete
pub mod Recover
pub mod Interrupted
pub mod Resuming
pub mod Restarting
pub mod Relapsing
pub mod Acknowledge
use veracity.Base.{
  ℕ, zero, suc, ◌+◌, Bool, true, false, List, [], ◌∷◌, ◌++◌, Option, none, some, u64, if◌then◌else◌,
  length, ◌==◌, Error, Outcome, ok, err, panic,
}
use veracity.Fsm
use veracity.Fsm.{Action, Run, Exit, done, blocked, panicked, stop, fail, enter_state}
use veracity.EventStream.{Messages, AppendRequest, AppendResponse}
use veracity.Integration.{Record, CommandAccepted, CommandHandled, EventsAppendedToStream}
use veracity.Integration.Pending.{
  Pending, chain, each, delete_first, replay_record, replay, accepted_record, handled_record,
  appended_record,
}
use veracity.Integration.Services.{Log, AcceptedSet, App}

-- `ackqueue.Request`: the envelope, and the acknowledgement channel by number.
pub record Request (E : Type 0) : Type 0 where
  pub value : E
  pub acknowledgement : ℕ

-- `Ack` sends nil, `Nack` an error.
pub data Answer : Type 0 where
  ack : ℕ → Answer
  nack : ℕ → Answer

-- The cases of the `select` in `idle`; a canceled context comes with its `Err()`.
pub data Input (E : Type 0) : Type 0 where
  canceled : Error → Input E
  shutdown_signaled : Input E
  received : Request E → Input E

pub record Supervisor (E U JS KS X : Type 0) : Type 0 where
  pub journal_pos : ℕ
  pub event_stream_id : Option U
  pub event_offset_hint : ℕ
  pub journal : JS
  pub accepted_commands : KS
  pub app : X
  pub inputs : List (Input E)
  pub answers : List Answer
  pub ctx_err : Option Error

pub data State (E : Type 0) : Type 0 where
  recover_state : State E
  idle_state : State E
  accept_command_state : Request E → State E

-- Whether the operation was made by this call of `handleCommand`, with the pointer of the supervisor
-- as its stream, or decoded from the journal, with a pointer of its own.
pub data Origin : Type 0 where
  made : Origin
  decoded : Origin

module _ {E U JS KS X : Type 0} (J : Log (Record E U) JS) where
  pub advance :
      Supervisor E U JS KS X → Outcome (Unit {0}) × JS → Outcome (Unit {0}) × Supervisor E U JS KS X
  advance w (Outcome.ok _, s) =
      (ok tt, record w { journal = s; journal_pos = u64 (w.journal_pos + 1) })
  advance w (Outcome.err e, s) = (err e, record w { journal = s })
  advance w (Outcome.panic, s) = (panic, record w { journal = s })

  -- `journal.Append` at `journalPos`, which moves on if it succeeds.
  unfoldable pub append_record :
      Record E U → Supervisor E U JS KS X → Outcome (Unit {0}) × Supervisor E U JS KS X
  unfolding advance
  append_record rec w = advance w (J.append w.journal_pos rec w.journal)

-- `s.eventStreamID == op.GetEventStreamId()`, a comparison of pointers.
abbrev pub same_stream : {U : Type 0} → Origin → Option U → Option U → Bool
same_stream Origin.made a b = true
same_stream Origin.decoded none none = true
same_stream Origin.decoded _ _ = false

module _ {E U X JS KS : Type 0} (M : Messages E U) (J : Log (Record E U) JS) (K : AcceptedSet U KS)
    (A : App E U X) where
  -- `RecordEvent` of scope.go for each event in turn: the packed events.
  unfoldable pub record_events : List A.Event → E → List E → X → List E × X
  record_events [] command events x = (events, x)
  record_events (e ∷ es) command events x =
      let (env, x') = A.pack e command x in record_events es command (events ++ env ∷ []) x'

  unfoldable pub set_add : U → Supervisor E U JS KS X → Outcome (Unit {0}) × Supervisor E U JS KS X
  set_add id w =
      let (r, s) = K.add id w.accepted_commands in (r, record w { accepted_commands = s })

  -- `AppendEvents` of the recorder, and the offset that is taken from its response.
  pub took_response :
      Origin
      → CommandHandled E U
      → Supervisor E U JS KS X
      → Outcome AppendResponse × X
      → Outcome (Unit {0}) × Supervisor E U JS KS X
  took_response from op w (Outcome.ok res, x) = (
    ok tt,
    record w {
      app = x;
      event_offset_hint =
          if same_stream from w.event_stream_id op.event_stream_id
          then res.end_offset
          else w.event_offset_hint;
    },
  )
  took_response from op w (Outcome.err e, x) = (err e, record w { app = x })
  took_response from op w (Outcome.panic, x) = (panic, record w { app = x })

  unfoldable pub append_events :
      Origin
      → CommandHandled E U
      → Supervisor E U JS KS X
      → Outcome (Unit {0}) × Supervisor E U JS KS X
  unfolding chain took_response append_record appended_record
  append_events from op w =
      if length op.events == 0
      then (ok tt, w)
      else chain
          (took_response from op w (
            A.append_events
              (record {
                stream_id = op.event_stream_id;
                events = op.events;
                offset_hint = op.offset_hint;
              })
              w.app))
          (λ _ v. append_record J (appended_record op.command_id) v)

  -- The handler with its scope: what it returned, and the events that it recorded.
  pub called_handler :
      E
      → Supervisor E U JS KS X
      → (List A.Event × Outcome (Unit {0})) × X
      → Outcome (List E) × Supervisor E U JS KS X
  unfolding record_events
  called_handler env w ((es, r), x) =
      let (events, x') = record_events es env [] x in
      (elim r [ ok _ ↦ ok events | err e ↦ err e | panic ↦ panic ], record w { app = x' })

  pub call_handler :
      E → Option A.Command → Supervisor E U JS KS X → Outcome (List E) × Supervisor E U JS KS X
  unfolding called_handler
  call_handler env none w = (panic, w)
  call_handler env (some cmd) w = called_handler env w (A.handle_command cmd w.app)

  -- The assignment of `SelectEventStream`, which is made even with an error.
  pub selected :
      Supervisor E U JS KS X
      → ((Option U × ℕ) × Option Error) × X
      → Outcome (Unit {0}) × Supervisor E U JS KS X
  selected w (((id, off), e), x) = (
    elim e [ none ↦ ok tt | some y ↦ err y ],
    record w { event_stream_id = id; event_offset_hint = off; app = x },
  )

  pub select_from : Option U → Supervisor E U JS KS X → Outcome (Unit {0}) × Supervisor E U JS KS X
  unfolding selected
  select_from none w = selected w (A.select_event_stream w.app)
  select_from (some id) w = (ok tt, w)

  unfoldable pub select_stream :
      List E → Supervisor E U JS KS X → Outcome (Unit {0}) × Supervisor E U JS KS X
  unfolding select_from
  select_stream [] w = (ok tt, w)
  select_stream (e ∷ es) w = select_from w.event_stream_id w

  -- `op`, with the stream and the offset only where there are events.
  abbrev pub handled_op : E → List E → Supervisor E U JS KS X → CommandHandled E U
  handled_op env [] w = record {
    command_id = M.message_id env;
    events = [];
    event_stream_id = none;
    offset_hint = 0;
  }
  handled_op env (e ∷ es) w = record {
    command_id = M.message_id env;
    events = e ∷ es;
    event_stream_id = w.event_stream_id;
    offset_hint = w.event_offset_hint;
  }

  -- The part of `handleCommand` after the handler has returned.
  unfoldable pub finish_command :
      E → List E → Supervisor E U JS KS X → Outcome (Unit {0}) × Supervisor E U JS KS X
  unfolding chain select_stream append_record handled_record append_events
  finish_command env events w = chain (select_stream events w) (λ _ v.
      chain (append_record J (handled_record (handled_op env events v)) v)
        (λ _ u. append_events Origin.made (handled_op env events v) u))

  unfoldable pub handle_command :
      E → Supervisor E U JS KS X → Outcome (Unit {0}) × Supervisor E U JS KS X
  unfolding chain set_add call_handler finish_command
  handle_command env w = chain (set_add (M.message_id env) w) (λ _ v.
      chain (A.unpack env, v)
        (λ msg v.
          chain (call_handler env (A.as_command msg) v) (λ events u. finish_command env events u)))

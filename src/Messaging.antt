-- ===== src/Messaging.antt =====
-- internal/messaging/exchange.go, internal/messaging/ackqueue/queue.go and
-- internal/integration/executor.go: a call over a queue, which is `ExchangeQueue.Do` or `Queue.Push`
-- with the side that receives.
--
-- The two sides run at once: a list of events says in which order their steps happen. The channel of the
-- queue has no room, so that a send and a receive are one step; the channel of the response has room
-- for one value. `R` is what the response channel carries: a `Failable` in `Do`, an error or nil in
-- `Push`.
pub mod Serving
pub mod Topic
mod Examples
use veracity.Base.{List, [], ◌∷◌, Option, none, some, Error}

-- Where the client is: in the first or the second `select`, or returned.
pub data Client (R : Type 0) : Type 0 where
  sending : Client R
  waiting : Client R
  gave_up : Error → Client R
  got : R → Client R

-- The other side answers a request that it holds once.
pub data Server (R : Type 0) : Type 0 where
  idle : Server R
  holding : Server R
  answered : R → Server R

pub record Call (R : Type 0) : Type 0 where
  pub client : Client R
  pub server : Server R
  pub response : Option R

-- `New`: the response channel is empty.
abbrev pub new_call : {R : Type 0} → Call R
new_call = record { client = Client.sending; server = Server.idle; response = none }

pub data CallEvent (R : Type 0) : Type 0 where
  canceled : Error → CallEvent R
  handed_over : CallEvent R
  replied : R → CallEvent R
  received : CallEvent R

module _ {R : Type 0} where
  -- `<-ctx.Done()`, in either `select`.
  unfoldable pub cancel_call : Error → Client R → Option (Client R)
  cancel_call e Client.sending = some (Client.gave_up e)
  cancel_call e Client.waiting = some (Client.gave_up e)
  cancel_call e (Client.gave_up x) = none
  cancel_call e (Client.got r) = none

  -- `q.Send() <- ex` with a receive from `Recv()`.
  unfoldable pub hand_over : Client R → Server R → Option (Client R × Server R)
  hand_over Client.sending Server.idle = some (Client.waiting, Server.holding)
  hand_over c s = none

  -- `Ok`, `Zero`, `Err`, `Ack` or `Nack`: the send on the response channel waits while the channel is full.
  unfoldable pub reply : R → Server R → Option R → Option (Server R × Option R)
  reply r Server.holding none = some (Server.answered r, some r)
  reply r s o = none

  -- The receive from the response channel.
  unfoldable pub receive : Client R → Option R → Option (Client R × Option R)
  receive Client.waiting (some r) = some (Client.got r, none)
  receive c o = none

  -- A step, if it can happen.
  unfoldable pub call_step : CallEvent R → Call R → Option (Call R)
  unfolding cancel_call hand_over reply receive
  call_step (CallEvent.canceled e) c = elim (cancel_call e c.client) [
    | none ↦ none
    | some k ↦ some (record c { client = k })
  ]
  call_step CallEvent.handed_over c = elim (hand_over c.client c.server) [
    | none ↦ none
    | some p ↦ some (record c { client = p.0; server = p.1 })
  ]
  call_step (CallEvent.replied r) c = elim (reply r c.server c.response) [
    | none ↦ none
    | some p ↦ some (record c { server = p.0; response = p.1 })
  ]
  call_step CallEvent.received c = elim (receive c.client c.response) [
    | none ↦ none
    | some p ↦ some (record c { client = p.0; response = p.1 })
  ]

  unfoldable pub call_next : (Call R → Option (Call R)) → Option (Call R) → Option (Call R)
  call_next f none = none
  call_next f (some c) = f c

  unfoldable pub call_run : List (CallEvent R) → Call R → Option (Call R)
  unfolding call_step call_next
  call_run [] c = some c
  call_run (e ∷ rest) c = call_next (call_run rest) (call_step e c)

-- What `Push` and with it `ExecuteCommand` returns, if it has returned.
unfoldable pub push_result : Client (Option Error) → Option (Option Error)
push_result Client.sending = none
push_result Client.waiting = none
push_result (Client.gave_up e) = some (some e)
push_result (Client.got err) = some err

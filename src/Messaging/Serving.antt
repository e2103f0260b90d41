-- ===== src/Messaging/Serving.antt =====
-- What each side of a call knows of the other (internal/messaging/exchange.go,
-- internal/messaging/ackqueue/queue.go).
use veracity.Base.{◌≡◌, refl, ap, ◌⊎◌, inl, inr, List, [], ◌∷◌, Option, none, some, Error}
use veracity.Messaging.{
  Client, Server, Call, CallEvent, new_call, cancel_call, hand_over, reply, receive, call_step,
  call_next, call_run, push_result,
}

module _ {R : Type 0} where
  -- The states of a call.
  data Goes : Client R → Server R → Option R → Type 0 where
    before : Goes Client.sending Server.idle none
    at_work : Goes Client.waiting Server.holding none
    answered : (r : R) → Goes Client.waiting (Server.answered r) (some r)
    over : (r : R) → Goes (Client.got r) (Server.answered r) none
    unsent : (e : Error) → Goes (Client.gave_up e) Server.idle none
    alone : (e : Error) → Goes (Client.gave_up e) Server.holding none
    too_late : (e : Error) (r : R) → Goes (Client.gave_up e) (Server.answered r) (some r)

  abbrev GoesCall : Option (Call R) → Type 0
  GoesCall none = Unit
  GoesCall (some c) = Goes c.client c.server c.response

  canceled-Goes :
      (e : Error) (k : Client R) (s : Server R) (o : Option R)
      → Goes k s o
      → GoesCall
          (call_step (CallEvent.canceled e) (record { client = k; server = s; response = o }))
  unfolding call_step cancel_call
  canceled-Goes e k s o before = unsent e
  canceled-Goes e k s o at_work = alone e
  canceled-Goes e k s o (answered r) = too_late e r
  canceled-Goes e k s o (over r) = tt
  canceled-Goes e k s o (unsent x) = tt
  canceled-Goes e k s o (alone x) = tt
  canceled-Goes e k s o (too_late x r) = tt

  handed_over-Goes :
      (k : Client R) (s : Server R) (o : Option R)
      → Goes k s o
      → GoesCall (call_step CallEvent.handed_over (record { client = k; server = s; response = o }))
  unfolding call_step hand_over
  handed_over-Goes k s o before = at_work
  handed_over-Goes k s o at_work = tt
  handed_over-Goes k s o (answered r) = tt
  handed_over-Goes k s o (over r) = tt
  handed_over-Goes k s o (unsent x) = tt
  handed_over-Goes k s o (alone x) = tt
  handed_over-Goes k s o (too_late x r) = tt

  replied-Goes :
      (r : R) (k : Client R) (s : Server R) (o : Option R)
      → Goes k s o
      → GoesCall (call_step (CallEvent.replied r) (record { client = k; server = s; response = o }))
  unfolding call_step reply
  replied-Goes r k s o before = tt
  replied-Goes r k s o at_work = answered r
  replied-Goes r k s o (answered q) = tt
  replied-Goes r k s o (over q) = tt
  replied-Goes r k s o (unsent x) = tt
  replied-Goes r k s o (alone x) = too_late x r
  replied-Goes r k s o (too_late x q) = tt

  received-Goes :
      (k : Client R) (s : Server R) (o : Option R)
      → Goes k s o
      → GoesCall (call_step CallEvent.received (record { client = k; server = s; response = o }))
  unfolding call_step receive
  received-Goes k s o before = tt
  received-Goes k s o at_work = tt
  received-Goes k s o (answered r) = over r
  received-Goes k s o (over r) = tt
  received-Goes k s o (unsent x) = tt
  received-Goes k s o (alone x) = tt
  received-Goes k s o (too_late x r) = tt

  step-Goes :
      (e : CallEvent R) (c : Call R) → Goes c.client c.server c.response → GoesCall (call_step e c)
  step-Goes (CallEvent.canceled e) c g = canceled-Goes e c.client c.server c.response g
  step-Goes CallEvent.handed_over c g = handed_over-Goes c.client c.server c.response g
  step-Goes (CallEvent.replied r) c g = replied-Goes r c.client c.server c.response g
  step-Goes CallEvent.received c g = received-Goes c.client c.server c.response g

  run-Goes :
      (l : List (CallEvent R)) (o : Option (Call R))
      → GoesCall o
      → GoesCall (call_next (call_run l) o)
  unfolding call_run call_next
  run-Goes l none g = tt
  run-Goes [] (some c) g = g
  run-Goes (e ∷ rest) (some c) g = run-Goes rest (call_step e c) (step-Goes e c g)

  -- What holds of a call at any time.
  pub record Served (c : Call R) : Type 0 where
    pub free : c.server ≡ Server.holding → c.response ≡ none
    pub never_waits :
        c.server ≡ Server.holding
        → (r : R)
        → call_step (CallEvent.replied r) c
          ≡ some (record c { server = Server.answered r; response = some r })
    pub true_answer : (r : R) → c.client ≡ Client.got r → c.server ≡ Server.answered r
    pub not_lost :
        c.client ≡ Client.waiting
        → (c.server ≡ Server.holding)
          ⊎ ((r : R) × (c.server ≡ Server.answered r) × (c.response ≡ some r))
    pub untouched :
        c.server ≡ Server.idle
        → (c.client ≡ Client.sending) ⊎ ((e : Error) × (c.client ≡ Client.gave_up e))

  Goes-Served :
      (k : Client R) (s : Server R) (o : Option R)
      → Goes k s o
      → Served (record { client = k; server = s; response = o })
  unfolding call_step reply
  Goes-Served k s o before = record {
    free = λ e. refl;
    never_waits = λ e q. cc e;
    true_answer = λ r e. cc e;
    not_lost = λ e. cc e;
    untouched = λ e. inl refl;
  }
  Goes-Served k s o at_work = record {
    free = λ e. refl;
    never_waits = λ e r. refl;
    true_answer = λ r e. cc e;
    not_lost = λ e. inl refl;
    untouched = λ e. cc e;
  }
  Goes-Served k s o (answered r) = record {
    free = λ e. cc e;
    never_waits = λ e q. cc e;
    true_answer = λ q e. cc e;
    not_lost = λ e. inr (r, refl, refl);
    untouched = λ e. cc e;
  }
  Goes-Served k s o (over r) = record {
    free = λ e. refl;
    never_waits = λ e q. cc e;
    true_answer = λ q e. let h : r ≡ q = cc e in ap Server.answered h;
    not_lost = λ e. cc e;
    untouched = λ e. cc e;
  }
  Goes-Served k s o (unsent x) = record {
    free = λ e. refl;
    never_waits = λ e q. cc e;
    true_answer = λ r e. cc e;
    not_lost = λ e. cc e;
    untouched = λ e. inr (x, refl);
  }
  Goes-Served k s o (alone x) = record {
    free = λ e. refl;
    never_waits = λ e r. refl;
    true_answer = λ r e. cc e;
    not_lost = λ e. cc e;
    untouched = λ e. cc e;
  }
  Goes-Served k s o (too_late x r) = record {
    free = λ e. cc e;
    never_waits = λ e q. cc e;
    true_answer = λ q e. cc e;
    not_lost = λ e. cc e;
    untouched = λ e. cc e;
  }

  abbrev pub ServedIf : Option (Call R) → Type 0
  ServedIf none = Unit
  ServedIf (some c) = Served c

  -- A call after any events that can happen in their order: while the other side holds the request, the
  -- response channel is empty and an answer can be sent at once, with no step of the client, even of
  -- one that has given up; an answer that the client got is the one that was given; while the client waits for the answer,
  -- the other side is at work or the answer is there; and a request that was never received is one whose
  -- client is still sending or has given up.
  pub call_run-Served : (l : List (CallEvent R)) → ServedIf (call_run l new_call)
  unfolding call_next
  call_run-Served l = go (call_run l new_call) (run-Goes l (some new_call) before)
    where
      go : (o : Option (Call R)) → GoesCall o → ServedIf o
      go none g = tt
      go (some c) g = Goes-Served c.client c.server c.response g

-- A `Push` that has returned.
abbrev pub Pushed : Option (Call (Option Error)) → Type 0
Pushed none = Unit
Pushed (some c) =
    (push_result c.client ≡ some none → c.server ≡ Server.answered none)
    × ((e : Error)
        → push_result c.client ≡ some (some e)
        → (c.server ≡ Server.answered (some e)) ⊎ (c.client ≡ Client.gave_up e))

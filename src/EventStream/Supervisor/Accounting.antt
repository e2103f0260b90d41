-- ===== src/EventStream/Supervisor/Accounting.antt =====
-- What the supervisor has done with the exchanges that it took, and what it does while it is idle
-- (internal/eventstream/supervisor.go, `idleState`).
use veracity.Base.{
  ℕ, suc, ◌+◌, ◌≤◌, ◌≡◌, refl, sym, ap, ◌∙◌, List, [], ◌∷◌, ◌++◌, Option, none, some, length, All,
  arith, Error, append_assoc,
}
use veracity.Fsm.Invariant.{Goes, to_stop, to_fail, to_stay, to_enter, to_block}
use veracity.Maps.{Keys, Map}
use veracity.EventStream.Worker.Serving.{channel}
use veracity.EventStream.Supervisor.{
  IdleInput, Sent, to_worker, to_client, Supervisor, State, idle_state, forward_append_state,
  after_stop, select_idle,
}
use veracity.EventStream.Supervisor.Picking.{
  length-Picked, Received, nothing_runs, one_stopped, receive-Received,
}
use veracity.EventStream.Supervisor.Tracking.{IsRouted, Tracks, Tracks-Picked}

module _ {E U : Type 0} where
  -- The response channels of what was sent, in order.
  abbrev pub sent_channels : List (Sent E U) → List ℕ
  sent_channels [] = []
  sent_channels (to_worker n ex ∷ rest) = ex.response ∷ sent_channels rest
  sent_channels (to_client r ∷ rest) = channel r ∷ sent_channels rest

  -- The response channels of the exchanges that are still to be received, in order.
  abbrev pub waiting : List (IdleInput E U) → List ℕ
  waiting [] = []
  waiting (IdleInput.received ex ∷ rest) = ex.response ∷ waiting rest
  waiting (_ ∷ rest) = waiting rest

  sent_channels-append :
      (xs ys : List (Sent E U)) → sent_channels (xs ++ ys) ≡ sent_channels xs ++ sent_channels ys
  sent_channels-append [] ys = refl
  sent_channels-append (to_worker n ex ∷ xs) ys = ap (◌∷◌ ex.response) (sent_channels-append xs ys)
  sent_channels-append (to_client r ∷ xs) ys = ap (◌∷◌ (channel r)) (sent_channels-append xs ys)

  pub sent_last :
      (xs : List (Sent E U)) (s : Sent E U) (l : List ℕ)
      → sent_channels (xs ++ s ∷ []) ++ l ≡ sent_channels xs ++ (sent_channels (s ∷ []) ++ l)
  sent_last xs s l =
      ap (λ k. k ++ l) (sent_channels-append xs (s ∷ []))
      ∙ append_assoc (sent_channels xs) (sent_channels (s ∷ [])) l

module _ {E U X Ws : Type 0} {Q : Keys U} (W : Map Q ℕ Ws) (all : List ℕ) where
  -- The map and the trace are as they should be.
  pub record Held (w : Supervisor E U Ws X) : Type 0 where
    pub tracks : Tracks W w.workers w.live w.started
    pub routed : All (IsRouted w.started) w.sent

  -- With `hand` the channel of the exchange that is being forwarded, if any.
  abbrev pub Accounts : List ℕ → Supervisor E U Ws X → Type 0
  Accounts hand w = sent_channels w.sent ++ (hand ++ waiting w.idle_inputs) ≡ all

  -- Where the machine stops, before its final state.
  pub record Stopping (w : Supervisor E U Ws X) : Type 0 where
    pub held : Held w
    pub accounts : Accounts [] w
    pub enough : length w.live ≤ length w.stops

  -- Where it waits for ever, with one exchange in hand at most.
  pub record Waits (w : Supervisor E U Ws X) : Type 0 where
    pub held : Held w
    pub hand : List ℕ
    pub at_most_one : length hand ≤ 1
    pub accounts : Accounts hand w

  -- With `n` rounds left.
  abbrev pub Inv : ℕ → State E U → Supervisor E U Ws X → Type 0
  Inv n State.idle_state w =
      (length w.idle_inputs + length w.forward_inputs + 1 ≤ n)
      × (length w.live + length w.idle_inputs ≤ length w.stops)
      × Accounts [] w
      × Held w
  Inv n (State.forward_append_state ex) w =
      (length w.idle_inputs + length w.forward_inputs + 1 ≤ n)
      × (length w.live + length w.idle_inputs + 1 ≤ length w.stops)
      × Accounts (ex.response ∷ []) w
      × Held w
  Inv n State.shutdown_state w = ⊥

  -- A worker stops while the supervisor is idle; `u` is the world that the round began with.
  after_stop-Goes :
      (n : ℕ) (u w : Supervisor E U Ws X) (o : Option (Supervisor E U Ws X)) (res : Option Error)
      → Waits u
      → Received W w o
      → (length w.idle_inputs + length w.forward_inputs + 1 ≤ n)
      → (length w.live + length w.idle_inputs ≤ length w.stops)
      → Accounts [] w
      → Held w
      → Goes (Inv n) Stopping Waits idle_state u (after_stop W o res)
  unfolding after_stop
  after_stop-Goes n u w o res b (nothing_runs e) f s a h = to_block b
  after_stop-Goes n u w o none b (one_stopped x rest p) f s a h = to_stay (
    f,
    omega (arith, s, length-Picked p),
    a,
    record { tracks = Tracks-Picked W p h.tracks; routed = h.routed },
  )
  after_stop-Goes n u w o (some e) b (one_stopped x rest p) f s a h = to_fail e (record {
    held = record { tracks = Tracks-Picked W p h.tracks; routed = h.routed };
    accounts = a;
    enough = omega (arith, s, length-Picked p);
  })

  pub idle-Goes :
      (n : ℕ) (l : List (IdleInput E U)) (w : Supervisor E U Ws X)
      → w.idle_inputs ≡ l
      → Inv (suc n) idle_state w
      → Goes (Inv n) Stopping Waits idle_state w (select_idle W l w)
  unfolding select_idle
  idle-Goes n [] w e (f, s, a, h) =
      to_block (record { held = h; hand = []; at_most_one = omega arith; accounts = a })
  idle-Goes n (IdleInput.canceled x ∷ rest) w e (f, s, a, h) = to_stop (record {
    held = record { tracks = h.tracks; routed = h.routed };
    accounts = ap (λ l. sent_channels w.sent ++ waiting l) (sym e) ∙ a;
    enough = omega (arith, s);
  })
  idle-Goes n (IdleInput.worker_stopped i res ∷ rest) w e (f, s, a, h) =
      after_stop-Goes n w (record w { idle_inputs = rest }) _ res
        (record { held = h; hand = []; at_most_one = omega arith; accounts = a })
        (receive-Received W (record w { idle_inputs = rest }) i) (omega (arith, f, ap length e))
        (omega (arith, s, ap length e)) (ap (λ l. sent_channels w.sent ++ waiting l) (sym e) ∙ a)
        (record { tracks = h.tracks; routed = h.routed })
  idle-Goes n (IdleInput.received ex ∷ rest) w e (f, s, a, h) = to_enter (forward_append_state ex) (
    omega (arith, f, ap length e),
    omega (arith, s, ap length e),
    ap (λ l. sent_channels w.sent ++ waiting l) (sym e) ∙ a,
    record { tracks = h.tracks; routed = h.routed },
  )

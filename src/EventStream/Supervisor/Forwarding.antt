-- ===== src/EventStream/Supervisor/Forwarding.antt =====
-- Each exchange that the supervisor takes is handed to a worker of its stream, or refused
-- (internal/eventstream/supervisor.go, `forwardAppendState`).
use veracity.Base.{
  ℕ, suc, ◌+◌, ◌≤◌, ◌≡◌, refl, ap, ◌∙◌, List, [], ◌∷◌, ◌++◌, Option, none, some, length, All-append,
  arith, Error, shutting_down, Outcome, length-append,
}
use veracity.Fsm.Invariant.{Goes, to_stop, to_fail, to_stay, to_enter, to_block}
use veracity.Maps.{Keys, Map}
use veracity.EventStream.Worker.{Exchange, failure}
use veracity.EventStream.Supervisor.{
  ForwardInput, to_worker, to_client, Supervisor, State, idle_state, forward_append_state, refuse,
  idle, after_stop_of, select_forward, opened, got_worker, worker_by_stream_id, forward_to,
  forward_append, states,
}
use veracity.EventStream.Supervisor.Picking.{
  length-Picked, Received, nothing_runs, one_stopped, receive-Received,
}
use veracity.EventStream.Supervisor.Tracking.{
  get_elem?-append_last, IsRouted, All-IsRouted, Tracks-Picked, Tracks-opened, get-IsNumbered,
}
use veracity.EventStream.Supervisor.Accounting.{
  sent_channels, waiting, sent_last, Held, Accounts, Stopping, Waits, Inv, idle-Goes,
}

module _ {E U X Ws : Type 0} {Q : Keys U} (W : Map Q ℕ Ws) (all : List ℕ) where
  refuse-Accounts :
      (ex : Exchange E U) (w : Supervisor E U Ws X)
      → Accounts W all (ex.response ∷ []) w
      → Accounts W all [] (refuse W ex w)
  unfolding refuse
  refuse-Accounts ex w a =
      sent_last w.sent (to_client (failure ex.response shutting_down)) (waiting w.idle_inputs) ∙ a

  refuse-Held :
      (ex : Exchange E U) (w : Supervisor E U Ws X) → Held W all w → Held W all (refuse W ex w)
  unfolding refuse
  refuse-Held ex w h = record {
    tracks = h.tracks;
    routed = All-append _ w.sent _ h.routed (tt, tt);
  }

  refuse-Stopping :
      (ex : Exchange E U) (w : Supervisor E U Ws X)
      → Held W all w
      → Accounts W all (ex.response ∷ []) w
      → length w.live ≤ length w.stops
      → Stopping W all (refuse W ex w)
  refuse-Stopping ex w h a s = record {
    held = refuse-Held ex w h;
    accounts = refuse-Accounts ex w a;
    enough = unfold refuse in s;
  }

  -- A worker stops while the exchange waits.
  after_stop_of-Goes :
      (n : ℕ) (ex : Exchange E U) (u w : Supervisor E U Ws X) (o : Option (Supervisor E U Ws X))
      (res : Option Error)
      → Waits W all u
      → Received W w o
      → (length w.idle_inputs + length w.forward_inputs + 1 ≤ n)
      → (length w.live + length w.idle_inputs ≤ length w.stops)
      → Accounts W all (ex.response ∷ []) w
      → Held W all w
      → Goes
          (Inv W all n)
          (Stopping W all)
          (Waits W all)
          (forward_append_state ex)
          u
          (after_stop_of W ex o res)
  unfolding after_stop_of
  after_stop_of-Goes n ex u w o res b (nothing_runs e) f s a h = to_block b
  after_stop_of-Goes n ex u w o none b (one_stopped x rest p) f s a h = to_stay (
    f,
    omega (arith, s, length-Picked p),
    a,
    record { tracks = Tracks-Picked W p h.tracks; routed = h.routed },
  )
  after_stop_of-Goes n ex u w o (some e) b (one_stopped x rest p) f s a h = to_fail e (
      refuse-Stopping ex _ (record { tracks = Tracks-Picked W p h.tracks; routed = h.routed }) a
        (omega (arith, s, length-Picked p)))

  select_forward-Goes :
      (n k : ℕ) (l : List ForwardInput) (ex : Exchange E U) (u w : Supervisor E U Ws X)
      → Waits W all u
      → w.forward_inputs ≡ l
      → (length w.idle_inputs + length w.forward_inputs + 1 ≤ suc n)
      → (length w.live + length w.idle_inputs ≤ length w.stops)
      → Accounts W all (ex.response ∷ []) w
      → Held W all w
      → IsRouted w.started (to_worker k ex)
      → Goes
          (Inv W all n)
          (Stopping W all)
          (Waits W all)
          (forward_append_state ex)
          u
          (select_forward W ex k l w)
  unfolding select_forward
  select_forward-Goes n k [] ex u w b e f s a h r = to_block b
  select_forward-Goes n k (ForwardInput.canceled x ∷ rest) ex u w b e f s a h r = to_stop (
      refuse-Stopping ex (record w { forward_inputs = rest; ctx_err = some x })
        (record { tracks = h.tracks; routed = h.routed }) a (omega (arith, s)))
  select_forward-Goes n k (ForwardInput.worker_stopped i res ∷ rest) ex u w b e f s a h r =
      after_stop_of-Goes n ex u (record w { forward_inputs = rest }) _ res b
        (receive-Received W (record w { forward_inputs = rest }) i) (omega (arith, f, ap length e))
        s a (record { tracks = h.tracks; routed = h.routed })
  select_forward-Goes n k (ForwardInput.taken ∷ rest) ex u w b e f s a h r = to_enter idle_state (
    omega (arith, f, ap length e),
    s,
    sent_last w.sent (to_worker k ex) (waiting w.idle_inputs) ∙ a,
    record { tracks = h.tracks; routed = All-append _ w.sent _ h.routed (r, tt) },
  )

  -- The worker of the stream, which runs already or is started.
  abbrev Found : Exchange E U → Supervisor E U Ws X → Outcome ℕ × Supervisor E U Ws X → Type 0
  Found ex u (Outcome.ok k, w) =
      Held W all w
      × IsRouted w.started (to_worker k ex)
      × (w.idle_inputs ≡ u.idle_inputs)
      × (w.forward_inputs ≡ u.forward_inputs)
      × (w.stops ≡ u.stops)
      × (w.sent ≡ u.sent)
      × (length w.live ≤ length u.live + 1)
  Found ex u (Outcome.err e, w) =
      Held W all w
      × (w.idle_inputs ≡ u.idle_inputs)
      × (w.stops ≡ u.stops)
      × (w.sent ≡ u.sent)
      × (w.live ≡ u.live)
  Found ex u (Outcome.panic, w) = ⊥

  opened-Found :
      (ex : Exchange E U) (w : Supervisor E U Ws X) (o : Option Error × X)
      (open_journal : U → X → Option Error × X)
      → Held W all w
      → W.try_get ex.request.stream_id w.workers ≡ none
      → Found ex w (opened W open_journal ex.request.stream_id w o)
  unfolding opened
  opened-Found ex w (some e, x) oj h q =
      (record { tracks = h.tracks; routed = h.routed }, refl, refl, refl, refl)
  opened-Found ex w (none, x) oj h q =
      let t = Tracks-opened W ex.request.stream_id q h.tracks in
      (
        record { tracks = t; routed = All-IsRouted w.started ex.request.stream_id w.sent h.routed },
        get_elem?-append_last w.started ex.request.stream_id,
        refl,
        refl,
        refl,
        refl,
        omega (arith, length-append {0} w.live ((ex.request.stream_id, length w.started) ∷ [])),
      )

  module _ (open_journal : U → X → Option Error × X) where
    got_worker-Found :
        (ex : Exchange E U) (w : Supervisor E U Ws X) (o : Option ℕ)
        → Held W all w
        → W.try_get ex.request.stream_id w.workers ≡ o
        → Found ex w (got_worker W open_journal ex.request.stream_id w o)
    unfolding got_worker
    got_worker-Found ex w (some k) h q =
        (h, get-IsNumbered W ex.request.stream_id k q h.tracks, refl, refl, refl, refl, omega arith)
    got_worker-Found ex w none h q = opened-Found ex w _ open_journal h q

    forward_to-Goes :
        (n : ℕ) (ex : Exchange E U) (u : Supervisor E U Ws X) (r : Outcome ℕ × Supervisor E U Ws X)
        → Inv W all (suc n) (forward_append_state ex) u
        → Found ex u r
        → Goes
            (Inv W all n)
            (Stopping W all)
            (Waits W all)
            (forward_append_state ex)
            u
            (forward_to W open_journal ex r)
    unfolding forward_to
    forward_to-Goes n ex u (Outcome.ok k, w) (f, s, a, h) (h', r, ei, ef, es, et, le) =
        select_forward-Goes n k w.forward_inputs ex u w
          (record { held = h; hand = ex.response ∷ []; at_most_one = omega arith; accounts = a })
          refl (omega (arith, f, ap length ei, ap length ef))
          (omega (arith, s, le, ap length ei, ap length es))
          (ap (λ t. sent_channels t ++ ex.response ∷ waiting w.idle_inputs) et
            ∙ ap (λ l. sent_channels u.sent ++ ex.response ∷ waiting l) ei
            ∙ a)
          h' r
    forward_to-Goes n ex u (Outcome.err e, w) (f, s, a, h) (h', ei, es, et, el) = to_fail e (
        refuse-Stopping ex w h'
          (ap (λ t. sent_channels t ++ ex.response ∷ waiting w.idle_inputs) et
            ∙ ap (λ l. sent_channels u.sent ++ ex.response ∷ waiting l) ei
            ∙ a)
          (omega (arith, s, ap length el, ap length es)))
    forward_to-Goes n ex u (Outcome.panic, w) i p = absurd p

    pub states-Goes :
        (n : ℕ) (st : State E U) (w : Supervisor E U Ws X)
        → Inv W all (suc n) st w
        → Goes (Inv W all n) (Stopping W all) (Waits W all) st w (states W open_journal st w)
    states-Goes n State.idle_state w i =
        unfold states idle in idle-Goes W all n w.idle_inputs w refl i
    states-Goes n (State.forward_append_state ex) w i =
        unfold states forward_append worker_by_stream_id in
        forward_to-Goes n ex w _ i
          (got_worker-Found ex w (W.try_get ex.request.stream_id w.workers) i.3 refl)
    states-Goes n State.shutdown_state w i = absurd i

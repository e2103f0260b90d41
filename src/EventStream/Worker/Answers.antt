-- ===== src/EventStream/Worker/Answers.antt =====
-- Every request that a worker takes is answered (internal/eventstream/worker.go, with the loop of
-- internal/fsm/fsm.go).
use veracity.Base.{
  ℕ, zero, suc, ◌+◌, ◌*◌, ◌≤◌, ◌<◌, ◌≡◌, refl, sym, ap, ◌∙◌, subst, inl, inr, false, List, [], ◌∷◌,
  ◌++◌, Option, none, some, length, arith, Bool-cases, Error, Outcome, max_u64, append-nil, ◌==◌,
  ltb,
}
use veracity.Fsm.Invariant.{Leaves, Goes, to_fail, to_enter, start-Leaves}
use veracity.Journal.{Journal}
use veracity.EventStream.{Messages, Record, AppendResponse}
use veracity.EventStream.Stream.{end_offset, IsStream}
use veracity.EventStream.Prior.{prior}
use veracity.EventStream.Worker.{
  Worker, Input, Exchange, failure, State, idle_state, handle_append_state, append_events,
  append_new, find_append_record, search_then_append, after_search, finish_append, respond,
  handle_append, states, new_worker, load, start_loaded, run,
}
use veracity.EventStream.Worker.Contract.{recs, Meets, new-IsStream}
use veracity.EventStream.Worker.Append.{append_events-Meets}
use veracity.EventStream.Worker.Recovery.{Loads, load-Loads}
use veracity.EventStream.Worker.Serving.{
  waiting, demand, Requests, answered, answered-append, Served, ServedAll, Inv, idle-Goes, kept-new,
  off-new, Appends, after_ok,
}

module _ {E U S : Type 0} (J : Journal (Record E) S) (old : List (Record E))
    (channels : List ℕ) where
  no_rounds : (s : State E U) (w : Worker E U S) → Inv J old channels zero s w → ⊥
  no_rounds idle_state w i = omega arith
  no_rounds (handle_append_state ex) w i = omega arith

  after_err :
      (n : ℕ) (ex : Exchange E U) (w w' : Worker E U S) (e : Error)
      → Inv J old channels (suc n) (handle_append_state ex) w
      → Appends J old channels ex w w'
      → J.begin w'.store ≡ 0
      → IsStream 0 (recs J w')
      → (new : List (Record E)) × (recs J w' ≡ old ++ new)
      → Served J old channels (record w' { replies = w'.replies ++ failure ex.response e ∷ [] })
  after_err n ex w w' e (f, b, a, r, h) k b' str kept = record {
    begins = b';
    stream = str;
    kept = kept;
    accounted =
        answered-append w'.replies (failure ex.response e) (waiting w'.inputs)
        ∙ cc (k.inputs, k.replies, a);
  }

  respond-Goes :
      (n : ℕ) (ex : Exchange E U) (w : Worker E U S) (p : Option (Record E))
      (x : Outcome AppendResponse × Worker E U S)
      → Inv J old channels (suc n) (handle_append_state ex) w
      → Appends J old channels ex w x.1
      → Meets J p ex.request w x
      → Goes
          (Inv J old channels n)
          (Served J old channels)
          (ServedAll J old channels)
          (handle_append_state ex)
          w
          (respond ex x)
  unfolding respond
  respond-Goes n ex w none (Outcome.ok res, w') (f, b, a, r, h) k (e, q, ready) =
      to_enter idle_state (
        after_ok J old channels n ex w w' res (f, b, a, r, h) k ready
          (kept-new J old channels w _ _ h.kept' q)
          (omega (arith, off-new J old channels ex.request w w' h.ready ready q)))
  respond-Goes n ex w (some rec) (Outcome.ok res, w') (f, b, a, r, h) k (e, q, ready) =
      to_enter idle_state (
        after_ok J old channels n ex w w' res (f, b, a, r, h) k ready (h.kept'.0, q ∙ h.kept'.1)
          (omega (arith, ready.off_end, ap (end_offset 0) q, h.ready.off_end)))
  respond-Goes n ex w none (Outcome.err e, w') (f, b, a, r, h) k (b', inl q) = to_fail e (
      after_err n ex w w' e (f, b, a, r, h) k b' (subst (IsStream 0) (sym q) h.ready.stream)
        (h.kept'.0, q ∙ h.kept'.1))
  respond-Goes n ex w none (Outcome.err e, w') (f, b, a, r, h) k (b', inr q) = to_fail e (
      after_err n ex w w' e (f, b, a, r, h) k b'
        (subst (IsStream 0) (sym q) (new-IsStream J ex.request w h.ready r))
        (kept-new J old channels w _ _ h.kept' q))
  respond-Goes n ex w (some rec) (Outcome.err e, w') (f, b, a, r, h) k (b', q) = to_fail e (
      after_err n ex w w' e (f, b, a, r, h) k b' (subst (IsStream 0) (sym q) h.ready.stream)
        (h.kept'.0, q ∙ h.kept'.1))
  respond-Goes n ex w none (Outcome.panic, w') i k m = absurd m
  respond-Goes n ex w (some rec) (Outcome.panic, w') i k m = absurd m

module _ {E U S : Type 0} (M : Messages E U) (J : Journal (Record E) S) (old : List (Record E))
    (channels : List ℕ) where
  finish-Appends :
      (ex : Exchange E U) (w v : Worker E U S) (b a : ℕ) (o : Outcome (Unit {0})) (s : S)
      → v.inputs ≡ w.inputs
      → v.replies ≡ w.replies
      → Appends J old channels ex w (finish_append b a v (o, s)).1
  unfolding finish_append
  finish-Appends ex w v b a (Outcome.ok _) s i r = record { inputs = i; replies = r }
  finish-Appends ex w v b a (Outcome.err e) s i r = record { inputs = i; replies = r }
  finish-Appends ex w v b a Outcome.panic s i r = record { inputs = i; replies = r }

  new-Appends :
      (ex : Exchange E U) (w v : Worker E U S)
      → v.inputs ≡ w.inputs
      → v.replies ≡ w.replies
      → Appends J old channels ex w (append_new M J ex.request v).1
  unfolding append_new
  new-Appends ex w v i r = finish-Appends ex w v _ _ _ _ i r

  search-Appends :
      (ex : Exchange E U) (w v : Worker E U S) (o : Outcome (Record E))
      → v.inputs ≡ w.inputs
      → v.replies ≡ w.replies
      → Appends J old channels ex w (after_search M J ex.request v o).1
  search-Appends ex w v (Outcome.ok rec) i r =
      unfold after_search in record { inputs = i; replies = r }
  search-Appends ex w v (Outcome.err Error.not_found) i r =
      unfold after_search in new-Appends ex w v i r
  search-Appends ex w v (Outcome.err _) i r =
      unfold after_search in record { inputs = i; replies = r }
  search-Appends ex w v Outcome.panic i r =
      unfold after_search in record { inputs = i; replies = r }

  searched-Appends :
      (ex : Exchange E U) (w : Worker E U S)
      → Appends J old channels ex w (search_then_append M J ex.request w).1
  unfolding search_then_append
  searched-Appends ex w =
      let (found, s) = find_append_record M J ex.request w in
      search-Appends ex w (record w { store = s }) found refl refl

  append-Appends :
      (ex : Exchange E U) (w : Worker E U S)
      → Appends J old channels ex w (append_events M J ex.request w).1
  unfolding append_events
  append-Appends ex w = elim (Bool-cases (ltb ex.request.offset_hint w.off)) [
    | inl maybe ↦ rw maybe (searched-Appends ex w)
    | inr never ↦ rw never (new-Appends ex w w refl refl)
  ]

  handle-Goes :
      (n : ℕ) (ex : Exchange E U) (w : Worker E U S)
      → Inv J old channels (suc n) (handle_append_state ex) w
      → Goes
          (Inv J old channels n)
          (Served J old channels)
          (ServedAll J old channels)
          (handle_append_state ex)
          w
          (handle_append M J ex w)
  unfolding handle_append
  handle-Goes n ex w (f, b, a, r, h) =
      let e : (length ex.request.events == 0) ≡ false = ground arith in
      rw e (
        respond-Goes J old channels n ex w (prior M ex.request (recs J w))
          (append_events M J ex.request w) (f, b, a, r, h) (append-Appends ex w)
          (append_events-Meets M J ex.request w h.ready r (omega arith)))

  states-Goes :
      (n : ℕ) (s : State E U) (w : Worker E U S)
      → Inv J old channels (suc n) s w
      → Goes
          (Inv J old channels n)
          (Served J old channels)
          (ServedAll J old channels)
          s
          w
          (states M J s w)
  states-Goes n idle_state w (f, b, a, h) =
      unfold states in idle-Goes J old channels n w.inputs w refl f b a h
  states-Goes n (handle_append_state ex) w i = unfold states in handle-Goes n ex w i

module _ {E U S : Type 0} (M : Messages E U) (J : Journal (Record E) S) (s : S)
    (inputs : List (Input E U)) (fuel : ℕ) (begins : J.begin s ≡ 0)
    (stream : IsStream 0 (J.records s)) (requests : Requests inputs)
    (bound : end_offset 0 (J.records s) + demand inputs < max_u64)
    (enough : 2 * length inputs + 1 ≤ fuel) where
  loaded-Leaves :
      (o : Outcome (Worker E U S))
      → Loads J inputs (J.records s) o
      → Leaves
          (Served J (J.records s) (waiting inputs))
          (ServedAll J (J.records s) (waiting inputs))
          (λ _. ⊥)
          (start_loaded M J fuel (new_worker s inputs) o)
  loaded-Leaves (Outcome.ok w) (ready, e, i, r) =
      unfold start_loaded in
      start-Leaves (states M J) (λ v. v.ctx_err) (Inv J (J.records s) (waiting inputs))
        (Served J (J.records s) (waiting inputs)) (ServedAll J (J.records s) (waiting inputs))
        (λ _. ⊥) (no_rounds J (J.records s) (waiting inputs))
        (states-Goes M J (J.records s) (waiting inputs)) fuel idle_state w
        (
          omega (arith, ap length i),
          omega (arith, ap demand i, ready.off_end, ap (end_offset 0) e),
          cc (ap answered r, ap waiting i),
          record {
            ready = ready;
            kept' = ([], e ∙ sym (append-nil (J.records s)));
            requests = subst Requests (sym i) requests;
          },
        )
  loaded-Leaves (Outcome.err e) l =
      unfold start_loaded new_worker in
      record {
        begins = begins;
        stream = stream;
        kept = ([], sym (append-nil (J.records s)));
        accounted = refl;
      }
  loaded-Leaves Outcome.panic l = absurd l

  -- A new worker over a journal that holds a stream, whose offsets fit in 64 bits with all that is
  -- asked, with events in every request: with two rounds for each input and one more, `Run` comes to
  -- an exit, without a panic. At each exit the journal holds a stream that begins with the old
  -- records, and the response channels that were answered, followed by those still waiting, are the
  -- channels of the requests in their order: none is skipped or answered twice. Where the worker
  -- is left waiting for input, all were answered.
  pub run_answers :
      Leaves
        (Served J (J.records s) (waiting inputs))
        (ServedAll J (J.records s) (waiting inputs))
        (λ _. ⊥)
        (run M J fuel (new_worker s inputs))
  unfolding run
  run_answers =
      loaded-Leaves (load J (new_worker s inputs))
        (load-Loads J s inputs begins stream (omega arith))

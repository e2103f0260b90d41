-- ===== src/EventStream/Worker/Retry.antt =====
-- Attempts of one request that are repeated until one succeeds (internal/eventstream/worker.go).
use veracity.Base.{
  ◌+◌, ◌≤◌, ◌<◌, ◌≡◌, refl, sym, ap, ◌∙◌, subst, ◌⊎◌, inl, inr, true, List, [], ◌∷◌, ◌++◌, none,
  some, length, arith, Error, Outcome, ok, err, max_u64, append-nil,
}
use veracity.Journal.{Journal}
use veracity.EventStream.{Messages, Record, AppendRequest, AppendResponse}
use veracity.EventStream.Stream.{
  record_events, end_offset, IsStream, stream_events, stream_events-append, end_offset-append,
}
use veracity.EventStream.Prior.{prior, prior-append, same_message}
use veracity.EventStream.Worker.{Worker, Input, append_record, append_events, new_worker, load}
use veracity.EventStream.Worker.Contract.{
  recs, IsReady, Fresh, Deduplicated, Meets, new_record, new-IsStream,
}
use veracity.EventStream.Worker.Append.{append_events-Meets}
use veracity.EventStream.Worker.Recovery.{Loads, load-Loads, Retries, first, again}

module _ {E U : Type 0} (M : Messages E U) where
  -- A record with the events of a request begins with the request's first message.
  same_message-new :
      (r : Record E) (events : List E)
      → 0 < length events
      → record_events r ≡ events
      → same_message M events r ≡ true
  same_message-new r [] h e = elim h [ ]
  same_message-new r (x ∷ xs) h e = rw e ((M.equal_iff (M.message_id x) (M.message_id x)).1 refl)

module _ {E U S : Type 0} (M : Messages E U) (J : Journal (Record E) S) (req : AppendRequest E U)
    (w : Worker E U S) (ready : IsReady J w) (nonempty : 0 < length req.events)
    (bound : w.off + length req.events + length req.events < max_u64)
    (hinted : req.offset_hint ≤ w.off) (unseen : prior M req (recs J w) ≡ none) where
  -- The request's record is in the journal once or not at all, behind what was there.
  record Attempted (v : Worker E U S) : Type 0 where
    ready' : IsReady J v
    once : (recs J v ≡ recs J w) ⊎ (recs J v ≡ recs J w ++ new_record J req w ∷ [])

  before-new : (new_record J req w).stream_offset_before ≡ w.off
  unfolding append_record
  before-new = refl

  after-new : (new_record J req w).stream_offset_after ≡ w.off + length req.events
  unfolding append_record
  after-new = refl

  events-new : record_events (new_record J req w) ≡ req.events
  unfolding append_record
  events-new = refl

  off-new :
      (v : Worker E U S)
      → IsReady J v
      → recs J v ≡ recs J w ++ new_record J req w ∷ []
      → v.off ≡ w.off + length req.events
  off-new v r e =
      r.off_end
      ∙ ap (end_offset 0) e
      ∙ end_offset-append 0 (recs J w) (new_record J req w ∷ [])
      ∙ after-new

  -- What an attempt does: a success has the range behind the old records, and the record is written.
  abbrev Tried : Outcome AppendResponse × Worker E U S → Type 0
  Tried (Outcome.ok res, v) =
      (res.begin_offset ≡ w.off)
      × (res.end_offset ≡ w.off + length req.events)
      × (recs J v ≡ recs J w ++ new_record J req w ∷ [])
      × IsReady J v
  Tried (Outcome.err e, v) =
      (J.begin v.store ≡ 0)
      × ((recs J v ≡ recs J w) ⊎ (recs J v ≡ recs J w ++ new_record J req w ∷ []))
  Tried (Outcome.panic, v) = ⊥

  off-same : (v : Worker E U S) → IsReady J v → recs J v ≡ recs J w → v.off ≡ w.off
  off-same v r e = r.off_end ∙ ap (end_offset 0) e ∙ sym ready.off_end

  new-same :
      (v : Worker E U S)
      → IsReady J v
      → recs J v ≡ recs J w
      → recs J v ++ new_record J req v ∷ [] ≡ recs J w ++ new_record J req w ∷ []
  new-same v r e =
      cc (e, ap (λ o. append_record o (o + length req.events) req.events) (off-same v r e))

  Tried-Fresh :
      (v : Worker E U S)
      → IsReady J v
      → recs J v ≡ recs J w
      → (x : Outcome AppendResponse × Worker E U S) → Fresh J req v x
      → Tried x
  Tried-Fresh v r e (Outcome.ok res, v') h = (
    ap (λ (a : AppendResponse). a.begin_offset) h.0 ∙ off-same v r e,
    ap (λ (a : AppendResponse). a.end_offset) h.0
        ∙ ap (λ o. o + length req.events) (off-same v r e),
    h.1 ∙ new-same v r e,
    h.2,
  )
  Tried-Fresh v r e (Outcome.err x, v') (b, inl h) = (b, inl (h ∙ e))
  Tried-Fresh v r e (Outcome.err x, v') (b, inr h) = (b, inr (h ∙ new-same v r e))
  Tried-Fresh v r e (Outcome.panic, v') h = h

  Tried-Deduplicated :
      (v : Worker E U S)
      → recs J v ≡ recs J w ++ new_record J req w ∷ []
      → (x : Outcome AppendResponse × Worker E U S) → Deduplicated J (new_record J req w) v x
      → Tried x
  Tried-Deduplicated v e (Outcome.ok res, v') h = (
    ap (λ (a : AppendResponse). a.begin_offset) h.0 ∙ before-new,
    ap (λ (a : AppendResponse). a.end_offset) h.0 ∙ after-new,
    h.1 ∙ e,
    h.2,
  )
  Tried-Deduplicated v e (Outcome.err x, v') h = (h.0, inr (h.1 ∙ e))
  Tried-Deduplicated v e (Outcome.panic, v') h = h

  prior-new : prior M req (recs J w ++ new_record J req w ∷ []) ≡ some (new_record J req w)
  prior-new =
      prior-append M req (recs J w) (new_record J req w) unseen (omega (arith, after-new))
        (same_message-new M (new_record J req w) req.events nonempty events-new)

  attempt : (v : Worker E U S) → Attempted v → Tried (append_events M J req v)
  attempt v a = elim a.once [
    | inl e ↦ Tried-Fresh v a.ready' e _ (
        subst (λ p. Meets J p req v (append_events M J req v)) (ap (prior M req) e ∙ unseen)
          (append_events-Meets M J req v a.ready' nonempty (omega (arith, off-same v a.ready' e))))
    | inr e ↦ Tried-Deduplicated v e _ (
        subst (λ p. Meets J p req v (append_events M J req v)) (ap (prior M req) e ∙ prior-new)
          (append_events-Meets M J req v a.ready' nonempty (omega (arith, off-new v a.ready' e))))
  ]

  attempt_failed :
      (x : Outcome AppendResponse × Worker E U S) (e : Error)
      → Tried x
      → x.0 ≡ err e
      → (J.begin x.1.store ≡ 0)
        × ((recs J x.1 ≡ recs J w) ⊎ (recs J x.1 ≡ recs J w ++ new_record J req w ∷ []))
  attempt_failed (Outcome.ok res, v) e h p = cc
  attempt_failed (Outcome.err x, v) e h p = h
  attempt_failed (Outcome.panic, v) e h p = absurd h

  attempt_succeeded :
      (x : Outcome AppendResponse × Worker E U S) (res : AppendResponse)
      → Tried x
      → x.0 ≡ ok res
      → (res.begin_offset ≡ w.off)
        × (res.end_offset ≡ w.off + length req.events)
        × (recs J x.1 ≡ recs J w ++ new_record J req w ∷ [])
        × IsReady J x.1
  attempt_succeeded (Outcome.ok r, v) res h p = (cc (p, h.0), cc (p, h.1), h.2, h.3)
  attempt_succeeded (Outcome.err x, v) res h p = cc
  attempt_succeeded (Outcome.panic, v) res h p = absurd h

  end-new : end_offset 0 (recs J w ++ new_record J req w ∷ []) ≡ w.off + length req.events
  end-new = end_offset-append 0 (recs J w) (new_record J req w ∷ []) ∙ after-new

  restarted :
      (s : S) (inputs : List (Input E U)) (v : Worker E U S)
      → J.begin s ≡ 0
      → (J.records s ≡ recs J w) ⊎ (J.records s ≡ recs J w ++ new_record J req w ∷ [])
      → load J (new_worker s inputs) ≡ ok v
      → Attempted v
  restarted s inputs v b (inl e) l =
      let h = subst (Loads J inputs (J.records s)) l (
        load-Loads J s inputs b (subst (IsStream 0) (sym e) ready.stream)
          (omega (arith, ap (end_offset 0) e, ready.off_end))) in
      record { ready' = h.0; once = inl (h.1 ∙ e) }
  restarted s inputs v b (inr e) l =
      let h = subst (Loads J inputs (J.records s)) l (
        load-Loads J s inputs b (subst (IsStream 0) (sym e) (new-IsStream J req w ready nonempty))
          (omega (arith, ap (end_offset 0) e, end-new))) in
      record { ready' = h.0; once = inr (h.1 ∙ e) }

  Retries-Attempted : (v : Worker E U S) → Retries M J req w v → Attempted v
  Retries-Attempted v first = record { ready' = ready; once = inl refl }
  Retries-Attempted v' (again {v} e inputs r p l) =
      let t = attempt_failed (append_events M J req v) e (attempt v (Retries-Attempted v r)) p in
      restarted _ inputs v' t.0 t.1 l

  -- Let a worker be ready, with no record from the hint on that begins with the request's first
  -- message, and let the hint be within the stream and the offsets fit in 64 bits. However often the
  -- request fails and is sent again to a new worker over the journal that the failed one left, an
  -- attempt that succeeds answers with the range behind the old events, the stream then holds the
  -- old events and the request's, once, and the worker is ready.
  pub retry_exactly_once :
      (v : Worker E U S) (res : AppendResponse)
      → Retries M J req w v
      → (append_events M J req v).0 ≡ ok res
      → let v' = (append_events M J req v).1 in
        (res.begin_offset ≡ w.off)
        × (res.end_offset ≡ w.off + length req.events)
        × (stream_events (recs J v') ≡ stream_events (recs J w) ++ req.events)
        × IsReady J v'
  retry_exactly_once v res r p =
      let t =
        attempt_succeeded (append_events M J req v) res (attempt v (Retries-Attempted v r)) p in
      (
        t.0,
        t.1,
        ap stream_events t.2
            ∙ stream_events-append (recs J w) (new_record J req w ∷ [])
            ∙ ap (λ l. stream_events (recs J w) ++ l) (append-nil _ ∙ events-new),
        t.3,
      )

-- ===== src/EventStream/Worker/Stale.antt =====
-- A worker whose journal was written by another worker (internal/eventstream/worker.go).
use veracity.Base.{
  ℕ, ◌+◌, ◌≡◌, refl, ◌∙◌, ◌≢◌, inl, inr, true, length, Bool-cases, Error, Outcome, ltb,
}
use veracity.Journal.{Journal, Appended, written, refused, unsure}
use veracity.EventStream.{Messages, Record, AppendRequest, AppendResponse}
use veracity.EventStream.Prior.{found}
use veracity.EventStream.Worker.{
  Worker, append_new, append_events, finish_append, find_append_record, after_search,
  search_then_append,
}
use veracity.EventStream.Worker.Contract.{recs}

module _ {E U S : Type 0} (J : Journal (Record E) S) where
  -- The records stay, and a success is no new append.
  abbrev pub Unwritten : Worker E U S → Outcome AppendResponse × Worker E U S → Type 0
  Unwritten w (Outcome.ok res, w') = (res.appended_by_prior_attempt ≡ true) × (recs J w' ≡ recs J w)
  Unwritten w (Outcome.err e, w') = recs J w' ≡ recs J w
  Unwritten w (Outcome.panic, w') = recs J w' ≡ recs J w

  stale_finish :
      (b a : ℕ) (r : Record E) (w v : Worker E U S) (o : Outcome (Unit {0})) (s : S)
      → v.pos ≢ J.begin v.store + length (recs J v)
      → recs J v ≡ recs J w
      → Appended J.records (J.begin v.store + length (recs J v)) v.pos r v.store o s
      → Unwritten w (finish_append b a v (o, s))
  unfolding finish_append
  stale_finish b a r w v o s ne q (written p e) = absurd (ne p)
  stale_finish b a r w v o s ne q (refused x e) = e ∙ q
  stale_finish b a r w v o s ne q (unsure x p e) = absurd (ne p)

module _ {E U S : Type 0} (M : Messages E U) (J : Journal (Record E) S) where
  stale_new :
      (req : AppendRequest E U) (w v : Worker E U S)
      → v.pos ≢ J.begin v.store + length (recs J v)
      → recs J v ≡ recs J w
      → Unwritten J w (append_new M J req v)
  unfolding append_new
  stale_new req w v ne q = stale_finish J _ _ _ w v _ _ ne q (J.append-Appended _ _ _)

  stale_after_search :
      (req : AppendRequest E U) (w v : Worker E U S) (o : Outcome (Record E))
      → v.pos ≢ J.begin v.store + length (recs J v)
      → recs J v ≡ recs J w
      → Unwritten J w (after_search M J req v o)
  stale_after_search req w v (Outcome.ok rec) ne q = unfold after_search in (refl, q)
  stale_after_search req w v (Outcome.err Error.not_found) ne q =
      unfold after_search in stale_new req w v ne q
  stale_after_search req w v (Outcome.err _) ne q = unfold after_search in q
  stale_after_search req w v Outcome.panic ne q = unfold after_search in q

  stale_search :
      (req : AppendRequest E U) (w : Worker E U S)
      → w.pos ≢ J.begin w.store + length (recs J w)
      → Unwritten J w (search_then_append M J req w)
  unfolding search_then_append find_append_record
  stale_search req w ne =
      let (found, s) = find_append_record M J req w in
      stale_after_search req w (record w { store = s }) found
        (λ p. ne (p ∙ cc (J.scan-records _ _ _ _ _, J.scan-begin _ _ _ _ _)))
        (J.scan-records _ _ _ _ _)

  -- A worker whose position is not the end of its journal, since another worker has written to it,
  -- writes nothing: every request leaves the records as they were, and it fails, panics, or is
  -- answered as appended by a prior attempt.
  pub stale_worker_writes_nothing :
      (req : AppendRequest E U) (w : Worker E U S)
      → w.pos ≢ J.begin w.store + length (recs J w)
      → Unwritten J w (append_events M J req w)
  unfolding append_events
  stale_worker_writes_nothing req w ne = elim (Bool-cases (ltb req.offset_hint w.off)) [
    | inl maybe ↦ rw maybe (stale_search req w ne)
    | inr never ↦ rw never (stale_new req w w ne refl)
  ]

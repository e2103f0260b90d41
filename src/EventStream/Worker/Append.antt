-- ===== src/EventStream/Worker/Append.antt =====
-- What `appendEvents` does, on every branch (internal/eventstream/worker.go).
use veracity.Base.{
  ℕ, ◌+◌, ◌<◌, ◌≡◌, refl, sym, ap, ◌∙◌, subst, ◌⊎◌, inl, inr, List, [], ◌∷◌, Option, none, some,
  length, All, arith, Bool-cases, Outcome, err, external, max_u64, u64-eq_of_lt, ltb, ltb→lt,
  ltb→le, All-append_right,
}
use veracity.Journal.{Journal}
use veracity.EventStream.{Messages, Record, AppendRequest, search_by_offset}
use veracity.EventStream.Stream.{
  record_events, end_offset, IsStream, IsStream-nonempty, from_offset, from_offset-end, held,
}
use veracity.EventStream.Prior.{prior, found, first_match, scan-found}
use veracity.EventStream.Worker.{
  Worker, append_record, append_new, append_events, finish_append, after_search, search_then_append,
  is_append_of,
}
use veracity.EventStream.Worker.Contract.{
  recs, IsReady, Fresh, finish-Fresh, Fresh-store, IsReady-store, Deduplicated, Meets, Meets-failed,
}

module _ {E U S : Type 0} (M : Messages E U) (J : Journal (Record E) S) where
  pub append_new-Fresh :
      (req : AppendRequest E U) (w : Worker E U S)
      → IsReady J w
      → 0 < length req.events
      → w.off + length req.events < max_u64
      → Fresh J req w (append_new M J req w)
  unfolding append_new
  append_new-Fresh req w h n bound =
      subst
        (λ a.
          Fresh J req w
            (finish_append w.off a w (J.append w.pos (append_record w.off a req.events) w.store)))
        (sym (u64-eq_of_lt _ bound))
        (finish-Fresh J req w h n bound _ _ (J.append-begin _ _ _) (J.append-Appended _ _ _))

  search-found :
      (events : List E) (h pos : ℕ) (s : S) (rs : List (Record E))
      → 0 < length events
      → J.begin s ≡ 0
      → pos ≡ length rs
      → J.records s ≡ rs
      → IsStream 0 rs
      → h < end_offset 0 rs
      → let o =
          (J.scan_from_search_result 0 pos (search_by_offset h) (is_append_of M events) s).0 in
        (o ≡ found (first_match M events (from_offset h rs))) ⊎ ((n : ℕ) × (o ≡ err (external n)))
  search-found [] h pos s rs n b p q str lt = elim n [ ]
  search-found (x ∷ xs) h pos s rs n b p q str lt =
      let hd = held h 0 rs str (omega arith) lt in
      elim (J.scan_hit 0 pos (search_by_offset h) (is_append_of M (x ∷ xs)) s hd.before hd.after
        hd.hit (sym b) (omega (arith, ap length q)) (q ∙ hd.split) hd.less hd.equal hd.greater) [
          | inl e ↦ inl (
              e
              ∙ scan-found M x xs (hd.hit ∷ hd.after) (
                  All-append_right _ hd.before (hd.hit ∷ hd.after) (
                    subst (All (λ r. 0 < length (record_events r))) hd.split
                      (IsStream-nonempty 0 rs str)))
              ∙ ap (λ l. found (first_match M (x ∷ xs) l)) (sym hd.rest))
          | inr e ↦ inr e
        ]

  search-Meets :
      (req : AppendRequest E U) (w : Worker E U S)
      → IsReady J w
      → 0 < length req.events
      → w.off + length req.events < max_u64
      → (p : Option (Record E)) (o : Outcome (Record E)) (s : S) → J.begin s ≡ J.begin w.store
      → J.records s ≡ recs J w
      → (o ≡ found p) ⊎ ((n : ℕ) × (o ≡ err (external n)))
      → Meets J p req w (after_search M J req (record w { store = s }) o)
  search-Meets req w h n bound none o s b q (inl e) =
      subst (λ x. Fresh J req w (after_search M J req (record w { store = s }) x)) (sym e)
        (unfold after_search in
          Fresh-store J req w s _ q
            (append_new-Fresh req (record w { store = s }) (IsReady-store J w s b q h) n bound))
  search-Meets req w h n bound (some r) o s b q (inl e) =
      subst (λ x. Deduplicated J r w (after_search M J req (record w { store = s }) x)) (sym e)
        (unfold after_search in (refl, q, IsReady-store J w s b q h))
  search-Meets req w h n bound p o s b q (inr (k, e)) =
      subst (λ x. Meets J p req w (after_search M J req (record w { store = s }) x)) (sym e)
        (unfold after_search in Meets-failed J p req w s (external k) (b ∙ h.begins) q)

  searched-Meets :
      (req : AppendRequest E U) (w : Worker E U S)
      → IsReady J w
      → 0 < length req.events
      → w.off + length req.events < max_u64
      → req.offset_hint < w.off
      → Meets J (prior M req (recs J w)) req w (search_then_append M J req w)
  unfolding search_then_append
  searched-Meets req w h n bound lt =
      search-Meets req w h n bound (prior M req (recs J w)) _ _ (J.scan-begin _ _ _ _ _)
        (J.scan-records _ _ _ _ _)
        (search-found req.events req.offset_hint w.pos w.store (recs J w) n h.begins h.at_end refl
          h.stream (omega (arith, h.off_end)))

  -- From a worker that is ready, for a request with events that fit in 64 bits, `appendEvents` meets
  -- its contract: where the journal has, from the hint on, a record that begins with the request's
  -- first message, it answers with the range of the first such record and writes nothing; where it
  -- has none, it writes one record at the end of the stream and answers with its range. In both cases
  -- the worker stays ready. A failure leaves the journal as it was or, in the second case only, with
  -- the new record; there is no panic.
  pub append_events-Meets :
      (req : AppendRequest E U) (w : Worker E U S)
      → IsReady J w
      → 0 < length req.events
      → w.off + length req.events < max_u64
      → Meets J (prior M req (recs J w)) req w (append_events M J req w)
  unfolding append_events
  append_events-Meets req w h n bound = elim (Bool-cases (ltb req.offset_hint w.off)) [
    | inl maybe ↦ rw maybe (searched-Meets req w h n bound (ltb→lt _ _ maybe))
    | inr never ↦
        rw
          (
            never,
            from_offset-end req.offset_hint 0 (recs J w) h.stream
                (omega (arith, h.off_end, ltb→le _ _ never)),
          )
          (append_new-Fresh req w h n bound)
  ]

-- ===== src/EventStream/Worker/Contract.antt =====
-- The contract of `appendEvents` (internal/eventstream/worker.go).
use veracity.Base.{
  ◌+◌, ◌<◌, ◌≡◌, refl, sym, ap, ◌∙◌, subst, ◌⊎◌, inl, inr, true, false, List, [], ◌∷◌, ◌++◌, Option,
  none, some, length, arith, Error, Outcome, err, u64, max_u64, length-append,
}
use veracity.Journal.{Journal, Appended, written, refused, unsure}
use veracity.EventStream.{Record, AppendRequest, AppendResponse}
use veracity.EventStream.Stream.{
  end_offset, IsStream, IsStream-append, end_offset-append, length-le-end_offset,
}
use veracity.EventStream.Worker.{Worker, append_record, finish_append}

module _ {E U S : Type 0} (J : Journal (Record E) S) where
  abbrev pub recs : Worker E U S → List (Record E)
  recs w = J.records w.store

  -- The worker's fields agree with its journal, which holds a whole stream.
  pub record IsReady (w : Worker E U S) : Type 0 where
    pub begins : J.begin w.store ≡ 0
    pub at_end : w.pos ≡ length (recs w)
    pub off_end : w.off ≡ end_offset 0 (recs w)
    pub stream : IsStream 0 (recs w)

  abbrev pub new_record : AppendRequest E U → Worker E U S → Record E
  new_record req w = append_record w.off (w.off + length req.events) req.events

  -- The events are new: a success has the range at the end of the stream and writes the record; after
  -- an error the record is there or not.
  abbrev pub Fresh :
      AppendRequest E U → Worker E U S → Outcome AppendResponse × Worker E U S → Type 0
  Fresh req w (Outcome.ok res, w') =
      (res ≡ record {
        begin_offset = w.off;
        end_offset = w.off + length req.events;
        appended_by_prior_attempt = false;
      })
      × (recs w' ≡ recs w ++ new_record req w ∷ [])
      × IsReady w'
  Fresh req w (Outcome.err e, w') =
      (J.begin w'.store ≡ 0) × ((recs w' ≡ recs w) ⊎ (recs w' ≡ recs w ++ new_record req w ∷ []))
  Fresh req w (Outcome.panic, w') = ⊥

  pub new-IsStream :
      (req : AppendRequest E U) (w : Worker E U S)
      → IsReady w
      → 0 < length req.events
      → IsStream 0 (recs w ++ new_record req w ∷ [])
  unfolding append_record
  new-IsStream req w h n =
      IsStream-append 0 (recs w) (new_record req w ∷ []) h.stream
        (h.off_end, ap (λ o. o + length req.events) h.off_end, n, tt)

  IsReady-after :
      (req : AppendRequest E U) (w : Worker E U S) (s : S)
      → IsReady w
      → 0 < length req.events
      → w.off + length req.events < max_u64
      → J.begin s ≡ J.begin w.store
      → J.records s ≡ recs w ++ new_record req w ∷ []
      → IsReady (record w { store = s; pos = u64 (w.pos + 1); off = w.off + length req.events })
  IsReady-after req w s h n bound b q = record {
    begins = b ∙ h.begins;
    at_end = omega (
      arith,
      h.at_end,
      h.off_end,
      ap length q,
      length-append (recs w) (new_record req w ∷ []),
      length-le-end_offset 0 (recs w) h.stream,
    );
    off_end =
        subst (λ x. w.off + length req.events ≡ end_offset 0 x) (sym q)
          (unfold append_record in sym (end_offset-append 0 (recs w) (new_record req w ∷ [])));
    stream = subst (IsStream 0) (sym q) (new-IsStream req w h n);
  }

  pub finish-Fresh :
      (req : AppendRequest E U) (w : Worker E U S)
      → IsReady w
      → 0 < length req.events
      → w.off + length req.events < max_u64
      → (o : Outcome (Unit {0})) (s : S) → J.begin s ≡ J.begin w.store
      → Appended J.records (J.begin w.store + length (recs w)) w.pos (new_record req w) w.store o s
      → Fresh req w (finish_append w.off (w.off + length req.events) w (o, s))
  unfolding finish_append
  finish-Fresh req w h n bound o s b (written p q) = (refl, q, IsReady-after req w s h n bound b q)
  finish-Fresh req w h n bound o s b (refused e q) = (b ∙ h.begins, inl q)
  finish-Fresh req w h n bound o s b (unsure e p q) = (b ∙ h.begins, inr q)

  -- The search leaves the records alone.
  pub Fresh-store :
      (req : AppendRequest E U) (w : Worker E U S) (s : S)
      (x : Outcome AppendResponse × Worker E U S)
      → J.records s ≡ recs w
      → Fresh req (record w { store = s }) x
      → Fresh req w x
  Fresh-store req w s (Outcome.ok res, w') q h =
      (h.0, subst (λ x. recs w' ≡ x ++ new_record req w ∷ []) q h.1, h.2)
  Fresh-store req w s (Outcome.err e, w') q (b, inl h) = (b, inl (h ∙ q))
  Fresh-store req w s (Outcome.err e, w') q (b, inr h) =
      (b, inr (subst (λ x. recs w' ≡ x ++ new_record req w ∷ []) q h))
  Fresh-store req w s (Outcome.panic, w') q h = elim h [ ]

  pub IsReady-store :
      (w : Worker E U S) (s : S)
      → J.begin s ≡ J.begin w.store
      → J.records s ≡ recs w
      → IsReady w
      → IsReady (record w { store = s })
  IsReady-store w s b q h = record {
    begins = b ∙ h.begins;
    at_end = h.at_end ∙ ap length (sym q);
    off_end = h.off_end ∙ ap (end_offset 0) (sym q);
    stream = subst (IsStream 0) (sym q) h.stream;
  }

  -- The events are in the record `r` already: a success has its range, and nothing is written.
  abbrev pub Deduplicated : Record E → Worker E U S → Outcome AppendResponse × Worker E U S → Type 0
  Deduplicated r w (Outcome.ok res, w') =
      (res ≡ record {
        begin_offset = r.stream_offset_before;
        end_offset = r.stream_offset_after;
        appended_by_prior_attempt = true;
      })
      × (recs w' ≡ recs w)
      × IsReady w'
  Deduplicated r w (Outcome.err e, w') = (J.begin w'.store ≡ 0) × (recs w' ≡ recs w)
  Deduplicated r w (Outcome.panic, w') = ⊥

  abbrev pub Meets :
      Option (Record E)
      → AppendRequest E U
      → Worker E U S
      → Outcome AppendResponse × Worker E U S
      → Type 0
  Meets none req w x = Fresh req w x
  Meets (some r) req w x = Deduplicated r w x

  -- A failure of the search leaves the journal alone, in either case.
  pub Meets-failed :
      (p : Option (Record E)) (req : AppendRequest E U) (w : Worker E U S) (s : S) (e : Error)
      → J.begin s ≡ 0
      → J.records s ≡ recs w
      → Meets p req w (err e, record w { store = s })
  Meets-failed none req w s e b q = (b, inl q)
  Meets-failed (some r) req w s e b q = (b, q)

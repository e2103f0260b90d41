-- ===== src/EventStream/Stream.antt =====
-- The abstract view of a stream's journal: a sequence of events, cut into records that meet at their
-- offsets, and the search for the record that holds an offset.
use veracity.Base.{
  ℕ, ◌+◌, ◌≤◌, ◌<◌, ◌≡◌, refl, sym, ap, ◌∙◌, inl, inr, List, [], ◌∷◌, ◌++◌, Option, none, some,
  Ordering, length, All, length-append, append_assoc, leb, arith, if◌then◌else◌, Bool-cases,
}
use veracity.EventStream.{Record, EventsAppended, search_by_offset}

module _ {E : Type 0} where
  abbrev operation_events : Option (EventsAppended E) → List E
  operation_events none = []
  operation_events (some op) = op.events

  abbrev pub record_events : Record E → List E
  record_events r = operation_events r.operation

  -- The events of a stream, in order.
  abbrev pub stream_events : List (Record E) → List E
  stream_events [] = []
  stream_events (r ∷ rs) = record_events r ++ stream_events rs

  -- The offset after the last record.
  abbrev pub end_offset : ℕ → List (Record E) → ℕ
  end_offset o [] = o
  end_offset o (r ∷ rs) = end_offset r.stream_offset_after rs

  -- Every record has events, begins where the one before it ends, and ends after its own events.
  abbrev pub IsStream : ℕ → List (Record E) → Type 0
  IsStream o [] = Unit
  IsStream o (r ∷ rs) =
      (r.stream_offset_before ≡ o)
      × (r.stream_offset_after ≡ o + length (record_events r))
      × (0 < length (record_events r))
      × IsStream r.stream_offset_after rs

  pub end_offset-append :
      (o : ℕ) (rs qs : List (Record E)) → end_offset o (rs ++ qs) ≡ end_offset (end_offset o rs) qs
  end_offset-append o [] qs = refl
  end_offset-append o (r ∷ rs) qs = end_offset-append r.stream_offset_after rs qs

  pub IsStream-append :
      (o : ℕ) (rs qs : List (Record E))
      → IsStream o rs
      → IsStream (end_offset o rs) qs
      → IsStream o (rs ++ qs)
  IsStream-append o [] qs h k = k
  IsStream-append o (r ∷ rs) qs h k =
      (h.0, h.1, h.2, IsStream-append r.stream_offset_after rs qs h.3 k)

  -- The offsets count the events.
  pub end_offset-length :
      (o : ℕ) (rs : List (Record E))
      → IsStream o rs
      → end_offset o rs ≡ o + length (stream_events rs)
  end_offset-length o [] h = omega arith
  end_offset-length o (r ∷ rs) h = omega (
    arith,
    end_offset-length r.stream_offset_after rs h.3,
    length-append (record_events r) (stream_events rs),
  )

  pub length-le-end_offset :
      (o : ℕ) (rs : List (Record E)) → IsStream o rs → o + length rs ≤ end_offset o rs
  length-le-end_offset o [] h = omega arith
  length-le-end_offset o (r ∷ rs) h =
      omega (arith, length-le-end_offset r.stream_offset_after rs h.3)

  pub stream_events-append :
      (rs qs : List (Record E)) → stream_events (rs ++ qs) ≡ stream_events rs ++ stream_events qs
  stream_events-append [] qs = refl
  stream_events-append (r ∷ rs) qs =
      ap (◌++◌ (record_events r)) (stream_events-append rs qs)
      ∙ sym (append_assoc (record_events r) (stream_events rs) (stream_events qs))

  -- The records from the one that holds the offset `h` on.
  abbrev pub from_offset : ℕ → List (Record E) → List (Record E)
  from_offset h [] = []
  from_offset h (r ∷ rs) = if leb r.stream_offset_after h then from_offset h rs else r ∷ rs

  pub from_offset-append :
      (h : ℕ) (rs : List (Record E)) (q : Record E)
      → h < q.stream_offset_after
      → from_offset h (rs ++ q ∷ []) ≡ from_offset h rs ++ q ∷ []
  from_offset-append h [] q lt = ground arith
  from_offset-append h (r ∷ rs) q lt = ground (arith, from_offset-append h rs q)

  pub from_offset-end :
      (h o : ℕ) (rs : List (Record E)) → IsStream o rs → end_offset o rs ≤ h → from_offset h rs ≡ []
  from_offset-end h o [] s le = refl
  from_offset-end h o (r ∷ rs) s le = ground (
    arith,
    from_offset-end h r.stream_offset_after rs s.3 le,
    length-le-end_offset r.stream_offset_after rs s.3,
  )

  pub IsStream-nonempty :
      (o : ℕ) (rs : List (Record E)) → IsStream o rs → All (λ r. 0 < length (record_events r)) rs
  IsStream-nonempty o [] s = tt
  IsStream-nonempty o (r ∷ rs) s = (s.2, IsStream-nonempty r.stream_offset_after rs s.3)

  after_gt :
      (h o : ℕ) (rs : List (Record E))
      → h < o
      → IsStream o rs
      → All (λ x. search_by_offset h x ≡ Ordering.gt) rs
  after_gt h o [] lt s = tt
  after_gt h o (r ∷ rs) lt s = (
    unfold search_by_offset in ground arith,
    after_gt h r.stream_offset_after rs (omega arith) s.3,
  )

  -- The record that holds an offset of the stream: those before it compare less, those after it
  -- greater.
  pub record Held (h : ℕ) (rs : List (Record E)) : Type 0 where
    pub before : List (Record E)
    pub hit : Record E
    pub after : List (Record E)
    pub split : rs ≡ before ++ hit ∷ after
    pub rest : from_offset h rs ≡ hit ∷ after
    pub less : All (λ x. search_by_offset h x ≡ Ordering.lt) before
    pub equal : search_by_offset h hit ≡ Ordering.eq
    pub greater : All (λ x. search_by_offset h x ≡ Ordering.gt) after

  pub held :
      (h o : ℕ) (rs : List (Record E)) → IsStream o rs → o ≤ h → h < end_offset o rs → Held h rs
  held h o [] s le lt = absurd (omega arith)
  held h o (r ∷ rs) s le lt = elim (Bool-cases (leb r.stream_offset_after h)) [
    | inl past ↦
        let ih = held h r.stream_offset_after rs s.3 (ground arith) lt in
        record {
          before = r ∷ ih.before;
          hit = ih.hit;
          after = ih.after;
          split = ap (◌∷◌ r) ih.split;
          rest = rw past ih.rest;
          less = (unfold search_by_offset in ground arith, ih.less);
          equal = ih.equal;
          greater = ih.greater;
        }
    | inr here ↦ record {
      before = [];
      hit = r;
      after = rs;
      split = refl;
      rest = rw here;
      less = tt;
      equal = unfold search_by_offset in ground arith;
      greater = after_gt h r.stream_offset_after rs (ground arith) s.3;
    }
  ]

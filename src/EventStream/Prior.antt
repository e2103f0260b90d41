-- ===== src/EventStream/Prior.antt =====
-- What `findAppendRecord` looks for, as a function of the journal's records.
use veracity.Base.{
  ◌<◌, ◌≡◌, refl, Bool, true, false, List, [], ◌∷◌, ◌++◌, Option, none, some, length, head?, All,
  arith, if◌then◌else◌, Outcome, ok, err, not_found,
}
use veracity.Journal.{scan}
use veracity.EventStream.{Messages, Record, AppendRequest}
use veracity.EventStream.Stream.{record_events, from_offset, from_offset-append}
use veracity.EventStream.Worker.{is_append_of}

module _ {E U : Type 0} (M : Messages E U) where
  abbrev same_ids : Option E → Option E → Bool
  same_ids (some target) (some candidate) = M.equal (M.message_id candidate) (M.message_id target)
  same_ids _ _ = false

  -- The record begins with the same message as `events`.
  abbrev pub same_message : List E → Record E → Bool
  same_message events r = same_ids (head? events) (head? (record_events r))

  abbrev pub first_match : List E → List (Record E) → Option (Record E)
  first_match events [] = none
  first_match events (r ∷ rs) = if same_message events r then some r else first_match events rs

  -- The record of a prior attempt of the request: the first one from the hint on that begins with
  -- the request's first message.
  abbrev pub prior : AppendRequest E U → List (Record E) → Option (Record E)
  prior req rs = first_match req.events (from_offset req.offset_hint rs)

  is_append_of_lem :
      (x : E) (xs : List E) (r : Record E)
      → 0 < length (record_events r)
      → is_append_of M (x ∷ xs) r ≡ ok (if same_message (x ∷ xs) r then some r else none)
  unfolding is_append_of
  is_append_of_lem x xs r h = ground arith

  first_match-append :
      (events : List E) (rs : List (Record E)) (q : Record E)
      → first_match events rs ≡ none
      → first_match events (rs ++ q ∷ []) ≡ (if same_message events q then some q else none)
  first_match-append events [] q h = refl
  first_match-append events (r ∷ rs) q h = ground (arith, first_match-append events rs q)

  -- Once the request's own record is written behind records without a prior attempt, it is the prior
  -- attempt.
  pub prior-append :
      (req : AppendRequest E U) (rs : List (Record E)) (q : Record E)
      → prior req rs ≡ none
      → req.offset_hint < q.stream_offset_after
      → same_message req.events q ≡ true
      → prior req (rs ++ q ∷ []) ≡ some q
  prior-append req rs q h lt e = rw (
    from_offset-append req.offset_hint rs q lt,
    first_match-append req.events (from_offset req.offset_hint rs) q h,
    e,
  )

module _ {E : Type 0} where
  abbrev pub found : Option (Record E) → Outcome (Record E)
  found none = err not_found
  found (some r) = ok r

module _ {E U : Type 0} (M : Messages E U) where
  pub scan-found :
      (x : E) (xs : List E) (rs : List (Record E))
      → All (λ r. 0 < length (record_events r)) rs
      → scan (is_append_of M (x ∷ xs)) rs ≡ found (first_match M (x ∷ xs) rs)
  unfolding scan
  scan-found x xs [] h = refl
  scan-found x xs (r ∷ rs) h = ground (arith, is_append_of_lem M x xs r h.0, scan-found x xs rs h.1)

-- ===== src/EventStream/Worker/Recovery.antt =====
-- What a new worker reads back, and attempts that are repeated until one succeeds
-- (internal/eventstream/worker.go).
use veracity.Base.{
  ℕ, ◌<◌, ◌≡◌, refl, sym, ap, ◌∙◌, subst, List, [], ◌∷◌, Option, length, arith, Error, Outcome, ok,
  err, max_u64, length-append,
}
use veracity.Journal.{Journal, Last, empty, at_end, failed}
use veracity.EventStream.{Messages, Record, AppendRequest}
use veracity.EventStream.Stream.{end_offset, IsStream, end_offset-append, length-le-end_offset}
use veracity.EventStream.Worker.{Worker, Input, append_events, new_worker, restore, load}
use veracity.EventStream.Worker.Contract.{recs, IsReady}

module _ {E U S : Type 0} (J : Journal (Record E) S) where
  -- The worker is ready, its journal has the records `rs`, and it has answered nobody.
  abbrev pub Loads : List (Input E U) → List (Record E) → Outcome (Worker E U S) → Type 0
  Loads inputs rs (Outcome.ok w) =
      IsReady J w × (recs J w ≡ rs) × (w.inputs ≡ inputs) × (w.replies ≡ [])
  Loads inputs rs (Outcome.err e) = Unit
  Loads inputs rs Outcome.panic = ⊥

  restore-Loads :
      (s s' : S) (inputs : List (Input E U)) (o : Outcome (Option (ℕ × Record E)))
      → J.begin s ≡ 0
      → IsStream 0 (J.records s)
      → end_offset 0 (J.records s) < max_u64
      → J.begin s' ≡ J.begin s
      → J.records s' ≡ J.records s
      → Last J.records (J.begin s) s o
      → Loads inputs (J.records s) (restore (new_worker s inputs) (o, s'))
  unfolding restore new_worker
  restore-Loads s s' inputs o b str bound b' q (empty e) = (
    record {
      begins = b' ∙ b;
      at_end = ap length (sym (q ∙ e));
      off_end = ap (end_offset 0) (sym (q ∙ e));
      stream = subst (IsStream 0) (sym q) str;
    },
    q,
    refl,
    refl,
  )
  restore-Loads s s' inputs o b str bound b' q (at_end rs r e) = (
    record {
      begins = b' ∙ b;
      at_end = omega (
        arith,
        b,
        length-append rs (r ∷ []),
        ap length (q ∙ e),
        ap length e,
        length-le-end_offset 0 (J.records s) str,
      );
      off_end = sym (ap (end_offset 0) (q ∙ e) ∙ end_offset-append 0 rs (r ∷ []));
      stream = subst (IsStream 0) (sym q) str;
    },
    q,
    refl,
    refl,
  )
  restore-Loads s s' inputs o b str bound b' q (failed n) = tt

  -- A new worker over a journal that holds a stream either fails to read it or is ready, with the
  -- records as they were.
  pub load-Loads :
      (s : S) (inputs : List (Input E U))
      → J.begin s ≡ 0
      → IsStream 0 (J.records s)
      → end_offset 0 (J.records s) < max_u64
      → Loads inputs (J.records s) (load J (new_worker s inputs))
  unfolding load new_worker
  load-Loads s inputs b str bound =
      restore-Loads s _ inputs _ b str bound (J.last-begin s) (J.last-records s)
        (J.last_record-Last s)

module _ {E U S : Type 0} (M : Messages E U) (J : Journal (Record E) S) where
  -- The workers of the attempts of one request: each attempt but the last failed, and a new worker
  -- was started over the journal that it left.
  pub data Retries (req : AppendRequest E U) (w : Worker E U S) : Worker E U S → Type 0 where
    first : Retries req w w
    again :
        {v v' : Worker E U S} (e : Error) (inputs : List (Input E U))
        → Retries req w v
        → (append_events M J req v).0 ≡ err e
        → load J (new_worker (append_events M J req v).1.store inputs) ≡ ok v'
        → Retries req w v'

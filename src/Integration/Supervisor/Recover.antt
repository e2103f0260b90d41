-- ===== src/Integration/Supervisor/Recover.antt =====
-- What `recover` leaves (internal/integration/supervisor.go).
use veracity.Base.{
  ℕ, ◌+◌, ◌<◌, ◌≡◌, refl, sym, ap, ◌∙◌, subst, ◌⊎◌, inl, inr, true, List, [], ◌∷◌, Option, none,
  some, length, All, arith, Error, Outcome, ok, panic, max_u64, ◌==◌, ==_iff, Bool-cases,
}
use veracity.Fsm.{Run, Action, fail, enter_state}
use veracity.EventStream.{Messages}
use veracity.Integration.{Record, CommandHandled}
use veracity.Integration.Services.{positioned, Log, AcceptedSet, App}
use veracity.Integration.Pending.{Pending, replay}
use veracity.Integration.Supervisor.{Supervisor, State, idle_state}
use veracity.Integration.Supervisor.Requests.{fail_or}
use veracity.Integration.Supervisor.Machine.{complete, truncated, recovered, bounded, recover}
use veracity.Integration.Supervisor.Progress.{pending_of, recs, At}
use veracity.Integration.Supervisor.Effects.{Settled}
use veracity.Integration.Supervisor.Completing.{Crashes, of_bounds, of_range, of_truncate}
use veracity.Integration.Supervisor.Replay.{replay-pending_from}

module _ {E U X JS KS : Type 0} (M : Messages E U) (J : Log (Record E U) JS) (K : AcceptedSet U KS)
    (A : App E U X) where
  -- Nothing is pending after calls that succeed, and the application is in a state with `did`.
  abbrev pub Settles : (X → Type 0) → Outcome (Unit {0}) × Supervisor E U JS KS X → Type 0
  Settles did (Outcome.ok _, v) = Settled M J K v × did v.app
  Settles did (Outcome.err e, v) = Unit
  Settles did (Outcome.panic, v) = Crashes M J K A

  abbrev pub Recovers : (X → Type 0) → Run (Action (State E) × Supervisor E U JS KS X) → Type 0
  Recovers did (Run.done (act, v)) =
      ((act ≡ enter_state idle_state) × Settled M J K v × (recs M J K v ≡ []) × did v.app)
      ⊎ ((e : Error) × (act ≡ fail e))
  Recovers did Run.blocked = ⊥
  Recovers did Run.panicked = Crashes M J K A

  truncated-Recovers :
      (did : X → Type 0) (v : Supervisor E U JS KS X) (o : Outcome (Unit {0})) (s : JS)
      → v.journal_pos ≡ J.begin v.journal + length (recs M J K v)
      → (o ≡ ok tt → (J.records s ≡ []) × (J.begin s ≡ J.begin v.journal + length (recs M J K v)))
      → did v.app
      → (o ≡ panic → Crashes M J K A)
      → Recovers did (truncated M J K A v (o, s))
  unfolding truncated
  truncated-Recovers did v (Outcome.ok _) s e h d c = inl (
    refl,
    record {
      handled = [];
      at = record {
        at_end = omega (arith, e, (h refl).1, ap length (h refl).0);
        pending = ap (pending_of M) (h refl).0;
        known = tt;
      };
      silent = tt;
    },
    (h refl).0,
    d,
  )
  truncated-Recovers did v (Outcome.err x) s e h d c = inr (x, refl)
  truncated-Recovers did v Outcome.panic s e h d c = c refl

  fail_or-Recovers :
      (did : X → Type 0) (x : Outcome (Unit {0}) × Supervisor E U JS KS X)
      → Settles did x
      → Recovers did
          (fail_or M J K A x (λ v. truncated M J K A v (J.truncate v.journal_pos v.journal)))
  unfolding fail_or
  fail_or-Recovers did (Outcome.ok _, v) (h, d) =
      truncated-Recovers did v _ _ h.at.at_end
        (subst
          (λ n.
            (J.truncate n v.journal).0 ≡ ok tt
            → (J.records (J.truncate n v.journal).1 ≡ [])
              × (J.begin (J.truncate n v.journal).1 ≡ J.begin v.journal + length (recs M J K v)))
          (sym h.at.at_end) (J.truncate_ok v.journal))
        d (of_truncate v.journal_pos v.journal)
  fail_or-Recovers did (Outcome.err e, v) h = inr (e, refl)
  fail_or-Recovers did (Outcome.panic, v) h = h

  -- After the range.
  recovered-Recovers :
      (did : X → Type 0) (w : Supervisor E U JS KS X) (n : ℕ) (p : Pending E U) (e : Option Error)
      → (e ≡ none → Settles did (complete M J K A p (record w { journal_pos = n })))
      → Recovers did (recovered M J K A w (n, ok p) e)
  unfolding recovered
  recovered-Recovers did w n p (some x) h = inr (x, refl)
  recovered-Recovers did w n p none h =
      fail_or-Recovers did (complete M J K A p (record w { journal_pos = n })) (h refl)

  recovered_error :
      (did : X → Type 0) (w : Supervisor E U JS KS X) (y : ℕ × Outcome (Pending E U)) (x : Error)
      → (y.1 ≡ panic → Crashes M J K A)
      → Recovers did (recovered M J K A w y (some x))
  unfolding recovered
  recovered_error did w (n, Outcome.ok p) x c = inr (x, refl)
  recovered_error did w (n, Outcome.err e) x c = inr (e, refl)
  recovered_error did w (n, Outcome.panic) x c = c refl

  abbrev pub nothing : Pending E U
  nothing = record { accepted = []; handled = [] }

  pub empty_pending :
      (l : List (Record E U)) (p : Pending E U) → length l ≡ 0 → pending_of M l ≡ ok p → p ≡ nothing
  empty_pending [] p n e = cc e
  empty_pending (r ∷ rs) p n e = absurd (omega (arith, n))

module _ {E U X JS KS : Type 0} (M : Messages E U) (J : Log (Record E U) JS) (K : AcceptedSet U KS)
    (A : App E U X) (did : X → Type 0) (w : Supervisor E U JS KS X) (p : Pending E U)
    (pending : pending_of M (recs M J K w) ≡ ok p)
    (room : J.begin w.journal + length (recs M J K w) < max_u64)
    (known : All
      (λ (h : CommandHandled E U). K.contains w.accepted_commands h.command_id ≡ true)
      p.handled)
    (settles : (v : Supervisor E U JS KS X)
      → At M J K p v
      → recs M J K v ≡ recs M J K w
      → J.begin v.journal ≡ J.begin w.journal
      → v.app ≡ w.app
      → Settles M J K A did (complete M J K A p v)) where
  -- The state in which the pending operations are completed.
  settled_at :
      (s : JS) (n : ℕ)
      → J.records s ≡ recs M J K w
      → J.begin s ≡ J.begin w.journal
      → n ≡ J.begin w.journal + length (recs M J K w)
      → Settles M J K A did (complete M J K A p (record w { journal = s; journal_pos = n }))
  settled_at s n r b e =
      settles _
        (record {
          at_end = omega (arith, e, b, ap length r);
          pending = ap (pending_of M) r ∙ pending;
          known = known;
        })
        r b refl

  ranged-Recovers :
      (s : JS) (b : ℕ) (visited : List (ℕ × Record E U)) (e : Option Error)
      → J.records s ≡ recs M J K w
      → J.begin s ≡ J.begin w.journal
      → b ≡ J.begin w.journal
      → (e ≡ none → visited ≡ positioned b (recs M J K w))
      → ((x : Error)
          → e ≡ some x
          → (replay M b (nothing M J K A) visited).1 ≡ panic
          → Crashes M J K A)
      → Recovers M J K A did
          (recovered M J K A (record w { journal = s }) (replay M b (nothing M J K A) visited) e)
  ranged-Recovers s b visited (some x) r q c v k = recovered_error M J K A did _ _ x (k x refl)
  ranged-Recovers s b visited none r q c v k =
      let all : replay M b (nothing M J K A) visited ≡ (b + length (recs M J K w), ok p) =
        ap (replay M b (nothing M J K A)) (v refl)
        ∙ replay-pending_from M b (nothing M J K A) p (recs M J K w) (omega (arith, room, c))
            pending in
      subst (λ y. Recovers M J K A did (recovered M J K A (record w { journal = s }) y none))
        (sym all)
        (recovered-Recovers M J K A did (record w { journal = s }) (b + length (recs M J K w)) p
          none (λ _. settled_at s _ r q (omega (arith, c))))

  empty-Recovers :
      (s : JS) (b e : ℕ)
      → J.records s ≡ recs M J K w
      → J.begin s ≡ J.begin w.journal
      → (b == e) ≡ true
      → b ≡ J.begin w.journal
      → e ≡ J.begin w.journal + length (recs M J K w)
      → Recovers M J K A did
          (recovered M J K A (record w { journal = s }) (b, ok (nothing M J K A)) none)
  empty-Recovers s b e r q t hb he =
      let same : b ≡ e = (==_iff b e).0 t in
      recovered-Recovers M J K A did (record w { journal = s }) b (nothing M J K A) none
        (λ _.
          subst
            (λ z.
              Settles M J K A did (complete M J K A z (record w { journal = s; journal_pos = b })))
            (empty_pending M J K A (recs M J K w) p (omega (arith, same, hb, he)) pending)
            (settled_at s b r q (omega (arith, same, he))))

  bounded-Recovers :
      (o : Outcome (ℕ × ℕ)) (s : JS)
      → J.records s ≡ recs M J K w
      → J.begin s ≡ J.begin w.journal
      → ((b e : ℕ)
          → o ≡ ok (b, e)
          → (b ≡ J.begin w.journal) × (e ≡ J.begin w.journal + length (recs M J K w)))
      → (o ≡ panic → Crashes M J K A)
      → Recovers M J K A did (bounded M J K A w (o, s))
  unfolding bounded
  bounded-Recovers (Outcome.err e) s r q h c = inr (e, refl)
  bounded-Recovers Outcome.panic s r q h c = c refl
  bounded-Recovers (Outcome.ok (b, e)) s r q h c = elim (Bool-cases (b == e)) [
    | inl t ↦ rw t (empty-Recovers s b e r q t (h b e refl).0 (h b e refl).1)
    | inr f ↦ rw f (
        ranged-Recovers (J.range b s).1 b (J.range b s).0.0 (J.range b s).0.1
          (J.range-records b s ∙ r) (J.range-begin b s ∙ q) (h b e refl).0
          (subst (λ k. (J.range k s).0.1 ≡ none → (J.range k s).0.0 ≡ positioned k (recs M J K w))
            (q ∙ sym (h b e refl).0) (λ z. J.range_ok s z ∙ ap (positioned (J.begin s)) r))
          (of_range b s))
  ]

  pub recover-Recovers : Recovers M J K A did (recover M J K A w)
  unfolding recover
  recover-Recovers =
      bounded-Recovers (J.bounds w.journal).0 (J.bounds w.journal).1 (J.bounds-records w.journal)
        (J.bounds-begin w.journal) (J.bounds_ok w.journal) (of_bounds w.journal)

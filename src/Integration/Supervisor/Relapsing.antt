-- ===== src/Integration/Supervisor/Relapsing.antt =====
-- What a recovery that fails leaves (internal/integration/supervisor.go, `recover`).
use veracity.Base.{
  ℕ, ◌+◌, ◌<◌, ◌≡◌, refl, sym, ap, ◌∙◌, subst, ◌⊎◌, inl, inr, List, [], ◌++◌, append-nil, Option,
  none, some, length, arith, Error, Outcome, ok, max_u64, ◌==◌, ==_iff, Bool-cases,
}
use veracity.Fsm.{Run, Action, done}
use veracity.EventStream.{Messages}
use veracity.Integration.{Record}
use veracity.Integration.Services.{positioned, Log, AcceptedSet, App}
use veracity.Integration.Pending.{Pending, replay}
use veracity.Integration.Supervisor.{Supervisor, State, Origin}
use veracity.Integration.Supervisor.Requests.{fail_or}
use veracity.Integration.Supervisor.Machine.{complete, truncated, recovered, bounded, recover}
use veracity.Integration.Supervisor.Progress.{pending_of, recs, At}
use veracity.Integration.Supervisor.Effects.{Settled}
use veracity.Integration.Supervisor.Replay.{replay-pending_from}
use veracity.Integration.Supervisor.Complete.{complete-accepted, complete-handled}
use veracity.Integration.Supervisor.Completing.{
  Crashes, Completes, Extends, Completed, complete-Completed,
}
use veracity.Integration.Supervisor.Recover.{Settles, Recovers, nothing, empty_pending}
use veracity.Integration.Supervisor.Interrupted.{
  Left, nothing_left, one_accepted, one_handled, complete_nothing, complete-Settles,
  recover-Left-Recovers,
}
use veracity.Integration.Supervisor.Resuming.{
  Resumes, Resumed, append_events-Resumed, handle_command-Resumed,
}

module _ {E U X JS KS : Type 0} (M : Messages E U) (J : Log (Record E U) JS) (K : AcceptedSet U KS)
    (A : App E U X) where
  -- From the supervisor `w`, with `p` pending. The journal has only more records and can be recovered
  -- again, or all of its work was done from the application's state to that of now, which makes the
  -- journal of `u`, and its truncation was the last call.
  abbrev Leads :
      Pending E U
      → Supervisor E U JS KS X
      → Run (Action (State E) × Supervisor E U JS KS X)
      → Type 0
  Leads p w (Run.done (act, v)) =
      (Resumes M J K A v × Extends M J K A w v)
      ⊎ (Completes M A p w.app v.app
          × ((u : Supervisor E U JS KS X) × Settled M J K u
              × Extends M J K A w u
              × (v.journal ≡ (J.truncate u.journal_pos u.journal).1)
              × (v.accepted_commands ≡ u.accepted_commands)))
  Leads p w Run.blocked = ⊥
  Leads p w Run.panicked = Unit

  -- The same, and a panic is one of a call.
  abbrev pub Relapses :
      Pending E U
      → Supervisor E U JS KS X
      → Run (Action (State E) × Supervisor E U JS KS X)
      → Type 0
  Relapses p w (Run.done (act, v)) = Leads p w (done (act, v))
  Relapses p w Run.blocked = ⊥
  Relapses p w Run.panicked = Crashes M J K A

  Leads-Relapses :
      (did : X → Type 0) (p : Pending E U) (w : Supervisor E U JS KS X)
      (x : Run (Action (State E) × Supervisor E U JS KS X))
      → Leads p w x
      → Recovers M J K A did x
      → Relapses p w x
  Leads-Relapses did p w (Run.done (act, v)) l c = l
  Leads-Relapses did p w Run.blocked l c = c
  Leads-Relapses did p w Run.panicked l c = c

  complete-Resumed :
      (p : Pending E U) (v : Supervisor E U JS KS X)
      → Left M J K A p
      → At M J K p v
      → v.journal_pos + 2 < max_u64
      → Resumed M J K A (complete M J K A p v)
  complete-Resumed p v (nothing_left hs s) h room =
      subst (Resumed M J K A) (sym (complete_nothing M J K A hs v s)) tt
  complete-Resumed p v (one_accepted env hs s f) h room =
      subst (Resumed M J K A) (sym (complete-accepted M J K A (record { command = env }) hs v s))
        (handle_command-Resumed M J K A env hs v s f h room)
  complete-Resumed p v (one_handled op hs s f) h room =
      subst (Resumed M J K A) (sym (complete-handled M J K A op hs v s))
        (append_events-Resumed M J K A Origin.decoded op hs v s f h (omega (arith, room)))

  truncated-Leads :
      (p : Pending E U) (w u : Supervisor E U JS KS X) (x : Outcome (Unit {0}) × JS)
      → Settled M J K u
      → Completes M A p w.app u.app
      → Extends M J K A w u
      → x.1 ≡ (J.truncate u.journal_pos u.journal).1
      → Leads p w (truncated M J K A u x)
  unfolding truncated
  truncated-Leads p w u (Outcome.ok t, s) g c l e = inr (c, (u, g, l, e, refl))
  truncated-Leads p w u (Outcome.err x, s) g c l e = inr (c, (u, g, l, e, refl))
  truncated-Leads p w u (Outcome.panic, s) g c l e = tt

  fail_or-Leads :
      (p : Pending E U) (w u : Supervisor E U JS KS X)
      (x : Outcome (Unit {0}) × Supervisor E U JS KS X)
      → recs M J K u ≡ recs M J K w
      → u.app ≡ w.app
      → Settles M J K A (Completes M A p u.app) x
      → Resumed M J K A x
      → Completed M J K A p u x
      → Leads p w
          (fail_or M J K A x (λ v. truncated M J K A v (J.truncate v.journal_pos v.journal)))
  unfolding fail_or
  fail_or-Leads p w u (Outcome.ok t, v) e a (s, c) r (_, (l, q)) =
      truncated-Leads p w v _ s (subst (λ z. Completes M A p z v.app) a c)
        (l, q ∙ ap (λ k. k ++ l) e) refl
  fail_or-Leads p w u (Outcome.err x, v) e a s r (l, q) = inl (r, (l, q ∙ ap (λ k. k ++ l) e))
  fail_or-Leads p w u (Outcome.panic, v) e a s r c = tt

module _ {E U X JS KS : Type 0} (M : Messages E U) (J : Log (Record E U) JS) (K : AcceptedSet U KS)
    (A : App E U X) (w : Supervisor E U JS KS X) (r : Resumes M J K A w)
    (room : J.begin w.journal + length (recs M J K w) + 2 < max_u64) where
  again :
      (s : JS) (n : ℕ)
      → J.records s ≡ recs M J K w
      → Resumes M J K A (record w { journal = s; journal_pos = n })
  again s n e = record {
    work = r.work;
    pending = ap (pending_of M) e ∙ r.pending;
    left = r.left;
    known = r.known;
  }

  unextended :
      (s : JS) (n : ℕ)
      → J.records s ≡ recs M J K w
      → Extends M J K A w (record w { journal = s; journal_pos = n })
  unextended s n e = ([], e ∙ sym (append-nil (recs M J K w)))

  error-Leads :
      (s : JS) (y : ℕ × Outcome (Pending E U)) (x : Error)
      → J.records s ≡ recs M J K w
      → Leads M J K A r.work w (recovered M J K A (record w { journal = s }) y (some x))
  unfolding recovered
  error-Leads s (n, Outcome.ok p) x e = inl (again s n e, unextended s n e)
  error-Leads s (n, Outcome.err y) x e = inl (again s n e, unextended s n e)
  error-Leads s (n, Outcome.panic) x e = tt

  done-Leads :
      (s : JS) (n : ℕ)
      → J.records s ≡ recs M J K w
      → J.begin s ≡ J.begin w.journal
      → n ≡ J.begin w.journal + length (recs M J K w)
      → Leads M J K A r.work w (recovered M J K A (record w { journal = s }) (n, ok r.work) none)
  unfolding recovered
  done-Leads s n e b q =
      let v : Supervisor E U JS KS X = record w { journal = s; journal_pos = n } in
      let h : At M J K r.work v = record {
        at_end = omega (arith, q, b, ap length e);
        pending = ap (pending_of M) e ∙ r.pending;
        known = r.known;
      } in
      fail_or-Leads M J K A r.work w v _ e refl
        (complete-Settles M J K A r.work v r.left h (omega (arith, room, q)))
        (complete-Resumed M J K A r.work v r.left h (omega (arith, room, q)))
        (complete-Completed M J K A r.work v)

  ranged-Leads :
      (s : JS) (b : ℕ) (visited : List (ℕ × Record E U)) (e : Option Error)
      → J.records s ≡ recs M J K w
      → J.begin s ≡ J.begin w.journal
      → b ≡ J.begin w.journal
      → (e ≡ none → visited ≡ positioned b (recs M J K w))
      → Leads M J K A r.work w
          (recovered M J K A (record w { journal = s }) (replay M b (nothing M J K A) visited) e)
  ranged-Leads s b visited (some x) q c h v = error-Leads s _ x q
  ranged-Leads s b visited none q c h v =
      let all : replay M b (nothing M J K A) visited ≡ (b + length (recs M J K w), ok r.work) =
        ap (replay M b (nothing M J K A)) (v refl)
        ∙ replay-pending_from M b (nothing M J K A) r.work (recs M J K w) (omega (arith, room, h))
            r.pending in
      subst (λ y. Leads M J K A r.work w (recovered M J K A (record w { journal = s }) y none))
        (sym all) (done-Leads s _ q c (omega (arith, h)))

  bounded-Leads :
      (o : Outcome (ℕ × ℕ)) (s : JS)
      → J.records s ≡ recs M J K w
      → J.begin s ≡ J.begin w.journal
      → ((b e : ℕ)
          → o ≡ ok (b, e)
          → (b ≡ J.begin w.journal) × (e ≡ J.begin w.journal + length (recs M J K w)))
      → Leads M J K A r.work w (bounded M J K A w (o, s))
  unfolding bounded
  bounded-Leads (Outcome.err e) s q c h =
      inl (again s w.journal_pos q, unextended s w.journal_pos q)
  bounded-Leads Outcome.panic s q c h = tt
  bounded-Leads (Outcome.ok (b, e)) s q c h =
      let (hb, he) = h b e refl in
      elim (Bool-cases (b == e)) [
        | inl t ↦
            let same : b ≡ e = (==_iff b e).0 t in
            rw t (
              subst
                (λ z.
                  Leads M J K A r.work w
                    (recovered M J K A (record w { journal = s }) (b, ok z) none))
                (empty_pending M J K A (recs M J K w) r.work (omega (arith, same, hb, he))
                  r.pending)
                (done-Leads s b q c (omega (arith, same, he))))
        | inr f ↦ rw f (
            ranged-Leads (J.range b s).1 b (J.range b s).0.0 (J.range b s).0.1
              (J.range-records b s ∙ q) (J.range-begin b s ∙ c) hb
              (subst
                (λ k. (J.range k s).0.1 ≡ none → (J.range k s).0.0 ≡ positioned k (recs M J K w))
                (c ∙ sym hb) (λ z. J.range_ok s z ∙ ap (positioned (J.begin s)) q)))
      ]

  recover-Leads : Leads M J K A r.work w (recover M J K A w)
  unfolding recover
  recover-Leads =
      bounded-Leads (J.bounds w.journal).0 (J.bounds w.journal).1 (J.bounds-records w.journal)
        (J.bounds-begin w.journal) (J.bounds_ok w.journal)

  -- `recover` over a journal with at most one command whose work is left, with room for two records:
  -- unless a call panics, the callback of a range that fails included, it is done. Either the journal
  -- has only more records and again at most one command whose work is left, so that the recovery can
  -- be repeated. Or all of the pending work was done, with the calls of the handler and the recorder
  -- that make it up, and the truncation of the journal was the last call.
  pub recover-Relapses : Relapses M J K A r.work w (recover M J K A w)
  recover-Relapses =
      Leads-Relapses M J K A (Completes M A r.work w.app) r.work w _ recover-Leads
        (recover-Left-Recovers M J K A w r.work r.pending r.left r.known room)

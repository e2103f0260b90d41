-- ===== src/EventStream/Supervisor/Shutdown.antt =====
-- `shutdownState` tells every worker to stop, and ends when all have stopped
-- (internal/eventstream/supervisor.go).
use veracity.Base.{
  ℕ, ◌≤◌, ◌≡◌, refl, sym, ap, subst, ◌∙◌, ◌⊎◌, inl, inr, true, false, List, [], ◌∷◌, ◌++◌, map,
  Option, none, some, length, arith, if◌then◌else◌, Bool-cases, Error, ◌==◌, ==_iff,
}
use veracity.Fsm.{Run, Action, done, blocked, stop}
use veracity.Maps.{Keys, Map, find}
use veracity.EventStream.Supervisor.{Supervisor, State, receive_stopped, wait_all, shutdown_all}
use veracity.EventStream.Supervisor.Picking.{
  length-Picked, Received, nothing_runs, one_stopped, receive-Received,
}
use veracity.EventStream.Supervisor.Tracking.{Tracks, Tracks-Picked}

-- `x` is in the list.
abbrev pub In : {A : Type 0} → A → List A → Type 0
In x [] = ⊥
In x (y ∷ ys) = (y ≡ x) ⊎ In x ys

pub In-append_right : {A : Type 0} (x : A) (xs ys : List A) → In x ys → In x (xs ++ ys)
In-append_right x [] ys h = h
In-append_right x (y ∷ xs) ys h = inr (In-append_right x xs ys h)

In-find :
    {U : Type 0} (Q : Keys U) (k : U) (n : ℕ) (l : List (U × ℕ))
    → find Q.equal k l ≡ some n
    → In n (map (λ (p : U × ℕ). p.1) l)
In-find Q k n [] h = cc
In-find Q k n (p ∷ l) h = elim (Bool-cases (Q.equal p.0 k)) [
  | inl t ↦ inl (cc (h, ap (λ b. if b then some p.1 else find Q.equal k l) t))
  | inr f ↦ inr (In-find Q k n l (sym (ap (λ b. if b then some p.1 else find Q.equal k l) f) ∙ h))
]

no_live : {A : Type 0} (l : List A) → length l ≡ 0 → l ≡ []
no_live [] h = refl
no_live (x ∷ xs) h = absurd (omega (arith, h))

module _ {E U X Ws : Type 0} {Q : Keys U} (W : Map Q ℕ Ws) where
  -- After the goroutines of `w` have all sent their results, with nothing else done.
  pub record Drained (w v : Supervisor E U Ws X) : Type 0 where
    pub none_live : v.live ≡ []
    pub none_mapped : W.len v.workers ≡ 0
    pub tracks : Tracks W v.workers v.live v.started
    pub same_started : v.started ≡ w.started
    pub same_signaled : v.signaled ≡ w.signaled
    pub same_sent : v.sent ≡ w.sent
    pub same_inputs : v.idle_inputs ≡ w.idle_inputs

  -- How a wait for the goroutines of `w` ends.
  abbrev pub Drains : Supervisor E U Ws X → Run (Action (State E U) × Supervisor E U Ws X) → Type 0
  Drains w r = (v : Supervisor E U Ws X) × (r ≡ done (stop, v)) × Drained w v

  all_stopped :
      (w : Supervisor E U Ws X)
      → Tracks W w.workers w.live w.started
      → (W.len w.workers == 0) ≡ true
      → Drains w (done (stop, w))
  all_stopped w t e =
      let z : W.len w.workers ≡ 0 = (==_iff _ 0).0 e in
      (
        w,
        refl,
        record {
          none_live = no_live w.live (sym t.counted ∙ z);
          none_mapped = z;
          tracks = t;
          same_started = refl;
          same_signaled = refl;
          same_sent = refl;
          same_inputs = refl;
        },
      )

  wait_all-Drains :
      (stops : List (ℕ × Option Error)) (w : Supervisor E U Ws X)
      → Tracks W w.workers w.live w.started
      → length w.live ≤ length stops
      → Drains w (wait_all W stops w)
  unfolding wait_all
  wait_all-Drains [] w t h =
      let z : (W.len w.workers == 0) ≡ true = (==_iff _ 0).1 (omega (arith, t.counted, h)) in
      rw z (all_stopped w t z)
  wait_all-Drains ((i, res) ∷ rest) w t h = elim (Bool-cases (W.len w.workers == 0)) [
    | inl z ↦ rw z (all_stopped w t z)
    | inr f ↦ rw f (
        after f (receive_stopped W i w) (receive-Received W w i)
          (λ v s g. wait_all-Drains rest (record v { stops = rest }) s g))
  ]
    where
      after :
          (W.len w.workers == 0) ≡ false
          → (o : Option (Supervisor E U Ws X)) → Received W w o
          → ((v : Supervisor E U Ws X)
              → Tracks W v.workers v.live v.started
              → length v.live ≤ length rest
              → Drains (record v { stops = rest }) (wait_all W rest (record v { stops = rest })))
          → Drains w
              (elim o [ none ↦ blocked | some v ↦ wait_all W rest (record v { stops = rest }) ])
      after f o (nothing_runs e) ih =
          let z : (W.len w.workers == 0) ≡ true = (==_iff _ 0).1 (t.counted ∙ ap length e) in
          cc (z, f)
      after f o (one_stopped x left p) ih =
          let (v, e, d) =
            ih (record w { live = left; workers = W.remove x.0 w.workers }) (Tracks-Picked W p t)
              (omega (arith, h, length-Picked p)) in
          (
            v,
            e,
            record {
              none_live = d.none_live;
              none_mapped = d.none_mapped;
              tracks = d.tracks;
              same_started = d.same_started;
              same_signaled = d.same_signaled;
              same_sent = d.same_sent;
              same_inputs = d.same_inputs;
            },
          )

  -- In a state in which the map has the running workers, and where each of these comes to stop,
  -- `shutdownState` comes to an end: it has told every worker that ran to shut down, has received the
  -- results of all, and has sent nothing else; no goroutine runs and the map is empty.
  pub shutdown_all-Drained :
      (w : Supervisor E U Ws X)
      → Tracks W w.workers w.live w.started
      → length w.live ≤ length w.stops
      → (v : Supervisor E U Ws X) × (shutdown_all W w ≡ done (stop, v))
        × Drained
            (record w { signaled = w.signaled ++ map (λ (p : U × ℕ). p.1) (W.all w.workers) })
            v
        × ((id : U) (n : ℕ) → find Q.equal id w.live ≡ some n → In n v.signaled)
  unfolding shutdown_all
  shutdown_all-Drained w t h =
      let told = record w { signaled = w.signaled ++ map (λ (p : U × ℕ). p.1) (W.all w.workers) } in
      let (v, e, d) = wait_all-Drains w.stops told t h in
      (
        v,
        e,
        d,
        λ id n q. subst (In n) (sym d.same_signaled) (
            In-append_right n w.signaled _
              (In-find Q id n (W.all w.workers) (W.find-all id w.workers ∙ t.tracks id ∙ q))),
      )

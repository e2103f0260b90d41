-- ===== src/Integration/Supervisor/Completing.antt =====
-- The calls behind the completion of the pending operations (internal/integration/supervisor.go,
-- `recover`).
use veracity.Base.{
  ◌≡◌, refl, sym, ap, ◌∙◌, inl, inr, List, [], ◌∷◌, ◌++◌, Option, Outcome, append_assoc, append-nil,
  panic, ℕ, Error, some,
}
use veracity.EventStream.{Messages}
use veracity.Integration.{Record, CommandAccepted, CommandHandled}
use veracity.Integration.Services.{Log, AcceptedSet, App}
use veracity.Integration.Pending.{Pending, replay, chain, each}
use veracity.Integration.Supervisor.{Supervisor, Origin, append_events, handle_command}
use veracity.Integration.Supervisor.Machine.{complete}
use veracity.Integration.Supervisor.Effects.{completion}
use veracity.Integration.Supervisor.Acting.{
  Throws, Delivers, Performs, records_of, Delivered, append_events-Delivered,
}
use veracity.Integration.Supervisor.Handling.{
  Breaks, Stopped, unhandled, undelivered, delivered, Acts, handle_command-Acts,
}

module _ {E U X : Type 0} (M : Messages E U) (A : App E U X) where
  -- The events of the handled commands are delivered, in order.
  abbrev pub DeliversAll : List (CommandHandled E U) → X → X → Type 0
  DeliversAll [] x z = z ≡ x
  DeliversAll (op ∷ ops) x z = (y : X) × Delivers M A op x y × DeliversAll ops y z

  -- The accepted commands are handled and their events delivered, in order.
  abbrev pub PerformsAll : List (CommandAccepted E) → X → X → Type 0
  PerformsAll [] x z = z ≡ x
  PerformsAll (c ∷ cs) x z =
      (y : X) × ((stream : Option U) × (op : CommandHandled E U) × Performs M A c.command stream op
          x y)
      × PerformsAll cs y z

  -- All of the pending work, from the state `x` of the application and the services to `z`.
  abbrev pub Completes : Pending E U → X → X → Type 0
  Completes p x z = (y : X) × DeliversAll p.handled x y × PerformsAll p.accepted y z

module _ {E U X JS KS : Type 0} (M : Messages E U) (J : Log (Record E U) JS) (K : AcceptedSet U KS)
    (A : App E U X) where
  -- A call of `recover` that panics. A range that fails may have visited a record without an operation.
  pub data Crashes : Type 0 where
    of_recorder : (op : CommandHandled E U) (x : X) → Throws M A op x → Crashes
    of_handling : (env : E) (w : Supervisor E U JS KS X) → Breaks M J K A env w → Crashes
    of_bounds : (s : JS) → (J.bounds s).0 ≡ panic → Crashes
    of_range :
        (n : ℕ) (s : JS) (e : Error)
        → (J.range n s).0.1 ≡ some e
        → (replay M n (record { accepted = []; handled = [] }) (J.range n s).0.0).1 ≡ panic
        → Crashes
    of_truncate : (n : ℕ) (s : JS) → (J.truncate n s).0 ≡ panic → Crashes

  -- The journal only gets longer.
  abbrev pub Extends : Supervisor E U JS KS X → Supervisor E U JS KS X → Type 0
  Extends w v = (rs : List (Record E U)) × (records_of M J K A v ≡ records_of M J K A w ++ rs)

  Extends-trans : (a b c : Supervisor E U JS KS X) → Extends a b → Extends b c → Extends a c
  Extends-trans a b c (rs, p) (qs, q) =
      (rs ++ qs, q ∙ ap (λ l. l ++ qs) p ∙ append_assoc (records_of M J K A a) rs qs)

  Extends-refl : (w : Supervisor E U JS KS X) → Extends w w
  Extends-refl w = ([], sym (append-nil (records_of M J K A w)))

  -- What the calls come to: `R` from the application's state before to that after, with success.
  abbrev Comes :
      (X → X → Type 0)
      → Supervisor E U JS KS X
      → Outcome (Unit {0}) × Supervisor E U JS KS X
      → Type 0
  Comes R w (Outcome.ok u, v) = R w.app v.app × Extends w v
  Comes R w (Outcome.err e, v) = Extends w v
  Comes R w (Outcome.panic, v) = Crashes

  Delivered-Comes :
      (op : CommandHandled E U) (w : Supervisor E U JS KS X)
      (x : Outcome (Unit {0}) × Supervisor E U JS KS X)
      → Delivered M J K A op w x
      → Comes (Delivers M A op) w x
  Delivered-Comes op w (Outcome.ok u, v) (d, r) = (d, (_, r))
  Delivered-Comes op w (Outcome.err e, v) (inl r) =
      ([], r ∙ sym (append-nil (records_of M J K A w)))
  Delivered-Comes op w (Outcome.err e, v) (inr (y, s, r)) = (_, r)
  Delivered-Comes op w (Outcome.panic, v) t = of_recorder op w.app t

  stopped-Extends : (env : E) (w v : Supervisor E U JS KS X) → Stopped M J K A env w v → Extends w v
  stopped-Extends env w v (unhandled r) = ([], r ∙ sym (append-nil (records_of M J K A w)))
  stopped-Extends env w v (undelivered op y h r) = (_, r)
  stopped-Extends env w v (delivered op y z h d r) = (_, r)

  Acts-Comes :
      (env : E) (w : Supervisor E U JS KS X) (x : Outcome (Unit {0}) × Supervisor E U JS KS X)
      → Acts M J K A env w x
      → Comes
          (λ a b. (stream : Option U) × (op : CommandHandled E U) × Performs M A env stream op a b)
          w
          x
  Acts-Comes env w (Outcome.ok u, v) (op, p, r) = ((w.event_stream_id, op, p), (completion op, r))
  Acts-Comes env w (Outcome.err e, v) s = stopped-Extends env w v s
  Acts-Comes env w (Outcome.panic, v) t = of_handling env w t

  -- One call after another.
  chain-Comes :
      (R S T : X → X → Type 0) (w : Supervisor E U JS KS X)
      (x : Outcome (Unit {0}) × Supervisor E U JS KS X)
      (k : Supervisor E U JS KS X → Outcome (Unit {0}) × Supervisor E U JS KS X)
      → ((a b c : X) → R a b → S b c → T a c)
      → Comes R w x
      → ((v : Supervisor E U JS KS X) → Comes S v (k v))
      → Comes T w (chain x (λ _ v. k v))
  unfolding chain
  chain-Comes R S T w (Outcome.ok u, v) k f (r, e) g = after (k v) (g v)
    where
      after : (y : Outcome (Unit {0}) × Supervisor E U JS KS X) → Comes S v y → Comes T w y
      after (Outcome.ok t, z) (s, d) = (f _ _ _ r s, Extends-trans w v z e d)
      after (Outcome.err x, z) d = Extends-trans w v z e d
      after (Outcome.panic, z) t = t
  chain-Comes R S T w (Outcome.err x, v) k f e g = e
  chain-Comes R S T w (Outcome.panic, v) k f t g = t

  each-DeliversAll :
      (ops : List (CommandHandled E U)) (w : Supervisor E U JS KS X)
      → Comes (DeliversAll M A ops) w (each (λ op. append_events M J K A Origin.decoded op) ops w)
  unfolding each
  each-DeliversAll [] w = (refl, Extends-refl w)
  each-DeliversAll (op ∷ ops) w =
      chain-Comes (Delivers M A op) (DeliversAll M A ops) (DeliversAll M A (op ∷ ops)) w
        (append_events M J K A Origin.decoded op w)
        (λ v. each (λ o. append_events M J K A Origin.decoded o) ops v) (λ a b c r s. (b, r, s))
        (Delivered-Comes op w _ (append_events-Delivered M J K A Origin.decoded op w))
        (λ v. each-DeliversAll ops v)

  each-PerformsAll :
      (cs : List (CommandAccepted E)) (w : Supervisor E U JS KS X)
      → Comes
          (PerformsAll M A cs)
          w
          (each (λ (c : CommandAccepted E). handle_command M J K A c.command) cs w)
  unfolding each
  each-PerformsAll [] w = (refl, Extends-refl w)
  each-PerformsAll (c ∷ cs) w =
      chain-Comes
        (λ a b.
          (stream : Option U) × (op : CommandHandled E U) × Performs M A c.command stream op a b)
        (PerformsAll M A cs) (PerformsAll M A (c ∷ cs)) w (handle_command M J K A c.command w)
        (λ v. each (λ (o : CommandAccepted E). handle_command M J K A o.command) cs v)
        (λ a b d r s. (b, r, s))
        (Acts-Comes c.command w _ (handle_command-Acts M J K A c.command w))
        (λ v. each-PerformsAll cs v)

  -- The completion of any pending operations.
  abbrev pub Completed :
      Pending E U → Supervisor E U JS KS X → Outcome (Unit {0}) × Supervisor E U JS KS X → Type 0
  Completed p w x = Comes (Completes M A p) w x

  pub complete-Completed :
      (p : Pending E U) (w : Supervisor E U JS KS X) → Completed p w (complete M J K A p w)
  unfolding complete
  complete-Completed p w =
      chain-Comes (DeliversAll M A p.handled) (PerformsAll M A p.accepted) (Completes M A p) w
        (each (λ op. append_events M J K A Origin.decoded op) p.handled w)
        (λ v. each (λ (c : CommandAccepted E). handle_command M J K A c.command) p.accepted v)
        (λ a b c r s. (b, r, s)) (each-DeliversAll p.handled w) (λ v. each-PerformsAll p.accepted v)

-- ===== src/Cluster/Observer/Publishing.antt =====
-- What the subscribers of the observer are told (internal/cluster/registry.go, `RegistryObserver.Run`).
use veracity.Base.{
  ℕ, zero, suc, ◌+◌, ◌*◌, ◌<◌, ◌≤◌, ◌≡◌, refl, sym, ap, subst, ◌∙◌, List, [], ◌∷◌, ◌++◌, Option,
  none, length, Outcome, arith,
}
use veracity.Fsm.{done, enter_state}
use veracity.Fsm.Invariant.{Leaves, Goes, to_stop, to_fail, to_enter, to_block, start-Leaves}
use veracity.Maps.{Keys, Map}
use veracity.Keyspace.{Keyspace}
use veracity.Cluster.Registry.{Node, Registration}
use veracity.Cluster.Observer.{
  MembershipChanged, IdleInput, PublishInput, RegistryObserver, State, idle_state, poll_state,
  publish_state, changes, apply_event, next_state, announce, polled, select_idle, idle, publish,
  select_publish, poll, states, run,
}
use veracity.Cluster.Observer.Changes.{changes-Sound}
use veracity.Cluster.Observer.Membership.{
  lookup, unless, first_of, Keyed, Keyed-apply_event, Sound, get-set_all, get-remove_all,
}
use veracity.Cluster.Observer.Polling.{KeyedResult, load_nodes-Keyed, Alike, load_nodes-Alike}

module _ {U A : Type 0} (Q : Keys U) where
  -- The nodes that a subscriber has after an event, and after a list of events.
  abbrev pub joined : MembershipChanged U A → (U → Option (Node U A)) → U → Option (Node U A)
  joined ev f id =
      unless (lookup Q id ev.deregistered) (first_of (lookup Q id ev.registered) (f id))

  abbrev pub view : (U → Option (Node U A)) → List (MembershipChanged U A) → U → Option (Node U A)
  view f [] = f
  view f (ev ∷ rest) = view (joined ev f) rest

  -- Each event is sound after those before it, and has a node.
  abbrev pub SoundAll : (U → Option (Node U A)) → List (MembershipChanged U A) → Type 0
  SoundAll f [] = Unit
  SoundAll f (ev ∷ rest) =
      Sound Q f ev
      × (0 < length ev.registered + length ev.deregistered)
      × SoundAll (joined ev f) rest

  SoundAll-append :
      (f : U → Option (Node U A)) (l : List (MembershipChanged U A)) (ev : MembershipChanged U A)
      → SoundAll f l
      → Sound Q (view f l) ev
      → 0 < length ev.registered + length ev.deregistered
      → SoundAll f (l ++ ev ∷ [])
  SoundAll-append f [] ev h s p = (s, p, tt)
  SoundAll-append f (e ∷ rest) ev (a, b, h) s p = (a, b, SoundAll-append (joined e f) rest ev h s p)

  view-append :
      (f : U → Option (Node U A)) (l : List (MembershipChanged U A)) (ev : MembershipChanged U A)
      (id : U)
      → view f (l ++ ev ∷ []) id ≡ joined ev (view f l) id
  view-append f [] ev id = refl
  view-append f (e ∷ rest) ev id = view-append (joined e f) rest ev id

  Sound-same :
      (f g : U → Option (Node U A)) (ev : MembershipChanged U A)
      → ((id : U) → f id ≡ g id)
      → Sound Q g ev
      → Sound Q f ev
  Sound-same f g ev h s = record {
    registered_once = s.registered_once;
    deregistered_once = s.deregistered_once;
    registered_new = λ id n e. h id ∙ s.registered_new id n e;
    deregistered_there = λ id n e. h id ∙ s.deregistered_there id n e;
  }

abbrev pub nobody : {U A : Type 0} → U → Option (Node U A)
nobody id = none

module _ {U A S N : Type 0} {Q : Keys U} (M : Map Q (Node U A) N) where
  -- What the subscribers were told is sound, and gives them the nodes that the observer has.
  pub record Told (o : RegistryObserver U A S N) : Type 0 where
    pub sound : SoundAll Q nobody o.events
    pub same : (id : U) → view Q nobody o.events id ≡ M.try_get id o.nodes
    pub keyed : Keyed M o.nodes

  abbrev inputs_left : RegistryObserver U A S N → ℕ
  inputs_left o = length o.idle_inputs + length o.publish_inputs

  -- `n` rounds are enough for the inputs that are left.
  abbrev Inv : ℕ → State U A → RegistryObserver U A S N → Type 0
  Inv n State.idle_state o = (inputs_left o * 2 + 1 ≤ n) × Told o
  Inv n State.poll_state o = (inputs_left o * 2 + 2 ≤ n) × Told o
  Inv n (State.publish_state ev) o =
      (inputs_left o * 2 + 1 ≤ n)
      × Told o
      × Sound Q (λ id. M.try_get id o.nodes) ev
      × (0 < length ev.registered + length ev.deregistered)

  publish-Told :
      (ev : MembershipChanged U A) (o : RegistryObserver U A S N)
      → Told o
      → Sound Q (λ id. M.try_get id o.nodes) ev
      → 0 < length ev.registered + length ev.deregistered
      → Told (publish M ev o)
  unfolding publish
  publish-Told ev o t s p = record {
    sound = SoundAll-append Q nobody o.events ev t.sound (Sound-same Q _ _ ev t.same s) p;
    same = λ id.
        view-append Q nobody o.events ev id
        ∙ ap (λ x. unless (lookup Q id ev.deregistered) (first_of (lookup Q id ev.registered) x))
            (t.same id)
        ∙ sym (
            unfold apply_event in
            get-remove_all M id ev.deregistered _
            ∙ ap (unless (lookup Q id ev.deregistered))
                (get-set_all M id ev.registered o.nodes s.registered_once));
    keyed = Keyed-apply_event M ev o.nodes t.keyed;
  }

  select_idle-Goes :
      (n : ℕ) (l : List IdleInput) (o : RegistryObserver U A S N)
      → o.idle_inputs ≡ l
      → Inv (suc n) idle_state o
      → Goes (Inv n) Told Told idle_state o (select_idle l o)
  unfolding select_idle
  select_idle-Goes n [] o q (le, t) = to_block t
  select_idle-Goes n (IdleInput.canceled e ∷ rest) o q (le, t) =
      to_stop (record { sound = t.sound; same = t.same; keyed = t.keyed })
  select_idle-Goes n (IdleInput.shutdown_signaled ∷ rest) o q (le, t) =
      to_stop (record { sound = t.sound; same = t.same; keyed = t.keyed })
  select_idle-Goes n (IdleInput.ready_for_poll ∷ rest) o q (le, t) =
      to_enter poll_state
        (omega (arith, le, ap length q), record { sound = t.sound; same = t.same; keyed = t.keyed })

  select_publish-Goes :
      (n : ℕ) (ev : MembershipChanged U A) (l : List PublishInput) (o : RegistryObserver U A S N)
      → o.publish_inputs ≡ l
      → Inv (suc n) (publish_state ev) o
      → Goes (Inv n) Told Told (publish_state ev) o (select_publish M ev l o)
  unfolding select_publish
  select_publish-Goes n ev [] o q (le, t, s, p) = to_block t
  select_publish-Goes n ev (PublishInput.canceled e ∷ rest) o q (le, t, s, p) =
      to_stop (record { sound = t.sound; same = t.same; keyed = t.keyed })
  select_publish-Goes n ev (PublishInput.ready_for_poll ∷ rest) o q (le, t, s, p) =
      to_enter poll_state
        (omega (arith, le, ap length q), record { sound = t.sound; same = t.same; keyed = t.keyed })
  select_publish-Goes n ev (PublishInput.published ∷ rest) o q (le, t, s, p) = to_enter idle_state (
    unfold publish in omega (arith, le, ap length q),
    publish-Told ev (record o { publish_inputs = rest })
        (record { sound = t.sound; same = t.same; keyed = t.keyed }) s p,
  )

  announce-Goes :
      (n : ℕ) (ev : MembershipChanged U A) (registered deregistered : List (Node U A))
      (u o : RegistryObserver U A S N)
      → ev.registered ≡ registered
      → ev.deregistered ≡ deregistered
      → inputs_left o * 2 + 1 ≤ n
      → Told o
      → Sound Q (λ id. M.try_get id o.nodes) ev
      → Goes
          (Inv n)
          Told
          Told
          poll_state
          u
          (done (enter_state (next_state registered deregistered ev), o))
  unfolding next_state
  announce-Goes n ev [] [] u o a b le t s = to_enter idle_state (le, t)
  announce-Goes n ev [] (node ∷ rest) u o a b le t s =
      to_enter (publish_state ev) (le, t, s, omega (arith, ap length b))
  announce-Goes n ev (node ∷ rest) d u o a b le t s =
      to_enter (publish_state ev) (le, t, s, omega (arith, ap length a))

  Told-Alike :
      (o o' : RegistryObserver U A S N)
      → o'.nodes ≡ o.nodes
      → o'.events ≡ o.events
      → Told o
      → Told o'
  Told-Alike o o' a b t = record {
    sound = subst (SoundAll Q nobody) (sym b) t.sound;
    same = λ id. ap (λ l. view Q nobody l id) b ∙ t.same id ∙ ap (M.try_get id) (sym a);
    keyed = subst (Keyed M) (sym a) t.keyed;
  }

module _ {U A S N : Type 0} {Q : Keys U} (D : Keyspace Q (Registration U A) S)
    (M : Map Q (Node U A) N) where
  polled-Goes :
      (n : ℕ) (u : RegistryObserver U A S N) (p : Outcome N × RegistryObserver U A S N)
      → Inv M (suc n) poll_state u
      → KeyedResult D M p
      → Alike D M u p.1
      → Goes (Inv M n) (Told M) (Told M) poll_state u (polled M p)
  unfolding polled announce
  polled-Goes n u (Outcome.err e, o) (le, t) k a = to_fail e (Told-Alike M u o a.nodes a.events t)
  polled-Goes n u (Outcome.panic, o) (le, t) k a = absurd k
  polled-Goes n u (Outcome.ok nodes, o) (le, t) k a =
      announce-Goes M n (changes M o.nodes nodes) _ _ u o refl refl
        (omega (arith, le, ap length a.idle_inputs, ap length a.publish_inputs))
        (Told-Alike M u o a.nodes a.events t)
        (changes-Sound M o.nodes nodes (subst (Keyed M) (sym a.nodes) t.keyed) k)

  states-Goes :
      (n : ℕ) (st : State U A) (o : RegistryObserver U A S N)
      → Inv M (suc n) st o
      → Goes (Inv M n) (Told M) (Told M) st o (states D M st o)
  unfolding states
  states-Goes n State.idle_state o i = unfold idle in select_idle-Goes M n o.idle_inputs o refl i
  states-Goes n State.poll_state o i =
      unfold poll in polled-Goes n o _ i (load_nodes-Keyed D M o) (load_nodes-Alike D M o)
  states-Goes n (State.publish_state ev) o i = select_publish-Goes M n ev o.publish_inputs o refl i

  no_rounds : (st : State U A) (o : RegistryObserver U A S N) → Inv M zero st o → ⊥
  no_rounds State.idle_state o i = absurd (omega (arith, i.0))
  no_rounds State.poll_state o i = absurd (omega (arith, i.0))
  no_rounds (State.publish_state ev) o i = absurd (omega (arith, i.0))

  -- An observer that is started without nodes, over a keyspace and a map that meet their interfaces,
  -- with two rounds for each input and two more: `Run` comes to an exit without a panic. Each event
  -- that was received then has a node, has no id twice, registers only nodes that the events before it
  -- had left absent, and deregisters only those that they had left present; and the nodes that a
  -- subscriber computes from all the events are those that the observer has.
  pub run-Told :
      (o : RegistryObserver U A S N) (fuel : ℕ)
      → o.nodes ≡ M.empty
      → o.events ≡ []
      → (length o.idle_inputs + length o.publish_inputs) * 2 + 2 ≤ fuel
      → Leaves (Told M) (Told M) (λ _. ⊥) (run D M fuel o)
  unfolding run
  run-Told o fuel e v f =
      start-Leaves (states D M) _ (Inv M) (Told M) (Told M) (λ _. ⊥) no_rounds states-Goes fuel
        poll_state o
        (
          f,
          record {
            sound = subst (SoundAll Q nobody) (sym v) tt;
            same = λ id.
                ap (λ l. view Q nobody l id) v ∙ sym (M.get-empty id) ∙ ap (M.try_get id) (sym e);
            keyed = subst (Keyed M) (sym e) (λ id n x. let q = M.get-empty id in cc (x, q));
          },
        )

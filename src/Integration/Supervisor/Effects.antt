-- ===== src/Integration/Supervisor/Effects.antt =====
-- What a journal says of a command: complete, kept, or nothing left to do
-- (internal/integration/supervisor.go).
use veracity.Base.{
  ◌≡◌, refl, sym, ap, ◌∙◌, ◌⊎◌, inl, inr, true, false, List, [], ◌∷◌, ◌++◌, length, All, arith,
  Outcome, ok, if◌then◌else◌, ◌==◌,
}
use veracity.EventStream.{Messages}
use veracity.Integration.{Record, CommandAccepted, CommandHandled}
use veracity.Integration.RecordBuilder
use veracity.Integration.Services.{Log, AcceptedSet}
use veracity.Integration.Supervisor.{Supervisor}
use veracity.Integration.Pending.{
  Pending, delete_first, replay_record, accepted_record, handled_record, appended_record,
}
use veracity.Integration.Supervisor.Progress.{
  delete_first_last, pending_of, recs, Same, At, Appends,
}

module _ {E U : Type 0} where
  -- The records of a command that was handled: its events, if any, are appended to a stream.
  abbrev pub completion : CommandHandled E U → List (Record E U)
  completion op =
      handled_record op ∷ (if length op.events == 0 then [] else appended_record op.command_id ∷ [])

  abbrev pub Silent : List (CommandHandled E U) → Type 0
  Silent hs = All (λ (h : CommandHandled E U). h.events ≡ []) hs

pub no_length : {A : Type 0} (xs : List A) → (length xs == 0) ≡ true → xs ≡ []
no_length [] e = refl
no_length (x ∷ xs) e = ground arith

module _ {E U : Type 0} (M : Messages E U) where
  pub replay_appended :
      (op : CommandHandled E U) (hs : List (CommandHandled E U))
      → All (λ (h : CommandHandled E U). M.equal h.command_id op.command_id ≡ false) hs
      → replay_record M
          (appended_record op.command_id)
          (record { accepted = []; handled = hs ++ op ∷ [] })
        ≡ ok (record { accepted = []; handled = hs })
  unfolding replay_record RecordBuilder.must_switch appended_record
  replay_appended op hs f =
      ap (λ l. ok (record { accepted = []; handled = l }))
        (delete_first_last (λ (x : CommandHandled E U). M.equal x.command_id op.command_id) hs op f
          ((M.equal_iff op.command_id op.command_id).1 refl))

  pub replay_accepted :
      (env : E) (hs : List (CommandHandled E U))
      → replay_record M (accepted_record env) (record { accepted = []; handled = hs })
        ≡ ok (record { accepted = record { command = env } ∷ []; handled = hs })
  unfolding replay_record RecordBuilder.must_switch accepted_record
  replay_accepted env hs = refl

  pub replay_handled :
      (env : E) (op : CommandHandled E U) (hs : List (CommandHandled E U))
      → op.command_id ≡ M.message_id env
      → replay_record M
          (handled_record op)
          (record { accepted = record { command = env } ∷ []; handled = hs })
        ≡ ok (record { accepted = []; handled = hs ++ op ∷ [] })
  unfolding replay_record RecordBuilder.must_switch handled_record delete_first
  replay_handled env op hs e =
      let t : M.equal (M.message_id env) op.command_id ≡ true = (M.equal_iff _ _).1 (sym e) in
      rw t refl

module _ {E U X JS KS : Type 0} (M : Messages E U) (J : Log (Record E U) JS)
    (K : AcceptedSet U KS) where
  -- Nothing is pending but commands that were handled without an event.
  pub record Settled (w : Supervisor E U JS KS X) : Type 0 where
    pub handled : List (CommandHandled E U)
    pub at : At M J K (record { accepted = []; handled = handled }) w
    pub silent : Silent handled

  -- The journal has the command as accepted, or as handled with its events to append, or as complete.
  abbrev pub Kept : U → Supervisor E U JS KS X → Type 0
  Kept id w =
      ((p : Pending E U) × (pending_of M (recs M J K w) ≡ ok p)
        × (((c : CommandAccepted E) × (p.accepted ≡ c ∷ []) × (M.message_id c.command ≡ id))
            ⊎ ((hs : List (CommandHandled E U)) × (op : CommandHandled E U) × (p.handled
                  ≡ hs ++ op ∷ [])
                × (op.command_id ≡ id))))
      ⊎ ((rs : List (Record E U)) × (recs M J K w ≡ rs ++ appended_record id ∷ []))

  abbrev pub Keeps : Supervisor E U JS KS X → Supervisor E U JS KS X → Type 0
  Keeps w v =
      (v.answers ≡ w.answers)
      × ((u : U)
          → K.contains w.accepted_commands u ≡ true
          → K.contains v.accepted_commands u ≡ true)

  -- `appendEvents` from a state in which `op` is the last that the journal has as handled.
  abbrev pub Finishes :
      CommandHandled E U
      → Supervisor E U JS KS X
      → Outcome (Unit {0}) × Supervisor E U JS KS X
      → Type 0
  Finishes op w (Outcome.ok _, v) =
      Settled v
      × (recs M J K v
          ≡ recs M J K w
            ++ (if length op.events == 0 then [] else appended_record op.command_id ∷ []))
      × Keeps w v
  Finishes op w (Outcome.err e, v) = Kept op.command_id v × (v.answers ≡ w.answers)
  Finishes op w (Outcome.panic, v) = Unit

  pub appended-Finishes :
      (op : CommandHandled E U) (hs : List (CommandHandled E U)) (w v : Supervisor E U JS KS X)
      (x : Outcome (Unit {0}) × Supervisor E U JS KS X)
      → Silent hs
      → (length op.events == 0) ≡ false
      → At M J K (record { accepted = []; handled = hs ++ op ∷ [] }) v
      → Same M J K w v
      → Appends M J K
          (appended_record op.command_id)
          (record { accepted = []; handled = hs ++ op ∷ [] })
          (record { accepted = []; handled = hs })
          v
          x
      → Finishes op w x
  appended-Finishes op hs w v (Outcome.ok _, u) s n h m (a, r, p, ans, set) = (
    record { handled = hs; at = a; silent = s },
    rw n (r ∙ ap (λ j. J.records j ++ appended_record op.command_id ∷ []) m.journal_same),
    (ans ∙ m.answers_same, λ i c. ap (λ k. K.contains k i) set ∙ m.set_keeps i c),
  )
  appended-Finishes op hs w v (Outcome.err e, u) s n h m (inl r, ans) = (
    inl (
      record { accepted = []; handled = hs ++ op ∷ [] },
      ap (pending_of M) r ∙ h.pending,
      inr (hs, op, refl, refl),
    ),
    ans ∙ m.answers_same,
  )
  appended-Finishes op hs w v (Outcome.err e, u) s n h m (inr r, ans) =
      (inr (recs M J K v, r), ans ∙ m.answers_same)
  appended-Finishes op hs w v (Outcome.panic, u) s n h m a = tt

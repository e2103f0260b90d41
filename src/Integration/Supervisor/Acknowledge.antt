-- ===== src/Integration/Supervisor/Acknowledge.antt =====
-- `acceptCommand` of internal/integration/supervisor.go, on every branch.
use veracity.Base.{
  ◌≡◌, refl, sym, ap, ◌∙◌, ◌⊎◌, inl, inr, true, false, List, [], ◌∷◌, ◌++◌, All, Error, panic,
  Bool-cases,
}
use veracity.Fsm.{Run, Action, done, panicked, fail, enter_state}
use veracity.EventStream.{Messages}
use veracity.Integration.{Record, CommandHandled}
use veracity.Integration.Services.{Log, AcceptedSet, App}
use veracity.Integration.Supervisor.{Request, ack, nack, Supervisor, State, idle_state}
use veracity.Integration.Pending.{accepted_record}
use veracity.Integration.Supervisor.Progress.{recs, Same}
use veracity.Integration.Supervisor.Effects.{completion, Settled, Kept}
use veracity.Integration.Supervisor.Acting.{Performs}
use veracity.Integration.Supervisor.Handling.{Stopped, Breaks}
use veracity.Integration.Supervisor.Accept.{Fresh}

module _ {E U X JS KS : Type 0} (M : Messages E U) (J : Log (Record E U) JS) (K : AcceptedSet U KS)
    (A : App E U X) where
  -- What `acceptCommand` may do with a request.
  pub data Accepts (req : Request E) (w : Supervisor E U JS KS X)
      : Run (Action (State E) × Supervisor E U JS KS X) → Type 0 where
    -- The handler was called with the command and its events were delivered, the command is in the
    -- set, and the journal has the records of that.
    handled :
        {v : Supervisor E U JS KS X} (op : CommandHandled E U)
        → Settled M J K v
        → Performs M A req.value w.event_stream_id op w.app v.app
        → recs M J K v ≡ recs M J K w ++ accepted_record req.value ∷ completion op
        → K.contains v.accepted_commands (M.message_id req.value) ≡ true
        → v.answers ≡ w.answers ++ ack req.acknowledgement ∷ []
        → Accepts req w (done (enter_state idle_state, v))
    -- It was in the set before: the journal and the application were left alone.
    duplicate :
        {v : Supervisor E U JS KS X}
        → Settled M J K v
        → K.contains w.accepted_commands (M.message_id req.value) ≡ true
        → v.journal ≡ w.journal
        → v.app ≡ w.app
        → v.answers ≡ w.answers ++ ack req.acknowledgement ∷ []
        → Accepts req w (done (enter_state idle_state, v))
    -- It was not accepted, as far as the supervisor can tell, and the application was left alone.
    rejected :
        {v : Supervisor E U JS KS X} (e : Error)
        → (recs M J K v ≡ recs M J K w)
          ⊎ (recs M J K v ≡ recs M J K w ++ accepted_record req.value ∷ [])
        → v.app ≡ w.app
        → v.answers ≡ w.answers ++ nack req.acknowledgement ∷ []
        → Accepts req w (done (fail e, v))
    -- It was accepted, which is the state `u`, and a later call failed: the journal still has the
    -- work that is left, and each record after that of the accepted command has its call behind it.
    interrupted :
        {v : Supervisor E U JS KS X} (e : Error) (u : Supervisor E U JS KS X)
        → recs M J K u ≡ recs M J K w ++ accepted_record req.value ∷ []
        → u.app ≡ w.app
        → u.event_stream_id ≡ w.event_stream_id
        → Stopped M J K A req.value u v
        → Kept M J K (M.message_id req.value) v
        → v.answers ≡ w.answers ++ ack req.acknowledgement ∷ []
        → Accepts req w (done (fail e, v))
    -- A call panics: of the set before the acknowledgement, or one of the handling after it.
    crashed :
        ((K.has (M.message_id req.value) w.accepted_commands).0 ≡ panic)
          ⊎ ((u : Supervisor E U JS KS X) × (recs M J K u
                ≡ recs M J K w ++ accepted_record req.value ∷ [])
              × (u.app ≡ w.app)
              × (u.event_stream_id ≡ w.event_stream_id)
              × Breaks M J K A req.value u)
        → Accepts req w panicked

  -- What is not in the set is not in the journal either.
  pub absent-Fresh :
      (s : KS) (id : U) (hs : List (CommandHandled E U))
      → K.contains s id ≡ false
      → All (λ (h : CommandHandled E U). K.contains s h.command_id ≡ true) hs
      → Fresh M J K A hs id
  absent-Fresh s id [] n k = tt
  absent-Fresh s id (h ∷ hs) n k = (
    elim (Bool-cases (M.equal h.command_id id)) [
      | inl t ↦
          let e : h.command_id ≡ id = (M.equal_iff _ _).0 t in
          let c : K.contains s id ≡ true = ap (K.contains s) (sym e) ∙ k.0 in cc (n, c)
      | inr f ↦ f
    ],
    absent-Fresh s id hs n k.1,
  )

  pub has-Same :
      (id : U) (w : Supervisor E U JS KS X)
      → Same M J K w (record w { accepted_commands = (K.has id w.accepted_commands).1 })
  has-Same id w = record {
    journal_same = refl;
    pos_same = refl;
    answers_same = refl;
    set_keeps = λ u c. K.has_keeps id u w.accepted_commands ∙ c;
  }

  -- A request for a command that is in the set.
  abbrev pub Ignores :
      Request E → Supervisor E U JS KS X → Run (Action (State E) × Supervisor E U JS KS X) → Type 0
  Ignores req w (Run.done (act, v)) =
      (v.journal ≡ w.journal)
      × (v.app ≡ w.app)
      × (((act ≡ enter_state idle_state) × (v.answers ≡ w.answers ++ ack req.acknowledgement ∷ []))
          ⊎ ((e : Error) × (act ≡ fail e)
              × (v.answers ≡ w.answers ++ nack req.acknowledgement ∷ [])))
  Ignores req w Run.blocked = ⊥
  Ignores req w Run.panicked = (K.has (M.message_id req.value) w.accepted_commands).0 ≡ panic

-- ===== src/Integration/Supervisor/Calls.antt =====
-- What the calls of `handleCommand` and `appendEvents` do to the pending work
-- (internal/integration/supervisor.go).
use veracity.Base.{
  ℕ, ◌+◌, ◌<◌, ◌≡◌, refl, sym, ap, ◌∙◌, inl, inr, false, List, [], ◌∷◌, ◌++◌, Option, none, some,
  max_u64, length, All, All-append, All-append_left, arith, Error, Outcome, Bool-cases, ◌==◌,
  append-nil,
}
use veracity.EventStream.{Messages, AppendResponse}
use veracity.Integration.{Record, CommandHandled}
use veracity.Integration.Services.{Log, AcceptedSet, App}
use veracity.Integration.Supervisor.{
  Supervisor, Origin, took_response, append_events, called_handler, call_handler, selected,
  select_from, select_stream, handled_op,
}
use veracity.Integration.Pending.{appended_record}
use veracity.Integration.Supervisor.Progress.{
  chain_by, recs, Same, At, append_record-Appends, At-Same,
}
use veracity.Integration.Supervisor.Effects.{
  no_length, completion, Silent, replay_appended, Settled, Kept, Keeps, Finishes, appended-Finishes,
}

module _ {E U X JS KS : Type 0} (M : Messages E U) (J : Log (Record E U) JS) (K : AcceptedSet U KS)
    (A : App E U X) where
  pub took_response-Same :
      (from : Origin) (op : CommandHandled E U) (w : Supervisor E U JS KS X)
      (x : Outcome AppendResponse × X)
      → Same M J K w (took_response M J K A from op w x).1
  unfolding took_response
  took_response-Same from op w (Outcome.ok res, x) = record {
    journal_same = refl;
    pos_same = refl;
    answers_same = refl;
    set_keeps = λ u c. c;
  }
  took_response-Same from op w (Outcome.err e, x) = record {
    journal_same = refl;
    pos_same = refl;
    answers_same = refl;
    set_keeps = λ u c. c;
  }
  took_response-Same from op w (Outcome.panic, x) = record {
    journal_same = refl;
    pos_same = refl;
    answers_same = refl;
    set_keeps = λ u c. c;
  }

  pub append_events-Finishes :
      (from : Origin) (op : CommandHandled E U) (hs : List (CommandHandled E U))
      (w : Supervisor E U JS KS X)
      → Silent hs
      → All (λ (h : CommandHandled E U). M.equal h.command_id op.command_id ≡ false) hs
      → At M J K (record { accepted = []; handled = hs ++ op ∷ [] }) w
      → w.journal_pos + 1 < max_u64
      → Finishes M J K op w (append_events M J K A from op w)
  unfolding append_events
  append_events-Finishes from op hs w s f h room = elim (Bool-cases (length op.events == 0)) [
    | inl none_of ↦ rw none_of (
      record {
        handled = hs ++ op ∷ [];
        at = h;
        silent =
            All-append (λ (h : CommandHandled E U). h.events ≡ []) hs (op ∷ []) s
              (no_length op.events none_of, tt);
      },
      rw none_of (sym (append-nil (recs M J K w))),
      (refl, λ i c. c),
    )
    | inr some_of ↦ rw some_of (
        chain_by (Finishes M J K op w) (λ x. Same M J K w x.1) _ _ (took_response-Same from op w _)
          (λ _ v m. appended-Finishes M J K op hs w v _ s some_of (At-Same M J K _ w v h m) m (
            append_record-Appends M J K (appended_record op.command_id) _
              (record { accepted = []; handled = hs }) v (At-Same M J K _ w v h m)
              (omega (arith, m.pos_same)) (replay_appended M op hs f)
              (All-append_left _ hs (op ∷ []) (At-Same M J K _ w v h m).known)))
          (λ e v m. (
            inl (
              record { accepted = []; handled = hs ++ op ∷ [] },
              (At-Same M J K _ w v h m).pending,
              inr (hs, op, refl, refl),
            ),
            m.answers_same,
          ))
          (λ v m. tt))
  ]

  called_handler-Same :
      (env : E) (w : Supervisor E U JS KS X) (x : (List A.Event × Outcome (Unit {0})) × X)
      → Same M J K w (called_handler M J K A env w x).1
  unfolding called_handler
  called_handler-Same env w ((es, r), x) = record {
    journal_same = refl;
    pos_same = refl;
    answers_same = refl;
    set_keeps = λ u c. c;
  }

  pub call_handler-Same :
      (env : E) (cmd : Option A.Command) (w : Supervisor E U JS KS X)
      → Same M J K w (call_handler M J K A env cmd w).1
  unfolding call_handler
  call_handler-Same env none w = record {
    journal_same = refl;
    pos_same = refl;
    answers_same = refl;
    set_keeps = λ u c. c;
  }
  call_handler-Same env (some cmd) w = called_handler-Same env w (A.handle_command cmd w.app)

  selected-Same :
      (w : Supervisor E U JS KS X) (x : ((Option U × ℕ) × Option Error) × X)
      → Same M J K w (selected M J K A w x).1
  unfolding selected
  selected-Same w (((id, off), e), x) = record {
    journal_same = refl;
    pos_same = refl;
    answers_same = refl;
    set_keeps = λ u c. c;
  }

  select_from-Same :
      (o : Option U) (w : Supervisor E U JS KS X) → Same M J K w (select_from M J K A o w).1
  unfolding select_from
  select_from-Same none w = selected-Same w (A.select_event_stream w.app)
  select_from-Same (some id) w = record {
    journal_same = refl;
    pos_same = refl;
    answers_same = refl;
    set_keeps = λ u c. c;
  }

  pub select_stream-Same :
      (es : List E) (w : Supervisor E U JS KS X) → Same M J K w (select_stream M J K A es w).1
  unfolding select_stream
  select_stream-Same [] w = record {
    journal_same = refl;
    pos_same = refl;
    answers_same = refl;
    set_keeps = λ u c. c;
  }
  select_stream-Same (e ∷ es) w = select_from-Same w.event_stream_id w

  pub handled_op-id :
      (env : E) (es : List E) (w : Supervisor E U JS KS X)
      → (handled_op M J K A env es w).command_id ≡ M.message_id env
  handled_op-id env [] w = refl
  handled_op-id env (e ∷ es) w = refl

  -- `handleCommand` of the command that the journal has as accepted: it is complete, or still kept.
  abbrev pub Handles :
      E → Supervisor E U JS KS X → Outcome (Unit {0}) × Supervisor E U JS KS X → Type 0
  Handles env w (Outcome.ok _, v) =
      Settled M J K v
      × ((op : CommandHandled E U) × (op.command_id ≡ M.message_id env)
          × (recs M J K v ≡ recs M J K w ++ completion op))
      × Keeps M J K w v
  Handles env w (Outcome.err e, v) = Kept M J K (M.message_id env) v × (v.answers ≡ w.answers)
  Handles env w (Outcome.panic, v) = Unit

  pub Handles-Same :
      (env : E) (w v : Supervisor E U JS KS X) (x : Outcome (Unit {0}) × Supervisor E U JS KS X)
      → Same M J K w v
      → Handles env v x
      → Handles env w x
  Handles-Same env w v (Outcome.ok _, u) m (s, (op, i, r), (a, k)) = (
    s,
    (op, i, r ∙ ap (λ j. J.records j ++ completion op) m.journal_same),
    (a ∙ m.answers_same, λ u c. k u (m.set_keeps u c)),
  )
  Handles-Same env w v (Outcome.err e, u) m (k, a) = (k, a ∙ m.answers_same)
  Handles-Same env w v (Outcome.panic, u) m h = tt

  pub Same-Same :
      (w v u : Supervisor E U JS KS X) → Same M J K w v → Same M J K v u → Same M J K w u
  Same-Same w v u m n = record {
    journal_same = n.journal_same ∙ m.journal_same;
    pos_same = n.pos_same ∙ m.pos_same;
    answers_same = n.answers_same ∙ m.answers_same;
    set_keeps = λ i c. n.set_keeps i (m.set_keeps i c);
  }

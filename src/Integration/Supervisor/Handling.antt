-- ===== src/Integration/Supervisor/Handling.antt =====
-- What a handling of a command does, or has done when it fails (internal/integration/supervisor.go,
-- `handleCommand`).
use veracity.Base.{
  ◌≡◌, refl, sym, ap, ◌∙◌, subst, inl, inr, List, [], ◌∷◌, ◌++◌, length, Outcome, if◌then◌else◌,
  ◌==◌, append_assoc, panic,
}
use veracity.EventStream.{Messages}
use veracity.Integration.{Record, CommandHandled}
use veracity.Integration.Services.{Log, AcceptedSet, App}
use veracity.Integration.Pending.{chain, handled_record, appended_record}
use veracity.Integration.Supervisor.{
  Supervisor, Origin, append_record, set_add, append_events, call_handler, select_stream,
  handled_op, finish_command, handle_command,
}
use veracity.Integration.Supervisor.Effects.{completion}
use veracity.Integration.Supervisor.Acting.{
  Made, Chosen, IsHandled, Sends, Performs, records_of, Writes, append_record-Writes, Delivered,
  append_events-Delivered, Dies, Throws, Called, call_handler-Called, Selects,
  select_stream-Selects,
}

module _ {E U X JS KS : Type 0} (M : Messages E U) (J : Log (Record E U) JS) (K : AcceptedSet U KS)
    (A : App E U X) where
  -- Where a handling that failed has stopped.
  pub data Stopped (env : E) (w v : Supervisor E U JS KS X) : Type 0 where
    unhandled : records_of M J K A v ≡ records_of M J K A w → Stopped env w v
    undelivered :
        (op : CommandHandled E U) (y : X)
        → IsHandled M A env w.event_stream_id w.app op y
        → records_of M J K A v ≡ records_of M J K A w ++ handled_record op ∷ []
        → Stopped env w v
    delivered :
        (op : CommandHandled E U) (y z : X)
        → IsHandled M A env w.event_stream_id w.app op y
        → Sends M A op y z
        → records_of M J K A v
          ≡ records_of M J K A w ++ handled_record op ∷ appended_record op.command_id ∷ []
        → Stopped env w v

  -- A handling that panics has a call that does.
  pub data Breaks (env : E) (w : Supervisor E U JS KS X) : Type 0 where
    set_panics : (s : KS) → (K.add (M.message_id env) s).0 ≡ panic → Breaks env w
    envelope_panics : A.unpack env ≡ panic → Breaks env w
    call_panics : Dies M A env w.app → Breaks env w
    recorder_panics :
        (op : CommandHandled E U) (y : X)
        → IsHandled M A env w.event_stream_id w.app op y
        → Throws M A op y
        → Breaks env w

  -- A handling of the command: with success, the handler was called and the events that it recorded were
  -- delivered, and the records are those of that operation; with a failure, each record that was written
  -- has its call behind it; a panic is one of a call.
  abbrev pub Acts :
      E → Supervisor E U JS KS X → Outcome (Unit {0}) × Supervisor E U JS KS X → Type 0
  Acts env w (Outcome.ok u, v) =
      (op : CommandHandled E U) × Performs M A env w.event_stream_id op w.app v.app
      × (records_of M J K A v ≡ records_of M J K A w ++ completion op)
  Acts env w (Outcome.err e, v) = Stopped env w v
  Acts env w (Outcome.panic, v) = Breaks env w

  -- After the record of the handled command.
  Delivered-Acts :
      (env : E) (op : CommandHandled E U) (w u : Supervisor E U JS KS X)
      (x : Outcome (Unit {0}) × Supervisor E U JS KS X)
      → IsHandled M A env w.event_stream_id w.app op u.app
      → records_of M J K A u ≡ records_of M J K A w ++ handled_record op ∷ []
      → Delivered M J K A op u x
      → Acts env w x
  Delivered-Acts env op w u (Outcome.ok t, v) h r (d, q) = (
    op,
    record { y = u.app; handled = h; delivers = d },
    q ∙ ap (λ l. l ++ tail) r ∙ append_assoc (records_of M J K A w) (handled_record op ∷ []) tail,
  )
    where
      tail : List (Record E U)
      tail = if length op.events == 0 then [] else appended_record op.command_id ∷ []
  Delivered-Acts env op w u (Outcome.err e, v) h r (inl q) = undelivered op u.app h (q ∙ r)
  Delivered-Acts env op w u (Outcome.err e, v) h r (inr (y, s, q)) = delivered op u.app y h s (
      q
      ∙ ap (λ l. l ++ appended_record op.command_id ∷ []) r
      ∙ append_assoc (records_of M J K A w) (handled_record op ∷ [])
          (appended_record op.command_id ∷ []))
  Delivered-Acts env op w u (Outcome.panic, v) h r t = recorder_panics op u.app h t

  written-Acts :
      (env : E) (op : CommandHandled E U) (w v : Supervisor E U JS KS X)
      (x : Outcome (Unit {0}) × Supervisor E U JS KS X)
      → IsHandled M A env w.event_stream_id w.app op v.app
      → records_of M J K A v ≡ records_of M J K A w
      → Writes M J K A (handled_record op) v x
      → Acts env w (chain x (λ _ u. append_events M J K A Origin.made op u))
  unfolding chain
  written-Acts env op w v (Outcome.ok t, u) h r (q, a, i) =
      Delivered-Acts env op w u _ (subst (IsHandled M A env w.event_stream_id w.app op) (sym a) h)
        (q ∙ ap (λ l. l ++ handled_record op ∷ []) r)
        (append_events-Delivered M J K A Origin.made op u)
  written-Acts env op w v (Outcome.err e, u) h r (inl q, _) = unhandled (q ∙ r)
  written-Acts env op w v (Outcome.err e, u) h r (inr q, _) =
      undelivered op v.app h (q ∙ ap (λ l. l ++ handled_record op ∷ []) r)
  written-Acts env op w v (Outcome.panic, u) h r t = absurd t

  op_events :
      (env : E) (events : List E) (w : Supervisor E U JS KS X)
      → (handled_op M J K A env events w).events ≡ events
  op_events env [] w = refl
  op_events env (e ∷ es) w = refl

  op_command :
      (env : E) (events : List E) (w : Supervisor E U JS KS X)
      → (handled_op M J K A env events w).command_id ≡ M.message_id env
  op_command env [] w = refl
  op_command env (e ∷ es) w = refl

  selected-Acts :
      (env : E) (events : List E) (w u : Supervisor E U JS KS X)
      (x : Outcome (Unit {0}) × Supervisor E U JS KS X)
      → Made M A env w.app events u.app
      → u.journal ≡ w.journal
      → u.event_stream_id ≡ w.event_stream_id
      → Selects M J K A events env u x
      → Acts env w (
          chain x (λ _ v.
            chain
              (append_record J (handled_record (handled_op M J K A env events v)) v)
              (λ _ z. append_events M J K A Origin.made (handled_op M J K A env events v) z)))
  unfolding chain
  selected-Acts env events w u (Outcome.ok t, v) m j s (c, k) =
      let op = handled_op M J K A env events v in
      let q = op_events env events v in
      written-Acts env op w v (append_record J (handled_record op) v)
        (record {
          of_command = op_command env events v;
          middle = u.app;
          made = subst (λ l. Made M A env w.app l u.app) (sym q) m;
          chosen =
              subst (λ l. Chosen M A w.event_stream_id u.app l op.event_stream_id v.app) (sym q)
                (subst (λ i. Chosen M A i u.app events op.event_stream_id v.app) s c);
        })
        (ap J.records (k ∙ j)) (append_record-Writes M J K A (handled_record op) v)
  selected-Acts env events w u (Outcome.err e, v) m j s k = unhandled (ap J.records (k ∙ j))
  selected-Acts env events w u (Outcome.panic, v) m j s t = absurd t

  Called-Acts :
      (env : E) (w : Supervisor E U JS KS X) (x : Outcome (List E) × Supervisor E U JS KS X)
      → Called M J K A env w x
      → Acts env w (chain x (λ events u. finish_command M J K A env events u))
  unfolding chain finish_command
  Called-Acts env w (Outcome.ok events, u) (m, j, s) =
      selected-Acts env events w u (select_stream M J K A events u) m j s
        (select_stream-Selects M J K A events env u)
  Called-Acts env w (Outcome.err e, u) j = unhandled (ap J.records j)
  Called-Acts env w (Outcome.panic, u) t = call_panics t

  unpacked-Acts :
      (env : E) (w : Supervisor E U JS KS X) (o : Outcome A.Message)
      → A.unpack env ≡ o
      → Acts env w (
          chain
            (o, w)
            (λ msg v.
              chain
                (call_handler M J K A env (A.as_command msg) v)
                (λ events u. finish_command M J K A env events u)))
  unpacked-Acts env w (Outcome.ok msg) e =
      unfold chain in
      Called-Acts env w (call_handler M J K A env (A.as_command msg) w)
        (call_handler-Called M J K A env msg (A.as_command msg) w e refl)
  unpacked-Acts env w (Outcome.err x) e = unfold chain in unhandled refl
  unpacked-Acts env w Outcome.panic e = unfold chain in envelope_panics e

  set-Stopped :
      (env : E) (w v : Supervisor E U JS KS X) (s : KS)
      → Stopped env (record w { accepted_commands = s }) v
      → Stopped env w v
  set-Stopped env w v s (unhandled q) = unhandled q
  set-Stopped env w v s (undelivered op y h q) = undelivered op y h q
  set-Stopped env w v s (delivered op y z h d q) = delivered op y z h d q

  set-Breaks :
      (env : E) (w : Supervisor E U JS KS X) (s : KS)
      → Breaks env (record w { accepted_commands = s })
      → Breaks env w
  set-Breaks env w s (set_panics t q) = set_panics t q
  set-Breaks env w s (envelope_panics q) = envelope_panics q
  set-Breaks env w s (call_panics d) = call_panics d
  set-Breaks env w s (recorder_panics op y h q) = recorder_panics op y h q

  set-Acts :
      (env : E) (w : Supervisor E U JS KS X) (s : KS)
      (x : Outcome (Unit {0}) × Supervisor E U JS KS X)
      → Acts env (record w { accepted_commands = s }) x
      → Acts env w x
  set-Acts env w s (Outcome.ok u, v) a = a
  set-Acts env w s (Outcome.err e, v) a = set-Stopped env w v s a
  set-Acts env w s (Outcome.panic, v) a = set-Breaks env w s a

  -- The set keeps the rest.
  added-Acts :
      (env : E) (w : Supervisor E U JS KS X) (o : Outcome (Unit {0})) (s : KS)
      → (K.add (M.message_id env) w.accepted_commands).0 ≡ o
      → Acts env w (
          chain
            (o, record w { accepted_commands = s })
            (λ _ v.
              chain
                (A.unpack env, v)
                (λ msg v.
                  chain
                    (call_handler M J K A env (A.as_command msg) v)
                    (λ events u. finish_command M J K A env events u))))
  added-Acts env w (Outcome.ok t) s k =
      unfold chain in
      let v : Supervisor E U JS KS X = record w { accepted_commands = s } in
      set-Acts env w s
        (chain (A.unpack env, v)
          (λ msg v.
            chain (call_handler M J K A env (A.as_command msg) v)
              (λ events u. finish_command M J K A env events u)))
        (unpacked-Acts env (record w { accepted_commands = s }) (A.unpack env) refl)
  added-Acts env w (Outcome.err e) s k = unfold chain in unhandled refl
  added-Acts env w Outcome.panic s k = unfold chain in set_panics w.accepted_commands k

  pub handle_command-Acts :
      (env : E) (w : Supervisor E U JS KS X) → Acts env w (handle_command M J K A env w)
  unfolding handle_command set_add
  handle_command-Acts env w =
      added-Acts env w (K.add (M.message_id env) w.accepted_commands).0
        (K.add (M.message_id env) w.accepted_commands).1 refl

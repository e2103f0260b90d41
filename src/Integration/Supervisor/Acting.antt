-- ===== src/Integration/Supervisor/Acting.antt =====
-- The calls of the application and of the recorder of events that stand behind the records of the
-- journal (internal/integration/supervisor.go and scope.go).
use veracity.Base.{
  ℕ, ◌+◌, ◌≡◌, refl, sym, ap, ◌∙◌, subst, ◌⊎◌, inl, inr, false, List, [], ◌∷◌, ◌++◌, Option, none,
  some, length, Error, Outcome, ok, panic, Bool-cases, if◌then◌else◌, ◌==◌, append_assoc,
  append-nil,
}
use veracity.Journal.{Appended, written, refused, unsure}
use veracity.EventStream.{Messages, AppendResponse}
use veracity.Integration.{Record, CommandHandled}
use veracity.Integration.Services.{Log, AcceptedSet, App}
use veracity.Integration.Pending.{chain, appended_record}
use veracity.Integration.Supervisor.{
  Supervisor, Origin, advance, append_record, record_events, took_response, append_events,
  called_handler, call_handler, selected, select_from, select_stream, handled_op,
}
use veracity.Integration.Supervisor.Effects.{no_length}

module _ {E U X : Type 0} (M : Messages E U) (A : App E U X) where
  -- The envelopes that the packer makes of the events, each with the command as its cause.
  pub data Packs (env : E) : List A.Event → X → List E → X → Type 0 where
    nothing_packed : {x : X} → Packs env [] x [] x
    packed :
        {e : A.Event} {es : List A.Event} {a : E} {bs : List E} {x y z : X}
        → A.pack e env x ≡ (a, y)
        → Packs env es y bs z
        → Packs env (e ∷ es) x (a ∷ bs) z

  -- The handler was called with the command and returned without an error; `events` are the events that
  -- it recorded.
  pub record Made (env : E) (x : X) (events : List E) (y : X) : Type 0 where
    pub message : A.Message
    pub command : A.Command
    pub recorded : List A.Event
    pub between : X
    pub unpacked : A.unpack env ≡ ok message
    pub is_command : A.as_command message ≡ some command
    pub returned : A.handle_command command x ≡ ((recorded, ok tt), between)
    pub packs : Packs env recorded between events y

  -- The stream of the events: the supervisor's, or one that is selected if it has none.
  pub data Chosen (current : Option U) (x : X) : List E → Option U → X → Type 0 where
    no_events : Chosen current x [] none x
    kept_stream :
        {e : E} {es : List E} (id : U) → current ≡ some id → Chosen current x (e ∷ es) current x
    new_stream :
        {e : E} {es : List E} {id : Option U} {y : X}
        → current ≡ none
        → (off : ℕ) → A.select_event_stream x ≡ (((id, off), none), y)
        → Chosen current x (e ∷ es) id y

  -- The operation is what the handler made of the command.
  pub record IsHandled (env : E) (stream : Option U) (x : X) (op : CommandHandled E U) (y : X)
      : Type 0 where
    pub of_command : op.command_id ≡ M.message_id env
    pub middle : X
    pub made : Made env x op.events middle
    pub chosen : Chosen stream middle op.events op.event_stream_id y

  -- The recorder was called with the events of the operation, and succeeded.
  abbrev pub Sends : CommandHandled E U → X → X → Type 0
  Sends op x y =
      (res : AppendResponse) × (A.append_events
          (record {
            stream_id = op.event_stream_id;
            events = op.events;
            offset_hint = op.offset_hint;
          })
          x
        ≡ (ok res, y))

  -- The recorder panics on the events of the operation.
  abbrev pub Throws : CommandHandled E U → X → Type 0
  Throws op x =
      (A.append_events
        (record {
          stream_id = op.event_stream_id;
          events = op.events;
          offset_hint = op.offset_hint;
        })
        x).0
      ≡ panic

  -- The handler panics on the command, or the envelope has none.
  pub data Dies (env : E) (x : X) : Type 0 where
    not_a_command : (msg : A.Message) → A.unpack env ≡ ok msg → A.as_command msg ≡ none → Dies env x
    handler_panics :
        (msg : A.Message) (cmd : A.Command)
        → A.unpack env ≡ ok msg
        → A.as_command msg ≡ some cmd
        → (A.handle_command cmd x).0.1 ≡ panic
        → Dies env x

  -- The events of the operation, if any, are in the stream.
  abbrev pub Delivers : CommandHandled E U → X → X → Type 0
  Delivers op x y = ((op.events ≡ []) × (y ≡ x)) ⊎ Sends op x y

  -- The command was handled, and its events delivered.
  pub record Performs (env : E) (stream : Option U) (op : CommandHandled E U) (x z : X)
      : Type 0 where
    pub y : X
    pub handled : IsHandled env stream x op y
    pub delivers : Delivers op y z

module _ {E U X JS KS : Type 0} (M : Messages E U) (J : Log (Record E U) JS) (K : AcceptedSet U KS)
    (A : App E U X) where
  abbrev pub records_of : Supervisor E U JS KS X → List (Record E U)
  records_of w = J.records w.journal

  abbrev pub Writes :
      Record E U → Supervisor E U JS KS X → Outcome (Unit {0}) × Supervisor E U JS KS X → Type 0
  Writes r w (Outcome.ok u, v) =
      (records_of v ≡ records_of w ++ r ∷ [])
      × (v.app ≡ w.app)
      × (v.event_stream_id ≡ w.event_stream_id)
  Writes r w (Outcome.err e, v) =
      ((records_of v ≡ records_of w) ⊎ (records_of v ≡ records_of w ++ r ∷ [])) × (v.app ≡ w.app)
  Writes r w (Outcome.panic, v) = ⊥

  pub append_record-Writes :
      (r : Record E U) (w : Supervisor E U JS KS X) → Writes r w (append_record J r w)
  unfolding append_record advance
  append_record-Writes r w =
      go (J.append w.journal_pos r w.journal).0 (J.append w.journal_pos r w.journal).1
        (J.append-Appended w.journal_pos r w.journal)
    where
      go :
          (o : Outcome (Unit {0})) (s : JS)
          → Appended J.records
              (J.begin w.journal + length (J.records w.journal))
              w.journal_pos
              r
              w.journal
              o
              s
          → Writes r w (advance J w (o, s))
      go o s (written at q) = (q, refl, refl)
      go o s (refused x q) = (inl q, refl)
      go o s (unsure x at q) = (inr q, refl)

  -- A delivery, with its record. A failure leaves the journal as it was, or comes after the delivery.
  abbrev pub Delivered :
      CommandHandled E U
      → Supervisor E U JS KS X
      → Outcome (Unit {0}) × Supervisor E U JS KS X
      → Type 0
  Delivered op w (Outcome.ok u, v) =
      Delivers M A op w.app v.app
      × (records_of v
          ≡ records_of w
            ++ (if length op.events == 0 then [] else appended_record op.command_id ∷ []))
  Delivered op w (Outcome.err e, v) =
      (records_of v ≡ records_of w)
      ⊎ ((y : X) × Sends M A op w.app y
          × (records_of v ≡ records_of w ++ appended_record op.command_id ∷ []))
  Delivered op w (Outcome.panic, v) = Throws M A op w.app

  written-Delivered :
      (op : CommandHandled E U) (w v : Supervisor E U JS KS X)
      (x : Outcome (Unit {0}) × Supervisor E U JS KS X)
      → (length op.events == 0) ≡ false
      → Sends M A op w.app v.app
      → v.journal ≡ w.journal
      → Writes (appended_record op.command_id) v x
      → Delivered op w x
  written-Delivered op w v (Outcome.ok u, z) n s j (r, a, i) = (
    inr (subst (Sends M A op w.app) (sym a) s),
    rw n (r ∙ ap (λ l. J.records l ++ appended_record op.command_id ∷ []) j),
  )
  written-Delivered op w v (Outcome.err e, z) n s j (inl r, _) = inl (r ∙ ap J.records j)
  written-Delivered op w v (Outcome.err e, z) n s j (inr r, _) =
      inr (v.app, s, r ∙ ap (λ l. J.records l ++ appended_record op.command_id ∷ []) j)
  written-Delivered op w v (Outcome.panic, z) n s j t = absurd t

  sent-Delivered :
      (from : Origin) (op : CommandHandled E U) (w : Supervisor E U JS KS X)
      (p : Outcome AppendResponse × X)
      → (length op.events == 0) ≡ false
      → A.append_events
          (record {
            stream_id = op.event_stream_id;
            events = op.events;
            offset_hint = op.offset_hint;
          })
          w.app
        ≡ p
      → Delivered op w (
          chain
            (took_response M J K A from op w p)
            (λ _ v. append_record J (appended_record op.command_id) v))
  unfolding chain took_response
  sent-Delivered from op w (Outcome.ok res, y) n e =
      let v = (took_response M J K A from op w (ok res, y)).1 in
      written-Delivered op w v (append_record J (appended_record op.command_id) v) n (res, e) refl
        (append_record-Writes (appended_record op.command_id) v)
  sent-Delivered from op w (Outcome.err x, y) n e = inl refl
  sent-Delivered from op w (Outcome.panic, y) n e = ap (λ p. p.0) e

  pub append_events-Delivered :
      (from : Origin) (op : CommandHandled E U) (w : Supervisor E U JS KS X)
      → Delivered op w (append_events M J K A from op w)
  unfolding append_events
  append_events-Delivered from op w = elim (Bool-cases (length op.events == 0)) [
    | inl t ↦ rw t (inl (no_length op.events t, refl), rw t (sym (append-nil (records_of w))))
    | inr n ↦ rw n (sent-Delivered from op w _ n refl)
  ]

  record_events-Packs :
      (env : E) (es : List A.Event) (front : List E) (x : X)
      → (bs : List E) × (y : X) × (record_events M J K A es env front x ≡ (front ++ bs, y))
        × Packs M A env es x bs y
  unfolding record_events
  record_events-Packs env [] front x =
      ([], x, ap (λ l. (l, x)) (sym (append-nil front)), nothing_packed)
  record_events-Packs env (e ∷ es) front x =
      let (bs, y, q, p) =
        record_events-Packs env es (front ++ (A.pack e env x).0 ∷ []) (A.pack e env x).1 in
      (
        (A.pack e env x).0 ∷ bs,
        y,
        q ∙ ap (λ l. (l, y)) (append_assoc front ((A.pack e env x).0 ∷ []) bs),
        packed refl p,
      )

  -- The handler's call leaves the journal.
  abbrev pub Called :
      E → Supervisor E U JS KS X → Outcome (List E) × Supervisor E U JS KS X → Type 0
  Called env w (Outcome.ok events, v) =
      Made M A env w.app events v.app
      × (v.journal ≡ w.journal)
      × (v.event_stream_id ≡ w.event_stream_id)
  Called env w (Outcome.err e, v) = v.journal ≡ w.journal
  Called env w (Outcome.panic, v) = Dies M A env w.app

  called_handler-Called :
      (env : E) (msg : A.Message) (cmd : A.Command) (w : Supervisor E U JS KS X)
      (p : (List A.Event × Outcome (Unit {0})) × X)
      → A.unpack env ≡ ok msg
      → A.as_command msg ≡ some cmd
      → A.handle_command cmd w.app ≡ p
      → Called env w (called_handler M J K A env w p)
  unfolding called_handler
  called_handler-Called env msg cmd w ((es, Outcome.ok u), x) m c h =
      let (bs, y, q, p) = record_events-Packs env es [] x in
      (
        record {
          message = msg;
          command = cmd;
          recorded = es;
          between = x;
          unpacked = m;
          is_command = c;
          returned = h;
          packs = subst (λ (z : List E × X). Packs M A env es x z.0 z.1) (sym q) p;
        },
        refl,
        refl,
      )
  called_handler-Called env msg cmd w ((es, Outcome.err e), x) m c h = refl
  called_handler-Called env msg cmd w ((es, Outcome.panic), x) m c h =
      handler_panics msg cmd m c (ap (λ p. p.0.1) h)

  pub call_handler-Called :
      (env : E) (msg : A.Message) (o : Option A.Command) (w : Supervisor E U JS KS X)
      → A.unpack env ≡ ok msg
      → A.as_command msg ≡ o
      → Called env w (call_handler M J K A env o w)
  unfolding call_handler
  call_handler-Called env msg none w m c = not_a_command msg m c
  call_handler-Called env msg (some cmd) w m c = called_handler-Called env msg cmd w _ m c refl

  -- The stream for the events.
  abbrev pub Selects :
      List E → E → Supervisor E U JS KS X → Outcome (Unit {0}) × Supervisor E U JS KS X → Type 0
  Selects events env w (Outcome.ok u, v) =
      Chosen M A w.event_stream_id w.app events (handled_op M J K A env events v).event_stream_id
        v.app
      × (v.journal ≡ w.journal)
  Selects events env w (Outcome.err e, v) = v.journal ≡ w.journal
  Selects events env w (Outcome.panic, v) = ⊥

  selected-Selects :
      (e : E) (es : List E) (env : E) (w : Supervisor E U JS KS X)
      (p : ((Option U × ℕ) × Option Error) × X)
      → w.event_stream_id ≡ none
      → A.select_event_stream w.app ≡ p
      → Selects (e ∷ es) env w (selected M J K A w p)
  unfolding selected
  selected-Selects e es env w (((id, off), none), y) n q = (new_stream n off q, refl)
  selected-Selects e es env w (((id, off), some x), y) n q = refl

  select_from-Selects :
      (e : E) (es : List E) (env : E) (w : Supervisor E U JS KS X) (o : Option U)
      → w.event_stream_id ≡ o
      → Selects (e ∷ es) env w (select_from M J K A o w)
  unfolding select_from
  select_from-Selects e es env w none n = selected-Selects e es env w _ n refl
  select_from-Selects e es env w (some id) n = (kept_stream id n, refl)

  pub select_stream-Selects :
      (events : List E) (env : E) (w : Supervisor E U JS KS X)
      → Selects events env w (select_stream M J K A events w)
  unfolding select_stream
  select_stream-Selects [] env w = (no_events, refl)
  select_stream-Selects (e ∷ es) env w = select_from-Selects e es env w w.event_stream_id refl

-- ===== src/Integration/Supervisor/Resuming.antt =====
-- What a failure leaves in the journal (internal/integration/supervisor.go, `acceptCommand` and
-- `handleCommand`): a journal that the next supervisor recovers.
use veracity.Base.{
  ◌+◌, ◌<◌, ◌≡◌, refl, sym, ap, ◌∙◌, subst, inl, inr, true, List, [], ◌∷◌, ◌++◌, length, All,
  All-append, All-append_left, arith, Outcome, ok, max_u64, Bool-cases, ◌==◌,
}
use veracity.EventStream.{Messages}
use veracity.Integration.{Record, CommandHandled}
use veracity.Integration.Services.{Log, AcceptedSet, App}
use veracity.Integration.Pending.{Pending, chain, replay_record, handled_record, appended_record}
use veracity.Integration.Supervisor.{
  Supervisor, Origin, append_record, advance, append_events, call_handler, handled_op,
  finish_command, handle_command,
}
use veracity.Integration.Supervisor.Progress.{
  chain_by, pending_of, pending_of-append, recs, Same, At, Appends, append_record-Appends, At-Same,
}
use veracity.Integration.Supervisor.Effects.{Silent, replay_handled, replay_appended}
use veracity.Integration.Supervisor.Calls.{
  took_response-Same, call_handler-Same, select_stream-Same, handled_op-id,
}
use veracity.Integration.Supervisor.Accept.{accepted_only, handled_all, Fresh, Added, set_add-Added}
use veracity.Integration.Supervisor.Interrupted.{Left, nothing_left, one_accepted, one_handled}

module _ {E U X JS KS : Type 0} (M : Messages E U) (J : Log (Record E U) JS) (K : AcceptedSet U KS)
    (A : App E U X) where
  -- The journal has at most one command whose work is left, and its handled commands are in the set.
  pub record Resumes (v : Supervisor E U JS KS X) : Type 0 where
    pub work : Pending E U
    pub pending : pending_of M (recs M J K v) ≡ ok work
    pub left : Left M J K A work
    pub known :
        All
          (λ (h : CommandHandled E U). K.contains v.accepted_commands h.command_id ≡ true)
          work.handled

  At-Resumes :
      (p : Pending E U) (v : Supervisor E U JS KS X) → Left M J K A p → At M J K p v → Resumes v
  At-Resumes p v l a = record { work = p; pending = a.pending; left = l; known = a.known }

  -- A failed call leaves such a journal.
  abbrev pub Resumed : Outcome (Unit {0}) × Supervisor E U JS KS X → Type 0
  Resumed (Outcome.ok u, v) = Unit
  Resumed (Outcome.err e, v) = Resumes v
  Resumed (Outcome.panic, v) = Unit

  -- An append does not touch the set.
  advance-set :
      (w : Supervisor E U JS KS X) (o : Outcome (Unit {0}) × JS)
      → (advance J w o).1.accepted_commands ≡ w.accepted_commands
  unfolding advance
  advance-set w (Outcome.ok u, s) = refl
  advance-set w (Outcome.err e, s) = refl
  advance-set w (Outcome.panic, s) = refl

  appended-Resumed :
      (r : Record E U) (p q : Pending E U) (w : Supervisor E U JS KS X)
      (x : Outcome (Unit {0}) × Supervisor E U JS KS X)
      → At M J K p w
      → Left M J K A p
      → Left M J K A q
      → replay_record M r p ≡ ok q
      → All
          (λ (h : CommandHandled E U). K.contains w.accepted_commands h.command_id ≡ true)
          q.handled
      → x.1.accepted_commands ≡ w.accepted_commands
      → Appends M J K r p q w x
      → Resumed x
  appended-Resumed r p q w (Outcome.ok u, v) h l m e k c a = tt
  appended-Resumed r p q w (Outcome.err x, v) h l m e k c (inl s, ans) = record {
    work = p;
    pending = ap (pending_of M) s ∙ h.pending;
    left = l;
    known =
        subst (λ z. All (λ (y : CommandHandled E U). K.contains z y.command_id ≡ true) p.handled)
          (sym c) h.known;
  }
  appended-Resumed r p q w (Outcome.err x, v) h l m e k c (inr s, ans) = record {
    work = q;
    pending = ap (pending_of M) s ∙ pending_of-append M (recs M J K w) p q r h.pending e;
    left = m;
    known =
        subst (λ z. All (λ (y : CommandHandled E U). K.contains z y.command_id ≡ true) q.handled)
          (sym c) k;
  }
  appended-Resumed r p q w (Outcome.panic, v) h l m e k c a = tt

  pub append_record-Resumed :
      (r : Record E U) (p q : Pending E U) (w : Supervisor E U JS KS X)
      → At M J K p w
      → w.journal_pos + 1 < max_u64
      → Left M J K A p
      → Left M J K A q
      → replay_record M r p ≡ ok q
      → All
          (λ (h : CommandHandled E U). K.contains w.accepted_commands h.command_id ≡ true)
          q.handled
      → Resumed (append_record J r w)
  append_record-Resumed r p q w h room l m e k =
      appended-Resumed r p q w _ h l m e k (unfold append_record in advance-set w _)
        (append_record-Appends M J K r p q w h room e k)

  pub append_events-Resumed :
      (from : Origin) (op : CommandHandled E U) (hs : List (CommandHandled E U))
      (w : Supervisor E U JS KS X)
      → Silent hs
      → Fresh M J K A hs op.command_id
      → At M J K (handled_all M J K A (hs ++ op ∷ [])) w
      → w.journal_pos + 1 < max_u64
      → Resumed (append_events M J K A from op w)
  unfolding append_events
  append_events-Resumed from op hs w s f h room = elim (Bool-cases (length op.events == 0)) [
    | inl t ↦ rw t tt
    | inr n ↦ rw n (
        chain_by Resumed (λ x. Same M J K w x.1) _ _ (took_response-Same M J K A from op w _)
          (λ _ v m.
            let a = At-Same M J K _ w v h m in
            append_record-Resumed (appended_record op.command_id)
              (handled_all M J K A (hs ++ op ∷ [])) (handled_all M J K A hs) v a
              (omega (arith, m.pos_same, room)) (one_handled op hs s f) (nothing_left hs s)
              (replay_appended M op hs f) (All-append_left _ hs (op ∷ []) a.known))
          (λ e v m. At-Resumes _ v (one_handled op hs s f) (At-Same M J K _ w v h m)) (λ v m. tt))
  ]

  -- The end of `handleCommand`, from the record of the handled command on.
  recorded-Resumed :
      (env : E) (op : CommandHandled E U) (hs : List (CommandHandled E U))
      (w : Supervisor E U JS KS X) (x : Outcome (Unit {0}) × Supervisor E U JS KS X)
      → Silent hs
      → Fresh M J K A hs op.command_id
      → w.journal_pos + 2 < max_u64
      → Resumed x
      → Appends M J K
          (handled_record op)
          (accepted_only M J K A env hs)
          (handled_all M J K A (hs ++ op ∷ []))
          w
          x
      → Resumed (chain x (λ _ v. append_events M J K A Origin.made op v))
  unfolding chain
  recorded-Resumed env op hs w (Outcome.ok u, v) s f room k (a, r, p, ans, set) =
      append_events-Resumed Origin.made op hs v s f a (omega (arith, p, room))
  recorded-Resumed env op hs w (Outcome.err e, v) s f room k a = k
  recorded-Resumed env op hs w (Outcome.panic, v) s f room k a = tt

  finish_command-Resumed :
      (env : E) (events : List E) (hs : List (CommandHandled E U)) (w : Supervisor E U JS KS X)
      → Silent hs
      → Fresh M J K A hs (M.message_id env)
      → K.contains w.accepted_commands (M.message_id env) ≡ true
      → At M J K (accepted_only M J K A env hs) w
      → w.journal_pos + 2 < max_u64
      → Resumed (finish_command M J K A env events w)
  unfolding finish_command
  finish_command-Resumed env events hs w s f c h room =
      chain_by Resumed (λ x. Same M J K w x.1) _ _ (select_stream-Same M J K A events w)
        (λ _ v m.
          let op = handled_op M J K A env events v in
          let i : op.command_id ≡ M.message_id env = handled_op-id M J K A env events v in
          let g : Fresh M J K A hs op.command_id = subst (Fresh M J K A hs) (sym i) f in
          let a = At-Same M J K _ w v h m in
          let k =
            All-append
              (λ (y : CommandHandled E U). K.contains v.accepted_commands y.command_id ≡ true) hs
              (op ∷ []) a.known (ap (K.contains v.accepted_commands) i ∙ m.set_keeps _ c, tt) in
          let e = replay_handled M env op hs i in
          recorded-Resumed env op hs v _ s g (omega (arith, m.pos_same, room))
            (append_record-Resumed (handled_record op) _ (handled_all M J K A (hs ++ op ∷ [])) v a
              (omega (arith, m.pos_same, room)) (one_accepted env hs s f) (one_handled op hs s g) e
              k)
            (append_record-Appends M J K (handled_record op) _ (handled_all M J K A (hs ++ op ∷ []))
              v a (omega (arith, m.pos_same, room)) e k))
        (λ e v m. At-Resumes _ v (one_accepted env hs s f) (At-Same M J K _ w v h m)) (λ v m. tt)

  unpacked-Resumed :
      (env : E) (o : Outcome A.Message) (hs : List (CommandHandled E U))
      (w : Supervisor E U JS KS X)
      → Silent hs
      → Fresh M J K A hs (M.message_id env)
      → K.contains w.accepted_commands (M.message_id env) ≡ true
      → At M J K (accepted_only M J K A env hs) w
      → w.journal_pos + 2 < max_u64
      → Resumed (
          chain
            (o, w)
            (λ msg v.
              chain
                (call_handler M J K A env (A.as_command msg) v)
                (λ events u. finish_command M J K A env events u)))
  unfolding chain
  unpacked-Resumed env (Outcome.ok msg) hs w s f c h room =
      chain_by Resumed (λ x. Same M J K w x.1) (call_handler M J K A env (A.as_command msg) w)
        (λ events u. finish_command M J K A env events u)
        (call_handler-Same M J K A env (A.as_command msg) w)
        (λ events u n.
          finish_command-Resumed env events hs u s f (n.set_keeps _ c) (At-Same M J K _ w u h n)
            (omega (arith, n.pos_same, room)))
        (λ e u n. At-Resumes _ u (one_accepted env hs s f) (At-Same M J K _ w u h n)) (λ u n. tt)
  unpacked-Resumed env (Outcome.err e) hs w s f c h room =
      At-Resumes _ w (one_accepted env hs s f) h
  unpacked-Resumed env Outcome.panic hs w s f c h room = tt

  pub handle_command-Resumed :
      (env : E) (hs : List (CommandHandled E U)) (w : Supervisor E U JS KS X)
      → Silent hs
      → Fresh M J K A hs (M.message_id env)
      → At M J K (accepted_only M J K A env hs) w
      → w.journal_pos + 2 < max_u64
      → Resumed (handle_command M J K A env w)
  unfolding handle_command
  handle_command-Resumed env hs w s f h room =
      chain_by Resumed (Added M J K A (M.message_id env) w) _ _
        (set_add-Added M J K A (M.message_id env) w)
        (λ _ v (m, c).
          unpacked-Resumed env (A.unpack env) hs v s f c (At-Same M J K _ w v h m)
            (omega (arith, m.pos_same, room)))
        (λ e v m. At-Resumes _ v (one_accepted env hs s f) (At-Same M J K _ w v h m)) (λ v m. tt)

-- ===== src/Integration/Supervisor/Accept.antt =====
-- What happens to a command that the supervisor acknowledges (internal/integration/supervisor.go,
-- `acceptCommand` and `handleCommand`).
use veracity.Base.{
  ◌+◌, ◌<◌, ◌≡◌, refl, sym, ap, ◌∙◌, subst, inl, inr, true, false, List, [], ◌∷◌, ◌++◌, Option,
  max_u64, length, All, All-append, arith, Outcome, if◌then◌else◌, ◌==◌, append_assoc,
}
use veracity.EventStream.{Messages}
use veracity.Integration.{Record, CommandHandled}
use veracity.Integration.Services.{Log, AcceptedSet, App}
use veracity.Integration.Supervisor.{
  Supervisor, Origin, append_events, call_handler, handled_op, finish_command, set_add,
  handle_command,
}
use veracity.Integration.Pending.{Pending, chain, handled_record, appended_record}
use veracity.Integration.Supervisor.Progress.{
  chain_by, pending_of, pending_of-append, recs, Same, At, Appends, append_record-Appends, At-Same,
}
use veracity.Integration.Supervisor.Effects.{Kept, Silent, Finishes, replay_handled}
use veracity.Integration.Supervisor.Calls.{
  Handles, append_events-Finishes, call_handler-Same, select_stream-Same, handled_op-id,
  Handles-Same,
}

module _ {E U X JS KS : Type 0} (M : Messages E U) (J : Log (Record E U) JS) (K : AcceptedSet U KS)
    (A : App E U X) where
  abbrev pub accepted_only : E → List (CommandHandled E U) → Pending E U
  accepted_only env hs = record { accepted = record { command = env } ∷ []; handled = hs }

  abbrev pub handled_all : List (CommandHandled E U) → Pending E U
  handled_all hs = record { accepted = []; handled = hs }

  -- No command that the journal has as handled is `id`.
  abbrev pub Fresh : List (CommandHandled E U) → U → Type 0
  Fresh hs id = All (λ (h : CommandHandled E U). M.equal h.command_id id ≡ false) hs

  -- The end of `handleCommand`, after the record of the handled command.
  handled-Handles :
      (env : E) (op : CommandHandled E U) (hs : List (CommandHandled E U))
      (w : Supervisor E U JS KS X) (x : Outcome (Unit {0}) × Supervisor E U JS KS X)
      → op.command_id ≡ M.message_id env
      → Silent hs
      → Fresh hs op.command_id
      → At M J K (accepted_only env hs) w
      → w.journal_pos + 2 < max_u64
      → Appends M J K (handled_record op) (accepted_only env hs) (handled_all (hs ++ op ∷ [])) w x
      → Handles M J K A env w (chain x (λ _ v. append_events M J K A Origin.made op v))
  unfolding chain
  handled-Handles env op hs w (Outcome.ok _, v) i s f h room (a, r, p, ans, set) =
      from_end (append_events M J K A Origin.made op v)
        (append_events-Finishes M J K A Origin.made op hs v s f a (omega (arith, p)))
    where
      from_end :
          (y : Outcome (Unit {0}) × Supervisor E U JS KS X)
          → Finishes M J K op v y
          → Handles M J K A env w y
      from_end (Outcome.ok _, u) (t, q, (b, k)) = (
        t,
        (
          op,
          i,
          q
              ∙ ap
                  (λ l.
                    l ++ (if length op.events == 0 then [] else appended_record op.command_id ∷ []))
                  r
              ∙ append_assoc (recs M J K w) (handled_record op ∷ []) _,
        ),
        (b ∙ ans, λ c d. k c (ap (λ z. K.contains z c) set ∙ d)),
      )
      from_end (Outcome.err e, u) (k, b) = (subst (λ z. Kept M J K z u) i k, b ∙ ans)
      from_end (Outcome.panic, u) n = tt
  handled-Handles env op hs w (Outcome.err e, v) i s f h room (inl r, ans) = (
    inl (
      accepted_only env hs,
      ap (pending_of M) r ∙ h.pending,
      inl (record { command = env }, refl, refl),
    ),
    ans,
  )
  handled-Handles env op hs w (Outcome.err e, v) i s f h room (inr r, ans) = (
    inl (
      handled_all (hs ++ op ∷ []),
      ap (pending_of M) r
          ∙ pending_of-append M (recs M J K w) _ _ (handled_record op) h.pending
              (replay_handled M env op hs i),
      inr (hs, op, refl, i),
    ),
    ans,
  )
  handled-Handles env op hs w (Outcome.panic, v) i s f h room a = absurd a

  still-Kept :
      (env : E) (hs : List (CommandHandled E U)) (w v : Supervisor E U JS KS X)
      → At M J K (accepted_only env hs) w
      → Same M J K w v
      → Kept M J K (M.message_id env) v × (v.answers ≡ w.answers)
  still-Kept env hs w v h m = (
    inl (
      accepted_only env hs,
      (At-Same M J K _ w v h m).pending,
      inl (record { command = env }, refl, refl),
    ),
    m.answers_same,
  )

  pub Same-refl : (w : Supervisor E U JS KS X) → Same M J K w w
  Same-refl w = record {
    journal_same = refl;
    pos_same = refl;
    answers_same = refl;
    set_keeps = λ u c. c;
  }

  -- `Add` to the set of accepted commands.
  abbrev pub Added :
      U → Supervisor E U JS KS X → Outcome (Unit {0}) × Supervisor E U JS KS X → Type 0
  Added id w (Outcome.ok _, v) = Same M J K w v × (K.contains v.accepted_commands id ≡ true)
  Added id w (Outcome.err e, v) = Same M J K w v
  Added id w (Outcome.panic, v) = Same M J K w v

  pub set_add-Added : (id : U) (w : Supervisor E U JS KS X) → Added id w (set_add M J K A id w)
  unfolding set_add
  set_add-Added id w = from_result (K.add id w.accepted_commands).0 refl
    where
      same : Same M J K w (record w { accepted_commands = (K.add id w.accepted_commands).1 })
      same = record {
        journal_same = refl;
        pos_same = refl;
        answers_same = refl;
        set_keeps = λ u c. K.add_keeps id u w.accepted_commands c;
      }

      from_result :
          (o : Outcome (Unit {0}))
          → (K.add id w.accepted_commands).0 ≡ o
          → Added id w (o, record w { accepted_commands = (K.add id w.accepted_commands).1 })
      from_result (Outcome.ok _) e = (same, K.add_ok id w.accepted_commands e)
      from_result (Outcome.err x) e = same
      from_result Outcome.panic e = same

  finish_command-Handles :
      (env : E) (events : List E) (hs : List (CommandHandled E U)) (w : Supervisor E U JS KS X)
      → Silent hs
      → Fresh hs (M.message_id env)
      → K.contains w.accepted_commands (M.message_id env) ≡ true
      → At M J K (accepted_only env hs) w
      → w.journal_pos + 2 < max_u64
      → Handles M J K A env w (finish_command M J K A env events w)
  unfolding finish_command
  finish_command-Handles env events hs w s f c h room =
      chain_by (Handles M J K A env w) (λ x. Same M J K w x.1) _ _
        (select_stream-Same M J K A events w)
        (λ _ v m.
          let op = handled_op M J K A env events v in
          let i : op.command_id ≡ M.message_id env = handled_op-id M J K A env events v in
          let a = At-Same M J K _ w v h m in
          Handles-Same M J K A env w v _ m (
            handled-Handles env op hs v _ i s (subst (Fresh hs) (sym i) f) a
              (omega (arith, m.pos_same, room))
              (append_record-Appends M J K (handled_record op) _ (handled_all (hs ++ op ∷ [])) v a
                (omega (arith, m.pos_same, room)) (replay_handled M env op hs i)
                (All-append _ hs (op ∷ []) a.known
                  (ap (K.contains v.accepted_commands) i ∙ m.set_keeps _ c, tt)))))
        (λ e v m. still-Kept env hs w v h m) (λ v m. tt)

  -- The handler's call and what follows it.
  called-Handles :
      (env : E) (cmd : Option A.Command) (hs : List (CommandHandled E U))
      (w : Supervisor E U JS KS X)
      → Silent hs
      → Fresh hs (M.message_id env)
      → K.contains w.accepted_commands (M.message_id env) ≡ true
      → At M J K (accepted_only env hs) w
      → w.journal_pos + 2 < max_u64
      → Handles M J K A env w
          (chain (call_handler M J K A env cmd w) (λ events u. finish_command M J K A env events u))
  called-Handles env cmd hs w s f c h room =
      chain_by (Handles M J K A env w) (λ x. Same M J K w x.1) (call_handler M J K A env cmd w)
        (λ events u. finish_command M J K A env events u) (call_handler-Same M J K A env cmd w)
        (λ events u n. Handles-Same M J K A env w u _ n (
          finish_command-Handles env events hs u s f (n.set_keeps _ c) (At-Same M J K _ w u h n)
            (omega (arith, n.pos_same, room))))
        (λ e u n. still-Kept env hs w u h n) (λ u n. tt)

  unpacked-Handles :
      (env : E) (o : Outcome A.Message) (hs : List (CommandHandled E U))
      (w : Supervisor E U JS KS X)
      → Silent hs
      → Fresh hs (M.message_id env)
      → K.contains w.accepted_commands (M.message_id env) ≡ true
      → At M J K (accepted_only env hs) w
      → w.journal_pos + 2 < max_u64
      → Handles M J K A env w (
          chain
            (o, w)
            (λ msg v.
              chain
                (call_handler M J K A env (A.as_command msg) v)
                (λ events u. finish_command M J K A env events u)))
  unpacked-Handles env (Outcome.ok msg) hs w s f c h room =
      unfold chain in called-Handles env (A.as_command msg) hs w s f c h room
  unpacked-Handles env (Outcome.err e) hs w s f c h room =
      unfold chain in still-Kept env hs w w h (Same-refl w)
  unpacked-Handles env Outcome.panic hs w s f c h room = unfold chain in tt

  -- `handleCommand` of the one command that the journal has as accepted.
  unfoldable pub InSet : U → Outcome (Unit {0}) × Supervisor E U JS KS X → Type 0
  InSet id (Outcome.ok _, v) = K.contains v.accepted_commands id ≡ true
  InSet id (Outcome.err e, v) = Unit
  InSet id (Outcome.panic, v) = Unit

  Handles-InSet :
      (env : E) (w : Supervisor E U JS KS X) (x : Outcome (Unit {0}) × Supervisor E U JS KS X)
      → K.contains w.accepted_commands (M.message_id env) ≡ true
      → Handles M J K A env w x
      → InSet (M.message_id env) x
  unfolding InSet
  Handles-InSet env w (Outcome.ok _, v) c (s, o, (a, k)) = k _ c
  Handles-InSet env w (Outcome.err e, v) c h = tt
  Handles-InSet env w (Outcome.panic, v) c h = tt

  pub handle_command-Handles :
      (env : E) (hs : List (CommandHandled E U)) (w : Supervisor E U JS KS X)
      → Silent hs
      → Fresh hs (M.message_id env)
      → At M J K (accepted_only env hs) w
      → w.journal_pos + 2 < max_u64
      → Handles M J K A env w (handle_command M J K A env w)
        × InSet (M.message_id env) (handle_command M J K A env w)
  unfolding handle_command InSet
  handle_command-Handles env hs w s f h room =
      chain_by (λ x. Handles M J K A env w x × InSet (M.message_id env) x)
        (Added (M.message_id env) w) _ _ (set_add-Added (M.message_id env) w)
        (λ _ v (m, c).
          let y =
            unpacked-Handles env (A.unpack env) hs v s f c (At-Same M J K _ w v h m)
              (omega (arith, m.pos_same, room)) in
          (Handles-Same M J K A env w v _ m y, Handles-InSet env v _ c y))
        (λ e v m. (still-Kept env hs w v h m, tt)) (λ v m. (tt, tt))

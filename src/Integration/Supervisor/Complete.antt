-- ===== src/Integration/Supervisor/Complete.antt =====
-- What `recover` does to the one operation that an interruption leaves pending
-- (internal/integration/supervisor.go).
use veracity.Base.{
  ◌+◌, ◌<◌, ◌≡◌, refl, sym, ap, ◌∙◌, subst, true, List, [], ◌∷◌, ◌++◌, length, Outcome, ok, max_u64,
  ◌==◌, append-nil,
}
use veracity.EventStream.{Messages}
use veracity.Integration.{Record, CommandAccepted, CommandHandled}
use veracity.Integration.Services.{Log, AcceptedSet, App}
use veracity.Integration.Pending.{chain, each}
use veracity.Integration.Supervisor.{Supervisor, Origin, append_events, handle_command}
use veracity.Integration.Supervisor.Machine.{complete}
use veracity.Integration.Supervisor.Progress.{At}
use veracity.Integration.Supervisor.Effects.{Silent, Finishes}
use veracity.Integration.Supervisor.Calls.{append_events-Finishes, Handles}
use veracity.Integration.Supervisor.Acting.{Delivered, append_events-Delivered}
use veracity.Integration.Supervisor.Handling.{Acts, handle_command-Acts}
use veracity.Integration.Supervisor.Accept.{
  Fresh, accepted_only, handled_all, handle_command-Handles,
}

chain-ok : {W : Type 0} (x : Outcome (Unit {0}) × W) → chain x (λ _ w. (ok tt, w)) ≡ x
unfolding chain
chain-ok (Outcome.ok _, w) = refl
chain-ok (Outcome.err e, w) = refl
chain-ok (Outcome.panic, w) = refl

each-one :
    {A W : Type 0} (f : A → W → Outcome (Unit {0}) × W) (x : A) (w : W) → each f (x ∷ []) w ≡ f x w
unfolding each
each-one f x w = chain-ok (f x w)

module _ {E U X JS KS : Type 0} (M : Messages E U) (J : Log (Record E U) JS) (K : AcceptedSet U KS)
    (A : App E U X) where
  append_events-Silent :
      (from : Origin) (op : CommandHandled E U) (w : Supervisor E U JS KS X)
      → op.events ≡ []
      → append_events M J K A from op w ≡ (ok tt, w)
  unfolding append_events
  append_events-Silent from op w e =
      let t : (length op.events == 0) ≡ true = ap (λ l. length l == 0) e in rw t refl

  pub each-Silent :
      (hs rest : List (CommandHandled E U)) (w : Supervisor E U JS KS X)
      → Silent hs
      → each (λ op. append_events M J K A Origin.decoded op) (hs ++ rest) w
        ≡ each (λ op. append_events M J K A Origin.decoded op) rest w
  unfolding each chain
  each-Silent [] rest w s = refl
  each-Silent (h ∷ hs) rest w s =
      ap (λ y. chain y (λ _ v. each (λ op. append_events M J K A Origin.decoded op) (hs ++ rest) v))
        (append_events-Silent Origin.decoded h w s.0)
      ∙ each-Silent hs rest w s.1

  pub complete-accepted :
      (c : CommandAccepted E) (hs : List (CommandHandled E U)) (w : Supervisor E U JS KS X)
      → Silent hs
      → complete M J K A (record { accepted = c ∷ []; handled = hs }) w
        ≡ handle_command M J K A c.command w
  unfolding complete each chain
  complete-accepted c hs w s =
      ap
        (λ y.
          chain y (λ _ v.
            each (λ (op : CommandAccepted E). handle_command M J K A op.command) (c ∷ []) v))
        (ap (λ l. each (λ op. append_events M J K A Origin.decoded op) l w) (sym (append-nil hs))
          ∙ each-Silent hs [] w s)
      ∙ each-one (λ (op : CommandAccepted E). handle_command M J K A op.command) c w

  pub complete-handled :
      (op : CommandHandled E U) (hs : List (CommandHandled E U)) (w : Supervisor E U JS KS X)
      → Silent hs
      → complete M J K A (record { accepted = []; handled = hs ++ op ∷ [] }) w
        ≡ append_events M J K A Origin.decoded op w
  unfolding complete each
  complete-handled op hs w s =
      chain-ok _
      ∙ each-Silent hs (op ∷ []) w s
      ∙ each-one (λ h. append_events M J K A Origin.decoded h) op w

  -- Where the journal has one command as accepted, and apart from it only commands that were handled
  -- without an event, none of them the same, completing the pending operations handles that command:
  -- on success the handler was called with it, the events that the handler recorded, if any, were
  -- delivered to the recorder, the journal gets the records of that and nothing is pending; on a
  -- failure the journal still has the work that is left, and each record that it got has its call
  -- behind it; a panic is one of the set, of the recorder, of the handler or of the unpacking.
  pub complete-Handles :
      (env : E) (hs : List (CommandHandled E U)) (w : Supervisor E U JS KS X)
      → Silent hs
      → Fresh M J K A hs (M.message_id env)
      → At M J K (accepted_only M J K A env hs) w
      → w.journal_pos + 2 < max_u64
      → Handles M J K A env w (complete M J K A (accepted_only M J K A env hs) w)
        × Acts M J K A env w (complete M J K A (accepted_only M J K A env hs) w)
  complete-Handles env hs w s f h room =
      subst (λ x. Handles M J K A env w x × Acts M J K A env w x)
        (sym (complete-accepted (record { command = env }) hs w s))
        ((handle_command-Handles M J K A env hs w s f h room).0, handle_command-Acts M J K A env w)

  -- Where the journal has one command as handled whose events may not be appended, and apart from it
  -- only commands that were handled without an event, none of them the same, completing the pending
  -- operations appends its events: on success the recorder was called with the events, if any, and
  -- took them, the journal gets the record of that and nothing is pending; on a failure the journal
  -- still has the work that is left, and the record only after such a call; a panic is one of the
  -- recorder.
  pub complete-Finishes :
      (op : CommandHandled E U) (hs : List (CommandHandled E U)) (w : Supervisor E U JS KS X)
      → Silent hs
      → Fresh M J K A hs op.command_id
      → At M J K (handled_all M J K A (hs ++ op ∷ [])) w
      → w.journal_pos + 1 < max_u64
      → Finishes M J K op w (complete M J K A (handled_all M J K A (hs ++ op ∷ [])) w)
        × Delivered M J K A op w (complete M J K A (handled_all M J K A (hs ++ op ∷ [])) w)
  complete-Finishes op hs w s f h room =
      subst (λ x. Finishes M J K op w x × Delivered M J K A op w x)
        (sym (complete-handled op hs w s))
        (
          append_events-Finishes M J K A Origin.decoded op hs w s f h room,
          append_events-Delivered M J K A Origin.decoded op w,
        )

-- ===== src/Integration/Supervisor/Interrupted.antt =====
-- A supervisor that is started on the journal of an interrupted one
-- (internal/integration/supervisor.go, `recover`).
use veracity.Base.{
  ◌+◌, ◌<◌, ◌≡◌, sym, ap, ◌∙◌, subst, List, [], ◌∷◌, ◌++◌, length, All, arith, Outcome, ok, max_u64,
  append-nil, true,
}
use veracity.EventStream.{Messages}
use veracity.Integration.{Record, CommandHandled}
use veracity.Integration.Services.{Log, AcceptedSet, App}
use veracity.Integration.Pending.{Pending, chain, each}
use veracity.Integration.Supervisor.{Supervisor, Origin, append_events}
use veracity.Integration.Supervisor.Machine.{complete, recover}
use veracity.Integration.Supervisor.Progress.{pending_of, recs, At}
use veracity.Integration.Supervisor.Effects.{Silent, Finishes, Settled}
use veracity.Integration.Supervisor.Calls.{Handles}
use veracity.Integration.Supervisor.Accept.{Fresh, accepted_only, handled_all}
use veracity.Integration.Supervisor.Complete.{each-Silent, complete-Handles, complete-Finishes}
use veracity.Integration.Supervisor.Completing.{Completes, Completed, complete-Completed}
use veracity.Integration.Supervisor.Recover.{Settles, Recovers, recover-Recovers}

module _ {E U X JS KS : Type 0} (M : Messages E U) (J : Log (Record E U) JS) (K : AcceptedSet U KS)
    (A : App E U X) where
  -- What an interruption may leave pending: at most one command, accepted or handled, and commands
  -- that were handled without an event.
  pub data Left : Pending E U → Type 0 where
    nothing_left : (hs : List (CommandHandled E U)) → Silent hs → Left (handled_all M J K A hs)
    one_accepted :
        (env : E) (hs : List (CommandHandled E U))
        → Silent hs
        → Fresh M J K A hs (M.message_id env)
        → Left (accepted_only M J K A env hs)
    one_handled :
        (op : CommandHandled E U) (hs : List (CommandHandled E U))
        → Silent hs
        → Fresh M J K A hs op.command_id
        → Left (handled_all M J K A (hs ++ op ∷ []))

  pub complete_nothing :
      (hs : List (CommandHandled E U)) (w : Supervisor E U JS KS X)
      → Silent hs
      → complete M J K A (handled_all M J K A hs) w ≡ (ok tt, w)
  unfolding complete each chain
  complete_nothing hs w s =
      ap (λ y. chain y (λ _ v. (ok tt, v)))
        (ap (λ l. each (λ op. append_events M J K A Origin.decoded op) l w) (sym (append-nil hs))
          ∙ each-Silent M J K A hs [] w s)

  -- Nothing is pending after calls that succeed.
  abbrev Rests : Outcome (Unit {0}) × Supervisor E U JS KS X → Type 0
  Rests (Outcome.ok _, v) = Settled M J K v
  Rests (Outcome.err e, v) = Unit
  Rests (Outcome.panic, v) = Unit

  Handles-Rests :
      (env : E) (w : Supervisor E U JS KS X) (x : Outcome (Unit {0}) × Supervisor E U JS KS X)
      → Handles M J K A env w x
      → Rests x
  Handles-Rests env w (Outcome.ok _, v) h = h.0
  Handles-Rests env w (Outcome.err e, v) h = tt
  Handles-Rests env w (Outcome.panic, v) h = tt

  Finishes-Rests :
      (op : CommandHandled E U) (w : Supervisor E U JS KS X)
      (x : Outcome (Unit {0}) × Supervisor E U JS KS X)
      → Finishes M J K op w x
      → Rests x
  Finishes-Rests op w (Outcome.ok _, v) h = h.0
  Finishes-Rests op w (Outcome.err e, v) h = tt
  Finishes-Rests op w (Outcome.panic, v) h = tt

  Left-Rests :
      (p : Pending E U) (v : Supervisor E U JS KS X)
      → Left p
      → At M J K p v
      → v.journal_pos + 2 < max_u64
      → Rests (complete M J K A p v)
  Left-Rests p v (nothing_left hs s) h room =
      subst Rests (sym (complete_nothing hs v s)) (record { handled = hs; at = h; silent = s })
  Left-Rests p v (one_accepted env hs s f) h room =
      Handles-Rests env v _ (complete-Handles M J K A env hs v s f h room).0
  Left-Rests p v (one_handled op hs s f) h room =
      Finishes-Rests op v _ (complete-Finishes M J K A op hs v s f h (omega (arith, room))).0

  settled-Completed :
      (p : Pending E U) (v : Supervisor E U JS KS X)
      (x : Outcome (Unit {0}) × Supervisor E U JS KS X)
      → Rests x
      → Completed M J K A p v x
      → Settles M J K A (Completes M A p v.app) x
  settled-Completed p v (Outcome.ok _, u) s (c, _) = (s, c)
  settled-Completed p v (Outcome.err e, u) s c = tt
  settled-Completed p v (Outcome.panic, u) s c = c

  pub complete-Settles :
      (p : Pending E U) (v : Supervisor E U JS KS X)
      → Left p
      → At M J K p v
      → v.journal_pos + 2 < max_u64
      → Settles M J K A (Completes M A p v.app) (complete M J K A p v)
  complete-Settles p v l h room =
      settled-Completed p v _ (Left-Rests p v l h room) (complete-Completed M J K A p v)

  -- A supervisor over a journal with at most one command pending, whose handled commands are in the
  -- set, with room for two more records. If `recover` enters the idle state, then it has done all of
  -- the pending work, with the calls of the handler and the recorder that make it up, and the journal
  -- is empty, its position at the end and nothing pending. Else it fails with an error, or a call
  -- panics, the callback of a range that fails included.
  pub recover-Left-Recovers :
      (w : Supervisor E U JS KS X) (p : Pending E U)
      → pending_of M (recs M J K w) ≡ ok p
      → Left p
      → All
          (λ (h : CommandHandled E U). K.contains w.accepted_commands h.command_id ≡ true)
          p.handled
      → J.begin w.journal + length (recs M J K w) + 2 < max_u64
      → Recovers M J K A (Completes M A p w.app) (recover M J K A w)
  recover-Left-Recovers w p e l k room =
      recover-Recovers M J K A (Completes M A p w.app) w p e (omega (arith, room)) k (λ v h r b a.
        subst (λ x. Settles M J K A (Completes M A p x) (complete M J K A p v)) a
          (complete-Settles p v l h (omega (arith, room, h.at_end, b, ap length r))))

-- ===== src/Integration/Pending.antt =====
-- internal/integration/supervisor.go: the operations that are pending by the records of the journal, as
-- `recover` collects them, and the records that the supervisor writes.
use veracity.Base.{
  ℕ, ◌+◌, Bool, List, [], ◌∷◌, ◌++◌, none, u64, if◌then◌else◌, Outcome, ok, err, panic,
}
use veracity.EventStream.{Messages}
use veracity.Integration.{Record, CommandAccepted, CommandHandled}
use veracity.Integration.RecordBuilder

-- The two lists of `recover`.
pub record Pending (E U : Type 0) : Type 0 where
  pub accepted : List (CommandAccepted E)
  pub handled : List (CommandHandled E U)

-- A sequence of calls that return early on an error.
unfoldable pub chain : {A B W : Type 0} → Outcome A × W → (A → W → Outcome B × W) → Outcome B × W
chain (Outcome.ok a, w) k = k a w
chain (Outcome.err e, w) k = (err e, w)
chain (Outcome.panic, w) k = (panic, w)

-- A loop over a list that returns early on an error.
unfoldable pub each :
    {A W : Type 0} → (A → W → Outcome (Unit {0}) × W) → List A → W → Outcome (Unit {0}) × W
unfolding chain
each f [] w = (ok tt, w)
each f (x ∷ xs) w = chain (f x w) (λ _ v. each f xs v)

-- The first element that passes the test is deleted: the loop with `slices.Delete` and `break`.
unfoldable pub delete_first : {A : Type 0} → (A → Bool) → List A → List A
delete_first f [] = []
delete_first f (x ∷ xs) = if f x then xs else x ∷ delete_first f xs

module _ {E U : Type 0} (M : Messages E U) where
  -- The callback of `Range`, on the two lists.
  unfoldable pub replay_record : Record E U → Pending E U → Outcome (Pending E U)
  unfolding RecordBuilder.must_switch delete_first
  replay_record rec p =
      RecordBuilder.must_switch rec (λ op. ok (record p { accepted = p.accepted ++ op ∷ [] }))
        (λ op. ok (record p {
          accepted =
              delete_first
                (λ (x : CommandAccepted E). M.equal (M.message_id x.command) op.command_id)
                p.accepted;
          handled = p.handled ++ op ∷ [];
        }))
        (λ op. ok (record p {
          handled =
              delete_first (λ (x : CommandHandled E U). M.equal x.command_id op.appended_id)
                p.handled;
        }))

  -- The position after a record, and the rest of the range unless its callback panicked.
  unfoldable pub replay_rest :
      ℕ
      → Outcome (Pending E U)
      → (Pending E U → ℕ × Outcome (Pending E U))
      → ℕ × Outcome (Pending E U)
  replay_rest pos (Outcome.ok q) rest = rest q
  replay_rest pos (Outcome.err e) rest = (pos, err e)
  replay_rest pos Outcome.panic rest = (pos, panic)

  -- All of the visited records, with the position after the last one.
  unfoldable pub replay : ℕ → Pending E U → List (ℕ × Record E U) → ℕ × Outcome (Pending E U)
  unfolding replay_record replay_rest
  replay pos p [] = (pos, ok p)
  replay pos p ((at, rec) ∷ rest) =
      replay_rest (u64 (at + 1)) (replay_record rec p) (λ q. replay (u64 (at + 1)) q rest)

module _ {E U : Type 0} where
  unfoldable pub accepted_record : E → Record E U
  unfolding RecordBuilder.new RecordBuilder.with_command_accepted RecordBuilder.build
  accepted_record env =
      RecordBuilder.build
        (RecordBuilder.with_command_accepted (record { command = env }) RecordBuilder.new)

  unfoldable pub handled_record : CommandHandled E U → Record E U
  unfolding RecordBuilder.new RecordBuilder.with_command_handled RecordBuilder.build
  handled_record op = RecordBuilder.build (RecordBuilder.with_command_handled op RecordBuilder.new)

  -- `EventStreamId` and `EventOffset` are left unset.
  unfoldable pub appended_record : U → Record E U
  unfolding RecordBuilder.new RecordBuilder.with_events_appended_to_stream RecordBuilder.build
  appended_record id = RecordBuilder.build (
      RecordBuilder.with_events_appended_to_stream
        (record { appended_id = id; appended_stream = none; event_offset = 0 }) RecordBuilder.new)

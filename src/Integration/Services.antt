-- ===== src/Integration/Services.antt =====
-- What the supervisor calls that is not part of the repository: the set of persistencekit, the rest
-- of its journal, enginekit's packer, the application's handler, and the recorder of events.
use veracity.Base.{ℕ, ◌+◌, ◌≡◌, Bool, true, List, Option, length, Error, Outcome, ok, ◌∷◌, none, []}
use veracity.Journal.{Appended}
use veracity.EventStream.{AppendRequest, AppendResponse}

-- Records with their positions from `n` on.
abbrev pub positioned : {R : Type 0} → ℕ → List R → List (ℕ × R)
positioned n [] = []
positioned n (r ∷ rs) = (n, r) ∷ positioned (n + 1) rs

-- The journal, of which `Range` gives the records it visits, with their positions, and an error if
-- it stops early.
pub record Log (R S : Type 0) : Type 0 where
  pub records : S → List R
  pub begin : S → ℕ
  pub append : ℕ → R → S → Outcome (Unit {0}) × S
  pub bounds : S → Outcome (ℕ × ℕ) × S
  pub range : ℕ → S → (List (ℕ × R) × Option Error) × S
  pub truncate : ℕ → S → Outcome (Unit {0}) × S
  pub append-Appended :
      (p : ℕ) (r : R) (s : S)
      → Appended records (begin s + length (records s)) p r s (append p r s).0 (append p r s).1
  pub append-begin : (p : ℕ) (r : R) (s : S) → begin (append p r s).1 ≡ begin s
  pub bounds_ok :
      (s : S) (b e : ℕ)
      → (bounds s).0 ≡ ok (b, e)
      → (b ≡ begin s) × (e ≡ begin s + length (records s))
  pub bounds-records : (s : S) → records (bounds s).1 ≡ records s
  pub bounds-begin : (s : S) → begin (bounds s).1 ≡ begin s
  pub range_ok :
      (s : S)
      → (range (begin s) s).0.1 ≡ none
      → (range (begin s) s).0.0 ≡ positioned (begin s) (records s)
  pub range-records : (p : ℕ) (s : S) → records (range p s).1 ≡ records s
  pub range-begin : (p : ℕ) (s : S) → begin (range p s).1 ≡ begin s
  pub truncate_ok :
      (s : S)
      → (truncate (begin s + length (records s)) s).0 ≡ ok tt
      → (records (truncate (begin s + length (records s)) s).1 ≡ [])
        × (begin (truncate (begin s + length (records s)) s).1 ≡ begin s + length (records s))

-- The set of the accepted commands: once added, a member stays.
pub record AcceptedSet (U S : Type 0) : Type 0 where
  pub contains : S → U → Bool
  pub has : U → S → Outcome Bool × S
  pub add : U → S → Outcome (Unit {0}) × S
  pub has_ok : (u : U) (s : S) (b : Bool) → (has u s).0 ≡ ok b → b ≡ contains s u
  pub has_keeps : (u v : U) (s : S) → contains (has u s).1 v ≡ contains s v
  pub add_ok : (u : U) (s : S) → (add u s).0 ≡ ok tt → contains (add u s).1 u ≡ true
  pub add_keeps : (u v : U) (s : S) → contains s v ≡ true → contains (add u s).1 v ≡ true

-- The application and the services around it, with the state `X` of all of them. A message that
-- `Unpack` gives is a command where the type assertion holds. The handler calls `RecordEvent` for
-- each event of its list, in order, and returns.
pub record App (E U X : Type 0) : Type 1 where
  pub Message : Type 0
  pub Command : Type 0
  pub Event : Type 0
  pub unpack : E → Outcome Message
  pub as_command : Message → Option Command
  pub pack : Event → E → X → E × X
  pub handle_command : Command → X → (List Event × Outcome (Unit {0})) × X
  pub select_event_stream : X → ((Option U × ℕ) × Option Error) × X
  pub append_events : AppendRequest E (Option U) → X → Outcome AppendResponse × X

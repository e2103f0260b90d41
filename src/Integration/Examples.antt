-- ===== src/Integration/Examples.antt =====
-- A handler that records one event for each command, on storage in memory.
use veracity.Base.{
  Outcome, ℕ, ◌+◌, ◌*◌, ◌≡◌, refl, Bool, true, false, List, [], ◌∷◌, ◌++◌, none, some, length, ◌==◌,
  ==_iff, arith, ok, ◌||◌,
}
use veracity.Journal.Memory
use veracity.Journal.Memory.{Memory, healthy, fails_after, fails_before}
use veracity.EventStream.{Messages}
use veracity.Integration.{CommandHandled, Record, command_accepted, command_handled}
use veracity.Integration.Services.{positioned, Log, AcceptedSet, App}
use veracity.Integration.Supervisor.Interrupted.{one_accepted, recover-Left-Recovers}
use veracity.Integration.Supervisor.Recover.{Recovers}
use veracity.Integration.Supervisor.{Supervisor}
use veracity.Integration.Supervisor.Machine.{recover, complete}
use veracity.Integration.Supervisor.Calls.{Handles}
use veracity.Integration.Supervisor.Acting.{Delivered}
use veracity.Integration.Supervisor.Handling.{Acts}
use veracity.Integration.Supervisor.Completing.{Completes}
use veracity.Integration.Supervisor.Complete.{complete-Handles, complete-Finishes}
use veracity.Integration.Pending.{handled_record, Pending, replay, replay_record, accepted_record}
use veracity.Integration.Supervisor.Outstanding.{records_with, replay-records_with}
use veracity.Integration.Supervisor.Effects.{Finishes}

abbrev pub numbers : Messages ℕ ℕ
numbers = record { message_id = λ n. n; equal = λ a b. a == b; equal_iff = ==_iff }

pub bounds_pair :
    (x y b e : ℕ) → ◌≡◌ {A = Outcome (ℕ × ℕ)} (ok (x, y)) (ok (b, e)) → (b ≡ x) × (e ≡ y)
bounds_pair x y b e h = (cc h, cc h)

abbrev pub log : Log (Record ℕ ℕ) (Memory (Record ℕ ℕ))
log = record {
  records = λ m. m.items;
  begin = λ m. m.start;
  append = Memory.append;
  bounds = λ m. (ok (m.start, m.start + length m.items), m);
  range = λ p m. ((positioned m.start m.items, none), m);
  truncate = λ p m. (ok tt, record m { start = p; items = [] });
  append-Appended = Memory.append-Appended;
  append-begin = Memory.append-start;
  bounds_ok = λ m b e h. bounds_pair _ _ b e h;
  bounds-records = λ m. refl;
  bounds-begin = λ m. refl;
  range_ok = λ m h. refl;
  range-records = λ p m. refl;
  range-begin = λ p m. refl;
  truncate_ok = λ m h. (refl, refl);
}

unfoldable pub in_list : List ℕ → ℕ → Bool
in_list [] u = false
in_list (x ∷ xs) u = (x == u) || in_list xs u

pub in_list_front : (u : ℕ) (xs : List ℕ) → in_list (u ∷ xs) u ≡ true
unfolding in_list
in_list_front u xs = ground arith

pub in_list_has : (u : ℕ) (s : List ℕ) (b : Bool) → ok (in_list s u) ≡ ok b → b ≡ in_list s u
in_list_has u s b e = cc e

pub in_list_later : (u v : ℕ) (xs : List ℕ) → in_list xs v ≡ true → in_list (u ∷ xs) v ≡ true
unfolding in_list
in_list_later u v xs h = ground arith

abbrev pub list_set : AcceptedSet ℕ (List ℕ)
list_set = record {
  contains = in_list;
  has = λ u s. (ok (in_list s u), s);
  add = λ u s. (ok tt, u ∷ s);
  has_ok = λ u s b e. in_list_has u s b e;
  has_keeps = λ u v s. refl;
  add_ok = λ u s e. in_list_front u s;
  add_keeps = λ u v s h. in_list_later u v s h;
}

-- The state is the events that were appended to the one stream.
abbrev pub tenfold : App ℕ ℕ (List ℕ)
tenfold = record {
  Message = ℕ;
  Command = ℕ;
  Event = ℕ;
  unpack = λ e. ok e;
  as_command = λ m. some m;
  pack = λ e cause x. (e, x);
  handle_command = λ c x. ((c * 10 ∷ [], ok tt), x);
  select_event_stream = λ x. (((some 99, length x), none), x);
  append_events = λ req x. (
    ok (record {
      begin_offset = length x;
      end_offset = length x + length req.events;
      appended_by_prior_attempt = false;
    }),
    x ++ req.events,
  );
}

abbrev pub idle_supervisor : Supervisor ℕ ℕ (Memory (Record ℕ ℕ)) (List ℕ) (List ℕ)
idle_supervisor = record {
  journal_pos = 0;
  event_stream_id = none;
  event_offset_hint = 0;
  journal = record { start = 0; items = []; faults = [] };
  accepted_commands = 4 ∷ [];
  app = [];
  inputs = [];
  answers = [];
  ctx_err = none;
}

abbrev nothing_pending : Pending ℕ ℕ
nothing_pending = record { accepted = []; handled = [] }

abbrev seven_accepted : Pending ℕ ℕ
seven_accepted = record { accepted = record { command = 7 } ∷ []; handled = [] }

abbrev pub seven_handled : CommandHandled ℕ ℕ
seven_handled = record {
  command_id = 7;
  events = 70 ∷ [];
  event_stream_id = some 99;
  offset_hint = 0;
}

replay-records_with_example :
    replay numbers 3 nothing_pending (
      positioned 3 (
        records_with numbers (
          command_accepted (record { command = 7 })
          ∷ command_handled seven_handled
          ∷ command_accepted (record { command = 8 })
          ∷ [])))
    ≡ (6, ok (record { accepted = record { command = 8 } ∷ []; handled = seven_handled ∷ [] }))
replay-records_with_example =
    replay-records_with numbers 3
      (command_accepted (record { command = 7 })
        ∷ command_handled seven_handled
        ∷ command_accepted (record { command = 8 })
        ∷ [])
      ((refl, tt), (tt, tt)) (tt, tt) (omega arith)

-- A supervisor that was interrupted, by the records of its journal.
abbrev interrupted_at : List (Record ℕ ℕ) → Supervisor ℕ ℕ (Memory (Record ℕ ℕ)) (List ℕ) (List ℕ)
interrupted_at recs = record idle_supervisor {
  journal_pos = length recs;
  journal = record { start = 0; items = recs; faults = [] };
  accepted_commands = 7 ∷ [];
}

complete-Handles_example :
    Handles numbers log list_set tenfold 7 (interrupted_at (accepted_record 7 ∷ [])) (
      complete numbers log list_set tenfold seven_accepted
        (interrupted_at (accepted_record 7 ∷ [])))
    × Acts numbers log list_set tenfold 7 (interrupted_at (accepted_record 7 ∷ [])) (
        complete numbers log list_set tenfold seven_accepted
          (interrupted_at (accepted_record 7 ∷ [])))
unfolding accepted_record replay_record
complete-Handles_example =
    complete-Handles numbers log list_set tenfold 7 [] (interrupted_at (accepted_record 7 ∷ [])) tt
      tt (record { at_end = refl; pending = refl; known = tt }) (omega arith)

complete-Finishes_example :
    Finishes numbers log list_set seven_handled
      (interrupted_at (handled_record seven_handled ∷ []))
      (complete numbers log list_set tenfold
        (record { accepted = []; handled = seven_handled ∷ [] })
        (interrupted_at (handled_record seven_handled ∷ [])))
    × Delivered numbers log list_set tenfold seven_handled
        (interrupted_at (handled_record seven_handled ∷ []))
        (complete numbers log list_set tenfold
          (record { accepted = []; handled = seven_handled ∷ [] })
          (interrupted_at (handled_record seven_handled ∷ [])))
unfolding handled_record replay_record in_list
complete-Finishes_example =
    complete-Finishes numbers log list_set tenfold seven_handled []
      (interrupted_at (handled_record seven_handled ∷ [])) tt tt
      (record { at_end = refl; pending = refl; known = (refl, tt) }) (omega arith)

recover-Left-Recovers_example :
    Recovers numbers log list_set tenfold
      (Completes numbers tenfold seven_accepted [])
      (recover numbers log list_set tenfold (interrupted_at (accepted_record 7 ∷ [])))
unfolding accepted_record replay_record
recover-Left-Recovers_example =
    recover-Left-Recovers numbers log list_set tenfold (interrupted_at (accepted_record 7 ∷ []))
      seven_accepted refl (one_accepted 7 [] tt tt) tt (omega arith)

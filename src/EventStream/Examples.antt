-- ===== src/EventStream/Examples.antt =====
-- Tests and concrete instances for the event stream worker, over the journal in memory; an event is
-- its message identifier.
use veracity.Base.{
  ℕ, ◌≡◌, refl, true, false, List, [], ◌∷◌, none, some, arith, ok, external, ◌==◌, ==_iff,
}
use veracity.Fsm
use veracity.Fsm.{Exit}
use veracity.Fsm.Invariant.{Leaves}
use veracity.Journal.Memory.{
  Memory, Fault, fails_after, memory, append, last_record, scan_from_search_result,
}
use veracity.EventStream.{Messages, Record, AppendRequest, search_by_offset}
use veracity.EventStream.Stream.{stream_events}
use veracity.EventStream.Worker.{
  Worker, Input, timed_out, received, Exchange, success, append_record, is_append_of, append_events,
  new_worker, load, run,
}
use veracity.EventStream.Worker.Contract.{recs, IsReady, Fresh}
use veracity.EventStream.Worker.Append.{append_events-Meets}
use veracity.EventStream.Worker.Recovery.{Retries, first, again}
use veracity.EventStream.Worker.Retry.{retry_exactly_once}
use veracity.EventStream.Worker.Serving.{Served, ServedAll}
use veracity.EventStream.Worker.Answers.{run_answers}
use veracity.EventStream.Worker.Stale.{Unwritten, stale_worker_writes_nothing}

abbrev numbered : Messages ℕ ℕ
numbered = record { message_id = λ e. e; equal = λ a b. a == b; equal_iff = ==_iff }

abbrev journal_with : List (Record ℕ) → List Fault → Memory (Record ℕ)
journal_with rs fs = record { start = 0; items = rs; faults = fs }

abbrev two_events : Record ℕ
two_events = record {
  stream_offset_before = 0;
  stream_offset_after = 2;
  operation = some (record { events = 10 ∷ 11 ∷ [] });
}

abbrev worker_at : ℕ → ℕ → Memory (Record ℕ) → Worker ℕ ℕ (Memory (Record ℕ))
worker_at pos off s = record {
  pos = pos;
  off = off;
  store = s;
  inputs = [];
  replies = [];
  ctx_err = none;
}

abbrev request : List ℕ → ℕ → AppendRequest ℕ ℕ
request events hint = record { stream_id = 7; events = events; offset_hint = hint }

-- The second append finds the first one's record.
append_twice :
    let w =
      (append_events numbered memory
        (request (12 ∷ 13 ∷ []) 1)
        (worker_at 1 2 (journal_with (two_events ∷ []) []))).1 in
    (append_events numbered memory (request (12 ∷ []) 1) w).0
    ≡ ok (record { begin_offset = 2; end_offset = 4; appended_by_prior_attempt = true })
unfolding append_events append append_record scan_from_search_result search_by_offset is_append_of
append_twice = refl

abbrev ready_worker : List Fault → Worker ℕ ℕ (Memory (Record ℕ))
ready_worker fs = worker_at 1 2 (journal_with (two_events ∷ []) fs)

ready_worker-IsReady : (fs : List Fault) → IsReady memory (ready_worker fs)
ready_worker-IsReady fs = record {
  begins = refl;
  at_end = refl;
  off_end = refl;
  stream = omega arith;
}

append_events-Meets_example :
    Fresh memory
      (request (12 ∷ 13 ∷ []) 1)
      (ready_worker [])
      (append_events numbered memory (request (12 ∷ 13 ∷ []) 1) (ready_worker []))
append_events-Meets_example =
    append_events-Meets numbered memory (request (12 ∷ 13 ∷ []) 1) (ready_worker [])
      (ready_worker-IsReady []) (omega arith) (omega arith)

-- The first attempt writes the record and fails; a new worker reads it back.
abbrev interrupted : Worker ℕ ℕ (Memory (Record ℕ))
interrupted =
    (append_events numbered memory (request (12 ∷ 13 ∷ []) 2) (ready_worker (fails_after ∷ []))).1

abbrev second_record : Record ℕ
second_record = record {
  stream_offset_before = 2;
  stream_offset_after = 4;
  operation = some (record { events = 12 ∷ 13 ∷ [] });
}

abbrev second_worker : Worker ℕ ℕ (Memory (Record ℕ))
second_worker = worker_at 2 4 (journal_with (two_events ∷ second_record ∷ []) [])

retried :
    Retries numbered memory
      (request (12 ∷ 13 ∷ []) 2)
      (ready_worker (fails_after ∷ []))
      second_worker
unfolding append_events append append_record scan_from_search_result search_by_offset is_append_of
    load new_worker last_record
retried = again (external 1) [] first refl refl

retry_exactly_once_example :
    stream_events
      (recs memory (append_events numbered memory (request (12 ∷ 13 ∷ []) 2) second_worker).1)
    ≡ 10 ∷ 11 ∷ 12 ∷ 13 ∷ []
unfolding append_events append append_record scan_from_search_result search_by_offset is_append_of
retry_exactly_once_example =
    (retry_exactly_once numbered memory (request (12 ∷ 13 ∷ []) 2) (ready_worker (fails_after ∷ []))
      (ready_worker-IsReady (fails_after ∷ [])) (omega arith) (omega arith) (omega arith) refl
      second_worker (record { begin_offset = 2; end_offset = 4; appended_by_prior_attempt = true })
      retried refl).2

abbrev exchange : ℕ → List ℕ → Exchange ℕ ℕ
exchange c events = record { request = request events 0; response = c }

abbrev inputs : List (Input ℕ ℕ)
inputs = received (exchange 1 (12 ∷ [])) ∷ received (exchange 2 (10 ∷ [])) ∷ timed_out ∷ []

run_stops :
    run numbered memory 7 (new_worker (journal_with (two_events ∷ []) []) inputs)
    ≡ Exit.returned none
        (record (worker_at 2 3 (journal_with (two_events ∷ append_record 2 3 (12 ∷ []) ∷ []) [])) {
          replies =
              success 1
                (record { begin_offset = 2; end_offset = 3; appended_by_prior_attempt = false })
              ∷ success 2
                  (record { begin_offset = 0; end_offset = 2; appended_by_prior_attempt = true })
              ∷ [];
        })
unfolding run new_worker Fsm.start append_record append_events append scan_from_search_result
    search_by_offset is_append_of last_record Fsm.enter_state Fsm.stop
run_stops = refl

run_answers_example :
    Leaves
      (Served memory (two_events ∷ []) (1 ∷ 2 ∷ []))
      (ServedAll memory (two_events ∷ []) (1 ∷ 2 ∷ []))
      (λ _. ⊥)
      (run numbered memory 7 (new_worker (journal_with (two_events ∷ []) []) inputs))
run_answers_example =
    run_answers numbered memory (journal_with (two_events ∷ []) []) inputs 7 refl (omega arith)
      (omega arith) (omega arith) (omega arith)

stale_worker_writes_nothing_example :
    Unwritten memory (worker_at 0 0 (journal_with (two_events ∷ []) [])) (
      append_events numbered memory
        (request (12 ∷ []) 0)
        (worker_at 0 0 (journal_with (two_events ∷ []) [])))
stale_worker_writes_nothing_example =
    stale_worker_writes_nothing numbered memory (request (12 ∷ []) 0)
      (worker_at 0 0 (journal_with (two_events ∷ []) [])) (omega arith)

-- ===== src/Fsm/Examples.antt =====
-- Concrete machines: one that fails, cleans up in its final state and is told to go on once.
use veracity.Base.{
  ℕ, ◌+◌, Bool, true, false, Option, none, some, Error, external, ◌≡◌, refl, ltb, if◌then◌else◌,
}
use veracity.Fsm.{Fsm, Action, Run, done, returned, stop, fail, enter_state, loop, start}
use veracity.Fsm.Errors.{Makes, Failed, stops, fails, enters, loop_error_stays, fail_then_stop}

data Phase : Type 0 where
  working cleaning : Phase

-- The world counts the calls; the final state restarts the machine until the third call.
phases : Phase → ℕ → Run (Action Phase × ℕ)
phases working n = done (fail (external n), n + 1)
phases cleaning n = if ltb n 3 then done (enter_state working, n + 1) else done (stop, n + 1)

abbrev no_ctx_err : ℕ → Option Error
no_ctx_err n = none

cleaning-Makes :
    (b : Bool) (n : ℕ) → Makes (if b then done (enter_state working, n + 1) else done (stop, n + 1))
cleaning-Makes true n = enters working
cleaning-Makes false n = stops

phases-Makes : (p : Phase) (n : ℕ) → Makes (phases p n)
phases-Makes working n = unfold phases in fails (external n)
phases-Makes cleaning n = unfold phases in cleaning-Makes (ltb n 3) n

abbrev failed_machine : Fsm Phase
failed_machine = record { current = some cleaning; final = some cleaning; err = some (external 9) }

loop_error_stays_example : Failed (loop phases no_ctx_err 5 failed_machine 2)
loop_error_stays_example =
    loop_error_stays phases no_ctx_err phases-Makes 5 failed_machine (external 9) 2 refl

-- The machine that is restarted fails a second time, and returns the second error.
restarted_returns :
    start phases no_ctx_err 9 working (some cleaning) 0 ≡ returned (some (external 2)) 4
unfolding start phases stop fail enter_state
restarted_returns = refl

fail_then_stop_example :
    start phases no_ctx_err 4 working (some cleaning) 5 ≡ returned (some (external 5)) 7
unfolding phases
fail_then_stop_example =
    fail_then_stop phases no_ctx_err 3 working cleaning 5 6 7 (external 5) refl refl

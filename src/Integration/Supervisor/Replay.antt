-- ===== src/Integration/Supervisor/Replay.antt =====
-- `recover` reads the pending work from the journal (internal/integration/supervisor.go).
use veracity.Base.{
  ℕ, suc, ◌+◌, ◌<◌, ◌≡◌, refl, sym, ap, ◌∙◌, subst, List, [], ◌∷◌, length, arith, Error, Outcome,
  ok, err, panic, max_u64, u64, u64-eq_of_lt,
}
use veracity.EventStream.{Messages}
use veracity.Integration.{Record}
use veracity.Integration.Services.{positioned}
use veracity.Integration.Pending.{Pending, replay, replay_rest, replay_record}
use veracity.Integration.Supervisor.Progress.{pending_from}

module _ {E U : Type 0} (M : Messages E U) where
  failed_from : (e : Error) (recs : List (Record E U)) → pending_from M (err e) recs ≡ err e
  failed_from e [] = refl
  failed_from e (r ∷ rs) = failed_from e rs

  panic_from : (recs : List (Record E U)) → pending_from M panic recs ≡ panic
  panic_from [] = refl
  panic_from (r ∷ rs) = panic_from rs

  replay_rest-pending_from :
      (n : ℕ) (q : Pending E U) (rs : List (Record E U)) (o : Outcome (Pending E U))
      → n + 1 + length rs < max_u64
      → ((p : Pending E U)
          → pending_from M (ok p) rs ≡ ok q
          → replay M (n + 1) p (positioned (n + 1) rs) ≡ (n + 1 + length rs, ok q))
      → pending_from M o rs ≡ ok q
      → replay_rest M (u64 (n + 1)) o (λ p. replay M (u64 (n + 1)) p (positioned (n + 1) rs))
        ≡ (n + 1 + length rs, ok q)
  unfolding replay_rest
  replay_rest-pending_from n q rs (Outcome.ok p) room ih e =
      subst (λ k. replay M k p (positioned (n + 1) rs) ≡ (n + 1 + length rs, ok q))
        (sym (u64-eq_of_lt (n + 1) (omega arith))) (ih p e)
  replay_rest-pending_from n q rs (Outcome.err x) room ih e = cc (e, failed_from x rs)
  replay_rest-pending_from n q rs Outcome.panic room ih e = cc (e, panic_from rs)

  -- Over the whole range, the callback collects the pending operations of the records, and the
  -- position comes to the end of the journal.
  pub replay-pending_from :
      (n : ℕ) (p q : Pending E U) (recs : List (Record E U))
      → n + length recs < max_u64
      → pending_from M (ok p) recs ≡ ok q
      → replay M n p (positioned n recs) ≡ (n + length recs, ok q)
  unfolding replay
  replay-pending_from n p q [] room h = let e : n ≡ n + 0 = omega arith in cc (e, h)
  replay-pending_from n p q (r ∷ rs) room h =
      let e : n + 1 + length rs ≡ n + suc (length rs) = omega arith in
      replay_rest-pending_from n q rs (replay_record M r p) (omega (arith, room))
        (λ p' f. replay-pending_from (n + 1) p' q rs (omega (arith, room)) f) h
      ∙ ap (λ k. (k, ok q)) e

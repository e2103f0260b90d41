-- ===== src/Signaling/Closing.antt =====
-- A latch under any interleaving of goroutines (internal/signaling/latch.go).
use veracity.Base.{
  ℕ, zero, suc, ◌+◌, ◌≤◌, ◌≡◌, refl, sym, ap, subst, ◌∙◌, Bool, true, false, ◌||◌, List, [], ◌∷◌,
  if◌then◌else◌, Outcome, ok, arith,
}
use veracity.Signaling.{
  Latch, LatchStep, made, signaled, latch_swap, close_signal, latch_step, latch_next, latch_run,
  new_latch,
}

-- Whether `Signal` was called.
abbrev pub swaps : List LatchStep → Bool
swaps [] = false
swaps (LatchStep.swap ∷ rest) = true
swaps (LatchStep.close ∷ rest) = swaps rest
swaps (LatchStep.look ∷ rest) = swaps rest

abbrev count : Bool → ℕ
count true = 1
count false = 0

-- The goroutine that won the swap either has the channel still to close, or has closed it.
abbrev pub Balanced : Latch → Type 0
Balanced l = l.closing + count (made l.sig) ≡ count l.latched

-- What a run leaves: no panic, at most one goroutine that is about to close, and a channel that is
-- readable just if the latch is set and closed.
abbrev pub Holds : Bool → Outcome Latch → Type 0
Holds called (Outcome.ok l) =
    (l.latched ≡ called)
    × (l.closing ≤ 1)
    × ((signaled l).0 ≡ true → called ≡ true)
    × (called ≡ true → l.closing ≡ 0 → (signaled l).0 ≡ true)
Holds called (Outcome.err e) = ⊥
Holds called Outcome.panic = ⊥

Balanced-Holds : (l : Latch) (called : Bool) → l.latched ≡ called → Balanced l → Holds called (ok l)
unfolding signaled
Balanced-Holds l called e b = (
  e,
  bound l.latched (made l.sig) l.closing b,
  λ c. e' ∙ after l.latched (made l.sig) l.closing b c,
  λ c z. closed l.latched (made l.sig) l.closing b (e ∙ c) z,
)
  where
    e' : called ≡ l.latched
    e' = sym e

    bound : (a m : Bool) (n : ℕ) → n + count m ≡ count a → n ≤ 1
    bound true m n h = omega arith
    bound false m n h = omega arith

    after : (a m : Bool) (n : ℕ) → n + count m ≡ count a → m ≡ true → a ≡ true
    after true m n h c = refl
    after false true n h c = absurd (omega (arith, h))
    after false false n h c = cc c

    closed : (a m : Bool) (n : ℕ) → n + count m ≡ count a → a ≡ true → n ≡ 0 → m ≡ true
    closed a true n h c z = refl
    closed true false n h c z = absurd (omega (arith, h, z))
    closed false false n h c z = cc c

-- A step keeps the balance.
abbrev Steps : Bool → Outcome Latch → Type 0
Steps called (Outcome.ok l) = (l.latched ≡ called) × Balanced l
Steps called (Outcome.err e) = ⊥
Steps called Outcome.panic = ⊥

abbrev is_swap : LatchStep → Bool
is_swap LatchStep.swap = true
is_swap LatchStep.close = false
is_swap LatchStep.look = false

at_most_one : (a : Bool) → 2 ≤ count a → ⊥
at_most_one true h = absurd (omega (arith, h))
at_most_one false h = absurd (omega (arith, h))

close_signal-Steps :
    (n : ℕ) (m : Bool) (l : Latch)
    → Balanced l
    → l.closing ≡ n
    → made l.sig ≡ m
    → Steps l.latched (close_signal n m l)
unfolding close_signal
close_signal-Steps zero m l b e f = (refl, b)
close_signal-Steps (suc n) true l b e f = at_most_one l.latched (omega (arith, b, e, ap count f))
close_signal-Steps (suc n) false l b e f = (refl, unfold made in omega (arith, b, e, ap count f))

swap-Steps :
    (a : Bool) (l : Latch)
    → l.latched ≡ a
    → Balanced l
    → Steps true (ok (if a then l else record l { latched = true; closing = l.closing + 1 }))
swap-Steps true l e b = (e, b)
swap-Steps false l e b = (refl, omega (arith, b, ap count e))

latch_step-Steps :
    (s : LatchStep) (called : Bool) (l : Latch)
    → l.latched ≡ called
    → Balanced l
    → Steps (is_swap s || called) (latch_step s l)
unfolding latch_step
latch_step-Steps LatchStep.swap called l e b = unfold latch_swap in swap-Steps l.latched l refl b
latch_step-Steps LatchStep.close called l e b =
    subst (λ c. Steps c (close_signal l.closing (made l.sig) l)) e
      (close_signal-Steps l.closing (made l.sig) l b refl refl)
latch_step-Steps LatchStep.look called l e b = (e, unfold signaled made in b)

next-Holds :
    (rest : List LatchStep) (called : Bool) (o : Outcome Latch)
    → Steps called o
    → ((v : Latch)
        → v.latched ≡ called
        → Balanced v
        → Holds (swaps rest || called) (latch_run rest v))
    → Holds (swaps rest || called) (latch_next (latch_run rest) o)
unfolding latch_next
next-Holds rest called (Outcome.ok v) (e, b) k = k v e b
next-Holds rest called (Outcome.err e) h k = absurd h
next-Holds rest called Outcome.panic h k = absurd h

or_true : (a : Bool) → (a || true) ≡ true
or_true true = refl
or_true false = refl

run-Holds :
    (steps : List LatchStep) (called : Bool) (l : Latch)
    → l.latched ≡ called
    → Balanced l
    → Holds (swaps steps || called) (latch_run steps l)
unfolding latch_run
run-Holds [] called l e b = Balanced-Holds l called e b
run-Holds (LatchStep.swap ∷ rest) called l e b =
    subst (λ c. Holds c (latch_next (latch_run rest) (latch_step LatchStep.swap l)))
      (or_true (swaps rest))
      (next-Holds rest true (latch_step LatchStep.swap l)
        (latch_step-Steps LatchStep.swap called l e b) (λ v q c. run-Holds rest true v q c))
run-Holds (LatchStep.close ∷ rest) called l e b =
    next-Holds rest called (latch_step LatchStep.close l)
      (latch_step-Steps LatchStep.close called l e b) (λ v q c. run-Holds rest called v q c)
run-Holds (LatchStep.look ∷ rest) called l e b =
    next-Holds rest called (latch_step LatchStep.look l)
      (latch_step-Steps LatchStep.look called l e b) (λ v q c. run-Holds rest called v q c)

-- A new latch, under any interleaving of the steps of goroutines that signal it and look at it: no
-- close of the channel panics. Afterwards the latch is set just if one has called `Signal`, at most one
-- goroutine is about to close the channel, the channel is readable only if one has called `Signal`, and
-- it is readable if one has and none is about to close it.
pub latch_run-Holds : (steps : List LatchStep) → Holds (swaps steps) (latch_run steps new_latch)
latch_run-Holds steps =
    subst (λ c. Holds c (latch_run steps new_latch)) (or_false (swaps steps))
      (run-Holds steps false new_latch refl (unfold made in omega arith))
  where
    or_false : (a : Bool) → (a || false) ≡ a
    or_false true = refl
    or_false false = refl

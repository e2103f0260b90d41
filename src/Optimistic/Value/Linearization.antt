-- ===== src/Optimistic/Value/Linearization.antt =====
-- `Apply` acts at one moment (internal/optimistic/value.go).
use mathlib.Core.List.{flatten}
use veracity.Base.{
  ℕ, ◌+◌, ◌<◌, ◌≡◌, ◌≢◌, refl, sym, ap, ◌∙◌, subst, inl, inr, Bool, true, false, List, [], ◌∷◌,
  ◌++◌, Option, none, some, arith, ==_iff, Bool-cases,
}
use veracity.Optimistic.Value.{
  Pointer, Value, Applied, deref, load, same_pointer, publish, publish_all, attempt, apply_from,
  apply,
}

module _ {T : Type 0} where
  abbrev IsOldPointer : ℕ → Option (Pointer T) → Type 0
  IsOldPointer n none = Unit
  IsOldPointer n (some q) = q.address < n

  -- The address of the value is one that was given out.
  abbrev pub IsAllocated : Value T → Type 0
  IsAllocated v = IsOldPointer v.next v.p

  pub publish_all-append :
      (xs ys : List T) (v : Value T) → publish_all (xs ++ ys) v ≡ publish_all ys (publish_all xs v)
  unfolding publish_all
  publish_all-append [] ys v = refl
  publish_all-append (x ∷ xs) ys v = publish_all-append xs ys (publish x v)

  -- After others have published, the pointer is none of before.
  newer :
      (p : Option (Pointer T)) (n : ℕ)
      → IsOldPointer n p
      → (ts : List T) (t : T) (v : Value T) → n < v.next + 1
      → (same_pointer p (publish_all (t ∷ ts) v).p) ≡ false
  unfolding publish_all
  newer none n h [] t v lt = unfold publish in refl
  newer (some q) n h [] t v lt = unfold publish in ground arith
  newer p n h (s ∷ ts) t v lt = newer p n h ts s (publish t v) (unfold publish in omega arith)

  same_pointer_self : (p : Option (Pointer T)) → same_pointer p p ≡ true
  same_pointer_self none = refl
  same_pointer_self (some q) = (==_iff q.address q.address).1 refl

  IsAllocated-publish_all :
      (ts : List T) (v : Value T) → IsAllocated v → IsAllocated (publish_all ts v)
  unfolding publish_all
  IsAllocated-publish_all [] v h = h
  IsAllocated-publish_all (t ∷ ts) v h =
      IsAllocated-publish_all ts (publish t v) (unfold publish in omega arith)

  published-some : (t : T) (ts : List T) (v : Value T) → (publish_all (t ∷ ts) v).p ≢ none
  unfolding publish_all
  published-some t [] v e = unfold publish in cc
  published-some t (s ∷ ts) v e = published-some s ts (publish t v) e

  still_none : (ts : List T) (v : Value T) → (publish_all ts v).p ≡ none → v.p ≡ none
  still_none [] v e = unfold publish_all in e
  still_none (t ∷ ts) v e = absurd (published-some t ts v e)

  -- The value, where `before` is the zero value as long as nothing was published.
  deref-load :
      (zero_value before : T) (p : Option (Pointer T))
      → (p ≡ none → before ≡ zero_value)
      → deref before p ≡ deref zero_value p
  deref-load zero_value before none h = h refl
  deref-load zero_value before (some q) h = refl

module _ {T : Type 0} (zero_value : T) (fn : T → T × Bool) where
  -- What `Apply` returned, and the value that it left, are those of `fn` at the moment of `u`.
  abbrev pub ActsAt : Value T → T → Bool → Value T → Type 0
  ActsAt u x true v' = (fn (load zero_value u) ≡ (x, true)) × (v' ≡ publish x u)
  ActsAt u x false v' = ((fn (load zero_value u)).1 ≡ false) × (x ≡ load zero_value u) × (v' ≡ u)

  -- A moment after whole rounds of the others, from `v`.
  abbrev pub Linearized : List (List T) → Value T → Applied T → Type 0
  Linearized rounds v (Applied.returned x b v') =
      (past : List (List T)) × (rest : List (List T)) × (rounds ≡ past ++ rest)
      × ActsAt (publish_all (flatten past) v) x b v'
  Linearized rounds v (Applied.running v') = Unit

  later_round :
      (others : List T) (rounds : List (List T)) (v : Value T) (r : Applied T)
      → Linearized rounds (publish_all others v) r
      → Linearized (others ∷ rounds) v r
  unfolding flatten
  later_round others rounds v (Applied.returned x b v') (past, rest, e, h) = (
    others ∷ past,
    rest,
    ap (◌∷◌ others) e,
    subst (λ u. ActsAt u x b v') (sym (publish_all-append others (flatten past) v)) h,
  )
  later_round others rounds v (Applied.running v') h = tt

  attempt-Linearized :
      (before : T) (o : T × Bool) (others : List T) (rounds : List (List T)) (v : Value T)
      (again : Value T → Applied T)
      → IsAllocated v
      → before ≡ load zero_value v
      → o ≡ fn before
      → Linearized rounds (publish_all others v) (again (publish_all others v))
      → Linearized (others ∷ rounds) v (attempt before o v.p others v again)
  unfolding attempt flatten
  attempt-Linearized before (after, false) others rounds v again a b e ih = (
    [],
    others ∷ rounds,
    refl,
    unfold publish_all in (ap (λ (x : T × Bool). x.1) (ap fn (sym b) ∙ sym e), b, refl),
  )
  attempt-Linearized before (after, true) [] rounds v again a b e ih =
      rw (same_pointer_self v.p) ([], [] ∷ rounds, refl, (ap fn (sym b) ∙ sym e, refl))
  attempt-Linearized before (after, true) (t ∷ ts) rounds v again a b e ih =
      rw (newer v.p v.next a ts t v (omega arith)) (later_round (t ∷ ts) rounds v _ ih)

  apply_from-Linearized :
      (rounds : List (List T)) (before : T) (v : Value T)
      → IsAllocated v
      → (v.p ≡ none → before ≡ zero_value)
      → Linearized rounds v (apply_from fn before rounds v)
  unfolding apply_from
  apply_from-Linearized [] before v a b = tt
  apply_from-Linearized (others ∷ rounds) before v a b =
      attempt-Linearized (deref before v.p) (fn (deref before v.p)) others rounds v _ a
        (unfold load in deref-load zero_value before v.p b) refl
        (apply_from-Linearized rounds (deref before v.p) (publish_all others v)
          (IsAllocated-publish_all others v a)
          (λ e. let e' = still_none others v e in rw e' (b e')))

  -- Whatever the other goroutines publish in each round: where `Apply` returns, there is a moment,
  -- after some of their rounds, at which it acted: `fn` of the value at that moment said to modify
  -- it and the value was replaced at that moment by the one that is returned, or `fn` said not to
  -- and nothing was changed. No publication of the others is lost.
  pub apply-Linearized :
      (rounds : List (List T)) (v : Value T)
      → IsAllocated v
      → Linearized rounds v (apply zero_value fn rounds v)
  unfolding apply
  apply-Linearized rounds v a = apply_from-Linearized rounds zero_value v a (λ e. refl)

  abbrev pub Returns : Applied T → Type 0
  Returns (Applied.returned x b v') = Unit
  Returns (Applied.running v') = ⊥

  attempt-Returns :
      (before : T) (o : T × Bool) (v : Value T) (again : Value T → Applied T)
      → Returns (attempt before o v.p [] v again)
  unfolding attempt
  attempt-Returns before (after, false) v again = tt
  attempt-Returns before (after, true) v again = rw (same_pointer_self v.p) tt

  attempt_again-Returns :
      (before : T) (o : T × Bool) (others : List T) (v : Value T) (again : Value T → Applied T)
      → ((v' : Value T) → Returns (again v'))
      → Returns (attempt before o v.p others v again)
  unfolding attempt
  attempt_again-Returns before (after, false) others v again h = tt
  attempt_again-Returns before (after, true) others v again h =
      elim (Bool-cases (same_pointer v.p (publish_all others v).p)) [
        | inl same ↦ rw same tt
        | inr other ↦ rw other (h (publish_all others v))
      ]

  apply_from-Returns :
      (past rest : List (List T)) (before : T) (v : Value T)
      → Returns (apply_from fn before (past ++ [] ∷ rest) v)
  unfolding apply_from
  apply_from-Returns [] rest before v = attempt-Returns _ _ v _
  apply_from-Returns (others ∷ past) rest before v =
      attempt_again-Returns _ _ others v _ (apply_from-Returns past rest (deref before v.p))

  -- The loop is lock-free: it returns at the latest in the first round in which nobody else
  -- publishes, whatever `fn` does.
  pub apply-Returns :
      (past rest : List (List T)) (v : Value T)
      → Returns (apply zero_value fn (past ++ [] ∷ rest) v)
  unfolding apply
  apply-Returns past rest v = apply_from-Returns past rest zero_value v

-- ===== src/Maps/Assoc.antt =====
-- An association list as a map: it shows that the laws of the interface can be met, and the tests run
-- on it. A key stands once.
use veracity.Base.{
  ℕ, ◌+◌, ◌≡◌, refl, subst, ◌∙◌, false, List, [], ◌∷◌, none, some, length, arith, if◌then◌else◌,
  Bool-cases, inl, inr, ◌==◌, ==_iff,
}
use veracity.Maps.{Keys, Map, find, Distinct, equal_self, same_key}

module _ {K V : Type 0} (Q : Keys K) where
  unfoldable pub insert : K → V → List (K × V) → List (K × V)
  insert k v [] = (k, v) ∷ []
  insert k v ((j, w) ∷ rest) = if Q.equal j k then (k, v) ∷ rest else (j, w) ∷ insert k v rest

  -- Every pair with the key goes.
  unfoldable pub erase : K → List (K × V) → List (K × V)
  erase k [] = []
  erase k ((j, w) ∷ rest) = if Q.equal j k then erase k rest else (j, w) ∷ erase k rest

  pub find-insert :
      (k j : K) (v : V) (l : List (K × V))
      → find Q.equal k (insert j v l) ≡ (if Q.equal j k then some v else find Q.equal k l)
  unfolding insert
  find-insert k j v [] = refl
  find-insert k j v ((i, w) ∷ rest) = elim (Bool-cases (Q.equal i j)) [
    | inl t ↦ let e : i ≡ j = same_key Q i j t in ground (arith, t, e)
    | inr f ↦ elim (Bool-cases (Q.equal i k)) [
      | inl s ↦
          let e : i ≡ k = same_key Q i k s in
          elim (Bool-cases (Q.equal j k)) [
            | inl q ↦ let d : j ≡ k = same_key Q j k q in cc (f, d)
            | inr n ↦ rw (f, s, n) refl
          ]
      | inr n ↦ rw (f, n) (find-insert k j v rest)
    ]
  ]

  pub find-erase :
      (k j : K) (l : List (K × V))
      → find Q.equal k (erase j l) ≡ (if Q.equal j k then none else find Q.equal k l)
  unfolding erase
  find-erase k j [] = ground arith
  find-erase k j ((i, w) ∷ rest) = elim (Bool-cases (Q.equal i j)) [
    | inl t ↦ let e : i ≡ j = same_key Q i j t in rw t (ground (arith, e, find-erase k j rest))
    | inr f ↦ elim (Bool-cases (Q.equal i k)) [
      | inl s ↦
          let e : i ≡ k = same_key Q i k s in
          elim (Bool-cases (Q.equal j k)) [
            | inl q ↦ let d : j ≡ k = same_key Q j k q in cc (f, d)
            | inr n ↦ rw (f, s, n) refl
          ]
      | inr n ↦ rw (f, n) (find-erase k j rest)
    ]
  ]

  pub Distinct-insert :
      (k : K) (v : V) (l : List (K × V)) → Distinct Q l → Distinct Q (insert k v l)
  unfolding insert
  Distinct-insert k v [] d = (refl, tt)
  Distinct-insert k v ((j, w) ∷ rest) d = elim (Bool-cases (Q.equal j k)) [
    | inl t ↦ rw t (subst (λ i. find Q.equal i rest ≡ none) (same_key Q j k t) d.0, d.1)
    | inr f ↦ rw f (find-insert j k v rest ∙ other k j f rest d.0, Distinct-insert k v rest d.1)
  ]
    where
      other :
          (k j : K)
          → Q.equal j k ≡ false
          → (l : List (K × V)) → find Q.equal j l ≡ none
          → (if Q.equal k j then some v else find Q.equal j l) ≡ none
      other k j f l h = elim (Bool-cases (Q.equal k j)) [
        | inl t ↦ let e : k ≡ j = same_key Q k j t in cc (f, e, equal_self Q j)
        | inr n ↦ rw n h
      ]

  pub Distinct-erase : (k : K) (l : List (K × V)) → Distinct Q l → Distinct Q (erase k l)
  unfolding erase
  Distinct-erase k [] d = tt
  Distinct-erase k ((j, w) ∷ rest) d = elim (Bool-cases (Q.equal j k)) [
    | inl t ↦ rw t (Distinct-erase k rest d.1)
    | inr f ↦ rw f (find-erase j k rest ∙ ground (arith, d.0), Distinct-erase k rest d.1)
  ]

  pub length-insert :
      (k : K) (v : V) (l : List (K × V))
      → find Q.equal k l ≡ none
      → length (insert k v l) ≡ length l + 1
  unfolding insert
  length-insert k v [] h = omega arith
  length-insert k v ((j, w) ∷ rest) h = ground (arith, length-insert k v rest)

  erase-none : (k : K) (l : List (K × V)) → find Q.equal k l ≡ none → length (erase k l) ≡ length l
  unfolding erase
  erase-none k [] h = refl
  erase-none k ((j, w) ∷ rest) h = ground (arith, erase-none k rest)

  pub length-erase :
      (k : K) (v : V) (l : List (K × V))
      → Distinct Q l
      → find Q.equal k l ≡ some v
      → length (erase k l) + 1 ≡ length l
  unfolding erase
  length-erase k v [] d h = cc
  length-erase k v ((j, w) ∷ rest) d h = elim (Bool-cases (Q.equal j k)) [
    | inl t ↦
        let e : find Q.equal k rest ≡ none =
          subst (λ i. find Q.equal i rest ≡ none) (same_key Q j k t) d.0 in
        rw t (omega (arith, erase-none k rest e))
    | inr f ↦
        let h' : find Q.equal k rest ≡ some v = ground arith in
        rw f (omega (arith, length-erase k v rest d.1 h'))
  ]

module _ {K : Type 0} (Q : Keys K) (V : Type 0) where
  abbrev pub AssocMap : Type 0
  AssocMap = (l : List (K × V)) × Distinct Q l

  abbrev pub assoc : Map Q V AssocMap
  assoc = record {
    empty = ([], tt);
    try_get = λ k s. find Q.equal k s.0;
    set = λ k v s. (insert Q k v s.0, Distinct-insert Q k v s.0 s.1);
    remove = λ k s. (erase Q k s.0, Distinct-erase Q k s.0 s.1);
    len = λ s. length s.0;
    all = λ s. s.0;
    get-empty = λ k. refl;
    get-set = λ k j v s. find-insert Q k j v s.0;
    get-remove = λ k j s. find-erase Q k j s.0;
    len-empty = refl;
    len-set = λ k v s h. length-insert Q k v s.0 h;
    len-remove = λ k v s h. length-erase Q k v s.0 s.1 h;
    find-all = λ k s. refl;
    Distinct-all = λ s. s.1;
  }

-- Numbers as keys, for the tests.
abbrev pub number_keys : Keys ℕ
number_keys = record { equal = λ a b. a == b; equal_iff = ==_iff }

-- ===== src/Journal/Memory.antt =====
-- A journal in memory that fails on a schedule: it shows that the laws of the interface can be met,
-- and the tests run on it.
use veracity.Base.{
  ℕ, ◌+◌, ◌≡◌, refl, sym, ap, inl, Bool, true, false, List, [], ◌∷◌, ◌++◌, Option, none, some,
  Ordering, length, All, arith, Outcome, ok, err, not_found, external, ◌==◌, ==_iff, ◌∙◌, subst,
}
use native.Mathlib.Nat.{add-zero}
use veracity.Journal.{Journal, scan, Appended, written, refused, unsure, Last, empty, at_end}

-- The fate of the next append; without faults left, appends succeed.
pub data Fault : Type 0 where
  healthy : Fault
  fails_before : Fault
  fails_after : Fault

pub record Memory (R : Type 0) : Type 0 where
  pub start : ℕ
  pub items : List R
  pub faults : List Fault

abbrev next_fault : List Fault → Fault
next_fault [] = healthy
next_fault (f ∷ fs) = f

abbrev later_faults : List Fault → List Fault
later_faults [] = []
later_faults (f ∷ fs) = fs

module _ {R : Type 0} where
  -- The first argument says whether the position is the end of the journal.
  write : Bool → Fault → R → Memory R → Outcome (Unit {0}) × Memory R
  write false f r m = (err (external 2), m)
  write true healthy r m =
      (ok tt, record m { items = m.items ++ r ∷ []; faults = later_faults m.faults })
  write true fails_before r m = (err (external 1), record m { faults = later_faults m.faults })
  write true fails_after r m =
      (err (external 1), record m { items = m.items ++ r ∷ []; faults = later_faults m.faults })

  unfoldable pub append : ℕ → R → Memory R → Outcome (Unit {0}) × Memory R
  unfolding write
  append p r m = write (p == (m.start + length m.items)) (next_fault m.faults) r m

  write-Appended :
      (p : ℕ) (r : R) (s : Memory R) (b : Bool) (f : Fault)
      → (b ≡ true → p ≡ s.start + length s.items)
      → Appended
          (λ (m : Memory R). m.items)
          (s.start + length s.items)
          p
          r
          s
          (write b f r s).0
          (write b f r s).1
  unfolding write
  write-Appended p r s false f h = refused (external 2) refl
  write-Appended p r s true healthy h = written (h refl) refl
  write-Appended p r s true fails_before h = refused (external 1) refl
  write-Appended p r s true fails_after h = unsure (external 1) (h refl) refl

  pub append-Appended :
      (p : ℕ) (r : R) (s : Memory R)
      → Appended
          (λ (m : Memory R). m.items)
          (s.start + length s.items)
          p
          r
          s
          (append p r s).0
          (append p r s).1
  unfolding append
  append-Appended p r s = write-Appended p r s _ (next_fault s.faults) (==_iff p _).0

  pub append-start : (p : ℕ) (r : R) (s : Memory R) → (append p r s).1.start ≡ s.start
  unfolding append
  append-start p r s = write-start (p == (s.start + length s.items)) (next_fault s.faults)
    where
      write-start : (b : Bool) (f : Fault) → (write b f r s).1.start ≡ s.start
      write-start false f = refl
      write-start true healthy = refl
      write-start true fails_before = refl
      write-start true fails_after = refl

  last_of : ℕ → List R → Option (ℕ × R)
  last_of p [] = none
  last_of p (r ∷ []) = some (p, r)
  last_of p (r ∷ q ∷ rs) = last_of (p + 1) (q ∷ rs)

  unfoldable pub last_record : Memory R → Outcome (Option (ℕ × R)) × Memory R
  unfolding last_of
  last_record m = (ok (last_of m.start m.items), m)

  search_scan : (R → Ordering) → (R → Outcome (Option R)) → List R → Outcome R
  unfolding scan
  search_scan cmp f [] = err not_found
  search_scan cmp f (r ∷ rs) = elim (cmp r) [
    | Ordering.eq ↦ scan f (r ∷ rs)
    | _ ↦ search_scan cmp f rs
  ]

  unfoldable pub scan_from_search_result :
      ℕ → ℕ → (R → Ordering) → (R → Outcome (Option R)) → Memory R → Outcome R × Memory R
  unfolding search_scan
  scan_from_search_result b e cmp f m = (search_scan cmp f m.items, m)

  -- The records before the last one, and the last one.
  last_of-append :
      (p : ℕ) (r : R) (rs : List R)
      → (qs : List R) × (q : R) × (r ∷ rs ≡ qs ++ q ∷ [])
        × (last_of p (r ∷ rs) ≡ some (p + length qs, q))
  unfolding last_of
  last_of-append p r [] = ([], r, refl, cc (add-zero p))
  last_of-append p r (x ∷ rs) =
      let (qs, q, e, l) = last_of-append (p + 1) x rs in
      (r ∷ qs, q, ap (◌∷◌ r) e, ground (arith, l))

  pub last_record-Last :
      (s : Memory R) → Last (λ (m : Memory R). m.items) s.start s (last_record s).0
  unfolding last_record
  last_record-Last s = go s.items refl
    where
      go :
          (rs : List R)
          → s.items ≡ rs
          → Last (λ (m : Memory R). m.items) s.start s (ok (last_of s.start rs))
      go [] e = empty e
      go (r ∷ rs) e =
          let (qs, q, e', l) = last_of-append s.start r rs in
          subst (λ o. Last (λ (m : Memory R). m.items) s.start s (ok o)) (sym l)
            (at_end qs q (e ∙ e'))

  search_scan-hit :
      (cmp : R → Ordering) (f : R → Outcome (Option R)) (xs ys : List R) (r : R)
      → All (λ x. cmp x ≡ Ordering.lt) xs
      → cmp r ≡ Ordering.eq
      → search_scan cmp f (xs ++ r ∷ ys) ≡ scan f (r ∷ ys)
  unfolding search_scan
  search_scan-hit cmp f [] ys r h e = ground arith
  search_scan-hit cmp f (x ∷ xs) ys r h e = ground (arith, search_scan-hit cmp f xs ys r h.1 e)

  pub scan_hit-memory :
      (b e : ℕ) (cmp : R → Ordering) (f : R → Outcome (Option R)) (s : Memory R) (xs ys : List R)
      (r : R)
      → s.items ≡ xs ++ r ∷ ys
      → All (λ x. cmp x ≡ Ordering.lt) xs
      → cmp r ≡ Ordering.eq
      → (scan_from_search_result b e cmp f s).0 ≡ scan f (r ∷ ys)
  unfolding scan_from_search_result
  scan_hit-memory b e cmp f s xs ys r p l q =
      ap (search_scan cmp f) p ∙ search_scan-hit cmp f xs ys r l q

  -- Records are read in place.
  pub scan-items :
      (b e : ℕ) (cmp : R → Ordering) (f : R → Outcome (Option R)) (s : Memory R)
      → (scan_from_search_result b e cmp f s).1 ≡ s
  unfolding scan_from_search_result
  scan-items b e cmp f s = refl

  pub last-items : (s : Memory R) → (last_record s).1 ≡ s
  unfolding last_record
  last-items s = refl

  abbrev pub memory : Journal R (Memory R)
  memory = record {
    records = λ m. m.items;
    begin = λ m. m.start;
    append = append;
    last_record = last_record;
    scan_from_search_result = scan_from_search_result;
    append-Appended = append-Appended;
    append-begin = append-start;
    last_record-Last = last_record-Last;
    last-records = λ s. ap (λ (m : Memory R). m.items) (last-items s);
    last-begin = λ s. ap (λ (m : Memory R). m.start) (last-items s);
    scan-records = λ b e cmp f s. ap (λ (m : Memory R). m.items) (scan-items b e cmp f s);
    scan-begin = λ b e cmp f s. ap (λ (m : Memory R). m.start) (scan-items b e cmp f s);
    scan_hit = λ b e cmp f s xs ys r _ _ p l q _. inl (scan_hit-memory b e cmp f s xs ys r p l q);
  }

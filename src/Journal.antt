-- ===== src/Journal.antt =====
-- The journals of persistencekit, which are not part of the repository: an interface with the
-- operations that the sources call and the documented behaviour that they rely on.
pub mod Memory
use veracity.Base.{
  ℕ, ◌+◌, ◌≤◌, ◌<◌, ◌≡◌, ◌⊎◌, ◌++◌, ◌∷◌, [], List, Option, none, some, Ordering, length, All, Error,
  Outcome, ok, err, panic, not_found, external,
}

-- A scan of the records in order, as `Scan` and the second half of `ScanFromSearchResult` do it.
unfoldable pub scan {ℓ} : {R : Type ℓ} → (R → Outcome (Option R)) → List R → Outcome R
scan f [] = err not_found
scan f (r ∷ rs) = elim (f r) [
  | ok (some x) ↦ ok x
  | ok none ↦ scan f rs
  | err e ↦ err e
  | panic ↦ panic
]

-- What an append may do: succeed at the end of the journal, or fail, before or after the record was
-- written. It never writes at another position.
pub data Appended {R S : Type 0} (records : S → List R) (end p : ℕ) (r : R) (s : S)
    : Outcome (Unit {0}) → S → Type 0 where
  written :
      {s' : S} → p ≡ end → records s' ≡ records s ++ r ∷ [] → Appended records end p r s (ok tt) s'
  refused : {s' : S} (e : Error) → records s' ≡ records s → Appended records end p r s (err e) s'
  unsure :
      {s' : S} (e : Error)
      → p ≡ end
      → records s' ≡ records s ++ r ∷ []
      → Appended records end p r s (err e) s'

-- The last record, with its position, or an error of the storage.
pub data Last {R S : Type 0} (records : S → List R) (begin : ℕ) (s : S)
    : Outcome (Option (ℕ × R)) → Type 0 where
  empty : records s ≡ [] → Last records begin s (ok none)
  at_end :
      (rs : List R) (r : R)
      → records s ≡ rs ++ r ∷ []
      → Last records begin s (ok (some (begin + length rs, r)))
  failed : (n : ℕ) → Last records begin s (err (external n))

pub record Journal (R S : Type 0) : Type 0 where
  -- The records from the position `begin` on; `begin` moves when the journal is truncated.
  pub records : S → List R
  pub begin : S → ℕ
  pub append : ℕ → R → S → Outcome (Unit {0}) × S
  pub last_record : S → Outcome (Option (ℕ × R)) × S
  pub scan_from_search_result :
      ℕ → ℕ → (R → Ordering) → (R → Outcome (Option R)) → S → Outcome R × S
  pub append-Appended :
      (p : ℕ) (r : R) (s : S)
      → Appended records (begin s + length (records s)) p r s (append p r s).0 (append p r s).1
  pub append-begin : (p : ℕ) (r : R) (s : S) → begin (append p r s).1 ≡ begin s
  pub last_record-Last : (s : S) → Last records (begin s) s (last_record s).0
  pub last-records : (s : S) → records (last_record s).1 ≡ records s
  pub last-begin : (s : S) → begin (last_record s).1 ≡ begin s
  pub scan-records :
      (b e : ℕ) (cmp : R → Ordering) (f : R → Outcome (Option R)) (s : S)
      → records (scan_from_search_result b e cmp f s).1 ≡ records s
  pub scan-begin :
      (b e : ℕ) (cmp : R → Ordering) (f : R → Outcome (Option R)) (s : S)
      → begin (scan_from_search_result b e cmp f s).1 ≡ begin s
  -- A search over the whole journal, ordered by `cmp` with one record that compares equal, scans
  -- from that record on, unless the storage fails.
  pub scan_hit :
      (b e : ℕ) (cmp : R → Ordering) (f : R → Outcome (Option R)) (s : S) (xs ys : List R) (r : R)
      → b ≡ begin s
      → e ≡ begin s + length (records s)
      → records s ≡ xs ++ r ∷ ys
      → All (λ x. cmp x ≡ Ordering.lt) xs
      → cmp r ≡ Ordering.eq
      → All (λ x. cmp x ≡ Ordering.gt) ys
      → ((scan_from_search_result b e cmp f s).0 ≡ scan f (r ∷ ys))
        ⊎ ((n : ℕ) × ((scan_from_search_result b e cmp f s).0 ≡ err (external n)))

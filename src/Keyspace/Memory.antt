-- ===== src/Keyspace/Memory.antt =====
-- A keyspace in memory: it shows that the laws of the interface can be met, and the tests run on it.
use veracity.Base.{◌≡◌, refl, Option, none, some, if◌then◌else◌, Error, Outcome, ok, err, panic}
use veracity.Maps.{Keys, find, visited}
use veracity.Maps.Assoc.{
  AssocMap, insert, erase, Distinct-insert, Distinct-erase, find-insert, find-erase,
}
use veracity.Keyspace.{Keyspace}

module _ {K V : Type 0} (Q : Keys K) where
  unfoldable pub write : K → Option V → AssocMap Q V → AssocMap Q V
  write k none s = (erase Q k s.0, Distinct-erase Q k s.0 s.1)
  write k (some v) s = (insert Q k v s.0, Distinct-insert Q k v s.0 s.1)

  pub find-write :
      (k j : K) (v : Option V) (s : AssocMap Q V)
      → find Q.equal j (write k v s).0 ≡ (if Q.equal k j then v else find Q.equal j s.0)
  unfolding write
  find-write k j none s = find-erase Q j k s.0
  find-write k j (some v) s = find-insert Q j k v s.0

module _ {K : Type 0} (Q : Keys K) (V : Type 0) where
  pub get_memory : (o v : Option V) → ok o ≡ ok v → v ≡ o
  get_memory o v e = cc e

  pub set_memory : {A : Type 0} (e : Error) → ◌≡◌ {A = Outcome (Unit {0})} (ok tt) (err e) → A
  set_memory e h = cc h

  pub set_memory_returns : ◌≡◌ {A = Outcome (Unit {0})} (ok tt) panic → ⊥
  set_memory_returns h = cc h

  abbrev pub memory : Keyspace Q V (AssocMap Q V)
  memory = record {
    value = λ s k. find Q.equal k s.0;
    get = λ k s. (ok (find Q.equal k s.0), s);
    set = λ k v s. (ok tt, write Q k v s);
    range = λ s. ((s.0, none), s);
    get_ok = λ k s v e. get_memory _ v e;
    get_keeps = λ k j s. refl;
    set_ok = λ k j v s e. find-write Q k j v s;
    set_err = λ k v s e h. set_memory e h;
    set_returns = λ k v s h. set_memory_returns h;
    range_visits = λ s. visited Q s.0 s.1;
    range_distinct = λ s. s.1;
    range_all = λ s h k v e. e;
    range_keeps = λ j s. refl;
  }

-- ===== src/EventStream/Supervisor/Tracking.antt =====
-- The map of workers is the map of the goroutines that have not sent their result
-- (internal/eventstream/supervisor.go).
use veracity.Base.{
  ℕ, zero, suc, ◌≡◌, refl, sym, ap, subst, ◌∙◌, inl, inr, List, [], ◌∷◌, ◌++◌, none, some, length,
  get_elem?, All, All-append, arith, if◌then◌else◌, Bool-cases, length-append,
}
use veracity.Maps.{Keys, Map, find, Distinct, same_key}
use veracity.EventStream.Supervisor.{Sent, to_worker, to_client}
use veracity.EventStream.Supervisor.Picking.{
  Picked, All-Picked, length-Picked, find-Picked, find-Picked_self, Distinct-Picked, find-snoc,
  Distinct-snoc,
}

pub get_elem?-append_some :
    {A : Type 0} (xs ys : List A) (n : ℕ) (a : A)
    → get_elem? xs n ≡ some a
    → get_elem? (xs ++ ys) n ≡ some a
get_elem?-append_some [] ys n a h = cc
get_elem?-append_some (x ∷ xs) ys zero a h = h
get_elem?-append_some (x ∷ xs) ys (suc n) a h = get_elem?-append_some xs ys n a h

pub get_elem?-append_last :
    {A : Type 0} (xs : List A) (a : A) → get_elem? (xs ++ a ∷ []) (length xs) ≡ some a
get_elem?-append_last [] a = refl
get_elem?-append_last (x ∷ xs) a = get_elem?-append_last xs a

module _ {E U : Type 0} where
  -- An exchange goes to a worker of its own stream.
  abbrev pub IsRouted : List U → Sent E U → Type 0
  IsRouted started (to_worker n ex) = get_elem? started n ≡ some ex.request.stream_id
  IsRouted started (to_client r) = Unit

  pub All-IsRouted :
      (started : List U) (id : U) (sent : List (Sent E U))
      → All (IsRouted started) sent
      → All (IsRouted (started ++ id ∷ [])) sent
  All-IsRouted started id [] a = tt
  All-IsRouted started id (to_worker n ex ∷ sent) a =
      (get_elem?-append_some started _ n _ a.0, All-IsRouted started id sent a.1)
  All-IsRouted started id (to_client r ∷ sent) a = (tt, All-IsRouted started id sent a.1)

-- A goroutine's number is the place of its stream among those that were started.
abbrev pub IsNumbered : {U : Type 0} → List U → U × ℕ → Type 0
IsNumbered started p = get_elem? started p.1 ≡ some p.0

All-IsNumbered :
    {U : Type 0} (started : List U) (id : U) (live : List (U × ℕ))
    → All (IsNumbered started) live
    → All (IsNumbered (started ++ id ∷ [])) live
All-IsNumbered started id [] a = tt
All-IsNumbered started id (p ∷ live) a =
    (get_elem?-append_some started _ p.1 _ a.0, All-IsNumbered started id live a.1)

find-IsNumbered :
    {U : Type 0} (Q : Keys U) (started : List U) (k : U) (n : ℕ) (live : List (U × ℕ))
    → All (IsNumbered started) live
    → find Q.equal k live ≡ some n
    → get_elem? started n ≡ some k
find-IsNumbered Q started k n [] a h = cc
find-IsNumbered Q started k n (p ∷ live) a h = elim (Bool-cases (Q.equal p.0 k)) [
  | inl t ↦
      let e : p.1 ≡ n = cc (h, ap (λ b. if b then some p.1 else find Q.equal k live) t) in
      subst (λ m. get_elem? started m ≡ some k) e (a.0 ∙ ap some (same_key Q p.0 k t))
  | inr f ↦
      find-IsNumbered Q started k n live a.1
        (sym (ap (λ b. if b then some p.1 else find Q.equal k live) f) ∙ h)
]

module _ {U Ws : Type 0} {Q : Keys U} (W : Map Q ℕ Ws) where
  -- One goroutine at most runs for a stream; the map has the worker of each that runs, and no other.
  pub record Tracks (workers : Ws) (live : List (U × ℕ)) (started : List U) : Type 0 where
    pub tracks : (id : U) → W.try_get id workers ≡ find Q.equal id live
    pub distinct : Distinct Q live
    pub counted : W.len workers ≡ length live
    pub numbered : All (IsNumbered started) live

  pub Tracks-empty : Tracks W.empty [] []
  Tracks-empty = record {
    tracks = λ id. W.get-empty id;
    distinct = tt;
    counted = W.len-empty;
    numbered = tt;
  }

  pub Tracks-Picked :
      {x : U × ℕ} {rest live : List (U × ℕ)} {workers : Ws} {started : List U}
      → Picked x rest live
      → Tracks workers live started
      → Tracks (W.remove x.0 workers) rest started
  Tracks-Picked {x} {rest} {live} {workers} p t = record {
    tracks = λ id.
        W.get-remove id x.0 workers
        ∙ ap (λ o. if Q.equal x.0 id then none else o) (t.tracks id)
        ∙ sym (find-Picked Q p id t.distinct);
    distinct = Distinct-Picked Q p t.distinct;
    counted = omega (
      arith,
      W.len-remove x.0 x.1 workers (t.tracks x.0 ∙ find-Picked_self Q p t.distinct),
      length-Picked p,
      t.counted,
    );
    numbered = All-Picked _ p t.numbered;
  }

  pub Tracks-opened :
      (id : U) {live : List (U × ℕ)} {workers : Ws} {started : List U}
      → W.try_get id workers ≡ none
      → Tracks workers live started
      → Tracks
          (W.set id (length started) workers)
          (live ++ (id, length started) ∷ [])
          (started ++ id ∷ [])
  Tracks-opened id {live} {workers} {started} none_yet t =
      let absent : find Q.equal id live ≡ none = sym (t.tracks id) ∙ none_yet in
      record {
        tracks = λ k.
            W.get-set k id (length started) workers
            ∙ ap (λ o. if Q.equal id k then some (length started) else o) (t.tracks k)
            ∙ sym (find-snoc Q k (id, length started) live absent);
        distinct = Distinct-snoc Q (id, length started) live absent t.distinct;
        counted = omega (
          arith,
          W.len-set id (length started) workers none_yet,
          t.counted,
          length-append {0} live ((id, length started) ∷ []),
        );
        numbered =
            All-append _ live _ (All-IsNumbered started id live t.numbered)
              (get_elem?-append_last started id, tt);
      }

  -- The worker that the map has for a stream is a worker of that stream.
  pub get-IsNumbered :
      (id : U) (n : ℕ) {live : List (U × ℕ)} {workers : Ws} {started : List U}
      → W.try_get id workers ≡ some n
      → Tracks workers live started
      → get_elem? started n ≡ some id
  get-IsNumbered id n {live} {started = started} h t =
      find-IsNumbered Q started id n live t.numbered (sym (t.tracks id) ∙ h)

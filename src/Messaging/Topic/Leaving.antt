-- ===== src/Messaging/Topic/Leaving.antt =====
-- What `Unsubscribe` leaves (internal/messaging/topic.go).
use veracity.Base.{
  ℕ, zero, suc, ◌+◌, ◌-◌, ◌==◌, ◌≡◌, refl, sym, ap, ◌∙◌, false, true, List, [], ◌∷◌, ◌++◌, Option,
  none, some, length, get_or, set, take, All, All-append, arith, length-append, append_assoc,
  append-nil, take-append, ==_iff,
}
use veracity.Messaging.Topic.{Subscriber, Topic, Sweep, sweep_at, sweep, unsubscribe, subscribe}

module _ {A : Type 0} where
  get_or-at : (xs ys : List A) (x d : A) → get_or (xs ++ x ∷ ys) (length xs) d ≡ x
  get_or-at [] ys x d = refl
  get_or-at (a ∷ xs) ys x d = get_or-at xs ys x d

  set-at : (xs ys : List A) (x v : A) → set (xs ++ x ∷ ys) (length xs) v ≡ xs ++ v ∷ ys
  set-at [] ys x v = refl
  set-at (a ∷ xs) ys x v = ap (◌∷◌ a) (set-at xs ys x v)

-- Not subscribed to the channel.
abbrev pub IsOther : ℕ → Option Subscriber → Type 0
IsOther ch none = Unit
IsOther ch (some sub) = (sub.messages == ch) ≡ false

sweep_at-other :
    (ch i : ℕ) (o : Option Subscriber) (w : Sweep) → IsOther ch o → sweep_at ch i o w ≡ w
unfolding sweep_at
sweep_at-other ch i none w h = refl
sweep_at-other ch i (some sub) w h = rw h refl

-- Rounds over other subscribers change nothing.
sweep-others :
    (ch : ℕ) (xs ys zs : List (Option Subscriber)) (w : Sweep)
    → w.array ≡ xs ++ (ys ++ zs)
    → All (IsOther ch) ys
    → sweep ch (length ys) (length xs) w ≡ w
unfolding sweep
sweep-others ch xs [] zs w e h = refl
sweep-others ch xs (y ∷ ys) zs w e (a, h) =
    let g : get_or w.array (length xs) none ≡ y =
      ap (λ l. get_or l (length xs) none) e ∙ get_or-at xs (ys ++ zs) y none in
    let n : length xs + 1 ≡ length (xs ++ y ∷ []) = omega (arith, length-append xs (y ∷ [])) in
    ap (λ o. sweep ch (length ys) (length xs + 1) (sweep_at ch (length xs) o w)) g
    ∙ ap (sweep ch (length ys) (length xs + 1)) (sweep_at-other ch (length xs) y w a)
    ∙ ap (λ i. sweep ch (length ys) i w) n
    ∙ sweep-others ch (xs ++ y ∷ []) ys zs w (e ∙ sym (append_assoc xs (y ∷ []) (ys ++ zs))) h

sweep-split :
    (ch j k i : ℕ) (w : Sweep) → sweep ch (j + k) i w ≡ sweep ch k (i + j) (sweep ch j i w)
unfolding sweep
sweep-split ch zero k i w =
    let a : 0 + k ≡ k = omega arith in
    let b : i ≡ i + 0 = omega arith in ap (λ n. sweep ch n i w) a ∙ ap (λ n. sweep ch k n w) b
sweep-split ch (suc j) k i w =
    let a : suc j + k ≡ suc (j + k) = omega arith in
    let b : i + 1 + j ≡ i + suc j = omega arith in
    let v = sweep_at ch i (get_or w.array i none) w in
    ap (λ n. sweep ch n i w) a
    ∙ sweep-split ch j k (i + 1) v
    ∙ ap (λ n. sweep ch k n (sweep ch j (i + 1) v)) b

-- The subscribers around one, which is the last, or before the last one `l`.
abbrev pub around :
    List (Option Subscriber)
    → Subscriber
    → Option (List (Option Subscriber) × Option Subscriber)
    → List (Option Subscriber)
around xs sub none = xs ++ some sub ∷ []
around xs sub (some (zs, l)) = (xs ++ some sub ∷ zs) ++ l ∷ []

-- The others: the last one takes its place.
abbrev pub closed_up :
    List (Option Subscriber)
    → Option (List (Option Subscriber) × Option Subscriber)
    → List (Option Subscriber)
closed_up xs none = xs
closed_up xs (some (zs, l)) = xs ++ l ∷ zs

abbrev pub AreOthers :
    ℕ → List (Option Subscriber) → Option (List (Option Subscriber) × Option Subscriber) → Type 0
AreOthers ch xs none = All (IsOther ch) xs
AreOthers ch xs (some (zs, l)) = All (IsOther ch) xs × All (IsOther ch) zs × IsOther ch l

-- The round that finds the subscriber, where it is the last one.
found_last :
    (ch : ℕ) (xs : List (Option Subscriber)) (sub : Subscriber) (closed : List ℕ)
    → (sub.messages == ch) ≡ true
    → sweep_at ch
        (length xs)
        (some sub)
        (record { array = xs ++ some sub ∷ []; len = length xs + 1; closed = closed })
      ≡ record {
        array = xs ++ none ∷ [];
        len = length xs;
        closed = closed ++ sub.unsubscribed ∷ [];
      }
unfolding sweep_at
found_last ch xs sub closed t =
    let n : length xs + 1 - 1 ≡ length xs = omega arith in
    rw
      (
        t,
        n,
        get_or-at xs [] (some sub) none,
        set-at xs [] (some sub) (some sub),
        set-at xs [] (some sub) none,
      )
      refl

-- Where `l` is the last one.
found_before :
    (ch : ℕ) (xs zs : List (Option Subscriber)) (l : Option Subscriber) (sub : Subscriber)
    (closed : List ℕ)
    → (sub.messages == ch) ≡ true
    → sweep_at ch (length xs) (some sub) (record {
      array = (xs ++ some sub ∷ zs) ++ l ∷ [];
      len = length (xs ++ some sub ∷ zs) + 1;
      closed = closed;
    })
      ≡ record {
        array = (xs ++ l ∷ zs) ++ none ∷ [];
        len = length (xs ++ l ∷ zs);
        closed = closed ++ sub.unsubscribed ∷ [];
      }
unfolding sweep_at
found_before ch xs zs l sub closed t =
    let n : length (xs ++ some sub ∷ zs) + 1 - 1 ≡ length (xs ++ some sub ∷ zs) = omega arith in
    let m : length (xs ++ some sub ∷ zs) ≡ length (xs ++ l ∷ zs) =
      omega (arith, length-append xs (some sub ∷ zs), length-append xs (l ∷ zs)) in
    rw
      (
        t,
        n,
        get_or-at (xs ++ some sub ∷ zs) [] l none,
        append_assoc xs (some sub ∷ zs) (l ∷ []),
        set-at xs (zs ++ l ∷ []) (some sub) l,
      )
      (rw (m, ← append_assoc xs (l ∷ zs) (l ∷ []), set-at (xs ++ l ∷ zs) [] l none) refl)

sweep_first : (ch j k : ℕ) (w : Sweep) → sweep ch (j + k) 0 w ≡ sweep ch k j (sweep ch j 0 w)
sweep_first ch j k w =
    let a : 0 + j ≡ j = omega arith in
    sweep-split ch j k 0 w ∙ ap (λ i. sweep ch k i (sweep ch j 0 w)) a

-- The whole loop.
sweep-around :
    (ch : ℕ) (xs : List (Option Subscriber)) (sub : Subscriber)
    (rest : Option (List (Option Subscriber) × Option Subscriber)) (closed : List ℕ)
    → (sub.messages == ch) ≡ true
    → AreOthers ch xs rest
    → sweep ch
        (length (around xs sub rest))
        0
        (record { array = around xs sub rest; len = length (around xs sub rest); closed = closed })
      ≡ record {
        array = closed_up xs rest ++ none ∷ [];
        len = length (closed_up xs rest);
        closed = closed ++ sub.unsubscribed ∷ [];
      }
unfolding sweep
sweep-around ch xs sub none closed t h =
    let w : Sweep = record { array = xs ++ some sub ∷ []; len = length xs + 1; closed = closed } in
    let n : length (xs ++ some sub ∷ []) ≡ length xs + 1 =
      omega (arith, length-append xs (some sub ∷ [])) in
    ap (λ m. sweep ch m 0 (record { array = xs ++ some sub ∷ []; len = m; closed = closed })) n
    ∙ sweep_first ch (length xs) 1 w
    ∙ ap (λ v. sweep ch 1 (length xs) v) (sweep-others ch [] xs (some sub ∷ []) w refl h)
    ∙ (ap (λ o. sweep_at ch (length xs) o w) (get_or-at xs [] (some sub) none))
    ∙ found_last ch xs sub closed t
sweep-around ch xs sub (some (zs, l)) closed t (h, k, q) =
    let w : Sweep = record {
      array = (xs ++ some sub ∷ zs) ++ l ∷ [];
      len = length (xs ++ some sub ∷ zs) + 1;
      closed = closed;
    } in
    let n : length ((xs ++ some sub ∷ zs) ++ l ∷ []) ≡ length (xs ++ some sub ∷ zs) + 1 =
      omega (arith, length-append (xs ++ some sub ∷ zs) (l ∷ [])) in
    let m : length (xs ++ some sub ∷ zs) + 1 ≡ length xs + suc (length (zs ++ none ∷ [])) = omega (
      arith,
      length-append xs (some sub ∷ zs),
      length-append {A = Option Subscriber} zs (none ∷ []),
    ) in
    let v : Sweep = record {
      array = (xs ++ l ∷ zs) ++ none ∷ [];
      len = length (xs ++ l ∷ zs);
      closed = closed ++ sub.unsubscribed ∷ [];
    } in
    ap
      (λ i.
        sweep ch i 0 (record { array = (xs ++ some sub ∷ zs) ++ l ∷ []; len = i; closed = closed }))
      n
    ∙ ap (λ i. sweep ch i 0 w) m
    ∙ sweep_first ch (length xs) (suc (length (zs ++ none ∷ []))) w
    ∙ ap (λ u. sweep ch (suc (length (zs ++ none ∷ []))) (length xs) u)
        (sweep-others ch [] xs (some sub ∷ zs ++ l ∷ []) w
          (append_assoc xs (some sub ∷ zs) (l ∷ [])) h)
    ∙ (ap (λ o. sweep ch (length (zs ++ none ∷ [])) (length xs + 1) (sweep_at ch (length xs) o w))
        (ap (λ a. get_or a (length xs) none) (append_assoc xs (some sub ∷ zs) (l ∷ []))
          ∙ get_or-at xs (zs ++ l ∷ []) (some sub) none))
    ∙ ap (sweep ch (length (zs ++ none ∷ [])) (length xs + 1))
        (found_before ch xs zs l sub closed t)
    ∙ (let i : length xs + 1 ≡ length (xs ++ l ∷ []) = omega (arith, length-append xs (l ∷ [])) in
        ap (λ j. sweep ch (length (zs ++ none ∷ [])) j v) i)
    ∙ sweep-others ch (xs ++ l ∷ []) (zs ++ none ∷ []) [] v
        (append_assoc xs (l ∷ zs) (none ∷ [])
          ∙ sym (append_assoc xs (l ∷ []) (zs ++ none ∷ []))
          ∙ ap (λ a. (xs ++ l ∷ []) ++ a) (sym (append-nil (zs ++ none ∷ []))))
        (All-append (IsOther ch) zs (none ∷ []) k (tt, tt))

-- `Unsubscribe` of a channel that is subscribed once: the subscription is gone, and its place is taken
-- by the last one if it was not the last; the other subscriptions stay, and the channel that tells the
-- goroutine of `run` that the subscriber has left is closed, and no other.
pub unsubscribe-around :
    (ch : ℕ) (xs : List (Option Subscriber)) (sub : Subscriber)
    (rest : Option (List (Option Subscriber) × Option Subscriber)) (t : Topic)
    → (sub.messages == ch) ≡ true
    → AreOthers ch xs rest
    → unsubscribe ch (record t { subscribers = around xs sub rest })
      ≡ record t { subscribers = closed_up xs rest; closed = t.closed ++ sub.unsubscribed ∷ [] }
unfolding unsubscribe
unsubscribe-around ch xs sub rest t e h =
    ap (λ w. record t { subscribers = take w.len w.array; closed = w.closed })
      (sweep-around ch xs sub rest t.closed e h)
    ∙ ap (λ l. record t { subscribers = l; closed = t.closed ++ sub.unsubscribed ∷ [] })
        (take-append (closed_up xs rest) (none ∷ []))

-- A channel that was not subscribed: after `Subscribe` and `Unsubscribe` the topic has the subscribers of
-- before, in their order, and the channel that was made for the subscription is closed.
pub unsubscribe-subscribe :
    (ch : ℕ) (t : Topic)
    → All (IsOther ch) t.subscribers
    → unsubscribe ch (subscribe ch t)
      ≡ record t { next = t.next + 1; closed = t.closed ++ t.next ∷ [] }
unfolding subscribe
unsubscribe-subscribe ch t h =
    unsubscribe-around ch t.subscribers (record { messages = ch; unsubscribed = t.next }) none
      (record t { next = t.next + 1 }) ((==_iff ch ch).1 refl) h

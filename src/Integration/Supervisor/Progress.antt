-- ===== src/Integration/Supervisor/Progress.antt =====
-- What the journal says of the pending work, and what the calls of the supervisor do to it
-- (internal/integration/supervisor.go).
use veracity.Base.{
  ◌+◌, ◌<◌, ◌≡◌, refl, sym, ap, ◌∙◌, ◌⊎◌, inl, inr, Bool, true, false, List, [], ◌∷◌, ◌++◌, max_u64,
  length, All, arith, Error, Outcome, ok, err, panic, u64-eq_of_lt, length-append,
}
use veracity.Journal.{Appended, written, refused, unsure}
use veracity.EventStream.{Messages}
use veracity.Integration.{Record, CommandHandled}
use veracity.Integration.Services.{Log, AcceptedSet}
use veracity.Integration.Supervisor.{Supervisor, append_record, advance}
use veracity.Integration.Pending.{Pending, chain, delete_first, replay_record}

-- What holds of a chain of calls, from what holds of the first.
pub chain_by :
    {A B W : Type 0} (P : Outcome B × W → Type 0) (Q : Outcome A × W → Type 0) (x : Outcome A × W)
    (k : A → W → Outcome B × W)
    → Q x
    → ((a : A) (w : W) → Q (ok a, w) → P (k a w))
    → ((e : Error) (w : W) → Q (err e, w) → P (err e, w))
    → ((w : W) → Q (panic, w) → P (panic, w))
    → P (chain x k)
unfolding chain
chain_by P Q (Outcome.ok a, w) k q f g h = f a w q
chain_by P Q (Outcome.err e, w) k q f g h = g e w q
chain_by P Q (Outcome.panic, w) k q f g h = h w q

pub delete_first_last :
    {A : Type 0} (f : A → Bool) (xs : List A) (x : A)
    → All (λ y. f y ≡ false) xs
    → f x ≡ true
    → delete_first f (xs ++ x ∷ []) ≡ xs
unfolding delete_first
delete_first_last f [] x h t = rw t refl
delete_first_last f (y ∷ ys) x h t = rw h.0 (ap (◌∷◌ y) (delete_first_last f ys x h.1 t))

module _ {E U : Type 0} (M : Messages E U) where
  abbrev pub replay_next : Outcome (Pending E U) → Record E U → Outcome (Pending E U)
  replay_next (Outcome.ok p) r = replay_record M r p
  replay_next (Outcome.err e) r = err e
  replay_next Outcome.panic r = panic

  abbrev pub pending_from : Outcome (Pending E U) → List (Record E U) → Outcome (Pending E U)
  pending_from o [] = o
  pending_from o (r ∷ rest) = pending_from (replay_next o r) rest

  -- The operations that are pending after the records of a journal.
  abbrev pub pending_of : List (Record E U) → Outcome (Pending E U)
  pending_of recs = pending_from (ok (record { accepted = []; handled = [] })) recs

  pending_from-append :
      (o : Outcome (Pending E U)) (xs : List (Record E U)) (r : Record E U)
      → pending_from o (xs ++ r ∷ []) ≡ replay_next (pending_from o xs) r
  pending_from-append o [] r = refl
  pending_from-append o (x ∷ xs) r = pending_from-append (replay_next o x) xs r

  pub pending_of-append :
      (xs : List (Record E U)) (q s : Pending E U) (r : Record E U)
      → pending_of xs ≡ ok q
      → replay_record M r q ≡ ok s
      → pending_of (xs ++ r ∷ []) ≡ ok s
  pending_of-append xs q s r e h = pending_from-append _ xs r ∙ ap (λ o. replay_next o r) e ∙ h

module _ {E U X JS KS : Type 0} (M : Messages E U) (J : Log (Record E U) JS)
    (K : AcceptedSet U KS) where
  abbrev pub recs : Supervisor E U JS KS X → List (Record E U)
  recs w = J.records w.journal

  -- What a call of the set, of the application or of a service leaves as it was.
  pub record Same (w v : Supervisor E U JS KS X) : Type 0 where
    pub journal_same : v.journal ≡ w.journal
    pub pos_same : v.journal_pos ≡ w.journal_pos
    pub answers_same : v.answers ≡ w.answers
    pub set_keeps :
        (u : U) → K.contains w.accepted_commands u ≡ true → K.contains v.accepted_commands u ≡ true

  -- The journal's position is its end, the operations pending in it are `p`, and the commands that
  -- it has as handled are in the set.
  pub record At (p : Pending E U) (w : Supervisor E U JS KS X) : Type 0 where
    pub at_end : w.journal_pos ≡ J.begin w.journal + length (recs w)
    pub pending : pending_of M (recs w) ≡ ok p
    pub known :
        All
          (λ (h : CommandHandled E U). K.contains w.accepted_commands h.command_id ≡ true)
          p.handled

  -- An append of a record, which turns the pending operations `p` into `q`.
  abbrev pub Appends :
      Record E U
      → Pending E U
      → Pending E U
      → Supervisor E U JS KS X
      → Outcome (Unit {0}) × Supervisor E U JS KS X
      → Type 0
  Appends r p q w (Outcome.ok _, v) =
      At q v
      × (recs v ≡ recs w ++ r ∷ [])
      × (v.journal_pos ≡ w.journal_pos + 1)
      × (v.answers ≡ w.answers)
      × (v.accepted_commands ≡ w.accepted_commands)
  Appends r p q w (Outcome.err e, v) =
      ((recs v ≡ recs w) ⊎ (recs v ≡ recs w ++ r ∷ [])) × (v.answers ≡ w.answers)
  Appends r p q w (Outcome.panic, v) = ⊥

  advance-Appends :
      (r : Record E U) (p q : Pending E U) (w : Supervisor E U JS KS X) (o : Outcome (Unit {0}))
      (s : JS)
      → At p w
      → w.journal_pos + 1 < max_u64
      → replay_record M r p ≡ ok q
      → All
          (λ (h : CommandHandled E U). K.contains w.accepted_commands h.command_id ≡ true)
          q.handled
      → J.begin s ≡ J.begin w.journal
      → Appended J.records (J.begin w.journal + length (recs w)) w.journal_pos r w.journal o s
      → Appends r p q w (advance J w (o, s))
  unfolding advance
  advance-Appends r p q w o s h room e k b (written at q') = (
    record {
      at_end = omega (
        arith,
        u64-eq_of_lt (w.journal_pos + 1) room,
        h.at_end,
        b,
        ap length q',
        length-append (recs w) (r ∷ []),
      );
      pending = ap (pending_of M) q' ∙ pending_of-append M (recs w) p q r h.pending e;
      known = k;
    },
    q',
    u64-eq_of_lt (w.journal_pos + 1) room,
    refl,
    refl,
  )
  advance-Appends r p q w o s h room e k b (refused x q') = (inl q', refl)
  advance-Appends r p q w o s h room e k b (unsure x at q') = (inr q', refl)

  -- An append at the end of the journal.
  pub append_record-Appends :
      (r : Record E U) (p q : Pending E U) (w : Supervisor E U JS KS X)
      → At p w
      → w.journal_pos + 1 < max_u64
      → replay_record M r p ≡ ok q
      → All
          (λ (h : CommandHandled E U). K.contains w.accepted_commands h.command_id ≡ true)
          q.handled
      → Appends r p q w (append_record J r w)
  unfolding append_record
  append_record-Appends r p q w h room e k =
      advance-Appends r p q w _ _ h room e k (J.append-begin w.journal_pos r w.journal)
        (J.append-Appended w.journal_pos r w.journal)

  All-known :
      (w v : Supervisor E U JS KS X) (hs : List (CommandHandled E U))
      → ((u : U)
          → K.contains w.accepted_commands u ≡ true
          → K.contains v.accepted_commands u ≡ true)
      → All (λ (h : CommandHandled E U). K.contains w.accepted_commands h.command_id ≡ true) hs
      → All (λ (h : CommandHandled E U). K.contains v.accepted_commands h.command_id ≡ true) hs
  All-known w v [] f a = tt
  All-known w v (h ∷ hs) f a = (f h.command_id a.0, All-known w v hs f a.1)

  pub At-Same : (p : Pending E U) (w v : Supervisor E U JS KS X) → At p w → Same w v → At p v
  At-Same p w v h s = record {
    at_end =
        s.pos_same ∙ h.at_end ∙ ap (λ j. J.begin j + length (J.records j)) (sym s.journal_same);
    pending = ap (λ j. pending_of M (J.records j)) s.journal_same ∙ h.pending;
    known = All-known w v p.handled s.set_keeps h.known;
  }

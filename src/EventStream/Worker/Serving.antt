-- ===== src/EventStream/Worker/Serving.antt =====
-- The worker's state machine over any sequence of inputs (internal/eventstream/worker.go, with the
-- loop of internal/fsm/fsm.go).
use veracity.Base.{
  ℕ, suc, ◌+◌, ◌*◌, ◌≤◌, ◌<◌, ◌≡◌, refl, sym, ap, ◌∙◌, subst, List, [], ◌∷◌, ◌++◌, Option, some,
  length, arith, Error, max_u64, append-nil, append_assoc,
}
use veracity.Fsm.Invariant.{Goes, to_stop, to_enter, to_block}
use veracity.Journal.{Journal}
use veracity.EventStream.{Record, AppendRequest, AppendResponse}
use veracity.EventStream.Stream.{end_offset, IsStream, end_offset-append}
use veracity.EventStream.Worker.{
  Worker, Input, canceled, shutdown_signaled, timed_out, received, Exchange, Reply, success,
  failure, State, idle_state, handle_append_state, select_idle, append_record,
}
use veracity.EventStream.Worker.Contract.{recs, IsReady, new_record}

module _ {E U : Type 0} where
  -- The response channels of the exchanges that wait, in order.
  abbrev pub waiting : List (Input E U) → List ℕ
  waiting [] = []
  waiting (Input.received ex ∷ rest) = ex.response ∷ waiting rest
  waiting (_ ∷ rest) = waiting rest

  -- The number of events that they ask to append.
  abbrev pub demand : List (Input E U) → ℕ
  demand [] = 0
  demand (Input.received ex ∷ rest) = length ex.request.events + demand rest
  demand (_ ∷ rest) = demand rest

  -- Every request has events.
  abbrev pub Requests : List (Input E U) → Type 0
  Requests [] = Unit
  Requests (Input.received ex ∷ rest) = (0 < length ex.request.events) × Requests rest
  Requests (_ ∷ rest) = Requests rest

abbrev pub channel : Reply → ℕ
channel (success c res) = c
channel (failure c e) = c

-- The response channels on which a reply was sent, in order.
abbrev pub answered : List Reply → List ℕ
answered [] = []
answered (r ∷ rs) = channel r ∷ answered rs

pub answered-append :
    (rs : List Reply) (r : Reply) (l : List ℕ)
    → answered (rs ++ r ∷ []) ++ l ≡ answered rs ++ channel r ∷ l
answered-append [] r l = refl
answered-append (x ∷ rs) r l = ap (◌∷◌ (channel x)) (answered-append rs r l)

module _ {E U S : Type 0} (J : Journal (Record E) S) (old : List (Record E))
    (channels : List ℕ) where
  -- The journal holds a stream that begins with the old records, and those who were answered are
  -- those who waited, but for those who still wait.
  pub record Served (w : Worker E U S) : Type 0 where
    pub begins : J.begin w.store ≡ 0
    pub stream : IsStream 0 (recs J w)
    pub kept : (new : List (Record E)) × (recs J w ≡ old ++ new)
    pub accounted : answered w.replies ++ waiting w.inputs ≡ channels

  -- Nobody waits any longer.
  pub record ServedAll (w : Worker E U S) : Type 0 where
    pub served : Served w
    pub all : answered w.replies ≡ channels

  pub record Serving (w : Worker E U S) (rest : List (Input E U)) : Type 0 where
    pub ready : IsReady J w
    pub kept' : (new : List (Record E)) × (recs J w ≡ old ++ new)
    pub requests : Requests rest

  abbrev pub Inv : ℕ → State E U → Worker E U S → Type 0
  Inv n idle_state w =
      (2 * length w.inputs + 1 ≤ n)
      × (w.off + demand w.inputs < max_u64)
      × (answered w.replies ++ waiting w.inputs ≡ channels)
      × Serving w w.inputs
  Inv n (handle_append_state ex) w =
      (2 * length w.inputs + 2 ≤ n)
      × (w.off + (length ex.request.events + demand w.inputs) < max_u64)
      × (answered w.replies ++ ex.response ∷ waiting w.inputs ≡ channels)
      × (0 < length ex.request.events)
      × Serving w w.inputs

  pub Served-of :
      (w : Worker E U S) (rest : List (Input E U))
      → Serving w rest
      → answered w.replies ++ waiting w.inputs ≡ channels
      → Served w
  Served-of w rest h a = record {
    begins = h.ready.begins;
    stream = h.ready.stream;
    kept = h.kept';
    accounted = a;
  }

  pub Serving-inputs :
      (w : Worker E U S) (x : Option Error) (rest rest' : List (Input E U))
      → Serving w rest
      → Requests rest'
      → Serving (record w { inputs = rest'; ctx_err = x }) rest'
  Serving-inputs w x rest rest' h r = record {
    ready = record {
      begins = h.ready.begins;
      at_end = h.ready.at_end;
      off_end = h.ready.off_end;
      stream = h.ready.stream;
    };
    kept' = h.kept';
    requests = r;
  }

  pub idle-Goes :
      (n : ℕ) (l : List (Input E U)) (w : Worker E U S)
      → w.inputs ≡ l
      → 2 * length l + 1 ≤ suc n
      → w.off + demand l < max_u64
      → answered w.replies ++ waiting l ≡ channels
      → Serving w l
      → Goes (Inv n) Served ServedAll idle_state w (select_idle l w)
  unfolding select_idle
  idle-Goes n [] w q f b a h = to_block (record {
    served = Served-of w [] h (ap (λ l. answered w.replies ++ waiting l) q ∙ a);
    all = sym (append-nil (answered w.replies)) ∙ a;
  })
  idle-Goes n (canceled e ∷ rest) w q f b a h =
      to_stop (Served-of _ rest (Serving-inputs w (some e) _ rest h h.requests) a)
  idle-Goes n (shutdown_signaled ∷ rest) w q f b a h =
      to_stop (Served-of _ rest (Serving-inputs w w.ctx_err _ rest h h.requests) a)
  idle-Goes n (timed_out ∷ rest) w q f b a h =
      to_stop (Served-of _ rest (Serving-inputs w w.ctx_err _ rest h h.requests) a)
  idle-Goes n (received ex ∷ rest) w q f b a h =
      to_enter (handle_append_state ex)
        (omega arith, b, a, h.requests.0, Serving-inputs w w.ctx_err _ rest h h.requests.1)

  -- What an append leaves alone.
  pub record Appends (ex : Exchange E U) (w w' : Worker E U S) : Type 0 where
    pub inputs : w'.inputs ≡ w.inputs
    pub replies : w'.replies ≡ w.replies

  pub kept-new :
      (w : Worker E U S) (rs : List (Record E)) (r : Record E)
      → (new : List (Record E)) × (recs J w ≡ old ++ new)
      → rs ≡ recs J w ++ r ∷ []
      → (new : List (Record E)) × (rs ≡ old ++ new)
  kept-new w rs r (new, e) q =
      (new ++ r ∷ [], q ∙ ap (λ l. l ++ r ∷ []) e ∙ append_assoc old new (r ∷ []))

  pub off-new :
      (req : AppendRequest E U) (w w' : Worker E U S)
      → IsReady J w
      → IsReady J w'
      → recs J w' ≡ recs J w ++ new_record J req w ∷ []
      → w'.off ≡ w.off + length req.events
  unfolding append_record
  off-new req w w' h h' q =
      h'.off_end ∙ ap (end_offset 0) q ∙ end_offset-append 0 (recs J w) (new_record J req w ∷ [])

  pub after_ok :
      (n : ℕ) (ex : Exchange E U) (w w' : Worker E U S) (res : AppendResponse)
      → Inv (suc n) (handle_append_state ex) w
      → Appends ex w w'
      → IsReady J w'
      → (new : List (Record E)) × (recs J w' ≡ old ++ new)
      → w'.off ≤ w.off + length ex.request.events
      → Inv n idle_state (record w' { replies = w'.replies ++ success ex.response res ∷ [] })
  after_ok n ex w w' res (f, b, a, r, h) k ready kept le = (
    omega (arith, ap length k.inputs),
    omega (arith, ap demand k.inputs),
    answered-append w'.replies (success ex.response res) (waiting w'.inputs)
        ∙ cc (k.inputs, k.replies, a),
    record {
      ready = record {
        begins = ready.begins;
        at_end = ready.at_end;
        off_end = ready.off_end;
        stream = ready.stream;
      };
      kept' = kept;
      requests = subst Requests (sym k.inputs) h.requests;
    },
  )

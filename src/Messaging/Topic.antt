-- ===== src/Messaging/Topic.antt =====
-- internal/messaging/topic.go: the subscribers of a topic.
--
-- A channel is a number. `next` is the channel that `make` gives next, and `closed` has the closed ones.
-- `none` is the zero subscriber, whose channel is nil; the channel that is unsubscribed is not nil.
pub mod Leaving
mod Examples
use veracity.Base.{
  ℕ, zero, suc, ◌+◌, ◌-◌, ◌==◌, List, [], ◌∷◌, ◌++◌, Option, none, some, length, get_or, set, take,
  if◌then◌else◌,
}

pub record Subscriber : Type 0 where
  pub messages : ℕ
  pub unsubscribed : ℕ

pub record Topic : Type 0 where
  pub subscribers : List (Option Subscriber)
  pub next : ℕ
  pub closed : List ℕ

unfoldable pub subscribe : ℕ → Topic → Topic
subscribe ch t = record t {
  subscribers = t.subscribers ++ some (record { messages = ch; unsubscribed = t.next }) ∷ [];
  next = t.next + 1;
}

-- The loop of `Unsubscribe`: `array` is the array of the slice over which it ranges, and `len` the length
-- of `t.subscribers`, which shares it.
pub record Sweep : Type 0 where
  pub array : List (Option Subscriber)
  pub len : ℕ
  pub closed : List ℕ

-- A round for the element `i`.
unfoldable pub sweep_at : ℕ → ℕ → Option Subscriber → Sweep → Sweep
sweep_at ch i none w = w
sweep_at ch i (some sub) w =
    if sub.messages == ch
    then record {
      array = set (set w.array i (get_or w.array (w.len - 1) none)) (w.len - 1) none;
      len = w.len - 1;
      closed = w.closed ++ sub.unsubscribed ∷ [];
    }
    else w

-- The rounds from `i` on; the element is read from the array when its round begins.
unfoldable pub sweep : ℕ → ℕ → ℕ → Sweep → Sweep
unfolding sweep_at
sweep ch zero i w = w
sweep ch (suc k) i w = sweep ch k (i + 1) (sweep_at ch i (get_or w.array i none) w)

unfoldable pub unsubscribe : ℕ → Topic → Topic
unfolding sweep
unsubscribe ch t =
    let w =
      sweep ch (length t.subscribers) 0
        (record { array = t.subscribers; len = length t.subscribers; closed = t.closed }) in
    record t { subscribers = take w.len w.array; closed = w.closed }

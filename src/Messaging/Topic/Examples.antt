-- ===== src/Messaging/Topic/Examples.antt =====
-- A topic with three subscribers, and one that has a channel twice.
use veracity.Base.{◌≡◌, refl, [], ◌∷◌, some}
use veracity.Messaging.Topic.{Topic, subscribe, unsubscribe}
use veracity.Messaging.Topic.Leaving.{unsubscribe-around, unsubscribe-subscribe}

abbrev three : Topic
three = record {
  subscribers =
      some (record { messages = 7; unsubscribed = 0 })
      ∷ some (record { messages = 8; unsubscribed = 1 })
      ∷ some (record { messages = 9; unsubscribed = 2 })
      ∷ [];
  next = 3;
  closed = [];
}

unsubscribe-around_example : unsubscribe 7 three ≡ record three {
  subscribers =
      some (record { messages = 9; unsubscribed = 2 })
      ∷ some (record { messages = 8; unsubscribed = 1 })
      ∷ [];
  closed = 0 ∷ [];
}
unsubscribe-around_example =
    unsubscribe-around 7 [] (record { messages = 7; unsubscribed = 0 })
      (some (
        some (record { messages = 8; unsubscribed = 1 }) ∷ [],
        some (record { messages = 9; unsubscribed = 2 }),
      ))
      three refl (tt, (refl, tt), refl)

unsubscribe-subscribe_example :
    unsubscribe 5 (subscribe 5 three) ≡ record three { next = 4; closed = 3 ∷ [] }
unsubscribe-subscribe_example = unsubscribe-subscribe 5 three (refl, (refl, (refl, tt)))

-- A channel that is subscribed twice keeps its second subscription, if that was the last.
twice_subscribed :
    (unsubscribe 5
      (subscribe 5 (subscribe 5 (record { subscribers = []; next = 0; closed = [] })))).subscribers
    ≡ some (record { messages = 5; unsubscribed = 1 }) ∷ []
unfolding subscribe unsubscribe
twice_subscribed = refl

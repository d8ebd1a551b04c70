-- ===== src/Hub/Tests.antt =====
-- Runs of api/v1/websocket/manager.py and api/v1/websocket/news.py.
use topicstreams.Text.{codes}
use topicstreams.Hub.{
  Subscribers, subscribers_of, Change, joins, broadcast_to_topic, rsplit_colon,
  reconnect_with_backoff, subscribe,
}
use topicstreams.Hub.Broadcasts.{broadcast_to_topic-Sent, broadcast_to_topic-joins}
use topicstreams.Hub.Payloads.{rsplit_colon-append}
use topicstreams.Hub.Backoffs.{reconnect_with_backoff-Connects}
use topicstreams.Base.{
  ℕ, String, ◌≡◌, refl, Bool, true, false, not, ◌&&◌, none, some, List, [], ◌∷◌, ◌++◌, arith, leb,
  str_eq, filter, member, get,
}

abbrev two_clients : Subscribers
two_clients = ("btc", "a" ∷ "b" ∷ []) ∷ ("eth", "c" ∷ []) ∷ []

found : get "btc" two_clients ≡ some ("a" ∷ "b" ∷ [])
unfolding get
found = refl

-- The socket b is broken.
abbrev takes : String → Bool
takes s = not (str_eq s "b")

abbrev nobody : String → List Change
nobody s = []

broadcast_to_topic-Sent_example :
    let b = broadcast_to_topic "btc" takes nobody two_clients in
    (b.sent ≡ filter takes ("a" ∷ "b" ∷ []))
    × (b.raised ≡ false)
    × (member "b" (subscribers_of "btc" b.subs) ≡ (takes "b" && member "b" ("a" ∷ "b" ∷ [])))
    × (member "b" (subscribers_of "eth" b.subs) ≡ member "b" (subscribers_of "eth" two_clients))
broadcast_to_topic-Sent_example =
    broadcast_to_topic-Sent "btc" takes nobody two_clients ("a" ∷ "b" ∷ []) "eth" "b" (λ s. refl)
      found refl

abbrev one_joins : String → List Change
one_joins s = joins "d" "btc" ∷ []

broadcast_to_topic-joins_example :
    let b = broadcast_to_topic "btc" takes one_joins two_clients in
    (b.raised ≡ true) × (b.sent ≡ filter takes ("a" ∷ []))
unfolding member
broadcast_to_topic-joins_example =
    broadcast_to_topic-joins "btc" takes one_joins two_clients "a" "d" ("b" ∷ []) found refl refl

rsplit_colon-append_example :
    rsplit_colon (codes "us:iran" ++ b':' ∷ codes "42") ≡ some (codes "us:iran", codes "42")
rsplit_colon-append_example = rsplit_colon-append (codes "us:iran") (codes "42") refl

abbrev back_at_two : ℕ → Bool
back_at_two n = leb 2 n

reconnect_with_backoff-Connects_example :
    reconnect_with_backoff back_at_two 5 ≡ some (1000 ∷ 2000 ∷ [])
reconnect_with_backoff-Connects_example =
    reconnect_with_backoff-Connects back_at_two 5 2 (omega arith) (refl, (refl, refl))

unknown_topic : subscribe "a" "xyz" (λ name. str_eq name "btc") two_clients ≡ none
unfolding subscribe
unknown_topic = refl

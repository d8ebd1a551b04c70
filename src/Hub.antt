-- ===== src/Hub.antt =====
-- The subscribers of api/v1/websocket/manager.py and the endpoint of api/v1/websocket/news.py. A
-- socket is known by a name. Whether a send fails, and which clients come and go while it is awaited,
-- are parameters. Delays are milliseconds.
pub mod Broadcasts
pub mod Payloads
pub mod Backoffs
mod Tests
use topicstreams.Base.{
  ℕ, zero, suc, ◌+◌, ◌-◌, ◌*◌, ◌/◌, ◌%◌, ◌^◌, ◌≤◌, ◌<◌, min, max, String, ◌≡◌, refl, sym, ap, ap₂,
  subst, ◌∙◌, ◌≢◌, ◌↔◌, ◌⊎◌, inl, inr, Bool, true, false, not, ◌&&◌, ◌||◌, Option, none, some, List,
  [], ◌∷◌, ◌++◌, map, reverse, arith, eq_iff, ltb, leb, ◌==◌, str_eq, if◌then◌else◌, ltb→lt, lt→ltb,
  leb→le, le→leb, ==_iff, tests, Bool-cases, Option-cases, length, take, any, all, cons_if, filter,
  is_empty, All, length-append, length-take, length-filter-le, length-cons_if-le, any-append,
  filter-append, length-map, member, add, discard, str_eq_self, member-add, member-discard,
  member-filter, get, put, keys, values, get-put, get-put_self, get-put_ne, get_elem?,
  get_elem?-middle, get_elem?_total, append_assoc, append-nil, stretch, stretch-ge, stretch_mono,
  All-filter, All-map, All-imp, drop, DistinctKeys, get_absent, member-put, put-DistinctKeys,
  sort_desc, Descending, DistinctBy, filter-sort_desc, sort_desc-Descending, All-sort_desc,
  filter-Descending, below_middle, below_twice, last, last-append, take_full, All-middle, take_all,
  filter-All, filter_keeps, All-always, last-map, length-sort_desc, filter-DistinctBy, get_present,
  All-both, map-take,
}

abbrev pub Subscribers : Type 0
Subscribers = List (String × List String)

abbrev pub or_empty : Option (List String) → List String
or_empty none = []
or_empty (some s) = s

-- `_topic_subscribers[topic]`, of a defaultdict.
unfoldable pub subscribers_of : String → Subscribers → List String
subscribers_of topic subs = or_empty (get topic subs)

unfoldable pub connect : String → String → Subscribers → Subscribers
connect socket topic subs = put topic (add socket (subscribers_of topic subs)) subs

unfoldable pub disconnect : String → String → Subscribers → Subscribers
disconnect socket topic subs = put topic (discard socket (subscribers_of topic subs)) subs

-- What another task does while a send is awaited.
pub data Change : Type 0 where
  joins : String → String → Change
  leaves : String → String → Change

abbrev pub apply_change : Change → Subscribers → Subscribers
apply_change (joins socket topic) subs = connect socket topic subs
apply_change (leaves socket topic) subs = disconnect socket topic subs

abbrev pub apply_changes : List Change → Subscribers → Subscribers
apply_changes [] subs = subs
apply_changes (c ∷ changes) subs = apply_changes changes (apply_change c subs)

-- The broadcast: the sockets that got the message, whether it raised, and the subscribers after it.
pub record Broadcast : Type 0 where
  pub sent : List String
  pub raised : Bool
  pub subs : Subscribers

abbrev pub discard_all : String → List String → Subscribers → Subscribers
discard_all topic [] subs = subs
discard_all topic (s ∷ failed) subs = discard_all topic failed (disconnect s topic subs)

abbrev pub add_sent : Bool → String → Broadcast → Broadcast
add_sent true s b = record b { sent = s ∷ b.sent }
add_sent false s b = b

module _ (topic : String) (accepts : String → Bool) (meanwhile : String → List Change) where
  -- The loop over the set, with the size that the set had at its start: asking for the next member
  -- raises RuntimeError when the size has changed. A change that keeps the size is not followed: the
  -- loop goes on with the members of its start.
  unfoldable pub send_each : ℕ → List String → List String → Subscribers → Broadcast
  send_each size [] failed subs =
      if length (subscribers_of topic subs) == size
      then record { sent = []; raised = false; subs = discard_all topic failed subs }
      else record { sent = []; raised = true; subs = subs }
  send_each size (s ∷ sockets) failed subs =
      let rest =
        send_each size sockets (if accepts s then failed else failed ++ s ∷ [])
          (apply_changes (meanwhile s) subs) in
      if length (subscribers_of topic subs) == size
      then add_sent (accepts s) s rest
      else record { sent = []; raised = true; subs = subs }

  abbrev pub broadcast_to : Option (List String) → Subscribers → Broadcast
  broadcast_to none subs = record { sent = []; raised = false; subs = subs }
  broadcast_to (some sockets) subs = send_each (length sockets) sockets [] subs

  -- `_broadcast_to_topic`
  unfoldable pub broadcast_to_topic : Subscribers → Broadcast
  broadcast_to_topic subs = broadcast_to (get topic subs) subs

abbrev pub with_head : ℕ → List ℕ × List ℕ → List ℕ × List ℕ
with_head c r = (c ∷ r.0, r.1)

abbrev pub first_part : ℕ → List ℕ → Option (List ℕ × List ℕ) → Option (List ℕ × List ℕ)
first_part c s none = if c == b':' then some ([], s) else none
first_part c s (some r) = some (with_head c r)

-- `payload.rsplit(":", 1)`: the texts around the last colon.
unfoldable pub rsplit_colon : List ℕ → Option (List ℕ × List ℕ)
rsplit_colon [] = none
rsplit_colon (c ∷ s) = first_part c s (rsplit_colon s)

abbrev pub then_slept : ℕ → Option (List ℕ) → Option (List ℕ)
then_slept delay none = none
then_slept delay (some delays) = some (delay ∷ delays)

-- The loop of `_reconnect_with_backoff`, for whether each attempt connects: the times that it has
-- slept when it connects, none if the fuel ends before that.
unfoldable pub reconnect_from : (ℕ → Bool) → ℕ → ℕ → ℕ → Option (List ℕ)
reconnect_from connects attempt delay zero = none
reconnect_from connects attempt delay (suc fuel) =
    let rest = reconnect_from connects (suc attempt) (min (delay * 2) 60000) fuel in
    if connects attempt then some [] else then_slept delay rest

unfoldable pub reconnect_with_backoff : (ℕ → Bool) → ℕ → Option (List ℕ)
reconnect_with_backoff connects fuel = reconnect_from connects 0 1000 fuel

-- `websocket_news_topic`: none closes the socket with 1008. The name is normalized.
unfoldable pub subscribe : String → String → (String → Bool) → Subscribers → Option Subscribers
subscribe socket name topic_exists subs =
    if str_eq name ""
    then none
    else if not (topic_exists name)
    then none
    else some (connect socket name subs)

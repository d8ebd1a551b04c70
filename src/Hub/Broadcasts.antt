-- ===== src/Hub/Broadcasts.antt =====
-- Who gets a broadcast of api/v1/websocket/manager.py.
use topicstreams.Hub.{
  Subscribers, or_empty, subscribers_of, connect, disconnect, Change, joins, Broadcast, discard_all,
  add_sent, send_each, broadcast_to, broadcast_to_topic,
}
use topicstreams.Base.{
  ℕ, suc, String, ◌≡◌, refl, ap, ◌∙◌, inl, inr, Bool, true, false, not, ◌&&◌, some, List, [], ◌∷◌,
  ◌++◌, arith, eq_iff, ◌==◌, str_eq, if◌then◌else◌, Bool-cases, length, cons_if, filter, member,
  add, discard, str_eq_self, member-discard, member-filter, get, put, get-put, get-put_self,
  get-put_ne, append_assoc, append-nil,
}

subscribers-disconnect :
    (topic t x s : String) (subs : Subscribers)
    → member x (subscribers_of t (disconnect s topic subs)) ≡ (
        if str_eq topic t
        then not (str_eq s x) && member x (subscribers_of t subs)
        else member x (subscribers_of t subs))
unfolding subscribers_of disconnect
subscribers-disconnect topic t x s subs =
    let left : List String = discard s (subscribers_of topic subs) in
    elim (Bool-cases (str_eq topic t)) [
      | inl same ↦
          let written : get t (put topic left subs) ≡ some left =
            get-put topic t left subs ∙ rw same refl in
          let name : topic ≡ t = (eq_iff topic t).0 same in
          rw written (
            rw same (
              member-discard s x (subscribers_of topic subs)
              ∙ ap (λ k. not (str_eq s x) && member x (subscribers_of k subs)) name))
      | inr other ↦ rw (get-put_ne topic t left subs other) (rw other refl)
    ]

subscribers-discard_all :
    (topic t x : String) (failed : List String) (subs : Subscribers)
    → member x (subscribers_of t (discard_all topic failed subs)) ≡ (
        if str_eq topic t
        then not (member x failed) && member x (subscribers_of t subs)
        else member x (subscribers_of t subs))
unfolding member
subscribers-discard_all topic t x [] subs = ground arith
subscribers-discard_all topic t x (s ∷ failed) subs = ground (
  arith,
  subscribers-discard_all topic t x failed (disconnect s topic subs),
  subscribers-disconnect topic t x s subs,
)

added :
    (b : Bool) (s : String) (subs : Subscribers)
    → let r = add_sent b s (record { sent = []; raised = true; subs = subs }) in
      (r.raised ≡ true) × (r.sent ≡ cons_if b s [])
added true s subs = (refl, refl)
added false s subs = (refl, refl)

module _ (topic : String) (accepts : String → Bool) (meanwhile : String → List Change) where
  -- Without changes the loop comes to its end.
  send_each_quiet :
      (size : ℕ) (sockets failed : List String) (subs : Subscribers)
      → ((s : String) → meanwhile s ≡ [])
      → length (subscribers_of topic subs) ≡ size
      → send_each topic accepts meanwhile size sockets failed subs ≡ record {
        sent = filter accepts sockets;
        raised = false;
        subs = discard_all topic (failed ++ filter (λ s. not (accepts s)) sockets) subs;
      }
  unfolding send_each
  send_each_quiet size [] failed subs quiet same =
      let keeps : (length (subscribers_of topic subs) == size) ≡ true = ground (arith, same) in
      rw keeps (rw (append-nil failed) refl)
  send_each_quiet size (s ∷ sockets) failed subs quiet same =
      let keeps : (length (subscribers_of topic subs) == size) ≡ true = ground (arith, same) in
      let IH = λ (f : List String). send_each_quiet size sockets f subs quiet same in
      rw keeps (
        rw (quiet s) (elim (Bool-cases (accepts s)) [
          | inl good ↦ rw good (ap (add_sent true s) (IH failed))
          | inr bad ↦ rw bad (
              IH (failed ++ s ∷ [])
              ∙ ap
                  (λ f. record {
                    sent = filter accepts sockets;
                    raised = false;
                    subs = discard_all topic f subs;
                  })
                  (append_assoc failed (s ∷ []) (filter (λ z. not (accepts z)) sockets)))
        ]))

  -- While no client comes or goes, a broadcast is sent to every subscriber of the topic once; those
  -- that fail to take it are removed, the others stay, and so do the subscribers of other topics.
  pub broadcast_to_topic-Sent :
      (subs : Subscribers) (sockets : List String) (t x : String)
      → ((s : String) → meanwhile s ≡ [])
      → get topic subs ≡ some sockets
      → str_eq topic t ≡ false
      → let b = broadcast_to_topic topic accepts meanwhile subs in
        (b.sent ≡ filter accepts sockets)
        × (b.raised ≡ false)
        × (member x (subscribers_of topic b.subs) ≡ (accepts x && member x sockets))
        × (member x (subscribers_of t b.subs) ≡ member x (subscribers_of t subs))
  unfolding broadcast_to_topic subscribers_of
  broadcast_to_topic-Sent subs sockets t x quiet there other =
      let failed : List String = filter (λ s. not (accepts s)) sockets in
      let known : subscribers_of topic subs ≡ sockets = ap or_empty there in
      let done : broadcast_to_topic topic accepts meanwhile subs ≡ record {
        sent = filter accepts sockets;
        raised = false;
        subs = discard_all topic failed subs;
      } =
        ap (λ o. broadcast_to topic accepts meanwhile o subs) there
        ∙ send_each_quiet (length sockets) sockets [] subs quiet (ap length known) in
      (
        ap (λ (b : Broadcast). b.sent) done,
        ap (λ (b : Broadcast). b.raised) done,
        ap (λ (b : Broadcast). member x (subscribers_of topic b.subs)) done
            ∙ subscribers-discard_all topic topic x failed subs
            ∙ ground (
              arith,
              str_eq_self topic,
              member-filter (λ z. not (accepts z)) x sockets,
              ap (member x) known,
            ),
        ap (λ (b : Broadcast). member x (subscribers_of t b.subs)) done
            ∙ subscribers-discard_all topic t x failed subs
            ∙ rw other refl,
      )

  send_each_changed :
      (size : ℕ) (sockets failed : List String) (subs : Subscribers)
      → (length (subscribers_of topic subs) == size) ≡ false
      → send_each topic accepts meanwhile size sockets failed subs
        ≡ record { sent = []; raised = true; subs = subs }
  unfolding send_each
  send_each_changed size [] failed subs changed = rw changed refl
  send_each_changed size (s ∷ sockets) failed subs changed = rw changed refl

  subscribers_found :
      (subs : Subscribers) (sockets : List String)
      → get topic subs ≡ some sockets
      → subscribers_of topic subs ≡ sockets
  unfolding subscribers_of
  subscribers_found subs sockets there = ap or_empty there

  joined_length :
      (n : String) (sockets : List String) (subs : Subscribers)
      → get topic subs ≡ some sockets
      → member n sockets ≡ false
      → length (subscribers_of topic (connect n topic subs)) ≡ suc (length sockets)
  unfolding connect subscribers_of add
  joined_length n sockets subs there new =
      rw (get-put_self topic (add n (or_empty (get topic subs))) subs) (rw there (rw new refl))

  -- A client that subscribes to the topic while the message is on its way to the first subscriber
  -- makes the broadcast raise: no other subscriber gets the message.
  pub broadcast_to_topic-joins :
      (subs : Subscribers) (s n : String) (sockets : List String)
      → get topic subs ≡ some (s ∷ sockets)
      → member n (s ∷ sockets) ≡ false
      → meanwhile s ≡ joins n topic ∷ []
      → let b = broadcast_to_topic topic accepts meanwhile subs in
        (b.raised ≡ true) × (b.sent ≡ filter accepts (s ∷ []))
  unfolding broadcast_to_topic send_each
  broadcast_to_topic-joins subs s n sockets there new meets =
      let size : ℕ = length (s ∷ sockets) in
      let starts : (length (subscribers_of topic subs) == size) ≡ true =
        ground (arith, ap length (subscribers_found subs (s ∷ sockets) there)) in
      let grown : (length (subscribers_of topic (connect n topic subs)) == size) ≡ false =
        ground (arith, joined_length n (s ∷ sockets) subs there new) in
      let failed : List String = if accepts s then [] else s ∷ [] in
      let stops = send_each_changed size sockets failed (connect n topic subs) grown in
      let runs : broadcast_to_topic topic accepts meanwhile subs
          ≡ add_sent (accepts s) s
              (record { sent = []; raised = true; subs = connect n topic subs }) =
        ap (λ o. broadcast_to topic accepts meanwhile o subs) there
        ∙ rw starts (rw meets (ap (add_sent (accepts s) s) stops)) in
      let shape = added (accepts s) s (connect n topic subs) in
      (
        ap (λ (b : Broadcast). b.raised) runs ∙ shape.0,
        ap (λ (b : Broadcast). b.sent) runs ∙ shape.1,
      )

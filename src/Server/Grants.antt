-- ===== src/Server/Grants.antt =====
-- `topic::subscribe` and `topic::unsubscribe` (object/topic.cpp) as a map from client ids to QoS.
use shan_mqtt_broker.Base.{
  inr, inl, Bool-cases, bytes_eq_refl, ℕ, ◌≡◌, Bytes, bytes_eq, bytes_eq_iff, bytes_lt, List, [],
  ◌∷◌, none, some, if◌then◌else◌, refl, arith, is_some, false,
}
use shan_mqtt_broker.Server.State.{Client, Topic}
use shan_mqtt_broker.Server.Topics.{
  granted_qos, erase_client, insert_client, topic_subscribe, topic_unsubscribe,
}

-- No two entries have the same client id, as in the `std::map` with `client_less`.
abbrev pub Distinct : List (Client × ℕ) → Type 0
Distinct [] = Unit {0}
Distinct ((c, q) ∷ cs) = (is_some (granted_qos c.client_id cs) ≡ false) × Distinct cs

granted-erase_client :
    (k id : Bytes) (cs : List (Client × ℕ))
    → Distinct cs
    → granted_qos id (erase_client k cs) ≡ (if bytes_eq k id then none else granted_qos id cs)
unfolding granted_qos erase_client
granted-erase_client k id [] d = ground arith
granted-erase_client k id ((c, q) ∷ cs) d = ground (
  arith,
  bytes_eq_iff c.client_id k,
  bytes_eq_iff k id,
  bytes_eq_iff c.client_id id,
  granted-erase_client k id cs d.1,
  d.0,
)

erase_client-Distinct :
    (k : Bytes) (cs : List (Client × ℕ)) → Distinct cs → Distinct (erase_client k cs)
unfolding granted_qos erase_client
erase_client-Distinct k [] d = tt
erase_client-Distinct k ((c, q) ∷ cs) d = elim (Bool-cases (bytes_eq c.client_id k)) [
  | inl h ↦ rw h d.1
  | inr h ↦ rw h (
    ground (arith, granted-erase_client k c.client_id cs d.1, d.0),
    erase_client-Distinct k cs d.1,
  )
]

granted-insert_client :
    (x : Client) (r : ℕ) (id : Bytes) (cs : List (Client × ℕ))
    → is_some (granted_qos x.client_id cs) ≡ false
    → granted_qos id (insert_client x r cs)
      ≡ (if bytes_eq x.client_id id then some r else granted_qos id cs)
unfolding granted_qos insert_client
granted-insert_client x r id [] d = ground arith
granted-insert_client x r id ((c, q) ∷ cs) d = ground (
  arith,
  bytes_eq_iff c.client_id x.client_id,
  bytes_eq_iff c.client_id id,
  bytes_eq_iff x.client_id id,
  granted-insert_client x r id cs,
  d,
)

insert_client-Distinct :
    (x : Client) (r : ℕ) (cs : List (Client × ℕ))
    → is_some (granted_qos x.client_id cs) ≡ false
    → Distinct cs
    → Distinct (insert_client x r cs)
unfolding granted_qos insert_client
insert_client-Distinct x r [] n d = (refl, tt)
insert_client-Distinct x r ((c, q) ∷ cs) n d =
    elim (Bool-cases (bytes_eq c.client_id x.client_id)) [
      | inl h ↦ rw h d
      | inr h ↦
          let n' : is_some (granted_qos x.client_id cs) ≡ false = ground (arith, n, h) in
          elim (Bool-cases (bytes_lt x.client_id c.client_id)) [
            | inl l ↦ rw (h, l) (ground (arith, n, h), d)
            | inr l ↦
                rw (h, l)
                  (
                    ground (
                      arith,
                      granted-insert_client x r c.client_id cs n',
                      d.0,
                      h,
                      bytes_eq_iff x.client_id c.client_id,
                      bytes_eq_iff c.client_id x.client_id,
                    ),
                    insert_client-Distinct x r cs n' d.1,
                  )
          ]
    ]

-- In a topic whose client ids are distinct, the client has after `subscribe` the QoS that was
-- asked for, whatever it had before; every other client keeps its own, and the ids stay distinct.
pub subscribe_grants :
    (c : Client) (max_qos : ℕ) (t : Topic)
    → Distinct t.clients
    → ((id : Bytes)
        → granted_qos id (topic_subscribe c max_qos t).clients
          ≡ (if bytes_eq c.client_id id then some max_qos else granted_qos id t.clients))
      × Distinct (topic_subscribe c max_qos t).clients
unfolding topic_subscribe
subscribe_grants c max_qos t d =
    let erased = erase_client c.client_id t.clients in
    let gone : is_some (granted_qos c.client_id erased) ≡ false = ground (
      arith,
      granted-erase_client c.client_id c.client_id t.clients d,
      bytes_eq_refl c.client_id,
    ) in
    (
      λ id. ground (
        arith,
        granted-insert_client c max_qos id erased gone,
        granted-erase_client c.client_id id t.clients d,
      ),
      insert_client-Distinct c max_qos erased gone (erase_client-Distinct c.client_id t.clients d),
    )

-- In a topic whose client ids are distinct, the client has no QoS after `unsubscribe`; every other
-- client keeps its own, and the ids stay distinct.
pub unsubscribe_revokes :
    (c : Client) (t : Topic)
    → Distinct t.clients
    → ((id : Bytes)
        → granted_qos id (topic_unsubscribe c t).clients
          ≡ (if bytes_eq c.client_id id then none else granted_qos id t.clients))
      × Distinct (topic_unsubscribe c t).clients
unfolding topic_unsubscribe
unsubscribe_revokes c t d = (
  λ id. granted-erase_client c.client_id id t.clients d,
  erase_client-Distinct c.client_id t.clients d,
)

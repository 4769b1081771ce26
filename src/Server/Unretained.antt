-- ===== src/Server/Unretained.antt =====
-- What `handle_publish` (player/mqtt_server.cpp) does with a message that is to be retained, where no
-- topic has its name.
use shan_mqtt_broker.Base.{
  ℕ, ◌<◌, ◌+◌, ◌++◌, ◌∷◌, [], some, true, false, length, ltb, leb, arith, ap, ◌∙◌, ◌≡◌, none, Bytes,
  bytes_eq, Bool-cases, inl, inr, refl,
}
use shan_mqtt_broker.Outcome.{ok}
use shan_mqtt_broker.Packet.Publish.{Publish, starts_with_dollar}
use shan_mqtt_broker.Packet.Subscribe.{Subscribe}
use shan_mqtt_broker.Packet.Acks.{make_suback, add_return_code}
use shan_mqtt_broker.Packet.AckTrip.{header_of, suback_of}
use shan_mqtt_broker.Packet.Any
use shan_mqtt_broker.Session.{add_subscription}
use shan_mqtt_broker.Server.Registry.{publish_retained_message}
use shan_mqtt_broker.Server.Effective.{at-modify_new}
use shan_mqtt_broker.Server.Subscribing.{
  handle_subscribe, subscribe_loop, subscribe_one, subscribe_plain,
}
use shan_mqtt_broker.Server.Maps.{at, insert, modify, at-modify}
use shan_mqtt_broker.Server.State.{update, Client, write, Topic, Server}
use shan_mqtt_broker.Server.Topics.{
  TopicPtr, exact, wild, trash, modify_topic, set_retained, topic_subscribe, make_topic,
}
use shan_mqtt_broker.Server.Rules.{emitted, Sending}
use shan_mqtt_broker.Server.Publishing.{agent, handle_publish}
use shan_mqtt_broker.Server.Kept.Sending.{handle_publish-Safe}

-- No topic has the name.
abbrev Nameless : Bytes → Server → Type 0
Nameless name s = at name s.topics ≡ none

still_none :
    (name f : Bytes) (g : Topic → Topic) (s : Server)
    → at name s.topics ≡ none
    → at name (modify f g s.topics) ≡ none
still_none name f g s e = elim (Bool-cases (bytes_eq f name)) [
  | inl b ↦ rw (at-modify f name g s.topics, b, e) refl
  | inr b ↦ rw (at-modify f name g s.topics, b) e
]

retained_none :
    (name : Bytes) (ptr : TopicPtr) (m : Publish) (s : Server)
    → Nameless name s
    → Nameless name (modify_topic ptr (set_retained m) s).1
retained_none name (exact f) m s e = still_none name f (set_retained m) s e
retained_none name (wild f) m s e = e
retained_none name trash m s e = e

sending-Nameless : (name : Bytes) → Sending (Nameless name)
sending-Nameless name = record {
  emit_law = λ e s h. h;
  exchange_law = λ p t s e h. h;
  retain_law = λ ptr m s r. retained_none name ptr m s;
}

-- `handle_publish` makes no topic.
pub still_unknown :
    (channel : ℕ) (packet : Publish) (s : Server)
    → Nameless packet.topic_name s
    → Nameless packet.topic_name (handle_publish channel packet s).1
still_unknown channel packet s e =
    ((handle_publish-Safe (sending-Nameless packet.topic_name) channel packet).kept s e).1

-- The SUBSCRIBE with one filter, without wildcards.
abbrev pub subscribe_of : ℕ → Bytes → ℕ → Subscribe
subscribe_of id name qos = record {
  fh = header_of 8 2 (length name + 5);
  packet_id = id;
  topic_filters = name ∷ [];
  max_qoses = qos ∷ [];
  is_wild = false ∷ [];
}

-- The loop over the one filter, where no topic has it: the topic that it makes has no message.
one_subscribed :
    (c : Client) (id qos : ℕ) (name : Bytes) (s : Server)
    → Nameless name s
    → qos < 3
    → starts_with_dollar name ≡ false
    → (s' : Server) × (subscribe_loop c
          (name ∷ [])
          (qos ∷ [])
          (false ∷ [])
          (suback_of id [])
          []
          []
          s
        ≡ (ok (suback_of id (qos ∷ []), exact name ∷ [], []), s'))
      × (at name s'.topics ≡ some (topic_subscribe c qos (make_topic name)))
      × (s'.output ≡ s.output)
unfolding subscribe_loop subscribe_one subscribe_plain add_return_code
one_subscribed c id qos name s e q n =
    let low : ltb qos 3 ≡ true = ground (arith, q) in
    let good : leb 3 qos ≡ false = ground (arith, q) in
    (
      record s {
        topics = modify name (topic_subscribe c qos) (insert name (make_topic name) s.topics);
        heap = update c.session (add_subscription name qos false (s.heap c.session)) s.heap;
      },
      rw (low, n, good) refl,
      at-modify_new name (topic_subscribe c qos) (make_topic name) s.topics ∙ rw e refl,
      refl,
    )

-- The retained message of a topic that has none.
nothing_retained :
    (c : Client) (name : Bytes) (t : Topic) (s : Server)
    → at name s.topics ≡ some t
    → t.retained_message ≡ none
    → publish_retained_message c (exact name ∷ []) [] s ≡ (ok tt, s)
unfolding publish_retained_message
nothing_retained c name t s e r = rw (e, r) refl

-- Where no topic has the filter, the new subscriber gets the SUBACK and nothing else.
new_topic_is_empty :
    (c : Client) (channel id qos : ℕ) (name : Bytes) (s : Server)
    → s.param channel ≡ some c
    → Nameless name s
    → qos < 3
    → starts_with_dollar name ≡ false
    → (handle_subscribe channel (subscribe_of id name qos) s).1.output
      ≡ s.output ++ write channel (Any.suback (suback_of id (qos ∷ []))) ∷ []
unfolding handle_subscribe agent make_suback topic_subscribe
new_topic_is_empty c channel id qos name s e free q n =
    let known : agent channel s ≡ (ok c, s) = rw (e, agent) refl in
    let (s', loop, found, quiet) = one_subscribed c id qos name s free q n in
    let answer = write channel (Any.suback (suback_of id (qos ∷ []))) in
    let silent = nothing_retained c name _ (emitted answer s') found refl in
    rw (known, loop, silent) (ap (λ o. o ++ answer ∷ []) quiet)

-- Where no topic has the name of a PUBLISH, whether it is to be retained or not, none has it
-- afterwards; and a client that then subscribes to that name, with a QoS below 3 and a name that does
-- not start with '$', gets its SUBACK and no message: nothing has been retained for it.
pub unknown_topic_not_retained :
    (channel : ℕ) (packet : Publish) (s : Server) (c : Client) (subscriber id qos : ℕ)
    → at packet.topic_name s.topics ≡ none
    → (handle_publish channel packet s).1.param subscriber ≡ some c
    → qos < 3
    → starts_with_dollar packet.topic_name ≡ false
    → (at packet.topic_name (handle_publish channel packet s).1.topics ≡ none)
      × ((handle_subscribe subscriber
            (subscribe_of id packet.topic_name qos)
            (handle_publish channel packet s).1).1.output
          ≡ (handle_publish channel packet s).1.output
            ++ write subscriber (Any.suback (suback_of id (qos ∷ []))) ∷ [])
unknown_topic_not_retained channel packet s c subscriber id qos e known q n =
    let e' = still_unknown channel packet s e in
    (
      e',
      new_topic_is_empty c subscriber id qos packet.topic_name (handle_publish channel packet s).1
          known e' q n,
    )

-- ===== src/Server/Subscribing.antt =====
-- `handle_subscribe` and `handle_unsubscribe` (player/mqtt_server.cpp).
use shan_mqtt_broker.Base.{
  ℕ, Bool, true, false, ◌&&◌, Option, none, some, List, [], ◌∷◌, ◌++◌, Bytes, bytes_eq, ltb,
  if◌then◌else◌,
}
use shan_mqtt_broker.Constants.{qos_invalid, qos_exactly_once}
use shan_mqtt_broker.Outcome.{ok}
use shan_mqtt_broker.Packet.Publish.{starts_with_dollar}
use shan_mqtt_broker.Packet.Subscribe.{Subscribe, Unsubscribe}
use shan_mqtt_broker.Packet.Acks.{Suback, make_suback, add_return_code, make_unsuback}
use shan_mqtt_broker.Packet.Any
use shan_mqtt_broker.Session.{add_subscription, delete_subscription}
use shan_mqtt_broker.Server.Maps.{erase}
use shan_mqtt_broker.Server.State.{
  Client, Topic, write, M, pure, lift, ◌>>=◌, ◌>>◌, skip, when, get, emit, modify_session,
}
use shan_mqtt_broker.Server.Topics.{
  TopicPtr, trash, deref, modify_topic, topic_empty, topic_subscribe, topic_unsubscribe,
}
use shan_mqtt_broker.Server.Registry.{
  topic_ptr, get_topic_ptr_to_subscribe, publish_retained_message,
}
use shan_mqtt_broker.Server.Publishing.{agent}

-- The literal "$sys/trash".
abbrev pub trash_filter : Bytes
trash_filter =
    b'$' ∷ (b's' ∷ (b'y' ∷ (b's' ∷ (b'/' ∷ (b't' ∷ (b'r' ∷ (b'a' ∷ (b's' ∷ (b'h' ∷ [])))))))))

-- What one round of the loop finds: the return code, and the topic that was subscribed to.
pub record Subscribed : Type 0 where
  pub return_code : ℕ
  pub exacts : List TopicPtr
  pub wilds : List TopicPtr

abbrev refused : Subscribed
refused = record { return_code = 0x80; exacts = []; wilds = [] }

-- A filter that starts with '$': only an admin subscribes, and only to the trash topic, with QoS 2.
unfoldable pub subscribe_sys : Client → Bytes → ℕ → M Subscribed
unfolding topic_subscribe
subscribe_sys c topic_filter max_qos =
    if c.admin && bytes_eq topic_filter trash_filter
    then (do
      modify_topic trash (topic_subscribe c qos_exactly_once)
      pure (record { return_code = max_qos; exacts = []; wilds = [] }))
    else pure refused

unfoldable pub subscribe_plain : Client → Bytes → ℕ → Bool → M Subscribed
unfolding topic_subscribe add_subscription
subscribe_plain c topic_filter max_qos is_wild = do
  ptr ← get_topic_ptr_to_subscribe topic_filter is_wild
  modify_topic ptr (topic_subscribe c max_qos)
  modify_session c.session (add_subscription topic_filter max_qos is_wild)
  pure (record {
    return_code = max_qos;
    exacts = if is_wild then [] else ptr ∷ [];
    wilds = if is_wild then ptr ∷ [] else [];
  })

-- The body of the loop up to `add_return_code`.
unfoldable pub subscribe_one : Client → Bytes → ℕ → Bool → M Subscribed
unfolding subscribe_sys subscribe_plain
subscribe_one c topic_filter max_qos is_wild =
    if ltb max_qos qos_invalid
    then (if starts_with_dollar topic_filter
        then subscribe_sys c topic_filter max_qos
        else subscribe_plain c topic_filter max_qos is_wild)
    else pure refused

-- The loop over the three parallel vectors; the result is the SUBACK and the subscribed topics.
unfoldable pub subscribe_loop :
    Client
    → List Bytes
    → List ℕ
    → List Bool
    → Suback
    → List TopicPtr
    → List TopicPtr
    → M (Suback × List TopicPtr × List TopicPtr)
unfolding subscribe_one add_return_code
subscribe_loop c [] qoses wilds suback exacts wild_ptrs = pure (suback, exacts, wild_ptrs)
subscribe_loop c (f ∷ fs) [] wilds suback exacts wild_ptrs = pure (suback, exacts, wild_ptrs)
subscribe_loop c (f ∷ fs) (q ∷ qs) [] suback exacts wild_ptrs = pure (suback, exacts, wild_ptrs)
subscribe_loop c (f ∷ fs) (q ∷ qs) (w ∷ ws) suback exacts wild_ptrs = do
  r ← subscribe_one c f q w
  suback' ← lift (add_return_code suback r.return_code)
  subscribe_loop c fs qs ws suback' (exacts ++ r.exacts) (wild_ptrs ++ r.wilds)

unfoldable pub handle_subscribe : ℕ → Subscribe → M (Unit {0})
unfolding agent subscribe_loop publish_retained_message
handle_subscribe channel packet = do
  c ← agent channel
  suback ← lift (make_suback packet.packet_id)
  (suback', exacts, wilds) ←
      subscribe_loop c packet.topic_filters packet.max_qoses packet.is_wild suback [] []
  emit (write channel (Any.suback suback'))
  publish_retained_message c exacts wilds

-- `_wild_topics.erase` or `_topics.erase`
abbrev pub erase_topic : Bool → Bytes → M (Unit {0})
erase_topic true f s = (ok tt, record s { wild_topics = erase f s.wild_topics })
erase_topic false f s = (ok tt, record s { topics = erase f s.topics })

-- The body of the loop, on the topic that the map has for the filter.
unfoldable pub unsubscribe_topic : Client → Bytes → Bool → Option Topic → M (Unit {0})
unfolding topic_unsubscribe delete_subscription
unsubscribe_topic c f is_wild none = skip
unsubscribe_topic c f is_wild (some t) = do
  modify_topic (topic_ptr is_wild f) (topic_unsubscribe c)
  modify_session c.session (delete_subscription f)
  when (topic_empty (topic_unsubscribe c t)) (erase_topic is_wild f)

unfoldable pub unsubscribe_loop : Client → List Bytes → List Bool → M (Unit {0})
unfolding unsubscribe_topic
unsubscribe_loop c [] wilds = skip
unsubscribe_loop c (f ∷ fs) [] = skip
unsubscribe_loop c (f ∷ fs) (w ∷ ws) = do
  s ← get
  unsubscribe_topic c f w (deref (topic_ptr w f) s)
  unsubscribe_loop c fs ws

unfoldable pub handle_unsubscribe : ℕ → Unsubscribe → M (Unit {0})
unfolding agent unsubscribe_loop
handle_unsubscribe channel packet = do
  c ← agent channel
  unsubscribe_loop c packet.topic_filters packet.is_wild
  p ← lift (make_unsuback packet.packet_id)
  emit (write channel (Any.unsuback p))

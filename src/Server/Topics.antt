-- ===== src/Server/Topics.antt =====
-- object/topic.cpp but for `match`.
use shan_mqtt_broker.Base.{
  ℕ, Bool, true, false, not, ◌&&◌, Option, none, some, is_some, List, [], ◌∷◌, Bytes, bytes_eq,
  bytes_lt, is_empty, if◌then◌else◌,
}
use shan_mqtt_broker.Outcome.{Error, mqtt_error, ok}
use shan_mqtt_broker.Packet.Publish.{Publish}
use shan_mqtt_broker.Server.Maps.{at, modify}
use shan_mqtt_broker.Server.State.{
  Client, Topic, Server, M, pure, raise, ◌>>◌, skip, when, try_catch,
}
use shan_mqtt_broker.Server.Clients.{client_publish}

-- `topic(std::string)`
abbrev pub make_topic : Bytes → Topic
make_topic topic_filter = record {
  topic_filter = topic_filter;
  retained_message = none;
  clients = [];
}

-- `topic::empty`
abbrev pub topic_empty : Topic → Bool
topic_empty t = not (is_some t.retained_message) && is_empty t.clients

-- `topic::retained_message(std::shared_ptr<mqtt_publish>)`
abbrev pub set_retained : Publish → Topic → Topic
set_retained p t = record t { retained_message = if is_empty p.payload then none else some p }

-- `_clients.at`
unfoldable pub granted_qos : Bytes → List (Client × ℕ) → Option ℕ
granted_qos id [] = none
granted_qos id ((c, q) ∷ cs) = if bytes_eq c.client_id id then some q else granted_qos id cs

-- `_clients.erase`
unfoldable pub erase_client : Bytes → List (Client × ℕ) → List (Client × ℕ)
erase_client id [] = []
erase_client id ((c, q) ∷ cs) =
    let rest = erase_client id cs in if bytes_eq c.client_id id then cs else (c, q) ∷ rest

-- `_clients.insert`, in the order of the client ids
unfoldable pub insert_client : Client → ℕ → List (Client × ℕ) → List (Client × ℕ)
insert_client x r [] = (x, r) ∷ []
insert_client x r ((c, q) ∷ cs) =
    let rest = insert_client x r cs in
    if bytes_eq c.client_id x.client_id
    then (c, q) ∷ cs
    else (if bytes_lt x.client_id c.client_id then (x, r) ∷ ((c, q) ∷ cs) else (c, q) ∷ rest)

-- `topic::subscribe`
unfoldable pub topic_subscribe : Client → ℕ → Topic → Topic
unfolding erase_client insert_client
topic_subscribe c max_qos t = record t {
  clients = insert_client c max_qos (erase_client c.client_id t.clients);
}

-- `topic::unsubscribe`
unfoldable pub topic_unsubscribe : Client → Topic → Topic
unfolding erase_client
topic_unsubscribe c t = record t { clients = erase_client c.client_id t.clients }

-- A `topic_ptr` of the server: an entry of one of its maps, or the trash topic.
pub data TopicPtr : Type 0 where
  exact wild : Bytes → TopicPtr
  trash : TopicPtr

abbrev pub deref : TopicPtr → Server → Option Topic
deref (exact f) s = at f s.topics
deref (wild f) s = at f s.wild_topics
deref trash s = some s.trash_topic

abbrev pub modify_topic : TopicPtr → (Topic → Topic) → M (Unit {0})
modify_topic (exact f) g s = (ok tt, record s { topics = modify f g s.topics })
modify_topic (wild f) g s = (ok tt, record s { wild_topics = modify f g s.wild_topics })
modify_topic trash g s = (ok tt, record s { trash_topic = g s.trash_topic })

-- `for (auto pair : _clients) pair.first->publish(server_p, pair.second, false, packet_ptr);`
unfoldable pub publish_to : List (Client × ℕ) → Publish → M (Unit {0})
publish_to [] packet = skip
publish_to ((c, max_qos) ∷ cs) packet = do
  client_publish c max_qos false packet
  publish_to cs packet

-- `topic::publish` on the topic `t` behind the pointer. `sent` is set by the first round of the loop.
unfoldable pub topic_publish : TopicPtr → Topic → Publish → M Bool
unfolding publish_to
topic_publish ptr t packet = do
  when packet.retain (modify_topic ptr (set_retained packet))
  publish_to t.clients packet
  pure (not (is_empty t.clients))

abbrev pub not_subscribing : Error
not_subscribing =
    mqtt_error "attempt to publish retained message to a client that is not subscribing."

abbrev pub send_retained : Option ℕ → Client → Publish → M (Unit {0})
send_retained none c packet = raise not_subscribing
send_retained (some max_qos) c packet = client_publish c max_qos true packet

-- `topic::publish_retained`, to the client of the context; the `catch` clause covers the sending too.
unfoldable pub topic_publish_retained : Topic → Client → Publish → M (Unit {0})
unfolding granted_qos
topic_publish_retained t c packet =
    try_catch (send_retained (granted_qos c.client_id t.clients) c packet)
      (λ _. raise not_subscribing)

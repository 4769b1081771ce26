-- ===== src/Server/TopicLaws.antt =====
-- The operations on topics (object/topic.cpp, player/mqtt_server.cpp) keep the server well formed.
use shan_mqtt_broker.Base.{
  ℕ, ◌≤◌, ◌≡◌, Bool, true, false, some, List, [], ◌∷◌, Bytes, All, is_empty, bytes_eq, bytes_lt,
  Bool-cases, inl, inr, arith,
}
use shan_mqtt_broker.Packet.Publish.{Publish}
use shan_mqtt_broker.Server.Entries.{Entries, erase-Entries, modify-Entries, insert-Entries}
use shan_mqtt_broker.Server.State.{Client, Topic, Server}
use shan_mqtt_broker.Server.Topics.{
  TopicPtr, exact, wild, trash, modify_topic, set_retained, erase_client, insert_client,
  topic_subscribe, topic_unsubscribe,
}
use shan_mqtt_broker.Server.Grants.{subscribe_grants, unsubscribe_revokes}
use shan_mqtt_broker.Server.WellFormed.{GrantOk, TopicOk, TopicsOk, WellFormed, make_topic-Ok}
use shan_mqtt_broker.Server.Registry.{get_topic_ptr_to_subscribe}
use shan_mqtt_broker.Server.Subscribing.{trash_filter, erase_topic}

All-erase_client :
    (id : Bytes) (cs : List (Client × ℕ)) → All GrantOk cs → All GrantOk (erase_client id cs)
unfolding erase_client
All-erase_client id [] h = tt
All-erase_client id ((c, q) ∷ cs) h = elim (Bool-cases (bytes_eq c.client_id id)) [
  | inl b ↦ rw b h.1
  | inr b ↦ rw b (h.0, All-erase_client id cs h.1)
]

All-insert_client :
    (x : Client) (q : ℕ) (cs : List (Client × ℕ))
    → q ≤ 2
    → All GrantOk cs
    → All GrantOk (insert_client x q cs)
unfolding insert_client
All-insert_client x r [] l h = (l, tt)
All-insert_client x r ((c, q) ∷ cs) l h = elim (Bool-cases (bytes_eq c.client_id x.client_id)) [
  | inl b ↦ rw b h
  | inr b ↦ elim (Bool-cases (bytes_lt x.client_id c.client_id)) [
    | inl d ↦ rw (b, d) (l, h)
    | inr d ↦ rw (b, d) (h.0, All-insert_client x r cs l h.1)
  ]
]

pub subscribe-Ok :
    (c : Client) (q : ℕ)
    → q ≤ 2
    → (f : Bytes) (t : Topic) → TopicOk f t
    → TopicOk f (topic_subscribe c q t)
unfolding topic_subscribe
subscribe-Ok c q l f t h = record {
  name = h.name;
  distinct = (subscribe_grants c q t h.distinct).1;
  grants =
      All-insert_client c q (erase_client c.client_id t.clients) l
        (All-erase_client c.client_id t.clients h.grants);
  retained = h.retained;
}

pub unsubscribe-Ok :
    (c : Client) (f : Bytes) (t : Topic) → TopicOk f t → TopicOk f (topic_unsubscribe c t)
unfolding topic_unsubscribe
unsubscribe-Ok c f t h = record {
  name = h.name;
  distinct = (unsubscribe_revokes c t h.distinct).1;
  grants = All-erase_client c.client_id t.clients h.grants;
  retained = h.retained;
}

retained-Ok :
    (p : Publish) (t : Topic) (m : Publish)
    → p.retain ≡ true
    → (set_retained p t).retained_message ≡ some m
    → (m.retain ≡ true) × (is_empty m.payload ≡ false)
retained-Ok p t m r e = elim (Bool-cases (is_empty p.payload)) [
  | inl b ↦ absurd (ground arith)
  | inr b ↦ ground arith
]

pub retain-Ok :
    (p : Publish)
    → p.retain ≡ true
    → (f : Bytes) (t : Topic) → TopicOk f t
    → TopicOk f (set_retained p t)
retain-Ok p r f t h = record {
  name = h.name;
  distinct = h.distinct;
  grants = h.grants;
  retained = λ m. retained-Ok p t m r;
}

pub topics_changed :
    (topics wild_topics : List (Bytes × Topic)) (trash_topic : Topic) (s : Server)
    → TopicsOk topics wild_topics trash_topic
    → WellFormed s
    → WellFormed
        (record s { topics = topics; wild_topics = wild_topics; trash_topic = trash_topic })
topics_changed topics wild_topics trash_topic s k h = record {
  topics_ok = k;
  sessions_ok = h.sessions_ok;
  heap_ok = h.heap_ok;
  clients_ok = h.clients_ok;
  param_ok = h.param_ok;
}

pub exact_changed :
    (topics : List (Bytes × Topic)) (s : Server)
    → Entries TopicOk topics
    → WellFormed s
    → WellFormed (record s { topics = topics })
exact_changed topics s k h =
    topics_changed topics s.wild_topics s.trash_topic s
      (record { exact_ok = k; wild_ok = h.topics_ok.wild_ok; trash_ok = h.topics_ok.trash_ok }) h

pub wild_changed :
    (topics : List (Bytes × Topic)) (s : Server)
    → Entries TopicOk topics
    → WellFormed s
    → WellFormed (record s { wild_topics = topics })
wild_changed topics s k h =
    topics_changed s.topics topics s.trash_topic s
      (record { exact_ok = h.topics_ok.exact_ok; wild_ok = k; trash_ok = h.topics_ok.trash_ok }) h

-- A change of a topic that keeps it, on the topic behind any pointer.
pub modify_topic-WellFormed :
    (g : Topic → Topic)
    → ((f : Bytes) (t : Topic) → TopicOk f t → TopicOk f (g t))
    → (ptr : TopicPtr) (s : Server) → WellFormed s
    → WellFormed (modify_topic ptr g s).1
modify_topic-WellFormed g k (exact f) s h =
    exact_changed _ s (modify-Entries TopicOk f g s.topics k h.topics_ok.exact_ok) h
modify_topic-WellFormed g k (wild f) s h =
    wild_changed _ s (modify-Entries TopicOk f g s.wild_topics k h.topics_ok.wild_ok) h
modify_topic-WellFormed g k trash s h =
    topics_changed s.topics s.wild_topics (g s.trash_topic) s
      (record {
        exact_ok = h.topics_ok.exact_ok;
        wild_ok = h.topics_ok.wild_ok;
        trash_ok = k trash_filter s.trash_topic h.topics_ok.trash_ok;
      })
      h

pub make_topic-WellFormed :
    (f : Bytes) (w : Bool) (s : Server)
    → WellFormed s
    → WellFormed (get_topic_ptr_to_subscribe f w s).1
make_topic-WellFormed f true s h =
    wild_changed _ s
      (insert-Entries TopicOk f _ s.wild_topics (make_topic-Ok f) h.topics_ok.wild_ok) h
make_topic-WellFormed f false s h =
    exact_changed _ s (insert-Entries TopicOk f _ s.topics (make_topic-Ok f) h.topics_ok.exact_ok) h

pub erase_topic-WellFormed :
    (w : Bool) (f : Bytes) (s : Server) → WellFormed s → WellFormed (erase_topic w f s).1
erase_topic-WellFormed true f s h =
    wild_changed _ s (erase-Entries TopicOk f s.wild_topics h.topics_ok.wild_ok) h
erase_topic-WellFormed false f s h =
    exact_changed _ s (erase-Entries TopicOk f s.topics h.topics_ok.exact_ok) h

-- ===== src/Server/Registry.antt =====
-- The parts of player/mqtt_server.cpp below the handlers.
use shan_mqtt_broker.Base.{
  ℕ, zero, suc, ◌+◌, ◌/◌, ◌%◌, Bool, true, false, ◌&&◌, Option, none, some, is_some, List, [], ◌∷◌,
  ◌++◌, Bytes, bytes_eq, ◌==◌, if◌then◌else◌,
}
use shan_mqtt_broker.Outcome.{ok, stuck, out_of_range}
use shan_mqtt_broker.Topic.Filter.{match}
use shan_mqtt_broker.Packet.Publish.{Publish, make_publish}
use shan_mqtt_broker.Session.{Subscription}
use shan_mqtt_broker.Server.Maps.{at, insert, erase, modify}
use shan_mqtt_broker.Config.{Config}
use shan_mqtt_broker.Server.State.{
  Client, Topic, Env, Server, reset_timer, M, pure, raise, lift, ◌>>=◌, ◌>>◌, skip, when, get,
  for_each, emit, try_catch,
}
use shan_mqtt_broker.Server.Clients.{session_packet_id}
use shan_mqtt_broker.Server.Topics.{
  make_topic, topic_empty, topic_unsubscribe, TopicPtr, exact, wild, deref, topic_publish,
  topic_publish_retained,
}

-- `std::to_string`; a number has at most as many digits as its value plus one.
unfoldable pub digits : ℕ → ℕ → Bytes → Bytes
digits zero n acc = acc
digits (suc k) n acc =
    let here = (b'0' + n % 10) ∷ acc in
    let more = digits k (n / 10) here in if n / 10 == 0 then here else more

unfoldable pub to_string : ℕ → Bytes
unfolding digits
to_string n = digits (n + 1) n []

-- `get_client_ptr`
abbrev pub get_client_ptr : Bytes → Server → Option Client
get_client_ptr client_id s = at client_id s.clients

-- `reg_client_ptr`
abbrev pub reg_client_ptr : Client → M (Unit {0})
reg_client_ptr c s = (ok tt, record s { clients = insert c.client_id c s.clients })

-- `delete_client_ptr`
abbrev pub delete_client_ptr : Bytes → M (Unit {0})
delete_client_ptr client_id s = (ok tt, record s { clients = erase client_id s.clients })

-- `get_session_ptr`
abbrev pub get_session_ptr : Bytes → Server → Option ℕ
get_session_ptr client_id s = at client_id s.sessions

-- `reg_session_ptr`
abbrev pub reg_session_ptr : Bytes → ℕ → M (Unit {0})
reg_session_ptr client_id p s = (ok tt, record s { sessions = insert client_id p s.sessions })

-- `delete_session_ptr`
abbrev pub delete_session_ptr : Bytes → M (Unit {0})
delete_session_ptr client_id s = (ok tt, record s { sessions = erase client_id s.sessions })

-- `is_admin`
abbrev pub is_admin : Config → Bytes → Bytes → Bool
is_admin cfg username password = bytes_eq username cfg.adminname && bytes_eq password cfg.adminpass

-- `authenticate`
abbrev pub authenticate : Config → Bytes → Bytes → Bool
authenticate cfg username password =
    bytes_eq cfg.username username && bytes_eq cfg.password password

-- `reset_idle_timer`
abbrev pub reset_idle_timer : ℕ → ℕ → ℕ → M (Unit {0})
reset_idle_timer channel timer_id timeout = emit (reset_timer channel timer_id timeout)

-- `generate_unique_id`; `rounds` is fuel for its loop.
unfoldable pub generate_loop : Env → ℕ → M Bytes
unfolding to_string
generate_loop env zero s = (stuck, s)
generate_loop env (suc rounds) s =
    let client_id =
      b'@' ∷ (to_string (env.rand s.rand_calls) ++ to_string (env.rand (suc s.rand_calls))) in
    let s' = record s { rand_calls = suc (suc s.rand_calls) } in
    let again = generate_loop env rounds s' in
    if is_some (get_client_ptr client_id s') then again else (ok client_id, s')

-- `get_topic_ptr_to_subscribe`
abbrev pub topic_ptr : Bool → Bytes → TopicPtr
topic_ptr true f = wild f
topic_ptr false f = exact f

abbrev pub get_topic_ptr_to_subscribe : Bytes → Bool → M TopicPtr
get_topic_ptr_to_subscribe f true s =
    (ok (wild f), record s { wild_topics = insert f (make_topic f) s.wild_topics })
get_topic_ptr_to_subscribe f false s =
    (ok (exact f), record s { topics = insert f (make_topic f) s.topics })

-- One topic of `subscribed_topics`.
abbrev pub publish_exact : Client → Option Topic → M (Unit {0})
publish_exact c none = skip
publish_exact c (some t) = elim t.retained_message [
  | none ↦ skip
  | some p ↦ topic_publish_retained t c p
]

-- The loop over `_topics` for one topic of `subscribed_wild_topics`.
unfoldable pub publish_matching : Client → Topic → List (Bytes × Topic) → M (Unit {0})
publish_matching c wt [] = skip
publish_matching c wt ((_, t) ∷ rest) = do
  elim t.retained_message [
    | none ↦ skip
    | some p ↦ when (match wt.topic_filter t.topic_filter) (topic_publish_retained wt c p)
  ]
  publish_matching c wt rest

abbrev pub publish_wild : Client → Option Topic → M (Unit {0})
publish_wild c none = skip
publish_wild c (some wt) = do s ← get; publish_matching c wt s.topics

-- `publish_retained_message`; `c` is the client of the context.
unfoldable pub publish_retained_message : Client → List TopicPtr → List TopicPtr → M (Unit {0})
unfolding publish_matching topic_publish_retained
publish_retained_message c subscribed_topics subscribed_wild_topics = do
  for_each subscribed_topics (λ ptr. do s ← get; publish_exact c (deref ptr s))
  for_each subscribed_wild_topics (λ ptr. do s ← get; publish_wild c (deref ptr s))

-- `_topics.at(name)->publish(packet)`, where `at` throws if there is no such topic
unfoldable pub publish_exact_topic : Bytes → Publish → M Bool
unfolding topic_publish
publish_exact_topic name packet s = elim (at name s.topics) [
  | none ↦ raise out_of_range s
  | some t ↦ topic_publish (exact name) t packet s
]

-- `publish_will_message`
unfoldable pub publish_will_message : Client → M (Unit {0})
unfolding session_packet_id
publish_will_message c = when c.will_flag (
    try_catch
      (do
        s ← get
        t ← elim (at c.will_topic s.topics) [ none ↦ raise out_of_range | some t ↦ pure t ]
        id ← session_packet_id c.session
        p ← lift (make_publish false c.will_qos c.will_retain c.will_topic id c.will_message)
        sent ← topic_publish (exact c.will_topic) t p
        skip)
      (λ _. skip))

-- `t_ptr->unsubscribe(client_ptr); if (t_ptr->empty()) topics.erase(filter);` on one of the maps
unfoldable pub drop_subscriber : Client → Bytes → List (Bytes × Topic) → List (Bytes × Topic)
unfolding topic_unsubscribe
drop_subscriber c f m = elim (at f m) [
  | none ↦ m
  | some t ↦
      let m' = modify f (topic_unsubscribe c) m in
      if topic_empty (topic_unsubscribe c t) then erase f m' else m'
]

abbrev pub unsubscribe_one : Client → Subscription → Server → Server
unsubscribe_one c sub s =
    if sub.is_wild
    then record s { wild_topics = drop_subscriber c sub.topic_filter s.wild_topics }
    else record s { topics = drop_subscriber c sub.topic_filter s.topics }

unfoldable pub unsubscribe_each : Client → List Subscription → Server → Server
unfolding drop_subscriber
unsubscribe_each c [] s = s
unsubscribe_each c (sub ∷ subs) s = unsubscribe_each c subs (unsubscribe_one c sub s)

-- `unsubscribe_all`; a filter that no topic has is passed over, as its exception is caught.
abbrev pub unsubscribe_all : Client → M (Unit {0})
unsubscribe_all c s = (ok tt, unsubscribe_each c (s.heap c.session).subscriptions s)

-- ===== src/Server/WellFormed.antt =====
-- What holds of the server's state (player/mqtt_server.h) between two events.
use shan_mqtt_broker.Base.{ℕ, ◌≤◌, ◌<◌, ◌≡◌, true, false, some, List, Bytes, All, is_empty, refl}
use shan_mqtt_broker.Packet.Publish.{Publish}
use shan_mqtt_broker.Session.Valid.{IsValid, new_session-IsValid}
use shan_mqtt_broker.Server.Maps.{at}
use shan_mqtt_broker.Server.Entries.{Entries}
use shan_mqtt_broker.Server.State.{Client, Topic, Server}
use shan_mqtt_broker.Server.Topics.{make_topic}
use shan_mqtt_broker.Server.Grants.{Distinct}
use shan_mqtt_broker.Server.Subscribing.{trash_filter}
use shan_mqtt_broker.Server.Starting.{new_server}

abbrev pub GrantOk : Client × ℕ → Type 0
GrantOk (c, q) = q ≤ 2

-- A topic under its filter: no client twice, no QoS above 2, and a retained message that was marked
-- to be retained and has a payload.
pub record TopicOk (f : Bytes) (t : Topic) : Type 0 where
  pub name : f ≡ t.topic_filter
  pub distinct : Distinct t.clients
  pub grants : All GrantOk t.clients
  pub retained :
      (m : Publish) → t.retained_message ≡ some m → (m.retain ≡ true) × (is_empty m.payload ≡ false)

-- The three places of topics.
pub record TopicsOk (topics wild_topics : List (Bytes × Topic)) (trash : Topic) : Type 0 where
  pub exact_ok : Entries TopicOk topics
  pub wild_ok : Entries TopicOk wild_topics
  pub trash_ok : TopicOk trash_filter trash

-- `_sessions` holds places that were given out, and no two client ids have the same.
pub record SessionsOk (sessions : List (Bytes × ℕ)) (next_session : ℕ) : Type 0 where
  pub given : Entries (λ id p. p < next_session) sessions
  pub unshared : (i j : Bytes) (p : ℕ) → at i sessions ≡ some p → at j sessions ≡ some p → i ≡ j

pub record WellFormed (s : Server) : Type 0 where
  pub topics_ok : TopicsOk s.topics s.wild_topics s.trash_topic
  pub sessions_ok : SessionsOk s.sessions s.next_session
  -- each session is valid
  pub heap_ok : (p : ℕ) → IsValid (s.heap p)
  -- each client is registered under its own id
  pub clients_ok : Entries (λ id c. id ≡ c.client_id) s.clients
  -- the client of a channel's context answers on this channel
  pub param_ok : (channel : ℕ) (c : Client) → s.param channel ≡ some c → c.channel_id ≡ channel

pub make_topic-Ok : (f : Bytes) → TopicOk f (make_topic f)
make_topic-Ok f = record { name = refl; distinct = tt; grants = tt; retained = λ m e. absurd cc }

pub new_server-WellFormed : WellFormed new_server
unfolding at
new_server-WellFormed = record {
  topics_ok = record { exact_ok = tt; wild_ok = tt; trash_ok = make_topic-Ok trash_filter };
  sessions_ok = record { given = tt; unshared = λ i j p e. absurd cc };
  heap_ok = λ p. new_session-IsValid;
  clients_ok = tt;
  param_ok = λ channel c e. absurd cc;
}

-- ===== src/Tests/World.antt =====
-- A broker with two clients.
use shan_mqtt_broker.Base.{◌==◌, if◌then◌else◌, Option, ℕ, true, false, none, some, [], ◌∷◌, Bytes}
use shan_mqtt_broker.Packet.Connect.{Connect}
use shan_mqtt_broker.Packet.Publish.{Publish}
use shan_mqtt_broker.Packet.PublishTrip.{publish_of}
use shan_mqtt_broker.Config.{initial_config}
use shan_mqtt_broker.Session.{new_session}
use shan_mqtt_broker.Server.State.{Client, Topic, Env, Server}
use shan_mqtt_broker.Server.Topics.{make_topic}
use shan_mqtt_broker.Server.Subscribing.{trash_filter}

abbrev pub name_a : Bytes
name_a = b'a' ∷ []

abbrev pub name_b : Bytes
name_b = b'b' ∷ []

-- The topic name t/u, and the filters t/+ and t/#.
abbrev pub name_tu : Bytes
name_tu = b't' ∷ (b'/' ∷ (b'u' ∷ []))

abbrev pub filter_plus : Bytes
filter_plus = b't' ∷ (b'/' ∷ (b'+' ∷ []))

abbrev pub filter_hash : Bytes
filter_hash = b't' ∷ (b'/' ∷ (b'#' ∷ []))

abbrev pub mqtt : Bytes
mqtt = b'M' ∷ (b'Q' ∷ (b'T' ∷ (b'T' ∷ [])))

abbrev pub example_env : Env
example_env = record {
  cfg = record initial_config {
    protocol_name = mqtt;
    authentication = false;
    username = name_a;
    password = name_b;
    adminname = name_b;
    adminpass = name_b;
  };
  rand = λ n. n;
  channel_open = λ channel. true;
}

abbrev pub client_on : ℕ → Bytes → ℕ → Client
client_on channel id session = record {
  channel_id = channel;
  client_id = id;
  admin = false;
  clean_session = true;
  will_flag = false;
  will_qos = 0;
  will_retain = false;
  will_topic = [];
  will_message = [];
  session = session;
}

abbrev pub alice : Client
alice = client_on 7 name_a 1

abbrev pub bob : Client
bob = client_on 8 name_b 2

abbrev pub channel_clients : ℕ → Option Client
channel_clients channel =
    if channel == 7 then some alice else (if channel == 8 then some bob else none)

-- Alice has t/u with QoS 1, Bob t/+ with QoS 0.
abbrev pub exact_topic : Topic
exact_topic = record (make_topic name_tu) { clients = (alice, 1) ∷ [] }

abbrev pub plus_topic : Topic
plus_topic = record (make_topic filter_plus) { clients = (bob, 0) ∷ [] }

abbrev pub example_server : Server
example_server = record {
  clients = (name_a, alice) ∷ ((name_b, bob) ∷ []);
  topics = (name_tu, exact_topic) ∷ [];
  wild_topics = (filter_plus, plus_topic) ∷ [];
  trash_topic = make_topic trash_filter;
  sessions = (name_a, 1) ∷ ((name_b, 2) ∷ []);
  heap = λ p. new_session;
  next_session = 3;
  param = channel_clients;
  rand_calls = 0;
  output = [];
}

-- A CONNECT of a client a, with protocol level `level`.
abbrev pub example_connect : ℕ → Connect
example_connect level = record {
  fh = record { packet_type = 1; flags = 0; remaining_length = 13 };
  connect_flags = 2;
  fields = record {
    protocol_name = mqtt;
    protocol_level = level;
    username_flag = false;
    password_flag = false;
    will_retain = false;
    will_qos = 0;
    will_flag = false;
    clean_session = true;
    keep_alive = 60;
    client_id = name_a;
    will_topic = [];
    will_message = [];
    username = [];
    password = [];
  };
}

-- A message on t/u with QoS 1.
abbrev pub example_message : Publish
example_message = publish_of false 1 false name_tu 5 (b'x' ∷ [])

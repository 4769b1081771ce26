-- ===== src/Server/Starting.antt =====
-- The server before its first packet: the constructor `mqtt_server::mqtt_server`.
use shan_mqtt_broker.Base.{none, []}
use shan_mqtt_broker.Session.{new_session}
use shan_mqtt_broker.Server.State.{Server}
use shan_mqtt_broker.Server.Topics.{make_topic}
use shan_mqtt_broker.Server.Subscribing.{trash_filter}

-- No session is on the heap yet; a place that is not given out holds a new one. The seed of
-- `std::rand` is part of `Env.rand`.
abbrev pub new_server : Server
new_server = record {
  clients = [];
  topics = [];
  wild_topics = [];
  trash_topic = make_topic trash_filter;
  sessions = [];
  heap = λ p. new_session;
  next_session = 0;
  param = λ channel. none;
  rand_calls = 0;
  output = [];
}

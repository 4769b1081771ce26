-- ===== src/Server/Rules.antt =====
-- The elementary changes of the server's state (player/mqtt_server.cpp), as the laws that an invariant
-- has to obey so that the handlers keep it.
use shan_mqtt_broker.Base.{ℕ, suc, ◌≤◌, ◌≡◌, Bool, true, none, some, [], ◌∷◌, ◌++◌, Bytes, All}
use shan_mqtt_broker.Packet.Publish.{Publish}
use shan_mqtt_broker.Session.{Session, new_session}
use shan_mqtt_broker.Session.Valid.{SubscriptionOk}
use shan_mqtt_broker.Session.Steps.{Exchange, Change}
use shan_mqtt_broker.Server.Maps.{insert}
use shan_mqtt_broker.Server.State.{Client, Server, Effect, update, set_param}
use shan_mqtt_broker.Server.Topics.{
  TopicPtr, modify_topic, set_retained, topic_subscribe, topic_unsubscribe,
}
use shan_mqtt_broker.Server.Registry.{
  reg_client_ptr, delete_client_ptr, delete_session_ptr, get_topic_ptr_to_subscribe,
}
use shan_mqtt_broker.Server.Subscribing.{erase_topic}

abbrev pub emitted : Effect → Server → Server
emitted e s = record s { output = s.output ++ e ∷ [] }

abbrev pub session_set : ℕ → Session → Server → Server
session_set p t s = record s { heap = update p t s.heap }

-- A new session for a client identifier.
abbrev pub session_given : Bytes → Server → Server
session_given id s = record s {
  heap = update s.next_session new_session s.heap;
  next_session = suc s.next_session;
  sessions = insert id s.next_session s.sessions;
}

-- What the sending of messages does.
pub record Sending (P : Server → Type 0) : Type 0 where
  pub emit_law : (e : Effect) (s : Server) → P s → P (emitted e s)
  pub exchange_law :
      (p : ℕ) (t : Session) (s : Server) → Exchange (s.heap p) t → P s → P (session_set p t s)
  pub retain_law :
      (ptr : TopicPtr) (m : Publish) (s : Server)
      → m.retain ≡ true
      → P s
      → P (modify_topic ptr (set_retained m) s).1

-- What CONNECT and leaving do to clients and sessions. A client is kept as the parameter of its own
-- channel only.
pub record Registering (P : Server → Type 0) : Type 0 where
  pub give_law : (id : Bytes) (s : Server) → P s → P (session_given id s)
  pub delete_session_law : (id : Bytes) (s : Server) → P s → P (delete_session_ptr id s).1
  pub register_law : (c : Client) (s : Server) → P s → P (reg_client_ptr c s).1
  pub delete_client_law : (id : Bytes) (s : Server) → P s → P (delete_client_ptr id s).1
  pub clear_law : (channel : ℕ) (s : Server) → P s → P (set_param channel none s).1
  pub param_law :
      (channel : ℕ) (c : Client) (s : Server)
      → c.channel_id ≡ channel
      → P s
      → P (set_param channel (some c) s).1
  pub rand_law : (n : ℕ) (s : Server) → P s → P (record s { rand_calls = n })

-- What else the handlers do.
pub record Rules (P : Server → Type 0) : Type 0 where
  pub sending : Sending P
  pub registering : Registering P
  pub qos_law : (p : ℕ) (s : Server) → P s → All SubscriptionOk (s.heap p).subscriptions
  pub change_law :
      (p : ℕ) (t : Session) (s : Server) → Change (s.heap p) t → P s → P (session_set p t s)
  pub make_topic_law :
      (f : Bytes) (w : Bool) (s : Server) → P s → P (get_topic_ptr_to_subscribe f w s).1
  pub subscribe_law :
      (ptr : TopicPtr) (c : Client) (q : ℕ) (s : Server)
      → q ≤ 2
      → P s
      → P (modify_topic ptr (topic_subscribe c q) s).1
  pub unsubscribe_law :
      (ptr : TopicPtr) (c : Client) (s : Server)
      → P s
      → P (modify_topic ptr (topic_unsubscribe c) s).1
  pub erase_topic_law : (w : Bool) (f : Bytes) (s : Server) → P s → P (erase_topic w f s).1

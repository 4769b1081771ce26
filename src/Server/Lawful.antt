-- ===== src/Server/Lawful.antt =====
-- The elementary changes of the server (player/mqtt_server.cpp) keep it well formed.
use shan_mqtt_broker.Server.TopicLaws.{
  modify_topic-WellFormed, make_topic-WellFormed, erase_topic-WellFormed, subscribe-Ok,
  unsubscribe-Ok, retain-Ok,
}
use shan_mqtt_broker.Base.{
  ◌∙◌, ◌⊎◌, if-P, ℕ, suc, ◌<◌, ◌≡◌, Option, none, some, is_some, List, Bytes, bytes_eq, bytes_eq→eq,
  Bool-cases, inl, inr, refl, sym, ◌==◌, arith,
}
use shan_mqtt_broker.Session.{Session, new_session}
use shan_mqtt_broker.Session.Valid.{IsValid, new_session-IsValid, Exchange-IsValid, Change-IsValid}
use shan_mqtt_broker.Server.Maps.{at, insert, erase, at-erase}
use shan_mqtt_broker.Server.Entries.{
  Entries, at-Entries, erase-Entries, insert-Entries, map-Entries,
}
use shan_mqtt_broker.Server.State.{Effect, set_param, Client, Server, update}
use shan_mqtt_broker.Server.Topics.{set_retained, topic_subscribe, topic_unsubscribe}
use shan_mqtt_broker.Server.Rules.{Registering, session_given, session_set, Sending, Rules}
use shan_mqtt_broker.Server.WellFormed.{SessionsOk, WellFormed}
use shan_mqtt_broker.Server.Registry.{delete_session_ptr}

update-All :
    {A : Type 0} (P : A → Type 0) (p : ℕ) (v : A) (f : ℕ → A)
    → P v
    → ((q : ℕ) → P (f q))
    → (q : ℕ) → P (update p v f q)
update-All P p v f h k q = if-P P (q == p) v (f q) h (k q)

session_set-WellFormed :
    (p : ℕ) (t : Session) (s : Server) → IsValid t → WellFormed s → WellFormed (session_set p t s)
session_set-WellFormed p t s v h = record {
  topics_ok = h.topics_ok;
  sessions_ok = h.sessions_ok;
  heap_ok = update-All IsValid p t s.heap v h.heap_ok;
  clients_ok = h.clients_ok;
  param_ok = h.param_ok;
}

erase-SessionsOk :
    (id : Bytes) (m : List (Bytes × ℕ)) (n : ℕ) → SessionsOk m n → SessionsOk (erase id m) n
erase-SessionsOk id m n h = record {
  given = erase-Entries (λ id p. p < n) id m h.given;
  unshared = λ i j p a b.
      h.unshared i j p (ground (arith, at-erase id i m, a)) (ground (arith, at-erase id j m, b));
}

given_below :
    (m : List (Bytes × ℕ)) (n : ℕ) (i : Bytes) (p : ℕ) → SessionsOk m n → at i m ≡ some p → p < n
given_below m n i p h = at-Entries (λ id p. p < n) m i p h.given

in_insert :
    (id : Bytes) (m : List (Bytes × ℕ)) (n : ℕ) (i : Bytes) (p : ℕ)
    → at i (insert id n m) ≡ some p
    → (at i m ≡ some p) ⊎ ((id ≡ i) × (p ≡ n))
unfolding insert at
in_insert id m n i p e = elim (Bool-cases (is_some (at id m))) [
  | inl b ↦ inl (ground (arith, b, e))
  | inr b ↦ elim (Bool-cases (bytes_eq id i)) [
    | inl c ↦ inr (bytes_eq→eq id i c, ground (arith, b, c, e))
    | inr c ↦ inl (ground (arith, b, c, e))
  ]
]

insert-SessionsOk :
    (id : Bytes) (m : List (Bytes × ℕ)) (n : ℕ)
    → SessionsOk m n
    → SessionsOk (insert id n m) (suc n)
unfolding insert at
insert-SessionsOk id m n h = record {
  given =
      insert-Entries (λ id p. p < suc n) id n m (omega arith)
        (map-Entries (λ id p. p < n) (λ id p. p < suc n) m (λ i p l. omega arith) h.given);
  unshared = λ i j p a b. elim (in_insert id m n i p a) [
    | inl a' ↦ elim (in_insert id m n j p b) [
      | inl b' ↦ h.unshared i j p a' b'
      | inr (_, q) ↦ absurd (omega (arith, given_below m n i p h a', q))
    ]
    | inr (x, q) ↦ elim (in_insert id m n j p b) [
      | inl b' ↦ absurd (omega (arith, given_below m n j p h b', q))
      | inr (y, _) ↦ sym x ∙ y
    ]
  ];
}

give-WellFormed : (id : Bytes) (s : Server) → WellFormed s → WellFormed (session_given id s)
give-WellFormed id s h = record {
  topics_ok = h.topics_ok;
  sessions_ok = insert-SessionsOk id s.sessions s.next_session h.sessions_ok;
  heap_ok = update-All IsValid s.next_session new_session s.heap new_session-IsValid h.heap_ok;
  clients_ok = h.clients_ok;
  param_ok = h.param_ok;
}

delete_session-WellFormed :
    (id : Bytes) (s : Server) → WellFormed s → WellFormed (delete_session_ptr id s).1
delete_session-WellFormed id s h = record {
  topics_ok = h.topics_ok;
  sessions_ok = erase-SessionsOk id s.sessions s.next_session h.sessions_ok;
  heap_ok = h.heap_ok;
  clients_ok = h.clients_ok;
  param_ok = h.param_ok;
}

clients_changed :
    (m : List (Bytes × Client)) (s : Server)
    → Entries (λ id c. id ≡ c.client_id) m
    → WellFormed s
    → WellFormed (record s { clients = m })
clients_changed m s k h = record {
  topics_ok = h.topics_ok;
  sessions_ok = h.sessions_ok;
  heap_ok = h.heap_ok;
  clients_ok = k;
  param_ok = h.param_ok;
}

param-WellFormed :
    (channel : ℕ) (o : Option Client) (s : Server)
    → ((c : Client) → o ≡ some c → c.channel_id ≡ channel)
    → WellFormed s
    → WellFormed (set_param channel o s).1
param-WellFormed channel o s k h = record {
  topics_ok = h.topics_ok;
  sessions_ok = h.sessions_ok;
  heap_ok = h.heap_ok;
  clients_ok = h.clients_ok;
  param_ok = λ j c e. elim (Bool-cases (j == channel)) [
    | inl b ↦ ground (arith, b, e, k c)
    | inr b ↦ h.param_ok j c (ground (arith, b, e))
  ];
}

-- What is not read by `WellFormed` may change.
pub unread_changed :
    (n : ℕ) (output : List Effect) (s : Server)
    → WellFormed s
    → WellFormed (record s { rand_calls = n; output = output })
unread_changed n output s h = record {
  topics_ok = h.topics_ok;
  sessions_ok = h.sessions_ok;
  heap_ok = h.heap_ok;
  clients_ok = h.clients_ok;
  param_ok = h.param_ok;
}

pub sending-WellFormed : Sending WellFormed
sending-WellFormed = record {
  emit_law = λ e s h. unread_changed s.rand_calls _ s h;
  exchange_law =
      λ p t s e h. session_set-WellFormed p t s (Exchange-IsValid (s.heap p) t e (h.heap_ok p)) h;
  retain_law = λ ptr m s r. modify_topic-WellFormed (set_retained m) (retain-Ok m r) ptr s;
}

pub registering-WellFormed : Registering WellFormed
registering-WellFormed = record {
  give_law = give-WellFormed;
  delete_session_law = delete_session-WellFormed;
  register_law = λ c s h.
      clients_changed _ s
        (insert-Entries (λ id c. id ≡ c.client_id) c.client_id c s.clients refl h.clients_ok) h;
  delete_client_law = λ id s h.
      clients_changed _ s (erase-Entries (λ id c. id ≡ c.client_id) id s.clients h.clients_ok) h;
  clear_law = λ channel s h. param-WellFormed channel none s (λ c e. absurd cc) h;
  param_law =
      λ channel c s e h. param-WellFormed channel (some c) s (λ d f. ground (arith, e, f)) h;
  rand_law = λ n s h. unread_changed n s.output s h;
}

pub rules-WellFormed : Rules WellFormed
rules-WellFormed = record {
  sending = sending-WellFormed;
  registering = registering-WellFormed;
  qos_law = λ p s h. (h.heap_ok p).subs;
  change_law =
      λ p t s e h. session_set-WellFormed p t s (Change-IsValid (s.heap p) t e (h.heap_ok p)) h;
  make_topic_law = make_topic-WellFormed;
  subscribe_law =
      λ ptr c q s l. modify_topic-WellFormed (topic_subscribe c q) (subscribe-Ok c q l) ptr s;
  unsubscribe_law =
      λ ptr c s. modify_topic-WellFormed (topic_unsubscribe c) (unsubscribe-Ok c) ptr s;
  erase_topic_law = erase_topic-WellFormed;
}

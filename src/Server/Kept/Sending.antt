-- ===== src/Server/Kept/Sending.antt =====
-- What sending keeps: `mqtt_client::publish` and the answers (player/mqtt_client.cpp), `topic::publish`
-- (object/topic.cpp) and `handle_publish` (player/mqtt_server.cpp).
use shan_mqtt_broker.Topic.Filter.{match}
use shan_mqtt_broker.Server.Maps.{at}
use Prim.Native.Nat.{min}
use shan_mqtt_broker.Base.{
  sym, subst, ℕ, ◌≡◌, Bool, true, false, not, Option, none, some, List, [], ◌∷◌, Bytes, ◌==◌, arith,
}
use shan_mqtt_broker.Outcome
use shan_mqtt_broker.Outcome.{out_of_range, Result, ok, err, stuck, Error, throw_if}
use shan_mqtt_broker.Packet.Publish.{Publish, make_publish}
use shan_mqtt_broker.Packet.Acks.{Ack, make_puback, make_pubrec, make_pubrel, make_pubcomp}
use shan_mqtt_broker.Packet.Any
use shan_mqtt_broker.Session.{Session}
use shan_mqtt_broker.Session.Steps.{
  Exchange, kept_for_ack, kept_for_rec, acked, received, awaits_comp, completed, awaits_rel,
  released, new_packet_id-Counts, Counts,
}
use shan_mqtt_broker.Server.State.{
  raise, Client, Topic, Server, Effect, write, lift, ◌>>=◌, emit, modify_session,
}
use shan_mqtt_broker.Server.Keeping.{
  get_bind-Keeps, lift_bind-Keeps, Post-Whatever, Post, Whatever, Safe, bind-Keeps, then-Keeps,
  try_catch-Keeps, if-Keeps, lift-Keeps, pure-Keeps, skip-Safe, step-Safe, when-Safe,
}
use shan_mqtt_broker.Server.Rules.{Sending}
use shan_mqtt_broker.Server.Clients.{
  after_id, session_packet_id, keep_unacked, client_publish, client_handle_puback,
  client_handle_pubrec, client_handle_pubrel, client_handle_pubcomp,
}
use shan_mqtt_broker.Server.Topics.{
  TopicPtr, exact, wild, trash, modify_topic, publish_to, topic_publish,
}
use shan_mqtt_broker.Server.Registry.{publish_exact_topic}
use shan_mqtt_broker.Server.Publishing.{
  agent, acknowledge, forward, publish_wild_topics, publish_trash, handle_publish, handle_puback,
  handle_pubrec, handle_pubrel, handle_pubcomp,
}

throw_if-Post :
    {A : Type 0} (Q : A → Type 0) (b : Bool) (e : Error) (k : Result A)
    → Post Q k
    → Post Q (Outcome.◌>>◌ (throw_if b e) k)
throw_if-Post Q true e k h = tt
throw_if-Post Q false e k h = h

make_publish_qos :
    (dup : Bool) (qos : ℕ) (retain : Bool) (name : Bytes) (id : ℕ) (payload : Bytes)
    → Post (λ p. p.qos ≡ qos) (make_publish dup qos retain name id payload)
unfolding make_publish
make_publish_qos dup qos retain name id payload = ground arith

-- A change of the topic behind a pointer.
pub modify_topic-Safe :
    {P : Server → Type 0} (ptr : TopicPtr) (g : Topic → Topic)
    → ((s : Server) → P s → P (modify_topic ptr g s).1)
    → Safe P (modify_topic ptr g)
modify_topic-Safe (exact f) g h = step-Safe h
modify_topic-Safe (wild f) g h = step-Safe h
modify_topic-Safe trash g h = step-Safe h

agent_state : (channel : ℕ) (s : Server) → (agent channel s).1 ≡ s
unfolding agent
agent_state channel s = ground arith

pub agent-Safe : {P : Server → Type 0} (channel : ℕ) → Safe P (agent channel)
agent-Safe {P} channel = record {
  kept = λ s p. (Post-Whatever (agent channel s).0, subst P (sym (agent_state channel s)) p);
}

module _ {P : Server → Type 0} (r : Sending P) where
  pub emit-Safe : (e : Effect) → Safe P (emit e)
  emit-Safe e = step-Safe (r.emit_law e)

  -- A packet that is made and written.
  pub send-Safe : {A : Type 0} (m : Result A) (e : A → Effect) → Safe P (lift m >>= λ a. emit (e a))
  send-Safe m e = lift_bind-Keeps m λ a. emit-Safe (e a)

  pub exchange-Safe :
      (p : ℕ) (f : Session → Session)
      → ((t : Session) → Exchange t (f t))
      → Safe P (modify_session p f)
  exchange-Safe p f h = step-Safe (λ s. r.exchange_law p _ s (h (s.heap p)))

  after_id-Safe :
      (p : ℕ) (s : Server) (x : Result (ℕ × Session))
      → Counts (s.heap p) x
      → P s
      → Post Whatever (after_id p s x).0 × P (after_id p s x).1
  after_id-Safe p s (ok (id, t)) h k = (tt, r.exchange_law p t s h k)
  after_id-Safe p s (err e) h k = (tt, k)
  after_id-Safe p s stuck h k = (tt, k)

  pub session_packet_id-Safe : (p : ℕ) → Safe P (session_packet_id p)
  unfolding session_packet_id
  session_packet_id-Safe p = record {
    kept = λ s h. after_id-Safe p s _ (new_packet_id-Counts (s.heap p)) h;
  }

  keep_unacked-Safe :
      (session qos : ℕ) (p : Publish) → p.qos ≡ qos → Safe P (keep_unacked session qos p)
  keep_unacked-Safe session qos p e =
      if-Keeps (qos == 1)
        (λ h. exchange-Safe session _ (λ t. kept_for_ack p (ground (arith, e, h))))
        (λ _.
          if-Keeps (qos == 2)
            (λ h. exchange-Safe session _ (λ t. kept_for_rec p (ground (arith, e, h))))
            (λ _. skip-Safe))

  pub client_publish-Safe :
      (c : Client) (max_qos : ℕ) (retained : Bool) (packet : Publish)
      → Safe P (client_publish c max_qos retained packet)
  unfolding client_publish
  client_publish-Safe c max_qos retained packet =
      bind-Keeps (session_packet_id-Safe c.session) λ id _.
        bind-Keeps
          (lift-Keeps _ (
            make_publish_qos false (min packet.qos max_qos) retained packet.topic_name id
              packet.payload))
          λ p e. then-Keeps (keep_unacked-Safe c.session (min packet.qos max_qos) p e) (emit-Safe _)

  publish_to-Safe : (cs : List (Client × ℕ)) (packet : Publish) → Safe P (publish_to cs packet)
  unfolding publish_to
  publish_to-Safe [] packet = skip-Safe
  publish_to-Safe ((c, q) ∷ cs) packet =
      then-Keeps (client_publish-Safe c q false packet) (publish_to-Safe cs packet)

  pub topic_publish-Safe :
      (ptr : TopicPtr) (t : Topic) (packet : Publish) → Safe P (topic_publish ptr t packet)
  unfolding topic_publish
  topic_publish-Safe ptr t packet =
      then-Keeps
        (when-Safe packet.retain (λ e. modify_topic-Safe ptr _ (λ s. r.retain_law ptr packet s e)))
        (then-Keeps (publish_to-Safe t.clients packet) (pure-Keeps _ tt))

  found-Safe :
      (name : Bytes) (packet : Publish) (s : Server) (o : Option Topic)
      → P s
      → Post Whatever
          (elim o as (λ _. Result Bool × Server) [
            | none ↦ raise out_of_range s
            | some t ↦ topic_publish (exact name) t packet s
          ]).0
        × P
            (elim o as (λ _. Result Bool × Server) [
              | none ↦ raise out_of_range s
              | some t ↦ topic_publish (exact name) t packet s
            ]).1
  found-Safe name packet s none p = (tt, p)
  found-Safe name packet s (some t) p = (topic_publish-Safe (exact name) t packet).kept s p

  publish_exact_topic-Safe :
      (name : Bytes) (packet : Publish) → Safe P (publish_exact_topic name packet)
  unfolding publish_exact_topic
  publish_exact_topic-Safe name packet = record {
    kept = λ s p. found-Safe name packet s (at name s.topics) p;
  }

  publish_wild_topics-Safe :
      (l : List (Bytes × Topic)) (packet : Publish) (sent : Bool)
      → Safe P (publish_wild_topics l packet sent)
  unfolding publish_wild_topics
  publish_wild_topics-Safe [] packet sent = pure-Keeps sent tt
  publish_wild_topics-Safe ((f, t) ∷ l) packet sent =
      bind-Keeps {Q = Whatever}
        (if-Keeps (match f packet.topic_name) (λ _. topic_publish-Safe (wild f) t packet)
          (λ _. pure-Keeps sent tt))
        (λ sent' _. publish_wild_topics-Safe l packet sent')

  publish_trash-Safe : (packet : Publish) → Safe P (publish_trash packet)
  unfolding publish_trash
  publish_trash-Safe packet = get_bind-Keeps λ s.
      lift_bind-Keeps
        (make_publish false 1 false s.trash_topic.topic_filter 0xffff packet.topic_name)
        λ p. bind-Keeps {Q = Whatever} (topic_publish-Safe trash s.trash_topic p) λ _ _. skip-Safe

  pub forward-Safe : (packet : Publish) → Safe P (forward packet)
  unfolding forward
  forward-Safe packet =
      bind-Keeps {Q = Whatever}
        (try_catch-Keeps (publish_exact_topic-Safe packet.topic_name packet)
          (λ _. pure-Keeps false tt))
        λ sent _. get_bind-Keeps λ s.
          bind-Keeps {Q = Whatever} (publish_wild_topics-Safe s.wild_topics packet sent)
            λ sent' _. when-Safe (not sent') (λ _. publish_trash-Safe packet)

  acknowledge-Safe :
      (channel : ℕ) (c : Client) (packet : Publish) → Safe P (acknowledge channel c packet)
  unfolding acknowledge
  acknowledge-Safe channel c packet =
      if-Keeps (packet.qos == 1)
        (λ _. send-Safe (make_puback packet.packet_id) (λ p. write channel (Any.puback p)))
        (λ _.
          if-Keeps (packet.qos == 2)
            (λ _.
              then-Keeps (exchange-Safe c.session _ (λ t. awaits_rel packet.packet_id))
                (send-Safe (make_pubrec packet.packet_id) (λ p. write channel (Any.pubrec p))))
            (λ _. skip-Safe))

  pub handle_publish-Safe :
      (channel : ℕ) (packet : Publish) → Safe P (handle_publish channel packet)
  unfolding handle_publish
  handle_publish-Safe channel packet =
      bind-Keeps {Q = Whatever} (agent-Safe channel)
        λ c _. then-Keeps (acknowledge-Safe channel c packet) (forward-Safe packet)

  pub handle_puback-Safe : (channel : ℕ) (packet : Ack) → Safe P (handle_puback channel packet)
  unfolding handle_puback client_handle_puback
  handle_puback-Safe channel packet =
      bind-Keeps {Q = Whatever} (agent-Safe channel)
        λ c _. exchange-Safe c.session _ (λ t. acked packet.packet_id)

  pub handle_pubrec-Safe : (channel : ℕ) (packet : Ack) → Safe P (handle_pubrec channel packet)
  unfolding handle_pubrec client_handle_pubrec
  handle_pubrec-Safe channel packet = bind-Keeps {Q = Whatever} (agent-Safe channel) λ c _.
      then-Keeps (exchange-Safe c.session _ (λ t. received packet.packet_id)) (
        then-Keeps (exchange-Safe c.session _ (λ t. awaits_comp packet.packet_id))
          (send-Safe (make_pubrel packet.packet_id) (λ p. write c.channel_id (Any.pubrel p))))

  pub handle_pubrel-Safe : (channel : ℕ) (packet : Ack) → Safe P (handle_pubrel channel packet)
  unfolding handle_pubrel client_handle_pubrel
  handle_pubrel-Safe channel packet = bind-Keeps {Q = Whatever} (agent-Safe channel) λ c _.
      then-Keeps (exchange-Safe c.session _ (λ t. released packet.packet_id))
        (send-Safe (make_pubcomp packet.packet_id) (λ p. write c.channel_id (Any.pubcomp p)))

  pub handle_pubcomp-Safe : (channel : ℕ) (packet : Ack) → Safe P (handle_pubcomp channel packet)
  unfolding handle_pubcomp client_handle_pubcomp
  handle_pubcomp-Safe channel packet =
      bind-Keeps {Q = Whatever} (agent-Safe channel)
        λ c _. exchange-Safe c.session _ (λ t. completed packet.packet_id)

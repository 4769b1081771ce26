-- ===== src/Server/Everyone.antt =====
-- What becomes of a PUBLISH: `mqtt_server::handle_publish` (player/mqtt_server.cpp).
use shan_mqtt_broker.Session.{Session, add_packet_id_for_pubrel}
use shan_mqtt_broker.Base.{
  inr, subst, inl, Bool-cases, ◌==◌, ℕ, ◌+◌, ◌≡◌, Bool, false, not, Bytes, List, [], ◌∷◌, ◌++◌,
  none, some, Option, is_empty, if◌then◌else◌, length, length-append, append_assoc, append-nil,
  refl, ◌∙◌, ap, sym, arith,
}
use shan_mqtt_broker.Outcome.{ok}
use shan_mqtt_broker.Packet.Publish.{Publish}
use shan_mqtt_broker.Packet.Any
use shan_mqtt_broker.Packet.AckTrip.{header_of}
use shan_mqtt_broker.Packet.Acks.{make_pubrec, make_puback, Ack}
use shan_mqtt_broker.Server.Maps.{at}
use shan_mqtt_broker.Server.State.{
  update, pure, try_catch, Client, Topic, Server, Effect, when, write,
}
use shan_mqtt_broker.Server.Topics.{exact}
use shan_mqtt_broker.Server.Delivery.{HasRoom, IsSendable}
use shan_mqtt_broker.Server.Fanout.{Deliveries, AllRoom, AllRoom-map}
use shan_mqtt_broker.Server.Publishing.{forward, publish_trash, handle_publish, acknowledge, agent}
use shan_mqtt_broker.Server.Registry.{publish_exact_topic}
use shan_mqtt_broker.Server.Forwarding.{
  wild_clients, clients_of, recipients, last_sent, Published, Published-nil, Published-append,
  Deliveries-append, AllRoom-append, topic_delivers, wild_delivers,
}

-- Whether the server takes the message for sent.
abbrev pub is_sent : Bytes → Server → Bool
is_sent name s = last_sent name s.wild_topics (not (is_empty (clients_of (at name s.topics))))

-- The topic of the message's name, if there is one.
exact_delivers :
    (l : ℕ) (o : Option Topic) (packet : Publish) (s : Server)
    → at packet.topic_name s.topics ≡ o
    → IsSendable packet
    → AllRoom (length (clients_of o) + l) (clients_of o) s.heap
    → (s' : Server) × (out : List Effect) × (try_catch
          (publish_exact_topic packet.topic_name packet)
          (λ _. pure false)
          s
        ≡ (ok (not (is_empty (clients_of o))), s'))
      × Published out s s'
      × Deliveries packet (clients_of o) out
      × ((j : ℕ) → HasRoom (length (clients_of o) + l) (s.heap j) → HasRoom l (s'.heap j))
      × (s'.wild_topics ≡ s.wild_topics)
unfolding publish_exact_topic
exact_delivers l none packet s e v r = (
  s,
  [],
  rw (e, publish_exact_topic) refl,
  Published-nil s,
  refl,
  λ j h. (h.0, omega (arith, h.1)),
  refl,
)
exact_delivers l (some t) packet s e v r =
    let (s', out, e', p, d, room, same) =
      topic_delivers l (exact packet.topic_name) t packet s v r in
    (s', out, rw (e, publish_exact_topic, e') refl, p, d, room, same)

forward_reaches :
    (packet : Publish) (s : Server)
    → IsSendable packet
    → AllRoom (length (recipients packet.topic_name s)) (recipients packet.topic_name s) s.heap
    → (s' : Server) × (out : List Effect) × (forward packet s
        ≡ when (not (is_sent packet.topic_name s)) (publish_trash packet) s')
      × Published out s s'
      × Deliveries packet (recipients packet.topic_name s) out
unfolding forward
forward_reaches packet s v r =
    let name = packet.topic_name in
    let o = at name s.topics in
    let ws = wild_clients name s.wild_topics in
    let all = recipients name s in
    let fits : (j : ℕ)
        → HasRoom (length all) (s.heap j)
        → HasRoom (length (clients_of o) + (length ws + 0)) (s.heap j) =
      λ j h. (h.0, omega (arith, h.1, length-append (clients_of o) ws)) in
    let split = AllRoom-append (length all) (clients_of o) ws s.heap r in
    let (s1, a, e, p, d, room, same) = exact_delivers (length ws + 0) o packet s refl v (
      AllRoom-map (length all) (length (clients_of o) + (length ws + 0)) (clients_of o) s.heap
        s.heap fits split.0) in
    let (s2, b, e', p', d', _) =
      wild_delivers 0 s.wild_topics packet (not (is_empty (clients_of o))) s1 v (
        AllRoom-map (length all) (length ws + 0) ws s.heap s1.heap (λ j h. room j (fits j h))
          split.1) in
    (
      s2,
      a ++ b,
      rw (e, same, e') refl,
      Published-append a b s s1 s2 p p',
      Deliveries-append packet (clients_of o) ws a b d d',
    )

abbrev ack_of : ℕ → ℕ → Ack
ack_of packet_type id = record { fh = header_of packet_type 0 2; packet_id = id }

-- The answer to the client that publishes: PUBACK for QoS 1, PUBREC for QoS 2.
abbrev pub answers : ℕ → Publish → List Effect
answers channel packet =
    if packet.qos == 1
    then write channel (Any.puback (ack_of 4 packet.packet_id)) ∷ []
    else (if packet.qos == 2
        then write channel (Any.pubrec (ack_of 5 packet.packet_id)) ∷ []
        else [])

entered-HasRoom :
    (k id session j : ℕ) (heap : ℕ → Session)
    → HasRoom k (heap j)
    → HasRoom k (update session (add_packet_id_for_pubrel id (heap session)) heap j)
unfolding add_packet_id_for_pubrel
entered-HasRoom k id session j heap r = elim (Bool-cases (j == session)) [
  | inl e ↦ let eq : j ≡ session = ground (arith, e) in rw e (subst (λ i. HasRoom k (heap i)) eq r)
  | inr n ↦ rw n r
]

acknowledge-answers :
    (channel : ℕ) (c : Client) (packet : Publish) (s : Server)
    → (heap : ℕ → Session) × (acknowledge channel c packet s
        ≡ (ok tt, record s { heap = heap; output = s.output ++ answers channel packet }))
      × ((k j : ℕ) → HasRoom k (s.heap j) → HasRoom k (heap j))
unfolding acknowledge make_puback make_pubrec
acknowledge-answers channel c packet s = elim (Bool-cases (packet.qos == 1)) [
  | inl h ↦ rw h (s.heap, refl, λ k j r. r)
  | inr h ↦ elim (Bool-cases (packet.qos == 2)) [
    | inl i ↦ rw (h, i) (_, refl, λ k j r. entered-HasRoom k packet.packet_id c.session j s.heap r)
    | inr i ↦
        rw (h, i)
          (
            s.heap,
            ap {A = List Effect} (λ o. (ok tt, record s { output = o }))
                (sym (append-nil s.output)),
            λ k j r. r,
          )
  ]
]

-- A PUBLISH on a channel with a client, with a QoS below 3 and a size that the broker can read:
-- while the session of each recipient has as many packet ids free as there are recipients, it is
-- answered as its QoS asks for, and then goes once to every client of the topic of its name, and
-- of each topic with wildcards that matches the name; nothing else is sent, but for the message to
-- the topic $sys/trash where the server takes it for sent to nobody.
pub handle_publish_reaches :
    (channel : ℕ) (c : Client) (packet : Publish) (s : Server)
    → s.param channel ≡ some c
    → IsSendable packet
    → AllRoom (length (recipients packet.topic_name s)) (recipients packet.topic_name s) s.heap
    → (s' : Server) × (out : List Effect) × (handle_publish channel packet s
        ≡ when (not (is_sent packet.topic_name s)) (publish_trash packet) s')
      × (s'.output ≡ s.output ++ (answers channel packet ++ out))
      × Deliveries packet (recipients packet.topic_name s) out
unfolding handle_publish
handle_publish_reaches channel c packet s e v r =
    let known : agent channel s ≡ (ok c, s) = rw (e, agent) refl in
    let (heap, a, room) = acknowledge-answers channel c packet s in
    let s1 = record s { heap = heap; output = s.output ++ answers channel packet } in
    let all = recipients packet.topic_name s in
    let (s2, out, e', p, d) =
      forward_reaches packet s1 v
        (AllRoom-map (length all) (length all) all s.heap heap (λ j h. room (length all) j h) r) in
    (
      s2,
      out,
      rw (known, a) e',
      ap (λ x. x.output) p ∙ append_assoc s.output (answers channel packet) out,
      d,
    )

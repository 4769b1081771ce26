-- ===== src/Server/Fanout.antt =====
-- The loop of `topic::publish` (object/topic.cpp) over all clients of a topic.
use shan_mqtt_broker.Session.PacketIds.{ids_in_use, publish_ids}
use Prim.Native.Nat.{min}
use shan_mqtt_broker.Outcome.{ok}
use shan_mqtt_broker.Packet.Publish.{Publish}
use shan_mqtt_broker.Packet.Any
use shan_mqtt_broker.Session.{add_publish_for_ack, add_publish_for_rec, Session, increment}
use shan_mqtt_broker.Server.State.{Client, Server, Effect, write}
use shan_mqtt_broker.Server.Topics.{publish_to}
use shan_mqtt_broker.Server.Delivery.{HasRoom, IsSendable, copy_of, keep, client_publish_sends}
use shan_mqtt_broker.Base.{
  inr, length-append, subst, inl, ◌==◌, Bool-cases, sym, ◌≢◌, ℕ, suc, ◌+◌, ◌≤◌, ◌≡◌, false, List,
  [], ◌∷◌, ◌++◌, refl, ap, arith, length, append_assoc, append-nil,
}

-- The calls on the network for a message: one for each client, in the order of the topic, with the
-- smaller QoS, without the retain flag, and with the topic name and payload of the message.
abbrev pub Deliveries : Publish → List (Client × ℕ) → List Effect → Type 0
Deliveries packet [] out = out ≡ []
Deliveries packet ((c, max_qos) ∷ cs) out =
    (id : ℕ) × (out' : List Effect) × (out
      ≡ write c.channel_id (Any.publish (copy_of max_qos false packet id)) ∷ out')
    × (1 ≤ id)
    × (id ≤ 65535)
    × Deliveries packet cs out'

length-publish_ids :
    (ps : List Publish) (p : Publish)
    → length (publish_ids (ps ++ p ∷ [])) ≡ suc (length (publish_ids ps))
length-publish_ids [] p = refl
length-publish_ids (q ∷ ps) p = rw (length-publish_ids ps p) refl

length-ids_in_use :
    (s : Session)
    → length (ids_in_use s)
      ≡ length (publish_ids s.publish_for_ack)
        + (length (publish_ids s.publish_for_rec) + length s.packet_id_for_pubcomp)
length-ids_in_use s = omega (
  arith,
  length-append (publish_ids s.publish_for_ack)
      (publish_ids s.publish_for_rec ++ s.packet_id_for_pubcomp),
  length-append (publish_ids s.publish_for_rec) s.packet_id_for_pubcomp,
)

ids-add_publish_for_ack :
    (p : Publish) (s : Session)
    → length (ids_in_use (add_publish_for_ack p s)) ≡ suc (length (ids_in_use s))
unfolding add_publish_for_ack
ids-add_publish_for_ack p s = omega (
  arith,
  length-ids_in_use s,
  length-ids_in_use (add_publish_for_ack p s),
  length-publish_ids s.publish_for_ack p,
)

ids-add_publish_for_rec :
    (p : Publish) (s : Session)
    → length (ids_in_use (add_publish_for_rec p s)) ≡ suc (length (ids_in_use s))
unfolding add_publish_for_rec
ids-add_publish_for_rec p s = omega (
  arith,
  length-ids_in_use s,
  length-ids_in_use (add_publish_for_rec p s),
  length-publish_ids s.publish_for_rec p,
)

keep-HasRoom :
    (k qos id : ℕ) (p : Publish) (s : Session)
    → HasRoom (suc k) s
    → HasRoom k (keep qos p (record s { next_packet_id = increment id }))
unfolding add_publish_for_ack add_publish_for_rec
keep-HasRoom k qos id p s r =
    let s1 : Session = record s { next_packet_id = increment id } in
    elim (Bool-cases (qos == 1)) [
      | inl h ↦ rw h (omega arith, omega (arith, r.1, ids-add_publish_for_ack p s1))
      | inr h ↦ elim (Bool-cases (qos == 2)) [
        | inl i ↦ rw (h, i) (omega arith, omega (arith, r.1, ids-add_publish_for_rec p s1))
        | inr i ↦ rw (h, i) (omega arith, omega (arith, r.1))
      ]
    ]

room_after :
    (k qos id session j : ℕ) (p : Publish) (h h' : ℕ → Session)
    → h' session ≡ keep qos p (record (h session) { next_packet_id = increment id })
    → ((i : ℕ) → i ≢ session → h' i ≡ h i)
    → HasRoom (suc k) (h j)
    → HasRoom k (h' j)
room_after k qos id session j p h h' same other r = elim (Bool-cases (j == session)) [
  | inl e ↦
      let eq : session ≡ j = ground (arith, e) in
      let r' : HasRoom (suc k) (h session) = subst (λ i. HasRoom (suc k) (h i)) (sym eq) r in
      subst (λ i. HasRoom k (h' i)) eq
        (subst (HasRoom k) (sym same) (keep-HasRoom k qos id p (h session) r'))
  | inr n ↦
      let ne : j ≢ session = ground (arith, n) in
      subst (HasRoom k) (sym (other j ne)) (r.0, omega (arith, r.1))
]

-- Every client of the list can take `k` more messages.
abbrev pub AllRoom : ℕ → List (Client × ℕ) → (ℕ → Session) → Type 0
AllRoom k [] heap = Unit {0}
AllRoom k ((c, q) ∷ cs) heap = HasRoom k (heap c.session) × AllRoom k cs heap

pub AllRoom-map :
    (k l : ℕ) (cs : List (Client × ℕ)) (heap heap' : ℕ → Session)
    → ((j : ℕ) → HasRoom k (heap j) → HasRoom l (heap' j))
    → AllRoom k cs heap
    → AllRoom l cs heap'
AllRoom-map k l [] heap heap' f r = tt
AllRoom-map k l ((c, q) ∷ cs) heap heap' f r =
    (f c.session r.0, AllRoom-map k l cs heap heap' f r.1)

-- The same with room for `l` more messages, which is there afterwards.
pub publish_to_keeps :
    (l : ℕ) (cs : List (Client × ℕ)) (packet : Publish) (s : Server)
    → IsSendable packet
    → AllRoom (length cs + l) cs s.heap
    → (heap : ℕ → Session) × (out : List Effect) × (publish_to cs packet s
        ≡ (ok tt, record s { heap = heap; output = s.output ++ out }))
      × Deliveries packet cs out
      × ((j : ℕ) → HasRoom (length cs + l) (s.heap j) → HasRoom l (heap j))
unfolding publish_to
publish_to_keeps l [] packet s v r = (
  s.heap,
  [],
  ap (λ o. (ok tt, record s { output = o })) (sym (append-nil s.output)),
  refl,
  λ j h. (h.0, omega (arith, h.1)),
)
publish_to_keeps l ((c, q) ∷ cs) packet s v r =
    let (id, heap, e, low, high, _, same, other) =
      client_publish_sends c q false packet s v (r.0.0, omega (arith, r.0.1)) in
    let next : (j : ℕ)
        → HasRoom (suc (length cs + l)) (s.heap j)
        → HasRoom (length cs + l) (heap j) =
      λ j h.
        room_after (length cs + l) (min packet.qos q) id c.session j (copy_of q false packet id)
          s.heap heap same other h in
    let w = write c.channel_id (Any.publish (copy_of q false packet id)) in
    let (heap', out, e', d, room) =
      publish_to_keeps l cs packet (record s { heap = heap; output = s.output ++ w ∷ [] }) v
        (AllRoom-map (length ((c, q) ∷ cs) + l) (length cs + l) cs s.heap heap
          (λ j h. next j (h.0, omega (arith, h.1))) r.1) in
    (
      heap',
      w ∷ out,
      rw (e, e')
          (ap (λ o. (ok tt, record s { heap = heap'; output = o }))
            (append_assoc s.output (w ∷ []) out)),
      (id, out, refl, low, high, d),
      λ j h. room j (next j (h.0, omega (arith, h.1))),
    )

-- Publishing a message with a QoS below 3 and a size that the broker can read to the clients of a
-- topic succeeds while every one of their sessions has as many packet ids free as there are
-- clients, and sends each client the message once.
pub publish_to_delivers :
    (cs : List (Client × ℕ)) (packet : Publish) (s : Server)
    → IsSendable packet
    → AllRoom (length cs) cs s.heap
    → (heap : ℕ → Session) × (out : List Effect) × (publish_to cs packet s
        ≡ (ok tt, record s { heap = heap; output = s.output ++ out }))
      × Deliveries packet cs out
publish_to_delivers cs packet s v r =
    let whole : length cs ≡ length cs + 0 = omega arith in
    let (heap, out, e, d, _) =
      publish_to_keeps 0 cs packet s v (subst (λ n. AllRoom n cs s.heap) whole r) in
    (heap, out, e, d)

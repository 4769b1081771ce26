-- ===== src/Server/Delivery.antt =====
-- How a message reaches the clients of a topic: `mqtt_client::publish` (player/mqtt_client.cpp) and
-- the loop of `topic::publish` (object/topic.cpp).
use shan_mqtt_broker.Constants.{qos_exactly_once, qos_at_least_once}
use shan_mqtt_broker.Packet.PublishTrip.{make-publish_of, publish_of}
use shan_mqtt_broker.Server.Clients.{keep_unacked, session_packet_id, client_publish}
use shan_mqtt_broker.Session.PacketIds.{new_packet_id_fresh, ids_in_use}
use shan_mqtt_broker.Packet.Publish.{make_publish, Publish}
use shan_mqtt_broker.Packet.Any.{publish}
use Prim.Native.Nat.{min}
use shan_mqtt_broker.Outcome.{ok}
use shan_mqtt_broker.Session.{add_publish_for_rec, add_publish_for_ack, increment, is_used, Session}
use shan_mqtt_broker.Packet.Any
use shan_mqtt_broker.Server.State.{update_other, update_same, Client, Server, write, update}
use shan_mqtt_broker.Base.{
  inr, inl, Bool-cases, ◌==◌, if◌then◌else◌, ◌^◌, ℕ, ◌+◌, ◌<◌, ◌≤◌, ◌≡◌, ◌≢◌, Bool, false, [], ◌∷◌,
  ◌++◌, refl, ◌∙◌, ap, arith, length,
}

-- What a session keeps of a message until it is answered.
abbrev pub keep : ℕ → Publish → Session → Session
keep qos p s =
    if qos == qos_at_least_once
    then add_publish_for_ack p s
    else (if qos == qos_exactly_once then add_publish_for_rec p s else s)

-- A session can give out at least `k` more packet ids.
abbrev pub HasRoom : ℕ → Session → Type 0
HasRoom k s = (s.next_packet_id ≤ 65535) × (length (ids_in_use s) + k ≤ 65535)

-- The message `packet` as a client of granted QoS `max_qos` gets it, with the packet id `id`.
abbrev pub copy_of : ℕ → Bool → Publish → ℕ → Publish
copy_of max_qos retained packet id =
    publish_of false (min packet.qos max_qos) retained packet.topic_name id packet.payload

-- The sizes that fit a remaining length that the broker can read, and a QoS.
abbrev pub IsSendable : Publish → Type 0
IsSendable p = (p.qos < 3) × (4 + length p.topic_name + length p.payload < 2 ^ 21)

keep_in_heap :
    (session qos : ℕ) (p : Publish) (s : Server)
    → (heap : ℕ → Session) × (keep_unacked session qos p s ≡ (ok tt, record s { heap = heap }))
      × (heap session ≡ keep qos p (s.heap session))
      × ((j : ℕ) → j ≢ session → heap j ≡ s.heap j)
keep_in_heap session qos p s = elim (Bool-cases (qos == 1)) [
  | inl h ↦ (
    update session (add_publish_for_ack p (s.heap session)) s.heap,
    rw h refl,
    rw h (update_same session _ s.heap),
    λ j n. update_other session _ s.heap j n,
  )
  | inr h ↦ elim (Bool-cases (qos == 2)) [
    | inl i ↦ (
      update session (add_publish_for_rec p (s.heap session)) s.heap,
      rw (h, i) refl,
      rw (h, i) (update_same session _ s.heap),
      λ j n. update_other session _ s.heap j n,
    )
    | inr i ↦ (s.heap, rw (h, i) refl, rw (h, i) refl, λ j n. refl)
  ]
]

-- A message with a QoS below 3 and a size that the broker can read goes out once to a client whose
-- session has an id free: with such an id, and the session keeps it as long as the QoS asks for;
-- no other session changes.
pub client_publish_sends :
    (c : Client) (max_qos : ℕ) (retained : Bool) (packet : Publish) (s : Server)
    → IsSendable packet
    → HasRoom 1 (s.heap c.session)
    → (id : ℕ) × (heap : ℕ → Session) × (client_publish c max_qos retained packet s ≡ (
      ok tt,
      record s {
        heap = heap;
        output =
            s.output ++ write c.channel_id (Any.publish (copy_of max_qos retained packet id)) ∷ [];
      },
    ))
      × (1 ≤ id)
      × (id ≤ 65535)
      × (is_used (s.heap c.session) id ≡ false)
      × (heap c.session
          ≡ keep
              (min packet.qos max_qos)
              (copy_of max_qos retained packet id)
              (record (s.heap c.session) { next_packet_id = increment id }))
      × ((j : ℕ) → j ≢ c.session → heap j ≡ s.heap j)
unfolding client_publish session_packet_id
client_publish_sends c max_qos retained packet s v r =
    let (id, e, low, high, free) =
      new_packet_id_fresh (s.heap c.session) r.0 (omega (arith, r.1)) in
    let qos = min packet.qos max_qos in
    let copy = copy_of max_qos retained packet id in
    let counted = record (s.heap c.session) { next_packet_id = increment id } in
    let s1 = record s { heap = update c.session counted s.heap } in
    let (heap, k, same, other) = keep_in_heap c.session qos copy s1 in
    let made : make_publish false qos retained packet.topic_name id packet.payload ≡ ok copy =
      make-publish_of false qos retained packet.topic_name id packet.payload (ground (arith, v.0))
        (ground (arith, v.1)) in
    (
      id,
      heap,
      rw (e, made, k) refl,
      low,
      high,
      free,
      same ∙ ap (keep qos copy) (update_same c.session counted s.heap),
      λ j n. other j n ∙ update_other c.session counted s.heap j n,
    )

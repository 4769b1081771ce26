-- ===== src/Session/Exchanges.antt =====
-- The packet ids of whole exchanges (object/session.cpp): a message that the server sends with QoS 1
-- or 2 keeps its id until the client has answered.
use shan_mqtt_broker.Base.{◌==◌, ℕ, ◌≡◌, true, ◌||◌, List, [], ◌∷◌, ◌++◌, elem, refl, arith}
use shan_mqtt_broker.Packet.Publish.{Publish}
use shan_mqtt_broker.Session.{
  Session, any_publish, is_used, erase_id, erase_publish, add_publish_for_ack, add_publish_for_rec,
  release_publish_for_ack, release_publish_for_rec, add_packet_id_for_pubcomp,
  release_packet_id_for_pubcomp,
}

any-append_publish :
    (j : ℕ) (ps : List Publish) (p : Publish)
    → any_publish j (ps ++ p ∷ []) ≡ (any_publish j ps || p.packet_id == j)
any-append_publish j [] p = ground arith
any-append_publish j (q ∷ ps) p = ground (arith, any-append_publish j ps p)

any-erase_publish :
    (j : ℕ) (ps : List Publish) (p : Publish)
    → any_publish j (erase_publish p.packet_id (ps ++ p ∷ [])) ≡ any_publish j ps
unfolding erase_publish
any-erase_publish j [] p = ground arith
any-erase_publish j (q ∷ ps) p = ground (arith, any-erase_publish j ps p, any-append_publish j ps p)

elem-append_last : (j id : ℕ) (xs : List ℕ) → elem j (xs ++ id ∷ []) ≡ (elem j xs || id == j)
elem-append_last j id [] = ground arith
elem-append_last j id (x ∷ xs) = ground (arith, elem-append_last j id xs)

elem-erase_id : (j id : ℕ) (xs : List ℕ) → elem j (erase_id id (xs ++ id ∷ [])) ≡ elem j xs
unfolding erase_id
elem-erase_id j id [] = ground arith
elem-erase_id j id (x ∷ xs) = ground (arith, elem-erase_id j id xs, elem-append_last j id xs)

-- A QoS 1 message that is answered by a PUBACK leaves the use of every packet id as it was.
pub qos1_exchange_frees :
    (p : Publish) (s : Session) (j : ℕ)
    → is_used (release_publish_for_ack p.packet_id (add_publish_for_ack p s)) j ≡ is_used s j
unfolding release_publish_for_ack add_publish_for_ack
qos1_exchange_frees p s j = rw (any-erase_publish j s.publish_for_ack p) refl

-- A QoS 2 message that is answered by one PUBREC and then one PUBCOMP leaves the use of every packet
-- id as it was.
pub qos2_exchange_frees :
    (p : Publish) (s : Session) (j : ℕ)
    → is_used
        (release_packet_id_for_pubcomp p.packet_id (
          add_packet_id_for_pubcomp p.packet_id
            (release_publish_for_rec p.packet_id (add_publish_for_rec p s))))
        j
      ≡ is_used s j
unfolding release_packet_id_for_pubcomp add_packet_id_for_pubcomp release_publish_for_rec
    add_publish_for_rec
qos2_exchange_frees p s j =
    rw
      (any-erase_publish j s.publish_for_rec p, elem-erase_id j p.packet_id s.packet_id_for_pubcomp)
      refl

-- A PUBREC that comes a second time enters the packet id a second time: after the PUBCOMP the id is
-- in use still.
pub repeated_pubrec_keeps_id :
    (id : ℕ) (s : Session)
    → is_used
        (release_packet_id_for_pubcomp id (
          add_packet_id_for_pubcomp id (
            release_publish_for_rec id
              (add_packet_id_for_pubcomp id (release_publish_for_rec id s)))))
        id
      ≡ true
unfolding release_packet_id_for_pubcomp add_packet_id_for_pubcomp release_publish_for_rec
repeated_pubrec_keeps_id id s = ground (
  arith,
  elem-erase_id id id (s.packet_id_for_pubcomp ++ id ∷ []),
  elem-append_last id id s.packet_id_for_pubcomp,
)

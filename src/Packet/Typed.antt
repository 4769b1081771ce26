-- ===== src/Packet/Typed.antt =====
-- What the decoding constructors (packet/*.cpp) return: objects of the class that the header asks for
-- (handler/mqtt_codec.cpp), with that header.
use shan_mqtt_broker.Packet.Pings.{decode_disconnect, decode_pingresp, decode_pingreq}
use shan_mqtt_broker.Packet.Acks.{
  decode_unsuback, decode_pubcomp, decode_pubrel, decode_pubrec, decode_return_codes, Connack,
  Suback, decode_connack, decode_puback, decode_suback,
}
use shan_mqtt_broker.Base.{
  ℕ, ◌<◌, zero, suc, ◌+◌, ◌-◌, ◌^◌, ◌%◌, ◌/◌, ◌≡◌, ◌≢◌, Bool, true, false, not, ◌&&◌, ◌||◌, Option,
  none, some, List, [], ◌∷◌, ◌++◌, Bytes, length, length-append, is_empty, refl, ltb, leb, ◌==◌,
  if◌then◌else◌, arith,
}
use Prim.Native.Nat.{bit_and}
use shan_mqtt_broker.Constants.PacketType
use shan_mqtt_broker.Wire.Decoder.{Decoder, ret, get_uint16}
use shan_mqtt_broker.Wire.Yields.{Yields, Yields->>=, Yields-after, Yields-throw_if, Yields-if}
use shan_mqtt_broker.Packet.FixedHeader.{FixedHeader}
use shan_mqtt_broker.Packet.Text.{decode_string, decode_binary}
use shan_mqtt_broker.Packet.Publish.{
  Publish, has_packet_id, header_len, has_wildcard, starts_with_dollar, decode_payload,
  decode_named, decode_flagged, decode_publish,
}
use shan_mqtt_broker.Packet.Connect.{Connect, decode_connect, decode_if, has_flag}
use shan_mqtt_broker.Packet.Subscribe.{
  Subscribe, Unsubscribe, decode_filters, decode_unsubscribe_filters, decode_max_qos,
  decode_subscribe, decode_unsubscribe,
}
use shan_mqtt_broker.Packet.Any.{
  Packet, header, decode_packet, into, connect, connack, publish, puback, pubrec, pubrel, pubcomp,
  subscribe, suback, unsubscribe, unsuback, pingreq, pingresp, disconnect,
}
use shan_mqtt_broker.Topic.Filter.{is_topic_filter_valid}

-- The packet type of a class.
abbrev pub class_type : Packet → ℕ
class_type (connect p) = PacketType.connect
class_type (connack p) = PacketType.connack
class_type (publish p) = PacketType.publish
class_type (puback p) = PacketType.puback
class_type (pubrec p) = PacketType.pubrec
class_type (pubrel p) = PacketType.pubrel
class_type (pubcomp p) = PacketType.pubcomp
class_type (subscribe p) = PacketType.subscribe
class_type (suback p) = PacketType.suback
class_type (unsubscribe p) = PacketType.unsubscribe
class_type (unsuback p) = PacketType.unsuback
class_type (pingreq p) = PacketType.pingreq
class_type (pingresp p) = PacketType.pingresp
class_type (disconnect p) = PacketType.disconnect

-- A PUBLISH that a client may send; a CONNECT with a QoS for its will; the three vectors of a SUBSCRIBE run in parallel, as do the two of
-- an UNSUBSCRIBE.
abbrev pub IsSound : Packet → Type 0
IsSound (publish p) =
    (p.qos ≢ 3)
    × ((p.qos == 0 && p.dup) ≡ false)
    × (is_empty p.topic_name ≡ false)
    × (has_wildcard p.topic_name ≡ false)
    × (starts_with_dollar p.topic_name ≡ false)
IsSound (connect p) = p.will_qos < 3
IsSound (subscribe p) =
    (length p.topic_filters ≡ length p.max_qoses) × (length p.topic_filters ≡ length p.is_wild)
IsSound (unsubscribe p) = length p.topic_filters ≡ length p.is_wild
IsSound _ = Unit {0}

abbrev pub IsTyped : FixedHeader → Packet → Type 0
IsTyped fh p = (class_type p ≡ fh.packet_type) × (header p ≡ fh) × IsSound p

-- What the switch over the packet types leaves: a packet, or the buffer.
abbrev pub Switched : FixedHeader → Option Packet → Type 0
Switched fh none = Unit {0}
Switched fh (some p) = IsTyped fh p

module _ (fh : FixedHeader) where
  abbrev OfPublish : Publish → Type 0
  OfPublish p = (p.fh ≡ fh) × IsSound (publish p)

  named-Yields :
      (dup : Bool) (qos : ℕ) (retain : Bool) (name : Bytes)
      → qos ≢ 3
      → (qos == 0 && dup) ≡ false
      → Yields OfPublish (decode_named fh dup qos retain name)
  unfolding decode_named decode_payload
  named-Yields dup qos retain name n d0 =
      let Q = OfPublish in
      Yields-throw_if Q (is_empty name) _ _ λ f.
        Yields-throw_if Q (starts_with_dollar name) _ _ λ d.
          Yields-throw_if Q (has_wildcard name) _ _ λ w.
            Yields-after Q (if has_packet_id qos then get_uint16 else ret 0) _ λ id size.
              Yields-throw_if Q
                (ltb size ((fh.remaining_length + 2 ^ 64 - header_len qos name) % 2 ^ 64)) _ _
                λ _ payload. (refl, (n, d0, f, w, d))

  flagged-Yields :
      (dup : Bool) (qos : ℕ) (retain : Bool) → Yields OfPublish (decode_flagged fh dup qos retain)
  unfolding decode_flagged
  flagged-Yields dup qos retain = Yields-throw_if OfPublish (qos == 0 && dup) _ _ λ d0.
      Yields-throw_if OfPublish (qos == 3) _ _ λ n.
        Yields-after OfPublish decode_string _
          λ name. named-Yields dup qos retain name (λ e. ground (arith, n, e)) d0

  publish-Yields : Yields OfPublish (decode_publish fh)
  unfolding decode_publish
  publish-Yields = flagged-Yields _ _ _

  abbrev OfConnect : Connect → Type 0
  OfConnect p = (p.fh ≡ fh) × IsSound (connect p)

  connect-Yields : Yields OfConnect (decode_connect fh)
  unfolding decode_connect
  connect-Yields =
      let Q = OfConnect in
      Yields-after Q decode_string _ λ name level flags.
        Yields-throw_if Q (has_flag flags 0x01) _ _ λ _.
          Yields-throw_if Q
            (not (has_flag flags 0x04)
              && (not (bit_and flags 0x18 / 8 == 0) || has_flag flags 0x20))
            _ _
            λ _. Yields-throw_if Q (leb 3 (bit_and flags 0x18 / 8)) _ _ λ q keep_alive.
              Yields-after Q decode_string _ λ id.
                Yields-after Q (decode_if (has_flag flags 0x04) decode_string) _ λ topic.
                  Yields-after Q (decode_if (has_flag flags 0x04) decode_binary) _ λ message.
                    Yields-after Q (decode_if (has_flag flags 0x80) decode_string) _ λ user.
                      Yields-after Q (decode_if (has_flag flags 0x40) decode_binary) _
                        λ password. (refl, ground (arith, q))

one_longer :
    {A B : Type 0} (xs : List A) (ys : List B) (x : A) (y : B)
    → length xs ≡ length ys
    → length (xs ++ x ∷ []) ≡ length (ys ++ y ∷ [])
one_longer xs ys x y e = omega (arith, length-append xs (x ∷ []), length-append ys (y ∷ []), e)

abbrev Parallel : List Bytes × List ℕ × List Bool → Type 0
Parallel (fs, qs, ws) = (length fs ≡ length qs) × (length fs ≡ length ws)

filters-Yields :
    (rounds remain : ℕ) (fs : List Bytes) (qs : List ℕ) (ws : List Bool)
    → length fs ≡ length qs
    → length fs ≡ length ws
    → Yields Parallel (decode_filters rounds remain fs qs ws)
unfolding decode_filters
filters-Yields zero remain fs qs ws q w =
    Yields-if Parallel (ltb 0 remain) _ _ (λ _. tt) (λ _. (q, w))
filters-Yields (suc r) remain fs qs ws q w =
    Yields-if Parallel (ltb 0 remain) _ _
      (λ _. Yields-after Parallel decode_string _ λ topic.
        Yields-throw_if Parallel (is_empty topic) _ _ λ _.
          Yields-after Parallel (decode_max_qos (is_topic_filter_valid topic)) _
            λ (max_qos, is_wild, n).
              filters-Yields r (remain - (length topic + 2) - n) (fs ++ topic ∷ [])
                (qs ++ max_qos ∷ []) (ws ++ is_wild ∷ []) (one_longer fs qs topic max_qos q)
                (one_longer fs ws topic is_wild w))
      (λ _. (q, w))

abbrev Paired : List Bytes × List Bool → Type 0
Paired (fs, ws) = length fs ≡ length ws

unsubscribe_filters-Yields :
    (rounds remain : ℕ) (fs : List Bytes) (ws : List Bool)
    → length fs ≡ length ws
    → Yields Paired (decode_unsubscribe_filters rounds remain fs ws)
unfolding decode_unsubscribe_filters
unsubscribe_filters-Yields zero remain fs ws w =
    Yields-if Paired (ltb 0 remain) _ _ (λ _. tt) (λ _. w)
unsubscribe_filters-Yields (suc r) remain fs ws w =
    Yields-if Paired (ltb 0 remain) _ _
      (λ _. Yields-after Paired decode_string _ λ topic.
        Yields-throw_if Paired (is_empty topic) _ _ λ _.
          unsubscribe_filters-Yields r (remain - (length topic + 2)) (fs ++ topic ∷ [])
            (ws ++ (is_topic_filter_valid topic).1 ∷ []) (one_longer fs ws topic _ w))
      (λ _. w)

module _ (fh : FixedHeader) where
  abbrev OfSubscribe : Subscribe → Type 0
  OfSubscribe p = (p.fh ≡ fh) × IsSound (subscribe p)

  subscribe-Yields : Yields OfSubscribe (decode_subscribe fh)
  unfolding decode_subscribe
  subscribe-Yields = λ id.
      let remain = fh.remaining_length - 2 in
      Yields->>= Parallel OfSubscribe (decode_filters remain remain [] [] []) _
        (filters-Yields remain remain [] [] [] refl refl)
        λ (fs, qs, ws) (q, w). Yields-throw_if OfSubscribe (is_empty fs) _ _ λ _. (refl, (q, w))

  abbrev OfUnsubscribe : Unsubscribe → Type 0
  OfUnsubscribe p = (p.fh ≡ fh) × IsSound (unsubscribe p)

  unsubscribe-Yields : Yields OfUnsubscribe (decode_unsubscribe fh)
  unfolding decode_unsubscribe
  unsubscribe-Yields = λ id.
      let remain = fh.remaining_length - 2 in
      Yields->>= Paired OfUnsubscribe (decode_unsubscribe_filters remain remain [] []) _
        (unsubscribe_filters-Yields remain remain [] [] refl)
        λ (fs, ws) w. Yields-throw_if OfUnsubscribe (is_empty fs) _ _ λ _. (refl, w)

module _ (fh : FixedHeader) where
  into-Yields :
      {A : Type 0} (Q : A → Type 0) (class : A → Packet) (d : Decoder A)
      → Yields Q d
      → ((a : A) → Q a → IsTyped fh (class a))
      → Yields (Switched fh) (into class d)
  into-Yields Q class d y k = Yields->>= Q (Switched fh) d _ y k

  abbrev OfConnack : Connack → Type 0
  OfConnack p = p.fh ≡ fh

  connack-Yields : Yields OfConnack (decode_connack fh)
  unfolding decode_connack
  connack-Yields = λ byte.
      Yields-throw_if OfConnack (ltb 1 byte) _ _
        λ _ code. Yields-throw_if OfConnack (leb 6 code) _ _ λ _. refl

  abbrev OfSuback : Suback → Type 0
  OfSuback p = p.fh ≡ fh

  suback-Yields : Yields OfSuback (decode_suback fh)
  unfolding decode_suback
  suback-Yields =
      λ id. Yields-after OfSuback (decode_return_codes (fh.remaining_length - 2) []) _ λ codes. refl

  typed : (t n : ℕ) → (t == n) ≡ true → n ≡ t
  typed t n e = ground (arith, e)

  pub decode_packet-Yields : Yields (Switched fh) (decode_packet fh)
  unfolding decode_packet decode_puback decode_pubrec decode_pubrel decode_pubcomp decode_unsuback
      decode_pingreq decode_pingresp decode_disconnect
  decode_packet-Yields =
      let t = fh.packet_type in
      let R = Switched fh in
      Yields-if R (t == 1) _ _
        (λ e.
          into-Yields (OfConnect fh) connect (decode_connect fh) (connect-Yields fh)
            λ p h. (typed t 1 e, h.0, h.1))
        (λ _.
          Yields-if R (t == 2) _ _
            (λ e.
              into-Yields OfConnack connack (decode_connack fh) connack-Yields
                λ p h. (typed t 2 e, h, tt))
            (λ _.
              Yields-if R (t == 3) _ _
                (λ e.
                  into-Yields (OfPublish fh) publish (decode_publish fh) (publish-Yields fh)
                    λ p h. (typed t 3 e, h.0, h.1))
                (λ _.
                  Yields-if R (t == 4) _ _ (λ e id. (typed t 4 e, refl, tt))
                    (λ _.
                      Yields-if R (t == 5) _ _ (λ e id. (typed t 5 e, refl, tt))
                        (λ _.
                          Yields-if R (t == 6) _ _ (λ e id. (typed t 6 e, refl, tt))
                            (λ _.
                              Yields-if R (t == 7) _ _ (λ e id. (typed t 7 e, refl, tt))
                                (λ _.
                                  Yields-if R (t == 8) _ _
                                    (λ e.
                                      into-Yields (OfSubscribe fh) subscribe (decode_subscribe fh)
                                        (subscribe-Yields fh) λ p h. (typed t 8 e, h.0, h.1))
                                    (λ _.
                                      Yields-if R (t == 9) _ _
                                        (λ e.
                                          into-Yields OfSuback suback (decode_suback fh)
                                            suback-Yields λ p h. (typed t 9 e, h, tt))
                                        (λ _.
                                          Yields-if R (t == 10) _ _
                                            (λ e.
                                              into-Yields (OfUnsubscribe fh) unsubscribe
                                                (decode_unsubscribe fh) (unsubscribe-Yields fh)
                                                λ p h. (typed t 10 e, h.0, h.1))
                                            (λ _.
                                              Yields-if R (t == 11) _ _
                                                (λ e id. (typed t 11 e, refl, tt))
                                                (λ _.
                                                  Yields-if R (t == 12) _ _
                                                    (λ e. (typed t 12 e, refl, tt))
                                                    (λ _.
                                                      Yields-if R (t == 13) _ _
                                                        (λ e. (typed t 13 e, refl, tt))
                                                        (λ _.
                                                          Yields-if R (t == 14) _ _
                                                            (λ e. (typed t 14 e, refl, tt))
                                                            (λ _. tt))))))))))))))

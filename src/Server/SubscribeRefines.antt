-- ===== src/Server/SubscribeRefines.antt =====
-- `handle_subscribe` (player/mqtt_server.cpp) implements the update of the table of subscriptions.
use shan_mqtt_broker.Base.{
  ℕ, ◌≡◌, Bool, false, some, List, [], ◌∷◌, ◌++◌, Bytes, refl, sym, ap, subst, ◌∙◌,
}
use shan_mqtt_broker.Outcome.{ok}
use shan_mqtt_broker.Packet.Subscribe.{Subscribe}
use shan_mqtt_broker.Packet.Acks.{Suback, make_suback, add_return_code, bad_return_code}
use shan_mqtt_broker.Packet.Any
use shan_mqtt_broker.Packet.AckTrip.{suback_of}
use shan_mqtt_broker.Server.State.{Client, Server, write, emit, ◌>>◌}
use shan_mqtt_broker.Server.Topics.{TopicPtr}
use shan_mqtt_broker.Server.Registry.{publish_retained_message}
use shan_mqtt_broker.Server.Publishing.{agent}
use shan_mqtt_broker.Server.Subscribing.{subscribe_one, subscribe_loop, handle_subscribe}
use shan_mqtt_broker.Server.Granting.{one_granted, code_is_good}
use shan_mqtt_broker.Server.Keeping.{then-Keeps}
use shan_mqtt_broker.Server.WellFormed.{WellFormed}
use shan_mqtt_broker.Server.Lawful.{rules-WellFormed}
use shan_mqtt_broker.Server.Kept.Sending.{emit-Safe}
use shan_mqtt_broker.Server.Kept.Subscribing.{subscribe_one-Safe, publish_retained_message-Safe}
use shan_mqtt_broker.Server.Table.{Table, granted}
use shan_mqtt_broker.Server.Refinement.{
  one_same, Represents, sending-Represents, subscribed, subscribed_one, one_table,
}

one_refines :
    (c : Client) (f : Bytes) (q : ℕ) (w : Bool) (s : Server) (t : Table)
    → Represents t s
    → Represents (subscribed_one c.client_id f q w t) (subscribe_one c f q w s).1
one_refines c f q w s t (h, k) = (
  ((subscribe_one-Safe rules-WellFormed c f q w).kept s h).1,
  λ w' f' id. one_table c f q w s w' f' id h ∙ one_same c.client_id f q w s t w' f' id k,
)

code_added :
    (suback : Suback) (code : ℕ)
    → bad_return_code code ≡ false
    → (suback' : Suback) × (add_return_code suback code ≡ ok suback')
unfolding add_return_code
code_added suback code h = rw h (_, refl)

loop_refines :
    (c : Client) (fs : List Bytes) (qs : List ℕ) (ws : List Bool) (suback : Suback)
    (es wilds : List TopicPtr) (s : Server) (t : Table)
    → Represents t s
    → (r : Suback × List TopicPtr × List TopicPtr) × (s' : Server) × (subscribe_loop c fs qs ws
          suback es wilds s
        ≡ (ok r, s'))
      × Represents (subscribed c.client_id fs qs ws t) s'
unfolding subscribe_loop
loop_refines c [] qs ws suback es wilds s t h = (_, _, refl, h)
loop_refines c (f ∷ fs) [] ws suback es wilds s t h = (_, _, refl, h)
loop_refines c (f ∷ fs) (q ∷ qs) [] suback es wilds s t h = (_, _, refl, h)
loop_refines c (f ∷ fs) (q ∷ qs) (w ∷ ws) suback es wilds s t h =
    let (r, s1, e, code, _) = one_granted c f q w s in
    let (suback', added) =
      code_added suback r.return_code (ap bad_return_code code ∙ code_is_good c f q) in
    let h1 : Represents (subscribed_one c.client_id f q w t) s1 =
      subst (λ x. Represents (subscribed_one c.client_id f q w t) x.1) e
        (one_refines c f q w s t h) in
    let (r', s2, e', h2) =
      loop_refines c fs qs ws suback' (es ++ r.exacts) (wilds ++ r.wilds) s1
        (subscribed_one c.client_id f q w t) h1 in
    (r', s2, rw (e, added, e') refl, h2)

-- From a well-formed state, on a channel with a client, a SUBSCRIBE changes the table of subscriptions
-- as its filters say in turn: each with a QoS below 3 that does not start with '$' sets what the client
-- has for it. Nothing else of the table changes, and the state stays well formed.
pub subscribe_refines :
    (c : Client) (channel : ℕ) (p : Subscribe) (s : Server)
    → s.param channel ≡ some c
    → WellFormed s
    → Represents
        (subscribed c.client_id p.topic_filters p.max_qoses p.is_wild (granted s))
        (handle_subscribe channel p s).1
unfolding handle_subscribe agent make_suback
subscribe_refines c channel p s e h =
    let ((suback, es, wilds), s', l, rep) =
      loop_refines c p.topic_filters p.max_qoses p.is_wild (suback_of p.packet_id []) [] [] s
        (granted s) (h, λ w f id. refl) in
    let known : agent channel s ≡ (ok c, s) = rw (e, agent) refl in
    let runs : handle_subscribe channel p s
        ≡ (emit (write channel (Any.suback suback)) >> publish_retained_message c es wilds) s' =
      rw (known, l) refl in
    let t : Table = subscribed c.client_id p.topic_filters p.max_qoses p.is_wild (granted s) in
    let law = sending-Represents t in
    subst (λ x. Represents t x.1) (sym runs)
      ((then-Keeps (emit-Safe law (write channel (Any.suback suback)))
          (publish_retained_message-Safe law c es wilds)).kept
        s' rep).1

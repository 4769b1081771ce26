-- ===== src/Server/Effective.antt =====
-- One filter of a SUBSCRIBE takes effect: the loop of `mqtt_server::handle_subscribe`
-- (player/mqtt_server.cpp) and `topic::subscribe` (object/topic.cpp).
use shan_mqtt_broker.Base.{
  inr, inl, Option-cases, ℕ, ◌<◌, ◌≡◌, refl, ◌∙◌, Bool, true, false, Bytes, bytes_eq, bytes_eq_refl,
  List, none, some, Option, ltb, arith,
}
use shan_mqtt_broker.Outcome.{ok}
use shan_mqtt_broker.Packet.Publish.{starts_with_dollar}
use shan_mqtt_broker.Server.Maps.{at, insert, modify, at-modify}
use shan_mqtt_broker.Server.State.{Client, Topic, Server}
use shan_mqtt_broker.Server.Topics.{make_topic, deref, granted_qos, topic_subscribe}
use shan_mqtt_broker.Server.Registry.{topic_ptr}
use shan_mqtt_broker.Server.Subscribing.{Subscribed, subscribe_one, subscribe_plain}
use shan_mqtt_broker.Server.Grants.{Distinct, subscribe_grants}

abbrev or_new : Topic → Option Topic → Topic
or_new new none = new
or_new new (some t) = t

-- The topic of a filter, or the new one that is made for it.
abbrev pub topic_at : Bool → Bytes → Server → Topic
topic_at w f s = or_new (make_topic f) (deref (topic_ptr w f) s)

at-insert_same :
    (k : Bytes) (v : Topic) (m : List (Bytes × Topic))
    → at k (insert k v m) ≡ some (or_new v (at k m))
unfolding at insert
at-insert_same k v m = elim (Option-cases (at k m)) [
  | inl e ↦ rw (e, bytes_eq_refl k) refl
  | inr (t, e) ↦ rw e e
]

pub at-modify_new :
    (k : Bytes) (g : Topic → Topic) (v : Topic) (m : List (Bytes × Topic))
    → at k (modify k g (insert k v m)) ≡ some (g (or_new v (at k m)))
at-modify_new k g v m =
    at-modify k k g (insert k v m) ∙ rw (bytes_eq_refl k, at-insert_same k v m) refl

plain_takes_effect :
    (c : Client) (f : Bytes) (q : ℕ) (w : Bool) (s : Server)
    → (r : Subscribed) × (s' : Server) × (subscribe_plain c f q w s ≡ (ok r, s'))
      × (deref (topic_ptr w f) s' ≡ some (topic_subscribe c q (topic_at w f s)))
unfolding subscribe_plain
plain_takes_effect c f q true s =
    (_, _, refl, at-modify_new f (topic_subscribe c q) (make_topic f) s.wild_topics)
plain_takes_effect c f q false s =
    (_, _, refl, at-modify_new f (topic_subscribe c q) (make_topic f) s.topics)

-- A filter with a QoS below 3 that does not start with '$', where the client ids of its topic are
-- distinct: afterwards its topic is there and has the client with that QoS, and every other client
-- as before.
pub subscribe_takes_effect :
    (c : Client) (f : Bytes) (q : ℕ) (w : Bool) (s : Server)
    → q < 3
    → starts_with_dollar f ≡ false
    → Distinct (topic_at w f s).clients
    → (r : Subscribed) × (s' : Server) × (t : Topic) × (subscribe_one c f q w s ≡ (ok r, s'))
      × (deref (topic_ptr w f) s' ≡ some t)
      × (granted_qos c.client_id t.clients ≡ some q)
      × ((id : Bytes)
          → bytes_eq c.client_id id ≡ false
          → granted_qos id t.clients ≡ granted_qos id (topic_at w f s).clients)
unfolding subscribe_one
subscribe_takes_effect c f q w s h n d =
    let (r, s', e, at_filter) = plain_takes_effect c f q w s in
    let (grants, _) = subscribe_grants c q (topic_at w f s) d in
    let low : ltb q 3 ≡ true = ground (arith, h) in
    (
      r,
      s',
      topic_subscribe c q (topic_at w f s),
      rw (low, n) e,
      at_filter,
      grants c.client_id ∙ rw (bytes_eq_refl c.client_id) refl,
      λ id o. grants id ∙ rw o refl,
    )

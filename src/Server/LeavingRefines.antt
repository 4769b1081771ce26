-- ===== src/Server/LeavingRefines.antt =====
-- `handle_disconnect` (player/mqtt_server.cpp) as an update of the table of subscriptions.
use shan_mqtt_broker.Base.{
  ℕ, ◌≡◌, Bool, true, false, none, some, List, [], ◌∷◌, Bytes, refl, ◌∙◌, Bool-cases, inl, inr,
}
use shan_mqtt_broker.Outcome.{ok}
use shan_mqtt_broker.Session.{Subscription}
use shan_mqtt_broker.Server.State.{Client, Server, update}
use shan_mqtt_broker.Server.Registry.{unsubscribe_one, unsubscribe_each}
use shan_mqtt_broker.Server.Publishing.{agent}
use shan_mqtt_broker.Server.Leaving.{handle_disconnect, forget}
use shan_mqtt_broker.Server.WellFormed.{WellFormed}
use shan_mqtt_broker.Server.Lawful.{rules-WellFormed}
use shan_mqtt_broker.Server.Kept.Leaving.{unsubscribe_one_lem, handle_disconnect-Safe}
use shan_mqtt_broker.Server.Table.{Table, set_grant, granted, grant-dropped}
use shan_mqtt_broker.Server.Refinement.{Represents, set_same, same_grants}

-- What a client has subscribed to goes.
abbrev pub revoked : Bytes → List Subscription → Table → Table
revoked client_id [] t = t
revoked client_id (sub ∷ subs) t =
    revoked client_id subs (set_grant sub.is_wild sub.topic_filter client_id none t)

drop_table :
    (c : Client) (sub : Subscription) (s : Server) (w : Bool) (f id : Bytes)
    → WellFormed s
    → granted (unsubscribe_one c sub s) w f id
      ≡ set_grant sub.is_wild sub.topic_filter c.client_id none (granted s) w f id
drop_table c sub s true f id h = elim (Bool-cases sub.is_wild) [
  | inl b ↦ rw b (grant-dropped c sub.topic_filter f id s.wild_topics h.topics_ok.wild_ok)
  | inr b ↦ rw b refl
]
drop_table c sub s false f id h = elim (Bool-cases sub.is_wild) [
  | inl b ↦ rw b refl
  | inr b ↦ rw b (grant-dropped c sub.topic_filter f id s.topics h.topics_ok.exact_ok)
]

each_refines :
    (c : Client) (subs : List Subscription) (s : Server) (t : Table)
    → Represents t s
    → Represents (revoked c.client_id subs t) (unsubscribe_each c subs s)
unfolding unsubscribe_each
each_refines c [] s t h = h
each_refines c (sub ∷ subs) s t (h, k) = each_refines c subs (unsubscribe_one c sub s) _ (
  unsubscribe_one_lem rules-WellFormed c sub s h,
  λ w f id.
      drop_table c sub s w f id h
      ∙ set_same sub.is_wild sub.topic_filter c.client_id none (granted s) t w f id (k w f id),
)

-- What `forget` does to the topics.
forgets :
    (c : Client) (s : Server)
    → (s' : Server) × (forget c s ≡ (ok tt, s'))
      × (s'.topics ≡ (unsubscribe_each c (s.heap c.session).subscriptions s).topics)
      × (s'.wild_topics ≡ (unsubscribe_each c (s.heap c.session).subscriptions s).wild_topics)
unfolding forget
forgets c s = elim (Bool-cases c.clean_session) [
  | inl b ↦ rw b (_, refl, refl, refl)
  | inr b ↦ rw b (_, refl, refl, refl)
]

disconnected_topics :
    (c : Client) (channel : ℕ) (s : Server)
    → s.param channel ≡ some c
    → let s1 = record s { param = update channel none s.param } in
      let left = unsubscribe_each c (s.heap c.session).subscriptions s1 in
      ((handle_disconnect channel s).1.topics ≡ left.topics)
      × ((handle_disconnect channel s).1.wild_topics ≡ left.wild_topics)
unfolding handle_disconnect agent
disconnected_topics c channel s e =
    let s1 = record s { param = update channel none s.param } in
    let known : agent channel s ≡ (ok c, s) = rw (e, agent) refl in
    let (s', runs, te, tw) = forgets c s1 in rw (known, runs) (te, tw)

-- From a well-formed state, on a channel with a client, a DISCONNECT takes out of the table of
-- subscriptions what the client's session says that it has subscribed to, and nothing else; the state
-- stays well formed.
pub disconnect_revokes :
    (c : Client) (channel : ℕ) (s : Server)
    → s.param channel ≡ some c
    → WellFormed s
    → Represents
        (revoked c.client_id (s.heap c.session).subscriptions (granted s))
        (handle_disconnect channel s).1
disconnect_revokes c channel s e h =
    let s1 = record s { param = update channel none s.param } in
    let subs = (s.heap c.session).subscriptions in
    let (te, tw) = disconnected_topics c channel s e in
    let (_, k) = each_refines c subs s1 (granted s) (
      rules-WellFormed.registering.clear_law channel s h,
      λ w f id. same_grants s s1 w f id refl refl,
    ) in
    (
      ((handle_disconnect-Safe rules-WellFormed channel).kept s h).1,
      λ w f id. same_grants (unsubscribe_each c subs s1) _ w f id te tw ∙ k w f id,
    )

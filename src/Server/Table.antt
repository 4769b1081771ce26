-- ===== src/Server/Table.antt =====
-- The subscriptions as a table: for a kind of topic, a filter and a client id, the granted QoS. It
-- forgets the order of the maps of player/mqtt_server.h, the topics without clients and the clients'
-- other members.
use mathlib.Core.Option
use shan_mqtt_broker.Base.{
  ℕ, ◌≡◌, Bool, true, false, ◌&&◌, not, Option, none, some, is_some, List, [], ◌∷◌, Bytes, bytes_eq,
  bytes_eq_refl, bytes_eq→eq, Bool-cases, Option-cases, inl, inr, refl, sym, ap, ◌∙◌, subst,
  is_empty, if◌then◌else◌, arith,
}
use shan_mqtt_broker.Server.Maps.{at, insert, erase, modify, at-erase, at-modify}
use shan_mqtt_broker.Server.Entries.{insert-Entries, Entries, at-Entries}
use shan_mqtt_broker.Server.State.{Client, Topic, Server}
use shan_mqtt_broker.Server.Topics.{
  make_topic, granted_qos, topic_subscribe, topic_unsubscribe, topic_empty,
}
use shan_mqtt_broker.Server.Registry.{drop_subscriber}
use shan_mqtt_broker.Server.Grants.{Distinct, subscribe_grants, unsubscribe_revokes}
use shan_mqtt_broker.Server.WellFormed.{make_topic-Ok, TopicOk}

abbrev pub Table : Type 0
Table = Bool → Bytes → Bytes → Option ℕ

abbrev pub same_kind : Bool → Bool → Bool
same_kind true w = w
same_kind false w = not w

-- The client subscribes to the filter with the QoS, whatever it had.
abbrev pub set_grant : Bool → Bytes → Bytes → Option ℕ → Table → Table
set_grant w f id q t w' f' id' =
    if same_kind w w' && (bytes_eq f f' && bytes_eq id id') then q else t w' f' id'

abbrev pub grant_in : Option Topic → Bytes → Option ℕ
grant_in none id = none
grant_in (some t) id = granted_qos id t.clients

abbrev pub topics_of : Bool → Server → List (Bytes × Topic)
topics_of true s = s.wild_topics
topics_of false s = s.topics

-- The table of a state.
abbrev pub granted : Server → Table
granted s w f id = grant_in (at f (topics_of w s)) id

abbrev pub Topics : Type 0
Topics = List (Bytes × Topic)

abbrev mapped : (Topic → Topic) → Option Topic → Option Topic
mapped g none = none
mapped g (some t) = some (g t)

mapped_lem : (g : Topic → Topic) (o : Option Topic) → Option.map g o ≡ mapped g o
mapped_lem g none = refl
mapped_lem g (some t) = refl

pub grant-modify :
    (k j id : Bytes) (g : Topic → Topic) (m : Topics)
    → grant_in (at j (modify k g m)) id
      ≡ (if bytes_eq k j then grant_in (mapped g (at j m)) id else grant_in (at j m) id)
grant-modify k j id g m = elim (Bool-cases (bytes_eq k j)) [
  | inl b ↦ rw (at-modify k j g m, b, mapped_lem g (at j m)) refl
  | inr b ↦ rw (at-modify k j g m, b) refl
]

pub grant-make_topic :
    (k j id : Bytes) (m : Topics)
    → grant_in (at j (insert k (make_topic k) m)) id ≡ grant_in (at j m) id
unfolding insert at granted_qos
grant-make_topic k j id m = elim (Option-cases (at k m)) [
  | inl e ↦ elim (Bool-cases (bytes_eq k j)) [
    | inl b ↦ rw (e, b) (subst (λ j. none ≡ grant_in (at j m) id) (bytes_eq→eq k j b) (rw e refl))
    | inr b ↦ rw (e, b) refl
  ]
  | inr (t, e) ↦ rw e refl
]

if_same : (b : Bool) (v : Option ℕ) → (if b then v else v) ≡ v
if_same true v = refl
if_same false v = refl

none_if : (b : Bool) (v : Option ℕ) → v ≡ none → none ≡ (if b then v else none)
none_if true v e = sym e
none_if false v e = refl

-- A change `g` of the topic of `k` that sets what the client `cid` has to `v`.
grant-changed :
    (g : Topic → Topic) (cid : Bytes) (v : Option ℕ) (k j id : Bytes) (m : Topics)
    → Entries TopicOk m
    → ((t : Topic)
        → Distinct t.clients
        → granted_qos id (g t).clients ≡ (if bytes_eq cid id then v else granted_qos id t.clients))
    → (at k m ≡ none → v ≡ none)
    → grant_in (at j (modify k g m)) id
      ≡ (if bytes_eq k j && bytes_eq cid id then v else grant_in (at j m) id)
grant-changed g cid v k j id m h sets absent = elim (Bool-cases (bytes_eq k j)) [
  | inl b ↦ elim (Option-cases (at j m)) [
    | inl e ↦
        let gone : v ≡ none = absent (ap (λ i. at i m) (bytes_eq→eq k j b) ∙ e) in
        grant-modify k j id g m ∙ rw (b, e) (none_if (bytes_eq cid id) v gone)
    | inr (t, e) ↦
        grant-modify k j id g m ∙ rw (b, e) (sets t (at-Entries TopicOk m j t h e).distinct)
  ]
  | inr b ↦ grant-modify k j id g m ∙ rw b refl
]

inserted : (k : Bytes) (v : Topic) (m : Topics) → is_some (at k (insert k v m)) ≡ true
unfolding at insert
inserted k v m = elim (Bool-cases (is_some (at k m))) [
  | inl b ↦ rw b b
  | inr b ↦ rw (b, bytes_eq_refl k) refl
]

pub grant-subscribed :
    (c : Client) (q : ℕ) (k j id : Bytes) (m : Topics)
    → Entries TopicOk m
    → grant_in (at j (modify k (topic_subscribe c q) (insert k (make_topic k) m))) id
      ≡ (if bytes_eq k j && bytes_eq c.client_id id then some q else grant_in (at j m) id)
grant-subscribed c q k j id m h =
    let m' = insert k (make_topic k) m in
    grant-changed (topic_subscribe c q) c.client_id (some q) k j id m'
      (insert-Entries TopicOk k (make_topic k) m (make_topic-Ok k) h)
      (λ t d. (subscribe_grants c q t d).0 id)
      (λ e. absurd (ground (arith, inserted k (make_topic k) m, e)))
    ∙ ap (λ o. if bytes_eq k j && bytes_eq c.client_id id then some q else o)
        (grant-make_topic k j id m)

pub grant-unsubscribed :
    (c : Client) (k j id : Bytes) (m : Topics)
    → Entries TopicOk m
    → grant_in (at j (modify k (topic_unsubscribe c) m)) id
      ≡ (if bytes_eq k j && bytes_eq c.client_id id then none else grant_in (at j m) id)
grant-unsubscribed c k j id m h =
    grant-changed (topic_unsubscribe c) c.client_id none k j id m h
      (λ t d. (unsubscribe_revokes c t d).0 id) (λ _. refl)

empty_grants : (t : Topic) (id : Bytes) → topic_empty t ≡ true → granted_qos id t.clients ≡ none
unfolding granted_qos
empty_grants t id e =
    elim t.clients as (λ cs. is_empty cs ≡ true → granted_qos id cs ≡ none) [
      | [] ↦ λ _. refl
      | c ∷ cs ↦ λ f. absurd cc
    ]
      (ground (arith, e))

-- A topic that is empty may go.
pub grant-erased :
    (k j id : Bytes) (t : Topic) (m : Topics)
    → at k m ≡ some t
    → topic_empty t ≡ true
    → grant_in (at j (erase k m)) id ≡ grant_in (at j m) id
grant-erased k j id t m e empty = elim (Bool-cases (bytes_eq k j)) [
  | inl b ↦
      let here : at j m ≡ some t = ap (λ i. at i m) (sym (bytes_eq→eq k j b)) ∙ e in
      rw (at-erase k j m, b, here) (sym (empty_grants t id empty))
  | inr b ↦ rw (at-erase k j m, b) refl
]

-- What is left of the topics when the client unsubscribes from the filter `k`, whose topic is given.
abbrev pub dropped_grants : Client → Bytes → Topics → Option Topic → Topics
dropped_grants c k m none = m
dropped_grants c k m (some t) =
    let m' = modify k (topic_unsubscribe c) m in
    if topic_empty (topic_unsubscribe c t) then erase k m' else m'

grant-after_drop :
    (c : Client) (k j id : Bytes) (m : Topics) (o : Option Topic)
    → at k m ≡ o
    → Entries TopicOk m
    → grant_in (at j (dropped_grants c k m o)) id
      ≡ grant_in (at j (modify k (topic_unsubscribe c) m)) id
grant-after_drop c k j id m none e h = elim (Bool-cases (bytes_eq k j)) [
  | inl b ↦
      let here : at j m ≡ none = ap (λ i. at i m) (sym (bytes_eq→eq k j b)) ∙ e in
      sym (grant-modify k j id (topic_unsubscribe c) m ∙ rw (b, here) refl)
  | inr b ↦ sym (grant-modify k j id (topic_unsubscribe c) m ∙ rw b refl)
]
grant-after_drop c k j id m (some t) e h = elim (Bool-cases (topic_empty (topic_unsubscribe c t))) [
  | inl b ↦ rw b (
      grant-erased k j id (topic_unsubscribe c t) (modify k (topic_unsubscribe c) m)
        (rw (at-modify k k (topic_unsubscribe c) m, bytes_eq_refl k, e) refl) b)
  | inr b ↦ rw b refl
]

pub grant-dropped_at :
    (c : Client) (k j id : Bytes) (m : Topics) (o : Option Topic)
    → at k m ≡ o
    → Entries TopicOk m
    → grant_in (at j (dropped_grants c k m o)) id
      ≡ (if bytes_eq k j && bytes_eq c.client_id id then none else grant_in (at j m) id)
grant-dropped_at c k j id m o e h =
    grant-after_drop c k j id m o e h ∙ grant-unsubscribed c k j id m h

pub grant-dropped :
    (c : Client) (k j id : Bytes) (m : Topics)
    → Entries TopicOk m
    → grant_in (at j (drop_subscriber c k m)) id
      ≡ (if bytes_eq k j && bytes_eq c.client_id id then none else grant_in (at j m) id)
unfolding drop_subscriber
grant-dropped c k j id m h = grant-dropped_at c k j id m (at k m) refl h

-- A change that leaves the clients of a topic alone.
pub grant-same :
    (g : Topic → Topic) (k j id : Bytes) (m : Topics)
    → ((t : Topic) → (g t).clients ≡ t.clients)
    → grant_in (at j (modify k g m)) id ≡ grant_in (at j m) id
grant-same g k j id m same = elim (Option-cases (at j m)) [
  | inl e ↦ grant-modify k j id g m ∙ rw e (if_same (bytes_eq k j) none)
  | inr (t, e) ↦ grant-modify k j id g m ∙ rw (e, same t) (if_same (bytes_eq k j) _)
]

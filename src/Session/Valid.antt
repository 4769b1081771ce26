-- ===== src/Session/Valid.antt =====
-- What holds of every session (object/session.h), and that its operations keep it.
use shan_mqtt_broker.Base.{
  arith, true, ℕ, ◌≤◌, ◌≡◌, List, [], ◌∷◌, ◌++◌, Bytes, All, map, Bool-cases, inl, inr, bytes_eq,
  ◌==◌, bytes_lt,
}
use shan_mqtt_broker.Packet.Publish.{Publish, set_dup}
use shan_mqtt_broker.Session.{
  Session, Subscription, new_session, erase_subscription, insert_subscription, erase_publish,
  add_publish_for_ack, add_publish_for_rec, release_publish_for_ack, release_publish_for_rec,
  add_subscription, delete_subscription, add_packet_id_for_pubcomp, release_packet_id_for_pubcomp,
  add_packet_id_for_pubrel, release_packet_id_for_pubrel,
}
use shan_mqtt_broker.Session.Steps.{
  Exchange, counted, kept_for_ack, kept_for_rec, acked, received, awaits_comp, completed,
  awaits_rel, released, ack_resent, rec_resent, Change, added, deleted,
}

abbrev pub HasQos : ℕ → Publish → Type 0
HasQos qos p = p.qos ≡ qos

abbrev pub SubscriptionOk : Subscription → Type 0
SubscriptionOk sub = sub.max_qos ≤ 2

pub record IsValid (s : Session) : Type 0 where
  pub counter : s.next_packet_id ≤ 65535
  pub for_ack : All (HasQos 1) s.publish_for_ack
  pub for_rec : All (HasQos 2) s.publish_for_rec
  pub subs : All SubscriptionOk s.subscriptions

pub new_session-IsValid : IsValid new_session
new_session-IsValid = record { counter = omega arith; for_ack = tt; for_rec = tt; subs = tt }

All-append_one :
    {A : Type 0} (P : A → Type 0) (l : List A) (a : A) → All P l → P a → All P (l ++ a ∷ [])
All-append_one P [] a h p = (p, tt)
All-append_one P (x ∷ l) a h p = (h.0, All-append_one P l a h.1 p)

All-erase_publish :
    (P : Publish → Type 0) (id : ℕ) (l : List Publish) → All P l → All P (erase_publish id l)
unfolding erase_publish
All-erase_publish P id [] h = tt
All-erase_publish P id (p ∷ l) h = elim (Bool-cases (p.packet_id == id)) [
  | inl b ↦ rw b h.1
  | inr b ↦ rw b (h.0, All-erase_publish P id l h.1)
]

resent-HasQos :
    (q : ℕ) (l : List Publish) → All (HasQos q) l → All (HasQos q) (map (set_dup true) l)
unfolding set_dup
resent-HasQos q [] h = tt
resent-HasQos q (p ∷ l) h = (h.0, resent-HasQos q l h.1)

pub Exchange-IsValid : (s t : Session) → Exchange s t → IsValid s → IsValid t
unfolding add_publish_for_ack add_publish_for_rec release_publish_for_ack release_publish_for_rec
    add_packet_id_for_pubcomp release_packet_id_for_pubcomp add_packet_id_for_pubrel
    release_packet_id_for_pubrel
Exchange-IsValid s _ (counted n l) h = record {
  counter = l;
  for_ack = h.for_ack;
  for_rec = h.for_rec;
  subs = h.subs;
}
Exchange-IsValid s _ (kept_for_ack p e) h = record {
  counter = h.counter;
  for_ack = All-append_one (HasQos 1) s.publish_for_ack p h.for_ack e;
  for_rec = h.for_rec;
  subs = h.subs;
}
Exchange-IsValid s _ (kept_for_rec p e) h = record {
  counter = h.counter;
  for_ack = h.for_ack;
  for_rec = All-append_one (HasQos 2) s.publish_for_rec p h.for_rec e;
  subs = h.subs;
}
Exchange-IsValid s _ (acked id) h = record {
  counter = h.counter;
  for_ack = All-erase_publish (HasQos 1) id s.publish_for_ack h.for_ack;
  for_rec = h.for_rec;
  subs = h.subs;
}
Exchange-IsValid s _ (received id) h = record {
  counter = h.counter;
  for_ack = h.for_ack;
  for_rec = All-erase_publish (HasQos 2) id s.publish_for_rec h.for_rec;
  subs = h.subs;
}
Exchange-IsValid s _ (awaits_comp id) h = record {
  counter = h.counter;
  for_ack = h.for_ack;
  for_rec = h.for_rec;
  subs = h.subs;
}
Exchange-IsValid s _ (completed id) h = record {
  counter = h.counter;
  for_ack = h.for_ack;
  for_rec = h.for_rec;
  subs = h.subs;
}
Exchange-IsValid s _ (awaits_rel id) h = record {
  counter = h.counter;
  for_ack = h.for_ack;
  for_rec = h.for_rec;
  subs = h.subs;
}
Exchange-IsValid s _ (released id) h = record {
  counter = h.counter;
  for_ack = h.for_ack;
  for_rec = h.for_rec;
  subs = h.subs;
}
Exchange-IsValid s _ ack_resent h = record {
  counter = h.counter;
  for_ack = resent-HasQos 1 s.publish_for_ack h.for_ack;
  for_rec = h.for_rec;
  subs = h.subs;
}
Exchange-IsValid s _ rec_resent h = record {
  counter = h.counter;
  for_ack = h.for_ack;
  for_rec = resent-HasQos 2 s.publish_for_rec h.for_rec;
  subs = h.subs;
}

All-erase_subscription :
    (P : Subscription → Type 0) (f : Bytes) (l : List Subscription)
    → All P l
    → All P (erase_subscription f l)
unfolding erase_subscription
All-erase_subscription P f [] h = tt
All-erase_subscription P f (x ∷ l) h = elim (Bool-cases (bytes_eq x.topic_filter f)) [
  | inl b ↦ rw b h.1
  | inr b ↦ rw b (h.0, All-erase_subscription P f l h.1)
]

All-insert_subscription :
    (P : Subscription → Type 0) (y : Subscription) (l : List Subscription)
    → P y
    → All P l
    → All P (insert_subscription y l)
unfolding insert_subscription
All-insert_subscription P y [] p h = (p, tt)
All-insert_subscription P y (x ∷ l) p h =
    elim (Bool-cases (bytes_eq x.topic_filter y.topic_filter)) [
      | inl b ↦ rw b h
      | inr b ↦ elim (Bool-cases (bytes_lt y.topic_filter x.topic_filter)) [
        | inl c ↦ rw (b, c) (p, h)
        | inr c ↦ rw (b, c) (h.0, All-insert_subscription P y l p h.1)
      ]
    ]

pub Change-IsValid : (s t : Session) → Change s t → IsValid s → IsValid t
unfolding add_subscription delete_subscription
Change-IsValid s _ (added f q w l) h = record {
  counter = h.counter;
  for_ack = h.for_ack;
  for_rec = h.for_rec;
  subs =
      All-insert_subscription SubscriptionOk _ (erase_subscription f s.subscriptions) l
        (All-erase_subscription SubscriptionOk f s.subscriptions h.subs);
}
Change-IsValid s _ (deleted f) h = record {
  counter = h.counter;
  for_ack = h.for_ack;
  for_rec = h.for_rec;
  subs = All-erase_subscription SubscriptionOk f s.subscriptions h.subs;
}

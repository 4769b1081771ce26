-- ===== src/Session.antt =====
-- object/session.h, object/session.cpp and object/subscription.h.
pub mod PacketIds
pub mod Exchanges
pub mod Steps
pub mod Valid
use shan_mqtt_broker.Base.{
  ℕ, zero, suc, ◌+◌, ◌%◌, Bool, true, false, ◌||◌, List, [], ◌∷◌, ◌++◌, Bytes, bytes_eq, bytes_lt,
  elem, ◌==◌, if◌then◌else◌,
}
use shan_mqtt_broker.Outcome.{Result, ok, stuck}
use shan_mqtt_broker.Packet.Publish.{Publish}

pub record Subscription : Type 0 where
  pub topic_filter : Bytes
  pub max_qos : ℕ
  pub is_wild : Bool

-- `_subscriptions` is a set ordered by topic filter.
pub record Session : Type 0 where
  pub next_packet_id : ℕ
  pub subscriptions : List Subscription
  pub packet_id_for_pubrel : List ℕ
  pub publish_for_ack : List Publish
  pub publish_for_rec : List Publish
  pub packet_id_for_pubcomp : List ℕ

-- `session()`
abbrev pub new_session : Session
new_session = record {
  next_packet_id = 1;
  subscriptions = [];
  packet_id_for_pubrel = [];
  publish_for_ack = [];
  publish_for_rec = [];
  packet_id_for_pubcomp = [];
}

-- `std::find_if` over publish packets, by packet id.
abbrev pub any_publish : ℕ → List Publish → Bool
any_publish packet_id [] = false
any_publish packet_id (p ∷ ps) = p.packet_id == packet_id || any_publish packet_id ps

-- The three tests of `new_packet_id`.
abbrev pub is_used : Session → ℕ → Bool
is_used s new_id =
    any_publish new_id s.publish_for_ack
    || (any_publish new_id s.publish_for_rec || elem new_id s.packet_id_for_pubcomp)

-- `_next_packet_id++` on a `uint16_t`
abbrev pub increment : ℕ → ℕ
increment id = (id + 1) % 65536

-- The first lines of the loop's body: the candidate, which is never 0, and the counter behind it.
abbrev pub candidate : ℕ → ℕ × ℕ
candidate next =
    if next == 0 then (increment next, increment (increment next)) else (next, increment next)

-- The do-while loop; `rounds` is fuel.
unfoldable pub new_packet_id_loop : ℕ → Session → Result (ℕ × Session)
new_packet_id_loop zero s = stuck
new_packet_id_loop (suc rounds) s =
    let s' = record s { next_packet_id = (candidate s.next_packet_id).1 } in
    let again = new_packet_id_loop rounds s' in
    if is_used s (candidate s.next_packet_id).0
    then again
    else ok ((candidate s.next_packet_id).0, s')

-- After 65535 rounds every packet id has been tried.
unfoldable pub new_packet_id : Session → Result (ℕ × Session)
new_packet_id s = new_packet_id_loop 65535 s

-- `_subscriptions.erase`: at most one subscription has the filter.
unfoldable pub erase_subscription : Bytes → List Subscription → List Subscription
erase_subscription f [] = []
erase_subscription f (x ∷ xs) =
    let rest = erase_subscription f xs in if bytes_eq x.topic_filter f then xs else x ∷ rest

-- `_subscriptions.insert`: a filter that is there already is kept.
unfoldable pub insert_subscription : Subscription → List Subscription → List Subscription
insert_subscription y [] = y ∷ []
insert_subscription y (x ∷ xs) =
    let rest = insert_subscription y xs in
    if bytes_eq x.topic_filter y.topic_filter
    then x ∷ xs
    else (if bytes_lt y.topic_filter x.topic_filter then y ∷ (x ∷ xs) else x ∷ rest)

unfoldable pub add_subscription : Bytes → ℕ → Bool → Session → Session
unfolding erase_subscription insert_subscription
add_subscription topic_filter max_qos is_wild s =
    let sub : Subscription = record {
      topic_filter = topic_filter;
      max_qos = max_qos;
      is_wild = is_wild;
    } in
    record s {
      subscriptions = insert_subscription sub (erase_subscription topic_filter s.subscriptions);
    }

unfoldable pub delete_subscription : Bytes → Session → Session
unfolding erase_subscription
delete_subscription topic_filter s = record s {
  subscriptions = erase_subscription topic_filter s.subscriptions;
}

-- `std::find` and `erase`: the first entry with the id goes.
unfoldable pub erase_id : ℕ → List ℕ → List ℕ
erase_id id [] = []
erase_id id (x ∷ xs) = let rest = erase_id id xs in if x == id then xs else x ∷ rest

unfoldable pub erase_publish : ℕ → List Publish → List Publish
erase_publish id [] = []
erase_publish id (p ∷ ps) =
    let rest = erase_publish id ps in if p.packet_id == id then ps else p ∷ rest

unfoldable pub add_packet_id_for_pubrel : ℕ → Session → Session
add_packet_id_for_pubrel id s = record s {
  packet_id_for_pubrel = s.packet_id_for_pubrel ++ id ∷ [];
}

unfoldable pub release_packet_id_for_pubrel : ℕ → Session → Session
unfolding erase_id
release_packet_id_for_pubrel id s = record s {
  packet_id_for_pubrel = erase_id id s.packet_id_for_pubrel;
}

unfoldable pub add_packet_id_for_pubcomp : ℕ → Session → Session
add_packet_id_for_pubcomp id s = record s {
  packet_id_for_pubcomp = s.packet_id_for_pubcomp ++ id ∷ [];
}

unfoldable pub release_packet_id_for_pubcomp : ℕ → Session → Session
unfolding erase_id
release_packet_id_for_pubcomp id s = record s {
  packet_id_for_pubcomp = erase_id id s.packet_id_for_pubcomp;
}

unfoldable pub add_publish_for_ack : Publish → Session → Session
add_publish_for_ack p s = record s { publish_for_ack = s.publish_for_ack ++ p ∷ [] }

unfoldable pub release_publish_for_ack : ℕ → Session → Session
unfolding erase_publish
release_publish_for_ack id s = record s { publish_for_ack = erase_publish id s.publish_for_ack }

unfoldable pub add_publish_for_rec : Publish → Session → Session
add_publish_for_rec p s = record s { publish_for_rec = s.publish_for_rec ++ p ∷ [] }

unfoldable pub release_publish_for_rec : ℕ → Session → Session
unfolding erase_publish
release_publish_for_rec id s = record s { publish_for_rec = erase_publish id s.publish_for_rec }

-- ===== src/Session/Steps.antt =====
-- The operations on a session (object/session.cpp), as one relation between the states around them.
use shan_mqtt_broker.Outcome.{Result, ok, err, stuck}
use shan_mqtt_broker.Outcome.{err, ok, Result}
use shan_mqtt_broker.Base.{
  false, if◌then◌else◌, zero, arith, suc, ℕ, ◌≤◌, ◌≡◌, Bool, true, Bytes, map,
}
use shan_mqtt_broker.Packet.Publish.{Publish, set_dup}
use shan_mqtt_broker.Session.{
  is_used, Result, candidate, new_packet_id, new_packet_id_loop, Session, candidate, is_used,
  new_packet_id, new_packet_id_loop, add_subscription, delete_subscription,
  add_packet_id_for_pubrel, release_packet_id_for_pubrel, add_packet_id_for_pubcomp,
  release_packet_id_for_pubcomp, add_publish_for_ack, release_publish_for_ack, add_publish_for_rec,
  release_publish_for_rec,
}

-- What the exchanges of messages do to a session.
pub data Exchange (s : Session) : Session → Type 0 where
  counted : (n : ℕ) → n ≤ 65535 → Exchange s (record s { next_packet_id = n })
  kept_for_ack : (p : Publish) → p.qos ≡ 1 → Exchange s (add_publish_for_ack p s)
  kept_for_rec : (p : Publish) → p.qos ≡ 2 → Exchange s (add_publish_for_rec p s)
  acked : (id : ℕ) → Exchange s (release_publish_for_ack id s)
  received : (id : ℕ) → Exchange s (release_publish_for_rec id s)
  awaits_comp : (id : ℕ) → Exchange s (add_packet_id_for_pubcomp id s)
  completed : (id : ℕ) → Exchange s (release_packet_id_for_pubcomp id s)
  awaits_rel : (id : ℕ) → Exchange s (add_packet_id_for_pubrel id s)
  released : (id : ℕ) → Exchange s (release_packet_id_for_pubrel id s)
  ack_resent : Exchange s (record s { publish_for_ack = map (set_dup true) s.publish_for_ack })
  rec_resent : Exchange s (record s { publish_for_rec = map (set_dup true) s.publish_for_rec })

-- What the handlers of SUBSCRIBE and UNSUBSCRIBE do to a session.
pub data Change (s : Session) : Session → Type 0 where
  added : (f : Bytes) (q : ℕ) (w : Bool) → q ≤ 2 → Change s (add_subscription f q w s)
  deleted : (f : Bytes) → Change s (delete_subscription f s)

-- `new_packet_id` changes nothing but the counter.
abbrev pub Counts : Session → Result (ℕ × Session) → Type 0
Counts s (ok (id, t)) = Exchange s t
Counts s (err e) = Unit {0}
Counts s stuck = Unit {0}

candidate_le : (n : ℕ) → (candidate n).1 ≤ 65535
candidate_le n = ground arith

if-Counts :
    (b : Bool) (s : Session) (x y : Result (ℕ × Session))
    → Counts s x
    → Counts s y
    → Counts s (if b then x else y)
if-Counts true s x y hx hy = hx
if-Counts false s x y hx hy = hy

new_packet_id_loop-Counts :
    (rounds : ℕ) (s : Session) (m : ℕ)
    → Counts s (new_packet_id_loop rounds (record s { next_packet_id = m }))
unfolding new_packet_id_loop
new_packet_id_loop-Counts zero s m = tt
new_packet_id_loop-Counts (suc rounds) s m =
    if-Counts (is_used s (candidate m).0) s _ _ (new_packet_id_loop-Counts rounds s (candidate m).1)
      (counted (candidate m).1 (candidate_le m))

pub new_packet_id-Counts : (s : Session) → Counts s (new_packet_id s)
unfolding new_packet_id
new_packet_id-Counts s = new_packet_id_loop-Counts 65535 s s.next_packet_id

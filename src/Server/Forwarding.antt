-- ===== src/Server/Forwarding.antt =====
-- Who gets a message that a client publishes: `handle_publish` (player/mqtt_server.cpp) and
-- `topic::publish` (object/topic.cpp).
use shan_mqtt_broker.Base.{
  subst, inr, inl, Bool-cases, ℕ, ◌+◌, ◌≡◌, Bool, true, false, not, Bytes, List, [], ◌∷◌, ◌++◌,
  none, some, Option, is_empty, if◌then◌else◌, length, length-append, append_assoc, append-nil,
  refl, ◌∙◌, ap, sym, arith,
}
use shan_mqtt_broker.Outcome.{ok}
use shan_mqtt_broker.Topic.Filter.{match}
use shan_mqtt_broker.Packet.Publish.{Publish}
use shan_mqtt_broker.Session.{Session}
use shan_mqtt_broker.Server.Maps.{at}
use shan_mqtt_broker.Server.State.{Client, Topic, Server, Effect, when}
use shan_mqtt_broker.Server.Topics.{
  TopicPtr, exact, wild, trash, topic_publish, set_retained, modify_topic,
}
use shan_mqtt_broker.Server.Delivery.{HasRoom, IsSendable}
use shan_mqtt_broker.Server.Fanout.{Deliveries, AllRoom, AllRoom-map, publish_to_keeps}
use shan_mqtt_broker.Server.Publishing.{publish_wild_topics}

-- The clients of the matching topics, in the order of the loop.
abbrev pub wild_clients : Bytes → List (Bytes × Topic) → List (Client × ℕ)
wild_clients name [] = []
wild_clients name ((f, t) ∷ ts) = (if match f name then t.clients else []) ++ wild_clients name ts

abbrev pub clients_of : Option Topic → List (Client × ℕ)
clients_of none = []
clients_of (some t) = t.clients

-- All that a message goes to: the clients of the topic of its name, then those of the topics with
-- wildcards that match.
abbrev pub recipients : Bytes → Server → List (Client × ℕ)
recipients name s = clients_of (at name s.topics) ++ wild_clients name s.wild_topics

-- What the server takes for "the message was sent": what the last matching topic says.
abbrev pub last_sent : Bytes → List (Bytes × Topic) → Bool → Bool
last_sent name [] sent = sent
last_sent name ((f, t) ∷ ts) sent =
    last_sent name ts (if match f name then not (is_empty t.clients) else sent)

-- Only the topics, the sessions and the output differ.
abbrev pub Published : List Effect → Server → Server → Type 0
Published out s s' = s' ≡ record s {
  topics = s'.topics;
  wild_topics = s'.wild_topics;
  trash_topic = s'.trash_topic;
  heap = s'.heap;
  output = s.output ++ out;
}

-- Where only a topic may have changed.
abbrev Retained : Server → Server → Type 0
Retained s s' =
    s' ≡ record s { topics = s'.topics; wild_topics = s'.wild_topics; trash_topic = s'.trash_topic }

-- A topic of `_topics` is no topic of `_wild_topics`.
abbrev pub WildSame : TopicPtr → Server → Server → Type 0
WildSame (exact f) s s' = s'.wild_topics ≡ s.wild_topics
WildSame (wild f) s s' = Unit {0}
WildSame trash s s' = Unit {0}

retains :
    (b : Bool) (ptr : TopicPtr) (g : Topic → Topic) (s : Server)
    → (s' : Server) × (when b (modify_topic ptr g) s ≡ (ok tt, s'))
      × Retained s s'
      × ((heap : ℕ → Session) (o : List Effect)
          → WildSame ptr s (record s' { heap = heap; output = o }))
retains false (exact f) g s = (s, refl, refl, λ heap o. refl)
retains false (wild f) g s = (s, refl, refl, λ heap o. tt)
retains false trash g s = (s, refl, refl, λ heap o. tt)
retains true (exact f) g s = (_, refl, refl, λ heap o. refl)
retains true (wild f) g s = (_, refl, refl, λ heap o. tt)
retains true trash g s = (_, refl, refl, λ heap o. tt)

pub topic_delivers :
    (l : ℕ) (ptr : TopicPtr) (t : Topic) (packet : Publish) (s : Server)
    → IsSendable packet
    → AllRoom (length t.clients + l) t.clients s.heap
    → (s' : Server) × (out : List Effect) × (topic_publish ptr t packet s
        ≡ (ok (not (is_empty t.clients)), s'))
      × Published out s s'
      × Deliveries packet t.clients out
      × ((j : ℕ) → HasRoom (length t.clients + l) (s.heap j) → HasRoom l (s'.heap j))
      × WildSame ptr s s'
unfolding topic_publish
topic_delivers l ptr t packet s v r =
    let (s0, e, same, wild_same) = retains packet.retain ptr (set_retained packet) s in
    let heap_same : s0.heap ≡ s.heap = ap (λ x. x.heap) same in
    let output_same : s0.output ≡ s.output = ap (λ x. x.output) same in
    let (heap, out, e', d, room) = publish_to_keeps l t.clients packet s0 v (rw heap_same r) in
    let with_heap : Retained s s0
        → Published out s (record s0 { heap = heap; output = s0.output ++ out }) =
      λ q. ap {A = Server} (λ x. record x { heap = heap; output = x.output ++ out }) q in
    (
      record s0 { heap = heap; output = s0.output ++ out },
      out,
      rw (e, e') refl,
      with_heap same,
      d,
      λ j h. room j (rw heap_same h),
      wild_same heap (s0.output ++ out),
    )

pub AllRoom-append :
    (k : ℕ) (xs ys : List (Client × ℕ)) (heap : ℕ → Session)
    → AllRoom k (xs ++ ys) heap
    → AllRoom k xs heap × AllRoom k ys heap
AllRoom-append k [] ys heap r = (tt, r)
AllRoom-append k (x ∷ xs) ys heap r = let (a, b) = AllRoom-append k xs ys heap r.1 in ((r.0, a), b)

pub Deliveries-append :
    (packet : Publish) (xs ys : List (Client × ℕ)) (a b : List Effect)
    → Deliveries packet xs a
    → Deliveries packet ys b
    → Deliveries packet (xs ++ ys) (a ++ b)
Deliveries-append packet [] ys a b d e = subst (λ o. Deliveries packet ys (o ++ b)) (sym d) e
Deliveries-append packet ((c, q) ∷ xs) ys a b (id, out, o, low, high, d) e =
    (id, out ++ b, ap (λ l. l ++ b) o, low, high, Deliveries-append packet xs ys out b d e)

pub Published-nil : (s : Server) → Published [] s s
Published-nil s = ap {A = List Effect} (λ o. record s { output = o }) (sym (append-nil s.output))

pub Published-append :
    (a b : List Effect) (s s' s2 : Server)
    → Published a s s'
    → Published b s' s2
    → Published (a ++ b) s s2
Published-append a b s s' s2 p q =
    let onto : Server → Server = λ x. record x {
      topics = s2.topics;
      wild_topics = s2.wild_topics;
      trash_topic = s2.trash_topic;
      heap = s2.heap;
      output = x.output ++ b;
    } in
    let again : List Effect → Server = λ o. record s {
      topics = s2.topics;
      wild_topics = s2.wild_topics;
      trash_topic = s2.trash_topic;
      heap = s2.heap;
      output = o;
    } in
    q ∙ ap onto p ∙ ap again (append_assoc s.output a b)

-- Two stages, the second of which needs what room the first leaves.
pub room_split :
    (xs ys : List (Client × ℕ)) (l : ℕ) (h : Session)
    → HasRoom (length (xs ++ ys) + l) h
    → HasRoom (length xs + (length ys + l)) h
room_split xs ys l h r = (r.0, omega (arith, r.1, length-append xs ys))

-- The topics with wildcards that match, one after the other.
pub wild_delivers :
    (l : ℕ) (ts : List (Bytes × Topic)) (packet : Publish) (sent : Bool) (s : Server)
    → IsSendable packet
    → AllRoom
        (length (wild_clients packet.topic_name ts) + l)
        (wild_clients packet.topic_name ts)
        s.heap
    → (s' : Server) × (out : List Effect) × (publish_wild_topics ts packet sent s
        ≡ (ok (last_sent packet.topic_name ts sent), s'))
      × Published out s s'
      × Deliveries packet (wild_clients packet.topic_name ts) out
      × ((j : ℕ)
          → HasRoom (length (wild_clients packet.topic_name ts) + l) (s.heap j)
          → HasRoom l (s'.heap j))
unfolding publish_wild_topics
wild_delivers l [] packet sent s v r =
    (s, [], refl, Published-nil s, refl, λ j h. (h.0, omega (arith, h.1)))
wild_delivers l ((f, t) ∷ ts) packet sent s v r = elim (Bool-cases (match f packet.topic_name)) [
  | inl h ↦ rw h (
      let rest = wild_clients packet.topic_name ts in
      let r' : AllRoom (length (t.clients ++ rest) + l) (t.clients ++ rest) s.heap = rw h at r in
      let split = AllRoom-append (length (t.clients ++ rest) + l) t.clients rest s.heap r' in
      let fits : (j : ℕ)
          → HasRoom (length (t.clients ++ rest) + l) (s.heap j)
          → HasRoom (length t.clients + (length rest + l)) (s.heap j) =
        λ j h'. room_split t.clients rest l (s.heap j) h' in
      let (s1, a, e, p, d, room, _) = topic_delivers (length rest + l) (wild f) t packet s v (
        AllRoom-map (length (t.clients ++ rest) + l) (length t.clients + (length rest + l))
          t.clients s.heap s.heap fits split.0) in
      let (s2, b, e', p', d', room') = wild_delivers l ts packet (not (is_empty t.clients)) s1 v (
        AllRoom-map (length (t.clients ++ rest) + l) (length rest + l) rest s.heap s1.heap
          (λ j h'. room j (fits j h')) split.1) in
      (
        s2,
        a ++ b,
        rw (e, e') refl,
        Published-append a b s s1 s2 p p',
        Deliveries-append packet t.clients rest a b d d',
        λ j h'. room' j (room j (fits j h')),
      ))
  | inr h ↦ rw h (wild_delivers l ts packet sent s v (rw h at r))
]

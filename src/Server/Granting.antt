-- ===== src/Server/Granting.antt =====
-- The answer to a SUBSCRIBE: `mqtt_server::handle_subscribe` (player/mqtt_server.cpp).
use shan_mqtt_broker.Packet.Any.{header}
use shan_mqtt_broker.Server.Publishing.{agent}
use shan_mqtt_broker.Base.{
  ◌%◌, append_assoc, inr, inl, length-append, Bool-cases, append-nil, ℕ, ◌+◌, ◌^◌, ◌<◌, ◌≡◌, Bool,
  true, false, ◌&&◌, Bytes, bytes_eq, List, [], ◌∷◌, ◌++◌, length, ltb, some, if◌then◌else◌, refl,
  ◌∙◌, ap, arith,
}
use shan_mqtt_broker.Outcome.{ok}
use shan_mqtt_broker.Packet.Publish.{starts_with_dollar}
use shan_mqtt_broker.Packet.Subscribe.{Subscribe}
use shan_mqtt_broker.Packet.Acks.{bad_return_code, make_suback, add_return_code}
use shan_mqtt_broker.Packet.AckTrip.{header_of, suback_of}
use shan_mqtt_broker.Packet.Any
use shan_mqtt_broker.Server.State.{Client, Server, write, emit, ◌>>◌}
use shan_mqtt_broker.Server.Topics.{TopicPtr}
use shan_mqtt_broker.Server.Registry.{publish_retained_message}
use shan_mqtt_broker.Server.Subscribing.{
  subscribe_plain, subscribe_sys, subscribe_one, subscribe_loop, handle_subscribe, trash_filter,
  Subscribed,
}

-- The return code of one filter: the QoS that was asked for, or the failure 0x80.
abbrev pub granted_code : Client → Bytes → ℕ → ℕ
granted_code c f q =
    if ltb q 3
    then (if starts_with_dollar f
        then (if c.admin && bytes_eq f trash_filter then q else 0x80)
        else q)
    else 0x80

abbrev pub granted_codes : Client → List Bytes → List ℕ → List ℕ
granted_codes c [] qs = []
granted_codes c (f ∷ fs) [] = []
granted_codes c (f ∷ fs) (q ∷ qs) = granted_code c f q ∷ granted_codes c fs qs

plain_granted :
    (c : Client) (f : Bytes) (q : ℕ) (w : Bool) (s : Server)
    → (r : Subscribed) × (s' : Server) × (subscribe_plain c f q w s ≡ (ok r, s'))
      × (r.return_code ≡ q)
      × (s'.output ≡ s.output)
unfolding subscribe_plain
plain_granted c f q true s = (_, _, refl, refl, refl)
plain_granted c f q false s = (_, _, refl, refl, refl)

sys_granted :
    (c : Client) (f : Bytes) (q : ℕ) (s : Server)
    → (r : Subscribed) × (s' : Server) × (subscribe_sys c f q s ≡ (ok r, s'))
      × (r.return_code ≡ (if c.admin && bytes_eq f trash_filter then q else 0x80))
      × (s'.output ≡ s.output)
unfolding subscribe_sys
sys_granted c f q s = elim (Bool-cases (c.admin && bytes_eq f trash_filter)) [
  | inl h ↦ rw h (_, _, refl, refl, refl)
  | inr h ↦ rw h (_, _, refl, refl, refl)
]

pub code_is_good : (c : Client) (f : Bytes) (q : ℕ) → bad_return_code (granted_code c f q) ≡ false
code_is_good c f q = ground arith

pub one_granted :
    (c : Client) (f : Bytes) (q : ℕ) (w : Bool) (s : Server)
    → (r : Subscribed) × (s' : Server) × (subscribe_one c f q w s ≡ (ok r, s'))
      × (r.return_code ≡ granted_code c f q)
      × (s'.output ≡ s.output)
unfolding subscribe_one
one_granted c f q w s = elim (Bool-cases (ltb q 3)) [
  | inl h ↦ elim (Bool-cases (starts_with_dollar f)) [
    | inl i ↦ rw (h, i) (sys_granted c f q s)
    | inr i ↦ rw (h, i) (plain_granted c f q w s)
  ]
  | inr h ↦ rw h (_, _, refl, refl, refl)
]

-- One code for each filter, in order.
loop_grants :
    (c : Client) (fs : List Bytes) (qs : List ℕ) (ws : List Bool) (id : ℕ) (codes : List ℕ)
    (es wilds : List TopicPtr) (s : Server)
    → length fs ≡ length qs
    → length fs ≡ length ws
    → 2 + length codes + length fs < 2 ^ 32
    → (exacts' : List TopicPtr) × (wilds' : List TopicPtr) × (s' : Server) × (subscribe_loop c fs qs
          ws
          (suback_of id codes)
          es
          wilds
          s
        ≡ (ok (suback_of id (codes ++ granted_codes c fs qs), exacts', wilds'), s'))
      × (s'.output ≡ s.output)
unfolding subscribe_loop add_return_code
loop_grants c [] qs ws id codes es wilds s lq lw h = (es, wilds, s, rw append-nil refl, refl)
loop_grants c (f ∷ fs) [] ws id codes es wilds s lq lw h = absurd (omega arith)
loop_grants c (f ∷ fs) (q ∷ qs) [] id codes es wilds s lq lw h = absurd (omega arith)
loop_grants c (f ∷ fs) (q ∷ qs) (w ∷ ws) id codes es wilds s lq lw h =
    let (r, s1, e, code, o) = one_granted c f q w s in
    let codes' = codes ++ granted_code c f q ∷ [] in
    let size : (2 + length codes + 1) % 2 ^ 32 ≡ 2 + length codes' =
      omega (arith, length-append codes (granted_code c f q ∷ [])) in
    let added : add_return_code (suback_of id codes) r.return_code ≡ ok (suback_of id codes') =
      rw (code, code_is_good c f q)
        (ap (λ n. ok (record { fh = header_of 9 0 n; packet_id = id; return_codes = codes' }))
          size) in
    let (es', wilds', s2, e', o') =
      loop_grants c fs qs ws id codes' (es ++ r.exacts) (wilds ++ r.wilds) s1 (omega arith)
        (omega arith) (omega (arith, h, length-append codes (granted_code c f q ∷ []))) in
    (
      es',
      wilds',
      s2,
      rw (e, added, e')
          (ap (λ l. (ok (suback_of id l, es', wilds'), s2))
            (append_assoc codes (granted_code c f q ∷ []) (granted_codes c fs qs))),
      o' ∙ o,
    )

-- A SUBSCRIBE on a channel with a client, with a QoS and a wildcard mark for each of its filters,
-- is answered by a SUBACK that has its packet id and one return code for each filter, in order; no
-- code makes the handler fail. The retained messages follow the SUBACK.
pub handle_subscribe_answers :
    (c : Client) (channel : ℕ) (p : Subscribe) (s : Server)
    → s.param channel ≡ some c
    → length p.topic_filters ≡ length p.max_qoses
    → length p.topic_filters ≡ length p.is_wild
    → 2 + length p.topic_filters < 2 ^ 32
    → (exacts : List TopicPtr) × (wilds : List TopicPtr) × (s' : Server) × (handle_subscribe channel
          p s
        ≡ (emit (
                write channel (
                  Any.suback (suback_of p.packet_id (granted_codes c p.topic_filters p.max_qoses))))
              >> publish_retained_message c exacts wilds)
            s')
      × (s'.output ≡ s.output)
unfolding handle_subscribe agent make_suback
handle_subscribe_answers c channel p s e lq lw h =
    let (exacts, wilds, s', l, o) =
      loop_grants c p.topic_filters p.max_qoses p.is_wild p.packet_id [] [] [] s lq lw
        (omega arith) in
    let known : agent channel s ≡ (ok c, s) = rw (e, agent) refl in
    (exacts, wilds, s', rw (known, l) refl, o)

-- ===== src/Tests/Lawful.antt =====
-- The broker with two clients is well formed.
use shan_mqtt_broker.Base.{
  ◌≡◌, ◌⊎◌, inl, inr, false, some, ℕ, [], ◌∷◌, Bytes, bytes_eq, bytes_eq→eq, Bool-cases, refl, sym,
  ◌∙◌, ◌==◌, arith,
}
use shan_mqtt_broker.Session.{new_session}
use shan_mqtt_broker.Session.Valid.{new_session-IsValid}
use shan_mqtt_broker.Server.Maps.{at}
use shan_mqtt_broker.Server.State.{Client, Server}
use shan_mqtt_broker.Server.Topics.{granted_qos}
use shan_mqtt_broker.Server.Subscribing.{trash_filter}
use shan_mqtt_broker.Server.WellFormed.{WellFormed, make_topic-Ok}
use shan_mqtt_broker.Tests.World.{name_tu, example_server, name_a, name_b}

one_of :
    (i : Bytes) (p : ℕ)
    → at i example_server.sessions ≡ some p
    → ((name_a ≡ i) × (p ≡ 1)) ⊎ ((name_b ≡ i) × (p ≡ 2))
unfolding at
one_of i p e = elim (Bool-cases (bytes_eq name_a i)) [
  | inl b ↦ inl (bytes_eq→eq name_a i b, ground (arith, b, e))
  | inr b ↦ elim (Bool-cases (bytes_eq name_b i)) [
    | inl d ↦ inr (bytes_eq→eq name_b i d, ground (arith, b, d, e))
    | inr d ↦ absurd (ground (arith, b, d, e))
  ]
]

on_own_channel :
    (channel : ℕ) (c : Client) → example_server.param channel ≡ some c → c.channel_id ≡ channel
on_own_channel channel c e = elim (Bool-cases (channel == 7)) [
  | inl b ↦ ground (arith, b, e)
  | inr b ↦ elim (Bool-cases (channel == 8)) [
    | inl d ↦ ground (arith, b, d, e)
    | inr d ↦ absurd (ground (arith, b, d, e))
  ]
]

pub example_server-WellFormed : WellFormed example_server
unfolding at granted_qos
example_server-WellFormed = record {
  topics_ok = record {
    exact_ok = (
      record {
        name = refl;
        distinct = (refl, tt);
        grants = (omega arith, tt);
        retained = λ m e. absurd cc;
      },
      refl,
      tt,
    );
    wild_ok = (
      record {
        name = refl;
        distinct = (refl, tt);
        grants = (omega arith, tt);
        retained = λ m e. absurd cc;
      },
      refl,
      tt,
    );
    trash_ok = make_topic-Ok trash_filter;
  };
  sessions_ok = record {
    given = (omega arith, refl, (omega arith, refl, tt));
    unshared = λ i j p a b. elim (one_of i p a) [
      | inl (x, n) ↦ elim (one_of j p b) [
        | inl (y, m) ↦ sym x ∙ y
        | inr (y, m) ↦ absurd (omega (arith, n, m))
      ]
      | inr (x, n) ↦ elim (one_of j p b) [
        | inl (y, m) ↦ absurd (omega (arith, n, m))
        | inr (y, m) ↦ sym x ∙ y
      ]
    ];
  };
  heap_ok = λ p. new_session-IsValid;
  clients_ok = (refl, refl, (refl, refl, tt));
  param_ok = on_own_channel;
}

-- Each session says that its client has subscribed to t/u.
abbrev pub subscribed_broker : Server
subscribed_broker = record example_server {
  heap = λ p. record new_session {
    subscriptions = record { topic_filter = name_tu; max_qos = 1; is_wild = false } ∷ [];
  };
}

pub subscribed_broker-WellFormed : WellFormed subscribed_broker
subscribed_broker-WellFormed =
    let h = example_server-WellFormed in
    record {
      topics_ok = h.topics_ok;
      sessions_ok = h.sessions_ok;
      heap_ok = λ p. record {
        counter = omega arith;
        for_ack = tt;
        for_rec = tt;
        subs = (omega arith, tt);
      };
      clients_ok = h.clients_ok;
      param_ok = h.param_ok;
    }

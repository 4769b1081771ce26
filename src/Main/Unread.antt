-- ===== src/Main/Unread.antt =====
-- main.cpp with a configuration file that cannot be read (config.cpp), and what handle_connect of
-- player/mqtt_server.cpp then does.
use shan_mqtt_broker.Base.{
  ℕ, ◌≡◌, false, none, is_some, List, [], ◌∷◌, ◌++◌, Bytes, bytes_eq, is_empty, refl, ap, ◌∙◌,
  append_assoc,
}
use shan_mqtt_broker.Packet.Connect.{Connect, check_integrity}
use shan_mqtt_broker.Config.{initial_config}
use shan_mqtt_broker.Config.Loading.{Files, handle_arg, load, load_from}
use shan_mqtt_broker.Main.{load_config}
use shan_mqtt_broker.Main.Serving.{config_file}
use shan_mqtt_broker.Server.State.{Env, Server, Effect, close, M, ◌>>=◌}
use shan_mqtt_broker.Server.Clients.{make_client}
use shan_mqtt_broker.Server.Registry.{generate_loop}
use shan_mqtt_broker.Server.Connecting.{handle_connect, accept}
use shan_mqtt_broker.Server.ConnectRules.{closes, greeted, with_output}
use shan_mqtt_broker.Server.Keeping.{Whatever, Safe, bind-Keeps}
use shan_mqtt_broker.Server.WellFormed.{WellFormed}
use shan_mqtt_broker.Server.Lawful.{unread_changed}
use shan_mqtt_broker.Server.Kept.Connecting.{resume-Safe}
use shan_mqtt_broker.Server.Kept.Registering.{check_integrity-Safe, accept-Safe}
use shan_mqtt_broker.Handler.Output.{Continues, rules-Continues, starts}

-- `load` ends before it sets the protocol name.
no_protocol_name :
    (files : Files) (args : List Bytes)
    → files.properties (config_file files args) ≡ none
    → (load_config files args).0.protocol_name ≡ []
unfolding load_config handle_arg load
no_protocol_name files args e =
    ap
      (λ o.
        (load_from files o (record (handle_arg files args initial_config).0 {
          config_path = config_file files args;
        })).0.protocol_name)
      e

abbrev checked_and_accepted : Env → ℕ → ℕ → Connect → M (Unit {0})
checked_and_accepted env rounds channel packet =
    check_integrity (generate_loop env rounds) packet
    >>= accept env channel (make_client packet channel)

connect_begins :
    (env : Env) (rounds channel : ℕ) (packet : Connect) (s : Server)
    → handle_connect env rounds channel packet s
      ≡ checked_and_accepted env rounds channel packet (with_output s (closes env channel packet s))
unfolding handle_connect
connect_begins env rounds channel packet s =
    greeted (is_some (s.param channel)) (bytes_eq packet.protocol_name env.cfg.protocol_name)
      (close channel) (close channel) _ s

named_differs : (name : Bytes) → is_empty name ≡ false → bytes_eq name [] ≡ false
named_differs [] e = absurd cc
named_differs (c ∷ name) e = refl

closes_once :
    (env : Env) (channel : ℕ) (packet : Connect) (s : Server)
    → env.cfg.protocol_name ≡ []
    → is_empty packet.protocol_name ≡ false
    → s.param channel ≡ none
    → closes env channel packet s ≡ close channel ∷ []
closes_once env channel packet s e named free =
    rw (free, e, named_differs packet.protocol_name named) refl

-- Where the parser throws on the configuration file that the arguments name: on a channel without a
-- client, in a well-formed state, the first thing that a CONNECT with a protocol name brings about is
-- that its channel is closed, whatever name it has.
pub unread_config_closes :
    (files : Files) (args : List Bytes) (env : Env) (rounds channel : ℕ) (packet : Connect)
    (s : Server)
    → files.properties (config_file files args) ≡ none
    → env.cfg ≡ (load_config files args).0
    → is_empty packet.protocol_name ≡ false
    → s.param channel ≡ none
    → WellFormed s
    → (more : List Effect) × ((handle_connect env rounds channel packet s).1.output
        ≡ s.output ++ close channel ∷ more)
unfolding make_client
unread_config_closes files args env rounds channel packet s unread cfg named free h =
    let nameless : env.cfg.protocol_name ≡ [] =
      ap (λ c. c.protocol_name) cfg ∙ no_protocol_name files args unread in
    let once = closes_once env channel packet s nameless named free in
    let s1 = with_output s (close channel ∷ []) in
    let law = rules-Continues (s.output ++ close channel ∷ []) in
    let rest : Safe (Continues (s.output ++ close channel ∷ []))
        (checked_and_accepted env rounds channel packet) =
      bind-Keeps {Q = Whatever} (check_integrity-Safe law.sending law.registering env rounds packet)
        (λ checked _.
          accept-Safe law.sending law.registering env (make_client packet channel) checked
            (λ _. resume-Safe law)) in
    let (_, k) = (rest.kept s1 (unread_changed s.rand_calls _ s h, starts _)).1 in
    (
      k.more,
      ap (λ r. r.1.output) (connect_begins env rounds channel packet s)
          ∙ ap (λ l. (checked_and_accepted env rounds channel packet (with_output s l)).1.output)
              once
          ∙ k.appended
          ∙ append_assoc s.output (close channel ∷ []) k.more,
    )

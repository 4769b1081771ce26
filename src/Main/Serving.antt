-- ===== src/Main/Serving.antt =====
-- The server that `main` starts: its port, its TLS files, and its channel handlers.
use shan_mqtt_broker.Constants.{id_no_connect}
use shan_mqtt_broker.Base.{
  if◌then◌else◌, refl, ◌++◌, All, ◌≤◌, ◌≡◌, Bool, true, false, Option, some, none, ◌∙◌, append-nil,
  append_assoc, List, [], ◌∷◌, Bytes, arith,
}
use shan_mqtt_broker.Config.{Config, initial_config, text}
use shan_mqtt_broker.Config.Loading.{Files, handle_arg, chosen_path}
use shan_mqtt_broker.Config.Loaded.{IsUsable, load-IsUsable}
use shan_mqtt_broker.Main.{
  setup_logger, open_sinks, log_info, Call, idle_monitor, mqtt_codec, packet_handler,
  add_channel_handler, start, wait_stop, new_ssl_server, new_tcp_server, main, run, load_config,
  use_certificate_chain_file, use_private_key_file, make_tcp_server,
}

abbrev essential : Call → List Call
essential (new_ssl_server workers) = new_ssl_server workers ∷ []
essential (new_tcp_server workers) = new_tcp_server workers ∷ []
essential (use_certificate_chain_file path) = use_certificate_chain_file path ∷ []
essential (use_private_key_file path) = use_private_key_file path ∷ []
essential (add_channel_handler h) = add_channel_handler h ∷ []
essential (start port) = start port ∷ []
essential wait_stop = wait_stop ∷ []
essential _ = []

-- The calls that make and run a server, among all calls.
abbrev pub server_calls : List Call → List Call
server_calls [] = []
server_calls (c ∷ cs) = essential c ++ server_calls cs

-- The server of a configuration: with TLS and its two files, or plain.
abbrev pub server_made : Config → List Call
server_made cfg =
    if cfg.use_tls
    then new_ssl_server cfg.worker_thread
      ∷ (use_certificate_chain_file cfg.certificate ∷ (use_private_key_file cfg.cert_key ∷ []))
    else new_tcp_server cfg.worker_thread ∷ []

-- One server, with its three handlers in order, which is then started once and waited for.
abbrev pub served : Config → List Call
served cfg =
    server_made cfg
    ++ (add_channel_handler (idle_monitor id_no_connect cfg.connect_timeout)
        ∷ (add_channel_handler mqtt_codec
            ∷ (add_channel_handler packet_handler ∷ (start cfg.port ∷ (wait_stop ∷ [])))))

server_calls-append :
    (xs ys : List Call) → server_calls (xs ++ ys) ≡ server_calls xs ++ server_calls ys
server_calls-append [] ys = refl
server_calls-append (x ∷ xs) ys = rw (server_calls-append xs ys, append_assoc) refl

-- The configuration file that `main` reads.
abbrev pub config_file : Files → List Bytes → Bytes
config_file files args = chosen_path (handle_arg files args initial_config).0.config_path

-- The demands on one call: a start is on a port, and TLS gets files that can be read.
abbrev pub IsSound : Files → Call → Type 0
IsSound files (start port) = (1 ≤ port) × (port ≤ 65535)
IsSound files (use_certificate_chain_file path) = files.file_readable path ≡ true
IsSound files (use_private_key_file path) = files.file_readable path ≡ true
IsSound files _ = Unit {0}

choice-All :
    (files : Files) (b : Bool) (xs ys : List Call)
    → (b ≡ true → All (IsSound files) xs)
    → All (IsSound files) ys
    → All (IsSound files) (if b then xs else ys)
choice-All files true xs ys hx hy = hx refl
choice-All files false xs ys hx hy = hy

append-All :
    (files : Files) (xs ys : List Call)
    → All (IsSound files) xs
    → All (IsSound files) ys
    → All (IsSound files) (xs ++ ys)
append-All files [] ys hx hy = hy
append-All files (x ∷ xs) ys hx hy = (hx.0, append-All files xs ys hx.1 hy)

run-IsSound : (files : Files) (cfg : Config) → IsUsable files cfg → All (IsSound files) (run cfg)
unfolding run
run-IsSound files cfg u =
    append-All files (make_tcp_server cfg) _
      (choice-All files cfg.use_tls _ _
        (λ t. (tt, (tt, (tt, (u.tls_certificate t, (u.tls_key t, tt)))))) (tt, tt))
      (tt, (tt, (tt, ((u.port_min, u.port_max), (tt, (tt, (tt, tt)))))))

server_calls-run : (cfg : Config) → server_calls (run cfg) ≡ served cfg
unfolding run
server_calls-run cfg = ground arith

open_sinks-IsSound :
    (files : Files) (failure : Option Bytes) (path : Bytes)
    → All (IsSound files) (open_sinks failure path).1
open_sinks-IsSound files none path = tt
open_sinks-IsSound files (some what) path = (tt, tt)

server_calls-open_sinks :
    (failure : Option Bytes) (path : Bytes) → server_calls (open_sinks failure path).1 ≡ []
server_calls-open_sinks none path = refl
server_calls-open_sinks (some what) path = refl

setup_logger-IsSound : (files : Files) (cfg : Config) → All (IsSound files) (setup_logger files cfg)
unfolding setup_logger
setup_logger-IsSound files cfg =
    append-All files (open_sinks (files.sink_failure cfg.log_path) cfg.log_path).1 _
      (open_sinks-IsSound files (files.sink_failure cfg.log_path) cfg.log_path)
      (tt, (tt, (tt, (tt, (tt, tt)))))

server_calls-setup_logger :
    (files : Files) (cfg : Config) → server_calls (setup_logger files cfg) ≡ []
unfolding setup_logger
server_calls-setup_logger files cfg =
    server_calls-append (open_sinks (files.sink_failure cfg.log_path) cfg.log_path).1 _
    ∙ rw (server_calls-open_sinks (files.sink_failure cfg.log_path) cfg.log_path) refl

-- Where the parser reads the configuration file that the arguments name, whatever it finds there:
-- `main` makes one server, with TLS if the loaded configuration says so, puts the idle monitor, the
-- codec and the packet handler on it in this order, starts it once, on the port of the configuration,
-- and waits for its stop. The port is from 1 to 65535, and a certificate and a key are given only if
-- both files can be opened.
pub main_serves :
    (files : Files) (args : List Bytes) (get : Bytes → Option Bytes)
    → files.properties (config_file files args) ≡ some get
    → (server_calls (main files args).1 ≡ served (load_config files args).0)
      × All (IsSound files) (main files args).1
unfolding main load_config
main_serves files args get e =
    let cfg = (load_config files args).0 in
    let stopped = log_info (text "Shan.MqttBroker stopped.") ∷ [] in
    (
      server_calls-append (setup_logger files cfg) (run cfg ++ stopped)
          ∙ rw (server_calls-setup_logger files cfg, server_calls-append (run cfg) stopped)
              (rw (server_calls-run cfg) (append-nil (served cfg))),
      append-All files (setup_logger files cfg) (run cfg ++ stopped)
          (setup_logger-IsSound files cfg)
          (append-All files (run cfg) stopped
            (run-IsSound files cfg
              (load-IsUsable files (handle_arg files args initial_config).0 get e))
            (tt, tt)),
    )

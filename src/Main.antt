-- ===== src/Main.antt =====
-- main.cpp: what `main` asks of the network library and of the log's library, call by call.
pub mod Serving
pub mod Unread
use shan_mqtt_broker.Base.{
  Option, some, none, ◌+◌, if◌then◌else◌, ℕ, true, false, List, [], ◌∷◌, ◌++◌, Bytes,
}
use shan_mqtt_broker.Constants.{id_no_connect}
use shan_mqtt_broker.Config.{Config, initial_config, LogLevel, info, text}
use shan_mqtt_broker.Config.Numbers.{ℤ}
use shan_mqtt_broker.Config.Loading.{Files, Complaint, handle_arg, load}

-- `net::ssl_options` (`DEF_OPT` and so on)
pub data SslOption : Type 0 where
  def_opt single_dh_use no_sslv2 no_sslv3 : SslOption

-- A handler of the channels, in the order in which they see what is read.
pub data ChannelHandler : Type 0 where
  -- `tcp_idle_monitor(timer, milliseconds, nullptr)`
  idle_monitor : ℕ → ℕ → ChannelHandler
  mqtt_codec packet_handler : ChannelHandler

-- Where the log goes: `stdout_sink_mt`, and `daily_file_sink` on a path.
pub data Sink : Type 0 where
  stdout_sink : Sink
  daily_file_sink : Bytes → Sink

pub data Call : Type 0 where
  -- a line on `std::cout`
  print : Bytes → Call
  -- `std::make_shared<spdlog::logger>(name, begin(sinks), end(sinks))`
  make_logger : Bytes → List Sink → Call
  flush_on : LogLevel → Call
  register_logger : Call
  set_pattern : Bytes → Call
  set_level : LogLevel → Call
  -- `LOGGER()->info`
  log_info : Bytes → Call
  -- `new net::ssl_server(shan::net::TLSV12_SERVER, workers)`
  new_ssl_server : ℤ → Call
  set_options : List SslOption → Call
  -- the password that `get_password` answers
  set_password_callback : Bytes → Call
  use_certificate_chain_file : Bytes → Call
  -- in the format PEM
  use_private_key_file : Bytes → Call
  -- `new net::tcp_server(workers)`
  new_tcp_server : ℤ → Call
  add_channel_handler : ChannelHandler → Call
  start : ℕ → Call
  -- `std::signal(SIGINT, sig_handler)`
  catch_interrupt : Call
  wait_stop request_stop : Call

-- `load_config`
unfoldable pub load_config : Files → List Bytes → Config × List Complaint
unfolding handle_arg load
load_config files args =
    let given = handle_arg files args initial_config in
    let loaded = load files given.0 in (loaded.0, given.1 ++ loaded.1)

-- `get_password`, whatever the length and the purpose
abbrev get_password : Config → Bytes
get_password cfg = cfg.cert_password

-- The first lines of `run`: with TLS, or without.
abbrev pub make_tcp_server : Config → List Call
make_tcp_server cfg =
    if cfg.use_tls
    then new_ssl_server cfg.worker_thread
      ∷ (set_options (def_opt ∷ (single_dh_use ∷ (no_sslv2 ∷ (no_sslv3 ∷ []))))
          ∷ (set_password_callback (get_password cfg)
              ∷ (use_certificate_chain_file cfg.certificate
                  ∷ (use_private_key_file cfg.cert_key ∷ []))))
    else new_tcp_server cfg.worker_thread ∷ []

-- `run`
unfoldable pub run : Config → List Call
run cfg =
    make_tcp_server cfg
    ++ (add_channel_handler (idle_monitor id_no_connect cfg.connect_timeout)
        ∷ (add_channel_handler mqtt_codec
            ∷ (add_channel_handler packet_handler
                ∷ (start cfg.port
                    ∷ (catch_interrupt
                        ∷ (log_info (text "Shan.MqttBroker is started.") ∷ (wait_stop ∷ [])))))))

-- `sig_handler`
abbrev pub sig_handler : List Call
sig_handler = request_stop ∷ []

-- `std::tm`, as far as it is read
pub record Tm : Type 0 where
  pub tm_year : ℕ
  pub tm_mon : ℕ
  pub tm_mday : ℕ

-- `custom_file_name_calculator::calc_filename`. `padded n x` is what the format `{:0nd}` makes of `x`.
abbrev pub calc_filename : (ℕ → ℕ → Bytes) → Tm → Bytes → Bytes
calc_filename padded tm basename =
    basename
    ++ (text "_"
        ++ (padded 4 (tm.tm_year + 1900)
            ++ (text "-"
                ++ (padded 2 (tm.tm_mon + 1)
                    ++ (text "-" ++ (padded 2 tm.tm_mday ++ text ".log"))))))

-- The first lines of `setup_logger`, with what the constructor of the file's sink says if it throws.
abbrev pub open_sinks : Option Bytes → Bytes → List Sink × List Call
open_sinks none path = (stdout_sink ∷ (daily_file_sink path ∷ []), [])
open_sinks (some what) path =
    (stdout_sink ∷ [], print (text "spdlog initialization failed: " ++ what) ∷ [])

unfoldable pub setup_logger : Files → Config → List Call
setup_logger files cfg =
    let (sinks, lines) = open_sinks (files.sink_failure cfg.log_path) cfg.log_path in
    lines
    ++ (make_logger (text "logger") sinks
        ∷ (flush_on info
            ∷ (register_logger
                ∷ (set_pattern (text "[%C/%m/%d %T.%e][%L] %v") ∷ (set_level cfg.log_level ∷ [])))))

-- `main`: the lines on `std::cerr`, and the calls
unfoldable pub main : Files → List Bytes → List Complaint × List Call
unfolding load_config setup_logger run
main files args =
    let cfg = load_config files args in
    (
      cfg.1,
      setup_logger files cfg.0 ++ (run cfg.0 ++ log_info (text "Shan.MqttBroker stopped.") ∷ []),
    )

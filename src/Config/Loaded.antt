-- ===== src/Config/Loaded.antt =====
-- What `config::load` leaves in the configuration.
use shan_mqtt_broker.Base.{
  ◌++◌, ap, sym, subst, ◌≤◌, ◌<◌, ◌≡◌, true, false, Option, none, some, ◌⊎◌, inl, List, [], ◌∷◌,
  Bytes, arith, refl,
}
use shan_mqtt_broker.Config.{Config, text}
use shan_mqtt_broker.Config.Numbers.{atoi, to_unsigned, to_unsigned_lt}
use shan_mqtt_broker.Config.Loading.{
  unknown_option, not_readable, is_true, Files, Complaint, setting, read_members, default_port,
  check_files, chosen_path, load, load_from, handle_arg, arg_loop,
}

-- What the server needs of a configuration: a port, and the files that TLS reads.
pub record IsUsable (files : Files) (cfg : Config) : Type 0 where
  pub port_min : 1 ≤ cfg.port
  pub port_max : cfg.port ≤ 65535
  pub tls_certificate : cfg.use_tls ≡ true → files.file_readable cfg.certificate ≡ true
  pub tls_key : cfg.use_tls ≡ true → files.file_readable cfg.cert_key ≡ true

port_setting_lt : (v : Option Bytes) → setting v (λ v. to_unsigned 16 (atoi v)) 0 < 65536
port_setting_lt none = omega arith
port_setting_lt (some v) = to_unsigned_lt (atoi v)

default_port_min : (cfg : Config) → 1 ≤ (default_port cfg).port
unfolding default_port
default_port_min cfg = ground arith

default_port_max : (cfg : Config) → cfg.port < 65536 → (default_port cfg).port ≤ 65535
unfolding default_port
default_port_max cfg l = ground arith

check_files-IsUsable :
    (files : Files) (cfg : Config)
    → 1 ≤ cfg.port
    → cfg.port ≤ 65535
    → IsUsable files (check_files files cfg).0
unfolding check_files
check_files-IsUsable files cfg l h = record {
  port_min = ground arith;
  port_max = ground arith;
  tls_certificate = ground arith;
  tls_key = ground arith;
}

-- The members that `load` reads where the parser does not throw.
abbrev members : (Bytes → Option Bytes) → Config → Config
members get cfg = read_members get (record cfg { config_path = chosen_path cfg.config_path })

load_reads :
    (files : Files) (cfg : Config) (get : Bytes → Option Bytes)
    → files.properties (chosen_path cfg.config_path) ≡ some get
    → load files cfg ≡ check_files files (default_port (members get cfg))
unfolding load
load_reads files cfg get e =
    ap (λ o. load_from files o (record cfg { config_path = chosen_path cfg.config_path })) e

pub load-IsUsable :
    (files : Files) (cfg : Config) (get : Bytes → Option Bytes)
    → files.properties (chosen_path cfg.config_path) ≡ some get
    → IsUsable files (load files cfg).0
unfolding read_members
load-IsUsable files cfg get e =
    subst (λ r. IsUsable files r.0) (sym (load_reads files cfg get e))
      (check_files-IsUsable files (default_port (members get cfg))
        (default_port_min (members get cfg))
        (default_port_max (members get cfg) (port_setting_lt (get (text "port")))))

without_certificate :
    (files : Files) (cfg : Config)
    → cfg.use_tls ≡ true
    → cfg.port ≡ 0
    → files.file_readable cfg.certificate ≡ false
    → ((check_files files (default_port cfg)).0.use_tls ≡ false)
      × ((check_files files (default_port cfg)).0.port ≡ 8883)
unfolding check_files default_port
without_certificate files cfg t p c = ground arith

pub load_without_certificate :
    (files : Files) (cfg : Config) (get : Bytes → Option Bytes)
    → files.properties (chosen_path cfg.config_path) ≡ some get
    → get (text "use_tls") ≡ some (text "true")
    → get (text "port") ≡ none
    → files.file_readable (setting (get (text "certificate")) (λ v. v) (text "mqttd.pem")) ≡ false
    → ((load files cfg).0.use_tls ≡ false) × ((load files cfg).0.port ≡ 8883)
unfolding read_members
load_without_certificate files cfg get e t p c =
    subst (λ r. (r.0.use_tls ≡ false) × (r.0.port ≡ 8883)) (sym (load_reads files cfg get e))
      (without_certificate files (members get cfg) (ap (λ v. setting v is_true false) t)
        (ap (λ v. setting v (λ v. to_unsigned 16 (atoi v)) 0) p) c)

-- The path of the configuration file: the last readable file behind a `-f`.
arg_loop_reads :
    (files : Files) (args : List Bytes) (path : Bytes) (lines : List Complaint)
    → ((arg_loop files args path lines).0 ≡ path)
      ⊎ (files.file_readable (arg_loop files args path lines).0 ≡ true)
unfolding arg_loop
arg_loop_reads files [] path lines = inl refl
arg_loop_reads files (a ∷ []) path lines = ground arith
arg_loop_reads files (a ∷ (b ∷ args)) path lines = ground (
  arith,
  arg_loop_reads files args b lines,
  arg_loop_reads files args path (lines ++ not_readable (some b) ∷ []),
  arg_loop_reads files (b ∷ args) path (lines ++ unknown_option a ∷ []),
)

pub handle_arg_reads :
    (files : Files) (args : List Bytes) (cfg : Config)
    → ((handle_arg files args cfg).0.config_path ≡ cfg.config_path)
      ⊎ (files.file_readable (handle_arg files args cfg).0.config_path ≡ true)
unfolding handle_arg
handle_arg_reads files args cfg = arg_loop_reads files args cfg.config_path []

-- ===== src/Config/Loading.antt =====
-- `config::handle_arg` and `config::load` (config.cpp). The file system and the parser of the
-- configuration file (`util::properties` of shan) are arguments: which files can be opened, and, for
-- the path of a file, the values that the parser finds in it, or nothing where `load` throws.
use shan_mqtt_broker.Base.{
  Bool, false, not, Option, none, some, List, [], ◌∷◌, ◌++◌, Bytes, bytes_eq, is_empty, ◌==◌,
  if◌then◌else◌,
}
use shan_mqtt_broker.Config.{Config, LogLevel, trace, debug, info, warn, error, critical, off, text}
use shan_mqtt_broker.Config.Numbers.{pos, atoi, strtoll, to_unsigned}

-- A line on `std::cerr`. The argument behind the last one, `argv[argc]`, is a null pointer.
pub data Complaint : Type 0 where
  unknown_option : Bytes → Complaint
  not_readable : Option Bytes → Complaint
  load_failed : Complaint
  certificate_not_readable : Bytes → Complaint
  cert_key_not_readable : Bytes → Complaint

-- The files outside: `file_readable`, and `_properties.load` on the stream of a path followed by
-- `_properties.get`, which throws for a key that is not there; and what the constructor of the log's
-- `daily_file_sink` on a path says where it throws.
pub record Files : Type 0 where
  pub file_readable : Bytes → Bool
  pub properties : Bytes → Option (Bytes → Option Bytes)
  pub sink_failure : Bytes → Option Bytes

-- The loop over `argv`, from `argv[inx]` on, with `_config_path` and the lines so far. A null pointer
-- is no readable file.
unfoldable pub arg_loop : Files → List Bytes → Bytes → List Complaint → Bytes × List Complaint
arg_loop files [] path lines = (path, lines)
arg_loop files (a ∷ []) path lines =
    if bytes_eq a (text "-f")
    then (path, lines ++ not_readable none ∷ [])
    else (path, lines ++ unknown_option a ∷ [])
arg_loop files (a ∷ (b ∷ args)) path lines =
    let readable = arg_loop files args b lines in
    let unreadable = arg_loop files args path (lines ++ not_readable (some b) ∷ []) in
    let unknown = arg_loop files (b ∷ args) path (lines ++ unknown_option a ∷ []) in
    if bytes_eq a (text "-f")
    then (if files.file_readable b then readable else unreadable)
    else unknown

-- `config::handle_arg` on `argv[1]` and the arguments after it
unfoldable pub handle_arg : Files → List Bytes → Config → Config × List Complaint
unfolding arg_loop
handle_arg files args cfg =
    let r = arg_loop files args cfg.config_path [] in (record cfg { config_path = r.0 }, r.1)

-- `try { value = _properties.get(key); member = f(value); } catch (...) { member = d; }`
abbrev pub setting {ℓ} : {A : Type ℓ} → Option Bytes → (Bytes → A) → A → A
setting none f d = d
setting (some value) f d = f value

abbrev verbatim : Bytes → Bytes
verbatim value = value

abbrev pub is_true : Bytes → Bool
is_true value = bytes_eq value (text "true")

-- The level that a value names; any other value leaves the member as it is.
abbrev level_of : LogLevel → Bytes → LogLevel
level_of old value =
    if bytes_eq value (text "trace")
    then trace
    else (if bytes_eq value (text "debug")
        then debug
        else (if bytes_eq value (text "info")
            then info
            else (if bytes_eq value (text "warn")
                then warn
                else (if bytes_eq value (text "error")
                    then error
                    else (if bytes_eq value (text "critical")
                        then critical
                        else (if bytes_eq value (text "off") then off else old))))))

-- The members in turn, from the values of the file.
unfoldable pub read_members : (Bytes → Option Bytes) → Config → Config
read_members get cfg = record {
  config_path = cfg.config_path;
  worker_thread = setting (get (text "worker_thread")) atoi (pos 4);
  port = setting (get (text "port")) (λ v. to_unsigned 16 (atoi v)) 0;
  protocol_name = setting (get (text "protocol_name")) verbatim (text "MQTT");
  connect_timeout = setting (get (text "connect_timeout")) (λ v. to_unsigned 64 (strtoll v)) 30000;
  use_tls = setting (get (text "use_tls")) is_true false;
  certificate = setting (get (text "certificate")) verbatim (text "mqttd.pem");
  cert_key = setting (get (text "cert_key")) verbatim (text "mqttd.pem");
  cert_password = setting (get (text "cert_password")) verbatim [];
  authentication = setting (get (text "authentication")) is_true false;
  username = setting (get (text "username")) verbatim [];
  password = setting (get (text "password")) verbatim [];
  adminname = setting (get (text "adminname")) verbatim (text "mqadmin");
  adminpass = setting (get (text "adminpass")) verbatim (text "mqadmin");
  log_level = setting (get (text "log_level")) (level_of cfg.log_level) info;
  log_path = setting (get (text "log_path")) verbatim (text "mqttd");
}

-- "default port number set"
unfoldable pub default_port : Config → Config
default_port cfg =
    if cfg.port == 0 then record cfg { port = if cfg.use_tls then 8883 else 1883 } else cfg

-- The last lines of `load`: without its files TLS is switched off.
unfoldable pub check_files : Files → Config → Config × List Complaint
check_files files cfg =
    if cfg.use_tls
    then (if not (files.file_readable cfg.certificate)
        then (record cfg { use_tls = false }, certificate_not_readable cfg.certificate ∷ [])
        else (if not (files.file_readable cfg.cert_key)
            then (record cfg { use_tls = false }, cert_key_not_readable cfg.cert_key ∷ [])
            else (cfg, [])))
    else (cfg, [])

abbrev pub chosen_path : Bytes → Bytes
chosen_path path = if is_empty path then text "mqttd.cfg" else path

-- From the file's values on; `none` is the exception, after which `load` returns.
abbrev pub load_from : Files → Option (Bytes → Option Bytes) → Config → Config × List Complaint
load_from files none cfg = (cfg, load_failed ∷ [])
load_from files (some get) cfg = check_files files (default_port (read_members get cfg))

-- `config::load`
unfoldable pub load : Files → Config → Config × List Complaint
unfolding read_members default_port check_files
load files cfg =
    let path = chosen_path cfg.config_path in
    load_from files (files.properties path) (record cfg { config_path = path })

-- ===== src/Config.antt =====
-- config.h: the members of `config`, and the global object `g_cfg` before `load`.
pub mod Numbers
pub mod Loading
pub mod Loaded
use Prim.Native.Char.{code}
use Prim.Native.String.{String}
use Prim.Native.String
use shan_mqtt_broker.Base.{ℕ, Bool, false, [], ◌∷◌, Bytes}
use shan_mqtt_broker.Config.Numbers.{ℤ, pos}

-- `spdlog::level::level_enum`, in its order
pub data LogLevel : Type 0 where
  trace debug info warn error critical off : LogLevel

-- `int` is an integer, `uint16_t` and `uint64_t` are natural numbers.
pub record Config : Type 0 where
  pub config_path : Bytes
  pub worker_thread : ℤ
  pub port : ℕ
  pub protocol_name : Bytes
  pub connect_timeout : ℕ
  pub use_tls : Bool
  pub certificate : Bytes
  pub cert_key : Bytes
  pub cert_password : Bytes
  pub authentication : Bool
  pub username : Bytes
  pub password : Bytes
  pub adminname : Bytes
  pub adminpass : Bytes
  pub log_level : LogLevel
  pub log_path : Bytes

-- A string literal.
abbrev pub text : String → Bytes
text String.[] = []
text (String.◌∷◌ c s) = code c ∷ text s

-- `config g_cfg;` is a global object without a constructor: its members start as zeros.
abbrev pub initial_config : Config
initial_config = record {
  config_path = [];
  worker_thread = pos 0;
  port = 0;
  protocol_name = [];
  connect_timeout = 0;
  use_tls = false;
  certificate = [];
  cert_key = [];
  cert_password = [];
  authentication = false;
  username = [];
  password = [];
  adminname = [];
  adminpass = [];
  log_level = trace;
  log_path = [];
}

-- ===== src/Tests/OnConfig.antt =====
-- The theorems on the start of the broker, on two sets of files.
use shan_mqtt_broker.Base.{
  ◌≡◌, true, false, Option, none, some, List, [], ◌∷◌, ◌++◌, Bytes, bytes_eq, All, refl,
  if◌then◌else◌,
}
use shan_mqtt_broker.Config.{text, initial_config}
use shan_mqtt_broker.Config.Loading.{Files, load}
use shan_mqtt_broker.Config.Loaded.{load_without_certificate}
use shan_mqtt_broker.Main.{main, load_config}
use shan_mqtt_broker.Main.Serving.{IsSound, server_calls, served, main_serves}
use shan_mqtt_broker.Main.Unread.{unread_config_closes}
use shan_mqtt_broker.Server.State.{Env, Effect, close}
use shan_mqtt_broker.Server.Connecting.{handle_connect}
use shan_mqtt_broker.Server.Starting.{new_server}
use shan_mqtt_broker.Server.WellFormed.{new_server-WellFormed}
use shan_mqtt_broker.Tests.World.{example_env, example_connect}

-- The configuration file says `use_tls = true` and nothing else.
abbrev tls_values : Bytes → Option Bytes
tls_values key = if bytes_eq key (text "use_tls") then some (text "true") else none

-- The certificate can be opened, or only the configuration file.
abbrev good_files : Files
good_files = record {
  file_readable = λ path. true;
  properties = λ path. some tls_values;
  sink_failure = λ path. none;
}

abbrev no_certificate : Files
no_certificate = record {
  file_readable = λ path. bytes_eq path (text "mqttd.cfg");
  properties = λ path. some tls_values;
  sink_failure = λ path. some path;
}

abbrev no_config : Files
no_config = record {
  file_readable = λ path. false;
  properties = λ path. none;
  sink_failure = λ path. none;
}

abbrev arguments : List Bytes
arguments = text "-f" ∷ (text "my.cfg" ∷ [])

main_serves_example :
    (server_calls (main good_files arguments).1 ≡ served (load_config good_files arguments).0)
    × All (IsSound good_files) (main good_files arguments).1
main_serves_example = main_serves good_files arguments tls_values refl

abbrev unread_env : Env
unread_env = record example_env { cfg = (load_config no_config arguments).0 }

unread_config_closes_example :
    (more : List Effect) × ((handle_connect unread_env 1 9 (example_connect 4) new_server).1.output
      ≡ [] ++ close 9 ∷ more)
unread_config_closes_example =
    unread_config_closes no_config arguments unread_env 1 9 (example_connect 4) new_server refl refl
      refl refl new_server-WellFormed

load_without_certificate_example :
    ((load no_certificate initial_config).0.use_tls ≡ false)
    × ((load no_certificate initial_config).0.port ≡ 8883)
load_without_certificate_example =
    load_without_certificate no_certificate initial_config tls_values refl refl refl refl

-- ===== src/Server/ConnectGrants.antt =====
-- What a CONNECT for a clean session (`handle_connect`, player/mqtt_server.cpp) leaves of the older
-- subscriptions.
use shan_mqtt_broker.Base.{ℕ, ◌≡◌, true, refl, arith}
use shan_mqtt_broker.Packet.Connect.{Connect}
use shan_mqtt_broker.Server.State.{Env, Server}
use shan_mqtt_broker.Server.Connecting.{handle_connect}
use shan_mqtt_broker.Server.WellFormed.{WellFormed}
use shan_mqtt_broker.Server.Table.{granted}
use shan_mqtt_broker.Server.Refinement.{Represents, sending-Represents, registering-Represents}
use shan_mqtt_broker.Server.Kept.Registering.{connect-Safe}

-- From a well-formed state, a CONNECT for a clean session, accepted or refused, leaves the table of
-- subscriptions as it is and the state well formed: where it replaces an older client of the same
-- identifier, the subscriptions of that client stay.
pub clean_connect_keeps_grants :
    (env : Env) (rounds channel : ℕ) (packet : Connect) (s : Server)
    → packet.clean_session ≡ true
    → WellFormed s
    → Represents (granted s) (handle_connect env rounds channel packet s).1
clean_connect_keeps_grants env rounds channel packet s clean h =
    ((connect-Safe (sending-Represents (granted s)) (registering-Represents (granted s)) packet
        (λ e. absurd (ground (arith, clean, e))) env rounds channel).kept
      s (h, λ w f id. refl)).1

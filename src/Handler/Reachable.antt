-- ===== src/Handler/Reachable.antt =====
-- The states of the broker that is started by main.cpp and runs packet_handler.cpp.
use shan_mqtt_broker.Server.State.{Env, Server}
use shan_mqtt_broker.Server.WellFormed.{WellFormed, new_server-WellFormed}
use shan_mqtt_broker.Server.Lawful.{rules-WellFormed}
use shan_mqtt_broker.Handler.Events.{Reachable, reachable_induction}

-- Every reachable state is well formed: in each topic no client stands twice and no granted QoS is
-- above 2, retained messages have a payload, sessions keep messages of QoS 1 for PUBACK and of QoS 2
-- for PUBREC, no two client identifiers share a session, every client is registered under its own
-- identifier, and the client of a channel's context answers on that channel.
pub Reachable-WellFormed : (env : Env) (s : Server) → Reachable env s → WellFormed s
Reachable-WellFormed env s d = reachable_induction rules-WellFormed env s d new_server-WellFormed

-- ===== src/Handler/Messages.antt =====
-- The packets that packet_handler.cpp passes on and that leave the subscriptions alone.
use shan_mqtt_broker.Base.{ℕ, ◌≡◌, Bool, true, false, some, refl}
use shan_mqtt_broker.Packet.Any.{
  Packet, connect, connack, publish, puback, pubrec, pubrel, pubcomp, subscribe, suback,
  unsubscribe, unsuback, pingreq, pingresp, disconnect,
}
use shan_mqtt_broker.Server.State.{Env, Server}
use shan_mqtt_broker.Server.Keeping.{Safe, raise-Keeps}
use shan_mqtt_broker.Server.Rules.{Sending}
use shan_mqtt_broker.Server.WellFormed.{WellFormed}
use shan_mqtt_broker.Server.Table.{granted}
use shan_mqtt_broker.Server.Refinement.{Represents, sending-Represents}
use shan_mqtt_broker.Server.Kept.Sending.{
  handle_publish-Safe, handle_puback-Safe, handle_pubrec-Safe, handle_pubrel-Safe,
  handle_pubcomp-Safe,
}
use shan_mqtt_broker.Server.Kept.Leaving.{handle_pingreq-Safe}
use shan_mqtt_broker.Handler.{handle_packet, channel_read}

-- The packets whose handlers change subscriptions.
abbrev pub subscribes : Packet → Bool
subscribes (connect p) = true
subscribes (connack p) = false
subscribes (publish p) = false
subscribes (puback p) = false
subscribes (pubrec p) = false
subscribes (pubrel p) = false
subscribes (pubcomp p) = false
subscribes (subscribe p) = true
subscribes (suback p) = false
subscribes (unsubscribe p) = true
subscribes (unsuback p) = false
subscribes (pingreq p) = false
subscribes (pingresp p) = false
subscribes (disconnect p) = true

message-Safe :
    {P : Server → Type 0} (r : Sending P) (env : Env) (rounds channel : ℕ) (p : Packet)
    → subscribes p ≡ false
    → Safe P (handle_packet env rounds channel p)
unfolding handle_packet
message-Safe r env rounds channel (connect p) e = absurd cc
message-Safe r env rounds channel (connack p) e = raise-Keeps _
message-Safe r env rounds channel (publish p) e = handle_publish-Safe r channel p
message-Safe r env rounds channel (puback p) e = handle_puback-Safe r channel p
message-Safe r env rounds channel (pubrec p) e = handle_pubrec-Safe r channel p
message-Safe r env rounds channel (pubrel p) e = handle_pubrel-Safe r channel p
message-Safe r env rounds channel (pubcomp p) e = handle_pubcomp-Safe r channel p
message-Safe r env rounds channel (subscribe p) e = absurd cc
message-Safe r env rounds channel (suback p) e = raise-Keeps _
message-Safe r env rounds channel (unsubscribe p) e = absurd cc
message-Safe r env rounds channel (unsuback p) e = raise-Keeps _
message-Safe r env rounds channel (pingreq p) e = handle_pingreq-Safe r channel
message-Safe r env rounds channel (pingresp p) e = raise-Keeps _
message-Safe r env rounds channel (disconnect p) e = absurd cc

-- From a well-formed state, a packet other than CONNECT, SUBSCRIBE, UNSUBSCRIBE and DISCONNECT leaves
-- the table of subscriptions as it is and the state well formed, also where its handler throws.
pub messages_keep_subscriptions :
    (env : Env) (rounds channel : ℕ) (p : Packet) (s : Server)
    → subscribes p ≡ false
    → WellFormed s
    → Represents (granted s) (channel_read env rounds channel (some p) s).1
unfolding channel_read
messages_keep_subscriptions env rounds channel p s e h =
    ((message-Safe (sending-Represents (granted s)) env rounds channel p e).kept s
      (h, λ w f id. refl)).1

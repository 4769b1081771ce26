-- ===== src/Tests/OnStates.antt =====
-- The theorems on the states of the broker and on the table of subscriptions.
use shan_mqtt_broker.Base.{ℕ, ◌≡◌, true, false, none, some, [], ◌∷◌, ◌++◌, refl, arith}
use shan_mqtt_broker.Outcome.{ok}
use shan_mqtt_broker.Packet.Subscribe.{Subscribe, Unsubscribe}
use shan_mqtt_broker.Packet.Any
use shan_mqtt_broker.Session.{Session, new_session, is_used}
use shan_mqtt_broker.Server.State.{Server, write, close}
use shan_mqtt_broker.Server.Subscribing.{handle_subscribe, handle_unsubscribe}
use shan_mqtt_broker.Server.Leaving.{handle_disconnect}
use shan_mqtt_broker.Server.ConnectRules.{closes, connack_of, with_output}
use shan_mqtt_broker.Server.Starting.{new_server}
use shan_mqtt_broker.Server.WellFormed.{WellFormed}
use shan_mqtt_broker.Packet.Publish.{Publish, make_publish}
use shan_mqtt_broker.Packet.PublishTrip.{publish_of}
use shan_mqtt_broker.Server.Maps.{at}
use shan_mqtt_broker.Server.Publishing.{
  handle_publish, agent, acknowledge, forward, publish_wild_topics, publish_trash,
}
use shan_mqtt_broker.Server.Connecting.{handle_connect}
use shan_mqtt_broker.Server.ConnectGrants.{clean_connect_keeps_grants}
use shan_mqtt_broker.Server.Unretained.{subscribe_of, unknown_topic_not_retained}
use shan_mqtt_broker.Packet.AckTrip.{suback_of}
use shan_mqtt_broker.Topic.Filter.{match}
use shan_mqtt_broker.Server.Topics.{topic_publish}
use shan_mqtt_broker.Server.Registry.{publish_exact_topic}
use shan_mqtt_broker.Server.Table.{granted}
use shan_mqtt_broker.Server.Refinement.{Represents, subscribed}
use shan_mqtt_broker.Server.SubscribeRefines.{subscribe_refines}
use shan_mqtt_broker.Server.UnsubscribeRefines.{unsubscribed, unsubscribe_refines}
use shan_mqtt_broker.Server.LeavingRefines.{revoked, disconnect_revokes}
use shan_mqtt_broker.Handler.{channel_read}
use shan_mqtt_broker.Handler.Events.{Event, read, written, started, next, on_event}
use shan_mqtt_broker.Handler.Reachable.{Reachable-WellFormed}
use shan_mqtt_broker.Handler.Messages.{messages_keep_subscriptions}
use shan_mqtt_broker.Handler.Refused.{refused_then_closed}
use shan_mqtt_broker.Handler.Answering.{run_events, answers, answered_in_the_end}
use shan_mqtt_broker.Tests.World.{
  example_env, example_server, example_connect, example_message, alice, bob, filter_plus, name_a,
  name_tu,
}
use shan_mqtt_broker.Tests.Lawful.{
  example_server-WellFormed, subscribed_broker, subscribed_broker-WellFormed,
}

-- A CONNECT on channel 9.
abbrev connecting : Event
connecting = read 1 9 (some (Any.connect (example_connect 4)))

Reachable-WellFormed_example : WellFormed (on_event example_env connecting new_server).1
Reachable-WellFormed_example =
    Reachable-WellFormed example_env (on_event example_env connecting new_server).1
      (next started example_env.channel_open connecting)

-- Two filters, the second with a QoS that is none.
abbrev two_filters : Subscribe
two_filters = record {
  fh = record { packet_type = 8; flags = 2; remaining_length = 14 };
  packet_id = 6;
  topic_filters = filter_plus ∷ (name_tu ∷ []);
  is_wild = true ∷ (false ∷ []);
  max_qoses = 2 ∷ (3 ∷ []);
}

subscribe_refines_example :
    Represents
      (subscribed name_a
        (filter_plus ∷ (name_tu ∷ []))
        (2 ∷ (3 ∷ []))
        (true ∷ (false ∷ []))
        (granted example_server))
      (handle_subscribe 7 two_filters example_server).1
subscribe_refines_example =
    subscribe_refines alice 7 two_filters example_server refl example_server-WellFormed

abbrev one_filter : Unsubscribe
one_filter = record {
  fh = record { packet_type = 10; flags = 2; remaining_length = 7 };
  packet_id = 6;
  topic_filters = name_tu ∷ [];
  is_wild = false ∷ [];
}

unsubscribe_refines_example :
    Represents
      (unsubscribed name_a (name_tu ∷ []) (false ∷ []) (granted example_server))
      (handle_unsubscribe 7 one_filter example_server).1
unsubscribe_refines_example =
    unsubscribe_refines alice 7 one_filter example_server refl example_server-WellFormed

disconnect_revokes_example :
    Represents
      (revoked name_a
        (record { topic_filter = name_tu; max_qos = 1; is_wild = false } ∷ [])
        (granted subscribed_broker))
      (handle_disconnect 7 subscribed_broker).1
disconnect_revokes_example =
    disconnect_revokes alice 7 subscribed_broker refl subscribed_broker-WellFormed

messages_keep_subscriptions_example :
    Represents
      (granted example_server)
      (channel_read example_env 0 7 (some (Any.publish example_message)) example_server).1
messages_keep_subscriptions_example =
    messages_keep_subscriptions example_env 0 7 (Any.publish example_message) example_server refl
      example_server-WellFormed

refused_then_closed_example :
    on_event example_env
      (written 9)
      (on_event example_env (read 1 9 (some (Any.connect (example_connect 3)))) example_server).1
    ≡ (
      ok tt,
      with_output example_server (
          (closes example_env 9 (example_connect 3) example_server
            ++ write 9 (Any.connack (connack_of false 1)) ∷ [])
          ++ close 9 ∷ []),
    )
refused_then_closed_example =
    refused_then_closed example_env 1 9 (example_connect 3) example_server refl refl (omega arith)

-- A session that waits for a PUBACK, a PUBREC and a PUBCOMP.
abbrev waiting : Session
waiting = record new_session {
  publish_for_ack = example_message ∷ [];
  publish_for_rec = example_message ∷ [];
  packet_id_for_pubcomp = 6 ∷ [];
}

abbrev waiting_broker : Server
waiting_broker = record example_server { heap = λ p. waiting }

answered_in_the_end_example :
    ((run_events example_env (answers 7 waiting) waiting_broker).heap 1
      ≡ record waiting { publish_for_ack = []; publish_for_rec = []; packet_id_for_pubcomp = [] })
    × ((id : ℕ)
        → is_used ((run_events example_env (answers 7 waiting) waiting_broker).heap 1) id ≡ false)
answered_in_the_end_example = answered_in_the_end example_env 7 alice waiting_broker refl

-- A message on t, which is no topic, to be retained.
abbrev retained_message : Publish
retained_message = publish_of false 0 true (b't' ∷ []) 0 (b'x' ∷ [])

abbrev after_publish : Server
after_publish = (handle_publish 7 retained_message example_server).1

unknown_topic_not_retained_example :
    (at (b't' ∷ []) after_publish.topics ≡ none)
    × ((handle_subscribe 8 (subscribe_of 5 (b't' ∷ []) 1) after_publish).1.output
        ≡ after_publish.output ++ write 8 (Any.suback (suback_of 5 (1 ∷ []))) ∷ [])
unfolding at handle_publish agent acknowledge forward publish_exact_topic publish_wild_topics
    publish_trash topic_publish match make_publish
unknown_topic_not_retained_example =
    unknown_topic_not_retained 7 retained_message example_server bob 8 5 1 refl refl (omega arith)
      refl

clean_connect_keeps_grants_example :
    Represents
      (granted example_server)
      (handle_connect example_env 1 9 (example_connect 4) example_server).1
clean_connect_keeps_grants_example =
    clean_connect_keeps_grants example_env 1 9 (example_connect 4) example_server refl
      example_server-WellFormed

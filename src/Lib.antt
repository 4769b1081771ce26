-- ===== src/Lib.antt =====
-- Shan.MqttBroker, an MQTT 3.1.1 broker in C++ on the network library shan.
--
-- A channel's bytes go through mqtt_codec, which makes packets of them, and packet_handler, which calls
-- mqtt_server for each packet and each event of the channel. The server keeps the clients, the topics
-- and the sessions, and answers by writing packets, which mqtt_codec makes bytes of. All paths below
-- are under Shan.MqttBroker/Shan.MqttBroker.
--
--   Constants, Outcome         constants.h, exception.h. An exception is a value (`Error`), and what
--                              throws returns a `Result`. `stuck` is a loop that has run out of fuel.
--   Wire                       the stream buffer of shan, which is not in the repository: the record
--                              `StreamBuf` of its operations and their laws, and decoders as programs
--                              over its calls. `run` runs one on a buffer, `run_bytes` on a list of
--                              bytes.
--   Packet                     packet/*.cpp. `decode_publish` is the constructor from a buffer,
--                              `make_publish` the one from values, `serialize_publish` is `serialize`,
--                              and so on for each class; FixedHeader and Text are fixed_header.cpp.
--                              HeaderTrip, Travels, AckTrip, SubscribeTrip, ConnectBytes, ConnectTrip,
--                              ConnectWill, PublishBytes, PublishFlags, PublishTrip, Length, Utf8 and
--                              Resent relate what is written and what is read; Ending and Switch are
--                              about the fuel of the decoders' loops, Typed about what they return.
--   Codec                      handler/mqtt_codec.cpp, over any `StreamBuf`.
--   Topic                      `topic::match` of object/topic.cpp and `is_topic_filter_valid` of
--                              packet/mqtt_subscribe.cpp, and the rules on topic levels.
--   Session                    object/session.cpp and object/subscription.h.
--   Server/State               the members of mqtt_server (player/mqtt_server.h), the heap of the
--                              sessions, the context parameter of each channel, and the calls on the
--                              network so far; the handlers are functions in the monad `M` on it.
--   Server/Clients             player/mqtt_client.cpp.
--   Server/Topics              the rest of object/topic.cpp.
--   Server/Registry            the parts of player/mqtt_server.cpp below the handlers.
--   Server/Connecting          `handle_connect`.
--   Server/Publishing          `handle_publish` and the handlers of PUBACK, PUBREC, PUBREL and PUBCOMP.
--   Server/Subscribing         `handle_subscribe` and `handle_unsubscribe`.
--   Server/Leaving             `handle_pingreq`, `handle_disconnect`, `handle_channel_disconnected`.
--   Server/ConnectRules, ConnectAccepted, ConnectRestored, Retry, Delivery, Fanout, Forwarding,
--   Everyone, Grants, Granting, Effective, Departure, Unretained, ConnectGrants
--                              what the handlers do, by subject.
--   Server/Keeping, Rules, Kept
--                              what every handler keeps: `Rules P` are the laws of the elementary changes
--                              of the state, and Kept shows once that a handler is made of such changes.
--   Server/WellFormed, Entries, TopicLaws, Lawful
--                              the invariant of the state, which obeys the laws.
--   Server/Table, Refinement, SubscribeRefines, UnsubscribeRefines, LeavingRefines
--                              the subscriptions as a table (`granted`), which the handlers update.
--   Handler                    handler/packet_handler.cpp. Events has the events of the channels and the
--                              states that they reach (`Reachable`).
--   Config                     config.cpp: `handle_arg` and `load`.
--   Main                       main.cpp: the calls on the libraries of the network and the log that `main` makes.
--   Tests                      a stream buffer, a broker with two clients, and runs on them.
--
-- Names in the source keep their words: `mqtt_client::handle_pubrec` is `client_handle_pubrec`, and
-- `mqtt_codec::channel_read` is `codec_channel_read`.
--
-- Numbers are natural numbers; an unsigned integer of the source wraps where it can (`% 2 ^ 32` in the
-- remaining length, `% 65536` in the packet id counter). Strings and vectors of bytes are lists of
-- bytes. A map with string keys is an association list in the order in which it is iterated; a
-- `std::map` or `std::set` is kept in its order. A pointer to a topic is the key of its entry, a pointer
-- to a session is a place on the heap, since clients and `_sessions` share sessions.
--
-- Fuel: `new_packet_id` gets 65535 rounds, one for each id; `decode_remaining_length` and
-- `encode_remaining_length` get four, since the shift or the test on the length ends them; the loops of
-- `decode_string`, SUBSCRIBE and UNSUBSCRIBE get as many rounds as there are bytes announced, and each
-- round takes one at least; `generate_unique_id` gets its rounds as an argument, since it ends only by
-- the luck of `std::rand`.
--
-- Not modelled: the lines of the log outside main.cpp and the `str` functions, which are output; the
-- interleaving of handlers on several threads, since the state of the server is guarded by
-- its mutexes and each handler is one step here. The configuration, `std::rand` and
-- `channel_context_of` are arguments of the handlers (`Env`); the files that can be opened, what the
-- parser of the configuration file finds in it and how the file of the log fails are arguments of
-- `main` (`Files`).
pub mod Base
pub mod Constants
pub mod Outcome
pub mod Topic
pub mod Config
pub mod Wire
pub mod Packet
pub mod Codec
pub mod Session
pub mod Server
pub mod Handler
pub mod Main
pub mod Tests

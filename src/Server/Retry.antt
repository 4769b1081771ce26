-- ===== src/Server/Retry.antt =====
-- What `handle_connect` (player/mqtt_server.cpp) sends again for a restored session.
use shan_mqtt_broker.Packet.FixedHeader.{check_flags, make_fixed_header}
use shan_mqtt_broker.Base.{
  ◌≢◌, ℕ, ◌≡◌, ◌∙◌, ap, sym, true, map, List, [], ◌∷◌, ◌++◌, append_assoc, append-nil,
}
use shan_mqtt_broker.Outcome.{ok}
use shan_mqtt_broker.Packet.Acks.{make_pubrel}
use shan_mqtt_broker.Packet.Publish.{Publish, set_dup}
use shan_mqtt_broker.Packet.AckTrip.{header_of}
use shan_mqtt_broker.Packet.Any
use shan_mqtt_broker.Session.{Session}
use shan_mqtt_broker.Server.State.{
  update_other, Client, Server, Effect, write, for_each, update, update_same,
}
use shan_mqtt_broker.Server.Connecting.{send_again, send_pubrel, retry_unacked}

abbrev pub resent : ℕ → Publish → Effect
resent channel p = write channel (Any.publish (set_dup true p))

abbrev pub released : ℕ → ℕ → Effect
released channel id = write channel (Any.pubrel (record { fh = header_of 6 2 2; packet_id = id }))

send_again_lem :
    (channel : ℕ) (ps : List Publish) (s : Server)
    → send_again channel ps s ≡ (ok tt, record s { output = s.output ++ map (resent channel) ps })
send_again_lem channel [] s =
    ap {A = List Effect} (λ o. (ok tt, record s { output = o })) (sym (append-nil s.output))
send_again_lem channel (p ∷ ps) s =
    send_again_lem channel ps (record s { output = s.output ++ resent channel p ∷ [] })
    ∙ ap {A = List Effect} (λ o. (ok tt, record s { output = o }))
        (append_assoc s.output (resent channel p ∷ []) (map (resent channel) ps))

send_pubrels :
    (channel : ℕ) (ids : List ℕ) (s : Server)
    → for_each ids (λ id. send_pubrel channel id) s
      ≡ (ok tt, record s { output = s.output ++ map (released channel) ids })
unfolding make_pubrel make_fixed_header check_flags
send_pubrels channel [] s =
    ap {A = List Effect} (λ o. (ok tt, record s { output = o })) (sym (append-nil s.output))
send_pubrels channel (id ∷ ids) s =
    send_pubrels channel ids (record s { output = s.output ++ released channel id ∷ [] })
    ∙ ap {A = List Effect} (λ o. (ok tt, record s { output = o }))
        (append_assoc s.output (released channel id ∷ []) (map (released channel) ids))

-- Every message that the session keeps for a PUBACK, then every one that it keeps for a PUBREC, and a
-- PUBREL for every id that waits for a PUBCOMP: each is sent again once, in the order in which it came,
-- and the session keeps all of them, the messages marked as duplicates.
pub retry_resends :
    (c : Client) (s : Server)
    → (heap : ℕ → Session) × (retry_unacked c s ≡ (
      ok tt,
      record s {
        heap = heap;
        output =
            s.output
            ++ (map (resent c.channel_id) (s.heap c.session).publish_for_ack
                ++ (map (resent c.channel_id) (s.heap c.session).publish_for_rec
                    ++ map (released c.channel_id) (s.heap c.session).packet_id_for_pubcomp));
      },
    ))
      × (heap c.session ≡ record (s.heap c.session) {
        publish_for_ack = map (set_dup true) (s.heap c.session).publish_for_ack;
        publish_for_rec = map (set_dup true) (s.heap c.session).publish_for_rec;
      })
      × ((j : ℕ) → j ≢ c.session → heap j ≡ s.heap j)
unfolding retry_unacked
retry_resends c s =
    let kept = s.heap c.session in
    let a = map (resent c.channel_id) kept.publish_for_ack in
    let b = map (resent c.channel_id) kept.publish_for_rec in
    let r = map (released c.channel_id) kept.packet_id_for_pubcomp in
    let acks : Session = record kept {
      publish_for_ack = map (set_dup true) kept.publish_for_ack;
    } in
    let h1 = update c.session acks s.heap in
    let recs : Session → Session =
      λ t. record t { publish_for_rec = map (set_dup true) t.publish_for_rec } in
    let h2 = update c.session (recs (h1 c.session)) h1 in
    (
      h2,
      rw
          (
            send_again_lem c.channel_id kept.publish_for_ack s,
            send_again_lem c.channel_id kept.publish_for_rec
                (record s { heap = h1; output = s.output ++ a }),
            send_pubrels c.channel_id kept.packet_id_for_pubcomp
                (record s { heap = h2; output = (s.output ++ a) ++ b }),
          )
          (ap {A = List Effect} (λ o. (ok tt, record s { heap = h2; output = o }))
            (append_assoc (s.output ++ a) b r ∙ append_assoc s.output a (b ++ r))),
      update_same c.session (recs (h1 c.session)) h1 ∙ ap recs (update_same c.session acks s.heap),
      λ j n.
          update_other c.session (recs (h1 c.session)) h1 j n
          ∙ update_other c.session acks s.heap j n,
    )

-- ===== src/Handler/Answering.antt =====
-- A client that answers all that its session waits for: events of packet_handler.cpp on its channel,
-- and the exchanges of object/session.cpp.
use shan_mqtt_broker.Base.{
  ℕ, ◌≡◌, false, some, List, [], ◌∷◌, ◌++◌, refl, sym, ap, subst, ◌∙◌, append_assoc, append-nil,
  map, arith,
}
use shan_mqtt_broker.Outcome.{ok}
use shan_mqtt_broker.Packet.Publish.{Publish}
use shan_mqtt_broker.Packet.Acks.{Ack, make_pubrel}
use shan_mqtt_broker.Packet.AckTrip.{header_of}
use shan_mqtt_broker.Packet.Any
use shan_mqtt_broker.Session.{
  Session, is_used, erase_publish, erase_id, release_publish_for_ack, release_publish_for_rec,
  add_packet_id_for_pubcomp, release_packet_id_for_pubcomp,
}
use shan_mqtt_broker.Server.State.{Client, Env, Server, update, update_same}
use shan_mqtt_broker.Server.Publishing.{agent, handle_puback, handle_pubrec, handle_pubcomp}
use shan_mqtt_broker.Server.Clients.{
  client_handle_puback, client_handle_pubrec, client_handle_pubcomp,
}
use shan_mqtt_broker.Handler.{handle_packet, channel_read}
use shan_mqtt_broker.Handler.Events.{Event, read, on_event}

abbrev pub run_events : Env → List Event → Server → Server
run_events env [] s = s
run_events env (e ∷ es) s = run_events env es (on_event env e s).1

abbrev ack_event : ℕ → (Ack → Any.Packet) → ℕ → ℕ → Event
ack_event channel kind packet_type id =
    read 0 channel (some (kind (record { fh = header_of packet_type 0 2; packet_id = id })))

abbrev pub puback_event : ℕ → ℕ → Event
puback_event channel = ack_event channel Any.puback 4

abbrev pub pubrec_event : ℕ → ℕ → Event
pubrec_event channel = ack_event channel Any.pubrec 5

abbrev pub pubcomp_event : ℕ → ℕ → Event
pubcomp_event channel = ack_event channel Any.pubcomp 7

abbrev ids : List Publish → List ℕ
ids ps = map (λ p. p.packet_id) ps

-- A PUBACK for each message that waits for one, a PUBREC for each that waits for one, and a PUBCOMP for
-- each id that waits for one then.
abbrev pub answers : ℕ → Session → List Event
answers channel t =
    map (puback_event channel) (ids t.publish_for_ack)
    ++ (map (pubrec_event channel) (ids t.publish_for_rec)
        ++ map (pubcomp_event channel) (t.packet_id_for_pubcomp ++ ids t.publish_for_rec))

-- The channel has the client, and its session is `t`.
abbrev Now : ℕ → Client → Session → Server → Type 0
Now channel c t s = (s.param channel ≡ some c) × (s.heap c.session ≡ t)

puback_step :
    (env : Env) (channel id : ℕ) (c : Client) (t t' : Session) (s : Server)
    → release_publish_for_ack id t ≡ t'
    → Now channel c t s
    → Now channel c t' (on_event env (puback_event channel id) s).1
unfolding channel_read handle_packet handle_puback agent client_handle_puback
puback_step env channel id c t t' s m (e, h) =
    let known : agent channel s ≡ (ok c, s) = rw (e, agent) refl in
    rw known (e, update_same c.session _ s.heap ∙ ap (release_publish_for_ack id) h ∙ m)

pubrec_step :
    (env : Env) (channel id : ℕ) (c : Client) (t t' : Session) (s : Server)
    → add_packet_id_for_pubcomp id (release_publish_for_rec id t) ≡ t'
    → Now channel c t s
    → Now channel c t' (on_event env (pubrec_event channel id) s).1
unfolding channel_read handle_packet handle_pubrec agent client_handle_pubrec make_pubrel
pubrec_step env channel id c t t' s m (e, h) =
    let known : agent channel s ≡ (ok c, s) = rw (e, agent) refl in
    rw known (
      e,
      update_same c.session _
            (update c.session (release_publish_for_rec id (s.heap c.session)) s.heap)
          ∙ ap (add_packet_id_for_pubcomp id)
              (update_same c.session _ s.heap ∙ ap (release_publish_for_rec id) h)
          ∙ m,
    )

pubcomp_step :
    (env : Env) (channel id : ℕ) (c : Client) (t t' : Session) (s : Server)
    → release_packet_id_for_pubcomp id t ≡ t'
    → Now channel c t s
    → Now channel c t' (on_event env (pubcomp_event channel id) s).1
unfolding channel_read handle_packet handle_pubcomp agent client_handle_pubcomp
pubcomp_step env channel id c t t' s m (e, h) =
    let known : agent channel s ≡ (ok c, s) = rw (e, agent) refl in
    rw known (e, update_same c.session _ s.heap ∙ ap (release_packet_id_for_pubcomp id) h ∙ m)

first_acked :
    (t : Session) (p : Publish) (l : List Publish)
    → release_publish_for_ack p.packet_id (record t { publish_for_ack = p ∷ l })
      ≡ record t { publish_for_ack = l }
unfolding release_publish_for_ack erase_publish
first_acked t p l = ap (λ l. record t { publish_for_ack = l }) (ground arith)

first_received :
    (t : Session) (p : Publish) (l : List Publish) (k : List ℕ)
    → add_packet_id_for_pubcomp p.packet_id (
        release_publish_for_rec p.packet_id
          (record t { publish_for_rec = p ∷ l; packet_id_for_pubcomp = k }))
      ≡ record t { publish_for_rec = l; packet_id_for_pubcomp = k ++ p.packet_id ∷ [] }
unfolding add_packet_id_for_pubcomp release_publish_for_rec erase_publish
first_received t p l k =
    ap (λ l. record t { publish_for_rec = l; packet_id_for_pubcomp = k ++ p.packet_id ∷ [] })
      (ground arith)

first_completed :
    (t : Session) (id : ℕ) (k : List ℕ)
    → release_packet_id_for_pubcomp id (record t { packet_id_for_pubcomp = id ∷ k })
      ≡ record t { packet_id_for_pubcomp = k }
unfolding release_packet_id_for_pubcomp erase_id
first_completed t id k = ap (λ k. record t { packet_id_for_pubcomp = k }) (ground arith)

acks_run :
    (env : Env) (channel : ℕ) (c : Client) (t : Session) (l : List Publish) (s : Server)
    → Now channel c (record t { publish_for_ack = l }) s
    → Now channel c
        (record t { publish_for_ack = [] })
        (run_events env (map (puback_event channel) (ids l)) s)
acks_run env channel c t [] s h = h
acks_run env channel c t (p ∷ l) s h =
    acks_run env channel c t l _ (puback_step env channel p.packet_id c _ _ s (first_acked t p l) h)

recs_run :
    (env : Env) (channel : ℕ) (c : Client) (t : Session) (l : List Publish) (k : List ℕ)
    (s : Server)
    → Now channel c (record t { publish_for_rec = l; packet_id_for_pubcomp = k }) s
    → Now channel c
        (record t { publish_for_rec = []; packet_id_for_pubcomp = k ++ ids l })
        (run_events env (map (pubrec_event channel) (ids l)) s)
recs_run env channel c t [] k s h =
    subst (λ i. Now channel c (record t { publish_for_rec = []; packet_id_for_pubcomp = i }) s)
      (sym (append-nil k)) h
recs_run env channel c t (p ∷ l) k s h =
    subst
      (λ i.
        Now channel c (record t { publish_for_rec = []; packet_id_for_pubcomp = i })
          (run_events env (map (pubrec_event channel) (ids (p ∷ l))) s))
      (append_assoc k (p.packet_id ∷ []) (ids l))
      (recs_run env channel c t l (k ++ p.packet_id ∷ []) _
        (pubrec_step env channel p.packet_id c _ _ s (first_received t p l k) h))

comps_run :
    (env : Env) (channel : ℕ) (c : Client) (t : Session) (k : List ℕ) (s : Server)
    → Now channel c (record t { packet_id_for_pubcomp = k }) s
    → Now channel c
        (record t { packet_id_for_pubcomp = [] })
        (run_events env (map (pubcomp_event channel) k) s)
comps_run env channel c t [] s h = h
comps_run env channel c t (id ∷ k) s h =
    comps_run env channel c t k _ (pubcomp_step env channel id c _ _ s (first_completed t id k) h)

run_events-append :
    (env : Env) (xs ys : List Event) (s : Server)
    → run_events env (xs ++ ys) s ≡ run_events env ys (run_events env xs s)
run_events-append env [] ys s = refl
run_events-append env (x ∷ xs) ys s = run_events-append env xs ys (on_event env x s).1

-- A client that answers each message that its session keeps, in turn, and then each PUBREL, leaves a
-- session that waits for nothing, in which no packet id is in use; nothing else of the session changes.
pub answered_in_the_end :
    (env : Env) (channel : ℕ) (c : Client) (s : Server)
    → s.param channel ≡ some c
    → let t = s.heap c.session in
      let s' = run_events env (answers channel t) s in
      (s'.heap c.session
        ≡ record t { publish_for_ack = []; publish_for_rec = []; packet_id_for_pubcomp = [] })
      × ((id : ℕ) → is_used (s'.heap c.session) id ≡ false)
answered_in_the_end env channel c s e =
    let t = s.heap c.session in
    let acks = map (puback_event channel) (ids t.publish_for_ack) in
    let recs = map (pubrec_event channel) (ids t.publish_for_rec) in
    let waiting = t.packet_id_for_pubcomp ++ ids t.publish_for_rec in
    let comps = map (pubcomp_event channel) waiting in
    let s1 = run_events env acks s in
    let s2 = run_events env recs s1 in
    let h1 = acks_run env channel c t t.publish_for_ack s (e, refl) in
    let h2 =
      recs_run env channel c (record t { publish_for_ack = [] }) t.publish_for_rec
        t.packet_id_for_pubcomp s1 h1 in
    let h3 =
      comps_run env channel c (record t { publish_for_ack = []; publish_for_rec = [] }) waiting s2
        h2 in
    let whole =
      run_events-append env acks (recs ++ comps) s ∙ run_events-append env recs comps s1 in
    let emptied = ap (λ s. s.heap c.session) whole ∙ h3.1 in
    (emptied, λ id. ap (λ x. is_used x id) emptied)

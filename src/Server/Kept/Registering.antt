-- ===== src/Server/Kept/Registering.antt =====
-- What `handle_connect` (player/mqtt_server.cpp) keeps, as far as no session is resumed.
use shan_mqtt_broker.Base.{
  arith, ℕ, zero, suc, ◌≡◌, Bool, true, false, not, ◌&&◌, Option, none, some, is_some, Bytes,
  bytes_eq, if◌then◌else◌, ltb, ◌==◌, length, refl,
}
use shan_mqtt_broker.Outcome.{Result, ok, err, stuck}
use shan_mqtt_broker.Packet.Connect.{Connect, check_integrity, check_generated, all_alnum}
use shan_mqtt_broker.Packet.Acks.{make_connack}
use shan_mqtt_broker.Packet.Any
use shan_mqtt_broker.Server.State.{Client, Env, Server, write, close}
use shan_mqtt_broker.Server.Keeping.{
  Post, Post-Whatever, Keeps, Whatever, Safe, bind-Keeps, then-Keeps, if-Keeps, get_bind-Keeps,
  pure-Keeps, skip-Safe, step-Safe, when-Safe,
}
use shan_mqtt_broker.Server.Rules.{Sending, Registering}
use shan_mqtt_broker.Server.Clients.{make_client}
use shan_mqtt_broker.Server.Registry.{
  generate_loop, get_client_ptr, get_session_ptr, is_admin, authenticate,
}
use shan_mqtt_broker.Server.Connecting.{
  write_connack, replace_old, restore_session, choose_session, resume, register, accept,
  handle_connect,
}
use shan_mqtt_broker.Server.Kept.Sending.{emit-Safe, send-Safe}

module _ {P : Server → Type 0} (r : Sending P) where
  pub write_connack-Safe :
      (channel : ℕ) (present : Bool) (code : ℕ) → Safe P (write_connack channel present code)
  write_connack-Safe channel present code =
      send-Safe r (make_connack present code) (λ p. write channel (Any.connack p))

if-After :
    {A : Type 0} (P : Server → Type 0) (b : Bool) (x y : Result A × Server)
    → Post Whatever x.0 × P x.1
    → Post Whatever y.0 × P y.1
    → Post Whatever (if b then x else y).0 × P (if b then x else y).1
if-After P true x y hx hy = hx
if-After P false x y hx hy = hy

generated_After :
    (P : Server → Type 0) (packet : Connect) (x : Result Bytes × Server)
    → P x.1
    → Post Whatever (check_generated packet x).0 × P (check_generated packet x).1
generated_After P packet (ok id, s) p = (tt, p)
generated_After P packet (err e, s) p = (tt, p)
generated_After P packet (stuck, s) p = (tt, p)

module _ {P : Server → Type 0} (r : Sending P) (g : Registering P) where
  generate_loop_After :
      (env : Env) (rounds : ℕ) (s : Server) → P s → P (generate_loop env rounds s).1
  unfolding generate_loop
  generate_loop_After env zero s p = p
  generate_loop_After env (suc rounds) s p =
      let p' = g.rand_law (suc (suc s.rand_calls)) s p in
      let s' : Server = record s { rand_calls = suc (suc s.rand_calls) } in
      (if-After P _ (generate_loop env rounds s') _
        (Post-Whatever (generate_loop env rounds s').0, generate_loop_After env rounds s' p')
        (tt, p')).1

  pub check_integrity-Safe :
      (env : Env) (rounds : ℕ) (packet : Connect)
      → Safe P (check_integrity (generate_loop env rounds) packet)
  unfolding check_integrity
  check_integrity-Safe env rounds packet = record {
    kept = λ s p.
        if-After P (not (packet.protocol_level == 4)) _ _ (tt, p)
          (if-After P (ltb 23 (length packet.client_id)) _ _ (tt, p)
            (if-After P (not (all_alnum packet.client_id)) _ _ (tt, p)
              (if-After P (length packet.client_id == 0) _ _
                (if-After P (not packet.clean_session) _ _ (tt, p)
                  (generated_After P packet _ (generate_loop_After env rounds s p)))
                (tt, p))));
  }

  replace_old-Safe : (env : Env) (id : Bytes) (o : Option Client) → Safe P (replace_old env id o)
  replace_old-Safe env id none = skip-Safe
  replace_old-Safe env id (some old) = then-Keeps (step-Safe (g.delete_client_law id)) (
      when-Safe (env.channel_open old.channel_id)
        (λ _. then-Keeps (step-Safe (g.clear_law old.channel_id)) (emit-Safe r _)))

  -- What is chosen for `c`: a client on its channel, and no session found where it asked for a clean one.
  abbrev Chosen : Client → Client × Bool → Type 0
  Chosen c (c', present) =
      (c'.channel_id ≡ c.channel_id) × (present ≡ true → c.clean_session ≡ false)

  restore_session-Keeps :
      (c : Client) (o : Option ℕ)
      → c.clean_session ≡ false
      → Keeps P (Chosen c) (restore_session c o)
  restore_session-Keeps c none e = record {
    kept = λ s p. ((refl, λ _. e), g.give_law c.client_id s p);
  }
  restore_session-Keeps c (some p) e = pure-Keeps _ (refl, λ _. e)

  choose_session-Keeps : (c : Client) → Keeps P (Chosen c) (choose_session c)
  unfolding choose_session
  choose_session-Keeps c =
      if-Keeps (not c.clean_session)
        (λ e.
          get_bind-Keeps
            λ s. restore_session-Keeps c (get_session_ptr c.client_id s) (ground (arith, e)))
        (λ _. record {
          kept = λ s p. (
            (refl, λ e. absurd cc),
            g.give_law c.client_id _ (g.delete_session_law c.client_id s p),
          );
        })

  -- Whether a session is resumed depends on the client: what resuming keeps is asked for only where it
  -- may be done.
  register-Safe :
      (env : Env) (packet : Connect) (c : Client)
      → (c.clean_session ≡ false → (c' : Client) → Safe P (resume c'))
      → Safe P (register env c.channel_id packet c)
  unfolding register
  register-Safe env packet c resumes = get_bind-Keeps λ s.
      then-Keeps (replace_old-Safe env packet.client_id (get_client_ptr packet.client_id s)) (
        bind-Keeps (choose_session-Keeps c) λ (c', present) (e, clean).
          then-Keeps (step-Safe (g.register_law c')) (
            then-Keeps (step-Safe (λ s. g.param_law c.channel_id c' s e)) (
              then-Keeps (write_connack-Safe r c.channel_id present 0x00)
                (then-Keeps (emit-Safe r _) (when-Safe present (λ f. resumes (clean f) c'))))))

  pub accept-Safe :
      (env : Env) (c : Client) (checked : ℕ × Connect)
      → (c.clean_session ≡ false → (c' : Client) → Safe P (resume c'))
      → Safe P (accept env c.channel_id c checked)
  unfolding accept
  accept-Safe env c (code, packet) resumes =
      if-Keeps (not (code == 0)) (λ _. write_connack-Safe r c.channel_id false code)
        (λ _.
          if-Keeps (is_admin env.cfg packet.username packet.password)
            (λ _. register-Safe env packet (record c { admin = true }) resumes)
            (λ _.
              if-Keeps
                (env.cfg.authentication
                  && not (authenticate env.cfg packet.username packet.password))
                (λ _. write_connack-Safe r c.channel_id false 0x05)
                (λ _. register-Safe env packet c resumes)))

module _ {P : Server → Type 0} (r : Sending P) (g : Registering P) where
  pub connect-Safe :
      (packet : Connect)
      → (packet.clean_session ≡ false → (c : Client) → Safe P (resume c))
      → (env : Env) (rounds channel : ℕ) → Safe P (handle_connect env rounds channel packet)
  unfolding handle_connect make_client
  connect-Safe packet resumes env rounds channel = get_bind-Keeps λ s.
      then-Keeps (when-Safe (is_some (s.param channel)) (λ _. emit-Safe r (close channel))) (
        then-Keeps
          (when-Safe (not (bytes_eq packet.protocol_name env.cfg.protocol_name))
            (λ _. emit-Safe r (close channel)))
          (bind-Keeps {Q = Whatever} (check_integrity-Safe r g env rounds packet)
            λ checked _. accept-Safe r g env (make_client packet channel) checked resumes))

-- ===== src/Server/Refinement.antt =====
-- `handle_subscribe` (player/mqtt_server.cpp) as an update of the table of subscriptions, and what
-- leaves the table alone.
use shan_mqtt_broker.Base.{
  ℕ, ◌≡◌, Bool, true, false, ◌&&◌, not, Option, some, List, [], ◌∷◌, Bytes, bytes_eq, ltb, refl,
  ◌∙◌, Bool-cases, inl, inr, if◌then◌else◌,
}
use shan_mqtt_broker.Packet.Publish.{Publish, starts_with_dollar}
use shan_mqtt_broker.Server.State.{Client, Server}
use shan_mqtt_broker.Server.Topics.{TopicPtr, exact, wild, trash, modify_topic, set_retained}
use shan_mqtt_broker.Server.Subscribing.{
  subscribe_sys, subscribe_plain, subscribe_one, trash_filter,
}
use shan_mqtt_broker.Server.Rules.{Sending, Registering}
use shan_mqtt_broker.Server.WellFormed.{WellFormed}
use shan_mqtt_broker.Server.Lawful.{registering-WellFormed, sending-WellFormed}
use shan_mqtt_broker.Server.Table.{
  Table, set_grant, granted, same_kind, grant-subscribed, grant-same,
}

abbrev pub Represents : Table → Server → Type 0
Represents t s = WellFormed s × ((w : Bool) (f id : Bytes) → granted s w f id ≡ t w f id)

retained_same :
    (ptr : TopicPtr) (m : Publish) (s : Server) (w : Bool) (f id : Bytes)
    → granted (modify_topic ptr (set_retained m) s).1 w f id ≡ granted s w f id
retained_same (exact k) m s true f id = refl
retained_same (exact k) m s false f id = grant-same (set_retained m) k f id s.topics (λ t. refl)
retained_same (wild k) m s true f id = grant-same (set_retained m) k f id s.wild_topics (λ t. refl)
retained_same (wild k) m s false f id = refl
retained_same trash m s true f id = refl
retained_same trash m s false f id = refl

pub same_grants :
    (s s' : Server) (w : Bool) (f id : Bytes)
    → s'.topics ≡ s.topics
    → s'.wild_topics ≡ s.wild_topics
    → granted s' w f id ≡ granted s w f id
same_grants s s' true f id e d = rw d refl
same_grants s s' false f id e d = rw e refl

pub sending-Represents : (t : Table) → Sending (Represents t)
sending-Represents t = record {
  emit_law = λ e s (h, k).
      (sending-WellFormed.emit_law e s h, λ w f id. same_grants s _ w f id refl refl ∙ k w f id);
  exchange_law = λ p n s e (h, k). (
    sending-WellFormed.exchange_law p n s e h,
    λ w f id. same_grants s _ w f id refl refl ∙ k w f id,
  );
  retain_law = λ ptr m s r (h, k). (
    sending-WellFormed.retain_law ptr m s r h,
    λ w f id. retained_same ptr m s w f id ∙ k w f id,
  );
}

pub registering-Represents : (t : Table) → Registering (Represents t)
registering-Represents t =
    let g = registering-WellFormed in
    record {
      give_law =
          λ id s (h, k). (g.give_law id s h, λ w f i. same_grants s _ w f i refl refl ∙ k w f i);
      delete_session_law = λ id s (h, k).
          (g.delete_session_law id s h, λ w f i. same_grants s _ w f i refl refl ∙ k w f i);
      register_law =
          λ c s (h, k). (g.register_law c s h, λ w f i. same_grants s _ w f i refl refl ∙ k w f i);
      delete_client_law = λ id s (h, k).
          (g.delete_client_law id s h, λ w f i. same_grants s _ w f i refl refl ∙ k w f i);
      clear_law = λ channel s (h, k).
          (g.clear_law channel s h, λ w f i. same_grants s _ w f i refl refl ∙ k w f i);
      param_law = λ channel c s e (h, k).
          (g.param_law channel c s e h, λ w f i. same_grants s _ w f i refl refl ∙ k w f i);
      rand_law =
          λ n s (h, k). (g.rand_law n s h, λ w f i. same_grants s _ w f i refl refl ∙ k w f i);
    }

-- One filter of a SUBSCRIBE: QoS 3 and filters that start with '$' are passed over.
abbrev pub subscribed_one : Bytes → Bytes → ℕ → Bool → Table → Table
subscribed_one client_id f q w t =
    if ltb q 3 && not (starts_with_dollar f) then set_grant w f client_id (some q) t else t

-- The filters of a SUBSCRIBE, in order.
abbrev pub subscribed : Bytes → List Bytes → List ℕ → List Bool → Table → Table
subscribed client_id [] qs ws t = t
subscribed client_id (f ∷ fs) [] ws t = t
subscribed client_id (f ∷ fs) (q ∷ qs) [] t = t
subscribed client_id (f ∷ fs) (q ∷ qs) (w ∷ ws) t =
    subscribed client_id fs qs ws (subscribed_one client_id f q w t)

plain_table :
    (c : Client) (f : Bytes) (q : ℕ) (w : Bool) (s : Server) (w' : Bool) (f' id : Bytes)
    → WellFormed s
    → granted (subscribe_plain c f q w s).1 w' f' id
      ≡ set_grant w f c.client_id (some q) (granted s) w' f' id
unfolding subscribe_plain
plain_table c f q true s true f' id h =
    grant-subscribed c q f f' id s.wild_topics h.topics_ok.wild_ok
plain_table c f q true s false f' id h = refl
plain_table c f q false s true f' id h = refl
plain_table c f q false s false f' id h = grant-subscribed c q f f' id s.topics h.topics_ok.exact_ok

sys_table :
    (c : Client) (f : Bytes) (q : ℕ) (s : Server) (w : Bool) (f' id : Bytes)
    → granted (subscribe_sys c f q s).1 w f' id ≡ granted s w f' id
unfolding subscribe_sys
sys_table c f q s w f' id = elim (Bool-cases (c.admin && bytes_eq f trash_filter)) [
  | inl b ↦ rw b (same_grants s _ w f' id refl refl)
  | inr b ↦ rw b refl
]

pub one_table :
    (c : Client) (f : Bytes) (q : ℕ) (w : Bool) (s : Server) (w' : Bool) (f' id : Bytes)
    → WellFormed s
    → granted (subscribe_one c f q w s).1 w' f' id
      ≡ subscribed_one c.client_id f q w (granted s) w' f' id
unfolding subscribe_one
one_table c f q w s w' f' id h = elim (Bool-cases (ltb q 3)) [
  | inl b ↦ elim (Bool-cases (starts_with_dollar f)) [
    | inl d ↦ rw (b, d) (sys_table c f q s w' f' id)
    | inr d ↦ rw (b, d) (plain_table c f q w s w' f' id h)
  ]
  | inr b ↦ rw b refl
]

if_ap :
    {A B : Type 0} (f : A → B) (b : Bool) (x y y' : A)
    → f y ≡ f y'
    → f (if b then x else y) ≡ f (if b then x else y')
if_ap f true x y y' e = refl
if_ap f false x y y' e = e

pub set_same :
    (w : Bool) (f cid : Bytes) (q : Option ℕ) (t t' : Table) (w' : Bool) (f' id : Bytes)
    → t w' f' id ≡ t' w' f' id
    → set_grant w f cid q t w' f' id ≡ set_grant w f cid q t' w' f' id
set_same w f cid q t t' w' f' id e =
    if_ap (λ x. x) (same_kind w w' && (bytes_eq f f' && bytes_eq cid id)) q _ _ e

pub one_same :
    (cid f : Bytes) (q : ℕ) (w : Bool) (s : Server) (t : Table) (w' : Bool) (f' id : Bytes)
    → ((w : Bool) (f id : Bytes) → granted s w f id ≡ t w f id)
    → subscribed_one cid f q w (granted s) w' f' id ≡ subscribed_one cid f q w t w' f' id
one_same cid f q w s t w' f' id k = elim (Bool-cases (ltb q 3 && not (starts_with_dollar f))) [
  | inl b ↦ rw b (set_same w f cid (some q) (granted s) t w' f' id (k w' f' id))
  | inr b ↦ rw b (k w' f' id)
]

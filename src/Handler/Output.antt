-- ===== src/Handler/Output.antt =====
-- What the handlers of packet_handler.cpp do to the calls on the network that were made before.
use shan_mqtt_broker.Base.{
  ◌≡◌, Bool, true, false, List, [], ◌∷◌, ◌++◌, Bytes, sym, ap, ◌∙◌, append-nil, append_assoc,
}
use shan_mqtt_broker.Server.State.{Topic, Server, Effect}
use shan_mqtt_broker.Server.Topics.{TopicPtr, exact, wild, trash, modify_topic}
use shan_mqtt_broker.Server.Registry.{get_topic_ptr_to_subscribe}
use shan_mqtt_broker.Server.Subscribing.{erase_topic}
use shan_mqtt_broker.Server.Rules.{Rules}
use shan_mqtt_broker.Server.WellFormed.{WellFormed}
use shan_mqtt_broker.Server.Lawful.{rules-WellFormed}

-- The calls `output` begin with the calls `before`.
pub record Extends (before output : List Effect) : Type 0 where
  pub more : List Effect
  pub appended : output ≡ before ++ more

-- Well formed, with the calls `before` made first.
abbrev pub Continues : List Effect → Server → Type 0
Continues before s = WellFormed s × Extends before s.output

modify_output :
    (before : List Effect) (ptr : TopicPtr) (g : Topic → Topic) (s : Server)
    → Extends before s.output
    → Extends before (modify_topic ptr g s).1.output
modify_output before (exact f) g s h = h
modify_output before (wild f) g s h = h
modify_output before trash g s h = h

make_output :
    (before : List Effect) (f : Bytes) (w : Bool) (s : Server)
    → Extends before s.output
    → Extends before (get_topic_ptr_to_subscribe f w s).1.output
make_output before f true s h = h
make_output before f false s h = h

erase_output :
    (before : List Effect) (w : Bool) (f : Bytes) (s : Server)
    → Extends before s.output
    → Extends before (erase_topic w f s).1.output
erase_output before true f s h = h
erase_output before false f s h = h

emit_output :
    (before : List Effect) (e : Effect) (s : Server)
    → Extends before s.output
    → Extends before (s.output ++ e ∷ [])
emit_output before e s h = record {
  more = h.more ++ e ∷ [];
  appended = ap (λ l. l ++ e ∷ []) h.appended ∙ append_assoc before h.more (e ∷ []);
}

pub rules-Continues : (before : List Effect) → Rules (Continues before)
rules-Continues before =
    let r = rules-WellFormed in
    record {
      sending = record {
        emit_law = λ e s (h, k). (r.sending.emit_law e s h, emit_output before e s k);
        exchange_law = λ p t s e (h, k). (r.sending.exchange_law p t s e h, k);
        retain_law =
            λ ptr m s e (h, k). (r.sending.retain_law ptr m s e h, modify_output before ptr _ s k);
      };
      qos_law = λ p s (h, k). r.qos_law p s h;
      change_law = λ p t s e (h, k). (r.change_law p t s e h, k);
      make_topic_law = λ f w s (h, k). (r.make_topic_law f w s h, make_output before f w s k);
      subscribe_law =
          λ ptr c q s l (h, k). (r.subscribe_law ptr c q s l h, modify_output before ptr _ s k);
      unsubscribe_law =
          λ ptr c s (h, k). (r.unsubscribe_law ptr c s h, modify_output before ptr _ s k);
      erase_topic_law = λ w f s (h, k). (r.erase_topic_law w f s h, erase_output before w f s k);
      registering = record {
        give_law = λ id s (h, k). (r.registering.give_law id s h, k);
        delete_session_law = λ id s (h, k). (r.registering.delete_session_law id s h, k);
        register_law = λ c s (h, k). (r.registering.register_law c s h, k);
        delete_client_law = λ id s (h, k). (r.registering.delete_client_law id s h, k);
        clear_law = λ channel s (h, k). (r.registering.clear_law channel s h, k);
        param_law = λ channel c s e (h, k). (r.registering.param_law channel c s e h, k);
        rand_law = λ n s (h, k). (r.registering.rand_law n s h, k);
      };
    }

pub starts : (before : List Effect) → Extends before before
starts before = record { more = []; appended = sym (append-nil before) }

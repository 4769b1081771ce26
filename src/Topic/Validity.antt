-- ===== src/Topic/Validity.antt =====
-- What `mqtt_subscribe::is_topic_filter_valid` (packet/mqtt_subscribe.cpp) accepts.
use shan_mqtt_broker.Base.{
  ℕ, Bool, true, false, not, ◌&&◌, ◌||◌, List, [], ◌∷◌, Bytes, ◌==◌, ◌≡◌, refl, arith, inl, inr,
  Bool-cases, is_empty,
}
use shan_mqtt_broker.Topic.Filter.{
  slash, hash, plus, ends_badly, at_hash, valid_loop, is_topic_filter_valid,
}
use shan_mqtt_broker.Topic.Levels.{levels, levels_valid, no_wildcard}

-- The first level of a string and the others, and what the string's first characters say of them.
pub record Shape (s : Bytes) : Type 0 where
  pub first_level : Bytes
  pub others : List Bytes
  pub split : levels s ≡ first_level ∷ others
  pub none_left : is_empty s ≡ (is_empty first_level && is_empty others)
  pub goes_on : ends_badly s ≡ not (is_empty first_level)
  pub hash_first : at_hash s ≡ at_hash first_level

pub levels-Shape : (s : Bytes) → Shape s
levels-Shape [] = record {
  first_level = [];
  others = [];
  split = refl;
  none_left = refl;
  goes_on = refl;
  hash_first = refl;
}
levels-Shape (c ∷ s) = elim (Bool-cases (c == slash)) [
  | inl e ↦
      let t = levels-Shape s in
      record {
        first_level = [];
        others = levels s;
        split = ground arith;
        none_left = ground (arith, t.split);
        goes_on = ground arith;
        hash_first = ground arith;
      }
  | inr e ↦
      let t = levels-Shape s in
      record {
        first_level = c ∷ t.first_level;
        others = t.others;
        split = ground (arith, t.split);
        none_left = refl;
        goes_on = ground arith;
        hash_first = ground arith;
      }
]

-- The head level has already begun.
abbrev pub mid_valid : List Bytes → Bool
mid_valid [] = true
mid_valid (f ∷ []) = no_wildcard f
mid_valid (f ∷ (g ∷ fs)) = no_wildcard f && levels_valid (g ∷ fs)

abbrev pub valid_from : Bool → List Bytes → Bool
valid_from true ls = levels_valid ls
valid_from false ls = mid_valid ls

valid_step :
    (c : ℕ) (s : Bytes) (first : Bool) (prev_ch : ℕ) (w : Bool) (l : Bytes) (ls : List Bytes)
    → levels s ≡ l ∷ ls
    → is_empty s ≡ (is_empty l && is_empty ls)
    → ends_badly s ≡ not (is_empty l)
    → (valid_loop false c (w || (c == hash || c == plus)) s).0 ≡ valid_from (c == slash) (levels s)
    → (valid_loop first prev_ch w (c ∷ s)).0
      ≡ valid_from (first || prev_ch == slash) (levels (c ∷ s))
unfolding valid_loop
valid_step c s first prev_ch w [] [] h e g ih = ground arith
valid_step c s first prev_ch w [] (x ∷ ls) h e g ih = ground arith
valid_step c s first prev_ch w (y ∷ l) [] h e g ih = ground arith
valid_step c s first prev_ch w (y ∷ l) (x ∷ ls) h e g ih = ground arith

valid_loop-levels :
    (s : Bytes) (first : Bool) (prev_ch : ℕ) (w : Bool)
    → (valid_loop first prev_ch w s).0 ≡ valid_from (first || prev_ch == slash) (levels s)
valid_loop-levels [] first prev_ch w = unfold valid_loop in ground arith
valid_loop-levels (c ∷ s) first prev_ch w =
    let t = levels-Shape s in
    valid_step c s first prev_ch w t.first_level t.others t.split t.none_left t.goes_on
      (valid_loop-levels s false c (w || (c == hash || c == plus)))

-- `is_topic_filter_valid` accepts a filter exactly when a wildcard fills its whole level and '#'
-- stands in the last level only.
pub is_topic_filter_valid-levels :
    (f : Bytes) → (is_topic_filter_valid f).0 ≡ levels_valid (levels f)
unfolding is_topic_filter_valid
is_topic_filter_valid-levels f = valid_loop-levels f true 0 false

-- ===== src/Topic/Matching.antt =====
-- `topic::match` (object/topic.cpp) against the rules on levels.
use shan_mqtt_broker.Base.{
  ℕ, Bool, true, false, ◌&&◌, List, [], ◌∷◌, Bytes, ◌==◌, ◌≡◌, refl, sym, ◌∙◌, arith, bytes_eq,
}
use shan_mqtt_broker.Topic.Filter.{slash, at_hash, skip_level, match, is_topic_filter_valid}
use shan_mqtt_broker.Topic.Levels.{levels, levels_match, open_end}
use shan_mqtt_broker.Topic.Validity.{
  mid_valid, valid_from, levels-Shape, is_topic_filter_valid-levels,
}

-- The head levels have already begun, and the filter's one holds no wildcard.
abbrev mid_match : List Bytes → List Bytes → Bool
mid_match [] ns = false
mid_match (f ∷ fs) [] = false
mid_match (f ∷ fs) (n ∷ ns) = bytes_eq f n && levels_match fs ns

abbrev matches_from : Bool → List Bytes → List Bytes → Bool
matches_from true fs ns = levels_match fs ns
matches_from false fs ns = mid_match fs ns

abbrev rest_of : List Bytes → List Bytes
rest_of [] = []
rest_of (l ∷ ls) = ls

levels-skip_level : (n : Bytes) → levels (skip_level n) ≡ [] ∷ rest_of (levels n)
unfolding skip_level
levels-skip_level [] = refl
levels-skip_level (c ∷ n) = let t = levels-Shape n in ground (arith, t.split, levels-skip_level n)

open_end-skip_level :
    (n : Bytes) (start : Bool) → open_end start n ≡ false → open_end false (skip_level n) ≡ false
unfolding skip_level
open_end-skip_level [] start h = refl
open_end-skip_level (c ∷ n) start h = ground (arith, open_end-skip_level n (c == slash))

match_ended :
    (f : ℕ) (fs l : Bytes) (ls : List Bytes)
    → levels fs ≡ l ∷ ls
    → at_hash fs ≡ at_hash l
    → mid_valid (levels (f ∷ fs)) ≡ true
    → match (f ∷ fs) [] ≡ mid_match (levels (f ∷ fs)) ([] ∷ [])
unfolding match
match_ended f fs [] [] h a v = ground arith
match_ended f fs [] (x ∷ ls) h a v = ground arith
match_ended f fs (y ∷ []) [] h a v = ground arith
match_ended f fs (y ∷ []) (x ∷ ls) h a v = ground arith
match_ended f fs (y ∷ (z ∷ l)) [] h a v = ground arith
match_ended f fs (y ∷ (z ∷ l)) (x ∷ ls) h a v = ground arith

match_step :
    (f c : ℕ) (fs n l m : Bytes) (ls ms : List Bytes) (start : Bool)
    → levels fs ≡ l ∷ ls
    → levels n ≡ m ∷ ms
    → levels (skip_level (c ∷ n)) ≡ [] ∷ rest_of (levels (c ∷ n))
    → (mid_valid (levels fs) ≡ true
        → match fs (skip_level (c ∷ n)) ≡ mid_match (levels fs) (levels (skip_level (c ∷ n))))
    → (valid_from (f == slash) (levels fs) ≡ true
        → open_end (f == slash) n ≡ false
        → match fs n ≡ matches_from (f == slash) (levels fs) (levels n))
    → valid_from start (levels (f ∷ fs)) ≡ true
    → open_end start (c ∷ n) ≡ false
    → match (f ∷ fs) (c ∷ n) ≡ matches_from start (levels (f ∷ fs)) (levels (c ∷ n))
unfolding match
match_step f c fs n [] m [] ms true hl hm hs past_plus past_char v o = ground arith
match_step f c fs n [] m [] ms false hl hm hs past_plus past_char v o = ground arith
match_step f c fs n [] m (x ∷ ls) ms true hl hm hs past_plus past_char v o = ground arith
match_step f c fs n [] m (x ∷ ls) ms false hl hm hs past_plus past_char v o = ground arith
match_step f c fs n (y ∷ l) m [] ms true hl hm hs past_plus past_char v o = ground arith
match_step f c fs n (y ∷ l) m [] ms false hl hm hs past_plus past_char v o = ground arith
match_step f c fs n (y ∷ l) m (x ∷ ls) ms true hl hm hs past_plus past_char v o = ground arith
match_step f c fs n (y ∷ l) m (x ∷ ls) ms false hl hm hs past_plus past_char v o = ground arith

match-levels_from :
    (fs n : Bytes) (start : Bool)
    → valid_from start (levels fs) ≡ true
    → open_end start n ≡ false
    → match fs n ≡ matches_from start (levels fs) (levels n)
match-levels_from [] [] start v o = unfold match in ground arith
match-levels_from [] (c ∷ n) start v o =
    unfold match in let t = levels-Shape n in ground (arith, t.split)
match-levels_from (f ∷ fs) [] true v o = cc
match-levels_from (f ∷ fs) [] false v o =
    let t = levels-Shape fs in match_ended f fs t.first_level t.others t.split t.hash_first v
match-levels_from (f ∷ fs) (c ∷ n) start v o =
    let t = levels-Shape fs in
    let u = levels-Shape n in
    match_step f c fs n t.first_level u.first_level t.others u.others start t.split u.split
      (levels-skip_level (c ∷ n))
      (λ v'.
        match-levels_from fs (skip_level (c ∷ n)) false v' (open_end-skip_level (c ∷ n) start o))
      (λ v' o'. match-levels_from fs n (f == slash) v' o') v o

-- For a filter that `is_topic_filter_valid` accepts and a topic name that is not empty and does not
-- end in '/', `topic::match` answers as the rules on levels do: '#' stands for the parent and any
-- levels below it, '+' for exactly one level, and every other level for itself.
pub match-levels :
    (filter name : Bytes)
    → (is_topic_filter_valid filter).0 ≡ true
    → open_end true name ≡ false
    → match filter name ≡ levels_match (levels filter) (levels name)
match-levels filter name v o =
    match-levels_from filter name true (sym (is_topic_filter_valid-levels filter) ∙ v) o

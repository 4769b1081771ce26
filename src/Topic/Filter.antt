-- ===== src/Topic/Filter.antt =====
-- `topic::match` (object/topic.cpp) and `mqtt_subscribe::is_topic_filter_valid`
-- (packet/mqtt_subscribe.cpp). A string is the list of its bytes.
use shan_mqtt_broker.Base.{
  ℕ, Bool, true, false, not, ◌&&◌, ◌||◌, [], ◌∷◌, Bytes, ◌==◌, if◌then◌else◌, is_empty,
}

abbrev pub slash : ℕ
slash = b'/'

abbrev pub hash : ℕ
hash = b'#'

abbrev pub plus : ℕ
plus = b'+'

-- `while ((nit != nend) && (*nit != '/')) nit++;`
unfoldable pub skip_level : Bytes → Bytes
skip_level [] = []
skip_level (c ∷ n) = let rest = skip_level n in if c == slash then c ∷ n else rest

-- `(fit != fend) && (*fit == '#')`
abbrev pub at_hash : Bytes → Bool
at_hash [] = false
at_hash (c ∷ f) = c == hash

-- The loop of `topic::match`; the arguments are the ranges [fit, fend) and [nit, nend). Each round
-- that goes on moves `fit` by one.
unfoldable pub match : Bytes → Bytes → Bool
unfolding skip_level
match [] [] = true
match [] (c ∷ n) = false
match (f ∷ fs) [] = if f == slash then at_hash fs else false
match (f ∷ fs) (c ∷ n) =
    let past_plus = match fs (skip_level (c ∷ n)) in
    let past_char = match fs n in
    if f == hash
    then true
    else (if f == plus then past_plus else (if f == c then past_char else false))

-- `(inx + 1 != len) && (topic_filter[inx + 1] != '/')`
abbrev pub ends_badly : Bytes → Bool
ends_badly [] = false
ends_badly (c ∷ s) = not (c == slash)

-- The loop of `is_topic_filter_valid` over the characters that are left: `first` is `inx == 0`, and
-- the result holds the returned value and the out-parameter `is_wild`.
unfoldable pub valid_loop : Bool → ℕ → Bool → Bytes → Bool × Bool
valid_loop first prev_ch is_wild [] = (true, is_wild)
valid_loop first prev_ch is_wild (ch ∷ s) =
    let bad_start = not first && not (prev_ch == slash) in
    let rest = valid_loop false ch (is_wild || (ch == hash || ch == plus)) s in
    if ch == hash
    then (if bad_start || not (is_empty s) then (false, true) else rest)
    else (if ch == plus then (if bad_start || ends_badly s then (false, true) else rest) else rest)

unfoldable pub is_topic_filter_valid : Bytes → Bool × Bool
unfolding valid_loop
is_topic_filter_valid topic_filter = valid_loop true 0 false topic_filter

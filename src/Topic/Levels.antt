-- ===== src/Topic/Levels.antt =====
-- The rules of MQTT 4.7 on topic levels, which the character loops are measured against.
use shan_mqtt_broker.Base.{
  ℕ, Bool, true, false, not, ◌&&◌, ◌||◌, List, [], ◌∷◌, Bytes, ◌==◌, bytes_eq, if◌then◌else◌,
}
use shan_mqtt_broker.Topic.Filter.{slash, hash, plus}

abbrev pub cons_head : ℕ → List Bytes → List Bytes
cons_head c [] = (c ∷ []) ∷ []
cons_head c (l ∷ ls) = (c ∷ l) ∷ ls

-- The levels between the slashes. A string has at least one.
abbrev pub levels : Bytes → List Bytes
levels [] = [] ∷ []
levels (c ∷ s) = if c == slash then [] ∷ levels s else cons_head c (levels s)

abbrev pub hash_level : Bytes
hash_level = hash ∷ []

abbrev pub plus_level : Bytes
plus_level = plus ∷ []

-- A final '#' stands for any number of levels, '+' for one, and any other level for itself.
abbrev pub levels_match : List Bytes → List Bytes → Bool
levels_match [] [] = true
levels_match [] (n ∷ ns) = false
levels_match (f ∷ fs) [] = bytes_eq f hash_level
levels_match (f ∷ fs) (n ∷ ns) =
    bytes_eq f hash_level || ((bytes_eq f plus_level || bytes_eq f n) && levels_match fs ns)

abbrev pub no_wildcard : Bytes → Bool
no_wildcard [] = true
no_wildcard (c ∷ l) = not (c == hash || c == plus) && no_wildcard l

-- A wildcard fills its level, and '#' stands in the last one only.
abbrev pub levels_valid : List Bytes → Bool
levels_valid [] = true
levels_valid (f ∷ []) = bytes_eq f hash_level || (bytes_eq f plus_level || no_wildcard f)
levels_valid (f ∷ (g ∷ fs)) = (bytes_eq f plus_level || no_wildcard f) && levels_valid (g ∷ fs)

-- The string ends where a level has no character yet. `start` says that it begins at such a place.
abbrev pub open_end : Bool → Bytes → Bool
open_end start [] = start
open_end start (c ∷ n) = open_end (c == slash) n

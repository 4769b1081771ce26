-- ===== src/Topic/Trailing.antt =====
-- `topic::match` (object/topic.cpp) on topic names that end in '/'.
use shan_mqtt_broker.Base.{
  true, false, List, [], ◌∷◌, ◌++◌, Bytes, ◌≡◌, refl, ◌∙◌, arith, bytes_eq, bytes_eq_refl, ◌⊎◌, inl,
  inr, All,
}
use shan_mqtt_broker.Topic.Filter.{slash, match}
use shan_mqtt_broker.Topic.Levels.{levels, levels_match, no_wildcard, hash_level, plus_level}
use shan_mqtt_broker.Topic.Validity.{levels-Shape}

abbrev IsPlain : Bytes → Type 0
IsPlain l = no_wildcard l ≡ true

levels-IsPlain : (p : Bytes) → IsPlain p → All IsPlain (levels p)
levels-IsPlain [] h = (refl, tt)
levels-IsPlain (c ∷ p) h = let t = levels-Shape p in ground (arith, t.split, levels-IsPlain p)

levels-append : (p s : Bytes) → levels (p ++ slash ∷ s) ≡ levels p ++ levels s
levels-append [] s = refl
levels-append (c ∷ p) s = let t = levels-Shape p in ground (arith, t.split, levels-append p s)

plain-ne-hash : (l : Bytes) → IsPlain l → bytes_eq l hash_level ≡ false
plain-ne-hash [] h = refl
plain-ne-hash (c ∷ l) h = ground arith

levels_match-append :
    (ls fs ns : List Bytes)
    → All IsPlain ls
    → levels_match (ls ++ fs) (ls ++ ns) ≡ levels_match fs ns
levels_match-append [] fs ns h = refl
levels_match-append (l ∷ ls) fs ns h =
    ground (arith, plain-ne-hash l h.0, bytes_eq_refl l, levels_match-append ls fs ns h.1)

match-append : (p f n : Bytes) → IsPlain p → match (p ++ f) (p ++ n) ≡ match f n
unfolding match
match-append [] f n h = refl
match-append (c ∷ p) f n h = ground (arith, match-append p f n)

after_slash :
    (w : Bytes) → (w ≡ hash_level) ⊎ (w ≡ plus_level) → match (slash ∷ w) (slash ∷ []) ≡ false
unfolding match
after_slash w (inl e) = rw e
after_slash w (inr e) = rw e

last_level :
    (w : Bytes) → (w ≡ hash_level) ⊎ (w ≡ plus_level) → levels_match (levels w) ([] ∷ []) ≡ true
last_level w (inl e) = rw e
last_level w (inr e) = rw e

-- For every prefix without wildcards, the filters prefix/# and prefix/+ do not match the topic name
-- prefix/ in `topic::match`, although by the rules on levels its last, empty level fits both.
pub match_trailing_slash :
    (prefix w : Bytes)
    → no_wildcard prefix ≡ true
    → (w ≡ hash_level) ⊎ (w ≡ plus_level)
    → (match (prefix ++ slash ∷ w) (prefix ++ slash ∷ []) ≡ false)
      × (levels_match (levels (prefix ++ slash ∷ w)) (levels (prefix ++ slash ∷ [])) ≡ true)
match_trailing_slash prefix w h c = (
  match-append prefix (slash ∷ w) (slash ∷ []) h ∙ after_slash w c,
  rw (levels-append prefix w, levels-append prefix [])
      (levels_match-append (levels prefix) (levels w) ([] ∷ []) (levels-IsPlain prefix h)
        ∙ last_level w c),
)

-- ===== src/Tests/OnTopics.antt =====
-- The theorems on topic filters and on a topic's clients, on concrete ones.
use shan_mqtt_broker.Base.{inl, ◌≡◌, refl, true, false, [], ◌∷◌}
use shan_mqtt_broker.Topic.Filter.{match, is_topic_filter_valid, slash, hash}
use shan_mqtt_broker.Topic.Levels.{levels, levels_match, levels_valid}
use shan_mqtt_broker.Topic.Matching.{match-levels}
use shan_mqtt_broker.Topic.Validity.{is_topic_filter_valid-levels}
use shan_mqtt_broker.Topic.Trailing.{match_trailing_slash}
use shan_mqtt_broker.Tests.World.{filter_plus, filter_hash, name_tu}

plus_matches : match filter_plus name_tu ≡ true
unfolding match
plus_matches = refl

match-levels_example :
    match filter_plus name_tu ≡ levels_match (levels filter_plus) (levels name_tu)
unfolding is_topic_filter_valid
match-levels_example = match-levels filter_plus name_tu refl refl

is_topic_filter_valid-levels_example :
    (is_topic_filter_valid filter_hash).0 ≡ levels_valid (levels filter_hash)
is_topic_filter_valid-levels_example = is_topic_filter_valid-levels filter_hash

match_trailing_slash_example :
    (match (b't' ∷ (slash ∷ (hash ∷ []))) (b't' ∷ (slash ∷ [])) ≡ false)
    × (levels_match (levels (b't' ∷ (slash ∷ (hash ∷ [])))) (levels (b't' ∷ (slash ∷ []))) ≡ true)
match_trailing_slash_example = match_trailing_slash (b't' ∷ []) (hash ∷ []) refl (inl refl)

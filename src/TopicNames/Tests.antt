-- ===== src/TopicNames/Tests.antt =====
-- Names of topics through `normalize_topic` of common/utils.py, with the letters and digits of ASCII.
use topicstreams.Text.{codes, lower, to_lower, is_space}
use topicstreams.TopicNames.{
  clean, collapse_after, tighten, lstrip_by, rstrip_by, normalize_topic, normalize_or_400,
}
use topicstreams.TopicNames.Canonical.{Canonical}
use topicstreams.TopicNames.Stable.{normalize_topic-normalize_topic}
use topicstreams.Base.{ℕ, ◌≡◌, refl, ◌↔◌, Bool, ◌&&◌, ◌||◌, none, leb, ◌==◌}

abbrev is_alphanumeric : ℕ → Bool
is_alphanumeric c =
    (leb b'0' c && leb c b'9')
    || (leb b'A' c && leb c b'Z')
    || (leb b'a' c && leb c b'z')
    || c == b'_'

normalized_name :
    normalize_topic is_alphanumeric (codes " -AI,  Machine - Learning! -")
    ≡ codes "ai machine-learning"
unfolding normalize_topic lower to_lower clean collapse_after tighten lstrip_by rstrip_by is_space
normalized_name = refl

empty_name : normalize_or_400 is_alphanumeric (codes "!!! - ") ≡ none
unfolding normalize_or_400 normalize_topic lower to_lower clean collapse_after tighten lstrip_by
    rstrip_by is_space
empty_name = refl

normalize_topic-normalize_topic_example :
    let raw = codes "Machine - Learning!" in
    Canonical is_alphanumeric (normalize_topic is_alphanumeric raw)
    × (normalize_topic is_alphanumeric (normalize_topic is_alphanumeric raw)
        ≡ normalize_topic is_alphanumeric raw)
    × (Canonical is_alphanumeric raw ↔ (normalize_topic is_alphanumeric raw ≡ raw))
normalize_topic-normalize_topic_example =
    normalize_topic-normalize_topic is_alphanumeric (codes "Machine - Learning!")

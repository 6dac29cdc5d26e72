-- ===== src/Topics/Tests.antt =====
-- Topics and filters at examples.
use dds_pipe.Base.{ℕ, ◌≡◌, ◌↔◌, refl, Bool, true, false, [], ◌∷◌, Option, none, some}
use dds_pipe.Allowed
use dds_pipe.Rpc.Text.{Text, codes, first_at}
use dds_pipe.Rpc.Topic.{DdsTopic}
use dds_pipe.Topics.{internal_topic_type_rtps, text_eq, eq, is_valid}
use dds_pipe.Topics.Filters.{
  Patterns, dds, PlainFilter, wildcard_filters, name_matches, wildcards_allow,
}
use dds_pipe.Topics.Names.{eq-same_names}

abbrev topic : Text → Text → DdsTopic ℕ
topic name type = record {
  m_topic_name = name;
  m_internal_type_discriminator = internal_topic_type_rtps;
  m_topic_discoverer = "participant";
  topic_qos = 0;
  type_name = type;
}

-- A wildcard in a name is not valid.
wildcard_invalid : is_valid (topic (codes "chat*") (codes "Text")) ≡ false
unfolding is_valid
wildcard_invalid = refl

plain_valid : is_valid (topic (codes "chat") (codes "Text")) ≡ true
unfolding is_valid
plain_valid = refl

-- Two valid topics with other names and one unique name.
names_collide :
    eq
      (topic (codes "a") (codes "payload::rtps::v0b"))
      (topic (codes "apayload::rtps::v0") (codes "b"))
    ≡ true
unfolding eq
names_collide = refl

chat_has_none : first_at internal_topic_type_rtps (codes "chat") ≡ none
unfolding first_at
chat_has_none = refl

eq-same_names_example :
    (eq (topic (codes "chat") (codes "Text")) (topic (codes "chat") (codes "Image")) ≡ true)
    ↔ ((codes "chat" ≡ codes "chat") × (codes "Text" ≡ codes "Image"))
eq-same_names_example =
    eq-same_names (topic (codes "chat") (codes "Text")) (topic (codes "chat") (codes "Image")) refl
      refl chat_has_none chat_has_none

abbrev set : Option Text → Bool
set none = false
set (some s) = true

abbrev value : Option Text → Text
value none = []
value (some s) = s

abbrev shown : Option Text → Text
shown none = []
shown (some s) = 61 ∷ s

shown-set : (f g : Option Text) → shown f ≡ shown g → set f ≡ set g
shown-set none none e = refl
shown-set none (some t) e = cc
shown-set (some s) none e = cc
shown-set (some s) (some t) e = refl

shown-value : (f g : Option Text) → shown f ≡ shown g → set f ≡ true → value f ≡ value g
shown-value none g e h = cc
shown-value (some s) none e h = cc
shown-value (some s) (some t) e h = cc

-- A pattern that a text matches only if it is the same.
abbrev exact : Patterns
exact = record {
  Fuzzy = Option Text;
  is_set = set;
  get_reference = value;
  print = shown;
  match_pattern = text_eq;
  print-is_set = shown-set;
  print-get_reference = shown-value;
}

abbrev named : (s : Text) → first_at (codes ";") (61 ∷ s) ≡ none → PlainFilter exact
named s h = record { filter = record { topic_name = some s; type_name = none }; plain = h }

plain_chat : first_at (codes ";") (61 ∷ codes "chat") ≡ none
unfolding first_at
plain_chat = refl

plain_log : first_at (codes ";") (61 ∷ codes "log") ≡ none
unfolding first_at
plain_log = refl

abbrev chat : PlainFilter exact
chat = named (codes "chat") plain_chat

abbrev log : PlainFilter exact
log = named (codes "log") plain_log

wildcards_allow_example :
    Allowed.is_topic_allowed
      (wildcard_filters exact ℕ ℕ)
      (Allowed.create (wildcard_filters exact ℕ ℕ) (chat ∷ chat ∷ []) (log ∷ []))
      (dds (topic (codes "chat") (codes "Text")))
    ≡ true
unfolding name_matches text_eq
wildcards_allow_example =
    wildcards_allow exact ℕ (topic (codes "chat") (codes "Text")) (chat ∷ chat ∷ []) (log ∷ [])

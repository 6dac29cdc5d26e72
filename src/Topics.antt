-- ===== src/Topics.antt =====
-- Topics (types/topic/Topic.cpp, types/topic/dds/DdsTopic.cpp): their unique names, by which the
-- containers of the core tell them apart, and the test for valid ones.
pub mod Order
pub mod Names
pub mod Filters
mod Tests
use dds_pipe.Base.{
  ℕ, suc, ◌+◌, ◌^◌, ◌≡◌, Bool, true, false, not, List, [], ◌∷◌, ◌++◌, if◌then◌else◌, ◌==◌, ◌&&◌,
  ltb, ParticipantId, default_participant_id,
}
use dds_pipe.Rpc.Text.{Text, codes, find, npos}
use dds_pipe.Rpc.Topic.{DdsTopic}

abbrev pub internal_topic_type_none : Text
internal_topic_type_none = []

abbrev pub internal_topic_type_rtps : Text
internal_topic_type_rtps = codes "payload::rtps::v0"

-- `==` and `<` of `std::string`, byte by byte
unfoldable pub text_eq : Text → Text → Bool
text_eq [] [] = true
text_eq (c ∷ s) (d ∷ t) = if c == d then text_eq s t else false
text_eq _ _ = false

unfoldable pub text_lt : Text → Text → Bool
text_lt _ [] = false
text_lt [] (d ∷ t) = true
text_lt (c ∷ s) (d ∷ t) = if ltb c d then true else if ltb d c then false else text_lt s t

abbrev pub is_empty : Text → Bool
is_empty [] = true
is_empty (c ∷ s) = false

-- The loop over `invalid_substrings`
unfoldable pub no_invalid_substring : List Text → Text → Text → Bool
unfolding find
no_invalid_substring [] topic_name type_name = true
no_invalid_substring (invalid ∷ rest) topic_name type_name =
    if not (find invalid topic_name == npos)
    then false
    else if not (find invalid type_name == npos)
    then false
    else no_invalid_substring rest topic_name type_name

unfoldable pub is_valid_dds_topic : Text → Text → Bool
unfolding no_invalid_substring
is_valid_dds_topic topic_name type_name =
    if is_empty topic_name
    then false
    else if is_empty type_name
    then false
    else no_invalid_substring (codes "*" ∷ []) topic_name type_name

module _ {Qos : Type 0} where
  -- `DdsTopic()`, over the fields of `Topic()`
  unfoldable pub create : Qos → DdsTopic Qos
  create default_qos = record {
    m_topic_name = [];
    m_internal_type_discriminator = internal_topic_type_rtps;
    m_topic_discoverer = default_participant_id;
    topic_qos = default_qos;
    type_name = [];
  }

  -- Topic::topic_unique_name
  unfoldable pub topic_unique_name : DdsTopic Qos → Text
  topic_unique_name t = t.m_topic_name ++ t.m_internal_type_discriminator

  -- DdsTopic::topic_unique_name
  unfoldable pub dds_topic_unique_name : DdsTopic Qos → Text
  unfolding topic_unique_name
  dds_topic_unique_name t = topic_unique_name t ++ t.type_name

  -- `operator ==` and `operator <`, which call the unique name of a topic's own class
  unfoldable pub eq : DdsTopic Qos → DdsTopic Qos → Bool
  unfolding text_eq dds_topic_unique_name
  eq t u = text_eq (dds_topic_unique_name t) (dds_topic_unique_name u)

  unfoldable pub lt : DdsTopic Qos → DdsTopic Qos → Bool
  unfolding text_lt dds_topic_unique_name
  lt t u = text_lt (dds_topic_unique_name t) (dds_topic_unique_name u)

  -- Topic::is_valid
  unfoldable pub topic_is_valid : DdsTopic Qos → Bool
  unfolding text_eq
  topic_is_valid t =
      if is_empty t.m_topic_name
      then false
      else if text_eq t.m_internal_type_discriminator internal_topic_type_none
      then false
      else true

  -- DdsTopic::is_valid
  unfoldable pub is_valid : DdsTopic Qos → Bool
  unfolding topic_is_valid is_valid_dds_topic
  is_valid t = if topic_is_valid t then is_valid_dds_topic t.m_topic_name t.type_name else false

-- ===== src/Rpc/Naming.antt =====
-- The names of a service's topics (types/topic/rpc/RpcTopic.cpp).
use dds_pipe.Base.{
  ℕ, ◌+◌, ◌%◌, ◌^◌, ◌<◌, ◌≡◌, refl, ap, ◌∙◌, true, false, Option, none, some, [], ◌∷◌, ◌++◌, ◌==◌,
  arith, length, length-append, ParticipantId, append-nil,
}
use dds_pipe.Rpc.Text.{
  Text, position, next, find, rfind, regex_replace, regex_remove, IsFree, replace-free, remove-free,
  last_at-behind, first_at, last_at,
}
use dds_pipe.Rpc.Topic.{
  DdsTopic, RpcTopic, request_prefix_str, reply_prefix_str, request_str, reply_str, response_str,
  internal_topic_type_rpc, ends_at, is_request_topic, is_reply_topic, rpc_topic,
}

-- The name of a service in the middle of its topics' names: no literal that is replaced begins in it.
pub record IsPlainName (name : Text) : Type 0 where
  pub request_prefix : IsFree request_prefix_str name request_str
  pub reply_prefix : IsFree reply_prefix_str name reply_str
  pub request : IsFree request_str name request_str
  pub reply : IsFree reply_str name reply_str

pub record IsPlainType (type : Text) (c : ℕ) : Type 0 where
  pub request : IsFree request_str type (request_str ++ (c ∷ []))
  pub response : IsFree response_str type (response_str ++ (c ∷ []))

abbrev pub request_name : Text → Text
request_name name = request_prefix_str ++ (name ++ request_str)

abbrev pub reply_name : Text → Text
reply_name name = reply_prefix_str ++ (name ++ reply_str)

-- `reply_topic_.m_topic_name` of a request topic
reply_name_lem :
    (name : Text)
    → IsPlainName name
    → regex_replace
        (regex_replace (request_name name) request_prefix_str reply_prefix_str)
        request_str
        reply_str
      ≡ reply_name name
unfolding regex_replace
reply_name_lem name plain =
    ap (λ t. regex_replace (reply_prefix_str ++ t) request_str reply_str)
      (replace-free request_prefix_str reply_prefix_str name request_str plain.request_prefix)
    ∙ ap (λ t. reply_prefix_str ++ t)
        (replace-free request_str reply_str name request_str plain.request)

-- `request_topic_.m_topic_name` of a reply topic
request_name_lem :
    (name : Text)
    → IsPlainName name
    → regex_replace
        (regex_replace (reply_name name) reply_prefix_str request_prefix_str)
        reply_str
        request_str
      ≡ request_name name
unfolding regex_replace
request_name_lem name plain =
    ap (λ t. regex_replace (request_prefix_str ++ t) reply_str request_str)
      (replace-free reply_prefix_str request_prefix_str name reply_str plain.reply_prefix)
    ∙ ap (λ t. request_prefix_str ++ t)
        (replace-free reply_str request_str name reply_str plain.reply)

request_service_lem :
    (name : Text)
    → IsPlainName name
    → regex_remove (request_name name) request_prefix_str request_str ≡ name
unfolding regex_remove
request_service_lem name plain =
    remove-free request_prefix_str request_str name request_str plain.request_prefix plain.request
    ∙ append-nil name

reply_service_lem :
    (name : Text)
    → IsPlainName name
    → regex_remove (reply_name name) reply_prefix_str reply_str ≡ name
unfolding regex_remove
reply_service_lem name plain =
    remove-free reply_prefix_str reply_str name reply_str plain.reply_prefix plain.reply
    ∙ append-nil name

-- A text that ends with a pattern, and `more` bytes behind it, passes the test for it.
ends_at-append :
    (p s t : Text)
    → last_at p (p ++ t) ≡ some 0
    → length (s ++ (p ++ t)) < 2 ^ 64
    → ends_at p (length t) (s ++ (p ++ t)) ≡ true
unfolding ends_at rfind
ends_at-append p s t h b =
    let size : length (s ++ (p ++ t)) ≡ length s + length p + length t =
      omega (arith, length-append s (p ++ t), length-append p t) in
    let found : rfind p (s ++ (p ++ t)) ≡ length s =
      ap position (last_at-behind p s (p ++ t) 0 h) ∙ omega arith in
    let fits : (length s + length p + length t) % 2 ^ 64 ≡ length (s ++ (p ++ t)) =
      omega (arith, size, b) in
    rw found (ground (arith, fits))

request_at_start : (c : ℕ) → last_at request_str (request_str ++ (c ∷ [])) ≡ some 0
unfolding last_at
request_at_start c = ground arith

response_at_start : (c : ℕ) → last_at response_str (response_str ++ (c ∷ [])) ≡ some 0
unfolding last_at
response_at_start c = ground arith

response_type_end :
    (c : ℕ)
    → regex_replace (request_str ++ (c ∷ [])) request_str response_str ≡ response_str ++ (c ∷ [])
unfolding regex_replace
response_type_end c = ground arith

request_type_end :
    (c : ℕ)
    → regex_replace (response_str ++ (c ∷ [])) response_str request_str ≡ request_str ++ (c ∷ [])
unfolding regex_replace
request_type_end c = ground arith

next_not_first : (o : Option ℕ) → (position (next o) == 0) ≡ false
next_not_first none = refl
next_not_first (some i) = ground arith

module _ {Qos : Type 0} where
  -- A service's two topics, by what stands in the middle of their names.
  abbrev pub request_of : Text → Text → ℕ → Text → ParticipantId → Qos → DdsTopic Qos
  request_of name type c kind who qos = record {
    m_topic_name = request_name name;
    m_internal_type_discriminator = kind;
    m_topic_discoverer = who;
    topic_qos = qos;
    type_name = type ++ (request_str ++ (c ∷ []));
  }

  abbrev pub reply_of : Text → Text → ℕ → Text → ParticipantId → Qos → DdsTopic Qos
  reply_of name type c kind who qos = record {
    m_topic_name = reply_name name;
    m_internal_type_discriminator = kind;
    m_topic_discoverer = who;
    topic_qos = qos;
    type_name = type ++ (response_str ++ (c ∷ []));
  }

  abbrev pub service : Text → Text → ℕ → ParticipantId → Qos → RpcTopic Qos
  service name type c who qos = record {
    service_name = name;
    request_topic = request_of name type c internal_topic_type_rpc who qos;
    reply_topic = reply_of name type c internal_topic_type_rpc who qos;
  }

  request_of-is_request :
      (name type kind : Text) (c : ℕ) (who : ParticipantId) (qos : Qos)
      → length name + 10 < 2 ^ 64
      → length type + 9 < 2 ^ 64
      → is_request_topic (request_of name type c kind who qos) ≡ true
  unfolding is_request_topic find
  request_of-is_request name type kind c who qos b d =
      rw
        (
          ends_at-append request_str (request_prefix_str ++ name) [] refl
              (omega (arith, b, length-append name request_str)),
          ends_at-append request_str type (c ∷ []) (request_at_start c)
              (omega (arith, d, length-append type (request_str ++ (c ∷ [])))),
        )
        refl

  reply_of-is_reply :
      (name type kind : Text) (c : ℕ) (who : ParticipantId) (qos : Qos)
      → length name + 10 < 2 ^ 64
      → length type + 9 < 2 ^ 64
      → is_reply_topic (reply_of name type c kind who qos) ≡ true
  unfolding is_reply_topic find
  reply_of-is_reply name type kind c who qos b d =
      rw
        (
          ends_at-append reply_str (reply_prefix_str ++ name) [] refl
              (omega (arith, b, length-append name reply_str)),
          ends_at-append response_str type (c ∷ []) (response_at_start c)
              (omega (arith, d, length-append type (response_str ++ (c ∷ [])))),
        )
        refl

  reply_of-not_request :
      (name type kind : Text) (c : ℕ) (who : ParticipantId) (qos : Qos)
      → is_request_topic (reply_of name type c kind who qos) ≡ false
  unfolding is_request_topic find
  reply_of-not_request name type kind c who qos =
      rw (next_not_first (next (next (first_at request_prefix_str (name ++ reply_str))))) refl

  from_request :
      (name type kind : Text) (c : ℕ) (who : ParticipantId) (qos : Qos)
      → IsPlainName name
      → IsPlainType type c
      → length name + 10 < 2 ^ 64
      → length type + 9 < 2 ^ 64
      → rpc_topic (request_of name type c kind who qos) ≡ some (service name type c who qos)
  unfolding rpc_topic
  from_request name type kind c who qos plain plain_type b d =
      rw
        (
          request_of-is_request name type kind c who qos b d,
          request_service_lem name plain,
          reply_name_lem name plain,
          replace-free request_str response_str type (request_str ++ (c ∷ [])) plain_type.request,
          response_type_end c,
        )
        refl

  from_reply :
      (name type kind : Text) (c : ℕ) (who : ParticipantId) (qos : Qos)
      → IsPlainName name
      → IsPlainType type c
      → length name + 10 < 2 ^ 64
      → length type + 9 < 2 ^ 64
      → rpc_topic (reply_of name type c kind who qos) ≡ some (service name type c who qos)
  unfolding rpc_topic
  from_reply name type kind c who qos plain plain_type b d =
      rw
        (
          reply_of-not_request name type kind c who qos,
          reply_of-is_reply name type kind c who qos b d,
          reply_service_lem name plain,
          request_name_lem name plain,
          replace-free response_str request_str type (response_str ++ (c ∷ [])) plain_type.response,
          request_type_end c,
        )
        refl

  -- When no literal that is replaced begins in the middle of the names of a service's topics and of
  -- their types, and the names are shorter than `size_t` counts, the request topic and the reply topic
  -- are recognised and both give the one RpcTopic that has the service's name and these two topics.
  pub rpc_topic_of_both :
      (name type kind : Text) (c : ℕ) (who : ParticipantId) (qos : Qos)
      → IsPlainName name
      → IsPlainType type c
      → length name + 10 < 2 ^ 64
      → length type + 9 < 2 ^ 64
      → (rpc_topic (request_of name type c kind who qos) ≡ some (service name type c who qos))
        × (rpc_topic (reply_of name type c kind who qos) ≡ some (service name type c who qos))
  rpc_topic_of_both name type kind c who qos plain plain_type b d = (
    from_request name type kind c who qos plain plain_type b d,
    from_reply name type kind c who qos plain plain_type b d,
  )

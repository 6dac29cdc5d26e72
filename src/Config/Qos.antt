-- ===== src/Config/Qos.antt =====
-- TopicQoS (types/dds/TopicQoS.cpp), and how DdsBridge (communication/dds/DdsBridge.cpp) gives a topic its
-- Quality of Service. `Fuzzy` of cpp_utils, a value with the level at which it was set, is a parameter.
use dds_pipe.Base.{
  ℕ, ◌≡◌, refl, ◌∙◌, Bool, true, false, ◌&&◌, List, [], ◌∷◌, if◌then◌else◌, ltb, ParticipantId,
  arith, any, string_dec, ite, Bool-cases, inl, inr,
}

pub record Fuzzies : Type 1 where
  pub Fuzzy : Type 0 → Type 0
  -- `float`, and the kinds of Fast DDS
  pub Rate : Type 0
  pub DurabilityKind : Type 0
  pub ReliabilityKind : Type 0
  pub OwnershipQosPolicyKind : Type 0
  pub get_level : {A : Type 0} → Fuzzy A → ℕ
  pub is_set : {A : Type 0} → Fuzzy A → Bool
  pub get_value : {A : Type 0} → Fuzzy A → A
  pub set_value : {A : Type 0} → A → ℕ → Fuzzy A → Fuzzy A
  pub fuzzy_level_default : ℕ
  pub fuzzy_level_set : ℕ
  -- The highest level
  pub fuzzy_level_hard : ℕ
  pub get_level-set_value :
      {A : Type 0} (a : A) (level : ℕ) (f : Fuzzy A) → get_level (set_value a level f) ≡ level

module _ (x : Fuzzies) where
  open x use {
    Rate, DurabilityKind, ReliabilityKind, OwnershipQosPolicyKind, Fuzzy, get_level, is_set,
    get_value, set_value, fuzzy_level_default, fuzzy_level_set, fuzzy_level_hard,
    get_level-set_value,
  }

  pub record TopicQos : Type 0 where
    pub durability_qos : Fuzzy DurabilityKind
    pub reliability_qos : Fuzzy ReliabilityKind
    pub ownership_qos : Fuzzy OwnershipQosPolicyKind
    pub use_partitions : Fuzzy Bool
    pub history_depth : Fuzzy ℕ
    pub keyed : Fuzzy Bool
    pub max_tx_rate : Fuzzy Rate
    pub max_rx_rate : Fuzzy Rate
    pub downsampling : Fuzzy ℕ

  -- One of the nine statements of `set_qos`: the level, the field of `qos`, and the own field.
  unfoldable pub set_field : {A : Type 0} → ℕ → Fuzzy A → Fuzzy A → Fuzzy A
  set_field fuzzy_level qos own =
      if ltb (get_level own) fuzzy_level && is_set qos
      then set_value (get_value qos) fuzzy_level own
      else own

  unfoldable pub set_qos : TopicQos → ℕ → TopicQos → TopicQos
  unfolding set_field
  set_qos qos fuzzy_level t = record {
    durability_qos = set_field fuzzy_level qos.durability_qos t.durability_qos;
    reliability_qos = set_field fuzzy_level qos.reliability_qos t.reliability_qos;
    ownership_qos = set_field fuzzy_level qos.ownership_qos t.ownership_qos;
    use_partitions = set_field fuzzy_level qos.use_partitions t.use_partitions;
    history_depth = set_field fuzzy_level qos.history_depth t.history_depth;
    keyed = set_field fuzzy_level qos.keyed t.keyed;
    max_tx_rate = set_field fuzzy_level qos.max_tx_rate t.max_tx_rate;
    max_rx_rate = set_field fuzzy_level qos.max_rx_rate t.max_rx_rate;
    downsampling = set_field fuzzy_level qos.downsampling t.downsampling;
  }

  -- `participant_ids.empty() || participant_ids.count(id)`
  abbrev pub is_for : ParticipantId → List ParticipantId → Bool
  is_for id [] = true
  is_for id (i ∷ ids) = any (λ j. ite (string_dec id j) true false) (i ∷ ids)

  -- The first loop of `create_topic_for_participant_nts_`
  unfoldable pub set_manual :
      ParticipantId → List (TopicQos × List ParticipantId) → TopicQos → TopicQos
  unfolding set_qos
  set_manual id [] t = t
  set_manual id ((qos, ids) ∷ rest) t =
      let applied = set_manual id rest (set_qos qos fuzzy_level_hard t) in
      let passed = set_manual id rest t in if is_for id ids then applied else passed

  -- The Quality of Service of `create_topic_for_participant_nts_`'s topic: of the bridge's manual topics, of
  -- the participant, and of the topic.
  unfoldable pub create_topic_for_participant :
      ParticipantId → TopicQos → List (TopicQos × List ParticipantId) → TopicQos → TopicQos
  unfolding set_manual set_qos
  create_topic_for_participant id participant_qos manual_topics t =
      set_qos participant_qos fuzzy_level_hard (set_manual id manual_topics t)

  -- The sources for a participant, in order.
  abbrev pub sources :
      ParticipantId → TopicQos → List (TopicQos × List ParticipantId) → List TopicQos
  sources id participant_qos [] = participant_qos ∷ []
  sources id participant_qos ((qos, ids) ∷ rest) =
      let more = sources id participant_qos rest in if is_for id ids then qos ∷ more else more

  -- The first source that has a field set gives its value, unless the topic's own is set as hard already.
  abbrev pub first_set : {A : Type 0} → (TopicQos → Fuzzy A) → List TopicQos → Fuzzy A → Fuzzy A
  first_set field [] own = own
  first_set field (qos ∷ rest) own =
      let later = first_set field rest own in
      if ltb (get_level own) fuzzy_level_hard
      then (if is_set (field qos)
          then set_value (get_value (field qos)) fuzzy_level_hard own
          else later)
      else own

  abbrev pub first_qos : List TopicQos → TopicQos → TopicQos
  first_qos qs t = record {
    durability_qos = first_set (λ q. q.durability_qos) qs t.durability_qos;
    reliability_qos = first_set (λ q. q.reliability_qos) qs t.reliability_qos;
    ownership_qos = first_set (λ q. q.ownership_qos) qs t.ownership_qos;
    use_partitions = first_set (λ q. q.use_partitions) qs t.use_partitions;
    history_depth = first_set (λ q. q.history_depth) qs t.history_depth;
    keyed = first_set (λ q. q.keyed) qs t.keyed;
    max_tx_rate = first_set (λ q. q.max_tx_rate) qs t.max_tx_rate;
    max_rx_rate = first_set (λ q. q.max_rx_rate) qs t.max_rx_rate;
    downsampling = first_set (λ q. q.downsampling) qs t.downsampling;
  }

  first_set-hard :
      {A : Type 0} (field : TopicQos → Fuzzy A) (qs : List TopicQos) (own : Fuzzy A)
      → ltb (get_level own) fuzzy_level_hard ≡ false
      → first_set field qs own ≡ own
  first_set-hard field [] own hard = refl
  first_set-hard field (q ∷ qs) own hard = simp hard refl

  hard_set :
      {A : Type 0} (a : A) (own : Fuzzy A)
      → ltb (get_level (set_value a fuzzy_level_hard own)) fuzzy_level_hard ≡ false
  hard_set a own = ground (arith, get_level-set_value a fuzzy_level_hard own)

  -- A field after the first source, and then the others.
  first_set-step :
      {A : Type 0} (field : TopicQos → Fuzzy A) (q : TopicQos) (qs : List TopicQos) (own : Fuzzy A)
      → first_set field qs (set_field fuzzy_level_hard (field q) own) ≡ first_set field (q ∷ qs) own
  unfolding set_field
  first_set-step field q qs own = elim (Bool-cases (ltb (get_level own) fuzzy_level_hard)) [
    | inr hard ↦ simp (hard, first_set-hard field qs own hard) refl
    | inl below ↦ elim (Bool-cases (is_set (field q))) [
      | inl given ↦
          simp (below, given)
            (first_set-hard field qs (set_value (get_value (field q)) fuzzy_level_hard own)
              (hard_set (get_value (field q)) own))
      | inr missing ↦ simp (below, missing) refl
    ]
  ]

  first_qos-step :
      (q : TopicQos) (qs : List TopicQos) (t : TopicQos)
      → first_qos qs (set_qos q fuzzy_level_hard t) ≡ first_qos (q ∷ qs) t
  unfolding set_qos
  first_qos-step q qs t = cc (
    first_set-step (λ s. s.durability_qos) q qs t.durability_qos,
    first_set-step (λ s. s.reliability_qos) q qs t.reliability_qos,
    first_set-step (λ s. s.ownership_qos) q qs t.ownership_qos,
    first_set-step (λ s. s.use_partitions) q qs t.use_partitions,
    first_set-step (λ s. s.history_depth) q qs t.history_depth,
    first_set-step (λ s. s.keyed) q qs t.keyed,
    first_set-step (λ s. s.max_tx_rate) q qs t.max_tx_rate,
    first_set-step (λ s. s.max_rx_rate) q qs t.max_rx_rate,
    first_set-step (λ s. s.downsampling) q qs t.downsampling,
  )

  -- Each of the nine policies of the topic that is made for a participant comes from the first that has it
  -- set, of the manual topics for the participant, in order, and then the participant; it stays the topic's
  -- own when none has it set, or when its own is set as hard.
  pub create_topic-first :
      (id : ParticipantId) (participant_qos : TopicQos)
      (manual_topics : List (TopicQos × List ParticipantId)) (t : TopicQos)
      → create_topic_for_participant id participant_qos manual_topics t
        ≡ first_qos (sources id participant_qos manual_topics) t
  unfolding create_topic_for_participant
  create_topic-first id p [] t = first_qos-step p [] t
  create_topic-first id p ((qos, ids) ∷ rest) t = elim (Bool-cases (is_for id ids)) [
    | inl named ↦
        simp (create_topic_for_participant, named)
          (create_topic-first id p rest (set_qos qos fuzzy_level_hard t)
            ∙ first_qos-step qos (sources id p rest) t)
    | inr other ↦ simp (create_topic_for_participant, other) (create_topic-first id p rest t)
  ]

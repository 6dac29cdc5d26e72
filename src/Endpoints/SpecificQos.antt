-- ===== src/Endpoints/SpecificQos.antt =====
-- SpecificEndpointQoS (types/dds/SpecificEndpointQoS.cpp), by which MultiWriter keys its writers, and
-- its order. The partitions are Fast DDS's.
pub mod Order
use dds_pipe.Base.{
  ℕ, suc, ◌≡◌, ◌≢◌, ◌⊎◌, refl, sym, ap, ◌∙◌, inl, inr, Bool, true, false, List, [], ◌∷◌, Option,
  none, some, ltb, ◌==◌, ◌&&◌, arith, if◌then◌else◌, length, Bool-cases,
}
use dds_pipe.Rpc.Text.{Text}
use dds_pipe.Topics.{text_lt}
use dds_pipe.Topics.Order.{text_lt_self, text_lt-connected, text_lt_trans}

-- `PartitionQosPolicy`: its number of names, the names, and its `operator ==`
pub record Policies : Type 1 where
  pub PartitionQosPolicy : Type 0
  pub size : PartitionQosPolicy → ℕ
  pub get_names : PartitionQosPolicy → List Text
  pub eq : PartitionQosPolicy → PartitionQosPolicy → Bool
  pub size-get_names : (p : PartitionQosPolicy) → size p ≡ length (get_names p)

-- The loop over the names; `none` is a read past the end of `other_names`.
unfoldable pub names_lt : List Text → List Text → Option Bool
unfolding text_lt
names_lt [] other_names = some false
names_lt (s ∷ this_names) [] = none
names_lt (s ∷ this_names) (t ∷ other_names) =
    if text_lt s t
    then some true
    else if text_lt t s
    then some false
    else names_lt this_names other_names

module _ (p : Policies) where
  open p use {PartitionQosPolicy, size, get_names, eq, size-get_names}

  pub record SpecificEndpointQos : Type 0 where
    pub partitions : PartitionQosPolicy
    pub ownership_strength : ℕ

  -- `operator <`
  unfoldable pub qos_lt : SpecificEndpointQos → SpecificEndpointQos → Option Bool
  unfolding names_lt
  qos_lt this other =
      if ltb this.ownership_strength other.ownership_strength
      then some true
      else if ltb other.ownership_strength this.ownership_strength
      then some false
      else if ltb (size this.partitions) (size other.partitions)
      then some true
      else if ltb (size other.partitions) (size this.partitions)
      then some false
      else names_lt (get_names this.partitions) (get_names other.partitions)

  -- `operator ==`
  unfoldable pub qos_eq : SpecificEndpointQos → SpecificEndpointQos → Bool
  qos_eq this other =
      eq this.partitions other.partitions && (this.ownership_strength == other.ownership_strength)

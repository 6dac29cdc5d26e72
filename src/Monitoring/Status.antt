-- ===== src/Monitoring/Status.antt =====
-- StatusMonitorProducer (monitoring/producers/StatusMonitorProducer.cpp), call by call as its mutex lets
-- them in: the errors of the application, for its consumers.
pub mod Reports
use dds_pipe.Base.{
  ℕ, ◌≡◌, refl, ap, ◌∙◌, Bool, true, false, not, List, [], ◌∷◌, ◌++◌, map, if◌then◌else◌, ◌&&◌,
  ◌||◌, arith, ltb,
}
use dds_pipe.Rpc.Text.{Text, codes}
use dds_pipe.Topics.{text_eq}

module _ (Double Consumer : Type 0) where
  pub record ErrorStatus : Type 0 where
    pub type_mismatch : Bool
    pub qos_mismatch : Bool

  pub record MonitoringStatus : Type 0 where
    pub error_status : ErrorStatus
    pub has_errors : Bool

  pub record State : Type 0 where
    pub enabled : Bool
    pub period : Double
    pub error_status : ErrorStatus
    pub has_errors : Bool
    pub status : MonitoringStatus  -- `data_`
    pub consumers : List Consumer

  abbrev pub no_errors : ErrorStatus
  no_errors = record { type_mismatch = false; qos_mismatch = false }

  abbrev pub create : Double → State
  create period = record {
    enabled = false;
    period = period;
    error_status = no_errors;
    has_errors = false;
    status = record { error_status = no_errors; has_errors = false };
    consumers = [];
  }

  unfoldable pub init : Bool → Double → State → State
  init enabled period s =
      let t : State = record s { enabled = enabled } in
      if not enabled then t else record t { period = period }

  unfoldable pub enable : State → State
  enable s = record s { enabled = true }

  unfoldable pub disable : State → State
  disable s = record s { enabled = false }

  unfoldable pub register_consumer : Consumer → State → State
  register_consumer consumer s =
      if not s.enabled then s else record s { consumers = s.consumers ++ consumer ∷ [] }

  unfoldable pub clear_consumers : State → State
  clear_consumers s = record s { consumers = [] }

  unfoldable pub clear_data : State → State
  clear_data s = record s {
    error_status = no_errors;
    has_errors = false;
    status = record { error_status = no_errors; has_errors = false };
  }

  unfoldable pub add_error_to_status : Text → State → State
  unfolding text_eq
  add_error_to_status error s =
      let raised : ErrorStatus =
        if text_eq error (codes "TYPE_MISMATCH")
        then record s.error_status { type_mismatch = true }
        else if text_eq error (codes "QOS_MISMATCH")
        then record s.error_status { qos_mismatch = true }
        else s.error_status in
      if not s.enabled then s else record s { error_status = raised; has_errors = true }

  -- produce_nts_
  unfoldable pub produce_now : State → State
  produce_now s = record s {
    status = record { error_status = s.error_status; has_errors = s.has_errors };
  }

  -- consume_nts_: each consumer, with the status that it consumes
  unfoldable pub consume_now : State → List (Consumer × MonitoringStatus)
  consume_now s = map (λ c. (c, s.status)) s.consumers

  unfoldable pub produce : State → State
  unfolding produce_now
  produce s = if not s.enabled then s else produce_now s

  unfoldable pub consume : State → List (Consumer × MonitoringStatus)
  unfolding consume_now
  consume s = if not s.enabled then [] else consume_now s

  unfoldable pub produce_and_consume : State → State × List (Consumer × MonitoringStatus)
  unfolding produce_now consume_now
  produce_and_consume s =
      let t = produce_now s in if not s.enabled then (s, []) else (t, consume_now t)

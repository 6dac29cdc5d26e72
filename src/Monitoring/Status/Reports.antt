-- ===== src/Monitoring/Status/Reports.antt =====
-- What StatusMonitorProducer reports, after any calls.
use dds_pipe.Base.{
  ◌≡◌, refl, sym, subst, ap, ◌∙◌, Bool, true, false, not, List, [], ◌∷◌, map, if◌then◌else◌, ◌&&◌,
  ◌||◌, arith,
}
use dds_pipe.Monitoring.Status
use dds_pipe.Rpc.Text.{Text, codes}
use dds_pipe.Topics.{text_eq}
use dds_pipe.Topics.Order.{text_eq-eq}

module _ (Double Consumer : Type 0) where
  pub data Call : Type 0 where
    init_with : Bool → Double → Call
    enabling disabling clearing_consumers clearing_data producing consuming periodic : Call
    registering : Consumer → Call
    adding_error : Text → Call

  -- The state after a call
  unfoldable pub after : Call → Status.State Double Consumer → Status.State Double Consumer
  after (init_with e p) s = Status.init Double Consumer e p s
  after enabling s = Status.enable Double Consumer s
  after disabling s = Status.disable Double Consumer s
  after clearing_consumers s = Status.clear_consumers Double Consumer s
  after clearing_data s = Status.clear_data Double Consumer s
  after producing s = Status.produce Double Consumer s
  after consuming s = s
  after periodic s = (Status.produce_and_consume Double Consumer s).0
  after (registering c) s = Status.register_consumer Double Consumer c s
  after (adding_error error) s = Status.add_error_to_status Double Consumer error s

  -- The latest call stands first.
  unfoldable pub run : Double → List Call → Status.State Double Consumer
  unfolding after
  run period [] = Status.create Double Consumer period
  run period (c ∷ h) = after c (run period h)

  abbrev pub is_on : List Call → Bool
  is_on [] = false
  is_on (init_with e p ∷ h) = e
  is_on (enabling ∷ h) = true
  is_on (disabling ∷ h) = false
  is_on (_ ∷ h) = is_on h

  -- Whether an error that a test accepts was added while the producer was enabled, since the data were
  -- last cleared
  unfoldable pub has_error : (Text → Bool) → List Call → Bool
  has_error test [] = false
  has_error test (clearing_data ∷ h) = false
  has_error test (adding_error error ∷ h) = (is_on h && test error) || has_error test h
  has_error test (_ ∷ h) = has_error test h

  run-enabled : (period : Double) (h : List Call) → (run period h).enabled ≡ is_on h
  unfolding run after Status.init Status.enable Status.disable Status.register_consumer
      Status.clear_consumers Status.clear_data Status.add_error_to_status Status.produce
      Status.produce_now Status.produce_and_consume
  run-enabled period [] = refl
  run-enabled period (c ∷ h) = ground (arith, run-enabled period h)

  abbrev Errors : List Call → Status.State Double Consumer → Type 0
  Errors h s =
      (s.error_status.type_mismatch ≡ has_error (λ e. text_eq e (codes "TYPE_MISMATCH")) h)
      × (s.error_status.qos_mismatch ≡ has_error (λ e. text_eq e (codes "QOS_MISMATCH")) h)
      × (s.has_errors ≡ has_error (λ e. true) h)

  -- The two names are not one.
  not_both :
      (error : Text)
      → text_eq error (codes "TYPE_MISMATCH") ≡ true
      → text_eq error (codes "QOS_MISMATCH") ≡ false
  unfolding text_eq
  not_both error h =
      subst (λ t. text_eq t (codes "QOS_MISMATCH") ≡ false) (sym (text_eq-eq error _ h)) refl

  run-Errors : (period : Double) (h : List Call) → Errors h (run period h)
  unfolding run after Status.init Status.enable Status.disable Status.register_consumer
      Status.clear_consumers Status.clear_data Status.add_error_to_status Status.produce
      Status.produce_now Status.produce_and_consume has_error
  run-Errors period [] = (refl, refl, refl)
  run-Errors period (adding_error error ∷ h) =
      ground (arith, run-Errors period h, run-enabled period h, not_both error)
  run-Errors period (c ∷ h) = ground (arith, run-Errors period h)

  -- The status that the calls tell of
  abbrev pub to_report : List Call → Status.MonitoringStatus Double Consumer
  to_report h = record {
    error_status = record {
      type_mismatch = has_error (λ e. text_eq e (codes "TYPE_MISMATCH")) h;
      qos_mismatch = has_error (λ e. text_eq e (codes "QOS_MISMATCH")) h;
    };
    has_errors = has_error (λ e. true) h;
  }

  abbrev passed_on :
      Bool
      → Status.State Double Consumer
      → Status.State Double Consumer × List (Consumer × Status.MonitoringStatus Double Consumer)
  passed_on b s = if not b then (s, []) else (
    Status.produce_now Double Consumer s,
    Status.consume_now Double Consumer (Status.produce_now Double Consumer s),
  )

  -- After any calls that leave the producer enabled, `produce_and_consume` passes the same status on to
  -- each consumer: it has each of the two mismatches exactly when an error of that name was
  -- added while the producer was enabled, since the data were last cleared, and it has errors
  -- exactly when any error was.
  pub reports_all_errors :
      (period : Double) (h : List Call)
      → is_on h ≡ true
      → (Status.produce_and_consume Double Consumer (run period h)).1
        ≡ map (λ c. (c, to_report h)) (run period h).consumers
  unfolding Status.produce_and_consume Status.consume_now Status.produce_now
  reports_all_errors period h on =
      let s = run period h in
      let e = run-Errors period h in
      ap (λ b. (passed_on b s).1) (run-enabled period h ∙ on)
      ∙ ap (λ r. map (λ c. (c, r)) s.consumers) (cc (e.0, e.1, e.2))

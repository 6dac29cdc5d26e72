-- ===== src/Track/Protocol/Tests.antt =====
-- A run of the protocol, step by step: the track is enabled, one sample arrives and is forwarded,
-- and the track is disabled.
use dds_pipe.Base.{ℕ, ◌≡◌, refl, inl, ◌≤◌, ◌⊎◌, Bool, true, false, arith}
use dds_pipe.Track.Protocol.{
  State, init, Transmitter, idle, checking_loop, storing, taking, closing, writing, Control, free,
  resetting, enabling_writers, enabling_reader, awaiting_transmission, disabling_reader, Reach,
  created, later, arrive, hear, notify, emit, start, go_on, store, take, take_none, close, write,
  enable, reset, enable_writers, enable_reader, disable, transmission_ended,
}
use dds_pipe.Track.Protocol.Delivery.{Working, start_of, next, CanStep, drains}
use dds_pipe.Track.Protocol.Invariant.{
  inside, no_lost_data, writes_while_enabled, disables_between_samples,
}

-- The state while endpoints are on, by what differs along the run.
abbrev on : Bool → Control → ℕ → ℕ → Transmitter → State
on e c status unread t = record init {
  enabled = e;
  control = c;
  status = status;
  unread = unread;
  transmitter = t;
  reader_on = true;
  writers_on = true;
}

abbrev enabling : Reach 0 (record init { enabled = true; control = resetting })
enabling = later {m = 0} created (enable refl refl refl) refl (omega arith)

abbrev reset_done : Reach 0 (record init { enabled = true; control = enabling_writers })
reset_done = later {m = 0} enabling (reset refl) refl (omega arith)

abbrev writers_done :
    Reach 0 (record init { enabled = true; writers_on = true; control = enabling_reader })
writers_done = later {m = 0} reset_done (enable_writers refl) refl (omega arith)

abbrev enabled : Reach 0 (on true free 0 0 idle)
enabled = later {m = 0} writers_done (enable_reader refl) refl (omega arith)

abbrev arrived : Reach 0 (record (on true free 0 1 idle) { callbacks = 1 })
arrived = later {m = 0} enabled (arrive) refl (omega arith)

abbrev heard : Reach 0 (record (on true free 0 1 idle) { adding = 1 })
heard = later {m = 0} arrived (hear (omega arith) refl) refl (omega arith)

abbrev notified : Reach 1 (record (on true free 2 1 idle) { emitting = 1 })
notified = later {m = 1} heard (notify (omega arith)) refl (omega arith)

abbrev emitted : Reach 1 (record (on true free 2 1 idle) { queued = 1 })
emitted = later {m = 1} notified (emit (omega arith)) refl (omega arith)

abbrev started : Reach 1 (on true free 2 1 checking_loop)
started = later {m = 1} emitted (start (omega arith) refl) refl (omega arith)

abbrev testing : Reach 1 (on true free 2 1 storing)
testing = later {m = 1} started (go_on refl refl refl) refl (omega arith)

abbrev stored : Reach 0 (on true free 1 1 taking)
stored = later {m = 0} testing (store refl) refl (omega arith)

abbrev taken : Reach 0 (on true free 1 0 writing)
taken = later {m = 0} stored (take refl refl (omega arith)) refl (omega arith)

abbrev written : Reach 0 (on true free 1 0 checking_loop)
written = later {m = 0} taken (write refl) refl (omega arith)

abbrev again : Reach 0 (on true free 1 0 storing)
again = later {m = 0} written (go_on refl refl refl) refl (omega arith)

abbrev looking_again : Reach 0 (on true free 1 0 taking)
looking_again = later {m = 0} again (store refl) refl (omega arith)

abbrev none_left : Reach 0 (on true free 1 0 closing)
none_left = later {m = 0} looking_again (take_none refl refl refl) refl (omega arith)

abbrev drained : Reach 0 (on true free 0 0 idle)
drained = later {m = 0} none_left (close refl) refl (omega arith)

abbrev disabling : Reach 0 (on false awaiting_transmission 0 0 idle)
disabling = later {m = 0} drained (disable refl refl) refl (omega arith)

abbrev stopped : Reach 0 (on false disabling_reader 0 0 idle)
stopped = later {m = 0} disabling (transmission_ended refl refl) refl (omega arith)

no_lost_data_example : (on true free 0 0 idle).unread ≡ 0
no_lost_data_example = no_lost_data drained refl refl refl refl

writes_while_enabled_example :
    ((on true free 1 0 writing).reader_on ≡ true) × ((on true free 1 0 writing).writers_on ≡ true)
writes_while_enabled_example = writes_while_enabled taken refl

disables_between_samples_example :
    (inside idle ≡ false) × ((on false disabling_reader 0 0 idle).enabled ≡ false)
disables_between_samples_example = disables_between_samples stopped (inl refl)

abbrev forwarding :
    Working
      (record (on true free 0 1 idle) { callbacks = 1 })
      3
      0
      (record (on true free 2 1 idle) { queued = 1 })
forwarding =
    next (next (next start_of (hear (omega arith) refl) refl) (notify (omega arith)) refl)
      (emit (omega arith)) refl

drains_example :
    (3 ≤ 16) × ((◌≡◌ {A = ℕ} 1 0) ⊎ CanStep (record (on true free 2 1 idle) { queued = 1 }))
drains_example = drains arrived refl refl (omega arith) forwarding

-- ===== src/Endpoints/Writer.antt =====
-- BaseWriter (writer/auxiliar/BaseWriter.cpp): whether it is enabled, and which samples it sends. What
-- a kind of writer does to send a sample, `write_nts_`, is a parameter: a function on its own state.
use dds_pipe.Base.{
  ℕ, ◌+◌, ◌≡◌, Bool, true, false, List, [], ◌∷◌, if◌then◌else◌, ltb, not, ReturnCode, ok,
  not_enabled,
}
use dds_pipe.Endpoints.Sampling.{Rates, IsSpaced}

module _ (x : Rates) {Data State : Type 0} (write_nts : Data → State → ReturnCode × State) where
  open x use {Rate, is_positive, period}

  pub record BaseWriter : Type 0 where
    pub max_tx_rate : Rate
    pub enabled : Bool
    pub last_sent_ts : ℕ
    pub min_intersample_period : ℕ
    pub state : State

  unfoldable pub create : Rate → State → BaseWriter
  create max_tx_rate state = record {
    max_tx_rate = max_tx_rate;
    enabled = false;
    last_sent_ts = 0;
    min_intersample_period = if is_positive max_tx_rate then period max_tx_rate else 0;
    state = state;
  }

  unfoldable pub enable : BaseWriter → BaseWriter
  enable w = if not w.enabled then record w { enabled = true } else w

  unfoldable pub disable : BaseWriter → BaseWriter
  disable w = if w.enabled then record w { enabled = false } else w

  unfoldable pub should_send_sample : ℕ → BaseWriter → Bool × BaseWriter
  should_send_sample now w =
      if (if is_positive w.max_tx_rate
        then ltb now (w.last_sent_ts + w.min_intersample_period)
        else false)
      then (false, w)
      else (true, record w { last_sent_ts = now })

  -- The code that `write` returns, whether `write_nts_` was called, and the writer.
  unfoldable pub write : ℕ → Data → BaseWriter → ReturnCode × Bool × BaseWriter
  unfolding should_send_sample
  write now data_sent w =
      if w.enabled
      then (let (send, v) = should_send_sample now w in
          if not send
          then (ok, false, v)
          else (let (code, s) = write_nts data_sent v.state in
              (code, true, record v { state = s })))
      else (not_enabled, false, w)

  pub data Call : Type 0 where
    writes : ℕ → Data → Call
    enables disables : Call

  unfoldable pub after : Call → BaseWriter → BaseWriter
  unfolding write enable disable
  after (writes now d) w = (write now d w).2
  after enables w = enable w
  after disables w = disable w

  -- The times at which `write_nts_` is called.
  unfoldable pub sent : List Call → BaseWriter → List ℕ
  unfolding after
  sent [] w = []
  sent (enables ∷ cs) w = sent cs (after enables w)
  sent (disables ∷ cs) w = sent cs (after disables w)
  sent (writes now d ∷ cs) w =
      let rest = sent cs (after (writes now d) w) in if (write now d w).1 then now ∷ rest else rest

  -- The same limit, and the same time of the last sample.
  record SameLimit (v w : BaseWriter) : Type 0 where
    rate : w.max_tx_rate ≡ v.max_tx_rate
    apart : w.min_intersample_period ≡ v.min_intersample_period
    last : w.last_sent_ts ≡ v.last_sent_ts

  SpacedFrom : BaseWriter → List ℕ → Type 0
  SpacedFrom w ts = IsSpaced w.min_intersample_period w.last_sent_ts ts

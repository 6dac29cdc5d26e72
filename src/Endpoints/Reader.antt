-- ===== src/Endpoints/Reader.antt =====
-- BaseReader (reader/auxiliar/BaseReader.cpp): whether it is enabled, its callback, and which samples it
-- accepts. What a kind of reader adds, `enable_nts_`, `disable_nts_` and `take_nts_`, is Internal's.
pub mod Accepted
use dds_pipe.Base.{
  ℕ, ◌+◌, ◌%◌, ◌^◌, ◌≡◌, Bool, true, false, List, [], ◌∷◌, if◌then◌else◌, ltb, ◌==◌, not,
}
use dds_pipe.Endpoints.Sampling.{Rates}

module _ (x : Rates) where
  open x use {Rate, is_positive, period, fast_module}

  pub record BaseReader : Type 0 where
    pub max_rx_rate : Rate
    pub downsampling : ℕ
    pub on_data_available_lambda_set : Bool
    pub enabled : Bool
    pub downsampling_idx : ℕ
    pub last_received_ts : ℕ
    pub min_intersample_period : ℕ

  unfoldable pub create : Rate → ℕ → BaseReader
  create max_rx_rate downsampling = record {
    max_rx_rate = max_rx_rate;
    downsampling = downsampling;
    on_data_available_lambda_set = false;
    enabled = false;
    downsampling_idx = 0;
    last_received_ts = 0;
    min_intersample_period = if is_positive max_rx_rate then period max_rx_rate else 0;
  }

  unfoldable pub set_on_data_available_callback : BaseReader → BaseReader
  set_on_data_available_callback r = record r { on_data_available_lambda_set = true }

  unfoldable pub unset_on_data_available_callback : BaseReader → BaseReader
  unset_on_data_available_callback r = record r { on_data_available_lambda_set = false }

  -- The rate test of `should_accept_sample_`
  unfoldable pub is_early : ℕ → BaseReader → Bool
  is_early now r =
      if is_positive r.max_rx_rate
      then ltb now (r.last_received_ts + r.min_intersample_period)
      else false

  unfoldable pub should_accept_sample : ℕ → BaseReader → Bool × BaseReader
  unfolding is_early
  should_accept_sample now r =
      if is_early now r
      then (false, r)
      else let counted : BaseReader = record r {
        downsampling_idx = fast_module ((r.downsampling_idx + 1) % 2 ^ 32) r.downsampling;
      } in
        if not (r.downsampling_idx == 0)
        then (false, counted)
        else (true, record counted { last_received_ts = now })

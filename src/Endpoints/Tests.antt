-- ===== src/Endpoints/Tests.antt =====
-- Readers and writers on a few calls.
use Prim.Native.Nat.{◌/◌}
use dds_pipe.Base.{
  ℕ, ◌+◌, ◌*◌, ◌%◌, ◌≤◌, ◌<◌, ◌≡◌, ◌⊎◌, refl, Bool, true, false, List, [], ◌∷◌, ◌++◌, some, ltb,
  arith, length, nat_key, ok,
}
use dds_pipe.Map.{lookup}
use dds_pipe.Endpoints.Sampling.{Rates, IsSpaced}
use dds_pipe.Endpoints.Reader
use dds_pipe.Endpoints.Reader.Accepted.{accepted, on_time, accepts_one_in, accepts-IsSpaced}
use dds_pipe.Endpoints.Internal
use dds_pipe.Endpoints.Internal.{takes_in_order}
use dds_pipe.Endpoints.Writer
use dds_pipe.Endpoints.Multi
use dds_pipe.Endpoints.SpecificQos.{Policies, SpecificEndpointQos, qos_lt}
use dds_pipe.Endpoints.SpecificQos.Order.{Alike, qos_lt-compared}
use dds_pipe.Rpc.Text.{Text, codes}
use dds_pipe.Endpoints.Multi.{QosWriters, enabled_together, write-lookup}

-- Whole rates, in samples a second.
abbrev rates : Rates
rates = record {
  Rate = ℕ;
  is_positive = λ r. ltb 0 r;
  period = λ r. 1000000000 / r;
  fast_module = λ a b. a % b;
  fast_module-mod = λ a b h. refl;
}

abbrev times : List ℕ
times = 100000000 ∷ 150000000 ∷ 200000000 ∷ 900000000 ∷ []

accepts_one_in_example :
    (length (accepted rates times (Reader.create rates 10 2)) * 2
      < length (on_time rates times (Reader.create rates 10 2)) + 2)
    × (length (on_time rates times (Reader.create rates 10 2))
        ≤ length (accepted rates times (Reader.create rates 10 2)) * 2)
accepts_one_in_example = accepts_one_in rates 10 2 times (omega arith) (omega arith)

accepts-IsSpaced_applied :
    IsSpaced (1000000000 / 10) 0 (accepted rates times (Reader.create rates 10 1))
accepts-IsSpaced_applied = accepts-IsSpaced rates 10 1 times refl

abbrev reader_calls : List (Internal.Call ℕ)
reader_calls = Internal.receives 5 ∷ Internal.enables ∷ Internal.receives 6 ∷ Internal.takes ∷ []

takes_in_order_example :
    (Internal.run reader_calls Internal.create).0
      ++ (Internal.run reader_calls Internal.create).1.data_to_send
    ≡ 5 ∷ 6 ∷ []
takes_in_order_example = takes_in_order reader_calls Internal.create

abbrev writer_calls : List (Writer.Call rates {State = ℕ} (λ (d s : ℕ). (ok, s + 1)))
writer_calls =
    Writer.enables
    ∷ Writer.writes 100000000 1
    ∷ Writer.writes 110000000 2
    ∷ Writer.writes 300000000 3
    ∷ []

-- Writers that keep what they are given while they are enabled.
abbrev writers : QosWriters
writers = record {
  Qos = ℕ;
  qos_key = nat_key;
  Data = ℕ × ℕ;
  writer_qos = λ d. d.0;
  Writer = Bool × List ℕ;
  make = λ q. (false, []);
  enable_writer = λ w. (true, w.1);
  disable_writer = λ w. (false, w.1);
  write_data = λ d w. (ok, (w.0, d.1 ∷ w.1));
  is_enabled = λ w. w.0;
  make_disabled = λ q. refl;
  enable_enabled = λ w. refl;
  disable_disabled = λ w. refl;
  write_enabled = λ d w. refl;
}

abbrev multi_calls : List (Multi.Call writers)
multi_calls =
    Multi.enables ∷ Multi.writes (1, 7) ∷ Multi.disables ∷ Multi.enables ∷ Multi.writes (2, 8) ∷ []

enabled_together_example : true ≡ (Multi.run writers multi_calls (Multi.create writers)).enabled
unfolding Multi.run lookup dds_pipe.Map.insert dds_pipe.Base.ℕ_discrete
enabled_together_example = enabled_together writers multi_calls 1 (true, 7 ∷ []) refl

writes_to_new_writer :
    ((Multi.write writers (2, 8) (record { enabled = true; writers_map = [] })).0 ≡ ok)
    × (lookup 2
          (Multi.write writers (2, 8) (record { enabled = true; writers_map = [] })).1.writers_map
        ≡ some (true, 8 ∷ []))
    × ((Multi.write writers (2, 8) (record { enabled = true; writers_map = [] })).1.enabled ≡ true)
unfolding lookup dds_pipe.Base.ℕ_discrete
writes_to_new_writer =
    write-lookup writers (2, 8) (record { enabled = true; writers_map = [] }) 2 refl

-- Partitions as lists of names
abbrev names : Policies
names = record {
  PartitionQosPolicy = List Text;
  size = length;
  get_names = λ p. p;
  eq = λ p q. false;
  size-get_names = λ p. refl;
}

abbrev strong_in : Text → SpecificEndpointQos names
strong_in name = record { partitions = name ∷ []; ownership_strength = 3 }

qos_lt-compared_example :
    ((qos_lt names (strong_in (codes "a")) (strong_in (codes "b")) ≡ some true)
      × (qos_lt names (strong_in (codes "b")) (strong_in (codes "a")) ≡ some false))
    ⊎ ((qos_lt names (strong_in (codes "a")) (strong_in (codes "b")) ≡ some false)
        × (qos_lt names (strong_in (codes "b")) (strong_in (codes "a")) ≡ some true))
    ⊎ ((qos_lt names (strong_in (codes "a")) (strong_in (codes "b")) ≡ some false)
        × (qos_lt names (strong_in (codes "b")) (strong_in (codes "a")) ≡ some false)
        × Alike names (strong_in (codes "a")) (strong_in (codes "b")))
qos_lt-compared_example = qos_lt-compared names (strong_in (codes "a")) (strong_in (codes "b"))

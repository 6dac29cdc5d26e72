-- ===== src/Base/Keys.antt =====
-- Keys of the ordered containers (`std::map`, `std::set`): a decidable equality and the order by
-- which the container is traversed. Participant ids are strings.
use Prim.Native.Nat.{ℕ}
use Prim.Native.String.{String}
use Prim.Native.String.{compare}
use mathlib.Core.Path.{◌≡◌, refl}
use mathlib.Core.Logic.{◌↔◌}
use mathlib.Core.Bool.{Bool, true, false, false≢true}
use native.Mathlib.Decide.{ℕ_discrete}
use text.Mathlib.Text.{◌==◌ as str_eq, is_lt}
use text.Mathlib.TextEquality.{eq_iff}
use dds_pipe.Base.Tests.{ltb}

pub record Key {ℓ} (K : Type ℓ) : Type ℓ where
  pub dec : Discrete K
  pub ltb : K → K → Bool

dec_of : {P : Type 0} (b : Bool) → (b ≡ true) ↔ P → Dec P
dec_of true h = yes (h.0 refl)
dec_of false h = no (λ p. false≢true (h.1 p))

unfoldable pub string_dec : Discrete String
unfolding dec_of
string_dec s t = dec_of (str_eq s t) (eq_iff s t)

instance abbrev pub string_key : Key String
string_key = record { dec = string_dec; ltb = λ s t. is_lt (compare s t) }

instance abbrev pub nat_key : Key ℕ
nat_key = record { dec = ℕ_discrete; ltb = ltb }

-- `using ParticipantId = std::string`, and the id that stands for "no participant".
abbrev pub ParticipantId : Type 0
ParticipantId = String

abbrev pub default_participant_id : ParticipantId
default_participant_id = "Undefined"

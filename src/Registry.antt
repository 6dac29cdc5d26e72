-- ===== src/Registry.antt =====
-- ServiceRegistry (ddspipe_core/src/cpp/communication/rpc/ServiceRegistry.cpp): which request each
-- sequence number stands for, so that its reply finds the way back. Sequence numbers are their
-- 64-bit values; `SampleIdentity` is Fast DDS's, with the value of its default constructor.
pub mod Window
pub mod Replies
mod Tests
use dds_pipe.Map.{Map, lookup, insert, erase, contains}
use dds_pipe.Base.{
  ℕ, nat_key, ◌+◌, Bool, true, false, Option, none, some, List, [], ◌∷◌, ◌==◌, if◌then◌else◌,
  length, ParticipantId,
}

abbrev pub default_max_entries : ℕ
default_max_entries = 5000

pub record ServiceRegistry (S : Type 0) : Type 0 where
  pub enabled : Bool
  pub registry : Map ℕ (ParticipantId × S)

-- `registry_.erase(registry_.begin())`
abbrev pub erase_begin {ℓ} : {A : Type ℓ} → List A → List A
erase_begin [] = []
erase_begin (x ∷ xs) = xs

module _ {S : Type 0} where
  abbrev pub create : ServiceRegistry S
  create = record { enabled = false; registry = [] }

  unfoldable pub enable : ServiceRegistry S → ServiceRegistry S
  enable r = record r { enabled = true }

  pub disable : ServiceRegistry S → ServiceRegistry S
  disable r = record r { enabled = false }

  add_entry : Map ℕ (ParticipantId × S) → ℕ → ParticipantId × S → Map ℕ (ParticipantId × S)
  add_entry m idx new_entry =
      let grown = insert idx new_entry m in
      if length grown == default_max_entries then erase_begin grown else grown

  unfoldable pub add : ServiceRegistry S → ℕ → ParticipantId × S → ServiceRegistry S
  unfolding add_entry
  add r idx new_entry =
      if contains idx r.registry
      then r
      else record r { registry = add_entry r.registry idx new_entry }

  -- The default of `S` is what is returned beside the empty id for a number that is not there.
  unfoldable pub get : S → ServiceRegistry S → ℕ → ParticipantId × S
  get unknown r idx = elim (lookup idx r.registry) [ none ↦ ("", unknown) | some e ↦ e ]

  unfoldable pub remove : ServiceRegistry S → ℕ → ServiceRegistry S
  remove r idx = if contains idx r.registry then record r { registry = erase idx r.registry } else r

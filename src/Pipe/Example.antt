-- ===== src/Pipe/Example.antt =====
-- Parts of a pipe for runs: topics and services are numbers, a list is the one number that it
-- refuses, and a bridge is the Boolean that says whether it is enabled.
use dds_pipe.Base.{
  ℕ, ◌≡◌, refl, Bool, true, false, Option, none, some, ◌==◌, nat_key, arith, not, if◌then◌else◌,
}
use dds_pipe.Pipe.Parts.{Parts}

pub same-allowed : (a b t : ℕ) → (a == b) ≡ true → not (t == a) ≡ not (t == b)
same-allowed a b t e = ground (arith, e)

abbrev make : ℕ → Option Bool
make t = if t == 13 then none else some false

pub made-disabled : (t : ℕ) (b : Bool) → make t ≡ some b → b ≡ false
made-disabled t b e = ground (arith, e)

abbrev pub numbers : Parts
numbers = record {
  Topic = ℕ;
  topic_key = nat_key;
  topic_discoverer = λ t. "Undefined";
  Guid = ℕ;
  guid_key = nat_key;
  GuidPrefix = ℕ;
  guid_prefix = λ g. g;
  Service = ℕ;
  service_key = nat_key;
  is_request_topic = λ t. t == 20;
  is_reply_topic = λ t. t == 21;
  service_of = λ t. 2;
  Allowed = ℕ;
  is_topic_allowed = λ l t. not (t == l);
  is_service_allowed = λ l s. not (s == l);
  same_allowed = λ a b. a == b;
  same_topics = same-allowed;
  Bridge = Bool;
  create_bridge = make;
  enable_bridge = λ b. true;
  disable_bridge = λ b. false;
  create_writer = λ p b. b;
  remove_writer = λ p b. b;
  bridge_enabled = λ b. b;
  created_disabled = made-disabled;
  enable_enabled = λ b. refl;
  disable_disabled = λ b. refl;
  create_writer_enabled = λ p b. refl;
  remove_writer_enabled = λ p b. refl;
  RpcBridge = Bool;
  create_service = λ s. false;
  enable_service = λ r. true;
  disable_service = λ r. false;
  discovered_service = λ p g r. r;
  removed_service = λ p g r. r;
}

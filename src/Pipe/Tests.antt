-- ===== src/Pipe/Tests.antt =====
-- Runs of a pipe.
use dds_pipe.Base.{
  ℕ, ◌≡◌, refl, Bool, true, false, Option, none, some, List, [], ◌∷◌, nat_key, Key, arith,
}
use dds_pipe.Map.{Map, lookup, emplace, contains, Unique}
use dds_pipe.Pipe.Parts.{reader, on_any}
use dds_pipe.Pipe.Defs.{Endpoint, Configuration, Pipe, enable, disable, reload_allowed_topics}
use dds_pipe.Pipe.Discovery.{create}
use dds_pipe.Pipe.History.{Event, enables, disables, reloads, discovers, run, bridges_follow_list}
use dds_pipe.Pipe.Rpc.{services_have_bridges}
use dds_pipe.Pipe.Switches.{
  reload_switches_services, disable_leaves_services, stale_service_enabled,
}
use dds_pipe.Pipe.Example.{numbers}

abbrev configuration : Configuration numbers
configuration = record { discovery_trigger = on_any; remove_unused_entities = false }

abbrev found : Endpoint numbers
found = record {
  guid = 100;
  kind = reader;
  topic = 1;
  active = true;
  discoverer_participant_id = "a";
}

abbrev server : Endpoint numbers
server = record {
  guid = 101;
  kind = reader;
  topic = 20;
  active = true;
  discoverer_participant_id = "a";
}

abbrev entities : Map ℕ (Endpoint numbers)
entities = (100, found) ∷ []

abbrev history : List (Event numbers)
history = discovers entities found ∷ discovers entities server ∷ disables ∷ reloads 3 ∷ enables ∷ []

bridges_follow_list_example :
    (true ≡ true)
    × (lookup 1 (run numbers history (create numbers configuration 1 (5 ∷ []) true)).current_topics
        ≡ some true)
unfolding lookup run create emplace dds_pipe.Base.ℕ_discrete dds_pipe.Base.string_dec
bridges_follow_list_example =
    bridges_follow_list numbers configuration 1 (5 ∷ []) true history 1 true refl

services_have_bridges_example :
    (contains 2 (run numbers history (create numbers configuration 1 (5 ∷ []) true)).rpc_bridges
      ≡ contains 2
          (run numbers history (create numbers configuration 1 (5 ∷ []) true)).current_services)
    × Unique (run numbers history (create numbers configuration 1 (5 ∷ []) true)).current_services
services_have_bridges_example =
    services_have_bridges numbers configuration 1 (5 ∷ []) true history 2

-- A pipe that is enabled or not, refuses topic 1, and has one service.
abbrev serving : Bool → Pipe numbers
serving on = record {
  configuration = configuration;
  allowed_topics = 1;
  bridges = [];
  rpc_bridges = (2, false) ∷ [];
  current_topics = [];
  current_services = (2, true) ∷ [];
  enabled = on;
}

reload_switches_services_example :
    (lookup 2 (reload_allowed_topics numbers 2 (serving true)).0.current_services ≡ some false)
    × (lookup 2 (reload_allowed_topics numbers 2 (serving true)).0.rpc_bridges ≡ some false)
unfolding lookup dds_pipe.Base.ℕ_discrete
reload_switches_services_example =
    reload_switches_services numbers 2 2 true false (serving true) refl refl (refl, tt) refl refl

disable_leaves_services_applied :
    (lookup 2 (disable numbers (serving true)).0.rpc_bridges ≡ some false)
    × (lookup 2 (disable numbers (serving true)).0.current_services ≡ some true)
unfolding lookup dds_pipe.Base.ℕ_discrete
disable_leaves_services_applied = disable_leaves_services numbers 2 (serving true)

stale_service_enabled_applied :
    lookup 2 (enable numbers (reload_allowed_topics numbers 2 (serving false)).0).0.rpc_bridges
    ≡ some true
unfolding lookup dds_pipe.Base.ℕ_discrete
stale_service_enabled_applied =
    stale_service_enabled numbers 2 2 false (serving false) refl refl (refl, tt) refl refl

-- ===== src/Routing/Tests.antt =====
-- Three participants, of which `c` is a repeater, and a route from `a` to `b`.
use dds_pipe.Base.{
  ℕ, ◌≡◌, ◌⊎◌, refl, Bool, true, false, Option, none, some, List, [], ◌∷◌, string_key,
  ParticipantId, if◌then◌else◌, ◌==◌,
}
use dds_pipe.Map.{Map, lookup, Unique}
use dds_pipe.Routing.Defs.{
  Participants, DdsBridge, RoutesMap, create_all_tracks, create_writer, remove_writer, returns,
  throws,
}
use dds_pipe.Routing.Select.{writer_in, is_routed}
use dds_pipe.Routing.Tracks.{create_writer-routed, remove_writer-removes}
use dds_pipe.Routing.Valid.{create_all_tracks-routed, IsAsRouted, IsThrown}

abbrev examples : Participants
examples = record {
  Participant = ℕ × Bool;
  Reader = ℕ;
  Writer = ℕ;
  is_repeater = λ p. p.1;
  is_rtps_kind = λ p. true;
  make_reader = λ p. some p.0;
  make_writer = λ p. some p.0;
}

abbrev bridge : DdsBridge examples
bridge = record {
  routes = ("a", "b" ∷ []) ∷ [];
  participants = ("a", (1, false)) ∷ ("b", (2, false)) ∷ ("c", (3, true)) ∷ [];
  tracks = [];
  enabled = false;
}

create_all_tracks-routed_example :
    ((c : DdsBridge examples) × (create_all_tracks examples bridge ≡ returns c)
      × IsAsRouted examples bridge.routes "a" "c" (1, false) (3, true) c)
    ⊎ IsThrown examples bridge (create_all_tracks examples bridge)
unfolding lookup dds_pipe.Routing.Defs.are_valid_routes
    dds_pipe.Routing.Defs.get_participants_repeater_map dds_pipe.Base.string_dec
create_all_tracks-routed_example =
    create_all_tracks-routed examples bridge "a" "c" (1, false) (3, true) refl
      (refl, (refl, (refl, tt))) refl refl refl

abbrev with_b : DdsBridge examples
with_b = record bridge {
  tracks =
      ("a", record { reader = 1; writers = ("b", 2) ∷ []; enabled = false })
      ∷ ("c", record { reader = 3; writers = ("b", 2) ∷ []; enabled = false })
      ∷ [];
}

create_writer-routed_applied : writer_in examples "c" "b" with_b ≡ some 2
unfolding lookup dds_pipe.Base.string_dec create_writer dds_pipe.Map.insert dds_pipe.Map.erase
    is_routed
create_writer-routed_applied =
    create_writer-routed examples "b" (2, false) 2 bridge with_b "c" "b" (refl, (refl, (refl, tt)))
      refl refl refl

remove_writer-removes_applied :
    writer_in examples "a" "b" (remove_writer examples "b" with_b) ≡ none
unfolding lookup dds_pipe.Base.string_dec
remove_writer-removes_applied = remove_writer-removes examples "b" "a" "b" with_b (refl, (refl, tt))

-- Participant 9 throws when it is asked for a reader.
abbrev no_reader : Participants
no_reader = record examples { make_reader = λ p. if p.0 == 9 then none else some p.0 }

abbrev nine : DdsBridge no_reader
nine = record {
  routes = [];
  participants = ("a", (1, false)) ∷ ("b", (9, false)) ∷ [];
  tracks = [];
  enabled = false;
}

abbrev partial : DdsBridge no_reader
partial = record nine {
  tracks = ("a", record { reader = 1; writers = ("b", 9) ∷ []; enabled = false }) ∷ [];
}

thrown_midway : create_all_tracks no_reader nine ≡ throws partial
unfolding create_all_tracks lookup dds_pipe.Base.string_dec dds_pipe.Map.insert dds_pipe.Map.erase
thrown_midway = refl

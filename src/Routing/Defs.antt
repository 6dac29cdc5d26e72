-- ===== src/Routing/Defs.antt =====
-- The participants, the routes, and the tracks of a DdsBridge. A participant and what it creates are
-- parameters. What a track does to its reader and its writers is the matter of Track.
use dds_pipe.Base.{
  Bool, true, false, Option, none, some, List, [], ◌∷◌, ◌++◌, if◌then◌else◌, ite, ParticipantId,
  default_participant_id, string_key, length, ◌==◌, not,
}
use dds_pipe.Map.{Map, lookup, insert, erase, contains}

-- IParticipant: its methods that a bridge calls. The topic that `create_reader` and `create_writer`
-- take, with its Quality of Service, is theirs to read.
pub record Participants : Type 1 where
  pub Participant : Type 0
  pub Reader : Type 0
  pub Writer : Type 0
  pub is_repeater : Participant → Bool
  pub is_rtps_kind : Participant → Bool
  -- `create_reader` and `create_writer`; none is an InitializationException
  pub make_reader : Participant → Option Reader
  pub make_writer : Participant → Option Writer

-- A method returns, throws an InitializationException and leaves what it has done so far, or reads
-- through a null pointer.
pub data Outcome (A E : Type 0) : Type 0 where
  returns : A → Outcome A E
  throws : E → Outcome A E
  faults : Outcome A E

-- A set of identifiers, and a route for some of the readers
abbrev pub IdSet : Type 0
IdSet = List ParticipantId

abbrev pub RoutesMap : Type 0
RoutesMap = Map ParticipantId IdSet

abbrev pub same : ParticipantId → ParticipantId → Bool
same a b = ite (string_key.dec a b) true false

unfoldable pub member : ParticipantId → IdSet → Bool
member i [] = false
member i (j ∷ js) = ite (string_key.dec i j) true (member i js)

unfoldable pub remove : ParticipantId → IdSet → IdSet
remove i [] = []
remove i (j ∷ js) = ite (string_key.dec i j) (remove i js) (j ∷ remove i js)

module _ (x : Participants) where
  open x use {Participant, Reader, Writer, is_repeater, is_rtps_kind, make_reader, make_writer}

  abbrev pub Database : Type 0
  Database = Map ParticipantId Participant

  unfoldable pub get_participants_ids : Database → IdSet
  get_participants_ids [] = []
  get_participants_ids ((i, p) ∷ m) = i ∷ get_participants_ids m

  unfoldable pub get_rtps_participants_ids : Database → IdSet
  get_rtps_participants_ids [] = []
  get_rtps_participants_ids ((i, p) ∷ m) =
      if is_rtps_kind p then i ∷ get_rtps_participants_ids m else get_rtps_participants_ids m

  unfoldable pub get_participants_repeater_map : Database → Map ParticipantId Bool
  get_participants_repeater_map [] = []
  get_participants_repeater_map ((i, p) ∷ m) = (i, is_repeater p) ∷ get_participants_repeater_map m

  -- It throws where the identifier is taken.
  unfoldable pub add_participant : ParticipantId → Participant → Database → Option Database
  add_participant i p m = if contains i m then none else some (insert i p m)

  -- The loop over the destinations of a route in RoutesConfiguration::is_valid
  unfoldable pub are_valid_destinations :
      ParticipantId → Bool → IdSet → Map ParticipantId Bool → Bool
  are_valid_destinations src repeater [] m = true
  are_valid_destinations src repeater (dst ∷ dsts) m =
      if not (contains dst m)
      then false
      else if (if same dst src then not repeater else false)
      then false
      else are_valid_destinations src repeater dsts m

  unfoldable pub are_valid_routes : RoutesMap → Map ParticipantId Bool → Bool
  unfolding are_valid_destinations
  are_valid_routes [] m = true
  are_valid_routes ((src, dsts) ∷ routes) m = elim (lookup src m) [
    | none ↦ false
    | some repeater ↦
        if are_valid_destinations src repeater dsts m then are_valid_routes routes m else false
  ]

  pub record Track : Type 0 where
    pub reader : Reader
    pub writers : Map ParticipantId Writer
    pub enabled : Bool

  pub record DdsBridge : Type 0 where
    pub routes : RoutesMap
    pub participants : Database
    pub tracks : Map ParticipantId Track
    pub enabled : Bool

  unfoldable pub set_all : Bool → Map ParticipantId Track → Map ParticipantId Track
  set_all on [] = []
  set_all on ((i, t) ∷ m) = (i, record t { enabled = on }) ∷ set_all on m

  unfoldable pub enable : DdsBridge → DdsBridge
  unfolding set_all
  enable b =
      if not b.enabled then record b { tracks = set_all true b.tracks; enabled = true } else b

  unfoldable pub disable : DdsBridge → DdsBridge
  unfolding set_all
  disable b = if b.enabled then record b { tracks = set_all false b.tracks; enabled = false } else b

  -- The writers that the reader of a participant wants: `p` is the participant under `id`.
  unfoldable pub writers_for_reader : RoutesMap → IdSet → ParticipantId → Participant → IdSet
  unfolding remove
  writers_for_reader routes ids id p = elim (lookup id routes) [
    | some writers_ids ↦ writers_ids
    | none ↦ if not (is_repeater p) then remove id ids else ids
  ]

  unfoldable pub writers_to_create : RoutesMap → IdSet → Database → IdSet
  unfolding writers_for_reader
  writers_to_create routes ids [] = []
  writers_to_create routes ids ((id, p) ∷ m) =
      writers_for_reader routes ids id p ++ writers_to_create routes ids m

  -- The participant of an identifier must exist: the code reads through the pointer.
  unfoldable pub create_writers : IdSet → Database → Outcome (Map ParticipantId Writer) Unit
  create_writers [] m = returns []
  create_writers (id ∷ ids) m =
      let rest = create_writers ids m in
      elim (lookup id m) [
        | none ↦ faults
        | some p ↦ elim (make_writer p) [
          | none ↦ throws tt
          | some v ↦ elim rest [
            | returns writers ↦ returns (insert id v writers)
            | throws e ↦ throws e
            | faults ↦ faults
          ]
        ]
      ]

  unfoldable pub writers_in_route : IdSet → Map ParticipantId Writer → Map ParticipantId Writer
  writers_in_route [] writers = []
  writers_in_route (w ∷ ws) writers =
      let rest = writers_in_route ws writers in
      elim (lookup w writers) [ none ↦ rest | some v ↦ insert w v rest ]

  unfoldable pub writers_of_track :
      RoutesMap → ParticipantId → Participant → Map ParticipantId Writer → Map ParticipantId Writer
  unfolding writers_in_route
  writers_of_track routes id p writers = elim (lookup id routes) [
    | some route ↦ writers_in_route route writers
    | none ↦ if not (is_repeater p) then erase id writers else writers
  ]

  unfoldable pub add_missing :
      Map ParticipantId Writer → Map ParticipantId Writer → Map ParticipantId Writer
  add_missing [] writers = writers
  add_missing ((w, v) ∷ m) writers =
      add_missing m (if not (contains w writers) then insert w v writers else writers)

  -- The body of the loop of `add_writers_to_tracks_nts_`
  unfoldable pub add_writers_to_track :
      Map ParticipantId Writer
      → ParticipantId
      → Participant
      → DdsBridge
      → Outcome DdsBridge DdsBridge
  unfolding writers_of_track add_missing
  add_writers_to_track writers id p b =
      let wanted = writers_of_track b.routes id p writers in
      if length wanted == 0 then returns b else elim (lookup id b.tracks) [
        | some t ↦ returns (record b {
          tracks = insert id (record t { writers = add_missing wanted t.writers }) b.tracks;
        })
        | none ↦ elim (make_reader p) [
          | none ↦ throws b
          | some reader ↦ returns (record b {
            tracks =
                insert id (record { reader = reader; writers = wanted; enabled = b.enabled })
                  b.tracks;
          })
        ]
      ]

  unfoldable pub add_writers_to_tracks :
      Database → Map ParticipantId Writer → DdsBridge → Outcome DdsBridge DdsBridge
  unfolding add_writers_to_track
  add_writers_to_tracks [] writers b = returns b
  add_writers_to_tracks ((id, p) ∷ m) writers b = elim (add_writers_to_track writers id p b) [
    | returns c ↦ add_writers_to_tracks m writers c
    | throws c ↦ throws c
    | faults ↦ faults
  ]

  unfoldable pub create_all_tracks : DdsBridge → Outcome DdsBridge DdsBridge
  unfolding writers_to_create create_writers add_writers_to_tracks get_participants_ids
  create_all_tracks b =
      let ids = get_participants_ids b.participants in
      elim (create_writers (writers_to_create b.routes ids b.participants) b.participants) [
        | returns writers ↦ add_writers_to_tracks b.participants writers b
        | throws e ↦ throws b
        | faults ↦ faults
      ]

  unfoldable pub create_writer : ParticipantId → DdsBridge → Outcome DdsBridge DdsBridge
  unfolding add_writers_to_tracks
  create_writer id b = elim (lookup id b.participants) [
    | none ↦ faults
    | some p ↦ elim (make_writer p) [
      | none ↦ throws b
      | some v ↦ add_writers_to_tracks b.participants ((id, v) ∷ []) b
    ]
  ]

  -- The loop of `remove_writer`: a track that is left without a writer goes.
  unfoldable pub remove_from_tracks :
      ParticipantId → Map ParticipantId Track → Map ParticipantId Track
  remove_from_tracks id [] = []
  remove_from_tracks id ((r, t) ∷ m) =
      let left = erase id t.writers in
      if length left == 0
      then remove_from_tracks id m
      else (r, record t { writers = left }) ∷ remove_from_tracks id m

  unfoldable pub remove_writer : ParticipantId → DdsBridge → DdsBridge
  unfolding remove_from_tracks
  remove_writer id b = record b { tracks = remove_from_tracks id b.tracks }

  -- The members that the constructor starts with
  abbrev pub new_bridge : RoutesMap → Database → DdsBridge
  new_bridge routes participants = record {
    routes = routes;
    participants = participants;
    tracks = [];
    enabled = false;
  }

  -- The constructor, for a topic that `discoverer` has discovered
  unfoldable pub create : RoutesMap → Database → Bool → ParticipantId → Outcome DdsBridge DdsBridge
  unfolding create_writer create_all_tracks
  create routes participants remove_unused_entities discoverer =
      let b = new_bridge routes participants in
      if (if remove_unused_entities then not (same discoverer default_participant_id) else false)
      then create_writer discoverer b
      else create_all_tracks b

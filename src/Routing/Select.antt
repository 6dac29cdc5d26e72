-- ===== src/Routing/Select.antt =====
-- Which writers a track gets.
use dds_pipe.Base.{
  ◌≡◌, ◌⊎◌, refl, Bool, true, Option, none, some, [], ◌∷◌, if◌then◌else◌, ite, ParticipantId,
  string_key, length, ◌==◌, Option-cases, Bool-cases, inl, inr, arith,
}
use dds_pipe.Map.{Map, lookup, insert, contains, lookup-insert, lookup-erase}
use dds_pipe.Routing.Defs.{
  Participants, IdSet, RoutesMap, same, member, DdsBridge, writers_in_route, writers_of_track,
  add_missing, add_writers_to_track, returns, throws,
}

module _ (x : Participants) where
  open x use {Participant, Reader, Writer, is_repeater, make_reader}

  -- The rule for the writer of `w` in the track of the reader of `r`.
  unfoldable pub is_routed : RoutesMap → ParticipantId → Participant → ParticipantId → Bool
  unfolding member
  is_routed routes r p w = elim (lookup r routes) [
    | some route ↦ member w route
    | none ↦ if same w r then is_repeater p else true
  ]

  writers_in_route-lookup :
      (ws : IdSet) (writers : Map ParticipantId Writer) (w : ParticipantId)
      → lookup w (writers_in_route x ws writers) ≡ (if member w ws then lookup w writers else none)
  unfolding writers_in_route member lookup
  writers_in_route-lookup [] writers w = refl
  writers_in_route-lookup (v ∷ vs) writers w = elim (Option-cases (lookup v writers)) [
    | inl absent ↦ ground (arith, absent, writers_in_route-lookup vs writers w)
    | inr (a, there) ↦ ground (
      arith,
      there,
      writers_in_route-lookup vs writers w,
      lookup-insert w v a (writers_in_route x vs writers),
    )
  ]

  pub writers_of_track-lookup :
      (routes : RoutesMap) (r : ParticipantId) (p : Participant)
      (writers : Map ParticipantId Writer) (w : ParticipantId)
      → lookup w (writers_of_track x routes r p writers)
        ≡ (if is_routed routes r p w then lookup w writers else none)
  unfolding writers_of_track is_routed
  writers_of_track-lookup routes r p writers w = elim (Option-cases (lookup r routes)) [
    | inl free ↦ ground (arith, free, lookup-erase w r writers)
    | inr (route, fixed) ↦ ground (arith, fixed, writers_in_route-lookup route writers w)
  ]

  -- The first of two values, if there is one.
  abbrev pub or_else : Option Writer → Option Writer → Option Writer
  or_else none o = o
  or_else (some a) o = some a

  add_missing-lookup :
      (new old : Map ParticipantId Writer) (w : ParticipantId)
      → lookup w (add_missing x new old) ≡ or_else (lookup w old) (lookup w new)
  unfolding add_missing lookup
  add_missing-lookup [] old w = ground arith
  add_missing-lookup ((v, a) ∷ m) old w = elim (Bool-cases (contains v old)) [
    | inl there ↦ ground (arith, there, add_missing-lookup m old w)
    | inr absent ↦
        ground (arith, absent, add_missing-lookup m (insert v a old) w, lookup-insert w v a old)
  ]

  -- The writer of `w` in the track of `r`.
  abbrev pub writer_in : ParticipantId → ParticipantId → DdsBridge x → Option Writer
  writer_in r w b = elim (lookup r b.tracks) [ none ↦ none | some t ↦ lookup w t.writers ]

  pub lookup-empty :
      (m : Map ParticipantId Writer) (w : ParticipantId)
      → (length m == 0) ≡ true
      → lookup w m ≡ none
  unfolding lookup
  lookup-empty [] w e = refl
  lookup-empty ((v, a) ∷ m) w e = ground (arith, e)

  -- A step of the loop returns, or throws where a new track has no reader.
  pub add_writers_to_track-ends :
      (writers : Map ParticipantId Writer) (id : ParticipantId) (p : Participant) (b : DdsBridge x)
      → ((c : DdsBridge x) × (add_writers_to_track x writers id p b ≡ returns c))
        ⊎ ((c : DdsBridge x) × (add_writers_to_track x writers id p b ≡ throws c)
            × (make_reader p ≡ none))
  unfolding add_writers_to_track
  add_writers_to_track-ends writers id p b =
      let wanted = writers_of_track x b.routes id p writers in
      elim (Bool-cases (length wanted == 0)) [
        | inl nothing ↦ inl (b, ground (arith, nothing))
        | inr something ↦ elim (Option-cases (lookup id b.tracks)) [
          | inl new ↦ elim (Option-cases (make_reader p)) [
            | inl gone ↦ inr (b, ground (arith, something, new, gone), gone)
            | inr (reader, made) ↦ inl (
              record b {
                tracks =
                    insert id (record { reader = reader; writers = wanted; enabled = b.enabled })
                      b.tracks;
              },
              ground (arith, something, new, made),
            )
          ]
          | inr (t, there) ↦ inl (
            record b {
              tracks = insert id (record t { writers = add_missing x wanted t.writers }) b.tracks;
            },
            ground (arith, something, there),
          )
        ]
      ]

  pub add_writers_to_track-writer :
      (writers : Map ParticipantId Writer) (id : ParticipantId) (p : Participant) (b : DdsBridge x)
      (c : DdsBridge x) (r w : ParticipantId)
      → add_writers_to_track x writers id p b ≡ returns c
      → writer_in r w c
        ≡ or_else (writer_in r w b) (
            ite
              (string_key.dec r id)
              (if is_routed b.routes id p w then lookup w writers else none)
              none)
  unfolding add_writers_to_track
  add_writers_to_track-writer writers id p b c r w e =
      let wanted = writers_of_track x b.routes id p writers in
      elim (Bool-cases (length wanted == 0)) [
        | inl nothing ↦ ground (
          arith,
          e,
          nothing,
          lookup-empty wanted w nothing,
          writers_of_track-lookup b.routes id p writers w,
        )
        | inr something ↦ elim (Option-cases (lookup id b.tracks)) [
          | inl new ↦ elim (Option-cases (make_reader p)) [
            | inl gone ↦ ground (arith, e, something, new, gone)
            | inr (reader, made) ↦ ground (
              arith,
              e,
              something,
              new,
              made,
              writers_of_track-lookup b.routes id p writers w,
              lookup-insert r id (record { reader = reader; writers = wanted; enabled = b.enabled })
                  b.tracks,
            )
          ]
          | inr (t, there) ↦ ground (
            arith,
            e,
            something,
            there,
            writers_of_track-lookup b.routes id p writers w,
            add_missing-lookup wanted t.writers w,
            lookup-insert r id (record t { writers = add_missing x wanted t.writers }) b.tracks,
          )
        ]
      ]

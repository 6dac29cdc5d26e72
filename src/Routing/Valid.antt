-- ===== src/Routing/Valid.antt =====
-- `create_all_tracks_` of communication/dds/DdsBridge.cpp under routes that are valid.
use dds_pipe.Base.{
  ◌≡◌, ◌⊎◌, refl, sym, ◌∙◌, Bool, true, false, none, some, [], ◌∷◌, ◌++◌, if◌then◌else◌, ite,
  ParticipantId, string_key, Option-cases, Bool-cases, inl, inr, arith,
}
use dds_pipe.Map.{Map, lookup, insert, contains, lookup-insert, Unique}
use dds_pipe.Routing.Defs.{
  Participants, IdSet, RoutesMap, member, remove, Database, DdsBridge, add_writers_to_tracks,
  create_writers, writers_to_create, writers_for_reader, create_all_tracks, are_valid_routes,
  are_valid_destinations, get_participants_ids, get_participants_repeater_map, Outcome, returns,
  throws,
}
use dds_pipe.Routing.Select.{is_routed, writer_in}
use dds_pipe.Routing.Tracks.{add_writers_to_tracks-writer, add_writers_to_tracks-ends, CannotRead}

module _ (x : Participants) where
  open x use {Participant, Reader, Writer, is_repeater, make_writer}

  repeater_map-contains :
      (i : ParticipantId) (m : Database x)
      → contains i (get_participants_repeater_map x m) ≡ contains i m
  unfolding get_participants_repeater_map lookup
  repeater_map-contains i [] = refl
  repeater_map-contains i ((j, p) ∷ m) = ground (arith, repeater_map-contains i m)

  ids-member :
      (i : ParticipantId) (m : Database x) → member i (get_participants_ids x m) ≡ contains i m
  unfolding get_participants_ids member lookup
  ids-member i [] = refl
  ids-member i ((j, p) ∷ m) = ground (arith, ids-member i m)

  member-append :
      (i : ParticipantId) (is js : IdSet)
      → member i (is ++ js) ≡ (if member i is then true else member i js)
  unfolding member
  member-append i [] js = refl
  member-append i (k ∷ ks) js = ground (arith, member-append i ks js)

  member-remove :
      (i j : ParticipantId) (js : IdSet)
      → member i (remove j js) ≡ ite (string_key.dec i j) false (member i js)
  unfolding member remove
  member-remove i j [] = ground arith
  member-remove i j (k ∷ ks) = ground (arith, member-remove i j ks)

  destination_exists :
      (src : ParticipantId) (a : Bool) (ws : IdSet) (m : Map ParticipantId Bool) (w : ParticipantId)
      → are_valid_destinations x src a ws m ≡ true
      → member w ws ≡ true
      → contains w m ≡ true
  unfolding are_valid_destinations member
  destination_exists src a [] m w v h = ground (arith, h)
  destination_exists src a (d ∷ ds) m w v h = ground (arith, destination_exists src a ds m w, v, h)

  route_exists :
      (routes : RoutesMap) (m : Map ParticipantId Bool) (r w : ParticipantId) (ws : IdSet)
      → are_valid_routes x routes m ≡ true
      → lookup r routes ≡ some ws
      → member w ws ≡ true
      → contains w m ≡ true
  unfolding are_valid_routes lookup
  route_exists [] m r w ws v e h = ground (arith, e)
  route_exists ((s, ds) ∷ routes) m r w ws v e h = elim (Option-cases (lookup s m)) [
    | inl absent ↦ ground (arith, absent, v)
    | inr (a, there) ↦
        ground (arith, there, v, e, h, route_exists routes m r w ws, destination_exists s a ds m w)
  ]

  for_reader-member :
      (routes : RoutesMap) (ids : IdSet) (r : ParticipantId) (p : Participant) (w : ParticipantId)
      → member w (writers_for_reader x routes ids r p) ≡ (
          if is_routed x routes r p w
          then (elim (lookup r routes) [ none ↦ member w ids | some ws ↦ true ])
          else false)
  unfolding writers_for_reader is_routed
  for_reader-member routes ids r p w = elim (Option-cases (lookup r routes)) [
    | inl free ↦ ground (arith, free, member-remove w r ids)
    | inr (ws, fixed) ↦ ground (arith, fixed)
  ]

  for_reader-fixed :
      (routes : RoutesMap) (ids : IdSet) (r : ParticipantId) (p : Participant) (w : ParticipantId)
      (ws : IdSet)
      → lookup r routes ≡ some ws
      → member w (writers_for_reader x routes ids r p) ≡ member w ws
  unfolding writers_for_reader
  for_reader-fixed routes ids r p w ws fixed = ground (arith, fixed)

  -- A writer that a track asks for is created.
  routed_created :
      (routes : RoutesMap) (ids : IdSet) (m : Database x) (r w : ParticipantId) (p : Participant)
      → lookup r m ≡ some p
      → is_routed x routes r p w ≡ true
      → member w ids ≡ true
      → member w (writers_to_create x routes ids m) ≡ true
  unfolding writers_to_create lookup
  routed_created routes ids [] r w p e routed h = ground (arith, e)
  routed_created routes ids ((s, q) ∷ m) r w p e routed h = ground (
    arith,
    e,
    routed,
    h,
    routed_created routes ids m r w p,
    member-append w (writers_for_reader x routes ids s q) (writers_to_create x routes ids m),
    for_reader-member routes ids s q w,
  )

  -- A writer that is created has a participant.
  created_exists :
      (routes : RoutesMap) (all m : Database x) (w : ParticipantId)
      → are_valid_routes x routes (get_participants_repeater_map x all) ≡ true
      → member w (writers_to_create x routes (get_participants_ids x all) m) ≡ true
      → contains w all ≡ true
  unfolding writers_to_create member
  created_exists routes all [] w v h = ground (arith, h)
  created_exists routes all ((s, q) ∷ m) w v h =
      elim (Bool-cases (member w (writers_for_reader x routes (get_participants_ids x all) s q))) [
        | inl wanted ↦ elim (Option-cases (lookup s routes)) [
          | inl free ↦ ground (
            arith,
            free,
            wanted,
            for_reader-member routes (get_participants_ids x all) s q w,
            ids-member w all,
          )
          | inr (ws, fixed) ↦
              sym (repeater_map-contains w all)
              ∙ route_exists routes (get_participants_repeater_map x all) s w ws v fixed (
                  sym (for_reader-fixed routes (get_participants_ids x all) s q w ws fixed)
                  ∙ wanted)
        ]
        | inr other ↦ created_exists routes all m w v (
            ground (
              arith,
              h,
              other,
              member-append w (writers_for_reader x routes (get_participants_ids x all) s q)
                  (writers_to_create x routes (get_participants_ids x all) m),
            ))
      ]

  -- A participant for which `create_writer` throws
  abbrev pub CannotWrite : Database x → Type 0
  CannotWrite m =
      (i : ParticipantId) × (o : Participant) × (lookup i m ≡ some o) × (make_writer o ≡ none)

  -- The writers of some participants, as the participants make them
  abbrev AreMade : IdSet → Database x → Map ParticipantId Writer → Type 0
  AreMade ids m writers =
      (w : ParticipantId) (q : Participant)
      → member w ids ≡ true
      → lookup w m ≡ some q
      → (v : Writer) × (make_writer q ≡ some v) × (lookup w writers ≡ some v)

  AreMade-insert :
      (i : ParticipantId) (is : IdSet) (m : Database x) (p : Participant) (v : Writer)
      (writers : Map ParticipantId Writer)
      → lookup i m ≡ some p
      → make_writer p ≡ some v
      → AreMade is m writers
      → AreMade (i ∷ is) m (insert i v writers)
  unfolding member lookup
  AreMade-insert i is m p v writers there made each w q k e = elim (string_key.dec w i) [
    | yes same ↦
        let q_made : make_writer q ≡ some v = ground (arith, same, there, made, e) in
        (v, q_made, ground (arith, same, lookup-insert w i v writers))
    | no other ↦
        let (u, q_made, found) = each w q (ground (arith, other, k)) e in
        (u, q_made, ground (arith, other, found, lookup-insert w i v writers))
  ]

  create_writers-ends :
      (ids : IdSet) (m : Database x)
      → ((w : ParticipantId) → member w ids ≡ true → contains w m ≡ true)
      → ((writers : Map ParticipantId Writer) × (create_writers x ids m ≡ returns writers)
          × AreMade ids m writers)
        ⊎ ((create_writers x ids m ≡ throws tt) × CannotWrite m)
  unfolding create_writers member
  create_writers-ends [] m h = inl ([], refl, λ w q k e. ground (arith, k))
  create_writers-ends (i ∷ is) m h = elim (Option-cases (lookup i m)) [
    | inl absent ↦ ground (arith, absent, h i)
    | inr (p, there) ↦ elim (Option-cases (make_writer p)) [
      | inl gone ↦ inr (ground (arith, there, gone), (i, p, there, gone))
      | inr (v, made) ↦ elim (create_writers-ends is m (λ w k. h w (ground (arith, k)))) [
        | inl (writers, e, each) ↦ inl (
          insert i v writers,
          ground (arith, there, made, e),
          AreMade-insert i is m p v writers there made each,
        )
        | inr (e, gone) ↦ inr (ground (arith, there, made, e), gone)
      ]
    ]
  ]

  no_track : (b : DdsBridge x) → b.tracks ≡ [] → (r w : ParticipantId) → writer_in x r w b ≡ none
  unfolding lookup
  no_track b empty r w = rw empty refl

  -- The track of a reader has the writer of a participant as the routes say.
  abbrev pub IsAsRouted :
      RoutesMap → ParticipantId → ParticipantId → Participant → Participant → DdsBridge x → Type 0
  IsAsRouted routes r w p q c =
      ((is_routed x routes r p w ≡ true)
        × ((v : Writer) × (make_writer q ≡ some v) × (writer_in x r w c ≡ some v)))
      ⊎ ((is_routed x routes r p w ≡ false) × (writer_in x r w c ≡ none))

  -- An InitializationException, for want of a writer or a reader
  abbrev pub IsThrown : DdsBridge x → Outcome (DdsBridge x) (DdsBridge x) → Type 0
  IsThrown b o =
      ((c : DdsBridge x) × (o ≡ throws c))
      × (CannotWrite b.participants ⊎ CannotRead x b.participants)

  module _ (b : DdsBridge x) (r w : ParticipantId) (p q : Participant) (u : Unique b.participants)
      (empty : b.tracks ≡ []) (there : lookup r b.participants ≡ some p)
      (here : lookup w b.participants ≡ some q) where
    made-IsAsRouted :
        (writers : Map ParticipantId Writer) (c : DdsBridge x)
        → AreMade
            (writers_to_create x b.routes (get_participants_ids x b.participants) b.participants)
            b.participants
            writers
        → add_writers_to_tracks x b.participants writers b ≡ returns c
        → IsAsRouted b.routes r w p q c
    made-IsAsRouted writers c each e =
        let found = add_writers_to_tracks-writer x b.participants writers b c r w u e in
        elim (Bool-cases (is_routed x b.routes r p w)) [
          | inl routed ↦
              let ids = get_participants_ids x b.participants in
              let (v, made, created) =
                each w q
                  (routed_created b.routes ids b.participants r w p there routed
                    (ids-member w b.participants ∙ ground (arith, here)))
                  here in
              inl (
                routed,
                (
                  v,
                  made,
                  ground (arith, there, routed, created, empty, no_track b empty r w, found),
                ),
              )
          | inr other ↦ inr (other, ground (arith, there, other, no_track b empty r w, found))
        ]

  -- With valid routes, and a database that has each identifier once, `create_all_tracks` on a bridge
  -- without tracks returns a bridge, or it throws, and then some participant throws when it is asked
  -- for a writer or for a reader. In a bridge that it returns, the track of a participant's reader
  -- has the writer of a participant exactly when the route of the reader names the writer, or, where
  -- the reader has no route, when the two participants differ or the participant is a repeater.
  pub create_all_tracks-routed :
      (b : DdsBridge x) (r w : ParticipantId) (p q : Participant)
      → are_valid_routes x b.routes (get_participants_repeater_map x b.participants) ≡ true
      → Unique b.participants
      → b.tracks ≡ []
      → lookup r b.participants ≡ some p
      → lookup w b.participants ≡ some q
      → ((c : DdsBridge x) × (create_all_tracks x b ≡ returns c) × IsAsRouted b.routes r w p q c)
        ⊎ IsThrown b (create_all_tracks x b)
  unfolding create_all_tracks
  create_all_tracks-routed b r w p q valid u empty there here =
      elim (create_writers-ends
        (writers_to_create x b.routes (get_participants_ids x b.participants) b.participants)
        b.participants (λ v. created_exists b.routes b.participants b.participants v valid)) [
          | inr (e, gone) ↦ inr ((b, ground (arith, e)), inl gone)
          | inl (writers, e, each) ↦
              elim (add_writers_to_tracks-ends x b.participants writers b u) [
                | inl (c, finished) ↦ inl (
                  c,
                  ground (arith, e, finished),
                  made-IsAsRouted b r w p q u empty there here writers c each finished,
                )
                | inr (c, thrown, gone) ↦ inr ((c, ground (arith, e, thrown)), inr gone)
              ]
        ]

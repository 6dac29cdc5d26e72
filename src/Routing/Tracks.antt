-- ===== src/Routing/Tracks.antt =====
-- `create_writer` and `remove_writer` of communication/dds/DdsBridge.cpp, by track.
use dds_pipe.Base.{
  ◌≡◌, ◌⊎◌, refl, none, some, [], ◌∷◌, if◌then◌else◌, ite, ParticipantId, string_key, length, ◌==◌,
  Bool-cases, inl, inr, arith,
}
use dds_pipe.Map.{Map, lookup, erase, lookup-erase, Unique}
use dds_pipe.Routing.Defs.{
  Participants, Database, Track, DdsBridge, add_writers_to_track, add_writers_to_tracks,
  create_writer, remove_writer, remove_from_tracks, returns, throws,
}
use dds_pipe.Routing.Select.{
  is_routed, or_else, writer_in, add_writers_to_track-writer, add_writers_to_track-ends,
  lookup-empty,
}

module _ (x : Participants) where
  open x use {Participant, Reader, Writer, is_repeater, make_reader, make_writer}

  step-routes :
      (writers : Map ParticipantId Writer) (id : ParticipantId) (p : Participant)
      (b c : DdsBridge x)
      → add_writers_to_track x writers id p b ≡ returns c
      → c.routes ≡ b.routes
  unfolding add_writers_to_track
  step-routes writers id p b c e = ground (arith, e)

  -- What the loop over the participants adds to each track.
  pub add_writers_to_tracks-writer :
      (m : Database x) (writers : Map ParticipantId Writer) (b c : DdsBridge x)
      (r w : ParticipantId)
      → Unique m
      → add_writers_to_tracks x m writers b ≡ returns c
      → writer_in x r w c
        ≡ or_else x (writer_in x r w b) (elim (lookup r m) [
          | none ↦ none
          | some p ↦ if is_routed x b.routes r p w then lookup w writers else none
        ])
  unfolding add_writers_to_tracks lookup
  add_writers_to_tracks-writer [] writers b c r w u e = ground (arith, e)
  add_writers_to_tracks-writer ((id, p) ∷ m) writers b c r w u e =
      elim (add_writers_to_track-ends x writers id p b) [
        | inr (d, thrown, no_reader) ↦ ground (arith, thrown, e)
        | inl (d, done) ↦ ground (
          arith,
          done,
          add_writers_to_tracks-writer m writers d c r w u.1 (ground (arith, done, e)),
          add_writers_to_track-writer x writers id p b d r w done,
          step-routes writers id p b d done,
          u,
        )
      ]

  -- A participant for which `create_reader` throws
  abbrev pub CannotRead : Database x → Type 0
  CannotRead m =
      (i : ParticipantId) × (o : Participant) × (lookup i m ≡ some o) × (make_reader o ≡ none)

  CannotRead-later :
      (id : ParticipantId) (p : Participant) (m : Database x)
      → lookup id m ≡ none
      → CannotRead m
      → CannotRead ((id, p) ∷ m)
  unfolding lookup
  CannotRead-later id p m new (i, o, there, gone) = (i, o, ground (arith, new, there), gone)

  -- The loop over the participants returns, or throws for want of a reader.
  pub add_writers_to_tracks-ends :
      (m : Database x) (writers : Map ParticipantId Writer) (b : DdsBridge x)
      → Unique m
      → ((c : DdsBridge x) × (add_writers_to_tracks x m writers b ≡ returns c))
        ⊎ ((c : DdsBridge x) × (add_writers_to_tracks x m writers b ≡ throws c) × CannotRead m)
  unfolding add_writers_to_tracks lookup
  add_writers_to_tracks-ends [] writers b u = inl (b, refl)
  add_writers_to_tracks-ends ((id, p) ∷ m) writers b u =
      elim (add_writers_to_track-ends x writers id p b) [
        | inr (d, thrown, gone) ↦ inr (d, ground (arith, thrown), (id, p, ground arith, gone))
        | inl (d, done) ↦ elim (add_writers_to_tracks-ends m writers d u.1) [
          | inl (c, e) ↦ inl (c, ground (arith, done, e))
          | inr (c, e, gone) ↦
              inr (c, ground (arith, done, e), CannotRead-later id p m (ground (arith, u)) gone)
        ]
      ]

  -- When `create_writer` returns, a track has the writers that it had, and the new one where its
  -- participant exists and its route asks for the new writer.
  pub create_writer-routed :
      (id : ParticipantId) (q : Participant) (v : Writer) (b c : DdsBridge x) (r w : ParticipantId)
      → Unique b.participants
      → lookup id b.participants ≡ some q
      → make_writer q ≡ some v
      → create_writer x id b ≡ returns c
      → writer_in x r w c
        ≡ or_else x (writer_in x r w b) (elim (lookup r b.participants) [
          | none ↦ none
          | some p ↦
              if is_routed x b.routes r p w then ite (string_key.dec w id) (some v) none else none
        ])
  unfolding create_writer lookup
  create_writer-routed id q v b c r w u there made e = ground (
    arith,
    there,
    add_writers_to_tracks-writer b.participants ((id, v) ∷ []) b c r w u
        (ground (arith, there, made, e)),
  )

  remove_from_tracks-none :
      (id r : ParticipantId) (m : Map ParticipantId (Track x))
      → lookup r m ≡ none
      → lookup r (remove_from_tracks x id m) ≡ none
  unfolding remove_from_tracks lookup
  remove_from_tracks-none id r [] e = refl
  remove_from_tracks-none id r ((s, t) ∷ m) e = ground (arith, remove_from_tracks-none id r m, e)

  removed :
      (id r w : ParticipantId) (m : Map ParticipantId (Track x))
      → Unique m
      → (elim (lookup r (remove_from_tracks x id m)) [ none ↦ none | some t ↦ lookup w t.writers ])
        ≡ ite
            (string_key.dec w id)
            none
            (elim (lookup r m) [ none ↦ none | some t ↦ lookup w t.writers ])
  unfolding remove_from_tracks lookup
  removed id r w [] d = ground arith
  removed id r w ((s, t) ∷ m) d = elim (Bool-cases (length (erase id t.writers) == 0)) [
    | inl empty ↦ ground (
      arith,
      empty,
      removed id r w m d.1,
      d,
      remove_from_tracks-none id r m,
      lookup-empty x (erase id t.writers) w empty,
      lookup-erase w id t.writers,
    )
    | inr some_left ↦ ground (arith, some_left, removed id r w m d.1, lookup-erase w id t.writers)
  ]

  -- After `remove_writer`, no track has the writer, and each has its other writers.
  pub remove_writer-removes :
      (id r w : ParticipantId) (b : DdsBridge x)
      → Unique b.tracks
      → writer_in x r w (remove_writer x id b) ≡ ite (string_key.dec w id) none (writer_in x r w b)
  unfolding remove_writer
  remove_writer-removes id r w b u = removed id r w b.tracks u

-- ===== src/Endpoints/Multi.antt =====
-- MultiWriter (writer/rtps/MultiWriter.cpp): a writer for each Quality of Service that data comes with.
-- The writer for one of these, QoSSpecificWriter, is a parameter with what MultiWriter relies on.
use dds_pipe.Base.{
  ◌≡◌, refl, Bool, true, false, none, some, List, [], ◌∷◌, if◌then◌else◌, arith, Key, ite,
  ReturnCode, not_enabled, Option-cases, inl, inr, not, Bool-cases,
}
use dds_pipe.Map.{Map, lookup, insert, lookup-insert}

pub record QosWriters : Type 1 where
  pub Qos : Type 0
  pub qos_key : Key Qos
  pub Data : Type 0
  pub writer_qos : Data → Qos
  pub Writer : Type 0
  pub make : Qos → Writer
  pub enable_writer : Writer → Writer
  pub disable_writer : Writer → Writer
  pub write_data : Data → Writer → ReturnCode × Writer
  pub is_enabled : Writer → Bool
  pub make_disabled : (q : Qos) → is_enabled (make q) ≡ false
  pub enable_enabled : (w : Writer) → is_enabled (enable_writer w) ≡ true
  pub disable_disabled : (w : Writer) → is_enabled (disable_writer w) ≡ false
  pub write_enabled : (d : Data) (w : Writer) → is_enabled (write_data d w).1 ≡ is_enabled w

module _ (x : QosWriters) where
  open x use {
    Qos, Data, Writer, writer_qos, make, enable_writer, disable_writer, write_data, is_enabled,
    make_disabled, enable_enabled, disable_disabled, write_enabled,
  }

  instance abbrev qos_key : Key Qos
  qos_key = x.qos_key

  pub record MultiWriter : Type 0 where
    pub enabled : Bool
    pub writers_map : Map Qos Writer

  abbrev pub create : MultiWriter
  create = record { enabled = false; writers_map = [] }

  unfoldable pub on_all : (Writer → Writer) → Map Qos Writer → Map Qos Writer
  on_all f [] = []
  on_all f ((q, w) ∷ m) = (q, f w) ∷ on_all f m

  unfoldable pub enable : MultiWriter → MultiWriter
  unfolding on_all
  enable m =
      if not m.enabled
      then record { enabled = true; writers_map = on_all enable_writer m.writers_map }
      else m

  unfoldable pub disable : MultiWriter → MultiWriter
  unfolding on_all
  disable m =
      if m.enabled
      then record { enabled = false; writers_map = on_all disable_writer m.writers_map }
      else m

  unfoldable pub get_writer_or_create : Qos → MultiWriter → Writer × MultiWriter
  get_writer_or_create q m = elim (lookup q m.writers_map) [
    | some w ↦ (w, m)
    | none ↦
        let w = if m.enabled then enable_writer (make q) else make q in
        (w, record m { writers_map = insert q w m.writers_map })
  ]

  unfoldable pub write_nts : Data → MultiWriter → ReturnCode × MultiWriter
  unfolding get_writer_or_create
  write_nts d m =
      let (w, n) = get_writer_or_create (writer_qos d) m in
      let (code, v) = write_data d w in
      (code, record n { writers_map = insert (writer_qos d) v n.writers_map })

  -- BaseWriter::write, for a writer without a rate limit
  unfoldable pub write : Data → MultiWriter → ReturnCode × MultiWriter
  unfolding write_nts
  write d m = if m.enabled then write_nts d m else (not_enabled, m)

  pub data Call : Type 0 where
    writes : Data → Call
    enables disables : Call

  unfoldable pub after : Call → MultiWriter → MultiWriter
  unfolding write enable disable
  after (writes d) m = (write d m).1
  after enables m = enable m
  after disables m = disable m

  unfoldable pub run : List Call → MultiWriter → MultiWriter
  unfolding after
  run [] m = m
  run (c ∷ cs) m = run cs (after c m)

  -- A writer of the map is enabled exactly when the whole is.
  AreTogether : MultiWriter → Type 0
  AreTogether m =
      (q : Qos) (w : Writer) → lookup q m.writers_map ≡ some w → is_enabled w ≡ m.enabled

  on_all-lookup :
      (f : Writer → Writer) (q : Qos) (m : Map Qos Writer)
      → lookup q (on_all f m) ≡ (elim (lookup q m) [ none ↦ none | some w ↦ some (f w) ])
  unfolding on_all lookup
  on_all-lookup f q [] = refl
  on_all-lookup f q ((r, w) ∷ m) = ground (arith, on_all-lookup f q m)

  enable-AreTogether : (m : MultiWriter) → AreTogether m → AreTogether (enable m)
  unfolding enable AreTogether
  enable-AreTogether m t q w h = elim (Option-cases (lookup q m.writers_map)) [
    | inl absent ↦ ground (arith, absent, h, t q w, on_all-lookup enable_writer q m.writers_map)
    | inr (v, there) ↦ ground (
      arith,
      there,
      h,
      t q v,
      t q w,
      enable_enabled v,
      on_all-lookup enable_writer q m.writers_map,
    )
  ]

  disable-AreTogether : (m : MultiWriter) → AreTogether m → AreTogether (disable m)
  unfolding disable AreTogether
  disable-AreTogether m t q w h = elim (Option-cases (lookup q m.writers_map)) [
    | inl absent ↦ ground (arith, absent, h, t q w, on_all-lookup disable_writer q m.writers_map)
    | inr (v, there) ↦ ground (
      arith,
      there,
      h,
      t q v,
      t q w,
      disable_disabled v,
      on_all-lookup disable_writer q m.writers_map,
    )
  ]

  -- The writer that data of a Quality of Service goes to.
  abbrev pub chosen : Qos → MultiWriter → Writer
  chosen q m = elim (lookup q m.writers_map) [ some w ↦ w | none ↦ enable_writer (make q) ]

  -- While MultiWriter is enabled, `write` returns what the writer for the data's Quality of Service
  -- returns, a new and enabled one when there is none yet. That writer is kept as the write leaves it;
  -- the writers for other Qualities of Service and the state of MultiWriter stay as they are.
  pub write-lookup :
      (d : Data) (m : MultiWriter) (q : Qos)
      → m.enabled ≡ true
      → ((write d m).0 ≡ (write_data d (chosen (writer_qos d) m)).0)
        × (lookup q (write d m).1.writers_map
            ≡ ite
                (qos_key.dec q (writer_qos d))
                (some (write_data d (chosen (writer_qos d) m)).1)
                (lookup q m.writers_map))
        × ((write d m).1.enabled ≡ true)
  unfolding write
  write-lookup d m q on = elim (Option-cases (lookup (writer_qos d) m.writers_map)) [
    | inl new ↦
        let w = enable_writer (make (writer_qos d)) in
        ground (
          arith,
          new,
          on,
          lookup-insert q (writer_qos d) w m.writers_map,
          lookup-insert q (writer_qos d) (write_data d w).1 (insert (writer_qos d) w m.writers_map),
        )
    | inr (w, known) ↦
        ground (arith, known, on, lookup-insert q (writer_qos d) (write_data d w).1 m.writers_map)
  ]

  write_off : (d : Data) (m : MultiWriter) → m.enabled ≡ false → write d m ≡ (not_enabled, m)
  unfolding write
  write_off d m off = simp off refl

  write-AreTogether : (d : Data) (m : MultiWriter) → AreTogether m → AreTogether (write d m).1
  unfolding AreTogether
  write-AreTogether d m t q w h = elim (Bool-cases m.enabled) [
    | inr off ↦ ground (arith, h, t q w, write_off d m off)
    | inl on ↦ elim (Option-cases (lookup (writer_qos d) m.writers_map)) [
      | inl new ↦ ground (
        arith,
        new,
        on,
        h,
        t q w,
        write-lookup d m q on,
        enable_enabled (make (writer_qos d)),
        write_enabled d (enable_writer (make (writer_qos d))),
      )
      | inr (v, known) ↦
          ground (
            arith,
            known,
            on,
            h,
            t q w,
            t (writer_qos d) v,
            write-lookup d m q on,
            write_enabled d v,
          )
    ]
  ]

  after-AreTogether : (c : Call) (m : MultiWriter) → AreTogether m → AreTogether (after c m)
  unfolding after
  after-AreTogether (writes d) m t = write-AreTogether d m t
  after-AreTogether enables m t = enable-AreTogether m t
  after-AreTogether disables m t = disable-AreTogether m t

  run-AreTogether : (cs : List Call) (m : MultiWriter) → AreTogether m → AreTogether (run cs m)
  unfolding run
  run-AreTogether [] m t = t
  run-AreTogether (c ∷ cs) m t = run-AreTogether cs (after c m) (after-AreTogether c m t)

  -- After any calls from its creation on, a writer that MultiWriter made for a Quality of Service is
  -- enabled exactly when MultiWriter is, also when it was made in between.
  pub enabled_together :
      (cs : List Call) (q : Qos) (w : Writer)
      → lookup q (run cs create).writers_map ≡ some w
      → is_enabled w ≡ (run cs create).enabled
  unfolding AreTogether lookup
  enabled_together cs = run-AreTogether cs create (λ q w h. ground (arith, h))

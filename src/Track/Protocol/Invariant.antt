-- ===== src/Track/Protocol/Invariant.antt =====
-- What every reachable state of a track satisfies.
use dds_pipe.Base.{ℕ, ◌+◌, ◌*◌, ◌≤◌, ◌<◌, ◌≡◌, ◌≢◌, ◌⊎◌, Bool, true, false, arith}
use dds_pipe.Track.Protocol.{
  State, Transmitter, Control, Step, Reach, created, later, tally, burst, no_more_data,
  transmitting_data, idle, checking_loop, storing, taking, closing, writing, free, resetting,
  enabling_writers, enabling_reader, awaiting_transmission, disabling_reader, disabling_writers,
  arrive, hear, ignore, notify, emit, start, go_on, stop, store, take, take_none, take_off,
  take_faulty, take_failed, close, write, enable, reset, enable_writers, enable_reader, disable,
  transmission_ended, disable_reader, disable_writers, destroy,
}

-- The transmitter has passed `should_transmit_` in this iteration.
abbrev pub inside : Transmitter → Bool
inside idle = false
inside checking_loop = false
inside _ = true

-- A call of `take` is due, or has just found no data.
abbrev pub looking : Transmitter → Bool
looking taking = true
looking closing = true
looking _ = false

-- `enable` has not come to its end.
abbrev pub starting : Control → Bool
starting resetting = true
starting enabling_writers = true
starting enabling_reader = true
starting _ = false

abbrev pub stopping : Control → Bool
stopping awaiting_transmission = true
stopping disabling_reader = true
stopping disabling_writers = true
stopping _ = false

-- A task is about to be emitted, waits for its turn, or runs.
abbrev pub IsAlive : State → Type 0
IsAlive s = (0 < s.emitting + s.queued) ⊎ (s.transmitter ≢ idle)

-- A callback has yet to come as far as `fetch_add`.
abbrev pub IsHeard : State → Type 0
IsHeard s = 0 < s.callbacks + s.adding

-- `enabled_` follows the owner of `track_mutex_`.
abbrev pub Owner : State → Type 0
Owner s =
    (starting s.control ≡ true → s.enabled ≡ true)
    × (stopping s.control ≡ true → s.enabled ≡ false)
    × (s.exit ≡ true → s.enabled ≡ false)

-- A task inside an iteration holds up `disable`.
abbrev Inside : State → Type 0
Inside s = inside s.transmitter ≡ true → (s.enabled ≡ true) ⊎ (s.control ≡ awaiting_transmission)

-- The reader is on only while the writers are, and a task forwards only what it has taken.
abbrev Endpoints : State → Type 0
Endpoints s =
    (s.reader_on ≡ true → s.writers_on ≡ true)
    × (s.control ≡ disabling_writers → s.reader_on ≡ false)
    × (s.control ≡ enabling_reader → s.writers_on ≡ true)
    × (s.transmitter ≡ writing → s.reader_on ≡ true)

-- `enable` leaves the reader on.
abbrev Opened : State → Type 0
Opened s = s.enabled ≡ true → s.control ≡ free → s.reader_on ≡ true

abbrev Bounded : ℕ → State → Type 0
Bounded n s = looking s.transmitter ≡ true → s.status ≤ 1 + 2 * n

-- Where `transmit_` is about to end, every sample in the reader has its callback still to come.
abbrev Closing : State → Type 0
Closing s =
    s.transmitter ≡ closing
    → s.status ≡ transmitting_data
    → s.enabled ≡ true
    → 0 < s.unread
    → IsHeard s

-- Who finds a status other than `no_more_data` may rely on a task.
abbrev Relied : State → Type 0
Relied s = s.enabled ≡ true → s.control ≢ resetting → s.status ≢ no_more_data → IsAlive s

abbrev Awake : State → Type 0
Awake s = s.enabled ≡ true → starting s.control ≡ false → 0 < s.unread → IsHeard s ⊎ IsAlive s

-- The premises of a step, for the catch-all clauses below, which cannot name them.
abbrev pub Guard : {s t : State} → Step s t → Type 0
Guard {s} (hear _ _) = (0 < s.callbacks) × (s.enabled ≡ true)
Guard {s} (ignore _ _) = (0 < s.callbacks) × (s.enabled ≡ false)
Guard {s} (notify _) = 0 < s.adding
Guard {s} (emit _) = 0 < s.emitting
Guard {s} (start _ _) = (0 < s.queued) × (s.transmitter ≡ idle)
Guard {s} (go_on _ _ _) = (s.transmitter ≡ checking_loop) × (s.exit ≡ false) × (s.enabled ≡ true)
Guard {s} (stop _ _) = (s.transmitter ≡ checking_loop) × ((s.exit ≡ true) ⊎ (s.enabled ≡ false))
Guard {s} (store _) = s.transmitter ≡ storing
Guard {s} (take _ _ _) = (s.transmitter ≡ taking) × (s.reader_on ≡ true) × (0 < s.unread)
Guard {s} (take_none _ _ _) = (s.transmitter ≡ taking) × (s.reader_on ≡ true) × (s.unread ≡ 0)
Guard {s} (take_off _ _) = (s.transmitter ≡ taking) × (s.reader_on ≡ false)
Guard {s} (take_faulty _ _ _) = (s.transmitter ≡ taking) × (s.reader_on ≡ true) × (0 < s.unread)
Guard {s} (take_failed _ _ _) = (s.transmitter ≡ taking) × (s.reader_on ≡ true) × (0 < s.unread)
Guard {s} (close _) = s.transmitter ≡ closing
Guard {s} (write _) = s.transmitter ≡ writing
Guard {s} (enable _ _ _) = (s.control ≡ free) × (s.exit ≡ false) × (s.enabled ≡ false)
Guard {s} (reset _) = s.control ≡ resetting
Guard {s} (enable_writers _) = s.control ≡ enabling_writers
Guard {s} (enable_reader _) = s.control ≡ enabling_reader
Guard {s} (disable _ _) = (s.control ≡ free) × (s.enabled ≡ true)
Guard {s} (transmission_ended _ _) = (s.control ≡ awaiting_transmission) × (s.transmitter ≡ idle)
Guard {s} (disable_reader _) = s.control ≡ disabling_reader
Guard {s} (disable_writers _) = s.control ≡ disabling_writers
Guard {s} (destroy _ _) = (s.control ≡ free) × (s.enabled ≡ false)
Guard _ = Unit {0}

pub guard : {s t : State} (st : Step s t) → Guard st
guard (hear a b) = (a, b)
guard (ignore a b) = (a, b)
guard (notify a) = a
guard (emit a) = a
guard (start a b) = (a, b)
guard (go_on a b c) = (a, b, c)
guard (stop a b) = (a, b)
guard (store a) = a
guard (take a b c) = (a, b, c)
guard (take_none a b c) = (a, b, c)
guard (take_off a b) = (a, b)
guard (take_faulty a b c) = (a, b, c)
guard (take_failed a b c) = (a, b, c)
guard (close a) = a
guard (write a) = a
guard (enable a b c) = (a, b, c)
guard (reset a) = a
guard (enable_writers a) = a
guard (enable_reader a) = a
guard (disable a b) = (a, b)
guard (transmission_ended a b) = (a, b)
guard (disable_reader a) = a
guard (disable_writers a) = a
guard (destroy a b) = (a, b)
guard arrive = tt

Step-Owner : {s t : State} → Step s t → Owner s → Owner t
Step-Owner arrive h = ground arith
Step-Owner st h = ground (arith, guard st)

Step-Inside : {s t : State} → Step s t → Owner s → Inside s → Inside t
Step-Inside arrive o h = ground arith
Step-Inside st o h = ground (arith, guard st)

Step-Endpoints : {s t : State} → Step s t → Owner s → Inside s → Endpoints s → Endpoints t
Step-Endpoints arrive o i h = ground arith
Step-Endpoints st o i h = ground (arith, guard st)

Step-Opened : {s t : State} → Step s t → Owner s → Opened s → Opened t
Step-Opened arrive o h = ground arith
Step-Opened st o h = ground (arith, guard st)

Step-Bounded :
    (n : ℕ) {s t : State} (st : Step s t)
    → tally st n < burst
    → Bounded n s
    → Bounded (tally st n) t
Step-Bounded n arrive b h = ground arith
Step-Bounded n st b h = ground (arith, guard st)

Step-Closing :
    (n : ℕ) {s t : State} (st : Step s t)
    → tally st n < burst
    → Owner s
    → Inside s
    → Bounded n s
    → Closing s
    → Closing t
Step-Closing n arrive b o i k h = ground arith
Step-Closing n st b o i k h = ground (arith, guard st)

Step-Relied : {s t : State} → Step s t → Owner s → Relied s → Relied t
Step-Relied arrive o h = ground arith
Step-Relied st o h = ground (arith, guard st)

Step-Awake : {s t : State} → Step s t → Owner s → Closing s → Relied s → Awake s → Awake t
Step-Awake arrive o c r h = ground arith
Step-Awake st o c r h = ground (arith, guard st)

record Inv (n : ℕ) (s : State) : Type 0 where
  owner : Owner s
  inside : Inside s
  endpoints : Endpoints s
  opened : Opened s
  bounded : Bounded n s
  closing : Closing s
  relied : Relied s
  awake : Awake s

Reach-Inv : {n : ℕ} {s : State} → Reach n s → Inv n s
Reach-Inv created = record {
  owner = ground arith;
  inside = ground arith;
  endpoints = ground arith;
  opened = ground arith;
  bounded = ground arith;
  closing = ground arith;
  relied = ground arith;
  awake = ground arith;
}
Reach-Inv (later {n} {m} r st e b) =
    let v = Reach-Inv r in
    record {
      owner = Step-Owner st v.owner;
      inside = Step-Inside st v.owner v.inside;
      endpoints = Step-Endpoints st v.owner v.inside v.endpoints;
      opened = Step-Opened st v.owner v.opened;
      bounded = rw e (Step-Bounded n st (omega arith) v.bounded);
      closing = Step-Closing n st (omega arith) v.owner v.inside v.bounded v.closing;
      relied = Step-Relied st v.owner v.relied;
      awake = Step-Awake st v.owner v.closing v.relied v.awake;
    }

-- In every reachable state in which the track is enabled, `enable` has come to its end, no listener
-- is inside `data_available_` and no task is emitted, queued or running, the reader holds no sample:
-- no wake-up is lost, whatever the order of the steps of listeners, tasks, `enable` and `disable`.
pub no_lost_data :
    {n : ℕ} {s : State}
    → Reach n s
    → s.enabled ≡ true
    → s.control ≡ free
    → s.callbacks + s.adding + s.emitting + s.queued ≡ 0
    → s.transmitter ≡ idle
    → s.unread ≡ 0
no_lost_data r on done quiet ended = ground (arith, (Reach-Inv r).awake)

-- In every reachable state in which a task forwards a sample to the writers, the reader and the
-- writers are enabled.
pub writes_while_enabled :
    {n : ℕ} {s : State}
    → Reach n s
    → s.transmitter ≡ writing
    → (s.reader_on ≡ true) × (s.writers_on ≡ true)
writes_while_enabled r w = ground (arith, (Reach-Inv r).endpoints)

-- In every reachable state in which `disable` switches the reader or the writers off, no task is
-- between its test of `should_transmit_` and the end of that iteration of its loop, and the task's
-- next test fails.
pub disables_between_samples :
    {n : ℕ} {s : State}
    → Reach n s
    → (s.control ≡ disabling_reader) ⊎ (s.control ≡ disabling_writers)
    → (inside s.transmitter ≡ false) × (s.enabled ≡ false)
disables_between_samples r c = ground (arith, (Reach-Inv r).inside, (Reach-Inv r).owner)

-- An enabled track whose mutex is free has its reader on, and is not being destroyed.
pub free_while_enabled :
    {n : ℕ} {s : State}
    → Reach n s
    → s.enabled ≡ true
    → s.control ≡ free
    → (s.exit ≡ false) × (s.reader_on ≡ true)
free_while_enabled r on f = ground (arith, (Reach-Inv r).opened, (Reach-Inv r).owner)

-- ===== src/Track/Protocol/Delivery.antt =====
-- How long the listeners and the tasks of a track can go on when nothing more arrives.
use dds_pipe.Base.{
  ℕ, ◌+◌, ◌*◌, ◌≤◌, ◌<◌, ◌≡◌, ◌≢◌, ◌⊎◌, refl, dec_lt, inl, inr, Bool, true, false, ◌==◌,
  if◌then◌else◌, arith,
}
use dds_pipe.Track.Protocol.{
  State, Transmitter, Step, Reach, later, tally, burst, transmitting_data, idle, checking_loop,
  storing, taking, closing, writing, free, arrive, hear, ignore, notify, emit, start, go_on, stop,
  store, take, take_none, take_off, take_faulty, take_failed, close, write,
}
use dds_pipe.Track.Protocol.Invariant.{guard, no_lost_data, free_while_enabled}

-- A step of a listener or of a task: not an arrival, and not a step of `enable`, `disable` or the
-- destructor.
abbrev pub works : {s t : State} → Step s t → Bool
works (hear _ _) = true
works (ignore _ _) = true
works (notify _) = true
works (emit _) = true
works (start _ _) = true
works (go_on _ _ _) = true
works (stop _ _) = true
works (store _) = true
works (take _ _ _) = true
works (take_none _ _ _) = true
works (take_off _ _) = true
works (take_faulty _ _ _) = true
works (take_failed _ _ _) = true
works (close _) = true
works (write _) = true
works _ = false

-- How often a step leaves a sample that the task has tried to take in the reader.
abbrev pub failures : {s t : State} → Step s t → ℕ
failures (take_failed _ _ _) = 1
failures _ = 0

-- `k` steps of listeners and tasks, in any order, with `f` such failures among them.
pub data Working (s : State) : ℕ → ℕ → State → Type 0 where
  start_of : Working s 0 0 s
  next :
      {k f : ℕ} {t u : State}
      → Working s k f t
      → (st : Step t u) → works st ≡ true
      → Working s (k + 1) (f + failures st) u

-- The steps that the transmitting task has before it; a callback since the status was stored costs
-- it another round.
abbrev rounds_left : ℕ → Transmitter → ℕ
rounds_left status idle = 0
rounds_left status checking_loop = 4
rounds_left status storing = 3
rounds_left status taking = if status == transmitting_data then 2 else 6
rounds_left status closing = if status == transmitting_data then 1 else 5
rounds_left status writing = 5

-- No more steps than this are left to the listeners and the tasks, if no sample is left behind.
abbrev pub work_left : State → ℕ
work_left s =
    12 * s.callbacks
    + 11 * s.adding
    + 6 * s.emitting
    + 5 * s.queued
    + 4 * s.unread
    + rounds_left s.status s.transmitter

-- An enabled track whose mutex is free.
abbrev pub IsOn : State → Type 0
IsOn s = (s.enabled ≡ true) × (s.control ≡ free) × (s.exit ≡ false) × (s.reader_on ≡ true)

Step-IsOn : {s t : State} (st : Step s t) → works st ≡ true → IsOn s → IsOn t
Step-IsOn arrive w o = cc
Step-IsOn st w o = ground (arith, guard st)

Step-decreases :
    {s t : State} (st : Step s t)
    → works st ≡ true
    → IsOn s
    → work_left t < work_left s + 3 * failures st
Step-decreases arrive w o = cc
Step-decreases st w o = ground (arith, guard st)

-- A step adds to the callbacks of a round only what has been heard of.
Step-tally :
    (n : ℕ) {s t : State} (st : Step s t)
    → works st ≡ true
    → tally st n + t.callbacks + t.adding ≤ n + s.callbacks + s.adding
Step-tally n arrive w = cc
Step-tally n st w = ground (arith, guard st)

-- Where a sample waits or a task is not done, someone can take a step that is not such a failure.
abbrev pub CanStep : State → Type 0
CanStep s = (t : State) × (st : Step s t) × (works st ≡ true) × (failures st ≡ 0)

transmitter-CanStep : (s : State) → IsOn s → s.transmitter ≢ idle → CanStep s
transmitter-CanStep s o busy = by_transmitter s.transmitter refl
  where
    by_take : (b : Bool) → (s.unread == 0) ≡ b → s.transmitter ≡ taking → CanStep s
    by_take true e f = (_, take_none f o.3 (ground arith), refl, refl)
    by_take false e f = (_, take f o.3 (ground arith), refl, refl)

    by_transmitter : (x : Transmitter) → s.transmitter ≡ x → CanStep s
    by_transmitter idle e = absurd (busy e)
    by_transmitter checking_loop e = (_, go_on e o.2 o.0, refl, refl)
    by_transmitter storing e = (_, store e, refl, refl)
    by_transmitter taking e = by_take _ refl e
    by_transmitter closing e = (_, close e, refl, refl)
    by_transmitter writing e = (_, write e, refl, refl)

can_step : {n : ℕ} {s : State} → Reach n s → IsOn s → (s.unread ≡ 0) ⊎ CanStep s
can_step {n} {s} r o = by_callbacks (dec_lt 0 s.callbacks)
  where
    by_transmitter :
        s.callbacks + s.adding + s.emitting + s.queued ≡ 0
        → (x : Transmitter) → s.transmitter ≡ x
        → (s.unread ≡ 0) ⊎ CanStep s
    by_transmitter quiet idle e = inl (no_lost_data r o.0 o.1 quiet e)
    by_transmitter quiet x e = inr (transmitter-CanStep s o (ground (arith, e)))

    by_queued :
        s.callbacks + s.adding + s.emitting ≡ 0 → Dec (0 < s.queued) → (s.unread ≡ 0) ⊎ CanStep s
    by_queued quiet (no q) = by_transmitter (omega arith) s.transmitter refl
    by_queued quiet (yes q) = by_turn s.transmitter refl
      where
        by_turn : (x : Transmitter) → s.transmitter ≡ x → (s.unread ≡ 0) ⊎ CanStep s
        by_turn idle e = inr (_, start q e, refl, refl)
        by_turn x e = inr (transmitter-CanStep s o (ground (arith, e)))

    by_emitting : s.callbacks + s.adding ≡ 0 → Dec (0 < s.emitting) → (s.unread ≡ 0) ⊎ CanStep s
    by_emitting quiet (yes q) = inr (_, emit q, refl, refl)
    by_emitting quiet (no q) = by_queued (omega arith) (dec_lt 0 s.queued)

    by_adding : s.callbacks ≡ 0 → Dec (0 < s.adding) → (s.unread ≡ 0) ⊎ CanStep s
    by_adding quiet (yes q) = inr (_, notify q, refl, refl)
    by_adding quiet (no q) = by_emitting (omega arith) (dec_lt 0 s.emitting)

    by_callbacks : Dec (0 < s.callbacks) → (s.unread ≡ 0) ⊎ CanStep s
    by_callbacks (yes q) = inr (_, hear q o.0, refl, refl)
    by_callbacks (no q) = by_adding (omega arith) (dec_lt 0 s.adding)

-- What holds along a run, with the callbacks of the round it has come to.
record Continues (n : ℕ) (s : State) (k f : ℕ) (t : State) : Type 0 where
  count : ℕ
  reached : Reach count t
  still_on : IsOn t
  counted : count + t.callbacks + t.adding ≤ n + s.callbacks + s.adding
  spent : k + work_left t ≤ work_left s + 3 * f

Working-Continues :
    {n : ℕ} {s : State} {k f : ℕ} {t : State}
    → Reach n s
    → IsOn s
    → n + s.callbacks + s.adding < burst
    → Working s k f t
    → Continues n s k f t
Working-Continues {n} r o b start_of = record {
  count = n;
  reached = r;
  still_on = o;
  counted = omega arith;
  spent = omega arith;
}
Working-Continues r o b (next p st w) =
    let c = Working-Continues r o b p in
    record {
      count = tally st c.count;
      reached = later c.reached st refl (omega (arith, Step-tally c.count st w, c.counted));
      still_on = Step-IsOn st w c.still_on;
      counted = omega (arith, Step-tally c.count st w, c.counted);
      spent = omega (arith, Step-decreases st w c.still_on, c.spent);
    }

-- From a reachable state in which the track is enabled and no one holds its mutex, with fewer than
-- 2 ^ 31 callbacks in the round, listeners and tasks take at most `work_left` steps, in whatever
-- order, and 3 more for each time that a take fails and leaves the sample in the reader, unless
-- another sample arrives or the track is disabled. As long as the reader holds a sample, one of them
-- can take a step that is no such failure: where they can take none, the reader is empty.
pub drains :
    {n k failed : ℕ} {s t : State}
    → Reach n s
    → s.enabled ≡ true
    → s.control ≡ free
    → n + s.callbacks + s.adding < burst
    → Working s k failed t
    → (k ≤ work_left s + 3 * failed) × ((t.unread ≡ 0) ⊎ CanStep t)
drains r on f b p =
    let off = free_while_enabled r on f in
    let c = Working-Continues r (on, f, off.0, off.1) b p in
    (omega (arith, c.spent), can_step c.reached c.still_on)

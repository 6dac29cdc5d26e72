-- ===== src/Track/Protocol.antt =====
-- The threads of a track (ddspipe_core/src/cpp/communication/dds/Track.cpp), an atomic step at a
-- time: listeners of the reader in `data_available_`, tasks of the thread pool in `transmit_`, and
-- the owner of `track_mutex_` in `enable`, `disable` or the destructor. Threads at the same point
-- have no local variables there and are counted. A task between `emit` and its turn to hold
-- `on_transmission_mutex_` is in `queued`. The reader is the one of InternalReader.cpp: a sample is
-- stored also while it is disabled, and its `enable` calls the callback if a sample waits.
pub mod Delivery
pub mod Invariant
mod Tests
use dds_pipe.Base.{ℕ, ◌+◌, ◌-◌, ◌%◌, ◌^◌, ◌<◌, ◌≡◌, ◌⊎◌, Bool, true, false, ◌==◌, if◌then◌else◌}

-- `DataAvailableStatus`; the status is an `unsigned int`, so its sums wrap at 2 ^ 32.
abbrev pub no_more_data : ℕ
no_more_data = 0

abbrev pub transmitting_data : ℕ
transmitting_data = 1

abbrev pub new_data_arrived : ℕ
new_data_arrived = 2

abbrev pub uint_mod : ℕ
uint_mod = 2 ^ 32

abbrev pub fetch_add : ℕ → ℕ → ℕ
fetch_add x k = (x + k) % uint_mod

abbrev pub fetch_sub : ℕ → ℕ → ℕ
fetch_sub x k = (x + uint_mod - k) % uint_mod

-- Where the holder of `on_transmission_mutex_` stands in `transmit_`; `idle` is no holder.
pub data Transmitter : Type 0 where
  idle : Transmitter
  checking_loop : Transmitter  -- at `while (should_transmit_())`
  storing : Transmitter  -- before the status is set to `transmitting_data`
  taking : Transmitter  -- before `reader_->take`
  closing : Transmitter  -- after RETCODE_NO_DATA, before `fetch_sub`
  writing : Transmitter  -- in the loop over `writers_`

-- Where the holder of `track_mutex_` stands; `free` is no holder.
pub data Control : Type 0 where
  free : Control
  resetting : Control  -- `enable`: `enabled_` is set, the status is not yet
  enabling_writers : Control
  enabling_reader : Control
  awaiting_transmission : Control  -- `disable`: `enabled_` is unset, the mutex is not yet had
  disabling_reader : Control
  disabling_writers : Control

pub record State : Type 0 where
  pub enabled : Bool
  pub exit : Bool
  pub status : ℕ
  pub unread : ℕ  -- samples stored in the reader
  pub reader_on : Bool
  pub writers_on : Bool
  pub callbacks : ℕ  -- listeners before `if (enabled_)`
  pub adding : ℕ  -- listeners before `fetch_add`
  pub emitting : ℕ  -- listeners before `thread_pool_->emit`
  pub queued : ℕ
  pub transmitter : Transmitter
  pub control : Control

-- The constructor: disabled, with an empty reader.
abbrev pub init : State
init = record {
  enabled = false;
  exit = false;
  status = no_more_data;
  unread = 0;
  reader_on = false;
  writers_on = false;
  callbacks = 0;
  adding = 0;
  emitting = 0;
  queued = 0;
  transmitter = idle;
  control = free;
}

-- The step of `fetch_add`: only who finds `no_more_data` goes on to emit a task.
abbrev pub notified : State → State
notified s =
    let t : State = record s {
      adding = s.adding - 1;
      status = fetch_add s.status new_data_arrived;
    } in
    if s.status == no_more_data then record t { emitting = t.emitting + 1 } else t

-- The step of `fetch_sub`: `break` if no callback has come since the status was stored.
abbrev pub closed : State → State
closed s = record s {
  status = fetch_sub s.status transmitting_data;
  transmitter = if s.status == transmitting_data then idle else checking_loop;
}

-- `reader_->enable`, at the end of `enable`.
abbrev pub reader_enabled : State → State
reader_enabled s = record s {
  reader_on = true;
  callbacks = if s.unread == 0 then s.callbacks else s.callbacks + 1;
  control = free;
}

-- One atomic step of one thread.
pub data Step (s : State) : State → Type 0 where
  -- A sample is stored in the reader, which calls its callback.
  arrive : Step s (record s { unread = s.unread + 1; callbacks = s.callbacks + 1 })
  -- data_available_
  hear :
      0 < s.callbacks
      → s.enabled ≡ true
      → Step s (record s { callbacks = s.callbacks - 1; adding = s.adding + 1 })
  ignore : 0 < s.callbacks → s.enabled ≡ false → Step s (record s { callbacks = s.callbacks - 1 })
  notify : 0 < s.adding → Step s (notified s)
  emit : 0 < s.emitting → Step s (record s { emitting = s.emitting - 1; queued = s.queued + 1 })
  -- transmit_
  start :
      0 < s.queued
      → s.transmitter ≡ idle
      → Step s (record s { queued = s.queued - 1; transmitter = checking_loop })
  go_on :
      s.transmitter ≡ checking_loop
      → s.exit ≡ false
      → s.enabled ≡ true
      → Step s (record s { transmitter = storing })
  stop :
      s.transmitter ≡ checking_loop
      → (s.exit ≡ true) ⊎ (s.enabled ≡ false)
      → Step s (record s { transmitter = idle })
  store :
      s.transmitter ≡ storing
      → Step s (record s { transmitter = taking; status = transmitting_data })
  take :
      s.transmitter ≡ taking
      → s.reader_on ≡ true
      → 0 < s.unread
      → Step s (record s { transmitter = writing; unread = s.unread - 1 })
  take_none :
      s.transmitter ≡ taking
      → s.reader_on ≡ true
      → s.unread ≡ 0
      → Step s (record s { transmitter = closing })
  take_off :
      s.transmitter ≡ taking
      → s.reader_on ≡ false
      → Step s (record s { transmitter = checking_loop })
  -- `take` ends with an error while it finds a sample: it removes the sample, or it leaves it there.
  take_faulty :
      s.transmitter ≡ taking
      → s.reader_on ≡ true
      → 0 < s.unread
      → Step s (record s { transmitter = checking_loop; unread = s.unread - 1 })
  take_failed :
      s.transmitter ≡ taking
      → s.reader_on ≡ true
      → 0 < s.unread
      → Step s (record s { transmitter = checking_loop })
  close : s.transmitter ≡ closing → Step s (closed s)
  write : s.transmitter ≡ writing → Step s (record s { transmitter = checking_loop })
  -- enable
  enable :
      s.control ≡ free
      → s.exit ≡ false
      → s.enabled ≡ false
      → Step s (record s { enabled = true; control = resetting })
  reset :
      s.control ≡ resetting
      → Step s (record s { status = no_more_data; control = enabling_writers })
  enable_writers :
      s.control ≡ enabling_writers
      → Step s (record s { writers_on = true; control = enabling_reader })
  enable_reader : s.control ≡ enabling_reader → Step s (reader_enabled s)
  -- disable
  disable :
      s.control ≡ free
      → s.enabled ≡ true
      → Step s (record s { enabled = false; control = awaiting_transmission })
  transmission_ended :
      s.control ≡ awaiting_transmission
      → s.transmitter ≡ idle
      → Step s (record s { control = disabling_reader })
  disable_reader :
      s.control ≡ disabling_reader
      → Step s (record s { reader_on = false; control = disabling_writers })
  disable_writers :
      s.control ≡ disabling_writers → Step s (record s { writers_on = false; control = free })
  -- The end of the destructor, which has called `disable`.
  destroy : s.control ≡ free → s.enabled ≡ false → Step s (record s { exit = true })

-- The number of calls of `fetch_add` since the status was last set to `transmitting_data`.
abbrev pub tally : {s t : State} → Step s t → ℕ → ℕ
tally (notify _) n = n + 1
tally (store _) n = 0
tally _ n = n

-- Less than this many samples arrive while `transmit_` takes one.
abbrev pub burst : ℕ
burst = 2 ^ 31

pub data Reach : ℕ → State → Type 0 where
  created : Reach 0 init
  later :
      {n m : ℕ} {s t : State} → Reach n s → (st : Step s t) → m ≡ tally st n → m < burst → Reach m t

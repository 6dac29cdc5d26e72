-- ===== src/Database/Tests.antt =====
-- Runs of a database: the queue is a pair of lists, and the world counts calls of callbacks.
use dds_pipe.Base.{
  ℕ, ◌+◌, ◌<◌, ◌≡◌, refl, Bool, true, false, Option, none, some, List, [], ◌∷◌, ◌++◌, nat_key,
  arith, length, if◌then◌else◌,
}
use dds_pipe.Map.{Map, lookup}
use dds_pipe.Pipe.Parts.{reader}
use dds_pipe.Pipe.Defs.{Endpoint, Pipe}
use dds_pipe.Pipe.Parts.{on_any}
use dds_pipe.Pipe.Discovery.{create}
use dds_pipe.Pipe.Example.{numbers}
use dds_pipe.Database.Defs.{
  erases, DatabaseOperation, add, update, DbQueue, Catalog, Database, process_queue, stop,
  queue_processing_round, handle,
}
use dds_pipe.Pipe.History.{run, discovers, removes}
use dds_pipe.Database.Stopped.{stop_silences}
use dds_pipe.Database.Drain.{handle_all, process_queue-drains}
use dds_pipe.Database.Entities.{endpoint_has_own_life, life, callbacks_called, told, listeners}
use dds_pipe.Database.Driven.{registered, events, discovery_drives_pipe}

abbrev Item : Type 0
Item = DatabaseOperation × Endpoint numbers

abbrev Halves : Type 0
Halves = List Item × List Item

abbrev head_of : List Item → Option Item
head_of [] = none
head_of (i ∷ is) = some i

abbrev rest_of : List Item → List Item
rest_of [] = []
rest_of (i ∷ is) = is

front-cons : (a : Item) (rest : List Item) (q : Halves) → q.0 ≡ a ∷ rest → head_of q.0 ≡ some a
front-cons a rest q e = rw e refl

front-nil : (q : Halves) → q.0 ≡ [] → head_of q.0 ≡ none
front-nil q e = rw e refl

pop-foreground : (a : Item) (rest : List Item) (q : Halves) → q.0 ≡ a ∷ rest → rest_of q.0 ≡ rest
pop-foreground a rest q e = rw e refl

abbrev queue : DbQueue Item
queue = record {
  Queue = Halves;
  foreground = λ q. q.0;
  background = λ q. q.1;
  push = λ i q. (q.0, q.1 ++ (i ∷ []));
  swap = λ q. (q.1, []);
  front = λ q. head_of q.0;
  pop = λ q. (rest_of q.0, q.1);
  push-foreground = λ a q. refl;
  push-background = λ a q. refl;
  swap-foreground = λ q e. refl;
  swap-background = λ q e. refl;
  front-nil = front-nil;
  front-cons = front-cons;
  pop-foreground = pop-foreground;
  pop-background = λ q. refl;
}

abbrev found : Endpoint numbers
found = record {
  guid = 100;
  kind = reader;
  topic = 1;
  active = true;
  discoverer_participant_id = "a";
}

abbrev lost : Endpoint numbers
lost = record found { active = false }

abbrev items : List Item
items = (add, found) ∷ (update, lost) ∷ (add, found) ∷ []

abbrev catalog : Catalog numbers ℕ queue
catalog = record {
  entities = [];
  added_endpoint_callbacks = (λ m e w. w + 1) ∷ [];
  updated_endpoint_callbacks = (λ m e w. w + 10) ∷ [];
  erased_endpoint_callbacks = [];
  world = 0;
}

abbrev database : Database numbers ℕ queue
database = record {
  catalog = catalog;
  entities_to_process = ([], items);
  exit = false;
  enabled = true;
}

process_queue-drains_example :
    (after : Database numbers ℕ queue) × (process_queue numbers ℕ queue 4 database ≡ some after)
    × (after.catalog ≡ handle_all numbers ℕ queue items catalog)
    × (after.entities_to_process.0 ≡ [])
    × (after.entities_to_process.1 ≡ [])
process_queue-drains_example = process_queue-drains numbers ℕ queue 4 database refl (omega arith)

endpoint_has_own_life_example :
    lookup 100 (handle_all numbers ℕ queue items catalog).entities
    ≡ life numbers ℕ queue 100 items none
unfolding lookup
endpoint_has_own_life_example = endpoint_has_own_life numbers ℕ queue items catalog 100

callbacks_called_applied :
    (handle numbers ℕ queue (add, found) catalog).world
    ≡ told numbers ℕ queue
        ((λ m e w. w + 1) ∷ [])
        (handle numbers ℕ queue (add, found) catalog).entities
        found
        0
unfolding listeners lookup
callbacks_called_applied = callbacks_called numbers ℕ queue add found catalog

abbrev listening_pipe : Pipe numbers
listening_pipe =
    create numbers (record { discovery_trigger = on_any; remove_unused_entities = false }) 5 [] true

discovery_drives_pipe_example :
    (handle_all numbers (Pipe numbers) queue items (registered numbers queue listening_pipe)).world
    ≡ run numbers (events numbers queue items []) listening_pipe
discovery_drives_pipe_example = discovery_drives_pipe numbers queue listening_pipe items

-- The endpoint is discovered once, and removed once.
heard_of :
    events numbers queue ((add, found) ∷ (add, found) ∷ (erases, found) ∷ (erases, found) ∷ []) []
    ≡ discovers ((100, found) ∷ []) found ∷ removes [] found ∷ []
unfolding events lookup dds_pipe.Map.insert dds_pipe.Map.erase dds_pipe.Base.ℕ_discrete
heard_of = refl

stop_silences_example :
    ((handle_all numbers ℕ queue items (stop numbers ℕ queue database).catalog).world ≡ 0)
    × (queue_processing_round numbers ℕ queue 4 (stop numbers ℕ queue database) ≡ none)
stop_silences_example = stop_silences numbers ℕ queue items 4 database refl

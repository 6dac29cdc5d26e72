-- ===== src/Database/Defs.antt =====
-- The state of a DiscoveryDatabase and its methods. What the callbacks act on, `World`, and the
-- double queue of Fast DDS, `DBQueue`, are parameters. An exception is none.
use dds_pipe.Base.{
  ◌≡◌, Bool, true, false, Option, none, some, List, [], ◌∷◌, ◌++◌, if◌then◌else◌, Key, ite, ℕ, zero,
  suc, not,
}
use dds_pipe.Map.{Map, lookup, insert, erase, contains}
use dds_pipe.Pipe.Parts.{Parts}
use dds_pipe.Pipe.Defs.{Endpoint}

pub data DatabaseOperation : Type 0 where
  add update erases : DatabaseOperation

-- DBQueue: producers push into the background, and the consumer pops from the foreground.
pub record DbQueue (A : Type 0) : Type 1 where
  pub Queue : Type 0
  pub foreground : Queue → List A
  pub background : Queue → List A
  pub push : A → Queue → Queue
  pub swap : Queue → Queue
  pub front : Queue → Option A
  pub pop : Queue → Queue
  pub push-foreground : (a : A) (q : Queue) → foreground (push a q) ≡ foreground q
  pub push-background : (a : A) (q : Queue) → background (push a q) ≡ background q ++ (a ∷ [])
  pub swap-foreground : (q : Queue) → foreground q ≡ [] → foreground (swap q) ≡ background q
  pub swap-background : (q : Queue) → foreground q ≡ [] → background (swap q) ≡ []
  pub front-nil : (q : Queue) → foreground q ≡ [] → front q ≡ none
  pub front-cons : (a : A) (rest : List A) (q : Queue) → foreground q ≡ a ∷ rest → front q ≡ some a
  pub pop-foreground :
      (a : A) (rest : List A) (q : Queue) → foreground q ≡ a ∷ rest → foreground (pop q) ≡ rest
  pub pop-background : (q : Queue) → background (pop q) ≡ background q

module _ (x : Parts) (World : Type 0) (queue : DbQueue (DatabaseOperation × Endpoint x)) where
  instance abbrev topic_key : Key x.Topic
  topic_key = x.topic_key

  instance abbrev guid_key : Key x.Guid
  guid_key = x.guid_key

  -- A callback reads the entities, by the methods of the database, and acts on the world.
  abbrev pub Callback : Type 0
  Callback = Map x.Guid (Endpoint x) → Endpoint x → World → World

  -- The members that `mutex_` and `callbacks_mutex_` guard, and what the callbacks act on.
  pub record Catalog : Type 0 where
    pub entities : Map x.Guid (Endpoint x)
    pub added_endpoint_callbacks : List Callback
    pub updated_endpoint_callbacks : List Callback
    pub erased_endpoint_callbacks : List Callback
    pub world : World

  pub record Database : Type 0 where
    pub catalog : Catalog
    pub entities_to_process : queue.Queue
    pub exit : Bool
    pub enabled : Bool

  unfoldable pub start : Database → Database
  start d = if not d.enabled then record d { enabled = true } else d

  unfoldable pub clear_all_callbacks : Catalog → Catalog
  clear_all_callbacks c = record c {
    added_endpoint_callbacks = [];
    updated_endpoint_callbacks = [];
    erased_endpoint_callbacks = [];
  }

  unfoldable pub add_endpoint_discovered_callback : Callback → Catalog → Catalog
  add_endpoint_discovered_callback f c = record c {
    added_endpoint_callbacks = c.added_endpoint_callbacks ++ (f ∷ []);
  }

  unfoldable pub add_endpoint_updated_callback : Callback → Catalog → Catalog
  add_endpoint_updated_callback f c = record c {
    updated_endpoint_callbacks = c.updated_endpoint_callbacks ++ (f ∷ []);
  }

  unfoldable pub add_endpoint_erased_callback : Callback → Catalog → Catalog
  add_endpoint_erased_callback f c = record c {
    erased_endpoint_callbacks = c.erased_endpoint_callbacks ++ (f ∷ []);
  }

  unfoldable pub stop : Database → Database
  unfolding clear_all_callbacks
  stop d =
      if d.enabled
      then record d { catalog = clear_all_callbacks d.catalog; exit = true; enabled = false }
      else d

  unfoldable pub exists_topic : x.Topic → Map x.Guid (Endpoint x) → Bool
  exists_topic t [] = false
  exists_topic t ((g, e) ∷ m) =
      if ite (topic_key.dec e.topic t) true false then true else exists_topic t m

  unfoldable pub topic_exists : x.Topic → Catalog → Bool
  unfolding exists_topic
  topic_exists t c = exists_topic t c.entities

  unfoldable pub endpoint_exists : x.Guid → Catalog → Bool
  endpoint_exists g c = contains g c.entities

  unfoldable pub get_endpoint : x.Guid → Catalog → Option (Endpoint x)
  get_endpoint g c = lookup g c.entities

  -- `for (auto callback : callbacks) callback(endpoint)`
  unfoldable pub call_all : List Callback → Endpoint x → Catalog → Catalog
  call_all [] e c = c
  call_all (f ∷ fs) e c = call_all fs e (record c { world = f c.entities e c.world })

  unfoldable pub add_endpoint_ : Endpoint x → Catalog → Option Catalog
  unfolding call_all
  add_endpoint_ e c = elim (lookup e.guid c.entities) [
    | some old ↦
        if old.active then none else some (record c { entities = insert e.guid e c.entities })
    | none ↦
        some (
          call_all c.added_endpoint_callbacks e
            (record c { entities = insert e.guid e c.entities }))
  ]

  unfoldable pub update_endpoint_ : Endpoint x → Catalog → Option Catalog
  unfolding call_all
  update_endpoint_ e c = elim (lookup e.guid c.entities) [
    | none ↦ none
    | some old ↦ some (
        call_all c.updated_endpoint_callbacks e
          (record c { entities = insert e.guid e c.entities }))
  ]

  unfoldable pub erase_endpoint_ : Endpoint x → Catalog → Option Catalog
  unfolding call_all
  erase_endpoint_ e c = elim (lookup e.guid c.entities) [
    | none ↦ none
    | some old ↦
        some
          (call_all c.erased_endpoint_callbacks e (record c { entities = erase e.guid c.entities }))
  ]

  unfoldable pub push_item_to_queue : DatabaseOperation × Endpoint x → Database → Database
  push_item_to_queue item d = record d {
    entities_to_process = queue.push item d.entities_to_process;
  }

  unfoldable pub add_endpoint : Endpoint x → Database → Database
  unfolding push_item_to_queue
  add_endpoint e d = push_item_to_queue (add, e) d

  unfoldable pub update_endpoint : Endpoint x → Database → Database
  unfolding push_item_to_queue
  update_endpoint e d = push_item_to_queue (update, e) d

  unfoldable pub erase_endpoint : Endpoint x → Database → Database
  unfolding push_item_to_queue
  erase_endpoint e d = push_item_to_queue (erases, e) d

  unfoldable pub attempt : DatabaseOperation × Endpoint x → Catalog → Option Catalog
  unfolding add_endpoint_ update_endpoint_ erase_endpoint_
  attempt (add, e) c = add_endpoint_ e c
  attempt (update, e) c = update_endpoint_ e c
  attempt (erases, e) c = erase_endpoint_ e c

  -- The try block of `process_queue_`: on an exception, the database is as before.
  unfoldable pub handle : DatabaseOperation × Endpoint x → Catalog → Catalog
  unfolding attempt
  handle item c = elim (attempt item c) [ none ↦ c | some after ↦ after ]

  unfoldable pub process_loop : ℕ → Database → Option Database
  unfolding handle
  process_loop zero d = none
  process_loop (suc fuel) d = elim (queue.front d.entities_to_process) [
    | none ↦ some d
    | some item ↦ process_loop fuel (record d {
      catalog = handle item d.catalog;
      entities_to_process = queue.pop d.entities_to_process;
    })
  ]

  unfoldable pub process_queue : ℕ → Database → Option Database
  unfolding process_loop
  process_queue fuel d =
      process_loop fuel (record d { entities_to_process = queue.swap d.entities_to_process })

  -- One round of the thread's loop. The thread ends, with none, when it is told to exit.
  unfoldable pub queue_processing_round : ℕ → Database → Option Database
  unfolding process_queue
  queue_processing_round fuel d = if d.exit then none else process_queue fuel d

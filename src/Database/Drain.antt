-- ===== src/Database/Drain.antt =====
-- `process_queue_` of dynamic/DiscoveryDatabase.cpp and the order of its items.
use dds_pipe.Base.{◌≡◌, refl, ◌∙◌, some, List, [], ◌∷◌, ℕ, zero, suc, length, arith, ◌<◌}
use dds_pipe.Pipe.Parts.{Parts}
use dds_pipe.Pipe.Defs.{Endpoint}
use dds_pipe.Database.Defs.{
  DatabaseOperation, DbQueue, Catalog, Database, handle, process_loop, process_queue,
}

module _ (x : Parts) (World : Type 0) (queue : DbQueue (DatabaseOperation × Endpoint x)) where
  abbrev Db : Type 0
  Db = Database x World queue

  abbrev Item : Type 0
  Item = DatabaseOperation × Endpoint x

  -- The items one after the other.
  unfoldable pub handle_all : List Item → Catalog x World queue → Catalog x World queue
  unfolding handle
  handle_all [] c = c
  handle_all (i ∷ is) c = handle_all is (handle x World queue i c)

  -- The database after the loop.
  drained : List Item → queue.Queue → Db → Db
  drained items q d = record d { catalog = handle_all items d.catalog; entities_to_process = q }

  pop_each : List Item → queue.Queue → queue.Queue
  pop_each [] q = q
  pop_each (i ∷ is) q = pop_each is (queue.pop q)

  process_loop-drained :
      (items : List Item) (fuel : ℕ) (d : Db)
      → queue.foreground d.entities_to_process ≡ items
      → length items < fuel
      → process_loop x World queue fuel d
        ≡ some (drained items (pop_each items d.entities_to_process) d)
  unfolding process_loop handle_all drained pop_each
  process_loop-drained items zero d e enough = ground (arith, enough)
  process_loop-drained [] (suc n) d e enough =
      rw (queue.front-nil d.entities_to_process e, process_loop) refl
  process_loop-drained (i ∷ is) (suc n) d e enough =
      rw (queue.front-cons i is d.entities_to_process e, process_loop)
        (process_loop-drained is n _ (queue.pop-foreground i is d.entities_to_process e)
          (omega (arith, enough)))

  pop_each-empties :
      (items : List Item) (q : queue.Queue)
      → queue.foreground q ≡ items
      → (queue.foreground (pop_each items q) ≡ [])
        × (queue.background (pop_each items q) ≡ queue.background q)
  unfolding pop_each
  pop_each-empties [] q e = (e, refl)
  pop_each-empties (i ∷ is) q e =
      let rest = pop_each-empties is (queue.pop q) (queue.pop-foreground i is q e) in
      (rest.0, rest.1 ∙ queue.pop-background q)

  -- When the consumer's half of the queue is empty, and the fuel is more than the number of items
  -- that wait, `process_queue` ends with every waiting item handled once, in the order in which they
  -- were pushed, and with both halves of the queue empty.
  pub process_queue-drains :
      (fuel : ℕ) (d : Db)
      → queue.foreground d.entities_to_process ≡ []
      → length (queue.background d.entities_to_process) < fuel
      → (after : Db) × (process_queue x World queue fuel d ≡ some after)
        × (after.catalog ≡ handle_all (queue.background d.entities_to_process) d.catalog)
        × (queue.foreground after.entities_to_process ≡ [])
        × (queue.background after.entities_to_process ≡ [])
  unfolding process_queue drained
  process_queue-drains fuel d empty enough =
      let q = d.entities_to_process in
      let items = queue.background q in
      let swapped = queue.swap-foreground q empty in
      let popped = pop_each-empties items (queue.swap q) swapped in
      (
        drained items (pop_each items (queue.swap q)) d,
        process_loop-drained items fuel (record d { entities_to_process = queue.swap q }) swapped
            enough,
        refl,
        popped.0,
        popped.1 ∙ queue.swap-background q empty,
      )

-- ===== src/Database/Stopped.antt =====
-- `stop` of dynamic/DiscoveryDatabase.cpp, and what comes after.
use dds_pipe.Base.{
  ◌≡◌, refl, sym, ◌∙◌, subst, true, Option, none, some, List, [], ◌∷◌, Key, ℕ, arith, if-induct,
}
use dds_pipe.Map.{Map, lookup}
use dds_pipe.Pipe.Parts.{Parts}
use dds_pipe.Pipe.Defs.{Endpoint}
use dds_pipe.Database.Defs.{
  DatabaseOperation, add, update, erases, DbQueue, Catalog, Database, Callback, call_all, handle,
  stop, clear_all_callbacks, queue_processing_round,
}
use dds_pipe.Database.Drain.{handle_all}
use dds_pipe.Database.Entities.{left_by, handle-left_by}

module _ (x : Parts) (World : Type 0) (queue : DbQueue (DatabaseOperation × Endpoint x)) where
  instance abbrev guid_key : Key x.Guid
  guid_key = x.guid_key

  abbrev Cat : Type 0
  Cat = Catalog x World queue

  record IsSilent (c : Cat) : Type 0 where
    added : c.added_endpoint_callbacks ≡ []
    updated : c.updated_endpoint_callbacks ≡ []
    removed : c.erased_endpoint_callbacks ≡ []

  -- A catalog that is silent as well, and in the same world.
  abbrev Unheard : Cat → Cat → Type 0
  Unheard c d = (d.world ≡ c.world) × IsSilent d

  none_called :
      (fs : List (Callback x World queue)) (e : Endpoint x) (c d : Cat)
      → fs ≡ []
      → Unheard c d
      → Unheard c (call_all x World queue fs e d)
  unfolding call_all
  none_called fs e c d empty u =
      subst (λ gs. Unheard c (call_all x World queue gs e d)) (sym empty) u

  changed :
      (c : Cat) (m : Map x.Guid (Endpoint x)) → IsSilent c → Unheard c (record c { entities = m })
  changed c m s = (refl, record { added = s.added; updated = s.updated; removed = s.removed })

  left_by-Unheard :
      (op : DatabaseOperation) (e : Endpoint x) (c : Cat) (o : Option (Endpoint x))
      → IsSilent c
      → Unheard c (left_by x World queue op e c o)
  unfolding left_by
  left_by-Unheard add e c none s = none_called _ e c _ s.added (changed c _ s)
  left_by-Unheard add e c (some old) s =
      if-induct (Unheard c) old.active _ _ (λ active. (refl, s)) (λ idle. changed c _ s)
  left_by-Unheard update e c none s = (refl, s)
  left_by-Unheard update e c (some old) s = none_called _ e c _ s.updated (changed c _ s)
  left_by-Unheard erases e c none s = (refl, s)
  left_by-Unheard erases e c (some old) s = none_called _ e c _ s.removed (changed c _ s)

  handle_all-world :
      (items : List (DatabaseOperation × Endpoint x)) (c : Cat)
      → IsSilent c
      → (handle_all x World queue items c).world ≡ c.world
  unfolding handle_all
  handle_all-world [] c s = refl
  handle_all-world ((op, e) ∷ is) c s =
      let u : Unheard c (handle x World queue (op, e) c) =
        subst (Unheard c) (sym (handle-left_by x World queue op e c))
          (left_by-Unheard op e c (lookup e.guid c.entities) s) in
      handle_all-world is (handle x World queue (op, e) c) u.1 ∙ u.0

  -- After `stop` of a database that is enabled, no operation, whatever they are, calls a callback: the
  -- world stays as it is. And the thread, when it wakes up, ends.
  pub stop_silences :
      (items : List (DatabaseOperation × Endpoint x)) (fuel : ℕ) (d : Database x World queue)
      → d.enabled ≡ true
      → ((handle_all x World queue items (stop x World queue d).catalog).world ≡ d.catalog.world)
        × (queue_processing_round x World queue fuel (stop x World queue d) ≡ none)
  unfolding stop clear_all_callbacks queue_processing_round
  stop_silences items fuel d on =
      let c : Cat = clear_all_callbacks x World queue d.catalog in
      let quiet : (handle_all x World queue items c).world ≡ d.catalog.world =
        handle_all-world items c (record { added = refl; updated = refl; removed = refl }) in
      let After : Database x World queue → Type 0 = λ a.
        ((handle_all x World queue items a.catalog).world ≡ d.catalog.world)
        × (queue_processing_round x World queue fuel a ≡ none) in
      if-induct After d.enabled _ d (λ yes_on. (quiet, refl)) (λ off. ground (arith, on, off))

-- ===== src/Database/Driven.antt =====
-- A pipe whose callbacks the database calls: DdsPipe registers them in its constructor.
use dds_pipe.Base.{
  ◌≡◌, refl, sym, subst, ap, ◌∙◌, Option, none, some, List, [], ◌∷◌, ◌++◌, if◌then◌else◌, Key,
  Bool-cases, inl, inr,
}
use dds_pipe.Map.{Map, lookup, insert, erase}
use dds_pipe.Pipe.Parts.{Parts}
use dds_pipe.Pipe.Defs.{Endpoint, Pipe}
use dds_pipe.Pipe.Discovery.{discovered_endpoint, removed_endpoint, updated_endpoint}
use dds_pipe.Pipe.History.{Event, discovers, removes, updates, run, step}
use dds_pipe.Database.Defs.{
  DatabaseOperation, add, update, erases, DbQueue, Catalog, Callback, call_all, handle,
  add_endpoint_discovered_callback, add_endpoint_updated_callback, add_endpoint_erased_callback,
}
use dds_pipe.Database.Drain.{handle_all}
use dds_pipe.Database.Entities.{left_by, handle-left_by, stored, erased}

module _ (x : Parts) (queue : DbQueue (DatabaseOperation × Endpoint x)) where
  instance abbrev guid_key : Key x.Guid
  guid_key = x.guid_key

  instance abbrev topic_key : Key x.Topic
  topic_key = x.topic_key

  abbrev Cat : Type 0
  Cat = Catalog x (Pipe x) queue

  abbrev Item : Type 0
  Item = DatabaseOperation × Endpoint x

  -- The callbacks that the constructor of DdsPipe registers.
  unfoldable pub registered : Pipe x → Cat
  unfolding add_endpoint_discovered_callback add_endpoint_updated_callback
      add_endpoint_erased_callback
  registered p = add_endpoint_erased_callback x (Pipe x) queue (removed_endpoint x) (
      add_endpoint_updated_callback x (Pipe x) queue (updated_endpoint x) (
        add_endpoint_discovered_callback x (Pipe x) queue (discovered_endpoint x) (record {
          entities = [];
          added_endpoint_callbacks = [];
          updated_endpoint_callbacks = [];
          erased_endpoint_callbacks = [];
          world = p;
        })))

  -- The catalog has the callbacks of a pipe, and nobody else's.
  record Listens (c : Cat) : Type 0 where
    added : c.added_endpoint_callbacks ≡ discovered_endpoint x ∷ []
    updated : c.updated_endpoint_callbacks ≡ updated_endpoint x ∷ []
    removed : c.erased_endpoint_callbacks ≡ removed_endpoint x ∷ []

  -- What an operation is to the pipe, by what was stored under the endpoint's Guid.
  abbrev pub heard :
      DatabaseOperation
      → Endpoint x
      → Map x.Guid (Endpoint x)
      → Option (Endpoint x)
      → List (Event x)
  heard add e m none = discovers (insert e.guid e m) e ∷ []
  heard add e m (some old) = []
  heard update e m none = []
  heard update e m (some old) = updates (insert e.guid e m) e ∷ []
  heard erases e m none = []
  heard erases e m (some old) = removes (erase e.guid m) e ∷ []

  -- What an operation makes of the stored endpoints.
  abbrev pub kept :
      DatabaseOperation
      → Endpoint x
      → Map x.Guid (Endpoint x)
      → Option (Endpoint x)
      → Map x.Guid (Endpoint x)
  kept add e m none = insert e.guid e m
  kept add e m (some old) = if old.active then m else insert e.guid e m
  kept update e m none = m
  kept update e m (some old) = insert e.guid e m
  kept erases e m none = m
  kept erases e m (some old) = erase e.guid m

  -- What some operations are to the pipe, one after the other.
  unfoldable pub events : List Item → Map x.Guid (Endpoint x) → List (Event x)
  events [] m = []
  events ((op, e) ∷ is) m =
      heard op e m (lookup e.guid m) ++ events is (kept op e m (lookup e.guid m))

  -- A catalog still listens, its pipe has had some events, and it stores some endpoints.
  abbrev Hears : Cat → List (Event x) → Map x.Guid (Endpoint x) → Cat → Type 0
  Hears c es m d = (d.world ≡ run x es c.world) × Listens d × (d.entities ≡ m)

  called_once :
      (f : Callback x (Pipe x) queue) (fs : List (Callback x (Pipe x) queue)) (e : Endpoint x)
      (c : Cat) (es : List (Event x))
      → fs ≡ f ∷ []
      → f c.entities e c.world ≡ run x es c.world
      → Listens c
      → Hears c es c.entities (call_all x (Pipe x) queue fs e c)
  unfolding call_all
  called_once f fs e c es one same l =
      subst (λ gs. Hears c es c.entities (call_all x (Pipe x) queue gs e c)) (sym one)
        (same, record { added = l.added; updated = l.updated; removed = l.removed }, refl)

  left_by-heard :
      (op : DatabaseOperation) (e : Endpoint x) (c : Cat) (o : Option (Endpoint x))
      → Listens c
      → Hears c
          (heard op e c.entities o)
          (kept op e c.entities o)
          (left_by x (Pipe x) queue op e c o)
  unfolding left_by run step
  left_by-heard add e c none l =
      called_once (discovered_endpoint x) _ e (stored x (Pipe x) queue e c)
        (heard add e c.entities none) l.added refl
        (record { added = l.added; updated = l.updated; removed = l.removed })
  left_by-heard add e c (some old) l = elim (Bool-cases old.active) [
    | inl active ↦ rw active (refl, l, refl)
    | inr idle ↦
        rw idle (refl, record { added = l.added; updated = l.updated; removed = l.removed }, refl)
  ]
  left_by-heard update e c none l = (refl, l, refl)
  left_by-heard update e c (some old) l =
      called_once (updated_endpoint x) _ e (stored x (Pipe x) queue e c)
        (heard update e c.entities (some old)) l.updated refl
        (record { added = l.added; updated = l.updated; removed = l.removed })
  left_by-heard erases e c none l = (refl, l, refl)
  left_by-heard erases e c (some old) l =
      called_once (removed_endpoint x) _ e (erased x (Pipe x) queue e c)
        (heard erases e c.entities (some old)) l.removed refl
        (record { added = l.added; updated = l.updated; removed = l.removed })

  run-append : (es fs : List (Event x)) (p : Pipe x) → run x (es ++ fs) p ≡ run x fs (run x es p)
  unfolding run
  run-append [] fs p = refl
  run-append (e ∷ es) fs p = run-append es fs (step x e p)

  handle_all-events :
      (items : List Item) (c : Cat)
      → Listens c
      → (handle_all x (Pipe x) queue items c).world ≡ run x (events items c.entities) c.world
  unfolding handle_all run events
  handle_all-events [] c l = refl
  handle_all-events ((op, e) ∷ is) c l =
      let m = c.entities in
      let o = lookup e.guid m in
      let d = handle x (Pipe x) queue (op, e) c in
      let first : Hears c (heard op e m o) (kept op e m o) d =
        subst (Hears c (heard op e m o) (kept op e m o))
          (sym (handle-left_by x (Pipe x) queue op e c)) (left_by-heard op e c o l) in
      handle_all-events is d first.1
      ∙ ap (λ n. run x (events is n) d.world) first.2
      ∙ ap (run x (events is (kept op e m o))) first.0
      ∙ sym (run-append (heard op e m o) (events is (kept op e m o)) c.world)

  registered-Listens : (p : Pipe x) → Listens (registered p)
  unfolding registered
  registered-Listens p = record { added = refl; updated = refl; removed = refl }

  -- A pipe registers its callbacks with an empty database, and the database works off any operations in
  -- order. This makes of the pipe what a sequence of its own callbacks makes of it, one for each
  -- operation that the database accepts: a discovery for an endpoint that is new, an update or a removal
  -- for one that is stored, each with the endpoints that are stored then. An endpoint that is added
  -- again is no event, nor is a change or a removal of one that is not stored.
  pub discovery_drives_pipe :
      (p : Pipe x) (items : List Item)
      → (handle_all x (Pipe x) queue items (registered p)).world ≡ run x (events items []) p
  unfolding registered
  discovery_drives_pipe p items = handle_all-events items (registered p) (registered-Listens p)

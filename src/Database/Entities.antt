-- ===== src/Database/Entities.antt =====
-- What becomes of each endpoint of the database, and which operations the callbacks are told of.
use dds_pipe.Base.{
  ◌≡◌, refl, sym, ap, ◌∙◌, true, false, Option, none, some, List, [], ◌∷◌, if◌then◌else◌, Key, ite,
  Option-cases, inl, inr, arith, if-induct,
}
use dds_pipe.Map.{Map, lookup, insert, erase, lookup-insert, lookup-erase}
use dds_pipe.Pipe.Parts.{Parts}
use dds_pipe.Pipe.Defs.{Endpoint}
use dds_pipe.Database.Defs.{
  DatabaseOperation, add, update, erases, DbQueue, Catalog, Callback, call_all, add_endpoint_,
  update_endpoint_, erase_endpoint_, attempt, handle,
}
use dds_pipe.Database.Drain.{handle_all}

module _ (x : Parts) (World : Type 0) (queue : DbQueue (DatabaseOperation × Endpoint x)) where
  instance abbrev guid_key : Key x.Guid
  guid_key = x.guid_key

  abbrev Item : Type 0
  Item = DatabaseOperation × Endpoint x

  abbrev Cat : Type 0
  Cat = Catalog x World queue

  -- What an operation makes of what the database has under the endpoint's Guid.
  unfoldable pub next : DatabaseOperation → Endpoint x → Option (Endpoint x) → Option (Endpoint x)
  next add e none = some e
  next add e (some old) = some (if old.active then old else e)
  next update e none = none
  next update e (some old) = some e
  next erases e old = none

  -- The life of one Guid: the operations on other endpoints do not count.
  unfoldable pub life : x.Guid → List Item → Option (Endpoint x) → Option (Endpoint x)
  unfolding next
  life g [] o = o
  life g ((op, e) ∷ is) o = life g is (ite (guid_key.dec g e.guid) (next op e o) o)

  call_all-entities :
      (fs : List (Callback x World queue)) (e : Endpoint x) (c : Cat)
      → (call_all x World queue fs e c).entities ≡ c.entities
  unfolding call_all
  call_all-entities [] e c = refl
  call_all-entities (f ∷ fs) e c =
      call_all-entities fs e (record c { world = f c.entities e c.world })

  abbrev pub stored : Endpoint x → Cat → Cat
  stored e c = record c { entities = insert e.guid e c.entities }

  abbrev pub erased : Endpoint x → Cat → Cat
  erased e c = record c { entities = erase e.guid c.entities }

  handle-entities :
      (op : DatabaseOperation) (e : Endpoint x) (c : Cat) (g : x.Guid)
      → lookup g (handle x World queue (op, e) c).entities
        ≡ ite (guid_key.dec g e.guid) (next op e (lookup g c.entities)) (lookup g c.entities)
  unfolding handle attempt add_endpoint_ update_endpoint_ erase_endpoint_ next
  handle-entities add e c g = elim (Option-cases (lookup e.guid c.entities)) [
    | inl new ↦ ground (
      arith,
      new,
      lookup-insert g e.guid e c.entities,
      call_all-entities c.added_endpoint_callbacks e (stored e c),
    )
    | inr (old, known) ↦ ground (arith, known, lookup-insert g e.guid e c.entities)
  ]
  handle-entities update e c g = elim (Option-cases (lookup e.guid c.entities)) [
    | inl new ↦ ground (arith, new)
    | inr (old, known) ↦ ground (
      arith,
      known,
      lookup-insert g e.guid e c.entities,
      call_all-entities c.updated_endpoint_callbacks e (stored e c),
    )
  ]
  handle-entities erases e c g = elim (Option-cases (lookup e.guid c.entities)) [
    | inl new ↦ ground (arith, new)
    | inr (old, known) ↦ ground (
      arith,
      known,
      lookup-erase g e.guid c.entities,
      call_all-entities c.erased_endpoint_callbacks e (erased e c),
    )
  ]

  -- After any operations, in order, what the database has under a Guid is the result of the
  -- operations on that Guid alone: an addition is refused where an active endpoint is stored, an
  -- update where none is stored, and an erasure leaves none.
  pub endpoint_has_own_life :
      (items : List Item) (c : Cat) (g : x.Guid)
      → lookup g (handle_all x World queue items c).entities ≡ life g items (lookup g c.entities)
  unfolding handle_all life
  endpoint_has_own_life [] c g = refl
  endpoint_has_own_life ((op, e) ∷ is) c g =
      endpoint_has_own_life is (handle x World queue (op, e) c) g
      ∙ ap (life g is) (handle-entities op e c g)

  -- The world after each callback of a list has been called once, in order.
  unfoldable pub told :
      List (Callback x World queue) → Map x.Guid (Endpoint x) → Endpoint x → World → World
  told [] m e w = w
  told (f ∷ fs) m e w = told fs m e (f m e w)

  call_all-world :
      (fs : List (Callback x World queue)) (e : Endpoint x) (c : Cat)
      → (call_all x World queue fs e c).world ≡ told fs c.entities e c.world
  unfolding call_all told
  call_all-world [] e c = refl
  call_all-world (f ∷ fs) e c = call_all-world fs e (record c { world = f c.entities e c.world })

  -- The callbacks that an operation calls: none where it is refused, and none where it stores an
  -- endpoint over one that is inactive.
  unfoldable pub listeners :
      DatabaseOperation → Option (Endpoint x) → Cat → List (Callback x World queue)
  listeners add none c = c.added_endpoint_callbacks
  listeners add (some old) c = []
  listeners update none c = []
  listeners update (some old) c = c.updated_endpoint_callbacks
  listeners erases none c = []
  listeners erases (some old) c = c.erased_endpoint_callbacks

  -- What an operation leaves, by what was stored.
  unfoldable pub left_by : DatabaseOperation → Endpoint x → Cat → Option (Endpoint x) → Cat
  left_by add e c none = call_all x World queue c.added_endpoint_callbacks e (stored e c)
  left_by add e c (some old) = if old.active then c else stored e c
  left_by update e c none = c
  left_by update e c (some old) = call_all x World queue c.updated_endpoint_callbacks e (stored e c)
  left_by erases e c none = c
  left_by erases e c (some old) = call_all x World queue c.erased_endpoint_callbacks e (erased e c)

  pub handle-left_by :
      (op : DatabaseOperation) (e : Endpoint x) (c : Cat)
      → handle x World queue (op, e) c ≡ left_by op e c (lookup e.guid c.entities)
  unfolding handle attempt add_endpoint_ update_endpoint_ erase_endpoint_ left_by
  handle-left_by add e c =
      elim (lookup e.guid c.entities)
        as (λ o.
          (elim (elim o as (λ o'. Option Cat) [
            | some old ↦ if old.active then none else some (stored e c)
            | none ↦ some (call_all x World queue c.added_endpoint_callbacks e (stored e c))
          ])
            as (λ r. Cat) [ none ↦ c | some after ↦ after ])
          ≡ left_by add e c o) [
            | none ↦ refl
            | some old ↦
                elim old.active
                  as (λ b.
                    (elim (if b then none else some (stored e c)) as (λ r. Cat) [
                      | none ↦ c
                      | some after ↦ after
                    ])
                    ≡ (if b then c else stored e c)) [ true ↦ refl | false ↦ refl ]
          ]
  handle-left_by update e c =
      elim (lookup e.guid c.entities)
        as (λ o.
          (elim (elim o as (λ o'. Option Cat) [
            | none ↦ none
            | some old ↦ some (call_all x World queue c.updated_endpoint_callbacks e (stored e c))
          ])
            as (λ r. Cat) [ none ↦ c | some after ↦ after ])
          ≡ left_by update e c o) [ none ↦ refl | some old ↦ refl ]
  handle-left_by erases e c =
      elim (lookup e.guid c.entities)
        as (λ o.
          (elim (elim o as (λ o'. Option Cat) [
            | none ↦ none
            | some old ↦ some (call_all x World queue c.erased_endpoint_callbacks e (erased e c))
          ])
            as (λ r. Cat) [ none ↦ c | some after ↦ after ])
          ≡ left_by erases e c o) [ none ↦ refl | some old ↦ refl ]

  left_by-world :
      (op : DatabaseOperation) (e : Endpoint x) (c : Cat) (o : Option (Endpoint x))
      → (left_by op e c o).world ≡ told (listeners op o c) (left_by op e c o).entities e c.world
  unfolding left_by listeners told
  left_by-world add e c none =
      call_all-world c.added_endpoint_callbacks e (stored e c)
      ∙ ap (λ m. told c.added_endpoint_callbacks m e c.world)
          (sym (call_all-entities c.added_endpoint_callbacks e (stored e c)))
  left_by-world add e c (some old) =
      if-induct (λ (d : Cat). d.world ≡ c.world) old.active _ _ (λ active. refl) (λ idle. refl)
  left_by-world update e c none = refl
  left_by-world update e c (some old) =
      call_all-world c.updated_endpoint_callbacks e (stored e c)
      ∙ ap (λ m. told c.updated_endpoint_callbacks m e c.world)
          (sym (call_all-entities c.updated_endpoint_callbacks e (stored e c)))
  left_by-world erases e c none = refl
  left_by-world erases e c (some old) =
      call_all-world c.erased_endpoint_callbacks e (erased e c)
      ∙ ap (λ m. told c.erased_endpoint_callbacks m e c.world)
          (sym (call_all-entities c.erased_endpoint_callbacks e (erased e c)))

  -- An operation calls each callback of its kind once, with the entities as they are after the
  -- operation, when it is accepted and does not store over an inactive endpoint. Otherwise, also when
  -- an endpoint that was inactive is added again, it calls none, and the world stays as it is.
  pub callbacks_called :
      (op : DatabaseOperation) (e : Endpoint x) (c : Cat)
      → (handle x World queue (op, e) c).world
        ≡ told
            (listeners op (lookup e.guid c.entities) c)
            (handle x World queue (op, e) c).entities
            e
            c.world
  callbacks_called op e c =
      rw (handle-left_by op e c) (left_by-world op e c (lookup e.guid c.entities))

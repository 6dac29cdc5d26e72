-- ===== src/Pipe/History.antt =====
-- The histories of a pipe: the calls of its methods and its callbacks, in the order in which the
-- mutex of the pipe lets them in.
use dds_pipe.Map.{Map, lookup, lookup-insert, lookup-emplace}
use dds_pipe.Base.{
  ◌≡◌, refl, Bool, true, false, some, List, [], ◌∷◌, if◌then◌else◌, Key, arith, inl, inr,
  Option-cases, ◌∙◌, ap, if-induct,
}
use dds_pipe.Pipe.Parts.{Parts}
use dds_pipe.Pipe.Defs.{
  Endpoint, Configuration, Pipe, on_bridge, create_new_bridge, enable, disable,
  reload_allowed_topics,
}
use dds_pipe.Pipe.Discovery.{
  discovered_topic, discovered_endpoint, removed_endpoint, updated_endpoint, init_bridges, create,
}
use dds_pipe.Pipe.Invariant.{Inv}
use dds_pipe.Pipe.Runs.{
  discovered_endpoint-Inv, discovered_topic-Inv, removed_endpoint-Inv, updated_endpoint-Inv,
}
use dds_pipe.Pipe.Methods.{enable-Inv, disable-Inv, reload-Inv}

module _ (x : Parts) where
  open x use {
    Topic, Bridge, is_topic_allowed, create_bridge, enable_bridge, bridge_enabled, created_disabled,
    enable_enabled, disable_disabled,
  }

  instance abbrev topic_key : Key Topic
  topic_key = x.topic_key

  instance abbrev service_key : Key x.Service
  service_key = x.service_key

  instance abbrev guid_key : Key x.Guid
  guid_key = x.guid_key

  -- What happens to a pipe. A callback carries the database of endpoints at that time.
  pub data Event : Type 0 where
    enables disables : Event
    reloads : x.Allowed → Event
    discovers removes updates : Map x.Guid (Endpoint x) → Endpoint x → Event

  unfoldable pub step : Event → Pipe x → Pipe x
  unfolding enable disable reload_allowed_topics discovered_endpoint removed_endpoint
      updated_endpoint
  step enables p = (enable x p).0
  step disables p = (disable x p).0
  step (reloads l) p = (reload_allowed_topics x l p).0
  step (discovers m e) p = discovered_endpoint x m e p
  step (removes m e) p = removed_endpoint x m e p
  step (updates m e) p = updated_endpoint x m e p

  unfoldable pub run : List Event → Pipe x → Pipe x
  unfolding step
  run [] p = p
  run (e ∷ es) p = run es (step e p)

  step-Inv : (e : Event) (p : Pipe x) → Inv x p → Inv x (step e p)
  unfolding step
  step-Inv enables p v = enable-Inv x p v
  step-Inv disables p v = disable-Inv x p v
  step-Inv (reloads l) p v = reload-Inv x l p v
  step-Inv (discovers m e) p v = discovered_endpoint-Inv x m e p v
  step-Inv (removes m e) p v = removed_endpoint-Inv x m e p v
  step-Inv (updates m e) p v = updated_endpoint-Inv x m e p v

  run-Inv : (es : List Event) (p : Pipe x) → Inv x p → Inv x (run es p)
  unfolding run
  run-Inv [] p v = v
  run-Inv (e ∷ es) p v = run-Inv es (step e p) (step-Inv e p v)

  create_new-Inv :
      (t : Topic) (p : Pipe x)
      → Inv x p
      → lookup t p.current_topics ≡ some false
      → Inv x (create_new_bridge x t false p)
  unfolding create_new_bridge
  create_new-Inv t p v idle = record {
    linked = λ u b h. elim (Option-cases (create_bridge t)) [
      | inl failed ↦ ground (arith, failed, h, v.linked u b)
      | inr (c, made) ↦
          ground (
            arith,
            made,
            h,
            v.linked u b,
            created_disabled t c,
            idle,
            lookup-insert u t c p.bridges,
          )
    ];
    unique = ground (arith, v.unique);
    decided = λ u a h. ground (arith, v.decided u a);
  }

  discovered_idle :
      (t : Topic) (p : Pipe x)
      → Inv x p
      → p.enabled ≡ false
      → lookup t (discovered_topic x t p).current_topics ≡ some false
  unfolding discovered_topic on_bridge
  discovered_idle t p v off = elim (Option-cases (lookup t p.bridges)) [
    | inl new ↦ ground (
      arith,
      new,
      off,
      lookup-emplace t t false p.current_topics,
      v.decided t true,
      v.decided t false,
    )
    | inr (b, known) ↦
        ground (arith, known, off, v.linked t b known, v.decided t (bridge_enabled b))
  ]

  init_step_off :
      (t : Topic) (p : Pipe x)
      → p.enabled ≡ false
      → (create_new_bridge x t false (discovered_topic x t p)).enabled ≡ false
  unfolding create_new_bridge discovered_topic on_bridge
  init_step_off t p off = ground (arith, off)

  init_bridges-Inv :
      (ts : List Topic) (p : Pipe x) → Inv x p → p.enabled ≡ false → Inv x (init_bridges x ts p)
  unfolding init_bridges
  init_bridges-Inv [] p v off = v
  init_bridges-Inv (t ∷ ts) p v off =
      init_bridges-Inv ts (create_new_bridge x t false (discovered_topic x t p))
        (create_new-Inv t (discovered_topic x t p) (discovered_topic-Inv x t p v)
          (discovered_idle t p v off))
        (init_step_off t p off)

  abbrev pub start : Configuration x → x.Allowed → Pipe x
  start c l = record {
    configuration = c;
    allowed_topics = l;
    bridges = [];
    rpc_bridges = [];
    current_topics = [];
    current_services = [];
    enabled = false;
  }

  start-Inv : (c : Configuration x) (l : x.Allowed) → Inv x (start c l)
  unfolding lookup
  start-Inv c l = record {
    linked = λ t b h. ground (arith, h);
    unique = tt;
    decided = λ t a h. ground (arith, h);
  }

  pub create-Inv :
      (c : Configuration x) (l : x.Allowed) (ts : List Topic) (on : Bool)
      → Inv x (create x c l ts on)
  unfolding create
  create-Inv c l ts on =
      let ready = init_bridges-Inv ts (start c l) (start-Inv c l) refl in
      if-induct (Inv x) on _ _ (λ now. enable-Inv x _ ready) (λ later. ready)

  abbrev is_forwarded : Pipe x → Topic → Bool
  is_forwarded p t = if p.enabled then is_topic_allowed p.allowed_topics t else false

  -- After the constructor and any calls and callbacks, in any order, the bridge of each topic is
  -- enabled exactly when the pipe is enabled and its list allows the topic, and the entry that the
  -- pipe keeps for the topic says the same.
  pub bridges_follow_list :
      (c : Configuration x) (l : x.Allowed) (ts : List Topic) (on : Bool) (es : List Event)
      (t : Topic) (b : Bridge)
      → lookup t (run es (create x c l ts on)).bridges ≡ some b
      → (bridge_enabled b ≡ is_forwarded (run es (create x c l ts on)) t)
        × (lookup t (run es (create x c l ts on)).current_topics
            ≡ some (is_forwarded (run es (create x c l ts on)) t))
  bridges_follow_list c l ts on es t b h =
      let p = run es (create x c l ts on) in
      let v : Inv x p = run-Inv es _ (create-Inv c l ts on) in
      let entry = v.linked t b h in
      let same = v.decided t (bridge_enabled b) entry in (same, entry ∙ ap some same)

-- ===== src/Pipe/Topics.antt =====
-- Which topics are active, and which bridges are enabled.
use dds_pipe.Map.{lookup, lookup-insert}
use dds_pipe.Base.{
  ◌≡◌, Bool, true, false, some, if◌then◌else◌, Key, arith, inl, inr, Option-cases, ite,
}
use dds_pipe.Pipe.Parts.{Parts}
use dds_pipe.Pipe.Defs.{Pipe, on_bridge, create_new_bridge, activate_topic, deactivate_topic}

module _ (x : Parts) where
  open x use {
    Topic, Bridge, is_topic_allowed, create_bridge, enable_bridge, bridge_enabled, created_disabled,
    enable_enabled, disable_disabled,
  }

  instance abbrev topic_key : Key Topic
  topic_key = x.topic_key

  instance abbrev service_key : Key x.Service
  service_key = x.service_key

  -- The topic's entry and its bridge agree.
  abbrev pub IsLinked : Pipe x → Topic → Type 0
  IsLinked p t =
      (b : Bridge)
      → lookup t p.bridges ≡ some b
      → lookup t p.current_topics ≡ some (bridge_enabled b)

  -- A topic that is known is active exactly while the pipe is enabled and allows the topic.
  abbrev pub IsDecided : Pipe x → Topic → Type 0
  IsDecided p t =
      (a : Bool)
      → lookup t p.current_topics ≡ some a
      → a ≡ (if p.enabled then is_topic_allowed p.allowed_topics t else false)

  pub activate-IsLinked :
      (t u : Topic) (p : Pipe x) → IsLinked p u → IsLinked (activate_topic x t p) u
  unfolding activate_topic on_bridge create_new_bridge
  activate-IsLinked t u p l b e = elim (Option-cases (lookup t p.bridges)) [
    | inl none_there ↦ elim (Option-cases (create_bridge t)) [
      | inl failed ↦
          ground (arith, l b, lookup-insert u t true p.current_topics, none_there, failed)
      | inr (c, made) ↦ ground (
        arith,
        l b,
        enable_enabled c,
        lookup-insert u t true p.current_topics,
        lookup-insert u t (enable_bridge c) p.bridges,
        none_there,
        made,
      )
    ]
    | inr (c, there) ↦ ground (
      arith,
      l b,
      enable_enabled c,
      lookup-insert u t true p.current_topics,
      lookup-insert u t (enable_bridge c) p.bridges,
      there,
    )
  ]

  pub activate-current :
      (t u : Topic) (p : Pipe x)
      → lookup u (activate_topic x t p).current_topics
        ≡ ite (topic_key.dec u t) (some true) (lookup u p.current_topics)
  unfolding activate_topic on_bridge create_new_bridge
  activate-current t u p = ground (arith, lookup-insert u t true p.current_topics)

  pub deactivate-IsLinked :
      (t u : Topic) (p : Pipe x) → IsLinked p u → IsLinked (deactivate_topic x t p) u
  unfolding deactivate_topic on_bridge
  deactivate-IsLinked t u p l b e = elim (Option-cases (lookup t p.bridges)) [
    | inl none_there ↦ ground (arith, l b, lookup-insert u t false p.current_topics, none_there)
    | inr (c, there) ↦ ground (
      arith,
      l b,
      disable_disabled c,
      lookup-insert u t false p.current_topics,
      lookup-insert u t (x.disable_bridge c) p.bridges,
      there,
    )
  ]

  pub deactivate-current :
      (t u : Topic) (p : Pipe x)
      → lookup u (deactivate_topic x t p).current_topics
        ≡ ite (topic_key.dec u t) (some false) (lookup u p.current_topics)
  unfolding deactivate_topic on_bridge
  deactivate-current t u p = ground (arith, lookup-insert u t false p.current_topics)

  -- What no step of a loop changes.
  pub record Same (p q : Pipe x) : Type 0 where
    pub allowed : q.allowed_topics ≡ p.allowed_topics
    pub on : q.enabled ≡ p.enabled

  pub activate-Same : (t : Topic) (p : Pipe x) → Same p (activate_topic x t p)
  unfolding activate_topic on_bridge create_new_bridge
  activate-Same t p = ground arith

  pub deactivate-Same : (t : Topic) (p : Pipe x) → Same p (deactivate_topic x t p)
  unfolding deactivate_topic on_bridge
  deactivate-Same t p = ground arith

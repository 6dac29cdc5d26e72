-- ===== src/Pipe/Kept.antt =====
-- The loops over the topics of a DdsPipe (core/DdsPipe.cpp): the entries, the list and the switch.
use dds_pipe.Map.{Map, insert, Unique, insert-Unique}
use dds_pipe.Base.{◌≡◌, refl, Bool, true, false, [], ◌∷◌, if◌then◌else◌, Key, arith}
use dds_pipe.Pipe.Parts.{Parts}
use dds_pipe.Pipe.Defs.{
  Pipe, on_bridge, create_new_bridge, activate_topic, deactivate_topic, activate_topics,
  deactivate_topics, reload_topics,
}
use dds_pipe.Pipe.Topics.{Same, activate-Same, deactivate-Same}

module _ (x : Parts) where
  open x use {
    Topic, Bridge, is_topic_allowed, create_bridge, enable_bridge, bridge_enabled, created_disabled,
    enable_enabled, disable_disabled,
  }

  instance abbrev topic_key : Key Topic
  topic_key = x.topic_key

  instance abbrev service_key : Key x.Service
  service_key = x.service_key

  abbrev pub OneEach : Pipe x → Type 0
  OneEach p = Unique p.current_topics

  activated :
      (t : Topic) (p : Pipe x)
      → (activate_topic x t p).current_topics ≡ insert t true p.current_topics
  unfolding activate_topic on_bridge create_new_bridge
  activated t p = ground arith

  deactivated :
      (t : Topic) (p : Pipe x)
      → (deactivate_topic x t p).current_topics ≡ insert t false p.current_topics
  unfolding deactivate_topic on_bridge
  deactivated t p = ground arith

  pub activate-OneEach : (t : Topic) (p : Pipe x) → OneEach p → OneEach (activate_topic x t p)
  activate-OneEach t p u = rw (activated t p) (insert-Unique t true p.current_topics u)

  deactivate-OneEach : (t : Topic) (p : Pipe x) → OneEach p → OneEach (deactivate_topic x t p)
  deactivate-OneEach t p u = rw (deactivated t p) (insert-Unique t false p.current_topics u)

  pub activate_topics-OneEach :
      (m : Map Topic Bool) (p : Pipe x) → OneEach p → OneEach (activate_topics x m p)
  unfolding activate_topics
  activate_topics-OneEach [] p u = u
  activate_topics-OneEach ((t, a) ∷ m) p u =
      activate_topics-OneEach m _
        (elim (is_topic_allowed p.allowed_topics t)
          as (λ c. OneEach (if c then activate_topic x t p else p)) [
            | true ↦ activate-OneEach t p u
            | false ↦ u
          ])

  pub deactivate_topics-OneEach :
      (m : Map Topic Bool) (p : Pipe x) → OneEach p → OneEach (deactivate_topics x m p)
  unfolding deactivate_topics
  deactivate_topics-OneEach [] p u = u
  deactivate_topics-OneEach ((t, a) ∷ m) p u =
      deactivate_topics-OneEach m _ (deactivate-OneEach t p u)

  pub reload_topics-OneEach :
      (m : Map Topic Bool) (p : Pipe x) → OneEach p → OneEach (reload_topics x m p)
  unfolding reload_topics
  reload_topics-OneEach [] p u = u
  reload_topics-OneEach ((t, true) ∷ m) p u =
      reload_topics-OneEach m _
        (elim (is_topic_allowed p.allowed_topics t)
          as (λ c. OneEach (if c then p else deactivate_topic x t p)) [
            | true ↦ u
            | false ↦ deactivate-OneEach t p u
          ])
  reload_topics-OneEach ((t, false) ∷ m) p u =
      reload_topics-OneEach m _
        (elim (is_topic_allowed p.allowed_topics t)
          as (λ c. OneEach (if c then activate_topic x t p else p)) [
            | true ↦ activate-OneEach t p u
            | false ↦ u
          ])

  pub activate_topics-Same : (m : Map Topic Bool) (p : Pipe x) → Same x p (activate_topics x m p)
  unfolding activate_topics
  activate_topics-Same [] p = record { allowed = refl; on = refl }
  activate_topics-Same ((t, a) ∷ m) p = ground (
    arith,
    activate_topics-Same m
        (if is_topic_allowed p.allowed_topics t then activate_topic x t p else p),
    activate-Same x t p,
  )

  pub deactivate_topics-Same :
      (m : Map Topic Bool) (p : Pipe x) → Same x p (deactivate_topics x m p)
  unfolding deactivate_topics
  deactivate_topics-Same [] p = record { allowed = refl; on = refl }
  deactivate_topics-Same ((t, a) ∷ m) p =
      ground (arith, deactivate_topics-Same m (deactivate_topic x t p), deactivate-Same x t p)

-- ===== src/Pipe/Loops.antt =====
-- What the loops over the known topics do to each topic.
use dds_pipe.Map.{Map, lookup, contains, Unique}
use dds_pipe.Base.{
  ◌≡◌, refl, Bool, true, false, some, [], ◌∷◌, if◌then◌else◌, Key, arith, inl, inr, ◌∙◌, ap, ite,
  Bool-cases,
}
use dds_pipe.Pipe.Parts.{Parts}
use dds_pipe.Pipe.Defs.{
  Pipe, activate_topic, deactivate_topic, activate_topics, deactivate_topics, reload_topics,
}
use dds_pipe.Pipe.Topics.{
  IsLinked, Same, activate-IsLinked, activate-current, activate-Same, deactivate-IsLinked,
  deactivate-current, deactivate-Same,
}

module _ (x : Parts) where
  open x use {
    Topic, Bridge, is_topic_allowed, create_bridge, enable_bridge, bridge_enabled, created_disabled,
    enable_enabled, disable_disabled,
  }

  instance abbrev topic_key : Key Topic
  topic_key = x.topic_key

  instance abbrev service_key : Key x.Service
  service_key = x.service_key

  abbrev pub AllLinked : Pipe x → Type 0
  AllLinked p = (t : Topic) → IsLinked x p t

  pub activate_topics-linked :
      (m : Map Topic Bool) (p : Pipe x) → AllLinked p → AllLinked (activate_topics x m p)
  unfolding activate_topics
  activate_topics-linked [] p l = l
  activate_topics-linked ((t, a) ∷ m) p l = activate_topics-linked m _ (λ u.
      elim (is_topic_allowed p.allowed_topics t)
        as (λ c. IsLinked x (if c then activate_topic x t p else p) u) [
          | true ↦ activate-IsLinked x t u p (l u)
          | false ↦ l u
        ])

  -- What the loop makes of a topic that the loop comes to or that it passes over.
  pub activate_topics-current :
      (m : Map Topic Bool) (u : Topic) (p : Pipe x)
      → lookup u (activate_topics x m p).current_topics ≡ (
          if contains u m
          then (if is_topic_allowed p.allowed_topics u
              then some true
              else lookup u p.current_topics)
          else lookup u p.current_topics)
  unfolding activate_topics lookup
  activate_topics-current [] u p = refl
  activate_topics-current ((t, a) ∷ m) u p =
      elim (Bool-cases (is_topic_allowed p.allowed_topics t)) [
        | inl allowed ↦ ground (
          arith,
          allowed,
          activate_topics-current m u (activate_topic x t p),
          activate-current x t u p,
          (activate-Same x t p).allowed,
        )
        | inr refused ↦ ground (arith, refused, activate_topics-current m u p)
      ]

  pub deactivate_topics-linked :
      (m : Map Topic Bool) (p : Pipe x) → AllLinked p → AllLinked (deactivate_topics x m p)
  unfolding deactivate_topics
  deactivate_topics-linked [] p l = l
  deactivate_topics-linked ((t, a) ∷ m) p l =
      deactivate_topics-linked m _ (λ u. deactivate-IsLinked x t u p (l u))

  pub deactivate_topics-current :
      (m : Map Topic Bool) (u : Topic) (p : Pipe x)
      → lookup u (deactivate_topics x m p).current_topics
        ≡ (if contains u m then some false else lookup u p.current_topics)
  unfolding deactivate_topics lookup
  deactivate_topics-current [] u p = refl
  deactivate_topics-current ((t, a) ∷ m) u p =
      ground
        (arith, deactivate_topics-current m u (deactivate_topic x t p), deactivate-current x t u p)

  -- One step of the loop of `reload_allowed_topics_`.
  pub reload_step : Topic → Bool → Pipe x → Pipe x
  reload_step t active p =
      if active
      then (if is_topic_allowed p.allowed_topics t then p else deactivate_topic x t p)
      else if is_topic_allowed p.allowed_topics t
      then activate_topic x t p
      else p

  pub reload_step-IsLinked :
      (t : Topic) (a : Bool) (p : Pipe x) (u : Topic)
      → IsLinked x p u
      → IsLinked x (reload_step t a p) u
  unfolding reload_step
  reload_step-IsLinked t a p u l = elim a as (λ c. IsLinked x (reload_step t c p) u) [
    | true ↦
        elim (is_topic_allowed p.allowed_topics t)
          as (λ c. IsLinked x (if c then p else deactivate_topic x t p) u) [
            | true ↦ l
            | false ↦ deactivate-IsLinked x t u p l
          ]
    | false ↦
        elim (is_topic_allowed p.allowed_topics t)
          as (λ c. IsLinked x (if c then activate_topic x t p else p) u) [
            | true ↦ activate-IsLinked x t u p l
            | false ↦ l
          ]
  ]

  pub reload_step-Same : (t : Topic) (a : Bool) (p : Pipe x) → Same x p (reload_step t a p)
  unfolding reload_step
  reload_step-Same t a p = ground (arith, activate-Same x t p, deactivate-Same x t p)

  pub reload_step-current :
      (t : Topic) (a : Bool) (p : Pipe x) (u : Topic)
      → lookup u (reload_step t a p).current_topics
        ≡ ite
            (topic_key.dec u t)
            (if a
              then (if is_topic_allowed p.allowed_topics t
                  then lookup u p.current_topics
                  else some false)
              else if is_topic_allowed p.allowed_topics t
              then some true
              else lookup u p.current_topics)
            (lookup u p.current_topics)
  unfolding reload_step
  reload_step-current t a p u = ground (arith, activate-current x t u p, deactivate-current x t u p)

  pub reload_topics-linked :
      (m : Map Topic Bool) (p : Pipe x) → AllLinked p → AllLinked (reload_topics x m p)
  unfolding reload_topics reload_step
  reload_topics-linked [] p l = l
  reload_topics-linked ((t, a) ∷ m) p l =
      reload_topics-linked m (reload_step t a p) (λ u. reload_step-IsLinked t a p u (l u))

  pub reload_topics-nil : (p : Pipe x) → reload_topics x [] p ≡ p
  unfolding reload_topics
  reload_topics-nil p = refl

  pub reload_topics-cons :
      (t : Topic) (a : Bool) (m : Map Topic Bool) (p : Pipe x)
      → reload_topics x ((t, a) ∷ m) p ≡ reload_topics x m (reload_step t a p)
  unfolding reload_topics reload_step
  reload_topics-cons t a m p = refl

  -- What the loop makes of the entries that the loop comes to: each follows the list.
  pub reload_topics-current :
      (m : Map Topic Bool) (u : Topic) (p : Pipe x)
      → Unique m
      → ((a : Bool) → lookup u m ≡ some a → lookup u p.current_topics ≡ some a)
      → lookup u (reload_topics x m p).current_topics ≡ (
          if contains u m
          then some (is_topic_allowed p.allowed_topics u)
          else lookup u p.current_topics)
  unfolding lookup
  reload_topics-current [] u p d h =
      ap (λ (q : Pipe x). lookup u q.current_topics) (reload_topics-nil p)
  reload_topics-current ((t, a) ∷ m) u p d h = rw (reload_topics-cons t a m p) (
      reload_topics-current m u (reload_step t a p) d.1
        (λ b e. ground (arith, h b, reload_step-current t a p u, d.0, e))
      ∙ ground (arith, reload_step-current t a p u, (reload_step-Same t a p).allowed, h a, d.0))

  pub reload_topics-Same : (m : Map Topic Bool) (p : Pipe x) → Same x p (reload_topics x m p)
  reload_topics-Same [] p = rw (reload_topics-nil p) (record { allowed = refl; on = refl })
  reload_topics-Same ((t, a) ∷ m) p =
      rw (reload_topics-cons t a m p)
        (ground (arith, reload_topics-Same m (reload_step t a p), reload_step-Same t a p))

-- ===== src/Pipe/Invariant.antt =====
-- The invariant of a DdsPipe (core/DdsPipe.cpp) over its topics, bridges and list.
use dds_pipe.Map.{Map, Unique}
use dds_pipe.Base.{◌≡◌, Bool, true, false, [], ◌∷◌, if◌then◌else◌, Key, arith}
use dds_pipe.Pipe.Parts.{Parts}
use dds_pipe.Pipe.Defs.{Pipe, on_service, enable_services, reload_service, reload_services}
use dds_pipe.Pipe.Topics.{IsLinked, IsDecided}

module _ (x : Parts) where
  open x use {
    Topic, Bridge, is_topic_allowed, create_bridge, enable_bridge, bridge_enabled, created_disabled,
    enable_enabled, disable_disabled,
  }

  instance abbrev topic_key : Key Topic
  topic_key = x.topic_key

  instance abbrev service_key : Key x.Service
  service_key = x.service_key

  pub record Inv (p : Pipe x) : Type 0 where
    pub linked : (t : Topic) → IsLinked x p t
    pub unique : Unique p.current_topics
    pub decided : (t : Topic) → IsDecided x p t

  -- The pipes have the same topics and bridges of topics.
  pub record SameTopics (p q : Pipe x) : Type 0 where
    pub bridges : q.bridges ≡ p.bridges
    pub current : q.current_topics ≡ p.current_topics
    pub allowed : q.allowed_topics ≡ p.allowed_topics
    pub on : q.enabled ≡ p.enabled

  pub SameTopics-Inv : (p q : Pipe x) → SameTopics p q → Inv p → Inv q
  SameTopics-Inv p q e v = record {
    linked = λ t b h. ground (arith, e, v.linked t b);
    unique = rw e.current v.unique;
    decided = λ t a h. ground (arith, e, v.decided t a);
  }

  pub on_service-SameTopics :
      (f : x.RpcBridge → x.RpcBridge) (s : x.Service) (p : Pipe x)
      → SameTopics p (on_service x f s p)
  unfolding on_service
  on_service-SameTopics f s p = ground arith

  pub enable_services-Inv :
      (m : Map x.Service Bool) (p : Pipe x) → Inv p → Inv (enable_services x m p)
  unfolding enable_services
  enable_services-Inv [] p v = v
  enable_services-Inv ((s, a) ∷ m) p v =
      enable_services-Inv m _
        (elim a as (λ c. Inv (if c then on_service x x.enable_service s p else p)) [
          | true ↦ SameTopics-Inv p _ (on_service-SameTopics x.enable_service s p) v
          | false ↦ v
        ])

  pub reload_services-Inv :
      (m : Map x.Service Bool) (p : Pipe x) → Inv p → Inv (reload_services x m p)
  unfolding reload_services reload_service
  reload_services-Inv [] p v = v
  reload_services-Inv ((s, a) ∷ m) p v = reload_services-Inv m _ (
      SameTopics-Inv _ _ (on_service-SameTopics _ s _)
        (record { linked = v.linked; unique = v.unique; decided = v.decided }))

-- ===== src/Pipe/Runs.antt =====
-- The callbacks of a DdsPipe (core/DdsPipe.cpp), under the invariant.
use dds_pipe.Map.{Map, contains}
use dds_pipe.Base.{Key, ParticipantId, arith, if-induct, default_participant_id}
use dds_pipe.Pipe.Parts.{Parts}
use dds_pipe.Pipe.Defs.{Endpoint, Pipe, on_service}
use dds_pipe.Pipe.Discovery.{
  discovered_topic, new_service, discovered_service_in, removed_service_in, discovered_endpoint,
  removed_endpoint, updated_endpoint, is_service_topic, is_endpoint_kind_relevant,
  is_server_endpoint, is_endpoint_relevant, same_id, is_current,
}
use dds_pipe.Pipe.Invariant.{Inv, SameTopics, SameTopics-Inv, on_service-SameTopics}
use dds_pipe.Pipe.Methods.{on_bridge-Inv, noted, noted-Inv, noted-activated}

module _ (x : Parts) where
  open x use {
    Topic, Bridge, is_topic_allowed, create_bridge, enable_bridge, bridge_enabled, created_disabled,
    enable_enabled, disable_disabled,
  }

  instance abbrev topic_key : Key Topic
  topic_key = x.topic_key

  instance abbrev service_key : Key x.Service
  service_key = x.service_key

  instance abbrev guid_key : Key x.Guid
  guid_key = x.guid_key

  pub discovered_topic-Inv : (t : Topic) (p : Pipe x) → Inv x p → Inv x (discovered_topic x t p)
  unfolding discovered_topic noted
  discovered_topic-Inv t p v =
      if-induct (Inv x) (contains t p.bridges) _ _
        (λ known.
          if-induct (Inv x) p.configuration.remove_unused_entities _ _
            (λ removes.
              if-induct (Inv x) (same_id (x.topic_discoverer t) default_participant_id) _ _
                (λ builtin. v) (λ remote. on_bridge-Inv x _ t p (x.create_writer_enabled _) v))
            (λ keeps. v))
        (λ new.
          if-induct (Inv x) p.enabled _ _
            (λ on.
              if-induct (Inv x) (is_topic_allowed p.allowed_topics t) _ _
                (noted-activated x t p v on) (λ refused. noted-Inv x t p v (simp (on, refused))))
            (λ off. noted-Inv x t p v (simp off)))

  SameTopics-trans : (p q r : Pipe x) → SameTopics x p q → SameTopics x q r → SameTopics x p r
  SameTopics-trans p q r e f = ground (arith, e, f)

  new_service-SameTopics : (s : x.Service) (p : Pipe x) → SameTopics x p (new_service x s p)
  unfolding new_service
  new_service-SameTopics s p = ground arith

  discovered_service_in-SameTopics :
      (s : x.Service) (i : ParticipantId) (g : x.GuidPrefix) (p : Pipe x)
      → SameTopics x p (discovered_service_in x s i g p)
  unfolding discovered_service_in
  discovered_service_in-SameTopics s i g p =
      let q = on_service x (x.discovered_service i g) s (new_service x s p) in
      let e =
        SameTopics-trans _ _ q (new_service-SameTopics s p)
          (on_service-SameTopics x (x.discovered_service i g) s (new_service x s p)) in
      let f = SameTopics-trans _ _ _ e (on_service-SameTopics x x.enable_service s q) in
      if-induct (SameTopics x p) q.enabled _ _
        (λ on. if-induct (SameTopics x p) (is_current x s q) _ _ (λ current. f) (λ other. e))
        (λ off. e)

  pub discovered_endpoint-Inv :
      (m : Map x.Guid (Endpoint x)) (e : Endpoint x) (p : Pipe x)
      → Inv x p
      → Inv x (discovered_endpoint x m e p)
  unfolding discovered_endpoint
  discovered_endpoint-Inv m e p v =
      if-induct (Inv x) (is_service_topic x e.topic) _ _
        (λ service.
          if-induct (Inv x) (is_endpoint_kind_relevant x p e) _ _
            (λ kind.
              if-induct (Inv x) (is_server_endpoint x e) _ _
                (λ server. SameTopics-Inv x p _ (discovered_service_in-SameTopics _ _ _ p) v)
                (λ client. v))
            (λ other. v))
        (λ topic.
          if-induct (Inv x) (is_endpoint_relevant x m p e) _ _
            (λ relevant. discovered_topic-Inv e.topic p v) (λ other. v))

  pub removed_endpoint-Inv :
      (m : Map x.Guid (Endpoint x)) (e : Endpoint x) (p : Pipe x)
      → Inv x p
      → Inv x (removed_endpoint x m e p)
  unfolding removed_endpoint removed_service_in
  removed_endpoint-Inv m e p v =
      if-induct (Inv x) (is_service_topic x e.topic) _ _
        (λ service.
          if-induct (Inv x) (is_server_endpoint x e) _ _
            (λ server. SameTopics-Inv x p _ (on_service-SameTopics x _ _ p) v) (λ client. v))
        (λ topic.
          if-induct (Inv x) p.configuration.remove_unused_entities _ _
            (λ removes.
              if-induct (Inv x) (is_endpoint_relevant x m p e) _ _
                (λ relevant.
                  if-induct (Inv x) (same_id e.discoverer_participant_id default_participant_id) _ _
                    (λ builtin. v)
                    (λ remote. on_bridge-Inv x _ e.topic p (x.remove_writer_enabled _) v))
                (λ other. v))
            (λ keeps. v))

  pub updated_endpoint-Inv :
      (m : Map x.Guid (Endpoint x)) (e : Endpoint x) (p : Pipe x)
      → Inv x p
      → Inv x (updated_endpoint x m e p)
  unfolding updated_endpoint
  updated_endpoint-Inv m e p v =
      if-induct (Inv x) (is_service_topic x e.topic) _ _ (λ service. v)
        (λ topic.
          if-induct (Inv x) e.active _ _ (λ active. discovered_endpoint-Inv m e p v)
            (λ inactive. removed_endpoint-Inv m e p v))

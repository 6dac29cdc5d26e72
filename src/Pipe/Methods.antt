-- ===== src/Pipe/Methods.antt =====
-- `enable`, `disable` and `reload_allowed_topics_` of core/DdsPipe.cpp, under the invariant.
use dds_pipe.Map.{lookup, emplace, lookup-insert, lookup-emplace, emplace-Unique}
use dds_pipe.Base.{
  ◌≡◌, Bool, true, false, if◌then◌else◌, Key, arith, inl, inr, Option-cases, Bool-cases,
}
use dds_pipe.Pipe.Parts.{Parts}
use dds_pipe.Pipe.Defs.{
  Pipe, ReturnCode, ok, precondition_not_met, on_bridge, activate_topic, activate_topics,
  deactivate_topics, enable_services, enable, disable, reload_topics, reload_allowed_topics,
}
use dds_pipe.Pipe.Topics.{activate-IsLinked, activate-current, activate-Same}
use dds_pipe.Pipe.Loops.{
  AllLinked, activate_topics-linked, activate_topics-current, deactivate_topics-linked,
  deactivate_topics-current, reload_topics-linked, reload_topics-current, reload_topics-Same,
}
use dds_pipe.Pipe.Invariant.{Inv, enable_services-Inv, reload_services-Inv}
use dds_pipe.Pipe.Kept.{
  activate-OneEach, activate_topics-OneEach, deactivate_topics-OneEach, reload_topics-OneEach,
  activate_topics-Same, deactivate_topics-Same,
}

module _ (x : Parts) where
  open x use {
    Topic, Bridge, is_topic_allowed, create_bridge, enable_bridge, bridge_enabled, created_disabled,
    enable_enabled, disable_disabled,
  }

  instance abbrev topic_key : Key Topic
  topic_key = x.topic_key

  instance abbrev service_key : Key x.Service
  service_key = x.service_key

  switched : Bool → Pipe x → Pipe x
  switched on p = record p { enabled = on }

  activate_all-Inv :
      (p : Pipe x) → Inv x p → Inv x (activate_topics x p.current_topics (switched true p))
  unfolding switched
  activate_all-Inv p v = record {
    linked = activate_topics-linked x _ _ v.linked;
    unique = activate_topics-OneEach x _ _ v.unique;
    decided = λ t a h. ground (
      arith,
      activate_topics-current x p.current_topics t (switched true p),
      activate_topics-Same x p.current_topics (switched true p),
      v.decided t a,
    );
  }

  deactivate_all-Inv :
      (p : Pipe x) → Inv x p → Inv x (deactivate_topics x p.current_topics (switched false p))
  unfolding switched
  deactivate_all-Inv p v = record {
    linked = deactivate_topics-linked x _ _ v.linked;
    unique = deactivate_topics-OneEach x _ _ v.unique;
    decided = λ t a h. ground (
      arith,
      deactivate_topics-current x p.current_topics t (switched false p),
      deactivate_topics-Same x p.current_topics (switched false p),
    );
  }

  pub enable-Inv : (p : Pipe x) → Inv x p → Inv x (enable x p).0
  unfolding enable switched
  enable-Inv p v =
      elim p.enabled
        as (λ b.
          let q = activate_topics x p.current_topics (switched true p) in
          let r : Pipe x × ReturnCode =
            if b then (p, precondition_not_met) else (enable_services x q.current_services q, ok) in
          Inv x r.0) [
            | true ↦ v
            | false ↦
                enable_services-Inv x
                  (activate_topics x p.current_topics (switched true p)).current_services
                  (activate_topics x p.current_topics (switched true p)) (activate_all-Inv p v)
          ]

  pub disable-Inv : (p : Pipe x) → Inv x p → Inv x (disable x p).0
  unfolding disable switched
  disable-Inv p v =
      elim p.enabled
        as (λ b.
          let r : Pipe x × ReturnCode =
            if b
            then (deactivate_topics x p.current_topics (switched false p), ok)
            else (p, precondition_not_met) in
          Inv x r.0) [ true ↦ deactivate_all-Inv p v | false ↦ v ]

  relisted : x.Allowed → Pipe x → Pipe x
  relisted l p = record p { allowed_topics = l }

  reload_all-Inv :
      (l : x.Allowed) (p : Pipe x)
      → Inv x p
      → p.enabled ≡ true
      → Inv x (reload_topics x p.current_topics (relisted l p))
  unfolding relisted
  reload_all-Inv l p v on = record {
    linked = reload_topics-linked x _ _ v.linked;
    unique = reload_topics-OneEach x _ _ v.unique;
    decided = λ t a h. ground (
      arith,
      reload_topics-current x p.current_topics t (relisted l p) v.unique (λ b e. e),
      reload_topics-Same x p.current_topics (relisted l p),
      on,
    );
  }

  relisted_off-Inv :
      (l : x.Allowed) (p : Pipe x) → Inv x p → p.enabled ≡ false → Inv x (relisted l p)
  unfolding relisted
  relisted_off-Inv l p v off = record {
    linked = v.linked;
    unique = v.unique;
    decided = λ t a h. ground (arith, v.decided t a, off);
  }

  pub reload-Inv : (l : x.Allowed) (p : Pipe x) → Inv x p → Inv x (reload_allowed_topics x l p).0
  unfolding reload_allowed_topics relisted
  reload-Inv l p v = elim (Bool-cases (x.same_allowed l p.allowed_topics)) [
    | inl same ↦ rw (same, reload_allowed_topics) v
    | inr new ↦ elim (Bool-cases p.enabled) [
      | inl on ↦
          simp (new, on)
            (rw on at (
              reload_services-Inv x
                (reload_topics x p.current_topics (relisted l p)).current_services
                (reload_topics x p.current_topics (relisted l p)) (reload_all-Inv l p v on)))
      | inr off ↦ simp (new, off) (rw off at (relisted_off-Inv l p v off))
    ]
  ]

  pub on_bridge-Inv :
      (f : Bridge → Bridge) (t : Topic) (p : Pipe x)
      → ((b : Bridge) → bridge_enabled (f b) ≡ bridge_enabled b)
      → Inv x p
      → Inv x (on_bridge x f t p)
  unfolding on_bridge
  on_bridge-Inv f t p keeps v = elim (Option-cases (lookup t p.bridges)) [
    | inl none_there ↦ rw (none_there, on_bridge) v
    | inr (c, there) ↦
        rw (there, on_bridge)
          (record {
            linked = λ u b h. ground (
              arith,
              lookup-insert u t (f c) p.bridges,
              v.linked u b,
              v.linked t c there,
              keeps c,
            );
            unique = v.unique;
            decided = v.decided;
          })
  ]

  -- A topic that becomes known is not active yet.
  unfoldable pub noted : Topic → Pipe x → Pipe x
  noted t p = record p { current_topics = emplace t false p.current_topics }

  noted-linked : (t : Topic) (p : Pipe x) → Inv x p → AllLinked x (noted t p)
  unfolding noted
  noted-linked t p v u b h =
      ground (arith, lookup-emplace u t false p.current_topics, v.linked u b, h)

  pub noted-Inv :
      (t : Topic) (p : Pipe x)
      → Inv x p
      → (if p.enabled then is_topic_allowed p.allowed_topics t else false) ≡ false
      → Inv x (noted t p)
  unfolding noted
  noted-Inv t p v idle = record {
    linked = noted-linked t p v;
    unique = emplace-Unique t false p.current_topics v.unique;
    decided = λ u a h. ground (arith, lookup-emplace u t false p.current_topics, v.decided u a);
  }

  pub noted-activated :
      (t : Topic) (p : Pipe x)
      → Inv x p
      → p.enabled ≡ true
      → is_topic_allowed p.allowed_topics t ≡ true
      → Inv x (activate_topic x t (noted t p))
  unfolding noted
  noted-activated t p v on allowed = record {
    linked = λ u. activate-IsLinked x t u (noted t p) (noted-linked t p v u);
    unique = activate-OneEach x t (noted t p) (emplace-Unique t false p.current_topics v.unique);
    decided = λ u a h. ground (
      arith,
      activate-current x t u (noted t p),
      activate-Same x t (noted t p),
      lookup-emplace u t false p.current_topics,
      v.decided u a,
    );
  }

-- ===== src/Rpc/Runs.antt =====
-- RpcBridge (communication/rpc/RpcBridge.cpp) over calls of the methods that change what it is.
use dds_pipe.Base.{
  ◌≡◌, subst, true, not, ◌&&◌, ◌||◌, Option, none, some, List, [], ◌∷◌, Key, ParticipantId,
  string_key, arith, Bool-cases, Option-induct, inl, inr,
}
use dds_pipe.Map.{lookup}
use dds_pipe.Rpc.Topic.{RpcTopic}
use dds_pipe.Rpc.Bridge.{
  Participants, RpcBridge, Reader, create, enable, disable, servers_available, discovered_service,
  removed_service, data_available,
}
use dds_pipe.Rpc.Lifecycle.{AreReaders}
use dds_pipe.Rpc.Enabled.{
  IsSound, IsSoundIfAny, create-IsSound, enable-IsSound, disable-IsSound,
  discovered_service-IsSound, removed_service-IsSound, data_available-IsSound,
}

module _ (x : Participants) where
  open x use {Guid, GuidPrefix, Qos, rtps_participants_ids}

  instance abbrev guid_key : Key x.Guid
  guid_key = x.guid_key

  instance abbrev prefix_key : Key GuidPrefix
  prefix_key = x.prefix_key

  pub data Call : Type 0 where
    enables disables : Call
    discovers removes : ParticipantId → GuidPrefix → Call
    hears : Guid → Call

  unfoldable pub after : Call → RpcBridge x → Option (RpcBridge x)
  unfolding enable disable discovered_service removed_service data_available
  after enables b = some (enable x b)
  after disables b = some (disable x b)
  after (discovers id prefix) b = discovered_service x id prefix b
  after (removes id prefix) b = some (removed_service x id prefix b)
  after (hears guid) b = some (data_available x guid b)

  unfoldable pub run : List Call → RpcBridge x → Option (RpcBridge x)
  unfolding after
  run [] b = some b
  run (c ∷ cs) b = elim (after c b) [ none ↦ none | some e ↦ run cs e ]

  after-IsSound : (c : Call) (b : RpcBridge x) → IsSound x b → IsSoundIfAny x (after c b)
  unfolding after
  after-IsSound enables b s = enable-IsSound x b s
  after-IsSound disables b s = disable-IsSound x b s
  after-IsSound (discovers id prefix) b s = discovered_service-IsSound x id prefix b s
  after-IsSound (removes id prefix) b s = removed_service-IsSound x id prefix b s
  after-IsSound (hears guid) b s = data_available-IsSound x guid b s

  run-IsSound : (cs : List Call) (b : RpcBridge x) → IsSound x b → IsSoundIfAny x (run cs b)
  unfolding run
  run-IsSound [] b s = s
  run-IsSound (c ∷ cs) b s =
      Option-induct (IsSoundIfAny x) (after c b) _ _ (λ fault. tt)
        (λ e done. run-IsSound cs e (subst (IsSoundIfAny x) done (after-IsSound c b s)))

  sound_flags :
      (b : RpcBridge x) → IsSound x b → (not b.enabled || (b.init && servers_available x b)) ≡ true
  sound_flags b s = elim (Bool-cases b.enabled) [
    | inl on ↦ ground (arith, on, s.started on, s.served on)
    | inr off ↦ ground (arith, off)
  ]

  -- After any calls from its creation on that follow no null pointer, the readers for requests and for
  -- replies of any participant are enabled exactly when the bridge is.
  readers_follow :
      (t : RpcTopic Qos) (cs : List Call) (b : RpcBridge x) (id : ParticipantId) (r s : Reader x)
      → run cs (create x t) ≡ some b
      → lookup id b.request_readers ≡ some r
      → lookup id b.reply_readers ≡ some s
      → (r.enabled ≡ b.enabled) × (s.enabled ≡ b.enabled)
  unfolding AreReaders
  readers_follow t cs b id r s done found also =
      let sound : IsSound x b =
        subst (IsSoundIfAny x) done (run-IsSound cs (create x t) (create-IsSound x t)) in
      (sound.request id r found, sound.reply id s also)

  -- After any calls from its creation on that follow no null pointer, the bridge is disabled, or its
  -- endpoints are created and some participant has a server.
  pub enabled_with_servers :
      (t : RpcTopic Qos) (cs : List Call) (b : RpcBridge x)
      → run cs (create x t) ≡ some b
      → (not b.enabled || (b.init && servers_available x b)) ≡ true
  enabled_with_servers t cs b done =
      sound_flags b (subst (IsSoundIfAny x) done (run-IsSound cs (create x t) (create-IsSound x t)))

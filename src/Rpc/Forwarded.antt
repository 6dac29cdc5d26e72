-- ===== src/Rpc/Forwarded.antt =====
-- A request in the loop over registries of RpcBridge (communication/rpc/RpcBridge.cpp), for the participant
-- that is to have it.
use dds_pipe.Base.{
  ℕ, ◌≡◌, ap, ◌∙◌, subst, Bool, false, none, some, List, [], ◌∷◌, Key, ParticipantId, string_key,
  string_dec, nat_key, arith, if-induct,
}
use dds_pipe.Map.{lookup, Unique}
use dds_pipe.Rpc.Bridge.{Participants, RpcBridge, Reader}
use dds_pipe.Rpc.Transmit.{Data, Registered, is_skipped, forward, forward_all}
use dds_pipe.Rpc.Requests.{
  IsReady, IsKept, IsDone, IsForwarded, Sends, turned, forward_all-IsKept, forward-IsForwarded,
  forward-IsKept, IsDone-map, IsDone-step,
}

module _ (x : Participants) where
  open x use {Guid, Payload, Writer, unknown, is_repeater, write}

  instance abbrev guid_key : Key Guid
  guid_key = x.guid_key

  kept-IsForwarded :
      (q : ParticipantId) (r : Registered x) (n : ℕ) (d : Data x) (b c e : RpcBridge x)
      → IsForwarded x q r n d b c
      → IsKept x q c e
      → IsForwarded x q r n d b e
  kept-IsForwarded q r n d b c e f k = record {
    registry = k.registry ∙ f.registry;
    readers = k.readers ∙ f.readers;
    replies = k.replies ∙ f.replies;
  }

  IsForwarded-kept :
      (q : ParticipantId) (r : Registered x) (n : ℕ) (d : Data x) (b c e : RpcBridge x)
      → IsKept x q b c
      → IsForwarded x q r n d c e
      → IsForwarded x q r n d b e
  IsForwarded-kept q r n d b c e k f = record {
    registry = f.registry;
    readers = f.readers ∙ k.readers;
    replies = f.replies ∙ k.replies;
  }

  Sends-kept :
      (q : ParticipantId) (n : ℕ) (d : Data x) (reader : Reader x) (b c : RpcBridge x)
      → IsKept x q b c
      → Sends x q n d reader b
      → Sends x q n d reader c
  Sends-kept q n d reader b c k s = record {
    w = s.w;
    v = s.v;
    reads = ap (lookup q) k.readers ∙ s.reads;
    writes = k.writer ∙ s.writes;
    accepts = s.accepts;
  }

  -- The turn of `q`, and the turns after it.
  forward_all-head :
      (q : ParticipantId) (r : Registered x) (rs : List (ParticipantId × Registered x)) (n : ℕ)
      (d : Data x) (reader : Reader x) (b : RpcBridge x) (g : Guid) (set : Bool) (sent : ℕ)
      → is_skipped x q r d ≡ false
      → lookup q rs ≡ none
      → Sends x q n d reader b
      → IsReady x rs b
      → IsDone x (IsForwarded x q r n d b) d (forward_all x ((q, r) ∷ rs) (turned x d g set sent) b)
  unfolding forward_all is_skipped
  forward_all-head q r rs n d reader b g set sent counted others s ready =
      if-induct (IsDone x (IsForwarded x q r n d b) d) (is_skipped x q r d) _ _
        (λ skipped. ground (arith, counted, skipped))
        (λ goes.
          IsDone-step x (λ c. IsForwarded x q r n d b c × IsReady x rs c) (IsForwarded x q r n d b)
            d (forward x q r (turned x d g set sent) b) (λ p. forward_all x rs p.0 p.1)
            (forward-IsForwarded x q r rs n d reader b g set sent s ready)
            (λ g' set' sent' c holds.
              IsDone-map x (IsKept x q c) (IsForwarded x q r n d b) d
                (forward_all x rs (turned x d g' set' sent') c)
                (λ e. kept-IsForwarded q r n d b c e holds.0)
                (forward_all-IsKept x q rs d c g' set' sent' others holds.1)))

  pub forward_all-IsForwarded :
      (q : ParticipantId) (r : Registered x) (rs : List (ParticipantId × Registered x)) (n : ℕ)
      (d : Data x) (reader : Reader x) (b : RpcBridge x) (g : Guid) (set : Bool) (sent : ℕ)
      → is_skipped x q r d ≡ false
      → lookup q rs ≡ some r
      → Unique rs
      → Sends x q n d reader b
      → IsReady x rs b
      → IsDone x (IsForwarded x q r n d b) d (forward_all x rs (turned x d g set sent) b)
  unfolding forward_all lookup IsReady is_skipped
  forward_all-IsForwarded q r [] n d reader b g set sent counted found unique s ready =
      ground (arith, found)
  forward_all-IsForwarded q r ((id, t) ∷ rs) n d reader b g set sent counted found unique s ready =
      elim (string_dec q id) [
        | yes here ↦
            let same : t ≡ r = ground (arith, found, here) in
            let gone : lookup q rs ≡ none = ap (λ k. lookup k rs) here ∙ unique.0 in
            let head : ◌≡◌ {A = ParticipantId × Registered x} (q, r) (id, t) = cc (here, same) in
            subst
              (λ p.
                IsDone x (IsForwarded x q r n d b) d
                  (forward_all x (p ∷ rs) (turned x d g set sent) b))
              head (forward_all-head q r rs n d reader b g set sent counted gone s ready.2)
        | no other ↦
            let later : lookup q rs ≡ some r = ground (arith, found, other) in
            if-induct (IsDone x (IsForwarded x q r n d b) d) (is_skipped x id t d) _ _
              (λ skipped.
                forward_all-IsForwarded q r rs n d reader b g set sent counted later unique.1 s
                  ready.2)
              (λ goes.
                IsDone-step x (λ c. IsKept x q b c × IsReady x rs c) (IsForwarded x q r n d b) d
                  (forward x id t (turned x d g set sent) b) (λ p. forward_all x rs p.0 p.1)
                  (forward-IsKept x q id t rs (turned x d g set sent) b other ready)
                  (λ g' set' sent' c holds.
                    IsDone-map x (IsForwarded x q r n d c) (IsForwarded x q r n d b) d
                      (forward_all x rs (turned x d g' set' sent') c)
                      (λ e. IsForwarded-kept q r n d b c e holds.0)
                      (forward_all-IsForwarded q r rs n d reader c g' set' sent' counted later
                        unique.1 (Sends-kept q n d reader b c holds.0 s) holds.1)))
      ]

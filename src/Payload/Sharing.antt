-- ===== src/Payload/Sharing.antt =====
-- Payloads that share a block of a FastPayloadPool.
use dds_pipe.Map.{insert, lookup-insert, lookup-erase}
use dds_pipe.Base.{
  ℕ, nat_key, ◌-◌, ◌^◌, ◌≡◌, ◌≢◌, ◌<◌, true, some, List, arith, ◌==◌, Bool-cases, inl, inr,
}
use dds_pipe.Payload.Defs.{Payload, empty_payload, Pool, returned, read, release_payload}
use dds_pipe.Payload.Count.{
  Fits, references-le-length, references-remove_at, references-get, All-remove_at,
  references-remove_at, get_elem?, remove_at, All-remove_at,
}
use dds_pipe.Payload.Invariant.{Inv}
use dds_pipe.Payload.Count.{All-get, get_elem?, remove_at}
use dds_pipe.Payload.Calls.{fewer, release-last, release-not_last, held-Fits}

module _ (n : ℕ) (p : Pool) (held : List Payload) (v : Inv n p held) (room : n < 2 ^ 32 - 1) where
  -- Whoever releases a payload that is held, another that is held as well still reads the same
  -- bytes: the release succeeds, and frees the block only with its last reference.
  pub release_keeps_others :
      (i j : ℕ) (h g : Payload)
      → get_elem? held i ≡ some h
      → get_elem? (remove_at i held) j ≡ some g
      → (q : Pool) × (release_payload p h ≡ returned (true, empty_payload, q))
        × (read q g.memory g.length ≡ read p g.memory g.length)
  unfolding read
  release_keeps_others i j h g at other = elim (Bool-cases (fewer f.here == 0)) [
    | inl e ↦ (
      _,
      release-last n p held v room h f e,
      ground (
        arith,
        k.points,
        k.found,
        f.found,
        apart e,
        lookup-erase k.address f.address
            (insert f.address (record f.here { refs = fewer f.here }) p.heap),
        lookup-insert k.address f.address (record f.here { refs = fewer f.here }) p.heap,
      ),
    )
    | inr e ↦ (
      _,
      release-not_last n p held v room h f e,
      ground (
        arith,
        k.points,
        k.found,
        f.found,
        lookup-insert k.address f.address (record f.here { refs = fewer f.here }) p.heap,
      ),
    )
  ]
    where
      f : Fits p.heap h
      f = held-Fits n p held v room i h at

      k : Fits p.heap g
      k =
          All-get (Fits p.heap) (remove_at i held) j g other
            (All-remove_at (Fits p.heap) i held v.fits)

      apart : (fewer f.here == 0) ≡ true → k.address ≢ f.address
      apart e = ground (
        arith,
        v.counted f.address,
        v.positive f.address f.here f.found,
        f.found,
        k.points,
        v.few,
        references-le-length f.address held,
        f.points,
        references-remove_at f.address i held h at,
        references-get f.address j (remove_at i held) g other,
      )

-- ===== src/Registry/Replies.antt =====
-- `add`, `get` and `erase` of communication/rpc/ServiceRegistry.cpp for one sequence number.
use dds_pipe.Base.{
  ℕ, nat_key, ◌+◌, ◌≡◌, ◌≢◌, ◌<◌, none, length, ParticipantId, arith, Option-cases, inl, inr,
}
use dds_pipe.Map.{lookup, insert, lookup-insert, lookup-erase, length-insert}
use dds_pipe.Registry.{ServiceRegistry, default_max_entries, add, add_entry, get, remove}

module _ {S : Type 0} where
  -- A request that is added under a new number to a registry that has at least two entries less than
  -- `DEFAULT_MAX_ENTRIES_` is what `get` gives for its number. Under another number `get` gives
  -- what it gave before, and after `remove` it gives the empty identifier and the default for this one.
  pub get-add :
      (unknown : S) (r : ServiceRegistry S) (idx other : ℕ) (e : ParticipantId × S)
      → lookup idx r.registry ≡ none
      → length r.registry + 1 < default_max_entries
      → other ≢ idx
      → (get unknown (add r idx e) idx ≡ e)
        × (get unknown (add r idx e) other ≡ get unknown r other)
        × (get unknown (remove (add r idx e) idx) idx ≡ ("", unknown))
  unfolding add add_entry get remove
  get-add unknown r idx other e new room d = (
    ground (arith, new, room, lookup-insert idx idx e r.registry, length-insert idx e r.registry),
    ground
        (arith, new, room, d, lookup-insert other idx e r.registry, length-insert idx e r.registry),
    ground (
      arith,
      new,
      room,
      lookup-insert idx idx e r.registry,
      length-insert idx e r.registry,
      lookup-erase idx idx (insert idx e r.registry),
    ),
  )

  pub get-remove :
      (unknown : S) (r : ServiceRegistry S) (idx : ℕ)
      → get unknown (remove r idx) idx ≡ ("", unknown)
  unfolding get remove
  get-remove unknown r idx = elim (Option-cases (lookup idx r.registry)) [
    | inl gone ↦ ground (arith, gone)
    | inr (e, there) ↦ ground (arith, there, lookup-erase idx idx r.registry)
  ]

-- ===== src/Payload/Invariant.antt =====
-- The invariant of a pool and its clients, and the operations of the pool that keep it.
use dds_pipe.Map.{Map, lookup, insert, erase, Unique, lookup-insert, lookup-erase}
use dds_pipe.Base.{
  ℕ, nat_key, ◌+◌, ◌≡◌, ◌≤◌, ◌<◌, none, some, List, [], ◌∷◌, length, arith, inl, inr, Option-cases,
}
use dds_pipe.Payload.Defs.{Block, Payload, Pool}
use dds_pipe.Payload.Count.{All, references, refs_at, Fits}

-- After at most `n` calls: each block is there for as long as it is referred to, with the number
-- of its references; and the pool's counters tell how many blocks there are.
pub record Inv (n : ℕ) (p : Pool) (held : List Payload) : Type 0 where
  pub counted : (a : ℕ) → refs_at a p.heap ≡ references a held
  pub positive : (a : ℕ) (b : Block) → lookup a p.heap ≡ some b → 0 < b.refs
  pub fresh : (a : ℕ) (b : Block) → lookup a p.heap ≡ some b → a < p.next
  pub unique : Unique p.heap
  pub balance : p.release_count + length p.heap ≡ p.reserve_count
  pub few : (length held ≤ n) × (p.reserve_count ≤ n)
  pub fits : All (Fits p.heap) held

-- No block is at the next address.
pub Inv-fresh :
    {n : ℕ} (p : Pool) (held : List Payload) → Inv n p held → lookup p.next p.heap ≡ none
Inv-fresh p held v = elim (Option-cases (lookup p.next p.heap)) [
  | inl e ↦ e
  | inr (b, e) ↦ absurd (omega (arith, v.fresh p.next b e))
]

-- A heap with one block more, or with another count at a block, holds what it held.
pub Fits-insert :
    (heap : Map ℕ Block) (a : ℕ) (b : Block)
    → ((c : Block) → lookup a heap ≡ some c → (b.size ≡ c.size) × (b.content ≡ c.content))
    → (h : Payload) → Fits heap h
    → Fits (insert a b heap) h
Fits-insert heap a b same h f = elim (nat_key.dec f.address a) [
  | yes e ↦ record {
    address = f.address;
    here = b;
    points = f.points;
    found = ground (arith, lookup-insert f.address a b heap);
    written = rw (same f.here (rw (← e) f.found)).1 f.written;
    sized = rw ((same f.here (rw (← e) f.found)).1, (same f.here (rw (← e) f.found)).0) f.sized;
  }
  | no e ↦ record {
    address = f.address;
    here = f.here;
    points = f.points;
    found = ground (arith, lookup-insert f.address a b heap, f.found);
    written = f.written;
    sized = f.sized;
  }
]

-- A block that a payload does not refer to may go.
pub Fits-erase :
    (heap : Map ℕ Block) (a : ℕ) (hs : List Payload)
    → references a hs ≡ 0
    → All (Fits heap) hs
    → All (Fits (erase a heap)) hs
unfolding references
Fits-erase heap a [] none_left f = tt
Fits-erase heap a (h ∷ hs) none_left f = (
  record {
    address = f.0.address;
    here = f.0.here;
    points = f.0.points;
    found = ground (arith, lookup-erase f.0.address a heap, f.0.found, f.0.points);
    written = f.0.written;
    sized = f.0.sized;
  },
  Fits-erase heap a hs (omega arith) f.1,
)

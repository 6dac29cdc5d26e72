-- ===== src/Payload/References.antt =====
-- What a new block, one reference more and one reference less do to the invariant.
use dds_pipe.Map.{
  Map, lookup, insert, erase, lookup-insert, lookup-erase, insert-Unique, erase-Unique,
  length-insert, length-erase,
}
use dds_pipe.Base.{
  ℕ, suc, nat_key, ◌+◌, ◌-◌, ◌%◌, ◌^◌, ◌≡◌, ◌≢◌, ◌≤◌, ◌<◌, none, some, List, ◌∷◌, length, arith,
  sym,
}
use dds_pipe.Payload.Defs.{Block, block, Payload, Pool}
use dds_pipe.Payload.Count.{
  All-mono, references, Fits, references-le-length, references-remove_at, get_elem?, remove_at,
  length-remove_at, All-remove_at,
}
use dds_pipe.Payload.Invariant.{Inv, Inv-fresh, Fits-insert, Fits-erase}

module _ {n : ℕ} (p : Pool) (held : List Payload) (v : Inv n p held) where
  -- A new block, with the payload that holds its one reference and the bytes written to it.
  pub new_block :
      (size : ℕ) (content : List ℕ) (h : Payload) (q : Pool)
      → length content ≤ size
      → h.memory ≡ block p.next
      → h.length ≤ length content
      → h.max_size ≡ size
      → n < 2 ^ 32
      → q ≡ record p {
        heap = insert p.next (record { refs = 1; size = size; content = content }) p.heap;
        next = p.next + 1;
        reserve_count = (p.reserve_count + 1) % 2 ^ 64;
      }
      → Inv (suc n) q (h ∷ held)
  unfolding references
  new_block size content h q fit memory short sized room e = rw e record {
    counted =
        λ a. ground (arith, lookup-insert a p.next b p.heap, v.counted a, v.counted p.next, absent);
    positive = λ a c e. ground (arith, lookup-insert a p.next b p.heap, v.positive a c);
    fresh = λ a c e. ground (arith, lookup-insert a p.next b p.heap, v.fresh a c);
    unique = insert-Unique p.next b p.heap v.unique;
    balance = ground (arith, length-insert p.next b p.heap, absent, v.balance, v.few);
    few = ground (arith, v.few);
    fits = (
      record {
        address = p.next;
        here = b;
        points = memory;
        found = ground (arith, lookup-insert p.next p.next b p.heap);
        written = short;
        sized = (fit, sym sized);
      },
      All-mono (Fits-insert p.heap p.next b (λ c e. absurd (cc absent))) held v.fits,
    );
  }
    where
      b : Block
      b = record { refs = 1; size = size; content = content }

      absent : lookup p.next p.heap ≡ none
      absent = Inv-fresh p held v

  -- One reference more to a block.
  pub more_references :
      (a : ℕ) (b : Block) (h : Payload) (q : Pool)
      → lookup a p.heap ≡ some b
      → h.memory ≡ block a
      → h.length ≤ length b.content
      → (length b.content ≤ b.size) × (b.size ≡ h.max_size)
      → n < 2 ^ 32 - 1
      → q ≡ record p { heap = insert a (record b { refs = (b.refs + 1) % 2 ^ 32 }) p.heap }
      → Inv (suc n) q (h ∷ held)
  unfolding references
  more_references a b h q found memory short sized room e = rw e record {
    counted =
        λ c. ground (arith, lookup-insert c a b' p.heap, v.counted c, v.counted a, few, found);
    positive = λ c d e.
        ground (arith, lookup-insert c a b' p.heap, v.positive c d, v.counted a, few, found);
    fresh = λ c d e. ground (arith, lookup-insert c a b' p.heap, v.fresh c d, v.fresh a b found);
    unique = insert-Unique a b' p.heap v.unique;
    balance = ground (arith, length-insert a b' p.heap, found, v.balance);
    few = ground (arith, v.few);
    fits = (
      record {
        address = a;
        here = b';
        points = memory;
        found = ground (arith, lookup-insert a a b' p.heap);
        written = short;
        sized = sized;
      },
      All-mono (Fits-insert p.heap a b' (λ c e. ground arith)) held v.fits,
    );
  }
    where
      b' : Block
      b' = record b { refs = (b.refs + 1) % 2 ^ 32 }

      few : references a held ≤ length held
      few = references-le-length a held

  -- One reference less, to a block that keeps others.
  pub fewer_references :
      (a i : ℕ) (b : Block) (h : Payload) (q : Pool)
      → get_elem? held i ≡ some h
      → lookup a p.heap ≡ some b
      → h.memory ≡ block a
      → n < 2 ^ 32
      → (b.refs + 2 ^ 32 - 1) % 2 ^ 32 ≢ 0
      → q ≡ record p { heap = insert a (record b { refs = (b.refs + 2 ^ 32 - 1) % 2 ^ 32 }) p.heap }
      → Inv (suc n) q (remove_at i held)
  fewer_references a i b h q at found memory room kept e = rw e record {
    counted = λ c. ground (
      arith,
      lookup-insert c a b' p.heap,
      v.counted c,
      v.counted a,
      few,
      found,
      references-remove_at c i held h at,
    );
    positive = λ c d e. ground (arith, lookup-insert c a b' p.heap, v.positive c d);
    fresh = λ c d e. ground (arith, lookup-insert c a b' p.heap, v.fresh c d, v.fresh a b found);
    unique = insert-Unique a b' p.heap v.unique;
    balance = ground (arith, length-insert a b' p.heap, found, v.balance);
    few = ground (arith, v.few, length-remove_at i held);
    fits =
        All-remove_at (Fits (insert a b' p.heap)) i held
          (All-mono (Fits-insert p.heap a b' (λ c e. ground arith)) held v.fits);
  }
    where
      b' : Block
      b' = record b { refs = (b.refs + 2 ^ 32 - 1) % 2 ^ 32 }

      few : references a held ≤ length held
      few = references-le-length a held

  -- The last reference to a block, which goes.
  pub last_reference :
      (a i : ℕ) (b : Block) (h : Payload) (q : Pool)
      → get_elem? held i ≡ some h
      → lookup a p.heap ≡ some b
      → h.memory ≡ block a
      → n < 2 ^ 32
      → (b.refs + 2 ^ 32 - 1) % 2 ^ 32 ≡ 0
      → q ≡ record p {
        heap = erase a (insert a (record b { refs = (b.refs + 2 ^ 32 - 1) % 2 ^ 32 }) p.heap);
        release_count = (p.release_count + 1) % 2 ^ 64;
      }
      → Inv (suc n) q (remove_at i held)
  last_reference a i b h q at found memory room last e = rw e record {
    counted = λ c. ground (
      arith,
      lookup-erase c a heap,
      lookup-insert c a b' p.heap,
      v.counted c,
      v.counted a,
      few,
      found,
      references-remove_at c i held h at,
      v.positive a b found,
    );
    positive =
        λ c d e. ground (arith, lookup-erase c a heap, lookup-insert c a b' p.heap, v.positive c d);
    fresh =
        λ c d e. ground (arith, lookup-erase c a heap, lookup-insert c a b' p.heap, v.fresh c d);
    unique = erase-Unique a heap (insert-Unique a b' p.heap v.unique);
    balance = ground (
      arith,
      length-erase a heap,
      lookup-insert a a b' p.heap,
      length-insert a b' p.heap,
      found,
      v.balance,
      v.few,
      insert-Unique a b' p.heap v.unique,
    );
    few = ground (arith, v.few, length-remove_at i held);
    fits = Fits-erase heap a (remove_at i held) none_left (
        All-remove_at (Fits heap) i held
          (All-mono (Fits-insert p.heap a b' (λ c e. ground arith)) held v.fits));
  }
    where
      b' : Block
      b' = record b { refs = (b.refs + 2 ^ 32 - 1) % 2 ^ 32 }

      heap : Map ℕ Block
      heap = insert a b' p.heap

      few : references a held ≤ length held
      few = references-le-length a held

      none_left : references a (remove_at i held) ≡ 0
      none_left =
          ground (
            arith,
            v.counted a,
            few,
            found,
            references-remove_at a i held h at,
            v.positive a b found,
          )

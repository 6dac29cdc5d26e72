-- ===== src/Payload/Safety.antt =====
-- Histories of calls on a FastPayloadPool (efficiency/payload/FastPayloadPool.cpp).
use dds_pipe.Map.{Map, lookup}
use dds_pipe.Base.{
  ◌↔◌, ℕ, suc, nat_key, ◌+◌, ◌^◌, ◌≡◌, ◌<◌, refl, true, none, List, [], ◌∷◌, length, arith, ap, inl,
  inr, Option-cases,
}
use dds_pipe.Payload.Defs.{Block, Payload, Pool, Outcome, returned, thrown, fault, is_clean, ◌>>=◌}
use dds_pipe.Payload.Count.{All, references, Fits}
use dds_pipe.Payload.Invariant.{Inv}
use dds_pipe.Payload.Clients.{Call, Clients, start, call, run}
use dds_pipe.Payload.Calls.{Good, call-Good}

bind-Good :
    (n k : ℕ) (m : Outcome Clients) (f : Clients → Outcome Clients)
    → Good n m
    → ((t : Clients) → Inv n t.pool t.held → Good k (f t))
    → Good k (m >>= f)
bind-Good n k (returned s) f g h = h s g
bind-Good n k thrown f g h = absurd g
bind-Good n k fault f g h = absurd g

run-Good :
    (cs : List Call) (n k : ℕ) (s : Clients)
    → Inv n s.pool s.held
    → n + length cs ≡ k
    → k < 2 ^ 32
    → Good k (run s cs)
unfolding run
run-Good [] n k s v e room = let e' : k ≡ n = omega arith in rw e' v
run-Good (c ∷ cs) n k s v e room =
    bind-Good (suc n) k (call s c) (λ t. run t cs) (call-Good n s.pool s.held v (omega arith) c)
      (λ t w. run-Good cs (suc n) k t w (omega arith) room)

start-Inv : (id : ℕ) → Inv 0 (start id).pool []
unfolding lookup references
start-Inv id = record {
  counted = λ a. refl;
  positive = λ a b e. cc;
  fresh = λ a b e. cc;
  unique = tt;
  balance = refl;
  few = omega arith;
  fits = tt;
}

abbrev Ends : ℕ → Outcome Clients → Type 0
Ends n m = (s : Clients) × (m ≡ returned s) × Inv n s.pool s.held

Good-Ends : (n : ℕ) (m : Outcome Clients) → Good n m → Ends n m
Good-Ends n (returned s) g = (s, refl, g)
Good-Ends n thrown g = absurd g
Good-Ends n fault g = absurd g

-- A history of fewer than 2 ^ 32 calls on a new pool ends normally: no call throws, reads freed
-- or unwritten memory, or writes past the end of a block. In the state that it leaves, the
-- reference count of each block is the number of held payloads that refer to it, the blocks
-- counted as reserved and not released are those in the heap, and each held payload finds the bytes
-- that it speaks of.
pub history_is_safe :
    (id : ℕ) (calls : List Call)
    → length calls < 2 ^ 32
    → (s : Clients) × (run (start id) calls ≡ returned s) × Inv (length calls) s.pool s.held
history_is_safe id calls room =
    Good-Ends (length calls) _
      (run-Good calls 0 (length calls) (start id) (start-Inv id) (omega arith) room)

all_free : (heap : Map ℕ Block) → ((a : ℕ) → lookup a heap ≡ none) → heap ≡ []
unfolding lookup
all_free [] h = refl
all_free ((a, b) ∷ heap) h = absurd (ground (arith, h a))

no_length : (heap : Map ℕ Block) → length heap ≡ 0 → heap ≡ []
no_length [] e = refl
no_length (x ∷ heap) e = absurd (omega arith)

none_held :
    (heap : Map ℕ Block) (held : List Payload) → All (Fits heap) held → heap ≡ [] → held ≡ []
unfolding lookup
none_held heap [] f e = refl
none_held heap (h ∷ held) f e = absurd (ground (arith, f.0.found))

no_references : (n : ℕ) (p : Pool) → Inv n p [] → (a : ℕ) → lookup a p.heap ≡ none
unfolding references
no_references n p v a = elim (Option-cases (lookup a p.heap)) [
  | inl e ↦ e
  | inr (b, e) ↦ absurd (ground (arith, v.counted a, v.positive a b e))
]

clean_iff :
    (n : ℕ) (p : Pool) (held : List Payload) → Inv n p held → (is_clean p ≡ true) ↔ (held ≡ [])
unfolding is_clean
clean_iff n p held v = (
  λ e. none_held p.heap held v.fits (no_length p.heap (ground (arith, v.balance))),
  λ e.
      let w : Inv n p [] = rw e at v in
      let empty = all_free p.heap (no_references n p w) in
      ground (arith, v.balance, ap length empty),
)

-- After a history of fewer than 2 ^ 32 calls on a new pool, `is_clean` is true exactly when
-- every payload that was handed out has been released.
pub clean_iff_released :
    (id : ℕ) (calls : List Call) (s : Clients)
    → length calls < 2 ^ 32
    → run (start id) calls ≡ returned s
    → (is_clean s.pool ≡ true) ↔ (s.held ≡ [])
unfolding is_clean
clean_iff_released id calls s room e =
    let (t, e', v) = history_is_safe id calls room in
    let same : s ≡ t = ground (arith, e, e') in rw same (clean_iff (length calls) t.pool t.held v)

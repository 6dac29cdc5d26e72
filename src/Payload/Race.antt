-- ===== src/Payload/Race.antt =====
-- `FastPayloadPool::release_payload` called by several threads at once, each with a payload of its
-- own over one block. The count is decremented by one atomic operation and compared with 0 by
-- another, and nothing keeps a second thread from coming in between.
use dds_pipe.Base.{ℕ, zero, suc, ◌+◌, ◌-◌, ◌%◌, ◌^◌, ◌≡◌, ◌≢◌, ◌<◌, ◌≤◌, refl, arith, subst}

-- Threads at one point have nothing of their own there, and are counted.
pub record State : Type 0 where
  pub refs : ℕ
  pub before : ℕ  -- before `(*reference_place)--`
  pub between : ℕ  -- before `(*reference_place) == 0`
  pub freeing : ℕ  -- before `free(reference_place)`
  pub frees : ℕ

pub data Step (s : State) : State → Type 0 where
  decrement :
      0 < s.before
      → Step s (record s {
        refs = (s.refs + 2 ^ 32 - 1) % 2 ^ 32;
        before = s.before - 1;
        between = s.between + 1;
      })
  last :
      0 < s.between
      → s.refs ≡ 0
      → Step s (record s { between = s.between - 1; freeing = s.freeing + 1 })
  not_last : 0 < s.between → s.refs ≢ 0 → Step s (record s { between = s.between - 1 })
  free : 0 < s.freeing → Step s (record s { freeing = s.freeing - 1; frees = s.frees + 1 })

pub data Reach (s : State) : State → Type 0 where
  here : Reach s s
  later : {t u : State} → Reach s t → Step t u → Reach s u

-- `n` threads that hold the `n` references to a block.
abbrev pub start : ℕ → State
start n = record { refs = n; before = n; between = 0; freeing = 0; frees = 0 }

later_eq : {s t u v : State} → Reach s t → Step t u → u ≡ v → Reach s v
later_eq {s} r st e = subst (Reach s) e (later r st)

all_decrement :
    (n k : ℕ)
    → k ≤ n
    → n < 2 ^ 32
    → Reach (start n) (record { refs = n - k; before = n - k; between = k; freeing = 0; frees = 0 })
all_decrement n zero h b = subst (Reach (start n)) (ground arith) here
all_decrement n (suc k) h b =
    later_eq (all_decrement n k (omega arith) b) (decrement (omega arith)) (ground arith)

all_load :
    (n k : ℕ)
    → k ≤ n
    → n < 2 ^ 32
    → Reach (start n) (record { refs = 0; before = 0; between = n - k; freeing = k; frees = 0 })
all_load n zero h b = subst (Reach (start n)) (ground arith) (all_decrement n n (omega arith) b)
all_load n (suc k) h b =
    later_eq (all_load n k (omega arith) b) (last (omega arith) refl) (ground arith)

all_free :
    (n k : ℕ)
    → k ≤ n
    → n < 2 ^ 32
    → Reach (start n) (record { refs = 0; before = 0; between = 0; freeing = n - k; frees = k })
all_free n zero h b = subst (Reach (start n)) (ground arith) (all_load n n (omega arith) b)
all_free n (suc k) h b = later_eq (all_free n k (omega arith) b) (free (omega arith)) (ground arith)

-- Fewer than 2 ^ 32 threads that release the references to one block, one each, can free it once
-- each: with two threads or more the block is freed more than once.
pub freed_by_each :
    (n : ℕ)
    → n < 2 ^ 32
    → (s : State) × Reach (start n) s × (s.frees ≡ n) × (s.before + s.between + s.freeing ≡ 0)
freed_by_each n b = (_, all_free n n (omega arith) b, refl, omega arith)

-- ===== src/Registry/Tests.antt =====
-- A registry with a few requests.
use dds_pipe.Base.{ℕ, refl, ◌≡◌, ◌<◌, [], ◌∷◌, arith, length, ParticipantId}
use dds_pipe.Map.{Map}
use dds_pipe.Registry.Replies.{get-add}
use dds_pipe.Registry.{get, remove, add, create, default_max_entries}
use dds_pipe.Registry.Window.{
  adds, removes, enables, apply_all, size-bounded, add_each, last, keeps_newest,
}

abbrev requests : Map ℕ (ParticipantId × ℕ)
requests = (1, ("a", 10)) ∷ (2, ("b", 20)) ∷ (4, ("a", 30)) ∷ []

size-bounded_applied :
    length (apply_all (create {S = ℕ}) (adds 1 ("a", 10) ∷ enables ∷ removes 1 ∷ [])).registry
    < default_max_entries
size-bounded_applied = size-bounded (adds 1 ("a", 10) ∷ enables ∷ removes 1 ∷ [])

keeps_newest_applied : (add_each (create {S = ℕ}) requests).registry ≡ last 4999 requests
keeps_newest_applied = keeps_newest requests (omega arith, (omega arith, (omega arith, tt)))

get-add_example :
    (get 0 (add (create {S = ℕ}) 7 ("a", 10)) 7 ≡ ("a", 10))
    × (get 0 (add (create {S = ℕ}) 7 ("a", 10)) 8 ≡ get 0 (create {S = ℕ}) 8)
    × (get 0 (remove (add (create {S = ℕ}) 7 ("a", 10)) 7) 7 ≡ ("", 0))
unfolding dds_pipe.Map.lookup
get-add_example = get-add 0 (create {S = ℕ}) 7 8 ("a", 10) refl (omega arith) (omega arith)

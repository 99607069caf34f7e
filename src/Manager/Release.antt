-- ===== src/Manager/Release.antt =====
-- What becomes of the slots of a request in `release_request` of kv_cache_manager.py.
use mini_infer.Prelude.{ℕ, List, [], ◌∷◌}
use mini_infer.Radix.Evict.{ITokenAllocator}
use mini_infer.Scheduler.Req.{Req}

-- A call of `free`, left out if there is nothing to give back.
abbrev pub free_some : {A : Type 0} → ITokenAllocator A → List ℕ → A → A
free_some al [] allocator = allocator
free_some al (s ∷ slots) allocator = al.free (s ∷ slots) allocator

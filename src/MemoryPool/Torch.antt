-- ===== src/MemoryPool/Torch.antt =====
-- What memory_pool.py takes from torch and triton and does not define itself.
use mini_infer.Prelude.{ℕ, ◌<◌, ◌↔◌, List, Elem, Distinct}
use mini_infer.MemoryPool.Launch.{Write, ElemWrite}

pub record Torch : Type 0 where
  -- `torch.unique`: each value once.
  pub unique : List ℕ → List ℕ
  pub unique_distinct : (xs : List ℕ) → Distinct (unique xs)
  pub unique_elem : (xs : List ℕ) (a : ℕ) → Elem a (unique xs) ↔ Elem a xs
  -- What a `tl.load` with no `other` leaves in a lane that its mask switches off: some value that
  -- depends on the load and the lane, and not on what the load would have read.
  pub masked : (load lane : ℕ) → ℕ
  -- The contents of a fresh `torch.empty`.
  pub uninit : ℕ → ℕ
  -- A launch over a grid: the writes of all instances, in the order in which they reach memory.
  -- Nothing is promised of that order: each write is one of an instance of the grid, and none of
  -- their writes is lost.
  pub grid : (ℕ → List Write) → ℕ → List Write
  pub grid_sound :
      (kernel : ℕ → List Write) (n : ℕ) (w : Write)
      → ElemWrite w (grid kernel n)
      → (pid : ℕ) × (pid < n) × ElemWrite w (kernel pid)
  pub grid_complete :
      (kernel : ℕ → List Write) (n pid : ℕ) (w : Write)
      → pid < n
      → ElemWrite w (kernel pid)
      → ElemWrite w (grid kernel n)

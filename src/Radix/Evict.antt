-- ===== src/Radix/Evict.antt =====
-- `evict` of radix_cache.py, with `_collect_leaves` and `_delete_leaf`. A node is known by its
-- address, the child keys on the way to it from the root: the calls here move no other node. The
-- allocator and `heapq` are parameters.
use mini_infer.Prelude.{
  ℕ, zero, suc, ◌+◌, ◌-◌, List, [], ◌∷◌, ◌++◌, map, Option, none, some, length, ltb, if◌then◌else◌,
  Result, ok, err, assertion_error, attribute_error,
}
use mini_infer.Prelude.Int.{ℤ, pos, ◌-ℤ◌}
use mini_infer.Radix.Keys.{same_list, get_child_key}
use mini_infer.Radix.Tree.{
  Label, Tree, Forest, node, nil, child, label, children, get_child, set_child, pop_child,
}
use mini_infer.Radix.Cache.{RadixCache}
use mini_infer.Radix.Weight.{weight_all}
use mini_infer.Radix.Lock.{is_pos}

abbrev pub Address : Type 0
Address = List (List ℕ)

abbrev pub get_at : Address → Tree → Option Tree
get_at [] t = some t
get_at (k ∷ path) (node l kids) = elim (get_child k kids) [ none ↦ none | some c ↦ get_at path c ]

-- Without the node at an address, which is not the root.
abbrev pub delete_at : Address → Tree → Tree
delete_at [] t = t
delete_at (k ∷ []) (node l kids) = node l (pop_child k kids)
delete_at (k ∷ j ∷ path) (node l kids) = elim (get_child k kids) [
  | none ↦ node l kids
  | some c ↦ node l (set_child k (delete_at (j ∷ path) c) kids)
]

abbrev pub parent_of : Address → Address
parent_of [] = []
parent_of (k ∷ []) = []
parent_of (k ∷ j ∷ path) = k ∷ parent_of (j ∷ path)

abbrev pub last_key : Address → List ℕ
last_key [] = []
last_key (k ∷ []) = k
last_key (k ∷ j ∷ path) = last_key (j ∷ path)

-- What the heap holds: a time and a node.
pub record Entry : Type 0 where
  pub priority : ℕ
  pub at : Address

abbrev pub below : List ℕ → Entry → Entry
below k e = record e { at = k ∷ e.at }

-- The stack gives the last child first, and what is under it before the others.
unfoldable mutual
  pub collect_leaves : Forest → List Entry
  collect_leaves nil = []
  collect_leaves (child k t rest) = collect_leaves rest ++ map (below k) (collect_below t)

  pub collect_below : Tree → List Entry
  collect_below (node l nil) =
      if is_pos 0 l.lock_ref then record { priority = l.last_access_time; at = [] } ∷ [] else []
  collect_below (node l (child k t rest)) = collect_leaves (child k t rest)

pub record ITokenAllocator (A : Type 0) : Type 0 where
  pub free : List ℕ → A → A
  pub available_size : A → ℕ

pub record Heapq : Type 0 where
  pub heapify : List Entry → List Entry
  pub heappush : Entry → List Entry → List Entry
  pub heappop : List Entry → Option (Entry × List Entry)

pub record Evicting (A : Type 0) : Type 0 where
  pub root : Tree
  pub evictable_size_ : ℤ
  pub allocator : A
  pub heap : List Entry
  pub num_evicted : ℕ

-- `_delete_leaf`: what `pop` returns is the node itself exactly if the node stands under the key.
unfoldable pub delete_leaf : ℕ → Address → Label → Tree → Result Tree
delete_leaf page_size [] x root = err attribute_error
delete_leaf page_size (k ∷ path) x root =
    if same_list (last_key (k ∷ path)) (get_child_key page_size x.key)
    then ok (delete_at (k ∷ path) root)
    else err assertion_error

abbrev pub push_parent : Heapq → Address → Option Tree → List Entry → List Entry
push_parent q at none heap = heap
push_parent q at (some (node l (child k t rest))) heap = heap
push_parent q at (some (node l nil)) heap =
    if is_pos 0 l.lock_ref
    then q.heappush (record { priority = l.last_access_time; at = at }) heap
    else heap

module _ {A : Type 0} (al : ITokenAllocator A) (q : Heapq) (page_size : ℕ) where
  abbrev pub after_free : Address → Label → Evicting A → List Entry → Tree → Evicting A
  after_free at x st heap root =
      let allocator = al.free x.value st.allocator in
      record {
        root = root;
        evictable_size_ = st.evictable_size_ -ℤ pos (length x.key);
        allocator = allocator;
        heap = push_parent q (parent_of at) (get_at (parent_of at) root) heap;
        num_evicted =
            st.num_evicted + (al.available_size allocator - al.available_size st.allocator);
      }

  abbrev pub evict_deleted :
      Address → Label → List Entry → Evicting A → Result Tree → Result (Evicting A)
  evict_deleted at x heap st (err e) = err e
  evict_deleted at x heap st (ok root) = ok (after_free at x st heap root)

  abbrev pub evict_found : Address → List Entry → Evicting A → Option Tree → Result (Evicting A)
  evict_found at heap st none = err attribute_error
  evict_found at heap st (some x) =
      evict_deleted at (label x) heap st (delete_leaf page_size at (label x) st.root)

  unfoldable pub evict_one : Address → List Entry → Evicting A → Result (Evicting A)
  unfolding delete_leaf
  evict_one at heap st = evict_found at heap st (get_at at st.root)

  unfoldable pub evict_loop : ℕ → ℕ → Evicting A → Result (Evicting A)
  unfolding evict_one
  evict_loop zero num_tokens st = ok st
  evict_loop (suc fuel) num_tokens st =
      if ltb st.num_evicted num_tokens
      then elim (q.heappop st.heap) [
        | none ↦ ok st
        | some (x, heap) ↦ elim (evict_one x.at heap st) [
          | err e ↦ err e
          | ok next ↦ evict_loop fuel num_tokens next
        ]
      ]
      else ok st

  -- The nodes below the root: no more of them can be deleted.
  abbrev pub nodes : Tree → ℕ
  nodes t = weight_all (λ l. 1) (children t)

  abbrev pub evict_start : RadixCache → A → Evicting A
  evict_start cache allocator = record {
    root = cache.root;
    evictable_size_ = cache.evictable_size_;
    allocator = allocator;
    heap = q.heapify (collect_leaves (children cache.root));
    num_evicted = 0;
  }

  abbrev pub evicted : RadixCache → Result (Evicting A) → Result (A × RadixCache)
  evicted cache (err e) = err e
  evicted cache (ok st) =
      ok (st.allocator, record cache { root = st.root; evictable_size_ = st.evictable_size_ })

  unfoldable pub evict : RadixCache → A → ℕ → Result (A × RadixCache)
  unfolding evict_loop collect_leaves weight_all
  evict cache allocator num_tokens =
      evicted cache (evict_loop (nodes cache.root) num_tokens (evict_start cache allocator))

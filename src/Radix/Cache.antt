-- ===== src/Radix/Cache.antt =====
-- `RadixCache` of radix_cache.py: `match_prefix`, `insert` and what they use. The clock that an
-- operation reads is an argument, and the loops have fuel: each round takes a page of the key.
use mini_infer.Prelude.{
  ℕ, zero, suc, ◌+◌, List, [], ◌++◌, Option, none, some, length, take, drop, ltb, ◌==◌,
  if◌then◌else◌, Result, ok, ◌>>=◌,
}
use mathlib.Core.Option
use mini_infer.Prelude.Int.{ℤ, pos, ◌+ℤ◌}
use mini_infer.Radix.Keys.{nonempty, key_match, get_child_key, len_child_key, align_len}
use mini_infer.Radix.Tree.{
  Label, Tree, Forest, node, nil, label, get_child, set_child, touch, split_node, new_leaf,
}

pub record RadixCache : Type 0 where
  pub page_size : ℕ
  pub root : Tree
  pub next_id : ℕ
  pub evictable_size_ : ℤ
  pub protected_size_ : ℤ

-- `RadixCache.__init__`; the root is never evicted.
unfoldable pub new_cache : ℕ → RadixCache
new_cache page_size = record {
  page_size = page_size;
  root = node (record { id = 0; key = []; value = []; lock_ref = pos 1; last_access_time = 0 }) nil;
  next_id = 1;
  evictable_size_ = pos 0;
  protected_size_ = pos 0;
}

-- What the loop of `match_prefix` leaves: the values on the way, the node that it ends at, and the
-- tree under the node that it began at.
pub record Found : Type 0 where
  pub values : List ℕ
  pub at : ℕ
  pub tree : Tree
  pub next_id : ℕ

abbrev pub found_here : Tree → ℕ → Found
found_here t next_id = record { values = []; at = (label t).id; tree = t; next_id = next_id }

-- The child that a round descends to, put back where it was; or the new node of a split.
abbrev pub found_child : ℕ → Forest → Label → List ℕ → Tree → ℕ → Found → ℕ → Found
found_child page_size kids l child_key c prefix_len rest next_id =
    if ltb prefix_len (length (label c).key)
    then (let upper = split_node page_size next_id prefix_len c in
        record {
          values = (label upper).value;
          at = next_id;
          tree = node l (set_child (get_child_key page_size (label c).key) upper kids);
          next_id = suc next_id;
        })
    else record {
      values = (label c).value ++ rest.values;
      at = rest.at;
      tree = node l (set_child child_key rest.tree kids);
      next_id = rest.next_id;
    }

unfoldable pub match_node : ℕ → ℕ → ℕ → List ℕ → Tree → ℕ → Found
match_node page_size access_time zero key t next_id = found_here t next_id
match_node page_size access_time (suc fuel) key (node l kids) next_id =
    if nonempty key
    then elim (get_child (get_child_key page_size key) kids) [
      | none ↦ found_here (node l kids) next_id
      | some c ↦
          let c = touch access_time c in
          let prefix_len = key_match page_size (label c).key key in
          let rest = match_node page_size access_time fuel (drop prefix_len key) c next_id in
          found_child page_size kids l (get_child_key page_size key) c prefix_len rest next_id
    ]
    else found_here (node l kids) next_id

abbrev pub aligned : ℕ → List ℕ → List ℕ
aligned page_size xs = if ltb 1 page_size then take (align_len page_size (length xs)) xs else xs

unfoldable pub match_prefix : ℕ → RadixCache → List ℕ → List ℕ × ℕ × RadixCache
unfolding match_node
match_prefix access_time cache key =
    if nonempty key
    then (let key = aligned cache.page_size key in
        let found =
          match_node cache.page_size access_time (length key) key (touch access_time cache.root)
            cache.next_id in
        (found.values, found.at, record cache { root = found.tree; next_id = found.next_id }))
    else ([], (label cache.root).id, cache)

-- What the loop of `_insert_helper` leaves; `added` is the length of the key of a new leaf.
pub record Inserted : Type 0 where
  pub total_prefix_len : ℕ
  pub added : ℕ
  pub tree : Tree
  pub next_id : ℕ

abbrev pub no_insert : Tree → ℕ → Inserted
no_insert t next_id = record { total_prefix_len = 0; added = 0; tree = t; next_id = next_id }

-- The node that a round goes on from: the child, or the upper half of it.
abbrev pub next_node : ℕ → ℕ → ℕ → Tree → Tree
next_node page_size next_id prefix_len c =
    if ltb prefix_len (length (label c).key) then split_node page_size next_id prefix_len c else c

abbrev pub insert_round : ℕ → Forest → Label → List ℕ → Tree → ℕ → Inserted → Inserted
insert_round page_size kids l child_key c prefix_len rest =
    let slot =
      if ltb prefix_len (length (label c).key)
      then get_child_key page_size (label c).key
      else child_key in
    record {
      total_prefix_len = prefix_len + rest.total_prefix_len;
      added = rest.added;
      tree = node l (set_child slot rest.tree kids);
      next_id = rest.next_id;
    }

unfoldable pub insert_node : ℕ → ℕ → ℕ → List ℕ → List ℕ → Tree → ℕ → Inserted
insert_node page_size access_time zero key value t next_id = no_insert t next_id
insert_node page_size access_time (suc fuel) key value (node l kids) next_id =
    if nonempty key
    then elim (get_child (get_child_key page_size key) kids) [
      | none ↦ record {
        total_prefix_len = 0;
        added = length key;
        tree = node l (set_child (get_child_key page_size key) (new_leaf next_id key value) kids);
        next_id = suc next_id;
      }
      | some c ↦
          let c = touch access_time c in
          let prefix_len = key_match page_size (label c).key key in
          let next = next_node page_size next_id prefix_len c in
          let id = if ltb prefix_len (length (label c).key) then suc next_id else next_id in
          let rest =
            insert_node page_size access_time fuel (drop prefix_len key) (drop prefix_len value)
              next id in
          insert_round page_size kids l (get_child_key page_size key) c prefix_len rest
    ]
    else no_insert (node l kids) next_id

-- The loop of `_insert_helper`, and what it adds to the counter.
unfoldable pub insert_loop : ℕ → RadixCache → List ℕ → List ℕ → ℕ × RadixCache
unfolding insert_node
insert_loop access_time cache key value =
    let i =
      insert_node cache.page_size access_time (length key) key value (touch access_time cache.root)
        cache.next_id in
    (
      i.total_prefix_len,
      record cache {
        root = i.tree;
        next_id = i.next_id;
        evictable_size_ = cache.evictable_size_ +ℤ pos i.added;
      },
    )

-- The log line in front of the loop takes the length of the child key. Those in the loop and behind
-- it take the length of a child key as well, and are reached only where the first one raised nothing.
unfoldable pub insert_helper : ℕ → RadixCache → List ℕ → List ℕ → Result (ℕ × RadixCache)
unfolding insert_loop
insert_helper access_time cache key value =
    if nonempty key
    then (len_child_key cache.page_size (get_child_key cache.page_size key)
        >>= (λ n. ok (insert_loop access_time cache key value)))
    else ok (0, record cache { root = touch access_time cache.root })

-- With no value the tokens of the key stand for their slots.
abbrev pub value_or : List ℕ → Option (List ℕ) → List ℕ
value_or key none = key
value_or key (some v) = v

unfoldable pub insert : ℕ → RadixCache → List ℕ → Option (List ℕ) → Result (ℕ × RadixCache)
unfolding insert_helper
insert access_time cache key value =
    if ltb 1 cache.page_size
    then (let aligned_len = align_len cache.page_size (length key) in
        if aligned_len == 0
        then ok (0, cache)
        else (if aligned_len == length key
            then insert_helper access_time cache key (value_or key value)
            else insert_helper access_time cache (take aligned_len key)
                (value_or (take aligned_len key) (Option.map (take aligned_len) value))))
    else insert_helper access_time cache key (value_or key value)

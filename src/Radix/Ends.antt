-- ===== src/Radix/Ends.antt =====
-- Where `match_prefix` of radix_cache.py ends: at a node that the tree holds, so a lock call may name it.
use mini_infer.Prelude.{
  ℕ, zero, suc, ◌≡◌, true, List, [], ◌∷◌, Option-cases, length, drop, ltb, ◌==◌, arith, Bool-cases,
  inl, inr,
}
use mini_infer.Radix.Keys.{same_list, key_match, get_child_key}
use mini_infer.Radix.Tree.{
  Label, Tree, Forest, node, nil, child, label, get_child, set_child, touch, split_node,
}
use mini_infer.Radix.Cache.{RadixCache, Found, found_child, aligned, match_node, match_prefix}
use mini_infer.Radix.Lock.{in_tree, in_forest}

in_tree_self : (t : Tree) → in_tree (label t).id t ≡ true
unfolding in_tree
in_tree_self (node l kids) = let e : (l.id == l.id) ≡ true = ground arith in rw e

in_forest-set_child :
    (id : ℕ) (k : List ℕ) (u : Tree) (kids : Forest)
    → in_tree id u ≡ true
    → in_forest id (set_child k u kids) ≡ true
unfolding in_tree
in_forest-set_child id k u nil h = rw h
in_forest-set_child id k u (child j t rest) h = elim (Bool-cases (same_list k j)) [
  | inl e ↦ rw (e, h)
  | inr n ↦ rw (n, in_forest-set_child id k u rest h) (ground arith)
]

in_tree_below :
    (id : ℕ) (l : Label) (k : List ℕ) (u : Tree) (kids : Forest)
    → in_tree id u ≡ true
    → in_tree id (node l (set_child k u kids)) ≡ true
unfolding in_tree
in_tree_below id l k u kids h = rw (in_forest-set_child id k u kids h) (ground arith)

split_node-at : (ps id n : ℕ) (c : Tree) → in_tree id (split_node ps id n c) ≡ true
unfolding split_node in_tree
split_node-at ps id n (node l kids) = let e : (id == id) ≡ true = ground arith in rw e

found_child-Held :
    (ps : ℕ) (kids : Forest) (l : Label) (k : List ℕ) (c : Tree) (n : ℕ) (rest : Found) (id : ℕ)
    → in_tree rest.at rest.tree ≡ true
    → let r = found_child ps kids l k c n rest id in in_tree r.at r.tree ≡ true
found_child-Held ps kids l k c n rest id h = elim (Bool-cases (ltb n (length (label c).key))) [
  | inl s ↦ rw s (
      in_tree_below id l (get_child_key ps (label c).key) (split_node ps id n c) kids
        (split_node-at ps id n c))
  | inr w ↦ rw w (in_tree_below rest.at l k rest.tree kids h)
]

match_node-Held :
    (ps now fuel : ℕ) (key : List ℕ) (t : Tree) (id : ℕ)
    → let r = match_node ps now fuel key t id in in_tree r.at r.tree ≡ true
unfolding match_node
match_node-Held ps now zero key t id = in_tree_self t
match_node-Held ps now (suc fuel) [] (node l kids) id = in_tree_self (node l kids)
match_node-Held ps now (suc fuel) (x ∷ key) (node l kids) id =
    elim (Option-cases (get_child (get_child_key ps (x ∷ key)) kids)) [
      | inl n ↦ rw n (in_tree_self (node l kids))
      | inr (c, e) ↦
          let t = touch now c in
          let n = key_match ps (label t).key (x ∷ key) in
          rw e (
            found_child-Held ps kids l (get_child_key ps (x ∷ key)) t n
              (match_node ps now fuel (drop n (x ∷ key)) t id) id
              (match_node-Held ps now fuel (drop n (x ∷ key)) t id))
    ]

pub match_prefix-Held :
    (now : ℕ) (cache : RadixCache) (key : List ℕ)
    → let r = match_prefix now cache key in in_tree r.1 r.2.root ≡ true
unfolding match_prefix
match_prefix-Held now cache [] = in_tree_self cache.root
match_prefix-Held now cache (x ∷ key) =
    let k = aligned cache.page_size (x ∷ key) in
    match_node-Held cache.page_size now (length k) k (touch now cache.root) cache.next_id

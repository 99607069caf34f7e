-- ===== src/Radix/Nodes.antt =====
-- The nodes that a change of a tree of radix_cache.py leaves in it: a child is put in another's place.
use mini_infer.Prelude.{
  ℕ, ◌≡◌, refl, ◌∙◌, true, false, ◌||◌, Bool, List, some, if_of_true, if_of_false, Bool-cases, inl,
  inr, ◌==◌, arith,
}
use mini_infer.Radix.Keys.{same_list}
use mini_infer.Radix.Tree.{
  Label, Tree, Forest, node, nil, child, get_child, set_child, touch, split_node,
}
use mini_infer.Radix.Lock.{in_tree, in_forest}

or_mono :
    (a b c d : Bool)
    → (a ≡ true → c ≡ true)
    → (b ≡ true → d ≡ true)
    → (a || b) ≡ true
    → (c || d) ≡ true
or_mono true b c d h k e = rw (h refl) refl
or_mono false true c d h k e = rw (k refl) (ground arith)
or_mono false false c d h k e = cc

-- The nodes that `t` holds, `u` holds as well.
abbrev pub Keeps : Tree → Tree → Type 0
Keeps t u = (id : ℕ) → in_tree id t ≡ true → in_tree id u ≡ true

keeps_forest :
    (k : List ℕ) (u : Tree) (kids : Forest) (id : ℕ)
    → ((c : Tree) → get_child k kids ≡ some c → Keeps c u)
    → in_forest id kids ≡ true
    → in_forest id (set_child k u kids) ≡ true
unfolding in_tree
keeps_forest k u nil id h e = cc
keeps_forest k u (child j t rest) id h e = elim (Bool-cases (same_list k j)) [
  | inl s ↦ rw s (
      or_mono (in_tree id t) (in_forest id rest) (in_tree id u) (in_forest id rest)
        (h t (if_of_true _ _ s) id) (λ x. x) e)
  | inr n ↦ rw n (
      or_mono (in_tree id t) (in_forest id rest) (in_tree id t) (in_forest id (set_child k u rest))
        (λ x. x) (keeps_forest k u rest id (λ c g. h c (if_of_false _ _ n ∙ g))) e)
]

pub set_child-Keeps :
    (k : List ℕ) (u : Tree) (l : Label) (kids : Forest)
    → ((c : Tree) → get_child k kids ≡ some c → Keeps c u)
    → Keeps (node l kids) (node l (set_child k u kids))
unfolding in_tree
set_child-Keeps k u l kids h id e =
    or_mono (l.id == id) (in_forest id kids) (l.id == id) (in_forest id (set_child k u kids))
      (λ x. x) (keeps_forest k u kids id h) e

pub touch-Keeps : (now : ℕ) (c : Tree) → Keeps c (touch now c)
unfolding in_tree
touch-Keeps now (node l kids) id e = e

pub split_node-Keeps : (ps id len now : ℕ) (c : Tree) → Keeps c (split_node ps id len (touch now c))
unfolding split_node in_tree
split_node-Keeps ps id len now (node l kids) j e = rw e (ground arith)

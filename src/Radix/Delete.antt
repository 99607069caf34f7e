-- ===== src/Radix/Delete.antt =====
-- What the deletion of a leaf from the tree of radix_cache.py does to the other nodes.
use mini_infer.Prelude.{
  ℕ, ◌+◌, ◌≡◌, refl, sym, ap, ◌∙◌, subst, false, List, [], ◌∷◌, Option, none, some, arith,
  if◌then◌else◌, Bool-cases, Option-cases, inl, inr, if_of_true, if_of_false,
}
use mini_infer.Radix.Keys.{same_list, same_list_iff}
use mini_infer.Radix.Tree.{
  Label, Tree, Forest, node, nil, child, label, children, get_child, set_child, pop_child,
}
use mini_infer.Radix.Reads.{
  WfForest, WfChild, get_child-WfChild, set_child-WfForest, children-WfForest, same-WfChild,
}
use mini_infer.Radix.Weight.{weight, weight_all-set_child, weight_all-pop_child}
use mini_infer.Radix.Evict.{Address, get_at, delete_at, parent_of, last_key}

pub get_child-pop_child :
    (j k : List ℕ) (kids : Forest)
    → same_list j k ≡ false
    → get_child j (pop_child k kids) ≡ get_child j kids
get_child-pop_child j k nil n = refl
get_child-pop_child j k (child i t rest) n = elim (Bool-cases (same_list k i)) [
  | inl s ↦
      let other : same_list j i ≡ false =
        subst (λ x. same_list j x ≡ false) (same_list_iff k i s) n in
      ap (get_child j) (if_of_true rest (child i t (pop_child k rest)) s)
      ∙ sym (if_of_false (some t) (get_child j rest) other)
  | inr m ↦
      ap (get_child j) (if_of_false rest (child i t (pop_child k rest)) m)
      ∙ ap (λ x. if same_list j i then some t else x) (get_child-pop_child j k rest n)
]

pop_child-none :
    (j k : List ℕ) (kids : Forest) → get_child j kids ≡ none → get_child j (pop_child k kids) ≡ none
pop_child-none j k nil e = refl
pop_child-none j k (child i t rest) e = ground (arith, pop_child-none j k rest)

pop_child-WfForest :
    (ps : ℕ) (k : List ℕ) (kids : Forest) → WfForest ps kids → WfForest ps (pop_child k kids)
unfolding WfForest
pop_child-WfForest ps k nil w = tt
pop_child-WfForest ps k (child j t rest) w = elim (Bool-cases (same_list k j)) [
  | inl s ↦ subst (WfForest ps) (sym (if_of_true _ _ s)) w.2
  | inr n ↦
      subst (WfForest ps) (sym (if_of_false _ _ n))
        (w.0, pop_child-none j k rest w.1, pop_child-WfForest ps k rest w.2)
]

-- One key further down.
pub get_at-step :
    (k : List ℕ) (path : Address) (l : Label) (kids : Forest) {c : Tree}
    → get_child k kids ≡ some c
    → get_at (k ∷ path) (node l kids) ≡ get_at path c
get_at-step k path l kids e = rw (e, get_at)

pub get_at-inv :
    (k : List ℕ) (path : Address) (l : Label) (kids : Forest) {u : Tree}
    → get_at (k ∷ path) (node l kids) ≡ some u
    → (c : Tree) × (get_child k kids ≡ some c) × (get_at path c ≡ some u)
get_at-inv k path l kids {u} e = elim (Option-cases (get_child k kids)) [
  | inl n ↦ absurd (none_some (sym (ap (λ o. walk_on path o) n) ∙ e))
  | inr (c, s) ↦ (c, s, sym (ap (λ o. walk_on path o) s) ∙ e)
]
  where
    walk_on : Address → Option Tree → Option Tree
    walk_on path none = none
    walk_on path (some c) = get_at path c

    none_some : {A : Type 0} {a : A} → none ≡ some a → ⊥
    none_some h = cc

pub label-delete_at : (at : Address) (t : Tree) → label (delete_at at t) ≡ label t
label-delete_at [] t = refl
label-delete_at (k ∷ []) (node l kids) = refl
label-delete_at (k ∷ j ∷ path) (node l kids) = elim (Option-cases (get_child k kids)) [
  | inl n ↦ rw (n, delete_at)
  | inr (c, s) ↦ rw (s, delete_at)
]

pub delete_at-step :
    (k j : List ℕ) (path : Address) (l : Label) (kids : Forest) {c : Tree}
    → get_child k kids ≡ some c
    → delete_at (k ∷ j ∷ path) (node l kids) ≡ node l (set_child k (delete_at (j ∷ path) c) kids)
delete_at-step k j path l kids e = rw (e, delete_at)

-- The sums without the node.
pub delete_at-weight :
    (f : Label → ℕ) (k : List ℕ) (at : Address) (t : Tree) {x : Tree}
    → get_at (k ∷ at) t ≡ some x
    → weight f (delete_at (k ∷ at) t) + weight f x ≡ weight f t
unfolding weight
delete_at-weight f k [] (node l kids) {x} h =
    let (c, e, s) = get_at-inv k [] l kids h in
    let same : c ≡ x = cc in omega (arith, weight_all-pop_child f k c kids e, ap (weight f) same)
delete_at-weight f k (j ∷ at) (node l kids) {x} h =
    let (c, e, s) = get_at-inv k (j ∷ at) l kids h in
    omega (
      arith,
      ap (weight f) (delete_at-step k j at l kids e),
      weight_all-set_child f k c (delete_at (j ∷ at) c) kids e,
      delete_at-weight f j at c s,
    )

pub delete_at-WfForest :
    (ps : ℕ) (k : List ℕ) (at : Address) (t : Tree) {x : Tree}
    → get_at (k ∷ at) t ≡ some x
    → WfForest ps (children t)
    → WfForest ps (children (delete_at (k ∷ at) t))
delete_at-WfForest ps k [] (node l kids) h w = pop_child-WfForest ps k kids w
delete_at-WfForest ps k (j ∷ at) (node l kids) h w =
    let (c, e, s) = get_at-inv k (j ∷ at) l kids h in
    let wc = get_child-WfChild ps k kids w e in
    let lab = label-delete_at (j ∷ at) c in
    rw (delete_at-step k j at l kids e) (
      set_child-WfForest ps k (delete_at (j ∷ at) c) kids w (
        same-WfChild ps k c (delete_at (j ∷ at) c) wc (ap (λ x. x.key) lab) (ap (λ x. x.value) lab)
          (delete_at-WfForest ps j at c s (children-WfForest ps k c wc))))

-- A node stands under the first page of its key.
pub get_at-WfChild :
    (ps : ℕ) (k : List ℕ) (at : Address) (t : Tree) {x : Tree}
    → get_at (k ∷ at) t ≡ some x
    → WfForest ps (children t)
    → WfChild ps (last_key (k ∷ at)) x
get_at-WfChild ps k [] (node l kids) {x} h w =
    let (c, e, s) = get_at-inv k [] l kids h in
    let same : c ≡ x = cc in subst (WfChild ps k) same (get_child-WfChild ps k kids w e)
get_at-WfChild ps k (j ∷ at) (node l kids) h w =
    let (c, e, s) = get_at-inv k (j ∷ at) l kids h in
    get_at-WfChild ps j at c s (children-WfForest ps k c (get_child-WfChild ps k kids w e))

-- The parent of a node is no leaf.
pub parent-get_at :
    (k : List ℕ) (at : Address) (t : Tree) {x : Tree} {l : Label}
    → get_at (k ∷ at) t ≡ some x
    → get_at (parent_of (k ∷ at)) t ≡ some (node l nil)
    → ⊥
parent-get_at k [] (node m kids) {x} {l} h g =
    let (c, e, s) = get_at-inv k [] m kids h in
    let empty : kids ≡ nil = cc in let d = sym e ∙ ap (get_child k) empty in cc
parent-get_at k (j ∷ at) (node m kids) h g =
    let (c, e, s) = get_at-inv k (j ∷ at) m kids h in
    parent-get_at j at c s (sym (get_at-step k (parent_of (j ∷ at)) m kids e) ∙ g)

-- ===== src/Radix/Others.antt =====
-- The nodes that stay when a leaf is deleted from the tree of radix_cache.py.
use mini_infer.Prelude.{
  ℕ, ◌≡◌, ◌≢◌, refl, sym, ap, ◌∙◌, subst, List, [], ◌∷◌, some, Bool-cases, inl, inr, if_of_true,
  if_of_false,
}
use mini_infer.Radix.Keys.{same_list, same_list_iff}
use mini_infer.Radix.Tree.{
  Label, Tree, Forest, node, nil, label, children, get_child, set_child, pop_child,
  get_child-set_child,
}
use mini_infer.Radix.Evict.{Address, get_at, delete_at}
use mini_infer.Radix.Delete.{get_child-pop_child, get_at-step, get_at-inv, delete_at-step}

-- The node at an address, with its label as it was, and still a leaf if it was one.
pub record Kept (at : Address) (u t : Tree) : Type 0 where
  pub now : Tree
  pub there : get_at at t ≡ some now
  pub same_label : label now ≡ label u
  pub still_leaf : children u ≡ nil → children now ≡ nil

pub same-Kept : (at : Address) (u t : Tree) → get_at at t ≡ some u → Kept at u t
same-Kept at u t e = record { now = u; there = e; same_label = refl; still_leaf = λ h. h }

-- Under a leaf there is nothing.
pub get_at_leaf : (x : Label) (at : Address) {u : Tree} → get_at at (node x nil) ≡ some u → at ≡ []
get_at_leaf x [] e = refl
get_at_leaf x (k ∷ at) e = cc

-- Below a child that keeps its node.
under-Kept :
    (k : List ℕ) (at : Address) (l : Label) (kids : Forest) (c u : Tree)
    → get_child k kids ≡ some c
    → Kept at u c
    → Kept (k ∷ at) u (node l kids)
under-Kept k at l kids c u e h = record {
  now = h.now;
  there = get_at-step k at l kids e ∙ h.there;
  same_label = h.same_label;
  still_leaf = h.still_leaf;
}

-- The root of a tree that has a child.
root-Kept :
    (l : Label) (k : List ℕ) (kids others : Forest) {c : Tree}
    → get_child k kids ≡ some c
    → Kept [] (node l kids) (node l others)
root-Kept l k kids others e = record {
  now = node l others;
  there = refl;
  same_label = refl;
  still_leaf = λ h. (let d = sym e ∙ ap (get_child k) h in cc);
}

pub delete_at-Kept :
    (a b : Address) (t : Tree) {x : Label} {u : Tree}
    → get_at a t ≡ some (node x nil)
    → get_at b t ≡ some u
    → b ≢ a
    → Kept b u (delete_at a t)
delete_at-Kept [] b t {x} {u} h g n = same-Kept b u t g
delete_at-Kept (k ∷ []) [] (node l kids) {x} {u} h g n =
    let (c, e, s) = get_at-inv k [] l kids h in
    let whole : node l kids ≡ u = cc in
    subst (λ v. Kept [] v (node l (pop_child k kids))) whole
      (root-Kept l k kids (pop_child k kids) e)
delete_at-Kept (k ∷ []) (j ∷ b) (node l kids) {x} {u} h g n =
    let (c, e, s) = get_at-inv k [] l kids h in
    let (d, f, r) = get_at-inv j b l kids g in
    elim (Bool-cases (same_list j k)) [
      | inl same ↦
          let i = same_list_iff j k same in
          let leaf : d ≡ node x nil = (let v = sym f ∙ ap (λ y. get_child y kids) i ∙ e in cc) in
          let ends = get_at_leaf x b (sym (ap (get_at b) leaf) ∙ r) in
          absurd (n (ap (λ y. y ∷ b) i ∙ ap (λ y. k ∷ y) ends))
      | inr other ↦
          under-Kept j b l (pop_child k kids) d u (get_child-pop_child j k kids other ∙ f)
            (same-Kept b u d r)
    ]
delete_at-Kept (k ∷ i ∷ a) [] (node l kids) {x} {u} h g n =
    let (c, e, s) = get_at-inv k (i ∷ a) l kids h in
    let whole : node l kids ≡ u = cc in
    let changed = set_child k (delete_at (i ∷ a) c) kids in
    subst (λ v. Kept [] v (delete_at (k ∷ i ∷ a) (node l kids))) whole
      (subst (Kept [] (node l kids)) (sym (delete_at-step k i a l kids e))
        (root-Kept l k kids changed e))
delete_at-Kept (k ∷ i ∷ a) (j ∷ b) (node l kids) {x} {u} h g n =
    let (c, e, s) = get_at-inv k (i ∷ a) l kids h in
    let (d, f, r) = get_at-inv j b l kids g in
    let v = delete_at (i ∷ a) c in
    let changed = set_child k v kids in
    subst (Kept (j ∷ b) u) (sym (delete_at-step k i a l kids e))
      (elim (Bool-cases (same_list j k)) [
        | inl same ↦
            let key = same_list_iff j k same in
            let down : d ≡ c = (let w = sym f ∙ ap (λ y. get_child y kids) key ∙ e in cc) in
            let apart : b ≢ (i ∷ a) = λ q. n (ap (λ y. y ∷ b) key ∙ ap (λ y. k ∷ y) q) in
            under-Kept j b l changed v u (get_child-set_child j k v kids ∙ if_of_true _ _ same)
              (delete_at-Kept (i ∷ a) b c s (sym (ap (get_at b) down) ∙ r) apart)
        | inr other ↦
            under-Kept j b l changed d u
              (get_child-set_child j k v kids ∙ if_of_false _ _ other ∙ f) (same-Kept b u d r)
      ])

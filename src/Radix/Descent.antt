-- ===== src/Radix/Descent.antt =====
-- The node that a round of `_insert_helper` in radix_cache.py goes on from.
use mini_infer.Prelude.{
  ℕ, suc, ◌*◌, ◌≤◌, ◌<◌, ◌≡◌, refl, sym, ap, ◌∙◌, subst, List, length, take, arith, length-take,
  lt→ltb, le→ltb, if_of_true, if_of_false, dec_lt,
}
use native.Mathlib.Nat.{mul-le-mul_right}
use mini_infer.Radix.Keys.{key_match, get_child_key, Pages, key_match-take}
use mini_infer.Radix.Tree.{Label, Tree, node, label, touch, split_node}
use mini_infer.Radix.Cache.{next_node}
use mini_infer.Radix.Reads.{WfChild, touch-WfChild, child-match}
use mini_infer.Radix.Change.{ChildAnswers}
use mini_infer.Radix.Weight.{weight, Stable, weight-touch, weight-split_node}
use mini_infer.Radix.Nodes.{Keeps, touch-Keeps, split_node-Keeps}
use mini_infer.Radix.Match.{split-ChildAnswers, enter-touch}

-- A node that ends where the match does, in the place of the child `c`.
pub record Descent (ps : ℕ) (key : List ℕ) (c d : Tree) : Type 0 where
  pub shape : WfChild ps (get_child_key ps key) d
  pub same : ChildAnswers (λ xs ys. xs ≡ ys) ps (get_child_key ps key) c d
  pub match : key_match ps (label d).key key ≡ key_match ps (label c).key key
  pub sums : (f : Label → ℕ) → Stable f → weight f d ≡ weight f c
  pub kept : Keeps c d
  pub ends : length (label d).key ≡ key_match ps (label c).key key

label-split_node :
    (ps id len : ℕ) (c : Tree) → (label (split_node ps id len c)).key ≡ take len (label c).key
unfolding split_node
label-split_node ps id len (node l kids) = refl

pub next_node-Descent :
    (ps now id n : ℕ) (key : List ℕ) (c : Tree)
    → 0 < ps
    → Pages ps (suc n) key
    → WfChild ps (get_child_key ps key) c
    → Descent ps key c (next_node ps id (key_match ps (label c).key key) (touch now c))
next_node-Descent ps now id n key (node a below) pos p w =
    let c = node a below in
    let k = get_child_key ps key in
    let km = key_match ps a.key key in
    let m = child-match ps pos n key c p w in
    let fits : km ≤ length a.key =
      subst (λ x. x ≤ length a.key) (sym m.match)
        (subst (λ x. suc m.matched * ps ≤ x) (sym m.key-Pages)
          (mul-le-mul_right ps (omega (arith, m.bound)))) in
    elim (dec_lt km (length a.key)) [
      | yes h ↦
          let (same, shape) = split-ChildAnswers ps now id k c m pos w h in
          let l = label-split_node ps id km (touch now c) in
          let shorter : key_match ps (take km a.key) key ≡ km =
            subst (λ x. key_match ps (take x a.key) key ≡ x) (sym m.match)
              (key_match-take ps pos (suc m.matched) (suc m.pages) (suc n) a.key key m.key-Pages p
                  (omega (arith, m.bound))
                ∙ omega (arith, m.match)) in
          subst (Descent ps key c) (sym (if_of_true _ _ (lt→ltb _ _ h))) (record {
            shape = shape;
            same = same;
            kept = split_node-Keeps ps id km now c;
            sums = λ g s. weight-split_node g s ps id km (touch now c) ∙ weight-touch g s now c;
            match = ap (λ x. key_match ps x key) l ∙ shorter;
            ends = ap length l ∙ length-take km a.key ∙ omega arith;
          })
      | no h ↦
          subst (Descent ps key c) (sym (if_of_false _ _ (le→ltb km (length a.key) (omega arith))))
            (record {
              shape = touch-WfChild ps k now c w;
              same = λ g n j p under b. enter-touch ps g now j c;
              kept = touch-Keeps now c;
              sums = λ g s. weight-touch g s now c;
              match = refl;
              ends = omega arith;
            })
    ]

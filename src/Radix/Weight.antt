-- ===== src/Radix/Weight.antt =====
-- `total_size` of radix_cache.py, and sums over the nodes of a tree in general.
use mini_infer.Prelude.{
  ℕ, ◌+◌, ◌≡◌, sym, ap, ◌∙◌, List, none, some, arith, Bool-cases, inl, inr, if_of_true, if_of_false,
}
use mini_infer.Radix.Keys.{same_list}
use mini_infer.Radix.Tree.{
  Label, Tree, Forest, node, nil, child, get_child, set_child, pop_child, touch, split_node,
}

unfoldable mutual
  pub weight : (Label → ℕ) → Tree → ℕ
  weight f (node l kids) = f l + weight_all f kids

  pub weight_all : (Label → ℕ) → Forest → ℕ
  weight_all f nil = 0
  weight_all f (child k t rest) = weight f t + weight_all f rest

pub weight_all-set_child :
    (f : Label → ℕ) (k : List ℕ) (c d : Tree) (kids : Forest)
    → get_child k kids ≡ some c
    → weight_all f (set_child k d kids) + weight f c ≡ weight_all f kids + weight f d
unfolding weight
weight_all-set_child f k c d nil e = cc
weight_all-set_child f k c d (child j t rest) e = elim (Bool-cases (same_list k j)) [
  | inl s ↦
      let same : t ≡ c = (let g = sym (if_of_true (some t) (get_child k rest) s) ∙ e in cc) in
      omega (
        arith,
        ap (weight_all f) (if_of_true (child j d rest) (child j t (set_child k d rest)) s),
        ap (weight f) same,
      )
  | inr n ↦ omega (
    arith,
    ap (weight_all f) (if_of_false (child j d rest) (child j t (set_child k d rest)) n),
    weight_all-set_child f k c d rest (sym (if_of_false (some t) (get_child k rest) n) ∙ e),
  )
]

pub weight-set_child :
    (f : Label → ℕ) (l : Label) (k : List ℕ) (c d : Tree) (kids : Forest)
    → get_child k kids ≡ some c
    → weight f d ≡ weight f c
    → weight f (node l (set_child k d kids)) ≡ weight f (node l kids)
unfolding weight
weight-set_child f l k c d kids e h = omega (arith, weight_all-set_child f k c d kids e, h)

pub weight_all-set_child_new :
    (f : Label → ℕ) (k : List ℕ) (d : Tree) (kids : Forest)
    → get_child k kids ≡ none
    → weight_all f (set_child k d kids) ≡ weight_all f kids + weight f d
unfolding weight
weight_all-set_child_new f k d nil e = omega arith
weight_all-set_child_new f k d (child j t rest) e = elim (Bool-cases (same_list k j)) [
  | inl s ↦ (let g = sym (if_of_true (some t) (get_child k rest) s) ∙ e in cc)
  | inr n ↦ omega (
    arith,
    ap (weight_all f) (if_of_false (child j d rest) (child j t (set_child k d rest)) n),
    weight_all-set_child_new f k d rest (sym (if_of_false (some t) (get_child k rest) n) ∙ e),
  )
]

pub weight-set_child_new :
    (f : Label → ℕ) (l : Label) (k : List ℕ) (a : Label) (kids : Forest)
    → get_child k kids ≡ none
    → weight f (node l (set_child k (node a nil) kids)) ≡ weight f (node l kids) + f a
unfolding weight
weight-set_child_new f l k a kids e =
    omega (arith, weight_all-set_child_new f k (node a nil) kids e)

pub weight-set_child_more :
    (f : Label → ℕ) (l : Label) (k : List ℕ) (c d : Tree) (kids : Forest) (n : ℕ)
    → get_child k kids ≡ some c
    → weight f d ≡ weight f c + n
    → weight f (node l (set_child k d kids)) ≡ weight f (node l kids) + n
unfolding weight
weight-set_child_more f l k c d kids n e h = omega (arith, weight_all-set_child f k c d kids e, h)

pub weight_all-pop_child :
    (f : Label → ℕ) (k : List ℕ) (c : Tree) (kids : Forest)
    → get_child k kids ≡ some c
    → weight_all f (pop_child k kids) + weight f c ≡ weight_all f kids
unfolding weight
weight_all-pop_child f k c nil e = cc
weight_all-pop_child f k c (child j t rest) e = elim (Bool-cases (same_list k j)) [
  | inl s ↦
      let same : t ≡ c = (let g = sym (if_of_true (some t) (get_child k rest) s) ∙ e in cc) in
      omega (
        arith,
        ap (weight_all f) (if_of_true rest (child j t (pop_child k rest)) s),
        ap (weight f) same,
      )
  | inr n ↦ omega (
    arith,
    ap (weight_all f) (if_of_false rest (child j t (pop_child k rest)) n),
    weight_all-pop_child f k c rest (sym (if_of_false (some t) (get_child k rest) n) ∙ e),
  )
]

-- A sum that stamps and splits leave as it is.
pub record Stable (f : Label → ℕ) : Type 0 where
  pub stamp : (now : ℕ) (l : Label) → f (record l { last_access_time = now }) ≡ f l
  pub halves :
      (ps id len : ℕ) (l : Label) (kids : Forest)
      → weight f (split_node ps id len (node l kids)) ≡ weight f (node l kids)

pub weight-touch :
    (f : Label → ℕ) → Stable f → (now : ℕ) (t : Tree) → weight f (touch now t) ≡ weight f t
unfolding weight
weight-touch f s now (node l kids) = ap (λ x. x + weight_all f kids) (s.stamp now l)

pub weight-split_node :
    (f : Label → ℕ)
    → Stable f
    → (ps id len : ℕ) (t : Tree) → weight f (split_node ps id len t) ≡ weight f t
weight-split_node f s ps id len (node l kids) = s.halves ps id len l kids

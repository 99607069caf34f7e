-- ===== src/Radix/Change.antt =====
-- What a change at one child of a node, or a split of it, does to the answers of radix_cache.py.
use mini_infer.Prelude.{
  ℕ, zero, suc, ◌≤◌, ◌<◌, ◌≡◌, refl, sym, ap, ◌∙◌, subst, List, [], ◌∷◌, ◌++◌, none, some, length,
  take, drop, arith, ltb, lt→ltb, le→ltb, Bool-cases, inl, inr, if_of_true, if_of_false,
}
use native.Mathlib.Nat.{zero-mul}
use mini_infer.Radix.Keys.{same_list, same_list_iff, key_match, get_child_key, Pages}
use mini_infer.Radix.Tree.{
  Label, Tree, Forest, node, label, get_child, set_child, get_child-set_child,
}
use mini_infer.Radix.Reads.{walk, walk_child, enter, WfChild, walk-next, walk-stop, child-match}

-- Two trees compared by what they answer to each key of whole pages; `c` and `d` as children under `k`.
abbrev pub Answers : (List ℕ → List ℕ → Type 0) → ℕ → Tree → Tree → Type 0
Answers R ps t u =
    (g n : ℕ) (key : List ℕ)
    → Pages ps n key
    → length key ≤ g
    → R (walk ps g key t) (walk ps g key u)

abbrev pub ChildAnswers : (List ℕ → List ℕ → Type 0) → ℕ → List ℕ → Tree → Tree → Type 0
ChildAnswers R ps k c d =
    (g n : ℕ) (key : List ℕ)
    → Pages ps (suc n) key
    → get_child_key ps key ≡ k
    → length key ≤ suc g
    → R (enter ps g key c) (enter ps g key d)

-- A round depends on the child under the first page alone.
pub walk_same :
    (ps g : ℕ) (key : List ℕ) (l m : Label) (kids others : Forest)
    → get_child (get_child_key ps key) kids ≡ get_child (get_child_key ps key) others
    → walk ps g key (node l kids) ≡ walk ps g key (node m others)
unfolding walk
walk_same ps zero key l m kids others e = refl
walk_same ps (suc g) key l m kids others e = rw e

module _ (R : List ℕ → List ℕ → Type 0) (self : (xs : List ℕ) → R xs xs) where
  pub walk-set_child :
      (ps : ℕ) (k : List ℕ) (c d : Tree) (l m : Label) (kids : Forest)
      → get_child k kids ≡ some c
      → ChildAnswers R ps k c d
      → Answers R ps (node l kids) (node m (set_child k d kids))
  unfolding walk
  walk-set_child ps k c d l m kids e h zero n key p b = self []
  walk-set_child ps k c d l m kids e h (suc g) n [] p b = self []
  walk-set_child ps k c d l m kids e h (suc g) zero (x ∷ key) p b =
      absurd (omega (arith, zero-mul ps))
  walk-set_child ps k c d l m kids e h (suc g) (suc n) (x ∷ key) p b =
      let ck = get_child_key ps (x ∷ key) in
      elim (Bool-cases (same_list ck k)) [
        | inl s ↦
            let before =
              walk-next ps g (x ∷ key) l kids c refl
                (ap (λ j. get_child j kids) (same_list_iff ck k s) ∙ e) in
            let after =
              walk-next ps g (x ∷ key) m (set_child k d kids) d refl
                (get_child-set_child ck k d kids ∙ if_of_true _ _ s) in
            subst (λ v. R v (walk ps (suc g) (x ∷ key) (node m (set_child k d kids)))) (sym before)
              (subst (R (enter ps g (x ∷ key) c)) (sym after)
                (h g n (x ∷ key) p (same_list_iff ck k s) b))
        | inr n ↦
            subst (R (walk ps (suc g) (x ∷ key) (node l kids)))
              (walk_same ps (suc g) (x ∷ key) l m kids (set_child k d kids)
                (sym (get_child-set_child ck k d kids ∙ if_of_false _ _ n)))
              (self (walk ps (suc g) (x ∷ key) (node l kids)))
      ]

  -- A child that was not there.
  pub walk-set_child_new :
      (ps : ℕ) (k : List ℕ) (d : Tree) (l m : Label) (kids : Forest)
      → get_child k kids ≡ none
      → ((xs : List ℕ) → R [] xs)
      → Answers R ps (node l kids) (node m (set_child k d kids))
  unfolding walk
  walk-set_child_new ps k d l m kids e least zero n key p b = self []
  walk-set_child_new ps k d l m kids e least (suc g) n key p b =
      let ck = get_child_key ps key in
      elim (Bool-cases (same_list ck k)) [
        | inl s ↦
            let before =
              walk-stop ps g key l kids (ap (λ j. get_child j kids) (same_list_iff ck k s) ∙ e) in
            subst (λ v. R v (walk ps (suc g) key (node m (set_child k d kids)))) (sym before)
              (least _)
        | inr n ↦
            subst (R (walk ps (suc g) key (node l kids)))
              (walk_same ps (suc g) key l m kids (set_child k d kids)
                (sym (get_child-set_child ck k d kids ∙ if_of_false _ _ n)))
              (self (walk ps (suc g) key (node l kids)))
      ]

-- A child partly matched, in one piece: no walk goes past its match.
pub enter-part :
    (ps g : ℕ) (key : List ℕ) (c : Tree)
    → key_match ps (label c).key key < length (label c).key
    → enter ps g key c ≡ take (key_match ps (label c).key key) (label c).value
enter-part ps g key c h = if_of_true _ _ (lt→ltb _ _ h)

pub enter-whole :
    (ps g : ℕ) (key : List ℕ) (c : Tree)
    → length (label c).key ≤ key_match ps (label c).key key
    → enter ps g key c ≡ (label c).value ++ walk ps g (drop (key_match ps (label c).key key) key) c
enter-whole ps g key c h = if_of_false _ _ (le→ltb _ _ h)

-- A child with another tree below it, its key and its slots the same.
pub enter-label :
    (ps g : ℕ) (key : List ℕ) (c d : Tree)
    → (label d).key ≡ (label c).key
    → (label d).value ≡ (label c).value
    → enter ps g key d
      ≡ walk_child ps key c (walk ps g (drop (key_match ps (label c).key key) key) d)
enter-label ps g key c d e f = rw (e, f)

module _ (R : List ℕ → List ℕ → Type 0) (self : (xs : List ℕ) → R xs xs)
    (behind : (vs xs ys : List ℕ) → R xs ys → R (vs ++ xs) (vs ++ ys)) where
  walk_child-mono :
      (ps : ℕ) (key : List ℕ) (c : Tree) (xs ys : List ℕ)
      → R xs ys
      → R (walk_child ps key c xs) (walk_child ps key c ys)
  walk_child-mono ps key c xs ys h =
      elim (Bool-cases (ltb (key_match ps (label c).key key) (length (label c).key))) [
        | inl e ↦ rw e (self (take (key_match ps (label c).key key) (label c).value))
        | inr e ↦ rw e (behind (label c).value xs ys h)
      ]

  pub below-ChildAnswers :
      (ps : ℕ) (pos : 0 < ps) (k : List ℕ) (c d : Tree)
      → WfChild ps k c
      → (label d).key ≡ (label c).key
      → (label d).value ≡ (label c).value
      → Answers R ps c d
      → ChildAnswers R ps k c d
  below-ChildAnswers ps pos k c d w e f h g n key p under b =
      let m = child-match ps pos n key c p (subst (λ j. WfChild ps j c) (sym under) w) in
      subst (R (enter ps g key c)) (sym (enter-label ps g key c d e f)) (
        walk_child-mono ps key c _ _ (
          h g m.left (drop (key_match ps (label c).key key) key) m.left-Pages
            (omega (arith, m.shorter))))

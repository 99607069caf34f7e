-- ===== src/Radix/Match.antt =====
-- `match_prefix` of radix_cache.py against `walk`, which only reads.
use mini_infer.Prelude.{
  ℕ, zero, suc, ◌*◌, ◌≤◌, ◌<◌, ◌≡◌, refl, sym, ap, ◌∙◌, subst, true, List, [], ◌∷◌, ◌++◌, some,
  length, drop, arith, lt→ltb, le→ltb, Option-cases, inl, inr, dec_le, dec_lt,
}
use native.Mathlib.Nat.{zero-mul, mul-le-mul_right}
use mini_infer.Radix.Keys.{nonempty, key_match, get_child_key, Pages}
use mini_infer.Radix.Tree.{
  Label, Tree, Forest, node, label, children, get_child, set_child, touch, split_node,
}
use mini_infer.Radix.Cache.{Found, found_here, found_child, match_node}
use mini_infer.Radix.Reads.{
  walk, walk_child, enter, WfForest, WfChild, walk-next, walk-stop, walk-nil, walk-zero, walk-touch,
  get_child-WfChild, set_child-WfForest, touch-WfChild, same-WfChild, child-match, ChildMatch,
  children-WfForest,
}
use mini_infer.Radix.Change.{
  Answers, ChildAnswers, walk-set_child, enter-part, enter-whole, below-ChildAnswers,
}
use mini_infer.Radix.Weight.{weight, Stable, weight-touch, weight-split_node, weight-set_child}
use mini_infer.Radix.Split.{split_node-ChildAnswers, split_node-WfChild}

-- What a round comes to, with the whole tree in place of the steps: the values read, the tree's
-- label as it was, its shape, and its answers.
pub record MatchOk (ps f : ℕ) (key : List ℕ) (t : Tree) (r : Found) : Type 0 where
  pub reads : r.values ≡ walk ps f key t
  pub same_label : label r.tree ≡ label t
  pub shape : WfForest ps (children r.tree)
  pub answers : Answers (λ xs ys. xs ≡ ys) ps t r.tree
  pub sums : (f : Label → ℕ) → Stable f → weight f r.tree ≡ weight f t

found_here-MatchOk :
    (ps f id : ℕ) (key : List ℕ) (t : Tree)
    → WfForest ps (children t)
    → walk ps f key t ≡ []
    → MatchOk ps f key t (found_here t id)
found_here-MatchOk ps f id key t w e = record {
  reads = sym e;
  same_label = refl;
  shape = w;
  answers = λ g n k p b. refl;
  sums = λ h s. refl;
}

pub enter-touch :
    (ps g now : ℕ) (key : List ℕ) (c : Tree) → enter ps g key c ≡ enter ps g key (touch now c)
enter-touch ps g now key (node m below) =
    ap (walk_child ps key (node m below)) (sym (walk-touch ps g now _ (node m below)))

-- A partial match ends inside the key of the child.
pub partial_pages : (ps j q : ℕ) {len : ℕ} → len ≡ suc q * ps → suc j * ps < len → suc j ≤ q
partial_pages ps j q e h = elim (dec_le (suc j) q) [
  | yes l ↦ l
  | no n ↦
      let d : suc q * ps ≤ suc j * ps = mul-le-mul_right ps (omega arith) in absurd (omega arith)
]

pub split-ChildAnswers :
    (ps now id : ℕ) (k : List ℕ) (c : Tree) {key : List ℕ} (m : ChildMatch ps key c)
    → 0 < ps
    → WfChild ps k c
    → key_match ps (label c).key key < length (label c).key
    → ChildAnswers
        (λ xs ys. xs ≡ ys)
        ps
        k
        c
        (split_node ps id (key_match ps (label c).key key) (touch now c))
      × WfChild ps k (split_node ps id (key_match ps (label c).key key) (touch now c))
split-ChildAnswers ps now id k (node a below) {key} m pos w h =
    let inside =
      partial_pages ps m.matched m.pages m.key-Pages (subst (λ x. x < length a.key) m.match h) in
    let u = touch now (node a below) in
    let wu = touch-WfChild ps k now (node a below) w in
    subst
      (λ x.
        ChildAnswers (λ xs ys. xs ≡ ys) ps k (node a below) (split_node ps id x u)
        × WfChild ps k (split_node ps id x u))
      (sym m.match)
      (
        λ g n j p under b.
            enter-touch ps g now j (node a below)
            ∙ split_node-ChildAnswers ps pos id m.matched m.pages k u wu m.key-Pages inside g n j p
                under b,
        split_node-WfChild ps id m.matched m.pages k u pos wu m.key-Pages inside,
      )

module _ (ps now id f n : ℕ) (key : List ℕ) (l : Label) (kids : Forest) (pos : 0 < ps)
    (w : WfForest ps kids) (p : Pages ps (suc n) key) (b : length key ≤ suc f)
    (some_key : nonempty key ≡ true) where
  found_part :
      (c : Tree) (rest : Found)
      → get_child (get_child_key ps key) kids ≡ some c
      → key_match ps (label c).key key < length (label c).key
      → MatchOk ps (suc f) key (node l kids) (
          found_child ps kids l
            (get_child_key ps key)
            (touch now c)
            (key_match ps (label c).key key)
            rest
            id)
  unfolding split_node WfForest
  found_part (node a below) rest e h =
      let k = get_child_key ps key in
      let c = node a below in
      let wc = get_child-WfChild ps k kids w e in
      let m = child-match ps pos n key c p wc in
      let (same, shape) = split-ChildAnswers ps now id k c m pos wc h in
      let upper = split_node ps id (key_match ps a.key key) (touch now c) in
      let slot : k ≡ get_child_key ps a.key = wc.0.0 in
      rw (lt→ltb _ _ h) (record {
        reads = sym (walk-next ps f key l kids c some_key e ∙ enter-part ps f key c h);
        same_label = refl;
        shape =
            subst (λ j. WfForest ps (set_child j upper kids)) slot
              (set_child-WfForest ps k upper kids w shape);
        answers =
            subst
              (λ j. Answers (λ xs ys. xs ≡ ys) ps (node l kids) (node l (set_child j upper kids)))
              slot (walk-set_child (λ xs ys. xs ≡ ys) (λ xs. refl) ps k c upper l l kids e same);
        sums = λ g s.
            subst (λ j. weight g (node l (set_child j upper kids)) ≡ weight g (node l kids)) slot
              (weight-set_child g l k c upper kids e (
                weight-split_node g s ps id (key_match ps a.key key) (touch now c)
                ∙ weight-touch g s now c));
      })

  found_whole :
      (c : Tree) (rest : Found)
      → get_child (get_child_key ps key) kids ≡ some c
      → length (label c).key ≤ key_match ps (label c).key key
      → MatchOk ps f (drop (key_match ps (label c).key key) key) (touch now c) rest
      → MatchOk ps (suc f) key (node l kids) (
          found_child ps kids l
            (get_child_key ps key)
            (touch now c)
            (key_match ps (label c).key key)
            rest
            id)
  found_whole (node a below) rest e h r =
      let k = get_child_key ps key in
      let c = node a below in
      let wc = get_child-WfChild ps k kids w e in
      let m = child-match ps pos n key c p wc in
      rw (le→ltb _ _ h) (record {
        reads =
            ap (λ v. a.value ++ v) (r.reads ∙ walk-touch ps f now _ c)
            ∙ sym (walk-next ps f key l kids c some_key e ∙ enter-whole ps f key c h);
        same_label = refl;
        shape = set_child-WfForest ps k rest.tree kids w (
            same-WfChild ps k c rest.tree wc (ap (λ x. x.key) r.same_label)
              (ap (λ x. x.value) r.same_label) r.shape);
        answers =
            walk-set_child (λ xs ys. xs ≡ ys) (λ xs. refl) ps k c rest.tree l l kids e
              (below-ChildAnswers (λ xs ys. xs ≡ ys) (λ xs. refl)
                (λ vs xs ys h. ap (λ x. vs ++ x) h) ps pos k c rest.tree wc
                (ap (λ x. x.key) r.same_label) (ap (λ x. x.value) r.same_label)
                (λ g n j p b. sym (walk-touch ps g now j c) ∙ r.answers g n j p b));
        sums =
            λ g s. weight-set_child g l k c rest.tree kids e (r.sums g s ∙ weight-touch g s now c);
      })

  found_child-MatchOk :
      (c : Tree) (rest : Found)
      → get_child (get_child_key ps key) kids ≡ some c
      → MatchOk ps f (drop (key_match ps (label c).key key) key) (touch now c) rest
      → MatchOk ps (suc f) key (node l kids) (
          found_child ps kids l
            (get_child_key ps key)
            (touch now c)
            (key_match ps (label c).key key)
            rest
            id)
  found_child-MatchOk c rest e r =
      elim (dec_lt (key_match ps (label c).key key) (length (label c).key)) [
        | yes h ↦ found_part c rest e h
        | no h ↦ found_whole c rest e (omega arith) r
      ]

label-touch : (now : ℕ) (c : Tree) → (label (touch now c)).key ≡ (label c).key
label-touch now (node l kids) = refl

children-touch : (now : ℕ) (c : Tree) → children (touch now c) ≡ children c
children-touch now (node l kids) = refl

pub match_node-MatchOk :
    (ps now f n : ℕ) (key : List ℕ) (t : Tree) (id : ℕ)
    → 0 < ps
    → WfForest ps (children t)
    → Pages ps n key
    → length key ≤ f
    → MatchOk ps f key t (match_node ps now f key t id)
unfolding match_node
match_node-MatchOk ps now zero n key t id pos w p b =
    found_here-MatchOk ps 0 id key t w (walk-zero ps key t)
match_node-MatchOk ps now (suc f) n [] (node l kids) id pos w p b =
    found_here-MatchOk ps (suc f) id [] (node l kids) w (walk-nil ps (suc f) (node l kids))
match_node-MatchOk ps now (suc f) zero (x ∷ key) (node l kids) id pos w p b =
    absurd (omega (arith, zero-mul ps))
match_node-MatchOk ps now (suc f) (suc n) (x ∷ key) (node l kids) id pos w p b =
    elim (Option-cases (get_child (get_child_key ps (x ∷ key)) kids)) [
      | inl e ↦ rw e (
          found_here-MatchOk ps (suc f) id (x ∷ key) (node l kids) w
            (walk-stop ps f (x ∷ key) l kids e))
      | inr (c, e) ↦
          let wc = get_child-WfChild ps (get_child_key ps (x ∷ key)) kids w e in
          let m = child-match ps pos n (x ∷ key) c p wc in
          rw e (
            subst
              (λ k. MatchOk ps (suc f) (x ∷ key) (node l kids) (
                found_child ps kids l (get_child_key ps (x ∷ key)) (touch now c)
                  (key_match ps k (x ∷ key))
                  (match_node ps now f (drop (key_match ps k (x ∷ key)) (x ∷ key)) (touch now c) id)
                  id))
              (sym (label-touch now c))
              (found_child-MatchOk ps now id f n (x ∷ key) l kids pos w p b refl c _ e (
                match_node-MatchOk ps now f m.left
                  (drop (key_match ps (label c).key (x ∷ key)) (x ∷ key)) (touch now c) id pos
                  (subst (WfForest ps) (sym (children-touch now c)) (children-WfForest ps _ c wc))
                  m.left-Pages (omega (arith, m.shorter)))))
    ]

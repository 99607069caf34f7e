-- ===== src/Radix/Lookup.antt =====
-- `RadixCache` of radix_cache.py as a whole: its invariant, what it answers to a key, and the two
-- operations that walk a key down the tree.
use mini_infer.Prelude.{
  ℕ, ◌+◌, ◌*◌, ◌/◌, ◌<◌, ◌≡◌, refl, sym, ap, ◌∙◌, subst, List, [], ◌∷◌, length, length-take,
  length-drop, arith, ltb, if◌then◌else◌, if_both, take-nil, dec_lt, lt→ltb, le→ltb,
}
use native.Mathlib.Nat.{div-mul-le_self, mul-one}
use mini_infer.Prelude.Int.{ℤ, pos, ◌+ℤ◌, int_laws}
use mini_infer.Radix.Keys.{align_len, Pages}
use mini_infer.Radix.Tree.{Label, Tree, node, label, children, touch, split_node}
use mini_infer.Radix.Cache.{RadixCache, aligned, match_node, match_prefix}
use mini_infer.Radix.Reads.{walk, WfForest, walk-touch, walk-nil}
use mini_infer.Radix.Weight.{weight, weight_all, Stable}
use mini_infer.Radix.Match.{match_node-MatchOk}
use mini_infer.Radix.Sizes.{held, held_len, free_len}

-- The tree has its shape, the root stays locked and holds no slot, and the counters count its tokens.
pub record WfCache (cache : RadixCache) : Type 0 where
  pub positive : 0 < cache.page_size
  pub shape : WfForest cache.page_size (children cache.root)
  pub root_locked : (label cache.root).lock_ref ≡ pos 1
  pub root_empty : (label cache.root).value ≡ []
  pub evictable : cache.evictable_size_ ≡ pos (weight_all free_len (children cache.root))
  pub protected : cache.protected_size_ ≡ pos (weight_all held_len (children cache.root))

-- The slots that the cache has for the beginning of a key.
abbrev pub lookup : RadixCache → List ℕ → List ℕ
lookup cache key =
    walk cache.page_size (length (aligned cache.page_size key)) (aligned cache.page_size key)
      cache.root

pub free_len-Stable : Stable free_len
unfolding weight split_node
free_len-Stable = record {
  stamp = λ now l. refl;
  halves = λ ps id len l kids. ground (arith, length-take len l.key, length-drop len l.key);
}

pub held_len-Stable : Stable held_len
unfolding weight split_node
held_len-Stable = record {
  stamp = λ now l. refl;
  halves = λ ps id len l kids. ground (arith, length-take len l.key, length-drop len l.key);
}

abbrev pub aligned_pages : ℕ → List ℕ → ℕ
aligned_pages ps key = if ltb 1 ps then length key / ps else length key

pub aligned-Pages :
    (ps : ℕ) (key : List ℕ) → 0 < ps → Pages ps (aligned_pages ps key) (aligned ps key)
unfolding align_len
aligned-Pages ps key positive = elim (dec_lt 1 ps) [
  | yes h ↦
      rw (lt→ltb 1 ps h)
        (omega (arith, length-take (length key / ps * ps) key, div-mul-le_self (length key) ps))
  | no h ↦
      let one : ps ≡ 1 = omega arith in
      rw (le→ltb 1 ps (omega arith), one) (omega (arith, mul-one (length key)))
]

pub weight_parts : (f : Label → ℕ) (t : Tree) → weight f t ≡ f (label t) + weight_all f (children t)
unfolding weight
weight_parts f (node l kids) = refl

label_len-touch :
    (f : Label → ℕ) → Stable f → (now : ℕ) (t : Tree) → f (label (touch now t)) ≡ f (label t)
label_len-touch f s now (node l kids) = s.stamp now l

pub children-touch : (now : ℕ) (t : Tree) → children (touch now t) ≡ children t
children-touch now (node l kids) = refl

lock-touch : (now : ℕ) (t : Tree) → (label (touch now t)).lock_ref ≡ (label t).lock_ref
lock-touch now (node l kids) = refl

value-touch : (now : ℕ) (t : Tree) → (label (touch now t)).value ≡ (label t).value
value-touch now (node l kids) = refl

-- The sums below the root.
below_root :
    (f : Label → ℕ) (now n : ℕ) (t u : Tree)
    → Stable f
    → label u ≡ label (touch now t)
    → weight f u ≡ weight f (touch now t) + n
    → weight_all f (children u) ≡ weight_all f (children t) + n
below_root f now n t u s e h = omega (
  arith,
  weight_parts f u,
  weight_parts f (touch now t),
  ap f e,
  label_len-touch f s now t,
  ap (weight_all f) (children-touch now t),
)

add_pos : (a b : ℕ) → pos a +ℤ pos b ≡ pos (a + b)
add_pos a b = omega int_laws

pub aligned-nil : (ps : ℕ) → aligned ps [] ≡ []
unfolding align_len
aligned-nil ps = if_both (λ x. x ≡ []) (ltb 1 ps) (take-nil (0 / ps * ps)) refl

pub lookup-nil : (cache : RadixCache) → lookup cache [] ≡ []
lookup-nil cache = rw (aligned-nil cache.page_size) (walk-nil cache.page_size 0 cache.root)

-- A new tree under the same root, `n` tokens larger.
pub grown-WfCache :
    (now n id : ℕ) (cache : RadixCache) (t : Tree) (e : ℤ)
    → WfCache cache
    → label t ≡ label (touch now cache.root)
    → WfForest cache.page_size (children t)
    → weight free_len t ≡ weight free_len (touch now cache.root) + n
    → weight held_len t ≡ weight held_len (touch now cache.root) + 0
    → e ≡ cache.evictable_size_ +ℤ pos n
    → WfCache (record cache { root = t; next_id = id; evictable_size_ = e })
grown-WfCache now n id cache t e w l shape free held g =
    let a = below_root free_len now n cache.root t free_len-Stable l free in
    let b = below_root held_len now 0 cache.root t held_len-Stable l held in
    let more : cache.evictable_size_ +ℤ pos n ≡ pos (weight_all free_len (children t)) =
      rw (w.evictable, a) (add_pos (weight_all free_len (children cache.root)) n) in
    record {
      positive = w.positive;
      shape = shape;
      root_locked = ap (λ x. x.lock_ref) l ∙ lock-touch now cache.root ∙ w.root_locked;
      root_empty = ap (λ x. x.value) l ∙ value-touch now cache.root ∙ w.root_empty;
      evictable = g ∙ more;
      protected = w.protected ∙ ap pos (omega (arith, b));
    }

record Matched (now : ℕ) (cache : RadixCache) (key : List ℕ) (r : List ℕ × ℕ × RadixCache)
    : Type 0 where
  reads : r.0 ≡ lookup cache key
  others : (other : List ℕ) → lookup r.2 other ≡ lookup cache other
  whole : WfCache r.2

match_prefix-Matched :
    (now : ℕ) (cache : RadixCache) (key : List ℕ)
    → WfCache cache
    → Matched now cache key (match_prefix now cache key)
unfolding match_prefix
match_prefix-Matched now cache [] w = record {
  reads = sym (lookup-nil cache);
  others = λ other. refl;
  whole = w;
}
match_prefix-Matched now cache (x ∷ key) w =
    let ps = cache.page_size in
    let k = aligned ps (x ∷ key) in
    let p = aligned-Pages ps (x ∷ key) w.positive in
    let shape = subst (WfForest ps) (sym (children-touch now cache.root)) w.shape in
    let m =
      match_node-MatchOk ps now (length k) (aligned_pages ps (x ∷ key)) k (touch now cache.root)
        cache.next_id w.positive shape p (omega arith) in
    record {
      reads = m.reads ∙ walk-touch ps (length k) now k cache.root;
      others = λ other.
          sym (
            m.answers (length (aligned ps other)) (aligned_pages ps other) (aligned ps other)
              (aligned-Pages ps other w.positive) (omega arith))
          ∙ walk-touch ps (length (aligned ps other)) now (aligned ps other) cache.root;
      whole =
          grown-WfCache now 0
            (match_node ps now (length k) k (touch now cache.root) cache.next_id).next_id cache _
            cache.evictable_size_ w m.same_label m.shape
            (m.sums free_len free_len-Stable ∙ omega arith)
            (m.sums held_len held_len-Stable ∙ omega arith) (omega int_laws);
    }

-- `match_prefix` returns the slots that the cache has for the key and changes no answer: to split a
-- node is not seen from outside. The cache stays well formed.
pub match_prefix-lookup :
    (now : ℕ) (cache : RadixCache) (key : List ℕ)
    → WfCache cache
    → ((match_prefix now cache key).0 ≡ lookup cache key)
      × ((other : List ℕ) → lookup (match_prefix now cache key).2 other ≡ lookup cache other)
      × WfCache (match_prefix now cache key).2
match_prefix-lookup now cache key w =
    let m = match_prefix-Matched now cache key w in (m.reads, m.others, m.whole)

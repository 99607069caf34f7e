-- ===== src/Radix/Leaves.antt =====
-- `_collect_leaves` of radix_cache.py: the leaves that no request holds, each once.
use mini_infer.Prelude.{
  ℕ, ◌≡◌, refl, sym, ap, ◌∙◌, subst, Bool, true, false, List, [], ◌∷◌, ◌++◌, map, none, some, Elem,
  Distinct, Bool-cases, inl, inr, ◌⊎◌, if◌then◌else◌, if_both, if_of_true, if_of_false,
}
use mini_infer.Radix.Evict.{Entry, Address, collect_leaves, collect_below, below, get_at}
use mini_infer.Radix.Keys.{same_list, same_list_self, same_list_iff}
use mini_infer.Radix.Tree.{Label, Tree, Forest, node, nil, child, children, get_child}
use mini_infer.Radix.Lock.{is_pos}
use mini_infer.Radix.Reads.{WfForest, children-WfForest}
use mini_infer.Radix.Heap.{FreeLeaf}
use mini_infer.Radix.Delete.{get_at-step}

module _ {A : Type 0} where
  Elem-apart : (a : A) (xs ys : List A) → Elem a (xs ++ ys) → Elem a xs ⊎ Elem a ys
  Elem-apart a [] ys m = inr m
  Elem-apart a (x ∷ xs) ys (inl e) = inl (inl e)
  Elem-apart a (x ∷ xs) ys (inr m) = elim (Elem-apart a xs ys m) [
    | inl k ↦ inl (inr k)
    | inr k ↦ inr k
  ]

  Distinct-append :
      (xs ys : List A)
      → Distinct xs
      → Distinct ys
      → ((a : A) → Elem a xs → Elem a ys → ⊥)
      → Distinct (xs ++ ys)
  Distinct-append [] ys h k apart = k
  Distinct-append (x ∷ xs) ys (n, h) k apart = (
    λ m. elim (Elem-apart x xs ys m) [ inl i ↦ n i | inr j ↦ apart x (inl refl) j ],
    Distinct-append xs ys h k (λ a i j. apart a (inr i) j),
  )

  Elem-map : (f : A → A) (a : A) (xs : List A) → Elem a (map f xs) → (b : A) × Elem b xs × (a ≡ f b)
  Elem-map f a [] m = absurd m
  Elem-map f a (x ∷ xs) (inl e) = (x, inl refl, e)
  Elem-map f a (x ∷ xs) (inr m) = let (b, i, e) = Elem-map f a xs m in (b, inr i, e)

  Distinct-map :
      (f : A → A)
      → ((x y : A) → f x ≡ f y → x ≡ y)
      → (xs : List A) → Distinct xs
      → Distinct (map f xs)
  Distinct-map f inj [] h = tt
  Distinct-map f inj (x ∷ xs) (n, h) = (
    λ m. (let (b, i, e) = Elem-map f (f x) xs m in n (subst (λ y. Elem y xs) (sym (inj x b e)) i)),
    Distinct-map f inj xs h,
  )

abbrev tail_of : Address → Address
tail_of [] = []
tail_of (k ∷ at) = at

abbrev first_of : List ℕ → Address → List ℕ
first_of d [] = d
first_of d (k ∷ at) = k

abbrev above : Entry → Entry
above e = record e { at = tail_of e.at }

below-injective : (k : List ℕ) (x y : Entry) → below k x ≡ below k y → x ≡ y
below-injective k x y e = ap above e

-- The leaf stands below a child.
record Under (kids : Forest) (e : Entry) : Type 0 where
  key : List ℕ
  split : e.at ≡ key ∷ tail_of e.at
  holder : Tree
  there : get_child key kids ≡ some holder
  inner : FreeLeaf holder (above e)

later-Under :
    (k : List ℕ) (t : Tree) (rest : Forest) (e : Entry)
    → get_child k rest ≡ none
    → Under rest e
    → Under (child k t rest) e
later-Under k t rest e n u = elim (Bool-cases (same_list u.key k)) [
  | inl s ↦
      let same = same_list_iff u.key k s in
      let d = sym u.there ∙ ap (λ j. get_child j rest) same ∙ n in cc
  | inr m ↦ record {
    key = u.key;
    split = u.split;
    holder = u.holder;
    there = if_of_false (some t) (get_child u.key rest) m ∙ u.there;
    inner = u.inner;
  }
]

Under-FreeLeaf : (l : Label) (kids : Forest) (e : Entry) → Under kids e → FreeLeaf (node l kids) e
Under-FreeLeaf l kids e u = record {
  leaf = u.inner.leaf;
  there =
      ap (λ a. get_at a (node l kids)) u.split
      ∙ get_at-step u.key (tail_of e.at) l kids u.there
      ∙ u.inner.there;
  free = u.inner.free;
  time = u.inner.time;
}

lone-FreeLeaf :
    (l : Label) (e : Entry) (b : Bool)
    → is_pos 0 l.lock_ref ≡ b
    → Elem e (if b then record { priority = l.last_access_time; at = [] } ∷ [] else [])
    → FreeLeaf (node l nil) e
lone-FreeLeaf l e true h (inl q) = record {
  leaf = l;
  there = ap (λ z. get_at z.at (node l nil)) q;
  free = h;
  time = ap (λ z. z.priority) q;
}
lone-FreeLeaf l e true h (inr m) = absurd m
lone-FreeLeaf l e false h m = absurd m

mutual
  unfolding collect_leaves WfForest

  collect_leaves-Under :
      (ps : ℕ) (kids : Forest) (e : Entry)
      → WfForest ps kids
      → Elem e (collect_leaves kids)
      → Under kids e
  collect_leaves-Under ps nil e w m = absurd m
  collect_leaves-Under ps (child k t rest) e w m =
      elim (Elem-apart e (collect_leaves rest) (map (below k) (collect_below t)) m) [
        | inl i ↦ later-Under k t rest e w.1 (collect_leaves-Under ps rest e w.2 i)
        | inr j ↦
            let (b, i, q) = Elem-map (below k) e (collect_below t) j in
            record {
              key = k;
              split = ap (λ z. z.at) q ∙ ap (λ z. k ∷ tail_of z.at) (sym q);
              holder = t;
              there = if_of_true (some t) (get_child k rest) (same_list_self k);
              inner =
                  subst (FreeLeaf t) (ap above (sym q))
                    (collect_below-FreeLeaf ps t b (children-WfForest ps k t w.0) i);
            }
      ]

  collect_below-FreeLeaf :
      (ps : ℕ) (t : Tree) (e : Entry)
      → WfForest ps (children t)
      → Elem e (collect_below t)
      → FreeLeaf t e
  collect_below-FreeLeaf ps (node l nil) e w m = lone-FreeLeaf l e (is_pos 0 l.lock_ref) refl m
  collect_below-FreeLeaf ps (node l (child k t rest)) e w m =
      Under-FreeLeaf l (child k t rest) e (collect_leaves-Under ps (child k t rest) e w m)

mutual
  unfolding collect_leaves WfForest

  pub collect_leaves-Distinct :
      (ps : ℕ) (kids : Forest) → WfForest ps kids → Distinct (collect_leaves kids)
  collect_leaves-Distinct ps nil w = tt
  collect_leaves-Distinct ps (child k t rest) w =
      Distinct-append (collect_leaves rest) (map (below k) (collect_below t))
        (collect_leaves-Distinct ps rest w.2)
        (Distinct-map (below k) (below-injective k) (collect_below t)
          (collect_below-Distinct ps t (children-WfForest ps k t w.0)))
        (λ a i j.
          (let u = collect_leaves-Under ps rest a w.2 i in
            let (b, m, q) = Elem-map (below k) a (collect_below t) j in
            let whole = sym u.split ∙ ap (λ z. z.at) q in
            let same : u.key ≡ k = ap (first_of k) whole in
            let found = sym u.there ∙ ap (λ y. get_child y rest) same ∙ w.1 in cc))

  collect_below-Distinct :
      (ps : ℕ) (t : Tree) → WfForest ps (children t) → Distinct (collect_below t)
  collect_below-Distinct ps (node l nil) w =
      if_both Distinct (is_pos 0 l.lock_ref)
        {x = record { priority = l.last_access_time; at = [] } ∷ []} (λ m. m, tt) tt
  collect_below-Distinct ps (node l (child k t rest)) w =
      collect_leaves-Distinct ps (child k t rest) w

pub leaves-FreeLeaf :
    (ps : ℕ) (root : Tree) (e : Entry)
    → WfForest ps (children root)
    → Elem e (collect_leaves (children root))
    → FreeLeaf root e
leaves-FreeLeaf ps (node l kids) e w m =
    Under-FreeLeaf l kids e (collect_leaves-Under ps kids e w m)

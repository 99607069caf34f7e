-- ===== src/Radix/Complete.antt =====
-- The heap of `evict` in radix_cache.py holds every leaf that is free.
use mini_infer.Prelude.{
  ℕ, ◌≡◌, ◌≢◌, refl, sym, ap, ◌∙◌, subst, true, false, List, [], ◌∷◌, ◌++◌, map, Option, none, some,
  Elem, Bool-cases, inl, inr, ◌⊎◌, if◌then◌else◌, if_of_true, if_of_false,
}
use mini_infer.Radix.Keys.{same_list, same_list_iff, same_list_self}
use mini_infer.Radix.Tree.{
  Label, Tree, Forest, node, nil, child, children, get_child, set_child, pop_child,
  get_child-set_child,
}
use mini_infer.Radix.Reads.{WfForest, get_child-WfChild, children-WfForest}
use mini_infer.Radix.Lock.{is_pos}
use mini_infer.Radix.Evict.{
  Address, Entry, Heapq, get_at, delete_at, parent_of, push_parent, collect_leaves, collect_below,
  below,
}
use mini_infer.Radix.Delete.{get_child-pop_child, get_at-step, get_at-inv, delete_at-step}
use mini_infer.Radix.Heap.{HeapLaws, FreeLeaf, Elem-perm, perm_sym}

pop_child-gone :
    (ps : ℕ) (k : List ℕ) (kids : Forest) → WfForest ps kids → get_child k (pop_child k kids) ≡ none
unfolding WfForest
pop_child-gone ps k nil w = refl
pop_child-gone ps k (child j t rest) w = elim (Bool-cases (same_list k j)) [
  | inl s ↦
      ap (get_child k) (if_of_true rest (child j t (pop_child k rest)) s)
      ∙ ap (λ x. get_child x rest) (same_list_iff k j s)
      ∙ w.1
  | inr n ↦
      ap (get_child k) (if_of_false rest (child j t (pop_child k rest)) n)
      ∙ if_of_false (some t) (get_child k (pop_child k rest)) n
      ∙ pop_child-gone ps k rest w.2
]

abbrev rest_of : Address → Address
rest_of [] = []
rest_of (k ∷ at) = at

abbrev first_key : Address → List ℕ
first_key [] = []
first_key (k ∷ at) = k

key_differs : (j k : List ℕ) (b a : Address) → same_list j k ≡ false → (j ∷ b) ≡ (k ∷ a) → ⊥
key_differs j k b a n e =
    let same : j ≡ k = ap first_key e in
    let t = ap (same_list j) same ∙ n in let s = same_list_self j in cc

-- A leaf of the tree without a leaf was one before, or is the parent that lost its last child.
pub delete_at-leaf :
    (ps : ℕ) (k : List ℕ) (a b : Address) (t : Tree) {x : Tree} {l : Label}
    → WfForest ps (children t)
    → get_at (k ∷ a) t ≡ some x
    → get_at b (delete_at (k ∷ a) t) ≡ some (node l nil)
    → ((get_at b t ≡ some (node l nil)) × (b ≢ (k ∷ a))) ⊎ (b ≡ parent_of (k ∷ a))
delete_at-leaf ps k [] [] (node m kids) w h g = inr refl
delete_at-leaf ps k [] (j ∷ b) (node m kids) w h g =
    let (c, e, s) = get_at-inv j b m (pop_child k kids) g in
    elim (Bool-cases (same_list j k)) [
      | inl same ↦
          let d =
            sym e
            ∙ ap (λ y. get_child y (pop_child k kids)) (same_list_iff j k same)
            ∙ pop_child-gone ps k kids w in
          cc
      | inr other ↦ inl (
        get_at-step j b m kids (sym (get_child-pop_child j k kids other) ∙ e) ∙ s,
        λ q. key_differs j k b [] other q,
      )
    ]
delete_at-leaf ps k (i ∷ a) [] (node m kids) {l} w h g =
    let (c, e, s) = get_at-inv k (i ∷ a) m kids h in
    let v = delete_at (i ∷ a) c in
    let whole = sym (ap (get_at []) (delete_at-step k i a m kids e)) ∙ g in
    let empty : set_child k v kids ≡ nil = cc in
    let d =
      sym (get_child-set_child k k v kids ∙ if_of_true _ _ (same_list_self k))
      ∙ ap (get_child k) empty in
    cc
delete_at-leaf ps k (i ∷ a) (j ∷ b) (node m kids) {l} w h g =
    let (c, e, s) = get_at-inv k (i ∷ a) m kids h in
    let v = delete_at (i ∷ a) c in
    let (d, f, r) =
      get_at-inv j b m (set_child k v kids)
        (sym (ap (get_at (j ∷ b)) (delete_at-step k i a m kids e)) ∙ g) in
    elim (Bool-cases (same_list j k)) [
      | inl same ↦
          let key = same_list_iff j k same in
          let down : d ≡ v =
            (let q = sym f ∙ get_child-set_child j k v kids ∙ if_of_true _ _ same in cc) in
          elim (delete_at-leaf ps i a b c
            (children-WfForest ps k c (get_child-WfChild ps k kids w e)) s
            (sym (ap (get_at b) down) ∙ r)) [
              | inl (there, apart) ↦ inl (
                get_at-step j b m kids (ap (λ y. get_child y kids) key ∙ e) ∙ there,
                λ q. apart (ap rest_of q),
              )
              | inr up ↦ inr (ap (λ y. y ∷ b) key ∙ ap (λ y. k ∷ y) up)
            ]
      | inr other ↦ inl (
        get_at-step j b m kids (sym (get_child-set_child j k v kids ∙ if_of_false _ _ other) ∙ f)
            ∙ r,
        λ q. key_differs j k b (i ∷ a) other q,
      )
    ]

abbrev pub entry : ℕ → Address → Entry
entry time at = record { priority = time; at = at }

Elem-left : {A : Type 0} (a : A) (xs ys : List A) → Elem a xs → Elem a (xs ++ ys)
Elem-left a [] ys m = absurd m
Elem-left a (x ∷ xs) ys (inl e) = inl e
Elem-left a (x ∷ xs) ys (inr m) = inr (Elem-left a xs ys m)

Elem-right : {A : Type 0} (a : A) (xs ys : List A) → Elem a ys → Elem a (xs ++ ys)
Elem-right a [] ys m = m
Elem-right a (x ∷ xs) ys m = inr (Elem-right a xs ys m)

map-Elem :
    (k : List ℕ) (e : Entry) (xs : List Entry) → Elem e xs → Elem (below k e) (map (below k) xs)
map-Elem k e [] m = absurd m
map-Elem k e (x ∷ xs) (inl q) = inl (ap (below k) q)
map-Elem k e (x ∷ xs) (inr m) = inr (map-Elem k e xs m)

child-Elem :
    (k : List ℕ) (e : Entry) (kids : Forest) (c : Tree)
    → get_child k kids ≡ some c
    → Elem e (collect_below c)
    → Elem (below k e) (collect_leaves kids)
unfolding collect_leaves
child-Elem k e nil c h m = cc
child-Elem k e (child j t rest) c h m = elim (Bool-cases (same_list k j)) [
  | inl s ↦
      let same : t ≡ c = (let q = sym (if_of_true (some t) (get_child k rest) s) ∙ h in cc) in
      Elem-right (below k e) (collect_leaves rest) (map (below j) (collect_below t)) (
        subst (λ y. Elem (below k e) (map (below y) (collect_below t))) (same_list_iff k j s)
          (map-Elem k e (collect_below t) (subst (λ y. Elem e (collect_below y)) (sym same) m)))
  | inr n ↦
      Elem-left (below k e) (collect_leaves rest) (map (below j) (collect_below t))
        (child-Elem k e rest c (sym (if_of_false (some t) (get_child k rest) n) ∙ h) m)
]

some_kids :
    (l : Label) (kids : Forest) (k : List ℕ) {c : Tree}
    → get_child k kids ≡ some c
    → collect_below (node l kids) ≡ collect_leaves kids
unfolding collect_leaves
some_kids l nil j e = cc
some_kids l (child k t rest) j e = refl

free-Elem :
    (time : ℕ) (at : Address) (t : Tree)
    → FreeLeaf t (entry time (at))
    → Elem (entry time (at)) (collect_below t)
unfolding collect_leaves
free-Elem time [] t h =
    let top : node h.leaf nil ≡ t = (let d = h.there in cc) in
    subst (λ y. Elem (entry time ([])) (collect_below y)) top
      (subst (λ b. Elem (entry time ([])) (if b then entry h.leaf.last_access_time [] ∷ [] else []))
        (sym h.free) (inl (ap (λ z. entry z []) h.time)))
free-Elem time (k ∷ at) (node l kids) h =
    let (c, e, s) = get_at-inv k at l kids h.there in
    let inner : FreeLeaf c (entry time (at)) = record {
      leaf = h.leaf;
      there = s;
      free = h.free;
      time = h.time;
    } in
    subst (Elem (entry time (k ∷ at))) (sym (some_kids l kids k e))
      (child-Elem k (entry time (at)) kids c e (free-Elem time at c inner))

-- The root is no free leaf: what is below it is collected.
pub leaves-Elem :
    (root : Tree) (e : Entry)
    → e.at ≢ []
    → FreeLeaf root e
    → Elem e (collect_leaves (children root))
leaves-Elem (node l kids) e n h = from_below e.at refl
  where
    from_below : (a : Address) → e.at ≡ a → Elem e (collect_leaves kids)
    from_below [] s = absurd (n s)
    from_below (k ∷ a) s =
        let (c, f, r) =
          get_at-inv k a l kids (sym (ap (λ y. get_at y (node l kids)) s) ∙ h.there) in
        subst (Elem e) (some_kids l kids k f) (free-Elem e.priority e.at (node l kids) h)

-- What is pushed, and what was there, is on the heap.
pub push_parent-Elem :
    (q : Heapq) (laws : HeapLaws q) (at : Address) (o : Option Tree) (heap : List Entry)
    → ((e : Entry) → Elem e heap → Elem e (push_parent q at o heap))
      × ((l : Label)
          → o ≡ some (node l nil)
          → is_pos 0 l.lock_ref ≡ true
          → Elem (entry l.last_access_time (at)) (push_parent q at o heap))
push_parent-Elem q laws at none heap = ((λ e m. m), (λ l s f. cc))
push_parent-Elem q laws at (some (node l (child k t rest))) heap = ((λ e m. m), (λ m s f. cc))
push_parent-Elem q laws at (some (node l nil)) heap =
    let e0 = entry l.last_access_time at in
    let pushed = perm_sym (laws.push-perm e0 heap) in
    (
      (λ e m. elim (Bool-cases (is_pos 0 l.lock_ref)) [
        | inl y ↦ rw y (Elem-perm e pushed (inr m))
        | inr n ↦ rw n m
      ]),
      (λ a s f.
          (let same : l ≡ a = (let d = s in cc) in
            let y : is_pos 0 l.lock_ref ≡ true = ap (λ x. is_pos 0 x.lock_ref) same ∙ f in
            rw y (
              subst (λ x. Elem (entry x.last_access_time (at)) (q.heappush e0 heap)) same
                (Elem-perm e0 pushed (inl refl))))),
    )

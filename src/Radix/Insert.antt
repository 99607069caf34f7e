-- ===== src/Radix/Insert.antt =====
-- `_insert_helper` of radix_cache.py against `walk`: what it answers afterwards.
use mini_infer.Prelude.{
  ℕ, zero, suc, ◌+◌, ◌≤◌, ◌<◌, ◌≡◌, refl, sym, ap, ◌∙◌, subst, Bool, true, false, List, [], ◌∷◌,
  ◌++◌, none, some, length, drop, arith, ltb, if◌then◌else◌, length-drop, length-append,
  Option-cases, inl, inr, if_of_true, drop_all, drop_add,
}
use mathlib.Core.List.{append-nil, append_assoc}
use native.Mathlib.Nat.{zero-mul}
use mini_infer.Radix.Keys.{
  same_list_self, nonempty, key_match, get_child_key, Pages, key_match_self,
}
use mini_infer.Radix.Tree.{
  Label, Tree, Forest, node, label, children, get_child, set_child, get_child-set_child, touch,
  new_leaf,
}
use mini_infer.Radix.Cache.{Inserted, insert_round, no_insert, next_node, insert_node}
use mini_infer.Radix.Reads.{
  walk, enter, WfForest, WfChild, walk-next, walk-stop, walk-nil, get_child-WfChild,
  set_child-WfForest, value-length, same-WfChild, child-match, children-WfForest,
}
use mini_infer.Radix.Change.{
  Answers, walk-set_child, walk-set_child_new, enter-whole, below-ChildAnswers,
}
use mini_infer.Radix.Weight.{weight, Stable, weight-set_child_new, weight-set_child_more}
use mini_infer.Radix.Lock.{in_tree}
use mini_infer.Radix.Nodes.{Keeps, set_child-Keeps}
use mini_infer.Radix.Descent.{Descent, next_node-Descent}

abbrev pub Extends : List ℕ → List ℕ → Type 0
Extends xs ys = (zs : List ℕ) × (ys ≡ xs ++ zs)

pub Extends_self : (xs : List ℕ) → Extends xs xs
Extends_self xs = ([], sym (append-nil xs))

pub Extends_behind : (vs xs ys : List ℕ) → Extends xs ys → Extends (vs ++ xs) (vs ++ ys)
Extends_behind vs xs ys (zs, e) = (zs, ap (λ x. vs ++ x) e ∙ sym (append_assoc vs xs zs))

-- A sum that counts the tokens of a new leaf, or none of them.
abbrev pub Leaf : (Label → ℕ) → Bool → Type 0
Leaf h more =
    (id : ℕ) (key value : List ℕ)
    → length value ≡ length key
    → h (label (new_leaf id key value)) ≡ (if more then length key else 0)

-- What a round comes to: how much of the key was there, the slots that answer it now, and the
-- answers to the other keys.
pub record InsertOk (ps f : ℕ) (key value : List ℕ) (t : Tree) (r : Inserted) : Type 0 where
  pub found : r.total_prefix_len ≡ length (walk ps f key t)
  pub within : r.total_prefix_len + r.added ≡ length key
  pub slots : walk ps f key r.tree ≡ walk ps f key t ++ drop r.total_prefix_len value
  pub kept : Keeps t r.tree
  pub same_label : label r.tree ≡ label t
  pub shape : WfForest ps (children r.tree)
  pub answers : Answers Extends ps t r.tree
  pub sums :
      (h : Label → ℕ) (more : Bool)
      → Stable h
      → Leaf h more
      → weight h r.tree ≡ weight h t + (if more then r.added else 0)

same_some {ℓ} : {A : Type ℓ} {x y : A} → some x ≡ some y → x ≡ y
same_some h = cc

plus_none : (n : ℕ) (more : Bool) → n + (if more then 0 else 0) ≡ n
plus_none n true = omega arith
plus_none n false = omega arith

done-InsertOk :
    (ps f id n : ℕ) (value : List ℕ) (t : Tree)
    → WfForest ps (children t)
    → length value ≡ 0
    → InsertOk ps f [] value t (no_insert t id)
done-InsertOk ps f id n [] t w v = record {
  found = ap length (sym (walk-nil ps f t));
  within = omega arith;
  slots = sym (append-nil (walk ps f [] t));
  kept = λ j e. e;
  same_label = refl;
  shape = w;
  answers = λ g m k p b. Extends_self (walk ps g k t);
  sums = λ h more s leaf. sym (plus_none (weight h t) more);
}
done-InsertOk ps f id n (x ∷ value) t w v = absurd (omega arith)

module _ (ps id f n : ℕ) (key value : List ℕ) (l : Label) (kids : Forest) (pos : 0 < ps)
    (w : WfForest ps kids) (p : Pages ps (suc n) key) (b : length key ≤ suc f)
    (some_key : nonempty key ≡ true) (v : length value ≡ length key) where
  new_leaf-WfChild : WfChild ps (get_child_key ps key) (new_leaf id key value)
  unfolding WfForest
  new_leaf-WfChild = ((refl, (n, p), v), tt)

  leaf-InsertOk :
      get_child (get_child_key ps key) kids ≡ none
      → InsertOk ps (suc f) key value (node l kids) (record {
        total_prefix_len = 0;
        added = length key;
        tree = node l (set_child (get_child_key ps key) (new_leaf id key value) kids);
        next_id = suc id;
      })
  leaf-InsertOk e =
      let k = get_child_key ps key in
      let leaf = new_leaf id key value in
      let there : get_child k (set_child k leaf kids) ≡ some leaf =
        get_child-set_child k k leaf kids ∙ if_of_true _ _ (same_list_self k) in
      let before = walk-stop ps f key l kids e in
      let whole = key_match_self ps pos (suc n) key p in
      record {
        found = ap length (sym before);
        within = omega arith;
        slots =
            walk-next ps f key l (set_child k leaf kids) leaf some_key there
            ∙ enter-whole ps f key leaf (omega (arith, whole))
            ∙ ap (λ x. value ++ x)
                (ap (λ x. walk ps f x leaf)
                    (drop_all (key_match ps key key) key (omega (arith, whole)))
                  ∙ walk-nil ps f leaf)
            ∙ append-nil value
            ∙ ap (λ x. x ++ value) (sym before);
        kept = set_child-Keeps k leaf l kids (λ c g. (let gone = sym e ∙ g in cc));
        same_label = refl;
        shape = set_child-WfForest ps k leaf kids w new_leaf-WfChild;
        answers = walk-set_child_new Extends Extends_self ps k leaf l l kids e (λ xs. (xs, refl));
        sums = λ g more s counts.
            omega (arith, weight-set_child_new g l k (label leaf) kids e, counts id key value v);
      }

  round-InsertOk :
      (c d : Tree) (rest : Inserted)
      → get_child (get_child_key ps key) kids ≡ some c
      → Descent ps key c d
      → InsertOk ps f
          (drop (key_match ps (label c).key key) key)
          (drop (key_match ps (label c).key key) value)
          d
          rest
      → InsertOk ps (suc f) key value (node l kids) (record {
        total_prefix_len = key_match ps (label c).key key + rest.total_prefix_len;
        added = rest.added;
        tree = node l (set_child (get_child_key ps key) rest.tree kids);
        next_id = rest.next_id;
      })
  round-InsertOk c d rest e h r =
      let k = get_child_key ps key in
      let km = key_match ps (label c).key key in
      let left = drop km key in
      let there : get_child k (set_child k rest.tree kids) ≡ some rest.tree =
        get_child-set_child k k rest.tree kids ∙ if_of_true _ _ (same_list_self k) in
      let m = child-match ps pos n key c p (get_child-WfChild ps k kids w e) in
      let size : length (label d).value ≡ km = value-length ps k d h.shape ∙ h.ends in
      let upto : (t : Tree)
          → label t ≡ label d
          → enter ps f key t ≡ (label d).value ++ walk ps f left t =
        λ t s.
          enter-whole ps f key t (
            omega (
              arith,
              ap (λ x. length x.key) s,
              ap (λ x. key_match ps x.key key) s,
              h.ends,
              h.match,
            ))
          ∙ ap (λ x. x.value ++ walk ps f (drop (key_match ps x.key key) key) t) s
          ∙ ap (λ x. (label d).value ++ walk ps f (drop x key) t) h.match in
      let before : walk ps (suc f) key (node l kids) ≡ (label d).value ++ walk ps f left d =
        walk-next ps f key l kids c some_key e ∙ h.same f n key p refl b ∙ upto d refl in
      record {
        found = omega (
          arith,
          r.found,
          ap length before,
          length-append (label d).value (walk ps f left d),
          size,
        );
        within = omega (arith, r.within, length-drop km key, m.fits);
        slots =
            walk-next ps f key l (set_child k rest.tree kids) rest.tree some_key there
            ∙ upto rest.tree r.same_label
            ∙ ap (λ x. (label d).value ++ x) r.slots
            ∙ sym (
                append_assoc (label d).value (walk ps f left d)
                  (drop rest.total_prefix_len (drop km value)))
            ∙ ap (λ x. (label d).value ++ walk ps f left d ++ x)
                (sym (drop_add km rest.total_prefix_len value))
            ∙ ap (λ x. x ++ drop (km + rest.total_prefix_len) value) (sym before);
        kept = set_child-Keeps k rest.tree l kids (λ x g j i.
            r.kept j (h.kept j (subst (λ y. in_tree j y ≡ true) (same_some (sym g ∙ e)) i)));
        same_label = refl;
        shape = set_child-WfForest ps k rest.tree kids w (
            same-WfChild ps k d rest.tree h.shape (ap (λ x. x.key) r.same_label)
              (ap (λ x. x.value) r.same_label) r.shape);
        answers =
            walk-set_child Extends Extends_self ps k c rest.tree l l kids e (λ g j q o under bound.
              subst (λ x. Extends x (enter ps g q rest.tree)) (sym (h.same g j q o under bound))
                (below-ChildAnswers Extends Extends_self Extends_behind ps pos k d rest.tree h.shape
                  (ap (λ x. x.key) r.same_label) (ap (λ x. x.value) r.same_label) r.answers g j q o
                  under bound));
        sums = λ g more s counts.
            weight-set_child_more g l k c rest.tree kids _ e (
              r.sums g more s counts ∙ ap (λ x. x + (if more then rest.added else 0)) (h.sums g s));
      }

  -- The round puts the node back under the first page of the child's key: that of the key.
  slot_same :
      (a : Label) (below : Forest) (b : Bool)
      → WfChild ps (get_child_key ps key) (node a below)
      → (if b then get_child_key ps a.key else get_child_key ps key) ≡ get_child_key ps key
  unfolding WfForest
  slot_same a below true h = sym h.0.0
  slot_same a below false h = refl

  child-InsertOk :
      (now : ℕ) (c : Tree)
      → get_child (get_child_key ps key) kids ≡ some c
      → ((left : ℕ) (d : Tree) (i : ℕ)
          → WfForest ps (children d)
          → Pages ps left (drop (key_match ps (label (touch now c)).key key) key)
          → length (drop (key_match ps (label (touch now c)).key key) key) ≤ f
          → length (drop (key_match ps (label (touch now c)).key key) value)
            ≡ length (drop (key_match ps (label (touch now c)).key key) key)
          → InsertOk ps f
              (drop (key_match ps (label (touch now c)).key key) key)
              (drop (key_match ps (label (touch now c)).key key) value)
              d
              (insert_node ps now f
                (drop (key_match ps (label (touch now c)).key key) key)
                (drop (key_match ps (label (touch now c)).key key) value)
                d
                i))
      → InsertOk ps (suc f) key value (node l kids) (
          insert_round ps kids l
            (get_child_key ps key)
            (touch now c)
            (key_match ps (label (touch now c)).key key)
            (insert_node ps now f
              (drop (key_match ps (label (touch now c)).key key) key)
              (drop (key_match ps (label (touch now c)).key key) value)
              (next_node ps id (key_match ps (label (touch now c)).key key) (touch now c))
              (if ltb
                  (key_match ps (label (touch now c)).key key)
                  (length (label (touch now c)).key)
                then suc id
                else id)))
  child-InsertOk now (node a below) e rec =
      let k = get_child_key ps key in
      let km = key_match ps a.key key in
      let c = node a below in
      let wc = get_child-WfChild ps k kids w e in
      let m = child-match ps pos n key c p wc in
      let d = next_node ps id km (touch now c) in
      let h = next_node-Descent ps now id n key c pos p wc in
      let i = if ltb km (length a.key) then suc id else id in
      let inner =
        rec m.left d i (children-WfForest ps k d h.shape) m.left-Pages (omega (arith, m.shorter))
          (omega (arith, v, length-drop km key, length-drop km value)) in
      let rest = insert_node ps now f (drop km key) (drop km value) d i in
      subst
        (λ j. InsertOk ps (suc f) key value (node l kids) (record {
          total_prefix_len = km + rest.total_prefix_len;
          added = rest.added;
          tree = node l (set_child j rest.tree kids);
          next_id = rest.next_id;
        }))
        (sym (slot_same a below (ltb km (length a.key)) wc)) (round-InsertOk c d rest e h inner)

pub insert_node-InsertOk :
    (ps now f n : ℕ) (key value : List ℕ) (t : Tree) (id : ℕ)
    → 0 < ps
    → WfForest ps (children t)
    → Pages ps n key
    → length key ≤ f
    → length value ≡ length key
    → InsertOk ps f key value t (insert_node ps now f key value t id)
unfolding insert_node
insert_node-InsertOk ps now zero n [] value t id pos w p b v = done-InsertOk ps 0 id n value t w v
insert_node-InsertOk ps now zero n (x ∷ key) value t id pos w p b v = absurd (omega arith)
insert_node-InsertOk ps now (suc f) n [] value (node l kids) id pos w p b v =
    done-InsertOk ps (suc f) id n value (node l kids) w v
insert_node-InsertOk ps now (suc f) zero (x ∷ key) value (node l kids) id pos w p b v =
    absurd (omega (arith, zero-mul ps))
insert_node-InsertOk ps now (suc f) (suc n) (x ∷ key) value (node l kids) id pos w p b v =
    elim (Option-cases (get_child (get_child_key ps (x ∷ key)) kids)) [
      | inl e ↦ rw e (leaf-InsertOk ps id f n (x ∷ key) value l kids pos w p b refl v e)
      | inr (c, e) ↦ rw e (
          child-InsertOk ps id f n (x ∷ key) value l kids pos w p b refl v now c e
            (λ left d i o q r s. insert_node-InsertOk ps now f left _ _ d i pos o q r s))
    ]

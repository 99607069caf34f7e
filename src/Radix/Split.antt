-- ===== src/Radix/Split.antt =====
-- `_split_node` of radix_cache.py, and what the halves of a child answer.
use mini_infer.Prelude.{
  ℕ, zero, suc, ◌+◌, ◌-◌, ◌*◌, ◌≤◌, ◌<◌, ◌≡◌, refl, sym, ap, ◌∙◌, subst, min, true, false, List, [],
  ◌∷◌, ◌++◌, length, take, drop, arith, length-take, length-drop, lt→ltb, le→ltb, if_of_true,
  if_of_false, take_add, take-append-drop, take-take_add, drop_add, dec_lt, ℕ_discrete,
}
use mathlib.Core.List.{append-nil, append_assoc}
use native.Mathlib.Nat.{suc-mul, add-mul, mul-pos, mul-lt-mul_of_pos_right, mul-le-mul_right}
use mini_infer.Radix.Keys.{
  same_list, same_list_comm, key_match, get_child_key, Pages, key_match-Pages,
  get_child_key-key_match, key_match-take, key_match-drop,
}
use mini_infer.Radix.Tree.{Label, Tree, Forest, node, label, split_node}
use mini_infer.Radix.Reads.{
  walk, enter, WfForest, WfLabel, WfChild, walk-next, walk-stop, walk-nil, walk-zero, walk_enough,
  drop-Pages_left,
}
use mini_infer.Radix.Change.{ChildAnswers, enter-part, enter-whole, walk_same}

abbrev lower : ℕ → Label → Label
lower split_len l = record l { key = drop split_len l.key; value = drop split_len l.value }

module _ (ps : ℕ) (pos : 0 < ps) (id j q : ℕ) (l : Label) (kids : Forest)
    (whole : Pages ps (suc q) l.key) (slots : length l.value ≡ length l.key) (wf : WfForest ps kids)
    (inside : suc j ≤ q) where
  abbrev at_split : ℕ
  at_split = suc j * ps

  inside_key : at_split < length l.key
  inside_key =
      let e : suc q ≡ suc j + (suc q - suc j) = omega arith in
      let d : suc (suc q - suc j - 1) ≡ suc q - suc j = omega arith in
      omega (
        arith,
        whole,
        ap (λ x. x * ps) e,
        ap (λ x. x * ps) d,
        add-mul (suc j) (suc q - suc j) ps,
        suc-mul (suc q - suc j - 1) ps,
      )

  upper_match :
      (n : ℕ) (key : List ℕ)
      → Pages ps n key
      → key_match ps (take at_split l.key) key ≡ min at_split (key_match ps l.key key)
  upper_match n key p = key_match-take ps pos (suc j) (suc q) n l.key key whole p (omega arith)

  upper_length : length (take at_split l.key) ≡ at_split
  upper_length = omega (arith, length-take at_split l.key, inside_key)

  -- Under the upper half there is the lower one alone.
  no_match :
      (g : ℕ) (key : List ℕ)
      → key_match ps (drop at_split l.key) key ≡ 0
      → walk ps g key (split_node ps id at_split (node l kids)) ≡ []
  unfolding split_node
  no_match g [] h = walk-nil ps g (split_node ps id at_split (node l kids))
  no_match zero (x ∷ key) h = walk-zero ps (x ∷ key) _
  no_match (suc g) (x ∷ key) h =
      let hit =
        get_child_key-key_match ps pos (drop at_split l.key) (x ∷ key)
          (omega (arith, length-drop at_split l.key, inside_key)) (omega arith) in
      let miss : same_list (get_child_key ps (x ∷ key)) (get_child_key ps (drop at_split l.key))
          ≡ false =
        same_list_comm (get_child_key ps (x ∷ key)) (get_child_key ps (drop at_split l.key))
        ∙ hit
        ∙ le→ltb 0 _ (omega (arith, h)) in
      walk-stop ps g (x ∷ key) _ _ (if_of_false _ _ miss)

  -- A key that leaves the child before the split.
  split_before :
      (g n : ℕ) (key : List ℕ)
      → Pages ps n key
      → key_match ps l.key key < at_split
      → enter ps g key (node l kids) ≡ enter ps g key (split_node ps id at_split (node l kids))
  unfolding split_node
  split_before g n key p h =
      let km = key_match ps l.key key in
      let um : key_match ps (take at_split l.key) key ≡ km = omega (arith, upper_match n key p) in
      let sum : km + (at_split - km) ≡ at_split = omega arith in
      enter-part ps g key (node l kids) (omega (arith, inside_key))
      ∙ sym (take-take_add km (at_split - km) l.value)
      ∙ ap (λ x. take km (take x l.value)) sum
      ∙ ap (λ x. take x (take at_split l.value)) (sym um)
      ∙ sym (
          enter-part ps g key (split_node ps id at_split (node l kids))
            (omega (arith, um, upper_length)))

  split_enter :
      (g n : ℕ) (key : List ℕ)
      → Pages ps n key
      → at_split ≤ key_match ps l.key key
      → enter ps g key (split_node ps id at_split (node l kids))
        ≡ take at_split l.value
          ++ walk ps g (drop at_split key) (split_node ps id at_split (node l kids))
  unfolding split_node
  split_enter g n key p h =
      let um : key_match ps (take at_split l.key) key ≡ at_split =
        omega (arith, upper_match n key p) in
      enter-whole ps g key (split_node ps id at_split (node l kids))
        (omega (arith, um, upper_length))
      ∙ ap
          (λ x.
            take at_split l.value
            ++ walk ps g (drop x key) (split_node ps id at_split (node l kids)))
          um

  rest_match :
      (n m : ℕ) (key : List ℕ)
      → Pages ps n key
      → key_match ps l.key key ≡ m * ps
      → suc j ≤ m
      → key_match ps (drop at_split l.key) (drop at_split key) ≡ m * ps - at_split
  rest_match n m key p e h = key_match-drop ps pos (suc j) (suc q) n m l.key key whole p e h

  -- A key that leaves it at the split.
  split_at :
      (g n : ℕ) (key : List ℕ)
      → Pages ps n key
      → key_match ps l.key key ≡ at_split
      → enter ps g key (node l kids) ≡ enter ps g key (split_node ps id at_split (node l kids))
  unfolding split_node
  split_at g n key p h =
      let stop : walk ps g (drop at_split key) (split_node ps id at_split (node l kids)) ≡ [] =
        no_match g (drop at_split key) (rest_match n (suc j) key p h (omega arith) ∙ omega arith) in
      enter-part ps g key (node l kids) (omega (arith, inside_key))
      ∙ ap (λ x. take x l.value) h
      ∙ sym (append-nil (take at_split l.value))
      ∙ ap (λ x. take at_split l.value ++ x) (sym stop)
      ∙ sym (split_enter g n key p (omega arith))

  -- Behind the upper half, the lower one answers for the rest of the key.
  lower_found :
      (g : ℕ) (key : List ℕ)
      → 0 < key_match ps (drop at_split l.key) key
      → 0 < length key
      → walk ps (suc g) key (split_node ps id at_split (node l kids))
        ≡ enter ps g key (node (lower at_split l) kids)
  unfolding split_node
  lower_found g [] h k = absurd (omega arith)
  lower_found g (x ∷ key) h k =
      let hit =
        get_child_key-key_match ps pos (drop at_split l.key) (x ∷ key)
          (omega (arith, length-drop at_split l.key, inside_key)) (omega arith) in
      let found : same_list (get_child_key ps (x ∷ key)) (get_child_key ps (drop at_split l.key))
          ≡ true =
        same_list_comm (get_child_key ps (x ∷ key)) (get_child_key ps (drop at_split l.key))
        ∙ hit
        ∙ lt→ltb 0 _ h in
      walk-next ps g (x ∷ key) _ _ _ refl (if_of_true _ _ found)

  -- A key that goes past it; it has two pages at least.
  split_after :
      (g n m : ℕ) (key : List ℕ)
      → Pages ps n key
      → length key ≤ suc (suc g)
      → key_match ps l.key key ≡ m * ps
      → suc j < m
      → m ≤ n
      → enter ps (suc g) key (node l kids)
        ≡ enter ps (suc g) key (split_node ps id at_split (node l kids))
  split_after g n m key p b e h k =
      let km = m * ps in
      let rest = drop at_split key in
      let longer : at_split < km = mul-lt-mul_of_pos_right h pos in
      let page : 0 < at_split = mul-pos (omega arith) pos in
      let fits : km ≤ length key = subst (λ x. km ≤ x) (sym p) (mul-le-mul_right ps k) in
      let rm : key_match ps (drop at_split l.key) rest ≡ km - at_split =
        rest_match n m key p e (omega arith) in
      let sum : at_split + (km - at_split) ≡ km = omega arith in
      let low = node (lower at_split l) kids in
      let upper : enter ps (suc g) key (split_node ps id at_split (node l kids))
          ≡ take at_split l.value ++ enter ps g rest low =
        split_enter (suc g) n key p (omega (arith, e))
        ∙ ap (λ x. take at_split l.value ++ x)
            (lower_found g rest (omega (arith, rm)) (omega (arith, length-drop at_split key))) in
      elim (dec_lt km (length l.key)) [
        | yes part ↦
            enter-part ps (suc g) key (node l kids) (omega (arith, e))
            ∙ ap (λ x. take x l.value) (e ∙ sym sum)
            ∙ take_add at_split (km - at_split) l.value
            ∙ ap (λ x. take at_split l.value ++ take x (drop at_split l.value)) (sym rm)
            ∙ ap (λ x. take at_split l.value ++ x)
                (sym (enter-part ps g rest low (omega (arith, rm, length-drop at_split l.key))))
            ∙ sym upper
        | no full ↦
            let tail : drop km key ≡ drop (key_match ps (drop at_split l.key) rest) rest =
              ap (λ x. drop x key) (sym sum)
              ∙ drop_add at_split (km - at_split) key
              ∙ ap (λ x. drop x rest) (sym rm) in
            enter-whole ps (suc g) key (node l kids) (omega (arith, e))
            ∙ ap (λ x. l.value ++ walk ps (suc g) (drop x key) (node l kids)) e
            ∙ ap (λ x. l.value ++ x)
                (walk_enough ps pos (suc g) g (n - m) (drop km key) (node l kids) wf
                  (drop-Pages_left ps m n key p k) (omega (arith, length-drop km key))
                  (omega (arith, length-drop km key)))
            ∙ ap (λ x. l.value ++ x)
                (walk_same ps g (drop km key) l (lower at_split l) kids kids refl)
            ∙ ap (λ x. x ++ walk ps g (drop km key) low) (sym (take-append-drop at_split l.value))
            ∙ append_assoc (take at_split l.value) (drop at_split l.value)
                (walk ps g (drop km key) low)
            ∙ ap (λ x. take at_split l.value ++ (drop at_split l.value ++ walk ps g x low)) tail
            ∙ ap (λ x. take at_split l.value ++ x)
                (sym (enter-whole ps g rest low (omega (arith, rm, length-drop at_split l.key))))
            ∙ sym upper
      ]

  split_past :
      (g n m : ℕ) (key : List ℕ)
      → Pages ps n key
      → length key ≤ suc g
      → key_match ps l.key key ≡ m * ps
      → suc j < m
      → m ≤ n
      → enter ps g key (node l kids) ≡ enter ps g key (split_node ps id at_split (node l kids))
  split_past zero n m key p b e h k =
      let two : 2 * ps ≤ n * ps = mul-le-mul_right ps (omega arith) in
      absurd (omega (arith, p, two))
  split_past (suc g) n m key p b e h k = split_after g n m key p b e h k

-- The two halves of a child answer what the child did.
pub split_node-ChildAnswers :
    (ps : ℕ) (pos : 0 < ps) (id j q : ℕ) (k : List ℕ) (c : Tree)
    → WfChild ps k c
    → Pages ps (suc q) (label c).key
    → suc j ≤ q
    → ChildAnswers (λ xs ys. xs ≡ ys) ps k c (split_node ps id (suc j * ps) c)
unfolding WfForest
split_node-ChildAnswers ps pos id j q k (node l kids) ((e, w, v), wf) p h g n key pages under b =
    let (i, m, a, c) = key_match-Pages ps pos (suc q) (suc n) l.key key p pages in
    elim (dec_lt i (suc j)) [
      | yes before ↦
          split_before ps pos id j q l kids p v wf h g (suc n) key pages
            (subst (λ x. x < suc j * ps) (sym m) (mul-lt-mul_of_pos_right before pos))
      | no after ↦ elim (ℕ_discrete i (suc j)) [
        | yes at ↦
            split_at ps pos id j q l kids p v wf h g (suc n) key pages (m ∙ ap (λ x. x * ps) at)
        | no past ↦
            split_past ps pos id j q l kids p v wf h g (suc n) i key pages b m (omega arith) c
      ]
    ]

pub split_node-WfChild :
    (ps id j q : ℕ) (k : List ℕ) (c : Tree)
    → 0 < ps
    → WfChild ps k c
    → Pages ps (suc q) (label c).key
    → suc j ≤ q
    → WfChild ps k (split_node ps id (suc j * ps) c)
unfolding WfForest split_node
split_node-WfChild ps id j q k (node l kids) pos ((e, w, v), wf) p h =
    let at = suc j * ps in
    let fits : at ≤ suc q * ps = mul-le-mul_right ps (omega arith) in
    let first : suc j * ps ≡ ps + j * ps = omega (arith, suc-mul j ps) in
    let head : k ≡ take ps (take at l.key) =
      e ∙ sym (take-take_add ps (j * ps) l.key) ∙ ap (λ x. take ps (take x l.key)) (sym first) in
    let upper : Pages ps (suc j) (take at l.key) = omega (arith, length-take at l.key) in
    let left : Pages ps (suc q - suc j) (drop at l.key) =
      drop-Pages_left ps (suc j) (suc q) l.key p (omega arith) in
    let some_left : suc q - suc j ≡ suc (q - suc j) = omega arith in
    let low : WfLabel ps (get_child_key ps (drop at l.key)) (lower at l) = (
      refl,
      (q - suc j, left ∙ ap (λ x. x * ps) some_left),
      omega (arith, length-drop at l.key, length-drop at l.value),
    ) in
    (
      (head, (j, upper), omega (arith, length-take at l.key, length-take at l.value)),
      ((low, wf), refl, tt),
    )

-- ===== src/Radix/Tree.antt =====
-- `TreeNode` of radix_cache.py. A node's parent is the node above it in the tree; its dictionary of
-- children is the list of its entries, oldest first, and the object itself is known by a number.
use mini_infer.Prelude.{
  ℕ, ◌≡◌, refl, List, Option, none, some, take, drop, if◌then◌else◌, ap, Bool, true, false,
  Bool-cases, inl, inr, if_of_true, if_of_false, ◌∙◌,
}
use mini_infer.Prelude.Int.{ℤ, pos}
use mini_infer.Radix.Keys.{same_list, same_list_iff, same_list_self, get_child_key}

pub record Label : Type 0 where
  pub id : ℕ
  pub key : List ℕ
  pub value : List ℕ
  pub lock_ref : ℤ
  pub last_access_time : ℕ

mutual
  pub data Tree : Type 0 where
    node : Label → Forest → Tree

  pub data Forest : Type 0 where
    nil : Forest
    child : List ℕ → Tree → Forest → Forest

abbrev pub label : Tree → Label
label (node l kids) = l

abbrev pub children : Tree → Forest
children (node l kids) = kids

-- `children.get(key)`, `children[key] = child`, `children.pop(key, None)`
abbrev pub get_child : List ℕ → Forest → Option Tree
get_child k nil = none
get_child k (child k1 t rest) =
    let later = get_child k rest in if same_list k k1 then some t else later

abbrev pub set_child : List ℕ → Tree → Forest → Forest
set_child k u nil = child k u nil
set_child k u (child k1 t rest) =
    let later = set_child k u rest in if same_list k k1 then child k1 u rest else child k1 t later

abbrev pub pop_child : List ℕ → Forest → Forest
pop_child k nil = nil
pop_child k (child k1 t rest) =
    let later = pop_child k rest in if same_list k k1 then rest else child k1 t later

-- `node.last_access_time = access_time`
abbrev pub touch : ℕ → Tree → Tree
touch access_time (node l kids) = node (record l { last_access_time = access_time }) kids

-- `_split_node`, up to the entry of the parent: the new node, with the child under it.
unfoldable pub split_node : ℕ → ℕ → ℕ → Tree → Tree
split_node page_size new_id split_len (node l kids) =
    node
      (record {
        id = new_id;
        key = take split_len l.key;
        value = take split_len l.value;
        lock_ref = l.lock_ref;
        last_access_time = 0;
      })
      (child (get_child_key page_size (drop split_len l.key))
        (node (record l { key = drop split_len l.key; value = drop split_len l.value }) kids) nil)

-- A node that `_insert_helper` makes.
abbrev pub new_leaf : ℕ → List ℕ → List ℕ → Tree
new_leaf new_id key value =
    node (record { id = new_id; key = key; value = value; lock_ref = pos 0; last_access_time = 0 })
      nil

branch_twice {ℓ} :
    {A : Type ℓ} (b : Bool) (x y z : A)
    → (if b then x else z) ≡ (if b then x else (if b then y else z))
branch_twice true x y z = refl
branch_twice false x y z = refl

branch_swap {ℓ} :
    {A : Type ℓ} (b c : Bool) (x y z : A)
    → (b ≡ true → c ≡ true → ⊥)
    → (if b then x else (if c then y else z)) ≡ (if c then y else (if b then x else z))
branch_swap true true x y z h = absurd (h refl refl)
branch_swap true false x y z h = refl
branch_swap false c x y z h = refl

not_both :
    (k j i : List ℕ) → same_list k i ≡ true → same_list k j ≡ true → same_list j i ≡ false → ⊥
not_both k j i a b n =
    let e = same_list_iff k i a in let d = same_list_iff k j b in let s = same_list_self i in cc

pub get_child-set_child :
    (k j : List ℕ) (u : Tree) (kids : Forest)
    → get_child k (set_child j u kids) ≡ (if same_list k j then some u else get_child k kids)
get_child-set_child k j u nil = refl
get_child-set_child k j u (child i t rest) = elim (Bool-cases (same_list j i)) [
  | inl e ↦
      ap (get_child k) (if_of_true _ _ e)
      ∙ rw (same_list_iff j i e) (branch_twice (same_list k i) (some u) (some t) (get_child k rest))
  | inr n ↦
      let apart : same_list k i ≡ true → same_list k j ≡ true → ⊥ = λ a b. not_both k j i a b n in
      ap (get_child k) (if_of_false _ _ n)
      ∙ rw (get_child-set_child k j u rest)
          (branch_swap (same_list k i) (same_list k j) (some t) (some u) (get_child k rest) apart)
]

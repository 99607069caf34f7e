-- ===== src/Radix/Locked.antt =====
-- What a cache of radix_cache.py answers after `inc_lock_ref` and `dec_lock_ref`.
use mini_infer.Prelude.{
  ℕ, zero, suc, ◌≡◌, refl, sym, ap, ◌∙◌, List, [], ◌∷◌, some, ◌==◌, length, drop, Bool-cases,
  Option-cases, inl, inr, ◌⊎◌, if_of_true, if_of_false,
}
use mini_infer.Prelude.Int.{ℤ}
use mini_infer.Radix.Keys.{same_list, key_match, get_child_key}
use mini_infer.Radix.Tree.{Label, Tree, Forest, node, nil, child, label, children, get_child}
use mini_infer.Radix.Cache.{RadixCache, aligned}
use mini_infer.Radix.Reads.{walk, walk_child, walk-next, walk-stop, walk-nil, walk-zero}
use mini_infer.Radix.Change.{walk_same, enter-label}
use mini_infer.Radix.Lock.{bump_path, bump_child, sub_one, dec_held}
use mini_infer.Radix.Held.{bump_child-none}
use mini_infer.Radix.Lookup.{lookup}

module _ (edge : ℕ) (bump : ℤ → ℤ) (id : ℕ) where
  -- A child is as it was or as the walk left it.
  get_child-bump :
      (k : List ℕ) (kids : Forest) (c : Tree)
      → get_child k kids ≡ some c
      → (get_child k (bump_child edge bump id kids).now ≡ some c)
        ⊎ (get_child k (bump_child edge bump id kids).now ≡ some (bump_path edge bump id c).now)
  unfolding bump_path
  get_child-bump k nil c e = cc
  get_child-bump k (child j t rest) c e = elim (Bool-cases (bump_path edge bump id t).met) [
    | inl m ↦ elim (Bool-cases (same_list k j)) [
      | inl s ↦
          let same : t ≡ c = (let d = sym (if_of_true (some t) (get_child k rest) s) ∙ e in cc) in
          inr (rw (m, s) (ap (λ x. some (bump_path edge bump id x).now) same))
      | inr n ↦ inl (rw (m, n) (sym (if_of_false (some t) (get_child k rest) n) ∙ e))
    ]
    | inr m ↦ elim (Bool-cases (same_list k j)) [
      | inl s ↦ inl (rw (m, s) (sym (if_of_true (some t) (get_child k rest) s) ∙ e))
      | inr n ↦
          rw (m, n) (get_child-bump k rest c (sym (if_of_false (some t) (get_child k rest) n) ∙ e))
    ]
  ]

  label-bump :
      (t : Tree)
      → ((label (bump_path edge bump id t).now).key ≡ (label t).key)
        × ((label (bump_path edge bump id t).now).value ≡ (label t).value)
  unfolding bump_path
  label-bump (node l kids) = elim (Bool-cases (l.id == id)) [
    | inl s ↦ rw s (refl, refl)
    | inr n ↦ elim (Bool-cases (bump_child edge bump id kids).met) [
      | inl m ↦ rw (n, m) (refl, refl)
      | inr m ↦ rw (n, m) (refl, refl)
    ]
  ]

  -- A walk leaves the children as they are or walks them.
  walk_bump :
      (ps f : ℕ) (key : List ℕ) (t : Tree)
      → ((l m : Label) (kids : Forest)
          → walk ps f key (node m (bump_child edge bump id kids).now) ≡ walk ps f key (node l kids))
      → walk ps f key (bump_path edge bump id t).now ≡ walk ps f key t
  unfolding bump_path
  walk_bump ps f key (node l kids) h = elim (Bool-cases (l.id == id)) [
    | inl s ↦ rw s (walk_same ps f key _ l kids kids refl)
    | inr n ↦ elim (Bool-cases (bump_child edge bump id kids).met) [
      | inl m ↦ rw (n, m) (h l _ kids)
      | inr m ↦ rw (n, m)
    ]
  ]

  pub walk-bump_child :
      (ps f : ℕ) (key : List ℕ) (l m : Label) (kids : Forest)
      → walk ps f key (node m (bump_child edge bump id kids).now) ≡ walk ps f key (node l kids)
  walk-bump_child ps zero key l m kids = walk-zero ps key _ ∙ sym (walk-zero ps key _)
  walk-bump_child ps (suc f) [] l m kids = walk-nil ps (suc f) _ ∙ sym (walk-nil ps (suc f) _)
  walk-bump_child ps (suc f) (x ∷ key) l m kids =
      let k = get_child_key ps (x ∷ key) in
      let walked = (bump_child edge bump id kids).now in
      elim (Option-cases (get_child k kids)) [
        | inl n ↦
            walk-stop ps f (x ∷ key) m walked (bump_child-none edge bump id k kids n)
            ∙ sym (walk-stop ps f (x ∷ key) l kids n)
        | inr (c, e) ↦ elim (get_child-bump k kids c e) [
          | inl same ↦ walk_same ps (suc f) (x ∷ key) m l walked kids (same ∙ sym e)
          | inr gone ↦
              let d = (bump_path edge bump id c).now in
              let rest = drop (key_match ps (label c).key (x ∷ key)) (x ∷ key) in
              walk-next ps f (x ∷ key) m walked d refl gone
              ∙ enter-label ps f (x ∷ key) c d (label-bump c).0 (label-bump c).1
              ∙ ap (walk_child ps (x ∷ key) c)
                  (walk_bump ps f rest c (λ a b others. walk-bump_child ps f rest a b others))
              ∙ sym (walk-next ps f (x ∷ key) l kids c refl e)
        ]
      ]

node_parts : (t : Tree) → node (label t) (children t) ≡ t
node_parts (node l kids) = refl

-- Locks change no answer.
pub lookup-dec_held :
    (cache : RadixCache) (id : ℕ) (key : List ℕ)
    → lookup (dec_held cache id).1 key ≡ lookup cache key
unfolding dec_held
lookup-dec_held cache id key =
    let k = aligned cache.page_size key in
    walk-bump_child 1 sub_one id cache.page_size (length k) k (label cache.root) (label cache.root)
      (children cache.root)
    ∙ ap (walk cache.page_size (length k) k) (node_parts cache.root)

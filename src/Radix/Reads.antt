-- ===== src/Radix/Reads.antt =====
-- What a tree of radix_cache.py answers: `walk` reads the slots cached for a key and changes nothing.
-- `WfForest` is the shape that the operations rely on.
use mini_infer.Prelude.{
  ℕ, zero, suc, ◌+◌, ◌-◌, ◌*◌, ◌≤◌, ◌<◌, ◌≡◌, refl, sym, ap, ◌∙◌, subst, true, List, [], ◌∷◌, ◌++◌,
  none, some, length, take, drop, arith, ltb, if◌then◌else◌, length-drop, ltb→lt, Bool-cases,
  Option-cases, inl, inr, if_of_true, if_of_false,
}
use native.Mathlib.Nat.{suc-mul, zero-mul, add-mul, mul-le-mul_right}
use mini_infer.Radix.Keys.{
  same_list, same_list_iff, same_list_self, same_list_comm, nonempty, key_match, get_child_key,
  Pages, key_match-Pages, get_child_key-key_match,
}
use mini_infer.Radix.Tree.{
  Label, Tree, Forest, node, nil, child, label, children, get_child, set_child, get_child-set_child,
  touch,
}

-- The slots read below a child, `rest` of them behind its key if the key matches whole.
abbrev pub walk_child : ℕ → List ℕ → Tree → List ℕ → List ℕ
walk_child page_size key c rest =
    let prefix_len = key_match page_size (label c).key key in
    if ltb prefix_len (length (label c).key)
    then take prefix_len (label c).value
    else (label c).value ++ rest

unfoldable pub walk : ℕ → ℕ → List ℕ → Tree → List ℕ
walk page_size zero key t = []
walk page_size (suc fuel) key (node l kids) =
    if nonempty key
    then elim (get_child (get_child_key page_size key) kids) [
      | none ↦ []
      | some c ↦
          walk_child page_size key c
            (walk page_size fuel (drop (key_match page_size (label c).key key) key) c)
    ]
    else []

abbrev pub enter : ℕ → ℕ → List ℕ → Tree → List ℕ
enter page_size fuel key c =
    walk_child page_size key c
      (walk page_size fuel (drop (key_match page_size (label c).key key) key) c)

-- A child stands under the first page of its key, which is of whole pages, a slot for each token;
-- no two children of a node stand under the same one.
abbrev pub WfLabel : ℕ → List ℕ → Label → Type 0
WfLabel ps k l =
    (k ≡ get_child_key ps l.key)
    × ((q : ℕ) × Pages ps (suc q) l.key)
    × (length l.value ≡ length l.key)

unfoldable mutual
  pub WfForest : ℕ → Forest → Type 0
  WfForest ps nil = Unit {0}
  WfForest ps (child k t rest) = WfChild ps k t × (get_child k rest ≡ none) × WfForest ps rest

  pub WfChild : ℕ → List ℕ → Tree → Type 0
  WfChild ps k (node l kids) = WfLabel ps k l × WfForest ps kids

pub get_child-WfChild :
    (ps : ℕ) (k : List ℕ) (kids : Forest) {c : Tree}
    → WfForest ps kids
    → get_child k kids ≡ some c
    → WfChild ps k c
unfolding WfForest
get_child-WfChild ps k nil w e = cc
get_child-WfChild ps k (child k1 t rest) {c} w e = elim (Bool-cases (same_list k k1)) [
  | inl s ↦
      let same : t ≡ c = (let d = sym (if_of_true (some t) (get_child k rest) s) ∙ e in cc) in
      subst (λ j. WfChild ps j c) (sym (same_list_iff k k1 s)) (subst (WfChild ps k1) same w.0)
  | inr n ↦ get_child-WfChild ps k rest w.2 (sym (if_of_false (some t) (get_child k rest) n) ∙ e)
]

pub set_child-WfForest :
    (ps : ℕ) (k : List ℕ) (u : Tree) (kids : Forest)
    → WfForest ps kids
    → WfChild ps k u
    → WfForest ps (set_child k u kids)
unfolding WfForest
set_child-WfForest ps k u nil w h = (h, refl, tt)
set_child-WfForest ps k u (child k1 t rest) w h = elim (Bool-cases (same_list k k1)) [
  | inl s ↦
      subst (WfForest ps) (sym (if_of_true _ _ s))
        (subst (λ j. WfChild ps j u) (same_list_iff k k1 s) h, w.1, w.2)
  | inr n ↦ subst (WfForest ps) (sym (if_of_false _ _ n)) (
    w.0,
    get_child-set_child k1 k u rest ∙ if_of_false _ _ (same_list_comm k1 k ∙ n) ∙ w.1,
    set_child-WfForest ps k u rest w.2 h,
  )
]

pub children-WfForest : (ps : ℕ) (k : List ℕ) (c : Tree) → WfChild ps k c → WfForest ps (children c)
unfolding WfForest
children-WfForest ps k (node l kids) w = w.1

pub value-length :
    (ps : ℕ) (k : List ℕ) (c : Tree)
    → WfChild ps k c
    → length (label c).value ≡ length (label c).key
unfolding WfForest
value-length ps k (node l kids) w = w.0.2

pub same-WfChild :
    (ps : ℕ) (k : List ℕ) (c d : Tree)
    → WfChild ps k c
    → (label d).key ≡ (label c).key
    → (label d).value ≡ (label c).value
    → WfForest ps (children d)
    → WfChild ps k d
unfolding WfForest
same-WfChild ps k (node a below) (node d kids) ((h, (q, p), v), wf) e f w = (
  (h ∙ ap (get_child_key ps) (sym e), (q, ap length e ∙ p), ap length f ∙ v ∙ sym (ap length e)),
  w,
)

pub touch-WfChild :
    (ps : ℕ) (k : List ℕ) (now : ℕ) (c : Tree) → WfChild ps k c → WfChild ps k (touch now c)
unfolding WfForest
touch-WfChild ps k now (node l kids) w = w

pub walk-touch :
    (ps f now : ℕ) (key : List ℕ) (t : Tree) → walk ps f key (touch now t) ≡ walk ps f key t
unfolding walk
walk-touch ps zero now key t = refl
walk-touch ps (suc f) now key (node l kids) = refl

pub walk-next :
    (ps f : ℕ) (key : List ℕ) (l : Label) (kids : Forest) (c : Tree)
    → nonempty key ≡ true
    → get_child (get_child_key ps key) kids ≡ some c
    → walk ps (suc f) key (node l kids) ≡ enter ps f key c
unfolding walk
walk-next ps f key l kids c n e = rw (n, e)

pub walk-stop :
    (ps f : ℕ) (key : List ℕ) (l : Label) (kids : Forest)
    → get_child (get_child_key ps key) kids ≡ none
    → walk ps (suc f) key (node l kids) ≡ []
unfolding walk
walk-stop ps f [] l kids e = refl
walk-stop ps f (x ∷ key) l kids e = rw e

pub walk-zero : (ps : ℕ) (key : List ℕ) (t : Tree) → walk ps 0 key t ≡ []
unfolding walk
walk-zero ps key t = refl

pub walk-nil : (ps f : ℕ) (t : Tree) → walk ps f [] t ≡ []
unfolding walk
walk-nil ps zero t = refl
walk-nil ps (suc f) (node l kids) = refl

-- A child under the first page of a key matches at least that page: whole pages of both, and whole
-- pages are left of the key.
pub record ChildMatch (ps : ℕ) (key : List ℕ) (c : Tree) : Type 0 where
  pub matched : ℕ
  pub pages : ℕ
  pub left : ℕ
  pub key-Pages : Pages ps (suc pages) (label c).key
  pub match : key_match ps (label c).key key ≡ suc matched * ps
  pub bound : matched ≤ pages
  pub fits : key_match ps (label c).key key ≤ length key
  pub left-Pages : Pages ps left (drop (key_match ps (label c).key key) key)
  pub shorter : length (drop (key_match ps (label c).key key) key) < length key

pub drop-Pages_left :
    (ps j n : ℕ) (key : List ℕ) → Pages ps n key → j ≤ n → Pages ps (n - j) (drop (j * ps) key)
drop-Pages_left ps j n key h l =
    let split : n * ps ≡ j * ps + (n - j) * ps =
      (let e : n ≡ j + (n - j) = omega arith in ap (λ x. x * ps) e ∙ add-mul j (n - j) ps) in
    omega (arith, split, length-drop (j * ps) key)

some_page : (j ps : ℕ) → 0 < j * ps → 0 < j
some_page zero ps h = absurd (omega (arith, zero-mul ps))
some_page (suc j) ps h = omega arith

pub child-match :
    (ps : ℕ) (pos : 0 < ps) (n : ℕ) (key : List ℕ) (c : Tree)
    → Pages ps (suc n) key
    → WfChild ps (get_child_key ps key) c
    → ChildMatch ps key c
unfolding WfForest
child-match ps pos n key (node l kids) h ((e, (q, p), v), w) =
    let (j, m, a, b) = key_match-Pages ps pos (suc q) (suc n) l.key key p h in
    let hit =
      get_child_key-key_match ps pos l.key key (omega (arith, suc-mul q ps))
        (omega (arith, suc-mul n ps)) in
    let yes : same_list (get_child_key ps l.key) (get_child_key ps key) ≡ true =
      rw (sym e) (same_list_self (get_child_key ps key)) in
    let some_pages : 0 < key_match ps l.key key =
      ltb→lt 0 (key_match ps l.key key) (sym hit ∙ yes) in
    let nonzero : 0 < j = some_page j ps (omega (arith, m, some_pages)) in
    let one_more : suc (j - 1) ≡ j = omega arith in
    record {
      matched = j - 1;
      pages = q;
      left = suc n - j;
      key-Pages = p;
      match = m ∙ ap (λ x. x * ps) (sym one_more);
      bound = omega arith;
      fits = let d : j * ps ≤ suc n * ps = mul-le-mul_right ps b in omega arith;
      left-Pages = rw m (drop-Pages_left ps j (suc n) key h b);
      shorter = omega (arith, length-drop (key_match ps l.key key) key, suc-mul n ps);
    }

-- Fuel beyond the length of the key changes nothing.
pub walk_enough :
    (ps : ℕ) (pos : 0 < ps) (f g n : ℕ) (key : List ℕ) (t : Tree)
    → WfForest ps (children t)
    → Pages ps n key
    → length key ≤ f
    → length key ≤ g
    → walk ps f key t ≡ walk ps g key t
unfolding WfForest
walk_enough ps pos f g n [] t w h a b = walk-nil ps f t ∙ sym (walk-nil ps g t)
walk_enough ps pos f g zero (x ∷ key) t w h a b = absurd (omega (arith, zero-mul ps))
walk_enough ps pos zero g (suc n) (x ∷ key) t w h a b = absurd (omega arith)
walk_enough ps pos (suc f) zero (suc n) (x ∷ key) t w h a b = absurd (omega arith)
walk_enough ps pos (suc f) (suc g) (suc n) (x ∷ key) (node l kids) w h a b =
    elim (Option-cases (get_child (get_child_key ps (x ∷ key)) kids)) [
      | inl e ↦ walk-stop ps f (x ∷ key) l kids e ∙ sym (walk-stop ps g (x ∷ key) l kids e)
      | inr (c, e) ↦
          let wc = get_child-WfChild ps (get_child_key ps (x ∷ key)) kids w e in
          let m = child-match ps pos n (x ∷ key) c h wc in
          let below =
            walk_enough ps pos f g m.left (drop (key_match ps (label c).key (x ∷ key)) (x ∷ key)) c
              (children-WfForest ps _ c wc) m.left-Pages (omega (arith, m.shorter))
              (omega (arith, m.shorter)) in
          walk-next ps f (x ∷ key) l kids c refl e
          ∙ ap (walk_child ps (x ∷ key) c) below
          ∙ sym (walk-next ps g (x ∷ key) l kids c refl e)
    ]

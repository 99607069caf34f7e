-- ===== src/MemoryPool/Place/Index.antt =====
-- Where a token of a sequence stands in the placed batch, in terms of the sums that a kernel
-- instance takes over the lanes before its own.
use mini_infer.Prelude.{
  ℕ, zero, suc, ◌+◌, ◌-◌, ◌<◌, ◌≤◌, ◌≡◌, refl, sym, ap, ◌∙◌, none, List, [], ◌∷◌, ◌++◌, map, arith,
  get_or, drop, length, length-append, ℕ_discrete, dec_lt,
}
use mini_infer.MemoryPool.Sizes.{new_pages}
use mini_infer.MemoryPool.Kernels.{sum_lanes, next_loc}
use mini_infer.MemoryPool.Place.{Extent, place, place_all, length-place}

pub sum_lanes-ext :
    (f g : ℕ → ℕ) (n : ℕ) → ((l : ℕ) → l < n → f l ≡ g l) → sum_lanes f n ≡ sum_lanes g n
unfolding sum_lanes
sum_lanes-ext f g zero h = refl
sum_lanes-ext f g (suc n) h =
    omega (arith, sum_lanes-ext f g n (λ l k. h l (omega arith)), h n (omega arith))

-- Lanes that are 0 behind lane `pid` do not count, however many there are.
pub sum_lanes_upto :
    (f g : ℕ → ℕ) (pid n : ℕ)
    → ((l : ℕ) → l ≤ pid → g l ≡ f l)
    → ((l : ℕ) → pid < l → g l ≡ 0)
    → pid < n
    → sum_lanes g n ≡ sum_lanes f pid + f pid
unfolding sum_lanes
sum_lanes_upto f g pid zero h z k = elim k [ ]
sum_lanes_upto f g pid (suc n) h z k = elim (ℕ_discrete pid n) [
  | yes e ↦
      rw (← e)
        (omega (arith, sum_lanes-ext g f pid (λ l m. h l (omega arith)), h pid (omega arith)))
  | no e ↦ omega (arith, sum_lanes_upto f g pid n h z (omega arith), z n (omega arith))
]

pub sum_lanes-cons : (f : ℕ → ℕ) (n : ℕ) → sum_lanes f (suc n) ≡ f 0 + sum_lanes (λ l. f (suc l)) n
unfolding sum_lanes
sum_lanes-cons f zero = omega arith
sum_lanes-cons f (suc n) = omega (arith, sum_lanes-cons f n)

module _ {ℓ} {A : Type ℓ} where
  pub get_or-append_left :
      (xs ys : List A) (i : ℕ) (d : A) → i < length xs → get_or (xs ++ ys) i d ≡ get_or xs i d
  get_or-append_left [] ys i d h = elim h [ ]
  get_or-append_left (x ∷ xs) ys zero d h = refl
  get_or-append_left (x ∷ xs) ys (suc i) d h = get_or-append_left xs ys i d (omega arith)

  pub get_or-append_right :
      (xs ys : List A) (i : ℕ) (d : A) → get_or (xs ++ ys) (length xs + i) d ≡ get_or ys i d
  get_or-append_right [] ys i d = ap (λ k. get_or ys k d) (omega arith)
  get_or-append_right (x ∷ xs) ys i d =
      ap (λ k. get_or (x ∷ xs ++ ys) k d) {x = suc (length xs) + i} {y = suc (length xs + i)}
        (omega arith)
      ∙ get_or-append_right xs ys i d

  drop-nil : (n : ℕ) → drop {A = A} n [] ≡ []
  drop-nil zero = refl
  drop-nil (suc n) = refl

  pub drop-drop : (m n : ℕ) (xs : List A) → drop m (drop n xs) ≡ drop (n + m) xs
  drop-drop m zero xs = ap (λ k. drop k xs) (omega arith)
  drop-drop m (suc n) [] = drop-nil m ∙ sym (drop-nil (suc n + m))
  drop-drop m (suc n) (x ∷ xs) =
      drop-drop m n xs ∙ ap (λ k. drop k (x ∷ xs)) {x = suc (n + m)} (omega arith)

pub get_or-map {ℓ κ} :
    {A : Type ℓ} {B : Type κ} (f : A → B) (xs : List A) (i : ℕ) (d : A)
    → get_or (map f xs) i (f d) ≡ f (get_or xs i d)
get_or-map f [] i d = refl
get_or-map f (x ∷ xs) zero d = refl
get_or-map f (x ∷ xs) (suc i) d = get_or-map f xs i d

-- Sequence `i` of a batch; behind the batch stand empty sequences.
abbrev pub nothing : Extent
nothing = record { prefix_len = 0; seq_len = 0; last_loc = none }

abbrev pub extent : List Extent → ℕ → Extent
extent batch i = get_or batch i nothing

abbrev pub extend_len : Extent → ℕ
extend_len e = e.seq_len - e.prefix_len

-- The tokens, and the pages, of the sequences before sequence `i`.
abbrev pub tokens_before : List Extent → ℕ → ℕ
tokens_before batch i = sum_lanes (λ l. extend_len (extent batch l)) i

abbrev pub pages_before : ℕ → List Extent → ℕ → ℕ
pages_before ps batch i =
    sum_lanes (λ l. new_pages ps (extent batch l).prefix_len (extent batch l).seq_len) i

pub place_all-at :
    (ps : ℕ) (batch : List Extent) (pages : List ℕ) (i j : ℕ)
    → i < length batch
    → j < extend_len (extent batch i)
    → get_or (place_all ps batch pages) (tokens_before batch i + j) 0
      ≡ get_or
          (place ps
            (extent batch i).prefix_len
            (next_loc (extent batch i).last_loc)
            (drop (pages_before ps batch i) pages)
            (extend_len (extent batch i)))
          j
          0
unfolding place_all sum_lanes
place_all-at ps [] pages i j h k = elim h [ ]
place_all-at ps (e ∷ batch) pages zero j h k =
    ap (λ x. get_or (place_all ps (e ∷ batch) pages) x 0) (omega arith)
    ∙ get_or-append_left (place ps e.prefix_len (next_loc e.last_loc) pages (extend_len e)) _ j 0
        (rw (length-place ps e.prefix_len (next_loc e.last_loc) pages (extend_len e)) k)
place_all-at ps (e ∷ batch) pages (suc i) j h k =
    let first = place ps e.prefix_len (next_loc e.last_loc) pages (extend_len e) in
    let n = new_pages ps e.prefix_len e.seq_len in
    let len : length first ≡ extend_len e =
      length-place ps e.prefix_len (next_loc e.last_loc) pages (extend_len e) in
    let at : tokens_before (e ∷ batch) (suc i) + j ≡ length first + (tokens_before batch i + j) =
      omega (arith, len, sum_lanes-cons (λ l. extend_len (extent (e ∷ batch) l)) i) in
    let sums : n + pages_before ps batch i ≡ pages_before ps (e ∷ batch) (suc i) = sym (
      sum_lanes-cons
        (λ l. new_pages ps (extent (e ∷ batch) l).prefix_len (extent (e ∷ batch) l).seq_len) i) in
    ap (λ x. get_or (place_all ps (e ∷ batch) pages) x 0) at
    ∙ get_or-append_right first _ (tokens_before batch i + j) 0
    ∙ place_all-at ps batch (drop n pages) i j (omega arith) k
    ∙ ap
        (λ xs.
          get_or
            (place ps (extent batch i).prefix_len (next_loc (extent batch i).last_loc) xs
              (extend_len (extent batch i)))
            j 0)
        (drop-drop (pages_before ps batch i) n pages ∙ ap (λ m. drop m pages) sums)

pub length-place_all :
    (ps : ℕ) (batch : List Extent) (pages : List ℕ)
    → length (place_all ps batch pages) ≡ tokens_before batch (length batch)
unfolding place_all sum_lanes
length-place_all ps [] pages = refl
length-place_all ps (e ∷ batch) pages =
    let first = place ps e.prefix_len (next_loc e.last_loc) pages (extend_len e) in
    omega (
      arith,
      length-append first (place_all ps batch (drop (new_pages ps e.prefix_len e.seq_len) pages)),
      length-place ps e.prefix_len (next_loc e.last_loc) pages (extend_len e),
      length-place_all ps batch (drop (new_pages ps e.prefix_len e.seq_len) pages),
      sum_lanes-cons (λ l. extend_len (extent (e ∷ batch) l)) (length batch),
    )

-- A position of the placed batch belongs to one token of one sequence.
pub locate :
    (batch : List Extent) (n x : ℕ)
    → x < tokens_before batch n
    → (i : ℕ) × (j : ℕ) × (i < n)
      × (j < extend_len (extent batch i))
      × (x ≡ tokens_before batch i + j)
unfolding sum_lanes
locate batch zero x h = elim h [ ]
locate batch (suc n) x h = elim (dec_lt x (tokens_before batch n)) [
  | yes l ↦ let (i, j, a, b, c) = locate batch n x l in (i, j, omega arith, b, c)
  | no l ↦ (n, x - tokens_before batch n, omega arith, omega arith, omega arith)
]

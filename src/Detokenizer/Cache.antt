-- ===== src/Detokenizer/Cache.antt =====
-- The decode cache: `_decode_with_cache` of detokenizer.py.
use mini_infer.Prelude.{
  All-append, All-drop, ℕ, ◌/◌, ◌≤◌, ◌<◌, ◌≡◌, refl, sym, ap, ◌∙◌, subst, Bool, Option, some,
  Option-cases, List, [], ◌∷◌, map, arith, leb, ◌==◌, ==_iff, length, length-append, length-drop,
  All, inl, inr, Bool-cases, if_both,
}
use mini_infer.Detokenizer.{
  Tokenizer, DecodeState, Decoder, new_decoder, find, decode_text, make_room, decode_with_cache,
}

-- The key tells the sequences of a set apart.
abbrev pub NoCollision : Tokenizer → (List ℕ → Type 0) → Type 0
NoCollision t used = (xs ys : List ℕ) → used xs → used ys → t.hash xs ≡ t.hash ys → xs ≡ ys

-- An entry holds the text of a sequence that has its key.
abbrev pub IsEntry : Tokenizer → (List ℕ → Type 0) → (List ℕ → List ℕ) → ℕ × List ℕ → Type 0
IsEntry t used text e = (xs : List ℕ) × used xs × (e.0 ≡ t.hash xs) × (e.1 ≡ text xs)

pub record IsCached (t : Tokenizer) (used : List ℕ → Type 0) (text : List ℕ → List ℕ) (d : Decoder)
    : Type 0 where
  pub decodes : (xs : List ℕ) → decode_text t d xs ≡ text xs
  pub entries : All (IsEntry t used text) d.decode_cache
  pub room : length d.decode_cache ≤ d.decode_cache_size
  pub size : d.decode_cache_size ≡ 1024

find-All :
    (P : ℕ × List ℕ → Type 0) (k : ℕ) (entries : List (ℕ × List ℕ)) (v : List ℕ)
    → find k entries ≡ some v
    → All P entries
    → P (k, v)
unfolding find
find-All P k [] v e h = cc
find-All P k ((j, w) ∷ entries) v e h = elim (Bool-cases (j == k)) [
  | inl c ↦
      let i : j ≡ k = (==_iff j k).0 c in
      let f : some w ≡ some v = rw c at e in
      let w' : w ≡ v = cc in subst P (ap (λ a. (a, w)) i ∙ ap (λ a. (k, a)) w') h.0
  | inr c ↦ find-All P k entries v (rw c at e) h.1
]

module _ (t : Tokenizer) (used : List ℕ → Type 0) (text : List ℕ → List ℕ)
    (n : NoCollision t used) where
  hit :
      (xs v : List ℕ) (d : Decoder)
      → used xs
      → find (t.hash xs) d.decode_cache ≡ some v
      → IsCached t used text d
      → v ≡ text xs
  hit xs v d u e h =
      let (ys, w, k, x) = find-All (IsEntry t used text) (t.hash xs) d.decode_cache v e h.entries in
      x ∙ ap text (sym (n xs ys u w k))

  make_room-All : (d : Decoder) → IsCached t used text d → All (IsEntry t used text) (make_room t d)
  make_room-All d h =
      if_both (All (IsEntry t used text)) (leb d.decode_cache_size (length d.decode_cache))
        (All-drop (IsEntry t used text) (d.decode_cache_size / 2) d.decode_cache h.entries)
        h.entries

  length-make_room : (d : Decoder) → IsCached t used text d → length (make_room t d) < 1024
  length-make_room d h =
      ground (arith, h.room, h.size, length-drop (d.decode_cache_size / 2) d.decode_cache)

  pub states-IsCached :
      (states : List (ℕ × DecodeState)) (d : Decoder)
      → IsCached t used text d
      → IsCached t used text (record d { states = states })
  unfolding decode_text
  states-IsCached states d h = record {
    decodes = λ xs. h.decodes xs;
    entries = h.entries;
    room = h.room;
    size = h.size;
  }

  pub decode_with_cache_lem :
      (xs : List ℕ) (d : Decoder)
      → used xs
      → IsCached t used text d
      → ((decode_with_cache t xs d).0 ≡ text xs)
        × IsCached t used text (decode_with_cache t xs d).1
        × ((decode_with_cache t xs d).1.states ≡ d.states)
  unfolding decode_with_cache decode_text
  decode_with_cache_lem xs d u h = elim (Option-cases (find (t.hash xs) d.decode_cache)) [
    | inl e ↦ rw e (
      h.decodes xs,
      record {
        decodes = λ ys. h.decodes ys;
        entries =
            All-append (IsEntry t used text) (make_room t d) _ (make_room-All d h)
              ((xs, u, refl, h.decodes xs), tt);
        room = omega (
          arith,
          h.size,
          length-make_room d h,
          length-append (make_room t d) ((t.hash xs, decode_text t d xs) ∷ []),
        );
        size = h.size;
      },
      refl,
    )
    | inr (v, e) ↦ rw e (
      hit xs v d u e h,
      record { decodes = λ ys. h.decodes ys; entries = h.entries; room = h.room; size = h.size },
      refl,
    )
  ]

-- The sequences, decoded one after another.
unfoldable pub decode_seqs : Tokenizer → List (List ℕ) → Decoder → List (List ℕ) × Decoder
unfolding decode_with_cache
decode_seqs t [] d = ([], d)
decode_seqs t (xs ∷ seqs) d =
    let (x, d') = decode_with_cache t xs d in
    let (texts, d'') = decode_seqs t seqs d' in (x ∷ texts, d'')

decode_seqs_lem :
    (t : Tokenizer) (used : List ℕ → Type 0) (text : List ℕ → List ℕ) (seqs : List (List ℕ))
    (d : Decoder)
    → NoCollision t used
    → All used seqs
    → IsCached t used text d
    → ((decode_seqs t seqs d).0 ≡ map text seqs) × IsCached t used text (decode_seqs t seqs d).1
unfolding decode_seqs
decode_seqs_lem t used text [] d n u h = (refl, h)
decode_seqs_lem t used text (xs ∷ seqs) d n u h =
    let (x, k, s) = decode_with_cache_lem t used text n xs d u.0 h in
    let (rest, l) = decode_seqs_lem t used text seqs (decode_with_cache t xs d).1 n u.1 k in
    (rw (x, rest), l)

pub new_decoder-IsCached :
    (t : Tokenizer) (used : List ℕ → Type 0) (skip : Bool) (clean : Option Bool)
    → IsCached t used (decode_text t (new_decoder skip clean)) (new_decoder skip clean)
new_decoder-IsCached t used skip clean =
    unfold new_decoder in
    record { decodes = λ xs. refl; entries = tt; room = omega arith; size = refl }

-- A new decoder returns for each of any number of sequences, decoded one after another through the
-- cache, the tokenizer's own text, whatever is repeated or evicted, and its cache never holds more
-- than 1024 texts, if no two of the sequences have the same hash and differ.
pub decode_seqs-decode_text :
    (t : Tokenizer) (used : List ℕ → Type 0) (skip : Bool) (clean : Option Bool)
    (seqs : List (List ℕ))
    → NoCollision t used
    → All used seqs
    → let d = new_decoder skip clean in
      ((decode_seqs t seqs d).0 ≡ map (decode_text t d) seqs)
      × (length (decode_seqs t seqs d).1.decode_cache ≤ 1024)
decode_seqs-decode_text t used skip clean seqs n u =
    let d = new_decoder skip clean in
    let (e, h) =
      decode_seqs_lem t used (decode_text t d) seqs d n u
        (new_decoder-IsCached t used skip clean) in
    (e, omega (arith, h.room, h.size))

-- ===== src/BatchTokenizer/Encoded.antt =====
-- The LRU cache of incremental_batch_tokenizer.py, and what its entries hold.
use mini_infer.Prelude.{
  ℕ, ◌+◌, ◌-◌, ◌≤◌, ◌≡◌, refl, sym, ap, ◌∙◌, Bool, true, false, ◌&&◌, Option, none, some, List, [],
  ◌∷◌, map, arith, ◌==◌, ==_iff, length, length-append, length-drop, All, All-append, All-drop, inl,
  inr, Bool-cases, if_both,
}
use mini_infer.BatchTokenizer.{
  Text, Encoder, CacheKey, Cache, BatchTokenizer, same_text, same_bool, same_system, same_key, get,
  delete, put_last, trim, given, encode_key,
}

-- A call for many prompts gives each what a call for it alone does, with a template, where there is
-- one, and without.
pub record IsConsistent (e : Encoder) : Type 0 where
  pub plain : (prompts : List Text) → e.encode_all true prompts ≡ map e.encode prompts
  pub chat :
      e.has_chat_template ≡ true
      → (system : Option Text) (prompts : List Text)
      → e.encode_all false (map (e.format_for_generation system) prompts)
        ≡ map (e.apply_chat_template (given system)) prompts

abbrev pub IsGood : Encoder → CacheKey × List ℕ → Type 0
IsGood e entry = entry.1 ≡ encode_key e entry.0

pub record IsEncoded (e : Encoder) (b : BatchTokenizer) : Type 0 where
  pub good : All (IsGood e) b.cache
  pub room : length b.cache ≤ b.cache_size

&&-true : (a b : Bool) → (a && b) ≡ true → (a ≡ true) × (b ≡ true)
&&-true true b h = (refl, h)
&&-true false b h = cc

same_text_sound : (xs ys : Text) → same_text xs ys ≡ true → xs ≡ ys
same_text_sound [] [] h = refl
same_text_sound [] (y ∷ ys) h = cc
same_text_sound (x ∷ xs) [] h = cc
same_text_sound (x ∷ xs) (y ∷ ys) h =
    let (a, b) = &&-true (x == y) (same_text xs ys) h in
    let i : x ≡ y = (==_iff x y).0 a in let j : xs ≡ ys = same_text_sound xs ys b in cc

same_bool_sound : (a b : Bool) → same_bool a b ≡ true → a ≡ b
same_bool_sound true true h = refl
same_bool_sound true false h = cc
same_bool_sound false true h = cc
same_bool_sound false false h = refl

same_system_sound : (a b : Option Text) → same_system a b ≡ true → a ≡ b
same_system_sound none none h = refl
same_system_sound none (some y) h = cc
same_system_sound (some x) none h = cc
same_system_sound (some x) (some y) h = ap some (same_text_sound x y h)

same_key_sound : (j k : CacheKey) → same_key j k ≡ true → j ≡ k
unfolding same_key
same_key_sound j k h =
    let (a, bc) = &&-true (same_bool j.use_chat_template k.use_chat_template) _ h in
    let (b, c) = &&-true (same_system j.system_prompt k.system_prompt) _ bc in
    ap
      (λ (u : Bool). record {
        use_chat_template = u;
        system_prompt = j.system_prompt;
        prompt = j.prompt;
      })
      (same_bool_sound _ _ a)
    ∙ ap
        (λ (s : Option Text). record {
          use_chat_template = k.use_chat_template;
          system_prompt = s;
          prompt = j.prompt;
        })
        (same_system_sound _ _ b)
    ∙ ap
        (λ (p : Text). record {
          use_chat_template = k.use_chat_template;
          system_prompt = k.system_prompt;
          prompt = p;
        })
        (same_text_sound _ _ c)

pub get-IsGood :
    (e : Encoder) (k : CacheKey) (entries : Cache) (v : List ℕ)
    → get k entries ≡ some v
    → All (IsGood e) entries
    → v ≡ encode_key e k
unfolding get
get-IsGood e k [] v h g = cc
get-IsGood e k ((j, w) ∷ entries) v h g = elim (Bool-cases (same_key j k)) [
  | inl c ↦
      let f : some w ≡ some v = rw c at h in
      let i : w ≡ v = cc in sym i ∙ g.0 ∙ ap (encode_key e) (same_key_sound j k c)
  | inr c ↦ get-IsGood e k entries v (rw c at h) g.1
]

delete-IsGood :
    (e : Encoder) (k : CacheKey) (entries : Cache)
    → All (IsGood e) entries
    → All (IsGood e) (delete k entries)
unfolding delete
delete-IsGood e k [] g = g
delete-IsGood e k ((j, w) ∷ entries) g =
    if_both (All (IsGood e)) (same_key j k) g.1 (g.0, delete-IsGood e k entries g.1)

-- What is found is one of the entries.
length-delete :
    (k : CacheKey) (entries : Cache) (v : List ℕ)
    → get k entries ≡ some v
    → length (delete k entries) + 1 ≡ length entries
unfolding get delete
length-delete k [] v h = cc
length-delete k ((j, w) ∷ entries) v h = elim (Bool-cases (same_key j k)) [
  | inl c ↦ rw c (omega arith)
  | inr c ↦ rw c (omega (arith, length-delete k entries v (rw c at h)))
]

pub put_last-IsGood :
    (e : Encoder) (k : CacheKey) (ids : List ℕ) (entries : Cache)
    → ids ≡ encode_key e k
    → All (IsGood e) entries
    → All (IsGood e) (put_last k ids entries)
unfolding put_last
put_last-IsGood e k ids entries i g =
    All-append (IsGood e) (delete k entries) ((k, ids) ∷ []) (delete-IsGood e k entries g) (i, tt)

pub length-put_last :
    (k : CacheKey) (entries : Cache) (v : List ℕ)
    → get k entries ≡ some v
    → length (put_last k v entries) ≡ length entries
unfolding put_last
length-put_last k entries v h =
    length-append (delete k entries) ((k, v) ∷ []) ∙ length-delete k entries v h

pub trim-IsGood :
    (e : Encoder) (n : ℕ) (entries : Cache)
    → All (IsGood e) entries
    → All (IsGood e) (trim n entries)
unfolding trim
trim-IsGood e n entries g = All-drop (IsGood e) (length entries - n) entries g

pub length-trim : (n : ℕ) (entries : Cache) → length (trim n entries) ≤ n
unfolding trim
length-trim n entries = omega (arith, length-drop (length entries - n) entries)

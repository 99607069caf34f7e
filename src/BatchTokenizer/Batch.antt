-- ===== src/BatchTokenizer/Batch.antt =====
-- `encode_one` and `encode_batch` of incremental_batch_tokenizer.py, one call.
use mini_infer.Prelude.{
  ℕ, ◌≤◌, ◌≡◌, refl, true, sym, ap, ◌∙◌, Option, none, some, List, [], ◌∷◌, map, arith, ltb,
  if◌then◌else◌, if_of_true, if_of_false, length, All, inl, inr, Bool-cases,
}
use mathlib.Core.Path.{fun_ext}
use mini_infer.BatchTokenizer.{
  Text, Encoder, CacheKey, Cache, BatchTokenizer, get, put_last, key_of, given, encode_key,
  encode_found, encode_one, moved, look_up, all_missing, missing, encode_missing, fill, put_all,
  Mode, always, never, auto, encode_rest, encode_batch, should_apply_chat_template,
}
use mini_infer.BatchTokenizer.Encoded.{
  IsConsistent, IsGood, IsEncoded, get-IsGood, put_last-IsGood, length-put_last, trim-IsGood,
  length-trim,
}

-- The ids of a prompt, without the cache.
abbrev pub own_ids : Encoder → BatchTokenizer → Text → List ℕ
own_ids e b prompt = encode_key e (key_of e b prompt)

module _ (e : Encoder) (b : BatchTokenizer) where
  found-IsEncoded :
      (k : CacheKey) (found : Option (List ℕ))
      → ((v : List ℕ) → found ≡ some v → get k b.cache ≡ some v)
      → IsEncoded e b
      → ((encode_found e k found b).0 ≡ encode_key e k) × IsEncoded e (encode_found e k found b).1
  found-IsEncoded k (some v) there h =
      let i = get-IsGood e k b.cache v (there v refl) h.good in
      (
        i,
        record {
          good = put_last-IsGood e k v b.cache i h.good;
          room = omega (arith, length-put_last k b.cache v (there v refl), h.room);
        },
      )
  found-IsEncoded k none there h = elim (Bool-cases (ltb 0 b.cache_size)) [
    | inl c ↦ rw c (
      refl,
      record {
        good =
            trim-IsGood e b.cache_size _ (put_last-IsGood e k (encode_key e k) b.cache refl h.good);
        room = length-trim b.cache_size (put_last k (encode_key e k) b.cache);
      },
    )
    | inr c ↦ rw c (refl, h)
  ]

  pub encode_one_lem :
      (prompt : Text)
      → IsEncoded e b
      → ((encode_one e prompt b).0 ≡ own_ids e b prompt) × IsEncoded e (encode_one e prompt b).1
  unfolding encode_one
  encode_one_lem prompt h =
      found-IsEncoded (key_of e b prompt)
        (if ltb 0 b.cache_size then get (key_of e b prompt) b.cache else none)
        (λ v i. elim (Bool-cases (ltb 0 b.cache_size)) [
          | inl c ↦ rw c at i
          | inr c ↦ absurd (no_some v (rw c at i))
        ])
        h
    where
      no_some : (v : List ℕ) → ¬ (none ≡ some v)
      no_some v i = cc

  moved-IsGood :
      (k : CacheKey) (found : Option (List ℕ)) (entries : Cache)
      → get k entries ≡ found
      → All (IsGood e) entries
      → All (IsGood e) (moved k found entries) × (length (moved k found entries) ≡ length entries)
  moved-IsGood k none entries i g = (g, refl)
  moved-IsGood k (some v) entries i g = (
    put_last-IsGood e k v entries (get-IsGood e k entries v i g) g,
    length-put_last k entries v i,
  )

  -- What is found is right, so that filling in the rest gives all.
  abbrev Filled : List Text → List (Option (List ℕ)) → Type 0
  Filled prompts found =
      fill found (map (own_ids e b) (missing prompts found)) ≡ map (own_ids e b) prompts

  fill-cons :
      (p : Text) (prompts : List Text) (o : Option (List ℕ)) (found : List (Option (List ℕ)))
      → ((v : List ℕ) → o ≡ some v → v ≡ own_ids e b p)
      → Filled prompts found
      → Filled (p ∷ prompts) (o ∷ found)
  unfolding fill
  fill-cons p prompts none found i h = ap (λ l. own_ids e b p ∷ l) h
  fill-cons p prompts (some v) found i h = let j : v ≡ own_ids e b p = i v refl in cc

  look_up_lem :
      (prompts : List Text) (entries : Cache)
      → All (IsGood e) entries
      → Filled prompts (look_up e b prompts entries).0
        × All (IsGood e) (look_up e b prompts entries).1
        × (length (look_up e b prompts entries).1 ≡ length entries)
  unfolding look_up
  look_up_lem [] entries g = (unfold fill in refl, g, refl)
  look_up_lem (p ∷ prompts) entries g =
      let k = key_of e b p in
      let (g', l) = moved-IsGood k (get k entries) entries refl g in
      let (f, g'', l') = look_up_lem prompts (moved k (get k entries) entries) g' in
      (fill-cons p prompts (get k entries) _ (λ v i. get-IsGood e k entries v i g) f, g'', l' ∙ l)

  all_missing_lem : (prompts : List Text) → Filled prompts (all_missing prompts)
  all_missing_lem [] = unfold fill in refl
  all_missing_lem (p ∷ prompts) =
      fill-cons p prompts none (all_missing prompts) (λ v i. cc) (all_missing_lem prompts)

  put_all-IsGood :
      (prompts : List Text) (entries : Cache)
      → All (IsGood e) entries
      → All (IsGood e) (put_all e b prompts (map (own_ids e b) prompts) entries)
  unfolding put_all
  put_all-IsGood [] entries g = g
  put_all-IsGood (p ∷ prompts) entries g =
      put_all-IsGood prompts _ (put_last-IsGood e (key_of e b p) (own_ids e b p) entries refl g)

  -- A template is applied only where there is one.
  applied-has :
      (c : BatchTokenizer) (mode : Mode)
      → should_apply_chat_template e (record c { use_chat_template = mode }) ≡ true
      → e.has_chat_template ≡ true
  applied-has c always h = h
  applied-has c never h = cc
  applied-has c auto h = elim (Bool-cases e.has_chat_template) [
    | inl y ↦ y
    | inr n ↦ absurd (ground (arith, n, h))
  ]

  encode_missing_lem :
      (prompts : List Text)
      → IsConsistent e
      → encode_missing e b prompts ≡ map (own_ids e b) prompts
  unfolding encode_missing encode_key
  encode_missing_lem prompts c = elim (Bool-cases (should_apply_chat_template e b)) [
    | inl u ↦
        if_of_true _ _ u
        ∙ c.chat (applied-has b b.use_chat_template u) b.system_prompt prompts
        ∙ ap (λ f. map f prompts) {x = e.apply_chat_template (given b.system_prompt)}
            (fun_ext (λ p. sym (if_of_true _ _ u)))
    | inr u ↦
        if_of_false _ _ u
        ∙ c.plain prompts
        ∙ ap (λ f. map f prompts) {x = e.encode} (fun_ext (λ p. sym (if_of_false _ _ u)))
  ]

  rest-IsEncoded :
      (prompts asked : List Text) (found : List (Option (List ℕ))) (entries : Cache)
      → IsConsistent e
      → missing prompts found ≡ asked
      → Filled prompts found
      → All (IsGood e) entries
      → length entries ≤ b.cache_size
      → ((encode_rest e b asked found entries).0 ≡ map (own_ids e b) prompts)
        × IsEncoded e (encode_rest e b asked found entries).1
  rest-IsEncoded prompts [] found entries c m f g l = (rw m at f, record { good = g; room = l })
  rest-IsEncoded prompts (p ∷ asked) found entries c m f g l =
      let new = encode_missing_lem (p ∷ asked) c in
      (
        ap (fill found) new ∙ rw m at f,
        elim (Bool-cases (ltb 0 b.cache_size)) [
          | inl t ↦
              rw (t, new)
                (record {
                  good = trim-IsGood e b.cache_size _ (put_all-IsGood (p ∷ asked) entries g);
                  room = length-trim b.cache_size _;
                })
          | inr t ↦ rw t (record { good = g; room = l })
        ],
      )

  pub encode_batch_lem :
      (prompts : List Text)
      → IsConsistent e
      → IsEncoded e b
      → ((encode_batch e prompts b).0 ≡ map (own_ids e b) prompts)
        × IsEncoded e (encode_batch e prompts b).1
  unfolding encode_batch
  encode_batch_lem prompts c h = elim (Bool-cases (ltb 0 b.cache_size)) [
    | inl t ↦
        let (f, g, l) = look_up_lem prompts b.cache h.good in
        rw t (rest-IsEncoded prompts _ _ _ c refl f g (omega (arith, l, h.room)))
    | inr t ↦ rw t (rest-IsEncoded prompts _ _ _ c refl (all_missing_lem prompts) h.good h.room)
  ]

-- ===== src/BatchTokenizer/Calls.antt =====
-- Sequences of `encode_one` and `encode_batch`.
use mini_infer.Prelude.{
  ℕ, ◌≤◌, ◌≡◌, refl, ap, ◌∙◌, Bool, true, false, Option, none, some, List, [], ◌∷◌, map, arith, ltb,
  length, if_both,
}
use mathlib.Core.Path.{fun_ext}
use mini_infer.BatchTokenizer.{
  Text, Encoder, BatchTokenizer, Mode, CacheKey, Cache, new_tokenizer, key_of, encode_key,
  encode_one, encode_found, encode_batch, encode_rest,
}
use mini_infer.BatchTokenizer.Encoded.{IsConsistent, IsEncoded}
use mini_infer.BatchTokenizer.Chat.{
  Message, TemplateTokenizer, handler_encoder, handler_encoder-IsConsistent,
}
use mini_infer.BatchTokenizer.Batch.{own_ids, encode_one_lem, encode_batch_lem}

pub data Ask : Type 0 where
  one : Text → Ask
  many : List Text → Ask

-- The answers, each a list of ids for each prompt.
unfoldable pub answers : Encoder → List Ask → BatchTokenizer → List (List (List ℕ)) × BatchTokenizer
unfolding encode_one encode_batch
answers e [] b = ([], b)
answers e (one p ∷ asks) b =
    let (ids, b') = encode_one e p b in
    let (rest, b'') = answers e asks b' in ((ids ∷ []) ∷ rest, b'')
answers e (many ps ∷ asks) b =
    let (all, b') = encode_batch e ps b in let (rest, b'') = answers e asks b' in (all ∷ rest, b'')

-- The same without a cache.
abbrev pub plain_answer : Encoder → BatchTokenizer → Ask → List (List ℕ)
plain_answer e b (one p) = own_ids e b p ∷ []
plain_answer e b (many ps) = map (own_ids e b) ps

-- What a call leaves as it was.
record Same (b c : BatchTokenizer) : Type 0 where
  mode : c.use_chat_template ≡ b.use_chat_template
  name : c.model_name ≡ b.model_name
  system : c.system_prompt ≡ b.system_prompt
  size : c.cache_size ≡ b.cache_size

same : (b : BatchTokenizer) (c : Cache) → Same b (record b { cache = c })
same b c = record { mode = refl; name = refl; system = refl; size = refl }

found-Same :
    (e : Encoder) (k : CacheKey) (found : Option (List ℕ)) (b : BatchTokenizer)
    → Same b (encode_found e k found b).1
found-Same e k (some v) b = same b _
found-Same e k none b =
    if_both (λ (r : List ℕ × BatchTokenizer). Same b r.1) (ltb 0 b.cache_size) (same b _)
      (same b b.cache)

one-Same : (e : Encoder) (p : Text) (b : BatchTokenizer) → Same b (encode_one e p b).1
unfolding encode_one
one-Same e p b = found-Same e (key_of e b p) _ b

rest-Same :
    (e : Encoder) (b : BatchTokenizer) (asked : List Text) (found : List (Option (List ℕ)))
    (entries : Cache)
    → Same b (encode_rest e b asked found entries).1
rest-Same e b [] found entries = same b entries
rest-Same e b (p ∷ asked) found entries =
    if_both (Same b) (ltb 0 b.cache_size) (same b _) (same b entries)

many-Same : (e : Encoder) (ps : List Text) (b : BatchTokenizer) → Same b (encode_batch e ps b).1
unfolding encode_batch
many-Same e ps b = rest-Same e b _ _ _

Same-own_ids : (e : Encoder) (b c : BatchTokenizer) → Same b c → own_ids e c ≡ own_ids e b
Same-own_ids e b c s = fun_ext (λ p. ap (encode_key e) (
    ap (λ m. key_with m c.model_name c.system_prompt p) s.mode
    ∙ ap (λ n. key_with b.use_chat_template n c.system_prompt p) s.name
    ∙ ap (λ y. key_with b.use_chat_template b.model_name y p) s.system))
  where
    key_with : Mode → Text → Option Text → Text → CacheKey
    key_with m n y p =
        key_of e
          (record {
            use_chat_template = m;
            model_name = n;
            system_prompt = y;
            cache_size = 0;
            cache = [];
          })
          p

plain_answer-Same :
    (e : Encoder) (b c : BatchTokenizer) (s : Same b c) (a : Ask)
    → plain_answer e c a ≡ plain_answer e b a
plain_answer-Same e b c s (one p) = ap (λ f. f p ∷ []) (Same-own_ids e b c s)
plain_answer-Same e b c s (many ps) = ap (λ f. map f ps) (Same-own_ids e b c s)

-- The answers after a call are those that the state before it would give.
later :
    (e : Encoder) (asks : List Ask) (b c : BatchTokenizer) (all : List (List (List ℕ)))
    → Same b c
    → all ≡ map (plain_answer e c) asks
    → all ≡ map (plain_answer e b) asks
later e asks b c all s r = r ∙ ap (λ f. map f asks) (fun_ext (plain_answer-Same e b c s))

answers-IsEncoded :
    (e : Encoder) (asks : List Ask) (b : BatchTokenizer)
    → IsConsistent e
    → IsEncoded e b
    → ((answers e asks b).0 ≡ map (plain_answer e b) asks)
      × (length (answers e asks b).1.cache ≤ b.cache_size)
unfolding answers
answers-IsEncoded e [] b c h = (refl, h.room)
answers-IsEncoded e (one p ∷ asks) b c h =
    let (i, k) = encode_one_lem e b p h in
    let s = one-Same e p b in
    let (r, l) = answers-IsEncoded e asks (encode_one e p b).1 c k in
    (
      ap (λ ids. (ids ∷ []) ∷ (answers e asks (encode_one e p b).1).0) i
          ∙ ap (λ rest. (own_ids e b p ∷ []) ∷ rest) (later e asks b (encode_one e p b).1 _ s r),
      omega (arith, l, s.size),
    )
answers-IsEncoded e (many ps ∷ asks) b c h =
    let (i, k) = encode_batch_lem e b ps c h in
    let s = many-Same e ps b in
    let (r, l) = answers-IsEncoded e asks (encode_batch e ps b).1 c k in
    (
      ap (λ all. all ∷ (answers e asks (encode_batch e ps b).1).0) i
          ∙ ap (λ rest. map (own_ids e b) ps ∷ rest) (later e asks b (encode_batch e ps b).1 _ s r),
      omega (arith, l, s.size),
    )

-- A new batch tokenizer answers any calls of `encode_one` and `encode_batch`, in any order, with the
-- ids that each prompt has without the cache, whatever is repeated, in a batch or between batches,
-- and whatever is evicted; and its cache keeps to its size. The conditions are on the tokenizer: one
-- call for many prompts gives each what a call for it alone does, and its chat template, which raises
-- nothing, gives as ids the encoding, without special tokens, of the text that it gives.
pub answers-plain_answer :
    (t : TemplateTokenizer) (default system : Option Text) (mode : Mode) (model_name : Text)
    (size : ℕ) (asks : List Ask)
    → ((special : Bool) (prompts : List Text)
        → t.encode_all special prompts ≡ map (t.encode special) prompts)
    → ((messages : List Message)
        → (text : Text) × (t.template_text messages true ≡ some text)
          × (t.template_ids messages true ≡ some (t.encode false text)))
    → let b = new_tokenizer mode model_name system size in
      let e = handler_encoder t default in
      ((answers e asks b).0 ≡ map (plain_answer e b) asks)
      × (length (answers e asks b).1.cache ≤ size)
answers-plain_answer t default system mode model_name size asks batches templates =
    let e = handler_encoder t default in
    unfold new_tokenizer in
    answers-IsEncoded e asks (new_tokenizer mode model_name system size)
      (handler_encoder-IsConsistent t default batches templates)
      (record { good = tt; room = omega arith })

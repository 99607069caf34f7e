-- ===== src/BatchTokenizer.antt =====
-- `IncrementalBatchTokenizer` of miniinfer/engine/incremental_batch_tokenizer.py. A string is a list
-- of code points. The tokenizer and the chat template handler are a record of functions, whose
-- results are the normalized ids; Chat has the handler.
pub mod Encoded
pub mod Batch
pub mod Calls
pub mod Chat
use mini_infer.Prelude.{
  ℕ, zero, suc, ◌+◌, ◌-◌, ◌≤◌, ◌≡◌, Bool, true, false, not, ◌&&◌, ◌||◌, Option, none, some, List,
  [], ◌∷◌, ◌++◌, map, ltb, leb, ◌==◌, if◌then◌else◌, length, take, drop,
}

abbrev pub Text : Type 0
Text = List ℕ

-- `lower` is `str.lower`; a template takes the system prompt, if there is one, and the user's.
pub record Encoder : Type 0 where
  pub has_chat_template : Bool
  pub apply_chat_template : Option Text → Text → List ℕ
  pub format_for_generation : Option Text → Text → Text
  pub encode : Text → List ℕ
  pub encode_all : Bool → List Text → List (List ℕ)
  pub lower : Text → Text

-- `True`, `False` and `"auto"`.
pub data Mode : Type 0 where
  always never auto : Mode

pub record CacheKey : Type 0 where
  pub use_chat_template : Bool
  pub system_prompt : Option Text
  pub prompt : Text

abbrev pub Cache : Type 0
Cache = List (CacheKey × List ℕ)

pub record BatchTokenizer : Type 0 where
  pub use_chat_template : Mode
  pub model_name : Text
  pub system_prompt : Option Text
  pub cache_size : ℕ
  pub cache : Cache

unfoldable pub new_tokenizer : Mode → Text → Option Text → ℕ → BatchTokenizer
new_tokenizer mode model_name system_prompt cache_size = record {
  use_chat_template = mode;
  model_name = model_name;
  system_prompt = system_prompt;
  cache_size = cache_size;
  cache = [];
}

abbrev pub same_text : Text → Text → Bool
same_text [] [] = true
same_text [] (y ∷ ys) = false
same_text (x ∷ xs) [] = false
same_text (x ∷ xs) (y ∷ ys) = (x == y) && same_text xs ys

abbrev pub same_bool : Bool → Bool → Bool
same_bool true b = b
same_bool false b = not b

abbrev pub same_system : Option Text → Option Text → Bool
same_system none none = true
same_system none (some y) = false
same_system (some x) none = false
same_system (some x) (some y) = same_text x y

unfoldable pub same_key : CacheKey → CacheKey → Bool
same_key j k =
    same_bool j.use_chat_template k.use_chat_template
    && (same_system j.system_prompt k.system_prompt && same_text j.prompt k.prompt)

abbrev pub starts_with : Text → Text → Bool
starts_with [] text = true
starts_with (x ∷ xs) [] = false
starts_with (x ∷ xs) (y ∷ ys) = (x == y) && starts_with xs ys

-- `part in text`
abbrev pub contains : Text → Text → Bool
contains part [] = starts_with part []
contains part (y ∷ ys) = let rest = contains part ys in starts_with part (y ∷ ys) || rest

-- "instruct"
abbrev pub instruct_word : Text
instruct_word = 105 ∷ 110 ∷ 115 ∷ 116 ∷ 114 ∷ 117 ∷ 99 ∷ 116 ∷ []

-- "chat"
abbrev pub chat_word : Text
chat_word = 99 ∷ 104 ∷ 97 ∷ 116 ∷ []

abbrev pub should_apply_chat_template : Encoder → BatchTokenizer → Bool
should_apply_chat_template e b = elim b.use_chat_template [
  | always ↦ e.has_chat_template
  | never ↦ false
  | auto ↦
      e.has_chat_template
      && (contains instruct_word (e.lower b.model_name)
          || contains chat_word (e.lower b.model_name))
]

-- `OrderedDict`: the oldest entry first.
unfoldable pub get : CacheKey → Cache → Option (List ℕ)
unfolding same_key
get k [] = none
get k ((j, v) ∷ entries) = let rest = get k entries in if same_key j k then some v else rest

unfoldable pub delete : CacheKey → Cache → Cache
unfolding same_key
delete k [] = []
delete k ((j, v) ∷ entries) =
    let rest = delete k entries in if same_key j k then entries else (j, v) ∷ rest

-- `cache[key] = ids` and `move_to_end(key)`; for a hit, `ids` is what is there.
unfoldable pub put_last : CacheKey → List ℕ → Cache → Cache
unfolding delete
put_last k ids entries = delete k entries ++ (k, ids) ∷ []

-- `while len(cache) > size: cache.popitem(last=False)`
unfoldable pub trim : ℕ → Cache → Cache
trim size entries = drop (length entries - size) entries

abbrev pub key_of : Encoder → BatchTokenizer → Text → CacheKey
key_of e b prompt = record {
  use_chat_template = should_apply_chat_template e b;
  system_prompt = b.system_prompt;
  prompt = prompt;
}

-- An empty system prompt is left out of the messages.
abbrev pub given : Option Text → Option Text
given none = none
given (some []) = none
given (some (x ∷ xs)) = some (x ∷ xs)

-- The ids of a key's prompt, without the cache.
unfoldable pub encode_key : Encoder → CacheKey → List ℕ
encode_key e k =
    if k.use_chat_template
    then e.apply_chat_template (given k.system_prompt) k.prompt
    else e.encode k.prompt

abbrev pub encode_miss : Encoder → CacheKey → BatchTokenizer → List ℕ × BatchTokenizer
encode_miss e k b =
    let ids = encode_key e k in
    if ltb 0 b.cache_size
    then (ids, record b { cache = trim b.cache_size (put_last k ids b.cache) })
    else (ids, b)

abbrev pub encode_found :
    Encoder → CacheKey → Option (List ℕ) → BatchTokenizer → List ℕ × BatchTokenizer
encode_found e k none b = encode_miss e k b
encode_found e k (some ids) b = (ids, record b { cache = put_last k ids b.cache })

unfoldable pub encode_one : Encoder → Text → BatchTokenizer → List ℕ × BatchTokenizer
unfolding get put_last trim encode_key
encode_one e prompt b =
    let k = key_of e b prompt in
    encode_found e k (if ltb 0 b.cache_size then get k b.cache else none) b

abbrev pub moved : CacheKey → Option (List ℕ) → Cache → Cache
moved k none entries = entries
moved k (some ids) entries = put_last k ids entries

-- The loop over the prompts: what the cache has for each, and the cache with the hits moved.
unfoldable pub look_up :
    Encoder → BatchTokenizer → List Text → Cache → List (Option (List ℕ)) × Cache
unfolding get put_last
look_up e b [] entries = ([], entries)
look_up e b (p ∷ prompts) entries =
    let found = get (key_of e b p) entries in
    let (rest, entries') = look_up e b prompts (moved (key_of e b p) found entries) in
    (found ∷ rest, entries')

-- Without a cache every prompt is missing.
abbrev pub all_missing : List Text → List (Option (List ℕ))
all_missing [] = []
all_missing (p ∷ prompts) = none ∷ all_missing prompts

abbrev pub missing : List Text → List (Option (List ℕ)) → List Text
missing [] found = []
missing (p ∷ prompts) [] = []
missing (p ∷ prompts) (none ∷ found) = p ∷ missing prompts found
missing (p ∷ prompts) (some ids ∷ found) = missing prompts found

-- The one call of the tokenizer for all missing prompts.
unfoldable pub encode_missing : Encoder → BatchTokenizer → List Text → List (List ℕ)
encode_missing e b prompts =
    if should_apply_chat_template e b
    then e.encode_all false (map (e.format_for_generation b.system_prompt) prompts)
    else e.encode_all true prompts

-- The results, where a missing one takes the next list of ids, or none if there are too few.
unfoldable pub fill : List (Option (List ℕ)) → List (List ℕ) → List (List ℕ)
fill [] new = []
fill (some ids ∷ found) new = ids ∷ fill found new
fill (none ∷ found) [] = [] ∷ fill found []
fill (none ∷ found) (ids ∷ new) = ids ∷ fill found new

unfoldable pub put_all : Encoder → BatchTokenizer → List Text → List (List ℕ) → Cache → Cache
unfolding put_last
put_all e b [] new entries = entries
put_all e b (p ∷ prompts) [] entries = entries
put_all e b (p ∷ prompts) (ids ∷ new) entries =
    put_all e b prompts new (put_last (key_of e b p) ids entries)

abbrev pub encode_rest :
    Encoder
    → BatchTokenizer
    → List Text
    → List (Option (List ℕ))
    → Cache
    → List (List ℕ) × BatchTokenizer
encode_rest e b [] found entries = (fill found [], record b { cache = entries })
encode_rest e b (p ∷ prompts) found entries =
    let new = encode_missing e b (p ∷ prompts) in
    (
      fill found new,
      if ltb 0 b.cache_size
          then record b { cache = trim b.cache_size (put_all e b (p ∷ prompts) new entries) }
          else record b { cache = entries },
    )

unfoldable pub encode_batch : Encoder → List Text → BatchTokenizer → List (List ℕ) × BatchTokenizer
unfolding look_up fill put_all trim encode_missing
encode_batch e prompts b =
    let (found, entries) =
      if ltb 0 b.cache_size then look_up e b prompts b.cache else (all_missing prompts, b.cache) in
    encode_rest e b (missing prompts found) found entries

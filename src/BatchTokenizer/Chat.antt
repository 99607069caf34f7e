-- ===== src/BatchTokenizer/Chat.antt =====
-- `ChatTemplateHandler` of miniinfer/engine/detokenizer.py, as the batch tokenizer uses it: a template of
-- the tokenizer, or a plain format where it has none or the template raises.
use mini_infer.Prelude.{
  ◌≡◌, refl, ◌∙◌, true, false, Bool, ℕ, Option, none, some, List, [], ◌∷◌, ◌++◌, map, if◌then◌else◌,
}
use mini_infer.BatchTokenizer.{Text, Encoder, given}
use mini_infer.BatchTokenizer.Encoded.{IsConsistent}

pub data Role : Type 0 where
  system user assistant : Role
  named : Text → Role

pub record Message : Type 0 where
  pub role : Role
  pub content : Text

-- The tokenizer. A template may raise, which is `none`; the first argument of an encoding is
-- `add_special_tokens`.
pub record TemplateTokenizer : Type 0 where
  pub has_chat_template : Bool
  pub template_text : List Message → Bool → Option Text
  pub template_ids : List Message → Bool → Option (List ℕ)
  pub encode : Bool → Text → List ℕ
  pub encode_all : Bool → List Text → List (List ℕ)
  pub lower : Text → Text

-- "System", "User", "Assistant"
abbrev pub role_name : Role → Text
role_name system = 83 ∷ 121 ∷ 115 ∷ 116 ∷ 101 ∷ 109 ∷ []
role_name user = 85 ∷ 115 ∷ 101 ∷ 114 ∷ []
role_name assistant = 65 ∷ 115 ∷ 115 ∷ 105 ∷ 115 ∷ 116 ∷ 97 ∷ 110 ∷ 116 ∷ []
role_name (named name) = name

-- The role, ": ", the content, and a line break.
abbrev pub format_message : Message → Text
format_message m = role_name m.role ++ ((58 ∷ 32 ∷ []) ++ (m.content ++ (10 ∷ [])))

abbrev pub format_messages : List Message → Text
format_messages [] = []
format_messages (m ∷ messages) = format_message m ++ format_messages messages

unfoldable pub fallback_format : List Message → Bool → Text
fallback_format messages add_generation_prompt =
    format_messages messages
    ++ (if add_generation_prompt then role_name assistant ++ (58 ∷ 32 ∷ []) else [])

abbrev pub system_message : Text → Message
system_message content = record { role = system; content = content }

abbrev pub user_message : Text → Message
user_message content = record { role = user; content = content }

abbrev pub is_system : Role → Bool
is_system system = true
is_system user = false
is_system assistant = false
is_system (named name) = false

abbrev pub with_default : Option Text → Message → List Message → List Message
with_default none m messages = m ∷ messages
with_default (some content) m messages =
    if is_system m.role then m ∷ messages else system_message content ∷ (m ∷ messages)

-- `_process_messages`
unfoldable pub process_messages : Option Text → List Message → List Message
process_messages default_system_prompt [] = []
process_messages default_system_prompt (m ∷ messages) =
    with_default (given default_system_prompt) m messages

abbrev pub or_plain {ℓ} : {A : Type ℓ} → A → Option A → A
or_plain plain none = plain
or_plain plain (some x) = x

-- `a or b` of two optional texts, of which an empty one does not count.
abbrev pub or_text : Option Text → Option Text → Option Text
or_text none other = given other
or_text (some []) other = given other
or_text (some (x ∷ xs)) other = some (x ∷ xs)

-- A system prompt if there is one, then the prompt.
abbrev pub messages_of : Option Text → Text → List Message
messages_of none prompt = user_message prompt ∷ []
messages_of (some content) prompt = system_message content ∷ (user_message prompt ∷ [])

-- The default system prompt is filled in once, by the one or the other.
process_messages-or_text :
    (d s : Option Text) (prompt : Text)
    → process_messages d (messages_of (or_text s d) prompt)
      ≡ process_messages d (messages_of (given s) prompt)
unfolding process_messages
process_messages-or_text none none prompt = refl
process_messages-or_text none (some []) prompt = refl
process_messages-or_text none (some (x ∷ xs)) prompt = refl
process_messages-or_text (some []) none prompt = refl
process_messages-or_text (some []) (some []) prompt = refl
process_messages-or_text (some []) (some (x ∷ xs)) prompt = refl
process_messages-or_text (some (y ∷ ys)) none prompt = refl
process_messages-or_text (some (y ∷ ys)) (some []) prompt = refl
process_messages-or_text (some (y ∷ ys)) (some (x ∷ xs)) prompt = refl

module _ (t : TemplateTokenizer) (default_system_prompt : Option Text) where
  -- `apply_chat_template` with `tokenize=False`, and with `tokenize=True`.
  unfoldable pub apply_text : List Message → Bool → Text
  unfolding fallback_format process_messages
  apply_text messages add =
      if t.has_chat_template
      then or_plain (fallback_format messages add)
          (t.template_text (process_messages default_system_prompt messages) add)
      else fallback_format messages add

  unfoldable pub apply_ids : List Message → Bool → List ℕ
  unfolding fallback_format process_messages
  apply_ids messages add =
      if t.has_chat_template
      then or_plain (t.encode true (fallback_format messages add))
          (t.template_ids (process_messages default_system_prompt messages) add)
      else t.encode true (fallback_format messages add)

  unfoldable pub format_for_generation : Option Text → Text → Text
  unfolding apply_text
  format_for_generation system_prompt prompt =
      apply_text (messages_of (or_text system_prompt default_system_prompt) prompt) true

  -- What the batch tokenizer has of the handler and the tokenizer.
  unfoldable pub handler_encoder : Encoder
  unfolding apply_ids format_for_generation
  handler_encoder = record {
    has_chat_template = t.has_chat_template;
    apply_chat_template = λ system_prompt prompt. apply_ids (messages_of system_prompt prompt) true;
    format_for_generation = format_for_generation;
    encode = t.encode true;
    encode_all = t.encode_all;
    lower = t.lower;
  }

  module _
      (batches : (special : Bool) (prompts : List Text)
        → t.encode_all special prompts ≡ map (t.encode special) prompts)
      (templates : (messages : List Message)
        → (text : Text) × (t.template_text messages true ≡ some text)
          × (t.template_ids messages true ≡ some (t.encode false text))) where
    one_prompt :
        (s : Option Text) (prompt : Text)
        → t.has_chat_template ≡ true
        → t.encode false (format_for_generation s prompt)
          ≡ apply_ids (messages_of (given s) prompt) true
    unfolding apply_text apply_ids format_for_generation
    one_prompt s prompt h =
        let ms = process_messages default_system_prompt (messages_of (given s) prompt) in
        let (text, e, i) = templates ms in
        rw (h, process_messages-or_text default_system_prompt s prompt, e, i) refl

    all_prompts :
        (s : Option Text) (prompts : List Text)
        → t.has_chat_template ≡ true
        → map (t.encode false) (map (format_for_generation s) prompts)
          ≡ map (λ p. apply_ids (messages_of (given s) p) true) prompts
    all_prompts s [] h = refl
    all_prompts s (p ∷ prompts) h =
        let first = one_prompt s p h in let others = all_prompts s prompts h in cc

    pub handler_encoder-IsConsistent : IsConsistent handler_encoder
    unfolding handler_encoder
    handler_encoder-IsConsistent = record {
      plain = λ prompts. batches true prompts;
      chat = λ h s prompts.
          batches false (map (format_for_generation s) prompts) ∙ all_prompts s prompts h;
    }

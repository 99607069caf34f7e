-- ===== src/Tests/Prompts.antt =====
-- The batch tokenizer at small inputs: it encodes a code point as itself, a special token is 1, and the
-- template joins the contents.
use mini_infer.Prelude.{
  ◌≤◌, ◌≡◌, refl, Bool, true, none, some, List, [], ◌∷◌, ◌++◌, map, length, if◌then◌else◌,
}
use mini_infer.BatchTokenizer.{Text, auto, new_tokenizer}
use mini_infer.BatchTokenizer.Chat.{Message, TemplateTokenizer, handler_encoder}
use mini_infer.BatchTokenizer.Calls.{one, many, answers, plain_answer, answers-plain_answer}

abbrev joined : List Message → Text
joined [] = 2 ∷ []
joined (m ∷ messages) = m.content ++ joined messages

abbrev encode_text : Bool → Text → Text
encode_text special text = if special then 1 ∷ text else text

abbrev tokenizer : TemplateTokenizer
tokenizer = record {
  has_chat_template = true;
  template_text = λ messages add. some (joined messages);
  template_ids = λ messages add. some (joined messages);
  encode = encode_text;
  encode_all = λ special prompts. map (encode_text special) prompts;
  lower = λ text. text;
}

-- A model with "chat" in its name, and a cache for two prompts.
answers-plain_answer_example :
    let b = new_tokenizer auto (99 ∷ 104 ∷ 97 ∷ 116 ∷ []) none 2 in
    let asks =
      one (5 ∷ []) ∷ many ((5 ∷ []) ∷ (6 ∷ []) ∷ (7 ∷ []) ∷ (6 ∷ []) ∷ []) ∷ one (5 ∷ []) ∷ [] in
    let e = handler_encoder tokenizer (some (9 ∷ [])) in
    ((answers e asks b).0 ≡ map (plain_answer e b) asks) × (length (answers e asks b).1.cache ≤ 2)
answers-plain_answer_example =
    answers-plain_answer tokenizer (some (9 ∷ [])) none auto (99 ∷ 104 ∷ 97 ∷ 116 ∷ []) 2
      (one (5 ∷ []) ∷ many ((5 ∷ []) ∷ (6 ∷ []) ∷ (7 ∷ []) ∷ (6 ∷ []) ∷ []) ∷ one (5 ∷ []) ∷ [])
      (λ special prompts. refl) (λ messages. (joined messages, refl, refl))

-- ===== src/Provider/Bedrock/Answer/Resent.antt =====
-- The calls of an answer of packages/api/src/ai-provider/providers/aws-bedrock.provider.ts, when the
-- next request sends them back.
use open_vm_x_ai.Common.{
  ℕ, suc, ◌≡◌, refl, ap, ◌∙◌, Option, none, some, String, List, [], ◌∷◌, ◌++◌, map, ok,
}
use mathlib.Core.List.{append-nil}
use open_vm_x_ai.Provider.{ToolCall, Content, text_content, assistant_message}
use open_vm_x_ai.Provider.Bedrock.{Host, ToolInput, parsed, unparsed, ContentBlock, tool_use}
use open_vm_x_ai.Provider.Bedrock.Messages.{parse_tool_arguments, call_block, convert_message_parts}
use open_vm_x_ai.Provider.Bedrock.Answer.{
  Response, ResponseItem, given, given_tool, call_id, answer_of, read_items, add_item,
  reasoning_text,
}

module _ (host : Host) where
  open host use {Json, parse_json, stringify}

  -- An input that was a value is that value again, one that was a text is parsed.
  abbrev pub resent : ToolInput host → ToolInput host
  resent (parsed j) = parsed j
  resent (unparsed s) = parse_tool_arguments host s

  abbrev used : Option String → Option (String × ToolInput host) → String → List (ContentBlock host)
  used none (some (name, input)) id = tool_use name (resent input) (some id) ∷ []
  used _ _ id = []

  -- The uses of tools in a response: of each item with no text, its tool with a name and an input.
  abbrev pub tool_uses : List (ResponseItem host) → ℕ → List (ContentBlock host)
  tool_uses [] n = []
  tool_uses (item ∷ items) n =
      used (given host item.text) (given_tool host item.tool) (call_id host item.tool n)
      ++ tool_uses items (suc n)

  add_item-used :
      ((j : Json) → parse_json (stringify j) ≡ some j)
      → (text : Option String) (tool : Option (String × ToolInput host)) (id reasoning : String)
        (rest : String × List ToolCall)
      → map (call_block host) (add_item host text tool id reasoning rest).1
        ≡ used text tool id ++ map (call_block host) rest.1
  unfolding parse_tool_arguments
  add_item-used back (some s) tool id reasoning rest = refl
  add_item-used back none (some (name, parsed j)) id reasoning rest = rw (back j) refl
  add_item-used back none (some (name, unparsed s)) id reasoning rest = refl
  add_item-used back none none id reasoning rest = refl

  read_items-tool_uses :
      ((j : Json) → parse_json (stringify j) ≡ some j)
      → (items : List (ResponseItem host)) (n : ℕ)
      → map (call_block host) (read_items host items n).1 ≡ tool_uses items n
  unfolding read_items
  read_items-tool_uses back [] n = refl
  read_items-tool_uses back (item ∷ items) n =
      add_item-used back (given host item.text) (given_tool host item.tool)
        (call_id host item.tool n) (reasoning_text host item.reasoning)
        (read_items host items (suc n))
      ∙ ap
          (λ blocks.
            used (given host item.text) (given_tool host item.tool) (call_id host item.tool n)
            ++ blocks)
          (read_items-tool_uses back items (suc n))

  -- An assistant message with calls, whatever its content is.
  calls-convert :
      (content : Option Content) (calls : List ToolCall) (i : ℕ) (b : ContentBlock host)
      (bs : List (ContentBlock host))
      → map (call_block host) calls ≡ b ∷ bs
      → convert_message_parts host (assistant_message content calls none) i ≡ ok (b ∷ bs)
  unfolding convert_message_parts
  calls-convert content [] i b bs h = cc
  calls-convert content (c ∷ calls) i b bs h =
      ap ok (append-nil (map (call_block host) (c ∷ calls)) ∙ h)

  -- With a JSON.parse that reads what JSON.stringify writes: if a response has a use of a tool, then
  -- its answer, sent back as a message of the assistant, gives exactly its uses of tools, with the
  -- names, the inputs and the ids of the calls, in their order. Its text is not sent.
  pub answer_of-resent :
      ((j : Json) → parse_json (stringify j) ≡ some j)
      → (model : String) (response : Response host) (i : ℕ) (b : ContentBlock host)
        (bs : List (ContentBlock host))
      → tool_uses response.content 0 ≡ b ∷ bs
      → convert_message_parts host
          (assistant_message
            (some (text_content (answer_of host model response).content))
            (answer_of host model response).tool_calls
            none)
          i
        ≡ ok (b ∷ bs)
  unfolding answer_of
  answer_of-resent back model response i b bs h =
      let read = read_items host response.content 0 in
      calls-convert (some (text_content read.0)) read.1 i b bs
        (read_items-tool_uses back response.content 0 ∙ h)

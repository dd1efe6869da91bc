-- ===== src/Provider/Bedrock/Messages.antt =====
-- How packages/api/src/ai-provider/providers/aws-bedrock.provider.ts converts the messages of a
-- request: `convertMessages` and `convertMessageParts`.
pub mod Pieces
pub mod Order
pub mod Merged
use open_vm_x_ai.Common.{
  ℕ, suc, ◌+◌, Bool, true, false, not, ◌&&◌, ◌||◌, Option, none, some, String, List, [], ◌∷◌, ◌++◌,
  map, Result, ok, err, ◌>>=◌, any, str_eq, if◌then◌else◌,
}
use mathlib.Core.List.{reverse}
use open_vm_x_ai.Errors.{CompletionErrorData, Message, text, image_fetch_error, reason}
use open_vm_x_ai.Provider.{
  ContentPart, text_part, image_part, file_part, audio_part, refusal_part, Content, text_content,
  parts_content, ToolCall, function_call, custom_call, FunctionCall, ChatMessage, system_message,
  developer_message, user_message, assistant_message, tool_message, function_message,
}
use open_vm_x_ai.Provider.Bedrock.{
  Host, ToolInput, parsed, unparsed, ContentBlock, text_block, tool_use, tool_result, image_block,
  document_block, ConverseRole, user, assistant, ConverseMessage,
}

abbrev bad_request : String → Message → String → CompletionErrorData
bad_request code message why = record {
  code = some code;
  headers = none;
  message = message;
  rate = false;
  status_code = 400;
  retryable = false;
  retry_delay = none;
  failure_reason = some (reason why);
}

abbrev pub image_failed : String → ℕ → ℕ → CompletionErrorData
image_failed url message part =
    bad_request "aws_bedrock_image_fetch_error" (image_fetch_error url message part)
      "Failed to fetch image"

abbrev pub audio_refused : CompletionErrorData
audio_refused =
    bad_request "aws_bedrock_audio_input_not_supported"
      (text "Audio input is not supported for AWS Bedrock Converse API")
      "Audio input is not supported for AWS Bedrock Converse API"

abbrev pub part_text : ContentPart → String
part_text (text_part s) = s
part_text _ = "undefined"

-- `typeof content === 'string' ? [{ text: content }] : content.map(…)`.
abbrev pub texts_of : Content → List String
texts_of (text_content s) = s ∷ []
texts_of (parts_content ps) = map part_text ps

module _ (host : Host) where
  open host use {Json, Bytes, parse_json, fetch, decode_base64}

  abbrev Blocks : Type 0
  Blocks = Result CompletionErrorData (List (ContentBlock host))

  abbrev pub parsed_or : String → Option Json → ToolInput host
  parsed_or arguments none = unparsed arguments
  parsed_or arguments (some j) = parsed j

  -- `parseToolArguments`.
  unfoldable pub parse_tool_arguments : String → ToolInput host
  parse_tool_arguments arguments = parsed_or arguments (parse_json arguments)

  abbrev pub call_block : ToolCall → ContentBlock host
  call_block (function_call id name arguments) =
      tool_use name (parse_tool_arguments arguments) (some id)
  call_block (custom_call id name input) = tool_use name (parse_tool_arguments input) (some id)

  abbrev pub function_call_blocks : Option FunctionCall → List (ContentBlock host)
  function_call_blocks none = []
  function_call_blocks (some c) = tool_use c.name (parse_tool_arguments c.arguments) none ∷ []

  abbrev pub decode_some : Option String → Option String
  decode_some none = none
  decode_some (some data_) = if str_eq data_ "" then none else some (decode_base64 data_)

  abbrev pub image_or : String → ℕ → ℕ → Option Bytes → Blocks
  image_or url message part none = err (image_failed url message part)
  image_or url message part (some bytes) = ok (image_block bytes ∷ [])

  -- The body of the loop over the parts.
  abbrev pub part_blocks : ContentPart → ℕ → ℕ → Blocks
  part_blocks (text_part s) message part = ok (text_block s ∷ [])
  part_blocks (image_part url) message part = image_or url message part (fetch url)
  part_blocks (file_part filename file_id file_data) message part =
      ok (document_block filename file_id (decode_some file_data) ∷ [])
  part_blocks audio_part message part = err audio_refused
  part_blocks (refusal_part s) message part = ok []

  unfoldable pub convert_parts : List ContentPart → ℕ → ℕ → Blocks
  convert_parts [] message part = ok []
  convert_parts (p ∷ ps) message part = do
    here ← part_blocks p message part
    rest ← convert_parts ps message (suc part)
    ok (here ++ rest)

  -- The last branches, for a content that is a text or has parts.
  unfoldable pub convert_content : Option Content → ℕ → Blocks
  unfolding convert_parts
  convert_content none message = ok []
  convert_content (some (text_content s)) message =
      if str_eq s "" then ok [] else ok (text_block s ∷ [])
  convert_content (some (parts_content ps)) message = convert_parts ps message 0

  -- `message.tool_calls?.length || message.function_call`.
  abbrev pub has_calls : List ToolCall → Option FunctionCall → Bool
  has_calls [] none = false
  has_calls _ _ = true

  abbrev non_empty : Option String → List String
  non_empty none = []
  non_empty (some s) = if str_eq s "" then [] else s ∷ []

  -- `convertMessageParts`, of the message with this index.
  unfoldable pub convert_message_parts : ChatMessage → ℕ → Blocks
  unfolding convert_content parse_tool_arguments
  convert_message_parts (assistant_message content calls call) i =
      if has_calls calls call
      then ok (map call_block calls ++ function_call_blocks call)
      else convert_content content i
  convert_message_parts (tool_message id content) i =
      ok (tool_result (some id) (texts_of content) ∷ [])
  convert_message_parts (function_message content) i =
      ok (tool_result none (non_empty content) ∷ [])
  convert_message_parts (system_message content) i = convert_content (some content) i
  convert_message_parts (developer_message content) i = convert_content (some content) i
  convert_message_parts (user_message content) i = convert_content (some content) i

  abbrev pub is_tool_result : ContentBlock host → Bool
  is_tool_result (tool_result _ _) = true
  is_tool_result _ = false

  -- `(lastMessage.content ?? []).some((block) => block.toolResult)`.
  abbrev pub has_tool_result : ConverseMessage host → Bool
  has_tool_result m = any is_tool_result m.content

  abbrev pub message_with : ConverseRole → List (ContentBlock host) → ConverseMessage host
  message_with role content = record { role = role; content = content }

  -- The branch of a tool's message: its result joins those of the message before it.
  abbrev pub push_result :
      List (ContentBlock host) → List (ConverseMessage host) → List (ConverseMessage host)
  push_result blocks [] = message_with user blocks ∷ []
  push_result blocks (last ∷ before) =
      if has_tool_result last
      then message_with last.role (last.content ++ blocks) ∷ before
      else message_with user blocks ∷ last ∷ before

  -- The body of the loop, on the messages so far, the last one first. Messages of the system are
  -- skipped, and so are those of functions.
  unfoldable pub convert_step :
      ChatMessage
      → ℕ
      → List (ConverseMessage host)
      → Result CompletionErrorData (List (ConverseMessage host))
  unfolding convert_message_parts
  convert_step (system_message _) i done = ok done
  convert_step (developer_message _) i done = ok done
  convert_step (user_message content) i done =
      convert_message_parts (user_message content) i >>= λ blocks.
      ok (message_with user blocks ∷ done)
  convert_step (assistant_message content calls call) i done =
      convert_message_parts (assistant_message content calls call) i >>= λ blocks.
      ok (message_with assistant blocks ∷ done)
  convert_step (tool_message id content) i done =
      convert_message_parts (tool_message id content) i >>= λ blocks. ok (push_result blocks done)
  convert_step (function_message _) i done = ok done

  unfoldable pub convert_loop :
      List ChatMessage
      → ℕ
      → List (ConverseMessage host)
      → Result CompletionErrorData (List (ConverseMessage host))
  unfolding convert_step
  convert_loop [] i done = ok (reverse done)
  convert_loop (m ∷ ms) i done = convert_step m i done >>= convert_loop ms (suc i)

  -- `convertMessages`.
  unfoldable pub convert_messages :
      List ChatMessage → Result CompletionErrorData (List (ConverseMessage host))
  unfolding convert_loop
  convert_messages messages = convert_loop messages 0 []

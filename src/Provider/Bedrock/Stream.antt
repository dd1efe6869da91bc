-- ===== src/Provider/Bedrock/Stream.antt =====
-- Streams of packages/api/src/ai-provider/providers/aws-bedrock.provider.ts: `convertStream`.
pub mod Joined
use open_vm_x_ai.Common.{
  ℕ, Bool, Option, none, some, get_or, String, List, [], ◌∷◌, Result, ok, err, str_eq,
  if◌then◌else◌,
}
use open_vm_x_ai.Errors.{CompletionErrorData}
use open_vm_x_ai.Provider.Bedrock.Failure.{BedrockError, handle_error}

pub data StopReason : Type 0 where
  content_filtered end_turn guardrail_intervened malformed_model_output malformed_tool_use
        max_tokens model_context_window_exceeded stop_sequence tool_use_stop :
      StopReason

pub data FinishReason : Type 0 where
  stop length tool_calls content_filter : FinishReason

-- `STOP_REASONS_MAP`.
abbrev pub finish_reason : StopReason → FinishReason
finish_reason content_filtered = content_filter
finish_reason end_turn = stop
finish_reason guardrail_intervened = stop
finish_reason malformed_model_output = stop
finish_reason malformed_tool_use = tool_calls
finish_reason max_tokens = length
finish_reason model_context_window_exceeded = length
finish_reason stop_sequence = stop
finish_reason tool_use_stop = tool_calls

pub record TokenUsage : Type 0 where
  pub input_tokens : Option ℕ
  pub output_tokens : Option ℕ
  pub total_tokens : Option ℕ
  pub cache_read_input_tokens : Option ℕ

pub record ChatUsage : Type 0 where
  pub completion_tokens : ℕ
  pub prompt_tokens : ℕ
  pub total_tokens : ℕ
  pub cached_tokens : ℕ

-- `convertUsage`.
unfoldable pub convert_usage : Option TokenUsage → Option ChatUsage
convert_usage none = none
convert_usage (some u) = some (record {
  completion_tokens = get_or u.output_tokens 0;
  prompt_tokens = get_or u.input_tokens 0;
  total_tokens = get_or u.total_tokens 0;
  cached_tokens = get_or u.cache_read_input_tokens 0;
})

-- An item of the stream, which has one of these. The index of a block may be missing.
pub data StreamItem : Type 0 where
  message_start block_stop other_item : StreamItem
  tool_start : (index : Option ℕ) (name id : Option String) → StreamItem
  other_start : StreamItem
  text_delta : String → StreamItem
  tool_delta : (index : Option ℕ) (input : Option String) → StreamItem
  other_delta : StreamItem
  message_stop : Option StopReason → StreamItem
  metadata : Option TokenUsage → StreamItem
  failure : BedrockError → StreamItem

pub record ToolCallDelta : Type 0 where
  pub index : ℕ
  pub id : Option String
  pub name : Option String
  pub arguments : String

pub record Choice : Type 0 where
  pub content : Option String
  pub tool_calls : List ToolCallDelta
  pub finish : Option FinishReason

-- A chunk: its only choice, if it has one, and its usage.
pub record Chunk : Type 0 where
  pub choice : Option Choice
  pub usage : Option ChatUsage

abbrev pub bare : Chunk
bare = record { choice = none; usage = none }

abbrev pub with_choice : Choice → Chunk
with_choice c = record { choice = some c; usage = none }

abbrev pub tool_choice : ToolCallDelta → Choice
tool_choice call = record { content = some ""; tool_calls = call ∷ []; finish = none }

-- The body of the loop, for an item that is no failure: `continue` is `none`.
unfoldable pub chunk_of : StreamItem → Option Chunk
unfolding convert_usage
chunk_of message_start = none
chunk_of block_stop = none
chunk_of (tool_start index name id) = some (
    with_choice
      (tool_choice (record { index = get_or index 0; id = id; name = name; arguments = "" })))
chunk_of (text_delta s) =
    if str_eq s ""
    then some bare
    else some (with_choice (record { content = some s; tool_calls = []; finish = none }))
chunk_of (tool_delta index input) = some (
    with_choice (
      tool_choice
        (record { index = get_or index 0; id = none; name = none; arguments = get_or input "" })))
chunk_of (message_stop (some why)) =
    some
      (with_choice (record { content = none; tool_calls = []; finish = some (finish_reason why) }))
chunk_of (metadata usage) = some (record { choice = none; usage = convert_usage usage })
chunk_of _ = some bare

abbrev pub yield_some :
    Option Chunk → List Chunk × Option CompletionErrorData → List Chunk × Option CompletionErrorData
yield_some none rest = rest
yield_some (some c) (chunks, thrown) = (c ∷ chunks, thrown)

-- `convertStream`: the chunks that it yields, and what it throws after them, if anything.
unfoldable pub convert_stream : List StreamItem → List Chunk × Option CompletionErrorData
unfolding chunk_of
convert_stream [] = ([], none)
convert_stream (failure e ∷ items) = ([], some (handle_error e))
convert_stream (item ∷ items) = yield_some (chunk_of item) (convert_stream items)

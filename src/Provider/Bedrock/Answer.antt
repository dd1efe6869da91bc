-- ===== src/Provider/Bedrock/Answer.antt =====
-- The answer that is no stream: the end of `completion` of
-- packages/api/src/ai-provider/providers/aws-bedrock.provider.ts.
pub mod Resent
use Prim.Native.String.{◌++◌}
use open_vm_x_ai.Common.{
  ℕ, suc, Bool, true, false, not, Option, none, some, get_or, String, List, [], ◌∷◌, str_eq,
  if◌then◌else◌,
}
use open_vm_x_ai.Errors.{CompletionHeaders}
use open_vm_x_ai.Provider.{ToolCall, function_call}
use open_vm_x_ai.Provider.Bedrock.{Host, ToolInput, parsed, unparsed}
use open_vm_x_ai.Provider.Bedrock.Failure.{request_id_header}
use open_vm_x_ai.Provider.Bedrock.Stream.{
  StopReason, FinishReason, stop, finish_reason, TokenUsage, ChatUsage, convert_usage,
}

-- A message of the answer with no calls has `tool_calls` undefined: here it is the empty list.
pub record Answer : Type 0 where
  pub id : String
  pub model : String
  pub usage : Option ChatUsage
  pub content : String
  pub tool_calls : List ToolCall
  pub finish : FinishReason
  pub headers : CompletionHeaders

module _ (host : Host) where
  open host use {Reasoning, stringify, is_truthy, reasoning_string, uuid}

  pub record ToolUse : Type 0 where
    pub name : Option String
    pub input : Option (ToolInput host)
    pub id : Option String

  -- An item of `content`; the text of its reasoning may be missing.
  pub record ResponseItem : Type 0 where
    pub text : Option String
    pub tool : Option ToolUse
    pub reasoning : Option (Option Reasoning)

  pub record Response : Type 0 where
    pub extended_request_id : Option String
    pub request_id : Option String
    pub content : List ResponseItem
    pub usage : Option TokenUsage
    pub stop_reason : Option StopReason

  -- A text that is given and is not empty.
  abbrev pub given : Option String → Option String
  given none = none
  given (some s) = if str_eq s "" then none else some s

  abbrev pub given_input : Option (ToolInput host) → Option (ToolInput host)
  given_input none = none
  given_input (some (unparsed s)) = if str_eq s "" then none else some (unparsed s)
  given_input (some (parsed j)) = if is_truthy j then some (parsed j) else none

  abbrev pub both {ℓ κ} : {A : Type ℓ} {B : Type κ} → Option A → Option B → Option (A × B)
  both (some a) (some b) = some (a, b)
  both _ _ = none

  -- `item.toolUse && item.toolUse.name && item.toolUse.input`.
  abbrev pub given_tool : Option ToolUse → Option (String × ToolInput host)
  given_tool none = none
  given_tool (some t) = both (given t.name) (given_input t.input)

  abbrev pub call_id : Option ToolUse → ℕ → String
  call_id (some t) n = get_or t.id (uuid (suc n))
  call_id none n = uuid (suc n)

  abbrev pub input_text : ToolInput host → String
  input_text (unparsed s) = s
  input_text (parsed j) = stringify j

  abbrev pub reasoning_text : Option (Option Reasoning) → String
  reasoning_text (some (some r)) = reasoning_string r
  reasoning_text _ = ""

  -- The branches for one item: its text, its tool with the id of the call, and its reasoning.
  abbrev pub add_item :
      Option String
      → Option (String × ToolInput host)
      → String
      → String
      → String × List ToolCall
      → String × List ToolCall
  add_item (some s) tool id reasoning (content, calls) = (s ++ content, calls)
  add_item none (some (name, input)) id reasoning (content, calls) =
      (content, function_call id name (input_text input) ∷ calls)
  add_item none none id reasoning (content, calls) = (reasoning ++ content, calls)

  -- The loop over the items: the content and the calls, from the item with this index on.
  unfoldable pub read_items : List ResponseItem → ℕ → String × List ToolCall
  read_items [] n = ("", [])
  read_items (item ∷ items) n =
      add_item (given item.text) (given_tool item.tool) (call_id item.tool n)
        (reasoning_text item.reasoning) (read_items items (suc n))

  abbrev pub finish_or_stop : Option StopReason → FinishReason
  finish_or_stop none = stop
  finish_or_stop (some why) = finish_reason why

  unfoldable pub answer_of : String → Response → Answer
  unfolding read_items convert_usage
  answer_of model response =
      let (content, calls) = read_items response.content 0 in
      record {
        id = get_or response.extended_request_id ("awsbedrock-" ++ uuid 0);
        model = model;
        usage = convert_usage response.usage;
        content = content;
        tool_calls = calls;
        finish = finish_or_stop response.stop_reason;
        headers = request_id_header response.request_id;
      }

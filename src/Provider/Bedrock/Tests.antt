-- ===== src/Provider/Bedrock/Tests.antt =====
-- The adapter to AWS Bedrock on a dialogue with two calls of tools, and the theorems at such inputs.
use open_vm_x_ai.Common.{
  lookup, insert, true, ◌≡◌, refl, Option, none, some, String, List, [], ◌∷◌, ok, err, ◌||◌, ◌&&◌,
  includes, str_eq, if◌then◌else◌,
}
use open_vm_x_ai.Provider.{
  image_part, text_part, text_content, parts_content, function_call, ChatMessage, system_message,
  user_message, assistant_message, tool_message, function_tool, custom_tool, allowed_choice,
  AllowedTool, RequestTool,
}
use open_vm_x_ai.Provider.Bedrock.{
  Host, parsed, ContentBlock, text_block, tool_use, tool_result, user, assistant, ConverseMessage,
}
use open_vm_x_ai.Provider.Bedrock.Messages.{convert_message_parts, convert_messages, image_failed}
use open_vm_x_ai.Provider.Bedrock.Messages.Pieces.{up_to_failure, all_pieces}
use open_vm_x_ai.Provider.Bedrock.Messages.Order.{contents, map_ok, convert_messages-contents}
use open_vm_x_ai.Provider.Bedrock.Messages.Merged.{AreMerged, convert_messages-AreMerged}
use open_vm_x_ai.Provider.Bedrock.Tools.{convert_tools}
use open_vm_x_ai.Provider.Bedrock.Tools.Allowed.{
  offered, tool_names, function_names, is_allowed, convert_tools-offered,
}
use open_vm_x_ai.Provider.Bedrock.Failure.{exception, throttling}
use open_vm_x_ai.Provider.Bedrock.Stream.{
  StreamItem, message_start, text_delta, tool_start, tool_delta, message_stop, failure,
  tool_use_stop, convert_stream,
}
use open_vm_x_ai.Provider.Bedrock.Stream.Joined.{
  joined_text, joined_arguments, sent_text, sent_arguments, first_failure, convert_stream-joined,
}
use open_vm_x_ai.Provider.Bedrock.Credentials.{
  BedrockConnection, create_client, cache_after, get_aws_sdk_credentials, client_for,
}
use open_vm_x_ai.Provider.Bedrock.Credentials.First.{expected_client, create_client-expected}
use open_vm_x_ai.Provider.Bedrock.Answer.{ResponseItem, Response, answer_of}
use open_vm_x_ai.Provider.Bedrock.Answer.Resent.{answer_of-resent}

-- Two values of JSON.
data Value : Type 0 where
  object array : Value

abbrev text_of : Value → String
text_of object = "{}"
text_of array = "[]"

abbrev value_of : String → Option Value
value_of s = if str_eq s "{}" then some object else if str_eq s "[]" then some array else none

abbrev fetched : String → Option String
fetched url = if str_eq url "https://a.png" then some "bytes" else none

abbrev a_host : Host
a_host = record {
  Json = Value;
  Bytes = String;
  Reasoning = String;
  parse_json = value_of;
  stringify = text_of;
  is_truthy = λ _. true;
  fetch = fetched;
  decode_base64 = λ s. s;
  reasoning_string = λ s. s;
  uuid = λ _. "uuid";
}

-- Two calls and their results.
abbrev dialogue : List ChatMessage
dialogue =
    system_message (text_content "be brief")
    ∷ user_message (text_content "weather?")
    ∷ assistant_message none (function_call "1" "weather" "{}" ∷ function_call "2" "time" "[]" ∷ [])
        none
    ∷ tool_message "1" (text_content "sun")
    ∷ tool_message "2" (text_content "noon")
    ∷ []

abbrev calls : List (ContentBlock a_host)
calls =
    tool_use "weather" (parsed object) (some "1") ∷ tool_use "time" (parsed array) (some "2") ∷ []

abbrev results : List (ContentBlock a_host)
results = tool_result (some "1") ("sun" ∷ []) ∷ tool_result (some "2") ("noon" ∷ []) ∷ []

abbrev dialogue_sent : List (ConverseMessage a_host)
dialogue_sent =
    record { role = user; content = text_block "weather?" ∷ [] }
    ∷ record { role = assistant; content = calls }
    ∷ record { role = user; content = results }
    ∷ []

dialogue_sent_run : convert_messages a_host dialogue ≡ ok dialogue_sent
unfolding convert_messages
dialogue_sent_run = refl

convert_messages-contents_example :
    map_ok a_host (contents a_host) (convert_messages a_host dialogue)
    ≡ up_to_failure a_host (all_pieces a_host dialogue 0)
convert_messages-contents_example = convert_messages-contents a_host dialogue

convert_messages-AreMerged_example : AreMerged a_host dialogue_sent
convert_messages-AreMerged_example =
    convert_messages-AreMerged a_host dialogue dialogue_sent dialogue_sent_run

-- An image that cannot be fetched.
image_failed_run :
    convert_messages a_host
      (user_message (parts_content (text_part "see" ∷ image_part "b" ∷ [])) ∷ [])
    ≡ err (image_failed "b" 0 1)
unfolding convert_messages
image_failed_run = refl

abbrev tools : List RequestTool
tools = function_tool "weather" none none ∷ custom_tool ∷ function_tool "time" none none ∷ []

-- One allowed tool in the documented form, and one with a name of its own.
abbrev nested_tool : AllowedTool
nested_tool = record { name = none; function_name = some "weather" }

abbrev named_tool : AllowedTool
named_tool = record { name = some "time"; function_name = none }

convert_tools-offered_example :
    includes
      (offered (convert_tools tools [] (some (allowed_choice (named_tool ∷ nested_tool ∷ [])))))
      "weather"
    ≡ ((includes (tool_names tools) "weather" || includes (function_names []) "weather")
        && is_allowed (some (allowed_choice (named_tool ∷ nested_tool ∷ []))) "weather")
convert_tools-offered_example =
    convert_tools-offered tools [] (some (allowed_choice (named_tool ∷ nested_tool ∷ []))) "weather"
      refl

-- A stream that fails after a part of the arguments.
abbrev items : List StreamItem
items =
    message_start
    ∷ text_delta "I will "
    ∷ text_delta "look"
    ∷ tool_start (some 1) (some "weather") (some "1")
    ∷ tool_delta (some 1) (some "{\"city\"")
    ∷ tool_delta (some 1) (some ": 1}")
    ∷ message_stop (some tool_use_stop)
    ∷ failure (exception throttling "slow down" none none)
    ∷ text_delta "!"
    ∷ []

items_joined : joined_text (convert_stream items).0 ≡ "I will look"
unfolding convert_stream
items_joined = refl

convert_stream-joined_example :
    joined_text (convert_stream items).0 ≡ sent_text items
    × joined_arguments 1 (convert_stream items).0 ≡ sent_arguments 1 items
    × (convert_stream items).1 ≡ first_failure items
convert_stream-joined_example = convert_stream-joined 1 items

-- Connections of two workspaces with one role.
abbrev connection_of : String → BedrockConnection
connection_of workspace = record {
  workspace_id = workspace;
  environment_id = "dev";
  config = some (record { region = "us-east-1"; iam_role_arn = "arn:role"; performance = none });
}

create_client-expected_example :
    (create_client (cache_after (connection_of "first" ∷ []) []) (connection_of "second")).0
    ≡ expected_client
        (connection_of "first" ∷ [])
        (connection_of "second")
        (connection_of "second").config
create_client-expected_example =
    create_client-expected (connection_of "first" ∷ []) (connection_of "second")

external_id_of_first :
    (create_client
      (cache_after (connection_of "first" ∷ []) [])
      (connection_of "second")).0.credentials
    ≡ some (record { role_arn = "arn:role"; external_id = "first:dev" })
unfolding create_client cache_after get_aws_sdk_credentials client_for lookup insert
external_id_of_first = refl

-- A text and a call.
abbrev item_of : Option String → Option String → ResponseItem a_host
item_of text name = record {
  text = text;
  tool = some (record { name = name; input = some (parsed object); id = some "1" });
  reasoning = none;
}

abbrev a_response : Response a_host
a_response = record {
  extended_request_id = none;
  request_id = some "r";
  content = item_of (some "I will look") none ∷ item_of none (some "weather") ∷ [];
  usage = none;
  stop_reason = some tool_use_stop;
}

json_back : (j : Value) → value_of (text_of j) ≡ some j
json_back object = refl
json_back array = refl

answer_of-resent_example :
    convert_message_parts a_host
      (assistant_message
        (some (text_content (answer_of a_host "m" a_response).content))
        (answer_of a_host "m" a_response).tool_calls
        none)
      3
    ≡ ok (tool_use "weather" (parsed object) (some "1") ∷ [])
answer_of-resent_example =
    answer_of-resent a_host json_back "m" a_response 3
      (tool_use "weather" (parsed object) (some "1")) [] refl

-- ===== src/Provider/Bedrock/Converse.antt =====
-- `completion` of packages/api/src/ai-provider/providers/aws-bedrock.provider.ts: the body of the
-- request, the call of the API and the two kinds of answer.

use Prim.Native.String.{◌++◌}
use open_vm_x_ai.Common.{
  ℕ, Bool, true, false, Option, none, some, String, List, [], ◌∷◌, Result, ok, err, ◌>>=◌, str_eq,
  if◌then◌else◌,
}
use open_vm_x_ai.Errors.{CompletionErrorData, CompletionHeaders, text, reason}
use open_vm_x_ai.Provider.{
  ContentPart, text_part, Content, text_content, parts_content, ChatMessage, system_message,
  developer_message, RequestTool, RequestFunction, Stop, one_stop, many_stops, ChatRequest,
}
use open_vm_x_ai.Provider.Bedrock.{Host, ConverseMessage}
use open_vm_x_ai.Provider.Bedrock.Messages.{convert_messages}
use open_vm_x_ai.Provider.Bedrock.Tools.{ToolSpec, convert_tools, ToolChoice, convert_tool_choice}
use open_vm_x_ai.Provider.Bedrock.Failure.{BedrockError, handle_error, request_id_header}
use open_vm_x_ai.Provider.Bedrock.Stream.{StreamItem, Chunk, convert_stream}
use open_vm_x_ai.Provider.Bedrock.Credentials.{
  BedrockConfig, BedrockConnection, Client, CachedProviders, create_client,
}
use open_vm_x_ai.Provider.Bedrock.Answer.{Response, Answer, answer_of}

pub record InferenceConfig : Type 0 where
  pub top_p : Option String
  pub max_tokens : Option ℕ
  pub stop_sequences : Option (List String)
  pub temperature : Option String

pub record ToolConfig : Type 0 where
  pub tools : Option (List ToolSpec)
  pub choice : Option ToolChoice

-- `ConverseCommandInput`.
pub record ConverseRequest (host : Host) : Type 0 where
  pub model_id : String
  pub inference : InferenceConfig
  pub performance : Option (Option String)
  pub messages : List (ConverseMessage host)
  pub system : List String
  pub tools : Option ToolConfig

-- What the command of a stream gives; the stream may be missing.
pub record StreamStart : Type 0 where
  pub stream : Option (List StreamItem)
  pub request_id : Option String

-- `client.send`, of the two commands.
pub record Api (host : Host) : Type 0 where
  pub send : Client → ConverseRequest host → Result BedrockError (Response host)
  pub send_stream : Client → ConverseRequest host → Result BedrockError StreamStart

pub data Completion : Type 0 where
  answered : Answer → Completion
  streaming : List Chunk × Option CompletionErrorData → CompletionHeaders → Completion

abbrev stop_sequences_of : Option Stop → Option (List String)
stop_sequences_of none = none
stop_sequences_of (some (one_stop s)) = if str_eq s "" then none else some (s ∷ [])
stop_sequences_of (some (many_stops ss)) = some ss

-- `a ?? b`.
abbrev or_given : Option ℕ → Option ℕ → Option ℕ
or_given none later = later
or_given (some n) later = some n

abbrev line_of : ContentPart → String
line_of (text_part s) = s
line_of _ = ""

-- `.join('\n')` of the texts of the parts.
abbrev joined_lines : List ContentPart → String
joined_lines [] = ""
joined_lines (p ∷ []) = line_of p
joined_lines (p ∷ q ∷ ps) = line_of p ++ "\n" ++ joined_lines (q ∷ ps)

abbrev system_text : Content → String
system_text (text_content s) = s
system_text (parts_content ps) = joined_lines ps

-- `system`: the texts of the messages of the system and of the developer.
unfoldable pub system_texts : List ChatMessage → List String
system_texts [] = []
system_texts (system_message content ∷ ms) = system_text content ∷ system_texts ms
system_texts (developer_message content ∷ ms) = system_text content ∷ system_texts ms
system_texts (_ ∷ ms) = system_texts ms

abbrev latency_of : Option BedrockConfig → Option (Option String)
latency_of none = none
latency_of (some config) = config.performance

unfoldable pub inference_of : ChatRequest → InferenceConfig
inference_of request = record {
  top_p = request.top_p;
  max_tokens = or_given request.max_completion_tokens request.max_tokens;
  stop_sequences = stop_sequences_of request.stop;
  temperature = request.temperature;
}

abbrev has_tools : List RequestTool → List RequestFunction → Bool
has_tools [] [] = false
has_tools _ _ = true

unfoldable pub tool_config : ChatRequest → Option ToolConfig
unfolding convert_tools convert_tool_choice
tool_config request =
    if has_tools request.tools request.functions
    then some (record {
      tools = convert_tools request.tools request.functions request.tool_choice;
      choice = convert_tool_choice request.tool_choice request.function_call_choice;
    })
    else none

abbrev failed_to_start : CompletionErrorData
failed_to_start = record {
  code = some "aws_bedrock_failed_to_start_stream";
  headers = none;
  message = text "Failed to start the stream";
  rate = false;
  status_code = 500;
  retryable = false;
  retry_delay = none;
  failure_reason = some (reason "Failed to start the stream");
}

module _ (host : Host) where
  -- `requestBody`, for the messages that are converted.
  unfoldable pub request_body :
      ChatRequest → BedrockConnection → String → Result CompletionErrorData (ConverseRequest host)
  unfolding inference_of tool_config system_texts convert_messages
  request_body request connection model = do
    messages ← convert_messages host request.messages
    ok (record {
      model_id = model;
      inference = inference_of request;
      performance = latency_of connection.config;
      messages = messages;
      system = system_texts request.messages;
      tools = tool_config request;
    })

  -- `catch`: an error of the client is converted.
  abbrev pub caught {ℓ} : {A : Type ℓ} → Result BedrockError A → Result CompletionErrorData A
  caught (ok a) = ok a
  caught (err e) = err (handle_error e)

  abbrev pub started :
      StreamStart → Option (List StreamItem) → Result CompletionErrorData Completion
  started start none = err failed_to_start
  started start (some items) =
      ok (streaming (convert_stream items) (request_id_header start.request_id))

  module _ (api : Api host) where
    abbrev pub sent :
        Client → Bool → String → ConverseRequest host → Result CompletionErrorData Completion
    sent client true model body = do
      start ← caught (api.send_stream client body)
      started start start.stream
    sent client false model body = do
      response ← caught (api.send client body)
      ok (answered (answer_of host model response))

    -- `completion`: the answer, and the map of the providers after it.
    unfoldable pub completion :
        CachedProviders
        → ChatRequest
        → BedrockConnection
        → String
        → Result CompletionErrorData Completion × CachedProviders
    unfolding request_body
    completion cache request connection model =
        let (client, later) = create_client cache connection in
        (request_body request connection model >>= sent client request.stream model, later)

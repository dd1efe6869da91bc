-- ===== src/Provider.antt =====
-- packages/api/src/ai-provider: the adapters to the clients of the vendors.
-- This file has the parts of a request in the format of OpenAI that the adapters read.
pub mod Bedrock
pub mod OpenAi
use open_vm_x_ai.Common.{ℕ, Bool, Option, String, List}

pub data ContentPart : Type 0 where
  text_part : String → ContentPart
  image_part : (url : String) → ContentPart
  file_part : (filename file_id file_data : Option String) → ContentPart
  audio_part : ContentPart
  refusal_part : String → ContentPart

pub data Content : Type 0 where
  text_content : String → Content
  parts_content : List ContentPart → Content

-- `arguments` of a function and `input` of a custom tool.
pub data ToolCall : Type 0 where
  function_call custom_call : (id name arguments : String) → ToolCall

pub record FunctionCall : Type 0 where
  pub name : String
  pub arguments : String

-- A message by its role. `tool_calls` that is undefined has no elements.
pub data ChatMessage : Type 0 where
  system_message developer_message user_message : Content → ChatMessage
  assistant_message :
      (content : Option Content) (tool_calls : List ToolCall) (call : Option FunctionCall)
      → ChatMessage
  tool_message : (tool_call_id : String) → Content → ChatMessage
  function_message : (content : Option String) → ChatMessage

-- A tool of the request: a function, or one of another type.
pub data RequestTool : Type 0 where
  function_tool : (name : String) (description parameters : Option String) → RequestTool
  custom_tool : RequestTool

pub record RequestFunction : Type 0 where
  pub name : String
  pub description : Option String
  pub parameters : Option String

-- A tool of an allowed list: the API documents `{type, function: {name}}`, which has no name of its
-- own.
pub record AllowedTool : Type 0 where
  pub name : Option String
  pub function_name : Option String

-- `tool_choice`.
pub data RequestToolChoice : Type 0 where
  auto_choice required_choice none_choice custom_choice : RequestToolChoice
  function_choice : String → RequestToolChoice
  allowed_choice : List AllowedTool → RequestToolChoice

-- `function_call` of a request.
pub data RequestFunctionCall : Type 0 where
  auto_call none_call : RequestFunctionCall
  named_call : String → RequestFunctionCall

pub data Stop : Type 0 where
  one_stop : String → Stop
  many_stops : List String → Stop

-- Numbers between 0 and 2 are kept as their texts.
pub record ChatRequest : Type 0 where
  pub messages : List ChatMessage
  pub tools : List RequestTool
  pub functions : List RequestFunction
  pub tool_choice : Option RequestToolChoice
  pub function_call_choice : Option RequestFunctionCall
  pub top_p : Option String
  pub temperature : Option String
  pub max_completion_tokens : Option ℕ
  pub max_tokens : Option ℕ
  pub stop : Option Stop
  pub stream : Bool

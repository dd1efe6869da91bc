-- ===== src/Provider/Bedrock.antt =====
-- packages/api/src/ai-provider/providers/aws-bedrock.provider.ts: the adapter to the Converse API of
-- AWS Bedrock. This file has what the API takes and gives, as far as the adapter names it.
pub mod Messages
pub mod Tools
pub mod Stream
pub mod Failure
pub mod Credentials
pub mod Answer
pub mod Converse
mod Tests
use open_vm_x_ai.Common.{ℕ, Bool, Option, String, List}

-- What the adapter calls: JSON.parse (none if it throws) and JSON.stringify, whether a value counts as
-- true, fetch of an image (none if it throws), the decoding of base64, what an object of reasoning gives
-- when it is added to a text, and the identifiers of uuidv4: 0 for an answer, n + 1 for its item n.
pub record Host : Type 1 where
  pub Json : Type 0
  pub Bytes : Type 0
  pub Reasoning : Type 0
  pub parse_json : String → Option Json
  pub stringify : Json → String
  pub is_truthy : Json → Bool
  pub fetch : String → Option Bytes
  pub decode_base64 : String → String
  pub reasoning_string : Reasoning → String
  pub uuid : ℕ → String

module _ (host : Host) where
  open host use {Json, Bytes}

  -- The input of a tool: the value that is parsed, or the text where it is not JSON.
  pub data ToolInput : Type 0 where
    parsed : Json → ToolInput
    unparsed : String → ToolInput

  pub data ContentBlock : Type 0 where
    text_block : String → ContentBlock
    tool_use : (name : String) (input : ToolInput) (id : Option String) → ContentBlock
    tool_result : (id : Option String) (texts : List String) → ContentBlock
    image_block : Bytes → ContentBlock
    document_block : (name context text : Option String) → ContentBlock

pub data ConverseRole : Type 0 where
  user assistant : ConverseRole

pub record ConverseMessage (host : Host) : Type 0 where
  pub role : ConverseRole
  pub content : List (ContentBlock host)

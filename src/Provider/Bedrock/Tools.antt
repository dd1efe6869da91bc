-- ===== src/Provider/Bedrock/Tools.antt =====
-- The tools of a request in packages/api/src/ai-provider/providers/aws-bedrock.provider.ts:
-- `convertTools` and `convertToolChoice`.
pub mod Allowed
use open_vm_x_ai.Common.{
  Bool, true, false, not, ◌&&◌, ◌||◌, Option, none, some, String, List, [], ◌∷◌, ◌++◌, map,
  includes, str_eq, if◌then◌else◌,
}
use open_vm_x_ai.Provider.{
  RequestTool, function_tool, custom_tool, RequestFunction, RequestToolChoice, auto_choice,
  required_choice, none_choice, custom_choice, function_choice, allowed_choice, RequestFunctionCall,
  auto_call, none_call, named_call,
}

-- `toolSpec`.
pub record ToolSpec : Type 0 where
  pub name : String
  pub description : Option String
  pub parameters : Option String

-- `.map((tool) => tool.name).filter((name) => name !== undefined)`.
abbrev pub defined_names : List (Option String) → List String
defined_names [] = []
defined_names (none ∷ names) = defined_names names
defined_names (some n ∷ names) = n ∷ defined_names names

-- `allowedTools`: undefined if the choice is no list of tools.
abbrev pub allowed_tools : Option RequestToolChoice → Option (List String)
allowed_tools (some (allowed_choice tools)) = some (defined_names (map (λ t. t.name) tools))
allowed_tools _ = none

-- `name && (shouldFilterTools ? !allowedTools.includes(name) : false)`.
abbrev pub is_filtered : Option (List String) → String → Bool
is_filtered none name = false
is_filtered (some allowed) name = not (str_eq name "") && not (includes allowed name)

-- The body of the loop over the tools: one that is no function, or has no name, is left out.
unfoldable pub tool_specs : Option (List String) → List RequestTool → List ToolSpec
tool_specs allowed [] = []
tool_specs allowed (custom_tool ∷ tools) = tool_specs allowed tools
tool_specs allowed (function_tool name description parameters ∷ tools) =
    let rest = tool_specs allowed tools in
    if is_filtered allowed name || str_eq name ""
    then rest
    else record { name = name; description = description; parameters = parameters } ∷ rest

unfoldable pub function_specs : Option (List String) → List RequestFunction → List ToolSpec
function_specs allowed [] = []
function_specs allowed (f ∷ functions) =
    let rest = function_specs allowed functions in
    if is_filtered allowed f.name
    then rest
    else record { name = f.name; description = f.description; parameters = f.parameters } ∷ rest

-- `tools.length > 0 ? tools : undefined`.
abbrev pub if_any : List ToolSpec → Option (List ToolSpec)
if_any [] = none
if_any (t ∷ ts) = some (t ∷ ts)

-- `convertTools`.
unfoldable pub convert_tools :
    List RequestTool → List RequestFunction → Option RequestToolChoice → Option (List ToolSpec)
unfolding tool_specs function_specs
convert_tools [] [] choice = none
convert_tools tools functions choice =
    if_any
      (tool_specs (allowed_tools choice) tools ++ function_specs (allowed_tools choice) functions)

-- `toolChoice` of the API.
pub data ToolChoice : Type 0 where
  auto any : ToolChoice
  tool : (name : String) → ToolChoice

abbrev pub is_auto_call : Option RequestFunctionCall → Bool
is_auto_call (some auto_call) = true
is_auto_call _ = false

abbrev pub is_auto_choice : RequestToolChoice → Bool
is_auto_choice auto_choice = true
is_auto_choice _ = false

abbrev pub named_or_none : Option RequestFunctionCall → Option ToolChoice
named_or_none (some (named_call name)) = some (tool name)
named_or_none _ = none

-- The branches after those of `auto`.
abbrev pub choice_of : RequestToolChoice → Option RequestFunctionCall → Option ToolChoice
choice_of required_choice call = some any
choice_of (function_choice name) call = some (tool name)
choice_of _ call = named_or_none call

-- `convertToolChoice`.
unfoldable pub convert_tool_choice :
    Option RequestToolChoice → Option RequestFunctionCall → Option ToolChoice
convert_tool_choice none call = none
convert_tool_choice (some choice) call =
    if is_auto_choice choice || is_auto_call call then some auto else choice_of choice call

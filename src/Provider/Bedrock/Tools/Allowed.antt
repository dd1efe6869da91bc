-- ===== src/Provider/Bedrock/Tools/Allowed.antt =====
-- Which tools packages/api/src/ai-provider/providers/aws-bedrock.provider.ts offers to the model.
use open_vm_x_ai.Common.{
  ◌≡◌, refl, sym, ap, ◌∙◌, Bool, true, false, not, ◌&&◌, ◌||◌, Option, Option-cases, none, some,
  String, List, [], ◌∷◌, ◌++◌, map, includes, str_eq, eq_iff, Bool-cases, inl, inr, arith,
}
use open_vm_x_ai.Provider.{
  RequestTool, function_tool, custom_tool, RequestFunction, RequestToolChoice, AllowedTool,
  auto_choice, required_choice, none_choice, custom_choice, function_choice, allowed_choice,
}
use open_vm_x_ai.Provider.Bedrock.Tools.{
  ToolSpec, defined_names, allowed_tools, is_filtered, tool_specs, function_specs, if_any,
  convert_tools,
}

-- The functions that a request names, with a name or among the older ones.
abbrev pub tool_names : List RequestTool → List String
tool_names [] = []
tool_names (custom_tool ∷ tools) = tool_names tools
tool_names (function_tool name _ _ ∷ tools) = name ∷ tool_names tools

abbrev pub function_names : List RequestFunction → List String
function_names fs = map (λ f. f.name) fs

-- The names of the tools that are offered.
abbrev pub offered : Option (List ToolSpec) → List String
offered none = []
offered (some specs) = map (λ t. t.name) specs

abbrev is_listed : Option (List String) → String → Bool
is_listed none name = true
is_listed (some names) name = includes names name

includes-append :
    (xs ys : List String) (s : String) → includes (xs ++ ys) s ≡ (includes xs s || includes ys s)
includes-append [] ys s = refl
includes-append (x ∷ xs) ys s = ground (arith, includes-append xs ys s)

not_filtered :
    (allowed : Option (List String)) (name : String)
    → str_eq name "" ≡ false
    → is_filtered allowed name ≡ not (is_listed allowed name)
not_filtered none name h = refl
not_filtered (some names) name h = rw h refl

same_name :
    (allowed : Option (List String)) (n name : String)
    → n ≡ name
    → str_eq name "" ≡ false
    → (is_filtered allowed n ≡ not (is_listed allowed name)) × (str_eq n "" ≡ false)
same_name allowed n name same h =
    (ap (is_filtered allowed) same ∙ not_filtered allowed name h, ap (λ s. str_eq s "") same ∙ h)

names-function_specs :
    (allowed : Option (List String)) (fs : List RequestFunction) (name : String)
    → str_eq name "" ≡ false
    → includes (map (λ t. t.name) (function_specs allowed fs)) name
      ≡ (includes (function_names fs) name && is_listed allowed name)
unfolding function_specs
names-function_specs allowed [] name h = refl
names-function_specs allowed (f ∷ fs) name h =
    let later = names-function_specs allowed fs name h in
    elim (Bool-cases (str_eq f.name name)) [
      | inr other ↦ elim (Bool-cases (is_filtered allowed f.name)) [
        | inl out ↦ rw (out, other) later
        | inr kept ↦ rw (kept, other) later
      ]
      | inl same ↦
          let (out, _) = same_name allowed f.name name ((eq_iff f.name name).0 same) h in
          elim (Bool-cases (is_listed allowed name)) [
            | inl may ↦ rw (out, may, same) refl
            | inr may_not ↦ rw (out, may_not) ((rw may_not at later) ∙ ground arith)
          ]
    ]

names-tool_specs :
    (allowed : Option (List String)) (tools : List RequestTool) (name : String)
    → str_eq name "" ≡ false
    → includes (map (λ t. t.name) (tool_specs allowed tools)) name
      ≡ (includes (tool_names tools) name && is_listed allowed name)
unfolding tool_specs
names-tool_specs allowed [] name h = refl
names-tool_specs allowed (custom_tool ∷ tools) name h = names-tool_specs allowed tools name h
names-tool_specs allowed (function_tool n d p ∷ tools) name h = elim (Bool-cases (str_eq n name)) [
  | inr other ↦ elim (Bool-cases (is_filtered allowed n || str_eq n "")) [
    | inl out ↦ rw (out, other) (names-tool_specs allowed tools name h)
    | inr kept ↦ rw (kept, other) (names-tool_specs allowed tools name h)
  ]
  | inl same ↦
      let (out, named) = same_name allowed n name ((eq_iff n name).0 same) h in
      let later = names-tool_specs allowed tools name h in
      elim (Bool-cases (is_listed allowed name)) [
        | inl may ↦ rw (out, named, may, same) refl
        | inr may_not ↦ rw (out, named, may_not) ((rw may_not at later) ∙ ground arith)
      ]
]

map-append :
    (xs ys : List ToolSpec)
    → map (λ (t : ToolSpec). t.name) (xs ++ ys)
      ≡ map (λ (t : ToolSpec). t.name) xs ++ map (λ (t : ToolSpec). t.name) ys
map-append [] ys = refl
map-append (x ∷ xs) ys = ap (λ zs. x.name ∷ zs) (map-append xs ys)

offered-if_any : (specs : List ToolSpec) → offered (if_any specs) ≡ map (λ t. t.name) specs
offered-if_any [] = refl
offered-if_any (t ∷ ts) = refl

names-both :
    (allowed : Option (List String)) (tools : List RequestTool) (fs : List RequestFunction)
    (name : String)
    → str_eq name "" ≡ false
    → includes (offered (if_any (tool_specs allowed tools ++ function_specs allowed fs))) name ≡ (
        (includes (tool_names tools) name || includes (function_names fs) name)
        && is_listed allowed name)
names-both allowed tools fs name h =
    rw
      (
        offered-if_any (tool_specs allowed tools ++ function_specs allowed fs),
        map-append (tool_specs allowed tools) (function_specs allowed fs),
        includes-append (map (λ t. t.name) (tool_specs allowed tools))
            (map (λ t. t.name) (function_specs allowed fs)) name,
        names-tool_specs allowed tools name h,
        names-function_specs allowed fs name h,
      )
      (ground arith)

-- Whether one of the allowed tools has this name itself, not in its function.
abbrev pub has_name : String → List AllowedTool → Bool
has_name name [] = false
has_name name (t ∷ ts) = elim t.name [
  | none ↦ has_name name ts
  | some n ↦ str_eq n name || has_name name ts
]

-- Whether a tool of this name may be used.
abbrev pub is_allowed : Option RequestToolChoice → String → Bool
is_allowed (some (allowed_choice tools)) name = has_name name tools
is_allowed _ name = true

includes-defined_names :
    (ts : List AllowedTool) (name : String)
    → includes (defined_names (map (λ t. t.name) ts)) name ≡ has_name name ts
includes-defined_names [] name = refl
includes-defined_names (t ∷ ts) name = elim (Option-cases t.name) [
  | inl missing ↦ rw missing (includes-defined_names ts name)
  | inr (n, named) ↦ rw named (ap (λ b. str_eq n name || b) (includes-defined_names ts name))
]

is_listed-allowed_tools :
    (choice : Option RequestToolChoice) (name : String)
    → is_listed (allowed_tools choice) name ≡ is_allowed choice name
is_listed-allowed_tools none name = refl
is_listed-allowed_tools (some auto_choice) name = refl
is_listed-allowed_tools (some required_choice) name = refl
is_listed-allowed_tools (some none_choice) name = refl
is_listed-allowed_tools (some custom_choice) name = refl
is_listed-allowed_tools (some (function_choice _)) name = refl
is_listed-allowed_tools (some (allowed_choice ts)) name = includes-defined_names ts name

-- A tool with a name is offered to the model exactly if the request has a function of that name,
-- among its tools or its older functions, and, if its choice of tools is a list of allowed tools, one
-- of these has the name itself. A name in the function of an allowed tool does not count, and any
-- other choice, also that of no tool, leaves all functions on offer.
pub convert_tools-offered :
    (tools : List RequestTool) (functions : List RequestFunction)
    (choice : Option RequestToolChoice) (name : String)
    → str_eq name "" ≡ false
    → includes (offered (convert_tools tools functions choice)) name ≡ (
        (includes (tool_names tools) name || includes (function_names functions) name)
        && is_allowed choice name)
unfolding convert_tools
convert_tools-offered [] [] choice name h = refl
convert_tools-offered (t ∷ ts) functions choice name h =
    rw (sym (is_listed-allowed_tools choice name))
      (names-both (allowed_tools choice) (t ∷ ts) functions name h)
convert_tools-offered [] (f ∷ fs) choice name h =
    rw (sym (is_listed-allowed_tools choice name))
      (names-both (allowed_tools choice) [] (f ∷ fs) name h)

-- ===== src/Routing/Match.antt =====
-- `matchCondition` of packages/api/src/completion/routing.service.ts: what one condition compares.
pub mod Plain
use Prim.Native.Char.{code}
use Prim.Native.String
use Prim.Native.String.{String}
use open_vm_x_ai.Common.{
  ℕ, Bool, true, false, not, ◌&&◌, ◌||◌, Option, none, some, List, [], ◌∷◌, map, any, Result, ok,
  err, ◌>>=◌, ◌==◌, str_eq, if◌then◌else◌,
}
use open_vm_x_ai.Completion.Records.{Thrown}
use open_vm_x_ai.Routing.{
  RoutingComparator, equal, not_equal, greater_than, greater_than_or_equal, less_than,
  less_than_or_equal, contains, not_contains, starts_with, ends_with, pattern, is_in, not_in,
  exists, RoutingConditionType, string, number, boolean, comma_delimited_list, json_object,
  json_array, AiResourceRoutingConditionValue, AiResourceRoutingCondition,
}

-- `text.startsWith(part)`.
unfoldable pub begins : String → String → Bool
begins text String.[] = true
begins String.[] (String.◌∷◌ c part) = false
begins (String.◌∷◌ d text) (String.◌∷◌ c part) = code d == code c && begins text part

-- `text.endsWith(part)`.
unfoldable pub ends : String → String → Bool
ends String.[] part = str_eq "" part
ends (String.◌∷◌ c text) part = str_eq (String.◌∷◌ c text) part || ends text part

-- `text.includes(part)`.
unfoldable pub has_part : String → String → Bool
unfolding begins
has_part String.[] part = begins "" part
has_part (String.◌∷◌ c text) part = begins (String.◌∷◌ c text) part || has_part text part

abbrev put_first : String → List String → List String
put_first c [] = c ∷ []
put_first c (part ∷ parts) = Prim.Native.String.◌++◌ c part ∷ parts

-- `text.split(',')`.
unfoldable pub split_comma : String → List String
split_comma String.[] = "" ∷ []
split_comma (String.◌∷◌ c text) =
    let rest = split_comma text in
    if code c == b',' then "" ∷ rest else put_first (String.◌∷◌ c "") rest

-- An element of an array: a text, an object (or null or an array) or something else, by what
-- `JSON.stringify` gives of it.
pub data Element : Type 0 where
  text_element : String → Element
  object_element : String → Element
  other_element : String → Element

-- What the value of a condition is after it is parsed.
pub data ParsedValue (Number : Type 0) : Type 0 where
  a_number : Number → ParsedValue Number
  an_array : List Element → ParsedValue Number
  other_value : ParsedValue Number

-- What JavaScript and the libraries do: numbers with NaN, the order of texts, JSON, templates (ejs),
-- the read of a path as a text (lodash.get), and regular expressions. Those with a Result may throw.
pub record Engine : Type 1 where
  pub Number : Type 0
  pub parse_float : String → Number
  pub greater : Number → Number → Bool
  pub greater_or_equal : Number → Number → Bool
  pub text_less : String → String → Bool
  pub quote : String → String
  pub parse_json : String → Result Thrown (ParsedValue Number)
  pub render : String → Result Thrown String
  pub access : String → String
  pub regex_test : String → String → Result Thrown Bool

-- `!text`.
abbrev pub is_blank : String → Bool
is_blank s = str_eq s ""

abbrev pub is_template : String → Bool
is_template expression = has_part expression "<%"

module _ (engine : Engine) where
  open engine use {
    Number, parse_float, greater, greater_or_equal, text_less, quote, parse_json, render, access,
    regex_test,
  }

  unfoldable pub parse_routing_value :
      RoutingConditionType → String → Result Thrown (ParsedValue Number)
  unfolding split_comma
  parse_routing_value number resolved = ok (a_number (parse_float resolved))
  parse_routing_value boolean resolved = ok other_value
  parse_routing_value json_object resolved = parse_json resolved
  parse_routing_value json_array resolved = parse_json resolved
  parse_routing_value comma_delimited_list resolved =
      ok (an_array (map text_element (split_comma resolved)))
  parse_routing_value string resolved = ok other_value

  abbrev stringified : Element → String
  stringified (text_element s) = quote s
  stringified (object_element s) = s
  stringified (other_element s) = s

  abbrev is_text : String → Element → Bool
  is_text value (text_element s) = str_eq s value
  is_text value _ = false

  -- Whether an array of texts, or of objects, has the value; `none` if it is neither.
  abbrev pub has_element : String → ParsedValue Number → Option Bool
  has_element value (an_array (text_element s ∷ es)) =
      some (any (is_text value) (text_element s ∷ es))
  has_element value (an_array (object_element s ∷ es)) =
      some (any (λ e. str_eq (stringified e) value) (object_element s ∷ es))
  has_element value _ = none

  abbrev pub or_false : Option Bool → Bool
  or_false none = false
  or_false (some b) = b

  abbrev pub negated : Option Bool → Bool
  negated none = false
  negated (some b) = not b

  -- A comparison of numbers, if the value is one, or else of texts.
  abbrev pub compare_with : String → (Number → Number → Bool) → Bool → ParsedValue Number → Bool
  compare_with value by_number by_text (a_number n) = by_number (parse_float value) n
  compare_with value by_number by_text _ = by_text

  -- The branches by the comparator.
  unfoldable pub compare_values :
      RoutingComparator → String → String → ParsedValue Number → Result Thrown Bool
  unfolding has_part begins ends
  compare_values equal value resolved parsed = ok (str_eq value resolved)
  compare_values not_equal value resolved parsed = ok (not (str_eq value resolved))
  compare_values contains value resolved parsed = ok (has_part value resolved)
  compare_values not_contains value resolved parsed = ok (not (has_part value resolved))
  compare_values starts_with value resolved parsed = ok (begins value resolved)
  compare_values ends_with value resolved parsed = ok (ends value resolved)
  compare_values pattern value resolved parsed = regex_test resolved value
  compare_values is_in value resolved parsed = ok (or_false (has_element value parsed))
  compare_values not_in value resolved parsed = ok (negated (has_element value parsed))
  compare_values greater_than value resolved parsed =
      ok (compare_with value greater (text_less resolved value) parsed)
  compare_values greater_than_or_equal value resolved parsed =
      ok (compare_with value greater_or_equal (not (text_less value resolved)) parsed)
  compare_values less_than value resolved parsed =
      ok (compare_with value (λ x y. greater y x) (text_less value resolved) parsed)
  compare_values less_than_or_equal value resolved parsed =
      ok (compare_with value (λ x y. greater_or_equal y x) (not (text_less resolved value)) parsed)
  compare_values exists value resolved parsed = ok (not (is_blank value))

  -- `expressionValue`.
  unfoldable pub expression_value : String → Result Thrown String
  unfolding has_part
  expression_value expression =
      if is_template expression then render expression else ok (access expression)

  abbrev pub render_some : String → Result Thrown (Option String)
  render_some s = render s >>= λ r. ok (some r)

  -- `resolvedValue`: whether it is rendered depends on the expression of the condition.
  unfoldable pub resolved_value : String → Option String → Result Thrown (Option String)
  unfolding has_part
  resolved_value expression none = ok none
  resolved_value expression (some s) =
      if not (is_blank s) && is_template expression then render_some s else ok (some s)

  -- From `if (!resolvedValue)` on.
  abbrev pub match_value :
      RoutingComparator → RoutingConditionType → String → Option String → Result Thrown Bool
  match_value comparator type_of value none = ok false
  match_value comparator type_of value (some resolved) =
      if is_blank resolved
      then ok false
      else (parse_routing_value type_of resolved >>= compare_values comparator value resolved)

  unfoldable pub match_condition : AiResourceRoutingCondition → Result Thrown Bool
  unfolding parse_routing_value compare_values expression_value resolved_value
  match_condition c = do
    value ← expression_value c.expression
    resolved ← resolved_value c.expression c.value.expression
    match_value c.comparator c.value.type_of value resolved

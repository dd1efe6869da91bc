-- ===== src/Routing/Tests.antt =====
-- Two groups of conditions on a request of many tokens, and the theorems at such inputs.
use open_vm_x_ai.Common.{
  true, ltb, leb, ℕ, zero, suc, ◌≡◌, refl, Bool, false, none, some, String, [], ◌∷◌, ok, str_eq,
  find,
}
use open_vm_x_ai.Capacity.Tests.{a_model}
use open_vm_x_ai.Routing.{
  greater_than, number, and_operator, or_operator, block, call_model, AiResourceRoutingCondition,
  RoutingItems, condition, group, no_items, item, ui, AiRoutingConditionGroup,
  recursive_evaluate_routing_conditions, evaluate_routing_conditions,
}
use open_vm_x_ai.Routing.Match.{
  Engine, other_value, parse_routing_value, compare_values, expression_value, resolved_value,
  has_part, begins,
}
use open_vm_x_ai.Routing.Match
use open_vm_x_ai.Routing.Truth.{combine, truths, recursive_evaluate_routing_conditions-eq-combine}
use open_vm_x_ai.Routing.Routes.{is_route, outcome, evaluate_routing_conditions-eq-outcome}

unfoldable count_letters : String → ℕ
count_letters String.[] = 0
count_letters (String.◌∷◌ c s) = suc (count_letters s)

-- Numbers in unary, no templates and no JSON, and each path reads its own name.
abbrev small_engine : Engine
small_engine = record {
  Number = ℕ;
  parse_float = count_letters;
  greater = λ x y. ltb y x;
  greater_or_equal = λ x y. leb y x;
  text_less = λ s t. ltb (count_letters s) (count_letters t);
  quote = λ s. s;
  parse_json = λ s. ok other_value;
  render = λ s. ok s;
  access = λ s. s;
  regex_test = λ p s. ok (str_eq p s);
}

abbrev many_tokens : AiResourceRoutingCondition
many_tokens = record {
  expression = "tokens.input";
  comparator = greater_than;
  value = record { type_of = number; expression = some "any" };
}

abbrev some_tools : AiResourceRoutingCondition
some_tools = record {
  expression = "tools";
  comparator = greater_than;
  value = record { type_of = number; expression = some "no tools" };
}

-- Many tokens, and (switched off) some tools.
abbrev items : RoutingItems
items =
    item (condition many_tokens)
      (item (group (some false) or_operator (item (condition some_tools) no_items)) no_items)

abbrev with_tools : AiRoutingConditionGroup
with_tools = record {
  description = none;
  enabled = none;
  mode = ui and_operator (item (condition some_tools) no_items);
  action = block;
  target = some (record { model = a_model; traffic = none });
}

abbrev with_tokens : AiRoutingConditionGroup
with_tokens = record with_tools { mode = ui and_operator items; action = call_model }

-- The first draw is in the upper half, the next in the lower.
abbrev random : ℕ → ℕ
random zero = 700000
random (suc _) = 100000

-- The name of the tokens is longer than the number that it is compared with, in unary; that of the
-- tools is not.
abbrev holds : AiResourceRoutingCondition → Bool
holds c = str_eq c.expression "tokens.input"

many_tokens-holds : Match.match_condition small_engine many_tokens ≡ ok true
unfolding Match.match_condition expression_value resolved_value has_part begins parse_routing_value
    compare_values count_letters
many_tokens-holds = refl

some_tools-fails : Match.match_condition small_engine some_tools ≡ ok false
unfolding Match.match_condition expression_value resolved_value has_part begins parse_routing_value
    compare_values count_letters
some_tools-fails = refl

recursive_evaluate_routing_conditions-eq-combine_example :
    recursive_evaluate_routing_conditions (Match.match_condition small_engine) and_operator items
    ≡ ok (combine and_operator (truths holds items))
recursive_evaluate_routing_conditions-eq-combine_example =
    recursive_evaluate_routing_conditions-eq-combine holds (Match.match_condition small_engine)
      and_operator items (many_tokens-holds, ((some_tools-fails, tt), tt))

evaluate_routing_conditions-eq-outcome_example :
    evaluate_routing_conditions
      (Match.match_condition small_engine)
      (λ s. ok s)
      random
      (with_tools ∷ with_tokens ∷ [])
      0
    ≡ outcome (find (is_route holds (λ s. s)) (with_tools ∷ with_tokens ∷ []))
evaluate_routing_conditions-eq-outcome_example =
    evaluate_routing_conditions-eq-outcome holds (Match.match_condition small_engine) (λ s. ok s)
      (λ s. s) random (with_tools ∷ with_tokens ∷ []) 0
      (
        ((some_tools-fails, tt), refl),
        (((many_tokens-holds, ((some_tools-fails, tt), tt)), refl), tt),
      )

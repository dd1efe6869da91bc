-- ===== src/Routing/Match/Plain.antt =====
-- Routing by conditions that use no templates, patterns or JSON, in
-- packages/api/src/completion/routing.service.ts.
use open_vm_x_ai.Common.{
  ℕ, ◌≡◌, refl, Bool, true, false, not, ◌&&◌, Option, none, some, String, Result, ok, err, ◌>>=◌,
  ◌⊎◌, inl, inr, if◌then◌else◌, Bool-cases, arith,
}
use open_vm_x_ai.Completion.Records.{Thrown}
use open_vm_x_ai.Routing.{
  and_operator, or_operator, block, call_model, RoutingComparator, pattern, RoutingConditionType,
  json_object, json_array, AiResourceRoutingCondition, RoutingItem, condition, group, RoutingItems,
  no_items, item, RoutingMode, ui, advanced, AiRoutingConditionGroup, skipped, blocked, no_target,
  evaluate_item, evaluate_and, evaluate_or,
}
use open_vm_x_ai.Routing.Match.{
  Engine, ParsedValue, is_blank, is_template, parse_routing_value, compare_values, expression_value,
  resolved_value, match_value, match_condition,
}

abbrev is_pattern : RoutingComparator → Bool
is_pattern pattern = true
is_pattern _ = false

abbrev is_json : RoutingConditionType → Bool
is_json json_object = true
is_json json_array = true
is_json _ = false

-- A condition with no template, pattern or JSON.
abbrev pub is_plain : AiResourceRoutingCondition → Bool
is_plain c =
    not (is_template c.expression)
    && (not (is_pattern c.comparator) && not (is_json c.value.type_of))

abbrev mutual
  pub is_plain_item : RoutingItem → Bool
  is_plain_item (condition c) = is_plain c
  is_plain_item (group _ _ items) = are_plain items

  pub are_plain : RoutingItems → Bool
  are_plain no_items = true
  are_plain (item i items) = is_plain_item i && are_plain items

abbrev pub is_plain_mode : RoutingMode → Bool
is_plain_mode (advanced _) = false
is_plain_mode (ui _ items) = are_plain items

module _ (engine : Engine) where
  open engine use {Number}

  -- A call that returns.
  abbrev Returns : Result Thrown Bool → Type 0
  Returns r = (b : Bool) × (r ≡ ok b)

  compare_values-Returns :
      (k : RoutingComparator) (value resolved : String) (parsed : ParsedValue Number)
      → is_pattern k ≡ false
      → Returns (compare_values engine k value resolved parsed)
  unfolding compare_values
  compare_values-Returns pattern value resolved parsed h = cc h
  compare_values-Returns _ value resolved parsed h = (_, refl)

  parse_routing_value-returns :
      (t : RoutingConditionType) (resolved : String)
      → is_json t ≡ false
      → (p : ParsedValue Number) × (parse_routing_value engine t resolved ≡ ok p)
  unfolding parse_routing_value
  parse_routing_value-returns json_object resolved h = cc h
  parse_routing_value-returns json_array resolved h = cc h
  parse_routing_value-returns _ resolved h = (_, refl)

  match_value-Returns :
      (k : RoutingComparator) (t : RoutingConditionType) (value : String) (resolved : Option String)
      → is_pattern k ≡ false
      → is_json t ≡ false
      → Returns (match_value engine k t value resolved)
  match_value-Returns k t value none h j = (false, refl)
  match_value-Returns k t value (some resolved) h j = elim (Bool-cases (is_blank resolved)) [
    | inl blank ↦ (false, rw blank refl)
    | inr given ↦
        let (p, parsed) = parse_routing_value-returns t resolved j in
        let (b, compared) = compare_values-Returns k value resolved p h in
        (b, rw (given, parsed) compared)
  ]

  resolved_value-plain :
      (expression : String) (o : Option String)
      → is_template expression ≡ false
      → resolved_value engine expression o ≡ ok o
  unfolding resolved_value
  resolved_value-plain expression none h = refl
  resolved_value-plain expression (some s) h = elim (Bool-cases (is_blank s)) [
    | inl blank ↦ rw (h, blank) refl
    | inr given ↦ rw (h, given) refl
  ]

  match_condition-Returns :
      (c : AiResourceRoutingCondition) → is_plain c ≡ true → Returns (match_condition engine c)
  unfolding match_condition expression_value
  match_condition-Returns c h =
      let no_template : is_template c.expression ≡ false = ground (arith, h) in
      let no_pattern : is_pattern c.comparator ≡ false = ground (arith, h) in
      let no_json : is_json c.value.type_of ≡ false = ground (arith, h) in
      rw (resolved_value-plain c.expression c.value.expression no_template, no_template)
        (match_value-Returns c.comparator c.value.type_of _ c.value.expression no_pattern no_json)

  and_step :
      (skip : Bool) (here rest : Result Thrown Bool)
      → Returns here
      → Returns rest
      → Returns (if skip then rest else (here >>= λ m. if m then rest else ok false))
  and_step true here rest h r = r
  and_step false here rest (true, h) r = rw h r
  and_step false here rest (false, h) r = rw h (false, refl)

  or_step :
      (skip : Bool) (here rest : Result Thrown Bool)
      → Returns here
      → Returns rest
      → Returns (if skip then rest else (here >>= λ m. if m then ok true else rest))
  or_step true here rest h r = r
  or_step false here rest (true, h) r = rw h (true, refl)
  or_step false here rest (false, h) r = rw h r

  mutual
    unfolding evaluate_item

    evaluate_item-Returns :
        (i : RoutingItem)
        → is_plain_item i ≡ true
        → Returns (evaluate_item (match_condition engine) i)
    evaluate_item-Returns (condition c) h = match_condition-Returns c h
    evaluate_item-Returns (group enabled and_operator items) h = evaluate_and-Returns items h
    evaluate_item-Returns (group enabled or_operator items) h = evaluate_or-Returns items h

    evaluate_and-Returns :
        (items : RoutingItems)
        → are_plain items ≡ true
        → Returns (evaluate_and (match_condition engine) items)
    evaluate_and-Returns no_items h = (true, refl)
    evaluate_and-Returns (item i items) h =
        and_step (skipped i) _ _ (evaluate_item-Returns i (ground (arith, h)))
          (evaluate_and-Returns items (ground (arith, h)))

    evaluate_or-Returns :
        (items : RoutingItems)
        → are_plain items ≡ true
        → Returns (evaluate_or (match_condition engine) items)
    evaluate_or-Returns no_items h = (false, refl)
    evaluate_or-Returns (item i items) h =
        or_step (skipped i) _ _ (evaluate_item-Returns i (ground (arith, h)))
          (evaluate_or-Returns items (ground (arith, h)))

  module _ (render : String → Result Thrown String) (random : ℕ → ℕ) where
    -- An answer, the error of a group that blocks, or that of one that calls a model and has none.
    abbrev pub AnswersOrBlocks : Result Thrown (Option AiRoutingConditionGroup) → Type 0
    AnswersOrBlocks r =
        ((o : Option AiRoutingConditionGroup) × (r ≡ ok o))
        ⊎ ((g : AiRoutingConditionGroup) × (g.action ≡ block) × (r ≡ err (blocked g)))
        ⊎ ((g : AiRoutingConditionGroup) × (g.action ≡ call_model)
            × (g.target ≡ none)
            × (r ≡ err no_target))

-- ===== src/Completion/Discovered/Settled.antt =====
-- The capacity that packages/api/src/completion/completion.service.ts has discovered after a response.
use open_vm_x_ai.Common.{
  ℕ, ◌≡◌, refl, ◌∙◌, true, false, none, some, String, List, [], ◌∷◌, str_eq, eq_refl, lookup, find,
  insert, lookup-insert, Bool-cases, inl, inr, arith, get_or,
}
use open_vm_x_ai.Capacity.{is_minute, CapacityEntity, DiscoveredCapacityEntry}
use open_vm_x_ai.Completion.Discovered.{
  DiscoveredModels, Limits, minute_capacity, has_limits, new_capacity, capacity_of, updated_models,
}

-- The models after a response, whether or not they are updated.
abbrev pub models_after : ℕ → Limits → String → DiscoveredModels → DiscoveredModels
models_after now l model models = get_or (updated_models now l model models) models

-- The capacity of the minute, among these, has these limits.
abbrev pub HasMinute : ℕ → ℕ → List CapacityEntity → Type 0
HasMinute r t cs =
    (c : CapacityEntity) × (find (λ x. is_minute x.period) cs ≡ some c)
    × (c.requests ≡ some r)
    × (c.tokens ≡ some t)

HasMinute-has_limits :
    (l : Limits) (r t : ℕ) (cs : List CapacityEntity)
    → l.limit_requests ≡ some r
    → l.limit_tokens ≡ some t
    → has_limits l (minute_capacity cs) ≡ true
    → HasMinute r t cs
unfolding minute_capacity
HasMinute-has_limits l r t [] e f h = ground (arith, e, f)
HasMinute-has_limits l r t (c ∷ cs) e f h = elim (Bool-cases (is_minute c.period)) [
  | inl here ↦ rw here (c, refl, ground (arith, e, f, here), ground (arith, e, f, here))
  | inr other ↦ rw other (HasMinute-has_limits l r t cs e f (rw other at h))
]

new_capacity-has_limits :
    (l : Limits) (r t : ℕ) (cs : List CapacityEntity)
    → l.limit_requests ≡ some r
    → l.limit_tokens ≡ some t
    → has_limits l (minute_capacity (new_capacity l cs)) ≡ true
unfolding minute_capacity new_capacity is_minute
new_capacity-has_limits l r t [] e f = rw (e, f) (ground arith)
new_capacity-has_limits l r t (c ∷ cs) e f = elim (Bool-cases (is_minute c.period)) [
  | inl here ↦ rw here (rw here (rw (e, f) (ground arith)))
  | inr other ↦ rw other (rw other (new_capacity-has_limits l r t cs e f))
]

-- An update is read back for its model, and leaves the others.
inserted :
    (model other : String) (entry : DiscoveredCapacityEntry) (models : DiscoveredModels)
    → (lookup model (insert model entry models) ≡ some entry)
      × (str_eq model other ≡ false
          → lookup other (insert model entry models) ≡ lookup other models)
inserted model other entry models = (
  lookup-insert model model entry models ∙ rw (eq_refl model) refl,
  λ h. lookup-insert model other entry models ∙ rw h refl,
)

-- If both limits in the headers are numbers, then afterwards the capacity of the minute that is
-- discovered for the model has these limits, the same headers at any later time change nothing, and
-- what is discovered for any other model stays.
pub updated_models-settled :
    (now later : ℕ) (l : Limits) (r t : ℕ) (model other : String) (models : DiscoveredModels)
    → l.limit_requests ≡ some r
    → l.limit_tokens ≡ some t
    → str_eq model other ≡ false
    → HasMinute r t (capacity_of (lookup model (models_after now l model models)))
      × (updated_models later l model (models_after now l model models) ≡ none)
      × (lookup other (models_after now l model models) ≡ lookup other models)
unfolding updated_models
updated_models-settled now later l r t model other models e f h =
    elim (Bool-cases (has_limits l (minute_capacity (capacity_of (lookup model models))))) [
      | inl settled ↦ (
        rw settled (HasMinute-has_limits l r t (capacity_of (lookup model models)) e f settled),
        rw (settled, settled) refl,
        rw settled refl,
      )
      | inr open_ ↦
          let new : DiscoveredCapacityEntry = record {
            updated_at = now;
            capacity = new_capacity l (capacity_of (lookup model models));
          } in
          let (back, others) = inserted model other new models in
          let limits = new_capacity-has_limits l r t (capacity_of (lookup model models)) e f in
          (
            rw open_ (rw back (HasMinute-has_limits l r t new.capacity e f limits)),
            rw open_ (rw (back, limits) refl),
            rw open_ (others h),
          )
    ]

-- ===== src/Completion/Discovered/Tests.antt =====
-- A response whose headers show new limits of a model.
use open_vm_x_ai.Common.{
  ℕ, ◌≡◌, refl, true, Option, some, none, String, [], ◌∷◌, str_eq, lookup, insert, if◌then◌else◌,
}
use open_vm_x_ai.Capacity.{minute, hour, is_minute, CapacityEntity}
use open_vm_x_ai.Completion.Discovered.{
  DiscoveredModels, Limits, limits_of, minute_capacity, capacity_of, updated_models,
  discovered_update, new_capacity,
}
use open_vm_x_ai.Completion.Discovered.Settled.{HasMinute, models_after, updated_models-settled}

abbrev number_of : String → Option ℕ
number_of s = if str_eq s "60" then some 60 else if str_eq s "1000" then some 1000 else none

abbrev per_hour : CapacityEntity
per_hour = record {
  period = hour;
  requests = some 5;
  tokens = none;
  enabled = some true;
  dimension = none;
}

abbrev known : DiscoveredModels
known = ("large", record { updated_at = 1; capacity = per_hour ∷ [] }) ∷ []

abbrev shown : Limits
shown = record { limit_requests = some 60; limit_tokens = some 1000 }

updated_models-settled_example :
    (HasMinute 60 1000 (capacity_of (lookup "large" (models_after 7 shown "large" known))))
    × (updated_models 9 shown "large" (models_after 7 shown "large" known) ≡ none)
    × (lookup "small" (models_after 7 shown "large" known) ≡ lookup "small" known)
updated_models-settled_example =
    updated_models-settled 7 9 shown 60 1000 "large" "small" known refl refl refl

-- Both headers lead to an update, behind the capacity of the hour.
update_run :
    discovered_update number_of 7
      (("x-ratelimit-limit-requests", "60") ∷ ("x-ratelimit-limit-tokens", "1000") ∷ [])
      "large"
      (some known)
    ≡ some (
        (
          "large",
          record {
            updated_at = 7;
            capacity =
                per_hour
                ∷ record {
                  period = minute;
                  requests = some 60;
                  tokens = some 1000;
                  enabled = some true;
                  dimension = none;
                }
                ∷ [];
          },
        )
        ∷ [])
unfolding discovered_update limits_of updated_models minute_capacity new_capacity is_minute lookup
    insert
update_run = refl

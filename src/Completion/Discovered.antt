-- ===== src/Completion/Discovered.antt =====
-- The end of `postCompletion` in packages/api/src/completion/completion.service.ts: the limits in the
-- headers of a response become the discovered capacity of its model. A number that parseInt gives is
-- `none` if it is NaN, which JSON writes as null.
pub mod Settled
mod Tests
use open_vm_x_ai.Common.{
  ℕ, Bool, true, false, not, ◌&&◌, ◌||◌, Option, none, some, String, List, [], ◌∷◌, ◌++◌, ◌==◌,
  str_eq, lookup, insert, if◌then◌else◌,
}
use open_vm_x_ai.Capacity.{minute, is_minute, CapacityEntity, DiscoveredCapacityEntry}
use open_vm_x_ai.Errors.{CompletionHeaders}

abbrev pub DiscoveredModels : Type 0
DiscoveredModels = List (String × DiscoveredCapacityEntry)

-- `===` of what may be undefined with a number that may be NaN.
abbrev pub is_number : Option ℕ → Option ℕ → Bool
is_number (some a) (some b) = a == b
is_number _ _ = false

-- The limits of requests and tokens, where both headers are there and not empty.
pub record Limits : Type 0 where
  pub limit_requests : Option ℕ
  pub limit_tokens : Option ℕ

abbrev pub both_given : (String → Option ℕ) → Option String → Option String → Option Limits
both_given parse_int (some r) (some t) =
    if str_eq r "" || str_eq t ""
    then none
    else some (record { limit_requests = parse_int r; limit_tokens = parse_int t })
both_given parse_int _ _ = none

unfoldable pub limits_of : (String → Option ℕ) → CompletionHeaders → Option Limits
limits_of parse_int headers =
    both_given parse_int (lookup "x-ratelimit-limit-requests" headers)
      (lookup "x-ratelimit-limit-tokens" headers)

-- `capacity`: the first one of the minute.
unfoldable pub minute_capacity : List CapacityEntity → Option CapacityEntity
minute_capacity [] = none
minute_capacity (c ∷ cs) = if is_minute c.period then some c else minute_capacity cs

abbrev pub has_limits : Limits → Option CapacityEntity → Bool
has_limits l none = false
has_limits l (some c) = is_number c.tokens l.limit_tokens && is_number c.requests l.limit_requests

abbrev pub limited : Limits → CapacityEntity → CapacityEntity
limited l c = record {
  period = c.period;
  requests = l.limit_requests;
  tokens = l.limit_tokens;
  enabled = c.enabled;
  dimension = c.dimension;
}

-- `newCapacity`: the capacity of the minute with the limits, or one more at the end.
unfoldable pub new_capacity : Limits → List CapacityEntity → List CapacityEntity
new_capacity l [] =
    record {
      period = minute;
      requests = l.limit_requests;
      tokens = l.limit_tokens;
      enabled = some true;
      dimension = none;
    }
    ∷ []
new_capacity l (c ∷ cs) = if is_minute c.period then limited l c ∷ cs else c ∷ new_capacity l cs

abbrev pub capacity_of : Option DiscoveredCapacityEntry → List CapacityEntity
capacity_of none = []
capacity_of (some entry) = entry.capacity

-- What `updateDiscoveredCapacity` is called with, if it is: all models, with the new entry of this.
unfoldable pub updated_models : ℕ → Limits → String → DiscoveredModels → Option DiscoveredModels
unfolding minute_capacity new_capacity
updated_models now l model models =
    let capacity = capacity_of (lookup model models) in
    if has_limits l (minute_capacity capacity)
    then none
    else some
        (insert model (record { updated_at = now; capacity = new_capacity l capacity }) models)

abbrev pub models_or_empty : Option DiscoveredModels → DiscoveredModels
models_or_empty none = []
models_or_empty (some models) = models

abbrev pub update_for : ℕ → String → DiscoveredModels → Option Limits → Option DiscoveredModels
unfolding updated_models
update_for now model models none = none
update_for now model models (some l) = updated_models now l model models

-- From the headers of the response on.
unfoldable pub discovered_update :
    (String → Option ℕ)
    → ℕ
    → CompletionHeaders
    → String
    → Option DiscoveredModels
    → Option DiscoveredModels
unfolding limits_of
discovered_update parse_int now headers model models =
    update_for now model (models_or_empty models) (limits_of parse_int headers)

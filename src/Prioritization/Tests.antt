-- ===== src/Prioritization/Tests.antt =====
-- Runs of the gate on a connection with two pools, and the theorems at such inputs.
use open_vm_x_ai.Common.{
  ℕ, ◌+◌, ◌-◌, ◌*◌, ◌/◌, ◌≡◌, refl, true, Option, none, some, String, List, [], ◌∷◌, ltb, ok,
  lookup, insert, arith, eq_iff,
}
use open_vm_x_ai.Common
use open_vm_x_ai.Capacity.{CapacityEntity, minute}
use open_vm_x_ai.Entities.{Number, AiConnectionEntity, PoolDefinitionEntry, PoolDefinitionEntity}
use open_vm_x_ai.Prioritization.Allocations.{
  PoolAllocation, PoolWorkloadAllocation, Arithmetic, allocated, get_available_capacity,
}
use open_vm_x_ai.Prioritization.Scaling.{
  scale_pool, scale_pools, scale_up, scale_up_by, scale_down, scale_down_all, window_percent,
  scale_up_threshold, consumed_tokens, pools_after, raise, raise_by, lower_unused,
}
use open_vm_x_ai.Prioritization.Limits.{Returns, scale_pools-Returns}
use open_vm_x_ai.Prioritization.Rank.{scale_pool-keeps_higher}
use open_vm_x_ai.Prioritization.Gate.{Repositories}

-- An arithmetic to compute with: millionths, rounded down, and none below zero.
abbrev number : ℕ → Number
number n = record { bits = n }

abbrev millionths : Arithmetic
millionths = record {
  of_nat = λ n. number (n * 1000000);
  plus = λ a b. number (a.bits + b.bits);
  minus = λ a b. number (a.bits - b.bits);
  times = λ a b. number (a.bits * b.bits / 1000000);
  divided_by = λ a b. number (a.bits * 1000000 / b.bits);
  math_min = λ a b. number (Common.min a.bits b.bits);
  math_max = λ a b. number (Common.max a.bits b.bits);
  less = λ a b. ltb a.bits b.bits;
}

abbrev percent : ℕ → Number
percent n = number (n * 1000000)

-- A memory that holds one allocation and the tokens of the window, the same for each connection.
abbrev memory : ℕ → List (String × ℕ) → Repositories
memory used windows = record {
  js = millionths;
  S = Option PoolWorkloadAllocation;
  get_minute_metric_by_pool = λ s now c e. used;
  get_resource_metric_by_window = λ s now c w d. windows;
  write_metric = λ s now t c e. s;
  get_allocation = λ s c. s;
  write_allocation = λ s c m. some m;
  get-write_allocation = λ s c m. refl;
}

abbrev high_entry : PoolDefinitionEntry
high_entry = record {
  name = "high";
  min_reservation = percent 50;
  max_reservation = percent 80;
  resources = "chat" ∷ [];
}

abbrev low_entry : PoolDefinitionEntry
low_entry = record {
  name = "low";
  min_reservation = percent 20;
  max_reservation = percent 100;
  resources = "bulk" ∷ [];
}

abbrev two_pools : PoolDefinitionEntity
two_pools = record { definition = high_entry ∷ low_entry ∷ [] }

abbrev minute_plan : CapacityEntity
minute_plan = record {
  period = minute;
  requests = none;
  tokens = some 1000;
  enabled = some true;
  dimension = none;
}

abbrev a_connection : AiConnectionEntity
a_connection = record {
  connection_id = "c1";
  provider = "openai";
  capacity = some (minute_plan ∷ []);
  discovered_capacity = none;
}

abbrev share : ℕ → ℕ → ℕ → PoolAllocation
share least most now = record {
  min = percent least;
  max = percent most;
  current = percent now;
  scale_action = none;
  scale_action_at = none;
  scale_description = none;
}

abbrev shares : PoolWorkloadAllocation
shares = ("high", share 50 80 50) ∷ ("low", share 20 100 50) ∷ []

abbrev spare : PoolWorkloadAllocation
spare = ("high", share 50 80 50) ∷ ("low", share 20 100 20) ∷ []

-- The low pool uses 600 of 1000 tokens and takes the 30 % that are free.
abbrev spare_taken : PoolWorkloadAllocation
spare_taken =
    ("high", share 50 80 50)
    ∷ ("low", raise millionths 9000 1000 600 (percent 30) (share 20 100 20))
    ∷ []

scale_pool-keeps_higher_example : lookup "high" spare_taken ≡ lookup "high" spare
unfolding scale_pool scale_up scale_up_by raise_by lower_unused scale_down window_percent
    scale_up_threshold consumed_tokens pools_after get_available_capacity allocated lookup insert
    raise scale_down_all
scale_pool-keeps_higher_example =
    scale_pool-keeps_higher millionths ("high" ∷ "low" ∷ []) 9000 1000 (percent 30) "low" 600 spare
      spare_taken "high" (λ e. ground (arith, eq_iff "low" "high")) tt refl

abbrev busy : Repositories
busy = memory 400 (("high", 600) ∷ ("low", 10) ∷ [])

scale_pools-Returns_example : Returns shares (
    scale_pools millionths
      ("high" ∷ "low" ∷ [])
      9000
      1000
      (percent 0)
      (("high", 600) ∷ ("low", 10) ∷ [])
      ("high" ∷ "low" ∷ [])
      shares)
unfolding lookup
scale_pools-Returns_example =
    scale_pools-Returns millionths ("high" ∷ "low" ∷ []) 9000 1000 (percent 0)
      (("high", 600) ∷ ("low", 10) ∷ []) ("high" ∷ "low" ∷ []) shares ((_, refl), ((_, refl), tt))
      ((_, refl), ((_, refl), tt))

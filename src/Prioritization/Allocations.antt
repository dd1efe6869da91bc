-- ===== src/Prioritization/Allocations.antt =====
-- packages/api/src/prioritization/storage/base/allocation/types.ts, and reads and sums of it.
use open_vm_x_ai.Common.{ℕ, Bool, true, false, Option, some, String, List, [], ◌∷◌}
use open_vm_x_ai.Entities.{Number}

pub data ScaleAction : Type 0 where
  up down : ScaleAction

abbrev pub is_up : Option ScaleAction → Bool
is_up (some up) = true
is_up _ = false

-- What `scaleDescription` tells: the numbers that its text shows.
pub data ScaleDescription : Type 0 where
  pool_is_scaling_up : (pool : String) → ScaleDescription
  over_threshold : (window_tokens : ℕ) (threshold consumed added : Number) → ScaleDescription
  not_using_enough : (window_tokens : ℕ) (consumed : Number) → ScaleDescription

pub record PoolAllocation : Type 0 where
  pub min : Number
  pub max : Number
  pub current : Number
  pub scale_action : Option ScaleAction
  pub scale_action_at : Option ℕ
  pub scale_description : Option ScaleDescription

abbrev pub PoolWorkloadAllocation : Type 0
PoolWorkloadAllocation = List (String × PoolAllocation)

-- The operators of JavaScript on numbers, `Math.min` and `Math.max`. They belong to the language, and
-- nothing is assumed of them; `of_nat` is the number with this value, rounded where it has to be.
pub record Arithmetic : Type 0 where
  pub of_nat : ℕ → Number
  pub plus : Number → Number → Number
  pub minus : Number → Number → Number
  pub times : Number → Number → Number
  pub divided_by : Number → Number → Number
  pub math_min : Number → Number → Number
  pub math_max : Number → Number → Number
  pub less : Number → Number → Bool

module _ (js : Arithmetic) where
  open js use {of_nat, plus, minus}

  -- `Object.values(allocation).reduce((acc, pool) => acc + pool.current, 0)`.
  abbrev add_all : Number → PoolWorkloadAllocation → Number
  add_all acc [] = acc
  add_all acc ((_, p) ∷ m) = add_all (plus acc p.current) m

  unfoldable pub allocated : PoolWorkloadAllocation → Number
  allocated m = add_all (of_nat 0) m

  -- `getAvailableCapacity`.
  unfoldable pub get_available_capacity : PoolWorkloadAllocation → Number
  get_available_capacity m = minus (of_nat 100) (allocated m)

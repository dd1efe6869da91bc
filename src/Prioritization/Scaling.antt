-- ===== src/Prioritization/Scaling.antt =====
-- The loop of `gate` in packages/api/src/prioritization/strategy/adaptive-token-scaling.ts, which
-- moves capacity between the pools of a connection.
use open_vm_x_ai.Common.{
  ℕ, ◌+◌, Bool, ◌&&◌, Option, none, some, String, List, [], ◌∷◌, Result, ok, ◌>>=◌, or_throw,
  str_eq, ltb, if◌then◌else◌, lookup, insert, get_or,
}
use open_vm_x_ai.Entities.{Number}
use open_vm_x_ai.Prioritization.Allocations.{
  up, down, is_up, pool_is_scaling_up, over_threshold, not_using_enough, PoolAllocation,
  PoolWorkloadAllocation, Arithmetic, get_available_capacity,
}

-- `type_error` is the TypeError of reading a property of `undefined`.
pub data PrioritizationError : Type 0 where
  no_resource_pool no_capacity_plan type_error : PrioritizationError

abbrev pub cooldown : ℕ
cooldown = 5000

abbrev pub window_size : ℕ
window_size = 30000

-- `scaleUp`.
abbrev pub scale_up_percent : ℕ
scale_up_percent = 50

-- `poolsRank.slice(poolsRank.indexOf(poolName) + 1)`.
unfoldable pub pools_after : String → List String → List String
pools_after name [] = []
pools_after name (n ∷ ranks) = if str_eq n name then ranks else pools_after name ranks

module _ (js : Arithmetic) where
  open js use {of_nat, plus, minus, times, divided_by, math_min, math_max, less}

  abbrev M : Type 0
  M = Result PrioritizationError PoolWorkloadAllocation

  -- `(capacityPlan.tokens ?? 0) * (allocationPool.current / 100)`.
  unfoldable pub consumed_tokens : ℕ → PoolAllocation → Number
  consumed_tokens tokens p = times (of_nat tokens) (divided_by p.current (of_nat 100))

  -- `consumedTokens * (scaleUp / 100)`.
  unfoldable pub scale_up_threshold : ℕ → PoolAllocation → Number
  scale_up_threshold tokens p =
      times (consumed_tokens tokens p) (divided_by (of_nat scale_up_percent) (of_nat 100))

  -- `(windowTokens / (capacityPlan.tokens ?? 0)) * 100`.
  unfoldable pub window_percent : ℕ → ℕ → Number
  window_percent w tokens = times (divided_by (of_nat w) (of_nat tokens)) (of_nat 100)

  -- The body of the inner loop, for one pool of less priority. The value `excess` is
  -- `scaleUpValue - availableCapacity`.
  unfoldable pub scale_down_for : String → ℕ → Number → PoolAllocation → PoolAllocation
  scale_down_for pool_name now excess p =
      if less p.min p.current
      then record p {
        current = math_max p.min (minus p.current excess);
        scale_action = some down;
        scale_action_at = some now;
        scale_description = some (pool_is_scaling_up pool_name);
      }
      else p

  -- The inner loop.
  unfoldable pub scale_down_all : String → ℕ → Number → List String → PoolWorkloadAllocation → M
  scale_down_all pool_name now excess [] m = ok m
  scale_down_all pool_name now excess (pool ∷ pools) m = do
    p ← or_throw (lookup pool m) type_error
    scale_down_all pool_name now excess pools
        (insert pool (scale_down_for pool_name now excess p) m)

  -- `allocationPool.current += scaleUpAvailableValue`, and the marks that go with it. The text shows
  -- the threshold and the tokens that were computed from the pool at the begin of its round, which
  -- nothing has changed since, as the names of the pools differ.
  unfoldable pub raise : ℕ → ℕ → ℕ → Number → PoolAllocation → PoolAllocation
  raise now tokens w added p = record p {
    current = plus p.current added;
    scale_action_at = some now;
    scale_action = some up;
    scale_description =
        some (over_threshold w (scale_up_threshold tokens p) (consumed_tokens tokens p) added);
  }

  -- The part of that branch below the lowering: give the pool what is left, up to `value`.
  unfoldable pub raise_by : ℕ → ℕ → String → ℕ → Number → PoolWorkloadAllocation → M
  raise_by now tokens pool_name w value m = do
    let added = math_min value (get_available_capacity js m)
    p ← or_throw (lookup pool_name m) type_error
    ok (if less (of_nat 0) added then insert pool_name (raise now tokens w added p) m else m)

  -- The branch `if (scaleUpValue > 0)`. The value `available` is `availableCapacity`, which is
  -- computed before the outer loop.
  unfoldable pub scale_up_by :
      List String → ℕ → ℕ → Number → String → ℕ → Number → PoolWorkloadAllocation → M
  unfolding raise_by
  scale_up_by ranks now tokens available pool_name w value m = do
    m' ←
        if less available value
        then scale_down_all pool_name now (minus value available) (pools_after pool_name ranks) m
        else ok m
    raise_by now tokens pool_name w value m'

  -- The branch `if (windowTokens > scaleUpThreshold)`.
  unfoldable pub scale_up :
      List String → ℕ → ℕ → Number → String → ℕ → PoolAllocation → PoolWorkloadAllocation → M
  scale_up ranks now tokens available pool_name w p m =
      let value = math_min (window_percent w tokens) (minus p.max p.current) in
      if less (scale_up_threshold tokens p) (of_nat w) && less (of_nat 0) value
      then scale_up_by ranks now tokens available pool_name w value m
      else ok m

  -- `shouldScaleDown`.
  unfoldable pub should_scale_down : ℕ → ℕ → ℕ → PoolAllocation → Bool
  should_scale_down now tokens w p =
      less (of_nat w) (consumed_tokens tokens p)
      && less p.min p.current
      && is_up p.scale_action
      && ltb (get_or p.scale_action_at 0 + cooldown) now

  -- `windowPercent > allocationPool.max ? 0 : windowPercent`.
  unfoldable pub zero_if_above : Number → Number → Number
  zero_if_above percent most = if less most percent then of_nat 0 else percent

  -- The branch `if (shouldScaleDown)`.
  unfoldable pub scale_down : ℕ → ℕ → ℕ → PoolAllocation → PoolAllocation
  unfolding should_scale_down
  scale_down now tokens w p =
      let lowered = math_max (zero_if_above (window_percent w tokens) p.max) p.min in
      if should_scale_down now tokens w p
      then record p {
        current = lowered;
        scale_action_at = some now;
        scale_action = some down;
        scale_description =
            some (not_using_enough w (consumed_tokens tokens (record p { current = lowered })));
      }
      else p

  -- The last statement of a round.
  unfoldable pub lower_unused : ℕ → ℕ → String → ℕ → PoolWorkloadAllocation → M
  lower_unused now tokens pool_name w m = do
    p ← or_throw (lookup pool_name m) type_error
    ok (insert pool_name (scale_down now tokens w p) m)

  -- One round of the outer loop, for a pool with `w` tokens in the window.
  unfoldable pub scale_pool : List String → ℕ → ℕ → Number → String → ℕ → PoolWorkloadAllocation → M
  unfolding lower_unused
  scale_pool ranks now tokens available pool_name w m = do
    p ← or_throw (lookup pool_name m) type_error
    m' ← scale_up ranks now tokens available pool_name w p m
    lower_unused now tokens pool_name w m'

  -- A round of the outer loop. A pool without an entry in `resourceWindowTokens` is left alone, since
  -- no comparison with `undefined` holds.
  unfoldable pub scale_round :
      List String → ℕ → ℕ → Number → String → Option ℕ → PoolWorkloadAllocation → M
  scale_round ranks now tokens available name none m = do
    _ ← or_throw (lookup name m) type_error
    ok m
  scale_round ranks now tokens available name (some w) m =
      scale_pool ranks now tokens available name w m

  -- The outer loop.
  unfoldable pub scale_pools :
      List String → ℕ → ℕ → Number → List (String × ℕ) → List String → PoolWorkloadAllocation → M
  scale_pools ranks now tokens available windows [] m = ok m
  scale_pools ranks now tokens available windows (name ∷ names) m = do
    m' ← scale_round ranks now tokens available name (lookup name windows) m
    scale_pools ranks now tokens available windows names m'

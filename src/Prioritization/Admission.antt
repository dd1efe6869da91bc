-- ===== src/Prioritization/Admission.antt =====
-- What `gate` of packages/api/src/prioritization/strategy/adaptive-token-scaling.ts answers and writes.
use open_vm_x_ai.Common.{ℕ, ◌≡◌, false, not, Option, none, some, String, Result, ok, lookup}
use open_vm_x_ai.Entities.{PoolDefinitionEntry, PoolDefinitionEntity}
use open_vm_x_ai.Prioritization.Allocations.{PoolAllocation, PoolWorkloadAllocation}
use open_vm_x_ai.Prioritization.Scaling.{PrioritizationError}
use open_vm_x_ai.Prioritization.Limits.{HasAll, KeepsLimits}
use open_vm_x_ai.Prioritization.Gate.{
  Repositories, GateOutput, allow, allocation_or_initial, pools_rank,
}

abbrev pub Has : String → PoolWorkloadAllocation → Type 0
Has k m = (p : PoolAllocation) × (lookup k m ≡ some p)

-- What is stored has an entry for every pool of the definition, or nothing is stored.
abbrev pub HasPools : PoolDefinitionEntity → Option PoolWorkloadAllocation → Type 0
HasPools pool none = Unit
HasPools pool (some m) = HasAll (pools_rank pool) m

module _ (repos : Repositories) where
  open repos use {
    S, js, get_minute_metric_by_pool, get_resource_metric_by_window, write_metric, get_allocation,
    write_allocation, get-write_allocation,
  }

  -- The two ways in which the gate ends: it lets the request in and stores the new allocation, or
  -- it denies it and leaves everything stored as it was.
  pub data Outcome (id : String) (s : S) : GateOutput × S → Type 0 where
    admitted :
        (m : PoolWorkloadAllocation) (s' : S)
        → get_allocation s' id ≡ some m
        → Outcome id s (allow m, s')
    denied : (out : GateOutput) → out.allowed ≡ false → Outcome id s (out, s)

  -- The tokens of the minute are compared with the share of the pool in the answer's own allocation,
  -- as a percentage of the tokens of the plan.
  pub record Verdict (name : String) (minute tokens : ℕ) (out : GateOutput) : Type 0 where
    pub share : PoolAllocation
    pub found : lookup name out.allocation ≡ some share
    pub decides :
        out.allowed
        ≡ not (
            js.less
              (js.times (js.of_nat tokens) (js.divided_by share.current (js.of_nat 100)))
              (js.of_nat minute))

  pub record GateResult (pool : PoolDefinitionEntity) (entry : PoolDefinitionEntry) (now tokens : ℕ)
      (id : String) (s : S) (r : Result PrioritizationError (GateOutput × S)) : Type 0 where
    pub output : GateOutput
    pub after : S
    pub returns : r ≡ ok (output, after)
    pub outcome : Outcome id s (output, after)
    pub stored : HasPools pool (get_allocation after id)
    pub limits :
        KeepsLimits (allocation_or_initial (get_allocation s id) pool.definition) output.allocation
    pub verdict : Verdict entry.name (get_minute_metric_by_pool s now id entry) tokens output

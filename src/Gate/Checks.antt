-- ===== src/Gate/Checks.antt =====
-- `requestGate` of packages/api/src/completion/gate.service.ts in an environment without a pool
-- definition: which requests it lets in, and what it counts.
use open_vm_x_ai.Common.{
  ℕ, ◌+◌, ◌≤◌, ◌<◌, ◌≡◌, refl, sym, subst, ◌∙◌, true, false, Option, none, some, String, List, [],
  ◌∷◌, map, Result, ok, err, ◌>>=◌, or_throw, lookup, All, Bool-cases, inl, inr, arith,
}
use mathlib.Core.Option.{some_inj}
use open_vm_x_ai.Redis.{RedisClient}
use open_vm_x_ai.Capacity.{CapacityEntity, requests_or_zero, tokens_or_zero, period_name}
use open_vm_x_ai.Capacity.Period.{Calendar}
use open_vm_x_ai.Capacity.Resolve.{ResolvedCapacity, Resolution, resolve, resolve_lem}
use open_vm_x_ai.Capacity.Usage.{UsageMetric, EvaluatedCapacity, get_usage}
use open_vm_x_ai.Capacity.Usage.Covers.{CoversAll, get_usage-CoversAll}
use open_vm_x_ai.Entities.{
  AiConnectionEntity, AiResourceEntity, AiResourceModelConfigEntity, ApiKeyEntity,
}
use open_vm_x_ai.Errors.{CompletionErrorData}
use open_vm_x_ai.Gate.Limits.{
  GateError, completion_error, check_request_capacity, is_over, check_resolved, check_capacities,
}
use open_vm_x_ai.Gate.Applied.{limits, capacities_of, capacities_of-resolved}
use open_vm_x_ai.Gate.Request.{GateState, prefixed, prioritization_gate, request_gate}
use open_vm_x_ai.Http.{FastifyRequest}
use open_vm_x_ai.Prioritization.Gate.{Repositories}

-- A request of so many tokens fits a limit; a limit of 0 is no limit.
pub record IsWithin (tokens : ℕ) (c : CapacityEntity) (u : UsageMetric) : Type 0 where
  pub requests_fit : 0 < requests_or_zero c → u.total_requests ≤ requests_or_zero c
  pub tokens_fit : 0 < tokens_or_zero c → u.used_tokens + tokens ≤ tokens_or_zero c

-- Every capacity fits what was read for its period.
abbrev pub AllWithin : List (String × UsageMetric) → ℕ → List ResolvedCapacity → Type 0
AllWithin usage tokens rs =
    All
      (λ r.
        (u : UsageMetric) × (lookup (period_name r.capacity.period) usage ≡ some u)
        × IsWithin tokens r.capacity u)
      rs

-- A refusal that tells the caller to come back: 429, and retryable.
abbrev pub IsRateLimit : CompletionErrorData → Type 0
IsRateLimit e = (e.status_code ≡ 429) × (e.retryable ≡ true) × (e.rate ≡ true)

-- The error of a request that is over a limit.
pub data Refused : Result GateError (Unit {0}) → Type 0 where
  refused : (e : CompletionErrorData) → IsRateLimit e → Refused (err (completion_error e))

is_over-true : (limit used : ℕ) → is_over limit used ≡ true → (0 < limit) × (limit < used)
is_over-true limit used h = ground arith

is_over-false : (limit used : ℕ) → is_over limit used ≡ false → 0 < limit → used ≤ limit
is_over-false limit used h pos = ground arith

-- How the check of one capacity ends.
data CheckCases (tokens : ℕ) (c : CapacityEntity) (u : UsageMetric)
    : Result GateError (Unit {0}) → Type 0 where
  passes : IsWithin tokens c u → CheckCases tokens c u (ok tt)
  fails :
      (e : CompletionErrorData)
      → IsRateLimit e
      → ¬ IsWithin tokens c u
      → CheckCases tokens c u (err (completion_error e))

check_resolved_cases :
    (r : ResolvedCapacity) (u : UsageMetric) (tokens : ℕ)
    → CheckCases tokens r.capacity u (check_resolved r u tokens)
unfolding check_resolved check_request_capacity
check_resolved_cases r u tokens =
    let c = r.capacity in
    elim (Bool-cases (is_over (requests_or_zero c) u.total_requests)) [
      | inl over ↦
          let (set, more) = is_over-true (requests_or_zero c) u.total_requests over in
          rw over (fails _ (refl, refl, refl) (λ w. omega (arith, w.requests_fit set, more)))
      | inr within ↦ elim (Bool-cases (is_over (tokens_or_zero c) (u.used_tokens + tokens))) [
        | inl over ↦
            let (set, more) = is_over-true (tokens_or_zero c) (u.used_tokens + tokens) over in
            rw (within, over)
              (fails _ (refl, refl, refl) (λ w. omega (arith, w.tokens_fit set, more)))
        | inr fits ↦
            rw (within, fits)
              (passes (record {
                requests_fit = is_over-false (requests_or_zero c) u.total_requests within;
                tokens_fit = is_over-false (tokens_or_zero c) (u.used_tokens + tokens) fits;
              }))
      ]
    ]

-- How the loop over the capacities ends.
data LoopCases (usage : List (String × UsageMetric)) (tokens : ℕ) (rs : List ResolvedCapacity)
    : Result GateError (Unit {0}) → Type 0 where
  all_pass : AllWithin usage tokens rs → LoopCases usage tokens rs (ok tt)
  one_fails :
      (e : CompletionErrorData)
      → IsRateLimit e
      → ¬ AllWithin usage tokens rs
      → LoopCases usage tokens rs (err (completion_error e))

same_use :
    (tokens : ℕ) (r : ResolvedCapacity) (usage : List (String × UsageMetric)) (u : UsageMetric)
    → lookup (period_name r.capacity.period) usage ≡ some u
    → (v : UsageMetric) × (lookup (period_name r.capacity.period) usage ≡ some v)
      × IsWithin tokens r.capacity v
    → IsWithin tokens r.capacity u
same_use tokens r usage u found (v, found', w) =
    subst (IsWithin tokens r.capacity) (some_inj.0 (sym found' ∙ found)) w

loop_step :
    (usage : List (String × UsageMetric)) (tokens : ℕ) (r : ResolvedCapacity)
    (rs : List ResolvedCapacity) (u : UsageMetric) {first rest : Result GateError (Unit {0})}
    → lookup (period_name r.capacity.period) usage ≡ some u
    → CheckCases tokens r.capacity u first
    → LoopCases usage tokens rs rest
    → LoopCases usage tokens (r ∷ rs) (first >>= λ _. rest)
loop_step usage tokens r rs u found (passes w) (all_pass ws) = all_pass ((u, found, w), ws)
loop_step usage tokens r rs u found (passes w) (one_fails e l bad) =
    one_fails e l (λ (ws : AllWithin usage tokens (r ∷ rs)). bad ws.1)
loop_step usage tokens r rs u found (fails e l bad) rest =
    one_fails e l
      (λ (ws : AllWithin usage tokens (r ∷ rs)). bad (same_use tokens r usage u found ws.0))

check_capacities_cases :
    (usage : List (String × UsageMetric)) (tokens : ℕ) (rs : List ResolvedCapacity)
    → CoversAll usage (map prefixed rs)
    → LoopCases usage tokens rs (check_capacities usage tokens rs)
unfolding check_capacities
check_capacities_cases usage tokens [] h = all_pass tt
check_capacities_cases usage tokens (r ∷ rs) ((u, found), h) =
    rw (found, or_throw)
      (loop_step usage tokens r rs u found (check_resolved_cases r u tokens)
        (check_capacities_cases usage tokens rs h))

-- Every limit fits what was read for its period.
abbrev pub AllFit : List (String × UsageMetric) → ℕ → List CapacityEntity → Type 0
AllFit usage tokens cs =
    All
      (λ c.
        (u : UsageMetric) × (lookup (period_name c.period) usage ≡ some u) × IsWithin tokens c u)
      cs

AllFit-capacities_of :
    (usage : List (String × UsageMetric)) (tokens : ℕ) (rs : List ResolvedCapacity)
    → (AllWithin usage tokens rs → AllFit usage tokens (capacities_of rs))
      × (AllFit usage tokens (capacities_of rs) → AllWithin usage tokens rs)
unfolding capacities_of
AllFit-capacities_of usage tokens [] = (λ a. a, λ a. a)
AllFit-capacities_of usage tokens (r ∷ rs) =
    let (to, from) = AllFit-capacities_of usage tokens rs in
    (λ a. (a.0, to a.1), λ a. (a.0, from a.1))

module _ (redis : RedisClient) (cal : Calendar) (repos : Repositories) where
  open redis use {Keys}

  -- What the gate reads for the capacities of a request.
  pub record Reading (s : Keys) (now : ℕ) (rs : List ResolvedCapacity) : Type 0 where
    pub usage : List (String × UsageMetric)
    pub reads : get_usage redis cal s now (map prefixed rs) ≡ ok usage
    pub covers : CoversAll usage (map prefixed rs)

  pub reading : (s : Keys) (now : ℕ) (rs : List ResolvedCapacity) → Reading s now rs
  reading s now rs =
      let (m, done, all) = get_usage-CoversAll redis cal s now (map prefixed rs) in
      record { usage = m; reads = done; covers = all }

  -- How the gate ends where no pool definition is found, for a request with these limits: what it
  -- then counts is not told here.
  pub data GateCases (tokens : ℕ) (s : GateState redis cal repos)
      (usage : List (String × UsageMetric)) (cs : List CapacityEntity)
      : Result GateError (List EvaluatedCapacity × GateState redis cal repos) → Type 0 where
    admits :
        (counted : List EvaluatedCapacity) (keys : Keys)
        → AllFit usage tokens cs
        → GateCases tokens s usage cs (ok (counted, record { keys = keys; pools = s.pools }))
    refuses :
        (e : CompletionErrorData)
        → IsRateLimit e
        → ¬ AllFit usage tokens cs
        → GateCases tokens s usage cs (err (completion_error e))

  end_of_gate :
      (tokens : ℕ) (s : GateState redis cal repos) (usage : List (String × UsageMetric))
      (rs : List ResolvedCapacity) (cs : List CapacityEntity) (counted : List EvaluatedCapacity)
      (keys : Keys) {checked : Result GateError (Unit {0})}
      → capacities_of rs ≡ cs
      → LoopCases usage tokens rs checked
      → GateCases tokens s usage cs
          (checked >>= λ _. ok (counted, record { keys = keys; pools = s.pools }))
  end_of_gate tokens s usage rs cs counted keys same (all_pass w) =
      admits counted keys
        (subst (AllFit usage tokens) same ((AllFit-capacities_of usage tokens rs).0 w))
  end_of_gate tokens s usage rs cs counted keys same (one_fails e l bad) =
      refuses e l (λ (fit : AllFit usage tokens cs).
        bad ((AllFit-capacities_of usage tokens rs).1 (subst (AllFit usage tokens) (sym same) fit)))

  -- Where the environment has no pools, the gate admits a request exactly if it is within the limit
  -- of each capacity that is switched on among those of the connection, those of the resource if it
  -- enforces them, and those of the API key if there is one that enforces them, each against what is
  -- read for the capacity's period. A limit of 0 is none. Then nothing that the prioritization keeps
  -- changes. Any other request is refused by a retryable error with status 429. No other error is
  -- possible.
  pub request_gate-GateCases :
      (now tokens : ℕ) (workspace_id environment_id : String) (resource : AiResourceEntity)
      (model : AiResourceModelConfigEntity) (connection : AiConnectionEntity)
      (api_key : Option ApiKeyEntity) (request : Option FastifyRequest)
      (batch_capacity : Option (List CapacityEntity)) (s : GateState redis cal repos)
      → (r : Resolution) × (resolve workspace_id environment_id connection resource request api_key
          ≡ ok r)
        × ((usage : List (String × UsageMetric)) × (get_usage redis cal s.keys now
                (map prefixed r.enabled_capacities)
              ≡ ok usage)
            × GateCases tokens s usage (limits connection resource api_key) (
                request_gate redis cal repos now tokens workspace_id environment_id resource model
                  connection api_key request batch_capacity none s))
  unfolding request_gate prioritization_gate
  request_gate-GateCases now tokens workspace_id environment_id resource model connection api_key
        request batch_capacity s =
      let resolves = resolve_lem workspace_id environment_id connection resource request api_key in
      let r = reading s.keys now _ in
      (
        _,
        resolves,
        (
          r.usage,
          r.reads,
          rw (resolves, r.reads)
              (end_of_gate tokens s r.usage _ _ _ _
                (capacities_of-resolved _ request connection resource api_key)
                (check_capacities_cases r.usage tokens _ r.covers)),
        ),
      )

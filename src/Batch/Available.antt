-- ===== src/Batch/Available.antt =====
-- How much of the capacities of a resource is left, in `retrieveItems` of
-- packages/api/src/completion/batch/batch-queue.service.ts.
use open_vm_x_ai.Common.{
  ℕ, ◌-◌, ◌≤◌, ◌≡◌, refl, Bool, true, false, ◌||◌, Option, none, some, get_or, String, List, [],
  ◌∷◌, ◌++◌, map, Result, ok, ◌>>=◌, or_throw, ltb, if◌then◌else◌, lookup, All, ◌⊎◌, inl, inr,
  Bool-cases, arith,
}
use open_vm_x_ai.Common.Int.{ℤ, less}
use open_vm_x_ai.Capacity.{CapacityEntity, period_name, requests_or_zero, tokens_or_zero}
use open_vm_x_ai.Capacity.Keys.{CapacityError, get_resource_key_prefix}
use open_vm_x_ai.Capacity.Period.{Calendar}
use open_vm_x_ai.Capacity.Resolve.{ResolvedCapacity, resolve}
use open_vm_x_ai.Capacity.Usage.{PrefixedCapacity, UsageMetric, UsageError, get_usage}
use open_vm_x_ai.Capacity.Usage.Covers.{CoversAll}
use open_vm_x_ai.Entities.{AiConnectionEntity, AiResourceEntity}
use open_vm_x_ai.Gate.Limits.{is_over}
use open_vm_x_ai.Gate.Request.{map_err, prefixed}
use open_vm_x_ai.Redis.{RedisClient}
use open_vm_x_ai.Batch.Retrieve.{LuaError}

-- What `retrieveItems` may throw: `type_error` is the read of a property of `undefined`.
pub data RetrieveError : Type 0 where
  type_error : RetrieveError
  capacity_error : CapacityError → RetrieveError
  usage_error : UsageError → RetrieveError
  lua_error : LuaError → RetrieveError

-- How many requests and tokens may be retrieved, `none` being Infinity, and the seconds until the
-- first of the periods ends; or that some capacity is used up, with the seconds of its period.
pub data Availability : Type 0 where
  used_up : ℤ → Availability
  available : Option ℕ → Option ℕ → Option ℤ → Availability

-- `limit > 0 ? limit - used : Infinity`, where this is not negative.
abbrev pub left : ℕ → ℕ → Option ℕ
left limit used = if ltb 0 limit then some (limit - used) else none

-- `if (remaining < available) available = remaining`.
abbrev pub least : Option ℕ → Option ℕ → Option ℕ
least none most = most
least (some n) none = some n
least (some n) (some most) = if ltb n most then some n else some most

-- `if (seconds < remainingSeconds) remainingSeconds = seconds`.
abbrev pub sooner : ℤ → Option ℤ → Option ℤ
sooner seconds none = some seconds
sooner seconds (some before) = if less seconds before then some seconds else some before

-- `for (const item of capacity)`: `remainingRequests < 0 || remainingTokens < 0` is that one of the
-- limits is passed.
unfoldable pub available_loop :
    List (String × UsageMetric)
    → List PrefixedCapacity
    → Option ℕ
    → Option ℕ
    → Option ℤ
    → Result RetrieveError Availability
available_loop usage [] requests tokens seconds = ok (available requests tokens seconds)
available_loop usage (c ∷ cs) requests tokens seconds =
    or_throw (lookup (period_name c.capacity.period) usage) type_error >>= λ u.
    let rest =
      available_loop usage cs (least (left (requests_or_zero c.capacity) u.total_requests) requests)
        (least (left (tokens_or_zero c.capacity) u.used_tokens) tokens)
        (sooner u.remaining_seconds seconds) in
    if is_over (requests_or_zero c.capacity) u.total_requests
      || is_over (tokens_or_zero c.capacity) u.used_tokens
    then ok (used_up u.remaining_seconds)
    else rest

abbrev pub at_prefix : String → List CapacityEntity → List PrefixedCapacity
at_prefix prefix = map (λ c. record { capacity = c; key_prefix = prefix })

-- The discovered capacity of the model, if it is not older than a week: `week_ago` is
-- `subDays(now, 7)`.
unfoldable pub recent_discovered : AiConnectionEntity → String → ℕ → List CapacityEntity
recent_discovered connection model week_ago =
    elim (lookup model (get_or connection.discovered_capacity [])) [
      | none ↦ []
      | some entry ↦ if ltb week_ago entry.updated_at then entry.capacity else []
    ]

-- All capacities that limit a batch.
unfoldable pub batch_capacities :
    String
    → String
    → AiConnectionEntity
    → AiResourceEntity
    → Option (List CapacityEntity)
    → ℕ
    → List ResolvedCapacity
    → List PrefixedCapacity
batch_capacities workspace_id environment_id connection resource batch_capacity week_ago enabled =
    let prefix =
      get_resource_key_prefix workspace_id environment_id resource.resource_id
        connection.connection_id in
    map prefixed enabled
    ++ (at_prefix prefix (get_or batch_capacity [])
        ++ at_prefix prefix (recent_discovered connection resource.model.model week_ago))

module _ (redis : RedisClient) (cal : Calendar) where
  open redis use {Keys}

  -- `retrieveItems` up to the script.
  unfoldable pub availability :
      ℕ
      → ℕ
      → String
      → String
      → AiConnectionEntity
      → AiResourceEntity
      → Option (List CapacityEntity)
      → Keys
      → Result RetrieveError Availability
  unfolding available_loop
  availability now week_ago workspace_id environment_id connection resource batch_capacity keys = do
    r ← map_err capacity_error (resolve workspace_id environment_id connection resource none none)
    let capacity =
        batch_capacities workspace_id environment_id connection resource batch_capacity week_ago
          r.enabled_capacities
    usage ← map_err usage_error (get_usage redis cal keys now capacity)
    available_loop usage capacity none none none

-- No more than: `none` is Infinity.
abbrev pub AtMost : Option ℕ → Option ℕ → Type 0
AtMost a none = Unit
AtMost none (some b) = ⊥
AtMost (some a) (some b) = a ≤ b

AtMost-refl : (a : Option ℕ) → AtMost a a
AtMost-refl none = tt
AtMost-refl (some a) = omega arith

AtMost-trans : (a b c : Option ℕ) → AtMost a b → AtMost b c → AtMost a c
AtMost-trans a b none h k = tt
AtMost-trans a none (some c) h k = absurd k
AtMost-trans none (some b) (some c) h k = h
AtMost-trans (some a) (some b) (some c) h k = omega (arith, h, k)

least-AtMost : (a b : Option ℕ) → AtMost (least a b) a × AtMost (least a b) b
least-AtMost none b = (tt, AtMost-refl b)
least-AtMost (some a) none = (AtMost-refl (some a), tt)
least-AtMost (some a) (some b) = elim (Bool-cases (ltb a b)) [
  | inl below ↦ rw below (ground arith, ground arith)
  | inr above ↦ rw above (ground arith, ground arith)
]

-- A capacity that is not used up, and of which what is available leaves nothing short.
abbrev pub Fits : List (String × UsageMetric) → Option ℕ → Option ℕ → PrefixedCapacity → Type 0
Fits usage requests tokens c =
    (u : UsageMetric) × (lookup (period_name c.capacity.period) usage ≡ some u)
    × (is_over (requests_or_zero c.capacity) u.total_requests ≡ false)
    × (is_over (tokens_or_zero c.capacity) u.used_tokens ≡ false)
    × AtMost requests (left (requests_or_zero c.capacity) u.total_requests)
    × AtMost tokens (left (tokens_or_zero c.capacity) u.used_tokens)

neither : (b c : Bool) → (b || c) ≡ false → (b ≡ false) × (c ≡ false)
neither false false h = (refl, refl)
neither false true h = cc
neither true c h = cc

-- The loop over the capacities reads the usage of each; it stops at one that is used up, or else what
-- it finds available is no more than any of the capacities has left, nor than it started with.
pub available_loop-Fits :
    (usage : List (String × UsageMetric)) (cs : List PrefixedCapacity) (requests tokens : Option ℕ)
    (seconds : Option ℤ)
    → CoversAll usage cs
    → ((s : ℤ) × (available_loop usage cs requests tokens seconds ≡ ok (used_up s)))
      ⊎ ((r : Option ℕ) × (t : Option ℕ) × (s : Option ℤ) × (available_loop usage cs requests tokens
              seconds
            ≡ ok (available r t s))
          × AtMost r requests
          × AtMost t tokens
          × All (Fits usage r t) cs)
unfolding available_loop
available_loop-Fits usage [] requests tokens seconds h =
    inr (requests, tokens, seconds, refl, AtMost-refl requests, AtMost-refl tokens, tt)
available_loop-Fits usage (c ∷ cs) requests tokens seconds ((u, there), h) =
    let of_requests = left (requests_or_zero c.capacity) u.total_requests in
    let of_tokens = left (tokens_or_zero c.capacity) u.used_tokens in
    elim (Bool-cases (
      is_over (requests_or_zero c.capacity) u.total_requests
      || is_over (tokens_or_zero c.capacity) u.used_tokens)) [
        | inl over ↦ inl (u.remaining_seconds, rw (there, over) refl)
        | inr under ↦
            elim (available_loop-Fits usage cs (least of_requests requests) (least of_tokens tokens)
              (sooner u.remaining_seconds seconds) h) [
                | inl (s, stopped) ↦ inl (s, rw (there, under) stopped)
                | inr (r, t, s, done, below_r, below_t, fits) ↦
                    let (within_requests, within_tokens) =
                      neither (is_over (requests_or_zero c.capacity) u.total_requests) _ under in
                    let (r_left, r_before) = least-AtMost of_requests requests in
                    let (t_left, t_before) = least-AtMost of_tokens tokens in
                    inr (
                      r,
                      t,
                      s,
                      rw (there, under) done,
                      AtMost-trans r _ requests below_r r_before,
                      AtMost-trans t _ tokens below_t t_before,
                      (
                        (
                          u,
                          there,
                          within_requests,
                          within_tokens,
                          AtMost-trans r _ of_requests below_r r_left,
                          AtMost-trans t _ of_tokens below_t t_left,
                        ),
                        fits,
                      ),
                    )
              ]
      ]

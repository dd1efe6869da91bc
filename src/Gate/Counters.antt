-- ===== src/Gate/Counters.antt =====
-- The counters of packages/api/src/completion/gate.service.ts: `increaseRpmTpmCounters` and
-- `increaseTokenResponseUsage`.
use open_vm_x_ai.Common.{
  ℕ, ◌-◌, ◌==◌, Option, none, some, get_or, String, List, [], ◌∷◌, if◌then◌else◌, lookup,
}
use open_vm_x_ai.Common.Int.{ℤ, is_positive, pos_part}
use open_vm_x_ai.Redis.{RedisClient}
use open_vm_x_ai.Capacity.Usage.{
  UsageMetric, EvaluatedCapacity, counter_key, requests_key, tokens_key,
}

module _ (redis : RedisClient) where
  open redis use {Keys, incrby, expire}

  -- The transaction `multi() … exec()`, which runs as one.
  unfoldable pub increase_rpm_tpm_counters : Keys → String → ℤ → ℕ → Keys
  increase_rpm_tpm_counters s key left tokens =
      let counted = incrby (incrby s (requests_key key) 1) (tokens_key key) tokens in
      if is_positive left
      then expire (expire counted (requests_key key) (pos_part left - 1)) (tokens_key key)
          (pos_part left - 1)
      else counted

  -- The callback for one capacity: nothing, if the period was not read.
  unfoldable pub increase_for : Option UsageMetric → ℕ → EvaluatedCapacity → Keys → Keys
  increase_for none tokens e s = s
  increase_for (some u) tokens e s =
      increase_rpm_tpm_counters s (counter_key e) u.remaining_seconds tokens

  -- `capacities.map(async ({ period, keyPrefix }) => …)`, in the order of the calls.
  unfoldable pub increase_all :
      List (String × UsageMetric) → ℕ → List EvaluatedCapacity → Keys → Keys
  increase_all usage tokens [] s = s
  increase_all usage tokens (e ∷ es) s =
      increase_all usage tokens es (increase_for (lookup e.period usage) tokens e s)

  -- `completion_tokens` may be missing in the usage that a provider reports.
  unfoldable pub increase_token_response_usage : List EvaluatedCapacity → Option ℕ → Keys → Keys
  increase_token_response_usage [] completion_tokens s = s
  increase_token_response_usage (e ∷ es) completion_tokens s =
      increase_token_response_usage es completion_tokens (
        let tokens = get_or completion_tokens 0 in
        if tokens == 0 then s else incrby s (tokens_key (counter_key e)) tokens)

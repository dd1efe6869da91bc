-- ===== src/Gate/Window.antt =====
-- The counters of one limit within one period: what counting a request does to them.
use text.Mathlib.TextLemmas.{append_cancel_left}
use open_vm_x_ai.Common.{
  ℕ, zero, suc, ◌+◌, ◌-◌, ◌≤◌, ◌<◌, ◌≡◌, ◌≢◌, refl, sym, ◌∙◌, ap, true, Option, none, some, get_or,
  String, ◌⊎◌, inl, inr, arith, ltb, eq_iff,
}
use open_vm_x_ai.Common.Int.{ℤ, pos, negsuc}
use open_vm_x_ai.Redis.{RedisClient}
use open_vm_x_ai.Capacity.{CapacityEntity, requests_or_zero, tokens_or_zero}
use open_vm_x_ai.Capacity.Period.{Calendar}
use open_vm_x_ai.Capacity.Usage.{
  EvaluatedCapacity, counter_key, requests_key, tokens_key, requests_with_this,
}
use open_vm_x_ai.Capacity.Usage.Lookup.{metric}
use open_vm_x_ai.Gate.Counters.{increase_rpm_tpm_counters, increase_for}
use open_vm_x_ai.Gate.Checks.{IsWithin}

suffixes_differ : ◌≢◌ {A = String} ":requests" ":tokens"
suffixes_differ e = cc ((eq_iff ":requests" ":tokens").1 e)

requests_key-ne-tokens_key : (k : String) → requests_key k ≢ tokens_key k
requests_key-ne-tokens_key k e = suffixes_differ (append_cancel_left k ":requests" ":tokens" e)

module _ (redis : RedisClient) (cal : Calendar) where
  open redis use {
    Keys, get, incrby, expire, get-incrby_self, get-incrby_ne, get-expire_suc, get-expire_zero,
    get-expire_ne,
  }

  -- What is counted under the two keys of an entry.
  abbrev pub requests_counted : Keys → EvaluatedCapacity → ℕ
  requests_counted s e = get_or (get s (requests_key (counter_key e))) 0

  abbrev pub tokens_counted : Keys → EvaluatedCapacity → ℕ
  tokens_counted s e = get_or (get s (tokens_key (counter_key e))) 0

  counted_requests :
      (s : Keys) (k : String) (tokens : ℕ)
      → get (incrby (incrby s (requests_key k) 1) (tokens_key k) tokens) (requests_key k)
        ≡ some (get_or (get s (requests_key k)) 0 + 1)
  counted_requests s k tokens =
      get-incrby_ne _ (tokens_key k) (requests_key k) tokens
        (λ e. requests_key-ne-tokens_key k (sym e))
      ∙ get-incrby_self s (requests_key k) 1

  counted_tokens :
      (s : Keys) (k : String) (tokens : ℕ)
      → get (incrby (incrby s (requests_key k) 1) (tokens_key k) tokens) (tokens_key k)
        ≡ some (get_or (get s (tokens_key k)) 0 + tokens)
  counted_tokens s k tokens =
      get-incrby_self _ (tokens_key k) tokens
      ∙ ap (λ o. some (get_or o 0 + tokens))
          (get-incrby_ne s (requests_key k) (tokens_key k) 1 (requests_key-ne-tokens_key k))

  -- A request that is counted before the last second of a period adds 1 to the requests and its
  -- tokens to the tokens of the key (for a limit without end, at any time).
  pub increase_rpm_tpm_counters_lem :
      (s : Keys) (k : String) (left : ℤ) (tokens : ℕ)
      → left ≢ pos 1
      → let s' = increase_rpm_tpm_counters redis s k left tokens in
        (get s' (requests_key k) ≡ some (get_or (get s (requests_key k)) 0 + 1))
        × (get s' (tokens_key k) ≡ some (get_or (get s (tokens_key k)) 0 + tokens))
  unfolding increase_rpm_tpm_counters
  increase_rpm_tpm_counters_lem s k (pos zero) tokens h =
      (counted_requests s k tokens, counted_tokens s k tokens)
  increase_rpm_tpm_counters_lem s k (pos (suc zero)) tokens h = absurd (h refl)
  increase_rpm_tpm_counters_lem s k (pos (suc (suc n))) tokens h =
      let less : suc (suc n) - 1 ≡ suc n = omega arith in
      let some_left : ltb 0 (suc (suc n)) ≡ true = ground arith in
      rw (less, some_left)
        (
          get-expire_suc _ (tokens_key k) (requests_key k) n
              ∙ get-expire_suc _ (requests_key k) (requests_key k) n
              ∙ counted_requests s k tokens,
          get-expire_suc _ (tokens_key k) (tokens_key k) n
              ∙ get-expire_suc _ (requests_key k) (tokens_key k) n
              ∙ counted_tokens s k tokens,
        )
  increase_rpm_tpm_counters_lem s k (negsuc n) tokens h =
      (counted_requests s k tokens, counted_tokens s k tokens)

  -- In the last second of a period the counters are deleted with the request that they count: the
  -- time to live is one second less than what is left of the period, and 0 deletes a key.
  pub counters_lost_in_last_second :
      (s : Keys) (k : String) (tokens : ℕ)
      → let s' = increase_rpm_tpm_counters redis s k (pos 1) tokens in
        (get s' (requests_key k) ≡ none) × (get s' (tokens_key k) ≡ none)
  unfolding increase_rpm_tpm_counters
  counters_lost_in_last_second s k tokens = (
    get-expire_ne _ (tokens_key k) (requests_key k) 0 (λ e. requests_key-ne-tokens_key k (sym e))
        ∙ get-expire_zero _ (requests_key k),
    get-expire_zero _ (tokens_key k),
  )

  last_second? : (left : ℤ) → (left ≡ pos 1) ⊎ (left ≢ pos 1)
  last_second? (pos zero) = inr (λ e. cc)
  last_second? (pos (suc zero)) = inl refl
  last_second? (pos (suc (suc n))) = inr (λ e. cc)
  last_second? (negsuc n) = inr (λ e. cc)

  counted_within :
      (o : Option ℕ) (limit : ℕ)
      → 0 < limit
      → (0 < limit → requests_with_this o ≤ limit)
      → get_or o 0 + 1 ≤ limit
  counted_within none limit p h = omega arith
  counted_within (some n) limit p h = h p

  -- If a request is within a limit, as its counters are read, then counting it right after keeps
  -- the counters of the limit within it, in requests as in tokens (where a limit of 0 is none).
  pub counting_keeps_limit :
      (s : Keys) (e : EvaluatedCapacity) (left : ℤ) (c : CapacityEntity) (tokens : ℕ)
      → IsWithin tokens c (metric redis cal s left e)
      → let s' = increase_for redis (some (metric redis cal s left e)) tokens e s in
        (0 < requests_or_zero c → requests_counted s' e ≤ requests_or_zero c)
        × (0 < tokens_or_zero c → tokens_counted s' e ≤ tokens_or_zero c)
  unfolding increase_for
  counting_keeps_limit s e left c tokens w = elim (last_second? left) [
    | inl last ↦
        let (gone, gone') = counters_lost_in_last_second s (counter_key e) tokens in
        rw (last, gone, gone') (λ p. omega arith, λ p. omega arith)
    | inr more ↦
        let (requests, used) = increase_rpm_tpm_counters_lem s (counter_key e) left tokens more in
        rw (requests, used)
          (
            λ p.
                counted_within (get s (requests_key (counter_key e))) (requests_or_zero c) p
                  w.requests_fit,
            w.tokens_fit,
          )
  ]

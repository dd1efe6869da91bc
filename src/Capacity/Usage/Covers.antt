-- ===== src/Capacity/Usage/Covers.antt =====
-- `getUsage` of packages/api/src/capacity/capacity.service.ts leaves no period out.
use open_vm_x_ai.Common.{
  ℕ, ◌≡◌, refl, sym, ◌∙◌, ap, some, String, List, [], ◌∷◌, map, ok, lookup, All, Option-cases,
  eq_refl, inl, inr,
}
use mathlib.Core.Option
use mathlib.Core.Option.{some_inj}
use open_vm_x_ai.Common.Int.{ℤ}
use open_vm_x_ai.Redis.{RedisClient}
use open_vm_x_ai.Capacity.{period_name}
use open_vm_x_ai.Capacity.Period.{Calendar, remaining_seconds, remaining_seconds-total}
use open_vm_x_ai.Capacity.Usage.{
  PrefixedCapacity, UsageMetric, EvaluatedCapacity, uniq, period_key, before_mark, evaluated,
  uniq_periods, get_usage, before_mark-period_key,
}
use open_vm_x_ai.Capacity.Usage.Lookup.{
  last_with, All-of_uniq, All-of_map, metric, get_usage-lookup,
}

abbrev HasLast : String → List EvaluatedCapacity → Type 0
HasLast p es = (e : EvaluatedCapacity) × (last_with p es ≡ some e)

last_with-cons_self :
    (e : EvaluatedCapacity) (es : List EvaluatedCapacity) → HasLast e.period (e ∷ es)
unfolding last_with
last_with-cons_self e es = elim (Option-cases (last_with e.period es)) [
  | inl none_later ↦ (e, rw (none_later, eq_refl e.period) refl)
  | inr (f, later) ↦ (f, rw later refl)
]

last_with-cons :
    (p : String) (e : EvaluatedCapacity) (es : List EvaluatedCapacity)
    → HasLast p es
    → HasLast p (e ∷ es)
unfolding last_with
last_with-cons p e es (f, later) = (f, rw later refl)

All-imp :
    (P Q : String → Type 0) (ks : List String) → ((k : String) → P k → Q k) → All P ks → All Q ks
All-imp P Q [] f h = tt
All-imp P Q (k ∷ ks) f (h, hs) = (f k h, All-imp P Q ks f hs)

All-HasLast : (ks : List String) → All (λ k. HasLast (before_mark k) (map evaluated ks)) ks
All-HasLast [] = tt
All-HasLast (k ∷ ks) = (
  last_with-cons_self (evaluated k) (map evaluated ks),
  All-imp _ _ ks (λ j h. last_with-cons (before_mark j) (evaluated k) (map evaluated ks) h)
      (All-HasLast ks),
)

-- Each capacity's period has an entry.
uniq_periods-HasLast :
    (caps : List PrefixedCapacity)
    → All (λ c. HasLast (before_mark (period_key c)) (uniq_periods caps)) caps
unfolding uniq_periods
uniq_periods-HasLast caps =
    let keys = map period_key caps in
    All-of_map (λ k. HasLast (before_mark k) (map evaluated (uniq keys))) period_key caps
      (All-of_uniq (λ k. HasLast (before_mark k) (map evaluated (uniq keys))) keys
        (All-HasLast (uniq keys)))

-- The usage map has an entry for the period of each capacity that it was read for.
abbrev pub CoversAll : List (String × UsageMetric) → List PrefixedCapacity → Type 0
CoversAll m caps =
    All (λ c. (u : UsageMetric) × (lookup (period_name c.capacity.period) m ≡ some u)) caps

module _ (redis : RedisClient) (cal : Calendar) where
  open redis use {Keys}

  CoversAll-from :
      (s : Keys) (now : ℕ) (es : List EvaluatedCapacity) (m : List (String × UsageMetric))
      → ((p : String) (left : ℤ)
          → remaining_seconds cal p now ≡ some left
          → lookup p m ≡ Option.map (metric redis cal s left) (last_with p es))
      → (caps : List PrefixedCapacity) → All (λ c. HasLast (before_mark (period_key c)) es) caps
      → CoversAll m caps
  CoversAll-from s now es m each [] h = tt
  CoversAll-from s now es m each (c ∷ caps) ((e, last), h) =
      let (left, has) = remaining_seconds-total cal c.capacity.period now in
      let last' : last_with (period_name c.capacity.period) es ≡ some e =
        ap (λ p. last_with p es) (sym (before_mark-period_key c)) ∙ last in
      (
        (
          metric redis cal s left e,
          each (period_name c.capacity.period) left has
              ∙ ap (Option.map (metric redis cal s left)) last',
        ),
        CoversAll-from s now es m each caps h,
      )

  -- The reading of the counters always answers, and the period of each capacity that it is asked
  -- for has an entry in the answer.
  pub get_usage-CoversAll :
      (s : Keys) (now : ℕ) (caps : List PrefixedCapacity)
      → (m : List (String × UsageMetric)) × (get_usage redis cal s now caps ≡ ok m)
        × CoversAll m caps
  get_usage-CoversAll s now caps =
      let (m, done, each) = get_usage-lookup redis cal s now caps in
      (m, done, CoversAll-from s now (uniq_periods caps) m each caps (uniq_periods-HasLast caps))

-- ===== src/Capacity/Usage/Lookup.antt =====
-- What `getUsage` answers: it always answers, and for a period it tells of the last prefix that has it.
use open_vm_x_ai.Common.{
  ℕ, ◌≡◌, refl, sym, ◌∙◌, ap, subst, Bool, true, false, not, Option, none, some, get_or, String,
  List, [], ◌∷◌, map, ok, or_throw, str_eq, if◌then◌else◌, lookup, insert, lookup-insert, All,
  filter, Bool-cases, eq_iff, inl, inr, arith,
}
use mathlib.Core.Option
use mathlib.Core.Option.{some_inj}
use open_vm_x_ai.Common.Int.{ℤ}
use open_vm_x_ai.Redis.{RedisClient}
use open_vm_x_ai.Capacity.{CapacityPeriod, period_name}
use open_vm_x_ai.Capacity.Period.{Calendar, remaining_seconds, remaining_seconds-total}
use open_vm_x_ai.Capacity.Usage.{
  PrefixedCapacity, UsageMetric, EvaluatedCapacity, uniq, period_key, before_mark, evaluated,
  uniq_periods, counter_key, requests_key, tokens_key, requests_with_this, usage_of, usage_from,
  get_usage, before_mark-period_key,
}

-- The last entry of a period.
unfoldable pub last_with : String → List EvaluatedCapacity → Option EvaluatedCapacity
last_with p [] = none
last_with p (e ∷ es) = elim (last_with p es) [
  | some found ↦ some found
  | none ↦ if str_eq e.period p then some e else none
]

last_with-nil : (p : String) → last_with p [] ≡ none
unfolding last_with
last_with-nil p = refl

-- Every entry has the name of a period.
abbrev HasPeriods : List EvaluatedCapacity → Type 0
HasPeriods es = All (λ e. (p : CapacityPeriod) × (e.period ≡ period_name p)) es

All-filter :
    (P : String → Type 0) (f : String → Bool) (ks : List String) → All P ks → All P (filter f ks)
All-filter P f [] h = tt
All-filter P f (k ∷ ks) (h, hs) = ground (arith, All-filter P f ks hs)

pub All-uniq : (P : String → Type 0) (ks : List String) → All P ks → All P (uniq ks)
unfolding uniq
All-uniq P [] h = tt
All-uniq P (k ∷ ks) (h, hs) = (h, All-filter P _ (uniq ks) (All-uniq P ks hs))

All-of_filter :
    (P : String → Type 0) (k : String) (ks : List String)
    → P k
    → All P (filter (λ j. not (str_eq j k)) ks)
    → All P ks
All-of_filter P k [] h hs = tt
All-of_filter P k (j ∷ ks) h hs = elim (Bool-cases (str_eq j k)) [
  | inl same ↦ (subst P (sym ((eq_iff j k).0 same)) h, All-of_filter P k ks h (rw same at hs))
  | inr other ↦ let (here, later) = (rw other at hs) in (here, All-of_filter P k ks h later)
]

-- What holds of the distinct keys holds of all.
pub All-of_uniq : (P : String → Type 0) (ks : List String) → All P (uniq ks) → All P ks
unfolding uniq
All-of_uniq P [] h = tt
All-of_uniq P (k ∷ ks) (h, hs) = (h, All-of_uniq P ks (All-of_filter P k (uniq ks) h hs))

All-map {ℓ} :
    {A : Type ℓ} {B : Type ℓ} (P : B → Type 0) (f : A → B) (xs : List A)
    → All (λ x. P (f x)) xs
    → All P (map f xs)
All-map P f [] h = tt
All-map P f (x ∷ xs) (h, hs) = (h, All-map P f xs hs)

pub All-of_map {ℓ} :
    {A : Type ℓ} {B : Type ℓ} (P : B → Type 0) (f : A → B) (xs : List A)
    → All P (map f xs)
    → All (λ x. P (f x)) xs
All-of_map P f [] h = tt
All-of_map P f (x ∷ xs) (h, hs) = (h, All-of_map P f xs hs)

All-caps :
    (P : PrefixedCapacity → Type 0) (caps : List PrefixedCapacity)
    → ((c : PrefixedCapacity) → P c)
    → All P caps
All-caps P [] h = tt
All-caps P (c ∷ caps) h = (h c, All-caps P caps h)

uniq_periods-HasPeriods : (caps : List PrefixedCapacity) → HasPeriods (uniq_periods caps)
unfolding uniq_periods
uniq_periods-HasPeriods caps = All-map _ evaluated (uniq (map period_key caps)) (
    All-uniq (λ k. (p : CapacityPeriod) × (before_mark k ≡ period_name p)) (map period_key caps)
      (All-map _ period_key caps
        (All-caps _ caps (λ c. (c.capacity.period, before_mark-period_key c)))))

module _ (redis : RedisClient) (cal : Calendar) where
  open redis use {Keys, get}

  -- What the counters of an entry hold.
  abbrev pub metric : Keys → ℤ → EvaluatedCapacity → UsageMetric
  metric s left e = record {
    total_requests = requests_with_this (get s (requests_key (counter_key e)));
    used_tokens = get_or (get s (tokens_key (counter_key e))) 0;
    remaining_seconds = left;
  }

  abbrev pub or_else_lookup : Option UsageMetric → Option UsageMetric → Option UsageMetric
  or_else_lookup (some u) o = some u
  or_else_lookup none o = o

  last_step :
      (s : Keys) (left left' : ℤ) (e : EvaluatedCapacity) (p : String) (es : List EvaluatedCapacity)
      (acc : List (String × UsageMetric))
      → (str_eq e.period p ≡ true → left ≡ left')
      → or_else_lookup
          (Option.map (metric s left') (last_with p es))
          (lookup p (insert e.period (metric s left e) acc))
        ≡ or_else_lookup (Option.map (metric s left') (last_with p (e ∷ es))) (lookup p acc)
  unfolding last_with
  last_step s left left' e p es acc h =
      rw (lookup-insert e.period p (metric s left e) acc)
        (cases (last_with p es) (str_eq e.period p) h)
    where
      cases :
          (o : Option EvaluatedCapacity) (b : Bool)
          → (b ≡ true → left ≡ left')
          → or_else_lookup
              (Option.map (metric s left') o)
              (if b then some (metric s left e) else lookup p acc)
            ≡ or_else_lookup
                (Option.map
                  (metric s left')
                  (elim o [ some found ↦ some found | none ↦ if b then some e else none ]))
                (lookup p acc)
      cases (some found) b h = refl
      cases none true h = rw (h refl) refl
      cases none false h = refl

  or_else_none : (p : String) (o : Option UsageMetric) → or_else_lookup o (lookup p []) ≡ o
  unfolding lookup
  or_else_none p none = refl
  or_else_none p (some u) = refl

  usage_from-lookup :
      (s : Keys) (now : ℕ) (es : List EvaluatedCapacity) (acc : List (String × UsageMetric))
      → HasPeriods es
      → (m : List (String × UsageMetric)) × (usage_from redis cal s now acc es ≡ ok m)
        × ((p : String) (left : ℤ)
            → remaining_seconds cal p now ≡ some left
            → lookup p m
              ≡ or_else_lookup (Option.map (metric s left) (last_with p es)) (lookup p acc))
  unfolding usage_from usage_of
  usage_from-lookup s now [] acc h = (acc, refl, λ p left e. rw (last_with-nil p) refl)
  usage_from-lookup s now (e ∷ es) acc ((q, named), h) =
      let (left, has) = remaining_seconds-total cal q now in
      let has' : remaining_seconds cal e.period now ≡ some left = rw named has in
      let (m, done, each) = usage_from-lookup s now es (insert e.period (metric s left e) acc) h in
      (
        m,
        rw (has', or_throw) done,
        λ p left' here.
            each p left' here
            ∙ last_step s left left' e p es acc (λ same. some_inj.0 (
                sym has'
                ∙ ap (λ x. remaining_seconds cal x now) ((eq_iff e.period p).0 same)
                ∙ here)),
      )

  -- The counters can always be read, and the answer tells of a period what the counters of the last
  -- entry with that period hold (of none, if there is no such entry): the number of requests with
  -- this one, if there were any before, the tokens, and the seconds that are left.
  pub get_usage-lookup :
      (s : Keys) (now : ℕ) (caps : List PrefixedCapacity)
      → (m : List (String × UsageMetric)) × (get_usage redis cal s now caps ≡ ok m)
        × ((p : String) (left : ℤ)
            → remaining_seconds cal p now ≡ some left
            → lookup p m ≡ Option.map (metric s left) (last_with p (uniq_periods caps)))
  unfolding get_usage
  get_usage-lookup s now caps =
      let (m, done, each) =
        usage_from-lookup s now (uniq_periods caps) [] (uniq_periods-HasPeriods caps) in
      (
        m,
        done,
        λ p left here.
            each p left here
            ∙ or_else_none p (Option.map (metric s left) (last_with p (uniq_periods caps))),
      )

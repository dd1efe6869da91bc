-- ===== src/Capacity/Usage.antt =====
-- `getUsage` of packages/api/src/capacity/capacity.service.ts: what the counters of the capacities
-- hold, by period.
pub mod Lookup
pub mod Covers
use Prim.Native.Char.{Char, code}
use Prim.Native.String
use Prim.Native.String.{String, [], ◌∷◌, ◌++◌}
use text.Mathlib.TextLemmas.{nil-append, cons-append, append_assoc}
use open_vm_x_ai.Common.{
  ℕ, ◌+◌, ◌≡◌, refl, sym, ap, ◌∙◌, subst, Bool, true, false, not, ◌&&◌, Option, none, some, get_or,
  List, Result, ok, err, ◌>>=◌, or_throw, ◌==◌, str_eq, if◌then◌else◌, lookup, insert,
  lookup-insert, All, filter, map, Bool-cases, eq_iff, eq_refl, inl, inr, arith,
}
use open_vm_x_ai.Common
use open_vm_x_ai.Common.Int.{ℤ}
use open_vm_x_ai.Redis.{RedisClient}
use open_vm_x_ai.Capacity.{
  CapacityEntity, CapacityPeriod, minute, hour, day, week, month, lifetime, period_name,
}
use open_vm_x_ai.Capacity.Period.{Calendar, remaining_seconds, remaining_seconds-total}

pub record PrefixedCapacity : Type 0 where
  pub capacity : CapacityEntity
  pub key_prefix : String

pub record UsageMetric : Type 0 where
  pub total_requests : ℕ
  pub used_tokens : ℕ
  pub remaining_seconds : ℤ

-- A period, by its name, and the prefix of its counters: `EvaluatedCapacity` of
-- packages/api/src/completion/gate.service.ts.
pub record EvaluatedCapacity : Type 0 where
  pub period : String
  pub key_prefix : String

-- The TypeError of calling `capacityPeriodMap[period]` where there is no such function.
pub data UsageError : Type 0 where
  unknown_period : UsageError

-- `new Set(keys)`, in the order of insertion.
unfoldable pub uniq : List String → List String
uniq Common.[] = Common.[]
uniq (Common.◌∷◌ k ks) = Common.◌∷◌ k (filter (λ j. not (str_eq j k)) (uniq ks))

-- `${capacity.period}##${keyPrefix}`.
unfoldable pub period_key : PrefixedCapacity → String
period_key c = period_name c.capacity.period ++ ("##" ++ c.key_prefix)

-- `key.split('##')[0]`.
unfoldable pub before_mark : String → String
before_mark [] = []
before_mark (c ∷ []) = c ∷ []
before_mark (c ∷ d ∷ s) = if code c == b'#' && code d == b'#' then [] else c ∷ before_mark (d ∷ s)

-- What stands behind the first mark.
after_mark : String → String
after_mark [] = []
after_mark (c ∷ []) = []
after_mark (c ∷ d ∷ s) = if code c == b'#' && code d == b'#' then s else after_mark (d ∷ s)

-- `key.split('##')[1]`, of a key that has a mark.
unfoldable pub second_part : String → String
unfolding before_mark after_mark
second_part key = before_mark (after_mark key)

abbrev pub evaluated : String → EvaluatedCapacity
evaluated key = record { period = before_mark key; key_prefix = second_part key }

-- `uniqPeriods`, which `requestGate` computes too.
unfoldable pub uniq_periods : List PrefixedCapacity → List EvaluatedCapacity
unfolding uniq period_key second_part
uniq_periods caps = map evaluated (uniq (map period_key caps))

abbrev pub counter_key : EvaluatedCapacity → String
counter_key e = e.key_prefix ++ e.period

abbrev pub requests_key : String → String
requests_key key = key ++ ":requests"

abbrev pub tokens_key : String → String
tokens_key key = key ++ ":tokens"

-- `totalRequestsOpt ? parseInt(totalRequestsOpt) + 1 : 0`: the request itself counts too, unless
-- there is no counter yet.
abbrev pub requests_with_this : Option ℕ → ℕ
requests_with_this none = 0
requests_with_this (some n) = n + 1

abbrev UsageMap : Type 0
UsageMap = List (String × UsageMetric)

module _ (redis : RedisClient) (cal : Calendar) where
  open redis use {Keys, get}

  unfoldable pub usage_of : Keys → ℕ → EvaluatedCapacity → Result UsageError UsageMetric
  usage_of s now e = do
    left ← or_throw (remaining_seconds cal e.period now) unknown_period
    ok (record {
      total_requests = requests_with_this (get s (requests_key (counter_key e)));
      used_tokens = get_or (get s (tokens_key (counter_key e))) 0;
      remaining_seconds = left;
    })

  -- The counters of each period and prefix, put into one object by period.
  unfoldable pub usage_from :
      Keys → ℕ → UsageMap → List EvaluatedCapacity → Result UsageError UsageMap
  usage_from s now acc Common.[] = ok acc
  usage_from s now acc (Common.◌∷◌ e es) = do
    u ← usage_of s now e
    usage_from s now (insert e.period u acc) es

  unfoldable pub get_usage : Keys → ℕ → List PrefixedCapacity → Result UsageError UsageMap
  unfolding usage_from
  get_usage s now caps = usage_from s now Common.[] (uniq_periods caps)

-- A text with no `#`.
no_hash : String → Bool
no_hash [] = true
no_hash (c ∷ s) = not (code c == b'#') && no_hash s

before_mark-mark : (k : String) → before_mark ("##" ++ k) ≡ []
unfolding before_mark
before_mark-mark k = rw cons-append (rw cons-append refl)

after_mark-mark : (k : String) → after_mark ("##" ++ k) ≡ k
unfolding after_mark
after_mark-mark k = rw cons-append (rw cons-append (nil-append k))

-- A text with no `#` in front of the mark is what the split gives first.
before_mark-append : (s k : String) → no_hash s ≡ true → before_mark (s ++ ("##" ++ k)) ≡ s
unfolding before_mark no_hash
before_mark-append [] k h = rw nil-append (before_mark-mark k)
before_mark-append (c ∷ []) k h =
    rw cons-append (rw nil-append (rw cons-append (rw cons-append (ground (arith, h)))))
before_mark-append (c ∷ d ∷ s) k h =
    let ih : before_mark (d ∷ (s ++ ("##" ++ k))) ≡ d ∷ s =
      rw cons-append at (before_mark-append (d ∷ s) k (ground arith)) in
    rw cons-append (rw cons-append (ground (arith, ih)))

after_mark-append : (s k : String) → no_hash s ≡ true → after_mark (s ++ ("##" ++ k)) ≡ k
unfolding after_mark no_hash
after_mark-append [] k h = rw nil-append (after_mark-mark k)
after_mark-append (c ∷ []) k h =
    rw cons-append
      (rw nil-append (rw cons-append (rw cons-append (ground (arith, h, nil-append k)))))
after_mark-append (c ∷ d ∷ s) k h =
    let ih : after_mark (d ∷ (s ++ ("##" ++ k))) ≡ k =
      rw cons-append at (after_mark-append (d ∷ s) k (ground arith)) in
    rw cons-append (rw cons-append (ground (arith, ih)))

period_name-no_hash : (p : CapacityPeriod) → no_hash (period_name p) ≡ true
unfolding no_hash period_name
period_name-no_hash minute = refl
period_name-no_hash _ = refl

-- The period of a key is read back from it, and so is the prefix, up to a mark of its own.
pub before_mark-period_key :
    (c : PrefixedCapacity) → before_mark (period_key c) ≡ period_name c.capacity.period
unfolding period_key
before_mark-period_key c =
    before_mark-append (period_name c.capacity.period) c.key_prefix
      (period_name-no_hash c.capacity.period)

pub second_part-period_key :
    (c : PrefixedCapacity) → second_part (period_key c) ≡ before_mark c.key_prefix
unfolding period_key second_part
second_part-period_key c = ap before_mark (
    after_mark-append (period_name c.capacity.period) c.key_prefix
      (period_name-no_hash c.capacity.period))

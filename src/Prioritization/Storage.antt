-- ===== src/Prioritization/Storage.antt =====
-- packages/api/src/prioritization/storage/redis: the repositories of the prioritization in Redis.
-- Metrics are counters and sorted sets for each minute of a connection; an allocation is a text.
pub mod Window
mod Tests
use Prim.Native.Char.{code}
use Prim.Native.String.{◌++◌}
use open_vm_x_ai.Common.{
  ℕ, zero, suc, ◌+◌, ◌-◌, ◌*◌, ◌/◌, ◌≡◌, Bool, true, false, ◌&&◌, Option, none, some, get_or,
  get_elem?, String, List, [], ◌∷◌, ◌==◌, filter, str_eq, leb, insert, lookup, if◌then◌else◌,
}
use mathlib.Core.List.{◌++◌ as append}
use open_vm_x_ai.Entities.{PoolDefinitionEntry, PoolDefinitionEntity}
use open_vm_x_ai.Redis.{RedisClient}
use open_vm_x_ai.Redis.Sets.{SortedSets}
use open_vm_x_ai.Batch.Keys.{Numerals}
use open_vm_x_ai.Prioritization.Allocations.{PoolWorkloadAllocation}

-- `format(time, 'yyyy-MM-dd-HH-mm')` of date-fns: two times have one text exactly if they are in one
-- minute, as in any zone whose clock is not set back.
pub record Clock : Type 0 where
  pub format : ℕ → String
  pub format-same : (a b : ℕ) → a / 60000 ≡ b / 60000 → str_eq (format a) (format b) ≡ true
  pub format-other : (a b : ℕ) → str_eq (format a) (format b) ≡ true → a / 60000 ≡ b / 60000

-- JSON.stringify on allocations, and JSON.parse on the texts that it gives.
pub record AllocationTexts : Type 0 where
  pub stringify : PoolWorkloadAllocation → String
  pub parse : String → Option PoolWorkloadAllocation

-- `addMinutes(begin, 1)`.
abbrev pub one_minute : ℕ
one_minute = 60000

-- A number, or NaN, which is `none`.
abbrev pub add_number : Option ℕ → Option ℕ → Option ℕ
add_number (some m) (some n) = some (m + n)
add_number _ _ = none

-- `acc[pool] || 0`.
abbrev pub number_or_zero : Option (Option ℕ) → Option ℕ
number_or_zero (some (some n)) = some n
number_or_zero _ = some 0

abbrev prepend_time {ℓ} : {A : Type ℓ} → A → Option (List A) → Option (List A)
prepend_time x none = none
prepend_time x (some xs) = some (x ∷ xs)

abbrev start_part : List String → String → List String
start_part [] c = c ∷ []
start_part (part ∷ parts) c = (c ++ part) ∷ parts

-- `split('#')`.
unfoldable pub split_hash : String → List String
split_hash String.[] = "" ∷ []
split_hash (String.◌∷◌ c s) =
    let rest = split_hash s in
    if code c == b'#' then "" ∷ rest else start_part rest (String.◌∷◌ c "")

abbrev pub part_or_nothing : ℕ → List String → String
part_or_nothing i parts = get_or (get_elem? parts i) ""

module _ (clock : Clock) where
  open clock use {format}

  -- `getConnectionUsageKey`.
  unfoldable pub get_connection_usage_key : String → ℕ → String
  get_connection_usage_key connection time =
      "ai-connection-usage:" ++ (connection ++ (":" ++ format time))

  abbrev pub pool_key : String → ℕ → String → String
  pool_key connection time name = get_connection_usage_key connection time ++ (":" ++ name)

  abbrev pub same_minute : ℕ → ℕ → Bool
  same_minute a b = str_eq (format a) (format b)

  -- The loop of getMetricByWindow and getResourceMetricByWindow, on fuel: the times whose keys it
  -- collects. Each turn takes the key of `begin`, and the next time is a minute after `begin` too.
  unfoldable pub window_loop : ℕ → ℕ → ℕ → ℕ → Option (List ℕ)
  window_loop zero begin request current = none
  window_loop (suc fuel) begin request current =
      let rest = window_loop fuel begin request (begin + one_minute) in
      if same_minute current request then some [] else prepend_time begin rest

  abbrev and_request : ℕ → Option (List ℕ) → Option (List ℕ)
  and_request request none = none
  and_request request (some times) = some (append times (request ∷ []))

  -- `cacheKeys`, by their times, for the window of milliseconds before the request.
  unfoldable pub window_times : ℕ → ℕ → ℕ → Option (List ℕ)
  unfolding window_loop
  window_times fuel request window =
      let begin = request - window in and_request request (window_loop fuel begin request begin)

  module _ (redis : RedisClient) (sets : SortedSets) (numerals : Numerals)
      (texts : AllocationTexts) where
    open redis use {Keys, get, incrby, expire}
    open sets use {Sets, zscore, zrange, zadd}
    open numerals use {print, read}
    open texts use {stringify, parse}

    -- What is kept: the counters, the sorted sets, and the texts of the allocations.
    pub record StorageKeys : Type 0 where
      pub counters : Keys
      pub members : Sets
      pub allocations : List (String × String)

    -- `getMinuteMetricByPool`.
    unfoldable pub get_minute_metric_by_pool : StorageKeys → ℕ → String → PoolDefinitionEntry → ℕ
    unfolding get_connection_usage_key
    get_minute_metric_by_pool s time connection pool =
        get_or (get s.counters (pool_key connection time pool.name ++ ":tokens")) 0

    -- `getMinuteMetric`.
    unfoldable pub get_minute_metric : StorageKeys → ℕ → String → ℕ
    unfolding get_connection_usage_key
    get_minute_metric s time connection =
        get_or (get s.counters (get_connection_usage_key connection time ++ ":tokens")) 0

    -- The members of these keys whose scores are between two times, by ZRANGEBYSCORE.
    abbrev pub is_between : ℕ → ℕ → Option ℕ → Bool
    is_between from_ to_ none = false
    is_between from_ to_ (some score) = leb from_ score && leb score to_

    abbrev pub members_between : Sets → ℕ → ℕ → List String → List String
    members_between ms from_ to_ [] = []
    members_between ms from_ to_ (key ∷ keys) =
        append (filter (λ m. is_between from_ to_ (zscore ms key m)) (zrange ms key))
          (members_between ms from_ to_ keys)

    abbrev pub keys_of : String → String → List ℕ → List String
    keys_of connection name [] = []
    keys_of connection name (time ∷ times) =
        pool_key connection time name ∷ keys_of connection name times

    -- `parseInt`, of what may be no number.
    abbrev pub parsed_part : ℕ → String → Option ℕ
    unfolding split_hash
    parsed_part i member = read (part_or_nothing i (split_hash member))

    abbrev pub sum_of : List String → Option ℕ
    sum_of [] = some 0
    sum_of (m ∷ ms) = add_number (parsed_part 1 m) (sum_of ms)

    abbrev pub sum_between : StorageKeys → ℕ → ℕ → List String → Option ℕ
    sum_between s begin now keys = sum_of (members_between s.members begin now keys)

    abbrev pub on_times {ℓ} : {A : Type ℓ} → (List ℕ → A) → Option (List ℕ) → Option A
    on_times f none = none
    on_times f (some times) = some (f times)

    -- `getMetricByWindow`, at this time of the clock, where the loop ends within the fuel.
    unfoldable pub get_metric_by_window :
        ℕ → ℕ → StorageKeys → ℕ → String → ℕ → PoolDefinitionEntry → Option (Option ℕ)
    unfolding window_times get_connection_usage_key
    get_metric_by_window fuel now s request connection window pool =
        on_times
          (λ times. sum_between s (request - window) now (keys_of connection pool.name times))
          (window_times fuel request window)

    -- The tokens of each pool, which start at 0.
    abbrev pub zeros_from :
        List (String × Option ℕ) → List PoolDefinitionEntry → List (String × Option ℕ)
    zeros_from totals [] = totals
    zeros_from totals (p ∷ ps) = zeros_from (insert p.name (some 0) totals) ps

    abbrev pub add_member : List (String × Option ℕ) → String → List (String × Option ℕ)
    add_member totals m =
        let pool = part_or_nothing 0 (split_hash m) in
        insert pool (add_number (number_or_zero (lookup pool totals)) (parsed_part 2 m)) totals

    abbrev pub add_members : List (String × Option ℕ) → List String → List (String × Option ℕ)
    add_members totals [] = totals
    add_members totals (m ∷ ms) = add_members (add_member totals m) ms

    -- `getResourceMetricByWindow`.
    unfoldable pub get_resource_metric_by_window :
        ℕ
        → ℕ
        → StorageKeys
        → ℕ
        → String
        → ℕ
        → PoolDefinitionEntity
        → Option (List (String × Option ℕ))
    unfolding window_times get_connection_usage_key split_hash
    get_resource_metric_by_window fuel now s request connection window pool =
        on_times
          (λ times. add_members (zeros_from [] pool.definition) (
            members_between s.members (request - window) now (keys_of connection "allpools" times)))
          (window_times fuel request window)

    -- `expireIn`, which counters get too.
    abbrev pub expire_in : ℕ
    expire_in = 60 * 5

    abbrev pub count_tokens : Keys → String → ℕ → Keys
    count_tokens counters key tokens = expire (incrby counters key tokens) key expire_in

    -- `write`, in the order of its commands.
    unfoldable pub write_metric : StorageKeys → ℕ → ℕ → String → PoolDefinitionEntry → StorageKeys
    unfolding get_connection_usage_key
    write_metric s time tokens connection pool =
        let usage = get_connection_usage_key connection time in
        let key = pool_key connection time pool.name in
        let entry = print time ++ ("#" ++ print tokens) in
        record {
          counters =
              count_tokens (count_tokens s.counters (usage ++ ":tokens") tokens) (key ++ ":tokens")
                tokens;
          members =
              zadd (zadd (zadd s.members key time entry) usage time entry) (usage ++ ":allpools")
                time (pool.name ++ ("#" ++ entry));
          allocations = s.allocations;
        }

    -- The allocation repository: `get` and `write`.
    abbrev pub allocation_key : String → String
    allocation_key connection = "allocation:" ++ connection

    abbrev parse_some : Option String → Option PoolWorkloadAllocation
    parse_some none = none
    parse_some (some text) = if str_eq text "" then none else parse text

    unfoldable pub get_allocation : StorageKeys → String → Option PoolWorkloadAllocation
    get_allocation s connection = parse_some (lookup (allocation_key connection) s.allocations)

    unfoldable pub write_allocation : StorageKeys → String → PoolWorkloadAllocation → StorageKeys
    write_allocation s connection allocation = record {
      counters = s.counters;
      members = s.members;
      allocations = insert (allocation_key connection) (stringify allocation) s.allocations;
    }

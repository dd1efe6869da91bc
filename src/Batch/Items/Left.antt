-- ===== src/Batch/Items/Left.antt =====
-- `retrieveItems` of packages/api/src/completion/batch/batch-queue.service.ts and what the
-- capacities have left: the arithmetic of one capacity, and of the loop over them.
use open_vm_x_ai.Common.{
  ℕ, zero, suc, ◌+◌, ◌-◌, ◌≤◌, ◌<◌, ◌≡◌, refl, subst, Bool, true, false, ◌||◌, min, Option, none,
  some, String, List, [], ◌∷◌, ok, ltb, lookup, length, All, inl, inr, Bool-cases, arith,
}
use open_vm_x_ai.Common.Int.{ℤ}
use open_vm_x_ai.Capacity.{period_name, requests_or_zero, tokens_or_zero}
use open_vm_x_ai.Capacity.Usage.{PrefixedCapacity, UsageMetric}
use open_vm_x_ai.Gate.Limits.{is_over}
use open_vm_x_ai.Batch.Retrieve.{is_over_tokens}
use open_vm_x_ai.Batch.Retrieve.Script.{total_cost}
use open_vm_x_ai.Batch.Available.{available, left, least, available_loop, AtMost, Fits}
use open_vm_x_ai.Batch.Items.{Retrieval, retrieved, max_to_retrieve}

-- What is retrieved fits into the tokens that a capacity has left.
abbrev pub InTokens :
    List (String × UsageMetric) → (String → ℕ) → List String → PrefixedCapacity → Type 0
InTokens usage cost items c =
    (u : UsageMetric) × (lookup (period_name c.capacity.period) usage ≡ some u)
    × (0 < tokens_or_zero c.capacity
        → u.used_tokens + total_cost cost items ≤ tokens_or_zero c.capacity)

abbrev pub InRequests : List (String × UsageMetric) → List String → PrefixedCapacity → Type 0
InRequests usage items c =
    (u : UsageMetric) × (lookup (period_name c.capacity.period) usage ≡ some u)
    × (0 < requests_or_zero c.capacity
        → u.total_requests + length items ≤ requests_or_zero c.capacity)

-- Of a capacity that limits the requests, some are left.
abbrev pub HasLeft : List (String × UsageMetric) → PrefixedCapacity → Type 0
HasLeft usage c =
    (u : UsageMetric) × (lookup (period_name c.capacity.period) usage ≡ some u)
    × (0 < requests_or_zero c.capacity → u.total_requests < requests_or_zero c.capacity)

-- A property of the items, if any are retrieved.
abbrev pub OfRetrieved : (List String → Type 0) → Retrieval → Type 0
OfRetrieved P (retrieved items) = P items
OfRetrieved P _ = Unit

abbrev pub is_left : Option ℕ → Bool
is_left none = true
is_left (some n) = ltb 0 n

left-limited : (limit used : ℕ) → 0 < limit → left limit used ≡ some (limit - used)
left-limited limit used h = ground (arith, h)

not_passed : (limit used : ℕ) → 0 < limit → is_over limit used ≡ false → used ≤ limit
not_passed limit used h under = ground (arith, h, under)

in_tokens :
    (limit used : ℕ) (tokens : Option ℕ) (cost : ℕ)
    → is_over limit used ≡ false
    → AtMost tokens (left limit used)
    → is_over_tokens tokens cost ≡ false
    → 0 < limit
    → used + cost ≤ limit
in_tokens limit used none cost under most fits h =
    absurd (subst (AtMost none) (left-limited limit used h) most)
in_tokens limit used (some n) cost under most fits h =
    let below : n ≤ limit - used = subst (AtMost (some n)) (left-limited limit used h) most in
    let room = not_passed limit used h under in ground (arith, below, fits, room)

in_requests :
    (limit used count : ℕ) (requests : Option ℕ) (items : ℕ)
    → is_over limit used ≡ false
    → AtMost requests (left limit used)
    → items ≤ max_to_retrieve count requests
    → 0 < limit
    → used + items ≤ limit
in_requests limit used count none items under most fits h =
    absurd (subst (AtMost none) (left-limited limit used h) most)
in_requests limit used count (some n) items under most fits h =
    let below : n ≤ limit - used = subst (AtMost (some n)) (left-limited limit used h) most in
    let room = not_passed limit used h under in omega (arith, below, fits, room)

is_left-least : (a b : Option ℕ) → is_left a ≡ true → is_left b ≡ true → is_left (least a b) ≡ true
is_left-least none b ha hb = hb
is_left-least (some a) none ha hb = ha
is_left-least (some a) (some b) ha hb = elim (Bool-cases (ltb a b)) [
  | inl below ↦ rw below ha
  | inr above ↦ rw above hb
]

is_left-left : (limit used : ℕ) → (0 < limit → used < limit) → is_left (left limit used) ≡ true
is_left-left limit used h = elim (Bool-cases (ltb 0 limit)) [
  | inl limited ↦ rw limited (let below = h (ground arith) in ground (arith, below))
  | inr not_limited ↦ rw not_limited refl
]

-- If every capacity has a request left, then what is found available has too.
pub available_loop-is_left :
    (usage : List (String × UsageMetric)) (cs : List PrefixedCapacity) (requests tokens : Option ℕ)
    (seconds : Option ℤ) (r t : Option ℕ) (s : Option ℤ)
    → All (HasLeft usage) cs
    → is_left requests ≡ true
    → available_loop usage cs requests tokens seconds ≡ ok (available r t s)
    → is_left r ≡ true
unfolding available_loop
available_loop-is_left usage [] requests tokens seconds r t s h before e =
    let same : requests ≡ r = cc e in subst (λ q. is_left q ≡ true) same before
available_loop-is_left usage (c ∷ cs) requests tokens seconds r t s ((u, there, below), h) before
      e =
    let of_requests = left (requests_or_zero c.capacity) u.total_requests in
    elim (Bool-cases (
      is_over (requests_or_zero c.capacity) u.total_requests
      || is_over (tokens_or_zero c.capacity) u.used_tokens)) [
        | inl over ↦ cc (rw (there, over) at e)
        | inr under ↦
            available_loop-is_left usage cs (least of_requests requests) _ _ r t s h
              (is_left-least of_requests requests
                (is_left-left (requests_or_zero c.capacity) u.total_requests below) before)
              (rw (there, under) at e)
      ]

pub Fits-InTokens :
    (usage : List (String × UsageMetric)) (cost : String → ℕ) (items : List String) (r t : Option ℕ)
    (cs : List PrefixedCapacity)
    → is_over_tokens t (total_cost cost items) ≡ false
    → All (Fits usage r t) cs
    → All (InTokens usage cost items) cs
Fits-InTokens usage cost items r t [] fits h = tt
Fits-InTokens usage cost items r t (c ∷ cs) fits ((u, there, _, under, _, most), h) = (
  (
    u,
    there,
    in_tokens (tokens_or_zero c.capacity) u.used_tokens t (total_cost cost items) under most fits,
  ),
  Fits-InTokens usage cost items r t cs fits h,
)

pub Fits-InRequests :
    (usage : List (String × UsageMetric)) (items : List String) (count : ℕ) (r t : Option ℕ)
    (cs : List PrefixedCapacity)
    → length items ≤ max_to_retrieve count r
    → All (Fits usage r t) cs
    → All (InRequests usage items) cs
Fits-InRequests usage items count r t [] fits h = tt
Fits-InRequests usage items count r t (c ∷ cs) fits ((u, there, under, _, most, _), h) = (
  (
    u,
    there,
    in_requests (requests_or_zero c.capacity) u.total_requests count r (length items) under most
        fits,
  ),
  Fits-InRequests usage items count r t cs fits h,
)

pub nothing_fits : (tokens : Option ℕ) → is_over_tokens tokens 0 ≡ false
nothing_fits none = refl
nothing_fits (some n) = ground arith

pub at_least_one :
    (count : ℕ) (r : Option ℕ)
    → 0 < count
    → is_left r ≡ true
    → (n : ℕ) × (max_to_retrieve count r ≡ suc n)
at_least_one zero r h e = absurd (omega (arith, h))
at_least_one (suc c) none h e = (c, refl)
at_least_one (suc c) (some zero) h e = cc e
at_least_one (suc c) (some (suc n)) h e = (min c n, omega arith)

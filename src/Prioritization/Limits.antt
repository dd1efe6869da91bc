-- ===== src/Prioritization/Limits.antt =====
-- What the loop of packages/api/src/prioritization/strategy/adaptive-token-scaling.ts leaves of an
-- allocation: its pools and their limits.
use open_vm_x_ai.Common.{
  ℕ, ◌≡◌, refl, ◌∙◌, Bool, true, false, ◌&&◌, if◌then◌else◌, Bool-cases, inl, inr, Option, none,
  some, String, List, [], ◌∷◌, Result, ok, or_throw, str_eq, All, lookup, insert, lookup-insert,
  eq_iff, arith,
}
use open_vm_x_ai.Entities.{Number}
use open_vm_x_ai.Prioritization.Allocations.{
  PoolAllocation, PoolWorkloadAllocation, Arithmetic, get_available_capacity,
}
use open_vm_x_ai.Prioritization.Scaling.{
  PrioritizationError, window_percent, scale_up_threshold, pools_after, scale_down_for,
  scale_down_all, raise, scale_up_by, scale_up, scale_down, scale_pool, scale_round, scale_pools,
}

-- Every name in the list is a pool of the allocation.
abbrev pub HasAll : List String → PoolWorkloadAllocation → Type 0
HasAll ks m = All (λ k. (p : PoolAllocation) × (lookup k m ≡ some p)) ks

-- The limits of a pool.
pub record HasLimitsOf (p q : PoolAllocation) : Type 0 where
  pub same_min : q.min ≡ p.min
  pub same_max : q.max ≡ p.max

-- Every pool of `m` is in `m'` too, under the same limits.
abbrev pub KeepsLimits : PoolWorkloadAllocation → PoolWorkloadAllocation → Type 0
KeepsLimits m m' =
    (k : String) (p : PoolAllocation)
    → lookup k m ≡ some p
    → (q : PoolAllocation) × (lookup k m' ≡ some q) × HasLimitsOf p q

KeepsLimits-refl : (m : PoolWorkloadAllocation) → KeepsLimits m m
KeepsLimits-refl m k p e = (p, e, record { same_min = refl; same_max = refl })

KeepsLimits-trans :
    (l m n : PoolWorkloadAllocation) → KeepsLimits l m → KeepsLimits m n → KeepsLimits l n
KeepsLimits-trans l m n f g k p e =
    let (q, e', a) = f k p e in let (r, e'', b) = g k q e' in (r, e'', ground arith)

KeepsLimits-insert :
    (j : String) (p q : PoolAllocation) (m : PoolWorkloadAllocation)
    → lookup j m ≡ some p
    → HasLimitsOf p q
    → KeepsLimits m (insert j q m)
KeepsLimits-insert j p q m e l k r h = elim (Bool-cases (str_eq j k)) [
  | inl same ↦
      let j≡k = (eq_iff j k).0 same in
      (q, lookup-insert j k q m ∙ rw same refl, ground (arith, j≡k))
  | inr other ↦ (r, lookup-insert j k q m ∙ rw other h, record { same_min = refl; same_max = refl })
]

pub HasAll-KeepsLimits :
    (ks : List String) (m m' : PoolWorkloadAllocation)
    → KeepsLimits m m'
    → HasAll ks m
    → HasAll ks m'
HasAll-KeepsLimits [] m m' f h = tt
HasAll-KeepsLimits (k ∷ ks) m m' f ((p, e), h) =
    let (q, e', _) = f k p e in ((q, e'), HasAll-KeepsLimits ks m m' f h)

HasAll-pools_after :
    (name : String) (ks : List String) (m : PoolWorkloadAllocation)
    → HasAll ks m
    → HasAll (pools_after name ks) m
unfolding pools_after
HasAll-pools_after name [] m h = tt
HasAll-pools_after name (k ∷ ks) m (h, hs) = ground (arith, HasAll-pools_after name ks m hs)

-- A step returns an allocation of the same pools under the same limits.
abbrev pub Returns :
    PoolWorkloadAllocation → Result PrioritizationError PoolWorkloadAllocation → Type 0
Returns m r = (m' : PoolWorkloadAllocation) × (r ≡ ok m') × KeepsLimits m m'

module _ (js : Arithmetic) where
  scale_down_for-HasLimitsOf :
      (by : String) (now : ℕ) (excess : Number) (p : PoolAllocation)
      → HasLimitsOf p (scale_down_for js by now excess p)
  unfolding scale_down_for
  scale_down_for-HasLimitsOf by now excess p = elim (Bool-cases (js.less p.min p.current)) [
    | inl above ↦ rw above (record { same_min = refl; same_max = refl })
    | inr least ↦ rw least (record { same_min = refl; same_max = refl })
  ]

  scale_down-HasLimitsOf :
      (now tokens w : ℕ) (p : PoolAllocation) → HasLimitsOf p (scale_down js now tokens w p)
  unfolding scale_down
  scale_down-HasLimitsOf now tokens w p = ground arith

  scale_down_all-Returns :
      (by : String) (now : ℕ) (excess : Number) (pools : List String) (m : PoolWorkloadAllocation)
      → HasAll pools m
      → Returns m (scale_down_all js by now excess pools m)
  unfolding scale_down_all
  scale_down_all-Returns by now excess [] m h = (m, refl, KeepsLimits-refl m)
  scale_down_all-Returns by now excess (pool ∷ pools) m ((p, e), h) =
      let q = scale_down_for js by now excess p in
      let first = KeepsLimits-insert pool p q m e (scale_down_for-HasLimitsOf by now excess p) in
      let (m', done, rest) =
        scale_down_all-Returns by now excess pools (insert pool q m)
          (HasAll-KeepsLimits pools m (insert pool q m) first h) in
      (m', rw (e, or_throw) done, KeepsLimits-trans m (insert pool q m) m' first rest)

  make_room-Returns :
      (b : Bool) (by : String) (now : ℕ) (excess : Number) (pools : List String)
      (m : PoolWorkloadAllocation)
      → HasAll pools m
      → Returns m (if b then scale_down_all js by now excess pools m else ok m)
  make_room-Returns true by now excess pools m h = scale_down_all-Returns by now excess pools m h
  make_room-Returns false by now excess pools m h = (m, refl, KeepsLimits-refl m)

  raise_if-KeepsLimits :
      (b : Bool) (now tokens w : ℕ) (added : Number) (name : String) (p : PoolAllocation)
      (m : PoolWorkloadAllocation)
      → lookup name m ≡ some p
      → KeepsLimits m (if b then insert name (raise js now tokens w added p) m else m)
  unfolding raise
  raise_if-KeepsLimits true now tokens w added name p m e =
      KeepsLimits-insert name p (raise js now tokens w added p) m e
        (record { same_min = refl; same_max = refl })
  raise_if-KeepsLimits false now tokens w added name p m e = KeepsLimits-refl m

  scale_up_by-Returns :
      (ranks : List String) (now tokens : ℕ) (available : Number) (name : String) (w : ℕ)
      (value : Number) (p : PoolAllocation) (m : PoolWorkloadAllocation)
      → HasAll ranks m
      → lookup name m ≡ some p
      → Returns m (scale_up_by js ranks now tokens available name w value m)
  unfolding scale_up_by
  scale_up_by-Returns ranks now tokens available name w value p m h e =
      let (m', made, first) =
        make_room-Returns (js.less available value) name now (js.minus value available)
          (pools_after name ranks) m (HasAll-pools_after name ranks m h) in
      let (q, found, _) = first name p e in
      let added = js.math_min value (get_available_capacity js m') in
      let second =
        raise_if-KeepsLimits (js.less (js.of_nat 0) added) now tokens w added name q m' found in
      (_, rw (made, found, or_throw) refl, KeepsLimits-trans m m' _ first second)

  scale_up-Returns :
      (ranks : List String) (now tokens : ℕ) (available : Number) (name : String) (w : ℕ)
      (p : PoolAllocation) (m : PoolWorkloadAllocation)
      → HasAll ranks m
      → lookup name m ≡ some p
      → Returns m (scale_up js ranks now tokens available name w p m)
  unfolding scale_up
  scale_up-Returns ranks now tokens available name w p m h e =
      let value = js.math_min (window_percent js w tokens) (js.minus p.max p.current) in
      elim (Bool-cases
        (js.less (scale_up_threshold js tokens p) (js.of_nat w) && js.less (js.of_nat 0) value)) [
          | inl more ↦ rw more (scale_up_by-Returns ranks now tokens available name w value p m h e)
          | inr same ↦ (m, rw same refl, KeepsLimits-refl m)
        ]

  scale_round-Returns :
      (ranks : List String) (now tokens : ℕ) (available : Number) (name : String) (o : Option ℕ)
      (m : PoolWorkloadAllocation)
      → HasAll ranks m
      → HasAll (name ∷ []) m
      → Returns m (scale_round js ranks now tokens available name o m)
  unfolding scale_round scale_pool
  scale_round-Returns ranks now tokens available name none m h ((p, e), _) =
      (m, rw (e, or_throw) refl, KeepsLimits-refl m)
  scale_round-Returns ranks now tokens available name (some w) m h ((p, e), _) =
      let (m', done, first) = scale_up-Returns ranks now tokens available name w p m h e in
      let (q, found, _) = first name p e in
      let second =
        KeepsLimits-insert name q (scale_down js now tokens w q) m' found
          (scale_down-HasLimitsOf now tokens w q) in
      (_, rw (e, or_throw, done, found) refl, KeepsLimits-trans m m' _ first second)

  -- Whatever the arithmetic of the numbers gives, the scaling ends without an error if the allocation
  -- has an entry for every pool that is scaled or ranked, and its result has all pools that the
  -- allocation had, each with the minimum and the maximum that it had.
  pub scale_pools-Returns :
      (ranks : List String) (now tokens : ℕ) (available : Number) (windows : List (String × ℕ))
      (names : List String) (m : PoolWorkloadAllocation)
      → HasAll ranks m
      → HasAll names m
      → Returns m (scale_pools js ranks now tokens available windows names m)
  unfolding scale_pools
  scale_pools-Returns ranks now tokens available windows [] m h hs = (m, refl, KeepsLimits-refl m)
  scale_pools-Returns ranks now tokens available windows (name ∷ names) m h (here, hs) =
      let (m', done, first) =
        scale_round-Returns ranks now tokens available name (lookup name windows) m h (here, tt) in
      let (n, done', rest) =
        scale_pools-Returns ranks now tokens available windows names m'
          (HasAll-KeepsLimits ranks m m' first h) (HasAll-KeepsLimits names m m' first hs) in
      (n, rw done done', KeepsLimits-trans m m' n first rest)

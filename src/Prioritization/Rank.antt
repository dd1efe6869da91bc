-- ===== src/Prioritization/Rank.antt =====
-- The order of the pools: scaling a pool touches no pool of a higher rank.
use open_vm_x_ai.Common.{
  ℕ, ◌≡◌, ◌≢◌, refl, sym, ap, ◌∙◌, Bool-cases, inl, inr, Bool, true, false, ◌&&◌, if◌then◌else◌,
  String, List, [], ◌∷◌, Result, ok, ◌>>=◌, or_throw, >>=-eq-ok, lookup, insert, lookup-insert,
  str_eq-false, arith, All,
}
use open_vm_x_ai.Entities.{Number}
use open_vm_x_ai.Prioritization.Allocations.{
  PoolAllocation, PoolWorkloadAllocation, Arithmetic, get_available_capacity,
}
use open_vm_x_ai.Prioritization.Scaling.{
  PrioritizationError, type_error, window_percent, scale_up_threshold, pools_after, scale_down_for,
  scale_down_all, raise, raise_by, lower_unused, scale_up_by, scale_up, scale_down, scale_pool,
}

-- `k` is none of the names.
abbrev pub IsNot : String → List String → Type 0
IsNot k names = All (λ n. n ≢ k) names

module _ (js : Arithmetic) where
  lookup-insert_ne :
      (j k : String) (q : PoolAllocation) (m : PoolWorkloadAllocation)
      → j ≢ k
      → lookup k (insert j q m) ≡ lookup k m
  lookup-insert_ne j k q m h = lookup-insert j k q m ∙ rw (str_eq-false j k h) refl

  scale_down_all-lookup :
      (by : String) (now : ℕ) (excess : Number) (pools : List String)
      (m m' : PoolWorkloadAllocation) (k : String)
      → IsNot k pools
      → scale_down_all js by now excess pools m ≡ ok m'
      → lookup k m' ≡ lookup k m
  unfolding scale_down_all
  scale_down_all-lookup by now excess [] m m' k h e = ground arith
  scale_down_all-lookup by now excess (pool ∷ pools) m m' k (ne, h) e =
      let (p, _, e') =
        >>=-eq-ok (or_throw (lookup pool m) type_error)
          (λ p.
            scale_down_all js by now excess pools
              (insert pool (scale_down_for js by now excess p) m))
          e in
      let q = scale_down_for js by now excess p in
      scale_down_all-lookup by now excess pools (insert pool q m) m' k h e'
      ∙ lookup-insert_ne pool k q m ne

  make_room-lookup :
      (b : Bool) (by : String) (now : ℕ) (excess : Number) (pools : List String)
      (m m' : PoolWorkloadAllocation) (k : String)
      → IsNot k pools
      → (if b then scale_down_all js by now excess pools m else ok m) ≡ ok m'
      → lookup k m' ≡ lookup k m
  make_room-lookup true by now excess pools m m' k h e =
      scale_down_all-lookup by now excess pools m m' k h e
  make_room-lookup false by now excess pools m m' k h e = ground arith

  raise_if-lookup :
      (b : Bool) (name : String) (q : PoolAllocation) (m : PoolWorkloadAllocation) (k : String)
      → name ≢ k
      → lookup k (if b then insert name q m else m) ≡ lookup k m
  raise_if-lookup true name q m k ne = lookup-insert_ne name k q m ne
  raise_if-lookup false name q m k ne = refl

  ok-injective :
      {a b : PoolWorkloadAllocation}
      → ◌≡◌ {A = Result PrioritizationError PoolWorkloadAllocation} (ok a) (ok b)
      → a ≡ b
  ok-injective h = cc

  raise_by-lookup :
      (now tokens : ℕ) (name : String) (w : ℕ) (value : Number) (m m' : PoolWorkloadAllocation)
      (k : String)
      → name ≢ k
      → raise_by js now tokens name w value m ≡ ok m'
      → lookup k m' ≡ lookup k m
  unfolding raise_by
  raise_by-lookup now tokens name w value m m' k ne e =
      let added = js.math_min value (get_available_capacity js m) in
      let (p, found, e₁) =
        >>=-eq-ok _
          (λ p. ok (
            if js.less (js.of_nat 0) added
            then insert name (raise js now tokens w added p) m
            else m))
          e in
      ap (lookup k) (sym (ok-injective e₁))
      ∙ raise_if-lookup (js.less (js.of_nat 0) added) name (raise js now tokens w added p) m k ne

  lower_unused-lookup :
      (now tokens : ℕ) (name : String) (w : ℕ) (m m' : PoolWorkloadAllocation) (k : String)
      → name ≢ k
      → lower_unused js now tokens name w m ≡ ok m'
      → lookup k m' ≡ lookup k m
  unfolding lower_unused
  lower_unused-lookup now tokens name w m m' k ne e =
      let (p, found, e₁) = >>=-eq-ok _ (λ p. ok (insert name (scale_down js now tokens w p) m)) e in
      ap (lookup k) (sym (ok-injective e₁))
      ∙ lookup-insert_ne name k (scale_down js now tokens w p) m ne

  scale_up_by-lookup :
      (ranks : List String) (now tokens : ℕ) (available : Number) (name : String) (w : ℕ)
      (value : Number) (m m' : PoolWorkloadAllocation) (k : String)
      → name ≢ k
      → IsNot k (pools_after name ranks)
      → scale_up_by js ranks now tokens available name w value m ≡ ok m'
      → lookup k m' ≡ lookup k m
  unfolding scale_up_by
  scale_up_by-lookup ranks now tokens available name w value m m' k ne h e =
      let (m₁, made, e₁) = >>=-eq-ok _ (raise_by js now tokens name w value) e in
      raise_by-lookup now tokens name w value m₁ m' k ne e₁
      ∙ make_room-lookup (js.less available value) name now (js.minus value available)
          (pools_after name ranks) m m₁ k h made

  scale_up-lookup :
      (ranks : List String) (now tokens : ℕ) (available : Number) (name : String) (w : ℕ)
      (p : PoolAllocation) (m m' : PoolWorkloadAllocation) (k : String)
      → name ≢ k
      → IsNot k (pools_after name ranks)
      → scale_up js ranks now tokens available name w p m ≡ ok m'
      → lookup k m' ≡ lookup k m
  unfolding scale_up
  scale_up-lookup ranks now tokens available name w p m m' k ne h e =
      let value = js.math_min (window_percent js w tokens) (js.minus p.max p.current) in
      elim (Bool-cases
        (js.less (scale_up_threshold js tokens p) (js.of_nat w) && js.less (js.of_nat 0) value)) [
          | inl more ↦
              scale_up_by-lookup ranks now tokens available name w value m m' k ne h (rw more at e)
          | inr same ↦ ap (lookup k) (sym (ok-injective (rw same at e)))
        ]

  -- Where scaling a pool returns, it leaves alone every other pool that does not come after that
  -- pool in the ranking: such a pool has the allocation that it had.
  pub scale_pool-keeps_higher :
      (ranks : List String) (now tokens : ℕ) (available : Number) (name : String) (w : ℕ)
      (m m' : PoolWorkloadAllocation) (k : String)
      → name ≢ k
      → IsNot k (pools_after name ranks)
      → scale_pool js ranks now tokens available name w m ≡ ok m'
      → lookup k m' ≡ lookup k m
  unfolding scale_pool
  scale_pool-keeps_higher ranks now tokens available name w m m' k ne h e =
      let (p, found, e₁) =
        >>=-eq-ok _
          (λ p.
            scale_up js ranks now tokens available name w p m >>= lower_unused js now tokens name w)
          e in
      let (m₁, raised, e₂) = >>=-eq-ok _ (lower_unused js now tokens name w) e₁ in
      lower_unused-lookup now tokens name w m₁ m' k ne e₂
      ∙ scale_up-lookup ranks now tokens available name w p m m₁ k ne h raised

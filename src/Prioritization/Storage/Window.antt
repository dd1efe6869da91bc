-- ===== src/Prioritization/Storage/Window.antt =====
-- How long the loop of packages/api/src/prioritization/storage/redis/metrics/repository.ts runs.
use open_vm_x_ai.Common.{
  ℕ, zero, suc, ◌+◌, ◌-◌, ◌/◌, ◌≤◌, ◌<◌, ◌≡◌, ◌≢◌, refl, true, false, Bool-cases, inl, inr, none,
  some, List, [], ◌∷◌, ◌==◌, arith, if◌then◌else◌,
}
use open_vm_x_ai.Prioritization.Storage.{Clock, window_loop, window_times, same_minute, one_minute}

module _ (clock : Clock) where
  open clock use {format-same, format-other}

  same-true : (a b : ℕ) → a / 60000 ≡ b / 60000 → same_minute clock a b ≡ true
  same-true a b h = format-same a b h

  same-false : (a b : ℕ) → a / 60000 ≢ b / 60000 → same_minute clock a b ≡ false
  same-false a b h = elim (Bool-cases (same_minute clock a b)) [
    | inl same ↦ absurd (h (format-other a b same))
    | inr other ↦ other
  ]

  -- The times that a window of at most a minute covers.
  abbrev pub covered : ℕ → ℕ → List ℕ
  covered request window =
      let begin = request - window in
      if begin / 60000 == request / 60000 then request ∷ [] else begin ∷ request ∷ []

  -- For a window of at most a minute, as the one of the strategy, the loop over the minutes ends, with
  -- fuel for two turns and with more, and collects the minute of the request, behind that of the begin
  -- of the window if it is another one.
  pub window_times-covered :
      (fuel request window : ℕ)
      → window ≤ 60000
      → window_times clock (suc (suc fuel)) request window ≡ some (covered request window)
  unfolding window_times window_loop
  window_times-covered fuel request window h =
      elim (Bool-cases ((request - window) / 60000 == request / 60000)) [
        | inl same ↦
            let here = same-true (request - window) request (ground arith) in rw (here, same) refl
        | inr other ↦
            let first = same-false (request - window) request (λ e. ground arith) in
            let apart : (request - window) / 60000 ≢ request / 60000 = λ e. ground arith in
            let next = same-true (request - window + one_minute) request (omega arith) in
            rw (first, next, other) refl
      ]

  -- A longer window: the loop never ends.
  window_loop-endless :
      (fuel begin request current : ℕ)
      → begin / 60000 + 1 < request / 60000
      → current ≤ begin + one_minute
      → window_loop clock fuel begin request current ≡ none
  unfolding window_loop
  window_loop-endless zero begin request current h k = refl
  window_loop-endless (suc fuel) begin request current h k =
      let other = same-false current request (λ e. omega arith) in
      let later = window_loop-endless fuel begin request (begin + one_minute) h (omega arith) in
      rw (other, later) refl

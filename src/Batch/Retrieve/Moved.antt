-- ===== src/Batch/Retrieve/Moved.antt =====
-- What the script of `retrieveItems` moves, whenever it returns.
use open_vm_x_ai.Common.{
  ℕ, ◌+◌, ◌≡◌, refl, sym, ap, ◌∙◌, Option, none, some, String, List, [], ◌∷◌, Result, ok, err,
  if◌then◌else◌, includes, str_eq, Bool-cases, Option-cases, inl, inr,
}
use open_vm_x_ai.Redis.Sets.{SortedSets}
use open_vm_x_ai.Batch.Keys.{Numerals, request_tokens}
use open_vm_x_ai.Batch.Retrieve.{
  LuaError, is_over_tokens, move_item, prepend_item, retrieve_loop, retrieve_script,
}
use open_vm_x_ai.Batch.Retrieve.Script.{moved_first}

module _ (numerals : Numerals) (sets : SortedSets) (main processing : String) where
  open sets use {Sets, zscore, zrange}

  -- What was taken is in the processing queue and no more in the main one; all else is as before.
  abbrev pub IsMoved : ℕ → List String → Sets → Sets → Type 0
  IsMoved due taken s s' =
      (j x : String)
      → zscore s' j x ≡ (
          if includes taken x
          then (if str_eq processing j
              then some due
              else if str_eq main j
              then none
              else zscore s j x)
          else zscore s j x)

  abbrev Outcome : Type 0
  Outcome = Result LuaError (List String) × Sets

  nothing-IsMoved :
      (due : ℕ) (s s' : Sets) (taken : List String)
      → ◌≡◌ {A = Outcome} (ok [], s) (ok taken, s')
      → IsMoved due taken s s'
  nothing-IsMoved due s s' taken e j x =
      let none_taken : [] ≡ taken = cc e in
      let same : s ≡ s' = ap (λ (o : Outcome). o.1) e in
      ap (λ t. zscore t j x) (sym same) ∙ rw (sym none_taken) refl

  pub prepend_item-returns :
      (m : String) (out : Outcome) (taken : List String) (s' : Sets)
      → prepend_item numerals sets main processing m out ≡ (ok taken, s')
      → (later : List String) × (taken ≡ m ∷ later) × (out ≡ (ok later, s'))
  prepend_item-returns m (ok later, s) taken s' e =
      (later, cc e, ap (λ t. (ok later, t)) (ap (λ (o : Outcome). o.1) e))
  prepend_item-returns m (err x, s) taken s' e = cc e

  retrieve_loop-IsMoved :
      (max_tokens : Option ℕ) (due : ℕ) (ms : List String) (before : ℕ) (s : Sets)
      (taken : List String) (s' : Sets)
      → retrieve_loop numerals sets main processing max_tokens due ms before s ≡ (ok taken, s')
      → IsMoved due taken s s'
  unfolding retrieve_loop
  retrieve_loop-IsMoved max_tokens due [] before s taken s' e = nothing-IsMoved due s s' taken e
  retrieve_loop-IsMoved max_tokens due (m ∷ ms) before s taken s' e =
      elim (Option-cases (request_tokens numerals m)) [
        | inl unread ↦ cc (rw unread at e)
        | inr (tokens, shown) ↦ elim (Bool-cases (is_over_tokens max_tokens (before + tokens))) [
          | inl over ↦ nothing-IsMoved due s s' taken (rw (shown, over) at e)
          | inr fits ↦
              let (later, split, run) = prepend_item-returns m _ taken s' (rw (shown, fits) at e) in
              let rest =
                retrieve_loop-IsMoved max_tokens due ms (before + tokens)
                  (move_item numerals sets main processing due m s) later s' run in
              (λ j x.
                rw split (moved_first numerals sets main processing due m later s j x _ (rest j x)))
        ]
      ]

  -- Whenever the script returns, exactly what it returns is in the processing queue with its due time,
  -- and no more in the main queue; no other member of any set changes.
  pub retrieve_script-IsMoved :
      (max_to_retrieve : ℕ) (max_tokens : Option ℕ) (due : ℕ) (s : Sets) (taken : List String)
      (s' : Sets)
      → retrieve_script numerals sets main processing max_to_retrieve max_tokens due s
        ≡ (ok taken, s')
      → IsMoved due taken s s'
  unfolding retrieve_script
  retrieve_script-IsMoved max_to_retrieve max_tokens due s taken s' e =
      retrieve_loop-IsMoved max_tokens due _ 0 s taken s' e

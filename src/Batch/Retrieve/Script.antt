-- ===== src/Batch/Retrieve/Script.antt =====
-- What the script of `retrieveItems` retrieves, and what it leaves.
use open_vm_x_ai.Common.{
  ℕ, zero, suc, ◌+◌, ◌≤◌, ◌≡◌, refl, sym, ◌∙◌, ap, Bool, true, false, ◌&&◌, Option, none, some,
  String, List, [], ◌∷◌, ◌++◌, Result, ok, err, if◌then◌else◌, take, length, length-take_le,
  includes, All, str_eq, subst, Bool-cases, inl, inr, ◌⊎◌, arith,
}
use mathlib.Core.List.{append-nil}
use open_vm_x_ai.Redis.Sets.{SortedSets}
use open_vm_x_ai.Batch.Keys.{Numerals, request_tokens}
use open_vm_x_ai.Batch.Retrieve.{
  LuaError, zrange_up_to, is_over_tokens, move_item, prepend_item, retrieve_loop, retrieve_script,
}

-- What the items of a list cost together.
abbrev pub total_cost : (String → ℕ) → List String → ℕ
total_cost cost [] = 0
total_cost cost (m ∷ ms) = cost m + total_cost cost ms

-- Every member of the queue shows its tokens.
abbrev pub ShowTokens : Numerals → (String → ℕ) → List String → Type 0
ShowTokens numerals cost ms = All (λ m. request_tokens numerals m ≡ some (cost m)) ms

module _ (numerals : Numerals) (sets : SortedSets) (main processing : String) where
  open sets use {Sets, zscore, zrange, zadd, zrem, zscore-zadd, zscore-zrem}

  -- After retrieving from `looked_at` with `before` tokens counted: a first part is taken, within the
  -- tokens, as long as it can be; what is taken is in the processing queue and no more in the main one.
  pub record Retrieved (cost : String → ℕ) (max_tokens : Option ℕ) (due : ℕ)
      (looked_at : List String) (before : ℕ) (s : Sets) (out : Result LuaError (List String) × Sets)
      : Type 0 where
    pub taken : List String
    pub rest : List String
    pub returns : out.0 ≡ ok taken
    pub first_part : looked_at ≡ taken ++ rest
    pub within : (taken ≡ []) ⊎ (is_over_tokens max_tokens (before + total_cost cost taken) ≡ false)
    pub stops :
        (m : String) (ms : List String)
        → rest ≡ m ∷ ms
        → is_over_tokens max_tokens (before + total_cost cost taken + cost m) ≡ true
    pub moved :
        (j x : String)
        → zscore out.1 j x ≡ (
            if includes taken x
            then (if str_eq processing j
                then some due
                else if str_eq main j
                then none
                else zscore s j x)
            else zscore s j x)

  zscore-move_item :
      (due : ℕ) (m : String) (s : Sets) (j x : String)
      → zscore (move_item numerals sets main processing due m s) j x ≡ (
          if str_eq processing j && str_eq m x
          then some due
          else if str_eq main j && str_eq m x
          then none
          else zscore s j x)
  zscore-move_item due m s j x =
      rw (zscore-zadd (zrem s main m) processing due m j x, zscore-zrem s main m j x) refl

  stop-Retrieved :
      (cost : String → ℕ) (max_tokens : Option ℕ) (due : ℕ) (ms : List String) (before : ℕ)
      (s : Sets)
      → ((m : String) (later : List String)
          → ms ≡ m ∷ later
          → is_over_tokens max_tokens (before + cost m) ≡ true)
      → Retrieved cost max_tokens due ms before s (ok [], s)
  stop-Retrieved cost max_tokens due ms before s h = record {
    taken = [];
    rest = ms;
    returns = refl;
    first_part = refl;
    within = inl refl;
    stops = λ m later e. ap (is_over_tokens max_tokens) (omega arith) ∙ h m later e;
    moved = λ j x. refl;
  }

  count_first :
      (cost : String → ℕ) (max_tokens : Option ℕ) (before here later : ℕ) {b : Bool}
      → is_over_tokens max_tokens (before + here + later) ≡ b
      → is_over_tokens max_tokens (before + (here + later)) ≡ b
  count_first cost max_tokens before here later h = ap (is_over_tokens max_tokens) (omega arith) ∙ h

  count_next :
      (max_tokens : Option ℕ) (before here later next : ℕ)
      → is_over_tokens max_tokens (before + here + later + next) ≡ true
      → is_over_tokens max_tokens (before + (here + later) + next) ≡ true
  count_next max_tokens before here later next h = ap (is_over_tokens max_tokens) (omega arith) ∙ h

  -- The first item counts, and nothing after it was taken.
  count_only :
      (cost : String → ℕ) (max_tokens : Option ℕ) (before here : ℕ) (taken : List String)
      → taken ≡ []
      → is_over_tokens max_tokens (before + here) ≡ false
      → is_over_tokens max_tokens (before + (here + total_cost cost taken)) ≡ false
  count_only cost max_tokens before here taken e h =
      ap (is_over_tokens max_tokens) (rw e (omega arith)) ∙ h

  pub moved_first :
      (due : ℕ) (m : String) (taken : List String) (s : Sets) (j x : String) (o : Option ℕ)
      → o ≡ (
          if includes taken x
          then (if str_eq processing j
              then some due
              else if str_eq main j
              then none
              else zscore (move_item numerals sets main processing due m s) j x)
          else zscore (move_item numerals sets main processing due m s) j x)
      → o ≡ (
          if includes (m ∷ taken) x
          then (if str_eq processing j
              then some due
              else if str_eq main j
              then none
              else zscore s j x)
          else zscore s j x)
  moved_first due m taken s j x o h = h ∙ rw (zscore-move_item due m s j x) (ground arith)

  take-Retrieved :
      (cost : String → ℕ) (max_tokens : Option ℕ) (due : ℕ) (m : String) (ms : List String)
      (before : ℕ) (s : Sets) (out : Result LuaError (List String) × Sets)
      → is_over_tokens max_tokens (before + cost m) ≡ false
      → Retrieved cost max_tokens due ms
          (before + cost m)
          (move_item numerals sets main processing due m s)
          out
      → Retrieved cost max_tokens due
          (m ∷ ms)
          before
          s
          (prepend_item numerals sets main processing m out)
  take-Retrieved cost max_tokens due m ms before s (ok items, s') fits r = record {
    taken = m ∷ r.taken;
    rest = r.rest;
    returns = let same : items ≡ r.taken = cc (r.returns) in rw same refl;
    first_part = ap (λ l. m ∷ l) r.first_part;
    within = inr (elim r.within [
      | inl none_more ↦ count_only cost max_tokens before (cost m) r.taken none_more fits
      | inr more ↦ count_first cost max_tokens before (cost m) (total_cost cost r.taken) more
    ]);
    stops = λ n later e.
        count_next max_tokens before (cost m) (total_cost cost r.taken) (cost n)
          (r.stops n later e);
    moved = λ j x. moved_first due m r.taken s j x _ (r.moved j x);
  }
  take-Retrieved cost max_tokens due m ms before s (err e, s') fits r = cc (r.returns)

  retrieve_loop-Retrieved :
      (cost : String → ℕ) (max_tokens : Option ℕ) (due : ℕ) (ms : List String) (before : ℕ)
      (s : Sets)
      → ShowTokens numerals cost ms
      → Retrieved cost max_tokens due ms before s
          (retrieve_loop numerals sets main processing max_tokens due ms before s)
  unfolding retrieve_loop
  retrieve_loop-Retrieved cost max_tokens due [] before s h =
      stop-Retrieved cost max_tokens due [] before s (λ m later e. cc e)
  retrieve_loop-Retrieved cost max_tokens due (m ∷ ms) before s (here, h) =
      elim (Bool-cases (is_over_tokens max_tokens (before + cost m))) [
        | inl over ↦
            rw (here, over)
              (stop-Retrieved cost max_tokens due (m ∷ ms) before s (λ n later e.
                let same : m ≡ n = cc e in
                subst (λ k. is_over_tokens max_tokens (before + cost k) ≡ true) same over))
        | inr fits ↦
            rw (here, fits)
              (take-Retrieved cost max_tokens due m ms before s _ fits (
                retrieve_loop-Retrieved cost max_tokens due ms (before + cost m)
                  (move_item numerals sets main processing due m s) h))
      ]

  ShowTokens-take :
      (cost : String → ℕ) (n : ℕ) (ms : List String)
      → ShowTokens numerals cost ms
      → ShowTokens numerals cost (take n ms)
  ShowTokens-take cost zero ms h = tt
  ShowTokens-take cost (suc n) [] h = tt
  ShowTokens-take cost (suc n) (m ∷ ms) (here, h) = (here, ShowTokens-take cost n ms h)

  ShowTokens-zrange_up_to :
      (cost : String → ℕ) (n : ℕ) (ms : List String)
      → ShowTokens numerals cost ms
      → ShowTokens numerals cost (zrange_up_to ms n)
  unfolding zrange_up_to
  ShowTokens-zrange_up_to cost zero ms h = h
  ShowTokens-zrange_up_to cost (suc n) ms h = ShowTokens-take cost (suc n) ms h

  -- If every member of the queue shows its tokens, the script ends without an error. It takes items
  -- from the front of the queue (of its first members, as many as may be retrieved) until one would
  -- pass the tokens that are left, and no further: these are moved to the processing queue with their
  -- due time, and no other member of any set changes.
  pub retrieve_script-Retrieved :
      (cost : String → ℕ) (max_to_retrieve : ℕ) (max_tokens : Option ℕ) (due : ℕ) (s : Sets)
      → ShowTokens numerals cost (zrange s main)
      → Retrieved cost max_tokens due
          (zrange_up_to (zrange s main) max_to_retrieve)
          0
          s
          (retrieve_script numerals sets main processing max_to_retrieve max_tokens due s)
  unfolding retrieve_script
  retrieve_script-Retrieved cost max_to_retrieve max_tokens due s h =
      retrieve_loop-Retrieved cost max_tokens due _ 0 s
        (ShowTokens-zrange_up_to cost max_to_retrieve (zrange s main) h)

  length-append_le : (xs ys : List String) → length xs ≤ length (xs ++ ys)
  length-append_le [] ys = omega arith
  length-append_le (x ∷ xs) ys = omega (arith, length-append_le xs ys)

  takes_all :
      (taken rest ms : List String)
      → ms ≡ taken ++ rest
      → ((m : String) (later : List String) → rest ≡ m ∷ later → ⊥)
      → ms ≡ taken
  takes_all taken [] ms e h = e ∙ append-nil taken
  takes_all taken (m ∷ rest) ms e h = absurd (h m rest refl)

  -- The number of items retrieved is at most what may be retrieved, except where that is 0: then the
  -- whole queue is looked at, and as much of it is taken as the tokens allow, all of it if there is no
  -- limit of tokens. (Every member of the queue shows its tokens.)
  pub retrieve_script-count :
      (cost : String → ℕ) (due : ℕ) (s : Sets)
      → ShowTokens numerals cost (zrange s main)
      → ((n : ℕ) (max_tokens : Option ℕ)
          → (taken : List String) × ((retrieve_script numerals sets main processing
                (suc n)
                max_tokens
                due
                s).0
              ≡ ok taken)
            × (length taken ≤ suc n))
        × ((retrieve_script numerals sets main processing 0 none due s).0 ≡ ok (zrange s main))
  unfolding zrange_up_to
  retrieve_script-count cost due s h = (
    λ n max_tokens.
        let r = retrieve_script-Retrieved cost (suc n) max_tokens due s h in
        let shorter = length-append_le r.taken r.rest in
        let most = length-take_le (suc n) (zrange s main) in
        (r.taken, r.returns, omega (arith, shorter, most, ap length r.first_part)),
    let r = retrieve_script-Retrieved cost 0 none due s h in
        r.returns
        ∙ ap ok (
            sym (
              takes_all r.taken r.rest (zrange s main) r.first_part
                (λ m ms e. cc (r.stops m ms e)))),
  )

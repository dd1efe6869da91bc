-- ===== src/Batch/Consumer/Counters.antt =====
-- What the consumer counts, in the database and in Redis.
use open_vm_x_ai.Common.{
  ℕ, zero, suc, ◌+◌, ◌≡◌, refl, ap, ◌∙◌, Bool, true, false, not, List, [], ◌∷◌, length,
  if◌then◌else◌, Bool-cases, inl, inr, ltb, All, any, arith,
}
use open_vm_x_ai.Common.Int.{
  ℤ, pos, pred, add_one, is_zero, ◌+ℤ◌, pred-add_one, add_one-pred, add_one-+ℤ, +ℤ-add_one, +ℤ-pred,
}
use open_vm_x_ai.Redis.Sets.{SortedSets}
use open_vm_x_ai.Batch.{BatchRequestStatus, completed, failed, CompletionBatchItemEntity}
use open_vm_x_ai.Batch.Keys.{Numerals}
use open_vm_x_ai.Batch.Queue.{is_failed, add_if, delete_item}
use open_vm_x_ai.Batch.Consumer.{
  BatchCounters, count_running, count_finished, Outcome, succeeded, threw_completion_error, threw,
  ConsumerState, finish_item, with_status, process_item, handle_outcome, process_item_handler,
}

-- `completed + failed + running + pending`, which the code divides by the number of items.
abbrev pub total : BatchCounters → ℤ
total c = c.completed +ℤ c.failed +ℤ c.running +ℤ c.pending

count_running-total : (c : BatchCounters) → total (count_running c) ≡ total c
count_running-total c =
    let sum = c.completed +ℤ c.failed in
    rw
      (
        +ℤ-pred (sum +ℤ add_one c.running) c.pending,
        +ℤ-add_one sum c.running,
        add_one-+ℤ (sum +ℤ c.running) c.pending,
      )
      (pred-add_one (sum +ℤ c.running +ℤ c.pending))

count_completed-total : (c : BatchCounters) → total (count_finished completed c) ≡ total c
count_completed-total c =
    rw
      (
        add_one-+ℤ c.completed c.failed,
        add_one-+ℤ (c.completed +ℤ c.failed) (pred c.running),
        +ℤ-pred (c.completed +ℤ c.failed) c.running,
      )
      (ap (λ z. z +ℤ c.pending) (add_one-pred (c.completed +ℤ c.failed +ℤ c.running)))

count_failed-total : (c : BatchCounters) → total (count_finished failed c) ≡ total c
count_failed-total c =
    rw
      (
        +ℤ-add_one c.completed c.failed,
        add_one-+ℤ (c.completed +ℤ c.failed) (pred c.running),
        +ℤ-pred (c.completed +ℤ c.failed) c.running,
      )
      (ap (λ z. z +ℤ c.pending) (add_one-pred (c.completed +ℤ c.failed +ℤ c.running)))

module _ (numerals : Numerals) (sets : SortedSets) where
  process_item-total :
      (retry_count : ℕ) (x : ConsumerState numerals sets)
      → total (process_item numerals sets retry_count x).counters ≡ total x.counters
  unfolding process_item
  process_item-total zero x = count_running-total x.counters
  process_item-total (suc n) x = refl

  handle_outcome-total :
      (now : ℕ) (item : CompletionBatchItemEntity) (outcome : Outcome)
      (x : ConsumerState numerals sets)
      → total (handle_outcome numerals sets now item outcome x).counters ≡ total x.counters
  unfolding handle_outcome finish_item
  handle_outcome-total now item succeeded x = count_completed-total x.counters
  handle_outcome-total now item (threw_completion_error e) x = elim (Bool-cases (e.retryable)) [
    | inl again ↦ rw again refl
    | inr no_more ↦ rw no_more (count_failed-total x.counters)
  ]
  handle_outcome-total now item threw x = refl

  -- Whatever becomes of an item, and however often it is tried, the sum of the four counters of its
  -- batch stays the same: so the percentage that is computed from the sum never moves.
  pub process_item_handler-total :
      (now retry_count : ℕ) (item : CompletionBatchItemEntity) (outcome : Outcome)
      (x : ConsumerState numerals sets)
      → total (process_item_handler numerals sets now retry_count item outcome x).counters
        ≡ total x.counters
  unfolding process_item_handler
  process_item_handler-total now retry_count item outcome x =
      handle_outcome-total now item outcome (process_item numerals sets retry_count x)
      ∙ process_item-total retry_count x

  -- Items with how they end, tried once each.
  abbrev Ended : Type 0
  Ended = CompletionBatchItemEntity × Outcome

  abbrev pub handle_all : ℕ → List Ended → ConsumerState numerals sets → ConsumerState numerals sets
  handle_all now [] x = x
  handle_all now ((item, outcome) ∷ rest) x =
      handle_all now rest (process_item_handler numerals sets now 0 item outcome x)

  -- Whether the outcome is the last one of its item, and whether the item has failed then.
  abbrev pub is_final : Outcome → Bool
  is_final succeeded = true
  is_final (threw_completion_error e) = not e.retryable
  is_final threw = false

  abbrev pub has_failed : Outcome → Bool
  has_failed (threw_completion_error e) = true
  has_failed _ = false

  abbrev pub one_if : Bool → ℕ
  one_if b = if b then 1 else 0

  abbrev pub count_failed : List Ended → ℕ
  count_failed [] = 0
  count_failed ((item, outcome) ∷ rest) = one_if (has_failed outcome) + count_failed rest

  abbrev pub status_for : ℕ → BatchRequestStatus
  status_for failures = if ltb 0 failures then failed else completed

  -- After an item that is finished, with `n` left and `f` failures before it.
  record Finished (n f : ℕ) (outcome : Outcome) (x y : ConsumerState numerals sets) : Type 0 where
    pub left : y.queue.pending ≡ pos n
    pub failures : y.queue.failed ≡ pos (f + one_if (has_failed outcome))
    pub now_status :
        y.status
        ≡ (if is_zero (pos n) then status_for (f + one_if (has_failed outcome)) else x.status)

  count_one : (b : Bool) (f : ℕ) → add_if b (pos f) ≡ pos (f + one_if b)
  count_one true f = ap pos (omega arith)
  count_one false f = ap pos (omega arith)

  finish_item-Finished :
      (n f : ℕ) (item : CompletionBatchItemEntity) (outcome : Outcome)
      (x : ConsumerState numerals sets)
      → x.queue.pending ≡ pos (suc n)
      → x.queue.failed ≡ pos f
      → is_failed item.status ≡ has_failed outcome
      → Finished n f outcome x (finish_item numerals sets item x)
  unfolding finish_item delete_item
  finish_item-Finished n f item outcome x p q e = record {
    left = rw p refl;
    failures = rw (q, e) (count_one (has_failed outcome) f);
    now_status = rw (p, q, e, count_one (has_failed outcome) f) refl;
  }

  process_item_handler-Finished :
      (now n f : ℕ) (item : CompletionBatchItemEntity) (outcome : Outcome)
      (x : ConsumerState numerals sets)
      → is_final outcome ≡ true
      → x.queue.pending ≡ pos (suc n)
      → x.queue.failed ≡ pos f
      → Finished n f outcome x (process_item_handler numerals sets now 0 item outcome x)
  unfolding process_item_handler handle_outcome process_item finish_item
  process_item_handler-Finished now n f item succeeded x final p q =
      let y = record x { counters = count_running x.counters } in
      let h = finish_item-Finished n f (with_status completed item) succeeded y p q refl in
      record { left = h.left; failures = h.failures; now_status = h.now_status }
  process_item_handler-Finished now n f item (threw_completion_error e) x final p q =
      let y = record x { counters = count_running x.counters } in
      let last : e.retryable ≡ false = ground (arith, final) in
      let h =
        finish_item-Finished n f (with_status failed item) (threw_completion_error e) y p q refl in
      rw last (record { left = h.left; failures = h.failures; now_status = h.now_status })
  process_item_handler-Finished now n f item threw x final p q = cc final

  handle_all-status :
      (now f : ℕ) (first : Ended) (rest : List Ended) (x : ConsumerState numerals sets)
      → All (λ (e : Ended). is_final e.1 ≡ true) (first ∷ rest)
      → x.queue.pending ≡ pos (length (first ∷ rest))
      → x.queue.failed ≡ pos f
      → (handle_all now (first ∷ rest) x).status ≡ status_for (f + count_failed (first ∷ rest))
  handle_all-status now f (item, outcome) [] x (final, _) p q =
      let h = process_item_handler-Finished now 0 f item outcome x final p q in
      h.now_status ∙ ap status_for (omega arith)
  handle_all-status now f (item, outcome) (second ∷ rest) x (final, finals) p q =
      let h =
        process_item_handler-Finished now (length (second ∷ rest)) f item outcome x final p q in
      handle_all-status now (f + one_if (has_failed outcome)) second rest _ finals h.left h.failures
      ∙ ap status_for (omega arith)

  any_failed :
      (items : List Ended) → ltb 0 (count_failed items) ≡ any (λ (e : Ended). has_failed e.1) items
  any_failed [] = refl
  any_failed ((item, outcome) ∷ rest) = elim (Bool-cases (has_failed outcome)) [
    | inl fails ↦ rw fails (ground arith)
    | inr passes ↦ rw passes (ap (ltb 0) (omega arith) ∙ any_failed rest)
  ]

  -- A batch is completed: when each of its items has been handled to its end, the last one sets the
  -- status of the batch, which is failed if any of the items has failed and completed otherwise. (As
  -- many items are pending as there are, and no failure was counted before.)
  pub handle_all-final_status :
      (now : ℕ) (first : Ended) (rest : List Ended) (x : ConsumerState numerals sets)
      → All (λ (e : Ended). is_final e.1 ≡ true) (first ∷ rest)
      → x.queue.pending ≡ pos (length (first ∷ rest))
      → x.queue.failed ≡ pos 0
      → (handle_all now (first ∷ rest) x).status
        ≡ (if any (λ (e : Ended). has_failed e.1) (first ∷ rest) then failed else completed)
  handle_all-final_status now first rest x finals p q =
      handle_all-status now 0 first rest x finals p q
      ∙ ap status_for (omega arith)
      ∙ ap (λ b. if b then failed else completed) (any_failed (first ∷ rest))

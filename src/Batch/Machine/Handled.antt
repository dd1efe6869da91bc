-- ===== src/Batch/Machine/Handled.antt =====
-- Which items each command of packages/api/src/completion/batch/batch-queue.service.ts leaves in the
-- queue of their resource, in the global processing queue, or on their way between them.
use Prim.Native.String.{String}
use open_vm_x_ai.Common.{
  ℕ, ◌+◌, ◌≡◌, refl, ◌∙◌, subst, Bool, true, false, ◌||◌, is_some, List, ◌∷◌, ◌++◌, includes,
  str_eq, eq_refl, eq_iff, Bool-cases, inl, inr, arith,
}
use open_vm_x_ai.Redis.Sets.{SortedSets}
use open_vm_x_ai.Batch.{CompletionBatchItemEntity}
use open_vm_x_ai.Batch.Keys.{Numerals, item_member_id, global_processing_queue_key}
use open_vm_x_ai.Batch.Retrieve.Moved.{IsMoved}
use open_vm_x_ai.Batch.Queue.{
  send_item, index_item, delete_item, zadd_xx, update_queue_processing_timestamp,
  processing_queue_of,
}
use open_vm_x_ai.Batch.Machine.{without, Machine}
use open_vm_x_ai.Batch.Machine.Placed.{includes-without, includes-append, zadd_xx-is_some}
use open_vm_x_ai.Batch.Machine.Keep.{OurItem, our_main, our_processing, keys_apart, item_queue}

module _ (numerals : Numerals) (sets : SortedSets) where
  open sets use {Sets, zscore, zadd, zrem, zrange, zscore-zadd, zscore-zrem, includes-zrange}

  module _ (workspace_id environment_id resource_id : String)
      (known : CompletionBatchItemEntity → Type 0) where
    abbrev main : String
    main = our_main numerals sets workspace_id environment_id resource_id known

    abbrev processing : String
    processing = our_processing numerals sets workspace_id environment_id resource_id known

    abbrev global : String
    global = global_processing_queue_key

    open keys_apart numerals sets workspace_id environment_id resource_id known use {
      main_main, processing_main, global_main, main_global, processing_global,
    }

    -- Some loop will look at the item: it is in the queue or in the global processing queue, or the
    -- consumer or the loop that has just taken it has not put it there yet.
    abbrev pub is_handled : String → Machine numerals sets → Bool
    is_handled m x =
        (is_some (zscore x.queue.stored main m) || is_some (zscore x.queue.stored global m))
        || (includes x.held m || includes x.taken m)

    pub retrieve-is_handled :
        (due : ℕ) (items : List String) (stored : Sets) (x : Machine numerals sets) (m : String)
        → IsMoved numerals sets main processing due items x.queue.stored stored
        → is_handled m
            (record x { queue = record (x.queue) { stored = stored }; held = items ++ x.held })
          ≡ (is_handled m x || includes items m)
    retrieve-is_handled due items stored x m moved =
        rw
          (
            moved main m,
            moved global m,
            main_main,
            processing_main,
            main_global,
            processing_global,
            includes-append items x.held m,
          )
          (ground arith)

    pub send-is_handled :
        (item : CompletionBatchItemEntity) (x : Machine numerals sets) (m : String)
        → OurItem numerals sets workspace_id environment_id resource_id known item
        → is_handled m (record x {
          queue = send_item numerals sets item x.queue;
          live = item_member_id numerals item ∷ x.live;
        })
          ≡ (str_eq (item_member_id numerals item) m || is_handled m x)
    unfolding send_item
    send-is_handled item x m i =
        let id = item_member_id numerals item in
        rw
          (
            (item_queue numerals sets workspace_id environment_id resource_id known item i).0,
            zscore-zadd x.queue.stored main item.created_at id main m,
            zscore-zadd x.queue.stored main item.created_at id global m,
            main_main,
            main_global,
          )
          (ground arith)

    pub index-is_handled :
        (due : ℕ) (id : String) (x : Machine numerals sets) (m : String)
        → includes x.held id ≡ true
        → is_handled m
            (record x { queue = index_item numerals sets due id x.queue; held = without id x.held })
          ≡ is_handled m x
    unfolding index_item
    index-is_handled due id x m h = elim (Bool-cases (str_eq id m)) [
      | inl same ↦
          let there : includes x.held m ≡ true =
            subst (λ n. includes x.held n ≡ true) ((eq_iff id m).0 same) h in
          rw
            (
              zscore-zadd x.queue.stored global due id main m,
              zscore-zadd x.queue.stored global due id global m,
              global_main,
              eq_refl global,
              includes-without id m x.held,
              same,
              there,
            )
            (ground arith)
      | inr other ↦
          rw
            (
              zscore-zadd x.queue.stored global due id main m,
              zscore-zadd x.queue.stored global due id global m,
              global_main,
              eq_refl global,
              includes-without id m x.held,
              other,
            )
            (ground arith)
    ]

    pub postpone-is_handled :
        (now delay : ℕ) (item : CompletionBatchItemEntity) (x : Machine numerals sets) (m : String)
        → is_handled m (record x {
          queue = update_queue_processing_timestamp numerals sets now delay item x.queue;
        })
          ≡ is_handled m x
    unfolding update_queue_processing_timestamp
    postpone-is_handled now delay item x m =
        let id = item_member_id numerals item in
        let later =
          zadd_xx numerals sets x.queue.stored (processing_queue_of item) (now + delay) id in
        let apart = keys_apart numerals sets workspace_id environment_id resource_id known in
        let same = λ (key : String).
          zadd_xx-is_some numerals sets main processing apart later global (now + delay) id key m
          ∙ zadd_xx-is_some numerals sets main processing apart x.queue.stored
              (processing_queue_of item) (now + delay) id key m in
        rw (same main, same global) refl

    pub finish-is_handled :
        (item : CompletionBatchItemEntity) (x : Machine numerals sets) (m : String)
        → OurItem numerals sets workspace_id environment_id resource_id known item
        → (str_eq (item_member_id numerals item) m ≡ false
            → is_handled m (record x {
              queue = (delete_item numerals sets item x.queue).1;
              live = without (item_member_id numerals item) x.live;
            })
              ≡ is_handled m x)
          × (is_handled m x ≡ false
              → is_handled m (record x {
                queue = (delete_item numerals sets item x.queue).1;
                live = without (item_member_id numerals item) x.live;
              })
                ≡ false)
    unfolding delete_item
    finish-is_handled item x m i =
        let id = item_member_id numerals item in
        let inner = zrem x.queue.stored processing id in
        let own =
          (item_queue numerals sets workspace_id environment_id resource_id known item i).1 in
        (
          λ other.
              rw
                (
                  own,
                  zscore-zrem inner global id main m,
                  zscore-zrem inner global id global m,
                  zscore-zrem x.queue.stored processing id main m,
                  zscore-zrem x.queue.stored processing id global m,
                  global_main,
                  eq_refl global,
                  processing_main,
                  processing_global,
                  other,
                )
                refl,
          λ lost.
              rw
                (
                  own,
                  zscore-zrem inner global id main m,
                  zscore-zrem inner global id global m,
                  zscore-zrem x.queue.stored processing id main m,
                  zscore-zrem x.queue.stored processing id global m,
                  global_main,
                  eq_refl global,
                  processing_main,
                  processing_global,
                )
                (ground (arith, lost)),
        )

-- ===== src/Batch/Machine/Keep.antt =====
-- What every command of packages/api/src/completion/batch/batch-queue.service.ts keeps: that an item
-- that is sent and not finished is in one of the two queues of its resource.
use Prim.Native.String.{String}
use open_vm_x_ai.Common.{
  ℕ, ◌+◌, ◌≡◌, refl, sym, ap, ◌∙◌, subst, true, false, none, is_some, List, ◌∷◌, ◌++◌, includes,
  str_eq, eq_iff, arith,
}
use open_vm_x_ai.Redis.Sets.{SortedSets}
use open_vm_x_ai.Batch.{CompletionBatchItemEntity}
use open_vm_x_ai.Batch.Keys.{
  Numerals, base_key, queue_key, processing_queue_key, global_processing_queue_key, item_member_id,
}
use open_vm_x_ai.Batch.Members.{queue_key-ne-processing_queue_key, not_global_processing_queue_key}
use open_vm_x_ai.Batch.Retrieve.Moved.{IsMoved, retrieve_script-IsMoved}
use open_vm_x_ai.Batch.Queue.{
  QueueState, send_item, take_expired, expired, reprocess_item, index_item, delete_item, zadd_xx,
  update_queue_processing_timestamp, timestamp_of, payload_key_of, queue_of, processing_queue_of,
}
use open_vm_x_ai.Batch.Machine.{
  without, Machine, main, processing, IsItem, Step, send, retrieve, index, expire, put_back,
  postpone, finish, activate, deactivate, crash, Reach, here, next, IsKept, HasTimestamps,
  AreDistinct,
}
use open_vm_x_ai.Batch.Machine.Placed.{
  includes-without, AreApart, apart, is_placed, zadd-is_placed, zadd_global-is_placed,
  zrem_global-is_placed, remove_all-is_placed, zrem_processing-is_placed, moved-is_placed,
  zadd_xx-is_some,
}
use open_vm_x_ai.Batch.Machine.Payloads.{
  payload_key_of-member, queue_of-member, timestamp_of-count_retry, put_back-is_placed, either,
  set_hash-stamped, apart_members,
}

module _ (numerals : Numerals) (sets : SortedSets) where
  open sets use {Sets, zscore, zadd, zrem}

  module _ (workspace_id environment_id resource_id : String)
      (known : CompletionBatchItemEntity → Type 0) where
    abbrev pub OurItem : CompletionBatchItemEntity → Type 0
    OurItem = IsItem numerals sets workspace_id environment_id resource_id known

    abbrev pub our_main : String
    our_main = main numerals sets workspace_id environment_id resource_id known

    abbrev pub our_processing : String
    our_processing = processing numerals sets workspace_id environment_id resource_id known

    pub keys_apart : AreApart our_main our_processing global_processing_queue_key
    unfolding queue_key processing_queue_key
    keys_apart =
        apart our_main our_processing global_processing_queue_key
          (queue_key-ne-processing_queue_key (base_key workspace_id environment_id) resource_id)
          (not_global_processing_queue_key workspace_id environment_id _)
          (not_global_processing_queue_key workspace_id environment_id _)

    pub item_queue :
        (item : CompletionBatchItemEntity)
        → OurItem item
        → (queue_of item ≡ our_main) × (processing_queue_of item ≡ our_processing)
    item_queue item i = (
      rw (i.of_workspace, i.of_environment, i.of_resource) refl,
      rw (i.of_workspace, i.of_environment, i.of_resource) refl,
    )

    abbrev pub Inv : Machine numerals sets → Type 0
    Inv x =
        IsKept numerals sets workspace_id environment_id resource_id known x
        × HasTimestamps numerals sets workspace_id environment_id resource_id known x

    retrieve-Inv :
        (due : ℕ) (items : List String) (stored : Sets) (x : Machine numerals sets)
        → IsMoved numerals sets our_main our_processing due items x.queue.stored stored
        → Inv x
        → Inv (record x { queue = record (x.queue) { stored = stored }; held = items ++ x.held })
    retrieve-Inv due items stored x moved (kept, stamped) = (
      λ m h.
          moved-is_placed numerals sets our_main our_processing keys_apart due items x.queue.stored
            stored m moved (kept m h),
      stamped,
    )

    send-Inv :
        (item : CompletionBatchItemEntity) (x : Machine numerals sets)
        → OurItem item
        → Inv x
        → Inv (record x {
          queue = send_item numerals sets item x.queue;
          live = item_member_id numerals item ∷ x.live;
        })
    unfolding send_item
    send-Inv item x i (kept, stamped) = (
      λ m h.
          let split =
            zadd-is_placed numerals sets our_main our_processing keys_apart x.queue.stored
              item.created_at (item_member_id numerals item) m in
          rw ((item_queue item i).0, split)
            (either (str_eq (item_member_id numerals item) m) (includes x.live m) _ (kept m) h),
      λ other o h.
          set_hash-stamped numerals sets (payload_key_of item) (payload_key_of other) _
            x.queue.payloads (λ same. refl)
            (λ apart_keys.
              stamped other o
                (rw (apart_members numerals sets item other i.parts o.parts apart_keys) at h)),
    )

    put_back-Inv :
        (item : CompletionBatchItemEntity) (x : Machine numerals sets)
        → OurItem item
        → Inv x
        → Inv (record x {
          queue = reprocess_item numerals sets (item_member_id numerals item) x.queue;
          taken = without (item_member_id numerals item) x.taken;
        })
    unfolding reprocess_item
    put_back-Inv item x i (kept, stamped) =
        let id = item_member_id numerals item in
        let key = payload_key_of-member numerals sets item i.parts in
        let (queue_key_same, processing_key_same) = queue_of-member numerals sets item i.parts in
        (
          λ m h.
              let stamp : str_eq id m ≡ true
                  → is_some (timestamp_of (x.queue.payloads (payload_key_of item))) ≡ true =
                λ same.
                  stamped item i
                    (subst (λ n. includes x.live n ≡ true) (sym ((eq_iff id m).0 same)) h) in
              rw
                (
                  key,
                  queue_key_same,
                  processing_key_same,
                  (item_queue item i).0,
                  (item_queue item i).1,
                )
                (put_back-is_placed numerals sets our_main our_processing keys_apart _ id m
                  x.queue.stored stamp (kept m h)),
          λ other o h.
              let old = stamped other o h in
              rw key (
                set_hash-stamped numerals sets (payload_key_of item) (payload_key_of other) _
                  x.queue.payloads
                  (λ same.
                    let here : is_some (timestamp_of (x.queue.payloads (payload_key_of item)))
                        ≡ true =
                      rw same old in
                    ap is_some (
                      timestamp_of-count_retry numerals sets
                        (x.queue.payloads (payload_key_of item)) here)
                    ∙ here)
                  (λ apart_keys. old)),
        )

    finish-Inv :
        (item : CompletionBatchItemEntity) (x : Machine numerals sets)
        → OurItem item
        → AreDistinct numerals sets workspace_id environment_id resource_id known
        → Inv x
        → Inv (record x {
          queue = (delete_item numerals sets item x.queue).1;
          live = without (item_member_id numerals item) x.live;
        })
    unfolding delete_item
    finish-Inv item x i distinct (kept, stamped) =
        let id = item_member_id numerals item in
        (
          λ m h.
              let both = sym (includes-without id m x.live) ∙ h in
              let other : str_eq id m ≡ false = ground (arith, both) in
              let alive : includes x.live m ≡ true = ground (arith, both) in
              rw (item_queue item i).1 (
                zrem_global-is_placed numerals sets our_main our_processing keys_apart
                  (zrem x.queue.stored our_processing id) id m
                ∙ zrem_processing-is_placed numerals sets our_main our_processing keys_apart
                    x.queue.stored id m other
                ∙ kept m alive),
          λ other o h.
              let both = sym (includes-without id (item_member_id numerals other) x.live) ∙ h in
              let apart_ids : str_eq id (item_member_id numerals other) ≡ false =
                ground (arith, both) in
              let alive : includes x.live (item_member_id numerals other) ≡ true =
                ground (arith, both) in
              set_hash-stamped numerals sets (payload_key_of item) (payload_key_of other) none
                x.queue.payloads
                (λ same. cc (
                  sym apart_ids
                  ∙ (eq_iff id (item_member_id numerals other)).1 (distinct item other i o same)))
                (λ apart_keys. stamped other o alive),
        )

    expire-Inv :
        (limit now : ℕ) (items : List String) (queue : QueueState numerals sets)
        (x : Machine numerals sets)
        → take_expired numerals sets limit now x.queue ≡ (items, queue)
        → Inv x
        → Inv (record x { queue = queue; taken = items ++ x.taken })
    unfolding take_expired
    expire-Inv limit now items queue x e (kept, stamped) =
        let after = ap (λ (out : List String × QueueState numerals sets). out.1) e in
        (
          λ m h.
              subst
                (λ (q : QueueState numerals sets).
                  is_placed numerals sets our_main our_processing q.stored m ≡ true)
                after
                (remove_all-is_placed numerals sets our_main our_processing keys_apart
                    (expired numerals sets limit now x.queue.stored) x.queue.stored m
                  ∙ kept m h),
          λ other o h.
              subst
                (λ (q : QueueState numerals sets).
                  is_some (timestamp_of (q.payloads (payload_key_of other))) ≡ true)
                after (stamped other o h),
        )

    postpone-Inv :
        (now delay : ℕ) (item : CompletionBatchItemEntity) (x : Machine numerals sets)
        → Inv x
        → Inv (record x {
          queue = update_queue_processing_timestamp numerals sets now delay item x.queue;
        })
    unfolding update_queue_processing_timestamp
    postpone-Inv now delay item x (kept, stamped) =
        let id = item_member_id numerals item in
        let later =
          zadd_xx numerals sets x.queue.stored (processing_queue_of item) (now + delay) id in
        let same = λ (key : String) (m : String).
          zadd_xx-is_some numerals sets our_main our_processing keys_apart later
            global_processing_queue_key (now + delay) id key m
          ∙ zadd_xx-is_some numerals sets our_main our_processing keys_apart x.queue.stored
              (processing_queue_of item) (now + delay) id key m in
        (λ m h. rw (same our_main m, same our_processing m) (kept m h), stamped)

    pub Step-Inv :
        {x y : Machine numerals sets}
        → AreDistinct numerals sets workspace_id environment_id resource_id known
        → Step numerals sets workspace_id environment_id resource_id known x y
        → Inv x
        → Inv y
    unfolding index_item
    Step-Inv distinct (send item x i) inv = send-Inv item x i inv
    Step-Inv distinct (retrieve n most due items stored member x e) inv =
        retrieve-Inv due items stored x
          (retrieve_script-IsMoved numerals sets our_main our_processing n most due x.queue.stored
            items stored e)
          inv
    Step-Inv distinct (index due m x e) (kept, stamped) = (
      λ n h.
          zadd_global-is_placed numerals sets our_main our_processing keys_apart x.queue.stored due
            m n
          ∙ kept n h,
      stamped,
    )
    Step-Inv distinct (expire limit now items queue x e) inv =
        expire-Inv limit now items queue x e inv
    Step-Inv distinct (put_back item x i e) inv = put_back-Inv item x i inv
    Step-Inv distinct (postpone now delay item x i) inv = postpone-Inv now delay item x inv
    Step-Inv distinct (finish item x i) inv = finish-Inv item x i distinct inv
    Step-Inv distinct (activate member x) inv = inv
    Step-Inv distinct (deactivate member x e) inv = inv
    Step-Inv distinct (crash x) inv = inv

    -- If items with the same ids are the same, then every sequence of commands, with crashes between
    -- them, keeps each item that is not finished in the queue of its resource or in its processing
    -- queue, and its hash has a timestamp, if this holds at the start.
    pub Reach-IsKept :
        (x y : Machine numerals sets)
        → AreDistinct numerals sets workspace_id environment_id resource_id known
        → Reach numerals sets workspace_id environment_id resource_id known x y
        → IsKept numerals sets workspace_id environment_id resource_id known x
        → HasTimestamps numerals sets workspace_id environment_id resource_id known x
        → IsKept numerals sets workspace_id environment_id resource_id known y
          × HasTimestamps numerals sets workspace_id environment_id resource_id known y
    Reach-IsKept x y distinct here kept stamped = (kept, stamped)
    Reach-IsKept x y distinct (next steps step) kept stamped =
        Step-Inv distinct step (Reach-IsKept x _ distinct steps kept stamped)

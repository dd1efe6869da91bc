-- ===== src/Batch/Machine/Taken.antt =====
-- Which items the loop that reprocesses items leaves in the queue of their resource, in the global
-- processing queue, or on their way between them.
use Prim.Native.String.{String}
use open_vm_x_ai.Common.{
  ℕ, zero, suc, ◌≡◌, refl, sym, ◌∙◌, subst, Bool, true, ◌&&◌, ◌||◌, Option, none, some, is_some,
  List, [], ◌∷◌, ◌++◌, filter, take, includes, str_eq, eq_refl, eq_iff, if◌then◌else◌, Bool-cases,
  inl, inr, arith,
}
use open_vm_x_ai.Redis.Sets.{SortedSets}
use open_vm_x_ai.Batch.{CompletionBatchItemEntity}
use open_vm_x_ai.Batch.Keys.{Numerals, item_member_id, global_processing_queue_key}
use open_vm_x_ai.Batch.Queue.{
  expired, remove_all, reprocess_item, zadd_timestamp, timestamp_of, payload_key_of,
}
use open_vm_x_ai.Batch.Machine.{without, Machine}
use open_vm_x_ai.Batch.Machine.Placed.{includes-without, includes-append}
use open_vm_x_ai.Batch.Machine.Payloads.{payload_key_of-member, queue_of-member, either}
use open_vm_x_ai.Batch.Machine.Keep.{OurItem, our_main, our_processing, keys_apart, item_queue}
use open_vm_x_ai.Batch.Machine.Handled.{is_handled}

pub includes-take :
    (n : ℕ) (ms : List String) (m : String) → includes (take n ms) m ≡ true → includes ms m ≡ true
includes-take zero ms m h = cc h
includes-take (suc n) [] m h = h
includes-take (suc n) (y ∷ ms) m h =
    either (str_eq y m) (includes (take n ms) m) _ (includes-take n ms m) h

includes-filter :
    (p : String → Bool) (ms : List String) (m : String)
    → includes (filter p ms) m ≡ true
    → includes ms m ≡ true
includes-filter p [] m h = h
includes-filter p (y ∷ ms) m h = elim (Bool-cases (p y)) [
  | inl keep ↦
      either (str_eq y m) (includes (filter p ms) m) _ (includes-filter p ms m) (rw keep at h)
  | inr drop ↦ let later = includes-filter p ms m (rw drop at h) in ground (arith, later)
]

module _ (numerals : Numerals) (sets : SortedSets) where
  open sets use {Sets, zscore, zadd, zrem, zrange, zscore-zadd, zscore-zrem, includes-zrange}

  zscore-remove_all :
      (k : String) (ms : List String) (s : Sets) (j x : String)
      → zscore (remove_all numerals sets k ms s) j x
        ≡ (if str_eq k j && includes ms x then none else zscore s j x)
  unfolding remove_all
  zscore-remove_all k [] s j x = ground arith
  zscore-remove_all k (m ∷ ms) s j x =
      rw (zscore-remove_all k ms (zrem s k m) j x, zscore-zrem s k m j x) (ground arith)

  module _ (workspace_id environment_id resource_id : String)
      (known : CompletionBatchItemEntity → Type 0) where
    abbrev main : String
    main = our_main numerals sets workspace_id environment_id resource_id known

    abbrev processing : String
    processing = our_processing numerals sets workspace_id environment_id resource_id known

    abbrev global : String
    global = global_processing_queue_key

    open keys_apart numerals sets workspace_id environment_id resource_id known use {
      main_main, processing_main, global_main, main_global, processing_global,
    }

    -- Some loop will look at the item: it is in the queue or in the global processing queue, or the
    abbrev handled : String → Machine numerals sets → Bool
    handled = is_handled numerals sets workspace_id environment_id resource_id known

    expired-global :
        (limit now : ℕ) (s : Sets) (m : String)
        → includes (expired numerals sets limit now s) m ≡ true
        → is_some (zscore s global m) ≡ true
    expired-global limit now s m h =
        sym (includes-zrange s global m)
        ∙ includes-filter _ (zrange s global) m (includes-take limit _ m h)

    pub expire-is_handled :
        (limit now : ℕ) (x : Machine numerals sets) (m : String)
        → let items = expired numerals sets limit now x.queue.stored in
          handled m (record x {
            queue = record (x.queue) {
              stored = remove_all numerals sets global items x.queue.stored;
            };
            taken = items ++ x.taken;
          })
          ≡ handled m x
    expire-is_handled limit now x m =
        let items = expired numerals sets limit now x.queue.stored in
        let was = expired-global limit now x.queue.stored m in
        elim (Bool-cases (includes items m)) [
          | inl taken ↦
              rw
                (
                  zscore-remove_all global items x.queue.stored main m,
                  zscore-remove_all global items x.queue.stored global m,
                  global_main,
                  eq_refl global,
                  includes-append items x.taken m,
                  taken,
                  was taken,
                )
                (ground arith)
          | inr other ↦
              rw
                (
                  zscore-remove_all global items x.queue.stored main m,
                  zscore-remove_all global items x.queue.stored global m,
                  global_main,
                  eq_refl global,
                  includes-append items x.taken m,
                  other,
                )
                (ground arith)
        ]

    zadd_timestamp-main :
        (t : Option ℕ) (id : String) (s : Sets) (m : String)
        → let after = zadd_timestamp numerals sets t main id (zrem s processing id) in
          (is_some (zscore after main m) || is_some (zscore after global m)) ≡ (
            (is_some t && str_eq id m)
            || (is_some (zscore s main m) || is_some (zscore s global m)))
    zadd_timestamp-main none id s m =
        rw
          (
            zscore-zrem s processing id main m,
            zscore-zrem s processing id global m,
            processing_main,
            processing_global,
          )
          refl
    zadd_timestamp-main (some n) id s m =
        let inner = zrem s processing id in
        rw
          (
            zscore-zadd inner main n id main m,
            zscore-zadd inner main n id global m,
            main_main,
            main_global,
            zscore-zrem s processing id main m,
            zscore-zrem s processing id global m,
            processing_main,
            processing_global,
          )
          (ground arith)

    pub put_back-is_handled :
        (item : CompletionBatchItemEntity) (x : Machine numerals sets) (m : String)
        → OurItem numerals sets workspace_id environment_id resource_id known item
        → includes x.taken (item_member_id numerals item) ≡ true
        → (str_eq (item_member_id numerals item) m ≡ true
            → is_some (timestamp_of (x.queue.payloads (payload_key_of item))) ≡ true)
        → handled m (record x {
          queue = reprocess_item numerals sets (item_member_id numerals item) x.queue;
          taken = without (item_member_id numerals item) x.taken;
        })
          ≡ handled m x
    unfolding reprocess_item
    put_back-is_handled item x m i h stamp =
        let id = item_member_id numerals item in
        let (queue_key_same, processing_key_same) = queue_of-member numerals sets item i.parts in
        let (main_same, processing_same) =
          item_queue numerals sets workspace_id environment_id resource_id known item i in
        let placed =
          zadd_timestamp-main (timestamp_of (x.queue.payloads (payload_key_of item))) id
            x.queue.stored m in
        rw
          (
            payload_key_of-member numerals sets item i.parts,
            queue_key_same,
            processing_key_same,
            main_same,
            processing_same,
            placed,
            includes-without id m x.taken,
          )
          (elim (Bool-cases (str_eq id m)) [
            | inr other ↦ rw other (ground arith)
            | inl same ↦
                let there : includes x.taken m ≡ true =
                  subst (λ n. includes x.taken n ≡ true) ((eq_iff id m).0 same) h in
                rw (same, stamp same, there) (ground arith)
          ])

-- ===== src/Batch/Machine/Payloads.antt =====
-- The hashes of items, and the keys that are read off a member.
use Prim.Native.String.{String}
use open_vm_x_ai.Common.{
  ℕ, ◌≡◌, refl, sym, ap, ◌∙◌, Bool, true, false, ◌||◌, Option, none, some, is_some, get_or, str_eq,
  str_eq-false, eq_iff, get_elem?, Bool-cases, inl, inr,
}
use open_vm_x_ai.Redis.Sets.{SortedSets}
use open_vm_x_ai.Batch.{CompletionBatchItemEntity}
use open_vm_x_ai.Batch.Keys.{Numerals, global_processing_queue_key, item_member_id, item_parts}
use open_vm_x_ai.Batch.Members.{HasParts, item_member_id-split_bar}
use open_vm_x_ai.Batch.Queue.{
  ItemPayload, zadd_timestamp, timestamp_of, count_retry, payload_key_of, payload_key_of_member,
  queue_of, queue_of_member, processing_queue_of, processing_queue_of_member, set_hash, part,
}
use open_vm_x_ai.Batch.Machine.Placed.{
  AreApart, is_placed, zadd-is_placed, zrem_processing-is_placed,
}

pub either : (b c d : Bool) → (c ≡ true → d ≡ true) → (b || c) ≡ true → (b || d) ≡ true
either true c d h e = refl
either false c d h e = h e

module _ (numerals : Numerals) (sets : SortedSets) where
  open sets use {Sets, zscore, zadd, zrem}

  -- The keys that are read off a member are those of its item.
  pub part-item_member_id :
      (item : CompletionBatchItemEntity) (i : ℕ)
      → HasParts numerals item
      → part (item_member_id numerals item) i
        ≡ get_or (get_elem? (item_parts numerals item) i) "undefined"
  part-item_member_id item i h =
      ap (λ ps. get_or (get_elem? ps i) "undefined") (item_member_id-split_bar numerals item h).0

  pub payload_key_of-member :
      (item : CompletionBatchItemEntity)
      → HasParts numerals item
      → payload_key_of_member (item_member_id numerals item) ≡ payload_key_of item
  payload_key_of-member item h =
      rw
        (
          part-item_member_id item 0 h,
          part-item_member_id item 1 h,
          part-item_member_id item 2 h,
          part-item_member_id item 3 h,
          part-item_member_id item 4 h,
        )
        refl

  pub queue_of-member :
      (item : CompletionBatchItemEntity)
      → HasParts numerals item
      → (queue_of_member (item_member_id numerals item) ≡ queue_of item)
        × (processing_queue_of_member (item_member_id numerals item) ≡ processing_queue_of item)
  queue_of-member item h = (
    rw (part-item_member_id item 0 h, part-item_member_id item 1 h, part-item_member_id item 4 h)
        refl,
    rw (part-item_member_id item 0 h, part-item_member_id item 1 h, part-item_member_id item 4 h)
        refl,
  )

  pub timestamp_of-count_retry :
      (p : Option ItemPayload)
      → is_some (timestamp_of p) ≡ true
      → timestamp_of (some (count_retry p)) ≡ timestamp_of p
  timestamp_of-count_retry none h = cc
  timestamp_of-count_retry (some p) h = refl

  -- Putting a member back: it is in the main queue if its hash has a timestamp.
  pub put_back-is_placed :
      (m p : String) (a : AreApart m p global_processing_queue_key) (t : Option ℕ) (id x : String)
      (s : Sets)
      → (str_eq id x ≡ true → is_some t ≡ true)
      → is_placed numerals sets m p s x ≡ true
      → is_placed numerals sets m p (zadd_timestamp numerals sets t m id (zrem s p id)) x ≡ true
  put_back-is_placed m p a none id x s h was = elim (Bool-cases (str_eq id x)) [
    | inl same ↦ cc (h same)
    | inr other ↦ zrem_processing-is_placed numerals sets m p a s id x other ∙ was
  ]
  put_back-is_placed m p a (some n) id x s h was =
      zadd-is_placed numerals sets m p a (zrem s p id) n id x ∙ elim (Bool-cases (str_eq id x)) [
        | inl same ↦ rw same refl
        | inr other ↦ rw (other, zrem_processing-is_placed numerals sets m p a s id x other) was
      ]

  pub set_hash-stamped :
      (k j : String) (v : Option ItemPayload) (hashes : String → Option ItemPayload)
      → (k ≡ j → is_some (timestamp_of v) ≡ true)
      → (str_eq k j ≡ false → is_some (timestamp_of (hashes j)) ≡ true)
      → is_some (timestamp_of (set_hash k v hashes j)) ≡ true
  set_hash-stamped k j v hashes new old = elim (Bool-cases (str_eq k j)) [
    | inl same ↦ rw same (new ((eq_iff k j).0 same))
    | inr other ↦ rw other (old other)
  ]

  -- Items whose hashes have different keys are different members.
  pub apart_members :
      (a b : CompletionBatchItemEntity)
      → HasParts numerals a
      → HasParts numerals b
      → str_eq (payload_key_of a) (payload_key_of b) ≡ false
      → str_eq (item_member_id numerals a) (item_member_id numerals b) ≡ false
  apart_members a b ha hb other = str_eq-false _ _ (λ e.
      let same : payload_key_of a ≡ payload_key_of b =
        sym (payload_key_of-member a ha)
        ∙ ap payload_key_of_member e
        ∙ payload_key_of-member b hb in
      cc (sym other ∙ (eq_iff (payload_key_of a) (payload_key_of b)).1 same))

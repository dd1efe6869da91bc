-- ===== src/Batch/Members.antt =====
-- How the members of packages/api/src/completion/batch/batch-queue.service.ts are taken apart again.
use Prim.Native.Char.{code}
use Prim.Native.String.{String, ◌++◌}
use text.Mathlib.TextLemmas.{nil-append, cons-append, append_cancel_left}
use open_vm_x_ai.Common.{
  ℕ, ◌≡◌, ◌≢◌, refl, sym, ap, ◌∙◌, false, not, some, List, [], ◌∷◌, ◌==◌, filter, All, get_elem?,
  arith, eq_iff,
}
use open_vm_x_ai.Batch.{CompletionBatchItemEntity}
use open_vm_x_ai.Batch.Keys.{
  has_bar, is_empty, Numerals, base_key, queue_key, processing_queue_key,
  global_processing_queue_key, join_bar, split_bar, lua_parts, item_parts, item_member_id,
  read_part, request_tokens,
}

-- A part that can be told apart in a member.
pub record IsPart (s : String) : Type 0 where
  pub no_bar : has_bar s ≡ false
  pub not_empty : is_empty s ≡ false

-- Splitting what was joined.
bar-prefix : (s : String) → split_bar ("|" ++ s) ≡ "" ∷ split_bar s
unfolding split_bar
bar-prefix s = rw cons-append (rw nil-append refl)

split_bar-part : (s : String) → has_bar s ≡ false → split_bar s ≡ s ∷ []
unfolding split_bar has_bar
split_bar-part String.[] h = refl
split_bar-part (String.◌∷◌ c s) h =
    let other : (code c == b'|') ≡ false = ground arith in
    rw (other, split_bar-part s (ground arith)) refl

split_bar-append :
    (s t : String) → has_bar s ≡ false → split_bar (s ++ ("|" ++ t)) ≡ s ∷ split_bar t
unfolding split_bar has_bar
split_bar-append String.[] t h = rw nil-append (bar-prefix t)
split_bar-append (String.◌∷◌ c s) t h =
    let other : (code c == b'|') ≡ false = ground arith in
    rw cons-append (rw (other, split_bar-append s t (ground arith)) refl)

pub split_bar-join_bar :
    (x : String) (xs : List String) → All IsPart (x ∷ xs) → split_bar (join_bar (x ∷ xs)) ≡ x ∷ xs
unfolding join_bar
split_bar-join_bar x [] (p, _) = split_bar-part x p.no_bar
split_bar-join_bar x (y ∷ ys) (p, ps) =
    split_bar-append x (join_bar (y ∷ ys)) p.no_bar ∙ ap (λ zs. x ∷ zs) (split_bar-join_bar y ys ps)

filter-parts : (xs : List String) → All IsPart xs → filter (λ p. not (is_empty p)) xs ≡ xs
filter-parts [] h = refl
filter-parts (x ∷ xs) (p, ps) = rw (p.not_empty, filter-parts xs ps) refl

module _ (numerals : Numerals) where
  open numerals use {print, read, read-print, has_bar-print, is_empty-print}

  number-IsPart : (n : ℕ) → IsPart (print n)
  number-IsPart n = record { no_bar = has_bar-print n; not_empty = is_empty-print n }

  -- The ids of an item can be told apart in a member.
  pub record HasParts (item : CompletionBatchItemEntity) : Type 0 where
    pub workspace_part : IsPart item.workspace_id
    pub environment_part : IsPart item.environment_id
    pub batch_part : IsPart item.batch_id
    pub item_part : IsPart item.item_id
    pub resource_part : IsPart item.resource_id

  item_parts-IsPart :
      (item : CompletionBatchItemEntity) → HasParts item → All IsPart (item_parts numerals item)
  item_parts-IsPart item h = (
    h.workspace_part,
    (
      h.environment_part,
      (
        h.batch_part,
        (
          h.item_part,
          (
            h.resource_part,
            (number-IsPart item.created_at, (number-IsPart item.estimated_prompt_tokens, tt)),
          ),
        ),
      ),
    ),
  )

  -- What is written into the member of an item is read back from it: the consumer gets the ids by
  -- splitting it, and the script that retrieves items gets the tokens, if no id is empty or has a bar.
  pub item_member_id-split_bar :
      (item : CompletionBatchItemEntity)
      → HasParts item
      → (split_bar (item_member_id numerals item) ≡ item_parts numerals item)
        × (request_tokens numerals (item_member_id numerals item)
            ≡ some item.estimated_prompt_tokens)
  unfolding item_member_id request_tokens lua_parts
  item_member_id-split_bar item h =
      let parts = item_parts-IsPart item h in
      let back = split_bar-join_bar item.workspace_id _ parts in
      let lua =
        ap (filter (λ p. not (is_empty p))) back ∙ filter-parts (item_parts numerals item) parts in
      (
        back,
        ap (λ ps. read_part numerals (get_elem? ps 6)) lua
            ∙ read-print item.estimated_prompt_tokens,
      )

same_prefix :
    (b r s t : String) → ◌≡◌ {A = String} (b ++ (":" ++ (r ++ s))) (b ++ (":" ++ (r ++ t))) → s ≡ t
same_prefix b r s t e =
    append_cancel_left r s t (append_cancel_left ":" (r ++ s) (r ++ t) (append_cancel_left b _ _ e))

-- The queue of a resource is not its processing queue.
pub queue_key-ne-processing_queue_key :
    (base_key resource_id : String)
    → queue_key base_key resource_id ≢ processing_queue_key base_key resource_id
unfolding queue_key processing_queue_key
queue_key-ne-processing_queue_key b r e =
    let suffix = same_prefix b r "}:queue" "}:processing-queue" e in
    cc ((eq_iff "}:queue" "}:processing-queue").1 suffix)

first_code : String → ℕ
first_code String.[] = 0
first_code (String.◌∷◌ c s) = code c

base_key-first_code : (w e rest : String) → first_code (base_key w e ++ rest) ≡ b'c'
unfolding base_key first_code
base_key-first_code w e rest = rw cons-append (rw cons-append refl)

-- The keys of a resource are not that of the global processing queue.
pub not_global_processing_queue_key :
    (w e rest : String) → base_key w e ++ rest ≢ global_processing_queue_key
unfolding global_processing_queue_key first_code
not_global_processing_queue_key w e rest h =
    let same = sym (base_key-first_code w e rest) ∙ ap first_code h in omega (arith, same)

-- ===== src/Batch/Machine/Strand.antt =====
-- Which items the commands of packages/api/src/completion/batch/batch-queue.service.ts keep in the
-- queue, in the global processing queue or on their way between them: all of them without a crash, and
-- after a crash none that has left them.
use Prim.Native.String.{String}
use open_vm_x_ai.Common.{
  ℕ, zero, suc, ◌+◌, ◌≡◌, refl, sym, ◌∙◌, subst, Bool, true, false, ◌||◌, Option, is_some, List, [],
  ◌∷◌, ◌++◌, ok, includes, str_eq, eq_iff, Bool-cases, Option-cases, inl, inr, arith,
}
use open_vm_x_ai.Redis.Sets.{SortedSets}
use open_vm_x_ai.Batch.{CompletionBatchItemEntity}
use open_vm_x_ai.Batch.Keys.{Numerals, item_member_id, request_tokens}
use open_vm_x_ai.Batch.Retrieve.{
  retrieve_loop, retrieve_script, zrange_up_to, is_over_tokens, move_item,
}
use open_vm_x_ai.Batch.Retrieve.Moved.{retrieve_script-IsMoved, prepend_item-returns}
use open_vm_x_ai.Batch.Queue.{QueueState, take_expired}
use open_vm_x_ai.Batch.Machine.{
  Machine, Step, send, retrieve, index, expire, put_back, postpone, finish, activate, deactivate,
  crash, Reach, here, next, AreDistinct,
}
use open_vm_x_ai.Batch.Machine.Placed.{includes-without}
use open_vm_x_ai.Batch.Machine.Payloads.{either}
use open_vm_x_ai.Batch.Machine.Keep.{Inv, Step-Inv}
use open_vm_x_ai.Batch.Machine.Handled.{
  is_handled, retrieve-is_handled, send-is_handled, index-is_handled, postpone-is_handled,
  finish-is_handled,
}
use open_vm_x_ai.Batch.Machine.Taken.{expire-is_handled, put_back-is_handled, includes-take}

module _ (numerals : Numerals) (sets : SortedSets) where
  open sets use {Sets, zscore, zadd, zrem, zrange, includes-zrange}

  module _ (main processing : String) where
    retrieve_loop-includes :
        (max_tokens : Option ℕ) (due : ℕ) (ms : List String) (before : ℕ) (s : Sets)
        (taken : List String) (s' : Sets) (x : String)
        → retrieve_loop numerals sets main processing max_tokens due ms before s ≡ (ok taken, s')
        → includes taken x ≡ true
        → includes ms x ≡ true
    unfolding retrieve_loop
    retrieve_loop-includes max_tokens due [] before s taken s' x e h =
        let none_taken : [] ≡ taken = cc e in subst (λ ts. includes ts x ≡ true) (sym none_taken) h
    retrieve_loop-includes max_tokens due (m ∷ ms) before s taken s' x e h =
        elim (Option-cases (request_tokens numerals m)) [
          | inl unread ↦ cc (rw unread at e)
          | inr (tokens, shown) ↦ elim (Bool-cases (is_over_tokens max_tokens (before + tokens))) [
            | inl over ↦
                let stopped = rw (shown, over) at e in
                let none_taken : [] ≡ taken = cc stopped in
                cc (subst (λ ts. includes ts x ≡ true) (sym none_taken) h)
            | inr fits ↦
                let (later, split, run) =
                  prepend_item-returns numerals sets main processing m _ taken s'
                    (rw (shown, fits) at e) in
                either (str_eq m x) (includes later x) (includes ms x)
                  (retrieve_loop-includes max_tokens due ms (before + tokens)
                    (move_item numerals sets main processing due m s) later s' x run)
                  (rw split at h)
          ]
        ]

    includes-zrange_up_to :
        (n : ℕ) (ms : List String) (m : String)
        → includes (zrange_up_to ms n) m ≡ true
        → includes ms m ≡ true
    unfolding zrange_up_to
    includes-zrange_up_to zero ms m h = h
    includes-zrange_up_to (suc n) ms m h = includes-take (suc n) ms m h

    -- What the script returns was in the queue.
    retrieve_script-main :
        (n : ℕ) (max_tokens : Option ℕ) (due : ℕ) (s : Sets) (taken : List String) (s' : Sets)
        (x : String)
        → retrieve_script numerals sets main processing n max_tokens due s ≡ (ok taken, s')
        → includes taken x ≡ true
        → is_some (zscore s main x) ≡ true
    unfolding retrieve_script
    retrieve_script-main n max_tokens due s taken s' x e h =
        sym (includes-zrange s main x)
        ∙ includes-zrange_up_to n (zrange s main) x (
            retrieve_loop-includes max_tokens due (zrange_up_to (zrange s main) n) 0 s taken s' x e
              h)

  module _ (workspace_id environment_id resource_id : String)
      (known : CompletionBatchItemEntity → Type 0) where
    abbrev handled : String → Machine numerals sets → Bool
    handled = is_handled numerals sets workspace_id environment_id resource_id known

    abbrev OurStep : Machine numerals sets → Machine numerals sets → Type 0
    OurStep = Step numerals sets workspace_id environment_id resource_id known

    abbrev pub is_crash : {x y : Machine numerals sets} → OurStep x y → Bool
    is_crash (crash x) = true
    is_crash _ = false

    -- Whether a sequence of commands has a crash in it.
    abbrev pub has_crash :
        {x y : Machine numerals sets}
        → Reach numerals sets workspace_id environment_id resource_id known x y
        → Bool
    has_crash here = false
    has_crash (next steps step) = has_crash steps || is_crash step

    -- Every item that is not finished is in the queue or the global processing queue, or on its way
    -- between them.
    abbrev pub IsHandled : Machine numerals sets → Type 0
    IsHandled x = (m : String) → includes x.live m ≡ true → handled m x ≡ true

    take_expired-handled :
        (limit now : ℕ) (items : List String) (queue : QueueState numerals sets)
        (x : Machine numerals sets) (m : String)
        → take_expired numerals sets limit now x.queue ≡ (items, queue)
        → handled m (record x { queue = queue; taken = items ++ x.taken }) ≡ handled m x
    unfolding take_expired
    take_expired-handled limit now items queue x m e =
        subst
          (λ (out : List String × QueueState numerals sets).
            handled m (record x { queue = out.1; taken = out.0 ++ x.taken }) ≡ handled m x)
          e
          (expire-is_handled numerals sets workspace_id environment_id resource_id known limit now x
            m)

    Step-IsHandled :
        {x y : Machine numerals sets} (step : OurStep x y)
        → is_crash step ≡ false
        → Inv numerals sets workspace_id environment_id resource_id known x
        → IsHandled x
        → IsHandled y
    Step-IsHandled (send item x i) calm inv h = λ m live.
        send-is_handled numerals sets workspace_id environment_id resource_id known item x m i
        ∙ either (str_eq (item_member_id numerals item) m) (includes x.live m) _ (h m) live
    Step-IsHandled (retrieve n most due items stored member x e) calm inv h = λ m live.
        retrieve-is_handled numerals sets workspace_id environment_id resource_id known due items
          stored x m
          (retrieve_script-IsMoved numerals sets _ _ n most due x.queue.stored items stored e)
        ∙ rw (h m live) refl
    Step-IsHandled (index due m x e) calm inv h = λ n live.
        index-is_handled numerals sets workspace_id environment_id resource_id known due m x n e
        ∙ h n live
    Step-IsHandled (expire limit now items queue x e) calm inv h =
        λ m live. take_expired-handled limit now items queue x m e ∙ h m live
    Step-IsHandled (put_back item x i e) calm (kept, stamped) h = λ m live.
        put_back-is_handled numerals sets workspace_id environment_id resource_id known item x m i e
          (λ same. stamped item i (
            subst (λ n. includes x.live n ≡ true)
              (sym ((eq_iff (item_member_id numerals item) m).0 same)) live))
        ∙ h m live
    Step-IsHandled (postpone now delay item x i) calm inv h = λ m live.
        postpone-is_handled numerals sets workspace_id environment_id resource_id known now delay
          item x m
        ∙ h m live
    Step-IsHandled (finish item x i) calm inv h = λ m live.
        let both = sym (includes-without (item_member_id numerals item) m x.live) ∙ live in
        (finish-is_handled numerals sets workspace_id environment_id resource_id known item x m i).0
          (ground (arith, both))
        ∙ h m (ground (arith, both))
    Step-IsHandled (activate member x) calm inv h = h
    Step-IsHandled (deactivate member x e) calm inv h = h
    Step-IsHandled (crash x) calm inv h = cc calm

    -- As long as there is no crash, each item that is not finished is in the queue of its resource or
    -- in the global processing queue, or it has just been taken out of one of them by the one who will
    -- put it into the other, if this and the invariant of the queues hold at the start. (Items with the
    -- same ids are the same. Whether the resource is marked as active, so that a consumer looks at its
    -- queue, is not said.)
    pub Reach-IsHandled :
        (x y : Machine numerals sets)
        → AreDistinct numerals sets workspace_id environment_id resource_id known
        → (steps : Reach numerals sets workspace_id environment_id resource_id known x y)
        → has_crash steps ≡ false
        → Inv numerals sets workspace_id environment_id resource_id known x
        → IsHandled x
        → Inv numerals sets workspace_id environment_id resource_id known y × IsHandled y
    Reach-IsHandled x y distinct here calm inv h = (inv, h)
    Reach-IsHandled x y distinct (next steps step) calm inv h =
        let (inv_before, h_before) = Reach-IsHandled x _ distinct steps (ground arith) inv h in
        (
          Step-Inv numerals sets workspace_id environment_id resource_id known distinct step
              inv_before,
          Step-IsHandled step (ground arith) inv_before h_before,
        )

    -- Whether a sequence of commands sends a member.
    abbrev is_sent : String → {x y : Machine numerals sets} → OurStep x y → Bool
    is_sent m (send item x i) = str_eq (item_member_id numerals item) m
    is_sent m _ = false

    abbrev pub has_sent :
        String
        → {x y : Machine numerals sets}
        → Reach numerals sets workspace_id environment_id resource_id known x y
        → Bool
    has_sent m here = false
    has_sent m (next steps step) = has_sent m steps || is_sent m step

    Step-lost :
        (m : String) {x y : Machine numerals sets} (step : OurStep x y)
        → is_sent m step ≡ false
        → handled m x ≡ false
        → handled m y ≡ false
    Step-lost m (send item x i) fresh lost =
        send-is_handled numerals sets workspace_id environment_id resource_id known item x m i
        ∙ rw (fresh, lost) refl
    Step-lost m (retrieve n most due items stored member x e) fresh lost =
        let moved =
          retrieve_script-IsMoved numerals sets _ _ n most due x.queue.stored items stored e in
        retrieve-is_handled numerals sets workspace_id environment_id resource_id known due items
          stored x m moved
        ∙ elim (Bool-cases (includes items m)) [
          | inr other ↦ rw (other, lost) refl
          | inl taken ↦
              let was = retrieve_script-main _ _ n most due x.queue.stored items stored m e taken in
              absurd (ground (arith, was, lost))
        ]
    Step-lost m (index due id x e) fresh lost =
        index-is_handled numerals sets workspace_id environment_id resource_id known due id x m e
        ∙ lost
    Step-lost m (expire limit now items queue x e) fresh lost =
        take_expired-handled limit now items queue x m e ∙ lost
    Step-lost m (put_back item x i e) fresh lost =
        put_back-is_handled numerals sets workspace_id environment_id resource_id known item x m i e
          (λ same.
            let there : includes x.taken m ≡ true =
              subst (λ n. includes x.taken n ≡ true)
                ((eq_iff (item_member_id numerals item) m).0 same) e in
            absurd (ground (arith, there, lost)))
        ∙ lost
    Step-lost m (postpone now delay item x i) fresh lost =
        postpone-is_handled numerals sets workspace_id environment_id resource_id known now delay
          item x m
        ∙ lost
    Step-lost m (finish item x i) fresh lost =
        (finish-is_handled numerals sets workspace_id environment_id resource_id known item x m i).1
          lost
    Step-lost m (activate member x) fresh lost = lost
    Step-lost m (deactivate member x e) fresh lost = lost
    Step-lost m (crash x) fresh lost = ground (arith, lost)

    -- What is lost stays lost: an item that is neither in the queue nor in the global processing queue,
    -- and that no one has just taken out of one of them, is in neither after any sequence of commands
    -- that does not send it again. So no consumer retrieves it any more.
    pub Reach-lost :
        (m : String) (x y : Machine numerals sets)
        → (steps : Reach numerals sets workspace_id environment_id resource_id known x y)
        → has_sent m steps ≡ false
        → handled m x ≡ false
        → handled m y ≡ false
    Reach-lost m x y here fresh lost = lost
    Reach-lost m x y (next steps step) fresh lost =
        Step-lost m step (ground arith) (Reach-lost m x _ steps (ground arith) lost)

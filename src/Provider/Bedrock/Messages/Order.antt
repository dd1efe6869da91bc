-- ===== src/Provider/Bedrock/Messages/Order.antt =====
-- Which blocks the messages have that packages/api/src/ai-provider/providers/aws-bedrock.provider.ts
-- sends.
use open_vm_x_ai.Common.{
  ℕ, suc, ◌≡◌, refl, sym, ap, ◌∙◌, List, [], ◌∷◌, ◌++◌, Result, ok, err, ◌>>=◌, ◌⊎◌, inl, inr,
  Bool-cases, Result-cases,
}
use mathlib.Core.List.{reverse, append-nil, append_assoc, reverse-append}
use open_vm_x_ai.Errors.{CompletionErrorData}
use open_vm_x_ai.Provider.{
  ChatMessage, system_message, developer_message, user_message, assistant_message, tool_message,
  function_message,
}
use open_vm_x_ai.Provider.Bedrock.{Host, ContentBlock, ConverseMessage}
use open_vm_x_ai.Provider.Bedrock.Messages.Pieces.{
  kept_blocks, all_blocks, up_to_failure, all_pieces, all_blocks-pieces,
}
use open_vm_x_ai.Provider.Bedrock.Messages.{
  has_tool_result, push_result, convert_step, convert_loop, convert_messages,
}

module _ (host : Host) where
  abbrev Blocks : Type 0
  Blocks = List (ContentBlock host)

  abbrev Messages : Type 0
  Messages = List (ConverseMessage host)

  -- All blocks of the messages.
  abbrev pub contents : Messages → Blocks
  contents [] = []
  contents (m ∷ ms) = m.content ++ contents ms

  abbrev pub map_ok {ℓ κ} :
      {A : Type ℓ} {B : Type κ}
      → (A → B)
      → Result CompletionErrorData A
      → Result CompletionErrorData B
  map_ok f (ok a) = ok (f a)
  map_ok f (err e) = err e

  -- The blocks of the messages so far, the last message first.
  abbrev earlier : Messages → Blocks
  earlier [] = []
  earlier (m ∷ ms) = earlier ms ++ m.content

  contents-append : (xs ys : Messages) → contents (xs ++ ys) ≡ contents xs ++ contents ys
  contents-append [] ys = refl
  contents-append (x ∷ xs) ys =
      ap (λ zs. x.content ++ zs) (contents-append xs ys)
      ∙ sym (append_assoc x.content (contents xs) (contents ys))

  contents-reverse : (ms : Messages) → contents (reverse ms) ≡ earlier ms
  contents-reverse [] = refl
  contents-reverse (m ∷ ms) =
      ap contents (reverse-append (m ∷ []) ms)
      ∙ contents-append (reverse ms) (m ∷ [])
      ∙ rw (contents-reverse ms) (ap (λ zs. earlier ms ++ zs) (append-nil m.content))

  earlier-push_result :
      (blocks : Blocks) (done : Messages)
      → earlier (push_result host blocks done) ≡ earlier done ++ blocks
  earlier-push_result blocks [] = refl
  earlier-push_result blocks (last ∷ before) = elim (Bool-cases (has_tool_result host last)) [
    | inl joins ↦ rw joins (sym (append_assoc (earlier before) last.content blocks))
    | inr alone ↦ rw alone refl
  ]

  -- A step fails where its message does, or adds the blocks of its message.
  abbrev Adds :
      Result CompletionErrorData Blocks → Result CompletionErrorData Messages → Messages → Type 0
  Adds blocks step done =
      ((e : CompletionErrorData) × (blocks ≡ err e) × (step ≡ err e))
      ⊎ ((bs : Blocks) × (after : Messages) × (blocks ≡ ok bs)
          × (step ≡ ok after)
          × (earlier after ≡ earlier done ++ bs))

  bind-Adds :
      (blocks : Result CompletionErrorData Blocks) (f : Blocks → Messages) (done : Messages)
      → ((bs : Blocks) → earlier (f bs) ≡ earlier done ++ bs)
      → Adds blocks (blocks >>= λ bs. ok (f bs)) done
  bind-Adds (ok bs) f done h = inr (bs, f bs, refl, refl, h bs)
  bind-Adds (err e) f done h = inl (e, refl, refl)

  skip-Adds : (done : Messages) → Adds (ok []) (ok done) done
  skip-Adds done = inr ([], done, refl, refl, sym (append-nil (earlier done)))

  convert_step-Adds :
      (m : ChatMessage) (i : ℕ) (done : Messages)
      → Adds (kept_blocks host m i) (convert_step host m i done) done
  unfolding convert_step
  convert_step-Adds (system_message _) i done = skip-Adds done
  convert_step-Adds (developer_message _) i done = skip-Adds done
  convert_step-Adds (function_message _) i done = skip-Adds done
  convert_step-Adds (user_message _) i done = bind-Adds _ _ done (λ bs. refl)
  convert_step-Adds (assistant_message _ _ _) i done = bind-Adds _ _ done (λ bs. refl)
  convert_step-Adds (tool_message _ _) i done =
      bind-Adds _ (λ bs. push_result host bs done) done (λ bs. earlier-push_result bs done)

  convert_loop-blocks :
      (ms : List ChatMessage) (i : ℕ) (done : Messages)
      → map_ok contents (convert_loop host ms i done)
        ≡ map_ok (λ bs. earlier done ++ bs) (all_blocks host ms i)
  unfolding convert_loop
  convert_loop-blocks [] i done = ap ok (contents-reverse done ∙ sym (append-nil (earlier done)))
  convert_loop-blocks (m ∷ ms) i done = elim (convert_step-Adds m i done) [
    | inl (e, blocks, step) ↦ rw (blocks, step) refl
    | inr (bs, after, blocks, step, same) ↦
        rw (blocks, step)
          (convert_loop-blocks ms (suc i) after ∙ elim (Result-cases (all_blocks host ms (suc i))) [
            | inl (rest, returned) ↦
                rw (returned, same) (ap ok (append_assoc (earlier done) bs rest))
            | inr (e, failed) ↦ rw failed refl
          ])
  ]

  map_ok-id : (r : Result CompletionErrorData Blocks) → map_ok (λ bs. [] ++ bs) r ≡ r
  map_ok-id (ok bs) = refl
  map_ok-id (err e) = refl

  -- The messages that are sent have together exactly the blocks that the request asks for, one after
  -- the other: those of the parts of a content, or of the calls of tools where an assistant has some,
  -- and the result of a tool; and the conversion fails with the first of the parts that cannot be
  -- converted, an audio or an image that is not fetched. Messages of the system, of a developer and of
  -- functions ask for nothing here.
  pub convert_messages-contents :
      (messages : List ChatMessage)
      → map_ok contents (convert_messages host messages)
        ≡ up_to_failure host (all_pieces host messages 0)
  unfolding convert_messages
  convert_messages-contents messages =
      convert_loop-blocks messages 0 []
      ∙ map_ok-id (all_blocks host messages 0)
      ∙ all_blocks-pieces host messages 0

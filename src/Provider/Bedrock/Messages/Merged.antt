-- ===== src/Provider/Bedrock/Messages/Merged.antt =====
-- The results of tools that follow each other go into one message, in
-- packages/api/src/ai-provider/providers/aws-bedrock.provider.ts.
use open_vm_x_ai.Common.{
  ℕ, suc, ◌≡◌, refl, sym, ap, ◌∙◌, subst, Bool, true, false, ◌&&◌, ◌||◌, Option, none, some, List,
  [], ◌∷◌, ◌++◌, map, any, Result, ok, err, ◌>>=◌, Bool-cases, Option-cases, >>=-eq-ok, inl, inr,
  str_eq, arith,
}
use mathlib.Core.List.{reverse, append_assoc, reverse-append}
use open_vm_x_ai.Errors.{CompletionErrorData}
use open_vm_x_ai.Provider.{
  ContentPart, text_part, image_part, file_part, audio_part, refusal_part, Content, text_content,
  parts_content, ToolCall, function_call, custom_call, FunctionCall, ChatMessage, system_message,
  developer_message, user_message, assistant_message, tool_message, function_message,
}
use open_vm_x_ai.Provider.Bedrock.{Host, ContentBlock, tool_result, ConverseMessage}
use open_vm_x_ai.Provider.Bedrock.Messages.{
  texts_of, part_blocks, convert_parts, convert_content, call_block, function_call_blocks,
  has_calls, convert_message_parts, is_tool_result, has_tool_result, push_result, convert_step,
  convert_loop, convert_messages,
}

module _ (host : Host) where
  abbrev Messages : Type 0
  Messages = List (ConverseMessage host)

  abbrev has : ConverseMessage host → Bool
  has = has_tool_result host

  -- Of two messages that follow each other at most one has results of tools.
  abbrev pub AreMerged : Messages → Type 0
  AreMerged [] = Unit
  AreMerged (m ∷ []) = Unit
  AreMerged (m ∷ n ∷ ms) = ((has m && has n) ≡ false) × AreMerged (n ∷ ms)

  both_ways : (b c : Bool) → (b && c) ≡ false → (c && b) ≡ false
  both_ways b c h = ground arith

  right_false : (b c : Bool) → c ≡ false → (b && c) ≡ false
  right_false b c h = ground arith

  first_true : (b c : Bool) → b ≡ true → (b && c) ≡ false → c ≡ false
  first_true b c h k = ground arith

  reverse-AreMerged :
      (m : ConverseMessage host) (before after : Messages)
      → AreMerged (m ∷ before)
      → AreMerged (m ∷ after)
      → AreMerged (reverse before ++ (m ∷ after))
  reverse-AreMerged m [] after h k = k
  reverse-AreMerged m (n ∷ before) after (apart, h) k =
      let step : reverse (n ∷ before) ++ (m ∷ after) ≡ reverse before ++ (n ∷ m ∷ after) =
        ap (λ ms. ms ++ (m ∷ after)) (reverse-append (n ∷ []) before)
        ∙ append_assoc (reverse before) (n ∷ []) (m ∷ after) in
      subst AreMerged (sym step)
        (reverse-AreMerged n before (m ∷ after) h (both_ways (has m) (has n) apart, k))

  all-AreMerged : (ms : Messages) → AreMerged ms → AreMerged (reverse ms)
  all-AreMerged [] h = tt
  all-AreMerged (m ∷ ms) h =
      subst AreMerged (sym (reverse-append (m ∷ []) ms)) (reverse-AreMerged m ms [] h tt)

  abbrev none_of : List (ContentBlock host) → Bool
  none_of = any (is_tool_result host)

  any-append : (xs ys : List (ContentBlock host)) → none_of (xs ++ ys) ≡ (none_of xs || none_of ys)
  any-append [] ys = refl
  any-append (x ∷ xs) ys = ground (arith, any-append xs ys)

  -- Only the messages of tools give results.
  abbrev NoResult : Result CompletionErrorData (List (ContentBlock host)) → Type 0
  NoResult r = (bs : List (ContentBlock host)) → r ≡ ok bs → none_of bs ≡ false

  of_list : (xs : List (ContentBlock host)) → none_of xs ≡ false → NoResult (ok xs)
  of_list xs h bs e = let same : xs ≡ bs = cc e in subst (λ ys. none_of ys ≡ false) same h

  of_error : (e : CompletionErrorData) → NoResult (err e)
  of_error e bs h = cc h

  part_blocks-NoResult : (p : ContentPart) (i j : ℕ) → NoResult (part_blocks host p i j)
  part_blocks-NoResult (text_part s) i j = of_list _ refl
  part_blocks-NoResult (image_part url) i j = elim (Option-cases (host.fetch url)) [
    | inl failed ↦ rw failed (of_error _)
    | inr (bytes, fetched) ↦ rw fetched (of_list _ refl)
  ]
  part_blocks-NoResult (file_part n id data_) i j = of_list _ refl
  part_blocks-NoResult audio_part i j = of_error _
  part_blocks-NoResult (refusal_part s) i j = of_list _ refl

  convert_parts-NoResult : (ps : List ContentPart) (i j : ℕ) → NoResult (convert_parts host ps i j)
  unfolding convert_parts
  convert_parts-NoResult [] i j bs e = of_list [] refl bs e
  convert_parts-NoResult (p ∷ ps) i j bs e =
      let (here, e1, e2) = >>=-eq-ok (part_blocks host p i j) _ e in
      let (rest, e3, e4) = >>=-eq-ok (convert_parts host ps i (suc j)) _ e2 in
      let both : none_of (here ++ rest) ≡ false =
        any-append here rest
        ∙ rw (part_blocks-NoResult p i j here e1, convert_parts-NoResult ps i (suc j) rest e3)
            refl in
      of_list (here ++ rest) both bs e4

  convert_content-NoResult : (c : Option Content) (i : ℕ) → NoResult (convert_content host c i)
  unfolding convert_content
  convert_content-NoResult none i = of_list [] refl
  convert_content-NoResult (some (text_content s)) i = elim (Bool-cases (str_eq s "")) [
    | inl empty ↦ rw empty (of_list [] refl)
    | inr given ↦ rw given (of_list _ refl)
  ]
  convert_content-NoResult (some (parts_content ps)) i = convert_parts-NoResult ps i 0

  calls-none :
      (calls : List ToolCall) (call : Option FunctionCall)
      → none_of (map (call_block host) calls ++ function_call_blocks host call) ≡ false
  calls-none [] none = refl
  calls-none [] (some c) = refl
  calls-none (function_call _ _ _ ∷ calls) call = calls-none calls call
  calls-none (custom_call _ _ _ ∷ calls) call = calls-none calls call

  assistant-NoResult :
      (content : Option Content) (calls : List ToolCall) (call : Option FunctionCall) (i : ℕ)
      → NoResult (convert_message_parts host (assistant_message content calls call) i)
  unfolding convert_message_parts
  assistant-NoResult content calls call i = elim (Bool-cases (has_calls host calls call)) [
    | inl calling ↦ rw calling (of_list _ (calls-none calls call))
    | inr plain ↦ rw plain (convert_content-NoResult content i)
  ]

  push-AreMerged :
      (m : ConverseMessage host) (done : Messages)
      → has m ≡ false
      → AreMerged done
      → AreMerged (m ∷ done)
  push-AreMerged m [] h k = tt
  push-AreMerged m (n ∷ done) h k = (rw h refl, k)

  push_result-AreMerged :
      (blocks : List (ContentBlock host)) (done : Messages)
      → AreMerged done
      → AreMerged (push_result host blocks done)
  push_result-AreMerged blocks [] h = tt
  push_result-AreMerged blocks (last ∷ []) h = elim (Bool-cases (has last)) [
    | inl joins ↦ rw joins tt
    | inr alone ↦ rw alone (right_false _ (has last) alone, tt)
  ]
  push_result-AreMerged blocks (last ∷ n ∷ done) (apart, h) = elim (Bool-cases (has last)) [
    | inl joins ↦ rw joins (right_false _ (has n) (first_true (has last) (has n) joins apart), h)
    | inr alone ↦ rw alone (right_false _ (has last) alone, (apart, h))
  ]

  -- A step keeps the messages so far merged.
  Keeps : Result CompletionErrorData Messages → Type 0
  Keeps r = (after : Messages) → r ≡ ok after → AreMerged after

  push-Keeps :
      (blocks : Result CompletionErrorData (List (ContentBlock host)))
      (f : List (ContentBlock host) → ConverseMessage host) (done : Messages)
      → ((bs : List (ContentBlock host)) → (f bs).content ≡ bs)
      → NoResult blocks
      → AreMerged done
      → Keeps (blocks >>= λ bs. ok (f bs ∷ done))
  unfolding Keeps
  push-Keeps (ok bs) f done same h k after e =
      let pushed : f bs ∷ done ≡ after = cc e in
      subst AreMerged pushed (push-AreMerged (f bs) done (ap none_of (same bs) ∙ h bs refl) k)
  push-Keeps (err x) f done same h k after e = cc e

  convert_step-Keeps :
      (m : ChatMessage) (i : ℕ) (done : Messages)
      → AreMerged done
      → Keeps (convert_step host m i done)
  unfolding convert_step Keeps convert_message_parts
  convert_step-Keeps (system_message _) i done k after e =
      let same : done ≡ after = cc e in subst AreMerged same k
  convert_step-Keeps (developer_message _) i done k after e =
      let same : done ≡ after = cc e in subst AreMerged same k
  convert_step-Keeps (function_message _) i done k after e =
      let same : done ≡ after = cc e in subst AreMerged same k
  convert_step-Keeps (user_message c) i done k after e =
      push-Keeps _ _ done (λ bs. refl) (convert_content-NoResult (some c) i) k after e
  convert_step-Keeps (assistant_message c calls call) i done k after e =
      push-Keeps _ _ done (λ bs. refl) (assistant-NoResult c calls call i) k after e
  convert_step-Keeps (tool_message id c) i done k after e =
      let blocks : List (ContentBlock host) = tool_result (some id) (texts_of c) ∷ [] in
      let pushed : push_result host blocks done ≡ after = cc e in
      subst AreMerged pushed (push_result-AreMerged blocks done k)

  convert_loop-AreMerged :
      (ms : List ChatMessage) (i : ℕ) (done sent : Messages)
      → AreMerged done
      → convert_loop host ms i done ≡ ok sent
      → AreMerged sent
  unfolding convert_loop Keeps
  convert_loop-AreMerged [] i done sent k e =
      let same : reverse done ≡ sent = cc e in subst AreMerged same (all-AreMerged done k)
  convert_loop-AreMerged (m ∷ ms) i done sent k e =
      let (after, step, rest) = >>=-eq-ok (convert_step host m i done) _ e in
      convert_loop-AreMerged ms (suc i) after sent (convert_step-Keeps m i done k after step) rest

  -- In the messages that are sent no two that follow each other have both results of tools, as the
  -- API wants it: the results of the tools that one message calls are sent together.
  pub convert_messages-AreMerged :
      (messages : List ChatMessage) (sent : Messages)
      → convert_messages host messages ≡ ok sent
      → AreMerged sent
  unfolding convert_messages
  convert_messages-AreMerged messages sent e = convert_loop-AreMerged messages 0 [] sent tt e

-- ===== src/Provider/Bedrock/Messages/Pieces.antt =====
-- Which blocks the messages of a request ask for, part by part, told apart from the conversion in
-- packages/api/src/ai-provider/providers/aws-bedrock.provider.ts.
use open_vm_x_ai.Common.{
  ℕ, suc, ◌≡◌, refl, sym, ap, ◌∙◌, Option, none, some, String, str_eq, if◌then◌else◌, List, [], ◌∷◌,
  ◌++◌, map, Result, ok, err, ◌>>=◌, inl, inr, Bool-cases, Result-cases,
}
use mathlib.Core.List.{append-nil}
use open_vm_x_ai.Errors.{CompletionErrorData}
use open_vm_x_ai.Provider.{
  ContentPart, text_part, image_part, file_part, audio_part, refusal_part, Content, text_content,
  parts_content, ToolCall, function_call, custom_call, ChatMessage, system_message,
  developer_message, user_message, assistant_message, tool_message, function_message,
}
use open_vm_x_ai.Provider.Bedrock.{
  Host, ToolInput, parsed, unparsed, ContentBlock, text_block, tool_use, tool_result, image_block,
  document_block,
}
use open_vm_x_ai.Provider.Bedrock.Messages.{
  image_failed, audio_refused, image_or, decode_some, parsed_or, parse_tool_arguments, call_block,
  texts_of, convert_parts, convert_content, convert_message_parts,
}

module _ (host : Host) where
  abbrev Blocks : Type 0
  Blocks = List (ContentBlock host)

  -- The blocks that a request asks for, one by one: a block, or the failure of its part.
  abbrev Pieces : Type 0
  Pieces = List (Result CompletionErrorData (ContentBlock host))

  -- The argument of a tool is what its text parses to, or the text.
  abbrev input_piece : String → Option (host.Json) → ToolInput host
  input_piece arguments none = unparsed arguments
  input_piece arguments (some j) = parsed j

  abbrev call_piece : ToolCall → Result CompletionErrorData (ContentBlock host)
  call_piece (function_call id name arguments) =
      ok (tool_use name (input_piece arguments (host.parse_json arguments)) (some id))
  call_piece (custom_call id name input) =
      ok (tool_use name (input_piece input (host.parse_json input)) (some id))

  abbrev call_pieces : List ToolCall → Pieces
  call_pieces [] = []
  call_pieces (c ∷ cs) = call_piece c ∷ call_pieces cs

  abbrev image_piece :
      String → ℕ → ℕ → Option (host.Bytes) → Result CompletionErrorData (ContentBlock host)
  image_piece url i j none = err (image_failed url i j)
  image_piece url i j (some bytes) = ok (image_block bytes)

  abbrev data_piece : Option String → Option String
  data_piece none = none
  data_piece (some data_) = if str_eq data_ "" then none else some (host.decode_base64 data_)

  -- The parts of the message `i`, from its part `j` on: a refusal gives no block.
  abbrev part_pieces : List ContentPart → ℕ → ℕ → Pieces
  part_pieces [] i j = []
  part_pieces (text_part s ∷ ps) i j = ok (text_block s) ∷ part_pieces ps i (suc j)
  part_pieces (image_part url ∷ ps) i j =
      image_piece url i j (host.fetch url) ∷ part_pieces ps i (suc j)
  part_pieces (file_part name id data_ ∷ ps) i j =
      ok (document_block name id (data_piece data_)) ∷ part_pieces ps i (suc j)
  part_pieces (audio_part ∷ ps) i j = err audio_refused ∷ part_pieces ps i (suc j)
  part_pieces (refusal_part _ ∷ ps) i j = part_pieces ps i (suc j)

  abbrev content_pieces : Option Content → ℕ → Pieces
  content_pieces none i = []
  content_pieces (some (text_content s)) i = if str_eq s "" then [] else ok (text_block s) ∷ []
  content_pieces (some (parts_content ps)) i = part_pieces ps i 0

  -- An assistant that calls tools has no other content, and messages of the system, of a developer
  -- and of functions have no blocks.
  abbrev message_pieces : ChatMessage → ℕ → Pieces
  message_pieces (user_message content) i = content_pieces (some content) i
  message_pieces (assistant_message content [] none) i = content_pieces content i
  message_pieces (assistant_message content [] (some c)) i =
      ok (tool_use c.name (input_piece c.arguments (host.parse_json c.arguments)) none) ∷ []
  message_pieces (assistant_message content (call ∷ calls) none) i = call_pieces (call ∷ calls)
  message_pieces (assistant_message content (call ∷ calls) (some c)) i =
      call_pieces (call ∷ calls)
      ++ ok (tool_use c.name (input_piece c.arguments (host.parse_json c.arguments)) none) ∷ []
  message_pieces (tool_message id content) i = ok (tool_result (some id) (texts_of content)) ∷ []
  message_pieces (system_message _) i = []
  message_pieces (developer_message _) i = []
  message_pieces (function_message _) i = []

  abbrev pub all_pieces : List ChatMessage → ℕ → Pieces
  all_pieces [] i = []
  all_pieces (m ∷ ms) i = message_pieces m i ++ all_pieces ms (suc i)

  -- All the blocks, or the first failure.
  abbrev pub up_to_failure : Pieces → Result CompletionErrorData Blocks
  up_to_failure [] = ok []
  up_to_failure (err e ∷ _) = err e
  up_to_failure (ok b ∷ ps) = elim (up_to_failure ps) [ err e ↦ err e | ok bs ↦ ok (b ∷ bs) ]

  -- What the conversion of one message gives, where the loop calls it.
  abbrev pub kept_blocks : ChatMessage → ℕ → Result CompletionErrorData Blocks
  kept_blocks (system_message _) i = ok []
  kept_blocks (developer_message _) i = ok []
  kept_blocks (function_message _) i = ok []
  kept_blocks m i = convert_message_parts host m i

  abbrev joined :
      Result CompletionErrorData Blocks
      → Result CompletionErrorData Blocks
      → Result CompletionErrorData Blocks
  joined xs ys = do here ← xs; rest ← ys; ok (here ++ rest)

  up_to_failure-append :
      (ps qs : Pieces) → up_to_failure (ps ++ qs) ≡ joined (up_to_failure ps) (up_to_failure qs)
  up_to_failure-append [] qs = elim (Result-cases (up_to_failure qs)) [
    | inl (bs, e) ↦ rw e refl
    | inr (x, e) ↦ rw e refl
  ]
  up_to_failure-append (err e ∷ ps) qs = refl
  up_to_failure-append (ok b ∷ ps) qs =
      rw (up_to_failure-append ps qs) (elim (Result-cases (up_to_failure ps)) [
        | inr (x, e) ↦ rw e refl
        | inl (bs, e) ↦ rw e (elim (Result-cases (up_to_failure qs)) [
          | inl (cs, f) ↦ rw f refl
          | inr (x, f) ↦ rw f refl
        ])
      ])

  -- One piece in front.
  joined-ok :
      (b : ContentBlock host) (ps : Pieces)
      → joined (ok (b ∷ [])) (up_to_failure ps) ≡ up_to_failure (ok b ∷ ps)
  joined-ok b ps = elim (Result-cases (up_to_failure ps)) [
    | inl (bs, e) ↦ rw e refl
    | inr (x, e) ↦ rw e refl
  ]

  joined-nothing : (r : Result CompletionErrorData Blocks) → joined (ok []) r ≡ r
  joined-nothing (ok bs) = refl
  joined-nothing (err e) = refl

  joined-image :
      (url : String) (i j : ℕ) (o : Option (host.Bytes)) (ps : Pieces)
      → joined (image_or host url i j o) (up_to_failure ps)
        ≡ up_to_failure (image_piece url i j o ∷ ps)
  joined-image url i j none ps = refl
  joined-image url i j (some bytes) ps = joined-ok (image_block bytes) ps

  decode_some-data_piece : (o : Option String) → decode_some host o ≡ data_piece o
  decode_some-data_piece none = refl
  decode_some-data_piece (some d) = refl

  convert_parts-pieces :
      (ps : List ContentPart) (i j : ℕ)
      → convert_parts host ps i j ≡ up_to_failure (part_pieces ps i j)
  unfolding convert_parts
  convert_parts-pieces [] i j = refl
  convert_parts-pieces (text_part s ∷ ps) i j =
      rw (convert_parts-pieces ps i (suc j)) (joined-ok (text_block s) (part_pieces ps i (suc j)))
  convert_parts-pieces (image_part url ∷ ps) i j =
      rw (convert_parts-pieces ps i (suc j))
        (joined-image url i j (host.fetch url) (part_pieces ps i (suc j)))
  convert_parts-pieces (file_part name id data_ ∷ ps) i j =
      rw (convert_parts-pieces ps i (suc j), decode_some-data_piece data_)
        (joined-ok (document_block name id (data_piece data_)) (part_pieces ps i (suc j)))
  convert_parts-pieces (audio_part ∷ ps) i j = refl
  convert_parts-pieces (refusal_part _ ∷ ps) i j =
      rw (convert_parts-pieces ps i (suc j))
        (joined-nothing (up_to_failure (part_pieces ps i (suc j))))

  convert_content-pieces :
      (content : Option Content) (i : ℕ)
      → convert_content host content i ≡ up_to_failure (content_pieces content i)
  unfolding convert_content
  convert_content-pieces none i = refl
  convert_content-pieces (some (text_content s)) i = elim (Bool-cases (str_eq s "")) [
    | inl empty ↦ rw empty refl
    | inr full ↦ rw full refl
  ]
  convert_content-pieces (some (parts_content ps)) i = convert_parts-pieces ps i 0

  parsed_or-input_piece :
      (arguments : String) (o : Option (host.Json))
      → parsed_or host arguments o ≡ input_piece arguments o
  parsed_or-input_piece arguments none = refl
  parsed_or-input_piece arguments (some j) = refl

  call_block-piece : (c : ToolCall) → call_piece c ≡ ok (call_block host c)
  unfolding parse_tool_arguments
  call_block-piece (function_call id name arguments) =
      rw (parsed_or-input_piece arguments (host.parse_json arguments)) refl
  call_block-piece (custom_call id name input) =
      rw (parsed_or-input_piece input (host.parse_json input)) refl

  calls-pieces :
      (calls : List ToolCall) → up_to_failure (call_pieces calls) ≡ ok (map (call_block host) calls)
  calls-pieces [] = refl
  calls-pieces (c ∷ cs) = rw (call_block-piece c, calls-pieces cs) refl

  kept_blocks-pieces :
      (m : ChatMessage) (i : ℕ) → kept_blocks m i ≡ up_to_failure (message_pieces m i)
  unfolding convert_message_parts parse_tool_arguments
  kept_blocks-pieces (user_message content) i = convert_content-pieces (some content) i
  kept_blocks-pieces (assistant_message content [] none) i = convert_content-pieces content i
  kept_blocks-pieces (assistant_message content [] (some c)) i =
      rw (parsed_or-input_piece c.arguments (host.parse_json c.arguments)) refl
  kept_blocks-pieces (assistant_message content (call ∷ calls) none) i =
      ap ok (append-nil (map (call_block host) (call ∷ calls))) ∙ sym (calls-pieces (call ∷ calls))
  kept_blocks-pieces (assistant_message content (call ∷ calls) (some c)) i = sym (
      up_to_failure-append (call_pieces (call ∷ calls)) _
      ∙ rw
          (
            calls-pieces (call ∷ calls),
            parsed_or-input_piece c.arguments (host.parse_json c.arguments),
          )
          refl)
  kept_blocks-pieces (tool_message id content) i = refl
  kept_blocks-pieces (system_message _) i = refl
  kept_blocks-pieces (developer_message _) i = refl
  kept_blocks-pieces (function_message _) i = refl

  abbrev pub all_blocks : List ChatMessage → ℕ → Result CompletionErrorData Blocks
  all_blocks [] i = ok []
  all_blocks (m ∷ ms) i = joined (kept_blocks m i) (all_blocks ms (suc i))

  pub all_blocks-pieces :
      (ms : List ChatMessage) (i : ℕ) → all_blocks ms i ≡ up_to_failure (all_pieces ms i)
  all_blocks-pieces [] i = refl
  all_blocks-pieces (m ∷ ms) i =
      rw (kept_blocks-pieces m i, all_blocks-pieces ms (suc i))
        (sym (up_to_failure-append (message_pieces m i) (all_pieces ms (suc i))))

-- ===== src/Provider/Bedrock/Stream/Joined.antt =====
-- What a client that joins the chunks of packages/api/src/ai-provider/providers/aws-bedrock.provider.ts
-- reads.
use Prim.Native.String.{◌++◌}
use text.Mathlib.TextLemmas.{nil-append, append-nil}
use open_vm_x_ai.Common.{
  ℕ, ◌≡◌, refl, sym, ap, ◌∙◌, Bool, true, false, Option, none, some, get_or, String, List, [], ◌∷◌,
  str_eq, eq_iff, ◌==◌, if◌then◌else◌, Bool-cases, inl, inr,
}
use open_vm_x_ai.Errors.{CompletionErrorData}
use open_vm_x_ai.Provider.Bedrock.Failure.{handle_error}
use open_vm_x_ai.Provider.Bedrock.Stream.{
  StreamItem, message_start, block_stop, other_item, tool_start, other_start, text_delta,
  tool_delta, other_delta, message_stop, metadata, failure, ToolCallDelta, Choice, Chunk, chunk_of,
  yield_some, convert_stream, with_choice, tool_choice, bare, StopReason, finish_reason, TokenUsage,
  convert_usage,
}

-- The text of a chunk, and the part of the arguments of the tool with this index.
abbrev choice_text : Option Choice → String
choice_text none = ""
choice_text (some c) = get_or c.content ""

abbrev arguments_in : ℕ → List ToolCallDelta → String
arguments_in i [] = ""
arguments_in i (d ∷ ds) = (if d.index == i then d.arguments else "") ++ arguments_in i ds

abbrev choice_arguments : ℕ → Option Choice → String
choice_arguments i none = ""
choice_arguments i (some c) = arguments_in i c.tool_calls

abbrev pub joined_text : List Chunk → String
joined_text [] = ""
joined_text (c ∷ cs) = choice_text c.choice ++ joined_text cs

abbrev pub joined_arguments : ℕ → List Chunk → String
joined_arguments i [] = ""
joined_arguments i (c ∷ cs) = choice_arguments i c.choice ++ joined_arguments i cs

-- What the API sends up to its first failure, and that failure.
abbrev pub sent_text : List StreamItem → String
sent_text [] = ""
sent_text (failure e ∷ items) = ""
sent_text (text_delta s ∷ items) = s ++ sent_text items
sent_text (_ ∷ items) = sent_text items

abbrev pub sent_arguments : ℕ → List StreamItem → String
sent_arguments i [] = ""
sent_arguments i (failure e ∷ items) = ""
sent_arguments i (tool_delta index input ∷ items) =
    (if get_or index 0 == i then get_or input "" else "") ++ sent_arguments i items
sent_arguments i (_ ∷ items) = sent_arguments i items

abbrev pub first_failure : List StreamItem → Option CompletionErrorData
first_failure [] = none
first_failure (failure e ∷ items) = some (handle_error e)
first_failure (_ ∷ items) = first_failure items

-- One item adds to the text and to the arguments what it has.
record Adds (before : String) (i : ℕ) (arguments : String) (item : StreamItem) : Type 0 where
  pub text :
      (out : List Chunk × Option CompletionErrorData)
      → joined_text (yield_some (chunk_of item) out).0 ≡ before ++ joined_text out.0
  pub part :
      (out : List Chunk × Option CompletionErrorData)
      → joined_arguments i (yield_some (chunk_of item) out).0
        ≡ arguments ++ joined_arguments i out.0
  pub thrown :
      (out : List Chunk × Option CompletionErrorData) → (yield_some (chunk_of item) out).1 ≡ out.1

nothing-Adds : (i : ℕ) (item : StreamItem) → chunk_of item ≡ none → Adds "" i "" item
nothing-Adds i item h = record {
  text = λ out. rw h (sym (nil-append (joined_text out.0)));
  part = λ out. rw h (sym (nil-append (joined_arguments i out.0)));
  thrown = λ out. rw h refl;
}

chunk-Adds :
    (i : ℕ) (item : StreamItem) (c : Chunk)
    → chunk_of item ≡ some c
    → Adds (choice_text c.choice) i (choice_arguments i c.choice) item
chunk-Adds i item c h = record {
  text = λ out. rw h refl;
  part = λ out. rw h refl;
  thrown = λ out. rw h refl;
}

-- A chunk with one part of a tool.
part-Adds :
    (i : ℕ) (item : StreamItem) (d : ToolCallDelta) (arguments : String)
    → chunk_of item ≡ some (with_choice (tool_choice d))
    → (if d.index == i then d.arguments else "") ≡ arguments
    → Adds "" i arguments item
part-Adds i item d arguments h same = record {
  text = λ out. rw h refl;
  part = λ out. rw (h, append-nil (if d.index == i then d.arguments else ""), same) refl;
  thrown = λ out. rw h refl;
}

same_either_way : (b : Bool) (s : String) → (if b then s else s) ≡ s
same_either_way true s = refl
same_either_way false s = refl

empty-Adds : (i : ℕ) (s : String) → str_eq s "" ≡ true → s ≡ "" → Adds s i "" (text_delta s)
unfolding chunk_of
empty-Adds i s empty same = record {
  text = λ out. rw (empty, same) refl;
  part = λ out. rw empty refl;
  thrown = λ out. rw empty refl;
}

text-Adds : (i : ℕ) (s : String) → Adds s i "" (text_delta s)
unfolding chunk_of
text-Adds i s = elim (Bool-cases (str_eq s "")) [
  | inl empty ↦ empty-Adds i s empty ((eq_iff s "").0 empty)
  | inr given ↦
      chunk-Adds i (text_delta s)
        (with_choice (record { content = some s; tool_calls = []; finish = none })) (rw given refl)
]

tool_start-Adds :
    (i : ℕ) (index : Option ℕ) (name id : Option String) → Adds "" i "" (tool_start index name id)
unfolding chunk_of
tool_start-Adds i index name id =
    part-Adds i (tool_start index name id)
      (record { index = get_or index 0; id = id; name = name; arguments = "" }) "" refl
      (same_either_way (get_or index 0 == i) "")

tool_delta-Adds :
    (i : ℕ) (index : Option ℕ) (input : Option String)
    → Adds "" i (if get_or index 0 == i then get_or input "" else "") (tool_delta index input)
unfolding chunk_of
tool_delta-Adds i index input =
    part-Adds i (tool_delta index input)
      (record { index = get_or index 0; id = none; name = none; arguments = get_or input "" })
      (if get_or index 0 == i then get_or input "" else "") refl refl

bare-Adds : (i : ℕ) (item : StreamItem) → chunk_of item ≡ some bare → Adds "" i "" item
bare-Adds i item = chunk-Adds i item bare

message_stop-Adds : (i : ℕ) (why : Option StopReason) → Adds "" i "" (message_stop why)
unfolding chunk_of
message_stop-Adds i none = bare-Adds i (message_stop none) refl
message_stop-Adds i (some why) =
    chunk-Adds i (message_stop (some why))
      (with_choice (record { content = none; tool_calls = []; finish = some (finish_reason why) }))
      refl

metadata-Adds : (i : ℕ) (usage : Option TokenUsage) → Adds "" i "" (metadata usage)
unfolding chunk_of
metadata-Adds i usage =
    chunk-Adds i (metadata usage) (record { choice = none; usage = convert_usage usage }) refl

-- The whole stream from its first item and the rest.
abbrev Joined :
    ℕ
    → String
    → String
    → Option CompletionErrorData
    → List Chunk × Option CompletionErrorData
    → Type 0
Joined i text arguments thrown out =
    joined_text out.0 ≡ text × joined_arguments i out.0 ≡ arguments × out.1 ≡ thrown

-- An item that adds nothing.
silent-Joined :
    {i : ℕ} {text part : String} {thrown : Option CompletionErrorData} (item : StreamItem)
    (out : List Chunk × Option CompletionErrorData)
    → Adds "" i "" item
    → Joined i text part thrown out
    → Joined i text part thrown (yield_some (chunk_of item) out)
silent-Joined {i} item out adds (same, parts, throws) = (
  adds.text out ∙ nil-append (joined_text out.0) ∙ same,
  adds.part out ∙ nil-append (joined_arguments i out.0) ∙ parts,
  adds.thrown out ∙ throws,
)

-- Of any items: the texts of the chunks that `convertStream` yields, joined, are the texts that the
-- API sends before its first failure, joined; the arguments of the chunks for the tool with any one
-- index, joined, are the inputs sent for it before that failure, where an index that is missing is 0;
-- and what it throws is the error of that failure, or nothing if there is none.
pub convert_stream-joined :
    (i : ℕ) (items : List StreamItem)
    → joined_text (convert_stream items).0 ≡ sent_text items
      × joined_arguments i (convert_stream items).0 ≡ sent_arguments i items
      × (convert_stream items).1 ≡ first_failure items
unfolding convert_stream chunk_of
convert_stream-joined i [] = (refl, refl, refl)
convert_stream-joined i (failure e ∷ items) = (refl, refl, refl)
convert_stream-joined i (text_delta s ∷ items) =
    let (t, a, f) = convert_stream-joined i items in
    let adds = text-Adds i s in
    let out = convert_stream items in
    (
      adds.text out ∙ ap (λ t. s ++ t) t,
      adds.part out ∙ nil-append (joined_arguments i out.0) ∙ a,
      adds.thrown out ∙ f,
    )
convert_stream-joined i (tool_delta index input ∷ items) =
    let (t, a, f) = convert_stream-joined i items in
    let adds = tool_delta-Adds i index input in
    let out = convert_stream items in
    (
      adds.text out ∙ nil-append (joined_text out.0) ∙ t,
      adds.part out ∙ ap (λ t. (if get_or index 0 == i then get_or input "" else "") ++ t) a,
      adds.thrown out ∙ f,
    )
convert_stream-joined i (tool_start index name id ∷ items) =
    silent-Joined (tool_start index name id) (convert_stream items)
      (tool_start-Adds i index name id) (convert_stream-joined i items)
convert_stream-joined i (message_stop why ∷ items) =
    silent-Joined (message_stop why) (convert_stream items) (message_stop-Adds i why)
      (convert_stream-joined i items)
convert_stream-joined i (metadata usage ∷ items) =
    silent-Joined (metadata usage) (convert_stream items) (metadata-Adds i usage)
      (convert_stream-joined i items)
convert_stream-joined i (message_start ∷ items) = convert_stream-joined i items
convert_stream-joined i (block_stop ∷ items) = convert_stream-joined i items
convert_stream-joined i (other_item ∷ items) =
    silent-Joined other_item (convert_stream items) (bare-Adds i other_item refl)
      (convert_stream-joined i items)
convert_stream-joined i (other_start ∷ items) =
    silent-Joined other_start (convert_stream items) (bare-Adds i other_start refl)
      (convert_stream-joined i items)
convert_stream-joined i (other_delta ∷ items) =
    silent-Joined other_delta (convert_stream items) (bare-Adds i other_delta refl)
      (convert_stream-joined i items)

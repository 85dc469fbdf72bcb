-- ===== src/Store/Transcript.antt =====
-- The transcript that operators read: `merge_transcript_with` of crates/hub/src/store/transcript_view.rs. A
-- text is the list of its code points. `serde_json` reads the content of a row.
pub mod Bodies
pub mod Compact
pub mod Filters
pub mod Items
pub mod Laws
use acp_hub.Base.{
  ℕ, suc, ◌+◌, ◌*◌, min, Bool, true, false, not, ◌&&◌, ◌||◌, List, [], ◌∷◌, ◌++◌, Option, none,
  some, String, if◌then◌else◌, ltb, leb, eqb, length, ◌==◌, string_eq, option_eq, is_some,
  saturating_add, list_eq, nat_eq,
}
use acp_hub.Flow.Json.{Bytes, Json, Fields, scalar, object, end, field}
use acp_hub.Store.Messages.{MessageRow, MessageSource, source_str}
use acp_hub.Store.Transcript.Bodies.{Text, clean_body, utf8_len, is_empty, newline}

pub record ViewMessage : Type 0 where
  pub seq : ℕ
  pub role : String
  pub kind : Option String
  pub body_text : Text
  pub source : String
  pub merged_count : ℕ

pub record TranscriptView : Type 0 where
  pub items : List ViewMessage
  pub truncated : Bool
  pub raw_count : ℕ
  pub view_count : ℕ

pub record MergeLimits : Type 0 where
  pub max_view_nodes : Option ℕ
  pub max_view_bytes : Option ℕ

abbrev pub max_view_nodes : ℕ
max_view_nodes = 200

abbrev pub max_view_bytes : ℕ
max_view_bytes = 256 * 1024

abbrev pub show_default : MergeLimits
show_default = record { max_view_nodes = some max_view_nodes; max_view_bytes = some max_view_bytes }

abbrev pub send_run : MergeLimits
send_run = record { max_view_nodes = none; max_view_bytes = none }

-- `is_some_and(|max| n >= max)`.
unfoldable pub reached : Option ℕ → ℕ → Bool
reached none n = false
reached (some bound) n = leb bound n

unfoldable pub exceeded : MergeLimits → ℕ → ℕ → Bool
unfolding reached
exceeded limits nodes bytes =
    reached limits.max_view_nodes nodes || reached limits.max_view_bytes bytes

unfoldable pub is_thought : Option String → Bool
is_thought kind = kind == some "thought"

unfoldable pub is_toolish : Option String → Bool
is_toolish kind = kind == some "tool_call" || kind == some "tool_call_update"

unfoldable pub is_mergeable_assistant_message : String → Option String → Bool
is_mergeable_assistant_message role kind =
    role == "assistant"
    && (kind == none
        || (kind == some ""
            || (kind == some "message"
                || (kind == some "agent_message_chunk" || kind == some "text"))))

abbrev pub short_chunk : ℕ
short_chunk = 512

-- Rows that were merged, and those after them.
pub record Group : Type 0 where
  pub body : Text
  pub last_kind : Option String
  pub merged : ℕ
  pub rest : List MessageRow

-- What the code takes from other crates: the characters of a text, and the JSON of a content, whose scalars
-- may be texts.
pub record Reading (S : Type 0) : Type 0 where
  pub chars : String → Text
  pub parse : String → Json S
  pub as_str : S → Option String

-- "toolCallId", "tool_call_id" and "toolCall".
abbrev pub tool_call_id_key : Bytes
tool_call_id_key = 116 ∷ 111 ∷ 111 ∷ 108 ∷ 67 ∷ 97 ∷ 108 ∷ 108 ∷ 73 ∷ 100 ∷ []

abbrev pub tool_call_id_snake_key : Bytes
tool_call_id_snake_key = 116 ∷ 111 ∷ 111 ∷ 108 ∷ 95 ∷ 99 ∷ 97 ∷ 108 ∷ 108 ∷ 95 ∷ 105 ∷ 100 ∷ []

abbrev pub tool_call_key : Bytes
tool_call_key = 116 ∷ 111 ∷ 111 ∷ 108 ∷ 67 ∷ 97 ∷ 108 ∷ 108 ∷ []

-- `Value::get`.
unfoldable pub lookup : {S : Type 0} → Bytes → Fields S → Option (Json S)
lookup key end = none
lookup key (field k v more) = let rest = lookup key more in if k == key then some v else rest

unfoldable pub member : {S : Type 0} → Bytes → Json S → Option (Json S)
unfolding lookup
member key (object fields) = lookup key fields
member key _ = none

abbrev pub or_else {ℓ} : {A : Type ℓ} → Option A → Option A → Option A
or_else none other = other
or_else (some a) other = some a

abbrev pub bind {ℓ κ} : {A : Type ℓ} {B : Type κ} → Option A → (A → Option B) → Option B
bind none f = none
bind (some a) f = f a

-- A body with one more piece, behind a separator where neither is empty.
unfoldable pub joined : Text → Text → Text → Text
joined separator body piece =
    if is_empty piece then body else if is_empty body then piece else body ++ (separator ++ piece)

module _ {S : Type 0} (x : Reading S) where
  -- `Value::as_str`.
  abbrev text_of : Json S → Option String
  text_of (scalar s) = x.as_str s
  text_of _ = none

  -- `tool_call_id`.
  unfoldable pub tool_call_id : Json S → Option String
  unfolding member
  tool_call_id content =
      or_else
        (bind (or_else (member tool_call_id_key content) (member tool_call_id_snake_key content))
          text_of)
        (bind (bind (member tool_call_key content) (member tool_call_id_key)) text_of)

  abbrev pub call_of : MessageRow → Option String
  call_of m = tool_call_id (x.parse m.content)

  abbrev pub body_of : MessageRow → Text
  body_of m = clean_body (x.chars m.body_text)

  -- The inner loop: the rows that go on a group.
  unfoldable pub absorb :
      (MessageRow → Bool) → Text → Text → Option String → ℕ → List MessageRow → Group
  unfolding joined
  absorb goes_on separator body kind merged [] = record {
    body = body;
    last_kind = kind;
    merged = merged;
    rest = [];
  }
  absorb goes_on separator body kind merged (m ∷ ms) =
      let more =
        absorb goes_on separator (joined separator body (body_of m)) m.kind (merged + 1) ms in
      if goes_on m
      then more
      else record { body = body; last_kind = kind; merged = merged; rest = m ∷ ms }

  abbrev pub thought_goes_on : MessageRow → Bool
  thought_goes_on m = is_thought m.kind

  -- `tid` is the tool call of the first row.
  unfoldable pub tool_goes_on : Option String → MessageRow → Bool
  unfolding is_toolish tool_call_id
  tool_goes_on tid m =
      is_toolish m.kind
      && (not (is_some tid && not (call_of m == tid))
          && not (not (is_some tid) && is_some (call_of m)))

  unfoldable pub chunk_goes_on : MessageRow → Bool
  unfolding is_mergeable_assistant_message
  chunk_goes_on m =
      is_mergeable_assistant_message m.role m.kind && not (ltb short_chunk (length (body_of m)))

  abbrev pub item : MessageRow → Option String → Group → ViewMessage
  item m kind g = record {
    seq = m.seq;
    role = m.role;
    kind = kind;
    body_text = g.body;
    source = source_str m.source;
    merged_count = g.merged;
  }

  abbrev or_message : Option String → Option String
  or_message none = some "message"
  or_message (some kind) = some kind

  abbrev alone : MessageRow → List MessageRow → Group
  alone m ms = record { body = body_of m; last_kind = m.kind; merged = 1; rest = ms }

  -- One round of the outer loop: an item, and the rows after it.
  unfoldable pub next_item : MessageRow → List MessageRow → ViewMessage × List MessageRow
  unfolding absorb is_thought is_toolish is_mergeable_assistant_message tool_goes_on chunk_goes_on
      source_str
  next_item m ms =
      if is_thought m.kind
      then (let g = absorb thought_goes_on newline (body_of m) m.kind 1 ms in
          (item m (some "thought") g, g.rest))
      else if is_toolish m.kind
      then (let g = absorb (tool_goes_on (call_of m)) newline (body_of m) m.kind 1 ms in
          (item m g.last_kind g, g.rest))
      else if is_mergeable_assistant_message m.role m.kind
      then (let g =
            if leb (length (body_of m)) short_chunk
            then absorb chunk_goes_on [] (body_of m) m.kind 1 ms
            else alone m ms in
          (item m (or_message g.last_kind) g, g.rest))
      else (item m m.kind (alone m ms), ms)

  -- The outer loop: the items, and whether rows are left.
  unfoldable pub merge_loop :
      ℕ → MergeLimits → List ViewMessage → ℕ → List MessageRow → List ViewMessage × List MessageRow
  unfolding exceeded next_item
  merge_loop fuel limits items bytes [] = (items, [])
  merge_loop ℕ.zero limits items bytes (m ∷ ms) = (items, m ∷ ms)
  merge_loop (suc fuel) limits items bytes (m ∷ ms) =
      let (view, rest) = next_item m ms in
      let more =
        merge_loop fuel limits (items ++ (view ∷ []))
          (saturating_add bytes (utf8_len view.body_text)) rest in
      if exceeded limits (length items) bytes then (items, m ∷ ms) else more

  -- `merge_transcript_with`.
  unfoldable pub merge_transcript_with : List MessageRow → MergeLimits → TranscriptView
  unfolding merge_loop
  merge_transcript_with rows limits =
      let (items, rest) = merge_loop (length rows) limits [] 0 rows in
      record {
        items = items;
        truncated = not (eqb (length rest) 0);
        raw_count = length rows;
        view_count = length items;
      }

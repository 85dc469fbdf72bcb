-- ===== src/Store/Messages.antt =====
-- The rows of `messages`: MessageSource and MessageRow of crates/hub/src/store.rs, `append_message` of
-- store/lifecycle.rs, and `messages` and `max_message_seq` of store/paging.rs. JSON is its text. Sequence
-- numbers start at 1, so they are natural numbers. The rows have the columns `message_key` and
-- `superseded_by_load_id` as well. The text index is left out.
pub mod Order
pub mod Append
use acp_hub.Base.{
  ℕ, suc, ◌+◌, max, Bool, true, false, ◌&&◌, ◌||◌, List, [], ◌∷◌, ◌++◌, Option, none, some, String,
  if◌then◌else◌, ltb, leb, ◌==◌, string_eq, Map, get, contains_key,
}

pub data MessageSource : Type 0 where
  local_turn load_replay agent_list : MessageSource

unfoldable pub source_str : MessageSource → String
source_str local_turn = "local_turn"
source_str load_replay = "load_replay"
source_str agent_list = "agent_list"

pub record MessageRow : Type 0 where
  pub id : String
  pub conv_id : String
  pub run_id : Option String
  pub source : MessageSource
  pub current_projection : Bool
  pub message_key : Option String
  pub superseded_by : Option String
  pub role : String
  pub kind : Option String
  pub content : String
  pub body_text : String
  pub seq : ℕ
  pub created_at : String

pub record NewMessage : Type 0 where
  pub id : String
  pub conv_id : String
  pub run_id : Option String
  pub source : MessageSource
  pub role : String
  pub kind : Option String
  pub content : String
  pub body_text : String

-- `WHERE`.
unfoldable pub where_rows {ℓ} : {A : Type ℓ} → (A → Bool) → List A → List A
where_rows test [] = []
where_rows test (m ∷ ms) = let rest = where_rows test ms in if test m then m ∷ rest else rest

-- `ORDER BY seq ASC`.
unfoldable pub insert_row : MessageRow → List MessageRow → List MessageRow
insert_row m [] = m ∷ []
insert_row m (n ∷ ns) = if leb m.seq n.seq then m ∷ n ∷ ns else n ∷ insert_row m ns

unfoldable pub order_by_seq : List MessageRow → List MessageRow
order_by_seq [] = []
order_by_seq (m ∷ ms) = insert_row m (order_by_seq ms)

-- `SELECT COUNT(*)`.
unfoldable pub count_of {ℓ} : {A : Type ℓ} → List A → ℕ
count_of [] = 0
count_of (a ∷ more) = suc (count_of more)

unfoldable pub in_conversation : String → Bool → MessageRow → Bool
in_conversation conv include_audit m = m.conv_id == conv && (include_audit || m.current_projection)

-- `Store::messages`.
unfoldable pub messages : String → Bool → List MessageRow → List MessageRow
unfolding where_rows order_by_seq in_conversation
messages conv include_audit table =
    order_by_seq (where_rows (in_conversation conv include_audit) table)

-- `COALESCE(MAX(seq), 0)` of a conversation, as `Store::max_message_seq` reads it.
unfoldable pub max_message_seq : String → List MessageRow → ℕ
max_message_seq conv [] = 0
max_message_seq conv (m ∷ ms) =
    let rest = max_message_seq conv ms in if m.conv_id == conv then max m.seq rest else rest

unfoldable pub has_message : String → List MessageRow → Bool
has_message id [] = false
has_message id (m ∷ ms) = m.id == id || has_message id ms

pub data Appended : Type 0 where
  appended : ℕ → Appended
  constraint_failed : Appended

-- A foreign key of `messages` that may be `NULL`.
unfoldable pub refers {ℓ} : {A : Type ℓ} → Option String → Map String A → Bool
refers none table = true
refers (some id) table = contains_key id table

-- The row of a new message.
abbrev pub new_row : NewMessage → ℕ → String → MessageRow
new_row m seq now = record {
  id = m.id;
  conv_id = m.conv_id;
  run_id = m.run_id;
  source = m.source;
  current_projection = true;
  message_key = none;
  superseded_by = none;
  role = m.role;
  kind = m.kind;
  content = m.content;
  body_text = m.body_text;
  seq = seq;
  created_at = now;
}

-- `Store::append_message`: the conversation and the run must exist, and the id be new.
unfoldable pub append_message {ℓ κ} :
    {C : Type ℓ} {R : Type κ}
    → Map String C
    → Map String R
    → NewMessage
    → String
    → List MessageRow
    → List MessageRow × Appended
unfolding max_message_seq has_message refers
append_message conversations runs m now table =
    if has_message m.id table
    then (table, constraint_failed)
    else if contains_key m.conv_id conversations && refers m.run_id runs
    then (
      table ++ (new_row m (max_message_seq m.conv_id table + 1) now ∷ []),
      appended (max_message_seq m.conv_id table + 1),
    )
    else (table, constraint_failed)

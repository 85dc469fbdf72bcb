-- ===== src/Store/Replay.antt =====
-- The publication of replayed conversations: crates/hub/src/store/replay.rs. A row of `conversations` and the rows
-- of the tables with one row for a conversation (its title in the text index, and its config, plan, commands and
-- usage snapshots) are one record. JSON is its text, `nonce` is the random generation, and a failed
-- transaction has no effect.
pub mod Commit
pub mod Rows
pub mod Stage
pub mod Recovery
pub mod Laws
pub mod Captured
pub mod Rollback
use acp_hub.Base.{
  ℕ, suc, ◌+◌, Bool, true, false, not, ◌&&◌, ◌||◌, List, [], ◌∷◌, Option, none, some, String,
  if◌then◌else◌, ltb, leb, eqb, ◌==◌, string_eq, option_eq, Map, get, insert, remove, contains_key,
  is_some,
}
use acp_hub.Store.Policy.{ConvOrigin, Interaction, ConvPhase, ConvBusy, LastOutcome}
use acp_hub.Store.Messages.{
  MessageSource, MessageRow, local_turn, load_replay, agent_list, where_rows, count_of,
  max_message_seq,
}

pub record ConfigSnapshot : Type 0 where
  pub config_options : String
  pub modes : Option String
  pub updated_at : String

pub record JsonSnapshot : Type 0 where
  pub json : String
  pub updated_at : String

pub record UsageSnapshot : Type 0 where
  pub used : ℕ
  pub size : ℕ
  pub cost : Option String
  pub updated_at : String

-- What `load_replay_projection_before_images` keeps of a conversation.
pub record Image : Type 0 where
  pub title : Option String
  pub updated_at : String
  pub session_meta : Option String
  pub status : String
  pub cwd : String
  pub additional_directories : String
  pub fts_title : Option String
  pub config : Option ConfigSnapshot
  pub plan : Option JsonSnapshot
  pub commands : Option JsonSnapshot
  pub usage : Option UsageSnapshot

-- A row of `conversations`, with the rows of its snapshots. The columns after the generation are not in the
-- before image.
pub record Conversation : Type 0 where
  pub image : Image
  pub projection_generation : ℕ
  pub agent_id : String
  pub agent_session_id : String
  pub created_at : String
  pub origin : ConvOrigin
  pub interaction : Interaction
  pub phase : ConvPhase
  pub busy : ConvBusy
  pub last_outcome : LastOutcome

-- A row of `load_replay_refreshes`, whose key is the conversation.
pub record RefreshRow : Type 0 where
  pub load_id : String
  pub starting_seq : ℕ
  pub generation_nonce : String

pub record ReplayRefresh : Type 0 where
  pub conv_id : String
  pub load_id : String
  pub starting_seq : ℕ
  pub generation_nonce : String

-- A row of `load_replay_projection_before_images`, whose key is the load.
pub record BeforeImage : Type 0 where
  pub conv_id : String
  pub conversation_was_present : Bool
  pub image : Image

pub record ReplayStore : Type 0 where
  pub conversations : Map String Conversation
  pub refreshes : Map String RefreshRow
  pub before_images : Map String BeforeImage
  pub messages : List MessageRow

pub data ReplayError : Type 0 where
  conflict : String → ReplayError
  conversation_not_found : String → ReplayError
  constraint_failed : ReplayError

pub data Result {ℓ} (A : Type ℓ) : Type ℓ where
  ok : A → Result A
  err : ReplayError → Result A

abbrev pub is_load_replay : MessageSource → Bool
is_load_replay local_turn = false
is_load_replay load_replay = true
is_load_replay agent_list = false

-- `WHERE conv_id = ? AND source = 'load_replay' AND seq > ?`.
unfoldable pub captured_after : String → ℕ → MessageRow → Bool
captured_after conv starting_seq m =
    m.conv_id == conv && (is_load_replay m.source && ltb starting_seq m.seq)

-- `UPDATE conversations SET .. WHERE id = ?`.
unfoldable pub update_conversation :
    String → (Conversation → Conversation) → Map String Conversation → Map String Conversation
unfolding insert get
update_conversation conv f conversations = elim (get conv conversations) [
  | none ↦ conversations
  | some c ↦ insert conv (f c) conversations
]

abbrev pub with_image : Image → Conversation → Conversation
with_image image c = record c { image = image }

abbrev pub next_generation : Conversation → Conversation
next_generation c = record c { projection_generation = c.projection_generation + 1 }

-- Whether a load, or a conversation, has a before image.
unfoldable pub images_conversation : String → Map String BeforeImage → Bool
images_conversation conv [] = false
images_conversation conv ((load, b) ∷ more) = b.conv_id == conv || images_conversation conv more

unfoldable pub has_load : String → Map String RefreshRow → Bool
has_load load [] = false
has_load load ((conv, r) ∷ more) = r.load_id == load || has_load load more

-- `ON DELETE CASCADE` of the before images.
unfoldable pub without_images_of : String → Map String BeforeImage → Map String BeforeImage
without_images_of conv [] = []
without_images_of conv ((load, b) ∷ more) =
    let rest = without_images_of conv more in if b.conv_id == conv then rest else (load, b) ∷ rest

-- `begin_load_replay_tx`.
unfoldable pub begin_load_replay_tx :
    String → String → Bool → String → ReplayStore → Result (ReplayRefresh × ReplayStore)
unfolding get insert has_load images_conversation max_message_seq
begin_load_replay_tx conv_id load_id was_present nonce s = elim (get conv_id s.conversations) [
  | none ↦ err (conversation_not_found conv_id)
  | some c ↦
      let starting_seq = max_message_seq conv_id s.messages in
      if (contains_key conv_id s.refreshes || has_load load_id s.refreshes)
        || (contains_key load_id s.before_images || images_conversation conv_id s.before_images)
      then err constraint_failed
      else ok (
        record {
          conv_id = conv_id;
          load_id = load_id;
          starting_seq = starting_seq;
          generation_nonce = nonce;
        },
        record {
          conversations = s.conversations;
          refreshes =
              insert conv_id
                (record {
                  load_id = load_id;
                  starting_seq = starting_seq;
                  generation_nonce = nonce;
                })
                s.refreshes;
          before_images =
              insert load_id
                (record {
                  conv_id = conv_id;
                  conversation_was_present = was_present;
                  image = c.image;
                })
                s.before_images;
          messages = s.messages;
        },
      )
]

-- `begin_load_replay`.
unfoldable pub begin_load_replay :
    String → String → String → ReplayStore → Result (ReplayRefresh × ReplayStore)
unfolding begin_load_replay_tx
begin_load_replay conv_id load_id nonce s = begin_load_replay_tx conv_id load_id true nonce s

-- `validate_load_replay_refresh`: exactly this marker is there.
unfoldable pub validate_load_replay_refresh : ReplayRefresh → ReplayStore → Bool
unfolding get
validate_load_replay_refresh refresh s = elim (get refresh.conv_id s.refreshes) [
  | none ↦ false
  | some r ↦
      r.load_id == refresh.load_id
      && (eqb r.starting_seq refresh.starting_seq && r.generation_nonce == refresh.generation_nonce)
]

-- `DELETE FROM conversations WHERE id = ?`, with what refers to it.
unfoldable pub delete_conversation : String → ReplayStore → ReplayStore
unfolding remove without_images_of where_rows
delete_conversation conv_id s = record {
  conversations = remove conv_id s.conversations;
  refreshes = remove conv_id s.refreshes;
  before_images = without_images_of conv_id s.before_images;
  messages = where_rows (λ (m : MessageRow). not (m.conv_id == conv_id)) s.messages;
}

abbrev pub with_conversations : Map String Conversation → ReplayStore → ReplayStore
with_conversations conversations s = record {
  conversations = conversations;
  refreshes = s.refreshes;
  before_images = s.before_images;
  messages = s.messages;
}

-- `restore_load_replay_projection`.
unfoldable pub restore_load_replay_projection : String → String → ReplayStore → ReplayStore
unfolding get delete_conversation update_conversation
restore_load_replay_projection conv_id load_id s = elim (get load_id s.before_images) [
  | none ↦ s
  | some b ↦
      if b.conv_id == conv_id
      then (if b.conversation_was_present
          then with_conversations (update_conversation conv_id (with_image b.image) s.conversations)
              s
          else delete_conversation conv_id s)
      else s
]

-- `DELETE FROM load_replay_refreshes WHERE conv_id = ? AND load_id = ?`, with its before image.
unfoldable pub delete_refresh : String → String → ReplayStore → ReplayStore
unfolding get remove
delete_refresh conv_id load_id s = elim (get conv_id s.refreshes) [
  | none ↦ s
  | some r ↦
      if r.load_id == load_id
      then record {
        conversations = s.conversations;
        refreshes = remove conv_id s.refreshes;
        before_images = remove load_id s.before_images;
        messages = s.messages;
      }
      else s
]

-- The replayed rows behind a number are deleted, and whether there were any.
unfoldable pub delete_captured : String → ℕ → ReplayStore → ReplayStore
unfolding captured_after where_rows
delete_captured conv_id starting_seq s = record {
  conversations = s.conversations;
  refreshes = s.refreshes;
  before_images = s.before_images;
  messages =
      where_rows (λ (m : MessageRow). not (captured_after conv_id starting_seq m)) s.messages;
}

unfoldable pub any_captured : String → ℕ → ReplayStore → Bool
unfolding captured_after where_rows count_of
any_captured conv_id starting_seq s =
    ltb 0 (count_of (where_rows (captured_after conv_id starting_seq) s.messages))

unfoldable pub advance_generation : Bool → String → ReplayStore → ReplayStore
unfolding update_conversation
advance_generation changed conv_id s =
    if changed
    then with_conversations (update_conversation conv_id next_generation s.conversations) s
    else s

-- `rollback_load_replay`.
unfoldable pub rollback_load_replay : ReplayRefresh → ReplayStore → Result ReplayStore
unfolding validate_load_replay_refresh delete_captured restore_load_replay_projection
    advance_generation any_captured delete_refresh
rollback_load_replay refresh s =
    if validate_load_replay_refresh refresh s
    then ok (
        delete_refresh refresh.conv_id refresh.load_id (
          advance_generation (any_captured refresh.conv_id refresh.starting_seq s) refresh.conv_id (
            restore_load_replay_projection refresh.conv_id refresh.load_id
              (delete_captured refresh.conv_id refresh.starting_seq s))))
    else err (conflict refresh.conv_id)

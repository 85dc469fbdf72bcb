-- ===== src/Store/Replay/Recovery.antt =====
-- The recovery of loads that a crash interrupted: `recover_interrupted_load_replays` of
-- crates/hub/src/store/replay.rs.
pub mod Laws
use acp_hub.Base.{
  ℕ, suc, ◌+◌, Bool, true, false, not, ◌&&◌, ◌||◌, List, [], ◌∷◌, Option, none, some, String,
  if◌then◌else◌, ltb, leb, eqb, ◌==◌, string_eq, option_eq, Map, get, contains_key, is_some,
}
use acp_hub.Store.Messages.{MessageRow}
use acp_hub.Store.Replay.{
  RefreshRow, BeforeImage, ReplayStore, is_load_replay, delete_captured, any_captured,
  restore_load_replay_projection, advance_generation,
}

-- The rows that a load superseded before its crash are current again.
unfoldable pub reinstate : String → String → ℕ → List MessageRow → List MessageRow
reinstate conv_id load_id starting_seq [] = []
reinstate conv_id load_id starting_seq (m ∷ ms) =
    (if (m.conv_id == conv_id && (is_load_replay m.source && not m.current_projection))
        && (leb m.seq starting_seq && m.superseded_by == some load_id)
      then record {
        id = m.id;
        conv_id = m.conv_id;
        run_id = m.run_id;
        source = m.source;
        current_projection = true;
        message_key = m.message_key;
        superseded_by = none;
        role = m.role;
        kind = m.kind;
        content = m.content;
        body_text = m.body_text;
        seq = m.seq;
        created_at = m.created_at;
      }
      else m)
    ∷ reinstate conv_id load_id starting_seq ms

unfoldable pub has_before_image : String → String → Map String BeforeImage → Bool
unfolding get
has_before_image conv_id load_id images = elim (get load_id images) [
  | none ↦ false
  | some b ↦ b.conv_id == conv_id
]

unfoldable pub reinstate_store : String → String → ℕ → ReplayStore → ReplayStore
unfolding reinstate
reinstate_store conv_id load_id starting_seq s = record {
  conversations = s.conversations;
  refreshes = s.refreshes;
  before_images = s.before_images;
  messages = reinstate conv_id load_id starting_seq s.messages;
}

-- One round of the loop.
unfoldable pub recover_one : String → RefreshRow → ReplayStore → ReplayStore
unfolding has_before_image delete_captured reinstate_store restore_load_replay_projection
    advance_generation any_captured
recover_one conv_id r s =
    let kept = delete_captured conv_id r.starting_seq s in
    let current =
      if has_before_image conv_id r.load_id s.before_images
      then kept
      else reinstate_store conv_id r.load_id r.starting_seq kept in
    advance_generation (any_captured conv_id r.starting_seq s) conv_id
      (restore_load_replay_projection conv_id r.load_id current)

unfoldable pub recover_all : Map String RefreshRow → ReplayStore → ReplayStore
unfolding recover_one
recover_all [] s = s
recover_all ((conv_id, r) ∷ more) s = recover_all more (recover_one conv_id r s)

-- `recover_interrupted_load_replays`: the before images go with their refreshes.
unfoldable pub recover_interrupted_load_replays : ReplayStore → ReplayStore
unfolding recover_all
recover_interrupted_load_replays s =
    let t = recover_all s.refreshes s in
    record {
      conversations = t.conversations;
      refreshes = [];
      before_images = [];
      messages = t.messages;
    }

-- ===== src/Store/Replay/Rollback.antt =====
-- A load that is rolled back leaves the conversation as it was when it began.
use acp_hub.Base.{
  ℕ, ◌+◌, ◌≡◌, refl, ap, sym, subst, ◌∙◌, Bool, true, false, not, ◌||◌, List, ◌++◌, none, some,
  String, if◌then◌else◌, arith, All, Bool-cases, inl, inr, ◌==◌, string_eq, ==_refl, ==_iff, get,
  insert, get-insert, contains_key,
}
use acp_hub.Store.Messages.{MessageRow, where_rows, max_message_seq}
use acp_hub.Store.Replay.{
  Conversation, RefreshRow, ReplayRefresh, BeforeImage, ReplayStore, ok, captured_after,
  update_conversation, with_image, next_generation, has_load, images_conversation,
  begin_load_replay_tx, begin_load_replay, validate_load_replay_refresh,
  restore_load_replay_projection, delete_refresh, delete_captured, any_captured, advance_generation,
  rollback_load_replay,
}
use acp_hub.Store.Replay.Laws.{get-delete_refresh, same-delete_refresh}
use acp_hub.Store.Replay.Rows.{get-update_conversation}
use acp_hub.Store.Replay.Captured.{
  of_conv, uncaptured, uncaptured-others, captured-All, some_rows, any_captured_lem,
}

-- A refresh that begins.
abbrev pub begun_refresh : String → String → String → ReplayStore → ReplayRefresh
begun_refresh conv load nonce s = record {
  conv_id = conv;
  load_id = load;
  starting_seq = max_message_seq conv s.messages;
  generation_nonce = nonce;
}

module _ (conv load nonce : String) (s : ReplayStore) (c : Conversation)
    (there : get conv s.conversations ≡ some c) where
  abbrev pub row : RefreshRow
  row = record {
    load_id = load;
    starting_seq = max_message_seq conv s.messages;
    generation_nonce = nonce;
  }

  abbrev pub before : BeforeImage
  before = record { conv_id = conv; conversation_was_present = true; image = c.image }

  begin_inv :
      (refresh : ReplayRefresh) (begun : ReplayStore)
      → begin_load_replay conv load nonce s ≡ ok (refresh, begun)
      → (begun_refresh conv load nonce s ≡ refresh)
        × (insert conv row s.refreshes ≡ begun.refreshes)
        × (insert load before s.before_images ≡ begun.before_images)
  unfolding begin_load_replay begin_load_replay_tx
  begin_inv refresh begun h =
      elim (Bool-cases (
        (contains_key conv s.refreshes || has_load load s.refreshes)
        || (contains_key load s.before_images || images_conversation conv s.before_images))) [
          | inl taken ↦ absurd (ground (arith, h, there, taken))
          | inr free ↦ (
            ground (arith, h, there, free),
            ground (arith, h, there, free),
            ground (arith, h, there, free),
          )
        ]

-- What the parts of a rollback leave.
restored_lem :
    (conv load : String) (s : ReplayStore) (b : BeforeImage)
    → get load s.before_images ≡ some b
    → (b.conv_id == conv) ≡ true
    → b.conversation_was_present ≡ true
    → ((restore_load_replay_projection conv load s).conversations
        ≡ update_conversation conv (with_image b.image) s.conversations)
      × ((restore_load_replay_projection conv load s).messages ≡ s.messages)
      × ((restore_load_replay_projection conv load s).refreshes ≡ s.refreshes)
unfolding restore_load_replay_projection
restored_lem conv load s b e f g =
    (ground (arith, e, f, g), ground (arith, e, f, g), ground (arith, e, f, g))

advance_lem :
    (changed : Bool) (conv : String) (s : ReplayStore)
    → ((advance_generation changed conv s).messages ≡ s.messages)
      × ((advance_generation changed conv s).refreshes ≡ s.refreshes)
unfolding advance_generation
advance_lem true conv s = (refl, refl)
advance_lem false conv s = (refl, refl)

abbrev pub advanced : Bool → ℕ → ℕ
advanced true generation = generation + 1
advanced false generation = generation

get-advance :
    (changed : Bool) (conv other : String) (s : ReplayStore) (d : Conversation)
    → get conv s.conversations ≡ some d
    → get other (advance_generation changed conv s).conversations ≡ (
        if conv == other
        then some (record d { projection_generation = advanced changed d.projection_generation })
        else get other s.conversations)
unfolding advance_generation
get-advance true conv other s d h =
    get-update_conversation conv other next_generation d s.conversations h
get-advance false conv other s d h = elim (Bool-cases (conv == other)) [
  | inr differs ↦ rw differs refl
  | inl same ↦
      let e = (==_iff conv other).0 same in
      rw same (subst (λ k. get k s.conversations ≡ some d) e h)
]

module _ (conv load nonce : String) (s : ReplayStore) (c : Conversation)
    (there : get conv s.conversations ≡ some c) where
  -- The conversation after the rollback: the before image, and the other columns as they are.
  abbrev pub rolled_back : List MessageRow → Conversation → Conversation
  rolled_back added d = record d {
    image = c.image;
    projection_generation = advanced (some_rows added) d.projection_generation;
  }

  module _ (t : ReplayStore) (added : List MessageRow) (d : Conversation)
      (refreshes : get conv t.refreshes
        ≡ get conv (insert conv (row conv load nonce s c there) s.refreshes))
      (images : get load t.before_images
        ≡ get load (insert load (before conv load nonce s c there) s.before_images))
      (table : where_rows (of_conv conv) t.messages ≡ where_rows (of_conv conv) s.messages ++ added)
      (captured : All (λ m. captured_after conv (max_message_seq conv s.messages) m ≡ true) added)
      (loaded : get conv t.conversations ≡ some d) where
    abbrev kept : ReplayStore
    kept = delete_captured conv (max_message_seq conv s.messages) t

    abbrev restored : ReplayStore
    restored = restore_load_replay_projection conv load kept

    abbrev last : ReplayStore
    last = advance_generation (any_captured conv (max_message_seq conv s.messages) t) conv restored

    kept_lem :
        (kept.conversations ≡ t.conversations)
        × (kept.refreshes ≡ t.refreshes)
        × (kept.before_images ≡ t.before_images)
        × (kept.messages
            ≡ where_rows (uncaptured conv (max_message_seq conv s.messages)) t.messages)
    unfolding delete_captured
    kept_lem = (refl, refl, refl, refl)

    image_there : get load kept.before_images ≡ some (before conv load nonce s c there)
    image_there =
        let own = ==_refl load in
        let a = get-insert load load (before conv load nonce s c there) s.before_images in
        ap (get load) kept_lem.2 ∙ images ∙ ground (arith, own, a)

    marker_there : get conv t.refreshes ≡ some (row conv load nonce s c there)
    marker_there =
        let own = ==_refl conv in
        let a = get-insert conv conv (row conv load nonce s c there) s.refreshes in
        refreshes ∙ ground (arith, own, a)

    restored_parts :
        (restored.conversations ≡ update_conversation conv (with_image c.image) t.conversations)
        × (restored.messages
            ≡ where_rows (uncaptured conv (max_message_seq conv s.messages)) t.messages)
        × (restored.refreshes ≡ t.refreshes)
    restored_parts =
        let parts =
          restored_lem conv load kept (before conv load nonce s c there) image_there (==_refl conv)
            refl in
        (
          parts.0 ∙ ap (update_conversation conv (with_image c.image)) kept_lem.0,
          parts.1 ∙ kept_lem.3,
          parts.2 ∙ kept_lem.1,
        )

    valid : validate_load_replay_refresh (begun_refresh conv load nonce s) t ≡ true
    unfolding validate_load_replay_refresh
    valid = let a = ==_refl load in let b = ==_refl nonce in ground (arith, marker_there, a, b)

    get-restored :
        (other : String)
        → get other restored.conversations
          ≡ (if conv == other then some (with_image c.image d) else get other t.conversations)
    get-restored other =
        ap (get other) restored_parts.0
        ∙ get-update_conversation conv other (with_image c.image) d t.conversations loaded

    abbrev with_count : Bool → Conversation
    with_count changed = record d {
      image = c.image;
      projection_generation = advanced changed d.projection_generation;
    }

    get-last :
        (other : String)
        → get other last.conversations
          ≡ (if conv == other then some (rolled_back added d) else get other t.conversations)
    get-last other =
        let changed = any_captured_lem conv s.messages added t captured table in
        let own = ==_refl conv in
        let here = get-restored conv in
        let there' = get-restored other in
        let next =
          get-advance (any_captured conv (max_message_seq conv s.messages) t) conv other restored
            (with_image c.image d) (ground (arith, here, own)) in
        elim (Bool-cases (conv == other)) [
          | inl same ↦ rw same (ground (arith, next, same) ∙ ap (λ b. some (with_count b)) changed)
          | inr differs ↦ rw differs (ground (arith, next, there', differs))
        ]

    rollback_parts :
        (out : ReplayStore) × (rollback_load_replay (begun_refresh conv load nonce s) t ≡ ok out)
        × (out.messages ≡ where_rows (uncaptured conv (max_message_seq conv s.messages)) t.messages)
        × (get conv out.refreshes ≡ none)
        × ((other : String)
            → get other out.conversations
              ≡ (if conv == other then some (rolled_back added d) else get other t.conversations))
    unfolding rollback_load_replay
    rollback_parts =
        let out = delete_refresh conv load last in
        let same = same-delete_refresh conv load last in
        let later =
          advance_lem (any_captured conv (max_message_seq conv s.messages) t) conv restored in
        (
          out,
          ground (arith, valid),
          same.1 ∙ later.0 ∙ restored_parts.1,
          get-delete_refresh conv load last (row conv load nonce s c there)
              (ap (get conv) (later.1 ∙ restored_parts.2) ∙ marker_there) (==_refl load),
          λ other. ap (get other) same.0 ∙ get-last other,
        )

-- A load of a conversation that is there is rolled back, with its own marker and before image as when it began;
-- other loads may have begun or ended. Whatever was written to the conversation, and whichever replayed rows of
-- it were captured behind the start: its messages are again as they were when it began, and so are the columns
-- and snapshots of its before image. Its other columns (origin, interaction, phase, busy, last outcome) stay as
-- they are at the rollback. The generation moves exactly if rows were captured, the refresh is gone, and the
-- other conversations and their messages stay as they are.
pub rollback-begin :
    (conv load nonce : String) (s begun t : ReplayStore) (c d : Conversation)
    (refresh : ReplayRefresh) (added : List MessageRow)
    → (there : get conv s.conversations ≡ some c)
    → begin_load_replay conv load nonce s ≡ ok (refresh, begun)
    → get conv t.refreshes ≡ get conv begun.refreshes
    → get load t.before_images ≡ get load begun.before_images
    → where_rows (of_conv conv) t.messages ≡ where_rows (of_conv conv) s.messages ++ added
    → All (λ m. captured_after conv (max_message_seq conv s.messages) m ≡ true) added
    → get conv t.conversations ≡ some d
    → (out : ReplayStore) × (rollback_load_replay refresh t ≡ ok out)
      × (where_rows (of_conv conv) out.messages ≡ where_rows (of_conv conv) s.messages)
      × (where_rows (λ m. not (of_conv conv m)) out.messages
          ≡ where_rows (λ m. not (of_conv conv m)) t.messages)
      × (get conv out.refreshes ≡ none)
      × ((other : String)
          → get other out.conversations ≡ (
              if conv == other
              then some (rolled_back conv load nonce s c there added d)
              else get other t.conversations))
rollback-begin conv load nonce s begun t c d refresh added there begins refreshes images table
      captured loaded =
    let (same, marked, imaged) = begin_inv conv load nonce s c there refresh begun begins in
    let (out, e, kept, gone, others) =
      rollback_parts conv load nonce s c there t added d (refreshes ∙ ap (get conv) (sym marked))
        (images ∙ ap (get load) (sym imaged)) table captured loaded in
    (
      out,
      ap (λ r. rollback_load_replay r t) (sym same) ∙ e,
      ap (where_rows (of_conv conv)) kept
          ∙ captured-All conv s.messages t.messages added table captured,
      ap (where_rows (λ m. not (of_conv conv m))) kept
          ∙ uncaptured-others conv (max_message_seq conv s.messages) t.messages,
      gone,
      others,
    )

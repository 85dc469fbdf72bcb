-- ===== src/Store/Replay/Stage/Laws.antt =====
-- What a staged replay shows.
use acp_hub.Base.{
  ℕ, ◌≤◌, ◌⊎◌, ◌==◌, subst, none, ◌+◌, ◌≡◌, refl, ap, ap₂, sym, ◌∙◌, true, false, not, ◌&&◌, ◌||◌,
  List, [], ◌∷◌, ◌++◌, String, arith, All, All-map, Bool-cases, inl, inr, string_eq, ==_refl,
  contains_key, append-nil,
}
use acp_hub.Store.Messages.{MessageRow, where_rows, max_message_seq}
use acp_hub.Store.Messages.Append.{where_rows-append, max_message_seq-All}
use acp_hub.Store.Replay.{ReplayStore, ok, is_load_replay}
use acp_hub.Store.Replay.Commit.{current_replay, supersede}
use acp_hub.Store.Replay.Rows.{where-All, where-none}
use acp_hub.Store.Replay.Stage.{
  ReplayedMessage, replayed_row, replayed_rows, repeats_id, no_messages, stage_load_replay,
}

supersede-none :
    (conv load : String) (ms : List MessageRow)
    → where_rows (current_replay conv) (supersede (current_replay conv) load ms) ≡ []
unfolding supersede where_rows current_replay
supersede-none conv load [] = refl
supersede-none conv load (m ∷ ms) = let ih = supersede-none conv load ms in ground (arith, ih)

supersede-captured :
    (conv load : String) (ms : List MessageRow)
    → where_rows (λ m. not (is_load_replay m.source)) (supersede (current_replay conv) load ms)
      ≡ where_rows (λ m. not (is_load_replay m.source)) ms
unfolding supersede where_rows current_replay
supersede-captured conv load [] = refl
supersede-captured conv load (m ∷ ms) =
    let ih = supersede-captured conv load ms in ground (arith, ih)

replayed-All :
    (conv now : String) (seq : ℕ) (ms : List ReplayedMessage)
    → All
        (λ m. (current_replay conv m ≡ true) × (not (is_load_replay m.source) ≡ false))
        (replayed_rows conv now seq ms)
unfolding replayed_rows current_replay
replayed-All conv now seq [] = tt
replayed-All conv now seq (m ∷ ms) =
    let own = ==_refl conv in ((ground (arith, own), refl), replayed-All conv now (seq + 1) ms)

stage_inv :
    (conv load now : String) (ms : List ReplayedMessage) (s t : ReplayStore)
    → stage_load_replay conv load ms now s ≡ ok t
    → supersede (current_replay conv) load s.messages
        ++ replayed_rows conv now (max_message_seq conv s.messages) ms
      ≡ t.messages
unfolding stage_load_replay
stage_inv conv load now ms s t h =
    elim (Bool-cases
      (no_messages ms || (contains_key conv s.conversations && not (repeats_id ms s.messages)))) [
        | inl done ↦ ground (arith, h, done)
        | inr wrong ↦ absurd (ground (arith, h, wrong))
      ]

-- The rows are those of the messages in order, current, numbered one by one from behind `seq`, with the columns
-- of the messages.
abbrev pub Replays : String → String → ℕ → List ReplayedMessage → List MessageRow → Type 0
Replays conv now seq [] rows = rows ≡ []
Replays conv now seq (m ∷ ms) rows =
    (r : MessageRow) × (more : List MessageRow) × (rows ≡ r ∷ more)
    × (r.seq ≡ seq + 1)
    × (r.conv_id ≡ conv)
    × (r.id ≡ m.id)
    × (r.message_key ≡ m.message_key)
    × (r.role ≡ m.role)
    × (r.kind ≡ m.kind)
    × (r.content ≡ m.content)
    × (r.body_text ≡ m.body_text)
    × (r.run_id ≡ none)
    × (r.current_projection ≡ true)
    × (r.created_at ≡ now)
    × Replays conv now (seq + 1) ms more

replayed-Replays :
    (conv now : String) (seq : ℕ) (ms : List ReplayedMessage)
    → Replays conv now seq ms (replayed_rows conv now seq ms)
unfolding replayed_rows
replayed-Replays conv now seq [] = refl
replayed-Replays conv now seq (m ∷ ms) = (
  replayed_row conv now (seq + 1) m,
  replayed_rows conv now (seq + 1) ms,
  refl,
  refl,
  refl,
  refl,
  refl,
  refl,
  refl,
  refl,
  refl,
  refl,
  refl,
  refl,
  replayed-Replays conv now (seq + 1) ms,
)

-- The number is one that no row of the conversation exceeds.
abbrev pub Tops : String → ℕ → List MessageRow → Type 0
Tops conv seq ms = All (λ (m : MessageRow). ((m.conv_id == conv) ≡ false) ⊎ (m.seq ≤ seq)) ms

max_message_seq-Tops :
    (conv : String) (ms : List MessageRow) → Tops conv (max_message_seq conv ms) ms
max_message_seq-Tops conv ms =
    All-map
      (λ (m : MessageRow) le. elim (Bool-cases (m.conv_id == conv)) [
        | inl own ↦ inr (le own)
        | inr other ↦ inl other
      ])
      ms (max_message_seq-All conv ms)

-- After a replay was staged, the current replayed messages of the conversation are exactly those given, in
-- order, numbered one by one from behind a number that no row of the conversation had exceeded. Rows that
-- were not replayed stay as they were.
pub stage_load_replay-current :
    (conv load now : String) (ms : List ReplayedMessage) (s t : ReplayStore)
    → stage_load_replay conv load ms now s ≡ ok t
    → Replays conv now
        (max_message_seq conv s.messages)
        ms
        (where_rows (current_replay conv) t.messages)
      × Tops conv (max_message_seq conv s.messages) s.messages
      × (where_rows (λ m. not (is_load_replay m.source)) t.messages
          ≡ where_rows (λ m. not (is_load_replay m.source)) s.messages)
stage_load_replay-current conv load now ms s t h =
    let e = sym (stage_inv conv load now ms s t h) in
    let seq = max_message_seq conv s.messages in
    let old = supersede (current_replay conv) load s.messages in
    let new = replayed_rows conv now seq ms in
    let all_new = replayed-All conv now seq ms in
    let shown : where_rows (current_replay conv) t.messages ≡ new =
      ap (where_rows (current_replay conv)) e
      ∙ where_rows-append (current_replay conv) old new
      ∙ ap₂ (λ xs ys. xs ++ ys) (supersede-none conv load s.messages)
          (where-All (current_replay conv) new (All-map (λ m h. h.0) new all_new)) in
    (
      subst (Replays conv now seq ms) (sym shown) (replayed-Replays conv now seq ms),
      max_message_seq-Tops conv s.messages,
      ap (where_rows (λ m. not (is_load_replay m.source))) e
          ∙ where_rows-append (λ m. not (is_load_replay m.source)) old new
          ∙ ap₂ (λ xs ys. xs ++ ys) (supersede-captured conv load s.messages)
              (where-none (λ m. not (is_load_replay m.source)) new
                (All-map (λ m h. h.1) new all_new))
          ∙ append-nil (where_rows (λ m. not (is_load_replay m.source)) s.messages),
    )

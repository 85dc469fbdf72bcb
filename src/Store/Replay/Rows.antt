-- ===== src/Store/Replay/Rows.antt =====
-- The messages and tables around a replay.
use acp_hub.Base.{
  ℕ, ◌≤◌, ◌≡◌, refl, Bool, true, false, not, ◌&&◌, List, [], ◌∷◌, some, String, if◌then◌else◌,
  arith, All, All-map, Bool-cases, inl, inr, ◌==◌, string_eq, Map, get, get-insert,
}
use acp_hub.Store.Messages.{MessageRow, where_rows, max_message_seq, in_conversation}
use acp_hub.Store.Messages.Append.{max_message_seq-All}
use acp_hub.Store.Replay.{Conversation, captured_after, update_conversation}
use acp_hub.Store.Replay.Commit.{supersede}

-- What a predicate keeps of rows, all of which it holds for, or none.
pub where-All :
    (test : MessageRow → Bool) (ms : List MessageRow)
    → All (λ m. test m ≡ true) ms
    → where_rows test ms ≡ ms
unfolding where_rows
where-All test [] h = refl
where-All test (m ∷ ms) h = let a = h.0 in let ih = where-All test ms h.1 in ground (arith, a, ih)

pub where-none :
    (test : MessageRow → Bool) (ms : List MessageRow)
    → All (λ m. test m ≡ false) ms
    → where_rows test ms ≡ []
unfolding where_rows
where-none test [] h = refl
where-none test (m ∷ ms) h = let a = h.0 in let ih = where-none test ms h.1 in ground (arith, a, ih)

not_captured_row :
    (conv : String) (bound : ℕ) (m : MessageRow)
    → ((m.conv_id == conv) ≡ true → m.seq ≤ bound)
    → captured_after conv bound m ≡ false
unfolding captured_after
not_captured_row conv bound m le = elim (Bool-cases (m.conv_id == conv)) [
  | inl own ↦ let h = le own in ground (arith, own, h)
  | inr other ↦ ground (arith, other)
]

-- No row of a table is behind its largest number.
pub not_captured :
    (conv : String) (table : List MessageRow)
    → All (λ m. captured_after conv (max_message_seq conv table) m ≡ false) table
unfolding captured_after
not_captured conv table =
    let each : (m : MessageRow)
        → ((m.conv_id == conv) ≡ true → m.seq ≤ max_message_seq conv table)
        → captured_after conv (max_message_seq conv table) m ≡ false =
      λ m le. not_captured_row conv (max_message_seq conv table) m le in
    All-map each table (max_message_seq-All conv table)

-- What is current after rows were superseded.
pub where-supersede :
    (conv : String) (test : MessageRow → Bool) (load_id : String) (ms : List MessageRow)
    → where_rows (in_conversation conv false) (supersede test load_id ms)
      ≡ where_rows (λ m. in_conversation conv false m && not (test m)) ms
unfolding where_rows supersede in_conversation
where-supersede conv test load_id [] = refl
where-supersede conv test load_id (m ∷ ms) =
    let ih = where-supersede conv test load_id ms in ground (arith, ih)

-- An update of a conversation.
pub get-update_conversation :
    (conv other : String) (f : Conversation → Conversation) (c : Conversation)
    (conversations : Map String Conversation)
    → get conv conversations ≡ some c
    → get other (update_conversation conv f conversations)
      ≡ (if conv == other then some (f c) else get other conversations)
unfolding update_conversation
get-update_conversation conv other f c conversations h =
    let a = get-insert conv other (f c) conversations in ground (arith, h, a)

-- ===== src/Store/Replay/Captured.antt =====
-- The rows that a load captured, among the messages.
use acp_hub.Base.{
  ℕ, ◌≡◌, refl, ap, ap₂, ◌∙◌, Bool, true, false, not, List, [], ◌∷◌, ◌++◌, String, ltb, arith, All,
  All-map, ◌==◌, string_eq, append-nil,
}
use acp_hub.Store.Messages.{MessageRow, where_rows, count_of, max_message_seq}
use acp_hub.Store.Messages.Order.{where_rows-All}
use acp_hub.Store.Messages.Append.{where_rows-append}
use acp_hub.Store.Replay.{ReplayStore, captured_after, any_captured}
use acp_hub.Store.Replay.Rows.{where-All, where-none, not_captured}

-- The rows of a conversation.
abbrev pub of_conv : String → MessageRow → Bool
of_conv conv m = m.conv_id == conv

captured-of_conv :
    (conv : String) (bound : ℕ) (m : MessageRow)
    → captured_after conv bound m ≡ true
    → of_conv conv m ≡ true
unfolding captured_after
captured-of_conv conv bound m h = ground (arith, h)

module _ (conv : String) (bound : ℕ) where
  abbrev pub uncaptured : MessageRow → Bool
  uncaptured m = not (captured_after conv bound m)

  -- Only rows of the conversation are captured.
  captured-where :
      (ms : List MessageRow)
      → where_rows (captured_after conv bound) ms
        ≡ where_rows (captured_after conv bound) (where_rows (of_conv conv) ms)
  unfolding where_rows
  captured-where [] = refl
  captured-where (m ∷ ms) =
      let ih = captured-where ms in
      let own = captured-of_conv conv bound m in ground (arith, ih, own)

  uncaptured-where :
      (ms : List MessageRow)
      → where_rows (of_conv conv) (where_rows uncaptured ms)
        ≡ where_rows uncaptured (where_rows (of_conv conv) ms)
  unfolding where_rows
  uncaptured-where [] = refl
  uncaptured-where (m ∷ ms) = let ih = uncaptured-where ms in ground (arith, ih)

  pub uncaptured-others :
      (ms : List MessageRow)
      → where_rows (λ m. not (of_conv conv m)) (where_rows uncaptured ms)
        ≡ where_rows (λ m. not (of_conv conv m)) ms
  unfolding where_rows
  uncaptured-others [] = refl
  uncaptured-others (m ∷ ms) =
      let ih = uncaptured-others ms in
      let own = captured-of_conv conv bound m in ground (arith, ih, own)

-- No row of the conversation is behind the largest number.
own_uncaptured :
    (conv : String) (table : List MessageRow)
    → All
        (λ m. captured_after conv (max_message_seq conv table) m ≡ false)
        (where_rows (of_conv conv) table)
own_uncaptured conv table =
    where_rows-All (λ m. captured_after conv (max_message_seq conv table) m ≡ false) (of_conv conv)
      table (not_captured conv table)

-- The rows behind the start are exactly the new ones.
pub captured-All :
    (conv : String) (table now added : List MessageRow)
    → where_rows (of_conv conv) now ≡ where_rows (of_conv conv) table ++ added
    → All (λ m. captured_after conv (max_message_seq conv table) m ≡ true) added
    → where_rows (of_conv conv) (where_rows (uncaptured conv (max_message_seq conv table)) now)
      ≡ where_rows (of_conv conv) table
captured-All conv table now added e h =
    let own = where_rows (of_conv conv) table in
    let test = uncaptured conv (max_message_seq conv table) in
    uncaptured-where conv (max_message_seq conv table) now
    ∙ ap (where_rows test) e
    ∙ where_rows-append test own added
    ∙ ap₂ (λ xs ys. xs ++ ys)
        (where-All test own (All-map (λ m e. ap not e) own (own_uncaptured conv table)))
        (where-none test added (All-map (λ m e. ap not e) added h))
    ∙ append-nil own

-- Whether rows were captured.
abbrev pub some_rows : List MessageRow → Bool
some_rows [] = false
some_rows (m ∷ ms) = true

some_rows-count : (ms : List MessageRow) → ltb 0 (count_of ms) ≡ some_rows ms
unfolding count_of
some_rows-count [] = refl
some_rows-count (m ∷ ms) = ground arith

pub any_captured_lem :
    (conv : String) (table added : List MessageRow) (t : ReplayStore)
    → All (λ m. captured_after conv (max_message_seq conv table) m ≡ true) added
    → where_rows (of_conv conv) t.messages ≡ where_rows (of_conv conv) table ++ added
    → any_captured conv (max_message_seq conv table) t ≡ some_rows added
unfolding any_captured
any_captured_lem conv table added t h e =
    let test = captured_after conv (max_message_seq conv table) in
    let kept : where_rows test t.messages ≡ added =
      captured-where conv (max_message_seq conv table) t.messages
      ∙ ap (where_rows test) e
      ∙ where_rows-append test (where_rows (of_conv conv) table) added
      ∙ ap₂ (λ xs ys. xs ++ ys)
          (where-none test (where_rows (of_conv conv) table) (own_uncaptured conv table))
          (where-All test added h) in
    ap (λ ms. ltb 0 (count_of ms)) kept ∙ some_rows-count added

-- ===== src/Store/Transcript/Bodies/Laws.antt =====
-- The words of a cleaned line.
use acp_hub.Base.{◌≡◌, false, List, [], ◌∷◌, All, ◌⊎◌, list_eq, nat_eq, length}
use acp_hub.Store.Transcript.Bodies.{
  Text, is_mark, lowercase, text_word, type_word, is_empty, is_whitespace, trim_matches,
  drop_prefixes,
}

-- No space in a text.
abbrev Solid : Text → Type 0
Solid w = All (λ c. is_whitespace c ≡ false) w

abbrev Word : Text → Type 0
Word w = (is_empty w ≡ false) × Solid w

-- A line without its prefixes.
abbrev pub stripped : Text → Text
stripped line = let s = trim_matches is_whitespace line in drop_prefixes (length s) s

-- A token that is left out: "text" or "type" in any case, between marks.
unfoldable pub IsToken : Text → Type 0
IsToken w =
    (lowercase (trim_matches is_mark w) ≡ text_word)
    ⊎ (lowercase (trim_matches is_mark w) ≡ type_word)

-- The words without the tokens among them: what is kept, in order.
abbrev pub Without : List Text → List Text → Type 0
Without [] kept = kept ≡ []
Without (w ∷ ws) kept =
    (IsToken w × Without ws kept)
    ⊎ ((¬ IsToken w) × ((more : List Text) × (kept ≡ w ∷ more) × Without ws more))

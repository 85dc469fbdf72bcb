-- ===== src/Store/Transcript/Compact.antt =====
-- The compact bodies of a transcript for people: `compact_human_body`, `human_tool_title_from_body`,
-- `looks_like_id` and `single_line` of crates/hub/src/store/transcript_view.rs. A text is the list of its code
-- points, so that a position in it is not one in bytes; the lowercase text has the same positions.
use acp_hub.Base.{
  ℕ, suc, ◌+◌, min, Bool, true, false, not, ◌&&◌, ◌||◌, List, [], ◌∷◌, Option, none, some, String,
  if◌then◌else◌, ltb, leb, eqb, length, ◌==◌, list_eq, nat_eq, string_eq, is_some,
}
use acp_hub.Flow.Identity.{codes}
use acp_hub.Store.Transcript.{is_thought, is_toolish}
use acp_hub.Store.Transcript.Bodies.{
  Text, is_empty, is_whitespace, lowercase, utf8_len, trim_start, trim_end, trim_matches,
  split_whitespace, split_loop, join, clean_body, take_chars, truncate_chars,
}

-- `starts_with`, `find` and `contains` of `str`.
unfoldable pub starts_with : Text → Text → Bool
starts_with [] text = true
starts_with (p ∷ ps) [] = false
starts_with (p ∷ ps) (c ∷ cs) = let rest = starts_with ps cs in eqb p c && rest

abbrev next_position : Option ℕ → Option ℕ
next_position none = none
next_position (some n) = some (suc n)

unfoldable pub find : Text → Text → Option ℕ
unfolding starts_with
find pattern [] = if is_empty pattern then some 0 else none
find pattern (c ∷ cs) =
    let rest = find pattern cs in
    if starts_with pattern (c ∷ cs) then some 0 else next_position rest

unfoldable pub contains : Text → Text → Bool
unfolding find
contains pattern text = is_some (find pattern text)

unfoldable pub drop_chars : ℕ → Text → Text
drop_chars ℕ.zero cs = cs
drop_chars (suc n) [] = []
drop_chars (suc n) (c ∷ cs) = drop_chars n cs

-- Line ends become spaces.
unfoldable pub spaced : Text → Text
spaced [] = []
spaced (c ∷ cs) = (if eqb c 10 || eqb c 13 then 32 else c) ∷ spaced cs

unfoldable pub single_line : Text → Text
unfolding spaced split_loop join
single_line s = join (32 ∷ []) (split_whitespace (spaced s))

abbrev pub within : ℕ → ℕ → ℕ → Bool
within low high c = leb low c && leb c high

abbrev is_ascii_digit : ℕ → Bool
is_ascii_digit c = within 48 57 c

abbrev is_ascii_alphanumeric : ℕ → Bool
is_ascii_alphanumeric c = is_ascii_digit c || (within 65 90 c || within 97 122 c)

-- The number of characters that a test holds for.
unfoldable pub count_chars : (ℕ → Bool) → Text → ℕ
count_chars test [] = 0
count_chars test (c ∷ cs) = let rest = count_chars test cs in if test c then suc rest else rest

unfoldable pub looks_like_id : Text → Bool
unfolding count_chars contains
looks_like_id w =
    (leb 16 (count_chars is_ascii_alphanumeric w) && ltb 0 (count_chars is_ascii_digit w))
    || (contains (b'-' ∷ []) w && leb 20 (utf8_len w))

abbrev least : Option ℕ → Option ℕ → Option ℕ
least none other = other
least (some n) none = some n
least (some n) (some k) = some (min n k)

-- Where the first of the markers is, or the end.
abbrev title_end : Text → ℕ
title_end rest =
    let at = λ (marker : Text). find marker (lowercase rest) in
    elim (least (at (codes " kind ")) (
      least (at (codes " raw")) (
        least (at (codes " status "))
          (least (at (codes " toolcallid ")) (at (codes " rawinput")))))) [
            | none ↦ length rest
            | some n ↦ n
          ]

-- The title that follows the word "title", empty if there is none.
unfoldable pub title_of : Text → Text
unfolding find take_chars drop_chars trim_start trim_end lowercase
title_of line = elim (find (codes "title ") (lowercase line)) [
  | none ↦ []
  | some pos ↦
      let rest = drop_chars (pos + 6) line in
      trim_matches is_whitespace (take_chars (title_end rest) rest)
]

-- A word that is kept in a title.
unfoldable pub keeps_title_word : Text → Bool
unfolding contains starts_with looks_like_id lowercase
keeps_title_word w =
    let l = lowercase w in
    not (contains (codes "toolcallid") l)
    && (not (starts_with (codes "fc_") l)
        && (not (looks_like_id w)
            && not (
                l == codes "kind"
                || (l == codes "status"
                    || (l == codes "in_progress"
                        || (l == codes "completed"
                            || (l == codes "rawinput" || l == codes "title")))))))

-- The first words that are kept, at most this many.
unfoldable pub title_words : ℕ → List Text → List Text
unfolding keeps_title_word
title_words ℕ.zero ws = []
title_words (suc n) [] = []
title_words (suc n) (w ∷ ws) =
    let kept = title_words n ws in
    let rest = title_words (suc n) ws in if keeps_title_word w then w ∷ kept else rest

unfoldable pub human_tool_title_from_body : Text → Text
unfolding single_line title_of title_words split_loop join truncate_chars
human_tool_title_from_body body =
    let line = single_line body in
    let title = title_of line in
    let kept = title_words 6 (split_whitespace line) in
    if is_empty title
    then (if eqb (length kept) 0 then codes "tool" else truncate_chars (join (32 ∷ []) kept) 80)
    else truncate_chars title 80

-- `compact_human_body`, which has no content to read a title from.
unfoldable pub compact_human_body : Option String → Text → Text
unfolding clean_body truncate_chars single_line human_tool_title_from_body is_thought is_toolish
compact_human_body kind body =
    let cleaned = clean_body body in
    if is_thought kind
    then truncate_chars (single_line cleaned) 200
    else if is_toolish kind
    then human_tool_title_from_body cleaned
    else cleaned

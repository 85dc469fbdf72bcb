-- ===== src/Store/Transcript/Bodies.antt =====
-- The texts of a transcript: `clean_body`, `clean_body_line` and `truncate_chars` of
-- crates/hub/src/store/transcript_view.rs, and what they use of `str`. A text is the list of its code points.
pub mod Laws
use acp_hub.Base.{
  ℕ, suc, ◌+◌, Bool, true, false, not, ◌&&◌, ◌||◌, List, [], ◌∷◌, ◌++◌, Option, none, some,
  if◌then◌else◌, ltb, leb, eqb, length, ◌==◌, list_eq, nat_eq,
}

abbrev pub Text : Type 0
Text = List ℕ

abbrev pub is_empty : Text → Bool
is_empty [] = true
is_empty (c ∷ cs) = false

abbrev pub newline : Text
newline = 10 ∷ []

-- The length of a text in UTF-8.
abbrev char_len : ℕ → ℕ
char_len c = if ltb c 128 then 1 else if ltb c 2048 then 2 else if ltb c 65536 then 3 else 4

unfoldable pub utf8_len : Text → ℕ
utf8_len [] = 0
utf8_len (c ∷ cs) = char_len c + utf8_len cs

abbrev within : ℕ → ℕ → ℕ → Bool
within low high c = leb low c && leb c high

-- `char::is_whitespace`.
unfoldable pub is_whitespace : ℕ → Bool
is_whitespace c =
    within 9 13 c
    || (eqb c 32
        || (eqb c 133
            || (eqb c 160
                || (eqb c 5760
                    || (within 8192 8202 c
                        || (within 8232 8233 c || (eqb c 8239 || (eqb c 8287 || eqb c 12288))))))))

-- `char::to_ascii_lowercase`.
unfoldable pub to_ascii_lowercase : ℕ → ℕ
to_ascii_lowercase c = if within 65 90 c then c + 32 else c

unfoldable pub lowercase : Text → Text
unfolding to_ascii_lowercase
lowercase [] = []
lowercase (c ∷ cs) = to_ascii_lowercase c ∷ lowercase cs

-- `trim_start_matches`, and `trim_end_matches`.
unfoldable pub trim_start : (ℕ → Bool) → Text → Text
trim_start test [] = []
trim_start test (c ∷ cs) = let rest = trim_start test cs in if test c then rest else c ∷ cs

unfoldable pub trim_end : (ℕ → Bool) → Text → Text
trim_end test [] = []
trim_end test (c ∷ cs) =
    let rest = trim_end test cs in if test c && is_empty rest then [] else c ∷ rest

abbrev pub trim_matches : (ℕ → Bool) → Text → Text
trim_matches test text = trim_end test (trim_start test text)

-- `strip_prefix` of a lowercased text, on the text itself: the lengths are the same.
unfoldable pub strip_lower_prefix : Text → Text → Option Text
unfolding to_ascii_lowercase
strip_lower_prefix [] text = some text
strip_lower_prefix (p ∷ ps) [] = none
strip_lower_prefix (p ∷ ps) (c ∷ cs) =
    let rest = strip_lower_prefix ps cs in if eqb (to_ascii_lowercase c) p then rest else none

-- "content type" and "type ".
abbrev pub content_type : Text
content_type = 99 ∷ 111 ∷ 110 ∷ 116 ∷ 101 ∷ 110 ∷ 116 ∷ 32 ∷ 116 ∷ 121 ∷ 112 ∷ 101 ∷ []

abbrev pub type_space : Text
type_space = 116 ∷ 121 ∷ 112 ∷ 101 ∷ 32 ∷ []

-- "text" and "type".
abbrev pub text_word : Text
text_word = 116 ∷ 101 ∷ 120 ∷ 116 ∷ []

abbrev pub type_word : Text
type_word = 116 ∷ 121 ∷ 112 ∷ 101 ∷ []

-- The loop that drops the prefixes of a line.
unfoldable pub drop_prefixes : ℕ → Text → Text
unfolding strip_lower_prefix trim_start
drop_prefixes ℕ.zero s = s
drop_prefixes (suc fuel) s = elim (strip_lower_prefix content_type s) [
  | some rest ↦ drop_prefixes fuel (trim_start is_whitespace rest)
  | none ↦ elim (strip_lower_prefix type_space s) [
    | some rest ↦ drop_prefixes fuel (trim_start is_whitespace rest)
    | none ↦ s
  ]
]

-- `split_whitespace`: the words, with the word so far.
abbrev cons_word : Text → List Text → List Text
cons_word [] words = words
cons_word (c ∷ cs) words = (c ∷ cs) ∷ words

unfoldable pub split_loop : Text → Text → List Text
split_loop word [] = cons_word word []
split_loop word (c ∷ cs) =
    let ended = split_loop [] cs in
    let longer = split_loop (word ++ (c ∷ [])) cs in
    if is_whitespace c then cons_word word ended else longer

abbrev pub split_whitespace : Text → List Text
split_whitespace text = split_loop [] text

-- `join`.
unfoldable pub join : Text → List Text → Text
join separator [] = []
join separator (w ∷ []) = w
join separator (w ∷ v ∷ ws) = w ++ (separator ++ join separator (v ∷ ws))

unfoldable pub is_mark : ℕ → Bool
is_mark c = eqb c 46 || (eqb c 44 || (eqb c 59 || (eqb c 58 || (eqb c 12290 || eqb c 65292))))

-- A word that is kept.
unfoldable pub keeps_word : Text → Bool
unfolding trim_start trim_end is_mark lowercase
keeps_word w =
    let t = lowercase (trim_matches is_mark w) in not (t == text_word) && not (t == type_word)

unfoldable pub kept_words : List Text → List Text
unfolding keeps_word
kept_words [] = []
kept_words (w ∷ ws) = let rest = kept_words ws in if keeps_word w then w ∷ rest else rest

unfoldable pub clean_body_line : Text → Text
unfolding trim_start trim_end drop_prefixes split_loop kept_words join
clean_body_line line =
    let s = trim_matches is_whitespace line in
    join (32 ∷ []) (kept_words (split_whitespace (drop_prefixes (length s) s)))

-- `str::lines`: the lines without their ends, with the line so far.
abbrev strip_return : Text → Text
strip_return [] = []
strip_return (c ∷ []) = if eqb c 13 then [] else c ∷ []
strip_return (c ∷ d ∷ cs) = c ∷ strip_return (d ∷ cs)

unfoldable pub lines_loop : Text → Text → List Text
lines_loop line [] = if is_empty line then [] else line ∷ []
lines_loop line (c ∷ cs) =
    let ended = lines_loop [] cs in
    let longer = lines_loop (line ++ (c ∷ [])) cs in
    if eqb c 10 then strip_return line ∷ ended else longer

abbrev pub lines : Text → List Text
lines text = lines_loop [] text

unfoldable pub clean_lines : List Text → List Text
unfolding clean_body_line
clean_lines [] = []
clean_lines (l ∷ ls) = clean_body_line l ∷ clean_lines ls

-- The second loop: the blank lines so far, and what is written.
unfoldable pub collapse_blanks : ℕ → Text → List Text → Text
unfolding trim_start trim_end
collapse_blanks blank out [] = out
collapse_blanks blank out (l ∷ ls) =
    if is_empty (trim_matches is_whitespace l)
    then collapse_blanks (blank + 1)
        (if leb (blank + 1) 1 && not (is_empty out) then out ++ newline else out) ls
    else collapse_blanks 0
        ((if is_empty out then out else out ++ newline) ++ trim_end is_whitespace l) ls

unfoldable pub clean_body : Text → Text
unfolding clean_lines lines_loop join collapse_blanks trim_start trim_end
clean_body body =
    trim_matches is_whitespace
      (collapse_blanks 0 [] (lines (join newline (clean_lines (lines body)))))

unfoldable pub take_chars : ℕ → Text → Text
take_chars ℕ.zero cs = []
take_chars (suc n) [] = []
take_chars (suc n) (c ∷ cs) = c ∷ take_chars n cs

-- `truncate_chars`.
unfoldable pub truncate_chars : Text → ℕ → Text
unfolding take_chars
truncate_chars s bound = if leb (length s) bound then s else take_chars bound s ++ (8230 ∷ [])

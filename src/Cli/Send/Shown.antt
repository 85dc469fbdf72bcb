-- ===== src/Cli/Send/Shown.antt =====
-- Which items of a transcript are printed after a turn.
use acp_hub.Base.{
  ℕ, ◌≡◌, refl, ap, sym, subst, ◌∙◌, Bool, true, false, not, ◌&&◌, ◌||◌, List, [], ◌∷◌, ◌++◌, ◌⊎◌,
  inl, inr, arith, All, Bool-cases, ◌==◌, ==_iff, string_eq, if◌then◌else◌,
}
use acp_hub.Store.Transcript.{ViewMessage, is_toolish, is_thought}
use acp_hub.Store.Transcript.Bodies.{
  Text, is_empty, is_whitespace, trim_start, trim_end, trim_matches,
}
use acp_hub.Cli.Lines.{format_human_transcript_line}
use acp_hub.Cli.Send.{OutputLine, json_item, text_line, emit_items}

-- Nothing but space.
abbrev pub Blank : Text → Type 0
Blank t = All (λ c. is_whitespace c ≡ true) t

-- The line of an item for people.
abbrev pub line_of : ViewMessage → Text
line_of item = format_human_transcript_line item.role item.kind item.body_text

-- An item that is not printed: what the user said, nothing but space, or, for people, one without a line.
unfoldable pub IsSkipped : Bool → ViewMessage → Type 0
IsSkipped json_output item =
    (item.role ≡ "user") ⊎ (Blank item.body_text ⊎ ((json_output ≡ false) × (line_of item ≡ [])))

abbrev pub output_of : Bool → ViewMessage → OutputLine
output_of json_output item = if json_output then json_item item else text_line (line_of item)

-- Nothing, or, for people, an empty line in front of a tool call.
abbrev pub IsSpacing : Bool → ViewMessage → List OutputLine → Type 0
IsSpacing json_output item before =
    (before ≡ [])
    ⊎ ((before ≡ text_line [] ∷ []) × (json_output ≡ false) × (is_toolish item.kind ≡ true))

-- The lines of all items but those that are skipped, in order.
abbrev pub Printed : Bool → List ViewMessage → List OutputLine → Type 0
Printed json_output [] out = out ≡ []
Printed json_output (item ∷ items) out =
    (IsSkipped json_output item × Printed json_output items out)
    ⊎ ((¬ IsSkipped json_output item)
        × ((before more : List OutputLine) × (out ≡ before ++ (output_of json_output item ∷ more))
            × IsSpacing json_output item before
            × Printed json_output items more))

module _ (test : ℕ → Bool) where
  trim_start-All : (t : Text) → All (λ c. test c ≡ true) t → trim_start test t ≡ []
  unfolding trim_start
  trim_start-All [] h = refl
  trim_start-All (c ∷ cs) h = let a = h.0 in rw a (trim_start-All cs h.1)

  All-trim_start :
      (t : Text) → All (λ c. test c ≡ true) (trim_start test t) → All (λ c. test c ≡ true) t
  unfolding trim_start
  All-trim_start [] h = tt
  All-trim_start (c ∷ cs) h = elim (Bool-cases (test c)) [
    | inl space ↦
        let rest : trim_start test (c ∷ cs) ≡ trim_start test cs = ground (arith, space) in
        (space, All-trim_start cs (subst (All (λ k. test k ≡ true)) rest h))
    | inr other ↦
        let whole : trim_start test (c ∷ cs) ≡ c ∷ cs = ground (arith, other) in
        subst (All (λ k. test k ≡ true)) whole h
  ]

  All-trim_end : (t : Text) → is_empty (trim_end test t) ≡ true → All (λ c. test c ≡ true) t
  unfolding trim_end
  All-trim_end [] h = tt
  All-trim_end (c ∷ cs) h = elim (Bool-cases (test c && is_empty (trim_end test cs))) [
    | inl blank ↦ (ground (arith, blank), All-trim_end cs (ground (arith, blank)))
    | inr other ↦ absurd (ground (arith, h, other))
  ]

trim_end-nil : (test : ℕ → Bool) → is_empty (trim_end test []) ≡ true
unfolding trim_end
trim_end-nil test = refl

Blank-is_empty : (t : Text) → Blank t → is_empty (trim_matches is_whitespace t) ≡ true
Blank-is_empty t h =
    ap (λ k. is_empty (trim_end is_whitespace k)) (trim_start-All is_whitespace t h)
    ∙ trim_end-nil is_whitespace

is_empty-nil : (t : Text) → is_empty t ≡ true → t ≡ []
is_empty-nil [] h = refl
is_empty-nil (c ∷ cs) h = cc

-- The tests of the loop on an item.
abbrev skips : Bool → ViewMessage → Bool
skips json_output item =
    item.role == "user"
    || (is_empty (trim_matches is_whitespace item.body_text)
        || (not json_output && is_empty (line_of item)))

skips-IsSkipped :
    (json_output : Bool) (item : ViewMessage)
    → skips json_output item ≡ true
    → IsSkipped json_output item
unfolding IsSkipped
skips-IsSkipped json_output item h = elim (Bool-cases (item.role == "user")) [
  | inl user ↦ inl ((==_iff item.role "user").0 user)
  | inr agent ↦ elim (Bool-cases (is_empty (trim_matches is_whitespace item.body_text))) [
    | inl blank ↦ inr (
        inl (
          All-trim_start is_whitespace item.body_text
            (All-trim_end is_whitespace (trim_start is_whitespace item.body_text) blank)))
    | inr full ↦ inr (
        inr (
          ground (arith, h, agent, full),
          is_empty-nil (line_of item) (ground (arith, h, agent, full)),
        ))
  ]
]

not_IsSkipped :
    (json_output : Bool) (item : ViewMessage)
    → skips json_output item ≡ false
    → ¬ IsSkipped json_output item
unfolding IsSkipped
not_IsSkipped json_output item h (inl user) =
    let same = (==_iff item.role "user").1 user in absurd (ground (arith, h, same))
not_IsSkipped json_output item h (inr (inl blank)) =
    let empty = Blank-is_empty item.body_text blank in absurd (ground (arith, h, empty))
not_IsSkipped json_output item h (inr (inr (human, no_line))) =
    let empty : is_empty (line_of item) ≡ true = ap is_empty no_line in
    absurd (ground (arith, h, human, empty))

-- One round of the loop that prints nothing.
emit_items-skips :
    (json_output prev : Bool) (item : ViewMessage) (items : List ViewMessage)
    → skips json_output item ≡ true
    → emit_items json_output prev (item ∷ items) ≡ emit_items json_output prev items
unfolding emit_items
emit_items-skips json_output prev item items h = ground (arith, h)

emit_items-json :
    (prev : Bool) (item : ViewMessage) (items : List ViewMessage)
    → skips true item ≡ false
    → emit_items true prev (item ∷ items) ≡ json_item item ∷ emit_items true prev items
unfolding emit_items
emit_items-json prev item items h = ground (arith, h)

abbrev plain : ViewMessage → Bool
plain item = not (is_toolish item.kind) && not (is_thought item.kind)

-- The empty line that may stand in front of an item.
abbrev spacing : Bool → ViewMessage → List OutputLine
spacing prev item = if is_toolish item.kind && prev then text_line [] ∷ [] else []

emit_items-human :
    (prev : Bool) (item : ViewMessage) (items : List ViewMessage)
    → skips false item ≡ false
    → emit_items false prev (item ∷ items)
      ≡ spacing prev item ++ (text_line (line_of item) ∷ emit_items false (plain item) items)
unfolding emit_items
emit_items-human prev item items h = elim (Bool-cases (is_toolish item.kind && prev)) [
  | inl tool ↦ ground (arith, h, tool)
  | inr other ↦ ground (arith, h, other)
]

spacing-IsSpacing : (prev : Bool) (item : ViewMessage) → IsSpacing false item (spacing prev item)
spacing-IsSpacing prev item = elim (Bool-cases (is_toolish item.kind && prev)) [
  | inl tool ↦ rw tool (inr (refl, refl, ground (arith, tool)))
  | inr other ↦ rw other (inl refl)
]

pub emit_items-Printed :
    (json_output prev : Bool) (items : List ViewMessage)
    → Printed json_output items (emit_items json_output prev items)
emit_items-Printed json_output prev [] = unfold emit_items in refl
emit_items-Printed true prev (item ∷ items) = elim (Bool-cases (skips true item)) [
  | inl skipped ↦ inl (
    skips-IsSkipped true item skipped,
    subst (Printed true items) (sym (emit_items-skips true prev item items skipped))
        (emit_items-Printed true prev items),
  )
  | inr shown ↦ inr (
    not_IsSkipped true item shown,
    (
      [],
      emit_items true prev items,
      emit_items-json prev item items shown,
      inl refl,
      emit_items-Printed true prev items,
    ),
  )
]
emit_items-Printed false prev (item ∷ items) = elim (Bool-cases (skips false item)) [
  | inl skipped ↦ inl (
    skips-IsSkipped false item skipped,
    subst (Printed false items) (sym (emit_items-skips false prev item items skipped))
        (emit_items-Printed false prev items),
  )
  | inr shown ↦ inr (
    not_IsSkipped false item shown,
    (
      spacing prev item,
      emit_items false (plain item) items,
      emit_items-human prev item items shown,
      spacing-IsSpacing prev item,
      emit_items-Printed false (plain item) items,
    ),
  )
]

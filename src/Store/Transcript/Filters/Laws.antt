-- ===== src/Store/Transcript/Filters/Laws.antt =====
-- What the filters of a transcript leave.
use acp_hub.Base.{
  ℕ, suc, ◌+◌, ◌-◌, ◌≤◌, ◌≡◌, refl, ap, sym, subst, ◌∙◌, Bool, true, false, ◌&&◌, List, [], ◌∷◌,
  Option, none, some, String, if◌then◌else◌, ltb, arith, All, Bool-cases, inl, inr, ◌⊎◌, length,
  length-append,
}
use acp_hub.Store.Messages.{where_rows}
use acp_hub.Store.Paging.{take_rows, drop_rows}
use acp_hub.Store.Transcript.Bodies.{Text, truncate_chars, take_chars}
use acp_hub.Store.Transcript.{ViewMessage, TranscriptView, Reading, is_toolish}
use acp_hub.Store.Transcript.Laws.{Bounded}
use acp_hub.Store.Transcript.Filters.{
  retained, tokens_of, keep_kinds, keep_ends, truncate_bodies, limit_bodies,
  apply_show_view_filters, over, or_zero, cut_to,
}

-- `tail` comes before `head`.
abbrev pub first_of : Option ℕ → Option ℕ → Option ℕ
first_of none head = head
first_of (some n) head = some n

abbrev pub Short : Option ℕ → ViewMessage → Type 0
Short none v = Unit
Short (some bound) v = (bound ≡ 0) ⊎ (length v.body_text ≤ bound + 1)

pub record Filtered (no_tools : Bool) (limit max_chars : Option ℕ) (t : TranscriptView)
    : Type 0 where
  pub counted : t.view_count ≡ length t.items
  pub no_tool : All (λ v. (no_tools && is_toolish v.kind) ≡ false) t.items
  pub few : Bounded limit (length t.items)
  pub short : All (Short max_chars) t.items

module _ {A : Type 0} (P : A → Type 0) where
  take_rows-All : (n : ℕ) (xs : List A) → All P xs → All P (take_rows n xs)
  unfolding take_rows
  take_rows-All ℕ.zero xs h = tt
  take_rows-All (suc n) [] h = tt
  take_rows-All (suc n) (a ∷ xs) h = (h.0, take_rows-All n xs h.1)

  drop_rows-All : (n : ℕ) (xs : List A) → All P xs → All P (drop_rows n xs)
  unfolding drop_rows
  drop_rows-All ℕ.zero xs h = h
  drop_rows-All (suc n) [] h = tt
  drop_rows-All (suc n) (a ∷ xs) h = drop_rows-All n xs h.1

length-take_rows : {A : Type 0} (n : ℕ) (xs : List A) → length (take_rows n xs) ≤ n
unfolding take_rows
length-take_rows ℕ.zero xs = omega arith
length-take_rows (suc n) [] = omega arith
length-take_rows (suc n) (a ∷ xs) = let ih = length-take_rows n xs in omega (arith, ih)

length-drop_rows : {A : Type 0} (n : ℕ) (xs : List A) → length (drop_rows n xs) ≡ length xs - n
unfolding drop_rows
length-drop_rows ℕ.zero xs = omega arith
length-drop_rows (suc n) [] = omega arith
length-drop_rows (suc n) (a ∷ xs) = let ih = length-drop_rows n xs in omega (arith, ih)

-- A cut text has at most the characters asked for, and the mark of the cut.
length-take_chars : (n : ℕ) (cs : Text) → length (take_chars n cs) ≤ n
unfolding take_chars
length-take_chars ℕ.zero cs = omega arith
length-take_chars (suc n) [] = omega arith
length-take_chars (suc n) (c ∷ cs) = let ih = length-take_chars n cs in omega (arith, ih)

length-truncate_chars : (s : Text) (bound : ℕ) → length (truncate_chars s bound) ≤ bound + 1
unfolding truncate_chars
length-truncate_chars s bound =
    let a = length-take_chars bound s in
    let b = length-append (take_chars bound s) (8230 ∷ []) in ground (arith, a, b)

truncate_bodies-Short :
    (bound : ℕ) (vs : List ViewMessage) → All (Short (some bound)) (truncate_bodies bound vs)
unfolding truncate_bodies
truncate_bodies-Short bound [] = tt
truncate_bodies-Short bound (v ∷ vs) =
    (inr (length-truncate_chars v.body_text bound), truncate_bodies-Short bound vs)

unlimited : (bound : ℕ) → bound ≡ 0 → (vs : List ViewMessage) → All (Short (some bound)) vs
unlimited bound h [] = tt
unlimited bound h (v ∷ vs) = (inl h, unlimited bound h vs)

any_body : (vs : List ViewMessage) → All (Short none) vs
any_body [] = tt
any_body (v ∷ vs) = (tt, any_body vs)

length-truncate_bodies :
    (bound : ℕ) (vs : List ViewMessage) → length (truncate_bodies bound vs) ≡ length vs
unfolding truncate_bodies
length-truncate_bodies bound [] = refl
length-truncate_bodies bound (v ∷ vs) = ap suc (length-truncate_bodies bound vs)

truncate_bodies-kinds :
    (no_tools : Bool) (bound : ℕ) (vs : List ViewMessage)
    → All (λ v. (no_tools && is_toolish v.kind) ≡ false) vs
    → All (λ v. (no_tools && is_toolish v.kind) ≡ false) (truncate_bodies bound vs)
unfolding truncate_bodies
truncate_bodies-kinds no_tools bound [] h = tt
truncate_bodies-kinds no_tools bound (v ∷ vs) h = (h.0, truncate_bodies-kinds no_tools bound vs h.1)

module _ {S : Type 0} (x : Reading S) where
  where-no_tool :
      (no_tools : Bool) (tokens : List Text) (vs : List ViewMessage)
      → All
          (λ v. (no_tools && is_toolish v.kind) ≡ false)
          (where_rows (retained x no_tools tokens) vs)
  unfolding where_rows
  where-no_tool no_tools tokens [] = tt
  where-no_tool no_tools tokens (v ∷ vs) = elim (Bool-cases (retained x no_tools tokens v)) [
    | inr left ↦ rw left (where-no_tool no_tools tokens vs)
    | inl kept ↦
        let out : (no_tools && is_toolish v.kind) ≡ false =
          unfold retained in ground (arith, kept) in
        rw kept (out, where-no_tool no_tools tokens vs)
  ]

  abbrev Counted : Bool → TranscriptView → Type 0
  Counted no_tools t =
      (t.view_count ≡ length t.items) × All (λ v. (no_tools && is_toolish v.kind) ≡ false) t.items

  any_kind : (vs : List ViewMessage) → All (λ v. (false && is_toolish v.kind) ≡ false) vs
  any_kind [] = tt
  any_kind (v ∷ vs) = (refl, any_kind vs)

  keep_kinds-Counted :
      (kinds : List String) (no_tools : Bool) (t : TranscriptView)
      → t.view_count ≡ length t.items
      → Counted no_tools (keep_kinds x kinds no_tools t)
  unfolding keep_kinds
  keep_kinds-Counted kinds true t h = (refl, where-no_tool true (tokens_of x kinds) t.items)
  keep_kinds-Counted [] false t h = (h, any_kind t.items)
  keep_kinds-Counted (k ∷ ks) false t h = (refl, where-no_tool false (tokens_of x (k ∷ ks)) t.items)

  abbrev head_cut : Option ℕ → TranscriptView → TranscriptView
  head_cut head t =
      if over head (length t.items) then cut_to (take_rows (or_zero head) t.items) t else t

  head_cut-Counted :
      (no_tools : Bool) (head : Option ℕ) (t : TranscriptView)
      → Counted no_tools t
      → Counted no_tools (head_cut head t)
        × Bounded head (length (head_cut head t).items)
        × (length (head_cut head t).items ≤ length t.items)
  head_cut-Counted no_tools none t h = (h, tt, omega arith)
  head_cut-Counted no_tools (some n) t h = elim (Bool-cases (ltb n (length t.items))) [
    | inl long ↦
        let cut = length-take_rows n t.items in
        rw long (
          (refl, take_rows-All (λ v. (no_tools && is_toolish v.kind) ≡ false) n t.items h.1),
          cut,
          ground (arith, cut, long),
        )
    | inr fits ↦ rw fits (h, ground (arith, fits), omega arith)
  ]

  keep_ends-Counted :
      (no_tools : Bool) (tail head : Option ℕ) (t : TranscriptView)
      → Counted no_tools t
      → Counted no_tools (keep_ends tail head t)
        × Bounded (first_of tail head) (length (keep_ends tail head t).items)
  unfolding keep_ends
  keep_ends-Counted no_tools none head t h =
      let a = head_cut-Counted no_tools head t h in (a.0, a.1)
  keep_ends-Counted no_tools (some n) head t h = elim (Bool-cases (ltb n (length t.items))) [
    | inl long ↦
        let cut = length-drop_rows (length t.items - n) t.items in
        rw long (
          (
            refl,
            drop_rows-All (λ v. (no_tools && is_toolish v.kind) ≡ false) (length t.items - n)
                t.items h.1,
          ),
          ground (arith, cut, long),
        )
    | inr fits ↦
        let a = head_cut-Counted no_tools head t h in
        let b = a.2 in rw fits (a.0, ground (arith, fits, b))
  ]

  limit_bodies-Filtered :
      (no_tools : Bool) (limit max_chars : Option ℕ) (t : TranscriptView)
      → Counted no_tools t
      → Bounded limit (length t.items)
      → Filtered no_tools limit max_chars (limit_bodies max_chars t)
  unfolding limit_bodies
  limit_bodies-Filtered no_tools limit none t h few = record {
    counted = h.0;
    no_tool = h.1;
    few = few;
    short = any_body t.items;
  }
  limit_bodies-Filtered no_tools limit (some bound) t h few = elim (Bool-cases (ltb 0 bound)) [
    | inl on ↦
        let same = length-truncate_bodies bound t.items in
        rw on (record {
          counted = h.0 ∙ sym same;
          no_tool = truncate_bodies-kinds no_tools bound t.items h.1;
          few = subst (Bounded limit) (sym same) few;
          short = truncate_bodies-Short bound t.items;
        })
    | inr off ↦
        let zero_bound : bound ≡ 0 = ground (arith, off) in
        rw off (record {
          counted = h.0;
          no_tool = h.1;
          few = few;
          short = unlimited bound zero_bound t.items;
        })
  ]

  -- Filtering a view whose count is right gives one whose count is right; without tools where these are not
  -- wanted, with at most as many items as `tail`, or else `head`, allows, and where the number of characters
  -- is limited, with bodies of at most as many and the mark of a cut.
  pub apply_show_view_filters-Filtered :
      (t : TranscriptView) (kinds : List String) (no_tools : Bool) (tail head max_chars : Option ℕ)
      → t.view_count ≡ length t.items
      → Filtered no_tools
          (first_of tail head)
          max_chars
          (apply_show_view_filters x t kinds no_tools tail head max_chars)
  unfolding apply_show_view_filters
  apply_show_view_filters-Filtered t kinds no_tools tail head max_chars h =
      let kept = keep_kinds-Counted kinds no_tools t h in
      let (counted, few) =
        keep_ends-Counted no_tools tail head (keep_kinds x kinds no_tools t) kept in
      limit_bodies-Filtered no_tools (first_of tail head) max_chars
        (keep_ends tail head (keep_kinds x kinds no_tools t)) counted few

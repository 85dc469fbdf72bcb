-- ===== src/Store/Transcript/Filters.antt =====
-- What `conv show` leaves of a transcript: `apply_show_view_filters` and `view_item_matches_kinds` of
-- crates/hub/src/store/transcript_view.rs.
pub mod Laws
use acp_hub.Base.{
  ℕ, suc, ◌+◌, ◌-◌, ◌≤◌, ◌<◌, ◌≡◌, refl, ap, sym, subst, ◌∙◌, Bool, true, false, not, ◌&&◌, ◌||◌,
  List, [], ◌∷◌, Option, none, some, String, if◌then◌else◌, ltb, leb, eqb, arith, All, All-map,
  Bool-cases, Option-cases, inl, inr, length, length-append, ◌==◌, string_eq, option_eq, list_eq,
  nat_eq, bool_eq, ◌++◌,
}
use acp_hub.Store.Messages.{where_rows}
use acp_hub.Store.Paging.{take_rows, drop_rows}
use acp_hub.Store.Transcript.Bodies.{Text, lowercase, truncate_chars, take_chars}
use acp_hub.Store.Transcript.{ViewMessage, TranscriptView, Reading, is_thought, is_toolish}

abbrev over : Option ℕ → ℕ → Bool
over none count = false
over (some n) count = ltb n count

abbrev or_zero : Option ℕ → ℕ
or_zero none = 0
or_zero (some n) = n

abbrev cut_to : List ViewMessage → TranscriptView → TranscriptView
cut_to items t = record {
  items = items;
  truncated = true;
  raw_count = t.raw_count;
  view_count = length items;
}

-- `tail`, else `head`.
unfoldable pub keep_ends : Option ℕ → Option ℕ → TranscriptView → TranscriptView
unfolding take_rows drop_rows
keep_ends tail head t =
    if over tail (length t.items)
    then cut_to (drop_rows (length t.items - or_zero tail) t.items) t
    else if over head (length t.items)
    then cut_to (take_rows (or_zero head) t.items) t
    else t

unfoldable pub truncate_bodies : ℕ → List ViewMessage → List ViewMessage
unfolding truncate_chars
truncate_bodies bound [] = []
truncate_bodies bound (v ∷ vs) =
    (record {
      seq = v.seq;
      role = v.role;
      kind = v.kind;
      body_text = truncate_chars v.body_text bound;
      source = v.source;
      merged_count = v.merged_count;
    })
    ∷ truncate_bodies bound vs

-- `max_chars`, where it is positive.
unfoldable pub limit_bodies : Option ℕ → TranscriptView → TranscriptView
unfolding truncate_bodies
limit_bodies none t = t
limit_bodies (some bound) t =
    if ltb 0 bound
    then record {
      items = truncate_bodies bound t.items;
      truncated = t.truncated;
      raw_count = t.raw_count;
      view_count = t.view_count;
    }
    else t

module _ {S : Type 0} (x : Reading S) where
  -- `eq_ignore_ascii_case` of a kind.
  unfoldable pub kind_is : Option String → Text → Bool
  unfolding lowercase
  kind_is none t = false
  kind_is (some kind) t = lowercase (x.chars kind) == lowercase t

  -- One round of the loop of `view_item_matches_kinds`.
  unfoldable pub matches_token : ViewMessage → Text → Bool
  unfolding is_thought is_toolish kind_is
  matches_token v t =
      (t == x.chars "user" && v.role == "user")
      || ((t == x.chars "assistant"
            && (v.role == "assistant" && (not (is_thought v.kind) && not (is_toolish v.kind))))
          || (((t == x.chars "thought" || t == x.chars "thinking") && is_thought v.kind)
              || (((t == x.chars "tool"
                      || (t == x.chars "tool_call" || t == x.chars "tool_call_update"))
                    && is_toolish v.kind)
                  || kind_is v.kind t)))

  unfoldable pub view_item_matches_kinds : ViewMessage → List Text → Bool
  unfolding matches_token
  view_item_matches_kinds v [] = false
  view_item_matches_kinds v (t ∷ ts) = matches_token v t || view_item_matches_kinds v ts

  unfoldable pub tokens_of : List String → List Text
  unfolding lowercase
  tokens_of [] = []
  tokens_of (k ∷ ks) = lowercase (x.chars k) ∷ tokens_of ks

  abbrev none_left {ℓ} : {A : Type ℓ} → List A → Bool
  none_left [] = true
  none_left (a ∷ more) = false

  -- The test of `retain`.
  unfoldable pub retained : Bool → List Text → ViewMessage → Bool
  unfolding is_toolish view_item_matches_kinds
  retained no_tools tokens v =
      if no_tools && is_toolish v.kind
      then false
      else if none_left tokens
      then true
      else view_item_matches_kinds v tokens

  unfoldable pub keep_kinds : List String → Bool → TranscriptView → TranscriptView
  unfolding retained tokens_of where_rows
  keep_kinds kinds no_tools t =
      let kept = where_rows (retained no_tools (tokens_of kinds)) t.items in
      if no_tools || not (none_left kinds)
      then record {
        items = kept;
        truncated = t.truncated;
        raw_count = t.raw_count;
        view_count = length kept;
      }
      else t

  -- `apply_show_view_filters`.
  unfoldable pub apply_show_view_filters :
      TranscriptView → List String → Bool → Option ℕ → Option ℕ → Option ℕ → TranscriptView
  unfolding keep_kinds keep_ends limit_bodies
  apply_show_view_filters t kinds no_tools tail head max_chars =
      limit_bodies max_chars (keep_ends tail head (keep_kinds kinds no_tools t))

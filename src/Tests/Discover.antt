-- ===== src/Tests/Discover.antt =====
-- A session that the hub has already.
use acp_hub.Base.{◌≡◌, refl, true, [], ◌∷◌, Option, none, some, String, Map, insert, All, string_eq}
use acp_hub.Flow.Json.{object, end}
use acp_hub.Store.Policy.{
  hub_created, writable, open_phase, not_busy, no_outcome, idle, mirror_status, synthetic_status,
}
use acp_hub.Store.Discover.{
  MetaJson, DiscoverRow, DiscoverUpsertResult, upserted, find_session, missing,
  merge_discover_field, merge_session_meta_json, recompute_interaction,
  upsert_agent_session_discover,
}
use acp_hub.Store.Discover.Rows.{IsPolicy}
use acp_hub.Store.Discover.Laws.{Outcome, upsert_agent_session_discover_lem}

abbrev json : MetaJson String
json = record { from_str = λ s. some (object end); to_string = λ j. "{}"; as_str = λ s. some s }

abbrev row : Option String → Option String → String → DiscoverRow
row title cwd now = record {
  agent_id = "a";
  agent_session_id = "s";
  title = title;
  cwd = cwd;
  additional_directories = "[]";
  session_meta = none;
  status = idle;
  updated_at = now;
  origin = hub_created;
  interaction = writable;
  phase = open_phase;
  busy = not_busy;
  last_outcome = no_outcome;
  fts_title = title;
}

abbrev before : Map String DiscoverRow
before = ("c", row (some "local") none "t0") ∷ []

-- The title stays, and the directory is filled in.
abbrev after : Map String DiscoverRow
after = ("c", row (some "local") (some "/") "t1") ∷ []

abbrev result : DiscoverUpsertResult
result = record {
  conv_id = "c";
  in_hub_before = true;
  origin = hub_created;
  interaction = writable;
}

discovered :
    upsert_agent_session_discover json "a" "s" (some "remote") (some "/") "[]" none "t1" "f" before
    ≡ upserted result after
unfolding upsert_agent_session_discover find_session insert missing merge_discover_field
    merge_session_meta_json recompute_interaction
discovered = refl

before-IsPolicy : All IsPolicy before
unfolding mirror_status synthetic_status
before-IsPolicy = ((refl, refl), tt)

upsert_agent_session_discover_lem_example :
    Outcome json "a" "s" before "f" (find_session "a" "s" before) result after
upsert_agent_session_discover_lem_example =
    upsert_agent_session_discover_lem json "a" "s" (some "remote") (some "/") "[]" none "t1" "f"
      before after result before-IsPolicy discovered

-- ===== src/Store/Discover.antt =====
-- Sessions that an agent lists, taken over into the conversations: `upsert_agent_session_discover` of
-- crates/hub/src/store/lifecycle.rs, `merge_session_meta_json` of store.rs, and the session meta and
-- interaction of store/conversation_policy.rs. `now` is what `now_iso()` returns, `fresh_id` the new id.
pub mod Rows
pub mod Laws
use acp_hub.Base.{
  Bool, true, false, not, ◌&&◌, ◌||◌, List, [], ◌∷◌, ◌++◌, Option, none, some, String,
  if◌then◌else◌, ◌==◌, string_eq, list_eq, nat_eq, Map, get, insert, contains_key, is_some,
}
use acp_hub.Flow.Json.{Bytes, Json, Fields, scalar, object, end, field}
use acp_hub.Store.Policy.{
  ConvOrigin, Interaction, ConvPhase, ConvBusy, LastOutcome, ConvStatus, hub_created, bound,
  imported_list, writable, read_only, open_phase, closed_phase, deleted_phase, not_busy, no_outcome,
  mirror_status,
}
use acp_hub.Store.Policy.Text.{parse_interaction}
use acp_hub.Store.Transcript.{member, lookup, bind, or_else}

pub data SessionSpace : Type 0 where
  acp_space cli_space ide_space unknown_space : SessionSpace

-- `SessionSpace::parse`.
unfoldable pub parse_space : String → SessionSpace
parse_space s =
    if s == "acp"
    then acp_space
    else if s == "cli"
    then cli_space
    else if s == "ide"
    then ide_space
    else unknown_space

-- "acp_hub", "cursor-adapter", "interaction" and "space".
abbrev acp_hub_key : Bytes
acp_hub_key = 97 ∷ 99 ∷ 112 ∷ 95 ∷ 104 ∷ 117 ∷ 98 ∷ []

abbrev cursor_adapter_key : Bytes
cursor_adapter_key =
    99 ∷ 117 ∷ 114 ∷ 115 ∷ 111 ∷ 114 ∷ 45 ∷ 97 ∷ 100 ∷ 97 ∷ 112 ∷ 116 ∷ 101 ∷ 114 ∷ []

abbrev interaction_key : Bytes
interaction_key = 105 ∷ 110 ∷ 116 ∷ 101 ∷ 114 ∷ 97 ∷ 99 ∷ 116 ∷ 105 ∷ 111 ∷ 110 ∷ []

abbrev space_key : Bytes
space_key = 115 ∷ 112 ∷ 97 ∷ 99 ∷ 101 ∷ []

-- What the code takes from `serde_json`.
pub record MetaJson (S : Type 0) : Type 0 where
  pub from_str : String → Option (Json S)
  pub to_string : Json S → String
  pub as_str : S → Option String

-- The columns of `conversations` that are read or written here, and the title in the text index.
pub record DiscoverRow : Type 0 where
  pub agent_id : String
  pub agent_session_id : String
  pub title : Option String
  pub cwd : Option String
  pub additional_directories : String
  pub session_meta : Option String
  pub status : ConvStatus
  pub updated_at : String
  pub origin : ConvOrigin
  pub interaction : Interaction
  pub phase : ConvPhase
  pub busy : ConvBusy
  pub last_outcome : LastOutcome
  pub fts_title : Option String

pub record DiscoverUpsertResult : Type 0 where
  pub conv_id : String
  pub in_hub_before : Bool
  pub origin : ConvOrigin
  pub interaction : Interaction

pub data Upserted : Type 0 where
  upserted : DiscoverUpsertResult → Map String DiscoverRow → Upserted
  bad_meta : Upserted

-- `is_empty`, where it is there.
unfoldable pub missing : Option String → Bool
missing none = true
missing (some s) = s == ""

-- `merge_discover_field`.
unfoldable pub merge_discover_field : ConvOrigin → Option String → Option String → Option String
unfolding missing
merge_discover_field origin local remote =
    if missing local
    then (if missing remote then none else remote)
    else if missing remote
    then local
    else elim origin [ hub_created ↦ local | bound ↦ local | imported_list ↦ remote ]

-- The row of an agent's session.
unfoldable pub find_session :
    String → String → Map String DiscoverRow → Option (String × DiscoverRow)
find_session agent session [] = none
find_session agent session ((id, c) ∷ more) =
    let rest = find_session agent session more in
    if c.agent_id == agent && c.agent_session_id == session then some (id, c) else rest

-- `Map::insert`.
unfoldable pub set_field : {S : Type 0} → Bytes → Json S → Fields S → Fields S
set_field key v end = field key v end
set_field key v (field k w more) =
    let rest = set_field key v more in if k == key then field key v more else field k w rest

unfoldable pub merge_fields : {S : Type 0} → Fields S → Fields S → Fields S
unfolding set_field
merge_fields into end = into
merge_fields into (field k v more) = merge_fields (set_field k v into) more

abbrev object_fields : {S : Type 0} → Json S → Option (Fields S)
object_fields (object fields) = some fields
object_fields _ = none

abbrev no_fields : {S : Type 0} → Fields S → Bool
no_fields end = true
no_fields (field k v more) = false

module _ {S : Type 0} (x : MetaJson S) where
  abbrev text_of : Json S → Option String
  text_of (scalar s) = x.as_str s
  text_of _ = none

  abbrev text_at : Bytes → Bytes → Json S → Option String
  text_at outer inner meta = bind (bind (member outer meta) (member inner)) text_of

  -- `parse_session_meta`.
  unfoldable pub parse_session_meta : Option (Json S) → Option Interaction × SessionSpace
  unfolding member lookup parse_interaction parse_space
  parse_session_meta none = (none, unknown_space)
  parse_session_meta (some meta) =
      if is_some (object_fields meta)
      then (
        bind (text_at acp_hub_key interaction_key meta) parse_interaction,
        elim (or_else (text_at acp_hub_key space_key meta)
            (text_at cursor_adapter_key space_key meta)) [
              | none ↦ unknown_space
              | some s ↦ parse_space s
            ],
      )
      else (none, unknown_space)

  abbrev of_space : SessionSpace → Interaction
  of_space acp_space = writable
  of_space cli_space = writable
  of_space ide_space = read_only
  of_space unknown_space = read_only

  abbrev of_meta : Option Interaction × SessionSpace → Interaction
  of_meta (some read_only, space) = read_only
  of_meta (some writable, space) = of_space space
  of_meta (none, space) = of_space space

  -- `recompute_interaction`.
  unfoldable pub recompute_interaction : ConvOrigin → Option (Json S) → Interaction
  unfolding parse_session_meta
  recompute_interaction imported_list meta = read_only
  recompute_interaction hub_created meta = writable
  recompute_interaction bound meta = of_meta (parse_session_meta meta)

  unfoldable pub merged_text : Fields S → Json S → Option String
  unfolding merge_fields
  merged_text fields remote = elim (object_fields remote) [
    | none ↦ some (x.to_string remote)
    | some new ↦
        if no_fields (merge_fields fields new)
        then none
        else some (x.to_string (object (merge_fields fields new)))
  ]

  abbrev fields_of : Json S → Fields S
  fields_of (object fields) = fields
  fields_of _ = end

  -- `merge_session_meta_json`: none where the existing text is not JSON.
  unfoldable pub merge_session_meta_json : Option String → Option (Json S) → Option (Option String)
  unfolding merged_text
  merge_session_meta_json existing none = some existing
  merge_session_meta_json none (some remote) = some (merged_text end remote)
  merge_session_meta_json (some text) (some remote) = elim (x.from_str text) [
    | none ↦ none
    | some old ↦ some (merged_text (fields_of old) remote)
  ]

  -- A conversation that was deleted comes back as an imported one.
  abbrev pub revived :
      Option String → Option String → String → Option String → String → DiscoverRow → DiscoverRow
  revived title cwd dirs meta now c = record {
    agent_id = c.agent_id;
    agent_session_id = c.agent_session_id;
    title = or_else title c.title;
    cwd = or_else cwd c.cwd;
    additional_directories = dirs;
    session_meta = or_else meta c.session_meta;
    status = mirror_status open_phase not_busy no_outcome;
    updated_at = now;
    origin = imported_list;
    interaction = read_only;
    phase = open_phase;
    busy = not_busy;
    last_outcome = no_outcome;
    fts_title = or_else title c.fts_title;
  }

  abbrev pub refreshed :
      Option String
      → Option String
      → String
      → Option String
      → Interaction
      → String
      → DiscoverRow
      → DiscoverRow
  refreshed title cwd dirs meta interaction now c = record {
    agent_id = c.agent_id;
    agent_session_id = c.agent_session_id;
    title = title;
    cwd = cwd;
    additional_directories = dirs;
    session_meta = meta;
    status = c.status;
    updated_at = now;
    origin = c.origin;
    interaction = interaction;
    phase = c.phase;
    busy = c.busy;
    last_outcome = c.last_outcome;
    fts_title = or_else title c.fts_title;
  }

  abbrev pub imported :
      String
      → String
      → Option String
      → Option String
      → String
      → Option String
      → String
      → DiscoverRow
  imported agent session title cwd dirs meta now = record {
    agent_id = agent;
    agent_session_id = session;
    title = title;
    cwd = cwd;
    additional_directories = dirs;
    session_meta = meta;
    status = mirror_status open_phase not_busy no_outcome;
    updated_at = now;
    origin = imported_list;
    interaction = read_only;
    phase = open_phase;
    busy = not_busy;
    last_outcome = no_outcome;
    fts_title = or_else title (some "");
  }

  abbrev pub meta_text : Option (Json S) → Option String
  meta_text none = none
  meta_text (some meta) = some (x.to_string meta)

  abbrev pub is_deleted : ConvPhase → Bool
  is_deleted open_phase = false
  is_deleted closed_phase = false
  is_deleted deleted_phase = true

  -- `upsert_agent_session_discover`.
  unfoldable pub upsert_agent_session_discover :
      String
      → String
      → Option String
      → Option String
      → String
      → Option (Json S)
      → String
      → String
      → Map String DiscoverRow
      → Upserted
  unfolding find_session insert merge_discover_field merge_session_meta_json recompute_interaction
      mirror_status
  upsert_agent_session_discover agent session title cwd dirs meta now fresh_id s =
      elim (find_session agent session s) [
        | none ↦
            upserted
              (record {
                conv_id = fresh_id;
                in_hub_before = false;
                origin = imported_list;
                interaction = read_only;
              })
              (insert fresh_id (imported agent session title cwd dirs (meta_text meta) now) s)
        | some (id, c) ↦
            if is_deleted c.phase
            then upserted
                (record {
                  conv_id = id;
                  in_hub_before = false;
                  origin = imported_list;
                  interaction = read_only;
                })
                (insert id (revived title cwd dirs (meta_text meta) now c) s)
            else elim (merge_session_meta_json c.session_meta meta) [
              | none ↦ bad_meta
              | some merged ↦
                  let interaction = recompute_interaction c.origin (bind merged x.from_str) in
                  upserted
                    (record {
                      conv_id = id;
                      in_hub_before = true;
                      origin = c.origin;
                      interaction = interaction;
                    })
                    (insert id
                      (refreshed (merge_discover_field c.origin c.title title)
                        (merge_discover_field c.origin c.cwd cwd) dirs merged interaction now c)
                      s)
            ]
      ]

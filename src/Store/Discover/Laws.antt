-- ===== src/Store/Discover/Laws.antt =====
-- What the discovery of a session does to the conversations.
use acp_hub.Base.{
  ◌≡◌, refl, ap, sym, subst, ◌∙◌, Bool, true, false, Option, none, some, String, if◌then◌else◌,
  ◌==◌, string_eq, ==_refl, Map, get, insert, get-insert, All, Bool-cases, Option-cases, inl, inr,
  arith,
}
use acp_hub.Flow.Json.{Json}
use acp_hub.Store.Policy.{ConvOrigin, Interaction, imported_list, read_only}
use acp_hub.Store.Discover.{
  MetaJson, DiscoverRow, DiscoverUpsertResult, upserted, find_session, is_deleted,
  recompute_interaction, merge_session_meta_json, upsert_agent_session_discover, revived, refreshed,
  imported, meta_text, merge_discover_field,
}
use acp_hub.Store.Transcript.{bind}
use acp_hub.Store.Discover.Rows.{
  IsPolicy, insert-All, find_session-All, find_session_lem, recompute_lem,
}

module _ {S : Type 0} (x : MetaJson S) where
  -- The origin after a discovery: it stays, but for a conversation that is new or was deleted.
  abbrev pub origin_after : Option (String × DiscoverRow) → ConvOrigin
  origin_after none = imported_list
  origin_after (some (id, c)) = if is_deleted x c.phase then imported_list else c.origin

  -- The conversation of a discovery: the one that was found, or a new one.
  abbrev pub id_after : String → Option (String × DiscoverRow) → String
  id_after fresh_id none = fresh_id
  id_after fresh_id (some (id, c)) = id

  -- What a discovery of a session on `s` gives.
  abbrev pub Outcome :
      String
      → String
      → Map String DiscoverRow
      → String
      → Option (String × DiscoverRow)
      → DiscoverUpsertResult
      → Map String DiscoverRow
      → Type 0
  Outcome agent session s fresh_id before result t =
      All IsPolicy t
      × (result.conv_id ≡ id_after fresh_id before)
      × ((c : DiscoverRow) × (get result.conv_id t ≡ some c)
          × ((other : String)
              → get other t ≡ (if result.conv_id == other then some c else get other s))
          × (c.agent_id ≡ agent)
          × (c.agent_session_id ≡ session)
          × (c.origin ≡ result.origin)
          × (c.interaction ≡ result.interaction))
      × (result.origin ≡ origin_after before)

  abbrev new_result : String → Bool → ConvOrigin → Interaction → DiscoverUpsertResult
  new_result id before origin interaction = record {
    conv_id = id;
    in_hub_before = before;
    origin = origin;
    interaction = interaction;
  }

  of_insert :
      (agent session : String) (before : Option (String × DiscoverRow))
      (mine result : DiscoverUpsertResult) (fresh_id id : String) (row : DiscoverRow)
      (s t : Map String DiscoverRow)
      → id ≡ id_after fresh_id before
      → mine.origin ≡ origin_after before
      → IsPolicy (id, row)
      → (row.agent_id ≡ agent) × (row.agent_session_id ≡ session)
      → mine.conv_id ≡ id
      → row.origin ≡ mine.origin
      → row.interaction ≡ mine.interaction
      → All IsPolicy s
      → (mine ≡ result) × (insert id row s ≡ t)
      → Outcome agent session s fresh_id before result t
  of_insert agent session before mine result fresh_id id row s t found kept policy keyed named o i
        valid (same, table) =
      let own = ==_refl id in
      let a = get-insert id id row s in
      let there : get mine.conv_id (insert id row s) ≡ some row =
        ap (λ k. get k (insert id row s)) named ∙ ground (arith, a, own) in
      let others : (other : String)
          → get other (insert id row s)
            ≡ (if mine.conv_id == other then some row else get other s) =
        λ other.
          get-insert id other row s
          ∙ ap (λ k. if k == other then some row else get other s) (sym named) in
      subst (λ r. Outcome agent session s fresh_id before r t) same
        (subst (Outcome agent session s fresh_id before mine) table (
          insert-All id row s policy valid,
          named ∙ found,
          (row, there, others, keyed.0, keyed.1, o, i),
          kept,
        ))

  new_lem :
      (agent session : String) (title cwd : Option String) (dirs : String) (meta : Option (Json S))
      (now fresh_id : String) (s t : Map String DiscoverRow) (result : DiscoverUpsertResult)
      → find_session agent session s ≡ none
      → upsert_agent_session_discover x agent session title cwd dirs meta now fresh_id s
        ≡ upserted result t
      → (new_result fresh_id false imported_list read_only ≡ result)
        × (insert fresh_id (imported x agent session title cwd dirs (meta_text x meta) now) s ≡ t)
  unfolding upsert_agent_session_discover
  new_lem agent session title cwd dirs meta now fresh_id s t result e h =
      (ground (arith, e, h), ground (arith, e, h))

  deleted_lem :
      (agent session : String) (title cwd : Option String) (dirs : String) (meta : Option (Json S))
      (now fresh_id : String) (s t : Map String DiscoverRow) (result : DiscoverUpsertResult)
      (id : String) (c : DiscoverRow)
      → find_session agent session s ≡ some (id, c)
      → is_deleted x c.phase ≡ true
      → upsert_agent_session_discover x agent session title cwd dirs meta now fresh_id s
        ≡ upserted result t
      → (new_result id false imported_list read_only ≡ result)
        × (insert id (revived x title cwd dirs (meta_text x meta) now c) s ≡ t)
  unfolding upsert_agent_session_discover
  deleted_lem agent session title cwd dirs meta now fresh_id s t result id c e gone h =
      (ground (arith, e, gone, h), ground (arith, e, gone, h))

  live_lem :
      (agent session : String) (title cwd : Option String) (dirs : String) (meta : Option (Json S))
      (now fresh_id : String) (s t : Map String DiscoverRow) (result : DiscoverUpsertResult)
      (id : String) (c : DiscoverRow) (merged : Option String)
      → find_session agent session s ≡ some (id, c)
      → is_deleted x c.phase ≡ false
      → merge_session_meta_json x c.session_meta meta ≡ some merged
      → upsert_agent_session_discover x agent session title cwd dirs meta now fresh_id s
        ≡ upserted result t
      → (new_result id true c.origin (recompute_interaction x c.origin (bind merged x.from_str))
          ≡ result)
        × (insert id
              (refreshed x
                (merge_discover_field c.origin c.title title)
                (merge_discover_field c.origin c.cwd cwd)
                dirs
                merged
                (recompute_interaction x c.origin (bind merged x.from_str))
                now
                c)
              s
            ≡ t)
  unfolding upsert_agent_session_discover
  live_lem agent session title cwd dirs meta now fresh_id s t result id c merged e live good h =
      (ground (arith, e, live, good, h), ground (arith, e, live, good, h))

  -- Where the conversations mirror their status and are read only if imported: a discovery that succeeds keeps
  -- this. It returns the id of the conversation that was found for the session, or the new id, and writes this
  -- conversation alone: it is there, for this session, with the origin and interaction returned, and every other
  -- one is as it was. The origin of the conversation is the one before; if it is new or was deleted, it is
  -- imported.
  pub upsert_agent_session_discover_lem :
      (agent session : String) (title cwd : Option String) (dirs : String) (meta : Option (Json S))
      (now fresh_id : String) (s t : Map String DiscoverRow) (result : DiscoverUpsertResult)
      → All IsPolicy s
      → upsert_agent_session_discover x agent session title cwd dirs meta now fresh_id s
        ≡ upserted result t
      → Outcome agent session s fresh_id (find_session agent session s) result t
  upsert_agent_session_discover_lem agent session title cwd dirs meta now fresh_id s t result valid
        h =
      elim (Option-cases (find_session agent session s)) [
        | inl e ↦
            let row = imported x agent session title cwd dirs (meta_text x meta) now in
            rw e (
              of_insert agent session none (new_result fresh_id false imported_list read_only)
                result fresh_id fresh_id row s t refl refl (refl, refl) (refl, refl) refl refl refl
                valid (new_lem agent session title cwd dirs meta now fresh_id s t result e h))
        | inr ((id, c), e) ↦ elim (Bool-cases (is_deleted x c.phase)) [
          | inl gone ↦
              let row = revived x title cwd dirs (meta_text x meta) now c in
              rw e (
                of_insert agent session (some (id, c)) (new_result id false imported_list read_only)
                  result fresh_id id row s t refl (ground (arith, gone)) (refl, refl)
                  (find_session_lem agent session s id c e) refl refl refl valid
                  (deleted_lem agent session title cwd dirs meta now fresh_id s t result id c e gone
                    h))
          | inr live ↦ elim (Option-cases (merge_session_meta_json x c.session_meta meta)) [
            | inl bad ↦
                absurd (unfold upsert_agent_session_discover in ground (arith, h, e, live, bad))
            | inr (merged, good) ↦
                let interaction = recompute_interaction x c.origin (bind merged x.from_str) in
                let row =
                  refreshed x (merge_discover_field c.origin c.title title)
                    (merge_discover_field c.origin c.cwd cwd) dirs merged interaction now c in
                let mirrored = find_session-All agent session s id c valid e in
                let policy = recompute_lem x c.origin (bind merged x.from_str) in
                rw e (
                  of_insert agent session (some (id, c)) (new_result id true c.origin interaction)
                    result fresh_id id row s t refl (ground (arith, live)) (mirrored, policy)
                    (find_session_lem agent session s id c e) refl refl refl valid
                    (live_lem agent session title cwd dirs meta now fresh_id s t result id c merged
                      e live good h))
          ]
        ]
      ]

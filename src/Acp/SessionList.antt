-- ===== src/Acp/SessionList.antt =====
-- The pages of `session/list`: crates/hub/src/acp/session_list.rs. The agent is `fetch`: what it answers to a
-- call may depend on the number of the call. `serde_json` writes a page in chunks, of which the lengths count.
pub mod Ids
pub mod Laws
use acp_hub.Base.{
  ℕ, suc, ◌+◌, ◌*◌, Bool, true, false, not, ◌||◌, List, [], ◌∷◌, ◌++◌, Option, none, some, String,
  if◌then◌else◌, ltb, eqb, length, saturating_add, ◌==◌, string_eq,
}

pub record SessionListLimits : Type 0 where
  pub pages : ℕ
  pub sessions : ℕ
  pub cursor_bytes : ℕ
  pub serialized_bytes : ℕ

abbrev pub default_limits : SessionListLimits
default_limits = record {
  pages = 256;
  sessions = 20000;
  cursor_bytes = 8 * 1024;
  serialized_bytes = 64 * 1024 * 1024;
}

-- An answer of the agent: a page and the next cursor, or an error.
pub data Fetched (I E : Type 0) : Type 0 where
  fetched : List I → Option String → Fetched I E
  fetch_failed : E → Fetched I E

pub data ListError (E : Type 0) : Type 0 where
  agent_error : E → ListError E
  serialize_failed : ListError E
  serialized_bytes_limit : ℕ → ListError E
  sessions_limit : ℕ → ListError E
  cursor_bytes_limit : ℕ → ListError E
  pages_limit : ℕ → ListError E
  repeated_cursor : String → ListError E

pub data Listed (I E : Type 0) : Type 0 where
  listed : List I → Listed I E
  list_failed : ListError E → Listed I E

-- What `serde_json::to_writer` writes: the lengths of its chunks, and whether it ends without an error of
-- its own.
pub record Written : Type 0 where
  pub chunks : List ℕ
  pub complete : Bool

-- `CanonicalByteCounter::write`, over the chunks: the count, or none where the limit is exceeded.
unfoldable pub write_chunks : ℕ → ℕ → List ℕ → Option ℕ
write_chunks limit bytes [] = some bytes
write_chunks limit bytes (n ∷ ns) =
    let rest = write_chunks limit (saturating_add bytes n) ns in
    if ltb limit (saturating_add bytes n) then none else rest

-- `HashSet::contains`.
unfoldable pub contains : String → List String → Bool
contains id [] = false
contains id (j ∷ js) = j == id || contains id js

pub data Charged (E : Type 0) : Type 0 where
  charged : ℕ → Charged E
  charge_failed : ListError E → Charged E

-- `charge_session_page`.
unfoldable pub charge_session_page : {E : Type 0} → Written → ℕ → ℕ → Charged E
unfolding write_chunks
charge_session_page written bytes limit = elim (write_chunks limit bytes written.chunks) [
  | none ↦ charge_failed (serialized_bytes_limit limit)
  | some bytes' ↦ if written.complete then charged bytes' else charge_failed serialize_failed
]

module _ {I : Type 0} (session_id : I → String) where
  -- The sessions of a page whose ids were not seen, and the ids seen after it.
  unfoldable pub add_sessions : List I → List String → List I → List I × List String
  unfolding contains
  add_sessions sessions seen [] = (sessions, seen)
  add_sessions sessions seen (a ∷ page) =
      let known = add_sessions sessions seen page in
      let fresh = add_sessions (sessions ++ (a ∷ [])) (session_id a ∷ seen) page in
      if contains (session_id a) seen then known else fresh

module _ {I E : Type 0} (session_id : I → String) (octets : String → ℕ)
    (written : List I → Option String → Written) (fetch : ℕ → Option String → Fetched I E)
    (limits : SessionListLimits) where
  -- The loop, with the pages that are left and the index of the page.
  unfoldable pub collect_loop :
      ℕ → ℕ → Option String → List String → List String → ℕ → ℕ → List I → Listed I E
  unfolding charge_session_page add_sessions contains
  collect_loop ℕ.zero index cursor seen_cursors seen_sessions received bytes sessions =
      list_failed (pages_limit limits.pages)
  collect_loop (suc left) index cursor seen_cursors seen_sessions received bytes sessions =
      elim (fetch index cursor) [
        | fetch_failed e ↦ list_failed (agent_error e)
        | fetched page next_cursor ↦
            elim (charge_session_page {E = E} (written page next_cursor) bytes
              limits.serialized_bytes) [
                | charge_failed e ↦ list_failed e
                | charged bytes' ↦
                    if ltb limits.sessions (saturating_add received (length page))
                    then list_failed (sessions_limit limits.sessions)
                    else elim next_cursor [
                      | none ↦ listed (add_sessions session_id sessions seen_sessions page).0
                      | some next ↦
                          let more =
                            collect_loop left (index + 1) (some next) (next ∷ seen_cursors)
                              (add_sessions session_id sessions seen_sessions page).1
                              (saturating_add received (length page)) bytes'
                              (add_sessions session_id sessions seen_sessions page).0 in
                          if ltb limits.cursor_bytes (octets next)
                          then list_failed (cursor_bytes_limit limits.cursor_bytes)
                          else if contains next seen_cursors
                          then list_failed (repeated_cursor next)
                          else if eqb (index + 1) limits.pages
                          then list_failed (pages_limit limits.pages)
                          else more
                    ]
              ]
      ]

  -- `collect_session_pages_with_limits`.
  unfoldable pub collect_session_pages_with_limits : Listed I E
  unfolding collect_loop
  collect_session_pages_with_limits = collect_loop limits.pages 0 none [] [] 0 0 []

-- ===== src/Tests/SessionList.antt =====
-- Two pages of sessions.
use acp_hub.Base.{
  ℕ, suc, ◌≤◌, ◌≡◌, refl, true, List, [], ◌∷◌, Option, none, some, String, length, All, arith,
}
use acp_hub.Acp.SessionList.{
  default_limits, Fetched, fetched, listed, Written, charge_session_page, write_chunks, contains,
  add_sessions, collect_loop, collect_session_pages_with_limits,
}
use acp_hub.Acp.SessionList.Ids.{concat, has_id, DistinctIds}
use acp_hub.Acp.SessionList.Laws.{Chain, collect_session_pages_lem}

abbrev id_of : String → String
id_of s = s

abbrev five : String → ℕ
five text = 5

abbrev in_one : List String → Option String → Written
in_one page next = record { chunks = 10 ∷ []; complete = true }

abbrev answer : ℕ → Option String → Fetched String ℕ
answer ℕ.zero cursor = fetched ("a" ∷ "b" ∷ "a" ∷ []) (some "x")
answer (suc n) cursor = fetched ("b" ∷ "c" ∷ []) none

two_pages :
    collect_session_pages_with_limits id_of five in_one answer default_limits
    ≡ listed ("a" ∷ "b" ∷ "c" ∷ [])
unfolding collect_session_pages_with_limits collect_loop charge_session_page write_chunks contains
    add_sessions
two_pages = refl

collect_session_pages_lem_example :
    (pages : List (List String)) × Chain id_of five in_one answer default_limits 0 none pages
    × (("a" ∷ "b" ∷ "c" ∷ []) ≡ (add_sessions id_of [] [] (concat pages)).0)
    × DistinctIds id_of ("a" ∷ "b" ∷ "c" ∷ [])
    × All (λ a. has_id id_of a ("a" ∷ "b" ∷ "c" ∷ []) ≡ true) (concat pages)
    × (length (concat pages) ≤ default_limits.sessions)
    × (length pages ≤ default_limits.pages)
collect_session_pages_lem_example =
    collect_session_pages_lem id_of five in_one answer default_limits ("a" ∷ "b" ∷ "c" ∷ [])
      (omega arith) two_pages

-- ===== src/Acp/SessionList/Laws.antt =====
-- What a session list holds: the sessions of the pages that the cursors lead to, each once.
use acp_hub.Base.{
  ℕ, suc, ◌+◌, ◌≤◌, ◌<◌, ◌≡◌, refl, ap, sym, subst, ◌∙◌, true, false, List, [], ◌∷◌, Option, none,
  some, String, ltb, eqb, length, length-append, saturating_add, string_eq, arith, All, Bool-cases,
  Option-cases, inl, inr, ◌⊎◌, append-nil, usize_max,
}
use acp_hub.Acp.SessionList.{
  SessionListLimits, Fetched, fetched, fetch_failed, listed, ListError, Written, contains, Charged,
  charged, charge_failed, charge_session_page, add_sessions, collect_loop,
  collect_session_pages_with_limits,
}
use acp_hub.Acp.SessionList.Ids.{
  concat, has_id, DistinctIds, add_sessions-append, add_sessions-IsSeen, add_sessions-All,
  nil-IsSeen,
}

module _ {I E : Type 0} (session_id : I → String) (octets : String → ℕ)
    (written : List I → Option String → Written) (fetch : ℕ → Option String → Fetched I E)
    (limits : SessionListLimits) where
  -- The pages that the agent answers, from a call on, following its cursors up to a page without one.
  abbrev pub Chain : ℕ → Option String → List (List I) → Type 0
  Chain index cursor [] = ⊥
  Chain index cursor (page ∷ []) = fetch index cursor ≡ fetched page none
  Chain index cursor (page ∷ q ∷ pages) =
      (next : String) × (fetch index cursor ≡ fetched page (some next))
      × Chain (index + 1) (some next) (q ∷ pages)

  fetch_cases :
      (f : Fetched I E)
      → ((page : List I) × (next : Option String) × (f ≡ fetched page next))
        ⊎ ((e : E) × (f ≡ fetch_failed e))
  fetch_cases (fetched page next) = inl (page, next, refl)
  fetch_cases (fetch_failed e) = inr (e, refl)

  charge_cases :
      (c : Charged E) → ((n : ℕ) × (c ≡ charged n)) ⊎ ((e : ListError E) × (c ≡ charge_failed e))
  charge_cases (charged n) = inl (n, refl)
  charge_cases (charge_failed e) = inr (e, refl)

  Chain-next :
      (index : ℕ) (cursor : Option String) (page : List I) (pages : List (List I)) (next : String)
      → fetch index cursor ≡ fetched page (some next)
      → Chain (index + 1) (some next) pages
      → Chain index cursor (page ∷ pages)
  Chain-next index cursor page [] next f c = absurd c
  Chain-next index cursor page (q ∷ pages) next f c = (next, f, c)

  -- The list after a page without a cursor.
  last_page :
      (left index : ℕ) (cursor : Option String) (seen_cursors seen_sessions : List String)
      (received bytes bytes' : ℕ) (sessions out page : List I) (next_cursor : Option String)
      → collect_loop session_id octets written fetch limits
          (suc left)
          index
          cursor
          seen_cursors
          seen_sessions
          received
          bytes
          sessions
        ≡ listed out
      → fetch index cursor ≡ fetched page next_cursor
      → charge_session_page {E = E} (written page next_cursor) bytes limits.serialized_bytes
        ≡ charged bytes'
      → ltb limits.sessions (saturating_add received (length page)) ≡ false
      → next_cursor ≡ none
      → (add_sessions session_id sessions seen_sessions page).0 ≡ out
  unfolding collect_loop
  last_page left index cursor seen_cursors seen_sessions received bytes bytes' sessions out page
        next_cursor h f g few final =
      ground (arith, h, f, g, few, final)

  -- The rest of the loop after a page with a cursor.
  next_page :
      (left index : ℕ) (cursor : Option String) (seen_cursors seen_sessions : List String)
      (received bytes bytes' : ℕ) (sessions out page : List I) (next_cursor : Option String)
      (next : String)
      → collect_loop session_id octets written fetch limits
          (suc left)
          index
          cursor
          seen_cursors
          seen_sessions
          received
          bytes
          sessions
        ≡ listed out
      → fetch index cursor ≡ fetched page next_cursor
      → charge_session_page {E = E} (written page next_cursor) bytes limits.serialized_bytes
        ≡ charged bytes'
      → ltb limits.sessions (saturating_add received (length page)) ≡ false
      → next_cursor ≡ some next
      → collect_loop session_id octets written fetch limits left
          (index + 1)
          (some next)
          (next ∷ seen_cursors)
          (add_sessions session_id sessions seen_sessions page).1
          (saturating_add received (length page))
          bytes'
          (add_sessions session_id sessions seen_sessions page).0
        ≡ listed out
  unfolding collect_loop
  next_page left index cursor seen_cursors seen_sessions received bytes bytes' sessions out page
        next_cursor next h f g few more =
      elim (Bool-cases (ltb limits.cursor_bytes (octets next))) [
        | inl long ↦ absurd (ground (arith, h, f, g, few, more, long))
        | inr short ↦ elim (Bool-cases (contains next seen_cursors)) [
          | inl known ↦ absurd (ground (arith, h, f, g, few, more, short, known))
          | inr fresh ↦ elim (Bool-cases (eqb (index + 1) limits.pages)) [
            | inl over ↦ absurd (ground (arith, h, f, g, few, more, short, fresh, over))
            | inr under ↦ ground (arith, h, f, g, few, more, short, fresh, under)
          ]
        ]
      ]

  -- Where the loop ends with a list.
  collect_loop-Chain :
      (left index : ℕ) (cursor : Option String) (seen_cursors seen_sessions : List String)
      (received bytes : ℕ) (sessions out : List I)
      → limits.sessions < usize_max
      → collect_loop session_id octets written fetch limits left index cursor seen_cursors
          seen_sessions received bytes sessions
        ≡ listed out
      → (pages : List (List I)) × Chain index cursor pages
        × (out ≡ (add_sessions session_id sessions seen_sessions (concat pages)).0)
        × (received + length (concat pages) ≤ limits.sessions)
        × (length pages ≤ left)
  unfolding collect_loop
  collect_loop-Chain ℕ.zero index cursor seen_cursors seen_sessions received bytes sessions out
        small h =
      absurd (ground (arith, h))
  collect_loop-Chain (suc left) index cursor seen_cursors seen_sessions received bytes sessions out
        small h =
      elim (fetch_cases (fetch index cursor)) [
        | inr (e, f) ↦ absurd (ground (arith, h, f))
        | inl (page, next_cursor, f) ↦
            elim (charge_cases
              (charge_session_page (written page next_cursor) bytes limits.serialized_bytes)) [
                | inr (e, g) ↦ absurd (ground (arith, h, f, g))
                | inl (bytes', g) ↦
                    elim (Bool-cases
                      (ltb limits.sessions (saturating_add received (length page)))) [
                        | inl many ↦ absurd (ground (arith, h, f, g, many))
                        | inr few ↦ elim (Option-cases next_cursor) [
                          | inl final ↦
                              let one = append-nil page in
                              let sizes = ap length one in
                              (
                                page ∷ [],
                                f ∙ ap (fetched page) final,
                                sym (
                                      last_page left index cursor seen_cursors seen_sessions
                                        received bytes bytes' sessions out page next_cursor h f g
                                        few final)
                                    ∙ ap
                                        (λ ms.
                                          (add_sessions session_id sessions seen_sessions ms).0)
                                        (sym one),
                                ground (arith, few, small, sizes),
                                omega arith,
                              )
                          | inr (next, more) ↦
                              let added = add_sessions session_id sessions seen_sessions page in
                              let count : saturating_add received (length page)
                                  ≡ received + length page =
                                ground (arith, few, small) in
                              let (pages, chain, e, total, few_pages) =
                                collect_loop-Chain left (index + 1) (some next)
                                  (next ∷ seen_cursors) added.1
                                  (saturating_add received (length page)) bytes' added.0 out small
                                  (next_page left index cursor seen_cursors seen_sessions received
                                    bytes bytes' sessions out page next_cursor next h f g few
                                    more) in
                              let sizes = length-append page (concat pages) in
                              (
                                page ∷ pages,
                                Chain-next index cursor page pages next (f ∙ ap (fetched page) more)
                                    chain,
                                e
                                    ∙ ap (λ state. state.0)
                                        (sym (
                                          add_sessions-append session_id sessions seen_sessions page
                                            (concat pages))),
                                omega (arith, total, sizes, count),
                                omega (arith, few_pages),
                              )
                        ]
                      ]
              ]
      ]

  -- With a limit of sessions below the largest `usize`: what a session list returns are the sessions of the
  -- pages that the cursors of the agent lead to, up to the page without a cursor, the first one of each id.
  -- The ids are distinct, each session of a page is there by its id, and the limits on pages and sessions hold.
  pub collect_session_pages_lem :
      (out : List I)
      → limits.sessions < usize_max
      → collect_session_pages_with_limits session_id octets written fetch limits ≡ listed out
      → (pages : List (List I)) × Chain 0 none pages
        × (out ≡ (add_sessions session_id [] [] (concat pages)).0)
        × DistinctIds session_id out
        × All (λ a. has_id session_id (session_id a) out ≡ true) (concat pages)
        × (length (concat pages) ≤ limits.sessions)
        × (length pages ≤ limits.pages)
  unfolding collect_session_pages_with_limits
  collect_session_pages_lem out small h =
      let (pages, chain, e, total, few) =
        collect_loop-Chain limits.pages 0 none [] [] 0 0 [] out small h in
      let start = nil-IsSeen session_id in
      let seen = add_sessions-IsSeen session_id [] [] (concat pages) start in
      (
        pages,
        chain,
        e,
        subst (DistinctIds session_id) (sym e) seen.distinct,
        subst (λ l. All (λ a. has_id session_id (session_id a) l ≡ true) (concat pages)) (sym e)
            (add_sessions-All session_id [] [] (concat pages) start),
        omega (arith, total),
        few,
      )

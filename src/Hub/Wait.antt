-- ===== src/Hub/Wait.antt =====
-- How a wait reads the new rows of a run: `CoreHub::page_run_rows` of crates/hub/src/hub/wait.rs, from a
-- store that does not change meanwhile. `page_all_run_messages` is the same loop over the client.
pub mod Laws
use acp_hub.Base.{
  ℕ, ℤ, pos, max_int, Bool, true, false, List, [], ◌∷◌, ◌++◌, Option, none, some, String,
}
use acp_hub.Flow.Json.{Bytes}
use acp_hub.Store.Messages.{MessageRow}
use acp_hub.Store.Cursor.{CursorCrypto}
use acp_hub.Store.Paging.{
  Scope, MessagePage, PageError, page, failed, Projection, messages_page_query,
}
use acp_hub.Store.Paging.Continue.{query, run_scope}

pub data RunRows : Type 0 where
  run_rows : List MessageRow → RunRows
  page_failed : PageError → RunRows
  out_of_fuel : RunRows

-- `seq = seq.max(row.seq)`, over the rows of a page.
unfoldable pub highest : ℤ → List MessageRow → ℤ
highest seq [] = seq
highest seq (m ∷ ms) = highest (max_int seq (pos m.seq)) ms

module _ (x : CursorCrypto) (octets : String → ℕ) where
  -- The loop: both the cursor and the sequence number move on.
  unfoldable pub page_loop : ℕ → Scope → Option Bytes → ℤ → List MessageRow → Projection → RunRows
  unfolding messages_page_query highest
  page_loop ℕ.zero scope cursor seq out s = out_of_fuel
  page_loop (ℕ.suc fuel) scope cursor seq out s =
      elim (messages_page_query x octets (query scope (some seq) 200 cursor) s) [
        | failed e ↦ page_failed e
        | page pg ↦ elim pg.next_cursor [
          | none ↦ run_rows (out ++ pg.items)
          | some next ↦ page_loop fuel scope (some next) (highest seq pg.items) (out ++ pg.items) s
        ]
      ]

  unfoldable pub page_run_rows : ℕ → String → String → ℤ → Projection → RunRows
  unfolding page_loop
  page_run_rows fuel conv_id run_id after_seq s =
      page_loop fuel (run_scope conv_id run_id) none after_seq [] s

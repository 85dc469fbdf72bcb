-- ===== src/Lib.antt =====
-- Verification library of acp-hub, a hub between clients and agents that speak the Agent Client
-- Protocol. It models parts of the crate crates/hub, and what crates/cli prints after a turn.
--
-- The parts and how they interact. An agent is reached over a physical leg (standard input and output, or
-- HTTP with server-sent events). What arrives is read in bounded lines (`read_bounded_line`) or decoded
-- from events (`SseDecoder`), under a partial reservation; a complete message is admitted to the ledger of
-- the leg (`FlowBudget::track`) and stays there until the hub has acknowledged or answered it. The engine
-- reserves conversations, sessions and replay locks while it works on them, and keeps conversations and
-- runs in the tables of the store.
--
-- Flow follows crates/hub/src/bounded_transport: Flow.Budget is `FlowBudget` of flow.rs, one function per
-- method, with the calls on it as `Call`, `step` and `run`; Flow.Json and Flow.Identity are the identities
-- of messages; Flow.Control is `complete_outbound_response`; Flow.Partial, Flow.Transfer and Flow.Line are
-- the partial reservations and the line reader; Flow.Sse is the decoder of wire.rs. The limits are the source's: 4096
-- frames, 8 requests, 32 MiB outstanding and 32 MiB for a frame.
--
-- Store follows crates/hub/src/store.rs and crates/hub/src/store: Store.Policy is conversation_policy.rs
-- and the persisted statuses; Store.Lifecycle and its children are the writes of lifecycle.rs, one function
-- per method, over maps for the tables `conversations` and `runs`.
--
-- Store.Messages, Store.Cursor and Store.Paging are the table `messages`, its pages (paging.rs) and their
-- signed cursors (store.rs). Store.Replay is replay.rs: the begin and rollback of a replay, with its commit
-- (Store.Replay.Commit), recovery (Store.Replay.Recovery) and staging (Store.Replay.Stage). Store.Transcript is
-- transcript_view.rs: the merge of rows into items, the texts (Store.Transcript.Bodies), the compact texts for people
-- (Store.Transcript.Compact) and what `conv show`
-- filters (Store.Transcript.Filters).
--
-- Store.Discover is `upsert_agent_session_discover` of lifecycle.rs, with the session meta and interaction of
-- conversation_policy.rs.
--
-- Cli.Send is the page loop `emit_new_message_pages` of crates/cli/src/commands.rs with what
-- `emit_merged_send_view` prints, through the merge of Store.Transcript and the lines of Cli.Lines (output.rs).
-- Hub.Wait is `page_run_rows` of crates/hub/src/hub/wait.rs. Both are clients of Store.Paging, through the pages
-- that Store.Paging.Continue describes, from a store that does not change between two pages.
--
-- Hub follows crates/hub/src/hub/state.rs: Hub.Operations, Hub.Sessions and Hub.ReplayLocks are the leases and
-- guards with their `Drop`, and Hub.Runtime is the runtime cache of crates/hub/src/runtime.rs with its run leases,
-- whose acquisition is two steps, one for each lock. Hub.Progress is the stage accounting of
-- crates/hub/src/progress.rs, with the readings of the clock as arguments.
--
-- Acp.SessionList is crates/hub/src/acp/session_list.rs: the pages of `session/list`, within their limits. The
-- fuel of its loop is the limit on pages, as in the source.
--
-- Base holds what they share: Boolean tests, classes of equality, lists and maps. Tests has concrete runs.
--
-- Conventions. A lock or a transaction makes its body one step, so concurrency is the order of the
-- steps. Machine integers are natural numbers with the source's saturation written out. Most
-- loops are recursive on their input. The loops over pages recurse on fuel: more fuel than there are rows, or
-- two pages, is shown to be enough. The outer loop of a transcript has the number of rows as fuel, and the
-- prefixes of a line its length. What other crates do is a parameter: SHA-256, the JSON parser and serializers,
-- base64 and the HMAC of a cursor (`CursorCrypto`), the identifiers of the protocol crate (`Externals`), and
-- UTF-8 validation. `Uuid::new_v4` and `Arc` give
-- a number that was not given before.
--
-- Not modelled: network, process and file I/O, the daemon and its RPC, the registry, the rest of the command line
-- and the MCP server, which call the parts above; the
-- orchestration of prompts, which is a separate component; the text index, but for the title of a conversation;
-- `begin_agent_session_import`, which begins the replay of a conversation together with its import.
mod Base
pub mod Acp
pub mod Flow
pub mod Store
pub mod Hub
pub mod Cli
mod Tests

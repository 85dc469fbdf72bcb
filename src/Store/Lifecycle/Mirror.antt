-- ===== src/Store/Lifecycle/Mirror.antt =====
-- The status of a conversation against its phase, its business and its last outcome, under the operations of
-- crates/hub/src/store/lifecycle.rs that a `Call` stands for. The rollback of a load (Store/Replay.antt) writes the
-- status of its before image alone, and is not among them.
use acp_hub.Base.{
  ◌≡◌, refl, subst, sym, Bool, true, false, not, Option, String, ◌==◌, string_eq, Map, get,
  contains_key, arith, All, Bool-cases, Option-cases, inl, inr, ◌||◌,
}
use acp_hub.Store.Policy.{
  ConvOrigin, Interaction, ConvPhase, ConvBusy, LastOutcome, RunStatus, ConvStatus, open_phase,
  deleted_phase, busy_running, busy_cancelling, not_busy, no_outcome, outcome_failed, running,
  cancelling, completed, cancelled, failed, is_busy, mirror_status, ConvStatus, idle, conv_running,
  conv_cancelling, conv_completed, conv_failed, conv_cancelled, closed, deleted,
}
use acp_hub.Store.Lifecycle.{
  ConversationRow, Store, create_run, finalize_run_cas, finalized_fields, has_active_run,
  is_running, is_active,
}
use acp_hub.Store.Lifecycle.Restart.{recover_interrupted_runs, recovered_conversation}
use acp_hub.Store.Lifecycle.Cancel.{
  request_run_cancel_cas, rollback_run_cancel_request_cas, transition_run_cancel_state, CancelState,
  to_running, has_status, has_busy, busy_state, conv_state, to_cancelling,
}
use acp_hub.Store.Lifecycle.Conversations.{
  set_conversation_lifecycle, set_conv_status, close_conversation_local, delete_conversation,
  hard_delete_conversation, touch_conversation, promote_conversation_bind, create_conversation,
  Call, promoted, stored_busy, has_session, creates_conversation, sets_lifecycle, sets_status,
  closes_local, deletes, hard_deletes, touches, promotes, creates_run, finalizes_run,
  requests_cancel, rolls_back_cancel, recovers, step,
}
use acp_hub.Store.Lifecycle.Tables.{insert-All, remove-All, update-All, map_rows-All}

abbrev pub Mirrors : ConversationRow → Type 0
Mirrors c = c.status ≡ mirror_status c.phase c.busy c.last_outcome

abbrev pub IsMirrored : Store → Type 0
IsMirrored s = All (λ entry. Mirrors entry.1) s.conversations

finalized-Mirrors : (status : RunStatus) (c : ConversationRow) → Mirrors (finalized_fields status c)
unfolding finalized_fields mirror_status
finalized-Mirrors running c = refl
finalized-Mirrors cancelling c = refl
finalized-Mirrors completed c = refl
finalized-Mirrors cancelled c = refl
finalized-Mirrors failed c = refl

mirror_failed : mirror_status open_phase not_busy outcome_failed ≡ conv_failed
unfolding mirror_status
mirror_failed = refl

recovered-Mirrors :
    (now : String) (c : ConversationRow) → Mirrors c → Mirrors (recovered_conversation now c)
unfolding recovered_conversation
recovered-Mirrors now c h = ground (arith, mirror_failed)

-- The table that an operation leaves, as an equation.
becomes :
    {table : Map String ConversationRow} (s : Store)
    → s.conversations ≡ table
    → All (λ entry. Mirrors entry.1) table
    → IsMirrored s
becomes s e h = subst (All (λ entry. Mirrors entry.1)) (sym e) h

mirror_open :
    (last : LastOutcome) (c : ConversationRow)
    → (mirror_status open_phase busy_running last ≡ conv_running)
      × (mirror_status open_phase busy_cancelling last ≡ conv_cancelling)
      × (mirror_status deleted_phase not_busy last ≡ deleted)
unfolding mirror_status
mirror_open last c = (refl, refl, refl)

create_run-IsMirrored :
    (run_id conv_id now : String) (s : Store)
    → IsMirrored s
    → IsMirrored (create_run run_id conv_id now s).0
unfolding create_run
create_run-IsMirrored run_id conv_id now s h = elim (Option-cases (get conv_id s.conversations)) [
  | inl e ↦ becomes (create_run run_id conv_id now s).0 (ground (arith, e)) h
  | inr (c, e) ↦
      elim (Bool-cases
        (has_active_run conv_id s.runs || is_busy c.busy || contains_key run_id s.runs)) [
          | inl refused ↦ becomes (create_run run_id conv_id now s).0 (ground (arith, e, refused)) h
          | inr accepted ↦
              becomes (create_run run_id conv_id now s).0 (ground (arith, e, accepted)) (
                insert-All Mirrors conv_id
                  (record c {
                    busy = busy_running;
                    phase = open_phase;
                    status = conv_running;
                    updated_at = now;
                  })
                  s.conversations (sym (mirror_open c.last_outcome c).0) h)
        ]
]

finalize_run_cas-IsMirrored :
    (run_id conv_id : String) (status : RunStatus) (reason : Option String) (now : String)
    (s : Store)
    → IsMirrored s
    → IsMirrored (finalize_run_cas run_id conv_id status reason now s).0
unfolding finalize_run_cas
finalize_run_cas-IsMirrored run_id conv_id status reason now s h =
    elim (Option-cases (get run_id s.runs)) [
      | inl e ↦
          becomes (finalize_run_cas run_id conv_id status reason now s).0 (ground (arith, e)) h
      | inr (r, e) ↦
          elim (Bool-cases
            (is_running status || not (r.conv_id == conv_id) || not (is_active r.status))) [
              | inl refused ↦
                  becomes (finalize_run_cas run_id conv_id status reason now s).0
                    (ground (arith, e, refused)) h
              | inr accepted ↦
                  becomes (finalize_run_cas run_id conv_id status reason now s).0
                    (ground (arith, e, accepted))
                    (update-All Mirrors conv_id
                      (λ c. record (finalized_fields status c) { updated_at = now }) s.conversations
                      (λ c _. finalized-Mirrors status c) h)
            ]
    ]

transition-Mirrors :
    (to : CancelState) (c : ConversationRow)
    → conv_state to ≡ mirror_status open_phase (busy_state to) c.last_outcome
unfolding conv_state busy_state mirror_status
transition-Mirrors to_running c = refl
transition-Mirrors to_cancelling c = refl

transition-IsMirrored :
    (run_id conv_id : String) (from to : CancelState) (now : String) (s : Store)
    → IsMirrored s
    → IsMirrored (transition_run_cancel_state run_id conv_id from to now s).0
unfolding transition_run_cancel_state
transition-IsMirrored run_id conv_id from to now s h = elim (Option-cases (get run_id s.runs)) [
  | inl e ↦
      becomes (transition_run_cancel_state run_id conv_id from to now s).0 (ground (arith, e)) h
  | inr (r, e) ↦ elim (Option-cases (get conv_id s.conversations)) [
    | inl e' ↦
        becomes (transition_run_cancel_state run_id conv_id from to now s).0 (ground (arith, e, e'))
          h
    | inr (c, e') ↦
        elim (Bool-cases (
          not (r.conv_id == conv_id)
          || not (has_status from r.status)
          || not (has_busy from c.busy))) [
            | inl refused ↦
                becomes (transition_run_cancel_state run_id conv_id from to now s).0
                  (ground (arith, e, e', refused)) h
            | inr accepted ↦
                becomes (transition_run_cancel_state run_id conv_id from to now s).0
                  (ground (arith, e, e', accepted))
                  (insert-All Mirrors conv_id
                    (record c {
                      busy = busy_state to;
                      status = conv_state to;
                      phase = open_phase;
                      updated_at = now;
                    })
                    s.conversations (transition-Mirrors to c) h)
          ]
  ]
]

set_lifecycle-IsMirrored :
    (id : String) (phase : ConvPhase) (busy : ConvBusy) (last : LastOutcome) (now : String)
    (s : Store)
    → IsMirrored s
    → IsMirrored (set_conversation_lifecycle id phase busy last now s)
unfolding set_conversation_lifecycle
set_lifecycle-IsMirrored id phase busy last now s h =
    update-All Mirrors id _ s.conversations (λ c _. refl) h

set_conv_status-IsMirrored :
    (id : String) (status : ConvStatus) (now : String) (s : Store)
    → IsMirrored s
    → IsMirrored (set_conv_status id status now s)
unfolding set_conv_status
set_conv_status-IsMirrored id closed now s h =
    update-All Mirrors id _ s.conversations (λ c _. refl) h
set_conv_status-IsMirrored id conv_running now s h = set_lifecycle-IsMirrored id _ _ _ now s h
set_conv_status-IsMirrored id conv_cancelling now s h = set_lifecycle-IsMirrored id _ _ _ now s h
set_conv_status-IsMirrored id conv_completed now s h = set_lifecycle-IsMirrored id _ _ _ now s h
set_conv_status-IsMirrored id conv_failed now s h = set_lifecycle-IsMirrored id _ _ _ now s h
set_conv_status-IsMirrored id conv_cancelled now s h = set_lifecycle-IsMirrored id _ _ _ now s h
set_conv_status-IsMirrored id deleted now s h = set_lifecycle-IsMirrored id _ _ _ now s h
set_conv_status-IsMirrored id idle now s h = set_lifecycle-IsMirrored id _ _ _ now s h

close_local-IsMirrored :
    (id : String) (was_busy : Bool) (now : String) (s : Store)
    → IsMirrored s
    → IsMirrored (close_conversation_local id was_busy now s)
unfolding close_conversation_local
close_local-IsMirrored id true now s h = update-All Mirrors id _ s.conversations (λ c _. refl) h
close_local-IsMirrored id false now s h = update-All Mirrors id _ s.conversations (λ c _. refl) h

delete-IsMirrored :
    (id now : String) (s : Store) → IsMirrored s → IsMirrored (delete_conversation id now s).0
unfolding delete_conversation
delete-IsMirrored id now s h =
    elim (Bool-cases (has_active_run id s.runs || stored_busy (get id s.conversations))) [
      | inl refused ↦ becomes (delete_conversation id now s).0 (ground (arith, refused)) h
      | inr accepted ↦ becomes (delete_conversation id now s).0 (ground (arith, accepted)) (
          update-All Mirrors id
            (λ c. record c {
              phase = deleted_phase;
              busy = not_busy;
              status = deleted;
              updated_at = now;
            })
            s.conversations (λ c _. sym (mirror_open c.last_outcome c).2) h)
    ]

promote-IsMirrored :
    (id : String) (interaction_of : ConvOrigin → Interaction) (now : String) (s : Store)
    → IsMirrored s
    → IsMirrored (promote_conversation_bind id interaction_of now s).0
unfolding promote_conversation_bind
promote-IsMirrored id interaction_of now s h = elim (Option-cases (get id s.conversations)) [
  | inl e ↦ becomes (promote_conversation_bind id interaction_of now s).0 (ground (arith, e)) h
  | inr (c, e) ↦ becomes (promote_conversation_bind id interaction_of now s).0 (ground (arith, e)) (
      insert-All Mirrors id
        (record c {
          origin = promoted c.origin;
          interaction = interaction_of (promoted c.origin);
          phase = open_phase;
          status = mirror_status open_phase c.busy c.last_outcome;
          updated_at = now;
        })
        s.conversations refl h)
]

create-IsMirrored :
    (id agent_id session_id : String) (origin : ConvOrigin) (interaction : Interaction)
    (now : String) (s : Store)
    → IsMirrored s
    → IsMirrored (create_conversation id agent_id session_id origin interaction now s).0
unfolding create_conversation
create-IsMirrored id agent_id session_id origin interaction now s h =
    elim (Bool-cases
      (contains_key id s.conversations || has_session agent_id session_id s.conversations)) [
        | inl refused ↦
            becomes (create_conversation id agent_id session_id origin interaction now s).0
              (ground (arith, refused)) h
        | inr accepted ↦
            becomes (create_conversation id agent_id session_id origin interaction now s).0
              (ground (arith, accepted))
              (insert-All Mirrors id
                (record {
                  agent_id = agent_id;
                  agent_session_id = session_id;
                  status = mirror_status open_phase not_busy no_outcome;
                  updated_at = now;
                  origin = origin;
                  interaction = interaction;
                  phase = open_phase;
                  busy = not_busy;
                  last_outcome = no_outcome;
                })
                s.conversations refl h)
      ]

-- If the status of every conversation is the one that its phase, business and last outcome stand for, it is so
-- after each of the thirteen operations of a `Call`, whether it succeeds or fails: creation, a lifecycle or a
-- status that is set, local close, both deletions, touch, promotion, the creation and the finalization of a run,
-- a cancellation and its rollback, and the recovery of runs. Other writers of the column are not among them.
pub step-IsMirrored :
    (now : String) (s : Store) (c : Call) → IsMirrored s → IsMirrored (step now s c)
unfolding step
step-IsMirrored now s (creates_conversation id agent_id session_id origin interaction) h =
    create-IsMirrored id agent_id session_id origin interaction now s h
step-IsMirrored now s (sets_lifecycle id phase busy last) h =
    set_lifecycle-IsMirrored id phase busy last now s h
step-IsMirrored now s (sets_status id status) h = set_conv_status-IsMirrored id status now s h
step-IsMirrored now s (closes_local id was_busy) h = close_local-IsMirrored id was_busy now s h
step-IsMirrored now s (deletes id) h = delete-IsMirrored id now s h
step-IsMirrored now s (hard_deletes id) h =
    unfold hard_delete_conversation in remove-All Mirrors id s.conversations h
step-IsMirrored now s (touches id) h =
    unfold touch_conversation in update-All Mirrors id _ s.conversations (λ c m. m) h
step-IsMirrored now s (promotes id interaction_of) h = promote-IsMirrored id interaction_of now s h
step-IsMirrored now s (creates_run run_id conv_id) h = create_run-IsMirrored run_id conv_id now s h
step-IsMirrored now s (finalizes_run run_id conv_id status reason) h =
    finalize_run_cas-IsMirrored run_id conv_id status reason now s h
step-IsMirrored now s (requests_cancel run_id conv_id) h =
    unfold request_run_cancel_cas in
    transition-IsMirrored run_id conv_id to_running to_cancelling now s h
step-IsMirrored now s (rolls_back_cancel run_id conv_id) h =
    unfold rollback_run_cancel_request_cas in
    transition-IsMirrored run_id conv_id to_cancelling to_running now s h
step-IsMirrored now s recovers h =
    unfold recover_interrupted_runs in
    map_rows-All Mirrors (recovered_conversation now) s.conversations (recovered-Mirrors now) h

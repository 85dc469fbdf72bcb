-- ===== src/Store/Lifecycle/Runs.antt =====
-- The operations on runs keep runs and conversations in agreement.
use acp_hub.Base.{
  ◌≡◌, ◌≢◌, refl, ap, subst, sym, ◌∙◌, true, false, not, Option, none, some, String, ◌==◌, ==_iff,
  string_eq, get, contains_key, arith, Bool-cases, Option-cases, inl, inr, ◌||◌,
}
use acp_hub.Store.Policy.{
  RunStatus, running, cancelling, completed, cancelled, failed, busy_running, conv_running,
  open_phase, is_busy, is_terminal,
}
use acp_hub.Store.Lifecycle.{
  ConversationRow, RunRow, Store, is_active, has_active_run, create_run, finalize_run_cas,
  finalized_fields, is_running, ended_time, update_conversation,
}
use acp_hub.Store.Lifecycle.Cancel.{
  transition_run_cancel_state, CancelState, to_running, to_cancelling, run_state, busy_state,
  conv_state, has_status, has_busy,
}
use acp_hub.Store.Lifecycle.Coherence.{
  IsCoherent, busy_of, has_active_run-false, written-IsCoherent,
}

same_store : {s t : Store} → t ≡ s → IsCoherent s → IsCoherent t
same_store e v = subst IsCoherent (sym e) v

same_entry : {o : Option RunRow} {r t : RunRow} → o ≡ some t → o ≡ some r → t ≡ r
same_entry h e = ground arith

-- No other run than an active one is active in its conversation.
alone_with :
    (s : Store) (run_id : String) {r : RunRow}
    → IsCoherent s
    → get run_id s.runs ≡ some r
    → is_active r.status ≡ true
    → (i : String) (t : RunRow) → run_id ≢ i
    → get i s.runs ≡ some t
    → is_active t.status ≡ true
    → t.conv_id ≢ r.conv_id
alone_with s run_id {r} v h a i t n e b same = n (v.exclusive run_id i r t h e a b (sym same))

pub create_run-IsCoherent :
    (run_id conv_id now : String) (s : Store)
    → IsCoherent s
    → IsCoherent (create_run run_id conv_id now s).0
unfolding create_run
create_run-IsCoherent run_id conv_id now s v = elim (Option-cases (get conv_id s.conversations)) [
  | inl e ↦ same_store (ground (arith, e)) v
  | inr (c, e) ↦
      elim (Bool-cases
        (has_active_run conv_id s.runs || is_busy c.busy || contains_key run_id s.runs)) [
          | inl refused ↦ same_store (ground (arith, e, refused)) v
          | inr accepted ↦
              let quiet : has_active_run conv_id s.runs ≡ false = ground (arith, accepted) in
              let fresh : get run_id s.runs ≡ none = ground (arith, accepted) in
              let new : RunRow = record {
                conv_id = conv_id;
                status = running;
                stop_reason = none;
                started_at = now;
                ended_at = none;
              } in
              let busy : ConversationRow = record c {
                busy = busy_running;
                phase = open_phase;
                status = conv_running;
                updated_at = now;
              } in
              subst IsCoherent (ground (arith, e, accepted)) (
                written-IsCoherent s v run_id conv_id new c busy refl e
                  (λ i t _ h a. has_active_run-false conv_id s.runs quiet i t h a)
                  (λ t h. absurd (ground (arith, h, fresh))) (λ _. refl)
                  (λ _. unfold is_active is_terminal in refl))
        ]
]

finalized-linked :
    (status : RunStatus) (c : ConversationRow)
    → ((finalized_fields status c).busy ≡ busy_of status)
      × (is_busy (finalized_fields status c).busy ≡ true → is_active status ≡ true)
unfolding finalized_fields is_busy is_active is_terminal
finalized-linked running c = (refl, λ _. refl)
finalized-linked cancelling c = (refl, λ _. refl)
finalized-linked completed c = (refl, λ h. h)
finalized-linked cancelled c = (refl, λ h. h)
finalized-linked failed c = (refl, λ h. h)

pub finalize_run_cas-IsCoherent :
    (run_id conv_id : String) (status : RunStatus) (reason : Option String) (now : String)
    (s : Store)
    → IsCoherent s
    → IsCoherent (finalize_run_cas run_id conv_id status reason now s).0
unfolding finalize_run_cas
finalize_run_cas-IsCoherent run_id conv_id status reason now s v =
    elim (Option-cases (get run_id s.runs)) [
      | inl e ↦ same_store (ground (arith, e)) v
      | inr (r, e) ↦
          elim (Bool-cases
            (is_running status || not (r.conv_id == conv_id) || not (is_active r.status))) [
              | inl refused ↦ same_store (ground (arith, e, refused)) v
              | inr accepted ↦
                  let active : is_active r.status ≡ true = ground (arith, accepted) in
                  let same : r.conv_id ≡ conv_id =
                    (==_iff r.conv_id conv_id).0 (ground (arith, accepted)) in
                  let (c, there, _) = v.busy_as_run run_id r e in
                  let there' = subst (λ k. get k s.conversations ≡ some c) same there in
                  subst IsCoherent
                    (unfold update_conversation in ground (arith, e, accepted, there'))
                    (written-IsCoherent s v run_id conv_id
                      (record r {
                        status = status;
                        stop_reason = reason;
                        ended_at = ended_time status now;
                      })
                      c (record (finalized_fields status c) { updated_at = now }) same there'
                      (λ i t n h a.
                        subst (λ k. t.conv_id ≢ k) same (alone_with s run_id v e active i t n h a))
                      (λ t h. ap (λ (x : RunRow). x.conv_id) (same_entry h e) ∙ same)
                      (λ _. (finalized-linked status c).0) (finalized-linked status c).1)
            ]
    ]

state-linked :
    (to : CancelState)
    → (busy_state to ≡ busy_of (run_state to)) × (is_active (run_state to) ≡ true)
unfolding busy_state run_state is_active is_terminal
state-linked to_running = (refl, refl)
state-linked to_cancelling = (refl, refl)

pub has_status_lem :
    (from : CancelState) (status : RunStatus)
    → has_status from status ≡ true
    → (status ≡ run_state from) × (is_active status ≡ true) × (busy_of status ≡ busy_state from)
unfolding has_status run_state is_active is_terminal busy_state
has_status_lem from status h = ground arith

pub has_busy_lem : (from : CancelState) → has_busy from (busy_state from) ≡ true
unfolding has_busy busy_state
has_busy_lem to_running = refl
has_busy_lem to_cancelling = refl

pub transition-IsCoherent :
    (run_id conv_id : String) (from to : CancelState) (now : String) (s : Store)
    → IsCoherent s
    → IsCoherent (transition_run_cancel_state run_id conv_id from to now s).0
unfolding transition_run_cancel_state
transition-IsCoherent run_id conv_id from to now s v = elim (Option-cases (get run_id s.runs)) [
  | inl e ↦ same_store (ground (arith, e)) v
  | inr (r, e) ↦ elim (Option-cases (get conv_id s.conversations)) [
    | inl e' ↦ same_store (ground (arith, e, e')) v
    | inr (c, e') ↦
        elim (Bool-cases (
          not (r.conv_id == conv_id)
          || not (has_status from r.status)
          || not (has_busy from c.busy))) [
            | inl refused ↦ same_store (ground (arith, e, e', refused)) v
            | inr accepted ↦
                let (_, active, _) = has_status_lem from r.status (ground (arith, accepted)) in
                let same : r.conv_id ≡ conv_id =
                  (==_iff r.conv_id conv_id).0 (ground (arith, accepted)) in
                subst IsCoherent (ground (arith, e, e', accepted)) (
                  written-IsCoherent s v run_id conv_id
                    (record r { status = run_state to; stop_reason = none; ended_at = none }) c
                    (record c {
                      busy = busy_state to;
                      status = conv_state to;
                      phase = open_phase;
                      updated_at = now;
                    })
                    same e'
                    (λ i t n h a.
                      subst (λ k. t.conv_id ≢ k) same (alone_with s run_id v e active i t n h a))
                    (λ t h. ap (λ (x : RunRow). x.conv_id) (same_entry h e) ∙ same)
                    (λ _. (state-linked to).0) (λ _. (state-linked to).1))
          ]
  ]
]

-- ===== src/Store/Lifecycle/Laws.antt =====
-- What the operations on runs promise together.
use acp_hub.Base.{
  ◌≡◌, refl, subst, sym, ◌∙◌, true, false, Option, none, some, String, ==_refl, string_eq, Map, get,
  contains_key, arith, Bool-cases, inl, inr, ◌⊎◌,
}
use acp_hub.Store.Policy.{RunStatus, running, is_busy}
use acp_hub.Store.Lifecycle.{
  ConversationRow, RunRow, Store, ok, err, is_active, has_active_run, create_run, finalize_run_cas,
  conversation_busy,
}
use acp_hub.Store.Lifecycle.Restart.{recover_interrupted_runs}
use acp_hub.Store.Lifecycle.Cancel.{
  transition_run_cancel_state, request_run_cancel_cas, rollback_run_cancel_request_cas, CancelState,
  to_running, to_cancelling, has_status, has_busy,
}
use acp_hub.Store.Lifecycle.Conversations.{
  Call, creates_run, finalizes_run, requests_cancel, rolls_back_cancel, recovers, step,
}
use acp_hub.Store.Lifecycle.Coherence.{IsCoherent, has_active_run-false, get-insert_self}
use acp_hub.Store.Lifecycle.Runs.{
  create_run-IsCoherent, finalize_run_cas-IsCoherent, transition-IsCoherent, has_status_lem,
  has_busy_lem,
}
use acp_hub.Store.Lifecycle.Recovery.{recover-IsCoherent, recover-inactive, recover-idle}

-- The operations that write a run.
pub data IsRunCall : Call → Type 0 where
  creating : (run_id conv_id : String) → IsRunCall (creates_run run_id conv_id)
  finalizing :
      (run_id conv_id : String) (status : RunStatus) (reason : Option String)
      → IsRunCall (finalizes_run run_id conv_id status reason)
  requesting : (run_id conv_id : String) → IsRunCall (requests_cancel run_id conv_id)
  rolling_back : (run_id conv_id : String) → IsRunCall (rolls_back_cancel run_id conv_id)
  recovering : IsRunCall recovers

-- Creating, finalizing, cancelling and recovering runs, whether they succeed or fail, keep a coherent store
-- coherent: a conversation has at most one active run, is as busy as that run, and is not busy without one.
pub step-IsCoherent :
    (now : String) (s : Store) {c : Call} → IsRunCall c → IsCoherent s → IsCoherent (step now s c)
unfolding step
step-IsCoherent now s (creating run_id conv_id) v = create_run-IsCoherent run_id conv_id now s v
step-IsCoherent now s (finalizing run_id conv_id status reason) v =
    finalize_run_cas-IsCoherent run_id conv_id status reason now s v
step-IsCoherent now s (requesting run_id conv_id) v =
    unfold request_run_cancel_cas in
    transition-IsCoherent run_id conv_id to_running to_cancelling now s v
step-IsCoherent now s (rolling_back run_id conv_id) v =
    unfold rollback_run_cancel_request_cas in
    transition-IsCoherent run_id conv_id to_cancelling to_running now s v
step-IsCoherent now s recovering v = recover-IsCoherent now s v

transition_result :
    (from to : CancelState) (run_id now : String) (s : Store) (r : RunRow)
    → IsCoherent s
    → get run_id s.runs ≡ some r
    → (transition_run_cancel_state run_id r.conv_id from to now s).1 ≡ ok (has_status from r.status)
unfolding transition_run_cancel_state
transition_result from to run_id now s r v h =
    let (c, there, link) = v.busy_as_run run_id r h in
    elim (Bool-cases (has_status from r.status)) [
      | inr other ↦ ground (arith, h, there, other, ==_refl r.conv_id)
      | inl same ↦
          let (_, active, busy) = has_status_lem from r.status same in
          let now_busy : has_busy from c.busy ≡ true =
            subst (λ b. has_busy from b ≡ true) (sym (link active ∙ busy)) (has_busy_lem from) in
          ground (arith, h, there, same, now_busy, ==_refl r.conv_id)
    ]

-- On a coherent store, a cancellation request and its rollback for a run of their conversation never find
-- that the conversation has lost the run's state: the request applies exactly to running runs, and the
-- rollback exactly to cancelling ones.
pub cancel_results :
    (run_id now : String) (s : Store) (r : RunRow)
    → IsCoherent s
    → get run_id s.runs ≡ some r
    → ((request_run_cancel_cas run_id r.conv_id now s).1 ≡ ok (has_status to_running r.status))
      × ((rollback_run_cancel_request_cas run_id r.conv_id now s).1
          ≡ ok (has_status to_cancelling r.status))
cancel_results run_id now s r v h = (
  unfold request_run_cancel_cas in transition_result to_running to_cancelling run_id now s r v h,
  unfold rollback_run_cancel_request_cas in
      transition_result to_cancelling to_running run_id now s r v h,
)

-- A run that is not active is in no state that a cancellation starts from.
inactive_lem :
    (from : CancelState) (status : RunStatus)
    → is_active status ≡ false
    → has_status from status ≡ false
inactive_lem from status a = elim (Bool-cases (has_status from status)) [
  | inl same ↦ let (_, active, _) = has_status_lem from status same in cc
  | inr other ↦ other
]

transition_final :
    (from to : CancelState) (run_id conv_id now : String) (s : Store) (r : RunRow)
    → get run_id s.runs ≡ some r
    → is_active r.status ≡ false
    → (transition_run_cancel_state run_id conv_id from to now s).0 ≡ s
unfolding transition_run_cancel_state
transition_final from to run_id conv_id now s r h a =
    let other = inactive_lem from r.status a in ground (arith, h, other)

-- A terminal run is final: neither a finalization nor a cancellation request nor its rollback changes
-- anything in the store.
pub terminal_final :
    (run_id conv_id : String) (status : RunStatus) (reason : Option String) (now : String)
    (s : Store) (r : RunRow)
    → get run_id s.runs ≡ some r
    → is_active r.status ≡ false
    → ((finalize_run_cas run_id conv_id status reason now s).0 ≡ s)
      × ((request_run_cancel_cas run_id conv_id now s).0 ≡ s)
      × ((rollback_run_cancel_request_cas run_id conv_id now s).0 ≡ s)
terminal_final run_id conv_id status reason now s r h a = (
  unfold finalize_run_cas in ground (arith, h, a),
  unfold request_run_cancel_cas in
      transition_final to_running to_cancelling run_id conv_id now s r h a,
  unfold rollback_run_cancel_request_cas in
      transition_final to_cancelling to_running run_id conv_id now s r h a,
)

has_active_run-true :
    (conv : String) (runs : Map String RunRow) (i : String) (r : RunRow)
    → get i runs ≡ some r
    → is_active r.status ≡ true
    → r.conv_id ≡ conv
    → has_active_run conv runs ≡ true
has_active_run-true conv runs i r h a e = elim (Bool-cases (has_active_run conv runs)) [
  | inl active ↦ active
  | inr inactive ↦ absurd (has_active_run-false conv runs inactive i r h a e)
]

idle_conversation :
    (conv_id : String) (s : Store) (c : ConversationRow)
    → IsCoherent s
    → get conv_id s.conversations ≡ some c
    → has_active_run conv_id s.runs ≡ false
    → is_busy c.busy ≡ false
idle_conversation conv_id s c v h none_active = elim (Bool-cases (is_busy c.busy)) [
  | inl busy ↦
      let (i, r, hr, e, a) = v.run_of_busy conv_id c h busy in
      absurd (has_active_run-false conv_id s.runs none_active i r hr a e)
  | inr free ↦ free
]

abbrev started : String → String → RunRow
started conv_id now = record {
  conv_id = conv_id;
  status = running;
  stop_reason = none;
  started_at = now;
  ended_at = none;
}

created :
    (run_id conv_id now : String) (s : Store) (c : ConversationRow)
    → get conv_id s.conversations ≡ some c
    → has_active_run conv_id s.runs ≡ false
    → is_busy c.busy ≡ false
    → contains_key run_id s.runs ≡ false
    → get run_id (create_run run_id conv_id now s).0.runs ≡ some (started conv_id now)
unfolding create_run
created run_id conv_id now s c h inactive free fresh =
    ground (arith, h, inactive, free, fresh, get-insert_self run_id (started conv_id now) s.runs)

-- On a coherent store, a run with a new id in a conversation that is there is created exactly when the
-- conversation has no active run, and is running then; otherwise the answer is that the conversation is
-- busy, and the store is unchanged.
pub create_run_lem :
    (run_id conv_id now : String) (s : Store) (c : ConversationRow)
    → IsCoherent s
    → get conv_id s.conversations ≡ some c
    → contains_key run_id s.runs ≡ false
    → ((has_active_run conv_id s.runs ≡ true)
        × (create_run run_id conv_id now s ≡ (s, err (conversation_busy conv_id "running"))))
      ⊎ ((has_active_run conv_id s.runs ≡ false)
          × ((create_run run_id conv_id now s).1 ≡ ok tt)
          × (has_active_run conv_id (create_run run_id conv_id now s).0.runs ≡ true))
unfolding is_active
create_run_lem run_id conv_id now s c v h fresh =
    elim (Bool-cases (has_active_run conv_id s.runs)) [
      | inl active ↦ inl (active, unfold create_run in ground (arith, active))
      | inr inactive ↦
          let free = idle_conversation conv_id s c v h inactive in
          inr (
            inactive,
            unfold create_run in ground (arith, inactive, h, free, fresh),
            has_active_run-true conv_id (create_run run_id conv_id now s).0.runs run_id
                (started conv_id now) (created run_id conv_id now s c h inactive free fresh) refl
                refl,
          )
    ]

-- After a recovery no run is active and no conversation is busy.
pub recover_lem :
    (now : String) (s : Store)
    → ((i : String) (r : RunRow)
        → get i (recover_interrupted_runs now s).0.runs ≡ some r
        → is_active r.status ≡ false)
      × ((k : String) (c : ConversationRow)
          → get k (recover_interrupted_runs now s).0.conversations ≡ some c
          → is_busy c.busy ≡ false)
recover_lem now s = (recover-inactive now s, recover-idle now s)

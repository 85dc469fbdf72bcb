-- ===== src/Store/Lifecycle/Finalize.antt =====
-- A run is finalized once.
use acp_hub.Base.{
  ==_iff, subst, sym, refl, ◌≡◌, true, false, Option, some, String, string_eq, get, arith, inl, inr,
  Option-cases,
}
use acp_hub.Store.Policy.{RunStatus}
use acp_hub.Store.Lifecycle.{RunRow, Store, ok, is_active, is_running, ended_time, finalize_run_cas}
use acp_hub.Store.Lifecycle.Coherence.{get-insert_self}

finalized_run :
    (run_id conv_id : String) (status : RunStatus) (reason : Option String) (now : String)
    (s : Store)
    → (finalize_run_cas run_id conv_id status reason now s).1 ≡ ok true
    → (r : RunRow) × (get run_id (finalize_run_cas run_id conv_id status reason now s).0.runs
        ≡ some r)
      × (r.status ≡ status)
      × (r.stop_reason ≡ reason)
      × (r.conv_id ≡ conv_id)
unfolding finalize_run_cas
finalized_run run_id conv_id status reason now s h = elim (Option-cases (get run_id s.runs)) [
  | inl absent ↦ absurd (ground (arith, h, absent))
  | inr (r, there) ↦
      let r' : RunRow = record r {
        status = status;
        stop_reason = reason;
        ended_at = ended_time status now;
      } in
      (
        r',
        ground (arith, h, there, get-insert_self run_id r' s.runs),
        refl,
        refl,
        ground (arith, h, there, ==_iff r.conv_id conv_id),
      )
]

again :
    (run_id conv_id : String) (status : RunStatus) (reason : Option String) (now : String)
    (s : Store) (r : RunRow)
    → get run_id s.runs ≡ some r
    → r.conv_id ≡ conv_id
    → is_active r.status ≡ false
    → is_running status ≡ false
    → finalize_run_cas run_id conv_id status reason now s ≡ (s, ok false)
unfolding finalize_run_cas
again run_id conv_id status reason now s r there own over e =
    ground (arith, there, over, e, ==_iff r.conv_id conv_id, own)

-- The first finalization of a run with a terminal status wins: the run has its status and its reason, and
-- every later finalization of the run, with any status but running, is not applied and changes
-- nothing.
pub finalize_once :
    (run_id conv_id : String) (status : RunStatus) (reason : Option String) (now : String)
    (s : Store)
    → is_active status ≡ false
    → (finalize_run_cas run_id conv_id status reason now s).1 ≡ ok true
    → let after = (finalize_run_cas run_id conv_id status reason now s).0 in
      ((r : RunRow) × (get run_id after.runs ≡ some r)
        × (r.status ≡ status)
        × (r.stop_reason ≡ reason))
      × ((other : RunStatus) (why : Option String) (later : String)
          → is_running other ≡ false
          → finalize_run_cas run_id conv_id other why later after ≡ (after, ok false))
finalize_once run_id conv_id status reason now s terminal h =
    let (r, there, same, because, own) = finalized_run run_id conv_id status reason now s h in
    let after = (finalize_run_cas run_id conv_id status reason now s).0 in
    let over : is_active r.status ≡ false = subst (λ t. is_active t ≡ false) (sym same) terminal in
    (
      (r, there, same, because),
      λ other why later e. again run_id conv_id other why later after r there own over e,
    )

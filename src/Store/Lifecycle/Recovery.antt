-- ===== src/Store/Lifecycle/Recovery.antt =====
-- `recover_interrupted_runs`: what an unclean exit of the daemon leaves is resolved at the next start.
use mathlib.Core.Bool.{false≢true}
use acp_hub.Base.{
  ◌≡◌, refl, ap, subst, sym, ◌∙◌, true, false, [], ◌∷◌, none, some, String, ◌==◌, string_eq, Map,
  get, arith, Bool-cases, Option-cases, inl, inr,
}
use acp_hub.Store.Policy.{is_busy, is_terminal}
use acp_hub.Store.Lifecycle.{ConversationRow, RunRow, Store, is_active}
use acp_hub.Store.Lifecycle.Restart.{
  recover_interrupted_runs, map_rows, recovered_run, recovered_conversation,
}
use acp_hub.Store.Lifecycle.Coherence.{IsCoherent, busy_of}

get-map_rows :
    {R : Type 0} (change : R → R) (k : String) (table : Map String R)
    → get k (map_rows change table) ≡ elim (get k table) [ none ↦ none | some r ↦ some (change r) ]
unfolding get map_rows
get-map_rows change k [] = refl
get-map_rows change k ((j, r) ∷ table) = elim (Bool-cases (j == k)) [
  | inl same ↦ rw same refl
  | inr other ↦ rw other (get-map_rows change k table)
]

recovered_run-inactive :
    (now : String) (r : RunRow) → is_active (recovered_run now r).status ≡ false
unfolding recovered_run is_active is_terminal
recovered_run-inactive now r = ground arith

recovered_run-conv : (now : String) (r : RunRow) → (recovered_run now r).conv_id ≡ r.conv_id
unfolding recovered_run
recovered_run-conv now r = ground arith

recovered_conversation-idle :
    (now : String) (c : ConversationRow) → is_busy (recovered_conversation now c).busy ≡ false
unfolding recovered_conversation is_busy
recovered_conversation-idle now c = ground arith

-- An entry after a recovery, and the entry that it was.
get-recovered :
    {R : Type 0} (change : R → R) (k : String) (table : Map String R) {r : R}
    → get k (map_rows change table) ≡ some r
    → (q : R) × (get k table ≡ some q) × (change q ≡ r)
get-recovered change k table h = elim (Option-cases (get k table)) [
  | inl e ↦ absurd (ground (arith, e, get-map_rows change k table))
  | inr (q, e) ↦ (q, e, ground (arith, e, get-map_rows change k table))
]

pub recover-inactive :
    (now : String) (s : Store) (i : String) (r : RunRow)
    → get i (recover_interrupted_runs now s).0.runs ≡ some r
    → is_active r.status ≡ false
unfolding recover_interrupted_runs
recover-inactive now s i r h =
    let (q, _, e) = get-recovered (recovered_run now) i s.runs h in
    subst (λ (x : RunRow). is_active x.status ≡ false) e (recovered_run-inactive now q)

pub recover-idle :
    (now : String) (s : Store) (k : String) (c : ConversationRow)
    → get k (recover_interrupted_runs now s).0.conversations ≡ some c
    → is_busy c.busy ≡ false
unfolding recover_interrupted_runs
recover-idle now s k c h =
    let (d, _, e) = get-recovered (recovered_conversation now) k s.conversations h in
    subst (λ (x : ConversationRow). is_busy x.busy ≡ false) e (recovered_conversation-idle now d)

recover-busy_as_run :
    (now : String) (s : Store)
    → IsCoherent s
    → (i : String) (r : RunRow) → get i (recover_interrupted_runs now s).0.runs ≡ some r
    → (c : ConversationRow) × (get r.conv_id (recover_interrupted_runs now s).0.conversations
        ≡ some c)
      × (is_active r.status ≡ true → c.busy ≡ busy_of r.status)
unfolding recover_interrupted_runs
recover-busy_as_run now s v i r h =
    let (q, old, e) = get-recovered (recovered_run now) i s.runs h in
    let (c, there, _) = v.busy_as_run i q old in
    let same : q.conv_id ≡ r.conv_id =
      sym (recovered_run-conv now q) ∙ ap (λ (x : RunRow). x.conv_id) e in
    (
      recovered_conversation now c,
      ground (
        arith,
        get-map_rows (recovered_conversation now) r.conv_id s.conversations,
        subst (λ k. get k s.conversations ≡ some c) same there,
      ),
      λ a. absurd (false≢true (sym (recover-inactive now s i r h) ∙ a)),
    )

pub recover-IsCoherent :
    (now : String) (s : Store) → IsCoherent s → IsCoherent (recover_interrupted_runs now s).0
recover-IsCoherent now s v = record {
  exclusive = λ i j r t h k a b e. absurd (false≢true (sym (recover-inactive now s i r h) ∙ a));
  busy_as_run = recover-busy_as_run now s v;
  run_of_busy = λ k c h b. absurd (false≢true (sym (recover-idle now s k c h) ∙ b));
}

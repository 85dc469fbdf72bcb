-- ===== src/Store/Lifecycle/Coherence.antt =====
-- Runs and the business of their conversations agree, as long as only the operations on runs write them.
use acp_hub.Base.{
  ◌≡◌, ◌≢◌, refl, ap, subst, sym, ◌∙◌, true, false, [], ◌∷◌, some, String, ◌==◌, ==_iff, ==_refl,
  string_eq, Map, get, insert, get-insert, arith, Bool-cases, inl, inr, ◌⊎◌,
}
use acp_hub.Store.Policy.{
  RunStatus, ConvBusy, running, cancelling, completed, cancelled, failed, busy_running,
  busy_cancelling, not_busy, is_busy,
}
use acp_hub.Store.Lifecycle.{ConversationRow, RunRow, Store, is_active, has_active_run}

-- The business of a conversation whose active run has this status.
abbrev pub busy_of : RunStatus → ConvBusy
busy_of running = busy_running
busy_of cancelling = busy_cancelling
busy_of completed = not_busy
busy_of cancelled = not_busy
busy_of failed = not_busy

pub record IsCoherent (s : Store) : Type 0 where
  -- Of the runs of a conversation at most one is active.
  pub exclusive :
      (i j : String) (r t : RunRow)
      → get i s.runs ≡ some r
      → get j s.runs ≡ some t
      → is_active r.status ≡ true
      → is_active t.status ≡ true
      → r.conv_id ≡ t.conv_id
      → i ≡ j
  -- The conversation of a run is there, and as busy as its active run.
  pub busy_as_run :
      (i : String) (r : RunRow)
      → get i s.runs ≡ some r
      → (c : ConversationRow) × (get r.conv_id s.conversations ≡ some c)
        × (is_active r.status ≡ true → c.busy ≡ busy_of r.status)
  -- A busy conversation has an active run.
  pub run_of_busy :
      (k : String) (c : ConversationRow)
      → get k s.conversations ≡ some c
      → is_busy c.busy ≡ true
      → (i : String) × (r : RunRow) × (get i s.runs ≡ some r)
        × (r.conv_id ≡ k)
        × (is_active r.status ≡ true)

pub has_active_run-false :
    (conv : String) (runs : Map String RunRow)
    → has_active_run conv runs ≡ false
    → (i : String) (r : RunRow) → get i runs ≡ some r
    → is_active r.status ≡ true
    → r.conv_id ≢ conv
unfolding has_active_run get
has_active_run-false conv [] h i r e a = cc
has_active_run-false conv ((j, t) ∷ runs) h i r e a = elim (Bool-cases (j == i)) [
  | inl same ↦ λ k. ground (arith, same, k, ==_iff t.conv_id conv)
  | inr other ↦ has_active_run-false conv runs (ground arith) i r (ground (arith, other)) a
]

-- The entry of a key after an insertion.
get_cases :
    {V : Type 0} (k j : String) (v : V) (m : Map String V) {w : V}
    → get j (insert k v m) ≡ some w
    → ((k ≡ j) × (v ≡ w)) ⊎ ((k ≢ j) × (get j m ≡ some w))
get_cases k j v m h = elim (Bool-cases (k == j)) [
  | inl same ↦ inl ((==_iff k j).0 same, ground (arith, same, get-insert k j v m))
  | inr other ↦ inr (λ e. cc (other, (==_iff k j).1 e), ground (arith, other, get-insert k j v m))
]

pub get-insert_self :
    {V : Type 0} (k : String) (v : V) (m : Map String V) → get k (insert k v m) ≡ some v
get-insert_self k v m = rw (get-insert, ==_refl) refl

pub get-insert_other :
    {V : Type 0} (k j : String) (v : V) (m : Map String V) → k ≢ j → get j (insert k v m) ≡ get j m
get-insert_other k j v m h = ground (arith, get-insert k j v m, ==_iff k j)

-- A run and its conversation are written together, and no other run of the conversation is active.
module _ (s : Store) (v : IsCoherent s) (run_id conv_id : String) (r : RunRow)
    (c c' : ConversationRow) (of_conv : r.conv_id ≡ conv_id)
    (there : get conv_id s.conversations ≡ some c)
    (alone : (i : String) (t : RunRow)
      → run_id ≢ i
      → get i s.runs ≡ some t
      → is_active t.status ≡ true
      → t.conv_id ≢ conv_id)
    (before : (t : RunRow) → get run_id s.runs ≡ some t → t.conv_id ≡ conv_id)
    (linked : is_active r.status ≡ true → c'.busy ≡ busy_of r.status)
    (linked_back : is_busy c'.busy ≡ true → is_active r.status ≡ true) where
  abbrev written : Store
  written = record s {
    runs = insert run_id r s.runs;
    conversations = insert conv_id c' s.conversations;
  }

  written-exclusive :
      (i j : String) (t u : RunRow)
      → get i written.runs ≡ some t
      → get j written.runs ≡ some u
      → is_active t.status ≡ true
      → is_active u.status ≡ true
      → t.conv_id ≡ u.conv_id
      → i ≡ j
  written-exclusive i j t u ht hu at au e = elim (get_cases run_id i r s.runs ht) [
    | inl (ei, et) ↦ elim (get_cases run_id j r s.runs hu) [
      | inl (ej, eu) ↦ sym ei ∙ ej
      | inr (nj, old) ↦
          absurd (alone j u nj old au (sym e ∙ ap (λ (x : RunRow). x.conv_id) (sym et) ∙ of_conv))
    ]
    | inr (ni, old) ↦ elim (get_cases run_id j r s.runs hu) [
      | inl (ej, eu) ↦
          absurd (alone i t ni old at (e ∙ ap (λ (x : RunRow). x.conv_id) (sym eu) ∙ of_conv))
      | inr (nj, old') ↦ v.exclusive i j t u old old' at au e
    ]
  ]

  written-busy_as_run :
      (i : String) (t : RunRow)
      → get i written.runs ≡ some t
      → (d : ConversationRow) × (get t.conv_id written.conversations ≡ some d)
        × (is_active t.status ≡ true → d.busy ≡ busy_of t.status)
  written-busy_as_run i t h = elim (get_cases run_id i r s.runs h) [
    | inl (ei, et) ↦ (
      c',
      rw (← et, of_conv) (get-insert_self conv_id c' s.conversations),
      subst (λ (x : RunRow). is_active x.status ≡ true → c'.busy ≡ busy_of x.status) et linked,
    )
    | inr (ni, old) ↦ elim (Bool-cases (conv_id == t.conv_id)) [
      | inl same ↦
          let e = (==_iff conv_id t.conv_id).0 same in
          (
            c',
            subst (λ k. get k written.conversations ≡ some c') e
                (get-insert_self conv_id c' s.conversations),
            λ a. absurd (alone i t ni old a (sym e)),
          )
      | inr other ↦
          let n : conv_id ≢ t.conv_id = λ e. cc (other, (==_iff conv_id t.conv_id).1 e) in
          let (d, hd, link) = v.busy_as_run i t old in
          (d, get-insert_other conv_id t.conv_id c' s.conversations n ∙ hd, link)
    ]
  ]

  written-run_of_busy :
      (k : String) (d : ConversationRow)
      → get k written.conversations ≡ some d
      → is_busy d.busy ≡ true
      → (i : String) × (t : RunRow) × (get i written.runs ≡ some t)
        × (t.conv_id ≡ k)
        × (is_active t.status ≡ true)
  written-run_of_busy k d h b = elim (get_cases conv_id k c' s.conversations h) [
    | inl (ek, ed) ↦ (
      run_id,
      r,
      get-insert_self run_id r s.runs,
      of_conv ∙ ek,
      linked_back (subst (λ (x : ConversationRow). is_busy x.busy ≡ true) (sym ed) b),
    )
    | inr (nk, old) ↦
        let (i, t, ht, e, a) = v.run_of_busy k d old b in
        let n : run_id ≢ i =
          λ same. nk (sym (before t (subst (λ q. get q s.runs ≡ some t) (sym same) ht)) ∙ e) in
        (i, t, get-insert_other run_id i r s.runs n ∙ ht, e, a)
  ]

  pub written-IsCoherent : IsCoherent written
  written-IsCoherent = record {
    exclusive = written-exclusive;
    busy_as_run = written-busy_as_run;
    run_of_busy = written-run_of_busy;
  }

-- ===== src/Hub/Operations/Prompts.antt =====
-- One prompt of an agent at a time.
use acp_hub.Base.{
  ℕ, ◌≡◌, ◌≢◌, sym, ◌∙◌, ap, subst, true, false, ◌&&◌, List, [], ◌∷◌, some, String, ◌==◌, ==_iff,
  string_eq, nat_eq, Map, get, insert, contains_key, get-insert, get-remove, arith, Bool-cases, inl,
  inr, ◌⊎◌,
}
use acp_hub.Hub.Operations.{
  OperationKind, OperationEntry, Operations, is_prompt, has_prompt, enter, reserve_operation,
  reserve_external_run, release_operation, Call, reserves, reserves_external, releases, step, run,
  external_run,
}

-- Two prompts of one agent are the same operation.
pub record IsSinglePrompt (s : Operations) : Type 0 where
  pub single :
      (i j : String) (a b : OperationEntry)
      → get i s.entries ≡ some a
      → get j s.entries ≡ some b
      → is_prompt a.kind ≡ true
      → is_prompt b.kind ≡ true
      → a.agent_id ≡ b.agent_id
      → i ≡ j

has_prompt-false :
    (agent : String) (entries : Map String OperationEntry)
    → has_prompt agent entries ≡ false
    → (i : String) (a : OperationEntry) → get i entries ≡ some a
    → is_prompt a.kind ≡ true
    → a.agent_id ≢ agent
unfolding has_prompt get
has_prompt-false agent [] h i a e p = cc
has_prompt-false agent ((j, b) ∷ entries) h i a e p = elim (Bool-cases (j == i)) [
  | inl same ↦ λ k. ground (arith, same, k, ==_iff b.agent_id agent)
  | inr other ↦ has_prompt-false agent entries (ground arith) i a (ground (arith, other)) p
]

-- The entry of a key after an insertion.
get_cases :
    (k j : String) (v : OperationEntry) (m : Map String OperationEntry) {w : OperationEntry}
    → get j (insert k v m) ≡ some w
    → ((k ≡ j) × (v ≡ w)) ⊎ (get j m ≡ some w)
get_cases k j v m h = elim (Bool-cases (k == j)) [
  | inl same ↦ inl ((==_iff k j).0 same, ground (arith, same, get-insert k j v m))
  | inr other ↦ inr (ground (arith, other, get-insert k j v m))
]

enter-IsSinglePrompt :
    (conv_id agent_id : String) (kind : OperationKind) (s : Operations)
    → (is_prompt kind ≡ true → has_prompt agent_id s.entries ≡ false)
    → IsSinglePrompt s
    → IsSinglePrompt (enter conv_id agent_id kind s)
unfolding enter
enter-IsSinglePrompt conv_id agent_id kind s alone v =
    let new : OperationEntry = record { token = s.next; agent_id = agent_id; kind = kind } in
    record {
      single = λ i j a b ha hb pa pb e. elim (get_cases conv_id i new s.entries ha) [
        | inl (ei, ea) ↦ elim (get_cases conv_id j new s.entries hb) [
          | inl (ej, eb) ↦ sym ei ∙ ej
          | inr old ↦ absurd (
              has_prompt-false agent_id s.entries
                (alone (subst (λ (x : OperationEntry). is_prompt x.kind ≡ true) (sym ea) pa)) j b
                old pb (sym e ∙ ap (λ (x : OperationEntry). x.agent_id) (sym ea)))
        ]
        | inr old ↦ elim (get_cases conv_id j new s.entries hb) [
          | inl (ej, eb) ↦ absurd (
              has_prompt-false agent_id s.entries
                (alone (subst (λ (x : OperationEntry). is_prompt x.kind ≡ true) (sym eb) pb)) i a
                old pa (e ∙ ap (λ (x : OperationEntry). x.agent_id) (sym eb)))
          | inr old' ↦ v.single i j a b old old' pa pb e
        ]
      ];
    }

still :
    (conv_id : String) (token : ℕ) (s : Operations) (i : String) (a : OperationEntry)
    → get i (release_operation conv_id token s).entries ≡ some a
    → get i s.entries ≡ some a
unfolding release_operation
still conv_id token s i a h = ground (arith, h, get-remove conv_id i s.entries, ==_iff conv_id i)

release-IsSinglePrompt :
    (conv_id : String) (token : ℕ) (s : Operations)
    → IsSinglePrompt s
    → IsSinglePrompt (release_operation conv_id token s)
release-IsSinglePrompt conv_id token s v = record {
  single = λ i j a b ha hb pa pb e.
      v.single i j a b (still conv_id token s i a ha) (still conv_id token s j b hb) pa pb e;
}

reserve-IsSinglePrompt :
    (conv_id agent_id : String) (kind : OperationKind) (s : Operations)
    → IsSinglePrompt s
    → IsSinglePrompt (reserve_operation conv_id agent_id kind s).0
unfolding reserve_operation
reserve-IsSinglePrompt conv_id agent_id kind s v =
    elim (Bool-cases (contains_key conv_id s.entries)) [
      | inl taken ↦ rw taken v
      | inr free ↦ elim (Bool-cases (is_prompt kind && has_prompt agent_id s.entries)) [
        | inl second ↦ rw (free, second) v
        | inr alone ↦
            rw (free, alone)
              (enter-IsSinglePrompt conv_id agent_id kind s (λ p. ground (arith, p, alone)) v)
      ]
    ]

external-IsSinglePrompt :
    (conv_id agent_id run_id : String) (s : Operations)
    → IsSinglePrompt s
    → IsSinglePrompt (reserve_external_run conv_id agent_id run_id s).0
unfolding reserve_external_run is_prompt
external-IsSinglePrompt conv_id agent_id run_id s v =
    elim (Bool-cases (contains_key conv_id s.entries)) [
      | inl taken ↦ rw taken v
      | inr free ↦
          rw free (enter-IsSinglePrompt conv_id agent_id (external_run run_id) s (λ p. cc) v)
    ]

step-IsSinglePrompt : (s : Operations) (c : Call) → IsSinglePrompt s → IsSinglePrompt (step s c)
unfolding step
step-IsSinglePrompt s (reserves conv_id agent_id kind) v =
    reserve-IsSinglePrompt conv_id agent_id kind s v
step-IsSinglePrompt s (reserves_external conv_id agent_id run_id) v =
    external-IsSinglePrompt conv_id agent_id run_id s v
step-IsSinglePrompt s (releases conv_id token) v = release-IsSinglePrompt conv_id token s v

-- Whatever is reserved and released, in any order, an agent that had at most one prompt among the
-- operations of all its conversations has at most one afterwards.
pub run-IsSinglePrompt :
    (s : Operations) (calls : List Call) → IsSinglePrompt s → IsSinglePrompt (run s calls)
unfolding run
run-IsSinglePrompt s [] v = v
run-IsSinglePrompt s (c ∷ calls) v = run-IsSinglePrompt (step s c) calls (step-IsSinglePrompt s c v)

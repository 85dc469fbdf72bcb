-- ===== src/Flow/Budget/Acknowledge.antt =====
-- Which frame an acknowledgement releases.
use acp_hub.Base.{
  ℕ, zero, suc, ◌≡◌, ◌≢◌, refl, ap, true, false, List, [], ◌∷◌, ◌++◌, Option, none, some, arith,
  ◌==◌, ==_iff, list_eq, nat_eq, inl, inr, Bool-cases, ◌⊎◌, All, All-map,
}
use acp_hub.Flow.Json.{Bytes, Json}
use acp_hub.Flow.Identity.{Externals, Reply, notification_identity, response_identity}
use acp_hub.Flow.Budget.{
  PhysicalFrame, FlowBudget, ok, err, min_match, remove_at, take_match, release,
  acknowledge_notification, acknowledge_response, key_le, no_reservation,
}

-- `f` is no larger than `g`, if `g` has the identity that is looked for.
abbrev pub BeforeMatch : Bytes → PhysicalFrame → PhysicalFrame → Type 0
BeforeMatch identity f g = g.identity ≡ identity → key_le f g ≡ true

-- `f` is the least frame of `fs` with this identity, and `rest` are the others, in their order.
pub record IsLeastMatch (identity : Bytes) (fs : List PhysicalFrame) (f : PhysicalFrame)
    (rest : List PhysicalFrame) : Type 0 where
  pub before : List PhysicalFrame
  pub after : List PhysicalFrame
  pub all_frames : fs ≡ before ++ (f ∷ after)
  pub others : rest ≡ before ++ after
  pub matches : f.identity ≡ identity
  pub least : All (BeforeMatch identity f) fs

abbrev pub NoMatch : Bytes → List PhysicalFrame → Type 0
NoMatch identity fs = All (λ g. g.identity ≢ identity) fs

key_le_refl : (f : PhysicalFrame) → key_le f f ≡ true
unfolding key_le
key_le_refl f = ground arith

key_le_total : (f g : PhysicalFrame) → key_le f g ≡ false → key_le g f ≡ true
unfolding key_le
key_le_total f g h = ground arith

key_le_trans : (f g k : PhysicalFrame) → key_le f g ≡ true → key_le g k ≡ true → key_le f k ≡ true
unfolding key_le
key_le_trans f g k h₁ h₂ = ground arith

abbrev Finds : Bytes → List PhysicalFrame → Option (ℕ × PhysicalFrame) → Type 0
Finds identity fs r =
    ((r ≡ none) × NoMatch identity fs)
    ⊎ ((i : ℕ) × (f : PhysicalFrame) × (rest : List PhysicalFrame) × (r ≡ some (i, f))
        × (remove_at i fs ≡ some (f, rest))
        × IsLeastMatch identity fs f rest)

-- One more frame in front, and the match behind it wins or is the only one.
later :
    (identity : Bytes) (f : PhysicalFrame) (fs : List PhysicalFrame) (i : ℕ) {g : PhysicalFrame}
    {rest : List PhysicalFrame}
    → remove_at i fs ≡ some (g, rest)
    → IsLeastMatch identity fs g rest
    → BeforeMatch identity g f
    → (remove_at (suc i) (f ∷ fs) ≡ some (g, f ∷ rest))
      × IsLeastMatch identity (f ∷ fs) g (f ∷ rest)
unfolding remove_at
later identity f fs i taken m h = (
  rw taken,
  record {
    before = f ∷ m.before;
    after = m.after;
    all_frames = ap (λ gs. f ∷ gs) m.all_frames;
    others = ap (λ gs. f ∷ gs) m.others;
    matches = m.matches;
    least = (h, m.least);
  },
)

sooner :
    (identity : Bytes) (f : PhysicalFrame) (fs : List PhysicalFrame)
    → f.identity ≡ identity
    → All (BeforeMatch identity f) fs
    → (remove_at zero (f ∷ fs) ≡ some (f, fs)) × IsLeastMatch identity (f ∷ fs) f fs
unfolding remove_at
sooner identity f fs h l = (
  refl,
  record {
    before = [];
    after = fs;
    all_frames = refl;
    others = refl;
    matches = h;
    least = ((λ _. key_le_refl f), l);
  },
)

min_match-Finds :
    (identity : Bytes) (fs : List PhysicalFrame) → Finds identity fs (min_match identity fs)
unfolding min_match
min_match-Finds identity [] = inl (refl, tt)
min_match-Finds identity (f ∷ fs) = elim (Bool-cases (f.identity == identity)) [
  | inl hit ↦
      let same = (==_iff f.identity identity).0 hit in
      elim (min_match-Finds identity fs) [
        | inl (e, absent) ↦
            let (taken, m) =
              sooner identity f fs same (All-map (λ g ne e'. absurd (ne e')) fs absent) in
            inr (0, f, fs, rw (hit, e), taken, m)
        | inr (i, g, rest, e, removed, m) ↦ elim (Bool-cases (key_le f g)) [
          | inl first ↦
              let (taken, m') =
                sooner identity f fs same
                  (All-map (λ k least e'. key_le_trans f g k first (least e')) fs m.least) in
              inr (0, f, fs, rw (hit, e, first), taken, m')
          | inr second ↦
              let (taken, m') = later identity f fs i removed m (λ _. key_le_total f g second) in
              inr (suc i, g, f ∷ rest, rw (hit, e, second), taken, m')
        ]
      ]
  | inr miss ↦
      let differs : f.identity ≢ identity = λ e. cc (miss, (==_iff f.identity identity).1 e) in
      elim (min_match-Finds identity fs) [
        | inl (e, absent) ↦ inl (rw (miss, e), (differs, absent))
        | inr (i, g, rest, e, removed, m) ↦
            let (taken, m') = later identity f fs i removed m (λ e'. absurd (differs e')) in
            inr (suc i, g, f ∷ rest, rw (miss, e), taken, m')
      ]
]

pub take_match_lem :
    (identity : Bytes) (fs : List PhysicalFrame)
    → ((take_match identity fs ≡ err (no_reservation identity)) × NoMatch identity fs)
      ⊎ ((f : PhysicalFrame) × (rest : List PhysicalFrame) × (take_match identity fs ≡ ok (f, rest))
          × IsLeastMatch identity fs f rest)
unfolding take_match
take_match_lem identity fs = elim (min_match-Finds identity fs) [
  | inl (e, absent) ↦ inl (rw (e, take_match), absent)
  | inr (i, f, rest, e, removed, m) ↦ inr (f, rest, ground (arith, e, removed), m)
]

pub NoMatch-append_other :
    (identity : Bytes) (fs : List PhysicalFrame) (f : PhysicalFrame)
    → f.identity ≡ identity
    → NoMatch identity (fs ++ (f ∷ []))
    → ⊥
NoMatch-append_other identity [] f h n = n.0 h
NoMatch-append_other identity (g ∷ fs) f h n = NoMatch-append_other identity fs f h n.1

module _ {RequestId S AcpError : Type 0} (x : Externals RequestId S AcpError) where
  -- An acknowledged notification releases the pending frame of its identity with the fewest bytes, the
  -- oldest of those, and leaves the others in their order; if no pending frame has that identity,
  -- nothing changes and the error names it. The panic of the removal never happens.
  pub acknowledge_notification_lem :
      (method : Bytes) (params : Json S) (b : FlowBudget RequestId)
      → let identity = notification_identity x method params in
        ((acknowledge_notification x method params b ≡ (b, err (no_reservation identity)))
          × NoMatch identity b.notifications)
        ⊎ ((f : PhysicalFrame) × (rest : List PhysicalFrame) × (acknowledge_notification x method
                params b
              ≡ (release f.bytes (record b { notifications = rest }), ok f))
            × IsLeastMatch identity b.notifications f rest)
  unfolding acknowledge_notification
  acknowledge_notification_lem method params b =
      elim (take_match_lem (notification_identity x method params) b.notifications) [
        | inl (e, absent) ↦ inl (rw (e, acknowledge_notification), absent)
        | inr (f, rest, e, m) ↦ inr (f, rest, rw (e, acknowledge_notification), m)
      ]

  -- An acknowledged response releases the pending frame of its identity with the fewest bytes, the
  -- oldest of those, and leaves the others in their order; if no pending frame has that identity,
  -- nothing changes and the error names it. The panic of the removal never happens.
  pub acknowledge_response_lem :
      (reply : Reply S AcpError) (b : FlowBudget RequestId)
      → let identity = response_identity x reply in
        ((acknowledge_response x reply b ≡ (b, err (no_reservation identity)))
          × NoMatch identity b.responses)
        ⊎ ((f : PhysicalFrame) × (rest : List PhysicalFrame) × (acknowledge_response x reply b
              ≡ (release f.bytes (record b { responses = rest }), ok f))
            × IsLeastMatch identity b.responses f rest)
  unfolding acknowledge_response
  acknowledge_response_lem reply b = elim (take_match_lem (response_identity x reply) b.responses) [
    | inl (e, absent) ↦ inl (rw (e, acknowledge_response), absent)
    | inr (f, rest, e, m) ↦ inr (f, rest, rw (e, acknowledge_response), m)
  ]

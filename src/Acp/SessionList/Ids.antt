-- ===== src/Acp/SessionList/Ids.antt =====
-- The ids of the sessions that were collected.
use acp_hub.Base.{
  ◌≡◌, refl, sym, subst, ◌∙◌, Bool, true, false, ◌||◌, List, [], ◌∷◌, ◌++◌, String, ◌==◌, string_eq,
  ==_refl, ==_iff, arith, All, Bool-cases, inl, inr,
}
use acp_hub.Acp.SessionList.{contains, add_sessions}

-- The pages one after the other.
abbrev pub concat : {I : Type 0} → List (List I) → List I
concat [] = []
concat (page ∷ pages) = page ++ concat pages

module _ {I : Type 0} (session_id : I → String) where
  abbrev pub has_id : String → List I → Bool
  has_id id [] = false
  has_id id (a ∷ more) = session_id a == id || has_id id more

  abbrev pub DistinctIds : List I → Type 0
  DistinctIds [] = Unit
  DistinctIds (a ∷ more) = (has_id (session_id a) more ≡ false) × DistinctIds more

  pub has_id-append :
      (id : String) (xs ys : List I) → has_id id (xs ++ ys) ≡ (has_id id xs || has_id id ys)
  has_id-append id [] ys = refl
  has_id-append id (a ∷ xs) ys = let ih = has_id-append id xs ys in ground (arith, ih)

  DistinctIds-last :
      (xs : List I) (a : I)
      → DistinctIds xs
      → has_id (session_id a) xs ≡ false
      → DistinctIds (xs ++ (a ∷ []))
  DistinctIds-last [] a d h = (refl, tt)
  DistinctIds-last (x ∷ xs) a d h =
      let e = has_id-append (session_id x) xs (a ∷ []) in
      let first = d.0 in
      let p = ==_iff (session_id a) (session_id x) in
      let q = ==_iff (session_id x) (session_id a) in
      (ground (arith, e, h, first, p, q), DistinctIds-last xs a d.1 (ground (arith, h)))

  pub add_sessions-append :
      (sessions : List I) (seen : List String) (xs ys : List I)
      → add_sessions session_id sessions seen (xs ++ ys) ≡ (
          let added = add_sessions session_id sessions seen xs in
          add_sessions session_id added.0 added.1 ys)
  unfolding add_sessions
  add_sessions-append sessions seen [] ys = refl
  add_sessions-append sessions seen (a ∷ xs) ys = elim (Bool-cases (contains (session_id a) seen)) [
    | inl known ↦ rw known (add_sessions-append sessions seen xs ys)
    | inr fresh ↦ rw fresh (add_sessions-append (sessions ++ (a ∷ [])) (session_id a ∷ seen) xs ys)
  ]

  -- The ids seen are those of the sessions, which differ.
  pub record IsSeen (state : List I × List String) : Type 0 where
    pub same : (id : String) → contains id state.1 ≡ has_id id state.0
    pub distinct : DistinctIds state.0

  pub nil-IsSeen : IsSeen ([], [])
  unfolding contains
  nil-IsSeen = record { same = λ id. refl; distinct = tt }

  IsSeen-append :
      (sessions : List I) (seen : List String) (a : I)
      → IsSeen (sessions, seen)
      → contains (session_id a) seen ≡ false
      → IsSeen (sessions ++ (a ∷ []), session_id a ∷ seen)
  unfolding contains
  IsSeen-append sessions seen a v fresh = record {
    same = λ id.
        let e = has_id-append id sessions (a ∷ []) in let f = v.same id in ground (arith, e, f);
    distinct = DistinctIds-last sessions a v.distinct (sym (v.same (session_id a)) ∙ fresh);
  }

  add_known :
      (sessions : List I) (seen : List String) (a : I) (page : List I)
      → contains (session_id a) seen ≡ true
      → add_sessions session_id sessions seen (a ∷ page)
        ≡ add_sessions session_id sessions seen page
  unfolding add_sessions
  add_known sessions seen a page known = rw known refl

  add_fresh :
      (sessions : List I) (seen : List String) (a : I) (page : List I)
      → contains (session_id a) seen ≡ false
      → add_sessions session_id sessions seen (a ∷ page)
        ≡ add_sessions session_id (sessions ++ (a ∷ [])) (session_id a ∷ seen) page
  unfolding add_sessions
  add_fresh sessions seen a page fresh = rw fresh refl

  -- A session and the rest of its page are there.
  abbrev Shows : I → List I → List I × List String → Type 0
  Shows a page out =
      (has_id (session_id a) out.0 ≡ true) × All (λ b. has_id (session_id b) out.0 ≡ true) page

  pub add_sessions-IsSeen :
      (sessions : List I) (seen : List String) (page : List I)
      → IsSeen (sessions, seen)
      → IsSeen (add_sessions session_id sessions seen page)
  unfolding add_sessions contains
  add_sessions-IsSeen sessions seen [] v = v
  add_sessions-IsSeen sessions seen (a ∷ page) v =
      elim (Bool-cases (contains (session_id a) seen)) [
        | inl known ↦ rw known (add_sessions-IsSeen sessions seen page v)
        | inr fresh ↦ rw fresh (
            add_sessions-IsSeen (sessions ++ (a ∷ [])) (session_id a ∷ seen) page
              (IsSeen-append sessions seen a v fresh))
      ]

  add_sessions-keeps :
      (id : String) (sessions : List I) (seen : List String) (page : List I)
      → has_id id sessions ≡ true
      → has_id id (add_sessions session_id sessions seen page).0 ≡ true
  unfolding add_sessions
  add_sessions-keeps id sessions seen [] h = h
  add_sessions-keeps id sessions seen (a ∷ page) h =
      elim (Bool-cases (contains (session_id a) seen)) [
        | inl known ↦ rw known (add_sessions-keeps id sessions seen page h)
        | inr fresh ↦
            let e = has_id-append id sessions (a ∷ []) in
            rw fresh (
              add_sessions-keeps id (sessions ++ (a ∷ [])) (session_id a ∷ seen) page
                (ground (arith, e, h)))
      ]

  -- Every session of a page is there, by its id.
  pub add_sessions-All :
      (sessions : List I) (seen : List String) (page : List I)
      → IsSeen (sessions, seen)
      → All (λ a. has_id (session_id a) (add_sessions session_id sessions seen page).0 ≡ true) page
  add_sessions-All sessions seen [] v = tt
  add_sessions-All sessions seen (a ∷ page) v = elim (Bool-cases (contains (session_id a) seen)) [
    | inl known ↦ subst (Shows a page) (sym (add_known sessions seen a page known)) (
      add_sessions-keeps (session_id a) sessions seen page (sym (v.same (session_id a)) ∙ known),
      add_sessions-All sessions seen page v,
    )
    | inr fresh ↦
        let e = has_id-append (session_id a) sessions (a ∷ []) in
        let own = ==_refl (session_id a) in
        subst (Shows a page) (sym (add_fresh sessions seen a page fresh)) (
          add_sessions-keeps (session_id a) (sessions ++ (a ∷ [])) (session_id a ∷ seen) page
              (ground (arith, e, own)),
          add_sessions-All (sessions ++ (a ∷ [])) (session_id a ∷ seen) page
              (IsSeen-append sessions seen a v fresh),
        )
  ]

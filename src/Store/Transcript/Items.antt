-- ===== src/Store/Transcript/Items.antt =====
-- What one item of a transcript stands for.
use acp_hub.Base.{
  ℕ, suc, ◌+◌, ◌≡◌, refl, ap, sym, subst, ◌∙◌, append_assoc, if◌then◌else◌, false, Bool, true, ◌&&◌,
  ◌||◌, List, [], ◌∷◌, ◌++◌, Option, some, String, leb, arith, All, All-map, Bool-cases, inl, inr,
  length, ◌==◌, string_eq, option_eq, Option-cases,
}
use acp_hub.Store.Messages.{MessageRow}
use acp_hub.Store.Transcript.Bodies.{Text, is_empty, join, newline}
use acp_hub.Store.Transcript.{
  ViewMessage, is_thought, is_toolish, is_mergeable_assistant_message, Group, Reading, item,
  or_message, joined, body_of, absorb, call_of, thought_goes_on, tool_goes_on, chunk_goes_on,
  next_item,
}

-- The texts that are not empty.
unfoldable pub nonempty : List Text → List Text
nonempty [] = []
nonempty (t ∷ ts) = let rest = nonempty ts in if is_empty t then rest else t ∷ rest

-- What stands between the bodies in an item: a line break between thoughts and between the rows of a tool call,
-- nothing between the chunks of a message.
unfoldable pub separator_of : Option String → Text
separator_of kind = if is_thought kind || is_toolish kind then newline else []

join-cons :
    (separator t v : Text) (vs : List Text)
    → join separator (t ∷ v ∷ vs) ≡ t ++ (separator ++ join separator (v ∷ vs))
unfolding join
join-cons separator t v vs = refl

join-one : (separator t : Text) → join separator (t ∷ []) ≡ t
unfolding join
join-one separator t = refl

-- Two texts joined by hand are joined among others.
join-merge :
    (separator a b : Text) (ts : List Text)
    → join separator ((a ++ (separator ++ b)) ∷ ts) ≡ join separator (a ∷ b ∷ ts)
join-merge separator a b [] =
    join-one separator (a ++ (separator ++ b))
    ∙ sym (join-cons separator a b [] ∙ ap (λ k. a ++ (separator ++ k)) (join-one separator b))
join-merge separator a b (v ∷ vs) =
    let more = separator ++ join separator (v ∷ vs) in
    join-cons separator (a ++ (separator ++ b)) v vs
    ∙ append_assoc a (separator ++ b) more
    ∙ ap (λ k. a ++ k) (append_assoc separator b more)
    ∙ sym (
        join-cons separator a b (v ∷ vs)
        ∙ ap (λ k. a ++ (separator ++ k)) (join-cons separator b v vs))

is_empty-append : (a b : Text) → is_empty a ≡ false → is_empty (a ++ b) ≡ false
is_empty-append [] b h = cc
is_empty-append (c ∷ cs) b h = refl

nonempty-joined :
    (separator body piece : Text) (ts : List Text)
    → join separator (nonempty (joined separator body piece ∷ ts))
      ≡ join separator (nonempty (body ∷ piece ∷ ts))
unfolding nonempty joined
nonempty-joined separator body piece ts = elim (Bool-cases (is_empty piece)) [
  | inl no_piece ↦ rw no_piece refl
  | inr some_piece ↦ elim (Bool-cases (is_empty body)) [
    | inl no_body ↦ rw (some_piece, no_body, some_piece) refl
    | inr some_body ↦
        let both = is_empty-append body (separator ++ piece) some_body in
        rw (some_piece, some_body, both) (join-merge separator body piece (nonempty ts))
  ]
]

join-nonempty-one : (separator t : Text) → t ≡ join separator (nonempty (t ∷ []))
unfolding nonempty join
join-nonempty-one separator [] = refl
join-nonempty-one separator (c ∷ cs) = refl

module _ {S : Type 0} (x : Reading S) where
  -- The cleaned bodies of rows.
  abbrev pub texts : List MessageRow → List Text
  texts [] = []
  texts (m ∷ ms) = body_of x m ∷ texts ms

  -- Rows that may stand in one item with its first row.
  unfoldable pub together : MessageRow → MessageRow → Bool
  together m k =
      (is_thought m.kind && is_thought k.kind)
      || ((is_toolish m.kind && (is_toolish k.kind && call_of x k == call_of x m))
          || (is_mergeable_assistant_message m.role m.kind
              && is_mergeable_assistant_message k.role k.kind))

  -- What the inner loop takes, and where it stops.
  record Absorbed (goes_on : MessageRow → Bool) (separator body : Text) (merged : ℕ)
      (ms : List MessageRow) (g : Group) : Type 0 where
    taken : List MessageRow
    split : ms ≡ taken ++ g.rest
    counted : g.merged ≡ merged + length taken
    went_on : All (λ k. goes_on k ≡ true) taken
    bodies : g.body ≡ join separator (nonempty (body ∷ texts taken))

  absorb-Absorbed :
      (goes_on : MessageRow → Bool) (separator body : Text) (kind : Option String) (merged : ℕ)
      (ms : List MessageRow)
      → Absorbed goes_on separator body merged ms (absorb x goes_on separator body kind merged ms)
  unfolding absorb
  absorb-Absorbed goes_on separator body kind merged [] = record {
    taken = [];
    split = refl;
    counted = omega arith;
    went_on = tt;
    bodies = join-nonempty-one separator body;
  }
  absorb-Absorbed goes_on separator body kind merged (m ∷ ms) = elim (Bool-cases (goes_on m)) [
    | inr stop ↦ rw stop (record {
      taken = [];
      split = refl;
      counted = omega arith;
      went_on = tt;
      bodies = join-nonempty-one separator body;
    })
    | inl on ↦
        let ih =
          absorb-Absorbed goes_on separator (joined separator body (body_of x m)) m.kind
            (merged + 1) ms in
        let counted = ih.counted in
        rw on (record {
          taken = m ∷ ih.taken;
          split = ap (λ k. m ∷ k) ih.split;
          counted = omega (arith, counted);
          went_on = (on, ih.went_on);
          bodies = ih.bodies ∙ nonempty-joined separator body (body_of x m) (texts ih.taken);
        })
  ]

  -- One item stands for its first row and what it absorbed.
  abbrev pub IsItem : MessageRow → List MessageRow → ViewMessage × List MessageRow → Type 0
  IsItem m ms out =
      (group : List MessageRow) × (ms ≡ group ++ out.1)
      × (out.0.seq ≡ m.seq)
      × (out.0.role ≡ m.role)
      × (out.0.merged_count ≡ suc (length group))
      × All (λ k. together m k ≡ true) group
      × (out.0.body_text ≡ join (separator_of m.kind) (nonempty (texts (m ∷ group))))

  of_Absorbed :
      (m : MessageRow) (ms : List MessageRow) (goes_on : MessageRow → Bool) (g : Group)
      (v : ViewMessage)
      → Absorbed goes_on (separator_of m.kind) (body_of x m) 1 ms g
      → ((k : MessageRow) → goes_on k ≡ true → together m k ≡ true)
      → v.seq ≡ m.seq
      → v.role ≡ m.role
      → v.merged_count ≡ g.merged
      → v.body_text ≡ g.body
      → IsItem m ms (v, g.rest)
  of_Absorbed m ms goes_on g v a fits s r c b =
      let counted = a.counted in
      (
        a.taken,
        a.split,
        s,
        r,
        omega (arith, counted, c),
        All-map fits a.taken a.went_on,
        b ∙ a.bodies,
      )

  as_separated :
      {goes_on : MessageRow → Bool} {body : Text} {merged : ℕ} {ms : List MessageRow} {g : Group}
      (kind : Option String) (separator : Text)
      → separator ≡ separator_of kind
      → Absorbed goes_on separator body merged ms g
      → Absorbed goes_on (separator_of kind) body merged ms g
  as_separated {goes_on} {body} {merged} {ms} {g} kind separator e a =
      subst (λ k. Absorbed goes_on k body merged ms g) e a

  -- A tool row that goes on is one of the same call.
  same_call :
      (m k : MessageRow)
      → tool_goes_on x (call_of x m) k ≡ true
      → (is_toolish k.kind ≡ true) × ((call_of x k == call_of x m) ≡ true)
  unfolding tool_goes_on
  same_call m k on = elim (Option-cases (call_of x m)) [
    | inr (tid, e) ↦ (ground (arith, on), ground (arith, on, e))
    | inl e ↦ elim (Option-cases (call_of x k)) [
      | inr (other, f) ↦ absurd (ground (arith, on, e, f))
      | inl f ↦ (ground (arith, on), rw (e, f) refl)
    ]
  ]

  pub next_item_lem : (m : MessageRow) (ms : List MessageRow) → IsItem m ms (next_item x m ms)
  unfolding next_item
  next_item_lem m ms = elim (Bool-cases (is_thought m.kind)) [
    | inl thought ↦
        let g = absorb x (thought_goes_on x) newline (body_of x m) m.kind 1 ms in
        rw thought (
          of_Absorbed m ms (thought_goes_on x) g (item x m (some "thought") g)
            (as_separated m.kind newline (unfold separator_of in ground (arith, thought))
              (absorb-Absorbed (thought_goes_on x) newline (body_of x m) m.kind 1 ms))
            (λ k on. unfold together in ground (arith, thought, on)) refl refl refl refl)
    | inr calm ↦ elim (Bool-cases (is_toolish m.kind)) [
      | inl tool ↦
          let g = absorb x (tool_goes_on x (call_of x m)) newline (body_of x m) m.kind 1 ms in
          rw (calm, tool)
            (of_Absorbed m ms (tool_goes_on x (call_of x m)) g (item x m g.last_kind g)
              (as_separated m.kind newline (unfold separator_of in ground (arith, tool))
                (absorb-Absorbed (tool_goes_on x (call_of x m)) newline (body_of x m) m.kind 1 ms))
              (λ k on.
                let a = same_call m k on in
                let b = a.0 in let c = a.1 in unfold together in ground (arith, tool, b, c))
              refl refl refl refl)
      | inr idle ↦ elim (Bool-cases (is_mergeable_assistant_message m.role m.kind)) [
        | inl chunk ↦ elim (Bool-cases (leb (length (body_of x m)) 512)) [
          | inl short ↦
              let g = absorb x (chunk_goes_on x) [] (body_of x m) m.kind 1 ms in
              rw (calm, idle, chunk, short)
                (of_Absorbed m ms (chunk_goes_on x) g (item x m (or_message x g.last_kind) g)
                  (as_separated m.kind [] (unfold separator_of in ground (arith, calm, idle))
                    (absorb-Absorbed (chunk_goes_on x) [] (body_of x m) m.kind 1 ms))
                  (λ k on.
                    let a : is_mergeable_assistant_message k.role k.kind ≡ true =
                      unfold chunk_goes_on in ground (arith, on) in
                    unfold together in ground (arith, chunk, a))
                  refl refl refl refl)
          | inr long ↦
              rw (calm, idle, chunk, long)
                (
                  [],
                  refl,
                  refl,
                  refl,
                  refl,
                  tt,
                  join-nonempty-one (separator_of m.kind) (body_of x m),
                )
        ]
        | inr other ↦
            rw (calm, idle, other)
              (
                [],
                refl,
                refl,
                refl,
                refl,
                tt,
                join-nonempty-one (separator_of m.kind) (body_of x m),
              )
      ]
    ]
  ]

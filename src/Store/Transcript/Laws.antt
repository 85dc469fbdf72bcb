-- ===== src/Store/Transcript/Laws.antt =====
-- What the items of a transcript stand for.
use acp_hub.Base.{
  ℕ, suc, ◌+◌, ◌≤◌, ◌≡◌, refl, ap, sym, subst, ◌∙◌, true, false, not, List, [], ◌∷◌, ◌++◌, Option,
  none, some, leb, eqb, arith, All, Bool-cases, inl, inr, ◌⊎◌, length, length-append, string_eq,
  option_eq, saturating_add, append_assoc, append-nil,
}
use acp_hub.Store.Messages.{MessageRow}
use acp_hub.Store.Transcript.Bodies.{utf8_len, join}
use acp_hub.Store.Transcript.{
  ViewMessage, MergeLimits, send_run, exceeded, reached, Reading, next_item, merge_loop,
  merge_transcript_with,
}
use acp_hub.Store.Transcript.Items.{together, texts, nonempty, separator_of, IsItem, next_item_lem}

abbrev pub Bounded : Option ℕ → ℕ → Type 0
Bounded none count = Unit
Bounded (some bound) count = count ≤ bound

bounded_lem :
    (limit : Option ℕ) (count : ℕ)
    → ((bound : ℕ) → limit ≡ some bound → count ≤ bound)
    → Bounded limit count
bounded_lem none count h = tt
bounded_lem (some bound) count h = h bound refl

module _ {S : Type 0} (x : Reading S) where
  -- The items stand, in order, for runs of rows that follow each other, up to the rest. The body of an item is
  -- the cleaned bodies of its rows that are not empty, joined.
  abbrev pub Covers : List ViewMessage → List MessageRow → List MessageRow → Type 0
  Covers [] rows rest = rows ≡ rest
  Covers (v ∷ vs) rows rest =
      (m : MessageRow) × (group : List MessageRow) × (more : List MessageRow) × (rows
        ≡ m ∷ (group ++ more))
      × (v.seq ≡ m.seq)
      × (v.role ≡ m.role)
      × (v.merged_count ≡ suc (length group))
      × All (λ k. together x m k ≡ true) group
      × (v.body_text ≡ join (separator_of m.kind) (nonempty (texts x (m ∷ group))))
      × Covers vs more rest

  -- The bytes of the bodies, on top of what was counted.
  abbrev pub view_bytes : ℕ → List ViewMessage → ℕ
  view_bytes bytes [] = bytes
  view_bytes bytes (v ∷ vs) = view_bytes (saturating_add bytes (utf8_len v.body_text)) vs

  -- What the outer loop adds, and why it ends.
  record Merged (limits : MergeLimits) (items : List ViewMessage) (bytes : ℕ)
      (rows : List MessageRow) (out : List ViewMessage × List MessageRow) : Type 0 where
    new : List ViewMessage
    grown : out.0 ≡ items ++ new
    covers : Covers new rows out.1
    ended : (out.1 ≡ []) ⊎ (exceeded limits (length out.0) (view_bytes bytes new) ≡ true)

  shorter_rest :
      (fuel : ℕ) (m : MessageRow) (ms : List MessageRow)
      → length (m ∷ ms) ≤ suc fuel
      → length (next_item x m ms).1 ≤ fuel
  shorter_rest fuel m ms h =
      let (group, split, _, _, _, _, _) = next_item_lem x m ms in
      let sizes = ap length split in
      let parts = length-append group (next_item x m ms).1 in omega (arith, h, sizes, parts)

  loop_step :
      (fuel : ℕ) (limits : MergeLimits) (items : List ViewMessage) (bytes : ℕ) (m : MessageRow)
      (ms : List MessageRow)
      → exceeded limits (length items) bytes ≡ false
      → merge_loop x (suc fuel) limits items bytes (m ∷ ms)
        ≡ merge_loop x fuel limits
            (items ++ ((next_item x m ms).0 ∷ []))
            (saturating_add bytes (utf8_len (next_item x m ms).0.body_text))
            (next_item x m ms).1
  unfolding merge_loop
  loop_step fuel limits items bytes m ms under = rw under refl

  -- An item in front of what the loop adds after it.
  with_item :
      (limits : MergeLimits) (items : List ViewMessage) (bytes : ℕ) (m : MessageRow)
      (ms : List MessageRow) (out : List ViewMessage × List MessageRow)
      → IsItem x m ms (next_item x m ms)
      → Merged limits
          (items ++ ((next_item x m ms).0 ∷ []))
          (saturating_add bytes (utf8_len (next_item x m ms).0.body_text))
          (next_item x m ms).1
          out
      → Merged limits items bytes (m ∷ ms) out
  with_item limits items bytes m ms out (group, split, s, r, c, fits, body) merged = record {
    new = (next_item x m ms).0 ∷ merged.new;
    grown = merged.grown ∙ append_assoc items ((next_item x m ms).0 ∷ []) merged.new;
    covers =
        (m, group, (next_item x m ms).1, ap (λ k. m ∷ k) split, s, r, c, fits, body, merged.covers);
    ended = merged.ended;
  }

  merge_loop-Merged :
      (fuel : ℕ) (limits : MergeLimits) (items : List ViewMessage) (bytes : ℕ)
      (rows : List MessageRow)
      → length rows ≤ fuel
      → Merged limits items bytes rows (merge_loop x fuel limits items bytes rows)
  unfolding merge_loop
  merge_loop-Merged fuel limits items bytes [] h = record {
    new = [];
    grown = sym (append-nil items);
    covers = refl;
    ended = inl refl;
  }
  merge_loop-Merged ℕ.zero limits items bytes (m ∷ ms) h = absurd (omega (arith, h))
  merge_loop-Merged (suc fuel) limits items bytes (m ∷ ms) h =
      elim (Bool-cases (exceeded limits (length items) bytes)) [
        | inl over ↦
            rw over
              (record { new = []; grown = sym (append-nil items); covers = refl; ended = inr over })
        | inr under ↦
            subst (Merged limits items bytes (m ∷ ms))
              (sym (loop_step fuel limits items bytes m ms under))
              (with_item limits items bytes m ms
                (merge_loop x fuel limits (items ++ ((next_item x m ms).0 ∷ []))
                  (saturating_add bytes (utf8_len (next_item x m ms).0.body_text))
                  (next_item x m ms).1)
                (next_item_lem x m ms)
                (merge_loop-Merged fuel limits (items ++ ((next_item x m ms).0 ∷ []))
                  (saturating_add bytes (utf8_len (next_item x m ms).0.body_text))
                  (next_item x m ms).1 (shorter_rest fuel m ms h)))
      ]

  -- The items of a transcript stand for the rows in order.
  merge_transcript_with-Covers :
      (rows : List MessageRow) (limits : MergeLimits)
      → (rest : List MessageRow) × Covers (merge_transcript_with x rows limits).items rows rest
        × ((merge_transcript_with x rows limits).truncated ≡ not (eqb (length rest) 0))
        × ((rest ≡ [])
            ⊎ (exceeded limits
                  (merge_transcript_with x rows limits).view_count
                  (view_bytes 0 (merge_transcript_with x rows limits).items)
                ≡ true))
  unfolding merge_transcript_with
  merge_transcript_with-Covers rows limits =
      let merged = merge_loop-Merged (length rows) limits [] 0 rows (omega arith) in
      let out = merge_loop x (length rows) limits [] 0 rows in
      (
        out.1,
        subst (λ vs. Covers vs rows out.1) (sym merged.grown) merged.covers,
        refl,
        subst (λ vs. (out.1 ≡ []) ⊎ (exceeded limits (length out.0) (view_bytes 0 vs) ≡ true))
            (sym merged.grown) merged.ended,
      )

  -- The rows that the items of a view were made of.
  abbrev pub merged_total : List ViewMessage → ℕ
  merged_total [] = 0
  merged_total (v ∷ vs) = v.merged_count + merged_total vs

  Covers-total :
      (vs : List ViewMessage) (rows rest : List MessageRow)
      → Covers vs rows rest
      → merged_total vs + length rest ≡ length rows
  Covers-total [] rows rest h = let sizes = ap length h in omega (arith, sizes)
  Covers-total (v ∷ vs) rows rest (m, group, more, split, s, r, c, fits, body, h) =
      let ih = Covers-total vs more rest h in
      let sizes = ap length split in
      let parts = length-append group more in omega (arith, ih, sizes, parts, c)

  -- The end of a turn, without limits, shows every row: nothing is truncated, and the items stand for all rows
  -- in order, each for a run of rows that belong together, with the number and role of the first, their count,
  -- and their cleaned bodies that are not empty, joined. The merged counts add up to the number of rows.
  pub merge_transcript_with-send_run :
      (rows : List MessageRow)
      → ((merge_transcript_with x rows send_run).truncated ≡ false)
        × Covers (merge_transcript_with x rows send_run).items rows []
        × (merged_total (merge_transcript_with x rows send_run).items ≡ length rows)
  merge_transcript_with-send_run rows =
      let (rest, covers, cut, ended) = merge_transcript_with-Covers rows send_run in
      let total = Covers-total (merge_transcript_with x rows send_run).items rows rest covers in
      elim ended [
        | inl over ↦
            let sizes : length rest ≡ 0 = ap length over in
            (
              cut ∙ ground (arith, sizes),
              subst (Covers (merge_transcript_with x rows send_run).items rows) over covers,
              omega (arith, total, sizes),
            )
        | inr wrong ↦ absurd (unfold exceeded reached in ground (arith, wrong))
      ]

  merge_loop-small :
      (fuel bound : ℕ) (limits : MergeLimits) (items : List ViewMessage) (bytes : ℕ)
      (rows : List MessageRow)
      → limits.max_view_nodes ≡ some bound
      → length items ≤ bound
      → length (merge_loop x fuel limits items bytes rows).0 ≤ bound
  unfolding merge_loop
  merge_loop-small fuel bound limits items bytes [] e h = h
  merge_loop-small ℕ.zero bound limits items bytes (m ∷ ms) e h = h
  merge_loop-small (suc fuel) bound limits items bytes (m ∷ ms) e h =
      elim (Bool-cases (exceeded limits (length items) bytes)) [
        | inl over ↦ rw over h
        | inr under ↦
            let v = (next_item x m ms).0 in
            let sizes = length-append items (v ∷ []) in
            let free : leb bound (length items) ≡ false =
              unfold exceeded reached in ground (arith, under, e) in
            let grows : length (items ++ (v ∷ [])) ≤ bound = ground (arith, sizes, free) in
            subst (λ out. length out.0 ≤ bound) (sym (loop_step fuel limits items bytes m ms under))
              (merge_loop-small fuel bound limits (items ++ (v ∷ []))
                (saturating_add bytes (utf8_len v.body_text)) (next_item x m ms).1 e grows)
      ]

  -- A view has at most as many items as its limits allow.
  merge_transcript_with-bound :
      (rows : List MessageRow) (limits : MergeLimits) (bound : ℕ)
      → limits.max_view_nodes ≡ some bound
      → (merge_transcript_with x rows limits).view_count ≤ bound
  unfolding merge_transcript_with
  merge_transcript_with-bound rows limits bound e =
      merge_loop-small (length rows) bound limits [] 0 rows e (omega arith)

  -- Under any limits, the items of a transcript stand for the rows in order: each is a run of rows that
  -- belong together, with the number and role of its first row, and with the cleaned bodies of its rows that
  -- are not empty, joined. The view is truncated exactly if rows are
  -- left, and then one of the limits is reached. It has at most as many items as the limits allow.
  pub merge_transcript_with_lem :
      (rows : List MessageRow) (limits : MergeLimits)
      → ((rest : List MessageRow) × Covers (merge_transcript_with x rows limits).items rows rest
          × ((merge_transcript_with x rows limits).truncated ≡ not (eqb (length rest) 0))
          × ((rest ≡ [])
              ⊎ (exceeded limits
                    (merge_transcript_with x rows limits).view_count
                    (view_bytes 0 (merge_transcript_with x rows limits).items)
                  ≡ true)))
        × Bounded limits.max_view_nodes (merge_transcript_with x rows limits).view_count
  merge_transcript_with_lem rows limits = (
    merge_transcript_with-Covers rows limits,
    bounded_lem limits.max_view_nodes (merge_transcript_with x rows limits).view_count
        (merge_transcript_with-bound rows limits),
  )

-- ===== src/Store/Lifecycle/Tables.antt =====
-- A property of all conversations, through the updates of their table.
use acp_hub.Base.{
  ◌≡◌, subst, [], ◌∷◌, some, String, ◌==◌, string_eq, Map, get, insert, remove, arith, All,
  Bool-cases, Option-cases, inl, inr,
}
use acp_hub.Store.Lifecycle.{ConversationRow, update_conversation}
use acp_hub.Store.Lifecycle.Restart.{map_rows}

module _ (P : ConversationRow → Type 0) where
  pub insert-All :
      (id : String) (c : ConversationRow) (table : Map String ConversationRow)
      → P c
      → All (λ entry. P entry.1) table
      → All (λ entry. P entry.1) (insert id c table)
  unfolding insert
  insert-All id c [] p h = (p, tt)
  insert-All id c ((j, d) ∷ table) p h = elim (Bool-cases (j == id)) [
    | inl same ↦ rw same (p, h.1)
    | inr other ↦ rw other (h.0, insert-All id c table p h.1)
  ]

  pub remove-All :
      (id : String) (table : Map String ConversationRow)
      → All (λ entry. P entry.1) table
      → All (λ entry. P entry.1) (remove id table)
  unfolding remove
  remove-All id [] h = tt
  remove-All id ((j, d) ∷ table) h = elim (Bool-cases (j == id)) [
    | inl same ↦ rw same (remove-All id table h.1)
    | inr other ↦ rw other (h.0, remove-All id table h.1)
  ]

  pub get-All :
      (id : String) (table : Map String ConversationRow) {c : ConversationRow}
      → All (λ entry. P entry.1) table
      → get id table ≡ some c
      → P c
  unfolding get
  get-All id [] h e = cc
  get-All id ((j, d) ∷ table) {c} h e = elim (Bool-cases (j == id)) [
    | inl same ↦ subst P (ground (arith, same)) h.0
    | inr other ↦ get-All id table h.1 (ground (arith, other))
  ]

  pub update-All :
      (id : String) (change : ConversationRow → ConversationRow)
      (table : Map String ConversationRow)
      → ((c : ConversationRow) → P c → P (change c))
      → All (λ entry. P entry.1) table
      → All (λ entry. P entry.1) (update_conversation id change table)
  unfolding update_conversation
  update-All id change table keep h = elim (Option-cases (get id table)) [
    | inl e ↦ rw (e, update_conversation) h
    | inr (c, e) ↦
        rw (e, update_conversation)
          (insert-All id (change c) table (keep c (get-All id table h e)) h)
  ]

  pub map_rows-All :
      (change : ConversationRow → ConversationRow) (table : Map String ConversationRow)
      → ((c : ConversationRow) → P c → P (change c))
      → All (λ entry. P entry.1) table
      → All (λ entry. P entry.1) (map_rows change table)
  unfolding map_rows
  map_rows-All change [] keep h = tt
  map_rows-All change ((id, c) ∷ table) keep h = (keep c h.0, map_rows-All change table keep h.1)

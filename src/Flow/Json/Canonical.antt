-- ===== src/Flow/Json/Canonical.antt =====
-- The canonical text of a JSON value forgets the order of object members.
use acp_hub.Base.{
  ◌≡◌, ◌≢◌, refl, ap, ap₂, ◌∙◌, true, false, List, [], ◌∷◌, ◌++◌, map, get, Map, arith, ==_iff,
  fun_ext, list_eq, nat_eq,
}
use acp_hub.Flow.Json.{
  Bytes, Json, Items, Fields, scalar, array, object, nil, cons, end, field, lex_le, insert_key,
  sort_keys, comma_separated, entry_text, keys_of, write_canonical_json, item_texts, field_texts,
}

lex_le_total : (xs ys : Bytes) → lex_le xs ys ≡ false → lex_le ys xs ≡ true
unfolding lex_le
lex_le_total [] ys h = cc
lex_le_total (x ∷ xs) [] h = refl
lex_le_total (x ∷ xs) (y ∷ ys) h = ground (arith, lex_le_total xs ys)

lex_le_antisymm : (xs ys : Bytes) → lex_le xs ys ≡ true → lex_le ys xs ≡ true → xs ≡ ys
unfolding lex_le
lex_le_antisymm [] [] h k = refl
lex_le_antisymm [] (y ∷ ys) h k = cc
lex_le_antisymm (x ∷ xs) [] h k = cc
lex_le_antisymm (x ∷ xs) (y ∷ ys) h k = ground (arith, lex_le_antisymm xs ys)

lex_le_trans : (xs ys zs : Bytes) → lex_le xs ys ≡ true → lex_le ys zs ≡ true → lex_le xs zs ≡ true
unfolding lex_le
lex_le_trans [] ys zs h k = refl
lex_le_trans (x ∷ xs) [] zs h k = cc
lex_le_trans (x ∷ xs) (y ∷ ys) [] h k = cc
lex_le_trans (x ∷ xs) (y ∷ ys) (z ∷ zs) h k = ground (arith, lex_le_trans xs ys zs)

insert_key_comm :
    (k j : Bytes) (ks : List Bytes)
    → insert_key k (insert_key j ks) ≡ insert_key j (insert_key k ks)
unfolding insert_key
insert_key_comm k j [] = ground (arith, lex_le_total k j, lex_le_antisymm k j)
insert_key_comm k j (i ∷ ks) = ground (
  arith,
  insert_key_comm k j ks,
  lex_le_total k j,
  lex_le_total j k,
  lex_le_antisymm k j,
  lex_le_trans k j i,
  lex_le_trans j k i,
)

-- Two values that differ in the order of object members only, at any depth. `swap` asks for
-- different keys: a `serde_json` map holds a key once.
mutual
  pub data Same {S : Type 0} : Json S → Json S → Type 0 where
    same_scalar : (s : S) → Same (scalar s) (scalar s)
    same_array : {xs ys : Items S} → SameItems xs ys → Same (array xs) (array ys)
    same_object : {fs gs : Fields S} → SameFields fs gs → Same (object fs) (object gs)

  pub data SameItems {S : Type 0} : Items S → Items S → Type 0 where
    same_nil : SameItems nil nil
    same_cons :
        {v w : Json S} {xs ys : Items S}
        → Same v w
        → SameItems xs ys
        → SameItems (cons v xs) (cons w ys)

  pub data SameFields {S : Type 0} : Fields S → Fields S → Type 0 where
    same_end : SameFields end end
    same_field :
        (k : Bytes) {v w : Json S} {fs gs : Fields S}
        → Same v w
        → SameFields fs gs
        → SameFields (field k v fs) (field k w gs)
    swap :
        (k j : Bytes) (v w : Json S) (fs : Fields S)
        → k ≢ j
        → SameFields (field k v (field j w fs)) (field j w (field k v fs))
    same_trans : {fs gs hs : Fields S} → SameFields fs gs → SameFields gs hs → SameFields fs hs

-- What the writer reads of an object's members.
abbrev SameTable : Map Bytes Bytes → Map Bytes Bytes → Type 0
SameTable m n = ((q : Bytes) → get q m ≡ get q n) × (sort_keys (keys_of m) ≡ sort_keys (keys_of n))

SameTable-cons :
    (k t : Bytes) (m n : Map Bytes Bytes) → SameTable m n → SameTable ((k, t) ∷ m) ((k, t) ∷ n)
unfolding get sort_keys
SameTable-cons k t m n h = (λ q. rw (h.0 q), ap (insert_key k) h.1)

SameTable-swap :
    (k j t u : Bytes) (m : Map Bytes Bytes)
    → k ≢ j
    → SameTable ((k, t) ∷ (j, u) ∷ m) ((j, u) ∷ (k, t) ∷ m)
unfolding get sort_keys
SameTable-swap k j t u m ne =
    (λ q. ground (arith, ==_iff k q, ==_iff j q), insert_key_comm k j (sort_keys (keys_of m)))

entries_eq :
    (write_key : Bytes → Bytes) (m n : Map Bytes Bytes)
    → SameTable m n
    → map (entry_text write_key m) (sort_keys (keys_of m))
      ≡ map (entry_text write_key n) (sort_keys (keys_of n))
unfolding entry_text
entries_eq write_key m n h = ap₂ map (fun_ext λ q. rw (h.0 q, entry_text)) h.1

module _ {S : Type 0} (write_scalar : S → Bytes) (write_key : Bytes → Bytes) where
  mutual
    unfolding write_canonical_json

    write-Same :
        {v w : Json S}
        → Same v w
        → write_canonical_json write_scalar write_key v
          ≡ write_canonical_json write_scalar write_key w
    write-Same (same_scalar s) = refl
    write-Same (same_array h) = ap (λ ts. b'[' ∷ (comma_separated ts ++ (b']' ∷ []))) (items-Same h)
    write-Same (same_object {fs} {gs} h) =
        ap (λ ts. b'{' ∷ (comma_separated ts ++ (b'}' ∷ [])))
          (entries_eq write_key (field_texts write_scalar write_key fs)
            (field_texts write_scalar write_key gs) (fields-Same h))

    items-Same :
        {xs ys : Items S}
        → SameItems xs ys
        → item_texts write_scalar write_key xs ≡ item_texts write_scalar write_key ys
    items-Same same_nil = refl
    items-Same (same_cons h t) = ap₂ (λ x xs. x ∷ xs) (write-Same h) (items-Same t)

    fields-Same :
        {fs gs : Fields S}
        → SameFields fs gs
        → SameTable (field_texts write_scalar write_key fs) (field_texts write_scalar write_key gs)
    fields-Same same_end = (λ q. refl, refl)
    fields-Same (same_field k {v} {w} {fs} {gs} h t) =
        rw (write-Same h)
          (SameTable-cons k (write_canonical_json write_scalar write_key w) _ _ (fields-Same t))
    fields-Same (swap k j v w fs ne) = SameTable-swap k j _ _ _ ne
    fields-Same (same_trans h t) =
        (λ q. (fields-Same h).0 q ∙ (fields-Same t).0 q, (fields-Same h).1 ∙ (fields-Same t).1)

  pub write_canonical_json-Same :
      {v w : Json S}
      → Same v w
      → write_canonical_json write_scalar write_key v
        ≡ write_canonical_json write_scalar write_key w
  write_canonical_json-Same h = write-Same h

-- ===== src/Flow/Json.antt =====
-- `serde_json::Value` as crates/hub/src/bounded_transport/flow.rs walks it, and the canonical writer
-- `write_canonical_json`. Scalars are left abstract; texts are lists of bytes.
pub mod Canonical
use acp_hub.Base.{
  ℕ, ◌≡◌, Bool, true, false, List, [], ◌∷◌, ◌++◌, map, Option, none, some, ltb, if◌then◌else◌, get,
  Map, list_eq, nat_eq,
}

abbrev pub Bytes : Type 0
Bytes = List ℕ

mutual
  pub data Json (S : Type 0) : Type 0 where
    scalar : S → Json S
    array : Items S → Json S
    object : Fields S → Json S

  pub data Items (S : Type 0) : Type 0 where
    nil : Items S
    cons : Json S → Items S → Items S

  pub data Fields (S : Type 0) : Type 0 where
    end : Fields S
    field : Bytes → Json S → Fields S → Fields S

-- `str` compares by bytes, lexicographically.
unfoldable pub lex_le : Bytes → Bytes → Bool
lex_le [] ys = true
lex_le (x ∷ xs) [] = false
lex_le (x ∷ xs) (y ∷ ys) = if ltb x y then true else if ltb y x then false else lex_le xs ys

unfoldable pub insert_key : Bytes → List Bytes → List Bytes
insert_key k [] = k ∷ []
insert_key k (j ∷ ks) = if lex_le k j then k ∷ j ∷ ks else j ∷ insert_key k ks

-- `keys.sort_unstable()`.
unfoldable pub sort_keys : List Bytes → List Bytes
sort_keys [] = []
sort_keys (k ∷ ks) = insert_key k (sort_keys ks)

-- Texts with `,` between them.
unfoldable pub comma_separated : List Bytes → Bytes
comma_separated [] = []
comma_separated (x ∷ []) = x
comma_separated (x ∷ y ∷ xs) = x ++ (b',' ∷ comma_separated (y ∷ xs))

-- The entry of a sorted object: the key, `:` and the text of `object[key]`.
unfoldable pub entry_text : (Bytes → Bytes) → Map Bytes Bytes → Bytes → Bytes
entry_text write_key rendered key = elim (get key rendered) [
  | none ↦ []
  | some text ↦ write_key key ++ (b':' ∷ text)
]

abbrev pub keys_of {ℓ κ} : {K : Type ℓ} {V : Type κ} → Map K V → List K
keys_of m = map (λ entry. entry.0) m

module _ {S : Type 0} (write_scalar : S → Bytes) (write_key : Bytes → Bytes) where
  mutual
    unfolding lex_le insert_key sort_keys comma_separated entry_text

    pub write_canonical_json : Json S → Bytes
    write_canonical_json (scalar s) = write_scalar s
    write_canonical_json (array items) = b'[' ∷ (comma_separated (item_texts items) ++ (b']' ∷ []))
    write_canonical_json (object fields) =
        let rendered = field_texts fields in
        b'{'
        ∷ (comma_separated (map (entry_text write_key rendered) (sort_keys (keys_of rendered)))
            ++ (b'}' ∷ []))

    pub item_texts : Items S → List Bytes
    item_texts nil = []
    item_texts (cons item items) = write_canonical_json item ∷ item_texts items

    pub field_texts : Fields S → Map Bytes Bytes
    field_texts end = []
    field_texts (field key value fields) = (key, write_canonical_json value) ∷ field_texts fields

-- ===== src/Json/Setting/Keys.antt =====
-- src/parser/JSONParser.cpp: the order of the keys and the members.
use geruest.Prelude.{
  ◌≡◌, refl, true, false, ◌||◌, List, [], ◌∷◌, ◌++◌, none, Text, text_eq, text_eq_iff, text_eq_refl,
  has_value, if◌then◌else◌, Bool-cases, inl, inr, if_elim, arith,
}
use geruest.Prelude.Assoc.{lookup, lookup-insert, lookup-erase}
use geruest.Prelude.Unique.{member, IsUnique, member-append, append-IsUnique}
use geruest.Json.{JsonParser, json, members, keys_of}
use geruest.Json.Setting.{set_value, remove_all, remove_key}

-- Each key stands once in the order, and the keys are those of the members.
pub record IsKeyed (p : JsonParser) : Type 0 where
  pub unique : IsUnique (keys_of p)
  pub present : (k : Text) → has_value (lookup k (members p)) ≡ member k (keys_of p)

put_key :
    (k : Text) (keys : List Text)
    → IsUnique keys
    → IsUnique (if member k keys then keys else keys ++ k ∷ [])
put_key k keys u =
    if_elim IsUnique (member k keys) _ _ (λ _. u) (λ fresh. append-IsUnique k keys u fresh)

member-put :
    (j k : Text) (keys : List Text)
    → member j (if member k keys then keys else keys ++ k ∷ []) ≡ (member j keys || text_eq k j)
member-put j k keys = elim (Bool-cases (member k keys)) [
  | inl there ↦ elim (Bool-cases (text_eq k j)) [
    | inl hit ↦
        let same : k ≡ j = (text_eq_iff k j).0 hit in
        let found : member j keys ≡ true = rw same at there in rw (there, found) refl
    | inr miss ↦ ground (arith, there, miss)
  ]
  | inr fresh ↦ rw fresh (member-append j k keys)
]

-- Every setter stores a value under a key: this keeps the keys and the members in agreement.
pub set_value-IsKeyed :
    (key value : Text) (p : JsonParser) → IsKeyed p → IsKeyed (set_value key value p)
unfolding set_value
set_value-IsKeyed key value (json values keys elements ok error) h = record {
  unique = put_key key keys h.unique;
  present =
      λ k. ground (arith, h.present k, lookup-insert key k value values, member-put k key keys);
}

member-remove_all :
    (k key : Text) (keys : List Text)
    → member k (remove_all key keys) ≡ (if text_eq key k then false else member k keys)
unfolding member remove_all
member-remove_all k key [] = ground arith
member-remove_all k key (j ∷ keys) =
    ground
      (arith, member-remove_all k key keys, text_eq_iff j key, text_eq_iff key k, text_eq_iff j k)

remove_all-IsUnique :
    (key : Text) (keys : List Text) → IsUnique keys → IsUnique (remove_all key keys)
unfolding member remove_all
remove_all-IsUnique key [] u = tt
remove_all-IsUnique key (j ∷ keys) (fresh, u) =
    let rest = remove_all-IsUnique key keys u in
    if_elim IsUnique (text_eq j key) _ _ (λ _. rest)
      (λ _. (ground (arith, member-remove_all j key keys), rest))

-- Removing a key keeps them in agreement too, and the key is gone from both.
pub remove_key-IsKeyed :
    (key : Text) (p : JsonParser)
    → IsKeyed p
    → IsKeyed (remove_key key p)
      × (lookup key (members (remove_key key p)) ≡ none)
      × (member key (keys_of (remove_key key p)) ≡ false)
unfolding remove_key
remove_key-IsKeyed key (json values keys elements ok error) h = (
  record {
    unique = remove_all-IsUnique key keys h.unique;
    present =
        λ k. ground (arith, h.present k, lookup-erase key k values, member-remove_all k key keys);
  },
  ground (arith, lookup-erase key key values, text_eq_refl key),
  ground (arith, member-remove_all key key keys, text_eq_refl key),
)

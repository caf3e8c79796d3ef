-- ===== src/Json/Setting.antt =====
-- src/parser/JSONParser.cpp: the functions that change a parser. What `std::to_string` makes of a
-- floating-point number is an argument.
pub mod Keys
use geruest.Prelude.{
  ℕ, Bool, true, false, not, List, [], ◌∷◌, ◌++◌, Text, codes, text_eq, map, if◌then◌else◌,
}
use geruest.Prelude.Assoc.{insert, erase}
use geruest.Prelude.Int.{ℤ}
use geruest.Prelude.Unique.{member}
use geruest.Json.{JsonParser, JsonArray, json, nil, cons, push_back}
use geruest.Json.Numbers.{int_to_string}
use geruest.Json.Printing.{string_to_string, array_text, to_string, element_texts}

-- The two steps of each setter: `data[key] = value`, and the key behind the others if it is new.
unfoldable pub set_value : Text → Text → JsonParser → JsonParser
set_value key value (json values keys elements ok error) =
    json (insert key value values) (if member key keys then keys else keys ++ key ∷ []) elements ok
      error

abbrev pub bool_text : Bool → Text
bool_text b = if b then codes "true" else codes "false"

unfoldable pub set_string : Text → Text → JsonParser → JsonParser
unfolding set_value
set_string key value p = set_value key value p

unfoldable pub set_int : Text → ℤ → JsonParser → JsonParser
unfolding set_value
set_int key value p = set_value key (int_to_string value) p

unfoldable pub set_short : Text → ℤ → JsonParser → JsonParser
unfolding set_value
set_short key value p = set_value key (int_to_string value) p

unfoldable pub set_bool : Text → Bool → JsonParser → JsonParser
unfolding set_value
set_bool key value p = set_value key (bool_text value) p

-- `std::to_chars` writes at most 20 bytes into the 32 of the buffer, so it does not fail.
unfoldable pub set_long : Text → ℤ → JsonParser → JsonParser
unfolding set_value
set_long key value p = set_value key (int_to_string value) p

unfoldable pub set_long_long : Text → ℤ → JsonParser → JsonParser
unfolding set_value
set_long_long key value p = set_value key (int_to_string value) p

-- `setJSON`
unfoldable pub set_json : Text → JsonParser → JsonParser → JsonParser
unfolding set_value
set_json key value p = set_value key (to_string value) p

unfoldable pub set_string_array : Text → List Text → JsonParser → JsonParser
unfolding set_value
set_string_array key items p = set_value key (array_text (map string_to_string items)) p

-- `setShortArray`, `setIntArray`, `setLongArray` and `setLongLongArray`.
unfoldable pub set_int_array : Text → List ℤ → JsonParser → JsonParser
unfolding set_value
set_int_array key items p = set_value key (array_text (map int_to_string items)) p

unfoldable pub set_bool_array : Text → List Bool → JsonParser → JsonParser
unfolding set_value
set_bool_array key items p = set_value key (array_text (map bool_text items)) p

-- `setArrayOfJSON` and `addArrayOfJSON`.
unfoldable pub set_array_of_json : Text → JsonArray → JsonParser → JsonParser
unfolding set_value
set_array_of_json key items p = set_value key (array_text (element_texts items)) p

module _ {F : Type 0} (float_to_string : F → Text) where
  -- `setFloat`, `setDouble` and `setLongDouble`.
  unfoldable pub set_float : Text → F → JsonParser → JsonParser
  unfolding set_value
  set_float key value p = set_value key (float_to_string value) p

  unfoldable pub set_float_array : Text → List F → JsonParser → JsonParser
  unfolding set_value
  set_float_array key items p = set_value key (array_text (map float_to_string items)) p

unfoldable pub set_json_array : JsonArray → JsonParser → JsonParser
set_json_array items (json values keys elements ok error) = json values keys items ok error

unfoldable pub add_json_to_array : JsonParser → JsonParser → JsonParser
add_json_to_array item (json values keys elements ok error) =
    json values keys (push_back elements item) ok error

-- `std::remove(keys.begin(), keys.end(), key)`
unfoldable pub remove_all : Text → List Text → List Text
remove_all key [] = []
remove_all key (k ∷ keys) =
    let rest = remove_all key keys in if text_eq k key then rest else k ∷ rest

unfoldable pub remove_key : Text → JsonParser → JsonParser
unfolding remove_all
remove_key key (json values keys elements ok error) =
    json (erase key values) (remove_all key keys) elements ok error

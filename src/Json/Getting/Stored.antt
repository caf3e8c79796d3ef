-- ===== src/Json/Getting/Stored.antt =====
-- src/parser/JSONParser.cpp: the getters of what the setters stored.
use geruest.Prelude.{ℕ, ◌≡◌, refl, Text}
use geruest.Prelude.Assoc.{lookup-insert_self}
use geruest.Prelude.Int.{ℤ, IsInRange}
use geruest.Json.{JsonParser, json}
use geruest.Json.Numbers.{int_to_string, int_bound, long_bound}
use geruest.Json.Numbers.Decimal.{parse_integer-int_to_string}
use geruest.Json.Setting.{set_value, set_int, set_long}
use geruest.Json.Getting.{get_integer, get_int, get_long}

get_integer-set_value :
    (bound : ℕ) (key : Text) (value : ℤ) (p : JsonParser)
    → IsInRange bound value
    → get_integer bound (set_value key (int_to_string value) p) key ≡ value
unfolding get_integer set_value
get_integer-set_value bound key value (json values keys elements ok error) h =
    rw
      (
        lookup-insert_self key (int_to_string value) values,
        get_integer,
        parse_integer-int_to_string bound value h,
      )
      refl

-- An `int` that is stored under a key is read back from it.
pub get_int-set_int :
    (key : Text) (value : ℤ) (p : JsonParser)
    → IsInRange int_bound value
    → get_int (set_int key value p) key ≡ value
unfolding get_int set_int
get_int-set_int key value p = get_integer-set_value int_bound key value p

-- A `long` that is stored under a key is read back from it, the least one included.
pub get_long-set_long :
    (key : Text) (value : ℤ) (p : JsonParser)
    → IsInRange long_bound value
    → get_long (set_long key value p) key ≡ value
unfolding get_long set_long
get_long-set_long key value p = get_integer-set_value long_bound key value p

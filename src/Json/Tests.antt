-- ===== src/Json/Tests.antt =====
-- Runs of the JSON parser, and instances of the theorems about it.
use geruest.Prelude.{◌+◌, ◌≡◌, refl, true, false, [], ◌∷◌, codes, length, map, arith}
use geruest.Prelude.Assoc.{lookup, insert}
use geruest.Prelude.Unique.{member}
use geruest.Security.{escape_json}
use geruest.Json.{JsonParser, json, nil, cons, empty}
use geruest.Json.Reading.{is_white_space, is_digit, skip_white_space, read_key, read_data}
use geruest.Json.Parsing.{parsed, out_of_rounds, parse_json, array_loop, finish_parse, after_member}
use geruest.Json.Parsing.Ending.{Ends, parse_json-Ends, parse_json-no_return}
use geruest.Json.Setting.{set_string_array}
use geruest.Json.Setting.Keys.{IsKeyed}
use geruest.Json.Getting.{get_string_array}
use geruest.Json.Arrays.RoundTrip.{get_string_array-set_string_array}

parse_tests :
    (parse_json 40 (codes " {\"a\": 1,\"b\":{\"c\":[]}}")
      ≡ parsed (
          json
            ((codes "a", codes "1") ∷ (codes "b", codes "{\"c\":[]}") ∷ [])
            (codes "a" ∷ codes "b" ∷ [])
            nil
            true
            []))
    × (parse_json 40 (codes "{\"a\":-1.5,")
        ≡ parsed (json ((codes "a", codes "-1.5") ∷ []) (codes "a" ∷ []) nil true []))
    × (parse_json 40 (codes "[{},\"x\"]")
        ≡ parsed (
            json [] []
              (cons empty (cons (json [] [] nil false (codes "expected JSON object or array")) nil))
              true
              []))
    × (parse_json 40 (codes "[x]") ≡ out_of_rounds)
unfolding parse_json array_loop finish_parse after_member insert read_data read_key skip_white_space
    is_digit is_white_space
parse_tests = (refl, refl, refl, refl)

-- An object with one member, as it is parsed and as it is built.
abbrev one : JsonParser
one = json ((codes "a", codes "1") ∷ []) (codes "a" ∷ []) nil true []

one-IsKeyed : IsKeyed one
unfolding member lookup
one-IsKeyed = record { unique = (refl, tt); present = λ k. ground arith }

parse_json-Ends_example : Ends (parse_json (length (codes " {\"a\":tx") + 2) (codes " {\"a\":tx"))
unfolding skip_white_space is_white_space
parse_json-Ends_example = parse_json-Ends (codes " {\"a\":tx") (codes "\"a\":tx") refl

parse_json-no_return_example : parse_json 1000 (codes "[x]") ≡ out_of_rounds
unfolding is_white_space is_digit skip_white_space
parse_json-no_return_example =
    parse_json-no_return 1000 b'x' (codes "[x]") (codes "]")
      (record {
        no_space = refl;
        no_digit = refl;
        others = (refl, (refl, (refl, (refl, (refl, (refl, (refl, (refl, (refl, tt)))))))));
      })
      refl

get_string_array-set_string_array_example :
    get_string_array (set_string_array (codes "s") (codes "a\"],b" ∷ [] ∷ []) one) (codes "s")
    ≡ map escape_json (codes "a\"],b" ∷ [] ∷ [])
get_string_array-set_string_array_example =
    get_string_array-set_string_array (codes "s") (codes "a\"],b" ∷ [] ∷ []) one

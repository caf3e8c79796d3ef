-- ===== src/Json.antt =====
-- src/parser/JSONParser.cpp: a flat reader and writer of JSON. A parser holds the members of one
-- object as texts, or the elements of one array as parsers.
pub mod Reading
pub mod Parsing
pub mod Numbers
pub mod Printing
pub mod Setting
pub mod Arrays
pub mod Getting
mod Tests
use geruest.Prelude.{Bool, true, List, [], Option, none, some, Text}

-- `data` as a list of members, `keys` in their order, `arrayData`, `_parseOk` and `_parseError`.
-- `_view` and `jp` are arguments of the reading functions: they pass on the text that is left.
mutual
  pub data JsonParser : Type 0 where
    json : List (Text × Text) → List Text → JsonArray → Bool → Text → JsonParser

  pub data JsonArray : Type 0 where
    nil : JsonArray
    cons : JsonParser → JsonArray → JsonArray

abbrev pub members : JsonParser → List (Text × Text)
members (json values keys elements ok error) = values

abbrev pub keys_of : JsonParser → List Text
keys_of (json values keys elements ok error) = keys

abbrev pub array_data : JsonParser → JsonArray
array_data (json values keys elements ok error) = elements

abbrev pub parse_ok : JsonParser → Bool
parse_ok (json values keys elements ok error) = ok

abbrev pub parse_error : JsonParser → Text
parse_error (json values keys elements ok error) = error

-- The parser without data.
abbrev pub empty : JsonParser
empty = json [] [] nil true []

-- `arrayData.push_back`
abbrev pub push_back : JsonArray → JsonParser → JsonArray
push_back nil p = cons p nil
push_back (cons q elements) p = cons q (push_back elements p)

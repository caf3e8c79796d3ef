-- ===== src/Json/Parsing.antt =====
-- src/parser/JSONParser.cpp: `parseJSON` and `parseArray`. Their loops go on while text is left, and
-- are given rounds by a count, since a round need not read anything.
pub mod Ending
use geruest.Prelude.{
  ℕ, zero, suc, ◌+◌, Bool, true, false, ◌&&◌, not, List, [], ◌∷◌, ◌++◌, Text, codes, is_empty,
  length, ◌==◌, if◌then◌else◌,
}
use geruest.Prelude.Assoc.{insert}
use geruest.Json.{JsonParser, JsonArray, json, nil, cons, push_back}
use geruest.Json.Reading.{skip_white_space, read_key, read_data}

-- `out_of_rounds` belongs to the model only.
pub data Parsed : Type 0 where
  parsed : JsonParser → Parsed
  out_of_rounds : Parsed

-- `failParse`, of a parser that does not throw.
abbrev pub fail_parse : Text → List (Text × Text) → List Text → JsonArray → JsonParser
fail_parse message values keys elements = json values keys elements false message

-- `finishParse` at the text that is left.
unfoldable pub finish_parse : List (Text × Text) → List Text → JsonArray → Text → JsonParser
finish_parse values keys elements s =
    if is_empty (skip_white_space s)
    then json values keys elements true []
    else fail_parse (codes "trailing data after JSON value") values keys elements

-- The comma or the brace behind a member: whether the loop goes on, and the text that is left.
unfoldable pub after_member : ℕ → Text → Bool × Text
after_member close [] = (true, [])
after_member close (c ∷ s) =
    if c == b',' then (true, s) else if c == close then (false, s) else (true, c ∷ s)

-- A member behind its key, and the rounds that follow.
unfoldable pub member_value :
    (List (Text × Text) → List Text → Text → Parsed)
    → List (Text × Text)
    → List Text
    → Text
    → Text
    → Parsed
member_value next values keys key [] =
    parsed (fail_parse (codes "expected ':' after object key") values keys nil)
member_value next values keys key (c ∷ s) =
    if not (c == b':')
    then parsed (fail_parse (codes "expected ':' after object key") values keys nil)
    else let (value, rest) = read_data s in
      let (more, rest') = after_member b'}' (skip_white_space rest) in
      if more
      then next (insert key value values) keys rest'
      else parsed (finish_parse (insert key value values) keys nil rest')

-- A round behind the white space at its head.
unfoldable pub object_round :
    (List (Text × Text) → List Text → Text → Parsed)
    → List (Text × Text)
    → List Text
    → Text
    → Parsed
object_round next values keys [] = parsed (fail_parse (codes "expected object key") values keys nil)
object_round next values keys (c ∷ s) =
    if c == b'}'
    then parsed (finish_parse values keys nil s)
    else let (key, rest) = read_key (c ∷ s) in
      if is_empty key
      then parsed (fail_parse (codes "expected object key") values keys nil)
      else member_value next values (keys ++ key ∷ []) key (skip_white_space rest)

-- The loop over the members.
unfoldable pub object_loop : ℕ → List (Text × Text) → List Text → Text → Parsed
unfolding object_round member_value
object_loop zero values keys s = out_of_rounds
object_loop (suc n) values keys [] = parsed (finish_parse values keys nil [])
object_loop (suc n) values keys (c ∷ s) =
    object_round (object_loop n) values keys (skip_white_space (c ∷ s))

-- What the loop over the elements comes to: the elements and the text that is left.
pub data ArrayRead : Type 0 where
  elements_read : JsonArray → Text → ArrayRead
  no_end : ArrayRead

-- The end of a round, behind the element.
unfoldable pub element_end : (JsonArray → Text → ArrayRead) → JsonArray → Text → ArrayRead
element_end next elements rest =
    let (more, rest') = after_member b']' (skip_white_space rest) in
    if more then next elements rest' else elements_read elements rest'

-- An element that is not empty is parsed by a parser of its own.
unfoldable pub keep_element : (JsonArray → Text → ArrayRead) → JsonArray → Text → Parsed → ArrayRead
keep_element next elements rest (parsed p) = element_end next (push_back elements p) rest
keep_element next elements rest out_of_rounds = no_end

unfoldable pub array_round :
    (Text → Parsed) → (JsonArray → Text → ArrayRead) → JsonArray → Text → ArrayRead
unfolding element_end keep_element
array_round parse next elements [] = element_end next elements []
array_round parse next elements (c ∷ s) =
    if c == b']'
    then elements_read elements s
    else let (element, rest) = read_data (c ∷ s) in
      if is_empty element
      then element_end next elements rest
      else keep_element next elements rest (parse element)

unfoldable pub parsed_array : ArrayRead → Parsed
parsed_array (elements_read elements rest) = parsed (finish_parse [] [] elements rest)
parsed_array no_end = out_of_rounds

-- `parseJSON` behind the white space at the head, by its loops.
unfoldable pub parse_value : (Text → Parsed) → (Text → ArrayRead) → Text → Parsed
parse_value object array [] = parsed (fail_parse (codes "empty input") [] [] nil)
parse_value object array (c ∷ s) =
    if c == b'['
    then parsed_array (array s)
    else if not (c == b'{')
    then parsed (fail_parse (codes "expected JSON object or array") [] [] nil)
    else object s

-- The parse of a text. A call of it and a round of a loop each take one
-- of the count.
unfoldable mutual
  unfolding object_loop array_round parsed_array parse_value

  pub parse_json : ℕ → Text → Parsed
  parse_json zero s = out_of_rounds
  parse_json (suc n) s = parse_value (object_loop n [] []) (array_loop n nil) (skip_white_space s)

  pub array_loop : ℕ → JsonArray → Text → ArrayRead
  array_loop zero elements s = no_end
  array_loop (suc n) elements [] = elements_read elements []
  array_loop (suc n) elements (c ∷ s) =
      array_round (parse_json n) (array_loop n) elements (skip_white_space (c ∷ s))

-- The constructor: in strict mode `failParse` throws its message, and nothing is constructed.
pub data Constructed : Type 0 where
  constructed : JsonParser → Constructed
  thrown : Text → Constructed
  no_return : Constructed

unfoldable pub construct : Bool → Parsed → Constructed
construct strict out_of_rounds = no_return
construct strict (parsed (json values keys elements ok error)) =
    if strict && not ok then thrown error else constructed (json values keys elements ok error)

-- ===== src/Json/Arrays/RoundTrip.antt =====
-- src/parser/JSONParser.cpp: `setStringArray` and `getStringArray`.
use mathlib.Core.List.{reverse, reverse-append, reverse-reverse}
use geruest.Prelude.{
  ℕ, suc, ◌+◌, ◌-◌, ◌≡◌, refl, sym, ap, ◌∙◌, true, false, some, List, [], ◌∷◌, ◌++◌, append-nil,
  append_assoc, Text, length, length-append, ◌<◌, ◌/◌, ◌%◌, if_elim, take-append, get_or, ltb, map,
  ◌==◌, arith,
}
use geruest.Prelude.Assoc.{lookup-insert_self, lookup}
use geruest.Security.{escape_all, escape_json, escape_json_byte, unicode_escape, hex_digit}
use geruest.Json.{JsonParser, json, members}
use geruest.Json.Reading.{skip_white_space, is_white_space}
use geruest.Json.Printing.{string_to_string, comma_separated, array_text}
use geruest.Json.Setting.{set_value, set_string_array}
use geruest.Json.Getting.{elements_at, get_string_array}
use geruest.Json.Arrays.{
  Scan, start, scan_byte, push_element, scan_elements, parse_array_string, trimmed, extract_string,
}

-- Inside a string, with the text `current` read so far.
abbrev within : Text → Scan
within current = record start { in_string = true; current = current }

-- Between strings.
abbrev between : Text → Scan
between current = record start { current = current }

-- A piece of a string's text is read as it stands.
Passes : Text → Type 0
Passes piece =
    (current rest : Text)
    → scan_elements (within current) (piece ++ rest)
      ≡ scan_elements (within (current ++ piece)) rest

pair-Passes : (d : ℕ) → Passes (b'\\' ∷ d ∷ [])
unfolding Passes scan_elements scan_byte
pair-Passes d current rest =
    ap (λ t. scan_elements (within t) rest) (append_assoc current (b'\\' ∷ []) (d ∷ []))

one-Passes : (c : ℕ) → (c == b'"') ≡ false → (c == b'\\') ≡ false → Passes (c ∷ [])
unfolding Passes scan_elements scan_byte
one-Passes c quote slash current rest = ground (arith, quote, slash)

append-Passes : (s t : Text) → Passes s → Passes t → Passes (s ++ t)
unfolding Passes
append-Passes s t p q current rest =
    ap (scan_elements (within current)) (append_assoc s t rest)
    ∙ p current (t ++ rest)
    ∙ q (current ++ s) rest
    ∙ ap (λ u. scan_elements (within u) rest) (append_assoc current s t)

hex-Passes : (n : ℕ) → n < 16 → Passes (hex_digit n ∷ [])
unfolding hex_digit
hex-Passes n h = one-Passes (hex_digit n) (ground arith) (ground arith)

unicode_escape-Passes : (c : ℕ) → c < 32 → Passes (unicode_escape c)
unfolding unicode_escape
unicode_escape-Passes c h = append-Passes (b'\\' ∷ b'u' ∷ []) _ (pair-Passes b'u') (
    append-Passes (b'0' ∷ []) _ (one-Passes b'0' refl refl) (
      append-Passes (b'0' ∷ []) _ (one-Passes b'0' refl refl) (
        append-Passes (hex_digit (c / 16) ∷ []) (hex_digit (c % 16) ∷ [])
          (hex-Passes (c / 16) (omega arith)) (hex-Passes (c % 16) (omega arith)))))

escape_json_byte-Passes : (c : ℕ) → Passes (escape_json_byte c)
unfolding escape_json_byte
escape_json_byte-Passes c =
    if_elim Passes (c == b'"') _ _ (λ _. pair-Passes b'"')
      λ quote.
        if_elim Passes (c == b'\\') _ _ (λ _. pair-Passes b'\\')
          λ slash.
            if_elim Passes (c == 8) _ _ (λ _. pair-Passes b'b')
              λ _.
                if_elim Passes (c == 12) _ _ (λ _. pair-Passes b'f')
                  λ _.
                    if_elim Passes (c == b'\n') _ _ (λ _. pair-Passes b'n')
                      λ _.
                        if_elim Passes (c == b'\r') _ _ (λ _. pair-Passes b'r')
                          λ _.
                            if_elim Passes (c == b'\t') _ _ (λ _. pair-Passes b't')
                              λ _.
                                if_elim Passes (ltb c 32) _ _
                                  (λ small. unicode_escape-Passes c (ground arith))
                                  (λ _. one-Passes c quote slash)

escape_json-Passes : (item : Text) → Passes (escape_json item)
unfolding escape_json escape_all
escape_json-Passes [] =
    unfold Passes in
    λ current rest. ap (λ u. scan_elements (within u) rest) (sym (append-nil current))
escape_json-Passes (c ∷ item) =
    append-Passes (escape_json_byte c) (escape_json item) (escape_json_byte-Passes c)
      (escape_json-Passes item)

-- A whole quoted string, from between the strings.
scan-string_to_string :
    (item rest : Text)
    → scan_elements start (string_to_string item ++ rest)
      ≡ scan_elements (between (string_to_string item)) rest
unfolding scan_elements scan_byte string_to_string Passes
scan-string_to_string item rest =
    ap (scan_elements (within (b'"' ∷ []))) (append_assoc (escape_json item) (b'"' ∷ []) rest)
    ∙ escape_json-Passes item (b'"' ∷ []) (b'"' ∷ rest)

-- Nothing is cut off a quoted string.
trimmed-string_to_string : (item : Text) → trimmed (string_to_string item) ≡ string_to_string item
unfolding trimmed string_to_string skip_white_space is_white_space
trimmed-string_to_string item =
    let turned : reverse (b'"' ∷ escape_json item ++ b'"' ∷ [])
        ≡ b'"' ∷ reverse (b'"' ∷ escape_json item) =
      reverse-append (b'"' ∷ escape_json item) (b'"' ∷ []) in
    ap (λ t. reverse (skip_white_space t)) turned
    ∙ ap reverse (sym turned)
    ∙ reverse-reverse (b'"' ∷ escape_json item ++ b'"' ∷ [])

push-string_to_string :
    (item : Text) (result : List Text)
    → push_element (string_to_string item) result ≡ string_to_string item ∷ result
unfolding push_element
push-string_to_string item result =
    rw (trimmed-string_to_string item) (unfold string_to_string in refl)

close-item :
    (current : Text) → scan_elements (between current) (b']' ∷ []) ≡ push_element current []
unfolding scan_elements scan_byte
close-item current = refl

comma-item :
    (current rest : Text)
    → scan_elements (between current) (b',' ∷ rest)
      ≡ push_element current (scan_elements start rest)
unfolding scan_elements scan_byte
comma-item current rest = refl

scan-items :
    (item : Text) (items : List Text)
    → scan_elements start (comma_separated (map string_to_string (item ∷ items)) ++ b']' ∷ [])
      ≡ map string_to_string (item ∷ items)
unfolding comma_separated
scan-items item [] =
    scan-string_to_string item (b']' ∷ [])
    ∙ close-item (string_to_string item)
    ∙ push-string_to_string item []
scan-items item (other ∷ items) =
    let rest = comma_separated (map string_to_string (other ∷ items)) in
    ap (scan_elements start) (append_assoc (string_to_string item) (b',' ∷ rest) (b']' ∷ []))
    ∙ scan-string_to_string item (b',' ∷ rest ++ b']' ∷ [])
    ∙ comma-item (string_to_string item) (rest ++ b']' ∷ [])
    ∙ push-string_to_string item (scan_elements start (rest ++ b']' ∷ []))
    ∙ ap (◌∷◌ (string_to_string item)) (scan-items other items)

get_or-last : (s : Text) (d : ℕ) → get_or (s ++ d ∷ []) (length s) 0 ≡ d
get_or-last [] d = refl
get_or-last (c ∷ s) d = get_or-last s d

extract-string_to_string : (item : Text) → extract_string (string_to_string item) ≡ escape_json item
unfolding extract_string string_to_string
extract-string_to_string item =
    let body = escape_json item in
    let size : length (body ++ b'"' ∷ []) ≡ length body + 1 = length-append body (b'"' ∷ []) in
    let index : suc (length (body ++ b'"' ∷ [])) - 1 ≡ suc (length body) = omega (arith, size) in
    let count : suc (length (body ++ b'"' ∷ [])) - 2 ≡ length body = omega (arith, size) in
    rw (index, count)
      (ground (arith, size, get_or-last body b'"', take-append body (b'"' ∷ []) (length body) refl))

extract-all :
    (items : List Text) → map extract_string (map string_to_string items) ≡ map escape_json items
extract-all [] = refl
extract-all (item ∷ items) =
    rw (extract-string_to_string item) (ap (◌∷◌ (escape_json item)) (extract-all items))

parse-array_text :
    (items : List Text)
    → parse_array_string (array_text (map string_to_string items)) ≡ map string_to_string items
unfolding parse_array_string array_text
parse-array_text [] =
    unfold scan_elements scan_byte push_element trimmed skip_white_space comma_separated in refl
parse-array_text (item ∷ items) = scan-items item items

elements_at-some :
    (p : JsonParser) (key value : Text)
    → lookup key (members p) ≡ some value
    → elements_at p key ≡ parse_array_string value
unfolding elements_at
elements_at-some p key value e = rw (elements_at, e) refl

-- An array of strings that is stored under a key is read back from there with each string
-- escaped, in the order it was stored: escapes are not undone.
pub get_string_array-set_string_array :
    (key : Text) (items : List Text) (p : JsonParser)
    → get_string_array (set_string_array key items p) key ≡ map escape_json items
unfolding get_string_array set_string_array set_value
get_string_array-set_string_array key items (json values keys elements ok error) =
    let stored = array_text (map string_to_string items) in
    rw
      (elements_at-some (set_string_array key items (json values keys elements ok error)) key stored
        (lookup-insert_self key stored values))
      (ap (map extract_string) (parse-array_text items) ∙ extract-all items)

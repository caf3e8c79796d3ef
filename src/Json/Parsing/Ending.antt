-- ===== src/Json/Parsing/Ending.antt =====
-- src/parser/JSONParser.cpp: whether `parseJSON` and `parseArray` end.
use geruest.Prelude.{
  ℕ, zero, suc, ◌+◌, ◌<◌, ◌≤◌, ◌≡◌, refl, ap, All, false, not, List, [], ◌∷◌, ◌++◌, Text, codes,
  is_empty, length, ◌==◌, if_elim, arith,
}
use geruest.Json.{JsonArray, nil}
use geruest.Json.Reading.{is_white_space, is_digit, skip_white_space, read_key, read_data, data_at}
use geruest.Json.Reading.Length.{skip_white_space-le, read_key-lt, read_data-le}
use geruest.Json.Parsing.{
  Parsed, parsed, out_of_rounds, after_member, member_value, object_round, object_loop, no_end,
  element_end, array_round, array_loop, parsed_array, parse_value, parse_json,
}

-- The parse returns.
pub Ends : Parsed → Type 0
Ends (parsed p) = Unit
Ends out_of_rounds = ⊥

after_member-le : (close : ℕ) (s : Text) → length (after_member close s).1 ≤ length s
unfolding after_member
after_member-le close [] = omega arith
after_member-le close (c ∷ s) = ground arith

-- The rounds that follow end on every text shorter than `n`.
abbrev EndsBelow : ℕ → (List (Text × Text) → List Text → Text → Parsed) → Type 0
EndsBelow n next =
    (values : List (Text × Text)) (keys : List Text) (s : Text)
    → length s < n
    → Ends (next values keys s)

member_value-Ends :
    (n : ℕ) (next : List (Text × Text) → List Text → Text → Parsed) (values : List (Text × Text))
    (keys : List Text) (key s : Text)
    → EndsBelow n next
    → length s < n
    → Ends (member_value next values keys key s)
unfolding member_value Ends
member_value-Ends n next values keys key [] ends h = tt
member_value-Ends n next values keys key (c ∷ s) ends h =
    if_elim Ends (not (c == b':')) _ _ (λ _. tt)
      λ _.
        if_elim Ends (after_member b'}' (skip_white_space (read_data s).1)).0 _ _
          (λ _. ends _ keys (after_member b'}' (skip_white_space (read_data s).1)).1 (
            omega (
              arith,
              after_member-le b'}' (skip_white_space (read_data s).1),
              skip_white_space-le (read_data s).1,
              read_data-le s,
            )))
          (λ _. tt)

object_round-Ends :
    (n : ℕ) (next : List (Text × Text) → List Text → Text → Parsed) (values : List (Text × Text))
    (keys : List Text) (s : Text)
    → EndsBelow n next
    → length s ≤ n
    → Ends (object_round next values keys s)
unfolding object_round Ends
object_round-Ends n next values keys [] ends h = tt
object_round-Ends n next values keys (c ∷ s) ends h =
    if_elim Ends (c == b'}') _ _ (λ _. tt)
      λ _.
        if_elim Ends (is_empty (read_key (c ∷ s)).0) _ _ (λ _. tt)
          λ filled.
            member_value-Ends n next values (keys ++ (read_key (c ∷ s)).0 ∷ []) (read_key (c ∷ s)).0
              (skip_white_space (read_key (c ∷ s)).1) ends
              (omega (arith, read_key-lt (c ∷ s) filled, skip_white_space-le (read_key (c ∷ s)).1))

pub object_loop-Ends : (n : ℕ) → EndsBelow n (object_loop n)
unfolding object_loop
object_loop-Ends zero values keys s h = absurd (omega arith)
object_loop-Ends (suc n) values keys [] h = unfold Ends in tt
object_loop-Ends (suc n) values keys (c ∷ s) h =
    object_round-Ends n (object_loop n) values keys (skip_white_space (c ∷ s)) (object_loop-Ends n)
      (omega (arith, skip_white_space-le (c ∷ s)))

-- An object is parsed to its end or to an error: a text whose first byte behind white space is a
-- brace needs no more rounds than it has bytes, and two.
pub parse_json-Ends :
    (s rest : Text) → skip_white_space s ≡ b'{' ∷ rest → Ends (parse_json (length s + 2) s)
unfolding parse_json parse_value
parse_json-Ends s rest h =
    let more : length s + 2 ≡ suc (suc (length s)) = omega arith in
    let short : length rest < suc (length s) = omega (arith, ap length h, skip_white_space-le s) in
    rw (more, h) (object_loop-Ends (suc (length s)) [] [] rest short)

-- The bytes that begin neither a value nor white space, and end no array or element.
pub record IsStray (c : ℕ) : Type 0 where
  pub no_space : is_white_space c ≡ false
  pub no_digit : is_digit c ≡ false
  pub others : All (λ d. (c == d) ≡ false) (codes "\"-tfn{[,]")

stray_data : (c : ℕ) (s : Text) → IsStray c → read_data (c ∷ s) ≡ ([], c ∷ s)
unfolding read_data data_at skip_white_space
stray_data c s h = ground (arith, h.no_space)

stray_loop :
    (n c : ℕ) (elements : JsonArray) (s : Text) → IsStray c → array_loop n elements (c ∷ s) ≡ no_end
unfolding array_loop array_round element_end after_member skip_white_space
stray_loop zero c elements s h = refl
stray_loop (suc n) c elements s h =
    rw (h.no_space)
      (rw (stray_data c s h) (ground (arith, h.no_space, stray_loop n c elements s h)))

-- An array with a byte at the place of its first element that begins no value is never parsed to
-- an end, however many rounds are given.
pub parse_json-no_return :
    (n c : ℕ) (s rest : Text)
    → IsStray c
    → skip_white_space s ≡ b'[' ∷ c ∷ rest
    → parse_json n s ≡ out_of_rounds
unfolding parse_json parse_value parsed_array
parse_json-no_return zero c s rest h k = refl
parse_json-no_return (suc n) c s rest h k = rw k (ground (arith, stray_loop n c nil rest h))

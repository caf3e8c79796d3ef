-- ===== src/Security/Tests.antt =====
-- Runs of the escapes, and instances of the theorems about them.
use geruest.Prelude.{◌≡◌, ◌≢◌, refl, [], ◌∷◌, ◌++◌, some, none, codes, arith}
use geruest.Security.{
  escape_all, escape_json, escape_json_byte, escape_html, escape_html_byte, escape_sql,
  escape_sql_byte, placeholder_count, substitute_params, build_query,
}
use geruest.Security.Json.{parse_string, parse-escape_json}
use geruest.Security.Sql.{
  ansi, parse_literal, read_value, parse-escape_sql, parse-escape_sql_ansi_changes,
}

escape_tests :
    (escape_json (codes "a\"\n") ≡ codes "a\\\"\\n")
    × (escape_json (1 ∷ []) ≡ codes "\\u0001")
    × (escape_html (codes "<a b='c'>") ≡ codes "&lt;a b=&#x27;c&#x27;&gt;")
    × (escape_sql (codes "O'Neil") ≡ codes "O''Neil")
    × (build_query (codes "a=? AND b=?") (codes "x" ∷ codes "y'" ∷ [])
        ≡ some (codes "a='x' AND b='y'''"))
    × (build_query (codes "a=?") [] ≡ none)
unfolding escape_json escape_all escape_json_byte escape_html escape_html_byte escape_sql
    escape_sql_byte placeholder_count substitute_params build_query
escape_tests = (refl, refl, refl, refl, refl, refl)

parse-escape_json_example :
    parse_string (escape_json (codes "a\"b") ++ b'"' ∷ codes ",") ≡ some (codes "a\"b", codes ",")
parse-escape_json_example = parse-escape_json (codes "a\"b") (codes ",")

parse-escape_sql_example :
    parse_literal ansi (escape_sql (codes "'; --") ++ b'\'' ∷ codes ";")
    ≡ some (read_value ansi (codes "'; --"), codes ";")
parse-escape_sql_example = parse-escape_sql ansi (codes "'; --") (codes ";") (omega arith)

parse-escape_sql_ansi_changes_example :
    parse_literal ansi (escape_sql (codes "a\"b") ++ b'\'' ∷ codes ";")
    ≢ some (codes "a\"b", codes ";")
parse-escape_sql_ansi_changes_example =
    parse-escape_sql_ansi_changes (codes "a\"b") (codes ";") (omega arith) refl

-- ===== src/Literals/Tests.antt =====
-- Literals and parameters on small inputs, and the theorems at these.
use my_sqweel.Prelude.{
  ℕ, ◌+◌, Text, text, List, [], ◌∷◌, ◌++◌, Option, none, some, true, ◌≡◌, ◌↔◌, refl, length, ok,
  err, is_ok,
}
use my_sqweel.Constraints.Schema.{Value, JsonText}
use my_sqweel.Literals.Parameters.{
  json_to_sql_literal, substitute_tokens, substitute_params, trim_start, trim_end, unescape,
  parse_mysql_string_literal,
}
use my_sqweel.Literals.ParameterLaws.{
  placeholders, parse_mysql_string_literal-json_to_sql_literal, substitute_params_iff,
}

abbrev json : JsonText ℕ Text
json = record {
  as_i64 = λ n. some ((48 + n) ∷ []);
  as_u64 = λ n. none;
  number_text = λ n. (48 + n) ∷ [];
  document_text = λ d. d;
  value_text = λ v. [];
}

-- `it's a \` between quotes, with blanks around it, and a literal without its end.
literals :
    (json_to_sql_literal json (Value.string (text "it's")) ≡ text "'it''s'")
    × (parse_mysql_string_literal (text "  'it''s\\n' ") ≡ ok (text "it's" ++ (10 ∷ [])))
    × (parse_mysql_string_literal (text "'it") ≡ err (text "unterminated PREPARE source"))
unfolding json_to_sql_literal parse_mysql_string_literal trim_start trim_end unescape
literals = (refl, refl, refl)

parse_mysql_string_literal-json_to_sql_literal_example :
    parse_mysql_string_literal (json_to_sql_literal json (Value.string (text "a'\\' OR 1=1")))
    ≡ ok (text "a'\\' OR 1=1")
parse_mysql_string_literal-json_to_sql_literal_example =
    parse_mysql_string_literal-json_to_sql_literal json (text "a'\\' OR 1=1")

-- `SELECT ?, ?` as tokens.
abbrev tokens : List (Option Text)
tokens = some (text "SELECT ") ∷ none ∷ some (text ", ") ∷ none ∷ []

substituted :
    substitute_params json
      (λ sql. ok tokens)
      (text "SELECT ?, ?")
      (Value.number 1 ∷ Value.string (text "a'") ∷ [])
    ≡ ok (text "SELECT 1, 'a'''")
unfolding substitute_tokens json_to_sql_literal
substituted = refl

substitute_params_iff_example :
    (is_ok (substitute_params json (λ sql. ok tokens) (text "SELECT ?, ?") (Value.number 1 ∷ []))
      ≡ true)
    ↔ (placeholders json tokens ≡ length {A = Value ℕ Text} (Value.number 1 ∷ []))
substitute_params_iff_example =
    substitute_params_iff json (λ sql. ok tokens) (text "SELECT ?, ?") tokens (Value.number 1 ∷ [])
      refl

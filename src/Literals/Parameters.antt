-- ===== src/Literals/Parameters.antt =====
-- Parameters of a prepared statement as literals (json_to_sql_literal and substitute_params of
-- src/sql/engine/values.rs), and the reading of a string literal (parse_mysql_string_literal of
-- src/sql/engine/mod.rs).
use my_sqweel.Prelude.{
  ℕ, Text, text, List, [], ◌∷◌, ◌++◌, Option, none, some, Bool, true, false, not, ◌&&◌, ◌||◌,
  if◌then◌else◌, leb, eqb, last?, contains, is_empty, flat_map, ◌==◌, nat_eq, option_eq, Result, ok,
  err, ◌>>=◌,
}
use my_sqweel.Constraints.Schema.{Value, JsonText}

-- A text with one character replaced by a text.
abbrev pub replace : ℕ → Text → Text → Text
replace c by = flat_map (λ d. if eqb d c then by else d ∷ [])

-- A backslash is written twice, and so is a quote.
abbrev pub quoted : Text → Text
quoted s = 39 ∷ (replace 39 (39 ∷ 39 ∷ []) (replace 92 (92 ∷ 92 ∷ []) s) ++ (39 ∷ []))

module _ {Number Document : Type 0} (json : JsonText Number Document) where
  unfoldable pub json_to_sql_literal : Value Number Document → Text
  json_to_sql_literal Value.null = text "NULL"
  json_to_sql_literal (Value.bool true) = text "TRUE"
  json_to_sql_literal (Value.bool false) = text "FALSE"
  json_to_sql_literal (Value.number n) = json.number_text n
  json_to_sql_literal (Value.string s) = quoted s
  json_to_sql_literal (Value.document d) = quoted (json.document_text d)

  -- The tokens of a statement: a placeholder `?`, or another token's text. They come from the scanner
  -- of the SQL parser.
  unfoldable pub substitute_tokens :
      List (Option Text) → List (Value Number Document) → Result Text Text
  substitute_tokens [] [] = ok []
  substitute_tokens [] (value ∷ values) = err (text "too many parameters for prepared statement")
  substitute_tokens (some token ∷ tokens) values =
      substitute_tokens tokens values >>= λ rest. ok (token ++ rest)
  substitute_tokens (none ∷ tokens) [] = err (text "not enough parameters for prepared statement")
  substitute_tokens (none ∷ tokens) (value ∷ values) =
      substitute_tokens tokens values >>= λ rest. ok (json_to_sql_literal value ++ rest)

  abbrev pub substitute_params :
      (Text → Result Text (List (Option Text)))
      → Text
      → List (Value Number Document)
      → Result Text Text
  substitute_params sql_tokens sql values =
      sql_tokens sql >>= λ tokens. substitute_tokens tokens values

-- `char::is_whitespace`.
abbrev pub is_whitespace : ℕ → Bool
is_whitespace c =
    (leb 9 c && leb c 13)
    || ((leb 8192 c && leb c 8202)
        || contains (32 ∷ 133 ∷ 160 ∷ 5760 ∷ 8232 ∷ 8233 ∷ 8239 ∷ 8287 ∷ 12288 ∷ []) c)

unfoldable pub trim_start : Text → Text
trim_start [] = []
trim_start (c ∷ s) = let rest = trim_start s in if is_whitespace c then rest else c ∷ s

unfoldable pub trim_end : Text → Text
trim_end [] = []
trim_end (c ∷ s) =
    let rest = trim_end s in if is_whitespace c && is_empty rest then [] else c ∷ rest

abbrev pub escaped : ℕ → ℕ
escaped c = if eqb c 110 then 10 else if eqb c 114 then 13 else if eqb c 116 then 9 else c

-- The characters between the quotes: an escape, a quote written twice, or a character.
unfoldable pub unescape : ℕ → Text → Text
unescape quote [] = []
unescape quote (c ∷ []) = if eqb c 92 then [] else c ∷ []
unescape quote (c ∷ d ∷ s) =
    let after_two = unescape quote s in
    let after_one = unescape quote (d ∷ s) in
    if eqb c 92
    then escaped d ∷ after_two
    else if eqb c quote && eqb d quote
    then c ∷ after_two
    else c ∷ after_one

abbrev pub without_last : Text → Text
without_last [] = []
without_last (c ∷ []) = []
without_last (c ∷ d ∷ s) = c ∷ without_last (d ∷ s)

abbrev pub parse_trimmed : Text → Result Text Text
parse_trimmed [] = err (text "PREPARE source must be a string literal")
parse_trimmed (quote ∷ s) =
    if not (eqb quote 39 || eqb quote 34)
    then err (text "PREPARE source must be a string literal")
    else if not (last? (quote ∷ s) == some quote) || is_empty s
    then err (text "unterminated PREPARE source")
    else ok (unescape quote (without_last s))

unfoldable pub parse_mysql_string_literal : Text → Result Text Text
parse_mysql_string_literal input = parse_trimmed (trim_start (trim_end input))

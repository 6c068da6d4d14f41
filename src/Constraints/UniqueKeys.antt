-- ===== src/Constraints/UniqueKeys.antt =====
-- The key of a row under a unique constraint (src/sql/engine/values.rs, src/sql/engine/dml.rs).
use my_sqweel.Prelude.{
  ℕ, Text, text, List, [], ◌∷◌, ◌++◌, Option, none, some, not, ◌&&◌, if◌then◌else◌, lookup, take,
  contains, is_empty, and_then, ◌==◌, list_eq, nat_eq,
}
use my_sqweel.Constraints.Schema.{Value, Row, is_null, JsonText, IndexHint, TableSchemaHint}

-- The unit separator.
abbrev pub unique_separator : Text
unique_separator = 31 ∷ []

abbrev pub join : Text → List Text → Text
join separator [] = []
join separator (part ∷ []) = part
join separator (part ∷ next ∷ parts) = (part ++ separator) ++ join separator (next ∷ parts)

-- The prefix lengths of the first unique index on exactly these columns.
abbrev pub index_lengths : List IndexHint → List Text → List (Option ℕ)
index_lengths [] columns = []
index_lengths (index ∷ indexes) columns =
    if index.unique && (index.columns == columns)
    then index.prefix_lengths
    else index_lengths indexes columns

module _ {Number Document : Type 0} (json : JsonText Number Document) where
  abbrev pub encode_number : Number → Text
  encode_number n = elim (json.as_i64 n) [
    | some digits ↦ text "i:" ++ digits
    | none ↦ elim (json.as_u64 n) [
      | some digits ↦ text "u:" ++ digits
      | none ↦ text "f:" ++ json.number_text n
    ]
  ]

  abbrev pub encode_json_value : Value Number Document → Text
  encode_json_value Value.null = text "n:"
  encode_json_value (Value.bool b) = text "b:" ++ (if b then text "1" else text "0")
  encode_json_value (Value.number n) = encode_number n
  encode_json_value (Value.string s) = text "s:" ++ s
  encode_json_value (Value.document d) = text "j:" ++ json.document_text d

  -- A string of a column with a prefix length is cut to it.
  abbrev pub prefixed : Option ℕ → Value Number Document → Value Number Document
  prefixed (some length) (Value.string s) = Value.string (take length s)
  prefixed (some length) Value.null = Value.null
  prefixed (some length) (Value.bool b) = Value.bool b
  prefixed (some length) (Value.number n) = Value.number n
  prefixed (some length) (Value.document d) = Value.document d
  prefixed none value = value

  abbrev pub key_part : Option ℕ → Value Number Document → Option Text
  key_part length value =
      if is_null value then none else some (encode_json_value (prefixed length value))

  -- The parts of the key, or nothing when a column is absent or null.
  abbrev pub key_parts : Row Number Document → List Text → List (Option ℕ) → Option (List Text)
  key_parts row [] lengths = some []
  key_parts row (column ∷ columns) [] =
      and_then (and_then (lookup column row) (key_part none))
        λ part. and_then (key_parts row columns []) λ parts. some (part ∷ parts)
  key_parts row (column ∷ columns) (length ∷ lengths) =
      and_then (and_then (lookup column row) (key_part length))
        λ part. and_then (key_parts row columns lengths) λ parts. some (part ∷ parts)

  unfoldable pub unique_key_with_prefixes :
      Row Number Document → List Text → List (Option ℕ) → Option Text
  unique_key_with_prefixes row columns lengths =
      if is_empty columns
      then none
      else and_then (key_parts row columns lengths) λ parts. some (join unique_separator parts)

  abbrev pub unique_key : Row Number Document → List Text → Option Text
  unique_key row columns = unique_key_with_prefixes row columns []

  unfoldable pub schema_unique_key : TableSchemaHint → Row Number Document → List Text → Option Text
  schema_unique_key schema row columns =
      unique_key_with_prefixes row columns (index_lengths schema.indexes columns)

-- The unique constraints, and the primary key when it is declared and not among them.
unfoldable pub unique_columns : TableSchemaHint → List (List Text)
unique_columns schema =
    schema.unique
    ++ (if not (is_empty schema.primary_key) && not (contains schema.unique schema.primary_key)
        then schema.primary_key ∷ []
        else [])

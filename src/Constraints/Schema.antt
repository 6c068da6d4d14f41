-- ===== src/Constraints/Schema.antt =====
-- Values and rows (src/model.rs), and what a table's schema declares (src/schema/mod.rs).
use my_sqweel.Prelude.{ℕ, Text, List, Option, Bool, true, false, Map}

-- A JSON value: numbers, and arrays and objects (the documents), are those of the JSON library.
pub data Value (Number Document : Type 0) : Type 0 where
  null : Value Number Document
  bool : Bool → Value Number Document
  number : Number → Value Number Document
  string : Text → Value Number Document
  document : Document → Value Number Document

abbrev pub Row : Type 0 → Type 0 → Type 0
Row Number Document = Map Text (Value Number Document)

module _ {Number Document : Type 0} where
  abbrev pub is_null : Value Number Document → Bool
  is_null Value.null = true
  is_null (Value.bool b) = false
  is_null (Value.number n) = false
  is_null (Value.string s) = false
  is_null (Value.document d) = false

-- What the JSON library says of numbers and documents: a number as a signed or unsigned integer,
-- in its digits, and any number, document and value as text.
pub record JsonText (Number Document : Type 0) : Type 0 where
  pub as_i64 : Number → Option Text
  pub as_u64 : Number → Option Text
  pub number_text : Number → Text
  pub document_text : Document → Text
  pub value_text : Value Number Document → Text

pub record ColumnHint : Type 0 where
  pub sql_type : Option Text
  pub nullable : Option Bool
  pub default : Option Text
  pub character_set : Option Text
  pub collation : Option Text
  pub comment : Option Text
  pub primary_key : Bool
  pub auto_increment : Bool
  pub generated : Option Text
  pub generated_stored : Bool

pub record IndexHint : Type 0 where
  pub name : Text
  pub columns : List Text
  pub unique : Bool
  pub prefix_lengths : List (Option ℕ)

pub record ForeignKeyHint : Type 0 where
  pub name : Text
  pub columns : List Text
  pub referenced_table : Text
  pub referenced_columns : List Text
  pub on_delete : Option Text
  pub on_update : Option Text

pub record CheckConstraintHint : Type 0 where
  pub name : Text
  pub expression : Text

-- A time is a number of nanoseconds.
pub record TableSchemaHint : Type 0 where
  pub table : Text
  pub temporary : Bool
  pub system_versioned : Bool
  pub columns : Map Text ColumnHint
  pub column_order : List Text
  pub primary_key : List Text
  pub unique : List (List Text)
  pub indexes : List IndexHint
  pub foreign_keys : List ForeignKeyHint
  pub check_constraints : List CheckConstraintHint
  pub updated_at : Option ℕ

pub record StoredRow (Number Document : Type 0) : Type 0 where
  pub id : Value Number Document
  pub table : Text
  pub created_at : ℕ
  pub updated_at : ℕ
  pub version : ℕ
  pub row_data : Row Number Document
  pub history : List (Row Number Document)

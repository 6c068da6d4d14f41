-- ===== src/Literals/ParameterLaws.antt =====
-- A string parameter is read back as it was, and each placeholder takes one parameter
-- (src/sql/engine/values.rs, src/sql/engine/mod.rs).
use my_sqweel.Prelude.{
  ℕ, suc, Text, List, [], ◌∷◌, ◌++◌, Option, none, some, true, false, if◌then◌else◌, eqb, eqb_iff,
  ◌↔◌, length, last?, is_empty, nat_eq, option_eq, ◌≡◌, refl, ◌∙◌, ap, arith, Bool-cases, inl, inr,
  Result, ok, err, ◌>>=◌, is_ok,
}
use my_sqweel.Constraints.Schema.{Value, JsonText}
use my_sqweel.Literals.Parameters.{
  replace, json_to_sql_literal, substitute_tokens, substitute_params, trim_start, trim_end,
  unescape, without_last, parse_mysql_string_literal,
}

-- What stands between the quotes of a literal.
abbrev body : Text → Text
body s = replace 39 (39 ∷ 39 ∷ []) (replace 92 (92 ∷ 92 ∷ []) s)

body-cons :
    (c : ℕ) (s : Text)
    → body (c ∷ s)
      ≡ (if eqb c 92 then 92 ∷ 92 ∷ body s else if eqb c 39 then 39 ∷ 39 ∷ body s else c ∷ body s)
body-cons c s = elim (Bool-cases (eqb c 92)) [
  | inl backslash ↦ rw backslash refl
  | inr other ↦ elim (Bool-cases (eqb c 39)) [
    | inl quote ↦ rw (other, quote) refl
    | inr plain ↦ rw (other, plain) refl
  ]
]

unescape-cons :
    (c : ℕ) (s : Text)
    → eqb c 92 ≡ false
    → eqb c 39 ≡ false
    → unescape 39 (c ∷ s) ≡ c ∷ unescape 39 s
unfolding unescape
unescape-cons c [] other plain = rw other refl
unescape-cons c (d ∷ s) other plain = rw (other, plain) refl

unescape-backslash : (s : Text) → unescape 39 (92 ∷ 92 ∷ s) ≡ 92 ∷ unescape 39 s
unfolding unescape
unescape-backslash s = refl

unescape-quote : (s : Text) → unescape 39 (39 ∷ 39 ∷ s) ≡ 39 ∷ unescape 39 s
unfolding unescape
unescape-quote s = refl

unescape-body : (s : Text) → unescape 39 (body s) ≡ s
unescape-body [] = unfold unescape in refl
unescape-body (c ∷ s) = rw (body-cons c s) (elim (Bool-cases (eqb c 92)) [
  | inl backslash ↦
      rw (backslash, (eqb_iff c 92).0 backslash, unescape-backslash (body s), unescape-body s) refl
  | inr other ↦ elim (Bool-cases (eqb c 39)) [
    | inl quote ↦
        rw (other, quote, (eqb_iff c 39).0 quote, unescape-quote (body s), unescape-body s) refl
    | inr plain ↦ rw (other, plain, unescape-cons c (body s) other plain, unescape-body s) refl
  ]
])

is_empty-snoc : (s : Text) (c : ℕ) → is_empty (s ++ (c ∷ [])) ≡ false
is_empty-snoc [] c = refl
is_empty-snoc (d ∷ s) c = refl

trim_end-snoc : (s : Text) → trim_end (s ++ (39 ∷ [])) ≡ s ++ (39 ∷ [])
unfolding trim_end
trim_end-snoc [] = refl
trim_end-snoc (c ∷ s) = rw (trim_end-snoc s, is_empty-snoc s 39) (ground arith)

last?-snoc : (s : Text) (c d : ℕ) → last? (c ∷ (s ++ (d ∷ []))) ≡ some d
last?-snoc [] c d = refl
last?-snoc (e ∷ s) c d = last?-snoc s e d

without_last-snoc : (s : Text) (c : ℕ) → without_last (s ++ (c ∷ [])) ≡ s
without_last-snoc [] c = refl
without_last-snoc (d ∷ []) c = refl
without_last-snoc (d ∷ e ∷ s) c = ap (λ r. d ∷ r) (without_last-snoc (e ∷ s) c)

is_ok-bind :
    (step : Result Text Text) (f : Text → Text) → is_ok (step >>= λ r. ok (f r)) ≡ is_ok step
is_ok-bind (ok r) f = refl
is_ok-bind (err e) f = refl

module _ {Number Document : Type 0} (json : JsonText Number Document) where
  -- The literal that a string parameter is written as is read as the string, whatever its characters.
  pub parse_mysql_string_literal-json_to_sql_literal :
      (s : Text) → parse_mysql_string_literal (json_to_sql_literal json (Value.string s)) ≡ ok s
  unfolding parse_mysql_string_literal json_to_sql_literal
  parse_mysql_string_literal-json_to_sql_literal s = rw (trim_end-snoc (39 ∷ body s)) (
      unfold trim_start in
      rw
        (
          last?-snoc (body s) 39 39,
          is_empty-snoc (body s) 39,
          without_last-snoc (body s) 39,
          unescape-body s,
        )
        refl)

  -- How many of the tokens are placeholders.
  abbrev pub placeholders : List (Option Text) → ℕ
  placeholders [] = 0
  placeholders (some token ∷ tokens) = placeholders tokens
  placeholders (none ∷ tokens) = suc (placeholders tokens)

  substitute_tokens_iff :
      (tokens : List (Option Text)) (values : List (Value Number Document))
      → is_ok (substitute_tokens json tokens values) ≡ eqb (placeholders tokens) (length values)
  unfolding substitute_tokens
  substitute_tokens_iff [] [] = refl
  substitute_tokens_iff [] (value ∷ values) = ground arith
  substitute_tokens_iff (some token ∷ tokens) values =
      is_ok-bind (substitute_tokens json tokens values) (λ rest. token ++ rest)
      ∙ substitute_tokens_iff tokens values
  substitute_tokens_iff (none ∷ tokens) [] = ground arith
  substitute_tokens_iff (none ∷ tokens) (value ∷ values) =
      is_ok-bind (substitute_tokens json tokens values)
        (λ rest. json_to_sql_literal json value ++ rest)
      ∙ substitute_tokens_iff tokens values
      ∙ ground arith

  -- A statement that the scanner takes apart gets its parameters exactly when it has as many
  -- placeholders as there are parameters.
  pub substitute_params_iff :
      (sql_tokens : Text → Result Text (List (Option Text))) (sql : Text)
      (tokens : List (Option Text)) (values : List (Value Number Document))
      → sql_tokens sql ≡ ok tokens
      → (is_ok (substitute_params json sql_tokens sql values) ≡ true)
        ↔ (placeholders tokens ≡ length values)
  substitute_params_iff sql_tokens sql tokens values scanned =
      rw (scanned, substitute_tokens_iff tokens values)
        (eqb_iff (placeholders tokens) (length values))

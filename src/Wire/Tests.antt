-- ===== src/Wire/Tests.antt =====
-- The wire theorems at concrete inputs, and runs of the codecs.
use my_sqweel.Prelude.{
  text, starts_with, ℕ, ◌+◌, ◌*◌, ◌^◌, ◌≤◌, ◌<◌, List, [], ◌∷◌, some, true, false, ◌≡◌, refl, arith,
  length, ok,
}
use my_sqweel.Wire.Errors.{
  mysql_error_kind, er_lock_wait_timeout, er_bad_db_error, to_ascii_lowercase, error_rules,
  first_rule, rule_holds, has_text,
}
use my_sqweel.Wire.Temporal.{
  MysqlTimeValue, to_mysql_bin, decode_mysql_time_parameter, to_string, parse_mysql_time_value,
  strip_sign, split, parse_parts, split_once, time_value, parse_unsigned, parse_digits, is_digit,
  digits_value, parse_micros, zeros, clock, padded, decimal, digits, decode_mysql_date_parameter,
  byte, is_zero,
}
use my_sqweel.Prelude.{all}
use my_sqweel.Wire.Rounding.{increment_decimal_digits, increment_decimal_digits-value}
use my_sqweel.Wire.TemporalLaws.{
  decode_mysql_time_parameter-to_mysql_bin, parse_mysql_time_value-bounds,
}

-- The name that a client sends takes part in the choice of the code.
plain_name : mysql_error_kind (text "unknown database: x") ≡ er_bad_db_error
unfolding mysql_error_kind to_ascii_lowercase error_rules first_rule rule_holds has_text starts_with
plain_name = refl

chosen_name : mysql_error_kind (text "unknown database: lock wait timeout") ≡ er_lock_wait_timeout
unfolding mysql_error_kind to_ascii_lowercase error_rules first_rule rule_holds has_text starts_with
chosen_name = refl

abbrev half_past : MysqlTimeValue
half_past = record {
  negative = true;
  days = 1;
  hours = 2;
  minutes = 30;
  seconds = 5;
  micros = 250000;
  force_fraction = false;
}

half_past-nonzero : is_zero half_past ≡ false
unfolding is_zero
half_past-nonzero = refl

half_past_shown : to_string half_past ≡ text "-26:30:05.250000"
unfolding to_string clock padded decimal digits zeros
half_past_shown = refl

decode_mysql_time_parameter-to_mysql_bin_example :
    (size : ℕ) × (payload : List ℕ) × (to_mysql_bin true half_past ≡ ok (size ∷ payload))
    × (length payload ≡ size)
    × (decode_mysql_time_parameter payload ≡ some (to_string half_past))
unfolding is_zero
decode_mysql_time_parameter-to_mysql_bin_example =
    decode_mysql_time_parameter-to_mysql_bin half_past (omega arith) (omega arith) refl refl

abbrev parsed : MysqlTimeValue
parsed = record {
  negative = true;
  days = 34;
  hours = 22;
  minutes = 59;
  seconds = 59;
  micros = 500000;
  force_fraction = true;
}

parses : parse_mysql_time_value (text "-838:59:59.5") ≡ ok parsed
unfolding parse_mysql_time_value strip_sign split parse_parts split_once time_value parse_unsigned
    parse_digits is_digit digits_value parse_micros zeros
parses = refl

parse_mysql_time_value-bounds_example :
    (parsed.days * 24 + parsed.hours ≤ 838)
    × (parsed.hours < 24)
    × (parsed.minutes < 60)
    × (parsed.seconds < 60)
    × (parsed.micros < 10 ^ 6)
parse_mysql_time_value-bounds_example =
    parse_mysql_time_value-bounds (text "-838:59:59.5") parsed parses

decodes_date : decode_mysql_date_parameter (232 ∷ 7 ∷ 2 ∷ 29 ∷ []) ≡ some (text "2024-02-29")
unfolding decode_mysql_date_parameter byte padded decimal digits zeros
decodes_date = refl

digits_199 : all is_digit (text "199") ≡ true
unfolding is_digit
digits_199 = refl

increment_decimal_digits-value_example :
    (digits_value 0 (increment_decimal_digits (text "199")) ≡ digits_value 0 (text "199") + 1)
    × (all is_digit (increment_decimal_digits (text "199")) ≡ true)
increment_decimal_digits-value_example = increment_decimal_digits-value (text "199") digits_199

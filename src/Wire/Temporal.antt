-- ===== src/Wire/Temporal.antt =====
-- TIME values of result rows and temporal parameters of the binary protocol (src/server/mysql_wire.rs).
-- A text is the list of its bytes; `String::parse` of an unsigned type takes a leading `+`.
use my_sqweel.Prelude.{
  text, ℕ, zero, suc, ◌+◌, ◌-◌, ◌*◌, ◌/◌, ◌%◌, ◌^◌, Text, List, [], ◌∷◌, ◌++◌, Option, none, some,
  Bool, true, false, ◌&&◌, ◌||◌, not, length, ltb, leb, eqb, all, is_empty, contains, Result, ok,
  err, ◌==◌, nat_eq, if◌then◌else◌,
}

pub record MysqlTimeValue : Type 0 where
  pub negative : Bool
  pub days : ℕ
  pub hours : ℕ
  pub minutes : ℕ
  pub seconds : ℕ
  pub micros : ℕ
  pub force_fraction : Bool

pub data TimeError : Type 0 where
  not_a_time_column invalid_time_value : TimeError

-- The decimal digits of a number below 10 ^ 20, which covers `u64`.
unfoldable pub digits : ℕ → ℕ → Text → Text
digits zero n rest = rest
digits (suc fuel) n rest =
    let more = digits fuel (n / 10) ((b'0' + n % 10) ∷ rest) in
    if ltb n 10 then (b'0' + n) ∷ rest else more

unfoldable pub decimal : ℕ → Text
decimal n = digits 20 n []

unfoldable pub zeros : ℕ → Text
zeros zero = []
zeros (suc n) = b'0' ∷ zeros n

-- `{:02}`, `{:04}` and `{:06}`.
unfoldable pub padded : ℕ → ℕ → Text
padded width n = zeros (width - length (decimal n)) ++ decimal n

unfoldable pub clock : Bool → ℕ → ℕ → ℕ → Text
clock negative hours minutes seconds =
    (if negative then b'-' ∷ [] else [])
    ++ (padded 2 hours ++ (b':' ∷ (padded 2 minutes ++ (b':' ∷ padded 2 seconds))))

-- `Display`.
unfoldable pub to_string : MysqlTimeValue → Text
to_string t =
    let base = clock t.negative (t.days * 24 + t.hours) t.minutes t.seconds in
    if eqb t.micros 0 && not t.force_fraction then base else base ++ (b'.' ∷ padded 6 t.micros)

-- `u32::to_le_bytes` and `u32::from_le_bytes`.
unfoldable pub to_le_bytes : ℕ → List ℕ
to_le_bytes n = n % 256 ∷ n / 256 % 256 ∷ n / 65536 % 256 ∷ n / 16777216 % 256 ∷ []

unfoldable pub from_le_bytes : ℕ → ℕ → ℕ → ℕ → ℕ
from_le_bytes a b c d = a + b * 256 + c * 65536 + d * 16777216

unfoldable pub is_zero : MysqlTimeValue → Bool
is_zero t = eqb t.days 0 && eqb t.hours 0 && eqb t.minutes 0 && eqb t.seconds 0 && eqb t.micros 0

-- The argument tells whether the column has type TIME.
unfoldable pub to_mysql_bin : Bool → MysqlTimeValue → Result TimeError (List ℕ)
to_mysql_bin is_time_column t =
    if not is_time_column
    then err not_a_time_column
    else if is_zero t
    then ok (0 ∷ [])
    else ok (
        ((if eqb t.micros 0 then 8 else 12) ∷ (if t.negative then 1 else 0) ∷ to_le_bytes t.days)
        ++ ((t.hours ∷ t.minutes ∷ t.seconds ∷ [])
            ++ (if eqb t.micros 0 then [] else to_le_bytes t.micros)))

-- `bytes[i]`, used below the length only.
unfoldable pub byte : List ℕ → ℕ → ℕ
byte [] i = 0
byte (b ∷ bytes) zero = b
byte (b ∷ bytes) (suc i) = byte bytes i

unfoldable pub decode_mysql_date_parameter : List ℕ → Option Text
decode_mysql_date_parameter bytes =
    if is_empty bytes
    then some (text "0000-00-00")
    else if not (eqb (length bytes) 4)
    then none
    else some (
        padded 4 (byte bytes 0 + byte bytes 1 * 256)
        ++ (b'-' ∷ (padded 2 (byte bytes 2) ++ (b'-' ∷ padded 2 (byte bytes 3)))))

unfoldable pub decode_mysql_time_parameter : List ℕ → Option Text
decode_mysql_time_parameter bytes =
    if is_empty bytes
    then some (text "00:00:00")
    else if not (eqb (length bytes) 8 || eqb (length bytes) 12)
    then none
    else let days = from_le_bytes (byte bytes 1) (byte bytes 2) (byte bytes 3) (byte bytes 4) in
      let base =
        clock (not (eqb (byte bytes 0) 0)) (days * 24 + byte bytes 5) (byte bytes 6)
          (byte bytes 7) in
      if eqb (length bytes) 12
      then some (
          base
          ++ (b'.'
              ∷ padded 6
                  (from_le_bytes (byte bytes 8) (byte bytes 9) (byte bytes 10) (byte bytes 11))))
      else some base

unfoldable pub is_digit : ℕ → Bool
is_digit c = leb b'0' c && leb c b'9'

unfoldable pub digits_value : ℕ → Text → ℕ
digits_value n [] = n
digits_value n (c ∷ s) = digits_value (n * 10 + (c - b'0')) s

unfoldable pub parse_digits : ℕ → Text → Option ℕ
parse_digits bound s =
    if not (is_empty s) && all is_digit s && ltb (digits_value 0 s) bound
    then some (digits_value 0 s)
    else none

-- `parse` into an unsigned type with values below `bound`.
unfoldable pub parse_unsigned : ℕ → Text → Option ℕ
parse_unsigned bound [] = none
parse_unsigned bound (c ∷ s) =
    if c == b'+' then parse_digits bound s else parse_digits bound (c ∷ s)

-- `split(c)`: the first part and the others.
unfoldable pub split : ℕ → Text → Text × List Text
split c [] = ([], [])
split c (d ∷ s) =
    let rest = split c s in if d == c then ([], rest.0 ∷ rest.1) else (d ∷ rest.0, rest.1)

-- `split_once(c)`, or the whole text and an empty one.
unfoldable pub split_once : ℕ → Text → Text × Text
split_once c [] = ([], [])
split_once c (d ∷ s) = let rest = split_once c s in if d == c then ([], s) else (d ∷ rest.0, rest.1)

unfoldable pub strip_sign : Text → Bool × Text
strip_sign [] = (false, [])
strip_sign (c ∷ s) =
    if c == b'-' then (true, s) else if c == b'+' then (false, s) else (false, c ∷ s)

unfoldable pub parse_micros : Text → Option ℕ
parse_micros fraction =
    if is_empty fraction
    then some 0
    else if leb (length fraction) 6 && all is_digit fraction
    then parse_unsigned (2 ^ 32) (fraction ++ zeros (6 - length fraction))
    else none

unfoldable pub time_value :
    Bool → Bool → Option ℕ → Option ℕ → Option ℕ → Option ℕ → Result TimeError MysqlTimeValue
time_value negative force_fraction (some hours) (some minutes) (some seconds) (some micros) =
    if ltb 838 hours || ltb 59 minutes || ltb 59 seconds
    then err invalid_time_value
    else ok (record {
      negative = negative;
      days = hours / 24;
      hours = hours % 24;
      minutes = minutes;
      seconds = seconds;
      micros = micros;
      force_fraction = force_fraction;
    })
time_value negative force_fraction hours minutes seconds micros = err invalid_time_value

-- Hours, minutes and seconds with their fraction; absent parts are as texts that do not parse.
unfoldable pub parse_parts : Bool → Bool → Text × List Text → Result TimeError MysqlTimeValue
parse_parts negative force_fraction (hours, minutes ∷ seconds ∷ []) =
    let parts = split_once b'.' seconds in
    time_value negative force_fraction (parse_unsigned (2 ^ 64) hours)
      (parse_unsigned (2 ^ 8) minutes) (parse_unsigned (2 ^ 8) parts.0) (parse_micros parts.1)
parse_parts negative force_fraction parts = err invalid_time_value

unfoldable pub parse_mysql_time_value : Text → Result TimeError MysqlTimeValue
parse_mysql_time_value value =
    let signed = strip_sign value in
    parse_parts signed.0 (contains signed.1 b'.') (split b':' signed.1)

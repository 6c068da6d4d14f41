-- ===== src/Wire/TemporalLaws.antt =====
-- Round trip of binary TIME values and bounds of parsed ones (src/server/mysql_wire.rs).
use my_sqweel.Prelude.{
  text, ℕ, zero, suc, ◌+◌, ◌-◌, ◌*◌, ◌/◌, ◌%◌, ◌^◌, ◌≤◌, ◌<◌, Text, List, [], ◌∷◌, ◌++◌, Option,
  none, some, Bool, true, false, ◌&&◌, ◌≡◌, refl, sym, ap, ◌∙◌, arith, length, length-append, all,
  eqb, ok, nat_eq, Bool-cases, inl, inr, if◌then◌else◌, contains,
}
use my_sqweel.Wire.Temporal.{
  MysqlTimeValue, digits, decimal, zeros, padded, clock, to_string, to_le_bytes, from_le_bytes,
  is_zero, to_mysql_bin, byte, decode_mysql_time_parameter, is_digit, digits_value, parse_digits,
  parse_unsigned, parse_micros, time_value, parse_parts, parse_mysql_time_value, strip_sign, split,
  split_once,
}

-- The four bytes of a `u32` give it back.
from_le_bytes-to_le_bytes :
    (n : ℕ)
    → n < 2 ^ 32
    → from_le_bytes (n % 256) (n / 256 % 256) (n / 65536 % 256) (n / 16777216 % 256) ≡ n
unfolding from_le_bytes
from_le_bytes-to_le_bytes n h = omega (arith, h)

zero_text : clock false 0 0 0 ≡ text "00:00:00"
unfolding clock padded decimal digits zeros
zero_text = refl

zero_fields :
    (t : MysqlTimeValue)
    → is_zero t ≡ true
    → (t.days ≡ 0) × (t.hours ≡ 0) × (t.minutes ≡ 0) × (t.seconds ≡ 0) × (t.micros ≡ 0)
unfolding is_zero
zero_fields t z = (ground arith, ground arith, ground arith, ground arith, ground arith)

abbrev payload : MysqlTimeValue → List ℕ → List ℕ
payload t fraction =
    ((if t.negative then 1 else 0) ∷ to_le_bytes t.days)
    ++ ((t.hours ∷ t.minutes ∷ t.seconds ∷ []) ++ fraction)

payload-length :
    (t : MysqlTimeValue) (fraction : List ℕ) → length (payload t fraction) ≡ 8 + length fraction
unfolding to_le_bytes
payload-length t fraction = omega arith

length-to_le_bytes : (n : ℕ) → length (to_le_bytes n) ≡ 4
unfolding to_le_bytes
length-to_le_bytes n = refl

decode_with_micros :
    (t : MysqlTimeValue)
    → t.days < 2 ^ 32
    → t.micros < 2 ^ 32
    → eqb t.micros 0 ≡ false
    → decode_mysql_time_parameter (payload t (to_le_bytes t.micros)) ≡ some (to_string t)
unfolding decode_mysql_time_parameter to_le_bytes byte to_string
decode_with_micros t days micros nonzero = elim (Bool-cases t.negative) [
  | inl minus ↦
      rw
        (
          from_le_bytes-to_le_bytes t.days days,
          from_le_bytes-to_le_bytes t.micros micros,
          nonzero,
          minus,
        )
        refl
  | inr plus ↦
      rw
        (
          from_le_bytes-to_le_bytes t.days days,
          from_le_bytes-to_le_bytes t.micros micros,
          nonzero,
          plus,
        )
        refl
]

decode_without_micros :
    (t : MysqlTimeValue)
    → t.days < 2 ^ 32
    → t.force_fraction ≡ false
    → eqb t.micros 0 ≡ true
    → decode_mysql_time_parameter (payload t []) ≡ some (to_string t)
unfolding decode_mysql_time_parameter to_le_bytes byte to_string
decode_without_micros t days plain whole = elim (Bool-cases t.negative) [
  | inl minus ↦ rw (from_le_bytes-to_le_bytes t.days days, whole, plain, minus) refl
  | inr plus ↦ rw (from_le_bytes-to_le_bytes t.days days, whole, plain, plus) refl
]

-- For a TIME value whose days and microseconds are `u32`s, whose text has a fraction only for
-- microseconds other than zero, and which has no sign if it is zero: in a TIME column it is written,
-- as its length and as many bytes, and these bytes as a parameter are decoded to its text.
pub decode_mysql_time_parameter-to_mysql_bin :
    (t : MysqlTimeValue)
    → t.days < 2 ^ 32
    → t.micros < 2 ^ 32
    → t.force_fraction ≡ false
    → (is_zero t && t.negative) ≡ false
    → (size : ℕ) × (payload : List ℕ) × (to_mysql_bin true t ≡ ok (size ∷ payload))
      × (length payload ≡ size)
      × (decode_mysql_time_parameter payload ≡ some (to_string t))
unfolding to_mysql_bin
decode_mysql_time_parameter-to_mysql_bin t days micros plain signed =
    elim (Bool-cases (is_zero t)) [
      | inl z ↦
          let (no_days, no_hours, no_minutes, no_seconds, no_micros) = zero_fields t z in
          let unsigned : t.negative ≡ false = ground (arith, z, signed) in
          (
            0,
            [],
            rw z refl,
            refl,
            unfold decode_mysql_time_parameter to_string in
                rw (no_days, no_hours, no_minutes, no_seconds, no_micros, plain, unsigned)
                  (ap some (sym zero_text)),
          )
      | inr nz ↦ elim (Bool-cases (eqb t.micros 0)) [
        | inl whole ↦ (
          8,
          payload t [],
          rw (nz, whole) refl,
          payload-length t [],
          decode_without_micros t days plain whole,
        )
        | inr part ↦ (
          12,
          payload t (to_le_bytes t.micros),
          rw (nz, part) refl,
          payload-length t (to_le_bytes t.micros) ∙ ap (λ n. 8 + n) (length-to_le_bytes t.micros),
          decode_with_micros t days micros part,
        )
      ]
    ]

-- `b * 10 ^ n`.
abbrev pub scaled : ℕ → ℕ → ℕ
scaled zero b = b
scaled (suc n) b = scaled n (b * 10)

digits_value-bound :
    (s : Text) (n b : ℕ) → n < b → all is_digit s ≡ true → digits_value n s < scaled (length s) b
unfolding digits_value is_digit
digits_value-bound [] n b h ds = h
digits_value-bound (c ∷ s) n b h ds =
    digits_value-bound s (n * 10 + (c - b'0')) (b * 10) (ground (arith, h, ds)) (ground (arith, ds))

all-digits-zeros : (s : Text) (n : ℕ) → all is_digit s ≡ true → all is_digit (s ++ zeros n) ≡ true
unfolding zeros is_digit
all-digits-zeros [] zero ds = refl
all-digits-zeros [] (suc n) ds = all-digits-zeros [] n refl
all-digits-zeros (c ∷ s) n ds = ground (arith, all-digits-zeros s n, ds)

length-zeros : (n : ℕ) → length (zeros n) ≡ n
unfolding zeros
length-zeros zero = refl
length-zeros (suc n) = ap suc (length-zeros n)

parse_unsigned-digits :
    (bound : ℕ) (s : Text) (v : ℕ)
    → all is_digit s ≡ true
    → parse_unsigned bound s ≡ some v
    → v ≡ digits_value 0 s
unfolding parse_unsigned parse_digits is_digit
parse_unsigned-digits bound [] v ds h = cc
parse_unsigned-digits bound (c ∷ s) v ds h = ground (arith, ds, h)

ap-lt : {a b c : ℕ} → b ≡ c → a < b → a < c
ap-lt e h = omega (arith, e, h)

parse_micros-bound : (f : Text) (v : ℕ) → parse_micros f ≡ some v → v < 10 ^ 6
unfolding parse_micros
parse_micros-bound [] v h = ground (arith, h)
parse_micros-bound (c ∷ f) v h =
    let ok_length : length (c ∷ f) ≤ 6 = ground (arith, h) in
    let ds : all is_digit (c ∷ f) ≡ true = ground (arith, h) in
    let whole = (c ∷ f) ++ zeros (6 - length (c ∷ f)) in
    let whole_ds = all-digits-zeros (c ∷ f) (6 - length (c ∷ f)) ds in
    let six : length whole ≡ 6 = omega (
      arith,
      length-append (c ∷ f) (zeros (6 - length (c ∷ f))),
      length-zeros (6 - length (c ∷ f)),
      ok_length,
    ) in
    let bound : digits_value 0 whole < scaled (length whole) 1 =
      digits_value-bound whole 0 1 (omega arith) whole_ds in
    let small : digits_value 0 whole < 10 ^ 6 = ap-lt (ap (λ k. scaled k 1) six) bound in
    ground (arith, parse_unsigned-digits (2 ^ 32) whole v whole_ds, h, small)

time_value-bounds :
    (negative force : Bool) (h m s u : Option ℕ) (t : MysqlTimeValue)
    → ((v : ℕ) → u ≡ some v → v < 10 ^ 6)
    → time_value negative force h m s u ≡ ok t
    → (t.days * 24 + t.hours ≤ 838)
      × (t.hours < 24)
      × (t.minutes < 60)
      × (t.seconds < 60)
      × (t.micros < 10 ^ 6)
unfolding time_value
time_value-bounds negative force none m s u t small run = cc
time_value-bounds negative force (some h) none s u t small run = cc
time_value-bounds negative force (some h) (some m) none u t small run = cc
time_value-bounds negative force (some h) (some m) (some s) none t small run = cc
time_value-bounds negative force (some h) (some m) (some s) (some u) t small run =
    ground (arith, run, small u refl)

parse_parts-bounds :
    (negative force : Bool) (parts : Text × List Text) (t : MysqlTimeValue)
    → parse_parts negative force parts ≡ ok t
    → (t.days * 24 + t.hours ≤ 838)
      × (t.hours < 24)
      × (t.minutes < 60)
      × (t.seconds < 60)
      × (t.micros < 10 ^ 6)
unfolding parse_parts
parse_parts-bounds negative force (h, []) t run = cc
parse_parts-bounds negative force (h, m ∷ []) t run = cc
parse_parts-bounds negative force (h, m ∷ s ∷ []) t run =
    let parts = split_once b'.' s in
    time_value-bounds negative force _ _ _ (parse_micros parts.1) t (parse_micros-bound parts.1) run
parse_parts-bounds negative force (h, m ∷ s ∷ x ∷ xs) t run = cc

-- A parsed TIME value has at most 838 hours in all, fewer than 24 beside its days, fewer than 60
-- minutes and seconds, and fewer than a million microseconds.
pub parse_mysql_time_value-bounds :
    (value : Text) (t : MysqlTimeValue)
    → parse_mysql_time_value value ≡ ok t
    → (t.days * 24 + t.hours ≤ 838)
      × (t.hours < 24)
      × (t.minutes < 60)
      × (t.seconds < 60)
      × (t.micros < 10 ^ 6)
unfolding parse_mysql_time_value
parse_mysql_time_value-bounds value t run =
    let signed = strip_sign value in
    parse_parts-bounds signed.0 (contains signed.1 b'.') (split b':' signed.1) t run

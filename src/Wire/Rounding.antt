-- ===== src/Wire/Rounding.antt =====
-- The step that rounds a decimal text up (`increment_decimal_digits` in src/server/mysql_wire.rs).
use my_sqweel.Prelude.{
  ℕ, zero, suc, ◌+◌, ◌-◌, ◌*◌, Text, [], ◌∷◌, Bool, true, false, ◌≡◌, refl, ap, ◌∙◌, ◌≤◌, arith,
  length, all, ◌==◌, nat_eq, if◌then◌else◌, Bool-cases, inl, inr,
}
use my_sqweel.Wire.Temporal.{is_digit, digits_value}
use my_sqweel.Wire.TemporalLaws.{scaled}

-- The loop from the last digit on: the new digits, and whether all of them were nines.
unfoldable pub increment_from_right : Text → Text × Bool
increment_from_right [] = ([], true)
increment_from_right (digit ∷ digits) =
    let r = increment_from_right digits in
    if r.1
    then (if digit == b'9' then (b'0' ∷ r.0, true) else ((digit + 1) ∷ r.0, false))
    else (digit ∷ r.0, false)

unfoldable pub increment_decimal_digits : Text → Text
increment_decimal_digits digits =
    let r = increment_from_right digits in if r.1 then b'1' ∷ r.0 else r.0

scaled-+ : (n a b : ℕ) → scaled n (a + b) ≡ scaled n a + scaled n b
scaled-+ zero a b = refl
scaled-+ (suc n) a b = ground (arith, scaled-+ n (a * 10) (b * 10))

digits_value-+ :
    (s : Text) (n k : ℕ) → digits_value (n + k) s ≡ digits_value n s + scaled (length s) k
unfolding digits_value
digits_value-+ [] n k = refl
digits_value-+ (c ∷ s) n k =
    let e : (n + k) * 10 + (c - b'0') ≡ (n * 10 + (c - b'0')) + k * 10 = omega arith in
    ap (λ m. digits_value m s) e ∙ digits_value-+ s (n * 10 + (c - b'0')) (k * 10)

length-increment_from_right : (s : Text) → length (increment_from_right s).0 ≡ length s
unfolding increment_from_right
length-increment_from_right [] = refl
length-increment_from_right (c ∷ s) = ground (arith, length-increment_from_right s)

-- A digit below nine takes the carry.
step_plain :
    (s : Text) (n c : ℕ)
    → 48 ≤ c
    → digits_value (n * 10 + (c - b'0')) (increment_from_right s).0 + scaled (length s) 1
      ≡ digits_value (n * 10 + (c - b'0')) s + 1
    → digits_value (n * 10 + ((c + 1) - b'0')) (increment_from_right s).0
      ≡ digits_value (n * 10 + (c - b'0')) s + 1
step_plain s n c digit ih =
    let e : n * 10 + ((c + 1) - b'0') ≡ (n * 10 + (c - b'0')) + 1 = omega (arith, digit) in
    ap (λ m. digits_value m (increment_from_right s).0) e
    ∙ digits_value-+ (increment_from_right s).0 (n * 10 + (c - b'0')) 1
    ∙ ap (λ l. digits_value (n * 10 + (c - b'0')) (increment_from_right s).0 + scaled l 1)
        (length-increment_from_right s)
    ∙ ih

-- A nine becomes a zero and passes the carry on.
step_nine :
    (s : Text) (n : ℕ)
    → digits_value (n * 10 + 9) (increment_from_right s).0 + scaled (length s) 1
      ≡ digits_value (n * 10 + 9) s + 1
    → digits_value (n * 10 + 0) (increment_from_right s).0 + scaled (length s) 10
      ≡ digits_value (n * 10 + 9) s + 1
step_nine s n ih =
    let zero_added : n * 10 + 0 ≡ n * 10 = omega arith in
    let shifted = digits_value-+ (increment_from_right s).0 (n * 10) 9 in
    let l = ap (λ l. scaled l 9) (length-increment_from_right s) in
    let z = ap (λ m. digits_value m (increment_from_right s).0) zero_added in
    omega (arith, ih, shifted, l, z, scaled-+ (length s) 9 1)

increment_from_right-value :
    (s : Text) (n : ℕ)
    → all is_digit s ≡ true
    → digits_value n (increment_from_right s).0
        + (if (increment_from_right s).1 then scaled (length s) 1 else 0)
      ≡ digits_value n s + 1
unfolding increment_from_right digits_value is_digit
increment_from_right-value [] n ds = refl
increment_from_right-value (c ∷ s) n ds =
    let m = n * 10 + (c - b'0') in
    let rest : all is_digit s ≡ true = ground (arith, ds) in
    let ih = increment_from_right-value s m rest in
    let low : 48 ≤ c = ground (arith, ds) in
    elim (Bool-cases (increment_from_right s).1) [
      | inr done ↦ rw done (rw done at ih)
      | inl carry ↦ elim (Bool-cases (c == b'9')) [
        | inl nine ↦
            let is_nine : c ≡ 57 = ground (arith, nine) in
            let ih_nine = increment_from_right-value s (n * 10 + 9) rest in
            rw (carry, is_nine) (step_nine s n (rw carry at ih_nine))
        | inr less ↦ rw (carry, less) (omega (arith, step_plain s n c low (rw carry at ih)))
      ]
    ]

increment_from_right_digits :
    (s : Text) → all is_digit s ≡ true → all is_digit (increment_from_right s).0 ≡ true
unfolding increment_from_right is_digit
increment_from_right_digits [] ds = refl
increment_from_right_digits (c ∷ s) ds = ground (arith, increment_from_right_digits s, ds)

-- Adding one to a text of decimal digits adds one to its value, and gives decimal digits again: a carry
-- out of the first digit becomes a new digit.
pub increment_decimal_digits-value :
    (s : Text)
    → all is_digit s ≡ true
    → (digits_value 0 (increment_decimal_digits s) ≡ digits_value 0 s + 1)
      × (all is_digit (increment_decimal_digits s) ≡ true)
unfolding increment_decimal_digits
increment_decimal_digits-value s ds =
    let ih = increment_from_right-value s 0 ds in
    let digits = increment_from_right_digits s ds in
    elim (Bool-cases (increment_from_right s).1) [
      | inr done ↦ rw done (omega (arith, rw done at ih), digits)
      | inl carry ↦ rw carry (
        unfold digits_value in
            digits_value-+ (increment_from_right s).0 0 1
            ∙ ap (λ l. digits_value 0 (increment_from_right s).0 + scaled l 1)
                (length-increment_from_right s)
            ∙ (rw carry at ih),
        unfold is_digit in digits,
      )
    ]

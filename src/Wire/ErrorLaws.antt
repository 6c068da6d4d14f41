-- ===== src/Wire/ErrorLaws.antt =====
-- The case of letters does not decide an error code (`mysql_error_kind` in src/server/mysql_wire.rs).
use my_sqweel.Prelude.{Text, [], ◌∷◌, ◌≡◌, refl, arith, nat_eq}
use my_sqweel.Wire.Errors.{to_ascii_lowercase, mysql_error_kind}

to_ascii_lowercase_idem :
    (s : Text) → to_ascii_lowercase (to_ascii_lowercase s) ≡ to_ascii_lowercase s
unfolding to_ascii_lowercase
to_ascii_lowercase_idem [] = refl
to_ascii_lowercase_idem (c ∷ s) = ground (arith, to_ascii_lowercase_idem s)

-- The case of ASCII letters in a message does not matter.
pub mysql_error_kind-lowercase :
    (message : Text) → mysql_error_kind (to_ascii_lowercase message) ≡ mysql_error_kind message
unfolding mysql_error_kind
mysql_error_kind-lowercase message = rw (to_ascii_lowercase_idem message) refl

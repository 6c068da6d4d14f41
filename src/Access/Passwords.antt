-- ===== src/Access/Passwords.antt =====
-- Native password verification (`Catalog::authenticate` of src/sql/engine/catalog.rs).
use Prim.Native.Nat.{bit_or, bit_xor}
use my_sqweel.Prelude.{
  ℕ, zero, suc, ◌<◌, Text, List, [], ◌∷◌, ◌++◌, some, Bool, true, false, ◌&&◌, ◌≡◌, ◌≢◌, ◌↔◌, refl,
  ap, arith, All, lookup, length, ltb, eqb, nat_eq, list_eq, if◌then◌else◌,
}
use my_sqweel.Access.Accounts.{
  Account, Catalog, password_hash, xor_bytes, difference, verify_response, authenticate,
}

abbrev pub IsByte : ℕ → Type 0
IsByte b = b < 256

-- A fact about two bytes, checked at each pair.
tabulated : (ℕ → Bool) → ℕ → Bool
tabulated test zero = true
tabulated test (suc bound) = tabulated test bound && test bound

tabulated-at :
    (test : ℕ → Bool) (bound k : ℕ) → k < bound → tabulated test bound ≡ true → test k ≡ true
unfolding tabulated
tabulated-at test zero k small table = absurd (omega (arith, small))
tabulated-at test (suc bound) k small table =
    ground (arith, tabulated-at test bound k, table, small)

-- Two bytes: `^` undoes itself, it is 0 exactly at equal bytes, `|` is 0 exactly at two zeros, and
-- both stay bytes.
xor_facts : ℕ → ℕ → Bool
xor_facts a b =
    eqb (bit_xor (bit_xor a b) b) a
    && eqb (bit_xor a a) 0
    && ltb (bit_xor a b) 256
    && ltb (bit_or a b) 256
    && (if eqb (bit_xor a b) 0 then eqb a b else true)
    && (if eqb (bit_or a b) 0 then eqb a 0 && eqb b 0 else true)

xor_row : ℕ → Bool
xor_row a = tabulated (xor_facts a) 256

xor_table : tabulated xor_row 256 ≡ true
unfolding tabulated xor_row xor_facts
xor_table = refl

facts : (a b : ℕ) → IsByte a → IsByte b → xor_facts a b ≡ true
unfolding xor_row
facts a b ha hb = tabulated-at (xor_facts a) 256 b hb (tabulated-at xor_row 256 a ha xor_table)

xor_laws :
    (a b : ℕ)
    → IsByte a
    → IsByte b
    → (bit_xor (bit_xor a b) b ≡ a)
      × (bit_xor a a ≡ 0)
      × (bit_xor a b < 256)
      × (bit_or a b < 256)
      × (bit_xor a b ≡ 0 → a ≡ b)
      × (bit_or a b ≡ 0 → (a ≡ 0) × (b ≡ 0))
unfolding xor_facts
xor_laws a b ha hb =
    let f = facts a b ha hb in
    (ground arith, ground arith, ground arith, ground arith, λ e. ground arith, λ e. ground arith)

-- The masked bytes come back under the same mask.
xor_bytes_twice :
    (xs ys : List ℕ)
    → All IsByte xs
    → All IsByte ys
    → length xs ≡ length ys
    → (xor_bytes (xor_bytes xs ys) ys ≡ xs) × (length (xor_bytes xs ys) ≡ length xs)
unfolding xor_bytes
xor_bytes_twice [] ys hx hy e = (refl, refl)
xor_bytes_twice (x ∷ xs) [] hx hy e = absurd (omega arith)
xor_bytes_twice (x ∷ xs) (y ∷ ys) (px, hx) (py, hy) e =
    ground (arith, xor_laws x y px py, xor_bytes_twice xs ys hx hy)

difference_self : (xs : List ℕ) → All IsByte xs → difference 0 xs xs ≡ 0
unfolding difference
difference_self [] h = refl
difference_self (x ∷ xs) (px, h) = rw ((xor_laws x x px px).1) (difference_self xs h)

difference_zero :
    (d : ℕ) (xs ys : List ℕ)
    → IsByte d
    → All IsByte xs
    → All IsByte ys
    → length xs ≡ length ys
    → difference d xs ys ≡ 0
    → (d ≡ 0) × (xs ≡ ys)
unfolding difference
difference_zero d [] [] hd hx hy e h = (h, refl)
difference_zero d [] (y ∷ ys) hd hx hy e h = absurd (omega arith)
difference_zero d (x ∷ xs) [] hd hx hy e h = absurd (omega arith)
difference_zero d (x ∷ xs) (y ∷ ys) hd (px, hx) (py, hy) e h =
    let l = xor_laws x y px py in
    let m = xor_laws d (bit_xor x y) hd l.2 in
    let ih = difference_zero (bit_or d (bit_xor x y)) xs ys m.3 hx hy (omega arith) h in
    ground (arith, m.5 ih.0, l.4)

-- What the program relies on of SHA-1: a digest is 20 bytes.
abbrev pub IsDigest : (List ℕ → List ℕ) → Type 0
IsDigest hash = (m : List ℕ) → All IsByte (hash m) × (length (hash m) ≡ 20)

-- A response passes exactly when it has 20 bytes and, unmasked with the hash of the challenge and the
-- stored hash, it hashes to the stored hash: the comparison by `^` and `|` is equality.
pub verify_response_iff :
    (hash : List ℕ → List ℕ) (expected salt response : List ℕ)
    → IsDigest hash
    → All IsByte expected
    → length expected ≡ 20
    → (verify_response hash expected salt response ≡ true)
      ↔ ((length response ≡ 20) × (hash (xor_bytes response (hash (salt ++ expected))) ≡ expected))
unfolding verify_response
verify_response_iff hash expected salt response digest he len = (forth, back)
  where
    actual : List ℕ
    actual = hash (xor_bytes response (hash (salt ++ expected)))

    forth :
        (if eqb (length response) 20 then eqb (difference 0 actual expected) 0 else false) ≡ true
        → (length response ≡ 20) × (actual ≡ expected)
    forth h = ground (
      arith,
      difference_zero 0 actual expected (omega arith) (digest _).0 he
          (omega (arith, (digest (xor_bytes response (hash (salt ++ expected)))).1)),
    )

    back :
        (length response ≡ 20) × (actual ≡ expected)
        → (if eqb (length response) 20 then eqb (difference 0 actual expected) 0 else false) ≡ true
    back (l, e) = rw (l, e) (ground (arith, difference_self expected he))

-- The response that a MySQL client computes from the clear-text password and the challenge.
abbrev pub client_response : (List ℕ → List ℕ) → Text → List ℕ → List ℕ
client_response hash password salt = xor_bytes (hash password) (hash (salt ++ hash (hash password)))

-- A client that knows the password of an account, and answers the challenge by the native-password
-- scheme, is authenticated, whatever the challenge is.
pub authenticate-client :
    (hash : List ℕ → List ℕ) (c : Catalog) (u password salt : List ℕ) (a : Account)
    → IsDigest hash
    → lookup u c.users ≡ some a
    → password ≢ []
    → a.password_hash ≡ password_hash hash password
    → authenticate hash c u salt (client_response hash password salt) ≡ true
unfolding authenticate password_hash
authenticate-client hash c u [] salt a digest known set stored = absurd (set refl)
authenticate-client hash c u (x ∷ xs) salt a digest known set stored =
    let mask = digest (salt ++ hash (hash (x ∷ xs))) in
    let first = digest (x ∷ xs) in
    let second = digest (hash (x ∷ xs)) in
    let back =
      xor_bytes_twice (hash (x ∷ xs)) (hash (salt ++ hash (hash (x ∷ xs)))) first.0 mask.0
        (omega (arith, first.1, mask.1)) in
    let passes =
      (verify_response_iff hash (hash (hash (x ∷ xs))) salt (client_response hash (x ∷ xs) salt)
          digest second.0 second.1).1
        (omega (arith, back.1, first.1), ap hash back.0) in
    ground (arith, passes)

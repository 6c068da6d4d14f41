-- ===== src/Prelude/Texts.antt =====
-- Literals, prefixes of texts, their order by code points, and texts without a zero byte.
use Prim.Native.Nat.{ℕ, ◌-◌}
use Prim.Native.Char.{code}
use Prim.Native.String.{String}
use mathlib.Core.Bool.{Bool, true, false, not, ◌&&◌, ◌||◌}
use mathlib.Core.List.{List, [], ◌∷◌, ◌++◌}
use mathlib.Core.Path.{◌≡◌, refl}
use my_sqweel.Prelude.Tests.{ltb, leb, eqb, ◌==◌, nat_eq, list_eq, beq_refl, if◌then◌else◌}
use my_sqweel.Prelude.Maps.{all}

-- The code points of a literal: its bytes, if it is ASCII.
abbrev pub text : String → List ℕ
text String.[] = []
text (String.◌∷◌ first others) = code first ∷ text others

unfoldable pub starts_with : List ℕ → List ℕ → Bool
starts_with [] s = true
starts_with (c ∷ prefix) [] = false
starts_with (c ∷ prefix) (d ∷ s) = (c == d) && starts_with prefix s

-- Whether the first text comes before the second.
unfoldable pub text_ltb : List ℕ → List ℕ → Bool
text_ltb s [] = false
text_ltb [] (d ∷ t) = true
text_ltb (c ∷ s) (d ∷ t) = ltb c d || ((c == d) && text_ltb s t)

pub starts_with-append : (s t : List ℕ) → starts_with s (s ++ t) ≡ true
unfolding starts_with
starts_with-append [] t = refl
starts_with-append (c ∷ s) t = rw (beq_refl c, starts_with-append s t) refl

-- No zero byte.
abbrev pub is_plain : List ℕ → Bool
is_plain = all (λ c. not (eqb c 0))

abbrev to_upper : ℕ → ℕ
to_upper c = if leb 97 c && leb c 122 then c - 32 else c

unfoldable pub to_ascii_uppercase : List ℕ → List ℕ
to_ascii_uppercase [] = []
to_ascii_uppercase (c ∷ s) = to_upper c ∷ to_ascii_uppercase s

-- `eq_ignore_ascii_case`.
abbrev pub same_ignoring_case : List ℕ → List ℕ → Bool
same_ignoring_case s t = to_ascii_uppercase s == to_ascii_uppercase t

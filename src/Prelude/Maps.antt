-- ===== src/Prelude/Maps.antt =====
-- Maps and sets of the standard library as association lists and lists, over keys with `Eq`.
-- A `Map K V` stands for a `BTreeMap` or `HashMap`: `insert` replaces the binding of its key or adds one.
use mathlib.Core.Path.{◌≡◌, refl}
use mathlib.Core.Bool.{Bool, true, false, not, ◌&&◌, ◌||◌}
use mathlib.Core.Option.{Option, none, some}
use mathlib.Core.List.{List, [], ◌∷◌, ◌++◌}
use native.Mathlib.Omega.{arith}
use my_sqweel.Prelude.Tests.{if◌then◌else◌, Eq, ◌==◌}

abbrev pub Map {ℓ κ} : Type ℓ → Type κ → Type (ℓ ⊔ κ)
Map K V = List (K × V)

abbrev pub is_some {ℓ} : {A : Type ℓ} → Option A → Bool
is_some none = false
is_some (some a) = true

-- `is_some_and` and `is_none_or` of `Option`.
abbrev pub is_some_and {ℓ} : {A : Type ℓ} → Option A → (A → Bool) → Bool
is_some_and none p = false
is_some_and (some a) p = p a

abbrev pub is_none_or {ℓ} : {A : Type ℓ} → Option A → (A → Bool) → Bool
is_none_or none p = true
is_none_or (some a) p = p a

-- `and_then` of `Option`.
abbrev pub and_then {ℓ κ} : {A : Type ℓ} {B : Type κ} → Option A → (A → Option B) → Option B
and_then none f = none
and_then (some a) f = f a

abbrev pub or_else {ℓ} : {A : Type ℓ} → Option A → Option A → Option A
or_else none next = next
or_else (some a) next = some a

abbrev pub unwrap_or {ℓ} : {A : Type ℓ} → A → Option A → A
unwrap_or a none = a
unwrap_or a (some b) = b

-- `unwrap_or_default` of a collection.
abbrev pub unwrap_or_default {ℓ} : {A : Type ℓ} → Option (List A) → List A
unwrap_or_default none = []
unwrap_or_default (some xs) = xs

abbrev pub any {ℓ} : {A : Type ℓ} → (A → Bool) → List A → Bool
any p [] = false
any p (x ∷ xs) = p x || any p xs

abbrev pub all {ℓ} : {A : Type ℓ} → (A → Bool) → List A → Bool
all p [] = true
all p (x ∷ xs) = p x && all p xs

abbrev pub is_empty {ℓ} : {A : Type ℓ} → List A → Bool
is_empty [] = true
is_empty (x ∷ xs) = false

abbrev pub retain {ℓ} : {A : Type ℓ} → (A → Bool) → List A → List A
retain p [] = []
retain p (x ∷ xs) = let rest = retain p xs in if p x then x ∷ rest else rest

module _ {ℓ} {K : Type ℓ} ⦃e : Eq K⦄ where
  -- A set's `contains`.
  abbrev pub contains : List K → K → Bool
  contains [] k = false
  contains (j ∷ s) k = (j == k) || contains s k

  unfoldable pub add : K → List K → List K
  add k s = if contains s k then s else s ++ (k ∷ [])

  -- `extend` of a set, and `remove` of one of its elements.
  unfoldable pub extend : List K → List K → List K
  extend s [] = s
  extend s (k ∷ ks) = extend (add k s) ks

  unfoldable pub discard : K → List K → List K
  discard k s = retain (λ j. not (j == k)) s

module _ {ℓ κ} {K : Type ℓ} {V : Type κ} ⦃e : Eq K⦄ where
  unfoldable pub lookup : K → Map K V → Option V
  lookup k [] = none
  lookup k ((j, v) ∷ m) = if j == k then some v else lookup k m

  unfoldable pub insert : K → V → Map K V → Map K V
  insert k v [] = (k, v) ∷ []
  insert k v ((j, w) ∷ m) = if j == k then (k, v) ∷ m else (j, w) ∷ insert k v m

  unfoldable pub remove : K → Map K V → Map K V
  remove k [] = []
  remove k ((j, w) ∷ m) = if j == k then remove k m else (j, w) ∷ remove k m

  pub lookup-insert :
      (new key : K) (value : V) (m : Map K V)
      → lookup key (insert new value m) ≡ (if new == key then some value else lookup key m)
  unfolding lookup insert
  lookup-insert new key value [] = refl
  lookup-insert new key value ((old, w) ∷ m) = ground (
    arith,
    lookup-insert new key value m,
    e.beq_decides new key,
    e.beq_decides old new,
    e.beq_decides old key,
  )

  pub lookup-remove :
      (k j : K) (m : Map K V) → lookup j (remove k m) ≡ (if k == j then none else lookup j m)
  unfolding lookup remove
  lookup-remove k j [] = ground arith
  lookup-remove k j ((i, w) ∷ m) =
      ground (arith, e.beq_decides k j, e.beq_decides i k, e.beq_decides i j, lookup-remove k j m)

  -- One step of a search, for proofs in which `lookup` stays shut elsewhere.
  pub lookup-cons :
      (k j : K) (v : V) (m : Map K V)
      → lookup k ((j, v) ∷ m) ≡ (if j == k then some v else lookup k m)
  unfolding lookup
  lookup-cons k j v m = refl

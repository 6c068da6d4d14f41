-- ===== src/Prelude/MapLaws.antt =====
-- Laws of sets as lists and of maps with each key once.
use mathlib.Core.Path.{◌≡◌, refl}
use mathlib.Core.Bool.{Bool, true, false, not, ◌&&◌, ◌||◌}
use mathlib.Core.Option.{none, some}
use mathlib.Core.List.{List, [], ◌∷◌, ◌++◌, map}
use mathlib.Core.Logic.{inl, inr}
use native.Mathlib.Omega.{arith}
use my_sqweel.Prelude.Tests.{if◌then◌else◌, Eq, ◌==◌, Bool-cases, beq_refl}
use my_sqweel.Prelude.Lists.{All, flat_map, All-weaken}
use my_sqweel.Prelude.Maps.{
  Map, any, retain, contains, add, extend, discard, lookup, insert, remove, lookup-insert,
  lookup-remove,
}

module _ {ℓ} {A : Type ℓ} where
  pub any-append : (p : A → Bool) (xs ys : List A) → any p (xs ++ ys) ≡ (any p xs || any p ys)
  any-append p [] ys = refl
  any-append p (x ∷ xs) ys = ground (arith, any-append p xs ys)

  -- Nothing passes a test that each element fails.
  pub any-none : (p : A → Bool) (xs : List A) → All (λ x. p x ≡ false) xs → any p xs ≡ false
  any-none p [] h = refl
  any-none p (x ∷ xs) (hx, h) = ground (arith, any-none p xs h)

module _ {ℓ} {K : Type ℓ} ⦃e : Eq K⦄ where
  pub contains-append :
      (xs ys : List K) (k : K) → contains (xs ++ ys) k ≡ (contains xs k || contains ys k)
  contains-append [] ys k = refl
  contains-append (x ∷ xs) ys k = ground (arith, contains-append xs ys k)

  pub contains-snoc :
      (xs : List K) (x k : K) → contains (xs ++ (x ∷ [])) k ≡ (contains xs k || (x == k))
  contains-snoc [] x k = ground arith
  contains-snoc (y ∷ xs) x k = ground (arith, contains-snoc xs x k)

  pub contains-add :
      (x : K) (xs : List K) (k : K) → contains (add x xs) k ≡ (contains xs k || (x == k))
  unfolding add
  contains-add x xs k = elim (Bool-cases (contains xs x)) [
    | inl old ↦ ground (arith, e.beq_decides x k)
    | inr new ↦ ground (arith, contains-snoc xs x k)
  ]

  pub contains-retain :
      (xs : List K) (x k : K)
      → contains (retain (λ (y : K). not (y == x)) xs) k ≡ (contains xs k && not (x == k))
  contains-retain [] x k = refl
  contains-retain (y ∷ xs) x k =
      ground
        (arith, contains-retain xs x k, e.beq_decides y x, e.beq_decides y k, e.beq_decides x k)

  pub contains-extend :
      (s ks : List K) (k : K) → contains (extend s ks) k ≡ (contains s k || contains ks k)
  unfolding extend
  contains-extend s [] k = ground arith
  contains-extend s (j ∷ ks) k = ground (arith, contains-extend (add j s) ks k, contains-add j s k)

  pub contains-discard :
      (j : K) (s : List K) (k : K) → contains (discard j s) k ≡ (contains s k && not (j == k))
  unfolding discard
  contains-discard j s k =
      ground (arith, contains-retain s j k, e.beq_decides j k, e.beq_decides k j)

module _ {ℓ κ} {K : Type ℓ} {V : Type κ} ⦃e : Eq K⦄ where
  -- Each key has one binding.
  abbrev pub UniqueKeys : Map K V → Type κ
  UniqueKeys [] = Unit
  UniqueKeys ((k, v) ∷ m) = (lookup k m ≡ none) × UniqueKeys m

  pub lookup-retain :
      (p : K × V → Bool) (k : K) (m : Map K V)
      → UniqueKeys m
      → lookup k (retain p m)
        ≡ elim (lookup k m) [ none ↦ none | some v ↦ if p (k, v) then some v else none ]
  unfolding lookup
  lookup-retain p k [] u = refl
  lookup-retain p k ((j, w) ∷ m) (fresh, u) =
      ground (arith, lookup-retain p k m u, e.beq_decides j k)

  pub UniqueKeys-insert : (k : K) (v : V) (m : Map K V) → UniqueKeys m → UniqueKeys (insert k v m)
  unfolding insert
  UniqueKeys-insert k v [] u = (unfold lookup in refl, tt)
  UniqueKeys-insert k v ((j, w) ∷ m) (fresh, u) = elim (Bool-cases (j == k)) [
    | inl same ↦ rw same (rw ((e.beq_decides j k).0 same) at fresh, u)
    | inr other ↦ rw other (
      rw (lookup-insert k j v m) (ground (arith, e.beq_decides j k, e.beq_decides k j)),
      UniqueKeys-insert k v m u,
    )
  ]

  pub UniqueKeys-remove : (k : K) (m : Map K V) → UniqueKeys m → UniqueKeys (remove k m)
  unfolding remove
  UniqueKeys-remove k [] u = tt
  UniqueKeys-remove k ((j, w) ∷ m) (fresh, u) = elim (Bool-cases (j == k)) [
    | inl same ↦ rw same (UniqueKeys-remove k m u)
    | inr other ↦
        rw other
          (rw (lookup-remove k j m) (ground (arith, e.beq_decides k j)), UniqueKeys-remove k m u)
  ]

  pub UniqueKeys-retain : (p : K × V → Bool) (m : Map K V) → UniqueKeys m → UniqueKeys (retain p m)
  UniqueKeys-retain p [] u = tt
  UniqueKeys-retain p ((j, w) ∷ m) (fresh, u) = elim (Bool-cases (p (j, w))) [
    | inl kept ↦ rw kept (rw (lookup-retain p j m u, fresh) (refl), UniqueKeys-retain p m u)
    | inr gone ↦ rw gone (UniqueKeys-retain p m u)
  ]

module _ {ℓ κ} {A : Type ℓ} {B : Type κ} where
  pub any-flat_map :
      (p : B → Bool) (f : A → List B) (xs : List A)
      → any p (flat_map f xs) ≡ any (λ x. any p (f x)) xs
  any-flat_map p f [] = refl
  any-flat_map p f (x ∷ xs) = rw (any-append p (f x) (flat_map f xs), any-flat_map p f xs)

  pub any-map : (p : B → Bool) (f : A → B) (xs : List A) → any p (map f xs) ≡ any (λ x. p (f x)) xs
  any-map p f [] = refl
  any-map p f (x ∷ xs) = ground (arith, any-map p f xs)

module _ {ℓ} {K : Type ℓ} ⦃e : Eq K⦄ where
  pub any-contains :
      (p : K → Bool) (xs : List K) (k : K) → contains xs k ≡ true → p k ≡ true → any p xs ≡ true
  any-contains p [] k h pk = cc
  any-contains p (x ∷ xs) k h pk = ground (arith, any-contains p xs k, e.beq_decides x k)

module _ {ℓ κ} {K : Type ℓ} {V : Type κ} ⦃e : Eq K⦄ where
  pub any-lookup :
      (p : K × V → Bool) (m : Map K V) (k : K) (v : V)
      → lookup k m ≡ some v
      → p (k, v) ≡ true
      → any p m ≡ true
  unfolding lookup
  any-lookup p [] k v h pk = cc
  any-lookup p ((j, w) ∷ m) k v h pk = ground (arith, any-lookup p m k v, e.beq_decides j k)

  pub All-lookup : (m : Map K V) → UniqueKeys m → All (λ (p : K × V). lookup p.0 m ≡ some p.1) m
  unfolding lookup
  All-lookup [] u = tt
  All-lookup ((j, w) ∷ m) (fresh, u) = (
    ground (arith, beq_refl j),
    All-weaken (λ (p : K × V). lookup p.0 m ≡ some p.1)
        (λ (p : K × V). lookup p.0 ((j, w) ∷ m) ≡ some p.1) m (All-lookup m u)
        (λ p h. ground (arith, e.beq_decides j p.0)),
  )

module _ {ℓ κ} {A : Type ℓ} {B : Type κ} (p : B → Bool) (f : A → List B) where
  pub any-flat_map-contains :
      ⦃e : Eq A⦄ (xs : List A) (x : A)
      → contains xs x ≡ true
      → any p (f x) ≡ true
      → any p (flat_map f xs) ≡ true
  any-flat_map-contains xs x here hit =
      rw (any-flat_map p f xs) (any-contains (λ y. any p (f y)) xs x here hit)

  pub any-flat_map-every :
      (xs : List A) → ((x : A) → any p (f x) ≡ false) → any p (flat_map f xs) ≡ false
  any-flat_map-every [] h = refl
  any-flat_map-every (x ∷ xs) h =
      rw (any-append p (f x) (flat_map f xs), h x, any-flat_map-every xs h) refl

module _ {ℓ κ μ} {K : Type ℓ} {V : Type κ} {B : Type μ} ⦃e : Eq K⦄ where
  pub any-flat_map-lookup :
      (p : B → Bool) (f : K × V → List B) (m : Map K V) (k : K) (v : V)
      → lookup k m ≡ some v
      → any p (f (k, v)) ≡ true
      → any p (flat_map f m) ≡ true
  any-flat_map-lookup p f m k v here hit =
      rw (any-flat_map p f m) (any-lookup (λ y. any p (f y)) m k v here hit)

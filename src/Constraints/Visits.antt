-- ===== src/Constraints/Visits.antt =====
-- Visited rows of a cascade: what is visited stays so, and fresh rows leave fewer unvisited
-- (src/sql/engine/dml.rs).
use my_sqweel.Prelude.{
  ℕ, suc, ◌≤◌, ◌<◌, Text, List, [], ◌∷◌, true, false, if◌then◌else◌, ◌≡◌, refl, arith, add,
  contains, contains-add, is_empty, ◌==◌, nat_eq, list_eq, pair_eq, pair_beq_iff, Bool-cases, inl,
  inr, ◌⊎◌, beq_refl,
}
use my_sqweel.Constraints.Cascade.{take_fresh}

-- How many of some rows are not visited.
unfoldable pub unvisited : List (Text × Text) → List (Text × Text) → ℕ
unvisited [] visited = 0
unvisited (p ∷ pairs) visited =
    let rest = unvisited pairs visited in if contains visited p then rest else suc rest

pub unvisited_mono :
    (pairs visited visited' : List (Text × Text))
    → ((p : Text × Text) → contains visited p ≡ true → contains visited' p ≡ true)
    → unvisited pairs visited' ≤ unvisited pairs visited
unfolding unvisited
unvisited_mono [] visited visited' grows = omega arith
unvisited_mono (p ∷ pairs) visited visited' grows =
    ground (arith, unvisited_mono pairs visited visited' grows, grows p)

pub unvisited_less :
    (pairs visited visited' : List (Text × Text)) (p : Text × Text)
    → ((q : Text × Text) → contains visited q ≡ true → contains visited' q ≡ true)
    → contains pairs p ≡ true
    → contains visited p ≡ false
    → contains visited' p ≡ true
    → unvisited pairs visited' < unvisited pairs visited
unfolding unvisited
unvisited_less [] visited visited' p grows here before after = cc
unvisited_less (q ∷ pairs) visited visited' p grows here before after = elim (Bool-cases (q == p)) [
  | inl same ↦
      let equal = (pair_beq_iff q p).0 same in
      rw (equal, before, after) (ground (arith, unvisited_mono pairs visited visited' grows))
  | inr other ↦
      ground
        (arith, unvisited_less pairs visited visited' p grows (ground arith) before after, grows q)
]

-- What is visited stays so, and fresh keys are visited for the first time.
pub take_fresh-grows :
    (table : Text) (keys : List Text) (visited : List (Text × Text)) (p : Text × Text)
    → contains visited p ≡ true
    → contains (take_fresh table keys visited).1 p ≡ true
unfolding take_fresh
take_fresh-grows table [] visited p h = h
take_fresh-grows table (key ∷ keys) visited p h =
    elim (Bool-cases (contains visited (table, key))) [
      | inl old ↦ rw old (take_fresh-grows table keys visited p h)
      | inr new ↦ rw new (
          take_fresh-grows table keys (add (table, key) visited) p
            (rw (contains-add (table, key) visited p, h) refl))
    ]

pub take_fresh-progress :
    (table : Text) (keys : List Text) (visited : List (Text × Text))
    → (is_empty (take_fresh table keys visited).0 ≡ true)
      ⊎ ((key : Text) × (contains keys key ≡ true)
          × (contains visited (table, key) ≡ false)
          × (contains (take_fresh table keys visited).1 (table, key) ≡ true))
unfolding take_fresh
take_fresh-progress table [] visited = inl refl
take_fresh-progress table (key ∷ keys) visited = elim (Bool-cases (contains visited (table, key))) [
  | inl old ↦ elim (take_fresh-progress table keys visited) [
    | inl none_fresh ↦ rw old (inl none_fresh)
    | inr (k, here, before, after) ↦ rw old (inr (k, ground arith, before, after))
  ]
  | inr new ↦ rw new (
      inr (
        key,
        rw (beq_refl key) refl,
        new,
        take_fresh-grows table keys (add (table, key) visited) (table, key)
            (rw
              (
                contains-add (table, key) visited (table, key),
                beq_refl {A = Text × Text} (table, key),
              )
              (ground arith)),
      ))
]

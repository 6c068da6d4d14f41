-- ===== src/Queries/SetLaws.antt =====
-- How often a row occurs in the result of INTERSECT and EXCEPT (src/sql/engine/query.rs).
use my_sqweel.Prelude.{
  ℕ, suc, ◌+◌, ◌-◌, min, Text, List, [], ◌∷◌, Bool, true, false, not, ◌&&◌, ◌||◌, if◌then◌else◌,
  ◌≡◌, refl, arith, Map, lookup, insert, lookup-insert, add, contains, contains-add, is_some, eqb,
  ltb, ◌==◌, nat_eq, list_eq, list_beq_iff, Bool-cases, inl, inr,
}
use my_sqweel.Constraints.Schema.{Row, JsonText}
use my_sqweel.Queries.SetOperations.{
  count_or_zero, encode_set_row, count_rows, intersect_rows, set_intersection, subtract_rows,
  set_difference,
}

module _ {Number Document : Type 0} (json : JsonText Number Document) (columns : List Text) where
  -- How many of the rows have a key.
  unfoldable pub occurrences : Text → List (Row Number Document) → ℕ
  occurrences key [] = 0
  occurrences key (row ∷ rows) =
      let rest = occurrences key rows in
      if encode_set_row json columns row == key then suc rest else rest

  occurrences-cons :
      (key : Text) (row : Row Number Document) (rows : List (Row Number Document))
      → occurrences key (row ∷ rows) ≡ (
          if encode_set_row json columns row == key
          then suc (occurrences key rows)
          else occurrences key rows)
  unfolding occurrences
  occurrences-cons key row rows = refl

  occurrences-nil : (key : Text) → occurrences key [] ≡ 0
  unfolding occurrences
  occurrences-nil key = refl

  count_rows-occurrences :
      (counts : Map Text ℕ) (rows : List (Row Number Document)) (key : Text)
      → count_or_zero (lookup key (count_rows json columns counts rows))
        ≡ count_or_zero (lookup key counts) + occurrences key rows
  unfolding count_rows
  count_rows-occurrences counts [] key = omega (arith, occurrences-nil key)
  count_rows-occurrences counts (row ∷ rows) key =
      let k = encode_set_row json columns row in
      let count = suc (count_or_zero (lookup k counts)) in
      elim (Bool-cases (k == key)) [
        | inl same ↦
            rw
              (
                count_rows-occurrences (insert k count counts) rows key,
                lookup-insert k key count counts,
                occurrences-cons key row rows,
                same,
                (list_beq_iff k key).0 same,
              )
              (omega arith)
        | inr other ↦
            rw
              (
                count_rows-occurrences (insert k count counts) rows key,
                lookup-insert k key count counts,
                occurrences-cons key row rows,
                other,
              )
              refl
      ]

  count_rows-is_some :
      (counts : Map Text ℕ) (rows : List (Row Number Document)) (key : Text)
      → is_some (lookup key (count_rows json columns counts rows))
        ≡ (is_some (lookup key counts) || ltb 0 (occurrences key rows))
  unfolding count_rows
  count_rows-is_some counts [] key = ground (arith, occurrences-nil key)
  count_rows-is_some counts (row ∷ rows) key =
      let k = encode_set_row json columns row in
      let count = suc (count_or_zero (lookup k counts)) in
      elim (Bool-cases (k == key)) [
        | inl same ↦
            rw
              (
                count_rows-is_some (insert k count counts) rows key,
                lookup-insert k key count counts,
                occurrences-cons key row rows,
                same,
              )
              (ground arith)
        | inr other ↦
            rw
              (
                count_rows-is_some (insert k count counts) rows key,
                lookup-insert k key count counts,
                occurrences-cons key row rows,
                other,
              )
              refl
      ]

  intersect_rows-all :
      (counts : Map Text ℕ) (emitted : List Text) (rows : List (Row Number Document)) (key : Text)
      → occurrences key (intersect_rows json columns false counts emitted rows)
        ≡ min (count_or_zero (lookup key counts)) (occurrences key rows)
  unfolding intersect_rows
  intersect_rows-all counts emitted [] key = omega (arith, occurrences-nil key)
  intersect_rows-all counts emitted (row ∷ rows) key =
      let k = encode_set_row json columns row in
      let count = count_or_zero (lookup k counts) in
      let taken = insert k (count - 1) counts in
      let ih = intersect_rows-all counts emitted rows key in
      let ih' = intersect_rows-all taken emitted rows key in
      elim (Bool-cases (eqb count 0)) [
        | inl empty ↦
            rw (empty, ih, occurrences-cons key row rows) (ground (arith, list_beq_iff k key))
        | inr positive ↦
            rw
              (
                positive,
                occurrences-cons key row (intersect_rows json columns false taken emitted rows),
                ih',
                occurrences-cons key row rows,
                lookup-insert k key (count - 1) counts,
              )
              (ground (arith, list_beq_iff k key))
      ]

  intersect_rows-distinct :
      (counts : Map Text ℕ) (emitted : List Text) (rows : List (Row Number Document)) (key : Text)
      → occurrences key (intersect_rows json columns true counts emitted rows) ≡ (
          if contains emitted key || eqb (count_or_zero (lookup key counts)) 0
          then 0
          else min 1 (occurrences key rows))
  unfolding intersect_rows
  intersect_rows-distinct counts emitted [] key = ground (arith, occurrences-nil key)
  intersect_rows-distinct counts emitted (row ∷ rows) key =
      let k = encode_set_row json columns row in
      let count = count_or_zero (lookup k counts) in
      let ih = intersect_rows-distinct counts emitted rows key in
      let ih' = intersect_rows-distinct counts (add k emitted) rows key in
      elim (Bool-cases (eqb count 0)) [
        | inl empty ↦
            rw (empty, ih, occurrences-cons key row rows) (ground (arith, list_beq_iff k key))
        | inr positive ↦ elim (Bool-cases (contains emitted k)) [
          | inl old ↦
              rw (positive, old, ih, occurrences-cons key row rows)
                (ground (arith, list_beq_iff k key))
          | inr new ↦
              rw
                (
                  positive,
                  new,
                  occurrences-cons key row
                      (intersect_rows json columns true counts (add k emitted) rows),
                  ih',
                  occurrences-cons key row rows,
                  contains-add k emitted key,
                )
                (ground (arith, list_beq_iff k key))
        ]
      ]

  subtract_rows-all :
      (counts : Map Text ℕ) (emitted : List Text) (rows : List (Row Number Document)) (key : Text)
      → occurrences key (subtract_rows json columns false counts emitted rows)
        ≡ occurrences key rows - count_or_zero (lookup key counts)
  unfolding subtract_rows
  subtract_rows-all counts emitted [] key = omega (arith, occurrences-nil key)
  subtract_rows-all counts emitted (row ∷ rows) key =
      let k = encode_set_row json columns row in
      let count = count_or_zero (lookup k counts) in
      let taken = insert k (count - 1) counts in
      let ih = subtract_rows-all counts emitted rows key in
      let ih' = subtract_rows-all taken emitted rows key in
      elim (Bool-cases (ltb 0 count)) [
        | inl positive ↦
            rw
              (positive, ih', occurrences-cons key row rows, lookup-insert k key (count - 1) counts)
              (ground (arith, list_beq_iff k key))
        | inr empty ↦
            rw
              (
                empty,
                occurrences-cons key row (subtract_rows json columns false counts emitted rows),
                ih,
                occurrences-cons key row rows,
              )
              (ground (arith, list_beq_iff k key))
      ]

  subtract_rows-distinct :
      (counts : Map Text ℕ) (emitted : List Text) (rows : List (Row Number Document)) (key : Text)
      → occurrences key (subtract_rows json columns true counts emitted rows) ≡ (
          if contains emitted key || is_some (lookup key counts)
          then 0
          else min 1 (occurrences key rows))
  unfolding subtract_rows
  subtract_rows-distinct counts emitted [] key = ground (arith, occurrences-nil key)
  subtract_rows-distinct counts emitted (row ∷ rows) key =
      let k = encode_set_row json columns row in
      let ih = subtract_rows-distinct counts emitted rows key in
      let ih' = subtract_rows-distinct counts (add k emitted) rows key in
      elim (Bool-cases (not (is_some (lookup k counts)) && not (contains emitted k))) [
        | inl fresh ↦
            rw
              (
                fresh,
                occurrences-cons key row
                    (subtract_rows json columns true counts (add k emitted) rows),
                ih',
                occurrences-cons key row rows,
                contains-add k emitted key,
              )
              (ground (arith, list_beq_iff k key))
        | inr stale ↦
            rw (stale, ih, occurrences-cons key row rows) (ground (arith, list_beq_iff k key))
      ]

  -- A row occurs in the result of INTERSECT ALL as often as in the operand in which it occurs less, and
  -- once in that of INTERSECT if it occurs in both. Rows are the same if their encodings are.
  pub set_intersection-occurrences :
      (left right : List (Row Number Document)) (all : Bool) (key : Text)
      → occurrences key (set_intersection json columns left right all) ≡ (
          if all
          then min (occurrences key left) (occurrences key right)
          else min 1 (min (occurrences key left) (occurrences key right)))
  set_intersection-occurrences left right true key =
      rw
        (
          intersect_rows-all (count_rows json columns [] right) [] left key,
          count_rows-occurrences [] right key,
        )
        (unfold lookup in omega arith)
  set_intersection-occurrences left right false key =
      rw
        (
          intersect_rows-distinct (count_rows json columns [] right) [] left key,
          count_rows-occurrences [] right key,
        )
        (unfold lookup in ground arith)

  -- A row occurs in the result of EXCEPT ALL as often as it occurs more on the left than on the right,
  -- and once in that of EXCEPT if it occurs on the left alone. Rows are the same if their encodings are.
  pub set_difference-occurrences :
      (left right : List (Row Number Document)) (all : Bool) (key : Text)
      → occurrences key (set_difference json columns left right all) ≡ (
          if all
          then occurrences key left - occurrences key right
          else if ltb 0 (occurrences key right)
          then 0
          else min 1 (occurrences key left))
  set_difference-occurrences left right true key =
      rw
        (
          subtract_rows-all (count_rows json columns [] right) [] left key,
          count_rows-occurrences [] right key,
        )
        (unfold lookup in omega arith)
  set_difference-occurrences left right false key =
      rw
        (
          subtract_rows-distinct (count_rows json columns [] right) [] left key,
          count_rows-is_some [] right key,
        )
        (unfold lookup in ground arith)

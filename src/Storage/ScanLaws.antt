-- ===== src/Storage/ScanLaws.antt =====
-- Which rows a page of a scan holds (`scan_prefix_page` of src/storage/mod.rs).
use my_sqweel.Prelude.{
  Text, [], ◌∷◌, Option, none, some, true, false, ◌&&◌, not, ◌≡◌, All, Map, retain, starts_with,
  text_ltb, nat_eq, list_eq,
}
use my_sqweel.Storage.Rocks.{is_passed}

-- The keys are in ascending order, each once, as RocksDB's iterator has them.
abbrev pub IsAscending : Map Text Text → Type 0
IsAscending [] = Unit
IsAscending ((key, value) ∷ rest) =
    All (λ (p : Text × Text). text_ltb key p.0 ≡ true) rest × IsAscending rest

-- The rows whose keys have the prefix and come after the cursor.
abbrev pub following_rows : Text → Option Text → Map Text Text → Map Text Text
following_rows prefix cursor =
    retain (λ (p : Text × Text). starts_with prefix p.0 && not (is_passed cursor p.0))

abbrev StartsAt : Text → Map Text Text → Type 0
StartsAt start = All (λ (p : Text × Text). text_ltb p.0 start ≡ false)

-- Where a scan starts.
abbrev scan_start : Text → Option Text → Text
scan_start prefix cursor = elim cursor [ none ↦ prefix | some c ↦ c ]

-- ===== src/Restore/Paths.antt =====
-- Paths and the filter of restore/src/restore.rs.
use backup_shield.Base.{
  Bool, true, false, Option, none, some, List, [], ◌∷◌, ◌++◌, ◌||◌, ◌==◌, if◌then◌else◌, Bytes,
}
use backup_shield.Restore.{Crates}

-- `rel_path.join(name)`, or the name alone at the top
unfoldable pub join : Bytes → Bytes → Bytes
join [] name = name
join (c ∷ rel_path) name = (c ∷ rel_path) ++ b'/' ∷ name

-- What stands before the last dot, or `none` without a dot.
unfoldable pub before_dot : Bytes → Option Bytes
before_dot [] = none
before_dot (c ∷ name) = elim (before_dot name) [
  | some front ↦ some (c ∷ front)
  | none ↦ if c == b'.' then some [] else none
]

-- A file name without its extension: a dot at the start does not begin one.
unfoldable pub file_stem : Bytes → Bytes
file_stem name = elim (before_dot name) [
  | none ↦ name
  | some front ↦ elim front [ [] ↦ name | c ∷ rest ↦ c ∷ rest ]
]

-- `with_extension("tmp")` on a file name
unfoldable pub temp_name : Bytes → Bytes
temp_name name = file_stem name ++ b'.' ∷ b't' ∷ b'm' ∷ b'p' ∷ []

-- `replace('\\', "/")`
unfoldable pub normalise : Bytes → Bytes
normalise [] = []
normalise (c ∷ path) = (if c == b'\\' then b'/' else c) ∷ normalise path

abbrev pub matches_option : Option (Bytes → Bool) → Bytes → Bool
matches_option none path = false
matches_option (some pattern) path = pattern path

-- One pattern that parses, with and without `**/` in front.
unfoldable pub matches_pattern : Crates → Bytes → Bytes → Bool
matches_pattern crates path pattern = elim (crates.glob pattern) [
  | none ↦ false
  | some glob_pattern ↦
      glob_pattern path || matches_option (crates.glob (b'*' ∷ b'*' ∷ b'/' ∷ pattern)) path
]

unfoldable pub matches_any : Crates → Bytes → List Bytes → Bool
matches_any crates path [] = false
matches_any crates path (pattern ∷ patterns) =
    matches_pattern crates path pattern || matches_any crates path patterns

unfoldable pub matches_filter : Crates → Bytes → List Bytes → Bool
matches_filter crates file_path patterns = matches_any crates (normalise file_path) patterns

-- `file_filter`, which lets all files pass where it is not given
unfoldable pub passes : Crates → Bytes → Option (List Bytes) → Bool
passes crates file_path none = true
passes crates file_path (some patterns) = matches_filter crates file_path patterns

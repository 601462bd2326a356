-- ===== src/Bundles/Archive.antt =====
-- crates/bundles/src/archive.rs: the guards of `extract_zip`. The entries come from the `zip` crate, with
-- the sizes that the archive declares. What is written is listed, newest first, also when a later
-- entry fails; the directories above an entry are created with it.
pub mod Guards
use mathlib.Core.Bool.{Bool, true, false, ◌&&◌, ◌||◌, not}
use loontail_minecraft_netwo.Prelude.{
  ℕ, ◌+◌, ◌-◌, ◌^◌, ◌++◌, List, [], ◌∷◌, min, ltb, any, length, if◌then◌else◌, nat_beq, ◌==◌,
}
use loontail_minecraft_netwo.Prelude.Text.{bytes_eq, bytes_beq}
use loontail_minecraft_netwo.Core.Account.{Text}
use loontail_minecraft_netwo.Core.Headers.{is_empty, split_on}
use loontail_minecraft_netwo.Core.Identity.{starts_with}
use loontail_minecraft_netwo.Bundles.Paths.{
  is_parent, PathResult, inside, not_relative, escapes, required, normalize_relative_path,
}

abbrev pub max_uncompressed : ℕ
max_uncompressed = 10737418240

abbrev pub max_entries : ℕ
max_entries = 100000

pub record ZipEntry : Type 0 where
  pub name : Text
  pub size : ℕ
  pub is_dir : Bool

pub record Written : Type 0 where
  pub path : Text
  pub size : ℕ
  pub is_dir : Bool

pub data ZipError : Type 0 where
  too_many_entries zip_slip too_large : ZipError

-- The outcome, with what was written.
pub data Extraction : Type 0 where
  complete : List Written → Extraction
  stopped : ZipError → List Written → Extraction

abbrev pub macosx : Text
macosx = b'_' ∷ b'_' ∷ b'M' ∷ b'A' ∷ b'C' ∷ b'O' ∷ b'S' ∷ b'X' ∷ []

abbrev pub has_prefix : Text → Text → Bool
has_prefix [] t = true
has_prefix (p ∷ ps) [] = false
has_prefix (p ∷ ps) (b ∷ bs) = nat_beq p b && has_prefix ps bs

abbrev pub is_macosx : Text → Bool
is_macosx name = name == macosx || has_prefix (macosx ++ (b'/' ∷ [])) name

-- `trim_start_matches('/')`
abbrev pub trim_slashes : Text → Text
trim_slashes [] = []
trim_slashes (b ∷ bs) = if nat_beq b b'/' then trim_slashes bs else b ∷ bs

-- `dest.join(path)` is within `dest` unless the path is absolute or climbs.
unfoldable pub is_within : Text → Bool
unfolding split_on
is_within path = not (starts_with b'/' path) && not (any is_parent (split_on b'/' path))

abbrev pub saturating_add : ℕ → ℕ → ℕ
saturating_add a b = min (a + b) (2 ^ 64 - 1)

abbrev pub written_as : Text → ZipEntry → Written
written_as path e = record { path = path; size = e.size; is_dir = e.is_dir }

abbrev pub is_skipped : Text → Bool
is_skipped name = is_macosx name || is_empty (trim_slashes name)

-- The loop over the entries; `total` and `done` are its accumulators.
unfoldable pub extract_entries : ℕ → List Written → List ZipEntry → Extraction
unfolding normalize_relative_path is_within
extract_entries total done [] = complete done
extract_entries total done (e ∷ es) =
    let skip = extract_entries total done es in
    if is_skipped e.name then skip else elim (normalize_relative_path (trim_slashes e.name)) [
      | required ↦ skip
      | not_relative ↦ stopped zip_slip done
      | escapes ↦ stopped zip_slip done
      | inside path ↦
          (let sum = saturating_add total e.size in
            let next = extract_entries sum (written_as path e ∷ done) es in
            if not (is_within path)
            then stopped zip_slip done
            else if ltb max_uncompressed sum
            then stopped too_large done
            else next)
    ]

unfoldable pub extract_zip : List ZipEntry → Extraction
unfolding extract_entries
extract_zip entries =
    if ltb max_entries (length entries)
    then stopped too_many_entries []
    else extract_entries 0 [] entries

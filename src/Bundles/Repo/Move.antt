-- ===== src/Bundles/Repo/Move.antt =====
-- `move_subtree` of crates/bundles/src/repo.rs: an entry moves with everything below it.
pub mod Shift
pub mod Children
pub mod Legal
pub mod Relocation
use mathlib.Core.Bool.{Bool, true, false, ◌&&◌}
use loontail_minecraft_netwo.Prelude.{
  ℕ, Option, none, some, List, [], ◌∷◌, ◌++◌, keep, find, update_where, nat_beq, if◌then◌else◌,
}
use loontail_minecraft_netwo.Network.Effect.{not_found}
use loontail_minecraft_netwo.Core.Account.{Text}
use loontail_minecraft_netwo.Core.Headers.{split_on}
use loontail_minecraft_netwo.Bundles.Paths.{join_parts, split_relative_path}
use loontail_minecraft_netwo.Bundles.Manifest.{BundleArtifact}
use loontail_minecraft_netwo.Bundles.Store.{
  FileSystem, Registry, M, ◌>>◌, ◌>>=◌, ret, gets, or_fail, on_disk,
}
use loontail_minecraft_netwo.Bundles.Repo.{is_artifact, is_at, is_below, write_artifacts}

-- `format!("{path}/")`
abbrev pub folder_of : Text → Text
folder_of path = path ++ (b'/' ∷ [])

-- `format!("{path}/{suffix}")`
abbrev pub child_of : Text → Text → Text
child_of path suffix = path ++ (b'/' ∷ suffix)

unfoldable pub strip_prefix : Text → Text → Option Text
strip_prefix [] t = some t
strip_prefix (p ∷ ps) [] = none
strip_prefix (p ∷ ps) (b ∷ bs) = let rest = strip_prefix ps bs in if nat_beq p b then rest else none

-- The directory that holds a path.
abbrev pub without_last : List Text → List Text
without_last [] = []
without_last (p ∷ []) = []
without_last (p ∷ q ∷ ps) = p ∷ without_last (q ∷ ps)

unfoldable pub parent_of : Text → Text
unfolding split_on join_parts
parent_of path = join_parts (without_last (split_on b'/' path))

-- A row at a new path.
abbrev pub placed : Text → BundleArtifact → BundleArtifact
placed path a = record a {
  relative_path = path;
  name = (split_relative_path path).0;
  category = (split_relative_path path).1;
}

module _ {D : Type 0} where
  unfoldable pub update_artifact_path : ℕ → Text → M D (Unit {0})
  unfolding update_where write_artifacts
  update_artifact_path id path = write_artifacts (update_where (is_artifact id) (placed path))

  -- The loop over the rows below the old path.
  unfoldable pub move_children : Text → Text → List BundleArtifact → M D (Unit {0})
  unfolding strip_prefix update_artifact_path
  move_children prefix path [] = ret tt
  move_children prefix path (c ∷ children) = elim (strip_prefix prefix c.relative_path) [
    | none ↦ move_children prefix path children
    | some suffix ↦
        update_artifact_path c.id (child_of path suffix) >> move_children prefix path children
  ]

  -- The rows of a move.
  unfoldable pub move_rows : ℕ → Text → Text → Bool → M D (Unit {0})
  unfolding find keep move_children
  move_rows bundle old path is_dir = do
    found ← gets (λ s. find (is_at bundle old) s.artifacts)
    entry ← or_fail found (not_found "file entry not found in this build")
    update_artifact_path entry.id path
    children ← gets (λ s. keep (is_below bundle (folder_of old)) s.artifacts)
    (if is_dir then move_children (folder_of old) path children else ret tt)

  -- The rename on the disk, last.
  unfoldable pub move_on_disk : FileSystem D → Text → Text → Text → M D (Unit {0})
  unfolding parent_of
  move_on_disk fs slug old path = do
    there ← gets (λ s. fs.exists slug old s.disk)
    (if there
        then (on_disk (fs.create_dir_all slug (parent_of path))
            >> on_disk (fs.rename slug old path))
        else ret tt)

  abbrev pub move_subtree : FileSystem D → ℕ → Text → Text → Text → Bool → M D (Unit {0})
  move_subtree fs bundle slug old path is_dir =
      move_rows bundle old path is_dir >> move_on_disk fs slug old path

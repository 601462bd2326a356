-- ===== src/Bundles/Admin/Moving.antt =====
-- The handlers of crates/bundles/src/admin.rs that rename and move entries.
pub mod Relocates
use mathlib.Core.Bool.{Bool, true, false, ◌&&◌, ◌||◌, not}
use loontail_minecraft_netwo.Prelude.{
  ℕ, Option, none, some, List, [], ◌∷◌, ◌++◌, any, length, ltb, if◌then◌else◌, ◌==◌,
}
use loontail_minecraft_netwo.Prelude.Text.{bytes_eq, bytes_beq}
use loontail_minecraft_netwo.Network.Effect.{bad_request, conflict}
use loontail_minecraft_netwo.Core.Account.{Text}
use loontail_minecraft_netwo.Core.Headers.{is_empty}
use loontail_minecraft_netwo.Bundles.Paths.{PathResult, normalize_relative_path}
use loontail_minecraft_netwo.Bundles.Archive.{has_prefix}
use loontail_minecraft_netwo.Bundles.Manifest.{BundleArtifact}
use loontail_minecraft_netwo.Bundles.Store.{
  Bundle, Env, M, ◌>>◌, ◌>>=◌, ret, guard, gets, transaction,
}
use loontail_minecraft_netwo.Bundles.Repo.{is_at, is_below, regenerate_manifest}
use loontail_minecraft_netwo.Bundles.Repo.Move.{
  folder_of, child_of, move_rows, move_on_disk, move_subtree,
}
use loontail_minecraft_netwo.Bundles.Admin.{or_refused, resolve_bundle, artifact_in_bundle}

-- A text that a user gave, joined with the entry's name.
unfoldable pub join_target_dir : (Text → Text) → Text → Text → PathResult
unfolding normalize_relative_path
join_target_dir trim target_dir name =
    let target = trim target_dir in
    normalize_relative_path (if is_empty target then name else child_of target name)

module _ {D : Type 0} where
  unfoldable pub validate_move : BundleArtifact → Text → M D (Unit {0})
  validate_move entry path = do
    guard (not (path == entry.relative_path)) (conflict "the entry is already at that path")
    guard (not (entry.is_dir && has_prefix (folder_of entry.relative_path) path))
        (bad_request "cannot move a folder into its own descendant")

  unfoldable pub check_destination_free : ℕ → Text → Bool → M D (Unit {0})
  unfolding any
  check_destination_free bundle path is_dir = do
    taken ← gets (λ s. any (is_at bundle path) s.artifacts)
    guard (not taken) (conflict "a file or folder already exists at that path")
    held ← gets (λ s. is_dir && any (is_below bundle (folder_of path)) s.artifacts)
    guard (not held) (conflict "a folder already exists at that path")

  unfoldable pub apply_move : Env D → Bundle → BundleArtifact → Text → M D (Unit {0})
  unfolding validate_move check_destination_free
  apply_move env bundle entry path = do
    validate_move entry path
    there ← gets (λ s. env.fs.exists bundle.slug path s.disk)
    guard (not (there && not (path == entry.relative_path)))
        (conflict "a file or folder already exists at that path")
    transaction do
      check_destination_free bundle.id path entry.is_dir
      move_subtree env.fs bundle.id bundle.slug entry.relative_path path entry.is_dir

  unfoldable pub rename_file : Env D → Text → ℕ → Text → M D Bundle
  unfolding resolve_bundle artifact_in_bundle normalize_relative_path apply_move regenerate_manifest
  rename_file env slug id new_relative_path = do
    bundle ← resolve_bundle slug
    entry ← artifact_in_bundle bundle.id id
    path ← or_refused (normalize_relative_path (env.trim new_relative_path))
    apply_move env bundle entry path
    regenerate_manifest env bundle

  unfoldable pub move_file : Env D → Text → ℕ → Text → M D Bundle
  unfolding resolve_bundle artifact_in_bundle join_target_dir apply_move regenerate_manifest
  move_file env slug id target_dir = do
    bundle ← resolve_bundle slug
    entry ← artifact_in_bundle bundle.id id
    path ← or_refused (join_target_dir env.trim target_dir entry.name)
    apply_move env bundle entry path
    regenerate_manifest env bundle

  -- Every id is resolved before a row moves.
  unfoldable pub resolve_moves : Env D → ℕ → Text → List ℕ → M D (List (BundleArtifact × Text))
  unfolding artifact_in_bundle join_target_dir validate_move
  resolve_moves env bundle target_dir [] = ret []
  resolve_moves env bundle target_dir (id ∷ ids) = do
    entry ← artifact_in_bundle bundle id
    path ← or_refused (join_target_dir env.trim target_dir entry.name)
    validate_move entry path
    rest ← resolve_moves env bundle target_dir ids
    ret ((entry, path) ∷ rest)

  unfoldable pub move_each : Env D → Bundle → List (BundleArtifact × Text) → M D (Unit {0})
  unfolding check_destination_free
  move_each env bundle [] = ret tt
  move_each env bundle ((entry, path) ∷ moves) = do
    check_destination_free bundle.id path entry.is_dir
    move_subtree env.fs bundle.id bundle.slug entry.relative_path path entry.is_dir
    move_each env bundle moves

  unfoldable pub move_files : Env D → Text → List ℕ → Text → M D Bundle
  unfolding resolve_bundle resolve_moves move_each regenerate_manifest
  move_files env slug ids target_dir = do
    bundle ← resolve_bundle slug
    guard (ltb 0 (length ids)) (bad_request "ids must be a non-empty array")
    moves ← resolve_moves env bundle.id target_dir ids
    transaction (move_each env bundle moves)
    regenerate_manifest env bundle

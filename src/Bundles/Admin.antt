-- ===== src/Bundles/Admin.antt =====
-- crates/bundles/src/admin.rs: the handlers on builds and their entries. Each runs after the guard of
-- Core/Guard has let an administrator in.
pub mod Moving
pub mod Uploads
use mathlib.Core.Bool.{Bool, true, false, ◌&&◌, ◌||◌, not}
use loontail_minecraft_netwo.Prelude.{
  ℕ, Option, none, some, List, [], ◌∷◌, ◌++◌, any, keep, find, length, ltb, update_where, nat_beq,
  if◌then◌else◌, ◌==◌,
}
use loontail_minecraft_netwo.Prelude.Text.{bytes_eq, bytes_beq}
use loontail_minecraft_netwo.Network.Effect.{AppError, bad_request, not_found, conflict, internal}
use loontail_minecraft_netwo.Core.Account.{Text}
use loontail_minecraft_netwo.Core.Headers.{is_empty}
use loontail_minecraft_netwo.Bundles.Paths.{
  validate_slug, PathResult, inside, not_relative, escapes, required, normalize_relative_path,
}
use loontail_minecraft_netwo.Bundles.Archive.{has_prefix}
use loontail_minecraft_netwo.Bundles.Manifest.{BundleArtifact}
use loontail_minecraft_netwo.Bundles.Store.{
  Bundle, processing, failed, FileSystem, Env, Registry, Outcome, done, fail, M, bind, ◌>>◌, ◌>>=◌,
  ret, raise, guard, gets, modify, or_fail, transaction, on_disk,
}
use loontail_minecraft_netwo.Bundles.Repo.{
  is_in, is_at, is_below, is_artifact, require_by_slug, provision_bundle, update_bundle_meta,
  delete_bundle_row, set_status, find_artifact, update_artifact_sha, set_download_once,
  delete_artifact, delete_artifacts_with_prefix, regenerate_manifest,
}
use loontail_minecraft_netwo.Bundles.Repo.Move.{folder_of, move_subtree}

pub record CreateBundle : Type 0 where
  pub name : Text
  pub slug : Text
  pub description : Option Text
  pub version : Option Text

pub record UpdateBundle : Type 0 where
  pub name : Option Text
  pub description : Option Text
  pub version : Option Text

abbrev pub is_some {ℓ} : {A : Type ℓ} → Option A → Bool
is_some none = false
is_some (some a) = true

module _ {D : Type 0} where
  abbrev pub or_refused : PathResult → M D Text
  or_refused (inside path) = ret path
  or_refused not_relative = raise (bad_request "must be a relative path")
  or_refused escapes = raise (bad_request "escapes the build directory")
  or_refused required = raise (bad_request "is required")

  -- `ResolvedBundle`
  unfoldable pub resolve_bundle : Text → M D Bundle
  unfolding validate_slug find
  resolve_bundle slug = do
    guard (validate_slug slug) (bad_request "invalid slug")
    require_by_slug slug

  unfoldable pub artifact_in_bundle : ℕ → ℕ → M D BundleArtifact
  unfolding find
  artifact_in_bundle bundle id = do
    found ← gets (find_artifact id)
    entry ← or_fail found (not_found "file entry not found in this build")
    guard (is_in bundle entry) (not_found "file entry not found in this build")
    ret entry

  unfoldable pub create : Env D → CreateBundle → M D Bundle
  unfolding provision_bundle update_bundle_meta find
  create env body = do
    guard (not (is_empty (env.trim body.name) || is_empty (env.trim body.slug)))
        (bad_request "name and slug are required")
    id ← provision_bundle env (env.trim body.slug) (env.trim body.name)
    (if is_some body.description || is_some body.version
        then update_bundle_meta id none body.description body.version
        else require_by_slug (env.trim body.slug))

  unfoldable pub update : Text → UpdateBundle → M D Bundle
  unfolding resolve_bundle update_bundle_meta
  update slug body = do
    bundle ← resolve_bundle slug
    update_bundle_meta bundle.id body.name body.description body.version

  unfoldable pub delete : Env D → Text → M D (Unit {0})
  unfolding resolve_bundle delete_bundle_row
  delete env slug = do
    bundle ← resolve_bundle slug
    transaction (delete_bundle_row bundle.id)
    modify (λ s. record s { disk = env.fs.remove_build bundle.slug s.disk })

  unfoldable pub delete_entry_rows : ℕ → BundleArtifact → M D (Unit {0})
  unfolding delete_artifacts_with_prefix delete_artifact
  delete_entry_rows bundle entry =
      (if entry.is_dir
        then delete_artifacts_with_prefix bundle (folder_of entry.relative_path)
        else ret tt)
      >> delete_artifact entry.id

  unfoldable pub unlink_entry : Env D → Text → BundleArtifact → M D (Unit {0})
  unlink_entry env slug entry s =
      if env.fs.exists slug entry.relative_path s.disk
      then done tt (record s { disk = env.fs.unlink slug entry s.disk })
      else done tt s

  unfoldable pub delete_file : Env D → Text → ℕ → M D (Unit {0})
  unfolding resolve_bundle artifact_in_bundle delete_entry_rows unlink_entry regenerate_manifest
  delete_file env slug id = do
    bundle ← resolve_bundle slug
    entry ← artifact_in_bundle bundle.id id
    transaction (delete_entry_rows bundle.id entry)
    unlink_entry env bundle.slug entry
    refreshed ← regenerate_manifest env bundle
    ret tt

  unfoldable pub toggle_download_once : Env D → Text → ℕ → Bool → M D Bundle
  unfolding resolve_bundle artifact_in_bundle set_download_once regenerate_manifest
  toggle_download_once env slug id value = do
    bundle ← resolve_bundle slug
    entry ← artifact_in_bundle bundle.id id
    set_download_once entry.id value
    regenerate_manifest env bundle

  unfoldable pub rehash_file : Env D → Text → ℕ → M D Bundle
  unfolding resolve_bundle artifact_in_bundle update_artifact_sha regenerate_manifest
  rehash_file env slug id = do
    bundle ← resolve_bundle slug
    entry ← artifact_in_bundle bundle.id id
    guard (not entry.is_dir) (bad_request "cannot rehash a directory")
    there ← gets (λ s. env.fs.exists bundle.slug entry.relative_path s.disk)
    guard there (bad_request "physical file not found on disk")
    hash ← gets (λ s. env.fs.hash_file bundle.slug entry.relative_path s.disk)
    sha ← or_fail hash internal
    update_artifact_sha entry.id sha
    regenerate_manifest env bundle

  -- A row that is gone is passed over, one of another build refused.
  abbrev pub checked_entry :
      ℕ → Option BundleArtifact → M D (List BundleArtifact) → M D (List BundleArtifact)
  checked_entry bundle none rest = rest
  checked_entry bundle (some entry) rest = do
    guard (is_in bundle entry) (not_found "file entry not found in this build")
    entries ← rest
    ret (entry ∷ entries)

  unfoldable pub resolve_entries : ℕ → List ℕ → M D (List BundleArtifact)
  unfolding find
  resolve_entries bundle [] = ret []
  resolve_entries bundle (id ∷ ids) = do
    found ← gets (find_artifact id)
    checked_entry bundle found (resolve_entries bundle ids)

  unfoldable pub delete_all_rows : ℕ → List BundleArtifact → M D (Unit {0})
  unfolding delete_entry_rows
  delete_all_rows bundle [] = ret tt
  delete_all_rows bundle (e ∷ es) = delete_entry_rows bundle e >> delete_all_rows bundle es

  unfoldable pub unlink_all : Env D → Text → List BundleArtifact → M D (Unit {0})
  unfolding unlink_entry
  unlink_all env slug [] = ret tt
  unlink_all env slug (e ∷ es) = unlink_entry env slug e >> unlink_all env slug es

  -- Answers how many entries were deleted.
  unfoldable pub bulk_delete : Env D → Text → List ℕ → M D ℕ
  unfolding resolve_bundle resolve_entries delete_all_rows unlink_all regenerate_manifest
  bulk_delete env slug ids = do
    bundle ← resolve_bundle slug
    guard (ltb 0 (length ids)) (bad_request "ids must be a non-empty array")
    entries ← resolve_entries bundle.id ids
    transaction (delete_all_rows bundle.id entries)
    unlink_all env bundle.slug entries
    refreshed ← regenerate_manifest env bundle
    ret (length entries)

  -- The status tells that a regeneration has failed, and why.
  abbrev pub or_mark_failed : ℕ → Outcome D Bundle → Outcome D Bundle
  or_mark_failed id (done b s) = done b s
  or_mark_failed id (fail e s) = bind (set_status id failed (some e) s) (λ _. raise e)

  unfoldable pub regenerate : Env D → Text → M D Bundle
  unfolding resolve_bundle regenerate_manifest update_where
  regenerate env slug = do
    bundle ← resolve_bundle slug
    set_status bundle.id processing none
    (λ s. or_mark_failed bundle.id (regenerate_manifest env bundle s))

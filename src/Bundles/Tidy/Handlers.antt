-- ===== src/Bundles/Tidy/Handlers.antt =====
-- Every handler on builds keeps the artifact rows tidy.
use mathlib.Core.Bool.{Bool}
use loontail_minecraft_netwo.Prelude.{
  ℕ, refl, ◌≤◌, Option, none, some, List, [], ◌∷◌, suc, ◌<◌, All-map, arith,
}
use loontail_minecraft_netwo.Network.Effect.{not_found}
use loontail_minecraft_netwo.Core.Account.{Text}
use loontail_minecraft_netwo.Bundles.Paths.{PathResult, inside, not_relative, escapes, required}
use loontail_minecraft_netwo.Bundles.Manifest.{BundleArtifact}
use loontail_minecraft_netwo.Bundles.Store.{Bundle, Entries, Env, done, fail, M, final}
use loontail_minecraft_netwo.Bundles.Repo.{
  is_in, insert_bundle, provision_bundle_row, provision_bundle, update_bundle_meta, find_artifact,
  delete_artifact, delete_artifacts_with_prefix, regenerate_manifest,
}
use loontail_minecraft_netwo.Bundles.Repo.Scan.{upsert_artifact, scan_directory, upsert_scan}
use loontail_minecraft_netwo.Bundles.Admin.{
  or_refused, resolve_bundle, artifact_in_bundle, delete_entry_rows, unlink_entry, checked_entry,
  resolve_entries, delete_all_rows, unlink_all, or_mark_failed,
}
use loontail_minecraft_netwo.Bundles.Admin.Moving.{
  join_target_dir, validate_move, check_destination_free, apply_move, resolve_moves, move_each,
}
use loontail_minecraft_netwo.Bundles.Admin.Uploads.{
  file_entry, folder_entry, upsert_folders, unpack, ingest_archive,
}
use loontail_minecraft_netwo.Bundles.Tidy.{
  IsTidy, Keeps, bind-Keeps, then-Keeps, still-Keeps, gets-Keeps, guard-Keeps, ret-Keeps, keeping,
}
use loontail_minecraft_netwo.Bundles.Tidy.Rows.{write_keep-Keeps, upsert_artifact-Keeps}
use loontail_minecraft_netwo.Bundles.Tidy.Batches.{
  scan_directory-derived, upsert_scan-Keeps, move_subtree-Keeps,
}

module _ {D : Type 0} where
  pub or_refused-Keeps : (r : PathResult) → Keeps (or_refused {D = D} r)
  or_refused-Keeps (inside path) = ret-Keeps path
  or_refused-Keeps not_relative = search keeping
  or_refused-Keeps escapes = search keeping
  or_refused-Keeps required = search keeping

  pub insert_bundle-Keeps : (slug name : Text) → Keeps (insert_bundle {D = D} slug name)
  insert_bundle-Keeps slug name = record {
    tidy = λ s v. record {
      once = v.once;
      used =
          All-map (λ a. a.id < s.next_id) (λ a. a.id < suc s.next_id) s.artifacts
            (λ a h. omega (arith, h)) v.used;
      indexed = v.indexed;
      derived = v.derived;
    };
    later = λ s. omega arith;
  }

  pub provision_bundle_row-Keeps :
      (slug name : Text) → Keeps (provision_bundle_row {D = D} slug name)
  unfolding provision_bundle_row
  provision_bundle_row-Keeps slug name = search (keeping, insert_bundle-Keeps) depth 12

  pub update_bundle_meta-Keeps :
      (id : ℕ) (name description version : Option Text)
      → Keeps (update_bundle_meta {D = D} id name description version)
  unfolding update_bundle_meta
  update_bundle_meta-Keeps id name description version = search keeping depth 12

  pub resolve_bundle-Keeps : (slug : Text) → Keeps (resolve_bundle {D = D} slug)
  unfolding resolve_bundle
  resolve_bundle-Keeps slug = search keeping depth 12

  pub artifact_in_bundle-Keeps : (bundle id : ℕ) → Keeps (artifact_in_bundle {D = D} bundle id)
  unfolding artifact_in_bundle
  artifact_in_bundle-Keeps bundle id = search keeping depth 12

  pub regenerate_manifest-Keeps :
      (env : Env D) (bundle : Bundle) → Keeps (regenerate_manifest env bundle)
  unfolding regenerate_manifest
  regenerate_manifest-Keeps env bundle = search keeping depth 12

  pub provision_bundle-Keeps :
      (env : Env D) (slug name : Text) → Keeps (provision_bundle env slug name)
  unfolding provision_bundle
  provision_bundle-Keeps env slug name = search (keeping, provision_bundle_row-Keeps) depth 12

  pub delete_entry_rows-Keeps :
      (bundle : ℕ) (entry : BundleArtifact) → Keeps (delete_entry_rows {D = D} bundle entry)
  unfolding delete_entry_rows delete_artifacts_with_prefix delete_artifact
  delete_entry_rows-Keeps bundle entry = search (keeping, write_keep-Keeps) depth 12

  pub unlink_entry-Keeps :
      (env : Env D) (slug : Text) (entry : BundleArtifact) → Keeps (unlink_entry env slug entry)
  unfolding unlink_entry
  unlink_entry-Keeps env slug entry = still-Keeps (unlink_entry env slug entry) (λ s. ground arith)

  pub checked_entry-Keeps :
      (bundle : ℕ) (found : Option BundleArtifact) (rest : M D (List BundleArtifact))
      → Keeps rest
      → Keeps (checked_entry bundle found rest)
  checked_entry-Keeps bundle none rest k = k
  checked_entry-Keeps bundle (some entry) rest k =
      then-Keeps _ _
        (guard-Keeps (is_in bundle entry) (not_found "file entry not found in this build"))
        (bind-Keeps _ _ k (λ entries. ret-Keeps (entry ∷ entries)))

  pub resolve_entries-Keeps :
      (bundle : ℕ) (ids : List ℕ) → Keeps (resolve_entries {D = D} bundle ids)
  unfolding resolve_entries
  resolve_entries-Keeps bundle [] = ret-Keeps []
  resolve_entries-Keeps bundle (id ∷ ids) = bind-Keeps _ _ (gets-Keeps (find_artifact id)) (λ found.
      checked_entry-Keeps bundle found (resolve_entries bundle ids)
        (resolve_entries-Keeps bundle ids))

  pub delete_all_rows-Keeps :
      (bundle : ℕ) (es : List BundleArtifact) → Keeps (delete_all_rows {D = D} bundle es)
  unfolding delete_all_rows
  delete_all_rows-Keeps bundle [] = ret-Keeps tt
  delete_all_rows-Keeps bundle (e ∷ es) =
      then-Keeps (delete_entry_rows bundle e) (delete_all_rows bundle es)
        (delete_entry_rows-Keeps bundle e) (delete_all_rows-Keeps bundle es)

  pub unlink_all-Keeps :
      (env : Env D) (slug : Text) (es : List BundleArtifact) → Keeps (unlink_all env slug es)
  unfolding unlink_all
  unlink_all-Keeps env slug [] = ret-Keeps tt
  unlink_all-Keeps env slug (e ∷ es) =
      then-Keeps (unlink_entry env slug e) (unlink_all env slug es) (unlink_entry-Keeps env slug e)
        (unlink_all-Keeps env slug es)

  pub or_mark_failed-Keeps :
      (id : ℕ) (m : M D Bundle) → Keeps m → Keeps (λ s. or_mark_failed id (m s))
  or_mark_failed-Keeps id m k = record {
    tidy = λ s v.
        (elim (m s)
            as (λ o.
              IsTidy (final o).next_id (final o).artifacts
              → IsTidy (final (or_mark_failed id o)).next_id
                  (final (or_mark_failed id o)).artifacts) [
                    | done b t ↦ λ w. w
                    | fail e t ↦ λ w. w
                  ])
          (k.tidy s v);
    later = λ s.
        (elim (m s)
            as (λ o.
              s.next_id ≤ (final o).next_id → s.next_id ≤ (final (or_mark_failed id o)).next_id) [
                | done b t ↦ λ w. w
                | fail e t ↦ λ w. w
              ])
          (k.later s);
  }

  pub validate_move-Keeps :
      (entry : BundleArtifact) (path : Text) → Keeps (validate_move {D = D} entry path)
  unfolding validate_move
  validate_move-Keeps entry path = search keeping

  pub check_destination_free-Keeps :
      (bundle : ℕ) (path : Text) (is_dir : Bool)
      → Keeps (check_destination_free {D = D} bundle path is_dir)
  unfolding check_destination_free
  check_destination_free-Keeps bundle path is_dir = search keeping depth 12

  pub apply_move-Keeps :
      (env : Env D) (bundle : Bundle) (entry : BundleArtifact) (path : Text)
      → Keeps (apply_move env bundle entry path)
  unfolding apply_move
  apply_move-Keeps env bundle entry path =
      search (keeping, validate_move-Keeps, check_destination_free-Keeps, move_subtree-Keeps) depth
        12

  pub resolve_moves-Keeps :
      (env : Env D) (bundle : ℕ) (target_dir : Text) (ids : List ℕ)
      → Keeps (resolve_moves env bundle target_dir ids)
  unfolding resolve_moves
  resolve_moves-Keeps env bundle target_dir [] = ret-Keeps []
  resolve_moves-Keeps env bundle target_dir (id ∷ ids) =
      let rest = resolve_moves-Keeps env bundle target_dir ids in
      bind-Keeps _ _ (artifact_in_bundle-Keeps bundle id) (λ entry.
        bind-Keeps _ _ (or_refused-Keeps (join_target_dir env.trim target_dir entry.name)) (λ path.
          then-Keeps _ _ (validate_move-Keeps entry path)
            (bind-Keeps _ _ rest (λ moves. ret-Keeps ((entry, path) ∷ moves)))))

  pub move_each-Keeps :
      (env : Env D) (bundle : Bundle) (moves : List (BundleArtifact × Text))
      → Keeps (move_each env bundle moves)
  unfolding move_each
  move_each-Keeps env bundle [] = ret-Keeps tt
  move_each-Keeps env bundle ((entry, path) ∷ moves) =
      then-Keeps _ _ (check_destination_free-Keeps bundle.id path entry.is_dir) (
        then-Keeps _ _
          (move_subtree-Keeps env.fs bundle.id bundle.slug entry.relative_path path entry.is_dir)
          (move_each-Keeps env bundle moves))

  pub upsert_folders-Keeps :
      (bundle : ℕ) (paths : List Text) → Keeps (upsert_folders {D = D} bundle paths)
  unfolding upsert_folders
  upsert_folders-Keeps bundle [] = ret-Keeps tt
  upsert_folders-Keeps bundle (path ∷ paths) =
      then-Keeps (upsert_artifact bundle (folder_entry path)) (upsert_folders bundle paths)
        (upsert_artifact-Keeps bundle (folder_entry path) (refl, refl))
        (upsert_folders-Keeps bundle paths)

  pub upsert_file-Keeps :
      (bundle : ℕ) (path : Text) (size : ℕ) (sha : Text) (modified : Option ℕ)
      → Keeps (upsert_artifact {D = D} bundle (file_entry path size sha modified))
  upsert_file-Keeps bundle path size sha modified =
      upsert_artifact-Keeps bundle (file_entry path size sha modified) (refl, refl)

  pub unpack-Keeps : (env : Env D) (bundle : Bundle) → Keeps (unpack env bundle)
  unpack-Keeps env bundle = still-Keeps (unpack env bundle) (λ s. ground arith)

  pub upsert_found-Keeps :
      (bundle : ℕ) (found : Entries) → Keeps (upsert_scan {D = D} bundle (scan_directory found))
  upsert_found-Keeps bundle found =
      upsert_scan-Keeps bundle (scan_directory found) (scan_directory-derived found)

  pub ingest_archive-Keeps : (env : Env D) (bundle : Bundle) → Keeps (ingest_archive env bundle)
  unfolding ingest_archive
  ingest_archive-Keeps env bundle =
      search (keeping, unpack-Keeps, upsert_found-Keeps, regenerate_manifest-Keeps) depth 12

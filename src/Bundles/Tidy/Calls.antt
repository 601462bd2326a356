-- ===== src/Bundles/Tidy/Calls.antt =====
-- The administration of builds, call by call.
use mathlib.Core.Bool.{Bool}
use loontail_minecraft_netwo.Prelude.{ℕ, refl, some, List}
use loontail_minecraft_netwo.Core.Account.{Text}
use loontail_minecraft_netwo.Bundles.Store.{Env, Registry, final}
use loontail_minecraft_netwo.Bundles.Repo.{is_artifact, update_artifact_sha, set_download_once}
use loontail_minecraft_netwo.Bundles.Admin.{
  CreateBundle, UpdateBundle, create, update, delete, delete_file, toggle_download_once,
  rehash_file, bulk_delete, regenerate,
}
use loontail_minecraft_netwo.Bundles.Admin.Moving.{rename_file, move_file, move_files}
use loontail_minecraft_netwo.Bundles.Admin.Uploads.{
  Part, upload_file, create_folder, upload_archive,
}
use loontail_minecraft_netwo.Bundles.Tidy.{
  IsTidy, Keeps, bind-Keeps, then-Keeps, on_disk_only-Keeps, transaction-Keeps, keeping,
}
use loontail_minecraft_netwo.Bundles.Tidy.Rows.{write-Keeps, delete_bundle_row-Keeps}
use loontail_minecraft_netwo.Bundles.Tidy.Handlers.{
  or_refused-Keeps, update_bundle_meta-Keeps, resolve_bundle-Keeps, artifact_in_bundle-Keeps,
  regenerate_manifest-Keeps, provision_bundle-Keeps, delete_entry_rows-Keeps, unlink_entry-Keeps,
  resolve_entries-Keeps, delete_all_rows-Keeps, unlink_all-Keeps, or_mark_failed-Keeps,
  apply_move-Keeps, resolve_moves-Keeps, move_each-Keeps, upsert_folders-Keeps, upsert_file-Keeps,
  ingest_archive-Keeps,
}

-- A call of the administration of builds.
pub data Call : Type 0 where
  creates : CreateBundle → Call
  updates : Text → UpdateBundle → Call
  deletes regenerates : Text → Call
  deletes_file rehashes : Text → ℕ → Call
  toggles : Text → ℕ → Bool → Call
  deletes_files : Text → List ℕ → Call
  renames moves : Text → ℕ → Text → Call
  moves_files : Text → List ℕ → Text → Call
  uploads uploads_archive : Text → List Part → Call
  creates_folder : Text → Text → Call

module _ {D : Type 0} (env : Env D) where
  -- What a call leaves.
  unfoldable pub step : Call → Registry D → Registry D
  unfolding create update delete regenerate delete_file rehash_file toggle_download_once bulk_delete
      rename_file move_file move_files upload_file upload_archive create_folder
  step (creates body) s = final (create env body s)
  step (updates slug body) s = final (update slug body s)
  step (deletes slug) s = final (delete env slug s)
  step (regenerates slug) s = final (regenerate env slug s)
  step (deletes_file slug id) s = final (delete_file env slug id s)
  step (rehashes slug id) s = final (rehash_file env slug id s)
  step (toggles slug id value) s = final (toggle_download_once env slug id value s)
  step (deletes_files slug ids) s = final (bulk_delete env slug ids s)
  step (renames slug id path) s = final (rename_file env slug id path s)
  step (moves slug id dir) s = final (move_file env slug id dir s)
  step (moves_files slug ids dir) s = final (move_files env slug ids dir s)
  step (uploads slug parts) s = final (upload_file env slug parts s)
  step (uploads_archive slug parts) s = final (upload_archive env slug parts s)
  step (creates_folder slug path) s = final (create_folder env slug path s)

  create-Keeps : (body : CreateBundle) → Keeps (create env body)
  unfolding create
  create-Keeps body = search (keeping, provision_bundle-Keeps, update_bundle_meta-Keeps) depth 12

  update-Keeps : (slug : Text) (body : UpdateBundle) → Keeps (update {D = D} slug body)
  unfolding update
  update-Keeps slug body = search (keeping, resolve_bundle-Keeps, update_bundle_meta-Keeps) depth 12

  delete-Keeps : (slug : Text) → Keeps (delete env slug)
  unfolding delete
  delete-Keeps slug = bind-Keeps _ _ (resolve_bundle-Keeps slug) (λ bundle.
      then-Keeps _ _ (transaction-Keeps _ (delete_bundle_row-Keeps bundle.id))
        (on_disk_only-Keeps (λ s. env.fs.remove_build bundle.slug s.disk)))

  regenerate-Keeps : (slug : Text) → Keeps (regenerate env slug)
  unfolding regenerate
  regenerate-Keeps slug =
      search (keeping, resolve_bundle-Keeps, or_mark_failed-Keeps, regenerate_manifest-Keeps) depth
        12

  delete_file-Keeps : (slug : Text) (id : ℕ) → Keeps (delete_file env slug id)
  unfolding delete_file
  delete_file-Keeps slug id =
      search
        (
          keeping, resolve_bundle-Keeps, artifact_in_bundle-Keeps, delete_entry_rows-Keeps,
          unlink_entry-Keeps, regenerate_manifest-Keeps,
        )
        depth 12

  update_artifact_sha-Keeps : (id : ℕ) (sha : Text) → Keeps (update_artifact_sha {D = D} id sha)
  unfolding update_artifact_sha
  update_artifact_sha-Keeps id sha =
      write-Keeps (is_artifact id) (λ a. record a { sha256 = some sha }) (λ a. refl) (λ a m d. d)

  set_download_once-Keeps : (id : ℕ) (value : Bool) → Keeps (set_download_once {D = D} id value)
  unfolding set_download_once
  set_download_once-Keeps id value =
      write-Keeps (is_artifact id) (λ a. record a { download_once = value }) (λ a. refl)
        (λ a m d. d)

  rehash_file-Keeps : (slug : Text) (id : ℕ) → Keeps (rehash_file env slug id)
  unfolding rehash_file
  rehash_file-Keeps slug id =
      search
        (
          keeping, resolve_bundle-Keeps, artifact_in_bundle-Keeps, update_artifact_sha-Keeps,
          regenerate_manifest-Keeps,
        )
        depth 16

  toggle_download_once-Keeps :
      (slug : Text) (id : ℕ) (value : Bool) → Keeps (toggle_download_once env slug id value)
  unfolding toggle_download_once
  toggle_download_once-Keeps slug id value =
      search
        (
          keeping, resolve_bundle-Keeps, artifact_in_bundle-Keeps, set_download_once-Keeps,
          regenerate_manifest-Keeps,
        )
        depth 12

  bulk_delete-Keeps : (slug : Text) (ids : List ℕ) → Keeps (bulk_delete env slug ids)
  unfolding bulk_delete
  bulk_delete-Keeps slug ids =
      search
        (
          keeping, resolve_bundle-Keeps, resolve_entries-Keeps, delete_all_rows-Keeps,
          unlink_all-Keeps, regenerate_manifest-Keeps,
        )
        depth 12

  rename_file-Keeps : (slug : Text) (id : ℕ) (path : Text) → Keeps (rename_file env slug id path)
  unfolding rename_file
  rename_file-Keeps slug id path =
      search
        (
          keeping, resolve_bundle-Keeps, artifact_in_bundle-Keeps, or_refused-Keeps,
          apply_move-Keeps, regenerate_manifest-Keeps,
        )
        depth 12

  move_file-Keeps : (slug : Text) (id : ℕ) (dir : Text) → Keeps (move_file env slug id dir)
  unfolding move_file
  move_file-Keeps slug id dir =
      search
        (
          keeping, resolve_bundle-Keeps, artifact_in_bundle-Keeps, or_refused-Keeps,
          apply_move-Keeps, regenerate_manifest-Keeps,
        )
        depth 12

  move_files-Keeps : (slug : Text) (ids : List ℕ) (dir : Text) → Keeps (move_files env slug ids dir)
  unfolding move_files
  move_files-Keeps slug ids dir =
      search
        (
          keeping, resolve_bundle-Keeps, resolve_moves-Keeps, move_each-Keeps,
          regenerate_manifest-Keeps,
        )
        depth 12

  upload_file-Keeps : (slug : Text) (parts : List Part) → Keeps (upload_file env slug parts)
  unfolding upload_file
  upload_file-Keeps slug parts =
      search
        (
          keeping, resolve_bundle-Keeps, or_refused-Keeps, upsert_file-Keeps,
          regenerate_manifest-Keeps,
        )
        depth 20

  create_folder-Keeps : (slug path : Text) → Keeps (create_folder env slug path)
  unfolding create_folder
  create_folder-Keeps slug path =
      search
        (
          keeping, resolve_bundle-Keeps, or_refused-Keeps, upsert_folders-Keeps,
          regenerate_manifest-Keeps,
        )
        depth 20

  upload_archive-Keeps : (slug : Text) (parts : List Part) → Keeps (upload_archive env slug parts)
  unfolding upload_archive
  upload_archive-Keeps slug parts =
      search (keeping, resolve_bundle-Keeps, or_mark_failed-Keeps, ingest_archive-Keeps) depth 20

  -- Every call, whatever it answers and whatever the disk does, keeps the artifact rows tidy: their
  -- ids are distinct and below the next one, no two rows of a build have one path, and the name and
  -- the category of a row are those of its path.
  pub step-IsTidy :
      (c : Call) (s : Registry D)
      → IsTidy s.next_id s.artifacts
      → IsTidy (step c s).next_id (step c s).artifacts
  unfolding step
  step-IsTidy (creates body) s v = (create-Keeps body).tidy s v
  step-IsTidy (updates slug body) s v = (update-Keeps slug body).tidy s v
  step-IsTidy (deletes slug) s v = (delete-Keeps slug).tidy s v
  step-IsTidy (regenerates slug) s v = (regenerate-Keeps slug).tidy s v
  step-IsTidy (deletes_file slug id) s v = (delete_file-Keeps slug id).tidy s v
  step-IsTidy (rehashes slug id) s v = (rehash_file-Keeps slug id).tidy s v
  step-IsTidy (toggles slug id value) s v = (toggle_download_once-Keeps slug id value).tidy s v
  step-IsTidy (deletes_files slug ids) s v = (bulk_delete-Keeps slug ids).tidy s v
  step-IsTidy (renames slug id path) s v = (rename_file-Keeps slug id path).tidy s v
  step-IsTidy (moves slug id dir) s v = (move_file-Keeps slug id dir).tidy s v
  step-IsTidy (moves_files slug ids dir) s v = (move_files-Keeps slug ids dir).tidy s v
  step-IsTidy (uploads slug parts) s v = (upload_file-Keeps slug parts).tidy s v
  step-IsTidy (uploads_archive slug parts) s v = (upload_archive-Keeps slug parts).tidy s v
  step-IsTidy (creates_folder slug path) s v = (create_folder-Keeps slug path).tidy s v

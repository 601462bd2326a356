-- ===== src/Bundles/Repo.antt =====
-- crates/bundles/src/repo.rs: the queries and statements on builds and their artifacts. A statement
-- that would break the unique index of migration 0013 fails.
pub mod Index
pub mod Once
pub mod Scan
pub mod Move
use Prim.Native.String.{String}
use mathlib.Core.Bool.{Bool, true, false, ◌&&◌, not}
use loontail_minecraft_netwo.Prelude.{
  ℕ, suc, Option, none, some, List, [], ◌∷◌, any, keep, find, length, update_where, nat_beq,
  if◌then◌else◌, ◌==◌,
}
use loontail_minecraft_netwo.Prelude.Int.{ℤ}
use loontail_minecraft_netwo.Prelude.Text.{bytes_eq, bytes_beq}
use loontail_minecraft_netwo.Network.Effect.{
  AppError, bad_request, not_found, conflict, database, internal,
}
use loontail_minecraft_netwo.Core.Account.{Text}
use loontail_minecraft_netwo.Bundles.Paths.{validate_slug}
use loontail_minecraft_netwo.Bundles.Like.{like_prefix}
use loontail_minecraft_netwo.Bundles.Manifest.{BundleArtifact, BuiltManifest, build_manifest}
use loontail_minecraft_netwo.Bundles.Store.{
  Bundle, BundleStatus, draft, ready, FileSystem, Env, Registry, Outcome, done, fail, M, ◌>>◌,
  ◌>>=◌, ret, guard, gets, modify, or_fail, transaction, on_disk,
}

abbrev pub is_bundle : ℕ → Bundle → Bool
is_bundle id b = nat_beq b.id id

abbrev pub has_slug : Text → Bundle → Bool
has_slug slug b = b.slug == slug

abbrev pub is_artifact : ℕ → BundleArtifact → Bool
is_artifact id a = nat_beq a.id id

abbrev pub is_in : ℕ → BundleArtifact → Bool
is_in bundle a = nat_beq a.bundle_id bundle

abbrev pub is_at : ℕ → Text → BundleArtifact → Bool
is_at bundle path a = is_in bundle a && a.relative_path == path

-- A path below a prefix that ends in a slash.
abbrev pub is_below : ℕ → Text → BundleArtifact → Bool
is_below bundle prefix a = is_in bundle a && like_prefix prefix a.relative_path

-- The unique index on `(bundle_id, relative_path)`.
unfoldable pub is_indexed : List BundleArtifact → Bool
is_indexed [] = true
is_indexed (a ∷ artifacts) =
    not (any (is_at a.bundle_id a.relative_path) artifacts) && is_indexed artifacts

abbrev pub new_bundle : ℕ → Text → Text → Bundle
new_bundle id slug name = record {
  id = id;
  slug = slug;
  name = name;
  description = none;
  version = none;
  status = draft;
  files_count = 0;
  total_size = 0;
  processing_error = none;
  last_generated_at = none;
}

abbrev pub or_kept : Option Text → Text → Text
or_kept none old = old
or_kept (some new) old = new

module _ {D : Type 0} where
  -- A statement that changes artifact rows.
  unfoldable pub write_artifacts : (List BundleArtifact → List BundleArtifact) → M D (Unit {0})
  unfolding is_indexed
  write_artifacts f s =
      let rows = f s.artifacts in
      if is_indexed rows then done tt (record s { artifacts = rows }) else fail database s

  abbrev pub require_by_slug : Text → M D Bundle
  require_by_slug slug s = or_fail (find (has_slug slug) s.bundles) (not_found "build not found") s

  abbrev pub insert_bundle : Text → Text → M D ℕ
  insert_bundle slug name s =
      done s.next_id
        (record s { bundles = new_bundle s.next_id slug name ∷ s.bundles; next_id = suc s.next_id })

  unfoldable pub provision_bundle_row : Text → Text → M D ℕ
  unfolding validate_slug any
  provision_bundle_row slug name = do
    guard (validate_slug slug) (bad_request "invalid slug")
    taken ← gets (λ s. any (has_slug slug) s.bundles)
    guard (not taken) (conflict "a build with this slug already exists")
    insert_bundle slug name

  unfoldable pub provision_bundle : Env D → Text → Text → M D ℕ
  unfolding provision_bundle_row
  provision_bundle env slug name = do
    id ← transaction (provision_bundle_row slug name)
    on_disk (env.fs.create_dir_all slug [])
    ret id

  abbrev pub change_bundle : ℕ → (Bundle → Bundle) → M D (Unit {0})
  change_bundle id f s = done tt (record s { bundles = update_where (is_bundle id) f s.bundles })

  -- `fetch_one` of an UPDATE that returns its row.
  abbrev pub fetch_bundle : ℕ → M D Bundle
  fetch_bundle id s = or_fail (find (is_bundle id) s.bundles) database s

  unfoldable pub update_bundle_meta : ℕ → Option Text → Option Text → Option Text → M D Bundle
  unfolding update_where find
  update_bundle_meta id name description version = do
    change_bundle id
        (λ b. record b { name = or_kept name b.name; description = description; version = version })
    fetch_bundle id

  -- The rows of `bundle_artifacts` go with their build.
  unfoldable pub delete_bundle_row : ℕ → M D (Unit {0})
  unfolding keep
  delete_bundle_row id s = done tt (record s {
    bundles = keep (λ b. not (is_bundle id b)) s.bundles;
    artifacts = keep (λ a. not (is_in id a)) s.artifacts;
  })

  abbrev pub set_status : ℕ → BundleStatus → Option AppError → M D (Unit {0})
  set_status id status error =
      change_bundle id (λ b. record b { status = status; processing_error = error })

  abbrev pub list_artifacts : Env D → ℕ → M D (List BundleArtifact)
  list_artifacts env bundle s = done (env.by_path (keep (is_in bundle) s.artifacts)) s

  abbrev pub find_artifact : ℕ → Registry D → Option BundleArtifact
  find_artifact id s = find (is_artifact id) s.artifacts

  unfoldable pub update_artifact_sha : ℕ → Text → M D (Unit {0})
  unfolding update_where
  update_artifact_sha id sha =
      write_artifacts (update_where (is_artifact id) (λ a. record a { sha256 = some sha }))

  unfoldable pub set_download_once : ℕ → Bool → M D (Unit {0})
  unfolding update_where
  set_download_once id value =
      write_artifacts (update_where (is_artifact id) (λ a. record a { download_once = value }))

  unfoldable pub delete_artifact : ℕ → M D (Unit {0})
  unfolding keep
  delete_artifact id = write_artifacts (keep (λ a. not (is_artifact id a)))

  unfoldable pub delete_artifacts_with_prefix : ℕ → Text → M D (Unit {0})
  unfolding keep like_prefix
  delete_artifacts_with_prefix bundle prefix =
      write_artifacts (keep (λ a. not (is_below bundle prefix a)))

  -- `regenerate_manifest`, with `present_paths` as a test of each artifact.
  unfoldable pub regenerate_manifest : Env D → Bundle → M D Bundle
  unfolding build_manifest
  regenerate_manifest env bundle = do
    artifacts ← list_artifacts env bundle.id
    present ← gets (λ s a. env.fs.exists bundle.slug (BundleArtifact.relative_path a) s.disk)
    let built = build_manifest artifacts bundle.slug env.public_url present
    on_disk (env.fs.write_manifest bundle.slug built.manifest)
    change_bundle bundle.id (λ b. record b {
      status = ready;
      files_count = built.files_count;
      total_size = built.total_size;
      last_generated_at = some env.now;
      processing_error = none;
    })
    fetch_bundle bundle.id

-- ===== src/Bundles/Admin/Uploads.antt =====
-- The handlers of crates/bundles/src/admin.rs that bring in files: an archive, a file, a folder. The
-- parts of a multipart body are listed, a file as the sizes of its chunks.
use mathlib.Core.Bool.{true, false, not}
use loontail_minecraft_netwo.Prelude.{
  ℕ, zero, suc, Option, none, some, List, [], ◌∷◌, ◌++◌, ltb, take, length, if◌then◌else◌,
}
use loontail_minecraft_netwo.Prelude.Int.{pos}
use loontail_minecraft_netwo.Network.Effect.{bad_request, internal}
use loontail_minecraft_netwo.Core.Account.{Text}
use loontail_minecraft_netwo.Core.Headers.{is_empty, split_on}
use loontail_minecraft_netwo.Bundles.Paths.{
  join_parts, normalize_relative_path, split_relative_path,
}
use loontail_minecraft_netwo.Bundles.Archive.{saturating_add}
use loontail_minecraft_netwo.Bundles.Store.{
  Bundle, processing, Env, done, fail, M, ◌>>◌, ◌>>=◌, ret, guard, gets, or_fail, on_disk,
}
use loontail_minecraft_netwo.Bundles.Repo.{set_status, regenerate_manifest}
use loontail_minecraft_netwo.Bundles.Repo.Scan.{
  ScanEntry, walk, scan_directory, upsert_artifact, upsert_row, upsert_scan,
}
use loontail_minecraft_netwo.Bundles.Repo.Move.{parent_of}
use loontail_minecraft_netwo.Bundles.Admin.{or_refused, resolve_bundle, or_mark_failed}

pub data Part : Type 0 where
  archive other : List ℕ → Part
  file : Option Text → List ℕ → Part
  target_path : Text → Part

abbrev pub max_upload_bytes : ℕ
max_upload_bytes = 10737418240

-- The bytes written, unless they pass the limit.
unfoldable pub stream_field_to_file : ℕ → List ℕ → Option ℕ
stream_field_to_file written [] = some written
stream_field_to_file written (chunk ∷ chunks) =
    let rest = stream_field_to_file (saturating_add written chunk) chunks in
    if ltb max_upload_bytes (saturating_add written chunk) then none else rest

pub record UploadParts : Type 0 where
  pub size : Option ℕ
  pub target : Option Text
  pub original_filename : Option Text

-- The last file and the last target count; `none` if a file is too large.
unfoldable pub read_upload_parts : UploadParts → List Part → Option UploadParts
unfolding stream_field_to_file
read_upload_parts u [] = some u
read_upload_parts u (file filename chunks ∷ parts) = elim (stream_field_to_file 0 chunks) [
  | none ↦ none
  | some n ↦ read_upload_parts (record u { size = some n; original_filename = filename }) parts
]
read_upload_parts u (target_path path ∷ parts) =
    read_upload_parts (record u { target = some path }) parts
read_upload_parts u (archive chunks ∷ parts) = read_upload_parts u parts
read_upload_parts u (other chunks ∷ parts) = read_upload_parts u parts

-- The first part that is an archive.
abbrev pub find_archive : List Part → Option (List ℕ)
find_archive [] = none
find_archive (archive chunks ∷ parts) = some chunks
find_archive (_ ∷ parts) = find_archive parts

-- `target_path.filter(|p| !p.trim().is_empty()).or(original_filename)`
abbrev pub raw_target : (Text → Text) → UploadParts → Option Text
raw_target trim u = elim u.target [
  | none ↦ u.original_filename
  | some p ↦ if is_empty (trim p) then u.original_filename else some p
]

abbrev pub no_parts : UploadParts
no_parts = record { size = none; target = none; original_filename = none }

-- The paths of a folder and of those above it, outermost first.
abbrev pub ancestors : ℕ → List Text → List Text
ancestors zero segments = []
ancestors (suc depth) segments =
    ancestors depth segments ++ (join_parts (take (suc depth) segments) ∷ [])

abbrev pub file_entry : Text → ℕ → Text → Option ℕ → ScanEntry
file_entry path size sha modified = record {
  relative_path = path;
  name = (split_relative_path path).0;
  category = (split_relative_path path).1;
  size = pos size;
  sha256 = some sha;
  is_dir = false;
  file_modified_at = modified;
}

abbrev pub folder_entry : Text → ScanEntry
folder_entry path = record {
  relative_path = path;
  name = (split_relative_path path).0;
  category = (split_relative_path path).1;
  size = pos 0;
  sha256 = none;
  is_dir = true;
  file_modified_at = none;
}

module _ {D : Type 0} where
  unfoldable pub upload_file : Env D → Text → List Part → M D Bundle
  unfolding resolve_bundle read_upload_parts normalize_relative_path parent_of upsert_row
      regenerate_manifest
  upload_file env slug parts = do
    bundle ← resolve_bundle slug
    on_disk (env.fs.create_dir_all bundle.slug [])
    u ← or_fail (read_upload_parts no_parts parts) (bad_request "upload exceeds the limit")
    size ← or_fail u.size (bad_request "no file provided")
    raw ← or_fail (raw_target env.trim u) (bad_request "targetPath or a filename is required")
    path ← or_refused (normalize_relative_path raw)
    on_disk (env.fs.create_dir_all bundle.slug (parent_of path))
    on_disk (env.fs.place_upload bundle.slug path)
    hash ← gets (λ s. env.fs.hash_file bundle.slug path s.disk)
    sha ← or_fail hash internal
    modified ← gets (λ s. env.fs.modified_at bundle.slug path s.disk)
    upsert_artifact bundle.id (file_entry path size sha modified)
    regenerate_manifest env bundle

  unfoldable pub upsert_folders : ℕ → List Text → M D (Unit {0})
  unfolding upsert_row
  upsert_folders bundle [] = ret tt
  upsert_folders bundle (path ∷ paths) =
      upsert_artifact bundle (folder_entry path) >> upsert_folders bundle paths

  unfoldable pub create_folder : Env D → Text → Text → M D Bundle
  unfolding resolve_bundle normalize_relative_path split_on upsert_folders regenerate_manifest
  create_folder env slug relative_path = do
    bundle ← resolve_bundle slug
    path ← or_refused (normalize_relative_path (env.trim relative_path))
    on_disk (env.fs.create_dir_all bundle.slug [])
    file_there ← gets (λ s. env.fs.is_file bundle.slug path s.disk)
    guard (not file_there) (bad_request "a file already exists at that path")
    on_disk (env.fs.create_dir_all bundle.slug path)
    let segments = split_on b'/' path
    upsert_folders bundle.id (ancestors (length segments) segments)
    regenerate_manifest env bundle

  -- `files/` is cleared and the archive unpacked into it.
  abbrev pub unpack : Env D → Bundle → M D (Unit {0})
  unpack env bundle s =
      let result = env.fs.unpack bundle.slug s.disk in
      elim result.0 [
        | none ↦ done tt (record s { disk = result.1 })
        | some e ↦ fail e (record s { disk = result.1 })
      ]

  unfoldable pub ingest_archive : Env D → Bundle → M D Bundle
  unfolding walk upsert_scan regenerate_manifest
  ingest_archive env bundle = do
    unpack env bundle
    walked ← gets (λ s. env.fs.files bundle.slug s.disk)
    found ← or_fail walked internal
    upsert_scan bundle.id (scan_directory found)
    regenerate_manifest env bundle

  unfoldable pub upload_archive : Env D → Text → List Part → M D Bundle
  unfolding resolve_bundle stream_field_to_file ingest_archive
  upload_archive env slug parts = do
    bundle ← resolve_bundle slug
    on_disk (env.fs.create_dir_all bundle.slug [])
    chunks ← or_fail (find_archive parts) (bad_request "no archive file provided")
    written ← or_fail (stream_field_to_file 0 chunks) (bad_request "upload exceeds the limit")
    set_status bundle.id processing none
    (λ s. or_mark_failed bundle.id (ingest_archive env bundle s))

-- ===== src/Bundles/Tests.antt =====
-- The theorems on builds at concrete inputs.
use mathlib.Core.Bool.{Bool, true, false, not}
use loontail_minecraft_netwo.Prelude.{◌≡◌, ◌≤◌, refl, [], ◌∷◌, length, any, keep}
use loontail_minecraft_netwo.Bundles.Paths.{
  inside, validate_slug, normalize_relative_path, split_relative_path,
}
use loontail_minecraft_netwo.Bundles.Archive.{
  ZipEntry, max_entries, max_uncompressed, extract_zip, stopped, zip_slip, too_large, written_as,
}
use loontail_minecraft_netwo.Bundles.Archive.Guards.{IsBounded, writes, extract_zip-IsBounded}
use loontail_minecraft_netwo.Prelude.{
  ℕ, List, arith, none, some, map, find, All, if◌then◌else◌, ◌==◌,
}
use loontail_minecraft_netwo.Prelude.Int.{pos}
use loontail_minecraft_netwo.Prelude.Text.{bytes_eq}
use loontail_minecraft_netwo.Core.Account.{Text}
use loontail_minecraft_netwo.Bundles.Paths.{root_category, backslash}
use loontail_minecraft_netwo.Bundles.Archive.{has_prefix}
use loontail_minecraft_netwo.Bundles.Like.{like_prefix}
use loontail_minecraft_netwo.Bundles.Like.Prefix.{like_prefix-eq-has_prefix}
use loontail_minecraft_netwo.Bundles.Manifest.{BundleArtifact, build_manifest}
use loontail_minecraft_netwo.Bundles.Manifest.Grouping.{Shows, build_manifest-Shows}
use loontail_minecraft_netwo.Bundles.Store.{
  Bundle, ready, FileSystem, Entries, end, entry, dir, file, Env, Registry, done, final,
}
use loontail_minecraft_netwo.Bundles.Repo.{is_artifact, is_indexed, write_artifacts}
use loontail_minecraft_netwo.Bundles.Repo.Scan.{
  walk, scan_directory, repeats, upsert_row, upsert_chunks, chunks, upsert_scan,
}
use loontail_minecraft_netwo.Bundles.Repo.Scan.Named.{is_plain}
use loontail_minecraft_netwo.Bundles.Tidy.Rescan.{Mirrors, upsert_scan-Mirrors}
use loontail_minecraft_netwo.Bundles.Repo.Once.{Once}
use loontail_minecraft_netwo.Bundles.Repo.Move.{move_rows, move_on_disk}
use loontail_minecraft_netwo.Bundles.Repo.Move.Legal.{relocated}
use loontail_minecraft_netwo.Bundles.Admin.Moving.{apply_move, move_files}
use loontail_minecraft_netwo.Bundles.Admin.Moving.Relocates.{Leaves, apply_move-Leaves}
use loontail_minecraft_netwo.Bundles.Tidy.{IsDerived, IsTidy}
use loontail_minecraft_netwo.Bundles.Tidy.Calls.{renames, step, step-IsTidy}

abbrev jar : ZipEntry
jar = record { name = b'm' ∷ 92 ∷ b'a' ∷ []; size = 5; is_dir = false }

abbrev slip : ZipEntry
slip = record { name = b'.' ∷ b'.' ∷ b'/' ∷ b'a' ∷ []; size = 1; is_dir = false }

abbrev here : ZipEntry
here = record { name = b'.' ∷ b'/' ∷ []; size = 1; is_dir = true }

abbrev huge : ZipEntry
huge = record { name = b'h' ∷ []; size = max_uncompressed; is_dir = false }

normalize_relative_path-backslash :
    normalize_relative_path (b'm' ∷ 92 ∷ b'.' ∷ b'/' ∷ b'a' ∷ []) ≡ inside (b'm' ∷ b'/' ∷ b'a' ∷ [])
unfolding normalize_relative_path any keep
normalize_relative_path-backslash = refl

split_relative_path-nested : split_relative_path (b'm' ∷ b'/' ∷ b'a' ∷ []) ≡ (b'a' ∷ [], b'm' ∷ [])
unfolding split_relative_path
split_relative_path-nested = refl

validate_slug-dots : validate_slug (b'.' ∷ b'.' ∷ []) ≡ false
unfolding validate_slug
validate_slug-dots = refl

extract_zip-slip :
    extract_zip (here ∷ jar ∷ slip ∷ jar ∷ [])
    ≡ stopped zip_slip (written_as (b'm' ∷ b'/' ∷ b'a' ∷ []) jar ∷ [])
unfolding extract_zip any keep
extract_zip-slip = refl

extract_zip-huge :
    extract_zip (jar ∷ huge ∷ [])
    ≡ stopped too_large (written_as (b'm' ∷ b'/' ∷ b'a' ∷ []) jar ∷ [])
unfolding extract_zip any keep
extract_zip-huge = refl

extract_zip-IsBounded_example :
    IsBounded (writes (extract_zip (here ∷ jar ∷ slip ∷ [])))
    × (length (writes (extract_zip (here ∷ jar ∷ slip ∷ []))) ≤ max_entries)
extract_zip-IsBounded_example = extract_zip-IsBounded (here ∷ jar ∷ slip ∷ [])

-- A disk as the list of its paths.
abbrev memory : FileSystem (List Text)
memory = record {
  exists = λ slug path d. any (λ p. p == path) d;
  is_file = λ slug path d. false;
  create_dir_all = λ slug path d. (true, d);
  rename = λ slug old path d. (true, map (λ p. if p == old then path else p) d);
  unlink = λ slug a d. keep (λ p. not (p == BundleArtifact.relative_path a)) d;
  remove_build = λ slug d. [];
  place_upload = λ slug path d. (true, path ∷ d);
  hash_file = λ slug path d. some (b'0' ∷ []);
  modified_at = λ slug path d. none;
  unpack = λ slug d. (none, d);
  files = λ slug d. some end;
  write_manifest = λ slug m d. (true, d);
}

abbrev env : Env (List Text)
env = record {
  fs = memory;
  public_url = b'/' ∷ b'r' ∷ b'/' ∷ [];
  by_path = λ rows. rows;
  trim = λ t. t;
  now = 9;
}

abbrev build : Bundle
build = record {
  id = 1;
  slug = b'b' ∷ [];
  name = b'b' ∷ [];
  description = none;
  version = none;
  status = ready;
  files_count = 2;
  total_size = 7;
  processing_error = none;
  last_generated_at = none;
}

abbrev row : ℕ → Text → Text → Text → Bool → BundleArtifact
row id path name category is_dir = record {
  id = id;
  bundle_id = 1;
  relative_path = path;
  name = name;
  category = category;
  size = pos 3;
  sha256 = none;
  is_dir = is_dir;
  download_once = false;
  file_modified_at = none;
}

abbrev mods : BundleArtifact
mods = row 2 (b'm' ∷ []) (b'm' ∷ []) root_category true

abbrev mod_file : BundleArtifact
mod_file = row 3 (b'm' ∷ b'/' ∷ b'a' ∷ []) (b'a' ∷ []) (b'm' ∷ []) false

abbrev other_file : BundleArtifact
other_file = row 4 (b'n' ∷ []) (b'n' ∷ []) root_category false

abbrev rows : List BundleArtifact
rows = mods ∷ mod_file ∷ other_file ∷ []

abbrev registry : Registry (List Text)
registry = record {
  bundles = build ∷ [];
  artifacts = rows;
  next_id = 5;
  disk = (b'm' ∷ []) ∷ (b'n' ∷ []) ∷ [];
}

rows-Once : Once rows
rows-Once = ((refl, (refl, tt)), ((refl, tt), (tt, tt)))

rows-indexed : is_indexed rows ≡ true
unfolding is_indexed any
rows-indexed = refl

rows-IsDerived : All IsDerived rows
unfolding split_relative_path
rows-IsDerived = ((refl, refl), ((refl, refl), ((refl, refl), tt)))

mods-found : find (is_artifact 2) rows ≡ some mods
unfolding find
mods-found = refl

-- The folder moves with its file.
apply_move-folder :
    map
      (λ a. BundleArtifact.relative_path a)
      (final (apply_move env build mods (b'k' ∷ []) registry)).artifacts
    ≡ (b'k' ∷ []) ∷ (b'k' ∷ b'/' ∷ b'a' ∷ []) ∷ (b'n' ∷ []) ∷ []
unfolding apply_move move_rows move_on_disk any keep is_indexed like_prefix
apply_move-folder = refl

-- A batch that fails on its second entry leaves the rows, and the disk as its first entry moved it.
move_files-strands :
    ((final (move_files env (b'b' ∷ []) (2 ∷ 3 ∷ []) (b'k' ∷ []) registry)).artifacts ≡ rows)
    × ((final (move_files env (b'b' ∷ []) (2 ∷ 3 ∷ []) (b'k' ∷ []) registry)).disk
        ≡ (b'k' ∷ b'/' ∷ b'm' ∷ []) ∷ (b'n' ∷ []) ∷ [])
unfolding move_files move_rows move_on_disk any keep is_indexed like_prefix find
move_files-strands = (refl, refl)

apply_move-Leaves_example :
    Leaves
      (map (relocated 1 (b'm' ∷ []) (b'k' ∷ []) true) rows)
      registry
      (apply_move env build mods (b'k' ∷ []) registry)
apply_move-Leaves_example =
    apply_move-Leaves env build mods (b'k' ∷ []) registry rows-Once rows-indexed mods-found refl

like_prefix-eq-has_prefix_example :
    like_prefix (b'm' ∷ b'_' ∷ b'/' ∷ []) (b'm' ∷ b'x' ∷ b'/' ∷ b'a' ∷ [])
    ≡ has_prefix (b'm' ∷ b'_' ∷ b'/' ∷ []) (b'm' ∷ b'x' ∷ b'/' ∷ b'a' ∷ [])
like_prefix-eq-has_prefix_example =
    like_prefix-eq-has_prefix (b'm' ∷ b'_' ∷ b'/' ∷ []) (b'm' ∷ b'x' ∷ b'/' ∷ b'a' ∷ [])

abbrev all_there : BundleArtifact → Bool
all_there a = true

build_manifest-files : (build_manifest rows (b'b' ∷ []) (b'/' ∷ []) all_there).total_size ≡ 6
unfolding build_manifest
build_manifest-files = refl

build_manifest-Shows_example :
    Shows all_there
      (b'b' ∷ [])
      (b'/' ∷ [])
      rows
      (build_manifest rows (b'b' ∷ []) (b'/' ∷ []) all_there)
build_manifest-Shows_example = build_manifest-Shows all_there (b'b' ∷ []) (b'/' ∷ []) rows

registry-IsTidy : IsTidy 5 rows
registry-IsTidy = record {
  once = rows-Once;
  used = omega arith;
  indexed = rows-indexed;
  derived = rows-IsDerived;
}

step-IsTidy_example :
    IsTidy
      (step env (renames (b'b' ∷ []) 2 (b'k' ∷ [])) registry).next_id
      (step env (renames (b'b' ∷ []) 2 (b'k' ∷ [])) registry).artifacts
step-IsTidy_example = step-IsTidy env (renames (b'b' ∷ []) 2 (b'k' ∷ [])) registry registry-IsTidy

-- The folder and its file again, and a file that no row has.
abbrev found : Entries
found =
    entry (b'm' ∷ []) (dir none (entry (b'a' ∷ []) (file (pos 8) (b'0' ∷ []) none) end))
      (entry (b'z' ∷ []) (file (pos 2) (b'1' ∷ []) none) end)

upsert_scan-found :
    map
      (λ a. BundleArtifact.relative_path a)
      (final (upsert_scan 1 (scan_directory found) registry)).artifacts
    ≡ (b'z' ∷ []) ∷ (b'm' ∷ []) ∷ (b'm' ∷ b'/' ∷ b'a' ∷ []) ∷ []
unfolding walk upsert_scan upsert_chunks chunks upsert_row repeats any keep is_indexed
    write_artifacts
upsert_scan-found = refl

upsert_scan-Mirrors_example :
    (t : Registry (List Text)) × (upsert_scan 1 (scan_directory found) registry ≡ done tt t)
    × Mirrors 1 (scan_directory found) registry t
unfolding is_plain
upsert_scan-Mirrors_example = upsert_scan-Mirrors 1 found registry refl registry-IsTidy

-- A file whose name holds a backslash can have the path of another file.
walk-repeats :
    repeats (
      scan_directory (
        entry
          (b'm' ∷ [])
          (dir none (entry (b'a' ∷ []) (file (pos 8) [] none) end))
          (entry (b'm' ∷ backslash ∷ b'a' ∷ []) (file (pos 2) [] none) end)))
    ≡ true
unfolding walk repeats any
walk-repeats = refl

-- ===== src/Bundles/Repo/Scan.antt =====
-- The upserts of artifact rows, one by one and of a whole scan.
pub mod Replacing
pub mod Chunks
pub mod Named
pub mod Distinct
use mathlib.Core.Bool.{Bool, true, false, ◌&&◌, not}
use loontail_minecraft_netwo.Prelude.{
  ℕ, zero, suc, Option, none, some, List, [], ◌∷◌, ◌++◌, any, keep, length, take, drop,
  update_where, nat_beq, if◌then◌else◌, ◌==◌,
}
use loontail_minecraft_netwo.Prelude.Int.{ℤ, pos}
use loontail_minecraft_netwo.Prelude.Text.{bytes_eq, bytes_beq}
use loontail_minecraft_netwo.Network.Effect.{database}
use loontail_minecraft_netwo.Core.Account.{Text}
use loontail_minecraft_netwo.Core.Headers.{is_empty}
use loontail_minecraft_netwo.Bundles.Paths.{split_relative_path, unified}
use loontail_minecraft_netwo.Bundles.Manifest.{BundleArtifact}
use loontail_minecraft_netwo.Bundles.Store.{
  Node, file, dir, special, Entries, end, entry, Registry, Outcome, done, fail, M, ◌>>◌, ret,
  transaction,
}
use loontail_minecraft_netwo.Bundles.Repo.{is_in, is_at, write_artifacts}

pub record ScanEntry : Type 0 where
  pub relative_path : Text
  pub name : Text
  pub category : Text
  pub size : ℤ
  pub sha256 : Option Text
  pub is_dir : Bool
  pub file_modified_at : Option ℕ

abbrev pub scan_entry : Text → ℤ → Option Text → Bool → Option ℕ → ScanEntry
scan_entry path size sha is_dir modified = record {
  relative_path = path;
  name = (split_relative_path path).0;
  category = (split_relative_path path).1;
  size = size;
  sha256 = sha;
  is_dir = is_dir;
  file_modified_at = modified;
}

-- The path of an entry of a directory below the base.
abbrev pub entry_path : Text → Text → Text
entry_path base name = if is_empty base then unified name else base ++ (b'/' ∷ unified name)

-- The rows of what lies in a directory; an entry that is no file and no directory has none.
unfoldable mutual
  pub walk : Text → Entries → List ScanEntry
  walk base end = []
  walk base (entry name node rest) =
      (if is_empty (entry_path base name) then [] else walk_node (entry_path base name) node)
      ++ walk base rest

  pub walk_node : Text → Node → List ScanEntry
  walk_node path (file size sha modified) = scan_entry path size (some sha) false modified ∷ []
  walk_node path (dir modified entries) =
      scan_entry path (pos 0) none true modified ∷ walk path entries
  walk_node path special = []

abbrev pub scan_directory : Entries → List ScanEntry
scan_directory entries = walk [] entries

-- `DO UPDATE SET …`: the flag of the old row stays.
abbrev pub refreshed : ScanEntry → BundleArtifact → BundleArtifact
refreshed e a = record a {
  name = e.name;
  category = e.category;
  size = e.size;
  sha256 = e.sha256;
  is_dir = e.is_dir;
  file_modified_at = e.file_modified_at;
}

abbrev pub new_artifact : ℕ → ℕ → ScanEntry → BundleArtifact
new_artifact id bundle e = record {
  id = id;
  bundle_id = bundle;
  relative_path = e.relative_path;
  name = e.name;
  category = e.category;
  size = e.size;
  sha256 = e.sha256;
  is_dir = e.is_dir;
  download_once = false;
  file_modified_at = e.file_modified_at;
}

abbrev pub is_for : ScanEntry → ScanEntry → Bool
is_for e f = f.relative_path == e.relative_path

module _ {D : Type 0} where
  -- `INSERT … ON CONFLICT (bundle_id, relative_path) DO UPDATE`
  unfoldable pub upsert_row : ℕ → ScanEntry → Registry D → Registry D
  unfolding any update_where
  upsert_row bundle e s =
      if any (is_at bundle e.relative_path) s.artifacts
      then record s {
        artifacts = update_where (is_at bundle e.relative_path) (refreshed e) s.artifacts;
      }
      else record s {
        artifacts = new_artifact s.next_id bundle e ∷ s.artifacts;
        next_id = suc s.next_id;
      }

  abbrev pub upsert_artifact : ℕ → ScanEntry → M D (Unit {0})
  upsert_artifact bundle e s = done tt (upsert_row bundle e s)

  abbrev pub upsert_rows : ℕ → List ScanEntry → Registry D → Registry D
  upsert_rows bundle [] s = s
  upsert_rows bundle (e ∷ es) s = upsert_rows bundle es (upsert_row bundle e s)

-- A statement cannot touch a row twice.
unfoldable pub repeats : List ScanEntry → Bool
unfolding any
repeats [] = false
repeats (e ∷ es) = if any (is_for e) es then true else repeats es

abbrev pub upsert_chunk : ℕ
upsert_chunk = 10000

-- `scan.chunks(n)`, on fuel.
unfoldable pub chunks {ℓ} : {A : Type ℓ} → ℕ → ℕ → List A → List (List A)
chunks zero n xs = []
chunks (suc fuel) n [] = []
chunks (suc fuel) n (x ∷ xs) = take n (x ∷ xs) ∷ chunks fuel n (drop n (x ∷ xs))

abbrev pub is_scanned : List ScanEntry → BundleArtifact → Bool
is_scanned scan a = any (λ e. e.relative_path == a.relative_path) scan

module _ {D : Type 0} where
  unfoldable pub upsert_artifact_chunk : ℕ → List ScanEntry → M D (Unit {0})
  unfolding upsert_row repeats
  upsert_artifact_chunk bundle chunk s =
      if repeats chunk then fail database s else done tt (upsert_rows bundle chunk s)

  unfoldable pub upsert_chunks : ℕ → List (List ScanEntry) → M D (Unit {0})
  unfolding upsert_artifact_chunk
  upsert_chunks bundle [] = ret tt
  upsert_chunks bundle (c ∷ cs) = upsert_artifact_chunk bundle c >> upsert_chunks bundle cs

  -- `relative_path <> ALL($2)`
  unfoldable pub delete_unscanned : ℕ → List ScanEntry → M D (Unit {0})
  unfolding keep any
  delete_unscanned bundle scan =
      write_artifacts (keep (λ a. not (is_in bundle a && not (is_scanned scan a))))

  unfoldable pub upsert_scan : ℕ → List ScanEntry → M D (Unit {0})
  unfolding upsert_chunks delete_unscanned chunks
  upsert_scan bundle scan =
      transaction do
        upsert_chunks bundle (chunks (length scan) upsert_chunk scan)
        delete_unscanned bundle scan

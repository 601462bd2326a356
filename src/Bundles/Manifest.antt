-- ===== src/Bundles/Manifest.antt =====
-- crates/bundles/src/manifest.rs: the manifest that the launcher fetches, before it is serialised.
pub mod Grouping
use mathlib.Core.Bool.{Bool, true, false, not}
use loontail_minecraft_netwo.Prelude.{
  ℕ, ◌+◌, ◌%◌, ◌^◌, Option, none, some, List, [], ◌∷◌, ◌++◌, map, nat_beq, if◌then◌else◌, ◌==◌,
}
use loontail_minecraft_netwo.Prelude.Int.{ℤ, pos, negsuc}
use loontail_minecraft_netwo.Prelude.Text.{bytes_eq, bytes_beq}
use loontail_minecraft_netwo.Core.Account.{Text}
use loontail_minecraft_netwo.Core.Headers.{is_empty}
use loontail_minecraft_netwo.Bundles.Paths.{unified, root_category}

pub record BundleArtifact : Type 0 where
  pub id : ℕ
  pub bundle_id : ℕ
  pub relative_path : Text
  pub name : Text
  pub category : Text
  pub size : ℤ
  pub sha256 : Option Text
  pub is_dir : Bool
  pub download_once : Bool
  pub file_modified_at : Option ℕ

pub record ManifestEntry : Type 0 where
  pub path : Text
  pub name : Text
  pub size : ℤ
  pub is_dir : Bool
  pub sha256 : Option Text
  pub url : Option Text
  pub download_once : Option Bool

-- An `IndexMap`, its categories in the order of their insertion.
abbrev pub Manifest : Type 0
Manifest = List (Text × List ManifestEntry)

-- The counts as the 32 bits of an `i32` and the 64 bits of an `i64`, which wrap around.
pub record BuiltManifest : Type 0 where
  pub manifest : Manifest
  pub files_count : ℕ
  pub total_size : ℕ

-- `manifest.entry(category).or_default().push(entry)`
unfoldable pub push_entry : Text → ManifestEntry → Manifest → Manifest
push_entry c e [] = (c, e ∷ []) ∷ []
push_entry c e ((d, es) ∷ m) =
    if d == c then (d, es ++ (e ∷ [])) ∷ m else (d, es) ∷ push_entry c e m

-- `trim_end_matches('/')`
unfoldable pub trim_end_slashes : Text → Text
trim_end_slashes [] = []
trim_end_slashes (b ∷ bs) =
    let rest = trim_end_slashes bs in
    if nat_beq b b'/' then (if is_empty rest then [] else b ∷ rest) else b ∷ rest

abbrev pub builds_part : Text
builds_part = b'/' ∷ b'b' ∷ b'u' ∷ b'i' ∷ b'l' ∷ b'd' ∷ b's' ∷ b'/' ∷ []

abbrev pub files_part : Text
files_part = b'/' ∷ b'f' ∷ b'i' ∷ b'l' ∷ b'e' ∷ b's' ∷ b'/' ∷ []

unfoldable pub public_url : Text → Text → Text → Text
unfolding trim_end_slashes
public_url prefix slug path =
    trim_end_slashes prefix ++ (builds_part ++ (slug ++ (files_part ++ unified path)))

abbrev pub category_or_root : Text → Text
category_or_root c = if is_empty c then root_category else c

-- `size.max(0)`
abbrev pub size_or_zero : ℤ → ℕ
size_or_zero (pos n) = n
size_or_zero (negsuc n) = 0

abbrev pub counted : BundleArtifact → ℕ
counted a = if a.is_dir then 0 else 1

abbrev pub sized : BundleArtifact → ℕ
sized a = if a.is_dir then 0 else size_or_zero a.size

abbrev pub entry_of : Text → Text → BundleArtifact → ManifestEntry
entry_of slug prefix a = record {
  path = a.relative_path;
  name = a.name;
  size = a.size;
  is_dir = a.is_dir;
  sha256 = if a.is_dir then none else a.sha256;
  url = if a.is_dir then none else some (public_url prefix slug a.relative_path);
  download_once = if a.download_once then some true else none;
}

abbrev pub with_entry : Text → Text → BundleArtifact → BuiltManifest → BuiltManifest
with_entry slug prefix a built = record {
  manifest = push_entry (category_or_root a.category) (entry_of slug prefix a) built.manifest;
  files_count = (built.files_count + counted a) % 2 ^ 32;
  total_size = (built.total_size + sized a) % 2 ^ 64;
}

-- The loop, with what is built so far.
unfoldable pub add_artifacts :
    (BundleArtifact → Bool) → Text → Text → List BundleArtifact → BuiltManifest → BuiltManifest
unfolding push_entry
add_artifacts exists slug prefix [] built = built
add_artifacts exists slug prefix (a ∷ artifacts) built =
    add_artifacts exists slug prefix artifacts
      (if exists a then with_entry slug prefix a built else built)

unfoldable pub build_manifest :
    List BundleArtifact → Text → Text → (BundleArtifact → Bool) → BuiltManifest
unfolding add_artifacts
build_manifest artifacts slug prefix exists =
    add_artifacts exists slug prefix artifacts
      (record { manifest = []; files_count = 0; total_size = 0 })

-- ===== src/Bundles/Manifest/Grouping.antt =====
-- What the manifest holds of each category.
use mathlib.Core.Bool.{Bool, true, ◌&&◌, not}
use mathlib.Core.List.{append-nil, append_assoc}
use loontail_minecraft_netwo.Prelude.{
  ℕ, ◌+◌, ◌%◌, ◌^◌, ◌<◌, ◌≡◌, refl, ◌∙◌, none, some, List, [], ◌∷◌, ◌++◌, map, keep, length,
  if◌then◌else◌, ◌==◌, arith, Bool-cases, inl, inr,
}
use loontail_minecraft_netwo.Prelude.Text.{bytes_eq, bytes_beq_iff}
use loontail_minecraft_netwo.Prelude.Map.{lookup, contains_key, Distinct}
use loontail_minecraft_netwo.Core.Account.{Text}
use loontail_minecraft_netwo.Bundles.Manifest.{
  BundleArtifact, ManifestEntry, Manifest, BuiltManifest, push_entry, category_or_root,
  size_or_zero, entry_of, with_entry, add_artifacts, build_manifest,
}

abbrev pub in_category : Text → BundleArtifact → Bool
in_category c a = category_or_root a.category == c

-- The entries of a category.
abbrev pub entries_in : Text → Manifest → List ManifestEntry
entries_in c m = elim (lookup c m) [ none ↦ [] | some es ↦ es ]

abbrev pub total_size_of : List BundleArtifact → ℕ
total_size_of [] = 0
total_size_of (a ∷ artifacts) = size_or_zero a.size + total_size_of artifacts

entries_in-push_entry :
    (c d : Text) (e : ManifestEntry) (m : Manifest)
    → entries_in c (push_entry d e m)
      ≡ (if d == c then entries_in c m ++ (e ∷ []) else entries_in c m)
unfolding push_entry lookup
entries_in-push_entry c d e [] = ground arith
entries_in-push_entry c d e ((i, es) ∷ m) =
    ground (
      arith,
      entries_in-push_entry c d e m,
      bytes_beq_iff i c,
      bytes_beq_iff i d,
      bytes_beq_iff d c,
    )

contains_key-push_entry :
    (c d : Text) (e : ManifestEntry) (m : Manifest)
    → contains_key c (push_entry d e m) ≡ (if d == c then true else contains_key c m)
unfolding push_entry contains_key
contains_key-push_entry c d e [] = refl
contains_key-push_entry c d e ((i, es) ∷ m) = ground (
  arith,
  contains_key-push_entry c d e m,
  bytes_beq_iff i c,
  bytes_beq_iff i d,
  bytes_beq_iff d c,
)

push_entry-Distinct :
    (d : Text) (e : ManifestEntry) (m : Manifest) → Distinct m → Distinct (push_entry d e m)
unfolding push_entry contains_key
push_entry-Distinct d e [] h = (refl, tt)
push_entry-Distinct d e ((i, es) ∷ m) h = elim (Bool-cases (i == d)) [
  | inl s ↦ rw s h
  | inr n ↦ rw n (
    ground (arith, contains_key-push_entry i d e m, bytes_beq_iff d i, bytes_beq_iff i d),
    push_entry-Distinct d e m h.1,
  )
]

module _ (exists : BundleArtifact → Bool) (slug prefix : Text) where
  -- The artifacts that a category shows.
  abbrev pub listed : Text → List BundleArtifact → List BundleArtifact
  listed c artifacts = keep (λ a. exists a && in_category c a) artifacts

  add_artifacts-entries :
      (c : Text) (artifacts : List BundleArtifact) (built : BuiltManifest)
      → entries_in c (add_artifacts exists slug prefix artifacts built).manifest
        ≡ entries_in c built.manifest ++ map (entry_of slug prefix) (listed c artifacts)
  unfolding add_artifacts keep
  add_artifacts-entries c [] built = rw append-nil refl
  add_artifacts-entries c (a ∷ artifacts) built = elim (Bool-cases (exists a)) [
    | inr n ↦ rw (n, add_artifacts) (add_artifacts-entries c artifacts built)
    | inl y ↦
        (let next = with_entry slug prefix a built in
          let pushed =
            entries_in-push_entry c (category_or_root a.category) (entry_of slug prefix a)
              built.manifest in
          let rest = add_artifacts-entries c artifacts next in
          elim (Bool-cases (in_category c a)) [
            | inl t ↦ rw (y, t, add_artifacts) (rest ∙ rw (pushed, t, append_assoc) refl)
            | inr f ↦ rw (y, f, add_artifacts) (rest ∙ rw (pushed, f) refl)
          ])
  ]

  add_artifacts-Distinct :
      (artifacts : List BundleArtifact) (built : BuiltManifest)
      → Distinct built.manifest
      → Distinct (add_artifacts exists slug prefix artifacts built).manifest
  unfolding add_artifacts
  add_artifacts-Distinct [] built h = h
  add_artifacts-Distinct (a ∷ artifacts) built h = elim (Bool-cases (exists a)) [
    | inr n ↦ rw (n, add_artifacts) (add_artifacts-Distinct artifacts built h)
    | inl y ↦
        (let kept =
            push_entry-Distinct (category_or_root a.category) (entry_of slug prefix a)
              built.manifest h in
          rw (y, add_artifacts)
            (add_artifacts-Distinct artifacts (with_entry slug prefix a built) kept))
  ]

  -- The files that are there.
  abbrev pub files : List BundleArtifact → List BundleArtifact
  files artifacts = keep (λ a. exists a && not a.is_dir) artifacts

  add_artifacts-counts :
      (artifacts : List BundleArtifact) (built : BuiltManifest)
      → built.files_count < 2 ^ 32
      → built.total_size < 2 ^ 64
      → ((add_artifacts exists slug prefix artifacts built).files_count
          ≡ (built.files_count + length (files artifacts)) % 2 ^ 32)
        × ((add_artifacts exists slug prefix artifacts built).total_size
            ≡ (built.total_size + total_size_of (files artifacts)) % 2 ^ 64)
  unfolding add_artifacts keep
  add_artifacts-counts [] built k l = (omega arith, omega arith)
  add_artifacts-counts (a ∷ artifacts) built k l = elim (Bool-cases (exists a)) [
    | inr n ↦ rw (n, add_artifacts) (add_artifacts-counts artifacts built k l)
    | inl y ↦
        (let (c, s) =
            add_artifacts-counts artifacts (with_entry slug prefix a built) (omega arith)
              (omega arith) in
          elim (Bool-cases a.is_dir) [
            | inl d ↦ rw (y, d, add_artifacts) (rw d at c ∙ omega arith, rw d at s ∙ omega arith)
            | inr f ↦ rw (y, f, add_artifacts) (rw f at c ∙ omega arith, rw f at s ∙ omega arith)
          ])
  ]

  -- What a manifest says of the artifacts.
  pub record Shows (artifacts : List BundleArtifact) (built : BuiltManifest) : Type 0 where
    pub grouped :
        (c : Text) → entries_in c built.manifest ≡ map (entry_of slug prefix) (listed c artifacts)
    pub distinct : Distinct built.manifest
    pub counted_files : built.files_count ≡ length (files artifacts) % 2 ^ 32
    pub summed : built.total_size ≡ total_size_of (files artifacts) % 2 ^ 64

  -- The manifest shows under each category exactly the artifacts of the category that the probe
  -- finds, in their order, each category once. Modulo 2 ^ 32, its count is that of the files
  -- among them, and modulo 2 ^ 64, its size is the sum of their sizes, a negative one as none: as long
  -- as they fit into an `i32` and an `i64`, they are the numbers themselves.
  pub build_manifest-Shows :
      (artifacts : List BundleArtifact)
      → Shows artifacts (build_manifest artifacts slug prefix exists)
  unfolding build_manifest lookup
  build_manifest-Shows artifacts =
      let empty : BuiltManifest = record { manifest = []; files_count = 0; total_size = 0 } in
      let (c, s) = add_artifacts-counts artifacts empty (omega arith) (omega arith) in
      record {
        grouped = λ c. add_artifacts-entries c artifacts empty;
        distinct = add_artifacts-Distinct artifacts empty tt;
        counted_files = omega (arith, c);
        summed = omega (arith, s);
      }

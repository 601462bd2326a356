-- ===== src/Bundles/Repo/Scan/Replacing.antt =====
-- What a scan leaves of the rows of its build.
use mathlib.Core.Bool.{Bool, true, false, ◌&&◌}
use loontail_minecraft_netwo.Prelude.{
  ℕ, ◌≡◌, refl, ap, ◌∙◌, Option, none, some, List, [], ◌∷◌, any, find, update_where, nat_beq,
  if◌then◌else◌, ◌==◌, arith, Bool-cases, inl, inr,
}
use loontail_minecraft_netwo.Prelude.Text.{bytes_eq, bytes_beq_iff}
use loontail_minecraft_netwo.Core.Account.{Text}
use loontail_minecraft_netwo.Bundles.Manifest.{BundleArtifact}
use loontail_minecraft_netwo.Bundles.Store.{Registry}
use loontail_minecraft_netwo.Bundles.Repo.{is_at}
use loontail_minecraft_netwo.Bundles.Repo.Scan.{
  ScanEntry, refreshed, new_artifact, upsert_row, upsert_rows, repeats,
}

-- What a row shows of a scan, with the flag of the operator.
abbrev pub shown : Option BundleArtifact → Option (ScanEntry × Bool)
shown none = none
shown (some a) = some (
  record {
    relative_path = a.relative_path;
    name = a.name;
    category = a.category;
    size = a.size;
    sha256 = a.sha256;
    is_dir = a.is_dir;
    file_modified_at = a.file_modified_at;
  },
  a.download_once,
)

abbrev pub toggle : Option BundleArtifact → Bool
toggle none = false
toggle (some a) = a.download_once

-- The entry of a path, with a flag.
unfoldable pub scanned : List ScanEntry → Text → Bool → Option (ScanEntry × Bool)
scanned [] path once = none
scanned (e ∷ es) path once =
    if e.relative_path == path then some (e, once) else scanned es path once

find-none :
    (p : BundleArtifact → Bool) (rows : List BundleArtifact)
    → any p rows ≡ false
    → find p rows ≡ none
unfolding any find
find-none p [] h = refl
find-none p (a ∷ rows) h = ground (arith, find-none p rows)

same_at :
    (bundle : ℕ) (e : ScanEntry) (a : BundleArtifact)
    → is_at bundle e.relative_path a ≡ true
    → shown (some (refreshed e a)) ≡ some (e, a.download_once)
same_at bundle e a h =
    let same : a.relative_path ≡ e.relative_path =
      ground (arith, bytes_beq_iff a.relative_path e.relative_path) in
    rw same refl

updated :
    (bundle : ℕ) (e : ScanEntry) (rows : List BundleArtifact)
    → any (is_at bundle e.relative_path) rows ≡ true
    → shown (
        find
          (is_at bundle e.relative_path)
          (update_where (is_at bundle e.relative_path) (refreshed e) rows))
      ≡ some (e, toggle (find (is_at bundle e.relative_path) rows))
unfolding any find update_where
updated bundle e [] h = absurd (ground arith)
updated bundle e (a ∷ rows) h = elim (Bool-cases (is_at bundle e.relative_path a)) [
  | inl y ↦ rw y (rw y (same_at bundle e a y))
  | inr n ↦ rw n (rw n (updated bundle e rows (ground arith)))
]

find-same_rows :
    (bundle : ℕ) (e : ScanEntry) (other : ℕ) (path : Text) (rows : List BundleArtifact)
    → (nat_beq other bundle && e.relative_path == path) ≡ false
    → find (is_at other path) (update_where (is_at bundle e.relative_path) (refreshed e) rows)
      ≡ find (is_at other path) rows
unfolding find update_where
find-same_rows bundle e other path [] h = refl
find-same_rows bundle e other path (a ∷ rows) h = ground (
  arith,
  find-same_rows bundle e other path rows h,
  bytes_beq_iff a.relative_path e.relative_path,
  bytes_beq_iff a.relative_path path,
  bytes_beq_iff e.relative_path path,
)

module _ {D : Type 0} where
  upserted :
      (bundle : ℕ) (e : ScanEntry) (s : Registry D)
      → shown (find (is_at bundle e.relative_path) (upsert_row bundle e s).artifacts)
        ≡ some (e, toggle (find (is_at bundle e.relative_path) s.artifacts))
  unfolding upsert_row find
  upserted bundle e s = elim (Bool-cases (any (is_at bundle e.relative_path) s.artifacts)) [
    | inl y ↦ rw (y, upsert_row) (updated bundle e s.artifacts y)
    | inr n ↦
        (let here : is_at bundle e.relative_path (new_artifact s.next_id bundle e) ≡ true =
            ground (arith, bytes_beq_iff e.relative_path e.relative_path) in
          rw (n, upsert_row, here, find-none (is_at bundle e.relative_path) s.artifacts n) refl)
  ]

  -- A row of another place stays.
  upserted_elsewhere :
      (bundle : ℕ) (e : ScanEntry) (other : ℕ) (path : Text) (s : Registry D)
      → (nat_beq other bundle && e.relative_path == path) ≡ false
      → find (is_at other path) (upsert_row bundle e s).artifacts
        ≡ find (is_at other path) s.artifacts
  unfolding upsert_row find
  upserted_elsewhere bundle e other path s h =
      elim (Bool-cases (any (is_at bundle e.relative_path) s.artifacts)) [
        | inl y ↦ rw (y, upsert_row) (find-same_rows bundle e other path s.artifacts h)
        | inr n ↦
            (let there : is_at other path (new_artifact s.next_id bundle e) ≡ false =
                ground (arith, h) in
              rw (n, upsert_row, there) refl)
      ]

  pub upserted_all_elsewhere :
      (bundle : ℕ) (es : List ScanEntry) (other : ℕ) (path : Text) (s : Registry D)
      → (nat_beq other bundle && any (λ e. e.relative_path == path) es) ≡ false
      → find (is_at other path) (upsert_rows bundle es s).artifacts
        ≡ find (is_at other path) s.artifacts
  unfolding any
  upserted_all_elsewhere bundle [] other path s h = refl
  upserted_all_elsewhere bundle (e ∷ es) other path s h =
      upserted_all_elsewhere bundle es other path (upsert_row bundle e s) (ground (arith, h))
      ∙ upserted_elsewhere bundle e other path s (ground (arith, h))

  pub upserted_all :
      (bundle : ℕ) (es : List ScanEntry) (path : Text) (s : Registry D)
      → repeats es ≡ false
      → any (λ e. e.relative_path == path) es ≡ true
      → shown (find (is_at bundle path) (upsert_rows bundle es s).artifacts)
        ≡ scanned es path (toggle (find (is_at bundle path) s.artifacts))
  unfolding any repeats scanned
  upserted_all bundle [] path s r h = absurd (ground arith)
  upserted_all bundle (e ∷ es) path s r h = elim (Bool-cases (e.relative_path == path)) [
    | inl y ↦
        (let here : path ≡ e.relative_path = ground (arith, bytes_beq_iff e.relative_path path) in
          rw y (
            rw here (
              ap shown (
                upserted_all_elsewhere bundle es bundle e.relative_path (upsert_row bundle e s)
                  (ground (arith, r)))
              ∙ upserted bundle e s)))
    | inr n ↦ rw n (
        upserted_all bundle es path (upsert_row bundle e s) (ground (arith, r)) (ground (arith, h))
        ∙ ap (λ o. scanned es path (toggle o))
            (upserted_elsewhere bundle e bundle path s (ground (arith, n))))
  ]

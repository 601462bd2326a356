-- ===== src/Bundles/Tidy/Rescan.antt =====
-- What a rescan of the disk leaves in the tables.
use mathlib.Core.Bool.{Bool, true, false, ◌&&◌, not}
use loontail_minecraft_netwo.Prelude.{
  ℕ, ◌≡◌, refl, ap, sym, ◌∙◌, Option, none, List, [], ◌∷◌, any, keep, find, length, nat_beq,
  if◌then◌else◌, ◌==◌, arith, Bool-cases, inl, inr,
}
use loontail_minecraft_netwo.Prelude.Text.{bytes_eq, bytes_beq_iff}
use loontail_minecraft_netwo.Core.Account.{Text}
use loontail_minecraft_netwo.Bundles.Manifest.{BundleArtifact}
use loontail_minecraft_netwo.Bundles.Store.{Entries, Registry, done}
use loontail_minecraft_netwo.Bundles.Repo.{is_in, is_at, write_artifacts}
use loontail_minecraft_netwo.Bundles.Repo.Scan.{
  ScanEntry, scan_directory, upsert_rows, repeats, is_scanned, delete_unscanned, upsert_scan,
}
use loontail_minecraft_netwo.Bundles.Repo.Scan.Chunks.{upsert_chunks-all}
use loontail_minecraft_netwo.Bundles.Repo.Scan.Named.{is_plain}
use loontail_minecraft_netwo.Bundles.Repo.Scan.Distinct.{scan_directory-distinct}
use loontail_minecraft_netwo.Bundles.Repo.Scan.Replacing.{
  shown, toggle, scanned, upserted_all, upserted_all_elsewhere,
}
use loontail_minecraft_netwo.Bundles.Tidy.{IsTidy}
use loontail_minecraft_netwo.Bundles.Tidy.Rows.{is_indexed-keep}
use loontail_minecraft_netwo.Bundles.Tidy.Batches.{scan_directory-derived, upsert_rows-IsTidy}

find-keep :
    (p q : BundleArtifact → Bool) (rows : List BundleArtifact)
    → ((a : BundleArtifact) → p a ≡ true → q a ≡ true)
    → find p (keep q rows) ≡ find p rows
unfolding find keep
find-keep p q [] h = refl
find-keep p q (a ∷ rows) h = ground (arith, find-keep p q rows h, h a)

find-dropped :
    (p q : BundleArtifact → Bool) (rows : List BundleArtifact)
    → ((a : BundleArtifact) → p a ≡ true → q a ≡ false)
    → find p (keep q rows) ≡ none
unfolding find keep
find-dropped p q [] h = refl
find-dropped p q (a ∷ rows) h = ground (arith, find-dropped p q rows h, h a)

abbrev stays : ℕ → List ScanEntry → BundleArtifact → Bool
stays bundle scan a = not (is_in bundle a && not (is_scanned scan a))

any-same :
    (path other : Text) (scan : List ScanEntry)
    → path ≡ other
    → any (λ e. e.relative_path == path) scan ≡ any (λ e. e.relative_path == other) scan
any-same path other scan e = ap (λ p. any (λ e. ScanEntry.relative_path e == p) scan) e

scanned-none :
    (es : List ScanEntry) (path : Text) (once : Bool)
    → any (λ e. e.relative_path == path) es ≡ false
    → scanned es path once ≡ none
unfolding any scanned
scanned-none [] path once h = refl
scanned-none (e ∷ es) path once h = ground (arith, scanned-none es path once, h)

module _ {D : Type 0} where
  -- The tables after a scan that repeats no path.
  abbrev pub rescanned : ℕ → List ScanEntry → Registry D → Registry D
  rescanned bundle scan s =
      let t = upsert_rows bundle scan s in
      record t { artifacts = keep (stays bundle scan) t.artifacts }

  upsert_scan-done :
      (bundle : ℕ) (entries : Entries) (s : Registry D)
      → repeats (scan_directory entries) ≡ false
      → IsTidy s.next_id s.artifacts
      → upsert_scan bundle (scan_directory entries) s
        ≡ done tt (rescanned bundle (scan_directory entries) s)
  unfolding upsert_scan delete_unscanned write_artifacts
  upsert_scan-done bundle entries s r v =
      let scan = scan_directory entries in
      let w = upsert_rows-IsTidy bundle scan s (scan_directory-derived entries) v in
      let i = is_indexed-keep (stays bundle scan) (upsert_rows bundle scan s).artifacts w.indexed in
      rw (upsert_chunks-all bundle (length scan) 9999 scan s (omega arith) r, i) refl

  -- The row that a scan leaves at a place.
  unfoldable pub row_after : ℕ → List ScanEntry → Registry D → ℕ → Text → Option (ScanEntry × Bool)
  row_after bundle scan s other path =
      let old = find (is_at other path) s.artifacts in
      if nat_beq other bundle then scanned scan path (toggle old) else shown old

  -- Each place has the row that the scan leaves there.
  abbrev pub Mirrors : ℕ → List ScanEntry → Registry D → Registry D → Type 0
  Mirrors bundle scan s t =
      (other : ℕ) (path : Text)
      → shown (find (is_at other path) t.artifacts) ≡ row_after bundle scan s other path

  row_rescanned :
      (bundle : ℕ) (scan : List ScanEntry) (s : Registry D) (other : ℕ) (path : Text)
      → repeats scan ≡ false
      → shown (find (is_at other path) (rescanned bundle scan s).artifacts)
        ≡ row_after bundle scan s other path
  unfolding row_after
  row_rescanned bundle scan s other path r = elim (Bool-cases (nat_beq other bundle)) [
    | inr n ↦ rw n (
        ap shown (
          find-keep (is_at other path) (stays bundle scan) (upsert_rows bundle scan s).artifacts
            (λ a h. ground (arith, h, n))
          ∙ upserted_all_elsewhere bundle scan other path s (ground (arith, n))))
    | inl y ↦
        (let here : other ≡ bundle = ground (arith, y) in
          rw y (
            rw here (elim (Bool-cases (any (λ e. e.relative_path == path) scan)) [
              | inl z ↦
                  ap shown (
                    find-keep (is_at bundle path) (stays bundle scan)
                      (upsert_rows bundle scan s).artifacts
                      (λ a h.
                        (let p : a.relative_path ≡ path =
                            ground (arith, h, bytes_beq_iff a.relative_path path) in
                          let q = any-same a.relative_path path scan p in ground (arith, q, z))))
                  ∙ upserted_all bundle scan path s r z
              | inr z ↦
                  ap shown (
                    find-dropped (is_at bundle path) (stays bundle scan)
                      (upsert_rows bundle scan s).artifacts
                      (λ a h.
                        (let p : a.relative_path ≡ path =
                            ground (arith, h, bytes_beq_iff a.relative_path path) in
                          let q = any-same a.relative_path path scan p in ground (arith, q, z, h))))
                  ∙ sym (scanned-none scan path (toggle (find (is_at bundle path) s.artifacts)) z)
            ])))
  ]

  -- The rescan of a build whose directories name each entry once, with no separator in a name, over
  -- tidy rows, succeeds. Then each place of the build has a row where the walk of the disk gives an
  -- entry, with what the entry says and the flag that the old row at the place had (unset where
  -- there was none), and no row elsewhere; the places of other builds have the rows they had.
  pub upsert_scan-Mirrors :
      (bundle : ℕ) (entries : Entries) (s : Registry D)
      → is_plain entries ≡ true
      → IsTidy s.next_id s.artifacts
      → (t : Registry D) × (upsert_scan bundle (scan_directory entries) s ≡ done tt t)
        × Mirrors bundle (scan_directory entries) s t
  upsert_scan-Mirrors bundle entries s p v =
      let r = scan_directory-distinct entries p in
      (
        rescanned bundle (scan_directory entries) s,
        upsert_scan-done bundle entries s r v,
        λ other path. row_rescanned bundle (scan_directory entries) s other path r,
      )

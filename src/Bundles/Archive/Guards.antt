-- ===== src/Bundles/Archive/Guards.antt =====
-- Nothing leaves the destination, and no more is written than the limits allow.
use loontail_minecraft_netwo.Prelude.{
  ℕ, ◌+◌, ◌≤◌, ◌≡◌, ◌⊎◌, refl, List, [], ◌∷◌, ltb, length, All, arith, Bool-cases, inl, inr,
}
use loontail_minecraft_netwo.Core.Account.{Text}
use loontail_minecraft_netwo.Core.Headers.{split_on}
use loontail_minecraft_netwo.Bundles.Paths.{
  PathResult, inside, not_relative, escapes, required, normalize_relative_path,
}
use loontail_minecraft_netwo.Bundles.Paths.Contained.{Inert, normalize_relative_path-Inert}
use loontail_minecraft_netwo.Bundles.Archive.{
  max_uncompressed, max_entries, ZipEntry, Written, Extraction, complete, stopped, trim_slashes,
  is_within, saturating_add, written_as, is_skipped, extract_entries, extract_zip,
}

abbrev pub writes : Extraction → List Written
writes (complete ws) = ws
writes (stopped e ws) = ws

abbrev pub sizes : List Written → ℕ
sizes [] = 0
sizes (w ∷ ws) = w.size + sizes ws

-- What may be written.
pub record IsBounded (ws : List Written) : Type 0 where
  pub inert : All (λ w. All Inert (split_on b'/' w.path)) ws
  pub in_size : sizes ws ≤ max_uncompressed

PathResult-cases :
    (r : PathResult)
    → ((p : Text) × (r ≡ inside p)) ⊎ ((r ≡ required) ⊎ ((r ≡ not_relative) ⊎ (r ≡ escapes)))
PathResult-cases (inside p) = inl (p, refl)
PathResult-cases required = inr (inl refl)
PathResult-cases not_relative = inr (inr (inl refl))
PathResult-cases escapes = inr (inr (inr refl))

extract_entries-IsBounded :
    (total : ℕ) (done : List Written) (es : List ZipEntry)
    → sizes done ≡ total
    → IsBounded done
    → IsBounded (writes (extract_entries total done es))
      × (length (writes (extract_entries total done es)) ≤ length done + length es)
unfolding extract_entries
extract_entries-IsBounded total done [] s v = (v, omega arith)
extract_entries-IsBounded total done (e ∷ es) s v =
    let (kept, count) = extract_entries-IsBounded total done es s v in
    elim (Bool-cases (is_skipped e.name)) [
      | inl y ↦ rw (y, extract_entries) (kept, omega (arith, count))
      | inr n ↦ elim (PathResult-cases (normalize_relative_path (trim_slashes e.name))) [
        | inr (inl r) ↦ rw (n, r, extract_entries) (kept, omega (arith, count))
        | inr (inr (inl r)) ↦ rw (n, r, extract_entries) (v, omega arith)
        | inr (inr (inr r)) ↦ rw (n, r, extract_entries) (v, omega arith)
        | inl (path, r) ↦ elim (Bool-cases (is_within path)) [
          | inr m ↦ rw (n, r, m, extract_entries) (v, omega arith)
          | inl m ↦ elim (Bool-cases (ltb max_uncompressed (saturating_add total e.size))) [
            | inl l ↦ rw (n, r, m, l, extract_entries) (v, omega arith)
            | inr l ↦
                (let sum : saturating_add total e.size ≡ total + e.size = ground (arith, l) in
                  let (next, longer) =
                    extract_entries-IsBounded (saturating_add total e.size)
                      (written_as path e ∷ done) es (omega (arith, s, sum))
                      (record {
                        inert = (
                          (normalize_relative_path-Inert (trim_slashes e.name) path r).0,
                          v.inert,
                        );
                        in_size = ground (arith, s, sum, l);
                      }) in
                  rw (n, r, m, l, extract_entries) (next, omega (arith, longer)))
          ]
        ]
      ]
    ]

-- Whatever an archive holds and however its extraction ends, every path that was written is inert,
-- so that it lies below the destination, the declared sizes of all that was written are within
-- MAX_UNCOMPRESSED, and there are at most MAX_ENTRIES of them.
pub extract_zip-IsBounded :
    (entries : List ZipEntry)
    → IsBounded (writes (extract_zip entries))
      × (length (writes (extract_zip entries)) ≤ max_entries)
unfolding extract_zip
extract_zip-IsBounded entries =
    let empty : IsBounded [] = record { inert = tt; in_size = omega arith } in
    elim (Bool-cases (ltb max_entries (length entries))) [
      | inl y ↦ rw (y, extract_zip) (empty, omega arith)
      | inr n ↦
          (let (v, c) = extract_entries-IsBounded 0 [] entries refl empty in
            rw (n, extract_zip) (v, ground (arith, c, n)))
    ]

-- ===== src/Bundles/Tidy/Batches.antt =====
-- Scans and moves, which run many statements, keep the rows tidy.
use mathlib.Core.Bool.{Bool, ◌&&◌, not}
use loontail_minecraft_netwo.Prelude.{
  ℕ, zero, suc, refl, ◌≤◌, List, [], ◌∷◌, take, drop, length, All, All-append, arith, Bool-cases,
  Option-cases, inl, inr, if◌then◌else◌,
}
use loontail_minecraft_netwo.Core.Account.{Text}
use loontail_minecraft_netwo.Core.Headers.{is_empty}
use loontail_minecraft_netwo.Bundles.Manifest.{BundleArtifact}
use loontail_minecraft_netwo.Bundles.Store.{
  Node, file, dir, special, Entries, end, entry, FileSystem, Registry, ◌>>◌,
}
use loontail_minecraft_netwo.Bundles.Repo.{is_in, is_artifact}
use loontail_minecraft_netwo.Bundles.Repo.Scan.{
  ScanEntry, entry_path, walk, walk_node, scan_directory, upsert_row, upsert_rows, repeats,
  upsert_artifact_chunk, upsert_chunks, is_scanned, delete_unscanned, upsert_scan, chunks,
  upsert_chunk,
}
use loontail_minecraft_netwo.Bundles.Repo.Move.{
  child_of, strip_prefix, placed, update_artifact_path, move_children, move_rows, move_on_disk,
  move_subtree,
}
use loontail_minecraft_netwo.Bundles.Tidy.{
  IsTidy, Keeps, then-Keeps, still-Keeps, ret-Keeps, transaction-Keeps, keeping,
}
use loontail_minecraft_netwo.Bundles.Tidy.Rows.{
  IsDerivedEntry, upsert_row-IsTidy, write-Keeps, write_keep-Keeps,
}

mutual
  unfolding walk

  walk-derived : (base : Text) (entries : Entries) → All IsDerivedEntry (walk base entries)
  walk-derived base end = tt
  walk-derived base (entry name node rest) =
      All-append IsDerivedEntry
        (if is_empty (entry_path base name) then [] else walk_node (entry_path base name) node)
        (walk base rest)
        (elim (Bool-cases (is_empty (entry_path base name))) [
          | inl y ↦ rw y tt
          | inr n ↦ rw n (walk_node-derived (entry_path base name) node)
        ])
        (walk-derived base rest)

  walk_node-derived : (path : Text) (node : Node) → All IsDerivedEntry (walk_node path node)
  walk_node-derived path (file size sha modified) = ((refl, refl), tt)
  walk_node-derived path (dir modified entries) = ((refl, refl), walk-derived path entries)
  walk_node-derived path special = tt

pub scan_directory-derived : (entries : Entries) → All IsDerivedEntry (scan_directory entries)
scan_directory-derived entries = walk-derived [] entries

All-take : (P : ScanEntry → Type 0) (n : ℕ) (es : List ScanEntry) → All P es → All P (take n es)
All-take P zero es a = tt
All-take P (suc n) [] a = tt
All-take P (suc n) (e ∷ es) a = (a.0, All-take P n es a.1)

All-drop : (P : ScanEntry → Type 0) (n : ℕ) (es : List ScanEntry) → All P es → All P (drop n es)
All-drop P zero es a = a
All-drop P (suc n) [] a = tt
All-drop P (suc n) (e ∷ es) a = All-drop P n es a.1

chunks-derived :
    (fuel n : ℕ) (es : List ScanEntry)
    → All IsDerivedEntry es
    → All (All IsDerivedEntry) (chunks fuel n es)
unfolding chunks
chunks-derived zero n es a = tt
chunks-derived (suc fuel) n [] a = tt
chunks-derived (suc fuel) n (e ∷ es) a = (
  All-take IsDerivedEntry n (e ∷ es) a,
  chunks-derived fuel n (drop n (e ∷ es)) (All-drop IsDerivedEntry n (e ∷ es) a),
)

module _ {D : Type 0} where
  pub upsert_rows-IsTidy :
      (bundle : ℕ) (es : List ScanEntry) (s : Registry D)
      → All IsDerivedEntry es
      → IsTidy s.next_id s.artifacts
      → IsTidy (upsert_rows bundle es s).next_id (upsert_rows bundle es s).artifacts
  upsert_rows-IsTidy bundle [] s d v = v
  upsert_rows-IsTidy bundle (e ∷ es) s d v =
      upsert_rows-IsTidy bundle es (upsert_row bundle e s) d.1 (upsert_row-IsTidy bundle e s d.0 v)

  upsert_row-later :
      (bundle : ℕ) (e : ScanEntry) (s : Registry D) → s.next_id ≤ (upsert_row bundle e s).next_id
  unfolding upsert_row
  upsert_row-later bundle e s = ground arith

  upsert_rows-later :
      (bundle : ℕ) (es : List ScanEntry) (s : Registry D)
      → s.next_id ≤ (upsert_rows bundle es s).next_id
  upsert_rows-later bundle [] s = omega arith
  upsert_rows-later bundle (e ∷ es) s =
      omega
        (arith, upsert_row-later bundle e s, upsert_rows-later bundle es (upsert_row bundle e s))

  upsert_artifact_chunk-Keeps :
      (bundle : ℕ) (chunk : List ScanEntry)
      → All IsDerivedEntry chunk
      → Keeps (upsert_artifact_chunk {D = D} bundle chunk)
  unfolding upsert_artifact_chunk
  upsert_artifact_chunk-Keeps bundle chunk d = elim (Bool-cases (repeats chunk)) [
    | inl y ↦
        still-Keeps (upsert_artifact_chunk bundle chunk)
          (λ s. rw (y, upsert_artifact_chunk) (refl, refl))
    | inr n ↦ record {
      tidy = λ s v. rw (n, upsert_artifact_chunk) (upsert_rows-IsTidy bundle chunk s d v);
      later = λ s. rw (n, upsert_artifact_chunk) (upsert_rows-later bundle chunk s);
    }
  ]

  upsert_chunks-Keeps :
      (bundle : ℕ) (cs : List (List ScanEntry))
      → All (All IsDerivedEntry) cs
      → Keeps (upsert_chunks {D = D} bundle cs)
  unfolding upsert_chunks
  upsert_chunks-Keeps bundle [] d = ret-Keeps tt
  upsert_chunks-Keeps bundle (c ∷ cs) d =
      then-Keeps (upsert_artifact_chunk bundle c) (upsert_chunks bundle cs)
        (upsert_artifact_chunk-Keeps bundle c d.0) (upsert_chunks-Keeps bundle cs d.1)

  pub upsert_scan-Keeps :
      (bundle : ℕ) (scan : List ScanEntry)
      → All IsDerivedEntry scan
      → Keeps (upsert_scan {D = D} bundle scan)
  unfolding upsert_scan delete_unscanned
  upsert_scan-Keeps bundle scan d =
      transaction-Keeps
        (upsert_chunks bundle (chunks (length scan) upsert_chunk scan)
          >> delete_unscanned bundle scan)
        (then-Keeps (upsert_chunks bundle (chunks (length scan) upsert_chunk scan))
          (delete_unscanned bundle scan)
          (upsert_chunks-Keeps bundle (chunks (length scan) upsert_chunk scan)
            (chunks-derived (length scan) upsert_chunk scan d))
          (write_keep-Keeps (λ a. not (is_in bundle a && not (is_scanned scan a)))))

  update_artifact_path-Keeps : (id : ℕ) (path : Text) → Keeps (update_artifact_path {D = D} id path)
  unfolding update_artifact_path
  update_artifact_path-Keeps id path =
      write-Keeps (is_artifact id) (placed path) (λ a. refl) (λ a m d. (refl, refl))

  move_children-Keeps :
      (prefix path : Text) (children : List BundleArtifact)
      → Keeps (move_children {D = D} prefix path children)
  unfolding move_children
  move_children-Keeps prefix path [] = ret-Keeps tt
  move_children-Keeps prefix path (c ∷ children) =
      let rest = move_children-Keeps prefix path children in
      elim (Option-cases (strip_prefix prefix c.relative_path)) [
        | inl n ↦ rw (n, move_children) rest
        | inr (suffix, e) ↦
            rw (e, move_children)
              (then-Keeps (update_artifact_path c.id (child_of path suffix))
                (move_children prefix path children)
                (update_artifact_path-Keeps c.id (child_of path suffix)) rest)
      ]

  move_rows-Keeps :
      (bundle : ℕ) (old path : Text) (is_dir : Bool)
      → Keeps (move_rows {D = D} bundle old path is_dir)
  unfolding move_rows
  move_rows-Keeps bundle old path is_dir =
      search (keeping, update_artifact_path-Keeps, move_children-Keeps) depth 12

  move_on_disk-Keeps :
      (fs : FileSystem D) (slug old path : Text) → Keeps (move_on_disk fs slug old path)
  unfolding move_on_disk
  move_on_disk-Keeps fs slug old path = search keeping depth 12

  pub move_subtree-Keeps :
      (fs : FileSystem D) (bundle : ℕ) (slug old path : Text) (is_dir : Bool)
      → Keeps (move_subtree fs bundle slug old path is_dir)
  move_subtree-Keeps fs bundle slug old path is_dir =
      then-Keeps (move_rows bundle old path is_dir) (move_on_disk fs slug old path)
        (move_rows-Keeps bundle old path is_dir) (move_on_disk-Keeps fs slug old path)

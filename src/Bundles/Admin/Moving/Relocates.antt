-- ===== src/Bundles/Admin/Moving/Relocates.antt =====
-- What the guards of a move secure: no statement fails, and the rows move as a whole or not at all.
use mathlib.Core.Bool.{true, false, ◌&&◌}
use loontail_minecraft_netwo.Prelude.{
  ◌≡◌, refl, subst, ◌≢◌, some, List, [], ◌∷◌, map, find-All, any, find, arith, Bool-cases, inl, inr,
}
use loontail_minecraft_netwo.Prelude.Text.{bytes_eq, bytes_beq, bytes_beq_iff}
use loontail_minecraft_netwo.Network.Effect.{database}
use loontail_minecraft_netwo.Core.Account.{Text}
use loontail_minecraft_netwo.Bundles.Archive.{has_prefix}
use loontail_minecraft_netwo.Bundles.Manifest.{BundleArtifact}
use loontail_minecraft_netwo.Bundles.Store.{
  Bundle, FileSystem, Env, Registry, Outcome, done, fail, roll_back,
}
use loontail_minecraft_netwo.Bundles.Repo.{is_in, is_at, is_below, is_artifact, is_indexed}
use loontail_minecraft_netwo.Bundles.Repo.Index.{same_place}
use loontail_minecraft_netwo.Bundles.Repo.Once.{Once, any-All}
use loontail_minecraft_netwo.Bundles.Repo.Move.{folder_of, move_on_disk}
use loontail_minecraft_netwo.Bundles.Repo.Move.Legal.{relocated, IsLegal}
use loontail_minecraft_netwo.Bundles.Repo.Move.Relocation.{move_rows-relocated}
use loontail_minecraft_netwo.Bundles.Admin.Moving.{
  validate_move, check_destination_free, apply_move,
}

-- The row of an id is the one that its place finds.
find-place :
    (entry : BundleArtifact) (rows : List BundleArtifact)
    → is_indexed rows ≡ true
    → find (is_artifact entry.id) rows ≡ some entry
    → find (is_at entry.bundle_id entry.relative_path) rows ≡ some entry
unfolding find is_indexed
find-place entry [] i f = absurd (cc)
find-place entry (x ∷ rows) i f = elim (Bool-cases (is_artifact entry.id x)) [
  | inl y ↦
      (let e : x ≡ entry = (let k : some x ≡ some entry = rw y at f in cc) in
        rw e (ground (arith, bytes_beq_iff entry.relative_path entry.relative_path)))
  | inr n ↦
      (let g : find (is_artifact entry.id) rows ≡ some entry = rw n at f in
        elim (Bool-cases (is_at entry.bundle_id entry.relative_path x)) [
          | inr a ↦ rw a (find-place entry rows (ground (arith, i)) g)
          | inl a ↦
              (let free = any-All (same_place x) rows (ground (arith, i)) in
                let apart =
                  find-All (λ b. same_place x b ≡ false) (is_artifact entry.id) rows free g in
                absurd (
                  ground (
                    arith,
                    a,
                    apart,
                    bytes_beq_iff x.relative_path entry.relative_path,
                    bytes_beq_iff entry.relative_path x.relative_path,
                  )))
        ])
]

module _ {D : Type 0} where
  -- The rows that a call leaves, and its error.
  abbrev pub Leaves : List BundleArtifact → Registry D → Outcome D (Unit {0}) → Type 0
  Leaves rows s (done u t) = (t.artifacts ≡ rows) × (t.bundles ≡ s.bundles)
  Leaves rows s (fail e t) = (t.artifacts ≡ s.artifacts) × (t.bundles ≡ s.bundles) × (e ≢ database)

  move_on_disk-Leaves :
      (fs : FileSystem D) (slug old path : Text) (before s : Registry D)
      → s.bundles ≡ before.bundles
      → Leaves s.artifacts before (roll_back before (move_on_disk fs slug old path s))
  unfolding move_on_disk
  move_on_disk-Leaves fs slug old path before s b = ground (arith, b)

  -- A move of an entry of the build that the handler has resolved, in a table whose ids are distinct
  -- and whose places are unique. If it succeeds, the entry stands at the new path and, if it is a
  -- folder, what lay below it lies below the new path, each row with its derived columns; no other
  -- row and no build has changed. If it fails, whatever the disk did, no row has changed; and it
  -- never fails because a statement breaks the unique index.
  pub apply_move-Leaves :
      (env : Env D) (bundle : Bundle) (entry : BundleArtifact) (path : Text) (s : Registry D)
      → Once s.artifacts
      → is_indexed s.artifacts ≡ true
      → find (is_artifact entry.id) s.artifacts ≡ some entry
      → is_in bundle.id entry ≡ true
      → Leaves
          (map (relocated bundle.id entry.relative_path path entry.is_dir) s.artifacts)
          s
          (apply_move env bundle entry path s)
  unfolding apply_move validate_move check_destination_free
  apply_move-Leaves env bundle entry path s o i f b =
      let rows = map (relocated bundle.id entry.relative_path path entry.is_dir) s.artifacts in
      elim (Bool-cases (bytes_beq path entry.relative_path)) [
        | inl y ↦ rw y (refl, refl, λ e. cc)
        | inr n ↦
            elim (Bool-cases (entry.is_dir && has_prefix (folder_of entry.relative_path) path)) [
              | inl y ↦ rw (n, y) (refl, refl, λ e. cc)
              | inr g ↦ elim (Bool-cases (env.fs.exists bundle.slug path s.disk)) [
                | inl y ↦ rw (n, g, y) (refl, refl, λ e. cc)
                | inr t ↦ elim (Bool-cases (any (is_at bundle.id path) s.artifacts)) [
                  | inl y ↦ rw (n, g, t, y) (refl, refl, λ e. cc)
                  | inr a ↦
                      elim (Bool-cases
                        (entry.is_dir && any (is_below bundle.id (folder_of path)) s.artifacts)) [
                          | inl y ↦ rw (n, g, t, a, y) (refl, refl, λ e. cc)
                          | inr c ↦
                              (let home : entry.bundle_id ≡ bundle.id = ground (arith, b) in
                                let found =
                                  subst
                                    (λ z.
                                      find (is_at z entry.relative_path) s.artifacts ≡ some entry)
                                    home (find-place entry s.artifacts i f) in
                                let legal : IsLegal bundle.id entry.relative_path path entry.is_dir
                                    entry s.artifacts =
                                  record {
                                    once = o;
                                    indexed = i;
                                    found = found;
                                    elsewhere = n;
                                    outside = λ d. ground (arith, d, g);
                                    free = a;
                                    clear = λ d. ground (arith, d, c);
                                  } in
                                let moved =
                                  move_rows-relocated bundle.id entry.relative_path path
                                    entry.is_dir entry s.artifacts legal s refl in
                                rw (n, g, t, a, c)
                                  (rw moved (
                                    move_on_disk-Leaves env.fs bundle.slug entry.relative_path path
                                      s (record s { artifacts = rows }) refl)))
                        ]
                ]
              ]
            ]
      ]

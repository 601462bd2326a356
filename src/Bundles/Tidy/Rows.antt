-- ===== src/Bundles/Tidy/Rows.antt =====
-- The statements on artifact rows keep them tidy.
use mathlib.Core.Bool.{Bool, true, false, not}
use loontail_minecraft_netwo.Prelude.{
  ℕ, suc, ◌≡◌, refl, ◌<◌, List, [], ◌∷◌, any, keep, update_where, All, All-map, All-keep,
  All-update_where, arith, Bool-cases, inl, inr, any-keep-false,
}
use loontail_minecraft_netwo.Prelude.Text.{bytes_eq, bytes_beq_iff}
use loontail_minecraft_netwo.Bundles.Paths.{split_relative_path}
use loontail_minecraft_netwo.Bundles.Manifest.{BundleArtifact}
use loontail_minecraft_netwo.Bundles.Store.{Registry}
use loontail_minecraft_netwo.Bundles.Repo.{
  is_in, is_at, is_indexed, write_artifacts, delete_bundle_row,
}
use loontail_minecraft_netwo.Bundles.Repo.Index.{same_place, is_indexed-update_where}
use loontail_minecraft_netwo.Bundles.Repo.Once.{same_id, Once-keep, Once-update_where}
use loontail_minecraft_netwo.Bundles.Repo.Scan.{
  ScanEntry, refreshed, new_artifact, upsert_row, upsert_artifact,
}
use loontail_minecraft_netwo.Bundles.Tidy.{IsDerived, IsTidy, Keeps}

pub is_indexed-keep :
    (p : BundleArtifact → Bool) (rows : List BundleArtifact)
    → is_indexed rows ≡ true
    → is_indexed (keep p rows) ≡ true
unfolding is_indexed keep
is_indexed-keep p [] h = refl
is_indexed-keep p (a ∷ rows) h =
    let rest = is_indexed-keep p rows (ground (arith, h)) in
    let free = any-keep-false (same_place a) p rows (ground (arith, h)) in
    elim (Bool-cases (p a)) [ inl y ↦ rw (y, free, rest) refl | inr n ↦ rw n rest ]

keep-IsTidy :
    (p : BundleArtifact → Bool) (next : ℕ) (rows : List BundleArtifact)
    → IsTidy next rows
    → IsTidy next (keep p rows)
keep-IsTidy p next rows v = record {
  once = Once-keep p rows v.once;
  used = All-keep (λ a. a.id < next) p rows v.used;
  indexed = is_indexed-keep p rows v.indexed;
  derived = All-keep IsDerived p rows v.derived;
}

module _ (m : BundleArtifact → Bool) (g : BundleArtifact → BundleArtifact)
    (same : (a : BundleArtifact) → (g a).id ≡ a.id) where
  update_where-used :
      (next : ℕ) (rows : List BundleArtifact)
      → All (λ a. a.id < next) rows
      → All (λ a. a.id < next) (update_where m g rows)
  update_where-used next rows =
      All-update_where (λ a. a.id < next) m g rows (λ a h. omega (arith, same a, h))

  update_where-IsDerived :
      (rows : List BundleArtifact)
      → ((a : BundleArtifact) → m a ≡ true → IsDerived a → IsDerived (g a))
      → All IsDerived rows
      → All IsDerived (update_where m g rows)
  unfolding update_where
  update_where-IsDerived [] f d = tt
  update_where-IsDerived (a ∷ rows) f d = elim (Bool-cases (m a)) [
    | inl y ↦ rw y (f a y d.0, update_where-IsDerived rows f d.1)
    | inr n ↦ rw n (d.0, update_where-IsDerived rows f d.1)
  ]

  pub write-Keeps :
      {D : Type 0}
      → ((a : BundleArtifact) → m a ≡ true → IsDerived a → IsDerived (g a))
      → Keeps (write_artifacts {D = D} (update_where m g))
  unfolding write_artifacts
  write-Keeps f = record {
    tidy = λ s v. elim (Bool-cases (is_indexed (update_where m g s.artifacts))) [
      | inr n ↦ rw (n, write_artifacts) v
      | inl y ↦
          rw (y, write_artifacts)
            (record {
              once = Once-update_where m g same s.artifacts v.once;
              used = update_where-used s.next_id s.artifacts v.used;
              indexed = y;
              derived = update_where-IsDerived s.artifacts f v.derived;
            })
    ];
    later = λ s. ground arith;
  }

pub write_keep-Keeps :
    {D : Type 0} (p : BundleArtifact → Bool) → Keeps (write_artifacts {D = D} (keep p))
unfolding write_artifacts
write_keep-Keeps p = record {
  tidy =
      λ s v. (let w = keep-IsTidy p s.next_id s.artifacts v in rw (w.indexed, write_artifacts) w);
  later = λ s. ground arith;
}

pub delete_bundle_row-Keeps : {D : Type 0} (id : ℕ) → Keeps (delete_bundle_row {D = D} id)
unfolding delete_bundle_row
delete_bundle_row-Keeps id = record {
  tidy = λ s v. keep-IsTidy (λ a. not (is_in id a)) s.next_id s.artifacts v;
  later = λ s. omega arith;
}

abbrev pub IsDerivedEntry : ScanEntry → Type 0
IsDerivedEntry e =
    (e.name ≡ (split_relative_path e.relative_path).0)
    × (e.category ≡ (split_relative_path e.relative_path).1)

All_unit : (rows : List BundleArtifact) → All (λ a. Unit {0}) rows
All_unit [] = tt
All_unit (a ∷ rows) = (tt, All_unit rows)

new_once :
    (next : ℕ) (b : BundleArtifact) (rows : List BundleArtifact)
    → next ≡ b.id
    → All (λ a. a.id < next) rows
    → All (λ a. same_id b a ≡ false) rows
new_once next b [] e u = tt
new_once next b (a ∷ rows) e u = (ground (arith, e, u.0), new_once next b rows e u.1)

upsert_indexed :
    (bundle : ℕ) (e : ScanEntry) (rows : List BundleArtifact)
    → is_indexed rows ≡ true
    → is_indexed (update_where (is_at bundle e.relative_path) (refreshed e) rows) ≡ true
upsert_indexed bundle e rows i =
    is_indexed-update_where (λ a. Unit {0}) (is_at bundle e.relative_path) (refreshed e)
      (λ x y p q a b h. h) (λ x y p q a b h. h) rows (All_unit rows) i

cons_indexed :
    (bundle : ℕ) (e : ScanEntry) (id : ℕ) (rows : List BundleArtifact)
    → any (is_at bundle e.relative_path) rows ≡ false
    → is_indexed rows ≡ true
    → is_indexed (new_artifact id bundle e ∷ rows) ≡ true
unfolding is_indexed
cons_indexed bundle e id rows n i = rw (n, i) refl

pub upsert_row-IsTidy :
    {D : Type 0} (bundle : ℕ) (e : ScanEntry) (s : Registry D)
    → IsDerivedEntry e
    → IsTidy s.next_id s.artifacts
    → IsTidy (upsert_row bundle e s).next_id (upsert_row bundle e s).artifacts
unfolding upsert_row
upsert_row-IsTidy bundle e s d v =
    elim (Bool-cases (any (is_at bundle e.relative_path) s.artifacts)) [
      | inl y ↦
          rw (y, upsert_row)
            (record {
              once =
                  Once-update_where (is_at bundle e.relative_path) (refreshed e) (λ a. refl)
                    s.artifacts v.once;
              used =
                  update_where-used (is_at bundle e.relative_path) (refreshed e) (λ a. refl)
                    s.next_id s.artifacts v.used;
              indexed = upsert_indexed bundle e s.artifacts v.indexed;
              derived =
                  update_where-IsDerived (is_at bundle e.relative_path) (refreshed e) (λ a. refl)
                    s.artifacts
                    (λ a at h.
                      (let same : a.relative_path ≡ e.relative_path =
                          ground (arith, at, bytes_beq_iff a.relative_path e.relative_path) in
                        rw same d))
                    v.derived;
            })
      | inr n ↦
          rw (n, upsert_row)
            (record {
              once = (
                new_once s.next_id (new_artifact s.next_id bundle e) s.artifacts refl v.used,
                v.once,
              );
              used = (
                omega arith,
                All-map (λ a. a.id < s.next_id) (λ a. a.id < suc s.next_id) s.artifacts
                    (λ a h. omega (arith, h)) v.used,
              );
              indexed = cons_indexed bundle e s.next_id s.artifacts n v.indexed;
              derived = (d, v.derived);
            })
    ]

pub upsert_artifact-Keeps :
    {D : Type 0} (bundle : ℕ) (e : ScanEntry)
    → IsDerivedEntry e
    → Keeps (upsert_artifact {D = D} bundle e)
unfolding upsert_row
upsert_artifact-Keeps bundle e d = record {
  tidy = λ s v. upsert_row-IsTidy bundle e s d v;
  later = λ s. ground arith;
}

-- ===== src/Bundles/Repo/Index.antt =====
-- Rows by their places: what keeps the unique index.
use mathlib.Core.Bool.{Bool, true, false}
use loontail_minecraft_netwo.Prelude.{
  ◌≡◌, refl, ◌∙◌, List, [], ◌∷◌, any, update_where, All, if◌then◌else◌, arith, Bool-cases, inl, inr,
}
use loontail_minecraft_netwo.Prelude.Text.{bytes_eq, bytes_beq_iff}
use loontail_minecraft_netwo.Bundles.Manifest.{BundleArtifact}
use loontail_minecraft_netwo.Bundles.Repo.{is_at, is_indexed}

abbrev pub same_place : BundleArtifact → BundleArtifact → Bool
same_place x y = is_at x.bundle_id x.relative_path y

pub same_place_sym : (x y : BundleArtifact) → same_place x y ≡ same_place y x
same_place_sym x y = ground (
  arith,
  bytes_beq_iff x.relative_path y.relative_path,
  bytes_beq_iff y.relative_path x.relative_path,
)

module _ (Q : BundleArtifact → Type 0) (m : BundleArtifact → Bool)
    (g : BundleArtifact → BundleArtifact)
    (moved : (x y : BundleArtifact)
      → Q x
      → Q y
      → m x ≡ true
      → m y ≡ true
      → same_place x y ≡ false
      → same_place (g x) (g y) ≡ false)
    (apart : (x y : BundleArtifact)
      → Q x
      → Q y
      → m x ≡ true
      → m y ≡ false
      → same_place x y ≡ false
      → same_place (g x) y ≡ false) where
  abbrev changed : BundleArtifact → BundleArtifact
  changed x = if m x then g x else x

  changed_apart :
      (x y : BundleArtifact)
      → Q x
      → Q y
      → same_place x y ≡ false
      → same_place (changed x) (changed y) ≡ false
  changed_apart x y p q h = elim (Bool-cases (m x)) [
    | inl a ↦ elim (Bool-cases (m y)) [
      | inl b ↦ rw (a, b) (moved x y p q a b h)
      | inr b ↦ rw (a, b) (apart x y p q a b h)
    ]
    | inr a ↦ elim (Bool-cases (m y)) [
      | inl b ↦ rw (a, b) (same_place_sym x (g y) ∙ apart y x q p b a (same_place_sym y x ∙ h))
      | inr b ↦ rw (a, b) h
    ]
  ]

  none_at :
      (x : BundleArtifact) (rows : List BundleArtifact)
      → Q x
      → All Q rows
      → any (same_place x) rows ≡ false
      → any (same_place (changed x)) (update_where m g rows) ≡ false
  unfolding any update_where
  none_at x [] p q h = refl
  none_at x (y ∷ rows) p q h =
      let first = changed_apart x y p q.0 (ground (arith, h)) in
      let rest = none_at x rows p q.1 (ground (arith, h)) in rw (first, rest) refl

  -- Rows that move apart from each other and from the rows that stay keep the index.
  pub is_indexed-update_where :
      (rows : List BundleArtifact)
      → All Q rows
      → is_indexed rows ≡ true
      → is_indexed (update_where m g rows) ≡ true
  unfolding is_indexed update_where
  is_indexed-update_where [] q h = refl
  is_indexed-update_where (x ∷ rows) q h =
      let free : any (same_place x) rows ≡ false = ground (arith, h) in
      let first = none_at x rows q.0 q.1 free in
      let rest = is_indexed-update_where rows q.1 (ground (arith, h)) in rw (first, rest) refl

-- ===== src/Bundles/Repo/Move/Shift.antt =====
-- The new path of a row below a folder that moves, and why such rows stay apart.
use mathlib.Core.Bool.{Bool, true, false, ◌&&◌}
use mathlib.Core.List.{append_assoc}
use loontail_minecraft_netwo.Prelude.{
  ℕ, ◌≡◌, refl, ap, sym, ◌∙◌, none, some, List, [], ◌∷◌, ◌++◌, All, nat_beq, arith, Bool-cases, inl,
  inr, update_where,
}
use loontail_minecraft_netwo.Prelude.Text.{bytes_eq, bytes_beq, bytes_beq_iff}
use loontail_minecraft_netwo.Core.Account.{Text}
use loontail_minecraft_netwo.Bundles.Archive.{has_prefix}
use loontail_minecraft_netwo.Bundles.Like.Prefix.{like_prefix-eq-has_prefix}
use loontail_minecraft_netwo.Bundles.Manifest.{BundleArtifact}
use loontail_minecraft_netwo.Bundles.Repo.{is_in, is_at, is_below, is_indexed}
use loontail_minecraft_netwo.Bundles.Repo.Index.{same_place, is_indexed-update_where}
use loontail_minecraft_netwo.Bundles.Repo.Move.{folder_of, child_of, strip_prefix, placed}

pub strip_prefix-append :
    (p t : Text) → has_prefix p t ≡ true → (u : Text) × (strip_prefix p t ≡ some u) × (t ≡ p ++ u)
unfolding strip_prefix
strip_prefix-append [] t h = (t, refl, refl)
strip_prefix-append (c ∷ p) [] h = absurd (cc)
strip_prefix-append (c ∷ p) (b ∷ t) h =
    let head : nat_beq c b ≡ true = ground (arith, h) in
    let same : c ≡ b = ground arith in
    let (u, e, k) = strip_prefix-append p t (ground (arith, h)) in
    (u, rw (head, e) refl, ap (λ z. b ∷ z) k ∙ ap (λ z. z ∷ (p ++ u)) (sym same))

pub beq-append : (p u v : Text) → bytes_beq (p ++ u) (p ++ v) ≡ bytes_beq u v
beq-append [] u v = refl
beq-append (c ∷ p) u v = ground (arith, beq-append p u v)

pub has_prefix-child : (p u : Text) → has_prefix (folder_of p) (child_of p u) ≡ true
has_prefix-child [] u = ground arith
has_prefix-child (c ∷ p) u = ground (arith, has_prefix-child p u)

pub folder_of-append : (p u : Text) → folder_of p ++ u ≡ child_of p u
folder_of-append p u = append_assoc p (b'/' ∷ []) u

pub is_below-prefix :
    (bundle : ℕ) (prefix : Text) (a : BundleArtifact)
    → is_below bundle prefix a ≡ (is_in bundle a && has_prefix prefix a.relative_path)
is_below-prefix bundle prefix a =
    ap (λ z. is_in bundle a && z) (like_prefix-eq-has_prefix prefix a.relative_path)

module _ (bundle : ℕ) (old path : Text) where
  -- The row of an entry below the old path, at its new path.
  unfoldable pub shifted : BundleArtifact → BundleArtifact
  unfolding strip_prefix
  shifted a = elim (strip_prefix (folder_of old) a.relative_path) [
    | none ↦ a
    | some u ↦ placed (child_of path u) a
  ]

  abbrev pub lies_below : Text → BundleArtifact → Bool
  lies_below folder a = is_in bundle a && has_prefix (folder_of folder) a.relative_path

  -- Rows that the move of some of them, by their ids, leaves apart.
  pub record Movable (d : ℕ → Bool) (a : BundleArtifact) : Type 0 where
    pub vacant : lies_below path a ≡ false
    pub below : d a.id ≡ true → lies_below old a ≡ true

  pub shifted-placed :
      (a : BundleArtifact)
      → lies_below old a ≡ true
      → (u : Text) × (strip_prefix (folder_of old) a.relative_path ≡ some u)
        × (a.relative_path ≡ child_of old u)
        × (shifted a ≡ placed (child_of path u) a)
  unfolding shifted
  shifted-placed a h =
      let (u, e, k) = strip_prefix-append (folder_of old) a.relative_path (ground (arith, h)) in
      (u, e, k ∙ folder_of-append old u, rw (e, shifted) refl)

  module _ (d : ℕ → Bool) where
    shifted_moved :
        (x y : BundleArtifact)
        → Movable d x
        → Movable d y
        → d x.id ≡ true
        → d y.id ≡ true
        → same_place x y ≡ false
        → same_place (shifted x) (shifted y) ≡ false
    shifted_moved x y p q a b h =
        let (u, e, k, s) = shifted-placed x (p.below a) in
        let (v, f, l, t) = shifted-placed y (q.below b) in
        let was : bytes_beq y.relative_path x.relative_path ≡ bytes_beq v u =
          rw (k, l) (beq-append old (b'/' ∷ v) (b'/' ∷ u) ∙ beq-append (b'/' ∷ []) v u) in
        let now : bytes_beq (child_of path v) (child_of path u) ≡ bytes_beq v u =
          beq-append path (b'/' ∷ v) (b'/' ∷ u) ∙ beq-append (b'/' ∷ []) v u in
        rw (s, t) (ap (λ z. nat_beq y.bundle_id x.bundle_id && z) (now ∙ sym was) ∙ h)

    shifted_apart :
        (x y : BundleArtifact)
        → Movable d x
        → Movable d y
        → d x.id ≡ true
        → d y.id ≡ false
        → same_place x y ≡ false
        → same_place (shifted x) y ≡ false
    shifted_apart x y p q a b h =
        let (u, e, k, s) = shifted-placed x (p.below a) in
        rw s (elim (Bool-cases (is_at x.bundle_id (child_of path u) y)) [
          | inr n ↦ n
          | inl t ↦
              (let same : y.relative_path ≡ child_of path u =
                  ground (arith, t, bytes_beq_iff y.relative_path (child_of path u)) in
                let home : nat_beq x.bundle_id bundle ≡ true = ground (arith, p.below a) in
                let here : nat_beq y.bundle_id x.bundle_id ≡ true = ground (arith, t) in
                let there : is_in bundle y ≡ true = ground (arith, home, here) in
                let under : has_prefix (folder_of path) y.relative_path ≡ true =
                  rw same (has_prefix-child path u) in
                absurd (let v = q.vacant in ground (arith, there, under, v)))
        ])

    pub is_indexed-shifted :
        (rows : List BundleArtifact)
        → All (Movable d) rows
        → is_indexed rows ≡ true
        → is_indexed (update_where (λ a. d a.id) shifted rows) ≡ true
    is_indexed-shifted =
        is_indexed-update_where (Movable d) (λ a. d a.id) shifted shifted_moved shifted_apart

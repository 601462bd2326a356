-- ===== src/Bundles/Repo/Move/Legal.antt =====
-- The guards of a move, and what it is to make of the rows.
use mathlib.Core.Bool.{Bool, true, false, ◌&&◌}
use loontail_minecraft_netwo.Prelude.{
  ℕ, ◌≡◌, refl, sym, subst, ◌∙◌, some, List, [], ◌∷◌, All, All-map, find-All, any, find,
  if◌then◌else◌, arith, Bool-cases, inl, inr,
}
use loontail_minecraft_netwo.Prelude.Text.{bytes_eq, bytes_beq, bytes_beq_iff}
use loontail_minecraft_netwo.Core.Account.{Text}
use loontail_minecraft_netwo.Bundles.Archive.{has_prefix}
use loontail_minecraft_netwo.Bundles.Manifest.{BundleArtifact}
use loontail_minecraft_netwo.Bundles.Repo.{is_at, is_below, is_indexed}
use loontail_minecraft_netwo.Bundles.Repo.Index.{same_place}
use loontail_minecraft_netwo.Bundles.Repo.Once.{same_id, Once, any-All, All-both}
use loontail_minecraft_netwo.Bundles.Repo.Move.{folder_of, placed}
use loontail_minecraft_netwo.Bundles.Repo.Move.Shift.{shifted, lies_below}

pub has_prefix-folder : (p : Text) → has_prefix (folder_of p) p ≡ false
has_prefix-folder [] = refl
has_prefix-folder (c ∷ p) = ground (arith, has_prefix-folder p)

-- The row that is found at a place is the only one there, by its id.
pub found_alone :
    (bundle : ℕ) (old : Text) (entry : BundleArtifact) (rows : List BundleArtifact)
    → is_indexed rows ≡ true
    → Once rows
    → find (is_at bundle old) rows ≡ some entry
    → All (λ a. same_id entry a ≡ is_at bundle old a) rows
unfolding find is_indexed
found_alone bundle old entry [] i o f = tt
found_alone bundle old entry (x ∷ rows) i o f = elim (Bool-cases (is_at bundle old x)) [
  | inl y ↦
      (let e : x ≡ entry = (let k : some x ≡ some entry = rw y at f in cc) in
        let free = any-All (same_place x) rows (ground (arith, i)) in
        let both =
          All-both (λ a. same_id x a ≡ false) (λ a. same_place x a ≡ false) rows o.0 free in
        subst (λ z. All (λ a. same_id z a ≡ is_at bundle old a) (x ∷ rows)) e
          (
            ground (arith, y),
            All-map (λ a. (same_id x a ≡ false) × (same_place x a ≡ false))
                (λ a. same_id x a ≡ is_at bundle old a) rows
                (λ a p.
                  p.0
                  ∙ ground (
                    arith,
                    p.1,
                    y,
                    bytes_beq_iff x.relative_path old,
                    bytes_beq_iff a.relative_path old,
                    bytes_beq_iff a.relative_path x.relative_path,
                  ))
                both,
          ))
  | inr n ↦
      (let g : find (is_at bundle old) rows ≡ some entry = rw n at f in
        let away : same_id x entry ≡ false =
          find-All (λ b. same_id x b ≡ false) (is_at bundle old) rows o.0 g in
        (ground (arith, away) ∙ sym n, found_alone bundle old entry rows (ground (arith, i)) o.1 g))
]

module _ (bundle : ℕ) (old path : Text) (is_dir : Bool) where
  -- What a move makes of a row: the entry takes the new path, and what lies below a folder follows.
  unfoldable pub relocated : BundleArtifact → BundleArtifact
  unfolding shifted
  relocated a =
      if is_at bundle old a
      then placed path a
      else if is_dir && lies_below bundle old path old a
      then shifted bundle old path a
      else a

  -- The guards of the handlers.
  pub record IsLegal (entry : BundleArtifact) (rows : List BundleArtifact) : Type 0 where
    pub once : Once rows
    pub indexed : is_indexed rows ≡ true
    pub found : find (is_at bundle old) rows ≡ some entry
    pub elsewhere : bytes_beq path old ≡ false
    pub outside : is_dir ≡ true → has_prefix (folder_of old) path ≡ false
    pub free : any (is_at bundle path) rows ≡ false
    pub clear : is_dir ≡ true → any (is_below bundle (folder_of path)) rows ≡ false

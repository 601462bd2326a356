-- ===== src/Bundles/Repo/Move/Children.antt =====
-- The loop over the rows below a folder moves each of them, and no statement fails.
use mathlib.Core.Bool.{Bool, true, ◌||◌}
use loontail_minecraft_netwo.Prelude.{
  ℕ, ◌≡◌, refl, ap, ◌∙◌, List, [], ◌∷◌, All, All-map, any, update_where, nat_beq, arith, Bool-cases,
  Option-cases, inl, inr,
}
use loontail_minecraft_netwo.Core.Account.{Text}
use loontail_minecraft_netwo.Bundles.Manifest.{BundleArtifact}
use loontail_minecraft_netwo.Bundles.Store.{Registry, done, ◌>>◌}
use loontail_minecraft_netwo.Bundles.Repo.{is_artifact, is_indexed, write_artifacts}
use loontail_minecraft_netwo.Bundles.Repo.Once.{same_id, Alone}
use loontail_minecraft_netwo.Bundles.Repo.Move.{
  folder_of, child_of, strip_prefix, placed, update_artifact_path, move_children,
}
use loontail_minecraft_netwo.Bundles.Repo.Move.Shift.{
  shifted, lies_below, Movable, shifted-placed, is_indexed-shifted,
}

pub write_artifacts-done :
    {D : Type 0} (f : List BundleArtifact → List BundleArtifact) (rows : List BundleArtifact)
    (s : Registry D)
    → f s.artifacts ≡ rows
    → is_indexed rows ≡ true
    → write_artifacts f s ≡ done tt (record s { artifacts = rows })
unfolding write_artifacts
write_artifacts-done f rows s e i = rw (e, i, write_artifacts) refl

abbrev also : BundleArtifact → (ℕ → Bool) → ℕ → Bool
also c d i = d i || nat_beq i c.id

abbrev pub done_by : (ℕ → Bool) → List BundleArtifact → ℕ → Bool
done_by d [] = d
done_by d (c ∷ cs) = done_by (also c d) cs

done_by_mono :
    (d : ℕ → Bool) (cs : List BundleArtifact) (i : ℕ) → d i ≡ true → done_by d cs i ≡ true
done_by_mono d [] i h = h
done_by_mono d (c ∷ cs) i h = done_by_mono (also c d) cs i (ground (arith, h))

pub done_by-any :
    (d : ℕ → Bool) (cs : List BundleArtifact) (a : BundleArtifact)
    → done_by d cs a.id ≡ (d a.id || any (λ c. same_id c a) cs)
unfolding any
done_by-any d [] a = ground arith
done_by-any d (c ∷ cs) a = done_by-any (also c d) cs a ∙ ground arith

module _ (bundle : ℕ) (old path : Text) where
  abbrev shift : BundleArtifact → BundleArtifact
  shift = shifted bundle old path

  shifted-id : (a : BundleArtifact) → (shift a).id ≡ a.id
  unfolding shifted
  shifted-id a = elim (Option-cases (strip_prefix (folder_of old) a.relative_path)) [
    | inl n ↦ rw (n, shifted) refl
    | inr (u, e) ↦ rw (e, shifted) refl
  ]

  -- Updating the row of `c` by its id is to shift one row more.
  update-also :
      (d : ℕ → Bool) (c : BundleArtifact) (rows : List BundleArtifact) (u : Text)
      → shift c ≡ placed (child_of path u) c
      → Alone rows c
      → update_where
          (is_artifact c.id)
          (placed (child_of path u))
          (update_where (λ a. d a.id) shift rows)
        ≡ update_where (λ a. also c d a.id) shift rows
  unfolding update_where
  update-also d c [] u s l = refl
  update-also d c (a ∷ rows) u s l =
      let rest = update-also d c rows u s l.1 in
      elim (Bool-cases (same_id c a)) [
        | inl e ↦
            (let same : a ≡ c = l.0 e in
              let now : shift a ≡ placed (child_of path u) a = rw same s in
              elim (Bool-cases (d a.id)) [
                | inl t ↦ rw (t, now, e, rest) refl
                | inr f ↦ rw (f, e, now, rest) refl
              ])
        | inr n ↦
            (let kept = shifted-id a in
              elim (Bool-cases (d a.id)) [
                | inl t ↦ rw (t, kept, n, rest) refl
                | inr f ↦ rw (f, n, rest) refl
              ])
      ]

  Movable-mono :
      (d e : ℕ → Bool) (rows : List BundleArtifact)
      → ((i : ℕ) → d i ≡ true → e i ≡ true)
      → All (Movable bundle old path e) rows
      → All (Movable bundle old path d) rows
  Movable-mono d e rows f =
      All-map (Movable bundle old path e) (Movable bundle old path d) rows
        (λ a m. record { vacant = m.vacant; below = λ h. m.below (f a.id h) })

  pub move_children-shifts :
      {D : Type 0} (d : ℕ → Bool) (rows children : List BundleArtifact) (s : Registry D)
      → s.artifacts ≡ update_where (λ a. d a.id) shift rows
      → All (λ c. (lies_below bundle old path old c ≡ true) × Alone rows c) children
      → All (Movable bundle old path (done_by d children)) rows
      → is_indexed rows ≡ true
      → move_children (folder_of old) path children s
        ≡ done tt (record s { artifacts = update_where (λ a. done_by d children a.id) shift rows })
  unfolding move_children
  move_children-shifts d rows [] s e b m i = rw (← e) refl
  move_children-shifts d rows (c ∷ children) s e b m i =
      let (u, f, k, p) = shifted-placed bundle old path c b.0.0 in
      let next = update_where (λ a. also c d a.id) shift rows in
      let indexed =
        is_indexed-shifted bundle old path (also c d) rows
          (Movable-mono (also c d) (done_by d (c ∷ children)) rows
            (done_by_mono (also c d) children) m)
          i in
      let written =
        write_artifacts-done (update_where (is_artifact c.id) (placed (child_of path u))) next s
          (ap (λ z. update_where (is_artifact c.id) (placed (child_of path u)) z) e
            ∙ update-also d c rows u p b.0.1)
          indexed in
      rw (f, move_children)
        (rw (written, update_artifact_path, ◌>>◌)
          (move_children-shifts (also c d) rows children (record s { artifacts = next }) refl b.1 m
            i))

-- ===== src/Bundles/Repo/Move/Relocation.antt =====
-- What a legal move makes of the rows.
use mathlib.Core.Bool.{Bool, true, false, ◌&&◌}
use loontail_minecraft_netwo.Prelude.{
  ℕ, ◌≡◌, refl, ap, sym, ◌∙◌, some, List, [], ◌∷◌, map, All, All-map, All-keep, All-update_where,
  any, keep, find, update_where, if◌then◌else◌, arith, Bool-cases, inl, inr,
}
use loontail_minecraft_netwo.Prelude.Text.{bytes_eq, bytes_beq_iff}
use loontail_minecraft_netwo.Core.Account.{Text}
use loontail_minecraft_netwo.Bundles.Manifest.{BundleArtifact}
use loontail_minecraft_netwo.Bundles.Store.{Registry, done, ◌>>◌, ◌>>=◌}
use loontail_minecraft_netwo.Bundles.Repo.{
  is_at, is_below, is_artifact, is_indexed, write_artifacts,
}
use loontail_minecraft_netwo.Bundles.Repo.Index.{is_indexed-update_where}
use loontail_minecraft_netwo.Bundles.Repo.Once.{
  same_id, Once, Alone, Once-Alone, chosen-eq, update_where-cong, Once-update_where, keep-All,
  any-All, All-both, update_where-none,
}
use loontail_minecraft_netwo.Bundles.Repo.Move.{folder_of, placed, update_artifact_path, move_rows}
use loontail_minecraft_netwo.Bundles.Repo.Move.Shift.{shifted, lies_below, Movable, is_below-prefix}
use loontail_minecraft_netwo.Bundles.Repo.Move.Children.{
  write_artifacts-done, done_by, done_by-any, move_children-shifts,
}
use loontail_minecraft_netwo.Bundles.Repo.Move.Legal.{
  has_prefix-folder, found_alone, relocated, IsLegal,
}

module _ (bundle : ℕ) (old path : Text) (is_dir : Bool) where
  -- The rows after the first statement.
  abbrev entered : BundleArtifact → List BundleArtifact → List BundleArtifact
  entered entry rows = update_where (is_artifact entry.id) (placed path) rows

  module _ (entry : BundleArtifact) (rows : List BundleArtifact)
      (l : IsLegal bundle old path is_dir entry rows) where
    ids_at : All (λ a. same_id entry a ≡ is_at bundle old a) rows
    ids_at = found_alone bundle old entry rows l.indexed l.once l.found

    entered-indexed : is_indexed (entered entry rows) ≡ true
    entered-indexed =
        is_indexed-update_where
          (λ a. (same_id entry a ≡ is_at bundle old a) × (is_at bundle path a ≡ false))
          (is_artifact entry.id) (placed path)
          (λ x y p q a b h. absurd (
            let c = p.0 in
            let d = q.0 in
            ground (
              arith,
              a,
              b,
              c,
              d,
              h,
              bytes_beq_iff x.relative_path old,
              bytes_beq_iff y.relative_path old,
              bytes_beq_iff y.relative_path x.relative_path,
            )))
          (λ x y p q a b h. (let c = p.0 in let d = q.1 in ground (arith, a, c, d))) rows
          (All-both (λ a. same_id entry a ≡ is_at bundle old a) (λ a. is_at bundle path a ≡ false)
            rows ids_at (any-All (is_at bundle path) rows l.free))
          l.indexed

    entered-Once : Once (entered entry rows)
    entered-Once = Once-update_where (is_artifact entry.id) (placed path) (λ a. refl) rows l.once

    entered-vacant :
        is_dir ≡ true → All (λ a. lies_below bundle old path path a ≡ false) (entered entry rows)
    entered-vacant y =
        All-update_where (λ a. lies_below bundle old path path a ≡ false) (is_artifact entry.id)
          (placed path) rows (λ a h. (let k = has_prefix-folder path in ground (arith, k)))
          (All-map (λ a. is_below bundle (folder_of path) a ≡ false)
            (λ a. lies_below bundle old path path a ≡ false) rows
            (λ a h. sym (is_below-prefix bundle (folder_of path) a) ∙ h)
            (any-All (is_below bundle (folder_of path)) rows (l.clear y)))

    -- The rows that the loop goes through.
    children : List BundleArtifact
    children = keep (is_below bundle (folder_of old)) (entered entry rows)

    children_ids :
        All
          (λ a. done_by (λ i. false) children a.id ≡ lies_below bundle old path old a)
          (entered entry rows)
    unfolding children
    children_ids =
        All-map (λ a. any (λ c. same_id c a) children ≡ is_below bundle (folder_of old) a)
          (λ a. done_by (λ i. false) children a.id ≡ lies_below bundle old path old a)
          (entered entry rows)
          (λ a h.
            done_by-any (λ i. false) children a ∙ h ∙ is_below-prefix bundle (folder_of old) a)
          (chosen-eq (is_below bundle (folder_of old)) (entered entry rows) entered-Once)

    children_fit :
        All (λ c. (lies_below bundle old path old c ≡ true) × Alone (entered entry rows) c) children
    unfolding children
    children_fit =
        All-both (λ c. lies_below bundle old path old c ≡ true) (Alone (entered entry rows))
          children
          (All-map (λ c. is_below bundle (folder_of old) c ≡ true)
            (λ c. lies_below bundle old path old c ≡ true) children
            (λ c h. sym (is_below-prefix bundle (folder_of old) c) ∙ h)
            (keep-All (is_below bundle (folder_of old)) (entered entry rows)))
          (All-keep (Alone (entered entry rows)) (is_below bundle (folder_of old))
            (entered entry rows) (Once-Alone (entered entry rows) entered-Once))

    entered-Movable :
        is_dir ≡ true
        → All (Movable bundle old path (done_by (λ i. false) children)) (entered entry rows)
    entered-Movable y =
        All-map
          (λ a.
            (lies_below bundle old path path a ≡ false)
            × (done_by (λ i. false) children a.id ≡ lies_below bundle old path old a))
          (Movable bundle old path (done_by (λ i. false) children)) (entered entry rows)
          (λ a p. record { vacant = p.0; below = λ h. sym p.1 ∙ h })
          (All-both (λ a. lies_below bundle old path path a ≡ false)
            (λ a. done_by (λ i. false) children a.id ≡ lies_below bundle old path old a)
            (entered entry rows) (entered-vacant y) children_ids)

    relocated_of :
        (a : BundleArtifact)
        → same_id entry a ≡ is_at bundle old a
        → (let b = if is_artifact entry.id a then placed path a else a in
            if is_dir && lies_below bundle old path old b then shifted bundle old path b else b)
          ≡ relocated bundle old path is_dir a
    unfolding relocated
    relocated_of a h = elim (Bool-cases (is_at bundle old a)) [
      | inr n ↦ rw (h, n, relocated) refl
      | inl y ↦ elim (Bool-cases is_dir) [
        | inr f ↦ rw (h, y, f, relocated) refl
        | inl d ↦
            (let out : lies_below bundle old path old (placed path a) ≡ false =
                (let k = l.outside d in ground (arith, k)) in
              rw (h, y, d, out, relocated) refl)
      ]
    ]

    map_relocated :
        (part : List BundleArtifact)
        → All (λ a. same_id entry a ≡ is_at bundle old a) part
        → update_where
            (λ b. is_dir && lies_below bundle old path old b)
            (shifted bundle old path)
            (entered entry part)
          ≡ map (relocated bundle old path is_dir) part
    unfolding update_where
    map_relocated [] h = refl
    map_relocated (a ∷ part) h = (λ i. relocated_of a h.0 i ∷ map_relocated part h.1 i)

    masked : Bool → List BundleArtifact
    masked d =
        update_where (λ b. d && lies_below bundle old path old b) (shifted bundle old path)
          (entered entry rows)

    file_moved : is_dir ≡ false → entered entry rows ≡ map (relocated bundle old path is_dir) rows
    unfolding masked
    file_moved f =
        sym (update_where-none (shifted bundle old path) (entered entry rows))
        ∙ ap masked (sym f)
        ∙ map_relocated rows ids_at

    folder_moved :
        is_dir ≡ true
        → update_where
            (λ a. done_by (λ i. false) children a.id)
            (shifted bundle old path)
            (entered entry rows)
          ≡ map (relocated bundle old path is_dir) rows
    unfolding masked
    folder_moved y =
        update_where-cong (λ a. done_by (λ i. false) children a.id)
          (λ a. lies_below bundle old path old a) (shifted bundle old path) (entered entry rows)
          children_ids
        ∙ ap masked (sym y)
        ∙ map_relocated rows ids_at

    move_rows_to :
        {D : Type 0} (target : List BundleArtifact) (s : Registry D)
        → s.artifacts ≡ rows
        → (is_dir ≡ false → entered entry rows ≡ target)
        → (is_dir ≡ true
            → update_where
                (λ a. done_by (λ i. false) children a.id)
                (shifted bundle old path)
                (entered entry rows)
              ≡ target)
        → move_rows bundle old path is_dir s ≡ done tt (record s { artifacts = target })
    unfolding move_rows children
    move_rows_to {D} target s e alone all =
        let s1 : Registry D = record s { artifacts = entered entry rows } in
        let first : write_artifacts (update_where (is_artifact entry.id) (placed path)) s
            ≡ done tt s1 =
          write_artifacts-done (update_where (is_artifact entry.id) (placed path))
            (entered entry rows) s (ap (λ z. update_where (is_artifact entry.id) (placed path) z) e)
            entered-indexed in
        let found : find (is_at bundle old) s.artifacts ≡ some entry = rw e l.found in
        elim (Bool-cases is_dir) [
          | inr f ↦
              rw (found, move_rows, ◌>>=◌, ◌>>◌)
                (rw (first, update_artifact_path, f)
                  (ap (λ z. done tt (record s { artifacts = z })) (alone f)))
          | inl y ↦
              rw (found, move_rows, ◌>>=◌, ◌>>◌)
                (rw (first, update_artifact_path, y)
                  (move_children-shifts bundle old path (λ i. false) (entered entry rows) children
                      s1 (sym (update_where-none (shifted bundle old path) (entered entry rows)))
                      children_fit (entered-Movable y) entered-indexed
                    ∙ ap (λ z. done tt (record s { artifacts = z })) (all y)))
        ]

    -- A legal move succeeds, and relocates the rows.
    pub move_rows-relocated :
        {D : Type 0} (s : Registry D)
        → s.artifacts ≡ rows
        → move_rows bundle old path is_dir s
          ≡ done tt (record s { artifacts = map (relocated bundle old path is_dir) rows })
    move_rows-relocated s e =
        move_rows_to (map (relocated bundle old path is_dir) rows) s e file_moved folder_moved

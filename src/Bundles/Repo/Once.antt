-- ===== src/Bundles/Repo/Once.antt =====
-- Rows whose ids are distinct.
use mathlib.Core.Bool.{Bool, true, false, ◌||◌}
use loontail_minecraft_netwo.Prelude.{
  ◌≡◌, refl, ap, sym, ◌∙◌, List, [], ◌∷◌, any, keep, update_where, All, All-map, All-keep, nat_beq,
  arith, Bool-cases, inl, inr,
}
use loontail_minecraft_netwo.Bundles.Manifest.{BundleArtifact}

abbrev pub same_id : BundleArtifact → BundleArtifact → Bool
same_id a b = nat_beq b.id a.id

abbrev pub Once : List BundleArtifact → Type 0
Once [] = Unit {0}
Once (a ∷ rows) = All (λ b. same_id a b ≡ false) rows × Once rows

-- The only row with its id.
abbrev pub Alone : List BundleArtifact → BundleArtifact → Type 0
Alone rows c = All (λ a. same_id c a ≡ true → a ≡ c) rows

Alone-cons :
    (x : BundleArtifact) (rows cs : List BundleArtifact)
    → All (λ b. same_id x b ≡ false) cs
    → All (Alone rows) cs
    → All (Alone (x ∷ rows)) cs
Alone-cons x rows [] d a = tt
Alone-cons x rows (c ∷ cs) d a =
    ((λ h. absurd (let k = d.0 in ground (arith, h, k)), a.0), Alone-cons x rows cs d.1 a.1)

Alone-self :
    (x : BundleArtifact) (rows : List BundleArtifact)
    → All (λ b. same_id x b ≡ false) rows
    → Alone rows x
Alone-self x [] d = tt
Alone-self x (b ∷ rows) d =
    (λ h. absurd (let k = d.0 in ground (arith, h, k)), Alone-self x rows d.1)

pub Once-Alone : (rows : List BundleArtifact) → Once rows → All (Alone rows) rows
Once-Alone [] o = tt
Once-Alone (x ∷ rows) o =
    ((λ h. refl, Alone-self x rows o.0), Alone-cons x rows rows o.0 (Once-Alone rows o.1))

module _ (p : BundleArtifact → Bool) where
  abbrev chosen : List BundleArtifact → BundleArtifact → Bool
  chosen rows a = any (λ c. same_id c a) (keep p rows)

  chosen_sound :
      (a : BundleArtifact) (rows : List BundleArtifact)
      → Alone rows a
      → chosen rows a ≡ true
      → p a ≡ true
  unfolding any keep
  chosen_sound a [] l h = absurd (cc)
  chosen_sound a (x ∷ rows) l h = elim (Bool-cases (p x)) [
    | inr n ↦ chosen_sound a rows l.1 (rw n at h)
    | inl y ↦ elim (Bool-cases (same_id x a)) [
      | inl s ↦ (let same : x ≡ a = l.0 (ground (arith, s)) in rw (← same) y)
      | inr d ↦
          (let k : (same_id x a || chosen rows a) ≡ true = rw y at h in
            chosen_sound a rows l.1 (ground (arith, k, d)))
    ]
  ]

  chosen_complete : (rows : List BundleArtifact) → All (λ a. p a ≡ true → chosen rows a ≡ true) rows
  unfolding any keep
  chosen_complete [] = tt
  chosen_complete (x ∷ rows) = (
    λ y. ground (arith, y),
    All-map (λ a. p a ≡ true → chosen rows a ≡ true) (λ a. p a ≡ true → chosen (x ∷ rows) a ≡ true)
        rows (λ a f y. (let k = f y in ground (arith, k))) (chosen_complete rows),
  )

  chosen_all :
      (rows cs : List BundleArtifact)
      → All (Alone rows) cs
      → All (λ a. p a ≡ true → chosen rows a ≡ true) cs
      → All (λ a. chosen rows a ≡ p a) cs
  chosen_all rows [] l f = tt
  chosen_all rows (a ∷ cs) l f = (
    elim (Bool-cases (p a)) [
      | inl y ↦ f.0 y ∙ sym y
      | inr n ↦ elim (Bool-cases (chosen rows a)) [
        | inl t ↦ absurd (let k = chosen_sound a rows l.0 t in cc)
        | inr e ↦ e ∙ sym n
      ]
    ],
    chosen_all rows cs l.1 f.1,
  )

  -- A row is among those of a choice exactly when the choice takes it.
  pub chosen-eq :
      (rows : List BundleArtifact)
      → Once rows
      → All (λ a. any (λ c. same_id c a) (keep p rows) ≡ p a) rows
  chosen-eq rows o = chosen_all rows rows (Once-Alone rows o) (chosen_complete rows)

pub update_where-cong :
    (m n : BundleArtifact → Bool) (g : BundleArtifact → BundleArtifact) (rows : List BundleArtifact)
    → All (λ a. m a ≡ n a) rows
    → update_where m g rows ≡ update_where n g rows
unfolding update_where
update_where-cong m n g [] e = refl
update_where-cong m n g (a ∷ rows) e = rw (e.0, update_where-cong m n g rows e.1) refl

module _ (m : BundleArtifact → Bool) (g : BundleArtifact → BundleArtifact)
    (kept : (a : BundleArtifact) → (g a).id ≡ a.id) where
  same_id-update_where :
      (x y : BundleArtifact) (rows : List BundleArtifact)
      → y.id ≡ x.id
      → All (λ b. same_id x b ≡ false) rows
      → All (λ b. same_id y b ≡ false) (update_where m g rows)
  unfolding update_where
  same_id-update_where x y [] e d = tt
  same_id-update_where x y (b ∷ rows) e d = (
    elim (Bool-cases (m b)) [ inl t ↦ rw (t, kept b, e) d.0 | inr f ↦ rw (f, e) d.0 ],
    same_id-update_where x y rows e d.1,
  )

  pub Once-update_where : (rows : List BundleArtifact) → Once rows → Once (update_where m g rows)
  unfolding update_where
  Once-update_where [] o = tt
  Once-update_where (a ∷ rows) o = elim (Bool-cases (m a)) [
    | inl t ↦ rw t (same_id-update_where a (g a) rows (kept a) o.0, Once-update_where rows o.1)
    | inr f ↦ rw f (same_id-update_where a a rows refl o.0, Once-update_where rows o.1)
  ]

pub Once-keep :
    (p : BundleArtifact → Bool) (rows : List BundleArtifact) → Once rows → Once (keep p rows)
unfolding keep
Once-keep p [] o = tt
Once-keep p (a ∷ rows) o = elim (Bool-cases (p a)) [
  | inl t ↦ rw t (All-keep (λ b. same_id a b ≡ false) p rows o.0, Once-keep p rows o.1)
  | inr f ↦ rw f (Once-keep p rows o.1)
]

pub keep-All :
    (p : BundleArtifact → Bool) (rows : List BundleArtifact) → All (λ a. p a ≡ true) (keep p rows)
unfolding keep
keep-All p [] = tt
keep-All p (a ∷ rows) = elim (Bool-cases (p a)) [
  | inl t ↦ rw t (t, keep-All p rows)
  | inr f ↦ rw f (keep-All p rows)
]

pub any-All :
    (p : BundleArtifact → Bool) (rows : List BundleArtifact)
    → any p rows ≡ false
    → All (λ a. p a ≡ false) rows
unfolding any
any-All p [] h = tt
any-All p (a ∷ rows) h = (ground (arith, h), any-All p rows (ground (arith, h)))

pub All-both :
    (P Q : BundleArtifact → Type 0) (rows : List BundleArtifact)
    → All P rows
    → All Q rows
    → All (λ a. P a × Q a) rows
All-both P Q [] p q = tt
All-both P Q (a ∷ rows) p q = ((p.0, q.0), All-both P Q rows p.1 q.1)

pub update_where-none :
    (g : BundleArtifact → BundleArtifact) (rows : List BundleArtifact)
    → update_where (λ a. false) g rows ≡ rows
unfolding update_where
update_where-none g [] = refl
update_where-none g (a ∷ rows) = ap (λ z. a ∷ z) (update_where-none g rows)

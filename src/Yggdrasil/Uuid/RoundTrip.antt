-- ===== src/Yggdrasil/Uuid/RoundTrip.antt =====
-- The two texts of a UUID are converted into each other without loss.
use mathlib.Core.Bool.{true, false}
use loontail_minecraft_netwo.Prelude.{
  ◌≡◌, ◌⊎◌, refl, ap, ◌∙◌, nat_beq, length, arith, inl, inr, and-eq-true,
}
use loontail_minecraft_netwo.Yggdrasil.Uuid.{
  Text, ok, is_uuid_undashed, is_uuid_dashed, undash_uuid, dash_uuid,
}
use loontail_minecraft_netwo.Yggdrasil.Uuid.Groups.{
  Groups, AreHex, plain, joined, lower, lower-AreHex, map-plain, map-joined, lower-lower,
  groups_of_plain, groups_of_joined, plain-undashed, plain_not_dashed, joined-dashed, undash-joined,
  with_dashes-plain,
}

joined_not_plain : (g : Groups) → AreHex g → is_uuid_undashed (joined g) ≡ false
unfolding is_uuid_undashed is_uuid_dashed
joined_not_plain g h =
    let (l, t) = and-eq-true (nat_beq (length (joined g)) 36) _ (joined-dashed g h) in
    let n : length (joined g) ≡ 36 = ground (arith, l) in rw n refl

-- On the pieces of a UUID, in any case, the conversions drop and insert the dashes.
undash_groups :
    (g : Groups)
    → AreHex g
    → (undash_uuid (plain g) ≡ ok (plain (lower g)))
      × (undash_uuid (joined g) ≡ ok (plain (lower g)))
unfolding undash_uuid
undash_groups g h = (
  rw (plain-undashed g h, map-plain g) refl,
  rw (joined_not_plain g h, joined-dashed g h, undash-joined g h, map-plain g) refl,
)

dash_groups :
    (g : Groups)
    → AreHex g
    → (dash_uuid (plain g) ≡ ok (joined (lower g))) × (dash_uuid (joined g) ≡ ok (joined (lower g)))
unfolding dash_uuid
dash_groups g h = (
  rw
      (
        plain_not_dashed g h,
        plain-undashed g h,
        map-plain g,
        with_dashes-plain (lower g) (lower-AreHex g h),
      )
      refl,
  rw (joined-dashed g h, map-joined g) refl,
)

abbrev pub IsUuid : Text → Type 0
IsUuid v = (is_uuid_undashed v ≡ true) ⊎ (is_uuid_dashed v ≡ true)

groups_of : (v : Text) → IsUuid v → (g : Groups) × ((v ≡ plain g) ⊎ (v ≡ joined g)) × AreHex g
groups_of v u = elim u [
  | inl h ↦ (let (g, e, k) = groups_of_plain v h in (g, inl e, k))
  | inr h ↦ (let (g, e, k) = groups_of_joined v h in (g, inr e, k))
]

-- Either text of a UUID, in any case, has an undashed and a dashed text, both of which pass their
-- tests; converting one of the two texts gives the other, and converting it to itself changes nothing.
pub undash-dash :
    (v : Text)
    → IsUuid v
    → (u : Text) × (d : Text) × (undash_uuid v ≡ ok u)
      × (dash_uuid v ≡ ok d)
      × ((is_uuid_undashed u ≡ true) × (is_uuid_dashed d ≡ true))
      × ((undash_uuid d ≡ ok u) × (dash_uuid u ≡ ok d))
      × ((undash_uuid u ≡ ok u) × (dash_uuid d ≡ ok d))
undash-dash v w =
    let (g, e, h) = groups_of v w in
    let k = lower-AreHex g h in
    let twice = lower-lower g in
    let (up, uj) = undash_groups (lower g) k in
    let (dp, dj) = dash_groups (lower g) k in
    (
      plain (lower g),
      joined (lower g),
      elim e [ inl a ↦ rw a (undash_groups g h).0 | inr a ↦ rw a (undash_groups g h).1 ],
      elim e [ inl a ↦ rw a (dash_groups g h).0 | inr a ↦ rw a (dash_groups g h).1 ],
      (plain-undashed (lower g) k, joined-dashed (lower g) k),
      (uj ∙ ap (λ z. ok (plain z)) twice, dp ∙ ap (λ z. ok (joined z)) twice),
      (up ∙ ap (λ z. ok (plain z)) twice, dj ∙ ap (λ z. ok (joined z)) twice),
    )

-- ===== src/Yggdrasil/Uuid/Groups.antt =====
-- The five pieces of a UUID, and its two texts.
use mathlib.Core.Bool.{true, false, not}
use loontail_minecraft_netwo.Prelude.{
  ℕ, zero, suc, ◌+◌, ◌≡◌, refl, ap, sym, ◌∙◌, [], ◌∷◌, ◌++◌, map, nat_beq, length, length-append,
  all, keep, arith, and-eq-true,
}
use loontail_minecraft_netwo.Yggdrasil.Uuid.{
  Text, is_ascii_hexdigit, to_lower, is_dash, is_dash_place, places_hold, is_uuid_undashed,
  is_uuid_dashed, with_dashes,
}
use loontail_minecraft_netwo.Yggdrasil.Uuid.Pieces.{
  map-lower, map-append, keep-append, Piece, Piece-lower, Piece-append, keep-piece, split-Piece,
  Undashed, later, places_hold-Piece, split_places, append_nil, take-piece, take-all, drop-piece,
}

-- The text with the five pieces of a UUID.
pub record Groups : Type 0 where
  pub a : Text
  pub b : Text
  pub c : Text
  pub d : Text
  pub e : Text

abbrev pub AreHex : Groups → Type 0
AreHex g = Piece 8 g.a × (Piece 4 g.b × (Piece 4 g.c × (Piece 4 g.d × Piece 12 g.e)))

abbrev pub plain : Groups → Text
plain g = g.a ++ (g.b ++ (g.c ++ (g.d ++ g.e)))

abbrev pub joined : Groups → Text
joined g = g.a ++ (b'-' ∷ (g.b ++ (b'-' ∷ (g.c ++ (b'-' ∷ (g.d ++ (b'-' ∷ g.e)))))))

abbrev pub lower : Groups → Groups
lower g = record {
  a = map to_lower g.a;
  b = map to_lower g.b;
  c = map to_lower g.c;
  d = map to_lower g.d;
  e = map to_lower g.e;
}

pub lower-AreHex : (g : Groups) → AreHex g → AreHex (lower g)
lower-AreHex g (a, (b, (c, (d, e)))) = (
  Piece-lower 8 g.a a,
  (Piece-lower 4 g.b b, (Piece-lower 4 g.c c, (Piece-lower 4 g.d d, Piece-lower 12 g.e e))),
)

pub map-plain : (g : Groups) → map to_lower (plain g) ≡ plain (lower g)
map-plain g = simp (map-append)

pub map-joined : (g : Groups) → map to_lower (joined g) ≡ joined (lower g)
map-joined g = simp (map-append)

pub lower-lower : (g : Groups) → lower (lower g) ≡ lower g
lower-lower g = rw (map-lower g.a, map-lower g.b, map-lower g.c, map-lower g.d, map-lower g.e) refl

pub groups_of_plain :
    (v : Text) → is_uuid_undashed v ≡ true → (g : Groups) × (v ≡ plain g) × AreHex g
unfolding is_uuid_undashed
groups_of_plain v h =
    let (l, t) = and-eq-true (nat_beq (length v) 32) (all is_ascii_hexdigit v) h in
    let (a, v1, e1, p, r1) = split-Piece 8 24 v (ground (arith, l), t) in
    let (b, v2, e2, q, r2) = split-Piece 4 20 v1 r1 in
    let (c, v3, e3, r, r3) = split-Piece 4 16 v2 r2 in
    let (d, e, e4, s, u) = split-Piece 4 12 v3 r3 in
    (
      record { a = a; b = b; c = c; d = d; e = e },
      e1 ∙ ap (λ z. a ++ z) (e2 ∙ ap (λ z. b ++ z) (e3 ∙ ap (λ z. c ++ z) e4)),
      (p, (q, (r, (s, u)))),
    )

-- A dash, where one must stand.
pub split_dash :
    (i m : ℕ) (v : Text)
    → length v ≡ suc m
    → is_dash_place i ≡ true
    → places_hold i v ≡ true
    → (y : Text) × (v ≡ b'-' ∷ y) × (length y ≡ m) × (places_hold (suc i) y ≡ true)
unfolding places_hold
split_dash i m [] l d h = absurd (omega (arith, l))
split_dash i m (b ∷ v) l d h =
    let k = rw d at h in
    let (x, t) = and-eq-true (is_dash b) (places_hold (suc i) v) k in
    let same : b ≡ b'-' = ground (arith, x) in (v, ap (λ z. z ∷ v) same, omega (arith, l), t)

pub last-Piece :
    (i n : ℕ) (v : Text) → length v ≡ n → Undashed i n → places_hold i v ≡ true → Piece n v
unfolding all places_hold
last-Piece i n [] l u h = (l, refl)
last-Piece i zero (b ∷ v) l u h = absurd (omega (arith, l))
last-Piece i (suc n) (b ∷ v) l u h =
    let here = u i (omega arith) (omega arith) in
    let k = rw here at h in
    let (a, t) = and-eq-true (is_ascii_hexdigit b) (places_hold (suc i) v) k in
    let rest = last-Piece (suc i) n v (omega (arith, l)) (later i n u) t in (l, rw (a, rest.1) refl)

-- A piece, and the dash behind it.
pub split_group :
    (i n m : ℕ) (v : Text)
    → length v ≡ n + suc m
    → Undashed i n
    → is_dash_place (i + n) ≡ true
    → places_hold i v ≡ true
    → (x : Text) × (y : Text) × (v ≡ x ++ (b'-' ∷ y))
      × Piece n x
      × (length y ≡ m)
      × (places_hold (suc (i + n)) y ≡ true)
split_group i n m v l u d h =
    let (x, w, e, p, k, t) = split_places i n (suc m) v l u h in
    let (y, f, r, z) = split_dash (i + n) m w k d t in (x, y, e ∙ ap (λ w. x ++ w) f, p, r, z)

pub joined_of :
    (g : Groups) {v w x y : Text}
    → v ≡ g.a ++ (b'-' ∷ w)
    → w ≡ g.b ++ (b'-' ∷ x)
    → x ≡ g.c ++ (b'-' ∷ y)
    → y ≡ g.d ++ (b'-' ∷ g.e)
    → v ≡ joined g
joined_of g a b c d =
    a
    ∙ ap (λ z. g.a ++ (b'-' ∷ z))
        (b ∙ ap (λ z. g.b ++ (b'-' ∷ z)) (c ∙ ap (λ z. g.c ++ (b'-' ∷ z)) d))

pub groups_of_joined :
    (v : Text) → is_uuid_dashed v ≡ true → (g : Groups) × (v ≡ joined g) × AreHex g
unfolding is_uuid_dashed
groups_of_joined v h =
    let (l, t) = and-eq-true (nat_beq (length v) 36) (places_hold 0 v) h in
    let (a, v1, e1, p, l1, t1) =
      split_group 0 8 27 v (ground (arith, l)) (λ j x y. ground arith) refl t in
    let (b, v2, e2, q, l2, t2) = split_group 9 4 22 v1 l1 (λ j x y. ground arith) refl t1 in
    let (c, v3, e3, r, l3, t3) = split_group 14 4 17 v2 l2 (λ j x y. ground arith) refl t2 in
    let (d, v4, e4, s, l4, t4) = split_group 19 4 12 v3 l3 (λ j x y. ground arith) refl t3 in
    let last = last-Piece 24 12 v4 l4 (λ j x y. ground arith) t4 in
    (
      record { a = a; b = b; c = c; d = d; e = v4 },
      joined_of _ e1 e2 e3 e4,
      (p, (q, (r, (s, last)))),
    )

pub plain-undashed : (g : Groups) → AreHex g → is_uuid_undashed (plain g) ≡ true
unfolding is_uuid_undashed
plain-undashed g (a, (b, (c, (d, e)))) =
    let w =
      Piece-append 8 24 g.a _ a
        (Piece-append 4 20 g.b _ b (Piece-append 4 16 g.c _ c (Piece-append 4 12 g.d g.e d e))) in
    rw (w.0, w.1) refl

pub plain_not_dashed : (g : Groups) → AreHex g → is_uuid_dashed (plain g) ≡ false
unfolding is_uuid_undashed is_uuid_dashed
plain_not_dashed g h =
    let (l, t) = and-eq-true (nat_beq (length (plain g)) 32) _ (plain-undashed g h) in
    let n : length (plain g) ≡ 32 = ground (arith, l) in rw n refl

pub joined-dashed : (g : Groups) → AreHex g → is_uuid_dashed (joined g) ≡ true
unfolding is_uuid_dashed places_hold
joined-dashed g (a, (b, (c, (d, e)))) =
    let size : length (joined g) ≡ 36 = simp (length-append, a.0, b.0, c.0, d.0, e.0) in
    let at0 = places_hold-Piece 0 8 g.a _ (λ j x y. ground arith) a in
    let at9 = places_hold-Piece 9 4 g.b _ (λ j x y. ground arith) b in
    let at14 = places_hold-Piece 14 4 g.c _ (λ j x y. ground arith) c in
    let at19 = places_hold-Piece 19 4 g.d _ (λ j x y. ground arith) d in
    let at24 = places_hold-Piece 24 12 g.e [] (λ j x y. ground arith) e in
    rw size (at0 ∙ (at9 ∙ (at14 ∙ (at19 ∙ (ap (places_hold 24) (sym (append_nil g.e)) ∙ at24)))))

pub undash-joined : (g : Groups) → AreHex g → keep (λ b. not (is_dash b)) (joined g) ≡ plain g
unfolding keep
undash-joined g (a, (b, (c, (d, e)))) = simp (
  keep-append,
  keep-piece g.a a.1,
  keep-piece g.b b.1,
  keep-piece g.c c.1,
  keep-piece g.d d.1,
  keep-piece g.e e.1,
)

pub with_dashes-plain : (g : Groups) → AreHex g → with_dashes (plain g) ≡ joined g
with_dashes-plain g (a, (b, (c, (d, e)))) = simp (
  take-piece 8 g.a (g.b ++ (g.c ++ (g.d ++ g.e))) a.0,
  drop-piece 8 8 0 g.a (g.b ++ (g.c ++ (g.d ++ g.e))) refl a.0,
  drop-piece 12 8 4 g.a (g.b ++ (g.c ++ (g.d ++ g.e))) refl a.0,
  drop-piece 16 8 8 g.a (g.b ++ (g.c ++ (g.d ++ g.e))) refl a.0,
  drop-piece 20 8 12 g.a (g.b ++ (g.c ++ (g.d ++ g.e))) refl a.0,
  take-piece 4 g.b (g.c ++ (g.d ++ g.e)) b.0,
  drop-piece 4 4 0 g.b (g.c ++ (g.d ++ g.e)) refl b.0,
  drop-piece 8 4 4 g.b (g.c ++ (g.d ++ g.e)) refl b.0,
  drop-piece 12 4 8 g.b (g.c ++ (g.d ++ g.e)) refl b.0,
  take-piece 4 g.c (g.d ++ g.e) c.0,
  drop-piece 4 4 0 g.c (g.d ++ g.e) refl c.0,
  drop-piece 8 4 4 g.c (g.d ++ g.e) refl c.0,
  take-piece 4 g.d g.e d.0,
  drop-piece 4 4 0 g.d g.e refl d.0,
  take-all 12 g.e e.0,
)

-- ===== src/Bundles/Paths/Contained.antt =====
-- A normalized path has only named segments, and normalizing it again changes nothing.
use mathlib.Core.Bool.{true, false}
use loontail_minecraft_netwo.Prelude.{
  ℕ, ◌≡◌, refl, ap, sym, subst, ◌∙◌, List, [], ◌∷◌, ◌++◌, nat_beq, any, keep, All, arith,
  Bool-cases, inl, inr,
}
use loontail_minecraft_netwo.Prelude.Text.{bytes_eq}
use loontail_minecraft_netwo.Core.Account.{Text}
use loontail_minecraft_netwo.Core.Headers.{grow, split_on}
use loontail_minecraft_netwo.Core.Identity.{has_byte, starts_with}
use loontail_minecraft_netwo.Bundles.Paths.{
  backslash, validate_slug, unified, join_parts, is_named, is_parent, inside, joined,
  normalize_relative_path,
}

-- A segment that names an entry of its directory and can be read in no other way.
abbrev pub Inert : Text → Type 0
Inert segment =
    ((is_named segment ≡ true) × (is_parent segment ≡ false))
    × ((has_byte b'/' segment ≡ false) × (has_byte backslash segment ≡ false))

abbrev Free : ℕ → List Text → Type 0
Free c segments = All (λ p. has_byte c p ≡ false) segments

-- A slug that is accepted is one inert segment.
validate_slug-Inert : (slug : Text) → validate_slug slug ≡ true → Inert slug
unfolding validate_slug
validate_slug-Inert slug h =
    ((ground (arith, h), ground (arith, h)), (ground (arith, h), ground (arith, h)))

grow-Free : (c b : ℕ) (ps : List Text) → nat_beq b c ≡ false → Free c ps → Free c (grow b ps)
grow-Free c b [] n f = (rw n refl, tt)
grow-Free c b (p ∷ ps) n f = (rw (n, f.0) refl, f.1)

-- No segment contains the separator, or a byte that the text does not contain.
split_on-sep : (sep : ℕ) (t : Text) → Free sep (split_on sep t)
unfolding split_on
split_on-sep sep [] = (refl, tt)
split_on-sep sep (b ∷ bs) = elim (Bool-cases (nat_beq b sep)) [
  | inl y ↦ rw y (refl, split_on-sep sep bs)
  | inr n ↦ rw n (grow-Free sep b (split_on sep bs) n (split_on-sep sep bs))
]

split_on-Free : (sep c : ℕ) (t : Text) → has_byte c t ≡ false → Free c (split_on sep t)
unfolding split_on
split_on-Free sep c [] h = (refl, tt)
split_on-Free sep c (b ∷ bs) h =
    let rest : has_byte c bs ≡ false = ground (arith, h) in
    let head : nat_beq b c ≡ false = ground (arith, h) in
    elim (Bool-cases (nat_beq b sep)) [
      | inl y ↦ rw y (refl, split_on-Free sep c bs rest)
      | inr n ↦ rw n (grow-Free c b (split_on sep bs) head (split_on-Free sep c bs rest))
    ]

unified-free : (raw : Text) → has_byte backslash (unified raw) ≡ false
unified-free [] = refl
unified-free (b ∷ bs) = ground (arith, unified-free bs)

pub unified-same : (t : Text) → has_byte backslash t ≡ false → unified t ≡ t
unified-same [] h = refl
unified-same (b ∷ bs) h =
    let head : nat_beq b backslash ≡ false = ground (arith, h) in
    rw (head, unified-same bs (ground (arith, h))) refl

split_on-piece : (sep : ℕ) (p : Text) → has_byte sep p ≡ false → split_on sep p ≡ p ∷ []
unfolding split_on
split_on-piece sep [] h = refl
split_on-piece sep (b ∷ bs) h =
    let head : nat_beq b sep ≡ false = ground (arith, h) in
    rw (head, split_on-piece sep bs (ground (arith, h))) refl

split_on-append :
    (sep : ℕ) (p rest : Text)
    → has_byte sep p ≡ false
    → split_on sep (p ++ (sep ∷ rest)) ≡ p ∷ split_on sep rest
unfolding split_on
split_on-append sep [] rest h = (let same : nat_beq sep sep ≡ true = ground arith in rw same refl)
split_on-append sep (b ∷ bs) rest h =
    let head : nat_beq b sep ≡ false = ground (arith, h) in
    rw (head, split_on-append sep bs rest (ground (arith, h))) refl

split_on-join :
    (p : Text) (ps : List Text) → Free b'/' (p ∷ ps) → split_on b'/' (join_parts (p ∷ ps)) ≡ p ∷ ps
unfolding join_parts
split_on-join p [] f = split_on-piece b'/' p f.0
split_on-join p (q ∷ ps) f =
    split_on-append b'/' p (join_parts (q ∷ ps)) f.0 ∙ ap (λ z. p ∷ z) (split_on-join q ps f.1)

has_byte-append :
    (c : ℕ) (xs ys : Text)
    → has_byte c xs ≡ false
    → has_byte c ys ≡ false
    → has_byte c (xs ++ ys) ≡ false
has_byte-append c [] ys h k = k
has_byte-append c (x ∷ xs) ys h k = ground (arith, has_byte-append c xs ys, h, k)

join_parts-Free : (ps : List Text) → Free backslash ps → has_byte backslash (join_parts ps) ≡ false
unfolding join_parts
join_parts-Free [] f = refl
join_parts-Free (p ∷ []) f = f.0
join_parts-Free (p ∷ q ∷ ps) f =
    has_byte-append backslash p (b'/' ∷ join_parts (q ∷ ps)) f.0
      (ground (arith, join_parts-Free (q ∷ ps) f.1))

keep-Inert :
    (ss : List Text)
    → any is_parent ss ≡ false
    → Free b'/' ss
    → Free backslash ss
    → All Inert (keep is_named ss)
unfolding keep any
keep-Inert [] n f g = tt
keep-Inert (s ∷ ss) n f g = elim (Bool-cases (is_named s)) [
  | inl y ↦ rw y (((y, ground (arith, n)), (f.0, g.0)), keep-Inert ss (ground (arith, n)) f.1 g.1)
  | inr m ↦ rw m (keep-Inert ss (ground (arith, n)) f.1 g.1)
]

Inert-keep : (ps : List Text) → All Inert ps → (keep is_named ps ≡ ps) × (any is_parent ps ≡ false)
unfolding keep any
Inert-keep [] a = (refl, refl)
Inert-keep (p ∷ ps) a =
    let (k, m) = Inert-keep ps a.1 in (rw a.0.0.0 (ap (λ z. p ∷ z) k), rw (a.0.0.1, m) refl)

Inert-Free : (ps : List Text) → All Inert ps → Free b'/' ps × Free backslash ps
Inert-Free [] a = (tt, tt)
Inert-Free (p ∷ ps) a = let (f, g) = Inert-Free ps a.1 in ((a.0.1.0, f), (a.0.1.1, g))

starts_inside :
    (p : Text) (ps : List Text) → Inert p → starts_with b'/' (join_parts (p ∷ ps)) ≡ false
unfolding join_parts
starts_inside [] ps i = absurd (let k = i.0.0 in cc)
starts_inside (b ∷ bs) [] i = ground (arith, i.1.0)
starts_inside (b ∷ bs) (q ∷ ps) i = ground (arith, i.1.0)

-- What normalization makes of inert segments.
normalize-joined :
    (p : Text) (ps : List Text)
    → All Inert (p ∷ ps)
    → (split_on b'/' (join_parts (p ∷ ps)) ≡ p ∷ ps)
      × (normalize_relative_path (join_parts (p ∷ ps)) ≡ inside (join_parts (p ∷ ps)))
unfolding normalize_relative_path
normalize-joined p ps a =
    let (f, g) = Inert-Free (p ∷ ps) a in
    let same = unified-same (join_parts (p ∷ ps)) (join_parts-Free (p ∷ ps) g) in
    let back = split_on-join p ps f in
    let (kept, safe) = Inert-keep (p ∷ ps) a in
    (back, rw (same, starts_inside p ps a.0, back, safe, kept, normalize_relative_path) refl)

joined-inside :
    (ps : List Text) (p : Text)
    → joined ps ≡ inside p
    → (q : Text) × (qs : List Text) × (ps ≡ q ∷ qs) × (join_parts (q ∷ qs) ≡ p)
joined-inside [] p h = absurd (cc)
joined-inside (q ∷ qs) p h = (q, qs, refl, cc)

joined-Inert :
    (ps : List Text) (q : Text) (qs : List Text) (path : Text)
    → All Inert ps
    → ps ≡ q ∷ qs
    → join_parts (q ∷ qs) ≡ path
    → All Inert (split_on b'/' path) × (normalize_relative_path path ≡ inside path)
joined-Inert ps q qs path a e j =
    let (back, again) = normalize-joined q qs (subst (λ z. All Inert z) e a) in
    subst (λ z. All Inert (split_on b'/' z) × (normalize_relative_path z ≡ inside z)) j
      (subst (λ z. All Inert z) (e ∙ sym back) a, again)

-- A path that is accepted is inert: each of its segments is the name of an entry, none is empty, a
-- dot or two dots, and none has a slash or a backslash; and normalizing it again changes nothing.
pub normalize_relative_path-Inert :
    (raw path : Text)
    → normalize_relative_path raw ≡ inside path
    → All Inert (split_on b'/' path) × (normalize_relative_path path ≡ inside path)
unfolding normalize_relative_path
normalize_relative_path-Inert raw path h =
    let segments = split_on b'/' (unified raw) in
    elim (Bool-cases (starts_with b'/' (unified raw))) [
      | inl y ↦ absurd (let k = rw (y, normalize_relative_path) at h in cc)
      | inr n ↦ elim (Bool-cases (any is_parent segments)) [
        | inl y ↦ absurd (let k = rw (n, y, normalize_relative_path) at h in cc)
        | inr m ↦
            (let k = rw (n, m, normalize_relative_path) at h in
              let (q, qs, e, j) = joined-inside (keep is_named segments) path k in
              joined-Inert (keep is_named segments) q qs path
                (keep-Inert segments m (split_on-sep b'/' (unified raw))
                  (split_on-Free b'/' backslash (unified raw) (unified-free raw)))
                e j)
      ]
    ]

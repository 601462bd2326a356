-- ===== src/Yggdrasil/Uuid/Pieces.antt =====
-- Runs of hexadecimal digits, cut out of a text and put together.
use mathlib.Core.Bool.{Bool, true, false, not}
use loontail_minecraft_netwo.Prelude.{
  ℕ, zero, suc, ◌+◌, ◌≤◌, ◌<◌, ◌≡◌, refl, ap, ◌∙◌, [], ◌∷◌, ◌++◌, map, length, take, drop, all,
  keep, arith, and-eq-true,
}
use loontail_minecraft_netwo.Yggdrasil.Uuid.{
  Text, is_ascii_hexdigit, to_lower, is_dash, is_dash_place, places_hold,
}

pub is_hex-lower : (b : ℕ) → is_ascii_hexdigit b ≡ true → is_ascii_hexdigit (to_lower b) ≡ true
is_hex-lower b h = ground arith

pub is_dash-hex : (b : ℕ) → is_ascii_hexdigit b ≡ true → is_dash b ≡ false
is_dash-hex b h = ground arith

pub to_lower-lower : (b : ℕ) → to_lower (to_lower b) ≡ to_lower b
to_lower-lower b = ground arith

pub length-map : (f : ℕ → ℕ) (v : Text) → length (map f v) ≡ length v
length-map f [] = refl
length-map f (b ∷ bs) = ap suc (length-map f bs)

pub map-lower : (v : Text) → map to_lower (map to_lower v) ≡ map to_lower v
map-lower [] = refl
map-lower (b ∷ bs) = rw (to_lower-lower b, map-lower bs) refl

pub map-append : (f : ℕ → ℕ) (xs ys : Text) → map f (xs ++ ys) ≡ map f xs ++ map f ys
map-append f [] ys = refl
map-append f (x ∷ xs) ys = ap (λ t. f x ∷ t) (map-append f xs ys)

pub keep-append : (p : ℕ → Bool) (xs ys : Text) → keep p (xs ++ ys) ≡ keep p xs ++ keep p ys
unfolding keep
keep-append p [] ys = refl
keep-append p (x ∷ xs) ys = ground (arith, keep-append p xs ys)

pub all-lower :
    (v : Text) → all is_ascii_hexdigit v ≡ true → all is_ascii_hexdigit (map to_lower v) ≡ true
unfolding all
all-lower [] h = refl
all-lower (b ∷ bs) h =
    let (x, y) = and-eq-true (is_ascii_hexdigit b) (all is_ascii_hexdigit bs) h in
    rw (is_hex-lower b x, all-lower bs y) refl

-- Some hexadecimal digits, so many.
abbrev pub Piece : ℕ → Text → Type 0
Piece n xs = (length xs ≡ n) × (all is_ascii_hexdigit xs ≡ true)

pub Piece-lower : (n : ℕ) (xs : Text) → Piece n xs → Piece n (map to_lower xs)
Piece-lower n xs p = (length-map to_lower xs ∙ p.0, all-lower xs p.1)

pub Piece-append : (n m : ℕ) (xs ys : Text) → Piece n xs → Piece m ys → Piece (n + m) (xs ++ ys)
unfolding all
Piece-append n m [] ys p q = (omega (arith, p.0, q.0), q.1)
Piece-append n m (x ∷ xs) ys p q =
    let (h, t) = and-eq-true (is_ascii_hexdigit x) (all is_ascii_hexdigit xs) p.1 in
    let rest = Piece-append (length xs) m xs ys (refl, t) q in
    (omega (arith, rest.0, p.0), rw (h, rest.1) refl)

pub keep-piece : (xs : Text) → all is_ascii_hexdigit xs ≡ true → keep (λ b. not (is_dash b)) xs ≡ xs
unfolding all keep
keep-piece [] h = refl
keep-piece (x ∷ xs) h =
    let (a, t) = and-eq-true (is_ascii_hexdigit x) (all is_ascii_hexdigit xs) h in
    rw (is_dash-hex x a, keep-piece xs t) refl

-- The first piece of several.
pub split-Piece :
    (n m : ℕ) (v : Text)
    → Piece (n + m) v
    → (x : Text) × (y : Text) × (v ≡ x ++ y) × Piece n x × Piece m y
unfolding all
split-Piece zero m v p = ([], v, refl, (refl, refl), (omega (arith, p.0), p.1))
split-Piece (suc n) m [] p = absurd (omega (arith, p.0))
split-Piece (suc n) m (b ∷ v) p =
    let (h, t) = and-eq-true (is_ascii_hexdigit b) (all is_ascii_hexdigit v) p.1 in
    let (x, y, e, q, r) = split-Piece n m v (omega (arith, p.0), t) in
    (b ∷ x, y, ap (λ z. b ∷ z) e, (ap suc q.0, rw (h, q.1) refl), r)

-- No dash stands at the indices from `i` on, so many of them.
abbrev pub Undashed : ℕ → ℕ → Type 0
Undashed i n = (j : ℕ) → i ≤ j → j < i + n → is_dash_place j ≡ false

pub later : (i n : ℕ) → Undashed i (suc n) → Undashed (suc i) n
later i n u j a b = u j (omega arith) (omega arith)

pub places_hold-Piece :
    (i n : ℕ) (xs rest : Text)
    → Undashed i n
    → Piece n xs
    → places_hold i (xs ++ rest) ≡ places_hold (i + n) rest
unfolding all places_hold
places_hold-Piece i zero [] rest u p = (let same : i + 0 ≡ i = omega arith in rw same refl)
places_hold-Piece i (suc n) [] rest u p = absurd (omega (arith, p.0))
places_hold-Piece i zero (x ∷ xs) rest u p = absurd (omega (arith, p.0))
places_hold-Piece i (suc n) (x ∷ xs) rest u p =
    let (h, t) = and-eq-true (is_ascii_hexdigit x) (all is_ascii_hexdigit xs) p.1 in
    let here = u i (omega arith) (omega arith) in
    let next = places_hold-Piece (suc i) n xs rest (later i n u) (omega (arith, p.0), t) in
    let moved : i + suc n ≡ suc i + n = omega arith in rw (here, h, moved) next

pub split_places :
    (i n m : ℕ) (v : Text)
    → length v ≡ n + m
    → Undashed i n
    → places_hold i v ≡ true
    → (x : Text) × (y : Text) × (v ≡ x ++ y)
      × Piece n x
      × (length y ≡ m)
      × (places_hold (i + n) y ≡ true)
unfolding all places_hold
split_places i zero m v l u h =
    let same : i + 0 ≡ i = omega arith in ([], v, refl, (refl, refl), omega (arith, l), rw same h)
split_places i (suc n) m [] l u h = absurd (omega (arith, l))
split_places i (suc n) m (b ∷ v) l u h =
    let here = u i (omega arith) (omega arith) in
    let k = rw here at h in
    let (a, t) = and-eq-true (is_ascii_hexdigit b) (places_hold (suc i) v) k in
    let moved : i + suc n ≡ suc i + n = omega arith in
    let (x, y, e, q, r, z) = split_places (suc i) n m v (omega (arith, l)) (later i n u) t in
    (b ∷ x, y, ap (λ z. b ∷ z) e, (ap suc q.0, rw (a, q.1) refl), r, rw moved z)

pub append_nil : (xs : Text) → xs ++ [] ≡ xs
append_nil [] = refl
append_nil (x ∷ xs) = ap (λ t. x ∷ t) (append_nil xs)

pub take-piece : (n : ℕ) (xs ys : Text) → length xs ≡ n → take n (xs ++ ys) ≡ xs
take-piece zero [] ys l = refl
take-piece (suc n) [] ys l = absurd (omega (arith, l))
take-piece zero (x ∷ xs) ys l = absurd (omega (arith, l))
take-piece (suc n) (x ∷ xs) ys l = ap (λ t. x ∷ t) (take-piece n xs ys (omega (arith, l)))

pub take-all : (n : ℕ) (xs : Text) → length xs ≡ n → take n xs ≡ xs
take-all zero [] l = refl
take-all (suc n) [] l = absurd (omega (arith, l))
take-all zero (x ∷ xs) l = absurd (omega (arith, l))
take-all (suc n) (x ∷ xs) l = ap (λ t. x ∷ t) (take-all n xs (omega (arith, l)))

pub drop-piece :
    (k n m : ℕ) (xs ys : Text) → k ≡ n + m → length xs ≡ n → drop k (xs ++ ys) ≡ drop m ys
drop-piece k n m [] ys e l = (let same : k ≡ m = omega (arith, e, l) in rw same refl)
drop-piece zero n m (x ∷ xs) ys e l = absurd (omega (arith, e, l))
drop-piece (suc k) n m (x ∷ xs) ys e l = drop-piece k (length xs) m xs ys (omega (arith, e, l)) refl

-- ===== src/Prelude/Lists.antt =====
-- Lists measured and searched by native numbers and Boolean tests.
use Prim.Native.Nat.{ℕ, zero, suc, ◌+◌, ◌≤◌}
use mathlib.Core.Path.{◌≡◌, refl, subst}
use mathlib.Core.Bool.{Bool, true, false, ◌&&◌, ◌||◌}
use mathlib.Core.List.{List, [], ◌∷◌, ◌++◌}
use mathlib.Core.Logic.{inl, inr}
use mathlib.Core.Option.{Option, none, some}
use native.Mathlib.Omega.{arith}
use loontail_minecraft_netwo.Prelude.Tests.{if◌then◌else◌, Bool-cases}

module _ {ℓ} {A : Type ℓ} where
  abbrev pub length : List A → ℕ
  length [] = 0
  length (x ∷ xs) = suc (length xs)

  abbrev pub take : ℕ → List A → List A
  take zero xs = []
  take (suc n) [] = []
  take (suc n) (x ∷ xs) = x ∷ take n xs

  abbrev pub drop : ℕ → List A → List A
  drop zero xs = xs
  drop (suc n) [] = []
  drop (suc n) (x ∷ xs) = drop n xs

  abbrev pub replicate : ℕ → A → List A
  replicate zero a = []
  replicate (suc n) a = a ∷ replicate n a

  abbrev pub last? : List A → Option A
  last? [] = none
  last? (x ∷ []) = some x
  last? (x ∷ y ∷ xs) = last? (y ∷ xs)

  pub length-append : (xs ys : List A) → length (xs ++ ys) ≡ length xs + length ys
  length-append [] ys = omega arith
  length-append (x ∷ xs) ys = omega (arith, length-append xs ys)

  -- The elements that pass a test, in order.
  unfoldable pub keep : (A → Bool) → List A → List A
  keep p [] = []
  keep p (x ∷ xs) = let rest = keep p xs in if p x then x ∷ rest else rest

  unfoldable pub any : (A → Bool) → List A → Bool
  any p [] = false
  any p (x ∷ xs) = p x || any p xs

  unfoldable pub all : (A → Bool) → List A → Bool
  all p [] = true
  all p (x ∷ xs) = p x && all p xs

  -- The first element that passes a test.
  unfoldable pub find : (A → Bool) → List A → Option A
  find p [] = none
  find p (x ∷ xs) = let rest = find p xs in if p x then some x else rest

  unfoldable pub count_where : (A → Bool) → List A → ℕ
  count_where p [] = 0
  count_where p (x ∷ xs) = if p x then suc (count_where p xs) else count_where p xs

  -- Change the elements that pass a test.
  unfoldable pub update_where : (A → Bool) → (A → A) → List A → List A
  update_where p f [] = []
  update_where p f (x ∷ xs) = (if p x then f x else x) ∷ update_where p f xs

  -- A predicate of every element.
  abbrev pub All {κ} : (A → Type κ) → List A → Type κ
  All P [] = Unit
  All P (x ∷ xs) = P x × All P xs

  pub length-keep-le : (p : A → Bool) (xs : List A) → length (keep p xs) ≤ length xs
  unfolding keep
  length-keep-le p [] = omega arith
  length-keep-le p (x ∷ xs) = ground (arith, length-keep-le p xs)

  -- A change that keeps the searched property finds the changed element.
  pub find-update_where :
      (p q : A → Bool) (f : A → A) (xs : List A)
      → ((x : A) → p (f x) ≡ p x)
      → find p (update_where q f xs)
        ≡ elim (find p xs) [ none ↦ none | some x ↦ some (if q x then f x else x) ]
  unfolding find update_where
  find-update_where p q f [] h = refl
  find-update_where p q f (x ∷ xs) h = ground (arith, find-update_where p q f xs h, h x)

  pub find_sound : (p : A → Bool) (xs : List A) (x : A) → find p xs ≡ some x → p x ≡ true
  unfolding find
  find_sound p [] x h = cc
  find_sound p (y ∷ xs) x h = elim (Bool-cases (p y)) [
    | inl e ↦ ground (arith)
    | inr e ↦ find_sound p xs x (ground arith)
  ]

  pub All-append {κ} : (P : A → Type κ) (xs ys : List A) → All P xs → All P ys → All P (xs ++ ys)
  All-append P [] ys h k = k
  All-append P (x ∷ xs) ys h k = (h.0, All-append P xs ys h.1 k)

  pub find-All {κ} :
      (P : A → Type κ) (p : A → Bool) (xs : List A) {x : A} → All P xs → find p xs ≡ some x → P x
  unfolding find
  find-All P p [] h e = absurd (cc)
  find-All P p (y ∷ xs) {x} h e = elim (Bool-cases (p y)) [
    | inl t ↦ (let same : y ≡ x = ground arith in subst P same h.0)
    | inr f ↦ find-All P p xs h.1 (ground arith)
  ]

  pub All-update_where {κ} :
      (P : A → Type κ) (q : A → Bool) (f : A → A) (xs : List A)
      → ((x : A) → P x → P (f x))
      → All P xs
      → All P (update_where q f xs)
  unfolding update_where
  All-update_where P q f [] h a = tt
  All-update_where P q f (x ∷ xs) h a = elim (Bool-cases (q x)) [
    | inl t ↦ rw t (h x a.0, All-update_where P q f xs h a.1)
    | inr n ↦ rw n (a.0, All-update_where P q f xs h a.1)
  ]

  pub All-map {κ μ} :
      (P : A → Type κ) (Q : A → Type μ) (xs : List A) → ((x : A) → P x → Q x) → All P xs → All Q xs
  All-map P Q [] h a = tt
  All-map P Q (x ∷ xs) h a = (h x a.0, All-map P Q xs h a.1)

  -- A change after which no more elements pass than before.
  pub count_where-update-le :
      (p q : A → Bool) (f : A → A) (xs : List A)
      → ((x : A) → q x ≡ true → p (f x) ≡ true → p x ≡ true)
      → count_where p (update_where q f xs) ≤ count_where p xs
  unfolding count_where update_where
  count_where-update-le p q f [] h = omega arith
  count_where-update-le p q f (x ∷ xs) h = ground (arith, count_where-update-le p q f xs h, h x)

  pub count_where-of_any : (p : A → Bool) (xs : List A) → any p xs ≡ false → count_where p xs ≡ 0
  unfolding count_where any
  count_where-of_any p [] h = refl
  count_where-of_any p (x ∷ xs) h = ground (arith, count_where-of_any p xs)

  pub any-witness : (p : A → Bool) (xs : List A) → any p xs ≡ true → (x : A) × (p x ≡ true)
  unfolding any
  any-witness p [] h = absurd (cc)
  any-witness p (x ∷ xs) h = elim (Bool-cases (p x)) [
    | inl t ↦ (x, t)
    | inr f ↦ any-witness p xs (ground arith)
  ]

  -- What `keep` leaves of a predicate, a count and a test.
  pub All-keep {κ} : (P : A → Type κ) (q : A → Bool) (xs : List A) → All P xs → All P (keep q xs)
  unfolding keep
  All-keep P q [] a = tt
  All-keep P q (x ∷ xs) a = elim (Bool-cases (q x)) [
    | inl t ↦ rw t (a.0, All-keep P q xs a.1)
    | inr n ↦ rw n (All-keep P q xs a.1)
  ]

  pub count_where-keep-le :
      (p q : A → Bool) (xs : List A) → count_where p (keep q xs) ≤ count_where p xs
  unfolding keep count_where
  count_where-keep-le p q [] = omega arith
  count_where-keep-le p q (x ∷ xs) = ground (arith, count_where-keep-le p q xs)

  pub any-keep-false : (p q : A → Bool) (xs : List A) → any p xs ≡ false → any p (keep q xs) ≡ false
  unfolding keep any
  any-keep-false p q [] h = refl
  any-keep-false p q (x ∷ xs) h = ground (arith, any-keep-false p q xs)

  pub count_where-or-le :
      (p q : A → Bool) (xs : List A)
      → count_where (λ x. p x || q x) xs ≤ count_where p xs + count_where q xs
  unfolding count_where
  count_where-or-le p q [] = omega arith
  count_where-or-le p q (x ∷ xs) = ground (arith, count_where-or-le p q xs)

  pub length-take-le : (n : ℕ) (xs : List A) → length (take n xs) ≤ n
  length-take-le zero xs = omega arith
  length-take-le (suc n) [] = omega arith
  length-take-le (suc n) (x ∷ xs) = omega (arith, length-take-le n xs)

-- ===== src/Core/Identity/Table.antt =====
-- The table of users keeps its keys unique when a row is added, or changed by its id.
use mathlib.Core.Bool.{Bool, true, false, not}
use loontail_minecraft_netwo.Prelude.{
  ℕ, ◌≤◌, ◌≡◌, refl, ap, Option, none, some, List, [], ◌∷◌, any, find, keep, update_where,
  count_where, count_where-keep-le, All, arith, Bool-cases, inl, inr, ==-sound, ==-refl,
}
use loontail_minecraft_netwo.Prelude.Text.{bytes_eq}
use loontail_minecraft_netwo.Core.Account.{Text, Account}
use loontail_minecraft_netwo.Core.Tokens.{has_account_id}
use loontail_minecraft_netwo.Core.Identity.{both_same, clashes}

abbrev pub Key : Type 0
Key = Account → Option Text

abbrev pub has_key : Key → Text → Account → Bool
has_key key k a = both_same (key a) (some k)

abbrev pub IsUnique : Key → List Account → Type 0
IsUnique key xs = (k : Text) → count_where (has_key key k) xs ≤ 1

pub key_of : (o : Option Text) (k : Text) → both_same o (some k) ≡ true → o ≡ some k
key_of none k h = absurd (cc)
key_of (some a) k h = ap (λ z. some z) (==-sound a k h)

clash_free :
    (key : Key) (row : Account) (k : Text) (xs : List Account)
    → clashes key row xs ≡ false
    → has_key key k row ≡ true
    → count_where (has_key key k) xs ≡ 0
unfolding any count_where
clash_free key row k [] c h = refl
clash_free key row k (x ∷ xs) c h = elim (Bool-cases (has_key key k x)) [
  | inl y ↦
      (let same = ==-refl k in
        let j = rw (key_of (key row) k h, key_of (key x) k y, same) at c in absurd (cc))
  | inr n ↦ rw n (clash_free key row k xs (ground (arith, c)) h)
]

pub added-IsUnique :
    (key : Key) (row : Account) (xs : List Account)
    → clashes key row xs ≡ false
    → IsUnique key xs
    → IsUnique key (row ∷ xs)
unfolding count_where
added-IsUnique key row xs c u k = elim (Bool-cases (has_key key k row)) [
  | inl y ↦ rw y (omega (arith, clash_free key row k xs c y))
  | inr n ↦ rw n (u k)
]

abbrev pub others : ℕ → List Account → List Account
others id xs = keep (λ b. not (has_account_id id b)) xs

count_where-one :
    (id : ℕ) (p : Account → Bool) (f : Account → Account) (xs : List Account)
    → count_where (has_account_id id) xs ≡ 0
    → (update_where (has_account_id id) f xs ≡ xs) × (others id xs ≡ xs)
unfolding count_where update_where keep
count_where-one id p f [] h = (refl, refl)
count_where-one id p f (x ∷ xs) h = elim (Bool-cases (has_account_id id x)) [
  | inl y ↦ absurd (let k = rw y at h in omega (arith, k))
  | inr n ↦
      (let (a, b) = count_where-one id p f xs (ground (arith, n, h)) in
        rw n (ap (λ z. x ∷ z) a, ap (λ z. x ∷ z) b))
]

-- A change by id, seen by a count: the changed row and the others.
count_where-changed :
    (id : ℕ) (p : Account → Bool) (f : Account → Account) (xs : List Account) (a : Account)
    → count_where (has_account_id id) xs ≤ 1
    → find (has_account_id id) xs ≡ some a
    → count_where p (update_where (has_account_id id) f xs) ≡ count_where p (f a ∷ others id xs)
unfolding count_where update_where keep find
count_where-changed id p f [] a c e = absurd (cc)
count_where-changed id p f (x ∷ xs) a c e = elim (Bool-cases (has_account_id id x)) [
  | inl y ↦
      (let k = rw y at e in
        let same : x ≡ a = cc in
        let (u, v) = count_where-one id p f xs (ground (arith, y, c)) in rw (y, u, v, same) refl)
  | inr n ↦
      (let k = rw n at e in
        let rest = count_where-changed id p f xs a (ground (arith, n, c)) k in
        rw n (ground (arith, rest)))
]

others-le :
    (id : ℕ) (p : Account → Bool) (xs : List Account)
    → count_where p (others id xs) ≤ count_where p xs
others-le id p xs = count_where-keep-le p (λ b. not (has_account_id id b)) xs

pub changed-IsUnique :
    (key : Key) (id : ℕ) (f : Account → Account) (xs : List Account) (a : Account)
    → count_where (has_account_id id) xs ≤ 1
    → find (has_account_id id) xs ≡ some a
    → clashes key (f a) (others id xs) ≡ false
    → IsUnique key xs
    → IsUnique key (update_where (has_account_id id) f xs)
changed-IsUnique key id f xs a c e free u k =
    let moved = count_where-changed id (has_key key k) f xs a c e in
    let new : IsUnique key (f a ∷ others id xs) =
      added-IsUnique key (f a) (others id xs) free
        (λ j. omega (arith, others-le id (has_key key j) xs, u j)) in
    omega (arith, moved, new k)

-- A change by id reaches only the row that is found.
pub All-changed :
    (P : Account → Type 0) (id : ℕ) (f : Account → Account) (xs : List Account) (a : Account)
    → count_where (has_account_id id) xs ≤ 1
    → find (has_account_id id) xs ≡ some a
    → P (f a)
    → All P xs
    → All P (update_where (has_account_id id) f xs)
unfolding count_where update_where find
All-changed P id f [] a c e p h = tt
All-changed P id f (x ∷ xs) a c e p h = elim (Bool-cases (has_account_id id x)) [
  | inl y ↦
      (let k = rw y at e in
        let same : x ≡ a = cc in
        let (u, v) = count_where-one id (λ b. true) f xs (ground (arith, y, c)) in
        rw (y, u, same) (p, h.1))
  | inr n ↦
      (let k = rw n at e in rw n (h.0, All-changed P id f xs a (ground (arith, n, c)) k p h.1))
]

-- A row that is found by another test is the one that its id finds.
pub find-by_id :
    (q : Account → Bool) (xs : List Account) (a : Account)
    → ((id : ℕ) → count_where (has_account_id id) xs ≤ 1)
    → find q xs ≡ some a
    → (find (has_account_id a.id) xs ≡ some a) × (1 ≤ count_where (has_account_id a.id) xs)
unfolding count_where find
find-by_id q [] a c e = absurd (cc)
find-by_id q (x ∷ xs) a c e = elim (Bool-cases (q x)) [
  | inl y ↦
      (let k = rw y at e in
        let same : x ≡ a = cc in
        let self : has_account_id a.id a ≡ true = ground arith in
        rw (same, self) (refl, omega arith))
  | inr n ↦
      (let k = rw n at e in
        let (f, g) = find-by_id q xs a (λ id. ground (arith, c id)) k in
        elim (Bool-cases (has_account_id a.id x)) [
          | inl y ↦ absurd (let j = c a.id in let i = rw y at j in omega (arith, i, g))
          | inr m ↦ rw m (f, g)
        ])
]

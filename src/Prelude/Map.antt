-- ===== src/Prelude/Map.antt =====
-- Rust's `HashMap` as an association list whose keys are distinct.
use Prim.Native.Nat.{suc, ◌≤◌}
use mathlib.Core.Path.{◌≡◌, refl}
use mathlib.Core.Bool.{Bool, true, false}
use mathlib.Core.Logic.{◌≢◌, inl, inr}
use mathlib.Core.List.{List, [], ◌∷◌}
use mathlib.Core.Option.{Option, none, some}
use native.Mathlib.Omega.{arith}
use loontail_minecraft_netwo.Prelude.Tests.{Eq, ◌==◌, ==-sound, if◌then◌else◌, Bool-cases}
use loontail_minecraft_netwo.Prelude.Lists.{length}

module _ {ℓ κ} {K : Type ℓ} {V : Type κ} where
  unfoldable pub retain : (K → V → Bool) → List (K × V) → List (K × V)
  retain p [] = []
  retain p ((k, v) ∷ m) = let rest = retain p m in if p k v then (k, v) ∷ rest else rest

module _ {ℓ κ} {K : Type ℓ} {V : Type κ} ⦃e : Eq K⦄ where
  unfoldable pub lookup : K → List (K × V) → Option V
  lookup k [] = none
  lookup k ((j, v) ∷ m) = if j == k then some v else lookup k m

  unfoldable pub contains_key : K → List (K × V) → Bool
  contains_key k [] = false
  contains_key k ((j, v) ∷ m) = if j == k then true else contains_key k m

  -- Replace the value of a present key, or add the pair.
  unfoldable pub insert : K → V → List (K × V) → List (K × V)
  insert k v [] = (k, v) ∷ []
  insert k v ((j, w) ∷ m) = if j == k then (k, v) ∷ m else (j, w) ∷ insert k v m

  unfoldable pub remove : K → List (K × V) → List (K × V)
  remove k [] = []
  remove k ((j, w) ∷ m) = if j == k then m else (j, w) ∷ remove k m

  abbrev pub Distinct : List (K × V) → Type 0
  Distinct [] = Unit {0}
  Distinct ((k, v) ∷ m) = (contains_key k m ≡ false) × Distinct m

  -- What a lookup sees after each write.
  pub lookup-insert :
      (key other : K) (new : V) (m : List (K × V))
      → lookup other (insert key new m) ≡ (if key == other then some new else lookup other m)
  unfolding lookup insert
  lookup-insert key other new [] = refl
  lookup-insert key other new ((i, old) ∷ m) =
      let rest = lookup-insert key other new m in
      ground (arith, e.same_iff key other, e.same_iff i key, e.same_iff i other, rest)

  pub lookup-none : (k : K) (m : List (K × V)) → contains_key k m ≡ false → lookup k m ≡ none
  unfolding lookup contains_key
  lookup-none k [] h = refl
  lookup-none k ((i, w) ∷ m) h = ground (arith, lookup-none k m)

  pub lookup-some :
      (k : K) (m : List (K × V)) → contains_key k m ≡ true → (v : V) × (lookup k m ≡ some v)
  unfolding lookup contains_key
  lookup-some k [] h = absurd (cc)
  lookup-some k ((i, w) ∷ m) h = elim (Bool-cases (i == k)) [
    | inl s ↦ (w, rw s refl)
    | inr n ↦ rw n (lookup-some k m (ground arith))
  ]

  pub contains_key-insert :
      (k j : K) (v : V) (m : List (K × V))
      → contains_key j (insert k v m) ≡ (if k == j then true else contains_key j m)
  unfolding contains_key insert
  contains_key-insert k j v [] = refl
  contains_key-insert k j v ((i, w) ∷ m) =
      ground (arith, e.same_iff k j, e.same_iff i k, e.same_iff i j, contains_key-insert k j v m)

  pub contains_key-remove-false :
      (k j : K) (m : List (K × V)) → contains_key j m ≡ false → contains_key j (remove k m) ≡ false
  unfolding contains_key remove
  contains_key-remove-false k j [] h = refl
  contains_key-remove-false k j ((i, w) ∷ m) h = ground (arith, contains_key-remove-false k j m)

  pub contains_key-remove_ne :
      (k j : K) (m : List (K × V)) → k ≢ j → contains_key j (remove k m) ≡ contains_key j m
  unfolding contains_key remove
  contains_key-remove_ne k j [] h = refl
  contains_key-remove_ne k j ((i, w) ∷ m) h =
      ground (arith, e.same_iff i k, e.same_iff i j, contains_key-remove_ne k j m h)

  pub contains_key-retain-false :
      (p : K → V → Bool) (j : K) (m : List (K × V))
      → contains_key j m ≡ false
      → contains_key j (retain p m) ≡ false
  unfolding contains_key retain
  contains_key-retain-false p j [] h = refl
  contains_key-retain-false p j ((i, w) ∷ m) h = ground (arith, contains_key-retain-false p j m)

  pub lookup-remove :
      (k j : K) (m : List (K × V))
      → Distinct m
      → lookup j (remove k m) ≡ (if k == j then none else lookup j m)
  unfolding lookup remove
  lookup-remove k j [] d = ground arith
  lookup-remove k j ((i, w) ∷ m) d = ground (
    arith,
    e.same_iff k j,
    e.same_iff i k,
    e.same_iff i j,
    lookup-remove k j m d.1,
    lookup-none i m d.0,
  )

  -- `retain` keeps exactly the bindings that pass.
  pub lookup-retain :
      (p : K → V → Bool) (j : K) (m : List (K × V))
      → Distinct m
      → lookup j (retain p m)
        ≡ elim (lookup j m) [ none ↦ none | some v ↦ if p j v then some v else none ]
  unfolding lookup retain
  lookup-retain p j [] d = refl
  lookup-retain p j ((i, w) ∷ m) d = elim (Bool-cases (i == j)) [
    | inl s ↦
        let same = ==-sound i j s in
        let gone = lookup-none j (retain p m) (contains_key-retain-false p j m (rw (← same) d.0)) in
        rw s (rw same (ground (arith, gone, e.same_iff j j)))
    | inr n ↦ ground (arith, lookup-retain p j m d.1)
  ]

  pub insert-Distinct : (k : K) (v : V) (m : List (K × V)) → Distinct m → Distinct (insert k v m)
  unfolding insert contains_key
  insert-Distinct k v [] d = (refl, tt)
  insert-Distinct k v ((i, w) ∷ m) d = elim (Bool-cases (i == k)) [
    | inl s ↦ rw s (rw (← ==-sound i k s) d)
    | inr n ↦ rw n (
      ground (arith, contains_key-insert k i v m, e.same_iff k i, e.same_iff i k),
      insert-Distinct k v m d.1,
    )
  ]

  pub remove-Distinct : (k : K) (m : List (K × V)) → Distinct m → Distinct (remove k m)
  unfolding remove
  remove-Distinct k [] d = tt
  remove-Distinct k ((i, w) ∷ m) d = elim (Bool-cases (i == k)) [
    | inl s ↦ rw s d.1
    | inr n ↦ rw n (contains_key-remove-false k i m d.0, remove-Distinct k m d.1)
  ]

  pub retain-Distinct : (p : K → V → Bool) (m : List (K × V)) → Distinct m → Distinct (retain p m)
  unfolding retain
  retain-Distinct p [] d = tt
  retain-Distinct p ((i, w) ∷ m) d = elim (Bool-cases (p i w)) [
    | inl s ↦ rw s (contains_key-retain-false p i m d.0, retain-Distinct p m d.1)
    | inr n ↦ rw n (retain-Distinct p m d.1)
  ]

  -- Sizes.
  pub length-insert_new :
      (k : K) (v : V) (m : List (K × V))
      → contains_key k m ≡ false
      → length (insert k v m) ≡ suc (length m)
  unfolding insert contains_key
  length-insert_new k v [] h = refl
  length-insert_new k v ((i, w) ∷ m) h = ground (arith, length-insert_new k v m)

  pub length-insert_old :
      (k : K) (v : V) (m : List (K × V))
      → contains_key k m ≡ true
      → length (insert k v m) ≡ length m
  unfolding insert contains_key
  length-insert_old k v [] h = absurd (cc)
  length-insert_old k v ((i, w) ∷ m) h = ground (arith, length-insert_old k v m)

  pub length-remove_present :
      (k : K) (m : List (K × V)) → contains_key k m ≡ true → suc (length (remove k m)) ≡ length m
  unfolding remove contains_key
  length-remove_present k [] h = absurd (cc)
  length-remove_present k ((i, w) ∷ m) h = ground (arith, length-remove_present k m)

module _ {ℓ κ} {K : Type ℓ} {V : Type κ} where
  pub length-retain-le : (p : K → V → Bool) (m : List (K × V)) → length (retain p m) ≤ length m
  unfolding retain
  length-retain-le p [] = omega arith
  length-retain-le p ((k, v) ∷ m) = ground (arith, length-retain-le p m)

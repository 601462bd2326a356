-- ===== src/Server/RateLimit/Capacity.antt =====
-- Memory stays bounded: the eviction removes exactly its batch, and the table never passes its cap.
use mathlib.Core.Bool.{Bool, true, false}
use loontail_minecraft_netwo.Prelude.{
  ℕ, suc, zero, ◌+◌, ◌≤◌, ◌<◌, ◌≡◌, ◌⊎◌, refl, ap, sym, ◌∙◌, Option, List, [], ◌∷◌, length, take,
  map, min, leb, nat_beq, if◌then◌else◌, arith, Bool-cases, inl, inr, ◌==◌,
}
use loontail_minecraft_netwo.Prelude.Map.{
  contains_key, remove, Distinct, length-insert_new, length-insert_old, length-remove_present,
  contains_key-remove_ne,
}
use loontail_minecraft_netwo.Server.Ip.{IpAddr, ip_eq, ip_beq_iff}
use loontail_minecraft_netwo.Server.RateLimit.{
  Settings, Buckets, limiter_key, cutoff_at, admit, sweep_if_due, make_room, bucket_of, check_at,
  max_tracked_ips, evict_batch, evict_stalest, insert_recency, sort_recency, recency_le, recency_of,
  remove_all,
}
use loontail_minecraft_netwo.Server.RateLimit.Validity.{victims, length-sweep-le, sweep-Distinct}

abbrev Recency : Type 0
Recency = List (Option ℕ × IpAddr)

has_key : IpAddr → Recency → Bool
has_key j [] = false
has_key j ((t, k) ∷ xs) = if k == j then true else has_key j xs

abbrev DistinctKeys : Recency → Type 0
DistinctKeys [] = Unit {0}
DistinctKeys ((t, k) ∷ xs) = (has_key k xs ≡ false) × DistinctKeys xs

abbrev Present : Recency → List (IpAddr × List ℕ) → Type 0
Present xs m = (j : IpAddr) → has_key j xs ≡ true → contains_key j m ≡ true

has_key-insert :
    (j : IpAddr) (x : Option ℕ × IpAddr) (ys : Recency)
    → has_key j (insert_recency x ys) ≡ has_key j (x ∷ ys)
unfolding has_key insert_recency
has_key-insert j (t, k) [] = refl
has_key-insert j (t, k) ((u, i) ∷ ys) = elim (Bool-cases (recency_le (t, k) (u, i))) [
  | inl e ↦ rw e
  | inr e ↦ rw e (ground (arith, has_key-insert j (t, k) ys))
]

insert-DistinctKeys :
    (t : Option ℕ) (k : IpAddr) (ys : Recency)
    → has_key k ys ≡ false
    → DistinctKeys ys
    → DistinctKeys (insert_recency (t, k) ys)
unfolding has_key insert_recency
insert-DistinctKeys t k [] h d = (refl, tt)
insert-DistinctKeys t k ((u, i) ∷ ys) h d = elim (Bool-cases (recency_le (t, k) (u, i))) [
  | inl e ↦ rw e (h, d)
  | inr e ↦ rw e (
    ground (arith, has_key-insert i (t, k) ys, ip_beq_iff i k, ip_beq_iff k i),
    insert-DistinctKeys t k ys (ground arith) d.1,
  )
]

has_key-sort : (j : IpAddr) (xs : Recency) → has_key j (sort_recency xs) ≡ has_key j xs
unfolding has_key sort_recency
has_key-sort j [] = refl
has_key-sort j ((t, k) ∷ xs) =
    has_key-insert j (t, k) (sort_recency xs) ∙ ground (arith, has_key-sort j xs)

sort-DistinctKeys : (xs : Recency) → DistinctKeys xs → DistinctKeys (sort_recency xs)
unfolding sort_recency
sort-DistinctKeys [] d = tt
sort-DistinctKeys ((t, k) ∷ xs) d =
    insert-DistinctKeys t k (sort_recency xs) (has_key-sort k xs ∙ d.0) (sort-DistinctKeys xs d.1)

has_key-recency :
    (j : IpAddr) (m : List (IpAddr × List ℕ)) → has_key j (map recency_of m) ≡ contains_key j m
unfolding has_key contains_key
has_key-recency j [] = refl
has_key-recency j ((k, b) ∷ m) = ground (arith, has_key-recency j m)

recency-DistinctKeys : (m : List (IpAddr × List ℕ)) → Distinct m → DistinctKeys (map recency_of m)
recency-DistinctKeys [] d = tt
recency-DistinctKeys ((k, b) ∷ m) d = (has_key-recency k m ∙ d.0, recency-DistinctKeys m d.1)

has_key-take-false :
    (j : IpAddr) (n : ℕ) (xs : Recency) → has_key j xs ≡ false → has_key j (take n xs) ≡ false
unfolding has_key
has_key-take-false j zero xs h = refl
has_key-take-false j (suc n) [] h = refl
has_key-take-false j (suc n) ((t, k) ∷ xs) h = ground (arith, has_key-take-false j n xs)

has_key-of_take :
    (j : IpAddr) (n : ℕ) (xs : Recency) → has_key j (take n xs) ≡ true → has_key j xs ≡ true
unfolding has_key
has_key-of_take j zero xs h = absurd (cc)
has_key-of_take j (suc n) [] h = h
has_key-of_take j (suc n) ((t, k) ∷ xs) h = ground (arith, has_key-of_take j n xs)

take-DistinctKeys : (n : ℕ) (xs : Recency) → DistinctKeys xs → DistinctKeys (take n xs)
take-DistinctKeys zero xs d = tt
take-DistinctKeys (suc n) [] d = tt
take-DistinctKeys (suc n) ((t, k) ∷ xs) d =
    (has_key-take-false k n xs d.0, take-DistinctKeys n xs d.1)

length-insert_recency :
    (x : Option ℕ × IpAddr) (ys : Recency) → length (insert_recency x ys) ≡ suc (length ys)
unfolding insert_recency
length-insert_recency x [] = refl
length-insert_recency x (y ∷ ys) = elim (Bool-cases (recency_le x y)) [
  | inl e ↦ rw e
  | inr e ↦ rw e (ap suc (length-insert_recency x ys))
]

length-sort : (xs : Recency) → length (sort_recency xs) ≡ length xs
unfolding sort_recency
length-sort [] = refl
length-sort (x ∷ xs) = length-insert_recency x (sort_recency xs) ∙ ap suc (length-sort xs)

length-map_recency : (m : List (IpAddr × List ℕ)) → length (map recency_of m) ≡ length m
length-map_recency [] = refl
length-map_recency (x ∷ m) = ap suc (length-map_recency m)

length-take_min : (n : ℕ) (xs : Recency) → n ≤ length xs → length (take n xs) ≡ n
length-take_min zero xs h = refl
length-take_min (suc n) [] h = absurd (omega arith)
length-take_min (suc n) (x ∷ xs) h = ap suc (length-take_min n xs (omega arith))

length-remove_all :
    (xs : Recency) (m : List (IpAddr × List ℕ))
    → DistinctKeys xs
    → Present xs m
    → length (remove_all xs m) + length xs ≡ length m
unfolding remove_all has_key
length-remove_all [] m d p = omega arith
length-remove_all ((t, k) ∷ xs) m d p =
    let here : contains_key k m ≡ true = p k (ground (arith, ip_beq_iff k k)) in
    let later : Present xs (remove k m) =
      λ j h. rw (contains_key-remove_ne k j m (λ e. ground arith)) (p j (ground arith)) in
    omega (arith, length-remove_all xs (remove k m) d.1 later, length-remove_present k m here)

-- An eviction of `n` drops exactly `n` keys, or all of them where there are fewer.
length-evict :
    (n : ℕ) (b : Buckets)
    → Distinct b.map
    → length (evict_stalest n b).map + min n (length b.map) ≡ length b.map
unfolding evict_stalest
length-evict n b d =
    let all_keys = map recency_of b.map in
    let sorted = sort_recency all_keys in
    let size = length-sort all_keys ∙ length-map_recency b.map in
    let count = min n (length b.map) in
    let taken = length-take_min count sorted (omega arith) in
    let dropped =
      length-remove_all (victims n b) b.map
        (take-DistinctKeys count sorted (sort-DistinctKeys all_keys (recency-DistinctKeys b.map d)))
        (λ j h.
          sym (has_key-recency j b.map)
          ∙ sym (has_key-sort j all_keys)
          ∙ has_key-of_take j count sorted h) in
    elim (Bool-cases (nat_beq count 0)) [
      | inl e ↦ rw e (ground arith)
      | inr e ↦ rw e (omega (arith, dropped, taken))
    ]

length-make_room :
    (s : Settings) (key : IpAddr) (now : ℕ) (b : Buckets)
    → Distinct b.map
    → length b.map ≤ max_tracked_ips
    → (length (make_room s key now b).map < max_tracked_ips)
      ⊎ ((length (make_room s key now b).map ≤ max_tracked_ips)
          × (contains_key key (make_room s key now b).map ≡ true))
unfolding make_room
length-make_room s key now b d h =
    let c = cutoff_at s.window now in
    let swept = sweep_if_due now c s.window b in
    let evicted = length-evict evict_batch swept (sweep-Distinct now c s.window b d) in
    let smaller = length-sweep-le now c s.window b in
    elim (Bool-cases (leb max_tracked_ips (length swept.map))) [
      | inr e ↦ rw e (inl (ground arith))
      | inl e ↦ elim (Bool-cases (contains_key key swept.map)) [
        | inl f ↦ rw (e, f) (inr (omega arith, f))
        | inr f ↦ rw (e, f) (inl (ground (arith, evicted)))
      ]
    ]

-- A check of a table with one bucket to a key and at most `max_tracked_ips` of them leaves at
-- most that many, whatever the address and the clock.
pub check_at-capacity :
    (s : Settings) (ip : IpAddr) (now : ℕ) (b : Buckets)
    → Distinct b.map
    → length b.map ≤ max_tracked_ips
    → length (check_at s ip now b).1.map ≤ max_tracked_ips
unfolding check_at
check_at-capacity s ip now b d h =
    let key = limiter_key ip in
    let ready = make_room s key now b in
    let bucket = (admit s now (bucket_of key ready.map)).1 in
    elim (length-make_room s key now b d h) [
      | inr (le, old) ↦ omega (arith, length-insert_old key bucket ready.map old)
      | inl lt ↦ elim (Bool-cases (contains_key key ready.map)) [
        | inl old ↦ omega (arith, length-insert_old key bucket ready.map old)
        | inr fresh ↦ omega (arith, length-insert_new key bucket ready.map fresh)
      ]
    ]

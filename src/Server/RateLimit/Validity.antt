-- ===== src/Server/RateLimit/Validity.antt =====
-- What the sweep, the eviction and a check leave of the buckets.
use mathlib.Core.Bool.{false, ◌&&◌, not}
use loontail_minecraft_netwo.Prelude.{
  ℕ, ◌≤◌, ◌≡◌, ◌⊎◌, refl, sym, ◌∙◌, Option, List, [], ◌∷◌, length, keep, leb, if◌then◌else◌, arith,
  Bool-cases, Option-cases, inl, inr, ◌==◌, min,
}
use loontail_minecraft_netwo.Prelude.Map.{
  lookup, insert, retain, contains_key, Distinct, lookup-insert, lookup-retain, retain-Distinct,
  insert-Distinct, length-retain-le,
}
use loontail_minecraft_netwo.Server.Ip.{IpAddr, ip_eq}
use loontail_minecraft_netwo.Server.RateLimit.{
  Settings, Buckets, limiter_key, cutoff_at, admit, newest_above, is_due, sweep_if_due, make_room,
  bucket_of, check_at, max_tracked_ips, evict_batch, evict_stalest,
}
use loontail_minecraft_netwo.Server.RateLimit.Window.{
  after, Within, Within-raise, after_stale, Within-admit, length-admit-le,
}
use loontail_minecraft_netwo.Prelude.Map.{remove, remove-Distinct, lookup-remove}
use loontail_minecraft_netwo.Server.RateLimit.{remove_all, recency_of, sort_recency}
use loontail_minecraft_netwo.Prelude.{take, map, nat_beq}

-- What every reachable table satisfies: one bucket to a key, its hits in order and none later than
-- the clock, and never more of them than the budget.
pub record IsValid (s : Settings) (now : ℕ) (b : Buckets) : Type 0 where
  pub distinct : Distinct b.map
  pub ordered : (k : IpAddr) → Within 0 now (bucket_of k b.map)
  pub budget : (k : IpAddr) → length (bucket_of k b.map) ≤ s.max_attempts

pub bucket_of-insert :
    (k j : IpAddr) (bucket : List ℕ) (m : List (IpAddr × List ℕ))
    → bucket_of j (insert k bucket m) ≡ (if k == j then bucket else bucket_of j m)
unfolding bucket_of
bucket_of-insert k j bucket m = ground (arith, lookup-insert k j bucket m)

-- A retained bucket is the old one or gone, and if gone, its newest hit was stale.
pub bucket_of-retain :
    (c : ℕ) (k : IpAddr) (m : List (IpAddr × List ℕ))
    → Distinct m
    → (bucket_of k (retain (newest_above c) m) ≡ bucket_of k m)
      ⊎ ((bucket_of k (retain (newest_above c) m) ≡ [])
          × (newest_above c k (bucket_of k m) ≡ false))
unfolding bucket_of
bucket_of-retain c k m d = elim (Option-cases (lookup k m)) [
  | inl e ↦ inl (rw (lookup-retain (newest_above c) k m d, e, bucket_of) refl)
  | inr (v, e) ↦ elim (Bool-cases (newest_above c k v)) [
    | inl t ↦ inl (rw (lookup-retain (newest_above c) k m d, e, t, bucket_of) refl)
    | inr f ↦
        inr (rw (lookup-retain (newest_above c) k m d, e, f, bucket_of) refl, rw (e, bucket_of) f)
  ]
]

after_swept :
    (c now : ℕ) (k : IpAddr) (m : List (IpAddr × List ℕ))
    → Distinct m
    → Within 0 now (bucket_of k m)
    → after c (bucket_of k (retain (newest_above c) m)) ≡ after c (bucket_of k m)
unfolding keep
after_swept c now k m d w = elim (bucket_of-retain c k m d) [
  | inl e ↦ rw e
  | inr (e, stale) ↦ rw e (sym (after_stale c 0 now (bucket_of k m) w stale))
]

-- A sweep never touches a hit that still counts, whatever the key.
pub sweep_if_due-after :
    (c now window t : ℕ) (k : IpAddr) (b : Buckets)
    → Distinct b.map
    → Within 0 t (bucket_of k b.map)
    → after c (bucket_of k (sweep_if_due now c window b).map) ≡ after c (bucket_of k b.map)
unfolding sweep_if_due
sweep_if_due-after c now window t k b d w = elim (Bool-cases (is_due window now b.last_sweep)) [
  | inl e ↦ rw e (after_swept c t k b.map d w)
  | inr e ↦ rw e
]

bucket_of-remove :
    (k j : IpAddr) (m : List (IpAddr × List ℕ))
    → Distinct m
    → bucket_of j (remove k m) ≡ (if k == j then [] else bucket_of j m)
unfolding bucket_of
bucket_of-remove k j m d = ground (arith, lookup-remove k j m d)

remove_all-Distinct :
    (xs : List (Option ℕ × IpAddr)) (m : List (IpAddr × List ℕ))
    → Distinct m
    → Distinct (remove_all xs m)
unfolding remove_all
remove_all-Distinct [] m d = d
remove_all-Distinct ((t, k) ∷ xs) m d = remove_all-Distinct xs (remove k m) (remove-Distinct k m d)

bucket_of-remove_all :
    (j : IpAddr) (xs : List (Option ℕ × IpAddr)) (m : List (IpAddr × List ℕ))
    → Distinct m
    → (bucket_of j (remove_all xs m) ≡ bucket_of j m) ⊎ (bucket_of j (remove_all xs m) ≡ [])
unfolding remove_all
bucket_of-remove_all j [] m d = inl refl
bucket_of-remove_all j ((t, k) ∷ xs) m d = ground (
  arith,
  bucket_of-remove_all j xs (remove k m) (remove-Distinct k m d),
  bucket_of-remove k j m d,
)

-- A table that only lost buckets.
abbrev pub Lost : Buckets → Buckets → Type 0
Lost b b' = (k : IpAddr) → (bucket_of k b'.map ≡ bucket_of k b.map) ⊎ (bucket_of k b'.map ≡ [])

pub sweep-Distinct :
    (now c window : ℕ) (b : Buckets) → Distinct b.map → Distinct (sweep_if_due now c window b).map
unfolding sweep_if_due
sweep-Distinct now c window b d = elim (Bool-cases (is_due window now b.last_sweep)) [
  | inl e ↦ rw e (retain-Distinct (newest_above c) b.map d)
  | inr e ↦ rw e d
]

pub length-sweep-le :
    (now c window : ℕ) (b : Buckets) → length (sweep_if_due now c window b).map ≤ length b.map
unfolding sweep_if_due
length-sweep-le now c window b = elim (Bool-cases (is_due window now b.last_sweep)) [
  | inl e ↦ rw e (length-retain-le (newest_above c) b.map)
  | inr e ↦ rw e (omega arith)
]

sweep-Lost :
    (now c window : ℕ) (b : Buckets) → Distinct b.map → Lost b (sweep_if_due now c window b)
unfolding sweep_if_due
sweep-Lost now c window b d k = elim (Bool-cases (is_due window now b.last_sweep)) [
  | inl e ↦ rw e (elim (bucket_of-retain c k b.map d) [ inl h ↦ inl h | inr (h, _) ↦ inr h ])
  | inr e ↦ rw e (inl refl)
]

-- The keys that an eviction removes.
abbrev pub victims : ℕ → Buckets → List (Option ℕ × IpAddr)
victims n b = take (min n (length b.map)) (sort_recency (map recency_of b.map))

evict-Distinct : (n : ℕ) (b : Buckets) → Distinct b.map → Distinct (evict_stalest n b).map
unfolding evict_stalest
evict-Distinct n b d = elim (Bool-cases (nat_beq (min n (length b.map)) 0)) [
  | inl e ↦ rw e d
  | inr e ↦ rw e (remove_all-Distinct (victims n b) b.map d)
]

evict-Lost : (n : ℕ) (b : Buckets) → Distinct b.map → Lost b (evict_stalest n b)
unfolding evict_stalest
evict-Lost n b d k = elim (Bool-cases (nat_beq (min n (length b.map)) 0)) [
  | inl e ↦ rw e (inl refl)
  | inr e ↦ rw e (bucket_of-remove_all k (victims n b) b.map d)
]

Lost-trans : (a b c : Buckets) → Lost a b → Lost b c → Lost a c
Lost-trans a b c h g k = elim (g k) [
  | inr e ↦ inr e
  | inl e ↦ elim (h k) [ inl f ↦ inl (e ∙ f) | inr f ↦ inr (e ∙ f) ]
]

pub make_room-Lost :
    (s : Settings) (key : IpAddr) (now : ℕ) (b : Buckets)
    → Distinct b.map
    → Distinct (make_room s key now b).map × Lost b (make_room s key now b)
unfolding make_room
make_room-Lost s key now b d =
    let c = cutoff_at s.window now in
    let swept = sweep_if_due now c s.window b in
    let swept_d = sweep-Distinct now c s.window b d in
    let lost = sweep-Lost now c s.window b d in
    elim (Bool-cases (leb max_tracked_ips (length swept.map) && not (contains_key key swept.map))) [
      | inl e ↦ rw e (
        evict-Distinct evict_batch swept swept_d,
        Lost-trans b swept (evict_stalest evict_batch swept) lost
            (evict-Lost evict_batch swept swept_d),
      )
      | inr e ↦ rw e (swept_d, lost)
    ]

Lost-IsValid :
    (s : Settings) (now : ℕ) (b b' : Buckets)
    → Distinct b'.map
    → Lost b b'
    → IsValid s now b
    → IsValid s now b'
Lost-IsValid s now b b' d lost v = record {
  distinct = d;
  ordered = λ k. elim (lost k) [ inl e ↦ rw e (v.ordered k) | inr e ↦ rw e (omega arith) ];
  budget = λ k. elim (lost k) [ inl e ↦ rw e (v.budget k) | inr e ↦ rw e (omega arith) ];
}

pub make_room-IsValid :
    (s : Settings) (key : IpAddr) (t now : ℕ) (b : Buckets)
    → IsValid s t b
    → IsValid s t (make_room s key now b)
make_room-IsValid s key t now b v =
    let (d, lost) = make_room-Lost s key now b v.distinct in
    Lost-IsValid s t b (make_room s key now b) d lost v

insert-IsValid :
    (s : Settings) (t now : ℕ) (key : IpAddr) (bucket : List ℕ) (b : Buckets)
    → t ≤ now
    → IsValid s t b
    → Within 0 now bucket
    → length bucket ≤ s.max_attempts
    → IsValid s now (record b { map = insert key bucket b.map })
insert-IsValid s t now key bucket b h v w l = record {
  distinct = insert-Distinct key bucket b.map v.distinct;
  ordered = λ k. elim (Bool-cases (key == k)) [
    | inl e ↦ rw (bucket_of-insert key k bucket b.map, e) w
    | inr e ↦ rw (bucket_of-insert key k bucket b.map, e) (Within-raise 0 t now _ h (v.ordered k))
  ];
  budget = λ k. elim (Bool-cases (key == k)) [
    | inl e ↦ rw (bucket_of-insert key k bucket b.map, e) l
    | inr e ↦ rw (bucket_of-insert key k bucket b.map, e) (v.budget k)
  ];
}

-- A check keeps a valid table valid, at any clock reading that does not go back: one bucket to a
-- key, hits in order, and never more hits in a bucket than the budget.
pub check_at-IsValid :
    (s : Settings) (ip : IpAddr) (t now : ℕ) (b : Buckets)
    → t ≤ now
    → IsValid s t b
    → IsValid s now (check_at s ip now b).1
unfolding check_at
check_at-IsValid s ip t now b h v =
    let key = limiter_key ip in
    let ready = make_room s key now b in
    let ready_v = make_room-IsValid s key t now b v in
    insert-IsValid s t now key (admit s now (bucket_of key ready.map)).1 ready h ready_v
      (Within-admit s 0 t now _ h (ready_v.ordered key))
      (length-admit-le s now _ (ready_v.budget key))

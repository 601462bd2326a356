-- ===== src/Server/RateLimit.antt =====
-- crates/server/src/ratelimit.rs: the sliding-window limiter of the credential endpoints.
-- An `Instant` is a number of ticks since the clock's origin. A bucket lists its hits oldest first,
-- so that the head is `front` and an append is `push_back`.
pub mod Window
pub mod Validity
pub mod Refinement
pub mod Capacity
pub mod Keys
pub mod Middleware
pub mod Unresolved
use mathlib.Core.Bool.{Bool, true, false, ◌&&◌, ◌||◌, not}
use loontail_minecraft_netwo.Prelude.{
  ℕ, ◌-◌, ◌*◌, ◌/◌, ◌^◌, min, Option, none, some, List, [], ◌∷◌, ◌++◌, map, length, take, last?,
  leb, ltb, nat_beq, if◌then◌else◌,
}
use loontail_minecraft_netwo.Prelude.Map.{lookup, contains_key, insert, remove, retain}
use loontail_minecraft_netwo.Server.Ip.{IpAddr, v4, v6, ip_beq, ip_eq}

-- `Inner`, less its locks: the settings that a check reads.
pub record Settings : Type 0 where
  pub max_attempts : ℕ
  pub window : ℕ

pub record Buckets : Type 0 where
  pub map : List (IpAddr × List ℕ)
  pub last_sweep : Option ℕ

abbrev pub max_tracked_ips : ℕ
max_tracked_ips = 100000

abbrev pub evict_batch : ℕ
evict_batch = max_tracked_ips / 10

-- `Buckets::default()`
unfoldable pub empty : Buckets
empty = record { map = []; last_sweep = none }

unfoldable pub limiter_key : IpAddr → IpAddr
limiter_key (v4 a) = v4 a
limiter_key (v6 a) = v6 (a / 2 ^ 64 * 2 ^ 64)

-- `now.checked_sub(window).unwrap_or(now)`
abbrev pub cutoff_at : ℕ → ℕ → ℕ
cutoff_at window now = if leb window now then now - window else now

-- `while bucket.front().is_some_and(|&t| t <= cutoff) { bucket.pop_front(); }`
unfoldable pub prune : ℕ → List ℕ → List ℕ
prune cutoff [] = []
prune cutoff (t ∷ ts) = if leb t cutoff then prune cutoff ts else t ∷ ts

-- The part of `check_at` and `check_unresolved_at` that works on one bucket.
unfoldable pub admit : Settings → ℕ → List ℕ → Bool × List ℕ
unfolding prune
admit s now bucket =
    let live = prune (cutoff_at s.window now) bucket in
    if leb s.max_attempts (length live) then (false, live) else (true, live ++ now ∷ [])

abbrev pub newest_above : ℕ → IpAddr → List ℕ → Bool
newest_above cutoff k bucket = elim (last? bucket) [ none ↦ false | some t ↦ ltb cutoff t ]

abbrev pub is_due : ℕ → ℕ → Option ℕ → Bool
is_due window now none = true
is_due window now (some previous) = leb window (now - previous)

unfoldable pub sweep_if_due : ℕ → ℕ → ℕ → Buckets → Buckets
sweep_if_due now cutoff window b =
    if is_due window now b.last_sweep
    then record { map = retain (newest_above cutoff) b.map; last_sweep = some now }
    else b

-- The order of `(Option<Instant>, IpAddr)`: no hit first, then by time, then by address.
abbrev pub ip_le : IpAddr → IpAddr → Bool
ip_le (v4 a) (v4 b) = leb a b
ip_le (v6 a) (v6 b) = leb a b
ip_le (v4 a) (v6 b) = true
ip_le (v6 a) (v4 b) = false

abbrev pub recency_le : Option ℕ × IpAddr → Option ℕ × IpAddr → Bool
recency_le (none, j) (none, k) = ip_le j k
recency_le (none, j) (some u, k) = true
recency_le (some t, j) (none, k) = false
recency_le (some t, j) (some u, k) = ltb t u || nat_beq t u && ip_le j k

unfoldable pub insert_recency :
    Option ℕ × IpAddr → List (Option ℕ × IpAddr) → List (Option ℕ × IpAddr)
insert_recency x [] = x ∷ []
insert_recency x (y ∷ ys) = if recency_le x y then x ∷ y ∷ ys else y ∷ insert_recency x ys

unfoldable pub sort_recency : List (Option ℕ × IpAddr) → List (Option ℕ × IpAddr)
unfolding insert_recency
sort_recency [] = []
sort_recency (x ∷ xs) = insert_recency x (sort_recency xs)

unfoldable pub remove_all :
    List (Option ℕ × IpAddr) → List (IpAddr × List ℕ) → List (IpAddr × List ℕ)
remove_all [] m = m
remove_all ((t, k) ∷ xs) m = remove_all xs (remove k m)

abbrev pub recency_of : IpAddr × List ℕ → Option ℕ × IpAddr
recency_of (k, bucket) = (last? bucket, k)

-- `select_nth_unstable` puts the `count` smallest first; sorting does too, and the keys are distinct.
unfoldable pub evict_stalest : ℕ → Buckets → Buckets
unfolding sort_recency remove_all
evict_stalest count b =
    let n = min count (length b.map) in
    if nat_beq n 0
    then b
    else record b { map = remove_all (take n (sort_recency (map recency_of b.map))) b.map }

-- `entry(key).or_default()` reads a missing bucket as an empty one.
unfoldable pub bucket_of : IpAddr → List (IpAddr × List ℕ) → List ℕ
bucket_of k m = elim (lookup k m) [ none ↦ [] | some bucket ↦ bucket ]

-- The sweep and the eviction that `check_at` makes before it touches the bucket of `key`.
unfoldable pub make_room : Settings → IpAddr → ℕ → Buckets → Buckets
unfolding sweep_if_due evict_stalest
make_room s key now b =
    let swept = sweep_if_due now (cutoff_at s.window now) s.window b in
    if leb max_tracked_ips (length swept.map) && not (contains_key key swept.map)
    then evict_stalest evict_batch swept
    else swept

unfoldable pub check_at : Settings → IpAddr → ℕ → Buckets → Bool × Buckets
unfolding limiter_key make_room admit bucket_of
check_at s ip now b =
    let key = limiter_key ip in
    let ready = make_room s key now b in
    let (allowed, bucket) = admit s now (bucket_of key ready.map) in
    (allowed, record ready { map = insert key bucket ready.map })

unfoldable pub check_unresolved_at : Settings → ℕ → List ℕ → Bool × List ℕ
unfolding admit
check_unresolved_at s now bucket = admit s now bucket

-- ===== src/Server/RateLimit/Refinement.antt =====
-- The limiter against its specification: a log of every admitted attempt.
use mathlib.Core.Bool.{Bool, true, false}
use mathlib.Core.List.{append-nil}
use mathlib.Core.Path.{ap₂}
use loontail_minecraft_netwo.Prelude.{
  ℕ, suc, ◌+◌, ◌≤◌, ◌<◌, ◌≡◌, refl, ap, sym, ◌∙◌, List, [], ◌∷◌, ◌++◌, length, leb, if◌then◌else◌,
  arith, Bool-cases, inl, inr, ◌==◌, ==-sound,
}
use loontail_minecraft_netwo.Prelude.Map.{
  lookup, insert, contains_key, length-insert_new, length-insert_old,
}
use loontail_minecraft_netwo.Server.Ip.{IpAddr, ip_eq}
use loontail_minecraft_netwo.Server.RateLimit.{
  Settings, Buckets, limiter_key, cutoff_at, admit, sweep_if_due, make_room, bucket_of, check_at,
  empty, max_tracked_ips,
}
use loontail_minecraft_netwo.Server.RateLimit.Validity.{
  IsValid, bucket_of-insert, sweep_if_due-after, make_room-IsValid, check_at-IsValid,
  length-sweep-le,
}
use loontail_minecraft_netwo.Server.RateLimit.Window.{
  after, Within, Within-raise, after-after, after-append, admit-eq,
}

-- The admitted attempts, oldest first, each with its key.
abbrev pub Log : Type 0
Log = List (IpAddr × ℕ)

unfoldable pub times : IpAddr → Log → List ℕ
times k [] = []
times k ((j, t) ∷ log) = if j == k then t ∷ times k log else times k log

-- An attempt passes if fewer than `max_attempts` of its key passed within the trailing window.
unfoldable pub check_log : Settings → IpAddr → ℕ → Log → Bool × Log
unfolding times
check_log s ip now log =
    let key = limiter_key ip in
    if leb s.max_attempts (length (after (cutoff_at s.window now) (times key log)))
    then (false, log)
    else (true, log ++ (key, now) ∷ [])

unfoldable pub run : Settings → List (IpAddr × ℕ) → Buckets → List Bool
run s [] b = []
run s ((ip, now) ∷ later) b = (check_at s ip now b).0 ∷ run s later (check_at s ip now b).1

unfoldable pub run_log : Settings → List (IpAddr × ℕ) → Log → List Bool
run_log s [] log = []
run_log s ((ip, now) ∷ later) log =
    (check_log s ip now log).0 ∷ run_log s later (check_log s ip now log).1

-- Attempts in the order of their times, from a first time on.
abbrev pub InOrder : ℕ → List (IpAddr × ℕ) → Type 0
InOrder lo [] = Unit {0}
InOrder lo ((ip, now) ∷ later) = (lo ≤ now) × InOrder now later

abbrev pub Agrees : ℕ → Buckets → Log → Type 0
Agrees c b log = (k : IpAddr) → after c (bucket_of k b.map) ≡ after c (times k log)

times-append :
    (k j : IpAddr) (t : ℕ) (log : Log)
    → times k (log ++ (j, t) ∷ []) ≡ times k log ++ (if j == k then t ∷ [] else [])
unfolding times
times-append k j t [] = ground arith
times-append k j t ((i, u) ∷ log) = ground (arith, times-append k j t log)

ge→leb_false : (a b : ℕ) → b < a → leb a b ≡ false
ge→leb_false a b h = ground arith

length-insert-le :
    (k : IpAddr) (bucket : List ℕ) (m : List (IpAddr × List ℕ))
    → length (insert k bucket m) ≤ suc (length m)
length-insert-le k bucket m = elim (Bool-cases (contains_key k m)) [
  | inl e ↦ omega (arith, length-insert_old k bucket m e)
  | inr e ↦ omega (arith, length-insert_new k bucket m e)
]

cutoff_mono : (window t now : ℕ) → window ≤ t → t ≤ now → cutoff_at window t ≤ cutoff_at window now
cutoff_mono window t now h k = ground arith

le_lt : {a b c : ℕ} → a ≤ b → b < c → a < c
le_lt h k = omega arith

-- Below the cap nothing is evicted.
make_room-below :
    (s : Settings) (key : IpAddr) (now : ℕ) (b : Buckets)
    → length b.map < max_tracked_ips
    → make_room s key now b ≡ sweep_if_due now (cutoff_at s.window now) s.window b
unfolding make_room
make_room-below s key now b h =
    let c = cutoff_at s.window now in
    let e = ge→leb_false _ _ (le_lt (length-sweep-le now c s.window b) h) in rw e

make_room-after :
    (s : Settings) (key k : IpAddr) (t now : ℕ) (b : Buckets)
    → length b.map < max_tracked_ips
    → IsValid s t b
    → let c = cutoff_at s.window now in
      after c (bucket_of k (make_room s key now b).map) ≡ after c (bucket_of k b.map)
make_room-after s key k t now b h v =
    rw (make_room-below s key now b h)
      (sweep_if_due-after (cutoff_at s.window now) now s.window t k b v.distinct (v.ordered k))

-- The two decisions on one key, when both count the same live hits.
decide_same :
    (s : Settings) (lo now : ℕ) (bucket : List ℕ) (key : IpAddr) (log : Log)
    → Within lo now bucket
    → after (cutoff_at s.window now) bucket ≡ after (cutoff_at s.window now) (times key log)
    → (admit s now bucket).0 ≡ (
        if leb s.max_attempts (length (after (cutoff_at s.window now) (times key log)))
        then false
        else true)
decide_same s lo now bucket key log w e = rw (admit-eq s lo now now bucket w, e) (ground arith)

-- The hits that count after the check: those that counted before it, and the new one if it passed.
admit-after :
    (s : Settings) (lo now : ℕ) (bucket : List ℕ)
    → Within lo now bucket
    → let c = cutoff_at s.window now in
      after c (admit s now bucket).1
      ≡ after c bucket ++ (if (admit s now bucket).0 then after c (now ∷ []) else [])
admit-after s lo now bucket w =
    let c = cutoff_at s.window now in
    rw (admit-eq s lo now now bucket w) (
      ground (
        arith,
        after-after c c bucket,
        after-append c (after c bucket) (now ∷ []),
        append-nil (after c bucket),
      ))

step_decision :
    (s : Settings) (ip : IpAddr) (t now : ℕ) (b : Buckets) (log : Log)
    → t ≤ now
    → length b.map < max_tracked_ips
    → IsValid s t b
    → Agrees (cutoff_at s.window now) b log
    → (check_at s ip now b).0 ≡ (check_log s ip now log).0
unfolding check_at check_log
step_decision s ip t now b log h small v g =
    let key = limiter_key ip in
    let ready = make_room s key now b in
    let valid = (make_room-IsValid s key t now b v) in
    let live = make_room-after s key key t now b small v ∙ g key in
    decide_same s 0 now (bucket_of key ready.map) key log
      (Within-raise 0 t now _ h (valid.ordered key)) live
    ∙ (ground arith)

-- The log after a check, read for one key.
after-times-check_log :
    (s : Settings) (ip k : IpAddr) (c now : ℕ) (log : Log)
    → after c (times k (check_log s ip now log).1)
      ≡ after c (times k log)
        ++ (if (check_log s ip now log).0
            then if limiter_key ip == k then after c (now ∷ []) else []
            else [])
unfolding check_log
after-times-check_log s ip k c now log = ground (
  arith,
  times-append k (limiter_key ip) now log,
  after-append c (times k log) (now ∷ []),
  append-nil (times k log),
  append-nil (after c (times k log)),
)

-- The bucket after a check, read for one key.
after-bucket-check_at :
    (s : Settings) (ip k : IpAddr) (t now : ℕ) (b : Buckets)
    → t ≤ now
    → length b.map < max_tracked_ips
    → IsValid s t b
    → let c = cutoff_at s.window now in
      after c (bucket_of k (check_at s ip now b).1.map)
      ≡ after c (bucket_of k b.map)
        ++ (if (check_at s ip now b).0
            then if limiter_key ip == k then after c (now ∷ []) else []
            else [])
unfolding check_at
after-bucket-check_at s ip k t now b h small v =
    let c = cutoff_at s.window now in
    let key = limiter_key ip in
    let ready = make_room s key now b in
    let valid = make_room-IsValid s key t now b v in
    let old = bucket_of key ready.map in
    let fresh = admit s now old in
    let written = bucket_of-insert key k fresh.1 ready.map in
    let grown = admit-after s 0 now old (Within-raise 0 t now old h (valid.ordered key)) in
    let kept = make_room-after s key k t now b small v in
    elim (Bool-cases (key == k)) [
      | inl e ↦
          let same = ==-sound key k e in
          rw (written, e)
            (grown
              ∙ ap (λ xs. xs ++ (if fresh.0 then after c (now ∷ []) else []))
                  (ap (λ j. after c (bucket_of j ready.map)) same ∙ kept))
      | inr e ↦ rw (written, e) (kept ∙ ground (arith, append-nil (after c (bucket_of k b.map))))
    ]

step-Agrees :
    (s : Settings) (ip : IpAddr) (t now : ℕ) (b : Buckets) (log : Log)
    → t ≤ now
    → length b.map < max_tracked_ips
    → IsValid s t b
    → Agrees (cutoff_at s.window now) b log
    → Agrees (cutoff_at s.window now) (check_at s ip now b).1 (check_log s ip now log).1
step-Agrees s ip t now b log h small v g k =
    let c = cutoff_at s.window now in
    rw
      (
        after-bucket-check_at s ip k t now b h small v,
        after-times-check_log s ip k c now log,
        step_decision s ip t now b log h small v g,
        g k,
      )
      refl

length-check_at :
    (s : Settings) (ip : IpAddr) (now : ℕ) (b : Buckets)
    → length b.map < max_tracked_ips
    → length (check_at s ip now b).1.map ≤ suc (length b.map)
unfolding check_at
length-check_at s ip now b small =
    let c = cutoff_at s.window now in
    let key = limiter_key ip in
    let swept = sweep_if_due now c s.window b in
    let bucket = (admit s now (bucket_of key (make_room s key now b).map)).1 in
    rw (make_room-below s key now b small)
      (omega (arith, length-insert-le key _ swept.map, length-sweep-le now c s.window b))

Agrees-later : (c d : ℕ) (b : Buckets) (log : Log) → c ≤ d → Agrees c b log → Agrees d b log
Agrees-later c d b log h g k =
    sym (after-after c d (bucket_of k b.map) h)
    ∙ ap (after d) (g k)
    ∙ after-after c d (times k log) h

run-eq :
    (s : Settings) (t : ℕ) (attempts : List (IpAddr × ℕ)) (b : Buckets) (log : Log)
    → s.window ≤ t
    → InOrder t attempts
    → length b.map + length attempts ≤ max_tracked_ips
    → IsValid s t b
    → Agrees (cutoff_at s.window t) b log
    → run s attempts b ≡ run_log s attempts log
unfolding run run_log
run-eq s t [] b log w o small v g = refl
run-eq s t ((ip, now) ∷ later) b log w o small v g =
    let g' = Agrees-later _ _ b log (cutoff_mono s.window t now w o.0) g in
    let below : length b.map < max_tracked_ips = omega arith in
    let rest =
      run-eq s now later (check_at s ip now b).1 (check_log s ip now log).1 (omega (arith, o.0)) o.1
        (omega (arith, length-check_at s ip now b below)) (check_at-IsValid s ip t now b o.0 v)
        (step-Agrees s ip t now b log o.0 below v g') in
    ap₂ ◌∷◌ (step_decision s ip t now b log o.0 below v g') rest

pub empty-IsValid : (s : Settings) (t : ℕ) → IsValid s t empty
unfolding bucket_of lookup empty
empty-IsValid s t = record { distinct = tt; ordered = λ k. omega arith; budget = λ k. omega arith }

-- The limiter is a sliding-window log: started empty, on attempts in the order of their times, all
-- at least one window after the clock's origin and no more of them than the table has room for, it
-- admits exactly the attempts that the log admits, which counts, for each key, the admitted
-- attempts of the trailing window.
pub run-eq-run_log :
    (s : Settings) (attempts : List (IpAddr × ℕ))
    → InOrder s.window attempts
    → length attempts ≤ max_tracked_ips
    → run s attempts empty ≡ run_log s attempts []
unfolding empty bucket_of lookup times
run-eq-run_log s attempts o small =
    run-eq s s.window attempts empty [] (omega arith) o (omega arith) (empty-IsValid s s.window)
      (λ k. refl)

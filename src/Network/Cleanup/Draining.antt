-- ===== src/Network/Cleanup/Draining.antt =====
-- The loop over the chunks ends, with every aged event gone and no other.
use mathlib.Core.Bool.{Bool, true, not}
use Prim.Native.Nat.mul
use loontail_minecraft_netwo.Prelude.{
  ℕ, zero, suc, ◌+◌, ◌*◌, ◌≤◌, ◌<◌, ◌≡◌, refl, ap, sym, ◌∙◌, none, some, List, [], ◌∷◌, ltb,
  nat_beq, keep, count_where, arith, Bool-cases, Option-cases, inl, inr, min,
}
use loontail_minecraft_netwo.Network.Store.{Env}
use loontail_minecraft_netwo.Network.Cleanup.{
  UserEvent, is_past, is_aged, oldest, remove_one, delete_chunk, drain,
  delete_aged_user_events_in_chunks,
}

abbrev pub aged : Env → ℕ → List UserEvent → ℕ
aged env days es = count_where (is_aged env days) es

abbrev pub fresh : Env → ℕ → List UserEvent → List UserEvent
fresh env days es = keep (λ e. not (is_aged env days e)) es

oldest-none :
    (env : Env) (days : ℕ) (es : List UserEvent) → oldest env days es ≡ none → aged env days es ≡ 0
unfolding oldest count_where
oldest-none env days [] h = refl
oldest-none env days (e ∷ es) h = elim (Option-cases (oldest env days es)) [
  | inl n ↦ ground (arith, oldest-none env days es n, n)
  | inr (t, n) ↦ ground (arith, n)
]

oldest-aged :
    (env : Env) (days time : ℕ) (es : List UserEvent)
    → oldest env days es ≡ some time
    → is_past env days time ≡ true
unfolding oldest
oldest-aged env days time [] h = absurd (cc)
oldest-aged env days time (e ∷ es) h = elim (Option-cases (oldest env days es)) [
  | inl n ↦ ground (arith, n)
  | inr (t, n) ↦ ground (arith, n, oldest-aged env days t es n)
]

abbrev has_time : ℕ → UserEvent → Bool
has_time time e = nat_beq e.created_at time

oldest-there :
    (env : Env) (days time : ℕ) (es : List UserEvent)
    → oldest env days es ≡ some time
    → 1 ≤ count_where (has_time time) es
unfolding oldest count_where
oldest-there env days time [] h = absurd (cc)
oldest-there env days time (e ∷ es) h = elim (Option-cases (oldest env days es)) [
  | inl n ↦ ground (arith, n)
  | inr (t, n) ↦ ground (arith, n, oldest-there env days t es n)
]

remove_one-aged :
    (env : Env) (days time : ℕ) (es : List UserEvent)
    → is_past env days time ≡ true
    → 1 ≤ count_where (has_time time) es
    → (suc (aged env days (remove_one time es)) ≡ aged env days es)
      × (fresh env days (remove_one time es) ≡ fresh env days es)
unfolding remove_one count_where keep
remove_one-aged env days time [] p c = absurd (omega (arith, c))
remove_one-aged env days time (e ∷ es) p c = elim (Bool-cases (nat_beq e.created_at time)) [
  | inl y ↦
      (let same : is_aged env days e ≡ true = ground (arith, y, p) in rw (y, same) (refl, refl))
  | inr n ↦
      (let (a, f) = remove_one-aged env days time es p (ground (arith, n, c)) in
        elim (Bool-cases (is_aged env days e)) [
          | inl y ↦ rw (n, y) (ap suc a, f)
          | inr m ↦ rw (n, m) (a, ap (λ z. e ∷ z) f)
        ])
]

-- What one statement removes.
delete_chunk-parts :
    (env : Env) (days n : ℕ) (es : List UserEvent)
    → (let r = delete_chunk env days n es in
        (r.0 + aged env days r.1 ≡ aged env days es)
        × ((r.0 ≡ min n (aged env days es)) × (fresh env days r.1 ≡ fresh env days es)))
unfolding delete_chunk
delete_chunk-parts env days zero es = (omega arith, (omega arith, refl))
delete_chunk-parts env days (suc n) es = elim (Option-cases (oldest env days es)) [
  | inl e ↦
      (let z = oldest-none env days es e in
        rw (e, delete_chunk) (omega (arith, z), (omega (arith, z), refl)))
  | inr (t, e) ↦
      (let (a, f) =
          remove_one-aged env days t es (oldest-aged env days t es e)
            (oldest-there env days t es e) in
        let (x, (y, z)) = delete_chunk-parts env days n (remove_one t es) in
        rw (e, delete_chunk) (omega (arith, a, x), (omega (arith, a, x, y), z ∙ f)))
]

keep-none_aged :
    (env : Env) (days : ℕ) (es : List UserEvent) → aged env days es ≡ 0 → fresh env days es ≡ es
unfolding count_where keep
keep-none_aged env days [] h = refl
keep-none_aged env days (e ∷ es) h = elim (Bool-cases (is_aged env days e)) [
  | inl y ↦ absurd (let k = rw y at h in omega (arith, k))
  | inr n ↦ rw n (ap (λ z. e ∷ z) (keep-none_aged env days es (ground (arith, n, h))))
]

drain-ends :
    (fuel : ℕ) (env : Env) (days chunk deleted : ℕ) (es : List UserEvent)
    → 1 ≤ chunk
    → aged env days es < fuel * chunk
    → drain fuel env days chunk deleted es ≡ some (deleted + aged env days es, fresh env days es)
unfolding drain
drain-ends zero env days chunk deleted es c h = absurd (omega (arith, h))
drain-ends (suc fuel) env days chunk deleted es c h =
    let (x, (y, z)) = delete_chunk-parts env days chunk es in
    let removed = delete_chunk env days chunk es in
    elim (Bool-cases (ltb removed.0 chunk)) [
      | inl l ↦
          (let gone : aged env days removed.1 ≡ 0 = ground (arith, x, y, l) in
            let left : removed.1 ≡ fresh env days es =
              sym (keep-none_aged env days removed.1 gone) ∙ z in
            let count : removed.0 ≡ aged env days es = omega (arith, x, gone) in
            rw l (rw (← left, ← count) refl))
      | inr n ↦
          (let product : suc fuel * chunk ≡ chunk + fuel * chunk = (λ i. mul.suc fuel chunk i) in
            let full : removed.0 ≡ chunk = ground (arith, y, n) in
            let fewer : aged env days removed.1 < fuel * chunk =
              omega (arith, h, product, x, full) in
            let rest = drain-ends fuel env days chunk (deleted + removed.0) removed.1 c fewer in
            let count : deleted + removed.0 + aged env days removed.1 ≡ deleted + aged env days es =
              omega (arith, x) in
            rw n (rest ∙ (λ i. some (count i, z i))))
    ]

-- Whatever the size of a chunk, if it is at least one row: on fuel for one chunk more than the aged
-- events fill, the loop ends, with every aged event deleted and counted and all others kept.
pub delete_aged_user_events_in_chunks-drains :
    (fuel : ℕ) (env : Env) (days chunk : ℕ) (es : List UserEvent)
    → 1 ≤ chunk
    → aged env days es < fuel * chunk
    → delete_aged_user_events_in_chunks fuel env days chunk es
      ≡ some (aged env days es, fresh env days es)
unfolding delete_aged_user_events_in_chunks
delete_aged_user_events_in_chunks-drains fuel env days chunk es c h =
    drain-ends fuel env days chunk 0 es c h
    ∙ (let none_yet : 0 + aged env days es ≡ aged env days es = omega arith in
        λ i. some (none_yet i, fresh env days es))

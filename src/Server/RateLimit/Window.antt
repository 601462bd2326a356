-- ===== src/Server/RateLimit/Window.antt =====
-- One bucket of the limiter against a plain log of its hits.
use mathlib.Core.Bool.{true, false}
use loontail_minecraft_netwo.Prelude.{
  ℕ, ◌≤◌, ◌<◌, ◌≡◌, refl, none, some, List, [], ◌∷◌, ◌++◌, length, keep, last?, leb, ltb,
  if◌then◌else◌, arith, Bool-cases, inl, inr, length-append,
}
use loontail_minecraft_netwo.Server.RateLimit.{Settings, prune, admit, cutoff_at}

-- The hits of a list that lie after a time.
abbrev pub after : ℕ → List ℕ → List ℕ
after c = keep (ltb c)

-- Times that rise from `lo` to `hi`.
abbrev pub Within : ℕ → ℕ → List ℕ → Type 0
Within lo hi [] = lo ≤ hi
Within lo hi (t ∷ ts) = (lo ≤ t) × Within t hi ts

pub Within-lower : (lo lo' hi : ℕ) (xs : List ℕ) → lo' ≤ lo → Within lo hi xs → Within lo' hi xs
Within-lower lo lo' hi [] h w = omega arith
Within-lower lo lo' hi (t ∷ ts) h w = (omega arith, w.1)

pub Within-raise : (lo hi hi' : ℕ) (xs : List ℕ) → hi ≤ hi' → Within lo hi xs → Within lo hi' xs
Within-raise lo hi hi' [] h w = omega arith
Within-raise lo hi hi' (t ∷ ts) h w = (w.0, Within-raise t hi hi' ts h w.1)

pub Within-snoc :
    (lo hi now : ℕ) (xs : List ℕ) → hi ≤ now → Within lo hi xs → Within lo now (xs ++ now ∷ [])
Within-snoc lo hi now [] h w = (omega arith, omega arith)
Within-snoc lo hi now (t ∷ ts) h w = (w.0, Within-snoc t hi now ts h w.1)

pub Within-prune : (c lo hi : ℕ) (xs : List ℕ) → Within lo hi xs → Within lo hi (prune c xs)
unfolding prune
Within-prune c lo hi [] w = w
Within-prune c lo hi (t ∷ ts) w = elim (Bool-cases (leb t c)) [
  | inl e ↦ rw e (Within-lower t lo hi (prune c ts) w.0 (Within-prune c t hi ts w.1))
  | inr e ↦ rw e w
]

pub after_all : (c lo hi : ℕ) (xs : List ℕ) → c < lo → Within lo hi xs → after c xs ≡ xs
unfolding keep
after_all c lo hi [] h w = refl
after_all c lo hi (t ∷ ts) h w = ground (arith, after_all c t hi ts)

-- Pruning a bucket whose hits are in order leaves exactly the hits after the cutoff.
pub prune-eq-after : (c lo hi : ℕ) (xs : List ℕ) → Within lo hi xs → prune c xs ≡ after c xs
unfolding prune keep
prune-eq-after c lo hi [] w = refl
prune-eq-after c lo hi (t ∷ ts) w =
    ground (arith, prune-eq-after c t hi ts w.1, after_all c t hi ts)

pub after-after : (c d : ℕ) (xs : List ℕ) → c ≤ d → after d (after c xs) ≡ after d xs
unfolding keep
after-after c d [] h = refl
after-after c d (t ∷ ts) h = ground (arith, after-after c d ts h)

pub after-append : (c : ℕ) (xs ys : List ℕ) → after c (xs ++ ys) ≡ after c xs ++ after c ys
unfolding keep
after-append c [] ys = refl
after-append c (t ∷ ts) ys = ground (arith, after-append c ts ys)

-- The newest hit decides whether a bucket is stale.
pub after_stale :
    (c lo hi : ℕ) (xs : List ℕ)
    → Within lo hi xs
    → (elim (last? xs) [ none ↦ false | some t ↦ ltb c t ]) ≡ false
    → after c xs ≡ []
unfolding keep
after_stale c lo hi [] w h = refl
after_stale c lo hi (t ∷ []) w h = ground arith
after_stale c lo hi (t ∷ u ∷ xs) w h =
    ground (arith, after_stale c t hi (u ∷ xs) w.1 h, after_all c u hi xs)

-- The decision and the new bucket, over the hits in the trailing window.
pub admit-eq :
    (s : Settings) (lo hi now : ℕ) (xs : List ℕ)
    → Within lo hi xs
    → let live = after (cutoff_at s.window now) xs in
      admit s now xs
      ≡ (if leb s.max_attempts (length live) then (false, live) else (true, live ++ now ∷ []))
unfolding admit
admit-eq s lo hi now xs w = rw (prune-eq-after (cutoff_at s.window now) lo hi xs w)

pub Within-admit :
    (s : Settings) (lo hi now : ℕ) (xs : List ℕ)
    → hi ≤ now
    → Within lo hi xs
    → Within lo now (admit s now xs).1
unfolding admit
Within-admit s lo hi now xs h w =
    let live = prune (cutoff_at s.window now) xs in
    let kept = Within-prune (cutoff_at s.window now) lo hi xs w in
    elim (Bool-cases (leb s.max_attempts (length live))) [
      | inl e ↦ rw e (Within-raise lo hi now live h kept)
      | inr e ↦ rw e (Within-snoc lo hi now live h kept)
    ]

pub length-prune-le : (c : ℕ) (xs : List ℕ) → length (prune c xs) ≤ length xs
unfolding prune
length-prune-le c [] = omega arith
length-prune-le c (t ∷ ts) = ground (arith, length-prune-le c ts)

pub length-admit-le :
    (s : Settings) (now : ℕ) (xs : List ℕ)
    → length xs ≤ s.max_attempts
    → length (admit s now xs).1 ≤ s.max_attempts
unfolding admit
length-admit-le s now xs h =
    let c = cutoff_at s.window now in
    ground (arith, length-prune-le c xs, length-append (prune c xs) (now ∷ []))

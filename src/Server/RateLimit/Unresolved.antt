-- ===== src/Server/RateLimit/Unresolved.antt =====
-- Credential requests without a resolvable address fail closed: they share one budget.
use mathlib.Core.Bool.{Bool, true}
use text.Mathlib.Text.{◌==◌ as str_eq}
use loontail_minecraft_netwo.Prelude.{
  ℕ, ◌+◌, ◌-◌, ◌≤◌, ◌<◌, ◌≡◌, refl, ap, Option, none, List, [], ◌∷◌, length, any, keep, count_where,
  if◌then◌else◌, arith, Bool-cases, inl, inr, leb, ltb, length-append, length-keep-le,
}
use loontail_minecraft_netwo.Server.Ip.{IpAddr, client_ip}
use loontail_minecraft_netwo.Server.RateLimit.{Settings, check_unresolved_at, admit, cutoff_at}
use loontail_minecraft_netwo.Server.RateLimit.Window.{
  after, Within, Within-raise, Within-admit, admit-eq, after-append, after-after,
}
use loontail_minecraft_netwo.Server.RateLimit.Middleware.{
  RateLimiter, Request, rate_limit_middleware, serve, Hidden, InWindow, passed, is_throttled_path,
  check_unresolved,
}

abbrev spent : Bool → ℕ
spent ok = if ok then 1 else 0

-- One attempt adds itself to the hits since `t0` exactly if it passes, and never overdraws them.
admit-spends :
    (s : Settings) (t0 now : ℕ) (bucket : List ℕ)
    → 0 < t0
    → t0 ≤ now
    → now < t0 + s.window
    → s.window ≤ t0
    → Within 0 now bucket
    → length (after (t0 - 1) bucket) ≤ s.max_attempts
    → (length (after (t0 - 1) (admit s now bucket).1)
        ≡ spent (admit s now bucket).0 + length (after (t0 - 1) bucket))
      × (length (after (t0 - 1) (admit s now bucket).1) ≤ s.max_attempts)
admit-spends s t0 now bucket pos h k w v m =
    let c = cutoff_at s.window now in
    let c0 = t0 - 1 in
    let le : c ≤ c0 = ground arith in
    let live = after c bucket in
    let same = after-after c c0 bucket le in
    let fewer = length-keep-le (ltb c0) live in
    let fresh : after c0 (now ∷ []) ≡ now ∷ [] = (unfold keep in ground arith) in
    rw (admit-eq s 0 now now bucket v) (elim (Bool-cases (leb s.max_attempts (length live))) [
      | inl e ↦ rw (e, same) (omega arith, m)
      | inr e ↦
          rw
            (
              e,
              after-append c0 live (now ∷ []),
              same,
              fresh,
              length-append (after c0 bucket) (now ∷ []),
            )
            (
              omega arith,
              (let f : length (after c0 bucket) ≤ length live = rw (← same) fewer in ground arith),
            )
    ])

module _ (to_str : List ℕ → Option (List ℕ)) (parse : List ℕ → Option IpAddr) where
  middleware-unresolved :
      (l : RateLimiter) (r : Request) (now : ℕ)
      → any (λ p. str_eq p r.path) l.throttled ≡ true
      → client_ip to_str parse r.headers r.peer l.trusted_proxy ≡ none
      → rate_limit_middleware to_str parse l r now ≡ (
        (admit l.settings now l.unresolved).0,
        record l { unresolved = (admit l.settings now l.unresolved).1 },
      )
  unfolding rate_limit_middleware is_throttled_path check_unresolved check_unresolved_at
  middleware-unresolved l r now path hidden = rw (path, hidden, rate_limit_middleware) refl

  serve_budget :
      (l : RateLimiter) (rs : List (Request × ℕ)) (t0 t : ℕ)
      → 0 < t0
      → t0 ≤ t
      → l.settings.window ≤ t0
      → InWindow t (t0 + l.settings.window) rs
      → Hidden to_str parse l rs
      → Within 0 t l.unresolved
      → length (after (t0 - 1) l.unresolved) ≤ l.settings.max_attempts
      → passed (serve to_str parse l rs).0 + length (after (t0 - 1) l.unresolved)
        ≤ l.settings.max_attempts
  unfolding serve count_where
  serve_budget l [] t0 t pos h w o hid v m = omega arith
  serve_budget l ((r, now) ∷ later) t0 t pos h w o hid v m =
      let s = l.settings in
      let step = admit s now l.unresolved in
      let next : RateLimiter = record l { unresolved = step.1 } in
      let raised = Within-raise 0 t now l.unresolved o.0 v in
      let (grown, small) = admit-spends s t0 now l.unresolved pos (omega arith) o.1 w raised m in
      let rest =
        serve_budget next later t0 now pos (omega arith) w o.2 hid.2
          (Within-admit s 0 t now l.unresolved o.0 v) small in
      rw (middleware-unresolved l r now hid.0 hid.1) (elim (Bool-cases step.0) [
        | inl e ↦ rw e (omega (arith, rest, grown, ap spent e))
        | inr e ↦ rw e (omega (arith, rest, grown, ap spent e))
      ])

  -- However many credential requests without a resolvable address arrive within one window, at most
  -- `max_attempts` of them pass in all. The window starts at `t0`, at least one window after the
  -- clock's origin; the shared bucket may hold earlier hits, in order and within the budget.
  pub unresolved_budget :
      (l : RateLimiter) (rs : List (Request × ℕ)) (t0 : ℕ)
      → 0 < t0
      → l.settings.window ≤ t0
      → InWindow t0 (t0 + l.settings.window) rs
      → Hidden to_str parse l rs
      → Within 0 t0 l.unresolved
      → length l.unresolved ≤ l.settings.max_attempts
      → passed (serve to_str parse l rs).0 ≤ l.settings.max_attempts
  unresolved_budget l rs t0 pos w o hid v m = omega (
    arith,
    serve_budget l rs t0 t0 pos (omega arith) w o hid v
        (omega (arith, length-keep-le (ltb (t0 - 1)) l.unresolved)),
  )

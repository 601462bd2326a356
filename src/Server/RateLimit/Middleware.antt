-- ===== src/Server/RateLimit/Middleware.antt =====
-- `RateLimiter`, `throttled_paths` and `rate_limit_middleware` of crates/server/src/ratelimit.rs.
-- What the next layer answers is left out: `true` means that the request is handed on, and `false`
-- that it is answered 429. The clock reading is an argument of each request.
use Prim.Native.String
use Prim.Native.String.{String}
use mathlib.Core.Bool.{Bool, true}
use text.Mathlib.Text.{◌==◌ as str_eq}
use loontail_minecraft_netwo.Prelude.{
  ℕ, ◌≤◌, ◌<◌, ◌≡◌, Option, none, some, List, [], ◌∷◌, any, count_where, if◌then◌else◌,
}
use loontail_minecraft_netwo.Server.Ip.{IpAddr, HeaderMap, client_ip}
use loontail_minecraft_netwo.Server.RateLimit.{
  Settings, Buckets, empty, check_at, check_unresolved_at,
}

pub record RateLimiter : Type 0 where
  pub settings : Settings
  pub trusted_proxy : Bool
  pub throttled : List String
  pub hits : Buckets
  pub unresolved : List ℕ

unfoldable pub throttled_paths : String → List String
throttled_paths mount =
    "/admin/auth/login"
    ∷ "/api/auth/login"
    ∷ "/api/auth/register"
    ∷ String.◌++◌ mount "/authserver/authenticate"
    ∷ String.◌++◌ mount "/authserver/refresh"
    ∷ []

-- `RateLimiter::new`
unfoldable pub new : Settings → Bool → String → RateLimiter
unfolding throttled_paths empty
new s trusted_proxy mount = record {
  settings = s;
  trusted_proxy = trusted_proxy;
  throttled = throttled_paths mount;
  hits = empty;
  unresolved = [];
}

unfoldable pub is_throttled_path : RateLimiter → String → Bool
unfolding any
is_throttled_path l path = any (λ p. str_eq p path) l.throttled

pub record Request : Type 0 where
  pub path : String
  pub headers : HeaderMap
  pub peer : Option IpAddr

unfoldable pub check_resolved : RateLimiter → IpAddr → ℕ → Bool × RateLimiter
unfolding check_at
check_resolved l ip now =
    let (ok, hits) = check_at l.settings ip now l.hits in (ok, record l { hits = hits })

unfoldable pub check_unresolved : RateLimiter → ℕ → Bool × RateLimiter
unfolding check_unresolved_at
check_unresolved l now =
    let (ok, bucket) = check_unresolved_at l.settings now l.unresolved in
    (ok, record l { unresolved = bucket })

-- The requests fall into one window.
abbrev pub InWindow : ℕ → ℕ → List (Request × ℕ) → Type 0
InWindow lo hi [] = Unit {0}
InWindow lo hi ((r, now) ∷ later) = (lo ≤ now) × (now < hi) × InWindow now hi later

abbrev pub passed : List Bool → ℕ
passed = count_where (λ ok. ok)

module _ (to_str : List ℕ → Option (List ℕ)) (parse : List ℕ → Option IpAddr) where
  abbrev pub resolve : RateLimiter → Request → Option IpAddr
  resolve l r = client_ip to_str parse r.headers r.peer l.trusted_proxy

  unfoldable pub rate_limit_middleware : RateLimiter → Request → ℕ → Bool × RateLimiter
  unfolding is_throttled_path check_resolved check_unresolved
  rate_limit_middleware l r now =
      if is_throttled_path l r.path
      then elim (resolve l r) [ some ip ↦ check_resolved l ip now | none ↦ check_unresolved l now ]
      else (true, l)

  -- Requests in the order of their arrival, each with the clock reading of its check.
  unfoldable pub serve : RateLimiter → List (Request × ℕ) → List Bool × RateLimiter
  serve l [] = ([], l)
  serve l ((r, now) ∷ later) =
      let (ok, l') = rate_limit_middleware l r now in
      let (oks, l'') = serve l' later in (ok ∷ oks, l'')

  -- Every request is on a credential path, and has no address that can be resolved.
  abbrev pub Hidden : RateLimiter → List (Request × ℕ) → Type 0
  Hidden l [] = Unit {0}
  Hidden l ((r, now) ∷ later) =
      (any (λ p. str_eq p r.path) l.throttled ≡ true)
      × (client_ip to_str parse r.headers r.peer l.trusted_proxy ≡ none)
      × Hidden l later

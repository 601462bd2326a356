-- ===== src/Server/Tests.antt =====
-- The theorems of the limiter and of the client address at concrete inputs.
use mathlib.Core.Bool.{Bool, true, false, ◌&&◌, ◌||◌}
use loontail_minecraft_netwo.Prelude.{
  ℕ, ◌≤◌, ◌≡◌, refl, Option, none, some, List, [], ◌∷◌, ◌++◌, length, any, arith, nat_beq,
  if◌then◌else◌, keep, all, leb, ltb, Bool-cases, inl, inr,
}
use loontail_minecraft_netwo.Server.Ip
use loontail_minecraft_netwo.Server.Ip.{IpAddr, v4, v6}
use loontail_minecraft_netwo.Server.Ip.Trust.{client_ip-trusted_hop}
use loontail_minecraft_netwo.Server.RateLimit
use loontail_minecraft_netwo.Server.RateLimit.{Settings, Buckets, max_tracked_ips}
use loontail_minecraft_netwo.Server.RateLimit.Validity.{IsValid, check_at-IsValid}
use loontail_minecraft_netwo.Server.RateLimit.Refinement.{
  run, run_log, run-eq-run_log, empty-IsValid,
}
use loontail_minecraft_netwo.Server.RateLimit.Capacity.{check_at-capacity}
use loontail_minecraft_netwo.Server.RateLimit.Keys.{check_at-newcomer}
use loontail_minecraft_netwo.Server.RateLimit.Unresolved.{unresolved_budget}
use loontail_minecraft_netwo.Server.RateLimit.Middleware.{RateLimiter, Request, passed, serve}
use loontail_minecraft_netwo.Prelude.Map.{lookup, insert, retain}

abbrev settings : Settings
settings = record { max_attempts = 2; window = 10 }

-- A parser of one address.
abbrev parse : List ℕ → Option IpAddr
parse [] = none
parse (c ∷ []) = if nat_beq c 49 then some (v4 1) else none
parse (c ∷ d ∷ s) = none

-- Visible ASCII and the tab.
abbrev is_visible : ℕ → Bool
is_visible c = leb 32 c && ltb c 127 || nat_beq c 9

abbrev to_str : List ℕ → Option (List ℕ)
to_str v = if all is_visible v then some v else none

to_str_same : (v t : List ℕ) → to_str v ≡ some t → t ≡ v
to_str_same v t h = elim (Bool-cases (all is_visible v)) [ inl y ↦ cc | inr n ↦ absurd (cc) ]

client_ip-trusted_hop_example :
    Ip.client_ip to_str parse
      (record {
        x_forwarded_for = some ((57 ∷ b',' ∷ 49 ∷ []) ++ b',' ∷ 32 ∷ 49 ∷ []);
        x_real_ip = some (50 ∷ []);
      })
      (some (v4 7))
      true
    ≡ some (v4 1)
unfolding Ip.trim Ip.trim_start all
client_ip-trusted_hop_example =
    client_ip-trusted_hop to_str parse to_str_same (57 ∷ b',' ∷ 49 ∷ []) (32 ∷ 49 ∷ [])
      (some (50 ∷ [])) (some (v4 7)) (v4 1) (refl, (refl, tt)) refl

-- A byte that is not visible hides the hop that the proxy appended, and the peer is left.
client_ip-hidden_hop :
    Ip.client_ip to_str parse
      (record { x_forwarded_for = some (200 ∷ b',' ∷ 49 ∷ []); x_real_ip = none })
      (some (v4 7))
      true
    ≡ some (v4 7)
unfolding Ip.client_ip Ip.forwarded_for_rightmost Ip.real_ip Ip.trim Ip.trim_start all
client_ip-hidden_hop = refl

-- Three attempts of one address in one window, and one after it.
abbrev attempts : List (IpAddr × ℕ)
attempts = (v4 1, 10) ∷ (v4 1, 12) ∷ (v4 1, 19) ∷ (v4 1, 20) ∷ []

run-eq-run_log_example : run settings attempts RateLimit.empty ≡ run_log settings attempts []
run-eq-run_log_example =
    run-eq-run_log settings attempts (omega arith, (omega arith, (omega arith, (omega arith, tt))))
      (omega arith)

run_decisions : run settings attempts RateLimit.empty ≡ true ∷ true ∷ false ∷ true ∷ []
unfolding run RateLimit.check_at RateLimit.make_room RateLimit.sweep_if_due RateLimit.admit
    RateLimit.bucket_of RateLimit.empty RateLimit.limiter_key RateLimit.prune lookup insert retain
run_decisions = refl

-- The table after the first two attempts.
abbrev used_once : Buckets
used_once = (RateLimit.check_at settings (v4 1) 10 RateLimit.empty).1

abbrev used : Buckets
used = (RateLimit.check_at settings (v4 1) 12 used_once).1

used_once-IsValid : IsValid settings 10 used_once
used_once-IsValid =
    check_at-IsValid settings (v4 1) 10 10 RateLimit.empty (omega arith) (empty-IsValid settings 10)

used_once_small : length used_once.map ≤ max_tracked_ips
unfolding RateLimit.check_at RateLimit.make_room RateLimit.sweep_if_due RateLimit.admit
    RateLimit.bucket_of RateLimit.empty RateLimit.limiter_key RateLimit.prune lookup insert retain
used_once_small = omega arith

check_at-capacity_example :
    length (RateLimit.check_at settings (v4 1) 12 used_once).1.map ≤ max_tracked_ips
check_at-capacity_example =
    check_at-capacity settings (v4 1) 12 used_once used_once-IsValid.distinct used_once_small

check_at-newcomer_example : (RateLimit.check_at settings (v4 2) 12 used_once).0 ≡ true
unfolding RateLimit.check_at RateLimit.make_room RateLimit.sweep_if_due RateLimit.admit
    RateLimit.bucket_of RateLimit.empty RateLimit.limiter_key RateLimit.prune lookup insert retain
    keep
check_at-newcomer_example =
    check_at-newcomer settings (v4 2) 10 12 used_once (omega arith) (omega arith) used_once-IsValid
      refl

-- A limiter behind a proxy, and requests whose forwarded address does not parse.
abbrev limiter : RateLimiter
limiter = record {
  settings = settings;
  hits = RateLimit.empty;
  unresolved = 3 ∷ [];
  throttled = "/api/auth/login" ∷ [];
  trusted_proxy = true;
}

abbrev hidden_request : Request
hidden_request = record {
  path = "/api/auth/login";
  headers = record { x_forwarded_for = none; x_real_ip = none };
  peer = none;
}

abbrev burst : List (Request × ℕ)
burst = (hidden_request, 12) ∷ (hidden_request, 13) ∷ (hidden_request, 14) ∷ []

unresolved_budget_example : passed (serve to_str parse limiter burst).0 ≤ 2
unfolding Ip.client_ip Ip.forwarded_for_rightmost Ip.real_ip any
unresolved_budget_example =
    unresolved_budget to_str parse limiter burst 12 (omega arith) (omega arith)
      (omega arith, omega arith, (omega arith, omega arith, (omega arith, omega arith, tt)))
      (refl, refl, (refl, refl, (refl, refl, tt))) (omega arith, omega arith) (omega arith)

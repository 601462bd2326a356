-- ===== src/Server/RateLimit/Keys.antt =====
-- Who shares a budget, and who always has one.
use mathlib.Core.Bool.{true}
use loontail_minecraft_netwo.Prelude.{
  ℕ, ◌/◌, ◌^◌, ◌≤◌, ◌<◌, ◌≡◌, ◌↔◌, refl, ap, ◌∙◌, [], keep, arith, inl, inr,
}
use loontail_minecraft_netwo.Server.Ip.{IpAddr, v4, v6}
use loontail_minecraft_netwo.Server.RateLimit.{
  Settings, Buckets, limiter_key, cutoff_at, make_room, bucket_of, check_at,
}
use loontail_minecraft_netwo.Server.RateLimit.Window.{after, Within-raise, admit-eq}
use loontail_minecraft_netwo.Server.RateLimit.Validity.{IsValid, make_room-Lost, make_room-IsValid}

v6_parts : {a b : ℕ} → v6 a ≡ v6 b → a ≡ b
v6_parts e = cc

-- Two IPv6 addresses share a bucket exactly when their upper 64 bits agree; an IPv4 address is its
-- own key, and shares it with no IPv6 address.
limiter_key-share :
    (a b : ℕ)
    → ((limiter_key (v6 a) ≡ limiter_key (v6 b)) ↔ (a / 2 ^ 64 ≡ b / 2 ^ 64))
      × ((limiter_key (v4 a) ≡ limiter_key (v4 b)) ↔ (a ≡ b))
      × ¬ (limiter_key (v4 a) ≡ limiter_key (v6 b))
unfolding limiter_key
limiter_key-share a b =
    ((λ e. (let p = v6_parts e in omega arith), λ e. rw e), (λ e. cc, λ e. rw e), λ e. cc)

-- In a valid table, on a clock that does not go back and with a budget that is not zero, a key
-- with no admitted attempt in the trailing window passes, however full the table is and whatever
-- the sweep and the eviction remove.
pub check_at-newcomer :
    (s : Settings) (ip : IpAddr) (t now : ℕ) (b : Buckets)
    → t ≤ now
    → 0 < s.max_attempts
    → IsValid s t b
    → after (cutoff_at s.window now) (bucket_of (limiter_key ip) b.map) ≡ []
    → (check_at s ip now b).0 ≡ true
unfolding check_at
check_at-newcomer s ip t now b h pos v idle =
    let c = cutoff_at s.window now in
    let key = limiter_key ip in
    let ready = make_room s key now b in
    let valid = make_room-IsValid s key t now b v in
    let bucket = bucket_of key ready.map in
    let live : after c bucket ≡ [] = elim ((make_room-Lost s key now b v.distinct).1 key) [
      | inl e ↦ ap (after c) e ∙ idle
      | inr e ↦ ap (after c) e ∙ (unfold keep in refl)
    ] in
    rw (admit-eq s 0 now now bucket (Within-raise 0 t now bucket h (valid.ordered key)), live)
      (ground arith)

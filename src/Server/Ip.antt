-- ===== src/Server/Ip.antt =====
-- crates/server/src/ip.rs: which address a request is attributed to. `IpAddr` carries its bits as
-- a number, most significant octet first; the standard library's text parser and the `to_str` of the
-- http crate, which fails on bytes outside visible ASCII, are arguments.
pub mod Trust
use mathlib.Core.Bool.{Bool, true, false}
use mathlib.Core.List.{reverse}
use mathlib.Core.Option
use native.Mathlib.Decide.{ℕ_discrete}
use loontail_minecraft_netwo.Prelude.{
  ℕ, ◌≡◌, ◌↔◌, ◌⊎◌, inl, inr, Option, none, some, List, [], ◌∷◌, ◌++◌, if◌then◌else◌, nat_beq, Eq,
  arith, nat_beq_iff, ◌||◌, refl,
}

pub data IpAddr : Type 0 where
  v4 : ℕ → IpAddr
  v6 : ℕ → IpAddr

abbrev pub ip_beq : IpAddr → IpAddr → Bool
ip_beq (v4 a) (v4 b) = nat_beq a b
ip_beq (v6 a) (v6 b) = nat_beq a b
ip_beq (v4 a) (v6 b) = false
ip_beq (v6 a) (v4 b) = false

pub ip_beq_iff : (a b : IpAddr) → (ip_beq a b ≡ true) ↔ (a ≡ b)
ip_beq_iff (v4 a) (v4 b) = ground arith
ip_beq_iff (v6 a) (v6 b) = ground arith
ip_beq_iff (v4 a) (v6 b) = ground arith
ip_beq_iff (v6 a) (v4 b) = ground arith

instance abbrev pub ip_eq : Eq IpAddr
ip_eq = record { same = ip_beq; same_iff = ip_beq_iff }

-- The bytes of the two forwarding headers, `none` where `get` finds none.
pub record HeaderMap : Type 0 where
  pub x_forwarded_for : Option (List ℕ)
  pub x_real_ip : Option (List ℕ)

-- `str::split(',')`: the current piece is kept reversed.
unfoldable pub split_from : List ℕ → List ℕ → List (List ℕ)
split_from cur [] = reverse cur ∷ []
split_from cur (c ∷ s) =
    let closed = reverse cur ∷ split_from [] s in
    let longer = split_from (c ∷ cur) s in if nat_beq c b',' then closed else longer

unfoldable pub split_comma : List ℕ → List (List ℕ)
unfolding split_from
split_comma s = split_from [] s

-- The ASCII part of `char::is_whitespace`.
abbrev pub is_space : ℕ → Bool
is_space c =
    nat_beq c 32
    || (nat_beq c 9 || (nat_beq c 10 || (nat_beq c 11 || (nat_beq c 12 || nat_beq c 13))))

unfoldable pub trim_start : List ℕ → List ℕ
trim_start [] = []
trim_start (c ∷ s) = if is_space c then trim_start s else c ∷ s

unfoldable pub trim : List ℕ → List ℕ
unfolding trim_start
trim s = reverse (trim_start (reverse (trim_start s)))

module _ (to_str : List ℕ → Option (List ℕ)) (parse : List ℕ → Option IpAddr) where
  -- `find_map` over the hops.
  unfoldable pub find_hop : List (List ℕ) → Option IpAddr
  unfolding trim
  find_hop [] = none
  find_hop (h ∷ hs) =
      let rest = find_hop hs in elim (parse (trim h)) [ none ↦ rest | some ip ↦ some ip ]

  -- `and_then(|v| v.to_str().ok())`
  abbrev pub readable : Option (List ℕ) → Option (List ℕ)
  readable none = none
  readable (some v) = to_str v

  unfoldable pub forwarded_for_rightmost : HeaderMap → Option IpAddr
  unfolding find_hop split_comma
  forwarded_for_rightmost headers = elim (readable headers.x_forwarded_for) [
    | none ↦ none
    | some v ↦ find_hop (reverse (split_comma v))
  ]

  unfoldable pub real_ip : HeaderMap → Option IpAddr
  unfolding trim
  real_ip headers = elim (readable headers.x_real_ip) [ none ↦ none | some raw ↦ parse (trim raw) ]

  unfoldable pub client_ip : HeaderMap → Option IpAddr → Bool → Option IpAddr
  unfolding forwarded_for_rightmost real_ip
  client_ip headers peer_addr trusted_proxy =
      if trusted_proxy
      then elim (forwarded_for_rightmost headers) [
        | some ip ↦ some ip
        | none ↦ elim (real_ip headers) [ some ip ↦ some ip | none ↦ peer_addr ]
      ]
      else peer_addr

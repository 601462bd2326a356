-- ===== src/Server/Ip/Trust.antt =====
-- What a client can and cannot forge.
use mathlib.Core.Bool.{true, false}
use mathlib.Core.List.{reverse, reverse-cons, reverse-append, append_assoc, append-nil}
use loontail_minecraft_netwo.Prelude.{
  ℕ, ◌≡◌, refl, ap, ◌∙◌, Option, none, some, List, [], ◌∷◌, ◌++◌, All, nat_beq, arith, Option-cases,
  inl, inr,
}
use loontail_minecraft_netwo.Server.Ip.{IpAddr, split_from, trim, find_hop, readable, client_ip}

abbrev pub NoComma : List ℕ → Type 0
NoComma = All λ c. nat_beq c b',' ≡ false

split_from-NoComma :
    (cur hop : List ℕ) → NoComma hop → split_from cur hop ≡ (reverse cur ++ hop) ∷ []
unfolding split_from
split_from-NoComma cur [] h = rw (append-nil (reverse cur))
split_from-NoComma cur (c ∷ hop) (here, h) = rw here (
    split_from-NoComma (c ∷ cur) hop h
    ∙ ap (λ x. x ∷ []) (rw (reverse-cons c cur) (append_assoc (reverse cur) (c ∷ []) hop)))

split_from-append :
    (cur s hop : List ℕ)
    → NoComma hop
    → split_from cur (s ++ b',' ∷ hop) ≡ split_from cur s ++ hop ∷ []
unfolding split_from
split_from-append cur [] hop h = ap (λ x. reverse cur ∷ x) (split_from-NoComma [] hop h)
split_from-append cur (c ∷ s) hop h =
    ground (arith, split_from-append [] s hop h, split_from-append (c ∷ cur) s hop h)

module _ (to_str : List ℕ → Option (List ℕ)) (parse : List ℕ → Option IpAddr)
    (reads_itself : (v t : List ℕ) → to_str v ≡ some t → t ≡ v) where
  -- Behind a trusted proxy, let the last hop of `X-Forwarded-For` hold no comma and parse, and let
  -- `to_str` give the bytes of a value that it accepts. If it accepts the header, the address is that
  -- hop: whatever else the client sends before that comma, in `X-Real-IP`, or as its own address,
  -- changes nothing. If it does not, the address is that of `X-Real-IP`, or else of the peer.
  pub client_ip-trusted_hop :
      (forged hop : List ℕ) (x_real_ip : Option (List ℕ)) (peer : Option IpAddr) (ip : IpAddr)
      → NoComma hop
      → parse (trim hop) ≡ some ip
      → client_ip to_str parse
          (record { x_forwarded_for = some (forged ++ b',' ∷ hop); x_real_ip = x_real_ip })
          peer
          true
        ≡ elim (to_str (forged ++ b',' ∷ hop)) [
          | some text ↦ some ip
          | none ↦ elim (readable to_str parse x_real_ip) [
            | none ↦ peer
            | some raw ↦ elim (parse (trim raw)) [ some other ↦ some other | none ↦ peer ]
          ]
        ]
  unfolding client_ip find_hop
  client_ip-trusted_hop forged hop x_real_ip peer ip h e =
      elim (Option-cases (to_str (forged ++ b',' ∷ hop))) [
        | inl n ↦
            rw (n, client_ip)
              (elim (Option-cases (readable to_str parse x_real_ip)) [
                | inl m ↦ rw m refl
                | inr (raw, m) ↦ rw m refl
              ])
        | inr (text, y) ↦
            rw (y, client_ip)
              (rw (reads_itself _ text y) (
                rw
                  (
                    split_from-append [] forged hop h,
                    reverse-append (split_from [] forged) (hop ∷ []),
                    e,
                  )
                  refl))
      ]

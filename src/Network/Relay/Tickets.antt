-- ===== src/Network/Relay/Tickets.antt =====
-- What opening a tunnel takes.
use Prim.Native.String.{String}
use mathlib.Core.Bool.{true, false}
use text.Mathlib.TextEquality.{eq_iff}
use loontail_minecraft_netwo.Prelude.{
  ℕ, ◌≡◌, ◌<◌, refl, Option, none, some, List, [], ◌∷◌, any, update_where, arith, Option-cases,
  Bool-cases, inl, inr, any-witness,
}
use loontail_minecraft_netwo.Network.Store.{JoinTicket, RelaySession, is_ended, Net, Env}
use loontail_minecraft_netwo.Network.Effect.{done, fail, unauthorized}
use loontail_minecraft_netwo.Realtime.Rendezvous.{RelayRole, host, guest}
use loontail_minecraft_netwo.Network.Relay.{
  find_relay, is_valid_ticket, is_unconsumed_id, consume, ticket_is_valid, consume_ticket,
  validate_guest_ticket, authorize,
}

none_valid :
    (env later : Env) (ticket_id : ℕ) (guest_id : Option ℕ) (token : String) (ts : List JoinTicket)
    → any
        (is_valid_ticket later ticket_id guest_id token)
        (update_where (is_unconsumed_id ticket_id) (consume env.now) ts)
      ≡ false
unfolding any update_where
none_valid env later ticket_id guest_id token [] = refl
none_valid env later ticket_id guest_id token (t ∷ ts) =
    let rest = none_valid env later ticket_id guest_id token ts in
    elim (Bool-cases (is_unconsumed_id ticket_id t)) [
      | inl u ↦ rw (u, rest) (ground arith)
      | inr u ↦ rw (u, rest) (ground arith)
    ]

-- A ticket opens one tunnel: once a guest was let in, the same relay session lets no guest in again,
-- whatever the token and whenever the second request is handled, and the refusal changes nothing.
pub validate_guest_ticket_once :
    (env later : Env) (relay : RelaySession) (token again : String) (s t : Net)
    → validate_guest_ticket env relay token s ≡ done tt t
    → validate_guest_ticket later relay again t ≡ fail unauthorized t
unfolding validate_guest_ticket ticket_is_valid consume_ticket
validate_guest_ticket_once env later relay token again s t h =
    elim (Option-cases relay.join_ticket_id) [
      | inl e ↦ absurd (ground arith)
      | inr (ticket_id, e) ↦
          ground (arith, none_valid env later ticket_id relay.guest_user_id again s.tickets)
    ]

-- What the caller has shown: the host is the session's host, by a session token; the guest holds
-- the session's ticket, issued to the session's guest, not yet lapsed and not yet used.
abbrev pub Shown :
    (String → Net → Option ℕ) → Env → String → RelaySession → RelayRole → Net → Type 0
Shown user_from_token env token relay host s = user_from_token token s ≡ some relay.host_user_id
Shown user_from_token env token relay guest s =
    (ticket : JoinTicket) × (relay.join_ticket_id ≡ some ticket.id)
    × (relay.guest_user_id ≡ some ticket.user_id)
    × (ticket.token_hash ≡ env.hash_token token)
    × (ticket.consumed_at ≡ none)
    × (env.now < ticket.expires_at)
    × (any (is_valid_ticket env ticket.id relay.guest_user_id token) s.tickets ≡ true)

valid_ticket_parts :
    (env : Env) (ticket_id : ℕ) (guest_id : Option ℕ) (token : String) (t : JoinTicket)
    → is_valid_ticket env ticket_id guest_id token t ≡ true
    → (t.id ≡ ticket_id)
      × (guest_id ≡ some t.user_id)
      × (t.token_hash ≡ env.hash_token token)
      × (t.consumed_at ≡ none)
      × (env.now < t.expires_at)
valid_ticket_parts env ticket_id guest_id token t h = (
  ground arith,
  ground arith,
  ground (arith, eq_iff t.token_hash (env.hash_token token)),
  ground arith,
  ground arith,
)

guest-Shown :
    (user_from_token : String → Net → Option ℕ) (env : Env) (token : String) (relay : RelaySession)
    (s : Net) (ticket_id : ℕ)
    → relay.join_ticket_id ≡ some ticket_id
    → any (is_valid_ticket env ticket_id relay.guest_user_id token) s.tickets ≡ true
    → Shown user_from_token env token relay guest s
guest-Shown user_from_token env token relay s ticket_id e h =
    let (t, valid) =
      any-witness (is_valid_ticket env ticket_id relay.guest_user_id token) s.tickets h in
    let (own, whose, hash, unused, in_time) =
      valid_ticket_parts env ticket_id relay.guest_user_id token t valid in
    (t, rw own e, whose, hash, unused, in_time, rw own h)

-- Whoever takes a side of a tunnel asked for that side of a session that exists and is not
-- closed, with its credential: the host by a session token of the host, the guest by the unused
-- and unexpired ticket of the session, issued to its guest.
pub authorize_sound :
    (user_from_token : String → Net → Option ℕ) (env : Env) (id : ℕ) (presented : Option String)
    (wanted : Option RelayRole) (role : RelayRole) (s t : Net)
    → authorize user_from_token env id presented wanted s ≡ done role t
    → (relay : RelaySession) × (token : String) × (find_relay id s ≡ some relay)
      × (presented ≡ some token)
      × (wanted ≡ some role)
      × (is_ended relay.status ≡ false)
      × Shown user_from_token env token relay role s
unfolding authorize validate_guest_ticket ticket_is_valid
authorize_sound user_from_token env id (some token) (some host) role s t h =
    elim (Option-cases (find_relay id s)) [
      | inl e ↦ absurd (ground arith)
      | inr (relay, e) ↦
          let same : role ≡ host = ground arith in
          (relay, token, e, refl, rw same refl, ground arith, rw same (ground arith))
    ]
authorize_sound user_from_token env id (some token) (some guest) role s t h =
    elim (Option-cases (find_relay id s)) [
      | inl e ↦ absurd (ground arith)
      | inr (relay, e) ↦ elim (Option-cases relay.join_ticket_id) [
        | inl f ↦ absurd (ground arith)
        | inr (ticket_id, f) ↦
            let same : role ≡ guest = ground arith in
            (
              relay,
              token,
              e,
              refl,
              rw same refl,
              ground arith,
              rw same (guest-Shown user_from_token env token relay s ticket_id f (ground arith)),
            )
      ]
    ]
authorize_sound user_from_token env id (some token) none role s t h = absurd (ground arith)
authorize_sound user_from_token env id none wanted role s t h = absurd (ground arith)

-- ===== src/Network/Relay.antt =====
-- crates/network/src/relay.rs: who may open the tunnel of a relay session, the single use of a join
-- ticket, and the player slots of a world. A database error is left out, as everywhere; a failed
-- statement would only be logged here.
pub mod Tickets
pub mod Slots
use Prim.Native.String.{String}
use mathlib.Core.Bool.{Bool, true, false, ◌&&◌, ◌||◌, not}
use text.Mathlib.Text.{◌==◌ as str_eq}
use loontail_minecraft_netwo.Prelude.{
  ℕ, ◌+◌, ◌-◌, ◌≡◌, Option, none, some, List, ◌∷◌, leb, ltb, nat_beq, if◌then◌else◌, any, find,
  update_where, count_where,
}
use loontail_minecraft_netwo.Network.Presence.{broadcast_presence}
use loontail_minecraft_netwo.Realtime.Rendezvous.{RelayRole, host, guest}
use loontail_minecraft_netwo.Network.Store.{
  WorldSession, JoinTicket, RelaySession, RelayStatus, active, ended, is_open, is_ended, Net, Env,
}
use loontail_minecraft_netwo.Network.Effect.{
  AppError, bad_request, not_found, conflict, forbidden, unauthorized, M, ◌>>=◌, ◌>>◌, ret, raise,
  guard, gets, modify, or_fail, final,
}

abbrev pub has_relay_id : ℕ → RelaySession → Bool
has_relay_id id r = nat_beq r.id id

unfoldable pub find_relay : ℕ → Net → Option RelaySession
find_relay id s = find (has_relay_id id) s.relays

abbrev pub is_some_id : Option ℕ → ℕ → Bool
is_some_id none id = false
is_some_id (some j) id = nat_beq j id

-- The condition of the `SELECT EXISTS` in `validate_guest_ticket`.
abbrev pub is_unconsumed : JoinTicket → Bool
is_unconsumed t = elim t.consumed_at [ none ↦ true | some at ↦ false ]

abbrev pub has_ticket_id : ℕ → JoinTicket → Bool
has_ticket_id id t = nat_beq t.id id

abbrev pub is_valid_ticket : Env → ℕ → Option ℕ → String → JoinTicket → Bool
is_valid_ticket env ticket_id guest_id token t =
    has_ticket_id ticket_id t
    && (str_eq t.token_hash (env.hash_token token)
        && (is_some_id guest_id t.user_id && (is_unconsumed t && ltb env.now t.expires_at)))

abbrev pub is_unconsumed_id : ℕ → JoinTicket → Bool
is_unconsumed_id ticket_id t = has_ticket_id ticket_id t && is_unconsumed t

abbrev pub consume : ℕ → JoinTicket → JoinTicket
consume now t = record t { consumed_at = some now }

-- The two statements of `validate_guest_ticket`, which other requests may come between.
unfoldable pub ticket_is_valid : Env → ℕ → Option ℕ → String → Net → Bool
ticket_is_valid env ticket_id guest_id token s =
    any (is_valid_ticket env ticket_id guest_id token) s.tickets

unfoldable pub consume_ticket : Env → ℕ → Net → Net
consume_ticket env ticket_id s = record s {
  tickets = update_where (is_unconsumed_id ticket_id) (consume env.now) s.tickets;
}

unfoldable pub validate_guest_ticket : Env → RelaySession → String → M (Unit {0})
unfolding ticket_is_valid consume_ticket
validate_guest_ticket env relay token = do
  ticket_id ← or_fail relay.join_ticket_id (conflict "relay session has no ticket")
  valid ← gets (ticket_is_valid env ticket_id relay.guest_user_id token)
  guard valid unauthorized
  modify (consume_ticket env ticket_id)

-- `relay_ws` up to the upgrade: which side of which session the caller may take. The role text is
-- given as it was parsed, `none` for any other; `user_from_token` is an argument.
unfoldable pub authorize :
    (String → Net → Option ℕ) → Env → ℕ → Option String → Option RelayRole → M RelayRole
unfolding find_relay validate_guest_ticket
authorize user_from_token env relay_session_id presented role = do
  token ← or_fail presented unauthorized
  found ← gets (find_relay relay_session_id)
  relay ← or_fail found (not_found "relay session not found")
  guard (not (is_ended relay.status)) (conflict "relay session is closed")
  wanted ← or_fail role (bad_request "role must be host or guest")
  elim wanted [
    | host ↦ do
      known ← gets (user_from_token token)
      user ← or_fail known unauthorized
      guard (nat_beq user relay.host_user_id) forbidden
      ret host
    | guest ↦ do validate_guest_ticket env relay token; ret guest
  ]

-- `UPDATE world_sessions SET current_players = current_players + 1 WHERE …`
abbrev pub has_slot : ℕ → WorldSession → Bool
has_slot id w = nat_beq w.id id && (is_open w.status && ltb w.current_players w.max_players)

abbrev pub take_slot : WorldSession → WorldSession
take_slot w = record w { current_players = w.current_players + 1 }

abbrev pub free_slot : WorldSession → WorldSession
free_slot w = record w { current_players = w.current_players - 1 }

unfoldable pub try_admit_player : ℕ → Net → Bool × Net
try_admit_player world_id s = (
  any (has_slot world_id) s.worlds,
  record s { worlds = update_where (has_slot world_id) take_slot s.worlds },
)

-- `GREATEST(current_players - 1, 0)`
unfoldable pub release_player : ℕ → Net → Net
release_player world_id s = record s {
  worlds = update_where (λ w. nat_beq w.id world_id) free_slot s.worlds;
}

unfoldable pub mark_relay_active : ℕ → Net → Net
mark_relay_active id s = record s {
  relays =
      update_where (λ r. has_relay_id id r && not (is_ended r.status))
        (λ r. record r { status = active }) s.relays;
}

unfoldable pub mark_relay_closed : Env → ℕ → Net → Net
mark_relay_closed env id s = record s {
  relays =
      update_where (has_relay_id id) (λ r. record r { status = ended; closed_at = some env.now })
        s.relays;
}

-- `handle_relay` once both parties are there, up to the pump and after it. A world that is full
-- refuses the guest.
abbrev pub announce_guest : Option ℕ → Net → Net
announce_guest none s = s
announce_guest (some guest_id) s = final (broadcast_presence guest_id s)

unfoldable pub begin_pairing : Env → ℕ → ℕ → Option ℕ → Net → Bool × Net
unfolding try_admit_player mark_relay_active mark_relay_closed broadcast_presence
begin_pairing env relay world guest_id s =
    let (ok, seated) = try_admit_player world s in
    if ok
    then (true, announce_guest guest_id (mark_relay_active relay seated))
    else (false, mark_relay_closed env relay seated)

unfoldable pub end_pairing : Env → ℕ → ℕ → Option ℕ → Net → Net
unfolding release_player mark_relay_closed broadcast_presence
end_pairing env relay world guest_id s =
    announce_guest guest_id (mark_relay_closed env relay (release_player world s))

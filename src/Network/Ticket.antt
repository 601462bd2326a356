-- ===== src/Network/Ticket.antt =====
-- `issue_ticket_and_relay_tx` and `issue_ticket_and_relay` of crates/network/src/join.rs.
use mathlib.Core.Option
use loontail_minecraft_netwo.Prelude.{ℕ, ◌+◌, Option, none, some, ◌∷◌, find, nat_beq}
use loontail_minecraft_netwo.Network.Store.{
  WorldSession, JoinTicket, RelaySession, waiting, JoinTicketDto, Net, Env,
}
use loontail_minecraft_netwo.Network.Effect.{
  database, M, ◌>>=◌, ◌>>◌, ret, gets, modify, or_fail, fresh_id, transaction,
}
use loontail_minecraft_netwo.Network.Query.{find_presence}

unfoldable pub find_world : ℕ → Net → Option WorldSession
find_world id s = find (λ w. nat_beq w.id id) s.worlds

abbrev pub new_ticket : Env → ℕ → ℕ → ℕ → JoinTicket
new_ticket env id guest_id world_session_id = record {
  id = id;
  user_id = guest_id;
  world_session_id = world_session_id;
  token_hash = env.hash_token env.token;
  expires_at = env.now + env.join_ticket_ttl;
  consumed_at = none;
  created_at = env.now;
}

abbrev pub new_relay : Env → ℕ → ℕ → ℕ → ℕ → ℕ → RelaySession
new_relay env id guest_id host_id world_session_id ticket_id = record {
  id = id;
  world_session_id = world_session_id;
  host_user_id = host_id;
  guest_user_id = some guest_id;
  join_ticket_id = some ticket_id;
  status = waiting;
  created_at = env.now;
  closed_at = none;
}

-- `fetch_one` on a world that is not there is a database error.
unfoldable pub issue_ticket_and_relay_tx : Env → ℕ → ℕ → ℕ → M JoinTicketDto
unfolding find_world
issue_ticket_and_relay_tx env guest_id host_id world_session_id = do
  found ← gets (find_world world_session_id)
  world ← or_fail found database
  host_presence ← gets (find_presence world.host_user_id)
  ticket_id ← fresh_id
  modify
      (λ s. record s { tickets = new_ticket env ticket_id guest_id world_session_id ∷ s.tickets })
  relay_session_id ← fresh_id
  modify (λ s. record s {
    relays = new_relay env relay_session_id guest_id host_id world_session_id ticket_id ∷ s.relays;
  })
  ret (record {
    ticket = env.token;
    relay_session_id = relay_session_id;
    world_session_id = world_session_id;
    host_user_id = host_id;
    expires_at = env.now + env.join_ticket_ttl;
    invite_policy = world.invite_policy;
    host_minecraft_version = Option.bind host_presence (λ p. p.minecraft_version);
    host_loader = Option.bind host_presence (λ p. p.loader);
  })

unfoldable pub issue_ticket_and_relay : Env → ℕ → ℕ → ℕ → M JoinTicketDto
unfolding issue_ticket_and_relay_tx
issue_ticket_and_relay env guest_id host_id world_session_id =
    transaction (issue_ticket_and_relay_tx env guest_id host_id world_session_id)

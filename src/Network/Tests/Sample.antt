-- ===== src/Network/Tests/Sample.antt =====
-- A small network: the host 1 has an open world 10; 2 is a friend of the host, and 3 a friend of 2,
-- who is in the world.
use loontail_minecraft_netwo.Prelude.{ℕ, [], ◌∷◌, none, some}
use loontail_minecraft_netwo.Network.Store.{
  Net, Env, User, Presence, WorldSession, JoinRequest, WorldInvite, JoinTicket, RelaySession,
  RequestStatus, pending, pending_approval, opened, friends_of_friends, joinable, active, waiting,
}

abbrev pub env : Env
env = record {
  now = 1000;
  heartbeat_timeout = 60;
  join_ticket_ttl = 60;
  join_request_ttl = 60;
  invite_ttl = 600;
  max_players_per_world = 5;
  token = "secret";
  hash_token = λ t. t;
}

abbrev pub user : ℕ → User
user id = record { id = id; minecraft_uuid = none; username = "player" }

abbrev pub world : WorldSession
world = record {
  id = 10;
  host_user_id = 1;
  status = opened;
  max_players = 3;
  current_players = 1;
  invite_policy = friends_of_friends;
  created_at = 900;
  closed_at = none;
}

abbrev pub live : ℕ → Presence
live id = record {
  user_id = id;
  status = joinable;
  last_heartbeat_at = 990;
  current_world_session_id = none;
  minecraft_version = some "1.21";
  loader = some "fabric";
}

abbrev pub asked : JoinRequest
asked = record {
  id = 20;
  requester_user_id = 3;
  host_user_id = 1;
  world_session_id = 10;
  status = pending;
  expires_at = 1030;
  created_at = 970;
  updated_at = 970;
}

abbrev pub invite : ℕ → ℕ → RequestStatus → WorldInvite
invite id invitee status = record {
  id = id;
  world_session_id = 10;
  host_user_id = 1;
  inviter_user_id = 2;
  invitee_user_id = invitee;
  status = status;
  expires_at = 1500;
  created_at = 900;
  updated_at = 900;
}

abbrev pub ticket : JoinTicket
ticket = record {
  id = 40;
  user_id = 3;
  world_session_id = 10;
  token_hash = "secret";
  expires_at = 1030;
  consumed_at = none;
  created_at = 970;
}

abbrev pub tunnel : RelaySession
tunnel = record {
  id = 51;
  world_session_id = 10;
  host_user_id = 1;
  guest_user_id = some 3;
  join_ticket_id = some 40;
  status = waiting;
  created_at = 970;
  closed_at = none;
}

abbrev pub in_world : RelaySession
in_world = record tunnel { id = 50; guest_user_id = some 2; join_ticket_id = none; status = active }

abbrev pub net : Net
net = record {
  users = user 1 ∷ user 2 ∷ user 3 ∷ [];
  friendships =
      record { user_a_id = 1; user_b_id = 2 } ∷ record { user_a_id = 2; user_b_id = 3 } ∷ [];
  friend_requests = [];
  presence = live 1 ∷ live 2 ∷ [];
  worlds = world ∷ [];
  join_requests = asked ∷ [];
  invites = invite 31 3 pending ∷ invite 30 4 pending_approval ∷ [];
  tickets = ticket ∷ [];
  relays = tunnel ∷ in_world ∷ [];
  next_id = 60;
  sent = [];
}

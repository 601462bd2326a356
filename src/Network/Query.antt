-- ===== src/Network/Query.antt =====
-- The reads that the handlers share: crates/network/src/queries.rs, `load_open_world_session`,
-- `fetch_user_dto`, `effective_status_for`, `is_friend_of_active_member`, and the invites' and
-- requests' row locks, which are plain reads here because a handler runs on its own.
use mathlib.Core.Bool.{Bool, false, ◌&&◌, not}
use loontail_minecraft_netwo.Prelude.{
  ℕ, ◌+◌, ◌-◌, Option, none, some, leb, ltb, nat_beq, if◌then◌else◌, any, find,
}
use loontail_minecraft_netwo.Network.Store.{
  User, Friendship, Presence, WorldSession, RelaySession, PresenceStatus, offline, is_offline,
  is_open, is_active, Net, Env,
}
use loontail_minecraft_netwo.Network.Effect.{not_found, M, ◌>>=◌, gets, or_fail}

-- SQL's LEAST and GREATEST.
abbrev pub least : ℕ → ℕ → ℕ
least a b = if leb a b then a else b

abbrev pub greatest : ℕ → ℕ → ℕ
greatest a b = if leb a b then b else a

abbrev pub is_pair : ℕ → ℕ → Friendship → Bool
is_pair a b f = nat_beq f.user_a_id (least a b) && nat_beq f.user_b_id (greatest a b)

unfoldable pub are_friends : ℕ → ℕ → Net → Bool
are_friends a b s = any (is_pair a b) s.friendships

abbrev pub has_user_id : ℕ → User → Bool
has_user_id id u = nat_beq u.id id

unfoldable pub user_exists : ℕ → Net → Bool
user_exists id s = any (has_user_id id) s.users

unfoldable pub find_user : ℕ → Net → Option User
find_user id s = find (has_user_id id) s.users

unfoldable pub fetch_user_dto : ℕ → M User
unfolding find_user
fetch_user_dto id = do found ← gets (find_user id); or_fail found (not_found "user not found")

abbrev pub is_open_world : ℕ → WorldSession → Bool
is_open_world id w = nat_beq w.id id && is_open w.status

unfoldable pub find_open_world : ℕ → Net → Option WorldSession
find_open_world id s = find (is_open_world id) s.worlds

unfoldable pub load_open_world_session : ℕ → M WorldSession
unfolding find_open_world
load_open_world_session id = do
  found ← gets (find_open_world id)
  or_fail found (not_found "world session not found or closed")

abbrev pub is_presence_of : ℕ → Presence → Bool
is_presence_of user p = nat_beq p.user_id user

unfoldable pub find_presence : ℕ → Net → Option Presence
find_presence user s = find (is_presence_of user) s.presence

-- `effective_status` of crates/network/src/presence.rs.
unfoldable pub effective_status : PresenceStatus → ℕ → ℕ → ℕ → PresenceStatus
effective_status stored last_heartbeat timeout now =
    if ltb timeout (now - last_heartbeat) then offline else stored

unfoldable pub effective_status_for : Env → ℕ → Net → PresenceStatus
unfolding effective_status find_presence
effective_status_for env user s = elim (find_presence user s) [
  | none ↦ offline
  | some p ↦ effective_status p.status p.last_heartbeat_at env.heartbeat_timeout env.now
]

-- The user is not stored as offline, and was heard of within the timeout.
abbrev pub is_live : Env → Presence → Bool
is_live env p =
    not (is_offline p.status) && ltb env.now (p.last_heartbeat_at + env.heartbeat_timeout)

-- The relay session links a live guest of the world who is a friend of `requester`.
abbrev vouches : Env → ℕ → ℕ → Net → RelaySession → Bool
vouches env requester world s rs = elim rs.guest_user_id [
  | none ↦ false
  | some guest ↦
      nat_beq rs.world_session_id world
      && (is_active rs.status
          && (are_friends guest requester s
              && any (λ p. is_presence_of guest p && is_live env p) s.presence))
]

unfoldable pub is_friend_of_active_member : Env → ℕ → ℕ → Net → Bool
unfolding are_friends
is_friend_of_active_member env requester world s = any (vouches env requester world s) s.relays

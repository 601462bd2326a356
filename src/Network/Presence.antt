-- ===== src/Network/Presence.antt =====
-- crates/network/src/presence.rs: heartbeats, the explicit status, and what friends are shown.
-- `effective_status` and `effective_status_for` stand with the shared queries.
pub mod Shown
pub mod Owned
use Prim.Native.String.{String}
use mathlib.Core.Bool.{Bool, true, false, ◌&&◌, ◌||◌, not}
use loontail_minecraft_netwo.Prelude.{
  ℕ, Option, none, some, List, [], ◌∷◌, map, nat_beq, leb, if◌then◌else◌, any, find, keep,
  update_where,
}
use loontail_minecraft_netwo.Network.Store.{
  User, Friendship, Presence, PresenceStatus, WorldSession, RelaySession, offline, online, in_world,
  is_offline, is_in_world, is_open, is_active, is_friends_of_friends, presence_update, Net, Env,
}
use loontail_minecraft_netwo.Network.Effect.{
  bad_request, M, ◌>>=◌, ◌>>◌, ret, raise, guard, gets, modify,
}
use loontail_minecraft_netwo.Network.Query.{
  is_presence_of, find_presence, find_user, effective_status, effective_status_for,
}

-- `PresenceStatus::from_client` answers no other status than these.
unfoldable pub derive_friend_status :
    PresenceStatus → Option ℕ → Option ℕ → PresenceStatus × Option ℕ
derive_friend_status base (some world) current =
    if not (is_offline base)
    then (in_world, some world)
    else if is_in_world base
    then (base, current)
    else (base, none)
derive_friend_status base none current = if is_in_world base then (base, current) else (base, none)

abbrev pub fresh_presence : ℕ → ℕ → Presence
fresh_presence now user = record {
  user_id = user;
  status = online;
  last_heartbeat_at = now;
  current_world_session_id = none;
  minecraft_version = none;
  loader = none;
}

abbrev pub revive : ℕ → Presence → Presence
revive now p = record p {
  last_heartbeat_at = now;
  status = if is_offline p.status then online else p.status;
}

-- `INSERT … ON CONFLICT (user_id) DO UPDATE`
unfoldable pub upsert : Presence → (Presence → Presence) → List Presence → List Presence
upsert new change rows =
    if any (is_presence_of new.user_id) rows
    then update_where (is_presence_of new.user_id) change rows
    else new ∷ rows

unfoldable pub mark_online : Env → ℕ → M (Unit {0})
unfolding upsert
mark_online env user =
    modify (λ s. record s {
      presence = upsert (fresh_presence env.now user) (revive env.now) s.presence;
    })

unfoldable pub heartbeat : Env → ℕ → M PresenceStatus
unfolding upsert
heartbeat env user = do
  modify (λ s. record s {
    presence = upsert (fresh_presence env.now user) (revive env.now) s.presence;
  })
  gets (effective_status_for env user)

unfoldable pub mark_offline : ℕ → M (Unit {0})
mark_offline user = modify (λ s. record s {
  presence =
      update_where (is_presence_of user)
        (λ p. record p { status = offline; current_world_session_id = none }) s.presence;
})

abbrev pub kept_or : Option String → Option String → Option String
kept_or none old = old
kept_or (some new) old = some new

-- `ON CONFLICT (user_id) DO UPDATE` of the bootstrap: the world stays.
abbrev pub welcome : ℕ → Option String → Option String → Presence → Presence
welcome now version loader p = record p {
  status = online;
  last_heartbeat_at = now;
  minecraft_version = kept_or version p.minecraft_version;
  loader = kept_or loader p.loader;
}

-- The presence statement of crates/network/src/users.rs, less the version of the mod.
unfoldable pub bootstrap_presence : Env → ℕ → Option String → Option String → M (Unit {0})
unfolding upsert
bootstrap_presence env user version loader = modify (λ s. record s {
  presence =
      upsert (welcome env.now version loader (fresh_presence env.now user))
        (welcome env.now version loader) s.presence;
})

abbrev pub touches : ℕ → Friendship → Bool
touches user f = nat_beq f.user_a_id user || nat_beq f.user_b_id user

-- The other end of a friendship.
abbrev pub other_end : ℕ → Friendship → ℕ
other_end user f = if nat_beq f.user_a_id user then f.user_b_id else f.user_a_id

unfoldable pub friend_ids : ℕ → Net → List ℕ
friend_ids user s = map (other_end user) (keep (touches user) s.friendships)

abbrev pub push_updates : ℕ → List ℕ → Net → Net
push_updates user [] s = s
push_updates user (friend ∷ friends) s =
    push_updates user friends (record s { sent = (friend, presence_update user) ∷ s.sent })

unfoldable pub broadcast_presence : ℕ → M (Unit {0})
unfolding friend_ids
broadcast_presence user = modify (λ s. push_updates user (friend_ids user s) s)

abbrev pub owns : ℕ → ℕ → WorldSession → Bool
owns user world w = nat_beq w.id world && (nat_beq w.host_user_id user && is_open w.status)

-- Entering a world that is named requires it to be an open world of this user.
abbrev pub may_enter : PresenceStatus → Option ℕ → ℕ → Net → Bool
may_enter status none user s = true
may_enter status (some world) user s = not (is_in_world status) || any (owns user world) s.worlds

-- The two halves of the statement that `set_status` writes with.
abbrev pub enter : Env → PresenceStatus → Option ℕ → Presence → Presence
enter env status world p = record p {
  status = status;
  last_heartbeat_at = env.now;
  current_world_session_id = if is_in_world status then world else none;
}

abbrev pub entered : Env → ℕ → PresenceStatus → Option ℕ → Presence
entered env user status world = enter env status world (fresh_presence env.now user)

-- The status is given as it was parsed, `none` for a text that is no status of a client.
unfoldable pub set_status : Env → ℕ → Option PresenceStatus → Option ℕ → M PresenceStatus
unfolding upsert broadcast_presence
set_status env user none world = raise (bad_request "status must be online, inWorld or joinable")
set_status env user (some status) world = do
  allowed ← gets (may_enter status world user)
  guard allowed (bad_request "currentWorldSessionId must be your own open world session")
  modify (λ s. record s {
    presence = upsert (entered env user status world) (enter env status world) s.presence;
  })
  broadcast_presence user
  ret status

-- `FriendPresence`
pub record FriendPresence : Type 0 where
  pub user : User
  pub status : PresenceStatus
  pub current_world_session_id : Option ℕ
  pub minecraft_version : Option String
  pub loader : Option String

-- The subquery of the world that a user is an active guest in: the latest such session.
abbrev pub is_guest_in : ℕ → Net → RelaySession → Bool
is_guest_in user s rs = elim rs.guest_user_id [
  | none ↦ false
  | some guest_id ↦
      nat_beq guest_id user
      && (is_active rs.status
          && any
              (λ w.
                nat_beq w.id rs.world_session_id
                && (is_open w.status && is_friends_of_friends w.invite_policy))
              s.worlds)
]

abbrev pub guest_world : ℕ → Net → Option ℕ
guest_world user s = elim (find (is_guest_in user s) s.relays) [
  | none ↦ none
  | some rs ↦ some rs.world_session_id
]

-- The columns of a `LEFT JOIN` with the presence row.
abbrev pub base_status : Env → Option Presence → PresenceStatus
base_status env none = offline
base_status env (some p) =
    effective_status p.status p.last_heartbeat_at env.heartbeat_timeout env.now

unfoldable pub friend_presence : Env → Net → User → FriendPresence
unfolding derive_friend_status effective_status find_presence
friend_presence env s u =
    let row = find_presence u.id s in
    let current : Option ℕ = elim row [ none ↦ none | some p ↦ p.current_world_session_id ] in
    let shown = derive_friend_status (base_status env row) (guest_world u.id s) current in
    record {
      user = u;
      status = shown.0;
      current_world_session_id = shown.1;
      minecraft_version = elim row [ none ↦ none | some p ↦ p.minecraft_version ];
      loader = elim row [ none ↦ none | some p ↦ p.loader ];
    }

abbrev pub present_each : Env → Net → List ℕ → List FriendPresence
present_each env s [] = []
present_each env s (id ∷ ids) =
    let rest = present_each env s ids in
    elim (find_user id s) [ none ↦ rest | some u ↦ friend_presence env s u ∷ rest ]

-- The order of the answer, by name, is left out.
unfoldable pub friends_with_presence : Env → ℕ → Net → List FriendPresence
unfolding friend_ids friend_presence find_user
friends_with_presence env user s = present_each env s (friend_ids user s)

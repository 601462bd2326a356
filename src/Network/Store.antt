-- ===== src/Network/Store.antt =====
-- The rows of the network tables (migrations/0001_init.sql, 0002_invites.sql, 0015), and the types
-- of crates/core/src/models.rs. A UUID and a time are numbers; a table lists its newest row first.
use Prim.Native.String.{String}
use mathlib.Core.Bool.{Bool, true, false}
use loontail_minecraft_netwo.Prelude.{ℕ, ◌≡◌, ◌↔◌, Option, List, nat_beq, Eq, arith}

pub data RequestStatus : Type 0 where
  pending pending_approval accepted declined revoked expired : RequestStatus

pub data WorldStatus : Type 0 where
  opened closed : WorldStatus

pub data InvitePolicy : Type 0 where
  host_only friends_of_friends : InvitePolicy

pub data PresenceStatus : Type 0 where
  offline online in_world joinable : PresenceStatus

-- The text column `relay_sessions.status`, by the three literals that are ever written to it.
pub data RelayStatus : Type 0 where
  waiting active ended : RelayStatus

abbrev status_tag : RequestStatus → ℕ
status_tag pending = 0
status_tag pending_approval = 1
status_tag accepted = 2
status_tag declined = 3
status_tag revoked = 4
status_tag expired = 5

abbrev pub status_beq : RequestStatus → RequestStatus → Bool
status_beq a b = nat_beq (status_tag a) (status_tag b)

pub status_beq_iff : (a b : RequestStatus) → (status_beq a b ≡ true) ↔ (a ≡ b)
status_beq_iff a b = ground arith

instance abbrev pub status_eq : Eq RequestStatus
status_eq = record { same = status_beq; same_iff = status_beq_iff }

abbrev pub is_open : WorldStatus → Bool
is_open opened = true
is_open closed = false

abbrev pub is_friends_of_friends : InvitePolicy → Bool
is_friends_of_friends host_only = false
is_friends_of_friends friends_of_friends = true

abbrev pub is_offline : PresenceStatus → Bool
is_offline offline = true
is_offline _ = false

-- `PresenceStatus::is_in_world`
abbrev pub is_in_world : PresenceStatus → Bool
is_in_world in_world = true
is_in_world joinable = true
is_in_world _ = false

abbrev pub is_joinable : PresenceStatus → Bool
is_joinable joinable = true
is_joinable _ = false

abbrev pub is_active : RelayStatus → Bool
is_active active = true
is_active _ = false

abbrev pub is_ended : RelayStatus → Bool
is_ended ended = true
is_ended _ = false

-- The columns of `users` that the network reads (`UserDto`).
pub record User : Type 0 where
  pub id : ℕ
  pub minecraft_uuid : Option String
  pub username : String

pub record Friendship : Type 0 where
  pub user_a_id : ℕ
  pub user_b_id : ℕ

pub record FriendRequest : Type 0 where
  pub id : ℕ
  pub from_user_id : ℕ
  pub to_user_id : ℕ
  pub status : RequestStatus
  pub created_at : ℕ
  pub updated_at : ℕ

pub record Presence : Type 0 where
  pub user_id : ℕ
  pub status : PresenceStatus
  pub last_heartbeat_at : ℕ
  pub current_world_session_id : Option ℕ
  pub minecraft_version : Option String
  pub loader : Option String

pub record WorldSession : Type 0 where
  pub id : ℕ
  pub host_user_id : ℕ
  pub status : WorldStatus
  pub max_players : ℕ
  pub current_players : ℕ
  pub invite_policy : InvitePolicy
  pub created_at : ℕ
  pub closed_at : Option ℕ

pub record JoinRequest : Type 0 where
  pub id : ℕ
  pub requester_user_id : ℕ
  pub host_user_id : ℕ
  pub world_session_id : ℕ
  pub status : RequestStatus
  pub expires_at : ℕ
  pub created_at : ℕ
  pub updated_at : ℕ

pub record WorldInvite : Type 0 where
  pub id : ℕ
  pub world_session_id : ℕ
  pub host_user_id : ℕ
  pub inviter_user_id : ℕ
  pub invitee_user_id : ℕ
  pub status : RequestStatus
  pub expires_at : ℕ
  pub created_at : ℕ
  pub updated_at : ℕ

pub record JoinTicket : Type 0 where
  pub id : ℕ
  pub user_id : ℕ
  pub world_session_id : ℕ
  pub token_hash : String
  pub expires_at : ℕ
  pub consumed_at : Option ℕ
  pub created_at : ℕ

pub record RelaySession : Type 0 where
  pub id : ℕ
  pub world_session_id : ℕ
  pub host_user_id : ℕ
  pub guest_user_id : Option ℕ
  pub join_ticket_id : Option ℕ
  pub status : RelayStatus
  pub created_at : ℕ
  pub closed_at : Option ℕ

-- `JoinTicketDto`
pub record JoinTicketDto : Type 0 where
  pub ticket : String
  pub relay_session_id : ℕ
  pub world_session_id : ℕ
  pub host_user_id : ℕ
  pub expires_at : ℕ
  pub invite_policy : InvitePolicy
  pub host_minecraft_version : Option String
  pub host_loader : Option String

-- `ServerEvent` of crates/core/src/realtime.rs, with the source's fields in order.
pub data ServerEvent : Type 0 where
  friend_request : (request_id : ℕ) (from_user : User) → ServerEvent
  friend_request_accepted : (request_id : ℕ) (by_user : User) → ServerEvent
  join_request : (request_id world_session_id : ℕ) (from_user : User) → ServerEvent
  join_request_accepted : (request_id : ℕ) (ticket : JoinTicketDto) → ServerEvent
  join_request_declined : (request_id : ℕ) → ServerEvent
  guest_arriving : (relay_session_id world_session_id : ℕ) (guest_user : User) → ServerEvent
  world_invite : (invite_id world_session_id : ℕ) (inviter host : User) → ServerEvent
  invite_approval_request : (invite_id world_session_id : ℕ) (inviter invitee : User) → ServerEvent
  friend_request_declined : (request_id : ℕ) → ServerEvent
  friend_removed : (user_id : ℕ) → ServerEvent
  presence_update : (user_id : ℕ) → ServerEvent
  world_policy_changed : (world_session_id : ℕ) (invite_policy : InvitePolicy) → ServerEvent

-- The database, the supply of fresh row ids, and the events handed to the signaling hub, newest
-- first, each with its receiver.
pub record Net : Type 0 where
  pub users : List User
  pub friendships : List Friendship
  pub friend_requests : List FriendRequest
  pub presence : List Presence
  pub worlds : List WorldSession
  pub join_requests : List JoinRequest
  pub invites : List WorldInvite
  pub tickets : List JoinTicket
  pub relays : List RelaySession
  pub next_id : ℕ
  pub sent : List (ℕ × ServerEvent)

-- What a handler takes from outside the database: one reading of the clock, the configuration, a
-- fresh random token and the digest that is stored of it.
pub record Env : Type 0 where
  pub now : ℕ
  pub heartbeat_timeout : ℕ
  pub join_ticket_ttl : ℕ
  pub join_request_ttl : ℕ
  pub invite_ttl : ℕ
  pub max_players_per_world : ℕ
  pub token : String
  pub hash_token : String → String

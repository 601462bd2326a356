-- ===== src/Network/Invites.antt =====
-- crates/network/src/invites.rs: the host, or a friend whom the host trusts, invites a user into a
-- world. A handler runs on its own, at one reading of the clock; the metrics are left out.
pub mod Accept
pub mod Create
pub mod Writes
pub mod Following
pub mod Quiet
pub mod Lifecycle
use mathlib.Core.Bool.{Bool, true, false, ◌&&◌, ◌||◌, not}
use loontail_minecraft_netwo.Prelude.{
  ℕ, ◌+◌, ◌≡◌, Option, none, some, List, ◌∷◌, leb, ltb, nat_beq, if◌then◌else◌, any, find, keep,
  update_where, count_where,
}
use loontail_minecraft_netwo.Network.Store.{
  User, RequestStatus, pending, pending_approval, accepted, declined, revoked, expired, status_beq,
  is_friends_of_friends, InvitePolicy, WorldInvite, JoinTicketDto, guest_arriving, world_invite,
  invite_approval_request, Net, Env,
}
use loontail_minecraft_netwo.Network.Effect.{
  AppError, bad_request, not_found, conflict, forbidden, M, ◌>>=◌, ◌>>◌, ret, raise, guard, gets,
  modify, or_fail, fresh_id, send_to, transaction,
}
use loontail_minecraft_netwo.Network.Query.{
  are_friends, user_exists, find_user, fetch_user_dto, load_open_world_session,
}
use loontail_minecraft_netwo.Network.Ticket.{issue_ticket_and_relay_tx}

-- `InviteRow`, and `WorldInviteDto` with it: the invite with its participants' users.
pub record InviteRow : Type 0 where
  pub invite : WorldInvite
  pub inviter : User
  pub invitee : User
  pub host : User

-- The one field that `WorldInviteDto` computes.
unfoldable pub requires_host_approval : InviteRow → Bool
requires_host_approval row = status_beq row.invite.status pending_approval

abbrev pub has_invite_id : ℕ → WorldInvite → Bool
has_invite_id id i = nat_beq i.id id

unfoldable pub find_invite : ℕ → Net → Option WorldInvite
find_invite id s = find (has_invite_id id) s.invites

unfoldable pub load_invite : ℕ → M InviteRow
unfolding find_invite find_user
load_invite id = do
  found ← gets (find_invite id)
  invite ← or_fail found (not_found "invite not found")
  inviter_found ← gets (find_user invite.inviter_user_id)
  inviter ← or_fail inviter_found (not_found "invite not found")
  invitee_found ← gets (find_user invite.invitee_user_id)
  invitee ← or_fail invitee_found (not_found "invite not found")
  host_found ← gets (find_user invite.host_user_id)
  host ← or_fail host_found (not_found "invite not found")
  ret (record { invite = invite; inviter = inviter; invitee = invitee; host = host })

-- `status IN ('pending', 'pending_approval')`
abbrev pub is_unsettled : RequestStatus → Bool
is_unsettled status = status_beq status pending || status_beq status pending_approval

-- The partial unique index `world_invites_active_unique`.
abbrev pub is_active_for : ℕ → ℕ → WorldInvite → Bool
is_active_for world invitee i =
    nat_beq i.world_session_id world && (nat_beq i.invitee_user_id invitee && is_unsettled i.status)

abbrev pub is_lapsed_for : ℕ → ℕ → ℕ → WorldInvite → Bool
is_lapsed_for now world invitee i = is_active_for world invitee i && leb i.expires_at now

abbrev pub with_status : RequestStatus → ℕ → WorldInvite → WorldInvite
with_status status now i = record i { status = status; updated_at = now }

unfoldable pub expire_lapsed : Env → ℕ → ℕ → M (Unit {0})
expire_lapsed env world invitee = modify (λ s. record s {
  invites =
      update_where (is_lapsed_for env.now world invitee) (with_status expired env.now) s.invites;
})

abbrev pub new_invite : Env → ℕ → ℕ → ℕ → ℕ → ℕ → RequestStatus → WorldInvite
new_invite env id world host inviter invitee status = record {
  id = id;
  world_session_id = world;
  host_user_id = host;
  inviter_user_id = inviter;
  invitee_user_id = invitee;
  status = status;
  expires_at = env.now + env.invite_ttl;
  created_at = env.now;
  updated_at = env.now;
}

unfoldable pub insert_invite : Env → ℕ → ℕ → ℕ → ℕ → RequestStatus → M ℕ
insert_invite env world host inviter invitee status = do
  taken ← gets (λ s. any (is_active_for world invitee) s.invites)
  guard (not taken) (conflict "an invite for this player is already pending")
  id ← fresh_id
  modify
      (λ s. record s { invites = new_invite env id world host inviter invitee status ∷ s.invites })
  ret id

-- Which status a new invite gets, or `none` where it is forbidden.
unfoldable pub initial_status : InvitePolicy → ℕ → ℕ → ℕ → Net → Option RequestStatus
initial_status policy caller host invitee s =
    if nat_beq caller host
    then if are_friends host invitee s then some pending else none
    else if is_friends_of_friends policy
    then if are_friends host caller s
      then if are_friends caller invitee s
        then if are_friends host invitee s then some pending else some pending_approval
        else none
      else none
    else none

abbrev pub announce : RequestStatus → ℕ → ℕ → ℕ → ℕ → InviteRow → M (Unit {0})
announce status invitee host invite_id world_id row =
    if status_beq status pending
    then send_to invitee (world_invite invite_id world_id row.inviter row.host)
    else send_to host (invite_approval_request invite_id world_id row.inviter row.invitee)

-- The second half of `create`: sweep, insert, announce.
unfoldable pub place : Env → ℕ → ℕ → ℕ → ℕ → RequestStatus → M InviteRow
unfolding expire_lapsed insert_invite load_invite
place env world_id host caller invitee status = do
  expire_lapsed env world_id invitee
  invite_id ← insert_invite env world_id host caller invitee status
  row ← load_invite invite_id
  announce status invitee host invite_id world_id row
  ret row

unfoldable pub create : Env → ℕ → ℕ → ℕ → M InviteRow
unfolding initial_status place
create env caller world_id invitee = do
  world ← load_open_world_session world_id
  let host = world.host_user_id
  guard (not (nat_beq invitee caller)) (bad_request "you cannot invite yourself")
  guard (not (nat_beq invitee host)) (bad_request "the host is already in the world")
  known ← gets (user_exists invitee)
  guard known (not_found "user not found")
  allowed ← gets (initial_status world.invite_policy caller host invitee)
  status ← or_fail allowed forbidden
  place env world_id host caller invitee status

abbrev pub is_id_in : RequestStatus → ℕ → WorldInvite → Bool
is_id_in status id i = has_invite_id id i && status_beq i.status status

-- `UPDATE world_invites SET status = … WHERE id = $1 AND status = …`, with the row count.
unfoldable pub transition : Env → RequestStatus → RequestStatus → ℕ → M ℕ
transition env old new id = do
  affected ← gets (λ s. count_where (is_id_in old id) s.invites)
  modify (λ s. record s {
    invites = update_where (is_id_in old id) (with_status new env.now) s.invites;
  })
  ret affected

-- `incoming`, `outgoing` and `pending_approval`, less the users and the order of the rows.
unfoldable pub incoming : Env → ℕ → Net → List WorldInvite
incoming env me s =
    keep
      (λ i.
        nat_beq i.invitee_user_id me && (status_beq i.status pending && ltb env.now i.expires_at))
      s.invites

unfoldable pub outgoing : Env → ℕ → Net → List WorldInvite
outgoing env me s =
    keep (λ i. nat_beq i.inviter_user_id me && (is_unsettled i.status && ltb env.now i.expires_at))
      s.invites

unfoldable pub awaiting_approval : Env → ℕ → Net → List WorldInvite
awaiting_approval env me s =
    keep
      (λ i.
        nat_beq i.host_user_id me
        && (status_beq i.status pending_approval && ltb env.now i.expires_at))
      s.invites

-- The friend-of-friend chain of an invite that the host did not issue.
unfoldable pub chain_holds : InvitePolicy → WorldInvite → Net → Bool
chain_holds policy i s =
    nat_beq i.inviter_user_id i.host_user_id
    || is_friends_of_friends policy
      && (are_friends i.host_user_id i.inviter_user_id s
          && are_friends i.inviter_user_id i.invitee_user_id s)

pub record Admission : Type 0 where
  pub row : InviteRow
  pub ticket : JoinTicketDto

unfoldable pub accept_tx : Env → ℕ → ℕ → M Admission
unfolding load_invite transition
accept_tx env me id = do
  row ← load_invite id
  let i = row.invite
  guard (nat_beq i.invitee_user_id me) forbidden
  guard (status_beq i.status pending) (conflict "invite is not ready to accept")
  guard (ltb env.now i.expires_at) (conflict "invite has expired")
  world ← load_open_world_session i.world_session_id
  chain ← gets (chain_holds world.invite_policy i)
  guard chain forbidden
  guard (ltb world.current_players world.max_players) (conflict "world is full")
  affected ← transition env pending accepted id
  guard (nat_beq affected 1) (conflict "invite is not ready to accept")
  ticket ← issue_ticket_and_relay_tx env i.invitee_user_id i.host_user_id i.world_session_id
  ret (record { row = row; ticket = ticket })

unfoldable pub accept : Env → ℕ → ℕ → M JoinTicketDto
unfolding accept_tx
accept env me id = do
  admitted ← transaction (accept_tx env me id)
  let i = admitted.row.invite
  let ticket = admitted.ticket
  guest_dto ← fetch_user_dto i.invitee_user_id
  send_to i.host_user_id (guest_arriving ticket.relay_session_id i.world_session_id guest_dto)
  ret ticket

unfoldable pub decline : Env → ℕ → ℕ → M InviteRow
unfolding load_invite transition
decline env me id = do
  row ← load_invite id
  guard (nat_beq row.invite.invitee_user_id me) forbidden
  guard (status_beq row.invite.status pending) (conflict "invite is not pending")
  affected ← transition env pending declined id
  guard (not (nat_beq affected 0)) (conflict "invite is not pending")
  load_invite id

unfoldable pub approve : Env → ℕ → ℕ → M InviteRow
unfolding load_invite transition
approve env me id = do
  row ← load_invite id
  let i = row.invite
  guard (nat_beq i.host_user_id me) forbidden
  guard (status_beq i.status pending_approval) (conflict "invite is not awaiting approval")
  guard (ltb env.now i.expires_at) (conflict "invite has expired")
  affected ← transition env pending_approval pending id
  guard (not (nat_beq affected 0)) (conflict "invite is not awaiting approval")
  dto ← load_invite id
  send_to i.invitee_user_id (world_invite id i.world_session_id dto.inviter dto.host)
  ret dto

abbrev pub is_unsettled_id : ℕ → WorldInvite → Bool
is_unsettled_id id i = has_invite_id id i && is_unsettled i.status

unfoldable pub revoke : Env → ℕ → ℕ → M (Unit {0})
unfolding load_invite
revoke env me id = do
  row ← load_invite id
  guard (nat_beq row.invite.host_user_id me || nat_beq row.invite.inviter_user_id me) forbidden
  affected ← gets (λ s. count_where (is_unsettled_id id) s.invites)
  modify (λ s. record s {
    invites = update_where (is_unsettled_id id) (with_status revoked env.now) s.invites;
  })
  guard (not (nat_beq affected 0)) (conflict "invite is no longer active")

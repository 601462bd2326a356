-- ===== src/Network/Join.antt =====
-- crates/network/src/join.rs: tickets for a free join, and join requests that the host approves.
-- A handler runs on its own, at one reading of the clock; the metrics are left out.
pub mod Accept
pub mod Create
use mathlib.Core.Bool.{Bool, true, false, ◌&&◌, ◌||◌, not}
use loontail_minecraft_netwo.Prelude.{
  ℕ, suc, ◌+◌, ◌≡◌, refl, Option, none, some, List, [], ◌∷◌, leb, ltb, nat_beq, if◌then◌else◌, any,
  find, keep, update_where, count_where, ◌==◌,
}
use loontail_minecraft_netwo.Network.Store.{
  User, RequestStatus, pending, accepted, declined, expired, status_beq, is_in_world, is_joinable,
  is_friends_of_friends, InvitePolicy, JoinRequest, JoinTicketDto, guest_arriving, join_request,
  join_request_accepted, join_request_declined, Net, Env,
}
use loontail_minecraft_netwo.Network.Effect.{
  AppError, bad_request, not_found, conflict, forbidden, M, Outcome, ◌>>=◌, ◌>>◌, ret, raise, guard,
  gets, modify, or_fail, fresh_id, send_to, transaction,
}
use loontail_minecraft_netwo.Network.Query.{
  are_friends, find_user, fetch_user_dto, load_open_world_session, effective_status_for,
  is_friend_of_active_member,
}
use loontail_minecraft_netwo.Network.Ticket.{issue_ticket_and_relay, issue_ticket_and_relay_tx}

unfoldable pub create_join_ticket : Env → ℕ → ℕ → M JoinTicketDto
unfolding issue_ticket_and_relay
create_join_ticket env guest world_id = do
  world ← load_open_world_session world_id
  let host = world.host_user_id
  guard (not (nat_beq host guest)) (bad_request "you cannot join your own world")
  friends ← gets (are_friends guest host)
  guard friends forbidden
  status ← gets (effective_status_for env host)
  guard (is_joinable status)
      (conflict "host is not open for free join; send a join request instead")
  guard (ltb world.current_players world.max_players) (conflict "world is full")
  ticket ← issue_ticket_and_relay env guest host world_id
  guest_dto ← fetch_user_dto guest
  send_to host (guest_arriving ticket.relay_session_id world_id guest_dto)
  ret ticket

-- `JoinRequestRow`, and `JoinRequestDto` with it: the request with its participants' users.
pub record JoinRequestRow : Type 0 where
  pub request : JoinRequest
  pub requester : User
  pub host : User

abbrev pub has_request_id : ℕ → JoinRequest → Bool
has_request_id id r = nat_beq r.id id

unfoldable pub find_join_request : ℕ → Net → Option JoinRequest
find_join_request id s = find (has_request_id id) s.join_requests

-- The inner joins: a request without its users is no row.
unfoldable pub load_join_request : ℕ → M JoinRequestRow
unfolding find_join_request find_user
load_join_request id = do
  found ← gets (find_join_request id)
  request ← or_fail found (not_found "join request not found")
  requester_found ← gets (find_user request.requester_user_id)
  requester ← or_fail requester_found (not_found "join request not found")
  host_found ← gets (find_user request.host_user_id)
  host ← or_fail host_found (not_found "join request not found")
  ret (record { request = request; requester = requester; host = host })

-- The partial unique index `join_requests_pending_unique`.
abbrev pub is_pending_for : ℕ → ℕ → JoinRequest → Bool
is_pending_for world requester r =
    nat_beq r.world_session_id world
    && (nat_beq r.requester_user_id requester && status_beq r.status pending)

abbrev pub is_lapsed_for : ℕ → ℕ → ℕ → JoinRequest → Bool
is_lapsed_for now world requester r = is_pending_for world requester r && leb r.expires_at now

abbrev pub with_status : RequestStatus → ℕ → JoinRequest → JoinRequest
with_status status now r = record r { status = status; updated_at = now }

unfoldable pub expire_lapsed : Env → ℕ → ℕ → M (Unit {0})
expire_lapsed env world requester = modify (λ s. record s {
  join_requests =
      update_where (is_lapsed_for env.now world requester) (with_status expired env.now)
        s.join_requests;
})

unfoldable pub insert_join_request : Env → ℕ → ℕ → ℕ → M ℕ
insert_join_request env requester host world = do
  taken ← gets (λ s. any (is_pending_for world requester) s.join_requests)
  guard (not taken) (conflict "a join request is already pending")
  id ← fresh_id
  modify (λ s. record s {
    join_requests =
        record {
          id = id;
          requester_user_id = requester;
          host_user_id = host;
          world_session_id = world;
          status = pending;
          expires_at = env.now + env.join_request_ttl;
          created_at = env.now;
          updated_at = env.now;
        }
        ∷ s.join_requests;
  })
  ret id

-- The trust link: a friend of the host, or, where the policy opens the world to friends of friends,
-- a friend of somebody who is in it.
unfoldable pub is_trusted : Env → InvitePolicy → ℕ → ℕ → ℕ → Net → Bool
is_trusted env policy requester host world_id s =
    are_friends requester host s
    || is_friends_of_friends policy && is_friend_of_active_member env requester world_id s

unfoldable pub create_join_request : Env → ℕ → ℕ → M JoinRequestRow
unfolding expire_lapsed insert_join_request load_join_request
create_join_request env requester world_id = do
  world ← load_open_world_session world_id
  let host = world.host_user_id
  guard (not (nat_beq host requester)) (bad_request "you cannot join your own world")
  trusted ← gets (is_trusted env world.invite_policy requester host world_id)
  guard trusted forbidden
  status ← gets (effective_status_for env host)
  guard (is_in_world status) (conflict "host is not in a world")
  expire_lapsed env world_id requester
  id ← insert_join_request env requester host world_id
  row ← load_join_request id
  send_to host (join_request id world_id row.requester)
  ret row

abbrev pub is_pending_id : ℕ → JoinRequest → Bool
is_pending_id id r = has_request_id id r && status_beq r.status pending

-- `UPDATE join_requests SET status = … WHERE id = $1 AND status = 'pending'`, with the row count.
unfoldable pub transition : Env → RequestStatus → ℕ → M ℕ
transition env status id = do
  affected ← gets (λ s. count_where (is_pending_id id) s.join_requests)
  modify (λ s. record s {
    join_requests = update_where (is_pending_id id) (with_status status env.now) s.join_requests;
  })
  ret affected

-- `GET /join-requests/incoming`, less the users and the order of the rows.
unfoldable pub incoming : Env → ℕ → Net → List JoinRequest
incoming env me s =
    keep
      (λ r. nat_beq r.host_user_id me && (status_beq r.status pending && ltb env.now r.expires_at))
      s.join_requests

pub record Admission : Type 0 where
  pub row : JoinRequestRow
  pub ticket : JoinTicketDto

-- The body of the transaction of `accept`. The host of the request is not the world's by this code
-- alone: the trust check reads the request's.
unfoldable pub accept_tx : Env → ℕ → ℕ → M Admission
unfolding load_join_request transition
accept_tx env me id = do
  row ← load_join_request id
  let r = row.request
  guard (nat_beq r.host_user_id me) forbidden
  guard (status_beq r.status pending) (conflict "join request is not pending")
  guard (ltb env.now r.expires_at) (conflict "join request has expired")
  world ← load_open_world_session r.world_session_id
  trusted ←
      gets
        (is_trusted env world.invite_policy r.requester_user_id r.host_user_id r.world_session_id)
  guard trusted forbidden
  guard (ltb world.current_players world.max_players) (conflict "world is full")
  affected ← transition env accepted id
  guard (nat_beq affected 1) (conflict "join request is not pending")
  ticket ← issue_ticket_and_relay_tx env r.requester_user_id r.host_user_id r.world_session_id
  ret (record { row = row; ticket = ticket })

unfoldable pub accept : Env → ℕ → ℕ → M JoinRequestRow
unfolding accept_tx load_join_request
accept env me id = do
  admitted ← transaction (accept_tx env me id)
  let r = admitted.row.request
  let ticket = admitted.ticket
  guest_dto ← fetch_user_dto r.requester_user_id
  send_to r.requester_user_id (join_request_accepted id ticket)
  send_to r.host_user_id (guest_arriving ticket.relay_session_id r.world_session_id guest_dto)
  load_join_request id

unfoldable pub decline : Env → ℕ → ℕ → M JoinRequestRow
unfolding load_join_request transition
decline env me id = do
  row ← load_join_request id
  let r = row.request
  guard (nat_beq r.host_user_id me) forbidden
  guard (status_beq r.status pending) (conflict "join request is not pending")
  affected ← transition env declined id
  guard (not (nat_beq affected 0)) (conflict "join request is not pending")
  dto ← load_join_request id
  send_to r.requester_user_id (join_request_declined id)
  ret dto

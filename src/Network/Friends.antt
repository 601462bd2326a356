-- ===== src/Network/Friends.antt =====
-- crates/network/src/friends.rs: friend requests and friendships. A friendship is stored once, its
-- smaller id first. The list of friends itself is `friends_with_presence`.
pub mod Writes
pub mod Validity
pub mod Soundness
pub mod Befriending
use mathlib.Core.Bool.{Bool, true, false, ◌&&◌, ◌||◌, not}
use loontail_minecraft_netwo.Prelude.{
  ℕ, Option, none, some, List, [], ◌∷◌, nat_beq, if◌then◌else◌, any, find, keep, update_where,
  count_where,
}
use loontail_minecraft_netwo.Network.Store.{
  User, Friendship, FriendRequest, RequestStatus, pending, accepted, declined, status_beq,
  friend_request, friend_request_accepted, friend_request_declined, friend_removed, Net, Env,
}
use loontail_minecraft_netwo.Network.Effect.{
  bad_request, not_found, conflict, forbidden, M, ◌>>=◌, ◌>>◌, ret, guard, gets, modify, or_fail,
  fresh_id, send_to, transaction,
}
use loontail_minecraft_netwo.Network.Query.{
  least, greatest, is_pair, are_friends, user_exists, find_user,
}
use loontail_minecraft_netwo.Network.Presence.{broadcast_presence}

-- `FriendRequestRow`, and `FriendRequestDto` with it.
pub record FriendRequestRow : Type 0 where
  pub request : FriendRequest
  pub from_user : User
  pub to_user : User

abbrev pub has_friend_request_id : ℕ → FriendRequest → Bool
has_friend_request_id id r = nat_beq r.id id

unfoldable pub find_friend_request : ℕ → Net → Option FriendRequest
find_friend_request id s = find (has_friend_request_id id) s.friend_requests

-- The inner joins: a request without its users is no row.
unfoldable pub load_request : ℕ → M FriendRequestRow
unfolding find_friend_request find_user
load_request id = do
  found ← gets (find_friend_request id)
  request ← or_fail found (not_found "friend request not found")
  from_found ← gets (find_user request.from_user_id)
  from_user ← or_fail from_found (not_found "friend request not found")
  to_found ← gets (find_user request.to_user_id)
  to_user ← or_fail to_found (not_found "friend request not found")
  ret (record { request = request; from_user = from_user; to_user = to_user })

abbrev pub is_pending_from : ℕ → ℕ → FriendRequest → Bool
is_pending_from from to r =
    nat_beq r.from_user_id from && (nat_beq r.to_user_id to && status_beq r.status pending)

abbrev pub request_with : RequestStatus → ℕ → FriendRequest → FriendRequest
request_with status now r = record r { status = status; updated_at = now }

unfoldable pub set_request : Env → RequestStatus → ℕ → M (Unit {0})
set_request env status id = modify (λ s. record s {
  friend_requests =
      update_where (has_friend_request_id id) (request_with status env.now) s.friend_requests;
})

-- `INSERT … ON CONFLICT (user_a_id, user_b_id) DO NOTHING`
unfoldable pub add_pair : ℕ → ℕ → List Friendship → List Friendship
add_pair a b rows =
    if any (is_pair a b) rows
    then rows
    else record { user_a_id = least a b; user_b_id = greatest a b } ∷ rows

unfoldable pub befriend_tx : Env → ℕ → ℕ → M FriendRequest
unfolding find_friend_request set_request add_pair
befriend_tx env me id = do
  found ← gets (find_friend_request id)
  request ← or_fail found (not_found "friend request not found")
  guard (nat_beq request.to_user_id me) forbidden
  guard (status_beq request.status pending) (conflict "request is not pending")
  set_request env accepted id
  modify (λ s. record s {
    friendships = add_pair request.from_user_id request.to_user_id s.friendships;
  })
  ret request

unfoldable pub accept_internal : Env → ℕ → ℕ → M FriendRequestRow
unfolding befriend_tx load_request broadcast_presence
accept_internal env me id = do
  request ← transaction (befriend_tx env me id)
  dto ← load_request id
  send_to request.from_user_id (friend_request_accepted id dto.to_user)
  broadcast_presence request.from_user_id
  broadcast_presence request.to_user_id
  ret dto

-- The partial unique index `friend_requests_pending_unique`.
unfoldable pub insert_request : Env → ℕ → ℕ → M ℕ
insert_request env from to = do
  taken ← gets (λ s. any (is_pending_from from to) s.friend_requests)
  guard (not taken) (conflict "a request is already pending")
  id ← fresh_id
  modify (λ s. record s {
    friend_requests =
        record {
          id = id;
          from_user_id = from;
          to_user_id = to;
          status = pending;
          created_at = env.now;
          updated_at = env.now;
        }
        ∷ s.friend_requests;
  })
  ret id

unfoldable pub send_request : Env → ℕ → ℕ → M FriendRequestRow
unfolding insert_request load_request
send_request env me target = do
  id ← insert_request env me target
  dto ← load_request id
  send_to target (friend_request id dto.from_user)
  ret dto

-- Whoever is asked back accepts instead.
unfoldable pub create_request : Env → ℕ → ℕ → M FriendRequestRow
unfolding accept_internal send_request user_exists are_friends
create_request env me target = do
  guard (not (nat_beq me target)) (bad_request "you cannot add yourself")
  known ← gets (user_exists target)
  guard known (not_found "user not found")
  friends ← gets (are_friends me target)
  guard (not friends) (conflict "you are already friends")
  reverse ← gets (λ s. find (is_pending_from target me) s.friend_requests)
  elim reverse [ some r ↦ accept_internal env me r.id | none ↦ send_request env me target ]

unfoldable pub decline_request : Env → ℕ → ℕ → M FriendRequestRow
unfolding load_request set_request
decline_request env me id = do
  row ← load_request id
  guard (nat_beq row.request.to_user_id me) forbidden
  guard (status_beq row.request.status pending) (conflict "request is not pending")
  set_request env declined id
  send_to row.request.from_user_id (friend_request_declined id)
  load_request id

unfoldable pub remove_friend : ℕ → ℕ → M (Unit {0})
unfolding are_friends
remove_friend me other = do
  there ← gets (are_friends me other)
  modify (λ s. record s { friendships = keep (λ f. not (is_pair me other f)) s.friendships })
  guard there (not_found "friendship not found")
  send_to other (friend_removed me)

-- Less the users and the order of the rows.
unfoldable pub incoming_requests : ℕ → Net → List FriendRequest
incoming_requests me s =
    keep (λ r. nat_beq r.to_user_id me && status_beq r.status pending) s.friend_requests

unfoldable pub outgoing_requests : ℕ → Net → List FriendRequest
outgoing_requests me s =
    keep (λ r. nat_beq r.from_user_id me && status_beq r.status pending) s.friend_requests

-- ===== src/Network/Join/Create.antt =====
-- Who gets a ticket at once, and who may ask for one.
use mathlib.Core.Bool.{true, false}
use loontail_minecraft_netwo.Prelude.{
  ℕ, suc, ◌+◌, ◌≡◌, ◌≢◌, ◌<◌, ◌⊎◌, refl, some, List, ◌∷◌, any, find, update_where, arith,
  Bool-cases, Option-cases, inl, inr,
}
use loontail_minecraft_netwo.Network.Store.{
  WorldSession, JoinTicketDto, JoinRequest, InvitePolicy, host_only, friends_of_friends,
  is_friends_of_friends, pending, expired, join_request, is_in_world, is_joinable, Net, Env,
}
use loontail_minecraft_netwo.Network.Effect.{done}
use loontail_minecraft_netwo.Network.Query.{
  are_friends, find_user, is_friend_of_active_member, fetch_user_dto, find_open_world,
  load_open_world_session, effective_status_for,
}
use loontail_minecraft_netwo.Network.Ticket.{
  new_ticket, new_relay, issue_ticket_and_relay, issue_ticket_and_relay_tx,
}
use loontail_minecraft_netwo.Network.Join.{
  JoinRequestRow, is_trusted, is_lapsed_for, is_pending_for, with_status, expire_lapsed,
  insert_join_request, find_join_request, load_join_request, create_join_ticket,
  create_join_request,
}

-- The conditions of a free join, and what it writes.
pub record Grants (env : Env) (guest_id world_id : ℕ) (s t : Net) : Type 0 where
  pub world : WorldSession
  pub open_world : find_open_world world_id s ≡ some world
  pub not_host : world.host_user_id ≢ guest_id
  pub friends : are_friends guest_id world.host_user_id s ≡ true
  pub free_join : is_joinable (effective_status_for env world.host_user_id s) ≡ true
  pub has_room : world.current_players < world.max_players
  pub one_ticket : t.tickets ≡ new_ticket env s.next_id guest_id world_id ∷ s.tickets
  pub one_relay :
      t.relays
      ≡ new_relay env (suc s.next_id) guest_id world.host_user_id world_id s.next_id ∷ s.relays

-- A ticket without a request goes only to a friend of the host, other than the host, while the
-- world is open and has a free slot and the host is live and open for free join; it comes with
-- exactly one ticket and one relay session, bound to one another.
pub create_join_ticket-Grants :
    (env : Env) (guest_id world_id : ℕ) (s t : Net) (dto : JoinTicketDto)
    → create_join_ticket env guest_id world_id s ≡ done dto t
    → Grants env guest_id world_id s t
unfolding create_join_ticket load_open_world_session issue_ticket_and_relay
    issue_ticket_and_relay_tx fetch_user_dto
create_join_ticket-Grants env guest_id world_id s t dto h =
    elim (Option-cases (find_open_world world_id s)) [
      | inl e ↦ absurd (ground arith)
      | inr (w, e) ↦ record {
        world = w;
        open_world = e;
        not_host = ground arith;
        friends = ground arith;
        free_join = ground arith;
        has_room = ground arith;
        one_ticket = ground arith;
        one_relay = ground arith;
      }
    ]

-- The request that is stored: from the requester to the host, pending until its time is over.
abbrev pub asking : Env → ℕ → ℕ → ℕ → ℕ → JoinRequest
asking env id requester host world = record {
  id = id;
  requester_user_id = requester;
  host_user_id = host;
  world_session_id = world;
  status = pending;
  expires_at = env.now + env.join_request_ttl;
  created_at = env.now;
  updated_at = env.now;
}

-- The table in which the lapsed requests of this requester for this world have expired.
abbrev pub lapsed_out : Env → ℕ → ℕ → Net → List JoinRequest
lapsed_out env world requester s =
    update_where (is_lapsed_for env.now world requester) (with_status expired env.now)
      s.join_requests

-- The conditions of a join request, and all that it writes.
pub record Asks (env : Env) (requester world_id : ℕ) (s t : Net) (row : JoinRequestRow)
    : Type 0 where
  pub asked_world : WorldSession
  pub open_now : find_open_world world_id s ≡ some asked_world
  pub not_own : asked_world.host_user_id ≢ requester
  pub trusted :
      (are_friends requester asked_world.host_user_id s ≡ true)
      ⊎ ((asked_world.invite_policy ≡ friends_of_friends)
          × (is_friend_of_active_member env requester world_id s ≡ true))
  pub host_in_world : is_in_world (effective_status_for env asked_world.host_user_id s) ≡ true
  pub none_pending :
      any (is_pending_for world_id requester) (lapsed_out env world_id requester s) ≡ false
  pub answered : row.request ≡ asking env s.next_id requester asked_world.host_user_id world_id
  pub by_requester : find_user requester s ≡ some row.requester
  pub to_host : find_user asked_world.host_user_id s ≡ some row.host
  pub stored : t ≡ record s {
    join_requests =
        asking env s.next_id requester asked_world.host_user_id world_id
        ∷ lapsed_out env world_id requester s;
    next_id = suc s.next_id;
    sent = (asked_world.host_user_id, join_request s.next_id world_id row.requester) ∷ s.sent;
  }

policy_cases : (p : InvitePolicy) → is_friends_of_friends p ≡ true → p ≡ friends_of_friends
policy_cases host_only h = absurd (cc)
policy_cases friends_of_friends h = refl

-- A join request that is answered with a row comes from somebody other than the host, a friend of
-- the host or, where the policy opens the world to friends of friends, a friend of somebody who is in
-- it, while the world is open and the host is live and in a world, and there was no request of this
-- requester for this world that is pending and has not lapsed. It stores exactly one request, in
-- front of the others, from the requester to the host of the world, pending until its time to live
-- is over; the lapsed requests of the requester for the world expire, the host is told, and
-- nothing else changes. The answer is the stored request with the two users.
pub create_join_request-Asks :
    (env : Env) (requester world_id : ℕ) (s t : Net) (row : JoinRequestRow)
    → create_join_request env requester world_id s ≡ done row t
    → Asks env requester world_id s t row
unfolding create_join_request load_open_world_session expire_lapsed insert_join_request
    load_join_request find_join_request find is_trusted
create_join_request-Asks env requester world_id s t row h =
    elim (Option-cases (find_open_world world_id s)) [
      | inl e ↦ absurd (ground arith)
      | inr (w, e) ↦ record {
        asked_world = w;
        open_now = e;
        not_own = ground arith;
        trusted = elim (Bool-cases (are_friends requester w.host_user_id s)) [
          | inl y ↦ inl y
          | inr n ↦ inr (policy_cases w.invite_policy (ground arith), ground arith)
        ];
        host_in_world = ground arith;
        none_pending = ground arith;
        answered = ground arith;
        by_requester = ground arith;
        to_host = ground arith;
        stored = ground arith;
      }
    ]

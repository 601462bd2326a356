-- ===== src/Network/Worlds.antt =====
-- crates/network/src/worlds.rs: a host opens, changes and closes a world session.
-- `load_open_world_session` stands with the shared queries.
pub mod Validity
pub mod Effects
pub mod Writes
pub mod Settled
pub mod Housed
use Prim.Native.String.{String}
use mathlib.Core.Bool.{Bool, true, false, ◌&&◌, ◌||◌, not}
use text.Mathlib.Text.{◌==◌ as str_eq}
use loontail_minecraft_netwo.Prelude.{
  ℕ, Option, none, some, List, [], ◌∷◌, map, leb, nat_beq, if◌then◌else◌, any, find, keep,
  update_where,
}
use loontail_minecraft_netwo.Prelude.Int.{ℤ, pos, clamp}
use loontail_minecraft_netwo.Network.Store.{
  WorldSession, WorldStatus, opened, closed, InvitePolicy, host_only, friends_of_friends,
  RelaySession, ended, Presence, online, is_open, is_active, is_ended, is_friends_of_friends,
  world_policy_changed, Net, Env,
}
use loontail_minecraft_netwo.Network.Effect.{
  bad_request, not_found, forbidden, database, internal, M, ◌>>=◌, ◌>>◌, ret, raise, guard, gets,
  modify, or_fail, fresh_id, transaction,
}
use loontail_minecraft_netwo.Network.Query.{is_presence_of}
use loontail_minecraft_netwo.Network.Presence.{push_updates, friend_ids, broadcast_presence}
use loontail_minecraft_netwo.Network.Ticket.{find_world}

-- `WorldStatus::parse` and `InvitePolicy::parse` of crates/core/src/models.rs.
unfoldable pub parse_status : String → M WorldStatus
parse_status value =
    if str_eq value "open"
    then ret opened
    else if str_eq value "closed"
    then ret closed
    else raise (bad_request "status must be open or closed")

unfoldable pub parse_policy : String → M InvitePolicy
parse_policy value =
    if str_eq value "host_only"
    then ret host_only
    else if str_eq value "friends_of_friends"
    then ret friends_of_friends
    else raise (bad_request "invitePolicy must be host_only or friends_of_friends")

abbrev pub is_open_of : ℕ → WorldSession → Bool
is_open_of host w = nat_beq w.host_user_id host && is_open w.status

abbrev pub has_world_id : ℕ → WorldSession → Bool
has_world_id id w = nat_beq w.id id

-- A request for no number of players is one for the cap. `clamp` panics on a cap below one, which
-- ends the request as an internal error does.
abbrev pub capacity : Env → Option ℤ → ℕ
capacity env none = clamp 1 env.max_players_per_world (pos env.max_players_per_world)
capacity env (some value) = clamp 1 env.max_players_per_world value

abbrev pub new_world : Env → ℕ → ℕ → ℕ → WorldSession
new_world env id host max = record {
  id = id;
  host_user_id = host;
  status = opened;
  max_players = max;
  current_players = 0;
  invite_policy = host_only;
  created_at = env.now;
  closed_at = none;
}

abbrev pub reuse : ℕ → WorldSession → WorldSession
reuse max w = record w { max_players = max; current_players = 0 }

-- `INSERT … ON CONFLICT (host_user_id) WHERE status = 'open' DO UPDATE`
unfoldable pub upsert_world : Env → ℕ → ℕ → M WorldSession
upsert_world env host max = do
  known ← gets (λ s. find (is_open_of host) s.worlds)
  elim known [
    | some w ↦ do
      modify (λ s. record s { worlds = update_where (is_open_of host) (reuse max) s.worlds })
      ret (reuse max w)
    | none ↦ do
      id ← fresh_id
      modify (λ s. record s { worlds = new_world env id host max ∷ s.worlds })
      ret (new_world env id host max)
  ]

unfoldable pub create_world : Env → ℕ → Option ℤ → M WorldSession
unfolding upsert_world clamp
create_world env me requested = do
  guard (leb 1 env.max_players_per_world) internal
  upsert_world env me (capacity env requested)

abbrev pub is_live_in : ℕ → RelaySession → Bool
is_live_in world r = nat_beq r.world_session_id world && not (is_ended r.status)

abbrev pub end_relay : Env → RelaySession → RelaySession
end_relay env r = record r { status = ended; closed_at = some env.now }

abbrev pub leave_world : Presence → Presence
leave_world p = record p { status = online; current_world_session_id = none }

abbrev pub emptied : WorldSession → WorldSession
emptied w = record w { current_players = 0 }

unfoldable pub close_world_cleanup : Env → ℕ → ℕ → M WorldSession
unfolding find_world
close_world_cleanup env world host = do
  modify (λ s. record s {
    relays = update_where (is_live_in world) (end_relay env) s.relays;
    presence = update_where (is_presence_of host) leave_world s.presence;
    worlds = update_where (has_world_id world) emptied s.worlds;
  })
  found ← gets (find_world world)
  or_fail found database

-- `body.max_players`, `body.status` and `body.invite_policy`.
pub record Patch : Type 0 where
  pub max_players : Option ℤ
  pub status : Option String
  pub invite_policy : Option String

abbrev pub patched : Env → ℕ → WorldStatus → InvitePolicy → WorldSession → WorldSession
patched env max status policy w = record w {
  max_players = max;
  status = status;
  invite_policy = policy;
  closed_at = if is_open status then none else some env.now;
}

-- The index `world_sessions_one_open_per_host`: another open world of the host stands in the way.
abbrev pub is_other_open : ℕ → ℕ → WorldSession → Bool
is_other_open id host w = not (has_world_id id w) && is_open_of host w

unfoldable pub update_row : Env → ℕ → ℕ → ℕ → WorldStatus → InvitePolicy → M WorldSession
unfolding find_world
update_row env id host max status policy = do
  taken ← gets (λ s. any (is_other_open id host) s.worlds)
  guard (not (is_open status && taken)) database
  modify (λ s. record s {
    worlds = update_where (has_world_id id) (patched env max status policy) s.worlds;
  })
  found ← gets (find_world id)
  or_fail found database

unfoldable pub update_tx : Env → WorldSession → ℕ → WorldStatus → InvitePolicy → M WorldSession
unfolding update_row close_world_cleanup
update_tx env world max status policy = do
  updated ← update_row env world.id world.host_user_id max status policy
  if is_open world.status && not (is_open status)
      then close_world_cleanup env world.id world.host_user_id
      else ret updated

-- The active guests of a world, whom a change of its policy is pushed to.
abbrev pub guests_of : ℕ → List RelaySession → List ℕ
guests_of world [] = []
guests_of world (r ∷ rs) =
    let rest = guests_of world rs in
    if nat_beq r.world_session_id world && is_active r.status
    then elim r.guest_user_id [ none ↦ rest | some g ↦ g ∷ rest ]
    else rest

abbrev pub push_policy : ℕ → InvitePolicy → List ℕ → Net → Net
push_policy world policy [] s = s
push_policy world policy (g ∷ gs) s =
    let told = record s { sent = (g, world_policy_changed world policy) ∷ s.sent } in
    push_policy world policy gs (push_updates g (friend_ids g told) told)

unfoldable pub announce_policy : ℕ → ℕ → InvitePolicy → M (Unit {0})
unfolding broadcast_presence
announce_policy world host policy = do
  modify (λ s. push_policy world policy (guests_of world s.relays) s)
  broadcast_presence host

abbrev pub same_policy : InvitePolicy → InvitePolicy → Bool
same_policy host_only host_only = true
same_policy friends_of_friends friends_of_friends = true
same_policy _ _ = false

abbrev pub parsed_or : {A : Type 0} → (String → M A) → A → Option String → M A
parsed_or parse kept none = ret kept
parsed_or parse kept (some value) = parse value

abbrev pub new_capacity : Env → ℕ → Option ℤ → ℕ
new_capacity env kept none = kept
new_capacity env kept (some value) = clamp 1 env.max_players_per_world value

abbrev pub clamps : Option ℤ → Bool
clamps none = false
clamps (some value) = true

unfoldable pub update : Env → ℕ → ℕ → Patch → M WorldSession
unfolding find_world clamp parse_status parse_policy update_tx announce_policy
update env me id body = do
  found ← gets (find_world id)
  world ← or_fail found (not_found "world session not found")
  guard (nat_beq world.host_user_id me) forbidden
  guard (not (clamps body.max_players) || leb 1 env.max_players_per_world) internal
  status ← parsed_or parse_status world.status body.status
  policy ← parsed_or parse_policy world.invite_policy body.invite_policy
  updated ←
      transaction
        (update_tx env world (new_capacity env world.max_players body.max_players) status policy)
  if same_policy policy world.invite_policy
      then ret updated
      else (announce_policy id world.host_user_id policy >> ret updated)

abbrev pub shut : Env → WorldSession → WorldSession
shut env w = record w { status = closed; closed_at = some env.now }

unfoldable pub close_tx : Env → ℕ → ℕ → M WorldSession
unfolding close_world_cleanup
close_tx env id me = do
  modify (λ s. record s {
    worlds = update_where (λ w. has_world_id id w && is_open w.status) (shut env) s.worlds;
  })
  close_world_cleanup env id me

unfoldable pub close : Env → ℕ → ℕ → M WorldSession
unfolding find_world close_tx
close env me id = do
  found ← gets (find_world id)
  world ← or_fail found (not_found "world session not found")
  guard (nat_beq world.host_user_id me) forbidden
  transaction (close_tx env id me)

-- ===== src/Network/Tests/Inviting.antt =====
-- The life of invites, and the tunnel of a relay session, at concrete inputs.
use Prim.Native.String.{String}
use mathlib.Core.Bool.{false}
use loontail_minecraft_netwo.Prelude.{
  ℕ, ◌≡◌, ◌⊎◌, refl, some, none, Option, [], ◌∷◌, arith, find, any, update_where, count_where,
}
use loontail_minecraft_netwo.Network.Store.{
  Net, WorldSession, WorldInvite, RelaySession, is_ended, pending_approval,
}
use loontail_minecraft_netwo.Network.Effect.{fail, final, unauthorized}
use loontail_minecraft_netwo.Network.Query.{
  are_friends, user_exists, find_user, find_open_world, load_open_world_session, fetch_user_dto,
}
use loontail_minecraft_netwo.Network.Invites
use loontail_minecraft_netwo.Network.Invites.{find_invite, new_invite, InviteRow}
use loontail_minecraft_netwo.Network.Invites.Writes.{step, revokes, cleans, creates, swept}
use loontail_minecraft_netwo.Network.Invites.Following.{Follows, IsHistory}
use loontail_minecraft_netwo.Network.Invites.Lifecycle.{IsValid, step-Follows, step-IsValid}
use loontail_minecraft_netwo.Network.Invites.Create.{Grounded, create-Grounded}
use loontail_minecraft_netwo.Network.Relay
use loontail_minecraft_netwo.Realtime.Rendezvous.{guest}
use loontail_minecraft_netwo.Network.Relay.{find_relay}
use loontail_minecraft_netwo.Network.Relay.Tickets.{
  Shown, validate_guest_ticket_once, authorize_sound,
}
use loontail_minecraft_netwo.Network.Tests.Sample.{env, net, invite, tunnel}

net-IsValid : IsValid net
unfolding count_where
net-IsValid = record {
  used = (omega arith, (omega arith, tt));
  single = λ world invitee. ground arith;
}

step-IsValid_example : IsValid (step env (creates 2 10 4) net)
step-IsValid_example = step-IsValid env (creates 2 10 4) net net-IsValid

step-Follows_example :
    ((days : ℕ) × (revokes 2 30 ≡ cleans days) × IsHistory env days (invite 30 4 pending_approval))
    ⊎ ((j : WorldInvite) × (find_invite 30 (step env (revokes 2 30) net) ≡ some j)
        × Follows (invite 30 4 pending_approval) j)
unfolding find_invite find
step-Follows_example =
    step-Follows env (revokes 2 30) net 30 (invite 30 4 pending_approval) net-IsValid refl

-- No invites yet.
abbrev wider : Net
wider = record net { invites = [] }

create-Grounded_example :
    (world : WorldSession) × (find_open_world 10 wider ≡ some world)
    × Grounded world 2 3 pending_approval wider
    × (new_invite env 60 10 1 2 3 pending_approval
        ≡ new_invite env 60 10 world.host_user_id 2 3 pending_approval)
    × ((final (Invites.create env 2 10 3 wider)).invites
        ≡ new_invite env 60 10 1 2 3 pending_approval ∷ swept env 10 3 wider)
unfolding Invites.create load_open_world_session find user_exists any are_friends update_where
    fetch_user_dto Invites.initial_status Invites.place Invites.insert_invite find_open_world
    find_user Invites.expire_lapsed Invites.load_invite find_invite
create-Grounded_example =
    create-Grounded env 2 10 3 wider (final (Invites.create env 2 10 3 wider)) _ refl

-- No session token is known.
abbrev user_from_token : String → Net → Option ℕ
user_from_token token s = none

after_guest : Net
unfolding Relay.validate_guest_ticket any update_where
after_guest = final (Relay.validate_guest_ticket env tunnel "secret" net)

validate_guest_ticket_once_example :
    Relay.validate_guest_ticket env tunnel "secret" after_guest ≡ fail unauthorized after_guest
unfolding after_guest Relay.validate_guest_ticket any update_where Relay.ticket_is_valid
    Relay.consume_ticket
validate_guest_ticket_once_example =
    validate_guest_ticket_once env env tunnel "secret" "secret" net after_guest refl

authorize_sound_example :
    (relay : RelaySession) × (token : String) × (find_relay 51 net ≡ some relay)
    × (some "secret" ≡ some token)
    × (some guest ≡ some guest)
    × (is_ended relay.status ≡ false)
    × Shown user_from_token env token relay guest net
unfolding Relay.authorize Relay.validate_guest_ticket any update_where find find_relay
    Relay.ticket_is_valid Relay.consume_ticket
authorize_sound_example =
    authorize_sound user_from_token env 51 (some "secret") (some guest) guest net
      (final (Relay.authorize user_from_token env 51 (some "secret") (some guest) net)) refl

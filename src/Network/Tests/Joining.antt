-- ===== src/Network/Tests/Joining.antt =====
-- Approving a join request, and the life of invites.
use loontail_minecraft_netwo.Prelude.{refl, find, any, update_where, count_where}
use loontail_minecraft_netwo.Network.Store.{Net}
use loontail_minecraft_netwo.Network.Effect.{final}
use loontail_minecraft_netwo.Network.Query.{
  are_friends, is_friend_of_active_member, load_open_world_session, fetch_user_dto,
}
use loontail_minecraft_netwo.Network.Ticket.{issue_ticket_and_relay_tx}
use loontail_minecraft_netwo.Prelude.{[]}
use loontail_minecraft_netwo.Network.Join
use loontail_minecraft_netwo.Network.Join.Accept.{Admits, accept-Admits}
use loontail_minecraft_netwo.Network.Join.Create.{
  Grants, Asks, create_join_ticket-Grants, create_join_request-Asks,
}
use loontail_minecraft_netwo.Network.Query.{
  find_user, find_presence, effective_status, effective_status_for,
}
use loontail_minecraft_netwo.Network.Ticket.{find_world}
use loontail_minecraft_netwo.Network.Invites
use loontail_minecraft_netwo.Network.Invites.Accept.{AdmitsInvitee, accept-AdmitsInvitee}
use loontail_minecraft_netwo.Network.Tests.Sample.{env, net}

joining : Unit {0}
unfolding Join.accept Join.is_trusted Invites.accept are_friends is_friend_of_active_member
    load_open_world_session fetch_user_dto issue_ticket_and_relay_tx find any update_where
    count_where Invites.chain_holds
joining = tt

after_approval : Net
unfolding joining
after_approval = final (Join.accept env 1 20 net)

accept-Admits_example : Admits env 1 20 net after_approval
unfolding joining after_approval
accept-Admits_example = accept-Admits env 1 20 net after_approval _ refl

after_acceptance : Net
unfolding joining
after_acceptance = final (Invites.accept env 3 31 net)

accept-AdmitsInvitee_example : AdmitsInvitee env 3 31 net after_acceptance
unfolding joining after_acceptance
accept-AdmitsInvitee_example = accept-AdmitsInvitee env 3 31 net after_acceptance _ refl

create_join_ticket-Grants_example :
    Grants env 2 10 net (final (Join.create_join_ticket env 2 10 net))
unfolding joining Join.create_join_ticket find_user effective_status_for find_presence
    effective_status find_world
create_join_ticket-Grants_example = create_join_ticket-Grants env 2 10 net _ _ refl

-- Nobody has asked yet.
abbrev unasked : Net
unasked = record net { join_requests = [] }

after_asking : Net
unfolding joining Join.create_join_request
after_asking = final (Join.create_join_request env 3 10 unasked)

create_join_request-Asks_example :
    (row : Join.JoinRequestRow) × Asks env 3 10 unasked after_asking row
unfolding joining Join.create_join_request effective_status_for find_user find_presence
    effective_status after_asking
create_join_request-Asks_example =
    (_, create_join_request-Asks env 3 10 unasked after_asking _ refl)

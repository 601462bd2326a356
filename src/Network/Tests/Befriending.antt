-- ===== src/Network/Tests/Befriending.antt =====
-- Friend requests at concrete inputs.
use loontail_minecraft_netwo.Prelude.{refl, [], ◌∷◌, arith, find, any, update_where, count_where}
use loontail_minecraft_netwo.Network.Store.{Net, FriendRequest, pending}
use loontail_minecraft_netwo.Network.Effect.{final}
use loontail_minecraft_netwo.Network.Query.{are_friends, find_user}
use loontail_minecraft_netwo.Network.Presence.{broadcast_presence}
use loontail_minecraft_netwo.Network.Friends
use loontail_minecraft_netwo.Network.Friends.Writes
use loontail_minecraft_netwo.Network.Friends.Writes.{creates}
use loontail_minecraft_netwo.Network.Friends.Validity.{IsSound}
use loontail_minecraft_netwo.Network.Friends.Soundness.{step-IsSound}
use loontail_minecraft_netwo.Network.Friends.Befriending.{Befriends, accept_internal-Befriends}
use loontail_minecraft_netwo.Network.Tests.Sample.{env, net}

abbrev asked : FriendRequest
asked = record {
  id = 25;
  from_user_id = 3;
  to_user_id = 1;
  status = pending;
  created_at = 980;
  updated_at = 980;
}

abbrev wanted : Net
wanted = record net { friend_requests = asked ∷ [] }

wanted-IsSound : IsSound wanted
unfolding count_where any are_friends
wanted-IsSound = record {
  ordered = (omega arith, (omega arith, tt));
  once = λ a b. ground arith;
  not_self = (refl, tt);
  single = λ a b. ground arith;
  settled = λ a b h. ground arith;
}

step-IsSound_example : IsSound (Writes.step env (creates 1 3) wanted)
step-IsSound_example = step-IsSound env (creates 1 3) wanted wanted-IsSound

befriended : Net
unfolding Friends.accept_internal
befriended = final (Friends.accept_internal env 1 25 wanted)

accept_internal-Befriends_example : Befriends 1 25 wanted befriended
unfolding befriended Friends.accept_internal Friends.befriend_tx Friends.find_friend_request
    Friends.set_request Friends.add_pair Friends.load_request find_user find any update_where
    broadcast_presence
accept_internal-Befriends_example = accept_internal-Befriends env 1 25 wanted befriended _ refl

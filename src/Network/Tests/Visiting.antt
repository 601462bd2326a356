-- ===== src/Network/Tests/Visiting.antt =====
-- Presence, and the slots of a world, at concrete inputs.
use mathlib.Core.Bool.{true, false}
use loontail_minecraft_netwo.Prelude.{◌≡◌, refl, some, List, [], ◌∷◌, All, arith, any}
use loontail_minecraft_netwo.Network.Store.{joinable}
use loontail_minecraft_netwo.Network.Presence.{friends_with_presence}
use loontail_minecraft_netwo.Network.Presence.Shown.{IsHonest, friends_with_presence-IsHonest}
use loontail_minecraft_netwo.Network.Presence.Owned
use loontail_minecraft_netwo.Network.Presence.Owned.{Owned, sets, step-Owned}
use loontail_minecraft_netwo.Network.Relay.Slots
use loontail_minecraft_netwo.Network.Relay.Slots.{Move, arrives, leaves, seats, run-eq-seats}
use loontail_minecraft_netwo.Network.Tests.Sample.{env, net}

friends_with_presence-IsHonest_example : All (IsHonest env net) (friends_with_presence env 1 net)
friends_with_presence-IsHonest_example = friends_with_presence-IsHonest env 1 net

net-Owned : Owned net
net-Owned = ground arith

step-Owned_example : Owned (Owned.step env (sets 1 (some joinable) (some 10)) net)
step-Owned_example = step-Owned env (sets 1 (some joinable) (some 10)) net net-Owned

-- Three slots, one of them taken: a third guest has to wait until another leaves.
abbrev moves : List Move
moves =
    arrives 51 (some 3)
    ∷ arrives 52 (some 4)
    ∷ arrives 53 (some 5)
    ∷ leaves 52 (some 4)
    ∷ arrives 54 (some 5)
    ∷ []

run-eq-seats_example : Slots.run env 10 moves 1 net ≡ seats 3 moves 1
unfolding any
run-eq-seats_example = run-eq-seats env 10 3 1 moves net ((λ e. (refl, refl, refl)), tt) refl

seats_answers : seats 3 moves 1 ≡ true ∷ true ∷ false ∷ true ∷ []
unfolding seats
seats_answers = refl

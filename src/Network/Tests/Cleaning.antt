-- ===== src/Network/Tests/Cleaning.antt =====
-- The theorem of the event log at a concrete input: five aged rows, two at a time.
use loontail_minecraft_netwo.Prelude.{ℕ, ◌≡◌, List, [], ◌∷◌, some, arith, keep, count_where}
use loontail_minecraft_netwo.Network.Store.{Env}
use loontail_minecraft_netwo.Network.Cleanup.{UserEvent, delete_aged_user_events_in_chunks}
use loontail_minecraft_netwo.Network.Cleanup.Draining.{delete_aged_user_events_in_chunks-drains}
use loontail_minecraft_netwo.Network.Tests.Sample

abbrev event : ℕ → ℕ → UserEvent
event id time = record { id = id; created_at = time }

abbrev env : Env
env = record Sample.env { now = 4000000 }

abbrev log : List UserEvent
log = event 6 3999999 ∷ event 5 50 ∷ event 4 40 ∷ event 3 30 ∷ event 2 20 ∷ event 1 10 ∷ []

delete_aged_user_events_in_chunks-drains_example :
    delete_aged_user_events_in_chunks 3 env 30 2 log ≡ some (5, event 6 3999999 ∷ [])
unfolding keep count_where
delete_aged_user_events_in_chunks-drains_example =
    delete_aged_user_events_in_chunks-drains 3 env 30 2 log (omega arith) (omega arith)

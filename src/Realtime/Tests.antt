-- ===== src/Realtime/Tests.antt =====
-- The theorems of the hubs at concrete inputs.
use mathlib.Core.Bool.{true, not}
use loontail_minecraft_netwo.Prelude.{◌≡◌, refl, none, List, [], ◌∷◌, nat_beq, keep}
use loontail_minecraft_netwo.Prelude.Map.{lookup, contains_key, insert, remove}
use loontail_minecraft_netwo.Realtime.Hub.{is_online, is_empty}
use loontail_minecraft_netwo.Realtime.Delivery
use loontail_minecraft_netwo.Realtime.Delivery.{
  Call, adds, removes, sends, run_view, run-eq-run_view,
}
use loontail_minecraft_netwo.Realtime.Rendezvous
use loontail_minecraft_netwo.Realtime.Rendezvous.{host, guest}
use loontail_minecraft_netwo.Realtime.Pairing
use loontail_minecraft_netwo.Realtime.Pairing.{
  Move, arrives, times_out, is_of, run_one, keep-run-eq-run_one,
}

-- Two connections of user 1, the first of which dies, and one of user 2.
abbrev calls : List Call
calls =
    adds 1 11
    ∷ adds 1 12
    ∷ adds 2 21
    ∷ sends (λ c. not (nat_beq c 11)) 1
    ∷ removes 1 12
    ∷ sends (λ c. true) 1
    ∷ []

run-eq-run_view_example :
    ((Delivery.run calls []).0 ≡ (run_view calls (λ u. [])).0)
    × (is_online 1 (Delivery.run calls []).1 ≡ not (is_empty ((run_view calls (λ u. [])).1 1)))
run-eq-run_view_example = run-eq-run_view calls 1

run_view_deliveries : (run_view calls (λ u. [])).0 ≡ [] ∷ [] ∷ [] ∷ (12 ∷ []) ∷ [] ∷ [] ∷ []
unfolding run_view keep
run_view_deliveries = refl

-- Session 5 pairs after a refused second host; session 6 times out before its guest comes.
abbrev moves : List Move
moves =
    arrives 5 host 1
    ∷ arrives 6 host 2
    ∷ arrives 5 host 3
    ∷ times_out 6
    ∷ arrives 5 guest 4
    ∷ arrives 6 guest 7
    ∷ []

keep-run-eq-run_one_example : keep (is_of 5) (Pairing.run moves []) ≡ run_one 5 moves none
keep-run-eq-run_one_example = keep-run-eq-run_one 5 moves

run_tunnels : Pairing.run moves [] ≡ record { session = 5; host_socket = 1; guest_socket = 4 } ∷ []
unfolding Pairing.run Rendezvous.arrive Rendezvous.remove_waiting lookup insert remove contains_key
run_tunnels = refl

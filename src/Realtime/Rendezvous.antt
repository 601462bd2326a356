-- ===== src/Realtime/Rendezvous.antt =====
-- `RelayHub`: the first party of a relay session waits, tagged with its role, until the second
-- arrives. A `PendingPeer` is its socket, a number; the counter of active pairings is an atomic.
use mathlib.Core.Bool.{Bool, true, false}
use loontail_minecraft_netwo.Prelude.{ℕ, Option, none, some, List, if◌then◌else◌, nat_eq}
use loontail_minecraft_netwo.Prelude.Map.{lookup, contains_key, insert, remove}

pub data RelayRole : Type 0 where
  host guest : RelayRole

unfoldable pub roles_pair : RelayRole → RelayRole → Bool
roles_pair host host = false
roles_pair host guest = true
roles_pair guest host = true
roles_pair guest guest = false

abbrev pub Waiting : Type 0
Waiting = List (ℕ × (RelayRole × ℕ))

-- The peer that is handed back, and the map.
unfoldable pub park : ℕ → RelayRole → ℕ → Waiting → Option ℕ × Waiting
park session role peer hub =
    if contains_key session hub then (some peer, hub) else (none, insert session (role, peer) hub)

unfoldable pub take_peer : ℕ → RelayRole → Waiting → Option ℕ × Waiting
unfolding roles_pair
take_peer session incoming hub = elim (lookup session hub) [
  | none ↦ (none, hub)
  | some (parked, peer) ↦
      if roles_pair parked incoming then (some peer, remove session hub) else (none, hub)
]

unfoldable pub remove_waiting : ℕ → Waiting → Option ℕ × Waiting
remove_waiting session hub = elim (lookup session hub) [
  | none ↦ (none, hub)
  | some (parked, peer) ↦ (some peer, remove session hub)
]

unfoldable pub is_waiting : ℕ → Waiting → Bool
is_waiting session hub = contains_key session hub

-- What `handle_relay` of crates/network/src/relay.rs does with an arriving socket: it is paired with
-- the waiter, waits itself, or is refused.
pub data Arrival : Type 0 where
  paired : (waiter : ℕ) → Arrival
  parked refused : Arrival

unfoldable pub arrive : ℕ → RelayRole → ℕ → Waiting → Arrival × Waiting
unfolding take_peer park
arrive session role socket hub =
    let (pending, left) = take_peer session role hub in
    elim pending [
      | some waiter ↦ (paired waiter, left)
      | none ↦
          let (back, kept) = park session role socket left in
          elim back [ none ↦ (parked, kept) | some s ↦ (refused, kept) ]
    ]

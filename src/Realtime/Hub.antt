-- ===== src/Realtime/Hub.antt =====
-- `SignalingHub`. A connection stands for its id and its sender. Whether a `send` on it succeeds is
-- up to the channel, which is an argument: `alive c` says that the receiver of `c` still exists. The
-- fresh id that `add` draws is an argument too.
use mathlib.Core.Bool.{Bool, true, false, not}
use loontail_minecraft_netwo.Prelude.{
  ℕ, none, some, List, [], ◌∷◌, ◌++◌, nat_beq, if◌then◌else◌, length, keep, nat_eq,
}
use loontail_minecraft_netwo.Prelude.Map.{lookup, contains_key, insert, remove}

abbrev pub Hub : Type 0
Hub = List (ℕ × List ℕ)

unfoldable pub connections_of : ℕ → Hub → List ℕ
connections_of user hub = elim (lookup user hub) [ none ↦ [] | some conns ↦ conns ]

-- `map.entry(user_id).or_default().push(…)`
unfoldable pub add : ℕ → ℕ → Hub → Hub
unfolding connections_of
add user conn hub = insert user (connections_of user hub ++ conn ∷ []) hub

abbrev pub is_empty : List ℕ → Bool
is_empty [] = true
is_empty (c ∷ cs) = false

-- What a retain leaves in the map: an emptied entry goes.
unfoldable pub store : ℕ → List ℕ → Hub → Hub
store user conns hub = if is_empty conns then remove user hub else insert user conns hub

unfoldable pub remove_connection : ℕ → ℕ → Hub → Hub
unfolding store
remove_connection user conn hub = elim (lookup user hub) [
  | none ↦ hub
  | some conns ↦ store user (keep (λ c. not (nat_beq c conn)) conns) hub
]

-- The connections that the event is delivered to, and the hub after it.
unfoldable pub send_to : (ℕ → Bool) → ℕ → Hub → List ℕ × Hub
unfolding store
send_to alive user hub = elim (lookup user hub) [
  | none ↦ ([], hub)
  | some conns ↦ (keep alive conns, store user (keep alive conns) hub)
]

unfoldable pub connected_users : Hub → ℕ
connected_users hub = length hub

unfoldable pub is_online : ℕ → Hub → Bool
is_online user hub = contains_key user hub

-- ===== src/Network/Worlds/Settled.antt =====
-- Every call on worlds keeps their table valid, and ends the relay sessions of a world that it closes.
use loontail_minecraft_netwo.Prelude.{ℕ, ◌≡◌, ◌≤◌, ◌⊎◌, refl, some, List, find-All, inl, inr}
use loontail_minecraft_netwo.Network.Store.{WorldSession, opened, closed, Net, Env}
use loontail_minecraft_netwo.Network.Ticket.{find_world}
use loontail_minecraft_netwo.Network.Worlds.{is_open_of, has_world_id}
use loontail_minecraft_netwo.Network.Worlds.Validity.{
  InBounds, IsValid, emptied-IsValid, shut-IsValid, reuse-IsValid, patched_closed-IsValid,
  reopened-IsValid, added-IsValid,
}
use loontail_minecraft_netwo.Network.Worlds.Effects.{
  Call, step, Writes, nothing, adds, reuses, patches, shuts, Closing, by_patch, by_close,
}
use loontail_minecraft_netwo.Network.Worlds.Writes.{step-Writes}

abbrev pub ValidWorlds : Env → Net → Type 0
ValidWorlds env s = IsValid env s.worlds s.next_id

kept_bounds :
    (env : Env) (id max : ℕ) (s : Net) (w : WorldSession)
    → ValidWorlds env s
    → find_world id s ≡ some w
    → (max ≡ w.max_players) ⊎ ((1 ≤ max) × (max ≤ env.max_players_per_world))
    → (1 ≤ max) × (max ≤ env.max_players_per_world)
unfolding find_world
kept_bounds env id max s w v e b = elim b [
  | inl same ↦
      let old = find-All (InBounds env) (has_world_id id) s.worlds v.bounded e in rw same old
  | inr new ↦ new
]

Closing-IsValid :
    (env : Env) (id : ℕ) (s : Net) (w : WorldSession) (ws : List WorldSession)
    → ValidWorlds env s
    → find_world id s ≡ some w
    → Closing env w id s.worlds ws
    → IsValid env ws s.next_id
Closing-IsValid env id s w _ v e (by_patch max policy b) =
    patched_closed-IsValid env max policy (has_world_id id) s.worlds s.next_id
      (kept_bounds env id max s w v e b) v
Closing-IsValid env id s w _ v e by_close = shut-IsValid env _ s.worlds s.next_id v

Writes-ValidWorlds :
    (env : Env) (s t : Net) → ValidWorlds env s → Writes env s t → ValidWorlds env t
unfolding find_world
Writes-ValidWorlds env s t v (nothing a) = rw (a.worlds, a.next_id) v
Writes-ValidWorlds env s t v (adds h m c d e a) =
    rw (a.worlds, a.next_id) (added-IsValid env h m s.worlds s.next_id e d v)
Writes-ValidWorlds env s t v (reuses h m d a) =
    rw (a.worlds, a.next_id) (reuse-IsValid env m (is_open_of h) s.worlds s.next_id d v)
Writes-ValidWorlds env s t v (patches id m opened p w e d f g a) =
    rw (a.worlds, a.next_id)
      (reopened-IsValid env id m p s.worlds s.next_id w e (f refl) (kept_bounds env id m s w v e d)
        v)
Writes-ValidWorlds env s t v (patches id m closed p w e d f g a) =
    rw (a.worlds, a.next_id)
      (patched_closed-IsValid env m p (has_world_id id) s.worlds s.next_id
        (kept_bounds env id m s w v e d) v)
Writes-ValidWorlds env s t v (shuts id w ws e c a) =
    rw (a.worlds, a.next_id)
      (emptied-IsValid env (has_world_id id) ws s.next_id (Closing-IsValid env id s w ws v e c))

-- Every call on worlds, whatever it answers, keeps a valid table valid: an id names one world and is
-- used up, a host has at most one open world, and a world has between one slot and the cap.
pub step-ValidWorlds :
    (env : Env) (c : Call) (s : Net) → ValidWorlds env s → ValidWorlds env (step env c s)
step-ValidWorlds env c s v = Writes-ValidWorlds env s (step env c s) v (step-Writes env c s)

-- ===== src/Network/Presence/Shown.antt =====
-- What the friends of a user are shown.
use mathlib.Core.Bool.{false}
use loontail_minecraft_netwo.Prelude.{
  ℕ, ◌≡◌, refl, ap, ◌∙◌, Option, none, some, List, [], ◌∷◌, All, arith, Option-cases, inl, inr,
}
use loontail_minecraft_netwo.Network.Store.{User, PresenceStatus, is_offline, is_in_world, Net, Env}
use loontail_minecraft_netwo.Network.Query.{find_presence, find_user, effective_status_for}
use loontail_minecraft_netwo.Network.Presence.{
  derive_friend_status, FriendPresence, guest_world, base_status, friend_presence, present_each,
  friends_with_presence,
}

-- A shown friend: the offline ones are those whose own status has lapsed or is offline, and only a
-- friend in a world points at one, the world of the guest first.
pub record IsHonest (env : Env) (s : Net) (row : FriendPresence) : Type 0 where
  pub offline_same : is_offline row.status ≡ is_offline (effective_status_for env row.user.id s)
  pub no_stray_world : is_in_world row.status ≡ false → row.current_world_session_id ≡ none
  pub guest_first :
      (world : ℕ)
      → guest_world row.user.id s ≡ some world
      → is_offline row.status ≡ false
      → row.current_world_session_id ≡ some world

derived :
    (base : PresenceStatus) (visiting current : Option ℕ)
    → let shown = derive_friend_status base visiting current in
      (is_offline shown.0 ≡ is_offline base)
      × (is_in_world shown.0 ≡ false → shown.1 ≡ none)
      × ((world : ℕ) → visiting ≡ some world → is_offline shown.0 ≡ false → shown.1 ≡ some world)
unfolding derive_friend_status
derived base (some world) current = (ground arith, λ h. ground arith, λ w e h. ground arith)
derived base none current = (ground arith, λ h. ground arith, λ w e h. absurd (cc))

base-same :
    (env : Env) (user : ℕ) (s : Net)
    → base_status env (find_presence user s) ≡ effective_status_for env user s
unfolding effective_status_for
base-same env user s = elim (Option-cases (find_presence user s)) [
  | inl e ↦ rw (e, effective_status_for) refl
  | inr (p, e) ↦ rw (e, effective_status_for) refl
]

friend_presence-IsHonest :
    (env : Env) (s : Net) (u : User) → IsHonest env s (friend_presence env s u)
unfolding friend_presence
friend_presence-IsHonest env s u =
    let facts = derived (base_status env (find_presence u.id s)) (guest_world u.id s) _ in
    record {
      offline_same = facts.0 ∙ ap is_offline (base-same env u.id s);
      no_stray_world = facts.1;
      guest_first = facts.2;
    }

present_each-IsHonest :
    (env : Env) (s : Net) (ids : List ℕ) → All (IsHonest env s) (present_each env s ids)
present_each-IsHonest env s [] = tt
present_each-IsHonest env s (id ∷ ids) =
    let rest = present_each-IsHonest env s ids in
    elim (find_user id s)
      as (λ found. All (IsHonest env s) (elim found [
        | none ↦ present_each env s ids
        | some u ↦ friend_presence env s u ∷ present_each env s ids
      ])) [ none ↦ rest | some u ↦ (friend_presence-IsHonest env s u, rest) ]

-- Every friend on a user's list is shown as offline exactly if the friend's own status is offline
-- or has lapsed; only a friend who is in a world points at one; and a friend who is not offline and
-- is an active guest of an open friends-of-friends world points at that world.
pub friends_with_presence-IsHonest :
    (env : Env) (user : ℕ) (s : Net) → All (IsHonest env s) (friends_with_presence env user s)
unfolding friends_with_presence
friends_with_presence-IsHonest env user s = present_each-IsHonest env s _

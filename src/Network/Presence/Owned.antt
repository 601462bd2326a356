-- ===== src/Network/Presence/Owned.antt =====
-- Nobody is shown in a world of somebody else by their own presence row.
use Prim.Native.String.{String}
use mathlib.Core.Bool.{Bool, true, ◌&&◌}
use loontail_minecraft_netwo.Prelude.{
  ℕ, ◌≡◌, refl, Option, none, some, List, [], ◌∷◌, nat_beq, any, update_where, All, All-map,
  All-update_where, ◌∙◌, arith, if◌then◌else◌, Bool-cases, inl, inr,
}
use loontail_minecraft_netwo.Network.Store.{
  Presence, PresenceStatus, WorldSession, is_in_world, is_offline, Net, Env,
}
use loontail_minecraft_netwo.Network.Effect.{final}
use loontail_minecraft_netwo.Network.Query.{is_presence_of}
use loontail_minecraft_netwo.Network.Presence.{
  upsert, welcome, bootstrap_presence, fresh_presence, revive, mark_online, heartbeat, mark_offline,
  set_status, broadcast_presence, owns, may_enter, push_updates, entered, enter, friend_ids,
}
use loontail_minecraft_netwo.Network.Worlds.{leave_world, emptied, new_world}
use loontail_minecraft_netwo.Network.Worlds.Effects
use loontail_minecraft_netwo.Network.Worlds.Effects.{
  Closing, by_patch, by_close, nothing, adds, reuses, patches, shuts,
}
use loontail_minecraft_netwo.Network.Worlds.Writes.{step-Writes}

-- The calls that write the table: of presence.rs, the bootstrap of users.rs, and those on worlds.
pub data Call : Type 0 where
  beats connects disconnects : (user : ℕ) → Call
  bootstraps : (user : ℕ) (version loader : Option String) → Call
  hosting : Effects.Call → Call
  sets : (user : ℕ) (status : Option PresenceStatus) (world : Option ℕ) → Call

unfoldable pub step : Env → Call → Net → Net
unfolding heartbeat mark_online mark_offline set_status bootstrap_presence Effects.step
step env (bootstraps user version loader) s = final (bootstrap_presence env user version loader s)
step env (hosting c) s = Effects.step env c s
step env (beats user) s = final (heartbeat env user s)
step env (connects user) s = final (mark_online env user s)
step env (disconnects user) s = final (mark_offline user s)
step env (sets user status world) s = final (set_status env user status world s)

abbrev pub hosts : ℕ → ℕ → WorldSession → Bool
hosts user world w = nat_beq w.id world && nat_beq w.host_user_id user

-- A row points at a world only if it is not offline, and the world is the user's own.
pub record IsOwned (worlds : List WorldSession) (p : Presence) : Type 0 where
  pub is_away : is_offline p.status ≡ true → p.current_world_session_id ≡ none
  pub own :
      (world : ℕ)
      → p.current_world_session_id ≡ some world
      → any (hosts p.user_id world) worlds ≡ true

abbrev pub Owned : Net → Type 0
Owned s = All (IsOwned s.worlds) s.presence

module _ (P : Presence → Type 0) (change : Presence → Presence) where
  All-changed :
      (q : Presence → Bool) (rows : List Presence)
      → ((p : Presence) → q p ≡ true → P p → P (change p))
      → All P rows
      → All P (update_where q change rows)
  unfolding update_where
  All-changed q [] f a = tt
  All-changed q (p ∷ rows) f a = elim (Bool-cases (q p)) [
    | inl t ↦ rw t (f p t a.0, All-changed q rows f a.1)
    | inr n ↦ rw n (a.0, All-changed q rows f a.1)
  ]

  All-upsert :
      (new : Presence) (rows : List Presence)
      → P new
      → ((p : Presence) → is_presence_of new.user_id p ≡ true → P p → P (change p))
      → All P rows
      → All P (upsert new change rows)
  unfolding upsert
  All-upsert new rows n f a = elim (Bool-cases (any (is_presence_of new.user_id) rows)) [
    | inl e ↦ rw e (All-changed (is_presence_of new.user_id) rows f a)
    | inr e ↦ rw e (n, a)
  ]

fresh-IsOwned :
    (now user : ℕ) (worlds : List WorldSession) → IsOwned worlds (fresh_presence now user)
fresh-IsOwned now user worlds = record { is_away = λ h. refl; own = λ w e. absurd (cc) }

revive-IsOwned :
    (now : ℕ) (worlds : List WorldSession) (p : Presence)
    → IsOwned worlds p
    → IsOwned worlds (revive now p)
revive-IsOwned now worlds p v = record {
  is_away = λ h. v.is_away (ground arith);
  own = λ w e. v.own w e;
}

any-owns :
    (user world : ℕ) (worlds : List WorldSession)
    → any (owns user world) worlds ≡ true
    → any (hosts user world) worlds ≡ true
unfolding any
any-owns user world [] h = h
any-owns user world (w ∷ ws) h = ground (arith, any-owns user world ws)

beat-Owned :
    (env : Env) (user : ℕ) (s : Net)
    → Owned s
    → All (IsOwned s.worlds) (upsert (fresh_presence env.now user) (revive env.now) s.presence)
beat-Owned env user s v =
    All-upsert (IsOwned s.worlds) (revive env.now) (fresh_presence env.now user) s.presence
      (fresh-IsOwned env.now user s.worlds) (λ p at a. revive-IsOwned env.now s.worlds p a) v

offline-Owned : (user : ℕ) (s : Net) → Owned s → Owned (final (mark_offline user s))
unfolding mark_offline
offline-Owned user s v =
    All-update_where (IsOwned s.worlds) _ _ s.presence
      (λ p a. record { is_away = λ h. refl; own = λ w e. absurd (cc) }) v

pub push_updates-kept :
    (user : ℕ) (friends : List ℕ) (s : Net)
    → ((push_updates user friends s).presence ≡ s.presence)
      × ((push_updates user friends s).worlds ≡ s.worlds)
push_updates-kept user [] s = (refl, refl)
push_updates-kept user (f ∷ fs) s = push_updates-kept user fs _

-- What `set_status` writes, once the guard has passed.
entered-IsOwned :
    (status : PresenceStatus) (world : Option ℕ) (user : ℕ) (s : Net) (p : Presence)
    → may_enter status world user s ≡ true
    → p.user_id ≡ user
    → p.status ≡ status
    → p.current_world_session_id ≡ (if is_in_world status then world else none)
    → IsOwned s.worlds p
entered-IsOwned status none user s p g e f w = record {
  is_away = λ h. ground arith;
  own = λ x k. absurd (ground arith);
}
entered-IsOwned status (some id) user s p g e f w = record {
  is_away = λ h. ground arith;
  own = λ x k. (let o = any-owns user id s.worlds in ground arith);
}

set-Owned :
    (env : Env) (user : ℕ) (status : PresenceStatus) (world : Option ℕ) (s : Net)
    → Owned s
    → Owned (final (set_status env user (some status) world s))
unfolding set_status broadcast_presence
set-Owned env user status world s v = elim (Bool-cases (may_enter status world user s)) [
  | inr n ↦ rw n v
  | inl g ↦ rw g (
      let t : Net = record s {
        presence = upsert (entered env user status world) (enter env status world) s.presence;
      } in
      let kept = push_updates-kept user (friend_ids user t) t in
      rw (kept.0, kept.1)
        (All-upsert (IsOwned s.worlds) (enter env status world) (entered env user status world)
          s.presence (entered-IsOwned status world user s _ g refl refl refl)
          (λ p at a. entered-IsOwned status world user s _ g (ground arith) refl refl) v))
]

any-kept :
    (user world : ℕ) (q : WorldSession → Bool) (f : WorldSession → WorldSession)
    (ws : List WorldSession)
    → ((w : WorldSession) → hosts user world (f w) ≡ hosts user world w)
    → any (hosts user world) (update_where q f ws) ≡ any (hosts user world) ws
unfolding any update_where
any-kept user world q f [] h = refl
any-kept user world q f (w ∷ ws) h = ground (arith, any-kept user world q f ws h, h w)

-- The worlds of a table have not lost a host.
abbrev Keeps : List WorldSession → List WorldSession → Type 0
Keeps ws later =
    (user world : ℕ) → any (hosts user world) ws ≡ true → any (hosts user world) later ≡ true

update-Keeps :
    (q : WorldSession → Bool) (f : WorldSession → WorldSession) (ws : List WorldSession)
    → ((user world : ℕ) (w : WorldSession) → hosts user world (f w) ≡ hosts user world w)
    → Keeps ws (update_where q f ws)
update-Keeps q f ws h user world y = any-kept user world q f ws (h user world) ∙ y

shut-Keeps :
    (env : Env) (w : WorldSession) (id : ℕ) (ws later : List WorldSession)
    → Closing env w id ws later
    → Keeps ws later
shut-Keeps env w id ws later (by_patch max policy b) = update-Keeps _ _ ws (λ u x v. refl)
shut-Keeps env w id ws later by_close = update-Keeps _ _ ws (λ u x v. refl)

carried :
    (ws later : List WorldSession) (rows : List Presence)
    → Keeps ws later
    → All (IsOwned ws) rows
    → All (IsOwned later) rows
carried ws later rows k v =
    All-map (IsOwned ws) (IsOwned later) rows
      (λ p o. record { is_away = o.is_away; own = λ x e. k p.user_id x (o.own x e) }) v

Same-Owned : {s t : Net} → Effects.Same s t → Owned s → Owned t
Same-Owned e v = rw (e.worlds, e.presence) v

hosting-Owned : (env : Env) (s t : Net) → Effects.Writes env s t → Owned s → Owned t
hosting-Owned env s t (nothing e) v = Same-Owned e v
hosting-Owned env s t (adds host max a b c e) v = Same-Owned e (
    carried s.worlds (new_world env s.next_id host max ∷ s.worlds) s.presence
      (λ user world y. unfold any in ground (arith, y)) v)
hosting-Owned env s t (reuses host max a e) v =
    Same-Owned e (carried s.worlds _ s.presence (update-Keeps _ _ s.worlds (λ u x w. refl)) v)
hosting-Owned env s t (patches id max status policy w a b c d e) v =
    Same-Owned e (carried s.worlds _ s.presence (update-Keeps _ _ s.worlds (λ u x w. refl)) v)
hosting-Owned env s t (shuts id w ws a c e) v = Same-Owned e (
    carried s.worlds _ _
      (λ user world y.
        update-Keeps _ emptied ws (λ u x w. refl) user world
          (shut-Keeps env w id s.worlds ws c user world y))
      (All-update_where (IsOwned s.worlds) (is_presence_of w.host_user_id) leave_world s.presence
        (λ p o. record { is_away = λ h. refl; own = λ x f. absurd (cc) }) v))

welcome-IsOwned :
    (now : ℕ) (version loader : Option String) (worlds : List WorldSession) (p : Presence)
    → IsOwned worlds p
    → IsOwned worlds (welcome now version loader p)
welcome-IsOwned now version loader worlds p v = record {
  is_away = λ h. absurd (cc);
  own = λ w e. v.own w e;
}

-- Whatever calls are made on presence and on worlds, the bootstrap of an agent included, a row that
-- points at a world belongs to the host of that world, and an offline row points at none, if this
-- held before.
pub step-Owned : (env : Env) (c : Call) (s : Net) → Owned s → Owned (step env c s)
unfolding step heartbeat mark_online bootstrap_presence
step-Owned env (beats user) s v = beat-Owned env user s v
step-Owned env (connects user) s v = beat-Owned env user s v
step-Owned env (bootstraps user version loader) s v =
    All-upsert (IsOwned s.worlds) (welcome env.now version loader)
      (welcome env.now version loader (fresh_presence env.now user)) s.presence
      (welcome-IsOwned env.now version loader s.worlds (fresh_presence env.now user)
        (fresh-IsOwned env.now user s.worlds))
      (λ p at a. welcome-IsOwned env.now version loader s.worlds p a) v
step-Owned env (hosting c) s v = hosting-Owned env s (Effects.step env c s) (step-Writes env c s) v
step-Owned env (disconnects user) s v = offline-Owned user s v
step-Owned env (sets user none world) s v = v
step-Owned env (sets user (some status) world) s v = set-Owned env user status world s v

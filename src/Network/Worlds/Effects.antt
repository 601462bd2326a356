-- ===== src/Network/Worlds/Effects.antt =====
-- What a call on worlds may write, and what creating and closing one write.
use mathlib.Core.Bool.{true, false, ◌&&◌}
use loontail_minecraft_netwo.Prelude.{
  ℕ, suc, ◌≡◌, ◌≤◌, ◌⊎◌, refl, ◌∙◌, Option, none, some, List, [], ◌∷◌, leb, nat_beq, any, find,
  update_where, arith, Option-cases, Bool-cases, inl, inr,
}
use loontail_minecraft_netwo.Prelude.Int.{ℤ}
use loontail_minecraft_netwo.Network.Store.{
  WorldSession, WorldStatus, closed, InvitePolicy, is_open, world_policy_changed, Net, Env,
}
use loontail_minecraft_netwo.Network.Effect.{database, done, fail, final}
use loontail_minecraft_netwo.Network.Query.{is_presence_of}
use loontail_minecraft_netwo.Network.Presence.{push_updates, friend_ids, broadcast_presence}
use loontail_minecraft_netwo.Network.Ticket.{find_world}
use loontail_minecraft_netwo.Network.Worlds.{
  is_open_of, has_world_id, capacity, new_world, reuse, upsert_world, create_world, is_live_in,
  end_relay, leave_world, emptied, close_world_cleanup, Patch, patched, is_other_open, push_policy,
  guests_of, announce_policy, update, shut, close_tx, close,
}
use loontail_minecraft_netwo.Network.Worlds.Validity.{capacity-InBounds}

pub data Call : Type 0 where
  creates : (me : ℕ) (requested : Option ℤ) → Call
  updates : (me id : ℕ) (body : Patch) → Call
  closes : (me id : ℕ) → Call

unfoldable pub step : Env → Call → Net → Net
step env (creates me requested) s = final (create_world env me requested s)
step env (updates me id body) s = final (update env me id body s)
step env (closes me id) s = final (close env me id s)

-- The two ways in which a row is closed, before its players are counted out.
pub data Closing (env : Env) (w : WorldSession) (id : ℕ) (ws : List WorldSession)
    : List WorldSession → Type 0 where
  by_patch :
      (max : ℕ) (policy : InvitePolicy)
      → (max ≡ w.max_players) ⊎ ((1 ≤ max) × (max ≤ env.max_players_per_world))
      → Closing env w id ws (update_where (has_world_id id) (patched env max closed policy) ws)
  by_close :
      Closing env w id ws (update_where (λ w. has_world_id id w && is_open w.status) (shut env) ws)

pub record Same (s t : Net) : Type 0 where
  pub worlds : t.worlds ≡ s.worlds
  pub relays : t.relays ≡ s.relays
  pub presence : t.presence ≡ s.presence
  pub next_id : t.next_id ≡ s.next_id

pub data Writes (env : Env) (s t : Net) : Type 0 where
  nothing : Same s t → Writes env s t
  adds :
      (host max : ℕ)
      → 1 ≤ env.max_players_per_world
      → (1 ≤ max) × (max ≤ env.max_players_per_world)
      → find (is_open_of host) s.worlds ≡ none
      → Same
          (record s {
            worlds = new_world env s.next_id host max ∷ s.worlds;
            next_id = suc s.next_id;
          })
          t
      → Writes env s t
  reuses :
      (host max : ℕ)
      → (1 ≤ max) × (max ≤ env.max_players_per_world)
      → Same (record s { worlds = update_where (is_open_of host) (reuse max) s.worlds }) t
      → Writes env s t
  patches :
      (id max : ℕ) (status : WorldStatus) (policy : InvitePolicy) (w : WorldSession)
      → find_world id s ≡ some w
      → (max ≡ w.max_players) ⊎ ((1 ≤ max) × (max ≤ env.max_players_per_world))
      → (is_open status ≡ true → any (is_other_open id w.host_user_id) s.worlds ≡ false)
      → (is_open status ≡ false → is_open w.status ≡ false)
      → Same
          (record s {
            worlds = update_where (has_world_id id) (patched env max status policy) s.worlds;
          })
          t
      → Writes env s t
  shuts :
      (id : ℕ) (w : WorldSession) (ws : List WorldSession)
      → find_world id s ≡ some w
      → Closing env w id s.worlds ws
      → Same
          (record s {
            relays = update_where (is_live_in id) (end_relay env) s.relays;
            presence = update_where (is_presence_of w.host_user_id) leave_world s.presence;
            worlds = update_where (has_world_id id) emptied ws;
          })
          t
      → Writes env s t

pub Same-refl : (s : Net) → Same s s
Same-refl s = record { worlds = refl; relays = refl; presence = refl; next_id = refl }

Same-trans : {s t u : Net} → Same s t → Same t u → Same s u
Same-trans a b = record {
  worlds = b.worlds ∙ a.worlds;
  relays = b.relays ∙ a.relays;
  presence = b.presence ∙ a.presence;
  next_id = b.next_id ∙ a.next_id;
}

push_updates-Same : (user : ℕ) (friends : List ℕ) (s : Net) → Same s (push_updates user friends s)
push_updates-Same user [] s = Same-refl s
push_updates-Same user (f ∷ fs) s =
    let rest = push_updates-Same user fs _ in
    record {
      worlds = rest.worlds;
      relays = rest.relays;
      presence = rest.presence;
      next_id = rest.next_id;
    }

push_policy-Same :
    (world : ℕ) (policy : InvitePolicy) (gs : List ℕ) (s : Net)
    → Same s (push_policy world policy gs s)
push_policy-Same world policy [] s = Same-refl s
push_policy-Same world policy (g ∷ gs) s =
    let told = record s { sent = (g, world_policy_changed world policy) ∷ s.sent } in
    let pushed = push_updates-Same g (friend_ids g told) told in
    let first : Same s (push_updates g (friend_ids g told) told) = record {
      worlds = pushed.worlds;
      relays = pushed.relays;
      presence = pushed.presence;
      next_id = pushed.next_id;
    } in
    Same-trans first (push_policy-Same world policy gs _)

pub announce_policy-Same :
    (world host : ℕ) (policy : InvitePolicy) (s : Net)
    → Same s (final (announce_policy world host policy s))
unfolding announce_policy broadcast_presence
announce_policy-Same world host policy s =
    let told = push_policy world policy (guests_of world s.relays) s in
    Same-trans (push_policy-Same world policy (guests_of world s.relays) s)
      (push_updates-Same host (friend_ids host told) told)

pub create_world-Writes :
    (env : Env) (me : ℕ) (requested : Option ℤ) (s : Net)
    → Writes env s (final (create_world env me requested s))
unfolding create_world upsert_world
create_world-Writes env me requested s = elim (Bool-cases (leb 1 env.max_players_per_world)) [
  | inr n ↦ rw (n, create_world) (nothing (Same-refl s))
  | inl y ↦
      let cap : 1 ≤ env.max_players_per_world = ground (arith, y) in
      let bound = capacity-InBounds env requested cap in
      elim (Option-cases (find (is_open_of me) s.worlds)) [
        | inl e ↦
            rw (y, e, create_world) (adds me (capacity env requested) cap bound e (Same-refl _))
        | inr (w, e) ↦
            rw (y, e, create_world) (reuses me (capacity env requested) bound (Same-refl _))
      ]
]

unfoldable pub cleaned : Env → ℕ → ℕ → Net → Net
cleaned env world host s = record s {
  relays = update_where (is_live_in world) (end_relay env) s.relays;
  presence = update_where (is_presence_of host) leave_world s.presence;
  worlds = update_where (has_world_id world) emptied s.worlds;
}

pub close_world_cleanup-cases :
    (env : Env) (world host : ℕ) (s : Net)
    → ((w : WorldSession) × (close_world_cleanup env world host s
          ≡ done w (cleaned env world host s)))
      ⊎ (close_world_cleanup env world host s ≡ fail database (cleaned env world host s))
unfolding close_world_cleanup cleaned
close_world_cleanup-cases env world host s =
    elim (Option-cases (find_world world (cleaned env world host s))) [
      | inl e ↦ inr (rw (e, close_world_cleanup) refl)
      | inr (w, e) ↦ inl (w, rw (e, close_world_cleanup) refl)
    ]

pub close-Writes : (env : Env) (me id : ℕ) (s : Net) → Writes env s (final (close env me id s))
unfolding close close_tx cleaned
close-Writes env me id s = elim (Option-cases (find_world id s)) [
  | inl e ↦ rw (e, close) (nothing (Same-refl s))
  | inr (w, e) ↦ elim (Bool-cases (nat_beq w.host_user_id me)) [
    | inr n ↦ rw (e, n, close) (nothing (Same-refl s))
    | inl y ↦
        let mine : w.host_user_id ≡ me = ground (arith, y) in
        let before : Net = record s {
          worlds = update_where (λ x. has_world_id id x && is_open x.status) (shut env) s.worlds;
        } in
        elim (close_world_cleanup-cases env id me before) [
          | inl (x, c) ↦
              rw (e, y, c, close) (shuts id w before.worlds e by_close (rw mine (Same-refl _)))
          | inr c ↦ rw (e, y, c, close) (nothing (Same-refl s))
        ]
  ]
]

pub Writes-Same : {env : Env} {s t u : Net} → Writes env s t → Same t u → Writes env s u
Writes-Same (nothing a) b = nothing (Same-trans a b)
Writes-Same (adds h m c d e a) b = adds h m c d e (Same-trans a b)
Writes-Same (reuses h m d a) b = reuses h m d (Same-trans a b)
Writes-Same (patches id m st p w e d f g a) b = patches id m st p w e d f g (Same-trans a b)
Writes-Same (shuts id w ws e c a) b = shuts id w ws e c (Same-trans a b)

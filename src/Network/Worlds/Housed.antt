-- ===== src/Network/Worlds/Housed.antt =====
-- A tunnel lives in an open world: no call on worlds closes a world and leaves a relay session alive.
use mathlib.Core.Bool.{Bool, true, false, ◌||◌}
use loontail_minecraft_netwo.Prelude.{
  ℕ, ◌≡◌, ◌≤◌, refl, ap, some, List, [], ◌∷◌, nat_beq, any, find, update_where, count_where, All,
  All-map, arith, Bool-cases, inl, inr,
}
use loontail_minecraft_netwo.Network.Store.{WorldSession, RelaySession, is_open, is_ended, Net, Env}
use loontail_minecraft_netwo.Network.Ticket.{find_world}
use loontail_minecraft_netwo.Network.Query.{is_open_world}
use loontail_minecraft_netwo.Network.Worlds.{
  has_world_id, new_world, reuse, is_open_of, is_live_in, end_relay, emptied, patched,
}
use loontail_minecraft_netwo.Network.Worlds.Effects.{
  Call, step, Writes, nothing, adds, reuses, patches, shuts, Closing, by_patch, by_close,
}
use loontail_minecraft_netwo.Network.Worlds.Writes.{step-Writes}
use loontail_minecraft_netwo.Network.Worlds.Settled.{ValidWorlds, step-ValidWorlds}

abbrev pub is_housed : List WorldSession → RelaySession → Bool
is_housed ws r = is_ended r.status || any (is_open_world r.world_session_id) ws

abbrev pub Housed : Net → Type 0
Housed s = All (λ r. is_housed s.worlds r ≡ true) s.relays

-- A change that shuts no open world.
any-update_where :
    (p q : WorldSession → Bool) (f : WorldSession → WorldSession) (ws : List WorldSession)
    → ((w : WorldSession) → q w ≡ true → p w ≡ true → p (f w) ≡ true)
    → any p ws ≡ true
    → any p (update_where q f ws) ≡ true
unfolding any update_where
any-update_where p q f [] h a = a
any-update_where p q f (w ∷ ws) h a = ground (arith, any-update_where p q f ws h, h w)

update_where-none :
    (q : WorldSession → Bool) (f : WorldSession → WorldSession) (ws : List WorldSession)
    → count_where q ws ≡ 0
    → update_where q f ws ≡ ws
unfolding count_where update_where
update_where-none q f [] h = refl
update_where-none q f (w ∷ ws) h = elim (Bool-cases (q w)) [
  | inl y ↦ absurd (let k = rw y at h in omega (arith, k))
  | inr n ↦ rw n (ap (λ t. w ∷ t) (update_where-none q f ws (ground (arith, n, h))))
]

-- A change of one row by its id, where the row that is found was not open or stays so.
any-patched :
    (id other : ℕ) (f : WorldSession → WorldSession) (ws : List WorldSession) (w : WorldSession)
    → ((x : WorldSession) → (f x).id ≡ x.id)
    → ((x : WorldSession) → is_open w.status ≡ true → is_open (f x).status ≡ true)
    → count_where (has_world_id id) ws ≤ 1
    → find (has_world_id id) ws ≡ some w
    → any (is_open_world other) ws ≡ true
    → any (is_open_world other) (update_where (has_world_id id) f ws) ≡ true
unfolding any update_where count_where find
any-patched id other f [] w same o c e a = a
any-patched id other f (x ∷ ws) w same o c e a = elim (Bool-cases (has_world_id id x)) [
  | inr n ↦ ground (arith, any-patched id other f ws w same o)
  | inl y ↦
      let kept = update_where-none (has_world_id id) f ws (ground (arith, c)) in
      ground (arith, kept, same x, o x)
]

Closing-any :
    (env : Env) (w : WorldSession) (id other : ℕ) (ws us : List WorldSession)
    → nat_beq id other ≡ false
    → Closing env w id ws us
    → any (is_open_world other) ws ≡ true
    → any (is_open_world other) us ≡ true
Closing-any env w id other ws _ n (by_patch max policy b) a =
    any-update_where (is_open_world other) (has_world_id id) _ ws (λ x q p. ground (arith, q, p)) a
Closing-any env w id other ws _ n by_close a =
    any-update_where (is_open_world other) _ _ ws (λ x q p. ground (arith, q, p)) a

-- What stays alive when the world `id` is shut.
shut-housed :
    (env : Env) (id : ℕ) (ws us : List WorldSession) (rs : List RelaySession)
    → ((other : ℕ)
        → nat_beq id other ≡ false
        → any (is_open_world other) ws ≡ true
        → any (is_open_world other) us ≡ true)
    → All (λ r. is_housed ws r ≡ true) rs
    → All (λ r. is_housed us r ≡ true) (update_where (is_live_in id) (end_relay env) rs)
unfolding update_where
shut-housed env id ws us [] k h = tt
shut-housed env id ws us (r ∷ rs) k h =
    (ground (arith, k r.world_session_id, h.0), shut-housed env id ws us rs k h.1)

still_housed :
    (ws us : List WorldSession) (rs : List RelaySession)
    → ((id : ℕ) → any (is_open_world id) ws ≡ true → any (is_open_world id) us ≡ true)
    → All (λ r. is_housed ws r ≡ true) rs
    → All (λ r. is_housed us r ≡ true) rs
still_housed ws us rs k h = All-map _ _ rs (λ r a. ground (arith, k r.world_session_id, a)) h

Writes-Housed : (env : Env) (s t : Net) → ValidWorlds env s → Housed s → Writes env s t → Housed t
unfolding find_world any
Writes-Housed env s t v h (nothing a) = rw (a.worlds, a.relays) h
Writes-Housed env s t v h (adds m x c d e a) =
    rw (a.worlds, a.relays)
      (still_housed s.worlds (new_world env s.next_id m x ∷ s.worlds) s.relays
        (λ id o. ground (arith, o)) h)
Writes-Housed env s t v h (reuses m x d a) =
    rw (a.worlds, a.relays)
      (still_housed s.worlds _ s.relays
        (λ id o.
          any-update_where (is_open_world id) (is_open_of m) (reuse x) s.worlds (λ w q p. p) o)
        h)
Writes-Housed env s t v h (patches id m st p w e d f g a) =
    rw (a.worlds, a.relays)
      (still_housed s.worlds _ s.relays
        (λ other o.
          any-patched id other (patched env m st p) s.worlds w (λ x. refl)
            (λ x q. elim (Bool-cases (is_open st)) [
              | inl y ↦ y
              | inr n ↦ absurd (let k = g n in cc)
            ])
            (v.unique id) e o)
        h)
Writes-Housed env s t v h (shuts id w ws e c a) =
    rw (a.worlds, a.relays)
      (shut-housed env id s.worlds _ s.relays
        (λ other n o.
          any-update_where (is_open_world other) (has_world_id id) emptied ws (λ x q p. p)
            (Closing-any env w id other s.worlds ws n c o))
        h)

pub record Settled (env : Env) (s : Net) : Type 0 where
  pub valid : ValidWorlds env s
  pub housed : Housed s

-- Every call on worlds, whatever it answers, keeps this: an id names one world and is used up, a host
-- has at most one open world, a world has between one slot and the cap, and a relay session that
-- is not ended is one of an open world.
pub step-Settled : (env : Env) (c : Call) (s : Net) → Settled env s → Settled env (step env c s)
step-Settled env c s k = record {
  valid = step-ValidWorlds env c s k.valid;
  housed = Writes-Housed env s (step env c s) k.valid k.housed (step-Writes env c s);
}

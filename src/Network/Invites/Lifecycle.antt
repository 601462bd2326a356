-- ===== src/Network/Invites/Lifecycle.antt =====
-- The life of an invite, over every operation that writes the table.
use mathlib.Core.Bool.{◌&&◌, not}
use loontail_minecraft_netwo.Prelude.{
  ℕ, ◌≡◌, ◌⊎◌, All-keep, count_where-keep-le, ◌<◌, ◌≤◌, refl, some, nat_beq, update_where,
  count_where, arith, Bool-cases, inl, inr, All, All-map, count_where-of_any,
}
use loontail_minecraft_netwo.Network.Store.{revoked, expired, WorldInvite, Net, Env}
use loontail_minecraft_netwo.Network.Invites.{find_invite, is_active_for, is_unsettled_id}
use loontail_minecraft_netwo.Network.Cleanup.{
  is_lapsed_invite, is_old_invite, expire_invite, cleanup_tables,
}
use loontail_minecraft_netwo.Network.Invites.Writes.{
  Call, step, cleans, swept, Writes, nothing, changes, revokes_it, sweeps, adds, step-Writes,
}
use loontail_minecraft_netwo.Network.Invites.Following.{
  Follows, IsHistory, Writes-Follows, cleanup-Follows,
}
use loontail_minecraft_netwo.Network.Invites.Quiet.{
  settled_quiet, changed_quiet, swept_quiet, used_after,
}

-- What the table satisfies: its ids are used up, and a user has at most one invite into a world that
-- is pending or awaits approval.
pub record IsValid (s : Net) : Type 0 where
  pub used : All (λ i. i.id < s.next_id) s.invites
  pub single : (world invitee : ℕ) → count_where (is_active_for world invitee) s.invites ≤ 1

-- Whatever call is made on a valid table, the cleanup included, an invite that is in it is still
-- there, with the same participants, world and expiry, and its status made at most one legal move:
-- from awaiting approval to pending, revoked or expired, from pending to accepted, declined, revoked
-- or expired, and from the other four nowhere; or else the call is the cleanup, the status was one of
-- the other four, and its last change is longer ago than the retention. The deletion of an
-- account, which takes its invites with it, is not one of the calls.
pub step-Follows :
    (env : Env) (c : Call) (s : Net) (id : ℕ) (i : WorldInvite)
    → IsValid s
    → find_invite id s ≡ some i
    → ((days : ℕ) × (c ≡ cleans days) × IsHistory env days i)
      ⊎ ((j : WorldInvite) × (find_invite id (step env c s) ≡ some j) × Follows i j)
unfolding find_invite
step-Follows env c s id i v h = elim (step-Writes env c s) [
  | inr w ↦ inr (Writes-Follows env s (step env c s) id i v.used w h)
  | inl (days, e, d) ↦ elim (cleanup-Follows env days id s i h) [
    | inl o ↦ inl (days, e, o)
    | inr k ↦ inr (rw d k)
  ]
]

Writes-single :
    (env : Env) (s t : Net) (w u : ℕ)
    → IsValid s
    → Writes env s t
    → count_where (is_active_for w u) t.invites ≤ 1
Writes-single env s t w u v (nothing e _) = rw e (v.single w u)
Writes-single env s t w u v (changes old new id m e _) =
    rw e (omega (arith, changed_quiet env.now w u id old new s.invites m, v.single w u))
Writes-single env s t w u v (revokes_it id e _) = rw e (
    omega
      (arith, settled_quiet env.now w u revoked (is_unsettled_id id) s.invites refl, v.single w u))
Writes-single env s t w u v (sweeps world invitee e _) =
    rw e (omega (arith, swept_quiet env w u world invitee s, v.single w u))
Writes-single env s t w u v (adds world host inviter invitee status free e _) =
    let rest = swept env world invitee s in
    let none_left = count_where-of_any (is_active_for world invitee) rest free in
    let before = v.single w u in
    let fewer = swept_quiet env w u world invitee s in
    rw e (elim (Bool-cases (nat_beq world w && nat_beq invitee u)) [
      | inl same ↦
          let ew : world ≡ w = ground arith in
          let eu : invitee ≡ u = ground arith in
          rw (← ew) (rw (← eu) (unfold count_where in ground (arith, none_left)))
      | inr other ↦ unfold count_where in ground (arith, fewer, before)
    ])

Writes-used :
    (env : Env) (s t : Net)
    → All (λ i. i.id < s.next_id) s.invites
    → Writes env s t
    → All (λ i. i.id < t.next_id) t.invites
Writes-used env s t a (nothing e n) =
    rw e (All-map (λ i. i.id < s.next_id) (λ i. i.id < t.next_id) s.invites (λ x p. omega arith) a)
Writes-used env s t a (changes old new id m e n) = rw e (used_after _ _ _ _ _ _ n a)
Writes-used env s t a (revokes_it id e n) = rw e (used_after _ _ _ _ _ _ n a)
Writes-used env s t a (sweeps world invitee e n) = rw e (used_after _ _ _ _ _ _ n a)
Writes-used env s t a (adds world host inviter invitee status free e n) =
    rw e (n, used_after s.next_id t.next_id _ _ _ _ (omega arith) a)

cleanup-IsValid : (env : Env) (days : ℕ) (s : Net) → IsValid s → IsValid (cleanup_tables env days s)
unfolding cleanup_tables
cleanup-IsValid env days s v = record {
  used =
      All-keep (λ i. i.id < s.next_id) (λ i. not (is_old_invite env days i)) _
        (used_after s.next_id s.next_id (is_lapsed_invite env) expired env.now s.invites
          (omega arith) v.used);
  single = λ w u. omega (
    arith,
    count_where-keep-le (is_active_for w u) (λ i. not (is_old_invite env days i))
        (update_where (is_lapsed_invite env) (expire_invite env) s.invites),
    settled_quiet env.now w u expired (is_lapsed_invite env) s.invites refl,
    v.single w u,
  );
}

-- Every call, the cleanup included, keeps a valid table valid: at most one invite of a user into a world is pending or
-- awaits approval, and every id in the table is below the next fresh one.
pub step-IsValid : (env : Env) (c : Call) (s : Net) → IsValid s → IsValid (step env c s)
step-IsValid env c s v = elim (step-Writes env c s) [
  | inl (days, e, d) ↦ rw d (cleanup-IsValid env days s v)
  | inr written ↦ record {
    used = Writes-used env s (step env c s) v.used written;
    single = λ w u. Writes-single env s (step env c s) w u v written;
  }
]

-- ===== src/Network/Invites/Quiet.antt =====
-- No change of a status makes an invite active, and no id grows.
use mathlib.Core.Bool.{Bool, true, false}
use loontail_minecraft_netwo.Prelude.{
  ℕ, ◌≡◌, ◌<◌, ◌≤◌, refl, List, update_where, count_where, arith, All, All-update_where, All-map,
  count_where-update-le,
}
use loontail_minecraft_netwo.Network.Store.{
  RequestStatus, expired, status_beq_iff, WorldInvite, Net, Env,
}
use loontail_minecraft_netwo.Network.Invites.{
  is_unsettled, is_active_for, is_lapsed_for, with_status, is_id_in,
}
use loontail_minecraft_netwo.Network.Invites.Writes.{
  Moves, stays, revoked_early, revoked_late, lapsed_early, lapsed_late, swept,
}

pub settled_quiet :
    (now world invitee : ℕ) (new : RequestStatus) (q : WorldInvite → Bool) (xs : List WorldInvite)
    → is_unsettled new ≡ false
    → count_where (is_active_for world invitee) (update_where q (with_status new now) xs)
      ≤ count_where (is_active_for world invitee) xs
settled_quiet now world invitee new q xs h =
    count_where-update-le (is_active_for world invitee) q (with_status new now) xs
      (λ x _ a. ground arith)

-- A legal move never makes an invite active again.
move_quiet : (a b : RequestStatus) → Moves a b → is_unsettled b ≡ true → is_unsettled a ≡ true
move_quiet a b stays h = h
move_quiet a b Moves.approved h = refl
move_quiet a b Moves.accepted_by_invitee h = absurd (cc)
move_quiet a b Moves.declined_by_invitee h = absurd (cc)
move_quiet a b revoked_early h = absurd (cc)
move_quiet a b revoked_late h = absurd (cc)
move_quiet a b lapsed_early h = absurd (cc)
move_quiet a b lapsed_late h = absurd (cc)

pub changed_quiet :
    (now world invitee id : ℕ) (old new : RequestStatus) (xs : List WorldInvite)
    → Moves old new
    → count_where
        (is_active_for world invitee)
        (update_where (is_id_in old id) (with_status new now) xs)
      ≤ count_where (is_active_for world invitee) xs
changed_quiet now world invitee id old new xs m =
    count_where-update-le (is_active_for world invitee) (is_id_in old id) (with_status new now) xs
      (λ x q a. ground (arith, move_quiet old new m, status_beq_iff x.status old))

pub swept_quiet :
    (env : Env) (w u world invitee : ℕ) (s : Net)
    → count_where (is_active_for w u) (swept env world invitee s)
      ≤ count_where (is_active_for w u) s.invites
swept_quiet env w u world invitee s =
    settled_quiet env.now w u expired (is_lapsed_for env.now world invitee) s.invites refl

pub used_after :
    (n m : ℕ) (q : WorldInvite → Bool) (new : RequestStatus) (now : ℕ) (xs : List WorldInvite)
    → n ≤ m
    → All (λ i. i.id < n) xs
    → All (λ i. i.id < m) (update_where q (with_status new now) xs)
used_after n m q new now xs h a =
    All-update_where (λ i. i.id < m) q (with_status new now) xs (λ x p. p)
      (All-map (λ i. i.id < n) (λ i. i.id < m) xs (λ x p. omega arith) a)

-- ===== src/Network/Invites/Following.antt =====
-- What becomes of one invite.
use mathlib.Core.Bool.{Bool, true, false, not}
use loontail_minecraft_netwo.Prelude.{
  ℕ, ◌+◌, ◌*◌, ◌≡◌, ◌⊎◌, [], ◌∷◌, keep, ◌<◌, refl, sym, some, List, nat_beq, find, update_where,
  arith, Bool-cases, inl, inr, find-update_where, find_sound, All, find-All, and-eq-true, subst,
}
use loontail_minecraft_netwo.Network.Store.{
  RequestStatus, pending, pending_approval, accepted, declined, revoked, expired, WorldInvite, Net,
  Env,
}
use loontail_minecraft_netwo.Network.Invites.{
  has_invite_id, is_unsettled, is_lapsed_for, with_status, is_id_in, is_unsettled_id,
}
use loontail_minecraft_netwo.Network.Cleanup.{
  is_lapsed_invite, is_old_invite, expire_invite, cleanup_tables,
}
use loontail_minecraft_netwo.Network.Invites.Writes.{
  Moves, stays, revoked_early, revoked_late, lapsed_early, lapsed_late, swept, Writes, nothing,
  changes, revokes_it, sweeps, adds,
}

-- The invite that a call leaves: its status made a legal move, and nothing else but the time of the
-- change differs.
pub record Follows (i j : WorldInvite) : Type 0 where
  pub move : Moves i.status j.status
  pub same_invite : j ≡ with_status j.status j.updated_at i

Follows-self : (i : WorldInvite) → Follows i i
Follows-self i = record { move = stays; same_invite = refl }

module _ (id now : ℕ) (new : RequestStatus) (q : WorldInvite → Bool) where
  find-Follows :
      (xs : List WorldInvite) (i : WorldInvite)
      → find (has_invite_id id) xs ≡ some i
      → (q i ≡ true → Moves i.status new)
      → (j : WorldInvite) × (find (has_invite_id id) (update_where q (with_status new now) xs)
          ≡ some j)
        × Follows i j
  find-Follows xs i e m =
      let after = find-update_where (has_invite_id id) q (with_status new now) xs (λ x. refl) in
      elim (Bool-cases (q i)) [
        | inl t ↦ (
          with_status new now i,
          rw (after, e, t) refl,
          record { move = m t; same_invite = refl },
        )
        | inr f ↦ (i, rw (after, e, f) refl, Follows-self i)
      ]

move_of_id :
    (id : ℕ) (old new : RequestStatus) (i : WorldInvite)
    → Moves old new
    → is_id_in old id i ≡ true
    → Moves i.status new
move_of_id id old new i m h =
    let same : i.status ≡ old = ground arith in subst (λ a. Moves a new) (sym same) m

move_revoked : (a : RequestStatus) → is_unsettled a ≡ true → Moves a revoked
move_revoked pending h = revoked_late
move_revoked pending_approval h = revoked_early
move_revoked accepted h = absurd (cc)
move_revoked declined h = absurd (cc)
move_revoked revoked h = absurd (cc)
move_revoked expired h = absurd (cc)

move_lapsed : (a : RequestStatus) → is_unsettled a ≡ true → Moves a expired
move_lapsed pending h = lapsed_late
move_lapsed pending_approval h = lapsed_early
move_lapsed accepted h = absurd (cc)
move_lapsed declined h = absurd (cc)
move_lapsed revoked h = absurd (cc)
move_lapsed expired h = absurd (cc)

swept-Follows :
    (env : Env) (world invitee id : ℕ) (s : Net) (i : WorldInvite)
    → find (has_invite_id id) s.invites ≡ some i
    → (j : WorldInvite) × (find (has_invite_id id) (swept env world invitee s) ≡ some j)
      × Follows i j
swept-Follows env world invitee id s i e =
    find-Follows id env.now expired (is_lapsed_for env.now world invitee) s.invites i e
      (λ h. move_lapsed i.status (ground arith))

pub Writes-Follows :
    (env : Env) (s t : Net) (id : ℕ) (i : WorldInvite)
    → All (λ i. i.id < s.next_id) s.invites
    → Writes env s t
    → find (has_invite_id id) s.invites ≡ some i
    → (j : WorldInvite) × (find (has_invite_id id) t.invites ≡ some j) × Follows i j
Writes-Follows env s t id i used (nothing e _) h = (i, rw e h, Follows-self i)
Writes-Follows env s t id i used (changes old new k m e _) h =
    rw e (find-Follows id env.now new (is_id_in old k) s.invites i h (move_of_id k old new i m))
Writes-Follows env s t id i used (revokes_it k e _) h = rw e (
    find-Follows id env.now revoked (is_unsettled_id k) s.invites i h
      (λ q. move_revoked i.status (and-eq-true _ _ q).1))
Writes-Follows env s t id i used (sweeps world invitee e _) h =
    rw e (swept-Follows env world invitee id s i h)
Writes-Follows env s t id i used (adds world host inviter invitee status free e _) h =
    let own = find_sound (has_invite_id id) s.invites i h in
    let below = find-All (λ i. i.id < s.next_id) (has_invite_id id) s.invites used h in
    let other : nat_beq s.next_id id ≡ false = ground arith in
    let (j, found, follows) = swept-Follows env world invitee id s i h in
    (j, rw e (unfold find in rw other found), follows)

-- What the cleanup may delete: an invite whose status is final, and was already so at a time that is
-- longer ago than the retention.
pub record IsHistory (env : Env) (days : ℕ) (i : WorldInvite) : Type 0 where
  pub final_status : is_unsettled i.status ≡ false
  pub past : i.updated_at + days * 86400 < env.now

find-kept :
    (id : ℕ) (q : WorldInvite → Bool) (xs : List WorldInvite) (j : WorldInvite)
    → find (has_invite_id id) xs ≡ some j
    → q j ≡ true
    → find (has_invite_id id) (keep q xs) ≡ some j
unfolding find keep
find-kept id q [] j h k = h
find-kept id q (x ∷ xs) j h k = elim (Bool-cases (has_invite_id id x)) [
  | inl y ↦ (let same : x ≡ j = ground arith in rw same (ground (arith, same, y, k)))
  | inr n ↦ (let rest = find-kept id q xs j (ground arith) k in ground (arith, n, rest))
]

history :
    (env : Env) (days : ℕ) (i : WorldInvite)
    → is_old_invite env days i ≡ true
    → IsHistory env days i
history env days i h = record { final_status = ground (arith, h); past = ground (arith, h) }

pub cleanup-Follows :
    (env : Env) (days id : ℕ) (s : Net) (i : WorldInvite)
    → find (has_invite_id id) s.invites ≡ some i
    → IsHistory env days i
      ⊎ ((j : WorldInvite) × (find (has_invite_id id) (cleanup_tables env days s).invites ≡ some j)
          × Follows i j)
unfolding cleanup_tables
cleanup-Follows env days id s i h =
    let after =
      find-update_where (has_invite_id id) (is_lapsed_invite env) (expire_invite env) s.invites
        (λ x. refl) in
    elim (Bool-cases (is_lapsed_invite env i)) [
      | inl y ↦ inr (
        expire_invite env i,
        find-kept id (λ x. not (is_old_invite env days x)) _ (expire_invite env i)
            (rw (after, h, y) refl) (ground arith),
        record { move = move_lapsed i.status (ground arith); same_invite = refl },
      )
      | inr n ↦ elim (Bool-cases (is_old_invite env days i)) [
        | inl o ↦ inl (history env days i o)
        | inr f ↦ inr (
          i,
          find-kept id (λ x. not (is_old_invite env days x)) _ i (rw (after, h, n) refl)
              (ground (arith, f)),
          Follows-self i,
        )
      ]
    ]

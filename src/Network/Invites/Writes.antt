-- ===== src/Network/Invites/Writes.antt =====
-- What each call on invites writes to their table.
use mathlib.Core.Bool.{false, ◌&&◌, not}
use loontail_minecraft_netwo.Prelude.{
  ℕ, suc, ◌≡◌, ◌<◌, ◌≤◌, ◌⊎◌, refl, ap, List, ◌∷◌, nat_beq, any, update_where, arith, Option-cases,
  Bool-cases, inl, inr,
}
use loontail_minecraft_netwo.Network.Store.{
  RequestStatus, pending, pending_approval, accepted, declined, revoked, expired, WorldInvite, Net,
  Env,
}
use loontail_minecraft_netwo.Network.Effect.{done, fail, final, conflict, Outcome-cases}
use loontail_minecraft_netwo.Network.Query.{user_exists, find_open_world, load_open_world_session}
use loontail_minecraft_netwo.Network.Invites.{
  load_invite, is_active_for, is_lapsed_for, with_status, expire_lapsed, new_invite, insert_invite,
  initial_status, place, create, is_id_in, transition, accept, decline, approve, revoke,
  is_unsettled_id,
}
use loontail_minecraft_netwo.Network.Cleanup.{cleanup_tables}
use loontail_minecraft_netwo.Network.Invites.Accept.{accept-AdmitsInvitee, accept_rolls_back}

-- Every call that writes the table, with the arguments of its route, and the hourly cleanup.
pub data Call : Type 0 where
  creates : (caller world_id invitee : ℕ) → Call
  accepts declines approves revokes : (me id : ℕ) → Call
  cleans : (days : ℕ) → Call

unfoldable pub step : Env → Call → Net → Net
step env (creates caller world_id invitee) s = final (create env caller world_id invitee s)
step env (accepts me id) s = final (accept env me id s)
step env (declines me id) s = final (decline env me id s)
step env (approves me id) s = final (approve env me id s)
step env (revokes me id) s = final (revoke env me id s)
step env (cleans days) s = cleanup_tables env days s

-- The moves that a status may make; the other four statuses are final.
pub data Moves : RequestStatus → RequestStatus → Type 0 where
  stays : {a : RequestStatus} → Moves a a
  approved : Moves pending_approval pending
  accepted_by_invitee : Moves pending accepted
  declined_by_invitee : Moves pending declined
  revoked_early : Moves pending_approval revoked
  revoked_late : Moves pending revoked
  lapsed_early : Moves pending_approval expired
  lapsed_late : Moves pending expired

abbrev pub swept : Env → ℕ → ℕ → Net → List WorldInvite
swept env world invitee s =
    update_where (is_lapsed_for env.now world invitee) (with_status expired env.now) s.invites

-- The state after a call of a route: the table as it was, with one status change, or with a new row on
-- a swept table. The supply of ids never goes back.
pub data Writes (env : Env) (s : Net) : Net → Type 0 where
  nothing : {t : Net} → t.invites ≡ s.invites → s.next_id ≤ t.next_id → Writes env s t
  changes :
      {t : Net} (old new : RequestStatus) (id : ℕ)
      → Moves old new
      → t.invites ≡ update_where (is_id_in old id) (with_status new env.now) s.invites
      → s.next_id ≤ t.next_id
      → Writes env s t
  revokes_it :
      {t : Net} (id : ℕ)
      → t.invites ≡ update_where (is_unsettled_id id) (with_status revoked env.now) s.invites
      → s.next_id ≤ t.next_id
      → Writes env s t
  sweeps :
      {t : Net} (world invitee : ℕ)
      → t.invites ≡ swept env world invitee s
      → s.next_id ≤ t.next_id
      → Writes env s t
  adds :
      {t : Net} (world host inviter invitee : ℕ) (status : RequestStatus)
      → any (is_active_for world invitee) (swept env world invitee s) ≡ false
      → t.invites
        ≡ new_invite env s.next_id world host inviter invitee status ∷ swept env world invitee s
      → s.next_id < t.next_id
      → Writes env s t

accept-Writes : (env : Env) (me id : ℕ) (s : Net) → Writes env s (final (accept env me id s))
accept-Writes env me id s = elim (Outcome-cases (accept env me id s)) [
  | inl (a, t, e) ↦
      let m = accept-AdmitsInvitee env me id s t a e in
      rw e (changes pending accepted id accepted_by_invitee m.invites m.ids_used)
  | inr (x, t, e) ↦
      let same = accept_rolls_back env me id s t x e in
      rw e (nothing (ap (λ u. u.invites) same) (rw same (omega arith)))
]

decline-table :
    (env : Env) (me id : ℕ) (s : Net)
    → (((final (decline env me id s)).invites ≡ s.invites)
        ⊎ ((final (decline env me id s)).invites
            ≡ update_where (is_id_in pending id) (with_status declined env.now) s.invites))
      × (s.next_id ≤ (final (decline env me id s)).next_id)
unfolding decline load_invite transition
decline-table env me id s = (ground arith, ground arith)

approve-table :
    (env : Env) (me id : ℕ) (s : Net)
    → (((final (approve env me id s)).invites ≡ s.invites)
        ⊎ ((final (approve env me id s)).invites
            ≡ update_where (is_id_in pending_approval id) (with_status pending env.now) s.invites))
      × (s.next_id ≤ (final (approve env me id s)).next_id)
unfolding approve load_invite transition
approve-table env me id s = (ground arith, ground arith)

revoke-table :
    (env : Env) (me id : ℕ) (s : Net)
    → (((final (revoke env me id s)).invites ≡ s.invites)
        ⊎ ((final (revoke env me id s)).invites
            ≡ update_where (is_unsettled_id id) (with_status revoked env.now) s.invites))
      × (s.next_id ≤ (final (revoke env me id s)).next_id)
unfolding revoke load_invite
revoke-table env me id s = (ground arith, ground arith)

pub insert-table :
    (env : Env) (world host inviter invitee : ℕ) (status : RequestStatus) (s : Net)
    → (insert_invite env world host inviter invitee status s
        ≡ fail (conflict "an invite for this player is already pending") s)
      ⊎ ((any (is_active_for world invitee) s.invites ≡ false)
          × (insert_invite env world host inviter invitee status s
              ≡ done s.next_id (record s {
                invites = new_invite env s.next_id world host inviter invitee status ∷ s.invites;
                next_id = suc s.next_id;
              })))
unfolding insert_invite
insert-table env world host inviter invitee status s = ground arith

place-Writes :
    (env : Env) (world host caller invitee : ℕ) (status : RequestStatus) (s : Net)
    → Writes env s (final (place env world host caller invitee status s))
unfolding place expire_lapsed load_invite
place-Writes env world host caller invitee status s =
    let after = record s { invites = swept env world invitee s } in
    elim (insert-table env world host caller invitee status after) [
      | inl e ↦ rw (e, place) (sweeps world invitee refl (omega arith))
      | inr (free, e) ↦
          adds world host caller invitee status free (rw (e, place) (ground arith))
            (rw (e, place) (ground arith))
    ]

-- The sweep and the insertion are reached with some status, or nothing is written.
create-place :
    (env : Env) (caller world_id invitee : ℕ) (s : Net)
    → (final (create env caller world_id invitee s) ≡ s)
      ⊎ ((host : ℕ) × (status : RequestStatus) × (create env caller world_id invitee s
            ≡ place env world_id host caller invitee status s))
unfolding create load_open_world_session
create-place env caller world_id invitee s = elim (Option-cases (find_open_world world_id s)) [
  | inl e ↦ inl (ground arith)
  | inr (w, e) ↦
      elim (Option-cases (initial_status w.invite_policy caller w.host_user_id invitee s)) [
        | inl f ↦ inl (ground arith)
        | inr (status, f) ↦
            let valid =
              not (nat_beq invitee caller)
              && (not (nat_beq invitee w.host_user_id) && user_exists invitee s) in
            elim (Bool-cases valid) [
              | inl g ↦ inr (w.host_user_id, status, ground arith)
              | inr g ↦ inl (ground arith)
            ]
      ]
]

create-Writes :
    (env : Env) (caller world_id invitee : ℕ) (s : Net)
    → Writes env s (final (create env caller world_id invitee s))
create-Writes env caller world_id invitee s = elim (create-place env caller world_id invitee s) [
  | inl e ↦ rw e (nothing refl (omega arith))
  | inr (host, status, e) ↦ rw e (place-Writes env world_id host caller invitee status s)
]

pub step-Writes :
    (env : Env) (c : Call) (s : Net)
    → ((days : ℕ) × (c ≡ cleans days) × (step env c s ≡ cleanup_tables env days s))
      ⊎ Writes env s (step env c s)
unfolding step
step-Writes env (cleans days) s = inl (days, refl, refl)
step-Writes env (creates caller world_id invitee) s =
    inr (create-Writes env caller world_id invitee s)
step-Writes env (accepts me id) s = inr (accept-Writes env me id s)
step-Writes env (declines me id) s =
    let (written, ids) = decline-table env me id s in
    elim written [
      | inl e ↦ inr (nothing e ids)
      | inr e ↦ inr (changes pending declined id declined_by_invitee e ids)
    ]
step-Writes env (approves me id) s =
    let (written, ids) = approve-table env me id s in
    elim written [
      | inl e ↦ inr (nothing e ids)
      | inr e ↦ inr (changes pending_approval pending id approved e ids)
    ]
step-Writes env (revokes me id) s =
    let (written, ids) = revoke-table env me id s in
    elim written [ inl e ↦ inr (nothing e ids) | inr e ↦ inr (revokes_it id e ids) ]

-- ===== src/Network/Invites/Create.antt =====
-- Who may invite whom.
use mathlib.Core.Bool.{true, false}
use loontail_minecraft_netwo.Prelude.{
  ℕ, ◌≡◌, ◌≢◌, refl, ap, sym, ◌∙◌, some, ◌∷◌, nat_beq, arith, Option-cases, inl, inr,
}
use loontail_minecraft_netwo.Network.Store.{
  RequestStatus, pending, pending_approval, friends_of_friends, WorldSession, Net, Env,
}
use loontail_minecraft_netwo.Network.Effect.{done}
use loontail_minecraft_netwo.Network.Query.{
  are_friends, user_exists, find_open_world, load_open_world_session,
}
use loontail_minecraft_netwo.Prelude.{find}
use loontail_minecraft_netwo.Network.Invites.{
  InviteRow, find_invite, initial_status, place, load_invite, create, expire_lapsed, new_invite,
}
use loontail_minecraft_netwo.Network.Invites.Writes.{swept, insert-table}

-- An invite goes straight to a friend of the host, whoever of the host and the host's friends sends
-- it; only a friend of a friend waits for the host.
pub record Grounded (world : WorldSession) (caller invitee : ℕ) (status : RequestStatus) (s : Net)
    : Type 0 where
  pub not_self : invitee ≢ caller
  pub not_host : invitee ≢ world.host_user_id
  pub known : user_exists invitee s ≡ true
  pub direct : status ≡ pending → are_friends world.host_user_id invitee s ≡ true
  pub chain :
      caller ≢ world.host_user_id
      → (world.invite_policy ≡ friends_of_friends)
        × (are_friends world.host_user_id caller s ≡ true)
        × (are_friends caller invitee s ≡ true)
  pub waits :
      status ≢ pending
      → (status ≡ pending_approval)
        × (caller ≢ world.host_user_id)
        × (are_friends world.host_user_id invitee s ≡ false)

create-Grounded_status :
    (world : WorldSession) (caller invitee : ℕ) (status : RequestStatus) (s : Net)
    → nat_beq invitee caller ≡ false
    → nat_beq invitee world.host_user_id ≡ false
    → user_exists invitee s ≡ true
    → initial_status world.invite_policy caller world.host_user_id invitee s ≡ some status
    → Grounded world caller invitee status s
unfolding initial_status
create-Grounded_status world caller invitee status s self host known h = record {
  not_self = ground arith;
  not_host = ground arith;
  known = known;
  direct = ground arith;
  chain = ground arith;
  waits = ground arith;
}

place-row :
    (env : Env) (world host caller invitee : ℕ) (status : RequestStatus) (s t : Net)
    (row : InviteRow)
    → place env world host caller invitee status s ≡ done row t
    → (row.invite ≡ new_invite env s.next_id world host caller invitee status)
      × (t.invites ≡ row.invite ∷ swept env world invitee s)
unfolding place expire_lapsed load_invite find_invite find
place-row env world host caller invitee status s t row h =
    let after = record s { invites = swept env world invitee s } in
    elim (insert-table env world host caller invitee status after) [
      | inl e ↦ absurd (let k = rw (e, place) at h in cc)
      | inr (free, e) ↦ (let k = rw (e, place) at h in (ground arith, ground arith))
    ]

-- An invite that is created is into an open world, carries the caller, the invitee and the host,
-- and stands in front of the swept table. Its status is grounded in the friendships and the
-- policy of that moment: a pending invite goes to a friend of the host; one that awaits approval
-- is not from the host and not to a friend of the host; and a caller who is not the host needs a
-- policy of friends of friends, a friendship with the host and one with the invitee. Nobody
-- invites themselves, the host or an unknown user.
pub create-Grounded :
    (env : Env) (caller world_id invitee : ℕ) (s t : Net) (row : InviteRow)
    → create env caller world_id invitee s ≡ done row t
    → (world : WorldSession) × (find_open_world world_id s ≡ some world)
      × Grounded world caller invitee row.invite.status s
      × (row.invite
          ≡ new_invite env s.next_id world_id world.host_user_id caller invitee row.invite.status)
      × (t.invites ≡ row.invite ∷ swept env world_id invitee s)
unfolding create load_open_world_session
create-Grounded env caller world_id invitee s t row h =
    elim (Option-cases (find_open_world world_id s)) [
      | inl e ↦ absurd (ground arith)
      | inr (w, e) ↦
          elim (Option-cases (initial_status w.invite_policy caller w.host_user_id invitee s)) [
            | inl f ↦ absurd (ground arith)
            | inr (status, f) ↦
                let placed : place env world_id w.host_user_id caller invitee status s
                    ≡ done row t =
                  ground arith in
                let (made, table) =
                  place-row env world_id w.host_user_id caller invitee status s t row placed in
                let its : row.invite.status ≡ status = rw made refl in
                (
                  w,
                  e,
                  rw its (
                      create-Grounded_status w caller invitee status s (ground arith) (ground arith)
                        (ground arith) f),
                  made
                      ∙ ap (new_invite env s.next_id world_id w.host_user_id caller invitee)
                          (sym its),
                  table,
                )
          ]
    ]

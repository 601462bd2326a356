-- ===== src/Network/Invites/Accept.antt =====
-- What the acceptance of an invite guarantees.
use mathlib.Core.Bool.{true}
use loontail_minecraft_netwo.Prelude.{
  ℕ, suc, ◌≡◌, ◌<◌, ◌≤◌, sym, ◌∙◌, some, ◌∷◌, update_where, arith, Option-cases, inl, inr,
}
use loontail_minecraft_netwo.Network.Store.{
  pending, accepted, WorldInvite, WorldSession, JoinTicketDto, guest_arriving, Net, Env,
}
use loontail_minecraft_netwo.Network.Effect.{AppError, done, fail, Outcome-cases, done_state}
use loontail_minecraft_netwo.Network.Query.{
  find_user, find_open_world, fetch_user_dto, load_open_world_session,
}
use loontail_minecraft_netwo.Network.Ticket.{new_ticket, new_relay, issue_ticket_and_relay_tx}
use loontail_minecraft_netwo.Network.Invites.{
  Admission, find_invite, load_invite, chain_holds, is_id_in, with_status, transition, accept_tx,
  accept,
}

-- The conditions of an admission, and what it writes.
pub record AdmitsInvitee (env : Env) (me id : ℕ) (s t : Net) : Type 0 where
  pub invite : WorldInvite
  pub world : WorldSession
  pub found : find_invite id s ≡ some invite
  pub by_invitee : invite.invitee_user_id ≡ me
  pub was_pending : invite.status ≡ pending
  pub in_time : env.now < invite.expires_at
  pub open_world : find_open_world invite.world_session_id s ≡ some world
  pub has_room : world.current_players < world.max_players
  pub chain : chain_holds world.invite_policy invite s ≡ true
  pub invites :
      t.invites ≡ update_where (is_id_in pending id) (with_status accepted env.now) s.invites
  pub one_ticket :
      t.tickets
      ≡ new_ticket env s.next_id invite.invitee_user_id invite.world_session_id ∷ s.tickets
  pub one_relay :
      t.relays
      ≡ new_relay env
          (suc s.next_id)
          invite.invitee_user_id
          invite.host_user_id
          invite.world_session_id
          s.next_id
        ∷ s.relays
  pub ids_used : s.next_id ≤ t.next_id
  pub worlds_kept : t.worlds ≡ s.worlds
  pub friendships_kept : t.friendships ≡ s.friendships
  pub users_kept : t.users ≡ s.users

accept_tx-AdmitsInvitee :
    (env : Env) (me id : ℕ) (s t : Net) (a : Admission)
    → accept_tx env me id s ≡ done a t
    → AdmitsInvitee env me id s t
unfolding accept_tx load_invite transition load_open_world_session issue_ticket_and_relay_tx
accept_tx-AdmitsInvitee env me id s t a h = elim (Option-cases (find_invite id s)) [
  | inl e ↦ absurd (ground arith)
  | inr (i, e) ↦ elim (Option-cases (find_open_world i.world_session_id s)) [
    | inl f ↦ absurd (ground arith)
    | inr (w, f) ↦ record {
      invite = i;
      world = w;
      found = e;
      by_invitee = ground arith;
      was_pending = ground arith;
      in_time = ground arith;
      open_world = f;
      has_room = ground arith;
      chain = ground arith;
      invites = ground arith;
      one_ticket = ground arith;
      one_relay = ground arith;
      ids_used = ground arith;
      worlds_kept = ground arith;
      friendships_kept = ground arith;
      users_kept = ground arith;
    }
  ]
]

-- The row that the transaction hands on is the one it read, with its users.
accept_tx-row :
    (env : Env) (me id : ℕ) (s t : Net) (a : Admission)
    → accept_tx env me id s ≡ done a t
    → (find_invite id s ≡ some a.row.invite)
      × (find_user a.row.invite.inviter_user_id s ≡ some a.row.inviter)
      × (find_user a.row.invite.invitee_user_id s ≡ some a.row.invitee)
      × (find_user a.row.invite.host_user_id s ≡ some a.row.host)
      × (a.row.invite.status ≡ pending)
unfolding accept_tx load_invite transition load_open_world_session issue_ticket_and_relay_tx
accept_tx-row env me id s t a h = elim (Option-cases (find_invite id s)) [
  | inl e ↦ absurd (ground arith)
  | inr (i, e) ↦ elim (Option-cases (find_open_world i.world_session_id s)) [
    | inl f ↦ absurd (ground arith)
    | inr (w, f) ↦ (ground arith, ground arith, ground arith, ground arith, ground arith)
  ]
]

announced : Admission → Net → Net
announced a t =
    let i = a.row.invite in
    record t {
      sent =
          (
            i.host_user_id,
            guest_arriving a.ticket.relay_session_id i.world_session_id a.row.invitee,
          )
          ∷ t.sent;
    }

-- After the commit nothing can fail: the invitee was read inside the transaction.
accept-of_tx :
    (env : Env) (me id : ℕ) (s t : Net) (a : Admission)
    → accept_tx env me id s ≡ done a t
    → accept env me id s ≡ done a.ticket (announced a t)
unfolding accept fetch_user_dto find_user announced
accept-of_tx env me id s t a h =
    let (found, inviter, invitee, host, was_pending) = accept_tx-row env me id s t a h in
    let m = accept_tx-AdmitsInvitee env me id s t a h in
    rw (h, accept) (ground (arith, invitee, m.users_kept))

-- An acceptance that succeeds met every condition of admission, at that moment: the caller is the
-- invitee, the invite was pending and not yet lapsed, the world is open and has a free slot, and
-- an invite that the host did not issue still rests on the friends-of-friends policy and on both
-- friendships of its chain. It accepts the invite, adds exactly one ticket and one relay session,
-- made for the invitee and bound to one another, and leaves worlds, friendships and users alone.
pub accept-AdmitsInvitee :
    (env : Env) (me id : ℕ) (s t : Net) (ticket : JoinTicketDto)
    → accept env me id s ≡ done ticket t
    → AdmitsInvitee env me id s t
unfolding accept announced
accept-AdmitsInvitee env me id s t ticket h = elim (Outcome-cases (accept_tx env me id s)) [
  | inl (a, u, e) ↦
      let m = accept_tx-AdmitsInvitee env me id s u a e in
      rw (done_state (sym h ∙ accept-of_tx env me id s u a e)) (record {
        invite = m.invite;
        world = m.world;
        found = m.found;
        by_invitee = m.by_invitee;
        was_pending = m.was_pending;
        in_time = m.in_time;
        open_world = m.open_world;
        has_room = m.has_room;
        chain = m.chain;
        invites = m.invites;
        one_ticket = m.one_ticket;
        one_relay = m.one_relay;
        ids_used = m.ids_used;
        worlds_kept = m.worlds_kept;
        friendships_kept = m.friendships_kept;
        users_kept = m.users_kept;
      })
  | inr (x, u, e) ↦ absurd (let k = rw (e, accept) at h in cc)
]

-- An acceptance that fails, for whatever reason, leaves the whole state as it was.
pub accept_rolls_back :
    (env : Env) (me id : ℕ) (s t : Net) (e : AppError) → accept env me id s ≡ fail e t → t ≡ s
unfolding accept
accept_rolls_back env me id s t e h = elim (Outcome-cases (accept_tx env me id s)) [
  | inl (a, u, d) ↦ absurd (let k = accept-of_tx env me id s u a d in cc)
  | inr (x, u, d) ↦ (let k = rw (d, accept) at h in cc)
]

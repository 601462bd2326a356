-- ===== src/Network/Join/Accept.antt =====
-- What the approval of a join request guarantees.
use mathlib.Core.Bool.{true}
use loontail_minecraft_netwo.Prelude.{
  ℕ, suc, ◌≡◌, ◌<◌, ◌≤◌, refl, sym, ◌∙◌, some, List, ◌∷◌, find, update_where, arith, Option-cases,
  inl, inr, find-update_where, find_sound,
}
use loontail_minecraft_netwo.Network.Store.{
  RequestStatus, pending, accepted, JoinRequest, WorldSession, guest_arriving,
  join_request_accepted, Net, Env,
}
use loontail_minecraft_netwo.Network.Effect.{
  AppError, done, fail, conflict, Outcome-cases, done_state,
}
use loontail_minecraft_netwo.Network.Query.{
  find_user, find_open_world, fetch_user_dto, load_open_world_session,
}
use loontail_minecraft_netwo.Network.Ticket.{new_ticket, new_relay, issue_ticket_and_relay_tx}
use loontail_minecraft_netwo.Network.Join.{
  JoinRequestRow, Admission, find_join_request, load_join_request, has_request_id, is_trusted,
  is_pending_id, with_status, transition, accept_tx, accept,
}

-- The conditions of an admission, and what it writes: the request is accepted, and one ticket and
-- one relay session stand in front of the old ones.
pub record Admits (env : Env) (me id : ℕ) (s t : Net) : Type 0 where
  pub request : JoinRequest
  pub world : WorldSession
  pub found : find_join_request id s ≡ some request
  pub by_host : request.host_user_id ≡ me
  pub was_pending : request.status ≡ pending
  pub in_time : env.now < request.expires_at
  pub open_world : find_open_world request.world_session_id s ≡ some world
  pub has_room : world.current_players < world.max_players
  pub trusted :
      is_trusted env world.invite_policy request.requester_user_id request.host_user_id
        request.world_session_id s
      ≡ true
  pub requests :
      t.join_requests
      ≡ update_where (is_pending_id id) (with_status accepted env.now) s.join_requests
  pub one_ticket :
      t.tickets
      ≡ new_ticket env s.next_id request.requester_user_id request.world_session_id ∷ s.tickets
  pub one_relay :
      t.relays
      ≡ new_relay env
          (suc s.next_id)
          request.requester_user_id
          request.host_user_id
          request.world_session_id
          s.next_id
        ∷ s.relays
  pub ids_used : s.next_id ≤ t.next_id
  pub worlds_kept : t.worlds ≡ s.worlds
  pub friendships_kept : t.friendships ≡ s.friendships
  pub users_kept : t.users ≡ s.users

accept_tx-Admits :
    (env : Env) (me id : ℕ) (s t : Net) (a : Admission)
    → accept_tx env me id s ≡ done a t
    → Admits env me id s t
unfolding accept_tx load_join_request transition load_open_world_session issue_ticket_and_relay_tx
accept_tx-Admits env me id s t a h = elim (Option-cases (find_join_request id s)) [
  | inl e ↦ absurd (ground arith)
  | inr (r, e) ↦ elim (Option-cases (find_open_world r.world_session_id s)) [
    | inl f ↦ absurd (ground arith)
    | inr (w, f) ↦ record {
      request = r;
      world = w;
      found = e;
      by_host = ground arith;
      was_pending = ground arith;
      in_time = ground arith;
      open_world = f;
      has_room = ground arith;
      trusted = ground arith;
      requests = ground arith;
      one_ticket = ground arith;
      one_relay = ground arith;
      ids_used = ground arith;
      worlds_kept = ground arith;
      friendships_kept = ground arith;
      users_kept = ground arith;
    }
  ]
]

find-accepted :
    (env : Env) (status : RequestStatus) (id : ℕ) (rs : List JoinRequest) (r : JoinRequest)
    → find (has_request_id id) rs ≡ some r
    → r.status ≡ pending
    → find (has_request_id id) (update_where (is_pending_id id) (with_status status env.now) rs)
      ≡ some (with_status status env.now r)
find-accepted env status id rs r h p =
    let own = find_sound (has_request_id id) rs r h in
    rw
      (
        find-update_where (has_request_id id) (is_pending_id id) (with_status status env.now) rs
            (λ x. refl),
        h,
        own,
        p,
      )
      refl

-- The row that the transaction hands on is the one it read, with both users.
accept_tx-row :
    (env : Env) (me id : ℕ) (s t : Net) (a : Admission)
    → accept_tx env me id s ≡ done a t
    → (find_join_request id s ≡ some a.row.request)
      × (find_user a.row.request.requester_user_id s ≡ some a.row.requester)
      × (find_user a.row.request.host_user_id s ≡ some a.row.host)
      × (a.row.request.status ≡ pending)
unfolding accept_tx load_join_request transition load_open_world_session issue_ticket_and_relay_tx
accept_tx-row env me id s t a h = elim (Option-cases (find_join_request id s)) [
  | inl e ↦ absurd (ground arith)
  | inr (r, e) ↦ elim (Option-cases (find_open_world r.world_session_id s)) [
    | inl f ↦ absurd (ground arith)
    | inr (w, f) ↦ (ground arith, ground arith, ground arith, ground arith)
  ]
]

-- What `accept` leaves after the commit, beside the tables: the two events.
announced : ℕ → Admission → Net → Net
announced id a t =
    let r = a.row.request in
    record t {
      sent =
          (
            r.host_user_id,
            guest_arriving a.ticket.relay_session_id r.world_session_id a.row.requester,
          )
          ∷ (r.requester_user_id, join_request_accepted id a.ticket)
          ∷ t.sent;
    }

-- After the commit nothing can fail: the participants were read inside the transaction.
accept-of_tx :
    (env : Env) (me id : ℕ) (s t : Net) (a : Admission)
    → accept_tx env me id s ≡ done a t
    → accept env me id s
      ≡ done
          (record a.row { request = with_status accepted env.now a.row.request })
          (announced id a t)
unfolding accept load_join_request fetch_user_dto find_user find_join_request announced
accept-of_tx env me id s t a h =
    let (found, requester, host, was_pending) = accept_tx-row env me id s t a h in
    let m = accept_tx-Admits env me id s t a h in
    let again = find-accepted env accepted id s.join_requests a.row.request found was_pending in
    rw (h, accept) (ground (arith, again, found, requester, host, m.requests, m.users_kept))

-- An approval that succeeds met every condition of admission, at the moment of the approval: the
-- caller is the host of the request, which was pending and not yet lapsed, the world is open and
-- has a free slot, and the requester is a friend of the host or, under the friends-of-friends
-- policy, of a live guest. It accepts the request, adds exactly one ticket and one relay session,
-- made for the requester and bound to one another, and leaves worlds, friendships and users alone.
pub accept-Admits :
    (env : Env) (me id : ℕ) (s t : Net) (row : JoinRequestRow)
    → accept env me id s ≡ done row t
    → Admits env me id s t
accept-Admits env me id s t row h = elim (Outcome-cases (accept_tx env me id s)) [
  | inl (a, u, e) ↦
      let m = accept_tx-Admits env me id s u a e in
      let same : t ≡ announced id a u = done_state (sym h ∙ accept-of_tx env me id s u a e) in
      rw same (
        unfold announced in
        record {
          request = m.request;
          world = m.world;
          found = m.found;
          by_host = m.by_host;
          was_pending = m.was_pending;
          in_time = m.in_time;
          open_world = m.open_world;
          has_room = m.has_room;
          trusted = m.trusted;
          requests = m.requests;
          one_ticket = m.one_ticket;
          one_relay = m.one_relay;
          ids_used = m.ids_used;
          worlds_kept = m.worlds_kept;
          friendships_kept = m.friendships_kept;
          users_kept = m.users_kept;
        })
  | inr (x, u, e) ↦ absurd (unfold accept in (let k = rw (e, accept) at h in cc))
]

-- An approval that fails leaves the whole state as it was: no ticket, no event, no status change.
accept-atomic :
    (env : Env) (me id : ℕ) (s t : Net) (e : AppError) → accept env me id s ≡ fail e t → t ≡ s
unfolding accept
accept-atomic env me id s t e h = elim (Outcome-cases (accept_tx env me id s)) [
  | inl (a, u, d) ↦ absurd (let k = accept-of_tx env me id s u a d in cc)
  | inr (x, u, d) ↦ (let k = rw (d, accept) at h in cc)
]

-- Once a request was approved, approving it again in the state that the approval left, at any
-- later or earlier time, is refused as not pending and changes nothing.
accept_twice :
    (env later : Env) (me id : ℕ) (s t : Net) (row : JoinRequestRow)
    → accept env me id s ≡ done row t
    → accept later me id t ≡ fail (conflict "join request is not pending") t
unfolding accept accept_tx load_join_request find_join_request find_user
accept_twice env later me id s t row h = elim (Outcome-cases (accept_tx env me id s)) [
  | inl (a, u, e) ↦
      let (found, requester, host, was_pending) = accept_tx-row env me id s u a e in
      let m = accept_tx-Admits env me id s u a e in
      let again = find-accepted env accepted id s.join_requests a.row.request found was_pending in
      let same : t ≡ announced id a u = done_state (sym h ∙ accept-of_tx env me id s u a e) in
      rw same (
        unfold announced in
        ground (arith, again, found, requester, host, m.requests, m.users_kept, m.by_host, m.found))
  | inr (x, u, e) ↦ absurd (let k = rw (e, accept) at h in cc)
]

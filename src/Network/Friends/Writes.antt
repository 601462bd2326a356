-- ===== src/Network/Friends/Writes.antt =====
-- What each call on friends writes to their two tables.
use mathlib.Core.Bool.{false, not}
use loontail_minecraft_netwo.Prelude.{
  ℕ, suc, ◌≡◌, ◌≤◌, ◌⊎◌, refl, ap, sym, ◌∙◌, none, some, List, [], ◌∷◌, nat_beq, any, find, keep,
  update_where, arith, Option-cases, Bool-cases, inl, inr,
}
use loontail_minecraft_netwo.Network.Store.{
  FriendRequest, RequestStatus, pending, accepted, declined, status_beq, friend_request_accepted,
  friend_request_declined, Net, Env,
}
use loontail_minecraft_netwo.Network.Effect.{done, final, Outcome-cases}
use loontail_minecraft_netwo.Network.Query.{is_pair, are_friends, user_exists, find_user}
use loontail_minecraft_netwo.Network.Presence.{broadcast_presence, friend_ids, push_updates}
use loontail_minecraft_netwo.Network.Friends.{
  FriendRequestRow, has_friend_request_id, find_friend_request, load_request, is_pending_from,
  request_with, set_request, add_pair, befriend_tx, accept_internal, insert_request, send_request,
  create_request, decline_request, remove_friend,
}

pub data Call : Type 0 where
  creates removes : (me target : ℕ) → Call
  accepts declines : (me id : ℕ) → Call

unfoldable pub step : Env → Call → Net → Net
step env (creates me target) s = final (create_request env me target s)
step env (removes me target) s = final (remove_friend me target s)
step env (accepts me id) s = final (accept_internal env me id s)
step env (declines me id) s = final (decline_request env me id s)

abbrev pub new_request : Env → ℕ → ℕ → ℕ → FriendRequest
new_request env id from to = record {
  id = id;
  from_user_id = from;
  to_user_id = to;
  status = pending;
  created_at = env.now;
  updated_at = env.now;
}

-- The tables after a call: as they were, with a new request, with a request accepted and its
-- friendship, with a request declined, or without a friendship.
pub data Writes (env : Env) (s t : Net) : Type 0 where
  nothing :
      t.friend_requests ≡ s.friend_requests
      → t.friendships ≡ s.friendships
      → s.next_id ≤ t.next_id
      → Writes env s t
  asks :
      (from to : ℕ)
      → nat_beq from to ≡ false
      → are_friends from to s ≡ false
      → find (is_pending_from to from) s.friend_requests ≡ none
      → any (is_pending_from from to) s.friend_requests ≡ false
      → t.friend_requests ≡ new_request env s.next_id from to ∷ s.friend_requests
      → t.friendships ≡ s.friendships
      → t.next_id ≡ suc s.next_id
      → Writes env s t
  settles :
      (id : ℕ) (r : FriendRequest) (new : RequestStatus)
      → find_friend_request id s ≡ some r
      → r.status ≡ pending
      → (new ≡ accepted) ⊎ (new ≡ declined)
      → t.friend_requests
        ≡ update_where (has_friend_request_id id) (request_with new env.now) s.friend_requests
      → ((new ≡ accepted) × (t.friendships ≡ add_pair r.from_user_id r.to_user_id s.friendships))
        ⊎ ((new ≡ declined) × (t.friendships ≡ s.friendships))
      → t.next_id ≡ s.next_id
      → Writes env s t
  parts :
      (me other : ℕ)
      → t.friend_requests ≡ s.friend_requests
      → t.friendships ≡ keep (λ f. not (is_pair me other f)) s.friendships
      → t.next_id ≡ s.next_id
      → Writes env s t

-- The columns that matter here, which the pushes of a broadcast leave alone.
pub record Same (s t : Net) : Type 0 where
  pub requests : t.friend_requests ≡ s.friend_requests
  pub friendships : t.friendships ≡ s.friendships
  pub next_id : t.next_id ≡ s.next_id

push_updates-Same : (user : ℕ) (friends : List ℕ) (s : Net) → Same s (push_updates user friends s)
push_updates-Same user [] s = record { requests = refl; friendships = refl; next_id = refl }
push_updates-Same user (f ∷ fs) s =
    let rest = push_updates-Same user fs _ in
    record { requests = rest.requests; friendships = rest.friendships; next_id = rest.next_id }

Same-trans : {s t u : Net} → Same s t → Same t u → Same s u
Same-trans a b = record {
  requests = b.requests ∙ a.requests;
  friendships = b.friendships ∙ a.friendships;
  next_id = b.next_id ∙ a.next_id;
}

-- What follows the transaction of an acceptance writes nothing here.
befriend_tx-Writes :
    (env : Env) (me id : ℕ) (s t : Net) (r : FriendRequest)
    → befriend_tx env me id s ≡ done r t
    → Writes env s t
unfolding befriend_tx set_request
befriend_tx-Writes env me id s t r h = elim (Option-cases (find_friend_request id s)) [
  | inl e ↦ absurd (ground arith)
  | inr (x, e) ↦
      settles id x accepted e (ground arith) (inl refl) (ground arith) (inl (refl, ground arith))
        (ground arith)
]

load_request-pure : (id : ℕ) (s : Net) → final (load_request id s) ≡ s
unfolding load_request
load_request-pure id s = elim (Option-cases (find_friend_request id s)) [
  | inl e ↦ rw (e, load_request) refl
  | inr (r, e) ↦ elim (Option-cases (find_user r.from_user_id s)) [
    | inl f ↦ rw (e, f, load_request) refl
    | inr (u, f) ↦ elim (Option-cases (find_user r.to_user_id s)) [
      | inl g ↦ rw (e, f, g, load_request) refl
      | inr (v, g) ↦ rw (e, f, g, load_request) refl
    ]
  ]
]

Same-refl : (s : Net) → Same s s
Same-refl s = record { requests = refl; friendships = refl; next_id = refl }

pub accept_internal-Same :
    (env : Env) (me id : ℕ) (s t : Net) (r : FriendRequest)
    → befriend_tx env me id s ≡ done r t
    → Same t (final (accept_internal env me id s))
unfolding accept_internal broadcast_presence
accept_internal-Same env me id s t r h = elim (Outcome-cases (load_request id t)) [
  | inl (dto, u, e) ↦
      let same : u ≡ t = ap final (sym e) ∙ load_request-pure id t in
      let sent : Same t u = rw same (Same-refl t) in
      let marked = record u {
        sent = (r.from_user_id, friend_request_accepted id dto.to_user) ∷ u.sent;
      } in
      let first = push_updates-Same r.from_user_id (friend_ids r.from_user_id marked) marked in
      let pushed = push_updates r.from_user_id (friend_ids r.from_user_id marked) marked in
      let second = push_updates-Same r.to_user_id (friend_ids r.to_user_id pushed) pushed in
      rw (h, e, accept_internal)
        (Same-trans
          (record {
            requests = sent.requests;
            friendships = sent.friendships;
            next_id = sent.next_id;
          })
          (Same-trans first second))
  | inr (err, u, e) ↦
      let same : u ≡ t = ap final (sym e) ∙ load_request-pure id t in
      rw (h, e, accept_internal) (rw same (Same-refl t))
]

Writes-Same : {env : Env} {s t u : Net} → Writes env s t → Same t u → Writes env s u
Writes-Same (nothing a b c) m = nothing (m.requests ∙ a) (m.friendships ∙ b) (rw m.next_id c)
Writes-Same (asks from to p q r v a b c) m =
    asks from to p q r v (m.requests ∙ a) (m.friendships ∙ b) (m.next_id ∙ c)
Writes-Same (settles id r new e p k a b c) m =
    settles id r new e p k (m.requests ∙ a)
      (elim b [ inl (x, y) ↦ inl (x, m.friendships ∙ y) | inr (x, y) ↦ inr (x, m.friendships ∙ y) ])
      (m.next_id ∙ c)
Writes-Same (parts me other a b c) m =
    parts me other (m.requests ∙ a) (m.friendships ∙ b) (m.next_id ∙ c)

accept_internal-Writes :
    (env : Env) (me id : ℕ) (s : Net) → Writes env s (final (accept_internal env me id s))
unfolding accept_internal
accept_internal-Writes env me id s = elim (Outcome-cases (befriend_tx env me id s)) [
  | inl (r, t, h) ↦
      Writes-Same (befriend_tx-Writes env me id s t r h) (accept_internal-Same env me id s t r h)
  | inr (e, t, h) ↦ rw (h, accept_internal) (nothing refl refl (omega arith))
]

send_request-Writes :
    (env : Env) (me target : ℕ) (s : Net)
    → nat_beq me target ≡ false
    → are_friends me target s ≡ false
    → find (is_pending_from target me) s.friend_requests ≡ none
    → Writes env s (final (send_request env me target s))
unfolding send_request insert_request
send_request-Writes env me target s p q r =
    elim (Bool-cases (any (is_pending_from me target) s.friend_requests)) [
      | inl t ↦ rw (t, send_request) (nothing refl refl (omega arith))
      | inr n ↦
          let after = record s {
            next_id = suc s.next_id;
            friend_requests = new_request env s.next_id me target ∷ s.friend_requests;
          } in
          elim (Outcome-cases (load_request s.next_id after)) [
            | inl (dto, u, e) ↦
                let same : u ≡ after = ap final (sym e) ∙ load_request-pure s.next_id after in
                rw (n, e, send_request)
                  (asks me target p q r n (ap (λ x. x.friend_requests) same)
                    (ap (λ x. x.friendships) same) (ap (λ x. x.next_id) same))
            | inr (err, u, e) ↦
                let same : u ≡ after = ap final (sym e) ∙ load_request-pure s.next_id after in
                rw (n, e, send_request)
                  (asks me target p q r n (ap (λ x. x.friend_requests) same)
                    (ap (λ x. x.friendships) same) (ap (λ x. x.next_id) same))
          ]
    ]

create_request-Writes :
    (env : Env) (me target : ℕ) (s : Net) → Writes env s (final (create_request env me target s))
unfolding create_request
create_request-Writes env me target s = elim (Bool-cases (nat_beq me target)) [
  | inl t ↦ rw (t, create_request) (nothing refl refl (omega arith))
  | inr p ↦ elim (Bool-cases (user_exists target s)) [
    | inr u ↦ rw (p, u, create_request) (nothing refl refl (omega arith))
    | inl u ↦ elim (Bool-cases (are_friends me target s)) [
      | inl f ↦ rw (p, u, f, create_request) (nothing refl refl (omega arith))
      | inr f ↦ elim (Option-cases (find (is_pending_from target me) s.friend_requests)) [
        | inl e ↦ rw (p, u, f, e, create_request) (send_request-Writes env me target s p f e)
        | inr (r, e) ↦ rw (p, u, f, e, create_request) (accept_internal-Writes env me r.id s)
      ]
    ]
  ]
]

load_request-found :
    (id : ℕ) (s u : Net) (row : FriendRequestRow)
    → load_request id s ≡ done row u
    → find_friend_request id s ≡ some row.request
unfolding load_request
load_request-found id s u row h = elim (Option-cases (find_friend_request id s)) [
  | inl e ↦ absurd (ground arith)
  | inr (r, e) ↦ (let same : row.request ≡ r = ground arith in e ∙ ap some (sym same))
]

decline_request-Writes :
    (env : Env) (me id : ℕ) (s : Net) → Writes env s (final (decline_request env me id s))
unfolding decline_request set_request
decline_request-Writes env me id s = elim (Outcome-cases (load_request id s)) [
  | inl (row, u, e) ↦
      let same : u ≡ s = ap final (sym e) ∙ load_request-pure id s in
      let loaded : load_request id s ≡ done row s = e ∙ ap (done row) same in
      elim (Bool-cases (nat_beq row.request.to_user_id me)) [
        | inr n ↦ rw (loaded, n, decline_request) (nothing refl refl (omega arith))
        | inl y ↦ elim (Bool-cases (status_beq row.request.status pending)) [
          | inr n ↦ rw (loaded, y, n, decline_request) (nothing refl refl (omega arith))
          | inl p ↦
              let after : Net = record s {
                friend_requests =
                    update_where (has_friend_request_id id) (request_with declined env.now)
                      s.friend_requests;
                sent = (row.request.from_user_id, friend_request_declined id) ∷ s.sent;
              } in
              rw (loaded, y, p, load_request-pure id after, decline_request)
                (settles id row.request declined (load_request-found id s s row loaded)
                  (ground arith) (inr refl) refl (inr (refl, refl)) refl)
        ]
      ]
  | inr (err, u, e) ↦
      let same : u ≡ s = ap final (sym e) ∙ load_request-pure id s in
      rw (e, decline_request) (rw same (nothing refl refl (omega arith)))
]

remove_friend-Writes :
    (env : Env) (me target : ℕ) (s : Net) → Writes env s (final (remove_friend me target s))
unfolding remove_friend
remove_friend-Writes env me target s = elim (Bool-cases (are_friends me target s)) [
  | inl e ↦ rw e (parts me target refl refl refl)
  | inr e ↦ rw e (parts me target refl refl refl)
]

pub step-Writes : (env : Env) (c : Call) (s : Net) → Writes env s (step env c s)
unfolding step
step-Writes env (creates me target) s = create_request-Writes env me target s
step-Writes env (removes me target) s = remove_friend-Writes env me target s
step-Writes env (accepts me id) s = accept_internal-Writes env me id s
step-Writes env (declines me id) s = decline_request-Writes env me id s

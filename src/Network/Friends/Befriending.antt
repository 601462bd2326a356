-- ===== src/Network/Friends/Befriending.antt =====
-- What accepting a friend request does to the friendships.
use mathlib.Core.Bool.{true, false, ◌&&◌, ◌||◌}
use mathlib.Core.Path.{ap₂}
use loontail_minecraft_netwo.Prelude.{
  ℕ, ◌≡◌, refl, ap, sym, ◌∙◌, some, List, nat_beq, any, arith, Option-cases, Bool-cases, inl, inr,
}
use loontail_minecraft_netwo.Network.Store.{Friendship, FriendRequest, pending, Net, Env}
use loontail_minecraft_netwo.Network.Effect.{done, final, Outcome-cases}
use loontail_minecraft_netwo.Network.Query.{least, greatest, is_pair, are_friends}
use loontail_minecraft_netwo.Network.Friends.{
  FriendRequestRow, find_friend_request, set_request, add_pair, befriend_tx, accept_internal,
}
use loontail_minecraft_netwo.Network.Friends.Writes.{accept_internal-Same}

-- The request that was accepted, and the friendships after it.
pub record Befriends (me id : ℕ) (s t : Net) : Type 0 where
  pub request : FriendRequest
  pub found : find_friend_request id s ≡ some request
  pub to_me : request.to_user_id ≡ me
  pub was_pending : request.status ≡ pending
  pub friends_now : are_friends request.from_user_id me t ≡ true
  pub only_these :
      (a b : ℕ)
      → are_friends a b t ≡ (
          are_friends a b s
          || is_pair a b (record {
            user_a_id = least request.from_user_id me;
            user_b_id = greatest request.from_user_id me;
          }))

same_pair :
    (from to a b : ℕ) (rows : List Friendship)
    → any (is_pair from to) rows ≡ true
    → is_pair a b (record { user_a_id = least from to; user_b_id = greatest from to }) ≡ true
    → any (is_pair a b) rows ≡ true
same_pair from to a b rows h k =
    let low : least a b ≡ least from to = ground arith in
    let high : greatest a b ≡ greatest from to = ground arith in
    ap₂ (λ x y. any (λ f. nat_beq f.user_a_id x && nat_beq f.user_b_id y) rows) low high ∙ h

any-add_pair-eq :
    (from to a b : ℕ) (rows : List Friendship)
    → any (is_pair a b) (add_pair from to rows) ≡ (
        any (is_pair a b) rows
        || is_pair a b (record { user_a_id = least from to; user_b_id = greatest from to }))
unfolding add_pair
any-add_pair-eq from to a b rows =
    let new : Friendship = record { user_a_id = least from to; user_b_id = greatest from to } in
    elim (Bool-cases (any (is_pair from to) rows)) [
      | inl t ↦ elim (Bool-cases (is_pair a b new)) [
        | inl k ↦ (let there = same_pair from to a b rows t k in rw (t, add_pair) (rw (there) refl))
        | inr k ↦
            rw (t, add_pair)
              (rw k (elim (any (is_pair a b) rows) as (λ x. x ≡ (x || false)) [
                | true ↦ refl
                | false ↦ refl
              ]))
      ]
      | inr n ↦ rw (n, add_pair) (unfold any in ground arith)
    ]

befriend_tx-parts :
    (env : Env) (me id : ℕ) (s t : Net) (r : FriendRequest)
    → befriend_tx env me id s ≡ done r t
    → (find_friend_request id s ≡ some r)
      × (r.to_user_id ≡ me)
      × (r.status ≡ pending)
      × (t.friendships ≡ add_pair r.from_user_id r.to_user_id s.friendships)
unfolding befriend_tx set_request
befriend_tx-parts env me id s t r h = elim (Option-cases (find_friend_request id s)) [
  | inl e ↦ absurd (ground arith)
  | inr (x, e) ↦ (ground arith, ground arith, ground arith, ground arith)
]

-- An acceptance that succeeds was of a pending request to the caller, makes its two users friends,
-- and changes no other friendship.
pub accept_internal-Befriends :
    (env : Env) (me id : ℕ) (s t : Net) (row : FriendRequestRow)
    → accept_internal env me id s ≡ done row t
    → Befriends me id s t
unfolding accept_internal are_friends
accept_internal-Befriends env me id s t row h = elim (Outcome-cases (befriend_tx env me id s)) [
  | inr (e, u, k) ↦ absurd (let j = rw (k, accept_internal) at h in cc)
  | inl (r, u, k) ↦
      let (found, mine, was, made) = befriend_tx-parts env me id s u r k in
      let same = accept_internal-Same env me id s u r k in
      let rows : t.friendships ≡ add_pair r.from_user_id me s.friendships =
        ap (λ x. (final x).friendships) (sym h)
        ∙ same.friendships
        ∙ made
        ∙ ap (λ x. add_pair r.from_user_id x s.friendships) mine in
      let all_pairs : (a b : ℕ) → _ =
        λ a b. ap (any (is_pair a b)) rows ∙ any-add_pair-eq r.from_user_id me a b s.friendships in
      record {
        request = r;
        found = found;
        to_me = mine;
        was_pending = was;
        friends_now = all_pairs r.from_user_id me ∙ ground arith;
        only_these = all_pairs;
      }
]

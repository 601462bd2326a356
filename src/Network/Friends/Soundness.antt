-- ===== src/Network/Friends/Soundness.antt =====
-- Every call on friends keeps their tables sound.
use mathlib.Core.Bool.{true, false, ◌&&◌, not}
use mathlib.Core.Path.{ap₂}
use loontail_minecraft_netwo.Prelude.{
  ℕ, ◌≡◌, ◌≤◌, ◌⊎◌, refl, ap, sym, ◌∙◌, some, List, ◌∷◌, nat_beq, any, update_where, count_where,
  All, All-update_where, find-All, count_where-update-le, arith, Bool-cases, inl, inr,
}
use loontail_minecraft_netwo.Network.Store.{
  FriendRequest, RequestStatus, pending, accepted, declined, Net, Env,
}
use loontail_minecraft_netwo.Network.Query.{is_pair, are_friends}
use loontail_minecraft_netwo.Network.Friends.{
  has_friend_request_id, find_friend_request, request_with, add_pair,
}
use loontail_minecraft_netwo.Network.Friends.Writes.{
  Call, step, Writes, nothing, asks, settles, parts, new_request, step-Writes,
}
use loontail_minecraft_netwo.Network.Friends.Validity.{
  is_between, IsOrdered, NotToSelf, IsSound, count_where-update-lt, count_where-keep-le, any-keep,
  All-keep, any-add_pair, once-add_pair, IsOrdered-add_pair, asks-between, are_friends-sym,
}

off_between :
    (now a b : ℕ) (new : RequestStatus) (x : FriendRequest)
    → (new ≡ accepted) ⊎ (new ≡ declined)
    → is_between a b (request_with new now x) ≡ false
off_between now a b new x c = elim c [ inl i ↦ rw i (ground arith) | inr i ↦ rw i (ground arith) ]

settles_less :
    (now a b id : ℕ) (new : RequestStatus) (rs : List FriendRequest)
    → (new ≡ accepted) ⊎ (new ≡ declined)
    → count_where
        (is_between a b)
        (update_where (has_friend_request_id id) (request_with new now) rs)
      ≤ count_where (is_between a b) rs
settles_less now a b id new rs c =
    count_where-update-le (is_between a b) (has_friend_request_id id) (request_with new now) rs
      (λ x y z. absurd (let o = off_between now a b new x c in cc))

Writes-single :
    (env : Env) (s t : Net)
    → IsSound s
    → Writes env s t
    → (a b : ℕ) → count_where (is_between a b) t.friend_requests ≤ 1
unfolding count_where
Writes-single env s t v (nothing e f n) a b = rw e (v.single a b)
Writes-single env s t v (parts me other e f n) a b = rw e (v.single a b)
Writes-single env s t v (asks from to d k r q e f n) a b =
    let fresh = asks-between env s.next_id from to a b s r q in
    rw e (ground (arith, fresh, v.single a b))
Writes-single env s t v (settles id r new e p c q f n) a b =
    let less = settles_less env.now a b id new s.friend_requests c in
    rw q (omega (arith, less, v.single a b))

are_friends-eq :
    (a b : ℕ) (s t : Net) → t.friendships ≡ s.friendships → are_friends a b t ≡ are_friends a b s
unfolding are_friends
are_friends-eq a b s t f = ap (any (is_pair a b)) f

asks-settled :
    (env : Env) (from to a b : ℕ) (s : Net)
    → IsSound s
    → are_friends from to s ≡ false
    → are_friends a b s ≡ true
    → count_where (is_between a b) (new_request env s.next_id from to ∷ s.friend_requests) ≡ 0
unfolding count_where
asks-settled env from to a b s v k h =
    elim (Bool-cases (is_between a b (new_request env s.next_id from to))) [
      | inr n ↦ rw n (v.settled a b h)
      | inl t ↦ absurd (elim (Bool-cases (nat_beq from a && nat_beq to b)) [
        | inl y ↦
            let same : are_friends a b s ≡ are_friends from to s =
              ap₂ (λ u w. are_friends u w s) (ground arith) (ground arith) in
            cc
        | inr z ↦
            let same : are_friends a b s ≡ are_friends to from s =
              ap₂ (λ u w. are_friends u w s) (ground arith) (ground arith) in
            let turned = are_friends-sym to from s in cc
      ])
    ]

accepted-settled :
    (env : Env) (id a b : ℕ) (r : FriendRequest) (s : Net)
    → IsSound s
    → find_friend_request id s ≡ some r
    → r.status ≡ pending
    → any (is_pair a b) (add_pair r.from_user_id r.to_user_id s.friendships) ≡ true
    → count_where
        (is_between a b)
        (update_where (has_friend_request_id id) (request_with accepted env.now) s.friend_requests)
      ≡ 0
unfolding find_friend_request are_friends
accepted-settled env id a b r s v e p h =
    let less = settles_less env.now a b id accepted s.friend_requests (inl refl) in
    let drop : is_between a b r ≡ true → _ = λ t.
      count_where-update-lt (is_between a b) (has_friend_request_id id)
        (request_with accepted env.now) s.friend_requests r e t
        (λ x. off_between env.now a b accepted x (inl refl)) in
    elim (any-add_pair r.from_user_id r.to_user_id a b s.friendships h) [
      | inl old ↦ (let none_left = v.settled a b old in omega (arith, less, none_left))
      | inr new ↦
          let here : is_between a b r ≡ true = elim new [
            | inl (x, y) ↦ rw (x, y) (ground arith)
            | inr (x, y) ↦ rw (x, y) (ground arith)
          ] in
          omega (arith, drop here, v.single a b)
    ]

Writes-settled :
    (env : Env) (s t : Net)
    → IsSound s
    → Writes env s t
    → (a b : ℕ) → are_friends a b t ≡ true
    → count_where (is_between a b) t.friend_requests ≡ 0
Writes-settled env s t v (nothing e f n) a b h =
    rw e (v.settled a b (sym (are_friends-eq a b s t f) ∙ h))
Writes-settled env s t v (parts me other e f n) a b h = rw e (
    v.settled a b (
      unfold are_friends in
      any-keep (is_pair a b) _ s.friendships (ap (any (is_pair a b)) (sym f) ∙ h)))
Writes-settled env s t v (asks from to d k r q e f n) a b h =
    rw e (asks-settled env from to a b s v k (sym (are_friends-eq a b s t f) ∙ h))
Writes-settled env s t v (settles id r new e p c q f n) a b h = elim f [
  | inl (i, g) ↦
      rw (q, i)
        (accepted-settled env id a b r s v e p
          (unfold are_friends in ap (any (is_pair a b)) (sym g) ∙ h))
  | inr (i, g) ↦
      let zero_before = v.settled a b (sym (are_friends-eq a b s t g) ∙ h) in
      let less = settles_less env.now a b id new s.friend_requests c in
      rw q (omega (arith, less, zero_before))
]

Writes-once :
    (env : Env) (s t : Net)
    → IsSound s
    → Writes env s t
    → (a b : ℕ) → count_where (is_pair a b) t.friendships ≤ 1
Writes-once env s t v (nothing e f n) a b = rw f (v.once a b)
Writes-once env s t v (asks from to d k r q e f n) a b = rw f (v.once a b)
Writes-once env s t v (parts me other e f n) a b = rw f (
    omega (
      arith,
      v.once a b,
      count_where-keep-le (is_pair a b) (λ x. not (is_pair me other x)) s.friendships,
    ))
Writes-once env s t v (settles id r new e p c q f n) a b = elim f [
  | inl (i, g) ↦ rw g (once-add_pair r.from_user_id r.to_user_id a b s.friendships (v.once a b))
  | inr (i, g) ↦ rw g (v.once a b)
]

Writes-IsOrdered :
    (env : Env) (s t : Net) → IsSound s → Writes env s t → All IsOrdered t.friendships
unfolding find_friend_request
Writes-IsOrdered env s t v (nothing e f n) = rw f v.ordered
Writes-IsOrdered env s t v (asks from to d k r q e f n) = rw f v.ordered
Writes-IsOrdered env s t v (parts me other e f n) =
    rw f (All-keep IsOrdered _ s.friendships v.ordered)
Writes-IsOrdered env s t v (settles id r new e p c q f n) = elim f [
  | inl (i, g) ↦
      let apart = find-All NotToSelf (has_friend_request_id id) s.friend_requests v.not_self e in
      rw g (IsOrdered-add_pair r.from_user_id r.to_user_id s.friendships apart v.ordered)
  | inr (i, g) ↦ rw g v.ordered
]

Writes-NotToSelf :
    (env : Env) (s t : Net) → IsSound s → Writes env s t → All NotToSelf t.friend_requests
Writes-NotToSelf env s t v (nothing e f n) = rw e v.not_self
Writes-NotToSelf env s t v (asks from to d k r q e f n) = rw e (d, v.not_self)
Writes-NotToSelf env s t v (parts me other e f n) = rw e v.not_self
Writes-NotToSelf env s t v (settles id r new e p c q f n) = rw q (
    All-update_where NotToSelf (has_friend_request_id id) (request_with new env.now)
      s.friend_requests (λ x a. a) v.not_self)

-- Every call on friends, whatever it answers, keeps sound tables sound: a friendship is stored once,
-- its smaller id first; two users have at most one pending request between them, whoever sent it,
-- and none while they are friends; and nobody has asked themselves.
pub step-IsSound : (env : Env) (c : Call) (s : Net) → IsSound s → IsSound (step env c s)
step-IsSound env c s v =
    let w = step-Writes env c s in
    record {
      ordered = Writes-IsOrdered env s (step env c s) v w;
      once = Writes-once env s (step env c s) v w;
      not_self = Writes-NotToSelf env s (step env c s) v w;
      single = Writes-single env s (step env c s) v w;
      settled = Writes-settled env s (step env c s) v w;
    }

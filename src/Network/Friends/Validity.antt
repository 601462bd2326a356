-- ===== src/Network/Friends/Validity.antt =====
-- What the tables of friends satisfy after any calls.
use mathlib.Core.Bool.{Bool, true, false, ◌&&◌, ◌||◌}
use mathlib.Core.Path.{ap₂}
use loontail_minecraft_netwo.Prelude.{
  ℕ, suc, ◌≡◌, ◌≤◌, ◌<◌, ◌⊎◌, refl, ap, ◌∙◌, none, some, List, [], ◌∷◌, nat_beq, any, find, keep,
  update_where, count_where, All, count_where-update-le, count_where-of_any, arith, Bool-cases, inl,
  inr,
}
use loontail_minecraft_netwo.Network.Store.{Friendship, FriendRequest, Net, Env}
use loontail_minecraft_netwo.Network.Query.{least, greatest, is_pair, are_friends}
use loontail_minecraft_netwo.Network.Friends.{is_pending_from, add_pair}
use loontail_minecraft_netwo.Network.Friends.Writes.{new_request}

abbrev pub is_between : ℕ → ℕ → FriendRequest → Bool
is_between a b r = is_pending_from a b r || is_pending_from b a r

abbrev pub IsOrdered : Friendship → Type 0
IsOrdered f = f.user_a_id < f.user_b_id

abbrev pub NotToSelf : FriendRequest → Type 0
NotToSelf r = nat_beq r.from_user_id r.to_user_id ≡ false

-- A pair is stored once, smaller id first; two users have at most one pending request between them,
-- whoever sent it, none once they are friends, and nobody asks themselves.
pub record IsSound (s : Net) : Type 0 where
  pub ordered : All IsOrdered s.friendships
  pub once : (a b : ℕ) → count_where (is_pair a b) s.friendships ≤ 1
  pub not_self : All NotToSelf s.friend_requests
  pub single : (a b : ℕ) → count_where (is_between a b) s.friend_requests ≤ 1
  pub settled :
      (a b : ℕ) → are_friends a b s ≡ true → count_where (is_between a b) s.friend_requests ≡ 0

module _ {A : Type 0} where
  pub count_where-none :
      (p q : A → Bool) (xs : List A)
      → any p xs ≡ false
      → find q xs ≡ none
      → (count_where (λ x. p x || q x) xs ≡ 0) × (count_where (λ x. q x || p x) xs ≡ 0)
  unfolding any find count_where
  count_where-none p q [] h k = (refl, refl)
  count_where-none p q (x ∷ xs) h k = let rest = count_where-none p q xs in ground (arith)

  -- A change that turns a counted element off.
  pub count_where-update-lt :
      (p q : A → Bool) (f : A → A) (xs : List A) (x : A)
      → find q xs ≡ some x
      → p x ≡ true
      → ((y : A) → p (f y) ≡ false)
      → suc (count_where p (update_where q f xs)) ≤ count_where p xs
  unfolding find count_where update_where
  count_where-update-lt p q f [] x e h off = absurd (cc)
  count_where-update-lt p q f (y ∷ ys) x e h off = elim (Bool-cases (q y)) [
    | inl t ↦
        let same : y ≡ x = ground arith in
        let was : p y ≡ true = ap p same ∙ h in
        let rest = count_where-update-le p q f ys (λ z u v. absurd (let no = off z in cc)) in
        rw (t, off y, was) (omega (arith, rest))
    | inr n ↦
        let rest = count_where-update-lt p q f ys x (ground arith) h off in
        rw n (ground (arith, rest))
  ]

  pub count_where-keep-le :
      (p q : A → Bool) (xs : List A) → count_where p (keep q xs) ≤ count_where p xs
  unfolding keep count_where
  count_where-keep-le p q [] = omega arith
  count_where-keep-le p q (x ∷ xs) = ground (arith, count_where-keep-le p q xs)

  pub any-keep : (p q : A → Bool) (xs : List A) → any p (keep q xs) ≡ true → any p xs ≡ true
  unfolding keep any
  any-keep p q [] h = h
  any-keep p q (x ∷ xs) h = ground (arith, any-keep p q xs)

  pub All-keep : (P : A → Type 0) (q : A → Bool) (xs : List A) → All P xs → All P (keep q xs)
  unfolding keep
  All-keep P q [] a = tt
  All-keep P q (x ∷ xs) a = elim (Bool-cases (q x)) [
    | inl t ↦ rw t (a.0, All-keep P q xs a.1)
    | inr n ↦ rw n (All-keep P q xs a.1)
  ]

pub any-add_pair :
    (from to a b : ℕ) (rows : List Friendship)
    → any (is_pair a b) (add_pair from to rows) ≡ true
    → (any (is_pair a b) rows ≡ true) ⊎ (((a ≡ from) × (b ≡ to)) ⊎ ((a ≡ to) × (b ≡ from)))
unfolding add_pair any
any-add_pair from to a b rows h = ground arith

count_where-pair :
    (from to a b : ℕ) (rows : List Friendship)
    → any (is_pair from to) rows ≡ false
    → is_pair a b (record { user_a_id = least from to; user_b_id = greatest from to }) ≡ true
    → count_where (is_pair a b) rows ≡ 0
count_where-pair from to a b rows n h =
    let low : least a b ≡ least from to = ground arith in
    let high : greatest a b ≡ greatest from to = ground arith in
    ap₂ (λ x y. count_where (λ f. nat_beq f.user_a_id x && nat_beq f.user_b_id y) rows) low high
    ∙ count_where-of_any (is_pair from to) rows n

pub once-add_pair :
    (from to a b : ℕ) (rows : List Friendship)
    → count_where (is_pair a b) rows ≤ 1
    → count_where (is_pair a b) (add_pair from to rows) ≤ 1
unfolding add_pair count_where
once-add_pair from to a b rows h = elim (Bool-cases (any (is_pair from to) rows)) [
  | inl t ↦ rw (t, add_pair) h
  | inr n ↦
      let fresh = count_where-pair from to a b rows n in rw (n, add_pair) (ground (arith, fresh))
]

pub IsOrdered-add_pair :
    (from to : ℕ) (rows : List Friendship)
    → nat_beq from to ≡ false
    → All IsOrdered rows
    → All IsOrdered (add_pair from to rows)
unfolding add_pair
IsOrdered-add_pair from to rows d a = elim (Bool-cases (any (is_pair from to) rows)) [
  | inl t ↦ rw (t, add_pair) a
  | inr n ↦ rw (n, add_pair) (ground arith, a)
]

-- A new request between two users who have none, and are no friends.
pub asks-between :
    (env : Env) (id from to a b : ℕ) (s : Net)
    → find (is_pending_from to from) s.friend_requests ≡ none
    → any (is_pending_from from to) s.friend_requests ≡ false
    → is_between a b (new_request env id from to) ≡ true
    → count_where (is_between a b) s.friend_requests ≡ 0
asks-between env id from to a b s e n h =
    let (here, there) =
      count_where-none (is_pending_from from to) (is_pending_from to from) s.friend_requests n e in
    elim (Bool-cases (nat_beq from a && nat_beq to b)) [
      | inl t ↦
          let x : a ≡ from = ground arith in
          let y : b ≡ to = ground arith in
          ap₂ (λ u v. count_where (is_between u v) s.friend_requests) x y ∙ here
      | inr f ↦
          let x : a ≡ to = ground arith in
          let y : b ≡ from = ground arith in
          ap₂ (λ u v. count_where (is_between u v) s.friend_requests) x y ∙ there
    ]

pub are_friends-sym : (a b : ℕ) (s : Net) → are_friends a b s ≡ are_friends b a s
unfolding are_friends
are_friends-sym a b s =
    let low : least a b ≡ least b a = ground arith in
    let high : greatest a b ≡ greatest b a = ground arith in
    ap₂ (λ x y. any (λ f. nat_beq f.user_a_id x && nat_beq f.user_b_id y) s.friendships) low high

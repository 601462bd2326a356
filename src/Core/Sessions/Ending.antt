-- ===== src/Core/Sessions/Ending.antt =====
-- How a session ends: by its time, by one revocation or by all, and what the hourly deletion hides.
use mathlib.Core.Bool.{false, ◌&&◌, not}
use loontail_minecraft_netwo.Prelude.{
  ℕ, ◌≤◌, ◌≡◌, refl, ap, ◌∙◌, Option, none, some, List, [], ◌∷◌, nat_beq, if◌then◌else◌, find,
  find_sound, keep, update_where, count_where, arith, Bool-cases, Option-cases, inl, inr,
}
use loontail_minecraft_netwo.Prelude.Text.{bytes_eq}
use loontail_minecraft_netwo.Network.Effect.{unauthorized}
use loontail_minecraft_netwo.Core.Account.{Text, Account, Session, Auth, AuthEnv, Result, ok, err}
use loontail_minecraft_netwo.Core.Sessions.{
  has_token_hash, is_revoked, is_live_session, is_unblocked, or_else, find_joined, user_from_token,
  revoke, is_session_of, revoke_all_sessions_for_user, is_spent, cleanup_expired_sessions,
}

abbrev joined_after : ℕ → Text → List Account → Session → Option Account → Option Account
joined_after now hash accounts x rest =
    if is_live_session now hash x
    then or_else (find (is_unblocked x.user_id) accounts) rest
    else rest

find_joined-keep :
    (now later : ℕ) (hash : Text) (accounts : List Account) (xs : List Session)
    → now ≤ later
    → find_joined later hash accounts (keep (λ x. not (is_spent now x)) xs)
      ≡ find_joined later hash accounts xs
unfolding find_joined keep
find_joined-keep now later hash accounts [] l = refl
find_joined-keep now later hash accounts (x ∷ xs) l = elim (Bool-cases (is_spent now x)) [
  | inl y ↦
      (let dead : is_live_session later hash x ≡ false = ground (arith, l, y) in
        rw (y, dead) (find_joined-keep now later hash accounts xs l))
  | inr n ↦
      rw n (ap (joined_after later hash accounts x) (find_joined-keep now later hash accounts xs l))
]

cleanup-unseen :
    (env : AuthEnv) (later : ℕ) (token : Text) (s : Auth)
    → env.now ≤ later
    → user_from_token (record env { now = later }) token (cleanup_expired_sessions env s).1
      ≡ user_from_token (record env { now = later }) token s
unfolding user_from_token cleanup_expired_sessions
cleanup-unseen env later token s l =
    rw
      (
        find_joined-keep env.now later (env.hash_token token) s.accounts s.sessions l,
        user_from_token,
      )
      refl

-- What is found unless its account is the one that is signed out.
abbrev unless_of : ℕ → Option Account → Option Account
unless_of user none = none
unless_of user (some a) = if nat_beq a.id user then none else some a

owned_by :
    (id : ℕ) (accounts : List Account) (a : Account)
    → find (is_unblocked id) accounts ≡ some a
    → a.id ≡ id
owned_by id accounts a e = (let k = find_sound (is_unblocked id) accounts a e in ground (arith, k))

find_joined-none :
    (now : ℕ) (hash : Text) (accounts : List Account) (xs : List Session)
    → count_where (has_token_hash hash) xs ≡ 0
    → find_joined now hash accounts xs ≡ none
unfolding find_joined count_where
find_joined-none now hash accounts [] h = refl
find_joined-none now hash accounts (x ∷ xs) h =
    ground (arith, find_joined-none now hash accounts xs)

revoked_row :
    (now user later : ℕ) (hash : Text) (accounts : List Account) (x : Session)
    (before after : Option Account)
    → before ≡ none
    → after ≡ none
    → joined_after later hash accounts
        (if is_session_of user x && not (is_revoked x) then revoke now x else x)
        after
      ≡ unless_of user (joined_after later hash accounts x before)
revoked_row now user later hash accounts x before after b a =
    rw (b, a)
      (elim (Option-cases (find (is_unblocked x.user_id) accounts)) [
        | inl e ↦ ground (arith, e)
        | inr (o, e) ↦ ground (arith, e, owned_by x.user_id accounts o e)
      ])

find_joined-revoked :
    (now user : ℕ) (later : ℕ) (hash : Text) (accounts : List Account) (xs : List Session)
    → count_where (has_token_hash hash) xs ≤ 1
    → find_joined later hash accounts
        (update_where (λ x. is_session_of user x && not (is_revoked x)) (revoke now) xs)
      ≡ unless_of user (find_joined later hash accounts xs)
unfolding find_joined update_where count_where
find_joined-revoked now user later hash accounts [] u = refl
find_joined-revoked now user later hash accounts (x ∷ xs) u =
    elim (Bool-cases (has_token_hash hash x)) [
      | inr n ↦ ground (arith, find_joined-revoked now user later hash accounts xs, n, u)
      | inl y ↦
          (let only : count_where (has_token_hash hash) xs ≡ 0 = ground (arith, y, u) in
            let before = find_joined-none later hash accounts xs only in
            let after =
              find_joined-revoked now user later hash accounts xs (omega (arith, only))
              ∙ ap (unless_of user) before in
            revoked_row now user later hash accounts x _ _ before after)
    ]

abbrev pub refused_for : ℕ → Result Account → Result Account
refused_for user (err e) = err e
refused_for user (ok a) = if nat_beq a.id user then err unauthorized else ok a

revoke_all-exact :
    (env : AuthEnv) (user later : ℕ) (token : Text) (s : Auth)
    → count_where (has_token_hash (env.hash_token token)) s.sessions ≤ 1
    → user_from_token (record env { now = later }) token (revoke_all_sessions_for_user env user s).1
      ≡ refused_for user (user_from_token (record env { now = later }) token s)
unfolding user_from_token revoke_all_sessions_for_user
revoke_all-exact env user later token s u =
    let e = find_joined-revoked env.now user later (env.hash_token token) s.accounts s.sessions u in
    elim (Option-cases (find_joined later (env.hash_token token) s.accounts s.sessions)) [
      | inl n ↦ rw (e, n, user_from_token) refl
      | inr (a, f) ↦ elim (Bool-cases (nat_beq a.id user)) [
        | inl y ↦ rw (e, f, y, user_from_token) refl
        | inr n ↦ rw (e, f, n, user_from_token) refl
      ]
    ]

-- All sessions of a user are revoked, and later the spent ones are deleted: from then on a token
-- resolves exactly as if neither had happened, except that one that resolved to that user is
-- refused. The digest of the token stands in at most one row.
pub sign_out-exact :
    (env : AuthEnv) (user cleaned later : ℕ) (token : Text) (s : Auth)
    → count_where (has_token_hash (env.hash_token token)) s.sessions ≤ 1
    → cleaned ≤ later
    → user_from_token
        (record env { now = later })
        token
        (cleanup_expired_sessions
          (record env { now = cleaned })
          (revoke_all_sessions_for_user env user s).1).1
      ≡ refused_for user (user_from_token (record env { now = later }) token s)
sign_out-exact env user cleaned later token s u l =
    cleanup-unseen (record env { now = cleaned }) later token
      (revoke_all_sessions_for_user env user s).1 l
    ∙ revoke_all-exact env user later token s u

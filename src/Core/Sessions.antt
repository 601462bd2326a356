-- ===== src/Core/Sessions.antt =====
-- crates/core/src/auth/mod.rs: the sessions of the API.
pub mod Ending
use mathlib.Core.Bool.{Bool, true, false, ◌&&◌, ◌||◌, not}
use loontail_minecraft_netwo.Prelude.{
  ℕ, ◌+◌, Option, none, some, List, [], ◌∷◌, leb, ltb, nat_beq, if◌then◌else◌, any, find, keep,
  update_where, count_where, ◌==◌,
}
use loontail_minecraft_netwo.Prelude.Text.{bytes_eq, bytes_beq}
use loontail_minecraft_netwo.Network.Effect.{database, unauthorized}
use loontail_minecraft_netwo.Core.Account.{Text, Account, Session, Auth, AuthEnv, Result, ok, err}
use loontail_minecraft_netwo.Core.Tokens.{has_account_id}

pub record IssuedSession : Type 0 where
  pub token : Text
  pub expires_at : ℕ

abbrev pub has_token_hash : Text → Session → Bool
has_token_hash hash x = x.token_hash == hash

abbrev pub is_set : Option ℕ → Bool
is_set none = false
is_set (some time) = true

abbrev pub is_revoked : Session → Bool
is_revoked x = is_set x.revoked_at

abbrev pub new_session : AuthEnv → ℕ → Session
new_session env user = record {
  user_id = user;
  token_hash = env.hash_token env.fresh_token;
  expires_at = env.now + env.ttl;
  revoked_at = none;
}

-- `token_hash` is unique, so the insertion of a digest that is there fails.
unfoldable pub issue_session : AuthEnv → ℕ → Auth → Result IssuedSession × Auth
issue_session env user s =
    if any (has_token_hash (env.hash_token env.fresh_token)) s.sessions
    then (err database, s)
    else (
      ok (record { token = env.fresh_token; expires_at = env.now + env.ttl }),
      record s { sessions = new_session env user ∷ s.sessions },
    )

abbrev pub is_live_session : ℕ → Text → Session → Bool
is_live_session now hash x = has_token_hash hash x && (not (is_revoked x) && ltb now x.expires_at)

abbrev pub is_unblocked : ℕ → Account → Bool
is_unblocked id a = has_account_id id a && not a.blocked

abbrev pub or_else : Option Account → Option Account → Option Account
or_else none other = other
or_else (some a) other = some a

-- The join of `sessions` and `users`.
unfoldable pub find_joined : ℕ → Text → List Account → List Session → Option Account
find_joined now hash accounts [] = none
find_joined now hash accounts (x ∷ xs) =
    let rest = find_joined now hash accounts xs in
    if is_live_session now hash x
    then or_else (find (is_unblocked x.user_id) accounts) rest
    else rest

unfoldable pub user_from_token : AuthEnv → Text → Auth → Result Account
unfolding find_joined
user_from_token env token s =
    elim (find_joined env.now (env.hash_token token) s.accounts s.sessions) [
      | none ↦ err unauthorized
      | some a ↦ ok a
    ]

abbrev pub revoke : ℕ → Session → Session
revoke now x = record x { revoked_at = some now }

-- Each revocation answers the number of rows that it changed.
abbrev pub revoke_where : AuthEnv → (Session → Bool) → Auth → ℕ × Auth
revoke_where env p s = (
  count_where (λ x. p x && not (is_revoked x)) s.sessions,
  record s { sessions = update_where (λ x. p x && not (is_revoked x)) (revoke env.now) s.sessions },
)

unfoldable pub revoke_session : AuthEnv → Text → Auth → ℕ × Auth
revoke_session env token s = revoke_where env (has_token_hash (env.hash_token token)) s

abbrev pub is_session_of : ℕ → Session → Bool
is_session_of user x = nat_beq x.user_id user

unfoldable pub revoke_all_sessions_for_user : AuthEnv → ℕ → Auth → ℕ × Auth
revoke_all_sessions_for_user env user s = revoke_where env (is_session_of user) s

abbrev pub is_spent : ℕ → Session → Bool
is_spent now x = leb x.expires_at now || is_revoked x

unfoldable pub cleanup_expired_sessions : AuthEnv → Auth → ℕ × Auth
cleanup_expired_sessions env s = (
  count_where (is_spent env.now) s.sessions,
  record s { sessions = keep (λ x. not (is_spent env.now x)) s.sessions },
)

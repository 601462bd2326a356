-- ===== src/Core/Tests.antt =====
-- The theorems of authentication at concrete inputs.
use mathlib.Core.Bool.{true, false}
use loontail_minecraft_netwo.Prelude.{
  ℕ, ◌+◌, ◌++◌, ◌≡◌, refl, none, some, [], ◌∷◌, arith, any, find, keep, count_where,
}
use loontail_minecraft_netwo.Prelude.Int.{pos}
use loontail_minecraft_netwo.Prelude.Text.{bytes_beq-ne}
use loontail_minecraft_netwo.Network.Effect.{unauthorized}
use loontail_minecraft_netwo.Core.Account.{Text, Account, TokenPair, Auth, AuthEnv, Result, err}
use loontail_minecraft_netwo.Core.Tokens.{
  YggdrasilTokens, evict, sort_latest, insert_latest, refresh_yggdrasil,
}
use loontail_minecraft_netwo.Core.Tokens.Capacity.{IsCapped, issues, step, step-IsCapped}
use loontail_minecraft_netwo.Core.Tokens.Rotation.{Rotates, refresh-Rotates}
use loontail_minecraft_netwo.Core.Sessions.{
  find_joined, user_from_token, revoke_all_sessions_for_user, cleanup_expired_sessions,
}
use loontail_minecraft_netwo.Core.Sessions.Ending.{sign_out-exact}
use loontail_minecraft_netwo.Core.Headers.{split_on, split_once, find_value, csrf_cookie_name, post}
use loontail_minecraft_netwo.Core.Guard.{
  Request, auth_user, admin_user, resolve_principal, logged_as,
}
use loontail_minecraft_netwo.Core.Guard.Soundness.{Guarded, admin_user-Guarded, logged_as-auth_user}

abbrev env : AuthEnv
env = record {
  now = 1000;
  ttl = 100;
  max_per_user = pos 2;
  fresh_token = b'n' ∷ [];
  fresh_client_token = b'c' ∷ [];
  hash_token = λ t. b'#' ∷ t;
}

abbrev account : Account
account = record {
  id = 7;
  minecraft_uuid = none;
  username = b'A' ∷ [];
  normalized_username = b'a' ∷ [];
  email = none;
  password_hash = none;
  profile_uuid = some (b'7' ∷ []);
  confirmed = true;
  blocked = false;
  is_admin = true;
}

abbrev pair : ℕ → ℕ → TokenPair
pair id letter = record {
  id = id;
  user_id = 7;
  access_token_hash = b'#' ∷ letter ∷ [];
  client_token = b'k' ∷ [];
  issued_at = 900 + id;
  expires_at = 1050;
}

abbrev auth : Auth
auth = record {
  accounts = account ∷ [];
  sessions =
      record { user_id = 7; token_hash = b'#' ∷ b's' ∷ []; expires_at = 1500; revoked_at = none }
      ∷ [];
  tokens = pair 2 b'b' ∷ pair 1 b'a' ∷ [];
  next_id = 3;
}

auth-IsCapped : IsCapped 2 auth.tokens 3
unfolding count_where
auth-IsCapped = record {
  used = (omega arith, (omega arith, tt));
  unique = λ id. ground arith;
  within = λ user. ground arith;
}

-- A third pair evicts the oldest one.
step-IsCapped_example :
    IsCapped 2 (step env (issues 7 none) auth).tokens (step env (issues 7 none) auth).next_id
step-IsCapped_example = step-IsCapped 1 env (issues 7 none) auth refl auth-IsCapped

abbrev request : Request
request = record {
  method = post;
  headers = record {
    authorization = none;
    cookie = some (b's' ∷ b'=' ∷ b's' ∷ b';' ∷ b' ' ∷ (csrf_cookie_name ++ (b'=' ∷ b'x' ∷ [])));
    x_csrf_token = some (b'x' ∷ []);
  };
}

abbrev cookie_name : Text
cookie_name = b's' ∷ []

sign_out-exact_example :
    user_from_token
      (record env { now = 1200 })
      (b's' ∷ [])
      (cleanup_expired_sessions
        (record env { now = 1100 })
        (revoke_all_sessions_for_user env 7 auth).1).1
    ≡ err unauthorized
unfolding user_from_token find_joined count_where find
sign_out-exact_example = sign_out-exact env 7 1100 1200 (b's' ∷ []) auth (omega arith) (omega arith)

refreshed : Result (Account × YggdrasilTokens) × Auth
unfolding refresh_yggdrasil
refreshed = refresh_yggdrasil env (b'a' ∷ []) none auth

refresh-Rotates_example :
    Rotates env
      (b'a' ∷ [])
      none
      auth
      refreshed.1
      account
      (record { access_token = b'n' ∷ []; client_token = b'k' ∷ []; expires_at = 1100 })
unfolding refreshed refresh_yggdrasil find any keep evict sort_latest insert_latest
refresh-Rotates_example =
    refresh-Rotates env (b'a' ∷ []) none auth refreshed.1 account _ (bytes_beq-ne _ _ refl)
      (omega arith, (omega arith, tt)) refl

admin_user-Guarded_example : Guarded env cookie_name request auth account
unfolding admin_user auth_user find_joined find find_value split_on split_once
admin_user-Guarded_example = admin_user-Guarded env cookie_name request auth account refl

logged_as-auth_user_example :
    logged_as env cookie_name request auth (auth_user env cookie_name request auth).1
    ≡ resolve_principal env cookie_name request.headers auth
logged_as-auth_user_example = logged_as-auth_user env cookie_name request auth

-- ===== src/Admin/Users.antt =====
-- crates/admin/src/users.rs and auth.rs: the handlers on accounts, and an administrator's login. Each
-- runs after the guard of Core/Guard has let an administrator in.
pub mod Counting
pub mod LastAdmin
use mathlib.Core.Bool.{Bool, true, false, ◌&&◌, not}
use loontail_minecraft_netwo.Prelude.{
  ℕ, Option, none, some, leb, any, keep, count_where, if◌then◌else◌,
}
use loontail_minecraft_netwo.Network.Effect.{AppError, conflict, forbidden}
use loontail_minecraft_netwo.Core.Account.{
  Text, Account, Session, TokenPair, Auth, AuthEnv, Result, ok, err,
}
use loontail_minecraft_netwo.Core.Tokens.{
  has_account_id, is_pair_of, invalidate_all_yggdrasil_for_user,
}
use loontail_minecraft_netwo.Core.Sessions.{
  IssuedSession, is_session_of, issue_session, revoke_session, revoke_all_sessions_for_user,
}
use loontail_minecraft_netwo.Core.Headers.{HeaderMap, cookie_value}
use loontail_minecraft_netwo.Core.Identity.{IdentityEnv, authenticate_password}
use loontail_minecraft_netwo.Core.Identity.Registry.{
  AdminCreateUser, admin_create_user, UpdateUser, update_user, set_password, set_blocked, load_user,
}

abbrev pub is_usable_admin : Account → Bool
is_usable_admin a = a.is_admin && not a.blocked

abbrev pub is_usable_target : ℕ → Account → Bool
is_usable_target id a = has_account_id id a && is_usable_admin a

-- An error, where the operation would strip the last usable administrator.
unfoldable pub guard_last_admin : ℕ → Auth → Option AppError
guard_last_admin target s =
    if not (any (is_usable_target target) s.accounts)
    then none
    else (if leb (count_where is_usable_admin s.accounts) 1
        then some (conflict "cannot remove the last admin")
        else none)

abbrev pub is_demotion : Option Bool → Bool
is_demotion (some false) = true
is_demotion _ = false

abbrev pub guarded : Bool → ℕ → Auth → Option AppError
guarded true target s = guard_last_admin target s
guarded false target s = none

abbrev pub signed_out : AuthEnv → Bool → ℕ → Auth → Auth
signed_out clock true id s = (revoke_all_sessions_for_user clock id s).1
signed_out clock false id s = s

unfoldable pub patch : AuthEnv → IdentityEnv → ℕ → UpdateUser → Auth → Result Account × Auth
unfolding guard_last_admin update_user revoke_all_sessions_for_user
patch clock env id body s = elim (guarded (is_demotion body.is_admin) id s) [
  | some e ↦ (err e, s)
  | none ↦
      (let changed = update_user env id body s in
        elim changed.0 [
          | err e ↦ (err e, changed.1)
          | ok user ↦ (ok user, signed_out clock (is_demotion body.is_admin) id changed.1)
        ])
]

-- The rows of `sessions` and `yggdrasil_tokens` go with their user.
abbrev pub without_user : ℕ → Auth → Auth
without_user id s = record s {
  accounts = keep (λ a. not (has_account_id id a)) s.accounts;
  sessions = keep (λ x. not (is_session_of id x)) s.sessions;
  tokens = keep (λ t. not (is_pair_of id t)) s.tokens;
}

unfoldable pub delete : ℕ → Auth → Result (Unit {0}) × Auth
unfolding load_user guard_last_admin
delete id s = elim (load_user id s) [
  | err e ↦ (err e, s)
  | ok user ↦ elim (guard_last_admin id s) [
    | some e ↦ (err e, s)
    | none ↦ (ok tt, without_user id s)
  ]
]

unfoldable pub block_user : IdentityEnv → ℕ → Auth → Result Account × Auth
unfolding guard_last_admin set_blocked
block_user env id s = elim (guard_last_admin id s) [
  | some e ↦ (err e, s)
  | none ↦ set_blocked env id true s
]

unfoldable pub unblock_user : IdentityEnv → ℕ → Auth → Result Account × Auth
unfolding set_blocked
unblock_user env id s = set_blocked env id false s

abbrev pub revoked : AuthEnv → ℕ → Auth → Auth
revoked clock id s =
    (invalidate_all_yggdrasil_for_user id (revoke_all_sessions_for_user clock id s).1).1

unfoldable pub reset_password : AuthEnv → IdentityEnv → ℕ → Text → Auth → Result (Unit {0}) × Auth
unfolding set_password revoke_all_sessions_for_user invalidate_all_yggdrasil_for_user
reset_password clock env id password s =
    let changed = set_password env id password s in
    elim changed.0 [ err e ↦ (err e, changed.1) | ok user ↦ (ok tt, revoked clock id changed.1) ]

unfoldable pub revoke_tokens : AuthEnv → ℕ → Auth → Result (Unit {0}) × Auth
unfolding load_user revoke_all_sessions_for_user invalidate_all_yggdrasil_for_user
revoke_tokens clock id s = elim (load_user id s) [
  | err e ↦ (err e, s)
  | ok user ↦ (ok tt, revoked clock id s)
]

-- `create` passes its body on.
unfoldable pub create_user : IdentityEnv → AdminCreateUser → Auth → Result Account × Auth
unfolding admin_create_user
create_user env body s = admin_create_user env body s

unfoldable pub login :
    AuthEnv → IdentityEnv → Text → Text → Auth → Result (Account × IssuedSession) × Auth
unfolding authenticate_password issue_session
login clock env username password s =
    let signed = authenticate_password env username password s in
    elim signed.0 [
      | err e ↦ (err e, signed.1)
      | ok user ↦
          if not user.is_admin
          then (err forbidden, signed.1)
          else (let issued = issue_session clock user.id signed.1 in
              elim issued.0 [ err e ↦ (err e, issued.1) | ok x ↦ (ok (user, x), issued.1) ])
    ]

unfoldable pub logout : AuthEnv → Text → HeaderMap → Auth → Auth
unfolding cookie_value revoke_session
logout clock cookie_name headers s = elim (cookie_value headers cookie_name) [
  | none ↦ s
  | some token ↦ (revoke_session clock token s).1
]

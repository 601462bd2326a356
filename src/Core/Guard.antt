-- ===== src/Core/Guard.antt =====
-- The extractors of crates/core/src/auth/mod.rs: whom a request is served as, and as whom it is
-- logged (crates/core/src/request_log.rs).
pub mod Soundness
use mathlib.Core.Bool.{Bool, true, false, ◌&&◌, not}
use loontail_minecraft_netwo.Prelude.{ℕ, Option, none, some, if◌then◌else◌}
use loontail_minecraft_netwo.Network.Effect.{AppError, unauthorized, forbidden}
use loontail_minecraft_netwo.Core.Account.{Text, Account, Auth, AuthEnv, Result, ok, err}
use loontail_minecraft_netwo.Core.Sessions.{find_joined, user_from_token}
use loontail_minecraft_netwo.Core.Headers.{
  HeaderMap, TokenSource, from_bearer, from_cookie, session_token, session_token_from_headers,
  verify_csrf, Method, is_mutating,
}

-- `ResolvedPrincipal`, by the three values of `auth_kind`.
pub data ResolvedPrincipal : Type 0 where
  anon : ResolvedPrincipal
  session admin : ℕ → ResolvedPrincipal

abbrev pub principal_of : Account → ResolvedPrincipal
principal_of a = if a.is_admin then admin a.id else session a.id

pub record Request : Type 0 where
  pub method : Method
  pub headers : HeaderMap

abbrev pub needs_csrf : TokenSource → Method → Bool
needs_csrf from_bearer method = false
needs_csrf from_cookie method = is_mutating method

-- The answer of `AuthUser::from_request_parts`, and what it publishes in the slot of the request log.
unfoldable pub auth_user :
    AuthEnv → Text → Request → Auth → Result Account × Option ResolvedPrincipal
unfolding session_token verify_csrf user_from_token
auth_user env cookie_name request s = elim (session_token request.headers cookie_name) [
  | none ↦ (err unauthorized, some anon)
  | some (token, source) ↦
      if needs_csrf source request.method && not (verify_csrf request.headers)
      then (err forbidden, none)
      else elim (user_from_token env token s) [
        | err e ↦ (err e, some anon)
        | ok a ↦ (ok a, some (principal_of a))
      ]
]

abbrev pub require_admin : Result Account → Result Account
require_admin (err e) = err e
require_admin (ok a) = if a.is_admin then ok a else err forbidden

unfoldable pub admin_user :
    AuthEnv → Text → Request → Auth → Result Account × Option ResolvedPrincipal
unfolding auth_user
admin_user env cookie_name request s =
    let answer = auth_user env cookie_name request s in (require_admin answer.0, answer.1)

-- `resolve_principal`: the lookup of the request log where the slot stayed empty.
unfoldable pub resolve_principal : AuthEnv → Text → HeaderMap → Auth → ResolvedPrincipal
unfolding session_token_from_headers find_joined
resolve_principal env cookie_name headers s =
    elim (session_token_from_headers headers cookie_name) [
      | none ↦ anon
      | some token ↦ elim (find_joined env.now (env.hash_token token) s.accounts s.sessions) [
        | none ↦ anon
        | some a ↦ principal_of a
      ]
    ]

-- The principal that the middleware logs.
abbrev pub logged_as :
    AuthEnv → Text → Request → Auth → Option ResolvedPrincipal → ResolvedPrincipal
logged_as env cookie_name request s (some principal) = principal
logged_as env cookie_name request s none = resolve_principal env cookie_name request.headers s

-- ===== src/Core/Guard/Soundness.antt =====
-- Whom the guards let in, and that the log names the same one.
use mathlib.Core.Bool.{true, false, ◌&&◌, not}
use loontail_minecraft_netwo.Prelude.{
  ◌≡◌, refl, ap, ◌∙◌, none, some, arith, Bool-cases, Option-cases, inl, inr, ◌==◌, ==-sound,
}
use loontail_minecraft_netwo.Prelude.Text.{bytes_eq}
use loontail_minecraft_netwo.Core.Account.{Text, Account, Auth, AuthEnv, ok, Result-cases}
use loontail_minecraft_netwo.Core.Sessions.{find_joined, user_from_token}
use loontail_minecraft_netwo.Core.Headers.{
  HeaderMap, is_empty, TokenSource, bearer_token_from_headers, cookie_value, session_token,
  session_token_from_headers, csrf_cookie_name, verify_csrf,
}
use loontail_minecraft_netwo.Core.Guard.{
  Request, needs_csrf, auth_user, admin_user, resolve_principal, logged_as,
}
use loontail_minecraft_netwo.Core.Headers.{from_cookie, is_mutating}

-- A request shows the double submit: the cookie and the header carry one text that is not empty.
abbrev pub Submits : HeaderMap → Type 0
Submits headers =
    (t : Text) × (cookie_value headers csrf_cookie_name ≡ some t)
    × (headers.x_csrf_token ≡ some t)
    × (is_empty t ≡ false)

verify_csrf-Submits : (headers : HeaderMap) → verify_csrf headers ≡ true → Submits headers
unfolding verify_csrf
verify_csrf-Submits headers h = elim (Option-cases (cookie_value headers csrf_cookie_name)) [
  | inl e ↦ absurd (let k = rw (e, verify_csrf) at h in cc)
  | inr (c, e) ↦ elim (Option-cases headers.x_csrf_token) [
    | inl f ↦ absurd (let k = rw (e, f, verify_csrf) at h in cc)
    | inr (x, f) ↦
        (let k = rw (e, f, verify_csrf) at h in
          let equal : (c == x) ≡ true = ground (arith, k) in
          let same : c ≡ x = ==-sound c x equal in (c, e, (rw same f), ground (arith, k)))
  ]
]

pub record Guarded (env : AuthEnv) (cookie_name : Text) (request : Request) (s : Auth) (a : Account)
    : Type 0 where
  pub token : Text
  pub source : TokenSource
  pub presented : session_token request.headers cookie_name ≡ some (token, source)
  pub resolved : user_from_token env token s ≡ ok a
  pub admin : a.is_admin ≡ true
  pub submits : source ≡ from_cookie → is_mutating request.method ≡ true → Submits request.headers

auth_user-cases :
    (env : AuthEnv) (cookie_name : Text) (request : Request) (s : Auth) (a : Account)
    → (auth_user env cookie_name request s).0 ≡ ok a
    → (token : Text) × (source : TokenSource) × (session_token request.headers cookie_name
        ≡ some (token, source))
      × (user_from_token env token s ≡ ok a)
      × ((needs_csrf source request.method && not (verify_csrf request.headers)) ≡ false)
unfolding auth_user
auth_user-cases env cookie_name request s a h =
    elim (Option-cases (session_token request.headers cookie_name)) [
      | inl e ↦ absurd (let k = rw (e, auth_user) at h in cc)
      | inr ((token, source), e) ↦
          elim (Bool-cases
            (needs_csrf source request.method && not (verify_csrf request.headers))) [
              | inl y ↦ absurd (let k = rw (e, y, auth_user) at h in cc)
              | inr n ↦ elim (Result-cases (user_from_token env token s)) [
                | inr (r, f) ↦ absurd (let k = rw (e, n, f, auth_user) at h in cc)
                | inl (b, f) ↦
                    (let k = rw (e, n, f, auth_user) at h in (token, source, e, f ∙ k, n))
              ]
            ]
    ]

-- Whoever is served as an administrator presented a token, as a bearer or in the cookie, whose
-- session is live and whose account is an administrator's; and a request that changes something
-- and rode on the cookie showed the double submit.
pub admin_user-Guarded :
    (env : AuthEnv) (cookie_name : Text) (request : Request) (s : Auth) (a : Account)
    → (admin_user env cookie_name request s).0 ≡ ok a
    → Guarded env cookie_name request s a
unfolding admin_user
admin_user-Guarded env cookie_name request s a h =
    elim (Result-cases (auth_user env cookie_name request s).0) [
      | inr (r, e) ↦ absurd (let k = rw (e, admin_user) at h in cc)
      | inl (b, e) ↦ elim (Bool-cases b.is_admin) [
        | inr n ↦ absurd (let k = rw (e, n, admin_user) at h in cc)
        | inl y ↦
            (let k = rw (e, y, admin_user) at h in
              let same : b ≡ a = cc in
              let (token, source, p, f, n) =
                auth_user-cases env cookie_name request s a (e ∙ ap (λ z. ok z) same) in
              record {
                token = token;
                source = source;
                presented = p;
                resolved = f;
                admin = rw (← same) y;
                submits = λ cookie changes.
                    verify_csrf-Submits request.headers (ground (arith, cookie, changes, n));
              })
      ]
    ]

token_of_source :
    (headers : HeaderMap) (cookie_name : Text)
    → session_token_from_headers headers cookie_name
      ≡ elim (session_token headers cookie_name) [ none ↦ none | some (token, source) ↦ some token ]
unfolding session_token_from_headers session_token
token_of_source headers cookie_name = elim (Option-cases (bearer_token_from_headers headers)) [
  | inr (t, e) ↦ rw (e, session_token_from_headers, session_token) refl
  | inl e ↦ elim (Option-cases (cookie_value headers cookie_name)) [
    | inl f ↦ rw (e, f, session_token_from_headers, session_token) refl
    | inr (t, f) ↦ rw (e, f, session_token_from_headers, session_token) refl
  ]
]

-- The guard's answer is reused by the request log: what it leaves in the slot is logged as exactly
-- the principal that the log would have looked up by itself, on every branch.
pub logged_as-auth_user :
    (env : AuthEnv) (cookie_name : Text) (request : Request) (s : Auth)
    → logged_as env cookie_name request s (auth_user env cookie_name request s).1
      ≡ resolve_principal env cookie_name request.headers s
unfolding auth_user resolve_principal user_from_token
logged_as-auth_user env cookie_name request s =
    let t = token_of_source request.headers cookie_name in
    elim (Option-cases (session_token request.headers cookie_name)) [
      | inl e ↦ (let k = rw e at t in rw (e, k, auth_user, resolve_principal) refl)
      | inr ((token, source), e) ↦
          (let k = rw e at t in
            elim (Bool-cases
              (needs_csrf source request.method && not (verify_csrf request.headers))) [
                | inl y ↦ rw (e, y, auth_user) refl
                | inr n ↦
                    elim (Option-cases
                      (find_joined env.now (env.hash_token token) s.accounts s.sessions)) [
                        | inl f ↦
                            rw (e, n, k, f, auth_user, resolve_principal, user_from_token) refl
                        | inr (a, f) ↦
                            rw (e, n, k, f, auth_user, resolve_principal, user_from_token) refl
                      ]
              ])
    ]

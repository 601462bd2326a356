-- ===== src/Admin/Users/LastAdmin.antt =====
-- The operations of administrators never lock all of them out.
use mathlib.Core.Bool.{Bool, true, false, ◌&&◌, not}
use loontail_minecraft_netwo.Prelude.{
  ℕ, ◌≤◌, ◌≡◌, ◌⊎◌, refl, Option, none, some, count_where, arith, Bool-cases, Option-cases, inl,
  inr,
}
use loontail_minecraft_netwo.Network.Effect.{AppError, not_found}
use loontail_minecraft_netwo.Core.Account.{Text, Account, Auth, AuthEnv, Result-cases}
use loontail_minecraft_netwo.Core.Tokens.{invalidate_all_yggdrasil_for_user}
use loontail_minecraft_netwo.Core.Sessions.{revoke_all_sessions_for_user}
use loontail_minecraft_netwo.Core.Identity.{
  IdentityEnv, Violation, violation, insert_account, update_account, map_create_conflict,
  plain_database, password_fits, reconcile_profile_uuid, new_account,
}
use loontail_minecraft_netwo.Core.Identity.Registry.{
  AdminCreateUser, admin_create_user, given, bool_or, UpdateUser, updated, update_user,
  with_password, set_password, with_blocked, set_blocked, load_user,
}
use loontail_minecraft_netwo.Core.Headers.{is_empty}
use loontail_minecraft_netwo.Admin.Users.{
  is_usable_admin, guard_last_admin, is_demotion, guarded, patch, delete, block_user, unblock_user,
  reset_password, revoke_tokens, create_user,
}
use loontail_minecraft_netwo.Admin.Users.Counting.{
  usable, OneRow, usable-changed, usable-others, spared-changed, spared-others, kept-changed,
  guard-none, update_account-state,
}

-- A change under the guard.
guarded-usable :
    (env : IdentityEnv) (m : Violation → AppError) (absent : AppError) (id : ℕ)
    (f : Account → Account) (s : Auth)
    → OneRow s
    → guard_last_admin id s ≡ none
    → 1 ≤ usable s.accounts
    → 1 ≤ usable (update_account env m absent id f s).1.accounts
guarded-usable env m absent id f s one g u = elim (update_account-state env m absent id f s) [
  | inl e ↦ rw e u
  | inr e ↦ elim (guard-none id s g) [
    | inl n ↦ rw e (omega (arith, spared-changed id f s.accounts n, u))
    | inr n ↦ rw e (omega (arith, usable-changed id f s.accounts, one id, n))
  ]
]

harmless-usable :
    (env : IdentityEnv) (m : Violation → AppError) (absent : AppError) (id : ℕ)
    (f : Account → Account) (s : Auth)
    → ((a : Account) → is_usable_admin a ≡ true → is_usable_admin (f a) ≡ true)
    → 1 ≤ usable s.accounts
    → 1 ≤ usable (update_account env m absent id f s).1.accounts
harmless-usable env m absent id f s k u = elim (update_account-state env m absent id f s) [
  | inl e ↦ rw e u
  | inr e ↦ rw e (omega (arith, kept-changed id f s.accounts k, u))
]

promoted-kept :
    (a : Account) (o : Option Bool)
    → is_demotion o ≡ false
    → is_usable_admin a ≡ true
    → (bool_or a.is_admin o && not a.blocked) ≡ true
promoted-kept a none n h = h
promoted-kept a (some true) n h = ground (arith, h)
promoted-kept a (some false) n h = absurd (cc)

patched-usable :
    (env : IdentityEnv) (id : ℕ) (body : UpdateUser) (s : Auth)
    → OneRow s
    → guarded (is_demotion body.is_admin) id s ≡ none
    → 1 ≤ usable s.accounts
    → 1 ≤ usable (update_user env id body s).1.accounts
unfolding update_user
patched-usable env id body s one g u = elim (Bool-cases (is_demotion body.is_admin)) [
  | inl y ↦
      (let k = rw y at g in
        guarded-usable env map_create_conflict (not_found "user not found") id (updated env body) s
          one k u)
  | inr n ↦
      harmless-usable env map_create_conflict (not_found "user not found") id (updated env body) s
        (λ a h. promoted-kept a body.is_admin n h) u
]

patch-usable :
    (clock : AuthEnv) (env : IdentityEnv) (id : ℕ) (body : UpdateUser) (s : Auth)
    → OneRow s
    → 1 ≤ usable s.accounts
    → 1 ≤ usable (patch clock env id body s).1.accounts
unfolding patch update_user revoke_all_sessions_for_user
patch-usable clock env id body s one u =
    elim (Option-cases (guarded (is_demotion body.is_admin) id s)) [
      | inr (e, g) ↦ rw (g, patch) u
      | inl g ↦
          (let safe : 1 ≤ usable (update_user env id body s).1.accounts =
              patched-usable env id body s one g u in
            elim (Result-cases (update_user env id body s).0) [
              | inr (e, h) ↦ rw (g, h, patch) safe
              | inl (a, h) ↦ elim (Bool-cases (is_demotion body.is_admin)) [
                | inl y ↦ rw (g, h, y, patch) safe
                | inr n ↦ rw (g, h, n, patch) safe
              ]
            ])
    ]

delete-usable :
    (id : ℕ) (s : Auth) → OneRow s → 1 ≤ usable s.accounts → 1 ≤ usable (delete id s).1.accounts
unfolding delete
delete-usable id s one u = elim (Result-cases (load_user id s)) [
  | inr (e, h) ↦ rw (h, delete) u
  | inl (a, h) ↦ elim (Option-cases (guard_last_admin id s)) [
    | inr (e, g) ↦ rw (h, g, delete) u
    | inl g ↦ elim (guard-none id s g) [
      | inl n ↦ rw (h, g, delete) (omega (arith, spared-others id s.accounts n, u))
      | inr n ↦ rw (h, g, delete) (omega (arith, usable-others id s.accounts, one id, n))
    ]
  ]
]

block-usable :
    (env : IdentityEnv) (id : ℕ) (s : Auth)
    → OneRow s
    → 1 ≤ usable s.accounts
    → 1 ≤ usable (block_user env id s).1.accounts
unfolding block_user set_blocked
block-usable env id s one u = elim (Option-cases (guard_last_admin id s)) [
  | inr (e, g) ↦ rw (g, block_user) u
  | inl g ↦
      rw (g, block_user)
        (guarded-usable env plain_database (not_found "user not found") id (with_blocked true) s one
          g u)
]

set_password-usable :
    (env : IdentityEnv) (id : ℕ) (new : Text) (s : Auth)
    → 1 ≤ usable s.accounts
    → 1 ≤ usable (set_password env id new s).1.accounts
unfolding set_password
set_password-usable env id new s u = elim (Bool-cases (password_fits new)) [
  | inr n ↦ rw (n, set_password) u
  | inl y ↦
      rw (y, set_password)
        (harmless-usable env plain_database (not_found "user not found") id
          (with_password (env.hash_password new)) s (λ a h. h) u)
]

reset-usable :
    (clock : AuthEnv) (env : IdentityEnv) (id : ℕ) (new : Text) (s : Auth)
    → 1 ≤ usable s.accounts
    → 1 ≤ usable (reset_password clock env id new s).1.accounts
unfolding reset_password revoke_all_sessions_for_user invalidate_all_yggdrasil_for_user
reset-usable clock env id new s u = elim (Result-cases (set_password env id new s).0) [
  | inr (e, h) ↦ rw (h, reset_password) (set_password-usable env id new s u)
  | inl (a, h) ↦ rw (h, reset_password) (set_password-usable env id new s u)
]

revoke-usable :
    (clock : AuthEnv) (id : ℕ) (s : Auth)
    → 1 ≤ usable s.accounts
    → 1 ≤ usable (revoke_tokens clock id s).1.accounts
unfolding revoke_tokens revoke_all_sessions_for_user invalidate_all_yggdrasil_for_user
revoke-usable clock id s u = elim (Result-cases (load_user id s)) [
  | inr (e, h) ↦ rw (h, revoke_tokens) u
  | inl (a, h) ↦ rw (h, revoke_tokens) u
]

insert-usable :
    (env : IdentityEnv) (m : Violation → AppError) (row : Account) (s : Auth)
    → 1 ≤ usable s.accounts
    → 1 ≤ usable (insert_account env m row s).1.accounts
unfolding insert_account count_where
insert-usable env m row s u = elim (Option-cases (violation env row s.accounts)) [
  | inr (v, h) ↦ rw (h, insert_account) u
  | inl h ↦ rw (h, insert_account) (ground (arith, u))
]

admin_create_user-cases :
    (env : IdentityEnv) (body : AdminCreateUser) (s : Auth)
    → ((admin_create_user env body s).1 ≡ s)
      ⊎ ((row : Account) × ((admin_create_user env body s).1
            ≡ (insert_account env map_create_conflict row s).1))
unfolding admin_create_user
admin_create_user-cases env body s = elim (Bool-cases (is_empty (env.trim body.username))) [
  | inl y ↦ inl (rw (y, admin_create_user) refl)
  | inr n ↦ elim (Bool-cases (is_empty (env.trim body.email))) [
    | inl y ↦ inl (rw (n, y, admin_create_user) refl)
    | inr m ↦ elim (Bool-cases (password_fits body.password)) [
      | inr k ↦ inl (rw (n, m, k, admin_create_user) refl)
      | inl k ↦
          elim (Result-cases (reconcile_profile_uuid env (given env body.minecraft_uuid) none)) [
            | inr (x, r) ↦ inl (rw (n, m, k, r, admin_create_user) refl)
            | inl (profile, r) ↦
                (let row =
                    new_account env s.next_id (given env body.minecraft_uuid)
                      (env.trim body.username) (some (env.trim body.email))
                      (some (env.hash_password body.password)) profile true body.is_admin in
                  inr (row, rw (n, m, k, r, admin_create_user) refl))
          ]
    ]
  ]
]

create-usable :
    (env : IdentityEnv) (body : AdminCreateUser) (s : Auth)
    → 1 ≤ usable s.accounts
    → 1 ≤ usable (create_user env body s).1.accounts
unfolding create_user admin_create_user
create-usable env body s u = elim (admin_create_user-cases env body s) [
  | inl e ↦ rw (create_user, e) u
  | inr (row, e) ↦ rw (create_user, e) (insert-usable env map_create_conflict row s u)
]

pub data Call : Type 0 where
  creates : (body : AdminCreateUser) → Call
  patches : (id : ℕ) (body : UpdateUser) → Call
  deletes blocks unblocks revokes : (id : ℕ) → Call
  resets : (id : ℕ) (password : Text) → Call

unfoldable pub step : AuthEnv → IdentityEnv → Call → Auth → Auth
step clock env (creates body) s = (create_user env body s).1
step clock env (patches id body) s = (patch clock env id body s).1
step clock env (deletes id) s = (delete id s).1
step clock env (blocks id) s = (block_user env id s).1
step clock env (unblocks id) s = (unblock_user env id s).1
step clock env (revokes id) s = (revoke_tokens clock id s).1
step clock env (resets id password) s = (reset_password clock env id password s).1

-- Where ids name one account, no call of an administrator, whatever it answers, takes away the last
-- account that is an administrator's and not blocked.
pub step-usable :
    (clock : AuthEnv) (env : IdentityEnv) (c : Call) (s : Auth)
    → OneRow s
    → 1 ≤ usable s.accounts
    → 1 ≤ usable (step clock env c s).accounts
unfolding step unblock_user set_blocked
step-usable clock env (creates body) s one u = create-usable env body s u
step-usable clock env (patches id body) s one u = patch-usable clock env id body s one u
step-usable clock env (deletes id) s one u = delete-usable id s one u
step-usable clock env (blocks id) s one u = block-usable env id s one u
step-usable clock env (unblocks id) s one u =
    harmless-usable env plain_database (not_found "user not found") id (with_blocked false) s
      (λ a h. ground (arith, h)) u
step-usable clock env (revokes id) s one u = revoke-usable clock id s u
step-usable clock env (resets id password) s one u = reset-usable clock env id password s u

-- ===== src/Core/Identity/Kept.antt =====
-- The statements of identity.rs keep the reconciliation rule.
use mathlib.Core.Bool.{Bool, true, false, ◌&&◌, ◌||◌}
use loontail_minecraft_netwo.Prelude.{
  ℕ, ◌≡◌, refl, none, some, find, find_sound, Bool-cases, Option-cases, inl, inr,
}
use loontail_minecraft_netwo.Prelude.Text.{bytes_eq}
use loontail_minecraft_netwo.Network.Effect.{database, not_found}
use loontail_minecraft_netwo.Core.Account.{Text, Account, Auth, Result-cases}
use loontail_minecraft_netwo.Core.Tokens.{is_eligible}
use loontail_minecraft_netwo.Core.Headers.{is_empty}
use loontail_minecraft_netwo.Core.Identity.{
  IdentityEnv, normalize_username, is_valid_email, password_fits, both_same, map_username_conflict,
  map_create_conflict, plain_database, reconcile_profile_uuid, with_profile,
  assign_or_reconcile_profile_uuid, answers_to, password_holds, authenticate_password, refreshed,
  new_account, has_minecraft_uuid, has_profile_uuid, bind_or_create, find_or_create_from_bootstrap,
}
use loontail_minecraft_netwo.Core.Identity.Registry.{
  AdminCreateUser, given, admin_create_user, register_user, with_password, set_password,
}
use loontail_minecraft_netwo.Core.Identity.Table.{key_of, find-by_id}
use loontail_minecraft_netwo.Yggdrasil.Uuid
use loontail_minecraft_netwo.Core.Identity.Invariant.{
  Holds, insert-Holds, update-Holds, Agrees-pair, Agrees-none, Uuid-cases, reconcile-Agrees,
}

assign-Holds :
    (env : IdentityEnv) (q : Account → Bool) (user : Account) (s : Auth)
    → find q s.accounts ≡ some user
    → Holds env s
    → Holds env (assign_or_reconcile_profile_uuid env user s).1
unfolding assign_or_reconcile_profile_uuid
assign-Holds env q user s e v =
    elim (Result-cases (reconcile_profile_uuid env user.minecraft_uuid user.profile_uuid)) [
      | inr (x, r) ↦ rw (r, assign_or_reconcile_profile_uuid) v
      | inl (desired, r) ↦ elim (Bool-cases (both_same user.profile_uuid (some desired))) [
        | inl y ↦ rw (r, y, assign_or_reconcile_profile_uuid) v
        | inr n ↦
            (let there = (find-by_id q s.accounts user v.one_row e).0 in
              rw (r, n, assign_or_reconcile_profile_uuid)
                (update-Holds env plain_database database user.id (with_profile desired) s
                  (λ a. refl)
                  (λ a f old.
                    (let same : user ≡ a = cc in
                      rw (← same) (
                        reconcile-Agrees env user.profile_uuid desired (with_profile desired user) r
                          refl)))
                  v))
      ]
    ]

pub authenticate-Holds :
    (env : IdentityEnv) (text password : Text) (s : Auth)
    → Holds env s
    → Holds env (authenticate_password env text password s).1
unfolding authenticate_password
authenticate-Holds env text password s v =
    let wanted = normalize_username env (env.trim text) in
    elim (Bool-cases (is_empty (env.trim text) || is_empty password)) [
      | inl y ↦ rw (y, authenticate_password) v
      | inr n ↦ elim (Option-cases (find (answers_to env wanted) s.accounts)) [
        | inl e ↦ rw (n, e, authenticate_password) v
        | inr (user, e) ↦
            elim (Bool-cases (password_holds env password user.password_hash && is_eligible user)) [
              | inr m ↦ rw (n, e, m, authenticate_password) v
              | inl y ↦
                  rw (n, e, y, authenticate_password)
                    (assign-Holds env (answers_to env wanted) user s e v)
            ]
      ]
    ]

bind-Holds :
    (env : IdentityEnv) (mc username profile : Text) (s : Auth)
    → Uuid.undash_uuid mc ≡ Uuid.ok profile
    → Holds env s
    → Holds env (bind_or_create env mc username profile s).1
unfolding bind_or_create
bind-Holds env mc username profile s u v =
    elim (Option-cases (find (has_minecraft_uuid mc) s.accounts)) [
      | inr (old, e) ↦
          (let there = (find-by_id (has_minecraft_uuid mc) s.accounts old v.one_row e).0 in
            let known =
              key_of old.minecraft_uuid mc (find_sound (has_minecraft_uuid mc) s.accounts old e) in
            rw (e, bind_or_create)
              (update-Holds env map_username_conflict database old.id
                (refreshed env username none (some profile)) s (λ a. refl)
                (λ a f h.
                  (let same : old ≡ a = cc in
                    rw (← same) (
                      Agrees-pair mc profile (refreshed env username none (some profile) old) u
                        known refl)))
                v))
      | inl n ↦ elim (Option-cases (find (has_profile_uuid profile) s.accounts)) [
        | inr (old, e) ↦
            (let there = (find-by_id (has_profile_uuid profile) s.accounts old v.one_row e).0 in
              let known =
                key_of old.profile_uuid profile
                  (find_sound (has_profile_uuid profile) s.accounts old e) in
              rw (n, e, bind_or_create)
                (update-Holds env map_username_conflict database old.id
                  (refreshed env username (some mc) none) s (λ a. refl)
                  (λ a f h.
                    (let same : old ≡ a = cc in
                      rw (← same) (
                        Agrees-pair mc profile (refreshed env username (some mc) none old) u refl
                          known)))
                  v))
        | inl m ↦
            (let row =
                new_account env s.next_id (some mc) (env.trim username) none none profile false
                  false in
              rw (n, m, bind_or_create)
                (insert-Holds env map_username_conflict row s refl
                  (Agrees-pair mc profile row u refl refl) v))
      ]
    ]

pub bootstrap-Holds :
    (env : IdentityEnv) (mc username : Text) (s : Auth)
    → Holds env s
    → Holds env (find_or_create_from_bootstrap env mc username s).1
unfolding find_or_create_from_bootstrap
bootstrap-Holds env mc username s v = elim (Bool-cases (is_empty (env.trim mc))) [
  | inl y ↦ rw (y, find_or_create_from_bootstrap) v
  | inr n ↦ elim (Bool-cases (is_empty (env.trim username))) [
    | inl y ↦ rw (n, y, find_or_create_from_bootstrap) v
    | inr m ↦ elim (Uuid-cases (Uuid.undash_uuid (env.trim mc))) [
      | inr (x, e) ↦ rw (n, m, e, find_or_create_from_bootstrap) v
      | inl (p, e) ↦
          rw (n, m, e, find_or_create_from_bootstrap)
            (bind-Holds env (env.trim mc) username p s e v)
    ]
  ]
]

pub create-Holds :
    (env : IdentityEnv) (input : AdminCreateUser) (s : Auth)
    → Holds env s
    → Holds env (admin_create_user env input s).1
unfolding admin_create_user
create-Holds env input s v = elim (Bool-cases (is_empty (env.trim input.username))) [
  | inl y ↦ rw (y, admin_create_user) v
  | inr n ↦ elim (Bool-cases (is_empty (env.trim input.email))) [
    | inl y ↦ rw (n, y, admin_create_user) v
    | inr m ↦ elim (Bool-cases (password_fits input.password)) [
      | inr k ↦ rw (n, m, k, admin_create_user) v
      | inl k ↦
          elim (Result-cases (reconcile_profile_uuid env (given env input.minecraft_uuid) none)) [
            | inr (x, r) ↦ rw (n, m, k, r, admin_create_user) v
            | inl (profile, r) ↦
                (let row =
                    new_account env s.next_id (given env input.minecraft_uuid)
                      (env.trim input.username) (some (env.trim input.email))
                      (some (env.hash_password input.password)) profile true input.is_admin in
                  rw (n, m, k, r, admin_create_user)
                    (insert-Holds env map_create_conflict row s refl
                      (reconcile-Agrees env none profile row r refl) v))
          ]
    ]
  ]
]

pub register-Holds :
    (env : IdentityEnv) (name address password : Text) (s : Auth)
    → Holds env s
    → Holds env (register_user env name address password s).1
unfolding register_user
register-Holds env name address password s v = elim (Bool-cases (is_empty (env.trim name))) [
  | inl y ↦ rw (y, register_user) v
  | inr n ↦ elim (Bool-cases (is_valid_email env (env.trim address))) [
    | inr m ↦ rw (n, m, register_user) v
    | inl m ↦ elim (Bool-cases (password_fits password)) [
      | inr k ↦ rw (n, m, k, register_user) v
      | inl k ↦
          (let row =
              new_account env s.next_id none (env.trim name) (some (env.trim address))
                (some (env.hash_password password)) env.random_profile_uuid true false in
            rw (n, m, k, register_user)
              (insert-Holds env map_create_conflict row s refl (Agrees-none row refl) v))
    ]
  ]
]

pub set_password-Holds :
    (env : IdentityEnv) (id : ℕ) (new : Text) (s : Auth)
    → Holds env s
    → Holds env (set_password env id new s).1
unfolding set_password
set_password-Holds env id new s v = elim (Bool-cases (password_fits new)) [
  | inr n ↦ rw (n, set_password) v
  | inl y ↦
      rw (y, set_password)
        (update-Holds env plain_database (not_found "user not found") id
          (with_password (env.hash_password new)) s (λ a. refl) (λ a e h. h) v)
]

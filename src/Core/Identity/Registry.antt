-- ===== src/Core/Identity/Registry.antt =====
-- crates/core/src/identity.rs: registration, and what an administrator does to an account; and the
-- link that crates/network/src/users.rs makes to a Minecraft identity.
use mathlib.Core.Bool.{Bool, true, false, not}
use loontail_minecraft_netwo.Prelude.{ℕ, Option, none, some, find, if◌then◌else◌}
use loontail_minecraft_netwo.Network.Effect.{AppError, bad_request, not_found, conflict, database}
use loontail_minecraft_netwo.Core.Account.{Text, Account, Auth, Result, ok, err}
use loontail_minecraft_netwo.Core.Tokens.{has_account_id}
use loontail_minecraft_netwo.Core.Headers.{is_empty, non_empty}
use loontail_minecraft_netwo.Core.Identity.{
  IdentityEnv, Violation, on_minecraft_uuid, normalize_username, is_valid_email, password_fits,
  password_error, map_create_conflict, plain_database, insert_account, update_account,
  reconcile_profile_uuid, new_account, has_profile_uuid, coalesce,
}

pub record AdminCreateUser : Type 0 where
  pub username : Text
  pub email : Text
  pub password : Text
  pub minecraft_uuid : Option Text
  pub is_admin : Bool

-- A blank Minecraft UUID is none.
abbrev pub given : IdentityEnv → Option Text → Option Text
given env none = none
given env (some mc) = non_empty (env.trim mc)

unfoldable pub admin_create_user : IdentityEnv → AdminCreateUser → Auth → Result Account × Auth
unfolding insert_account reconcile_profile_uuid
admin_create_user env input s =
    let username = env.trim input.username in
    let email = env.trim input.email in
    if is_empty username
    then (err (bad_request "username is required"), s)
    else (if is_empty email
        then (err (bad_request "email is required"), s)
        else (if not (password_fits input.password)
            then (err (password_error input.password), s)
            else elim (reconcile_profile_uuid env (given env input.minecraft_uuid) none) [
              | err e ↦ (err e, s)
              | ok profile ↦
                  insert_account env map_create_conflict
                    (new_account env s.next_id (given env input.minecraft_uuid) username
                      (some email) (some (env.hash_password input.password)) profile true
                      input.is_admin)
                    s
            ]))

unfoldable pub register_user : IdentityEnv → Text → Text → Text → Auth → Result Account × Auth
unfolding insert_account is_valid_email
register_user env name address password s =
    let username = env.trim name in
    let email = env.trim address in
    if is_empty username
    then (err (bad_request "username is required"), s)
    else (if not (is_valid_email env email)
        then (err (bad_request "a valid email is required"), s)
        else (if not (password_fits password)
            then (err (password_error password), s)
            else insert_account env map_create_conflict
                (new_account env s.next_id none username (some email)
                  (some (env.hash_password password)) env.random_profile_uuid true false)
                s))

pub record UpdateUser : Type 0 where
  pub username : Option Text
  pub email : Option Text
  pub is_admin : Option Bool
  pub confirmed : Option Bool

abbrev pub text_or : Text → Option Text → Text
text_or old none = old
text_or old (some new) = new

abbrev pub bool_or : Bool → Option Bool → Bool
bool_or old none = old
bool_or old (some new) = new

abbrev pub normalized_or : IdentityEnv → Text → Option Text → Text
normalized_or env old none = old
normalized_or env old (some new) = normalize_username env new

abbrev pub updated : IdentityEnv → UpdateUser → Account → Account
updated env patch a = record a {
  username = text_or a.username patch.username;
  normalized_username = normalized_or env a.normalized_username patch.username;
  email = coalesce patch.email a.email;
  is_admin = bool_or a.is_admin patch.is_admin;
  confirmed = bool_or a.confirmed patch.confirmed;
}

unfoldable pub update_user : IdentityEnv → ℕ → UpdateUser → Auth → Result Account × Auth
unfolding update_account
update_user env id patch s =
    update_account env map_create_conflict (not_found "user not found") id (updated env patch) s

abbrev pub with_password : Text → Account → Account
with_password hash a = record a { password_hash = some hash }

unfoldable pub set_password : IdentityEnv → ℕ → Text → Auth → Result Account × Auth
unfolding update_account
set_password env id new s =
    if not (password_fits new)
    then (err (password_error new), s)
    else update_account env plain_database (not_found "user not found") id
        (with_password (env.hash_password new)) s

abbrev pub with_blocked : Bool → Account → Account
with_blocked blocked a = record a { blocked = blocked }

-- `block` and `unblock`
unfoldable pub set_blocked : IdentityEnv → ℕ → Bool → Auth → Result Account × Auth
unfolding update_account
set_blocked env id blocked s =
    update_account env plain_database (not_found "user not found") id (with_blocked blocked) s

-- `NULLIF(minecraft_uuid, '')`, where the account has no Minecraft UUID yet.
abbrev pub linked : IdentityEnv → Text → Account → Account
linked env mc a = record a { minecraft_uuid = coalesce a.minecraft_uuid (non_empty (env.trim mc)) }

abbrev pub map_bootstrap_conflict : Violation → AppError
map_bootstrap_conflict on_minecraft_uuid =
    conflict "this Minecraft account is already linked to another user"
map_bootstrap_conflict _ = database

-- The account statement of crates/network/src/users.rs, for the columns of an account.
unfoldable pub link_minecraft_uuid : IdentityEnv → ℕ → Text → Auth → Result Account × Auth
unfolding update_account
link_minecraft_uuid env id mc s =
    update_account env map_bootstrap_conflict database id (linked env mc) s

unfoldable pub load_user : ℕ → Auth → Result Account
load_user id s = elim (find (has_account_id id) s.accounts) [
  | none ↦ err (not_found "user not found")
  | some a ↦ ok a
]

unfoldable pub find_by_profile_uuid : Text → Auth → Option Account
find_by_profile_uuid profile s = find (has_profile_uuid profile) s.accounts
